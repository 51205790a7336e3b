-- ===== src/Fs/Bytes.antt =====
-- fs/fat32.c: numbers in a sector, low byte first.
pub mod RoundTrip
use minerva_os.Base.{ℕ, ◌+◌, ◌*◌, ◌%◌, ◌^◌, List, get_or, set, bit_or, bit_and}
use minerva_os.Base.Bits.{shr}

-- `rd16(sector + at)`
unfoldable pub rd16 : List ℕ → ℕ → ℕ
rd16 p at = bit_or (get_or p at 0) (2 ^ 8 * get_or p (at + 1) 0 % 2 ^ 16)

-- `rd32(sector + at)`
unfoldable pub rd32 : List ℕ → ℕ → ℕ
rd32 p at =
    bit_or
      (bit_or (bit_or (get_or p at 0) (2 ^ 8 * get_or p (at + 1) 0)) (2 ^ 16 * get_or p (at + 2) 0))
      (2 ^ 24 * get_or p (at + 3) 0 % 2 ^ 32)

-- `wr16(sector + at, value)`
unfoldable pub wr16 : List ℕ → ℕ → ℕ → List ℕ
wr16 p at value = set (set p at (bit_and value 0xFF)) (at + 1) (bit_and (shr value 8) 0xFF)

-- `wr32(sector + at, value)`
unfoldable pub wr32 : List ℕ → ℕ → ℕ → List ℕ
wr32 p at value =
    set
      (set (set (set p at (bit_and value 0xFF)) (at + 1) (bit_and (shr value 8) 0xFF)) (at + 2)
        (bit_and (shr value 16) 0xFF))
      (at + 3) (bit_and (shr value 24) 0xFF)
