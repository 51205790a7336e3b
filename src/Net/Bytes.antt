-- ===== src/Net/Bytes.antt =====
-- drivers/net.c: numbers in network order.
use minerva_os.Base.{ℕ, ◌+◌, ◌*◌, ◌%◌, ◌^◌, List, [], ◌∷◌, get_or, bit_or, bit_and}
use minerva_os.Base.Bits.{shr}

-- `put16be`: the bytes that it writes.
abbrev pub put16be : ℕ → List ℕ
put16be value = (shr value 8 % 2 ^ 8) ∷ bit_and value 0xFF ∷ []

-- `get16be` at an offset
unfoldable pub get16be : List ℕ → ℕ → ℕ
get16be src at = bit_or (get_or src at 0 * 2 ^ 8 % 2 ^ 16) (get_or src (at + 1) 0)

-- `get24be` at an offset
unfoldable pub get24be : List ℕ → ℕ → ℕ
get24be src at =
    bit_or (bit_or (get_or src at 0 * 2 ^ 16) (get_or src (at + 1) 0 * 2 ^ 8))
      (get_or src (at + 2) 0)
