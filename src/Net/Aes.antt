-- ===== src/Net/Aes.antt =====
-- drivers/net.c: AES-128, on blocks of sixteen bytes.
use minerva_os.Base.{
  ℕ, zero, suc, ◌+◌, ◌-◌, ◌*◌, ◌%◌, List, [], ◌∷◌, ◌++◌, map, if◌then◌else◌, ◌==◌, get_or, take,
  bit_xor, bit_and,
}
use minerva_os.Base.Cuts.{drop}

-- `aes_sbox`
abbrev pub aes_sbox : List ℕ
aes_sbox =
    0x63 ∷ 0x7C ∷ 0x77 ∷ 0x7B ∷ 0xF2 ∷ 0x6B ∷ 0x6F ∷ 0xC5 ∷ 0x30 ∷ 0x01 ∷ 0x67 ∷ 0x2B ∷ 0xFE ∷ 0xD7
    ∷ 0xAB ∷ 0x76 ∷ 0xCA ∷ 0x82 ∷ 0xC9 ∷ 0x7D ∷ 0xFA ∷ 0x59 ∷ 0x47 ∷ 0xF0 ∷ 0xAD ∷ 0xD4 ∷ 0xA2
    ∷ 0xAF ∷ 0x9C ∷ 0xA4 ∷ 0x72 ∷ 0xC0 ∷ 0xB7 ∷ 0xFD ∷ 0x93 ∷ 0x26 ∷ 0x36 ∷ 0x3F ∷ 0xF7 ∷ 0xCC
    ∷ 0x34 ∷ 0xA5 ∷ 0xE5 ∷ 0xF1 ∷ 0x71 ∷ 0xD8 ∷ 0x31 ∷ 0x15 ∷ 0x04 ∷ 0xC7 ∷ 0x23 ∷ 0xC3 ∷ 0x18
    ∷ 0x96 ∷ 0x05 ∷ 0x9A ∷ 0x07 ∷ 0x12 ∷ 0x80 ∷ 0xE2 ∷ 0xEB ∷ 0x27 ∷ 0xB2 ∷ 0x75 ∷ 0x09 ∷ 0x83
    ∷ 0x2C ∷ 0x1A ∷ 0x1B ∷ 0x6E ∷ 0x5A ∷ 0xA0 ∷ 0x52 ∷ 0x3B ∷ 0xD6 ∷ 0xB3 ∷ 0x29 ∷ 0xE3 ∷ 0x2F
    ∷ 0x84 ∷ 0x53 ∷ 0xD1 ∷ 0x00 ∷ 0xED ∷ 0x20 ∷ 0xFC ∷ 0xB1 ∷ 0x5B ∷ 0x6A ∷ 0xCB ∷ 0xBE ∷ 0x39
    ∷ 0x4A ∷ 0x4C ∷ 0x58 ∷ 0xCF ∷ 0xD0 ∷ 0xEF ∷ 0xAA ∷ 0xFB ∷ 0x43 ∷ 0x4D ∷ 0x33 ∷ 0x85 ∷ 0x45
    ∷ 0xF9 ∷ 0x02 ∷ 0x7F ∷ 0x50 ∷ 0x3C ∷ 0x9F ∷ 0xA8 ∷ 0x51 ∷ 0xA3 ∷ 0x40 ∷ 0x8F ∷ 0x92 ∷ 0x9D
    ∷ 0x38 ∷ 0xF5 ∷ 0xBC ∷ 0xB6 ∷ 0xDA ∷ 0x21 ∷ 0x10 ∷ 0xFF ∷ 0xF3 ∷ 0xD2 ∷ 0xCD ∷ 0x0C ∷ 0x13
    ∷ 0xEC ∷ 0x5F ∷ 0x97 ∷ 0x44 ∷ 0x17 ∷ 0xC4 ∷ 0xA7 ∷ 0x7E ∷ 0x3D ∷ 0x64 ∷ 0x5D ∷ 0x19 ∷ 0x73
    ∷ 0x60 ∷ 0x81 ∷ 0x4F ∷ 0xDC ∷ 0x22 ∷ 0x2A ∷ 0x90 ∷ 0x88 ∷ 0x46 ∷ 0xEE ∷ 0xB8 ∷ 0x14 ∷ 0xDE
    ∷ 0x5E ∷ 0x0B ∷ 0xDB ∷ 0xE0 ∷ 0x32 ∷ 0x3A ∷ 0x0A ∷ 0x49 ∷ 0x06 ∷ 0x24 ∷ 0x5C ∷ 0xC2 ∷ 0xD3
    ∷ 0xAC ∷ 0x62 ∷ 0x91 ∷ 0x95 ∷ 0xE4 ∷ 0x79 ∷ 0xE7 ∷ 0xC8 ∷ 0x37 ∷ 0x6D ∷ 0x8D ∷ 0xD5 ∷ 0x4E
    ∷ 0xA9 ∷ 0x6C ∷ 0x56 ∷ 0xF4 ∷ 0xEA ∷ 0x65 ∷ 0x7A ∷ 0xAE ∷ 0x08 ∷ 0xBA ∷ 0x78 ∷ 0x25 ∷ 0x2E
    ∷ 0x1C ∷ 0xA6 ∷ 0xB4 ∷ 0xC6 ∷ 0xE8 ∷ 0xDD ∷ 0x74 ∷ 0x1F ∷ 0x4B ∷ 0xBD ∷ 0x8B ∷ 0x8A ∷ 0x70
    ∷ 0x3E ∷ 0xB5 ∷ 0x66 ∷ 0x48 ∷ 0x03 ∷ 0xF6 ∷ 0x0E ∷ 0x61 ∷ 0x35 ∷ 0x57 ∷ 0xB9 ∷ 0x86 ∷ 0xC1
    ∷ 0x1D ∷ 0x9E ∷ 0xE1 ∷ 0xF8 ∷ 0x98 ∷ 0x11 ∷ 0x69 ∷ 0xD9 ∷ 0x8E ∷ 0x94 ∷ 0x9B ∷ 0x1E ∷ 0x87
    ∷ 0xE9 ∷ 0xCE ∷ 0x55 ∷ 0x28 ∷ 0xDF ∷ 0x8C ∷ 0xA1 ∷ 0x89 ∷ 0x0D ∷ 0xBF ∷ 0xE6 ∷ 0x42 ∷ 0x68
    ∷ 0x41 ∷ 0x99 ∷ 0x2D ∷ 0x0F ∷ 0xB0 ∷ 0x54 ∷ 0xBB ∷ 0x16 ∷ []

-- `rcon` of `aes_key_expand`
abbrev pub rcon : List ℕ
rcon = 0x01 ∷ 0x02 ∷ 0x04 ∷ 0x08 ∷ 0x10 ∷ 0x20 ∷ 0x40 ∷ 0x80 ∷ 0x1B ∷ 0x36 ∷ []

abbrev pub sub_byte : ℕ → ℕ
sub_byte x = get_or aes_sbox x 0

-- `dst[i] ^= src[i]`, over the bytes of the first list.
unfoldable pub xor_bytes : List ℕ → List ℕ → List ℕ
xor_bytes [] ks = []
xor_bytes (s ∷ ss) [] = s ∷ ss
xor_bytes (s ∷ ss) (k ∷ ks) = bit_xor s k ∷ xor_bytes ss ks

-- `aes_xtime`
unfoldable pub aes_xtime : ℕ → ℕ
aes_xtime x = bit_xor (2 * x) (if bit_and x 0x80 == 0 then 0 else 0x1B) % 256

-- The loop of `aes_key_expand`: the bytes of `round_keys` below the index `bytes` are those written.
unfoldable pub key_loop : ℕ → ℕ → ℕ → List ℕ → List ℕ
key_loop zero bytes rcon_i round_keys = round_keys
key_loop (suc left) bytes rcon_i round_keys =
    let t = λ (i : ℕ). get_or round_keys (bytes - 4 + i) 0 in
    let old = take 4 (drop (bytes - 16) round_keys) in
    let first = bytes % 16 == 0 in
    let turned =
      bit_xor (sub_byte (t 1)) (get_or rcon rcon_i 0)
      ∷ sub_byte (t 2)
      ∷ sub_byte (t 3)
      ∷ sub_byte (t 0)
      ∷ [] in
    let tmp = if first then turned else t 0 ∷ t 1 ∷ t 2 ∷ t 3 ∷ [] in
    key_loop left (bytes + 4) (if first then rcon_i + 1 else rcon_i)
      (round_keys ++ xor_bytes old tmp)

-- `aes_key_expand`
unfoldable pub aes_key_expand : List ℕ → List ℕ
aes_key_expand key = key_loop 40 16 0 key

-- `aes_add_round_key`
abbrev pub aes_add_round_key : List ℕ → List ℕ → List ℕ
aes_add_round_key state round_key = xor_bytes state round_key

-- `aes_sub_bytes`
abbrev pub aes_sub_bytes : List ℕ → List ℕ
aes_sub_bytes state = map sub_byte state

-- `aes_shift_rows`
unfoldable pub aes_shift_rows : List ℕ → List ℕ
aes_shift_rows state =
    let s = λ (i : ℕ). get_or state i 0 in
    s 0
    ∷ s 5
    ∷ s 10
    ∷ s 15
    ∷ s 4
    ∷ s 9
    ∷ s 14
    ∷ s 3
    ∷ s 8
    ∷ s 13
    ∷ s 2
    ∷ s 7
    ∷ s 12
    ∷ s 1
    ∷ s 6
    ∷ s 11
    ∷ []

-- `aes_mix_columns`, column by column.
unfoldable pub aes_mix_columns : List ℕ → List ℕ
aes_mix_columns (a0 ∷ a1 ∷ a2 ∷ a3 ∷ rest) =
    let t = bit_xor (bit_xor (bit_xor a0 a1) a2) a3 in
    bit_xor a0 (bit_xor t (aes_xtime (bit_xor a0 a1)))
    ∷ bit_xor a1 (bit_xor t (aes_xtime (bit_xor a1 a2)))
    ∷ bit_xor a2 (bit_xor t (aes_xtime (bit_xor a2 a3)))
    ∷ bit_xor a3 (bit_xor t (aes_xtime (bit_xor a3 a0)))
    ∷ aes_mix_columns rest
aes_mix_columns short = short

-- The loop over the middle rounds.
unfoldable pub round_loop : ℕ → ℕ → List ℕ → List ℕ → List ℕ
round_loop zero round round_keys state = state
round_loop (suc left) round round_keys state = round_loop left (round + 1) round_keys (
    aes_add_round_key (aes_mix_columns (aes_shift_rows (aes_sub_bytes state)))
      (drop (round * 16) round_keys))

-- `aes128_encrypt_block`
unfoldable pub aes128_encrypt_block : List ℕ → List ℕ → List ℕ
aes128_encrypt_block key block =
    let round_keys = aes_key_expand key in
    let state = round_loop 9 1 round_keys (aes_add_round_key block round_keys) in
    aes_add_round_key (aes_shift_rows (aes_sub_bytes state)) (drop 160 round_keys)
