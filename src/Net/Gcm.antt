-- ===== src/Net/Gcm.antt =====
-- drivers/net.c: AES-128-GCM as TLS uses it, with thirteen bytes of associated data.
pub mod RoundTrip
use minerva_os.Base.{
  ℕ, zero, suc, ◌+◌, ◌-◌, ◌*◌, ◌/◌, ◌%◌, ◌^◌, Bool, true, false, List, [], ◌∷◌, ◌++◌, Option, none,
  some, if◌then◌else◌, ◌==◌, get_or, set, take, length, replicate, bit_xor, bit_or,
}
use minerva_os.Base.Bits.{shr}
use minerva_os.Base.Cuts.{drop}
use minerva_os.Net.Aes.{xor_bytes, aes128_encrypt_block}

abbrev pub zero_block : List ℕ
zero_block = replicate 16 0

-- The loop of `gcm_shift_right`, with the bit that the byte before gave off.
unfoldable pub shift_loop : ℕ → List ℕ → List ℕ
shift_loop carry [] = []
shift_loop carry (v ∷ vs) =
    bit_or (shr v 1) (if carry == 0 then 0 else 0x80) ∷ shift_loop (v % 2) vs

-- `gcm_shift_right`
abbrev pub gcm_shift_right : List ℕ → List ℕ
gcm_shift_right v = shift_loop 0 v

-- The loop of `gcm_mul`, from the bit `i` on.
unfoldable pub mul_loop : ℕ → ℕ → List ℕ → List ℕ → List ℕ → List ℕ
mul_loop zero i x z v = z
mul_loop (suc left) i x z v =
    let z' = if shr (get_or x (i / 8) 0) (7 - i % 8) % 2 == 0 then z else xor_bytes z v in
    let lsb = get_or v 15 0 % 2 in
    let w = gcm_shift_right v in
    mul_loop left (i + 1) x z' (if lsb == 0 then w else set w 0 (bit_xor (get_or w 0 0) 0xE1))

-- `gcm_mul`
unfoldable pub gcm_mul : List ℕ → List ℕ → List ℕ
gcm_mul x h = mul_loop 128 0 x zero_block h

-- `ghash_block`
unfoldable pub ghash_block : List ℕ → List ℕ → List ℕ → List ℕ
ghash_block y h block = gcm_mul (xor_bytes y block) h

-- A block that `memset` cleared, with bytes copied to its front.
abbrev pub block_of : List ℕ → List ℕ
block_of bytes = bytes ++ replicate (16 - length bytes) 0

-- `for (int i = 15; i >= 12; i--) { ctr[i]++; if (ctr[i]) break; }`, with the bytes 12 to `11 + left`
-- still to reach.
unfoldable pub count_loop : ℕ → List ℕ → List ℕ
count_loop zero ctr = ctr
count_loop (suc left) ctr =
    let c = (get_or ctr (12 + left) 0 + 1) % 2 ^ 8 in
    let rest = count_loop left (set ctr (12 + left) c) in
    if c == 0 then rest else set ctr (12 + left) c

-- `ctr` for the number of the first block.
abbrev pub counter : List ℕ → ℕ → List ℕ
counter nonce n = take 12 nonce ++ 0 ∷ 0 ∷ 0 ∷ n ∷ []

-- The block of the two lengths in bits; `put32be` writes the last bytes of each.
abbrev pub length_block : ℕ → List ℕ
length_block len =
    let bits = len * 8 % 2 ^ 32 in
    0
    ∷ 0
    ∷ 0
    ∷ 0
    ∷ 0
    ∷ 0
    ∷ 0
    ∷ (13 * 8)
    ∷ 0
    ∷ 0
    ∷ 0
    ∷ 0
    ∷ (shr bits 24 % 2 ^ 8)
    ∷ (shr bits 16 % 2 ^ 8)
    ∷ (shr bits 8 % 2 ^ 8)
    ∷ (bits % 2 ^ 8)
    ∷ []

-- The rounds of the loops over `len` bytes. (`off` is a `uint16_t`, and the C loops end for up to
-- 65520 bytes.)
abbrev pub rounds : ℕ → ℕ
rounds len = (len + 15) / 16

-- The loop of `aes128_gcm_encrypt`: the bytes of `cipher`, and `y`.
unfoldable pub encrypt_loop : ℕ → List ℕ → List ℕ → List ℕ → List ℕ → List ℕ → List ℕ × List ℕ
encrypt_loop zero key h ctr y plain = ([], y)
encrypt_loop (suc left) key h ctr y plain =
    let chunk = xor_bytes (take 16 plain) (aes128_encrypt_block key ctr) in
    let (rest, y') =
      encrypt_loop left key h (count_loop 4 ctr) (ghash_block y h (block_of chunk))
        (drop 16 plain) in
    (chunk ++ rest, y')

-- The hash of the lengths, and the tag.
unfoldable pub final_tag : List ℕ → List ℕ → List ℕ → List ℕ → ℕ → List ℕ
final_tag key nonce h y len =
    xor_bytes (aes128_encrypt_block key (counter nonce 1)) (ghash_block y h (length_block len))

-- `y` after the associated data.
unfoldable pub hash_aad : List ℕ → List ℕ → List ℕ
hash_aad h aad = ghash_block zero_block h (block_of (take 13 aad))

-- `aes128_gcm_encrypt`: `cipher` and `tag`.
unfoldable pub aes128_gcm_encrypt : List ℕ → List ℕ → List ℕ → List ℕ → List ℕ × List ℕ
aes128_gcm_encrypt key nonce aad plain =
    let h = aes128_encrypt_block key zero_block in
    let (cipher, y) =
      encrypt_loop (rounds (length plain)) key h (counter nonce 2) (hash_aad h aad) plain in
    (cipher, final_tag key nonce h y (length plain))

-- The first loop of `aes128_gcm_decrypt`.
unfoldable pub hash_loop : ℕ → List ℕ → List ℕ → List ℕ → List ℕ
hash_loop zero h y cipher = y
hash_loop (suc left) h y cipher =
    hash_loop left h (ghash_block y h (block_of (take 16 cipher))) (drop 16 cipher)

-- `diff`
unfoldable pub diff_loop : List ℕ → List ℕ → ℕ
diff_loop [] tag = 0
diff_loop (c ∷ cs) [] = 0
diff_loop (c ∷ cs) (t ∷ ts) = bit_or (bit_xor c t) (diff_loop cs ts)

-- The last loop.
unfoldable pub decrypt_loop : ℕ → List ℕ → List ℕ → List ℕ → List ℕ
decrypt_loop zero key ctr cipher = []
decrypt_loop (suc left) key ctr cipher =
    xor_bytes (take 16 cipher) (aes128_encrypt_block key ctr)
    ++ decrypt_loop left key (count_loop 4 ctr) (drop 16 cipher)

-- `aes128_gcm_decrypt`: the bytes of `plain`, or `none` where it returns 0.
unfoldable pub aes128_gcm_decrypt : List ℕ → List ℕ → List ℕ → List ℕ → List ℕ → Option (List ℕ)
aes128_gcm_decrypt key nonce aad cipher tag =
    let h = aes128_encrypt_block key zero_block in
    let y = hash_loop (rounds (length cipher)) h (hash_aad h aad) cipher in
    let calc_tag = final_tag key nonce h y (length cipher) in
    let plain = decrypt_loop (rounds (length cipher)) key (counter nonce 2) cipher in
    if diff_loop calc_tag tag == 0 then some plain else none
