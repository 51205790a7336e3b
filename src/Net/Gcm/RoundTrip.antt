-- ===== src/Net/Gcm/RoundTrip.antt =====
-- drivers/net.c: what `aes128_gcm_encrypt` makes, `aes128_gcm_decrypt` takes back.
use mathlib.Core.List.{append-nil}
use minerva_os.Base.{
  ℕ, zero, suc, ◌*◌, ◌≤◌, ◌<◌, ◌≡◌, ◌⊎◌, inl, inr, refl, sym, ap, ap₂, ◌∙◌, List, [], ◌∷◌, ◌++◌,
  none, some, ◌≢◌, if◌then◌else◌, ◌==◌, ==_iff, Bool-cases, true≢false, take, length, bit_xor,
  bit_or, arith, length-append,
}
use minerva_os.Base.Bits.{bit_xor_cancel, bit_xor_self, zero-bit_or, zero-bit_xor, le-bit_or}
use minerva_os.Base.Cuts.{
  drop, take-append, drop-append, take_all, drop_all, length-drop, take_short, length-take,
  take-drop, length-take-drop,
}
use minerva_os.Net.Aes.{xor_bytes, aes128_encrypt_block}
use minerva_os.Net.Gcm.{
  zero_block, block_of, ghash_block, count_loop, counter, rounds, encrypt_loop, hash_aad,
  aes128_gcm_encrypt, hash_loop, diff_loop, decrypt_loop, aes128_gcm_decrypt,
}

length-xor_bytes : (ss ks : List ℕ) → length (xor_bytes ss ks) ≡ length ss
unfolding xor_bytes
length-xor_bytes [] ks = refl
length-xor_bytes (s ∷ ss) [] = refl
length-xor_bytes (s ∷ ss) (k ∷ ks) = ap suc (length-xor_bytes ss ks)

xor_bytes_twice : (ss ks : List ℕ) → xor_bytes (xor_bytes ss ks) ks ≡ ss
unfolding xor_bytes
xor_bytes_twice [] ks = refl
xor_bytes_twice (s ∷ ss) [] = refl
xor_bytes_twice (s ∷ ss) (k ∷ ks) = ap₂ (λ x l. x ∷ l) (bit_xor_cancel s k) (xor_bytes_twice ss ks)

diff_loop_self : (tag : List ℕ) → diff_loop tag tag ≡ 0
unfolding diff_loop
diff_loop_self [] = refl
diff_loop_self (t ∷ ts) = ap₂ bit_or (bit_xor_self t) (diff_loop_self ts) ∙ zero-bit_or 0

-- The chunk of sixteen bytes at the front, and what is behind it.
record Cut (chunk rest : List ℕ) : Type 0 where
  front : take 16 (chunk ++ rest) ≡ chunk
  back : drop 16 (chunk ++ rest) ≡ rest

full-Cut : (chunk rest : List ℕ) → length chunk ≡ 16 → Cut chunk rest
full-Cut chunk rest e = record {
  front = take-append 16 chunk rest (omega (arith, e)) ∙ take_all 16 chunk e;
  back = drop-append 16 chunk rest (omega (arith, e)) ∙ ap (λ l. l ++ rest) (drop_all 16 chunk e);
}

last-Cut : (chunk rest : List ℕ) → length chunk ≤ 16 → rest ≡ [] → Cut chunk rest
last-Cut chunk rest h e =
    let short = take_short 16 chunk h in
    let whole : chunk ++ rest ≡ chunk = ap (λ l. chunk ++ l) e ∙ append-nil chunk in
    record { front = ap (take 16) whole ∙ short.0; back = ap (drop 16) whole ∙ short.1 ∙ sym e }

encrypt_loop_none : (left : ℕ) (key h ctr y : List ℕ) → (encrypt_loop left key h ctr y []).0 ≡ []
unfolding encrypt_loop xor_bytes
encrypt_loop_none zero key h ctr y = refl
encrypt_loop_none (suc left) key h ctr y = encrypt_loop_none left key h (count_loop 4 ctr) _

-- Each round's chunk is cut off again.
step-Cut :
    (left : ℕ) (key h ctr y plain stream : List ℕ)
    → Cut (xor_bytes (take 16 plain) stream) (encrypt_loop left key h ctr y (drop 16 plain)).0
step-Cut left key h ctr y plain stream = elim (le_cases (length plain)) [
  | inl long ↦
      full-Cut (xor_bytes (take 16 plain) stream) _
        (length-xor_bytes (take 16 plain) stream ∙ length-take 16 plain long)
  | inr few ↦
      let short = take_short 16 plain (omega (arith, few)) in
      last-Cut (xor_bytes (take 16 plain) stream) _
        (omega (arith, few, length-xor_bytes (take 16 plain) stream, ap length short.0))
        (ap (λ p. (encrypt_loop left key h ctr y p).0) short.1 ∙ encrypt_loop_none left key h ctr y)
]
  where
    le_cases : (n : ℕ) → (16 ≤ n) ⊎ (n < 16)
    le_cases n = ground arith

-- The cipher is hashed as it was when it was made, ...
hash_loop-encrypt_loop :
    (left : ℕ) (key h ctr y plain : List ℕ)
    → let r = encrypt_loop left key h ctr y plain in hash_loop left h y r.0 ≡ r.1
unfolding encrypt_loop hash_loop
hash_loop-encrypt_loop zero key h ctr y plain = refl
hash_loop-encrypt_loop (suc left) key h ctr y plain =
    let chunk = xor_bytes (take 16 plain) (aes128_encrypt_block key ctr) in
    let y' = ghash_block y h (block_of chunk) in
    let cut = step-Cut left key h (count_loop 4 ctr) y' plain (aes128_encrypt_block key ctr) in
    ap₂ (λ c r. hash_loop left h (ghash_block y h (block_of c)) r) cut.front cut.back
    ∙ hash_loop-encrypt_loop left key h (count_loop 4 ctr) y' (drop 16 plain)

-- ... is as long as the plain text, ...
length-encrypt_loop :
    (left : ℕ) (key h ctr y plain : List ℕ)
    → length plain ≤ 16 * left
    → length (encrypt_loop left key h ctr y plain).0 ≡ length plain
unfolding encrypt_loop
length-encrypt_loop zero key h ctr y [] e = refl
length-encrypt_loop zero key h ctr y (p ∷ plain) e = absurd (omega arith)
length-encrypt_loop (suc left) key h ctr y plain e =
    let chunk = xor_bytes (take 16 plain) (aes128_encrypt_block key ctr) in
    let rest =
      length-encrypt_loop left key h (count_loop 4 ctr) (ghash_block y h (block_of chunk))
        (drop 16 plain) (omega (arith, e, length-drop 16 plain)) in
    length-append chunk _
    ∙ omega (
      arith,
      rest,
      length-xor_bytes (take 16 plain) (aes128_encrypt_block key ctr),
      length-take-drop 16 plain,
    )

-- ... and decrypts to it.
decrypt_loop-encrypt_loop :
    (left : ℕ) (key h ctr y plain : List ℕ)
    → length plain ≤ 16 * left
    → decrypt_loop left key ctr (encrypt_loop left key h ctr y plain).0 ≡ plain
unfolding encrypt_loop decrypt_loop
decrypt_loop-encrypt_loop zero key h ctr y [] e = refl
decrypt_loop-encrypt_loop zero key h ctr y (p ∷ plain) e = absurd (omega arith)
decrypt_loop-encrypt_loop (suc left) key h ctr y plain e =
    let stream = aes128_encrypt_block key ctr in
    let chunk = xor_bytes (take 16 plain) stream in
    let y' = ghash_block y h (block_of chunk) in
    let cut = step-Cut left key h (count_loop 4 ctr) y' plain stream in
    ap₂ (λ c r. xor_bytes c stream ++ decrypt_loop left key (count_loop 4 ctr) r) cut.front cut.back
    ∙ ap₂ (λ a b. a ++ b) (xor_bytes_twice (take 16 plain) stream)
        (decrypt_loop-encrypt_loop left key h (count_loop 4 ctr) y' (drop 16 plain)
          (omega (arith, e, length-drop 16 plain)))
    ∙ take-drop 16 plain

-- No difference is found in equal tags only.
diff_loop-zero : (cs ts : List ℕ) → length cs ≡ length ts → diff_loop cs ts ≡ 0 → cs ≡ ts
unfolding diff_loop
diff_loop-zero [] [] e h = refl
diff_loop-zero [] (t ∷ ts) e h = absurd (omega arith)
diff_loop-zero (c ∷ cs) [] e h = absurd (omega arith)
diff_loop-zero (c ∷ cs) (t ∷ ts) e h =
    let both = le-bit_or (bit_xor c t) (diff_loop cs ts) in
    let low : bit_xor c t ≡ 0 = omega (arith, both, h) in
    let same : c ≡ t = sym (bit_xor_cancel c t) ∙ ap (λ x. bit_xor x t) low ∙ zero-bit_xor t in
    ap₂ (λ x l. x ∷ l) same (diff_loop-zero cs ts (omega arith) (omega (arith, both, h)))

module _ (key nonce aad plain : List ℕ) where
  abbrev made_tag : List ℕ
  made_tag = (aes128_gcm_encrypt key nonce aad plain).1

  -- What decryption of the made cipher comes to.
  decrypt-made :
      (tag : List ℕ)
      → aes128_gcm_decrypt key nonce aad (aes128_gcm_encrypt key nonce aad plain).0 tag
        ≡ (if diff_loop made_tag tag == 0 then some plain else none)
  unfolding aes128_gcm_encrypt aes128_gcm_decrypt
  decrypt-made tag =
      let h = aes128_encrypt_block key zero_block in
      let y = hash_aad h aad in
      let n = rounds (length plain) in
      let enough : length plain ≤ 16 * n = omega arith in
      let len = length-encrypt_loop n key h (counter nonce 2) y plain enough in
      let hashed = hash_loop-encrypt_loop n key h (counter nonce 2) y plain in
      let back = decrypt_loop-encrypt_loop n key h (counter nonce 2) y plain enough in
      rw (len, hashed, back) refl

  -- For texts of at most 65520 bytes, over which the counters of the loops do not wrap, and with the
  -- same key, nonce and associated data: `aes128_gcm_decrypt` of the cipher that `aes128_gcm_encrypt`
  -- made gives back the plain text with the tag that was made, and refuses every other tag of its
  -- length.
  pub aes128_gcm_decrypt-aes128_gcm_encrypt :
      (tag : List ℕ)
      → length plain ≤ 65520
      → length made_tag ≡ length tag
      → let r = aes128_gcm_decrypt key nonce aad (aes128_gcm_encrypt key nonce aad plain).0 tag in
        ((r ≡ some plain) × (made_tag ≡ tag)) ⊎ ((r ≡ none) × (made_tag ≢ tag))
  aes128_gcm_decrypt-aes128_gcm_encrypt tag _ e = elim (Bool-cases (diff_loop made_tag tag == 0)) [
    | inl z ↦ inl (
      decrypt-made tag ∙ ap (λ b. if b then some plain else none) z,
      diff_loop-zero made_tag tag e ((==_iff _ 0).0 z),
    )
    | inr nz ↦ inr (
      decrypt-made tag ∙ ap (λ b. if b then some plain else none) nz,
      λ same. true≢false (
          sym ((==_iff _ 0).1 (ap (diff_loop made_tag) (sym same) ∙ diff_loop_self made_tag)) ∙ nz),
    )
  ]
