-- ===== src/Net/Der/Lengths.antt =====
-- drivers/net.c: the lengths that DER writes are read back.
use minerva_os.Base.{
  ℕ, suc, ◌+◌, ◌*◌, ◌/◌, ◌%◌, ◌^◌, ◌<◌, ◌≤◌, ◌≡◌, inl, inr, refl, ap, ◌∙◌, Bool, true, false, List,
  [], ◌∷◌, ◌++◌, Option, some, none, if◌then◌else◌, not, ◌==◌, ==_iff, ltb, ltb→lt, Bool-cases,
  length, length-append, subst, bit_and, bit_or, arith,
}
use minerva_os.Base.Bits.{bit_or_disjoint}
use minerva_os.Base.Count.{all_below, all_below_sound}
use minerva_os.Net.Der.{
  value_loop, der_length_after_tag, net_tls_parse_der_sequence_len, net_tls_parse_der_len_at,
}

-- The shortest form of a length below 2 ^ 24.
unfoldable pub der_length : ℕ → List ℕ
der_length n =
    if ltb n (2 ^ 7)
    then n ∷ []
    else if ltb n (2 ^ 8)
    then 0x81 ∷ n ∷ []
    else if ltb n (2 ^ 16)
    then 0x82 ∷ (n / 2 ^ 8) ∷ (n % 2 ^ 8) ∷ []
    else 0x83 ∷ (n / 2 ^ 16) ∷ (n / 2 ^ 8 % 2 ^ 8) ∷ (n % 2 ^ 8) ∷ []

short_form : (n : ℕ) → n < 128 → bit_and n 0x80 ≡ 0
unfolding all_below
short_form n h = (==_iff _ 0).0 (all_below_sound 128 (λ x. bit_and x 0x80 == 0) n refl h)

push_byte : (v b : ℕ) → v < 2 ^ 24 → b < 2 ^ 8 → bit_or (v * 2 ^ 8 % 2 ^ 32) b ≡ 2 ^ 8 * v + b
push_byte v b h l =
    let e : v * 2 ^ 8 % 2 ^ 32 ≡ 2 ^ 8 * v = omega (arith, h) in
    ap (λ k. bit_or k b) e ∙ bit_or_disjoint 8 v b l

enough : (n k : ℕ) → n ≤ k → ltb k n ≡ false
enough n k h = ground arith

-- The bytes `form` are read as the length `n` from behind any tag.
abbrev ReadsBack : ℕ → List ℕ → Type 0
ReadsBack n form =
    (tag : ℕ) (rest : List ℕ)
    → let src = tag ∷ (form ++ rest) in
      der_length_after_tag src (length src) ≡ some (some (n, 1 + length form))

short-ReadsBack : (n : ℕ) → n < 128 → ReadsBack n (n ∷ [])
unfolding der_length_after_tag
short-ReadsBack n h tag rest = rw (short_form n h) refl

one_byte-ReadsBack : (n : ℕ) → n < 2 ^ 8 → ReadsBack n (0x81 ∷ n ∷ [])
unfolding der_length_after_tag value_loop
one_byte-ReadsBack n h tag rest =
    rw (enough 3 (suc (suc (suc (length rest)))) (omega arith), push_byte 0 n (omega arith) h)
      (ap (λ k. some (some (k, 3))) (omega arith))

two_bytes-ReadsBack :
    (a b : ℕ) → a < 2 ^ 8 → b < 2 ^ 8 → ReadsBack (2 ^ 8 * a + b) (0x82 ∷ a ∷ b ∷ [])
unfolding der_length_after_tag value_loop
two_bytes-ReadsBack a b ha hb tag rest =
    rw
      (
        enough 4 (suc (suc (suc (suc (length rest))))) (omega arith),
        push_byte 0 a (omega arith) ha,
        push_byte (2 ^ 8 * 0 + a) b (omega (arith, ha)) hb,
      )
      (ap (λ k. some (some (k, 4))) (omega arith))

three_bytes-ReadsBack :
    (a b c : ℕ)
    → a < 2 ^ 8
    → b < 2 ^ 8
    → c < 2 ^ 8
    → ReadsBack (2 ^ 16 * a + 2 ^ 8 * b + c) (0x83 ∷ a ∷ b ∷ c ∷ [])
unfolding der_length_after_tag value_loop
three_bytes-ReadsBack a b c ha hb hc tag rest =
    rw
      (
        enough 5 (suc (suc (suc (suc (suc (length rest)))))) (omega arith),
        push_byte 0 a (omega arith) ha,
        push_byte (2 ^ 8 * 0 + a) b (omega (arith, ha)) hb,
        push_byte (2 ^ 8 * (2 ^ 8 * 0 + a) + b) c (omega (arith, ha, hb)) hc,
      )
      (ap (λ k. some (some (k, 5))) (omega arith))

der_length-ReadsBack : (n : ℕ) → n < 2 ^ 24 → ReadsBack n (der_length n)
unfolding der_length
der_length-ReadsBack n h = elim (Bool-cases (ltb n (2 ^ 7))) [
  | inl a ↦ rw a (short-ReadsBack n (ltb→lt n 128 a))
  | inr a ↦ elim (Bool-cases (ltb n (2 ^ 8))) [
    | inl b ↦ rw (a, b) (one_byte-ReadsBack n (ltb→lt n (2 ^ 8) b))
    | inr b ↦ elim (Bool-cases (ltb n (2 ^ 16))) [
      | inl c ↦
          rw (a, b, c)
            (subst (λ k. ReadsBack k (0x82 ∷ (n / 2 ^ 8) ∷ (n % 2 ^ 8) ∷ [])) (omega arith)
              (two_bytes-ReadsBack (n / 2 ^ 8) (n % 2 ^ 8) (omega (arith, ltb→lt n (2 ^ 16) c))
                (omega arith)))
      | inr c ↦
          rw (a, b, c)
            (subst (λ k. ReadsBack k (0x83 ∷ (n / 2 ^ 16) ∷ (n / 2 ^ 8 % 2 ^ 8) ∷ (n % 2 ^ 8) ∷ []))
              (omega arith)
              (three_bytes-ReadsBack (n / 2 ^ 16) (n / 2 ^ 8 % 2 ^ 8) (n % 2 ^ 8) (omega (arith, h))
                (omega arith) (omega arith)))
    ]
  ]
]

one-le-der_length : (n : ℕ) → 1 ≤ length (der_length n)
unfolding der_length
one-le-der_length n = if_elim (ltb n (2 ^ 7)) _ _ (omega arith) (
    if_elim (ltb n (2 ^ 8)) _ _ (omega arith)
      (if_elim (ltb n (2 ^ 16)) _ _ (omega arith) (omega arith)))
  where
    if_elim :
        (b : Bool) (xs ys : List ℕ)
        → 1 ≤ length xs
        → 1 ≤ length ys
        → 1 ≤ length (if b then xs else ys)
    if_elim true xs ys h k = h
    if_elim false xs ys h k = k

-- A length below 2 ^ 24 in its shortest form, behind a tag, is read back with the bytes of tag and
-- length; the parser of sequences reads it exactly when the tag is that of a sequence. No
-- byte behind the given ones is read.
pub net_tls_parse_der_len_at-der_length :
    (tag n : ℕ) (rest : List ℕ)
    → n < 2 ^ 24
    → let src = tag ∷ (der_length n ++ rest) in
      (net_tls_parse_der_len_at src (length src) ≡ some (some (n, 1 + length (der_length n))))
      × (net_tls_parse_der_sequence_len src (length src)
          ≡ some (if tag == 0x30 then some (n, 1 + length (der_length n)) else none))
unfolding net_tls_parse_der_len_at net_tls_parse_der_sequence_len
net_tls_parse_der_len_at-der_length tag n rest h =
    let read = der_length-ReadsBack n h tag rest in
    let two : 2 ≤ suc (length (der_length n ++ rest)) =
      omega (arith, length-append (der_length n) rest, one-le-der_length n) in
    (
      rw (enough 2 (suc (length (der_length n ++ rest))) two) read,
      rw (enough 2 (suc (length (der_length n ++ rest))) two, read)
          (swapped (tag == 0x30) (some (n, 1 + length (der_length n)))),
    )
  where
    swapped :
        (b : Bool) (x : Option (ℕ × ℕ))
        → (if not b then some none else some x) ≡ some (if b then x else none)
    swapped true x = refl
    swapped false x = refl
