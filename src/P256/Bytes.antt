-- ===== src/P256/Bytes.antt =====
-- drivers/p256.c: field elements as 32 bytes, highest first.
use minerva_os.Base.{
  ℕ, ◌+◌, ◌-◌, ◌*◌, ◌/◌, ◌%◌, ◌^◌, ◌<◌, ◌≡◌, refl, ap, ap₂, sym, ◌∙◌, List, [], ◌∷◌, map, arith,
  length, get_or, bit_or, All, All-get_or, table, table-get_or,
}
use minerva_os.Base.Bits.{bit_or_disjoint}
use minerva_os.P256.Limbs.{Fe, value, IsFe}

-- `be32(src + at)`
unfoldable pub be32 : List ℕ → ℕ → ℕ
be32 src at =
    bit_or
      (bit_or (bit_or (2 ^ 24 * get_or src at 0 % 2 ^ 32) (2 ^ 16 * get_or src (at + 1) 0 % 2 ^ 32))
        (2 ^ 8 * get_or src (at + 2) 0 % 2 ^ 32))
      (get_or src (at + 3) 0)

abbrev limb_indices : List ℕ
limb_indices = 0 ∷ 1 ∷ 2 ∷ 3 ∷ 4 ∷ 5 ∷ 6 ∷ 7 ∷ []

-- `p256_fe_from_be32`
unfoldable pub fe_from_be32 : List ℕ → Fe
fe_from_be32 src = map (λ i. be32 src ((7 - i) * 4)) limb_indices

-- The loop of `p256_fe_to_be32`: the bytes that the rounds left write, in order.
unfoldable pub to_be32_loop : Fe → List ℕ → List ℕ
to_be32_loop src [] = []
to_be32_loop src (i ∷ is) =
    let v = get_or src (7 - i) 0 in
    (v / 2 ^ 24 % 2 ^ 8)
    ∷ (v / 2 ^ 16 % 2 ^ 8)
    ∷ (v / 2 ^ 8 % 2 ^ 8)
    ∷ (v % 2 ^ 8)
    ∷ to_be32_loop src is

-- `p256_fe_to_be32`
unfoldable pub fe_to_be32 : Fe → List ℕ
fe_to_be32 src = to_be32_loop src limb_indices

-- The number that bytes stand for, the first byte the highest.
abbrev pub be_value : ℕ → List ℕ → ℕ
be_value acc [] = acc
be_value acc (b ∷ bs) = be_value (acc * 256 + b) bs

abbrev pub IsBytes : List ℕ → Type 0
IsBytes = All (λ b. b < 2 ^ 8)

-- The four shifted bytes share no bit.
or_bytes :
    (a b c d : ℕ)
    → a < 2 ^ 8
    → b < 2 ^ 8
    → c < 2 ^ 8
    → d < 2 ^ 8
    → bit_or (bit_or (bit_or (2 ^ 24 * a % 2 ^ 32) (2 ^ 16 * b % 2 ^ 32)) (2 ^ 8 * c % 2 ^ 32)) d
      ≡ 2 ^ 24 * a + 2 ^ 16 * b + 2 ^ 8 * c + d
or_bytes a b c d ha hb hc hd =
    let e : 2 ^ 24 * a % 2 ^ 32 ≡ 2 ^ 24 * a = omega arith in
    let f : 2 ^ 16 * b % 2 ^ 32 ≡ 2 ^ 16 * b = omega arith in
    let g : 2 ^ 8 * c % 2 ^ 32 ≡ 2 ^ 8 * c = omega arith in
    let i : 2 ^ 24 * a + 2 ^ 16 * b ≡ 2 ^ 16 * (2 ^ 8 * a + b) = omega arith in
    let j : 2 ^ 16 * (2 ^ 8 * a + b) + 2 ^ 8 * c ≡ 2 ^ 8 * (2 ^ 16 * a + 2 ^ 8 * b + c) =
      omega arith in
    ap (λ k. bit_or (bit_or k (2 ^ 8 * c % 2 ^ 32)) d)
      (ap₂ bit_or e f ∙ bit_or_disjoint 24 a (2 ^ 16 * b) (omega arith) ∙ i)
    ∙ ap (λ k. bit_or k d)
        (ap (bit_or (2 ^ 16 * (2 ^ 8 * a + b))) g
          ∙ bit_or_disjoint 16 (2 ^ 8 * a + b) (2 ^ 8 * c) (omega arith)
          ∙ j)
    ∙ bit_or_disjoint 8 (2 ^ 16 * a + 2 ^ 8 * b + c) d hd
    ∙ omega arith

be32-value :
    (src : List ℕ) (at : ℕ)
    → IsBytes src
    → be32 src at
      ≡ 2 ^ 24 * get_or src at 0
        + 2 ^ 16 * get_or src (at + 1) 0
        + 2 ^ 8 * get_or src (at + 2) 0
        + get_or src (at + 3) 0
unfolding be32
be32-value src at h =
    or_bytes (get_or src at 0) (get_or src (at + 1) 0) (get_or src (at + 2) 0)
      (get_or src (at + 3) 0) (byte at) (byte (at + 1)) (byte (at + 2)) (byte (at + 3))
  where
    byte : (i : ℕ) → get_or src i 0 < 2 ^ 8
    byte i = All-get_or (λ b. b < 2 ^ 8) src i 0 h (omega arith)

be32-lt : (src : List ℕ) (at : ℕ) → IsBytes src → be32 src at < 2 ^ 32
be32-lt src at h =
    let b = λ (i : ℕ). All-get_or (λ b. b < 2 ^ 8) src i 0 h (omega arith) in
    omega (arith, be32-value src at h, b at, b (at + 1), b (at + 2), b (at + 3))

-- `p256_fe_from_be32` reads 32 bytes as the number they stand for.
pub fe_from_be32-value :
    (src : List ℕ)
    → IsBytes src
    → length src ≡ 32
    → (value (fe_from_be32 src) ≡ be_value 0 src) × IsFe (fe_from_be32 src)
unfolding fe_from_be32
fe_from_be32-value src h s =
    let total : value (fe_from_be32 src) ≡ be_value 0 (table 32 (λ i. get_or src i 0)) = omega (
      arith,
      be32-value src 0 h,
      be32-value src 4 h,
      be32-value src 8 h,
      be32-value src 12 h,
      be32-value src 16 h,
      be32-value src 20 h,
      be32-value src 24 h,
      be32-value src 28 h,
    ) in
    (
      total ∙ ap (be_value 0) (sym (table-get_or src 32 0 s)),
      record {
        limbs = (
          be32-lt src 28 h,
          (
            be32-lt src 24 h,
            (
              be32-lt src 20 h,
              (
                be32-lt src 16 h,
                (be32-lt src 12 h, (be32-lt src 8 h, (be32-lt src 4 h, (be32-lt src 0 h, tt)))),
              ),
            ),
          ),
        );
        size = refl;
      },
    )

word_bytes :
    (v : ℕ)
    → v < 2 ^ 32
    → 2 ^ 24 * (v / 2 ^ 24 % 2 ^ 8)
        + 2 ^ 16 * (v / 2 ^ 16 % 2 ^ 8)
        + 2 ^ 8 * (v / 2 ^ 8 % 2 ^ 8)
        + v % 2 ^ 8
      ≡ v
word_bytes v h = omega arith

be32-word :
    (src : List ℕ) (at v : ℕ)
    → v < 2 ^ 32
    → get_or src at 0 ≡ v / 2 ^ 24 % 2 ^ 8
    → get_or src (at + 1) 0 ≡ v / 2 ^ 16 % 2 ^ 8
    → get_or src (at + 2) 0 ≡ v / 2 ^ 8 % 2 ^ 8
    → get_or src (at + 3) 0 ≡ v % 2 ^ 8
    → be32 src at ≡ v
unfolding be32
be32-word src at v h p q r t =
    rw (p, q, r, t)
      (or_bytes (v / 2 ^ 24 % 2 ^ 8) (v / 2 ^ 16 % 2 ^ 8) (v / 2 ^ 8 % 2 ^ 8) (v % 2 ^ 8)
          (omega arith) (omega arith) (omega arith) (omega arith)
        ∙ word_bytes v h)

-- Writing a field element as bytes and reading it back returns it.
pub from_be32-to_be32 : (a : Fe) → IsFe a → fe_from_be32 (fe_to_be32 a) ≡ a
unfolding fe_from_be32 fe_to_be32 to_be32_loop
from_be32-to_be32 a p =
    (ap₂ ◌∷◌ (word 28 0 refl refl refl refl) (
      ap₂ ◌∷◌ (word 24 1 refl refl refl refl) (
        ap₂ ◌∷◌ (word 20 2 refl refl refl refl) (
          ap₂ ◌∷◌ (word 16 3 refl refl refl refl) (
            ap₂ ◌∷◌ (word 12 4 refl refl refl refl) (
              ap₂ ◌∷◌ (word 8 5 refl refl refl refl) (
                ap₂ ◌∷◌ (word 4 6 refl refl refl refl)
                  (ap₂ ◌∷◌ (word 0 7 refl refl refl refl) (refl)))))))))
    ∙ sym (table-get_or a 8 0 p.size)
  where
    word :
        (at i : ℕ)
        → get_or (fe_to_be32 a) at 0 ≡ get_or a i 0 / 2 ^ 24 % 2 ^ 8
        → get_or (fe_to_be32 a) (at + 1) 0 ≡ get_or a i 0 / 2 ^ 16 % 2 ^ 8
        → get_or (fe_to_be32 a) (at + 2) 0 ≡ get_or a i 0 / 2 ^ 8 % 2 ^ 8
        → get_or (fe_to_be32 a) (at + 3) 0 ≡ get_or a i 0 % 2 ^ 8
        → be32 (fe_to_be32 a) at ≡ get_or a i 0
    word at i =
        be32-word (fe_to_be32 a) at (get_or a i 0)
          (All-get_or (λ x. x < 2 ^ 32) a i 0 p.limbs (omega arith))
