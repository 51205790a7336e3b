-- ===== src/Sha256/Words.antt =====
-- drivers/sha256.c: the rotations, shifts and loads of words, in arithmetic.
use minerva_os.Base.{
  ℕ, ◌/◌, [], ◌∷◌, All, bit_or, zero, suc, ◌+◌, ◌-◌, ◌*◌, ◌%◌, ◌^◌, ◌<◌, ◌≡◌, refl, ◌∙◌, List,
  get_or, arith,
}
use minerva_os.Base.Bits.{shr, bit_or_comm, bit_or_disjoint}
use minerva_os.Sha256.{load_be32, rotr32}

-- A rotation of 32 bits to the right, in arithmetic.
abbrev pub rotated : ℕ → ℕ → ℕ
rotated x n = x / 2 ^ n + x % 2 ^ n * 2 ^ (32 - n)

-- The four bytes at an offset as a number, the first the highest.
abbrev pub word_at : List ℕ → ℕ → ℕ
word_at block at =
    2 ^ 24 * get_or block at 0
    + 2 ^ 16 * get_or block (at + 1) 0
    + 2 ^ 8 * get_or block (at + 2) 0
    + get_or block (at + 3) 0

-- A rotation, of which the shift to the left keeps the low `n` of `n + m` bits.
rotr32-rotated :
    (x n m low high : ℕ)
    → 32 - n ≡ m
    → low < 2 ^ m
    → shr x n ≡ low
    → 2 ^ m * x % 2 ^ 32 ≡ 2 ^ m * high
    → rotr32 x n ≡ 2 ^ m * high + low
unfolding rotr32
rotr32-rotated x n m low high e l f g =
    rw (e, f, g) (bit_or_comm low (2 ^ m * high) ∙ bit_or_disjoint m high low l)

module _ (x : ℕ) (w : x < 2 ^ 32) where
  pub rotr32-7 : rotr32 x 7 ≡ rotated x 7
  unfolding shr
  rotr32-7 =
      rotr32-rotated x 7 25 (x / 2 ^ 7) (x % 2 ^ 7) refl (omega (arith, w)) (omega arith)
        (omega (arith, w))
      ∙ omega arith

  pub rotr32-18 : rotr32 x 18 ≡ rotated x 18
  unfolding shr
  rotr32-18 =
      rotr32-rotated x 18 14 (x / 2 ^ 18) (x % 2 ^ 18) refl (omega (arith, w)) (omega arith)
        (omega (arith, w))
      ∙ omega arith

  pub rotr32-17 : rotr32 x 17 ≡ rotated x 17
  unfolding shr
  rotr32-17 =
      rotr32-rotated x 17 15 (x / 2 ^ 17) (x % 2 ^ 17) refl (omega (arith, w)) (omega arith)
        (omega (arith, w))
      ∙ omega arith

  pub rotr32-19 : rotr32 x 19 ≡ rotated x 19
  unfolding shr
  rotr32-19 =
      rotr32-rotated x 19 13 (x / 2 ^ 19) (x % 2 ^ 19) refl (omega (arith, w)) (omega arith)
        (omega (arith, w))
      ∙ omega arith

pub byte_at : (block : List ℕ) (i : ℕ) → All (λ b. b < 2 ^ 8) block → get_or block i 0 < 2 ^ 8
byte_at [] i h = omega arith
byte_at (b ∷ bs) zero h = h.0
byte_at (b ∷ bs) (suc i) h = byte_at bs i h.1

pub load_be32-word_at :
    (block : List ℕ) (at : ℕ) → All (λ b. b < 2 ^ 8) block → load_be32 block at ≡ word_at block at
unfolding load_be32
load_be32-word_at block at h =
    let a = get_or block at 0 in
    let b = get_or block (at + 1) 0 in
    let c = get_or block (at + 2) 0 in
    let d = get_or block (at + 3) 0 in
    let ha = byte_at block at h in
    let hb = byte_at block (at + 1) h in
    let hc = byte_at block (at + 2) h in
    let hd = byte_at block (at + 3) h in joined a b c d ha hb hc hd
  where
    joined :
        (a b c d : ℕ)
        → a < 2 ^ 8
        → b < 2 ^ 8
        → c < 2 ^ 8
        → d < 2 ^ 8
        → bit_or
            (bit_or (bit_or (2 ^ 24 * a % 2 ^ 32) (2 ^ 16 * b % 2 ^ 32)) (2 ^ 8 * c % 2 ^ 32))
            d
          ≡ 2 ^ 24 * a + 2 ^ 16 * b + 2 ^ 8 * c + d
    joined a b c d ha hb hc hd =
        let ea : 2 ^ 24 * a % 2 ^ 32 ≡ 2 ^ 24 * a = omega (arith, ha) in
        let eb : 2 ^ 16 * b % 2 ^ 32 ≡ 2 ^ 16 * b = omega (arith, hb) in
        let ec : 2 ^ 8 * c % 2 ^ 32 ≡ 2 ^ 8 * c = omega (arith, hc) in
        let two : bit_or (2 ^ 24 * a) (2 ^ 16 * b) ≡ 2 ^ 16 * (2 ^ 8 * a + b) =
          bit_or_disjoint 24 a (2 ^ 16 * b) (omega (arith, hb)) ∙ omega arith in
        let three : bit_or (2 ^ 16 * (2 ^ 8 * a + b)) (2 ^ 8 * c)
            ≡ 2 ^ 8 * (2 ^ 16 * a + 2 ^ 8 * b + c) =
          bit_or_disjoint 16 (2 ^ 8 * a + b) (2 ^ 8 * c) (omega (arith, hc)) ∙ omega arith in
        let four : bit_or (2 ^ 8 * (2 ^ 16 * a + 2 ^ 8 * b + c)) d
            ≡ 2 ^ 24 * a + 2 ^ 16 * b + 2 ^ 8 * c + d =
          bit_or_disjoint 8 (2 ^ 16 * a + 2 ^ 8 * b + c) d (omega (arith, hd)) ∙ omega arith in
        rw (ea, eb, ec, two, three) four

pub shift_3 : (x : ℕ) → shr x 3 ≡ x / 2 ^ 3
unfolding shr
shift_3 x = omega arith

pub shift_10 : (x : ℕ) → shr x 10 ≡ x / 2 ^ 10
unfolding shr
shift_10 x = omega arith
