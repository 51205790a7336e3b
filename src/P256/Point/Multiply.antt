-- ===== src/P256/Point/Multiply.antt =====
-- drivers/p256.c: the two scalar multiplications by double and add agree.
use minerva_os.Base.{
  ℕ, zero, suc, ◌+◌, ◌*◌, ◌/◌, ◌%◌, ◌^◌, ◌<◌, ◌≤◌, ◌≡◌, refl, ap, sym, ◌∙◌, List, [], ◌∷◌, ◌++◌,
  arith, bit_and, replicate,
}
use minerva_os.Base.Bits.{shr, shr-low, bit_and_mask}
use minerva_os.P256.Point.{
  Point, point_infinity, point_double, mul_round, bit_loop, byte_loop, point_mul_u32,
  point_mul_be32,
}

shr-add : (x k j : ℕ) → shr x (k + j) ≡ shr (shr x k) j
unfolding shr
shr-add x zero j = let e : 0 + j ≡ j = omega arith in ap (shr x) e
shr-add x (suc k) j =
    let e : suc k + j ≡ suc (k + j) = omega arith in ap (shr x) e ∙ shr-add (x / 2) k j

-- The bits of a byte of a word are bits of the word.
byte_bit :
    (word k j : ℕ) → j < 8 → bit_and (shr (shr word k % 2 ^ 8) j) 1 ≡ bit_and (shr word (k + j)) 1
byte_bit word k j h =
    let x = shr word k in
    let split : x % 2 ^ 8 + 2 ^ 8 * (x / 2 ^ 8) ≡ x = omega arith in
    bit_and_mask 1 _ 1 refl
    ∙ sym (shr-low 8 (x % 2 ^ 8) (x / 2 ^ 8) j h)
    ∙ ap (λ t. shr t j % 2) split
    ∙ ap (λ t. t % 2) (sym (shr-add word k j))
    ∙ sym (bit_and_mask 1 _ 1 refl)

-- The rounds for the bits from `k` on are the rounds for the byte there.
bit_loop-byte :
    (word k j : ℕ) (p acc : Point)
    → j ≤ 8
    → bit_loop (k + j) word p acc ≡ bit_loop k word p (bit_loop j (shr word k % 2 ^ 8) p acc)
unfolding bit_loop
bit_loop-byte word k zero p acc h =
    let e : k + 0 ≡ k = omega arith in ap (λ t. bit_loop t word p acc) e
bit_loop-byte word k (suc j) p acc h =
    let e : k + suc j ≡ suc (k + j) = omega arith in
    ap (λ t. bit_loop t word p acc) e
    ∙ ap (λ b. bit_loop (k + j) word p (mul_round p acc b)) (sym (byte_bit word k j (omega arith)))
    ∙ bit_loop-byte word k j p _ (omega arith)

bit_loop-zero : (word : ℕ) (p acc : Point) → bit_loop 0 word p acc ≡ acc
unfolding bit_loop
bit_loop-zero word p acc = refl

-- A word as the last four of a scalar's 32 bytes.
abbrev pub word_scalar : ℕ → List ℕ
word_scalar word =
    replicate 28 0
    ++ ((shr word 24 % 2 ^ 8)
        ∷ (shr word 16 % 2 ^ 8)
        ∷ (shr word 8 % 2 ^ 8)
        ∷ (shr word 0 % 2 ^ 8)
        ∷ [])

-- Leading zero bytes leave the accumulator at infinity.
zero_bytes :
    (p : Point) (rest : List ℕ)
    → byte_loop (replicate 28 0 ++ rest) p point_infinity ≡ byte_loop rest p point_infinity
unfolding byte_loop bit_loop mul_round point_infinity point_double shr
zero_bytes p rest = refl

word_bytes :
    (word : ℕ) (p acc : Point)
    → byte_loop
        ((shr word 24 % 2 ^ 8)
          ∷ (shr word 16 % 2 ^ 8)
          ∷ (shr word 8 % 2 ^ 8)
          ∷ (shr word 0 % 2 ^ 8)
          ∷ [])
        p
        acc
      ≡ bit_loop 32 word p acc
unfolding byte_loop
word_bytes word p acc =
    let h : 8 ≤ 8 = omega arith in
    sym (
      bit_loop-byte word 24 8 p acc h
      ∙ bit_loop-byte word 16 8 p _ h
      ∙ bit_loop-byte word 8 8 p _ h
      ∙ bit_loop-byte word 0 8 p _ h
      ∙ bit_loop-zero word p _)

-- `p256_point_mul_be32` of the 32 bytes of a word is `p256_point_mul_u32` of the word.
pub point_mul_be32-word :
    (p : Point) (word : ℕ) → point_mul_be32 p (word_scalar word) ≡ point_mul_u32 p word
unfolding point_mul_be32 point_mul_u32
point_mul_be32-word p word = zero_bytes p _ ∙ word_bytes word p point_infinity
