-- ===== src/P256/Jacobian/One.antt =====
-- drivers/p256.c: both 32-byte multiplications of a point by one return the point.
use native.Mathlib.Nat.{mod-eq_of_lt}
use minerva_os.Base.{
  ℕ, zero, suc, ◌-◌, ◌*◌, ◌%◌, ◌≡◌, refl, ap, ap₂, sym, ◌∙◌, List, [], ◌∷◌, ◌++◌, arith, Bool,
  false, if◌then◌else◌, replicate,
}
use minerva_os.Base.Bits.{shr}
use minerva_os.P256.Limbs.{Fe, value, IsFe, fe_one, fe_is_zero, or_loop}
use minerva_os.P256.Power.{power, power-suc, power-zero}
use minerva_os.P256.Field.{fe_mul, fe_inv, fe_square}
use minerva_os.P256.Field.Modular.{prime, fe_mul-value, fe_inv-value}
use minerva_os.P256.Point.{
  Point, point_infinity, point_double, point_add, mul_round, bit_loop, byte_loop, point_mul_be32,
}
use minerva_os.P256.Point.Closed.{IsReduced, IsPoint}
use minerva_os.P256.Compare.{value-injective}
use minerva_os.P256.Jacobian.{
  Jacobian, jacobian_infinity, jacobian_from_point, jacobian_to_point, jacobian_double,
  jacobian_add_mixed, projective_round, projective_bits, projective_bytes,
  point_mul_be32_projective,
}

power-one : (n : ℕ) → power 1 n ≡ 1
power-one zero = power-zero 1
power-one (suc n) = power-suc 1 n ∙ omega (arith, power-one n)

-- A factor of one leaves a reduced element as it is.
fe_mul-one : (a b : Fe) → IsReduced a → IsFe b → value b ≡ 1 → fe_mul a b ≡ a
fe_mul-one a b p q e =
    let (v, f) = fe_mul-value a b p.is_fe q in
    let t : value a * value b ≡ value a = ap (λ t. value a * t) e ∙ omega arith in
    value-injective (fe_mul a b) a f.limbs p.is_fe.limbs (omega (arith, f.size, p.is_fe.size))
      (v ∙ ap (λ t. t % prime) t ∙ mod-eq_of_lt p.below)

one-IsFe : IsFe fe_one
unfolding fe_one
one-IsFe = omega arith

value-one : value fe_one ≡ 1
unfolding fe_one
value-one = refl

inv-one : (value (fe_inv fe_one) ≡ 1) × IsFe (fe_inv fe_one)
inv-one =
    let (e, _, f) = fe_inv-value fe_one one-IsFe in
    (
      e
          ∙ ap (λ t. power t (prime - 2) % prime) value-one
          ∙ ap (λ t. t % prime) (power-one (prime - 2)),
      f,
    )

mul_of_ones :
    (a b : Fe)
    → IsFe a
    → IsFe b
    → value a ≡ 1
    → value b ≡ 1
    → (value (fe_mul a b) ≡ 1) × IsFe (fe_mul a b)
mul_of_ones a b p q e f =
    let (v, g) = fe_mul-value a b p q in (v ∙ ap₂ (λ s t. s * t % prime) e f, g)

one_not_zero : fe_is_zero fe_one ≡ false
unfolding fe_is_zero fe_one or_loop
one_not_zero = refl

from_finite :
    (p : Point)
    → p.infinity ≡ false
    → jacobian_from_point p ≡ record { x = p.x; y = p.y; z = fe_one; infinity = false }
unfolding jacobian_from_point
from_finite p f =
    ap
      (λ (b : Bool).
        let r : Jacobian = record { x = p.x; y = p.y; z = fe_one; infinity = false } in
        if b then jacobian_infinity else r)
      f

to_point-from_point :
    (p : Point) → IsPoint p → p.infinity ≡ false → jacobian_to_point (jacobian_from_point p) ≡ p
unfolding jacobian_to_point fe_square
to_point-from_point p h f =
    let (e1, p1) = inv-one in
    let (e2, p2) = mul_of_ones _ _ p1 p1 e1 e1 in
    let (e3, p3) = mul_of_ones _ _ p2 p1 e2 e1 in
    let x = fe_mul-one p.x _ h.x p2 e2 in
    let y = fe_mul-one p.y _ h.y p3 e3 in
    ap jacobian_to_point (from_finite p f)
    ∙ rw one_not_zero (λ i. record { x = x i; y = y i; infinity = sym f i })

-- 31 zero bytes and a one.
abbrev pub one_scalar : List ℕ
one_scalar = replicate 31 0 ++ (1 ∷ [])

affine_one : (p : Point) → byte_loop one_scalar p point_infinity ≡ p
unfolding byte_loop bit_loop mul_round point_double point_add point_infinity shr
affine_one p = refl

projective_one :
    (p : Point) → projective_bytes one_scalar p jacobian_infinity ≡ jacobian_from_point p
unfolding projective_bytes projective_bits projective_round jacobian_double jacobian_add_mixed
    jacobian_infinity shr
projective_one p = refl

-- One times a finite point with reduced coordinates is the point, by both multiplications.
pub point_mul_be32-one :
    (p : Point)
    → IsPoint p
    → p.infinity ≡ false
    → (point_mul_be32 p one_scalar ≡ p) × (point_mul_be32_projective p one_scalar ≡ p)
unfolding point_mul_be32 point_mul_be32_projective
point_mul_be32-one p h f =
    (affine_one p, ap jacobian_to_point (projective_one p) ∙ to_point-from_point p h f)
