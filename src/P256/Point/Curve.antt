-- ===== src/P256/Point/Curve.antt =====
-- drivers/p256.c: `p256_point_on_curve` decides the curve equation, and what is accepted as a point.
use mathlib.Core.Path.{subst₂}
use minerva_os.Base.{
  ℕ, ◌+◌, ◌-◌, ◌*◌, ◌%◌, ◌<◌, ◌≡◌, ◌⊎◌, ◌↔◌, refl, ap, sym, ◌∙◌, List, arith, length, Bool-cases,
  inl, inr, true, false,
}
use minerva_os.P256.Limbs.{Fe, value, IsFe, cmp, is_ge, p256_p}
use minerva_os.P256.Compare.{cmp-value, cmp-ge, cmp-lt}
use minerva_os.P256.Power.{mod-mul_right}
use minerva_os.P256.Bytes.{IsBytes, be_value, fe_from_be32, fe_from_be32-value}
use minerva_os.P256.Field.{fe_add, fe_sub, fe_mul, fe_square, fe_equal}
use minerva_os.P256.Field.Modular.{prime, prime-IsFe, fe_add-value, fe_sub-value, fe_mul-value}
use minerva_os.P256.Point.{
  Point, point_infinity, point_on_curve, point_from_be32, fe_valid_be32, b_be, gx_be, gy_be,
  base_point,
}
use minerva_os.P256.Point.Closed.{
  IsReduced, IsPoint, fe_sub-IsReduced, fe_mul-IsReduced, fe_square-IsReduced,
}

-- The coefficient b.
abbrev pub coefficient : ℕ
coefficient = be_value 0 b_be

-- y² = x³ - 3x + b modulo p.
abbrev pub SolvesCurve : ℕ → ℕ → Type 0
SolvesCurve x y = y * y % prime ≡ (x * x * x + 3 * (prime - x) + coefficient) % prime

pub fe_equal_iff : (a b : Fe) → IsFe a → IsFe b → (fe_equal a b ≡ true) ↔ (value a ≡ value b)
unfolding fe_equal
fe_equal_iff a b p q =
    let e = cmp-value a b p.limbs q.limbs (omega (arith, p.size, q.size)) in
    (λ h. ground (arith, e), λ h. ground (arith, e))

b-IsReduced : IsReduced (fe_from_be32 b_be)
b-IsReduced =
    let (e, p) = fe_from_be32-value b_be (omega arith) refl in
    record { is_fe = p; below = omega arith }

-- Three subtractions of x and an addition of b, as `p256_point_on_curve` makes them.
sum_below : (a b : ℕ) → a < prime → b < prime → a + b < 2 * prime
sum_below a b p q = omega arith

three_subs :
    (c x r1 r2 r3 r4 : ℕ)
    → x < prime
    → r1 ≡ (c % prime + prime - x) % prime
    → r2 ≡ (r1 + prime - x) % prime
    → r3 ≡ (r2 + prime - x) % prime
    → r4 ≡ (r3 + coefficient) % prime
    → r4 ≡ (c + 3 * (prime - x) + coefficient) % prime
three_subs c x r1 r2 r3 r4 h a b d e = omega arith

-- The right-hand side that `p256_point_on_curve` computes.
abbrev curve_rhs : Fe → Fe
curve_rhs x = fe_add (fe_sub (fe_sub (fe_sub (fe_mul (fe_square x) x) x) x) x) (fe_from_be32 b_be)

curve_rhs-value :
    (x : Fe)
    → IsReduced x
    → (value (curve_rhs x)
        ≡ (value x * value x * value x + 3 * (prime - value x) + coefficient) % prime)
      × IsFe (curve_rhs x)
unfolding fe_square
curve_rhs-value x h =
    let x2 = fe_mul-value x x h.is_fe h.is_fe in
    let x3 = fe_mul-value (fe_mul x x) x x2.1 h.is_fe in
    let cube : value (fe_mul (fe_mul x x) x) ≡ (value x * value x * value x) % prime =
      x3.0
      ∙ ap (λ t. t * value x % prime) x2.0
      ∙ mod-mul_right (value x * value x) (value x) prime in
    let p3 = fe_mul-IsReduced (fe_square-IsReduced h) h in
    let p4 = fe_sub-IsReduced p3 h in
    let p5 = fe_sub-IsReduced p4 h in
    let p6 = fe_sub-IsReduced p5 h in
    let s1 = (fe_sub-value _ x p3.is_fe h.is_fe p3.below h.below).0 in
    let s2 = (fe_sub-value _ x p4.is_fe h.is_fe p4.below h.below).0 in
    let s3 = (fe_sub-value _ x p5.is_fe h.is_fe p5.below h.below).0 in
    let s4 =
      fe_add-value _ (fe_from_be32 b_be) p6.is_fe b-IsReduced.is_fe
        (sum_below _ _ p6.below b-IsReduced.below) in
    let bv : value (fe_from_be32 b_be) ≡ coefficient =
      (fe_from_be32-value b_be (omega arith) refl).0 in
    (
      three_subs (value x * value x * value x) (value x) _ _ _ _ h.below
          (s1 ∙ ap (λ t. (t + prime - value x) % prime) cube) s2 s3
          (s4.0
            ∙ ap
                (λ t. (value (fe_sub (fe_sub (fe_sub (fe_mul (fe_square x) x) x) x) x) + t) % prime)
                bv),
      s4.1,
    )

-- A point with reduced coordinates passes exactly if it is infinity or solves the equation.
pub point_on_curve_iff :
    (p : Point)
    → IsPoint p
    → (point_on_curve p ≡ true) ↔ ((p.infinity ≡ true) ⊎ SolvesCurve (value p.x) (value p.y))
unfolding point_on_curve
point_on_curve_iff p h =
    let y2 = fe_mul-value p.y p.y h.y.is_fe h.y.is_fe in
    let rhs = curve_rhs-value p.x h.x in
    let same = fe_equal_iff (fe_square p.y) (curve_rhs p.x) (fe_square-IsReduced h.y).is_fe rhs.1 in
    let y2' : value (fe_square p.y) ≡ value p.y * value p.y % prime = unfold fe_square in y2.0 in
    elim (Bool-cases p.infinity) [
      | inl e ↦ rw e (λ c. inl refl, λ c. refl)
      | inr e ↦ rw e (
        λ c. inr (sym y2' ∙ same.0 c ∙ rhs.0),
        λ c. elim c [ inl f ↦ cc | inr s ↦ same.1 (y2' ∙ s ∙ sym rhs.0) ],
      )
    ]

fe_valid_be32_iff :
    (src : List ℕ)
    → IsBytes src
    → length src ≡ 32
    → (fe_valid_be32 src ≡ true) ↔ (be_value 0 src < prime)
unfolding fe_valid_be32
fe_valid_be32_iff src h s =
    let v = fe_from_be32 src in
    let (e, p) = fe_from_be32-value src h s in
    elim (Bool-cases (is_ge (cmp v p256_p))) [
      | inl ge ↦
          let l = cmp-ge v p256_p p.limbs prime-IsFe.limbs p.size ge in
          rw ge (λ c. cc, λ b. absurd (omega arith))
      | inr lt ↦
          let l = cmp-lt v p256_p p.limbs prime-IsFe.limbs p.size lt in
          rw lt (λ c. omega arith, λ b. refl)
    ]

-- Coordinates below p that solve the curve equation.
abbrev pub OnCurve : List ℕ → List ℕ → Type 0
OnCurve x y =
    (be_value 0 x < prime) × (be_value 0 y < prime) × SolvesCurve (be_value 0 x) (be_value 0 y)

pub decoded-IsPoint :
    (x y : List ℕ)
    → IsBytes x
    → IsBytes y
    → length x ≡ 32
    → length y ≡ 32
    → be_value 0 x < prime
    → be_value 0 y < prime
    → IsPoint (record { x = fe_from_be32 x; y = fe_from_be32 y; infinity = false })
decoded-IsPoint x y hx hy sx sy bx by =
    let (ex, px) = fe_from_be32-value x hx sx in
    let (ey, py) = fe_from_be32-value y hy sy in
    record {
      x = record { is_fe = px; below = omega arith };
      y = record { is_fe = py; below = omega arith };
    }

decoded_on_curve :
    (x y : List ℕ)
    → IsBytes x
    → IsBytes y
    → length x ≡ 32
    → length y ≡ 32
    → be_value 0 x < prime
    → be_value 0 y < prime
    → (point_on_curve (record { x = fe_from_be32 x; y = fe_from_be32 y; infinity = false }) ≡ true)
      ↔ SolvesCurve (be_value 0 x) (be_value 0 y)
decoded_on_curve x y hx hy sx sy bx by =
    let e = point_on_curve_iff _ (decoded-IsPoint x y hx hy sx sy bx by) in
    let ex = (fe_from_be32-value x hx sx).0 in
    let ey = (fe_from_be32-value y hy sy).0 in
    (
      λ c. elim (e.0 c) [ inl f ↦ cc | inr s ↦ subst₂ SolvesCurve ex ey s ],
      λ s. e.1 (inr (subst₂ SolvesCurve (sym ex) (sym ey) s)),
    )

-- `p256_point_from_be32` of two 32-byte strings accepts exactly the coordinates below p that solve
-- the curve equation; it stores them when it accepts, and infinity when it does not.
pub point_from_be32_lem :
    (x y : List ℕ)
    → IsBytes x
    → IsBytes y
    → length x ≡ 32
    → length y ≡ 32
    → (((point_from_be32 x y).1 ≡ true) ↔ OnCurve x y)
      × ((point_from_be32 x y).1 ≡ true
          → (point_from_be32 x y).0
            ≡ record { x = fe_from_be32 x; y = fe_from_be32 y; infinity = false })
      × ((point_from_be32 x y).1 ≡ false → (point_from_be32 x y).0 ≡ point_infinity)
unfolding point_from_be32
point_from_be32_lem x y hx hy sx sy =
    let vx = fe_valid_be32_iff x hx sx in
    let vy = fe_valid_be32_iff y hy sy in
    elim (Bool-cases (fe_valid_be32 x)) [
      | inr n ↦ rw n ((λ c. cc, λ a. sym n ∙ vx.1 a.0), λ c. cc, λ c. refl)
      | inl t ↦ elim (Bool-cases (fe_valid_be32 y)) [
        | inr n ↦ rw (t, n) ((λ c. cc, λ a. sym n ∙ vy.1 a.1), λ c. cc, λ c. refl)
        | inl u ↦
            let bx = vx.0 t in
            let by = vy.0 u in
            let o = decoded_on_curve x y hx hy sx sy bx by in
            elim (Bool-cases (
              point_on_curve
                (record { x = fe_from_be32 x; y = fe_from_be32 y; infinity = false }))) [
                  | inr n ↦ rw (t, u, n) ((λ c. cc, λ a. sym n ∙ o.1 a.2), λ c. cc, λ c. refl)
                  | inl s ↦ rw (t, u, s) ((λ c. (bx, by, o.0 s), λ a. refl), λ c. refl, λ c. cc)
                ]
      ]
    ]

-- The base point has reduced coordinates and lies on the curve.
pub base_point_on_curve : IsPoint base_point × (point_on_curve base_point ≡ true)
unfolding base_point
base_point_on_curve =
    let x : be_value 0 gx_be < prime = omega arith in
    let y : be_value 0 gy_be < prime = omega arith in
    (
      decoded-IsPoint gx_be gy_be (omega arith) (omega arith) refl refl x y,
      (decoded_on_curve gx_be gy_be (omega arith) (omega arith) refl refl x y).1 refl,
    )
