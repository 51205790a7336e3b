-- ===== src/P256/Numbers/Points.antt =====
-- drivers/p256.c: the operations on points are the rules on numbers.
use native.Mathlib.Nat.{div-div-eq-div-mul, pow-suc}
use minerva_os.Base.{
  ℕ, zero, suc, ◌/◌, ◌%◌, ◌^◌, ◌≡◌, refl, sym, ap, ap₂, ◌∙◌, Bool, true, false, ◌||◌, List, [], ◌∷◌,
  if◌then◌else◌, ◌==◌, bit_and, arith,
}
use minerva_os.Base.Bits.{shr, shr-suc, bit_and_mask}
use minerva_os.P256.Limbs.{Fe, fe_is_zero}
use minerva_os.P256.Field.{fe_equal}
use minerva_os.P256.Point.{
  Point, point_infinity, point_double, point_chord, point_add, base_point, gx_be, gy_be,
}
use minerva_os.P256.Bytes.{be_value, fe_from_be32-value}
use minerva_os.P256.Point.Curve.{base_point_on_curve}
use minerva_os.P256.Jacobian.{
  Jacobian, jacobian_infinity, jacobian_from_point, jacobian_to_point, jacobian_double,
  jacobian_chord, jacobian_add_mixed, projective_round, projective_bits, projective_bytes,
  point_mul_be32_projective,
}
use minerva_os.P256.Numbers.{
  Place, Triple, third, tangent, sum, place, triple, doubled, mixed, added, bits, bytes, multiple,
  far,
}
use minerva_os.P256.Numbers.Field.{
  Is, fe_add-Is, fe_sub-Is, fe_mul-Is, fe_inv-Is, fe_square-Is, fe_twice-Is, fe_thrice-Is,
  fe_sub_3-Is, fe_four-Is, fe_eight-Is, fe_zero-Is, fe_one-Is, fe_is_zero-Is, fe_equal-Is,
}

-- The point stands for the place.
pub record At (p : Point) (q : Place) : Type 0 where
  pub x : Is p.x q.x
  pub y : Is p.y q.y
  pub infinity : p.infinity ≡ q.infinity

pub record AtTriple (p : Jacobian) (q : Triple) : Type 0 where
  pub x : Is p.x q.x
  pub y : Is p.y q.y
  pub z : Is p.z q.z
  pub infinity : p.infinity ≡ q.infinity

-- Two choices by tests that agree.
if-related {ℓ κ μ} :
    {A : Type ℓ} {B : Type κ} (R : A → B → Type μ) (c d : Bool) {x y : A} {u v : B}
    → c ≡ d
    → R x u
    → R y v
    → R (if c then x else y) (if d then u else v)
if-related R true true e p q = p
if-related R true false e p q = absurd (cc)
if-related R false true e p q = absurd (cc)
if-related R false false e p q = q

point_double-At : (p : Point) (q : Place) → At p q → At (point_double p) (tangent q)
unfolding point_double tangent
point_double-At p q h =
    let x2 = fe_square-Is h.x in
    let num = fe_sub_3-Is (fe_add-Is (fe_add-Is x2 x2) x2) in
    let slope = fe_mul-Is num (fe_inv-Is (fe_add-Is h.y h.y)) in
    let x3 = fe_sub-Is (fe_square-Is slope) (fe_add-Is h.x h.x) in
    if-related At (p.infinity || fe_is_zero p.y) (q.infinity || q.y == 0)
      (ap₂ (λ a b. a || b) h.infinity (fe_is_zero-Is h.y))
      (record { x = h.x; y = h.y; infinity = refl })
      (record { x = x3; y = fe_sub-Is (fe_mul-Is slope (fe_sub-Is h.x x3)) h.y; infinity = refl })

-- `p256_point_add` is the sum by chord and tangent.
pub point_add-At : (a b : Point) (p q : Place) → At a p → At b q → At (point_add a b) (sum p q)
unfolding point_add point_chord sum third
point_add-At a b p q h k =
    let slope = fe_mul-Is (fe_sub-Is k.y h.y) (fe_inv-Is (fe_sub-Is k.x h.x)) in
    let x3 = fe_sub-Is (fe_sub-Is (fe_square-Is slope) h.x) k.x in
    if-related At a.infinity p.infinity h.infinity k (
      if-related At b.infinity q.infinity k.infinity h (
        if-related At (fe_equal a.x b.x) (p.x == q.x) (fe_equal-Is h.x k.x)
          (if-related At (fe_equal a.y b.y) (p.y == q.y) (fe_equal-Is h.y k.y)
            (point_double-At a p h) (record { x = h.x; y = h.y; infinity = refl }))
          (record {
            x = x3;
            y = fe_sub-Is (fe_mul-Is slope (fe_sub-Is h.x x3)) h.y;
            infinity = refl;
          })))

infinity-At : AtTriple jacobian_infinity far
unfolding jacobian_infinity
infinity-At = record { x = fe_zero-Is; y = fe_zero-Is; z = fe_zero-Is; infinity = refl }

from_point-At : (p : Point) (q : Place) → At p q → AtTriple (jacobian_from_point p) (triple q)
unfolding jacobian_from_point triple
from_point-At p q h =
    if-related AtTriple p.infinity q.infinity h.infinity infinity-At
      (record { x = h.x; y = h.y; z = fe_one-Is; infinity = refl })

to_point-At : (p : Jacobian) (t : Triple) → AtTriple p t → At (jacobian_to_point p) (place t)
unfolding jacobian_to_point place point_infinity
to_point-At p t h =
    let inv = fe_inv-Is h.z in
    let square = fe_square-Is inv in
    if-related At (p.infinity || fe_is_zero p.z) (t.infinity || t.z == 0)
      (ap₂ (λ a b. a || b) h.infinity (fe_is_zero-Is h.z))
      (record { x = fe_zero-Is; y = fe_zero-Is; infinity = refl })
      (record {
        x = fe_mul-Is h.x square;
        y = fe_mul-Is h.y (fe_mul-Is square inv);
        infinity = refl;
      })

double-At : (p : Jacobian) (t : Triple) → AtTriple p t → AtTriple (jacobian_double p) (doubled t)
unfolding jacobian_double doubled
double-At p t h =
    let delta = fe_square-Is h.z in
    let gamma = fe_square-Is h.y in
    let beta = fe_mul-Is h.x gamma in
    let alpha = fe_thrice-Is (fe_mul-Is (fe_sub-Is h.x delta) (fe_add-Is h.x delta)) in
    let x3 = fe_sub-Is (fe_square-Is alpha) (fe_eight-Is beta) in
    let slope = fe_mul-Is alpha (fe_sub-Is (fe_four-Is beta) x3) in
    if-related AtTriple (p.infinity || fe_is_zero p.y) (t.infinity || t.y == 0)
      (ap₂ (λ a b. a || b) h.infinity (fe_is_zero-Is h.y)) infinity-At
      (record {
        x = x3;
        y = fe_sub-Is slope (fe_eight-Is (fe_square-Is gamma));
        z = fe_sub-Is (fe_sub-Is (fe_square-Is (fe_add-Is h.y h.z)) gamma) delta;
        infinity = refl;
      })

chord-At :
    (p : Jacobian) (t : Triple) (z1z1 h r : Fe) (square m half : ℕ)
    → AtTriple p t
    → Is z1z1 square
    → Is h m
    → Is r half
    → AtTriple (jacobian_chord p z1z1 h r) (mixed t square m half)
unfolding jacobian_chord mixed
chord-At p t z1z1 h r square m half k s d e =
    let r2 = fe_twice-Is e in
    let hh = fe_square-Is d in
    let i = fe_four-Is hh in
    let j = fe_mul-Is d i in
    let v = fe_mul-Is k.x i in
    let x3 = fe_sub-Is (fe_sub-Is (fe_square-Is r2) j) (fe_twice-Is v) in
    record {
      x = x3;
      y = fe_sub-Is (fe_mul-Is r2 (fe_sub-Is v x3)) (fe_twice-Is (fe_mul-Is k.y j));
      z = fe_sub-Is (fe_sub-Is (fe_square-Is (fe_add-Is k.z d)) s) hh;
      infinity = refl;
    }

add-At :
    (p : Jacobian) (b : Point) (t : Triple) (q : Place)
    → AtTriple p t
    → At b q
    → AtTriple (jacobian_add_mixed p b) (added t q)
unfolding jacobian_add_mixed added
add-At p b t q h k =
    let square = fe_square-Is h.z in
    let d = fe_sub-Is (fe_mul-Is k.x square) h.x in
    let r = fe_sub-Is (fe_mul-Is (fe_mul-Is h.z square) k.y) h.y in
    if-related AtTriple p.infinity t.infinity h.infinity (from_point-At b q k) (
      if-related AtTriple b.infinity q.infinity k.infinity h (
        if-related AtTriple _ _ (fe_is_zero-Is d)
          (if-related AtTriple _ _ (fe_is_zero-Is r) (double-At p t h) infinity-At)
          (chord-At p t _ _ _ _ _ _ h square d r)))

shr-div : (x k : ℕ) → shr x k ≡ x / 2 ^ k
unfolding shr
shr-div x zero = omega arith
shr-div x (suc k) =
    shr-suc x k
    ∙ ap (λ n. n / 2) (shr-div x k)
    ∙ div-div-eq-div-mul x (2 ^ k) 2
    ∙ ap (λ n. x / n) (sym (pow-suc 2 k))

projective_bits-At :
    (n byte : ℕ) (b : Point) (q : Place) (p : Jacobian) (t : Triple)
    → At b q
    → AtTriple p t
    → AtTriple (projective_bits n byte b p) (bits n byte q t)
unfolding projective_bits projective_round bits
projective_bits-At zero byte b q p t k h = h
projective_bits-At (suc n) byte b q p t k h =
    let d = double-At p t h in
    let bit : bit_and (shr byte n) 1 ≡ byte / 2 ^ n % 2 =
      bit_and_mask 1 (shr byte n) 1 refl ∙ ap (λ m. m % 2) (shr-div byte n) in
    projective_bits-At n byte b q _ _ k
      (if-related AtTriple _ _ (ap (λ m. m == 0) bit) d (add-At _ b _ q d k))

projective_bytes-At :
    (scalar : List ℕ) (b : Point) (q : Place) (p : Jacobian) (t : Triple)
    → At b q
    → AtTriple p t
    → AtTriple (projective_bytes scalar b p) (bytes scalar q t)
unfolding projective_bytes bytes
projective_bytes-At [] b q p t k h = h
projective_bytes-At (s ∷ scalar) b q p t k h =
    projective_bytes-At scalar b q _ _ k (projective_bits-At 8 s b q p t k h)

-- For a point with reduced coordinates that stands for a place, `p256_point_mul_be32_projective` gives
-- reduced coordinates that stand for the multiple of the place by the scalar's bits: from the highest
-- bit on each doubles and each that is set adds the place, with the Jacobian formulas on numbers
-- modulo p, and the result is divided out.
pub point_mul_be32_projective-At :
    (b : Point) (q : Place) (scalar : List ℕ)
    → At b q
    → At (point_mul_be32_projective b scalar) (multiple q scalar)
unfolding point_mul_be32_projective multiple
point_mul_be32_projective-At b q scalar k =
    to_point-At _ _ (projective_bytes-At scalar b q jacobian_infinity far k infinity-At)

-- The base point, as numbers.
abbrev pub generator : Place
generator = record { x = be_value 0 gx_be; y = be_value 0 gy_be; infinity = false }

pub base_point-At : At base_point generator
unfolding base_point
base_point-At =
    let p = base_point_on_curve.0 in
    record {
      x = record { reduced = p.x; same = (fe_from_be32-value gx_be (omega arith) refl).0 };
      y = record { reduced = p.y; same = (fe_from_be32-value gy_be (omega arith) refl).0 };
      infinity = refl;
    }
