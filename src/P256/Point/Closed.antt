-- ===== src/P256/Point/Closed.antt =====
-- drivers/p256.c: field and point operations keep their values reduced modulo p.
use minerva_os.Base.{
  ℕ, zero, suc, ◌+◌, ◌*◌, ◌%◌, ◌^◌, ◌<◌, ◌≡◌, List, [], ◌∷◌, arith, Bool, Bool-cases, inl, inr,
  true, false, ◌||◌, ◌==◌, if◌then◌else◌, bit_and,
}
use minerva_os.Base.Bits.{shr}
use minerva_os.P256.Limbs.{Fe, value, IsFe, fe_zero, fe_is_zero}
use minerva_os.P256.Field.{
  fe_add, fe_sub, fe_mul, fe_inv, fe_square, fe_sub_small, fe_equal, fe_twice, fe_thrice, fe_four,
  fe_eight,
}
use minerva_os.P256.Field.Modular.{prime, fe_add-value, fe_sub-value, fe_mul-value, fe_inv-value}
use minerva_os.P256.Point.{
  Point, point_infinity, point_double, point_chord, point_add, mul_round, bit_loop, byte_loop,
  point_mul_u32, point_mul_be32,
}

-- Eight limbs below p.
pub record IsReduced (a : Fe) : Type 0 where
  pub is_fe : IsFe a
  pub below : value a < prime

of_mod : {a : Fe} (t : ℕ) → (value a ≡ t % prime) × IsFe a → IsReduced a
of_mod t (e, p) = record { is_fe = p; below = omega arith }

module _ {a b : Fe} (p : IsReduced a) (q : IsReduced b) where
  pub fe_add-IsReduced : IsReduced (fe_add a b)
  fe_add-IsReduced = of_mod (value a + value b) (fe_add-value a b p.is_fe q.is_fe (omega arith))

  pub fe_sub-IsReduced : IsReduced (fe_sub a b)
  fe_sub-IsReduced = of_mod _ (fe_sub-value a b p.is_fe q.is_fe p.below q.below)

  pub fe_mul-IsReduced : IsReduced (fe_mul a b)
  fe_mul-IsReduced = of_mod (value a * value b) (fe_mul-value a b p.is_fe q.is_fe)

module _ {a : Fe} (p : IsReduced a) where
  pub fe_inv-IsReduced : IsReduced (fe_inv a)
  fe_inv-IsReduced = let (e, _, f) = fe_inv-value a p.is_fe in of_mod _ (e, f)

  pub fe_square-IsReduced : IsReduced (fe_square a)
  unfolding fe_square
  fe_square-IsReduced = fe_mul-IsReduced p p

  pub fe_sub_small-IsReduced : (small : ℕ) → small < 2 ^ 32 → IsReduced (fe_sub_small a small)
  unfolding fe_sub_small
  fe_sub_small-IsReduced small h = fe_sub-IsReduced p (omega arith)

  pub fe_twice-IsReduced : IsReduced (fe_twice a)
  unfolding fe_twice
  fe_twice-IsReduced = fe_add-IsReduced p p

  pub fe_thrice-IsReduced : IsReduced (fe_thrice a)
  unfolding fe_thrice
  fe_thrice-IsReduced = fe_add-IsReduced (fe_add-IsReduced p p) p

module _ {a : Fe} (p : IsReduced a) where
  pub fe_four-IsReduced : IsReduced (fe_four a)
  unfolding fe_four
  fe_four-IsReduced = fe_twice-IsReduced (fe_twice-IsReduced p)

module _ {a : Fe} (p : IsReduced a) where
  pub fe_eight-IsReduced : IsReduced (fe_eight a)
  unfolding fe_eight
  fe_eight-IsReduced = fe_twice-IsReduced (fe_four-IsReduced p)

pub fe_zero-IsReduced : IsReduced fe_zero
unfolding fe_zero
fe_zero-IsReduced = omega arith

pub record IsPoint (p : Point) : Type 0 where
  pub x : IsReduced p.x
  pub y : IsReduced p.y

pub point_infinity-IsPoint : IsPoint point_infinity
unfolding point_infinity
point_infinity-IsPoint = record { x = fe_zero-IsReduced; y = fe_zero-IsReduced }

pub point_double-IsPoint : (p : Point) → IsPoint p → IsPoint (point_double p)
unfolding point_double
point_double-IsPoint p h = elim (Bool-cases (p.infinity || fe_is_zero p.y)) [
  | inl e ↦ rw e (record { x = h.x; y = h.y })
  | inr e ↦
      let x2 = fe_square-IsReduced h.x in
      let num =
        fe_sub_small-IsReduced (fe_add-IsReduced (fe_add-IsReduced x2 x2) x2) 3 (omega arith) in
      let lambda = fe_mul-IsReduced num (fe_inv-IsReduced (fe_add-IsReduced h.y h.y)) in
      let x3 = fe_sub-IsReduced (fe_square-IsReduced lambda) (fe_add-IsReduced h.x h.x) in
      rw e (record {
        x = x3;
        y = fe_sub-IsReduced (fe_mul-IsReduced lambda (fe_sub-IsReduced h.x x3)) h.y;
      })
]

point_chord-IsPoint : (a b : Point) → IsPoint a → IsPoint b → IsPoint (point_chord a b)
unfolding point_chord
point_chord-IsPoint a b p q =
    let inv = fe_inv-IsReduced (fe_sub-IsReduced q.x p.x) in
    let lambda = fe_mul-IsReduced (fe_sub-IsReduced q.y p.y) inv in
    let x3 = fe_sub-IsReduced (fe_sub-IsReduced (fe_square-IsReduced lambda) p.x) q.x in
    record { x = x3; y = fe_sub-IsReduced (fe_mul-IsReduced lambda (fe_sub-IsReduced p.x x3)) p.y }

if-IsPoint : (c : Bool) (a b : Point) → IsPoint a → IsPoint b → IsPoint (if c then a else b)
if-IsPoint true a b p q = p
if-IsPoint false a b p q = q

pub point_add-IsPoint : (a b : Point) → IsPoint a → IsPoint b → IsPoint (point_add a b)
unfolding point_add
point_add-IsPoint a b p q = if-IsPoint a.infinity _ _ q (
    if-IsPoint b.infinity _ _ p (
      if-IsPoint (fe_equal a.x b.x) _ _
        (if-IsPoint (fe_equal a.y b.y) _ _ (point_double-IsPoint a p) (record { x = p.x; y = p.y }))
        (point_chord-IsPoint a b p q)))

bit_loop-IsPoint :
    (k word : ℕ) (p acc : Point) → IsPoint p → IsPoint acc → IsPoint (bit_loop k word p acc)
unfolding bit_loop mul_round
bit_loop-IsPoint zero word p acc h q = q
bit_loop-IsPoint (suc bit) word p acc h q =
    let doubled = point_double-IsPoint acc q in
    bit_loop-IsPoint bit word p _ h
      (if-IsPoint (bit_and (shr word bit) 1 == 0) _ _ doubled (point_add-IsPoint _ _ doubled h))

byte_loop-IsPoint :
    (bytes : List ℕ) (p acc : Point) → IsPoint p → IsPoint acc → IsPoint (byte_loop bytes p acc)
unfolding byte_loop
byte_loop-IsPoint [] p acc h q = q
byte_loop-IsPoint (byte ∷ bytes) p acc h q =
    byte_loop-IsPoint bytes p _ h (bit_loop-IsPoint 8 byte p acc h q)

-- Both scalar multiplications of a point with reduced coordinates return such a point.
pub point_mul-IsPoint :
    (p : Point) (word : ℕ) (scalar : List ℕ)
    → IsPoint p
    → IsPoint (point_mul_u32 p word) × IsPoint (point_mul_be32 p scalar)
unfolding point_mul_u32 point_mul_be32
point_mul-IsPoint p word scalar h = (
  bit_loop-IsPoint 32 word p _ h point_infinity-IsPoint,
  byte_loop-IsPoint scalar p _ h point_infinity-IsPoint,
)
