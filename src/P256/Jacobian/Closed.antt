-- ===== src/P256/Jacobian/Closed.antt =====
-- drivers/p256.c: the Jacobian operations keep their coordinates reduced, and multiplying by one.
use minerva_os.Base.{
  ℕ, zero, suc, List, [], ◌∷◌, arith, Bool, Bool-cases, inl, inr, true, false, ◌||◌, ◌==◌,
  if◌then◌else◌, bit_and,
}
use minerva_os.Base.Bits.{shr}
use minerva_os.P256.Limbs.{Fe, fe_one, fe_is_zero}
use minerva_os.P256.Point.{Point}
use minerva_os.P256.Point.Closed.{
  IsReduced, IsPoint, fe_add-IsReduced, fe_sub-IsReduced, fe_mul-IsReduced, fe_inv-IsReduced,
  fe_square-IsReduced, fe_twice-IsReduced, fe_thrice-IsReduced, fe_four-IsReduced,
  fe_eight-IsReduced, fe_zero-IsReduced, point_infinity-IsPoint,
}
use minerva_os.P256.Jacobian.{
  Jacobian, jacobian_infinity, jacobian_from_point, jacobian_to_point, jacobian_double,
  jacobian_chord, jacobian_add_mixed, projective_round, projective_bits, projective_bytes,
  point_mul_be32_projective,
}

pub record IsJacobian (p : Jacobian) : Type 0 where
  pub x : IsReduced p.x
  pub y : IsReduced p.y
  pub z : IsReduced p.z

fe_one-IsReduced : IsReduced fe_one
unfolding fe_one
fe_one-IsReduced = omega arith

jacobian_infinity-IsJacobian : IsJacobian jacobian_infinity
unfolding jacobian_infinity
jacobian_infinity-IsJacobian = record {
  x = fe_zero-IsReduced;
  y = fe_zero-IsReduced;
  z = fe_zero-IsReduced;
}

if-IsJacobian :
    (c : Bool) (a b : Jacobian) → IsJacobian a → IsJacobian b → IsJacobian (if c then a else b)
if-IsJacobian true a b p q = p
if-IsJacobian false a b p q = q

jacobian_from_point-IsJacobian : (p : Point) → IsPoint p → IsJacobian (jacobian_from_point p)
unfolding jacobian_from_point
jacobian_from_point-IsJacobian p h =
    if-IsJacobian p.infinity _ _ jacobian_infinity-IsJacobian
      (record { x = h.x; y = h.y; z = fe_one-IsReduced })

jacobian_to_point-IsPoint : (p : Jacobian) → IsJacobian p → IsPoint (jacobian_to_point p)
unfolding jacobian_to_point
jacobian_to_point-IsPoint p h = elim (Bool-cases (p.infinity || fe_is_zero p.z)) [
  | inl e ↦ rw e point_infinity-IsPoint
  | inr e ↦
      let zinv = fe_inv-IsReduced h.z in
      let z2 = fe_square-IsReduced zinv in
      rw e (record {
        x = fe_mul-IsReduced h.x z2;
        y = fe_mul-IsReduced h.y (fe_mul-IsReduced z2 zinv);
      })
]

jacobian_double-IsJacobian : (p : Jacobian) → IsJacobian p → IsJacobian (jacobian_double p)
unfolding jacobian_double
jacobian_double-IsJacobian p h =
    let delta = fe_square-IsReduced h.z in
    let gamma = fe_square-IsReduced h.y in
    let beta = fe_mul-IsReduced h.x gamma in
    let alpha =
      fe_thrice-IsReduced
        (fe_mul-IsReduced (fe_sub-IsReduced h.x delta) (fe_add-IsReduced h.x delta)) in
    let x3 = fe_sub-IsReduced (fe_square-IsReduced alpha) (fe_eight-IsReduced beta) in
    let slope = fe_mul-IsReduced alpha (fe_sub-IsReduced (fe_four-IsReduced beta) x3) in
    let yz = fe_square-IsReduced (fe_add-IsReduced h.y h.z) in
    if-IsJacobian (p.infinity || fe_is_zero p.y) _ _ jacobian_infinity-IsJacobian (record {
      x = x3;
      y = fe_sub-IsReduced slope (fe_eight-IsReduced (fe_square-IsReduced gamma));
      z = fe_sub-IsReduced (fe_sub-IsReduced yz gamma) delta;
    })

jacobian_chord-IsJacobian :
    (a : Jacobian) (z1z1 h r : Fe)
    → IsJacobian a
    → IsReduced z1z1
    → IsReduced h
    → IsReduced r
    → IsJacobian (jacobian_chord a z1z1 h r)
unfolding jacobian_chord
jacobian_chord-IsJacobian a z1z1 h r p pz ph pr =
    let twice_r = fe_twice-IsReduced pr in
    let hh = fe_square-IsReduced ph in
    let i = fe_four-IsReduced hh in
    let j = fe_mul-IsReduced ph i in
    let v = fe_mul-IsReduced p.x i in
    let x3 =
      fe_sub-IsReduced (fe_sub-IsReduced (fe_square-IsReduced twice_r) j) (fe_twice-IsReduced v) in
    let slope = fe_mul-IsReduced twice_r (fe_sub-IsReduced v x3) in
    let zh = fe_square-IsReduced (fe_add-IsReduced p.z ph) in
    record {
      x = x3;
      y = fe_sub-IsReduced slope (fe_twice-IsReduced (fe_mul-IsReduced p.y j));
      z = fe_sub-IsReduced (fe_sub-IsReduced zh pz) hh;
    }

jacobian_add_mixed-IsJacobian :
    (a : Jacobian) (b : Point) → IsJacobian a → IsPoint b → IsJacobian (jacobian_add_mixed a b)
unfolding jacobian_add_mixed
jacobian_add_mixed-IsJacobian a b p q =
    let z1z1 = fe_square-IsReduced p.z in
    let h = fe_sub-IsReduced (fe_mul-IsReduced q.x z1z1) p.x in
    let r = fe_sub-IsReduced (fe_mul-IsReduced (fe_mul-IsReduced p.z z1z1) q.y) p.y in
    if-IsJacobian a.infinity _ _ (jacobian_from_point-IsJacobian b q) (
      if-IsJacobian b.infinity _ _ p (
        if-IsJacobian (fe_is_zero _) _ _
          (if-IsJacobian (fe_is_zero _) _ _ (jacobian_double-IsJacobian a p)
            jacobian_infinity-IsJacobian)
          (jacobian_chord-IsJacobian a _ _ _ p z1z1 h r)))

projective_bits-IsJacobian :
    (k byte : ℕ) (p : Point) (acc : Jacobian)
    → IsPoint p
    → IsJacobian acc
    → IsJacobian (projective_bits k byte p acc)
unfolding projective_bits projective_round
projective_bits-IsJacobian zero byte p acc h q = q
projective_bits-IsJacobian (suc bit) byte p acc h q =
    let doubled = jacobian_double-IsJacobian acc q in
    projective_bits-IsJacobian bit byte p _ h (
      if-IsJacobian (bit_and (shr byte bit) 1 == 0) _ _ doubled
        (jacobian_add_mixed-IsJacobian _ p doubled h))

projective_bytes-IsJacobian :
    (bytes : List ℕ) (p : Point) (acc : Jacobian)
    → IsPoint p
    → IsJacobian acc
    → IsJacobian (projective_bytes bytes p acc)
unfolding projective_bytes
projective_bytes-IsJacobian [] p acc h q = q
projective_bytes-IsJacobian (byte ∷ bytes) p acc h q =
    projective_bytes-IsJacobian bytes p _ h (projective_bits-IsJacobian 8 byte p acc h q)

-- The projective multiplication of a point with reduced coordinates returns such a point.
pub point_mul_be32_projective-IsPoint :
    (p : Point) (scalar : List ℕ) → IsPoint p → IsPoint (point_mul_be32_projective p scalar)
unfolding point_mul_be32_projective
point_mul_be32_projective-IsPoint p scalar h =
    jacobian_to_point-IsPoint _
      (projective_bytes-IsJacobian scalar p _ h jacobian_infinity-IsJacobian)
