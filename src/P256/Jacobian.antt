-- ===== src/P256/Jacobian.antt =====
-- drivers/p256.c: points in Jacobian coordinates, and the multiplication that uses them.
pub mod Closed
pub mod One
use minerva_os.Base.{
  ℕ, zero, suc, Bool, true, false, List, [], ◌∷◌, if◌then◌else◌, ◌||◌, ◌==◌, bit_and,
}
use minerva_os.Base.Bits.{shr}
use minerva_os.P256.Limbs.{Fe, fe_zero, fe_one, fe_is_zero}
use minerva_os.P256.Field.{
  fe_add, fe_sub, fe_mul, fe_inv, fe_square, fe_twice, fe_thrice, fe_four, fe_eight,
}
use minerva_os.P256.Point.{Point, point_infinity}

-- `p256_jacobian_t`
pub record Jacobian : Type 0 where
  pub x : Fe
  pub y : Fe
  pub z : Fe
  pub infinity : Bool

-- `p256_jacobian_infinity`
unfoldable pub jacobian_infinity : Jacobian
jacobian_infinity = record { x = fe_zero; y = fe_zero; z = fe_zero; infinity = true }

-- `p256_jacobian_from_point`
unfoldable pub jacobian_from_point : Point → Jacobian
jacobian_from_point p =
    if p.infinity
    then jacobian_infinity
    else record { x = p.x; y = p.y; z = fe_one; infinity = false }

-- `p256_jacobian_to_point`
unfoldable pub jacobian_to_point : Jacobian → Point
jacobian_to_point p =
    let zinv = fe_inv p.z in
    let z2 = fe_square zinv in
    let z3 = fe_mul z2 zinv in
    let out : Point = record { x = fe_mul p.x z2; y = fe_mul p.y z3; infinity = false } in
    if p.infinity || fe_is_zero p.z then point_infinity else out

-- `p256_jacobian_double`
unfoldable pub jacobian_double : Jacobian → Jacobian
jacobian_double p =
    let delta = fe_square p.z in
    let gamma = fe_square p.y in
    let beta = fe_mul p.x gamma in
    let x_minus_delta = fe_sub p.x delta in
    let x_plus_delta = fe_add p.x delta in
    let alpha = fe_thrice (fe_mul x_minus_delta x_plus_delta) in
    let x3 = fe_sub (fe_square alpha) (fe_eight beta) in
    let slope = fe_mul alpha (fe_sub (fe_four beta) x3) in
    let y3 = fe_sub slope (fe_eight (fe_square gamma)) in
    let z3 = fe_sub (fe_sub (fe_square (fe_add p.y p.z)) gamma) delta in
    let out : Jacobian = record { x = x3; y = y3; z = z3; infinity = false } in
    if p.infinity || fe_is_zero p.y then jacobian_infinity else out

-- The general case of `p256_jacobian_add_mixed`, from `h` and `r` on.
unfoldable pub jacobian_chord : Jacobian → Fe → Fe → Fe → Jacobian
jacobian_chord a z1z1 h r0 =
    let r = fe_twice r0 in
    let hh = fe_square h in
    let i = fe_four hh in
    let j = fe_mul h i in
    let v = fe_mul a.x i in
    let x3 = fe_sub (fe_sub (fe_square r) j) (fe_twice v) in
    let slope = fe_mul r (fe_sub v x3) in
    let y3 = fe_sub slope (fe_twice (fe_mul a.y j)) in
    let z3 = fe_sub (fe_sub (fe_square (fe_add a.z h)) z1z1) hh in
    record { x = x3; y = y3; z = z3; infinity = false }

-- `p256_jacobian_add_mixed`
unfoldable pub jacobian_add_mixed : Jacobian → Point → Jacobian
jacobian_add_mixed a b =
    let z1z1 = fe_square a.z in
    let u2 = fe_mul b.x z1z1 in
    let s2 = fe_mul (fe_mul a.z z1z1) b.y in
    let h = fe_sub u2 a.x in
    let r = fe_sub s2 a.y in
    let same_x = if fe_is_zero r then jacobian_double a else jacobian_infinity in
    let chord = jacobian_chord a z1z1 h r in
    if a.infinity
    then jacobian_from_point b
    else if b.infinity
    then a
    else if fe_is_zero h
    then same_x
    else chord

-- One round of `p256_point_mul_be32_projective`.
unfoldable pub projective_round : Point → Jacobian → ℕ → Jacobian
projective_round p acc bit =
    let doubled = jacobian_double acc in
    let added = jacobian_add_mixed doubled p in if bit == 0 then doubled else added

-- `for (bit = k - 1; bit >= 0; bit--)` over the bits of a byte.
unfoldable pub projective_bits : ℕ → ℕ → Point → Jacobian → Jacobian
projective_bits zero byte p acc = acc
projective_bits (suc bit) byte p acc =
    projective_bits bit byte p (projective_round p acc (bit_and (shr byte bit) 1))

-- `for (i = 0; i < 32; i++)`
unfoldable pub projective_bytes : List ℕ → Point → Jacobian → Jacobian
projective_bytes [] p acc = acc
projective_bytes (byte ∷ bytes) p acc = projective_bytes bytes p (projective_bits 8 byte p acc)

-- `p256_point_mul_be32_projective`
unfoldable pub point_mul_be32_projective : Point → List ℕ → Point
point_mul_be32_projective p scalar = jacobian_to_point (projective_bytes scalar p jacobian_infinity)
