-- ===== src/Net/Ecdsa.antt =====
-- drivers/net.c: `net_tls_verify_ecdsa_p256`.
pub mod Accepts
use minerva_os.Base.{ℕ, Bool, false, List, Option, none, some, if◌then◌else◌, not, get_or}
use minerva_os.P256.Limbs.{Fe}
use minerva_os.P256.Bytes.{fe_to_be32}
use minerva_os.P256.Field.{fe_equal}
use minerva_os.P256.Scalar.{
  scalar_valid_be32, scalar_from_be32, scalar_from_fe, scalar_inv, scalar_mul,
}
use minerva_os.P256.Point.{Point, point_from_be32, point_add, base_point}
use minerva_os.P256.Jacobian.{point_mul_be32_projective}

-- `p256_fe_prefix32`
abbrev pub fe_prefix32 : Fe → ℕ
fe_prefix32 a = get_or a 7 0

-- `sum` for the key `q` and the scalars `r`, `s` and `z`.
unfoldable pub signature_sum : Point → Fe → Fe → Fe → Point
signature_sum q r s z =
    let w = scalar_inv s in
    let u1 = scalar_mul z w in
    let u2 = scalar_mul r w in
    let u1g = point_mul_be32_projective base_point (fe_to_be32 u1) in
    let u2q = point_mul_be32_projective q (fe_to_be32 u2) in point_add u1g u2q

-- The test of `v`, once `p256_scalar_from_fe` has given it.
unfoldable pub check_v : Fe → Option Fe → Option (Bool × ℕ)
check_v r none = none
check_v r (some v) = some (fe_equal v r, fe_prefix32 v)

-- The body from `p256_scalar_inv` on, once `r`, `s` and `z` are there.
unfoldable pub check_sum : Point → Option Fe → Option Fe → Option Fe → Option (Bool × ℕ)
check_sum q none s z = none
check_sum q (some r) none z = none
check_sum q (some r) (some s) none = none
check_sum q (some r) (some s) (some z) =
    let sum = signature_sum q r s z in
    if sum.infinity then some (false, 0) else check_v r (scalar_from_fe sum.x)

-- `net_tls_verify_ecdsa_p256`: what it returns, and `*v32`. `none` would say that a reduction loop was
-- still running.
unfoldable pub net_tls_verify_ecdsa_p256 :
    List ℕ → List ℕ → List ℕ → List ℕ → List ℕ → Option (Bool × ℕ)
net_tls_verify_ecdsa_p256 pub_x pub_y sig_r sig_s hash =
    let (q, on_curve) = point_from_be32 pub_x pub_y in
    let checked =
      check_sum q (scalar_from_be32 sig_r) (scalar_from_be32 sig_s) (scalar_from_be32 hash) in
    if not (scalar_valid_be32 sig_r)
    then some (false, 0)
    else if not (scalar_valid_be32 sig_s)
    then some (false, 0)
    else if not on_curve
    then some (false, 0)
    else checked
