-- ===== src/P256/Tests.antt =====
-- drivers/p256.c: the theorems at concrete field elements, scalars and points.
use minerva_os.Base.{
  ℕ, ◌-◌, ◌*◌, ◌%◌, ◌≡◌, ◌↔◌, refl, true, false, List, [], ◌∷◌, some, arith, replicate,
}
use minerva_os.P256.Numbers.{multiple}
use minerva_os.P256.Numbers.Points.{At, generator, base_point-At, point_mul_be32_projective-At}
use minerva_os.P256.Limbs.{Fe, value, IsFe}
use minerva_os.P256.Bytes.{fe_from_be32, be_value}
use minerva_os.P256.Power.{power}
use minerva_os.P256.Field.{fe_mul, fe_inv}
use minerva_os.P256.Field.Modular.{prime, fe_mul-value, fe_inv-value}
use minerva_os.P256.Scalar.{scalar_from_be32, n_minus_2_be}
use minerva_os.P256.Scalar.Modular.{order, scalar_from_be32-value}
use minerva_os.P256.Point.{
  point_infinity, point_from_be32, base_point, gx_be, gy_be, point_mul_u32, point_mul_be32,
}
use minerva_os.P256.Point.Curve.{OnCurve, point_from_be32_lem}
use minerva_os.P256.Point.Multiply.{word_scalar, point_mul_be32-word}
use minerva_os.P256.Jacobian.{point_mul_be32_projective}

abbrev three : Fe
three = 3 ∷ replicate 7 0

-- p - 1
abbrev largest : Fe
largest =
    0xFFFFFFFE ∷ 0xFFFFFFFF ∷ 0xFFFFFFFF ∷ 0x00000000 ∷ 0x00000000 ∷ 0x00000000 ∷ 0x00000001
    ∷ 0xFFFFFFFF ∷ []

-- n + 2, in bytes
abbrev above_order : List ℕ
above_order =
    0xFF ∷ 0xFF ∷ 0xFF ∷ 0xFF ∷ 0x00 ∷ 0x00 ∷ 0x00 ∷ 0x00 ∷ 0xFF ∷ 0xFF ∷ 0xFF ∷ 0xFF ∷ 0xFF ∷ 0xFF
    ∷ 0xFF ∷ 0xFF ∷ 0xBC ∷ 0xE6 ∷ 0xFA ∷ 0xAD ∷ 0xA7 ∷ 0x17 ∷ 0x9E ∷ 0x84 ∷ 0xF3 ∷ 0xB9 ∷ 0xCA
    ∷ 0xC2 ∷ 0xFC ∷ 0x63 ∷ 0x25 ∷ 0x53 ∷ []

fe_mul-value_example :
    (value (fe_mul largest three) ≡ (value largest * value three) % prime)
    × IsFe (fe_mul largest three)
fe_mul-value_example = fe_mul-value largest three (omega arith) (omega arith)

fe_inv-value_example :
    (value (fe_inv three) ≡ power (value three) (prime - 2) % prime)
    × (value (fe_mul (fe_inv three) three) ≡ power (value three) (prime - 1) % prime)
    × IsFe (fe_inv three)
fe_inv-value_example = fe_inv-value three (omega arith)

scalar_from_be32-value_example :
    (r : Fe) × (scalar_from_be32 above_order ≡ some r)
    × (value r ≡ be_value 0 above_order % order)
    × IsFe r
scalar_from_be32-value_example = scalar_from_be32-value above_order (omega arith) refl

point_from_be32_lem_example :
    (((point_from_be32 gx_be gy_be).1 ≡ true) ↔ OnCurve gx_be gy_be)
    × ((point_from_be32 gx_be gy_be).1 ≡ true
        → (point_from_be32 gx_be gy_be).0
          ≡ record { x = fe_from_be32 gx_be; y = fe_from_be32 gy_be; infinity = false })
    × ((point_from_be32 gx_be gy_be).1 ≡ false → (point_from_be32 gx_be gy_be).0 ≡ point_infinity)
point_from_be32_lem_example = point_from_be32_lem gx_be gy_be (omega arith) (omega arith) refl refl

point_mul_be32-word_example :
    point_mul_be32 base_point (word_scalar 0x1234) ≡ point_mul_u32 base_point 0x1234
point_mul_be32-word_example = point_mul_be32-word base_point 0x1234

point_mul_be32_projective-At_example :
    At (point_mul_be32_projective base_point n_minus_2_be) (multiple generator n_minus_2_be)
point_mul_be32_projective-At_example =
    point_mul_be32_projective-At base_point generator n_minus_2_be base_point-At
