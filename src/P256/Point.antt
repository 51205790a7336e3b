-- ===== src/P256/Point.antt =====
-- drivers/p256.c: points in affine coordinates.
pub mod Curve
pub mod Closed
pub mod Multiply
use minerva_os.Base.{
  ℕ, zero, suc, Bool, true, false, List, [], ◌∷◌, if◌then◌else◌, not, ◌&&◌, ◌||◌, ◌==◌, bit_and,
}
use minerva_os.Base.Bits.{shr}
use minerva_os.P256.Limbs.{Fe, cmp, is_ge, p256_p, fe_zero, fe_is_zero}
use minerva_os.P256.Bytes.{fe_from_be32}
use minerva_os.P256.Field.{fe_add, fe_sub, fe_mul, fe_inv, fe_square, fe_sub_small, fe_equal}

-- `p256_point_t`
pub record Point : Type 0 where
  pub x : Fe
  pub y : Fe
  pub infinity : Bool

-- `p256_point_infinity`
unfoldable pub point_infinity : Point
point_infinity = record { x = fe_zero; y = fe_zero; infinity = true }

-- `p256_b_be`
abbrev pub b_be : List ℕ
b_be =
    0x5A ∷ 0xC6 ∷ 0x35 ∷ 0xD8 ∷ 0xAA ∷ 0x3A ∷ 0x93 ∷ 0xE7 ∷ 0xB3 ∷ 0xEB ∷ 0xBD ∷ 0x55 ∷ 0x76 ∷ 0x98
    ∷ 0x86 ∷ 0xBC ∷ 0x65 ∷ 0x1D ∷ 0x06 ∷ 0xB0 ∷ 0xCC ∷ 0x53 ∷ 0xB0 ∷ 0xF6 ∷ 0x3B ∷ 0xCE ∷ 0x3C
    ∷ 0x3E ∷ 0x27 ∷ 0xD2 ∷ 0x60 ∷ 0x4B ∷ []

-- `p256_gx_be`
abbrev pub gx_be : List ℕ
gx_be =
    0x6B ∷ 0x17 ∷ 0xD1 ∷ 0xF2 ∷ 0xE1 ∷ 0x2C ∷ 0x42 ∷ 0x47 ∷ 0xF8 ∷ 0xBC ∷ 0xE6 ∷ 0xE5 ∷ 0x63 ∷ 0xA4
    ∷ 0x40 ∷ 0xF2 ∷ 0x77 ∷ 0x03 ∷ 0x7D ∷ 0x81 ∷ 0x2D ∷ 0xEB ∷ 0x33 ∷ 0xA0 ∷ 0xF4 ∷ 0xA1 ∷ 0x39
    ∷ 0x45 ∷ 0xD8 ∷ 0x98 ∷ 0xC2 ∷ 0x96 ∷ []

-- `p256_gy_be`
abbrev pub gy_be : List ℕ
gy_be =
    0x4F ∷ 0xE3 ∷ 0x42 ∷ 0xE2 ∷ 0xFE ∷ 0x1A ∷ 0x7F ∷ 0x9B ∷ 0x8E ∷ 0xE7 ∷ 0xEB ∷ 0x4A ∷ 0x7C ∷ 0x0F
    ∷ 0x9E ∷ 0x16 ∷ 0x2B ∷ 0xCE ∷ 0x33 ∷ 0x57 ∷ 0x6B ∷ 0x31 ∷ 0x5E ∷ 0xCE ∷ 0xCB ∷ 0xB6 ∷ 0x40
    ∷ 0x68 ∷ 0x37 ∷ 0xBF ∷ 0x51 ∷ 0xF5 ∷ []

-- `p256_fe_valid_be32`
unfoldable pub fe_valid_be32 : List ℕ → Bool
fe_valid_be32 src = not (is_ge (cmp (fe_from_be32 src) p256_p))

-- `p256_point_on_curve`, which `p256_point_is_on_curve` calls.
unfoldable pub point_on_curve : Point → Bool
point_on_curve p =
    let y2 = fe_square p.y in
    let x2 = fe_square p.x in
    let x3 = fe_mul x2 p.x in
    let once = fe_sub x3 p.x in
    let twice = fe_sub once p.x in
    let thrice = fe_sub twice p.x in
    let rhs = fe_add thrice (fe_from_be32 b_be) in
    let same = fe_equal y2 rhs in if p.infinity then true else same

-- `p256_point_from_be32`: what it stores, and what it returns.
unfoldable pub point_from_be32 : List ℕ → List ℕ → Point × Bool
point_from_be32 x y =
    let out : Point = record { x = fe_from_be32 x; y = fe_from_be32 y; infinity = false } in
    if not (fe_valid_be32 x) || not (fe_valid_be32 y)
    then (point_infinity, false)
    else if not (point_on_curve out)
    then (point_infinity, false)
    else (out, true)

-- `p256_base_point`
unfoldable pub base_point : Point
base_point = record { x = fe_from_be32 gx_be; y = fe_from_be32 gy_be; infinity = false }

-- `p256_point_double`
unfoldable pub point_double : Point → Point
point_double p =
    let x2 = fe_square p.x in
    let num = fe_sub_small (fe_add (fe_add x2 x2) x2) 3 in
    let inv = fe_inv (fe_add p.y p.y) in
    let lambda = fe_mul num inv in
    let x3 = fe_sub (fe_square lambda) (fe_add p.x p.x) in
    let y3 = fe_sub (fe_mul lambda (fe_sub p.x x3)) p.y in
    let doubled : Point = record { x = x3; y = y3; infinity = false } in
    if p.infinity || fe_is_zero p.y then record p { infinity = true } else doubled

-- The chord of `p256_point_add`, for two x-coordinates that differ.
unfoldable pub point_chord : Point → Point → Point
point_chord a b =
    let lambda = fe_mul (fe_sub b.y a.y) (fe_inv (fe_sub b.x a.x)) in
    let x3 = fe_sub (fe_sub (fe_square lambda) a.x) b.x in
    let y3 = fe_sub (fe_mul lambda (fe_sub a.x x3)) a.y in
    record { x = x3; y = y3; infinity = false }

-- `p256_point_add`
unfoldable pub point_add : Point → Point → Point
point_add a b =
    let same_x = if fe_equal a.y b.y then point_double a else record a { infinity = true } in
    let chord = point_chord a b in
    if a.infinity then b else if b.infinity then a else if fe_equal a.x b.x then same_x else chord

-- One round of the scalar multiplications.
unfoldable pub mul_round : Point → Point → ℕ → Point
mul_round p acc bit =
    let doubled = point_double acc in
    let added = point_add doubled p in if bit == 0 then doubled else added

-- `for (bit = k - 1; bit >= 0; bit--)` over the bits of a word.
unfoldable pub bit_loop : ℕ → ℕ → Point → Point → Point
bit_loop zero word p acc = acc
bit_loop (suc bit) word p acc = bit_loop bit word p (mul_round p acc (bit_and (shr word bit) 1))

-- `p256_point_mul_u32`
unfoldable pub point_mul_u32 : Point → ℕ → Point
point_mul_u32 p scalar = bit_loop 32 scalar p point_infinity

-- The loop of `p256_point_mul_be32` over the bytes of the scalar.
unfoldable pub byte_loop : List ℕ → Point → Point → Point
byte_loop [] p acc = acc
byte_loop (byte ∷ bytes) p acc = byte_loop bytes p (bit_loop 8 byte p acc)

-- `p256_point_mul_be32`
unfoldable pub point_mul_be32 : Point → List ℕ → Point
point_mul_be32 p scalar = byte_loop scalar p point_infinity
