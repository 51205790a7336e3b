-- ===== src/P256/Scalar.antt =====
-- drivers/p256.c: scalars, modulo the order n of the base point.
pub mod Modular
use minerva_os.Base.{
  ℕ, zero, suc, ◌+◌, ◌/◌, ◌%◌, ◌^◌, Bool, List, [], ◌∷◌, if◌then◌else◌, not, ◌&&◌, Option, none,
  some,
}
use minerva_os.P256.Limbs.{Fe, add_loop, raw_sub, cmp, is_ge, p256_n, p256_p, fe_one, fe_is_zero}
use minerva_os.P256.Reduce.{Rem, rem_reduce_once, reduce_product_mod}
use minerva_os.P256.Product.{multiply}
use minerva_os.P256.Power.{exp_loop}
use minerva_os.P256.Bytes.{fe_from_be32}

-- `p256_scalar_reduce_once`
unfoldable pub scalar_reduce_once : Rem → Rem
scalar_reduce_once value = rem_reduce_once p256_n value

-- `while (p256_cmp(out, &p256_n) >= 0) p256_raw_sub(out, out, &p256_n);` for at most so many
-- tests; `none` says that the loop was still running.
unfoldable pub scalar_reduce : ℕ → Fe → Option Fe
scalar_reduce zero out = none
scalar_reduce (suc rounds) out =
    let rest = scalar_reduce rounds (raw_sub out p256_n).0 in
    if is_ge (cmp out p256_n) then rest else some out

-- `p256_scalar_from_be32`: two tests are enough, since 2 ^ 256 is below 2n.
unfoldable pub scalar_from_be32 : List ℕ → Option Fe
scalar_from_be32 src = scalar_reduce 2 (fe_from_be32 src)

-- `p256_scalar_from_fe`
unfoldable pub scalar_from_fe : Fe → Option Fe
scalar_from_fe src = scalar_reduce 2 src

-- `p256_scalar_valid_be32`
unfoldable pub scalar_valid_be32 : List ℕ → Bool
scalar_valid_be32 src =
    not (fe_is_zero (fe_from_be32 src)) && not (is_ge (cmp (fe_from_be32 src) p256_n))

-- `p256_scalar_add`: its loop is that of `p256_raw_add`, and the carry is `sum[8]`.
unfoldable pub scalar_add : Fe → Fe → Fe
scalar_add a b =
    let (sum, carry) = add_loop 0 a b in
    (scalar_reduce_once (record { low = sum; high = carry })).low

-- `p256_scalar_mul`: its loops are those of `p256_fe_mul`.
unfoldable pub scalar_mul : Fe → Fe → Fe
scalar_mul a b = reduce_product_mod (multiply a b) p256_n

-- `p256_n_minus_2_be`
abbrev pub n_minus_2_be : List ℕ
n_minus_2_be =
    0xFF ∷ 0xFF ∷ 0xFF ∷ 0xFF ∷ 0x00 ∷ 0x00 ∷ 0x00 ∷ 0x00 ∷ 0xFF ∷ 0xFF ∷ 0xFF ∷ 0xFF ∷ 0xFF ∷ 0xFF
    ∷ 0xFF ∷ 0xFF ∷ 0xBC ∷ 0xE6 ∷ 0xFA ∷ 0xAD ∷ 0xA7 ∷ 0x17 ∷ 0x9E ∷ 0x84 ∷ 0xF3 ∷ 0xB9 ∷ 0xCA
    ∷ 0xC2 ∷ 0xFC ∷ 0x63 ∷ 0x25 ∷ 0x4F ∷ []

-- `p256_scalar_inv`
unfoldable pub scalar_inv : Fe → Fe
scalar_inv a = exp_loop scalar_mul n_minus_2_be 256 a fe_one
