-- ===== src/P256/Field.antt =====
-- drivers/p256.c: the field operations, modulo p.
pub mod Modular
use minerva_os.Base.{ℕ, ◌+◌, Bool, List, [], ◌∷◌, if◌then◌else◌, ◌==◌, not, ◌||◌, replicate}
use Prim.Native.Nat.{Ordering}
use minerva_os.P256.Limbs.{Fe, raw_add, raw_sub, cmp, is_ge, p256_p, fe_one, fe_zero}
use minerva_os.P256.Reduce.{reduce_product}
use minerva_os.P256.Product.{multiply}
use minerva_os.P256.Power.{exp_loop}

-- `p256_reduce_once`
unfoldable pub reduce_once : Fe → ℕ → Fe
reduce_once out carry =
    if not (carry == 0) || is_ge (cmp out p256_p) then (raw_sub out p256_p).0 else out

-- `p256_fe_add`
unfoldable pub fe_add : Fe → Fe → Fe
fe_add a b = let (out, carry) = raw_add a b in reduce_once out carry

-- `p256_fe_sub`
unfoldable pub fe_sub : Fe → Fe → Fe
fe_sub a b = let (out, borrow) = raw_sub a b in if borrow == 0 then out else (raw_add out p256_p).0

-- `p256_fe_mul`
unfoldable pub fe_mul : Fe → Fe → Fe
fe_mul a b = reduce_product (multiply a b)

-- The table of `p256_exp_p_minus_2_bit`.
abbrev pub p_minus_2_be : List ℕ
p_minus_2_be =
    0xFF ∷ 0xFF ∷ 0xFF ∷ 0xFF ∷ 0x00 ∷ 0x00 ∷ 0x00 ∷ 0x01 ∷ 0x00 ∷ 0x00 ∷ 0x00 ∷ 0x00 ∷ 0x00 ∷ 0x00
    ∷ 0x00 ∷ 0x00 ∷ 0x00 ∷ 0x00 ∷ 0x00 ∷ 0x00 ∷ 0xFF ∷ 0xFF ∷ 0xFF ∷ 0xFF ∷ 0xFF ∷ 0xFF ∷ 0xFF
    ∷ 0xFF ∷ 0xFF ∷ 0xFF ∷ 0xFF ∷ 0xFD ∷ []

-- `p256_fe_inv`
unfoldable pub fe_inv : Fe → Fe
fe_inv a = exp_loop fe_mul p_minus_2_be 256 a fe_one

-- `p256_fe_equal`, which `p256_fe_equal_public` calls.
unfoldable pub fe_equal : Fe → Fe → Bool
fe_equal a b = elim (cmp a b) [ Ordering.eq ↦ Bool.true | _ ↦ Bool.false ]

-- `p256_fe_square`
unfoldable pub fe_square : Fe → Fe
fe_square a = fe_mul a a

-- `p256_fe_sub_small`
unfoldable pub fe_sub_small : Fe → ℕ → Fe
fe_sub_small a small = fe_sub a (small ∷ replicate 7 0)

-- `p256_fe_twice`
unfoldable pub fe_twice : Fe → Fe
fe_twice a = fe_add a a

-- `p256_fe_thrice`
unfoldable pub fe_thrice : Fe → Fe
fe_thrice a = fe_add (fe_add a a) a

-- `p256_fe_four`
unfoldable pub fe_four : Fe → Fe
fe_four a = fe_twice (fe_twice a)

-- `p256_fe_eight`
unfoldable pub fe_eight : Fe → Fe
fe_eight a = fe_twice (fe_four a)
