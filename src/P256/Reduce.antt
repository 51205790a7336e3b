-- ===== src/P256/Reduce.antt =====
-- drivers/p256.c: the reduction of a 512-bit product, one bit at a time.
pub mod Modular
pub mod Remainder
pub mod Bits
use minerva_os.Base.{
  ℕ, zero, suc, ◌+◌, ◌-◌, ◌*◌, ◌/◌, ◌%◌, ◌^◌, Bool, List, [], ◌∷◌, if◌then◌else◌, replicate, ◌==◌,
  get_or, bit_or, bit_and, not,
}
use Prim.Native.Nat.{Ordering}
use minerva_os.Base.Bits.{shr}
use minerva_os.P256.Limbs.{Fe, cmp, is_ge, sub_loop, p256_p}

-- `uint32_t rem[9]`: the eight limbs that are compared with the modulus, and the one above them.
pub record Rem : Type 0 where
  pub low : List ℕ
  pub high : ℕ

-- `get_bit512`
unfoldable pub get_bit512 : List ℕ → ℕ → ℕ
get_bit512 xs bit = bit_and (shr (get_or xs (bit / 32) 0) (bit % 32)) 1

-- The loop of `rem_shift_in` over the limbs below the top one.
unfoldable pub shift_loop : ℕ → List ℕ → List ℕ × ℕ
shift_loop carry [] = ([], carry)
shift_loop carry (x ∷ xs) =
    let (out, last) = shift_loop (x / 2 ^ 31) xs in (bit_or (2 ^ 1 * x % 2 ^ 32) carry ∷ out, last)

-- `rem_shift_in`
unfoldable pub rem_shift_in : Rem → ℕ → Rem
rem_shift_in rem bit =
    let (low, carry) = shift_loop bit rem.low in
    record { low = low; high = bit_or (2 ^ 1 * rem.high % 2 ^ 32) carry }

-- `rem_cmp_mod`
unfoldable pub rem_cmp_mod : Rem → Fe → Ordering
rem_cmp_mod rem m = if rem.high == 0 then cmp rem.low m else Ordering.gt

-- `rem_sub_mod`
unfoldable pub rem_sub_mod : Rem → Fe → Rem
rem_sub_mod rem m =
    let (low, borrow) = sub_loop 0 rem.low m in
    record { low = low; high = (rem.high + 2 ^ 32 - borrow) % 2 ^ 32 }

-- `if (rem_cmp_mod(rem, mod) >= 0) rem_sub_mod(rem, mod);`
unfoldable pub rem_reduce_once : Fe → Rem → Rem
rem_reduce_once m rem = if is_ge (rem_cmp_mod rem m) then rem_sub_mod rem m else rem

-- The loop of `p256_reduce_product_mod` over the bits below the first argument, highest first.
unfoldable pub reduce_loop : ℕ → List ℕ → Fe → Rem → Rem
reduce_loop zero product m rem = rem
reduce_loop (suc bit) product m rem =
    reduce_loop bit product m (rem_reduce_once m (rem_shift_in rem (get_bit512 product bit)))

-- `p256_reduce_product_mod`
unfoldable pub reduce_product_mod : List ℕ → Fe → Fe
reduce_product_mod product m =
    (reduce_loop 512 product m (record { low = replicate 8 0; high = 0 })).low

-- `p256_reduce_product`
unfoldable pub reduce_product : List ℕ → Fe
reduce_product product = reduce_product_mod product p256_p
