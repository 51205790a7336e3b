-- ===== src/P256/Reduce/Modular.antt =====
-- drivers/p256.c: `p256_reduce_product_mod` is the remainder modulo the modulus it is given.
use native.Mathlib.Nat.{mod-add-mod, pow-suc, zero-mod}
use minerva_os.Base.{
  ℕ, zero, suc, ◌+◌, ◌*◌, ◌/◌, ◌%◌, ◌^◌, ◌<◌, ◌≡◌, refl, ap, ◌∙◌, List, arith, length, replicate,
}
use minerva_os.Base.Bits.{shr, shr-suc}
use minerva_os.P256.Limbs.{Fe, value, IsLimbs, IsFe}
use minerva_os.P256.Compare.{value-lt-radix, radix-cong}
use minerva_os.P256.Reduce.{
  Rem, rem_shift_in, rem_reduce_once, reduce_loop, reduce_product_mod, get_bit512,
}
use minerva_os.P256.Reduce.Bits.{get_bit512-value}
use minerva_os.P256.Reduce.Remainder.{Holds, rem_shift_in-Wide, rem_reduce_once-Holds}

double_mod : (q b m : ℕ) → (2 * (q % m) + b) % m ≡ (2 * q + b) % m
double_mod q b m =
    let e : 2 * (q % m) + b ≡ q % m + (q % m + b) = omega arith in
    let f : q + (q % m + b) ≡ q % m + (q + b) = omega arith in
    let g : q + (q + b) ≡ 2 * q + b = omega arith in
    ap (λ k. k % m) e
    ∙ mod-add-mod q m (q % m + b)
    ∙ ap (λ k. k % m) f
    ∙ mod-add-mod q m (q + b)
    ∙ ap (λ k. k % m) g

shr-eq-zero : (x k : ℕ) → x < 2 ^ k → shr x k ≡ 0
unfolding shr
shr-eq-zero x zero h = omega arith
shr-eq-zero x (suc k) h = shr-eq-zero (x / 2) k (omega (arith, pow-suc 2 k))

-- One round keeps the remainder of the bits read so far.
reduce_round-Holds :
    (m product : List ℕ) (k : ℕ) (rem : Rem)
    → IsLimbs m
    → IsLimbs product
    → Holds m (shr (value product) (suc k) % value m) rem
    → Holds m
        (shr (value product) k % value m)
        (rem_reduce_once m (rem_shift_in rem (get_bit512 product k)))
reduce_round-Holds m product k rem p q h =
    let n = shr (value product) k in
    let bit : get_bit512 product k ≡ n % 2 = get_bit512-value product k q in
    let half : shr (value product) (suc k) ≡ n / 2 = shr-suc (value product) k in
    let r = shr (value product) (suc k) % value m in
    let next : (2 * r + get_bit512 product k) % value m ≡ n % value m =
      double_mod (shr (value product) (suc k)) (get_bit512 product k) (value m)
      ∙ ap (λ t. t % value m) (join n half bit) in
    let below : r < value m = h.below in
    rw next at (
      rem_reduce_once-Holds m (2 * r + get_bit512 product k)
        (rem_shift_in rem (get_bit512 product k)) p (omega arith)
        (rem_shift_in-Wide m r (get_bit512 product k) rem (omega arith) h))
  where
    join : {a b : ℕ} (n : ℕ) → a ≡ n / 2 → b ≡ n % 2 → 2 * a + b ≡ n
    join n e f = omega arith

reduce_loop-Holds :
    (m product : List ℕ) (k : ℕ) (rem : Rem)
    → IsLimbs m
    → IsLimbs product
    → Holds m (shr (value product) k % value m) rem
    → Holds m (value product % value m) (reduce_loop k product m rem)
unfolding reduce_loop shr
reduce_loop-Holds m product zero rem p q h = h
reduce_loop-Holds m product (suc k) rem p q h =
    reduce_loop-Holds m product k _ p q (reduce_round-Holds m product k rem p q h)

-- `p256_reduce_product_mod` of a sixteen-limb product and a positive eight-limb modulus returns
-- eight limbs that stand for the product's remainder.
pub reduce_product_mod-value :
    (product : List ℕ) (m : Fe)
    → IsLimbs product
    → length product ≡ 16
    → IsFe m
    → 0 < value m
    → (value (reduce_product_mod product m) ≡ value product % value m)
      × IsFe (reduce_product_mod product m)
unfolding reduce_product_mod
reduce_product_mod-value product m q s f pos =
    let bound = value-lt-radix product q in
    let rc = radix-cong product (replicate 16 0) s in
    let start : shr (value product) 512 % value m ≡ 0 =
      ap (λ t. t % value m) (shr-eq-zero (value product) 512 (omega arith)) ∙ zero-mod (value m) in
    let h =
      reduce_loop-Holds m product 512 (record { low = replicate 8 0; high = 0 }) f.limbs q
        (rw start (record {
          low = refl;
          high = refl;
          limbs = omega arith;
          size = omega (arith, f.size);
          below = pos;
        })) in
    (h.low, record { limbs = h.limbs; size = omega (arith, h.size, f.size) })
