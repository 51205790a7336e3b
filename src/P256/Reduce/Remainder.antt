-- ===== src/P256/Reduce/Remainder.antt =====
-- drivers/p256.c: one round keeps the remainder of the bits read so far.
use native.Mathlib.Nat.{mod-eq-sub-mod, mod-eq_of_lt}
use minerva_os.Base.{
  ℕ, zero, suc, ◌+◌, ◌-◌, ◌*◌, ◌/◌, ◌%◌, ◌^◌, ◌<◌, ◌≤◌, ◌≡◌, refl, ap, sym, ◌∙◌, List, [], ◌∷◌,
  bit_or, arith, length, Bool-cases, ◌⊎◌, inl, inr, true, false,
}
use minerva_os.Base.Bits.{bit_or_disjoint, zero-bit_or}
use minerva_os.P256.Limbs.{Fe, value, radix, IsLimbs, is_ge, sub_loop}
use minerva_os.P256.Compare.{cmp-ge, cmp-lt, value-lt-radix, radix-cong}
use minerva_os.P256.Carry.{sub_loop-Subtracted}
use minerva_os.P256.Reduce.{
  Rem, shift_loop, rem_shift_in, rem_cmp_mod, rem_sub_mod, rem_reduce_once,
}

-- A doubled limb has its lowest bit free.
shift_limb : (x c : ℕ) → c ≤ 1 → bit_or (2 ^ 1 * x % 2 ^ 32) c ≡ 2 * x % 2 ^ 32 + c
shift_limb x c h =
    let e : 2 ^ 1 * x % 2 ^ 32 ≡ 2 ^ 1 * (x % 2 ^ 31) = omega arith in
    ap (λ k. bit_or k c) e ∙ bit_or_disjoint 1 (x % 2 ^ 31) c (omega arith) ∙ omega arith

record Shifted (c : ℕ) (xs : List ℕ) (r : List ℕ × ℕ) : Type 0 where
  sum : value r.0 + r.1 * radix xs ≡ 2 * value xs + c
  limbs : IsLimbs r.0
  carry : r.1 ≤ 1
  size : length r.0 ≡ length xs

shift_loop-Shifted : (c : ℕ) (xs : List ℕ) → c ≤ 1 → IsLimbs xs → Shifted c xs (shift_loop c xs)
unfolding shift_loop
shift_loop-Shifted c [] h p = omega arith
shift_loop-Shifted c (x ∷ xs) h p =
    let ih = shift_loop-Shifted (x / 2 ^ 31) xs (omega arith) p.1 in
    let e = shift_limb x c h in
    record {
      sum = omega arith;
      limbs = (omega arith, ih.limbs);
      carry = ih.carry;
      size = omega arith;
    }

-- The remainder holds `r` below the modulus, so its top limb is empty.
pub record Holds (m : Fe) (r : ℕ) (rem : Rem) : Type 0 where
  pub low : value rem.low ≡ r
  pub high : rem.high ≡ 0
  pub limbs : IsLimbs rem.low
  pub size : length rem.low ≡ length m
  pub below : r < value m

-- The remainder before the conditional subtraction: it may need one bit of the top limb.
pub record Wide (m : Fe) (t : ℕ) (rem : Rem) : Type 0 where
  pub total : value rem.low + rem.high * radix m ≡ t
  pub limbs : IsLimbs rem.low
  pub size : length rem.low ≡ length m
  pub high : rem.high ≤ 1

pub rem_shift_in-Wide :
    (m : Fe) (r bit : ℕ) (rem : Rem)
    → bit ≤ 1
    → Holds m r rem
    → Wide m (2 * r + bit) (rem_shift_in rem bit)
unfolding rem_shift_in
rem_shift_in-Wide m r bit rem b h =
    let s = shift_loop-Shifted bit rem.low b h.limbs in
    let e : 2 ^ 1 * rem.high % 2 ^ 32 ≡ 0 = omega arith in
    let top =
      ap (λ k. bit_or k (shift_loop bit rem.low).1) e ∙ zero-bit_or (shift_loop bit rem.low).1 in
    let rc = radix-cong rem.low m h.size in
    rw top (record {
      total =
          ap (λ k. value (shift_loop bit rem.low).0 + (shift_loop bit rem.low).1 * k) (sym rc)
          ∙ s.sum
          ∙ omega arith;
      limbs = s.limbs;
      size = omega arith;
      high = s.carry;
    })

mod_once : (t m : ℕ) → m ≤ t → t < 2 * m → t % m ≡ t - m
mod_once t m h l = mod-eq-sub-mod h ∙ mod-eq_of_lt (omega arith)

-- A carry is 0 or 1, and so is its product with the radix known.
pub bit_times : (k r : ℕ) → k ≤ 1 → ((k ≡ 0) × (k * r ≡ 0)) ⊎ ((k ≡ 1) × (k * r ≡ r))
bit_times zero r h = inl (refl, omega arith)
bit_times (suc zero) r h = inr (refl, omega arith)
bit_times (suc (suc k)) r h = absurd (omega arith)

rem_sub_mod-Holds :
    (m : Fe) (t : ℕ) (rem : Rem)
    → IsLimbs m
    → value m ≤ t
    → t < 2 * value m
    → Wide m t rem
    → Holds m (t % value m) (rem_sub_mod rem m)
unfolding rem_sub_mod
rem_sub_mod-Holds m t rem p l b w =
    let s = sub_loop-Subtracted 0 rem.low m (omega arith) w.limbs p w.size in
    let out = (sub_loop 0 rem.low m).0 in
    let k = (sub_loop 0 rem.low m).1 in
    let rc = radix-cong rem.low m w.size in
    let ro = radix-cong out rem.low s.size in
    let cases = bit_times rem.high (radix m) w.high in
    let cases' = bit_times k (radix rem.low) s.borrow in
    let vo = value-lt-radix out s.limbs in
    let vm = value-lt-radix m p in
    let vl = value-lt-radix rem.low w.limbs in
    let d = s.diff in
    let e = mod_once t (value m) l b in
    record {
      low = omega (arith, w.total);
      high = omega (arith, w.total);
      limbs = s.limbs;
      size = omega (arith, w.size, s.size);
      below = omega arith;
    }

rem_cmp_mod-ge :
    (m : Fe) (t : ℕ) (rem : Rem)
    → IsLimbs m
    → Wide m t rem
    → is_ge (rem_cmp_mod rem m) ≡ true
    → value m ≤ t
unfolding rem_cmp_mod
rem_cmp_mod-ge m t rem p w h = ground (
  arith,
  bit_times rem.high (radix m) w.high,
  w.total,
  value-lt-radix m p,
  cmp-ge rem.low m w.limbs p w.size,
)

rem_cmp_mod-lt :
    (m : Fe) (t : ℕ) (rem : Rem)
    → IsLimbs m
    → Wide m t rem
    → is_ge (rem_cmp_mod rem m) ≡ false
    → Holds m (t % value m) rem
unfolding rem_cmp_mod
rem_cmp_mod-lt m t rem p w h =
    let small : (rem.high ≡ 0) × (t < value m) =
      ground
        (arith, bit_times rem.high (radix m) w.high, w.total, cmp-lt rem.low m w.limbs p w.size) in
    let cases = bit_times rem.high (radix m) w.high in
    let e = mod-eq_of_lt small.1 in
    record {
      low = omega (arith, w.total);
      high = small.0;
      limbs = w.limbs;
      size = w.size;
      below = omega arith;
    }

pub rem_reduce_once-Holds :
    (m : Fe) (t : ℕ) (rem : Rem)
    → IsLimbs m
    → t < 2 * value m
    → Wide m t rem
    → Holds m (t % value m) (rem_reduce_once m rem)
unfolding rem_reduce_once
rem_reduce_once-Holds m t rem p b w = elim (Bool-cases (is_ge (rem_cmp_mod rem m))) [
  | inl ge ↦ rw ge (rem_sub_mod-Holds m t rem p (rem_cmp_mod-ge m t rem p w ge) b w)
  | inr lt ↦ rw lt (rem_cmp_mod-lt m t rem p w lt)
]
