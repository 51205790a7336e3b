-- ===== src/P256/Field/Modular.antt =====
-- drivers/p256.c: the field operations compute modulo p.
use native.Mathlib.Nat.{mod-eq-sub-mod, mod-eq_of_lt, mul_comm}
use minerva_os.Base.{
  ℕ, ◌+◌, ◌-◌, ◌*◌, ◌%◌, ◌<◌, ◌≤◌, ◌≡◌, refl, ap, sym, ◌∙◌, arith, ◌==◌, Bool-cases, inl, inr,
  ==_iff, ◌≢◌, ◌||◌, not,
}
use minerva_os.Base.Bits.{shr}
use minerva_os.P256.Reduce.Remainder.{bit_times}
use minerva_os.P256.Limbs.{Fe, value, radix, IsFe, p256_p, fe_one, raw_add, raw_sub, cmp, is_ge}
use minerva_os.P256.Compare.{cmp-ge, cmp-lt, value-lt-radix, radix-cong}
use minerva_os.P256.Carry.{raw_add-Added, raw_sub-Subtracted}
use minerva_os.P256.Reduce.{reduce_product}
use minerva_os.P256.Reduce.Modular.{reduce_product_mod-value}
use minerva_os.P256.Product.{multiply, multiply-value}
use minerva_os.P256.Power.{
  power, power-zero, power-suc, IsMulMod, exp_loop-Raised, exponent, exponent_bit, mod-mul_right,
}
use minerva_os.P256.Field.{fe_add, fe_sub, fe_mul, fe_inv, reduce_once, p_minus_2_be}

-- The prime, as the number that `p256_p` stands for.
abbrev pub prime : ℕ
prime = value p256_p

pub prime-IsFe : IsFe p256_p
prime-IsFe = omega arith

IsFe-radix : (a : Fe) → IsFe a → radix a ≡ radix p256_p
IsFe-radix a p = radix-cong a p256_p p.size

reduce_once-value :
    (out : Fe) (carry t : ℕ)
    → IsFe out
    → carry ≤ 1
    → value out + carry * radix p256_p ≡ t
    → t < 2 * prime
    → (value (reduce_once out carry) ≡ t % prime) × IsFe (reduce_once out carry)
unfolding reduce_once
reduce_once-value out carry t p c e b =
    elim (Bool-cases (not (carry == 0) || is_ge (cmp out p256_p))) [
      | inl yes' ↦
          let l : prime ≤ t = ground (arith, cmp-ge out p256_p p.limbs prime-IsFe.limbs p.size) in
          let s = raw_sub-Subtracted out p256_p p.limbs prime-IsFe.limbs p.size in
          let m = mod-eq-sub-mod {n = t} {m = prime} l ∙ mod-eq_of_lt (omega arith) in
          let vo = value-lt-radix (raw_sub out p256_p).0 s.limbs in
          let ro = radix-cong (raw_sub out p256_p).0 p256_p (omega (arith, s.size, p.size)) in
          let rp = IsFe-radix out p in
          let cases = bit_times (raw_sub out p256_p).1 (radix out) s.borrow in
          rw yes' (
            omega (arith, s.diff, e),
            record { limbs = s.limbs; size = omega (arith, s.size, p.size) },
          )
      | inr no' ↦
          let l : (t < prime) × (carry ≡ 0) =
            ground (arith, cmp-lt out p256_p p.limbs prime-IsFe.limbs p.size) in
          rw no' (omega (arith, mod-eq_of_lt l.0, e), p)
    ]

-- The sum modulo p, if the arguments add up to less than 2p, as reduced ones do.
pub fe_add-value :
    (a b : Fe)
    → IsFe a
    → IsFe b
    → value a + value b < 2 * prime
    → (value (fe_add a b) ≡ (value a + value b) % prime) × IsFe (fe_add a b)
unfolding fe_add
fe_add-value a b p q h =
    let r = raw_add-Added a b p.limbs q.limbs (omega (arith, p.size, q.size)) in
    let e = IsFe-radix a p in
    reduce_once-value (raw_add a b).0 (raw_add a b).1 (value a + value b)
      (record { limbs = r.limbs; size = omega (arith, r.size, p.size) }) r.carry
      (omega (arith, r.sum, ap (λ (t : ℕ). (raw_add a b).1 * t) e)) h

-- The difference modulo p of two reduced arguments.
pub fe_sub-value :
    (a b : Fe)
    → IsFe a
    → IsFe b
    → value a < prime
    → value b < prime
    → (value (fe_sub a b) ≡ (value a + prime - value b) % prime) × IsFe (fe_sub a b)
unfolding fe_sub
fe_sub-value a b p q ha hb =
    let s = raw_sub-Subtracted a b p.limbs q.limbs (omega (arith, p.size, q.size)) in
    let out = (raw_sub a b).0 in
    let f : IsFe out = record { limbs = s.limbs; size = omega (arith, s.size, p.size) } in
    let vo = value-lt-radix out s.limbs in
    let ro = IsFe-radix out f in
    let ra = IsFe-radix a p in
    let cases = bit_times (raw_sub a b).1 (radix a) s.borrow in
    elim (Bool-cases ((raw_sub a b).1 == 0)) [
      | inl none' ↦ let k = (==_iff _ _).0 none' in rw none' (omega (arith, s.diff), f)
      | inr some' ↦
          let k : (raw_sub a b).1 ≢ 0 = ground arith in
          let r = raw_add-Added out p256_p f.limbs prime-IsFe.limbs f.size in
          let vr = value-lt-radix (raw_add out p256_p).0 r.limbs in
          let rr = radix-cong (raw_add out p256_p).0 p256_p (omega (arith, r.size, f.size)) in
          let cases' = bit_times (raw_add out p256_p).1 (radix out) r.carry in
          rw some' (
            omega (arith, s.diff, r.sum),
            record { limbs = r.limbs; size = omega (arith, r.size, f.size) },
          )
    ]

-- The product modulo p, of any two eight-limb numbers.
pub fe_mul-value :
    (a b : Fe)
    → IsFe a
    → IsFe b
    → (value (fe_mul a b) ≡ (value a * value b) % prime) × IsFe (fe_mul a b)
unfolding fe_mul reduce_product
fe_mul-value a b p q =
    let (e, l, s) = multiply-value a b p q in
    let (f, g) = reduce_product_mod-value (multiply a b) p256_p l s prime-IsFe (omega arith) in
    (f ∙ ap (λ t. t % prime) e, g)

pub fe_mul-IsMulMod : IsMulMod prime fe_mul
fe_mul-IsMulMod = record {
  product = λ x y p q. (fe_mul-value x y p q).0;
  closed = λ x y p q. (fe_mul-value x y p q).1;
}

p_minus_2 : exponent p_minus_2_be 256 0 ≡ prime - 2
unfolding exponent exponent_bit shr
p_minus_2 = refl

-- The inverse is the power p - 2, and times its argument the power p - 1.
pub fe_inv-value :
    (a : Fe)
    → IsFe a
    → (value (fe_inv a) ≡ power (value a) (prime - 2) % prime)
      × (value (fe_mul (fe_inv a) a) ≡ power (value a) (prime - 1) % prime)
      × IsFe (fe_inv a)
unfolding fe_inv fe_one
fe_inv-value a p =
    let start : 1 ≡ power (value a) 0 % prime = sym (ap (λ t. t % prime) (power-zero (value a))) in
    let r =
      exp_loop-Raised prime fe_mul fe_mul-IsMulMod p_minus_2_be 256 0 a fe_one p
        (record { power_mod = start; is_fe = omega arith }) in
    let e : value (fe_inv a) ≡ power (value a) (prime - 2) % prime =
      r.power_mod ∙ ap (λ t. power (value a) t % prime) p_minus_2 in
    (
      e,
      (fe_mul-value (fe_inv a) a r.is_fe p).0
          ∙ ap (λ t. t * value a % prime) e
          ∙ mod-mul_right (power (value a) (prime - 2)) (value a) prime
          ∙ ap (λ t. t % prime) (mul_comm _ (value a) ∙ sym (power-suc (value a) (prime - 2))),
      r.is_fe,
    )
