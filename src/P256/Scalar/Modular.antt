-- ===== src/P256/Scalar/Modular.antt =====
-- drivers/p256.c: the scalar operations compute modulo n.
use native.Mathlib.Nat.{mod-eq-sub-mod, mod-eq_of_lt, mul_comm}
use minerva_os.Base.{
  ℕ, zero, suc, ◌+◌, ◌-◌, ◌*◌, ◌%◌, ◌<◌, ◌≤◌, ◌≡◌, ◌≢◌, ◌↔◌, refl, ap, sym, ◌∙◌, List, [], ◌∷◌,
  arith, length, ==_iff, true, Bool-cases, inl, inr, some, bit_or,
}
use minerva_os.Base.Bits.{shr, le-bit_or, zero-bit_or}
use minerva_os.P256.Limbs.{
  Fe, value, radix, IsFe, p256_n, fe_one, raw_sub, cmp, is_ge, add_loop, fe_is_zero, or_loop,
}
use minerva_os.P256.Compare.{cmp-ge, cmp-lt, value-lt-radix, radix-cong}
use minerva_os.P256.Carry.{raw_sub-Subtracted, add_loop-Added}
use minerva_os.P256.Reduce.Remainder.{bit_times, Wide, rem_reduce_once-Holds}
use minerva_os.P256.Reduce.Modular.{reduce_product_mod-value}
use minerva_os.P256.Product.{multiply, multiply-value}
use minerva_os.P256.Power.{
  power, power-zero, power-suc, IsMulMod, exp_loop-Raised, exponent, exponent_bit, mod-mul_right,
}
use minerva_os.P256.Bytes.{IsBytes, be_value, fe_from_be32, fe_from_be32-value}
use minerva_os.P256.Scalar.{
  scalar_add, scalar_mul, scalar_inv, scalar_reduce, scalar_reduce_once, scalar_from_fe,
  scalar_from_be32, scalar_valid_be32, n_minus_2_be,
}

-- n, as the number that `p256_n` stands for.
abbrev pub order : ℕ
order = value p256_n

order-IsFe : IsFe p256_n
order-IsFe = omega arith

pub scalar_add-value :
    (a b : Fe)
    → IsFe a
    → IsFe b
    → value a + value b < 2 * order
    → (value (scalar_add a b) ≡ (value a + value b) % order) × IsFe (scalar_add a b)
unfolding scalar_add scalar_reduce_once
scalar_add-value a b p q h =
    let r = add_loop-Added 0 a b (omega arith) p.limbs q.limbs (omega (arith, p.size, q.size)) in
    let ra = radix-cong a p256_n p.size in
    let w : Wide p256_n (value a + value b)
        (record { low = (add_loop 0 a b).0; high = (add_loop 0 a b).1 }) =
      record {
        total = omega (arith, r.sum, ap (λ (t : ℕ). (add_loop 0 a b).1 * t) ra);
        limbs = r.limbs;
        size = omega (arith, r.size, p.size);
        high = r.carry;
      } in
    let d = rem_reduce_once-Holds p256_n (value a + value b) _ order-IsFe.limbs h w in
    (d.low, record { limbs = d.limbs; size = d.size })

-- The product modulo n, of any two eight-limb numbers.
pub scalar_mul-value :
    (a b : Fe)
    → IsFe a
    → IsFe b
    → (value (scalar_mul a b) ≡ (value a * value b) % order) × IsFe (scalar_mul a b)
unfolding scalar_mul
scalar_mul-value a b p q =
    let (e, l, s) = multiply-value a b p q in
    let (f, g) = reduce_product_mod-value (multiply a b) p256_n l s order-IsFe (omega arith) in
    (f ∙ ap (λ t. t % order) e, g)

scalar_mul-IsMulMod : IsMulMod order scalar_mul
scalar_mul-IsMulMod = record {
  product = λ x y p q. (scalar_mul-value x y p q).0;
  closed = λ x y p q. (scalar_mul-value x y p q).1;
}

n_minus_2 : exponent n_minus_2_be 256 0 ≡ order - 2
unfolding exponent exponent_bit shr
n_minus_2 = refl

-- The inverse is the power n - 2, and times its argument the power n - 1.
pub scalar_inv-value :
    (a : Fe)
    → IsFe a
    → (value (scalar_inv a) ≡ power (value a) (order - 2) % order)
      × (value (scalar_mul (scalar_inv a) a) ≡ power (value a) (order - 1) % order)
      × IsFe (scalar_inv a)
unfolding scalar_inv fe_one
scalar_inv-value a p =
    let start : 1 ≡ power (value a) 0 % order = sym (ap (λ t. t % order) (power-zero (value a))) in
    let r =
      exp_loop-Raised order scalar_mul scalar_mul-IsMulMod n_minus_2_be 256 0 a fe_one p
        (record { power_mod = start; is_fe = omega arith }) in
    let e : value (scalar_inv a) ≡ power (value a) (order - 2) % order =
      r.power_mod ∙ ap (λ t. power (value a) t % order) n_minus_2 in
    (
      e,
      (scalar_mul-value (scalar_inv a) a r.is_fe p).0
          ∙ ap (λ t. t * value a % order) e
          ∙ mod-mul_right (power (value a) (order - 2)) (value a) order
          ∙ ap (λ t. t % order) (mul_comm _ (value a) ∙ sym (power-suc (value a) (order - 2))),
      r.is_fe,
    )

-- What the loop does to a number below `k * n` in `k` tests.
scalar_reduce-value :
    (rounds : ℕ) (a : Fe)
    → IsFe a
    → value a < rounds * order
    → (r : Fe) × (scalar_reduce rounds a ≡ some r) × (value r ≡ value a % order) × IsFe r
unfolding scalar_reduce
scalar_reduce-value zero a p h = absurd (omega arith)
scalar_reduce-value (suc k) a p h = elim (Bool-cases (is_ge (cmp a p256_n))) [
  | inl ge ↦
      let l = cmp-ge a p256_n p.limbs order-IsFe.limbs p.size ge in
      let s = raw_sub-Subtracted a p256_n p.limbs order-IsFe.limbs p.size in
      let out = (raw_sub a p256_n).0 in
      let f : IsFe out = record { limbs = s.limbs; size = omega (arith, s.size, p.size) } in
      let vo = value-lt-radix out s.limbs in
      let ro = radix-cong out p256_n f.size in
      let ra = radix-cong a p256_n p.size in
      let cases = bit_times (raw_sub a p256_n).1 (radix a) s.borrow in
      let e : value out ≡ value a - order = omega (arith, s.diff) in
      let (r, run, v, g) = scalar_reduce-value k out f (omega arith) in
      rw ge (r, run, v ∙ ap (λ t. t % order) e ∙ sym (mod-eq-sub-mod l), g)
  | inr lt ↦
      let l = cmp-lt a p256_n p.limbs order-IsFe.limbs p.size lt in
      rw lt (a, refl, sym (mod-eq_of_lt l), p)
]

-- `p256_scalar_from_fe` ends, with the argument modulo n.
pub scalar_from_fe-value :
    (a : Fe)
    → IsFe a
    → (r : Fe) × (scalar_from_fe a ≡ some r) × (value r ≡ value a % order) × IsFe r
unfolding scalar_from_fe
scalar_from_fe-value a p =
    let b = value-lt-radix a p.limbs in
    let c = radix-cong a p256_n p.size in scalar_reduce-value 2 a p (omega arith)

-- `p256_scalar_from_be32` ends, with the number that the bytes stand for modulo n.
pub scalar_from_be32-value :
    (src : List ℕ)
    → IsBytes src
    → length src ≡ 32
    → (r : Fe) × (scalar_from_be32 src ≡ some r) × (value r ≡ be_value 0 src % order) × IsFe r
unfolding scalar_from_be32 scalar_from_fe
scalar_from_be32-value src h s =
    let (e, p) = fe_from_be32-value src h s in
    let (r, run, v, f) = scalar_from_fe-value (fe_from_be32 src) p in
    (r, run, v ∙ ap (λ t. t % order) e, f)

or_loop-ge : (a : Fe) (acc : ℕ) → acc ≤ or_loop acc a
unfolding or_loop
or_loop-ge [] acc = omega arith
or_loop-ge (x ∷ xs) acc = omega (arith, le-bit_or acc x, or_loop-ge xs (bit_or acc x))

pub or_loop-eq-zero : (a : Fe) → (or_loop 0 a ≡ 0) ↔ (value a ≡ 0)
unfolding or_loop
or_loop-eq-zero [] = (λ _. refl, λ _. refl)
or_loop-eq-zero (x ∷ xs) = (
  λ h.
      let z : bit_or 0 x ≡ 0 =
        omega (arith, or_loop-ge xs (bit_or 0 x), le-bit_or 0 x, zero-bit_or x) in
      let v = (or_loop-eq-zero xs).0 (ap (λ t. or_loop t xs) (sym z) ∙ h) in
      omega (arith, zero-bit_or x),
  λ h.
      let z : bit_or 0 x ≡ 0 = omega (arith, zero-bit_or x) in
      ap (λ t. or_loop t xs) z ∙ (or_loop-eq-zero xs).1 (omega arith),
)

pub fe_is_zero_iff : (a : Fe) → (fe_is_zero a ≡ true) ↔ (value a ≡ 0)
unfolding fe_is_zero
fe_is_zero_iff a =
    (λ h. (or_loop-eq-zero a).0 ((==_iff _ _).0 h), λ h. (==_iff _ _).1 ((or_loop-eq-zero a).1 h))

-- `p256_scalar_valid_be32` accepts exactly the bytes of a number from 1 to n - 1.
pub scalar_valid_be32_iff :
    (src : List ℕ)
    → IsBytes src
    → length src ≡ 32
    → (scalar_valid_be32 src ≡ true) ↔ ((0 < be_value 0 src) × (be_value 0 src < order))
unfolding scalar_valid_be32
scalar_valid_be32_iff src h s =
    let v = fe_from_be32 src in
    let (e, p) = fe_from_be32-value src h s in
    elim (Bool-cases (fe_is_zero v)) [
      | inl z ↦ let n = (fe_is_zero_iff v).0 z in rw z (λ c. cc, λ (lo, hi). absurd (omega arith))
      | inr z ↦
          let n : value v ≢ 0 = λ q. let c = (fe_is_zero_iff v).1 q in cc in
          elim (Bool-cases (is_ge (cmp v p256_n))) [
            | inl ge ↦
                let l = cmp-ge v p256_n p.limbs order-IsFe.limbs p.size ge in
                rw (z, ge) (λ c. cc, λ (lo, hi). absurd (omega arith))
            | inr lt ↦
                let l = cmp-lt v p256_n p.limbs order-IsFe.limbs p.size lt in
                rw (z, lt) (λ c. (omega arith, omega arith), λ b. refl)
          ]
    ]
