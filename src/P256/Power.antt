-- ===== src/P256/Power.antt =====
-- drivers/p256.c: the square-and-multiply loop of `p256_fe_inv` and `p256_scalar_inv`.
use native.Mathlib.Nat.{div-add-mod, mul-add-mod_self_left, mul_comm, mul_assoc}
use minerva_os.Base.{
  ℕ, zero, suc, ◌+◌, ◌-◌, ◌*◌, ◌/◌, ◌%◌, ◌≡◌, refl, ap, sym, ◌∙◌, List, arith, get_or, bit_and,
  ◌==◌, if◌then◌else◌, Bool-cases, inl, inr,
}
use minerva_os.Base.Bits.{shr}
use minerva_os.P256.Limbs.{Fe, IsFe, value}

-- `(exp[31 - bit / 8] >> (bit % 8)) & 1`, for the exponent's 32 bytes, highest first.
unfoldable pub exponent_bit : List ℕ → ℕ → ℕ
exponent_bit bytes bit = bit_and (shr (get_or bytes (31 - bit / 8) 0) (bit % 8)) 1

-- `for (bit = 255; bit >= 0; bit--)`, the bits below the second argument still to do.
unfoldable pub exp_loop : (Fe → Fe → Fe) → List ℕ → ℕ → Fe → Fe → Fe
exp_loop mul bytes zero base result = result
exp_loop mul bytes (suc bit) base result =
    let square = mul result result in
    exp_loop mul bytes bit base (if exponent_bit bytes bit == 0 then square else mul square base)

-- a to the n. It stays shut, so that no proof computes a power.
pub power : ℕ → ℕ → ℕ
power a zero = 1
power a (suc n) = a * power a n

-- The exponent that the loop raises to, from `acc` on.
unfoldable pub exponent : List ℕ → ℕ → ℕ → ℕ
exponent bytes zero acc = acc
exponent bytes (suc bit) acc =
    exponent bytes bit (if exponent_bit bytes bit == 0 then acc + acc else suc (acc + acc))

pub power-suc : (a n : ℕ) → power a (suc n) ≡ a * power a n
unfolding power
power-suc a n = refl

pub power-zero : (a : ℕ) → power a 0 ≡ 1
unfolding power
power-zero a = refl

power-add : (a n m : ℕ) → power a (n + m) ≡ power a n * power a m
unfolding power
power-add a zero m = let e : 0 + m ≡ m = omega arith in ap (power a) e ∙ omega arith
power-add a (suc n) m =
    let e : suc n + m ≡ suc (n + m) = omega arith in
    ap (power a) e ∙ ap (λ t. a * t) (power-add a n m) ∙ sym (mul_assoc a (power a n) (power a m))

mod-mul_left : (x y m : ℕ) → (x % m * y) % m ≡ (x * y) % m
mod-mul_left x y m =
    let split : m * (x / m) + x % m ≡ x = div-add-mod x m in
    let e : m * (x / m * y) + x % m * y ≡ x * y = omega (arith, ap (λ (t : ℕ). t * y) split) in
    sym (ap (λ t. t % m) (sym e) ∙ mul-add-mod_self_left m (x / m * y) (x % m * y))

pub mod-mul : (x y m : ℕ) → (x % m * (y % m)) % m ≡ (x * y) % m
mod-mul x y m =
    mod-mul_left x (y % m) m
    ∙ ap (λ t. t % m) (mul_comm x (y % m))
    ∙ mod-mul_left y x m
    ∙ ap (λ t. t % m) (mul_comm y x)

pub mod-mul_right : (x y m : ℕ) → (x % m * y) % m ≡ (x * y) % m
mod-mul_right = mod-mul_left

-- A multiplication modulo `m`.
pub record IsMulMod (m : ℕ) (mul : Fe → Fe → Fe) : Type 0 where
  pub product : (x y : Fe) → IsFe x → IsFe y → value (mul x y) ≡ (value x * value y) % m
  pub closed : (x y : Fe) → IsFe x → IsFe y → IsFe (mul x y)

module _ (m : ℕ) (mul : Fe → Fe → Fe) (law : IsMulMod m mul) where
  open law use {product, closed}

  pub record Raised (a e : ℕ) (r : Fe) : Type 0 where
    pub power_mod : value r ≡ power a e % m
    pub is_fe : IsFe r

  square-Raised : (a e : ℕ) (r : Fe) → Raised a e r → Raised a (e + e) (mul r r)
  square-Raised a e r h = record {
    power_mod =
        product r r h.is_fe h.is_fe
        ∙ ap (λ t. t * t % m) h.power_mod
        ∙ mod-mul (power a e) (power a e) m
        ∙ ap (λ t. t % m) (sym (power-add a e e));
    is_fe = closed r r h.is_fe h.is_fe;
  }

  times-Raised :
      (e : ℕ) (base r : Fe)
      → IsFe base
      → Raised (value base) e r
      → Raised (value base) (suc e) (mul r base)
  times-Raised e base r p h = record {
    power_mod =
        product r base h.is_fe p
        ∙ ap (λ t. t * value base % m) h.power_mod
        ∙ mod-mul_left (power (value base) e) (value base) m
        ∙ ap (λ t. t % m)
            (mul_comm (power (value base) e) (value base) ∙ sym (power-suc (value base) e));
    is_fe = closed r base h.is_fe p;
  }

  -- The loop raises the base to the exponent whose bits it reads.
  pub exp_loop-Raised :
      (bytes : List ℕ) (k acc : ℕ) (base r : Fe)
      → IsFe base
      → Raised (value base) acc r
      → Raised (value base) (exponent bytes k acc) (exp_loop mul bytes k base r)
  unfolding exp_loop exponent
  exp_loop-Raised bytes zero acc base r p h = h
  exp_loop-Raised bytes (suc bit) acc base r p h = elim (Bool-cases (exponent_bit bytes bit == 0)) [
    | inl e ↦ rw e (
        exp_loop-Raised bytes bit (acc + acc) base (mul r r) p (square-Raised (value base) acc r h))
    | inr e ↦ rw e (
        exp_loop-Raised bytes bit (suc (acc + acc)) base (mul (mul r r) base) p
          (times-Raised (acc + acc) base (mul r r) p (square-Raised (value base) acc r h)))
  ]
