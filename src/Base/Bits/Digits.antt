-- ===== src/Base/Bits/Digits.antt =====
-- How `&`, `|` and `^` of the C sources go through the binary digits of their first operand.
use Prim.Native.Nat.{
  ℕ, zero, suc, ◌+◌, ◌-◌, ◌*◌, ◌/◌, ◌%◌, ◌≤◌, min, max, bit_and, bit_or, bit_xor, differ, digits,
  bit_and-bitwise, bit_or-bitwise, bit_xor-bitwise,
}
use mathlib.Core.Path.{◌≡◌, refl, ap, ◌∙◌}
use native.Mathlib.Omega.{arith}

module _ (rest : ℕ → ℕ) (op : ℕ → ℕ → ℕ) where
  -- Rounds beyond the digits of the first operand change nothing: one of them, or any number.
  spare_round : (k a b : ℕ) → a ≤ k → digits rest op (suc k) a b ≡ digits rest op k a b
  spare_round zero zero b h = refl
  spare_round (suc k) zero b h = refl
  spare_round zero (suc a) b h = absurd (omega arith)
  spare_round (suc k) (suc a) b h = omega (arith, spare_round k (suc a / 2) (b / 2) (omega arith))

  spare_rounds : (j a b : ℕ) → digits rest op (j + a) a b ≡ digits rest op a a b
  spare_rounds zero a b = ap (λ n. digits rest op n a b) (omega arith)
  spare_rounds (suc j) a b =
      let e : suc j + a ≡ suc (j + a) = omega arith in
      ap (λ n. digits rest op n a b) e ∙ spare_round (j + a) a b (omega arith) ∙ spare_rounds j a b

  pub digits_halve :
      (a b : ℕ)
      → digits rest op (suc a) (suc a) b
        ≡ digits rest op (suc a / 2) (suc a / 2) (b / 2) * 2 + op (suc a % 2) (b % 2)
  digits_halve a b =
      let h = suc a / 2 in
      let e : a ≡ (a - h) + h = omega arith in
      omega (arith, ap (λ n. digits rest op n h (b / 2)) e ∙ spare_rounds (a - h) h (b / 2))

pub zero-bit_and : (b : ℕ) → bit_and 0 b ≡ 0
zero-bit_and = bit_and-bitwise 0

pub zero-bit_or : (b : ℕ) → bit_or 0 b ≡ b
zero-bit_or = bit_or-bitwise 0

pub zero-bit_xor : (b : ℕ) → bit_xor 0 b ≡ b
zero-bit_xor = bit_xor-bitwise 0

-- The lowest digit of each, and the digits above it.
pub bit_and_halve : (a b : ℕ) → bit_and a b ≡ bit_and (a / 2) (b / 2) * 2 + min (a % 2) (b % 2)
bit_and_halve zero b = omega (arith, zero-bit_and b, zero-bit_and (b / 2))
bit_and_halve (suc a) b =
    bit_and-bitwise (suc a) b
    ∙ digits_halve (λ _. zero) min a b
    ∙ omega (arith, bit_and-bitwise (suc a / 2) (b / 2))

pub bit_or_halve : (a b : ℕ) → bit_or a b ≡ bit_or (a / 2) (b / 2) * 2 + max (a % 2) (b % 2)
bit_or_halve zero b = omega (arith, zero-bit_or b, zero-bit_or (b / 2))
bit_or_halve (suc a) b =
    bit_or-bitwise (suc a) b
    ∙ digits_halve (λ k. k) max a b
    ∙ omega (arith, bit_or-bitwise (suc a / 2) (b / 2))

differ_parts : (x y : ℕ) → differ x y ≡ (x - y) + (y - x)
differ_parts zero y = omega arith
differ_parts (suc x) zero = omega arith
differ_parts (suc x) (suc y) = omega (arith, differ_parts x y)

differ_bits : (a b : ℕ) → differ (a % 2) (b % 2) ≡ (a % 2 + b % 2) % 2
differ_bits a b = omega (arith, differ_parts (a % 2) (b % 2))

pub bit_xor_halve : (a b : ℕ) → bit_xor a b ≡ bit_xor (a / 2) (b / 2) * 2 + (a % 2 + b % 2) % 2
bit_xor_halve zero b = omega (arith, zero-bit_xor b, zero-bit_xor (b / 2))
bit_xor_halve (suc a) b =
    bit_xor-bitwise (suc a) b
    ∙ digits_halve (λ k. k) differ a b
    ∙ omega (arith, bit_xor-bitwise (suc a / 2) (b / 2), differ_bits (suc a) b)

-- Induction along the halves of a number.
pub halving {ℓ} : (P : ℕ → Type ℓ) → P 0 → ((a : ℕ) → P (suc a / 2) → P (suc a)) → (a : ℕ) → P a
halving P base step a = below a a (omega arith)
  where
    below : (k a : ℕ) → a ≤ k → P a
    below k zero h = base
    below zero (suc a) h = absurd (omega arith)
    below (suc k) (suc a) h = step a (below k (suc a / 2) (omega arith))
