-- ===== src/Base/Bits.antt =====
-- `>>`, `|` and `&` of the C sources on native numbers, with the laws that the components use.
pub mod Digits
pub use Digits.{zero-bit_and, zero-bit_or, zero-bit_xor}
use Digits.{bit_xor_halve, bit_and_halve, bit_or_halve, halving}
use Prim.Native.Nat.{
  ℕ, zero, suc, ◌+◌, ◌*◌, ◌/◌, ◌%◌, ◌^◌, ◌≤◌, ◌<◌, min, max, bit_and, bit_or, bit_xor, digits,
  bit_and-bitwise, bit_or-bitwise,
}
use mathlib.Core.Path.{◌≡◌, refl, sym, ap, ap₂, ◌∙◌}
use native.Mathlib.Nat.{
  pow-suc, one-le-pow, div-add-mod, mod-lt, mod-eq_of_lt, mul-add-mod_self_left,
}
use native.Mathlib.Omega.{arith}

-- `x >> k`
unfoldable pub shr : ℕ → ℕ → ℕ
shr x zero = x
shr x (suc k) = shr (x / 2) k

shr-half : (x k : ℕ) → shr (x / 2) k ≡ shr x k / 2
unfolding shr
shr-half x zero = refl
shr-half x (suc k) = shr-half (x / 2) k

pub shr-suc : (x k : ℕ) → shr x (suc k) ≡ shr x k / 2
unfolding shr
shr-suc x k = shr-half x k

pow2_twice : (n v : ℕ) → 2 ^ suc n * v ≡ 2 * (2 ^ n * v)
pow2_twice n v = omega (arith, ap (λ (p : ℕ). p * v) (pow-suc 2 n))

half_sum : (n x v : ℕ) → (x + 2 ^ suc n * v) / 2 ≡ x / 2 + 2 ^ n * v
half_sum n x v = omega (arith, pow2_twice n v)

-- The bits of `x + 2 ^ n * v` below `n` are those of `x`.
pub shr-low : (n x v j : ℕ) → j < n → shr (x + 2 ^ n * v) j % 2 ≡ shr x j % 2
unfolding shr
shr-low zero x v j h = absurd (omega arith)
shr-low (suc n) x v zero h = omega (arith, pow2_twice n v)
shr-low (suc n) x v (suc j) h =
    ap (λ k. shr k j % 2) (half_sum n x v) ∙ shr-low n (x / 2) v j (omega arith)

-- Those from `n` on are the bits of `v`.
pub shr-high : (n x v j : ℕ) → x < 2 ^ n → shr (x + 2 ^ n * v) (n + j) ≡ shr v j
unfolding shr
shr-high zero x v j h =
    let e : x + 1 * v ≡ v = omega arith in let f : 0 + j ≡ j = omega arith in ap₂ shr e f
shr-high (suc n) x v j h =
    let f : suc n + j ≡ suc (n + j) = omega arith in
    ap (shr (x + 2 ^ suc n * v)) f
    ∙ ap (λ k. shr k (n + j)) (half_sum n x v)
    ∙ shr-high n (x / 2) v j (omega (arith, pow-suc 2 n))

pub bit_or-zero : (a : ℕ) → bit_or a 0 ≡ a
bit_or-zero =
    halving (λ a. bit_or a 0 ≡ a) (zero-bit_or 0)
      (λ a ih. omega (arith, bit_or_halve (suc a) 0, ih))

pub bit_and-zero : (a : ℕ) → bit_and a 0 ≡ 0
bit_and-zero =
    halving (λ a. bit_and a 0 ≡ 0) (zero-bit_and 0)
      (λ a ih. omega (arith, bit_and_halve (suc a) 0, ih))

pub bit_or_comm : (a b : ℕ) → bit_or a b ≡ bit_or b a
bit_or_comm =
    halving (λ a. (b : ℕ) → bit_or a b ≡ bit_or b a) (λ b. zero-bit_or b ∙ sym (bit_or-zero b))
      (λ a ih b. omega (arith, bit_or_halve (suc a) b, bit_or_halve b (suc a), ih (b / 2)))

-- A multiple of `2 ^ k` and a number below it share no bit: `|` adds them.
pub bit_or_disjoint : (k a b : ℕ) → b < 2 ^ k → bit_or (2 ^ k * a) b ≡ 2 ^ k * a + b
bit_or_disjoint zero a zero h = bit_or-zero (1 * a) ∙ omega arith
bit_or_disjoint zero a (suc b) h = absurd (omega arith)
bit_or_disjoint (suc k) a b h =
    bit_or_halve (2 ^ suc k * a) b
    ∙ ap (λ m. bit_or m (b / 2) * 2 + max (2 ^ suc k * a % 2) (b % 2)) halve
    ∙ omega (arith, pow2_twice k a, bit_or_disjoint k a (b / 2) (omega (arith, pow-suc 2 k)))
  where
    halve : 2 ^ suc k * a / 2 ≡ 2 ^ k * a
    halve = omega (arith, pow2_twice k a)

mod_twice : (q a : ℕ) → 0 < q → (a / 2 % q) * 2 + a % 2 ≡ a % (q * 2)
mod_twice q a h =
    sym (
      ap (λ k. k % (q * 2)) split
      ∙ mul-add-mod_self_left (q * 2) (a / 2 / q) c
      ∙ mod-eq_of_lt small)
  where
    c : ℕ
    c = (a / 2 % q) * 2 + a % 2

    split : a ≡ q * 2 * (a / 2 / q) + c
    split = omega (arith, div-add-mod (a / 2) q)

    small : c < q * 2
    small = omega (arith, mod-lt (a / 2) h)

pow2_pos : (k : ℕ) → 0 < 2 ^ k
pow2_pos k = one-le-pow k 2 (omega arith)

-- `x & (2 ^ k - 1)`, the mask given as a number `m` with `m + 1 ≡ 2 ^ k`.
pub bit_and_mask : (k a m : ℕ) → m + 1 ≡ 2 ^ k → bit_and a m ≡ a % 2 ^ k
bit_and_mask zero a zero h = bit_and-zero a ∙ omega arith
bit_and_mask zero a (suc m) h = absurd (omega arith)
bit_and_mask (suc k) a m h =
    bit_and_halve a m
    ∙ omega (
      arith,
      pow-suc 2 k,
      bit_and_mask k (a / 2) (m / 2) (omega (arith, pow-suc 2 k)),
      mod_twice (2 ^ k) a (pow2_pos k),
      ap (λ (p : ℕ). a % p) (pow-suc 2 k),
    )

-- `|` sets bits and clears none.
pub le-bit_or : (a b : ℕ) → (a ≤ bit_or a b) × (b ≤ bit_or a b)
le-bit_or =
    halving (λ a. (b : ℕ) → (a ≤ bit_or a b) × (b ≤ bit_or a b)) (λ b. omega (arith, zero-bit_or b))
      (λ a ih b. omega (arith, bit_or_halve (suc a) b, ih (b / 2)))

pub bit_xor_self : (a : ℕ) → bit_xor a a ≡ 0
bit_xor_self =
    halving (λ a. bit_xor a a ≡ 0) (zero-bit_xor 0)
      (λ a ih. omega (arith, bit_xor_halve (suc a) (suc a), ih))

-- `^` with the same operand twice changes nothing.
pub bit_xor_cancel : (a b : ℕ) → bit_xor (bit_xor a b) b ≡ a
bit_xor_cancel =
    halving (λ a. (b : ℕ) → bit_xor (bit_xor a b) b ≡ a)
      (λ b. ap (λ x. bit_xor x b) (zero-bit_xor b) ∙ bit_xor_self b)
      (λ a ih b.
        let half : bit_xor (suc a) b / 2 ≡ bit_xor (suc a / 2) (b / 2) =
          omega (arith, bit_xor_halve (suc a) b) in
        bit_xor_halve (bit_xor (suc a) b) b
        ∙ ap (λ m. bit_xor m (b / 2) * 2 + (bit_xor (suc a) b % 2 + b % 2) % 2) half
        ∙ omega (arith, ih (b / 2), bit_xor_halve (suc a) b))
