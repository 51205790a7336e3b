-- ===== src/P256/Reduce/Bits.antt =====
-- drivers/p256.c: `get_bit512` reads the bits of the number that the limbs stand for.
use minerva_os.Base.{
  ℕ, zero, suc, ◌+◌, ◌-◌, ◌/◌, ◌%◌, ◌≡◌, refl, ap, ap₂, sym, ◌∙◌, List, [], ◌∷◌, get_or, arith, ltb,
  Bool-cases, inl, inr, ltb→lt, not_ltb→le,
}
use minerva_os.Base.Bits.{shr, shr-low, shr-high, bit_and_mask}
use minerva_os.P256.Limbs.{value, IsLimbs}
use minerva_os.P256.Reduce.{get_bit512}

limb_bit : List ℕ → ℕ → ℕ
limb_bit xs bit = shr (get_or xs (bit / 32) 0) (bit % 32) % 2

shr-zero : (k : ℕ) → shr 0 k ≡ 0
unfolding shr
shr-zero zero = refl
shr-zero (suc k) = shr-zero k

shr-value : (xs : List ℕ) (bit : ℕ) → IsLimbs xs → shr (value xs) bit % 2 ≡ limb_bit xs bit
unfolding limb_bit
shr-value [] bit p = ap (λ k. k % 2) (shr-zero bit ∙ sym (shr-zero (bit % 32)))
shr-value (x ∷ xs) bit p = elim (Bool-cases (ltb bit 32)) [
  | inl lt ↦
      let l = ltb→lt _ _ lt in
      let i : bit / 32 ≡ 0 = omega arith in
      let j : bit % 32 ≡ bit = omega arith in
      shr-low 32 x (value xs) bit l ∙ sym (ap₂ (λ i j. shr (get_or (x ∷ xs) i 0) j % 2) i j)
  | inr ge ↦
      let g = not_ltb→le _ _ ge in
      let i : bit / 32 ≡ suc ((bit - 32) / 32) = omega arith in
      let j : bit % 32 ≡ (bit - 32) % 32 = omega arith in
      let k : bit ≡ 32 + (bit - 32) = omega arith in
      ap (λ k. shr (value (x ∷ xs)) k % 2) k
      ∙ ap (λ k. k % 2) (shr-high 32 x (value xs) (bit - 32) p.0)
      ∙ shr-value xs (bit - 32) p.1
      ∙ sym (ap₂ (λ i j. shr (get_or (x ∷ xs) i 0) j % 2) i j)
]

pub get_bit512-value :
    (xs : List ℕ) (bit : ℕ) → IsLimbs xs → get_bit512 xs bit ≡ shr (value xs) bit % 2
unfolding get_bit512 limb_bit
get_bit512-value xs bit p = bit_and_mask 1 _ 1 refl ∙ sym (shr-value xs bit p)
