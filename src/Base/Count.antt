-- ===== src/Base/Count.antt =====
-- Sums over the numbers below a bound, and checking a small range by evaluation.
use minerva_os.Base.{
  ℕ, zero, suc, ◌+◌, ◌<◌, ◌≡◌, ◌≢◌, refl, Bool, true, ◌&&◌, arith, ◌==◌, Bool-cases, inl, inr,
  ==_iff,
}

-- f 0 + … + f (n - 1)
unfoldable pub sum_below : ℕ → (ℕ → ℕ) → ℕ
sum_below zero f = 0
sum_below (suc n) f = sum_below n f + f n

pub sum_below-cong :
    (n : ℕ) (f g : ℕ → ℕ) → ((i : ℕ) → i < n → g i ≡ f i) → sum_below n g ≡ sum_below n f
unfolding sum_below
sum_below-cong zero f g h = refl
sum_below-cong (suc n) f g h =
    omega (arith, sum_below-cong n f g (λ i l. h i (omega arith)), h n (omega arith))

-- Two functions that differ at one place have sums that differ as they do there.
pub sum_below-update :
    (n : ℕ) (f g : ℕ → ℕ) (p : ℕ)
    → p < n
    → ((i : ℕ) → i < n → i ≢ p → g i ≡ f i)
    → sum_below n g + f p ≡ sum_below n f + g p
unfolding sum_below
sum_below-update zero f g p l h = absurd (omega arith)
sum_below-update (suc n) f g p l h = elim (Bool-cases (n == p)) [
  | inl e ↦
      let e' : n ≡ p = (==_iff n p).0 e in
      rw (← e') (omega (arith, sum_below-cong n f g (λ i l'. h i (omega arith) (omega arith))))
  | inr ne ↦
      let ne' : n ≢ p = ground arith in
      omega (
        arith,
        sum_below-update n f g p (omega arith) (λ i l' d. h i (omega arith) d),
        h n (omega arith) ne',
      )
]

pub sum_below-ones : (n : ℕ) (f : ℕ → ℕ) → ((i : ℕ) → i < n → f i ≡ 1) → sum_below n f ≡ n
unfolding sum_below
sum_below-ones zero f h = refl
sum_below-ones (suc n) f h =
    omega (arith, sum_below-ones n f (λ i l. h i (omega arith)), h n (omega arith))

unfoldable pub all_below : ℕ → (ℕ → Bool) → Bool
all_below zero p = true
all_below (suc n) p = p n && all_below n p

pub all_below_sound : (n : ℕ) (p : ℕ → Bool) (x : ℕ) → all_below n p ≡ true → x < n → p x ≡ true
unfolding all_below
all_below_sound zero p x h l = absurd (omega arith)
all_below_sound (suc n) p x h l = ground (arith, all_below_sound n p x)
