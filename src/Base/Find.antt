-- ===== src/Base/Find.antt =====
-- Loops that look for the first element of an array that passes a test.
use Prim.Native.Nat.{ℕ, zero, suc, ◌<◌}
use mathlib.Core.Path.{◌≡◌, refl}
use mathlib.Core.Logic.{◌⊎◌, inl, inr}
use mathlib.Core.Bool.{Bool, true, false}
use mathlib.Core.List.{List, [], ◌∷◌}
use mathlib.Core.Option.{Option, none, some}
use native.Mathlib.Omega.{arith}
use minerva_os.Base.Tests.{if◌then◌else◌, Bool-cases}
use minerva_os.Base.Lists.{length, get_or, set, All}

abbrev next_index : Option ℕ → Option ℕ
next_index none = none
next_index (some i) = some (suc i)

module _ {ℓ} {A : Type ℓ} where
  unfoldable pub find_index : (A → Bool) → List A → Option ℕ
  find_index p [] = none
  find_index p (x ∷ xs) = if p x then some 0 else next_index (find_index p xs)

  -- The first `n` elements fail the test.
  abbrev pub FailBelow : (A → Bool) → ℕ → List A → Type 0
  FailBelow p zero xs = Unit
  FailBelow p (suc n) [] = Unit
  FailBelow p (suc n) (x ∷ xs) = (p x ≡ false) × FailBelow p n xs

  -- The element at `i` is the first that passes.
  pub record Found (p : A → Bool) (xs : List A) (i : ℕ) (d : A) : Type 0 where
    pub bound : i < length xs
    pub passes : p (get_or xs i d) ≡ true
    pub first : FailBelow p i xs

  pub find_index-cases :
      (p : A → Bool) (xs : List A) (d : A)
      → ((find_index p xs ≡ none) × All (λ x. p x ≡ false) xs)
        ⊎ ((i : ℕ) × (find_index p xs ≡ some i) × Found p xs i d)
  unfolding find_index
  find_index-cases p [] d = inl (refl, tt)
  find_index-cases p (x ∷ xs) d = elim (Bool-cases (p x)) [
    | inl e ↦ rw e (inr (0, refl, record { bound = omega arith; passes = e; first = tt }))
    | inr e ↦ elim (find_index-cases p xs d) [
      | inl (n, h) ↦ rw (e, n) (inl (refl, (refl, h)))
      | inr (i, s, f) ↦
          rw (e, s)
            (inr (
              suc i,
              refl,
              record { bound = omega (arith, f.bound); passes = f.passes; first = (e, f.first) },
            ))
    ]
  ]

  pub find_index-set :
      (p : A → Bool) (xs : List A) (i : ℕ) (v : A)
      → FailBelow p i xs
      → i < length xs
      → p v ≡ true
      → find_index p (set xs i v) ≡ some i
  unfolding find_index
  find_index-set p [] i v f l e = absurd (omega arith)
  find_index-set p (x ∷ xs) zero v f l e = rw e refl
  find_index-set p (x ∷ xs) (suc i) v f l e =
      rw (f.0, find_index-set p xs i v f.1 (omega arith) e) refl

  pub FailBelow-All :
      (p : A → Bool) (n : ℕ) (xs : List A) → All (λ x. p x ≡ false) xs → FailBelow p n xs
  FailBelow-All p zero xs h = tt
  FailBelow-All p (suc n) [] h = tt
  FailBelow-All p (suc n) (x ∷ xs) h = (h.0, FailBelow-All p n xs h.1)
