-- ===== src/Base/Ends.antt =====
-- Code that may fail to end or read outside its buffer: `none` for both, and what holds of a result.
use minerva_os.Base.{
  ℕ, zero, suc, ◌<◌, ◌≡◌, refl, ap, ◌∙◌, Bool, true, false, List, [], ◌∷◌, Option, none, some,
  if◌then◌else◌, length, All, arith,
}

module _ {ℓ κ} {A : Type ℓ} {B : Type κ} where
  abbrev pub and_then : Option A → (A → Option B) → Option B
  and_then none f = none
  and_then (some a) f = f a

-- The code ends, and its result has the property.
abbrev pub Ends {ℓ κ} : {A : Type ℓ} → (A → Type κ) → Option A → Type (ℓ ⊔ κ)
Ends {A = A} P o = (a : A) × (o ≡ some a) × P a

pub Ends-and_then {ℓ κ μ ν} :
    {A : Type ℓ} {B : Type κ} {P : A → Type μ} {Q : B → Type ν} (o : Option A) (f : A → Option B)
    → Ends P o
    → ((a : A) → P a → Ends Q (f a))
    → Ends Q (and_then o f)
Ends-and_then o f (a, e, p) h = let (b, e', q) = h a p in (b, ap (λ o. and_then o f) e ∙ e', q)

pub Ends-if {ℓ κ} :
    {A : Type ℓ} {P : A → Type κ} (c : Bool) (x y : Option A)
    → (c ≡ true → Ends P x)
    → (c ≡ false → Ends P y)
    → Ends P (if c then x else y)
Ends-if true x y p q = p refl
Ends-if false x y p q = q refl

-- A read of a list, that is there only inside it.
abbrev pub get? {ℓ} : {A : Type ℓ} → List A → ℕ → Option A
get? [] i = none
get? (x ∷ xs) zero = some x
get? (x ∷ xs) (suc i) = get? xs i

pub get?-Ends {ℓ κ} :
    {A : Type ℓ} (P : A → Type κ) (xs : List A) (i : ℕ)
    → All P xs
    → i < length xs
    → Ends P (get? xs i)
get?-Ends P [] i h b = absurd (omega arith)
get?-Ends P (x ∷ xs) zero h b = (x, refl, h.0)
get?-Ends P (x ∷ xs) (suc i) h b = get?-Ends P xs i h.1 (omega arith)

pub get?-inside {ℓ} :
    {A : Type ℓ} (xs : List A) (i : ℕ) → i < length xs → Ends (λ a. a ≡ a) (get? xs i)
get?-inside [] i b = absurd (omega arith)
get?-inside (x ∷ xs) zero b = (x, refl, refl)
get?-inside (x ∷ xs) (suc i) b = get?-inside xs i (omega arith)
