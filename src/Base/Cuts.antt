-- ===== src/Base/Cuts.antt =====
-- Lists cut at an index: blocks of a message, fields of a record, bytes of a sector.
use minerva_os.Base.{
  ℕ, zero, suc, ◌+◌, ◌≤◌, ◌<◌, ◌-◌, ◌≡◌, refl, ap, List, [], ◌∷◌, ◌++◌, length, map, take, set,
  arith,
}

module _ {ℓ} {A : Type ℓ} where
  abbrev pub drop : ℕ → List A → List A
  drop zero xs = xs
  drop (suc n) [] = []
  drop (suc n) (x ∷ xs) = drop n xs

  pub take-append : (n : ℕ) (xs ys : List A) → n ≤ length xs → take n (xs ++ ys) ≡ take n xs
  take-append zero xs ys h = refl
  take-append (suc n) [] ys h = absurd (omega arith)
  take-append (suc n) (x ∷ xs) ys h = ap (λ l. x ∷ l) (take-append n xs ys (omega arith))

  pub drop-append : (n : ℕ) (xs ys : List A) → n ≤ length xs → drop n (xs ++ ys) ≡ drop n xs ++ ys
  drop-append zero xs ys h = refl
  drop-append (suc n) [] ys h = absurd (omega arith)
  drop-append (suc n) (x ∷ xs) ys h = drop-append n xs ys (omega arith)

  pub take_all : (n : ℕ) (xs : List A) → length xs ≡ n → take n xs ≡ xs
  take_all zero [] h = refl
  take_all zero (x ∷ xs) h = absurd (omega arith)
  take_all (suc n) [] h = refl
  take_all (suc n) (x ∷ xs) h = ap (λ l. x ∷ l) (take_all n xs (omega arith))

  pub drop_all : (n : ℕ) (xs : List A) → length xs ≡ n → drop n xs ≡ []
  drop_all zero [] h = refl
  drop_all zero (x ∷ xs) h = absurd (omega arith)
  drop_all (suc n) [] h = refl
  drop_all (suc n) (x ∷ xs) h = drop_all n xs (omega arith)

  pub length-drop : (n : ℕ) (xs : List A) → length (drop n xs) ≡ length xs - n
  length-drop zero xs = omega arith
  length-drop (suc n) [] = omega arith
  length-drop (suc n) (x ∷ xs) = omega (arith, length-drop n xs)

  -- A write behind a prefix.
  pub set-append :
      (p t : List A) (i n : ℕ) (v : A) → i ≡ length p + n → set (p ++ t) i v ≡ p ++ set t n v
  set-append [] t i n v e = ap (λ j. set t j v) (omega arith)
  set-append (x ∷ p) t zero n v e = absurd (omega arith)
  set-append (x ∷ p) t (suc i) n v e = ap (λ l. x ∷ l) (set-append p t i n v (omega arith))

  pub drop-set :
      (n : ℕ) (t : List A) (v : A) → n < length t → drop n (set t n v) ≡ v ∷ drop (suc n) t
  drop-set n [] v h = absurd (omega arith)
  drop-set zero (x ∷ t) v h = refl
  drop-set (suc n) (x ∷ t) v h = drop-set n t v (omega arith)

  -- Cutting a list that is no longer than the cut.
  pub take_short : (n : ℕ) (xs : List A) → length xs ≤ n → (take n xs ≡ xs) × (drop n xs ≡ [])
  take_short zero [] h = (refl, refl)
  take_short zero (x ∷ xs) h = absurd (omega arith)
  take_short (suc n) [] h = (refl, refl)
  take_short (suc n) (x ∷ xs) h =
      let rest = take_short n xs (omega arith) in (ap (λ l. x ∷ l) rest.0, rest.1)

  pub length-take : (n : ℕ) (xs : List A) → n ≤ length xs → length (take n xs) ≡ n
  length-take zero xs h = refl
  length-take (suc n) [] h = absurd (omega arith)
  length-take (suc n) (x ∷ xs) h = ap suc (length-take n xs (omega arith))

  pub take-drop : (n : ℕ) (xs : List A) → take n xs ++ drop n xs ≡ xs
  take-drop zero xs = refl
  take-drop (suc n) [] = refl
  take-drop (suc n) (x ∷ xs) = ap (λ l. x ∷ l) (take-drop n xs)

  pub length-take-drop : (n : ℕ) (xs : List A) → length (take n xs) + length (drop n xs) ≡ length xs
  length-take-drop zero xs = omega arith
  length-take-drop (suc n) [] = refl
  length-take-drop (suc n) (x ∷ xs) = omega (arith, length-take-drop n xs)

pub length-map {ℓ κ} :
    {A : Type ℓ} {B : Type κ} (f : A → B) (xs : List A) → length (map f xs) ≡ length xs
length-map f [] = refl
length-map f (x ∷ xs) = ap suc (length-map f xs)
