-- ===== src/Kernel/Names.antt =====
-- libc/string.c: the comparison of C strings, which stand here without their final zero byte.
use minerva_os.Base.{
  inl, inr, ℕ, ◌≡◌, ◌↔◌, ◌<◌, refl, List, [], ◌∷◌, arith, All, Bool, true, Bool-cases, ◌==◌, ==_iff,
  if◌then◌else◌,
}

-- A string's bytes are not zero.
abbrev pub IsCstring : List ℕ → Type 0
IsCstring = All (λ c. 0 < c)

-- The two bytes whose difference `strcmp` returns.
unfoldable pub strcmp : List ℕ → List ℕ → ℕ × ℕ
strcmp [] [] = (0, 0)
strcmp [] (r ∷ rs) = (0, r)
strcmp (l ∷ ls) [] = (l, 0)
strcmp (l ∷ ls) (r ∷ rs) = if l == r then strcmp ls rs else (l, r)

-- `strcmp(left, right) == 0`
abbrev pub same_name : List ℕ → List ℕ → Bool
same_name l r = (strcmp l r).0 == (strcmp l r).1

pub same_name_self : (l : List ℕ) → same_name l l ≡ true
unfolding strcmp
same_name_self [] = refl
same_name_self (l ∷ ls) = let e : (l == l) ≡ true = (==_iff l l).1 refl in rw e (same_name_self ls)

-- `strcmp` answers 0 on two strings, which hold no NUL, exactly if they are equal.
pub strcmp-zero_iff :
    (l r : List ℕ) → IsCstring l → IsCstring r → ((strcmp l r).0 ≡ (strcmp l r).1) ↔ (l ≡ r)
unfolding strcmp
strcmp-zero_iff l r hl hr = (to l r hl hr, λ e. (==_iff _ _).0 (rw (← e) (same_name_self l)))
  where
    to : (l r : List ℕ) → IsCstring l → IsCstring r → (strcmp l r).0 ≡ (strcmp l r).1 → l ≡ r
    to [] [] hl hr e = refl
    to [] (r ∷ rs) hl hr e = absurd (omega (arith, hr.0))
    to (l ∷ ls) [] hl hr e = absurd (omega (arith, hl.0))
    to (l ∷ ls) (r ∷ rs) hl hr e = elim (Bool-cases (l == r)) [
      | inl t ↦
          let e' : (strcmp ls rs).0 ≡ (strcmp ls rs).1 = rw t at e in
          let h : l ≡ r = (==_iff l r).0 t in rw (h, to ls rs hl.1 hr.1 e') refl
      | inr n ↦ ground (arith)
    ]
