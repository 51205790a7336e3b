-- ===== src/P256/Compare.antt =====
-- drivers/p256.c: `p256_cmp` orders limb lists as the numbers they stand for.
use Prim.Native.Nat.{compare}
use minerva_os.Base.{
  ℕ, ◌*◌, ◌^◌, ◌<◌, ◌≤◌, ◌≡◌, refl, List, [], ◌∷◌, arith, length, ap, ap₂, true, false,
}
use minerva_os.P256.Limbs.{Fe, value, radix, IsLimbs, cmp, is_ge}

-- `p256_cmp` returns the order of the two numbers.
pub cmp-value :
    (a b : Fe) → IsLimbs a → IsLimbs b → length a ≡ length b → cmp a b ≡ compare (value a) (value b)
unfolding cmp
cmp-value [] [] p q e = refl
cmp-value [] (y ∷ ys) p q e = absurd (omega arith)
cmp-value (x ∷ xs) [] p q e = absurd (omega arith)
cmp-value (x ∷ xs) (y ∷ ys) p q e = ground (arith, cmp-value xs ys p.1 q.1 (omega arith))

pub cmp-ge :
    (a b : Fe)
    → IsLimbs a
    → IsLimbs b
    → length a ≡ length b
    → is_ge (cmp a b) ≡ true
    → value b ≤ value a
cmp-ge a b p q e h = ground (arith, cmp-value a b p q e)

pub cmp-lt :
    (a b : Fe)
    → IsLimbs a
    → IsLimbs b
    → length a ≡ length b
    → is_ge (cmp a b) ≡ false
    → value a < value b
cmp-lt a b p q e h = ground (arith, cmp-value a b p q e)

pub value-lt-radix : (a : List ℕ) → IsLimbs a → value a < radix a
value-lt-radix [] p = omega arith
value-lt-radix (x ∷ xs) p = omega (arith, value-lt-radix xs p.1)

pub radix-cong : (a b : List ℕ) → length a ≡ length b → radix a ≡ radix b
radix-cong [] [] e = refl
radix-cong [] (y ∷ ys) e = absurd (omega arith)
radix-cong (x ∷ xs) [] e = absurd (omega arith)
radix-cong (x ∷ xs) (y ∷ ys) e = ap (λ r. 2 ^ 32 * r) (radix-cong xs ys (omega arith))

-- A number has one list of limbs of a given length.
pub value-injective :
    (a b : Fe) → IsLimbs a → IsLimbs b → length a ≡ length b → value a ≡ value b → a ≡ b
value-injective [] [] p q l e = refl
value-injective [] (y ∷ ys) p q l e = absurd (omega arith)
value-injective (x ∷ xs) [] p q l e = absurd (omega arith)
value-injective (x ∷ xs) (y ∷ ys) p q l e =
    ap₂ ◌∷◌ (omega arith) (value-injective xs ys p.1 q.1 (omega arith) (omega arith))
