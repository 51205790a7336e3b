-- ===== src/Base/Int.antt =====
-- The integers over the native numbers, for the signed variables of the code.
use minerva_os.Base.{ℕ, suc, ◌+◌, ◌-◌, ◌≤◌, ◌≡◌, Bool, true, false, if◌then◌else◌, leb}

-- `negsuc n` is -(n + 1).
pub data ℤ : Type 0 where
  pos : ℕ → ℤ
  negsuc : ℕ → ℤ

-- a - b, as an integer.
abbrev pub sub_ℕ : ℕ → ℕ → ℤ
sub_ℕ a b = if leb b a then pos (a - b) else negsuc (b - a - 1)

infixl 65 ◌+ℤ◌
abbrev pub ◌+ℤ◌ : ℤ → ℤ → ℤ
pos a +ℤ pos b = pos (a + b)
pos a +ℤ negsuc b = sub_ℕ a (suc b)
negsuc a +ℤ pos b = sub_ℕ b (suc a)
negsuc a +ℤ negsuc b = negsuc (a + b + 1)

abbrev pub neg : ℤ → ℤ
neg (pos a) = sub_ℕ 0 a
neg (negsuc a) = pos (suc a)

-- The tests `x < 0` and `x > n`.
abbrev pub is_negative : ℤ → Bool
is_negative (pos a) = false
is_negative (negsuc a) = true

abbrev pub is_above : ℕ → ℤ → Bool
is_above n (pos a) = if leb a n then false else true
is_above n (negsuc a) = false

-- The integer is one of 0 to `n`.
abbrev pub UpTo : ℕ → ℤ → Type 0
UpTo n x = (a : ℕ) × (x ≡ pos a) × (a ≤ n)
