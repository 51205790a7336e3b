-- ===== src/P256/Limbs.antt =====
-- drivers/p256.c: `p256_fe_t` as the list of its limbs, lowest first, and the loops over limbs.
use Prim.Native.Nat.{Ordering}
use minerva_os.Base.{
  ℕ, ◌+◌, ◌-◌, ◌*◌, ◌/◌, ◌%◌, ◌^◌, ◌<◌, ◌≡◌, Bool, true, false, List, [], ◌∷◌, ltb, if◌then◌else◌,
  All, replicate, length, ◌==◌, bit_or,
}

-- `p256_fe_t`: `v[0]` is the head.
abbrev pub Fe : Type 0
Fe = List ℕ

-- What a list of limbs stands for.
abbrev pub value : List ℕ → ℕ
value [] = 0
value (x ∷ xs) = x + 2 ^ 32 * value xs

-- 2 ^ 32 to the number of limbs.
abbrev pub radix : List ℕ → ℕ
radix [] = 1
radix (x ∷ xs) = 2 ^ 32 * radix xs

-- Each limb is a `uint32_t`.
abbrev pub IsLimbs : List ℕ → Type 0
IsLimbs = All (λ x. x < 2 ^ 32)

-- The eight limbs of a `p256_fe_t`.
pub record IsFe (a : Fe) : Type 0 where
  pub limbs : IsLimbs a
  pub size : length a ≡ 8

-- `p256_p`
abbrev pub p256_p : Fe
p256_p =
    0xFFFFFFFF ∷ 0xFFFFFFFF ∷ 0xFFFFFFFF ∷ 0x00000000 ∷ 0x00000000 ∷ 0x00000000 ∷ 0x00000001
    ∷ 0xFFFFFFFF ∷ []

-- `p256_n`
abbrev pub p256_n : Fe
p256_n =
    0xFC632551 ∷ 0xF3B9CAC2 ∷ 0xA7179E84 ∷ 0xBCE6FAAD ∷ 0xFFFFFFFF ∷ 0xFFFFFFFF ∷ 0x00000000
    ∷ 0xFFFFFFFF ∷ []

-- `p256_fe_zero`
unfoldable pub fe_zero : Fe
fe_zero = replicate 8 0

-- `p256_fe_one`
unfoldable pub fe_one : Fe
fe_one = 1 ∷ replicate 7 0

-- `p256_cmp`: the result's sign. The limbs above are compared before `x` and `y` are.
unfoldable pub cmp : Fe → Fe → Ordering
cmp [] ys = Ordering.eq
cmp (x ∷ xs) [] = Ordering.eq
cmp (x ∷ xs) (y ∷ ys) = elim (cmp xs ys) [
  | Ordering.eq ↦ if ltb y x then Ordering.gt else if ltb x y then Ordering.lt else Ordering.eq
  | r ↦ r
]

-- The test `p256_cmp(…) >= 0`.
abbrev pub is_ge : Ordering → Bool
is_ge Ordering.lt = false
is_ge _ = true

-- The loop of `p256_raw_sub`, which takes the borrow and returns the limbs and the last borrow.
unfoldable pub sub_loop : ℕ → Fe → Fe → Fe × ℕ
sub_loop borrow [] ys = ([], borrow)
sub_loop borrow (x ∷ xs) [] = ([], borrow)
sub_loop borrow (x ∷ xs) (y ∷ ys) =
    let bv = (y + borrow) % 2 ^ 64 in
    let limb = (x + 2 ^ 64 - bv) % 2 ^ 64 % 2 ^ 32 in
    let (out, last) = sub_loop (if ltb x bv then 1 else 0) xs ys in (limb ∷ out, last)

-- `p256_raw_sub`
unfoldable pub raw_sub : Fe → Fe → Fe × ℕ
raw_sub a b = sub_loop 0 a b

-- The loop of `p256_raw_add`.
unfoldable pub add_loop : ℕ → Fe → Fe → Fe × ℕ
add_loop carry [] ys = ([], carry)
add_loop carry (x ∷ xs) [] = ([], carry)
add_loop carry (x ∷ xs) (y ∷ ys) =
    let sum = (x + y + carry) % 2 ^ 64 in
    let (out, last) = add_loop (sum / 2 ^ 32) xs ys in (sum % 2 ^ 32 ∷ out, last)

-- `p256_raw_add`
unfoldable pub raw_add : Fe → Fe → Fe × ℕ
raw_add a b = add_loop 0 a b

-- The limbs joined by `|`, as `p256_fe_is_zero` does.
unfoldable pub or_loop : ℕ → Fe → ℕ
or_loop acc [] = acc
or_loop acc (x ∷ xs) = or_loop (bit_or acc x) xs

-- `p256_fe_is_zero`
unfoldable pub fe_is_zero : Fe → Bool
fe_is_zero a = or_loop 0 a == 0
