-- ===== src/Memory/Pmm/Bitmap.antt =====
-- memory/pmm.c: `mark_used` and `mark_free` change one page's bit, and only that.
use minerva_os.Base.{
  ℕ, zero, suc, ◌-◌, ◌/◌, ◌%◌, ◌^◌, ◌<◌, ◌≤◌, ◌≡◌, ◌≢◌, refl, ap, sym, ◌∙◌, Bool, true, false, List,
  [], ◌∷◌, if◌then◌else◌, ◌==◌, ==_iff, ◌&&◌, get_or, set, length, length-set, get_or-set_self,
  get_or-set_ne, All, All-get_or, arith, bit_and, bit_or, Bool-cases, inl, inr,
}
use minerva_os.Base.Bits.{shr, bit_and_mask}
use minerva_os.Base.Count.{all_below, all_below_sound}
use minerva_os.Memory.Pmm.{mark_used, mark_free, is_used, total_pages, bitmap_bytes}

-- What the three functions do with one byte.
unfoldable pub bit_at : ℕ → ℕ → ℕ
bit_at b j = bit_and (shr b j) 1

with_bit : ℕ → ℕ → ℕ
with_bit b k = bit_or b (2 ^ k) % 2 ^ 8

without_bit : ℕ → ℕ → ℕ
without_bit b k = bit_and b (2 ^ 32 - 1 - 2 ^ k) % 2 ^ 8

byte_test : ℕ → ℕ → ℕ → Bool
byte_test k j b =
    (bit_at (with_bit b k) j == (if k == j then 1 else bit_at b j))
    && (bit_at (without_bit b k) j == (if k == j then 0 else bit_at b j))

byte_table : all_below 8 (λ k. all_below 8 (λ j. all_below 256 (byte_test k j))) ≡ true
unfolding all_below byte_test bit_at with_bit without_bit shr
byte_table = refl

both : (p q : Bool) → (p && q) ≡ true → (p ≡ true) × (q ≡ true)
both p q h = ground arith

byte_test_sound :
    (k j b : ℕ)
    → byte_test k j b ≡ true
    → (bit_at (with_bit b k) j ≡ (if k == j then 1 else bit_at b j))
      × (bit_at (without_bit b k) j ≡ (if k == j then 0 else bit_at b j))
unfolding byte_test
byte_test_sound k j b h = let (p, q) = both _ _ h in ((==_iff _ _).0 p, (==_iff _ _).0 q)

byte_laws :
    (k j b : ℕ)
    → k < 8
    → j < 8
    → b < 2 ^ 8
    → (bit_at (with_bit b k) j ≡ (if k == j then 1 else bit_at b j))
      × (bit_at (without_bit b k) j ≡ (if k == j then 0 else bit_at b j))
byte_laws k j b hk hj hb = byte_test_sound k j b (
    all_below_sound 256 (byte_test k j) b
      (all_below_sound 8 (λ j. all_below 256 (byte_test k j)) j
        (all_below_sound 8 (λ k. all_below 8 (λ j. all_below 256 (byte_test k j))) k byte_table hk)
        hj)
      hb)

-- 1024 bytes
pub record IsBitmap (bitmap : List ℕ) : Type 0 where
  pub size : length bitmap ≡ bitmap_bytes
  pub bytes : All (λ b. b < 2 ^ 8) bitmap

pub is_used-le-one : (bitmap : List ℕ) (p : ℕ) → is_used bitmap p ≤ 1
unfolding is_used
is_used-le-one bitmap p =
    omega (arith, bit_and_mask 1 (shr (get_or bitmap (p / 8) 0) (p % 8)) 1 refl)

-- A new value for the byte of page p shows at the pages of that byte.
is_used-set :
    (bitmap : List ℕ) (p q b v : ℕ)
    → IsBitmap bitmap
    → p < total_pages
    → ((p / 8 ≡ q / 8)
        → bit_at b (q % 8)
          ≡ (if p % 8 == q % 8 then v else bit_at (get_or bitmap (p / 8) 0) (q % 8)))
    → is_used (set bitmap (p / 8) b) q ≡ (if p == q then v else is_used bitmap q)
unfolding is_used bit_at
is_used-set bitmap p q b v h l law = elim (Bool-cases (p / 8 == q / 8)) [
  | inl e ↦
      let e' = (==_iff _ _).0 e in
      let here : get_or (set bitmap (p / 8) b) (q / 8) 0 ≡ b =
        ap (λ i. get_or (set bitmap (p / 8) b) i 0) (sym e')
        ∙ get_or-set_self bitmap (p / 8) b 0 (omega (arith, h.size)) in
      let old : get_or bitmap (p / 8) 0 ≡ get_or bitmap (q / 8) 0 =
        ap (λ i. get_or bitmap i 0) e' in
      let same : (p == q) ≡ (p % 8 == q % 8) = ground arith in
      rw (here, same)
        (law e' ∙ ap (λ t. if p % 8 == q % 8 then v else bit_and (shr t (q % 8)) 1) old)
  | inr ne ↦
      let ne' : p / 8 ≢ q / 8 = ground arith in
      let other : (p == q) ≡ false = ground arith in
      rw (get_or-set_ne bitmap (p / 8) (q / 8) b 0 ne', other)
]

All-set : (P : ℕ → Type 0) (xs : List ℕ) (i v : ℕ) → All P xs → P v → All P (set xs i v)
All-set P [] i v h p = tt
All-set P (x ∷ xs) zero v h p = (p, h.1)
All-set P (x ∷ xs) (suc i) v h p = (h.0, All-set P xs i v h.1 p)

module _ (bitmap : List ℕ) (p : ℕ) (h : IsBitmap bitmap) where
  old_byte : get_or bitmap (p / 8) 0 < 2 ^ 8
  old_byte = All-get_or (λ b. b < 2 ^ 8) bitmap (p / 8) 0 h.bytes (omega arith)

  pub mark_used-IsBitmap : IsBitmap (mark_used bitmap p)
  unfolding mark_used
  mark_used-IsBitmap = record {
    size = length-set bitmap (p / 8) _ ∙ h.size;
    bytes = All-set (λ b. b < 2 ^ 8) bitmap (p / 8) _ h.bytes (omega arith);
  }

  pub mark_free-IsBitmap : IsBitmap (mark_free bitmap p)
  unfolding mark_free
  mark_free-IsBitmap = record {
    size = length-set bitmap (p / 8) _ ∙ h.size;
    bytes = All-set (λ b. b < 2 ^ 8) bitmap (p / 8) _ h.bytes (omega arith);
  }

  -- `mark_used` sets the page's bit and no other.
  pub is_used-mark_used :
      (q : ℕ)
      → p < total_pages
      → is_used (mark_used bitmap p) q ≡ (if p == q then 1 else is_used bitmap q)
  unfolding mark_used with_bit
  is_used-mark_used q l = is_used-set bitmap p q _ 1 h l λ e.
      (byte_laws (p % 8) (q % 8) (get_or bitmap (p / 8) 0) (omega arith) (omega arith) old_byte).0

  -- `mark_free` clears the page's bit and no other.
  pub is_used-mark_free :
      (q : ℕ)
      → p < total_pages
      → is_used (mark_free bitmap p) q ≡ (if p == q then 0 else is_used bitmap q)
  unfolding mark_free without_bit
  is_used-mark_free q l = is_used-set bitmap p q _ 0 h l λ e.
      (byte_laws (p % 8) (q % 8) (get_or bitmap (p / 8) 0) (omega arith) (omega arith) old_byte).1
