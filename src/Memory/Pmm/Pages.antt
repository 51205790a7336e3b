-- ===== src/Memory/Pmm/Pages.antt =====
-- memory/pmm.c: the page allocator keeps its count, and what each operation does to the pages.
use minerva_os.Base.{
  ℕ, zero, suc, ◌+◌, ◌-◌, ◌%◌, ◌^◌, ◌<◌, ◌≤◌, ◌≡◌, ◌≢◌, ◌==◌, ==_iff, arith, Bool-cases, inl, inr,
}
use minerva_os.Base.Count.{sum_below, sum_below-update}
use minerva_os.Memory.Pmm.{Pmm, mark_used, mark_free, is_used, total_pages}
use minerva_os.Memory.Pmm.Bitmap.{
  IsBitmap, is_used-le-one, mark_used-IsBitmap, mark_free-IsBitmap, is_used-mark_used,
  is_used-mark_free,
}

-- The bitmap has its size, and the counter is the number of used pages.
pub record IsValid (s : Pmm) : Type 0 where
  pub bitmap : IsBitmap s.bitmap
  pub counted : s.used_count ≡ sum_below total_pages (is_used s.bitmap)

sum_below-le : (n : ℕ) (f : ℕ → ℕ) → ((i : ℕ) → f i ≤ 1) → sum_below n f ≤ n
unfolding sum_below
sum_below-le zero f h = omega arith
sum_below-le (suc n) f h = omega (arith, sum_below-le n f h, h n)

sum_below-ge : (n : ℕ) (f : ℕ → ℕ) (p : ℕ) → p < n → f p ≤ sum_below n f
unfolding sum_below
sum_below-ge zero f p l = absurd (omega arith)
sum_below-ge (suc n) f p l = elim (Bool-cases (n == p)) [
  | inl e ↦ let e' : n ≡ p = (==_iff n p).0 e in rw (← e') (omega arith)
  | inr ne ↦ let d : p < n = ground arith in omega (arith, sum_below-ge n f p d)
]

pub count-le : (s : Pmm) → IsValid s → s.used_count ≤ total_pages
count-le s v =
    omega (arith, v.counted, sum_below-le total_pages (is_used s.bitmap) (is_used-le-one s.bitmap))

pub count-ge : (s : Pmm) (p : ℕ) → IsValid s → p < total_pages → is_used s.bitmap p ≤ s.used_count
count-ge s p v l = omega (arith, v.counted, sum_below-ge total_pages (is_used s.bitmap) p l)

-- Marking a free page, and freeing a used one, keep the count.
module _ (s : Pmm) (p : ℕ) (v : IsValid s) (l : p < total_pages) where
  pub mark_used-IsValid :
      is_used s.bitmap p ≡ 0
      → IsValid (record { bitmap = mark_used s.bitmap p; used_count = (s.used_count + 1) % 2 ^ 32 })
  mark_used-IsValid e =
      let law = λ (q : ℕ). is_used-mark_used s.bitmap p v.bitmap q l in
      let u =
        sum_below-update total_pages (is_used s.bitmap) (is_used (mark_used s.bitmap p)) p l
          (λ i li ne. ground (arith, law i)) in
      let one : is_used (mark_used s.bitmap p) p ≡ 1 = ground (arith, law p) in
      let b = sum_below-le total_pages (is_used s.bitmap) (is_used-le-one s.bitmap) in
      record { bitmap = mark_used-IsBitmap s.bitmap p v.bitmap; counted = omega (arith, v.counted) }

  pub mark_free-IsValid :
      is_used s.bitmap p ≢ 0
      → IsValid (record {
        bitmap = mark_free s.bitmap p;
        used_count = (s.used_count + 2 ^ 32 - 1) % 2 ^ 32;
      })
  mark_free-IsValid e =
      let law = λ (q : ℕ). is_used-mark_free s.bitmap p v.bitmap q l in
      let u =
        sum_below-update total_pages (is_used s.bitmap) (is_used (mark_free s.bitmap p)) p l
          (λ i li ne. ground (arith, law i)) in
      let none' : is_used (mark_free s.bitmap p) p ≡ 0 = ground (arith, law p) in
      let b = sum_below-le total_pages (is_used s.bitmap) (is_used-le-one s.bitmap) in
      let c = sum_below-ge total_pages (is_used s.bitmap) p l in
      let d = is_used-le-one s.bitmap p in
      record { bitmap = mark_free-IsBitmap s.bitmap p v.bitmap; counted = omega (arith, v.counted) }
