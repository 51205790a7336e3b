-- ===== src/Memory/Pmm/Alloc.antt =====
-- memory/pmm.c: `pmm_alloc_page` takes the lowest free page, and `pmm_free_page` gives it back.
use minerva_os.Base.{
  ℕ, zero, suc, ◌+◌, ◌*◌, ◌/◌, ◌<◌, ◌≤◌, ◌≡◌, ◌≢◌, ◌⊎◌, ◌↔◌, refl, ap, sym, ◌∙◌, if◌then◌else◌,
  ◌==◌, ==_iff, ltb, not, ◌&&◌, arith, Bool-cases, inl, inr,
}
use minerva_os.Memory.Pmm.{
  Pmm, is_used, alloc_loop, pmm_alloc_page, pmm_free_page, total_pages, page_size,
}
use minerva_os.Memory.Pmm.Bitmap.{is_used-le-one, is_used-mark_used, is_used-mark_free}
use minerva_os.Memory.Pmm.Pages.{IsValid, mark_used-IsValid, mark_free-IsValid, count-le, count-ge}

-- Page `p` was the lowest free one, and is what was handed out.
pub record Took (s : Pmm) (r : ℕ × Pmm) : Type 0 where
  pub page : ℕ
  pub in_range : page < total_pages
  pub was_free : is_used s.bitmap page ≡ 0
  pub lowest : (q : ℕ) → q < page → is_used s.bitmap q ≡ 1
  pub address : r.0 ≡ page * page_size
  pub now : (q : ℕ) → is_used r.1.bitmap q ≡ (if page == q then 1 else is_used s.bitmap q)
  pub count : r.1.used_count ≡ s.used_count + 1
  pub valid : IsValid r.1

-- No page was free, and nothing changed.
pub record Exhausted (s : Pmm) (r : ℕ × Pmm) : Type 0 where
  pub full : (q : ℕ) → q < total_pages → is_used s.bitmap q ≡ 1
  pub zero_address : r.0 ≡ 0
  pub same : r.1 ≡ s

alloc_loop-cases :
    (left i : ℕ) (s : Pmm)
    → IsValid s
    → left + i ≡ total_pages
    → ((q : ℕ) → q < i → is_used s.bitmap q ≡ 1)
    → Took s (alloc_loop left i s) ⊎ Exhausted s (alloc_loop left i s)
unfolding alloc_loop
alloc_loop-cases zero i s v e below =
    inr (record { full = λ q l. below q (omega arith); zero_address = refl; same = refl })
alloc_loop-cases (suc left) i s v e below = elim (Bool-cases (is_used s.bitmap i == 0)) [
  | inl f ↦
      let free : is_used s.bitmap i ≡ 0 = (==_iff _ _).0 f in
      let l : i < total_pages = omega arith in
      let w = mark_used-IsValid s i v l free in
      let c = count-le s v in
      rw f (
        inl (record {
          page = i;
          in_range = l;
          was_free = free;
          lowest = below;
          address = omega arith;
          now = λ q. is_used-mark_used s.bitmap i v.bitmap q l;
          count = omega arith;
          valid = w;
        }))
  | inr u ↦
      let used : is_used s.bitmap i ≡ 1 = ground (arith, is_used-le-one s.bitmap i) in
      rw u (
        alloc_loop-cases left (i + 1) s v (omega arith) λ q l. elim (Bool-cases (i == q)) [
          | inl same ↦ ap (is_used s.bitmap) (sym ((==_iff i q).0 same)) ∙ used
          | inr other ↦ below q (ground arith)
        ])
]

-- `pmm_alloc_page` hands out the lowest free page, marks it alone and counts it; with no page free
-- it returns 0 and changes nothing.
pub pmm_alloc_page-cases :
    (s : Pmm) → IsValid s → Took s (pmm_alloc_page s) ⊎ Exhausted s (pmm_alloc_page s)
unfolding pmm_alloc_page
pmm_alloc_page-cases s v =
    alloc_loop-cases total_pages 0 s v (omega arith) (λ q l. absurd (omega arith))

-- While page 0 is in use, the result 0 means exactly that no page is free.
pub pmm_alloc_page-zero_iff :
    (s : Pmm)
    → IsValid s
    → is_used s.bitmap 0 ≡ 1
    → ((pmm_alloc_page s).0 ≡ 0) ↔ ((q : ℕ) → q < total_pages → is_used s.bitmap q ≡ 1)
pmm_alloc_page-zero_iff s v h = elim (pmm_alloc_page-cases s v) [
  | inl t ↦ (
    λ z.
        let p : t.page ≡ 0 = omega (arith, t.address) in
        let c : is_used s.bitmap t.page ≡ 1 = ap (is_used s.bitmap) p ∙ h in
        absurd (omega (arith, t.was_free)),
    λ full. absurd (omega (arith, full t.page t.in_range, t.was_free)),
  )
  | inr e ↦ (λ z. e.full, λ full. e.zero_address)
]

-- The state after giving back an address: its page is free, the others are as they were.
pub record Freed (s : Pmm) (phys : ℕ) (r : Pmm) : Type 0 where
  pub valid : IsValid r
  pub now :
      (q : ℕ)
      → q < total_pages
      → is_used r.bitmap q ≡ (if phys / page_size == q then 0 else is_used s.bitmap q)
  pub count :
      phys / page_size < total_pages
      → r.used_count + is_used s.bitmap (phys / page_size) ≡ s.used_count
  pub outside : total_pages ≤ phys / page_size → r ≡ s

-- `pmm_free_page` of an address whose page is used clears that page alone and uncounts it; of an
-- address past the end, or of a free page, it changes no page and no count. The invariant is kept.
pub pmm_free_page-Freed : (s : Pmm) (phys : ℕ) → IsValid s → Freed s phys (pmm_free_page s phys)
unfolding pmm_free_page
pmm_free_page-Freed s phys v =
    let p = phys / page_size in
    elim (Bool-cases (ltb p total_pages && not (is_used s.bitmap p == 0))) [
      | inl c ↦
          let (l, u) : (p < total_pages) × (is_used s.bitmap p ≢ 0) =
            (ground arith, ground arith) in
          let w = mark_free-IsValid s p v l u in
          let g = count-ge s p v l in
          let one : is_used s.bitmap p ≡ 1 = omega (arith, is_used-le-one s.bitmap p) in
          let b = count-le s v in
          rw c (record {
            valid = w;
            now = λ q lq. is_used-mark_free s.bitmap p v.bitmap q l;
            count = λ _. omega arith;
            outside = λ o. absurd (omega arith);
          })
      | inr c ↦ rw c (record {
        valid = v;
        now = λ q lq. ground arith;
        count = λ l. ground arith;
        outside = λ o. refl;
      })
    ]

-- Giving back the page just handed out restores every page's state and the count.
pub pmm_free_page-alloc :
    (s : Pmm)
    → IsValid s
    → (free : ℕ) → free < total_pages
    → is_used s.bitmap free ≡ 0
    → let (address, t) = pmm_alloc_page s in
      ((q : ℕ) → q < total_pages → is_used (pmm_free_page t address).bitmap q ≡ is_used s.bitmap q)
      × ((pmm_free_page t address).used_count ≡ s.used_count)
pmm_free_page-alloc s v free lf f = elim (pmm_alloc_page-cases s v) [
  | inr e ↦ absurd (omega (arith, e.full free lf))
  | inl t ↦
      let (address, s') = pmm_alloc_page s in
      let back = pmm_free_page-Freed s' address t.valid in
      let p : address / page_size ≡ t.page = omega (arith, t.address) in
      let one : is_used s'.bitmap t.page ≡ 1 = ground (arith, t.now t.page) in
      let one' : is_used s'.bitmap (address / page_size) ≡ 1 = ap (is_used s'.bitmap) p ∙ one in
      let range = t.in_range in
      let zero' = t.was_free in
      (
        λ q l. ground (arith, back.now q l, t.now q),
        omega (arith, back.count (omega arith), t.count),
      )
]
