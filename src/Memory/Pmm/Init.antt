-- ===== src/Memory/Pmm/Init.antt =====
-- memory/pmm.c: the pages that `pmm_init` leaves free.
use minerva_os.Base.{
  ℕ, zero, suc, ◌+◌, ◌-◌, ◌*◌, ◌/◌, ◌%◌, ◌^◌, ◌<◌, ◌≤◌, ◌≡◌, ◌≢◌, refl, ap, sym, ◌∙◌, true,
  if◌then◌else◌, ◌==◌, ==_iff, ltb, leb, not, ◌&&◌, arith, Bool-cases, inl, inr, length-replicate,
  get_or-replicate, All-replicate, replicate,
}
use minerva_os.Base.Bits.{shr}
use minerva_os.Base.Count.{sum_below-ones, all_below, all_below_sound}
use minerva_os.Memory.Pmm.{
  Pmm, is_used, is_vga, free_loop, pmm_init, total_pages, page_size, bitmap_bytes,
}
use minerva_os.Memory.Pmm.Bitmap.{bit_at, is_used-mark_free}
use minerva_os.Memory.Pmm.Pages.{IsValid, mark_free-IsValid}

-- The loop from page `i` on frees the pages up to its end that are not reserved.
record Opened (left i : ℕ) (s r : Pmm) : Type 0 where
  valid : IsValid r
  now :
      (q : ℕ)
      → is_used r.bitmap q
        ≡ (if leb i q && ltb q (i + left) && not (is_vga q) then 0 else is_used s.bitmap q)

free_loop-Opened :
    (left i : ℕ) (s : Pmm)
    → IsValid s
    → i + left ≡ total_pages
    → ((q : ℕ) → i ≤ q → q < total_pages → is_used s.bitmap q ≡ 1)
    → Opened left i s (free_loop left i s)
unfolding free_loop
free_loop-Opened zero i s v e used = record { valid = v; now = λ q. ground arith }
free_loop-Opened (suc left) i s v e used = elim (Bool-cases (is_vga i)) [
  | inl vga ↦
      let rest =
        free_loop-Opened left (i + 1) s v (omega arith) (λ q a b. used q (omega arith) b) in
      rw vga (record { valid = rest.valid; now = λ q. ground (arith, rest.now q) })
  | inr open' ↦
      let l : i < total_pages = omega arith in
      let u : is_used s.bitmap i ≢ 0 = omega (arith, used i (omega arith) l) in
      let w = mark_free-IsValid s i v l u in
      let law = λ (q : ℕ). is_used-mark_free s.bitmap i v.bitmap q l in
      let rest =
        free_loop-Opened left (i + 1) _ w (omega arith) (λ q a b. ground (arith, law q, used q)) in
      rw open' (record { valid = rest.valid; now = λ q. ground (arith, rest.now q, law q) })
]

full_byte : all_below 8 (λ j. bit_at 0xFF j == 1) ≡ true
unfolding all_below bit_at shr
full_byte = refl

-- Every page of a bitmap of 0xFF bytes is used.
is_used-full : (n p : ℕ) → p / 8 < n → is_used (replicate n 0xFF) p ≡ 1
unfolding is_used bit_at
is_used-full n p l =
    ap (λ b. bit_at b (p % 8)) (get_or-replicate n (p / 8) 0xFF 0 l)
    ∙ (==_iff _ _).0 (all_below_sound 8 (λ j. bit_at 0xFF j == 1) (p % 8) full_byte (omega arith))

full-IsValid :
    (n : ℕ)
    → n ≡ bitmap_bytes
    → IsValid (record { bitmap = replicate n 0xFF; used_count = total_pages })
full-IsValid n e = record {
  bitmap = record {
    size = length-replicate n 0xFF ∙ e;
    bytes = All-replicate (λ b. b < 2 ^ 8) n 0xFF (omega arith);
  };
  counted = sym (
      sum_below-ones total_pages (is_used (replicate n 0xFF))
        (λ p l. is_used-full n p (omega arith)));
}

-- After `pmm_init` with a kernel that ends inside memory, a page is free exactly if it starts at or
-- after the kernel's end and is not one of the VGA pages 0xA0 to 0xBF; the invariant holds.
pub pmm_init-free :
    (kernel_end : ℕ)
    → kernel_end ≤ total_pages * page_size
    → IsValid (pmm_init kernel_end)
      × ((p : ℕ)
          → p < total_pages
          → is_used (pmm_init kernel_end).bitmap p
            ≡ (if leb kernel_end (p * page_size) && not (leb 0xA0 p && leb p 0xBF) then 0 else 1))
unfolding pmm_init
pmm_init-free kernel_end h =
    let first = (kernel_end + page_size - 1) % 2 ^ 32 / page_size in
    let n : ℕ = bitmap_bytes in
    let o =
      free_loop-Opened (total_pages - first) first _ (full-IsValid n refl) (omega arith)
        (λ q a b. is_used-full n q (omega arith)) in
    (o.valid, λ p l. ground (arith, o.now p, is_used-full n p))
