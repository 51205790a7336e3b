-- ===== src/Memory/Heap/Place.antt =====
-- memory/allocator.c: what `kmalloc` does to the blocks.
use minerva_os.Base.{
  ℕ, ◌+◌, ◌-◌, ◌^◌, ◌≡◌, ◌<◌, ◌≤◌, refl, ap, sym, ◌∙◌, [], ◌∷◌, ◌++◌, arith, All, ◌⊎◌, inl, inr,
  true, false, Bool-cases, Option, none, some, ltb, ltb→lt, not_ltb→le, ◌==◌, ==_iff,
}
use minerva_os.Memory.Heap.{Block, Heap, carve, place, kmalloc, header_size, heap_size}
use minerva_os.Memory.Heap.Chain.{
  Chain, IsTiled, Chain-append, Chain-join, Chain-before, Chain-size,
}
use minerva_os.Memory.Heap.Fit.{Best, NoneFits, best_loop-cases}

place-append :
    (at size : ℕ) (pre : Heap) (b : Block) (post : Heap)
    → All (λ c. c.addr < at) pre
    → b.addr ≡ at
    → place at size (pre ++ b ∷ post) ≡ pre ++ carve size b post
unfolding place
place-append at size [] b post h e = let e' : (b.addr == at) ≡ true = (==_iff _ _).1 e in rw e'
place-append at size (c ∷ cs) b post h e =
    let ne : (c.addr == at) ≡ false = ground arith in
    rw ne (ap (λ t. c ∷ t) (place-append at size cs b post h.1 e))

carve-Chain :
    (a end size : ℕ) (b : Block) (post : Heap)
    → size ≤ b.size
    → Chain a (b ∷ post) end
    → Chain a (carve size b post) end
unfolding carve
carve-Chain a end size b post l c = elim (Bool-cases (ltb header_size (b.size - size))) [
  | inl s ↦
      let s' = ltb→lt _ _ s in
      let e : a + header_size + size + header_size + (b.size - size - header_size)
          ≡ a + header_size + b.size =
        omega arith in
      rw s (c.0, (omega (arith, c.0), rw e c.1))
  | inr w ↦ rw w c
]

-- The two outcomes of `carve`, written out.
carve-handed :
    (size at : ℕ) (pre : Heap) (b : Block) (post after : Heap)
    → b.addr ≡ at
    → after ≡ pre ++ carve size b post
    → ((b.size ≤ size + 12)
        × (after ≡ pre ++ record { addr = at; size = b.size; in_use = true } ∷ post))
      ⊎ ((size + 12 < b.size)
          × (after
              ≡ pre
                ++ record { addr = at; size = size; in_use = true }
                  ∷ record { addr = at + 12 + size; size = b.size - size - 12; in_use = false }
                  ∷ post))
unfolding carve
carve-handed size at pre b post after o e = elim (Bool-cases (ltb header_size (b.size - size))) [
  | inl s ↦
      let l = ltb→lt _ _ s in rw (← o) (inr (omega (arith, l), e ∙ ap (λ t. pre ++ t) (rw s refl)))
  | inr s ↦
      let l = not_ltb→le _ _ s in
      rw (← o) (inl (omega (arith, l), e ∙ ap (λ t. pre ++ t) (rw s refl)))
]

-- A request that is met: the block chosen, and the heap after it.
pub record Served (size : ℕ) (blocks : Heap) (r : Option ℕ × Heap) : Type 0 where
  pub at : ℕ
  pub best : Best size blocks at
  pub pointer : r.0 ≡ some (at + header_size)
  pub blocks_after : r.1 ≡ best.pre ++ carve size best.block best.post
  -- The block is handed out whole, or its front is, and a free rest stands behind that.
  pub handed :
      ((best.block.size ≤ size + 12)
        × (r.1
            ≡ best.pre ++ record { addr = at; size = best.block.size; in_use = true } ∷ best.post))
      ⊎ ((size + 12 < best.block.size)
          × (r.1
              ≡ best.pre
                ++ record { addr = at; size = size; in_use = true }
                  ∷ record {
                    addr = at + 12 + size;
                    size = best.block.size - size - 12;
                    in_use = false;
                  }
                  ∷ best.post))
  pub tiled : IsTiled r.1

-- A request that is refused.
pub record Refused (size : ℕ) (blocks : Heap) (r : Option ℕ × Heap) : Type 0 where
  pub null : r.0 ≡ none
  pub same : r.1 ≡ blocks
  pub why : (size ≡ 0) ⊎ NoneFits size blocks

place-Served :
    (size at : ℕ) (blocks : Heap)
    → IsTiled blocks
    → (k : Best size blocks at) → Served size blocks (some (at + header_size), place at size blocks)
place-Served size at blocks t k =
    let t' : Chain 0 (k.pre ++ k.block ∷ k.post) heap_size = rw (← k.split) t in
    let (m, p, q) = Chain-append 0 heap_size k.pre _ t' in
    let here : k.block.addr ≡ m = q.0 in
    let e : m ≡ at = sym here ∙ k.offset in
    let before = Chain-before 0 m k.pre p in
    let placed : place at size blocks ≡ k.pre ++ carve size k.block k.post =
      ap (place at size) k.split
      ∙ place-append at size k.pre k.block k.post (rw e at before) k.offset in
    record {
      at = at;
      best = k;
      pointer = refl;
      blocks_after = placed;
      handed = carve-handed size at k.pre k.block k.post (place at size blocks) k.offset placed;
      tiled = rw placed (
          Chain-join 0 m heap_size k.pre _ p
            (carve-Chain m heap_size size k.block k.post k.fits q));
    }

small :
    (end : ℕ) (bs : Heap)
    → end ≤ 2 ^ 32 - 1
    → All (λ c. c.size + header_size ≤ end) bs
    → All (λ c. c.size < 2 ^ 32 - 1) bs
small end [] h s = tt
small end (b ∷ bs) h s = (omega (arith, s.0), small end bs h s.1)

pub kmalloc-cases :
    (size : ℕ) (blocks : Heap)
    → IsTiled blocks
    → Served size blocks (kmalloc size blocks) ⊎ Refused size blocks (kmalloc size blocks)
unfolding kmalloc
kmalloc-cases size blocks t = elim (Bool-cases (size == 0)) [
  | inl z ↦ rw z (inr (record { null = refl; same = refl; why = inl ((==_iff _ _).0 z) }))
  | inr nz ↦
      elim (best_loop-cases size (2 ^ 32 - 1) blocks
        (small heap_size blocks (omega arith) (Chain-size 0 heap_size blocks t))) [
          | inl (e, none') ↦ rw (nz, e) (inr (record { null = refl; same = refl; why = inr none' }))
          | inr (at, e, k) ↦ rw (nz, e) (inl (place-Served size at blocks t k))
        ]
]
