-- ===== src/Memory/Heap/Free/RoundTrip.antt =====
-- memory/allocator.c: `kfree` undoes `kmalloc`.
use minerva_os.Base.{
  ℕ, ◌+◌, ◌-◌, ◌%◌, ◌^◌, ◌≡◌, ◌<◌, ◌≤◌, refl, ap, sym, ◌∙◌, [], ◌∷◌, ◌++◌, arith, All, inl, inr,
  true, false, Bool-cases, Option, some, ◌==◌, ==_iff, not, ◌&&◌, if◌then◌else◌, ltb, ltb→lt,
}
use minerva_os.Memory.Heap.{
  Block, Heap, carve, release, merge_loop, merge_all, kmalloc, has_block, kfree, header_size,
  heap_size,
}
use minerva_os.Memory.Heap.Chain.{Chain, IsTiled, Chain-le, Chain-append, Chain-before, Chain-after}
use minerva_os.Memory.Heap.Place.{Served, kmalloc-cases}
use minerva_os.Memory.Heap.Free.{IsCoalesced, kfree-some, has_block-append}

release-append :
    (at : ℕ) (pre post : Heap) → release at (pre ++ post) ≡ release at pre ++ release at post
unfolding release
release-append at [] post = refl
release-append at (b ∷ bs) post =
    ap (λ t. (if b.addr == at then record b { in_use = false } else b) ∷ t)
      (release-append at bs post)

release-below : (at : ℕ) (bs : Heap) → All (λ c. c.addr < at) bs → release at bs ≡ bs
unfolding release
release-below at [] h = refl
release-below at (b ∷ bs) h = ground (arith, release-below at bs h.1)

release-above : (at m : ℕ) (bs : Heap) → at < m → All (λ c. m ≤ c.addr) bs → release at bs ≡ bs
unfolding release
release-above at m [] l h = refl
release-above at m (b ∷ bs) l h = ground (arith, release-above at m bs l h.1)

merge_loop_same : (b : Block) (bs : Heap) → IsCoalesced (b ∷ bs) → merge_loop b bs ≡ b ∷ bs
unfolding merge_loop
merge_loop_same b [] c = refl
merge_loop_same b (d ∷ ds) c =
    let apart : (not b.in_use && not d.in_use) ≡ false = ground arith in
    rw apart (ap (λ t. b ∷ t) (merge_loop_same d ds c.1))

-- Two lists that the merge brings together, behind blocks that it leaves alone.
abbrev Joins : Heap → Block → Heap → Type 0
Joins fresh b post =
    (merge_all fresh ≡ b ∷ post)
    × ((cur : Block) → cur.in_use ≡ true → merge_loop cur fresh ≡ cur ∷ b ∷ post)

merge_loop-append :
    (cur : Block) (pre fresh : Heap) (b : Block) (post : Heap)
    → b.in_use ≡ false
    → Joins fresh b post
    → IsCoalesced (cur ∷ pre ++ b ∷ post)
    → merge_loop cur (pre ++ fresh) ≡ cur ∷ pre ++ b ∷ post
unfolding merge_loop
merge_loop-append cur [] fresh b post f j c = j.1 cur (ground arith)
merge_loop-append cur (d ∷ ds) fresh b post f j c =
    let apart : (not cur.in_use && not d.in_use) ≡ false = ground arith in
    rw apart (ap (λ t. cur ∷ t) (merge_loop-append d ds fresh b post f j c.1))

merge_all-append :
    (pre fresh : Heap) (b : Block) (post : Heap)
    → b.in_use ≡ false
    → Joins fresh b post
    → IsCoalesced (pre ++ b ∷ post)
    → merge_all (pre ++ fresh) ≡ pre ++ b ∷ post
unfolding merge_all
merge_all-append [] fresh b post f j c = j.0
merge_all-append (d ∷ ds) fresh b post f j c = merge_loop-append d ds fresh b post f j c

pub IsCoalesced-append : (pre bs : Heap) → IsCoalesced (pre ++ bs) → IsCoalesced bs
IsCoalesced-append [] bs c = c
IsCoalesced-append (b ∷ pre) bs c = IsCoalesced-append pre bs c.1

Block-of :
    (b : Block) (s : ℕ)
    → s ≡ b.size
    → b.in_use ≡ false
    → record { addr = b.addr; size = s; in_use = false } ≡ b
Block-of b s e f =
    ap (λ t. record b { size = t; in_use = false }) e ∙ ap (λ u. record b { in_use = u }) (sym f)

same-Joins :
    (b : Block) (post : Heap) → b.in_use ≡ false → IsCoalesced (b ∷ post) → Joins (b ∷ post) b post
unfolding merge_all merge_loop
same-Joins b post f c = (
  merge_loop_same b post c,
  λ cur u.
      let apart : (not cur.in_use && not b.in_use) ≡ false = ground arith in
      rw apart (ap (λ t. cur ∷ t) (merge_loop_same b post c)),
)

-- The two parts of a block are merged into it.
parts-Joins :
    (size : ℕ) (b : Block) (post : Heap)
    → b.in_use ≡ false
    → size + header_size < b.size
    → b.size < 2 ^ 32
    → IsCoalesced (b ∷ post)
    → Joins
        (record { addr = b.addr; size = size; in_use = false }
          ∷ record {
            addr = b.addr + header_size + size;
            size = b.size - size - header_size;
            in_use = false;
          }
          ∷ post)
        b
        post
unfolding merge_all merge_loop
parts-Joins size b post f l w c =
    let e : (size + header_size + (b.size - size - header_size)) % 2 ^ 32 ≡ b.size = omega arith in
    let joined : merge_loop
          (record {
            addr = b.addr;
            size = (size + header_size + (b.size - size - header_size)) % 2 ^ 32;
            in_use = false;
          })
          post
        ≡ b ∷ post =
      ap (λ t. merge_loop t post) (Block-of b _ e f) ∙ merge_loop_same b post c in
    (
      joined,
      λ cur u.
          let apart : (not cur.in_use && true) ≡ false = ground arith in
          rw apart (ap (λ t. cur ∷ t) joined),
    )

release-carve :
    (size : ℕ) (b : Block) (post : Heap)
    → b.in_use ≡ false
    → size ≤ b.size
    → b.size < 2 ^ 32
    → All (λ c. b.addr + header_size + b.size ≤ c.addr) post
    → IsCoalesced (b ∷ post)
    → Joins (release b.addr (carve size b post)) b post
unfolding release carve
release-carve size b post f l w h c =
    let here : (b.addr == b.addr) ≡ true = (==_iff _ _).1 refl in
    let rest : (b.addr + header_size + size == b.addr) ≡ false = ground arith in
    let behind : release b.addr post ≡ post =
      release-above b.addr (b.addr + header_size + b.size) post (omega arith) h in
    elim (Bool-cases (ltb header_size (b.size - size))) [
      | inl s ↦
          let s' = ltb→lt _ _ s in
          rw (s, here, rest, behind) (parts-Joins size b post f (omega arith) w c)
      | inr n ↦
          let e : record b { in_use = false } ≡ b = Block-of b b.size refl f in
          rw (n, here, behind, e) (same-Joins b post f c)
    ]

has_block-carve :
    (at size : ℕ) (pre : Heap) (b : Block) (post : Heap)
    → b.addr ≡ at
    → has_block at (pre ++ carve size b post) ≡ true
unfolding carve
has_block-carve at size pre b post e =
    rw (← e) (elim (Bool-cases (ltb header_size (b.size - size))) [
      | inl s ↦ rw s (has_block-append pre (record b { size = size; in_use = true }) _)
      | inr s ↦ rw s (has_block-append pre (record b { in_use = true }) post)
    ])

kfree-Served :
    (size : ℕ) (blocks : Heap) (r : Option ℕ × Heap)
    → IsTiled blocks
    → IsCoalesced blocks
    → (s : Served size blocks r) → kfree (some (s.at + header_size)) r.1 ≡ some blocks
kfree-Served size blocks r t c s =
    let k = s.best in
    let b = k.block in
    let t' : Chain 0 (k.pre ++ b ∷ k.post) heap_size = rw (← k.split) t in
    let c' : IsCoalesced (k.pre ++ b ∷ k.post) = rw (← k.split) c in
    let (m, p, q) = Chain-append 0 heap_size k.pre (b ∷ k.post) t' in
    let at' : s.at ≡ b.addr = sym k.offset in
    let before : All (λ d. d.addr < b.addr) k.pre = rw q.0 (Chain-before 0 m k.pre p) in
    let after : All (λ d. b.addr + header_size + b.size ≤ d.addr) k.post =
      rw q.0 (Chain-after (m + header_size + b.size) heap_size k.post q.1) in
    let l = Chain-le (m + header_size + b.size) heap_size k.post q.1 in
    let w : b.size < 2 ^ 32 = omega arith in
    let fresh = release b.addr (carve size b k.post) in
    let released : release s.at r.1 ≡ k.pre ++ fresh =
      ap (λ a. release a r.1) at'
      ∙ ap (release b.addr) s.blocks_after
      ∙ release-append b.addr k.pre (carve size b k.post)
      ∙ ap (λ z. z ++ fresh) (release-below b.addr k.pre before) in
    let j : Joins fresh b k.post =
      release-carve size b k.post k.free k.fits w after
        (IsCoalesced-append k.pre (b ∷ k.post) c') in
    let merged : merge_all (release s.at r.1) ≡ blocks =
      ap merge_all released ∙ merge_all-append k.pre fresh b k.post k.free j c' ∙ sym k.split in
    kfree-some s.at r.1
      (ap (has_block s.at) s.blocks_after ∙ has_block-carve s.at size k.pre b k.post k.offset)
    ∙ ap (λ h. some h) merged

-- On a tiled heap without free neighbours, `kfree` of what `kmalloc` has just returned, NULL or a
-- pointer, gives back the heap that `kmalloc` was called on.
pub kfree-kmalloc :
    (size : ℕ) (blocks : Heap)
    → IsTiled blocks
    → IsCoalesced blocks
    → let (ptr, after) = kmalloc size blocks in kfree ptr after ≡ some blocks
unfolding kfree
kfree-kmalloc size blocks t c = elim (kmalloc-cases size blocks t) [
  | inl s ↦ rw s.pointer (kfree-Served size blocks (kmalloc size blocks) t c s)
  | inr r ↦ rw (r.null, kfree) (ap (λ h. some h) r.same)
]
