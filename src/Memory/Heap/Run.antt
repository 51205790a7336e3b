-- ===== src/Memory/Heap/Run.antt =====
-- memory/allocator.c: heaps that sequences of `kmalloc` and `kfree` lead to.
use minerva_os.Base.{
  ℕ, ◌+◌, ap, ◌-◌, ◌≡◌, refl, subst, List, [], ◌∷◌, ◌++◌, arith, inl, inr, true, false, Bool-cases,
  Option, none, some, ltb, true≢false, sym, ◌∙◌,
}
use minerva_os.Memory.Heap.{Block, Heap, heap_init, carve, kmalloc, kfree, header_size}
use minerva_os.Base.Ends.{and_then, Ends}
use minerva_os.Memory.Heap.Chain.{IsTiled}
use minerva_os.Memory.Heap.Place.{kmalloc-cases}
use minerva_os.Memory.Heap.Free.{IsCoalesced, kfree_lem}
use minerva_os.Memory.Heap.Free.RoundTrip.{IsCoalesced-append, kfree-kmalloc}

-- A call of the heap, with its argument.
pub data Request : Type 0 where
  alloc : ℕ → Request
  free : Option ℕ → Request

unfoldable pub run : List Request → Heap → Option Heap
run [] blocks = some blocks
run (alloc size ∷ rs) blocks = run rs (kmalloc size blocks).1
run (free ptr ∷ rs) blocks = and_then (kfree ptr blocks) (run rs)

-- Each pointer that is freed is NULL or that of a block of the heap at that time.
abbrev pub Proper : List Request → Heap → Type 0
Proper [] blocks = Unit
Proper (alloc size ∷ rs) blocks = Proper rs (kmalloc size blocks).1
Proper (free none ∷ rs) blocks = Proper rs blocks
Proper (free (some ptr) ∷ rs) blocks =
    (pre : Heap) × (b : Block) × (post : Heap) × (blocks ≡ pre ++ b ∷ post)
    × (ptr ≡ b.addr + 12)
    × ((after : Heap) → kfree (some ptr) blocks ≡ some after → Proper rs after)

-- The headers and blocks fill the heap, and no two free blocks are neighbours.
pub record IsHeap (blocks : Heap) : Type 0 where
  pub tiled : IsTiled blocks
  pub coalesced : IsCoalesced blocks

carve-head :
    (size : ℕ) (b : Block) (post : Heap)
    → (d : Block) × (ds : Heap) × (carve size b post ≡ d ∷ ds) × (d.in_use ≡ true)
unfolding carve
carve-head size b post = elim (Bool-cases (ltb header_size (b.size - size))) [
  | inl e ↦ rw e (_, _, refl, refl)
  | inr e ↦ rw e (_, _, refl, refl)
]

carve-IsCoalesced :
    (size : ℕ) (b : Block) (post : Heap)
    → b.in_use ≡ false
    → IsCoalesced (b ∷ post)
    → IsCoalesced (carve size b post)
unfolding carve
carve-IsCoalesced size b [] f c = elim (Bool-cases (ltb header_size (b.size - size))) [
  | inl e ↦ rw e (inl refl, (tt, tt))
  | inr e ↦ rw e (tt, tt)
]
carve-IsCoalesced size b (d ∷ ds) f c =
    let busy : d.in_use ≡ true = elim c.0 [ inl h ↦ absurd (true≢false (sym h ∙ f)) | inr h ↦ h ] in
    elim (Bool-cases (ltb header_size (b.size - size))) [
      | inl e ↦ rw e (inl refl, (inr busy, c.1))
      | inr e ↦ rw e (inl refl, c.1)
    ]

-- A block in use may stand behind any other.
join-IsCoalesced :
    (pre : Heap) (b : Block) (post : Heap) (d : Block) (ds : Heap)
    → d.in_use ≡ true
    → IsCoalesced (pre ++ b ∷ post)
    → IsCoalesced (d ∷ ds)
    → IsCoalesced (pre ++ d ∷ ds)
join-IsCoalesced [] b post d ds u c w = w
join-IsCoalesced (p ∷ []) b post d ds u c w = (inr u, w)
join-IsCoalesced (p ∷ q ∷ qs) b post d ds u c w =
    (c.0, join-IsCoalesced (q ∷ qs) b post d ds u c.1 w)

pub kmalloc-IsHeap : (size : ℕ) (blocks : Heap) → IsHeap blocks → IsHeap (kmalloc size blocks).1
kmalloc-IsHeap size blocks h = elim (kmalloc-cases size blocks h.tiled) [
  | inl s ↦
      let k = s.best in
      let whole : IsCoalesced (k.pre ++ k.block ∷ k.post) = rw (← k.split) h.coalesced in
      let (d, ds, e, u) = carve-head size k.block k.post in
      let part : IsCoalesced (d ∷ ds) = subst IsCoalesced e (
        carve-IsCoalesced size k.block k.post k.free
          (IsCoalesced-append k.pre (k.block ∷ k.post) whole)) in
      record {
        tiled = s.tiled;
        coalesced =
            rw (s.blocks_after, e) (join-IsCoalesced k.pre k.block k.post d ds u whole part);
      }
  | inr r ↦ rw r.same h
]

run-IsHeap :
    (rs : List Request) (blocks : Heap)
    → IsHeap blocks
    → Proper rs blocks
    → Ends IsHeap (run rs blocks)
unfolding run kfree
run-IsHeap [] blocks h p = (blocks, refl, h)
run-IsHeap (alloc size ∷ rs) blocks h p = run-IsHeap rs _ (kmalloc-IsHeap size blocks h) p
run-IsHeap (free none ∷ rs) blocks h p = run-IsHeap rs blocks h p
run-IsHeap (free (some ptr) ∷ rs) blocks h (pre, b, post, e, at, next) =
    let (after, f, t, c, u) = kfree_lem pre b post (rw (← e) h.tiled) in
    let freed : kfree (some ptr) blocks ≡ some after = rw (e, at) f in
    let (end, g, k) =
      run-IsHeap rs after (record { tiled = t; coalesced = c }) (next after freed) in
    (end, ap (λ o. and_then o (run rs)) freed ∙ g, k)

pub heap_init-IsHeap : IsHeap heap_init
unfolding heap_init
heap_init-IsHeap = record { tiled = omega arith; coalesced = (tt, tt) }

-- After `heap_init` and any sequence of `kmalloc` and `kfree` calls that frees only NULL and pointers of
-- blocks of the heap, in use or not, the blocks tile the heap with no two free neighbours, and a
-- `kmalloc` followed by the `kfree` of what it returned leaves exactly the blocks that were there.
pub run_restores :
    (rs : List Request) (size : ℕ)
    → Proper rs heap_init
    → (blocks : Heap) × (run rs heap_init ≡ some blocks)
      × IsHeap blocks
      × (let (ptr, after) = kmalloc size blocks in kfree ptr after ≡ some blocks)
run_restores rs size p =
    let (blocks, e, h) = run-IsHeap rs heap_init heap_init-IsHeap p in
    (blocks, e, h, kfree-kmalloc size blocks h.tiled h.coalesced)
