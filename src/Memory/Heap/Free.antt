-- ===== src/Memory/Heap/Free.antt =====
-- memory/allocator.c: what `kfree` does to the blocks.
pub mod RoundTrip
use minerva_os.Base.{
  ℕ, ◌+◌, ◌-◌, ◌%◌, ◌^◌, ◌≡◌, ◌≢◌, ◌<◌, ◌≤◌, refl, ap, sym, ◌∙◌, List, [], ◌∷◌, ◌++◌, arith, All,
  ◌⊎◌, inl, inr, Bool, true, false, Bool-cases, Option, none, some, ◌==◌, ==_iff, not, ◌&&◌,
  if◌then◌else◌, leb, false≢true,
}
use minerva_os.Memory.Heap.{
  Block, Heap, has_block, release, merge_loop, merge_all, kfree_at, kfree, header_size, heap_size,
}
use minerva_os.Memory.Heap.Chain.{Chain, IsTiled, Chain-le}

-- The blocks in use, in order.
abbrev pub used : Heap → Heap
used [] = []
used (b ∷ bs) = if b.in_use then b ∷ used bs else used bs

-- Those that do not stand at a given offset.
abbrev pub others : ℕ → Heap → Heap
others at [] = []
others at (b ∷ bs) = if b.addr == at then others at bs else b ∷ others at bs

-- Of a block and the one behind it, one is in use.
abbrev pub Apart : Block → Heap → Type 0
Apart b [] = Unit
Apart b (c ∷ cs) = (b.in_use ≡ true) ⊎ (c.in_use ≡ true)

-- No two neighbours are free.
abbrev pub IsCoalesced : Heap → Type 0
IsCoalesced [] = Unit
IsCoalesced (b ∷ bs) = Apart b bs × IsCoalesced bs

used-release : (at : ℕ) (bs : Heap) → used (release at bs) ≡ others at (used bs)
unfolding release
used-release at [] = refl
used-release at (b ∷ bs) = ground (arith, used-release at bs)

used-merge_loop : (cur : Block) (bs : Heap) → used (merge_loop cur bs) ≡ used (cur ∷ bs)
unfolding merge_loop
used-merge_loop cur [] = refl
used-merge_loop cur (b ∷ bs) = ground (
  arith,
  used-merge_loop b bs,
  used-merge_loop (record cur { size = (cur.size + header_size + b.size) % 2 ^ 32 }) bs,
)

used-merge_all : (bs : Heap) → used (merge_all bs) ≡ used bs
unfolding merge_all
used-merge_all [] = refl
used-merge_all (b ∷ bs) = used-merge_loop b bs

Apart-merge_loop :
    (a cur : Block) (bs : Heap)
    → (a.in_use ≡ true) ⊎ (cur.in_use ≡ true)
    → Apart a (merge_loop cur bs)
unfolding merge_loop
Apart-merge_loop a cur [] h = h
Apart-merge_loop a cur (b ∷ bs) h = elim (Bool-cases (not cur.in_use && not b.in_use)) [
  | inl e ↦
      rw e
        (Apart-merge_loop a (record cur { size = (cur.size + header_size + b.size) % 2 ^ 32 }) bs h)
  | inr e ↦ rw e h
]

merge_loop-IsCoalesced : (cur : Block) (bs : Heap) → IsCoalesced (merge_loop cur bs)
unfolding merge_loop
merge_loop-IsCoalesced cur [] = (tt, tt)
merge_loop-IsCoalesced cur (b ∷ bs) = elim (Bool-cases (not cur.in_use && not b.in_use)) [
  | inl e ↦
      rw e (
        merge_loop-IsCoalesced (record cur { size = (cur.size + header_size + b.size) % 2 ^ 32 })
          bs)
  | inr e ↦ rw e (Apart-merge_loop cur b bs (ground arith), merge_loop-IsCoalesced b bs)
]

merge_loop-Chain :
    (a end : ℕ) (cur : Block) (bs : Heap)
    → end < 2 ^ 32
    → Chain a (cur ∷ bs) end
    → Chain a (merge_loop cur bs) end
unfolding merge_loop
merge_loop-Chain a end cur [] h c = c
merge_loop-Chain a end cur (b ∷ bs) h c = elim (Bool-cases (not cur.in_use && not b.in_use)) [
  | inl e ↦
      let l = Chain-le _ end bs c.1.1 in
      let s : a + header_size + (cur.size + header_size + b.size) % 2 ^ 32
          ≡ a + header_size + cur.size + header_size + b.size =
        omega arith in
      let merged : Block = record cur { size = (cur.size + header_size + b.size) % 2 ^ 32 } in
      let c' : Chain a (merged ∷ bs) end = (c.0, rw s c.1.1) in
      rw e (merge_loop-Chain a end merged bs h c')
  | inr e ↦ rw e (c.0, merge_loop-Chain (a + header_size + cur.size) end b bs h c.1)
]

release-Chain : (a end at : ℕ) (bs : Heap) → Chain a bs end → Chain a (release at bs) end
unfolding release
release-Chain a end at [] c = c
release-Chain a end at (b ∷ bs) c = elim (Bool-cases (b.addr == at)) [
  | inl e ↦ rw e (c.0, release-Chain (a + header_size + b.size) end at bs c.1)
  | inr e ↦ rw e (c.0, release-Chain (a + header_size + b.size) end at bs c.1)
]

merge_all_lem :
    (end : ℕ) (bs : Heap)
    → end < 2 ^ 32
    → Chain 0 bs end
    → Chain 0 (merge_all bs) end × IsCoalesced (merge_all bs)
unfolding merge_all
merge_all_lem end [] h c = (c, tt)
merge_all_lem end (b ∷ bs) h c = (merge_loop-Chain 0 end b bs h c, merge_loop-IsCoalesced b bs)

pub has_block-append :
    (pre : Heap) (b : Block) (post : Heap) → has_block b.addr (pre ++ b ∷ post) ≡ true
unfolding has_block
has_block-append [] b post = let e : (b.addr == b.addr) ≡ true = (==_iff _ _).1 refl in rw e refl
has_block-append (c ∷ pre) b post = ground (arith, has_block-append pre b post)

pub kfree-some :
    (at : ℕ) (blocks : Heap)
    → has_block at blocks ≡ true
    → kfree (some (at + header_size)) blocks ≡ some (merge_all (release at blocks))
unfolding kfree kfree_at
kfree-some at [] h = absurd (false≢true (unfold has_block in h))
kfree-some at (b ∷ bs) h =
    let above : leb header_size (at + header_size) ≡ true = ground arith in
    let back : at + header_size - header_size ≡ at = omega arith in rw (back, above, h) refl

-- `kfree` of the pointer of any block of a tiled heap leaves the heap tiled with no two free
-- neighbours, and of the blocks in use it drops exactly that one: the others keep offset and size.
pub kfree_lem :
    (pre : Heap) (b : Block) (post : Heap)
    → IsTiled (pre ++ b ∷ post)
    → (after : Heap) × (kfree (some (b.addr + 12)) (pre ++ b ∷ post) ≡ some after)
      × IsTiled after
      × IsCoalesced after
      × (used after ≡ others b.addr (used (pre ++ b ∷ post)))
kfree_lem pre b post t =
    let blocks = pre ++ b ∷ post in
    let r = release-Chain 0 heap_size b.addr blocks t in
    let (c, d) = merge_all_lem heap_size (release b.addr blocks) (omega arith) r in
    (
      merge_all (release b.addr blocks),
      kfree-some b.addr blocks (has_block-append pre b post),
      c,
      d,
      used-merge_all (release b.addr blocks) ∙ used-release b.addr blocks,
    )
