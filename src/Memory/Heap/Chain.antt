-- ===== src/Memory/Heap/Chain.antt =====
-- memory/allocator.c: the blocks tile the heap.
use minerva_os.Base.{ℕ, ◌+◌, ◌≡◌, ◌<◌, ◌≤◌, refl, [], ◌∷◌, ◌++◌, arith, All}
use minerva_os.Memory.Heap.{Heap, heap_init, header_size, heap_size}

-- From offset `a` on, each block begins where the one before it ends, and the last ends at `end`.
abbrev pub Chain : ℕ → Heap → ℕ → Type 0
Chain a [] end = a ≡ end
Chain a (b ∷ bs) end = (b.addr ≡ a) × Chain (a + header_size + b.size) bs end

-- The blocks tile the heap: none overlaps another, and no byte is lost.
abbrev pub IsTiled : Heap → Type 0
IsTiled blocks = Chain 0 blocks heap_size

pub heap_init-IsTiled : IsTiled heap_init
unfolding heap_init
heap_init-IsTiled = (refl, refl)

pub Chain-le : (a end : ℕ) (bs : Heap) → Chain a bs end → a ≤ end
Chain-le a end [] c = omega arith
Chain-le a end (b ∷ bs) c = omega (arith, Chain-le (a + header_size + b.size) end bs c.1)

pub Chain-append :
    (a end : ℕ) (pre post : Heap)
    → Chain a (pre ++ post) end
    → (m : ℕ) × Chain a pre m × Chain m post end
Chain-append a end [] post c = (a, refl, c)
Chain-append a end (b ∷ bs) post c =
    let (m, p, q) = Chain-append (a + header_size + b.size) end bs post c.1 in (m, (c.0, p), q)

pub Chain-join :
    (a m end : ℕ) (pre post : Heap) → Chain a pre m → Chain m post end → Chain a (pre ++ post) end
Chain-join a m end [] post p q = let e : m ≡ a = omega arith in rw e at q
Chain-join a m end (b ∷ bs) post p q =
    (p.0, Chain-join (a + header_size + b.size) m end bs post p.1 q)

-- Offsets grow along the list.
pub Chain-after : (a end : ℕ) (bs : Heap) → Chain a bs end → All (λ c. a ≤ c.addr) bs
Chain-after a end [] c = tt
Chain-after a end (b ∷ bs) c =
    (omega arith, weaken bs (Chain-after (a + header_size + b.size) end bs c.1))
  where
    weaken :
        (cs : Heap) → All (λ c. a + header_size + b.size ≤ c.addr) cs → All (λ c. a ≤ c.addr) cs
    weaken [] h = tt
    weaken (c ∷ cs) h = (omega arith, weaken cs h.1)

-- No block before a given point of the chain has its offset.
pub Chain-before : (a m : ℕ) (pre : Heap) → Chain a pre m → All (λ c. c.addr < m) pre
Chain-before a m [] c = tt
Chain-before a m (b ∷ bs) c = (
  omega (arith, Chain-le (a + header_size + b.size) m bs c.1),
  Chain-before (a + header_size + b.size) m bs c.1,
)

-- A block of a tiled heap is smaller than the heap.
pub Chain-size : (a end : ℕ) (bs : Heap) → Chain a bs end → All (λ c. c.size + header_size ≤ end) bs
Chain-size a end [] c = tt
Chain-size a end (b ∷ bs) c = (
  omega (arith, Chain-le (a + header_size + b.size) end bs c.1),
  Chain-size (a + header_size + b.size) end bs c.1,
)
