-- ===== src/Memory/Heap/Fit.antt =====
-- memory/allocator.c: the first loop of `kmalloc` finds the smallest free block that is large enough.
use minerva_os.Base.{
  ℕ, ◌≡◌, ◌<◌, ◌≤◌, refl, ap, [], ◌∷◌, ◌++◌, arith, All, ◌⊎◌, inl, inr, false, Bool-cases, Option,
  none, some, ltb, leb, leb→le, not, ◌&&◌,
}
use minerva_os.Memory.Heap.{Block, Heap, best_loop}

-- Each free block of at least `size` bytes has at least `least` bytes.
abbrev pub NoneSmaller : ℕ → ℕ → Heap → Type 0
NoneSmaller size least = All (λ c. c.in_use ≡ false → size ≤ c.size → least ≤ c.size)

-- `b`, between `pre` and `post`, is free and the smallest block that fits.
pub record Best (size : ℕ) (blocks : Heap) (at : ℕ) : Type 0 where
  pub pre : Heap
  pub block : Block
  pub post : Heap
  pub split : blocks ≡ pre ++ block ∷ post
  pub offset : block.addr ≡ at
  pub free : block.in_use ≡ false
  pub fits : size ≤ block.size
  pub smallest : NoneSmaller size block.size blocks

-- What the loop returns, given what it had before it.
data Outcome (size : ℕ) (bs : Heap) (best : Option ℕ) (least : ℕ) : Option ℕ → Type 0 where
  kept : NoneSmaller size least bs → Outcome size bs best least best
  found :
      {at : ℕ} (b : Best size bs at) → b.block.size < least → Outcome size bs best least (some at)

abbrev cons-Best :
    {size at : ℕ} {bs : Heap} (b : Block) (k : Best size bs at)
    → (b.in_use ≡ false → size ≤ b.size → k.block.size ≤ b.size)
    → Best size (b ∷ bs) at
cons-Best b k h = record {
  pre = b ∷ k.pre;
  block = k.block;
  post = k.post;
  split = ap (λ t. b ∷ t) k.split;
  offset = k.offset;
  free = k.free;
  fits = k.fits;
  smallest = (h, k.smallest);
}

step_better :
    (size : ℕ) (b : Block) (bs : Heap) (best : Option ℕ) (least : ℕ)
    → b.in_use ≡ false
    → size ≤ b.size
    → b.size < least
    → {r : Option ℕ} → Outcome size bs (some b.addr) b.size r
    → Outcome size (b ∷ bs) best least r
step_better size b bs best least f l lt (kept s) =
    found
      (record {
        pre = [];
        block = b;
        post = bs;
        split = refl;
        offset = refl;
        free = f;
        fits = l;
        smallest = (λ _ _. omega arith, s);
      })
      lt
step_better size b bs best least f l lt (found k below) =
    found (cons-Best b k (λ _ _. omega arith)) (omega arith)

step_other :
    (size : ℕ) (b : Block) (bs : Heap) (best : Option ℕ) (least : ℕ)
    → (b.in_use ≡ false → size ≤ b.size → least ≤ b.size)
    → {r : Option ℕ} → Outcome size bs best least r
    → Outcome size (b ∷ bs) best least r
step_other size b bs best least h (kept s) = kept (h, s)
step_other size b bs best least h (found k below) =
    found (cons-Best b k (λ f l. omega (arith, h f l))) below

best_loop-Outcome :
    (size : ℕ) (bs : Heap) (best : Option ℕ) (least : ℕ)
    → Outcome size bs best least (best_loop size bs best least)
unfolding best_loop
best_loop-Outcome size [] best least = kept tt
best_loop-Outcome size (b ∷ bs) best least =
    elim (Bool-cases (not b.in_use && leb size b.size && ltb b.size least)) [
      | inl e ↦ rw e (
          step_better size b bs best least (ground arith) (ground arith) (ground arith)
            (best_loop-Outcome size bs (some b.addr) b.size))
      | inr e ↦ rw e (
          step_other size b bs best least (λ f l. ground arith)
            (best_loop-Outcome size bs best least))
    ]

-- No free block has `size` bytes.
abbrev pub NoneFits : ℕ → Heap → Type 0
NoneFits size = All (λ c. c.in_use ≡ false → c.size < size)

none_fits :
    (size least : ℕ) (bs : Heap)
    → All (λ c. c.size < least) bs
    → NoneSmaller size least bs
    → NoneFits size bs
none_fits size least [] h s = tt
none_fits size least (b ∷ bs) h s = (
  λ f. elim (Bool-cases (leb size b.size)) [
    | inl l ↦ let l' : size ≤ b.size = leb→le _ _ l in absurd (omega (arith, s.0 f l', h.0))
    | inr g ↦ ground arith
  ],
  none_fits size least bs h.1 s.1,
)

start_cases :
    (size least : ℕ) (bs : Heap) {r : Option ℕ}
    → All (λ c. c.size < least) bs
    → Outcome size bs none least r
    → ((r ≡ none) × NoneFits size bs) ⊎ ((at : ℕ) × (r ≡ some at) × Best size bs at)
start_cases size least bs h (kept s) = inl (refl, none_fits size least bs h s)
start_cases size least bs h (found {at} k below) = inr (at, refl, k)

-- From the start the loop finds the best block, or there is no block that fits.
pub best_loop-cases :
    (size least : ℕ) (bs : Heap)
    → All (λ c. c.size < least) bs
    → ((best_loop size bs none least ≡ none) × NoneFits size bs)
      ⊎ ((at : ℕ) × (best_loop size bs none least ≡ some at) × Best size bs at)
best_loop-cases size least bs h = start_cases size least bs h (best_loop-Outcome size bs none least)
