-- ===== src/Memory/Heap.antt =====
-- memory/allocator.c: the kernel heap, a list of blocks chosen by best fit.
pub mod Chain
pub mod Fit
pub mod Place
pub mod Free
pub mod Run
use minerva_os.Base.{
  ℕ, ◌+◌, ◌-◌, ◌*◌, ◌%◌, ◌^◌, Bool, true, false, List, [], ◌∷◌, Option, none, some, if◌then◌else◌,
  ◌==◌, ltb, leb, not, ◌&&◌, ◌||◌,
}

-- `HEAP_SIZE`
abbrev pub heap_size : ℕ
heap_size = 224 * 1024

-- `sizeof(block_header_t)` with 32-bit `size_t` and pointers.
abbrev pub header_size : ℕ
header_size = 12

-- `block_header_t` at its offset in `heap_memory`; `next` is the block behind it in the list.
pub record Block : Type 0 where
  pub addr : ℕ
  pub size : ℕ
  pub in_use : Bool

-- `free_list`, with the blocks that are reached from it.
abbrev pub Heap : Type 0
Heap = List Block

-- `heap_init`
unfoldable pub heap_init : Heap
heap_init = record { addr = 0; size = heap_size - header_size; in_use = false } ∷ []

-- The first loop of `kmalloc`: the offset of the smallest block that fits.
unfoldable pub best_loop : ℕ → Heap → Option ℕ → ℕ → Option ℕ
best_loop size [] best best_size = best
best_loop size (b ∷ bs) best best_size =
    let better = not b.in_use && leb size b.size && ltb b.size best_size in
    best_loop size bs (if better then some b.addr else best) (if better then b.size else best_size)

-- What `kmalloc` makes of the chosen block: itself, or its front and a free rest.
unfoldable pub carve : ℕ → Block → Heap → Heap
carve size b next =
    let remaining = b.size - size in
    let rest : Block = record {
      addr = b.addr + header_size + size;
      size = remaining - header_size;
      in_use = false;
    } in
    if ltb header_size remaining
    then record b { size = size; in_use = true } ∷ rest ∷ next
    else record b { in_use = true } ∷ next

-- The writes of `kmalloc` through `best_fit`.
unfoldable pub place : ℕ → ℕ → Heap → Heap
place at size [] = []
place at size (b ∷ bs) = if b.addr == at then carve size b bs else b ∷ place at size bs

-- `kmalloc`: the offset returned (`none` for NULL), and the heap.
unfoldable pub kmalloc : ℕ → Heap → Option ℕ × Heap
kmalloc size blocks =
    if size == 0 then (none, blocks) else elim (best_loop size blocks none (2 ^ 32 - 1)) [
      | none ↦ (none, blocks)
      | some at ↦ (some (at + header_size), place at size blocks)
    ]

-- `block->in_use = 0`
unfoldable pub release : ℕ → Heap → Heap
release at [] = []
release at (b ∷ bs) = (if b.addr == at then record b { in_use = false } else b) ∷ release at bs

-- The loop of `kfree`, from the block `current` with the blocks behind it.
unfoldable pub merge_loop : Block → Heap → Heap
merge_loop current [] = current ∷ []
merge_loop current (b ∷ bs) =
    let merged =
      merge_loop (record current { size = (current.size + header_size + b.size) % 2 ^ 32 }) bs in
    let kept = current ∷ merge_loop b bs in
    if not current.in_use && not b.in_use then merged else kept

unfoldable pub merge_all : Heap → Heap
merge_all [] = []
merge_all (b ∷ bs) = merge_loop b bs

-- Whether one of the blocks starts at the offset.
unfoldable pub has_block : ℕ → Heap → Bool
has_block at [] = false
has_block at (b ∷ bs) = b.addr == at || has_block at bs

-- `kfree` of a pointer that is not NULL, given as its offset in `heap_memory`, with a list of blocks.
-- The code clears `in_use` in the twelve bytes before any pointer it is given: where those are not the
-- header of a block it overwrites other memory, which the list of blocks does not describe (`none`).
unfoldable pub kfree_at : ℕ → Heap → Option Heap
kfree_at ptr blocks =
    if leb header_size ptr && has_block (ptr - header_size) blocks
    then some (merge_all (release (ptr - header_size) blocks))
    else none

-- `kfree`, which returns at once when the pointer or `free_list` is NULL.
unfoldable pub kfree : Option ℕ → Heap → Option Heap
kfree none blocks = some blocks
kfree (some ptr) [] = some []
kfree (some ptr) (b ∷ bs) = kfree_at ptr (b ∷ bs)
