-- ===== src/Memory/Tests.antt =====
-- memory/: the theorems at concrete bitmaps and heaps.
use minerva_os.Base.{
  List, [], ◌∷◌, ℕ, ◌*◌, ◌<◌, ◌≡◌, ◌⊎◌, refl, some, arith, leb, not, ◌&&◌, if◌then◌else◌, ◌-◌, ◌+◌,
  true, false, ◌++◌,
}
use minerva_os.Memory.Pmm.{
  Pmm, is_used, pmm_init, pmm_alloc_page, pmm_free_page, page_size, total_pages, is_vga,
}
use minerva_os.Memory.Pmm.Pages.{IsValid}
use minerva_os.Memory.Pmm.Init.{pmm_init-free}
use minerva_os.Memory.Pmm.Alloc.{Took, Exhausted, pmm_alloc_page-cases, pmm_free_page-alloc}
use minerva_os.Memory.Heap.{Block, Heap, heap_init, kmalloc, kfree, best_loop, place, carve}
use minerva_os.Memory.Heap.Chain.{IsTiled}
use minerva_os.Memory.Heap.Free.{IsCoalesced, used, others, kfree_lem}
use minerva_os.Memory.Heap.Run.{Request, alloc, free, run, Proper, IsHeap, run_restores}

-- A kernel that ends at 0x123456.
abbrev booted : Pmm
booted = pmm_init 0x123456

pmm_init-free_example :
    IsValid booted
    × ((p : ℕ)
        → p < total_pages
        → is_used booted.bitmap p
          ≡ (if leb 0x123456 (p * page_size) && not (is_vga p) then 0 else 1))
pmm_init-free_example = pmm_init-free 0x123456 (omega arith)

pmm_alloc_page-cases_example :
    Took booted (pmm_alloc_page booted) ⊎ Exhausted booted (pmm_alloc_page booted)
pmm_alloc_page-cases_example = pmm_alloc_page-cases booted pmm_init-free_example.0

pmm_free_page-alloc_example :
    let (address, t) = pmm_alloc_page booted in
    ((q : ℕ)
      → q < total_pages
      → is_used (pmm_free_page t address).bitmap q ≡ is_used booted.bitmap q)
    × ((pmm_free_page t address).used_count ≡ booted.used_count)
pmm_free_page-alloc_example =
    pmm_free_page-alloc booted pmm_init-free_example.0 0x200 (omega arith)
      (pmm_init-free_example.1 0x200 (omega arith))

-- The one block of a fresh heap.
abbrev whole : Block
whole = record { addr = 0; size = 224 * 1024 - 12; in_use = false }

kfree_lem_example :
    (after : Heap) × (kfree (some (whole.addr + 12)) ([] ++ whole ∷ []) ≡ some after)
    × IsTiled after
    × IsCoalesced after
    × (used after ≡ others whole.addr (used ([] ++ whole ∷ [])))
kfree_lem_example = kfree_lem [] whole [] (omega arith)

-- Two blocks are taken, and the first is given back.
abbrev requests : List Request
requests = alloc 100 ∷ alloc 60 ∷ free (some 12) ∷ []

abbrev first : Block
first = record { addr = 0; size = 100; in_use = true }

abbrev others_then : Heap
others_then =
    record { addr = 112; size = 60; in_use = true }
    ∷ record { addr = 184; size = 229180; in_use = false }
    ∷ []

requests-Proper : Proper requests heap_init
unfolding kmalloc heap_init best_loop place carve
requests-Proper = ([], first, others_then, refl, refl, λ after e. tt)

run_restores_example :
    (blocks : Heap) × (run requests heap_init ≡ some blocks)
    × IsHeap blocks
    × (let (ptr, after) = kmalloc 80 blocks in kfree ptr after ≡ some blocks)
run_restores_example = run_restores requests 80 requests-Proper
