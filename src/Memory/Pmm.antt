-- ===== src/Memory/Pmm.antt =====
-- memory/pmm.c: the bitmap of physical pages.
pub mod Bitmap
pub mod Pages
pub mod Alloc
pub mod Init
use minerva_os.Base.{
  ℕ, zero, suc, ◌+◌, ◌-◌, ◌*◌, ◌/◌, ◌%◌, ◌^◌, Bool, List, if◌then◌else◌, ◌==◌, ltb, leb, not, ◌&&◌,
  get_or, set, replicate, bit_and, bit_or,
}
use minerva_os.Base.Bits.{shr}

-- `PAGE_SIZE`
abbrev pub page_size : ℕ
page_size = 4096

-- `TOTAL_PAGES`, of 32 MB
abbrev pub total_pages : ℕ
total_pages = 8192

-- `BITMAP_BYTES`
abbrev pub bitmap_bytes : ℕ
bitmap_bytes = 1024

-- The two file-scope variables.
pub record Pmm : Type 0 where
  pub bitmap : List ℕ
  pub used_count : ℕ

-- `mark_used`, on the bitmap
unfoldable pub mark_used : List ℕ → ℕ → List ℕ
mark_used bitmap p = set bitmap (p / 8) (bit_or (get_or bitmap (p / 8) 0) (2 ^ (p % 8)) % 2 ^ 8)

-- `mark_free`
unfoldable pub mark_free : List ℕ → ℕ → List ℕ
mark_free bitmap p =
    set bitmap (p / 8) (bit_and (get_or bitmap (p / 8) 0) (2 ^ 32 - 1 - 2 ^ (p % 8)) % 2 ^ 8)

-- `is_used`
unfoldable pub is_used : List ℕ → ℕ → ℕ
is_used bitmap p = bit_and (shr (get_or bitmap (p / 8) 0) (p % 8)) 1

-- The pages that `pmm_init` leaves reserved above the kernel.
abbrev pub is_vga : ℕ → Bool
is_vga i = leb 0xA0 i && leb i 0xBF

-- The second loop of `pmm_init`, with so many pages left.
unfoldable pub free_loop : ℕ → ℕ → Pmm → Pmm
free_loop zero i s = s
free_loop (suc left) i s = free_loop left (i + 1) (
    if is_vga i then s else record {
      bitmap = mark_free s.bitmap i;
      used_count = (s.used_count + 2 ^ 32 - 1) % 2 ^ 32;
    })

-- `pmm_init`; its first loop fills the bitmap with 0xFF.
unfoldable pub pmm_init : ℕ → Pmm
pmm_init kernel_end =
    let first_free = (kernel_end + page_size - 1) % 2 ^ 32 / page_size in
    free_loop (total_pages - first_free) first_free
      (record { bitmap = replicate bitmap_bytes 0xFF; used_count = total_pages })

-- The loop of `pmm_alloc_page`.
unfoldable pub alloc_loop : ℕ → ℕ → Pmm → ℕ × Pmm
alloc_loop zero i s = (0, s)
alloc_loop (suc left) i s =
    let rest = alloc_loop left (i + 1) s in
    if is_used s.bitmap i == 0
    then (
      i * page_size % 2 ^ 32,
      record { bitmap = mark_used s.bitmap i; used_count = (s.used_count + 1) % 2 ^ 32 },
    )
    else rest

-- `pmm_alloc_page`
unfoldable pub pmm_alloc_page : Pmm → ℕ × Pmm
pmm_alloc_page s = alloc_loop total_pages 0 s

-- `pmm_free_page`
unfoldable pub pmm_free_page : Pmm → ℕ → Pmm
pmm_free_page s phys =
    let p = phys / page_size in
    if ltb p total_pages && not (is_used s.bitmap p == 0)
    then record { bitmap = mark_free s.bitmap p; used_count = (s.used_count + 2 ^ 32 - 1) % 2 ^ 32 }
    else s

-- `pmm_used_pages`
unfoldable pub pmm_used_pages : Pmm → ℕ
pmm_used_pages s = s.used_count

-- `pmm_free_pages`
unfoldable pub pmm_free_pages : Pmm → ℕ
pmm_free_pages s = (total_pages + 2 ^ 32 - s.used_count) % 2 ^ 32
