-- ===== src/Fs/Fat.antt =====
-- fs/fat32.c: the file allocation table, on a drive that reads and writes whole sectors.
pub mod Entries
pub mod RoundTrip
pub mod Search
pub mod Chain
use minerva_os.Base.{
  ℕ, zero, suc, ◌+◌, ◌-◌, ◌*◌, ◌/◌, ◌%◌, ◌^◌, Bool, true, false, not, ◌&&◌, ◌||◌, if◌then◌else◌,
  ◌==◌, leb, ltb, List, Option, none, some, get_or, bit_and,
}
use minerva_os.Fs.Bytes.{rd16, rd32, wr32}

-- The drive behind `ata_read_sector` and `ata_write_sector`: its sectors, and which of them it
-- answers for. The `sector` buffer is the result of a read, which every use comes after.
pub record Drive : Type 0 where
  pub sectors : ℕ → List ℕ
  pub good : ℕ → Bool

abbrev pub sector_size : ℕ
sector_size = 512

-- `FAT32_EOC`
abbrev pub fat32_eoc : ℕ
fat32_eoc = 0x0FFFFFF8

abbrev pub usable : ℕ → Drive → Bool
usable lba d = ltb lba 0x10000000 && d.good lba

-- `ata_read_sector`: `none` for 0.
unfoldable pub ata_read_sector : ℕ → Drive → Option (List ℕ)
ata_read_sector lba d = if usable lba d then some (d.sectors lba) else none

-- `ata_write_sector`
unfoldable pub ata_write_sector : ℕ → List ℕ → Drive → Bool × Drive
ata_write_sector lba bytes d =
    if usable lba d
    then (true, record d { sectors = λ (i : ℕ). if i == lba then bytes else d.sectors i })
    else (false, d)

-- The fields of `fat32_bpb_t` that the driver reads.
pub record Bpb : Type 0 where
  pub bytes_per_sector : ℕ
  pub sectors_per_cluster : ℕ
  pub reserved_sector_count : ℕ
  pub fat_count : ℕ
  pub total_sectors_16 : ℕ
  pub total_sectors_32 : ℕ
  pub fat_size_32 : ℕ
  pub root_cluster : ℕ

-- The static variables but the buffer.
pub record Volume : Type 0 where
  pub bpb : Bpb
  pub fat_start_lba : ℕ
  pub data_start_lba : ℕ
  pub mounted : Bool

-- `memcpy(&bpb, sector, sizeof(bpb))`
abbrev pub bpb_of : List ℕ → Bpb
bpb_of s = record {
  bytes_per_sector = rd16 s 11;
  sectors_per_cluster = get_or s 13 0;
  reserved_sector_count = rd16 s 14;
  fat_count = get_or s 16 0;
  total_sectors_16 = rd16 s 19;
  total_sectors_32 = rd32 s 32;
  fat_size_32 = rd32 s 36;
  root_cluster = rd32 s 44;
}

-- The tests of `fs_init`.
abbrev pub is_volume : List ℕ → Bpb → Bool
is_volume s b =
    b.bytes_per_sector == sector_size
    && not (b.sectors_per_cluster == 0)
    && not (b.fat_count == 0 || b.fat_size_32 == 0)
    && (get_or s 510 0 == 0x55 && get_or s 511 0 == 0xAA)

-- `fs_init`: whether it mounted, and the variables.
unfoldable pub fs_init : Drive → Volume → Bool × Volume
fs_init d v = elim (ata_read_sector 0 d) [
  | none ↦ (false, record v { mounted = false })
  | some s ↦
      let b = bpb_of s in
      if is_volume s b
      then (
        true,
        record {
          bpb = b;
          fat_start_lba = b.reserved_sector_count;
          data_start_lba = (b.reserved_sector_count + b.fat_count * b.fat_size_32) % 2 ^ 32;
          mounted = true;
        },
      )
      else (false, record v { bpb = b; mounted = false })
]

-- `total_sectors`
unfoldable pub total_sectors : Volume → ℕ
total_sectors v =
    if v.bpb.total_sectors_32 == 0 then v.bpb.total_sectors_16 else v.bpb.total_sectors_32

-- `cluster_to_lba`
unfoldable pub cluster_to_lba : Volume → ℕ → ℕ
cluster_to_lba v cluster =
    (v.data_start_lba + (cluster + 2 ^ 32 - 2) * v.bpb.sectors_per_cluster) % 2 ^ 32

-- `fat_sector` in the copy with the number `fat`
abbrev pub fat_sector : Volume → ℕ → ℕ → ℕ
fat_sector v fat cluster =
    (v.fat_start_lba + fat * v.bpb.fat_size_32 + cluster * 4 % 2 ^ 32 / sector_size) % 2 ^ 32

-- `entry_offset`
abbrev pub entry_offset : ℕ → ℕ
entry_offset cluster = cluster * 4 % 2 ^ 32 % sector_size

-- `read_fat_entry`
unfoldable pub read_fat_entry : Volume → Drive → ℕ → Option ℕ
read_fat_entry v d cluster = elim (ata_read_sector (fat_sector v 0 cluster) d) [
  | none ↦ none
  | some s ↦ some (bit_and (rd32 s (entry_offset cluster)) 0x0FFFFFFF)
]

-- `next_cluster`
unfoldable pub next_cluster : Volume → Drive → ℕ → ℕ
next_cluster v d cluster = elim (ata_read_sector (fat_sector v 0 cluster) d) [
  | none ↦ fat32_eoc
  | some s ↦ bit_and (rd32 s (entry_offset cluster)) 0x0FFFFFFF
]

-- The loop of `write_fat_entry`, from the copy `fat` on, with so many left.
unfoldable pub write_loop : ℕ → ℕ → Volume → ℕ → ℕ → Drive → Bool × Drive
write_loop zero fat v cluster value d = (true, d)
write_loop (suc left) fat v cluster value d = elim (ata_read_sector (fat_sector v fat cluster) d) [
  | none ↦ (false, d)
  | some s ↦
      let (written, d') =
        ata_write_sector (fat_sector v fat cluster) (wr32 s (entry_offset cluster) value) d in
      let rest = write_loop left (fat + 1) v cluster value d' in
      if written then rest else (false, d')
]

-- `write_fat_entry`
unfoldable pub write_fat_entry : Volume → ℕ → ℕ → Drive → Bool × Drive
write_fat_entry v cluster value d = write_loop v.bpb.fat_count 0 v cluster value d

-- `max_cluster`
abbrev pub max_cluster : Volume → ℕ
max_cluster v = ((total_sectors v - v.data_start_lba) / v.bpb.sectors_per_cluster + 2) % 2 ^ 32

-- The loop of `find_free_cluster`, with so many clusters left.
unfoldable pub free_loop : ℕ → ℕ → Volume → Drive → Option ℕ
free_loop zero cluster v d = none
free_loop (suc left) cluster v d =
    let rest = free_loop left (cluster + 1) v d in
    elim (read_fat_entry v d cluster) [
      | none ↦ none
      | some value ↦ if value == 0 then some cluster else rest
    ]

-- `find_free_cluster`
unfoldable pub find_free_cluster : Volume → Drive → Option ℕ
find_free_cluster v d =
    if leb (total_sectors v) v.data_start_lba then none else free_loop (max_cluster v - 2) 2 v d

-- The loop of `free_cluster_chain`; the first argument is `max_cluster - visited`.
unfoldable pub chain_loop : ℕ → ℕ → Volume → Drive → Bool × Drive
chain_loop zero cluster v d = (not (leb 2 cluster && ltb cluster fat32_eoc), d)
chain_loop (suc left) cluster v d =
    let (written, d') = write_fat_entry v cluster 0 d in
    elim (read_fat_entry v d cluster) [
      | none ↦ (not (leb 2 cluster && ltb cluster fat32_eoc), d)
      | some next ↦
          let rest = chain_loop left next v d' in
          if not (leb 2 cluster && ltb cluster fat32_eoc)
          then (true, d)
          else if leb (max_cluster v) cluster
          then (false, d)
          else if written
          then rest
          else (false, d')
    ]

-- `free_cluster_chain`
unfoldable pub free_cluster_chain : Volume → ℕ → Drive → Bool × Drive
free_cluster_chain v cluster d =
    if leb (total_sectors v) v.data_start_lba
    then (false, d)
    else chain_loop (max_cluster v) cluster v d

-- `cluster_is_single`
unfoldable pub cluster_is_single : Volume → Drive → ℕ → Bool
cluster_is_single v d cluster =
    if ltb cluster 2
    then false
    else elim (read_fat_entry v d cluster) [ none ↦ false | some next ↦ leb fat32_eoc next ]
