-- ===== src/Fs/Tests.antt =====
-- fs/fat32.c: the theorems at concrete names and disks.
use mathlib.Core.List.{map}
use minerva_os.Base.{
  ℕ, ◌≡◌, refl, List, [], ◌∷◌, some, none, ◌⊎◌, ◌%◌, ◌^◌, if◌then◌else◌, ◌==◌, replicate, true,
  arith, length-replicate,
}
use minerva_os.Fs.Names.{
  upper_ascii, make_short_name, make_short_name_checked, short_name_to_string, checked_base,
  checked_ext, checked_rest,
}
use minerva_os.Fs.Names.RoundTrip.{make_short_name_checked-Agrees}
use minerva_os.Base.Bits.{shr}
use minerva_os.Fs.Bytes.{rd32, wr32}
use minerva_os.Fs.Fat.{
  Drive, Volume, ata_read_sector, ata_write_sector, read_fat_entry, write_loop, write_fat_entry,
  total_sectors, find_free_cluster, free_cluster_chain, chain_loop,
}
use minerva_os.Fs.Fat.Entries.{IsVolume, IsDrive}
use minerva_os.Fs.Fat.RoundTrip.{read_fat_entry-write_fat_entry}
use minerva_os.Fs.Fat.Chain.{Ends, write_fat_entry-IsDrive, free_cluster_chain-Ends}
use minerva_os.Fs.Fat.Search.{NoneFree, FirstFree, find_free_cluster-cases}

-- "Log.txt" and its field.
abbrev log_name : List ℕ
log_name = b'L' ∷ b'o' ∷ b'g' ∷ b'.' ∷ b't' ∷ b'x' ∷ b't' ∷ []

abbrev log_field : List ℕ
log_field = b'L' ∷ b'O' ∷ b'G' ∷ b' ' ∷ b' ' ∷ b' ' ∷ b' ' ∷ b' ' ∷ b'T' ∷ b'X' ∷ b'T' ∷ []

log_accepted : make_short_name_checked log_name ≡ some log_field
unfolding make_short_name_checked checked_base checked_ext checked_rest
log_accepted = refl

make_short_name_checked-Agrees_example :
    (make_short_name log_name ≡ log_field)
    × (short_name_to_string log_field ≡ map upper_ascii log_name)
make_short_name_checked-Agrees_example =
    make_short_name_checked-Agrees log_name log_field log_accepted

-- A volume of 1000 sectors with two copies of a table of four sectors.
abbrev volume : Volume
volume = record {
  bpb = record {
    bytes_per_sector = 512;
    sectors_per_cluster = 2;
    reserved_sector_count = 32;
    fat_count = 2;
    total_sectors_16 = 1000;
    total_sectors_32 = 0;
    fat_size_32 = 4;
    root_cluster = 2;
  };
  fat_start_lba = 32;
  data_start_lba = 40;
  mounted = true;
}

abbrev empty_drive : Drive
empty_drive = record { sectors = λ lba. replicate 512 0; good = λ lba. true }

volume-IsVolume : IsVolume volume
volume-IsVolume = record { copies = 1; fats = refl; few = omega arith; fits = omega arith }

entry_written : (write_fat_entry volume 7 9 empty_drive).0 ≡ true
unfolding write_fat_entry write_loop ata_read_sector ata_write_sector
entry_written = refl

read_fat_entry-write_fat_entry_example :
    read_fat_entry volume (write_fat_entry volume 7 9 empty_drive).1 130
    ≡ (if 130 == 7 then some (9 % 2 ^ 28) else read_fat_entry volume empty_drive 130)
read_fat_entry-write_fat_entry_example =
    read_fat_entry-write_fat_entry volume 7 130 9 empty_drive volume-IsVolume
      (λ lba. length-replicate {A = ℕ} 512 0) (omega arith) (omega arith) entry_written

find_free_cluster-cases_example :
    ((find_free_cluster volume empty_drive ≡ none)
      × ((stop : ℕ) × NoneFree volume empty_drive 2 stop))
    ⊎ ((c : ℕ) × (find_free_cluster volume empty_drive ≡ some c) × FirstFree volume empty_drive 2 c)
unfolding total_sectors
find_free_cluster-cases_example =
    find_free_cluster-cases volume empty_drive (omega arith) (omega arith) (omega arith)

-- The chain of the clusters 7 and 9.
abbrev chained_drive : Drive
chained_drive = (write_fat_entry volume 9 0x0FFFFFFF (write_fat_entry volume 7 9 empty_drive).1).1

chained_drive-IsDrive : IsDrive chained_drive
chained_drive-IsDrive =
    write_fat_entry-IsDrive volume 9 0x0FFFFFFF (write_fat_entry volume 7 9 empty_drive).1
      (write_fat_entry-IsDrive volume 7 9 empty_drive (λ lba. length-replicate {A = ℕ} 512 0))

chain_freed : (free_cluster_chain volume 7 chained_drive).0 ≡ true
unfolding free_cluster_chain chain_loop total_sectors read_fat_entry write_fat_entry write_loop
    ata_read_sector ata_write_sector rd32 wr32 shr
chain_freed = refl

free_cluster_chain-Ends_example :
    Ends volume chained_drive [] 7 (free_cluster_chain volume 7 chained_drive).1
unfolding total_sectors
free_cluster_chain-Ends_example =
    free_cluster_chain-Ends volume 7 chained_drive volume-IsVolume chained_drive-IsDrive
      (omega arith) chain_freed
