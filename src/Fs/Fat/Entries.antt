-- ===== src/Fs/Fat/Entries.antt =====
-- fs/fat32.c: writing one entry of the table changes that entry alone.
use native.Mathlib.Nat.{mul-le-mul_right}
use minerva_os.Base.{
  ℕ, zero, suc, ◌+◌, ◌*◌, ◌/◌, ◌%◌, ◌^◌, ◌<◌, ◌≤◌, ◌≡◌, ◌≢◌, ◌⊎◌, inl, inr, refl, sym, ap, ◌∙◌,
  true, false, ◌==◌, List, length, none, some, arith, Bool-cases, ==_iff, subst,
}
use minerva_os.Base.Bits.{bit_and_mask}
use minerva_os.Fs.Bytes.{rd32, wr32}
use minerva_os.Fs.Fat.{
  Drive, Volume, usable, ata_read_sector, ata_write_sector, fat_sector, entry_offset,
  read_fat_entry, write_loop, write_fat_entry,
}

-- A volume that a drive of 28-bit sector numbers holds, with at most 2^28 clusters.
pub record IsVolume (v : Volume) : Type 0 where
  pub copies : ℕ
  pub fats : v.bpb.fat_count ≡ suc copies
  pub few : v.bpb.fat_size_32 ≤ 2 ^ 21
  pub fits : v.fat_start_lba + v.bpb.fat_count * v.bpb.fat_size_32 ≤ 2 ^ 28

-- Every sector has its 512 bytes.
abbrev pub IsDrive : Drive → Type 0
IsDrive d = (lba : ℕ) → length (d.sectors lba) ≡ 512

-- The clusters that the table has entries for.
abbrev pub HasEntry : Volume → ℕ → Type 0
HasEntry v cluster = cluster < 128 * v.bpb.fat_size_32

times_le : (k n s : ℕ) → k < n → k * s + s ≤ n * s
times_le k n s h = omega (arith, mul-le-mul_right s h)

-- Where an entry stands in a copy of the table.
pub fat_sector-at :
    (v : Volume) (fat cluster : ℕ)
    → IsVolume v
    → fat < v.bpb.fat_count
    → HasEntry v cluster
    → fat_sector v fat cluster ≡ v.fat_start_lba + fat * v.bpb.fat_size_32 + cluster / 128
fat_sector-at v fat cluster w h e =
    omega (arith, times_le fat v.bpb.fat_count v.bpb.fat_size_32 h, w.fits, w.few, e)

written_else :
    (lba i : ℕ) (bytes : List ℕ) (d : Drive)
    → i ≢ lba
    → (ata_write_sector lba bytes d).1.sectors i ≡ d.sectors i
unfolding ata_write_sector
written_else lba i bytes d h =
    let other : (i == lba) ≡ false = ground (arith, h) in
    elim (Bool-cases (usable lba d)) [ inl e ↦ rw (e, other) refl | inr e ↦ rw e refl ]

written-good :
    (lba : ℕ) (bytes : List ℕ) (d : Drive) → (ata_write_sector lba bytes d).1.good ≡ d.good
unfolding ata_write_sector
written-good lba bytes d = elim (Bool-cases (usable lba d)) [
  | inl e ↦ rw e refl
  | inr e ↦ rw e refl
]

-- The other copies leave the sectors of the first alone, and no write changes what is usable.
write_loop-later :
    (left fat : ℕ) (v : Volume) (cluster value : ℕ) (d : Drive) (lba : ℕ)
    → IsVolume v
    → HasEntry v cluster
    → 0 < fat
    → fat + left ≡ v.bpb.fat_count
    → lba < v.fat_start_lba + v.bpb.fat_size_32
    → let after = (write_loop left fat v cluster value d).1 in
      (after.sectors lba ≡ d.sectors lba) × (after.good ≡ d.good)
unfolding write_loop ata_read_sector
write_loop-later zero fat v cluster value d lba w e pos all low = (refl, refl)
write_loop-later (suc left) fat v cluster value d lba w e pos all low =
    let s = fat_sector v fat cluster in
    let bytes = wr32 (d.sectors s) (entry_offset cluster) value in
    let d' = (ata_write_sector s bytes d).1 in
    let at = fat_sector-at v fat cluster w (omega (arith, all)) e in
    let apart : lba ≢ s = λ g. omega (arith, g, at, times_le 0 fat v.bpb.fat_size_32 pos, low) in
    let kept = written_else s lba bytes d apart in
    let good = written-good s bytes d in
    let ih =
      write_loop-later left (fat + 1) v cluster value d' lba w e (omega arith) (omega (arith, all))
        low in
    elim (Bool-cases (usable s d)) [
      | inr u ↦ rw (write_loop, u) (refl, refl)
      | inl u ↦ elim (Bool-cases (ata_write_sector s bytes d).0) [
        | inl y ↦ rw (write_loop, u, y) (ih.0 ∙ kept, ih.1 ∙ good)
        | inr n ↦ rw (write_loop, u, n) (kept, good)
      ]
    ]

written_at :
    (lba : ℕ) (bytes : List ℕ) (d : Drive)
    → usable lba d ≡ true
    → ((ata_write_sector lba bytes d).0 ≡ true)
      × ((ata_write_sector lba bytes d).1.sectors lba ≡ bytes)
unfolding ata_write_sector
written_at lba bytes d u =
    let self : (lba == lba) ≡ true = (==_iff lba lba).1 refl in rw (u, self) (refl, refl)

-- What a successful write leaves in the first copy.
pub record Stored (v : Volume) (cluster value : ℕ) (d d' : Drive) : Type 0 where
  pub there : usable (fat_sector v 0 cluster) d ≡ true
  pub good : d'.good ≡ d.good
  pub put :
      d'.sectors (fat_sector v 0 cluster)
      ≡ wr32 (d.sectors (fat_sector v 0 cluster)) (entry_offset cluster) value
  pub kept :
      (other : ℕ)
      → HasEntry v other
      → fat_sector v 0 other ≢ fat_sector v 0 cluster
      → d'.sectors (fat_sector v 0 other) ≡ d.sectors (fat_sector v 0 other)

first-Stored :
    (v : Volume) (cluster value : ℕ) (d : Drive) (w : IsVolume v)
    → HasEntry v cluster
    → let r = write_loop (suc w.copies) 0 v cluster value d in
      (r.0 ≡ false) ⊎ Stored v cluster value d r.1
unfolding write_loop ata_read_sector
first-Stored v cluster value d w e =
    let s = fat_sector v 0 cluster in
    let bytes = wr32 (d.sectors s) (entry_offset cluster) value in
    let d1 = (ata_write_sector s bytes d).1 in
    let low = λ (c : ℕ) (h : HasEntry v c).
      subst (λ a. a < v.fat_start_lba + v.bpb.fat_size_32)
        (sym (fat_sector-at v 0 c w (omega (arith, w.fats)) h)) (omega (arith, h)) in
    let later = λ (c : ℕ) (h : HasEntry v c).
      write_loop-later w.copies 1 v cluster value d1 (fat_sector v 0 c) w e (omega arith)
        (omega (arith, w.fats)) (low c h) in
    elim (Bool-cases (usable s d)) [
      | inr u ↦ rw (write_loop, u) (inl refl)
      | inl u ↦
          let done = written_at s bytes d u in
          rw (write_loop, u, done.0)
            (inr (record {
              there = u;
              good = (later cluster e).1 ∙ written-good s bytes d;
              put = (later cluster e).0 ∙ done.1;
              kept = λ o h ne. (later o h).0 ∙ written_else s (fat_sector v 0 o) bytes d ne;
            }))
    ]

pub write_fat_entry-Stored :
    (v : Volume) (cluster value : ℕ) (d : Drive)
    → IsVolume v
    → HasEntry v cluster
    → let r = write_fat_entry v cluster value d in (r.0 ≡ false) ⊎ Stored v cluster value d r.1
unfolding write_fat_entry
write_fat_entry-Stored v cluster value d w e =
    subst (λ r. (r.0 ≡ false) ⊎ Stored v cluster value d r.1)
      (sym (ap (λ n. write_loop n 0 v cluster value d) w.fats)) (first-Stored v cluster value d w e)

pub read-usable :
    (v : Volume) (d : Drive) (cluster : ℕ)
    → usable (fat_sector v 0 cluster) d ≡ true
    → read_fat_entry v d cluster
      ≡ some (rd32 (d.sectors (fat_sector v 0 cluster)) (entry_offset cluster) % 2 ^ 28)
unfolding read_fat_entry ata_read_sector
read-usable v d cluster u =
    rw (read_fat_entry, u) (ap (λ x. some x) (bit_and_mask 28 _ 0x0FFFFFFF refl))

pub read-broken :
    (v : Volume) (d : Drive) (cluster : ℕ)
    → usable (fat_sector v 0 cluster) d ≡ false
    → read_fat_entry v d cluster ≡ none
unfolding read_fat_entry ata_read_sector
read-broken v d cluster u = rw (read_fat_entry, u) refl
