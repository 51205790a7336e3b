-- ===== src/Fs/Fat/RoundTrip.antt =====
-- fs/fat32.c: the table as a function from clusters to entries, and what a write does to it.
use minerva_os.Base.{
  ℕ, ◌+◌, ◌/◌, ◌%◌, ◌^◌, ◌<◌, ◌≤◌, ◌≡◌, ◌≢◌, ◌⊎◌, inl, inr, sym, ap, ◌∙◌, Bool, true, ◌&&◌,
  if◌then◌else◌, ◌==◌, ltb, length, some, arith, Bool-cases, ==_iff, true≢false, ltb→lt, not_ltb→le,
}
use minerva_os.Fs.Bytes.{rd32}
use minerva_os.Fs.Bytes.RoundTrip.{rd32-wr32, rd32-wr32_kept}
use minerva_os.Fs.Fat.{
  Drive, Volume, usable, fat_sector, entry_offset, read_fat_entry, write_fat_entry,
}
use minerva_os.Fs.Fat.Entries.{
  IsVolume, IsDrive, HasEntry, Stored, write_fat_entry-Stored, read-usable, read-broken,
  fat_sector-at,
}

same-usable : (lba : ℕ) (d d' : Drive) → d'.good ≡ d.good → usable lba d' ≡ usable lba d
same-usable lba d d' e = ap (λ (g : ℕ → Bool). ltb lba 0x10000000 && g lba) e

-- The sector of another cluster's entry holds the same number there.
entry-kept :
    (v : Volume) (cluster other value : ℕ) (d d' : Drive)
    → IsVolume v
    → HasEntry v cluster
    → HasEntry v other
    → other ≢ cluster
    → Stored v cluster value d d'
    → rd32 (d'.sectors (fat_sector v 0 other)) (entry_offset other)
      ≡ rd32 (d.sectors (fat_sector v 0 other)) (entry_offset other)
entry-kept v cluster other value d d' w hc ho ne s =
    elim (Bool-cases (fat_sector v 0 other == fat_sector v 0 cluster)) [
      | inl e ↦
          let same : fat_sector v 0 other ≡ fat_sector v 0 cluster = (==_iff _ _).0 e in
          let some_fat : 0 < v.bpb.fat_count = omega (arith, w.fats) in
          let row : other / 128 ≡ cluster / 128 = omega (
            arith,
            same,
            fat_sector-at v 0 other w some_fat ho,
            fat_sector-at v 0 cluster w some_fat hc,
          ) in
          let apart : (entry_offset cluster + 4 ≤ entry_offset other)
              ⊎ (entry_offset other + 4 ≤ entry_offset cluster) =
            offsets other cluster row ne (omega (arith, ho, w.few)) (omega (arith, hc, w.few)) in
          ap (λ l. rd32 (d'.sectors l) (entry_offset other)) same
          ∙ ap (λ b. rd32 b (entry_offset other)) s.put
          ∙ rd32-wr32_kept (d.sectors (fat_sector v 0 cluster)) (entry_offset cluster) value
              (entry_offset other) apart
          ∙ ap (λ l. rd32 (d.sectors l) (entry_offset other)) (sym same)
      | inr e ↦
          ap (λ b. rd32 b (entry_offset other))
            (s.kept other ho (λ g. true≢false (sym ((==_iff _ _).1 g) ∙ e)))
    ]
  where
    offsets :
        (a b : ℕ)
        → a / 128 ≡ b / 128
        → a ≢ b
        → a < 2 ^ 28
        → b < 2 ^ 28
        → (entry_offset b + 4 ≤ entry_offset a) ⊎ (entry_offset a + 4 ≤ entry_offset b)
    offsets a b e n ha hb = elim (Bool-cases (ltb a b)) [
      | inl l ↦ inr (omega (arith, e, ltb→lt a b l, ha, hb))
      | inr l ↦ inl (omega (arith, e, n, not_ltb→le a b l, ha, hb))
    ]

read-same :
    (v : Volume) (cluster value : ℕ) (d d' : Drive)
    → IsDrive d
    → Stored v cluster value d d'
    → read_fat_entry v d' cluster ≡ some (value % 2 ^ 28)
read-same v cluster value d d' f s =
    let lba = fat_sector v 0 cluster in
    let inside : entry_offset cluster + 4 ≤ length (d.sectors lba) = omega (arith, f lba) in
    let read : rd32 (d'.sectors lba) (entry_offset cluster) ≡ value % 2 ^ 32 =
      ap (λ b. rd32 b (entry_offset cluster)) s.put
      ∙ rd32-wr32 (d.sectors lba) (entry_offset cluster) value inside in
    read-usable v d' cluster (same-usable lba d d' s.good ∙ s.there)
    ∙ ap (λ n. some n) (omega (arith, read))

read-other :
    (v : Volume) (cluster other value : ℕ) (d d' : Drive)
    → IsVolume v
    → HasEntry v cluster
    → HasEntry v other
    → other ≢ cluster
    → Stored v cluster value d d'
    → read_fat_entry v d' other ≡ read_fat_entry v d other
read-other v cluster other value d d' w hc ho ne s =
    let lba = fat_sector v 0 other in
    let as_before = same-usable lba d d' s.good in
    elim (Bool-cases (usable lba d)) [
      | inl u ↦
          read-usable v d' other (as_before ∙ u)
          ∙ ap (λ n. some (n % 2 ^ 28)) (entry-kept v cluster other value d d' w hc ho ne s)
          ∙ sym (read-usable v d other u)
      | inr u ↦ read-broken v d' other (as_before ∙ u) ∙ sym (read-broken v d other u)
    ]

-- On a volume that the drive holds, after a `write_fat_entry` that succeeds `read_fat_entry` answers
-- the 28 low bits of the value for that cluster, and for every other cluster what it answered before,
-- whatever number of copies the table has.
pub read_fat_entry-write_fat_entry :
    (v : Volume) (cluster other value : ℕ) (d : Drive)
    → IsVolume v
    → IsDrive d
    → HasEntry v cluster
    → HasEntry v other
    → (write_fat_entry v cluster value d).0 ≡ true
    → read_fat_entry v (write_fat_entry v cluster value d).1 other
      ≡ (if other == cluster then some (value % 2 ^ 28) else read_fat_entry v d other)
read_fat_entry-write_fat_entry v cluster other value d w f hc ho ok =
    elim (write_fat_entry-Stored v cluster value d w hc) [
      | inl failed ↦ absurd (true≢false (sym ok ∙ failed))
      | inr s ↦ elim (Bool-cases (other == cluster)) [
        | inl e ↦ rw e (
            ap (read_fat_entry v (write_fat_entry v cluster value d).1) ((==_iff other cluster).0 e)
            ∙ read-same v cluster value d _ f s)
        | inr e ↦ rw e (
            read-other v cluster other value d _ w hc ho
              (λ g. true≢false (sym ((==_iff _ _).1 g) ∙ e)) s)
      ]
    ]
