-- ===== src/Fs/Fat/Chain.antt =====
-- fs/fat32.c: `free_cluster_chain` frees the clusters of the chain and no other.
use minerva_os.Base.{
  ℕ, zero, suc, ◌+◌, ◌*◌, ◌<◌, ◌≤◌, ◌≡◌, inl, inr, refl, sym, ap, ◌∙◌, Bool, true, false, ◌&&◌,
  ◌||◌, if◌then◌else◌, ◌==◌, leb, ltb, List, [], ◌∷◌, length, Option, some, arith, Bool-cases,
  Option-cases, true≢false,
}
use minerva_os.Fs.Bytes.{wr32}
use minerva_os.Fs.Bytes.RoundTrip.{length-wr32}
use minerva_os.Fs.Fat.{
  Drive, Volume, usable, fat32_eoc, fat_sector, entry_offset, ata_read_sector, ata_write_sector,
  read_fat_entry, write_loop, write_fat_entry, max_cluster, total_sectors, chain_loop,
  free_cluster_chain,
}
use minerva_os.Fs.Fat.Entries.{IsVolume, IsDrive, HasEntry}
use minerva_os.Fs.Fat.RoundTrip.{read_fat_entry-write_fat_entry}

written-IsDrive :
    (lba : ℕ) (bytes : List ℕ) (d : Drive)
    → IsDrive d
    → length bytes ≡ 512
    → IsDrive (ata_write_sector lba bytes d).1
unfolding ata_write_sector
written-IsDrive lba bytes d h e i = elim (Bool-cases (usable lba d)) [
  | inr u ↦ rw u (h i)
  | inl u ↦ elim (Bool-cases (i == lba)) [ inl s ↦ rw (u, s) e | inr s ↦ rw (u, s) (h i) ]
]

write_loop-IsDrive :
    (left fat : ℕ) (v : Volume) (cluster value : ℕ) (d : Drive)
    → IsDrive d
    → IsDrive (write_loop left fat v cluster value d).1
unfolding write_loop ata_read_sector
write_loop-IsDrive zero fat v cluster value d h = h
write_loop-IsDrive (suc left) fat v cluster value d h =
    let s = fat_sector v fat cluster in
    let bytes = wr32 (d.sectors s) (entry_offset cluster) value in
    let next =
      written-IsDrive s bytes d h (length-wr32 (d.sectors s) (entry_offset cluster) value ∙ h s) in
    elim (Bool-cases (usable s d)) [
      | inr u ↦ rw (write_loop, u) h
      | inl u ↦ elim (Bool-cases (ata_write_sector s bytes d).0) [
        | inl y ↦ rw (write_loop, u, y) (write_loop-IsDrive left (fat + 1) v cluster value _ next)
        | inr n ↦ rw (write_loop, u, n) next
      ]
    ]

pub write_fat_entry-IsDrive :
    (v : Volume) (cluster value : ℕ) (d : Drive)
    → IsDrive d
    → IsDrive (write_fat_entry v cluster value d).1
unfolding write_fat_entry
write_fat_entry-IsDrive v cluster value d h =
    write_loop-IsDrive v.bpb.fat_count 0 v cluster value d h

abbrev pub member : ℕ → List ℕ → Bool
member x [] = false
member x (y ∷ ys) = x == y || member x ys

-- The clusters that the loop is about, as C tests them.
abbrev pub in_chain : ℕ → Bool
in_chain cluster = leb 2 cluster && ltb cluster fat32_eoc

-- The table of `d` with the clusters of a list freed.
abbrev pub freed_entry : Volume → Drive → List ℕ → ℕ → Option ℕ
freed_entry v d seen cluster = if member cluster seen then some 0 else read_fat_entry v d cluster

-- The clusters that come one after another from `cluster` on, up to one that is not in the chain,
-- each read when those before it are free.
abbrev pub Trail : Volume → Drive → List ℕ → ℕ → List ℕ → Type 0
Trail v d seen cluster [] = in_chain cluster ≡ false
Trail v d seen cluster (c ∷ cs) =
    (c ≡ cluster)
    × (in_chain cluster ≡ true)
    × (cluster < max_cluster v)
    × ((next : ℕ) × (freed_entry v d seen cluster ≡ some next) × Trail v d (cluster ∷ seen) next cs)

if_or {ℓ} :
    {A : Type ℓ} (a b : Bool) (x y : A)
    → (if a then x else (if b then x else y)) ≡ (if a || b then x else y)
if_or true b x y = refl
if_or false b x y = refl

or_shift : (a b c : Bool) → ((a || b) || c) ≡ (b || (a || c))
or_shift true true c = refl
or_shift true false c = refl
or_shift false b c = refl

-- What the loop leaves, with the clusters of `seen` freed before it.
pub record Ends (v : Volume) (start : Drive) (seen : List ℕ) (cluster : ℕ) (d' : Drive)
    : Type 0 where
  pub clusters : List ℕ
  pub trail : Trail v start seen cluster clusters
  pub table :
      (other : ℕ)
      → HasEntry v other
      → read_fat_entry v d' other ≡ (
          if member other seen || member other clusters
          then some 0
          else read_fat_entry v start other)

or_false : (a : Bool) → a ≡ (a || false)
or_false true = refl
or_false false = refl

-- The table so far, as the loop finds it.
abbrev Matches : Volume → Drive → List ℕ → Drive → Type 0
Matches v start seen d =
    (other : ℕ) → HasEntry v other → read_fat_entry v d other ≡ freed_entry v start seen other

stop-Ends :
    (v : Volume) (start d : Drive) (seen : List ℕ) (cluster : ℕ)
    → in_chain cluster ≡ false
    → Matches v start seen d
    → Ends v start seen cluster d
stop-Ends v start d seen cluster e t = record {
  clusters = [];
  trail = e;
  table = λ other h.
      t other h
      ∙ ap (λ b. if b then some 0 else read_fat_entry v start other) (or_false (member other seen));
}

-- One more cluster freed.
free-Matches :
    (v : Volume) (start d : Drive) (seen : List ℕ) (cluster : ℕ)
    → IsVolume v
    → IsDrive d
    → HasEntry v cluster
    → (write_fat_entry v cluster 0 d).0 ≡ true
    → Matches v start seen d
    → Matches v start (cluster ∷ seen) (write_fat_entry v cluster 0 d).1
free-Matches v start d seen cluster w f e ok t other h =
    read_fat_entry-write_fat_entry v cluster other 0 d w f e h ok
    ∙ ap (λ r. if other == cluster then some 0 else r) (t other h)
    ∙ if_or (other == cluster) (member other seen) (some 0) (read_fat_entry v start other)

step-Ends :
    (v : Volume) (start d' : Drive) (seen : List ℕ) (cluster next : ℕ)
    → in_chain cluster ≡ true
    → cluster < max_cluster v
    → freed_entry v start seen cluster ≡ some next
    → Ends v start (cluster ∷ seen) next d'
    → Ends v start seen cluster d'
step-Ends v start d' seen cluster next i l r x = record {
  clusters = cluster ∷ x.clusters;
  trail = (refl, i, l, (next, r, x.trail));
  table = λ other h.
      x.table other h
      ∙ ap (λ b. if b then some 0 else read_fat_entry v start other)
          (or_shift (other == cluster) (member other seen) (member other x.clusters));
}

chain_loop-Ends :
    (left cluster : ℕ) (v : Volume) (start d : Drive) (seen : List ℕ)
    → IsVolume v
    → IsDrive d
    → max_cluster v ≤ 128 * v.bpb.fat_size_32
    → Matches v start seen d
    → (chain_loop left cluster v d).0 ≡ true
    → Ends v start seen cluster (chain_loop left cluster v d).1
unfolding chain_loop
chain_loop-Ends zero cluster v start d seen w f m t ok = elim (Bool-cases (in_chain cluster)) [
  | inl i ↦ absurd (true≢false (sym (rw (chain_loop, i) at ok)))
  | inr o ↦ stop-Ends v start d seen cluster o t
]
chain_loop-Ends (suc left) cluster v start d seen w f m t ok =
    let d' = (write_fat_entry v cluster 0 d).1 in
    elim (Bool-cases (in_chain cluster)) [
      | inr o ↦ elim (Option-cases (read_fat_entry v d cluster)) [
        | inl r ↦ rw (chain_loop, r) (stop-Ends v start d seen cluster o t)
        | inr (next, r) ↦ rw (chain_loop, r, o) (stop-Ends v start d seen cluster o t)
      ]
      | inl i ↦ elim (Option-cases (read_fat_entry v d cluster)) [
        | inl r ↦ absurd (true≢false (sym (rw (chain_loop, r, i) at ok)))
        | inr (next, r) ↦ elim (Bool-cases (leb (max_cluster v) cluster)) [
          | inl big ↦ absurd (true≢false (sym (rw (chain_loop, r, i, big) at ok)))
          | inr fits ↦
              let small : cluster < max_cluster v = ground (arith, fits) in
              let entry : HasEntry v cluster = omega (arith, small, m) in
              elim (Bool-cases (write_fat_entry v cluster 0 d).0) [
                | inr failed ↦ absurd (true≢false (sym (rw (chain_loop, r, i, fits, failed) at ok)))
                | inl done ↦
                    rw (chain_loop, r, i, fits, done)
                      (step-Ends v start (chain_loop left next v d').1 seen cluster next i small
                        (sym (t cluster entry) ∙ r)
                        (chain_loop-Ends left next v start d' (cluster ∷ seen) w
                          (write_fat_entry-IsDrive v cluster 0 d f) m
                          (free-Matches v start d seen cluster w f entry done t)
                          (rw (chain_loop, r, i, fits, done) at ok)))
              ]
        ]
      ]
    ]

-- When `free_cluster_chain` succeeds on a volume whose table covers its clusters, the clusters that
-- follow one another from the first, up to an entry that names no cluster, are free in the table, and
-- every other entry is as it was.
pub free_cluster_chain-Ends :
    (v : Volume) (cluster : ℕ) (d : Drive)
    → IsVolume v
    → IsDrive d
    → max_cluster v ≤ 128 * v.bpb.fat_size_32
    → (free_cluster_chain v cluster d).0 ≡ true
    → Ends v d [] cluster (free_cluster_chain v cluster d).1
unfolding free_cluster_chain
free_cluster_chain-Ends v cluster d w f m ok =
    elim (Bool-cases (leb (total_sectors v) v.data_start_lba)) [
      | inl none_there ↦ absurd (true≢false (sym (rw (free_cluster_chain, none_there) at ok)))
      | inr there ↦
          rw (free_cluster_chain, there)
            (chain_loop-Ends (max_cluster v) cluster v d d [] w f m (λ other h. refl)
              (rw (free_cluster_chain, there) at ok))
    ]
