-- ===== src/Fs/Fat/Search.antt =====
-- fs/fat32.c: which cluster `find_free_cluster` answers.
use minerva_os.Base.{
  ℕ, zero, suc, ◌+◌, ◌-◌, ◌*◌, ◌/◌, ◌^◌, ◌<◌, ◌≤◌, ◌≡◌, ◌⊎◌, inl, inr, refl, ap, ◌∙◌, false, ◌==◌,
  leb, none, some, arith, ◌↔◌, Bool-cases, Option-cases, ==_iff,
}
use native.Mathlib.Nat.{le-div_iff_mul-le}
use minerva_os.Fs.Fat.{
  Drive, Volume, read_fat_entry, free_loop, find_free_cluster, max_cluster, total_sectors,
}

-- The sectors of the cluster `c`, of which the first is 2, lie on the volume.
abbrev pub Inside : Volume → ℕ → Type 0
Inside v c = v.data_start_lba + (c - 1) * v.bpb.sectors_per_cluster ≤ total_sectors v

-- `max_cluster` is behind the last cluster, when it fits a word.
Inside-iff :
    (v : Volume) (c : ℕ)
    → v.data_start_lba < total_sectors v
    → 0 < v.bpb.sectors_per_cluster
    → (total_sectors v - v.data_start_lba) / v.bpb.sectors_per_cluster + 2 < 2 ^ 32
    → 2 ≤ c
    → (c < max_cluster v) ↔ Inside v c
Inside-iff v c h p w l =
    let size = (total_sectors v - v.data_start_lba) / v.bpb.sectors_per_cluster in
    let max : max_cluster v ≡ size + 2 = omega (arith, w) in
    let law =
      le-div_iff_mul-le {k = v.bpb.sectors_per_cluster} {x = c - 1}
        {y = total_sectors v - v.data_start_lba} p in
    (
      λ k.
          let m : c - 1 ≤ size = omega (arith, k, max, l) in let n = law.0 m in omega (arith, n, h),
      λ k.
          let n : (c - 1) * v.bpb.sectors_per_cluster ≤ total_sectors v - v.data_start_lba =
            omega (arith, k) in
          let m : c - 1 ≤ size = law.1 n in omega (arith, m, max, l),
    )

-- The cluster `c` is the first free one from `first` on, and the entries before it could be read.
pub record FirstFree (v : Volume) (d : Drive) (first c : ℕ) : Type 0 where
  pub low : first ≤ c
  pub high : Inside v c
  pub free : read_fat_entry v d c ≡ some 0
  pub before : (i : ℕ) → first ≤ i → i < c → (n : ℕ) × (read_fat_entry v d i ≡ some (suc n))

-- There is none: up to a cluster that cannot be read, or up to the end, every entry is in use.
pub record NoneFree (v : Volume) (d : Drive) (first stop : ℕ) : Type 0 where
  pub low : first ≤ stop
  pub broken : ¬ Inside v stop ⊎ (Inside v stop × (read_fat_entry v d stop ≡ none))
  pub before : (i : ℕ) → first ≤ i → i < stop → (n : ℕ) × (read_fat_entry v d i ≡ some (suc n))

first_or {ℓ} : {A : Type ℓ} (k i : ℕ) → k ≤ i → (i ≡ k → A) → (k + 1 ≤ i → A) → A
first_or k i a f g = elim (Bool-cases (i == k)) [
  | inl h ↦ f ((==_iff i k).0 h)
  | inr h ↦ g (ground (arith, h, a))
]

free_loop-cases :
    (left cluster : ℕ) (v : Volume) (d : Drive)
    → ((c : ℕ) → 2 ≤ c → (c < max_cluster v) ↔ Inside v c)
    → 2 ≤ cluster
    → (cluster + left ≡ max_cluster v)
    → ((free_loop left cluster v d ≡ none) × ((stop : ℕ) × NoneFree v d cluster stop))
      ⊎ ((c : ℕ) × (free_loop left cluster v d ≡ some c) × FirstFree v d cluster c)
unfolding free_loop
free_loop-cases zero cluster v d law l e = inl (
  refl,
  (
    cluster,
    record {
      low = omega arith;
      broken = inl (λ i. omega (arith, e, (law cluster l).1 i));
      before = λ i a b. absurd (omega arith);
    },
  ),
)
free_loop-cases (suc left) cluster v d law l e = elim (Option-cases (read_fat_entry v d cluster)) [
  | inl r ↦
      rw (free_loop, r)
        (inl (
          refl,
          (
            cluster,
            record {
              low = omega arith;
              broken = inr ((law cluster l).0 (omega (arith, e)), r);
              before = λ i a b. absurd (omega arith);
            },
          ),
        ))
  | inr (zero, r) ↦
      rw (free_loop, r)
        (inr (
          cluster,
          refl,
          record {
            low = omega arith;
            high = (law cluster l).0 (omega (arith, e));
            free = r;
            before = λ i a b. absurd (omega arith);
          },
        ))
  | inr (suc n, r) ↦
      let used : (i : ℕ) → i ≡ cluster → (m : ℕ) × (read_fat_entry v d i ≡ some (suc m)) =
        λ i h. (n, ap (read_fat_entry v d) h ∙ r) in
      let full : (suc n == 0) ≡ false = ground arith in
      elim (free_loop-cases left (cluster + 1) v d law (omega (arith, l)) (omega (arith, e))) [
        | inl (q, (stop, x)) ↦
            rw (free_loop, r, full)
              (inl (
                q,
                (
                  stop,
                  record {
                    low = omega (arith, x.low);
                    broken = x.broken;
                    before = λ i a b. first_or cluster i a (used i) (λ l. x.before i l b);
                  },
                ),
              ))
        | inr (c, q, x) ↦
            rw (free_loop, r, full)
              (inr (
                c,
                q,
                record {
                  low = omega (arith, x.low);
                  high = x.high;
                  free = x.free;
                  before = λ i a b. first_or cluster i a (used i) (λ l. x.before i l b);
                },
              ))
      ]
]

-- On a volume with data sectors and clusters of at least one, whose last cluster number plus one fits a
-- word, `find_free_cluster` answers the first cluster from 2 on whose entry is 0, and its sectors lie on
-- the volume; or it fails: then every entry from 2 up to the first cluster that does not lie on the
-- volume, or up to one that the drive cannot read, is in use.
pub find_free_cluster-cases :
    (v : Volume) (d : Drive)
    → v.data_start_lba < total_sectors v
    → 0 < v.bpb.sectors_per_cluster
    → (total_sectors v - v.data_start_lba) / v.bpb.sectors_per_cluster + 2 < 2 ^ 32
    → ((find_free_cluster v d ≡ none) × ((stop : ℕ) × NoneFree v d 2 stop))
      ⊎ ((c : ℕ) × (find_free_cluster v d ≡ some c) × FirstFree v d 2 c)
unfolding find_free_cluster
find_free_cluster-cases v d h p w =
    let some_data : leb (total_sectors v) v.data_start_lba ≡ false = ground (arith, h) in
    rw (find_free_cluster, some_data)
      (free_loop-cases (max_cluster v - 2) 2 v d (λ c l. Inside-iff v c h p w l) (omega arith)
        (omega (arith, w)))
