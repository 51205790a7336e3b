-- ===== src/Fs/Names/Short.antt =====
-- fs/fat32.c: a name that `make_short_name_checked` accepts is one and the same for the whole driver.
use mathlib.Core.List.{append_assoc, append-nil, map}
use minerva_os.Base.{
  ℕ, zero, suc, ◌+◌, ◌-◌, ◌≡◌, ◌≢◌, ◌<◌, ◌⊎◌, inl, inr, refl, sym, ap, ◌∙◌, true, false, not, ◌||◌,
  ◌==◌, leb, ltb, List, [], ◌∷◌, ◌++◌, none, some, replicate, set, get_or, length, length-append,
  arith, All, Bool-cases, ==_iff, lt→ltb, false≢true,
}
use minerva_os.Fs.Names.{
  space, dot, upper_ascii, valid_short_name_char, base_loop, ext_loop, checked_base, checked_ext,
  copy_loop,
}
use minerva_os.Base.Cuts.{set-append}

-- A character that both parts of a name may have.
abbrev pub Fine : ℕ → Type 0
Fine c = (valid_short_name_char c ≡ true) × ((c == dot) ≡ false)

upper-Fine : (c : ℕ) → Fine c → upper_ascii c ≢ space
upper-Fine c h e = false≢true (rw e at h.0)

pub get_or-append : (q t : List ℕ) (i d : ℕ) → i ≡ length q → get_or (q ++ t) i d ≡ get_or t 0 d
get_or-append [] t i d e = ap (λ j. get_or t j d) e
get_or-append (x ∷ q) t zero d e = absurd (omega arith)
get_or-append (x ∷ q) t (suc i) d e = get_or-append q t i d (omega arith)

-- The field with a prefix `p` written and `k` spaces left before `tail`.
abbrev pub field_of : List ℕ → ℕ → List ℕ → List ℕ
field_of p k tail = p ++ (replicate k space ++ tail)

put :
    (p tail : List ℕ) (k i c : ℕ)
    → i ≡ length p
    → 0 < k
    → set (field_of p k tail) i c ≡ field_of (p ++ c ∷ []) (k - 1) tail
put p tail zero i c e h = absurd (omega arith)
put p tail (suc k) i c e h =
    let less : k ≡ suc k - 1 = omega arith in
    rw (← less) (
      set-append p (replicate (suc k) space ++ tail) i 0 c (omega arith)
      ∙ sym (append_assoc p (c ∷ []) _))

-- What the loop up to the dot reads and writes, in `make_short_name_checked` and in `make_short_name`.
pub record Base (cs p tail : List ℕ) (i k : ℕ) (r : List ℕ × ℕ × List ℕ) : Type 0 where
  pub base : List ℕ
  pub pad : ℕ
  pub split : cs ≡ base ++ r.0
  pub field : r.2 ≡ field_of (p ++ map upper_ascii base) pad tail
  pub len : r.1 ≡ i + length base
  pub full : length base + pad ≡ k
  pub fine : All Fine base
  pub stop : (r.0 ≡ []) ⊎ ((ext : List ℕ) × (r.0 ≡ dot ∷ ext))
  pub same : base_loop cs i (field_of p k tail) ≡ (r.0, r.2)

pub checked_base-Base :
    (cs p tail : List ℕ) (i k : ℕ)
    → i ≡ length p
    → i + k ≡ 8
    → (checked_base cs i (field_of p k tail) ≡ none)
      ⊎ ((r : List ℕ × ℕ × List ℕ) × (checked_base cs i (field_of p k tail) ≡ some r)
          × Base cs p tail i k r)
unfolding checked_base base_loop
checked_base-Base [] p tail i k e f = inr (
  _,
  refl,
  record {
    base = [];
    pad = k;
    split = refl;
    field = ap (λ l. field_of l k tail) (sym (append-nil p));
    len = omega arith;
    full = omega arith;
    fine = tt;
    stop = inl refl;
    same = refl;
  },
)
checked_base-Base (c ∷ cs) p tail i k e f = elim (Bool-cases (c == dot)) [
  | inl d ↦
      rw (checked_base, d)
        (inr (
          _,
          refl,
          record {
            base = [];
            pad = k;
            split = refl;
            field = ap (λ l. field_of l k tail) (sym (append-nil p));
            len = omega arith;
            full = omega arith;
            fine = tt;
            stop = inr (cs, ap (λ x. x ∷ cs) ((==_iff c dot).0 d));
            same = rw (base_loop, d) refl;
          },
        ))
  | inr d ↦ elim (Bool-cases (leb 8 i || not (valid_short_name_char c))) [
    | inl bad ↦ rw (checked_base, d, bad) (inl refl)
    | inr good ↦
        let room : i < 8 = ground (arith, good) in
        let valid : valid_short_name_char c ≡ true = ground (arith, good) in
        let w = put p tail k i (upper_ascii c) e (omega (arith, room, f)) in
        elim (checked_base-Base cs (p ++ upper_ascii c ∷ []) tail (i + 1) (k - 1)
          (omega (arith, e, length-append p (upper_ascii c ∷ []))) (omega (arith, f, room))) [
            | inl failed ↦ rw (checked_base, d, good, w) (inl failed)
            | inr (r, done, b) ↦
                rw (checked_base, d, good, w)
                  (inr (
                    r,
                    done,
                    record {
                      base = c ∷ b.base;
                      pad = b.pad;
                      split = ap (λ l. c ∷ l) b.split;
                      field =
                          b.field
                          ∙ ap (λ l. field_of l b.pad tail)
                              (append_assoc p (upper_ascii c ∷ []) (map upper_ascii b.base));
                      len = omega (arith, b.len);
                      full = omega (arith, b.full, f, room);
                      fine = ((valid, d), b.fine);
                      stop = b.stop;
                      same =
                          let low : ltb i 8 ≡ true = lt→ltb i 8 room in
                          rw (base_loop, d, low, w) b.same;
                    },
                  ))
          ]
  ]
]

-- The same for the loops behind the dot.
pub record Ext (cs q : List ℕ) (i k : ℕ) (r : ℕ × List ℕ) : Type 0 where
  pub pad : ℕ
  pub field : r.1 ≡ field_of (q ++ map upper_ascii cs) pad []
  pub len : r.0 ≡ i + length cs
  pub full : length cs + pad ≡ k
  pub fine : All Fine cs
  pub same : ext_loop cs (8 + i) (field_of q k []) ≡ r.1

pub checked_ext-Ext :
    (cs q : List ℕ) (i k : ℕ)
    → 8 + i ≡ length q
    → i + k ≡ 3
    → (checked_ext cs i (field_of q k []) ≡ none)
      ⊎ ((r : ℕ × List ℕ) × (checked_ext cs i (field_of q k []) ≡ some r) × Ext cs q i k r)
unfolding checked_ext ext_loop
checked_ext-Ext [] q i k e f = inr (
  _,
  refl,
  record {
    pad = k;
    field = ap (λ l. field_of l k []) (sym (append-nil q));
    len = omega arith;
    full = omega arith;
    fine = tt;
    same = refl;
  },
)
checked_ext-Ext (c ∷ cs) q i k e f =
    elim (Bool-cases (leb 3 i || c == dot || not (valid_short_name_char c))) [
      | inl bad ↦ rw (checked_ext, bad) (inl refl)
      | inr good ↦
          let room : i < 3 = ground (arith, good) in
          let valid : valid_short_name_char c ≡ true = ground (arith, good) in
          let plain : (c == dot) ≡ false = ground (arith, good) in
          let w = put q [] k (8 + i) (upper_ascii c) e (omega (arith, room, f)) in
          elim (checked_ext-Ext cs (q ++ upper_ascii c ∷ []) (i + 1) (k - 1)
            (omega (arith, e, length-append q (upper_ascii c ∷ []))) (omega (arith, f, room))) [
              | inl failed ↦ rw (checked_ext, good, w) (inl failed)
              | inr (r, done, b) ↦
                  rw (checked_ext, good, w)
                    (inr (
                      r,
                      done,
                      record {
                        pad = b.pad;
                        field =
                            b.field
                            ∙ ap (λ l. field_of l b.pad [])
                                (append_assoc q (upper_ascii c ∷ []) (map upper_ascii cs));
                        len = omega (arith, b.len);
                        full = omega (arith, b.full, f, room);
                        fine = ((valid, plain), b.fine);
                        same =
                            let low : ltb (8 + i) 11 ≡ true =
                              lt→ltb (8 + i) 11 (omega (arith, room)) in
                            let next : 8 + i + 1 ≡ 8 + (i + 1) = omega arith in
                            rw (ext_loop, low, w, next) b.same;
                      },
                    ))
            ]
    ]

-- Reading a part of the field up to its spaces gives what was written.
pub copy_loop_lem :
    (u q tail : List ℕ) (n k i : ℕ)
    → i ≡ length q
    → length u + k ≡ n
    → All (λ c. c ≢ space) u
    → copy_loop n i (q ++ (u ++ (replicate k space ++ tail))) ≡ u
unfolding copy_loop
copy_loop_lem [] q tail zero k i e f a = refl
copy_loop_lem [] q tail (suc n) zero i e f a = absurd (omega arith)
copy_loop_lem [] q tail (suc n) (suc k) i e f a =
    let g = get_or-append q (replicate (suc k) space ++ tail) i space e in rw (copy_loop, g) refl
copy_loop_lem (c ∷ u) q tail zero k i e f a = absurd (omega arith)
copy_loop_lem (c ∷ u) q tail (suc n) k i e f a =
    let g = get_or-append q ((c ∷ u) ++ (replicate k space ++ tail)) i space e in
    let solid : (c == space) ≡ false = ground (arith, a.0) in
    let rest =
      copy_loop_lem u (q ++ c ∷ []) tail n k (i + 1) (omega (arith, e, length-append q (c ∷ [])))
        (omega (arith, f)) a.1 in
    let shift = append_assoc q (c ∷ []) (u ++ (replicate k space ++ tail)) in
    rw (copy_loop, g, solid) (ap (λ l. c ∷ l) (rw shift at rest))

pub upper-solid : (cs : List ℕ) → All Fine cs → All (λ c. c ≢ space) (map upper_ascii cs)
upper-solid [] a = tt
upper-solid (c ∷ cs) a = (upper-Fine c a.0, upper-solid cs a.1)
