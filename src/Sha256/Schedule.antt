-- ===== src/Sha256/Schedule.antt =====
-- drivers/sha256.c: the message schedule that `sha256_transform` fills in place satisfies the
-- standard's recurrence, read off the finished array.
use minerva_os.Base.{
  ℕ, ◌/◌, All, zero, suc, ◌+◌, ◌-◌, ◌*◌, ◌%◌, ◌^◌, ◌<◌, ◌≤◌, ◌≡◌, ◌≢◌, refl, sym, ap, ◌∙◌, List,
  length, set, get_or, arith, length-set, bit_xor, get_or-set_self, get_or-set_ne, replicate, inl,
  inr, ◌⊎◌, ltb, if◌then◌else◌, Bool-cases,
}
use minerva_os.Base.Bits.{shr}
use minerva_os.Sha256.Words.{
  rotated, word_at, rotr32-7, rotr32-18, rotr32-17, rotr32-19, byte_at, load_be32-word_at, shift_3,
  shift_10,
}
use minerva_os.Sha256.{schedule, load_loop, extend_loop, load_be32, rotr32}

decide_eq : (i t : ℕ) → (i ≡ t) ⊎ (i ≢ t)
decide_eq i t = ground arith

-- The word that the standard puts at `t`.
unfoldable pub next_word : List ℕ → ℕ → ℕ
next_word w t =
    let w15 = get_or w (t - 15) 0 in
    let w2 = get_or w (t - 2) 0 in
    let s0 = bit_xor (bit_xor (rotr32 w15 7) (rotr32 w15 18)) (shr w15 3) in
    let s1 = bit_xor (bit_xor (rotr32 w2 17) (rotr32 w2 19)) (shr w2 10) in
    (get_or w (t - 16) 0 + s0 + get_or w (t - 7) 0 + s1) % 2 ^ 32

-- It reads four earlier words only.
next_word_local :
    (v w : List ℕ) (t : ℕ)
    → 16 ≤ t
    → ((j : ℕ) → j < t → get_or v j 0 ≡ get_or w j 0)
    → next_word v t ≡ next_word w t
unfolding next_word
next_word_local v w t h e =
    rw
      (
        e (t - 16) (omega arith),
        e (t - 15) (omega arith),
        e (t - 7) (omega arith),
        e (t - 2) (omega arith),
      )
      refl

extend_loop-step :
    (n i : ℕ) (w : List ℕ)
    → extend_loop (suc n) i w ≡ extend_loop n (i + 1) (set w i (next_word w i))
unfolding extend_loop next_word rotr32
extend_loop-step n i w = refl

extend_loop-kept :
    (n i : ℕ) (w : List ℕ) (j : ℕ) → j < i → get_or (extend_loop n i w) j 0 ≡ get_or w j 0
unfolding extend_loop
extend_loop-kept zero i w j h = refl
extend_loop-kept (suc n) i w j h =
    ap (λ l. get_or l j 0) (extend_loop-step n i w)
    ∙ extend_loop-kept n (i + 1) (set w i (next_word w i)) j (omega arith)
    ∙ get_or-set_ne w i j (next_word w i) 0 (λ e. omega arith)

extend_loop_lem :
    (n i : ℕ) (w : List ℕ) (t : ℕ)
    → 16 ≤ i
    → i ≤ t
    → t < i + n
    → i + n ≤ length w
    → get_or (extend_loop n i w) t 0 ≡ next_word (extend_loop n i w) t
extend_loop_lem zero i w t h lo hi room = absurd (omega arith)
extend_loop_lem (suc n) i w t h lo hi room =
    let w' = set w i (next_word w i) in
    let done = extend_loop n (i + 1) w' in
    let early = λ (j : ℕ) (b : j < i).
      extend_loop-kept n (i + 1) w' j (omega arith)
      ∙ get_or-set_ne w i j (next_word w i) 0 (λ e. omega arith) in
    rw (extend_loop-step n i w) (elim (decide_eq i t) [
      | inl e ↦ rw (← e) (
          extend_loop-kept n (i + 1) w' i (omega arith)
          ∙ get_or-set_self w i (next_word w i) 0 (omega arith)
          ∙ sym (next_word_local done w i h early))
      | inr ne ↦
          extend_loop_lem n (i + 1) w' t (omega arith) (omega arith) (omega arith)
            (omega (arith, length-set w i (next_word w i)))
    ])

load_loop-kept :
    (n i : ℕ) (block w : List ℕ) (j : ℕ) → j < i → get_or (load_loop n i block w) j 0 ≡ get_or w j 0
unfolding load_loop
load_loop-kept zero i block w j h = refl
load_loop-kept (suc n) i block w j h =
    load_loop-kept n (i + 1) block (set w i (load_be32 block (i * 4))) j (omega arith)
    ∙ get_or-set_ne w i j _ 0 (λ e. omega arith)

load_loop_lem :
    (n i : ℕ) (block w : List ℕ) (t : ℕ)
    → i ≤ t
    → t < i + n
    → i + n ≤ length w
    → get_or (load_loop n i block w) t 0 ≡ load_be32 block (t * 4)
unfolding load_loop
load_loop_lem zero i block w t lo hi room = absurd (omega arith)
load_loop_lem (suc n) i block w t lo hi room =
    let w' = set w i (load_be32 block (i * 4)) in
    elim (decide_eq i t) [
      | inl e ↦ rw (← e) (
          load_loop-kept n (i + 1) block w' i (omega arith)
          ∙ get_or-set_self w i (load_be32 block (i * 4)) 0 (omega arith))
      | inr ne ↦
          load_loop_lem n (i + 1) block w' t (omega arith) (omega arith)
            (omega (arith, length-set w i (load_be32 block (i * 4))))
    ]

length-load_loop : (n i : ℕ) (block w : List ℕ) → length (load_loop n i block w) ≡ length w
unfolding load_loop
length-load_loop zero i block w = refl
length-load_loop (suc n) i block w = length-load_loop n (i + 1) block _ ∙ length-set w i _

-- The sum of the standard for the word `t`, from four earlier words of `w`.
abbrev pub standard_word : List ℕ → ℕ → ℕ
standard_word w t =
    let w15 = get_or w (t - 15) 0 in
    let w2 = get_or w (t - 2) 0 in
    let s0 = bit_xor (bit_xor (rotated w15 7) (rotated w15 18)) (w15 / 2 ^ 3) in
    let s1 = bit_xor (bit_xor (rotated w2 17) (rotated w2 19)) (w2 / 2 ^ 10) in
    (get_or w (t - 16) 0 + s0 + get_or w (t - 7) 0 + s1) % 2 ^ 32

next_word-standard_word :
    (w : List ℕ) (t : ℕ)
    → get_or w (t - 15) 0 < 2 ^ 32
    → get_or w (t - 2) 0 < 2 ^ 32
    → next_word w t ≡ standard_word w t
unfolding next_word
next_word-standard_word w t h k =
    rw
      (
        shift_3 (get_or w (t - 15) 0),
        shift_10 (get_or w (t - 2) 0),
        rotr32-7 (get_or w (t - 15) 0) h,
        rotr32-18 (get_or w (t - 15) 0) h,
        rotr32-17 (get_or w (t - 2) 0) k,
        rotr32-19 (get_or w (t - 2) 0) k,
      )
      refl

schedule-next_word :
    (block : List ℕ) (t : ℕ)
    → t < 64
    → get_or (schedule block) t 0
      ≡ (if ltb t 16 then load_be32 block (t * 4) else next_word (schedule block) t)
unfolding schedule
schedule-next_word block t h =
    let loaded = load_loop 16 0 block (replicate 64 0) in
    let size : length loaded ≡ 64 = length-load_loop 16 0 block (replicate 64 0) in
    elim (Bool-cases (ltb t 16)) [
      | inl e ↦ rw e (
          extend_loop-kept 48 16 loaded t (ground (arith, e))
          ∙ load_loop_lem 16 0 block (replicate 64 0) t (omega arith) (ground (arith, e))
              (omega arith))
      | inr e ↦
          rw e (
            extend_loop_lem 48 16 loaded t (omega arith) (ground (arith, e)) h
              (omega (arith, size)))
    ]

schedule-lt :
    (block : List ℕ) (t : ℕ)
    → All (λ b. b < 2 ^ 8) block
    → t < 64
    → get_or (schedule block) t 0 < 2 ^ 32
unfolding next_word
schedule-lt block t h l = rw (schedule-next_word block t l) (elim (Bool-cases (ltb t 16)) [
  | inl e ↦
      rw (e, load_be32-word_at block (t * 4) h)
        (omega (
          arith,
          byte_at block (t * 4) h,
          byte_at block (t * 4 + 1) h,
          byte_at block (t * 4 + 2) h,
          byte_at block (t * 4 + 3) h,
        ))
  | inr e ↦ rw e (omega arith)
])

-- For a block of bytes, the first sixteen words of the schedule are the block's, high byte first, and each
-- of the other 48 is the standard's sum of four earlier words of the same schedule, with the rotations
-- and shifts as arithmetic on 32-bit words.
pub schedule_lem :
    (block : List ℕ) (t : ℕ)
    → All (λ b. b < 2 ^ 8) block
    → t < 64
    → get_or (schedule block) t 0
      ≡ (if ltb t 16 then word_at block (t * 4) else standard_word (schedule block) t)
schedule_lem block t h l = elim (Bool-cases (ltb t 16)) [
  | inl e ↦ schedule-next_word block t l ∙ rw e (load_be32-word_at block (t * 4) h)
  | inr e ↦
      schedule-next_word block t l
      ∙ rw e (
          next_word-standard_word (schedule block) t
            (schedule-lt block (t - 15) h (omega (arith, l)))
            (schedule-lt block (t - 2) h (omega (arith, l))))
]
