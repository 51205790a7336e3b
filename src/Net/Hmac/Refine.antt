-- ===== src/Net/Hmac/Refine.antt =====
-- drivers/net.c: the key derivation makes the bytes of the standard.
use mathlib.Core.List.{append-nil}
use minerva_os.Base.{
  ℕ, zero, suc, ◌+◌, ◌-◌, ◌*◌, ◌/◌, ◌^◌, ◌≤◌, ◌<◌, ◌≡◌, refl, sym, ap, ap₂, ◌∙◌, List, [], ◌∷◌,
  ◌++◌, none, some, if◌then◌else◌, inl, inr, ltb, leb, Bool-cases, true, false, map, take, length,
  bit_xor, arith, length-append, length-replicate, leb→le, ltb→lt, not_ltb→le,
}
use minerva_os.Base.Cuts.{take-append, take_all, length-map}
use minerva_os.Sha256.{sha256_hash, sha256_init, output, transform_state, store_be32}
use minerva_os.Sha256.Reference.{sha256, digest, pad}
use minerva_os.Sha256.Digest.{sha256_hash_lem}
use minerva_os.Net.Hmac.{key_block, net_hmac_sha256, prf_loop, net_tls_prf_sha256}
use minerva_os.Net.Hmac.Reference.{hash, block_key, hmac, chain, p_hash}

length-digest : (n : ℕ) (state m : List ℕ) → length state ≡ 8 → length (digest n state m) ≡ 8
unfolding digest transform_state
length-digest zero state m e = e
length-digest (suc n) state m e = length-digest n _ _ refl

length-output : (words : List ℕ) → length (output words) ≡ 4 * length words
unfolding output store_be32
length-output [] = refl
length-output (w ∷ words) = omega (arith, length-output words)

pub length-hash : (m : List ℕ) → length (hash m) ≡ 32
unfolding sha256 sha256_init
length-hash m =
    length-output (digest (length (pad m) / 64) (sha256_init []).state (pad m))
    ∙ ap (λ n. 4 * n) (length-digest (length (pad m) / 64) (sha256_init []).state (pad m) refl)

-- The code's hash is the reference's, whatever the stack holds.
pub sha256_hash-hash :
    (buffer m : List ℕ) → length buffer ≡ 64 → length m < 2 ^ 32 → sha256_hash buffer m ≡ hash m
unfolding sha256_init
sha256_hash-hash buffer m room small = sha256_hash_lem buffer m room small

key_block-block_key :
    (buffer key : List ℕ)
    → length buffer ≡ 64
    → length key < 2 ^ 32
    → key_block buffer key ≡ block_key key
key_block-block_key buffer key room small = elim (Bool-cases (ltb 64 (length key))) [
  | inl e ↦
      rw (e, ltb-leb (length key) e, sha256_hash-hash buffer key room small, length-hash key) refl
  | inr e ↦ rw (e, ltb-leb' (length key) e) refl
]
  where
    ltb-leb : (n : ℕ) → ltb 64 n ≡ true → leb n 64 ≡ false
    ltb-leb n e = ground arith

    ltb-leb' : (n : ℕ) → ltb 64 n ≡ false → leb n 64 ≡ true
    ltb-leb' n e = ground arith

length-block_key : (key : List ℕ) → length (block_key key) ≡ 64
length-block_key key = elim (Bool-cases (leb (length key) 64)) [
  | inl e ↦ rw e (
      length-append key _
      ∙ omega (arith, leb→le (length key) 64 e, length-replicate {A = ℕ} (64 - length key) 0))
  | inr e ↦ rw (e, length-hash key) (length-append (hash key) _ ∙ omega (arith, length-hash key))
]

length-hmac : (key text : List ℕ) → length (hmac key text) ≡ 32
unfolding hmac
length-hmac key text = length-hash _

-- On text of at most 160 bytes the code's HMAC is the reference's.
net_hmac_sha256-hmac :
    (buffer key text : List ℕ)
    → length buffer ≡ 64
    → length key < 2 ^ 32
    → length text ≤ 160
    → net_hmac_sha256 buffer key text ≡ hmac key text
unfolding net_hmac_sha256 hmac
net_hmac_sha256-hmac buffer key text room small short =
    let pad_with = λ (c : ℕ). map (λ b. bit_xor b c) (block_key key) in
    let inner = pad_with 0x36 ++ text in
    let inner_len : length inner ≡ 64 + length text =
      length-append (pad_with 0x36) text
      ∙ omega (arith, length-map (λ b. bit_xor b 0x36) (block_key key), length-block_key key) in
    let outer = pad_with 0x5C ++ hash inner in
    let outer_len : length outer ≡ 96 =
      length-append (pad_with 0x5C) (hash inner)
      ∙ omega (
        arith,
        length-map (λ b. bit_xor b 0x5C) (block_key key),
        length-block_key key,
        length-hash inner,
      ) in
    rw
      (
        key_block-block_key buffer key room small,
        whole (length text) short,
        take_all (length text) text refl,
        sha256_hash-hash buffer inner room (omega (arith, inner_len)),
      )
      (sha256_hash-hash buffer outer room (omega (arith, outer_len)))
  where
    whole : (n : ℕ) → n ≤ 160 → (if ltb 160 n then 160 else n) ≡ n
    whole n h = ground arith

-- A block of which `copy` bytes are taken, and the bytes behind it.
take-block :
    (want : ℕ) (block rest : List ℕ)
    → length block ≡ 32
    → let copy = if ltb 32 want then 32 else want in
      take copy block ++ take (want - copy) rest ≡ take want (block ++ rest)
take-block want block rest e = elim (Bool-cases (ltb 32 want)) [
  | inl long ↦ rw long (
      ap₂ (λ b r. b ++ r) (take_all 32 block e) refl
      ∙ sym (
          take-over want block rest (omega (arith, e, ltb→lt 32 want long)) (ap (λ n. want - n) e)))
  | inr few ↦
      rw (few, self-sub want)
        (append-nil (take want block)
          ∙ sym (take-append want block rest (omega (arith, e, not_ltb→le 32 want few))))
]
  where
    self-sub : (n : ℕ) → n - n ≡ 0
    self-sub n = omega arith

    take-over :
        (n : ℕ) (xs ys : List ℕ) {m : ℕ}
        → length xs ≤ n
        → n - length xs ≡ m
        → take n (xs ++ ys) ≡ xs ++ take m ys
    take-over n [] ys h e = ap (λ k. take k ys) (omega (arith, e))
    take-over zero (x ∷ xs) ys h e = absurd (omega arith)
    take-over (suc n) (x ∷ xs) ys h e =
        ap (λ l. x ∷ l) (take-over n xs ys (omega arith) (omega (arith, e)))

module _ (buffer secret seed : List ℕ) (room : length buffer ≡ 64) (small : length secret < 2 ^ 32)
    (short : length seed ≤ 128) where
  prf_loop-p_hash :
      (n want i : ℕ)
      → want ≤ 32 * n
      → prf_loop n want buffer secret seed (chain secret seed (suc i))
        ≡ take want (p_hash n i secret seed)
  unfolding prf_loop p_hash chain
  prf_loop-p_hash zero zero i h = refl
  prf_loop-p_hash zero (suc want) i h = absurd (omega arith)
  prf_loop-p_hash (suc n) want i h =
      let a = chain secret seed (suc i) in
      let a_len : length a ≡ 32 = length-hmac secret (chain secret seed i) in
      let block = hmac secret (a ++ seed) in
      let rest =
        prf_loop-p_hash n (want - (if ltb 32 want then 32 else want)) (suc i) (left want n h) in
      rw
        (
          net_hmac_sha256-hmac buffer secret (a ++ seed) room small
              (omega (arith, length-append a seed, a_len)),
          net_hmac_sha256-hmac buffer secret a room small (omega (arith, a_len)),
          rest,
        )
        (take-block want block (p_hash n (suc i) secret seed) (length-hmac secret (a ++ seed)))
    where
      left : (want n : ℕ) → want ≤ 32 * suc n → want - (if ltb 32 want then 32 else want) ≤ 32 * n
      left want n h = ground arith

  prf_loop-start :
      (want : ℕ)
      → prf_loop ((want + 31) / 32) want buffer secret seed (hmac secret seed)
        ≡ take want (p_hash ((want + 31) / 32) 0 secret seed)
  unfolding chain
  prf_loop-start want = prf_loop-p_hash ((want + 31) / 32) want 0 (omega arith)

-- For a secret of fewer than 2 ^ 32 bytes and whatever 64 bytes the stack holds: with a label and a seed
-- of at most 128 bytes together, `net_tls_prf_sha256` writes the first `out_len` bytes of the standard's
-- P_hash of the secret and the label with the seed; longer ones leave `out` as it is.
pub net_tls_prf_sha256_lem :
    (buffer secret label seed : List ℕ) (out_len : ℕ)
    → length buffer ≡ 64
    → length secret < 2 ^ 32
    → net_tls_prf_sha256 buffer secret label seed out_len ≡ (
        if leb (length label + length seed) 128
        then some (take out_len (p_hash ((out_len + 31) / 32) 0 secret (label ++ seed)))
        else none)
unfolding net_tls_prf_sha256
net_tls_prf_sha256_lem buffer secret label seed out_len room small =
    elim (Bool-cases (ltb 128 (length label + length seed))) [
      | inl e ↦ rw (e, flip (length label + length seed) e) refl
      | inr e ↦
          let short : length (label ++ seed) ≤ 128 =
            omega
              (arith, length-append label seed, not_ltb→le 128 (length label + length seed) e) in
          rw
            (
              e,
              flip' (length label + length seed) e,
              net_hmac_sha256-hmac buffer secret (label ++ seed) room small (omega (arith, short)),
            )
            (ap some (prf_loop-start buffer secret (label ++ seed) room small short out_len))
    ]
  where
    flip : (n : ℕ) → ltb 128 n ≡ true → leb n 128 ≡ false
    flip n e = ground arith

    flip' : (n : ℕ) → ltb 128 n ≡ false → leb n 128 ≡ true
    flip' n e = ground arith
