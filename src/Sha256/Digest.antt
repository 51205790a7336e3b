-- ===== src/Sha256/Digest.antt =====
-- drivers/sha256.c: `sha256_final` pads as the standard says, and `sha256_hash` is its digest.
use mathlib.Core.List.{append_assoc, append-nil}
use minerva_os.Base.{
  ℕ, suc, ◌+◌, ◌-◌, ◌*◌, ◌^◌, ◌<◌, ◌≤◌, ◌≡◌, refl, sym, ap, ap₂, ◌∙◌, List, [], ◌∷◌, ◌++◌, length,
  set, arith, length-append, length-replicate, inl, inr, Bool-cases, ltb, replicate,
}
use minerva_os.Sha256.{
  Context, sha256_init, sha256_final, sha256_hash, sha256_transform, transform_state, finish,
  output, zero_loop,
}
use minerva_os.Base.Cuts.{drop, drop_all, length-drop}
use minerva_os.Sha256.Buffer.{zero_loop_lem, length-be_bytes}
use minerva_os.Sha256.Reference.{sha256, pad, be_bytes, digest-append}
use minerva_os.Sha256.Stream.{Holds, put_byte, sha256_init-Holds, sha256_update-Holds}
use minerva_os.Sha256.Padding.{finish_lem, replicate-add, pad-split, sha256-blocks}

-- `sha256_final` where the padding stays in the block of the last bytes, ...
final_short :
    (start m : List ℕ) (ctx : Context) (h : Holds start m ctx)
    → length m < 2 ^ 32
    → length h.pending < 56
    → output
        (finish
          (ctx.buffer_len + 1)
          (record ctx { buffer = set ctx.buffer ctx.buffer_len 0x80 })).state
      ≡ sha256 start m
final_short start m ctx h small short =
    let i = ctx.buffer_len + 1 in
    let q = h.pending ++ 0x80 ∷ [] in
    let t = drop 1 h.rest in
    let qlen : length q ≡ length h.pending + 1 = length-append h.pending (0x80 ∷ []) in
    let fit : length q + length t ≡ 64 =
      omega (arith, qlen, length-drop 1 h.rest, h.size, h.room) in
    let bytes : List ℕ = be_bytes 8 (8 * length m) in
    let zeros : List ℕ = replicate (56 - i) 0 in
    let block = q ++ (zeros ++ bytes) in
    let full : length block ≡ 64 =
      length-append q (zeros ++ bytes)
      ∙ omega (
        arith,
        length-append zeros bytes,
        length-replicate {A = ℕ} (56 - i) 0,
        length-be_bytes 8 (8 * length m),
        qlen,
        h.pending_len,
        short,
      ) in
    let ended =
      finish_lem i q t (record ctx { buffer = set ctx.buffer ctx.buffer_len 0x80 })
        (omega (arith, qlen, h.pending_len)) (omega (arith, h.pending_len, short)) fit
        (put_byte start m ctx 0x80 h) in
    let padded =
      pad-split m h.front h.pending h.blocks (56 - i) h.split h.front_len h.room
        (omega (arith, h.pending_len, short)) in
    let bits : ctx.bit_len ≡ 8 * length m = h.bits ∙ omega (arith, small) in
    ap output (
      ended
      ∙ ap₂ (λ s n. transform_state s (q ++ (zeros ++ be_bytes 8 n))) h.hashed bits
      ∙ sym (digest-append h.blocks start h.front block h.front_len full))
    ∙ sym (
        sha256-blocks (suc h.blocks) start m (h.front ++ block) padded
          (length-append h.front block ∙ omega (arith, h.front_len, full)))

-- Where the padding takes one more block: the first of the two in the buffer, ...
first_block :
    (start m : List ℕ) (ctx : Context) (h : Holds start m ctx)
    → let i = ctx.buffer_len + 1 in
      zero_loop (64 - i) i (set ctx.buffer ctx.buffer_len 0x80)
      ≡ (h.pending ++ 0x80 ∷ []) ++ replicate (64 - i) 0
first_block start m ctx h =
    let i = ctx.buffer_len + 1 in
    let q = h.pending ++ 0x80 ∷ [] in
    let t = drop 1 h.rest in
    let at : i ≡ length q = omega (arith, length-append h.pending (0x80 ∷ []), h.pending_len) in
    let left : length t ≡ 64 - i =
      length-drop 1 h.rest ∙ omega (arith, h.size, h.room, h.pending_len) in
    ap (zero_loop (64 - i) i) (put_byte start m ctx 0x80 h)
    ∙ zero_loop_lem (64 - i) i q t at (omega (arith, left))
    ∙ ap (λ l. q ++ (replicate (64 - i) 0 ++ l)) (drop_all (64 - i) t left)
    ∙ ap (λ l. q ++ l) (append-nil (replicate (64 - i) 0))

-- ... both in the padded message, ...
pad-two :
    (start m : List ℕ) (ctx : Context) (h : Holds start m ctx)
    → 56 ≤ length h.pending
    → pad m
      ≡ (h.front ++ ((h.pending ++ 0x80 ∷ []) ++ replicate (64 - (ctx.buffer_len + 1)) 0))
        ++ (replicate 56 0 ++ be_bytes 8 (8 * length m))
pad-two start m ctx h long =
    let n = 64 - (ctx.buffer_len + 1) in
    let q = h.pending ++ 0x80 ∷ [] in
    let bytes : List ℕ = be_bytes 8 (8 * length m) in
    let last : List ℕ = replicate 56 0 ++ bytes in
    pad-split m h.front h.pending h.blocks (n + 56) h.split h.front_len h.room
      (omega (arith, h.pending_len, long, h.room))
    ∙ ap (λ z. h.front ++ (q ++ (z ++ bytes))) (replicate-add n 56 _ 0 refl)
    ∙ ap (λ l. h.front ++ (q ++ l)) (append_assoc (replicate n 0) (replicate 56 0) bytes)
    ∙ ap (λ l. h.front ++ l) (sym (append_assoc q (replicate n 0) last))
    ∙ sym (append_assoc h.front (q ++ replicate n 0) last)

-- ... and the digest.
final_long :
    (start m : List ℕ) (ctx : Context) (h : Holds start m ctx)
    → length m < 2 ^ 32
    → 56 ≤ length h.pending
    → let i = ctx.buffer_len + 1 in
      let buffer = zero_loop (64 - i) i (set ctx.buffer ctx.buffer_len 0x80) in
      output (finish 0 (sha256_transform (record ctx { buffer = buffer }))).state ≡ sha256 start m
unfolding sha256_transform
final_long start m ctx h small long =
    let i = ctx.buffer_len + 1 in
    let q = h.pending ++ 0x80 ∷ [] in
    let bytes : List ℕ = be_bytes 8 (8 * length m) in
    let first : List ℕ = q ++ replicate (64 - i) 0 in
    let last : List ℕ = replicate 56 0 ++ bytes in
    let full : length first ≡ 64 =
      length-append q (replicate (64 - i) 0)
      ∙ omega (
        arith,
        length-replicate {A = ℕ} (64 - i) 0,
        length-append h.pending (0x80 ∷ []),
        h.pending_len,
        h.room,
      ) in
    let cleared = first_block start m ctx h in
    let buffer = zero_loop (64 - i) i (set ctx.buffer ctx.buffer_len 0x80) in
    let size : length buffer ≡ 64 = ap length cleared ∙ full in
    let ended =
      finish_lem 0 [] buffer (sha256_transform (record ctx { buffer = buffer })) refl (omega arith)
        (omega (arith, size)) refl in
    let bits : ctx.bit_len ≡ 8 * length m = h.bits ∙ omega (arith, small) in
    let first_len : length (h.front ++ first) ≡ 64 * suc h.blocks =
      length-append h.front first ∙ omega (arith, h.front_len, full) in
    let last_len : length last ≡ 64 = omega (arith, length-be_bytes 8 (8 * length m)) in
    ap output (
      ended
      ∙ ap
          (λ n. transform_state (transform_state ctx.state buffer) (replicate 56 0 ++ be_bytes 8 n))
          bits
      ∙ ap₂ (λ s b. transform_state (transform_state s b) last) h.hashed cleared
      ∙ ap (λ s. transform_state s last)
          (sym (digest-append h.blocks start h.front first h.front_len full))
      ∙ sym (digest-append (suc h.blocks) start (h.front ++ first) last first_len last_len))
    ∙ sym (
        sha256-blocks (suc (suc h.blocks)) start m ((h.front ++ first) ++ last)
          (pad-two start m ctx h long)
          (length-append (h.front ++ first) last ∙ omega (arith, first_len, last_len)))

sha256_final_lem :
    (start m : List ℕ) (ctx : Context)
    → length m < 2 ^ 32
    → Holds start m ctx
    → sha256_final ctx ≡ sha256 start m
unfolding sha256_final
sha256_final_lem start m ctx small h = elim (Bool-cases (ltb 56 (ctx.buffer_len + 1))) [
  | inl e ↦ rw e (final_long start m ctx h small (ground (arith, h.pending_len)))
  | inr e ↦ rw e (final_short start m ctx h small (ground (arith, h.pending_len)))
]

-- The hash of a message of fewer than 2 ^ 32 bytes is the digest of the padded message block by block,
-- whatever the 64 bytes of the context's buffer held: feeding bytes, padding in place and the length
-- field are those of the standard.
pub sha256_hash_lem :
    (buffer m : List ℕ)
    → length buffer ≡ 64
    → length m < 2 ^ 32
    → sha256_hash buffer m ≡ sha256 (sha256_init buffer).state m
unfolding sha256_hash
sha256_hash_lem buffer m room small =
    let begun = sha256_init-Holds buffer room in
    sha256_final_lem _ m _ small (sha256_update-Holds _ [] m (sha256_init buffer) begun)
