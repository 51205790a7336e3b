-- ===== src/Sha256/Padding.antt =====
-- drivers/sha256.c: the last block that `sha256_final` hashes, and the padding of the standard cut into
-- blocks.
use mathlib.Core.List.{append_assoc, append-nil}
use minerva_os.Base.{
  ℕ, zero, suc, ◌+◌, ◌-◌, ◌*◌, ◌/◌, ◌%◌, ◌<◌, ◌≤◌, ◌≡◌, sym, ap, ap₂, ◌∙◌, List, [], ◌∷◌, ◌++◌,
  length, arith, length-append, length-replicate, replicate,
}
use minerva_os.Sha256.{
  Context, sha256_transform, transform_state, finish, output, zero_loop, store_be64,
}
use minerva_os.Base.Cuts.{drop, drop_all, length-drop}
use minerva_os.Sha256.Buffer.{zero_loop_lem, store_be64_lem}
use minerva_os.Sha256.Reference.{sha256, pad, be_bytes, digest}

-- The last block, where the buffer holds `q` up to `i`.
pub finish_lem :
    (i : ℕ) (q t : List ℕ) (ctx : Context)
    → i ≡ length q
    → i ≤ 56
    → length q + length t ≡ 64
    → ctx.buffer ≡ q ++ t
    → (finish i ctx).state
      ≡ transform_state ctx.state (q ++ (replicate (56 - i) 0 ++ be_bytes 8 ctx.bit_len))
unfolding finish sha256_transform
finish_lem i q t ctx e h s b =
    let zeros : List ℕ = replicate (56 - i) 0 in
    let left = drop (56 - i) t in
    let size : length left ≡ 8 = length-drop (56 - i) t ∙ omega (arith, e, h, s) in
    let cleared : zero_loop (56 - i) i ctx.buffer ≡ (q ++ zeros) ++ left =
      ap (zero_loop (56 - i) i) b
      ∙ zero_loop_lem (56 - i) i q t e (omega (arith, e, h, s))
      ∙ sym (append_assoc q zeros left) in
    let at : 56 ≡ length (q ++ zeros) =
      omega (arith, length-append q zeros, length-replicate {A = ℕ} (56 - i) 0, e, h) in
    let stored = store_be64_lem 8 56 ctx.bit_len (q ++ zeros) left at (omega (arith, size)) in
    let whole : store_be64 8 56 ctx.bit_len (zero_loop (56 - i) i ctx.buffer)
        ≡ q ++ (zeros ++ be_bytes 8 ctx.bit_len) =
      ap (store_be64 8 56 ctx.bit_len) cleared
      ∙ stored
      ∙ ap (λ l. (q ++ zeros) ++ (be_bytes 8 ctx.bit_len ++ l)) (drop_all 8 left size)
      ∙ ap (λ l. (q ++ zeros) ++ l) (append-nil (be_bytes 8 ctx.bit_len))
      ∙ append_assoc q zeros (be_bytes 8 ctx.bit_len) in
    ap (transform_state ctx.state) whole

pub replicate-add : (a b n v : ℕ) → n ≡ a + b → replicate n v ≡ replicate a v ++ replicate b v
replicate-add zero b n v e = ap (λ i. replicate i v) (omega (arith, e))
replicate-add (suc a) b zero v e = absurd (omega arith)
replicate-add (suc a) b (suc n) v e = ap (λ l. v ∷ l) (replicate-add a b n v (omega (arith, e)))

-- The padding, where the last `length p` bytes of the message are not a whole block.
pub pad-split :
    (m front p : List ℕ) (blocks zeros : ℕ)
    → m ≡ front ++ p
    → length front ≡ 64 * blocks
    → length p < 64
    → zeros ≡ (119 - length p) % 64
    → pad m ≡ front ++ ((p ++ 0x80 ∷ []) ++ (replicate zeros 0 ++ be_bytes 8 (8 * length m)))
unfolding pad
pad-split m front p blocks zeros e f r z =
    let tail = replicate zeros 0 ++ be_bytes 8 (8 * length m) in
    let len : length m ≡ length front + length p = ap length e ∙ length-append front p in
    let same : (119 - length m % 64) % 64 ≡ zeros = omega (arith, len, f, r, z) in
    ap (λ n. m ++ 0x80 ∷ (replicate n 0 ++ be_bytes 8 (8 * length m))) same
    ∙ ap (λ l. l ++ 0x80 ∷ tail) e
    ∙ append_assoc front p (0x80 ∷ tail)
    ∙ ap (λ l. front ++ l) (sym (append_assoc p (0x80 ∷ []) tail))

-- A message whose padding is `n` blocks has the digest after `n` blocks.
pub sha256-blocks :
    (n : ℕ) (start m l : List ℕ)
    → pad m ≡ l
    → length l ≡ 64 * n
    → sha256 start m ≡ output (digest n start l)
unfolding sha256
sha256-blocks n start m l e f =
    let count : length (pad m) / 64 ≡ n = omega (arith, ap length e, f) in
    ap₂ (λ k p. output (digest k start p)) count e
