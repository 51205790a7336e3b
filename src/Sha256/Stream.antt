-- ===== src/Sha256/Stream.antt =====
-- drivers/sha256.c: what `sha256_update` keeps true of the context, byte by byte.
use mathlib.Core.List.{append_assoc, append-nil}
use minerva_os.Base.{
  ℕ, suc, ◌+◌, ◌*◌, ◌%◌, ◌^◌, ◌<◌, ◌≡◌, refl, sym, ap, ap₂, ◌-◌, ◌∙◌, List, [], ◌∷◌, ◌++◌, length,
  set, arith, length-append, inl, inr, Bool-cases, ◌==◌, ==_iff,
}
use minerva_os.Sha256.{
  Context, sha256_init, sha256_update, update_byte, sha256_transform, transform_state,
}
use minerva_os.Base.Cuts.{drop, set-append, drop-set, drop_all, length-drop}
use minerva_os.Sha256.Reference.{digest, digest-append}

-- The context after the message `m` from the hash words `start` on: whole blocks are in the hash
-- words, the other bytes are at the front of the buffer.
pub record Holds (start m : List ℕ) (ctx : Context) : Type 0 where
  pub blocks : ℕ
  pub front : List ℕ
  pub pending : List ℕ
  pub rest : List ℕ
  pub split : m ≡ front ++ pending
  pub front_len : length front ≡ 64 * blocks
  pub hashed : ctx.state ≡ digest blocks start front
  pub buffered : ctx.buffer ≡ pending ++ rest
  pub pending_len : ctx.buffer_len ≡ length pending
  pub room : length pending < 64
  pub size : length pending + length rest ≡ 64
  pub bits : ctx.bit_len ≡ 8 * length m % 2 ^ 64

pub sha256_init-Holds :
    (buffer : List ℕ)
    → length buffer ≡ 64
    → Holds (sha256_init buffer).state [] (sha256_init buffer)
unfolding sha256_init digest
sha256_init-Holds buffer e = record {
  blocks = 0;
  front = [];
  pending = [];
  rest = buffer;
  split = refl;
  front_len = refl;
  hashed = refl;
  buffered = refl;
  pending_len = refl;
  room = omega arith;
  size = omega arith;
  bits = refl;
}

-- The buffer with one more byte.
pub put_byte :
    (start m : List ℕ) (ctx : Context) (byte : ℕ) (h : Holds start m ctx)
    → set ctx.buffer ctx.buffer_len byte ≡ (h.pending ++ byte ∷ []) ++ drop 1 h.rest
put_byte start m ctx byte h =
    let there : set h.rest 0 byte ≡ byte ∷ drop 1 h.rest =
      drop-set 0 h.rest byte (omega (arith, h.size, h.room)) in
    ap (λ b. set b ctx.buffer_len byte) h.buffered
    ∙ set-append h.pending h.rest ctx.buffer_len 0 byte (omega (arith, h.pending_len))
    ∙ ap (λ l. h.pending ++ l) there
    ∙ sym (append_assoc h.pending (byte ∷ []) (drop 1 h.rest))

pub update_byte-Holds :
    (start m : List ℕ) (ctx : Context) (byte : ℕ)
    → Holds start m ctx
    → Holds start (m ++ byte ∷ []) (update_byte ctx byte)
unfolding update_byte sha256_transform
update_byte-Holds start m ctx byte h =
    let pending = h.pending ++ byte ∷ [] in
    let len : length pending ≡ length h.pending + 1 = length-append h.pending (byte ∷ []) in
    let whole : m ++ byte ∷ [] ≡ h.front ++ pending =
      ap (λ l. l ++ byte ∷ []) h.split ∙ append_assoc h.front h.pending (byte ∷ []) in
    let bits : (ctx.bit_len + 8) % 2 ^ 64 ≡ 8 * length (m ++ byte ∷ []) % 2 ^ 64 =
      omega (arith, h.bits, length-append m (byte ∷ [])) in
    let left : length (drop 1 h.rest) ≡ length h.rest - 1 = length-drop 1 h.rest in
    let put = put_byte start m ctx byte h in
    elim (Bool-cases ((ctx.buffer_len + 1) % 2 ^ 8 == 64)) [
      | inl e ↦
          let full : (ctx.buffer_len + 1) % 2 ^ 8 ≡ 64 = (==_iff _ 64).0 e in
          let none_left : drop 1 h.rest ≡ [] =
            drop_all 1 h.rest (omega (arith, full, h.pending_len, h.size, h.room)) in
          let block : set ctx.buffer ctx.buffer_len byte ≡ pending =
            put ∙ ap (λ l. pending ++ l) none_left ∙ append-nil pending in
          rw e (record {
            blocks = suc h.blocks;
            front = h.front ++ pending;
            pending = [];
            rest = pending;
            split = whole ∙ sym (append-nil (h.front ++ pending));
            front_len =
                length-append h.front pending
                ∙ omega (arith, h.front_len, full, h.pending_len, len);
            hashed =
                ap₂ transform_state h.hashed block
                ∙ sym (
                    digest-append h.blocks start h.front pending h.front_len
                      (omega (arith, full, h.pending_len, len)));
            buffered = block;
            pending_len = refl;
            room = omega arith;
            size = omega (arith, full, h.pending_len, len);
            bits = bits;
          })
      | inr e ↦ rw e (record {
        blocks = h.blocks;
        front = h.front;
        pending = pending;
        rest = drop 1 h.rest;
        split = whole;
        front_len = h.front_len;
        hashed = h.hashed;
        buffered = put;
        pending_len = omega (arith, h.pending_len, len, h.room);
        room = ground arith;
        size = omega (arith, left, len, h.size, h.room);
        bits = bits;
      })
    ]

pub sha256_update-Holds :
    (start m bytes : List ℕ) (ctx : Context)
    → Holds start m ctx
    → Holds start (m ++ bytes) (sha256_update ctx bytes)
unfolding sha256_update
sha256_update-Holds start m [] ctx h = rw (append-nil m) h
sha256_update-Holds start m (byte ∷ bytes) ctx h = rw (← append_assoc m (byte ∷ []) bytes) (
    sha256_update-Holds start (m ++ byte ∷ []) bytes (update_byte ctx byte)
      (update_byte-Holds start m ctx byte h))
