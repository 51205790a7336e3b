-- ===== src/Sha256/Reference.antt =====
-- drivers/sha256.c against the standard's text: the padded message as a whole and its blocks in a
-- row, where the code feeds bytes through a buffer. The step on a block is the code's.
use minerva_os.Base.{
  ℕ, zero, suc, ◌-◌, ◌*◌, ◌/◌, ◌%◌, ◌^◌, List, [], ◌∷◌, ◌++◌, length, take, replicate, ◌≡◌, ap, ◌∙◌,
  arith,
}
use minerva_os.Sha256.{transform_state, output}
use minerva_os.Base.Cuts.{drop, take-append, drop-append, take_all, length-drop}

-- The `n` low bytes of a number, the highest first.
unfoldable pub be_bytes : ℕ → ℕ → List ℕ
be_bytes zero v = []
be_bytes (suc n) v = be_bytes n (v / 2 ^ 8) ++ (v % 2 ^ 8) ∷ []

-- The message, a one bit, as few zero bits as reach 56 modulo 64 bytes, and the length in bits.
unfoldable pub pad : List ℕ → List ℕ
pad m = m ++ 0x80 ∷ (replicate ((119 - length m % 64) % 64) 0 ++ be_bytes 8 (8 * length m))

-- The hash words after the first `n` blocks of the message.
unfoldable pub digest : ℕ → List ℕ → List ℕ → List ℕ
digest zero state m = state
digest (suc n) state m = digest n (transform_state state (take 64 m)) (drop 64 m)

-- A block after `n` blocks is one more step.
pub digest-append :
    (n : ℕ) (state front block : List ℕ)
    → length front ≡ 64 * n
    → length block ≡ 64
    → digest (suc n) state (front ++ block) ≡ transform_state (digest n state front) block
unfolding digest
digest-append zero state [] block e f = ap (transform_state state) (take_all 64 block f)
digest-append zero state (x ∷ front) block e f = absurd (omega arith)
digest-append (suc n) state front block e f =
    let rest =
      digest-append n (transform_state state (take 64 front)) (drop 64 front) block
        (length-drop 64 front ∙ omega arith) f in
    rw (take-append 64 front block (omega arith), drop-append 64 front block (omega arith)) rest

-- The digest of the standard, from the hash words `start` on.
unfoldable pub sha256 : List ℕ → List ℕ → List ℕ
sha256 start m = output (digest (length (pad m) / 64) start (pad m))
