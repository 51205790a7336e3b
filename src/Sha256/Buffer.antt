-- ===== src/Sha256/Buffer.antt =====
-- drivers/sha256.c: what the loops of `sha256_final` and `store_be64` leave in the buffer.
use mathlib.Core.List.{append_assoc}
use minerva_os.Base.{
  ℕ, zero, suc, ◌+◌, ◌/◌, ◌%◌, ◌^◌, ◌≤◌, ◌≡◌, refl, sym, ap, ◌∙◌, List, [], ◌∷◌, ◌++◌, length, set,
  replicate, arith, length-append, length-set,
}
use minerva_os.Sha256.{zero_loop, store_be64}
use minerva_os.Base.Cuts.{drop, set-append, drop-set}
use minerva_os.Sha256.Reference.{be_bytes}

pub zero_loop_lem :
    (n i : ℕ) (q t : List ℕ)
    → i ≡ length q
    → n ≤ length t
    → zero_loop n i (q ++ t) ≡ q ++ (replicate n 0 ++ drop n t)
unfolding zero_loop
zero_loop_lem zero i q t e h = refl
zero_loop_lem (suc n) i q [] e h = absurd (omega arith)
zero_loop_lem (suc n) i q (x ∷ t) e h =
    let put : set (q ++ x ∷ t) i 0 ≡ (q ++ 0 ∷ []) ++ t =
      set-append q (x ∷ t) i 0 0 (omega arith) ∙ sym (append_assoc q (0 ∷ []) t) in
    let rest =
      zero_loop_lem n (i + 1) (q ++ 0 ∷ []) t (omega (arith, length-append q (0 ∷ [])))
        (omega arith) in
    rw put (rest ∙ append_assoc q (0 ∷ []) _)

pub store_be64_lem :
    (n at v : ℕ) (q t : List ℕ)
    → at ≡ length q
    → n ≤ length t
    → store_be64 n at v (q ++ t) ≡ q ++ (be_bytes n v ++ drop n t)
unfolding store_be64 be_bytes
store_be64_lem zero at v q t e h = refl
store_be64_lem (suc n) at v q t e h =
    let b = v % 2 ^ 8 in
    let put : set (q ++ t) (at + n) b ≡ q ++ set t n b =
      set-append q t (at + n) n b (omega arith) in
    let rest = store_be64_lem n at (v / 2 ^ 8) q (set t n b) e (omega (arith, length-set t n b)) in
    rw (put, rest, drop-set n t b (omega arith))
      (ap (λ l. q ++ l) (sym (append_assoc (be_bytes n (v / 2 ^ 8)) (b ∷ []) (drop (suc n) t))))

pub length-be_bytes : (n v : ℕ) → length (be_bytes n v) ≡ n
unfolding be_bytes
length-be_bytes zero v = refl
length-be_bytes (suc n) v =
    length-append (be_bytes n (v / 2 ^ 8)) ((v % 2 ^ 8) ∷ [])
    ∙ omega (arith, length-be_bytes n (v / 2 ^ 8))
