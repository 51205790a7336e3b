-- ===== src/Net/KeyExchange/Encoded.antt =====
-- drivers/net.c: a signature in DER gives back its two halves.
use mathlib.Core.List.{append-nil}
use minerva_os.Base.{
  ℕ, suc, ◌+◌, ◌-◌, ◌≤◌, ◌<◌, ◌≡◌, refl, sym, ap, ap₂, subst, ◌∙◌, true, false, Bool-cases, inl,
  inr, List, [], ◌∷◌, ◌++◌, some, if◌then◌else◌, ◌==◌, ==_iff, ltb, leb, lt→ltb, get_or, take,
  length, length-append, replicate, arith,
}
use minerva_os.Base.Cuts.{drop-append, drop_all, take-append, take_all}
use minerva_os.Base.Ends.{and_then, get?}
use minerva_os.Net.Der.{net_tls_parse_der_len_at, net_tls_parse_der_sequence_len}
use minerva_os.Net.Der.Lengths.{der_length, net_tls_parse_der_len_at-der_length}
use minerva_os.Net.Extensions.{bytes_at, len_at, sequence_at, or_return}
use minerva_os.Net.KeyExchange.{
  Signature, strip, padded, read_integer, with_r, with_s, parse_sequence,
  net_tls_parse_kex_ecdsa_sig,
}
use minerva_os.Net.KeyExchange.Safe.{length-strip}

-- The bytes of an INTEGER that is not negative: no needless zeros, and one where the first bit is set.
abbrev content : List ℕ → List ℕ
content bytes = if leb 128 (get_or (strip bytes) 0 0) then 0 ∷ strip bytes else strip bytes

abbrev der_integer : List ℕ → List ℕ
der_integer bytes = 0x02 ∷ length (content bytes) ∷ content bytes

-- The SEQUENCE of both halves.
abbrev pub der_signature : List ℕ → List ℕ → List ℕ
der_signature r s =
    0x30 ∷ length (der_integer r ++ der_integer s) ∷ (der_integer r ++ der_integer s)

one-le-strip : (bytes : List ℕ) → 1 ≤ length bytes → 1 ≤ length (strip bytes)
unfolding strip
one-le-strip [] h = h
one-le-strip (b ∷ []) h = h
one-le-strip (b ∷ c ∷ bytes) h = elim (Bool-cases (b == 0)) [
  | inl e ↦ rw e (one-le-strip (c ∷ bytes) (omega arith))
  | inr e ↦ rw e h
]

strip_twice : (bytes : List ℕ) → strip (strip bytes) ≡ strip bytes
unfolding strip
strip_twice [] = refl
strip_twice (b ∷ []) = refl
strip_twice (b ∷ c ∷ bytes) = elim (Bool-cases (b == 0)) [
  | inl e ↦ rw e (strip_twice (c ∷ bytes))
  | inr e ↦ rw (e, e) refl
]

strip-zero : (bytes : List ℕ) → 1 ≤ length bytes → strip (0 ∷ bytes) ≡ strip bytes
unfolding strip
strip-zero [] h = absurd (omega (arith, h))
strip-zero (b ∷ bytes) h = refl

pad-strip :
    (bytes : List ℕ) → replicate (length bytes - length (strip bytes)) 0 ++ strip bytes ≡ bytes
unfolding strip
pad-strip [] = refl
pad-strip (b ∷ []) = refl
pad-strip (b ∷ c ∷ bytes) = elim (Bool-cases (b == 0)) [
  | inl e ↦
      let short = length-strip (c ∷ bytes) in
      rw (e, sub_suc (length bytes) (length (strip (c ∷ bytes))) short)
        (ap₂ (λ x l. x ∷ l) (sym ((==_iff b 0).0 e)) (pad-strip (c ∷ bytes)))
  | inr e ↦ rw (e, self_sub (length bytes)) refl
]
  where
    sub_suc : (n m : ℕ) → m ≤ suc n → suc (suc n) - m ≡ suc (suc n - m)
    sub_suc n m h = omega (arith, h)

    self_sub : (n : ℕ) → suc (suc n) - suc (suc n) ≡ 0
    self_sub n = omega arith

padded-strip : (old bytes : List ℕ) → length bytes ≡ 32 → padded old (strip bytes) ≡ bytes
unfolding padded
padded-strip old bytes h =
    rw (fits (length (strip bytes)) (omega (arith, length-strip bytes, h)))
      (ap (λ n. replicate (n - length (strip bytes)) 0 ++ strip bytes) (sym h) ∙ pad-strip bytes)
  where
    fits : (n : ℕ) → n ≤ 32 → leb n 32 ≡ true
    fits n h = ground arith

-- An integer of 32 bytes takes from one to 33, and is what they stand for.
content-strip :
    (bytes : List ℕ)
    → length bytes ≡ 32
    → (strip (content bytes) ≡ strip bytes)
      × (1 ≤ length (content bytes))
      × (length (content bytes) ≤ 33)
content-strip bytes h =
    let some_left = one-le-strip bytes (omega (arith, h)) in
    let few = length-strip bytes in
    elim (Bool-cases (leb 128 (get_or (strip bytes) 0 0))) [
      | inl e ↦ rw e (
        strip-zero (strip bytes) some_left ∙ strip_twice bytes,
        omega arith,
        omega (arith, few, h),
      )
      | inr e ↦ rw e (strip_twice bytes, some_left, omega (arith, few, h))
    ]

enough : (n k : ℕ) → n ≤ k → ltb k n ≡ false
enough n k h = ground arith

bytes_at-append :
    (pre mid rest : List ℕ) (pos n : ℕ)
    → pos ≡ length pre
    → n ≡ length mid
    → bytes_at (pre ++ (mid ++ rest)) pos n ≡ some mid
bytes_at-append pre mid rest pos n e f =
    let whole = length-append pre (mid ++ rest) in
    let part = length-append mid rest in
    rw (within (pos + n) (length (pre ++ (mid ++ rest))) (omega (arith, e, f, whole, part))) (
      ap (λ l. some (take n l))
        (drop-append pos pre (mid ++ rest) (omega (arith, e))
          ∙ ap (λ l. l ++ (mid ++ rest)) (drop_all pos pre (sym e)))
      ∙ ap some (take-append n mid rest (omega (arith, f)) ∙ take_all n mid (sym f)))
  where
    within : (a b : ℕ) → a ≤ b → leb a b ≡ true
    within a b h = ground arith

get?-append : (pre rest : List ℕ) (x : ℕ) → get? (pre ++ x ∷ rest) (length pre) ≡ some x
get?-append [] rest x = refl
get?-append (y ∷ pre) rest x = get?-append pre rest x

der_length-small : (n : ℕ) → n < 128 → der_length n ≡ n ∷ []
unfolding der_length
der_length-small n h = rw (lt→ltb n 128 h) refl

-- A short element behind `pre`, read with all that follows.
len_at-append :
    (pre rest : List ℕ) (tag n : ℕ)
    → n < 128
    → let src = pre ++ tag ∷ n ∷ rest in
      len_at src (length pre) (length src - length pre) ≡ some (some (n, 2))
len_at-append pre rest tag n h =
    let suffix = tag ∷ n ∷ rest in
    let size = length-append pre suffix in
    let left : length (pre ++ suffix) - length pre ≡ length suffix = omega (arith, size) in
    let cut : bytes_at (pre ++ suffix) (length pre) (length (pre ++ suffix) - length pre)
        ≡ some suffix =
      subst
        (λ l. bytes_at (pre ++ l) (length pre) (length (pre ++ suffix) - length pre) ≡ some suffix)
        (append-nil suffix) (bytes_at-append pre suffix [] (length pre) _ refl left) in
    let read : net_tls_parse_der_len_at suffix (length suffix) ≡ some (some (n, 2)) =
      subst
        (λ l.
          net_tls_parse_der_len_at (tag ∷ (l ++ rest)) (length (tag ∷ (l ++ rest)))
          ≡ some (some (n, 1 + length l)))
        (der_length-small n h)
        (net_tls_parse_der_len_at-der_length tag n rest (omega (arith, h))).0 in
    ap
      (λ o.
        and_then o (λ part. net_tls_parse_der_len_at part (length (pre ++ suffix) - length pre)))
      cut
    ∙ ap (λ k. net_tls_parse_der_len_at suffix k) left
    ∙ read

move_two : (pre ys : List ℕ) (a b : ℕ) → (pre ++ a ∷ b ∷ []) ++ ys ≡ pre ++ a ∷ b ∷ ys
move_two [] ys a b = refl
move_two (x ∷ pre) ys a b = ap (λ l. x ∷ l) (move_two pre ys a b)

bytes_behind :
    (pre bytes rest : List ℕ) (a b : ℕ)
    → bytes_at (pre ++ a ∷ b ∷ (bytes ++ rest)) (length pre + 2) (length bytes) ≡ some bytes
bytes_behind pre bytes rest a b =
    subst (λ l. bytes_at l (length pre + 2) (length bytes) ≡ some bytes)
      (move_two pre (bytes ++ rest) a b)
      (bytes_at-append (pre ++ a ∷ b ∷ []) bytes rest (length pre + 2) (length bytes)
        (omega (arith, length-append pre (a ∷ b ∷ []))) refl)

read_integer_lem :
    (pre bytes rest : List ℕ)
    → length bytes ≤ 33
    → read_integer (pre ++ 0x02 ∷ length bytes ∷ (bytes ++ rest)) (length pre)
      ≡ some (some (length pre + 2 + length bytes, strip bytes))
unfolding read_integer or_return
read_integer_lem pre bytes rest high =
    let src = pre ++ 0x02 ∷ length bytes ∷ (bytes ++ rest) in
    let size = length-append pre (0x02 ∷ length bytes ∷ (bytes ++ rest)) in
    let tail = length-append bytes rest in
    rw
      (
        enough (length pre + 2) (length src) (omega (arith, size)),
        get?-append pre (length bytes ∷ (bytes ++ rest)) 0x02,
        len_at-append pre (bytes ++ rest) 0x02 (length bytes) (omega (arith, high)),
        enough (length bytes) 255 (omega (arith, high)),
        enough (length pre + 2 + length bytes) (length src) (omega (arith, size, tail)),
        bytes_behind pre bytes rest 0x02 (length bytes),
      )
      refl

read_last :
    (pre bytes : List ℕ)
    → length bytes ≤ 33
    → read_integer (pre ++ 0x02 ∷ length bytes ∷ bytes) (length pre)
      ≡ some (some (length pre + 2 + length bytes, strip bytes))
read_last pre bytes high =
    subst
      (λ l.
        read_integer (pre ++ 0x02 ∷ length bytes ∷ l) (length pre)
        ≡ some (some (length pre + 2 + length bytes, strip bytes)))
      (append-nil bytes) (read_integer_lem pre bytes [] high)

sequence_at_whole :
    (body : List ℕ)
    → length body < 128
    → let sig = 0x30 ∷ length body ∷ body in
      sequence_at sig 0 (length sig) ≡ some (some (length body, 2))
sequence_at_whole body h =
    let sig = 0x30 ∷ length body ∷ body in
    let n = length body in
    let cut : bytes_at sig 0 (length sig) ≡ some sig =
      subst (λ l. bytes_at l 0 (length sig) ≡ some sig) (append-nil sig)
        (bytes_at-append [] sig [] 0 (length sig) refl refl) in
    let read : net_tls_parse_der_sequence_len sig (length sig) ≡ some (some (n, 2)) =
      subst
        (λ l.
          net_tls_parse_der_sequence_len (0x30 ∷ (l ++ body)) (length (0x30 ∷ (l ++ body)))
          ≡ some (some (n, 1 + length l)))
        (der_length-small n h)
        (net_tls_parse_der_len_at-der_length 0x30 n body (omega (arith, h))).1 in
    ap (λ o. and_then o (λ part. net_tls_parse_der_sequence_len part (length sig))) cut ∙ read

-- A signature of two halves of 32 bytes, written in DER, is read back: both halves are stored as they were.
pub net_tls_parse_kex_ecdsa_sig-der_signature :
    (old : Signature) (r s : List ℕ)
    → length r ≡ 32
    → length s ≡ 32
    → (g : Signature) × (net_tls_parse_kex_ecdsa_sig old (der_signature r s) ≡ some g)
      × (g.r ≡ r)
      × (g.s ≡ s)
      × (1 ≤ g.r_len)
      × (g.r_len ≤ 32)
      × (1 ≤ g.s_len)
      × (g.s_len ≤ 32)
unfolding net_tls_parse_kex_ecdsa_sig parse_sequence or_return
net_tls_parse_kex_ecdsa_sig-der_signature old r s hr hs =
    let (same_r, low_r, high_r) = content-strip r hr in
    let (same_s, low_s, high_s) = content-strip s hs in
    let body = der_integer r ++ der_integer s in
    let total = length-append (der_integer r) (der_integer s) in
    let sig = der_signature r s in
    let front = 0x30 ∷ length body ∷ [] in
    let first = read_integer_lem front (content r) (der_integer s) high_r in
    let mid = length front + 2 + length (content r) in
    let second : read_integer sig mid
        ≡ some (some (mid + 2 + length (content s), strip (content s))) =
      subst (λ i. read_integer sig i ≡ some (some (i + 2 + length (content s), strip (content s))))
        (omega arith) (read_last (0x30 ∷ length body ∷ der_integer r) (content s) high_s) in
    let header : sequence_at sig 0 (length sig) ≡ some (some (length body, 2)) =
      sequence_at_whole body (omega (arith, total, high_r, high_s)) in
    let half = with_r old (strip r) in
    (
      with_s half (strip s),
      rw
          (
            enough 8 (length sig) (omega (arith, total, low_r, low_s)),
            header,
            enough (2 + length body) (length sig) (omega arith),
            first,
            second,
          )
          (ap₂ (λ a b. some (with_s (with_r old a) b)) same_r same_s),
      padded-strip old.r r hr,
      padded-strip old.s s hs,
      one-le-strip r (omega (arith, hr)),
      omega (arith, length-strip r, hr),
      one-le-strip s (omega (arith, hs)),
      omega (arith, length-strip s, hs),
    )
