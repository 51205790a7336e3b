-- ===== src/Net/Extensions/Safe.antt =====
-- drivers/net.c: the parsers of extensions stay inside the certificate.
use minerva_os.Base.{
  ℕ, zero, suc, ◌+◌, ◌-◌, ◌%◌, ◌^◌, ◌≤◌, ◌<◌, ◌≡◌, refl, Bool, true, false, true≢false, List, [],
  ◌∷◌, Option, none, some, not, ◌||◌, ◌==◌, ltb, leb, ltb→lt, not_ltb→le, length, bit_and, arith,
}
use minerva_os.Base.Cuts.{drop, length-take, length-drop}
use minerva_os.Base.Ends.{and_then, Ends, Ends-and_then, Ends-if, get?, get?-inside}
use minerva_os.Net.Der.{
  value_loop, der_length_after_tag, net_tls_parse_der_len_at, net_tls_parse_der_sequence_len,
  net_tls_oid_equal,
}
use minerva_os.Net.Extensions.{
  bytes_at, len_at, sequence_at, find_loop, seek_loop, or_return, locate,
}

-- What holds of a result that may be missing.
unfoldable pub Maybe : {A : Type 0} → (A → Type 0) → Option A → Type 0
Maybe P none = 0 ≤ 0
Maybe P (some a) = P a

-- A step that may make the function return at once.
pub Ends-or_return :
    {A B : Type 0} (P : A → Type 0) (Q : B → Type 0) (o : Option (Option A)) (b : B)
    (f : A → Option B)
    → Ends (Maybe P) o
    → Q b
    → ((a : A) → P a → Ends Q (f a))
    → Ends Q (and_then o (or_return b f))
unfolding or_return Maybe
Ends-or_return P Q o b f h q k = Ends-and_then o (or_return b f) h (λ r p. next r p)
  where
    next : (r : Option _) → Maybe P r → Ends Q (or_return b f r)
    next none p = (b, refl, q)
    next (some a) p = k a p

pub not_leb→lt : (a b : ℕ) → leb a b ≡ false → b < a
not_leb→lt a b e = ground arith

pub bytes_at-Ends :
    (src : List ℕ) (pos n : ℕ)
    → pos + n ≤ length src
    → Ends (λ bs. length bs ≡ n) (bytes_at src pos n)
bytes_at-Ends src pos n h =
    Ends-if (leb (pos + n) (length src)) _ _
      (λ e. (_, refl, length-take n (drop pos src) (omega (arith, h, length-drop pos src))))
      (λ e. absurd (omega (arith, h, not_leb→lt (pos + n) (length src) e)))

pub or_false : (a b : Bool) → (a || b) ≡ false → (a ≡ false) × (b ≡ false)
or_false true b e = absurd (true≢false e)
or_false false b e = (refl, e)

-- A header that is read lies within the bytes that were available.
abbrev pub Header : ℕ → ℕ × ℕ → Type 0
Header available r = (2 ≤ r.1) × (r.1 ≤ available)

value_loop-Ends :
    (n at : ℕ) (src : List ℕ) (value : ℕ)
    → at + n ≤ length src
    → Ends (λ v. v ≡ v) (value_loop n at src value)
unfolding value_loop
value_loop-Ends zero at src value h = (value, refl, refl)
value_loop-Ends (suc n) at src value h =
    Ends-and_then (get? src at) _ (get?-inside src at (omega (arith, h)))
      (λ byte s. value_loop-Ends n (at + 1) src _ (omega (arith, h)))

after_tag-Header :
    (src : List ℕ) (available : ℕ)
    → 2 ≤ available
    → available ≤ length src
    → Ends (Maybe (Header available)) (der_length_after_tag src available)
unfolding der_length_after_tag Maybe
after_tag-Header src available h all =
    Ends-and_then (get? src 1) _ (get?-inside src 1 (omega (arith, h, all))) (λ first s.
      let count = bit_and first 0x7F in
      Ends-if (bit_and first 0x80 == 0) _ _ (λ e. (some (first, 2), refl, (omega arith, h)))
        (λ e.
          Ends-if ((count == 0) || ltb 3 count || ltb available (2 + count)) _ _
            (λ f. (none, refl, omega arith))
            (λ f.
              let (g, fits) =
                or_false ((count == 0) || ltb 3 count) (ltb available (2 + count)) f in
              let (z, few) = or_false (count == 0) (ltb 3 count) g in
              let small = not_ltb→le 3 count few in
              let room = not_ltb→le available (2 + count) fits in
              Ends-and_then (value_loop count 2 src 0) _
                (value_loop-Ends count 2 src 0 (omega (arith, room, all)))
                (λ value v. (
                  some (value, (2 + count) % 2 ^ 8),
                  refl,
                  (omega (arith, small), omega (arith, small, room)),
                )))))

module _ (src : List ℕ) where
  pub len_at-Ends :
      (pos available : ℕ)
      → pos + available ≤ length src
      → Ends (Maybe (Header available)) (len_at src pos available)
  unfolding net_tls_parse_der_len_at Maybe
  len_at-Ends pos available h =
      Ends-and_then (bytes_at src pos available) _ (bytes_at-Ends src pos available h) (λ part e.
        Ends-if (ltb available 2) _ _ (λ f. (none, refl, omega arith))
          (λ f. after_tag-Header part available (not_ltb→le available 2 f) (omega (arith, e))))

  pub sequence_at-Ends :
      (pos available : ℕ)
      → pos + available ≤ length src
      → Ends (Maybe (Header available)) (sequence_at src pos available)
  unfolding net_tls_parse_der_sequence_len Maybe
  sequence_at-Ends pos available h =
      Ends-and_then (bytes_at src pos available) _ (bytes_at-Ends src pos available h) (λ part e.
        Ends-if (ltb available 2) _ _ (λ f. (none, refl, omega arith))
          (λ f.
            let two = not_ltb→le available 2 f in
            Ends-and_then (get? part 0) _ (get?-inside part 0 (omega (arith, e, two))) (λ tag s.
              Ends-if (not (tag == 0x30)) _ _ (λ g. (none, refl, omega arith))
                (λ g. after_tag-Header part available two (omega (arith, e))))))

  find_loop-Ends :
      (rounds last pos : ℕ)
      → length src - pos < rounds
      → Ends (Maybe (λ p. p + 6 < length src)) (find_loop rounds last src pos)
  unfolding find_loop Maybe
  find_loop-Ends zero last pos h = absurd (omega (arith, h))
  find_loop-Ends (suc rounds) last pos h =
      Ends-if (ltb (pos + 6) (length src)) _ _
        (λ e.
          let inside = ltb→lt (pos + 6) (length src) e in
          Ends-and_then (bytes_at src pos 5) _ (bytes_at-Ends src pos 5 (omega (arith, inside)))
            (λ id s.
              Ends-if (net_tls_oid_equal id (0x06 ∷ 3 ∷ 0x55 ∷ 0x1D ∷ last ∷ [])) _ _
                (λ f. (some pos, refl, inside))
                (λ f. find_loop-Ends rounds last (pos + 1) (omega (arith, h, inside)))))
        (λ e. (none, refl, omega arith))

  seek_loop-Ends :
      (rounds tag cursor : ℕ)
      → length src - cursor < rounds
      → Ends (λ c. c ≡ c) (seek_loop rounds tag src cursor)
  unfolding seek_loop
  seek_loop-Ends zero tag cursor h = absurd (omega (arith, h))
  seek_loop-Ends (suc rounds) tag cursor h =
      Ends-if (ltb (cursor + 2) (length src)) _ _
        (λ e.
          let inside = ltb→lt (cursor + 2) (length src) e in
          Ends-and_then (get? src cursor) _ (get?-inside src cursor (omega (arith, inside))) (λ b s.
            Ends-if (b == tag) _ _ (λ f. (cursor, refl, refl))
              (λ f. seek_loop-Ends rounds tag (cursor + 1) (omega (arith, h, inside)))))
        (λ e. (cursor, refl, refl))

  pub locate-Ends :
      (last tag : ℕ) → Ends (Maybe (λ cursor. cursor + 2 < length src)) (locate last tag src)
  unfolding Maybe
  locate-Ends last tag =
      Ends-or_return (λ p. p + 6 < length src) (Maybe (λ cursor. cursor + 2 < length src))
        (find_loop (suc (length src)) last src 0) none _
        (find_loop-Ends (suc (length src)) last 0 (omega arith)) (omega arith)
        (λ pos p.
          Ends-and_then (seek_loop (suc (length src)) tag src (pos + 5)) _
            (seek_loop-Ends (suc (length src)) tag (pos + 5) (omega arith))
            (λ cursor q.
              Ends-if (leb (length src) (cursor + 2)) _ _ (λ e. (none, refl, omega arith))
                (λ e. (some cursor, refl, not_leb→lt (length src) (cursor + 2) e))))
