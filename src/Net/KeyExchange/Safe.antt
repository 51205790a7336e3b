-- ===== src/Net/KeyExchange/Safe.antt =====
-- drivers/net.c: the parser of the key exchange ends inside the message, and what it leaves.
use minerva_os.Base.{
  ℕ, ◌+◌, ◌-◌, ◌^◌, ◌≤◌, ◌<◌, ◌≡◌, refl, ◌∙◌, Bool-cases, inl, inr, List, [], ◌∷◌, none, some,
  if◌then◌else◌, not, ◌&&◌, ◌==◌, ==_iff, ltb, leb, leb→le, not_ltb→le, length, length-append,
  length-replicate, replicate, All, arith,
}
use minerva_os.Base.Ends.{Ends, Ends-and_then, Ends-if, get?, get?-inside}
use minerva_os.Net.Dns.{get16}
use minerva_os.Net.Dns.Safe.{get16-Ends, and_true}
use minerva_os.Net.Extensions.{bytes_at, len_at, sequence_at}
use minerva_os.Net.Extensions.Safe.{
  Maybe, Ends-or_return, bytes_at-Ends, Header, len_at-Ends, sequence_at-Ends,
}
use minerva_os.Net.KeyExchange.{
  Signature, strip, padded, read_integer, with_r, with_s, parse_sequence,
  net_tls_parse_kex_ecdsa_sig, Kex, cleared, read_key, read_signature,
  net_tls_parse_server_key_exchange,
}

-- Each half has its 32 bytes, and the length of each fits the byte that keeps it.
pub record IsSignature (g : Signature) : Type 0 where
  pub r_size : length g.r ≡ 32
  pub s_size : length g.s ≡ 32
  pub r_fits : g.r_len ≤ 255
  pub s_fits : g.s_len ≤ 255

-- The parameters fit their buffer of 96 bytes.
pub record IsKex (kex : Kex) : Type 0 where
  pub signature : IsSignature kex.signature
  pub params : length kex.params ≤ 96

pub length-strip : (bytes : List ℕ) → length (strip bytes) ≤ length bytes
unfolding strip
length-strip [] = omega arith
length-strip (b ∷ []) = omega arith
length-strip (b ∷ c ∷ bytes) = elim (Bool-cases (b == 0)) [
  | inl e ↦ rw e (omega (arith, length-strip (c ∷ bytes)))
  | inr e ↦ rw e (omega arith)
]

length-padded : (old bytes : List ℕ) → length old ≡ 32 → length (padded old bytes) ≡ 32
unfolding padded
length-padded old bytes h = elim (Bool-cases (leb (length bytes) 32)) [
  | inl e ↦ rw e (
      length-append (replicate (32 - length bytes) 0) bytes
      ∙ omega (arith, length-replicate {A = ℕ} (32 - length bytes) 0, leb→le (length bytes) 32 e))
  | inr e ↦ rw e h
]

-- What `read_integer` leaves: an offset inside, and at most 255 bytes.
abbrev Read : List ℕ → ℕ × List ℕ → Type 0
Read sig r = (r.0 ≤ length sig) × (length r.1 ≤ 255)

read_integer-Ends : (sig : List ℕ) (ipos : ℕ) → Ends (Maybe (Read sig)) (read_integer sig ipos)
unfolding read_integer Maybe
read_integer-Ends sig ipos =
    Ends-if (ltb (length sig) (ipos + 2)) _ _ (λ e. (none, refl, omega arith))
      (λ e.
        let inside = not_ltb→le (length sig) (ipos + 2) e in
        Ends-and_then (get? sig ipos) _ (get?-inside sig ipos (omega (arith, inside))) (λ tag s.
          Ends-if (not (tag == 0x02)) _ _ (λ f. (none, refl, omega arith))
            (λ f.
              Ends-or_return (Header (length sig - ipos)) (Maybe (Read sig))
                (len_at sig ipos (length sig - ipos)) none _
                (len_at-Ends sig ipos (length sig - ipos) (omega (arith, inside))) (omega arith)
                (λ header q.
                  let at = ipos + header.1 in
                  Ends-if (ltb 255 header.0) _ _ (λ g. (none, refl, omega arith))
                    (λ g.
                      Ends-if (ltb (length sig) (at + header.0)) _ _
                        (λ k. (none, refl, omega arith))
                        (λ k.
                          let room = not_ltb→le (length sig) (at + header.0) k in
                          Ends-and_then (bytes_at sig at header.0) _
                            (bytes_at-Ends sig at header.0 room)
                            (λ bytes n. (
                              some (at + header.0, strip bytes),
                              refl,
                              (
                                room,
                                omega (arith, length-strip bytes, n, not_ltb→le 255 header.0 g),
                              ),
                            ))))))))

pub parse_sequence-Ends :
    (old : Signature) (sig : List ℕ) → IsSignature old → Ends IsSignature (parse_sequence old sig)
unfolding parse_sequence
parse_sequence-Ends old sig i =
    Ends-or_return (Header (length sig)) IsSignature (sequence_at sig 0 (length sig)) old _
      (sequence_at-Ends sig 0 (length sig) (omega arith)) i
      (λ seq q.
        Ends-if (ltb (length sig) (seq.1 + seq.0)) _ _ (λ e. (old, refl, i))
          (λ e.
            Ends-or_return (Read sig) IsSignature (read_integer sig seq.1) old _
              (read_integer-Ends sig seq.1) i
              (λ first p.
                let half = with_r old first.1 in
                let h : IsSignature half = record {
                  r_size = length-padded old.r first.1 i.r_size;
                  s_size = i.s_size;
                  r_fits = p.1;
                  s_fits = i.s_fits;
                } in
                Ends-or_return (Read sig) IsSignature (read_integer sig first.0) half _
                  (read_integer-Ends sig first.0) h
                  (λ second p'. (
                    with_s half second.1,
                    refl,
                    record {
                      r_size = h.r_size;
                      s_size = length-padded old.s second.1 i.s_size;
                      r_fits = p.1;
                      s_fits = p'.1;
                    },
                  )))))

net_tls_parse_kex_ecdsa_sig-Ends :
    (old : Signature) (sig : List ℕ)
    → IsSignature old
    → Ends IsSignature (net_tls_parse_kex_ecdsa_sig old sig)
unfolding net_tls_parse_kex_ecdsa_sig
net_tls_parse_kex_ecdsa_sig-Ends old sig i =
    Ends-if (ltb (length sig) 8) _ _ (λ e. (old, refl, i)) (λ e. parse_sequence-Ends old sig i)

read_key-Ends :
    (kex : Kex) (body : List ℕ)
    → IsKex kex
    → 4 + kex.pubkey_len ≤ length body
    → Ends IsKex (read_key kex body)
unfolding read_key
read_key-Ends kex body i h =
    Ends-if ((kex.curve_type == 3) && (kex.named_curve == 0x0017) && (kex.pubkey_len == 65)) _ _
      (λ e.
        let size : kex.pubkey_len ≡ 65 =
          (==_iff kex.pubkey_len 65).0
            (and_true ((kex.curve_type == 3) && (kex.named_curve == 0x0017)) (kex.pubkey_len == 65)
              e).1 in
        Ends-and_then (get? body 4) _ (get?-inside body 4 (omega (arith, h, size))) (λ form s.
          Ends-if (not (form == 0x04)) _ _ (λ f. (kex, refl, i))
            (λ f.
              Ends-and_then (bytes_at body 5 32) _
                (bytes_at-Ends body 5 32 (omega (arith, h, size)))
                (λ x p.
                  Ends-and_then (bytes_at body 37 32) _
                    (bytes_at-Ends body 37 32 (omega (arith, h, size)))
                    (λ y q. (_, refl, record { signature = i.signature; params = i.params }))))))
      (λ e. (kex, refl, i))

module _ (body : List ℕ) (octets : All (λ b. b < 2 ^ 8) body) (short : length body ≤ 65280) where
  read_signature-Ends :
      (kex : Kex) (sig_pos : ℕ) → IsKex kex → Ends IsKex (read_signature kex body sig_pos)
  unfolding read_signature
  read_signature-Ends kex sig_pos i =
      Ends-if (ltb (length body) (sig_pos + 4)) _ _ (λ e. (kex, refl, i))
        (λ e.
          let room = not_ltb→le (length body) (sig_pos + 4) e in
          Ends-and_then (get? body sig_pos) _ (get?-inside body sig_pos (omega (arith, room)))
            (λ sig_hash s.
              Ends-and_then (get? body (sig_pos + 1)) _
                (get?-inside body (sig_pos + 1) (omega (arith, room)))
                (λ sig_alg s'.
                  Ends-and_then (get16 body (sig_pos + 2)) _
                    (get16-Ends body octets short (sig_pos + 2) (omega (arith, room)))
                    (λ sig_len p.
                      let noted = record kex {
                        sig_hash = sig_hash;
                        sig_alg = sig_alg;
                        sig_len = sig_len;
                      } in
                      let n : IsKex noted = record { signature = i.signature; params = i.params } in
                      Ends-if (ltb (length body) (sig_pos + 4 + sig_len)) _ _
                        (λ f. (noted, refl, n))
                        (λ f.
                          Ends-if (not (sig_alg == 3)) _ _ (λ g. (noted, refl, n))
                            (λ g.
                              Ends-and_then (bytes_at body (sig_pos + 4) sig_len) _
                                (bytes_at-Ends body (sig_pos + 4) sig_len
                                  (not_ltb→le (length body) (sig_pos + 4 + sig_len) f))
                                (λ sig q.
                                  Ends-and_then (net_tls_parse_kex_ecdsa_sig noted.signature sig) _
                                    (net_tls_parse_kex_ecdsa_sig-Ends noted.signature sig
                                      n.signature)
                                    (λ signature k.
                                      (_, refl, record { signature = k; params = n.params })))))))))

  cleared-IsKex : IsKex (cleared (length body))
  unfolding cleared
  cleared-IsKex = record {
    signature = record { r_size = refl; s_size = refl; r_fits = omega arith; s_fits = omega arith };
    params = omega arith;
  }

  -- For a message of at most 65280 bytes the parser of the key exchange ends without a read outside it, and
  -- leaves parameters of at most 96 bytes and halves of a signature of 32.
  pub net_tls_parse_server_key_exchange-Ends : Ends IsKex (net_tls_parse_server_key_exchange body)
  unfolding net_tls_parse_server_key_exchange
  net_tls_parse_server_key_exchange-Ends =
      let start = cleared-IsKex in
      Ends-if (ltb (length body) 4) _ _ (λ e. (_, refl, start))
        (λ e.
          let room = not_ltb→le (length body) 4 e in
          Ends-and_then (get? body 0) _ (get?-inside body 0 (omega (arith, room))) (λ curve_type s.
            Ends-and_then (get16 body 1) _ (get16-Ends body octets short 1 (omega (arith, room)))
              (λ named_curve p.
                Ends-and_then (get? body 3) _ (get?-inside body 3 (omega (arith, room)))
                  (λ key_len s'.
                    let noted = record (cleared (length body)) {
                      curve_type = curve_type;
                      named_curve = named_curve;
                      pubkey_len = key_len;
                    } in
                    let n : IsKex noted = record {
                      signature = start.signature;
                      params = start.params;
                    } in
                    Ends-if (ltb (length body) (4 + key_len)) _ _ (λ f. (noted, refl, n))
                      (λ f.
                        let fits = not_ltb→le (length body) (4 + key_len) f in
                        Ends-and_then (bytes_at body 0 (4 + key_len)) _
                          (bytes_at-Ends body 0 (4 + key_len) (omega (arith, fits)))
                          (λ head h.
                            let kept = record noted {
                              params = if leb (4 + key_len) 96 then head else [];
                            } in
                            let k : IsKex kept = record {
                              signature = n.signature;
                              params = params_small (4 + key_len) head h;
                            } in
                            Ends-and_then (read_key kept body) _ (read_key-Ends kept body k fits)
                              (λ kex x. read_signature-Ends kex (4 + key_len) x)))))))
    where
      params_small :
          (n : ℕ) (head : List ℕ) → length head ≡ n → length (if leb n 96 then head else []) ≤ 96
      params_small n head h = elim (Bool-cases (leb n 96)) [
        | inl e ↦ rw e (omega (arith, h, leb→le n 96 e))
        | inr e ↦ rw e (omega arith)
      ]
