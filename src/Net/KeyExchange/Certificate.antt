-- ===== src/Net/KeyExchange/Certificate.antt =====
-- drivers/net.c: the signature at the end of a certificate, `net_tls_parse_certificate_signature`.
use minerva_os.Base.{
  ℕ, ◌+◌, ◌-◌, ◌≤◌, refl, List, Option, some, if◌then◌else◌, not, ◌&&◌, ◌==◌, ltb, leb, not_ltb→le,
  length, arith,
}
use minerva_os.Base.Ends.{and_then, Ends, Ends-and_then, Ends-if, get?, get?-inside}
use minerva_os.Net.Der.{net_tls_known_sig_alg}
use minerva_os.Net.Extensions.{bytes_at, len_at, sequence_at, or_return}
use minerva_os.Net.Extensions.Safe.{
  Ends-or_return, not_leb→lt, bytes_at-Ends, Header, len_at-Ends, sequence_at-Ends,
}
use minerva_os.Net.KeyExchange.{Signature, parse_sequence}
use minerva_os.Net.KeyExchange.Safe.{IsSignature, parse_sequence-Ends}

-- The fields `tls_x509_outer_sig_*` and `tls_x509_signature_*` of `g_net`.
pub record CertificateSignature : Type 0 where
  pub outer_oid_len : ℕ
  pub outer_alg : ℕ
  pub unused_bits : ℕ
  pub signature_len : ℕ
  pub signature : Signature

-- The identifier of the algorithm.
unfoldable pub read_outer_alg : CertificateSignature → List ℕ → ℕ → Option CertificateSignature
read_outer_alg x der oid_pos =
    if leb (length der) (oid_pos + 2)
    then some x
    else and_then (get? der oid_pos) (λ tag.
      if not (tag == 0x06)
      then some x
      else and_then (len_at der oid_pos (length der - oid_pos)) (
          or_return x (λ header.
            let (oid_len, oid_header_len) = header in
            if ltb 32 oid_len
            then some x
            else if ltb (length der) (oid_pos + oid_header_len + oid_len)
            then some x
            else and_then (bytes_at der (oid_pos + oid_header_len) oid_len) (λ oid.
              some (record x { outer_oid_len = oid_len; outer_alg = net_tls_known_sig_alg oid })))))

-- The bit string at `pos`.
unfoldable pub read_bits : CertificateSignature → List ℕ → ℕ → Option CertificateSignature
read_bits x der pos =
    if leb (length der) (pos + 2)
    then some x
    else and_then (get? der pos) (λ tag.
      if not (tag == 0x03)
      then some x
      else and_then (len_at der pos (length der - pos)) (
          or_return x (λ header.
            let (bit_len, bit_header_len) = header in
            let at = pos + bit_header_len in
            if ltb bit_len 1
            then some x
            else if ltb 0xFFFF bit_len
            then some x
            else if ltb (length der) (at + bit_len)
            then some x
            else and_then (get? der at) (λ unused.
              let noted = record x { unused_bits = unused; signature_len = bit_len - 1 } in
              if (noted.outer_alg == 3) && (unused == 0)
              then and_then (bytes_at der (at + 1) (bit_len - 1)) (λ sig.
                and_then (parse_sequence noted.signature sig)
                  (λ signature. some (record noted { signature = signature })))
              else some noted))))

-- `net_tls_parse_certificate_signature`
unfoldable pub net_tls_parse_certificate_signature :
    CertificateSignature → List ℕ → ℕ → Option CertificateSignature
net_tls_parse_certificate_signature x der pos =
    if leb (length der) (pos + 4)
    then some x
    else and_then (get? der pos) (λ tag.
      if not (tag == 0x30)
      then some x
      else and_then (sequence_at der pos (length der - pos)) (
          or_return x (λ header.
            let (alg_len, alg_header_len) = header in
            and_then (read_outer_alg x der (pos + alg_header_len))
              (λ y. read_bits y der (pos + alg_header_len + alg_len)))))

-- Both halves of the signature have 32 bytes, and the length of the bit string fits its field.
pub record IsCertificateSignature (x : CertificateSignature) : Type 0 where
  pub signature : IsSignature x.signature
  pub len_fits : x.signature_len ≤ 0xFFFF

module _ (der : List ℕ) where
  read_outer_alg-Ends :
      (x : CertificateSignature) (oid_pos : ℕ)
      → IsCertificateSignature x
      → Ends IsCertificateSignature (read_outer_alg x der oid_pos)
  unfolding read_outer_alg
  read_outer_alg-Ends x oid_pos i =
      Ends-if (leb (length der) (oid_pos + 2)) _ _ (λ e. (x, refl, i))
        (λ e.
          let inside = not_leb→lt (length der) (oid_pos + 2) e in
          Ends-and_then (get? der oid_pos) _ (get?-inside der oid_pos (omega (arith, inside)))
            (λ tag s.
              Ends-if (not (tag == 0x06)) _ _ (λ f. (x, refl, i))
                (λ f.
                  Ends-or_return (Header (length der - oid_pos)) IsCertificateSignature
                    (len_at der oid_pos (length der - oid_pos)) x _
                    (len_at-Ends der oid_pos (length der - oid_pos) (omega (arith, inside))) i
                    (λ header q.
                      Ends-if (ltb 32 header.0) _ _ (λ g. (x, refl, i))
                        (λ g.
                          Ends-if (ltb (length der) (oid_pos + header.1 + header.0)) _ _
                            (λ k. (x, refl, i))
                            (λ k.
                              Ends-and_then (bytes_at der (oid_pos + header.1) header.0) _
                                (bytes_at-Ends der (oid_pos + header.1) header.0
                                  (not_ltb→le (length der) (oid_pos + header.1 + header.0) k))
                                (λ oid o. (
                                  _,
                                  refl,
                                  record { signature = i.signature; len_fits = i.len_fits },
                                ))))))))

  read_bits-Ends :
      (x : CertificateSignature) (pos : ℕ)
      → IsCertificateSignature x
      → Ends IsCertificateSignature (read_bits x der pos)
  unfolding read_bits
  read_bits-Ends x pos i =
      Ends-if (leb (length der) (pos + 2)) _ _ (λ e. (x, refl, i))
        (λ e.
          let inside = not_leb→lt (length der) (pos + 2) e in
          Ends-and_then (get? der pos) _ (get?-inside der pos (omega (arith, inside))) (λ tag s.
            Ends-if (not (tag == 0x03)) _ _ (λ f. (x, refl, i))
              (λ f.
                Ends-or_return (Header (length der - pos)) IsCertificateSignature
                  (len_at der pos (length der - pos)) x _
                  (len_at-Ends der pos (length der - pos) (omega (arith, inside))) i
                  (λ header q.
                    let at = pos + header.1 in
                    Ends-if (ltb header.0 1) _ _ (λ g. (x, refl, i))
                      (λ g.
                        let one = not_ltb→le header.0 1 g in
                        Ends-if (ltb 0xFFFF header.0) _ _ (λ h. (x, refl, i))
                          (λ h.
                            Ends-if (ltb (length der) (at + header.0)) _ _ (λ k. (x, refl, i))
                              (λ k.
                                let room = not_ltb→le (length der) (at + header.0) k in
                                Ends-and_then (get? der at) _
                                  (get?-inside der at (omega (arith, room, one)))
                                  (λ unused u.
                                    let noted = record x {
                                      unused_bits = unused;
                                      signature_len = header.0 - 1;
                                    } in
                                    let n : IsCertificateSignature noted = record {
                                      signature = i.signature;
                                      len_fits = omega (arith, not_ltb→le 0xFFFF header.0 h);
                                    } in
                                    Ends-if ((noted.outer_alg == 3) && (unused == 0)) _ _
                                      (λ m.
                                        Ends-and_then (bytes_at der (at + 1) (header.0 - 1)) _
                                          (bytes_at-Ends der (at + 1) (header.0 - 1)
                                            (omega (arith, room, one)))
                                          (λ sig o.
                                            Ends-and_then (parse_sequence noted.signature sig) _
                                              (parse_sequence-Ends noted.signature sig n.signature)
                                              (λ signature z. (
                                                _,
                                                refl,
                                                record { signature = z; len_fits = n.len_fits },
                                              ))))
                                      (λ m. (noted, refl, n))))))))))

  -- At any offset of any certificate the parser of its signature ends without a read outside the certificate,
  -- and leaves halves of 32 bytes.
  pub net_tls_parse_certificate_signature-Ends :
      (x : CertificateSignature) (pos : ℕ)
      → IsCertificateSignature x
      → Ends IsCertificateSignature (net_tls_parse_certificate_signature x der pos)
  unfolding net_tls_parse_certificate_signature
  net_tls_parse_certificate_signature-Ends x pos i =
      Ends-if (leb (length der) (pos + 4)) _ _ (λ e. (x, refl, i))
        (λ e.
          let inside = not_leb→lt (length der) (pos + 4) e in
          Ends-and_then (get? der pos) _ (get?-inside der pos (omega (arith, inside))) (λ tag s.
            Ends-if (not (tag == 0x30)) _ _ (λ f. (x, refl, i))
              (λ f.
                Ends-or_return (Header (length der - pos)) IsCertificateSignature
                  (sequence_at der pos (length der - pos)) x _
                  (sequence_at-Ends der pos (length der - pos) (omega (arith, inside))) i
                  (λ header q.
                    Ends-and_then (read_outer_alg x der (pos + header.1)) _
                      (read_outer_alg-Ends x (pos + header.1) i)
                      (λ y j. read_bits-Ends y (pos + header.1 + header.0) j)))))
