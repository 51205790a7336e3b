-- ===== src/Net/Extensions/Parse.antt =====
-- drivers/net.c: the parsers of the four extensions, and their calls in a row.
use minerva_os.Base.{
  ℕ, zero, suc, ◌+◌, ◌-◌, List, [], ◌∷◌, Option, none, some, if◌then◌else◌, not, ◌&&◌, ◌||◌, ◌==◌,
  ltb, leb, length, bit_and, bit_or,
}
use minerva_os.Base.Ends.{and_then, get?}
use minerva_os.Net.Der.{net_tls_oid_equal}
use minerva_os.Net.Hostname.{net_tls_dns_matches}
use minerva_os.Net.Extensions.{
  X509, net_tls_copy_name_string, bytes_at, len_at, sequence_at, or_return, locate,
}

-- A name of the certificate at an offset, of `name_len` bytes.
unfoldable pub note_san : X509 → List ℕ → ℕ → ℕ → Option X509
note_san x src name name_len = and_then (bytes_at src name name_len) (λ bytes.
    let san_dns = net_tls_copy_name_string bytes in
    some (record x { san_dns = san_dns; host_match = net_tls_dns_matches x.http_host san_dns }))

-- `while (cursor + 2 <= end)` of `net_tls_parse_san_dns`.
unfoldable pub san_loop : ℕ → X509 → List ℕ → ℕ → ℕ → Option X509
san_loop zero x src cursor end = none
san_loop (suc rounds) x src cursor end =
    if leb (cursor + 2) end
    then and_then (get? src cursor) (λ tag. and_then (get? src (cursor + 1)) (λ name_len.
      let name = cursor + 2 in
      if not (bit_and name_len 0x80 == 0)
      then some x
      else if ltb end (name + name_len)
      then some x
      else if tag == 0x82
      then note_san x src name name_len
      else san_loop rounds x src (name + name_len) end))
    else some x

-- `net_tls_parse_san_dns`
unfoldable pub net_tls_parse_san_dns : X509 → List ℕ → Option X509
net_tls_parse_san_dns x src = and_then (locate 0x11 0x30 src) (
    or_return x (λ cursor. and_then (sequence_at src cursor (length src - cursor)) (
      or_return x (λ seq.
        let (seq_len, seq_header_len) = seq in
        let end = cursor + seq_header_len + seq_len in
        if ltb (length src) end
        then some x
        else san_loop (suc (length src)) x src (cursor + seq_header_len) end))))

-- The reads of the flag of `net_tls_parse_basic_constraints`.
unfoldable pub read_is_ca : X509 → List ℕ → ℕ → ℕ → Option X509
read_is_ca x src bpos bend =
    if leb (bpos + 3) bend
    then and_then (get? src bpos) (λ tag. and_then (get? src (bpos + 1)) (λ len.
      and_then (get? src (bpos + 2)) (λ flag.
        let is_ca = if (tag == 0x01) && (len == 0x01) then (if flag == 0 then 0 else 1) else 0 in
        some (record x { is_ca = is_ca }))))
    else some (record x { is_ca = 0 })

-- `net_tls_parse_basic_constraints`
unfoldable pub net_tls_parse_basic_constraints : X509 → List ℕ → Option X509
net_tls_parse_basic_constraints x src = and_then (locate 0x13 0x04 src) (
    or_return x (λ cursor. and_then (len_at src cursor (length src - cursor)) (
      or_return x (λ octet.
        let (octet_len, octet_header_len) = octet in
        let inner = cursor + octet_header_len in
        if ltb (length src) (inner + octet_len)
        then some x
        else and_then (sequence_at src inner octet_len) (
            or_return x (λ seq.
              let (seq_len, seq_header_len) = seq in
              let bpos = inner + seq_header_len in
              if ltb octet_len (seq_header_len + seq_len)
              then some x
              else read_is_ca (record x { basic_constraints = 1 }) src bpos (bpos + seq_len)))))))

-- The three flags that `net_tls_parse_key_usage` keeps.
abbrev pub usage_bits : ℕ → ℕ
usage_bits usage =
    (if bit_and usage 0x80 == 0 then 0 else 1)
    + (if bit_and usage 0x20 == 0 then 0 else 2)
    + (if bit_and usage 0x04 == 0 then 0 else 4)

-- The bit string of `net_tls_parse_key_usage`.
unfoldable pub read_usage : X509 → List ℕ → ℕ → ℕ → Option X509
read_usage x src inner octet_len = and_then (get? src inner) (λ tag.
    if not (tag == 0x03)
    then some x
    else and_then (len_at src inner octet_len) (
        or_return x (λ bits.
          let (bit_len, bit_header_len) = bits in
          if ltb bit_len 2 || ltb octet_len (bit_header_len + bit_len)
          then some x
          else and_then (get? src (inner + bit_header_len + 1))
              (λ usage. some (record x { key_usage = 1; key_usage_bits = usage_bits usage })))))

-- `net_tls_parse_key_usage`
unfoldable pub net_tls_parse_key_usage : X509 → List ℕ → Option X509
net_tls_parse_key_usage x src = and_then (locate 0x0F 0x04 src) (
    or_return x (λ cursor. and_then (len_at src cursor (length src - cursor)) (
      or_return x (λ octet.
        let (octet_len, octet_header_len) = octet in
        let inner = cursor + octet_header_len in
        if ltb (length src) (inner + octet_len)
        then some x
        else if ltb octet_len 4
        then some x
        else read_usage x src inner octet_len))))

abbrev pub server_auth : List ℕ
server_auth = 0x2B ∷ 0x06 ∷ 0x01 ∷ 0x05 ∷ 0x05 ∷ 0x07 ∷ 0x03 ∷ 0x01 ∷ []

abbrev pub client_auth : List ℕ
client_auth = 0x2B ∷ 0x06 ∷ 0x01 ∷ 0x05 ∷ 0x05 ∷ 0x07 ∷ 0x03 ∷ 0x02 ∷ []

-- `tls_x509_eku_bits` with the bits of an identifier added.
abbrev pub add_eku : List ℕ → ℕ → ℕ
add_eku oid bits =
    let server = if net_tls_oid_equal oid server_auth then bit_or bits 1 else bits in
    if net_tls_oid_equal oid client_auth then bit_or server 2 else server

-- `while (oid_pos + 2 <= end)` of `net_tls_parse_extended_key_usage`.
unfoldable pub eku_loop : ℕ → X509 → List ℕ → ℕ → ℕ → Option X509
eku_loop zero x src oid_pos end = none
eku_loop (suc rounds) x src oid_pos end =
    if leb (oid_pos + 2) end
    then and_then (get? src oid_pos) (λ tag.
      if not (tag == 0x06)
      then some x
      else and_then (len_at src oid_pos (end - oid_pos)) (
          or_return x (λ header.
            let (oid_len, oid_header_len) = header in
            let at = oid_pos + oid_header_len in
            if ltb 32 oid_len
            then some x
            else if ltb end (at + oid_len)
            then some x
            else and_then (bytes_at src at oid_len) (λ oid.
              eku_loop rounds (record x { eku_bits = add_eku oid x.eku_bits }) src (at + oid_len)
                end))))
    else some x

-- `net_tls_parse_extended_key_usage`
unfoldable pub net_tls_parse_extended_key_usage : X509 → List ℕ → Option X509
net_tls_parse_extended_key_usage x src = and_then (locate 0x25 0x04 src) (
    or_return x (λ cursor. and_then (len_at src cursor (length src - cursor)) (
      or_return x (λ octet.
        let (octet_len, octet_header_len) = octet in
        let inner = cursor + octet_header_len in
        if ltb (length src) (inner + octet_len)
        then some x
        else and_then (sequence_at src inner octet_len) (
            or_return x (λ seq.
              let (seq_len, seq_header_len) = seq in
              let oid_pos = inner + seq_header_len in
              if ltb octet_len (seq_header_len + seq_len)
              then some x
              else eku_loop (suc (length src)) (record x { eku = 1; eku_bits = 0 }) src oid_pos
                  (oid_pos + seq_len)))))))

-- The calls at the end of `net_tls_parse_first_certificate_der`.
unfoldable pub parse_extensions : X509 → List ℕ → Option X509
parse_extensions x src = and_then (net_tls_parse_san_dns x src) (λ x.
    and_then (net_tls_parse_basic_constraints x src)
      (λ x. and_then (net_tls_parse_key_usage x src) (λ x. net_tls_parse_extended_key_usage x src)))
