-- ===== src/Net/Tests.antt =====
-- drivers/net.c: known answers, and the theorems at concrete inputs.
use minerva_os.Base.{
  ℕ, ◌+◌, ◌*◌, ◌/◌, ◌≡◌, ◌≢◌, ◌↔◌, ◌⊎◌, refl, List, [], ◌∷◌, ◌++◌, Bool, true, false, ◌≤◌, ◌<◌,
  table, replicate, length, take, leb, if◌then◌else◌, ◌==◌, some, none, arith,
}
use minerva_os.Base.Ends.{Ends}
use minerva_os.P256.Point.{gx_be, gy_be}
use minerva_os.P256.Scalar.{n_minus_2_be}
use minerva_os.Net.Bytes.{put16be}
use minerva_os.Net.Aes.{
  aes128_encrypt_block, aes_key_expand, key_loop, aes_shift_rows, aes_mix_columns, aes_xtime,
  round_loop, xor_bytes,
}
use minerva_os.Net.Gcm.{aes128_gcm_encrypt, aes128_gcm_decrypt}
use minerva_os.Net.Gcm.RoundTrip.{aes128_gcm_decrypt-aes128_gcm_encrypt}
use minerva_os.Net.Hmac.{net_tls_prf_sha256}
use minerva_os.Net.Hmac.Reference.{p_hash}
use minerva_os.Net.Hmac.Refine.{net_tls_prf_sha256_lem}
use minerva_os.Net.Ecdsa.{net_tls_verify_ecdsa_p256}
use minerva_os.Net.Ecdsa.Accepts.{Accepts, net_tls_verify_ecdsa_p256-Accepts}
use minerva_os.Net.Checksum.{ipv4_checksum, transport_checksum}
use minerva_os.Net.Checksum.Verify.{
  ipv4_checksum-ipv4_checksum, transport_checksum-transport_checksum,
}
use minerva_os.Net.Hostname.{net_tls_dns_matches}
use minerva_os.Net.Hostname.Wildcard.{Wildcard, net_tls_dns_matches_iff}
use minerva_os.Net.Der.{
  net_tls_parse_der_len_at, net_tls_parse_der_sequence_len, net_tls_parse_asn1_date,
}
use minerva_os.Net.Der.Lengths.{der_length, net_tls_parse_der_len_at-der_length}
use minerva_os.Net.Der.Dates.{utc_time, generalized_time, net_tls_parse_asn1_date_lem}
use minerva_os.Net.Info.{net_init}
use minerva_os.Net.Dns.{net_handle_dns}
use minerva_os.Net.Dns.Safe.{Handled, net_handle_dns-Ends}
use minerva_os.Net.Extensions.{X509}
use minerva_os.Net.Extensions.Parse.{parse_extensions}
use minerva_os.Net.Extensions.Keeps.{IsX509}
use minerva_os.Net.Extensions.Flags.{parse_extensions-Ends}
use minerva_os.Net.KeyExchange.{
  Signature, net_tls_parse_kex_ecdsa_sig, net_tls_parse_server_key_exchange,
}
use minerva_os.Net.KeyExchange.Safe.{IsKex, net_tls_parse_server_key_exchange-Ends}
use minerva_os.Net.KeyExchange.{Kex}
use minerva_os.Net.KeyExchange.Verify.{PublicKey}
use minerva_os.Net.KeyExchange.Encoded.{der_signature, net_tls_parse_kex_ecdsa_sig-der_signature}

-- The example of FIPS 197, appendix C.1.
aes128_encrypt_block_known :
    aes128_encrypt_block (table 16 (λ i. i)) (table 16 (λ i. 0x11 * i))
    ≡ 0x69 ∷ 0xC4 ∷ 0xE0 ∷ 0xD8 ∷ 0x6A ∷ 0x7B ∷ 0x04 ∷ 0x30 ∷ 0xD8 ∷ 0xCD ∷ 0xB7 ∷ 0x80 ∷ 0x70
      ∷ 0xB4 ∷ 0xC5 ∷ 0x5A ∷ []
unfolding aes128_encrypt_block aes_key_expand key_loop aes_shift_rows aes_mix_columns aes_xtime
    round_loop xor_bytes
aes128_encrypt_block_known = refl

abbrev key : List ℕ
key = table 16 (λ i. 3 * i)

abbrev nonce : List ℕ
nonce = table 12 (λ i. 7 * i)

abbrev aad : List ℕ
aad = table 13 (λ i. 5 * i)

abbrev greeting : List ℕ
greeting = table 20 (λ i. 100 + i)

aes128_gcm_decrypt-aes128_gcm_encrypt_example :
    let made = aes128_gcm_encrypt key nonce aad greeting in
    let r = aes128_gcm_decrypt key nonce aad made.0 made.1 in
    ((r ≡ some greeting) × (made.1 ≡ made.1)) ⊎ ((r ≡ none) × (made.1 ≢ made.1))
aes128_gcm_decrypt-aes128_gcm_encrypt_example =
    aes128_gcm_decrypt-aes128_gcm_encrypt key nonce aad greeting
      (aes128_gcm_encrypt key nonce aad greeting).1 (omega arith) refl

abbrev label : List ℕ
label = b'k' ∷ b'e' ∷ b'y' ∷ []

net_tls_prf_sha256_lem_example : net_tls_prf_sha256 (replicate 64 0) key label nonce 40 ≡ (
    if leb (length label + length nonce) 128
    then some (take 40 (p_hash ((40 + 31) / 32) 0 key (label ++ nonce)))
    else none)
net_tls_prf_sha256_lem_example =
    net_tls_prf_sha256_lem (replicate 64 0) key label nonce 40 refl (omega arith)

net_tls_verify_ecdsa_p256-Accepts_example :
    (b : Bool) × (v : ℕ) × (net_tls_verify_ecdsa_p256 gx_be gy_be n_minus_2_be n_minus_2_be gx_be
      ≡ some (b, v))
    × ((b ≡ true) ↔ Accepts gx_be gy_be n_minus_2_be n_minus_2_be gx_be)
net_tls_verify_ecdsa_p256-Accepts_example =
    net_tls_verify_ecdsa_p256-Accepts gx_be gy_be n_minus_2_be n_minus_2_be gx_be (omega arith)
      (omega arith) (omega arith) (omega arith) (omega arith) refl refl refl refl refl

abbrev header_front : List ℕ
header_front = 0x45 ∷ 0 ∷ 0 ∷ 0x3C ∷ 0x10 ∷ 0 ∷ 0 ∷ 0 ∷ 64 ∷ 17 ∷ []

abbrev local_ip : List ℕ
local_ip = 10 ∷ 0 ∷ 2 ∷ 15 ∷ []

abbrev dns_ip : List ℕ
dns_ip = 10 ∷ 0 ∷ 2 ∷ 3 ∷ []

ipv4_checksum-ipv4_checksum_example :
    let back = local_ip ++ dns_ip in
    ipv4_checksum
      (header_front ++ (put16be (ipv4_checksum (header_front ++ (put16be 0 ++ back))) ++ back))
    ≡ 0
ipv4_checksum-ipv4_checksum_example =
    ipv4_checksum-ipv4_checksum 5 header_front (local_ip ++ dns_ip) (omega arith) (omega arith) refl
      (omega arith)

abbrev udp_front : List ℕ
udp_front = 0xC0 ∷ 0x01 ∷ 0 ∷ 53 ∷ 0 ∷ 28 ∷ []

transport_checksum-transport_checksum_example :
    let c = transport_checksum local_ip dns_ip 17 (udp_front ++ (put16be 0 ++ greeting)) in
    (c ≢ 0)
    × (transport_checksum local_ip dns_ip 17 (udp_front ++ (put16be c ++ greeting)) ≡ 0xFFFF)
transport_checksum-transport_checksum_example =
    transport_checksum-transport_checksum local_ip dns_ip 17 3 udp_front greeting
      (omega arith, refl) (omega arith, refl) (omega arith) (omega arith) (omega arith) refl
      (omega arith)

abbrev host : List ℕ
host = b'w' ∷ b'.' ∷ b'a' ∷ b'.' ∷ b'b' ∷ []

abbrev pattern_name : List ℕ
pattern_name = b'*' ∷ b'.' ∷ b'a' ∷ b'.' ∷ b'b' ∷ []

net_tls_dns_matches_iff_example :
    (net_tls_dns_matches host pattern_name ≡ true)
    ↔ ((host ≡ pattern_name) ⊎ Wildcard host pattern_name)
net_tls_dns_matches_iff_example = net_tls_dns_matches_iff host pattern_name

net_tls_parse_der_len_at-der_length_example :
    let src = 0x30 ∷ (der_length 1000 ++ greeting) in
    (net_tls_parse_der_len_at src (length src) ≡ some (some (1000, 1 + length (der_length 1000))))
    × (net_tls_parse_der_sequence_len src (length src)
        ≡ some (if 0x30 == 0x30 then some (1000, 1 + length (der_length 1000)) else none))
net_tls_parse_der_len_at-der_length_example =
    net_tls_parse_der_len_at-der_length 0x30 1000 greeting (omega arith)

net_tls_parse_asn1_date_lem_example :
    let date = 2026 * 10000 + 2 * 100 + 28 in
    (net_tls_parse_asn1_date 0x18
        (generalized_time 2026 2 28 greeting)
        (length (generalized_time 2026 2 28 greeting))
      ≡ date)
    × (1950 ≤ 2026
        → 2026 < 2050
        → net_tls_parse_asn1_date 0x17
            (utc_time 2026 2 28 greeting)
            (length (utc_time 2026 2 28 greeting))
          ≡ date)
net_tls_parse_asn1_date_lem_example =
    net_tls_parse_asn1_date_lem 2026 2 28 greeting (omega arith) (omega arith) (omega arith)
      (omega arith) (omega arith)

-- An answer with one question, whose name is "a", and one address.
abbrev answer : List ℕ
answer =
    0x4D ∷ 0x4E ∷ 0x81 ∷ 0x80 ∷ 0 ∷ 1 ∷ 0 ∷ 1 ∷ 0 ∷ 0 ∷ 0 ∷ 0 ∷ 1 ∷ b'a' ∷ 0 ∷ 0 ∷ 1 ∷ 0 ∷ 1 ∷ 0xC0
    ∷ 12 ∷ 0 ∷ 1 ∷ 0 ∷ 1 ∷ 0 ∷ 0 ∷ 0 ∷ 9 ∷ 0 ∷ 4 ∷ 93 ∷ 184 ∷ 216 ∷ 34 ∷ []

net_handle_dns-Ends_example : Ends Handled (net_handle_dns net_init answer)
unfolding net_init
net_handle_dns-Ends_example =
    net_handle_dns-Ends net_init answer (omega arith) (omega arith)
      (record { count = omega arith; places = refl })

abbrev no_x509 : X509
no_x509 = record {
  http_host = host;
  san_dns = [];
  host_match = false;
  basic_constraints = 0;
  is_ca = 0;
  key_usage = 0;
  key_usage_bits = 0;
  eku = 0;
  eku_bits = 0;
}

-- The bytes of an extension with the name "w.a.b".
abbrev san_bytes : List ℕ
san_bytes = 6 ∷ 3 ∷ 0x55 ∷ 0x1D ∷ 0x11 ∷ 4 ∷ 9 ∷ 0x30 ∷ 7 ∷ 0x82 ∷ 5 ∷ host

parse_extensions-Ends_example : Ends IsX509 (parse_extensions no_x509 san_bytes)
parse_extensions-Ends_example = parse_extensions-Ends no_x509 san_bytes (record {
  name_fits = omega arith;
  name_prints = omega arith;
  ca_flag = omega arith;
  usage_flags = omega arith;
  eku_flags = omega arith;
})

abbrev no_signature : Signature
no_signature = record {
  r = replicate 32 0;
  r_len = 0;
  r32 = 0;
  s = replicate 32 0;
  s_len = 0;
  s32 = 0;
}

net_tls_parse_kex_ecdsa_sig-der_signature_example :
    (g : Signature) × (net_tls_parse_kex_ecdsa_sig no_signature (der_signature n_minus_2_be gx_be)
      ≡ some g)
    × (g.r ≡ n_minus_2_be)
    × (g.s ≡ gx_be)
    × (1 ≤ g.r_len)
    × (g.r_len ≤ 32)
    × (1 ≤ g.s_len)
    × (g.s_len ≤ 32)
net_tls_parse_kex_ecdsa_sig-der_signature_example =
    net_tls_parse_kex_ecdsa_sig-der_signature no_signature n_minus_2_be gx_be refl refl

-- A named curve, a key of 65 bytes and a signature that is cut off.
abbrev exchange : List ℕ
exchange =
    (3 ∷ 0 ∷ 0x17 ∷ 65 ∷ 4 ∷ (gx_be ++ gy_be))
    ++ 4 ∷ 3 ∷ 0 ∷ 8 ∷ 0x30 ∷ 6 ∷ 2 ∷ 1 ∷ 9 ∷ 2 ∷ 1 ∷ 7 ∷ []

net_tls_parse_server_key_exchange-Ends_example :
    Ends IsKex (net_tls_parse_server_key_exchange exchange)
net_tls_parse_server_key_exchange-Ends_example =
    net_tls_parse_server_key_exchange-Ends exchange (omega arith) (omega arith)

-- What the key exchange leaves, with the halves of a signature as its bytes.
abbrev signed_kex : Kex
signed_kex = record {
  exchange = 1;
  exchange_len = 81;
  curve_type = 3;
  named_curve = 0x0017;
  pubkey_len = 65;
  pubkey_valid = true;
  sig_hash = 4;
  sig_alg = 3;
  sig_len = 70;
  signature = record {
    r = n_minus_2_be;
    r_len = 32;
    r32 = 0xFFFFFFFF;
    s = n_minus_2_be;
    s_len = 32;
    s32 = 0xFFFFFFFF;
  };
  params = 3 ∷ 0 ∷ 0x17 ∷ 65 ∷ 4 ∷ (gx_be ++ gy_be);
}

abbrev public_key : PublicKey
public_key = record { alg = 2; curve = 1; len = 65; x = gx_be; y = gy_be }
