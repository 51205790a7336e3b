-- ===== src/Net/KeyExchange.antt =====
-- drivers/net.c: the server's key exchange and the signature on it. Bytes are a list as in Extensions: a
-- read outside it is `none`.
pub mod Safe
pub mod Encoded
pub mod Certificate
pub mod Verify
use minerva_os.Base.{
  ℕ, zero, suc, ◌+◌, ◌-◌, ◌*◌, ◌%◌, ◌^◌, Bool, true, false, List, [], ◌∷◌, ◌++◌, Option, none, some,
  if◌then◌else◌, not, ◌&&◌, ◌||◌, ◌==◌, ltb, leb, length, replicate, bit_or,
}
use minerva_os.Base.Ends.{and_then, get?}
use minerva_os.P256.Point.{point_from_be32}
use minerva_os.Sha256.{sha256_hash}
use minerva_os.Net.Ecdsa.{net_tls_verify_ecdsa_p256}
use minerva_os.Net.Dns.{get16}
use minerva_os.Net.Extensions.{bytes_at, len_at, sequence_at, or_return}

-- The fields of a signature in `g_net`: `tls_kex_sig_r`, `_r_len` and `_r32`, and the same of s.
pub record Signature : Type 0 where
  pub r : List ℕ
  pub r_len : ℕ
  pub r32 : ℕ
  pub s : List ℕ
  pub s_len : ℕ
  pub s32 : ℕ

-- `while (r_len > 1 && *r == 0) { r++; r_len--; }`
unfoldable pub strip : List ℕ → List ℕ
strip [] = []
strip (b ∷ []) = b ∷ []
strip (b ∷ c ∷ bytes) = let rest = strip (c ∷ bytes) in if b == 0 then rest else b ∷ c ∷ bytes

-- `for (i = 0; i < 4 && i < r_len; i++) r32 = (r32 << 8) | r[i];`
unfoldable pub prefix_loop : ℕ → List ℕ → ℕ → ℕ
prefix_loop zero bytes value = value
prefix_loop (suc left) [] value = value
prefix_loop (suc left) (b ∷ bytes) value =
    prefix_loop left bytes (bit_or (value * 2 ^ 8 % 2 ^ 32) b)

-- The 32 bytes of a half, which stay as they are for a longer integer.
unfoldable pub padded : List ℕ → List ℕ → List ℕ
padded old bytes = if leb (length bytes) 32 then replicate (32 - length bytes) 0 ++ bytes else old

-- An integer at an offset: the offset behind it and its bytes without leading zeros.
unfoldable pub read_integer : List ℕ → ℕ → Option (Option (ℕ × List ℕ))
read_integer sig ipos =
    if ltb (length sig) (ipos + 2)
    then some none
    else and_then (get? sig ipos) (λ tag.
      if not (tag == 0x02)
      then some none
      else and_then (len_at sig ipos (length sig - ipos)) (
          or_return none (λ header.
            let (r_len, r_header_len) = header in
            let at = ipos + r_header_len in
            if ltb 255 r_len
            then some none
            else if ltb (length sig) (at + r_len)
            then some none
            else and_then (bytes_at sig at r_len)
                (λ bytes. some (some (at + r_len, strip bytes))))))

abbrev pub with_r : Signature → List ℕ → Signature
with_r old bytes = record old {
  r = padded old.r bytes;
  r_len = length bytes;
  r32 = prefix_loop 4 bytes 0;
}

abbrev pub with_s : Signature → List ℕ → Signature
with_s old bytes = record old {
  s = padded old.s bytes;
  s_len = length bytes;
  s32 = prefix_loop 4 bytes 0;
}

-- The part that `net_tls_parse_kex_ecdsa_sig` and `net_tls_parse_certificate_signature` share.
unfoldable pub parse_sequence : Signature → List ℕ → Option Signature
parse_sequence old sig = and_then (sequence_at sig 0 (length sig)) (
    or_return old (λ seq.
      let (seq_len, seq_header_len) = seq in
      if ltb (length sig) (seq_header_len + seq_len)
      then some old
      else and_then (read_integer sig seq_header_len) (
          or_return old (λ first.
            let (ipos, r) = first in
            let half = with_r old r in
            and_then (read_integer sig ipos)
              (or_return half (λ second. some (with_s half second.1)))))))

-- `net_tls_parse_kex_ecdsa_sig`: that the first byte is a sequence's, the parser of sequences tests again.
unfoldable pub net_tls_parse_kex_ecdsa_sig : Signature → List ℕ → Option Signature
net_tls_parse_kex_ecdsa_sig old sig =
    if ltb (length sig) 8 then some old else parse_sequence old sig

-- The fields of the key exchange in `g_net`.
pub record Kex : Type 0 where
  pub exchange : ℕ
  pub exchange_len : ℕ
  pub curve_type : ℕ
  pub named_curve : ℕ
  pub pubkey_len : ℕ
  pub pubkey_valid : Bool
  pub sig_hash : ℕ
  pub sig_alg : ℕ
  pub sig_len : ℕ
  pub signature : Signature
  pub params : List ℕ

-- What the start of `net_tls_parse_server_key_exchange` clears; `params` keeps its first
-- `tls_kex_params_len` bytes.
unfoldable pub cleared : ℕ → Kex
cleared len = record {
  exchange = 1;
  exchange_len = if ltb 0xFFFF len then 0xFFFF else len;
  curve_type = 0;
  named_curve = 0;
  pubkey_len = 0;
  pubkey_valid = false;
  sig_hash = 0;
  sig_alg = 0;
  sig_len = 0;
  signature = record {
    r = replicate 32 0;
    r_len = 0;
    r32 = 0;
    s = replicate 32 0;
    s_len = 0;
    s32 = 0;
  };
  params = [];
}

-- The test of the key, which is at the offset 4.
unfoldable pub read_key : Kex → List ℕ → Option Kex
read_key kex body =
    if (kex.curve_type == 3) && (kex.named_curve == 0x0017) && (kex.pubkey_len == 65)
    then and_then (get? body 4) (λ form.
      if not (form == 0x04)
      then some kex
      else and_then (bytes_at body 5 32) (λ x.
        and_then (bytes_at body 37 32)
          (λ y. some (record kex { pubkey_valid = (point_from_be32 x y).1 }))))
    else some kex

-- The part from `sig_pos` on.
unfoldable pub read_signature : Kex → List ℕ → ℕ → Option Kex
read_signature kex body sig_pos =
    if ltb (length body) (sig_pos + 4)
    then some kex
    else and_then (get? body sig_pos) (λ sig_hash. and_then (get? body (sig_pos + 1)) (λ sig_alg.
      and_then (get16 body (sig_pos + 2)) (λ sig_len.
        let noted = record kex { sig_hash = sig_hash; sig_alg = sig_alg; sig_len = sig_len } in
        if ltb (length body) (sig_pos + 4 + sig_len)
        then some noted
        else if not (sig_alg == 3)
        then some noted
        else and_then (bytes_at body (sig_pos + 4) sig_len) (λ sig.
          and_then (net_tls_parse_kex_ecdsa_sig noted.signature sig)
            (λ signature. some (record noted { signature = signature }))))))

-- `net_tls_parse_server_key_exchange`; the words of the key that it shows are left out.
unfoldable pub net_tls_parse_server_key_exchange : List ℕ → Option Kex
net_tls_parse_server_key_exchange body =
    let len = length body in
    if ltb len 4
    then some (cleared len)
    else and_then (get? body 0) (λ curve_type. and_then (get16 body 1) (λ named_curve.
      and_then (get? body 3) (λ key_len.
        let noted = record (cleared len) {
          curve_type = curve_type;
          named_curve = named_curve;
          pubkey_len = key_len;
        } in
        if ltb len (4 + key_len)
        then some noted
        else and_then (bytes_at body 0 (4 + key_len)) (λ head.
          let kept = record noted { params = if leb (4 + key_len) 96 then head else [] } in
          and_then (read_key kept body) (λ kex. read_signature kex body (4 + key_len))))))
