-- ===== src/Net/Hmac.antt =====
-- drivers/net.c: `net_hmac_sha256` and `net_tls_prf_sha256`. Bytes stand for `secret`, `label` and
-- `seed`, and `buffer` for what the stack holds where `sha256_hash` puts its context.
pub mod Reference
pub mod Refine
use minerva_os.Base.{
  ℕ, zero, suc, ◌+◌, ◌-◌, ◌/◌, List, [], ◌∷◌, ◌++◌, Option, none, some, if◌then◌else◌, ltb, map,
  take, length, replicate, bit_xor,
}
use minerva_os.Sha256.{sha256_hash}

-- The key, cleared to 64 bytes.
abbrev pub key_block : List ℕ → List ℕ → List ℕ
key_block buffer key =
    if ltb 64 (length key)
    then sha256_hash buffer key ++ replicate 32 0
    else key ++ replicate (64 - length key) 0

-- `net_hmac_sha256`: at most 160 bytes of data are read.
unfoldable pub net_hmac_sha256 : List ℕ → List ℕ → List ℕ → List ℕ
net_hmac_sha256 buffer key text =
    let k0 = key_block buffer key in
    let inner = map (λ b. bit_xor b 0x36) k0 in
    let outer = map (λ b. bit_xor b 0x5C) k0 in
    let text_len = if ltb 160 (length text) then 160 else length text in
    let inner_hash = sha256_hash buffer (inner ++ take text_len text) in
    sha256_hash buffer (outer ++ inner_hash)

-- The loop of `net_tls_prf_sha256`, with `want` bytes of `out` left to write.
unfoldable pub prf_loop : ℕ → ℕ → List ℕ → List ℕ → List ℕ → List ℕ → List ℕ
prf_loop zero want buffer secret label_seed a = []
prf_loop (suc left) want buffer secret label_seed a =
    let block = net_hmac_sha256 buffer secret (a ++ label_seed) in
    let copy = if ltb 32 want then 32 else want in
    take copy block
    ++ prf_loop left (want - copy) buffer secret label_seed (net_hmac_sha256 buffer secret a)

-- `net_tls_prf_sha256`: the bytes of `out`, or none when `out` is left as it is.
unfoldable pub net_tls_prf_sha256 : List ℕ → List ℕ → List ℕ → List ℕ → ℕ → Option (List ℕ)
net_tls_prf_sha256 buffer secret label seed out_len =
    let label_seed = label ++ seed in
    if ltb 128 (length label + length seed)
    then none
    else some (
        prf_loop ((out_len + 31) / 32) out_len buffer secret label_seed
          (net_hmac_sha256 buffer secret label_seed))
