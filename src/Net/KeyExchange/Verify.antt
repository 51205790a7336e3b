-- ===== src/Net/KeyExchange/Verify.antt =====
-- drivers/net.c: `net_tls_verify_kex_signature`, over Sha256 and Ecdsa.
use minerva_os.Base.{
  ℕ, Bool, false, List, ◌++◌, Option, some, if◌then◌else◌, not, ◌&&◌, ◌==◌, leb, length,
}
use minerva_os.Sha256.{sha256_hash}
use minerva_os.Net.Ecdsa.{net_tls_verify_ecdsa_p256}
use minerva_os.Net.Ecdsa.Accepts.{Accepts}
use minerva_os.Net.KeyExchange.{Kex}

-- The fields of the certificate's key, `tls_x509_pubkey_alg` and the like.
pub record PublicKey : Type 0 where
  pub alg : ℕ
  pub curve : ℕ
  pub len : ℕ
  pub x : List ℕ
  pub y : List ℕ

-- The tests that `net_tls_verify_kex_signature` makes before it hashes.
abbrev pub inputs_ready : Kex → PublicKey → Bool
inputs_ready kex key =
    let fits = λ (n : ℕ). not (n == 0) && leb n 32 in
    not (kex.exchange == 0)
    && (not (length kex.params == 0) && leb (length kex.params) 96)
    && ((kex.sig_hash == 4) && (kex.sig_alg == 3))
    && ((key.alg == 2) && (key.curve == 1) && (key.len == 65))
    && (fits kex.signature.r_len && fits kex.signature.s_len)

-- `net_tls_verify_kex_signature`: `tls_kex_sig_match`, which it returns, and `tls_kex_sig_v32`.
unfoldable pub net_tls_verify_kex_signature :
    List ℕ → Kex → PublicKey → List ℕ → List ℕ → Option (Bool × ℕ)
net_tls_verify_kex_signature buffer kex key client_random server_random =
    let digest = sha256_hash buffer (client_random ++ (server_random ++ kex.params)) in
    if inputs_ready kex key
    then net_tls_verify_ecdsa_p256 key.x key.y kex.signature.r kex.signature.s digest
    else some (false, 0)
