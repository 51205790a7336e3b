-- ===== src/Net/Hmac/Reference.antt =====
-- drivers/net.c against the standards' texts: HMAC of RFC 2104 over SHA-256, of data of any length, and
-- P_hash of RFC 5246, section 5.
use minerva_os.Base.{
  ℕ, zero, suc, ◌-◌, List, [], ◌++◌, if◌then◌else◌, leb, map, length, replicate, bit_xor,
}
use minerva_os.Sha256.{sha256_init}
use minerva_os.Sha256.Reference.{sha256}

abbrev pub hash : List ℕ → List ℕ
hash m = sha256 (sha256_init []).state m

-- Keys longer than a block are hashed, and all are filled up with zeros.
abbrev pub block_key : List ℕ → List ℕ
block_key key =
    let short = if leb (length key) 64 then key else hash key in
    short ++ replicate (64 - length short) 0

-- `H(K xor opad, H(K xor ipad, text))`
unfoldable pub hmac : List ℕ → List ℕ → List ℕ
hmac key text = hash (
    map (λ b. bit_xor b 0x5C) (block_key key)
    ++ hash (map (λ b. bit_xor b 0x36) (block_key key) ++ text))

-- `A(i)`
unfoldable pub chain : List ℕ → List ℕ → ℕ → List ℕ
chain secret seed zero = seed
chain secret seed (suc i) = hmac secret (chain secret seed i)

-- `n` terms of `P_hash(secret, seed)`, from the term `i + 1` on: `HMAC_hash(secret, A(i + 1) + seed)`.
unfoldable pub p_hash : ℕ → ℕ → List ℕ → List ℕ → List ℕ
p_hash zero i secret seed = []
p_hash (suc n) i secret seed =
    hmac secret (chain secret seed (suc i) ++ seed) ++ p_hash n (suc i) secret seed
