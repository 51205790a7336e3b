-- ===== src/Net/Hostname.antt =====
-- drivers/net.c: the names of certificates against the name of the host. A string is the list of its
-- bytes before the NUL, and has fewer than 2 ^ 16 of them, since the code counts in a `uint16_t`.
pub mod Wildcard
use minerva_os.Base.{
  ℕ, zero, suc, ◌-◌, Bool, true, false, List, [], ◌∷◌, ◌++◌, if◌then◌else◌, not, ◌&&◌, ◌||◌, ◌==◌,
  leb, ltb, get_or, length, take, map,
}
use minerva_os.Base.Cuts.{drop}

-- `net_tls_str_equal`
unfoldable pub net_tls_str_equal : List ℕ → List ℕ → Bool
net_tls_str_equal [] [] = true
net_tls_str_equal [] (y ∷ b) = false
net_tls_str_equal (x ∷ a) [] = false
net_tls_str_equal (x ∷ a) (y ∷ b) =
    let rest = net_tls_str_equal a b in if x == y then rest else false

-- `for (i = 0; i < offset; i++) if (host[i] == '.') return 0;`: whether it returns.
unfoldable pub dot_loop : ℕ → List ℕ → Bool
dot_loop zero host = false
dot_loop (suc left) [] = false
dot_loop (suc left) (c ∷ host) = let rest = dot_loop left host in if c == b'.' then true else rest

-- `net_tls_dns_matches`
unfoldable pub net_tls_dns_matches : List ℕ → List ℕ → Bool
net_tls_dns_matches host dns =
    let suffix = drop 1 dns in
    let host_len = length host in
    let suffix_len = length suffix in
    let offset = host_len - suffix_len in
    if net_tls_str_equal host dns
    then true
    else if not (get_or dns 0 0 == b'*') || not (get_or dns 1 0 == b'.')
    then false
    else if leb host_len suffix_len
    then false
    else if get_or host (offset - 1) 0 == b'.'
    then false
    else if dot_loop offset host
    then false
    else net_tls_str_equal (drop offset host) suffix
