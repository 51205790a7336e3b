-- ===== src/Net/Checksum.antt =====
-- drivers/net.c: the checksums of IPv4, UDP and TCP.
pub mod Sums
pub mod Verify
use minerva_os.Base.{
  ℕ, zero, suc, ◌+◌, ◌-◌, ◌*◌, ◌%◌, ◌^◌, List, [], ◌∷◌, if◌then◌else◌, ◌==◌, length, get_or,
  bit_and, bit_or,
}
use minerva_os.Base.Bits.{shr}

-- `((uint16_t)hi << 8) | lo`
unfoldable pub word : ℕ → ℕ → ℕ
word hi lo = bit_or (hi * 2 ^ 8 % 2 ^ 16) lo

-- `while (sum >> 16) sum = (sum & 0xFFFFu) + (sum >> 16);`, for at most so many rounds.
unfoldable pub fold_loop : ℕ → ℕ → ℕ
fold_loop zero sum = sum
fold_loop (suc left) sum =
    let rest = fold_loop left (bit_and sum 0xFFFF + shr sum 16) in
    if shr sum 16 == 0 then sum else rest

-- The loop over the words of both checksums: two rounds of the inner loop are enough. (`i` is a
-- `uint16_t`, and the C loop ends for up to 65534 bytes.)
unfoldable pub sum_loop : List ℕ → ℕ → ℕ
sum_loop [] sum = sum
sum_loop (hi ∷ []) sum = fold_loop 2 ((sum + word hi 0) % 2 ^ 32)
sum_loop (hi ∷ lo ∷ bytes) sum = sum_loop bytes (fold_loop 2 ((sum + word hi lo) % 2 ^ 32))

-- `(uint16_t)(~sum)`
abbrev pub complement : ℕ → ℕ
complement sum = 0xFFFF - sum % 2 ^ 16

-- `ipv4_checksum`
unfoldable pub ipv4_checksum : List ℕ → ℕ
ipv4_checksum bytes = complement (sum_loop bytes 0)

-- `sum` before the loop of `transport_checksum`.
unfoldable pub pseudo_header : List ℕ → List ℕ → ℕ → ℕ → ℕ
pseudo_header src_ip dst_ip protocol segment_length =
    let at = λ (ip : List ℕ) (i : ℕ). word (get_or ip i 0) (get_or ip (i + 1) 0) in
    at src_ip 0 + at src_ip 2 + at dst_ip 0 + at dst_ip 2 + protocol + segment_length

-- `transport_checksum`
unfoldable pub transport_checksum : List ℕ → List ℕ → ℕ → List ℕ → ℕ
transport_checksum src_ip dst_ip protocol segment =
    let sum =
      fold_loop 2 (sum_loop segment (pseudo_header src_ip dst_ip protocol (length segment))) in
    let result = complement sum in if result == 0 then 0xFFFF else result
