-- ===== src/Net/Der.antt =====
-- drivers/net.c: the lengths, object identifiers and dates of DER, as certificates use them.
pub mod Lengths
pub mod Dates
use minerva_os.Base.{
  ℕ, zero, suc, ◌+◌, ◌-◌, ◌*◌, ◌%◌, ◌^◌, Bool, true, false, List, [], ◌∷◌, Option, none, some,
  if◌then◌else◌, not, ◌&&◌, ◌||◌, ◌==◌, leb, ltb, get_or, length, bit_and, bit_or,
}
use minerva_os.Base.Ends.{and_then, get?}

-- `for (i = 0; i < count; i++) value = (value << 8) | der[2 + i];`, from the byte `at` on.
unfoldable pub value_loop : ℕ → ℕ → List ℕ → ℕ → Option ℕ
value_loop zero at der value = some value
value_loop (suc left) at der value =
    and_then (get? der at)
      (λ byte. value_loop left (at + 1) der (bit_or (value * 2 ^ 8 % 2 ^ 32) byte))

-- The part that both parsers of lengths share: `content_len` and `header_len`. The outer `none` is a
-- read behind the bytes of `src`, the inner one the failure that the code reports.
unfoldable pub der_length_after_tag : List ℕ → ℕ → Option (Option (ℕ × ℕ))
der_length_after_tag src available = and_then (get? src 1) (λ first.
    let count = bit_and first 0x7F in
    if bit_and first 0x80 == 0
    then some (some (first, 2))
    else if (count == 0) || ltb 3 count || ltb available (2 + count)
    then some none
    else and_then (value_loop count 2 src 0) (λ value. some (some (value, (2 + count) % 2 ^ 8))))

-- `net_tls_parse_der_sequence_len`
unfoldable pub net_tls_parse_der_sequence_len : List ℕ → ℕ → Option (Option (ℕ × ℕ))
net_tls_parse_der_sequence_len der available =
    if ltb available 2
    then some none
    else and_then (get? der 0)
        (λ tag. if not (tag == 0x30) then some none else der_length_after_tag der available)

-- `net_tls_parse_der_len_at`
unfoldable pub net_tls_parse_der_len_at : List ℕ → ℕ → Option (Option (ℕ × ℕ))
net_tls_parse_der_len_at src available =
    if ltb available 2 then some none else der_length_after_tag src available

-- `net_tls_oid_equal`: the loop runs over strings of one length.
unfoldable pub net_tls_oid_equal : List ℕ → List ℕ → Bool
net_tls_oid_equal [] [] = true
net_tls_oid_equal [] (y ∷ expected) = false
net_tls_oid_equal (x ∷ oid) [] = false
net_tls_oid_equal (x ∷ oid) (y ∷ expected) =
    let rest = net_tls_oid_equal oid expected in if x == y then rest else false

-- `net_tls_known_sig_alg`
unfoldable pub net_tls_known_sig_alg : List ℕ → ℕ
net_tls_known_sig_alg oid =
    if net_tls_oid_equal oid (0x2A ∷ 0x86 ∷ 0x48 ∷ 0x86 ∷ 0xF7 ∷ 0x0D ∷ 0x01 ∷ 0x01 ∷ 0x0B ∷ [])
    then 1
    else if net_tls_oid_equal oid
        (0x2A ∷ 0x86 ∷ 0x48 ∷ 0x86 ∷ 0xF7 ∷ 0x0D ∷ 0x01 ∷ 0x01 ∷ 0x0C ∷ [])
    then 2
    else if net_tls_oid_equal oid (0x2A ∷ 0x86 ∷ 0x48 ∷ 0xCE ∷ 0x3D ∷ 0x04 ∷ 0x03 ∷ 0x02 ∷ [])
    then 3
    else if net_tls_oid_equal oid (0x2A ∷ 0x86 ∷ 0x48 ∷ 0xCE ∷ 0x3D ∷ 0x04 ∷ 0x03 ∷ 0x03 ∷ [])
    then 4
    else 0

-- `net_tls_known_pubkey_alg`
unfoldable pub net_tls_known_pubkey_alg : List ℕ → ℕ
net_tls_known_pubkey_alg oid =
    if net_tls_oid_equal oid (0x2A ∷ 0x86 ∷ 0x48 ∷ 0x86 ∷ 0xF7 ∷ 0x0D ∷ 0x01 ∷ 0x01 ∷ 0x01 ∷ [])
    then 1
    else if net_tls_oid_equal oid (0x2A ∷ 0x86 ∷ 0x48 ∷ 0xCE ∷ 0x3D ∷ 0x02 ∷ 0x01 ∷ [])
    then 2
    else 0

-- `net_tls_known_curve`
unfoldable pub net_tls_known_curve : List ℕ → ℕ
net_tls_known_curve oid =
    if net_tls_oid_equal oid (0x2A ∷ 0x86 ∷ 0x48 ∷ 0xCE ∷ 0x3D ∷ 0x03 ∷ 0x01 ∷ 0x07 ∷ [])
    then 1
    else if net_tls_oid_equal oid (0x2B ∷ 0x81 ∷ 0x04 ∷ 0x00 ∷ 0x22 ∷ [])
    then 2
    else if net_tls_oid_equal oid (0x2B ∷ 0x81 ∷ 0x04 ∷ 0x00 ∷ 0x23 ∷ [])
    then 3
    else 0

-- `net_tls_digit`
abbrev pub net_tls_digit : ℕ → Bool
net_tls_digit value = leb b'0' value && leb value b'9'

-- `net_tls_two_digits` at an offset; both bytes are digits where it is called.
abbrev pub net_tls_two_digits : List ℕ → ℕ → ℕ
net_tls_two_digits src at = ((get_or src at 0 - b'0') * 10 + (get_or src (at + 1) 0 - b'0')) % 2 ^ 8

-- The loop over the digits: whether all of them are.
unfoldable pub digits_loop : ℕ → ℕ → List ℕ → Bool
digits_loop zero at src = true
digits_loop (suc left) at src =
    let rest = digits_loop left (at + 1) src in
    if net_tls_digit (get_or src at 0) then rest else false

-- The end of `net_tls_parse_asn1_date`.
unfoldable pub checked_date : ℕ → ℕ → ℕ → ℕ
checked_date year month day =
    if ltb month 1 || ltb 12 month || ltb day 1 || ltb 31 day
    then 0
    else (year * 10000 + month * 100 + day) % 2 ^ 32

-- `net_tls_parse_asn1_date`
unfoldable pub net_tls_parse_asn1_date : ℕ → List ℕ → ℕ → ℕ
net_tls_parse_asn1_date tag src len =
    let digit = λ (at : ℕ). get_or src at 0 - b'0' in
    let yy = net_tls_two_digits src 0 in
    let short_year = if leb 50 yy then 1900 + yy else 2000 + yy in
    let long_year = (digit 0 * 1000 + digit 1 * 100 + digit 2 * 10 + digit 3) % 2 ^ 16 in
    let utc_time = checked_date short_year (net_tls_two_digits src 2) (net_tls_two_digits src 4) in
    let generalized =
      checked_date long_year (net_tls_two_digits src 4) (net_tls_two_digits src 6) in
    if tag == 0x17
    then (if ltb len 6 then 0 else if digits_loop 6 0 src then utc_time else 0)
    else if tag == 0x18
    then (if ltb len 8 then 0 else if digits_loop 8 0 src then generalized else 0)
    else 0
