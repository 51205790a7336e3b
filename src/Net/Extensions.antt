-- ===== src/Net/Extensions.antt =====
-- drivers/net.c: the extensions of a certificate. The bytes behind the certificate's key are a list; a
-- read outside it is `none`, and so is a loop that runs out of its rounds.
pub mod Safe
pub mod Parse
pub mod Keeps
pub mod Flags
use minerva_os.Base.{
  ℕ, zero, suc, ◌+◌, ◌-◌, Bool, true, false, List, [], ◌∷◌, Option, none, some, if◌then◌else◌, ◌&&◌,
  ◌||◌, ◌==◌, ltb, leb, take, map, length,
}
use minerva_os.Base.Cuts.{drop}
use minerva_os.Base.Ends.{and_then, get?}
use minerva_os.Net.Der.{net_tls_parse_der_len_at, net_tls_parse_der_sequence_len, net_tls_oid_equal}

-- The fields of `g_net` that the extensions set, and the name of the host.
pub record X509 : Type 0 where
  pub http_host : List ℕ
  pub san_dns : List ℕ
  pub host_match : Bool
  pub basic_constraints : ℕ
  pub is_ca : ℕ
  pub key_usage : ℕ
  pub key_usage_bits : ℕ
  pub eku : ℕ
  pub eku_bits : ℕ

-- `net_tls_is_printable_byte`
abbrev pub net_tls_is_printable_byte : ℕ → Bool
net_tls_is_printable_byte value = leb 32 value && leb value 126

-- `net_tls_copy_name_string`: the string that it writes; `NET_X509_NAME_SIZE` is 32.
unfoldable pub net_tls_copy_name_string : List ℕ → List ℕ
net_tls_copy_name_string src =
    let limit = if leb 32 (length src) then 31 else length src in
    map (λ c. if net_tls_is_printable_byte c then c else b'?') (take limit src)

-- `n` bytes at an offset
abbrev pub bytes_at : List ℕ → ℕ → ℕ → Option (List ℕ)
bytes_at src pos n = if leb (pos + n) (length src) then some (take n (drop pos src)) else none

-- The parsers of lengths, on `available` bytes at an offset; a read behind those is `none`.
abbrev pub len_at : List ℕ → ℕ → ℕ → Option (Option (ℕ × ℕ))
len_at src pos available =
    and_then (bytes_at src pos available) (λ part. net_tls_parse_der_len_at part available)

abbrev pub sequence_at : List ℕ → ℕ → ℕ → Option (Option (ℕ × ℕ))
sequence_at src pos available =
    and_then (bytes_at src pos available) (λ part. net_tls_parse_der_sequence_len part available)

-- `for (pos = 0; pos + 6 < len; pos++)` up to the identifier of the extension 2.5.29.`last`.
unfoldable pub find_loop : ℕ → ℕ → List ℕ → ℕ → Option (Option ℕ)
find_loop zero last src pos = none
find_loop (suc rounds) last src pos =
    let rest = find_loop rounds last src (pos + 1) in
    if ltb (pos + 6) (length src)
    then and_then (bytes_at src pos 5) (λ id.
      if net_tls_oid_equal id (0x06 ∷ 3 ∷ 0x55 ∷ 0x1D ∷ last ∷ []) then some (some pos) else rest)
    else some none

-- `while (cursor + 2 < len && src[cursor] != tag) cursor++;`
unfoldable pub seek_loop : ℕ → ℕ → List ℕ → ℕ → Option ℕ
seek_loop zero tag src cursor = none
seek_loop (suc rounds) tag src cursor =
    let rest = seek_loop rounds tag src (cursor + 1) in
    if ltb (cursor + 2) (length src)
    then and_then (get? src cursor) (λ b. if b == tag then some cursor else rest)
    else some cursor

-- An early return, or the rest of the function.
unfoldable pub or_return {ℓ κ} :
    {A : Type ℓ} {B : Type κ} → B → (A → Option B) → Option A → Option B
or_return b f none = some b
or_return b f (some a) = f a

-- The part that the four parsers share: the offset of the first byte `tag` behind the identifier,
-- unless the function returns before.
abbrev pub locate : ℕ → ℕ → List ℕ → Option (Option ℕ)
locate last tag src = and_then (find_loop (suc (length src)) last src 0) (
    or_return none (λ pos.
      and_then (seek_loop (suc (length src)) tag src (pos + 5))
        (λ cursor. if leb (length src) (cursor + 2) then some none else some (some cursor))))
