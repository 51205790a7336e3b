-- ===== src/Net/Extensions/Keeps.antt =====
-- drivers/net.c: the parser of alternative names ends inside the certificate, and what it leaves.
use minerva_os.Base.{
  ℕ, zero, suc, ◌+◌, ◌-◌, ◌≤◌, ◌<◌, refl, List, [], ◌∷◌, if◌then◌else◌, not, ◌==◌, ltb, leb, leb→le,
  not_ltb→le, take, map, length, All, bit_and, arith,
}
use minerva_os.Base.Cuts.{length-take, length-map}
use minerva_os.Base.Ends.{Ends, Ends-and_then, Ends-if, get?, get?-inside}
use minerva_os.Net.Extensions.{
  X509, net_tls_is_printable_byte, net_tls_copy_name_string, bytes_at, sequence_at, locate,
}
use minerva_os.Net.Extensions.Safe.{
  Ends-or_return, bytes_at-Ends, Header, sequence_at-Ends, locate-Ends,
}
use minerva_os.Net.Extensions.Parse.{note_san, san_loop, net_tls_parse_san_dns}

-- The name is one of at most 31 printable characters, and each field of flags has only its own.
pub record IsX509 (x : X509) : Type 0 where
  pub name_fits : length x.san_dns ≤ 31
  pub name_prints : All (λ c. (32 ≤ c) × (c ≤ 126)) x.san_dns
  pub ca_flag : x.is_ca ≤ 1
  pub usage_flags : x.key_usage_bits ≤ 7
  pub eku_flags : x.eku_bits ≤ 3

copy_name-prints :
    (bytes : List ℕ)
    → All
        (λ c. (32 ≤ c) × (c ≤ 126))
        (map (λ c. if net_tls_is_printable_byte c then c else b'?') bytes)
copy_name-prints [] = _
copy_name-prints (c ∷ bytes) = (ground arith, copy_name-prints bytes)

length-copy_name : (bytes : List ℕ) → length (net_tls_copy_name_string bytes) ≤ 31
unfolding net_tls_copy_name_string
length-copy_name bytes =
    let n = length bytes in
    let limit = if leb 32 n then 31 else n in
    omega (
      arith,
      length-map (λ c. if net_tls_is_printable_byte c then c else b'?') (take limit bytes),
      length-take limit bytes (limit_le n),
      limit_small n,
    )
  where
    limit_le : (n : ℕ) → (if leb 32 n then 31 else n) ≤ n
    limit_le n = ground arith

    limit_small : (n : ℕ) → (if leb 32 n then 31 else n) ≤ 31
    limit_small n = ground arith

module _ (src : List ℕ) where
  note_san-Ends :
      (x : X509) (name name_len : ℕ)
      → IsX509 x
      → name + name_len ≤ length src
      → Ends IsX509 (note_san x src name name_len)
  unfolding note_san net_tls_copy_name_string
  note_san-Ends x name name_len i h =
      Ends-and_then (bytes_at src name name_len) _ (bytes_at-Ends src name name_len h) (λ bytes e. (
        _,
        refl,
        record {
          name_fits = length-copy_name bytes;
          name_prints = copy_name-prints _;
          ca_flag = i.ca_flag;
          usage_flags = i.usage_flags;
          eku_flags = i.eku_flags;
        },
      ))

  san_loop-Ends :
      (rounds : ℕ) (x : X509) (cursor end : ℕ)
      → IsX509 x
      → end ≤ length src
      → length src - cursor < rounds
      → Ends IsX509 (san_loop rounds x src cursor end)
  unfolding san_loop
  san_loop-Ends zero x cursor end i h r = absurd (omega (arith, r))
  san_loop-Ends (suc rounds) x cursor end i h r =
      Ends-if (leb (cursor + 2) end) _ _
        (λ e.
          let inside = leb→le (cursor + 2) end e in
          Ends-and_then (get? src cursor) _ (get?-inside src cursor (omega (arith, h, inside)))
            (λ tag s.
              Ends-and_then (get? src (cursor + 1)) _
                (get?-inside src (cursor + 1) (omega (arith, h, inside)))
                (λ name_len s'.
                  Ends-if (not (bit_and name_len 0x80 == 0)) _ _ (λ f. (x, refl, i))
                    (λ f.
                      Ends-if (ltb end (cursor + 2 + name_len)) _ _ (λ g. (x, refl, i))
                        (λ g.
                          let room = not_ltb→le end (cursor + 2 + name_len) g in
                          Ends-if (tag == 0x82) _ _
                            (λ k. note_san-Ends x (cursor + 2) name_len i (omega (arith, room, h)))
                            (λ k.
                              san_loop-Ends rounds x (cursor + 2 + name_len) end i h
                                (omega (arith, r, inside, h))))))))
        (λ e. (x, refl, i))

  pub net_tls_parse_san_dns-Ends : (x : X509) → IsX509 x → Ends IsX509 (net_tls_parse_san_dns x src)
  unfolding net_tls_parse_san_dns
  net_tls_parse_san_dns-Ends x i =
      Ends-or_return (λ cursor. cursor + 2 < length src) IsX509 (locate 0x11 0x30 src) x _
        (locate-Ends src 0x11 0x30) i
        (λ cursor c.
          Ends-or_return (Header (length src - cursor)) IsX509
            (sequence_at src cursor (length src - cursor)) x _
            (sequence_at-Ends src cursor (length src - cursor) (omega (arith, c))) i
            (λ seq s.
              Ends-if (ltb (length src) (cursor + seq.1 + seq.0)) _ _ (λ e. (x, refl, i))
                (λ e.
                  san_loop-Ends (suc (length src)) x (cursor + seq.1) (cursor + seq.1 + seq.0) i
                    (not_ltb→le (length src) _ e) (omega arith))))
