-- ===== src/Net/Extensions/Flags.antt =====
-- drivers/net.c: the parsers of the extensions with flags end inside the certificate, and so do all four.
use minerva_os.Base.{
  ℕ, zero, suc, ◌+◌, ◌-◌, ◌≤◌, ◌<◌, refl, Bool, true, false, List, if◌then◌else◌, not, ◌&&◌, ◌||◌,
  ◌==◌, ltb, leb, leb→le, not_ltb→le, length, bit_or, arith,
}
use minerva_os.Base.Count.{all_below, all_below_sound}
use minerva_os.Base.Ends.{Ends, Ends-and_then, Ends-if, get?, get?-inside}
use minerva_os.Net.Der.{net_tls_oid_equal}
use minerva_os.Net.Extensions.{X509, bytes_at, len_at, sequence_at, locate}
use minerva_os.Net.Extensions.Safe.{
  Ends-or_return, bytes_at-Ends, Header, len_at-Ends, sequence_at-Ends, locate-Ends, or_false,
}
use minerva_os.Net.Extensions.Keeps.{IsX509, net_tls_parse_san_dns-Ends}
use minerva_os.Net.Extensions.Parse.{
  net_tls_parse_san_dns, read_is_ca, net_tls_parse_basic_constraints, usage_bits, read_usage,
  net_tls_parse_key_usage, add_eku, server_auth, client_auth, eku_loop,
  net_tls_parse_extended_key_usage, parse_extensions,
}

usage_bits-small : (u : ℕ) → usage_bits u ≤ 7
usage_bits-small u = ground arith

or_small : (bits flag : ℕ) → bits ≤ 3 → flag ≤ 3 → bit_or bits flag ≤ 3
unfolding all_below
or_small bits flag h k = leb→le (bit_or bits flag) 3 (
    all_below_sound 4 (λ f. leb (bit_or bits f) 3) flag
      (all_below_sound 4 (λ b. all_below 4 (λ f. leb (bit_or b f) 3)) bits refl (omega (arith, h)))
      (omega (arith, k)))

add_eku-small : (oid : List ℕ) (bits : ℕ) → bits ≤ 3 → add_eku oid bits ≤ 3
add_eku-small oid bits h =
    step (net_tls_oid_equal oid client_auth) _ 2
      (step (net_tls_oid_equal oid server_auth) bits 1 h (omega arith)) (omega arith)
  where
    step : (c : Bool) (b f : ℕ) → b ≤ 3 → f ≤ 3 → (if c then bit_or b f else b) ≤ 3
    step true b f h k = or_small b f h k
    step false b f h k = h

module _ (src : List ℕ) where
  read_is_ca-Ends :
      (x : X509) (bpos bend : ℕ)
      → IsX509 x
      → bend ≤ length src
      → Ends IsX509 (read_is_ca x src bpos bend)
  unfolding read_is_ca
  read_is_ca-Ends x bpos bend i h =
      Ends-if (leb (bpos + 3) bend) _ _
        (λ e.
          let inside = leb→le (bpos + 3) bend e in
          Ends-and_then (get? src bpos) _ (get?-inside src bpos (omega (arith, inside, h)))
            (λ tag s.
              Ends-and_then (get? src (bpos + 1)) _
                (get?-inside src (bpos + 1) (omega (arith, inside, h)))
                (λ len s'.
                  Ends-and_then (get? src (bpos + 2)) _
                    (get?-inside src (bpos + 2) (omega (arith, inside, h)))
                    (λ flag s''. (_, refl, with_ca (flag_small tag len flag))))))
        (λ e. (_, refl, with_ca (omega arith)))
    where
      flag_small :
          (tag len flag : ℕ)
          → (if (tag == 0x01) && (len == 0x01) then (if flag == 0 then 0 else 1) else 0) ≤ 1
      flag_small tag len flag = ground arith

      with_ca : {n : ℕ} → n ≤ 1 → IsX509 (record x { is_ca = n })
      with_ca h = record {
        name_fits = i.name_fits;
        name_prints = i.name_prints;
        ca_flag = h;
        usage_flags = i.usage_flags;
        eku_flags = i.eku_flags;
      }

  net_tls_parse_basic_constraints-Ends :
      (x : X509) → IsX509 x → Ends IsX509 (net_tls_parse_basic_constraints x src)
  unfolding net_tls_parse_basic_constraints
  net_tls_parse_basic_constraints-Ends x i =
      Ends-or_return (λ cursor. cursor + 2 < length src) IsX509 (locate 0x13 0x04 src) x _
        (locate-Ends src 0x13 0x04) i
        (λ cursor c.
          Ends-or_return (Header (length src - cursor)) IsX509
            (len_at src cursor (length src - cursor)) x _
            (len_at-Ends src cursor (length src - cursor) (omega (arith, c))) i
            (λ octet s.
              let inner = cursor + octet.1 in
              Ends-if (ltb (length src) (inner + octet.0)) _ _ (λ e. (x, refl, i))
                (λ e.
                  let room = not_ltb→le (length src) (inner + octet.0) e in
                  Ends-or_return (Header octet.0) IsX509 (sequence_at src inner octet.0) x _
                    (sequence_at-Ends src inner octet.0 room) i
                    (λ seq q.
                      Ends-if (ltb octet.0 (seq.1 + seq.0)) _ _ (λ f. (x, refl, i))
                        (λ f.
                          read_is_ca-Ends (record x { basic_constraints = 1 }) (inner + seq.1)
                            (inner + seq.1 + seq.0)
                            (record {
                              name_fits = i.name_fits;
                              name_prints = i.name_prints;
                              ca_flag = i.ca_flag;
                              usage_flags = i.usage_flags;
                              eku_flags = i.eku_flags;
                            })
                            (omega (arith, room, not_ltb→le octet.0 (seq.1 + seq.0) f)))))))

  read_usage-Ends :
      (x : X509) (inner octet_len : ℕ)
      → IsX509 x
      → 4 ≤ octet_len
      → inner + octet_len ≤ length src
      → Ends IsX509 (read_usage x src inner octet_len)
  unfolding read_usage
  read_usage-Ends x inner octet_len i four room =
      Ends-and_then (get? src inner) _ (get?-inside src inner (omega (arith, four, room))) (λ tag s.
        Ends-if (not (tag == 0x03)) _ _ (λ e. (x, refl, i))
          (λ e.
            Ends-or_return (Header octet_len) IsX509 (len_at src inner octet_len) x _
              (len_at-Ends src inner octet_len room) i
              (λ bits q.
                Ends-if (ltb bits.0 2 || ltb octet_len (bits.1 + bits.0)) _ _ (λ f. (x, refl, i))
                  (λ f.
                    let (two, fits) = or_false (ltb bits.0 2) (ltb octet_len (bits.1 + bits.0)) f in
                    let low = not_ltb→le bits.0 2 two in
                    let high = not_ltb→le octet_len (bits.1 + bits.0) fits in
                    Ends-and_then (get? src (inner + bits.1 + 1)) _
                      (get?-inside src (inner + bits.1 + 1) (omega (arith, room, low, high)))
                      (λ usage u. (
                        _,
                        refl,
                        record {
                          name_fits = i.name_fits;
                          name_prints = i.name_prints;
                          ca_flag = i.ca_flag;
                          usage_flags = usage_bits-small usage;
                          eku_flags = i.eku_flags;
                        },
                      ))))))

  net_tls_parse_key_usage-Ends : (x : X509) → IsX509 x → Ends IsX509 (net_tls_parse_key_usage x src)
  unfolding net_tls_parse_key_usage
  net_tls_parse_key_usage-Ends x i =
      Ends-or_return (λ cursor. cursor + 2 < length src) IsX509 (locate 0x0F 0x04 src) x _
        (locate-Ends src 0x0F 0x04) i
        (λ cursor c.
          Ends-or_return (Header (length src - cursor)) IsX509
            (len_at src cursor (length src - cursor)) x _
            (len_at-Ends src cursor (length src - cursor) (omega (arith, c))) i
            (λ octet s.
              let inner = cursor + octet.1 in
              Ends-if (ltb (length src) (inner + octet.0)) _ _ (λ e. (x, refl, i))
                (λ e.
                  Ends-if (ltb octet.0 4) _ _ (λ f. (x, refl, i))
                    (λ f.
                      read_usage-Ends x inner octet.0 i (not_ltb→le octet.0 4 f)
                        (not_ltb→le (length src) (inner + octet.0) e)))))

  with_eku : (x : X509) (a n : ℕ) → IsX509 x → n ≤ 3 → IsX509 (record x { eku = a; eku_bits = n })
  with_eku x a n i h = record {
    name_fits = i.name_fits;
    name_prints = i.name_prints;
    ca_flag = i.ca_flag;
    usage_flags = i.usage_flags;
    eku_flags = h;
  }

  eku_loop-Ends :
      (rounds : ℕ) (x : X509) (oid_pos end : ℕ)
      → IsX509 x
      → end ≤ length src
      → length src - oid_pos < rounds
      → Ends IsX509 (eku_loop rounds x src oid_pos end)
  unfolding eku_loop
  eku_loop-Ends zero x oid_pos end i h r = absurd (omega (arith, r))
  eku_loop-Ends (suc rounds) x oid_pos end i h r =
      Ends-if (leb (oid_pos + 2) end) _ _
        (λ e.
          let inside = leb→le (oid_pos + 2) end e in
          Ends-and_then (get? src oid_pos) _ (get?-inside src oid_pos (omega (arith, inside, h)))
            (λ tag s.
              Ends-if (not (tag == 0x06)) _ _ (λ f. (x, refl, i))
                (λ f.
                  Ends-or_return (Header (end - oid_pos)) IsX509
                    (len_at src oid_pos (end - oid_pos)) x _
                    (len_at-Ends src oid_pos (end - oid_pos) (omega (arith, inside, h))) i
                    (λ header q.
                      let at = oid_pos + header.1 in
                      Ends-if (ltb 32 header.0) _ _ (λ g. (x, refl, i))
                        (λ g.
                          Ends-if (ltb end (at + header.0)) _ _ (λ k. (x, refl, i))
                            (λ k.
                              let room = not_ltb→le end (at + header.0) k in
                              Ends-and_then (bytes_at src at header.0) _
                                (bytes_at-Ends src at header.0 (omega (arith, room, h)))
                                (λ oid o.
                                  eku_loop-Ends rounds
                                    (record x { eku_bits = add_eku oid x.eku_bits }) (at + header.0)
                                    end
                                    (with_eku x x.eku (add_eku oid x.eku_bits) i
                                      (add_eku-small oid x.eku_bits i.eku_flags))
                                    h (omega (arith, r, q.0, inside, h)))))))))
        (λ e. (x, refl, i))

  net_tls_parse_extended_key_usage-Ends :
      (x : X509) → IsX509 x → Ends IsX509 (net_tls_parse_extended_key_usage x src)
  unfolding net_tls_parse_extended_key_usage
  net_tls_parse_extended_key_usage-Ends x i =
      Ends-or_return (λ cursor. cursor + 2 < length src) IsX509 (locate 0x25 0x04 src) x _
        (locate-Ends src 0x25 0x04) i
        (λ cursor c.
          Ends-or_return (Header (length src - cursor)) IsX509
            (len_at src cursor (length src - cursor)) x _
            (len_at-Ends src cursor (length src - cursor) (omega (arith, c))) i
            (λ octet s.
              let inner = cursor + octet.1 in
              Ends-if (ltb (length src) (inner + octet.0)) _ _ (λ e. (x, refl, i))
                (λ e.
                  let room = not_ltb→le (length src) (inner + octet.0) e in
                  Ends-or_return (Header octet.0) IsX509 (sequence_at src inner octet.0) x _
                    (sequence_at-Ends src inner octet.0 room) i
                    (λ seq q.
                      Ends-if (ltb octet.0 (seq.1 + seq.0)) _ _ (λ f. (x, refl, i))
                        (λ f.
                          eku_loop-Ends (suc (length src)) (record x { eku = 1; eku_bits = 0 })
                            (inner + seq.1) (inner + seq.1 + seq.0) (with_eku x 1 0 i (omega arith))
                            (omega (arith, room, not_ltb→le octet.0 (seq.1 + seq.0) f))
                            (omega arith))))))

-- On any bytes, from fields that are so, the four parsers end in the row in which they are called without
-- a read outside the bytes, and leave a name of at most 31 printable characters and in each field of
-- flags none but those that the code knows.
pub parse_extensions-Ends :
    (x : X509) (src : List ℕ) → IsX509 x → Ends IsX509 (parse_extensions x src)
unfolding parse_extensions
parse_extensions-Ends x src i =
    Ends-and_then (net_tls_parse_san_dns x src) _ (net_tls_parse_san_dns-Ends src x i) (λ x1 i1.
      Ends-and_then (net_tls_parse_basic_constraints x1 src) _
        (net_tls_parse_basic_constraints-Ends src x1 i1)
        (λ x2 i2.
          Ends-and_then (net_tls_parse_key_usage x2 src) _ (net_tls_parse_key_usage-Ends src x2 i2)
            (λ x3 i3. net_tls_parse_extended_key_usage-Ends src x3 i3)))
