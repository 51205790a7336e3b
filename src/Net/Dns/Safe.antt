-- ===== src/Net/Dns/Safe.antt =====
-- drivers/net.c: answers of a name server are read inside the packet, and reading ends.
use minerva_os.Base.{
  ℕ, zero, suc, ◌+◌, ◌-◌, ◌*◌, ◌%◌, ◌^◌, ◌≤◌, ◌<◌, ◌≡◌, ◌≢◌, refl, sym, ◌∙◌, Bool, true, false,
  true≢false, List, some, if◌then◌else◌, not, ◌&&◌, ◌==◌, ==_iff, ltb, leb, ltb→lt, not_ltb→le,
  length, length-set, All, bit_and, bit_or, arith,
}
use minerva_os.Base.Bits.{bit_or_disjoint}
use minerva_os.Base.Ends.{Ends, Ends-and_then, Ends-if, get?, get?-Ends}
use minerva_os.Net.Info.{NetInfo}
use minerva_os.Net.Dns.{
  get16, skip_loop, dns_skip_name, Walk, returns, goes, question_loop, note_address, bytes_at,
  answer_loop, after_answers, after_questions, handle_counts, net_handle_dns,
}

-- The table of addresses has four places and counts at most four.
pub record IsInfo (info : NetInfo) : Type 0 where
  pub count : info.dns_ip_count ≤ 4
  pub places : length info.dns_result_ips ≡ 4

if_IsInfo :
    (c : Bool) (x y : NetInfo) → (c ≡ true → IsInfo x) → IsInfo y → IsInfo (if c then x else y)
if_IsInfo true x y p q = p refl
if_IsInfo false x y p q = q

pub and_true : (a b : Bool) → (a && b) ≡ true → (a ≡ true) × (b ≡ true)
and_true true b e = (refl, e)
and_true false b e = (e, absurd (true≢false (sym e)))

note_address-IsInfo : (info : NetInfo) (ip : List ℕ) → IsInfo info → IsInfo (note_address info ip)
unfolding note_address
note_address-IsInfo info ip h =
    let counted =
      if_IsInfo (ltb info.dns_ip_count 4) _ info
        (λ e. record {
          count = omega (arith, ltb→lt info.dns_ip_count 4 e);
          places = length-set info.dns_result_ips info.dns_ip_count ip ∙ h.places;
        })
        h in
    if_IsInfo (_ == 0) _ _ (λ e. record { count = counted.count; places = counted.places }) counted

-- The result of the handler: the table stays as it should, and 1 comes with an address.
abbrev pub Handled : NetInfo × Bool → Type 0
Handled (info, found) = IsInfo info × (found ≡ true → info.dns_last_ip_valid ≢ 0)

module _ (dns : List ℕ) (octets : All (λ b. b < 2 ^ 8) dns) (short : length dns ≤ 65280) where
  not_leb→lt : (a b : ℕ) → leb a b ≡ false → b < a
  not_leb→lt a b e = ground arith

  pub get16-Ends : (at : ℕ) → at + 1 < length dns → Ends (λ v. v < 2 ^ 16) (get16 dns at)
  get16-Ends at h =
      Ends-and_then (get? dns at) _ (get?-Ends (λ b. b < 2 ^ 8) dns at octets (omega arith))
        (λ hi p.
          Ends-and_then (get? dns (at + 1)) _ (get?-Ends (λ b. b < 2 ^ 8) dns (at + 1) octets h)
            (λ lo q. (_, refl, word_small hi lo p q)))
    where
      word_small : (hi lo : ℕ) → hi < 2 ^ 8 → lo < 2 ^ 8 → bit_or (hi * 2 ^ 8 % 2 ^ 16) lo < 2 ^ 16
      word_small hi lo p q =
          let e : hi * 2 ^ 8 % 2 ^ 16 ≡ 2 ^ 8 * hi = omega (arith, p) in
          rw (e, bit_or_disjoint 8 hi lo q) (omega (arith, p, q))

  skip_loop-Ends :
      (rounds offset : ℕ)
      → length dns - offset < rounds
      → Ends (λ o. o ≤ length dns) (skip_loop rounds dns offset)
  unfolding skip_loop
  skip_loop-Ends zero offset h = absurd (omega (arith, h))
  skip_loop-Ends (suc rounds) offset h =
      Ends-if (leb (length dns) offset) _ _ (λ e. (length dns, refl, omega arith))
        (λ e.
          let inside = not_leb→lt (length dns) offset e in
          Ends-and_then (get? dns offset) _ (get?-Ends (λ b. b < 2 ^ 8) dns offset octets inside)
            (λ label p.
              Ends-if (label == 0) _ _ (λ z. (offset + 1, refl, omega (arith, inside)))
                (λ z.
                  Ends-if (bit_and label 0xC0 == 0xC0) _ _
                    (λ c.
                      Ends-if (leb (length dns) (offset + 1)) _ _
                        (λ l. (length dns, refl, omega arith))
                        (λ l. (
                          (offset + 2) % 2 ^ 16,
                          refl,
                          omega (arith, not_leb→lt (length dns) (offset + 1) l, short),
                        )))
                    (λ c.
                      let on : (offset + 1 + label) % 2 ^ 16 ≡ offset + 1 + label =
                        omega (arith, inside, p, short) in
                      rw on
                        (skip_loop-Ends rounds (offset + 1 + label) (omega (arith, h, inside)))))))

  dns_skip_name-Ends : (offset : ℕ) → Ends (λ o. o ≤ length dns) (dns_skip_name dns offset)
  dns_skip_name-Ends offset = skip_loop-Ends (suc (length dns)) offset (omega arith)

  Within : Walk → Type 0
  Within returns = 0 ≤ length dns
  Within (goes offset) = offset ≤ length dns

  question_loop-Ends :
      (left offset : ℕ) → offset ≤ length dns → Ends Within (question_loop left dns offset)
  unfolding question_loop Within
  question_loop-Ends zero offset h = (goes offset, refl, h)
  question_loop-Ends (suc left) offset h =
      Ends-and_then (dns_skip_name dns offset) _ (dns_skip_name-Ends offset) (λ o p.
        Ends-if (ltb (length dns) (o + 4)) _ _ (λ e. (returns, refl, omega arith))
          (λ e.
            let room = not_ltb→le (length dns) (o + 4) e in
            question_loop-Ends left ((o + 4) % 2 ^ 16) (omega (arith, room, short))))

  bytes_at-Ends : (at n : ℕ) → at + n ≤ length dns → Ends (λ bs. bs ≡ bs) (bytes_at dns at n)
  bytes_at-Ends at n h =
      Ends-if (leb (at + n) (length dns)) _ _ (λ e. (_, refl, refl))
        (λ e. absurd (omega (arith, h, not_leb→lt (at + n) (length dns) e)))

  answer_loop-Ends :
      (left offset : ℕ) (info : NetInfo)
      → IsInfo info
      → Ends (λ r. IsInfo r.0) (answer_loop left dns offset info)
  unfolding answer_loop
  answer_loop-Ends zero offset info i = ((info, true), refl, i)
  answer_loop-Ends (suc left) offset info i =
      Ends-and_then (dns_skip_name dns offset) _ (dns_skip_name-Ends offset) (λ o p.
        Ends-if (ltb (length dns) (o + 10)) _ _ (λ e. ((info, false), refl, i))
          (λ e.
            let room = not_ltb→le (length dns) (o + 10) e in
            Ends-and_then (get16 dns o) _ (get16-Ends o (omega (arith, room))) (λ type_code q.
              Ends-and_then (get16 dns (o + 2)) _ (get16-Ends (o + 2) (omega (arith, room)))
                (λ klass q'.
                  Ends-and_then (get16 dns (o + 8)) _ (get16-Ends (o + 8) (omega (arith, room)))
                    (λ rdlength r.
                      let at = (o + 10) % 2 ^ 16 in
                      Ends-if (ltb (length dns) (at + rdlength)) _ _ (λ f. ((info, false), refl, i))
                        (λ f.
                          Ends-if ((type_code == 1) && (klass == 1) && (rdlength == 4)) _ _
                            (λ g.
                              let four : rdlength ≡ 4 =
                                (==_iff rdlength 4).0
                                  (and_true ((type_code == 1) && (klass == 1)) (rdlength == 4)
                                    g).1 in
                              Ends-and_then (bytes_at dns at 4) _
                                (bytes_at-Ends at 4
                                  (omega (arith, four, not_ltb→le (length dns) (at + rdlength) f)))
                                (λ ip s.
                                  answer_loop-Ends left ((at + rdlength) % 2 ^ 16)
                                    (note_address info ip) (note_address-IsInfo info ip i)))
                            (λ g. answer_loop-Ends left ((at + rdlength) % 2 ^ 16) info i)))))))

  after_answers-Ends : (r : NetInfo × Bool) → IsInfo r.0 → Ends Handled (after_answers r)
  unfolding after_answers
  after_answers-Ends (info, through) i =
      Ends-if (not through) _ _ (λ e. ((info, false), refl, (i, λ c. absurd (true≢false (sym c)))))
        (λ e.
          Ends-if (info.dns_last_ip_valid == 0) _ _
            (λ f. ((info, false), refl, (i, λ c. absurd (true≢false (sym c)))))
            (λ f. (
              (record info { dns_replies = (info.dns_replies + 1) % 2 ^ 32 }, true),
              refl,
              (
                record { count = i.count; places = i.places },
                λ c z. true≢false (sym ((==_iff _ 0).1 z) ∙ f),
              ),
            )))

  after_questions-Ends :
      (info : NetInfo) (ancount : ℕ) (walk : Walk)
      → IsInfo info
      → Ends Handled (after_questions info dns ancount walk)
  unfolding after_questions
  after_questions-Ends info ancount returns i =
      ((info, false), refl, (i, λ c. absurd (true≢false (sym c))))
  after_questions-Ends info ancount (goes offset) i =
      Ends-and_then (answer_loop ancount dns offset info) after_answers
        (answer_loop-Ends ancount offset info i) after_answers-Ends

  handle_counts-Ends :
      (info : NetInfo) (qdcount ancount : ℕ)
      → 12 ≤ length dns
      → IsInfo info
      → Ends Handled (handle_counts info dns qdcount ancount)
  unfolding handle_counts
  handle_counts-Ends info qdcount ancount h i =
      let cleared = record info { dns_ip_count = 0; dns_ip_selected = 0 } in
      let ready : IsInfo cleared = record { count = omega arith; places = i.places } in
      Ends-and_then (question_loop qdcount dns 12) _ (question_loop-Ends qdcount 12 h)
        (λ walk p. after_questions-Ends cleared ancount walk ready)

-- From a table of four places that counts at most four, and for a packet of at most 65280 bytes, the
-- handler ends without a read outside the packet, leaves such a table, and returns 1 only when an
-- address is there.
pub net_handle_dns-Ends :
    (info : NetInfo) (dns : List ℕ)
    → All (λ b. b < 2 ^ 8) dns
    → length dns ≤ 65280
    → IsInfo info
    → Ends Handled (net_handle_dns info dns)
unfolding net_handle_dns
net_handle_dns-Ends info dns octets short i =
    let read = get16-Ends dns octets short in
    Ends-if (ltb (length dns) 12) _ _ (λ e. failed info i)
      (λ e.
        let room = not_ltb→le (length dns) 12 e in
        Ends-and_then (get16 dns 0) _ (read 0 (omega (arith, room))) (λ id p.
          Ends-and_then (get16 dns 2) _ (read 2 (omega (arith, room))) (λ flags q.
            let seen = record info { last_dns_id = id; last_dns_flags = flags } in
            let ready : IsInfo seen = record { count = i.count; places = i.places } in
            Ends-if (not (id == 0x4D4E)) _ _ (λ e. failed seen ready)
              (λ e.
                Ends-if (bit_and flags 0x8000 == 0) _ _ (λ f. failed seen ready)
                  (λ f. Ends-and_then (get16 dns 4) _ (read 4 (omega (arith, room))) (λ qdcount r.
                    Ends-and_then (get16 dns 6) _ (read 6 (omega (arith, room))) (λ ancount s.
                      handle_counts-Ends dns octets short seen qdcount ancount room ready)))))))
  where
    failed : (info : NetInfo) → IsInfo info → Ends Handled (some (info, false))
    failed info i = ((info, false), refl, (i, λ c. absurd (true≢false (sym c))))
