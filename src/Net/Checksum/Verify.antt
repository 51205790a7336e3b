-- ===== src/Net/Checksum/Verify.antt =====
-- drivers/net.c: a receiver that sums a packet with its checksum in place finds it right.
use minerva_os.Base.{
  ℕ, zero, suc, ◌+◌, ◌-◌, ◌*◌, ◌%◌, ◌^◌, ◌<◌, ◌≤◌, ◌≡◌, ◌≢◌, refl, sym, ◌∙◌, subst, List, [], ◌∷◌,
  ◌++◌, length, All, get_or, All-get_or, if◌then◌else◌, ◌==◌, arith, length-append,
}
use minerva_os.Base.Bits.{bit_and_mask}
use minerva_os.Net.Bytes.{put16be}
use minerva_os.Net.Checksum.{
  word, fold_loop, sum_loop, ipv4_checksum, pseudo_header, transport_checksum, complement,
}
use minerva_os.Net.Checksum.Sums.{
  word_sum, Folded, word-value, octets-Folded, started-Folded, word_sum-field,
}

abbrev IsOctets : List ℕ → Type 0
IsOctets = All (λ b. b < 2 ^ 8)

All-append :
    (P : ℕ → Type 0) (xs ys : List ℕ)
    → (All P (xs ++ ys) → All P xs × All P ys) × (All P xs → All P ys → All P (xs ++ ys))
All-append P [] ys = ((λ h. (_, h)), λ p h. h)
All-append P (x ∷ xs) ys =
    let rest = All-append P xs ys in
    ((λ h. ((h.0, (rest.0 h.1).0), (rest.0 h.1).1)), λ p h. (p.0, rest.1 p.1 h))

put16be-IsOctets : (c : ℕ) → IsOctets (put16be c)
put16be-IsOctets c = (omega arith, (rw (bit_and_mask 8 c 0xFF refl) (omega arith), _))

-- A field of two bytes between octets.
field-IsOctets :
    (front back : List ℕ) (c : ℕ)
    → IsOctets front
    → IsOctets back
    → IsOctets (front ++ (put16be c ++ back))
field-IsOctets front back c f b =
    (All-append _ front (put16be c ++ back)).1 f
      ((All-append _ (put16be c) back).1 (put16be-IsOctets c) b)

-- A sum of the words and a complement of it is a multiple of 0xFFFF above zero.
complement-Folded :
    (n r c s : ℕ)
    → Folded n r
    → c % 0xFFFF ≡ complement r % 0xFFFF
    → 0 < n + c
    → Folded (n + c) s
    → s ≡ 0xFFFF
complement-Folded n r c s f e p g = omega (arith, f.small, f.same, g.small, g.same, g.positive p, e)

complement-positive : (n r : ℕ) → Folded n r → 0 < n + complement r
complement-positive zero r f = omega (arith, f.nothing refl)
complement-positive (suc n) r f = omega arith

-- A header of at most 65534 bytes, with its checksum stored at an even offset where the checksum was
-- taken with zeros there, has the checksum 0.
pub ipv4_checksum-ipv4_checksum :
    (k : ℕ) (front back : List ℕ)
    → IsOctets front
    → IsOctets back
    → length front ≡ 2 * k
    → length front + 2 + length back ≤ 65534
    → ipv4_checksum (front ++ (put16be (ipv4_checksum (front ++ (put16be 0 ++ back))) ++ back)) ≡ 0
unfolding ipv4_checksum
ipv4_checksum-ipv4_checksum k front back hf hb e short =
    let empty = front ++ (put16be 0 ++ back) in
    let c = ipv4_checksum empty in
    let n = word_sum empty in
    let f = octets-Folded empty (field-IsOctets front back 0 hf hb) in
    let filled = front ++ (put16be c ++ back) in
    let g = octets-Folded filled (field-IsOctets front back c hf hb) in
    let total : word_sum filled ≡ n + c = word_sum-field k front back c e (omega arith) in
    let all : sum_loop filled 0 ≡ 0xFFFF =
      complement-Folded n (sum_loop empty 0) c (sum_loop filled 0) f refl
        (complement-positive n (sum_loop empty 0) f)
        (subst (λ m. Folded m (sum_loop filled 0)) total g) in
    omega (arith, all)

abbrev IsAddress : List ℕ → Type 0
IsAddress ip = IsOctets ip × (length ip ≡ 4)

pseudo_header-small :
    (src_ip dst_ip : List ℕ) (protocol len : ℕ)
    → IsAddress src_ip
    → IsAddress dst_ip
    → protocol < 2 ^ 8
    → len < 2 ^ 16
    → pseudo_header src_ip dst_ip protocol len < 2 ^ 19 - 2 ^ 16
unfolding pseudo_header
pseudo_header-small src_ip dst_ip protocol len hs hd hp hl =
    let s = λ (i : ℕ) (b : i + 1 < 4). half src_ip i hs b in
    let d = λ (i : ℕ) (b : i + 1 < 4). half dst_ip i hd b in
    omega (arith, s 0 (omega arith), s 2 (omega arith), d 0 (omega arith), d 2 (omega arith))
  where
    half :
        (ip : List ℕ) (i : ℕ)
        → IsAddress ip
        → i + 1 < 4
        → word (get_or ip i 0) (get_or ip (i + 1) 0) < 2 ^ 16
    half ip i h b =
        let hi = All-get_or (λ b. b < 2 ^ 8) ip i 0 h.0 (omega (arith, h.1, b)) in
        let lo = All-get_or (λ b. b < 2 ^ 8) ip (i + 1) 0 h.0 (omega (arith, h.1, b)) in
        rw (word-value (get_or ip i 0) (get_or ip (i + 1) 0) hi lo) (omega (arith, hi, lo))

-- Between addresses of four bytes, for a protocol of one byte and a segment of at most 65534 bytes:
-- `transport_checksum` never gives 0, which would stand for none, and of the segment with its checksum
-- stored at an even offset, where it was taken with zeros there, it is 0xFFFF.
pub transport_checksum-transport_checksum :
    (src_ip dst_ip : List ℕ) (protocol k : ℕ) (front back : List ℕ)
    → IsAddress src_ip
    → IsAddress dst_ip
    → protocol < 2 ^ 8
    → IsOctets front
    → IsOctets back
    → length front ≡ 2 * k
    → length front + 2 + length back ≤ 65534
    → let c = transport_checksum src_ip dst_ip protocol (front ++ (put16be 0 ++ back)) in
      (c ≢ 0) × (transport_checksum src_ip dst_ip protocol (front ++ (put16be c ++ back)) ≡ 0xFFFF)
unfolding transport_checksum
transport_checksum-transport_checksum src_ip dst_ip protocol k front back hs hd hp hf hb e short =
    let filled = λ (c : ℕ). front ++ (put16be c ++ back) in
    let c = transport_checksum src_ip dst_ip protocol (filled 0) in
    let len = λ (c : ℕ). length-append front (put16be c ++ back) in
    let p = pseudo_header src_ip dst_ip protocol (length (filled 0)) in
    let same : length (filled c) ≡ length (filled 0) = len c ∙ sym (len 0) in
    let small : p < 2 ^ 19 - 2 ^ 16 =
      pseudo_header-small src_ip dst_ip protocol (length (filled 0)) hs hd hp
        (omega (arith, len 0, short)) in
    let n = p + word_sum (filled 0) in
    let r = fold_loop 2 (sum_loop (filled 0) p) in
    let f = started-Folded (filled 0) p (field-IsOctets front back 0 hf hb) small in
    let made = made_nonzero (complement r) in
    let bound : c < 2 ^ 16 = omega (arith, made) in
    let total : p + word_sum (filled c) ≡ n + c =
      omega (arith, word_sum-field k front back c e bound) in
    let s = fold_loop 2 (sum_loop (filled c) p) in
    let g : Folded (n + c) s =
      subst (λ m. Folded m s) total
        (started-Folded (filled c) p (field-IsOctets front back c hf hb) small) in
    let all : s ≡ 0xFFFF = complement-Folded n r c s f made.2 (omega (arith, made.0)) g in
    (λ e. omega (arith, made.0, e), rw (same, all) refl)
  where
    made_nonzero :
        (result : ℕ)
        → let c = if result == 0 then 0xFFFF else result in
          (0 < c) × (result < 2 ^ 16 → c < 2 ^ 16) × (c % 0xFFFF ≡ result % 0xFFFF)
    made_nonzero result = ground arith
