-- ===== src/Net/Dns.antt =====
-- drivers/net.c: the answers of a name server. A packet is the list of its bytes, a read outside it is
-- `none`, and so is a loop that runs out of its rounds.
pub mod Safe
use minerva_os.Base.{
  ℕ, zero, suc, ◌+◌, ◌*◌, ◌%◌, ◌^◌, Bool, true, false, List, [], ◌∷◌, Option, none, some,
  if◌then◌else◌, not, ◌&&◌, ◌==◌, ltb, leb, set, take, length, bit_and, bit_or,
}
use minerva_os.Base.Cuts.{drop}
use minerva_os.Base.Ends.{and_then, get?}
use minerva_os.Net.Info.{NetInfo}

-- `get16be` at an offset of the packet
abbrev pub get16 : List ℕ → ℕ → Option ℕ
get16 dns at =
    and_then (get? dns at)
      (λ hi. and_then (get? dns (at + 1)) (λ lo. some (bit_or (hi * 2 ^ 8 % 2 ^ 16) lo)))

-- The loop of `dns_skip_name`, for at most so many rounds.
unfoldable pub skip_loop : ℕ → List ℕ → ℕ → Option ℕ
skip_loop zero dns offset = none
skip_loop (suc rounds) dns offset =
    if leb (length dns) offset
    then some (length dns)
    else and_then (get? dns offset) (λ label.
      if label == 0
      then some (offset + 1)
      else if bit_and label 0xC0 == 0xC0
      then (if leb (length dns) (offset + 1)
          then some (length dns)
          else some ((offset + 2) % 2 ^ 16))
      else skip_loop rounds dns ((offset + 1 + label) % 2 ^ 16))

-- `dns_skip_name`: each round goes on by a byte at least.
abbrev pub dns_skip_name : List ℕ → ℕ → Option ℕ
dns_skip_name dns offset = skip_loop (suc (length dns)) dns offset

-- Whether a loop makes the function return 0, or goes on at an offset.
pub data Walk : Type 0 where
  returns : Walk
  goes : ℕ → Walk

-- The loop over the `left` questions that are left.
unfoldable pub question_loop : ℕ → List ℕ → ℕ → Option Walk
question_loop zero dns offset = some (goes offset)
question_loop (suc left) dns offset = and_then (dns_skip_name dns offset) (λ o.
    if ltb (length dns) (o + 4) then some returns else question_loop left dns ((o + 4) % 2 ^ 16))

-- What the code does with the address of an answer, four bytes at an offset of the packet.
unfoldable pub note_address : NetInfo → List ℕ → NetInfo
note_address info ip =
    let counted =
      if ltb info.dns_ip_count 4
      then record info {
        dns_result_ips = set info.dns_result_ips info.dns_ip_count ip;
        dns_ip_count = info.dns_ip_count + 1;
      }
      else info in
    if counted.dns_last_ip_valid == 0
    then record counted { dns_last_ip = ip; dns_last_ip_valid = 1 }
    else counted

-- `length` bytes at an offset of the packet
abbrev pub bytes_at : List ℕ → ℕ → ℕ → Option (List ℕ)
bytes_at dns at n = if leb (at + n) (length dns) then some (take n (drop at dns)) else none

-- The loop over the `left` answers that are left, and whether it runs to its end.
unfoldable pub answer_loop : ℕ → List ℕ → ℕ → NetInfo → Option (NetInfo × Bool)
answer_loop zero dns offset info = some (info, true)
answer_loop (suc left) dns offset info = and_then (dns_skip_name dns offset) (λ o.
    if ltb (length dns) (o + 10)
    then some (info, false)
    else and_then (get16 dns o) (λ type_code. and_then (get16 dns (o + 2)) (λ klass.
      and_then (get16 dns (o + 8)) (λ rdlength.
        let at = (o + 10) % 2 ^ 16 in
        let next = (at + rdlength) % 2 ^ 16 in
        if ltb (length dns) (at + rdlength)
        then some (info, false)
        else if (type_code == 1) && (klass == 1) && (rdlength == 4)
        then and_then (bytes_at dns at 4) (λ ip. answer_loop left dns next (note_address info ip))
        else answer_loop left dns next info))))

-- The end of `net_handle_dns`, behind the loop over the answers.
unfoldable pub after_answers : NetInfo × Bool → Option (NetInfo × Bool)
after_answers (info, through) =
    if not through
    then some (info, false)
    else if info.dns_last_ip_valid == 0
    then some (info, false)
    else some (record info { dns_replies = (info.dns_replies + 1) % 2 ^ 32 }, true)

-- The part behind the loop over the questions.
unfoldable pub after_questions : NetInfo → List ℕ → ℕ → Walk → Option (NetInfo × Bool)
after_questions info dns ancount returns = some (info, false)
after_questions info dns ancount (goes offset) =
    and_then (answer_loop ancount dns offset info) after_answers

-- The part of `net_handle_dns` behind both counts.
unfoldable pub handle_counts : NetInfo → List ℕ → ℕ → ℕ → Option (NetInfo × Bool)
handle_counts info dns qdcount ancount =
    let cleared = record info { dns_ip_count = 0; dns_ip_selected = 0 } in
    and_then (question_loop qdcount dns 12) (after_questions cleared dns ancount)

-- `net_handle_dns`
unfoldable pub net_handle_dns : NetInfo → List ℕ → Option (NetInfo × Bool)
net_handle_dns info dns =
    if ltb (length dns) 12
    then some (info, false)
    else and_then (get16 dns 0) (λ id. and_then (get16 dns 2) (λ flags.
      let seen = record info { last_dns_id = id; last_dns_flags = flags } in
      if not (id == 0x4D4E)
      then some (seen, false)
      else if bit_and flags 0x8000 == 0
      then some (seen, false)
      else and_then (get16 dns 4)
          (λ qdcount. and_then (get16 dns 6) (λ ancount. handle_counts seen dns qdcount ancount))))
