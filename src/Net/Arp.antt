-- ===== src/Net/Arp.antt =====
-- drivers/net.c: the answers of ARP.
use minerva_os.Base.{
  ℕ, ◌+◌, ◌%◌, ◌^◌, Bool, true, false, List, if◌then◌else◌, not, ◌&&◌, ◌||◌, ◌==◌, ltb, get_or,
  length, take,
}
use minerva_os.Base.Cuts.{drop}
use minerva_os.Net.Bytes.{get16be}
use minerva_os.Net.Info.{NetInfo}

-- `ip_equal`
unfoldable pub ip_equal : List ℕ → List ℕ → Bool
ip_equal a b =
    let same = λ (i : ℕ). get_or a i 0 == get_or b i 0 in same 0 && same 1 && same 2 && same 3

-- The fields of an `arp_packet_t` behind its `ethernet_header_t`.
abbrev pub sender_mac : List ℕ → List ℕ
sender_mac frame = take 6 (drop 22 frame)

abbrev pub sender_ip : List ℕ → List ℕ
sender_ip frame = take 4 (drop 28 frame)

abbrev pub target_ip : List ℕ → List ℕ
target_ip frame = take 4 (drop 38 frame)

-- `net_handle_arp`
unfoldable pub net_handle_arp : NetInfo → List ℕ → NetInfo × Bool
net_handle_arp info frame =
    let counted = (info.arp_replies + 1) % 2 ^ 32 in
    let gateway = record info {
      gateway_mac = sender_mac frame;
      gateway_mac_valid = 1;
      arp_replies = counted;
    } in
    let dns = record info {
      dns_mac = sender_mac frame;
      dns_mac_valid = 1;
      arp_replies = counted;
    } in
    if ltb (length frame) (14 + 28)
    then (info, false)
    else if not (get16be frame 12 == 0x0806)
    then (info, false)
    else if not (get16be frame 14 == 0x0001)
    then (info, false)
    else if not (get16be frame 16 == 0x0800)
    then (info, false)
    else if not (get_or frame 18 0 == 6) || not (get_or frame 19 0 == 4)
    then (info, false)
    else if not (get16be frame 20 == 0x0002)
    then (info, false)
    else if not (ip_equal (target_ip frame) info.local_ip)
    then (info, false)
    else if ip_equal (sender_ip frame) info.gateway_ip
    then (gateway, true)
    else if ip_equal (sender_ip frame) info.dns_ip
    then (dns, true)
    else (info, false)
