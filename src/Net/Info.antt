-- ===== src/Net/Info.antt =====
-- drivers/net.c: the fields of `g_net` that the modelled handlers read and write.
use minerva_os.Base.{ℕ, List, [], ◌∷◌, replicate}

-- `net_info_t`
pub record NetInfo : Type 0 where
  pub local_ip : List ℕ
  pub gateway_ip : List ℕ
  pub dns_ip : List ℕ
  pub gateway_mac : List ℕ
  pub gateway_mac_valid : ℕ
  pub dns_mac : List ℕ
  pub dns_mac_valid : ℕ
  pub arp_replies : ℕ
  pub last_dns_id : ℕ
  pub last_dns_flags : ℕ
  pub dns_ip_count : ℕ
  pub dns_ip_selected : ℕ
  pub dns_result_ips : List (List ℕ)
  pub dns_last_ip : List ℕ
  pub dns_last_ip_valid : ℕ
  pub dns_replies : ℕ
  pub http_response : List ℕ
  pub http_response_len : ℕ
  pub http_body_offset : ℕ
  pub http_status : ℕ
  pub http_valid : ℕ

-- `net_init`
unfoldable pub net_init : NetInfo
net_init = record {
  local_ip = 10 ∷ 0 ∷ 2 ∷ 15 ∷ [];
  gateway_ip = 10 ∷ 0 ∷ 2 ∷ 2 ∷ [];
  dns_ip = 10 ∷ 0 ∷ 2 ∷ 3 ∷ [];
  gateway_mac = replicate 6 0;
  gateway_mac_valid = 0;
  dns_mac = replicate 6 0;
  dns_mac_valid = 0;
  arp_replies = 0;
  last_dns_id = 0;
  last_dns_flags = 0;
  dns_ip_count = 0;
  dns_ip_selected = 0;
  dns_result_ips = replicate 4 (replicate 4 0);
  dns_last_ip = replicate 4 0;
  dns_last_ip_valid = 0;
  dns_replies = 0;
  http_response = replicate 8192 0;
  http_response_len = 0;
  http_body_offset = 0;
  http_status = 0;
  http_valid = 0;
}
