-- ===== src/Net.antt =====
-- drivers/net.c: the TLS client's cryptography and the parsers of packets.
pub mod Bytes
pub mod Aes
pub mod Gcm
pub mod Hmac
pub mod Ecdsa
pub mod Checksum
pub mod Hostname
pub mod Der
pub mod Info
pub mod Arp
pub mod Dns
pub mod Extensions
pub mod KeyExchange
mod Tests
