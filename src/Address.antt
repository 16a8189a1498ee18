-- ===== src/Address.antt =====
-- The target addresses of protocol/src/message/address.rs. A text stands for its UTF-8 bytes.
use ppaass_ai.Base.{ℕ, List}

pub data Address : Type 0 where
  domain : List ℕ → ℕ → Address
  ipv4 ipv6 : List ℕ → ℕ → Address
  proxy_dns : ℕ → Address
  udp_relay : Address

unfoldable pub port : Address → ℕ
port (domain host p) = p
port (ipv4 addr p) = p
port (ipv6 addr p) = p
port (proxy_dns p) = p
port udp_relay = 0
