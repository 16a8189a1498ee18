-- ===== src/ProxyUdp.antt =====
-- The native UDP service of the proxy: proxy/src/native_udp.
pub mod Auth
pub mod Session
pub mod Listener
mod Tests
