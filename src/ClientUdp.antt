-- ===== src/ClientUdp.antt =====
-- The client of native UDP sessions: common/src/client_connection/udp.rs.
pub mod Auth
pub mod Driver
pub mod Stream
pub mod Connection
mod Tests
