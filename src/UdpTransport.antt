-- ===== src/UdpTransport.antt =====
-- Native encrypted UDP transport primitives: protocol/src/udp_transport/mod.rs and error.rs.
-- The children model the files beside it; the constants and the error type stand here.
pub mod Replay
pub mod Header
pub mod Fragment
pub mod Reassembly
pub mod Crypto
pub mod Codec
pub mod Auth
pub mod Wire
pub mod Tests
use ppaass_ai.Base.Result.{Result}
use ppaass_ai.Base.{ℕ, ◌+◌, ◌-◌, ◌*◌, ◌^◌, ◌≤◌, String, List, [], ◌∷◌, arith}

-- `*b"PUDP"`
abbrev pub udp_transport_magic : List ℕ
udp_transport_magic = b'P' ∷ b'U' ∷ b'D' ∷ b'P' ∷ []

abbrev pub udp_transport_version : ℕ
udp_transport_version = 1

abbrev pub udp_max_datagram_size : ℕ
udp_max_datagram_size = 1351

abbrev pub udp_transport_header_len : ℕ
udp_transport_header_len = 46

abbrev pub udp_aead_tag_len : ℕ
udp_aead_tag_len = 16

abbrev pub udp_max_fragment_plaintext : ℕ
udp_max_fragment_plaintext = udp_max_datagram_size - udp_transport_header_len - udp_aead_tag_len

abbrev pub udp_max_message_size : ℕ
udp_max_message_size = 70 * 1024

abbrev pub udp_max_fragments : ℕ
udp_max_fragments = 64

abbrev pub udp_replay_window_size : ℕ
udp_replay_window_size = 4096

-- The compile-time assertion of mod.rs.
max_message_fits_fragments : udp_max_message_size ≤ udp_max_fragments * udp_max_fragment_plaintext
max_message_fits_fragments = omega arith

-- `[u8; 16]`
abbrev pub UdpSessionId : Type 0
UdpSessionId = List ℕ

-- The messages of `InvalidHeader`, `ReassemblyLimit` and `InconsistentReassemblyState` are texts.
pub data UdpTransportError : Type 0 where
  datagram_too_large : ℕ → UdpTransportError
  datagram_too_short : ℕ → UdpTransportError
  invalid_magic : UdpTransportError
  unsupported_version : ℕ → UdpTransportError
  invalid_packet_kind : ℕ → UdpTransportError
  unexpected_packet_kind : ℕ → ℕ → UdpTransportError
  invalid_header : String → UdpTransportError
  message_too_large : ℕ → UdpTransportError
  too_many_fragments : ℕ → UdpTransportError
  wrong_session : UdpTransportError
  authentication_failed : UdpTransportError
  encryption_failed : UdpTransportError
  replay_rejected : UdpTransportError
  sequence_exhausted : UdpTransportError
  message_id_exhausted : UdpTransportError
  conflicting_fragment : UdpTransportError
  reassembly_limit : String → UdpTransportError
  inconsistent_reassembly_state : String → UdpTransportError
  serialization : String → UdpTransportError
  key_derivation : UdpTransportError

abbrev pub UdpTransportResult {κ} : Type κ → Type κ
UdpTransportResult A = Result UdpTransportError A
