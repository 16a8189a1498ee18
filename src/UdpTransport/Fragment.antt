-- ===== src/UdpTransport/Fragment.antt =====
-- A decrypted fragment (protocol/src/udp_transport/crypto.rs) and the checks that
-- protocol/src/udp_transport/reassembly.rs makes of it first.
use ppaass_ai.Base.{ℕ, ◌&&◌, not, List, ltb, ◌==◌, length}
use ppaass_ai.Base.Result.{ok, ◌>>◌, fail_if}
use ppaass_ai.UdpTransport.{
  UdpTransportResult, invalid_header, message_too_large, too_many_fragments,
  udp_max_fragment_plaintext, udp_max_message_size, udp_max_fragments,
}
use ppaass_ai.UdpTransport.Header.{UdpPacketHeader, validate}

pub record DecryptedUdpFragment : Type 0 where
  pub header : UdpPacketHeader
  pub payload : List ℕ

unfoldable pub validate_fragment : DecryptedUdpFragment → UdpTransportResult (Unit {0})
validate_fragment fragment = do
  validate fragment.header
  fail_if (ltb udp_max_fragment_plaintext (length fragment.payload))
      (invalid_header "fragment plaintext exceeds datagram capacity")
  fail_if (ltb udp_max_message_size fragment.header.total_len)
      (message_too_large fragment.header.total_len)
  fail_if (ltb fragment.header.total_len (length fragment.payload))
      (invalid_header "fragment bytes exceed declared total_len")
  fail_if (ltb udp_max_fragments fragment.header.fragment_count)
      (too_many_fragments fragment.header.fragment_count)
  fail_if (not (fragment.header.total_len == 0) && length fragment.payload == 0)
      (invalid_header "non-empty messages cannot contain empty fragments")
  ok tt
