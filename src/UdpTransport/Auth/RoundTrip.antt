-- ===== src/UdpTransport/Auth/RoundTrip.antt =====
-- Encoding and decoding of the handshake packets of protocol/src/udp_transport/auth.rs.
use ppaass_ai.Base.{
  ℕ, ◌+◌, ◌%◌, ◌^◌, ◌≡◌, refl, sym, ap, subst, ◌∙◌, List, ◌++◌, true, false, arith, length,
  length-append, drop, drop-append, ltb, ◌==◌, ==_iff,
}
use ppaass_ai.Base.Result.{ok, >>=-eq-ok, fail_if, fail_if-eq-ok}
use ppaass_ai.Base.Bytes.{AreBytes}
use ppaass_ai.UdpTransport.{UdpSessionId}
use ppaass_ai.UdpTransport.Header
use ppaass_ai.UdpTransport.Header.{
  UdpPacketKind, UdpPacketHeader, IsHeader, encode, decode, kind_code,
}
use ppaass_ai.UdpTransport.Header.RoundTrip.{decode-encode}
use ppaass_ai.UdpTransport.Crypto.Exchange.{length-encode}
use ppaass_ai.UdpTransport.Codec.{Serializer}
use ppaass_ai.UdpTransport.Auth.{encode_auth_packet, decode_payload, decode_auth_packet}

abbrev pub packet_header : UdpPacketKind → UdpSessionId → List ℕ → UdpPacketHeader
packet_header kind session_id payload = Header.new kind session_id 0 0 0 1 (length payload % 2 ^ 32)

packet_header-IsHeader :
    (kind : UdpPacketKind) (session_id : UdpSessionId) (payload : List ℕ)
    → length session_id ≡ 16
    → AreBytes session_id
    → IsHeader (packet_header kind session_id payload)
packet_header-IsHeader kind session_id payload l b = record {
  magic = refl;
  magic_bytes = ground arith;
  version = omega arith;
  session_id = l;
  session_bytes = b;
  seq = omega arith;
  message_id = omega arith;
  fragment_index = omega arith;
  fragment_count = omega arith;
  total_len = omega arith;
}

-- A packet that was encoded decodes, as a packet of its kind, to its header and its value.
pub decode_auth_packet-encode_auth_packet {ℓ} :
    {A : Type ℓ} (serde : Serializer A) (kind : UdpPacketKind) (session_id : UdpSessionId)
    (value : A) (payload datagram : List ℕ)
    → length session_id ≡ 16
    → AreBytes session_id
    → serde.serialize value ≡ ok payload
    → serde.deserialize payload ≡ ok value
    → encode_auth_packet serde kind session_id value ≡ ok datagram
    → decode_auth_packet serde kind datagram ≡ ok (packet_header kind session_id payload, value)
unfolding encode_auth_packet decode_auth_packet decode_payload
decode_auth_packet-encode_auth_packet serde kind session_id value payload datagram l b written
      readable e =
    let header = packet_header kind session_id payload in
    let t = packet_header-IsHeader kind session_id payload l b in
    let e0 = rw written at e in
    let (u1, fits, e1) = >>=-eq-ok (fail_if (ltb 1351 (46 + length payload)) _) _ e0 in
    let (bytes, encoded, e2) = >>=-eq-ok (encode header) _ e1 in
    let whole : bytes ++ payload ≡ datagram = cc e2 in
    let size : length bytes ≡ 46 = length-encode header bytes t encoded in
    let small : ltb 1351 (46 + length payload) ≡ false = fail_if-eq-ok _ _ fits in
    let l_all : length datagram ≡ 46 + length payload =
      ap length (sym whole) ∙ omega (arith, length-append bytes payload, size) in
    let back : drop 46 datagram ≡ payload =
      ap (drop 46) (sym whole)
      ∙ subst (λ n. drop n (bytes ++ payload) ≡ payload) size (drop-append bytes payload) in
    let decoded : decode datagram ≡ ok header =
      ap decode (sym whole) ∙ decode-encode header bytes payload t encoded in
    let fits1 : ltb 1351 (length datagram) ≡ false = ground arith in
    let long : ltb (length datagram) 46 ≡ false = ground arith in
    let kinds : (kind_code kind == kind_code kind) ≡ true = (==_iff _ _).1 refl in
    let sizes : (length payload % 2 ^ 32 == length payload) ≡ true = ground (arith, fits1) in
    rw (fits1, long, decoded, kinds, back, sizes, readable) refl
