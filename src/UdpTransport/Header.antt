-- ===== src/UdpTransport/Header.antt =====
-- The fixed header of protocol/src/udp_transport/header.rs.
-- An array `[u8; N]` is a list; `IsHeader` says that the fields have the ranges of their types.
-- `encode` fills its array by slices that lie side by side from 0 to 46: the array is their
-- concatenation.
pub mod Valid
pub mod RoundTrip
use ppaass_ai.Base.{
  ℕ, zero, suc, ◌+◌, ◌-◌, ◌*◌, ◌^◌, ◌<◌, ◌≡◌, Bool, true, false, not, ◌&&◌, ◌||◌, List, [], ◌∷◌,
  ◌++◌, ltb, leb, ◌==◌, if◌then◌else◌, length, get_or, take, drop, bytes_eq,
}
use ppaass_ai.Base.Bytes.{AreBytes, to_be_bytes, from_be_bytes}
use ppaass_ai.Base.Result.{ok, err, ◌>>=◌, ◌>>◌, fail_if}
use ppaass_ai.UdpTransport.{
  UdpTransportResult, UdpSessionId, datagram_too_short, invalid_magic, unsupported_version,
  invalid_packet_kind, invalid_header, too_many_fragments, message_too_large, udp_transport_magic,
  udp_transport_version, udp_max_datagram_size, udp_transport_header_len,
  udp_max_fragment_plaintext, udp_max_message_size, udp_max_fragments,
}

pub data UdpPacketKind : Type 0 where
  auth_init auth_ok encrypted : UdpPacketKind

-- `kind as u8`
unfoldable pub kind_code : UdpPacketKind → ℕ
kind_code auth_init = 1
kind_code auth_ok = 2
kind_code encrypted = 3

-- `UdpPacketKind::try_from`
pub try_from : ℕ → UdpTransportResult UdpPacketKind
try_from value =
    if value == 1
    then ok auth_init
    else if value == 2
    then ok auth_ok
    else if value == 3
    then ok encrypted
    else err (invalid_packet_kind value)

abbrev pub is_encrypted : UdpPacketKind → Bool
is_encrypted encrypted = true
is_encrypted _ = false

pub record UdpPacketHeader : Type 0 where
  pub magic : List ℕ
  pub version : ℕ
  pub kind : UdpPacketKind
  pub session_id : UdpSessionId
  pub seq : ℕ
  pub message_id : ℕ
  pub fragment_index : ℕ
  pub fragment_count : ℕ
  pub total_len : ℕ

-- The ranges of the fields' types.
pub record IsHeader (h : UdpPacketHeader) : Type 0 where
  pub magic : length h.magic ≡ 4
  pub magic_bytes : AreBytes h.magic
  pub version : h.version < 256
  pub session_id : length h.session_id ≡ 16
  pub session_bytes : AreBytes h.session_id
  pub seq : h.seq < 2 ^ 64
  pub message_id : h.message_id < 2 ^ 64
  pub fragment_index : h.fragment_index < 2 ^ 16
  pub fragment_count : h.fragment_count < 2 ^ 16
  pub total_len : h.total_len < 2 ^ 32

-- `UdpPacketHeader::new`
abbrev pub new : UdpPacketKind → UdpSessionId → ℕ → ℕ → ℕ → ℕ → ℕ → UdpPacketHeader
new kind session_id seq message_id fragment_index fragment_count total_len = record {
  magic = udp_transport_magic;
  version = udp_transport_version;
  kind = kind;
  session_id = session_id;
  seq = seq;
  message_id = message_id;
  fragment_index = fragment_index;
  fragment_count = fragment_count;
  total_len = total_len;
}

abbrev pub max_total_len : UdpPacketKind → ℕ
max_total_len encrypted = udp_max_message_size
max_total_len _ = udp_max_datagram_size - udp_transport_header_len

unfoldable pub validate : UdpPacketHeader → UdpTransportResult (Unit {0})
validate h = do
  fail_if (not (bytes_eq h.magic udp_transport_magic)) invalid_magic
  fail_if (not (h.version == udp_transport_version)) (unsupported_version h.version)
  fail_if
      (not (is_encrypted h.kind)
        && (not (h.seq == 0)
            || not (h.message_id == 0)
            || not (h.fragment_index == 0)
            || not (h.fragment_count == 1)))
      (invalid_header "authentication packets cannot be sequenced or fragmented")
  let count = h.fragment_count
  let index = h.fragment_index
  let total_len = h.total_len
  fail_if (count == 0) (invalid_header "fragment_count must be non-zero")
  fail_if (ltb udp_max_fragments count) (too_many_fragments count)
  fail_if (leb count index) (invalid_header "fragment_index is outside fragment_count")
  fail_if (ltb (max_total_len h.kind) total_len) (message_too_large total_len)
  fail_if (total_len == 0 && not (count == 1))
      (invalid_header "an empty message must have exactly one fragment")
  fail_if (ltb 0 total_len && ltb total_len count)
      (invalid_header "non-empty fragments cannot outnumber plaintext bytes")
  fail_if (is_encrypted h.kind && ltb (count * udp_max_fragment_plaintext) total_len)
      (invalid_header "fragment_count cannot carry total_len")
  ok tt

-- The bytes of the array that `encode` fills.
unfoldable pub header_bytes : UdpPacketHeader → List ℕ
header_bytes h =
    h.magic
    ++ (h.version
        ∷ kind_code h.kind
        ∷ (h.session_id
            ++ (to_be_bytes 8 h.seq
                ++ (to_be_bytes 8 h.message_id
                    ++ (to_be_bytes 2 h.fragment_index
                        ++ (to_be_bytes 2 h.fragment_count ++ to_be_bytes 4 h.total_len))))))

unfoldable pub encode : UdpPacketHeader → UdpTransportResult (List ℕ)
encode h = do validate h; ok (header_bytes h)

-- `read_header_field::<N>`: the slice has `n` bytes, so its conversion to an array cannot fail.
pub read_header_field : ℕ → List ℕ → ℕ → UdpTransportResult (List ℕ)
read_header_field n bytes start =
    if leb (2 ^ 64) (start + n)
    then err (invalid_header "header field range overflow")
    else if ltb (length bytes) (start + n)
    then err (datagram_too_short (length bytes))
    else ok (take n (drop start bytes))

-- The struct expression of `decode`, whose fields are read in this order.
pub read_fields : List ℕ → UdpTransportResult UdpPacketHeader
read_fields bytes = do
  magic ← read_header_field 4 bytes 0
  let version = get_or bytes 4 0
  kind ← try_from (get_or bytes 5 0)
  session_id ← read_header_field 16 bytes 6
  seq ← read_header_field 8 bytes 22
  message_id ← read_header_field 8 bytes 30
  fragment_index ← read_header_field 2 bytes 38
  fragment_count ← read_header_field 2 bytes 40
  total_len ← read_header_field 4 bytes 42
  ok (record {
    magic = magic;
    version = version;
    kind = kind;
    session_id = session_id;
    seq = from_be_bytes seq;
    message_id = from_be_bytes message_id;
    fragment_index = from_be_bytes fragment_index;
    fragment_count = from_be_bytes fragment_count;
    total_len = from_be_bytes total_len;
  })

unfoldable pub decode : List ℕ → UdpTransportResult UdpPacketHeader
decode bytes = do
  fail_if (ltb (length bytes) udp_transport_header_len) (datagram_too_short (length bytes))
  header ← read_fields bytes
  validate header
  ok header
