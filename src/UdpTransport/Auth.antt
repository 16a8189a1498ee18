-- ===== src/UdpTransport/Auth.antt =====
-- The handshake packets of protocol/src/udp_transport/auth.rs.
-- A text stands for its UTF-8 bytes, an `i64` for the word of its two's complement. Serialization and
-- SHA-256 are parameters.
pub mod Transcript
pub mod RoundTrip
use ppaass_ai.Base.{
  ℕ, ◌+◌, ◌-◌, ◌%◌, ◌^◌, Bool, not, ◌&&◌, List, [], ◌∷◌, ◌++◌, ltb, ◌==◌, if◌then◌else◌, length,
  drop, bytes_eq,
}
use ppaass_ai.Base.Ascii.{ascii}
use ppaass_ai.Base.Bytes.{to_be_bytes}
use ppaass_ai.Base.Result.{ok, err, ◌>>=◌, ◌>>◌, fail_if}
use ppaass_ai.UdpTransport.{
  UdpTransportResult, UdpSessionId, authentication_failed, datagram_too_large, datagram_too_short,
  unexpected_packet_kind, invalid_header, udp_max_datagram_size, udp_transport_header_len,
}
use ppaass_ai.UdpTransport.Header
use ppaass_ai.UdpTransport.Header.{
  UdpPacketKind, auth_init, auth_ok, kind_code, UdpPacketHeader, encode, decode,
}
use ppaass_ai.UdpTransport.Crypto.{Kdf}
use ppaass_ai.UdpTransport.Codec.{Serializer, map_serialization}

pub record UdpAuthInit : Type 0 where
  pub username : List ℕ
  pub timestamp : ℕ
  pub client_nonce : List ℕ
  pub proof : List ℕ

pub record UdpAuthOk : Type 0 where
  pub encrypted_session_secret : List ℕ

pub record UdpSessionSecret : Type 0 where
  pub session_id : UdpSessionId
  pub client_nonce : List ℕ
  pub master_key : List ℕ
  pub server_nonce : List ℕ

unfoldable pub validate_handshake_context :
    UdpSessionSecret → UdpSessionId → List ℕ → UdpTransportResult (Unit {0})
validate_handshake_context secret session_id client_nonce =
    if bytes_eq secret.session_id session_id && bytes_eq secret.client_nonce client_nonce
    then ok tt
    else err authentication_failed

-- `u32::try_from(username_bytes.len()).unwrap_or(u32::MAX)`
abbrev pub username_len : List ℕ → ℕ
username_len username = if ltb (length username) (2 ^ 32) then length username else 2 ^ 32 - 1

-- What the digest is taken of.
unfoldable pub proof_transcript : UdpSessionId → List ℕ → ℕ → List ℕ → List ℕ
proof_transcript session_id username timestamp client_nonce =
    ascii "ppaass/native-udp/auth-proof/v1"
    ++ (0
        ∷ (session_id
            ++ (to_be_bytes 4 (username_len username)
                ++ (username ++ (to_be_bytes 8 timestamp ++ client_nonce)))))

unfoldable pub udp_auth_proof_digest : Kdf → UdpSessionId → List ℕ → ℕ → List ℕ → List ℕ
unfolding proof_transcript
udp_auth_proof_digest kdf session_id username timestamp client_nonce =
    kdf.sha256 (proof_transcript session_id username timestamp client_nonce)

module _ {ℓ} {A : Type ℓ} (serde : Serializer A) where
  unfoldable pub encode_auth_packet : UdpPacketKind → UdpSessionId → A → UdpTransportResult (List ℕ)
  encode_auth_packet kind session_id value = do
    payload ← map_serialization (serde.serialize value)
    let datagram_len = udp_transport_header_len + length payload
    fail_if (ltb udp_max_datagram_size datagram_len) (datagram_too_large datagram_len)
    header ← encode (Header.new kind session_id 0 0 0 1 (length payload % 2 ^ 32))
    ok (header ++ payload)

  -- What `decode_auth_packet` does with a header.
  unfoldable pub decode_payload :
      UdpPacketKind → List ℕ → UdpPacketHeader → UdpTransportResult (UdpPacketHeader × A)
  decode_payload expected datagram header = do
    fail_if (not (kind_code header.kind == kind_code expected))
        (unexpected_packet_kind (kind_code expected) (kind_code header.kind))
    let payload = drop udp_transport_header_len datagram
    fail_if (not (header.total_len == length payload))
        (invalid_header "authentication payload length does not match total_len")
    value ← map_serialization (serde.deserialize payload)
    ok (header, value)

  unfoldable pub decode_auth_packet :
      UdpPacketKind → List ℕ → UdpTransportResult (UdpPacketHeader × A)
  unfolding decode_payload
  decode_auth_packet expected datagram = do
    fail_if (ltb udp_max_datagram_size (length datagram)) (datagram_too_large (length datagram))
    fail_if (ltb (length datagram) udp_transport_header_len) (datagram_too_short (length datagram))
    header ← decode datagram
    decode_payload expected datagram header

unfoldable pub encode_auth_init :
    Serializer UdpAuthInit → UdpSessionId → UdpAuthInit → UdpTransportResult (List ℕ)
unfolding encode_auth_packet
encode_auth_init serde session_id auth = encode_auth_packet serde auth_init session_id auth

unfoldable pub decode_auth_init :
    Serializer UdpAuthInit → List ℕ → UdpTransportResult (UdpPacketHeader × UdpAuthInit)
unfolding decode_auth_packet
decode_auth_init serde datagram = decode_auth_packet serde auth_init datagram

unfoldable pub encode_auth_ok :
    Serializer UdpAuthOk → UdpSessionId → UdpAuthOk → UdpTransportResult (List ℕ)
unfolding encode_auth_packet
encode_auth_ok serde session_id auth = encode_auth_packet serde auth_ok session_id auth

unfoldable pub decode_auth_ok :
    Serializer UdpAuthOk → List ℕ → UdpTransportResult (UdpPacketHeader × UdpAuthOk)
unfolding decode_auth_packet
decode_auth_ok serde datagram = decode_auth_packet serde auth_ok datagram

abbrev pub encode_session_secret :
    Serializer UdpSessionSecret → UdpSessionSecret → UdpTransportResult (List ℕ)
encode_session_secret serde secret = map_serialization (serde.serialize secret)

abbrev pub decode_session_secret :
    Serializer UdpSessionSecret → List ℕ → UdpTransportResult UdpSessionSecret
decode_session_secret serde bytes = map_serialization (serde.deserialize bytes)
