-- ===== src/UdpTransport/Codec.antt =====
-- The session codec of protocol/src/udp_transport/crypto.rs and the messages of message.rs.
-- The serializer of messages (bitcode) is a parameter, as are the cryptographic functions.
pub mod Delivery
pub mod RoundTrip
use ppaass_ai.Base.{
  ℕ, ◌+◌, ◌-◌, ◌^◌, Bool, true, false, Option, none, some, List, String, ◌==◌, if◌then◌else◌,
}
use ppaass_ai.Address.{Address}
use ppaass_ai.Base.Result.{Result, ok, err, ◌>>=◌}
use ppaass_ai.UdpTransport.{
  UdpTransportResult, UdpTransportError, UdpSessionId, serialization, message_id_exhausted,
}
use ppaass_ai.UdpTransport.Fragment.{DecryptedUdpFragment}
use ppaass_ai.UdpTransport.Reassembly
use ppaass_ai.UdpTransport.Reassembly.{
  ReassemblyConfig, FragmentReassembler, default_config, push, cleanup_expired,
}
use ppaass_ai.UdpTransport.Crypto
use ppaass_ai.UdpTransport.Crypto.{
  Aead, Kdf, UdpSessionRole, UdpSessionCrypto, seal_message, open_datagram,
}

pub data UdpSessionMessage : Type 0 where
  open_data : ℕ → Address → List ℕ → UdpSessionMessage
  connect_response : ℕ → Bool → Option String → UdpSessionMessage
  data_message : ℕ → List ℕ → UdpSessionMessage
  close : ℕ → Option String → UdpSessionMessage
  ping : ℕ → UdpSessionMessage
  pong : ℕ → UdpSessionMessage

-- `bitcode::serialize` and `bitcode::deserialize`, with the text of an error.
pub record Serializer {ℓ} (A : Type ℓ) : Type ℓ where
  pub serialize : A → Result String (List ℕ)
  pub deserialize : List ℕ → Result String A

module _ {ℓ} {A : Type ℓ} where
  -- `map_err(|error| UdpTransportError::Serialization(error.to_string()))`
  abbrev pub map_serialization : Result String A → UdpTransportResult A
  map_serialization (ok a) = ok a
  map_serialization (err text) = err (serialization text)

abbrev pub encode : Serializer UdpSessionMessage → UdpSessionMessage → UdpTransportResult (List ℕ)
encode serde message = map_serialization (serde.serialize message)

abbrev pub decode : Serializer UdpSessionMessage → List ℕ → UdpTransportResult UdpSessionMessage
decode serde bytes = map_serialization (serde.deserialize bytes)

pub record UdpSessionCodec : Type 0 where
  pub crypto : UdpSessionCrypto
  pub reassembler : FragmentReassembler
  pub next_message_id : ℕ
  pub message_id_exhausted : Bool

abbrev pub with_parts : UdpSessionCrypto → FragmentReassembler → UdpSessionCodec
with_parts crypto reassembler = record {
  crypto = crypto;
  reassembler = reassembler;
  next_message_id = 0;
  message_id_exhausted = false;
}

unfoldable pub with_reassembly_config :
    Kdf
    → UdpSessionRole
    → UdpSessionId
    → List ℕ
    → List ℕ
    → List ℕ
    → ReassemblyConfig
    → UdpTransportResult UdpSessionCodec
with_reassembly_config kdf role session_id master_key client_nonce server_nonce config = do
  crypto ← Crypto.new kdf role session_id master_key client_nonce server_nonce
  reassembler ← Reassembly.new config
  ok (with_parts crypto reassembler)

-- `UdpSessionCodec::new`
unfoldable pub new :
    Kdf
    → UdpSessionRole
    → UdpSessionId
    → List ℕ
    → List ℕ
    → List ℕ
    → UdpTransportResult UdpSessionCodec
new kdf role session_id master_key client_nonce server_nonce =
    with_reassembly_config kdf role session_id master_key client_nonce server_nonce default_config

-- The end of `encode_message`: the identifier is used up when the message was sealed.
unfoldable pub next_message : UdpSessionCodec → ℕ → UdpSessionCodec
next_message codec message_id =
    if message_id == 2 ^ 64 - 1
    then (record codec { message_id_exhausted = true })
    else (record codec { next_message_id = codec.next_message_id + 1 })

unfoldable pub sealed_message :
    UdpSessionCodec
    → ℕ
    → UdpTransportResult (List (List ℕ)) × UdpSessionCrypto
    → UdpTransportResult (List (List ℕ)) × UdpSessionCodec
unfolding next_message
sealed_message codec message_id (err e, crypto) = (err e, record codec { crypto = crypto })
sealed_message codec message_id (ok datagrams, crypto) =
    (ok datagrams, next_message (record codec { crypto = crypto }) message_id)

unfoldable pub encode_plaintext :
    Aead
    → UdpTransportResult (List ℕ)
    → UdpSessionCodec
    → UdpTransportResult (List (List ℕ)) × UdpSessionCodec
unfolding sealed_message
encode_plaintext aead (err e) codec = (err e, codec)
encode_plaintext aead (ok plaintext) codec =
    sealed_message codec codec.next_message_id
      (seal_message aead codec.next_message_id plaintext codec.crypto)

unfoldable pub encode_message :
    Aead
    → Serializer UdpSessionMessage
    → UdpSessionMessage
    → UdpSessionCodec
    → UdpTransportResult (List (List ℕ)) × UdpSessionCodec
unfolding encode_plaintext
encode_message aead serde message codec =
    if codec.message_id_exhausted
    then (err message_id_exhausted, codec)
    else encode_plaintext aead (encode serde message) codec

-- `.map(..).transpose()`
unfoldable pub transposed :
    Serializer UdpSessionMessage → Option (List ℕ) → UdpTransportResult (Option UdpSessionMessage)
transposed serde none = ok none
transposed serde (some bytes) = do message ← decode serde bytes; ok (some message)

-- The second half of `decode_datagram_at`; `none` as in `push`.
unfoldable pub decode_pushed :
    Serializer UdpSessionMessage
    → UdpSessionCodec
    → Option (UdpTransportResult (Option (List ℕ)) × FragmentReassembler)
    → Option (UdpTransportResult (Option UdpSessionMessage) × UdpSessionCodec)
unfolding transposed
decode_pushed serde codec none = none
decode_pushed serde codec (some (pushed, reassembler)) =
    some (pushed >>= transposed serde, record codec { reassembler = reassembler })

unfoldable pub decode_opened :
    Serializer UdpSessionMessage
    → ℕ
    → UdpSessionCodec
    → UdpTransportResult DecryptedUdpFragment × UdpSessionCrypto
    → Option (UdpTransportResult (Option UdpSessionMessage) × UdpSessionCodec)
unfolding decode_pushed
decode_opened serde now codec (err e, crypto) = some (err e, record codec { crypto = crypto })
decode_opened serde now codec (ok fragment, crypto) =
    decode_pushed serde (record codec { crypto = crypto }) (push fragment now codec.reassembler)

unfoldable pub decode_datagram_at :
    Aead
    → Serializer UdpSessionMessage
    → List ℕ
    → ℕ
    → UdpSessionCodec
    → Option (UdpTransportResult (Option UdpSessionMessage) × UdpSessionCodec)
unfolding decode_opened
decode_datagram_at aead serde datagram now codec =
    decode_opened serde now codec (open_datagram aead datagram codec.crypto)

-- `UdpSessionCodec::cleanup_expired`
abbrev with_swept :
    UdpSessionCodec
    → Option (UdpTransportResult ℕ × FragmentReassembler)
    → Option (UdpTransportResult ℕ × UdpSessionCodec)
with_swept codec none = none
with_swept codec (some (res, reassembler)) = some (res, record codec { reassembler = reassembler })

pub codec_cleanup_expired : ℕ → UdpSessionCodec → Option (UdpTransportResult ℕ × UdpSessionCodec)
codec_cleanup_expired now codec = with_swept codec (cleanup_expired now codec.reassembler)
