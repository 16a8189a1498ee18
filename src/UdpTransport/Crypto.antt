-- ===== src/UdpTransport/Crypto.antt =====
-- Directional keys, sealing and opening of protocol/src/udp_transport/crypto.rs.
-- AES-256-GCM, SHA-256 and HKDF are parameters. A cipher stands for the key it is made from.
pub mod Open
pub mod Sequence
pub mod Exchange
pub mod Single
use ppaass_ai.Base.{
  String, ℕ, zero, suc, ◌+◌, ◌-◌, ◌*◌, ◌/◌, ◌%◌, ◌^◌, min, max, Bool, true, false, not, ◌&&◌, ◌||◌,
  Option, none, some, List, [], ◌∷◌, ◌++◌, ltb, leb, ◌==◌, if◌then◌else◌, length, take, drop,
  bytes_eq,
}
use ppaass_ai.Base.Bytes.{to_be_bytes}
use ppaass_ai.Base.Ascii.{ascii}
use ppaass_ai.Base.Result.{ok, err, ◌>>=◌, ◌>>◌, fail_if, ok_or}
use ppaass_ai.UdpTransport.{
  UdpTransportResult, UdpSessionId, datagram_too_large, datagram_too_short, unexpected_packet_kind,
  invalid_header, message_too_large, too_many_fragments, wrong_session, authentication_failed,
  encryption_failed, replay_rejected, sequence_exhausted, key_derivation, udp_aead_tag_len,
  udp_max_datagram_size, udp_max_fragment_plaintext, udp_max_fragments, udp_max_message_size,
  udp_transport_header_len,
}
use ppaass_ai.UdpTransport.Fragment.{DecryptedUdpFragment}
use ppaass_ai.UdpTransport.Header
use ppaass_ai.UdpTransport.Header.{
  UdpPacketHeader, encrypted, is_encrypted, kind_code, encode, decode,
}
use ppaass_ai.UdpTransport.Replay
use ppaass_ai.UdpTransport.Replay.{ReplayWindow, may_accept, commit}
use ppaass_ai.UdpTransport.Reassembly.{checked_add}

-- SHA-256 of the updates in a row, and HKDF-SHA256 of a salt, a key, a label and a length.
pub record Kdf : Type 0 where
  pub sha256 : List ℕ → List ℕ
  pub expand : List ℕ → List ℕ → List ℕ → ℕ → Option (List ℕ)

-- AES-256-GCM: `encrypt key nonce aad plaintext` is the ciphertext and the tag,
-- `decrypt key nonce aad message` the plaintext of a ciphertext that its tag follows.
pub record Aead : Type 0 where
  pub encrypt : List ℕ → List ℕ → List ℕ → List ℕ → Option (List ℕ × List ℕ)
  pub decrypt : List ℕ → List ℕ → List ℕ → List ℕ → Option (List ℕ)

abbrev pub key_len : ℕ
key_len = 32

abbrev pub nonce_prefix_len : ℕ
nonce_prefix_len = 4

pub data UdpSessionRole : Type 0 where
  agent proxy : UdpSessionRole

pub record UdpDirectionalKeyMaterial : Type 0 where
  pub client_to_server_key : List ℕ
  pub server_to_client_key : List ℕ
  pub client_to_server_nonce_prefix : List ℕ
  pub server_to_client_nonce_prefix : List ℕ

pub expand_label : Kdf → List ℕ → List ℕ → String → ℕ → UdpTransportResult (List ℕ)
expand_label kdf salt master_key label len =
    ok_or (kdf.expand salt master_key (ascii label) len) key_derivation

abbrev separate : UdpDirectionalKeyMaterial → UdpTransportResult UdpDirectionalKeyMaterial
separate material =
    if bytes_eq material.client_to_server_key material.server_to_client_key
      || bytes_eq material.client_to_server_nonce_prefix material.server_to_client_nonce_prefix
    then err key_derivation
    else ok material

-- `UdpDirectionalKeyMaterial::derive`
unfoldable pub derive :
    Kdf → List ℕ → UdpSessionId → List ℕ → List ℕ → UdpTransportResult UdpDirectionalKeyMaterial
unfolding expand_label
derive kdf master_key session_id client_nonce server_nonce = do
  let salt = kdf.sha256 (
      ascii "ppaass/native-udp/hkdf-salt/v1"
      ++ (0 ∷ (session_id ++ (client_nonce ++ server_nonce))))
  c2s_key ← expand_label kdf salt master_key "ppaass/native-udp/v1/client-to-server/key" key_len
  s2c_key ← expand_label kdf salt master_key "ppaass/native-udp/v1/server-to-client/key" key_len
  c2s_prefix ←
      expand_label kdf salt master_key "ppaass/native-udp/v1/client-to-server/nonce-prefix"
        nonce_prefix_len
  s2c_prefix ←
      expand_label kdf salt master_key "ppaass/native-udp/v1/server-to-client/nonce-prefix"
        nonce_prefix_len
  separate (record {
    client_to_server_key = c2s_key;
    server_to_client_key = s2c_key;
    client_to_server_nonce_prefix = c2s_prefix;
    server_to_client_nonce_prefix = s2c_prefix;
  })

pub record DirectionState : Type 0 where
  pub cipher : List ℕ
  pub nonce_prefix : List ℕ

pub record UdpSessionCrypto : Type 0 where
  pub role : UdpSessionRole
  pub session_id : UdpSessionId
  pub send : DirectionState
  pub receive : DirectionState
  pub next_send_sequence : ℕ
  pub send_sequence_exhausted : Bool
  pub replay : ReplayWindow

abbrev pub client_to_server : UdpDirectionalKeyMaterial → DirectionState
client_to_server keys = record {
  cipher = keys.client_to_server_key;
  nonce_prefix = keys.client_to_server_nonce_prefix;
}

abbrev pub server_to_client : UdpDirectionalKeyMaterial → DirectionState
server_to_client keys = record {
  cipher = keys.server_to_client_key;
  nonce_prefix = keys.server_to_client_nonce_prefix;
}

-- The pair `(send, receive)`.
abbrev pub directions : UdpSessionRole → UdpDirectionalKeyMaterial → DirectionState × DirectionState
directions agent keys = (client_to_server keys, server_to_client keys)
directions proxy keys = (server_to_client keys, client_to_server keys)

abbrev pub from_key_material :
    UdpSessionRole → UdpSessionId → UdpDirectionalKeyMaterial → UdpSessionCrypto
from_key_material role session_id keys = record {
  role = role;
  session_id = session_id;
  send = (directions role keys).0;
  receive = (directions role keys).1;
  next_send_sequence = 0;
  send_sequence_exhausted = false;
  replay = Replay.new;
}

-- `UdpSessionCrypto::new`
unfoldable pub new :
    Kdf
    → UdpSessionRole
    → UdpSessionId
    → List ℕ
    → List ℕ
    → List ℕ
    → UdpTransportResult UdpSessionCrypto
new kdf role session_id master_key client_nonce server_nonce = do
  keys ← derive kdf master_key session_id client_nonce server_nonce
  ok (from_key_material role session_id keys)

abbrev pub make_nonce : List ℕ → ℕ → List ℕ
make_nonce prefix seq = prefix ++ to_be_bytes 8 seq

-- `plaintext.len().div_ceil(UDP_MAX_FRAGMENT_PLAINTEXT).max(1)`
abbrev pub fragment_count_of : List ℕ → ℕ
fragment_count_of plaintext =
    max ((length plaintext + (udp_max_fragment_plaintext - 1)) / udp_max_fragment_plaintext) 1

-- `&plaintext[start..end]`
abbrev pub slice_at : List ℕ → ℕ → List ℕ
slice_at plaintext index =
    let start = index * udp_max_fragment_plaintext in
    take (min (start + udp_max_fragment_plaintext) (length plaintext) - start)
      (drop start plaintext)

abbrev pub header_at : UdpSessionCrypto → ℕ → List ℕ → ℕ → UdpPacketHeader
header_at c message_id plaintext index =
    Header.new encrypted c.session_id (c.next_send_sequence + index) message_id (index % 2 ^ 16)
      (fragment_count_of plaintext % 2 ^ 16) (length plaintext % 2 ^ 32)

-- The body of the loop of `seal_message`.
unfoldable pub seal_fragment :
    Aead → UdpSessionCrypto → ℕ → List ℕ → ℕ → UdpTransportResult (List ℕ)
seal_fragment aead c message_id plaintext index = do
  let fragment = slice_at plaintext index
  let seq = c.next_send_sequence + index
  aad ← encode (header_at c message_id plaintext index)
  let nonce = make_nonce c.send.nonce_prefix seq
  let datagram_len = length aad + length fragment + udp_aead_tag_len
  fail_if (ltb udp_max_datagram_size datagram_len) (datagram_too_large datagram_len)
  sealed ← ok_or (aead.encrypt c.send.cipher nonce aad fragment) encryption_failed
  ok (aad ++ (sealed.0 ++ sealed.1))

-- The loop: the fragments from `index` on, so many.
unfoldable pub seal_fragments :
    Aead → UdpSessionCrypto → ℕ → List ℕ → ℕ → ℕ → UdpTransportResult (List (List ℕ))
unfolding seal_fragment
seal_fragments aead c message_id plaintext zero index = ok []
seal_fragments aead c message_id plaintext (suc rest) index = do
  datagram ← seal_fragment aead c message_id plaintext index
  datagrams ← seal_fragments aead c message_id plaintext rest (suc index)
  ok (datagram ∷ datagrams)

-- What `seal_message` does before it changes the state: the datagrams and the last sequence number.
unfoldable pub seal : Aead → UdpSessionCrypto → ℕ → List ℕ → UdpTransportResult (List (List ℕ) × ℕ)
unfolding seal_fragments
seal aead c message_id plaintext = do
  fail_if (ltb udp_max_message_size (length plaintext)) (message_too_large (length plaintext))
  let fragment_count = fragment_count_of plaintext
  fail_if (ltb udp_max_fragments fragment_count) (too_many_fragments fragment_count)
  fail_if c.send_sequence_exhausted sequence_exhausted
  last_sequence ← ok_or (checked_add c.next_send_sequence (fragment_count - 1)) sequence_exhausted
  datagrams ← seal_fragments aead c message_id plaintext fragment_count 0
  ok (datagrams, last_sequence)

unfoldable pub advance : UdpSessionCrypto → ℕ → UdpSessionCrypto
advance c last_sequence =
    if last_sequence == 2 ^ 64 - 1
    then (record c { send_sequence_exhausted = true })
    else (record c { next_send_sequence = last_sequence + 1 })

unfoldable pub sealed_state :
    UdpSessionCrypto
    → UdpTransportResult (List (List ℕ) × ℕ)
    → UdpTransportResult (List (List ℕ)) × UdpSessionCrypto
unfolding advance
sealed_state c (err e) = (err e, c)
sealed_state c (ok (datagrams, last_sequence)) = (ok datagrams, advance c last_sequence)

unfoldable pub seal_message :
    Aead → ℕ → List ℕ → UdpSessionCrypto → UdpTransportResult (List (List ℕ)) × UdpSessionCrypto
unfolding seal sealed_state
seal_message aead message_id plaintext c = sealed_state c (seal aead c message_id plaintext)

-- What `open_datagram` does between decoding the header and committing the sequence number.
unfoldable pub open_with :
    Aead → List ℕ → UdpSessionCrypto → UdpPacketHeader → UdpTransportResult DecryptedUdpFragment
open_with aead datagram c header = do
  fail_if (not (is_encrypted header.kind))
      (unexpected_packet_kind (kind_code encrypted) (kind_code header.kind))
  fail_if (not (bytes_eq header.session_id c.session_id)) wrong_session
  fail_if (not (may_accept c.replay header.seq)) replay_rejected
  let aad = take udp_transport_header_len datagram
  let ciphertext = drop udp_transport_header_len datagram
  let nonce = make_nonce c.receive.nonce_prefix header.seq
  plaintext ← ok_or (aead.decrypt c.receive.cipher nonce aad ciphertext) authentication_failed
  fail_if (ltb udp_max_fragment_plaintext (length plaintext))
      (invalid_header "decrypted fragment exceeds maximum plaintext size")
  fail_if (not (header.total_len == 0) && length plaintext == 0)
      (invalid_header "non-empty messages cannot contain empty fragments")
  ok (record { header = header; payload = plaintext })

-- What `open_datagram` does before it commits the sequence number.
unfoldable pub authenticate :
    Aead → List ℕ → UdpSessionCrypto → UdpTransportResult DecryptedUdpFragment
unfolding open_with
authenticate aead datagram c = do
  fail_if (ltb udp_max_datagram_size (length datagram)) (datagram_too_large (length datagram))
  fail_if (ltb (length datagram) (udp_transport_header_len + udp_aead_tag_len))
      (datagram_too_short (length datagram))
  header ← decode datagram
  open_with aead datagram c header

unfoldable pub commit_fragment :
    UdpSessionCrypto
    → UdpTransportResult DecryptedUdpFragment
    → UdpTransportResult DecryptedUdpFragment × UdpSessionCrypto
commit_fragment c (err e) = (err e, c)
commit_fragment c (ok fragment) =
    let (replay, taken) = commit c.replay fragment.header.seq in
    (if taken then ok fragment else err replay_rejected, record c { replay = replay })

unfoldable pub open_datagram :
    Aead → List ℕ → UdpSessionCrypto → UdpTransportResult DecryptedUdpFragment × UdpSessionCrypto
unfolding authenticate commit_fragment
open_datagram aead datagram c = commit_fragment c (authenticate aead datagram c)
