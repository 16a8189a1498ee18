-- ===== src/Handshake/Agreement.antt =====
-- The handshake of proxy/src/native_udp/auth.rs and common/src/client_connection/udp.rs, both
-- sides together.
use ppaass_ai.Base.{
  ℕ, ◌≡◌, refl, sym, ap, ◌∙◌, true, false, Bool, Option, some, List, [], ◌∷◌, String, ltb, bytes_eq,
  bytes_eq_iff, length,
}
use ppaass_ai.Base.Bytes.{AreBytes}
use ppaass_ai.Base.Result.{Result, ok, err, fail_if, fail_if-eq-ok, >>=-eq-ok}
use ppaass_ai.UdpTransport.{UdpTransportResult, UdpSessionId}
use ppaass_ai.UdpTransport.Header.{UdpPacketHeader, auth_ok}
use ppaass_ai.UdpTransport.Reassembly
use ppaass_ai.UdpTransport.Reassembly.{default_config}
use ppaass_ai.UdpTransport.Crypto
use ppaass_ai.UdpTransport.Crypto.{
  Kdf, UdpSessionRole, agent, proxy, UdpDirectionalKeyMaterial, UdpSessionCrypto, from_key_material,
  derive,
}
use ppaass_ai.UdpTransport.Crypto.Exchange.{AreLinked}
use ppaass_ai.UdpTransport.Codec
use ppaass_ai.UdpTransport.Codec.{
  UdpSessionCodec, with_parts, with_reassembly_config, Serializer, map_serialization,
}
use ppaass_ai.UdpTransport.Auth.{
  UdpAuthInit, UdpAuthOk, UdpSessionSecret, encode_auth_ok, decode_auth_ok, encode_session_secret,
  encode_auth_packet, decode_auth_packet,
}
use ppaass_ai.UdpTransport.Auth.Transcript.{validate_handshake_context_iff}
use ppaass_ai.UdpTransport.Auth.RoundTrip.{packet_header, decode_auth_packet-encode_auth_packet}
use ppaass_ai.Users.{Texts, UserConfig, UsersConfig, get_user}
use ppaass_ai.Handshake.{Rsa, Library}
use ppaass_ai.ProxyUdp.Auth.{PreparedSession, prepare_session}
use ppaass_ai.ProxyUdp.Auth.Prepared.{prepare_session-IsPrepared}
use ppaass_ai.ClientUdp.Auth.{
  accepted, answer, after_decoding, after_decryption, after_reading, after_validation, made,
  or_later, attempt, Attempt, connected, after_attempt, after_sending, authenticate_udp_session,
}

-- What the code relies on: the serializers read what they wrote, and the private key opens what is
-- encrypted for the public key.
pub record AreReadable (lib : Library) : Type 0 where
  pub auth_ok :
      (a : UdpAuthOk) (bytes : List ℕ)
      → lib.auth_ok.serialize a ≡ ok bytes
      → lib.auth_ok.deserialize bytes ≡ ok a
  pub secret :
      (a : UdpSessionSecret) (bytes : List ℕ)
      → lib.secret.serialize a ≡ ok bytes
      → lib.secret.deserialize bytes ≡ ok a

abbrev pub IsKeyPair : Rsa → List ℕ → List ℕ → Type 0
IsKeyPair rsa public_key private_key =
    (plain sealed : List ℕ)
    → rsa.encrypt_oaep_sha256 public_key plain ≡ ok sealed
    → rsa.decrypt_oaep_sha256 private_key sealed ≡ ok plain

-- Both codecs of one secret.
record AreTwins (kdf : Kdf) (session_id : UdpSessionId)
    (master_key client_nonce server_nonce : List ℕ) (p : UdpSessionCodec) : Type 0 where
  twin : UdpSessionCodec
  made_by : Codec.new kdf agent session_id master_key client_nonce server_nonce ≡ ok twin
  forward : AreLinked twin.crypto p.crypto
  backward : AreLinked p.crypto twin.crypto

new-AreTwins :
    (kdf : Kdf) (session_id : UdpSessionId) (master_key client_nonce server_nonce : List ℕ)
    (p : UdpSessionCodec)
    → Codec.new kdf proxy session_id master_key client_nonce server_nonce ≡ ok p
    → AreTwins kdf session_id master_key client_nonce server_nonce p
unfolding Codec.new with_reassembly_config Crypto.new
new-AreTwins kdf session_id master_key client_nonce server_nonce p e =
    let (crypto, made_crypto, e1) =
      >>=-eq-ok (Crypto.new kdf proxy session_id master_key client_nonce server_nonce) _ e in
    let (reassembler, made_reassembler, e2) = >>=-eq-ok (Reassembly.new default_config) _ e1 in
    let (keys, derived, e3) =
      >>=-eq-ok (derive kdf master_key session_id client_nonce server_nonce) _ made_crypto in
    let is_crypto : from_key_material proxy session_id keys ≡ crypto = crypto_inj _ _ e3 in
    let is_p : with_parts crypto reassembler ≡ p = codec_inj _ _ e2 in
    let same : from_key_material proxy session_id keys ≡ p.crypto =
      is_crypto ∙ ap (λ (q : UdpSessionCodec). q.crypto) is_p in
    record {
      twin = with_parts (from_key_material agent session_id keys) reassembler;
      made_by = rw (derived, made_reassembler) refl;
      forward = record {
        session = sym (ap (λ (c : UdpSessionCrypto). c.session_id) same);
        direction = sym (ap (λ (c : UdpSessionCrypto). c.receive) same);
      };
      backward = record {
        session = ap (λ (c : UdpSessionCrypto). c.session_id) same;
        direction = ap (λ (c : UdpSessionCrypto). c.send) same;
      };
    }
  where
    crypto_inj :
        (a b : UdpSessionCrypto)
        → ◌≡◌ {A = UdpTransportResult UdpSessionCrypto} (ok a) (ok b)
        → a ≡ b
    crypto_inj a b h = cc

    codec_inj :
        (a b : UdpSessionCodec) → ◌≡◌ {A = UdpTransportResult UdpSessionCodec} (ok a) (ok b) → a ≡ b
    codec_inj a b h = cc

decode_auth_packet-fits :
    {A : Type 0} (serde : Serializer A) (datagram : List ℕ) (r : UdpPacketHeader × A)
    → decode_auth_packet serde auth_ok datagram ≡ ok r
    → ltb 1351 (length datagram) ≡ false
unfolding decode_auth_packet
decode_auth_packet-fits serde datagram r e =
    let (u, fits, rest) = >>=-eq-ok (fail_if (ltb 1351 (length datagram)) _) _ e in
    fail_if-eq-ok _ _ fits

serialized_of :
    (r : Result String (List ℕ)) {bytes : List ℕ} → map_serialization r ≡ ok bytes → r ≡ ok bytes
serialized_of (ok b) e = cc
serialized_of (err t) e = cc

module _ (lib : Library) (readable : AreReadable lib) (session_id : UdpSessionId)
    (id_length : length session_id ≡ 16) (id_bytes : AreBytes session_id) where
  -- The reply of the proxy decodes to what it encrypted.
  reply-decodes :
      (sealed datagram : List ℕ)
      → encode_auth_ok lib.auth_ok session_id (record { encrypted_session_secret = sealed })
        ≡ ok datagram
      → (payload : List ℕ) × (decode_auth_ok lib.auth_ok datagram
          ≡ ok (
            packet_header auth_ok session_id payload,
            record { encrypted_session_secret = sealed },
          ))
        × (ltb 1351 (length datagram) ≡ false)
  unfolding encode_auth_ok decode_auth_ok encode_auth_packet
  reply-decodes sealed datagram e =
      let value : UdpAuthOk = record { encrypted_session_secret = sealed } in
      let (payload, written, e1) =
        >>=-eq-ok (map_serialization (lib.auth_ok.serialize value)) _ e in
      let serialized = serialized_of (lib.auth_ok.serialize value) written in
      let back =
        decode_auth_packet-encode_auth_packet lib.auth_ok auth_ok session_id value payload datagram
          id_length id_bytes serialized (readable.auth_ok value payload serialized) e in
      (payload, back, decode_auth_packet-fits lib.auth_ok datagram _ back)

  module _ (private_key client_nonce : List ℕ) where
    -- The client accepts the reply of a prepared session, with the codec of the same secret.
    answer-prepared :
        (master_key server_nonce key encoded sealed datagram : List ℕ) (twin : UdpSessionCodec)
        → IsKeyPair lib.rsa key private_key
        → encode_session_secret lib.secret (record {
          session_id = session_id;
          client_nonce = client_nonce;
          master_key = master_key;
          server_nonce = server_nonce;
        })
          ≡ ok encoded
        → lib.rsa.encrypt_oaep_sha256 key encoded ≡ ok sealed
        → encode_auth_ok lib.auth_ok session_id (record { encrypted_session_secret = sealed })
          ≡ ok datagram
        → Codec.new lib.kdf agent session_id master_key client_nonce server_nonce ≡ ok twin
        → answer lib private_key session_id client_nonce datagram ≡ accepted twin
    unfolding answer after_decoding after_decryption after_reading after_validation made
    answer-prepared master_key server_nonce key encoded sealed datagram twin pair written told reply
          made_by =
        let secret : UdpSessionSecret = record {
          session_id = session_id;
          client_nonce = client_nonce;
          master_key = master_key;
          server_nonce = server_nonce;
        } in
        let (payload, decoded_as, fits) = reply-decodes sealed datagram reply in
        let own : bytes_eq session_id session_id ≡ true =
          (bytes_eq_iff session_id session_id).1 refl in
        let opened = pair encoded sealed told in
        let back =
          readable.secret secret encoded (serialized_of (lib.secret.serialize secret) written) in
        let valid =
          (validate_handshake_context_iff secret session_id client_nonce).1 (refl, refl) in
        rw (fits, decoded_as, own, opened, back, valid, made_by) refl

-- Whom the proxy prepares a session for with a key pair's public key, that client connects: if the reply
-- is the first that arrives in an attempt, the handshake ends with a codec such that each of the two
-- codecs opens what the other one seals.
pub authenticate_udp_session-prepare_session :
    (lib : Library) (texts : Texts) (tolerance : ℕ) (users : UsersConfig) (now : ℕ)
    (master_key server_nonce : List ℕ) (session_id : UdpSessionId) (auth : UdpAuthInit)
    (prepared : PreparedSession) (private_key : List ℕ) (sent : ℕ) (rest : List (Option (List ℕ)))
    (over : Bool) (attempts : List Attempt) (delay : ℕ)
    → AreReadable lib
    → length session_id ≡ 16
    → AreBytes session_id
    → ((user : UserConfig) (key : List ℕ)
        → get_user auth.username users ≡ some user
        → lib.rsa.from_public_key_pem user.public_key_pem ≡ ok key
        → IsKeyPair lib.rsa key private_key)
    → prepare_session lib texts tolerance users now master_key server_nonce session_id auth
      ≡ ok prepared
    → (codec : UdpSessionCodec) × (authenticate_udp_session lib private_key session_id
          auth.client_nonce
          (record {
            sending = ok sent;
            received = some prepared.auth_ok_datagram ∷ rest;
            over = over;
          }
            ∷ attempts)
          delay
        ≡ (connected codec, delay ∷ []))
      × AreLinked codec.crypto prepared.codec.crypto
      × AreLinked prepared.codec.crypto codec.crypto
unfolding authenticate_udp_session after_sending after_attempt attempt or_later
authenticate_udp_session-prepare_session lib texts tolerance users now master_key server_nonce
      session_id auth prepared private_key sent rest over attempts delay readable l b pair e =
    let p =
      prepare_session-IsPrepared lib texts tolerance users now master_key server_nonce session_id
        auth prepared e in
    let t =
      new-AreTwins lib.kdf session_id master_key auth.client_nonce server_nonce prepared.codec
        p.codec in
    let known =
      answer-prepared lib readable session_id l b private_key auth.client_nonce master_key
        server_nonce p.key p.encoded p.sealed prepared.auth_ok_datagram t.twin
        (pair p.user p.key p.known p.public_key) p.secret p.told p.reply t.made_by in
    (t.twin, rw known refl, t.forward, t.backward)
