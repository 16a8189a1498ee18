-- ===== src/ClientUdp/Auth.antt =====
-- The client's side of the handshake: authenticate_udp_session of
-- common/src/client_connection/udp.rs.
use ppaass_ai.Base.{
  ℕ, ◌*◌, min, Bool, true, false, Option, none, some, List, [], ◌∷◌, String, ltb, length,
  if◌then◌else◌, bytes_eq,
}
use ppaass_ai.Base.Result.{Result, ok, err, ◌>>=◌, map_err}
use ppaass_ai.UdpTransport.{
  UdpTransportError, UdpTransportResult, UdpSessionId, udp_max_datagram_size,
}
use ppaass_ai.UdpTransport.Header.{UdpPacketHeader}
use ppaass_ai.UdpTransport.Crypto.{agent}
use ppaass_ai.UdpTransport.Codec
use ppaass_ai.UdpTransport.Codec.{UdpSessionCodec}
use ppaass_ai.UdpTransport.Auth.{
  UdpAuthInit, UdpAuthOk, UdpSessionSecret, encode_auth_init, decode_auth_ok, decode_session_secret,
  validate_handshake_context, udp_auth_proof_digest,
}
use ppaass_ai.Handshake.{Library}

-- `io::Error` by its kind and cause.
pub data ClientError : Type 0 where
  key_unreadable key_invalid signing_failed io_failed : String → ClientError
  protocol_failed : UdpTransportError → ClientError
  timed_out : ClientError

-- What is signed and sent; the random identifier and nonce are arguments.
unfoldable pub make_request :
    Library
    → Result String (List ℕ)
    → List ℕ
    → ℕ
    → UdpSessionId
    → List ℕ
    → Result ClientError (List ℕ × UdpAuthInit × List ℕ)
make_request lib private_key_pem username timestamp session_id client_nonce = do
  pem ← map_err key_unreadable private_key_pem
  rsa ← map_err key_invalid (lib.rsa.from_private_key_pem pem)
  let digest = udp_auth_proof_digest lib.kdf session_id username timestamp client_nonce
  proof ← map_err signing_failed (lib.rsa.sign_pss_sha256 rsa digest)
  let auth : UdpAuthInit = record {
    username = username;
    timestamp = timestamp;
    client_nonce = client_nonce;
    proof = proof;
  }
  request ← map_err protocol_failed (encode_auth_init lib.auth_init session_id auth)
  ok (rsa, auth, request)

-- What becomes of a datagram: `continue`, an error, or the codec of the session.
pub data Answer : Type 0 where
  skipped : Answer
  failed : UdpTransportError → Answer
  accepted : UdpSessionCodec → Answer

module _ (lib : Library) (rsa : List ℕ) (session_id : UdpSessionId) (client_nonce : List ℕ) where
  unfoldable pub made : UdpTransportResult UdpSessionCodec → Answer
  made (err e) = failed e
  made (ok codec) = accepted codec

  unfoldable pub after_validation : UdpSessionSecret → UdpTransportResult (Unit {0}) → Answer
  unfolding made
  after_validation secret (err e) = skipped
  after_validation secret (ok u) =
      made (Codec.new lib.kdf agent session_id secret.master_key client_nonce secret.server_nonce)

  unfoldable pub after_reading : UdpTransportResult UdpSessionSecret → Answer
  unfolding after_validation
  after_reading (err e) = skipped
  after_reading (ok secret) =
      after_validation secret (validate_handshake_context secret session_id client_nonce)

  unfoldable pub after_decryption : Result String (List ℕ) → Answer
  unfolding after_reading
  after_decryption (err e) = skipped
  after_decryption (ok secret_bytes) = after_reading (decode_session_secret lib.secret secret_bytes)

  unfoldable pub after_decoding : UdpTransportResult (UdpPacketHeader × UdpAuthOk) → Answer
  unfolding after_decryption
  after_decoding (err e) = skipped
  after_decoding (ok (header, auth_ok)) =
      if bytes_eq header.session_id session_id
      then after_decryption (lib.rsa.decrypt_oaep_sha256 rsa auth_ok.encrypted_session_secret)
      else skipped

  unfoldable pub answer : List ℕ → Answer
  unfolding after_decoding
  answer datagram =
      if ltb udp_max_datagram_size (length datagram)
      then skipped
      else after_decoding (decode_auth_ok lib.auth_ok datagram)

  unfoldable pub or_later : Answer → Answer → Answer
  or_later skipped later = later
  or_later (failed e) later = failed e
  or_later (accepted codec) later = accepted codec

  -- The inner loop, over what arrives in one attempt; `none` is an error of the socket, which ends the
  -- attempt as its deadline does.
  unfoldable pub attempt : List (Option (List ℕ)) → Answer
  unfolding answer or_later
  attempt [] = skipped
  attempt (none ∷ rest) = skipped
  attempt (some datagram ∷ rest) = or_later (answer datagram) (attempt rest)

-- One round of the outer loop: whether `send` fails, what arrives until the attempt ends, and whether
-- the deadline of the handshake is over then.
pub record Attempt : Type 0 where
  pub sending : Result String ℕ
  pub received : List (Option (List ℕ))
  pub over : Bool

pub data Authenticated : Type 0 where
  connected : UdpSessionCodec → Authenticated
  refused : ClientError → Authenticated
  waiting : Authenticated

-- In milliseconds.
abbrev pub auth_initial_retry : ℕ
auth_initial_retry = 200

abbrev pub control_max_retry : ℕ
control_max_retry = 2000

-- The result, and the delays of the attempts that were made.
unfoldable pub after_attempt : ℕ → Answer → Bool → Authenticated × List ℕ → Authenticated × List ℕ
after_attempt delay (accepted codec) over rest = (connected codec, delay ∷ [])
after_attempt delay (failed e) over rest = (refused (protocol_failed e), delay ∷ [])
after_attempt delay skipped true rest = (refused timed_out, delay ∷ [])
after_attempt delay skipped false rest = (rest.0, delay ∷ rest.1)

unfoldable pub after_sending : Result String ℕ → Authenticated × List ℕ → Authenticated × List ℕ
after_sending (err text) rest = (refused (io_failed text), [])
after_sending (ok sent) rest = rest

unfoldable pub authenticate_udp_session :
    Library → List ℕ → UdpSessionId → List ℕ → List Attempt → ℕ → Authenticated × List ℕ
unfolding after_attempt after_sending attempt
authenticate_udp_session lib rsa session_id client_nonce [] retry_delay = (waiting, [])
authenticate_udp_session lib rsa session_id client_nonce (first ∷ attempts) retry_delay =
    after_sending first.sending (
      after_attempt retry_delay (attempt lib rsa session_id client_nonce first.received) first.over
        (authenticate_udp_session lib rsa session_id client_nonce attempts
          (min (retry_delay * 2) control_max_retry)))
