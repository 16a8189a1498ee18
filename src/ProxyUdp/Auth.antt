-- ===== src/ProxyUdp/Auth.antt =====
-- The proxy's side of the handshake: proxy/src/native_udp/auth.rs.
pub mod Prepared
use ppaass_ai.Base.{ℕ, ◌^◌, List, String, ltb, leb, if◌then◌else◌, bytes_eq, not}
use ppaass_ai.Base.Result.{Result, ok, ◌>>=◌, ◌>>◌, fail_if, ok_or, map_err}
use ppaass_ai.UdpTransport.{UdpTransportError, UdpSessionId}
use ppaass_ai.UdpTransport.Crypto.{proxy}
use ppaass_ai.UdpTransport.Codec
use ppaass_ai.UdpTransport.Codec.{UdpSessionCodec}
use ppaass_ai.UdpTransport.Auth.{
  UdpAuthInit, UdpAuthOk, UdpSessionSecret, encode_auth_ok, encode_session_secret,
  udp_auth_proof_digest,
}
use ppaass_ai.Users.{
  ConfigFailure, Texts, UserConfig, UsersConfig, abs_diff, get_user, is_expired_at,
}
use ppaass_ai.Handshake.{Library}

-- `ProxyError`, with the texts of `Authentication` told by their cause.
pub data ProxyError : Type 0 where
  user_not_found : List ℕ → ProxyError
  configuration : ConfigFailure → ProxyError
  username_mismatch timestamp_expired user_expired : ProxyError
  invalid_public_key invalid_proof encryption : String → ProxyError
  protocol : UdpTransportError → ProxyError

pub record PreparedSession : Type 0 where
  pub codec : UdpSessionCodec
  pub auth_ok_datagram : List ℕ

-- `replay_attack_tolerance.max(0) as u64`
abbrev pub tolerance_of : ℕ → ℕ
tolerance_of word = if ltb word (2 ^ 63) then word else 0

unfoldable pub validate_udp_auth :
    Texts → ℕ → ℕ → UserConfig → UdpAuthInit → Result ProxyError (Unit {0})
validate_udp_auth texts tolerance now user auth = do
  fail_if (not (bytes_eq auth.username user.username)) username_mismatch
  fail_if (ltb (tolerance_of tolerance) (abs_diff now auth.timestamp)) timestamp_expired
  expired ← map_err configuration (is_expired_at texts user now)
  fail_if expired user_expired
  ok tt

-- The random keys are arguments.
unfoldable pub prepare_session :
    Library
    → Texts
    → ℕ
    → UsersConfig
    → ℕ
    → List ℕ
    → List ℕ
    → UdpSessionId
    → UdpAuthInit
    → Result ProxyError PreparedSession
unfolding validate_udp_auth
prepare_session lib texts tolerance users now master_key server_nonce session_id auth = do
  user ← ok_or (get_user auth.username users) (user_not_found auth.username)
  validate_udp_auth texts tolerance now user auth
  user_public_key ← map_err invalid_public_key (lib.rsa.from_public_key_pem user.public_key_pem)
  let expected_proof =
      udp_auth_proof_digest lib.kdf session_id auth.username auth.timestamp auth.client_nonce
  map_err invalid_proof (lib.rsa.verify_pss_sha256 user_public_key expected_proof auth.proof)
  encoded_secret ← map_err protocol (
      encode_session_secret lib.secret (record {
        session_id = session_id;
        client_nonce = auth.client_nonce;
        master_key = master_key;
        server_nonce = server_nonce;
      }))
  encrypted ← map_err encryption (lib.rsa.encrypt_oaep_sha256 user_public_key encoded_secret)
  auth_ok_datagram ←
      map_err protocol
        (encode_auth_ok lib.auth_ok session_id (record { encrypted_session_secret = encrypted }))
  codec ←
      map_err protocol
        (Codec.new lib.kdf proxy session_id master_key auth.client_nonce server_nonce)
  ok (record { codec = codec; auth_ok_datagram = auth_ok_datagram })
