-- ===== src/Handshake.antt =====
-- The libraries that the handshake calls: RSA behind protocol/src/crypto, the serializers of the
-- handshake's packets, and the functions of the transport. A key is its bytes; the randomness of RSA is
-- in its functions.
pub mod Agreement
pub mod Tests
use ppaass_ai.Base.{ℕ, List, String}
use ppaass_ai.Base.Result.{Result}
use ppaass_ai.UdpTransport.Crypto.{Kdf}
use ppaass_ai.UdpTransport.Codec.{Serializer}
use ppaass_ai.UdpTransport.Auth.{UdpAuthInit, UdpAuthOk, UdpSessionSecret}

pub record Rsa : Type 0 where
  pub from_public_key_pem : List ℕ → Result String (List ℕ)
  pub from_private_key_pem : List ℕ → Result String (List ℕ)
  pub sign_pss_sha256 : List ℕ → List ℕ → Result String (List ℕ)
  pub verify_pss_sha256 : List ℕ → List ℕ → List ℕ → Result String (Unit {0})
  pub encrypt_oaep_sha256 : List ℕ → List ℕ → Result String (List ℕ)
  pub decrypt_oaep_sha256 : List ℕ → List ℕ → Result String (List ℕ)

pub record Library : Type 0 where
  pub kdf : Kdf
  pub rsa : Rsa
  pub auth_init : Serializer UdpAuthInit
  pub auth_ok : Serializer UdpAuthOk
  pub secret : Serializer UdpSessionSecret
