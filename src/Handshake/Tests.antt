-- ===== src/Handshake/Tests.antt =====
-- The theorems about the handshake at concrete inputs, with an RSA that changes nothing and a hash that
-- forgets everything.
use ppaass_ai.Base.{
  ℕ, ◌≡◌, ◌↔◌, refl, sym, ap, Bool, Bool-cases, inl, inr, true, false, some, List, [], ◌∷◌, ◌++◌,
  String, arith, replicate, get_or, if◌then◌else◌, bytes_eq, bytes_eq_iff, ◌&&◌,
}
use ppaass_ai.Base.Assoc.{lookup}
use ppaass_ai.Base.Bytes.{to_be_bytes}
use ppaass_ai.Base.Ascii.{ascii}
use ppaass_ai.Base.Result.{Result, ok, err}
use ppaass_ai.UdpTransport.Header
use ppaass_ai.UdpTransport.Header.{encode, validate, header_bytes, kind_code}
use ppaass_ai.UdpTransport.Reassembly
use ppaass_ai.UdpTransport.Reassembly.{default_config, from_valid_config}
use ppaass_ai.UdpTransport.Crypto
use ppaass_ai.UdpTransport.Crypto.{Kdf, proxy, UdpDirectionalKeyMaterial, from_key_material, derive}
use ppaass_ai.UdpTransport.Crypto.Exchange.{AreLinked}
use ppaass_ai.UdpTransport.Codec
use ppaass_ai.UdpTransport.Codec.{UdpSessionCodec, Serializer, with_parts, with_reassembly_config}
use ppaass_ai.UdpTransport.Auth.{
  UdpAuthInit, UdpSessionSecret, encode_auth_ok, encode_auth_packet, udp_auth_proof_digest,
}
use ppaass_ai.Users.{get_user, is_expired_at}
use ppaass_ai.Users.Tests.{texts, users}
use ppaass_ai.Handshake.{Library}
use ppaass_ai.Handshake.Agreement.{AreReadable, authenticate_udp_session-prepare_session}
use ppaass_ai.ProxyUdp.Auth.{PreparedSession, prepare_session}
use ppaass_ai.ProxyUdp.Auth.Prepared.{IsPrepared, prepare_session_iff}
use ppaass_ai.ClientUdp.Auth.{connected, authenticate_udp_session}

abbrev pub kdf : Kdf
kdf = record {
  sha256 = λ m. replicate 32 0;
  expand = λ salt key label len. some (replicate len (get_or label 21 0));
}

abbrev pub session : List ℕ
session = replicate 16 7

abbrev pub secret : UdpSessionSecret
secret = record {
  session_id = session;
  client_nonce = replicate 32 5;
  master_key = replicate 32 8;
  server_nonce = replicate 32 6;
}

abbrev pub is_secret : UdpSessionSecret → Bool
is_secret s =
    bytes_eq s.session_id secret.session_id
    && bytes_eq s.client_nonce secret.client_nonce
    && bytes_eq s.master_key secret.master_key
    && bytes_eq s.server_nonce secret.server_nonce

abbrev pub read_secret : List ℕ → Result String UdpSessionSecret
read_secret (n ∷ []) = ok secret
read_secret _ = err "no secret"

abbrev pub lib : Library
lib = record {
  kdf = kdf;
  rsa = record {
    from_public_key_pem = λ pem. ok pem;
    from_private_key_pem = λ pem. ok pem;
    sign_pss_sha256 = λ key digest. ok digest;
    verify_pss_sha256 =
        λ key digest proof. if bytes_eq digest proof then ok tt else err "bad proof";
    encrypt_oaep_sha256 = λ key plain. ok plain;
    decrypt_oaep_sha256 = λ key sealed. ok sealed;
  };
  auth_init = record {
    serialize = λ a. ok a.username;
    deserialize = λ b. ok (record {
      username = b;
      timestamp = 5;
      client_nonce = replicate 32 5;
      proof = replicate 32 0;
    });
  };
  auth_ok = record {
    serialize = λ a. ok a.encrypted_session_secret;
    deserialize = λ b. ok (record { encrypted_session_secret = b });
  };
  secret = record {
    serialize = λ s. if is_secret s then ok (0 ∷ []) else err "another secret";
    deserialize = read_secret;
  };
}

lib-AreReadable : AreReadable lib
lib-AreReadable = record {
  auth_ok =
      λ a bytes e. ap (λ b. ok (record { encrypted_session_secret = b })) (sym (ok-inj _ _ e));
  secret = λ a bytes e. known a bytes e;
}
  where
    ok-inj : (a b : List ℕ) → ◌≡◌ {A = Result String (List ℕ)} (ok a) (ok b) → a ≡ b
    ok-inj a b e = cc

    equal : (s : UdpSessionSecret) → is_secret s ≡ true → s ≡ secret
    equal s h = ground (
      arith,
      bytes_eq_iff s.session_id secret.session_id,
      bytes_eq_iff s.client_nonce secret.client_nonce,
      bytes_eq_iff s.master_key secret.master_key,
      bytes_eq_iff s.server_nonce secret.server_nonce,
    )

    no_ok :
        (bytes : List ℕ) → ◌≡◌ {A = Result String (List ℕ)} (err "another secret") (ok bytes) → ⊥
    no_ok bytes e = cc

    known :
        (s : UdpSessionSecret) (bytes : List ℕ)
        → ◌≡◌ {A = Result String (List ℕ)}
            (if is_secret s then ok (0 ∷ []) else err "another secret")
            (ok bytes)
        → read_secret bytes ≡ ok s
    known s bytes e = elim (Bool-cases (is_secret s)) [
      | inl same ↦
          let one : 0 ∷ [] ≡ bytes = ok-inj _ _ (rw same at e) in rw (← one, equal s same) refl
      | inr other ↦ absurd (no_ok bytes (rw other at e))
    ]

abbrev pub request : UdpAuthInit
request = record {
  username = 97 ∷ 109 ∷ [];
  timestamp = 5;
  client_nonce = replicate 32 5;
  proof = replicate 32 0;
}

abbrev pub keys : UdpDirectionalKeyMaterial
keys = record {
  client_to_server_key = replicate 32 b'c';
  server_to_client_key = replicate 32 b's';
  client_to_server_nonce_prefix = replicate 4 b'c';
  server_to_client_nonce_prefix = replicate 4 b's';
}

abbrev pub prepared : PreparedSession
prepared = record {
  codec = with_parts (from_key_material proxy session keys) (from_valid_config default_config);
  auth_ok_datagram = header_bytes (Header.new Header.auth_ok session 0 0 0 1 1) ++ (0 ∷ []);
}

pub prepares :
    prepare_session lib texts 30 users 5 secret.master_key secret.server_nonce session request
    ≡ ok prepared
unfolding prepare_session get_user lookup is_expired_at encode_auth_ok encode_auth_packet encode
    validate header_bytes to_be_bytes kind_code Codec.new with_reassembly_config Crypto.new derive
    Reassembly.new udp_auth_proof_digest ascii
prepares = refl

prepare_session_iff_example :
    (prepare_session lib texts 30 users 5 secret.master_key secret.server_nonce session request
      ≡ ok prepared)
    ↔ IsPrepared lib texts 30 users 5 secret.master_key secret.server_nonce session request prepared
prepare_session_iff_example =
    prepare_session_iff lib texts 30 users 5 secret.master_key secret.server_nonce session request
      prepared

authenticate_udp_session-prepare_session_example :
    (codec : UdpSessionCodec) × (authenticate_udp_session lib
        (1 ∷ [])
        session
        (replicate 32 5)
        (record { sending = ok 48; received = some prepared.auth_ok_datagram ∷ []; over = false }
          ∷ [])
        200
      ≡ (connected codec, 200 ∷ []))
    × AreLinked codec.crypto prepared.codec.crypto
    × AreLinked prepared.codec.crypto codec.crypto
authenticate_udp_session-prepare_session_example =
    authenticate_udp_session-prepare_session lib texts 30 users 5 secret.master_key
      secret.server_nonce session request prepared (1 ∷ []) 48 [] false [] 200 lib-AreReadable refl
      (ground arith) (λ user key found made plain sealed e. sym e) prepares
