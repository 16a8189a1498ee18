-- ===== src/ProxyUdp/Auth/Prepared.antt =====
-- What a session that `prepare_session` of proxy/src/native_udp/auth.rs prepared stands for.
use ppaass_ai.Base.{
  ℕ, ◌+◌, ◌-◌, ◌^◌, ◌<◌, ◌≤◌, ◌≡◌, ◌↔◌, refl, leb, if◌then◌else◌, ap, ◌∙◌, true, false, not, some,
  List, arith, ltb, bytes_eq, bytes_eq_iff, Bool,
}
use ppaass_ai.Base.Result.{
  Result, ok, fail_if, ok_or, map_err, >>=-eq-ok, fail_if-eq-ok, ok_or-eq-ok, map_err-eq-ok,
}
use ppaass_ai.UdpTransport.{UdpSessionId}
use ppaass_ai.UdpTransport.Crypto.{proxy}
use ppaass_ai.UdpTransport.Codec
use ppaass_ai.UdpTransport.Codec.{UdpSessionCodec}
use ppaass_ai.UdpTransport.Auth.{
  UdpAuthInit, UdpSessionSecret, encode_auth_ok, encode_session_secret, udp_auth_proof_digest,
  proof_transcript,
}
use ppaass_ai.Users.{Texts, UserConfig, UsersConfig, abs_diff, get_user, is_expired_at}
use ppaass_ai.Users.Expiry.{above_minimum, biased-above_minimum, IsUnexpired, is_expired_at_iff}
use ppaass_ai.Handshake.{Library}
use ppaass_ai.ProxyUdp.Auth.{
  ProxyError, configuration, invalid_public_key, invalid_proof, encryption, protocol,
  PreparedSession, tolerance_of, validate_udp_auth, prepare_session,
}

-- The request names the user, its time is at most so many seconds from now, before or after (a negative
-- tolerance counts as none), and the user is not expired.
pub record IsAdmitted (texts : Texts) (tolerance now : ℕ) (user : UserConfig) (auth : UdpAuthInit)
    : Type 0 where
  pub name : auth.username ≡ user.username
  pub seconds : ℕ
  pub positive : tolerance < 2 ^ 63 → seconds ≡ tolerance
  pub negative : 2 ^ 63 ≤ tolerance → seconds ≡ 0
  pub not_old : above_minimum now ≤ above_minimum auth.timestamp + seconds
  pub not_new : above_minimum auth.timestamp ≤ above_minimum now + seconds
  pub unexpired : IsUnexpired texts user.expires_at now

near_iff :
    (tolerance now time : ℕ)
    → (ltb (tolerance_of tolerance) (abs_diff now time) ≡ false) ↔ (
        (above_minimum now ≤ above_minimum time + tolerance_of tolerance)
        × (above_minimum time ≤ above_minimum now + tolerance_of tolerance))
near_iff tolerance now time =
    rw (biased-above_minimum now, biased-above_minimum time)
      (apart (tolerance_of tolerance) (above_minimum now) (above_minimum time))
  where
    apart :
        (n a b : ℕ)
        → (ltb n (if leb b a then a - b else b - a) ≡ false) ↔ ((a ≤ b + n) × (b ≤ a + n))
    apart n a b = ground arith

validate_udp_auth_iff :
    (texts : Texts) (tolerance now : ℕ) (user : UserConfig) (auth : UdpAuthInit)
    → (validate_udp_auth texts tolerance now user auth ≡ ok tt)
      ↔ IsAdmitted texts tolerance now user auth
unfolding validate_udp_auth
validate_udp_auth_iff texts tolerance now user auth = (forth, back)
  where
    equal : (b : Bool) → not b ≡ false → b ≡ true
    equal true h = refl
    equal false h = absurd (cc)

    forth :
        validate_udp_auth texts tolerance now user auth ≡ ok tt
        → IsAdmitted texts tolerance now user auth
    forth e =
        let (u1, named, e1) =
          >>=-eq-ok (fail_if (not (bytes_eq auth.username user.username)) _) _ e in
        let (u2, near, e2) =
          >>=-eq-ok (fail_if (ltb (tolerance_of tolerance) (abs_diff now auth.timestamp)) _) _ e1 in
        let (expired, asked, e3) =
          >>=-eq-ok (map_err configuration (is_expired_at texts user now)) _ e2 in
        let (u3, valid, e4) = >>=-eq-ok (fail_if expired _) _ e3 in
        let (not_old, not_new) =
          (near_iff tolerance now auth.timestamp).0 (fail_if-eq-ok _ _ near) in
        record {
          name =
              (bytes_eq_iff _ _).0
                (equal (bytes_eq auth.username user.username) (fail_if-eq-ok _ _ named));
          seconds = tolerance_of tolerance;
          positive = λ h. ground (arith, h);
          negative = λ h. ground (arith, h);
          not_old = not_old;
          not_new = not_new;
          unexpired = (is_expired_at_iff texts user now).0 (
              map_err-eq-ok configuration (is_expired_at texts user now) asked
              ∙ ap ok (fail_if-eq-ok _ _ valid));
        }

    back :
        IsAdmitted texts tolerance now user auth
        → validate_udp_auth texts tolerance now user auth ≡ ok tt
    back h =
        let same : bytes_eq auth.username user.username ≡ true = (bytes_eq_iff _ _).1 h.name in
        let span : h.seconds ≡ tolerance_of tolerance = ground (arith, h.positive, h.negative) in
        let near : ltb (tolerance_of tolerance) (abs_diff now auth.timestamp) ≡ false =
          (near_iff tolerance now auth.timestamp).1
            (omega (arith, h.not_old, span), omega (arith, h.not_new, span)) in
        rw (same, near, (is_expired_at_iff texts user now).1 h.unexpired) refl

-- The session belongs to a user of the configuration, whose key has verified the request; its secret is
-- told to this key only, and the codec is made of it.
pub record IsPrepared (lib : Library) (texts : Texts) (tolerance : ℕ) (users : UsersConfig)
    (now : ℕ) (master_key server_nonce : List ℕ) (session_id : UdpSessionId) (auth : UdpAuthInit)
    (prepared : PreparedSession) : Type 0 where
  pub user : UserConfig
  pub known : get_user auth.username users ≡ some user
  pub admitted : IsAdmitted texts tolerance now user auth
  pub key : List ℕ
  pub public_key : lib.rsa.from_public_key_pem user.public_key_pem ≡ ok key
  pub verified :
      lib.rsa.verify_pss_sha256 key
        (lib.kdf.sha256
          (proof_transcript session_id auth.username auth.timestamp auth.client_nonce))
        auth.proof
      ≡ ok tt
  pub encoded : List ℕ
  pub secret :
      encode_session_secret lib.secret (record {
        session_id = session_id;
        client_nonce = auth.client_nonce;
        master_key = master_key;
        server_nonce = server_nonce;
      })
      ≡ ok encoded
  pub sealed : List ℕ
  pub told : lib.rsa.encrypt_oaep_sha256 key encoded ≡ ok sealed
  pub reply :
      encode_auth_ok lib.auth_ok session_id (record { encrypted_session_secret = sealed })
      ≡ ok prepared.auth_ok_datagram
  pub codec :
      Codec.new lib.kdf proxy session_id master_key auth.client_nonce server_nonce
      ≡ ok prepared.codec

pub prepare_session-IsPrepared :
    (lib : Library) (texts : Texts) (tolerance : ℕ) (users : UsersConfig) (now : ℕ)
    (master_key server_nonce : List ℕ) (session_id : UdpSessionId) (auth : UdpAuthInit)
    (prepared : PreparedSession)
    → prepare_session lib texts tolerance users now master_key server_nonce session_id auth
      ≡ ok prepared
    → IsPrepared lib texts tolerance users now master_key server_nonce session_id auth prepared
unfolding prepare_session udp_auth_proof_digest
prepare_session-IsPrepared lib texts tolerance users now master_key server_nonce session_id auth
      prepared e =
    let (user, known, e1) = >>=-eq-ok (ok_or (get_user auth.username users) _) _ e in
    let (u1, admitted, e2) = >>=-eq-ok (validate_udp_auth texts tolerance now user auth) _ e1 in
    let (key, made, e3) =
      >>=-eq-ok (map_err invalid_public_key (lib.rsa.from_public_key_pem user.public_key_pem)) _
        e2 in
    let digest =
      udp_auth_proof_digest lib.kdf session_id auth.username auth.timestamp auth.client_nonce in
    let (u2, verified, e4) =
      >>=-eq-ok (map_err invalid_proof (lib.rsa.verify_pss_sha256 key digest auth.proof)) _ e3 in
    let secret : UdpSessionSecret = record {
      session_id = session_id;
      client_nonce = auth.client_nonce;
      master_key = master_key;
      server_nonce = server_nonce;
    } in
    let (encoded, written, e5) =
      >>=-eq-ok (map_err protocol (encode_session_secret lib.secret secret)) _ e4 in
    let (sealed, told, e6) =
      >>=-eq-ok (map_err encryption (lib.rsa.encrypt_oaep_sha256 key encoded)) _ e5 in
    let (datagram, reply, e7) =
      >>=-eq-ok
        (map_err protocol
          (encode_auth_ok lib.auth_ok session_id (record { encrypted_session_secret = sealed })))
        _ e6 in
    let (codec, new, e8) =
      >>=-eq-ok
        (map_err protocol
          (Codec.new lib.kdf proxy session_id master_key auth.client_nonce server_nonce))
        _ e7 in
    let same_datagram : datagram ≡ prepared.auth_ok_datagram =
      ap (λ (p : PreparedSession). p.auth_ok_datagram)
        (inj (record { codec = codec; auth_ok_datagram = datagram }) prepared e8) in
    let same_codec : codec ≡ prepared.codec =
      ap (λ (p : PreparedSession). p.codec)
        (inj (record { codec = codec; auth_ok_datagram = datagram }) prepared e8) in
    record {
      user = user;
      known = ok_or-eq-ok (get_user auth.username users) _ known;
      admitted = (validate_udp_auth_iff texts tolerance now user auth).0 admitted;
      key = key;
      public_key = map_err-eq-ok _ _ made;
      verified = map_err-eq-ok _ _ verified;
      encoded = encoded;
      secret = map_err-eq-ok _ _ written;
      sealed = sealed;
      told = map_err-eq-ok _ _ told;
      reply = map_err-eq-ok _ _ reply ∙ ap ok same_datagram;
      codec = map_err-eq-ok _ _ new ∙ ap ok same_codec;
    }
  where
    inj :
        (a b : PreparedSession) → ◌≡◌ {A = Result ProxyError PreparedSession} (ok a) (ok b) → a ≡ b
    inj a b h = cc

IsPrepared-prepare_session :
    (lib : Library) (texts : Texts) (tolerance : ℕ) (users : UsersConfig) (now : ℕ)
    (master_key server_nonce : List ℕ) (session_id : UdpSessionId) (auth : UdpAuthInit)
    (prepared : PreparedSession)
    → IsPrepared lib texts tolerance users now master_key server_nonce session_id auth prepared
    → prepare_session lib texts tolerance users now master_key server_nonce session_id auth
      ≡ ok prepared
unfolding prepare_session udp_auth_proof_digest
IsPrepared-prepare_session lib texts tolerance users now master_key server_nonce session_id auth
      prepared h =
    let admitted = (validate_udp_auth_iff texts tolerance now h.user auth).1 h.admitted in
    rw (h.known, admitted, h.public_key, h.verified, h.secret, h.told, h.reply, h.codec) refl

-- A request is answered with a session exactly if it names a known user who is not expired, at a time no
-- further from now than the tolerance, and the user's public key verifies its proof over its transcript,
-- as long as the libraries can write and encrypt the secret; and then the reply carries the session's
-- secret encrypted for this key, and the codec is the proxy's codec of the same secret.
pub prepare_session_iff :
    (lib : Library) (texts : Texts) (tolerance : ℕ) (users : UsersConfig) (now : ℕ)
    (master_key server_nonce : List ℕ) (session_id : UdpSessionId) (auth : UdpAuthInit)
    (prepared : PreparedSession)
    → (prepare_session lib texts tolerance users now master_key server_nonce session_id auth
        ≡ ok prepared)
      ↔ IsPrepared lib texts tolerance users now master_key server_nonce session_id auth prepared
prepare_session_iff lib texts tolerance users now master_key server_nonce session_id auth prepared =
    (
      prepare_session-IsPrepared lib texts tolerance users now master_key server_nonce session_id
          auth prepared,
      IsPrepared-prepare_session lib texts tolerance users now master_key server_nonce session_id
          auth prepared,
    )
