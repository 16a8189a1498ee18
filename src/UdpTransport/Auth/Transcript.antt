-- ===== src/UdpTransport/Auth/Transcript.antt =====
-- The signed transcript of protocol/src/udp_transport/auth.rs, and the binding of the secret.
use ppaass_ai.Base.{
  ℕ, ◌^◌, ◌<◌, ◌≡◌, ◌↔◌, refl, sym, ap, ◌∙◌, List, [], ◌∷◌, ◌++◌, arith, length, bytes_eq_iff,
}
use ppaass_ai.Base.Ascii.{ascii}
use ppaass_ai.Base.Result.{ok}
use ppaass_ai.Base.Bytes.{to_be_bytes, from_be_bytes, length-to_be_bytes, from_be_bytes-to_be_bytes}
use ppaass_ai.UdpTransport.{UdpSessionId}
use ppaass_ai.UdpTransport.Auth.{
  UdpSessionSecret, username_len, proof_transcript, validate_handshake_context,
}

append-inj : (a b c d : List ℕ) → length a ≡ length b → a ++ c ≡ b ++ d → (a ≡ b) × (c ≡ d)
append-inj [] [] c d h e = (refl, e)
append-inj [] (y ∷ b) c d h e = absurd (omega (arith, h))
append-inj (x ∷ a) [] c d h e = absurd (omega (arith, h))
append-inj (x ∷ a) (y ∷ b) c d h e =
    let heads : ◌≡◌ {A = ℕ} x y = cc e in
    let (same, rest) = append-inj a b c d (omega (arith, h)) (cc e) in (cc (heads, same), rest)

to_be_bytes-inj :
    (n a b : ℕ) → a < 256 ^ n → b < 256 ^ n → to_be_bytes n a ≡ to_be_bytes n b → a ≡ b
to_be_bytes-inj n a b ha hb e =
    sym (from_be_bytes-to_be_bytes n a ha) ∙ ap from_be_bytes e ∙ from_be_bytes-to_be_bytes n b hb

-- Two handshakes with one transcript, whose fields have the ranges of their types and whose names are shorter
-- than 2 ^ 32 bytes, agree in every field: the length of the name makes the transcript unambiguous.
pub proof_transcript-inj :
    (s1 s2 : UdpSessionId) (u1 u2 : List ℕ) (t1 t2 : ℕ) (n1 n2 : List ℕ)
    → length s1 ≡ 16
    → length s2 ≡ 16
    → length u1 < 2 ^ 32
    → length u2 < 2 ^ 32
    → t1 < 2 ^ 64
    → t2 < 2 ^ 64
    → proof_transcript s1 u1 t1 n1 ≡ proof_transcript s2 u2 t2 n2
    → (s1 ≡ s2) × (u1 ≡ u2) × (t1 ≡ t2) × (n1 ≡ n2)
unfolding proof_transcript
proof_transcript-inj s1 s2 u1 u2 t1 t2 n1 n2 ls1 ls2 lu1 lu2 lt1 lt2 e =
    let label = ascii "ppaass/native-udp/auth-proof/v1" in
    let (l, e1) = append-inj label label _ _ refl e in
    let (z, e2) = append-inj (0 ∷ []) (0 ∷ []) _ _ refl e1 in
    let (session, e3) = append-inj s1 s2 _ _ (ls1 ∙ sym ls2) e2 in
    let (lens, e4) =
      append-inj (to_be_bytes 4 (username_len u1)) (to_be_bytes 4 (username_len u2)) _ _
        (length-to_be_bytes 4 (username_len u1) ∙ sym (length-to_be_bytes 4 (username_len u2)))
        e3 in
    let f1 : username_len u1 ≡ length u1 = ground arith in
    let f2 : username_len u2 ≡ length u2 = ground arith in
    let sizes : length u1 ≡ length u2 =
      to_be_bytes-inj 4 (length u1) (length u2) (omega arith) (omega arith)
        (ap (to_be_bytes 4) (sym f1) ∙ lens ∙ ap (to_be_bytes 4) f2) in
    let (user, e5) = append-inj u1 u2 _ _ sizes e4 in
    let (stamps, nonce) =
      append-inj (to_be_bytes 8 t1) (to_be_bytes 8 t2) n1 n2
        (length-to_be_bytes 8 t1 ∙ sym (length-to_be_bytes 8 t2)) e5 in
    (session, user, to_be_bytes-inj 8 t1 t2 (omega arith) (omega arith) stamps, nonce)

pub validate_handshake_context_iff :
    (secret : UdpSessionSecret) (session_id : UdpSessionId) (client_nonce : List ℕ)
    → (validate_handshake_context secret session_id client_nonce ≡ ok tt)
      ↔ ((secret.session_id ≡ session_id) × (secret.client_nonce ≡ client_nonce))
unfolding validate_handshake_context
validate_handshake_context_iff secret session_id client_nonce = ground (
  arith,
  bytes_eq_iff secret.session_id session_id,
  bytes_eq_iff secret.client_nonce client_nonce,
)
