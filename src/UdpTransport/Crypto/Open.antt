-- ===== src/UdpTransport/Crypto/Open.antt =====
-- What `open_datagram` of protocol/src/udp_transport/crypto.rs accepts.
use ppaass_ai.Base.{
  ℕ, ◌≡◌, refl, sym, subst, ap, ◌∙◌, true, some, List, [], ◌∷◌, arith, ltb, length, take, drop,
  bytes_eq_iff, IsDistinct, ◌≤◌,
}
use ppaass_ai.Base.Result.{ok, err, >>=-eq-ok, fail_if}
use ppaass_ai.UdpTransport.{UdpTransportResult, UdpSessionId}
use ppaass_ai.UdpTransport.Fragment.{DecryptedUdpFragment}
use ppaass_ai.UdpTransport.Header.{UdpPacketHeader, is_encrypted, decode}
use ppaass_ai.UdpTransport.Replay.{may_accept}
use ppaass_ai.UdpTransport.Replay.History.{
  Represents, Represents-new, fresh, commit-Represents, may_accept-fresh,
}
use ppaass_ai.UdpTransport.Crypto.{
  UdpSessionRole, UdpDirectionalKeyMaterial, from_key_material, Aead, UdpSessionCrypto, make_nonce,
  open_with, authenticate, commit_fragment, open_datagram,
}

-- The datagram is one of the peer's: it decodes to the fragment's header, which belongs to the
-- session, and its tag is right.
pub record IsAuthentic (aead : Aead) (datagram : List ℕ) (c : UdpSessionCrypto)
    (f : DecryptedUdpFragment) : Type 0 where
  pub decoded : decode datagram ≡ ok f.header
  pub kind : is_encrypted f.header.kind ≡ true
  pub session : f.header.session_id ≡ c.session_id
  pub decrypted :
      aead.decrypt c.receive.cipher
        (make_nonce c.receive.nonce_prefix f.header.seq)
        (take 46 datagram)
        (drop 46 datagram)
      ≡ some f.payload
  pub fits : length f.payload ≤ 1289

-- What a call leaves: an error changes nothing; a fragment is authentic, its number was not taken
-- before, and it is the only one that the window adds.
abbrev pub Opened :
    Aead
    → List ℕ
    → List ℕ
    → UdpSessionCrypto
    → UdpTransportResult DecryptedUdpFragment × UdpSessionCrypto
    → Type 0
Opened aead datagram history c (err e, c') = c' ≡ c
Opened aead datagram history c (ok f, c') =
    IsAuthentic aead datagram c f
    × (fresh history f.header.seq ≡ true)
    × Represents c'.replay (f.header.seq ∷ history)
    × (record c' { replay = c.replay } ≡ c)

module _ (aead : Aead) (datagram : List ℕ) (c : UdpSessionCrypto) (header : UdpPacketHeader)
    (f : DecryptedUdpFragment) where
  open_with_sound :
      open_with aead datagram c header ≡ ok f
      → (header ≡ f.header)
        × (is_encrypted header.kind ≡ true)
        × (header.session_id ≡ c.session_id)
        × (aead.decrypt c.receive.cipher
              (make_nonce c.receive.nonce_prefix header.seq)
              (take 46 datagram)
              (drop 46 datagram)
            ≡ some f.payload)
        × (length f.payload ≤ 1289)
        × (may_accept c.replay header.seq ≡ true)
  unfolding open_with
  open_with_sound e = ground (arith, bytes_eq_iff header.session_id c.session_id)

authenticate_sound :
    (aead : Aead) (datagram : List ℕ) (c : UdpSessionCrypto) (f : DecryptedUdpFragment)
    → authenticate aead datagram c ≡ ok f
    → IsAuthentic aead datagram c f × (may_accept c.replay f.header.seq ≡ true)
unfolding authenticate
authenticate_sound aead datagram c f e =
    let (u1, short, e1) = >>=-eq-ok (fail_if (ltb 1351 (length datagram)) _) _ e in
    let (u2, long, e2) = >>=-eq-ok (fail_if (ltb (length datagram) 62) _) _ e1 in
    let (header, decoded, e3) = >>=-eq-ok (decode datagram) _ e2 in
    let (same, kind, session, decrypted, fits, new) = open_with_sound aead datagram c header f e3 in
    (
      record {
        decoded = decoded ∙ ap ok same;
        kind = cc;
        session = cc (same, session);
        decrypted = cc (same, decrypted);
        fits = fits;
      },
      cc (same, new),
    )

commit_fragment-Opened :
    (aead : Aead) (datagram history : List ℕ) (c : UdpSessionCrypto)
    (res : UdpTransportResult DecryptedUdpFragment)
    → authenticate aead datagram c ≡ res
    → Represents c.replay history
    → Opened aead datagram history c (commit_fragment c res)
unfolding commit_fragment
commit_fragment-Opened aead datagram history c (err x) e r = refl
commit_fragment-Opened aead datagram history c (ok f) e r =
    let (authentic, accepted) = authenticate_sound aead datagram c f e in
    let new : fresh history f.header.seq ≡ true =
      sym (may_accept-fresh c.replay history f.header.seq r) ∙ accepted in
    let (taken, after) = commit-Represents c.replay history f.header.seq r in
    rw (taken, new) (authentic, new, rw new at after, refl)

-- `open_datagram`, from a state whose window represents a history: an error leaves the state as it was; a
-- fragment is authentic for the session, its number is fresh in the history, and the state changes only
-- in that the window represents the history with this number.
pub open_datagram-Opened :
    (aead : Aead) (datagram history : List ℕ) (c : UdpSessionCrypto)
    → Represents c.replay history
    → Opened aead datagram history c (open_datagram aead datagram c)
unfolding open_datagram
open_datagram-Opened aead datagram history c r =
    commit_fragment-Opened aead datagram history c (authenticate aead datagram c) refl r

-- The numbers of the fragments that a run over received datagrams opens, the latest first.
abbrev pub taken_by : UdpTransportResult DecryptedUdpFragment → List ℕ → List ℕ
taken_by (err e) history = history
taken_by (ok f) history = f.header.seq ∷ history

unfoldable pub opened_sequences : Aead → List (List ℕ) → UdpSessionCrypto → List ℕ → List ℕ
opened_sequences aead [] c history = history
opened_sequences aead (datagram ∷ datagrams) c history =
    let (res, c') = open_datagram aead datagram c in
    opened_sequences aead datagrams c' (taken_by res history)

-- The window after a datagram.
pub open_datagram-Represents :
    (aead : Aead) (datagram history : List ℕ) (c : UdpSessionCrypto)
    → Represents c.replay history
    → Represents
        (open_datagram aead datagram c).1.replay
        (taken_by (open_datagram aead datagram c).0 history)
open_datagram-Represents aead datagram history c r =
    taken (open_datagram aead datagram c) (open_datagram-Opened aead datagram history c r)
  where
    taken :
        (after : UdpTransportResult DecryptedUdpFragment × UdpSessionCrypto)
        → Opened aead datagram history c after
        → Represents after.1.replay (taken_by after.0 history)
    taken (err x, c') same =
        subst (λ (s : UdpSessionCrypto). Represents s.replay history) (sym same) r
    taken (ok f, c') (authentic, new, after, rest) = after

opened_sequences-IsDistinct :
    (aead : Aead) (datagrams : List (List ℕ)) (c : UdpSessionCrypto) (history : List ℕ)
    → Represents c.replay history
    → IsDistinct history
    → IsDistinct (opened_sequences aead datagrams c history)
unfolding opened_sequences
opened_sequences-IsDistinct aead [] c history r d = d
opened_sequences-IsDistinct aead (datagram ∷ datagrams) c history r d =
    let after = open_datagram aead datagram c in
    opened_sequences-IsDistinct aead datagrams after.1 (taken_by after.0 history)
      (open_datagram-Represents aead datagram history c r)
      (once after (open_datagram-Opened aead datagram history c r))
  where
    once :
        (after : UdpTransportResult DecryptedUdpFragment × UdpSessionCrypto)
        → Opened aead datagram history c after
        → IsDistinct (taken_by after.0 history)
    once (err x, c') same = d
    once (ok f, c') (authentic, new, after, rest) = (ground arith, d)

-- Whatever datagrams arrive, repeated or forged, no two opened fragments have the same sequence number.
pub opened_sequences-new-IsDistinct :
    (aead : Aead) (role : UdpSessionRole) (session_id : UdpSessionId)
    (keys : UdpDirectionalKeyMaterial) (datagrams : List (List ℕ))
    → IsDistinct (opened_sequences aead datagrams (from_key_material role session_id keys) [])
opened_sequences-new-IsDistinct aead role session_id keys datagrams =
    opened_sequences-IsDistinct aead datagrams (from_key_material role session_id keys) []
      Represents-new tt
