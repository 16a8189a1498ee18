-- ===== src/UdpTransport/Crypto/Sequence.antt =====
-- The sequence numbers that `seal_message` of protocol/src/udp_transport/crypto.rs gives out.
use ppaass_ai.Base.{
  ℕ, zero, suc, ◌+◌, ◌-◌, ◌^◌, ◌<◌, ◌≤◌, ◌≡◌, refl, sym, subst, ap, ◌∙◌, inl, inr, Bool-cases, true,
  false, some, List, [], ◌∷◌, ◌++◌, arith, ltb, ◌==◌, length, All,
}
use ppaass_ai.Base.Bytes.{AreBytes}
use ppaass_ai.Base.Result.{ok, err, >>=-eq-ok, fail_if, ok_or, fail_if-eq-ok, ok_or-eq-ok}
use ppaass_ai.UdpTransport.{UdpTransportResult}
use ppaass_ai.UdpTransport.Header.{UdpPacketHeader, IsHeader, encode, decode}
use ppaass_ai.UdpTransport.Header.RoundTrip.{decode-encode}
use ppaass_ai.UdpTransport.Reassembly.{checked_add}
use ppaass_ai.UdpTransport.Crypto.{
  Aead, UdpSessionCrypto, make_nonce, header_at, fragment_count_of, slice_at, seal_fragment,
  seal_fragments, seal, advance, sealed_state, seal_message,
}

-- The state of a session whose numbers fit their types.
pub record IsSession (c : UdpSessionCrypto) : Type 0 where
  pub session_id : length c.session_id ≡ 16
  pub session_bytes : AreBytes c.session_id
  pub next : c.next_send_sequence < 2 ^ 64

-- The headers of the datagrams carry the numbers from `n` on, one after the other, all below 2 ^ 64.
abbrev pub Numbered : ℕ → List (List ℕ) → Type 0
Numbered n [] = Unit
Numbered n (datagram ∷ datagrams) =
    ((h : UdpPacketHeader) × (decode datagram ≡ ok h) × (h.seq ≡ n) × (n < 2 ^ 64))
    × Numbered (suc n) datagrams

pub Numbered-append :
    (n : ℕ) (xs ys : List (List ℕ))
    → Numbered n xs
    → Numbered (n + length xs) ys
    → Numbered n (xs ++ ys)
Numbered-append n [] ys p q = subst (λ m. Numbered m ys) (omega arith) q
Numbered-append n (x ∷ xs) ys (p, ps) q =
    (p, Numbered-append (suc n) xs ys ps (subst (λ m. Numbered m ys) (omega arith) q))

module _ (aead : Aead) (c : UdpSessionCrypto) (message_id : ℕ) (plaintext : List ℕ)
    (s : IsSession c) (hm : message_id < 2 ^ 64) where
  pub header_at-IsHeader :
      (index : ℕ)
      → c.next_send_sequence + index < 2 ^ 64
      → IsHeader (header_at c message_id plaintext index)
  header_at-IsHeader index h = record {
    magic = refl;
    magic_bytes = ground arith;
    version = omega arith;
    session_id = s.session_id;
    session_bytes = s.session_bytes;
    seq = h;
    message_id = hm;
    fragment_index = omega arith;
    fragment_count = omega arith;
    total_len = omega arith;
  }

  pub seal_fragment-decode :
      (index : ℕ) (datagram : List ℕ)
      → c.next_send_sequence + index < 2 ^ 64
      → seal_fragment aead c message_id plaintext index ≡ ok datagram
      → decode datagram ≡ ok (header_at c message_id plaintext index)
  unfolding seal_fragment
  seal_fragment-decode index datagram h e =
      let (aad, encoded, e1) = >>=-eq-ok (encode (header_at c message_id plaintext index)) _ e in
      let (u2, fits, e2) =
        >>=-eq-ok (fail_if (ltb 1351 (length aad + length (slice_at plaintext index) + 16)) _) _
          e1 in
      let (sealed, given, e3) =
        >>=-eq-ok
          (ok_or
            (aead.encrypt c.send.cipher
              (make_nonce c.send.nonce_prefix (c.next_send_sequence + index)) aad
              (slice_at plaintext index))
            _)
          _ e2 in
      let whole : aad ++ (sealed.0 ++ sealed.1) ≡ datagram = cc e3 in
      ap decode (sym whole)
      ∙ decode-encode (header_at c message_id plaintext index) aad (sealed.0 ++ sealed.1)
          (header_at-IsHeader index h) encoded

  seal_fragments-Numbered :
      (rest index : ℕ) (datagrams : List (List ℕ))
      → c.next_send_sequence + (index + rest) ≤ 2 ^ 64
      → seal_fragments aead c message_id plaintext rest index ≡ ok datagrams
      → Numbered (c.next_send_sequence + index) datagrams × (length datagrams ≡ rest)
  unfolding seal_fragments
  seal_fragments-Numbered zero index datagrams h e = rw (← none_left) (tt, refl)
    where
      none_left : ◌≡◌ {A = List (List ℕ)} [] datagrams
      none_left = cc e
  seal_fragments-Numbered (suc rest) index datagrams h e =
      let (first, sealed, e1) = >>=-eq-ok (seal_fragment aead c message_id plaintext index) _ e in
      let (others, more, e2) =
        >>=-eq-ok (seal_fragments aead c message_id plaintext rest (suc index)) _ e1 in
      let whole : ◌≡◌ {A = List (List ℕ)} (first ∷ others) datagrams = cc e2 in
      let (numbered, size) = seal_fragments-Numbered rest (suc index) others (omega arith) more in
      rw (← whole) (
        (
          (
            header_at c message_id plaintext index,
            seal_fragment-decode index first (omega arith) sealed,
            refl,
            omega arith,
          ),
          subst (λ n. Numbered n others) (omega arith) numbered,
        ),
        omega (arith, size),
      )

-- The state after a call: exhausted, or the next number follows the datagrams.
pub record Advanced (c : UdpSessionCrypto) (count : ℕ) (c' : UdpSessionCrypto) : Type 0 where
  pub valid : IsSession c'
  pub next :
      c'.send_sequence_exhausted ≡ false → c'.next_send_sequence ≡ c.next_send_sequence + count

-- What a call gives: an error changes nothing.
abbrev pub Sealed :
    UdpSessionCrypto → UdpTransportResult (List (List ℕ)) × UdpSessionCrypto → Type 0
Sealed c (err e, c') = c' ≡ c
Sealed c (ok datagrams, c') =
    Numbered c.next_send_sequence datagrams
    × (c.send_sequence_exhausted ≡ false)
    × Advanced c (length datagrams) c'

advance-Advanced :
    (c : UdpSessionCrypto) (count last : ℕ)
    → IsSession c
    → last + 1 ≡ c.next_send_sequence + count
    → last < 2 ^ 64
    → Advanced c count (advance c last)
unfolding advance
advance-Advanced c count last s e h = elim (Bool-cases (last == 2 ^ 64 - 1)) [
  | inl top ↦ rw top (record {
    valid = record { session_id = s.session_id; session_bytes = s.session_bytes; next = s.next };
    next = λ off. cc;
  })
  | inr below ↦ rw below (record {
    valid = record {
      session_id = s.session_id;
      session_bytes = s.session_bytes;
      next = ground arith;
    };
    next = λ off. e;
  })
]

checked_add-some : (a b s : ℕ) → checked_add a b ≡ some s → (s ≡ a + b) × (s < 2 ^ 64)
checked_add-some a b s e = ground arith

sealed_state-Sealed :
    (aead : Aead) (c : UdpSessionCrypto) (message_id : ℕ) (plaintext : List ℕ)
    (res : UdpTransportResult (List (List ℕ) × ℕ))
    → IsSession c
    → message_id < 2 ^ 64
    → seal aead c message_id plaintext ≡ res
    → Sealed c (sealed_state c res)
unfolding sealed_state seal
sealed_state-Sealed aead c message_id plaintext (err x) s hm e = refl
sealed_state-Sealed aead c message_id plaintext (ok (datagrams, last)) s hm e =
    let count = fragment_count_of plaintext in
    let (u1, small, e1) = >>=-eq-ok (fail_if (ltb 71680 (length plaintext)) _) _ e in
    let (u2, few, e2) = >>=-eq-ok (fail_if (ltb 64 count) _) _ e1 in
    let (u3, left, e3) = >>=-eq-ok (fail_if c.send_sequence_exhausted _) _ e2 in
    let (last1, summed, e4) =
      >>=-eq-ok (ok_or (checked_add c.next_send_sequence (count - 1)) _) _ e3 in
    let (datagrams1, made, e5) =
      >>=-eq-ok (seal_fragments aead c message_id plaintext count 0) _ e4 in
    let same : datagrams1 ≡ datagrams = ap (λ (p : List (List ℕ) × ℕ). p.0) (ok-inj _ _ e5) in
    let same_last : last1 ≡ last = ap (λ (p : List (List ℕ) × ℕ). p.1) (ok-inj _ _ e5) in
    let (total, room) =
      checked_add-some c.next_send_sequence (count - 1) last1 (ok_or-eq-ok _ _ summed) in
    let (numbered, size) =
      seal_fragments-Numbered aead c message_id plaintext s hm count 0 datagrams1 (omega arith)
        made in
    rw (← same, ← same_last)
      (
        subst (λ n. Numbered n datagrams1) (omega arith) numbered,
        fail_if-eq-ok c.send_sequence_exhausted _ left,
        advance-Advanced c (length datagrams1) last1 s (omega (arith, size)) room,
      )
  where
    ok-inj :
        (a b : List (List ℕ) × ℕ)
        → ◌≡◌ {A = UdpTransportResult (List (List ℕ) × ℕ)} (ok a) (ok b)
        → a ≡ b
    ok-inj a b h = cc

-- `seal_message` of a valid session: an error leaves the state as it was; otherwise the datagrams carry
-- the next sequence numbers in a row, and the state is exhausted or goes on after the last of them.
pub seal_message-Sealed :
    (aead : Aead) (c : UdpSessionCrypto) (message_id : ℕ) (plaintext : List ℕ)
    → IsSession c
    → message_id < 2 ^ 64
    → Sealed c (seal_message aead message_id plaintext c)
unfolding seal_message
seal_message-Sealed aead c message_id plaintext s hm =
    sealed_state-Sealed aead c message_id plaintext (seal aead c message_id plaintext) s hm refl

-- All datagrams that a run over messages, with their identifiers, gives out.
abbrev pub given_out : UdpTransportResult (List (List ℕ)) → List (List ℕ)
given_out (err e) = []
given_out (ok datagrams) = datagrams

pub seal_all : Aead → List (ℕ × List ℕ) → UdpSessionCrypto → List (List ℕ)
seal_all aead [] c = []
seal_all aead ((message_id, plaintext) ∷ messages) c =
    let (res, c') = seal_message aead message_id plaintext c in
    given_out res ++ seal_all aead messages c'

pub exhausted_silent :
    (aead : Aead) (message_id : ℕ) (plaintext : List ℕ) (c : UdpSessionCrypto)
    (after : UdpTransportResult (List (List ℕ)) × UdpSessionCrypto)
    → c.send_sequence_exhausted ≡ true
    → Sealed c after
    → (given_out after.0 ≡ []) × (after.1 ≡ c)
exhausted_silent aead message_id plaintext c (err e, c') x h = (refl, h)
exhausted_silent aead message_id plaintext c (ok datagrams, c') x (numbered, open_, advanced) =
    absurd cc

seal_all-exhausted :
    (aead : Aead) (messages : List (ℕ × List ℕ)) (c : UdpSessionCrypto)
    → IsSession c
    → All (λ (m : ℕ × List ℕ). m.0 < 2 ^ 64) messages
    → c.send_sequence_exhausted ≡ true
    → seal_all aead messages c ≡ []
unfolding seal_all
seal_all-exhausted aead [] c s hm x = refl
seal_all-exhausted aead ((message_id, plaintext) ∷ messages) c s (m, ms) x =
    let (silent, same) =
      exhausted_silent aead message_id plaintext c (seal_message aead message_id plaintext c) x
        (seal_message-Sealed aead c message_id plaintext s m) in
    rw (silent, same) (seal_all-exhausted aead messages c s ms x)

-- From a valid session, the datagrams of any messages in a row carry consecutive sequence numbers from
-- the next one on, all below 2 ^ 64: whatever fails or runs out, no number is given out twice.
pub seal_all-Numbered :
    (aead : Aead) (messages : List (ℕ × List ℕ)) (c : UdpSessionCrypto)
    → IsSession c
    → All (λ (m : ℕ × List ℕ). m.0 < 2 ^ 64) messages
    → Numbered c.next_send_sequence (seal_all aead messages c)
unfolding seal_all
seal_all-Numbered aead [] c s hm = tt
seal_all-Numbered aead ((message_id, plaintext) ∷ messages) c s (m, ms) =
    from_first (seal_message aead message_id plaintext c)
      (seal_message-Sealed aead c message_id plaintext s m)
      (λ c' s'. seal_all-Numbered aead messages c' s' ms)
  where
    from_first :
        (after : UdpTransportResult (List (List ℕ)) × UdpSessionCrypto)
        → Sealed c after
        → ((c' : UdpSessionCrypto)
            → IsSession c'
            → Numbered c'.next_send_sequence (seal_all aead messages c'))
        → Numbered c.next_send_sequence (given_out after.0 ++ seal_all aead messages after.1)
    from_first (err e, c') same go = rw same (go c s)
    from_first (ok datagrams, c') (numbered, left, advanced) go =
        Numbered-append c.next_send_sequence datagrams (seal_all aead messages c') numbered
          (elim (Bool-cases c'.send_sequence_exhausted) [
            | inl off ↦ rw (seal_all-exhausted aead messages c' advanced.valid ms off) tt
            | inr on_ ↦
                subst (λ n. Numbered n (seal_all aead messages c')) (advanced.next on_)
                  (go c' advanced.valid)
          ])

advance-replay : (c : UdpSessionCrypto) (last : ℕ) → (advance c last).replay ≡ c.replay
unfolding advance
advance-replay c last = ground arith

sealed_state-replay :
    (c : UdpSessionCrypto) (res : UdpTransportResult (List (List ℕ) × ℕ))
    → (sealed_state c res).1.replay ≡ c.replay
unfolding sealed_state
sealed_state-replay c (err e) = refl
sealed_state-replay c (ok (datagrams, last)) = advance-replay c last

-- Sealing leaves the window of the other direction.
pub seal_message-replay :
    (aead : Aead) (message_id : ℕ) (plaintext : List ℕ) (c : UdpSessionCrypto)
    → (seal_message aead message_id plaintext c).1.replay ≡ c.replay
unfolding seal_message
seal_message-replay aead message_id plaintext c =
    sealed_state-replay c (seal aead c message_id plaintext)
