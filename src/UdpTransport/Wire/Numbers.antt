-- ===== src/UdpTransport/Wire/Numbers.antt =====
-- The sequence numbers of the datagrams that a session gives to its socket.
use ppaass_ai.Base.{
  ℕ, suc, ◌+◌, ◌^◌, ◌<◌, ◌≡◌, refl, sym, subst, ap, ap₂, ◌∙◌, inl, inr, Bool-cases, true, false,
  Option, none, List, [], ◌∷◌, ◌++◌, arith, length, length-append, String, ◌==◌, append-nil, ◌-◌,
}
use ppaass_ai.Base.Result.{Result, ok, err}
use ppaass_ai.UdpTransport.{UdpTransportResult}
use ppaass_ai.UdpTransport.Crypto.{Aead, UdpSessionCrypto, seal_message}
use ppaass_ai.UdpTransport.Crypto.Sequence.{
  IsSession, Numbered, Numbered-append, Sealed, given_out, seal_message-Sealed, seal_message-replay,
}
use ppaass_ai.UdpTransport.Codec.{
  UdpSessionMessage, UdpSessionCodec, Serializer, encode, encode_message, encode_plaintext,
  sealed_message, next_message,
}
use ppaass_ai.UdpTransport.Wire.{
  Socket, SendError, Sent, after_send, send_datagrams, send_encoded, send_session_message,
}

-- The codec's numbers fit their types.
pub record IsSender (codec : UdpSessionCodec) : Type 0 where
  pub session : IsSession codec.crypto
  pub message_id : codec.next_message_id < 2 ^ 64

-- From `c` to `c'` the numbers of the datagrams were used up, and no others.
pub record Follows (c : UdpSessionCodec) (datagrams : List (List ℕ)) (c' : UdpSessionCodec)
    : Type 0 where
  pub sender : IsSender c'
  pub numbered : Numbered c.crypto.next_send_sequence datagrams
  pub next :
      c'.crypto.send_sequence_exhausted ≡ false
      → c'.crypto.next_send_sequence ≡ c.crypto.next_send_sequence + length datagrams
  pub over :
      c.crypto.send_sequence_exhausted ≡ true
      → (datagrams ≡ []) × (c'.crypto.send_sequence_exhausted ≡ true)

-- Moreover, what the codec receives by stayed.
pub record Uses (c : UdpSessionCodec) (datagrams : List (List ℕ)) (c' : UdpSessionCodec)
    : Type 0 where
  pub follows : Follows c datagrams c'
  pub replay : c'.crypto.replay ≡ c.crypto.replay
  pub reassembler : c'.reassembler ≡ c.reassembler

pub Follows-refl : (c : UdpSessionCodec) → IsSender c → Follows c [] c
Follows-refl c s = record {
  sender = s;
  numbered = tt;
  next = λ left. omega arith;
  over = λ gone. (refl, gone);
}

pub Uses-refl : (c : UdpSessionCodec) → IsSender c → Uses c [] c
Uses-refl c s = record { follows = Follows-refl c s; replay = refl; reassembler = refl }

-- Where `ys` follow, or nothing can follow.
pub Numbered-then :
    {c d : UdpSessionCodec} (xs ys : List (List ℕ))
    → Follows c xs d
    → Numbered d.crypto.next_send_sequence ys
    → (d.crypto.send_sequence_exhausted ≡ true → ys ≡ [])
    → Numbered c.crypto.next_send_sequence (xs ++ ys)
Numbered-then {c} {d} xs ys first numbered silent =
    elim (Bool-cases d.crypto.send_sequence_exhausted) [
      | inl gone ↦ rw (silent gone, append-nil xs) first.numbered
      | inr more ↦
          Numbered-append c.crypto.next_send_sequence xs ys first.numbered
            (subst (λ n. Numbered n ys) (first.next more) numbered)
    ]

pub Follows-trans :
    {c d e : UdpSessionCodec} (xs ys : List (List ℕ))
    → Follows c xs d
    → Follows d ys e
    → Follows c (xs ++ ys) e
Follows-trans {c} {d} {e} xs ys first second = record {
  sender = second.sender;
  numbered = Numbered-then xs ys first second.numbered (λ gone. (second.over gone).0);
  next = λ left. elim (Bool-cases d.crypto.send_sequence_exhausted) [
    | inl gone ↦ absurd (cc (left, (second.over gone).1))
    | inr more ↦ omega (arith, second.next left, first.next more, length-append xs ys)
  ];
  over = λ x. (
    ap₂ (λ (p q : List (List ℕ)). p ++ q) (first.over x).0 (second.over (first.over x).1).0,
    (second.over (first.over x).1).1,
  );
}

next_message-IsSender :
    (c : UdpSessionCodec) (crypto : UdpSessionCrypto)
    → IsSession crypto
    → c.next_message_id < 2 ^ 64
    → IsSender (next_message (record c { crypto = crypto }) c.next_message_id)
unfolding next_message
next_message-IsSender c crypto s h = elim (Bool-cases (c.next_message_id == 2 ^ 64 - 1)) [
  | inl top ↦ rw top (record { session = s; message_id = h })
  | inr below ↦ rw below (record { session = s; message_id = ground arith })
]

next_message-parts :
    (c : UdpSessionCodec) (n : ℕ)
    → ((next_message c n).crypto ≡ c.crypto) × ((next_message c n).reassembler ≡ c.reassembler)
unfolding next_message
next_message-parts c n = ground arith

sealed_message-Uses :
    (c : UdpSessionCodec) (after : UdpTransportResult (List (List ℕ)) × UdpSessionCrypto)
    → IsSender c
    → Sealed c.crypto after
    → after.1.replay ≡ c.crypto.replay
    → Uses c (given_out after.0) (sealed_message c c.next_message_id after).1
unfolding sealed_message
sealed_message-Uses c (err e, crypto) s same replay = rw same (Uses-refl c s)
sealed_message-Uses c (ok datagrams, crypto) s (numbered, left, advanced) replay =
    let (crypto_same, reassembler_same) =
      next_message-parts (record c { crypto = crypto }) c.next_message_id in
    record {
      follows = record {
        sender = next_message-IsSender c crypto advanced.valid s.message_id;
        numbered = numbered;
        next = λ on_. rw crypto_same (advanced.next (cc (crypto_same, on_)));
        over = λ x. absurd (cc);
      };
      replay = rw crypto_same replay;
      reassembler = reassembler_same;
    }

sealed_message-result :
    (c : UdpSessionCodec) (after : UdpTransportResult (List (List ℕ)) × UdpSessionCrypto)
    → given_out (sealed_message c c.next_message_id after).0 ≡ given_out after.0
unfolding sealed_message
sealed_message-result c (err e, crypto) = refl
sealed_message-result c (ok datagrams, crypto) = refl

encode_plaintext-Uses :
    (aead : Aead) (plaintext : UdpTransportResult (List ℕ)) (c : UdpSessionCodec)
    → IsSender c
    → Uses c (given_out (encode_plaintext aead plaintext c).0) (encode_plaintext aead plaintext c).1
unfolding encode_plaintext
encode_plaintext-Uses aead (err e) c s = Uses-refl c s
encode_plaintext-Uses aead (ok plaintext) c s =
    let after = seal_message aead c.next_message_id plaintext c.crypto in
    let kept = seal_message-replay aead c.next_message_id plaintext c.crypto in
    rw (sealed_message-result c after) (
      sealed_message-Uses c after s
        (seal_message-Sealed aead c.crypto c.next_message_id plaintext s.session s.message_id) kept)

-- Encoding a message uses up the numbers of the datagrams it gives, and changes nothing else.
pub encode_message-Uses :
    (aead : Aead) (serde : Serializer UdpSessionMessage) (message : UdpSessionMessage)
    (c : UdpSessionCodec)
    → IsSender c
    → Uses c
        (given_out (encode_message aead serde message c).0)
        (encode_message aead serde message c).1
unfolding encode_message
encode_message-Uses aead serde message c s = elim (Bool-cases c.message_id_exhausted) [
  | inl gone ↦ simp gone (Uses-refl c s)
  | inr left ↦ simp left (encode_plaintext-Uses aead (encode serde message) c s)
]

-- The datagrams that reach the socket are a beginning of those that were encoded: all, if none fails.
pub data Begins : List (List ℕ) → List (List ℕ) → Type 0 where
  start : (rest : List (List ℕ)) → Begins [] rest
  more : (x : List ℕ) {xs ys : List (List ℕ)} → Begins xs ys → Begins (x ∷ xs) (x ∷ ys)

after_send-Begins :
    (datagram : List ℕ) (rest : Option SendError × List (List ℕ)) (datagrams : List (List ℕ))
    (answer : Result String ℕ)
    → Begins rest.1 datagrams
    → Begins (after_send datagram rest answer).1 (datagram ∷ datagrams)
unfolding after_send
after_send-Begins datagram rest datagrams (err text) b = more datagram (start datagrams)
after_send-Begins datagram rest datagrams (ok n) b = elim (Bool-cases (n == length datagram)) [
  | inl whole ↦ rw whole (more datagram b)
  | inr part ↦ rw part (more datagram (start datagrams))
]

send_datagrams-Begins :
    (socket : Socket) (datagrams : List (List ℕ))
    → Begins (send_datagrams socket datagrams).1 datagrams
unfolding send_datagrams
send_datagrams-Begins socket [] = start []
send_datagrams-Begins socket (datagram ∷ datagrams) =
    after_send-Begins datagram (send_datagrams socket datagrams) datagrams (socket datagram)
      (send_datagrams-Begins socket datagrams)

after_send-all :
    (datagram : List ℕ) (rest : Option SendError × List (List ℕ)) (answer : Result String ℕ)
    → (after_send datagram rest answer).0 ≡ none
    → (rest.0 ≡ none) × ((after_send datagram rest answer).1 ≡ datagram ∷ rest.1)
unfolding after_send
after_send-all datagram rest (err text) e = absurd (cc)
after_send-all datagram rest (ok n) e = ground arith

send_datagrams-all :
    (socket : Socket) (datagrams : List (List ℕ))
    → (send_datagrams socket datagrams).0 ≡ none
    → (send_datagrams socket datagrams).1 ≡ datagrams
unfolding send_datagrams
send_datagrams-all socket [] e = refl
send_datagrams-all socket (datagram ∷ datagrams) e =
    let (others, given) =
      after_send-all datagram (send_datagrams socket datagrams) (socket datagram) e in
    given ∙ ap (λ xs. datagram ∷ xs) (send_datagrams-all socket datagrams others)

pub Numbered-Begins : {xs ys : List (List ℕ)} (n : ℕ) → Begins xs ys → Numbered n ys → Numbered n xs
Numbered-Begins n (start rest) h = tt
Numbered-Begins n (more x b) (first, others) = (first, Numbered-Begins (suc n) b others)

Begins-nil : {xs : List (List ℕ)} → Begins xs [] → xs ≡ []
Begins-nil (start rest) = refl

-- What a call leaves of a codec: the datagrams on the wire carry its next numbers in a row, and a call
-- without an error used up exactly these.
pub record IsSent (c : UdpSessionCodec) (sent : Sent) : Type 0 where
  pub numbered : Numbered c.crypto.next_send_sequence sent.datagrams
  pub over : c.crypto.send_sequence_exhausted ≡ true → sent.datagrams ≡ []
  pub whole : sent.error ≡ none → Uses c sent.datagrams sent.codec

send_encoded-IsSent :
    (socket : Socket) (c : UdpSessionCodec)
    (after : UdpTransportResult (List (List ℕ)) × UdpSessionCodec)
    → Uses c (given_out after.0) after.1
    → IsSent c (send_encoded socket after)
unfolding send_encoded
send_encoded-IsSent socket c (err e, codec) u = record {
  numbered = tt;
  over = λ x. refl;
  whole = λ none_there. absurd (cc);
}
send_encoded-IsSent socket c (ok datagrams, codec) u =
    let begins = send_datagrams-Begins socket datagrams in
    record {
      numbered = Numbered-Begins c.crypto.next_send_sequence begins u.follows.numbered;
      over = λ x.
          Begins-nil
            (subst (Begins (send_datagrams socket datagrams).1) ((u.follows.over x).0) begins);
      whole = λ none_there.
          subst (λ xs. Uses c xs codec) (sym (send_datagrams-all socket datagrams none_there)) u;
    }

-- Sending a message: whatever the socket answers, what reaches it carries the next numbers in a row.
pub send_session_message-IsSent :
    (aead : Aead) (serde : Serializer UdpSessionMessage) (socket : Socket)
    (message : UdpSessionMessage) (c : UdpSessionCodec)
    → IsSender c
    → IsSent c (send_session_message aead serde socket message c)
unfolding send_session_message
send_session_message-IsSent aead serde socket message c s =
    send_encoded-IsSent socket c (encode_message aead serde message c)
      (encode_message-Uses aead serde message c s)
