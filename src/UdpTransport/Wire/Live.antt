-- ===== src/UdpTransport/Wire/Live.antt =====
-- What the loops that drive a session, proxy/src/native_udp/session.rs and
-- common/src/client_connection/udp.rs, leave of its codec.
use ppaass_ai.Base.{ℕ, ◌≡◌, refl, sym, ap₂, subst, Option, none, some, true, List, [], ◌++◌}
use ppaass_ai.UdpTransport.{UdpTransportResult}
use ppaass_ai.UdpTransport.Crypto.{Aead}
use ppaass_ai.UdpTransport.Crypto.Sequence.{Numbered}
use ppaass_ai.UdpTransport.Codec.{UdpSessionMessage, Serializer, UdpSessionCodec}
use ppaass_ai.UdpTransport.Codec.Delivery.{IsReceiver, Received}
use ppaass_ai.UdpTransport.Replay.History.{Represents}
use ppaass_ai.UdpTransport.Reassembly.Invariant.{IsValid}
use ppaass_ai.UdpTransport.Wire.{Socket, send_session_message}
use ppaass_ai.UdpTransport.Wire.Numbers.{
  IsSender, Follows, Follows-trans, Numbered-then, send_session_message-IsSent, Uses,
}
use ppaass_ai.UdpTransport.Wire.Receiving.{StillSends, StillSends-Follows}

-- The codec sends and receives.
pub record IsLive (codec : UdpSessionCodec) : Type 0 where
  pub sender : IsSender codec
  pub receiver : (history : List ℕ) × IsReceiver codec history

-- From `c`, datagrams were given to a socket, under the next numbers in a row; and where the loop goes on
-- with `codec`, that codec is live, and these were all numbers it used up.
pub record Leaves (c : UdpSessionCodec) (going : Type 0) (codec : UdpSessionCodec)
    (datagrams : List (List ℕ)) : Type 0 where
  pub numbered : Numbered c.crypto.next_send_sequence datagrams
  pub over : c.crypto.send_sequence_exhausted ≡ true → datagrams ≡ []
  pub live : going → IsLive codec × Follows c datagrams codec

pub Leaves-quiet :
    (c : UdpSessionCodec) (going : Type 0) (codec : UdpSessionCodec)
    → IsLive codec
    → Follows c [] codec
    → Leaves c going codec []
Leaves-quiet c going codec l f = record { numbered = tt; over = λ x. refl; live = λ g. (l, f) }

pub Leaves-end :
    (c : UdpSessionCodec) (going : Type 0) (codec : UdpSessionCodec)
    → (going → ⊥)
    → Leaves c going codec []
Leaves-end c going codec no_more = record {
  numbered = tt;
  over = λ x. refl;
  live = λ g. absurd (no_more g);
}

pub Leaves-then :
    {c d e : UdpSessionCodec} {going : Type 0} (xs ys : List (List ℕ))
    → Follows c xs d
    → Leaves d going e ys
    → Leaves c going e (xs ++ ys)
Leaves-then xs ys f r = record {
  numbered = Numbered-then xs ys f r.numbered r.over;
  over = λ x. ap₂ (λ (p q : List (List ℕ)). p ++ q) (f.over x).0 (r.over (f.over x).1);
  live = λ g. let (l, f') = r.live g in (l, Follows-trans xs ys f f');
}

IsReceiver-of :
    (c d : UdpSessionCodec) (history : List ℕ)
    → IsReceiver c history
    → d.crypto.replay ≡ c.crypto.replay
    → d.reassembler ≡ c.reassembler
    → IsReceiver d history
IsReceiver-of c d history r replay reassembler = record {
  reassembler = subst IsValid (sym reassembler) r.reassembler;
  window = subst (λ w. Represents w history) (sym replay) r.window;
}

Uses-IsLive : (c d : UdpSessionCodec) (xs : List (List ℕ)) → IsLive c → Uses c xs d → IsLive d
Uses-IsLive c d xs l u =
    let (history, r) = l.receiver in
    record {
      sender = u.follows.sender;
      receiver = (history, IsReceiver-of c d history r u.replay u.reassembler);
    }

pub send_session_message-Leaves :
    (aead : Aead) (serde : Serializer UdpSessionMessage) (socket : Socket)
    (message : UdpSessionMessage) (c d : UdpSessionCodec) (going : Type 0)
    → (going → (send_session_message aead serde socket message d).error ≡ none)
    → IsLive d
    → Follows c [] d
    → Leaves c going
        (send_session_message aead serde socket message d).codec
        (send_session_message aead serde socket message d).datagrams
send_session_message-Leaves aead serde socket message c d going sends l f =
    let sent = send_session_message aead serde socket message d in
    let h = send_session_message-IsSent aead serde socket message d l.sender in
    Leaves-then [] sent.datagrams f (record {
      numbered = h.numbered;
      over = h.over;
      live = λ g.
          let u = h.whole (sends g) in (Uses-IsLive d sent.codec sent.datagrams l u, u.follows);
    })

-- What decoding a datagram leaves.
pub Received-IsLive :
    (c : UdpSessionCodec) (history : List ℕ) (res : UdpTransportResult (Option UdpSessionMessage))
    (codec : UdpSessionCodec)
    → IsSender c
    → Received history (some (res, codec))
    → StillSends c (some (res, codec))
    → IsLive codec × Follows c [] codec
unfolding Received
Received-IsLive c history res codec s (new, few, r) (same, id) =
    let f = StillSends-Follows c codec s same id in
    (record { sender = f.sender; receiver = (new ++ history, r) }, f)
