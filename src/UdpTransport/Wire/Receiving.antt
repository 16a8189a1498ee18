-- ===== src/UdpTransport/Wire/Receiving.antt =====
-- Receiving, and the numbers of the other direction.
use ppaass_ai.Base.{ℕ, ◌≡◌, refl, ap, ◌∙◌, Option, none, some, List, [], arith}
use ppaass_ai.Base.Result.{ok, err}
use ppaass_ai.UdpTransport.{UdpTransportResult}
use ppaass_ai.UdpTransport.Fragment.{DecryptedUdpFragment}
use ppaass_ai.UdpTransport.Reassembly.{FragmentReassembler, push}
use ppaass_ai.UdpTransport.Crypto.{Aead, UdpSessionCrypto, open_datagram}
use ppaass_ai.UdpTransport.Crypto.Open.{Opened, open_datagram-Opened}
use ppaass_ai.UdpTransport.Codec.{
  UdpSessionMessage, Serializer, UdpSessionCodec, decode_pushed, decode_opened, decode_datagram_at,
}
use ppaass_ai.UdpTransport.Codec.Delivery.{IsReceiver}
use ppaass_ai.UdpTransport.Wire.Numbers.{IsSender, Follows}

-- All but the window stayed.
abbrev pub SameKeys : UdpSessionCrypto → UdpSessionCrypto → Type 0
SameKeys c c' = record c' { replay = c.replay } ≡ c

-- After the call the state of sending is the same.
abbrev pub StillSends :
    UdpSessionCodec
    → Option (UdpTransportResult (Option UdpSessionMessage) × UdpSessionCodec)
    → Type 0
StillSends c none = Unit
StillSends c (some (res, c')) =
    SameKeys c.crypto c'.crypto × (c'.next_message_id ≡ c.next_message_id)

decode_pushed-StillSends :
    (serde : Serializer UdpSessionMessage) (c codec : UdpSessionCodec)
    (o : Option (UdpTransportResult (Option (List ℕ)) × FragmentReassembler))
    → SameKeys c.crypto codec.crypto
    → codec.next_message_id ≡ c.next_message_id
    → StillSends c (decode_pushed serde codec o)
unfolding decode_pushed
decode_pushed-StillSends serde c codec none same id = tt
decode_pushed-StillSends serde c codec (some (res, reassembler)) same id = (same, id)

decode_opened-StillSends :
    (aead : Aead) (serde : Serializer UdpSessionMessage) (datagram : List ℕ) (now : ℕ)
    (codec : UdpSessionCodec) (history : List ℕ)
    (after : UdpTransportResult DecryptedUdpFragment × UdpSessionCrypto)
    → Opened aead datagram history codec.crypto after
    → StillSends codec (decode_opened serde now codec after)
unfolding decode_opened
decode_opened-StillSends aead serde datagram now codec history (err e, crypto) same =
    (rw same refl, refl)
decode_opened-StillSends aead serde datagram now codec history (ok f, crypto)
      (authentic, new, after, rest) =
    decode_pushed-StillSends serde codec (record codec { crypto = crypto })
      (push f now codec.reassembler) rest refl

pub decode_datagram_at-StillSends :
    (aead : Aead) (serde : Serializer UdpSessionMessage) (datagram : List ℕ) (now : ℕ)
    (codec : UdpSessionCodec) (history : List ℕ)
    → IsReceiver codec history
    → StillSends codec (decode_datagram_at aead serde datagram now codec)
unfolding decode_datagram_at
decode_datagram_at-StillSends aead serde datagram now codec history r =
    decode_opened-StillSends aead serde datagram now codec history
      (open_datagram aead datagram codec.crypto)
      (open_datagram-Opened aead datagram history codec.crypto r.window)

pub StillSends-Follows :
    (c c' : UdpSessionCodec)
    → IsSender c
    → SameKeys c.crypto c'.crypto
    → c'.next_message_id ≡ c.next_message_id
    → Follows c [] c'
StillSends-Follows c c' s same id =
    let sid : c'.crypto.session_id ≡ c.crypto.session_id =
      ap (λ (k : UdpSessionCrypto). k.session_id) same in
    let seq : c'.crypto.next_send_sequence ≡ c.crypto.next_send_sequence =
      ap (λ (k : UdpSessionCrypto). k.next_send_sequence) same in
    let off : c'.crypto.send_sequence_exhausted ≡ c.crypto.send_sequence_exhausted =
      ap (λ (k : UdpSessionCrypto). k.send_sequence_exhausted) same in
    record {
      sender = record {
        session = record {
          session_id = rw sid s.session.session_id;
          session_bytes = rw sid s.session.session_bytes;
          next = rw seq s.session.next;
        };
        message_id = rw id s.message_id;
      };
      numbered = tt;
      next = λ left. omega (arith, seq);
      over = λ gone. (refl, off ∙ gone);
    }
