-- ===== src/UdpTransport/Codec/Delivery.antt =====
-- The receiving side of the session codec of protocol/src/udp_transport/crypto.rs.
use ppaass_ai.Base.{
  ℕ, ◌≤◌, ◌≡◌, refl, sym, subst, Option, none, some, List, [], ◌∷◌, ◌++◌, arith, length,
}
use ppaass_ai.Base.Result.{ok, err}
use ppaass_ai.UdpTransport.{UdpTransportResult}
use ppaass_ai.UdpTransport.Fragment.{DecryptedUdpFragment}
use ppaass_ai.UdpTransport.Reassembly.{FragmentReassembler, push}
use ppaass_ai.UdpTransport.Reassembly.Invariant.{IsValid, After}
use ppaass_ai.UdpTransport.Reassembly.Bounds.{Pushed, push-Pushed}
use ppaass_ai.UdpTransport.Replay.History.{Represents}
use ppaass_ai.UdpTransport.Crypto.{Aead, UdpSessionCrypto, open_datagram}
use ppaass_ai.UdpTransport.Crypto.Open.{
  Opened, open_datagram-Opened, taken_by, opened_sequences, open_datagram-Represents,
}
use ppaass_ai.UdpTransport.Codec.{
  UdpSessionMessage, Serializer, UdpSessionCodec, decode_pushed, decode_opened, decode_datagram_at,
}

-- The reassembler is valid, and the window represents the numbers received so far.
pub record IsReceiver (codec : UdpSessionCodec) (history : List ℕ) : Type 0 where
  pub reassembler : IsValid codec.reassembler
  pub window : Represents codec.crypto.replay history

-- The call ends, with a receiver that has at most one more number.
unfoldable pub Received :
    List ℕ → Option (UdpTransportResult (Option UdpSessionMessage) × UdpSessionCodec) → Type 0
Received history none = ⊥
Received history (some (res, codec)) =
    (taken : List ℕ) × (length taken ≤ 1) × IsReceiver codec (taken ++ history)

decode_pushed-Received :
    (serde : Serializer UdpSessionMessage) (codec : UdpSessionCodec)
    (fragment : DecryptedUdpFragment) (history : List ℕ) (taken : List ℕ)
    (o : Option (UdpTransportResult (Option (List ℕ)) × FragmentReassembler))
    → length taken ≤ 1
    → Represents codec.crypto.replay (taken ++ history)
    → After (Pushed fragment) o
    → Received history (decode_pushed serde codec o)
unfolding decode_pushed Received
decode_pushed-Received serde codec fragment history taken none few r h = h
decode_pushed-Received serde codec fragment history taken (some (err e, reassembler)) few r
      (v, consistent) =
    (taken, few, record { reassembler = v; window = r })
decode_pushed-Received serde codec fragment history taken (some (ok none, reassembler)) few r v =
    (taken, few, record { reassembler = v; window = r })
decode_pushed-Received serde codec fragment history taken (some (ok (some m), reassembler)) few r
      (v, size) =
    (taken, few, record { reassembler = v; window = r })

decode_opened-Received :
    (aead : Aead) (serde : Serializer UdpSessionMessage) (datagram : List ℕ) (now : ℕ)
    (codec : UdpSessionCodec) (history : List ℕ)
    (after : UdpTransportResult DecryptedUdpFragment × UdpSessionCrypto)
    → IsReceiver codec history
    → Opened aead datagram history codec.crypto after
    → Received history (decode_opened serde now codec after)
unfolding decode_opened Received
decode_opened-Received aead serde datagram now codec history (err e, crypto) r same =
    ([], omega arith, record { reassembler = r.reassembler; window = rw same r.window })
decode_opened-Received aead serde datagram now codec history (ok f, crypto) r
      (authentic, new, after, rest) =
    decode_pushed-Received serde (record codec { crypto = crypto }) f history (f.header.seq ∷ [])
      (push f now codec.reassembler) (omega arith) after
      (push-Pushed f now codec.reassembler r.reassembler)

-- Whatever datagram arrives at whatever time, decoding it ends, and leaves a reassembler within its
-- limits and a window that has at most one more number.
pub decode_datagram_at-Received :
    (aead : Aead) (serde : Serializer UdpSessionMessage) (datagram : List ℕ) (now : ℕ)
    (codec : UdpSessionCodec) (history : List ℕ)
    → IsReceiver codec history
    → Received history (decode_datagram_at aead serde datagram now codec)
unfolding decode_datagram_at
decode_datagram_at-Received aead serde datagram now codec history r =
    decode_opened-Received aead serde datagram now codec history
      (open_datagram aead datagram codec.crypto) r
      (open_datagram-Opened aead datagram history codec.crypto r.window)

abbrev pub codec_after :
    Option (UdpTransportResult (Option UdpSessionMessage) × UdpSessionCodec)
    → Option UdpSessionCodec
codec_after none = none
codec_after (some (res, codec)) = some codec

abbrev pub and_then :
    Option UdpSessionCodec → (UdpSessionCodec → Option UdpSessionCodec) → Option UdpSessionCodec
and_then none f = none
and_then (some codec) f = f codec

-- A run over the datagrams that arrive, with their times.
pub decode_all :
    Aead
    → Serializer UdpSessionMessage
    → List (List ℕ × ℕ)
    → UdpSessionCodec
    → Option UdpSessionCodec
decode_all aead serde [] codec = some codec
decode_all aead serde ((datagram, now) ∷ datagrams) codec =
    and_then (codec_after (decode_datagram_at aead serde datagram now codec))
      (decode_all aead serde datagrams)

-- A call ends with a valid reassembler and with this cryptographic state.
abbrev Decoded :
    UdpSessionCrypto
    → Option (UdpTransportResult (Option UdpSessionMessage) × UdpSessionCodec)
    → Type 0
Decoded crypto none = ⊥
Decoded crypto (some (res, codec)) = IsValid codec.reassembler × (codec.crypto ≡ crypto)

decode_pushed-Decoded :
    (serde : Serializer UdpSessionMessage) (codec : UdpSessionCodec) (f : DecryptedUdpFragment)
    (o : Option (UdpTransportResult (Option (List ℕ)) × FragmentReassembler))
    → After (Pushed f) o
    → Decoded codec.crypto (decode_pushed serde codec o)
unfolding decode_pushed
decode_pushed-Decoded serde codec f none h = h
decode_pushed-Decoded serde codec f (some (err e, reassembler)) (v, consistent) = (v, refl)
decode_pushed-Decoded serde codec f (some (ok none, reassembler)) v = (v, refl)
decode_pushed-Decoded serde codec f (some (ok (some m), reassembler)) (v, size) = (v, refl)

decode_opened-Decoded :
    (serde : Serializer UdpSessionMessage) (now : ℕ) (codec : UdpSessionCodec)
    (after : UdpTransportResult DecryptedUdpFragment × UdpSessionCrypto)
    → IsValid codec.reassembler
    → Decoded after.1 (decode_opened serde now codec after)
unfolding decode_opened
decode_opened-Decoded serde now codec (err e, crypto) v = (v, refl)
decode_opened-Decoded serde now codec (ok f, crypto) v =
    decode_pushed-Decoded serde (record codec { crypto = crypto }) f (push f now codec.reassembler)
      (push-Pushed f now codec.reassembler v)

-- The run ends, with a receiver of this history.
abbrev pub EndsReceiving : List ℕ → Option UdpSessionCodec → Type 0
EndsReceiving history none = ⊥
EndsReceiving history (some codec) = IsReceiver codec history

abbrev pub datagrams_of : List (List ℕ × ℕ) → List (List ℕ)
datagrams_of [] = []
datagrams_of ((datagram, now) ∷ datagrams) = datagram ∷ datagrams_of datagrams

-- From a codec with a valid reassembler and a window that represents a history, decoding any datagrams at
-- any times ends, with a valid reassembler and a window that represents this history with the numbers of
-- exactly the fragments that opening the datagrams one after the other gives.
pub decode_all-EndsReceiving :
    (aead : Aead) (serde : Serializer UdpSessionMessage) (datagrams : List (List ℕ × ℕ))
    (codec : UdpSessionCodec) (history : List ℕ)
    → IsReceiver codec history
    → EndsReceiving
        (opened_sequences aead (datagrams_of datagrams) codec.crypto history)
        (decode_all aead serde datagrams codec)
unfolding decode_all opened_sequences decode_datagram_at
decode_all-EndsReceiving aead serde [] codec history r = r
decode_all-EndsReceiving aead serde ((datagram, now) ∷ datagrams) codec history r =
    let opened = open_datagram aead datagram codec.crypto in
    let taken = taken_by opened.0 history in
    next opened.1 taken (decode_opened serde now codec opened)
      (decode_opened-Decoded serde now codec opened r.reassembler)
      (open_datagram-Represents aead datagram history codec.crypto r.window)
      (λ d r'. decode_all-EndsReceiving aead serde datagrams d taken r')
  where
    next :
        (crypto : UdpSessionCrypto) (taken : List ℕ)
        (o : Option (UdpTransportResult (Option UdpSessionMessage) × UdpSessionCodec))
        → Decoded crypto o
        → Represents crypto.replay taken
        → ((d : UdpSessionCodec)
            → IsReceiver d taken
            → EndsReceiving
                (opened_sequences aead (datagrams_of datagrams) d.crypto taken)
                (decode_all aead serde datagrams d))
        → EndsReceiving
            (opened_sequences aead (datagrams_of datagrams) crypto taken)
            (and_then (codec_after o) (decode_all aead serde datagrams))
    next crypto taken none h w later = h
    next crypto taken (some (res, d)) (v, same) w later =
        subst
          (λ (c : UdpSessionCrypto).
            EndsReceiving (opened_sequences aead (datagrams_of datagrams) c taken)
              (decode_all aead serde datagrams d))
          same
          (later d (record {
            reassembler = v;
            window = subst (λ (c : UdpSessionCrypto). Represents c.replay taken) (sym same) w;
          }))
