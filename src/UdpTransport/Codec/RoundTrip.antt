-- ===== src/UdpTransport/Codec/RoundTrip.antt =====
-- A message that fits one datagram, through encode_message and decode_datagram_at of
-- protocol/src/udp_transport/crypto.rs.
use ppaass_ai.Base.{
  ℕ, ◌^◌, ◌<◌, ◌≤◌, ◌≡◌, refl, sym, subst, ap, ◌∙◌, Bool, true, false, Option, none, some, List, [],
  ◌∷◌, arith, ltb, ◌==◌, ==_iff, length, if◌then◌else◌,
}
use ppaass_ai.Base.Result.{ok, err, >>=-eq-ok, fail_if}
use ppaass_ai.UdpTransport.{UdpTransportResult, message_id_exhausted}
use ppaass_ai.UdpTransport.Header.{UdpPacketHeader, validate, decode, read_fields}
use ppaass_ai.UdpTransport.Fragment.{DecryptedUdpFragment, validate_fragment}
use ppaass_ai.UdpTransport.Reassembly.{FragmentReassembler, push}
use ppaass_ai.UdpTransport.Replay.History.{Represents, fresh}
use ppaass_ai.UdpTransport.Crypto.{
  Aead, UdpSessionCrypto, open_datagram, seal_message, seal_fragment, header_at, slice_at,
}
use ppaass_ai.UdpTransport.Crypto.Sequence.{IsSession, seal_fragment-decode}
use ppaass_ai.UdpTransport.Crypto.Single.{
  slice_at-whole, seal_message-single, Encrypts, seal_message-single_ok,
}
use ppaass_ai.UdpTransport.Crypto.Exchange.{AeadLaws, AreLinked, open_datagram-slice_at}
use ppaass_ai.UdpTransport.Codec.{
  UdpSessionMessage, Serializer, UdpSessionCodec, decode_pushed, decode_opened, decode_datagram_at,
  encode, encode_message, encode_plaintext, sealed_message, next_message, transposed,
}

push-single :
    (fragment : DecryptedUdpFragment) (now : ℕ) (r : FragmentReassembler)
    → validate_fragment fragment ≡ ok tt
    → fragment.header.fragment_count ≡ 1
    → length fragment.payload ≡ fragment.header.total_len
    → push fragment now r ≡ some (ok (some fragment.payload), r)
unfolding push
push-single fragment now r valid one size =
    let single : (fragment.header.fragment_count == 1) ≡ true = (==_iff _ _).1 one in
    let fits : (length fragment.payload == fragment.header.total_len) ≡ true =
      (==_iff _ _).1 size in
    rw (valid, single, fits) refl

validate_fragment-whole :
    (header : UdpPacketHeader) (bytes : List ℕ)
    → validate header ≡ ok tt
    → header.total_len ≡ length bytes
    → header.fragment_count ≡ 1
    → length bytes ≤ 1289
    → validate_fragment (record { header = header; payload = bytes }) ≡ ok tt
unfolding validate_fragment
validate_fragment-whole header bytes valid size one small = rw valid (ground arith)

-- What the caller gets.
abbrev pub result_of :
    Option (UdpTransportResult (Option UdpSessionMessage) × UdpSessionCodec)
    → UdpTransportResult (Option UdpSessionMessage)
result_of none = ok none
result_of (some (res, codec)) = res

decode-validate : (bytes : List ℕ) (h : UdpPacketHeader) → decode bytes ≡ ok h → validate h ≡ ok tt
unfolding decode
decode-validate bytes h e =
    let (u, long, e1) = >>=-eq-ok (fail_if (ltb (length bytes) 46) _) _ e in
    let (h1, read, e2) = >>=-eq-ok (read_fields bytes) _ e1 in
    let (u2, valid, e3) = >>=-eq-ok (validate h1) _ e2 in
    let same : h1 ≡ h = cc e3 in ap validate (sym same) ∙ valid

decode_opened-ok :
    (serde : Serializer UdpSessionMessage) (now : ℕ) (codec : UdpSessionCodec)
    (after : UdpTransportResult DecryptedUdpFragment × UdpSessionCrypto) (f : DecryptedUdpFragment)
    → after.0 ≡ ok f
    → decode_opened serde now codec after
      ≡ decode_pushed serde (record codec { crypto = after.1 }) (push f now codec.reassembler)
unfolding decode_opened
decode_opened-ok serde now codec (err x, crypto) f e = absurd cc
decode_opened-ok serde now codec (ok g, crypto) f e = rw (same g e) refl
  where
    same :
        (g : DecryptedUdpFragment)
        → ◌≡◌ {A = UdpTransportResult DecryptedUdpFragment} (ok g) (ok f)
        → g ≡ f
    same g h = cc

unblocked :
    (b : Bool) (codec : UdpSessionCodec)
    (after : UdpTransportResult (List (List ℕ)) × UdpSessionCodec) (datagrams : List (List ℕ))
    (codec' : UdpSessionCodec)
    → (if b then (err message_id_exhausted, codec) else after) ≡ (ok datagrams, codec')
    → after ≡ (ok datagrams, codec')
unblocked true codec after datagrams codec' e = absurd cc
unblocked false codec after datagrams codec' e = e

not_blocked :
    (b : Bool) (codec : UdpSessionCodec)
    (after : UdpTransportResult (List (List ℕ)) × UdpSessionCodec)
    → b ≡ false
    → (if b then (err message_id_exhausted, codec) else after) ≡ after
not_blocked true codec after e = absurd cc
not_blocked false codec after e = refl

sealed_message-ok :
    (p p' : UdpSessionCodec) (message_id : ℕ) (datagrams : List (List ℕ))
    (after : UdpTransportResult (List (List ℕ)) × UdpSessionCrypto)
    → sealed_message p message_id after ≡ (ok datagrams, p')
    → (crypto : UdpSessionCrypto) × (after ≡ (ok datagrams, crypto))
unfolding sealed_message
sealed_message-ok p p' message_id datagrams (err x, crypto) e = absurd cc
sealed_message-ok p p' message_id datagrams (ok ds, crypto) e = (crypto, cc)

module _ (aead : Aead) (laws : AeadLaws aead) (serde : Serializer UdpSessionMessage)
    (p q : UdpSessionCodec) (linked : AreLinked p.crypto q.crypto) (s : IsSession p.crypto)
    (hm : p.next_message_id < 2 ^ 64) where
  -- What the peer makes of a sealed message of one fragment.
  decode-single :
      (history bytes datagram : List ℕ) (message : UdpSessionMessage) (now : ℕ)
      → serde.deserialize bytes ≡ ok message
      → length bytes ≤ 1289
      → Represents q.crypto.replay history
      → fresh history p.crypto.next_send_sequence ≡ true
      → seal_fragment aead p.crypto p.next_message_id bytes 0 ≡ ok datagram
      → result_of (decode_datagram_at aead serde datagram now q) ≡ ok (some message)
  unfolding decode_datagram_at decode_opened decode_pushed transposed
  decode-single history bytes datagram message now readable small r new e =
      let header = header_at p.crypto p.next_message_id bytes 0 in
      let (opened, after) =
        open_datagram-slice_at aead laws p.crypto q.crypto linked s history p.next_message_id bytes
          0 datagram hm (omega (arith, s.next)) (omega arith) (omega arith) r
          (subst (λ n. fresh history n ≡ true) (omega arith) new) e in
      let valid = decode-validate datagram header (
        seal_fragment-decode aead p.crypto p.next_message_id bytes s hm 0 datagram
          (omega (arith, s.next)) e) in
      let one : header.fragment_count ≡ 1 = omega arith in
      let size : header.total_len ≡ length bytes = omega arith in
      let pushed : push (record { header = header; payload = slice_at bytes 0 }) now q.reassembler
          ≡ some (ok (some bytes), q.reassembler) =
        rw (slice_at-whole bytes small) (
          push-single (record { header = header; payload = bytes }) now q.reassembler
            (validate_fragment-whole header bytes valid size one small) one
            (omega (arith, size))) in
      let read : result_of (
            decode_pushed serde (record q { crypto = (open_datagram aead datagram q.crypto).1 })
              (some (ok (some bytes), q.reassembler)))
          ≡ ok (some message) =
        rw readable refl in
      ap result_of (
        decode_opened-ok serde now q (open_datagram aead datagram q.crypto)
          (record { header = header; payload = slice_at bytes 0 }) opened
        ∙ ap (decode_pushed serde (record q { crypto = (open_datagram aead datagram q.crypto).1 }))
            pushed)
      ∙ read

  -- What an encoded message is for the peer.
  decode-encoded :
      (history bytes : List ℕ) (datagrams : List (List ℕ)) (message : UdpSessionMessage)
      (p' : UdpSessionCodec) (now : ℕ)
      → serde.serialize message ≡ ok bytes
      → serde.deserialize bytes ≡ ok message
      → length bytes ≤ 1289
      → Represents q.crypto.replay history
      → fresh history p.crypto.next_send_sequence ≡ true
      → encode_message aead serde message p ≡ (ok datagrams, p')
      → (datagram : List ℕ) × (datagrams ≡ datagram ∷ [])
        × (result_of (decode_datagram_at aead serde datagram now q) ≡ ok (some message))
  unfolding encode_message encode_plaintext
  decode-encoded history bytes datagrams message p' now written readable small r new e =
      let plain = unblocked p.message_id_exhausted p _ datagrams p' e in
      let (crypto, sent) =
        sealed_message-ok p p' p.next_message_id datagrams
          (seal_message aead p.next_message_id bytes p.crypto) (rw written at plain) in
      let (datagram, one, sealed) =
        seal_message-single aead p.crypto crypto p.next_message_id bytes datagrams small sent in
      (datagram, one, decode-single history bytes datagram message now readable small r new sealed)

  -- Between linked peers, for a cipher that seals every fragment and opens what it seals, a message whose
  -- serialization fits one fragment and can be read back is encoded as one datagram if the sender has an
  -- identifier and a sequence number left; and the peer, from any reassembler, decodes it to the message
  -- if its number is fresh in the history of its window.
  pub decode-encode_message :
      (history bytes : List ℕ) (message : UdpSessionMessage) (now : ℕ)
      → Encrypts aead
      → p.message_id_exhausted ≡ false
      → p.crypto.send_sequence_exhausted ≡ false
      → serde.serialize message ≡ ok bytes
      → serde.deserialize bytes ≡ ok message
      → length bytes ≤ 1289
      → Represents q.crypto.replay history
      → fresh history p.crypto.next_send_sequence ≡ true
      → (datagram : List ℕ) × (p' : UdpSessionCodec) × (encode_message aead serde message p
          ≡ (ok (datagram ∷ []), p'))
        × (result_of (decode_datagram_at aead serde datagram now q) ≡ ok (some message))
  unfolding encode_message encode_plaintext sealed_message
  decode-encode_message history bytes message now encrypts id more written readable small r new =
      let (datagrams, crypto, sealed) =
        seal_message-single_ok aead p.crypto p.next_message_id bytes encrypts s more hm small in
      let after = next_message (record p { crypto = crypto }) p.next_message_id in
      let sent : encode_message aead serde message p ≡ (ok datagrams, after) =
        not_blocked p.message_id_exhausted p (encode_plaintext aead (encode serde message) p) id
        ∙ rw (written, sealed) refl in
      let (datagram, one, arrives) =
        decode-encoded history bytes datagrams message after now written readable small r new
          sent in
      (datagram, after, sent ∙ ap (λ (ds : List (List ℕ)). pair (ok ds) after) one, arrives)
    where
      pair :
          UdpTransportResult (List (List ℕ))
          → UdpSessionCodec
          → UdpTransportResult (List (List ℕ)) × UdpSessionCodec
      pair res codec = (res, codec)
