-- ===== src/UdpTransport/Tests/Session.antt =====
-- The theorems about sessions of protocol/src/udp_transport at concrete inputs, with a cipher that
-- changes nothing and a serializer of pings.
use ppaass_ai.Base.{
  ℕ, ◌-◌, ◌≡◌, refl, sym, subst, ap, Option, some, List, [], ◌∷◌, ◌++◌, arith, String, replicate,
  length, length-append, take, take-append, IsDistinct,
}
use ppaass_ai.Base.Bytes.{to_be_bytes}
use ppaass_ai.Base.Result.{Result, ok, err}
use ppaass_ai.UdpTransport.Fragment.{DecryptedUdpFragment}
use ppaass_ai.UdpTransport.Header.{encode, validate, header_bytes, kind_code, auth_init}
use ppaass_ai.UdpTransport.Reassembly.{default_config, from_valid_config, FragmentReassembler}
use ppaass_ai.UdpTransport.Reassembly
use ppaass_ai.UdpTransport.Reassembly.Runs.{new-IsValid}
use ppaass_ai.UdpTransport.Replay.History.{Represents, Represents-new}
use ppaass_ai.UdpTransport.Crypto.{
  Aead, agent, proxy, UdpDirectionalKeyMaterial, UdpSessionCrypto, from_key_material, header_at,
  seal_fragment, seal_fragments, seal, sealed_state, advance, seal_message, open_datagram,
}
use ppaass_ai.UdpTransport.Crypto.Open.{
  Opened, open_datagram-Opened, opened_sequences, opened_sequences-new-IsDistinct,
}
use ppaass_ai.UdpTransport.Crypto.Sequence.{IsSession, Numbered, seal_all, seal_all-Numbered}
use ppaass_ai.UdpTransport.Crypto.Single.{Encrypts}
use ppaass_ai.UdpTransport.Crypto.Exchange.{
  AeadLaws, AreLinked, IsFragment, open_datagram-seal_fragment,
}
use ppaass_ai.UdpTransport.Codec.{
  UdpSessionMessage, ping, Serializer, UdpSessionCodec, with_parts, encode_message,
  encode_plaintext, sealed_message, next_message, decode_datagram_at,
}
use ppaass_ai.UdpTransport.Codec.Delivery.{
  IsReceiver, decode_all, EndsReceiving, decode_all-EndsReceiving,
}
use ppaass_ai.UdpTransport.Codec.RoundTrip.{result_of, decode-encode_message}
use ppaass_ai.UdpTransport.Auth.{encode_auth_packet, decode_auth_packet}
use ppaass_ai.UdpTransport.Auth.Transcript.{proof_transcript-inj}
use ppaass_ai.UdpTransport.Auth.RoundTrip.{packet_header, decode_auth_packet-encode_auth_packet}

abbrev pub plain : Aead
plain = record {
  encrypt = λ key nonce aad plaintext. some (plaintext, replicate 16 0);
  decrypt = λ key nonce aad message. some (take (length message - 16) message);
}

opens_plain : (p : List ℕ) → take (length (p ++ replicate 16 0) - 16) (p ++ replicate 16 0) ≡ p
opens_plain p =
    subst (λ (n : ℕ). take n (p ++ replicate 16 0) ≡ p)
      (omega (arith, length-append p (replicate 16 0))) (take-append p (replicate 16 0))

plain-AeadLaws : AeadLaws plain
plain-AeadLaws = record {
  decrypt-encrypt = λ key nonce aad p c t e.
      subst
        (λ (o : List ℕ × List ℕ).
          ◌≡◌ {A = Option (List ℕ)} (some (take (length (o.0 ++ o.1) - 16) (o.0 ++ o.1))) (some p))
        (some-inj (p, replicate 16 0) (c, t) e) (ap some (opens_plain p));
  length_ciphertext = λ key nonce aad p c t e.
      ap (λ (o : List ℕ × List ℕ). length o.0) (sym (some-inj (p, replicate 16 0) (c, t) e));
  length_tag = λ key nonce aad p c t e.
      ap (λ (o : List ℕ × List ℕ). length o.1) (sym (some-inj (p, replicate 16 0) (c, t) e));
}
  where
    some-inj : (a b : List ℕ × List ℕ) → some a ≡ some b → a ≡ b
    some-inj a b e = cc

abbrev pub written : UdpSessionMessage → Result String (List ℕ)
written (ping n) = ok (n ∷ [])
written _ = err "not a ping"

abbrev pub readable : List ℕ → Result String UdpSessionMessage
readable (n ∷ []) = ok (ping n)
readable _ = err "not a ping"

abbrev pub pings : Serializer UdpSessionMessage
pings = record { serialize = written; deserialize = readable }

abbrev pub session : List ℕ
session = replicate 16 7

abbrev pub keys : UdpDirectionalKeyMaterial
keys = record {
  client_to_server_key = replicate 32 1;
  server_to_client_key = replicate 32 2;
  client_to_server_nonce_prefix = replicate 4 3;
  server_to_client_nonce_prefix = replicate 4 4;
}

abbrev pub sender : UdpSessionCrypto
sender = from_key_material agent session keys

abbrev pub receiver : UdpSessionCrypto
receiver = from_key_material proxy session keys

pub sender-IsSession : IsSession sender
sender-IsSession = record { session_id = refl; session_bytes = ground arith; next = omega arith }

AreLinked-peers : AreLinked sender receiver
AreLinked-peers = record { session = refl; direction = refl }

-- The only datagram of a message that is the byte 42.
abbrev pub ping_datagram : List ℕ
ping_datagram = header_bytes (header_at sender 0 (42 ∷ []) 0) ++ (42 ∷ replicate 16 0)

sealed_ping : seal_fragment plain sender 0 (42 ∷ []) 0 ≡ ok ping_datagram
unfolding seal_fragment encode validate header_bytes to_be_bytes kind_code
sealed_ping = refl

open_datagram-Opened_example :
    Opened plain ping_datagram [] receiver (open_datagram plain ping_datagram receiver)
open_datagram-Opened_example = open_datagram-Opened plain ping_datagram [] receiver Represents-new

opened_sequences-new-IsDistinct_example : IsDistinct (
    opened_sequences plain
      (ping_datagram ∷ ping_datagram ∷ [])
      (from_key_material proxy session keys)
      [])
opened_sequences-new-IsDistinct_example =
    opened_sequences-new-IsDistinct plain proxy session keys (ping_datagram ∷ ping_datagram ∷ [])

seal_all-Numbered_example :
    Numbered 0 (seal_all plain ((0, 42 ∷ []) ∷ (1, replicate 3000 5) ∷ []) sender)
seal_all-Numbered_example =
    seal_all-Numbered plain ((0, 42 ∷ []) ∷ (1, replicate 3000 5) ∷ []) sender sender-IsSession
      (omega arith, (omega arith, tt))

open_datagram-seal_fragment_example :
    (fragment : DecryptedUdpFragment) × ((open_datagram plain ping_datagram receiver).0
      ≡ ok fragment)
    × IsFragment 0 0 (42 ∷ []) 0 fragment
    × Represents (open_datagram plain ping_datagram receiver).1.replay (0 ∷ [])
open_datagram-seal_fragment_example =
    open_datagram-seal_fragment plain plain-AeadLaws sender receiver AreLinked-peers
      sender-IsSession [] 0 (42 ∷ []) 0 ping_datagram (omega arith) (omega arith) (omega arith)
      (omega arith) Represents-new refl sealed_ping

abbrev pub idle : FragmentReassembler
idle = from_valid_config default_config

abbrev pub sending : UdpSessionCodec
sending = with_parts sender idle

abbrev pub receiving : UdpSessionCodec
receiving = with_parts receiver idle

started : Reassembly.new default_config ≡ ok idle
unfolding Reassembly.new
started = refl

pub receiving-IsReceiver : IsReceiver receiving []
receiving-IsReceiver = record {
  reassembler = new-IsValid default_config idle started;
  window = Represents-new;
}

decode_all-EndsReceiving_example :
    EndsReceiving
      (opened_sequences plain (ping_datagram ∷ ping_datagram ∷ []) receiver [])
      (decode_all plain pings ((ping_datagram, 5) ∷ (ping_datagram, 6) ∷ []) receiving)
decode_all-EndsReceiving_example =
    decode_all-EndsReceiving plain pings ((ping_datagram, 5) ∷ (ping_datagram, 6) ∷ []) receiving []
      receiving-IsReceiver

abbrev sent : UdpSessionCodec
sent = record sending { crypto = record sender { next_send_sequence = 1 }; next_message_id = 1 }

encoded_ping : encode_message plain pings (ping 42) sending ≡ (ok (ping_datagram ∷ []), sent)
unfolding encode_message encode_plaintext sealed_message next_message seal_message sealed_state seal
    advance seal_fragments seal_fragment encode validate header_bytes to_be_bytes kind_code
encoded_ping = refl

plain-Encrypts : Encrypts plain
plain-Encrypts = λ key nonce aad plaintext small. ((plaintext, replicate 16 0), refl)

decode-encode_message_example :
    (datagram : List ℕ) × (after : UdpSessionCodec) × (encode_message plain pings (ping 42) sending
      ≡ (ok (datagram ∷ []), after))
    × (result_of (decode_datagram_at plain pings datagram 5 receiving) ≡ ok (some (ping 42)))
decode-encode_message_example =
    decode-encode_message plain plain-AeadLaws pings sending receiving AreLinked-peers
      sender-IsSession (omega arith) [] (42 ∷ []) (ping 42) 5 plain-Encrypts refl refl refl refl
      (omega arith) Represents-new refl

abbrev challenge : List ℕ
challenge = replicate 32 9

proof_transcript-inj_example :
    (session ≡ session)
    × (◌≡◌ {A = List ℕ} (97 ∷ []) (97 ∷ []))
    × (◌≡◌ {A = ℕ} 1000 1000)
    × (challenge ≡ challenge)
proof_transcript-inj_example =
    proof_transcript-inj session session (97 ∷ []) (97 ∷ []) 1000 1000 (challenge) (challenge) refl
      refl (omega arith) (omega arith) (omega arith) (omega arith) refl

abbrev ping_packet : List ℕ
ping_packet = header_bytes (packet_header auth_init session (42 ∷ [])) ++ (42 ∷ [])

encoded_packet : encode_auth_packet pings auth_init session (ping 42) ≡ ok ping_packet
unfolding encode_auth_packet encode validate header_bytes to_be_bytes kind_code
encoded_packet = refl

decode_auth_packet-encode_auth_packet_example :
    decode_auth_packet pings auth_init ping_packet
    ≡ ok (packet_header auth_init session (42 ∷ []), ping 42)
decode_auth_packet-encode_auth_packet_example =
    decode_auth_packet-encode_auth_packet pings auth_init session (ping 42) (42 ∷ []) ping_packet
      refl (ground arith) refl refl encoded_packet
