-- ===== src/UdpTransport/Wire.antt =====
-- Sending a session message through a socket: `send_session_message` of
-- proxy/src/native_udp/session.rs and `send_message` of common/src/client_connection/udp.rs.
-- The socket is a parameter: for a datagram, how many bytes it sent, or an error.
pub mod Numbers
pub mod Receiving
pub mod Live
use ppaass_ai.Base.{ℕ, Option, none, some, List, [], ◌∷◌, String, length, ◌==◌, if◌then◌else◌}
use ppaass_ai.Base.Result.{Result, ok, err}
use ppaass_ai.UdpTransport.{UdpTransportError, UdpTransportResult}
use ppaass_ai.UdpTransport.Crypto.{Aead}
use ppaass_ai.UdpTransport.Codec.{UdpSessionMessage, UdpSessionCodec, Serializer, encode_message}

abbrev pub Socket : Type 0
Socket = List ℕ → Result String ℕ

pub data SendError : Type 0 where
  protocol_error : UdpTransportError → SendError
  io_error : String → SendError
  partial_send : ℕ → ℕ → SendError

-- What a call leaves: its error, the datagrams that it gave to the socket, and the codec.
pub record Sent : Type 0 where
  pub error : Option SendError
  pub datagrams : List (List ℕ)
  pub codec : UdpSessionCodec

-- The socket's answer for one datagram of the loop; `rest` is what the rounds after it do.
pub after_send :
    List ℕ → Option SendError × List (List ℕ) → Result String ℕ → Option SendError × List (List ℕ)
after_send datagram rest (err text) = (some (io_error text), datagram ∷ [])
after_send datagram rest (ok n) =
    if n == length datagram
    then (rest.0, datagram ∷ rest.1)
    else (some (partial_send n (length datagram)), datagram ∷ [])

pub send_datagrams : Socket → List (List ℕ) → Option SendError × List (List ℕ)
unfolding after_send
send_datagrams socket [] = (none, [])
send_datagrams socket (datagram ∷ datagrams) =
    after_send datagram (send_datagrams socket datagrams) (socket datagram)

pub send_encoded : Socket → UdpTransportResult (List (List ℕ)) × UdpSessionCodec → Sent
unfolding send_datagrams
send_encoded socket (err e, codec) = record {
  error = some (protocol_error e);
  datagrams = [];
  codec = codec;
}
send_encoded socket (ok datagrams, codec) =
    let (error, given) = send_datagrams socket datagrams in
    record { error = error; datagrams = given; codec = codec }

unfoldable pub send_session_message :
    Aead → Serializer UdpSessionMessage → Socket → UdpSessionMessage → UdpSessionCodec → Sent
unfolding send_encoded
send_session_message aead serde socket message codec =
    send_encoded socket (encode_message aead serde message codec)
