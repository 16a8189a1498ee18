-- ===== src/ClientUdp/Driver.antt =====
-- The loop of a client's session: run_session_driver of common/src/client_connection/udp.rs. An event
-- is what one turn of `select!` receives, with the time and the answers of the socket and of a stream's
-- queue.
pub mod Numbers
use ppaass_ai.Base.{
  ℕ, ◌+◌, ◌-◌, ◌*◌, ◌%◌, ◌^◌, max, Bool, true, false, Option, none, some, List, [], ◌∷◌, ◌++◌,
  String, length, ltb, leb, if◌then◌else◌,
}
use ppaass_ai.Address.{Address}
use ppaass_ai.Base.Assoc.{lookup, insert, remove, nat_eq}
use ppaass_ai.Base.Queue.{TrySend, taken, full, disconnected}
use ppaass_ai.Base.Result.{Result, ok, err}
use ppaass_ai.UdpTransport.{UdpTransportResult, udp_max_datagram_size}
use ppaass_ai.UdpTransport.Crypto.{Aead}
use ppaass_ai.UdpTransport.Codec.{
  UdpSessionMessage, open_data, connect_response, data_message, close, ping, pong, UdpSessionCodec,
  Serializer, decode_datagram_at,
}
use ppaass_ai.UdpTransport.Wire.{Socket, SendError, Sent, send_session_message}

-- The sender of a stream's queue is told by a number.
pub data ClientCommand : Type 0 where
  register : ℕ → ℕ → ClientCommand
  send_open : ℕ → Address → List ℕ → ClientCommand
  send_data : ℕ → List ℕ → ClientCommand
  send_close : ℕ → ClientCommand

pub data DriverEvent : Type 0 where
  command : Option ClientCommand → DriverEvent
  received : Result String (List ℕ) → ℕ → TrySend → DriverEvent
  tick : ℕ → DriverEvent

pub data DriverOutcome : Type 0 where
  continued finished timed_out stuck : DriverOutcome
  send_failed : SendError → DriverOutcome
  receive_failed : String → DriverOutcome

-- A message is sent, or a payload of a flow is put into a queue.
pub data DriverEffect : Type 0 where
  said : UdpSessionMessage → DriverEffect
  delivered : ℕ → ℕ → List ℕ → DriverEffect

pub record Driver : Type 0 where
  pub codec : UdpSessionCodec
  pub streams : List (ℕ × ℕ)
  pub ping_token : ℕ
  pub last_authenticated_receive : ℕ

pub record DriverStep : Type 0 where
  pub outcome : DriverOutcome
  pub driver : Driver
  pub datagrams : List (List ℕ)
  pub effects : List DriverEffect

-- The libraries, and the configured timeout in nanoseconds.
pub record DriverContext : Type 0 where
  pub aead : Aead
  pub serde : Serializer UdpSessionMessage
  pub configured_timeout : ℕ

-- In nanoseconds.
abbrev pub min_session_health_timeout : ℕ
min_session_health_timeout = 30 * 1000000000

unfoldable pub health_timeout : DriverContext → ℕ
health_timeout context = max context.configured_timeout min_session_health_timeout

abbrev pub quietly : Driver → List DriverEffect → DriverStep
quietly driver effects = record {
  outcome = continued;
  driver = driver;
  datagrams = [];
  effects = effects;
}

abbrev pub stopped : DriverOutcome → Driver → DriverStep
stopped outcome driver = record { outcome = outcome; driver = driver; datagrams = []; effects = [] }

abbrev pub outcome_of_send : Option SendError → DriverOutcome
outcome_of_send none = continued
outcome_of_send (some e) = send_failed e

module _ (context : DriverContext) (socket : Socket) where
  abbrev pub said_by : Driver → UdpSessionMessage → Sent → DriverStep
  said_by driver message sent = record {
    outcome = outcome_of_send sent.error;
    driver = record driver { codec = sent.codec };
    datagrams = sent.datagrams;
    effects = said message ∷ [];
  }

  unfoldable pub say : UdpSessionMessage → Driver → DriverStep
  say message driver =
      said_by driver message
        (send_session_message context.aead context.serde socket message driver.codec)

  -- `streams.contains_key(&flow_id).then_some(message)`, and sending it.
  unfoldable pub say_if_open : Option ℕ → UdpSessionMessage → Driver → DriverStep
  unfolding say
  say_if_open none message driver = quietly driver []
  say_if_open (some stream) message driver = say message driver

  unfoldable pub handle_command : ClientCommand → Driver → DriverStep
  unfolding say_if_open
  handle_command (register flow_id inbound_tx) driver =
      quietly (record driver { streams = insert flow_id inbound_tx driver.streams }) []
  handle_command (send_open flow_id address bytes) driver =
      say_if_open (lookup flow_id driver.streams) (open_data flow_id address bytes) driver
  handle_command (send_data flow_id bytes) driver =
      say_if_open (lookup flow_id driver.streams) (data_message flow_id bytes) driver
  handle_command (send_close flow_id) driver =
      say (close flow_id none) (record driver { streams = remove flow_id driver.streams })

  unfoldable pub give_stream : ℕ → List ℕ → Driver → ℕ → TrySend → DriverStep
  give_stream flow_id bytes driver stream taken =
      quietly driver (delivered flow_id stream bytes ∷ [])
  give_stream flow_id bytes driver stream full = quietly driver []
  give_stream flow_id bytes driver stream disconnected =
      quietly (record driver { streams = remove flow_id driver.streams }) []

  unfoldable pub deliver_data : ℕ → List ℕ → TrySend → Driver → Option ℕ → DriverStep
  unfolding give_stream
  deliver_data flow_id bytes queue driver none = quietly driver []
  deliver_data flow_id bytes queue driver (some stream) =
      give_stream flow_id bytes driver stream queue

  unfoldable pub handle_received : TrySend → UdpSessionMessage → Driver → DriverStep
  unfolding deliver_data
  handle_received queue (connect_response flow_id success error) driver =
      quietly
        (if success then driver else (record driver { streams = remove flow_id driver.streams })) []
  handle_received queue (data_message flow_id bytes) driver =
      deliver_data flow_id bytes queue driver (lookup flow_id driver.streams)
  handle_received queue (close flow_id reason) driver =
      quietly (record driver { streams = remove flow_id driver.streams }) []
  handle_received queue (ping token) driver = say (pong token) driver
  handle_received queue (pong token) driver = quietly driver []
  handle_received queue (open_data flow_id address bytes) driver = quietly driver []

  -- The answer of the codec.
  unfoldable pub handle_decoding :
      ℕ
      → TrySend
      → Driver
      → Option (UdpTransportResult (Option UdpSessionMessage) × UdpSessionCodec)
      → DriverStep
  unfolding handle_received
  handle_decoding now queue driver none = stopped stuck driver
  handle_decoding now queue driver (some (err e, codec)) =
      quietly (record driver { codec = codec }) []
  handle_decoding now queue driver (some (ok none, codec)) =
      quietly (record driver { codec = codec; last_authenticated_receive = now }) []
  handle_decoding now queue driver (some (ok (some message), codec)) =
      handle_received queue message
        (record driver { codec = codec; last_authenticated_receive = now })

  -- `ping_token.wrapping_add(1)`, unless sending has failed.
  unfoldable pub next_token : DriverOutcome → DriverStep → DriverStep
  next_token continued step = record step {
    driver = record (step.driver) { ping_token = (step.driver.ping_token + 1) % 2 ^ 64 };
  }
  next_token _ step = step

  unfoldable pub ping_sent : DriverStep → DriverStep
  unfolding next_token
  ping_sent step = next_token step.outcome step

  unfoldable pub keep_alive : ℕ → Driver → DriverStep
  unfolding ping_sent health_timeout
  keep_alive now driver =
      if leb (health_timeout context) (now - driver.last_authenticated_receive)
      then stopped timed_out driver
      else ping_sent (say (ping driver.ping_token) driver)

  -- One turn of `select!`.
  unfoldable pub drive : DriverEvent → Driver → DriverStep
  unfolding handle_command handle_decoding keep_alive
  drive (command none) driver = stopped finished driver
  drive (command (some c)) driver = handle_command c driver
  drive (received (err text) now queue) driver = stopped (receive_failed text) driver
  drive (received (ok datagram) now queue) driver =
      if ltb udp_max_datagram_size (length datagram)
      then quietly driver []
      else handle_decoding now queue driver
          (decode_datagram_at context.aead context.serde datagram now driver.codec)
  drive (tick now) driver = keep_alive now driver

unfoldable pub drive_on : DriverOutcome → DriverStep → (Driver → DriverStep) → DriverStep
drive_on continued step later =
    let rest = later step.driver in
    record rest {
      datagrams = step.datagrams ++ rest.datagrams;
      effects = step.effects ++ rest.effects;
    }
drive_on _ step later = step

-- The loop, over the events of its turns, each with the socket's answers.
unfoldable pub run_session_driver :
    DriverContext → List (Socket × DriverEvent) → Driver → DriverStep
unfolding drive_on
run_session_driver context [] driver = quietly driver []
run_session_driver context ((socket, event) ∷ events) driver =
    let step = drive context socket event driver in
    drive_on step.outcome step (run_session_driver context events)
