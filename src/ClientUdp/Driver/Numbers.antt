-- ===== src/ClientUdp/Driver/Numbers.antt =====
-- The sequence numbers that the loop of common/src/client_connection/udp.rs puts on the wire.
use ppaass_ai.Base.{
  ℕ, ◌≡◌, ◌≢◌, refl, sym, inl, inr, Bool-cases, true, false, Option, none, some, List, [], ◌∷◌, ◌-◌,
  ltb, leb, length,
}
use ppaass_ai.Base.Assoc.{nat_eq}
use ppaass_ai.Base.Queue.{TrySend, taken, full, disconnected}
use ppaass_ai.Base.Result.{ok, err}
use ppaass_ai.UdpTransport.{UdpTransportResult}
use ppaass_ai.UdpTransport.Codec.{
  UdpSessionMessage, open_data, connect_response, data_message, close, ping, pong, UdpSessionCodec,
}
use ppaass_ai.UdpTransport.Codec.Delivery.{Received, decode_datagram_at-Received}
use ppaass_ai.UdpTransport.Wire.{Socket, SendError, send_session_message}
use ppaass_ai.UdpTransport.Wire.Numbers.{IsSender, Follows, Follows-refl}
use ppaass_ai.UdpTransport.Wire.Receiving.{StillSends, decode_datagram_at-StillSends}
use ppaass_ai.UdpTransport.Wire.Live.{
  IsLive, Leaves, Leaves-quiet, Leaves-end, Leaves-then, send_session_message-Leaves,
  Received-IsLive,
}
use ppaass_ai.ClientUdp.Driver.{
  DriverContext, Driver, DriverStep, DriverOutcome, continued, finished, timed_out, stuck,
  send_failed, receive_failed, DriverEvent, command, received, tick, ClientCommand, register,
  send_open, send_data, send_close, DriverEffect, quietly, stopped, outcome_of_send, say,
  say_if_open, handle_command, give_stream, deliver_data, handle_received, handle_decoding,
  next_token, ping_sent, keep_alive, drive, drive_on, run_session_driver, health_timeout,
}

-- What a turn leaves of the codec that it started from.
pub record Drives (c : UdpSessionCodec) (step : DriverStep) : Type 0 where
  pub ends : step.outcome ≢ stuck
  pub leaves : Leaves c (step.outcome ≡ continued) step.driver.codec step.datagrams

outcome_of_send-ne-stuck : (e : Option SendError) → outcome_of_send e ≢ stuck
outcome_of_send-ne-stuck none h = cc
outcome_of_send-ne-stuck (some e) h = cc

outcome_of_send-continued : (e : Option SendError) → outcome_of_send e ≡ continued → e ≡ none
outcome_of_send-continued none h = refl
outcome_of_send-continued (some e) h = cc

stopped-Drives :
    (c : UdpSessionCodec) (outcome : DriverOutcome) (driver : Driver)
    → outcome ≢ stuck
    → outcome ≢ continued
    → Drives c (stopped outcome driver)
stopped-Drives c outcome driver not_stuck over = record {
  ends = not_stuck;
  leaves = Leaves-end c _ driver.codec over;
}

module _ (context : DriverContext) (socket : Socket) (c : UdpSessionCodec) where
  quietly-Drives :
      (driver : Driver) (effects : List DriverEffect)
      → IsLive driver.codec
      → Follows c [] driver.codec
      → Drives c (quietly driver effects)
  quietly-Drives driver effects l f = record {
    ends = λ e. cc;
    leaves = Leaves-quiet c _ driver.codec l f;
  }

  say-Drives :
      (message : UdpSessionMessage) (driver : Driver)
      → IsLive driver.codec
      → Follows c [] driver.codec
      → Drives c (say context socket message driver)
  unfolding say
  say-Drives message driver l f =
      let sent = send_session_message context.aead context.serde socket message driver.codec in
      record {
        ends = outcome_of_send-ne-stuck sent.error;
        leaves =
            send_session_message-Leaves context.aead context.serde socket message c driver.codec _
              (outcome_of_send-continued sent.error) l f;
      }

  say_if_open-Drives :
      (o : Option ℕ) (message : UdpSessionMessage) (driver : Driver)
      → IsLive driver.codec
      → Follows c [] driver.codec
      → Drives c (say_if_open context socket o message driver)
  unfolding say_if_open
  say_if_open-Drives none message driver l f = quietly-Drives driver [] l f
  say_if_open-Drives (some stream) message driver l f = say-Drives message driver l f

  handle_command-Drives :
      (cmd : ClientCommand) (driver : Driver)
      → IsLive driver.codec
      → Follows c [] driver.codec
      → Drives c (handle_command context socket cmd driver)
  unfolding handle_command
  handle_command-Drives (register flow_id tx) driver l f = quietly-Drives _ _ l f
  handle_command-Drives (send_open flow_id address bytes) driver l f =
      say_if_open-Drives _ _ driver l f
  handle_command-Drives (send_data flow_id bytes) driver l f = say_if_open-Drives _ _ driver l f
  handle_command-Drives (send_close flow_id) driver l f = say-Drives _ _ l f

  give_stream-Drives :
      (flow_id : ℕ) (bytes : List ℕ) (driver : Driver) (stream : ℕ) (queue : TrySend)
      → IsLive driver.codec
      → Follows c [] driver.codec
      → Drives c (give_stream context socket flow_id bytes driver stream queue)
  unfolding give_stream
  give_stream-Drives flow_id bytes driver stream taken l f = quietly-Drives _ _ l f
  give_stream-Drives flow_id bytes driver stream full l f = quietly-Drives _ _ l f
  give_stream-Drives flow_id bytes driver stream disconnected l f = quietly-Drives _ _ l f

  deliver_data-Drives :
      (flow_id : ℕ) (bytes : List ℕ) (queue : TrySend) (driver : Driver) (o : Option ℕ)
      → IsLive driver.codec
      → Follows c [] driver.codec
      → Drives c (deliver_data context socket flow_id bytes queue driver o)
  unfolding deliver_data
  deliver_data-Drives flow_id bytes queue driver none l f = quietly-Drives _ _ l f
  deliver_data-Drives flow_id bytes queue driver (some stream) l f =
      give_stream-Drives flow_id bytes driver stream queue l f

  handle_received-Drives :
      (queue : TrySend) (message : UdpSessionMessage) (driver : Driver)
      → IsLive driver.codec
      → Follows c [] driver.codec
      → Drives c (handle_received context socket queue message driver)
  unfolding handle_received
  handle_received-Drives queue (connect_response flow_id true error) driver l f =
      quietly-Drives _ _ l f
  handle_received-Drives queue (connect_response flow_id false error) driver l f =
      quietly-Drives _ _ l f
  handle_received-Drives queue (data_message flow_id bytes) driver l f =
      deliver_data-Drives flow_id bytes queue driver _ l f
  handle_received-Drives queue (close flow_id reason) driver l f = quietly-Drives _ _ l f
  handle_received-Drives queue (ping token) driver l f = say-Drives _ _ l f
  handle_received-Drives queue (pong token) driver l f = quietly-Drives _ _ l f
  handle_received-Drives queue (open_data flow_id address bytes) driver l f = quietly-Drives _ _ l f

  handle_decoding-Drives :
      (now : ℕ) (queue : TrySend) (driver : Driver) (history : List ℕ)
      (o : Option (UdpTransportResult (Option UdpSessionMessage) × UdpSessionCodec))
      → IsSender c
      → Received history o
      → StillSends c o
      → Drives c (handle_decoding context socket now queue driver o)
  unfolding handle_decoding Received
  handle_decoding-Drives now queue driver history none s r still = absurd r
  handle_decoding-Drives now queue driver history (some (err x, codec)) s r still =
      let (l, f) = Received-IsLive c history (err x) codec s r still in quietly-Drives _ _ l f
  handle_decoding-Drives now queue driver history (some (ok none, codec)) s r still =
      let (l, f) = Received-IsLive c history (ok none) codec s r still in quietly-Drives _ _ l f
  handle_decoding-Drives now queue driver history (some (ok (some m), codec)) s r still =
      let (l, f) = Received-IsLive c history (ok (some m)) codec s r still in
      handle_received-Drives queue m _ l f

  next_token-Drives :
      (outcome : DriverOutcome) (step : DriverStep)
      → Drives c step
      → Drives c (next_token context socket outcome step)
  unfolding next_token
  next_token-Drives continued step d = record { ends = d.ends; leaves = d.leaves }
  next_token-Drives finished step d = d
  next_token-Drives timed_out step d = d
  next_token-Drives stuck step d = d
  next_token-Drives (send_failed e) step d = d
  next_token-Drives (receive_failed e) step d = d

  keep_alive-Drives :
      (now : ℕ) (driver : Driver)
      → IsLive driver.codec
      → Follows c [] driver.codec
      → Drives c (keep_alive context socket now driver)
  unfolding keep_alive ping_sent
  keep_alive-Drives now driver l f =
      elim (Bool-cases (leb (health_timeout context) (now - driver.last_authenticated_receive))) [
        | inl late ↦ rw late (stopped-Drives c timed_out driver (λ e. cc) (λ e. cc))
        | inr alive ↦ rw alive (next_token-Drives _ _ (say-Drives _ driver l f))
      ]

drive-Drives :
    (context : DriverContext) (socket : Socket) (event : DriverEvent) (driver : Driver)
    → IsLive driver.codec
    → Drives driver.codec (drive context socket event driver)
unfolding drive
drive-Drives context socket (command none) driver l =
    stopped-Drives _ finished driver (λ e. cc) (λ e. cc)
drive-Drives context socket (command (some cmd)) driver l =
    handle_command-Drives context socket driver.codec cmd driver l (Follows-refl _ l.sender)
drive-Drives context socket (received (err text) now queue) driver l =
    stopped-Drives _ (receive_failed text) driver (λ e. cc) (λ e. cc)
drive-Drives context socket (received (ok datagram) now queue) driver l =
    let (history, r) = l.receiver in
    elim (Bool-cases (ltb 1351 (length datagram))) [
      | inl long ↦
          rw long (quietly-Drives context socket driver.codec driver [] l (Follows-refl _ l.sender))
      | inr fits ↦ rw fits (
          handle_decoding-Drives context socket driver.codec now queue driver history _ l.sender
            (decode_datagram_at-Received context.aead context.serde datagram now driver.codec
              history r)
            (decode_datagram_at-StillSends context.aead context.serde datagram now driver.codec
              history r))
    ]
drive-Drives context socket (tick now) driver l =
    keep_alive-Drives context socket driver.codec now driver l (Follows-refl _ l.sender)

drive_on-Drives :
    (c : UdpSessionCodec) (outcome : DriverOutcome) (step : DriverStep)
    (later : Driver → DriverStep)
    → outcome ≡ step.outcome
    → Drives c step
    → (IsLive step.driver.codec → Drives step.driver.codec (later step.driver))
    → Drives c (drive_on outcome step later)
unfolding drive_on
drive_on-Drives c continued step later e d next =
    let (l, f) = d.leaves.live (sym e) in
    let r = next l in record { ends = r.ends; leaves = Leaves-then step.datagrams _ f r.leaves }
drive_on-Drives c finished step later e d next = d
drive_on-Drives c timed_out step later e d next = d
drive_on-Drives c stuck step later e d next = d
drive_on-Drives c (send_failed x) step later e d next = d
drive_on-Drives c (receive_failed x) step later e d next = d

-- From a codec that sends and receives, whatever commands, datagrams and ticks the loop of a client sees
-- and whatever its sockets answer, it never gets stuck, the datagrams that it gives to its sockets carry
-- consecutive sequence numbers from the codec's next one on, all below 2 ^ 64 (none, if its numbers are
-- used up), and while the loop goes on its codec sends and receives.
pub run_session_driver-Drives :
    (context : DriverContext) (events : List (Socket × DriverEvent)) (driver : Driver)
    → IsLive driver.codec
    → Drives driver.codec (run_session_driver context events driver)
unfolding run_session_driver
run_session_driver-Drives context [] driver l = record {
  ends = λ e. cc;
  leaves = Leaves-quiet driver.codec _ driver.codec l (Follows-refl driver.codec l.sender);
}
run_session_driver-Drives context ((socket, event) ∷ events) driver l =
    let step = drive context socket event driver in
    drive_on-Drives driver.codec step.outcome step (run_session_driver context events) refl
      (drive-Drives context socket event driver l)
      (λ l'. run_session_driver-Drives context events step.driver l')
