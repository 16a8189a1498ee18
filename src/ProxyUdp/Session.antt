-- ===== src/ProxyUdp/Session.antt =====
-- The loop of an authenticated session of the proxy: run_session of proxy/src/native_udp/session.rs.
-- An event is what one turn of `select!` receives, with what the outside answers in this turn: the
-- time, the socket, and the queue of a flow's worker.
pub mod Numbers
pub mod Flows
use ppaass_ai.Base.{
  ℕ, ◌+◌, ◌*◌, max, Bool, true, false, Option, none, some, List, [], ◌∷◌, ◌++◌, String, length, ltb,
  leb, if◌then◌else◌,
}
use ppaass_ai.Address.{Address}
use ppaass_ai.Base.Assoc.{lookup, insert, remove, nat_eq}
use ppaass_ai.Base.Queue.{TrySend, taken, full, disconnected}
use ppaass_ai.Base.Result.{ok, err}
use ppaass_ai.UdpTransport.{UdpTransportResult}
use ppaass_ai.UdpTransport.Crypto.{Aead}
use ppaass_ai.UdpTransport.Codec.{
  UdpSessionMessage, open_data, connect_response, data_message, close, ping, pong, UdpSessionCodec,
  Serializer, decode_datagram_at,
}
use ppaass_ai.UdpTransport.Wire.{Socket, SendError, Sent, send_session_message}

-- What the session reads of its configuration, the libraries it calls, and
-- `format!("native UDP session flow limit reached ({})", limit)`.
pub record SessionContext : Type 0 where
  pub aead : Aead
  pub serde : Serializer UdpSessionMessage
  pub udp_session_max_flows : ℕ
  pub udp_relay_idle_timeout_secs : ℕ
  pub limit_reached : ℕ → String

-- `input_tx` is there or was dropped; `abort_handle` is the number of the spawned task.
pub record ChannelState : Type 0 where
  pub input_tx : Bool
  pub abort_handle : ℕ

pub data FlowAdmission : Type 0 where
  existing at_capacity create : FlowAdmission

unfoldable pub classify_flow_admission : Bool → ℕ → ℕ → FlowAdmission
classify_flow_admission flow_exists active_flow_count max_flows =
    if flow_exists
    then existing
    else if leb max_flows active_flow_count
    then at_capacity
    else create

pub data ChannelEvent : Type 0 where
  connect_result : ℕ → UdpSessionMessage → ChannelEvent
  closed : ℕ → Option String → ChannelEvent

pub data SessionEvent : Type 0 where
  idle : ℕ → SessionEvent
  inbound : Option (List ℕ) → ℕ → TrySend → SessionEvent
  outbound : Option UdpSessionMessage → SessionEvent
  channel_event : Option ChannelEvent → SessionEvent
  joined : SessionEvent

-- What happens to the workers of the flows: a task is spawned with the first packet, is given a
-- packet, is aborted, or is forgotten since it has ended.
pub data Effect : Type 0 where
  spawned : ℕ → ℕ → Address → List ℕ → Effect
  queued : ℕ → ℕ → List ℕ → Effect
  aborted : ℕ → ℕ → Effect
  forgotten : ℕ → Effect

-- The variables of the loop; `tasks` counts the spawned tasks.
pub record Session : Type 0 where
  pub codec : UdpSessionCodec
  pub channels : List (ℕ × ChannelState)
  pub idle_at : ℕ
  pub tasks : ℕ

-- How a turn ends; `stuck` cannot happen.
pub data Outcome : Type 0 where
  continued finished stuck : Outcome
  failed : SendError → Outcome

pub record Stepped : Type 0 where
  pub outcome : Outcome
  pub session : Session
  pub datagrams : List (List ℕ)
  pub effects : List Effect

abbrev pub quiet : Session → List Effect → Stepped
quiet session effects = record {
  outcome = continued;
  session = session;
  datagrams = [];
  effects = effects;
}

abbrev pub outcome_of : Option SendError → Outcome
outcome_of none = continued
outcome_of (some e) = failed e

abbrev pub sent_from : Session → List Effect → Sent → Stepped
sent_from session effects sent = record {
  outcome = outcome_of sent.error;
  session = record session { codec = sent.codec };
  datagrams = sent.datagrams;
  effects = effects;
}

abbrev pub is_some {ℓ} : {A : Type ℓ} → Option A → Bool
is_some none = false
is_some (some a) = true

-- In nanoseconds.
unfoldable pub udp_idle_timeout : SessionContext → ℕ
udp_idle_timeout context = max context.udp_relay_idle_timeout_secs 1 * 1000000000

abbrev pub response_to : ℕ → Option String → UdpSessionMessage
response_to flow_id none = connect_response flow_id true none
response_to flow_id (some error) = connect_response flow_id false (some error)

module _ (context : SessionContext) (socket : Socket) where
  pub send_to_peer : UdpSessionMessage → Session → List Effect → Stepped
  send_to_peer message session effects =
      sent_from session effects
        (send_session_message context.aead context.serde socket message session.codec)

  unfoldable pub admit : ℕ → Address → List ℕ → Session → FlowAdmission → Stepped
  unfolding send_to_peer
  admit flow_id address bytes session existing = quiet session []
  admit flow_id address bytes session at_capacity =
      send_to_peer
        (response_to flow_id (some (context.limit_reached context.udp_session_max_flows))) session
        []
  admit flow_id address bytes session create =
      quiet
        (record session {
          channels =
              insert flow_id (record { input_tx = true; abort_handle = session.tasks })
                session.channels;
          tasks = session.tasks + 1;
        })
        (spawned flow_id session.tasks address bytes ∷ [])

  unfoldable pub give : ℕ → List ℕ → Session → ChannelState → TrySend → Stepped
  give flow_id bytes session channel taken =
      quiet session (queued flow_id channel.abort_handle bytes ∷ [])
  give flow_id bytes session channel full = quiet session []
  give flow_id bytes session channel disconnected =
      quiet
        (record session {
          channels = insert flow_id (record channel { input_tx = false }) session.channels;
        })
        []

  unfoldable pub deliver : ℕ → List ℕ → TrySend → Session → Option ChannelState → Stepped
  unfolding give
  deliver flow_id bytes try_send session none = quiet session []
  deliver flow_id bytes try_send session (some channel) =
      if channel.input_tx then give flow_id bytes session channel try_send else quiet session []

  unfoldable pub close_flow : ℕ → Session → Option ChannelState → Stepped
  close_flow flow_id session none = quiet session []
  close_flow flow_id session (some channel) =
      quiet (record session { channels = remove flow_id session.channels })
        (aborted flow_id channel.abort_handle ∷ [])

  -- The `match` on a message that was decoded.
  unfoldable pub handle_message : TrySend → UdpSessionMessage → Session → Stepped
  unfolding admit deliver close_flow classify_flow_admission
  handle_message try_send (open_data flow_id address bytes) session =
      admit flow_id address bytes session (
        classify_flow_admission (is_some (lookup flow_id session.channels))
          (length session.channels) context.udp_session_max_flows)
  handle_message try_send (data_message flow_id bytes) session =
      deliver flow_id bytes try_send session (lookup flow_id session.channels)
  handle_message try_send (close flow_id reason) session =
      close_flow flow_id session (lookup flow_id session.channels)
  handle_message try_send (ping token) session = send_to_peer (pong token) session []
  handle_message try_send (pong token) session = quiet session []
  handle_message try_send (connect_response flow_id success error) session = quiet session []

  -- The answer of the codec; a datagram that it accepts restarts the idle timer.
  unfoldable pub receive_datagram :
      ℕ
      → TrySend
      → Session
      → Option (UdpTransportResult (Option UdpSessionMessage) × UdpSessionCodec)
      → Stepped
  unfolding handle_message
  receive_datagram now try_send session none = record {
    outcome = stuck;
    session = session;
    datagrams = [];
    effects = [];
  }
  receive_datagram now try_send session (some (err e, codec)) =
      quiet (record session { codec = codec }) []
  receive_datagram now try_send session (some (ok none, codec)) =
      quiet (record session { codec = codec; idle_at = now + udp_idle_timeout context }) []
  receive_datagram now try_send session (some (ok (some message), codec)) =
      handle_message try_send message
        (record session { codec = codec; idle_at = now + udp_idle_timeout context })

  abbrev pub is_success : UdpSessionMessage → Bool
  is_success (connect_response flow_id success error) = success
  is_success message = false

  unfoldable pub connect_reported : ℕ → UdpSessionMessage → Session → Option ChannelState → Stepped
  unfolding send_to_peer
  connect_reported flow_id response session none = quiet session []
  connect_reported flow_id response session (some channel) =
      send_to_peer response
        (if is_success response then session else (record session {
          channels = insert flow_id (record channel { input_tx = false }) session.channels;
        }))
        []

  unfoldable pub close_reported : ℕ → Option String → Session → Option ChannelState → Stepped
  unfolding send_to_peer
  close_reported flow_id reason session none = quiet session []
  close_reported flow_id reason session (some channel) =
      send_to_peer (close flow_id reason)
        (record session { channels = remove flow_id session.channels }) (forgotten flow_id ∷ [])

  unfoldable pub handle_channel_event : ChannelEvent → Session → Stepped
  unfolding connect_reported close_reported
  handle_channel_event (connect_result flow_id response) session =
      connect_reported flow_id response session (lookup flow_id session.channels)
  handle_channel_event (closed flow_id reason) session =
      close_reported flow_id reason session (lookup flow_id session.channels)

  -- One turn of `select!`. The timer is pending before its time.
  unfoldable pub turn : SessionEvent → Session → Stepped
  unfolding receive_datagram handle_channel_event
  turn (idle now) session =
      if ltb now session.idle_at
      then quiet session []
      else (record { outcome = finished; session = session; datagrams = []; effects = [] })
  turn (inbound none now try_send) session = record {
    outcome = finished;
    session = session;
    datagrams = [];
    effects = [];
  }
  turn (inbound (some datagram) now try_send) session =
      receive_datagram now try_send session
        (decode_datagram_at context.aead context.serde datagram now session.codec)
  turn (outbound none) session = quiet session []
  turn (outbound (some message)) session = send_to_peer message session []
  turn (channel_event none) session = quiet session []
  turn (channel_event (some event)) session = handle_channel_event event session
  turn joined session = quiet session []

-- After `break`: every channel is drained and its task is aborted.
unfoldable pub drain : List (ℕ × ChannelState) → List Effect
drain [] = []
drain ((flow_id, channel) ∷ channels) = aborted flow_id channel.abort_handle ∷ drain channels

unfoldable pub go_on : Outcome → Stepped → (Session → Stepped) → Stepped
unfolding drain
go_on continued stepped later =
    let rest = later stepped.session in
    record rest {
      datagrams = stepped.datagrams ++ rest.datagrams;
      effects = stepped.effects ++ rest.effects;
    }
go_on finished stepped later = record stepped {
  session = record (stepped.session) { channels = [] };
  effects = stepped.effects ++ drain stepped.session.channels;
}
go_on stuck stepped later = stepped
go_on (failed e) stepped later = stepped

-- The loop, over the events of its turns, each with the socket's answers.
unfoldable pub run_session : SessionContext → List (Socket × SessionEvent) → Session → Stepped
unfolding go_on
run_session context [] session = quiet session []
run_session context ((socket, event) ∷ events) session =
    let stepped = turn context socket event session in
    go_on stepped.outcome stepped (run_session context events)
