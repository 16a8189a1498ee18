-- ===== src/ProxyUdp/Session/Numbers.antt =====
-- The sequence numbers that a session of the proxy puts on the wire:
-- proxy/src/native_udp/session.rs.
use ppaass_ai.Base.{
  ℕ, ◌≡◌, ◌≢◌, refl, sym, inl, inr, Bool-cases, Option, none, some, List, [], ◌∷◌, ltb, String,
}
use ppaass_ai.Address.{Address}
use ppaass_ai.Base.Assoc.{nat_eq}
use ppaass_ai.Base.Result.{ok, err}
use ppaass_ai.UdpTransport.{UdpTransportResult}
use ppaass_ai.UdpTransport.Codec.{
  UdpSessionMessage, open_data, connect_response, data_message, close, ping, pong, UdpSessionCodec,
}
use ppaass_ai.UdpTransport.Codec.Delivery.{Received, decode_datagram_at-Received}
use ppaass_ai.UdpTransport.Wire.{Socket, SendError, send_session_message}
use ppaass_ai.UdpTransport.Wire.Numbers.{IsSender, Follows, Follows-refl}
use ppaass_ai.UdpTransport.Wire.Receiving.{StillSends, decode_datagram_at-StillSends}
use ppaass_ai.UdpTransport.Wire.Live.{
  IsLive, Leaves, Leaves-quiet, Leaves-end, Leaves-then, send_session_message-Leaves,
  Received-IsLive,
}
use ppaass_ai.Base.Queue.{TrySend, taken, full, disconnected}
use ppaass_ai.ProxyUdp.Session.{
  SessionContext, ChannelState, FlowAdmission, existing, at_capacity, create, ChannelEvent,
  connect_result, closed, SessionEvent, idle, inbound, outbound, channel_event, joined, Effect,
  Session, Outcome, continued, finished, stuck, failed, Stepped, quiet, outcome_of, send_to_peer,
  admit, give, deliver, close_flow, handle_message, receive_datagram, connect_reported,
  close_reported, handle_channel_event, turn, go_on, run_session, is_success,
}

-- What a turn leaves of the codec that it started from.
pub record Turned (c : UdpSessionCodec) (stepped : Stepped) : Type 0 where
  pub ends : stepped.outcome ≢ stuck
  pub leaves : Leaves c (stepped.outcome ≡ continued) stepped.session.codec stepped.datagrams

quiet-Turned :
    (c : UdpSessionCodec) (session : Session) (effects : List Effect)
    → IsLive session.codec
    → Follows c [] session.codec
    → Turned c (quiet session effects)
quiet-Turned c session effects l f = record {
  ends = λ e. cc;
  leaves = Leaves-quiet c _ session.codec l f;
}

outcome_of-ne-stuck : (e : Option SendError) → outcome_of e ≢ stuck
outcome_of-ne-stuck none h = cc
outcome_of-ne-stuck (some e) h = cc

outcome_of-continued : (e : Option SendError) → outcome_of e ≡ continued → e ≡ none
outcome_of-continued none h = refl
outcome_of-continued (some e) h = cc

module _ (context : SessionContext) (socket : Socket) (c : UdpSessionCodec) where
  send_to_peer-Turned :
      (message : UdpSessionMessage) (session : Session) (effects : List Effect)
      → IsLive session.codec
      → Follows c [] session.codec
      → Turned c (send_to_peer context socket message session effects)
  unfolding send_to_peer
  send_to_peer-Turned message session effects l f =
      let sent = send_session_message context.aead context.serde socket message session.codec in
      record {
        ends = outcome_of-ne-stuck sent.error;
        leaves =
            send_session_message-Leaves context.aead context.serde socket message c session.codec _
              (outcome_of-continued sent.error) l f;
      }

  admit-Turned :
      (flow_id : ℕ) (address : Address) (bytes : List ℕ) (session : Session) (a : FlowAdmission)
      → IsLive session.codec
      → Follows c [] session.codec
      → Turned c (admit context socket flow_id address bytes session a)
  unfolding admit
  admit-Turned flow_id address bytes session existing l f = quiet-Turned c session [] l f
  admit-Turned flow_id address bytes session at_capacity l f = send_to_peer-Turned _ session [] l f
  admit-Turned flow_id address bytes session create l f = quiet-Turned c _ _ l f

  give-Turned :
      (flow_id : ℕ) (bytes : List ℕ) (session : Session) (channel : ChannelState) (t : TrySend)
      → IsLive session.codec
      → Follows c [] session.codec
      → Turned c (give context socket flow_id bytes session channel t)
  unfolding give
  give-Turned flow_id bytes session channel taken l f = quiet-Turned c _ _ l f
  give-Turned flow_id bytes session channel full l f = quiet-Turned c _ _ l f
  give-Turned flow_id bytes session channel disconnected l f = quiet-Turned c _ _ l f

  deliver-Turned :
      (flow_id : ℕ) (bytes : List ℕ) (t : TrySend) (session : Session) (o : Option ChannelState)
      → IsLive session.codec
      → Follows c [] session.codec
      → Turned c (deliver context socket flow_id bytes t session o)
  unfolding deliver
  deliver-Turned flow_id bytes t session none l f = quiet-Turned c _ _ l f
  deliver-Turned flow_id bytes t session (some channel) l f = elim (Bool-cases channel.input_tx) [
    | inl there ↦ rw there (give-Turned flow_id bytes session channel t l f)
    | inr dropped ↦ rw dropped (quiet-Turned c _ _ l f)
  ]

  close_flow-Turned :
      (flow_id : ℕ) (session : Session) (o : Option ChannelState)
      → IsLive session.codec
      → Follows c [] session.codec
      → Turned c (close_flow context socket flow_id session o)
  unfolding close_flow
  close_flow-Turned flow_id session none l f = quiet-Turned c _ _ l f
  close_flow-Turned flow_id session (some channel) l f = quiet-Turned c _ _ l f

  handle_message-Turned :
      (t : TrySend) (message : UdpSessionMessage) (session : Session)
      → IsLive session.codec
      → Follows c [] session.codec
      → Turned c (handle_message context socket t message session)
  unfolding handle_message
  handle_message-Turned t (open_data flow_id address bytes) session l f =
      admit-Turned flow_id address bytes session _ l f
  handle_message-Turned t (data_message flow_id bytes) session l f =
      deliver-Turned flow_id bytes t session _ l f
  handle_message-Turned t (close flow_id reason) session l f =
      close_flow-Turned flow_id session _ l f
  handle_message-Turned t (ping token) session l f = send_to_peer-Turned _ session [] l f
  handle_message-Turned t (pong token) session l f = quiet-Turned c _ _ l f
  handle_message-Turned t (connect_response flow_id success error) session l f =
      quiet-Turned c _ _ l f

  receive_datagram-Turned :
      (now : ℕ) (t : TrySend) (session : Session) (history : List ℕ)
      (o : Option (UdpTransportResult (Option UdpSessionMessage) × UdpSessionCodec))
      → c ≡ session.codec
      → IsSender c
      → Received history o
      → StillSends c o
      → Turned c (receive_datagram context socket now t session o)
  unfolding receive_datagram Received
  receive_datagram-Turned now t session history none e s r still = absurd r
  receive_datagram-Turned now t session history (some (err x, codec)) e s r still =
      let (l, f) = Received-IsLive c history (err x) codec s r still in quiet-Turned c _ _ l f
  receive_datagram-Turned now t session history (some (ok none, codec)) e s r still =
      let (l, f) = Received-IsLive c history (ok none) codec s r still in quiet-Turned c _ _ l f
  receive_datagram-Turned now t session history (some (ok (some m), codec)) e s r still =
      let (l, f) = Received-IsLive c history (ok (some m)) codec s r still in
      handle_message-Turned t m _ l f

  connect_reported-Turned :
      (flow_id : ℕ) (response : UdpSessionMessage) (session : Session) (o : Option ChannelState)
      → IsLive session.codec
      → Follows c [] session.codec
      → Turned c (connect_reported context socket flow_id response session o)
  unfolding connect_reported
  connect_reported-Turned flow_id response session none l f = quiet-Turned c _ _ l f
  connect_reported-Turned flow_id response session (some channel) l f =
      elim (Bool-cases (is_success context socket response)) [
        | inl success ↦ rw success (send_to_peer-Turned response session [] l f)
        | inr failure ↦ rw failure (send_to_peer-Turned response _ [] l f)
      ]

  close_reported-Turned :
      (flow_id : ℕ) (reason : Option String) (session : Session) (o : Option ChannelState)
      → IsLive session.codec
      → Follows c [] session.codec
      → Turned c (close_reported context socket flow_id reason session o)
  unfolding close_reported
  close_reported-Turned flow_id reason session none l f = quiet-Turned c _ _ l f
  close_reported-Turned flow_id reason session (some channel) l f = send_to_peer-Turned _ _ _ l f

  handle_channel_event-Turned :
      (event : ChannelEvent) (session : Session)
      → IsLive session.codec
      → Follows c [] session.codec
      → Turned c (handle_channel_event context socket event session)
  unfolding handle_channel_event
  handle_channel_event-Turned (connect_result flow_id response) session l f =
      connect_reported-Turned flow_id response session _ l f
  handle_channel_event-Turned (closed flow_id reason) session l f =
      close_reported-Turned flow_id reason session _ l f

finish-Turned :
    (c : UdpSessionCodec) (session : Session)
    → Turned c (record { outcome = finished; session = session; datagrams = []; effects = [] })
finish-Turned c session = record { ends = λ e. cc; leaves = Leaves-end c _ session.codec (λ g. cc) }

turn-Turned :
    (context : SessionContext) (socket : Socket) (event : SessionEvent) (session : Session)
    → IsLive session.codec
    → Turned session.codec (turn context socket event session)
unfolding turn
turn-Turned context socket event session l = by_event event
  where
    f : Follows session.codec [] session.codec
    f = Follows-refl session.codec l.sender

    by_event : (event : SessionEvent) → Turned session.codec (turn context socket event session)
    by_event (idle now) = elim (Bool-cases (ltb now session.idle_at)) [
      | inl early ↦ rw early (quiet-Turned _ _ _ l f)
      | inr over ↦ rw over (finish-Turned session.codec session)
    ]
    by_event (inbound none now t) = finish-Turned session.codec session
    by_event (inbound (some datagram) now t) =
        let (history, r) = l.receiver in
        receive_datagram-Turned context socket session.codec now t session history _ refl l.sender
          (decode_datagram_at-Received context.aead context.serde datagram now session.codec history
            r)
          (decode_datagram_at-StillSends context.aead context.serde datagram now session.codec
            history r)
    by_event (outbound none) = quiet-Turned _ _ _ l f
    by_event (outbound (some message)) =
        send_to_peer-Turned context socket session.codec message session [] l f
    by_event (channel_event none) = quiet-Turned _ _ _ l f
    by_event (channel_event (some e)) =
        handle_channel_event-Turned context socket session.codec e session l f
    by_event joined = quiet-Turned _ _ _ l f

go_on-Turned :
    (c : UdpSessionCodec) (outcome : Outcome) (stepped : Stepped) (later : Session → Stepped)
    → outcome ≡ stepped.outcome
    → Turned c stepped
    → (IsLive stepped.session.codec → Turned stepped.session.codec (later stepped.session))
    → Turned c (go_on outcome stepped later)
unfolding go_on
go_on-Turned c continued stepped later e t next =
    let (l, f) = t.leaves.live (sym e) in
    let rest = later stepped.session in
    let r = next l in
    record { ends = r.ends; leaves = Leaves-then stepped.datagrams rest.datagrams f r.leaves }
go_on-Turned c finished stepped later e t next = record {
  ends = t.ends;
  leaves = record {
    numbered = t.leaves.numbered;
    over = t.leaves.over;
    live = λ ends. absurd (cc);
  };
}
go_on-Turned c stuck stepped later e t next = t
go_on-Turned c (failed x) stepped later e t next = t

-- From a codec that sends and receives, whatever events a session sees and whatever its sockets answer,
-- its loop never gets stuck, the datagrams that it gives to its sockets carry consecutive sequence numbers
-- from the codec's next one on, all below 2 ^ 64, and while the session goes on its codec sends and receives.
pub run_session-Turned :
    (context : SessionContext) (events : List (Socket × SessionEvent)) (session : Session)
    → IsLive session.codec
    → Turned session.codec (run_session context events session)
unfolding run_session
run_session-Turned context [] session l =
    quiet-Turned session.codec session [] l (Follows-refl session.codec l.sender)
run_session-Turned context ((socket, event) ∷ events) session l =
    let stepped = turn context socket event session in
    go_on-Turned session.codec stepped.outcome stepped (run_session context events) refl
      (turn-Turned context socket event session l)
      (λ l'. run_session-Turned context events stepped.session l')
