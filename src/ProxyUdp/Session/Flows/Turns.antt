-- ===== src/ProxyUdp/Session/Flows/Turns.antt =====
-- The turns of the loop of proxy/src/native_udp/session.rs against the registry of open flows.
use ppaass_ai.Base.{
  ℕ, ◌<◌, ◌≡◌, refl, sym, ◌∙◌, ap, inl, inr, Bool-cases, Option, none, some, List, [], ◌∷◌, arith,
  ltb, length, String,
}
use ppaass_ai.Address.{Address}
use ppaass_ai.Base.Assoc.{lookup, nat_eq}
use ppaass_ai.Base.Result.{ok, err}
use ppaass_ai.UdpTransport.{UdpTransportResult}
use ppaass_ai.UdpTransport.Codec.{
  UdpSessionMessage, open_data, connect_response, data_message, close, ping, pong, UdpSessionCodec,
}
use ppaass_ai.UdpTransport.Wire.{Socket}
use ppaass_ai.Base.Queue.{TrySend, taken, full, disconnected}
use ppaass_ai.ProxyUdp.Session.{
  SessionContext, ChannelState, FlowAdmission, existing, at_capacity, create,
  classify_flow_admission, ChannelEvent, connect_result, closed, SessionEvent, idle, inbound,
  outbound, channel_event, joined, Effect, forgotten, Session, quiet, is_some, send_to_peer, admit,
  give, deliver, close_flow, handle_message, receive_datagram, connect_reported, close_reported,
  handle_channel_event, turn, is_success,
}
use ppaass_ai.ProxyUdp.Session.Flows.{
  Registry, observe_all, IsTrace, Mirrors, Behaved, Mirrors-spawned, Mirrors-removed,
  Mirrors-dropped, handle_of,
}

quiet-Behaved :
    (max : ℕ) (r : Registry) (session : Session)
    → Mirrors r session
    → Behaved max r (quiet session [])
quiet-Behaved max r session m = record { trace = tt; mirrors = m }

module _ (context : SessionContext) (socket : Socket) (r : Registry) where
  abbrev flows : ℕ
  flows = context.udp_session_max_flows

  send_to_peer-Behaved :
      (message : UdpSessionMessage) (session : Session) (effects : List Effect)
      → IsTrace flows r effects
      → Mirrors (observe_all effects r) session
      → Behaved flows r (send_to_peer context socket message session effects)
  unfolding send_to_peer
  send_to_peer-Behaved message session effects t m = record {
    trace = t;
    mirrors = record { distinct = m.distinct; same = m.same; count = m.count; next = m.next };
  }

  admit-Behaved :
      (flow_id : ℕ) (address : Address) (bytes : List ℕ) (session : Session) (a : FlowAdmission)
      → a
        ≡ classify_flow_admission
            (is_some (lookup flow_id session.channels))
            (length session.channels)
            flows
      → Mirrors r session
      → Behaved flows r (admit context socket flow_id address bytes session a)
  unfolding admit classify_flow_admission
  admit-Behaved flow_id address bytes session existing e m = quiet-Behaved flows r session m
  admit-Behaved flow_id address bytes session at_capacity e m =
      send_to_peer-Behaved _ session [] tt m
  admit-Behaved flow_id address bytes session create e m =
      let new : lookup flow_id session.channels ≡ none = ground arith in
      let room : length session.channels < flows = ground arith in
      record {
        trace = ((m.same flow_id ∙ ap handle_of new, omega (arith, m.count), sym m.next), tt);
        mirrors = Mirrors-spawned r session _ flow_id m address bytes new refl refl;
      }

  give-Behaved :
      (flow_id : ℕ) (bytes : List ℕ) (session : Session) (channel : ChannelState) (t : TrySend)
      → lookup flow_id session.channels ≡ some channel
      → Mirrors r session
      → Behaved flows r (give context socket flow_id bytes session channel t)
  unfolding give
  give-Behaved flow_id bytes session channel taken there m = record {
    trace = (m.same flow_id ∙ ap handle_of there, tt);
    mirrors = m;
  }
  give-Behaved flow_id bytes session channel full there m = quiet-Behaved flows r session m
  give-Behaved flow_id bytes session channel disconnected there m =
      quiet-Behaved flows r _ (Mirrors-dropped r session _ flow_id m channel there refl refl)

  deliver-Behaved :
      (flow_id : ℕ) (bytes : List ℕ) (t : TrySend) (session : Session) (o : Option ChannelState)
      → lookup flow_id session.channels ≡ o
      → Mirrors r session
      → Behaved flows r (deliver context socket flow_id bytes t session o)
  unfolding deliver
  deliver-Behaved flow_id bytes t session none e m = quiet-Behaved flows r session m
  deliver-Behaved flow_id bytes t session (some channel) e m = elim (Bool-cases channel.input_tx) [
    | inl there ↦ rw there (give-Behaved flow_id bytes session channel t e m)
    | inr dropped ↦ rw dropped (quiet-Behaved flows r session m)
  ]

  close_flow-Behaved :
      (flow_id : ℕ) (session : Session) (o : Option ChannelState)
      → lookup flow_id session.channels ≡ o
      → Mirrors r session
      → Behaved flows r (close_flow context socket flow_id session o)
  unfolding close_flow
  close_flow-Behaved flow_id session none e m = quiet-Behaved flows r session m
  close_flow-Behaved flow_id session (some channel) e m = record {
    trace = (m.same flow_id ∙ ap handle_of e, tt);
    mirrors = Mirrors-removed r session _ flow_id m channel e refl refl;
  }

  handle_message-Behaved :
      (t : TrySend) (message : UdpSessionMessage) (session : Session)
      → Mirrors r session
      → Behaved flows r (handle_message context socket t message session)
  unfolding handle_message
  handle_message-Behaved t (open_data flow_id address bytes) session m =
      admit-Behaved flow_id address bytes session _ refl m
  handle_message-Behaved t (data_message flow_id bytes) session m =
      deliver-Behaved flow_id bytes t session _ refl m
  handle_message-Behaved t (close flow_id reason) session m =
      close_flow-Behaved flow_id session _ refl m
  handle_message-Behaved t (ping token) session m = send_to_peer-Behaved _ session [] tt m
  handle_message-Behaved t (pong token) session m = quiet-Behaved flows r session m
  handle_message-Behaved t (connect_response flow_id success error) session m =
      quiet-Behaved flows r session m

  receive_datagram-Behaved :
      (now : ℕ) (t : TrySend) (session : Session)
      (o : Option (UdpTransportResult (Option UdpSessionMessage) × UdpSessionCodec))
      → Mirrors r session
      → Behaved flows r (receive_datagram context socket now t session o)
  unfolding receive_datagram
  receive_datagram-Behaved now t session none m = record { trace = tt; mirrors = m }
  receive_datagram-Behaved now t session (some (err x, codec)) m =
      quiet-Behaved flows r _
        (record { distinct = m.distinct; same = m.same; count = m.count; next = m.next })
  receive_datagram-Behaved now t session (some (ok none, codec)) m =
      quiet-Behaved flows r _
        (record { distinct = m.distinct; same = m.same; count = m.count; next = m.next })
  receive_datagram-Behaved now t session (some (ok (some message), codec)) m =
      handle_message-Behaved t message _
        (record { distinct = m.distinct; same = m.same; count = m.count; next = m.next })

  connect_reported-Behaved :
      (flow_id : ℕ) (response : UdpSessionMessage) (session : Session) (o : Option ChannelState)
      → lookup flow_id session.channels ≡ o
      → Mirrors r session
      → Behaved flows r (connect_reported context socket flow_id response session o)
  unfolding connect_reported
  connect_reported-Behaved flow_id response session none e m = quiet-Behaved flows r session m
  connect_reported-Behaved flow_id response session (some channel) e m =
      elim (Bool-cases (is_success context socket response)) [
        | inl success ↦ rw success (send_to_peer-Behaved response session [] tt m)
        | inr failure ↦ rw failure (
            send_to_peer-Behaved response _ [] tt
              (Mirrors-dropped r session _ flow_id m channel e refl refl))
      ]

  close_reported-Behaved :
      (flow_id : ℕ) (reason : Option String) (session : Session) (o : Option ChannelState)
      → lookup flow_id session.channels ≡ o
      → Mirrors r session
      → Behaved flows r (close_reported context socket flow_id reason session o)
  unfolding close_reported
  close_reported-Behaved flow_id reason session none e m = quiet-Behaved flows r session m
  close_reported-Behaved flow_id reason session (some channel) e m =
      send_to_peer-Behaved _ _ (forgotten flow_id ∷ [])
        ((channel.abort_handle, m.same flow_id ∙ ap handle_of e), tt)
        (Mirrors-removed r session _ flow_id m channel e refl refl)

  handle_channel_event-Behaved :
      (event : ChannelEvent) (session : Session)
      → Mirrors r session
      → Behaved flows r (handle_channel_event context socket event session)
  unfolding handle_channel_event
  handle_channel_event-Behaved (connect_result flow_id response) session m =
      connect_reported-Behaved flow_id response session _ refl m
  handle_channel_event-Behaved (closed flow_id reason) session m =
      close_reported-Behaved flow_id reason session _ refl m

  pub turn-Behaved :
      (event : SessionEvent) (session : Session)
      → Mirrors r session
      → Behaved flows r (turn context socket event session)
  unfolding turn
  turn-Behaved (idle now) session m = elim (Bool-cases (ltb now session.idle_at)) [
    | inl early ↦ rw early (quiet-Behaved flows r session m)
    | inr over ↦ rw over (record { trace = tt; mirrors = m })
  ]
  turn-Behaved (inbound none now t) session m = record { trace = tt; mirrors = m }
  turn-Behaved (inbound (some datagram) now t) session m =
      receive_datagram-Behaved now t session _ m
  turn-Behaved (outbound none) session m = quiet-Behaved flows r session m
  turn-Behaved (outbound (some message)) session m = send_to_peer-Behaved message session [] tt m
  turn-Behaved (channel_event none) session m = quiet-Behaved flows r session m
  turn-Behaved (channel_event (some event)) session m = handle_channel_event-Behaved event session m
  turn-Behaved joined session m = quiet-Behaved flows r session m
