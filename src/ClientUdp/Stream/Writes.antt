-- ===== src/ClientUdp/Stream/Writes.antt =====
-- The commands of a stream of common/src/client_connection/udp.rs.
use ppaass_ai.Base.{
  ℕ, ◌+◌, ◌≤◌, ◌≡◌, refl, ap, inl, inr, Bool, Bool-cases, true, false, Option, none, some, List, [],
  ◌∷◌, ◌++◌, map, arith, if◌then◌else◌,
}
use ppaass_ai.Address.{Address}
use ppaass_ai.ClientUdp.Driver.{ClientCommand, send_open, send_data, send_close}
use ppaass_ai.ClientUdp.Stream.{
  UdpClientStream, Reserve, reserved, closed, pending, WriteResult, written, not_connected,
  write_pending, command_for, write_reserved, poll_write, shutdown_reserved, poll_shutdown,
  drop_stream,
}

pub data WriteEvent : Type 0 where
  writing : List ℕ → Reserve → WriteEvent
  shutting_down : Reserve → WriteEvent

-- The commands of a run of calls, up to the drop of the stream, and the payloads that the calls
-- reported as written.
abbrev pub reported : List ℕ → WriteResult → List (List ℕ)
reported [] result = []
reported (b ∷ buf) (written n) = (b ∷ buf) ∷ []
reported (b ∷ buf) not_connected = []
reported (b ∷ buf) write_pending = []

pub run_writes : List WriteEvent → Bool → UdpClientStream → List ClientCommand × List (List ℕ)
run_writes [] accepts s = (drop_stream accepts s, [])
run_writes (writing buf answer ∷ events) accepts s =
    let (result, s', commands) = poll_write buf answer s in
    let (more, payloads) = run_writes events accepts s' in
    (commands ++ more, reported buf result ++ payloads)
run_writes (shutting_down answer ∷ events) accepts s =
    let (result, s', commands) = poll_shutdown answer s in
    let (more, payloads) = run_writes events accepts s' in (commands ++ more, payloads)

-- What is to be sent for the payloads of a flow: the first opens it, if it is not open.
abbrev pub conversation : ℕ → Option Address → List (List ℕ) → List ClientCommand
conversation flow_id none payloads = map (send_data flow_id) payloads
conversation flow_id (some address) [] = []
conversation flow_id (some address) (payload ∷ payloads) =
    send_open flow_id address payload ∷ map (send_data flow_id) payloads

abbrev pub payload_commands : List ClientCommand → List ClientCommand
payload_commands [] = []
payload_commands (send_close flow_id ∷ commands) = payload_commands commands
payload_commands (c ∷ commands) = c ∷ payload_commands commands

abbrev pub closes : List ClientCommand → ℕ
closes [] = 0
closes (send_close flow_id ∷ commands) = 1 + closes commands
closes (c ∷ commands) = closes commands

-- At most one, none if it was sent.
abbrev may_close : Bool → ℕ
may_close close_sent = if close_sent then 0 else 1

-- What a run leaves, for the stream that it starts from.
abbrev IsConversation : UdpClientStream → List ClientCommand × List (List ℕ) → Type 0
IsConversation s (commands, payloads) =
    (payload_commands commands ≡ conversation s.flow_id s.open_address payloads)
    × (closes commands ≤ may_close s.close_sent)

conversation-nil : (flow_id : ℕ) (o : Option Address) → [] ≡ conversation flow_id o []
conversation-nil flow_id none = refl
conversation-nil flow_id (some address) = refl

drop_stream-IsConversation :
    (accepts : Bool) (s : UdpClientStream) → IsConversation s (drop_stream accepts s, [])
unfolding drop_stream
drop_stream-IsConversation accepts s = elim (Bool-cases s.close_sent) [
  | inl sent ↦ simp sent (conversation-nil s.flow_id s.open_address, omega arith)
  | inr open_ ↦ elim (Bool-cases accepts) [
    | inl there ↦ simp (open_, there) (conversation-nil s.flow_id s.open_address, omega arith)
    | inr gone ↦ simp (open_, gone) (conversation-nil s.flow_id s.open_address, omega arith)
  ]
]

first_command :
    (flow_id : ℕ) (o : Option Address) (payload : List ℕ) (commands : List ClientCommand)
    (payloads : List (List ℕ))
    → payload_commands commands ≡ conversation flow_id none payloads
    → (payload_commands (command_for flow_id o payload ∷ commands)
        ≡ conversation flow_id o (payload ∷ payloads))
      × (closes (command_for flow_id o payload ∷ commands) ≡ closes commands)
first_command flow_id none payload commands payloads e =
    (ap (λ (t : List ClientCommand). send_data flow_id payload ∷ t) e, refl)
first_command flow_id (some address) payload commands payloads e =
    (ap (λ (t : List ClientCommand). send_open flow_id address payload ∷ t) e, refl)

-- The calls after a `poll_shutdown` of an open stream are as good as the stream that it leaves.
shutdown_reserved-IsConversation :
    (s : UdpClientStream) (answer : Reserve)
    (later : UdpClientStream → List ClientCommand × List (List ℕ))
    → s.close_sent ≡ false
    → ((t : UdpClientStream) → IsConversation t (later t))
    → IsConversation s (
      (shutdown_reserved s answer).2 ++ (later (shutdown_reserved s answer).1).0,
      (later (shutdown_reserved s answer).1).1,
    )
unfolding shutdown_reserved
shutdown_reserved-IsConversation s (reserved true) later open_ h =
    let (same, few) = h (record s { close_sent = true }) in (same, rw open_ (omega arith))
shutdown_reserved-IsConversation s (reserved false) later open_ h = h s
shutdown_reserved-IsConversation s closed later open_ h =
    let (same, few) = h (record s { close_sent = true }) in (same, rw open_ (omega arith))
shutdown_reserved-IsConversation s pending later open_ h = h s

poll_shutdown-sent :
    (answer : Reserve) (s : UdpClientStream)
    → s.close_sent ≡ true
    → poll_shutdown answer s ≡ (written 0, s, [])
unfolding poll_shutdown
poll_shutdown-sent answer s e = simp e

poll_shutdown-open :
    (answer : Reserve) (s : UdpClientStream)
    → s.close_sent ≡ false
    → poll_shutdown answer s ≡ shutdown_reserved s answer
unfolding poll_shutdown
poll_shutdown-open answer s e = simp e

-- Of a run, whatever the queue answers: the payload commands are those of the payloads that were reported
-- as written, in order, the first of them opening the flow with its address; and the flow is closed at
-- most once, and not again if it was closed.
pub run_writes_lem :
    (events : List WriteEvent) (accepts : Bool) (s : UdpClientStream)
    → (payload_commands (run_writes events accepts s).0
        ≡ conversation s.flow_id s.open_address (run_writes events accepts s).1)
      × (closes (run_writes events accepts s).0 ≤ may_close s.close_sent)
unfolding run_writes poll_write write_reserved
run_writes_lem [] accepts s = drop_stream-IsConversation accepts s
run_writes_lem (writing [] answer ∷ events) accepts s = run_writes_lem events accepts s
run_writes_lem (writing (b ∷ buf) (reserved true) ∷ events) accepts s =
    let t : UdpClientStream = record s { open_address = none } in
    let (same, few) = run_writes_lem events accepts t in
    let (first, counted) =
      first_command s.flow_id s.open_address (b ∷ buf) (run_writes events accepts t).0
        (run_writes events accepts t).1 same in
    (first, omega (arith, counted))
run_writes_lem (writing (b ∷ buf) (reserved false) ∷ events) accepts s =
    run_writes_lem events accepts s
run_writes_lem (writing (b ∷ buf) closed ∷ events) accepts s = run_writes_lem events accepts s
run_writes_lem (writing (b ∷ buf) pending ∷ events) accepts s = run_writes_lem events accepts s
run_writes_lem (shutting_down answer ∷ events) accepts s = elim (Bool-cases s.close_sent) [
  | inl sent ↦ rw (poll_shutdown-sent answer s sent) (run_writes_lem events accepts s)
  | inr open_ ↦ rw (poll_shutdown-open answer s open_) (
      shutdown_reserved-IsConversation s answer (run_writes events accepts) open_
        (λ t. run_writes_lem events accepts t))
]
