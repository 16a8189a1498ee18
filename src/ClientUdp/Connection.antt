-- ===== src/ClientUdp/Connection.antt =====
-- Opening flows on a session: UdpClientConnection of common/src/client_connection/udp.rs.
pub mod Unique
pub mod FlowIds
use ppaass_ai.Base.{
  ℕ, zero, suc, ◌+◌, ◌-◌, ◌%◌, ◌^◌, Bool, true, false, not, ◌||◌, some, none, List, [], ◌∷◌, ◌++◌,
  ◌==◌, if◌then◌else◌,
}
use ppaass_ai.Address.{Address}
use ppaass_ai.Base.Result.{Result, ok, err}
use ppaass_ai.ClientUdp.Driver.{ClientCommand, register}
use ppaass_ai.ClientUdp.Stream.{UdpClientStream}

-- The counter and the flag that all clones share.
pub record UdpClientConnection : Type 0 where
  pub next_flow_id : ℕ
  pub closed : Bool

pub data ConnectError : Type 0 where
  only_udp session_closed ids_exhausted : ConnectError

-- A call: its target, whether the transport is UDP, whether the command queue is closed then and whether
-- it takes the command, and the number of the new stream's queue.
pub record ConnectCall : Type 0 where
  pub address : Address
  pub is_udp : Bool
  pub queue_closed : Bool
  pub accepted : Bool
  pub inbound_tx : ℕ

-- The end of `connect`: the first identifier is random, and not 0.
unfoldable pub connected_with : ℕ → UdpClientConnection
connected_with random = record { next_flow_id = if random == 0 then 1 else random; closed = false }

abbrev pub new_stream : ℕ → Address → UdpClientStream
new_stream flow_id address = record {
  flow_id = flow_id;
  open_address = some address;
  inbound = [];
  ended = false;
  read_buf = [];
  read_pos = 0;
  close_sent = false;
}

-- Where a call of `connect_to_target` is: each of its operations on what the clones share is a step of its
-- own, and between two of them other calls may take theirs.
pub data ConnectState : Type 0 where
  calling checked exhausted : ConnectState
  took : ℕ → ConnectState
  done : Result ConnectError UdpClientStream → ConnectState

abbrev pub Connecting : Type 0
Connecting = ConnectState × UdpClientConnection × List ClientCommand

-- The test of the transport, and `is_closed`.
unfoldable pub check_session : ConnectCall → UdpClientConnection → ConnectState
check_session call conn =
    if not call.is_udp
    then done (err only_udp)
    else if conn.closed || call.queue_closed
    then done (err session_closed)
    else checked

-- `fetch_add`, and the test of what it gives.
unfoldable pub take_flow_id : UdpClientConnection → Connecting
take_flow_id conn = (
  if conn.next_flow_id == 2 ^ 64 - 1 then exhausted else took conn.next_flow_id,
  record conn { next_flow_id = (conn.next_flow_id + 1) % 2 ^ 64 },
  [],
)

-- `Register` is sent, or the queue is closed.
unfoldable pub register_flow : ConnectCall → ℕ → UdpClientConnection → Connecting
register_flow call flow_id conn =
    if call.accepted
    then (done (ok (new_stream flow_id call.address)), conn, register flow_id call.inbound_tx ∷ [])
    else (done (err session_closed), conn, [])

unfoldable pub connect_step : ConnectCall → ConnectState → UdpClientConnection → Connecting
unfolding check_session take_flow_id register_flow
connect_step call calling conn = (check_session call conn, conn, [])
connect_step call checked conn = take_flow_id conn
connect_step call exhausted conn = (done (err ids_exhausted), record conn { closed = true }, [])
connect_step call (took flow_id) conn = register_flow call flow_id conn
connect_step call (done result) conn = (done result, conn, [])

abbrev pub Calls : Type 0
Calls = List (ConnectCall × ConnectState)

-- One call takes its next step.
unfoldable pub step_at :
    ℕ → Calls → UdpClientConnection → Calls × UdpClientConnection × List ClientCommand
unfolding connect_step
step_at i [] conn = ([], conn, [])
step_at zero ((call, state) ∷ calls) conn =
    let (state', conn', commands) = connect_step call state conn in
    ((call, state') ∷ calls, conn', commands)
step_at (suc i) (first ∷ calls) conn =
    let (calls', conn', commands) = step_at i calls conn in (first ∷ calls', conn', commands)

-- The calls take steps in this order.
unfoldable pub run_calls :
    List ℕ → Calls → UdpClientConnection → Calls × UdpClientConnection × List ClientCommand
unfolding step_at
run_calls [] calls conn = (calls, conn, [])
run_calls (i ∷ turns) calls conn =
    let (calls1, conn1, commands) = step_at i calls conn in
    let (calls2, conn2, more) = run_calls turns calls1 conn1 in (calls2, conn2, commands ++ more)
