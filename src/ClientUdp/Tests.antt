-- ===== src/ClientUdp/Tests.antt =====
-- The theorems about common/src/client_connection/udp.rs at concrete inputs, and runs of the
-- definitions.
use ppaass_ai.Base.{
  ℕ, ◌<◌, All, ◌≡◌, ◌≤◌, ◌^◌, ◌-◌, refl, true, false, some, List, [], ◌∷◌, arith, length,
}
use ppaass_ai.Address.{Address, ipv4}
use ppaass_ai.Base.Queue.{taken}
use ppaass_ai.Base.Result.{ok}
use ppaass_ai.UdpTransport.Wire.{Socket}
use ppaass_ai.UdpTransport.Wire.Live.{IsLive}
use ppaass_ai.UdpTransport.Tests.Session.{
  plain, pings, receiving-IsReceiver, receiving, ping_datagram,
}
use ppaass_ai.ClientUdp.Driver.{
  DriverContext, Driver, DriverEvent, command, received, tick, register, send_open,
  run_session_driver,
}
use ppaass_ai.ClientUdp.Driver.Numbers.{Drives, run_session_driver-Drives}
use ppaass_ai.ClientUdp.Stream.{ready, short_datagram_buffer, not_ready, reserved, pending}
use ppaass_ai.ClientUdp.Stream.Reads.{
  arrived, hung_up, reading, ReadEvent, run_reads, run_fifo, waiting, run_reads-eq-run_fifo,
}
use ppaass_ai.ClientUdp.Stream.Writes.{
  WriteEvent, writing, shutting_down, run_writes, conversation, payload_commands, closes,
  run_writes_lem,
}
use ppaass_ai.ClientUdp.Connection.{UdpClientConnection, ConnectCall, new_stream, run_calls}
use ppaass_ai.ClientUdp.Connection.Unique.{AreUnique}
use ppaass_ai.ClientUdp.Connection.FlowIds.{held, all_calling, run_calls-AreUnique}

abbrev context : DriverContext
context = record { aead = plain; serde = pings; configured_timeout = 5000000000 }

abbrev all_sent : Socket
all_sent datagram = ok (length datagram)

abbrev driver : Driver
driver = record { codec = receiving; streams = []; ping_token = 0; last_authenticated_receive = 0 }

receiving-IsLive : IsLive receiving
receiving-IsLive = record {
  sender = record {
    session = record { session_id = refl; session_bytes = ground arith; next = omega arith };
    message_id = omega arith;
  };
  receiver = ([], receiving-IsReceiver);
}

abbrev target : Address
target = ipv4 (127 ∷ 0 ∷ 0 ∷ 1 ∷ []) 53

abbrev turns : List (Socket × DriverEvent)
turns =
    (all_sent, command (some (register 7 0)))
    ∷ (all_sent, command (some (send_open 7 target (1 ∷ []))))
    ∷ (all_sent, received (ok ping_datagram) 5 taken)
    ∷ (all_sent, tick 15000000000)
    ∷ []

run_session_driver-Drives_example : Drives receiving (run_session_driver context turns driver)
run_session_driver-Drives_example = run_session_driver-Drives context turns driver receiving-IsLive

-- As the test of the source: a short buffer is refused, and the datagram stays.
abbrev reads : List ReadEvent
reads =
    arrived (1 ∷ 2 ∷ 3 ∷ 4 ∷ [])
    ∷ reading 3
    ∷ arrived []
    ∷ reading 4
    ∷ reading 4
    ∷ hung_up
    ∷ reading 4
    ∷ []

run_reads-eq-run_fifo_example :
    run_reads reads (new_stream 1 target) ≡ run_fifo reads false (waiting (new_stream 1 target))
run_reads-eq-run_fifo_example = run_reads-eq-run_fifo reads (new_stream 1 target)

read_whole_datagrams :
    run_fifo reads false []
    ≡ short_datagram_buffer 3 4 ∷ ready (1 ∷ 2 ∷ 3 ∷ 4 ∷ []) ∷ not_ready ∷ ready [] ∷ []
unfolding run_fifo
read_whole_datagrams = refl

-- As the test of the source: the first write opens the flow.
abbrev writes : List WriteEvent
writes =
    writing (1 ∷ []) pending
    ∷ writing (1 ∷ []) (reserved true)
    ∷ writing [] (reserved true)
    ∷ writing (2 ∷ []) (reserved true)
    ∷ shutting_down (reserved true)
    ∷ []

run_writes_lem_example :
    (payload_commands (run_writes writes true (new_stream 7 target)).0
      ≡ conversation 7 (some target) (run_writes writes true (new_stream 7 target)).1)
    × (closes (run_writes writes true (new_stream 7 target)).0 ≤ 1)
run_writes_lem_example = run_writes_lem writes true (new_stream 7 target)

abbrev call : ConnectCall
call = record {
  address = target;
  is_udp = true;
  queue_closed = false;
  accepted = true;
  inbound_tx = 0;
}

abbrev connection : UdpClientConnection
connection = record { next_flow_id = 2 ^ 64 - 2; closed = false }

-- Three calls that check the session before one of them finds that the identifiers have run out.
abbrev schedule : List ℕ
schedule = 0 ∷ 1 ∷ 2 ∷ 0 ∷ 1 ∷ 2 ∷ 1 ∷ 2 ∷ 0 ∷ []

wrapped :
    held (run_calls schedule (all_calling (call ∷ call ∷ call ∷ [])) connection).0
    ≡ (2 ^ 64 - 2) ∷ 0 ∷ []
unfolding run_calls
wrapped = refl

run_calls-AreUnique_example :
    AreUnique (held (run_calls schedule (all_calling (call ∷ call ∷ call ∷ [])) connection).0)
    × All
        (λ i. i < 2 ^ 64 - 1)
        (held (run_calls schedule (all_calling (call ∷ call ∷ call ∷ [])) connection).0)
run_calls-AreUnique_example =
    run_calls-AreUnique (call ∷ call ∷ call ∷ []) connection schedule (omega arith) (omega arith)
