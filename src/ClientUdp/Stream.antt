-- ===== src/ClientUdp/Stream.antt =====
-- The stream of a flow: UdpClientStream of common/src/client_connection/udp.rs. The queue of received
-- datagrams is part of the state; what the queue of commands answers is an argument.
pub mod Reads
pub mod Writes
use ppaass_ai.Base.{
  ℕ, Bool, true, false, Option, none, some, List, [], ◌∷◌, length, drop, ltb, ◌==◌, if◌then◌else◌,
}
use ppaass_ai.Address.{Address}
use ppaass_ai.ClientUdp.Driver.{ClientCommand, send_open, send_data, send_close}

-- `inbound` holds what `inbound_rx` will give; `ended` says that its senders are gone.
pub record UdpClientStream : Type 0 where
  pub flow_id : ℕ
  pub open_address : Option Address
  pub inbound : List (List ℕ)
  pub ended : Bool
  pub read_buf : List ℕ
  pub read_pos : ℕ
  pub close_sent : Bool

-- What is put into the caller's buffer, nothing at the end; or an error with the room that there is and
-- the room that is needed.
pub data ReadResult : Type 0 where
  ready : List ℕ → ReadResult
  short_datagram_buffer : ℕ → ℕ → ReadResult
  not_ready : ReadResult

-- A datagram in `read_buf`, none of which has been read.
unfoldable pub read_whole : ℕ → List ℕ → UdpClientStream → ReadResult × UdpClientStream
read_whole remaining datagram s =
    if ltb remaining (length datagram)
    then (
      short_datagram_buffer remaining (length datagram),
      record s { read_buf = datagram; read_pos = 0 },
    )
    else (ready datagram, record s { read_buf = datagram; read_pos = length datagram })

-- The loop over `poll_recv`, which passes over empty datagrams.
unfoldable pub receive_next : ℕ → List (List ℕ) → UdpClientStream → ReadResult × UdpClientStream
unfolding read_whole
receive_next remaining [] s = (
  if s.ended then ready [] else not_ready,
  record s { inbound = []; read_buf = []; read_pos = 0 },
)
receive_next remaining ([] ∷ rest) s = receive_next remaining rest s
receive_next remaining ((b ∷ bytes) ∷ rest) s =
    read_whole remaining (b ∷ bytes) (record s { inbound = rest })

unfoldable pub read_rest : ℕ → List ℕ → UdpClientStream → ReadResult × UdpClientStream
read_rest remaining rest s =
    if ltb remaining (length rest)
    then (short_datagram_buffer remaining (length rest), s)
    else (ready rest, record s { read_pos = length s.read_buf })

unfoldable pub poll_read : ℕ → UdpClientStream → ReadResult × UdpClientStream
unfolding read_rest receive_next
poll_read remaining s =
    if remaining == 0
    then (ready [], s)
    else if ltb s.read_pos (length s.read_buf)
    then read_rest remaining (drop s.read_pos s.read_buf) s
    else receive_next remaining s.inbound s

-- The answers of `poll_reserve`, and of `send_item` after it.
pub data Reserve : Type 0 where
  reserved : Bool → Reserve
  closed pending : Reserve

pub data WriteResult : Type 0 where
  written : ℕ → WriteResult
  not_connected write_pending : WriteResult

abbrev pub Written : Type 0
Written = WriteResult × UdpClientStream × List ClientCommand

abbrev pub command_for : ℕ → Option Address → List ℕ → ClientCommand
command_for flow_id none buf = send_data flow_id buf
command_for flow_id (some address) buf = send_open flow_id address buf

unfoldable pub write_reserved : List ℕ → UdpClientStream → Reserve → Written
write_reserved buf s (reserved true) = (
  written (length buf),
  record s { open_address = none },
  command_for s.flow_id s.open_address buf ∷ [],
)
write_reserved buf s (reserved false) = (not_connected, s, [])
write_reserved buf s closed = (not_connected, s, [])
write_reserved buf s pending = (write_pending, s, [])

unfoldable pub poll_write : List ℕ → Reserve → UdpClientStream → Written
unfolding write_reserved
poll_write [] answer s = (written 0, s, [])
poll_write (b ∷ buf) answer s = write_reserved (b ∷ buf) s answer

unfoldable pub shutdown_reserved : UdpClientStream → Reserve → Written
shutdown_reserved s (reserved true) =
    (written 0, record s { close_sent = true }, send_close s.flow_id ∷ [])
shutdown_reserved s (reserved false) = (not_connected, s, [])
shutdown_reserved s closed = (written 0, record s { close_sent = true }, [])
shutdown_reserved s pending = (write_pending, s, [])

-- `written 0` stands for the empty success.
unfoldable pub poll_shutdown : Reserve → UdpClientStream → Written
unfolding shutdown_reserved
poll_shutdown answer s = if s.close_sent then (written 0, s, []) else shutdown_reserved s answer

-- `Drop`: whether there is a sender, and its queue takes the command.
unfoldable pub drop_stream : Bool → UdpClientStream → List ClientCommand
drop_stream accepts s =
    if s.close_sent then [] else if accepts then send_close s.flow_id ∷ [] else []
