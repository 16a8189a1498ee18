-- ===== src/ProxyUdp/Listener.antt =====
-- The listener of native UDP: proxy/src/native_udp/listener.rs. An event is what one turn of `run`
-- receives, with what the outside gives in this turn: the time, random keys, and the answer of a
-- session's queue. An error of the socket ends the loop, and with it the events. What is sent and started is the list of effects.
pub mod Explained
use ppaass_ai.Base.{
  ℕ, ◌+◌, ◌%◌, ◌^◌, max, Bool, true, false, ◌&&◌, Option, none, some, List, [], ◌∷◌, ◌++◌, length,
  ltb, leb, ◌==◌, if◌then◌else◌, bytes_eq,
}
use ppaass_ai.Base.Assoc.{lookup, insert, remove, text_eq, tagged_beq}
use ppaass_ai.Base.Result.{Result, ok, err}
use ppaass_ai.UdpTransport.{UdpTransportResult, UdpSessionId, udp_max_datagram_size}
use ppaass_ai.UdpTransport.Header.{
  UdpPacketKind, UdpPacketHeader, auth_init, auth_ok, encrypted, decode,
}
use ppaass_ai.UdpTransport.Codec.{UdpSessionCodec}
use ppaass_ai.UdpTransport.Auth.{UdpAuthInit, decode_auth_init}
use ppaass_ai.Users.{Texts, UsersConfig}
use ppaass_ai.Handshake.{Library}
use ppaass_ai.ProxyUdp.Auth.{ProxyError, PreparedSession, prepare_session}
use ppaass_ai.Base.Queue.{TrySend, taken, full, disconnected}

-- `SocketAddr`: the bytes of the address, and the port.
abbrev pub Peer : Type 0
Peer = List ℕ × ℕ

pub record SessionRoute : Type 0 where
  pub peer : Peer
  pub generation : ℕ
  pub auth_init_datagram : List ℕ
  pub auth_ok_datagram : List ℕ

pub record SessionCleanup : Type 0 where
  pub session_id : UdpSessionId
  pub generation : ℕ

-- The configuration, the users and the libraries.
pub record Settings : Type 0 where
  pub lib : Library
  pub texts : Texts
  pub udp_session_limit : ℕ
  pub replay_attack_tolerance : ℕ
  pub users : UsersConfig

pub record NativeUdpListener : Type 0 where
  pub sessions : List (UdpSessionId × SessionRoute)
  pub next_generation : ℕ

-- What a turn draws on, if it needs it.
pub record Draw : Type 0 where
  pub now : ℕ
  pub master_key : List ℕ
  pub server_nonce : List ℕ
  pub queue : TrySend

pub data ListenerEvent : Type 0 where
  received : Peer → List ℕ → Draw → ListenerEvent
  cleaned_up : Option SessionCleanup → ListenerEvent
  joined : ListenerEvent

-- A session is started with a route and a codec, an AuthInit of a peer is
-- answered by a datagram, or a peer's datagram is given to the session with a generation.
pub data ListenerEffect : Type 0 where
  started : UdpSessionId → SessionRoute → UdpSessionCodec → ListenerEffect
  replied : Peer → List ℕ → List ℕ → ListenerEffect
  given : Peer → UdpSessionId → ℕ → List ℕ → ListenerEffect

abbrev pub Turn : Type 0
Turn = NativeUdpListener × List ListenerEffect

unfoldable pub allocate_generation : NativeUdpListener → ℕ × NativeUdpListener
allocate_generation l =
    (l.next_generation, record l { next_generation = max ((l.next_generation + 1) % 2 ^ 64) 1 })

unfoldable pub remove_route :
    SessionCleanup → NativeUdpListener → Option SessionRoute → NativeUdpListener
remove_route cleanup l none = l
remove_route cleanup l (some route) =
    if route.generation == cleanup.generation
    then (record l { sessions = remove cleanup.session_id l.sessions })
    else l

unfoldable pub remove_session : SessionCleanup → NativeUdpListener → NativeUdpListener
unfolding remove_route
remove_session cleanup l = remove_route cleanup l (lookup cleanup.session_id l.sessions)

unfoldable pub queue_datagram :
    Peer → UdpSessionId → List ℕ → NativeUdpListener → SessionRoute → TrySend → Turn
queue_datagram peer session_id datagram l route taken =
    (l, given peer session_id route.generation datagram ∷ [])
queue_datagram peer session_id datagram l route full = (l, [])
queue_datagram peer session_id datagram l route disconnected =
    (remove_session (record { session_id = session_id; generation = route.generation }) l, [])

unfoldable pub dispatch_route :
    Peer → UdpSessionId → List ℕ → TrySend → NativeUdpListener → Option SessionRoute → Turn
unfolding queue_datagram
dispatch_route peer session_id datagram queue l none = (l, [])
dispatch_route peer session_id datagram queue l (some route) =
    if tagged_beq route.peer peer
    then queue_datagram peer session_id datagram l route queue
    else (l, [])

unfoldable pub dispatch_encrypted :
    Peer → UdpSessionId → List ℕ → TrySend → NativeUdpListener → Turn
unfolding dispatch_route
dispatch_encrypted peer session_id datagram queue l =
    dispatch_route peer session_id datagram queue l (lookup session_id l.sessions)

-- The end of `handle_auth_init`: the session is entered and started, and the reply is sent.
unfoldable pub start_session :
    Peer → List ℕ → UdpSessionId → PreparedSession → NativeUdpListener → Turn
unfolding allocate_generation
start_session peer datagram session_id prepared l =
    let (generation, l') = allocate_generation l in
    let route : SessionRoute = record {
      peer = peer;
      generation = generation;
      auth_init_datagram = datagram;
      auth_ok_datagram = prepared.auth_ok_datagram;
    } in
    (
      record l' { sessions = insert session_id route l'.sessions },
      started session_id route prepared.codec
          ∷ (replied peer datagram prepared.auth_ok_datagram ∷ []),
    )

unfoldable pub start_prepared :
    Peer → List ℕ → UdpSessionId → NativeUdpListener → Result ProxyError PreparedSession → Turn
unfolding start_session
start_prepared peer datagram session_id l (err e) = (l, [])
start_prepared peer datagram session_id l (ok prepared) =
    start_session peer datagram session_id prepared l

module _ (settings : Settings) where
  unfoldable pub authenticate_new :
      Peer → List ℕ → UdpSessionId → UdpAuthInit → Draw → NativeUdpListener → Turn
  unfolding start_prepared
  authenticate_new peer datagram session_id auth draw l =
      if leb settings.udp_session_limit (length l.sessions)
      then (l, [])
      else start_prepared peer datagram session_id l (
          prepare_session settings.lib settings.texts settings.replay_attack_tolerance
            settings.users draw.now draw.master_key draw.server_nonce session_id auth)

  -- With the route that the session has already.
  unfoldable pub answer_auth_init :
      Peer
      → List ℕ
      → UdpSessionId
      → UdpAuthInit
      → Draw
      → NativeUdpListener
      → Option SessionRoute
      → Turn
  unfolding authenticate_new
  answer_auth_init peer datagram session_id auth draw l none =
      authenticate_new peer datagram session_id auth draw l
  answer_auth_init peer datagram session_id auth draw l (some existing) =
      if tagged_beq existing.peer peer && bytes_eq existing.auth_init_datagram datagram
      then (l, replied peer datagram existing.auth_ok_datagram ∷ [])
      else (l, [])

  unfoldable pub handle_decoded :
      Peer
      → List ℕ
      → Draw
      → NativeUdpListener
      → UdpTransportResult (UdpPacketHeader × UdpAuthInit)
      → Turn
  unfolding answer_auth_init
  handle_decoded peer datagram draw l (err e) = (l, [])
  handle_decoded peer datagram draw l (ok (header, auth)) =
      answer_auth_init peer datagram header.session_id auth draw l
        (lookup header.session_id l.sessions)

  unfoldable pub handle_auth_init : Peer → List ℕ → Draw → NativeUdpListener → Turn
  unfolding handle_decoded
  handle_auth_init peer datagram draw l =
      handle_decoded peer datagram draw l (decode_auth_init settings.lib.auth_init datagram)

  unfoldable pub by_kind :
      Peer → List ℕ → Draw → NativeUdpListener → UdpSessionId → UdpPacketKind → Turn
  unfolding handle_auth_init dispatch_encrypted
  by_kind peer datagram draw l session_id auth_init = handle_auth_init peer datagram draw l
  by_kind peer datagram draw l session_id encrypted =
      dispatch_encrypted peer session_id datagram draw.queue l
  by_kind peer datagram draw l session_id auth_ok = (l, [])

  unfoldable pub with_header :
      Peer → List ℕ → Draw → NativeUdpListener → UdpTransportResult UdpPacketHeader → Turn
  unfolding by_kind
  with_header peer datagram draw l (err e) = (l, [])
  with_header peer datagram draw l (ok header) =
      by_kind peer datagram draw l header.session_id header.kind

  unfoldable pub handle_datagram : Peer → List ℕ → Draw → NativeUdpListener → Turn
  unfolding with_header
  handle_datagram peer datagram draw l = with_header peer datagram draw l (decode datagram)

  unfoldable pub listen : ListenerEvent → NativeUdpListener → Turn
  unfolding handle_datagram remove_session
  listen (received peer datagram draw) l =
      if ltb udp_max_datagram_size (length datagram)
      then (l, [])
      else handle_datagram peer datagram draw l
  listen (cleaned_up none) l = (l, [])
  listen (cleaned_up (some c)) l = (remove_session c l, [])
  listen joined l = (l, [])

  -- The loop of `run`, over the events of its turns.
  unfoldable pub run_listener : List ListenerEvent → NativeUdpListener → Turn
  run_listener [] l = (l, [])
  run_listener (event ∷ events) l =
      let (l', effects) = listen event l in
      let (last, more) = run_listener events l' in (last, effects ++ more)

abbrev pub fresh_listener : NativeUdpListener
fresh_listener = record { sessions = []; next_generation = 1 }
