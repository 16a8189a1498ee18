-- ===== src/ProxyUdp/Tests.antt =====
-- The theorems about proxy/src/native_udp at concrete inputs, and runs of the definitions.
use ppaass_ai.Base.{
  ℕ, ◌≡◌, refl, true, Option, none, some, List, [], ◌∷◌, ◌++◌, arith, length, ◌==◌, if◌then◌else◌,
}
use ppaass_ai.Address.{ipv4}
use ppaass_ai.Base.Assoc.{lookup}
use ppaass_ai.Base.Result.{ok}
use ppaass_ai.UdpTransport.Codec.{ping, open_data}
use ppaass_ai.UdpTransport.Wire.{Socket}
use ppaass_ai.UdpTransport.Tests.Session.{
  plain, pings, receiving, receiving-IsReceiver, ping_datagram,
}
use ppaass_ai.Base.Queue.{taken}
use ppaass_ai.ProxyUdp.Session.{
  SessionContext, Session, SessionEvent, inbound, outbound, channel_event, closed, spawned,
  finished, run_session, handle_message,
}
use ppaass_ai.UdpTransport.Wire.Live.{IsLive}
use ppaass_ai.ProxyUdp.Session.Numbers.{Turned, run_session-Turned}
use ppaass_ai.ProxyUdp.Session.Flows.{Registry, Mirrors, Behaved, observe_all}
use ppaass_ai.ProxyUdp.Session.Flows.Runs.{run_session-IsTrace}
use ppaass_ai.UdpTransport.Header
use ppaass_ai.UdpTransport.Header.{header_bytes}
use ppaass_ai.Users.Tests.{texts, users}
use ppaass_ai.Handshake.Tests.{lib, secret, session}
use ppaass_ai.ProxyUdp.Listener.{
  Settings, Peer, Draw, ListenerEvent, received, cleaned_up, fresh_listener, run_listener,
}
use ppaass_ai.ProxyUdp.Listener.Explained.{AreExplained, IsBacked, logged}
use ppaass_ai.ProxyUdp.Listener.Explained.Runs.{run_listener-AreExplained}

abbrev context : SessionContext
context = record {
  aead = plain;
  serde = pings;
  udp_session_max_flows = 2;
  udp_relay_idle_timeout_secs = 60;
  limit_reached = λ n. "limit";
}

abbrev all_sent : Socket
all_sent datagram = ok (length datagram)

abbrev started : Session
started = record { codec = receiving; channels = []; idle_at = 1000; tasks = 0 }

abbrev with_flow : Session
with_flow = record {
  codec = receiving;
  channels = (7, record { input_tx = true; abort_handle = 0 }) ∷ [];
  idle_at = 1000;
  tasks = 1;
}

abbrev events : List (Socket × SessionEvent)
events =
    (all_sent, inbound (some ping_datagram) 5 taken)
    ∷ (all_sent, outbound (some (ping 3)))
    ∷ (all_sent, channel_event (some (closed 7 none)))
    ∷ (all_sent, inbound none 6 taken)
    ∷ []

receiving-IsLive : IsLive receiving
receiving-IsLive = record {
  sender = record {
    session = record { session_id = refl; session_bytes = ground arith; next = omega arith };
    message_id = omega arith;
  };
  receiver = ([], receiving-IsReceiver);
}

run_session-Turned_example : Turned receiving (run_session context events started)
run_session-Turned_example = run_session-Turned context events started receiving-IsLive

abbrev only_seven : ℕ → Option ℕ
only_seven k = if 7 == k then some 0 else none

abbrev registry : Registry
registry = record { task_of = only_seven; count = 1; next = 1 }

registry-Mirrors : Mirrors registry with_flow
unfolding lookup
registry-Mirrors = record {
  distinct = (refl, tt);
  same = λ k. ground arith;
  count = refl;
  next = refl;
}

run_session-IsTrace_example :
    Behaved 2 registry (run_session context events with_flow)
    × ((run_session context events with_flow).outcome ≡ finished
        → (observe_all (run_session context events with_flow).effects registry).count ≡ 0)
run_session-IsTrace_example = run_session-IsTrace context events with_flow registry registry-Mirrors

-- A flow is opened, given a packet and closed; a third flow would be too many.
opens_flow :
    (handle_message context all_sent taken
      (open_data 9 (ipv4 (1 ∷ 1 ∷ 1 ∷ 1 ∷ []) 53) (5 ∷ []))
      with_flow).effects
    ≡ spawned 9 1 (ipv4 (1 ∷ 1 ∷ 1 ∷ 1 ∷ []) 53) (5 ∷ []) ∷ []
unfolding handle_message lookup
opens_flow = refl

opens_once :
    (handle_message context all_sent taken
      (open_data 7 (ipv4 (1 ∷ 1 ∷ 1 ∷ 1 ∷ []) 53) (5 ∷ []))
      with_flow).effects
    ≡ []
unfolding handle_message lookup
opens_once = refl

-- The listener, with a client that sends its AuthInit twice and then a datagram.
abbrev listener_settings : Settings
listener_settings = record {
  lib = lib;
  texts = texts;
  udp_session_limit = 4;
  replay_attack_tolerance = 30;
  users = users;
}

abbrev client : Peer
client = (127 ∷ 0 ∷ 0 ∷ 1 ∷ [], 9000)

abbrev init_datagram : List ℕ
init_datagram = header_bytes (Header.new Header.auth_init session 0 0 0 1 2) ++ (97 ∷ 109 ∷ [])

abbrev draw : Draw
draw = record {
  now = 5;
  master_key = secret.master_key;
  server_nonce = secret.server_nonce;
  queue = taken;
}

abbrev arrivals : List ListenerEvent
arrivals =
    received client init_datagram draw
    ∷ received client init_datagram draw
    ∷ received client ping_datagram draw
    ∷ cleaned_up (some (record { session_id = session; generation = 1 }))
    ∷ []

fresh-IsBacked : IsBacked listener_settings [] fresh_listener
unfolding lookup
fresh-IsBacked = record {
  distinct = tt;
  backed = λ k route e. absurd (cc);
  limit = omega arith;
  newest = tt;
}

run_listener-AreExplained_example :
    AreExplained listener_settings [] (run_listener listener_settings arrivals fresh_listener).1
    × IsBacked listener_settings
        (logged (run_listener listener_settings arrivals fresh_listener).1 [])
        (run_listener listener_settings arrivals fresh_listener).0
run_listener-AreExplained_example =
    run_listener-AreExplained listener_settings arrivals [] fresh_listener fresh-IsBacked
      (omega arith)
