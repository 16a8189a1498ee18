-- ===== src/ProxyUdp/Listener/Explained.antt =====
-- The effects of the listener of proxy/src/native_udp/listener.rs against a log of the sessions that it
-- started before.
pub mod Dispatch
pub mod Turns
pub mod Runs
use ppaass_ai.Base.{
  ℕ, suc, ◌+◌, ◌^◌, ◌<◌, ◌≤◌, ◌≡◌, refl, ◌⊎◌, inl, inr, Option, none, some, List, [], ◌∷◌, ◌++◌,
  length, arith,
}
use ppaass_ai.Base.Assoc.{lookup, text_eq, IsMap}
use ppaass_ai.Base.Result.{ok}
use ppaass_ai.UdpTransport.{UdpSessionId}
use ppaass_ai.UdpTransport.Header.{UdpPacketHeader, decode}
use ppaass_ai.UdpTransport.Codec.{UdpSessionCodec}
use ppaass_ai.UdpTransport.Auth.{UdpAuthInit, decode_auth_init}
use ppaass_ai.ProxyUdp.Auth.{prepare_session}
use ppaass_ai.ProxyUdp.Listener.{
  Settings, SessionRoute, NativeUdpListener, ListenerEffect, started, replied, given, Draw, Peer,
}

-- A log of effects, the newest first.
abbrev pub Log : Type 0
Log = List ListenerEffect

abbrev pub Starts : UdpSessionId → SessionRoute → ListenerEffect → Type 0
Starts session_id route (started s r codec) = (s ≡ session_id) × (r ≡ route)
Starts session_id route _ = ⊥

abbrev pub WasStarted : Log → UdpSessionId → SessionRoute → Type 0
WasStarted [] session_id route = ⊥
WasStarted (e ∷ log) session_id route = Starts session_id route e ⊎ WasStarted log session_id route

-- Every session so far has a smaller generation.
abbrev pub IsNewest : Log → ℕ → Type 0
IsNewest [] generation = Unit
IsNewest (started s r codec ∷ log) generation =
    (r.generation < generation) × IsNewest log generation
IsNewest (replied peer request reply ∷ log) generation = IsNewest log generation
IsNewest (given peer s g datagram ∷ log) generation = IsNewest log generation

-- The session was asked for by the packet that its route keeps, and was prepared for it.
pub record IsAuthenticated (settings : Settings) (session_id : UdpSessionId) (route : SessionRoute)
    (codec : UdpSessionCodec) : Type 0 where
  pub header : UdpPacketHeader
  pub auth : UdpAuthInit
  pub draw : Draw
  pub asked : decode_auth_init settings.lib.auth_init route.auth_init_datagram ≡ ok (header, auth)
  pub named : header.session_id ≡ session_id
  pub prepared :
      prepare_session settings.lib settings.texts settings.replay_attack_tolerance settings.users
        draw.now draw.master_key draw.server_nonce session_id auth
      ≡ ok (record { codec = codec; auth_ok_datagram = route.auth_ok_datagram })

-- A session is started with an authentication, under a generation above all before it; a reply goes to
-- the peer that started a session with the same request, and is the reply of that session; a datagram is
-- given to the session that it names, if its peer started it.
abbrev pub IsExplained : Settings → Log → ListenerEffect → Type 0
IsExplained settings log (started session_id route codec) =
    IsAuthenticated settings session_id route codec × IsNewest log route.generation
IsExplained settings log (replied peer request reply) =
    (session_id : UdpSessionId) × (route : SessionRoute) × WasStarted log session_id route
    × (route.peer ≡ peer)
    × (route.auth_init_datagram ≡ request)
    × (route.auth_ok_datagram ≡ reply)
IsExplained settings log (given peer session_id generation datagram) =
    (route : SessionRoute) × WasStarted log session_id route
    × (route.peer ≡ peer)
    × (route.generation ≡ generation)
    × ((header : UdpPacketHeader) × (decode datagram ≡ ok header)
        × (header.session_id ≡ session_id))

abbrev pub AreExplained : Settings → Log → List ListenerEffect → Type 0
AreExplained settings log [] = Unit
AreExplained settings log (e ∷ es) = IsExplained settings log e × AreExplained settings (e ∷ log) es

abbrev pub logged : List ListenerEffect → Log → Log
logged [] log = log
logged (e ∷ es) log = logged es (e ∷ log)

-- The sessions of the listener are among those of the log, within the limit, and the next generation
-- is above all of the log.
pub record IsBacked (settings : Settings) (log : Log) (l : NativeUdpListener) : Type 0 where
  pub distinct : IsMap l.sessions
  pub backed :
      (k : UdpSessionId) (route : SessionRoute)
      → lookup k l.sessions ≡ some route
      → WasStarted log k route
  pub limit : length l.sessions ≤ settings.udp_session_limit
  pub newest : IsNewest log l.next_generation

pub logged-append :
    (xs ys : List ListenerEffect) (log : Log) → logged (xs ++ ys) log ≡ logged ys (logged xs log)
logged-append [] ys log = refl
logged-append (x ∷ xs) ys log = logged-append xs ys (x ∷ log)

pub AreExplained-append :
    (settings : Settings) (xs ys : List ListenerEffect) (log : Log)
    → AreExplained settings log xs
    → AreExplained settings (logged xs log) ys
    → AreExplained settings log (xs ++ ys)
AreExplained-append settings [] ys log p q = q
AreExplained-append settings (x ∷ xs) ys log (p, ps) q =
    (p, AreExplained-append settings xs ys (x ∷ log) ps q)

pub IsNewest-mono : (log : Log) (m n : ℕ) → m ≤ n → IsNewest log m → IsNewest log n
IsNewest-mono [] m n le h = tt
IsNewest-mono (started s r codec ∷ log) m n le (h, hs) = (omega arith, IsNewest-mono log m n le hs)
IsNewest-mono (replied peer request reply ∷ log) m n le h = IsNewest-mono log m n le h
IsNewest-mono (given peer s g datagram ∷ log) m n le h = IsNewest-mono log m n le h
