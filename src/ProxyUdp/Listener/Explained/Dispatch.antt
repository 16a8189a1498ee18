-- ===== src/ProxyUdp/Listener/Explained/Dispatch.antt =====
-- Removing a session and giving it a datagram, in proxy/src/native_udp/listener.rs.
use ppaass_ai.Base.{
  ℕ, ◌+◌, ◌≤◌, ◌≡◌, refl, inl, inr, Bool-cases, Option, none, some, List, [], arith, ◌==◌,
  if◌then◌else◌, bytes_eq,
}
use ppaass_ai.Base.Assoc.{
  lookup, remove, text_eq, tagged_beq, tagged_beq_iff, lookup-remove, remove-IsMap, length-remove,
}
use ppaass_ai.Base.Result.{ok}
use ppaass_ai.UdpTransport.{UdpSessionId}
use ppaass_ai.UdpTransport.Header.{UdpPacketHeader, decode}
use ppaass_ai.Base.Queue.{TrySend, taken, full, disconnected}
use ppaass_ai.ProxyUdp.Listener.{
  Settings, SessionRoute, SessionCleanup, NativeUdpListener, Peer, Turn, remove_route,
  remove_session, queue_datagram, dispatch_route,
}
use ppaass_ai.ProxyUdp.Listener.Explained.{Log, AreExplained, logged, IsBacked}

-- What a turn leaves: its effects are explained, its sessions backed, and at most one generation was
-- used.
pub record IsTurn (settings : Settings) (log : Log) (l : NativeUdpListener) (turn : Turn)
    : Type 0 where
  pub explained : AreExplained settings log turn.1
  pub backed : IsBacked settings (logged turn.1 log) turn.0
  pub generations : turn.0.next_generation ≤ l.next_generation + 1

module _ (settings : Settings) (log : Log) (l : NativeUdpListener)
    (b : IsBacked settings log l) where
  pub idle-IsTurn : IsTurn settings log l (l, [])
  idle-IsTurn = record { explained = tt; backed = b; generations = omega arith }

  removed-IsBacked :
      (k : UdpSessionId) (route : SessionRoute)
      → lookup k l.sessions ≡ some route
      → IsBacked settings log (record l { sessions = remove k l.sessions })
  removed-IsBacked k route there = record {
    distinct = remove-IsMap k l.sessions b.distinct;
    backed = λ j r e. b.backed j r (kept j r (lookup-remove k j l.sessions b.distinct) e);
    limit = omega (arith, b.limit, length-remove k route l.sessions there);
    newest = b.newest;
  }
    where
      kept :
          (j : UdpSessionId) (r : SessionRoute)
          → lookup j (remove k l.sessions) ≡ (if bytes_eq k j then none else lookup j l.sessions)
          → lookup j (remove k l.sessions) ≡ some r
          → lookup j l.sessions ≡ some r
      kept j r e h = ground arith

  pub remove_session-IsTurn : (c : SessionCleanup) → IsTurn settings log l (remove_session c l, [])
  unfolding remove_session remove_route
  remove_session-IsTurn c = by_route (lookup c.session_id l.sessions) refl
    where
      by_route :
          (o : Option SessionRoute)
          → lookup c.session_id l.sessions ≡ o
          → IsTurn settings log l (remove_route c l o, [])
      by_route none e = idle-IsTurn
      by_route (some route) e = elim (Bool-cases (route.generation == c.generation)) [
        | inl same ↦ rw same (record {
          explained = tt;
          backed = removed-IsBacked c.session_id route e;
          generations = omega arith;
        })
        | inr other ↦ rw other idle-IsTurn
      ]

  pub queue_datagram-IsTurn :
      (peer : Peer) (session_id : UdpSessionId) (datagram : List ℕ) (route : SessionRoute)
      (queue : TrySend) (header : UdpPacketHeader)
      → lookup session_id l.sessions ≡ some route
      → route.peer ≡ peer
      → decode datagram ≡ ok header
      → header.session_id ≡ session_id
      → IsTurn settings log l (queue_datagram peer session_id datagram l route queue)
  unfolding queue_datagram
  queue_datagram-IsTurn peer session_id datagram route taken header e p d s = record {
    explained = ((route, b.backed session_id route e, p, refl, (header, d, s)), tt);
    backed = record {
      distinct = b.distinct;
      backed = λ k r h. inr (b.backed k r h);
      limit = b.limit;
      newest = b.newest;
    };
    generations = omega arith;
  }
  queue_datagram-IsTurn peer session_id datagram route full header e p d s = idle-IsTurn
  queue_datagram-IsTurn peer session_id datagram route disconnected header e p d s =
      remove_session-IsTurn (record { session_id = session_id; generation = route.generation })

  pub dispatch_route-IsTurn :
      (peer : Peer) (session_id : UdpSessionId) (datagram : List ℕ) (queue : TrySend)
      (header : UdpPacketHeader) (o : Option SessionRoute)
      → lookup session_id l.sessions ≡ o
      → decode datagram ≡ ok header
      → header.session_id ≡ session_id
      → IsTurn settings log l (dispatch_route peer session_id datagram queue l o)
  unfolding dispatch_route
  dispatch_route-IsTurn peer session_id datagram queue header none e d s = idle-IsTurn
  dispatch_route-IsTurn peer session_id datagram queue header (some route) e d s =
      elim (Bool-cases (tagged_beq route.peer peer)) [
        | inl same ↦ rw same (
            queue_datagram-IsTurn peer session_id datagram route queue header e
              ((tagged_beq_iff route.peer peer).0 same) d s)
        | inr other ↦ rw other idle-IsTurn
      ]
