-- ===== src/ProxyUdp/Listener/Explained/Runs.antt =====
-- The runs of the listener of proxy/src/native_udp/listener.rs and its log.
use ppaass_ai.Base.{◌+◌, ◌^◌, ◌<◌, List, [], ◌∷◌, length, arith}
use ppaass_ai.Base.Assoc.{text_eq}
use ppaass_ai.ProxyUdp.Listener.{Settings, NativeUdpListener, ListenerEvent, listen, run_listener}
use ppaass_ai.ProxyUdp.Listener.Explained.{
  Log, AreExplained, logged, IsBacked, logged-append, AreExplained-append,
}
use ppaass_ai.ProxyUdp.Listener.Explained.Turns.{listen-IsTurn}

-- From a listener whose sessions are backed by a log, and while its generations last, every effect of
-- a run over any events is explained by the log before it (a session is started only with an
-- authentication and under a generation above all before it, an AuthOk goes only to the peer whose equal
-- AuthInit started its session, a datagram only to the session that its peer started), and the sessions
-- stay backed: they are distinct, within the limit, and were started.
pub run_listener-AreExplained :
    (settings : Settings) (events : List ListenerEvent) (log : Log) (l : NativeUdpListener)
    → IsBacked settings log l
    → l.next_generation + length events < 2 ^ 64
    → AreExplained settings log (run_listener settings events l).1
      × IsBacked settings
          (logged (run_listener settings events l).1 log)
          (run_listener settings events l).0
unfolding run_listener
run_listener-AreExplained settings [] log l b room = (tt, b)
run_listener-AreExplained settings (event ∷ events) log l b room =
    let t = listen-IsTurn settings log l b (omega arith) event in
    let first = listen settings event l in
    let (explained, backed) =
      run_listener-AreExplained settings events (logged first.1 log) first.0 t.backed
        (omega (arith, t.generations)) in
    (
      AreExplained-append settings first.1 _ log t.explained explained,
      rw (logged-append first.1 (run_listener settings events first.0).1 log) backed,
    )
