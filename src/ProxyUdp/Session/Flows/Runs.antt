-- ===== src/ProxyUdp/Session/Flows/Runs.antt =====
-- Whole runs of the loop of proxy/src/native_udp/session.rs against the registry of open flows.
use ppaass_ai.Base.{
  ℕ, ◌≡◌, refl, sym, ◌∙◌, ap, subst, none, some, List, [], ◌∷◌, arith, if◌then◌else◌, ◌==◌, ==_iff,
  length,
}
use ppaass_ai.Base.Assoc.{lookup, nat_eq, beq_refl}
use ppaass_ai.UdpTransport.Wire.{Socket}
use ppaass_ai.ProxyUdp.Session.{
  SessionContext, ChannelState, SessionEvent, aborted, Session, Outcome, continued, finished, stuck,
  failed, Stepped, turn, drain, go_on, run_session,
}
use ppaass_ai.ProxyUdp.Session.Flows.{
  Registry, observe, observe_all, observe_all-append, IsTrace, IsTrace-append, Mirrors, Behaved,
  handle_of,
}
use ppaass_ai.ProxyUdp.Session.Flows.Turns.{turn-Behaved}

lookup-tail :
    (k j : ℕ) (v : ChannelState) (m : List (ℕ × ChannelState))
    → lookup k m ≡ none
    → lookup j m ≡ (if k == j then none else lookup j ((k, v) ∷ m))
unfolding lookup
lookup-tail k j v m h = ground (arith, ==_iff k j)

-- Draining aborts the task of every open flow, and leaves none open.
drain-Behaved :
    (max : ℕ) (channels : List (ℕ × ChannelState)) (r : Registry) (session : Session)
    → Mirrors r (record session { channels = channels })
    → IsTrace max r (drain channels)
      × Mirrors (observe_all (drain channels) r) (record session { channels = [] })
unfolding drain lookup
drain-Behaved max [] r session m = (tt, m)
drain-Behaved max ((k, channel) ∷ channels) r session m =
    let (trace, mirrors) =
      drain-Behaved max channels (observe (aborted k channel.abort_handle) r) session after in
    ((m.same k ∙ ap handle_of here, trace), mirrors)
  where
    here : lookup k ((k, channel) ∷ channels) ≡ some channel
    here = rw (beq_refl k) refl

    after :
        Mirrors
          (observe (aborted k channel.abort_handle) r)
          (record session { channels = channels })
    after = record {
      distinct = m.distinct.1;
      same = λ j. ground (arith, m.same j, lookup-tail k j channel channels m.distinct.0);
      count = omega (arith, m.count);
      next = m.next;
    }

go_on-Behaved :
    (max : ℕ) (outcome : Outcome) (stepped : Stepped) (later : Session → Stepped) (r : Registry)
    → Behaved max r stepped
    → ((r' : Registry) → Mirrors r' stepped.session → Behaved max r' (later stepped.session))
    → Behaved max r (go_on outcome stepped later)
unfolding go_on
go_on-Behaved max continued stepped later r b next =
    let rest = later stepped.session in
    let b' = next (observe_all stepped.effects r) b.mirrors in
    record {
      trace = IsTrace-append max stepped.effects rest.effects r b.trace b'.trace;
      mirrors =
          subst (λ q. Mirrors q rest.session)
            (sym (observe_all-append stepped.effects rest.effects r)) b'.mirrors;
    }
go_on-Behaved max finished stepped later r b next =
    let channels = stepped.session.channels in
    let (trace, mirrors) =
      drain-Behaved max channels (observe_all stepped.effects r) stepped.session b.mirrors in
    record {
      trace = IsTrace-append max stepped.effects (drain channels) r b.trace trace;
      mirrors =
          subst (λ q. Mirrors q (record (stepped.session) { channels = [] }))
            (sym (observe_all-append stepped.effects (drain channels) r)) mirrors;
    }
go_on-Behaved max stuck stepped later r b next = b
go_on-Behaved max (failed x) stepped later r b next = b

run_session-Behaved :
    (context : SessionContext) (events : List (Socket × SessionEvent)) (session : Session)
    (r : Registry)
    → Mirrors r session
    → Behaved context.udp_session_max_flows r (run_session context events session)
unfolding run_session
run_session-Behaved context [] session r m = record { trace = tt; mirrors = m }
run_session-Behaved context ((socket, event) ∷ events) session r m =
    let stepped = turn context socket event session in
    go_on-Behaved context.udp_session_max_flows stepped.outcome stepped (run_session context events)
      r (turn-Behaved context socket r event session m)
      (λ r' m'. run_session-Behaved context events stepped.session r' m')

go_on-closed :
    (outcome : Outcome) (stepped : Stepped) (later : Session → Stepped)
    → outcome ≡ stepped.outcome
    → ((later stepped.session).outcome ≡ finished → (later stepped.session).session.channels ≡ [])
    → (go_on outcome stepped later).outcome ≡ finished
    → (go_on outcome stepped later).session.channels ≡ []
unfolding go_on
go_on-closed continued stepped later e h f = h f
go_on-closed finished stepped later e h f = refl
go_on-closed stuck stepped later e h f = absurd (cc)
go_on-closed (failed x) stepped later e h f = absurd (cc)

run_session-closed :
    (context : SessionContext) (events : List (Socket × SessionEvent)) (session : Session)
    → (run_session context events session).outcome ≡ finished
    → (run_session context events session).session.channels ≡ []
unfolding run_session
run_session-closed context [] session f = absurd (cc)
run_session-closed context ((socket, event) ∷ events) session f =
    let stepped = turn context socket event session in
    go_on-closed stepped.outcome stepped (run_session context events) refl
      (run_session-closed context events stepped.session) f

-- For a registry of the session's open flows, whatever events come: the run does to its workers only what
-- the registry allows (no second worker for an open flow, none beyond the limit, packets only to the
-- worker of their open flow), the registry stays that of the session's channels, and when the session
-- finishes no flow is left open, so every worker that was not reported as ended has been aborted.
pub run_session-IsTrace :
    (context : SessionContext) (events : List (Socket × SessionEvent)) (session : Session)
    (r : Registry)
    → Mirrors r session
    → Behaved context.udp_session_max_flows r (run_session context events session)
      × ((run_session context events session).outcome ≡ finished
          → (observe_all (run_session context events session).effects r).count ≡ 0)
run_session-IsTrace context events session r m =
    let b = run_session-Behaved context events session r m in
    (b, λ f. b.mirrors.count ∙ ap length (run_session-closed context events session f))
