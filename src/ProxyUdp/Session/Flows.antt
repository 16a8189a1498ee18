-- ===== src/ProxyUdp/Session/Flows.antt =====
-- The flows of a session of the proxy, proxy/src/native_udp/session.rs, against a registry of open
-- flows: what a run may do to the workers of its flows.
pub mod Turns
pub mod Runs
use ppaass_ai.Base.{
  ℕ, suc, ◌+◌, ◌-◌, ◌<◌, ◌≡◌, refl, sym, ◌∙◌, ap, subst, inl, inr, Bool-cases, Bool, true, false,
  Option, none, some, List, [], ◌∷◌, ◌++◌, arith, if◌then◌else◌, ltb, leb, ◌==◌, length, String,
  append-nil,
}
use ppaass_ai.Address.{Address}
use ppaass_ai.Base.Assoc.{
  lookup, insert, remove, nat_eq, IsMap, lookup-insert, lookup-remove, insert-IsMap, remove-IsMap,
  length-insert_new, length-insert_old, length-remove,
}
use ppaass_ai.Base.Result.{Result, ok, err}
use ppaass_ai.UdpTransport.{UdpTransportResult}
use ppaass_ai.UdpTransport.Codec.{
  UdpSessionMessage, open_data, connect_response, data_message, close, ping, pong, UdpSessionCodec,
  decode_datagram_at,
}
use ppaass_ai.UdpTransport.Wire.{Socket}
use ppaass_ai.Base.Queue.{TrySend, taken, full, disconnected}
use ppaass_ai.ProxyUdp.Session.{
  SessionContext, ChannelState, FlowAdmission, existing, at_capacity, create,
  classify_flow_admission, ChannelEvent, connect_result, closed, SessionEvent, idle, inbound,
  outbound, channel_event, joined, Effect, spawned, queued, aborted, forgotten, Session, Outcome,
  continued, finished, stuck, failed, Stepped, quiet, is_some, send_to_peer, admit, give, deliver,
  close_flow, handle_message, receive_datagram, connect_reported, close_reported,
  handle_channel_event, turn, drain, go_on, run_session, is_success,
}

-- The task of each open flow, how many are open, and the number of the next task.
pub record Registry : Type 0 where
  pub task_of : ℕ → Option ℕ
  pub count : ℕ
  pub next : ℕ

abbrev pub update : (ℕ → Option ℕ) → ℕ → Option ℕ → ℕ → Option ℕ
update f k v j = if k == j then v else f j

abbrev pub observe : Effect → Registry → Registry
observe (spawned flow_id task address bytes) r = record {
  task_of = update r.task_of flow_id (some task);
  count = r.count + 1;
  next = r.next + 1;
}
observe (queued flow_id task bytes) r = r
observe (aborted flow_id task) r = record r {
  task_of = update r.task_of flow_id none;
  count = r.count - 1;
}
observe (forgotten flow_id) r = record r {
  task_of = update r.task_of flow_id none;
  count = r.count - 1;
}

-- A task is spawned for a flow that is not open, while fewer than `max` are, under a new number; a
-- packet goes to the task of its open flow, and only such a task is aborted or forgotten.
abbrev pub Allows : ℕ → Registry → Effect → Type 0
Allows max r (spawned flow_id task address bytes) =
    (r.task_of flow_id ≡ none) × (r.count < max) × (task ≡ r.next)
Allows max r (queued flow_id task bytes) = r.task_of flow_id ≡ some task
Allows max r (aborted flow_id task) = r.task_of flow_id ≡ some task
Allows max r (forgotten flow_id) = (task : ℕ) × (r.task_of flow_id ≡ some task)

abbrev pub observe_all : List Effect → Registry → Registry
observe_all [] r = r
observe_all (e ∷ es) r = observe_all es (observe e r)

abbrev pub IsTrace : ℕ → Registry → List Effect → Type 0
IsTrace max r [] = Unit
IsTrace max r (e ∷ es) = Allows max r e × IsTrace max (observe e r) es

pub observe_all-append :
    (xs ys : List Effect) (r : Registry)
    → observe_all (xs ++ ys) r ≡ observe_all ys (observe_all xs r)
observe_all-append [] ys r = refl
observe_all-append (x ∷ xs) ys r = observe_all-append xs ys (observe x r)

pub IsTrace-append :
    (max : ℕ) (xs ys : List Effect) (r : Registry)
    → IsTrace max r xs
    → IsTrace max (observe_all xs r) ys
    → IsTrace max r (xs ++ ys)
IsTrace-append max [] ys r p q = q
IsTrace-append max (x ∷ xs) ys r (p, ps) q = (p, IsTrace-append max xs ys (observe x r) ps q)

abbrev pub handle_of : Option ChannelState → Option ℕ
handle_of none = none
handle_of (some channel) = some channel.abort_handle

-- The registry of the session's channels.
pub record Mirrors (r : Registry) (session : Session) : Type 0 where
  pub distinct : IsMap session.channels
  pub same : (k : ℕ) → r.task_of k ≡ handle_of (lookup k session.channels)
  pub count : r.count ≡ length session.channels
  pub next : r.next ≡ session.tasks

-- What a turn leaves.
pub record Behaved (max : ℕ) (r : Registry) (stepped : Stepped) : Type 0 where
  pub trace : IsTrace max r stepped.effects
  pub mirrors : Mirrors (observe_all stepped.effects r) stepped.session

module _ (r : Registry) (session session' : Session) (flow_id : ℕ) (m : Mirrors r session) where
  pub Mirrors-spawned :
      (address : Address) (bytes : List ℕ)
      → lookup flow_id session.channels ≡ none
      → session'.channels
        ≡ insert flow_id (record { input_tx = true; abort_handle = session.tasks }) session.channels
      → session'.tasks ≡ session.tasks + 1
      → Mirrors (observe (spawned flow_id session.tasks address bytes) r) session'
  Mirrors-spawned address bytes new e t = record {
    distinct = rw e (insert-IsMap flow_id _ session.channels m.distinct);
    same = λ k. rw e (
        ground (
          arith,
          m.same k,
          lookup-insert flow_id k (record { input_tx = true; abort_handle = session.tasks })
              session.channels,
        ));
    count = rw e (
        omega (
          arith,
          m.count,
          length-insert_new flow_id (record { input_tx = true; abort_handle = session.tasks })
              session.channels new,
        ));
    next = omega (arith, m.next, t);
  }

  pub Mirrors-removed :
      (channel : ChannelState)
      → lookup flow_id session.channels ≡ some channel
      → session'.channels ≡ remove flow_id session.channels
      → session'.tasks ≡ session.tasks
      → Mirrors (observe (forgotten flow_id) r) session'
  Mirrors-removed channel there e t = record {
    distinct = rw e (remove-IsMap flow_id session.channels m.distinct);
    same =
        λ k. rw e (ground (arith, m.same k, lookup-remove flow_id k session.channels m.distinct));
    count = rw e (omega (arith, m.count, length-remove flow_id channel session.channels there));
    next = omega (arith, m.next, t);
  }

  pub Mirrors-dropped :
      (channel : ChannelState)
      → lookup flow_id session.channels ≡ some channel
      → session'.channels ≡ insert flow_id (record channel { input_tx = false }) session.channels
      → session'.tasks ≡ session.tasks
      → Mirrors r session'
  Mirrors-dropped channel there e t = record {
    distinct = rw e (insert-IsMap flow_id _ session.channels m.distinct);
    same = λ k. rw e (
        ground (
          arith,
          m.same k,
          there,
          lookup-insert flow_id k (record channel { input_tx = false }) session.channels,
        ));
    count = rw e (
        omega (
          arith,
          m.count,
          length-insert_old flow_id (record channel { input_tx = false }) channel session.channels
              there,
        ));
    next = omega (arith, m.next, t);
  }
