-- ===== src/ClientUdp/Connection/FlowIds.antt =====
-- The identifiers of the flows of a session of common/src/client_connection/udp.rs.
use ppaass_ai.Base.{
  ℕ, zero, suc, ◌+◌, ◌-◌, ◌%◌, ◌^◌, ◌<◌, ◌≤◌, ◌≡◌, ◌≢◌, refl, sym, inl, inr, Bool-cases, ◌||◌, List,
  [], ◌∷◌, ◌++◌, ◌==◌, arith, subst, length, All, All-append,
}
use ppaass_ai.Base.Result.{ok}
use ppaass_ai.ClientUdp.Connection.Unique.{
  AreUnique, AreUnique-right, AreUnique-change, All-left, All-right, All-map,
}
use ppaass_ai.ClientUdp.Connection.{
  UdpClientConnection, ConnectCall, ConnectState, calling, checked, exhausted, took, done,
  check_session, take_flow_id, register_flow, connect_step, Calls, step_at, run_calls,
}

-- The identifier that a call holds: it has taken it, or its stream has it.
abbrev pub held_by : ConnectState → List ℕ
held_by (took flow_id) = flow_id ∷ []
held_by (done (ok stream)) = stream.flow_id ∷ []
held_by _ = []

abbrev pub held : Calls → List ℕ
held [] = []
held ((call, state) ∷ calls) = held_by state ++ held calls

-- A call that has not taken an identifier.
abbrev left_by : ConnectState → ℕ
left_by calling = 1
left_by checked = 1
left_by _ = 0

abbrev left : Calls → ℕ
left [] = 0
left ((call, state) ∷ calls) = left_by state + left calls

-- What a step of a call may do to what is held, with `fresh` the identifier that comes next: nothing, give
-- up the identifier, take the next one, or find that there is none.
data Moved (fresh : ℕ) : ConnectState → ConnectState → ℕ → Type 0 where
  kept : {s t : ConnectState} → held_by t ≡ held_by s → left_by t ≤ left_by s → Moved fresh s t 0
  dropped :
      {s t : ConnectState} {n : ℕ} → held_by t ≡ [] → n + left_by t ≤ left_by s → Moved fresh s t n
  taken :
      {s t : ConnectState}
      → held_by s ≡ []
      → held_by t ≡ fresh ∷ []
      → fresh < 2 ^ 64 - 1
      → 1 + left_by t ≤ left_by s
      → Moved fresh s t 1

-- The counter has gone on by so many.
abbrev IsAfter : ℕ → UdpClientConnection → UdpClientConnection → Type 0
IsAfter n before after = after.next_flow_id ≡ (before.next_flow_id + n) % 2 ^ 64

connect_step-Moved :
    (call : ConnectCall) (s : ConnectState) (conn : UdpClientConnection)
    → conn.next_flow_id < 2 ^ 64
    → (n : ℕ) × Moved conn.next_flow_id s (connect_step call s conn).0 n
      × IsAfter n conn (connect_step call s conn).1
unfolding connect_step check_session take_flow_id register_flow
connect_step-Moved call calling conn room = elim (Bool-cases call.is_udp) [
  | inl udp ↦ elim (Bool-cases (conn.closed || call.queue_closed)) [
    | inl over ↦ (0, simp (udp, over) (dropped refl (omega arith)), omega (arith, room))
    | inr open_ ↦ (0, simp (udp, open_) (kept refl (omega arith)), omega (arith, room))
  ]
  | inr other ↦ (0, simp other (dropped refl (omega arith)), omega (arith, room))
]
connect_step-Moved call checked conn room = elim (Bool-cases (conn.next_flow_id == 2 ^ 64 - 1)) [
  | inl last ↦ (1, rw last (dropped refl (omega arith)), refl)
  | inr more ↦ (1, rw more (taken refl refl (ground (arith, room, more)) (omega arith)), refl)
]
connect_step-Moved call exhausted conn room = (0, kept refl (omega arith), omega (arith, room))
connect_step-Moved call (took flow_id) conn room = elim (Bool-cases call.accepted) [
  | inl given ↦ (0, rw given (kept refl (omega arith)), rw given (omega (arith, room)))
  | inr lost ↦ (0, rw lost (dropped refl (omega arith)), rw lost (omega (arith, room)))
]
connect_step-Moved call (done result) conn room = (0, kept refl (omega arith), omega (arith, room))

-- What a step of one of the calls does to all of them.
record AreStepped (calls calls' : Calls) (conn conn' : UdpClientConnection) : Type 1 where
  n : ℕ
  counter : IsAfter n conn conn'
  fewer : n + left calls' ≤ left calls
  keeps :
      (P : ℕ → Type 0)
      → All P (held calls)
      → (1 ≤ n → conn.next_flow_id < 2 ^ 64 - 1 → P conn.next_flow_id)
      → All P (held calls')
  unique :
      (1 ≤ n → All (λ j. j ≢ conn.next_flow_id) (held calls))
      → AreUnique (held calls)
      → AreUnique (held calls')

Moved-AreStepped :
    (call : ConnectCall) (s t : ConnectState) (calls : Calls) (conn conn' : UdpClientConnection)
    (n : ℕ)
    → Moved conn.next_flow_id s t n
    → IsAfter n conn conn'
    → AreStepped ((call, s) ∷ calls) ((call, t) ∷ calls) conn conn'
Moved-AreStepped call s t calls conn conn' n (kept same less) after = record {
  n = n;
  counter = after;
  fewer = omega (arith, less);
  keeps = λ P h p. subst (λ (is : List ℕ). All P (is ++ held calls)) (sym same) h;
  unique = λ h u. subst (λ (is : List ℕ). AreUnique (is ++ held calls)) (sym same) u;
}
Moved-AreStepped call s t calls conn conn' n (dropped none_ less) after = record {
  n = n;
  counter = after;
  fewer = omega (arith, less);
  keeps = λ P h p.
      subst (λ (is : List ℕ). All P (is ++ held calls)) (sym none_)
        (All-right _ (held_by s) (held calls) h);
  unique = λ h u.
      subst (λ (is : List ℕ). AreUnique (is ++ held calls)) (sym none_)
        (AreUnique-right (held_by s) (held calls) u);
}
Moved-AreStepped call s t calls conn conn' n (taken none_ one small less) after = record {
  n = n;
  counter = after;
  fewer = omega (arith, less);
  keeps = λ P h p.
      subst (λ (is : List ℕ). All P (is ++ held calls)) (sym one)
        (p (omega arith) small, All-right _ (held_by s) (held calls) h);
  unique = λ h u.
      subst (λ (is : List ℕ). AreUnique (is ++ held calls)) (sym one)
        (
          All-right _ (held_by s) (held calls) (h (omega arith)),
          AreUnique-right (held_by s) (held calls) u,
        );
}

step_at-AreStepped :
    (i : ℕ) (calls : Calls) (conn : UdpClientConnection)
    → conn.next_flow_id < 2 ^ 64
    → AreStepped calls (step_at i calls conn).0 conn (step_at i calls conn).1
unfolding step_at
step_at-AreStepped i [] conn room = record {
  n = 0;
  counter = omega (arith, room);
  fewer = omega arith;
  keeps = λ P h p. h;
  unique = λ h u. u;
}
step_at-AreStepped zero ((call, s) ∷ calls) conn room =
    let (n, moved, after) = connect_step-Moved call s conn room in
    Moved-AreStepped call s (connect_step call s conn).0 calls conn (connect_step call s conn).1 n
      moved after
step_at-AreStepped (suc i) ((call, s) ∷ calls) conn room =
    let r = step_at-AreStepped i calls conn room in
    let calls' = (step_at i calls conn).0 in
    record {
      n = r.n;
      counter = r.counter;
      fewer = omega (arith, r.fewer);
      keeps = λ P h p.
          All-append _ (held_by s) (held calls') (All-left _ (held_by s) (held calls) h)
            (r.keeps P (All-right _ (held_by s) (held calls) h) p);
      unique = λ h u.
          AreUnique-change conn.next_flow_id (1 ≤ r.n) (held_by s) (held calls) (held calls')
            (λ P k p. r.keeps P k (λ one small. p one))
            (r.unique (λ one. All-right _ (held_by s) (held calls) (h one))
              (AreUnique-right (held_by s) (held calls) u))
            h u;
    }

-- How many identifiers lie between the first and this one.
abbrev offset : ℕ → ℕ → ℕ
offset first i = (i + 2 ^ 64 - first) % 2 ^ 64

-- So many identifiers have been given out, and there are enough for the calls that have none yet.
record AreApart (first : ℕ) (calls : Calls) (conn : UdpClientConnection) : Type 0 where
  given : ℕ
  next : conn.next_flow_id ≡ (first + given) % 2 ^ 64
  enough : given + left calls ≤ 2 ^ 64
  early : All (λ i. (i < 2 ^ 64 - 1) × (offset first i < given)) (held calls)
  unique : AreUnique (held calls)

step_at-AreApart :
    (first i : ℕ) (calls : Calls) (conn : UdpClientConnection)
    → first < 2 ^ 64
    → AreApart first calls conn
    → AreApart first (step_at i calls conn).0 (step_at i calls conn).1
step_at-AreApart first i calls conn room a =
    let fresh : conn.next_flow_id < 2 ^ 64 = omega (arith, a.next) in
    let s = step_at-AreStepped i calls conn fresh in
    record {
      given = a.given + s.n;
      next = omega (arith, a.next, s.counter);
      enough = omega (arith, a.enough, s.fewer);
      early =
          s.keeps (λ j. (j < 2 ^ 64 - 1) × (offset first j < a.given + s.n))
            (All-map _ _ (held calls) (λ j (small, before). (small, omega (arith, before))) a.early)
            (λ one small. (small, omega (arith, one, room, a.next, a.enough, s.fewer)));
      unique =
          s.unique
            (λ one.
              All-map _ _ (held calls)
                (λ j (small, before) same.
                  omega (arith, same, before, one, room, a.next, a.enough, s.fewer))
                a.early)
            a.unique;
    }

run_calls-AreApart :
    (first : ℕ) (turns : List ℕ) (calls : Calls) (conn : UdpClientConnection)
    → first < 2 ^ 64
    → AreApart first calls conn
    → AreApart first (run_calls turns calls conn).0 (run_calls turns calls conn).1
unfolding run_calls
run_calls-AreApart first [] calls conn room a = a
run_calls-AreApart first (i ∷ turns) calls conn room a =
    run_calls-AreApart first turns (step_at i calls conn).0 (step_at i calls conn).1 room
      (step_at-AreApart first i calls conn room a)

abbrev pub all_calling : List ConnectCall → Calls
all_calling [] = []
all_calling (call ∷ calls) = (call, calling) ∷ all_calling calls

held-all_calling : (calls : List ConnectCall) → held (all_calling calls) ≡ []
held-all_calling [] = refl
held-all_calling (call ∷ calls) = held-all_calling calls

left-all_calling : (calls : List ConnectCall) → left (all_calling calls) ≡ length calls
left-all_calling [] = refl
left-all_calling (call ∷ calls) = omega (arith, left-all_calling calls)

-- Of at most 2 ^ 64 calls on a session, however their steps interleave, no two hold the same identifier at
-- any time, be it one that is taken or that of an opened stream, and none holds the last of 64 bits; also
-- when the identifiers run out or start again from 0.
pub run_calls-AreUnique :
    (calls : List ConnectCall) (conn : UdpClientConnection) (turns : List ℕ)
    → conn.next_flow_id < 2 ^ 64
    → length calls ≤ 2 ^ 64
    → AreUnique (held (run_calls turns (all_calling calls) conn).0)
      × All (λ i. i < 2 ^ 64 - 1) (held (run_calls turns (all_calling calls) conn).0)
run_calls-AreUnique calls conn turns room few =
    let a = run_calls-AreApart conn.next_flow_id turns (all_calling calls) conn room (record {
      given = 0;
      next = omega (arith, room);
      enough = omega (arith, left-all_calling calls, few);
      early = subst (All _) (sym (held-all_calling calls)) tt;
      unique = subst AreUnique (sym (held-all_calling calls)) tt;
    }) in
    (a.unique, All-map _ _ (held (run_calls turns (all_calling calls) conn).0) (λ i h. h.0) a.early)
