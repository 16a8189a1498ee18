-- ===== src/UdpTransport/Reassembly/Runs.antt =====
-- Whole runs of the reassembler of protocol/src/udp_transport/reassembly.rs.
use ppaass_ai.Base.{
  ℕ, ◌≡◌, refl, sym, false, subst, Option, none, some, List, [], ◌∷◌, arith, Bool-cases, inl, inr,
  ◌==◌,
}
use ppaass_ai.Base.Result.{ok, err}
use ppaass_ai.Base.Assoc.{lookup, total}
use ppaass_ai.UdpTransport.{UdpTransportResult}
use ppaass_ai.UdpTransport.Fragment.{DecryptedUdpFragment}
use ppaass_ai.UdpTransport.Reassembly.{
  ReassemblyConfig, FragmentReassembler, from_valid_config, new, cleanup_expired, push,
}
use ppaass_ai.UdpTransport.Reassembly.Invariant.{IsValid, After}
use ppaass_ai.UdpTransport.Reassembly.Steps.{cleanup_expired-IsValid}
use ppaass_ai.UdpTransport.Reassembly.Bounds.{Pushed, push-Pushed}

-- What a caller does with a reassembler, at what time.
pub data Event : Type 0 where
  received : DecryptedUdpFragment → ℕ → Event
  swept : ℕ → Event

abbrev state_of {κ} :
    {A : Type κ} → Option (UdpTransportResult A × FragmentReassembler) → Option FragmentReassembler
state_of none = none
state_of (some (res, r)) = some r

pub step : Event → FragmentReassembler → Option FragmentReassembler
unfolding cleanup_expired
step (received fragment now) r = state_of (push fragment now r)
step (swept now) r = state_of (cleanup_expired now r)

abbrev and_then :
    Option FragmentReassembler
    → (FragmentReassembler → Option FragmentReassembler)
    → Option FragmentReassembler
and_then none f = none
and_then (some r) f = f r

pub run : List Event → FragmentReassembler → Option FragmentReassembler
unfolding step
run [] r = some r
run (event ∷ events) r = and_then (step event r) (run events)

-- The run does not stop, and ends in a valid state.
abbrev pub Ends : Option FragmentReassembler → Type 0
Ends none = ⊥
Ends (some r) = IsValid r

After-Ends {κ} :
    {A : Type κ} (P : A → FragmentReassembler → Type 0)
    (o : Option (UdpTransportResult A × FragmentReassembler))
    → ((a : A) (r : FragmentReassembler) → P a r → IsValid r)
    → After P o
    → Ends (state_of o)
After-Ends P none f h = h
After-Ends P (some (ok a, r)) f h = f a r h
After-Ends P (some (err e, r)) f h = h.0

Pushed-IsValid :
    (fragment : DecryptedUdpFragment) (o : Option (List ℕ)) (r : FragmentReassembler)
    → Pushed fragment o r
    → IsValid r
Pushed-IsValid fragment none r h = h
Pushed-IsValid fragment (some m) r h = h.0

step-Ends : (event : Event) (r : FragmentReassembler) → IsValid r → Ends (step event r)
unfolding step
step-Ends (received fragment now) r v =
    After-Ends (Pushed fragment) (push fragment now r) (Pushed-IsValid fragment)
      (push-Pushed fragment now r v)
step-Ends (swept now) r v =
    After-Ends (λ _ r'. IsValid r' × (r'.config ≡ r.config)) (cleanup_expired now r) (λ a s h. h.0)
      (cleanup_expired-IsValid now r v)

and_then-Ends :
    (o : Option FragmentReassembler) (f : FragmentReassembler → Option FragmentReassembler)
    → Ends o
    → ((r : FragmentReassembler) → IsValid r → Ends (f r))
    → Ends (and_then o f)
and_then-Ends none f h k = h
and_then-Ends (some r) f h k = k r h

run-Ends : (events : List Event) (r : FragmentReassembler) → IsValid r → Ends (run events r)
unfolding run
run-Ends [] r v = v
run-Ends (event ∷ events) r v =
    and_then-Ends (step event r) (run events) (step-Ends event r v) (λ s w. run-Ends events s w)

from_valid_config-IsValid :
    (config : ReassemblyConfig)
    → (config.max_entries == 0) ≡ false
    → IsValid (from_valid_config config)
unfolding lookup total
from_valid_config-IsValid config h = record {
  distinct = tt;
  entries = λ k e found. cc;
  accounted = refl;
  few = omega arith;
  bounded = omega arith;
  room = ground arith;
}

ok-inj :
    (r s : FragmentReassembler)
    → ◌≡◌ {A = UdpTransportResult FragmentReassembler} (ok r) (ok s)
    → r ≡ s
ok-inj r s e = cc

IsValid-at :
    (r s : FragmentReassembler)
    → ◌≡◌ {A = UdpTransportResult FragmentReassembler} (ok r) (ok s)
    → IsValid r
    → IsValid s
IsValid-at r s e v = subst IsValid (ok-inj r s e) v

-- `new` accepts a configuration with no zero limit, and starts in a valid state.
pub new-IsValid :
    (config : ReassemblyConfig) (r : FragmentReassembler) → new config ≡ ok r → IsValid r
unfolding new
new-IsValid config r e = elim (Bool-cases (config.max_entries == 0)) [
  | inl e1 ↦ absurd (ground arith)
  | inr e1 ↦ elim (Bool-cases (config.max_total_bytes == 0)) [
    | inl e2 ↦ absurd (ground arith)
    | inr e2 ↦ elim (Bool-cases (config.timeout == 0)) [
      | inl e3 ↦ absurd (ground arith)
      | inr e3 ↦
          IsValid-at (from_valid_config config) r (sym (ground arith))
            (from_valid_config-IsValid config e1)
    ]
  ]
]

-- Started by `new`, a reassembler keeps its limits over every run of fragments and sweeps.
pub run-new-Ends :
    (config : ReassemblyConfig) (r : FragmentReassembler) (events : List Event)
    → new config ≡ ok r
    → Ends (run events r)
run-new-Ends config r events e = run-Ends events r (new-IsValid config r e)
