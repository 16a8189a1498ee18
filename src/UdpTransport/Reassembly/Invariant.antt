-- ===== src/UdpTransport/Reassembly/Invariant.antt =====
-- When the state of protocol/src/udp_transport/reassembly.rs is consistent, and what it takes for an
-- action to end in a consistent state.
use ppaass_ai.Base.{
  Bool, true, false, ℕ, zero, suc, ◌+◌, ◌≤◌, ◌<◌, ◌≡◌, refl, sym, ap, ◌∙◌, Option, none, some, List,
  [], ◌∷◌, ◌++◌, arith, length, get_or, set, replicate, append_assoc, append-nil, length-append,
}
use ppaass_ai.Base.Assoc.{lookup, IsMap, total, tagged_beq, tagged_eq}
use ppaass_ai.Base.Result.{ok, err, fail_if}
use ppaass_ai.UdpTransport.{UdpTransportError, UdpTransportResult, inconsistent_reassembly_state}
use ppaass_ai.UdpTransport.Reassembly.{
  ReassemblyEntry, Key, FragmentReassembler, Action, ◌>>=◌, ◌>>◌, continue, lift, join,
}

-- How many fragments are there, and their bytes in order.
abbrev pub present : List (Option (List ℕ)) → ℕ
present [] = 0
present (none ∷ fs) = present fs
present (some f ∷ fs) = suc (present fs)

abbrev pub payloads : List (Option (List ℕ)) → List ℕ
payloads [] = []
payloads (none ∷ fs) = payloads fs
payloads (some f ∷ fs) = f ++ payloads fs

pub record EntryIsValid (e : ReassemblyEntry) : Type 0 where
  pub size : length e.fragments ≡ e.fragment_count
  pub counted : e.received_count ≡ present e.fragments
  pub measured : e.received_bytes ≡ length (payloads e.fragments)
  pub fits : e.received_bytes ≤ e.total_len
  pub unfinished : e.received_count < e.fragment_count

abbrev pub bytes_of : ReassemblyEntry → ℕ
bytes_of e = e.received_bytes

-- The limits of the configuration hold, and the counters are what they count.
pub record IsValid (r : FragmentReassembler) : Type 0 where
  pub distinct : IsMap r.entries
  pub entries : (k : Key) (e : ReassemblyEntry) → lookup k r.entries ≡ some e → EntryIsValid e
  pub accounted : r.total_bytes ≡ total bytes_of r.entries
  pub few : length r.entries ≤ r.config.max_entries
  pub bounded : r.total_bytes ≤ r.config.max_total_bytes
  pub room : 0 < r.config.max_entries

-- The same, but for the entry of one key.
pub record ValidBut (key : Key) (r : FragmentReassembler) : Type 0 where
  pub distinct : IsMap r.entries
  pub others :
      (k : Key) (e : ReassemblyEntry)
      → tagged_beq key k ≡ false
      → lookup k r.entries ≡ some e
      → EntryIsValid e
  pub accounted : r.total_bytes ≡ total bytes_of r.entries
  pub few : length r.entries ≤ r.config.max_entries
  pub bounded : r.total_bytes ≤ r.config.max_total_bytes
  pub room : 0 < r.config.max_entries

pub IsValid-ValidBut : (key : Key) (r : FragmentReassembler) → IsValid r → ValidBut key r
IsValid-ValidBut key r v = record {
  distinct = v.distinct;
  others = λ k e h. v.entries k e;
  accounted = v.accounted;
  few = v.few;
  bounded = v.bounded;
  room = v.room;
}

-- The error is not one of those that report a broken state.
abbrev pub IsConsistent : UdpTransportError → Type 0
IsConsistent (inconsistent_reassembly_state s) = ⊥
IsConsistent _ = Unit

-- The action ends within its fuel; a result meets `P`, and an error leaves a valid state.
abbrev pub After {κ} :
    {A : Type κ}
    → (A → FragmentReassembler → Type 0)
    → Option (UdpTransportResult A × FragmentReassembler)
    → Type 0
After P none = ⊥
After P (some (ok a, r)) = P a r
After P (some (err e, r)) = IsValid r × IsConsistent e

module _ {κ μ} {A : Type κ} {B : Type μ} (P : A → FragmentReassembler → Type 0)
    (Q : B → FragmentReassembler → Type 0) where
  After-continue :
      (o : Option (UdpTransportResult A × FragmentReassembler)) (f : A → Action B)
      → After P o
      → ((a : A) (r : FragmentReassembler) → P a r → After Q (f a r))
      → After Q (continue o f)
  After-continue none f h k = h
  After-continue (some (ok a, r)) f h k = k a r h
  After-continue (some (err e, r)) f h k = h

  -- The rule for two actions in a row.
  pub After-bind :
      (m : Action A) (f : A → Action B) (r : FragmentReassembler)
      → After P (m r)
      → ((a : A) (r' : FragmentReassembler) → P a r' → After Q (f a r'))
      → After Q ((m >>= f) r)
  After-bind m f r = After-continue (m r) f

pub After-mono {κ} :
    {A : Type κ} (P Q : A → FragmentReassembler → Type 0)
    (o : Option (UdpTransportResult A × FragmentReassembler))
    → ((a : A) (r : FragmentReassembler) → P a r → Q a r)
    → After P o
    → After Q o
After-mono P Q none h k = k
After-mono P Q (some (ok a, r)) h k = h a r k
After-mono P Q (some (err e, r)) h k = k

-- An early return of an error.
pub After-fail_if {κ} :
    {B : Type κ} (Q : B → FragmentReassembler → Type 0) (b : Bool) (e : UdpTransportError)
    (k : Action B) (r : FragmentReassembler)
    → IsValid r
    → IsConsistent e
    → (b ≡ false → After Q (k r))
    → After Q ((lift (fail_if b e) >> k) r)
After-fail_if Q true e k r v c h = (v, c)
After-fail_if Q false e k r v c h = h refl

pub present-set :
    (fs : List (Option (List ℕ))) (i : ℕ) (f : List ℕ)
    → i < length fs
    → get_or fs i none ≡ none
    → (present (set fs i (some f)) ≡ present fs + 1)
      × (length (payloads (set fs i (some f))) ≡ length (payloads fs) + length f)
present-set [] i f h e = absurd (omega arith)
present-set (none ∷ fs) zero f h e = (omega arith, omega (arith, length-append f (payloads fs)))
present-set (some g ∷ fs) zero f h e = cc
present-set (none ∷ fs) (suc i) f h e = present-set fs i f (omega arith) e
present-set (some g ∷ fs) (suc i) f h e =
    let (counted, measured) = present-set fs i f (omega arith) e in
    (
      omega (arith, counted),
      omega (
        arith,
        measured,
        length-append g (payloads (set fs i (some f))),
        length-append g (payloads fs),
      ),
    )

pub present-replicate : (n : ℕ) → present (replicate n none) ≡ 0
present-replicate zero = refl
present-replicate (suc n) = present-replicate n

pub payloads-replicate : (n : ℕ) → payloads (replicate n none) ≡ []
payloads-replicate zero = refl
payloads-replicate (suc n) = payloads-replicate n

present-le-length : (fs : List (Option (List ℕ))) → present fs ≤ length fs
present-le-length [] = omega arith
present-le-length (none ∷ fs) = omega (arith, present-le-length fs)
present-le-length (some f ∷ fs) = omega (arith, present-le-length fs)

-- The fragments of a complete entry are joined in order.
pub join-payloads :
    (message : List ℕ) (fs : List (Option (List ℕ)))
    → present fs ≡ length fs
    → join message fs ≡ ok (message ++ payloads fs)
unfolding join
join-payloads message [] h = ap ok (sym (append-nil message))
join-payloads message (none ∷ fs) h = absurd (omega (arith, present-le-length fs))
join-payloads message (some f ∷ fs) h =
    join-payloads (message ++ f) fs (omega arith) ∙ ap ok (append_assoc message f (payloads fs))
