-- ===== src/UdpTransport/Reassembly/Steps.antt =====
-- The steps of `push` in protocol/src/udp_transport/reassembly.rs and the consistency of the state.
use ppaass_ai.Base.{
  ℕ, ◌-◌, ◌<◌, ◌≡◌, ◌≢◌, refl, sym, ap, ◌∙◌, Option, none, some, List, [], ◌∷◌, arith, Bool, true,
  false, inl, inr, Bool-cases, leb, length,
}
use ppaass_ai.Base.Assoc.{
  lookup, remove, retain, kept, tagged_beq, tagged_beq_iff, tagged_eq, beq_refl, lookup-remove,
  lookup-retain, remove-IsMap, retain-IsMap, total-remove, total-retain, length-total,
}
use ppaass_ai.UdpTransport.Reassembly.{
  ReassemblyEntry, Key, FragmentReassembler, still_fresh, oldest_except, older, is_except, evict,
  evict_selected, evict_oldest_except, cleanup_expired,
}
use ppaass_ai.UdpTransport.Reassembly.Invariant.{
  EntryIsValid, IsValid, ValidBut, IsValid-ValidBut, After, bytes_of,
}

pub kept-some :
    (keep : ReassemblyEntry → Bool) (o : Option ReassemblyEntry) (e : ReassemblyEntry)
    → kept keep o ≡ some e
    → o ≡ some e
kept-some keep none e h = cc
kept-some keep (some x) e h = ground arith

pub cleanup_expired-IsValid :
    (now : ℕ) (r : FragmentReassembler)
    → IsValid r
    → After (λ _ r'. IsValid r' × (r'.config ≡ r.config)) (cleanup_expired now r)
unfolding cleanup_expired
cleanup_expired-IsValid now r v =
    let keep : ReassemblyEntry → Bool = still_fresh r.config.timeout now in
    (
      record {
        distinct = retain-IsMap keep r.entries v.distinct;
        entries = λ k e h. v.entries k e (
            kept-some keep (lookup k r.entries) e
              (sym (lookup-retain keep k r.entries v.distinct) ∙ h));
        accounted = omega (arith, v.accounted, total-retain bytes_of keep r.entries);
        few = omega (
          arith,
          v.few,
          length-total r.entries,
          length-total (retain keep r.entries),
          total-retain (λ (e : ReassemblyEntry). 1) keep r.entries,
        );
        bounded = omega (arith, v.bounded);
        room = v.room;
      },
      refl,
    )

-- Removing an entry and its bytes.
pub remove-IsValid :
    (key : Key) (e : ReassemblyEntry) (r : FragmentReassembler)
    → lookup key r.entries ≡ some e
    → ValidBut key r
    → IsValid (record r {
      entries = remove key r.entries;
      total_bytes = r.total_bytes - e.received_bytes;
    })
remove-IsValid key e r found v = record {
  distinct = remove-IsMap key r.entries v.distinct;
  entries = kept_entry;
  accounted = omega (arith, v.accounted, total-remove bytes_of key e r.entries found);
  few = omega (
    arith,
    v.few,
    length-total r.entries,
    length-total (remove key r.entries),
    total-remove (λ (x : ReassemblyEntry). 1) key e r.entries found,
  );
  bounded = omega (arith, v.bounded);
  room = v.room;
}
  where
    kept_entry :
        (k : Key) (x : ReassemblyEntry) → lookup k (remove key r.entries) ≡ some x → EntryIsValid x
    kept_entry k x h = elim (Bool-cases (tagged_beq key k)) [
      | inl same ↦ cc (rw same at (lookup-remove key k r.entries v.distinct), h)
      | inr other ↦
          v.others k x other (sym (rw other at (lookup-remove key k r.entries v.distinct)) ∙ h)
    ]

-- The key that is selected is there, and is not the excluded one.
abbrev Selected : Option Key → List (Key × ReassemblyEntry) → Option (Key × ℕ) → Type 0
Selected except m none = Unit
Selected except m (some (k, t)) =
    ((e : ReassemblyEntry) × (lookup k m ≡ some e)) × (is_except except k ≡ false)

Selected-cons :
    (except : Option Key) (j : Key) (x : ReassemblyEntry) (m : List (Key × ReassemblyEntry))
    (o : Option (Key × ℕ))
    → Selected except m o
    → Selected except ((j, x) ∷ m) o
unfolding lookup
Selected-cons except j x m none h = tt
Selected-cons except j x m (some (k, t)) ((e, found), other) = elim (Bool-cases (tagged_beq j k)) [
  | inl same ↦ ((x, rw same), other)
  | inr new ↦ ((e, rw new found), other)
]

Selected-head :
    (except : Option Key) (j : Key) (x : ReassemblyEntry) (m : List (Key × ReassemblyEntry)) (t : ℕ)
    → is_except except j ≡ false
    → Selected except ((j, x) ∷ m) (some (j, t))
unfolding lookup
Selected-head except j x m t h = ((x, rw (beq_refl j)), h)

Selected-older :
    (except : Option Key) (j : Key) (x : ReassemblyEntry) (m : List (Key × ReassemblyEntry))
    (o : Option (Key × ℕ))
    → is_except except j ≡ false
    → Selected except m o
    → Selected except ((j, x) ∷ m) (older j x.updated_at o)
unfolding older
Selected-older except j x m none h s = Selected-head except j x m x.updated_at h
Selected-older except j x m (some (k, t)) h s = elim (Bool-cases (leb x.updated_at t)) [
  | inl first ↦ rw first (Selected-head except j x m x.updated_at h)
  | inr later ↦ rw later (Selected-cons except j x m (some (k, t)) s)
]

pub oldest_except-Selected :
    (except : Option Key) (m : List (Key × ReassemblyEntry))
    → Selected except m (oldest_except except m)
unfolding oldest_except
oldest_except-Selected except [] = tt
oldest_except-Selected except ((j, x) ∷ m) = elim (Bool-cases (is_except except j)) [
  | inl skip ↦
      rw skip
        (Selected-cons except j x m (oldest_except except m) (oldest_except-Selected except m))
  | inr take ↦
      rw take (
        Selected-older except j x m (oldest_except except m) take (oldest_except-Selected except m))
]

-- What an eviction leaves: either nothing could be evicted, or one entry other than the excluded
-- one is gone.
pub record Evicted (except : Option Key) (r : FragmentReassembler) (o : Option Key)
    (r' : FragmentReassembler) : Type 0 where
  pub valid : IsValid r'
  pub config : r'.config ≡ r.config
  pub fewer : o ≢ none → length r'.entries < length r.entries
  pub unchanged : o ≡ none → r' ≡ r
  pub kept : (k : Key) → is_except except k ≡ true → lookup k r'.entries ≡ lookup k r.entries
  pub absent : (k : Key) → lookup k r.entries ≡ none → lookup k r'.entries ≡ none
  pub none_left : o ≡ none → oldest_except except r.entries ≡ none

evict_selected-Evicted :
    (except : Option Key) (o : Option (Key × ℕ)) (r : FragmentReassembler)
    → oldest_except except r.entries ≡ o
    → Selected except r.entries o
    → IsValid r
    → After (Evicted except r) (evict_selected o r)
unfolding evict_selected evict
evict_selected-Evicted except none r e s v = record {
  valid = v;
  config = refl;
  fewer = λ h. absurd (h refl);
  unchanged = λ h. refl;
  kept = λ k h. refl;
  absent = λ k h. h;
  none_left = λ h. e;
}
evict_selected-Evicted except (some (k, t)) r e ((x, found), other) v = rw found (record {
  valid = remove-IsValid k x r found (IsValid-ValidBut k r v);
  config = refl;
  fewer = λ h. omega (
    arith,
    length-total r.entries,
    length-total (remove k r.entries),
    total-remove (λ (y : ReassemblyEntry). 1) k x r.entries found,
  );
  unchanged = λ h. cc;
  kept = λ j h. other_key j h;
  absent = λ j h. ground (arith, lookup-remove k j r.entries v.distinct);
  none_left = λ h. cc;
})
  where
    other_key :
        (j : Key) → is_except except j ≡ true → lookup j (remove k r.entries) ≡ lookup j r.entries
    other_key j h = elim (Bool-cases (tagged_beq k j)) [
      | inl same ↦ cc (ap (is_except except) ((tagged_beq_iff k j).0 same), other, h)
      | inr new ↦ rw (lookup-remove k j r.entries v.distinct, new)
    ]

pub evict_oldest_except-Evicted :
    (except : Option Key) (r : FragmentReassembler)
    → IsValid r
    → After (Evicted except r) (evict_oldest_except except r)
unfolding evict_oldest_except
evict_oldest_except-Evicted except r v =
    evict_selected-Evicted except (oldest_except except r.entries) r refl
      (oldest_except-Selected except r.entries) v
