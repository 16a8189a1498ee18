-- ===== src/UdpTransport/Reassembly/Entry.antt =====
-- Making an entry for a new message in protocol/src/udp_transport/reassembly.rs.
use ppaass_ai.Base.{
  ℕ, ◌≤◌, ◌<◌, ◌≡◌, ◌≢◌, refl, sym, ap, subst, ◌∙◌, Option, none, some, List, [], ◌∷◌, arith, Bool,
  true, false, inl, inr, Bool-cases, Option-cases, ltb, leb, length, length-replicate,
}
use ppaass_ai.Base.Assoc.{
  lookup, insert, tagged_beq, tagged_eq, lookup-insert, beq_refl, insert-IsMap, total-insert_new,
  length-total,
}
use ppaass_ai.UdpTransport.{reassembly_limit, inconsistent_reassembly_state}
use ppaass_ai.UdpTransport.Fragment.{DecryptedUdpFragment}
use ppaass_ai.UdpTransport.Reassembly.{
  ReassemblyEntry, ReassemblyConfig, Key, FragmentReassembler, oldest_except, older, is_except,
  evict_oldest_except, new_entry, evicted_or, make_entry, evict_any, free_slot, ensure_entry,
}
use ppaass_ai.UdpTransport.Reassembly.Invariant.{
  After-fail_if, EntryIsValid, IsValid, After, After-bind, bytes_of, present-replicate,
  payloads-replicate,
}
use ppaass_ai.UdpTransport.Reassembly.Steps.{Evicted, evict_oldest_except-Evicted}

-- A key has an entry.
abbrev pub Has : Key → FragmentReassembler → Type 0
Has key r = (e : ReassemblyEntry) × (lookup key r.entries ≡ some e)

pub insert-EntryIsValid :
    (key k : Key) (x e : ReassemblyEntry) (m : List (Key × ReassemblyEntry))
    → EntryIsValid x
    → ((j : Key) (y : ReassemblyEntry) → lookup j m ≡ some y → EntryIsValid y)
    → lookup k (insert key x m) ≡ some e
    → EntryIsValid e
insert-EntryIsValid key k x e m hx hm h = elim (Bool-cases (tagged_beq key k)) [
  | inl same ↦
      let eq : some x ≡ some e = sym (rw same at (lookup-insert key k x m)) ∙ h in
      subst EntryIsValid (cc eq) hx
  | inr other ↦ hm k e (sym (rw other at (lookup-insert key k x m)) ∙ h)
]

new_entry-EntryIsValid :
    (fragment : DecryptedUdpFragment) (now : ℕ)
    → 0 < fragment.header.fragment_count
    → EntryIsValid (new_entry fragment now)
unfolding new_entry
new_entry-EntryIsValid fragment now h = record {
  size = length-replicate fragment.header.fragment_count none;
  counted = sym (present-replicate fragment.header.fragment_count);
  measured = sym (ap length (payloads-replicate fragment.header.fragment_count));
  fits = omega arith;
  unfinished = h;
}

older-ne-none : (j : Key) (t : ℕ) (o : Option (Key × ℕ)) → older j t o ≢ none
unfolding older
older-ne-none j t none h = cc
older-ne-none j t (some (k, u)) h = ground arith

-- A table with no key at all is empty.
oldest_none-nil : (m : List (Key × ReassemblyEntry)) → oldest_except none m ≡ none → m ≡ []
unfolding oldest_except is_except
oldest_none-nil [] h = refl
oldest_none-nil ((k, e) ∷ m) h = absurd (older-ne-none k e.updated_at (oldest_except none m) h)

abbrev Freed : FragmentReassembler → Unit {0} → FragmentReassembler → Type 0
Freed r u r' =
    IsValid r'
    × (length r'.entries < r'.config.max_entries)
    × (r'.config ≡ r.config)
    × ((k : Key) → lookup k r.entries ≡ none → lookup k r'.entries ≡ none)

-- After `free_slot` one more entry fits, and no key is new.
free_slot-Freed : (r : FragmentReassembler) → IsValid r → After (Freed r) (free_slot r)
unfolding free_slot
free_slot-Freed r v = evict_any-Freed (leb r.config.max_entries (length r.entries)) refl
  where
    evict_any-Freed :
        (b : Bool)
        → leb r.config.max_entries (length r.entries) ≡ b
        → After (Freed r) (evict_any b r)
    evict_any-Freed false e = unfold evict_any in (v, ground arith, refl, λ k h. h)
    evict_any-Freed true e =
        unfold evict_any in
        After-bind (Evicted none r) (Freed r) (evict_oldest_except none) _ r
          (evict_oldest_except-Evicted none r v) (λ o r' ev. full-Freed o r' (ground arith) ev)
      where
        full-Freed :
            (o : Option Key) (r' : FragmentReassembler)
            → r.config.max_entries ≤ length r.entries
            → Evicted none r o r'
            → After (Freed r) (
                evicted_or
                  (inconsistent_reassembly_state "a full reassembly table has no entry to evict")
                  o
                  r')
        full-Freed none r' full ev =
            absurd
              (omega (arith, v.room, ap length (oldest_none-nil r.entries (ev.none_left refl))))
        full-Freed (some k) r' full ev = (
          ev.valid,
          omega (
            arith,
            ev.fewer (λ h. cc),
            v.few,
            ap (λ (c : ReassemblyConfig). c.max_entries) ev.config,
          ),
          ev.config,
          ev.absent,
        )

module _ (key : Key) (fragment : DecryptedUdpFragment) (now : ℕ)
    (many : 0 < fragment.header.fragment_count) where
  insert_new-IsValid :
      (r : FragmentReassembler)
      → IsValid r
      → lookup key r.entries ≡ none
      → length r.entries < r.config.max_entries
      → IsValid (record r { entries = insert key (new_entry fragment now) r.entries })
  unfolding new_entry
  insert_new-IsValid r v new room = record {
    distinct = insert-IsMap key _ r.entries v.distinct;
    entries = λ k e h.
        insert-EntryIsValid key k _ e r.entries (new_entry-EntryIsValid fragment now many) v.entries
          h;
    accounted =
        omega (
          arith,
          v.accounted,
          total-insert_new bytes_of key (new_entry fragment now) r.entries new,
        );
    few = omega (
      arith,
      length-total r.entries,
      length-total (insert key (new_entry fragment now) r.entries),
      total-insert_new (λ (x : ReassemblyEntry). 1) key (new_entry fragment now) r.entries new,
      room,
    );
    bounded = v.bounded;
    room = v.room;
  }

  -- The key has an entry afterwards, and the state is valid.
  make_entry-IsValid :
      (r : FragmentReassembler)
      → IsValid r
      → lookup key r.entries ≡ none
      → After
          (λ _ r'. IsValid r' × Has key r' × (r'.config ≡ r.config))
          (make_entry key fragment now r)
  unfolding make_entry
  make_entry-IsValid r v new =
      After-fail_if Made (ltb r.config.max_total_bytes (length fragment.payload))
        (reassembly_limit "current message exceeds maximum buffered fragment bytes") _ r v tt
        (λ small. After-bind (Freed r) Made free_slot _ r (free_slot-Freed r v) (λ u r' freed. (
          insert_new-IsValid r' freed.0 (freed.3 key new) freed.1,
          (
            new_entry fragment now,
            rw (lookup-insert key key (new_entry fragment now) r'.entries, beq_refl key),
          ),
          freed.2,
        )))
    where
      Made : Unit {0} → FragmentReassembler → Type 0
      Made _ r' = IsValid r' × Has key r' × (r'.config ≡ r.config)

  pub ensure_entry-IsValid :
      (r : FragmentReassembler)
      → IsValid r
      → After
          (λ _ r'. IsValid r' × Has key r' × (r'.config ≡ r.config))
          (ensure_entry key fragment now (lookup key r.entries) r)
  unfolding ensure_entry
  ensure_entry-IsValid r v = elim (Option-cases (lookup key r.entries)) [
    | inl new ↦ rw new (make_entry-IsValid r v new)
    | inr (e, found) ↦ rw found (v, (e, found), refl)
  ]
