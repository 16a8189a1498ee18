-- ===== src/UdpTransport/Reassembly/Store.antt =====
-- Storing a fragment and completing a message in protocol/src/udp_transport/reassembly.rs.
use ppaass_ai.Base.{
  ℕ, ◌+◌, ◌-◌, ◌≤◌, ◌<◌, ◌≡◌, ◌≢◌, refl, sym, ◌∙◌, Option, none, some, List, [], arith, not, ◌||◌,
  inl, inr, Bool-cases, ltb, ◌==◌, ==_iff, length, get_or, length-set, bytes_eq,
}
use ppaass_ai.Base.Assoc.{
  lookup, insert, remove, tagged_eq, lookup-insert, beq_refl, insert-IsMap, total-insert_old,
  length-total,
}
use ppaass_ai.Base.Result.{ok, err}
use ppaass_ai.UdpTransport.{UdpTransportResult}
use ppaass_ai.UdpTransport.Fragment.{DecryptedUdpFragment}
use ppaass_ai.UdpTransport.Reassembly.{
  ReassemblyEntry, ReassemblyConfig, Key, FragmentReassembler, fits_limits, against_existing,
  entry_bytes_of, some_message, complete, with_fragment, store_in, join, checked_add,
}
use ppaass_ai.UdpTransport.Reassembly.Invariant.{
  EntryIsValid, IsValid, ValidBut, After, bytes_of, present, payloads, present-set, join-payloads,
  IsConsistent,
}
use ppaass_ai.UdpTransport.Reassembly.Entry.{insert-EntryIsValid}
use ppaass_ai.UdpTransport.Reassembly.Steps.{remove-IsValid}

-- What the checks of a fragment against its entry leave.
pub record Checked (fragment : DecryptedUdpFragment) (e : ReassemblyEntry) (entry_bytes : ℕ)
    : Type 0 where
  pub same_count : e.fragment_count ≡ fragment.header.fragment_count
  pub same_len : e.total_len ≡ fragment.header.total_len
  pub free : get_or e.fragments fragment.header.fragment_index none ≡ none
  pub sum : entry_bytes ≡ e.received_bytes + length fragment.payload
  pub fits : entry_bytes ≤ e.total_len

abbrev pub CheckedBytes :
    DecryptedUdpFragment → ReassemblyEntry → UdpTransportResult (Option ℕ) → Type 0
CheckedBytes fragment e (ok none) = Unit
CheckedBytes fragment e (ok (some b)) = Checked fragment e b
CheckedBytes fragment e (err x) = IsConsistent x

pub entry_bytes_of-Checked :
    (config : ReassemblyConfig) (fragment : DecryptedUdpFragment) (e : ReassemblyEntry)
    → CheckedBytes fragment e (entry_bytes_of config fragment (some e))
unfolding entry_bytes_of against_existing fits_limits
entry_bytes_of-Checked config fragment e =
    elim (Bool-cases (
      not (e.fragment_count == fragment.header.fragment_count)
      || not (e.total_len == fragment.header.total_len))) [
        | inl other ↦ rw other tt
        | inr same ↦ rw same (
            against (get_or e.fragments fragment.header.fragment_index none) refl (ground arith)
              (ground arith))
      ]
  where
    limits :
        (b : Option ℕ)
        → b ≡ checked_add e.received_bytes (length fragment.payload)
        → get_or e.fragments fragment.header.fragment_index none ≡ none
        → e.fragment_count ≡ fragment.header.fragment_count
        → e.total_len ≡ fragment.header.total_len
        → CheckedBytes fragment e (fits_limits config e b)
    limits none eb free p q = tt
    limits (some b) eb free p q = elim (Bool-cases (ltb e.total_len b)) [
      | inl large ↦ rw large tt
      | inr fits ↦ elim (Bool-cases (ltb config.max_total_bytes b)) [
        | inl over ↦ rw (fits, over) tt
        | inr under ↦
            rw (fits, under)
              (record {
                same_count = p;
                same_len = q;
                free = free;
                sum = ground arith;
                fits = ground arith;
              })
      ]
    ]

    against :
        (o : Option (List ℕ))
        → get_or e.fragments fragment.header.fragment_index none ≡ o
        → e.fragment_count ≡ fragment.header.fragment_count
        → e.total_len ≡ fragment.header.total_len
        → CheckedBytes fragment e (against_existing config e fragment.payload o)
    against none eo p q =
        limits (checked_add e.received_bytes (length fragment.payload)) refl eo p q
    against (some x) eo p q = elim (Bool-cases (bytes_eq x fragment.payload)) [
      | inl same ↦ rw same tt
      | inr other ↦ rw other tt
    ]

module _ (key : Key) (fragment : DecryptedUdpFragment) (entry_bytes now : ℕ) (e : ReassemblyEntry)
    (c : Checked fragment e entry_bytes) (ev : EntryIsValid e)
    (inside : fragment.header.fragment_index < fragment.header.fragment_count) where
  abbrev stored_entry : ReassemblyEntry
  unfolding with_fragment
  stored_entry = with_fragment e fragment.header.fragment_index fragment.payload entry_bytes now

  stored_counts :
      (present stored_entry.fragments ≡ stored_entry.received_count)
      × (length (payloads stored_entry.fragments) ≡ stored_entry.received_bytes)
      × (length stored_entry.fragments ≡ stored_entry.fragment_count)
  unfolding with_fragment
  stored_counts =
      let (p, q) =
        present-set e.fragments fragment.header.fragment_index fragment.payload
          (omega (arith, ev.size, c.same_count, inside)) c.free in
      (
        omega (arith, p, ev.counted),
        omega (arith, q, ev.measured, c.sum),
        omega (
          arith,
          ev.size,
          length-set e.fragments fragment.header.fragment_index (some fragment.payload),
        ),
      )

  stored-EntryIsValid :
      stored_entry.received_count ≢ stored_entry.fragment_count → EntryIsValid stored_entry
  unfolding with_fragment
  stored-EntryIsValid more = record {
    size = stored_counts.2;
    counted = sym stored_counts.0;
    measured = sym stored_counts.1;
    fits = c.fits;
    unfinished = omega (arith, ev.unfinished, more);
  }

  abbrev pub Finished : Option (List ℕ) → FragmentReassembler → Type 0
  Finished none r = IsValid r
  Finished (some message) r = IsValid r × (length message ≡ e.total_len)

  module _ (r : FragmentReassembler) (v : IsValid r) (found : lookup key r.entries ≡ some e)
      (room : r.total_bytes + length fragment.payload ≤ r.config.max_total_bytes) where
    abbrev after_write : FragmentReassembler
    after_write = record r {
      entries = insert key stored_entry r.entries;
      total_bytes = r.total_bytes + length fragment.payload;
    }

    found_stored : lookup key after_write.entries ≡ some stored_entry
    found_stored = rw (lookup-insert key key stored_entry r.entries, beq_refl key)

    after_write-ValidBut : ValidBut key after_write
    unfolding with_fragment
    after_write-ValidBut = record {
      distinct = insert-IsMap key stored_entry r.entries v.distinct;
      others = λ k x other h.
          v.entries k x (sym (rw other at (lookup-insert key k stored_entry r.entries)) ∙ h);
      accounted =
          omega (
            arith,
            v.accounted,
            c.sum,
            total-insert_old bytes_of key stored_entry e r.entries found,
          );
      few = omega (
        arith,
        v.few,
        length-total r.entries,
        length-total (insert key stored_entry r.entries),
        total-insert_old (λ (x : ReassemblyEntry). 1) key stored_entry e r.entries found,
      );
      bounded = room;
      room = v.room;
    }

    after_write-IsValid :
        stored_entry.received_count ≢ stored_entry.fragment_count → IsValid after_write
    after_write-IsValid more =
        let b = after_write-ValidBut in
        record {
          distinct = b.distinct;
          entries = λ k x h.
              insert-EntryIsValid key k stored_entry x r.entries (stored-EntryIsValid more)
                v.entries h;
          accounted = b.accounted;
          few = b.few;
          bounded = b.bounded;
          room = b.room;
        }

    -- A complete entry yields the bytes of its fragments in order, or an error about their length.
    complete-Finished :
        stored_entry.received_count ≡ stored_entry.fragment_count
        → After Finished (complete key (some stored_entry) after_write)
    unfolding complete some_message with_fragment
    complete-Finished full =
        elim (Bool-cases (stored_entry.received_bytes == stored_entry.total_len)) [
          | inr wrong ↦ rw wrong (left, tt)
          | inl right ↦ rw (right, joined) (left, omega (arith, counts.1, (==_iff _ _).0 right))
        ]
      where
        counts :
            (present stored_entry.fragments ≡ stored_entry.received_count)
            × (length (payloads stored_entry.fragments) ≡ stored_entry.received_bytes)
            × (length stored_entry.fragments ≡ stored_entry.fragment_count)
        counts = stored_counts

        left : IsValid (record after_write {
          entries = remove key after_write.entries;
          total_bytes = after_write.total_bytes - stored_entry.received_bytes;
        })
        left = remove-IsValid key stored_entry after_write found_stored after_write-ValidBut

        joined : join [] stored_entry.fragments ≡ ok (payloads stored_entry.fragments)
        joined = join-payloads [] stored_entry.fragments (counts.0 ∙ full ∙ sym counts.2)

    pub store-Finished :
        After Finished (
          store_in key fragment entry_bytes now
            (r.total_bytes + length fragment.payload)
            (some e)
            r)
    unfolding store_in
    store-Finished =
        elim (Bool-cases (stored_entry.received_count == stored_entry.fragment_count)) [
          | inl full ↦ rw (full, found_stored) (complete-Finished ((==_iff _ _).0 full))
          | inr more ↦ rw more (after_write-IsValid (λ p. cc (more, (==_iff _ _).1 p)))
        ]
