-- ===== src/UdpTransport/Reassembly.antt =====
-- The fragment accumulator of protocol/src/udp_transport/reassembly.rs.
-- An `Instant` is a number of nanoseconds; `checked_duration_since(..).unwrap_or_default()` is the
-- truncated difference. The `HashMap` of entries is an association list, whose order stands for
-- the order of iteration. An action that takes `&mut self` returns the state also beside an error;
-- `none` is no value of the program: it says that the loop which makes room ran out of its fuel.
pub mod Invariant
pub mod Steps
pub mod Entry
pub mod Room
pub mod Store
pub mod Bounds
pub mod Runs
use ppaass_ai.Base.{
  ℕ, zero, suc, ◌+◌, ◌-◌, ◌*◌, ◌^◌, Bool, true, false, not, ◌&&◌, ◌||◌, Option, none, some, List,
  [], ◌∷◌, ◌++◌, ltb, leb, ◌==◌, if◌then◌else◌, length, get_or, set, replicate, bytes_eq,
}
use ppaass_ai.Base.Assoc.{lookup, insert, remove, retain, total, tagged_beq, tagged_eq}
use ppaass_ai.Base.Result.{Result, ok, err, ok_or}
use ppaass_ai.Base.Result.{fail_if}
use ppaass_ai.UdpTransport.{
  UdpTransportResult, UdpTransportError, UdpSessionId, invalid_header, message_too_large,
  too_many_fragments, conflicting_fragment, reassembly_limit, inconsistent_reassembly_state,
  udp_max_fragment_plaintext, udp_max_message_size, udp_max_fragments,
}
use ppaass_ai.UdpTransport.Fragment.{DecryptedUdpFragment, validate_fragment}

pub record ReassemblyConfig : Type 0 where
  pub max_entries : ℕ
  pub max_total_bytes : ℕ
  pub timeout : ℕ

-- `ReassemblyConfig::default()`: 64 entries, 1 MiB, one second.
abbrev pub default_config : ReassemblyConfig
default_config = record { max_entries = 64; max_total_bytes = 1024 * 1024; timeout = 1_000_000_000 }

pub record ReassemblyEntry : Type 0 where
  pub fragment_count : ℕ
  pub total_len : ℕ
  pub fragments : List (Option (List ℕ))
  pub received_count : ℕ
  pub received_bytes : ℕ
  pub updated_at : ℕ

-- `(UdpSessionId, u64)`
abbrev pub Key : Type 0
Key = UdpSessionId × ℕ

pub record FragmentReassembler : Type 0 where
  pub config : ReassemblyConfig
  pub entries : List (Key × ReassemblyEntry)
  pub total_bytes : ℕ

abbrev pub from_valid_config : ReassemblyConfig → FragmentReassembler
from_valid_config config = record { config = config; entries = []; total_bytes = 0 }

-- `FragmentReassembler::new`
unfoldable pub new : ReassemblyConfig → UdpTransportResult FragmentReassembler
new config =
    if config.max_entries == 0
    then err (reassembly_limit "max_entries must be non-zero")
    else if config.max_total_bytes == 0
    then err (reassembly_limit "max_total_bytes must be non-zero")
    else if config.timeout == 0
    then err (reassembly_limit "timeout must be non-zero")
    else ok (from_valid_config config)

abbrev pub entry_count : FragmentReassembler → ℕ
entry_count r = length r.entries

-- An action on the reassembler.
abbrev pub Action {κ} : Type κ → Type κ
Action A = FragmentReassembler → Option (UdpTransportResult A × FragmentReassembler)

module _ {κ} {A : Type κ} where
  abbrev pub pure : A → Action A
  pure a r = some (ok a, r)

  abbrev pub lift : UdpTransportResult A → Action A
  lift m r = some (m, r)

  abbrev pub throw : UdpTransportError → Action A
  throw e r = some (err e, r)

module _ {κ μ} {A : Type κ} {B : Type μ} where
  abbrev pub continue :
      Option (UdpTransportResult A × FragmentReassembler)
      → (A → Action B)
      → Option (UdpTransportResult B × FragmentReassembler)
  continue none f = none
  continue (some (ok a, r)) f = f a r
  continue (some (err e, r)) f = some (err e, r)

  infixl 5 ◌>>=◌ ◌>>◌
  abbrev pub ◌>>=◌ : Action A → (A → Action B) → Action B
  ◌>>=◌ m f r = continue (m r) f

  abbrev pub ◌>>◌ : Action A → Action B → Action B
  m >> k = m >>= λ _. k

abbrev pub gets {κ} : {A : Type κ} → (FragmentReassembler → A) → Action A
gets f r = some (ok (f r), r)

-- `a.checked_add(b)` of `usize`
abbrev pub checked_add : ℕ → ℕ → Option ℕ
checked_add a b = if ltb (a + b) (2 ^ 64) then some (a + b) else none

-- The keys of `entries` other than `except`, with the time of their last update: the first of
-- the oldest, as `min_by_key` picks it.
pub older : Key → ℕ → Option (Key × ℕ) → Option (Key × ℕ)
older key time none = some (key, time)
older key time (some (k, t)) = if leb time t then some (key, time) else some (k, t)

pub is_except : Option Key → Key → Bool
is_except none key = false
is_except (some k) key = tagged_beq k key

pub oldest_except : Option Key → List (Key × ReassemblyEntry) → Option (Key × ℕ)
unfolding older is_except
oldest_except except [] = none
oldest_except except ((key, entry) ∷ entries) =
    let rest = oldest_except except entries in
    if is_except except key then rest else older key entry.updated_at rest

-- Removes the entry that was selected.
pub evict : Key → Option ReassemblyEntry → Action (Option Key)
evict key none r =
    some (err (inconsistent_reassembly_state "selected reassembly entry is missing"), r)
evict key (some removed) r = some (
  ok (some key),
  record r { entries = remove key r.entries; total_bytes = r.total_bytes - removed.received_bytes },
)

pub evict_selected : Option (Key × ℕ) → Action (Option Key)
evict_selected none r = some (ok none, r)
evict_selected (some (key, time)) r = evict key (lookup key r.entries) r

pub evict_oldest_except : Option Key → Action (Option Key)
unfolding evict evict_selected
evict_oldest_except except r = evict_selected (oldest_except except r.entries) r

-- The test of the closure of `retain`.
abbrev pub still_fresh : ℕ → ℕ → ReassemblyEntry → Bool
still_fresh timeout now entry = ltb (now - entry.updated_at) timeout

-- Returns how many entries were dropped.
pub cleanup_expired : ℕ → Action ℕ
cleanup_expired now r =
    let before = length r.entries in
    let keep = still_fresh r.config.timeout now in
    let removed_bytes =
      total (λ (e : ReassemblyEntry). e.received_bytes) (retain (λ e. not (keep e)) r.entries) in
    let entries = retain keep r.entries in
    some (
      ok (before - length entries),
      record r { entries = entries; total_bytes = r.total_bytes - removed_bytes },
    )

-- `evicted?.ok_or(error)?`
pub evicted_or : UdpTransportError → Option Key → Action (Unit {0})
evicted_or error none = throw error
evicted_or error (some key) = pure tt

pub new_entry : DecryptedUdpFragment → ℕ → ReassemblyEntry
new_entry fragment now = record {
  fragment_count = fragment.header.fragment_count;
  total_len = fragment.header.total_len;
  fragments = replicate fragment.header.fragment_count none;
  received_count = 0;
  received_bytes = 0;
  updated_at = now;
}

pub evict_any : Bool → Action (Unit {0})
unfolding evicted_or evict_oldest_except
evict_any false = pure tt
evict_any true = do
  evicted ← evict_oldest_except none
  evicted_or (inconsistent_reassembly_state "a full reassembly table has no entry to evict") evicted

-- `if self.entries.len() >= self.config.max_entries { .. }`
pub free_slot : Action (Unit {0})
unfolding evict_any
free_slot r = evict_any (leb r.config.max_entries (length r.entries)) r

-- The `if !self.entries.contains_key(&key)` block.
pub make_entry : Key → DecryptedUdpFragment → ℕ → Action (Unit {0})
unfolding new_entry free_slot
make_entry key fragment now = do
  config ← gets (λ r. r.config)
  lift (
      fail_if (ltb config.max_total_bytes (length fragment.payload))
        (reassembly_limit "current message exceeds maximum buffered fragment bytes"))
  free_slot
  λ r. some (ok tt, record r { entries = insert key (new_entry fragment now) r.entries })

pub ensure_entry : Key → DecryptedUdpFragment → ℕ → Option ReassemblyEntry → Action (Unit {0})
unfolding make_entry
ensure_entry key fragment now none = make_entry key fragment now
ensure_entry key fragment now (some entry) = pure tt

-- The block that computes `entry_bytes`; `none` is its early return of `Ok(None)`. The index is
-- inside `entry.fragments`, whose length is the fragment count that both headers agree on.
pub fits_limits : ReassemblyConfig → ReassemblyEntry → Option ℕ → UdpTransportResult (Option ℕ)
fits_limits config entry none = err (invalid_header "fragment byte counter overflow")
fits_limits config entry (some entry_bytes) =
    if ltb entry.total_len entry_bytes
    then err (invalid_header "fragment bytes exceed declared total_len")
    else if ltb config.max_total_bytes entry_bytes
    then err (reassembly_limit "current message exceeds maximum buffered fragment bytes")
    else ok (some entry_bytes)

pub against_existing :
    ReassemblyConfig → ReassemblyEntry → List ℕ → Option (List ℕ) → UdpTransportResult (Option ℕ)
unfolding fits_limits
against_existing config entry payload (some existing) =
    if bytes_eq existing payload then ok none else err conflicting_fragment
against_existing config entry payload none =
    fits_limits config entry (checked_add entry.received_bytes (length payload))

pub entry_bytes_of :
    ReassemblyConfig → DecryptedUdpFragment → Option ReassemblyEntry → UdpTransportResult (Option ℕ)
unfolding against_existing
entry_bytes_of config fragment none =
    err (inconsistent_reassembly_state "reassembly entry is missing after insertion")
entry_bytes_of config fragment (some entry) =
    if not (entry.fragment_count == fragment.header.fragment_count)
      || not (entry.total_len == fragment.header.total_len)
    then err conflicting_fragment
    else against_existing config entry fragment.payload
        (get_or entry.fragments fragment.header.fragment_index none)

-- One round of the loop that makes room; `rest` are the rounds after it.
pub room_round : Key → ℕ → Action (Unit {0}) → Option ℕ → Action (Unit {0})
unfolding evicted_or evict_oldest_except
room_round key len rest none r = some (err (reassembly_limit "buffer byte counter overflow"), r)
room_round key len rest (some new_total) r =
    if leb new_total r.config.max_total_bytes
    then some (ok tt, r)
    else (do
      evicted ← evict_oldest_except (some key)
      evicted_or (reassembly_limit "maximum buffered fragment bytes reached") evicted
      rest)
        r

-- Each round but the last removes an entry, so one round more than there are entries is enough.
pub make_room : ℕ → Key → ℕ → Action (Unit {0})
unfolding room_round
make_room zero key len r = none
make_room (suc fuel) key len r =
    room_round key len (make_room fuel key len) (checked_add r.total_bytes len) r

-- The `for` loop over the fragments of a complete entry.
pub join : List ℕ → List (Option (List ℕ)) → UdpTransportResult (List ℕ)
join message [] = ok message
join message (none ∷ fragments) =
    err (inconsistent_reassembly_state "completed message contains a missing fragment")
join message (some fragment ∷ fragments) = join (message ++ fragment) fragments

pub some_message : UdpTransportResult (List ℕ) → UdpTransportResult (Option (List ℕ))
some_message (ok message) = ok (some message)
some_message (err e) = err e

-- The end of `push` once the entry is complete.
pub complete : Key → Option ReassemblyEntry → Action (Option (List ℕ))
unfolding join some_message
complete key none r =
    some (err (inconsistent_reassembly_state "complete reassembly entry is missing"), r)
complete key (some entry) r = some (
  if entry.received_bytes == entry.total_len
      then some_message (join [] entry.fragments)
      else err (invalid_header "reassembled length does not match total_len"),
  record r { entries = remove key r.entries; total_bytes = r.total_bytes - entry.received_bytes },
)

-- The entry with the fragment stored.
pub with_fragment : ReassemblyEntry → ℕ → List ℕ → ℕ → ℕ → ReassemblyEntry
with_fragment entry index payload entry_bytes now = record entry {
  fragments = set entry.fragments index (some payload);
  received_count = entry.received_count + 1;
  received_bytes = entry_bytes;
  updated_at = now;
}

pub store_in :
    Key → DecryptedUdpFragment → ℕ → ℕ → ℕ → Option ReassemblyEntry → Action (Option (List ℕ))
unfolding complete with_fragment
store_in key fragment entry_bytes now new_total none r =
    some (err (inconsistent_reassembly_state "current reassembly entry was evicted"), r)
store_in key fragment entry_bytes now new_total (some old) r =
    let entry = with_fragment old fragment.header.fragment_index fragment.payload entry_bytes now in
    let stored = record r { entries = insert key entry r.entries; total_bytes = new_total } in
    if not (entry.received_count == entry.fragment_count)
    then some (ok none, stored)
    else complete key (lookup key stored.entries) stored

pub store : Key → DecryptedUdpFragment → ℕ → ℕ → Option ℕ → Action (Option (List ℕ))
unfolding store_in
store key fragment entry_bytes now none r =
    some (err (reassembly_limit "buffer byte counter overflow"), r)
store key fragment entry_bytes now (some new_total) r =
    store_in key fragment entry_bytes now new_total (lookup key r.entries) r

-- What follows the block that computes `entry_bytes`.
pub accept : Key → DecryptedUdpFragment → ℕ → Option ℕ → Action (Option (List ℕ))
unfolding make_room store
accept key fragment now none = pure none
accept key fragment now (some entry_bytes) = do
  count ← gets entry_count
  make_room (suc count) key (length fragment.payload)
  new_total ← gets (λ r. checked_add r.total_bytes (length fragment.payload))
  store key fragment entry_bytes now new_total

abbrev pub key_of : DecryptedUdpFragment → Key
key_of fragment = (fragment.header.session_id, fragment.header.message_id)

-- `push` of a message of several fragments
pub push_part : DecryptedUdpFragment → ℕ → Action (Option (List ℕ))
unfolding cleanup_expired ensure_entry entry_bytes_of accept
push_part fragment now = do
  cleanup_expired now
  known ← gets (λ r. lookup (key_of fragment) r.entries)
  ensure_entry (key_of fragment) fragment now known
  checked ← gets (λ r. entry_bytes_of r.config fragment (lookup (key_of fragment) r.entries))
  entry_bytes ← lift checked
  accept (key_of fragment) fragment now entry_bytes

unfoldable pub push : DecryptedUdpFragment → ℕ → Action (Option (List ℕ))
unfolding push_part
push fragment now = do
  lift (validate_fragment fragment)
  if fragment.header.fragment_count == 1
      then lift (
          if length fragment.payload == fragment.header.total_len
          then ok (some fragment.payload)
          else err (invalid_header "single fragment length does not match total_len"))
      else push_part fragment now
