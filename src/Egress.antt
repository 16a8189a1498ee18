-- ===== src/Egress.antt =====
-- The choice of a source address in proxy/src/connection/egress/source.rs.
-- An address is a number of 32 or 128 bits. An error keeps its kind and which of its messages it has.
mod Tests
pub mod Suitable
pub mod Sources
use Prim.Native.Nat.{bit_and}
use ppaass_ai.Base.{
  ℕ, ◌*◌, ◌/◌, ◌^◌, Bool, true, false, not, ◌&&◌, ◌||◌, Option, none, some, List, [], ◌∷◌, map, leb,
  ◌==◌, if◌then◌else◌, bytes_eq,
}
use ppaass_ai.Base.Result.{Result, ok, err}

pub data SourceError : Type 0 where
  not_found no_source_address no_address_family : SourceError

-- An interface's address with its netmask.
pub data IfAddr : Type 0 where
  v4 v6 : ℕ → ℕ → IfAddr

pub data Destination : Type 0 where
  to_v4 to_v6 : ℕ → Destination

pub record Interface : Type 0 where
  pub name : List ℕ
  pub addr : IfAddr
  pub index : Option ℕ

pub record BoundSource : Type 0 where
  pub addr : Destination
  pub scope_id : ℕ
  pub interface_index : Option ℕ

pub record SourceCandidate : Type 0 where
  pub source : BoundSource
  pub score : ℕ

abbrev pub bool_eq : Bool → Bool → Bool
bool_eq true b = b
bool_eq false b = not b

-- `Ipv4Addr::is_link_local`, 169.254.0.0/16
abbrev pub is_link_local : ℕ → Bool
is_link_local ip = ip / 2 ^ 16 == 43518

abbrev pub same_subnet : ℕ → ℕ → ℕ → Bool
same_subnet ip netmask dst = bit_and ip netmask == bit_and dst netmask

unfoldable pub ipv4_source_score : ℕ → ℕ → ℕ → Option ℕ
ipv4_source_score ip netmask dst =
    if ip == 0 || ip / 2 ^ 24 == 127
    then none
    else if not (is_link_local dst) && is_link_local ip
    then none
    else if same_subnet ip netmask dst
    then some 0
    else some 1

-- The first byte is 0xfe and the two highest bits of the second are 0b10.
abbrev pub ipv6_is_unicast_link_local : ℕ → Bool
ipv6_is_unicast_link_local ip = ip / 2 ^ 118 == 1018

unfoldable pub ipv6_source_score : ℕ → ℕ → ℕ → Option ℕ
ipv6_source_score ip netmask dst =
    if ip == 0 || ip == 1
    then none
    else if not (bool_eq (ipv6_is_unicast_link_local ip) (ipv6_is_unicast_link_local dst))
    then none
    else if same_subnet ip netmask dst
    then some 0
    else some 1

abbrev pub unwrap_or_zero : Option ℕ → ℕ
unwrap_or_zero none = 0
unwrap_or_zero (some n) = n

abbrev pub ipv6_scope_id : ℕ → Option ℕ → ℕ
ipv6_scope_id ip interface_index =
    if ipv6_is_unicast_link_local ip then unwrap_or_zero interface_index else 0

-- What the loop collects.
pub record Found : Type 0 where
  pub interface_exists : Bool
  pub address_family_exists : Bool
  pub candidates : List SourceCandidate

pub candidate : Option ℕ → BoundSource → List SourceCandidate → List SourceCandidate
candidate none source candidates = candidates
candidate (some score) source candidates = (record { source = source; score = score }) ∷ candidates

-- One interface of the name; `found` is what the interfaces after it give.
pub add_address : Destination → IfAddr → Option ℕ → Found → Found
unfolding candidate
add_address (to_v4 dst) (v4 ip netmask) index found = record {
  interface_exists = true;
  address_family_exists = true;
  candidates =
      candidate (ipv4_source_score ip netmask dst)
        (record { addr = to_v4 ip; scope_id = 0; interface_index = index }) found.candidates;
}
add_address (to_v6 dst) (v6 ip netmask) index found = record {
  interface_exists = true;
  address_family_exists = true;
  candidates =
      candidate (ipv6_source_score ip netmask dst)
        (record { addr = to_v6 ip; scope_id = ipv6_scope_id ip index; interface_index = index })
        found.candidates;
}
add_address dst addr index found = record found { interface_exists = true }

pub collect : List ℕ → Destination → List Interface → Found
unfolding add_address
collect interface dst [] = record {
  interface_exists = false;
  address_family_exists = false;
  candidates = [];
}
collect interface dst (iface ∷ interfaces) =
    let rest = collect interface dst interfaces in
    if bytes_eq iface.name interface then add_address dst iface.addr iface.index rest else rest

-- `sort_by_key(|candidate| candidate.score)`, which keeps the order of equal scores.
pub insert_by_score : SourceCandidate → List SourceCandidate → List SourceCandidate
insert_by_score c [] = c ∷ []
insert_by_score c (d ∷ ds) =
    let rest = insert_by_score c ds in if leb c.score d.score then c ∷ (d ∷ ds) else d ∷ rest

pub sort_by_score : List SourceCandidate → List SourceCandidate
unfolding insert_by_score
sort_by_score [] = []
sort_by_score (c ∷ cs) = insert_by_score c (sort_by_score cs)

pub chosen : Bool → Bool → List SourceCandidate → Result SourceError (List BoundSource)
unfolding sort_by_score
chosen false family candidates = err not_found
chosen true family [] = err (if family then no_source_address else no_address_family)
chosen true family (c ∷ cs) = ok (map (λ (d : SourceCandidate). d.source) (sort_by_score (c ∷ cs)))

unfoldable pub interface_bind_addrs_from_snapshot :
    List ℕ → Destination → List Interface → Result SourceError (List BoundSource)
unfolding collect chosen
interface_bind_addrs_from_snapshot interface dst interfaces =
    let found = collect interface dst interfaces in
    chosen found.interface_exists found.address_family_exists found.candidates
