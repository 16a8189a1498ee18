-- ===== src/Egress/Sources.antt =====
-- What the choice from a snapshot in proxy/src/connection/egress/source.rs depends on.
use ppaass_ai.Base.{
  ℕ, suc, ◌<◌, ◌≡◌, refl, ap, ◌∙◌, Bool, true, false, ◌||◌, Option, List, [], ◌∷◌, inl, inr,
  Bool-cases, bytes_eq, if◌then◌else◌, arith, length, map,
}
use ppaass_ai.Base.Result.{Result, ok, err}
use ppaass_ai.Egress.{
  SourceError, not_found, no_source_address, no_address_family, Destination, to_v4, to_v6, IfAddr,
  v4, v6, Interface, BoundSource, SourceCandidate, Found, add_address, candidate, collect,
  sort_by_score, ipv6_scope_id, ipv4_source_score, ipv6_source_score, chosen,
  interface_bind_addrs_from_snapshot,
}
use ppaass_ai.Egress.Suitable.{
  is_named, same_family, is_suitable, count, length-sort_by_score, length-map_source,
  length-candidate, score-v4, score-v6,
}

-- What one interface of the name adds.
record IsAdded (dst : Destination) (addr : IfAddr) (f after : Found) : Type 0 where
  named : after.interface_exists ≡ true
  family : after.address_family_exists ≡ (same_family dst addr || f.address_family_exists)
  candidates :
      length after.candidates
      ≡ (if is_suitable dst addr then suc (length f.candidates) else length f.candidates)

add_address-IsAdded :
    (dst : Destination) (addr : IfAddr) (index : Option ℕ) (f : Found)
    → IsAdded dst addr f (add_address dst addr index f)
unfolding add_address candidate ipv4_source_score ipv6_source_score
add_address-IsAdded (to_v4 d) (v4 ip m) index f = record {
  named = refl;
  family = refl;
  candidates =
      rw
        (
          length-candidate (ipv4_source_score ip m d)
              (record { addr = to_v4 ip; scope_id = 0; interface_index = index }) f.candidates,
          score-v4 ip m d,
        )
        refl;
}
add_address-IsAdded (to_v4 d) (v6 ip m) index f = record {
  named = refl;
  family = refl;
  candidates = refl;
}
add_address-IsAdded (to_v6 d) (v4 ip m) index f = record {
  named = refl;
  family = refl;
  candidates = refl;
}
add_address-IsAdded (to_v6 d) (v6 ip m) index f = record {
  named = refl;
  family = refl;
  candidates =
      rw
        (
          length-candidate (ipv6_source_score ip m d)
              (record {
                addr = to_v6 ip;
                scope_id = ipv6_scope_id ip index;
                interface_index = index;
              })
              f.candidates,
          score-v6 ip m d,
        )
        refl;
}

-- What the loop finds.
record IsFound (name : List ℕ) (dst : Destination) (is : List Interface) (found : Found)
    : Type 0 where
  named : found.interface_exists ≡ is_named name is
  family : found.address_family_exists ≡ true → 0 < count (same_family dst) name is
  no_family : found.address_family_exists ≡ false → count (same_family dst) name is ≡ 0
  candidates : length found.candidates ≡ count (is_suitable dst) name is

collect-IsFound :
    (name : List ℕ) (dst : Destination) (is : List Interface)
    → IsFound name dst is (collect name dst is)
unfolding collect count
collect-IsFound name dst [] = record {
  named = refl;
  family = λ e. absurd cc;
  no_family = λ e. refl;
  candidates = refl;
}
collect-IsFound name dst (i ∷ is) =
    let r = collect-IsFound name dst is in
    let a = add_address-IsAdded dst i.addr i.index (collect name dst is) in
    elim (Bool-cases (bytes_eq i.name name)) [
      | inl e ↦ record {
        named = rw e a.named;
        family = rw e (λ h. ground (arith, a.family, r.family, h));
        no_family = rw e (λ h. ground (arith, a.family, r.no_family, h));
        candidates = rw e (
            a.candidates
            ∙ ap (λ (n : ℕ). if is_suitable dst i.addr then suc n else n) r.candidates);
      }
      | inr e ↦ record {
        named = rw e r.named;
        family = rw e r.family;
        no_family = rw e r.no_family;
        candidates = rw e r.candidates;
      }
    ]

count-is_named :
    (test : IfAddr → Bool) (name : List ℕ) (is : List Interface)
    → 0 < count test name is
    → is_named name is ≡ true
unfolding count
count-is_named test name [] h = absurd (omega (arith, h))
count-is_named test name (i ∷ is) h = elim (Bool-cases (bytes_eq i.name name)) [
  | inl e ↦ rw e refl
  | inr e ↦ rw e (count-is_named test name is (rw e at h))
]

-- The choice by what is in the list under the name.
pub record IsChosen (name : List ℕ) (dst : Destination) (is : List Interface)
    (result : Result SourceError (List BoundSource)) : Type 0 where
  pub unknown : is_named name is ≡ false → result ≡ err not_found
  pub other_family :
      is_named name is ≡ true → count (same_family dst) name is ≡ 0 → result ≡ err no_address_family
  pub unsuitable :
      0 < count (same_family dst) name is
      → count (is_suitable dst) name is ≡ 0
      → result ≡ err no_source_address
  pub suitable :
      0 < count (is_suitable dst) name is
      → (sources : List BoundSource) × (result ≡ ok sources)
        × (length sources ≡ count (is_suitable dst) name is)

chosen-some :
    (family : Bool) (cs : List SourceCandidate)
    → 0 < length cs
    → (sources : List BoundSource) × (chosen true family cs ≡ ok sources)
      × (length sources ≡ length cs)
unfolding chosen
chosen-some family [] h = absurd (omega (arith, h))
chosen-some family (c ∷ cs) h = (
  map (λ (d : SourceCandidate). d.source) (sort_by_score (c ∷ cs)),
  refl,
  length-map_source (sort_by_score (c ∷ cs)) ∙ length-sort_by_score (c ∷ cs),
)

chosen-none :
    (family : Bool) (cs : List SourceCandidate)
    → length cs ≡ 0
    → chosen true family cs ≡ err (if family then no_source_address else no_address_family)
unfolding chosen
chosen-none family [] h = refl
chosen-none family (c ∷ cs) h = absurd (omega (arith, h))

no_family_none :
    (dst : Destination) (name : List ℕ) (is : List Interface)
    → count (same_family dst) name is ≡ 0
    → count (is_suitable dst) name is ≡ 0
unfolding count
no_family_none dst name [] h = refl
no_family_none dst name (i ∷ is) h = elim (Bool-cases (bytes_eq i.name name)) [
  | inl e ↦ rw e (other dst i.addr (no_family_none dst name is) (rw e at h))
  | inr e ↦ rw e (no_family_none dst name is (rw e at h))
]
  where
    other :
        (dst : Destination) (addr : IfAddr) {m n : ℕ}
        → (m ≡ 0 → n ≡ 0)
        → (if same_family dst addr then suc m else m) ≡ 0
        → (if is_suitable dst addr then suc n else n) ≡ 0
    other (to_v4 d) (v4 ip k) later h = absurd (omega (arith, h))
    other (to_v4 d) (v6 ip k) later h = later h
    other (to_v6 d) (v4 ip k) later h = later h
    other (to_v6 d) (v6 ip k) later h = absurd (omega (arith, h))

-- A device that no interface of the snapshot is named by is not found. If it is there but has no address of
-- the destination's family, or has some of which none is suitable, these are two other errors. Else
-- as many sources are given as it has suitable addresses.
pub interface_bind_addrs_from_snapshot-IsChosen :
    (name : List ℕ) (dst : Destination) (interfaces : List Interface)
    → IsChosen name dst interfaces (interface_bind_addrs_from_snapshot name dst interfaces)
unfolding interface_bind_addrs_from_snapshot chosen
interface_bind_addrs_from_snapshot-IsChosen name dst interfaces =
    let found = collect name dst interfaces in
    let f = collect-IsFound name dst interfaces in
    record {
      unknown = λ e. rw (f.named, e) (unknown found.address_family_exists found.candidates);
      other_family = λ named none_.
          rw (f.named, named)
            (chosen-none found.address_family_exists found.candidates
                (f.candidates ∙ no_family_none dst name interfaces none_)
              ∙ ap fail_with
                  (no_address found.address_family_exists (λ h. omega (arith, f.family h, none_))));
      unsuitable = λ some_ none_.
          rw (f.named, count-is_named (same_family dst) name interfaces some_)
            (chosen-none found.address_family_exists found.candidates (f.candidates ∙ none_)
              ∙ ap fail_with (
                  an_address found.address_family_exists
                    (λ h. omega (arith, f.no_family h, some_))));
      suitable = λ some_.
          let (sources, given, size) =
            chosen-some found.address_family_exists found.candidates
              (omega (arith, f.candidates, some_)) in
          (
            sources,
            rw (f.named, count-is_named (is_suitable dst) name interfaces some_) given,
            size ∙ f.candidates,
          );
    }
  where
    unknown : (family : Bool) (cs : List SourceCandidate) → chosen false family cs ≡ err not_found
    unknown family cs = refl

    fail_with : Bool → Result SourceError (List BoundSource)
    fail_with family = err (if family then no_source_address else no_address_family)

    no_address : (b : Bool) → (b ≡ true → ⊥) → b ≡ false
    no_address true h = absurd (h refl)
    no_address false h = refl

    an_address : (b : Bool) → (b ≡ false → ⊥) → b ≡ true
    an_address true h = refl
    an_address false h = absurd (h refl)
