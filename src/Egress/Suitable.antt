-- ===== src/Egress/Suitable.antt =====
-- Which addresses can be a source, for proxy/src/connection/egress/source.rs, and how many there are.
use ppaass_ai.Base.{
  ℕ, suc, ◌/◌, ◌^◌, ◌≡◌, refl, ap, ◌∙◌, Bool, true, false, not, ◌&&◌, ◌||◌, Option, none, some,
  List, [], ◌∷◌, inl, inr, Bool-cases, bytes_eq, ◌==◌, if◌then◌else◌, arith, length, map, leb,
}
use ppaass_ai.Egress.{
  Destination, to_v4, to_v6, IfAddr, v4, v6, Interface, BoundSource, SourceCandidate, candidate,
  insert_by_score, sort_by_score, same_subnet, bool_eq, ipv4_source_score, ipv6_source_score,
}

abbrev pub is_some : Option ℕ → Bool
is_some none = false
is_some (some n) = true

-- An interface of this name is in the list.
abbrev pub is_named : List ℕ → List Interface → Bool
is_named name [] = false
is_named name (i ∷ is) = bytes_eq i.name name || is_named name is

abbrev pub same_family : Destination → IfAddr → Bool
same_family (to_v4 dst) (v4 ip netmask) = true
same_family (to_v6 dst) (v6 ip netmask) = true
same_family _ _ = false

-- An address that can be a source for the destination: not unspecified, not the loopback, and link-local
-- for IPv4 only if the destination is, for IPv6 exactly if it is.
abbrev pub is_suitable : Destination → IfAddr → Bool
is_suitable (to_v4 dst) (v4 ip netmask) =
    not (ip == 0)
    && not (ip / 2 ^ 24 == 127)
    && (not (ip / 2 ^ 16 == 43518) || dst / 2 ^ 16 == 43518)
is_suitable (to_v6 dst) (v6 ip netmask) =
    not (ip == 0)
    && not (ip == 1)
    && ((ip / 2 ^ 118 == 1018 && dst / 2 ^ 118 == 1018)
        || (not (ip / 2 ^ 118 == 1018) && not (dst / 2 ^ 118 == 1018)))
is_suitable _ _ = false

-- How many interfaces of the name pass a test of their addresses.
unfoldable pub count : (IfAddr → Bool) → List ℕ → List Interface → ℕ
count test name [] = 0
count test name (i ∷ is) =
    let rest = count test name is in if bytes_eq i.name name && test i.addr then suc rest else rest

pub length-insert_by_score :
    (c : SourceCandidate) (ds : List SourceCandidate)
    → length (insert_by_score c ds) ≡ suc (length ds)
unfolding insert_by_score
length-insert_by_score c [] = refl
length-insert_by_score c (d ∷ ds) = elim (Bool-cases (leb c.score d.score)) [
  | inl e ↦ rw e refl
  | inr e ↦ rw e (ap suc (length-insert_by_score c ds))
]

pub length-sort_by_score : (cs : List SourceCandidate) → length (sort_by_score cs) ≡ length cs
unfolding sort_by_score
length-sort_by_score [] = refl
length-sort_by_score (c ∷ cs) =
    length-insert_by_score c (sort_by_score cs) ∙ ap suc (length-sort_by_score cs)

pub length-map_source :
    (cs : List SourceCandidate) → length (map (λ (d : SourceCandidate). d.source) cs) ≡ length cs
length-map_source [] = refl
length-map_source (c ∷ cs) = ap suc (length-map_source cs)

pub length-candidate :
    (o : Option ℕ) (source : BoundSource) (cs : List SourceCandidate)
    → length (candidate o source cs) ≡ (if is_some o then suc (length cs) else length cs)
unfolding candidate
length-candidate none source cs = refl
length-candidate (some score) source cs = refl

pub score-v4 : (ip m d : ℕ) → is_some (ipv4_source_score ip m d) ≡ is_suitable (to_v4 d) (v4 ip m)
unfolding ipv4_source_score
score-v4 ip m d =
    scored (ip == 0) (ip / 2 ^ 24 == 127) (ip / 2 ^ 16 == 43518) (d / 2 ^ 16 == 43518)
      (same_subnet ip m d)
  where
    scored :
        (any loop local to subnet : Bool)
        → is_some (
            if any || loop
            then none
            else if not to && local
            then none
            else if subnet
            then some 0
            else some 1)
          ≡ (not any && not loop && (not local || to))
    scored any loop local to subnet = ground arith

pub score-v6 : (ip m d : ℕ) → is_some (ipv6_source_score ip m d) ≡ is_suitable (to_v6 d) (v6 ip m)
unfolding ipv6_source_score
score-v6 ip m d =
    scored (ip == 0) (ip == 1) (ip / 2 ^ 118 == 1018) (d / 2 ^ 118 == 1018) (same_subnet ip m d)
  where
    scored :
        (any loop local to subnet : Bool)
        → is_some (
            if any || loop
            then none
            else if not (bool_eq local to)
            then none
            else if subnet
            then some 0
            else some 1)
          ≡ (not any && not loop && ((local && to) || (not local && not to)))
    scored any loop true true subnet = ground arith
    scored any loop true false subnet = ground arith
    scored any loop false true subnet = ground arith
    scored any loop false false subnet = ground arith
