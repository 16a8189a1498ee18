-- ===== src/DomainCache/Distinct.antt =====
-- The domains that the cache of desktop-agent-be/src/tun_handler/direct_domain_cache.rs keeps, and how
-- often each stands in its list.
use ppaass_ai.Base.{
  ℕ, ◌≡◌, ◌≢◌, sym, inl, inr, Bool, Bool-cases, true, false, Option, none, some, List, [], ◌∷◌,
  ◌++◌, leb, length, ◌==◌, ◌+◌, if◌then◌else◌, bytes_eq, bytes_eq_iff,
}
use ppaass_ai.Base.Assoc.{lookup, insert, remove}
use ppaass_ai.DirectAccess.{IpAddr, ip_eq, any_of}
use ppaass_ai.DomainCache.{
  CacheTexts, DomainCacheEntry, DirectDomainCache, address_eq, normalize_domain, add_domain,
  refreshed, record_address, record_answers, record_resolution, match_entry, matching_domain_for_ip,
}

abbrev pub IsNew : List ℕ → List (List ℕ) → Type 0
IsNew domain [] = Unit
IsNew domain (d ∷ ds) = (d ≢ domain) × IsNew domain ds

-- No domain stands twice.
abbrev pub AreDistinct : List (List ℕ) → Type 0
AreDistinct [] = Unit
AreDistinct (d ∷ ds) = IsNew d ds × AreDistinct ds

abbrev pub HaveDistinct : List (IpAddr × DomainCacheEntry) → Type 0
HaveDistinct [] = Unit
HaveDistinct ((ip, entry) ∷ entries) = AreDistinct entry.domains × HaveDistinct entries

IsNew-append :
    (domain e : List ℕ) (ds : List (List ℕ))
    → e ≢ domain
    → IsNew domain ds
    → IsNew domain (ds ++ (e ∷ []))
IsNew-append domain e [] other new = (other, tt)
IsNew-append domain e (d ∷ ds) other (first, new) = (first, IsNew-append domain e ds other new)

AreDistinct-append :
    (domain : List ℕ) (ds : List (List ℕ))
    → any_of (λ existing. bytes_eq existing domain) ds ≡ false
    → AreDistinct ds
    → AreDistinct (ds ++ (domain ∷ []))
AreDistinct-append domain [] new h = (tt, tt)
AreDistinct-append domain (d ∷ ds) new (first, h) = elim (Bool-cases (bytes_eq d domain)) [
  | inl same ↦ absurd (clash (any_of (λ existing. bytes_eq existing domain) ds) (rw same at new))
  | inr other ↦ (
    IsNew-append d domain ds (λ e. no (bytes_eq d domain) other ((bytes_eq_iff d domain).1 (sym e)))
        first,
    AreDistinct-append domain ds (rw other at new) h,
  )
]
  where
    clash : (b : Bool) → true ≡ false → ⊥
    clash b e = cc

    no : (b : Bool) → b ≡ false → b ≡ true → ⊥
    no b e f = cc

add_domain-AreDistinct :
    (domain : List ℕ) (ds : List (List ℕ)) → AreDistinct ds → AreDistinct (add_domain domain ds)
unfolding add_domain
add_domain-AreDistinct domain ds h =
    elim (Bool-cases (any_of (λ existing. bytes_eq existing domain) ds)) [
      | inl e ↦ rw e h
      | inr e ↦ rw e (AreDistinct-append domain ds e h)
    ]

abbrev EntryDistinct : Option DomainCacheEntry → Type 0
EntryDistinct none = Unit
EntryDistinct (some entry) = AreDistinct entry.domains

lookup-EntryDistinct :
    (ip : IpAddr) (m : List (IpAddr × DomainCacheEntry))
    → HaveDistinct m
    → EntryDistinct (lookup ip m)
unfolding lookup
lookup-EntryDistinct ip [] h = tt
lookup-EntryDistinct ip ((j, entry) ∷ m) (first, h) = elim (Bool-cases (ip_eq j ip)) [
  | inl e ↦ rw e first
  | inr e ↦ rw e (lookup-EntryDistinct ip m h)
]

insert-HaveDistinct :
    (ip : IpAddr) (entry : DomainCacheEntry) (m : List (IpAddr × DomainCacheEntry))
    → AreDistinct entry.domains
    → HaveDistinct m
    → HaveDistinct (insert ip entry m)
unfolding insert
insert-HaveDistinct ip entry [] new h = (new, tt)
insert-HaveDistinct ip entry ((j, old) ∷ m) new (first, h) = elim (Bool-cases (ip_eq j ip)) [
  | inl e ↦ rw e (new, h)
  | inr e ↦ rw e (first, insert-HaveDistinct ip entry m new h)
]

remove-HaveDistinct :
    (ip : IpAddr) (m : List (IpAddr × DomainCacheEntry))
    → HaveDistinct m
    → HaveDistinct (remove ip m)
unfolding remove
remove-HaveDistinct ip [] h = tt
remove-HaveDistinct ip ((j, old) ∷ m) (first, h) = elim (Bool-cases (ip_eq j ip)) [
  | inl e ↦ rw e h
  | inr e ↦ rw e (first, remove-HaveDistinct ip m h)
]

refreshed-AreDistinct :
    (now : ℕ) (domain : List ℕ) (until : ℕ) (entry : Option DomainCacheEntry)
    → EntryDistinct entry
    → AreDistinct (refreshed now domain until entry).domains
unfolding refreshed
refreshed-AreDistinct now domain until none h = (tt, tt)
refreshed-AreDistinct now domain until (some entry) h =
    add_domain-AreDistinct domain (if leb entry.expires_at now then [] else entry.domains)
      (elim (Bool-cases (leb entry.expires_at now)) [ inl e ↦ rw e tt | inr e ↦ rw e h ])

abbrev pub IsDistinctCache : DirectDomainCache → Type 0
IsDistinctCache c = HaveDistinct c.ip_to_domains

record_address-IsDistinctCache :
    (now : ℕ) (domain : List ℕ) (until : ℕ) (ip : Option IpAddr) (c : DirectDomainCache)
    → IsDistinctCache c
    → IsDistinctCache (record_address now domain until ip c)
unfolding record_address
record_address-IsDistinctCache now domain until none c h = h
record_address-IsDistinctCache now domain until (some ip) c h =
    let entry = refreshed now domain until (lookup ip c.ip_to_domains) in
    insert-HaveDistinct ip entry c.ip_to_domains
      (refreshed-AreDistinct now domain until (lookup ip c.ip_to_domains)
        (lookup-EntryDistinct ip c.ip_to_domains h))
      h

record_answers-IsDistinctCache :
    (texts : CacheTexts) (domain : List ℕ) (until : ℕ) (answers : List (ℕ × List ℕ))
    (c : DirectDomainCache)
    → IsDistinctCache c
    → IsDistinctCache (record_answers texts domain until answers c)
unfolding record_answers
record_answers-IsDistinctCache texts domain until [] c h = h
record_answers-IsDistinctCache texts domain until ((now, answer) ∷ answers) c h =
    record_answers-IsDistinctCache texts domain until answers
      (record_address now domain until (texts.parse_ip answer) c)
      (record_address-IsDistinctCache now domain until (texts.parse_ip answer) c h)

pub record_resolution-IsDistinctCache :
    (texts : CacheTexts) (now : ℕ) (query : List ℕ) (answers : List (ℕ × List ℕ))
    (c : DirectDomainCache)
    → IsDistinctCache c
    → IsDistinctCache (record_resolution texts now query answers c)
unfolding record_resolution
record_resolution-IsDistinctCache texts now query answers c h =
    elim (Bool-cases (length (normalize_domain texts query) == 0)) [
      | inl e ↦ rw e h
      | inr e ↦ rw e (
          record_answers-IsDistinctCache texts (normalize_domain texts query) (now + c.ttl) answers
            c h)
    ]

pub matching-IsDistinctCache :
    (now : ℕ) (ip : IpAddr) (predicate : List ℕ → Bool) (c : DirectDomainCache)
    → IsDistinctCache c
    → IsDistinctCache (matching_domain_for_ip now ip predicate c).1
unfolding matching_domain_for_ip match_entry
matching-IsDistinctCache now ip predicate c h = known (lookup ip c.ip_to_domains)
  where
    known :
        (entry : Option DomainCacheEntry) → IsDistinctCache (match_entry now ip predicate entry c).1
    known none = h
    known (some entry) = elim (Bool-cases (leb entry.expires_at now)) [
      | inl e ↦ rw e (remove-HaveDistinct ip c.ip_to_domains h)
      | inr e ↦ rw e h
    ]
