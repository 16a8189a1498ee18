-- ===== src/DomainCache/Log.antt =====
-- The cache of desktop-agent-be/src/tun_handler/direct_domain_cache.rs beside a log that forgets nothing.
pub mod Oldest
pub mod Runs
use ppaass_ai.Base.{
  ℕ, ◌≡◌, refl, sym, ap, ap₂, subst, ◌∙◌, inl, inr, ◌+◌, ◌≤◌, Bool, Bool-cases, true, Option, none,
  some, List, [], ◌∷◌, length, leb, ◌==◌, if◌then◌else◌, arith,
}
use ppaass_ai.Base.Assoc.{lookup, lookup-insert, lookup-remove, insert-IsMap, remove-IsMap, IsMap}
use ppaass_ai.DirectAccess.{IpAddr, ip_eq}
use ppaass_ai.DomainCache.{
  CacheTexts, DomainCacheEntry, DirectDomainCache, new, address_eq, ip_eq_iff, normalize_domain,
  add_domain, refreshed, record_address, record_answers, record_resolution, find_domain,
  match_entry, matching_domain_for_ip,
}

-- That an address was given for a domain.
pub record Recording : Type 0 where
  pub ip : IpAddr
  pub domain : List ℕ
  pub at : ℕ
  pub until : ℕ

-- The domains of an address at a time, from the latest recording back: those of the last recording and, if
-- it was made in time, of those before it.
unfoldable pub log_domains : List Recording → IpAddr → ℕ → List (List ℕ)
unfolding add_domain
log_domains [] ip t = []
log_domains (r ∷ log) ip t =
    if ip_eq r.ip ip
    then if leb r.until t then [] else add_domain r.domain (log_domains log ip r.at)
    else log_domains log ip t

abbrev log_address : ℕ → List ℕ → ℕ → Option IpAddr → List Recording → List Recording
log_address now domain until none log = log
log_address now domain until (some ip) log =
    record { ip = ip; domain = domain; at = now; until = until } ∷ log

unfoldable pub log_answers :
    CacheTexts → List ℕ → ℕ → List (ℕ × List ℕ) → List Recording → List Recording
log_answers texts domain until [] log = log
log_answers texts domain until ((now, answer) ∷ answers) log =
    log_answers texts domain until answers
      (log_address now domain until (texts.parse_ip answer) log)

-- The domains of an entry that count at a time.
abbrev pub live_entry : Option DomainCacheEntry → ℕ → List (List ℕ)
live_entry none t = []
live_entry (some entry) t = if leb entry.expires_at t then [] else entry.domains

abbrev pub live : DirectDomainCache → IpAddr → ℕ → List (List ℕ)
live c ip t = live_entry (lookup ip c.ip_to_domains) t

-- From a time on, a cache knows what the log knows.
pub record Stands (ttl now : ℕ) (c : DirectDomainCache) (log : List Recording) : Type 0 where
  pub same_ttl : c.ttl ≡ ttl
  pub distinct : IsMap c.ip_to_domains
  pub same : (ip : IpAddr) (t : ℕ) → now ≤ t → live c ip t ≡ log_domains log ip t

live-refreshed :
    (now : ℕ) (domain : List ℕ) (until : ℕ) (entry : Option DomainCacheEntry) (t : ℕ)
    → live_entry (some (refreshed now domain until entry)) t
      ≡ (if leb until t then [] else add_domain domain (live_entry entry now))
unfolding refreshed add_domain
live-refreshed now domain until none t = refl
live-refreshed now domain until (some entry) t = refl

record_address-Stands :
    (ttl before now : ℕ) (domain : List ℕ) (until : ℕ) (ip : Option IpAddr) (c : DirectDomainCache)
    (log : List Recording)
    → Stands ttl before c log
    → before ≤ now
    → Stands ttl now (record_address now domain until ip c) (log_address now domain until ip log)
unfolding record_address log_domains
record_address-Stands ttl before now domain until none c log h later = record {
  same_ttl = h.same_ttl;
  distinct = h.distinct;
  same = λ ip t t_later. h.same ip t (omega (arith, later, t_later));
}
record_address-Stands ttl before now domain until (some ip) c log h later =
    let entry = refreshed now domain until (lookup ip c.ip_to_domains) in
    record {
      same_ttl = h.same_ttl;
      distinct = insert-IsMap ip entry c.ip_to_domains h.distinct;
      same = λ j t t_later.
          ap (λ e. live_entry e t) (lookup-insert ip j entry c.ip_to_domains)
          ∙ at_address j t t_later;
    }
  where
    at_address :
        (j : IpAddr) (t : ℕ)
        → now ≤ t
        → live_entry
            (if ip_eq ip j
              then some (refreshed now domain until (lookup ip c.ip_to_domains))
              else lookup j c.ip_to_domains)
            t
          ≡ log_domains (record { ip = ip; domain = domain; at = now; until = until } ∷ log) j t
    at_address j t t_later = elim (Bool-cases (ip_eq ip j)) [
      | inl this ↦
          let e = (ip_eq_iff ip j).0 this in
          rw this (
            live-refreshed now domain until (lookup ip c.ip_to_domains) t
            ∙ ap (λ (ds : List (List ℕ)). if leb until t then [] else add_domain domain ds)
                (h.same ip now later ∙ ap (λ (k : IpAddr). log_domains log k now) e))
      | inr other ↦ rw other (h.same j t (omega (arith, later, t_later)))
    ]

-- The time of the last of some answers, and that their times do not fall.
abbrev pub last_time : ℕ → List (ℕ × List ℕ) → ℕ
last_time now [] = now
last_time now ((t, answer) ∷ answers) = last_time t answers

abbrev pub AreTimed : ℕ → List (ℕ × List ℕ) → Type 0
AreTimed now [] = Unit
AreTimed now ((t, answer) ∷ answers) = (now ≤ t) × AreTimed t answers

record_answers-Stands :
    (texts : CacheTexts) (ttl now : ℕ) (domain : List ℕ) (until : ℕ) (answers : List (ℕ × List ℕ))
    (c : DirectDomainCache) (log : List Recording)
    → Stands ttl now c log
    → AreTimed now answers
    → Stands ttl
        (last_time now answers)
        (record_answers texts domain until answers c)
        (log_answers texts domain until answers log)
unfolding record_answers log_answers
record_answers-Stands texts ttl now domain until [] c log h timed = h
record_answers-Stands texts ttl now domain until ((t, answer) ∷ answers) c log h (later, timed) =
    record_answers-Stands texts ttl t domain until answers
      (record_address t domain until (texts.parse_ip answer) c)
      (log_address t domain until (texts.parse_ip answer) log)
      (record_address-Stands ttl now t domain until (texts.parse_ip answer) c log h later) timed

pub Stands-later :
    (ttl now t : ℕ) (c : DirectDomainCache) (log : List Recording)
    → Stands ttl now c log
    → now ≤ t
    → Stands ttl t c log
Stands-later ttl now t c log h later = record {
  same_ttl = h.same_ttl;
  distinct = h.distinct;
  same = λ ip t' t_later. h.same ip t' (omega (arith, later, t_later));
}

last_time-later :
    (now : ℕ) (answers : List (ℕ × List ℕ)) → AreTimed now answers → now ≤ last_time now answers
last_time-later now [] timed = omega arith
last_time-later now ((t, answer) ∷ answers) (later, timed) =
    omega (arith, later, last_time-later t answers timed)

unfoldable pub log_resolution :
    CacheTexts → ℕ → ℕ → List ℕ → List (ℕ × List ℕ) → List Recording → List Recording
unfolding log_answers
log_resolution texts ttl now query answers log =
    let domain = normalize_domain texts query in
    if length domain == 0 then log else log_answers texts domain (now + ttl) answers log

pub record_resolution-Stands :
    (texts : CacheTexts) (ttl now : ℕ) (query : List ℕ) (answers : List (ℕ × List ℕ))
    (c : DirectDomainCache) (log : List Recording)
    → Stands ttl now c log
    → AreTimed now answers
    → Stands ttl
        (last_time now answers)
        (record_resolution texts now query answers c)
        (log_resolution texts ttl now query answers log)
unfolding record_resolution log_resolution
record_resolution-Stands texts ttl now query answers c log h timed =
    elim (Bool-cases (length (normalize_domain texts query) == 0)) [
      | inl no_name ↦
          rw no_name (
            Stands-later ttl now (last_time now answers) c log h
              (last_time-later now answers timed))
      | inr name ↦
          let domain = normalize_domain texts query in
          let after = record_answers texts domain (now + c.ttl) answers c in
          rw name (
            subst
              (λ (u : ℕ).
                Stands ttl (last_time now answers) after
                  (log_answers texts domain (now + u) answers log))
              h.same_ttl
              (record_answers-Stands texts ttl now domain (now + c.ttl) answers c log h timed))
    ]

-- What is left after a lookup stands for the same log, and its answer is the log's.
pub record IsAnswered (ttl now : ℕ) (log : List Recording) (ip : IpAddr) (predicate : List ℕ → Bool)
    (after : Option (List ℕ) × DirectDomainCache) : Type 0 where
  pub given : after.0 ≡ find_domain predicate (log_domains log ip now)
  pub stands : Stands ttl now after.1 log

pub matching-IsAnswered :
    (ttl now : ℕ) (ip : IpAddr) (predicate : List ℕ → Bool) (c : DirectDomainCache)
    (log : List Recording)
    → Stands ttl now c log
    → IsAnswered ttl now log ip predicate (matching_domain_for_ip now ip predicate c)
unfolding matching_domain_for_ip match_entry find_domain
matching-IsAnswered ttl now ip predicate c log h = known (lookup ip c.ip_to_domains) refl
  where
    seen :
        (entry : Option DomainCacheEntry) (t : ℕ)
        → lookup ip c.ip_to_domains ≡ entry
        → now ≤ t
        → live_entry entry t ≡ log_domains log ip t
    seen entry t e later = sym (ap (λ x. live_entry x t) e) ∙ h.same ip t later

    gone :
        (entry : DomainCacheEntry)
        → lookup ip c.ip_to_domains ≡ some entry
        → leb entry.expires_at now ≡ true
        → (j : IpAddr) (t : ℕ) → now ≤ t
        → live_entry (if ip_eq ip j then none else lookup j c.ip_to_domains) t ≡ log_domains log j t
    gone entry e over j t later = elim (Bool-cases (ip_eq ip j)) [
      | inl this ↦
          let expired : leb entry.expires_at t ≡ true = ground (arith, over, later) in
          rw this (
            subst (λ (k : IpAddr). [] ≡ log_domains log k t) ((ip_eq_iff ip j).0 this)
              (rw expired at (seen (some entry) t e later)))
      | inr other ↦ rw other (h.same j t later)
    ]

    known :
        (entry : Option DomainCacheEntry)
        → lookup ip c.ip_to_domains ≡ entry
        → IsAnswered ttl now log ip predicate (match_entry now ip predicate entry c)
    known none e = record {
      given = ap (find_domain predicate) (seen none now e (omega arith));
      stands = h;
    }
    known (some entry) e = elim (Bool-cases (leb entry.expires_at now)) [
      | inl over ↦ rw over (record {
        given = ap (find_domain predicate) (rw over at (seen (some entry) now e (omega arith)));
        stands = record {
          same_ttl = h.same_ttl;
          distinct = remove-IsMap ip c.ip_to_domains h.distinct;
          same = λ j t later.
              ap (λ x. live_entry x t) (lookup-remove ip j c.ip_to_domains h.distinct)
              ∙ gone entry e over j t later;
        };
      })
      | inr alive ↦ rw alive (record {
        given = ap (find_domain predicate) (rw alive at (seen (some entry) now e (omega arith)));
        stands = h;
      })
    ]
