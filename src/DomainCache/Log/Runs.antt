-- ===== src/DomainCache/Log/Runs.antt =====
-- Runs of resolutions and lookups of desktop-agent-be/src/tun_handler/direct_domain_cache.rs.
use ppaass_ai.Base.{ℕ, ◌≡◌, refl, ap₂, ◌∙◌, ◌≤◌, Bool, Option, List, [], ◌∷◌}
use ppaass_ai.Base.Assoc.{lookup}
use ppaass_ai.DirectAccess.{IpAddr}
use ppaass_ai.DomainCache.{
  CacheTexts, DirectDomainCache, new, record_resolution, matching_domain_for_ip,
}
use ppaass_ai.DomainCache.Distinct.{
  IsDistinctCache, record_resolution-IsDistinctCache, matching-IsDistinctCache,
}
use ppaass_ai.DomainCache.Log.Oldest.{counted, oldest_fit, find_domain-log_domains}
use ppaass_ai.DomainCache.Log.{
  Recording, log_domains, log_resolution, last_time, AreTimed, Stands, Stands-later,
  record_resolution-Stands, matching-IsAnswered,
}

-- A resolution with the times at which its answers are handled, and a lookup.
pub data CacheEvent : Type 0 where
  resolved : ℕ → List ℕ → List (ℕ × List ℕ) → CacheEvent
  asked : ℕ → IpAddr → (List ℕ → Bool) → CacheEvent

-- No time is before the one that was read before it.
abbrev pub AreRising : ℕ → List CacheEvent → Type 0
AreRising now [] = Unit
AreRising now (resolved t query answers ∷ events) =
    (now ≤ t) × AreTimed t answers × AreRising (last_time t answers) events
AreRising now (asked t ip predicate ∷ events) = (now ≤ t) × AreRising t events

unfoldable pub run_cache : CacheTexts → List CacheEvent → DirectDomainCache → List (Option (List ℕ))
run_cache texts [] c = []
run_cache texts (resolved t query answers ∷ events) c =
    run_cache texts events (record_resolution texts t query answers c)
run_cache texts (asked t ip predicate ∷ events) c =
    let (answer, c') = matching_domain_for_ip t ip predicate c in answer ∷ run_cache texts events c'

unfoldable pub run_log : CacheTexts → ℕ → List CacheEvent → List Recording → List (Option (List ℕ))
run_log texts ttl [] log = []
run_log texts ttl (resolved t query answers ∷ events) log =
    run_log texts ttl events (log_resolution texts ttl t query answers log)
run_log texts ttl (asked t ip predicate ∷ events) log =
    oldest_fit predicate (counted log ip t) ∷ run_log texts ttl events log

run_cache-Stands :
    (texts : CacheTexts) (ttl now : ℕ) (events : List CacheEvent) (c : DirectDomainCache)
    (log : List Recording)
    → Stands ttl now c log
    → AreRising now events
    → run_cache texts events c ≡ run_log texts ttl events log
unfolding run_cache run_log
run_cache-Stands texts ttl now [] c log h rising = refl
run_cache-Stands texts ttl now (resolved t query answers ∷ events) c log h (later, timed, rising) =
    run_cache-Stands texts ttl (last_time t answers) events
      (record_resolution texts t query answers c) (log_resolution texts ttl t query answers log)
      (record_resolution-Stands texts ttl t query answers c log
        (Stands-later ttl now t c log h later) timed)
      rising
run_cache-Stands texts ttl now (asked t ip predicate ∷ events) c log h (later, rising) =
    let m = matching-IsAnswered ttl t ip predicate c log (Stands-later ttl now t c log h later) in
    ap₂ (λ (x : Option (List ℕ)) (xs : List (Option (List ℕ))). x ∷ xs)
      (m.given ∙ find_domain-log_domains predicate log ip t)
      (run_cache-Stands texts ttl t events (matching_domain_for_ip t ip predicate c).1 log m.stands
        rising)

unfoldable pub cache_after : CacheTexts → List CacheEvent → DirectDomainCache → DirectDomainCache
cache_after texts [] c = c
cache_after texts (resolved t query answers ∷ events) c =
    cache_after texts events (record_resolution texts t query answers c)
cache_after texts (asked t ip predicate ∷ events) c =
    cache_after texts events (matching_domain_for_ip t ip predicate c).1

cache_after-IsDistinctCache :
    (texts : CacheTexts) (events : List CacheEvent) (c : DirectDomainCache)
    → IsDistinctCache c
    → IsDistinctCache (cache_after texts events c)
unfolding cache_after
cache_after-IsDistinctCache texts [] c h = h
cache_after-IsDistinctCache texts (resolved t query answers ∷ events) c h =
    cache_after-IsDistinctCache texts events (record_resolution texts t query answers c)
      (record_resolution-IsDistinctCache texts t query answers c h)
cache_after-IsDistinctCache texts (asked t ip predicate ∷ events) c h =
    cache_after-IsDistinctCache texts events (matching_domain_for_ip t ip predicate c).1
      (matching-IsDistinctCache t ip predicate c h)

-- Over any run of resolutions and lookups whose times do not fall, from a new cache on, every lookup is
-- answered as from the log of all recordings: with the oldest domain that fits among the recordings of the
-- address that count, which are the last one, if it is not over, and from each one back the one before it,
-- if that was not over when this one was made. And after the run no address has a domain twice.
pub run_cache-eq-run_log :
    (texts : CacheTexts) (ttl : ℕ) (events : List CacheEvent)
    → AreRising 0 events
    → (run_cache texts events (new ttl) ≡ run_log texts ttl events [])
      × IsDistinctCache (cache_after texts events (new ttl))
unfolding log_domains lookup
run_cache-eq-run_log texts ttl events rising = (
  run_cache-Stands texts ttl 0 events (new ttl) []
      (record { same_ttl = refl; distinct = tt; same = λ ip t later. refl }) rising,
  cache_after-IsDistinctCache texts events (new ttl) tt,
)
