-- ===== src/DomainCache/Tests.antt =====
-- The theorem about the cache of domains at a concrete run.
use ppaass_ai.Base.{ℕ, ◌≡◌, refl, ◌==◌, true, Option, none, some, List, [], ◌∷◌, length, arith}
use ppaass_ai.Base.Assoc.{lookup, insert, remove}
use ppaass_ai.DirectAccess.{IpAddr, v4, trim_end_dots}
use ppaass_ai.DomainCache.{
  CacheTexts, new, record_resolution, matching_domain_for_ip, normalize_domain,
}
use ppaass_ai.DomainCache.Distinct.{IsDistinctCache}
use ppaass_ai.DomainCache.Log.Runs.{
  CacheEvent, resolved, asked, AreRising, run_cache, cache_after, run_log, run_cache-eq-run_log,
}

-- Texts that need no trimming, and addresses of one byte.
abbrev one_byte : List ℕ → Option IpAddr
one_byte (b ∷ []) = some (v4 b)
one_byte _ = none

abbrev texts : CacheTexts
texts = record { trim = λ t. t; to_ascii_lowercase = λ t. t; parse_ip = one_byte }

-- With 10 as the time that a recording counts: `a` at 1, `b` at 5, a lookup of each, then `c` when both are
-- over, a lookup, and one when that is over.
abbrev events : List CacheEvent
events =
    resolved 1 (b'a' ∷ []) ((1, 7 ∷ []) ∷ (2, 8 ∷ 8 ∷ []) ∷ [])
    ∷ resolved 5 (b'b' ∷ b'.' ∷ []) ((5, 7 ∷ []) ∷ [])
    ∷ asked 12 (v4 7) (λ domain. true)
    ∷ asked 13 (v4 7) (λ domain. length domain == 2)
    ∷ resolved 20 (b'c' ∷ []) ((20, 7 ∷ []) ∷ [])
    ∷ asked 21 (v4 7) (λ domain. true)
    ∷ asked 30 (v4 7) (λ domain. true)
    ∷ []

answers : run_cache texts events (new 10) ≡ some (b'a' ∷ []) ∷ none ∷ some (b'c' ∷ []) ∷ none ∷ []
unfolding run_cache record_resolution matching_domain_for_ip normalize_domain lookup insert remove
    trim_end_dots
answers = refl

rising : AreRising 0 events
rising = (
  omega arith,
  (omega arith, (omega arith, tt)),
  (
    omega arith,
    (omega arith, tt),
    (
      omega arith,
      (omega arith, (omega arith, (omega arith, tt), (omega arith, (omega arith, tt)))),
    ),
  ),
)

run_cache-eq-run_log_example :
    (run_cache texts events (new 10) ≡ run_log texts 10 events [])
    × IsDistinctCache (cache_after texts events (new 10))
run_cache-eq-run_log_example = run_cache-eq-run_log texts 10 events rising
