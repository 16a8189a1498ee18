-- ===== src/DomainCache.antt =====
-- The domains that were resolved to an address: desktop-agent-be/src/tun_handler/direct_domain_cache.rs.
-- Its calls are taken one after the other. Trimming, lower case and the parser of addresses come from the
-- standard library and are parameters; each reading of the clock is an argument.
pub mod Log
pub mod Distinct
mod Tests
use ppaass_ai.Base.{
  ℕ, ◌+◌, Bool, Option, none, some, List, [], ◌∷◌, ◌++◌, length, leb, ltb, ◌==◌, ◌&&◌, true, false,
  if◌then◌else◌, bytes_eq, ◌≡◌, ◌↔◌, arith,
}
use ppaass_ai.Base.Assoc.{Eq, lookup, insert, remove}
use ppaass_ai.DirectAccess.{IpAddr, v4, v6, ip_eq, trim_end_dots, any_of}

pub ip_eq_iff : (a b : IpAddr) → (ip_eq a b ≡ true) ↔ (a ≡ b)
ip_eq_iff (v4 a) (v4 b) = ground arith
ip_eq_iff (v4 a) (v6 b) = ground arith
ip_eq_iff (v6 a) (v4 b) = ground arith
ip_eq_iff (v6 a) (v6 b) = ground arith

instance abbrev pub address_eq : Eq IpAddr
address_eq = record { beq = ip_eq; beq_iff = ip_eq_iff }

-- `str::trim`, `to_ascii_lowercase` and `parse::<IpAddr>`.
pub record CacheTexts : Type 0 where
  pub trim : List ℕ → List ℕ
  pub to_ascii_lowercase : List ℕ → List ℕ
  pub parse_ip : List ℕ → Option IpAddr

pub record DomainCacheEntry : Type 0 where
  pub domains : List (List ℕ)
  pub expires_at : ℕ

pub record DirectDomainCache : Type 0 where
  pub ttl : ℕ
  pub ip_to_domains : List (IpAddr × DomainCacheEntry)

abbrev pub new : ℕ → DirectDomainCache
new ttl = record { ttl = ttl; ip_to_domains = [] }

unfoldable pub normalize_domain : CacheTexts → List ℕ → List ℕ
normalize_domain texts domain = texts.to_ascii_lowercase (trim_end_dots (texts.trim domain))

unfoldable pub add_domain : List ℕ → List (List ℕ) → List (List ℕ)
add_domain domain domains =
    if any_of (λ existing. bytes_eq existing domain) domains
    then domains
    else domains ++ (domain ∷ [])

-- The entry of an address after an answer that is handled at `now`.
unfoldable pub refreshed : ℕ → List ℕ → ℕ → Option DomainCacheEntry → DomainCacheEntry
unfolding add_domain
refreshed now domain expires_at none = record { domains = domain ∷ []; expires_at = expires_at }
refreshed now domain expires_at (some entry) = record {
  domains = add_domain domain (if leb entry.expires_at now then [] else entry.domains);
  expires_at = expires_at;
}

unfoldable pub record_address :
    ℕ → List ℕ → ℕ → Option IpAddr → DirectDomainCache → DirectDomainCache
unfolding refreshed
record_address now domain expires_at none c = c
record_address now domain expires_at (some ip) c = record c {
  ip_to_domains =
      insert ip (refreshed now domain expires_at (lookup ip c.ip_to_domains)) c.ip_to_domains;
}

-- The answers, each with the time at which it is handled.
unfoldable pub record_answers :
    CacheTexts → List ℕ → ℕ → List (ℕ × List ℕ) → DirectDomainCache → DirectDomainCache
unfolding record_address
record_answers texts domain expires_at [] c = c
record_answers texts domain expires_at ((now, answer) ∷ answers) c =
    record_answers texts domain expires_at answers
      (record_address now domain expires_at (texts.parse_ip answer) c)

unfoldable pub record_resolution :
    CacheTexts → ℕ → List ℕ → List (ℕ × List ℕ) → DirectDomainCache → DirectDomainCache
unfolding record_answers normalize_domain
record_resolution texts now query answers c =
    let domain = normalize_domain texts query in
    if length domain == 0 then c else record_answers texts domain (now + c.ttl) answers c

unfoldable pub find_domain : (List ℕ → Bool) → List (List ℕ) → Option (List ℕ)
find_domain predicate [] = none
find_domain predicate (domain ∷ domains) =
    if predicate domain then some domain else find_domain predicate domains

unfoldable pub match_entry :
    ℕ
    → IpAddr
    → (List ℕ → Bool)
    → Option DomainCacheEntry
    → DirectDomainCache
    → Option (List ℕ) × DirectDomainCache
unfolding find_domain
match_entry now ip predicate none c = (none, c)
match_entry now ip predicate (some entry) c =
    if leb entry.expires_at now
    then (none, record c { ip_to_domains = remove ip c.ip_to_domains })
    else (find_domain predicate entry.domains, c)

unfoldable pub matching_domain_for_ip :
    ℕ → IpAddr → (List ℕ → Bool) → DirectDomainCache → Option (List ℕ) × DirectDomainCache
unfolding match_entry
matching_domain_for_ip now ip predicate c =
    match_entry now ip predicate (lookup ip c.ip_to_domains) c
