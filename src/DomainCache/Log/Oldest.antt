-- ===== src/DomainCache/Log/Oldest.antt =====
-- Which domain of a log a lookup is answered with: the lists of
-- desktop-agent-be/src/tun_handler/direct_domain_cache.rs against the bare recordings.
use ppaass_ai.Base.{
  ℕ, ◌≡◌, refl, sym, ap, ◌∙◌, inl, inr, Bool, Bool-cases, true, false, Option, none, some, List, [],
  ◌∷◌, ◌++◌, leb, if◌then◌else◌, bytes_eq, bytes_eq_iff,
}
use ppaass_ai.DirectAccess.{IpAddr, ip_eq, any_of}
use ppaass_ai.DomainCache.{add_domain, find_domain}
use ppaass_ai.DomainCache.Log.{Recording, log_domains}

-- The recordings of an address that count at a time, the latest first: the last one of all, if it is not
-- over, and from each one back the one before it, if that was not over when this one was made.
unfoldable pub counted : List Recording → IpAddr → ℕ → List (List ℕ)
counted [] ip t = []
counted (r ∷ log) ip t =
    if ip_eq r.ip ip
    then if leb r.until t then [] else r.domain ∷ counted log ip r.at
    else counted log ip t

abbrev pub or_else : Option (List ℕ) → Option (List ℕ) → Option (List ℕ)
or_else none later = later
or_else (some domain) later = some domain

-- The oldest of them that fits.
unfoldable pub oldest_fit : (List ℕ → Bool) → List (List ℕ) → Option (List ℕ)
oldest_fit predicate [] = none
oldest_fit predicate (domain ∷ older) =
    or_else (oldest_fit predicate older) (if predicate domain then some domain else none)

or_else-none : (o : Option (List ℕ)) → or_else o none ≡ o
or_else-none none = refl
or_else-none (some domain) = refl

module _ (predicate : List ℕ → Bool) (domain : List ℕ) where
  abbrev fit : Option (List ℕ)
  fit = if predicate domain then some domain else none

  find_domain-append :
      (ds : List (List ℕ))
      → find_domain predicate (ds ++ (domain ∷ [])) ≡ or_else (find_domain predicate ds) fit
  unfolding find_domain
  find_domain-append [] = refl
  find_domain-append (d ∷ ds) = elim (Bool-cases (predicate d)) [
    | inl e ↦ rw e refl
    | inr e ↦ rw e (find_domain-append ds)
  ]

  find_domain-known :
      (ds : List (List ℕ))
      → any_of (λ existing. bytes_eq existing domain) ds ≡ true
      → find_domain predicate ds ≡ or_else (find_domain predicate ds) fit
  unfolding find_domain
  find_domain-known [] h = absurd cc
  find_domain-known (d ∷ ds) h = elim (Bool-cases (predicate d)) [
    | inl e ↦ rw e refl
    | inr e ↦ elim (Bool-cases (bytes_eq d domain)) [
      | inl same ↦
          let unfit : predicate domain ≡ false =
            ap predicate (sym ((bytes_eq_iff d domain).0 same)) ∙ e in
          rw (e, unfit) (sym (or_else-none (find_domain predicate ds)))
      | inr other ↦ rw e (find_domain-known ds (rw other at h))
    ]
  ]

  find_domain-add_domain :
      (ds : List (List ℕ))
      → find_domain predicate (add_domain domain ds) ≡ or_else (find_domain predicate ds) fit
  unfolding add_domain
  find_domain-add_domain ds = elim (Bool-cases (any_of (λ existing. bytes_eq existing domain) ds)) [
    | inl e ↦ rw e (find_domain-known ds e)
    | inr e ↦ rw e (find_domain-append ds)
  ]

pub find_domain-log_domains :
    (predicate : List ℕ → Bool) (log : List Recording) (ip : IpAddr) (t : ℕ)
    → find_domain predicate (log_domains log ip t) ≡ oldest_fit predicate (counted log ip t)
unfolding log_domains counted oldest_fit find_domain
find_domain-log_domains predicate [] ip t = refl
find_domain-log_domains predicate (r ∷ log) ip t = elim (Bool-cases (ip_eq r.ip ip)) [
  | inl this ↦ elim (Bool-cases (leb r.until t)) [
    | inl over ↦ rw (this, over) refl
    | inr alive ↦
        rw (this, alive)
          (find_domain-add_domain predicate r.domain (log_domains log ip r.at)
            ∙ ap (λ o. or_else o (if predicate r.domain then some r.domain else none))
                (find_domain-log_domains predicate log ip r.at))
  ]
  | inr other ↦ rw other (find_domain-log_domains predicate log ip t)
]
