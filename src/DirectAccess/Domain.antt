-- ===== src/DirectAccess/Domain.antt =====
-- What the domain rules of desktop-agent-be/src/direct_access.rs match.
use ppaass_ai.Base.{
  ℕ, ◌-◌, ◌<◌, ◌≡◌, ◌↔◌, refl, sym, ap, ◌∙◌, Bool, true, false, ◌&&◌, ◌||◌, ◌⊎◌, inl, inr, none,
  List, [], ◌∷◌, ◌++◌, arith, ltb, leb, length, length-append, take, drop, take-append-drop,
  drop-append, bytes_eq, bytes_eq_iff,
}
use ppaass_ai.DirectAccess.{
  Text, DirectAccessChecker, rules, wildcard_domain, ends_with, match_domain, is_force_proxy_domain,
  normalize_domain, any_of, force_proxy_domain_suffixes, is_direct, is_direct_domain,
  matches_any_rule, matches_host,
}
use ppaass_ai.Address.{domain}

ends_with_sound :
    (host suffix : List ℕ)
    → ends_with host suffix ≡ true
    → (before : List ℕ) × (host ≡ before ++ suffix)
ends_with_sound host suffix e =
    let n = length host - length suffix in
    let tail : bytes_eq (drop n host) suffix ≡ true = ground arith in
    (
      take n host,
      sym (take-append-drop n host)
          ∙ ap (λ t. take n host ++ t) ((bytes_eq_iff (drop n host) suffix).0 tail),
    )

ends_with_complete : (before suffix : List ℕ) → ends_with (before ++ suffix) suffix ≡ true
ends_with_complete before suffix =
    let size : length (before ++ suffix) - length suffix ≡ length before =
      omega (arith, length-append before suffix) in
    let tail : drop (length before) (before ++ suffix) ≡ suffix = drop-append before suffix in
    let room : leb (length suffix) (length (before ++ suffix)) ≡ true =
      ground (arith, length-append before suffix) in
    rw (room, size, tail) ((bytes_eq_iff suffix suffix).1 refl)

-- A wildcard rule matches exactly the hosts that have something before its suffix.
pub match_domain-wildcard_domain_iff :
    (suffix host : List ℕ)
    → (match_domain (wildcard_domain suffix) host ≡ true)
      ↔ ((before : List ℕ) × (0 < length before) × (host ≡ before ++ suffix))
unfolding match_domain
match_domain-wildcard_domain_iff suffix host = (forth, back)
  where
    forth :
        (ends_with host suffix && ltb (length suffix) (length host)) ≡ true
        → (before : List ℕ) × (0 < length before) × (host ≡ before ++ suffix)
    forth e =
        let ends : ends_with host suffix ≡ true = ground arith in
        let longer : length suffix < length host = ground arith in
        let (before, whole) = ends_with_sound host suffix ends in
        (before, omega (arith, longer, ap length whole, length-append before suffix), whole)

    back :
        ((before : List ℕ) × (0 < length before) × (host ≡ before ++ suffix))
        → (ends_with host suffix && ltb (length suffix) (length host)) ≡ true
    back (before, some_, whole) =
        let ends : ends_with host suffix ≡ true =
          ap (λ h. ends_with h suffix) whole ∙ ends_with_complete before suffix in
        let longer : ltb (length suffix) (length host) ≡ true =
          ground (arith, ap length whole, length-append before suffix) in
        rw (ends, longer) refl

-- The host is one of the domains, or stands below one.
unfoldable pub IsUnder : List ℕ → List (List ℕ) → Type 0
IsUnder host [] = ⊥
IsUnder host (name ∷ names) =
    ((host ≡ name) ⊎ ((before : List ℕ) × (host ≡ before ++ (b'.' ∷ name)))) ⊎ IsUnder host names

forces : List (List ℕ) → List ℕ → Bool
forces names host = any_of (λ suffix. bytes_eq host suffix || ends_with host (46 ∷ suffix)) names

IsUnder-forces :
    (names : List (List ℕ)) (host : List ℕ) → IsUnder host names → forces names host ≡ true
unfolding IsUnder forces
IsUnder-forces [] host under = absurd under
IsUnder-forces (name ∷ names) host (inl (inl same)) =
    let e = (bytes_eq_iff host name).1 same in rw e refl
IsUnder-forces (name ∷ names) host (inl (inr (before, whole))) =
    let e : ends_with host (46 ∷ name) ≡ true =
      ap (λ h. ends_with h (46 ∷ name)) whole ∙ ends_with_complete before (46 ∷ name) in
    ground (arith, e)
IsUnder-forces (name ∷ names) host (inr under) = ground (arith, IsUnder-forces names host under)

-- In the mode of rules, a host that is no address and is one of the listed domains or stands below one, is
-- never direct, neither as an address nor as a domain, whatever the rules are.
pub IsUnder-is_direct :
    (text : Text) (c : DirectAccessChecker) (host : List ℕ) (port : ℕ)
    → c.mode ≡ rules
    → text.parse_ip (normalize_domain text host) ≡ none
    → IsUnder (normalize_domain text host) force_proxy_domain_suffixes
    → (is_direct text c (domain host port) ≡ false) × (is_direct_domain text c host ≡ false)
unfolding is_direct is_direct_domain matches_any_rule matches_host is_force_proxy_domain forces
IsUnder-is_direct text c host port e1 e2 under =
    let forced : is_force_proxy_domain (normalize_domain text host) ≡ true =
      IsUnder-forces force_proxy_domain_suffixes (normalize_domain text host) under in
    (rw (e1, e2, forced) refl, rw (e1, forced) refl)
