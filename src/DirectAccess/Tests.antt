-- ===== src/DirectAccess/Tests.antt =====
-- The theorems about desktop-agent-be/src/direct_access.rs at concrete inputs, with parsers that know
-- one text each, and runs of the definitions.
use ppaass_ai.Base.{
  ℕ, ◌+◌, ◌*◌, ◌^◌, ◌<◌, ◌≡◌, ◌↔◌, refl, true, false, none, some, List, [], ◌∷◌, ◌++◌, arith,
  length, inl, inr, bytes_eq, if◌then◌else◌,
}
use ppaass_ai.Base.Ascii.{ascii}
use ppaass_ai.Address.{domain}
use ppaass_ai.DirectAccess.{
  Text, v4, v6, DirectAccessChecker, rules, ParsedRule, wildcard_domain, exact_domain, parse_cidr,
  match_ip, match_domain, is_direct, is_direct_domain, force_proxy_domain_suffixes,
  normalize_domain, trim_end_dots,
}
use ppaass_ai.DirectAccess.Cidr.{match_ip-parse_cidr_v4, match_ip-parse_cidr_v6}
use ppaass_ai.DirectAccess.Domain.{match_domain-wildcard_domain_iff, IsUnder, IsUnder-is_direct}

-- `8`, `10.0.0.0` and `fe80::` are what the parsers know.
abbrev text : Text
text = record {
  trim = λ t. t;
  to_lowercase = λ t. t;
  parse_u8 = λ t. if bytes_eq t (ascii "8") then some 8 else none;
  parse_ipv4 = λ t. if bytes_eq t (ascii "10.0.0.0") then some (10 * 2 ^ 24) else none;
  parse_ipv6 = λ t. if bytes_eq t (ascii "fe80::") then some (65152 * 2 ^ 112) else none;
  parse_ip = λ t. none;
}

match_ip-parse_cidr_v4_example :
    (rule : ParsedRule) × (parse_cidr text (ascii "10.0.0.0") (ascii "8") ≡ some rule)
    × (match_ip rule (v4 (10 * 2 ^ 24 + 7)) ≡ true)
unfolding ascii
match_ip-parse_cidr_v4_example =
    match_ip-parse_cidr_v4 text (ascii "10.0.0.0") (ascii "8") 8 (10 * 2 ^ 24) (10 * 2 ^ 24 + 7)
      refl refl (omega arith) (omega arith) (omega arith)

match_ip-parse_cidr_v6_example :
    (rule : ParsedRule) × (parse_cidr text (ascii "fe80::") (ascii "8") ≡ some rule)
    × (match_ip rule (v6 1) ≡ false)
unfolding ascii
match_ip-parse_cidr_v6_example =
    match_ip-parse_cidr_v6 text (ascii "fe80::") (ascii "8") 8 (65152 * 2 ^ 112) 1 refl refl refl
      (omega arith) (omega arith) (omega arith)

match_domain-wildcard_domain_iff_example :
    (match_domain (wildcard_domain (ascii ".example.com")) (ascii "a.example.com") ≡ true) ↔ (
      (before : List ℕ) × (0 < length before)
      × (ascii "a.example.com" ≡ before ++ ascii ".example.com"))
match_domain-wildcard_domain_iff_example =
    match_domain-wildcard_domain_iff (ascii ".example.com") (ascii "a.example.com")

abbrev checker : DirectAccessChecker
checker = record { mode = rules; rules = exact_domain (ascii "www.google.com") ∷ [] }

-- `www.google.com` stands below the first of the listed domains.
below : IsUnder (normalize_domain text (ascii "www.google.com.")) force_proxy_domain_suffixes
unfolding IsUnder normalize_domain trim_end_dots ascii
below = inl (inr (ascii "www", refl))

IsUnder-is_direct_example :
    (is_direct text checker (domain (ascii "www.google.com.") 443) ≡ false)
    × (is_direct_domain text checker (ascii "www.google.com.") ≡ false)
IsUnder-is_direct_example =
    IsUnder-is_direct text checker (ascii "www.google.com.") 443 refl refl below
