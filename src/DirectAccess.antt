-- ===== src/DirectAccess.antt =====
-- The direct access rules of desktop-agent-be/src/direct_access.rs.
-- A text stands for its UTF-8 bytes. Trimming, lower case and the parsers of numbers and of addresses
-- come from the standard library and are parameters; an address is a number of 32 or 128 bits.
pub mod Cidr
pub mod Domain
mod Tests
use Prim.Native.Nat.{bit_and}
use ppaass_ai.Base.{
  ℕ, zero, suc, ◌+◌, ◌-◌, ◌*◌, ◌%◌, ◌^◌, Bool, true, false, not, ◌&&◌, ◌||◌, Option, none, some,
  List, [], ◌∷◌, ◌++◌, ltb, leb, ◌==◌, if◌then◌else◌, length, drop, bytes_eq,
}
use ppaass_ai.Address.{Address, domain, ipv4, ipv6, proxy_dns, udp_relay}
use ppaass_ai.Base.Ascii.{ascii}
use ppaass_ai.Base.Bytes.{from_be_bytes}

pub data IpAddr : Type 0 where
  v4 v6 : ℕ → IpAddr

-- `str::trim`, `str::to_lowercase`, and `parse` of `u8`, `Ipv4Addr`, `Ipv6Addr` and `IpAddr`.
pub record Text : Type 0 where
  pub trim : List ℕ → List ℕ
  pub to_lowercase : List ℕ → List ℕ
  pub parse_u8 : List ℕ → Option ℕ
  pub parse_ipv4 : List ℕ → Option ℕ
  pub parse_ipv6 : List ℕ → Option ℕ
  pub parse_ip : List ℕ → Option IpAddr

abbrev pub force_proxy_domain_suffixes : List (List ℕ)
force_proxy_domain_suffixes =
    ascii "google.com"
    ∷ ascii "google.cn"
    ∷ ascii "googleapis.com"
    ∷ ascii "googleapis.cn"
    ∷ ascii "googleusercontent.com"
    ∷ ascii "gstatic.com"
    ∷ ascii "gvt1.com"
    ∷ ascii "gvt2.com"
    ∷ ascii "youtube.com"
    ∷ ascii "youtube-nocookie.com"
    ∷ ascii "ytimg.com"
    ∷ ascii "googlevideo.com"
    ∷ ascii "ggpht.com"
    ∷ ascii "xn--ngstr-lra8j.com"
    ∷ []

pub data DirectAccessMode : Type 0 where
  proxy_all direct_all rules : DirectAccessMode

pub record DirectAccessConfig : Type 0 where
  pub mode : DirectAccessMode
  pub rules : List (List ℕ)

pub data ParsedRule : Type 0 where
  exact_domain wildcard_domain : List ℕ → ParsedRule
  exact_ip : IpAddr → ParsedRule
  cidr_v4 cidr_v6 : ℕ → ℕ → ParsedRule

pub record DirectAccessChecker : Type 0 where
  pub mode : DirectAccessMode
  pub rules : List ParsedRule

-- `str::find` of a byte: what stands before it and after it.
pub split_at : ℕ → List ℕ → Option (List ℕ × List ℕ)
split_at b [] = none
split_at b (x ∷ xs) =
    let rest = split_at b xs in
    if x == b
    then some ([], xs)
    else (elim rest [ none ↦ none | some (before, after) ↦ some (x ∷ before, after) ])

-- `!0 << (w - prefix_len)` of a word of `w` bits, or 0.
abbrev pub mask_of : ℕ → ℕ → ℕ
mask_of w prefix_len = if prefix_len == 0 then 0 else ((2 ^ w - 1) * 2 ^ (w - prefix_len)) % 2 ^ w

abbrev pub cidr_rule : (ℕ → ℕ → ParsedRule) → ℕ → ℕ → ℕ → Option ParsedRule
cidr_rule make w network prefix_len =
    if ltb w prefix_len
    then none
    else some (make (bit_and network (mask_of w prefix_len)) (mask_of w prefix_len))

pub cidr_of_v6 : Option ℕ → ℕ → Option ParsedRule
cidr_of_v6 none prefix_len = none
cidr_of_v6 (some network) prefix_len = cidr_rule cidr_v6 128 network prefix_len

pub cidr_of : Option ℕ → Option ℕ → ℕ → Option ParsedRule
unfolding cidr_of_v6
cidr_of (some network) other prefix_len = cidr_rule cidr_v4 32 network prefix_len
cidr_of none other prefix_len = cidr_of_v6 other prefix_len

pub cidr_with : Text → List ℕ → Option ℕ → Option ParsedRule
unfolding cidr_of
cidr_with text ip_str none = none
cidr_with text ip_str (some prefix_len) =
    cidr_of (text.parse_ipv4 ip_str) (text.parse_ipv6 ip_str) prefix_len

-- The block for a rule with a slash.
pub parse_cidr : Text → List ℕ → List ℕ → Option ParsedRule
unfolding cidr_with
parse_cidr text ip_str prefix_str = cidr_with text ip_str (text.parse_u8 prefix_str)

-- `str::strip_prefix`
pub strip_prefix : List ℕ → List ℕ → Option (List ℕ)
strip_prefix [] text = some text
strip_prefix (x ∷ xs) [] = none
strip_prefix (x ∷ xs) (y ∷ ys) = let rest = strip_prefix xs ys in if x == y then rest else none

-- A wildcard `*.` stands for a suffix with a dot before it.
pub parse_domain : Text → List ℕ → ParsedRule
unfolding strip_prefix
parse_domain text rule = elim (strip_prefix (ascii "*.") rule) [
  | none ↦ exact_domain (text.to_lowercase rule)
  | some suffix ↦ wildcard_domain (46 ∷ text.to_lowercase suffix)
]

pub parse_address_or_domain : Text → List ℕ → ParsedRule
unfolding parse_domain
parse_address_or_domain text rule = elim (text.parse_ip rule) [
  | none ↦ parse_domain text rule
  | some ip ↦ exact_ip ip
]

pub parse_trimmed : Text → List ℕ → Option ParsedRule
unfolding parse_cidr parse_address_or_domain split_at
parse_trimmed text rule = if length rule == 0 then none else (elim (split_at 47 rule) [
  | none ↦ some (parse_address_or_domain text rule)
  | some (ip_str, prefix_str) ↦ parse_cidr text ip_str prefix_str
])

unfoldable pub parse_rule : Text → List ℕ → Option ParsedRule
unfolding parse_trimmed
parse_rule text rule = parse_trimmed text (text.trim rule)

-- `filter_map`
pub parse_rules : Text → List (List ℕ) → List ParsedRule
unfolding parse_rule
parse_rules text [] = []
parse_rules text (rule ∷ others) =
    let rest = parse_rules text others in
    elim (parse_rule text rule) [ none ↦ rest | some parsed ↦ parsed ∷ rest ]

-- `DirectAccessChecker::new`
unfoldable pub new : Text → DirectAccessConfig → DirectAccessChecker
unfolding parse_rules
new text config = record { mode = config.mode; rules = parse_rules text config.rules }

-- `host.ends_with(suffix)`
abbrev pub ends_with : List ℕ → List ℕ → Bool
ends_with host suffix =
    leb (length suffix) (length host) && bytes_eq (drop (length host - length suffix) host) suffix

unfoldable pub match_domain : ParsedRule → List ℕ → Bool
match_domain (exact_domain name) host = bytes_eq host name
match_domain (wildcard_domain suffix) host =
    ends_with host suffix && ltb (length suffix) (length host)
match_domain _ host = false

-- `trim_end_matches('.')`
unfoldable pub trim_end_dots : List ℕ → List ℕ
trim_end_dots [] = []
trim_end_dots (x ∷ xs) =
    let rest = trim_end_dots xs in if x == 46 && length rest == 0 then [] else x ∷ rest

unfoldable pub normalize_domain : Text → List ℕ → List ℕ
unfolding trim_end_dots
normalize_domain text host = text.to_lowercase (trim_end_dots (text.trim host))

abbrev pub any_of {ℓ} : {A : Type ℓ} → (A → Bool) → List A → Bool
any_of test [] = false
any_of test (x ∷ xs) = test x || any_of test xs

unfoldable pub is_force_proxy_domain : List ℕ → Bool
is_force_proxy_domain host =
    any_of (λ suffix. bytes_eq host suffix || ends_with host (46 ∷ suffix))
      force_proxy_domain_suffixes

abbrev pub ip_eq : IpAddr → IpAddr → Bool
ip_eq (v4 a) (v4 b) = a == b
ip_eq (v6 a) (v6 b) = a == b
ip_eq _ _ = false

unfoldable pub match_ip : ParsedRule → IpAddr → Bool
match_ip (exact_ip rule_ip) ip = ip_eq rule_ip ip
match_ip (cidr_v4 network mask) (v4 ip) = bit_and ip mask == network
match_ip (cidr_v6 network mask) (v6 ip) = bit_and ip mask == network
match_ip _ ip = false

pub matches_host : List ParsedRule → List ℕ → Option IpAddr → Bool
unfolding match_domain match_ip is_force_proxy_domain
matches_host known host (some ip) = any_of (λ rule. match_ip rule ip) known
matches_host known host none =
    if is_force_proxy_domain host then false else any_of (λ rule. match_domain rule host) known

pub matches_any_rule : Text → List ParsedRule → Address → Bool
unfolding matches_host normalize_domain
matches_any_rule text known (domain host port) =
    (let host_lower = normalize_domain text host in
      matches_host known host_lower (text.parse_ip host_lower))
matches_any_rule text known (ipv4 addr port) =
    any_of (λ rule. match_ip rule (v4 (from_be_bytes addr))) known
matches_any_rule text known (ipv6 addr port) =
    any_of (λ rule. match_ip rule (v6 (from_be_bytes addr))) known
matches_any_rule text known _ = false

abbrev pub by_mode : DirectAccessMode → Bool → Bool
by_mode proxy_all by_rules = false
by_mode direct_all by_rules = true
by_mode rules by_rules = by_rules

unfoldable pub is_direct : Text → DirectAccessChecker → Address → Bool
unfolding matches_any_rule
is_direct text c address = by_mode c.mode (matches_any_rule text c.rules address)

unfoldable pub is_direct_domain : Text → DirectAccessChecker → List ℕ → Bool
is_direct_domain text c host =
    let host_lower = normalize_domain text host in
    by_mode c.mode (
      not (is_force_proxy_domain host_lower)
      && any_of (λ rule. match_domain rule host_lower) c.rules)

abbrev is_domain_rule : ParsedRule → Bool
is_domain_rule (exact_domain name) = true
is_domain_rule (wildcard_domain suffix) = true
is_domain_rule _ = false

abbrev is_rules : DirectAccessMode → Bool
is_rules rules = true
is_rules _ = false

unfoldable pub has_domain_direct_rules : DirectAccessChecker → Bool
has_domain_direct_rules c = is_rules c.mode && any_of is_domain_rule c.rules
