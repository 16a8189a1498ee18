-- ===== src/DirectAccess/Cidr.antt =====
-- What a CIDR rule of desktop-agent-be/src/direct_access.rs matches.
use Prim.Native.Nat.{bit_and}
use native.Mathlib.Nat.{
  add-mul-mod_self_left, mod-eq_of_lt, div-lt_iff_lt-mul, mul-add, add-mul, zero-mul, pow-suc,
  mul_assoc, mul-div_right,
}
use ppaass_ai.Base.{
  ℕ, zero, suc, ◌+◌, ◌-◌, ◌*◌, ◌/◌, ◌%◌, ◌^◌, ◌≤◌, ◌<◌, ◌≡◌, refl, sym, ap, ◌∙◌, inl, inr,
  Bool-cases, false, none, some, List, arith, ltb, ◌==◌, ==_iff,
}
use ppaass_ai.Base.Bits.{two_pow_pos}
use ppaass_ai.Base.Masks.{bit_and-shifted, bit_and-ones}
use ppaass_ai.DirectAccess.{
  Text, v4, v6, ParsedRule, cidr_v4, cidr_v6, mask_of, parse_cidr, cidr_with, cidr_of, cidr_of_v6,
  match_ip,
}

two_pow_add : (a b : ℕ) → 2 ^ (a + b) ≡ 2 ^ a * 2 ^ b
two_pow_add a zero =
    let none_more : a + 0 ≡ a = omega arith in ap (λ (t : ℕ). 2 ^ t) none_more ∙ omega arith
two_pow_add a (suc b) =
    let next : a + suc b ≡ suc (a + b) = omega arith in
    ap (λ (t : ℕ). 2 ^ t) next
    ∙ pow-suc 2 (a + b)
    ∙ ap (λ (t : ℕ). t * 2) (two_pow_add a b)
    ∙ mul_assoc (2 ^ a) (2 ^ b) 2
    ∙ ap (λ (t : ℕ). 2 ^ a * t) (sym (pow-suc 2 b))

split_power : (w p : ℕ) → p ≤ w → 2 ^ w ≡ 2 ^ p * 2 ^ (w - p)
split_power w p h = ap (λ (t : ℕ). 2 ^ t) (omega arith) ∙ two_pow_add p (w - p)

-- Ones of `a * b` moved up by `b`: what stays below `a * b`, and what leaves the word.
moved_ones : (u b : ℕ) → (u + b) * (b + 1) ≡ u + (u + (b + 1)) * b
moved_ones u b =
    omega
      (arith, add-mul u b (b + 1), add-mul u (b + 1) b, mul-add u b 1, mul-add b b 1, add-mul b 1 b)

-- A mask is ones that zeros follow.
mask_of_lem : (w p : ℕ) → p ≤ w → mask_of w p ≡ (2 ^ p - 1) * 2 ^ (w - p)
mask_of_lem w zero h = omega (arith, zero-mul (2 ^ (w - 0)))
mask_of_lem w (suc n) h =
    let k = w - suc n in
    let a = 2 ^ suc n in
    let b = 2 ^ k in
    let u = (a - 1) * b in
    let whole : 2 ^ w ≡ a * b = split_power w (suc n) h in
    let sum : 2 ^ w ≡ u + (b - 1 + 1) = omega (
      arith,
      whole,
      two_pow_pos (suc n),
      two_pow_pos k,
      add-mul (a - 1) 1 b,
      ap (λ (t : ℕ). t * b) (back_up a (two_pow_pos (suc n))),
    ) in
    let moved : (2 ^ w - 1) * b ≡ u + 2 ^ w * (b - 1) =
      ap (λ (t : ℕ). (2 ^ w - 1) * t) (back_up b (two_pow_pos k))
      ∙ ap (λ (t : ℕ). t * (b - 1 + 1)) (omega (arith, sum))
      ∙ moved_ones u (b - 1)
      ∙ ap (λ (t : ℕ). u + t * (b - 1)) (sym sum) in
    let below : u < 2 ^ w = omega (arith, sum) in
    rw (not_zero n) (
      ap (λ (t : ℕ). t % 2 ^ w) moved
      ∙ add-mul-mod_self_left u (2 ^ w) (b - 1)
      ∙ mod-eq_of_lt below)
  where
    back_up : (c : ℕ) → 0 < c → c ≡ c - 1 + 1
    back_up c h = omega arith

    not_zero : (n : ℕ) → (suc n == 0) ≡ false
    not_zero n = ground arith

masked : (w p x : ℕ) → p ≤ w → x < 2 ^ w → bit_and x (mask_of w p) ≡ x / 2 ^ (w - p) * 2 ^ (w - p)
masked w p x h hx =
    let small : x / 2 ^ (w - p) < 2 ^ p =
      (div-lt_iff_lt-mul (two_pow_pos (w - p))).1 (omega (arith, split_power w p h)) in
    ap (bit_and x) (mask_of_lem w p h)
    ∙ bit_and-shifted (w - p) x (2 ^ p - 1)
    ∙ ap (λ (t : ℕ). t * 2 ^ (w - p)) (bit_and-ones p (x / 2 ^ (w - p)) ∙ mod-eq_of_lt small)

same_multiple : (a b k : ℕ) → 0 < k → (a * k == b * k) ≡ (a == b)
same_multiple a b k h = elim (Bool-cases (a == b)) [
  | inl e ↦ rw ((==_iff a b).0 e) (ground arith)
  | inr e ↦ ground (arith, mul-div_right a h, mul-div_right b h, ap (λ (t : ℕ). t / k))
]

-- The test of a rule with this network and this length of the prefix.
matches_network :
    (w p network x : ℕ)
    → p ≤ w
    → network < 2 ^ w
    → x < 2 ^ w
    → (bit_and x (mask_of w p) == bit_and network (mask_of w p))
      ≡ (x / 2 ^ (w - p) == network / 2 ^ (w - p))
matches_network w p network x h hn hx =
    rw (masked w p x h hx, masked w p network h hn)
      (same_multiple (x / 2 ^ (w - p)) (network / 2 ^ (w - p)) (2 ^ (w - p)) (two_pow_pos (w - p)))

-- An IPv4 rule with a prefix of at most 32 bits is accepted, and matches exactly the addresses that agree with
-- its network in these bits.
pub match_ip-parse_cidr_v4 :
    (text : Text) (ip_str prefix_str : List ℕ) (prefix_len network ip : ℕ)
    → text.parse_u8 prefix_str ≡ some prefix_len
    → text.parse_ipv4 ip_str ≡ some network
    → prefix_len ≤ 32
    → network < 2 ^ 32
    → ip < 2 ^ 32
    → (rule : ParsedRule) × (parse_cidr text ip_str prefix_str ≡ some rule)
      × (match_ip rule (v4 ip) ≡ (ip / 2 ^ (32 - prefix_len) == network / 2 ^ (32 - prefix_len)))
unfolding parse_cidr cidr_with cidr_of match_ip
match_ip-parse_cidr_v4 text ip_str prefix_str prefix_len network ip e1 e2 h hn hi =
    let fits : ltb 32 prefix_len ≡ false = ground arith in
    (
      cidr_v4 (bit_and network (mask_of 32 prefix_len)) (mask_of 32 prefix_len),
      rw (e1, e2, fits) refl,
      matches_network 32 prefix_len network ip h hn hi,
    )

-- The same of an IPv6 rule, whose text is no IPv4 address, with a prefix of at most 128 bits.
pub match_ip-parse_cidr_v6 :
    (text : Text) (ip_str prefix_str : List ℕ) (prefix_len network ip : ℕ)
    → text.parse_u8 prefix_str ≡ some prefix_len
    → text.parse_ipv4 ip_str ≡ none
    → text.parse_ipv6 ip_str ≡ some network
    → prefix_len ≤ 128
    → network < 2 ^ 128
    → ip < 2 ^ 128
    → (rule : ParsedRule) × (parse_cidr text ip_str prefix_str ≡ some rule)
      × (match_ip rule (v6 ip) ≡ (ip / 2 ^ (128 - prefix_len) == network / 2 ^ (128 - prefix_len)))
unfolding parse_cidr cidr_with cidr_of cidr_of_v6 match_ip
match_ip-parse_cidr_v6 text ip_str prefix_str prefix_len network ip e1 e2 e3 h hn hi =
    let fits : ltb 128 prefix_len ≡ false = ground arith in
    (
      cidr_v6 (bit_and network (mask_of 128 prefix_len)) (mask_of 128 prefix_len),
      rw (e1, e2, e3, fits) refl,
      matches_network 128 prefix_len network ip h hn hi,
    )
