-- ===== src/Dns/Names.antt =====
-- Bounds on parsing names in desktop-agent-be/src/tun_handler/dns_proxy/parser.rs.
use ppaass_ai.Base.{
  ℕ, zero, suc, ◌+◌, ◌-◌, ◌*◌, ◌%◌, ◌<◌, ◌≤◌, ◌≡◌, refl, inl, inr, Bool-cases, true, false, ◌&&◌,
  Option, none, some, List, [], ◌∷◌, length, take, drop, get_elem?, ltb, leb, ◌==◌, arith, All,
  All-append, length-take, length-drop,
}
use ppaass_ai.Dns.{
  NameWalk, ParsedName, parsed, malformed, out_of_fuel, NameStep, go, stop, slice, high_bits, jump,
  add_label, name_at, after_name_step, walk_name, start_at, parse_dns_name,
}

abbrev pub IsLabel : List ℕ → Type 0
IsLabel label = (0 < length label) × (length label ≤ 63)

-- The name lies behind where it started and inside the packet, and its labels have 1 to 63 bytes.
abbrev pub IsParsed : List ℕ → ℕ → ParsedName → Type 0
IsParsed packet start out_of_fuel = ⊥
IsParsed packet start malformed = Unit
IsParsed packet start (parsed labels offset) =
    (start < offset) × (offset ≤ length packet) × All IsLabel labels

-- Where the loop stands: the offset follows the cursor until the first jump.
record IsWalk (packet : List ℕ) (start : ℕ) (w : NameWalk) : Type 0 where
  jumps : w.jumps ≤ 16
  labels : All IsLabel w.labels
  along : w.jumped ≡ false → (w.offset ≡ w.cursor) × (start ≤ w.cursor)
  behind : w.jumped ≡ true → (start < w.offset) × (w.offset ≤ length packet)

abbrev measure : List ℕ → NameWalk → ℕ
measure packet w = (16 - w.jumps) * (length packet + 1) + (length packet - w.cursor)

-- A step ends well, or goes on with less to do.
abbrev IsStep : List ℕ → ℕ → NameWalk → NameStep → Type 0
IsStep packet start w (go w') = IsWalk packet start w' × (measure packet w' < measure packet w)
IsStep packet start w (stop result) = IsParsed packet start result

get_elem?-lt : (xs : List ℕ) (i : ℕ) {v : ℕ} → get_elem? xs i ≡ some v → i < length xs
get_elem?-lt [] i e = absurd (cc)
get_elem?-lt (x ∷ xs) zero e = omega arith
get_elem?-lt (x ∷ xs) (suc i) e = omega (arith, get_elem?-lt xs i e)

jump_less : (k l p q : ℕ) → k * (l + 1) + (l - p) < suc k * (l + 1) + (l - q)
jump_less k l p q = grind arith

module _ (packet : List ℕ) (start : ℕ) (w : NameWalk) (h : IsWalk packet start w) where
  jump-IsStep :
      (first : ℕ) (o : Option ℕ)
      → get_elem? packet (w.cursor + 1) ≡ o
      → IsStep packet start w (jump w first o)
  unfolding jump
  jump-IsStep first none e = tt
  jump-IsStep first (some next) e = elim (Bool-cases (ltb 16 (w.jumps + 1))) [
    | inl many ↦ rw many tt
    | inr few ↦
        let inside = get_elem?-lt packet (w.cursor + 1) e in
        let one_more : 16 - w.jumps ≡ suc (16 - (w.jumps + 1)) = ground arith in
        rw few (
          record {
            jumps = ground arith;
            labels = h.labels;
            along = λ x. absurd (cc);
            behind = λ x. elim (Bool-cases w.jumped) [
              | inl before ↦ rw before (h.behind before)
              | inr straight ↦
                  let (same, low) = h.along straight in
                  rw straight (omega arith, omega (arith, inside))
            ];
          },
          rw one_more
              (jump_less (16 - (w.jumps + 1)) (length packet) (first % 64 * 256 + next) w.cursor),
        )
  ]

  add_label-IsStep :
      (first : ℕ)
      → 0 < first
      → first < 64
      → IsStep packet start w
          (add_label w (w.cursor + 1 + first) (slice packet (w.cursor + 1) (w.cursor + 1 + first)))
  unfolding add_label
  add_label-IsStep first pos low =
      elim (Bool-cases
        (leb (w.cursor + 1) (w.cursor + 1 + first) && leb (w.cursor + 1 + first) (length packet))) [
          | inl fits ↦
              let inside : w.cursor + 1 + first ≤ length packet = ground arith in
              let size : length
                    (take (w.cursor + 1 + first - (w.cursor + 1)) (drop (w.cursor + 1) packet))
                  ≡ first =
                omega (
                  arith,
                  length-take (w.cursor + 1 + first - (w.cursor + 1)) (drop (w.cursor + 1) packet),
                  length-drop (w.cursor + 1) packet,
                ) in
              rw fits (
                record {
                  jumps = h.jumps;
                  labels =
                      All-append IsLabel w.labels _ h.labels
                        ((omega (arith, size), omega (arith, size)), tt);
                  along = λ straight.
                      let (same, from) = h.along straight in rw straight (refl, omega arith);
                  behind = λ before. rw before (h.behind before);
                },
                omega arith,
              )
          | inr over ↦ rw over tt
        ]

  name_at-IsStep :
      (o : Option ℕ) → get_elem? packet w.cursor ≡ o → IsStep packet start w (name_at packet w o)
  unfolding name_at
  name_at-IsStep none e = tt
  name_at-IsStep (some first) e = elim (Bool-cases (high_bits first == 3)) [
    | inl pointer ↦ rw pointer (jump-IsStep first _ refl)
    | inr other ↦ elim (Bool-cases (high_bits first == 0)) [
      | inr bad ↦ rw (other, bad) tt
      | inl plain ↦ elim (Bool-cases (first == 0)) [
        | inl end_ ↦
            rw (other, plain, end_)
              (elim (Bool-cases w.jumped) [
                | inl before ↦ let (low, high) = h.behind before in rw before (low, high, h.labels)
                | inr straight ↦
                    let (same, low) = h.along straight in
                    let inside = get_elem?-lt packet w.cursor e in
                    rw straight (omega arith, omega (arith, inside), h.labels)
              ])
        | inr label ↦
            rw (other, plain, label) (add_label-IsStep first (ground arith) (ground arith))
      ]
    ]
  ]

walk_name-IsParsed :
    (fuel : ℕ) (packet : List ℕ) (start : ℕ) (w : NameWalk)
    → IsWalk packet start w
    → measure packet w < fuel
    → IsParsed packet start (walk_name fuel packet w)
unfolding walk_name
walk_name-IsParsed zero packet start w h m = absurd (omega arith)
walk_name-IsParsed (suc fuel) packet start w h m =
    after (name_at packet w (get_elem? packet w.cursor))
      (name_at-IsStep packet start w h (get_elem? packet w.cursor) refl)
      (λ w' h' less. walk_name-IsParsed fuel packet start w' h' less)
  where
    after :
        (step : NameStep)
        → IsStep packet start w step
        → ((w' : NameWalk)
            → IsWalk packet start w'
            → measure packet w' < fuel
            → IsParsed packet start (walk_name fuel packet w'))
        → IsParsed packet start (after_name_step step (walk_name fuel packet))
    after (go w') (h', less) next = next w' h' (omega arith)
    after (stop result) s next = s

enough_fuel : (l c : ℕ) → (16 - 0) * (l + 1) + (l - c) < 17 * (l + 1)
enough_fuel l c = omega arith

-- Parsing a name ends, in any packet and at any offset, whatever its pointers are: with an error, or with
-- labels of 1 to 63 bytes and an offset that is behind the one it started from and inside the packet.
pub parse_dns_name-IsParsed :
    (packet : List ℕ) (offset : ℕ) → IsParsed packet offset (parse_dns_name packet offset)
unfolding parse_dns_name
parse_dns_name-IsParsed packet offset =
    walk_name-IsParsed (17 * (length packet + 1)) packet offset (start_at offset)
      (record {
        jumps = omega arith;
        labels = tt;
        along = λ straight. (refl, omega arith);
        behind = λ before. absurd (cc);
      })
      (enough_fuel (length packet) offset)
