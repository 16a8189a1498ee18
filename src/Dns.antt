-- ===== src/Dns.antt =====
-- Parsing DNS responses: desktop-agent-be/src/tun_handler/dns_proxy/parser.rs. An offset into a packet
-- is far below 2 ^ 64, so the additions that are checked in the source do not fail. Decoding bytes as text
-- and printing numbers and addresses are parameters.
pub mod Names
pub mod RoundTrip
pub mod Response
mod Tests
use ppaass_ai.Base.{
  ℕ, zero, suc, ◌+◌, ◌-◌, ◌*◌, ◌/◌, ◌%◌, min, Bool, true, false, not, ◌&&◌, ◌||◌, Option, none,
  some, List, [], ◌∷◌, ◌++◌, length, take, drop, get_elem?, get_or, ltb, leb, ◌==◌, if◌then◌else◌,
  bytes_eq, map,
}
use ppaass_ai.Base.Ascii.{ascii}
use ppaass_ai.Base.Bytes.{from_be_bytes}

-- The variables of `parse_dns_name`.
pub record NameWalk : Type 0 where
  pub cursor : ℕ
  pub offset : ℕ
  pub jumped : Bool
  pub jumps : ℕ
  pub labels : List (List ℕ)

-- The labels and the offset behind the name.
pub data ParsedName : Type 0 where
  parsed : List (List ℕ) → ℕ → ParsedName
  malformed out_of_fuel : ParsedName

pub data NameStep : Type 0 where
  go : NameWalk → NameStep
  stop : ParsedName → NameStep

-- `packet.get(start..end)`
abbrev pub slice : List ℕ → ℕ → ℕ → Option (List ℕ)
slice packet start end =
    if leb start end && leb end (length packet)
    then some (take (end - start) (drop start packet))
    else none

-- The two highest bits of a byte, `length & 0xc0` in units of 64.
abbrev pub high_bits : ℕ → ℕ
high_bits byte = byte / 64

unfoldable pub jump : NameWalk → ℕ → Option ℕ → NameStep
jump w first none = stop malformed
jump w first (some next) =
    if ltb 16 (w.jumps + 1)
    then stop malformed
    else go (record {
      cursor = first % 64 * 256 + next;
      offset = if w.jumped then w.offset else w.cursor + 2;
      jumped = true;
      jumps = w.jumps + 1;
      labels = w.labels;
    })

unfoldable pub add_label : NameWalk → ℕ → Option (List ℕ) → NameStep
add_label w end none = stop malformed
add_label w end (some label) = go (record w {
  cursor = end;
  offset = if w.jumped then w.offset else end;
  labels = w.labels ++ (label ∷ []);
})

unfoldable pub name_at : List ℕ → NameWalk → Option ℕ → NameStep
unfolding jump add_label
name_at packet w none = stop malformed
name_at packet w (some first) =
    if high_bits first == 3
    then jump w first (get_elem? packet (w.cursor + 1))
    else if not (high_bits first == 0)
    then stop malformed
    else if first == 0
    then stop (parsed w.labels (if w.jumped then w.offset else w.cursor + 1))
    else add_label w (w.cursor + 1 + first) (slice packet (w.cursor + 1) (w.cursor + 1 + first))

unfoldable pub after_name_step : NameStep → (NameWalk → ParsedName) → ParsedName
after_name_step (go w) later = later w
after_name_step (stop result) later = result

unfoldable pub walk_name : ℕ → List ℕ → NameWalk → ParsedName
unfolding after_name_step name_at
walk_name zero packet w = out_of_fuel
walk_name (suc fuel) packet w =
    after_name_step (name_at packet w (get_elem? packet w.cursor)) (walk_name fuel packet)

abbrev pub start_at : ℕ → NameWalk
start_at offset = record {
  cursor = offset;
  offset = offset;
  jumped = false;
  jumps = 0;
  labels = [];
}

-- At most 16 jumps, and between two of them at most one round for each byte.
unfoldable pub parse_dns_name : List ℕ → ℕ → ParsedName
unfolding walk_name
parse_dns_name packet offset = walk_name (17 * (length packet + 1)) packet (start_at offset)
