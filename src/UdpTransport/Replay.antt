-- ===== src/UdpTransport/Replay.antt =====
-- The sliding replay window of protocol/src/udp_transport/replay.rs.
-- `seen` is the array of 64 words of 64 bits; bit `d` of it stands for the number `highest - d`.
-- An index of the array is below 64 wherever the source takes one, since each distance that is
-- looked up or marked is below 4096: a read or a write out of range does not arise.
pub mod Bitmap
pub mod History
use Prim.Native.Nat.{bit_and, bit_or}
use ppaass_ai.Base.{
  ℕ, ◌+◌, ◌-◌, ◌*◌, ◌/◌, ◌%◌, ◌^◌, Bool, true, false, not, ◌&&◌, Option, none, some, List, [], ◌∷◌,
  ltb, leb, ◌==◌, if◌then◌else◌, get_or, set, replicate,
}
use ppaass_ai.UdpTransport.{udp_replay_window_size}

-- `u64::BITS`
abbrev pub word_bits : ℕ
word_bits = 64

abbrev pub word_count : ℕ
word_count = 64

pub record ReplayWindow : Type 0 where
  pub highest : Option ℕ
  pub seen : List ℕ

pub new : ReplayWindow
new = record { highest = none; seen = replicate word_count 0 }

pub bit_is_set : List ℕ → ℕ → Bool
bit_is_set seen distance =
    let word = distance / word_bits in
    let bit = distance % word_bits in not (bit_and (get_or seen word 0) (2 ^ bit) == 0)

pub set_bit : List ℕ → ℕ → List ℕ
set_bit seen distance =
    let word = distance / word_bits in
    let bit = distance % word_bits in set seen word (bit_or (get_or seen word 0) (2 ^ bit))

-- `shifted[destination + 1] |= value >> (WORD_BITS - bit_shift)`, under its guard
carry_over : ℕ → ℕ → List ℕ → ℕ → List ℕ
carry_over bit_shift value shifted destination =
    if not (bit_shift == 0) && ltb (destination + 1) word_count
    then set shifted (destination + 1)
        (bit_or (get_or shifted (destination + 1) 0) (value / 2 ^ (word_bits - bit_shift)))
    else shifted

-- The body of the loop; `value << bit_shift` keeps the low 64 bits.
shift_word : ℕ → ℕ → List ℕ → ℕ → List ℕ
shift_word bit_shift value shifted destination =
    carry_over bit_shift value
      (set shifted destination
        (bit_or (get_or shifted destination 0) (value * 2 ^ bit_shift % 2 ^ word_bits)))
      destination

-- The loop over `seen.iter().copied().enumerate()`, from `source` on; it breaks at the array's end.
shift_loop : ℕ → ℕ → ℕ → List ℕ → List ℕ → List ℕ
shift_loop word_shift bit_shift source [] shifted = shifted
shift_loop word_shift bit_shift source (value ∷ values) shifted =
    let destination = source + word_shift in
    let rest =
      shift_loop word_shift bit_shift (source + 1) values
        (shift_word bit_shift value shifted destination) in
    if leb word_count destination then shifted else rest

pub shift_older : List ℕ → ℕ → List ℕ
shift_older seen distance =
    if leb udp_replay_window_size distance
    then replicate word_count 0
    else shift_loop (distance / word_bits) (distance % word_bits) 0 seen (replicate word_count 0)

unseen : List ℕ → ℕ → ℕ → Bool
unseen seen highest seq =
    if ltb highest seq
    then true
    else if leb udp_replay_window_size (highest - seq)
    then false
    else not (bit_is_set seen (highest - seq))

acceptable : Option ℕ → List ℕ → ℕ → Bool
acceptable none seen seq = true
acceptable (some highest) seen seq = unseen seen highest seq

pub may_accept : ReplayWindow → ℕ → Bool
unfolding acceptable unseen
may_accept w seq = acceptable w.highest w.seen seq

-- The `match` of `commit`: the window with `seq` marked.
mark : Option ℕ → List ℕ → ℕ → ReplayWindow
mark none seen seq = record { highest = some seq; seen = set_bit seen 0 }
mark (some highest) seen seq =
    if ltb highest seq
    then (record {
      highest = some seq;
      seen =
          set_bit
            (if leb udp_replay_window_size (seq - highest)
              then replicate word_count 0
              else shift_older seen (seq - highest))
            0;
    })
    else (record { highest = some highest; seen = set_bit seen (highest - seq) })

pub commit : ReplayWindow → ℕ → ReplayWindow × Bool
unfolding mark
commit w seq = if may_accept w seq then (mark w.highest w.seen seq, true) else (w, false)
