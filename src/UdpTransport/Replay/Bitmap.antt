-- ===== src/UdpTransport/Replay/Bitmap.antt =====
-- What the array of words in protocol/src/udp_transport/replay.rs stands for: a set of distances.
use Prim.Native.Nat.{bit_or}
use native.Mathlib.Nat.{div-le_self}
use ppaass_ai.Base.{
  ℕ, zero, suc, ◌+◌, ◌-◌, ◌*◌, ◌/◌, ◌%◌, ◌^◌, ◌<◌, max, ◌≡◌, refl, ap, ◌∙◌, inl, inr, Bool-cases,
  not, ◌&&◌, List, [], ◌∷◌, arith, ltb, leb, ◌==◌, if◌then◌else◌, length, get_or, set, replicate,
  length-set, get_or-set, All, All-set, All-get_or, All-replicate, length-replicate,
}
use ppaass_ai.Base.Bits.{
  digit, digit-lt, digit-zero, digit-bit_or, digit-two_pow, digit-shift_left, digit-shift_right,
  digit-truncate, digit_above, bit_and_two_pow, two_pow_pos, two_pow_mono, bit_or-lt,
}
use ppaass_ai.UdpTransport.Replay.{
  bit_is_set, set_bit, carry_over, shift_word, shift_loop, shift_older,
}

-- The bit for distance `d`, 0 or 1.
abbrev pub marked : List ℕ → ℕ → ℕ
marked seen d = digit (get_or seen (d / 64) 0) (d % 64)

-- An array of 64 words of 64 bits.
pub record IsBitmap (seen : List ℕ) : Type 0 where
  pub size : length seen ≡ 64
  pub words : All (λ w. w < 2 ^ 64) seen

digit_test : (t p : ℕ) → t < 2 → 0 < p → not (t * p == 0) ≡ (t == 1)
digit_test zero p ht hp = ground arith
digit_test (suc zero) p ht hp = ground arith
digit_test (suc (suc t)) p ht hp = absurd (omega arith)

pub bit_is_set_lem : (seen : List ℕ) (d : ℕ) → bit_is_set seen d ≡ (marked seen d == 1)
unfolding bit_is_set
bit_is_set_lem seen d = rw (bit_and_two_pow (d % 64) (get_or seen (d / 64) 0)) (
    digit_test (marked seen d) (2 ^ (d % 64)) (digit-lt (d % 64) (get_or seen (d / 64) 0))
      (two_pow_pos (d % 64)))

pub marked-set_bit :
    (seen : List ℕ) (d e : ℕ)
    → length seen ≡ 64
    → d < 4096
    → marked (set_bit seen d) e ≡ (if d == e then 1 else marked seen e)
unfolding set_bit
marked-set_bit seen d e size hd = ground (
  arith,
  get_or-set seen (d / 64) (e / 64) (bit_or (get_or seen (d / 64) 0) (2 ^ (d % 64))) 0,
  digit-bit_or (e % 64) (get_or seen (d / 64) 0) (2 ^ (d % 64)),
  digit-two_pow (d % 64) (e % 64),
  digit-lt (e % 64) (get_or seen (d / 64) 0),
)

marked-cons :
    (v x : ℕ) (vs : List ℕ)
    → marked (v ∷ vs) x ≡ (if ltb x 64 then digit v x else marked vs (x - 64))
marked-cons v x vs = elim (Bool-cases (ltb x 64)) [
  | inl low ↦
      let q : x / 64 ≡ 0 = ground arith in let r : x % 64 ≡ x = ground arith in rw (q, r, low)
  | inr high ↦
      let q : x / 64 ≡ suc ((x - 64) / 64) = ground arith in
      let r : x % 64 ≡ (x - 64) % 64 = ground arith in rw (q, r, high)
]

-- What one word adds to the digit at distance `g`, when it is moved to start at distance `base`.
abbrev moved : ℕ → ℕ → ℕ → ℕ
moved v base g = if ltb g base then 0 else if ltb (g - base) 64 then digit v (g - base) else 0

-- What the words from `base` on add to the digit at distance `g`.
abbrev moved_all : List ℕ → ℕ → ℕ → ℕ
moved_all vs base g = if ltb g base then 0 else marked vs (g - base)

marked-write :
    (seen : List ℕ) (j w g : ℕ)
    → length seen ≡ 64
    → j < 64
    → marked (set seen j (bit_or (get_or seen j 0) w)) g
      ≡ (if g / 64 == j then max (marked seen g) (digit w (g % 64)) else marked seen g)
marked-write seen j w g size hj = ground (
  arith,
  get_or-set seen j (g / 64) (bit_or (get_or seen j 0) w) 0,
  digit-bit_or (g % 64) (get_or seen j 0) w,
)

-- The two halves of a moved word.
abbrev low_half : ℕ → ℕ → ℕ → ℕ → ℕ
low_half bs v dest g =
    if g / 64 == dest then if ltb (g % 64) bs then 0 else digit v (g % 64 - bs) else 0

abbrev high_half : ℕ → ℕ → ℕ → ℕ → ℕ
high_half bs v dest g =
    if g / 64 == dest + 1 then if ltb (g % 64) bs then digit v (g % 64 + (64 - bs)) else 0 else 0

moved_halves :
    (bs v dest g : ℕ)
    → bs < 64
    → max (low_half bs v dest g) (high_half bs v dest g) ≡ moved v (dest * 64 + bs) g
moved_halves bs v dest g hbs = ground arith

module _ (bs v : ℕ) (seen : List ℕ) (dest g : ℕ) (size : length seen ≡ 64) (hbs : bs < 64) where
  marked-write_low :
      dest < 64
      → marked (set seen dest (bit_or (get_or seen dest 0) (v * 2 ^ bs % 2 ^ 64))) g
        ≡ max (marked seen g) (low_half bs v dest g)
  marked-write_low hd = ground (
    arith,
    marked-write seen dest (v * 2 ^ bs % 2 ^ 64) g size hd,
    digit-truncate 64 (g % 64) (v * 2 ^ bs),
    digit-shift_left bs (g % 64) v,
  )

  marked-carry_over :
      v < 2 ^ 64
      → g < 4096
      → marked (carry_over bs v seen dest) g ≡ max (marked seen g) (high_half bs v dest g)
  unfolding carry_over
  marked-carry_over hv hg = ground (
    arith,
    marked-write seen (dest + 1) (v / 2 ^ (64 - bs)) g size,
    digit-shift_right (64 - bs) (g % 64) v,
    digit_above 64 (g % 64 + (64 - bs)) v hv,
  )

max_assoc : (a b c : ℕ) → max (max a b) c ≡ max a (max b c)
max_assoc a b c = omega arith

marked-shift_word :
    (bs v : ℕ) (seen : List ℕ) (dest g : ℕ)
    → length seen ≡ 64
    → bs < 64
    → v < 2 ^ 64
    → dest < 64
    → g < 4096
    → marked (shift_word bs v seen dest) g ≡ max (marked seen g) (moved v (dest * 64 + bs) g)
unfolding shift_word
marked-shift_word bs v seen dest g size hbs hv hd hg =
    let word : ℕ = bit_or (get_or seen dest 0) (v * 2 ^ bs % 2 ^ 64) in
    marked-carry_over bs v (set seen dest word) dest g (length-set seen dest word ∙ size) hbs hv hg
    ∙ ap (λ (t : ℕ). max t (high_half bs v dest g)) (marked-write_low bs v seen dest g size hbs hd)
    ∙ max_assoc (marked seen g) (low_half bs v dest g) (high_half bs v dest g)
    ∙ ap (λ (t : ℕ). max (marked seen g) t) (moved_halves bs v dest g hbs)

length-shift_word :
    (bs v : ℕ) (seen : List ℕ) (dest : ℕ) → length (shift_word bs v seen dest) ≡ length seen
unfolding shift_word carry_over
length-shift_word bs v seen dest =
    let first : ℕ = bit_or (get_or seen dest 0) (v * 2 ^ bs % 2 ^ 64) in
    let second : ℕ = bit_or (get_or (set seen dest first) (dest + 1) 0) (v / 2 ^ (64 - bs)) in
    ground (arith, length-set seen dest first, length-set (set seen dest first) (dest + 1) second)

moved_all_cons :
    (v base g : ℕ) (vs : List ℕ)
    → moved_all (v ∷ vs) base g ≡ max (moved v base g) (moved_all vs (base + 64) g)
moved_all_cons v base g vs = ground (arith, marked-cons v (g - base) vs)

marked-shift_loop :
    (ws bs source g : ℕ) (vs seen : List ℕ)
    → length seen ≡ 64
    → bs < 64
    → All (λ w. w < 2 ^ 64) vs
    → g < 4096
    → marked (shift_loop ws bs source vs seen) g
      ≡ max (marked seen g) (moved_all vs ((source + ws) * 64 + bs) g)
unfolding shift_loop
marked-shift_loop ws bs source g [] seen size hbs h hg =
    ground (arith, digit-zero ((g - ((source + ws) * 64 + bs)) % 64))
marked-shift_loop ws bs source g (v ∷ vs) seen size hbs (hv, h) hg = ground (
  arith,
  marked-shift_loop ws bs (source + 1) g vs (shift_word bs v seen (source + ws)),
  length-shift_word bs v seen (source + ws),
  marked-shift_word bs v seen (source + ws) g size hbs hv,
  moved_all_cons v ((source + ws) * 64 + bs) g vs,
)

get_or-replicate : (n i : ℕ) → ◌≡◌ {A = ℕ} (get_or (replicate n 0) i 0) 0
get_or-replicate zero i = refl
get_or-replicate (suc n) zero = refl
get_or-replicate (suc n) (suc i) = get_or-replicate n i

pub marked-replicate : (g : ℕ) → marked (replicate 64 0) g ≡ 0
marked-replicate g = rw (get_or-replicate 64 (g / 64)) (digit-zero (g % 64))

-- Shifting an array of 64 words of 64 bits by `n` moves the bit of each distance `d` to `d + n`,
-- clears the `n` lowest bits and drops those that leave the array.
pub marked-shift_older :
    (seen : List ℕ) (n g : ℕ)
    → IsBitmap seen
    → g < 4096
    → marked (shift_older seen n) g ≡ (if ltb g n then 0 else marked seen (g - n))
unfolding shift_older
marked-shift_older seen n g b hg = ground (
  arith,
  marked-replicate g,
  marked-shift_loop (n / 64) (n % 64) 0 g seen (replicate 64 0) (length-replicate {A = ℕ} 64 0),
)

pub IsBitmap-replicate : IsBitmap (replicate 64 0)
IsBitmap-replicate = record {
  size = length-replicate {A = ℕ} 64 0;
  words = All-replicate (λ w. w < 2 ^ 64) 64 0 (omega arith);
}

-- Writing `old | w` at an index keeps an array of words.
write-IsBitmap :
    (seen : List ℕ) (j w : ℕ)
    → IsBitmap seen
    → w < 2 ^ 64
    → IsBitmap (set seen j (bit_or (get_or seen j 0) w))
write-IsBitmap seen j w b hw =
    let old : get_or seen j 0 < 2 ^ 64 =
      All-get_or (λ (x : ℕ). x < 2 ^ 64) seen j 0 b.words (omega arith) in
    record {
      size = length-set seen j (bit_or (get_or seen j 0) w) ∙ b.size;
      words =
          All-set (λ x. x < 2 ^ 64) seen j (bit_or (get_or seen j 0) w) b.words
            (bit_or-lt 64 (get_or seen j 0) w old hw);
    }

pub set_bit-IsBitmap : (seen : List ℕ) (d : ℕ) → IsBitmap seen → IsBitmap (set_bit seen d)
unfolding set_bit
set_bit-IsBitmap seen d b =
    write-IsBitmap seen (d / 64) (2 ^ (d % 64)) b (two_pow_mono (d % 64) 64 (omega arith))

carry_over-IsBitmap :
    (bs v : ℕ) (seen : List ℕ) (dest : ℕ)
    → v < 2 ^ 64
    → IsBitmap seen
    → IsBitmap (carry_over bs v seen dest)
unfolding carry_over
carry_over-IsBitmap bs v seen dest hv b = elim (Bool-cases (not (bs == 0) && ltb (dest + 1) 64)) [
  | inl e ↦ rw e (
      write-IsBitmap seen (dest + 1) (v / 2 ^ (64 - bs)) b
        (omega (arith, div-le_self v (2 ^ (64 - bs)))))
  | inr e ↦ rw e b
]

shift_word-IsBitmap :
    (bs v : ℕ) (seen : List ℕ) (dest : ℕ)
    → v < 2 ^ 64
    → IsBitmap seen
    → IsBitmap (shift_word bs v seen dest)
unfolding shift_word
shift_word-IsBitmap bs v seen dest hv b =
    carry_over-IsBitmap bs v _ dest hv
      (write-IsBitmap seen dest (v * 2 ^ bs % 2 ^ 64) b (omega arith))

shift_loop-IsBitmap :
    (ws bs source : ℕ) (vs seen : List ℕ)
    → All (λ w. w < 2 ^ 64) vs
    → IsBitmap seen
    → IsBitmap (shift_loop ws bs source vs seen)
unfolding shift_loop
shift_loop-IsBitmap ws bs source [] seen h b = b
shift_loop-IsBitmap ws bs source (v ∷ vs) seen (hv, h) b =
    elim (Bool-cases (leb 64 (source + ws))) [
      | inl e ↦ rw e b
      | inr e ↦ rw e (
          shift_loop-IsBitmap ws bs (source + 1) vs (shift_word bs v seen (source + ws)) h
            (shift_word-IsBitmap bs v seen (source + ws) hv b))
    ]

pub shift_older-IsBitmap : (seen : List ℕ) (n : ℕ) → IsBitmap seen → IsBitmap (shift_older seen n)
unfolding shift_older
shift_older-IsBitmap seen n b = elim (Bool-cases (leb 4096 n)) [
  | inl e ↦ rw e IsBitmap-replicate
  | inr e ↦ rw e (shift_loop-IsBitmap (n / 64) (n % 64) 0 seen _ b.words IsBitmap-replicate)
]
