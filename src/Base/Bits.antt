-- ===== src/Base/Bits.antt =====
-- Binary digits of a word, and what `&`, `|`, `<<`, `>>` and truncation do to them, at every width.
use Prim.Native.Nat.{digits, bitwise, bit_and-bitwise, bit_or-bitwise}
use Prim.Native.Nat.{
  ℕ, zero, suc, ◌+◌, ◌-◌, ◌*◌, ◌/◌, ◌%◌, ◌^◌, ◌≤◌, ◌<◌, min, max, bit_and, bit_or,
}
use mathlib.Core.Path.{◌≡◌, refl, sym, ap, ◌∙◌}
use native.Mathlib.Omega.{arith}
use native.Mathlib.Nat.{pow-suc, le_refl, div-div-eq-div-mul, div-add-mod, mod-eq_of_lt}
use ppaass_ai.Base.Tests.{ltb, ◌==◌, if◌then◌else◌}

-- The digit recursion that stands for a native operation, with enough fuel on both sides.
module _ (z : ℕ → ℕ) (f : ℕ → ℕ → ℕ) where
  digits_irrelevant : (n m a b : ℕ) → a ≤ n → a ≤ m → digits z f n a b ≡ digits z f m a b
  digits_irrelevant n m zero b p q = digits_zero n b ∙ digits_zero' m b
    where
      digits_zero : (k c : ℕ) → digits z f k zero c ≡ z c
      digits_zero zero c = refl
      digits_zero (suc k) c = refl

      digits_zero' : (k c : ℕ) → z c ≡ digits z f k zero c
      digits_zero' zero c = refl
      digits_zero' (suc k) c = refl
  digits_irrelevant zero m (suc a) b p q = absurd (omega arith)
  digits_irrelevant (suc n) zero (suc a) b p q = absurd (omega arith)
  digits_irrelevant (suc n) (suc m) (suc a) b p q =
      ap (λ (t : ℕ). t * 2 + f (suc a % 2) (b % 2))
        (digits_irrelevant n m (suc a / 2) (b / 2) (omega arith) (omega arith))

  bitwise_lowest :
      (a b : ℕ)
      → bitwise z f (suc a) b ≡ bitwise z f (suc a / 2) (b / 2) * 2 + f (suc a % 2) (b % 2)
  bitwise_lowest a b =
      ap (λ (t : ℕ). t * 2 + f (suc a % 2) (b % 2))
        (digits_irrelevant a (suc a / 2) (suc a / 2) (b / 2) (omega arith) (le_refl _))

pub bit_or_lowest : (a b : ℕ) → bit_or a b ≡ bit_or (a / 2) (b / 2) * 2 + max (a % 2) (b % 2)
bit_or_lowest zero b = simp bit_or-bitwise (omega arith)
bit_or_lowest (suc a) b = simp bit_or-bitwise (bitwise_lowest (λ y. y) max a b)

pub bit_and_lowest : (a b : ℕ) → bit_and a b ≡ bit_and (a / 2) (b / 2) * 2 + min (a % 2) (b % 2)
bit_and_lowest zero b = simp bit_and-bitwise (omega arith)
bit_and_lowest (suc a) b = simp bit_and-bitwise (bitwise_lowest (λ y. 0) min a b)

-- The binary digit of `w` at position `i`, 0 or 1.
abbrev pub digit : ℕ → ℕ → ℕ
digit w zero = w % 2
digit w (suc i) = digit (w / 2) i

pub digit-lt : (i w : ℕ) → digit w i < 2
digit-lt zero w = omega arith
digit-lt (suc i) w = digit-lt i (w / 2)

pub digit-zero : (i : ℕ) → digit 0 i ≡ 0
digit-zero zero = refl
digit-zero (suc i) = digit-zero i

pub digit-bit_or : (i a b : ℕ) → digit (bit_or a b) i ≡ max (digit a i) (digit b i)
digit-bit_or zero a b = omega (arith, bit_or_lowest a b)
digit-bit_or (suc i) a b =
    let half : bit_or a b / 2 ≡ bit_or (a / 2) (b / 2) = omega (arith, bit_or_lowest a b) in
    rw half (digit-bit_or i (a / 2) (b / 2))

two_pow_suc : (k : ℕ) → 2 ^ suc k ≡ 2 * 2 ^ k
two_pow_suc k = omega (arith, pow-suc 2 k)

pub two_pow_pos : (k : ℕ) → 0 < 2 ^ k
two_pow_pos zero = omega arith
two_pow_pos (suc k) = omega (arith, two_pow_suc k, two_pow_pos k)

bit_and-zero : (k a : ℕ) → a ≤ k → bit_and a 0 ≡ 0
bit_and-zero k zero h = refl
bit_and-zero zero (suc a) h = absurd (omega arith)
bit_and-zero (suc k) (suc a) h =
    omega (arith, bit_and_lowest (suc a) 0, bit_and-zero k (suc a / 2) (omega arith))

pub bit_and-zeros : (a : ℕ) → bit_and a 0 ≡ 0
bit_and-zeros a = bit_and-zero a a (le_refl _)

-- `w & (1 << k)`
pub bit_and_two_pow : (k w : ℕ) → bit_and w (2 ^ k) ≡ digit w k * 2 ^ k
bit_and_two_pow zero w = omega (arith, bit_and_lowest w 1, bit_and-zero (w / 2) (w / 2) (le_refl _))
bit_and_two_pow (suc k) w =
    let half : 2 ^ suc k / 2 ≡ 2 ^ k = omega (arith, two_pow_suc k) in
    let rec : bit_and (w / 2) (2 ^ suc k / 2) ≡ digit (w / 2) k * 2 ^ k =
      rw half (bit_and_two_pow k (w / 2)) in
    omega (
      arith,
      bit_and_lowest w (2 ^ suc k),
      rec,
      two_pow_suc k,
      ap (λ (t : ℕ). digit (w / 2) k * t) (two_pow_suc k),
    )

pub digit-two_pow : (k i : ℕ) → digit (2 ^ k) i ≡ (if i == k then 1 else 0)
digit-two_pow zero zero = refl
digit-two_pow zero (suc i) = ground (arith, digit-zero i)
digit-two_pow (suc k) zero = ground (arith, two_pow_suc k)
digit-two_pow (suc k) (suc i) =
    let half : 2 ^ suc k / 2 ≡ 2 ^ k = omega (arith, two_pow_suc k) in
    rw half (ground (arith, digit-two_pow k i))

-- `v << k`, before the truncation to the width
pub digit-shift_left : (k i v : ℕ) → digit (v * 2 ^ k) i ≡ (if ltb i k then 0 else digit v (i - k))
digit-shift_left zero i v =
    let same : v * 2 ^ 0 ≡ v = omega arith in
    let here : i - 0 ≡ i = omega arith in rw same (rw here (ground arith))
digit-shift_left (suc k) zero v = ground (arith, ap (λ (t : ℕ). v * t) (two_pow_suc k))
digit-shift_left (suc k) (suc i) v =
    let half : v * 2 ^ suc k / 2 ≡ v * 2 ^ k =
      omega (arith, ap (λ (t : ℕ). v * t) (two_pow_suc k)) in
    let down : suc i - suc k ≡ i - k = omega arith in
    rw half (rw down (ground (arith, digit-shift_left k i v)))

-- `v >> k`
pub digit-shift_right : (k i v : ℕ) → digit (v / 2 ^ k) i ≡ digit v (i + k)
digit-shift_right zero i v =
    let same : v / 2 ^ 0 ≡ v = omega arith in
    let here : i + 0 ≡ i = omega arith in rw same (rw here refl)
digit-shift_right (suc k) i v =
    let halves : v / 2 ^ suc k ≡ v / 2 / 2 ^ k =
      rw two_pow_suc (sym (div-div-eq-div-mul v 2 (2 ^ k))) in
    let up : i + suc k ≡ suc (i + k) = omega arith in
    rw halves (rw up (digit-shift_right k i (v / 2)))

truncate_halves : (v p : ℕ) → v % (2 * p) ≡ v / 2 % p * 2 + v % 2
truncate_halves v p = omega (
  arith,
  div-add-mod v (2 * p),
  div-add-mod (v / 2) p,
  ap (λ (t : ℕ). 2 * p * t) (div-div-eq-div-mul v 2 p),
)

-- truncation to `n` bits
pub digit-truncate : (n i v : ℕ) → digit (v % 2 ^ n) i ≡ (if ltb i n then digit v i else 0)
digit-truncate zero i v =
    let none_left : v % 2 ^ 0 ≡ 0 = omega arith in rw none_left (ground (arith, digit-zero i))
digit-truncate (suc n) zero v = ground (arith, truncate_halves v (2 ^ n), two_pow_suc n)
digit-truncate (suc n) (suc i) v =
    let wide : v % 2 ^ suc n ≡ v / 2 % 2 ^ n * 2 + v % 2 =
      rw two_pow_suc (truncate_halves v (2 ^ n)) in
    let half : v % 2 ^ suc n / 2 ≡ v / 2 % 2 ^ n = omega (arith, wide) in
    rw half (ground (arith, digit-truncate n i (v / 2)))

-- A number below `2 ^ n` has no digit from `n` on.
pub digit_above : (n i v : ℕ) → v < 2 ^ n → n ≤ i → digit v i ≡ 0
digit_above n i v h p =
    let small : v % 2 ^ n ≡ v = mod-eq_of_lt h in
    rw (← small) (ground (arith, digit-truncate n i v))

pub bit_or-lt : (n a b : ℕ) → a < 2 ^ n → b < 2 ^ n → bit_or a b < 2 ^ n
bit_or-lt zero a b ha hb =
    let za : a ≡ 0 = omega arith in let zb : b ≡ 0 = omega arith in rw (za, zb) (omega arith)
bit_or-lt (suc n) a b ha hb =
    let rest : bit_or (a / 2) (b / 2) < 2 ^ n =
      bit_or-lt n (a / 2) (b / 2) (omega (arith, two_pow_suc n)) (omega (arith, two_pow_suc n)) in
    omega (arith, bit_or_lowest a b, two_pow_suc n, rest)

pub two_pow_mono : (a b : ℕ) → a < b → 2 ^ a < 2 ^ b
two_pow_mono a zero h = absurd (omega arith)
two_pow_mono zero (suc b) h = omega (arith, two_pow_suc b, two_pow_pos b)
two_pow_mono (suc a) (suc b) h =
    omega (arith, two_pow_suc a, two_pow_suc b, two_pow_mono a b (omega arith))
