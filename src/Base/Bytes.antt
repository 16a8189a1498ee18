-- ===== src/Base/Bytes.antt =====
-- Big-endian byte strings of unsigned numbers: `to_be_bytes` and `from_be_bytes`.
use Prim.Native.Nat.{ℕ, zero, suc, ◌+◌, ◌*◌, ◌/◌, ◌%◌, ◌^◌, ◌≤◌, ◌<◌}
use mathlib.Core.Path.{◌≡◌, refl, sym, ap, ◌∙◌}
use mathlib.Core.List.{List, [], ◌∷◌, ◌++◌}
use native.Mathlib.Omega.{arith}
use native.Mathlib.Nat.{pow-suc, div-div-eq-div-mul, mul-add-div_right, div-eq_of_lt}
use ppaass_ai.Base.Lists.{length, length-append, All, All-append}

abbrev pub IsByte : ℕ → Type 0
IsByte b = b < 256

abbrev pub AreBytes : List ℕ → Type 0
AreBytes = All IsByte

-- `v.to_be_bytes()` of an unsigned number of `n` bytes
unfoldable pub to_be_bytes : ℕ → ℕ → List ℕ
to_be_bytes zero v = []
to_be_bytes (suc n) v = to_be_bytes n (v / 256) ++ (v % 256 ∷ [])

from_be_loop : ℕ → List ℕ → ℕ
from_be_loop acc [] = acc
from_be_loop acc (b ∷ bs) = from_be_loop (acc * 256 + b) bs

-- `from_be_bytes(bytes)`
unfoldable pub from_be_bytes : List ℕ → ℕ
unfolding from_be_loop
from_be_bytes bs = from_be_loop 0 bs

pub length-to_be_bytes : (n v : ℕ) → length (to_be_bytes n v) ≡ n
unfolding to_be_bytes
length-to_be_bytes zero v = refl
length-to_be_bytes (suc n) v =
    omega (
      arith,
      length-append (to_be_bytes n (v / 256)) (v % 256 ∷ []),
      length-to_be_bytes n (v / 256),
    )

unfoldable pub to_be_bytes-AreBytes : (n v : ℕ) → AreBytes (to_be_bytes n v)
unfolding to_be_bytes
to_be_bytes-AreBytes zero v = tt
to_be_bytes-AreBytes (suc n) v =
    All-append IsByte (to_be_bytes n (v / 256)) (v % 256 ∷ []) (to_be_bytes-AreBytes n (v / 256))
      (omega arith)

from_be_loop-append :
    (acc : ℕ) (xs ys : List ℕ) → from_be_loop acc (xs ++ ys) ≡ from_be_loop (from_be_loop acc xs) ys
unfolding from_be_loop
from_be_loop-append acc [] ys = refl
from_be_loop-append acc (x ∷ xs) ys = from_be_loop-append (acc * 256 + x) xs ys

bytes_room : (n v : ℕ) → v < 256 ^ suc n → v / 256 < 256 ^ n
bytes_room n v h = omega (arith, pow-suc 256 n)

-- Reading back a number that fits its width gives the number.
pub from_be_bytes-to_be_bytes : (n v : ℕ) → v < 256 ^ n → from_be_bytes (to_be_bytes n v) ≡ v
unfolding from_be_bytes from_be_loop to_be_bytes
from_be_bytes-to_be_bytes zero v h = omega arith
from_be_bytes-to_be_bytes (suc n) v h =
    from_be_loop-append 0 (to_be_bytes n (v / 256)) (v % 256 ∷ [])
    ∙ omega (arith, from_be_bytes-to_be_bytes n (v / 256) (bytes_room n v h))

-- What was read before counts in units of what follows.
from_be_loop_shift :
    (acc : ℕ) (bs : List ℕ) → from_be_loop acc bs ≡ acc * 256 ^ length bs + from_be_loop 0 bs
unfolding from_be_loop
from_be_loop_shift acc [] = omega arith
from_be_loop_shift acc (b ∷ bs) = omega (
  arith,
  from_be_loop_shift (acc * 256 + b) bs,
  from_be_loop_shift (0 * 256 + b) bs,
  ap (λ (t : ℕ). acc * t) (pow-suc 256 (length bs)),
)

from_be_loop-lt : (bs : List ℕ) → AreBytes bs → from_be_loop 0 bs < 256 ^ length bs
unfolding from_be_loop
from_be_loop-lt [] h = omega arith
from_be_loop-lt (b ∷ bs) (hb, hbs) =
    let step : b * 256 ^ length bs ≤ 255 * 256 ^ length bs = grind arith in
    omega (
      arith,
      from_be_loop_shift (0 * 256 + b) bs,
      from_be_loop-lt bs hbs,
      pow-suc 256 (length bs),
      step,
    )

-- A number that is read from `n` bytes fits `n` bytes.
pub from_be_bytes-lt : (bs : List ℕ) → AreBytes bs → from_be_bytes bs < 256 ^ length bs
unfolding from_be_bytes
from_be_bytes-lt bs h = from_be_loop-lt bs h

to_be_bytes_front : (n v : ℕ) → to_be_bytes (suc n) v ≡ (v / 256 ^ n % 256) ∷ to_be_bytes n v
unfolding to_be_bytes
to_be_bytes_front zero v = let same : v / 256 ^ 0 ≡ v = omega arith in rw same refl
to_be_bytes_front (suc n) v =
    let halves : v / 256 ^ suc n ≡ v / 256 / 256 ^ n =
      rw (pow_front n) (sym (div-div-eq-div-mul v 256 (256 ^ n))) in
    rw halves (ap (λ (t : List ℕ). t ++ (v % 256 ∷ [])) (to_be_bytes_front n (v / 256)))
  where
    pow_front : (k : ℕ) → 256 ^ suc k ≡ 256 * 256 ^ k
    pow_front k = omega (arith, pow-suc 256 k)

front_byte : (a b p r : ℕ) → b < 256 → r < p → ((a * 256 + b) * p + r) / p % 256 ≡ b
front_byte a b p r hb hr =
    let whole : ((a * 256 + b) * p + r) / p ≡ a * 256 + b + r / p =
      mul-add-div_right (omega arith) (a * 256 + b) r in
    let none_over : r / p ≡ 0 = div-eq_of_lt hr in omega (arith, whole, none_over)

to_be_bytes-from_be_loop :
    (bs : List ℕ) (acc : ℕ) → AreBytes bs → to_be_bytes (length bs) (from_be_loop acc bs) ≡ bs
unfolding from_be_loop
to_be_bytes-from_be_loop [] acc h = unfold to_be_bytes in refl
to_be_bytes-from_be_loop (b ∷ bs) acc (hb, hbs) =
    let first : from_be_loop (acc * 256 + b) bs / 256 ^ length bs % 256 ≡ b =
      rw (from_be_loop_shift (acc * 256 + b) bs)
        (front_byte acc b (256 ^ length bs) (from_be_loop 0 bs) hb (from_be_loop-lt bs hbs)) in
    rw (to_be_bytes_front (length bs) (from_be_loop (acc * 256 + b) bs))
      (rw first (ap (λ (t : List ℕ). b ∷ t) (to_be_bytes-from_be_loop bs (acc * 256 + b) hbs)))

-- Writing what was read gives the bytes.
pub to_be_bytes-from_be_bytes :
    (bs : List ℕ) → AreBytes bs → to_be_bytes (length bs) (from_be_bytes bs) ≡ bs
unfolding from_be_bytes
to_be_bytes-from_be_bytes bs h = to_be_bytes-from_be_loop bs 0 h
