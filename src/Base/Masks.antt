-- ===== src/Base/Masks.antt =====
-- `x & mask` for a mask of ones that zeros follow.
use Prim.Native.Nat.{bit_and}
use Prim.Native.Nat.{ℕ, zero, suc, ◌+◌, ◌-◌, ◌*◌, ◌/◌, ◌%◌, ◌^◌, ◌<◌}
use mathlib.Core.Path.{◌≡◌, sym, ap, ◌∙◌}
use native.Mathlib.Omega.{arith}
use native.Mathlib.Nat.{
  pow-suc, div-div-eq-div-mul, mul_assoc, mod-add-div, add-mul-mod_self_left, mod-eq_of_lt, mod-lt,
}
use ppaass_ai.Base.Bits.{bit_and_lowest, bit_and-zeros, two_pow_pos}

two_pow_next : (k : ℕ) → 2 ^ suc k ≡ 2 * 2 ^ k
two_pow_next k = omega (arith, pow-suc 2 k)

pub bit_and-shifted : (k x m : ℕ) → bit_and x (m * 2 ^ k) ≡ bit_and (x / 2 ^ k) m * 2 ^ k
bit_and-shifted zero x m =
    let same : x / 1 ≡ x = omega arith in
    let one : m * 1 ≡ m = omega arith in rw (same, one) (omega arith)
bit_and-shifted (suc k) x m =
    let next : m * 2 ^ suc k ≡ m * 2 ^ k * 2 =
      ap (λ (t : ℕ). m * t) (pow-suc 2 k) ∙ sym (mul_assoc m (2 ^ k) 2) in
    let half : m * 2 ^ k * 2 / 2 ≡ m * 2 ^ k = omega arith in
    let even : m * 2 ^ k * 2 % 2 ≡ 0 = omega arith in
    let deeper : x / 2 / 2 ^ k ≡ x / 2 ^ suc k =
      div-div-eq-div-mul x 2 (2 ^ k) ∙ ap (λ (t : ℕ). x / t) (sym (two_pow_next k)) in
    let lower : bit_and x (m * 2 ^ k * 2) ≡ bit_and (x / 2) (m * 2 ^ k) * 2 =
      bit_and_lowest x (m * 2 ^ k * 2) ∙ rw (half, even) (omega arith) in
    let rest : bit_and (x / 2) (m * 2 ^ k) ≡ bit_and (x / 2 ^ suc k) m * 2 ^ k =
      bit_and-shifted k (x / 2) m ∙ ap (λ (t : ℕ). bit_and t m * 2 ^ k) deeper in
    ap (bit_and x) next
    ∙ lower
    ∙ ap (λ (t : ℕ). t * 2) rest
    ∙ mul_assoc (bit_and (x / 2 ^ suc k) m) (2 ^ k) 2
    ∙ ap (λ (t : ℕ). bit_and (x / 2 ^ suc k) m * t) (sym (pow-suc 2 k))

-- The lowest digit of a remainder by a power of two.
mod-two_pow : (n x : ℕ) → x % 2 ^ suc n ≡ (x / 2 % 2 ^ n) * 2 + x % 2
mod-two_pow n x =
    let p = 2 ^ n in
    let r = (x / 2 % p) * 2 + x % 2 in
    let q = x / 2 / p in
    let inside : x / 2 % p < p = mod-lt (x / 2) (two_pow_pos n) in
    let whole : x ≡ r + 2 ^ suc n * q =
      omega
        (arith, mod-add-div (x / 2) p, ap (λ (t : ℕ). t * q) (two_pow_next n), mul_assoc 2 p q) in
    ap (λ (t : ℕ). t % 2 ^ suc n) whole
    ∙ add-mul-mod_self_left r (2 ^ suc n) q
    ∙ mod-eq_of_lt (omega (arith, two_pow_next n))

pub bit_and-ones : (n x : ℕ) → bit_and x (2 ^ n - 1) ≡ x % 2 ^ n
bit_and-ones zero x = omega (arith, bit_and-zeros x)
bit_and-ones (suc n) x =
    let half : (2 ^ suc n - 1) / 2 ≡ 2 ^ n - 1 = omega (arith, two_pow_next n, two_pow_pos n) in
    let odd : (2 ^ suc n - 1) % 2 ≡ 1 = omega (arith, two_pow_next n, two_pow_pos n) in
    bit_and_lowest x (2 ^ suc n - 1)
    ∙ rw (half, odd) (omega (arith, bit_and-ones n (x / 2), mod-two_pow n x))
