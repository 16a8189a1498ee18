-- ===== src/Base/Assoc.antt =====
-- `HashMap` as an association list with distinct keys. The order of the list stands for the order
-- of iteration, which the program does not fix.
use Prim.Native.Nat.{ℕ, ◌+◌}
use mathlib.Core.Path.{◌≡◌, refl}
use mathlib.Core.Logic.{◌↔◌}
use mathlib.Core.Bool.{Bool, true, not, ◌&&◌}
use mathlib.Core.Option.{Option, none, some}
use mathlib.Core.List.{List, [], ◌∷◌}
use native.Mathlib.Omega.{arith}
use ppaass_ai.Base.Tests.{if◌then◌else◌, ◌==◌, ==_iff}
use ppaass_ai.Base.Lists.{length, bytes_eq, bytes_eq_iff}

-- Keys are compared by `Eq`.
pub record Eq {ℓ} (K : Type ℓ) : Type ℓ where
  pub beq : K → K → Bool
  pub beq_iff : (a b : K) → (beq a b ≡ true) ↔ (a ≡ b)

instance abbrev pub nat_eq : Eq ℕ
nat_eq = record { beq = λ a b. a == b; beq_iff = ==_iff }

abbrev pub tagged_beq : List ℕ × ℕ → List ℕ × ℕ → Bool
tagged_beq (a, n) (b, m) = bytes_eq a b && n == m

pub tagged_beq_iff : (p q : List ℕ × ℕ) → (tagged_beq p q ≡ true) ↔ (p ≡ q)
tagged_beq_iff (a, n) (b, m) = ground (arith, bytes_eq_iff a b)

-- A pair of an identifier of bytes and a number.
instance abbrev pub tagged_eq : Eq (List ℕ × ℕ)
tagged_eq = record { beq = tagged_beq; beq_iff = tagged_beq_iff }

-- An identifier or a text of bytes.
instance abbrev pub text_eq : Eq (List ℕ)
text_eq = record { beq = bytes_eq; beq_iff = bytes_eq_iff }

pub beq_refl {ℓ} : {K : Type ℓ} ⦃e : Eq K⦄ (k : K) → e.beq k k ≡ true
beq_refl ⦃e⦄ k = (e.beq_iff k k).1 refl

abbrev pub kept {ℓ} : {V : Type ℓ} → (V → Bool) → Option V → Option V
kept keep none = none
kept keep (some v) = if keep v then some v else none

module _ {ℓ κ} {K : Type ℓ} {V : Type κ} ⦃e : Eq K⦄ where
  unfoldable pub lookup : K → List (K × V) → Option V
  lookup k [] = none
  lookup k ((j, v) ∷ m) = if e.beq j k then some v else lookup k m

  -- A write replaces the value of a key that is there.
  unfoldable pub insert : K → V → List (K × V) → List (K × V)
  insert k v [] = (k, v) ∷ []
  insert k v ((j, w) ∷ m) = if e.beq j k then (k, v) ∷ m else (j, w) ∷ insert k v m

  unfoldable pub remove : K → List (K × V) → List (K × V)
  remove k [] = []
  remove k ((j, v) ∷ m) = if e.beq j k then m else (j, v) ∷ remove k m

  -- `retain`, by a test of the value
  unfoldable pub retain : (V → Bool) → List (K × V) → List (K × V)
  retain keep [] = []
  retain keep ((j, v) ∷ m) = let rest = retain keep m in if keep v then (j, v) ∷ rest else rest

  unfoldable pub total : (V → ℕ) → List (K × V) → ℕ
  total f [] = 0
  total f ((j, v) ∷ m) = f v + total f m

  -- No key stands twice.
  abbrev pub IsMap : List (K × V) → Type κ
  IsMap [] = Unit {κ}
  IsMap ((j, v) ∷ m) = (lookup j m ≡ none) × IsMap m

  pub lookup-insert :
      (k j : K) (v : V) (m : List (K × V))
      → lookup j (insert k v m) ≡ (if e.beq k j then some v else lookup j m)
  unfolding lookup insert
  lookup-insert k j v [] = refl
  lookup-insert k j v ((i, w) ∷ m) =
      ground (arith, e.beq_iff k j, e.beq_iff i k, e.beq_iff i j, lookup-insert k j v m)

  pub lookup-remove :
      (k j : K) (m : List (K × V))
      → IsMap m
      → lookup j (remove k m) ≡ (if e.beq k j then none else lookup j m)
  unfolding lookup remove
  lookup-remove k j [] h = ground arith
  lookup-remove k j ((i, w) ∷ m) (new, h) =
      ground (arith, e.beq_iff k j, e.beq_iff i k, e.beq_iff i j, lookup-remove k j m h, new)

  pub insert-IsMap : (k : K) (v : V) (m : List (K × V)) → IsMap m → IsMap (insert k v m)
  unfolding lookup insert
  insert-IsMap k v [] h = (refl, tt)
  insert-IsMap k v ((i, w) ∷ m) (new, h) =
      ground (arith, e.beq_iff i k, insert-IsMap k v m h, lookup-insert k i v m, e.beq_iff k i)

  pub remove-IsMap : (k : K) (m : List (K × V)) → IsMap m → IsMap (remove k m)
  unfolding lookup remove
  remove-IsMap k [] h = tt
  remove-IsMap k ((i, w) ∷ m) (new, h) = ground (arith, remove-IsMap k m h, lookup-remove k i m h)

  pub lookup-retain :
      (keep : V → Bool) (k : K) (m : List (K × V))
      → IsMap m
      → lookup k (retain keep m) ≡ kept keep (lookup k m)
  unfolding lookup retain
  lookup-retain keep k [] h = refl
  lookup-retain keep k ((i, w) ∷ m) (new, h) =
      ground (arith, e.beq_iff i k, lookup-retain keep k m h, new)

  pub retain-IsMap : (keep : V → Bool) (m : List (K × V)) → IsMap m → IsMap (retain keep m)
  unfolding lookup retain
  retain-IsMap keep [] h = tt
  retain-IsMap keep ((i, w) ∷ m) (new, h) =
      ground (arith, retain-IsMap keep m h, lookup-retain keep i m h)

  -- Sums over the values.
  pub total-insert_new :
      (f : V → ℕ) (k : K) (v : V) (m : List (K × V))
      → lookup k m ≡ none
      → total f (insert k v m) ≡ total f m + f v
  unfolding lookup insert total
  total-insert_new f k v [] h = omega arith
  total-insert_new f k v ((i, w) ∷ m) h = ground (arith, total-insert_new f k v m)

  pub total-insert_old :
      (f : V → ℕ) (k : K) (v w : V) (m : List (K × V))
      → lookup k m ≡ some w
      → total f (insert k v m) + f w ≡ total f m + f v
  unfolding lookup insert total
  total-insert_old f k v w [] h = cc
  total-insert_old f k v w ((i, u) ∷ m) h = ground (arith, total-insert_old f k v w m)

  pub total-remove :
      (f : V → ℕ) (k : K) (v : V) (m : List (K × V))
      → lookup k m ≡ some v
      → total f m ≡ total f (remove k m) + f v
  unfolding lookup remove total
  total-remove f k v [] h = cc
  total-remove f k v ((i, u) ∷ m) h = ground (arith, total-remove f k v m)

  pub total-retain :
      (f : V → ℕ) (keep : V → Bool) (m : List (K × V))
      → total f m ≡ total f (retain keep m) + total f (retain (λ v. not (keep v)) m)
  unfolding retain total
  total-retain f keep [] = omega arith
  total-retain f keep ((i, u) ∷ m) = ground (arith, total-retain f keep m)

  pub length-total : (m : List (K × V)) → length m ≡ total (λ v. 1) m
  unfolding total
  length-total [] = refl
  length-total ((i, u) ∷ m) = omega (arith, length-total m)

  pub length-insert_new :
      (k : K) (v : V) (m : List (K × V)) → lookup k m ≡ none → length (insert k v m) ≡ length m + 1
  length-insert_new k v m h =
      omega (arith, length-total (insert k v m), length-total m, total-insert_new (λ _. 1) k v m h)

  pub length-insert_old :
      (k : K) (v w : V) (m : List (K × V)) → lookup k m ≡ some w → length (insert k v m) ≡ length m
  length-insert_old k v w m h =
      omega
        (arith, length-total (insert k v m), length-total m, total-insert_old (λ _. 1) k v w m h)

  pub length-remove :
      (k : K) (v : V) (m : List (K × V)) → lookup k m ≡ some v → length m ≡ length (remove k m) + 1
  length-remove k v m h =
      omega (arith, length-total (remove k m), length-total m, total-remove (λ _. 1) k v m h)
