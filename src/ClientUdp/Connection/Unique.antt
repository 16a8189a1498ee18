-- ===== src/ClientUdp/Connection/Unique.antt =====
-- Lists of numbers that change by one that is new.
use ppaass_ai.Base.{ℕ, ◌≢◌, sym, List, [], ◌∷◌, ◌++◌, All, All-append}

-- None of them is twice there.
abbrev pub AreUnique : List ℕ → Type 0
AreUnique [] = Unit
AreUnique (i ∷ is) = All (λ j. j ≢ i) is × AreUnique is

pub All-left : (P : ℕ → Type 0) (xs ys : List ℕ) → All P (xs ++ ys) → All P xs
All-left P [] ys h = tt
All-left P (x ∷ xs) ys (first, h) = (first, All-left _ xs ys h)

pub All-right : (P : ℕ → Type 0) (xs ys : List ℕ) → All P (xs ++ ys) → All P ys
All-right P [] ys h = h
All-right P (x ∷ xs) ys (first, h) = All-right _ xs ys h

pub All-map : (P Q : ℕ → Type 0) (xs : List ℕ) → ((i : ℕ) → P i → Q i) → All P xs → All Q xs
All-map P Q [] f h = tt
All-map P Q (x ∷ xs) f (first, h) = (f x first, All-map P Q xs f h)

pub AreUnique-right : (xs ys : List ℕ) → AreUnique (xs ++ ys) → AreUnique ys
AreUnique-right [] ys h = h
AreUnique-right (x ∷ xs) ys (first, h) = AreUnique-right xs ys h

-- The rest may change, if it takes in only what is fresh.
pub AreUnique-change :
    (fresh : ℕ) (Taken : Type 0) (xs ys ys' : List ℕ)
    → ((P : ℕ → Type 0) → All P ys → (Taken → P fresh) → All P ys')
    → AreUnique ys'
    → (Taken → All (λ j. j ≢ fresh) (xs ++ ys))
    → AreUnique (xs ++ ys)
    → AreUnique (xs ++ ys')
AreUnique-change fresh Taken [] ys ys' keeps new h u = new
AreUnique-change fresh Taken (x ∷ xs) ys ys' keeps new h (first, u) = (
  All-append _ xs ys' (All-left _ xs ys first)
      (keeps (λ j. j ≢ x) (All-right _ xs ys first) (λ one e. (h one).0 (sym e))),
  AreUnique-change fresh Taken xs ys ys' keeps new (λ one. (h one).1) u,
)
