-- ===== src/Prelude/Sorting.antt =====
-- `sort_unstable` and `dedup` of Rust's vectors, on indices.
use Prim.Native.Nat.{ℕ, ◌≤◌, ◌<◌}
use mathlib.Core.Bool.{true, false}
use mathlib.Core.List.{List, [], ◌∷◌}
use mathlib.Core.Logic.{inl, inr}
use native.Mathlib.Omega.{arith}
use aziky.Prelude.Tests.{leb, ◌==◌, if◌then◌else◌, Bool-cases}
use aziky.Prelude.Lists.{All}

-- `sort_unstable` of a vector of indices; there is one sorted order.
unfoldable pub insert_sorted : ℕ → List ℕ → List ℕ
insert_sorted x [] = x ∷ []
insert_sorted x (y ∷ ys) = if leb x y then x ∷ y ∷ ys else y ∷ insert_sorted x ys

unfoldable pub sort_unstable : List ℕ → List ℕ
sort_unstable [] = []
sort_unstable (x ∷ xs) = insert_sorted x (sort_unstable xs)

-- An element in front of a vector without equal neighbours.
abbrev pub cons_new : ℕ → List ℕ → List ℕ
cons_new x [] = x ∷ []
cons_new x (y ∷ ys) = if x == y then y ∷ ys else x ∷ y ∷ ys

unfoldable pub dedup : List ℕ → List ℕ
dedup [] = []
dedup (x ∷ xs) = cons_new x (dedup xs)

-- A bound below every element.
abbrev IsBelow : ℕ → List ℕ → Type 0
IsBelow x [] = Unit
IsBelow x (y ∷ ys) = x ≤ y

abbrev pub IsSorted : List ℕ → Type 0
IsSorted [] = Unit
IsSorted (x ∷ xs) = IsBelow x xs × IsSorted xs

abbrev IsUnder : ℕ → List ℕ → Type 0
IsUnder x [] = Unit
IsUnder x (y ∷ ys) = x < y

-- Strictly increasing: sorted and without duplicates.
abbrev pub IsIncreasing : List ℕ → Type 0
IsIncreasing [] = Unit
IsIncreasing (x ∷ xs) = IsUnder x xs × IsIncreasing xs

insert_sorted-IsBelow :
    (a x : ℕ) (xs : List ℕ) → a ≤ x → IsBelow a xs → IsBelow a (insert_sorted x xs)
unfolding insert_sorted
insert_sorted-IsBelow a x [] p q = p
insert_sorted-IsBelow a x (y ∷ ys) p q = ground arith

insert_sorted-IsSorted : (x : ℕ) (xs : List ℕ) → IsSorted xs → IsSorted (insert_sorted x xs)
unfolding insert_sorted
insert_sorted-IsSorted x [] h = (tt, tt)
insert_sorted-IsSorted x (y ∷ ys) (b, h) = elim (Bool-cases (leb x y)) [
  | inl le ↦ rw le (ground arith, (b, h))
  | inr gt ↦ rw gt (insert_sorted-IsBelow y x ys (ground arith) b, insert_sorted-IsSorted x ys h)
]

pub sort_unstable-IsSorted : (xs : List ℕ) → IsSorted (sort_unstable xs)
unfolding sort_unstable
sort_unstable-IsSorted [] = tt
sort_unstable-IsSorted (x ∷ xs) =
    insert_sorted-IsSorted x (sort_unstable xs) (sort_unstable-IsSorted xs)

cons_new-IsBelow : (a x : ℕ) (ys : List ℕ) → a ≤ x → IsBelow a (cons_new x ys)
cons_new-IsBelow a x [] p = p
cons_new-IsBelow a x (y ∷ ys) p = ground arith

cons_new-IsIncreasing :
    (x : ℕ) (ys : List ℕ) → IsBelow x ys → IsIncreasing ys → IsIncreasing (cons_new x ys)
cons_new-IsIncreasing x [] b h = (tt, tt)
cons_new-IsIncreasing x (y ∷ ys) b h = elim (Bool-cases (x == y)) [
  | inl same ↦ rw same h
  | inr other ↦ rw other (ground arith, h)
]

dedup-IsBelow : (a : ℕ) (xs : List ℕ) → IsBelow a xs → IsBelow a (dedup xs)
unfolding dedup
dedup-IsBelow a [] h = tt
dedup-IsBelow a (x ∷ xs) h = cons_new-IsBelow a x (dedup xs) h

pub dedup-IsIncreasing : (xs : List ℕ) → IsSorted xs → IsIncreasing (dedup xs)
unfolding dedup
dedup-IsIncreasing [] h = tt
dedup-IsIncreasing (x ∷ xs) (b, h) =
    cons_new-IsIncreasing x (dedup xs) (dedup-IsBelow x xs b) (dedup-IsIncreasing xs h)

module _ {κ} (P : ℕ → Type κ) where
  pub All-insert_sorted : (x : ℕ) (xs : List ℕ) → P x → All P xs → All P (insert_sorted x xs)
  unfolding insert_sorted
  All-insert_sorted x [] p h = (p, tt)
  All-insert_sorted x (y ∷ ys) p (q, h) =
      elim (leb x y) as (λ b. All P (if b then x ∷ y ∷ ys else y ∷ insert_sorted x ys)) [
        | true ↦ (p, (q, h))
        | false ↦ (q, All-insert_sorted x ys p h)
      ]

  pub All-sort_unstable : (xs : List ℕ) → All P xs → All P (sort_unstable xs)
  unfolding sort_unstable
  All-sort_unstable [] h = tt
  All-sort_unstable (x ∷ xs) (p, h) =
      All-insert_sorted x (sort_unstable xs) p (All-sort_unstable xs h)

  All-cons_new : (x : ℕ) (xs : List ℕ) → P x → All P xs → All P (cons_new x xs)
  All-cons_new x [] p h = (p, tt)
  All-cons_new x (y ∷ ys) p (q, h) =
      elim (x == y) as (λ b. All P (if b then y ∷ ys else x ∷ y ∷ ys)) [
        | true ↦ (q, h)
        | false ↦ (p, (q, h))
      ]

  pub All-dedup : (xs : List ℕ) → All P xs → All P (dedup xs)
  unfolding dedup
  All-dedup [] h = tt
  All-dedup (x ∷ xs) (p, h) = All-cons_new x (dedup xs) p (All-dedup xs h)
