-- ===== src/Schedule/Counts.antt =====
-- src/backend/optimizer.rs: the set of ready nodes, as how often each node is in it.
use aziky.Prelude.{
  ℕ, ◌⊎◌, ◌+◌, ◌<◌, ◌≡◌, refl, ap, arith, List, [], ◌∷◌, ◌++◌, All, All-append, All-split, inl, inr,
  Bool-cases, ◌==◌, if◌then◌else◌,
}
use aziky.Schedule.Region.{insert_ready, remove_ready}

abbrev pub once : ℕ → ℕ → ℕ
once a b = if a == b then 1 else 0

unfoldable pub count : ℕ → List ℕ → ℕ
count j [] = 0
count j (x ∷ xs) = once j x + count j xs

pub count-append : (j : ℕ) (xs ys : List ℕ) → count j (xs ++ ys) ≡ count j xs + count j ys
unfolding count
count-append j [] ys = omega arith
count-append j (x ∷ xs) ys = omega (arith, count-append j xs ys)

pub count-middle :
    (j x : ℕ) (front rest : List ℕ)
    → count j (front ++ x ∷ rest) ≡ once j x + count j (front ++ rest)
unfolding count
count-middle j x [] rest = refl
count-middle j x (y ∷ front) rest = omega (arith, count-middle j x front rest)

pub count-insert_ready :
    (j x : ℕ) (xs : List ℕ) → count x xs ≡ 0 → count j (insert_ready x xs) ≡ once j x + count j xs
unfolding count insert_ready
count-insert_ready j x [] h = refl
count-insert_ready j x (y ∷ xs) h =
    let later = count-insert_ready j x xs (ground arith) in ground arith

pub count-remove_ready :
    (j x : ℕ) (xs : List ℕ) → count j (remove_ready x xs) ≡ (if j == x then 0 else count j xs)
unfolding count remove_ready
count-remove_ready j x [] = ground arith
count-remove_ready j x (y ∷ xs) = let later = count-remove_ready j x xs in ground arith

-- A list in which a node occurs, split at the node.
pub count-split :
    (x : ℕ) (xs : List ℕ) → 0 < count x xs → (front rest : List ℕ) × (xs ≡ front ++ x ∷ rest)
unfolding count
count-split x [] h = absurd (omega arith)
count-split x (y ∷ xs) h = elim (Bool-cases (x == y)) [
  | inl same ↦ ([], xs, ground arith)
  | inr other ↦
      let (front, rest, e) = count-split x xs (ground arith) in (y ∷ front, rest, ap (◌∷◌ y) e)
]

pub count-none : (j : ℕ) (xs : List ℕ) → All (λ x. (j < x) ⊎ (x < j)) xs → count j xs ≡ 0
unfolding count
count-none j [] h = refl
count-none j (x ∷ xs) (p, h) = let later = count-none j xs h in ground arith

-- Nodes in increasing order, each before all that follow.
abbrev pub IsAscending : List ℕ → Type 0
IsAscending [] = Unit
IsAscending (x ∷ xs) = All (λ y. x < y) xs × IsAscending xs

pub IsAscending-middle :
    (x : ℕ) (front rest : List ℕ)
    → IsAscending (front ++ x ∷ rest)
    → All (λ y. y < x) front × All (λ y. x < y) rest × IsAscending (front ++ rest)
IsAscending-middle x [] rest (p, h) = (tt, p, h)
IsAscending-middle x (y ∷ front) rest (p, h) =
    let (before, after, h') = IsAscending-middle x front rest h in
    let (q, (here, q')) = All-split _ front (x ∷ rest) p in
    ((here, before), after, (All-append _ front rest q q', h'))
