-- ===== src/Schedule/Kahn.antt =====
-- src/backend/optimizer.rs: the loop of schedule_region over the ready nodes.
use mathlib.Core.Path.{subst}
use aziky.Prelude.{
  ℕ, suc, ◌+◌, ◌<◌, ◌≡◌, refl, sym, ap, ◌∙◌, arith, true, false, none, some, List, [], ◌∷◌, ◌++◌,
  All, get_elem?, get_elem?-set, set, length, length-set, inl, inr, Bool-cases, Returns, ◌==◌,
  if◌then◌else◌, sum_of, ==_iff,
}
use aziky.Schedule.Region.{decrement, release, insert_ready}
use aziky.Schedule.Counts.{count, once, count-insert_ready}

pub All-count : (P : ℕ → Type 0) (xs : List ℕ) → ((j : ℕ) → 0 < count j xs → P j) → All P xs
unfolding count
All-count P [] h = tt
All-count P (x ∷ xs) h = (h x (ground arith), All-count P xs (λ j p. h j (omega arith)))

pub count-All : (P : ℕ → Type 0) (xs : List ℕ) → All P xs → (j : ℕ) → 0 < count j xs → P j
unfolding count
count-All P [] h j p = absurd (omega arith)
count-All P (x ∷ xs) (q, h) j p = elim (Bool-cases (j == x)) [
  | inl same ↦ subst P (sym ((==_iff j x).0 same)) q
  | inr other ↦ count-All P xs h j (ground arith)
]

-- How often a node is a successor of another.
abbrev pub hits : List (List ℕ) → ℕ → ℕ → ℕ
hits successors j i = elim (get_elem? successors i) [ none ↦ 0 | some row ↦ count j row ]

-- How many of the nodes that are left a node waits for.
abbrev pub degree_of : List (List ℕ) → List ℕ → ℕ → ℕ
degree_of successors remaining j = sum_of (hits successors j) remaining

pub sum_of-middle :
    (f : ℕ → ℕ) (x : ℕ) (front rest : List ℕ)
    → sum_of f (front ++ x ∷ rest) ≡ f x + sum_of f (front ++ rest)
sum_of-middle f x [] rest = refl
sum_of-middle f x (y ∷ front) rest = omega (arith, sum_of-middle f x front rest)

-- Between the releases: the degrees count the nodes that are left and the releases to come, and
-- the ready nodes are those left of degree 0.
pub record Releasing (n : ℕ) (successors : List (List ℕ)) (remaining todo indegree ready : List ℕ)
    : Type 0 where
  pub size : length indegree ≡ n
  pub degrees :
      (j : ℕ)
      → j < n
      → get_elem? indegree j ≡ some (degree_of successors remaining j + count j todo)
  pub counts :
      (j : ℕ)
      → count j ready
        ≡ (if degree_of successors remaining j + count j todo == 0 then count j remaining else 0)
  pub waiting :
      (j : ℕ) → j < n → 0 < degree_of successors remaining j + count j todo → count j remaining ≡ 1

decrement-suc :
    (indegree : List ℕ) (s d : ℕ)
    → get_elem? indegree s ≡ some (suc d)
    → decrement indegree s ≡ some (d, set indegree s d)
unfolding decrement
decrement-suc indegree s d h = rw h refl

-- The ready nodes after a release, by the two cases of the degree that is left.
count-released :
    (j s d e k : ℕ) (ready : List ℕ) (remaining : List ℕ)
    → count j ready ≡ (if k == 0 then count j remaining else 0)
    → (((j == s) ≡ true) → (k ≡ suc d) × (e ≡ d) × (count j remaining ≡ 1))
    → (((j == s) ≡ false) → e ≡ k)
    → count s ready ≡ 0
    → count j (if d == 0 then insert_ready s ready else ready)
      ≡ (if e == 0 then count j remaining else 0)
count-released j s d e k ready remaining h same other absent = elim (Bool-cases (d == 0)) [
  | inl last ↦
      let inserted = count-insert_ready j s ready absent in
      elim (Bool-cases (j == s)) [
        | inl here ↦ let (p, q, r) = same here in rw last (ground arith)
        | inr there ↦ let p = other there in rw last (ground arith)
      ]
  | inr more ↦ elim (Bool-cases (j == s)) [
    | inl here ↦ let (p, q, r) = same here in rw more (ground arith)
    | inr there ↦ let p = other there in rw more (ground arith)
  ]
]

module _ (n : ℕ) (successors : List (List ℕ)) (remaining : List ℕ) where
  release_one :
      (s : ℕ) (rest indegree ready : List ℕ)
      → s < n
      → (r : Releasing n successors remaining (s ∷ rest) indegree ready)
      → Releasing n successors remaining rest
          (set indegree s (degree_of successors remaining s + count s rest))
          (if degree_of successors remaining s + count s rest == 0
            then insert_ready s ready
            else ready)
  unfolding count
  release_one s rest indegree ready small r =
      let d = degree_of successors remaining s + count s rest in
      let one : once s s ≡ 1 = ground arith in
      let positive : 0 < degree_of successors remaining s + count s (s ∷ rest) =
        omega (arith, one) in
      record {
        size = length-set indegree s d ∙ r.size;
        degrees = λ j lt.
            get_elem?-set indegree s j d (omega (arith, r.size)) ∙ elim (Bool-cases (s == j)) [
              | inl same ↦
                  let here = (==_iff s j).0 same in
                  rw same (ap (λ k. some (degree_of successors remaining k + count k rest)) here)
              | inr other ↦ rw other (r.degrees j lt ∙ ap some (ground arith))
            ];
        counts = λ j.
            count-released j s d (degree_of successors remaining j + count j rest)
              (degree_of successors remaining j + count j (s ∷ rest)) ready remaining (r.counts j)
              (λ same.
                let here = (==_iff j s).0 same in
                let one : once j s ≡ 1 = rw same refl in
                let waits = r.waiting s small positive in
                let equal = ap (λ k. degree_of successors remaining k + count k rest) here in
                (omega (arith, one, equal), equal, ap (λ k. count k remaining) here ∙ waits))
              (λ other. let none_here : once j s ≡ 0 = rw other refl in omega (arith, none_here))
              (let h = r.counts s in ground (arith, positive));
        waiting = λ j lt p. r.waiting j lt (omega arith);
      }

  pub release_each :
      (todo indegree ready : List ℕ)
      → All (λ s. s < n) todo
      → Releasing n successors remaining todo indegree ready
      → Returns
          (release todo indegree ready)
          (λ (lowered, released). Releasing n successors remaining [] lowered released)
  unfolding release count
  release_each [] indegree ready small r = r
  release_each (s ∷ todo) indegree ready (lt, small) r =
      let d = degree_of successors remaining s + count s todo in
      let more : once s s ≡ 1 = ground arith in
      let known = decrement-suc indegree s d (r.degrees s lt ∙ ap some (omega (arith, more))) in
      rw known (release_each todo _ _ small (release_one s todo indegree ready lt r))
