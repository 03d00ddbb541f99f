-- ===== src/Schedule/Loop.antt =====
-- src/backend/optimizer.rs: the state of the loop over the ready nodes, and one choice of a node.
use aziky.Prelude.{
  ℕ, ◌+◌, ◌<◌, ◌≤◌, ◌≡◌, refl, ap, ◌∙◌, arith, true, false, Option, none, some, List, [], ◌∷◌, ◌++◌,
  All, All-map, All-append, get_elem?, get_elem?-lt, length, inl, inr, Bool-cases, Returns,
  Returns-bind, ◌==◌, if◌then◌else◌, ==_iff,
}
use aziky.Ir.{RuntimeInstr}
use aziky.Schedule.Region.{Key, key_of, key_le, best_from, remove_ready}
use aziky.Schedule.Counts.{
  count, once, count-remove_ready, count-middle, count-none, IsAscending, IsAscending-middle,
}
use aziky.Schedule.Kahn.{hits, degree_of, sum_of-middle, Releasing}

-- The state of the loop, where the nodes that are not in the order yet are left.
pub record Waiting (n : ℕ) (successors : List (List ℕ)) (remaining indegree ready : List ℕ)
    : Type 0 where
  pub releasing : Releasing n successors remaining [] indegree ready
  pub ascending : IsAscending remaining
  pub in_range : All (λ j. j < n) remaining

-- A node whose key was computed.
pub key_of-node :
    (region : List RuntimeInstr) (critical port_counts : List ℕ) (node : ℕ)
    → node < length region
    → length critical ≡ length region
    → Returns (key_of region critical port_counts node) (λ key. key.node ≡ node)
unfolding key_of
key_of-node region critical port_counts node small size =
    let (instr, p) = get_elem?-lt region node small in
    let (path, q) = get_elem?-lt critical node (omega (arith, size)) in rw (p, q) refl

pub best_from-node :
    (region : List RuntimeInstr) (critical port_counts : List ℕ) (best : Key) (ready all : List ℕ)
    → length critical ≡ length region
    → 0 < count best.node all
    → All (λ node. (node < length region) × (0 < count node all)) ready
    → Returns (best_from region critical port_counts best ready) (λ key. 0 < count key.node all)
unfolding best_from
best_from-node region critical port_counts best [] all size h k = h
best_from-node region critical port_counts best (node ∷ ready) all size h ((small, here), k) =
    Returns-bind (key_of region critical port_counts node) _ _ _
      (key_of-node region critical port_counts node small size)
      (λ key same.
        best_from-node region critical port_counts (if key_le best key then key else best) ready all
          size
          (elim (key_le best key) as (λ b. 0 < count (if b then key else best).node all) [
            | true ↦ rw same here
            | false ↦ h
          ])
          k)

module _ (n : ℕ) (successors : List (List ℕ)) where
  pub hits-row :
      (node : ℕ) (row : List ℕ)
      → get_elem? successors node ≡ some row
      → (j : ℕ) → hits successors j node ≡ count j row
  hits-row node row h j = ap (λ o. elim o [ none ↦ 0 | some r ↦ count j r ]) h

  degree_of-middle :
      (front rest : List ℕ) (node : ℕ) (row : List ℕ)
      → get_elem? successors node ≡ some row
      → (j : ℕ)
      → degree_of successors (front ++ node ∷ rest) j
        ≡ count j row + degree_of successors (front ++ rest) j
  degree_of-middle front rest node row h j =
      sum_of-middle (hits successors j) node front rest
      ∙ ap (λ k. k + degree_of successors (front ++ rest) j) (hits-row node row h j)

  -- The node is taken from the ready nodes and from those that are left, and its successors are to
  -- be released.
  pub release_start :
      (front rest : List ℕ) (node : ℕ) (row indegree ready : List ℕ)
      → get_elem? successors node ≡ some row
      → 0 < count node ready
      → Waiting n successors (front ++ node ∷ rest) indegree ready
      → Releasing n successors (front ++ rest) row indegree (remove_ready node ready)
  unfolding count
  release_start front rest node row indegree ready found taken w =
      let r = w.releasing in
      let (before, after, _) = IsAscending-middle node front rest w.ascending in
      let absent : count node (front ++ rest) ≡ 0 = count-none node (front ++ rest) (
        All-append _ front rest (All-map (λ y h. inr h) front before)
          (All-map (λ y h. inl h) rest after)) in
      let degree = degree_of-middle front rest node row found in
      record {
        size = r.size;
        degrees = λ j lt. r.degrees j lt ∙ ap some (omega (arith, degree j));
        counts = λ j.
            let removed = count-remove_ready j node ready in
            let middle = count-middle j node front rest in
            let before = r.counts j in
            elim (Bool-cases (j == node)) [
              | inl same ↦
                  let gone = ap (λ k. count k (front ++ rest)) ((==_iff j node).0 same) ∙ absent in
                  ground (arith, removed, gone)
              | inr other ↦
                  let none_here : once j node ≡ 0 = rw other refl in
                  ground (arith, removed, middle, before, none_here, degree j)
            ];
        waiting = λ j lt p.
            let free = r.counts node in
            let middle = count-middle j node front rest in
            let waits = r.waiting j lt (omega (arith, degree j)) in
            elim (Bool-cases (j == node)) [
              | inl same ↦
                  let still =
                    ap (degree_of successors (front ++ node ∷ rest)) ((==_iff j node).0 same) in
                  absurd (ground (arith, free, degree j, still))
              | inr other ↦
                  let none_here : once j node ≡ 0 = rw other refl in
                  omega (arith, middle, waits, none_here)
            ];
      }

  pub first_free :
      ((i : ℕ) (row : List ℕ) → get_elem? successors i ≡ some row → All (λ s. i < s) row)
      → (node : ℕ) (rest : List ℕ) → All (λ y. node ≤ y) rest
      → degree_of successors rest node ≡ 0
  first_free later node [] h = refl
  first_free later node (x ∷ rest) (le, h) =
      omega (arith, first_free later node rest h, no_hit (get_elem? successors x) refl)
    where
      no_hit : (o : Option (List ℕ)) → get_elem? successors x ≡ o → hits successors node x ≡ 0
      no_hit none e = ap (λ o. elim o [ none ↦ 0 | some r ↦ count node r ]) e
      no_hit (some row) e =
          hits-row x row e node
          ∙ count-none node row (All-map (λ s lt. inl (omega arith)) row (later x row e))
