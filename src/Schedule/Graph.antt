-- ===== src/Schedule/Graph.antt =====
-- src/backend/optimizer.rs: the graph of dependences that schedule_region builds.
use aziky.Prelude.{
  some_is, ℕ, ◌⊎◌, suc, zero, ◌+◌, ◌<◌, ◌≤◌, ◌≡◌, refl, sym, ap, ◌∙◌, arith, true, some, List, [],
  ◌∷◌, All, All-map, get_elem?, get_elem?-lt, get_elem?-set, set, length, length-set, inl, inr,
  Bool-cases, Returns, Returns-bind, Returns-mono, ◌==◌, sum_of, ==_iff,
}
use aziky.Ir.{RuntimeInstr}
use aziky.Schedule.Region.{dependent, link_from, link, increment}
use aziky.Schedule.Counts.{count, once}

-- A degree that went up by one for each time that the node is among the successors.
abbrev pub Raised : List ℕ → List ℕ → (ℕ → ℕ) → Type 0
Raised before after by =
    (j d : ℕ) → get_elem? before j ≡ some d → get_elem? after j ≡ some (d + by j)

record Linked (left : RuntimeInstr) (right : ℕ) (instrs : List RuntimeInstr) (indegree : List ℕ)
    (result : List ℕ × List ℕ) : Type 0 where
  pub same_length : length result.1 ≡ length indegree
  pub raised : Raised indegree result.1 (λ j. count j result.0)
  pub in_range : All (λ s. (right ≤ s) × (s < right + length instrs)) result.0
  pub complete :
      (i : ℕ) (x : RuntimeInstr)
      → get_elem? instrs i ≡ some x
      → dependent left x ≡ true
      → 0 < count (right + i) result.0

increment-Raised :
    (indegree : List ℕ) (right : ℕ)
    → right < length indegree
    → Returns (increment indegree right) (λ counted.
      (length counted ≡ length indegree) × Raised indegree counted (λ j. once j right))
increment-Raised indegree right small =
    let (degree, found) = get_elem?-lt indegree right small in
    rw found (length-set indegree right (suc degree), raised degree found)
  where
    raised :
        (degree : ℕ)
        → get_elem? indegree right ≡ some degree
        → Raised indegree (set indegree right (suc degree)) (λ j. once j right)
    raised degree found j d h =
        get_elem?-set indegree right j (suc degree) small ∙ elim (Bool-cases (right == j)) [
          | inl same ↦
              let here = (==_iff right j).0 same in
              let known = some_is (sym found ∙ ap (get_elem? indegree) here ∙ h) in
              rw same (ap some (ground arith))
          | inr other ↦ rw other (h ∙ ap some (ground arith))
        ]

-- An element of a list is the first or one of the rest.
pub get_elem?-cons :
    {A : Type 0} (first : A) (rest : List A) (i : ℕ) (x : A)
    → get_elem? (first ∷ rest) i ≡ some x
    → ((i ≡ 0) × (first ≡ x)) ⊎ ((k : ℕ) × (i ≡ suc k) × (get_elem? rest k ≡ some x))
get_elem?-cons first rest zero x h = inl (refl, some_is h)
get_elem?-cons first rest (suc k) x h = inr (k, refl, h)

link_from-Linked :
    (left : RuntimeInstr) (right : ℕ) (instrs : List RuntimeInstr) (indegree : List ℕ)
    → right + length instrs ≤ length indegree
    → Returns (link_from left right instrs indegree) (Linked left right instrs indegree)
unfolding link_from count
link_from-Linked left right [] indegree small = record {
  same_length = refl;
  raised = λ j d h. h ∙ ap some (omega arith);
  in_range = tt;
  complete = λ i x h. absurd (cc);
}
link_from-Linked left right (instr ∷ rest) indegree small =
    elim (Bool-cases (dependent left instr)) [
      | inl linked_here ↦ rw linked_here (
          Returns-bind (increment indegree right) _ _ _
            (increment-Raised indegree right (omega arith))
            (λ counted (size, raised).
              Returns-bind (link_from left (suc right) rest counted) _ _ _
                (link_from-Linked left (suc right) rest counted (omega arith))
                (λ result linked. record {
                  same_length = linked.same_length ∙ size;
                  raised = λ j d h. linked.raised j _ (raised j d h) ∙ ap some (omega arith);
                  in_range = (
                    (omega arith, omega arith),
                    All-map (λ s (l, u). (omega arith, omega arith)) _ linked.in_range,
                  );
                  complete = λ i x h dep. elim (get_elem?-cons instr rest i x h) [
                    | inl (first, _) ↦ ground arith
                    | inr (k, next, h') ↦
                        let later = linked.complete k x h' dep in
                        let same : right + i ≡ suc right + k = omega arith in
                        omega (arith, later, ap (λ n. count n result.0) same)
                  ];
                })))
      | inr apart ↦ rw apart (
          Returns-mono (link_from left (suc right) rest indegree) _ _
            (link_from-Linked left (suc right) rest indegree (omega arith))
            (λ result linked. record {
              same_length = linked.same_length;
              raised = linked.raised;
              in_range = All-map (λ s (l, u). (omega arith, omega arith)) _ linked.in_range;
              complete = λ i x h dep. elim (get_elem?-cons instr rest i x h) [
                | inl (_, first) ↦ absurd (cc)
                | inr (k, next, h') ↦
                    let same : right + i ≡ suc right + k = omega arith in
                    rw same (linked.complete k x h' dep)
              ];
            }))
    ]

-- The successors of the nodes: later nodes of the region, and all that depend on the node.
pub record Graph (left : ℕ) (instrs : List RuntimeInstr) (indegree : List ℕ)
    (result : List (List ℕ) × List ℕ) : Type 0 where
  pub rows : length result.0 ≡ length instrs
  pub same_length : length result.1 ≡ length indegree
  pub raised : Raised indegree result.1 (λ j. sum_of (count j) result.0)
  pub later :
      (i : ℕ) (row : List ℕ)
      → get_elem? result.0 i ≡ some row
      → All (λ s. (left + i < s) × (s < left + length instrs)) row
  pub complete :
      (i j : ℕ) (x y : RuntimeInstr) (row : List ℕ)
      → i < j
      → get_elem? instrs i ≡ some x
      → get_elem? instrs j ≡ some y
      → dependent x y ≡ true
      → get_elem? result.0 i ≡ some row
      → 0 < count (left + j) row

no_dependence_missed :
    (left : ℕ) (instr : RuntimeInstr) (rest : List RuntimeInstr)
    (indegree first linked final : List ℕ) (rows : List (List ℕ))
    → Linked instr (suc left) rest indegree (first, linked)
    → Graph (suc left) rest linked (rows, final)
    → (i j : ℕ) (x y : RuntimeInstr) (row : List ℕ) → i < j
    → get_elem? (instr ∷ rest) i ≡ some x
    → get_elem? (instr ∷ rest) j ≡ some y
    → dependent x y ≡ true
    → get_elem? (first ∷ rows) i ≡ some row
    → 0 < count (left + j) row
no_dependence_missed left instr rest indegree first linked final rows f g i zero x y row lt p q dep
      r =
    absurd (omega arith)
no_dependence_missed left instr rest indegree first linked final rows f g zero (suc k) x y row lt p
      q dep r =
    let here = f.complete k y q (ap (λ z. dependent z y) (some_is p) ∙ dep) in
    let same : left + suc k ≡ suc left + k = omega arith in
    omega (arith, here, ap (λ n. count n first) same, ap (count (left + suc k)) (some_is r))
no_dependence_missed left instr rest indegree first linked final rows f g (suc i) (suc k) x y row lt
      p q dep r =
    let there = g.complete i k x y row (omega arith) p q dep r in
    let same : left + suc k ≡ suc left + k = omega arith in
    omega (arith, there, ap (λ n. count n row) same)

pub link-Graph :
    (left : ℕ) (instrs : List RuntimeInstr) (indegree : List ℕ)
    → left + length instrs ≤ length indegree
    → Returns (link left instrs indegree) (Graph left instrs indegree)
unfolding link
link-Graph left [] indegree small = record {
  rows = refl;
  same_length = refl;
  raised = λ j d h. h ∙ ap some (omega arith);
  later = λ i row h. absurd (cc);
  complete = λ i j x y row lt h. absurd (cc);
}
link-Graph left (instr ∷ rest) indegree small =
    Returns-bind (link_from instr (suc left) rest indegree) _ _ _
      (link_from-Linked instr (suc left) rest indegree (omega arith))
      (λ (first, linked) f.
        Returns-bind (link (suc left) rest linked) _ _ _
          (link-Graph (suc left) rest linked (omega (arith, f.same_length)))
          (λ (rows, final) g. record {
            rows = ap suc g.rows;
            same_length = g.same_length ∙ f.same_length;
            raised = λ j d h. g.raised j _ (f.raised j d h) ∙ ap some (omega arith);
            later = λ i row h. elim (get_elem?-cons first rows i row h) [
              | inl (e, same) ↦
                  rw (sym same) (All-map (λ s (l, u). (omega arith, omega arith)) _ f.in_range)
              | inr (k, e, h') ↦
                  All-map (λ s (l, u). (omega arith, omega arith)) _ (g.later k row h')
            ];
            complete = no_dependence_missed left instr rest indegree first linked final rows f g;
          }))
