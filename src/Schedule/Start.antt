-- ===== src/Schedule/Start.antt =====
-- src/backend/optimizer.rs: the state in which the loop of schedule_region begins.
use aziky.Prelude.{
  some_is, ℕ, suc, zero, ◌+◌, ◌<◌, ◌≤◌, ◌≡◌, refl, sym, ap, ◌∙◌, arith, true, some, List, [], ◌∷◌,
  All, All-map, get_elem?, get_elem?-lt, length, inl, inr, Bool-cases, ◌==◌, if◌then◌else◌, sum_of,
  replicate, ==_iff,
}
use aziky.Ir.{RuntimeInstr}
use aziky.Schedule.Region.{is_schedulable, dependent, ready_from, range_from}
use aziky.Schedule.Counts.{count, IsAscending, count-none}
use aziky.Schedule.Orders.{range_from-range}
use aziky.Schedule.Graph.{Graph}
use aziky.Schedule.Kahn.{degree_of}
use aziky.Schedule.Loop.{Waiting, hits-row}
use aziky.Schedule.Ends.{Dependences}

abbrev pub IsPure : RuntimeInstr → Type 0
IsPure instr = is_schedulable instr ≡ true

pub All-get_elem? :
    {A : Type 0} (P : A → Type 0) (xs : List A)
    → All P xs
    → (i : ℕ) (x : A) → get_elem? xs i ≡ some x
    → P x
All-get_elem? P [] h i x e = absurd (cc)
All-get_elem? P (y ∷ ys) (p, h) zero x e = rw (sym (some_is e)) p
All-get_elem? P (y ∷ ys) (p, h) (suc i) x e = All-get_elem? P ys h i x e

get_elem?-replicate : (n i : ℕ) → i < n → get_elem? (replicate {A = ℕ} n 0) i ≡ some 0
get_elem?-replicate zero i h = absurd (omega arith)
get_elem?-replicate (suc n) zero h = refl
get_elem?-replicate (suc n) (suc i) h = get_elem?-replicate n i (omega arith)

pub length-replicate : (n : ℕ) → length (replicate {A = ℕ} n 0) ≡ n
length-replicate zero = refl
length-replicate (suc n) = ap suc (length-replicate n)

range_from-IsAscending : (start n : ℕ) → IsAscending (range_from start n)
unfolding range_from
range_from-IsAscending start zero = tt
range_from-IsAscending start (suc n) = (
  All-map (λ y (l, u). l) (range_from (suc start) n) (range_from-range (suc start) n),
  range_from-IsAscending (suc start) n,
)

count-range_from : (j start n : ℕ) → start ≤ j → j < start + n → count j (range_from start n) ≡ 1
unfolding count range_from
count-range_from j start zero l u = absurd (omega arith)
count-range_from j start (suc n) l u = elim (Bool-cases (j == start)) [
  | inl here ↦
      let none_later =
        count-none j (range_from (suc start) n)
          (All-map (λ y (p, q). inl (ground arith)) _ (range_from-range (suc start) n)) in
      ground arith
  | inr there ↦
      let later = count-range_from j (suc start) n (ground arith) (omega arith) in ground arith
]

-- The first ready nodes are those of degree 0.
count-ready_from :
    (degree : ℕ → ℕ) (j start : ℕ) (indegree : List ℕ)
    → ((i : ℕ) → i < length indegree → get_elem? indegree i ≡ some (degree (start + i)))
    → count j (ready_from start indegree)
      ≡ (if degree j == 0 then count j (range_from start (length indegree)) else 0)
unfolding count ready_from range_from
count-ready_from degree j start [] h = ground arith
count-ready_from degree j start (d ∷ rest) h =
    let first : d ≡ degree start = some_is (h 0 (omega arith)) ∙ ap degree (omega arith) in
    let later =
      count-ready_from degree j (suc start) rest
        (λ i lt. h (suc i) (omega arith) ∙ ap (λ k. some (degree k)) (omega arith)) in
    elim (Bool-cases (j == start)) [
      | inl here ↦ let equal = ap degree ((==_iff j start).0 here) in ground arith
      | inr there ↦ ground arith
    ]

-- The degrees that are counted over the rows are those over the nodes.
degree_of-range_from :
    (successors : List (List ℕ)) (j start : ℕ) (rows : List (List ℕ))
    → ((i : ℕ) → get_elem? successors (start + i) ≡ get_elem? rows i)
    → degree_of successors (range_from start (length rows)) j ≡ sum_of (count j) rows
unfolding range_from
degree_of-range_from successors j start [] same = refl
degree_of-range_from successors j start (row ∷ rows) same =
    let begin : start ≡ start + 0 = omega arith in
    let first =
      hits-row (length successors) successors start row (ap (get_elem? successors) begin ∙ same 0)
        j in
    let later =
      degree_of-range_from successors j (suc start) rows
        (λ i. ap (get_elem? successors) (omega arith) ∙ same (suc i)) in
    omega (arith, first, later)

module _ (region : List RuntimeInstr) (pure : All IsPure region) (successors : List (List ℕ))
    (indegree : List ℕ)
    (g : Graph 0 region (replicate (length region) 0) (successors, indegree)) where
  pub Graph-Dependences : Dependences region successors
  Graph-Dependences = record {
    rows = g.rows;
    later = λ i row e. All-map (λ s (l, u). (omega arith, omega arith)) row (g.later i row e);
    free = λ i j row lt small e absent.
        let (first, p) = get_elem?-lt region i (omega arith) in
        let (second, q) = get_elem?-lt region j small in
        record {
          first = first;
          second = second;
          first_at = p;
          second_at = q;
          first_pure = All-get_elem? IsPure region pure i first p;
          second_pure = All-get_elem? IsPure region pure j second q;
          apart = elim (Bool-cases (dependent first second)) [
            | inl linked ↦
                let counted = g.complete i j first second row lt p q linked e in
                let same : 0 + j ≡ j = omega arith in
                absurd (omega (arith, absent, counted, ap (λ k. count k row) same))
            | inr apart ↦ apart
          ];
        };
  }

  -- The loop begins with all nodes left.
  pub Graph-Waiting :
      Waiting
        (length region)
        successors
        (range_from 0 (length region))
        indegree
        (ready_from 0 indegree)
  unfolding count
  Graph-Waiting =
      let n = length region in
      let size : length indegree ≡ n = g.same_length ∙ length-replicate n in
      let degree = λ (j : ℕ).
        ap (λ k. degree_of successors (range_from 0 k) j) (sym g.rows)
        ∙ degree_of-range_from successors j 0 successors
            (λ i. ap (get_elem? successors) (omega arith)) in
      let known : (j : ℕ)
          → j < n
          → get_elem? indegree j ≡ some (degree_of successors (range_from 0 n) j) =
        λ j lt. g.raised j 0 (get_elem?-replicate n j lt) ∙ ap some (omega (arith, degree j)) in
      record {
        releasing = record {
          size = size;
          degrees = λ j lt. known j lt ∙ ap some (omega arith);
          counts = λ j.
              let h = count-ready_from (degree_of successors (range_from 0 n)) j 0 indegree (λ i lt.
                known i (omega (arith, size))
                ∙ ap (λ k. some (degree_of successors (range_from 0 n) k)) (omega arith)) in
              let sized = ap (λ k. count j (range_from 0 k)) size in ground (arith, h, sized);
          waiting = λ j lt p. count-range_from j 0 n (omega arith) (omega arith);
        };
        ascending = range_from-IsAscending 0 n;
        in_range = All-map (λ j (l, u). omega arith) _ (range_from-range 0 n);
      }
