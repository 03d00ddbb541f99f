-- ===== src/Schedule/Ends.antt =====
-- src/backend/optimizer.rs: the loop over the ready nodes ends, with an order that is allowed.
use mathlib.Core.Path.{subst}
use aziky.Prelude.{
  ℕ, ◌>>=◌, suc, zero, ◌<◌, ◌≤◌, ◌≡◌, refl, sym, arith, some, List, [], ◌∷◌, ◌++◌, All, All-map,
  All-append, All-split, get_elem?, get_elem?-lt, length, length-append, Returns, Returns-bind,
  Returns-mono, sum_of-append,
}
use aziky.Ir.{RuntimeInstr}
use aziky.Schedule.Ports.{account_ports}
use aziky.Schedule.Region.{release, schedule_from, key_of, best_from, remove_ready}
use aziky.Schedule.Counts.{count, once, count-split, IsAscending, IsAscending-middle}
use aziky.Schedule.Orders.{Independent, Schedules}
use aziky.Schedule.Orders.Schedules.{done, pick}
use aziky.Schedule.Kahn.{All-count, count-All, hits, degree_of, release_each}
use aziky.Schedule.Loop.{key_of-node, best_from-node, release_start, first_free, Waiting, hits-row}

-- What the loop is given: the successors of a node come after it, and take in all that depend on it.
pub record Dependences (region : List RuntimeInstr) (successors : List (List ℕ)) : Type 0 where
  pub rows : length successors ≡ length region
  pub later :
      (i : ℕ) (row : List ℕ)
      → get_elem? successors i ≡ some row
      → All (λ s. (i < s) × (s < length region)) row
  pub free :
      (i j : ℕ) (row : List ℕ)
      → i < j
      → j < length region
      → get_elem? successors i ≡ some row
      → count j row ≡ 0
      → Independent region i j

count-first : (x : ℕ) (xs : List ℕ) → 0 < count x (x ∷ xs)
unfolding count
count-first x xs = ground arith

count-cons : (j x : ℕ) (xs : List ℕ) → 0 < count j xs → 0 < count j (x ∷ xs)
unfolding count
count-cons j x xs h = omega arith

count-nonempty : (x : ℕ) (xs : List ℕ) → 0 < count x xs → 0 < length xs
unfolding count
count-nonempty x [] h = h
count-nonempty x (y ∷ xs) h = omega arith

module _ (region : List RuntimeInstr) (successors : List (List ℕ)) (critical : List ℕ)
    (d : Dependences region successors) (sized : length critical ≡ length region) where
  -- While a node is left, one is ready.
  ready-empty :
      (remaining indegree : List ℕ)
      → Waiting (length region) successors remaining indegree []
      → remaining ≡ []
  unfolding count
  ready-empty [] indegree w = refl
  ready-empty (m ∷ rest) indegree w =
      let (lt, _) = w.ascending in
      let le : All (λ y. m ≤ y) (m ∷ rest) = (omega arith, All-map (λ y h. omega arith) rest lt) in
      let later = λ (i : ℕ) (row : List ℕ) (e : get_elem? successors i ≡ some row).
        All-map (λ s (l, u). l) row (d.later i row e) in
      let free = first_free (length region) successors later m (m ∷ rest) le in
      let h = w.releasing.counts m in
      let here : once m m ≡ 1 = ground arith in absurd (ground (arith, free, h, here))

  -- A ready node is one that is left.
  ready-in_range :
      (remaining indegree ready : List ℕ)
      → Waiting (length region) successors remaining indegree ready
      → (j : ℕ) → 0 < count j ready
      → (0 < count j remaining) × (j < length region)
  ready-in_range remaining indegree ready w j p =
      let h = w.releasing.counts j in
      let left : 0 < count j remaining = ground arith in
      (left, count-All (λ j. j < length region) remaining w.in_range j left)

  -- A ready node depends on nothing in front of it.
  front_free :
      (front rest : List ℕ) (node : ℕ)
      → node < length region
      → degree_of successors (front ++ node ∷ rest) node ≡ 0
      → IsAscending (front ++ node ∷ rest)
      → All (λ j. j < length region) (front ++ node ∷ rest)
      → All (λ earlier. Independent region earlier node) front
  front_free front rest node small none_left ascending range =
      let (before, _, _) = IsAscending-middle node front rest ascending in
      let none_in_front : degree_of successors front node ≡ 0 =
        omega (arith, sum_of-append (hits successors node) front (node ∷ rest)) in
      go front before none_in_front
    where
      go :
          (xs : List ℕ)
          → All (λ y. y < node) xs
          → degree_of successors xs node ≡ 0
          → All (λ earlier. Independent region earlier node) xs
      go [] h e = tt
      go (x ∷ xs) (lt, h) e =
          let (row, found) = get_elem?-lt successors x (omega (arith, d.rows)) in
          let hit = hits-row (length region) successors x row found node in
          (d.free x node row lt small found (omega arith), go xs h (omega arith))

  module _ (fuel : ℕ) (port_counts : List ℕ)
      (continues : (remaining indegree ready : List ℕ)
        → Waiting (length region) successors remaining indegree ready
        → length remaining ≤ fuel
        → Returns
            (schedule_from region successors critical fuel indegree ready port_counts)
            (Schedules region remaining)) where
    -- One round of the loop, behind the choice of the node.
    take_node :
        (front rest : List ℕ) (node : ℕ) (indegree ready row : List ℕ)
        → Waiting (length region) successors (front ++ node ∷ rest) indegree ready
        → 0 < count node ready
        → node < length region
        → get_elem? successors node ≡ some row
        → length (front ++ node ∷ rest) ≤ suc fuel
        → Returns
            (do
              (lowered, released) ← release row indegree (remove_ready node ready)
              order ← schedule_from region successors critical fuel lowered released port_counts
              some (node ∷ order))
            (Schedules region (front ++ node ∷ rest))
    unfolding count
    take_node front rest node indegree ready row w taken small found enough =
        let (before, after, ascending) = IsAscending-middle node front rest w.ascending in
        let (range, (_, range')) = All-split _ front (node ∷ rest) w.in_range in
        let start =
          release_start (length region) successors front rest node row indegree ready found taken
            w in
        let h = w.releasing.counts node in
        let none_left : degree_of successors (front ++ node ∷ rest) node ≡ 0 = ground arith in
        let free = front_free front rest node small none_left w.ascending w.in_range in
        let in_row = All-map (λ s (l, u). u) row (d.later node row found) in
        Returns-bind (release row indegree (remove_ready node ready)) _ _ _
          (release_each (length region) successors (front ++ rest) row _ _ in_row start)
          (λ (lowered, released) r.
            Returns-bind
              (schedule_from region successors critical fuel lowered released port_counts) _ _ _
              (continues (front ++ rest) lowered released
                (record {
                  releasing = r;
                  ascending = ascending;
                  in_range = All-append _ front rest range range';
                })
                (omega (arith, length-append front (node ∷ rest), length-append front rest)))
              (λ order schedules. pick front rest node free schedules))

  -- The loop ends with an order that the dependences allow, if there is fuel for each node left.
  pub schedule_from-Schedules :
      (fuel : ℕ) (port_counts remaining indegree ready : List ℕ)
      → Waiting (length region) successors remaining indegree ready
      → length remaining ≤ fuel
      → Returns
          (schedule_from region successors critical fuel indegree ready port_counts)
          (Schedules region remaining)
  unfolding schedule_from
  schedule_from-Schedules fuel port_counts remaining indegree [] w enough =
      subst (λ nodes. Schedules region nodes []) (sym (ready-empty remaining indegree w)) done
  schedule_from-Schedules zero port_counts remaining indegree (first ∷ ready) w enough =
      let (left, _) =
        ready-in_range remaining indegree (first ∷ ready) w first (count-first first ready) in
      absurd (omega (arith, count-nonempty first remaining left))
  schedule_from-Schedules (suc fuel) port_counts remaining indegree (first ∷ ready) w enough =
      let in_range = ready-in_range remaining indegree (first ∷ ready) w in
      let (_, small) = in_range first (count-first first ready) in
      let all =
        All-count (λ j. (j < length region) × (0 < count j (first ∷ ready))) ready
          (λ j p.
            let q : 0 < count j (first ∷ ready) = count-cons j first ready p in
            ((in_range j q).1, q)) in
      Returns-bind (key_of region critical port_counts first) _ _ _
        (key_of-node region critical port_counts first small sized)
        (λ first_key same.
          Returns-bind (best_from region critical port_counts first_key ready) _ _ _
            (best_from-node region critical port_counts first_key ready (first ∷ ready) sized
              (rw same (count-first first ready)) all)
            (λ best taken.
              let (left, small') = in_range best.node taken in
              let (instr, found) = get_elem?-lt region best.node small' in
              let (row, listed) = get_elem?-lt successors best.node (omega (arith, d.rows)) in
              let (front, rest, split) = count-split best.node remaining left in
              rw (found, listed)
                (Returns-mono _ _ _
                  (take_node fuel (account_ports instr port_counts)
                    (schedule_from-Schedules fuel (account_ports instr port_counts)) front rest
                    best.node indegree (first ∷ ready) row
                    (subst
                      (λ nodes. Waiting (length region) successors nodes indegree (first ∷ ready))
                      split w)
                    taken small' listed (subst (λ nodes. length nodes ≤ suc fuel) split enough))
                  (λ order. subst (λ nodes. Schedules region nodes order) (sym split)))))
