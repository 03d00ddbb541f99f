-- ===== src/Schedule/Region.antt =====
-- src/backend/optimizer.rs: schedule_region, with the graph of dependences that it builds.
use aziky.Prelude.{
  ℕ, suc, zero, ◌+◌, ◌%◌, ◌^◌, Bool, true, false, not, ◌&&◌, ◌||◌, ◌>>=◌, Option, none, some, List,
  [], ◌∷◌, ltb, leb, ◌==◌, if◌then◌else◌, get_elem?, set, length, replicate,
}
use aziky.Ir.{RuntimeInstr, mov, bin_op, bin_op_in_place, normalize_int}
use aziky.Lir.Slots.{read_slots, write_slots}
use aziky.Frontend.Effects.{contains}
use aziky.Superopt.Cost.{instruction_latency}
use aziky.Schedule.Ports.{account_ports, maximum, projected_machine_pressure}
use aziky.Schedule.Pressure.{peak_register_pressure}

unfoldable pub is_schedulable : RuntimeInstr → Bool
is_schedulable (mov _ _) = true
is_schedulable (bin_op _ _ _ _) = true
is_schedulable (bin_op_in_place _ _ _) = true
is_schedulable (normalize_int _ _ _) = true
is_schedulable _ = false

-- `HashSet::is_disjoint`
unfoldable pub is_disjoint : List ℕ → List ℕ → Bool
is_disjoint [] slots = true
is_disjoint (s ∷ rest) slots = not (contains s slots) && is_disjoint rest slots

unfoldable pub dependent : RuntimeInstr → RuntimeInstr → Bool
dependent left right =
    not (is_disjoint (write_slots left) (read_slots right))
    || not (is_disjoint (write_slots left) (write_slots right))
    || not (is_disjoint (read_slots left) (write_slots right))

-- `indegree[right] += 1`; an index out of range panics.
abbrev pub increment : List ℕ → ℕ → Option (List ℕ)
increment indegree right = do
  degree ← get_elem? indegree right
  some (set indegree right (suc degree))

-- The loop over `right`: the successors of `left`, and the degrees with them counted.
unfoldable pub link_from : RuntimeInstr → ℕ → List RuntimeInstr → List ℕ → Option (List ℕ × List ℕ)
link_from left right [] indegree = some ([], indegree)
link_from left right (instr ∷ rest) indegree =
    if dependent left instr
    then (do
      counted ← increment indegree right
      (later, linked) ← link_from left (suc right) rest counted
      some (right ∷ later, linked))
    else link_from left (suc right) rest indegree

-- The loop over `left`.
unfoldable pub link : ℕ → List RuntimeInstr → List ℕ → Option (List (List ℕ) × List ℕ)
link left [] indegree = some ([], indegree)
link left (instr ∷ rest) indegree = do
  (first, linked) ← link_from instr (suc left) rest indegree
  (successors, final) ← link (suc left) rest linked
  some (first ∷ successors, final)

-- `critical[*successor]` for each successor.
unfoldable pub read_all : List ℕ → List ℕ → Option (List ℕ)
read_all critical [] = some []
read_all critical (successor ∷ rest) = do
  path ← get_elem? critical successor
  paths ← read_all critical rest
  some (path ∷ paths)

-- The longest path in cycles from each node, from the last node to the first; the sum wraps.
unfoldable pub critical_from :
    List RuntimeInstr → List (List ℕ) → Bool → ℕ → List ℕ → Option (List ℕ)
critical_from region successors atom zero critical = some critical
critical_from region successors atom (suc node) critical = do
  instr ← get_elem? region node
  next ← get_elem? successors node
  paths ← read_all critical next
  critical_from region successors atom node
      (set critical node ((instruction_latency instr atom + maximum paths) % 2 ^ 32))

-- The first nodes, those without an instruction in front of them to wait for.
unfoldable pub ready_from : ℕ → List ℕ → List ℕ
ready_from node [] = []
ready_from node (degree ∷ rest) =
    let later = ready_from (suc node) rest in if degree == 0 then node ∷ later else later

-- `BTreeSet::insert` and `BTreeSet::remove`
unfoldable pub insert_ready : ℕ → List ℕ → List ℕ
insert_ready node [] = node ∷ []
insert_ready node (other ∷ ready) =
    let later = insert_ready node ready in
    if ltb node other
    then node ∷ other ∷ ready
    else if node == other
    then other ∷ ready
    else other ∷ later

unfoldable pub remove_ready : ℕ → List ℕ → List ℕ
remove_ready node [] = []
remove_ready node (other ∷ ready) =
    let later = remove_ready node ready in if node == other then later else other ∷ later

-- The key of a ready node: the critical path, and in reverse order the pressure, the
-- micro-operations and the node.
pub record Key : Type 0 where
  pub path : ℕ
  pub pressure : ℕ
  pub micro_ops : ℕ
  pub node : ℕ

-- Whether the first key is less than the second or equal to it.
unfoldable pub key_le : Key → Key → Bool
key_le a b =
    ltb a.path b.path
    || a.path == b.path
      && (ltb b.pressure a.pressure
          || a.pressure == b.pressure
            && (ltb b.micro_ops a.micro_ops || a.micro_ops == b.micro_ops && leb b.node a.node))

-- `indegree[*successor] -= 1`; an index out of range panics, as does a degree of 0.
abbrev pub lower_degree : List ℕ → ℕ → ℕ → Option (ℕ × List ℕ)
lower_degree indegree successor zero = none
lower_degree indegree successor (suc degree) = some (degree, set indegree successor degree)

unfoldable pub decrement : List ℕ → ℕ → Option (ℕ × List ℕ)
decrement indegree successor = do
  degree ← get_elem? indegree successor
  lower_degree indegree successor degree

-- The loop over the successors of the node that was chosen.
unfoldable pub release : List ℕ → List ℕ → List ℕ → Option (List ℕ × List ℕ)
release [] indegree ready = some (indegree, ready)
release (successor ∷ rest) indegree ready = do
  (degree, lowered) ← decrement indegree successor
  release rest lowered (if degree == 0 then insert_ready successor ready else ready)

module _ (region : List RuntimeInstr) where
  unfoldable pub key_of : List ℕ → List ℕ → ℕ → Option Key
  key_of critical port_counts node = do
    instr ← get_elem? region node
    path ← get_elem? critical node
    let projected = projected_machine_pressure instr port_counts
    some (record { path = path; pressure = projected.0; micro_ops = projected.1; node = node })

  -- `max_by_key`, which gives the last of the greatest.
  unfoldable pub best_from : List ℕ → List ℕ → Key → List ℕ → Option Key
  best_from critical port_counts best [] = some best
  best_from critical port_counts best (node ∷ ready) = do
    key ← key_of critical port_counts node
    best_from critical port_counts (if key_le best key then key else best) ready

  -- The loop over the ready nodes, on fuel.
  unfoldable pub schedule_from :
      List (List ℕ) → List ℕ → ℕ → List ℕ → List ℕ → List ℕ → Option (List ℕ)
  schedule_from successors critical fuel indegree [] port_counts = some []
  schedule_from successors critical zero indegree (first ∷ ready) port_counts = none
  schedule_from successors critical (suc fuel) indegree (first ∷ ready) port_counts = do
    first_key ← key_of critical port_counts first
    best ← best_from critical port_counts first_key ready
    instr ← get_elem? region best.node
    next ← get_elem? successors best.node
    (lowered, released) ← release next indegree (remove_ready best.node (first ∷ ready))
    order ←
        schedule_from successors critical fuel lowered released (account_ports instr port_counts)
    some (best.node ∷ order)

-- `(0..n).collect()`
unfoldable pub range_from : ℕ → ℕ → List ℕ
range_from start zero = []
range_from start (suc n) = start ∷ range_from (suc start) n

-- The outer `none` is a panic or the end of the fuel; the inner one is the code's `None`.
unfoldable pub schedule_region : List RuntimeInstr → Bool → Option (Option (List ℕ))
schedule_region region atom = do
  let n = length region
  (successors, indegree) ← link 0 region (replicate n 0)
  critical ← critical_from region successors atom n (replicate n 0)
  order ←
      schedule_from region successors critical n indegree (ready_from 0 indegree) (replicate 7 0)
  let original = range_from 0 n
  if length order == n
      then (do
        peak ← peak_register_pressure region order
        original_peak ← peak_register_pressure region original
        some (if leb peak (original_peak + 1) then some order else none))
      else some none
