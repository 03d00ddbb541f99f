-- ===== src/Schedule/Total.antt =====
-- src/backend/optimizer.rs: schedule_region returns, with an order of the region's instructions.
use mathlib.Core.List.{Perm}
use mathlib.Core.Path.{subst}
use aziky.Prelude.{
  some_is, ℕ, length-append, suc, zero, ◌+◌, ◌%◌, ◌^◌, ◌<◌, ◌≤◌, ◌≡◌, refl, sym, ap, ◌∙◌, arith,
  Bool, true, Option, none, some, List, [], ◌∷◌, All, All-map, get_elem?-lt, length, length-set,
  set, inl, inr, Bool-cases, Returns, Returns-bind, Returns-result, ◌==◌, if◌then◌else◌, leb,
  leb→le, replicate, ==_refl, ◌>>=◌,
}
use aziky.Ir.{RuntimeInstr}
use aziky.Superopt.Cost.{instruction_latency}
use aziky.Schedule.Ports.{maximum}
use aziky.Superopt.Evaluate.{Environment}
use aziky.Schedule.Pressure.{LastUse, last_uses, peak_from, peak_register_pressure, nothing_used}
use aziky.Schedule.Region.{
  link, critical_from, read_all, schedule_from, schedule_region, range_from, ready_from,
}
use aziky.Schedule.Outcome.{run}
use aziky.Schedule.Orders.Schedules.{done, pick}
use aziky.Schedule.Orders.{
  Schedules, Schedules-All, Schedules-Perm, range_from-range, reordered, reordered_lem,
}
use aziky.Schedule.Graph.{link-Graph}
use aziky.Schedule.Ends.{Dependences, schedule_from-Schedules}
use aziky.Schedule.Start.{IsPure, length-replicate, Graph-Dependences, Graph-Waiting}

last_uses-returns :
    (region : List RuntimeInstr) (order : List ℕ) (position : ℕ) (last_use : LastUse)
    → All (λ node. node < length region) order
    → Returns (last_uses region order position last_use) (λ _. Unit)
unfolding last_uses
last_uses-returns region [] position last_use h = tt
last_uses-returns region (node ∷ order) position last_use (small, h) =
    let (instr, p) = get_elem?-lt region node small in
    rw p (last_uses-returns region order (suc position) _ h)

peak_from-returns :
    (region : List RuntimeInstr) (last_use : LastUse) (order : List ℕ) (position : ℕ)
    (live : List ℕ) (peak : ℕ)
    → All (λ node. node < length region) order
    → Returns (peak_from region last_use order position live peak) (λ _. Unit)
unfolding peak_from
peak_from-returns region last_use [] position live peak h = tt
peak_from-returns region last_use (node ∷ order) position live peak (small, h) =
    let (instr, p) = get_elem?-lt region node small in
    rw p (peak_from-returns region last_use order (suc position) _ _ h)

-- The pressure of an order of nodes of the region is computed.
pressure-returns :
    (region : List RuntimeInstr) (order : List ℕ)
    → All (λ node. node < length region) order
    → (peak : ℕ) × (peak_register_pressure region order ≡ some peak)
unfolding peak_register_pressure
pressure-returns region order h =
    let (last_use, p, _) =
      Returns-result (last_uses region order 0 nothing_used) _
        (last_uses-returns region order 0 nothing_used h) in
    let (peak, q, _) =
      Returns-result (peak_from region last_use order 0 [] 0) _
        (peak_from-returns region last_use order 0 [] 0 h) in
    (peak, rw (p, q) refl)

read_all-returns :
    (critical row : List ℕ)
    → All (λ s. s < length critical) row
    → Returns (read_all critical row) (λ _. Unit)
unfolding read_all
read_all-returns critical [] h = tt
read_all-returns critical (s ∷ row) (small, h) =
    let (path, p) = get_elem?-lt critical s small in
    let (paths, q, _) =
      Returns-result (read_all critical row) _ (read_all-returns critical row h) in
    rw (p, q) tt

critical_from-returns :
    (region : List RuntimeInstr) (successors : List (List ℕ)) (atom : Bool) (node : ℕ)
    (critical : List ℕ)
    → Dependences region successors
    → node ≤ length region
    → length critical ≡ length region
    → Returns
        (critical_from region successors atom node critical)
        (λ paths. length paths ≡ length region)
unfolding critical_from
critical_from-returns region successors atom zero critical d le size = size
critical_from-returns region successors atom (suc node) critical d le size =
    let (instr, p) = get_elem?-lt region node (omega arith) in
    let (row, q) = get_elem?-lt successors node (omega (arith, d.rows)) in
    let in_row = All-map (λ s (l, u). omega (arith, size)) row (d.later node row q) in
    let (paths, r, _) =
      Returns-result (read_all critical row) _ (read_all-returns critical row in_row) in
    let measured = (instruction_latency instr atom + maximum paths) % 2 ^ 32 in
    let le' : node ≤ length region = omega arith in
    rw (p, q, r)
      (critical_from-returns region successors atom node (set critical node measured) d le'
        (length-set critical node measured ∙ size))

length-Schedules :
    (region : List RuntimeInstr) {nodes order : List ℕ}
    → Schedules region nodes order
    → length order ≡ length nodes
length-Schedules region done = refl
length-Schedules region (pick front rest node free later) = omega (
  arith,
  length-Schedules region later,
  length-append front rest,
  length-append front (node ∷ rest),
)

length-range_from : (start n : ℕ) → length (range_from start n) ≡ n
unfolding range_from
length-range_from start zero = refl
length-range_from start (suc n) = ap suc (length-range_from (suc start) n)

-- What schedule_region decides on: an order that the dependences allow, and the two pressures.
pub record Decision (region : List RuntimeInstr) (result : Option (List ℕ)) : Type 0 where
  pub order : List ℕ
  pub allowed : Schedules region (range_from 0 (length region)) order
  pub peak : ℕ
  pub original : ℕ
  pub order_peak : peak_register_pressure region order ≡ some peak
  pub original_peak : peak_register_pressure region (range_from 0 (length region)) ≡ some original
  pub decided : result ≡ (if leb peak (original + 1) then some order else none)

decision :
    (region : List RuntimeInstr) (order : List ℕ)
    → Schedules region (range_from 0 (length region)) order
    → Returns
        (if length order == length region
          then (do
            peak ← peak_register_pressure region order
            original_peak ← peak_register_pressure region (range_from 0 (length region))
            some (if leb peak (original_peak + 1) then some order else none))
          else some none)
        (Decision region)
decision region order allowed =
    let n = length region in
    let small : All (λ node. node < n) (range_from 0 n) =
      All-map (λ node (l, u). omega arith) _ (range_from-range 0 n) in
    let (peak, p) = pressure-returns region order (Schedules-All region _ allowed small) in
    let (original, q) = pressure-returns region (range_from 0 n) small in
    let complete : (length order == n) ≡ true =
      ap (λ k. k == n) (length-Schedules region allowed ∙ length-range_from 0 n) ∙ ==_refl n in
    rw (complete, p, q)
      (record {
        order = order;
        allowed = allowed;
        peak = peak;
        original = original;
        order_peak = p;
        original_peak = q;
        decided = refl;
      })

schedule_region-Decision :
    (region : List RuntimeInstr) (atom : Bool)
    → All IsPure region
    → Returns (schedule_region region atom) (Decision region)
unfolding schedule_region
schedule_region-Decision region atom pure =
    let n = length region in
    let zeros = replicate n 0 in
    Returns-bind (link 0 region zeros) _ _ _
      (link-Graph 0 region zeros (omega (arith, length-replicate n)))
      (λ (successors, indegree) g.
        let d = Graph-Dependences region pure successors indegree g in
        Returns-bind (critical_from region successors atom n zeros) _ _ _
          (critical_from-returns region successors atom n zeros d (omega arith)
            (length-replicate n))
          (λ critical sized.
            Returns-bind
              (schedule_from region successors critical n indegree (ready_from 0 indegree)
                (replicate 7 0))
              _ _ _
              (schedule_from-Schedules region successors critical d sized n (replicate 7 0)
                (range_from 0 n) indegree (ready_from 0 indegree)
                (Graph-Waiting region pure successors indegree g)
                (omega (arith, length-range_from 0 n)))
              (λ order allowed. decision region order allowed)))

-- On pure instructions schedule_region neither panics nor runs out of fuel: it finds an order of
-- all the instructions in which each comes after those that it depends on, and gives it unless more
-- values are alive at once in it than one more than in the order of the code.
pub schedule_region-returns :
    (region : List RuntimeInstr) (atom : Bool)
    → All IsPure region
    → (result : Option (List ℕ)) × (schedule_region region atom ≡ some result)
      × Decision region result
schedule_region-returns region atom pure =
    Returns-result (schedule_region region atom) (Decision region)
      (schedule_region-Decision region atom pure)

-- An order that schedule_region gives is the decision's, within its bound.
given :
    (region : List RuntimeInstr) (atom : Bool) (order : List ℕ)
    → All IsPure region
    → schedule_region region atom ≡ some (some order)
    → (result : Option (List ℕ)) × (d : Decision region result) × (d.order ≡ order)
      × (d.peak ≤ d.original + 1)
given region atom order pure h =
    let (result, e, d) = schedule_region-returns region atom pure in
    let chosen = sym d.decided ∙ some_is (sym e ∙ h) in
    elim (Bool-cases (leb d.peak (d.original + 1))) [
      | inl low ↦ (result, d, some_is (rw low at chosen), leb→le d.peak (d.original + 1) low)
      | inr high ↦ absurd (cc (rw high at chosen))
    ]

-- An order that schedule_region gives for pure instructions lists each of them once, and the code
-- in that order does what the region does: from every frame it comes to the same final frame, or
-- fails where the region fails.
pub schedule_region_lem :
    (region : List RuntimeInstr) (atom : Bool) (order : List ℕ)
    → All IsPure region
    → schedule_region region atom ≡ some (some order)
    → Perm order (range_from 0 (length region))
      × ((code : List RuntimeInstr) × (reordered region order ≡ some code)
          × ((environment : Environment) → run code environment ≡ run region environment))
schedule_region_lem region atom order pure h =
    let (_, d, same, _) = given region atom order pure h in
    let allowed = subst (Schedules region (range_from 0 (length region))) same d.allowed in
    (Schedules-Perm region allowed, reordered_lem region order allowed)

pub length-schedule_region :
    (region : List RuntimeInstr) (atom : Bool) (order : List ℕ)
    → All IsPure region
    → schedule_region region atom ≡ some (some order)
    → length order ≡ length region
length-schedule_region region atom order pure h =
    let (_, d, same, _) = given region atom order pure h in
    ap length (sym same) ∙ length-Schedules region d.allowed ∙ length-range_from 0 (length region)
