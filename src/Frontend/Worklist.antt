-- ===== src/Frontend/Worklist.antt =====
-- src/frontend/optimizer.rs: the worklist of the analysis of bounds ends.
use mathlib.Core.Path.{subst}
use aziky.Prelude.{
  some_is, ℕ, zero, suc, ◌+◌, ◌*◌, ◌^◌, ◌≤◌, ◌<◌, ◌≡◌, refl, ap, ◌∙◌, arith, Bool, true, false,
  Option, none, some, List, [], ◌∷◌, ◌++◌, length, length-append, length-set, get_elem?,
  get_elem?-lt, set, sum_of, sum_of-set, All, All-append, Returns, Returns-bind, if◌then◌else◌,
  replicate, inl, inr, Bool-cases, ltb, ltb→lt, Returns-result,
}
use aziky.Ir.{RuntimeInstr, jump, jump_if_zero, jump_if_cmp_false, call, return, exit}
use aziky.Superopt.Soundness.{InstrFits}
use aziky.Frontend.SlotFacts.{unknown_facts}
use aziky.Frontend.Merge.{length-merge_fact_vectors}
use aziky.Frontend.Lengths.{length-transfer, length-replicate}
use aziky.Frontend.FactsFit.{NoSignedRemainder, transfer_fits, replicate_fits}
use aziky.Frontend.FactWords.{FactsFit}
use aziky.Frontend.Transfer.{runtime_transfer_slot_facts}
use aziky.Frontend.BoundsEnds.{facts_height, Lower, merge_fact_vectors_descend}
use aziky.Frontend.SlotCount.{runtime_program_slot_count}
use aziky.Frontend.Bounds.{
  Facts, InStates, in_program, successors, runtime_succ_targets, join, propagate, visit,
  visit_state, analyze, compute_runtime_slot_facts_at_instr,
}
use aziky.Frontend.MergeFits.{merge_fact_vectors-fits, sum_height-le}

module _ (instrs : List RuntimeInstr) (n : ℕ) where
  -- How often the facts at an instruction can still change.
  abbrev pub state_height : Option Facts → ℕ
  state_height none = suc (n * (2 ^ 64 + 2))
  state_height (some facts) = sum_of facts_height facts

  abbrev GoodState : Option Facts → Type 0
  GoodState none = Unit
  GoodState (some facts) = All FactsFit facts × (length facts ≡ n)

  -- The visits that can still come: those queued, and two for each change.
  abbrev pub visits_left : InStates → List ℕ → ℕ
  visits_left states queue = 2 * sum_of state_height states + length queue

  join_good :
      (existing : Option Facts) (out : Facts)
      → GoodState existing
      → All FactsFit out
      → length out ≡ n
      → GoodState (some (join existing out).0)
        × Lower
            (state_height (some (join existing out).0))
            (state_height existing)
            (join existing out).1
  join_good none out good fit size =
      ((fit, size), (omega (arith, ap (λ k. k * (2 ^ 64 + 2)) size, sum_height-le out)))
  join_good (some facts) out (fits, size') fit size = (
    (merge_fact_vectors-fits facts out fits fit, length-merge_fact_vectors facts out ∙ size'),
    merge_fact_vectors_descend facts out fit,
  )

  record Worklist (states : InStates) (queue : List ℕ) : Type 0 where
    pub good : All GoodState states
    pub same_length : length states ≡ length instrs
    pub in_range : All (λ i. i < length instrs) queue

  All-at :
      (P : Option Facts → Type 0) (xs : InStates) (i : ℕ) (x : Option Facts)
      → All P xs
      → get_elem? xs i ≡ some x
      → P x
  All-at P [] i x h e = absurd (cc)
  All-at P (y ∷ ys) zero x (h, hs) e = subst P (some_is e) h
  All-at P (y ∷ ys) (suc i) x (h, hs) e = All-at P ys i x hs e

  All-set :
      (P : Option Facts → Type 0) (xs : InStates) (i : ℕ) (x : Option Facts)
      → All P xs
      → P x
      → All P (set xs i x)
  All-set P [] i x h k = tt
  All-set P (y ∷ ys) zero x (h, hs) k = (k, hs)
  All-set P (y ∷ ys) (suc i) x (h, hs) k = (h, All-set P ys i x hs k)

  -- The worklist after a step, which can take no more visits than before.
  abbrev After : ℕ → InStates × List ℕ → Type 0
  After left (states, queue) = Worklist states queue × (visits_left states queue ≤ left)

  queue_sent :
      (changed : Bool) (states : InStates) (queue : List ℕ) (s : ℕ) (before after : ℕ)
      → All (λ i. i < length instrs) queue
      → s < length instrs
      → Lower after before changed
      → (states' : InStates)
      → sum_of state_height states' + before ≡ sum_of state_height states + after
      → All (λ i. i < length instrs) (if changed then queue ++ s ∷ [] else queue)
        × (visits_left states' (if changed then queue ++ s ∷ [] else queue)
            ≤ visits_left states queue)
  queue_sent true states queue s before after range small lower states' sums =
      (All-append _ queue (s ∷ []) range (small, tt), omega (arith, length-append queue (s ∷ [])))
  queue_sent false states queue s before after range small lower states' sums = (range, omega arith)

  propagate_ends :
      (out : Facts) (succs : List ℕ) (states : InStates) (queue : List ℕ) (left : ℕ)
      → All FactsFit out
      → length out ≡ n
      → All (λ i. i < length instrs) succs
      → Worklist states queue
      → visits_left states queue ≤ left
      → Returns (propagate out succs states queue) (After left)
  unfolding propagate
  propagate_ends out [] states queue left fit size range w le = (w, le)
  propagate_ends out (s ∷ succs) states queue left fit size (small, range) w le =
      let (existing, found) = get_elem?-lt states s (omega (arith, w.same_length)) in
      let (good, lower) =
        join_good existing out (All-at GoodState states s existing w.good found) fit size in
      let sums = sum_of-set state_height states s (some (join existing out).0) found in
      let (queued, fewer) =
        queue_sent (join existing out).1 states queue s _ _ w.in_range small lower _ sums in
      rw found (
        propagate_ends out succs _ _ left fit size range
          (record {
            good = All-set GoodState states s _ w.good good;
            same_length = length-set states s _ ∙ w.same_length;
            in_range = queued;
          })
          (omega arith))

in_program-range : (n target : ℕ) → All (λ s. s < n) (in_program n target)
in_program-range n target = elim (Bool-cases (ltb target n)) [
  | inl small ↦ rw small (ltb→lt target n small, tt)
  | inr large ↦ rw large tt
]

successors-range : (instr : RuntimeInstr) (idx n : ℕ) → All (λ s. s < n) (successors instr idx n)
successors-range (jump target) idx n = in_program-range n target
successors-range (jump_if_zero _ target) idx n =
    All-append _ _ _ (in_program-range n target) (in_program-range n (idx + 1))
successors-range (jump_if_cmp_false _ _ _ target) idx n =
    All-append _ _ _ (in_program-range n target) (in_program-range n (idx + 1))
successors-range (call target) idx n =
    All-append _ _ _ (in_program-range n target) (in_program-range n (idx + 1))
successors-range return idx n = tt
successors-range (exit _) idx n = tt
successors-range _ idx n = in_program-range n (idx + 1)

All-instr :
    (P : RuntimeInstr → Type 0) (xs : List RuntimeInstr) (i : ℕ) (x : RuntimeInstr)
    → All P xs
    → get_elem? xs i ≡ some x
    → P x
All-instr P [] i x h e = absurd (cc)
All-instr P (y ∷ ys) zero x (h, hs) e = subst P (some_is e) h
All-instr P (y ∷ ys) (suc i) x (h, hs) e = All-instr P ys i x hs e

module _ (instrs : List RuntimeInstr) (n : ℕ) (fits : All InstrFits instrs)
    (safe : All NoSignedRemainder instrs) where
  visit_ends :
      (idx : ℕ) (states : InStates) (queue : List ℕ) (left : ℕ)
      → Worklist instrs n states queue
      → idx < length instrs
      → visits_left instrs n states queue ≤ left
      → Returns (visit instrs n idx states queue) (After instrs n left)
  unfolding visit runtime_succ_targets
  visit_ends idx states queue left w small le =
      let (state, found) = get_elem?-lt states idx (omega (arith, w.same_length)) in
      rw found (seen state (All-at instrs n (GoodState instrs n) states idx state w.good found))
    where
      seen :
          (state : Option Facts)
          → GoodState instrs n state
          → Returns (visit_state instrs n idx states queue state) (After instrs n left)
      seen none good = (w, le)
      seen (some facts) (fit, size) =
          let (instr, here) = get_elem?-lt instrs idx small in
          let moved =
            transfer_fits instr facts n (All-instr InstrFits instrs idx instr fits here)
              (All-instr NoSignedRemainder instrs idx instr safe here) fit in
          let (out, made, out_fit) =
            Returns-result (runtime_transfer_slot_facts instr facts n) _ moved in
          rw (here, made)
            (propagate_ends instrs n out (successors instr idx (length instrs)) states queue left
              out_fit (length-transfer instr facts out n size made)
              (successors-range instr idx (length instrs)) w le)

  analyze_ends :
      (fuel : ℕ) (states : InStates) (queue : List ℕ)
      → Worklist instrs n states queue
      → visits_left instrs n states queue ≤ fuel
      → Returns (analyze fuel instrs n states queue) (λ _. Unit)
  unfolding analyze
  analyze_ends fuel states [] w le = tt
  analyze_ends zero states (idx ∷ queue) w le = absurd (omega arith)
  analyze_ends (suc fuel) states (idx ∷ queue) w le =
      Returns-bind (visit instrs n idx states queue) _ _ _
        (visit_ends idx states queue fuel
          (record { good = w.good; same_length = w.same_length; in_range = w.in_range.1 })
          w.in_range.0 (omega arith))
        (λ (states', queue') (w', fewer). analyze_ends fuel states' queue' w' fewer)

-- Two for each change that the facts of an instruction allow, and one to begin.
abbrev pub analysis_fuel : List RuntimeInstr → ℕ
analysis_fuel instrs =
    2 * (length instrs * (runtime_program_slot_count instrs * (2 ^ 64 + 2) + 1)) + 1

nowhere_good : (instrs : List RuntimeInstr) (n k : ℕ) → All (GoodState instrs n) (replicate k none)
nowhere_good instrs n zero = tt
nowhere_good instrs n (suc k) = (tt, nowhere_good instrs n k)

nowhere_height :
    (instrs : List RuntimeInstr) (n k : ℕ)
    → sum_of (state_height instrs n) (replicate k none) ≡ k * (n * (2 ^ 64 + 2) + 1)
nowhere_height instrs n zero = omega arith
nowhere_height instrs n (suc k) = grind (arith, nowhere_height instrs n k)

length-nowhere : (k : ℕ) → length (replicate {A = Option Facts} k none) ≡ k
length-nowhere zero = refl
length-nowhere (suc k) = ap suc (length-nowhere k)

fuel_enough :
    (s h r k fuel : ℕ)
    → s ≤ k
    → h ≡ r * (k + 1)
    → 2 * (suc r * (k + 1)) + 1 ≤ fuel
    → 2 * (s + h) + 1 ≤ fuel
fuel_enough s h r k fuel small sum enough = grind arith

-- On a program of words without signed remainders, the analysis neither panics nor runs out of
-- the fuel of analysis_fuel, or of any more than that.
pub compute_runtime_slot_facts_at_instr-returns :
    (fuel : ℕ) (instrs : List RuntimeInstr)
    → All InstrFits instrs
    → All NoSignedRemainder instrs
    → analysis_fuel instrs ≤ fuel
    → (states : InStates) × (compute_runtime_slot_facts_at_instr fuel instrs ≡ some states)
unfolding compute_runtime_slot_facts_at_instr
compute_runtime_slot_facts_at_instr-returns fuel [] fits safe enough = ([], refl)
compute_runtime_slot_facts_at_instr-returns fuel (first ∷ rest) fits safe enough =
    let n = runtime_program_slot_count (first ∷ rest) in
    let instrs = first ∷ rest in
    let unknowns = replicate n unknown_facts in
    let first_le = sum_height-le unknowns in
    let size = length-replicate n unknown_facts in
    let begin : sum_of facts_height unknowns ≤ n * (2 ^ 64 + 2) =
      omega (arith, first_le, ap (λ k. k * (2 ^ 64 + 2)) size) in
    let ended =
      analyze_ends instrs n fits safe fuel (some unknowns ∷ replicate (length rest) none) (0 ∷ [])
        (record {
          good = ((replicate_fits n, size), nowhere_good instrs n (length rest));
          same_length = ap suc (length-nowhere (length rest));
          in_range = (omega arith, tt);
        })
        (fuel_enough _ _ (length rest) (n * (2 ^ 64 + 2)) fuel begin
          (nowhere_height instrs n (length rest)) enough) in
    let (states, done, _) = Returns-result _ _ ended in (states, done)
