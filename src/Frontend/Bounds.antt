-- ===== src/Frontend/Bounds.antt =====
-- src/frontend/optimizer.rs: the analysis of bounds over a program, and the checks it removes.
use aziky.Prelude.{
  ℕ, zero, suc, ◌+◌, Bool, true, false, Option, none, some, List, [], ◌∷◌, ◌++◌, ltb, ◌==◌,
  if◌then◌else◌, get_elem?, set, length, replicate, ◌>>=◌,
}
use aziky.Ir.{
  RuntimeOperand, slot, imm, RuntimeInstr, jump, jump_if_zero, jump_if_cmp_false, call, load_index,
  load_index_unchecked, store_index, store_index_unchecked, return, exit,
}
use aziky.Frontend.SlotCount.{runtime_program_slot_count}
use aziky.Frontend.SlotFacts.{SlotFacts, unknown_facts, facts_at, merge_fact_vectors}
use aziky.Frontend.Transfer.{runtime_transfer_slot_facts}

-- `(*target < instrs.len()).then_some(*target)`
abbrev pub in_program : ℕ → ℕ → List ℕ
in_program n target = if ltb target n then target ∷ [] else []

-- The successors, those that are absent left out.
abbrev pub successors : RuntimeInstr → ℕ → ℕ → List ℕ
successors (jump target) idx n = in_program n target
successors (jump_if_zero _ target) idx n = in_program n target ++ in_program n (idx + 1)
successors (jump_if_cmp_false _ _ _ target) idx n = in_program n target ++ in_program n (idx + 1)
successors (call target) idx n = in_program n target ++ in_program n (idx + 1)
successors return idx n = []
successors (exit _) idx n = []
successors _ idx n = in_program n (idx + 1)

unfoldable pub runtime_succ_targets : List RuntimeInstr → ℕ → Option (List ℕ)
runtime_succ_targets instrs idx = do
  instr ← get_elem? instrs idx
  some (successors instr idx (length instrs))

abbrev pub Facts : Type 0
Facts = List SlotFacts

-- What is known at an instruction, where the analysis has come to it.
abbrev pub InStates : Type 0
InStates = List (Option Facts)

abbrev pub join : Option Facts → Facts → Facts × Bool
join none out_facts = (out_facts, true)
join (some existing) out_facts = merge_fact_vectors existing out_facts

-- The facts sent to each successor, which is queued where its facts change.
unfoldable pub propagate : Facts → List ℕ → InStates → List ℕ → Option (InStates × List ℕ)
propagate out_facts [] in_states queue = some (in_states, queue)
propagate out_facts (succ ∷ rest) in_states queue = do
  existing ← get_elem? in_states succ
  let (joined, changed) = join existing out_facts
  propagate out_facts rest (set in_states succ (some joined))
      (if changed then queue ++ succ ∷ [] else queue)

abbrev pub visit_state :
    List RuntimeInstr → ℕ → ℕ → InStates → List ℕ → Option Facts → Option (InStates × List ℕ)
visit_state instrs slot_count idx in_states queue none = some (in_states, queue)
visit_state instrs slot_count idx in_states queue (some in_facts) = do
  instr ← get_elem? instrs idx
  out_facts ← runtime_transfer_slot_facts instr in_facts slot_count
  succs ← runtime_succ_targets instrs idx
  propagate out_facts succs in_states queue

unfoldable pub visit : List RuntimeInstr → ℕ → ℕ → InStates → List ℕ → Option (InStates × List ℕ)
visit instrs slot_count idx in_states queue = do
  state ← get_elem? in_states idx
  visit_state instrs slot_count idx in_states queue state

-- `none` is a panic, or a queue that is not empty when the fuel is out.
unfoldable pub analyze : ℕ → List RuntimeInstr → ℕ → InStates → List ℕ → Option InStates
analyze fuel instrs slot_count in_states [] = some in_states
analyze zero instrs slot_count in_states (idx ∷ queue) = none
analyze (suc fuel) instrs slot_count in_states (idx ∷ queue) = do
  (in_states', queue') ← visit instrs slot_count idx in_states queue
  analyze fuel instrs slot_count in_states' queue'

unfoldable pub compute_runtime_slot_facts_at_instr : ℕ → List RuntimeInstr → Option InStates
compute_runtime_slot_facts_at_instr fuel [] = some []
compute_runtime_slot_facts_at_instr fuel (first ∷ rest) =
    let instrs = first ∷ rest in
    let slot_count = runtime_program_slot_count instrs in
    analyze fuel instrs slot_count
      (some (replicate slot_count unknown_facts) ∷ replicate (length rest) none) (0 ∷ [])

abbrev pub below : Option ℕ → ℕ → Bool
below none base_len = false
below (some upper) base_len = ltb upper base_len

unfoldable pub runtime_index_operand_proven_in_bounds_from_facts : Facts → RuntimeOperand → ℕ → Bool
runtime_index_operand_proven_in_bounds_from_facts facts (imm value) base_len =
    if base_len == 0 then false else ltb value base_len
runtime_index_operand_proven_in_bounds_from_facts facts (slot s) base_len =
    if base_len == 0 then false else below (facts_at facts s).upper base_len

unfoldable pub unchecked : Facts → RuntimeInstr → RuntimeInstr
unchecked facts (load_index dst base_slots index) =
    if runtime_index_operand_proven_in_bounds_from_facts facts index (length base_slots)
    then load_index_unchecked dst base_slots index
    else load_index dst base_slots index
unchecked facts (store_index base_slots index src) =
    if runtime_index_operand_proven_in_bounds_from_facts facts index (length base_slots)
    then store_index_unchecked base_slots index src
    else store_index base_slots index src
unchecked facts instr = instr

abbrev pub unchecked_at : Option Facts → RuntimeInstr → RuntimeInstr
unchecked_at none instr = instr
unchecked_at (some facts) instr = unchecked facts instr

-- A state for each instruction, in their order.
unfoldable pub unchecked_all : InStates → List RuntimeInstr → List RuntimeInstr
unchecked_all [] instrs = instrs
unchecked_all (state ∷ states) [] = []
unchecked_all (state ∷ states) (instr ∷ rest) = unchecked_at state instr ∷ unchecked_all states rest

unfoldable pub eliminate_expr_bounded_index_checks_global :
    ℕ → List RuntimeInstr → Option (List RuntimeInstr)
eliminate_expr_bounded_index_checks_global fuel instrs = do
  facts_at_instr ← compute_runtime_slot_facts_at_instr fuel instrs
  some (unchecked_all facts_at_instr instrs)
