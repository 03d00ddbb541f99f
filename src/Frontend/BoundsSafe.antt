-- ===== src/Frontend/BoundsSafe.antt =====
-- src/frontend/optimizer.rs: a bounds check is removed only where the index is in range.
use aziky.Prelude.{
  some_is, ℕ, zero, suc, ◌<◌, ◌≡◌, ◌≢◌, refl, sym, ap, ◌∙◌, arith, true, Option, none, some, List,
  [], ◌∷◌, length, get_elem?, ◌==◌, inl, inr, ◌⊎◌, Bool-cases, replicate, All, ltb→lt,
}
use aziky.Ir.{
  RuntimeOperand, slot, imm, RuntimeInstr, load_index, load_index_unchecked, store_index,
  store_index_unchecked,
}
use aziky.Superopt.Evaluate.{Environment, operand_value}
use aziky.Superopt.Soundness.{InstrFits}
use aziky.Frontend.SlotFacts.{unknown_facts}
use aziky.Frontend.Masks.{Bounded}
use aziky.Frontend.Effects.{contains, DescribesFrame, replicate-Describes}
use aziky.Frontend.SlotCount.{runtime_program_slot_count}
use aziky.Frontend.Bounds.{
  Facts, InStates, compute_runtime_slot_facts_at_instr, below,
  runtime_index_operand_proven_in_bounds_from_facts, unchecked, unchecked_all,
  eliminate_expr_bounded_index_checks_global,
}
use aziky.Frontend.Settled.{At, Sized}
use aziky.Frontend.Fixpoint.{Pending, analyze-Settled, AllShiftsFit, Reach, Reach-described}
use aziky.Frontend.Lengths.{length-replicate}

below→lt :
    (upper : Option ℕ) (base_len v : ℕ)
    → below upper base_len ≡ true
    → Bounded upper v
    → v < base_len
below→lt none base_len v h k = absurd (cc)
below→lt (some u) base_len v h k = omega (arith, k u refl, ltb→lt u base_len h)

proven-lt :
    (facts : Facts) (index : RuntimeOperand) (base_len v : ℕ) (environment : Environment)
    → DescribesFrame facts environment
    → runtime_index_operand_proven_in_bounds_from_facts facts index base_len ≡ true
    → operand_value environment index ≡ some v
    → v < base_len
unfolding runtime_index_operand_proven_in_bounds_from_facts
proven-lt facts (imm value) base_len v environment d h e = ground arith
proven-lt facts (slot s) base_len v environment d h e = elim (Bool-cases (base_len == 0)) [
  | inl empty ↦ absurd (cc (rw empty at h))
  | inr some_slots ↦ below→lt _ base_len v (rw some_slots at h) (d s v e).0
]

-- The instruction without its check.
abbrev pub without_check : RuntimeInstr → RuntimeInstr
without_check (load_index dst base_slots index) = load_index_unchecked dst base_slots index
without_check (store_index base_slots index src) = store_index_unchecked base_slots index src
without_check instr = instr

-- The index of a checked access is in range.
abbrev pub InRange : Environment → RuntimeInstr → Type 0
InRange environment (load_index dst base_slots index) =
    (v : ℕ) → operand_value environment index ≡ some v → v < length base_slots
InRange environment (store_index base_slots index src) =
    (v : ℕ) → operand_value environment index ≡ some v → v < length base_slots
InRange environment _ = Unit

unchecked-InRange :
    (facts : Facts) (instr : RuntimeInstr) (environment : Environment)
    → DescribesFrame facts environment
    → (unchecked facts instr ≡ instr)
      ⊎ ((unchecked facts instr ≡ without_check instr) × InRange environment instr)
unfolding unchecked
unchecked-InRange facts (load_index dst base_slots index) environment d =
    elim (Bool-cases
      (runtime_index_operand_proven_in_bounds_from_facts facts index (length base_slots))) [
        | inl proven ↦
            rw proven (inr (refl, λ v e. proven-lt facts index _ v environment d proven e))
        | inr kept ↦ rw kept (inl refl)
      ]
unchecked-InRange facts (store_index base_slots index src) environment d =
    elim (Bool-cases
      (runtime_index_operand_proven_in_bounds_from_facts facts index (length base_slots))) [
        | inl proven ↦
            rw proven (inr (refl, λ v e. proven-lt facts index _ v environment d proven e))
        | inr kept ↦ rw kept (inl refl)
      ]
unchecked-InRange facts _ environment d = inl refl

get_elem?-unchecked_all :
    (states : InStates) (instrs : List RuntimeInstr) (i : ℕ) (facts : Facts) (instr : RuntimeInstr)
    → At states i facts
    → get_elem? instrs i ≡ some instr
    → get_elem? (unchecked_all states instrs) i ≡ some (unchecked facts instr)
unfolding unchecked_all
get_elem?-unchecked_all [] instrs i facts instr h e = absurd (cc)
get_elem?-unchecked_all (s ∷ states) [] i facts instr h e = absurd (cc)
get_elem?-unchecked_all (s ∷ states) (x ∷ xs) zero facts instr h e =
    let state_same : s ≡ some facts = some_is h in
    let instr_same : x ≡ instr = some_is e in rw (state_same, instr_same) refl
get_elem?-unchecked_all (s ∷ states) (x ∷ xs) (suc i) facts instr h e =
    get_elem?-unchecked_all states xs i facts instr h e

initial-Sized : (n k : ℕ) → Sized n (some (replicate n unknown_facts) ∷ replicate k none)
initial-Sized n k zero facts h =
    ap length (sym (some_is (some_is h))) ∙ length-replicate n unknown_facts
initial-Sized n k (suc i) facts h = absurd (nowhere k i h)
  where
    nowhere : (k i : ℕ) → get_elem? (replicate k none) i ≢ some (some facts)
    nowhere zero i h = cc
    nowhere (suc k) zero h = cc
    nowhere (suc k) (suc i) h = nowhere k i h

initial-Pending :
    (instrs : List RuntimeInstr) (n k : ℕ)
    → Pending instrs n (some (replicate n unknown_facts) ∷ replicate k none) (0 ∷ [])
unfolding contains
initial-Pending instrs n k zero facts h = inl refl
initial-Pending instrs n k (suc i) facts h = absurd (nowhere k i h)
  where
    nowhere : (k i : ℕ) → get_elem? (replicate k none) i ≢ some (some facts)
    nowhere zero i h = cc
    nowhere (suc k) zero h = cc
    nowhere (suc k) (suc i) h = nowhere k i h

-- For a program of words, where the analysis has returned states at which every shift fits: at each
-- instruction that the starting thread comes to, the analysis has facts that are right about the
-- frame. A thread that is spawned is not followed.
pub compute_runtime_slot_facts_at_instr-Describes :
    (fuel : ℕ) (instrs : List RuntimeInstr) (states : InStates) (pc : ℕ) (instr : RuntimeInstr)
    (environment : Environment)
    → All InstrFits instrs
    → compute_runtime_slot_facts_at_instr fuel instrs ≡ some states
    → AllShiftsFit instrs states
    → Reach instrs pc environment
    → get_elem? instrs pc ≡ some instr
    → (facts : Facts) × At states pc facts × DescribesFrame facts environment
unfolding compute_runtime_slot_facts_at_instr
compute_runtime_slot_facts_at_instr-Describes fuel [] states pc instr environment fits h shifts
      reach here =
    absurd (cc)
compute_runtime_slot_facts_at_instr-Describes fuel (first ∷ rest) states pc instr environment fits h
      shifts reach here =
    let n = runtime_program_slot_count (first ∷ rest) in
    let (grows, settled, same) =
      analyze-Settled (first ∷ rest) n fuel _ _ states (initial-Sized n (length rest))
        (initial-Pending (first ∷ rest) n (length rest)) h in
    (Reach-described (first ∷ rest) fits n states (replicate n unknown_facts) pc environment
      (replicate-Describes n) (grows 0 (replicate n unknown_facts) refl) settled shifts reach).1

-- For a program of words, where the analysis has returned states at which every shift fits: the pass
-- leaves an instruction that the starting thread comes to as it is, or takes away its check where the
-- index is in range. A thread that is spawned is not followed.
pub eliminate_expr_bounded_index_checks_global_lem :
    (fuel : ℕ) (instrs out : List RuntimeInstr) (states : InStates) (pc : ℕ) (instr : RuntimeInstr)
    (environment : Environment)
    → All InstrFits instrs
    → compute_runtime_slot_facts_at_instr fuel instrs ≡ some states
    → AllShiftsFit instrs states
    → eliminate_expr_bounded_index_checks_global fuel instrs ≡ some out
    → Reach instrs pc environment
    → get_elem? instrs pc ≡ some instr
    → (get_elem? out pc ≡ some instr)
      ⊎ ((get_elem? out pc ≡ some (without_check instr)) × InRange environment instr)
unfolding eliminate_expr_bounded_index_checks_global
eliminate_expr_bounded_index_checks_global_lem fuel instrs out states pc instr environment fits h
      shifts made reach here =
    let (facts, at, describes) =
      compute_runtime_slot_facts_at_instr-Describes fuel instrs states pc instr environment fits h
        shifts reach here in
    let passed = some_is (rw h at made) in
    let new =
      ap (λ t. get_elem? t pc) (sym passed)
      ∙ get_elem?-unchecked_all states instrs pc facts instr at here in
    elim (unchecked-InRange facts instr environment describes) [
      | inl same ↦ inl (new ∙ ap some same)
      | inr (taken, range) ↦ inr (new ∙ ap some taken, range)
    ]
