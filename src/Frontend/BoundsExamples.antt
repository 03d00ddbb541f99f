-- ===== src/Frontend/BoundsExamples.antt =====
-- The analysis of bounds on concrete programs.
use aziky.Prelude.{some_is, zero, suc, ◌≡◌, refl, arith, none, some, List, [], ◌∷◌, ◌⊎◌}
use aziky.Ir.{
  RuntimeInstr, bin_op, load_index, load_index_unchecked, slot, imm, op_and, shr_unsigned, exit,
}
use aziky.Superopt.Evaluate.{Environment, evaluate_binop, evaluate_pure_instruction}
use aziky.Superopt.Verify.{insert}
use aziky.Superopt.Execute.{Frame, insert-Frame}
use aziky.Word.{shift_right}
use mathlib.Core.Path.{subst}
use aziky.Frontend.Eval.{eval_runtime_binop}
use aziky.Frontend.SlotFacts.{
  SlotFacts, unknown_facts, facts_of, facts_for_operand, upper_bound_for_binop_facts, binop_facts,
  merge_fact_vectors, merge_slot_facts,
}
use aziky.Frontend.Masks.{Bounded}
use aziky.Frontend.FactsSound.{upper_bound_for_binop_facts_lem}
use aziky.Frontend.ShiftBounds.{upper_bound_for_binop_facts-shr}
use aziky.Frontend.Transfer.{runtime_transfer_slot_facts}
use aziky.Frontend.Effects.{DescribesFrame, contains, InstrShiftsFit, replicate-Describes}
use aziky.Frontend.TransferSound.{runtime_transfer_slot_facts_lem}
use aziky.Frontend.PassSound.{WritesBelow}
use aziky.Frontend.SlotBounds.{runtime_program_slot_count-WritesBelow}
use aziky.Frontend.SlotCount.{runtime_program_slot_count, bumped_slots}
use aziky.Frontend.Bounds.{
  Facts, InStates, runtime_succ_targets, propagate, visit, analyze,
  compute_runtime_slot_facts_at_instr, runtime_index_operand_proven_in_bounds_from_facts, unchecked,
  unchecked_all, eliminate_expr_bounded_index_checks_global,
}
use aziky.Frontend.Settled.{At}
use aziky.Frontend.Fixpoint.{AllShiftsFit, Reach, start, move}
use aziky.Frontend.BoundsSafe.{
  without_check, InRange, compute_runtime_slot_facts_at_instr-Describes,
  eliminate_expr_bounded_index_checks_global_lem,
}
use aziky.Frontend.Worklist.{analysis_fuel, compute_runtime_slot_facts_at_instr-returns}

-- r1 = r0 & 1; r2 = [r3, r4][r1]; exit
abbrev program : List RuntimeInstr
program = bin_op 1 op_and (slot 0) (imm 1) ∷ load_index 2 (3 ∷ 4 ∷ []) (slot 1) ∷ exit (imm 0) ∷ []

abbrev sevens : Environment
sevens s = some 7

abbrev nothing_known : Facts
nothing_known = unknown_facts ∷ unknown_facts ∷ unknown_facts ∷ unknown_facts ∷ unknown_facts ∷ []

abbrev at_most_one : SlotFacts
at_most_one = record { upper = some 1; exact = none }

abbrev index_known : Facts
index_known = unknown_facts ∷ at_most_one ∷ unknown_facts ∷ unknown_facts ∷ unknown_facts ∷ []

abbrev analyzed : InStates
analyzed = some nothing_known ∷ some index_known ∷ some index_known ∷ []

run_analysis : compute_runtime_slot_facts_at_instr 10 program ≡ some analyzed
unfolding compute_runtime_slot_facts_at_instr runtime_program_slot_count bumped_slots analyze visit
    runtime_transfer_slot_facts runtime_succ_targets propagate binop_facts facts_for_operand
    upper_bound_for_binop_facts eval_runtime_binop merge_fact_vectors merge_slot_facts
run_analysis = refl

run_elimination :
    eliminate_expr_bounded_index_checks_global 10 program
    ≡ some (
        bin_op 1 op_and (slot 0) (imm 1)
        ∷ load_index_unchecked 2 (3 ∷ 4 ∷ []) (slot 1)
        ∷ exit (imm 0)
        ∷ [])
unfolding eliminate_expr_bounded_index_checks_global unchecked_all unchecked
    runtime_index_operand_proven_in_bounds_from_facts
run_elimination = rw run_analysis refl

no_shifts : AllShiftsFit program analyzed
no_shifts zero instr facts h at = subst (λ j. InstrShiftsFit j facts) (some_is h) tt
no_shifts (suc zero) instr facts h at = subst (λ j. InstrShiftsFit j facts) (some_is h) tt
no_shifts (suc (suc zero)) instr facts h at = subst (λ j. InstrShiftsFit j facts) (some_is h) tt
no_shifts (suc (suc (suc i))) instr facts h at = absurd (cc)

sevens-Frame : Frame sevens
sevens-Frame s = (7, refl, omega arith)

comes_to_load : Reach program 1 (insert 1 1 sevens)
unfolding evaluate_pure_instruction evaluate_binop contains
comes_to_load =
    move 0 1 sevens (insert 1 1 sevens) (bin_op 1 op_and (slot 0) (imm 1))
      (start sevens sevens-Frame) refl ((1, 1), refl, refl)
      (insert-Frame sevens 1 1 (omega arith) sevens-Frame) refl (omega arith)

eliminate_expr_bounded_index_checks_global_lem_example :
    (some (load_index_unchecked 2 (3 ∷ 4 ∷ []) (slot 1))
      ≡ some (load_index 2 (3 ∷ 4 ∷ []) (slot 1)))
    ⊎ ((some (load_index_unchecked 2 (3 ∷ 4 ∷ []) (slot 1))
          ≡ some (without_check (load_index 2 (3 ∷ 4 ∷ []) (slot 1))))
        × InRange (insert 1 1 sevens) (load_index 2 (3 ∷ 4 ∷ []) (slot 1)))
eliminate_expr_bounded_index_checks_global_lem_example =
    eliminate_expr_bounded_index_checks_global_lem 10 program _ analyzed 1
      (load_index 2 (3 ∷ 4 ∷ []) (slot 1)) (insert 1 1 sevens) (omega arith) run_analysis no_shifts
      run_elimination comes_to_load refl

compute_runtime_slot_facts_at_instr-Describes_example :
    (facts : Facts) × At analyzed 1 facts × DescribesFrame facts (insert 1 1 sevens)
compute_runtime_slot_facts_at_instr-Describes_example =
    compute_runtime_slot_facts_at_instr-Describes 10 program analyzed 1
      (load_index 2 (3 ∷ 4 ∷ []) (slot 1)) (insert 1 1 sevens) (omega arith) run_analysis no_shifts
      comes_to_load refl

compute_runtime_slot_facts_at_instr-returns_example :
    (states : InStates) × (compute_runtime_slot_facts_at_instr (analysis_fuel program) program
      ≡ some states)
compute_runtime_slot_facts_at_instr-returns_example =
    compute_runtime_slot_facts_at_instr-returns (analysis_fuel program) program (omega arith)
      ((λ e. cc), (tt, (tt, tt))) (omega arith)

upper_bound_for_binop_facts_lem_example :
    Bounded (upper_bound_for_binop_facts op_and unknown_facts (facts_of 1)) 1
unfolding evaluate_binop
upper_bound_for_binop_facts_lem_example =
    upper_bound_for_binop_facts_lem op_and unknown_facts (facts_of 1) 7 1 1 (omega arith)
      (omega arith) ((λ u e. absurd (cc)), λ w e. cc) ((λ u e. ground arith), λ w e. cc) tt refl

upper_bound_for_binop_facts-shr_example :
    ¬ Bounded (upper_bound_for_binop_facts shr_unsigned unknown_facts (facts_of 65)) 3
unfolding evaluate_binop shift_right
upper_bound_for_binop_facts-shr_example =
    upper_bound_for_binop_facts-shr unknown_facts (facts_of 65) 7 65 3 refl (omega arith)
      (omega arith) refl

runtime_transfer_slot_facts_lem_example : DescribesFrame index_known (insert 1 1 sevens)
unfolding runtime_transfer_slot_facts binop_facts facts_for_operand upper_bound_for_binop_facts
    eval_runtime_binop evaluate_pure_instruction evaluate_binop
runtime_transfer_slot_facts_lem_example =
    runtime_transfer_slot_facts_lem nothing_known 5 sevens sevens-Frame
      (λ s v e. replicate-Describes 5 s v) (bin_op 1 op_and (slot 0) (imm 1)) index_known
      (insert 1 1 sevens) (omega arith) tt ((1, 1), refl, refl) refl

runtime_program_slot_count-WritesBelow_example :
    WritesBelow (runtime_program_slot_count program) program
runtime_program_slot_count-WritesBelow_example = runtime_program_slot_count-WritesBelow program
