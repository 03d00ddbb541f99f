-- ===== src/Superopt/Examples.antt =====
-- The superoptimizer on concrete programs.
use aziky.Prelude.{◌≡◌, refl, arith, Bool, false, some, [], ◌∷◌}
use aziky.Ir.{
  RuntimeInstr, RuntimeProgram, mov, bin_op, bin_op_in_place, slot, imm, mul, mod_unsigned, op_xor,
  shl, op_and,
}
use aziky.Superopt.Evaluate.{Environment, evaluate_pure_instruction, evaluate_binop, evaluate_cmp}
use aziky.Superopt.Rewrite.{
  has_exact_rewrite_proof, operands_equal, move_justified, operation_justified, reduction_matches,
  enumerate_candidates, algebraic_identity_replacement, strength_reduction,
}
use aziky.Superopt.Verify.{verify_candidate, candidate_slots, environments_of, expand, agree_on}
use aziky.Superopt.Run.{
  OptimizationReport, run_verified_superoptimizer, superoptimize_from, superoptimize_instruction,
  best_of, fusion_sensitive, total_cost, comes_before,
}
use aziky.Superopt.Execute.{execute, run_verified_superoptimizer_sound}
use aziky.Superopt.Soundness.{rewrite_sound}
use aziky.Superopt.Cost.{target_instruction_cost, register_pressure_cost}
use aziky.Word.{
  wrapping_add, wrapping_sub, wrapping_mul, shift_left, is_power_of_two, count_ones, trailing_zeros,
  checked_rem,
}
use aziky.Lir.Slots.{read_slots}
use aziky.Prelude.Sorting.{sort_unstable, insert_sorted, dedup}

-- r1 = r0 * 8; r2 = r1 % 4; r0 ^= 0
abbrev program : RuntimeProgram
program = record {
  slots = 3;
  instrs =
      bin_op 1 mul (slot 0) (imm 8)
      ∷ bin_op 2 mod_unsigned (slot 1) (imm 4)
      ∷ bin_op_in_place 0 op_xor (imm 0)
      ∷ [];
}

abbrev no_passes : OptimizationReport
no_passes = record {
  affine_lookahead_groups = 0;
  affine_selects = 0;
  dead_prefix_reductions = 0;
  fixed_sort_selections = 0;
  partial_unrolled_loops = 0;
  propagated_copies = 0;
  eliminated_copies = 0;
  verified_rewrites = 0;
  scheduled_regions = 0;
  reordered_blocks = 0;
  inverted_branches = 0;
  repaired_fallthroughs = 0;
}

abbrev unordered : RuntimeInstr → RuntimeInstr → Bool
unordered a b = false

abbrev fives : Environment
fives s = some 5

run_program :
    (run_verified_superoptimizer unordered false program no_passes).0.instrs
    ≡ bin_op 1 shl (slot 0) (imm 3) ∷ bin_op 2 op_and (slot 1) (imm 3) ∷ mov 0 (slot 0) ∷ []
unfolding run_verified_superoptimizer superoptimize_from superoptimize_instruction best_of
    fusion_sensitive total_cost comes_before verify_candidate candidate_slots environments_of expand
    agree_on has_exact_rewrite_proof move_justified operation_justified reduction_matches
    enumerate_candidates algebraic_identity_replacement strength_reduction evaluate_pure_instruction
    evaluate_binop evaluate_cmp operands_equal target_instruction_cost register_pressure_cost
    wrapping_add wrapping_sub wrapping_mul shift_left is_power_of_two count_ones trailing_zeros
    read_slots sort_unstable insert_sorted dedup checked_rem
run_program = refl

run_verified_superoptimizer_sound_example :
    execute (run_verified_superoptimizer unordered false program no_passes).0.instrs fives
    ≡ execute program.instrs fives
run_verified_superoptimizer_sound_example =
    run_verified_superoptimizer_sound unordered false program no_passes fives (omega arith)
      (λ s. (5, refl, omega arith))

rewrite_sound_example :
    evaluate_pure_instruction (bin_op 2 op_and (slot 1) (imm 3)) fives
    ≡ evaluate_pure_instruction (bin_op 2 mod_unsigned (slot 1) (imm 4)) fives
unfolding has_exact_rewrite_proof operation_justified reduction_matches is_power_of_two count_ones
    trailing_zeros operands_equal read_slots
rewrite_sound_example =
    rewrite_sound (bin_op 2 mod_unsigned (slot 1) (imm 4)) (bin_op 2 op_and (slot 1) (imm 3)) fives
      (omega arith) ((5, refl, omega arith), tt) refl
