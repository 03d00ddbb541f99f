-- ===== src/Frontend/Examples.antt =====
-- The frontend optimizer on concrete programs.
use aziky.Prelude.{
  ℕ, zero, suc, ◌^◌, ◌≡◌, refl, arith, bit_and, none, some, List, [], ◌∷◌, Returns, ◌↔◌,
}
use aziky.Ir.{
  RuntimeFloatBinOp, RuntimeInstr, mov, bin_op, bin_op_in_place, cmp, slot, imm, add, mul,
  mod_signed, mod_unsigned, lt_unsigned,
}
use aziky.Lir.Slots.{write_slots}
use aziky.Word.{wrapping_add, wrapping_mul}
use aziky.Superopt.Evaluate.{
  Environment, operand_value, evaluate_binop, evaluate_cmp, evaluate_pure_instruction,
}
use aziky.Superopt.Verify.{insert}
use aziky.Superopt.Execute.{execute}
use aziky.Frontend.Eval.{eval_runtime_binop, fold_binop_identity, max_word}
use aziky.Frontend.EvalSound.{
  eval_runtime_binop-returns, eval_runtime_binop-panics, fold_binop_identity_lem,
}
use aziky.Frontend.Fold.{fold_runtime_instr}
use aziky.Frontend.FoldPass.{peephole_optimize_runtime_instrs}
use aziky.Frontend.Known.{Right}
use aziky.Frontend.FoldSound.{Writes, fold_runtime_instr_lem}
use aziky.Frontend.PassSound.{peephole_optimize_runtime_instrs_lem}
use aziky.Frontend.Affine.{affine_pow, affine_index_pow, affine_index_pow_masked, is_low_bits_mask}
use aziky.Frontend.AffineLaws.{iterate, affine, affine_index, affine_pow_lem, affine_index_pow_lem}
use aziky.Frontend.AffineMasked.{masked_round, affine_index_pow_masked_lem}

-- r0 = 3; r1 = r0 + 4; r1 *= 1; r2 = r1 < r3
abbrev program : List RuntimeInstr
program =
    mov 0 (imm 3)
    ∷ bin_op 1 add (slot 0) (imm 4)
    ∷ bin_op_in_place 1 mul (imm 1)
    ∷ cmp 2 lt_unsigned (slot 1) (slot 3)
    ∷ []

abbrev fives : Environment
fives s = some 5

abbrev float_zero : ℕ → RuntimeFloatBinOp → ℕ → ℕ → ℕ
float_zero bits op lhs rhs = 0

abbrev after : Environment
after = insert 2 0 (insert 1 7 (insert 1 7 (insert 0 3 fives)))

peephole_optimize_runtime_instrs_lem_example :
    Returns
      (peephole_optimize_runtime_instrs float_zero 4 program)
      (λ out. execute out fives ≡ some after)
unfolding write_slots execute evaluate_pure_instruction evaluate_binop evaluate_cmp wrapping_add
    wrapping_mul
peephole_optimize_runtime_instrs_lem_example =
    peephole_optimize_runtime_instrs_lem float_zero 4 program fives after (omega arith)
      (λ s. (5, refl, omega arith)) (omega arith) refl

fold_runtime_instr_lem_example :
    Returns
      (fold_runtime_instr float_zero (bin_op 0 add (slot 0) (imm 4)) (some 5 ∷ []))
      (Writes fives 0 9 1)
unfolding write_slots evaluate_pure_instruction evaluate_binop wrapping_add
fold_runtime_instr_lem_example =
    fold_runtime_instr_lem float_zero (bin_op 0 add (slot 0) (imm 4)) (some 5 ∷ []) fives 0 9
      (omega arith) (λ s. (5, refl, omega arith)) right (omega arith) refl
  where
    right : Right (some 5 ∷ []) fives
    right zero v e = e
    right (suc s) v e = absurd (cc)

eval_runtime_binop-panics_example :
    (eval_runtime_binop mod_signed (2 ^ 63) max_word ≡ none)
    ↔ ((mod_signed ≡ mod_signed) × (2 ^ 63 ≡ 2 ^ 63) × (max_word ≡ max_word))
eval_runtime_binop-panics_example = eval_runtime_binop-panics mod_signed (2 ^ 63) max_word

eval_runtime_binop-returns_example : some 3 ≡ evaluate_binop mod_unsigned 10 7
unfolding eval_runtime_binop
eval_runtime_binop-returns_example = eval_runtime_binop-returns mod_unsigned 10 7 (some 3) refl

fold_binop_identity_lem_example : operand_value fives (slot 4) ≡ some 5
unfolding fold_binop_identity evaluate_binop wrapping_mul
fold_binop_identity_lem_example =
    fold_binop_identity_lem fives (slot 4) (imm 1) 5 1 5 refl refl (omega arith) (omega arith) mul
      (slot 4) refl refl

affine_pow_lem_example :
    affine (affine_pow 3 1 10).0 (affine_pow 3 1 10).1 5 ≡ iterate 10 (affine 3 1) 5
affine_pow_lem_example = affine_pow_lem 3 1 10 5 (omega arith) (omega arith)

affine_index_pow_lem_example :
    wrapping_add
      (wrapping_add
        (wrapping_mul (affine_index_pow 3 2 1 10).0 5)
        (wrapping_mul (affine_index_pow 3 2 1 10).1 7))
      (affine_index_pow 3 2 1 10).2
    ≡ (iterate 10 (affine_index 3 2 1) (5, 7)).0
affine_index_pow_lem_example =
    affine_index_pow_lem 3 2 1 10 5 7 (omega arith) (omega arith) (omega arith)

affine_index_pow_masked_lem_example :
    bit_and
      (wrapping_add
        (wrapping_add
          (wrapping_mul (affine_index_pow_masked 3 2 1 10 255).0 5)
          (wrapping_mul (affine_index_pow_masked 3 2 1 10 255).1 7))
        (affine_index_pow_masked 3 2 1 10 255).2)
      255
    ≡ (iterate 10 (masked_round 255 3 2 1) (5, 7)).0
unfolding is_low_bits_mask wrapping_add
affine_index_pow_masked_lem_example =
    affine_index_pow_masked_lem 3 2 1 10 255 5 7 (omega arith) refl (omega arith) (omega arith)
      (omega arith)
