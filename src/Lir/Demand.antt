-- ===== src/Lir/Demand.antt =====
-- src/backend/lir.rs: the bits of its operands that an operation demands.
use aziky.Prelude.{ℕ, ◌-◌, ◌^◌, bit_and, List, [], ◌∷◌, ◌++◌, ltb, if◌then◌else◌}
use aziky.Ir.{
  RuntimeOperand, slot, imm, RuntimeBinOp, add, sub, mul, div_unsigned, div_signed, mod_unsigned,
  mod_signed, op_and, op_or, op_xor, shl, shr_unsigned, shr_signed,
}
use aziky.Word.{shift_left, shift_right}

abbrev pub all_bits : ℕ
all_bits = 2 ^ 64 - 1

-- The calls of `demand_read`, each a slot and a mask.
abbrev pub demand_operand : RuntimeOperand → ℕ → List (ℕ × ℕ)
demand_operand (slot s) mask = (s, mask) ∷ []
demand_operand (imm _) mask = []

abbrev pub and_mask_for : RuntimeOperand → ℕ → ℕ
and_mask_for (imm mask) output = bit_and output mask
and_mask_for (slot _) output = output

-- The mask for a left operand that is shifted by a right one; `undo` shifts the other way.
abbrev pub shifted_mask : (ℕ → ℕ → ℕ) → RuntimeOperand → ℕ → ℕ
shifted_mask undo (imm shift) output = if ltb shift 64 then undo output shift else all_bits
shifted_mask undo (slot _) output = all_bits

-- The masks for the two operands.
unfoldable pub demanded_masks : RuntimeBinOp → RuntimeOperand → RuntimeOperand → ℕ → ℕ × ℕ
demanded_masks add lhs rhs output = (output, output)
demanded_masks sub lhs rhs output = (output, output)
demanded_masks mul lhs rhs output = (output, output)
demanded_masks op_or lhs rhs output = (output, output)
demanded_masks op_xor lhs rhs output = (output, output)
demanded_masks op_and lhs rhs output = (and_mask_for rhs output, and_mask_for lhs output)
demanded_masks shl lhs rhs output = (shifted_mask shift_right rhs output, all_bits)
demanded_masks shr_unsigned lhs rhs output = (shifted_mask shift_left rhs output, all_bits)
demanded_masks shr_signed lhs rhs output = (shifted_mask shift_left rhs output, all_bits)
demanded_masks div_unsigned lhs rhs output = (all_bits, all_bits)
demanded_masks div_signed lhs rhs output = (all_bits, all_bits)
demanded_masks mod_unsigned lhs rhs output = (all_bits, all_bits)
demanded_masks mod_signed lhs rhs output = (all_bits, all_bits)

unfoldable pub demand_binop_inputs :
    RuntimeBinOp → RuntimeOperand → RuntimeOperand → ℕ → List (ℕ × ℕ)
demand_binop_inputs op lhs rhs output =
    let (lhs_mask, rhs_mask) = demanded_masks op lhs rhs output in
    demand_operand lhs lhs_mask ++ demand_operand rhs rhs_mask
