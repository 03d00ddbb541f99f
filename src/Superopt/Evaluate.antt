-- ===== src/Superopt/Evaluate.antt =====
-- src/backend/optimizer.rs: the reference semantics of pure instructions over `u64`.
use aziky.Prelude.{
  ℕ, bit_and, bit_or, bit_xor, Bool, true, false, not, Option, none, some, ltb, leb, ◌==◌, ◌>>=◌,
}
use aziky.Ir.{
  RuntimeOperand, slot, imm, RuntimeBinOp, add, sub, mul, div_unsigned, div_signed, mod_unsigned,
  mod_signed, op_and, op_or, op_xor, shl, shr_unsigned, shr_signed, RuntimeCmpOp, eq, ne,
  lt_unsigned, le_unsigned, gt_unsigned, ge_unsigned, lt_signed, le_signed, gt_signed, ge_signed,
  RuntimeInstr, mov, bin_op, bin_op_in_place, cmp,
}
use aziky.Word.{
  wrapping_add, wrapping_sub, wrapping_mul, shift_left, shift_right, checked_div, checked_rem,
  checked_div_signed, checked_rem_signed, shift_right_signed, lt_signed_word, le_signed_word,
}

unfoldable pub evaluate_binop : RuntimeBinOp → ℕ → ℕ → Option ℕ
evaluate_binop add lhs rhs = some (wrapping_add lhs rhs)
evaluate_binop sub lhs rhs = some (wrapping_sub lhs rhs)
evaluate_binop mul lhs rhs = some (wrapping_mul lhs rhs)
evaluate_binop div_unsigned lhs rhs = checked_div lhs rhs
evaluate_binop div_signed lhs rhs = checked_div_signed lhs rhs
evaluate_binop mod_unsigned lhs rhs = checked_rem lhs rhs
evaluate_binop mod_signed lhs rhs = checked_rem_signed lhs rhs
evaluate_binop op_and lhs rhs = some (bit_and lhs rhs)
evaluate_binop op_or lhs rhs = some (bit_or lhs rhs)
evaluate_binop op_xor lhs rhs = some (bit_xor lhs rhs)
evaluate_binop shl lhs rhs = some (shift_left lhs (bit_and rhs 63))
evaluate_binop shr_unsigned lhs rhs = some (shift_right lhs (bit_and rhs 63))
evaluate_binop shr_signed lhs rhs = some (shift_right_signed lhs (bit_and rhs 63))

unfoldable pub evaluate_cmp : RuntimeCmpOp → ℕ → ℕ → Bool
evaluate_cmp eq lhs rhs = lhs == rhs
evaluate_cmp ne lhs rhs = not (lhs == rhs)
evaluate_cmp lt_unsigned lhs rhs = ltb lhs rhs
evaluate_cmp le_unsigned lhs rhs = leb lhs rhs
evaluate_cmp gt_unsigned lhs rhs = ltb rhs lhs
evaluate_cmp ge_unsigned lhs rhs = leb rhs lhs
evaluate_cmp lt_signed lhs rhs = lt_signed_word lhs rhs
evaluate_cmp le_signed lhs rhs = le_signed_word lhs rhs
evaluate_cmp gt_signed lhs rhs = lt_signed_word rhs lhs
evaluate_cmp ge_signed lhs rhs = le_signed_word rhs lhs

-- A `HashMap<usize, u64>`: the values of the slots that it holds.
abbrev pub Environment : Type 0
Environment = ℕ → Option ℕ

-- `bool as u64`
abbrev pub as_word : Bool → ℕ
as_word true = 1
as_word false = 0

abbrev pub operand_value : Environment → RuntimeOperand → Option ℕ
operand_value environment (imm value) = some value
operand_value environment (slot s) = environment s

-- The slot that a pure instruction writes, with the value; `none` where the instruction is not
-- pure, a slot is missing or a division fails.
unfoldable pub evaluate_pure_instruction : RuntimeInstr → Environment → Option (ℕ × ℕ)
evaluate_pure_instruction (mov dst src) environment = do
  value ← operand_value environment src
  some (dst, value)
evaluate_pure_instruction (bin_op dst op lhs rhs) environment = do
  left ← operand_value environment lhs
  right ← operand_value environment rhs
  value ← evaluate_binop op left right
  some (dst, value)
evaluate_pure_instruction (bin_op_in_place dst op rhs) environment = do
  left ← environment dst
  right ← operand_value environment rhs
  value ← evaluate_binop op left right
  some (dst, value)
evaluate_pure_instruction (cmp dst op lhs rhs) environment = do
  left ← operand_value environment lhs
  right ← operand_value environment rhs
  some (dst, as_word (evaluate_cmp op left right))
evaluate_pure_instruction _ environment = none
