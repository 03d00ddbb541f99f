-- ===== src/Frontend/Eval.antt =====
-- src/frontend/optimizer.rs: the evaluation of constant operations.
-- An outer `none` is a panic of the compiler.
use mathlib.Core.Option
use aziky.Prelude.{
  ℕ, ◌-◌, ◌/◌, ◌%◌, ◌^◌, bit_and, bit_or, bit_xor, Bool, false, not, ◌&&◌, ◌||◌, Option, none, some,
  List, ltb, leb, ◌==◌, if◌then◌else◌, get_elem?,
}
use aziky.Ir.{
  RuntimeOperand, slot, imm, RuntimeBinOp, add, sub, mul, div_unsigned, div_signed, mod_unsigned,
  mod_signed, op_and, op_or, op_xor, shl, shr_unsigned, shr_signed, RuntimeCmpOp, eq, ne,
  lt_unsigned, le_unsigned, gt_unsigned, ge_unsigned, lt_signed, le_signed, gt_signed, ge_signed,
}
use aziky.Word.{
  wrapping_add, wrapping_sub, wrapping_mul, shift_left, shift_right, checked_div_signed,
  checked_rem_signed, shift_right_signed, complement, lt_signed_word, le_signed_word,
}

-- The signed remainder is guarded against a zero divisor only: `i64::MIN % -1` panics.
unfoldable pub eval_runtime_binop : RuntimeBinOp → ℕ → ℕ → Option (Option ℕ)
eval_runtime_binop add lhs rhs = some (some (wrapping_add lhs rhs))
eval_runtime_binop sub lhs rhs = some (some (wrapping_sub lhs rhs))
eval_runtime_binop mul lhs rhs = some (some (wrapping_mul lhs rhs))
eval_runtime_binop div_unsigned lhs rhs = some (if rhs == 0 then none else some (lhs / rhs))
eval_runtime_binop div_signed lhs rhs = some (checked_div_signed lhs rhs)
eval_runtime_binop mod_unsigned lhs rhs = some (if rhs == 0 then none else some (lhs % rhs))
eval_runtime_binop mod_signed lhs rhs =
    if rhs == 0 then some none else Option.map some (checked_rem_signed lhs rhs)
eval_runtime_binop op_and lhs rhs = some (some (bit_and lhs rhs))
eval_runtime_binop op_or lhs rhs = some (some (bit_or lhs rhs))
eval_runtime_binop op_xor lhs rhs = some (some (bit_xor lhs rhs))
eval_runtime_binop shl lhs rhs = some (some (shift_left lhs (bit_and rhs 63)))
eval_runtime_binop shr_unsigned lhs rhs = some (some (shift_right lhs (bit_and rhs 63)))
eval_runtime_binop shr_signed lhs rhs = some (some (shift_right_signed lhs (bit_and rhs 63)))

abbrev pub compare_words : RuntimeCmpOp → ℕ → ℕ → Bool
compare_words eq lhs rhs = lhs == rhs
compare_words ne lhs rhs = not (lhs == rhs)
compare_words lt_unsigned lhs rhs = ltb lhs rhs
compare_words le_unsigned lhs rhs = leb lhs rhs
compare_words gt_unsigned lhs rhs = ltb rhs lhs
compare_words ge_unsigned lhs rhs = leb rhs lhs
compare_words lt_signed lhs rhs = lt_signed_word lhs rhs
compare_words le_signed lhs rhs = le_signed_word lhs rhs
compare_words gt_signed lhs rhs = lt_signed_word rhs lhs
compare_words ge_signed lhs rhs = le_signed_word rhs lhs

unfoldable pub eval_runtime_cmp : RuntimeCmpOp → ℕ → ℕ → ℕ
eval_runtime_cmp op lhs rhs = if compare_words op lhs rhs then 1 else 0

abbrev sign_extended : ℕ → ℕ → ℕ → ℕ
sign_extended mask sign truncated =
    if bit_and truncated sign == 0 then truncated else bit_or truncated (complement mask)

-- `bits - 1` panics for a signed integer of no bits, in a build with overflow checks, which is the one
-- modelled; without them the subtraction wraps.
unfoldable pub normalize_const_int : ℕ → Bool → ℕ → Option ℕ
normalize_const_int value signed bits =
    let mask = 2 ^ bits - 1 in
    let truncated = bit_and value mask in
    if leb 64 bits
    then some value
    else if signed
    then if bits == 0 then none else some (sign_extended mask (2 ^ (bits - 1)) truncated)
    else some truncated

abbrev pub const_at : List (Option ℕ) → ℕ → Option ℕ
const_at const_slots s = elim (get_elem? const_slots s) [ none ↦ none | some known ↦ known ]

unfoldable pub fold_operand_const : RuntimeOperand → List (Option ℕ) → RuntimeOperand
fold_operand_const (imm value) const_slots = imm value
fold_operand_const (slot s) const_slots = elim (const_at const_slots s) [
  | some value ↦ imm value
  | none ↦ slot s
]

unfoldable pub operand_const_value : RuntimeOperand → List (Option ℕ) → Option ℕ
operand_const_value (imm value) const_slots = some value
operand_const_value (slot s) const_slots = const_at const_slots s

abbrev pub is_imm : RuntimeOperand → ℕ → Bool
is_imm (imm value) n = value == n
is_imm (slot _) n = false

abbrev pub max_word : ℕ
max_word = 2 ^ 64 - 1

abbrev is_nop_by : RuntimeBinOp → ℕ → Bool
is_nop_by add value = value == 0
is_nop_by sub value = value == 0
is_nop_by mul value = value == 1
is_nop_by div_unsigned value = value == 1
is_nop_by div_signed value = value == 1
is_nop_by op_or value = value == 0
is_nop_by op_xor value = value == 0
is_nop_by shl value = value == 0
is_nop_by shr_unsigned value = value == 0
is_nop_by shr_signed value = value == 0
is_nop_by op_and value = value == max_word
is_nop_by mod_unsigned value = false
is_nop_by mod_signed value = false

unfoldable pub fold_binop_in_place_is_nop : RuntimeBinOp → RuntimeOperand → Bool
fold_binop_in_place_is_nop op (imm value) = is_nop_by op value
fold_binop_in_place_is_nop op (slot _) = false

-- `rhs_imm.map(|value| value & 63) == Some(0)`
abbrev shifts_nothing : RuntimeOperand → Bool
shifts_nothing (imm value) = bit_and value 63 == 0
shifts_nothing (slot _) = false

unfoldable pub fold_binop_identity :
    RuntimeBinOp → RuntimeOperand → RuntimeOperand → Option RuntimeOperand
fold_binop_identity add lhs rhs =
    if is_imm rhs 0 then some lhs else if is_imm lhs 0 then some rhs else none
fold_binop_identity sub lhs rhs = if is_imm rhs 0 then some lhs else none
fold_binop_identity mul lhs rhs =
    if is_imm rhs 1
    then some lhs
    else if is_imm lhs 1
    then some rhs
    else if is_imm rhs 0 || is_imm lhs 0
    then some (imm 0)
    else none
fold_binop_identity div_unsigned lhs rhs = if is_imm rhs 1 then some lhs else none
fold_binop_identity div_signed lhs rhs = if is_imm rhs 1 then some lhs else none
fold_binop_identity mod_unsigned lhs rhs =
    if is_imm rhs 1
    then some (imm 0)
    else if is_imm lhs 0 && not (is_imm rhs 0)
    then some (imm 0)
    else none
fold_binop_identity mod_signed lhs rhs =
    if is_imm rhs 1 || is_imm rhs max_word
    then some (imm 0)
    else if is_imm lhs 0 && not (is_imm rhs 0)
    then some (imm 0)
    else none
fold_binop_identity op_and lhs rhs =
    if is_imm rhs 0 || is_imm lhs 0
    then some (imm 0)
    else if is_imm rhs max_word
    then some lhs
    else if is_imm lhs max_word
    then some rhs
    else none
fold_binop_identity op_or lhs rhs =
    if is_imm rhs 0
    then some lhs
    else if is_imm lhs 0
    then some rhs
    else if is_imm rhs max_word || is_imm lhs max_word
    then some (imm max_word)
    else none
fold_binop_identity op_xor lhs rhs =
    if is_imm rhs 0 then some lhs else if is_imm lhs 0 then some rhs else none
fold_binop_identity shl lhs rhs = if shifts_nothing rhs then some lhs else none
fold_binop_identity shr_unsigned lhs rhs = if shifts_nothing rhs then some lhs else none
fold_binop_identity shr_signed lhs rhs = if shifts_nothing rhs then some lhs else none
