-- ===== src/Superopt/Rewrite.antt =====
-- src/backend/optimizer.rs: the candidates for one instruction, and the test of a rewrite.
-- The arms of a `match` on several patterns at once are helpers of their own.
use mathlib.Core.Option
use aziky.Prelude.{
  ℕ, ◌-◌, Bool, true, false, ◌&&◌, ◌||◌, Option, none, some, List, [], ◌∷◌, ◌++◌, ltb, ◌==◌,
  if◌then◌else◌, take, ◌^◌,
}
use aziky.Ir.{
  RuntimeOperand, slot, imm, RuntimeBinOp, add, sub, mul, div_unsigned, mod_unsigned, op_and, op_or,
  op_xor, shl, shr_unsigned, shr_signed, RuntimeCmpOp, eq, le_unsigned, ge_unsigned, le_signed,
  ge_signed, RuntimeInstr, mov, bin_op, bin_op_in_place, cmp, same_op,
}
use aziky.Word.{wrapping_sub, is_power_of_two, trailing_zeros}
use aziky.Superopt.Evaluate.{evaluate_binop, evaluate_cmp, as_word}

unfoldable pub operands_equal : RuntimeOperand → RuntimeOperand → Bool
operands_equal (slot left) (slot right) = left == right
operands_equal (imm left) (imm right) = left == right
operands_equal _ _ = false

-- The pattern `RuntimeOperand::Imm(n)`.
abbrev pub is_imm : ℕ → RuntimeOperand → Bool
is_imm n (imm value) = value == n
is_imm n (slot _) = false

abbrev u64_max : ℕ
u64_max = 2 ^ 64 - 1

unfoldable pub algebraic_identity_replacement :
    RuntimeBinOp → RuntimeOperand → RuntimeOperand → Option RuntimeOperand
algebraic_identity_replacement add lhs rhs =
    if is_imm 0 rhs then some lhs else if is_imm 0 lhs then some rhs else none
algebraic_identity_replacement sub lhs rhs =
    if is_imm 0 rhs then some lhs else if operands_equal lhs rhs then some (imm 0) else none
algebraic_identity_replacement mul lhs rhs =
    if is_imm 1 rhs
    then some lhs
    else if is_imm 1 lhs
    then some rhs
    else if is_imm 0 rhs || is_imm 0 lhs
    then some (imm 0)
    else none
algebraic_identity_replacement op_or lhs rhs =
    if is_imm 0 rhs
    then some lhs
    else if is_imm 0 lhs
    then some rhs
    else if operands_equal lhs rhs
    then some lhs
    else none
algebraic_identity_replacement op_xor lhs rhs =
    if is_imm 0 rhs
    then some lhs
    else if is_imm 0 lhs
    then some rhs
    else if operands_equal lhs rhs
    then some (imm 0)
    else none
algebraic_identity_replacement op_and lhs rhs =
    if is_imm u64_max rhs
    then some lhs
    else if is_imm u64_max lhs
    then some rhs
    else if is_imm 0 rhs || is_imm 0 lhs
    then some (imm 0)
    else if operands_equal lhs rhs
    then some lhs
    else none
algebraic_identity_replacement shl lhs rhs = if is_imm 0 rhs then some lhs else none
algebraic_identity_replacement shr_unsigned lhs rhs = if is_imm 0 rhs then some lhs else none
algebraic_identity_replacement shr_signed lhs rhs = if is_imm 0 rhs then some lhs else none
algebraic_identity_replacement _ lhs rhs = none

-- The operation and the right operand that replace one by a power of two, where they differ.
unfoldable pub power_of_two_replacement : RuntimeBinOp → ℕ → Option (RuntimeBinOp × RuntimeOperand)
power_of_two_replacement mul constant = some (shl, imm (trailing_zeros 64 constant))
power_of_two_replacement div_unsigned constant =
    some (shr_unsigned, imm (trailing_zeros 64 constant))
power_of_two_replacement mod_unsigned constant = some (op_and, imm (wrapping_sub constant 1))
power_of_two_replacement _ constant = none

unfoldable pub strength_reduction :
    RuntimeBinOp → RuntimeOperand → Option (RuntimeBinOp × RuntimeOperand)
unfolding power_of_two_replacement
strength_reduction op (imm constant) =
    if ltb 1 constant && is_power_of_two constant
    then power_of_two_replacement op constant
    else none
strength_reduction op (slot _) = none

abbrev reduced :
    ℕ
    → RuntimeOperand
    → Option RuntimeInstr
    → Option (RuntimeBinOp × RuntimeOperand)
    → Option RuntimeInstr
reduced dst lhs otherwise (some (op, rhs)) = some (bin_op dst op lhs rhs)
reduced dst lhs otherwise none = otherwise

unfoldable pub synthesize_binop :
    ℕ → RuntimeBinOp → RuntimeOperand → RuntimeOperand → Option RuntimeInstr
synthesize_binop dst op (imm lhs) (imm rhs) =
    Option.map (λ value. mov dst (imm value)) (evaluate_binop op lhs rhs)
synthesize_binop dst op lhs rhs =
    reduced dst lhs
      (Option.map (λ replacement. mov dst replacement) (algebraic_identity_replacement op lhs rhs))
      (strength_reduction op rhs)

-- The comparisons that hold of a value and itself.
unfoldable pub holds_of_itself : RuntimeCmpOp → Bool
holds_of_itself eq = true
holds_of_itself le_unsigned = true
holds_of_itself ge_unsigned = true
holds_of_itself le_signed = true
holds_of_itself ge_signed = true
holds_of_itself _ = false

unfoldable pub synthesize_candidate : RuntimeInstr → Option RuntimeInstr
unfolding synthesize_binop
synthesize_candidate (bin_op dst op lhs rhs) = synthesize_binop dst op lhs rhs
synthesize_candidate (bin_op_in_place dst op rhs) =
    Option.map (λ replacement. mov dst replacement)
      (algebraic_identity_replacement op (slot dst) rhs)
synthesize_candidate (cmp dst op (imm lhs) (imm rhs)) =
    some (mov dst (imm (as_word (evaluate_cmp op lhs rhs))))
synthesize_candidate (cmp dst op (slot lhs) (slot rhs)) =
    if lhs == rhs then some (mov dst (imm (as_word (holds_of_itself op)))) else none
synthesize_candidate _ = none

unfoldable pub is_commutative : RuntimeBinOp → Bool
is_commutative add = true
is_commutative mul = true
is_commutative op_and = true
is_commutative op_or = true
is_commutative op_xor = true
is_commutative _ = false

-- An immediate on the left of a commutative operation may move to the right.
unfoldable pub commuted : RuntimeInstr → List RuntimeInstr
unfolding is_commutative
commuted (bin_op dst op (imm lhs) (slot rhs)) =
    if is_commutative op then bin_op dst op (slot rhs) (imm lhs) ∷ [] else []
commuted _ = []

abbrev optional {ℓ} : {A : Type ℓ} → Option A → List A
optional none = []
optional (some a) = a ∷ []

-- The source's bound on the node count of the expression, 3, holds of every instruction.
unfoldable pub enumerate_candidates : RuntimeInstr → List RuntimeInstr
unfolding synthesize_candidate commuted
enumerate_candidates instr = take 8 (optional (synthesize_candidate instr) ++ commuted instr)

abbrev pub is_value : ℕ → Option ℕ → Bool
is_value value none = false
is_value value (some v) = v == value

abbrev pub is_replacement : RuntimeOperand → Option RuntimeOperand → Bool
is_replacement src none = false
is_replacement src (some replacement) = operands_equal replacement src

-- A move in place of a binary operation: the folded constant, or an algebraic identity.
unfoldable pub move_justified :
    RuntimeBinOp → RuntimeOperand → RuntimeOperand → RuntimeOperand → Bool
move_justified op (imm lhs) (imm rhs) (imm value) = is_value value (evaluate_binop op lhs rhs)
move_justified op lhs rhs src = is_replacement src (algebraic_identity_replacement op lhs rhs)

unfoldable pub comparison_justified :
    RuntimeCmpOp → RuntimeOperand → RuntimeOperand → RuntimeOperand → Bool
comparison_justified op (imm lhs) (imm rhs) (imm value) = value == as_word (evaluate_cmp op lhs rhs)
comparison_justified op (slot lhs) (slot rhs) (imm value) =
    lhs == rhs && value == as_word (holds_of_itself op)
comparison_justified _ _ _ _ = false

-- The shift or the mask that stands for an operation by a power of two.
unfoldable pub reduction_matches : RuntimeBinOp → ℕ → RuntimeBinOp → RuntimeOperand → Bool
reduction_matches mul constant shl (imm shift) = shift == trailing_zeros 64 constant
reduction_matches div_unsigned constant shr_unsigned (imm shift) =
    shift == trailing_zeros 64 constant
reduction_matches mod_unsigned constant op_and (imm mask) = mask == constant - 1
reduction_matches _ _ _ _ = false

abbrev pub is_reducible : RuntimeBinOp → Bool
is_reducible mul = true
is_reducible div_unsigned = true
is_reducible mod_unsigned = true
is_reducible _ = false

abbrev pub reduction_justified :
    RuntimeBinOp → RuntimeOperand → ℕ → RuntimeBinOp → RuntimeOperand → RuntimeOperand → Bool
reduction_justified original_op original_lhs constant op lhs rhs =
    operands_equal original_lhs lhs
    && ltb 1 constant
    && is_power_of_two constant
    && reduction_matches original_op constant op rhs

abbrev pub commutation_justified :
    RuntimeBinOp
    → RuntimeOperand
    → RuntimeOperand
    → RuntimeBinOp
    → RuntimeOperand
    → RuntimeOperand
    → Bool
commutation_justified original_op original_lhs original_rhs op lhs rhs =
    same_op original_op op
    && is_commutative original_op
    && operands_equal original_lhs rhs
    && operands_equal original_rhs lhs

-- Another binary operation in place of one.
unfoldable pub operation_justified :
    RuntimeBinOp
    → RuntimeOperand
    → RuntimeOperand
    → RuntimeBinOp
    → RuntimeOperand
    → RuntimeOperand
    → Bool
operation_justified original_op original_lhs (imm constant) op lhs rhs =
    if is_reducible original_op
    then reduction_justified original_op original_lhs constant op lhs rhs
    else commutation_justified original_op original_lhs (imm constant) op lhs rhs
operation_justified original_op original_lhs (slot s) op lhs rhs =
    commutation_justified original_op original_lhs (slot s) op lhs rhs

unfoldable pub has_exact_rewrite_proof : RuntimeInstr → RuntimeInstr → Bool
has_exact_rewrite_proof (bin_op original_dst op lhs rhs) (mov dst src) =
    original_dst == dst && move_justified op lhs rhs src
has_exact_rewrite_proof (cmp original_dst op lhs rhs) (mov dst src) =
    original_dst == dst && comparison_justified op lhs rhs src
has_exact_rewrite_proof (bin_op_in_place original_dst op rhs) (mov dst src) =
    original_dst == dst
    && is_replacement src (algebraic_identity_replacement op (slot original_dst) rhs)
has_exact_rewrite_proof (bin_op original_dst original_op original_lhs original_rhs)
      (bin_op dst op lhs rhs) =
    original_dst == dst && operation_justified original_op original_lhs original_rhs op lhs rhs
has_exact_rewrite_proof _ _ = false
