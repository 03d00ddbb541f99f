-- ===== src/Frontend/EvalSound.antt =====
-- src/frontend/optimizer.rs and src/backend/optimizer.rs: constants are evaluated as the backend's
-- reference semantics evaluates them.
use native.Mathlib.Nat.{one-le-pow}
use mathlib.Core.Bool.{xor}
use aziky.Prelude.{
  ℕ, xor, ◌&&◌, zero, suc, ◌/◌, bit_or, ◌==◌, ◌-◌, ◌^◌, ◌<◌, ◌≡◌, ◌↔◌, refl, arith, Bool, true,
  false, Option, none, some,
}
use aziky.Prelude.Bits.{
  and_comm, or_comm, and_zero, zero_and, or_zero, zero_or, or_step, or_comm, xor_zero, zero_xor,
  and_mask,
}
use aziky.Ir.{
  IsWord, RuntimeOperand, RuntimeBinOp, add, sub, mul, div_unsigned, div_signed, mod_unsigned,
  mod_signed, op_and, op_or, op_xor, shl, shr_unsigned, shr_signed, RuntimeCmpOp, eq, ne,
  lt_unsigned, le_unsigned, gt_unsigned, ge_unsigned, lt_signed, le_signed, gt_signed, ge_signed,
}
use aziky.Word.{
  wrapping_add, wrapping_sub, wrapping_mul, shift_left, shift_right, checked_div, checked_rem,
  checked_div_signed, checked_rem_signed, shift_right_signed, magnitude, negate, complement,
}
use aziky.Superopt.Evaluate.{as_word, Environment, operand_value, evaluate_binop, evaluate_cmp}
use aziky.Frontend.Eval.{eval_runtime_binop, eval_runtime_cmp, fold_binop_identity, max_word}

-- Where the compiler does not panic, what it evaluates is what the backend's reference semantics
-- evaluates.
pub eval_runtime_binop-returns :
    (op : RuntimeBinOp) (a b : ℕ) (r : Option ℕ)
    → eval_runtime_binop op a b ≡ some r
    → r ≡ evaluate_binop op a b
unfolding eval_runtime_binop evaluate_binop checked_div checked_rem checked_rem_signed
eval_runtime_binop-returns mod_signed a b r h = ground arith
eval_runtime_binop-returns div_unsigned a b r h = ground arith
eval_runtime_binop-returns mod_unsigned a b r h = ground arith
eval_runtime_binop-returns add a b r h = cc
eval_runtime_binop-returns sub a b r h = cc
eval_runtime_binop-returns mul a b r h = cc
eval_runtime_binop-returns div_signed a b r h = cc
eval_runtime_binop-returns op_and a b r h = cc
eval_runtime_binop-returns op_or a b r h = cc
eval_runtime_binop-returns op_xor a b r h = cc
eval_runtime_binop-returns shl a b r h = cc
eval_runtime_binop-returns shr_unsigned a b r h = cc
eval_runtime_binop-returns shr_signed a b r h = cc

-- The compiler panics exactly on the signed remainder of the least word by the word of minus one.
pub eval_runtime_binop-panics :
    (op : RuntimeBinOp) (a b : ℕ)
    → (eval_runtime_binop op a b ≡ none) ↔ ((op ≡ mod_signed) × (a ≡ 2 ^ 63) × (b ≡ max_word))
unfolding eval_runtime_binop checked_rem_signed
eval_runtime_binop-panics mod_signed a b = (λ h. ground arith, λ (_, p, q). ground arith)
eval_runtime_binop-panics add a b = (λ h. absurd (cc), λ (e, _, _). absurd (cc))
eval_runtime_binop-panics sub a b = (λ h. absurd (cc), λ (e, _, _). absurd (cc))
eval_runtime_binop-panics mul a b = (λ h. absurd (cc), λ (e, _, _). absurd (cc))
eval_runtime_binop-panics _ a b = (λ h. absurd (cc), λ (e, _, _). absurd (cc))

-- The compiler compares constants as the reference semantics does.
pub eval_runtime_cmp_lem :
    (op : RuntimeCmpOp) (a b : ℕ) → eval_runtime_cmp op a b ≡ as_word (evaluate_cmp op a b)
unfolding eval_runtime_cmp evaluate_cmp
eval_runtime_cmp_lem eq a b = ground arith
eval_runtime_cmp_lem ne a b = ground arith
eval_runtime_cmp_lem lt_unsigned a b = ground arith
eval_runtime_cmp_lem le_unsigned a b = ground arith
eval_runtime_cmp_lem gt_unsigned a b = ground arith
eval_runtime_cmp_lem ge_unsigned a b = ground arith
eval_runtime_cmp_lem lt_signed a b = ground arith
eval_runtime_cmp_lem le_signed a b = ground arith
eval_runtime_cmp_lem gt_signed a b = ground arith
eval_runtime_cmp_lem ge_signed a b = ground arith

-- All the digits are set already.
or_mask : (k a : ℕ) → a < 2 ^ k → bit_or a (2 ^ k - 1) ≡ 2 ^ k - 1
or_mask zero a h = omega (arith, or_zero a)
or_mask (suc k) a h =
    let half : (2 ^ suc k - 1) / 2 ≡ 2 ^ k - 1 = omega (arith, one-le-pow k 2) in
    rw (or_step a (2 ^ suc k - 1), half, or_mask k (a / 2) (omega arith))
      (omega (arith, one-le-pow k 2))

and_false : (b : Bool) → (b && false) ≡ false
and_false true = refl
and_false false = refl

divided_by_one : (a : ℕ) → IsWord a → checked_div_signed a 1 ≡ some a
unfolding checked_div_signed magnitude negate xor
divided_by_one a w =
    let one : (1 == max_word) ≡ false = refl in ground (arith, one, and_false (a == 2 ^ 63))

module _ (environment : Environment) (lhs rhs : RuntimeOperand) (a b r : ℕ)
    (read_lhs : operand_value environment lhs ≡ some a)
    (read_rhs : operand_value environment rhs ≡ some b) (a_word : IsWord a)
    (b_word : IsWord b) where
  folded-add :
      (src : RuntimeOperand)
      → fold_binop_identity add lhs rhs ≡ some src
      → evaluate_binop add a b ≡ some r
      → operand_value environment src ≡ some r
  unfolding fold_binop_identity evaluate_binop wrapping_add
  folded-add src h e = ground arith

  folded-sub :
      (src : RuntimeOperand)
      → fold_binop_identity sub lhs rhs ≡ some src
      → evaluate_binop sub a b ≡ some r
      → operand_value environment src ≡ some r
  unfolding fold_binop_identity evaluate_binop wrapping_sub
  folded-sub src h e = ground arith

  folded-mul :
      (src : RuntimeOperand)
      → fold_binop_identity mul lhs rhs ≡ some src
      → evaluate_binop mul a b ≡ some r
      → operand_value environment src ≡ some r
  unfolding fold_binop_identity evaluate_binop wrapping_mul
  folded-mul src h e = ground arith

  folded-div_unsigned :
      (src : RuntimeOperand)
      → fold_binop_identity div_unsigned lhs rhs ≡ some src
      → evaluate_binop div_unsigned a b ≡ some r
      → operand_value environment src ≡ some r
  unfolding fold_binop_identity evaluate_binop checked_div
  folded-div_unsigned src h e = ground arith

  folded-div_signed :
      (src : RuntimeOperand)
      → fold_binop_identity div_signed lhs rhs ≡ some src
      → evaluate_binop div_signed a b ≡ some r
      → operand_value environment src ≡ some r
  unfolding fold_binop_identity evaluate_binop
  folded-div_signed src h e = ground (arith, divided_by_one a a_word)

  folded-mod_unsigned :
      (src : RuntimeOperand)
      → fold_binop_identity mod_unsigned lhs rhs ≡ some src
      → evaluate_binop mod_unsigned a b ≡ some r
      → operand_value environment src ≡ some r
  unfolding fold_binop_identity evaluate_binop checked_rem
  folded-mod_unsigned src h e = ground arith

  folded-mod_signed :
      (src : RuntimeOperand)
      → fold_binop_identity mod_signed lhs rhs ≡ some src
      → evaluate_binop mod_signed a b ≡ some r
      → operand_value environment src ≡ some r
  unfolding fold_binop_identity evaluate_binop checked_rem_signed magnitude negate
  folded-mod_signed src h e = ground arith

  folded-op_and :
      (src : RuntimeOperand)
      → fold_binop_identity op_and lhs rhs ≡ some src
      → evaluate_binop op_and a b ≡ some r
      → operand_value environment src ≡ some r
  unfolding fold_binop_identity evaluate_binop
  folded-op_and src h e =
      ground (arith, and_zero a, zero_and b, and_mask 64 a, and_mask 64 b, and_comm a b)

  folded-op_or :
      (src : RuntimeOperand)
      → fold_binop_identity op_or lhs rhs ≡ some src
      → evaluate_binop op_or a b ≡ some r
      → operand_value environment src ≡ some r
  unfolding fold_binop_identity evaluate_binop
  folded-op_or src h e =
      ground (arith, or_zero a, zero_or b, or_comm a b, or_mask 64 a a_word, or_mask 64 b b_word)

  folded-op_xor :
      (src : RuntimeOperand)
      → fold_binop_identity op_xor lhs rhs ≡ some src
      → evaluate_binop op_xor a b ≡ some r
      → operand_value environment src ≡ some r
  unfolding fold_binop_identity evaluate_binop
  folded-op_xor src h e = ground (arith, xor_zero a, zero_xor b)

  folded-shl :
      (src : RuntimeOperand)
      → fold_binop_identity shl lhs rhs ≡ some src
      → evaluate_binop shl a b ≡ some r
      → operand_value environment src ≡ some r
  unfolding fold_binop_identity evaluate_binop shift_left
  folded-shl src h e = ground arith

  folded-shr_unsigned :
      (src : RuntimeOperand)
      → fold_binop_identity shr_unsigned lhs rhs ≡ some src
      → evaluate_binop shr_unsigned a b ≡ some r
      → operand_value environment src ≡ some r
  unfolding fold_binop_identity evaluate_binop shift_right
  folded-shr_unsigned src h e = ground arith

  folded-shr_signed :
      (src : RuntimeOperand)
      → fold_binop_identity shr_signed lhs rhs ≡ some src
      → evaluate_binop shr_signed a b ≡ some r
      → operand_value environment src ≡ some r
  unfolding fold_binop_identity evaluate_binop shift_right_signed complement shift_right
  folded-shr_signed src h e = ground arith

  -- For operands that are words, an operand that stands for an operation has its value, where the
  -- operation has one.
  pub fold_binop_identity_lem :
      (op : RuntimeBinOp) (src : RuntimeOperand)
      → fold_binop_identity op lhs rhs ≡ some src
      → evaluate_binop op a b ≡ some r
      → operand_value environment src ≡ some r
  fold_binop_identity_lem add src h e = folded-add src h e
  fold_binop_identity_lem sub src h e = folded-sub src h e
  fold_binop_identity_lem mul src h e = folded-mul src h e
  fold_binop_identity_lem div_unsigned src h e = folded-div_unsigned src h e
  fold_binop_identity_lem div_signed src h e = folded-div_signed src h e
  fold_binop_identity_lem mod_unsigned src h e = folded-mod_unsigned src h e
  fold_binop_identity_lem mod_signed src h e = folded-mod_signed src h e
  fold_binop_identity_lem op_and src h e = folded-op_and src h e
  fold_binop_identity_lem op_or src h e = folded-op_or src h e
  fold_binop_identity_lem op_xor src h e = folded-op_xor src h e
  fold_binop_identity_lem shl src h e = folded-shl src h e
  fold_binop_identity_lem shr_unsigned src h e = folded-shr_unsigned src h e
  fold_binop_identity_lem shr_signed src h e = folded-shr_signed src h e
