-- ===== src/Superopt/Identities.antt =====
-- src/backend/optimizer.rs: each algebraic identity and each strength reduction computes the value
-- of the operation that it replaces.
use native.Mathlib.Nat.{one-le-pow}
use aziky.Prelude.{ℕ, ◌-◌, ◌^◌, ◌≡◌, refl, ap, arith, true, some, ==_iff, sym, ◌∙◌, bit_and}
use aziky.Prelude.Bits.{
  and_comm, or_comm, xor_comm, and_self, or_self, xor_self, zero_and, zero_or, zero_xor, and_zero,
  or_zero, xor_zero, and_mask,
}
use aziky.Ir.{
  IsWord, RuntimeOperand, slot, imm, RuntimeBinOp, add, sub, mul, div_unsigned, mod_unsigned,
  op_and, op_or, op_xor, shl, shr_unsigned, shr_signed,
}
use aziky.Word.{
  wrapping_add, wrapping_sub, wrapping_mul, shift_left, shift_right, checked_div, checked_rem,
  shift_right_signed, trailing_zeros, is_power_of_two, complement,
}
use aziky.Word.Laws.{is_power_of_two_lem}
use aziky.Superopt.Evaluate.{evaluate_binop, Environment, operand_value}
use aziky.Superopt.Rewrite.{
  operands_equal, is_imm, algebraic_identity_replacement, reduction_matches, is_commutative,
}

is_imm→eq : (n : ℕ) (o : RuntimeOperand) → is_imm n o ≡ true → o ≡ imm n
is_imm→eq n o h = ground arith

pub operands_equal→eq : (l r : RuntimeOperand) → operands_equal l r ≡ true → l ≡ r
unfolding operands_equal
operands_equal→eq (slot a) (slot b) h = ground arith
operands_equal→eq (imm a) (imm b) h = ground arith
operands_equal→eq (slot a) (imm b) h = cc
operands_equal→eq (imm a) (slot b) h = cc

module _ (environment : Environment) (lhs rhs : RuntimeOperand) (a b : ℕ)
    (read_lhs : operand_value environment lhs ≡ some a)
    (read_rhs : operand_value environment rhs ≡ some b) (a_word : IsWord a)
    (b_word : IsWord b) where
  identity-add :
      (src : RuntimeOperand)
      → algebraic_identity_replacement add lhs rhs ≡ some src
      → operand_value environment src ≡ evaluate_binop add a b
  unfolding algebraic_identity_replacement evaluate_binop wrapping_add
  identity-add src h = ground (arith)

  identity-sub :
      (src : RuntimeOperand)
      → algebraic_identity_replacement sub lhs rhs ≡ some src
      → operand_value environment src ≡ evaluate_binop sub a b
  unfolding algebraic_identity_replacement evaluate_binop wrapping_sub
  identity-sub src h = ground (arith, operands_equal→eq lhs rhs)

  identity-mul :
      (src : RuntimeOperand)
      → algebraic_identity_replacement mul lhs rhs ≡ some src
      → operand_value environment src ≡ evaluate_binop mul a b
  unfolding algebraic_identity_replacement evaluate_binop wrapping_mul
  identity-mul src h = ground (arith)

  identity-op_and :
      (src : RuntimeOperand)
      → algebraic_identity_replacement op_and lhs rhs ≡ some src
      → operand_value environment src ≡ evaluate_binop op_and a b
  unfolding algebraic_identity_replacement evaluate_binop
  identity-op_and src h = ground (
    arith,
    and_zero a,
    zero_and b,
    and_self a,
    and_mask 64 a,
    and_mask 64 b,
    and_comm a b,
    operands_equal→eq lhs rhs,
  )

  identity-op_or :
      (src : RuntimeOperand)
      → algebraic_identity_replacement op_or lhs rhs ≡ some src
      → operand_value environment src ≡ evaluate_binop op_or a b
  unfolding algebraic_identity_replacement evaluate_binop
  identity-op_or src h = ground (arith, or_zero a, zero_or b, or_self a, operands_equal→eq lhs rhs)

  identity-op_xor :
      (src : RuntimeOperand)
      → algebraic_identity_replacement op_xor lhs rhs ≡ some src
      → operand_value environment src ≡ evaluate_binop op_xor a b
  unfolding algebraic_identity_replacement evaluate_binop
  identity-op_xor src h =
      ground (arith, xor_zero a, zero_xor b, xor_self a, operands_equal→eq lhs rhs)

  identity-shl :
      (src : RuntimeOperand)
      → algebraic_identity_replacement shl lhs rhs ≡ some src
      → operand_value environment src ≡ evaluate_binop shl a b
  unfolding algebraic_identity_replacement evaluate_binop shift_left
  identity-shl src h = ground (arith, zero_and 63)

  identity-shr_unsigned :
      (src : RuntimeOperand)
      → algebraic_identity_replacement shr_unsigned lhs rhs ≡ some src
      → operand_value environment src ≡ evaluate_binop shr_unsigned a b
  unfolding algebraic_identity_replacement evaluate_binop shift_right
  identity-shr_unsigned src h = ground (arith, zero_and 63)

  identity-shr_signed :
      (src : RuntimeOperand)
      → algebraic_identity_replacement shr_signed lhs rhs ≡ some src
      → operand_value environment src ≡ evaluate_binop shr_signed a b
  unfolding algebraic_identity_replacement evaluate_binop shift_right_signed complement shift_right
  identity-shr_signed src h = ground (arith, zero_and 63)

  -- The replacement has the value of the operation, whatever the operation is.
  pub identity_sound :
      (op : RuntimeBinOp) (src : RuntimeOperand)
      → algebraic_identity_replacement op lhs rhs ≡ some src
      → operand_value environment src ≡ evaluate_binop op a b
  unfolding algebraic_identity_replacement
  identity_sound add src h = identity-add src h
  identity_sound sub src h = identity-sub src h
  identity_sound mul src h = identity-mul src h
  identity_sound op_and src h = identity-op_and src h
  identity_sound op_or src h = identity-op_or src h
  identity_sound op_xor src h = identity-op_xor src h
  identity_sound shl src h = identity-shl src h
  identity_sound shr_unsigned src h = identity-shr_unsigned src h
  identity_sound shr_signed src h = identity-shr_signed src h
  identity_sound _ src h = cc

-- A shift count that is the trailing zeros of a word passes the mask of the shifts unchanged.
shift_count :
    (constant k : ℕ)
    → IsWord constant
    → is_power_of_two constant ≡ true
    → k ≡ trailing_zeros 64 constant
    → (bit_and k 63 ≡ k) × (constant ≡ 2 ^ k)
shift_count constant k w p e =
    let (power, small) = is_power_of_two_lem constant w p in
    (omega (arith, and_mask 6 k), power ∙ ap (λ t. 2 ^ t) (sym e))

remainder_mask :
    (a constant k t : ℕ)
    → constant ≡ 2 ^ t
    → k ≡ constant - 1
    → some (bit_and a k) ≡ checked_rem a constant
unfolding checked_rem
remainder_mask a constant k t power mask =
    rw (mask, power, and_mask t a) (ground (arith, one-le-pow t 2))

-- Multiplication, division and remainder by a power of two are a shift or a mask.
pub reduction_sound :
    (op op' : RuntimeBinOp) (a constant : ℕ) (src : RuntimeOperand)
    → IsWord constant
    → is_power_of_two constant ≡ true
    → reduction_matches op constant op' src ≡ true
    → (k : ℕ) × (src ≡ imm k) × (evaluate_binop op' a k ≡ evaluate_binop op a constant)
unfolding reduction_matches evaluate_binop shift_left wrapping_mul shift_right checked_div
    checked_rem
reduction_sound mul shl a constant (imm k) w p h =
    let (count, power) = shift_count constant k w p ((==_iff k _).0 h) in
    (k, refl, rw (count, power))
reduction_sound div_unsigned shr_unsigned a constant (imm k) w p h =
    let (count, power) = shift_count constant k w p ((==_iff k _).0 h) in
    (k, refl, rw (count, power) (ground (arith, one-le-pow k 2)))
reduction_sound mod_unsigned op_and a constant (imm k) w p h = (
  k,
  refl,
  remainder_mask a constant k _ (is_power_of_two_lem constant w p).0
      (omega (arith, (==_iff k _).0 h)),
)
reduction_sound _ _ a constant src w p h = absurd (cc)

-- The operands of a commutative operation may be exchanged.
pub commutation_sound :
    (op : RuntimeBinOp) (a b : ℕ)
    → is_commutative op ≡ true
    → evaluate_binop op a b ≡ evaluate_binop op b a
unfolding is_commutative evaluate_binop wrapping_add wrapping_mul
commutation_sound add a b h = ground arith
commutation_sound mul a b h = ground arith
commutation_sound op_and a b h = ap some (and_comm a b)
commutation_sound op_or a b h = ap some (or_comm a b)
commutation_sound op_xor a b h = ap some (xor_comm a b)
commutation_sound _ a b h = cc
