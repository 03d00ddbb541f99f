-- ===== src/Superopt/Soundness.antt =====
-- src/backend/optimizer.rs: a rewrite that `has_exact_rewrite_proof` accepts computes the same
-- values.
use aziky.Prelude.{
  ℕ, ◌≡◌, refl, ap, sym, arith, true, Option, none, some, All, All-split, ◌==◌, ==_iff, and-true,
  inl, inr, Bool-cases,
}
use mathlib.Core.Path.{subst}
use aziky.Ir.{
  IsWord, RuntimeOperand, slot, imm, RuntimeBinOp, RuntimeCmpOp, eq, RuntimeInstr, mov, bin_op,
  bin_op_in_place, cmp, same_op→eq,
}
use aziky.Lir.Slots.{operand_slots, read_slots}
use aziky.Word.{lt_signed_word, le_signed_word}
use aziky.Superopt.Evaluate.{
  evaluate_binop, evaluate_cmp, as_word, Environment, operand_value, evaluate_pure_instruction,
}
use aziky.Superopt.Rewrite.{
  algebraic_identity_replacement, move_justified, is_replacement, is_value, holds_of_itself,
  comparison_justified, is_reducible, reduction_justified, commutation_justified,
  operation_justified, has_exact_rewrite_proof,
}
use aziky.Superopt.Identities.{
  identity_sound, reduction_sound, commutation_sound, operands_equal→eq,
}

-- The immediates of an instruction are `u64`, as the source's type says.
abbrev pub OperandFits : RuntimeOperand → Type 0
OperandFits (imm value) = IsWord value
OperandFits (slot _) = Unit

abbrev pub InstrFits : RuntimeInstr → Type 0
InstrFits (mov _ src) = OperandFits src
InstrFits (bin_op _ _ lhs rhs) = OperandFits lhs × OperandFits rhs
InstrFits (bin_op_in_place _ _ rhs) = OperandFits rhs
InstrFits (cmp _ _ lhs rhs) = OperandFits lhs × OperandFits rhs
InstrFits _ = Unit

-- A slot holds a word.
abbrev pub Holds : Environment → ℕ → Type 0
Holds environment s = (v : ℕ) × (environment s ≡ some v) × IsWord v

-- Every slot that the instruction reads holds a word.
abbrev pub Readable : Environment → RuntimeInstr → Type 0
Readable environment instr = All (Holds environment) (read_slots instr)

abbrev pub HasValue : Environment → RuntimeOperand → Type 0
HasValue environment o = (v : ℕ) × (operand_value environment o ≡ some v) × IsWord v

pub operand-HasValue :
    (environment : Environment) (o : RuntimeOperand)
    → OperandFits o
    → All (Holds environment) (operand_slots o)
    → HasValue environment o
operand-HasValue environment (slot s) fits (h, _) = h
operand-HasValue environment (imm v) fits h = (v, refl, fits)

is_value→eq : (v : ℕ) (o : Option ℕ) → is_value v o ≡ true → o ≡ some v
is_value→eq v none h = cc
is_value→eq v (some w) h = ap some ((==_iff w v).0 h)

module _ (environment : Environment) where
  replacement_sound :
      (op : RuntimeBinOp) (lhs rhs src : RuntimeOperand) (a b : ℕ)
      → operand_value environment lhs ≡ some a
      → operand_value environment rhs ≡ some b
      → IsWord a
      → IsWord b
      → (o : Option RuntimeOperand) → algebraic_identity_replacement op lhs rhs ≡ o
      → is_replacement src o ≡ true
      → operand_value environment src ≡ evaluate_binop op a b
  replacement_sound op lhs rhs src a b p q wa wb none e h = cc
  replacement_sound op lhs rhs src a b p q wa wb (some r) e h =
      rw (← operands_equal→eq r src h) (identity_sound environment lhs rhs a b p q wa wb op r e)

  move_sound :
      (op : RuntimeBinOp) (lhs rhs src : RuntimeOperand) (a b : ℕ)
      → operand_value environment lhs ≡ some a
      → operand_value environment rhs ≡ some b
      → IsWord a
      → IsWord b
      → move_justified op lhs rhs src ≡ true
      → operand_value environment src ≡ evaluate_binop op a b
  unfolding move_justified
  move_sound op (imm l) (imm r) (imm v) a b p q wa wb h =
      cc (is_value→eq v (evaluate_binop op l r) h)
  move_sound op lhs rhs src a b p q wa wb h =
      replacement_sound op lhs rhs src a b p q wa wb _ refl h

  -- The operands of the new operation have values, and the two operations agree on them.
  abbrev Computes : RuntimeBinOp → RuntimeOperand → RuntimeOperand → Option ℕ → Type 0
  Computes op lhs rhs result =
      (a : ℕ) × (b : ℕ) × (operand_value environment lhs ≡ some a)
      × (operand_value environment rhs ≡ some b)
      × (evaluate_binop op a b ≡ result)

  reduction_case :
      (op op' : RuntimeBinOp) (lhs lhs' rhs' : RuntimeOperand) (a constant : ℕ)
      → operand_value environment lhs ≡ some a
      → IsWord constant
      → reduction_justified op lhs constant op' lhs' rhs' ≡ true
      → Computes op' lhs' rhs' (evaluate_binop op a constant)
  reduction_case op op' lhs lhs' rhs' a constant p fits h =
      let (front, matches) = and-true _ _ h in
      let (tests, power) = and-true _ _ front in
      let (same, _) = and-true _ _ tests in
      let (k, is_k, equal) = reduction_sound op op' a constant rhs' fits power matches in
      (a, k, rw (← operands_equal→eq lhs lhs' same) p, ap (operand_value environment) is_k, equal)

  commutation_case :
      (op op' : RuntimeBinOp) (lhs rhs lhs' rhs' : RuntimeOperand) (a b : ℕ)
      → operand_value environment lhs ≡ some a
      → operand_value environment rhs ≡ some b
      → commutation_justified op lhs rhs op' lhs' rhs' ≡ true
      → Computes op' lhs' rhs' (evaluate_binop op a b)
  commutation_case op op' lhs rhs lhs' rhs' a b p q h =
      let (front, right) = and-true _ _ h in
      let (tests, left) = and-true _ _ front in
      let (same, commutes) = and-true _ _ tests in
      (
        b,
        a,
        rw (← operands_equal→eq rhs lhs' right) q,
        rw (← operands_equal→eq lhs rhs' left) p,
        rw (← same_op→eq op op' same) (sym (commutation_sound op a b commutes)),
      )

  operation_sound :
      (op op' : RuntimeBinOp) (lhs rhs lhs' rhs' : RuntimeOperand) (a b : ℕ)
      → operand_value environment lhs ≡ some a
      → operand_value environment rhs ≡ some b
      → OperandFits rhs
      → operation_justified op lhs rhs op' lhs' rhs' ≡ true
      → Computes op' lhs' rhs' (evaluate_binop op a b)
  unfolding operation_justified
  operation_sound op op' lhs (slot s) lhs' rhs' a b p q fits h =
      commutation_case op op' lhs (slot s) lhs' rhs' a b p q h
  operation_sound op op' lhs (imm constant) lhs' rhs' a b p q fits h =
      elim (Bool-cases (is_reducible op)) [
        | inl reducible ↦
            subst (λ t. Computes op' lhs' rhs' (evaluate_binop op a t)) (cc)
              (reduction_case op op' lhs lhs' rhs' a constant p fits (rw reducible at h))
        | inr other ↦ commutation_case op op' lhs (imm constant) lhs' rhs' a b p q (rw other at h)
      ]

evaluate_cmp_self : (op : RuntimeCmpOp) (a : ℕ) → evaluate_cmp op a a ≡ holds_of_itself op
unfolding evaluate_cmp holds_of_itself lt_signed_word le_signed_word
evaluate_cmp_self eq a = ground arith
evaluate_cmp_self _ a = ground arith

comparison_sound :
    (environment : Environment) (op : RuntimeCmpOp) (lhs rhs src : RuntimeOperand) (a b : ℕ)
    → operand_value environment lhs ≡ some a
    → operand_value environment rhs ≡ some b
    → comparison_justified op lhs rhs src ≡ true
    → operand_value environment src ≡ some (as_word (evaluate_cmp op a b))
unfolding comparison_justified
comparison_sound environment op (imm l) (imm r) (imm v) a b p q h =
    cc ((==_iff v (as_word (evaluate_cmp op l r))).0 h)
comparison_sound environment op (slot l) (slot r) (imm v) a b p q h =
    let (same, value) = and-true (l == r) (v == as_word (holds_of_itself op)) h in
    cc ((==_iff l r).0 same, (==_iff v _).0 value, evaluate_cmp_self op a)
comparison_sound environment op _ _ _ a b p q h = absurd (cc)

-- An accepted rewrite of an instruction whose slots hold words gives the same slot and the same
-- value as the instruction, and fails exactly when it does.
pub rewrite_sound :
    (original candidate : RuntimeInstr) (environment : Environment)
    → InstrFits original
    → Readable environment original
    → has_exact_rewrite_proof original candidate ≡ true
    → evaluate_pure_instruction candidate environment
      ≡ evaluate_pure_instruction original environment
unfolding has_exact_rewrite_proof evaluate_pure_instruction read_slots
rewrite_sound (bin_op d op lhs rhs) (mov d' src) environment (fl, fr) readable h =
    let (ra, rb) = All-split (Holds environment) (operand_slots lhs) (operand_slots rhs) readable in
    let (a, p, wa) = operand-HasValue environment lhs fl ra in
    let (b, q, wb) = operand-HasValue environment rhs fr rb in
    let (same, justified) = and-true _ _ h in
    rw (p, q, move_sound environment op lhs rhs src a b p q wa wb justified, (==_iff d d').0 same)
rewrite_sound (bin_op_in_place d op rhs) (mov d' src) environment fits (held, readable) h =
    let (a, p, wa) = held in
    let (b, q, wb) = operand-HasValue environment rhs fits readable in
    let (same, justified) = and-true _ _ h in
    let equal : operand_value environment src ≡ evaluate_binop op a b =
      replacement_sound environment op (slot d) rhs src a b p q wa wb _ refl justified in
    rw (p, q, equal, (==_iff d d').0 same)
rewrite_sound (cmp d op lhs rhs) (mov d' src) environment (fl, fr) readable h =
    let (ra, rb) = All-split (Holds environment) (operand_slots lhs) (operand_slots rhs) readable in
    let (a, p, wa) = operand-HasValue environment lhs fl ra in
    let (b, q, wb) = operand-HasValue environment rhs fr rb in
    let (same, justified) = and-true _ _ h in
    rw (p, q, comparison_sound environment op lhs rhs src a b p q justified, (==_iff d d').0 same)
rewrite_sound (bin_op d op lhs rhs) (bin_op d' op' lhs' rhs') environment (fl, fr) readable h =
    let (ra, rb) = All-split (Holds environment) (operand_slots lhs) (operand_slots rhs) readable in
    let (a, p, wa) = operand-HasValue environment lhs fl ra in
    let (b, q, wb) = operand-HasValue environment rhs fr rb in
    let (same, justified) = and-true _ _ h in
    let (a', b', p', q', equal) =
      operation_sound environment op op' lhs rhs lhs' rhs' a b p q fr justified in
    rw (p, q, p', q', equal, (==_iff d d').0 same)
rewrite_sound _ _ environment fits readable h = absurd (cc)
