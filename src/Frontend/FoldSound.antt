-- ===== src/Frontend/FoldSound.antt =====
-- src/frontend/optimizer.rs: a folded instruction computes what the instruction does.
use mathlib.Core.Path.{subst}
use aziky.Prelude.{
  ℕ, ◌<◌, ◌≡◌, ◌≢◌, refl, sym, ap, arith, true, Option, none, some, All, length, get_elem?-lt,
  Returns, Returns-bind, bind-some, ◌>>=◌, ◌∙◌, inl, inr, Bool-cases, Option-cases, ==_iff,
}
use aziky.Ir.{
  IsWord, RuntimeOperand, slot, imm, RuntimeBinOp, add, sub, mul, div_unsigned, div_signed,
  mod_unsigned, mod_signed, op_and, op_or, op_xor, shl, shr_unsigned, shr_signed, RuntimeFloatBinOp,
  RuntimeCmpOp, RuntimeInstr, mov, bin_op, bin_op_in_place, cmp,
}
use aziky.Lir.Slots.{write_slots}
use aziky.Word.{checked_rem_signed}
use aziky.Superopt.Evaluate.{
  as_word, Environment, operand_value, evaluate_binop, evaluate_cmp, evaluate_pure_instruction,
}
use aziky.Superopt.Soundness.{InstrFits}
use aziky.Superopt.Verify.{insert}
use aziky.Superopt.Execute.{Frame, operand-value}
use aziky.Frontend.Eval.{
  eval_runtime_binop, const_at, fold_operand_const, fold_binop_in_place_is_nop, fold_binop_identity,
}
use aziky.Frontend.EvalSound.{
  eval_runtime_binop-returns, eval_runtime_binop-panics, eval_runtime_cmp_lem,
  fold_binop_identity_lem,
}
use aziky.Frontend.Fold.{
  Consts, store, Folded, keep, keep_unknown, keep_value, eval_known, fold_by_identity,
  fold_evaluated, fold_bin_op, fold_in_place_evaluated, fold_bin_op_in_place, fold_mov, is_slot,
  fold_cmp, fold_compared, fold_runtime_instr,
}
use aziky.Frontend.Known.{
  Right, Known, operand_const_value-Right, fold_operand_const-value, store-Right, insert_held,
}

-- An operation in place that is dropped is one whose identity is its slot.
nop-identity :
    (op : RuntimeBinOp) (d : ℕ) (rhs : RuntimeOperand)
    → fold_binop_in_place_is_nop op rhs ≡ true
    → fold_binop_identity op (slot d) rhs ≡ some (slot d)
unfolding fold_binop_in_place_is_nop fold_binop_identity
nop-identity add d (imm value) h = ground arith
nop-identity sub d (imm value) h = ground arith
nop-identity mul d (imm value) h = ground arith
nop-identity div_unsigned d (imm value) h = ground arith
nop-identity div_signed d (imm value) h = ground arith
nop-identity mod_unsigned d (imm value) h = ground arith
nop-identity mod_signed d (imm value) h = ground arith
nop-identity op_and d (imm value) h = ground arith
nop-identity op_or d (imm value) h = ground arith
nop-identity op_xor d (imm value) h = ground arith
nop-identity shl d (imm value) h = ground arith
nop-identity shr_unsigned d (imm value) h = ground arith
nop-identity shr_signed d (imm value) h = ground arith
nop-identity _ d (slot s) h = absurd (cc)

-- What is left of an instruction, run.
abbrev pub run_folded : Option RuntimeInstr → Environment → Option Environment
run_folded none environment = some environment
run_folded (some instr) environment = do
  (d, v) ← evaluate_pure_instruction instr environment
  some (insert d v environment)

-- Folding left what writes the value to the slot, and a table that is right about the new frame.
abbrev pub Writes : Environment → ℕ → ℕ → ℕ → Folded → Type 0
Writes environment d v n (next, cs') =
    (run_folded next environment ≡ some (insert d v environment))
    × Right cs' (insert d v environment)
    × (length cs' ≡ n)

module _ (const_slots : Consts) (environment : Environment) (d v : ℕ)
    (in_table : d < length const_slots) (right : Right const_slots environment) where
  abbrev Fine : Option Folded → Type 0
  Fine folded = Returns folded (Writes environment d v (length const_slots))

  keep-Writes :
      (instr : RuntimeInstr) (known : Option ℕ)
      → evaluate_pure_instruction instr environment ≡ some (d, v)
      → Known known v
      → Fine (store const_slots d known >>= (λ cs'. keep instr cs'))
  keep-Writes instr known e k =
      Returns-bind (store const_slots d known) _ _ _
        (store-Right const_slots environment d v known in_table right k)
        (λ cs' (r, l). (rw e refl, r, l))

  keep_unknown-Writes :
      (instr : RuntimeInstr)
      → evaluate_pure_instruction instr environment ≡ some (d, v)
      → Fine (keep_unknown d instr const_slots)
  keep_unknown-Writes instr e = keep-Writes instr none e (λ w h. absurd (cc))

  keep_value-Writes : (w : ℕ) → w ≡ v → Fine (keep_value d w const_slots)
  unfolding evaluate_pure_instruction
  keep_value-Writes w e = keep-Writes (mov d (imm w)) (some w) (cc) (λ u h. cc)

  dropped-Writes : environment d ≡ some v → Fine (some (none, const_slots))
  dropped-Writes h =
      let same = insert_held environment d v h in
      (ap some same, subst (Right const_slots) same right, refl)

  eval_known-Known :
      (op : RuntimeBinOp) (a b : ℕ) (known_a known_b : Option ℕ)
      → Known known_a a
      → Known known_b b
      → evaluate_binop op a b ≡ some v
      → Returns (eval_known op known_a known_b) (λ evaluated. Known evaluated v)
  unfolding evaluate_binop checked_rem_signed
  eval_known-Known op a b (some l) (some r) k m h =
      elim (Option-cases (eval_runtime_binop op l r)) [
        | inl panics ↦ absurd (no_panic panics)
        | inr (result, returns) ↦
            rw returns
              (λ w e. cc (eval_runtime_binop-returns op l r result returns, k l refl, m r refl))
      ]
    where
      no_panic : eval_runtime_binop op l r ≢ none
      no_panic e =
          let (signed, least, minus_one) = (eval_runtime_binop-panics op l r).0 e in
          ground (arith, k l refl, m r refl)
  eval_known-Known op a b (some l) none k m h = λ w e. cc
  eval_known-Known op a b none _ k m h = λ w e. cc

  mov-Writes :
      (src : RuntimeOperand)
      → operand_value environment src ≡ some v
      → Fine (fold_mov d src const_slots)
  unfolding fold_mov evaluate_pure_instruction
  mov-Writes src h = elim (Bool-cases (is_slot src d)) [
    | inl itself ↦ rw itself (dropped-Writes (held src itself h))
    | inr other ↦ rw other (
        keep-Writes (mov d src) _ (rw h refl)
          (operand_const_value-Right const_slots environment src v right h))
  ]
    where
      held :
          (o : RuntimeOperand)
          → is_slot o d ≡ true
          → operand_value environment o ≡ some v
          → environment d ≡ some v
      held (slot s) e h = ap environment (sym ((==_iff s d).0 e)) ∙ h
      held (imm w) e h = cc

  module _ (op : RuntimeBinOp) (lhs rhs : RuntimeOperand) (a b : ℕ)
      (read_lhs : operand_value environment lhs ≡ some a)
      (read_rhs : operand_value environment rhs ≡ some b) (a_word : IsWord a) (b_word : IsWord b)
      (value : evaluate_binop op a b ≡ some v) where
    evaluated-bin_op : evaluate_pure_instruction (bin_op d op lhs rhs) environment ≡ some (d, v)
    unfolding evaluate_pure_instruction
    evaluated-bin_op = rw (read_lhs, read_rhs, value) refl

    by_identity-Writes :
        (identity : Option RuntimeOperand)
        → fold_binop_identity op lhs rhs ≡ identity
        → Fine (fold_by_identity const_slots d op lhs rhs identity)
    unfolding evaluate_pure_instruction
    by_identity-Writes none e = keep_unknown-Writes (bin_op d op lhs rhs) evaluated-bin_op
    by_identity-Writes (some src) e =
        let held =
          fold_binop_identity_lem environment lhs rhs a b v read_lhs read_rhs a_word b_word op src e
            value in
        keep-Writes (mov d src) _ (rw held refl)
          (operand_const_value-Right const_slots environment src v right held)

    evaluated-Writes :
        (evaluated : Option ℕ)
        → Known evaluated v
        → Fine (fold_evaluated const_slots d op lhs rhs evaluated)
    evaluated-Writes none k = by_identity-Writes _ refl
    evaluated-Writes (some w) k = keep_value-Writes w (k w refl)

    bin_op-Writes : Fine (fold_bin_op d op lhs rhs const_slots)
    unfolding fold_bin_op
    bin_op-Writes =
        Returns-bind (eval_known op _ _) _ _ _
          (eval_known-Known op a b _ _
            (operand_const_value-Right const_slots environment lhs a right read_lhs)
            (operand_const_value-Right const_slots environment rhs b right read_rhs) value)
          evaluated-Writes

  module _ (op : RuntimeBinOp) (rhs : RuntimeOperand) (a b : ℕ) (read_slot : environment d ≡ some a)
      (read_rhs : operand_value environment rhs ≡ some b) (a_word : IsWord a) (b_word : IsWord b)
      (value : evaluate_binop op a b ≡ some v) where
    evaluated-in_place :
        evaluate_pure_instruction (bin_op_in_place d op rhs) environment ≡ some (d, v)
    unfolding evaluate_pure_instruction
    evaluated-in_place = rw (read_slot, read_rhs, value) refl

    in_place_evaluated-Writes :
        (evaluated : Option ℕ)
        → Known evaluated v
        → Fine (fold_in_place_evaluated const_slots d op rhs evaluated)
    in_place_evaluated-Writes none k =
        keep_unknown-Writes (bin_op_in_place d op rhs) evaluated-in_place
    in_place_evaluated-Writes (some w) k = keep_value-Writes w (k w refl)

    in_place-Writes : Fine (fold_bin_op_in_place d op rhs const_slots)
    unfolding fold_bin_op_in_place
    in_place-Writes =
        let (known, found) = get_elem?-lt const_slots d in_table in
        elim (Bool-cases (fold_binop_in_place_is_nop op rhs)) [
          | inl nop ↦ rw nop (
              dropped-Writes (
                fold_binop_identity_lem environment (slot d) rhs a b v read_slot read_rhs a_word
                  b_word op (slot d) (nop-identity op d rhs nop) value))
          | inr kept ↦
              rw (kept, found)
                (Returns-bind (eval_known op _ _) _ _ _
                  (eval_known-Known op a b known _ (λ w e. at_slot w (rw (found, const_at, e) refl))
                    (operand_const_value-Right const_slots environment rhs b right read_rhs) value)
                  in_place_evaluated-Writes)
        ]
      where
        at_slot : Known (const_at const_slots d) a
        at_slot w e = cc (right d w e)

  cmp-Writes :
      (op : RuntimeCmpOp) (lhs rhs : RuntimeOperand) (a b : ℕ)
      → operand_value environment lhs ≡ some a
      → operand_value environment rhs ≡ some b
      → v ≡ as_word (evaluate_cmp op a b)
      → Fine (fold_cmp d op lhs rhs const_slots)
  unfolding fold_cmp evaluate_pure_instruction
  cmp-Writes op lhs rhs a b read_lhs read_rhs value =
      compared _ _ (operand_const_value-Right const_slots environment lhs a right read_lhs)
        (operand_const_value-Right const_slots environment rhs b right read_rhs)
    where
      evaluated : evaluate_pure_instruction (cmp d op lhs rhs) environment ≡ some (d, v)
      evaluated = rw (read_lhs, read_rhs, value) refl

      compared :
          (known_a known_b : Option ℕ)
          → Known known_a a
          → Known known_b b
          → Fine (fold_compared d (cmp d op lhs rhs) op known_a known_b const_slots)
      compared (some l) (some r) k m =
          keep_value-Writes _ (cc (eval_runtime_cmp_lem op l r, k l refl, m r refl))
      compared (some l) none k m = keep_unknown-Writes _ evaluated
      compared none _ k m = keep_unknown-Writes _ evaluated

module _ (float_op : ℕ → RuntimeFloatBinOp → ℕ → ℕ → ℕ) where
  -- For an instruction of words that evaluates on a frame of words, writes a slot of the table and has
  -- a table that is right about the frame: folding returns, leaves what writes the same value to the
  -- same slot, and a table of the same length that is right about the new frame.
  pub fold_runtime_instr_lem :
      (instr : RuntimeInstr) (const_slots : Consts) (environment : Environment) (d v : ℕ)
      → InstrFits instr
      → Frame environment
      → Right const_slots environment
      → All (λ s. s < length const_slots) (write_slots instr)
      → evaluate_pure_instruction instr environment ≡ some (d, v)
      → Returns
          (fold_runtime_instr float_op instr const_slots)
          (Writes environment d v (length const_slots))
  unfolding fold_runtime_instr evaluate_pure_instruction write_slots
  fold_runtime_instr_lem (mov dst src) cs environment d v fits frame right (small, _) h =
      let (a, p, wa) = operand-value environment frame src fits in
      let written = rw p at h in
      let same : d ≡ dst = cc in
      let value : v ≡ a = cc in
      rw (same, value)
        (mov-Writes cs environment dst a small right (fold_operand_const src cs)
          (fold_operand_const-value cs environment src right ∙ p))
  fold_runtime_instr_lem (bin_op dst op lhs rhs) cs environment d v (fl, fr) frame right (small, _)
        h =
      let (a, p, wa) = operand-value environment frame lhs fl in
      let (b, q, wb) = operand-value environment frame rhs fr in
      let (w, value, written) = bind-some (evaluate_binop op a b) _ _ (rw (p, q) at h) in
      let same : d ≡ dst = cc in
      let result : v ≡ w = cc in
      rw (same, result)
        (bin_op-Writes cs environment dst w small right op (fold_operand_const lhs cs)
          (fold_operand_const rhs cs) a b (fold_operand_const-value cs environment lhs right ∙ p)
          (fold_operand_const-value cs environment rhs right ∙ q) wa wb value)
  fold_runtime_instr_lem (bin_op_in_place dst op rhs) cs environment d v fits frame right (small, _)
        h =
      let (a, p, wa) = frame dst in
      let (b, q, wb) = operand-value environment frame rhs fits in
      let (w, value, written) = bind-some (evaluate_binop op a b) _ _ (rw (p, q) at h) in
      let same : d ≡ dst = cc in
      let result : v ≡ w = cc in
      rw (same, result)
        (in_place-Writes cs environment dst w small right op (fold_operand_const rhs cs) a b p
          (fold_operand_const-value cs environment rhs right ∙ q) wa wb value)
  fold_runtime_instr_lem (cmp dst op lhs rhs) cs environment d v (fl, fr) frame right (small, _) h =
      let (a, p, wa) = operand-value environment frame lhs fl in
      let (b, q, wb) = operand-value environment frame rhs fr in
      let written = rw (p, q) at h in
      let same : d ≡ dst = cc in
      rw same (
        cmp-Writes cs environment dst v small right op (fold_operand_const lhs cs)
          (fold_operand_const rhs cs) a b (fold_operand_const-value cs environment lhs right ∙ p)
          (fold_operand_const-value cs environment rhs right ∙ q) (cc))
  fold_runtime_instr_lem _ cs environment d v fits frame right small h = absurd (cc)
