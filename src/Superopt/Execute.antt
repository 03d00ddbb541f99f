-- ===== src/Superopt/Execute.antt =====
-- src/backend/optimizer.rs: the superoptimizer keeps what straight-line code computes.
use aziky.Prelude.{
  ◌>>=◌, ℕ, ◌+◌, ◌≡◌, refl, arith, Bool, true, false, Option, none, some, List, [], ◌∷◌, All,
  if◌then◌else◌, and-true, inl, inr, Bool-cases, ◌==◌, bit_and,
}
use aziky.Prelude.Bits.{bitwise-lt}
use aziky.Ir.{
  IsWord, RuntimeOperand, RuntimeInstr, RuntimeBinOp, add, sub, mul, div_unsigned, div_signed,
  mod_unsigned, mod_signed, op_and, op_or, op_xor, shl, shr_unsigned, shr_signed, mov, bin_op,
  bin_op_in_place, cmp, RuntimeProgram,
}
use aziky.Lir.Slots.{operand_slots, read_slots}
use aziky.Word.{wrapping_add, wrapping_sub, wrapping_mul, shift_left}
use aziky.Word.Laws.{
  checked_div-lt, checked_rem-lt, checked_div_signed-lt, checked_rem_signed-lt, shift_right-le,
  shift_right_signed-lt,
}
use aziky.Superopt.Evaluate.{
  as_word, Environment, evaluate_pure_instruction, evaluate_binop, evaluate_cmp,
}
use aziky.Superopt.Rewrite.{enumerate_candidates, has_exact_rewrite_proof}
use aziky.Superopt.Soundness.{
  OperandFits, HasValue, operand-HasValue, InstrFits, Holds, Readable, rewrite_sound,
}
use aziky.Superopt.Verify.{insert, verify_candidate}
use aziky.Superopt.Run.{
  best_of, comes_before, is_admissible, superoptimize_instruction, superoptimize_from,
  run_verified_superoptimizer, OptimizationReport, smaller, chosen, fusion_sensitive,
}

verify_candidate→exact :
    (original candidate : RuntimeInstr)
    → verify_candidate original candidate ≡ true
    → has_exact_rewrite_proof original candidate ≡ true
unfolding verify_candidate
verify_candidate→exact original candidate h =
    elim (Bool-cases (has_exact_rewrite_proof original candidate)) [
      | inl exact ↦ exact
      | inr refused ↦ cc (rw refused at h)
    ]

-- A replacement that is absent, or that the rewrite test accepts.
abbrev IsJustified : RuntimeInstr → Option RuntimeInstr → Type 0
IsJustified instr none = Unit
IsJustified instr (some candidate) = has_exact_rewrite_proof instr candidate ≡ true

module _ (debug_lt : RuntimeInstr → RuntimeInstr → Bool) (atom : Bool) where
  smaller-IsJustified :
      (instr candidate : RuntimeInstr) (best : Option RuntimeInstr)
      → IsJustified instr (some candidate)
      → IsJustified instr best
      → IsJustified instr (smaller debug_lt atom candidate best)
  smaller-IsJustified instr candidate none j k = j
  smaller-IsJustified instr candidate (some best) j k =
      elim (comes_before debug_lt atom candidate best)
        as (λ b. IsJustified instr (if b then some candidate else some best)) [
          | true ↦ j
          | false ↦ k
        ]

  best_of-IsJustified :
      (instr : RuntimeInstr) (candidates : List RuntimeInstr) (best : Option RuntimeInstr)
      → IsJustified instr best
      → IsJustified instr (best_of debug_lt atom instr candidates best)
  unfolding best_of
  best_of-IsJustified instr [] best j = j
  best_of-IsJustified instr (candidate ∷ rest) best j =
      elim (Bool-cases (is_admissible debug_lt atom instr candidate)) [
        | inl admitted ↦ rw admitted (
            best_of-IsJustified instr rest _ (
              smaller-IsJustified instr candidate best
                (verify_candidate→exact instr candidate (and-true _ _ admitted).0) j))
        | inr refused ↦ rw refused (best_of-IsJustified instr rest best j)
      ]

  chosen_sound :
      (instr : RuntimeInstr) (best : Option RuntimeInstr) (environment : Environment)
      → InstrFits instr
      → Readable environment instr
      → IsJustified instr best
      → evaluate_pure_instruction (chosen debug_lt atom instr best).0 environment
        ≡ evaluate_pure_instruction instr environment
  chosen_sound instr none environment fits readable j = refl
  chosen_sound instr (some candidate) environment fits readable j =
      rewrite_sound instr candidate environment fits readable j

  -- The instruction that the pass puts in place of one computes the same.
  superoptimize_instruction_sound :
      (instr : RuntimeInstr) (environment : Environment)
      → InstrFits instr
      → Readable environment instr
      → evaluate_pure_instruction (superoptimize_instruction debug_lt atom instr).0 environment
        ≡ evaluate_pure_instruction instr environment
  unfolding superoptimize_instruction
  superoptimize_instruction_sound instr environment fits readable =
      chosen_sound instr _ environment fits readable
        (best_of-IsJustified instr (enumerate_candidates instr) none tt)

pub evaluate_binop-IsWord :
    (op : RuntimeBinOp) (a b v : ℕ)
    → IsWord a
    → IsWord b
    → evaluate_binop op a b ≡ some v
    → IsWord v
unfolding evaluate_binop wrapping_add wrapping_sub wrapping_mul shift_left
evaluate_binop-IsWord add a b v p q h = ground arith
evaluate_binop-IsWord sub a b v p q h = ground arith
evaluate_binop-IsWord mul a b v p q h = ground arith
evaluate_binop-IsWord div_unsigned a b v p q h = checked_div-lt a b v p h
evaluate_binop-IsWord div_signed a b v p q h = checked_div_signed-lt a b v p h
evaluate_binop-IsWord mod_unsigned a b v p q h = checked_rem-lt a b v q h
evaluate_binop-IsWord mod_signed a b v p q h = checked_rem_signed-lt a b v p h
evaluate_binop-IsWord op_and a b v p q h = ground (arith, (bitwise-lt 64 a b p q).0)
evaluate_binop-IsWord op_or a b v p q h = ground (arith, (bitwise-lt 64 a b p q).1)
evaluate_binop-IsWord op_xor a b v p q h = ground (arith, (bitwise-lt 64 a b p q).2)
evaluate_binop-IsWord shl a b v p q h = ground arith
evaluate_binop-IsWord shr_unsigned a b v p q h = ground (arith, shift_right-le a (bit_and b 63))
evaluate_binop-IsWord shr_signed a b v p q h =
    ground (arith, shift_right_signed-lt a (bit_and b 63) p)

-- Every slot of the frame holds a word.
abbrev pub Frame : Environment → Type 0
Frame environment = (s : ℕ) → Holds environment s

pub insert-Frame :
    (environment : Environment) (s v : ℕ)
    → IsWord v
    → Frame environment
    → Frame (insert s v environment)
insert-Frame environment s v w frame t = elim (Bool-cases (s == t)) [
  | inl same ↦ rw same (v, refl, w)
  | inr other ↦ rw other (frame t)
]

pub Frame-Holds :
    (environment : Environment)
    → Frame environment
    → (slots : List ℕ) → All (Holds environment) slots
Frame-Holds environment frame [] = tt
Frame-Holds environment frame (s ∷ slots) = (frame s, Frame-Holds environment frame slots)

pub operand-value :
    (environment : Environment)
    → Frame environment
    → (o : RuntimeOperand) → OperandFits o
    → HasValue environment o
operand-value environment frame o fits =
    operand-HasValue environment o fits (Frame-Holds environment frame (operand_slots o))

as_word-IsWord : (b : Bool) → IsWord (as_word b)
as_word-IsWord true = omega arith
as_word-IsWord false = omega arith

written-IsWord :
    (op : RuntimeBinOp) (a b dst d v : ℕ)
    → IsWord a
    → IsWord b
    → ◌>>=◌ {B = ℕ × ℕ} (evaluate_binop op a b) (λ value. some (dst, value)) ≡ some (d, v)
    → IsWord v
written-IsWord op a b dst d v p q h =
    evaluate_binop-IsWord op a b v p q (written-value (evaluate_binop op a b) h)
  where
    written-value :
        (o : Option ℕ) → ◌>>=◌ {B = ℕ × ℕ} o (λ value. some (dst, value)) ≡ some (d, v) → o ≡ some v
    written-value none h = cc
    written-value (some w) h = cc

pub evaluate-IsWord :
    (instr : RuntimeInstr) (environment : Environment) (d v : ℕ)
    → InstrFits instr
    → Frame environment
    → evaluate_pure_instruction instr environment ≡ some (d, v)
    → IsWord v
unfolding evaluate_pure_instruction
evaluate-IsWord (mov dst src) environment d v fits frame h =
    let (a, p, w) = operand-value environment frame src fits in ground arith
evaluate-IsWord (bin_op dst op lhs rhs) environment d v (fl, fr) frame h =
    let (a, p, wa) = operand-value environment frame lhs fl in
    let (b, q, wb) = operand-value environment frame rhs fr in
    written-IsWord op a b dst d v wa wb (rw (p, q) at h)
evaluate-IsWord (bin_op_in_place dst op rhs) environment d v fits frame h =
    let (a, p, wa) = frame dst in
    let (b, q, wb) = operand-value environment frame rhs fits in
    written-IsWord op a b dst d v wa wb (rw (p, q) at h)
evaluate-IsWord (cmp dst op lhs rhs) environment d v (fl, fr) frame h =
    let (a, p, wa) = operand-value environment frame lhs fl in
    let (b, q, wb) = operand-value environment frame rhs fr in
    ground (arith, as_word-IsWord (evaluate_cmp op a b))
evaluate-IsWord _ environment d v fits frame h = absurd (cc)

-- Straight-line execution: each instruction writes its slot; `none` where one is not pure or fails.
unfoldable pub execute : List RuntimeInstr → Environment → Option Environment
execute [] environment = some environment
execute (instr ∷ rest) environment = do
  (dst, value) ← evaluate_pure_instruction instr environment
  execute rest (insert dst value environment)

-- Two continuations that agree on the outcome of a step agree behind it.
step_congr :
    (outcome : Option (ℕ × ℕ)) (k l : ℕ × ℕ → Option Environment)
    → ((r : ℕ × ℕ) → outcome ≡ some r → k r ≡ l r)
    → (outcome >>= k) ≡ (outcome >>= l)
step_congr none k l agree = refl
step_congr (some r) k l agree = agree r refl

module _ (debug_lt : RuntimeInstr → RuntimeInstr → Bool) (atom : Bool) where
  superoptimize_from_sound :
      (original : List RuntimeInstr) (index : ℕ) (instrs : List RuntimeInstr)
      (environment : Environment)
      → All InstrFits instrs
      → Frame environment
      → execute (superoptimize_from debug_lt atom original index instrs).0 environment
        ≡ execute instrs environment
  unfolding superoptimize_from execute
  superoptimize_from_sound original index [] environment fits frame = refl
  superoptimize_from_sound original index (instr ∷ rest) environment (fit, fits) frame =
      let readable = Frame-Holds environment frame (read_slots instr) in
      let later = λ (r : ℕ × ℕ) (done : evaluate_pure_instruction instr environment ≡ some r).
        superoptimize_from_sound original (index + 1) rest (insert r.0 r.1 environment) fits (
          insert-Frame environment r.0 r.1
            (evaluate-IsWord instr environment r.0 r.1 fit frame done) frame) in
      elim (Bool-cases (fusion_sensitive original index)) [
        | inl kept ↦ rw kept (step_congr (evaluate_pure_instruction instr environment) _ _ later)
        | inr tried ↦
            rw (tried, superoptimize_instruction_sound debug_lt atom instr environment fit readable)
              (step_congr (evaluate_pure_instruction instr environment) _ _ later)
      ]

-- On straight-line code over a frame of words, the pass keeps what the program computes: the same
-- final frame, and a failure exactly where the program fails.
pub run_verified_superoptimizer_sound :
    (debug_lt : RuntimeInstr → RuntimeInstr → Bool) (atom : Bool) (program : RuntimeProgram)
    (report : OptimizationReport) (environment : Environment)
    → All InstrFits program.instrs
    → Frame environment
    → execute (run_verified_superoptimizer debug_lt atom program report).0.instrs environment
      ≡ execute program.instrs environment
unfolding run_verified_superoptimizer
run_verified_superoptimizer_sound debug_lt atom program report environment fits frame =
    superoptimize_from_sound debug_lt atom program.instrs 0 program.instrs environment fits frame
