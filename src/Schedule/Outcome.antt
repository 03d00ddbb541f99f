-- ===== src/Schedule/Outcome.antt =====
-- src/backend/optimizer.rs: what the instructions that are scheduled do, and when two commute.
use mathlib.Core.Path.{fun_ext}
use aziky.Prelude.{
  ℕ, ◌≡◌, refl, ap, arith, true, false, Option, none, some, List, [], ◌∷◌, ◌>>=◌, All, ◌==◌, inl,
  inr, Option-cases, bind-some, All-split,
}
use aziky.Ir.{RuntimeOperand, slot, imm, RuntimeInstr, mov, bin_op, bin_op_in_place, normalize_int}
use aziky.Lir.Slots.{operand_slots, read_slots, write_slots}
use aziky.Frontend.Effects.{contains}
use aziky.Frontend.Eval.{normalize_const_int}
use aziky.Superopt.Evaluate.{Environment, operand_value, evaluate_pure_instruction}
use aziky.Superopt.Verify.{insert}
use aziky.Schedule.Region.{is_schedulable, is_disjoint, dependent}

-- The slot that an instruction writes, with the value: the reference semantics of pure
-- instructions, and for a normalisation the evaluation that the compiler does on constants.
unfoldable pub outcome : RuntimeInstr → Environment → Option (ℕ × ℕ)
outcome (normalize_int dst signed bits) environment = do
  value ← environment dst
  normalized ← normalize_const_int value signed bits
  some (dst, normalized)
outcome instr environment = evaluate_pure_instruction instr environment

-- An instruction, and what comes after it.
unfoldable pub step :
    RuntimeInstr → (Environment → Option Environment) → Environment → Option Environment
step instr k environment = do
  (dst, value) ← outcome instr environment
  k (insert dst value environment)

unfoldable pub run : List RuntimeInstr → Environment → Option Environment
run [] environment = some environment
run (instr ∷ rest) environment = step instr (run rest) environment

-- Two frames that agree on some slots.
abbrev pub AgreeOn : Environment → Environment → List ℕ → Type 0
AgreeOn before after slots = All (λ s. after s ≡ before s) slots

operand_value-AgreeOn :
    (before after : Environment) (o : RuntimeOperand)
    → AgreeOn before after (operand_slots o)
    → operand_value after o ≡ operand_value before o
operand_value-AgreeOn before after (imm value) h = refl
operand_value-AgreeOn before after (slot s) (h, _) = h

-- An instruction's outcome depends on the slots that it reads, and on no others.
pub outcome-AgreeOn :
    (before after : Environment) (instr : RuntimeInstr)
    → is_schedulable instr ≡ true
    → AgreeOn before after (read_slots instr)
    → outcome instr after ≡ outcome instr before
unfolding outcome evaluate_pure_instruction read_slots is_schedulable
outcome-AgreeOn before after (mov dst src) s h = rw (operand_value-AgreeOn before after src h) refl
outcome-AgreeOn before after (bin_op dst op lhs rhs) s h =
    let (l, r) = All-split _ (operand_slots lhs) (operand_slots rhs) h in
    rw (operand_value-AgreeOn before after lhs l, operand_value-AgreeOn before after rhs r) refl
outcome-AgreeOn before after (bin_op_in_place dst op rhs) s (d, h) =
    rw (d, operand_value-AgreeOn before after rhs h) refl
outcome-AgreeOn before after (normalize_int dst signed bits) s (d, h) = rw d refl
outcome-AgreeOn before after _ s h = absurd (cc)

written-here :
    (dst d v : ℕ) (o : Option ℕ)
    → ◌>>=◌ {B = ℕ × ℕ} o (λ value. some (dst, value)) ≡ some (d, v)
    → dst ≡ d
written-here dst d v none h = cc
written-here dst d v (some w) h = cc

-- What a pure instruction writes is the slot that it is said to write.
pub outcome-write_slots :
    (environment : Environment) (instr : RuntimeInstr) (d v : ℕ)
    → is_schedulable instr ≡ true
    → outcome instr environment ≡ some (d, v)
    → write_slots instr ≡ d ∷ []
unfolding outcome evaluate_pure_instruction write_slots is_schedulable
outcome-write_slots environment (mov dst src) d v s h =
    rw (written-here dst d v (operand_value environment src) h) refl
outcome-write_slots environment (bin_op dst op lhs rhs) d v s h =
    let (a, _, h') = bind-some (operand_value environment lhs) _ _ h in
    let (b, _, h'') = bind-some (operand_value environment rhs) _ _ h' in
    rw (written-here dst d v _ h'') refl
outcome-write_slots environment (bin_op_in_place dst op rhs) d v s h =
    let (a, _, h') = bind-some (environment dst) _ _ h in
    let (b, _, h'') = bind-some (operand_value environment rhs) _ _ h' in
    rw (written-here dst d v _ h'') refl
outcome-write_slots environment (normalize_int dst signed bits) d v s h =
    let (a, _, h') = bind-some (environment dst) _ _ h in rw (written-here dst d v _ h') refl
outcome-write_slots environment _ d v s h = absurd (cc)

-- A write outside of some slots leaves the frame as it is on them.
insert-AgreeOn :
    (d v : ℕ) (environment : Environment) (slots : List ℕ)
    → contains d slots ≡ false
    → AgreeOn environment (insert d v environment) slots
unfolding contains
insert-AgreeOn d v environment [] h = tt
insert-AgreeOn d v environment (s ∷ slots) h =
    (ground arith, insert-AgreeOn d v environment slots (ground arith))

insert_swap :
    (d v e w : ℕ) (environment : Environment)
    → (d == e) ≡ false
    → insert d v (insert e w environment) ≡ insert e w (insert d v environment)
insert_swap d v e w environment h = fun_ext (λ s. ground arith)

is_disjoint-one :
    (d : ℕ) (slots : List ℕ) → is_disjoint (d ∷ []) slots ≡ true → contains d slots ≡ false
unfolding is_disjoint
is_disjoint-one d slots h = ground arith

contains-disjoint : (xs : List ℕ) (e : ℕ) → is_disjoint xs (e ∷ []) ≡ true → contains e xs ≡ false
unfolding is_disjoint contains
contains-disjoint [] e h = refl
contains-disjoint (x ∷ xs) e h = ground (arith, contains-disjoint xs e)

dependent-disjoint :
    (a b : RuntimeInstr)
    → dependent a b ≡ false
    → (is_disjoint (write_slots a) (read_slots b) ≡ true)
      × (is_disjoint (write_slots a) (write_slots b) ≡ true)
      × (is_disjoint (read_slots a) (write_slots b) ≡ true)
unfolding dependent
dependent-disjoint a b h = ground arith

module _ (a b : RuntimeInstr) (environment : Environment) (s : is_schedulable a ≡ true)
    (s' : is_schedulable b ≡ true) (h : dependent a b ≡ false) where
  -- Of two independent instructions, the second does the same after the first as before it.
  outcome-second :
      (d v : ℕ)
      → outcome a environment ≡ some (d, v)
      → outcome b (insert d v environment) ≡ outcome b environment
  outcome-second d v e =
      let (disjoint, _, _) = dependent-disjoint a b h in
      outcome-AgreeOn environment (insert d v environment) b s' (
        insert-AgreeOn d v environment (read_slots b) (
          is_disjoint-one d (read_slots b)
            (rw (outcome-write_slots environment a d v s e) at disjoint)))

  outcome-first :
      (d v : ℕ)
      → outcome b environment ≡ some (d, v)
      → outcome a (insert d v environment) ≡ outcome a environment
  outcome-first d v e =
      let (_, _, disjoint) = dependent-disjoint a b h in
      outcome-AgreeOn environment (insert d v environment) a s (
        insert-AgreeOn d v environment (read_slots a) (
          contains-disjoint (read_slots a) d
            (rw (outcome-write_slots environment b d v s' e) at disjoint)))

  outcome-apart :
      (d v e w : ℕ)
      → outcome a environment ≡ some (d, v)
      → outcome b environment ≡ some (e, w)
      → (e == d) ≡ false
  unfolding is_disjoint contains
  outcome-apart d v e w p q =
      let (_, disjoint, _) = dependent-disjoint a b h in
      let one = rw (outcome-write_slots environment a d v s p) at disjoint in
      let both = rw (outcome-write_slots environment b e w s' q) at one in ground arith

  pub step_swap :
      (k : Environment → Option Environment)
      → step a (step b k) environment ≡ step b (step a k) environment
  unfolding step
  step_swap k = elim (Option-cases (outcome a environment)) [
    | inl p ↦ elim (Option-cases (outcome b environment)) [
      | inl q ↦ rw (p, q) refl
      | inr ((e, w), q) ↦ rw (p, q, outcome-first e w q, p) refl
    ]
    | inr ((d, v), p) ↦ elim (Option-cases (outcome b environment)) [
      | inl q ↦ rw (p, q, outcome-second d v p, q) refl
      | inr ((e, w), q) ↦
          rw (p, q, outcome-second d v p, outcome-first e w q, p, q)
            (ap k (insert_swap e w d v environment (outcome-apart d v e w p q)))
    ]
  ]
