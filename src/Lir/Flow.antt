-- ===== src/Lir/Flow.antt =====
-- src/backend/lir.rs: the known bits of an instruction's result and of a phi.
use aziky.Prelude.{
  ℕ, zero, suc, ◌≡◌, arith, bit_and, Bool, true, false, some, List, [], ◌∷◌, ◌==◌, inl, inr,
  Bool-cases, ==_iff, get_elem?, All, ◌>>=◌, bind-some, ap, ◌∙◌,
}
use aziky.Prelude.Bits.{bitwise-lt}
use aziky.Prelude.Digits.{digit-and, digit-zero}
use aziky.Ir.{
  IsWord, RuntimeOperand, slot, imm, RuntimeBinOp, RuntimeInstr, mov, bin_op, bin_op_in_place, cmp,
  normalize_int,
}
use aziky.Superopt.Evaluate.{
  Environment, as_word, operand_value, evaluate_binop, evaluate_cmp, evaluate_pure_instruction,
}
use aziky.Word.{complement}
use aziky.Superopt.Soundness.{OperandFits, InstrFits}
use aziky.Lir.KnownBits.{
  KnownBits, constant, known_bits_for_binop, SsaUse, SsaInstruction, SsaPhiInput, SsaPhi,
  or_unknown, meet_inputs, known_bits_for_inputs, known_bits_for_phi, find_use, operand_fact,
  known_bits_for_instruction,
}
use aziky.Lir.Described.{Describes, unknown-Describes, constant-Describes}
use aziky.Lir.Facts.{known_bits_for_binop_sound}
use aziky.Lir.Normalized.{normalize_sound}
use aziky.Frontend.Eval.{normalize_const_int}
use aziky.Schedule.Outcome.{outcome}

some_input {ℓ} : {A : Type ℓ} {a b : A} → some a ≡ some b → a ≡ b
some_input e = cc

-- The masks of a fact are `u64`.
abbrev pub FactFits : KnownBits → Type 0
FactFits fact = IsWord fact.zero_bits × IsWord fact.one_bits

abbrev fact_at : List KnownBits → ℕ → KnownBits
fact_at facts value = or_unknown (get_elem? facts value)

fact_at-fits :
    (facts : List KnownBits) (value : ℕ) → All FactFits facts → FactFits (fact_at facts value)
fact_at-fits [] value h = (omega arith, omega arith)
fact_at-fits (fact ∷ facts) zero (f, h) = f
fact_at-fits (fact ∷ facts) (suc value) (f, h) = fact_at-fits facts value h

abbrev meet : KnownBits → KnownBits → KnownBits
meet result fact = record {
  zero_bits = bit_and result.zero_bits fact.zero_bits;
  one_bits = bit_and result.one_bits fact.one_bits;
}

meet-FactFits : (f g : KnownBits) → FactFits f → FactFits g → FactFits (meet f g)
meet-FactFits f g (a, b) (c, d) = ((bitwise-lt 64 _ _ a c).0, (bitwise-lt 64 _ _ b d).0)

-- What both facts say is true of a value that either describes.
meet_left : (f g : KnownBits) (x : ℕ) → FactFits g → Describes f x → Describes (meet f g) x
meet_left f g x (c, d) (a, b, h) =
    let (p, q) = meet-FactFits f g (a, b) (c, d) in
    (
      p,
      q,
      λ i below.
          rw (digit-and f.zero_bits g.zero_bits i, digit-and f.one_bits g.one_bits i)
            (let u = h i below in (omega arith, omega arith)),
    )

meet_right : (f g : KnownBits) (x : ℕ) → FactFits f → Describes g x → Describes (meet f g) x
meet_right f g x (c, d) (a, b, h) =
    let (p, q) = meet-FactFits f g (c, d) (a, b) in
    (
      p,
      q,
      λ i below.
          rw (digit-and f.zero_bits g.zero_bits i, digit-and f.one_bits g.one_bits i)
            (let u = h i below in (omega arith, omega arith)),
    )

module _ (facts : List KnownBits) (fit : All FactFits facts) (x : ℕ) where
  meet_kept :
      (inputs : List SsaPhiInput) (result : KnownBits)
      → Describes result x
      → Describes (meet_inputs facts result inputs) x
  meet_kept [] result d = d
  meet_kept (input ∷ inputs) result d =
      meet_kept inputs _
        (meet_left result (fact_at facts input.value) x (fact_at-fits facts input.value fit) d)

  meet_found :
      (inputs : List SsaPhiInput) (result : KnownBits) (i : ℕ) (input : SsaPhiInput)
      → FactFits result
      → get_elem? inputs i ≡ some input
      → Describes (fact_at facts input.value) x
      → Describes (meet_inputs facts result inputs) x
  meet_found [] result i input f e d = cc
  meet_found (first ∷ inputs) result zero input f e d =
      meet_kept inputs _ (meet_right result (fact_at facts first.value) x f (rw (some_input e) d))
  meet_found (first ∷ inputs) result (suc i) input f e d =
      meet_found inputs _ i input
        (meet-FactFits result (fact_at facts first.value) f (fact_at-fits facts first.value fit)) e
        d

-- If the facts are words and one of them, that of an input of the phi, describes x, then so do the
-- known bits of the phi.
pub known_bits_for_phi_sound :
    (facts : List KnownBits) (phi : SsaPhi) (x i : ℕ) (input : SsaPhiInput)
    → All FactFits facts
    → get_elem? phi.inputs i ≡ some input
    → Describes (or_unknown (get_elem? facts input.value)) x
    → Describes (known_bits_for_phi phi facts) x
unfolding known_bits_for_phi
known_bits_for_phi_sound facts phi x i input fit e d = by_inputs phi.inputs i e
  where
    by_inputs :
        (inputs : List SsaPhiInput) (i : ℕ)
        → get_elem? inputs i ≡ some input
        → Describes (known_bits_for_inputs facts inputs) x
    by_inputs [] i e = cc
    by_inputs (first ∷ inputs) zero e = meet_kept facts fit x inputs _ (rw (some_input e) d)
    by_inputs (first ∷ inputs) (suc i) e =
        meet_found facts fit x inputs _ i input (fact_at-fits facts first.value fit) e d

-- A comparison gives 0 or 1.
flag_sound : (b : Bool) → Describes (record { zero_bits = complement 1; one_bits = 0 }) (as_word b)
unfolding constant
flag_sound true =
    let (z, o, d) = constant-Describes 1 (omega arith) in
    (z, omega arith, λ i p. ((d i p).0, omega (arith, digit-zero i)))
flag_sound false =
    let (z, o, d) = constant-Describes 1 (omega arith) in
    (z, omega arith, λ i p. (omega (arith, (d i p).0, digit-zero i), omega (arith, digit-zero i)))

-- The facts of the values that an instruction reads describe what the slots hold.
abbrev pub Reads : Environment → List KnownBits → List SsaUse → Type 0
Reads environment facts reads =
    All
      (λ usage. (v : ℕ) → environment usage.slot ≡ some v → Describes (fact_at facts usage.value) v)
      reads

-- A frame of words.
abbrev pub OfWords : Environment → Type 0
OfWords environment = (s v : ℕ) → environment s ≡ some v → IsWord v

module _ (environment : Environment) (facts : List KnownBits) (words : OfWords environment) where
  use_sound :
      (reads : List SsaUse) (s v : ℕ)
      → Reads environment facts reads
      → environment s ≡ some v
      → Describes (or_unknown (do value ← find_use reads s; get_elem? facts value)) v
  use_sound [] s v h e = unknown-Describes v
  use_sound (usage ∷ rest) s v (h, hs) e = elim (Bool-cases (usage.slot == s)) [
    | inl here ↦ rw here (h v (ap environment ((==_iff usage.slot s).0 here) ∙ e))
    | inr later ↦ rw later (use_sound rest s v hs e)
  ]

  operand_sound :
      (ssa_instr : SsaInstruction) (o : RuntimeOperand) (v : ℕ)
      → OperandFits o
      → Reads environment facts ssa_instr.reads
      → operand_value environment o ≡ some v
      → IsWord v × Describes (operand_fact ssa_instr facts o) v
  operand_sound ssa_instr (slot s) v fits h e = (words s v e, use_sound ssa_instr.reads s v h e)
  operand_sound ssa_instr (imm value) v fits h e =
      rw (← some_input e) (fits, constant-Describes value fits)

  binop_sound :
      (d : ℕ) (op : RuntimeBinOp) (lhs rhs : RuntimeOperand) (ssa_instr : SsaInstruction)
      (dst v : ℕ)
      → OperandFits lhs
      → OperandFits rhs
      → Reads environment facts ssa_instr.reads
      → evaluate_pure_instruction (bin_op d op lhs rhs) environment ≡ some (dst, v)
      → Describes
          (known_bits_for_binop op lhs rhs
            (operand_fact ssa_instr facts lhs)
            (operand_fact ssa_instr facts rhs))
          v
  unfolding evaluate_pure_instruction
  binop_sound d op lhs rhs ssa_instr dst v fl fr h e =
      let (x, p, e') = bind-some (operand_value environment lhs) _ _ e in
      let (y, q, e'') = bind-some (operand_value environment rhs) _ _ e' in
      let (r, s, last) = bind-some (evaluate_binop op x y) _ _ e'' in
      let same : r ≡ v = ap (λ o. o.1) (some_input last) in
      let (wx, dx) = operand_sound ssa_instr lhs x fl h p in
      let (wy, dy) = operand_sound ssa_instr rhs y fr h q in
      rw (← same) (known_bits_for_binop_sound environment op lhs rhs _ _ x y r p q wx wy dx dy s)

  -- On a frame of words, if the facts describe what the read slots hold, the known bits of an
  -- instruction describe the value that it writes, where the instruction is a move, an operation, a
  -- comparison or a normalisation; nothing is said of the others, of which nothing is known.
  pub known_bits_for_instruction_sound :
      (instr : RuntimeInstr) (ssa_instr : SsaInstruction) (dst v : ℕ)
      → InstrFits instr
      → Reads environment facts ssa_instr.reads
      → outcome instr environment ≡ some (dst, v)
      → Describes (known_bits_for_instruction instr ssa_instr facts) v
  unfolding outcome evaluate_pure_instruction known_bits_for_instruction
  known_bits_for_instruction_sound (mov d src) ssa_instr dst v fits h e =
      let (x, p, last) = bind-some (operand_value environment src) _ _ e in
      let same : x ≡ v = ap (λ o. o.1) (some_input last) in
      rw (← same) (operand_sound ssa_instr src x fits h p).1
  known_bits_for_instruction_sound (bin_op d op lhs rhs) ssa_instr dst v (fl, fr) h e =
      binop_sound d op lhs rhs ssa_instr dst v fl fr h e
  known_bits_for_instruction_sound (bin_op_in_place d op rhs) ssa_instr dst v fits h e =
      binop_sound d op (slot d) rhs ssa_instr dst v tt fits h e
  known_bits_for_instruction_sound (cmp d op lhs rhs) ssa_instr dst v fits h e =
      let (x, p, e') = bind-some (operand_value environment lhs) _ _ e in
      let (y, q, last) = bind-some (operand_value environment rhs) _ _ e' in
      let same : as_word (evaluate_cmp op x y) ≡ v = ap (λ o. o.1) (some_input last) in
      rw (← same) (flag_sound (evaluate_cmp op x y))
  known_bits_for_instruction_sound (normalize_int d signed bits) ssa_instr dst v fits h e =
      let (x, p, e') = bind-some (environment d) _ _ e in
      let (y, q, last) = bind-some (normalize_const_int x signed bits) _ _ e' in
      let same : y ≡ v = ap (λ o. o.1) (some_input last) in
      rw (← same)
        (normalize_sound signed bits _ x y (operand_sound ssa_instr (slot d) x tt h p).1 q)
  known_bits_for_instruction_sound _ ssa_instr dst v fits h e = unknown-Describes v
