-- ===== src/Frontend/Effects.antt =====
-- src/frontend/optimizer.rs: what instructions may do to a frame, and facts that describe it.

use aziky.Prelude.{
  ℕ, zero, suc, ◌≡◌, refl, sym, ◌∙◌, arith, Bool, true, false, ◌||◌, some, List, [], ◌∷◌, ◌==◌, set,
  replicate, ◌⊎◌,
}
use aziky.Ir.{RuntimeInstr, mov, bin_op, bin_op_in_place, cmp, normalize_int, compare_swap, call}
use aziky.Lir.Slots.{write_slots}
use aziky.Superopt.Evaluate.{Environment, evaluate_pure_instruction}
use aziky.Superopt.Verify.{insert}
use aziky.Frontend.Eval.{normalize_const_int}
use aziky.Frontend.SlotFacts.{SlotFacts, unknown_facts, facts_at, facts_for_operand}
use aziky.Frontend.Masks.{Describes, ShiftsFit}
use aziky.Frontend.Transfer.{set_slot, forget_slots}

-- What is known of each slot is true of the word that it holds.
abbrev pub DescribesFrame : List SlotFacts → Environment → Type 0
DescribesFrame facts environment =
    (s v : ℕ) → environment s ≡ some v → Describes (facts_at facts s) v

unfoldable pub contains : ℕ → List ℕ → Bool
contains s [] = false
contains s (t ∷ slots) = t == s || contains s slots

-- What an instruction may do to the frame. The pure instructions do what they evaluate to; a
-- normalisation does what the compiler evaluates it to; two slots are exchanged or not; a call may do
-- anything; the others may write anything to the slots that they write.
abbrev pub Effect : RuntimeInstr → Environment → Environment → Type 0
Effect (mov dst src) before after =
    (r : ℕ × ℕ) × (evaluate_pure_instruction (mov dst src) before ≡ some r)
    × (after ≡ insert r.0 r.1 before)
Effect (bin_op dst op lhs rhs) before after =
    (r : ℕ × ℕ) × (evaluate_pure_instruction (bin_op dst op lhs rhs) before ≡ some r)
    × (after ≡ insert r.0 r.1 before)
Effect (bin_op_in_place dst op rhs) before after =
    (r : ℕ × ℕ) × (evaluate_pure_instruction (bin_op_in_place dst op rhs) before ≡ some r)
    × (after ≡ insert r.0 r.1 before)
Effect (cmp dst op lhs rhs) before after =
    (r : ℕ × ℕ) × (evaluate_pure_instruction (cmp dst op lhs rhs) before ≡ some r)
    × (after ≡ insert r.0 r.1 before)
Effect (normalize_int dst signed bits) before after =
    (v w : ℕ) × (before dst ≡ some v)
    × (normalize_const_int v signed bits ≡ some w)
    × (after ≡ insert dst w before)
Effect (compare_swap left right _) before after =
    (a b : ℕ) × (before left ≡ some a)
    × (before right ≡ some b)
    × ((after ≡ insert right b (insert left a before))
        ⊎ (after ≡ insert right a (insert left b before)))
Effect (call _) before after = Unit
Effect instr before after = (s : ℕ) → contains s (write_slots instr) ≡ false → after s ≡ before s

-- The shifts of an instruction are ones whose bound the analysis gets right.
abbrev pub InstrShiftsFit : RuntimeInstr → List SlotFacts → Type 0
InstrShiftsFit (bin_op dst op lhs rhs) facts =
    ShiftsFit op (facts_for_operand facts lhs) (facts_for_operand facts rhs)
InstrShiftsFit (bin_op_in_place dst op rhs) facts =
    ShiftsFit op (facts_at facts dst) (facts_for_operand facts rhs)
InstrShiftsFit _ facts = Unit

facts_at-set :
    (P : SlotFacts → Type 0) (facts : List SlotFacts) (d t : ℕ) (f : SlotFacts)
    → P unknown_facts
    → ((d == t) ≡ true → P f)
    → ((d == t) ≡ false → P (facts_at facts t))
    → P (facts_at (set facts d f) t)
facts_at-set P [] d t f u h k = u
facts_at-set P (x ∷ xs) zero zero f u h k = h refl
facts_at-set P (x ∷ xs) zero (suc t) f u h k = k (ground arith)
facts_at-set P (x ∷ xs) (suc d) zero f u h k = k (ground arith)
facts_at-set P (x ∷ xs) (suc d) (suc t) f u h k =
    let e : (suc d == suc t) ≡ (d == t) = ground arith in
    facts_at-set P xs d t f u (λ i. h (cc)) (λ i. k (cc))

pub unknown_facts-Describes : (v : ℕ) → Describes unknown_facts v
unknown_facts-Describes v = (λ u e. absurd (cc), λ w e. absurd (cc))

pub insert-Describes :
    (facts : List SlotFacts) (environment : Environment) (d v : ℕ) (f : SlotFacts)
    → DescribesFrame facts environment
    → Describes f v
    → DescribesFrame (set_slot facts d f) (insert d v environment)
insert-Describes facts environment d v f h k s w e =
    facts_at-set (λ g. Describes g w) facts d s f (unknown_facts-Describes w)
      (λ same. let held : v ≡ w = cc (rw same at e) in rw (sym held) k)
      (λ other. h s w (rw other at e))

forget_slots-Describes :
    (facts : List SlotFacts) (slots : List ℕ) (s v : ℕ)
    → (contains s slots ≡ false → Describes (facts_at facts s) v)
    → Describes (facts_at (forget_slots facts slots) s) v
unfolding contains
forget_slots-Describes facts [] s v h = h refl
forget_slots-Describes facts (t ∷ slots) s v h =
    forget_slots-Describes (set_slot facts t unknown_facts) slots s v (λ absent.
      facts_at-set (λ g. Describes g v) facts t s unknown_facts (unknown_facts-Describes v)
        (λ same. unknown_facts-Describes v) (λ other. h (rw (other, absent) refl)))

pub forgotten-Describes :
    (facts : List SlotFacts) (slots : List ℕ) (before after : Environment)
    → DescribesFrame facts before
    → ((s : ℕ) → contains s slots ≡ false → after s ≡ before s)
    → DescribesFrame (forget_slots facts slots) after
forgotten-Describes facts slots before after h k s v e =
    forget_slots-Describes facts slots s v (λ absent. h s v (sym (k s absent) ∙ e))

pub replicate-Describes : (n s v : ℕ) → Describes (facts_at (replicate n unknown_facts) s) v
replicate-Describes zero s v = unknown_facts-Describes v
replicate-Describes (suc n) zero v = unknown_facts-Describes v
replicate-Describes (suc n) (suc s) v = replicate-Describes n s v
