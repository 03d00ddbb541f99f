-- ===== src/Copies/Examples.antt =====
-- Tests of the removal of copies, and its theorems at concrete inputs.
use aziky.Prelude.{
  ℕ, ◌≡◌, refl, Bool, true, false, [], ◌∷◌, some, none, get_elem?, min, ◌==◌, if◌then◌else◌,
  some_is, sym,
}
use aziky.Ir.{slot, imm, RuntimeInstr, mov, bin_op, mul, jump, exit, RuntimeProgram, thread_spawn}
use aziky.Frontend.Effects.{contains}
use aziky.Superopt.Evaluate.{evaluate_pure_instruction}
use aziky.Copies.Rewrite.{
  Aliases, rewrite_operand, rewrite_instruction_operands, runtime_operands_equal,
}
use aziky.Copies.Remove.{remove_runtime_instructions, old_to_new_from, retarget, compact_from}
use aziky.Copies.Rewritten.{value_of, with_values, AreCopies, rewrite_instruction_operands_lem}
use aziky.Copies.Moved.{kept_before, HasMoved, remove_runtime_instructions_lem}

-- Slot 1 is a copy of slot 2, which holds 5.
abbrev one_alias : Aliases
one_alias s = if s == 1 then some (slot 2) else none

abbrev fives : ℕ → ℕ
fives s = 5

one_alias-AreCopies : AreCopies one_alias fives
one_alias-AreCopies s r e = go (s == 1) e
  where
    go : (b : Bool) → (if b then some (slot 2) else none) ≡ some r → value_of fives r ≡ imm 5
    go true e = rw (sym (some_is e)) refl
    go false e = absurd (cc)

abbrev product : RuntimeInstr
product = bin_op 3 mul (slot 1) (imm 7)

product_rewritten :
    rewrite_instruction_operands one_alias product ≡ (bin_op 3 mul (slot 2) (imm 7), 1)
unfolding rewrite_instruction_operands rewrite_operand runtime_operands_equal
product_rewritten = refl

rewrite_instruction_operands_lem_example :
    (with_values fives (rewrite_instruction_operands one_alias product).0
      ≡ bin_op 3 mul (imm 5) (imm 7))
    × (evaluate_pure_instruction
          (rewrite_instruction_operands one_alias product).0
          (λ s. some (fives s))
        ≡ evaluate_pure_instruction product (λ s. some (fives s)))
rewrite_instruction_operands_lem_example =
    rewrite_instruction_operands_lem one_alias fives product one_alias-AreCopies

-- A copy in front of a jump to what follows it.
abbrev with_copy : RuntimeProgram
with_copy = record {
  slots = 4;
  instrs = mov 1 (slot 2) ∷ jump 2 ∷ exit (imm 0) ∷ thread_spawn 3 2 none ∷ [];
}

-- The jump goes on to the exit, which now stands at 1; the thread still begins at 2.
copy_removed :
    remove_runtime_instructions with_copy (0 ∷ [])
    ≡ some (record { slots = 4; instrs = jump 1 ∷ exit (imm 0) ∷ thread_spawn 3 2 none ∷ [] })
unfolding remove_runtime_instructions compact_from old_to_new_from retarget contains
copy_removed = refl

remove_runtime_instructions_lem_example :
    (compact : RuntimeProgram) × (remove_runtime_instructions with_copy (0 ∷ []) ≡ some compact)
    × ((i : ℕ) (instr : RuntimeInstr)
        → get_elem? with_copy.instrs i ≡ some instr
        → contains i (0 ∷ []) ≡ false
        → (moved : RuntimeInstr) × (get_elem? compact.instrs (kept_before (0 ∷ []) i) ≡ some moved)
          × HasMoved (λ target. kept_before (0 ∷ []) (min target 4)) instr moved)
remove_runtime_instructions_lem_example = remove_runtime_instructions_lem with_copy 0 []
