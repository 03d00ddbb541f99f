-- ===== src/Lir/Examples.antt =====
-- The known bits of concrete values.
use aziky.Prelude.{ℕ, ◌≤◌, ◌<◌, ◌^◌, ◌-◌, ◌≡◌, refl, arith, some, none, [], ◌∷◌, List}
use aziky.Ir.{RuntimeInstr, bin_op, slot, imm, op_and, shl}
use aziky.Word.{shift_left, complement}
use aziky.Superopt.Evaluate.{Environment, evaluate_pure_instruction, evaluate_binop}
use aziky.Lir.KnownBits.{
  KnownBits, constant, unknown, SsaInstruction, SsaPhi, known_bits_for_instruction,
  known_bits_for_phi, known_bits_for_binop, unsigned_min, unsigned_max, width,
}
use aziky.Lir.Described.{Describes, constant-Describes, unknown-Describes}
use aziky.Prelude.{zero, suc, ◌-◌, ◌^◌}
use aziky.Prelude.Digits.{digit, digit-zero}
use aziky.Lir.Demand.{demand_binop_inputs, demanded_masks}
use aziky.Lir.Demanded.{Agree, demand_binop_inputs_sound}
use aziky.Lir.Intervals.{LiveSegment, LiveInterval, LiveAt, interferes, interferes_lem}
use aziky.Prelude.{◌↔◌, false, true}
use aziky.Lir.Slots.{read_slots, write_slots}
use aziky.Lir.Verify.{
  bad_slot, verify_instrs, verify_runtime_program, InRange, verify_runtime_program_lem,
}
use aziky.Ir.{RuntimeProgram, jump}
use aziky.Prelude.{All}
use aziky.Lir.Facts.{known_bits_for_binop_sound}
use aziky.Lir.Flow.{known_bits_for_instruction_sound, known_bits_for_phi_sound}
use aziky.Lir.Ranges.{width_sound}
use aziky.Schedule.Outcome.{outcome}

abbrev sixes : Environment
sixes s = some 6

-- r1 = r0 << 3, where value 0 is read from slot 0
abbrev shift : RuntimeInstr
shift = bin_op 1 shl (slot 0) (imm 3)

abbrev shift_uses : SsaInstruction
shift_uses = record {
  instr_index = 0;
  reads = record { slot = 0; value = 0 } ∷ [];
  writes = record { slot = 1; value = 1 } ∷ [];
}

abbrev two_facts : List KnownBits
two_facts = constant 6 ∷ constant 4 ∷ []

abbrev join : SsaPhi
join = record {
  block = 1;
  slot = 0;
  value = 2;
  inputs =
      record { predecessor = none; value = 0 } ∷ record { predecessor = some 1; value = 1 } ∷ [];
}

-- Of 6 and 4 the bit of weight 4 is one and that of weight 2 is not known.
known_bits_for_phi_run :
    known_bits_for_phi join two_facts ≡ record { zero_bits = 2 ^ 64 - 7; one_bits = 4 }
unfolding known_bits_for_phi constant complement
known_bits_for_phi_run = refl

described_six : (v : ℕ) → 6 ≡ v → Describes (constant 6) v
described_six v e = rw (← e) (constant-Describes 6 (omega arith))

known_bits_for_instruction_sound_example :
    Describes (known_bits_for_instruction shift shift_uses two_facts) 48
unfolding evaluate_pure_instruction evaluate_binop shift_left outcome
known_bits_for_instruction_sound_example =
    known_bits_for_instruction_sound sixes two_facts (λ s v e. ground arith) shift shift_uses 1 48
      (tt, omega arith) ((λ v e. described_six v (ground (arith, e))), tt) refl

known_bits_for_phi_sound_example : Describes (known_bits_for_phi join two_facts) 4
unfolding constant complement
known_bits_for_phi_sound_example =
    known_bits_for_phi_sound two_facts join 4 1 (record { predecessor = some 1; value = 1 })
      ((omega arith, omega arith), ((omega arith, omega arith), tt)) refl
      (constant-Describes 4 (omega arith))

known_bits_for_binop_sound_example :
    Describes (known_bits_for_binop op_and (slot 0) (imm 4) unknown (constant 4)) 4
unfolding evaluate_binop
known_bits_for_binop_sound_example =
    known_bits_for_binop_sound sixes op_and (slot 0) (imm 4) unknown (constant 4) 6 4 4 refl refl
      (omega arith) (omega arith) (unknown-Describes 6) (constant-Describes 4 (omega arith)) refl

width_sound_example :
    (unsigned_min (constant 6) ≤ 6)
    × (6 ≤ unsigned_max (constant 6))
    × (6 < 2 ^ width (constant 6))
    × (1 ≤ width (constant 6))
    × (width (constant 6) ≤ 64)
width_sound_example = width_sound (constant 6) 6 (omega arith) (constant-Describes 6 (omega arith))

-- 5 and 21 differ in the bit of weight 16 only.
low_four : (i : ℕ) → digit 15 i ≡ 1 → digit 5 i ≡ digit 21 i
low_four zero h = refl
low_four (suc zero) h = refl
low_four (suc (suc zero)) h = refl
low_four (suc (suc (suc zero))) h = refl
low_four (suc (suc (suc (suc i)))) h = absurd (omega (arith, digit-zero i))

fives_and_more : (v w i : ℕ) → 5 ≡ v → 21 ≡ w → digit 15 i ≡ 1 → digit v i ≡ digit w i
fives_and_more v w i e f h = rw (← e, ← f) (low_four i h)

demand_run : demand_binop_inputs op_and (slot 0) (imm 15) (2 ^ 64 - 1) ≡ (0, 15) ∷ []
unfolding demand_binop_inputs demanded_masks
demand_run = refl

demand_binop_inputs_sound_example : Agree (2 ^ 64 - 1) 5 5
unfolding evaluate_binop demand_binop_inputs demanded_masks
demand_binop_inputs_sound_example =
    demand_binop_inputs_sound (λ s. some 5) (λ s. some 21) op_and (slot 0) (imm 15) (2 ^ 64 - 1) 5
      15 21 15 5 5 refl refl refl refl refl (omega arith) (omega arith) (omega arith) (omega arith)
      ((λ v w e f i b one. fives_and_more v w i (ground (arith, e)) (ground (arith, f)) one), tt)
      refl refl

abbrev interval : List LiveSegment → LiveInterval
interval segments = record {
  slot = 0;
  start = 0;
  end = 0;
  segments = segments;
  spill_weight = 0;
  force_stack = false;
  rematerializable = none;
  copy_hint = none;
}

-- A position that the second segments of both cover.
interferes_lem_example :
    (interferes
        (interval (record { start = 0; end = 2 } ∷ record { start = 6; end = 9 } ∷ []))
        (interval (record { start = 3; end = 5 } ∷ record { start = 8; end = 12 } ∷ []))
      ≡ true)
    ↔ ((p : ℕ) × LiveAt p (record { start = 0; end = 2 } ∷ record { start = 6; end = 9 } ∷ [])
        × LiveAt p (record { start = 3; end = 5 } ∷ record { start = 8; end = 12 } ∷ []))
interferes_lem_example =
    interferes_lem (interval (record { start = 0; end = 2 } ∷ record { start = 6; end = 9 } ∷ []))
      (interval (record { start = 3; end = 5 } ∷ record { start = 8; end = 12 } ∷ []))
      (omega arith, (omega arith, tt), (omega arith, tt, tt))
      (omega arith, (omega arith, tt), (omega arith, tt, tt))

-- r1 = r0 << 3; goto 2, which is the end
abbrev short : RuntimeProgram
short = record { slots = 2; instrs = shift ∷ jump 2 ∷ [] }

verify_runtime_program_lem_example :
    (verify_runtime_program short ≡ none) ↔ All (InRange 2 2) (shift ∷ jump 2 ∷ [])
verify_runtime_program_lem_example = verify_runtime_program_lem short

verify_run :
    verify_runtime_program (record { slots = 1; instrs = jump 2 ∷ shift ∷ [] })
    ≡ some (bad_slot 1 1)
unfolding verify_runtime_program verify_instrs read_slots write_slots
verify_run = refl
