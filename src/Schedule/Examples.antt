-- ===== src/Schedule/Examples.antt =====
-- Tests of the scheduler, and its theorems at concrete inputs.
use mathlib.Core.List.{Perm}
use aziky.Prelude.{ℕ, arith, All, ◌≡◌, refl, true, false, List, [], ◌∷◌, Option, none, some, length}
use aziky.Ir.{RuntimeInstr, RuntimeProgram, mov, bin_op, normalize_int, mul, add, slot, imm}
use aziky.Lir.Slots.{read_slots, write_slots}
use aziky.Peephole.{get_instruction_info}
use aziky.Frontend.Effects.{contains}
use aziky.Superopt.Cost.{binop_mnemonic, instruction_mnemonic, instruction_latency}
use aziky.Superopt.Evaluate.{Environment}
use aziky.Schedule.Ports.{
  account_ports, count_port, count_ports, machine_info, maximum, projected_machine_pressure,
}
use aziky.Schedule.Pressure.{
  insert_uses, is_used_after, last_uses, peak_from, peak_register_pressure, retain_live, start_live,
}
use aziky.Schedule.Region.{
  schedule_region, dependent, link, link_from, is_disjoint, critical_from, read_all, schedule_from,
  ready_from, key_of, best_from, key_le, release, decrement, insert_ready, range_from, remove_ready,
  is_schedulable,
}
use aziky.Ir.{jump}
use aziky.Schedule.Pass.{
  lowers, schedule_pure_regions, schedule_blocks, schedule_block, schedule_run, has_affine_triple,
  is_affine_triple, is_identity_from, blocks_from, block_starts, starts_from,
}
use aziky.Schedule.Kept.{IsSame}
use aziky.Schedule.Entries.{IsEntry}
use aziky.Schedule.Segments.{between, schedule_pure_regions-IsSame}
use aziky.Schedule.Outcome.{run}
use aziky.Schedule.Orders.{reordered}
use aziky.Schedule.Start.{IsPure}
use aziky.Schedule.Total.{Decision, schedule_region-returns, schedule_region_lem}

-- A product that a later sum waits for, behind a constant that it does not need.
abbrev waiting_sum : List RuntimeInstr
waiting_sum =
    mov 0 (imm 5)
    ∷ bin_op 1 mul (slot 9) (imm 3)
    ∷ bin_op 2 add (slot 0) (slot 1)
    ∷ normalize_int 2 true 8
    ∷ []

waiting_sum-IsPure : All IsPure waiting_sum
unfolding is_schedulable
waiting_sum-IsPure = (refl, (refl, (refl, (refl, tt))))

-- The product comes first.
product_first : schedule_region waiting_sum false ≡ some (some (1 ∷ 0 ∷ 2 ∷ 3 ∷ []))
unfolding schedule_region link link_from dependent is_disjoint write_slots contains read_slots
    critical_from read_all schedule_from ready_from key_of best_from key_le instruction_latency
    maximum release get_instruction_info account_ports count_port count_ports machine_info
    projected_machine_pressure insert_uses is_used_after last_uses peak_from peak_register_pressure
    retain_live start_live decrement insert_ready range_from remove_ready binop_mnemonic
    instruction_mnemonic
product_first = refl

schedule_region-returns_example :
    (result : Option (List ℕ)) × (schedule_region waiting_sum false ≡ some result)
    × Decision waiting_sum result
schedule_region-returns_example = schedule_region-returns waiting_sum false waiting_sum-IsPure

schedule_region_lem_example :
    Perm (1 ∷ 0 ∷ 2 ∷ 3 ∷ []) (range_from 0 (length waiting_sum))
    × ((code : List RuntimeInstr) × (reordered waiting_sum (1 ∷ 0 ∷ 2 ∷ 3 ∷ []) ≡ some code)
        × ((environment : Environment) → run code environment ≡ run waiting_sum environment))
schedule_region_lem_example =
    schedule_region_lem waiting_sum false (1 ∷ 0 ∷ 2 ∷ 3 ∷ []) waiting_sum-IsPure product_first

-- A loop of two blocks: the second begins at the target of the jump back.
abbrev two_blocks : List RuntimeInstr
two_blocks =
    mov 3 (imm 0)
    ∷ mov 0 (imm 5)
    ∷ bin_op 1 mul (slot 9) (imm 3)
    ∷ bin_op 2 add (slot 0) (slot 1)
    ∷ jump 1
    ∷ []

two_blocks_starts : block_starts two_blocks ≡ 0 ∷ 1 ∷ []
unfolding block_starts starts_from insert_ready
two_blocks_starts = refl

abbrev two_blocks_program : RuntimeProgram
two_blocks_program = record { slots = 10; instrs = two_blocks }

schedule_pure_regions-IsSame_example :
    (result : RuntimeProgram) × (scheduled : ℕ) × (schedule_pure_regions false two_blocks_program
      ≡ some (result, scheduled))
    × ((e e' : ℕ)
        → IsEntry two_blocks e
        → IsEntry two_blocks e'
        → IsSame (between e e' two_blocks) (between e e' result.instrs))
schedule_pure_regions-IsSame_example = schedule_pure_regions-IsSame false two_blocks_program (
  (tt, omega arith),
  (
    (tt, omega arith),
    (((omega arith, tt), omega arith), (((omega arith, omega arith), omega arith), ((tt, tt), tt))),
  ),
)

-- A slot that the program does not have is a panic.
slot_missing : schedule_pure_regions false (record { slots = 3; instrs = two_blocks }) ≡ none
unfolding schedule_pure_regions lowers read_slots write_slots
slot_missing = refl

-- The product of the second block comes first.
two_blocks_scheduled :
    schedule_pure_regions false two_blocks_program
    ≡ some (
      record {
        slots = 10;
        instrs =
            mov 3 (imm 0)
            ∷ bin_op 1 mul (slot 9) (imm 3)
            ∷ mov 0 (imm 5)
            ∷ bin_op 2 add (slot 0) (slot 1)
            ∷ jump 1
            ∷ [];
      },
      1,
    )
unfolding schedule_pure_regions lowers schedule_blocks schedule_block schedule_run has_affine_triple
    is_affine_triple is_identity_from reordered blocks_from block_starts starts_from is_schedulable
    schedule_region link link_from dependent is_disjoint write_slots contains read_slots
    critical_from read_all schedule_from ready_from key_of best_from key_le instruction_latency
    maximum release get_instruction_info account_ports count_port count_ports machine_info
    projected_machine_pressure insert_uses is_used_after last_uses peak_from peak_register_pressure
    retain_live start_live decrement insert_ready range_from remove_ready binop_mnemonic
    instruction_mnemonic
two_blocks_scheduled = refl
