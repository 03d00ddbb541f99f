-- ===== src/Superopt/Cost.antt =====
-- src/backend/optimizer.rs: the cost model of single instructions.

use Prim.Native.String.{String}
use text.Mathlib.Text.{◌==◌ as str_eq}
use aziky.Prelude.{
  ℕ, ◌+◌, ◌-◌, ◌*◌, ◌^◌, Bool, true, false, ◌&&◌, none, some, min, length, if◌then◌else◌,
}
use aziky.Ir.{
  imm, RuntimeBinOp, sub, mul, div_unsigned, div_signed, mod_unsigned, mod_signed, op_and, op_or,
  op_xor, shl, shr_unsigned, shr_signed, RuntimeInstr, mov, bin_op, bin_op_in_place, normalize_int,
}
use aziky.Lir.Slots.{read_slots}
use aziky.Peephole.{get_instruction_info}
use aziky.Prelude.Sorting.{sort_unstable, dedup}

abbrev u32_max : ℕ
u32_max = 2 ^ 32 - 1

abbrev pub saturating_add : ℕ → ℕ → ℕ
saturating_add a b = min (a + b) u32_max

abbrev saturating_mul : ℕ → ℕ → ℕ
saturating_mul a b = min (a * b) u32_max

unfoldable pub binop_mnemonic : RuntimeBinOp → String
binop_mnemonic mul = "imul"
binop_mnemonic div_unsigned = "div"
binop_mnemonic div_signed = "div"
binop_mnemonic mod_unsigned = "div"
binop_mnemonic mod_signed = "div"
binop_mnemonic shl = "shl"
binop_mnemonic shr_unsigned = "shl"
binop_mnemonic shr_signed = "shl"
binop_mnemonic op_and = "and"
binop_mnemonic op_or = "or"
binop_mnemonic op_xor = "xor"
binop_mnemonic sub = "sub"
binop_mnemonic _ = "add"

unfoldable pub instruction_mnemonic : RuntimeInstr → String
unfolding binop_mnemonic
instruction_mnemonic (mov _ _) = "mov"
instruction_mnemonic (bin_op _ op _ _) = binop_mnemonic op
instruction_mnemonic (bin_op_in_place _ op _) = binop_mnemonic op
instruction_mnemonic (normalize_int _ _ _) = "shl"
instruction_mnemonic _ = "mov"

-- Whether the processor's name holds "atom" is the argument `atom`.
unfoldable pub instruction_latency : RuntimeInstr → Bool → ℕ
unfolding instruction_mnemonic get_instruction_info
instruction_latency instr atom =
    let mnemonic = instruction_mnemonic instr in
    let baseline : ℕ = elim (get_instruction_info mnemonic) [
      | none ↦ 1
      | some i ↦ i.latency_cycles
    ] in
    if atom && str_eq mnemonic "imul" then saturating_add baseline 1 else baseline

abbrev is_bin_op : RuntimeInstr → Bool
is_bin_op (bin_op _ _ _ _) = true
is_bin_op _ = false

abbrev has_immediate_rhs : RuntimeInstr → Bool
has_immediate_rhs (bin_op _ _ _ (imm _)) = true
has_immediate_rhs _ = false

unfoldable pub target_instruction_cost : RuntimeInstr → Bool → ℕ
unfolding instruction_latency
target_instruction_cost instr atom =
    let micro_ops : ℕ = elim (get_instruction_info (instruction_mnemonic instr)) [
      | none ↦ 1
      | some i ↦ i.micro_ops
    ] in
    let base = saturating_add (saturating_mul (instruction_latency instr atom) 4) micro_ops in
    let base' = if is_bin_op instr then saturating_add base 5 else base in
    if has_immediate_rhs instr then base' - 1 else base'

unfoldable pub register_pressure_cost : RuntimeInstr → ℕ
unfolding read_slots sort_unstable dedup
register_pressure_cost instr = length (dedup (sort_unstable (read_slots instr))) - 1
