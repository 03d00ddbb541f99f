-- ===== src/Lir/KnownBits.antt =====
-- src/backend/lir.rs: the bits of a value that are known to be zero or to be one.
use aziky.Prelude.{
  ℕ, ◌+◌, ◌-◌, ◌^◌, min, bit_and, bit_or, Bool, false, Option, none, some, List, [], ◌∷◌, ltb, ◌==◌,
  if◌then◌else◌, get_elem?, ◌>>=◌,
}
use aziky.Ir.{
  RuntimeOperand, slot, imm, RuntimeBinOp, add, sub, mul, op_and, op_or, op_xor, shl, shr_unsigned,
  RuntimeInstr, mov, bin_op, bin_op_in_place, cmp, normalize_int,
}
use aziky.Word.{wrapping_sub, shift_left, shift_right, complement, bit_length}

-- Masks of the bits that are zero, and of those that are one.
pub record KnownBits : Type 0 where
  pub zero_bits : ℕ
  pub one_bits : ℕ

abbrev pub unknown : KnownBits
unknown = record { zero_bits = 0; one_bits = 0 }

unfoldable pub constant : ℕ → KnownBits
constant value = record { zero_bits = complement value; one_bits = value }

unfoldable pub unsigned_min : KnownBits → ℕ
unsigned_min fact = fact.one_bits

unfoldable pub unsigned_max : KnownBits → ℕ
unsigned_max fact = complement fact.zero_bits

unfoldable pub width : KnownBits → ℕ
width fact = let max = unsigned_max fact in if max == 0 then 1 else bit_length 64 max

-- `u64::checked_add`
abbrev pub checked_add : ℕ → ℕ → Option ℕ
checked_add a b = if ltb (a + b) (2 ^ 64) then some (a + b) else none

-- The ones up to the highest one of a bound: `u64::MAX >> max.leading_zeros()`, or 0.
abbrev pub ones_up_to : ℕ → ℕ
ones_up_to max = if max == 0 then 0 else shift_right (2 ^ 64 - 1) (64 - bit_length 64 max)

abbrev pub bounded_by : Option ℕ → KnownBits
bounded_by (some max) = record { zero_bits = complement (ones_up_to max); one_bits = 0 }
bounded_by none = unknown

abbrev pub is_imm : RuntimeOperand → ℕ → Bool
is_imm (imm value) n = value == n
is_imm (slot _) n = false

abbrev pub known_bits_for_add : RuntimeOperand → RuntimeOperand → KnownBits → KnownBits → KnownBits
known_bits_for_add lhs_operand rhs_operand lhs rhs =
    if is_imm rhs_operand 0
    then lhs
    else if is_imm lhs_operand 0
    then rhs
    else bounded_by (checked_add (complement lhs.zero_bits) (complement rhs.zero_bits))

abbrev pub known_bits_for_mul : RuntimeOperand → RuntimeOperand → KnownBits → KnownBits → KnownBits
known_bits_for_mul lhs_operand rhs_operand lhs rhs =
    if is_imm rhs_operand 0
    then constant 0
    else if is_imm lhs_operand 0
    then constant 0
    else if is_imm rhs_operand 1
    then lhs
    else if is_imm lhs_operand 1
    then rhs
    else unknown

abbrev pub known_bits_for_shl : RuntimeOperand → KnownBits → KnownBits
known_bits_for_shl (slot _) lhs = unknown
known_bits_for_shl (imm shift) lhs =
    if ltb shift 64
    then record {
      zero_bits = bit_or (shift_left lhs.zero_bits shift) (wrapping_sub (shift_left 1 shift) 1);
      one_bits = shift_left lhs.one_bits shift;
    }
    else unknown

-- The zeros that a shift to the right brings in.
abbrev pub introduced_zero : ℕ → ℕ
introduced_zero shift = if shift == 0 then 0 else shift_left (complement 0) (64 - shift)

abbrev pub known_bits_for_shr : RuntimeOperand → KnownBits → KnownBits
known_bits_for_shr (slot _) lhs = unknown
known_bits_for_shr (imm shift) lhs =
    if ltb shift 64
    then record {
      zero_bits = bit_or (shift_right lhs.zero_bits shift) (introduced_zero shift);
      one_bits = shift_right lhs.one_bits shift;
    }
    else unknown

unfoldable pub known_bits_for_binop :
    RuntimeBinOp → RuntimeOperand → RuntimeOperand → KnownBits → KnownBits → KnownBits
known_bits_for_binop op_and lhs_operand rhs_operand lhs rhs = record {
  zero_bits = bit_or lhs.zero_bits rhs.zero_bits;
  one_bits = bit_and lhs.one_bits rhs.one_bits;
}
known_bits_for_binop op_or lhs_operand rhs_operand lhs rhs = record {
  zero_bits = bit_and lhs.zero_bits rhs.zero_bits;
  one_bits = bit_or lhs.one_bits rhs.one_bits;
}
known_bits_for_binop op_xor lhs_operand rhs_operand lhs rhs = record {
  zero_bits = bit_or (bit_and lhs.zero_bits rhs.zero_bits) (bit_and lhs.one_bits rhs.one_bits);
  one_bits = bit_or (bit_and lhs.zero_bits rhs.one_bits) (bit_and lhs.one_bits rhs.zero_bits);
}
known_bits_for_binop shl lhs_operand rhs_operand lhs rhs = known_bits_for_shl rhs_operand lhs
known_bits_for_binop shr_unsigned lhs_operand rhs_operand lhs rhs =
    known_bits_for_shr rhs_operand lhs
known_bits_for_binop add lhs_operand rhs_operand lhs rhs =
    known_bits_for_add lhs_operand rhs_operand lhs rhs
known_bits_for_binop sub lhs_operand rhs_operand lhs rhs =
    if is_imm rhs_operand 0 then lhs else unknown
known_bits_for_binop mul lhs_operand rhs_operand lhs rhs =
    known_bits_for_mul lhs_operand rhs_operand lhs rhs
known_bits_for_binop _ lhs_operand rhs_operand lhs rhs = unknown

pub record SsaUse : Type 0 where
  pub slot : ℕ
  pub value : ℕ

pub record SsaInstruction : Type 0 where
  pub instr_index : ℕ
  pub reads : List SsaUse
  pub writes : List SsaUse

pub record SsaPhiInput : Type 0 where
  pub predecessor : Option ℕ
  pub value : ℕ

pub record SsaPhi : Type 0 where
  pub block : ℕ
  pub slot : ℕ
  pub value : ℕ
  pub inputs : List SsaPhiInput

abbrev pub or_unknown : Option KnownBits → KnownBits
or_unknown none = unknown
or_unknown (some fact) = fact

abbrev pub meet_inputs : List KnownBits → KnownBits → List SsaPhiInput → KnownBits
meet_inputs facts result [] = result
meet_inputs facts result (input ∷ inputs) =
    let fact = or_unknown (get_elem? facts input.value) in
    meet_inputs facts
      (record {
        zero_bits = bit_and result.zero_bits fact.zero_bits;
        one_bits = bit_and result.one_bits fact.one_bits;
      })
      inputs

abbrev pub known_bits_for_inputs : List KnownBits → List SsaPhiInput → KnownBits
known_bits_for_inputs facts [] = unknown
known_bits_for_inputs facts (first ∷ inputs) =
    meet_inputs facts (or_unknown (get_elem? facts first.value)) inputs

unfoldable pub known_bits_for_phi : SsaPhi → List KnownBits → KnownBits
known_bits_for_phi phi facts = known_bits_for_inputs facts phi.inputs

abbrev pub find_use : List SsaUse → ℕ → Option ℕ
find_use [] s = none
find_use (usage ∷ rest) s =
    let found = find_use rest s in if usage.slot == s then some usage.value else found

abbrev pub slot_fact : SsaInstruction → List KnownBits → ℕ → KnownBits
slot_fact ssa_instr facts s =
    or_unknown (do value ← find_use ssa_instr.reads s; get_elem? facts value)

abbrev pub operand_fact : SsaInstruction → List KnownBits → RuntimeOperand → KnownBits
operand_fact ssa_instr facts (imm value) = constant value
operand_fact ssa_instr facts (slot s) = slot_fact ssa_instr facts s

abbrev pub low_mask : ℕ → ℕ
low_mask width = if width == 0 then 0 else shift_left 1 width - 1

abbrev pub known_bits_for_normalize : Bool → ℕ → KnownBits → KnownBits
known_bits_for_normalize signed bits input =
    let width = min bits 64 in
    if width == 64 then input else if signed then unknown else record {
      zero_bits = bit_or input.zero_bits (complement (low_mask width));
      one_bits = bit_and input.one_bits (low_mask width);
    }

-- The index of the written slot, which the source passes, is not used by it.
unfoldable pub known_bits_for_instruction :
    RuntimeInstr → SsaInstruction → List KnownBits → KnownBits
known_bits_for_instruction (mov _ src) ssa_instr facts = operand_fact ssa_instr facts src
known_bits_for_instruction (bin_op _ op lhs rhs) ssa_instr facts =
    known_bits_for_binop op lhs rhs (operand_fact ssa_instr facts lhs)
      (operand_fact ssa_instr facts rhs)
known_bits_for_instruction (bin_op_in_place dst op rhs) ssa_instr facts =
    known_bits_for_binop op (slot dst) rhs (slot_fact ssa_instr facts dst)
      (operand_fact ssa_instr facts rhs)
known_bits_for_instruction (cmp _ _ _ _) ssa_instr facts = record {
  zero_bits = complement 1;
  one_bits = 0;
}
known_bits_for_instruction (normalize_int dst signed bits) ssa_instr facts =
    known_bits_for_normalize signed bits (slot_fact ssa_instr facts dst)
known_bits_for_instruction _ ssa_instr facts = unknown
