-- ===== src/Peephole.antt =====
-- src/backend/peephole.rs: the table of instruction characteristics and the port pressure.
use Prim.Native.String.{String}
use text.Mathlib.Text.{◌==◌ as str_eq}
use aziky.Prelude.{ℕ, Bool, true, false, ◌||◌, Option, none, some, List, [], ◌∷◌, if◌then◌else◌}

pub data ExecutionPort : Type 0 where
  port0 port1 port2 port3 port4 port5 port6 : ExecutionPort

-- The throughput, an `f32` in the source, is in hundredths of a cycle.
pub record InstructionInfo : Type 0 where
  pub name : String
  pub latency_cycles : ℕ
  pub throughput_cycles : ℕ
  pub micro_ops : ℕ
  pub ports : List ExecutionPort
  pub fuses_with_next : Bool

abbrev info : String → ℕ → ℕ → ℕ → List ExecutionPort → Bool → Option InstructionInfo
info name latency throughput uops ports fuses = some (record {
  name = name;
  latency_cycles = latency;
  throughput_cycles = throughput;
  micro_ops = uops;
  ports = ports;
  fuses_with_next = fuses;
})

-- The mnemonics of one arm of the table.
abbrev one_of : String → List String → Bool
one_of m [] = false
one_of m (x ∷ xs) = str_eq m x || one_of m xs

unfoldable pub get_instruction_info : String → Option InstructionInfo
get_instruction_info mnemonic =
    if str_eq mnemonic "mov"
    then info "MOV" 1 25 1 (port5 ∷ []) false
    else if str_eq mnemonic "add"
    then info "ADD" 1 25 1 (port0 ∷ port1 ∷ port5 ∷ []) false
    else if str_eq mnemonic "sub"
    then info "SUB" 1 25 1 (port0 ∷ port1 ∷ port5 ∷ []) false
    else if str_eq mnemonic "and"
    then info "AND" 1 25 1 (port0 ∷ port1 ∷ port5 ∷ []) false
    else if str_eq mnemonic "or"
    then info "OR" 1 25 1 (port0 ∷ port1 ∷ port5 ∷ []) false
    else if str_eq mnemonic "xor"
    then info "XOR" 1 25 1 (port0 ∷ port1 ∷ port5 ∷ []) false
    else if str_eq mnemonic "lea"
    then info "LEA" 1 50 1 (port1 ∷ port5 ∷ []) false
    else if str_eq mnemonic "cmp"
    then info "CMP" 1 25 1 (port0 ∷ port1 ∷ port6 ∷ []) true
    else if str_eq mnemonic "test"
    then info "TEST" 1 25 1 (port0 ∷ port1 ∷ port6 ∷ []) true
    else if one_of mnemonic (
        "je" ∷ "jne" ∷ "jl" ∷ "jg" ∷ "jle" ∷ "jge" ∷ "jb" ∷ "ja" ∷ "jbe" ∷ "jae" ∷ "jz" ∷ "jnz"
        ∷ "js" ∷ "jns" ∷ [])
    then info "Jcc" 0 25 0 ([]) false
    else if one_of mnemonic
        ("cmove" ∷ "cmovne" ∷ "cmovl" ∷ "cmovg" ∷ "cmovle" ∷ "cmovge" ∷ "cmovz" ∷ "cmovnz" ∷ [])
    then info "CMOVcc" 1 50 1 (port0 ∷ port1 ∷ port5 ∷ []) false
    else if str_eq mnemonic "inc"
    then info "INC" 1 25 1 (port6 ∷ []) false
    else if str_eq mnemonic "dec"
    then info "DEC" 1 25 1 (port6 ∷ []) false
    else if str_eq mnemonic "popcnt"
    then info "POPCNT" 3 100 1 (port1 ∷ []) false
    else if one_of mnemonic ("tzcnt" ∷ "lzcnt" ∷ "bsf" ∷ "bsr" ∷ [])
    then info "TZCNT/LZCNT" 3 100 1 (port0 ∷ port1 ∷ []) false
    else if str_eq mnemonic "imul"
    then info "IMUL" 3 100 3 (port1 ∷ []) false
    else if str_eq mnemonic "div"
    then info "DIV" 23 800 1 (port0 ∷ []) false
    else if str_eq mnemonic "idiv"
    then info "IDIV" 23 800 1 (port0 ∷ []) false
    else if one_of mnemonic (
        "sete" ∷ "setne" ∷ "setl" ∷ "setg" ∷ "setle" ∷ "setge" ∷ "setb" ∷ "seta" ∷ "setbe" ∷ "setae"
        ∷ "setz" ∷ "setnz" ∷ [])
    then info "SETcc" 2 50 1 (port5 ∷ []) false
    else if str_eq mnemonic "bswap"
    then info "BSWAP" 1 100 1 (port1 ∷ []) false
    else if one_of mnemonic ("btr" ∷ "bts" ∷ "bt" ∷ "btc" ∷ [])
    then info "BT*" 1 100 1 (port0 ∷ []) false
    else if one_of mnemonic ("blsr" ∷ "blsmsk" ∷ "blsi" ∷ [])
    then info "BMI1" 1 100 1 (port0 ∷ []) false
    else if str_eq mnemonic "andn"
    then info "ANDN" 1 100 1 (port1 ∷ []) false
    else if one_of mnemonic ("bzhi" ∷ "pdep" ∷ "pext" ∷ "shrx" ∷ "shlx" ∷ "sarx" ∷ [])
    then info "BMI2" 3 100 1 (port1 ∷ []) false
    else if one_of mnemonic ("shl" ∷ "shr" ∷ "sar" ∷ [])
    then info "SHIFT" 1 50 1 (port0 ∷ port1 ∷ port5 ∷ []) false
    else none
