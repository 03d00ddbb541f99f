-- ===== src/Schedule/Ports.antt =====
-- src/backend/optimizer.rs: the load of the execution ports that scheduling keeps count of.
use aziky.Prelude.{ℕ, zero, suc, Option, none, some, List, [], ◌∷◌, max}
use aziky.Ir.{RuntimeInstr}
use aziky.Peephole.{
  ExecutionPort, port0, port1, port2, port3, port4, port5, port6, InstructionInfo,
  get_instruction_info,
}
use aziky.Superopt.Cost.{instruction_mnemonic}

abbrev pub port_index : ExecutionPort → ℕ
port_index port0 = 0
port_index port1 = 1
port_index port2 = 2
port_index port3 = 3
port_index port4 = 4
port_index port5 = 5
port_index port6 = 6

unfoldable pub machine_info : RuntimeInstr → Option InstructionInfo
machine_info instr = get_instruction_info (instruction_mnemonic instr)

-- `counts[index] += 1` in the array of seven counts.
unfoldable pub count_port : List ℕ → ℕ → List ℕ
count_port [] index = []
count_port (count ∷ counts) zero = suc count ∷ counts
count_port (count ∷ counts) (suc index) = count ∷ count_port counts index

unfoldable pub count_ports : List ExecutionPort → List ℕ → List ℕ
count_ports [] counts = counts
count_ports (port ∷ ports) counts = count_ports ports (count_port counts (port_index port))

unfoldable pub account_ports : RuntimeInstr → List ℕ → List ℕ
account_ports instr counts = elim (machine_info instr) [
  | none ↦ counts
  | some info ↦ count_ports info.ports counts
]

-- `iter().max().unwrap_or(0)`
unfoldable pub maximum : List ℕ → ℕ
maximum [] = 0
maximum (x ∷ xs) = max x (maximum xs)

unfoldable pub projected_machine_pressure : RuntimeInstr → List ℕ → ℕ × ℕ
projected_machine_pressure instr counts = elim (machine_info instr) [
  | none ↦ (maximum counts, 1)
  | some info ↦ (maximum (count_ports info.ports counts), info.micro_ops)
]
