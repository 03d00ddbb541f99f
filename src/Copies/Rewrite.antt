-- ===== src/Copies/Rewrite.antt =====
-- src/backend/optimizer.rs: rewrite_operand and rewrite_instruction_operands.
use aziky.Prelude.{ℕ, ◌+◌, Bool, false, Option, none, some, ◌==◌, if◌then◌else◌}
use aziky.Ir.{
  RuntimeOperand, slot, imm, RuntimeInstr, load_seed, mov, bin_op, bin_op_in_place, float_bin_op,
  cmp, jump_if_cmp_false, load_index, load_index_unchecked, store_index, store_index_unchecked,
  heap_load_int, heap_store_int, heap_copy, alloc, free, file_open, file_write, file_read,
  file_close, thread_join, channel_create, channel_send, channel_recv, channel_close,
  channel_destroy, print_int, exit,
}

-- A `HashMap` from a slot to what stands for it.
abbrev pub Aliases : Type 0
Aliases = ℕ → Option RuntimeOperand

unfoldable pub runtime_operands_equal : RuntimeOperand → RuntimeOperand → Bool
runtime_operands_equal (slot a) (slot b) = a == b
runtime_operands_equal (imm a) (imm b) = a == b
runtime_operands_equal _ _ = false

abbrev pub replaced : RuntimeOperand → Option RuntimeOperand → RuntimeOperand × ℕ
replaced operand none = (operand, 0)
replaced operand (some replacement) =
    if runtime_operands_equal operand replacement then (operand, 0) else (replacement, 1)

-- The operand, and how many operands changed.
unfoldable pub rewrite_operand : Aliases → RuntimeOperand → RuntimeOperand × ℕ
rewrite_operand aliases (imm value) = (imm value, 0)
rewrite_operand aliases (slot s) = replaced (slot s) (aliases s)

module _ (aliases : Aliases) where
  -- `rewrite` of one, two or three operands; the counts stay far below where they saturate.
  abbrev pub rewrite_one : (RuntimeOperand → RuntimeInstr) → RuntimeOperand → RuntimeInstr × ℕ
  rewrite_one build a = let a' = rewrite_operand aliases a in (build a'.0, a'.1)

  abbrev pub rewrite_two :
      (RuntimeOperand → RuntimeOperand → RuntimeInstr)
      → RuntimeOperand
      → RuntimeOperand
      → RuntimeInstr × ℕ
  rewrite_two build a b =
      let a' = rewrite_operand aliases a in
      let b' = rewrite_operand aliases b in (build a'.0 b'.0, a'.1 + b'.1)

  abbrev pub rewrite_three :
      (RuntimeOperand → RuntimeOperand → RuntimeOperand → RuntimeInstr)
      → RuntimeOperand
      → RuntimeOperand
      → RuntimeOperand
      → RuntimeInstr × ℕ
  rewrite_three build a b c =
      let a' = rewrite_operand aliases a in
      let b' = rewrite_operand aliases b in
      let c' = rewrite_operand aliases c in (build a'.0 b'.0 c'.0, a'.1 + b'.1 + c'.1)

  unfoldable pub rewrite_instruction_operands : RuntimeInstr → RuntimeInstr × ℕ
  rewrite_instruction_operands (load_seed dst kind (some input)) =
      rewrite_one (λ a. load_seed dst kind (some a)) input
  rewrite_instruction_operands (mov dst src) = rewrite_one (mov dst) src
  rewrite_instruction_operands (print_int value signed bits) =
      rewrite_one (λ a. print_int a signed bits) value
  rewrite_instruction_operands (exit code) = rewrite_one exit code
  rewrite_instruction_operands (alloc dst size) = rewrite_one (alloc dst) size
  rewrite_instruction_operands (bin_op dst op lhs rhs) = rewrite_two (bin_op dst op) lhs rhs
  rewrite_instruction_operands (float_bin_op dst bits op lhs rhs) =
      rewrite_two (float_bin_op dst bits op) lhs rhs
  rewrite_instruction_operands (cmp dst op lhs rhs) = rewrite_two (cmp dst op) lhs rhs
  rewrite_instruction_operands (jump_if_cmp_false op lhs rhs target) =
      rewrite_two (λ a b. jump_if_cmp_false op a b target) lhs rhs
  rewrite_instruction_operands (bin_op_in_place dst op rhs) =
      rewrite_one (bin_op_in_place dst op) rhs
  rewrite_instruction_operands (load_index dst base_slots index) =
      rewrite_one (load_index dst base_slots) index
  rewrite_instruction_operands (load_index_unchecked dst base_slots index) =
      rewrite_one (load_index_unchecked dst base_slots) index
  rewrite_instruction_operands (store_index base_slots index src) =
      rewrite_two (store_index base_slots) index src
  rewrite_instruction_operands (store_index_unchecked base_slots index src) =
      rewrite_two (store_index_unchecked base_slots) index src
  rewrite_instruction_operands (heap_load_int dst ptr index width) =
      rewrite_two (λ a b. heap_load_int dst a b width) ptr index
  rewrite_instruction_operands (heap_store_int ptr index src width) =
      rewrite_three (λ a b c. heap_store_int a b c width) ptr index src
  rewrite_instruction_operands (heap_copy dst_ptr src_ptr bytes) =
      rewrite_three heap_copy dst_ptr src_ptr bytes
  rewrite_instruction_operands (free ptr size) = rewrite_two free ptr size
  rewrite_instruction_operands (file_open dst path_ptr flags mode) =
      rewrite_one (λ a. file_open dst a flags mode) path_ptr
  rewrite_instruction_operands (file_write dst fd ptr len) =
      rewrite_three (file_write dst) fd ptr len
  rewrite_instruction_operands (file_read dst fd ptr len) = rewrite_three (file_read dst) fd ptr len
  rewrite_instruction_operands (file_close fd) = rewrite_one file_close fd
  rewrite_instruction_operands (thread_join dst handle) = rewrite_one (thread_join dst) handle
  rewrite_instruction_operands (channel_create dst capacity shared) =
      rewrite_one (λ a. channel_create dst a shared) capacity
  rewrite_instruction_operands (channel_send handle value) = rewrite_two channel_send handle value
  rewrite_instruction_operands (channel_recv dst handle) = rewrite_one (channel_recv dst) handle
  rewrite_instruction_operands (channel_close handle sender) =
      rewrite_one (λ a. channel_close a sender) handle
  rewrite_instruction_operands (channel_destroy handle) = rewrite_one channel_destroy handle
  rewrite_instruction_operands instr = (instr, 0)
