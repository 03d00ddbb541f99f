-- ===== src/Lir/Slots.antt =====
-- src/backend/lir.rs: the slots that an instruction reads and writes.
use aziky.Prelude.{ℕ, List, [], ◌∷◌, ◌++◌, Option, none, some}
use aziky.Ir.{
  RuntimeOperand, slot, imm, RuntimeInstr, load_seed, mov, bin_op, bin_op_in_place, float_bin_op,
  cmp, normalize_int, jump, jump_if_zero, jump_if_cmp_false, compare_swap, radix_sort_fixed_int,
  call, load_index, load_index_unchecked, store_index, store_index_unchecked, heap_load_int,
  heap_store_int, heap_copy, alloc, free, file_open, file_write, file_read, file_close,
  thread_spawn, thread_join, channel_create, channel_send, channel_recv, channel_close,
  channel_destroy, print_const, print_int, return, exit,
}

abbrev pub operand_slots : RuntimeOperand → List ℕ
operand_slots (slot s) = s ∷ []
operand_slots (imm _) = []

-- `return_slot.iter().copied().collect()`
abbrev optional_slot : Option ℕ → List ℕ
optional_slot none = []
optional_slot (some s) = s ∷ []

unfoldable pub read_slots : RuntimeInstr → List ℕ
read_slots (load_seed _ _ _) = []
read_slots (jump _) = []
read_slots (call _) = []
read_slots (thread_spawn _ _ return_slot) = optional_slot return_slot
read_slots (mov _ src) = operand_slots src
read_slots (bin_op _ _ lhs rhs) = operand_slots lhs ++ operand_slots rhs
read_slots (float_bin_op _ _ _ lhs rhs) = operand_slots lhs ++ operand_slots rhs
read_slots (cmp _ _ lhs rhs) = operand_slots lhs ++ operand_slots rhs
read_slots (jump_if_cmp_false _ lhs rhs _) = operand_slots lhs ++ operand_slots rhs
read_slots (bin_op_in_place dst _ rhs) = dst ∷ operand_slots rhs
read_slots (normalize_int dst _ _) = dst ∷ []
read_slots (jump_if_zero cond_slot _) = cond_slot ∷ []
read_slots (compare_swap left right _) = left ∷ right ∷ []
read_slots (radix_sort_fixed_int slots _ _ _) = slots
read_slots (load_index _ base_slots index) = base_slots ++ operand_slots index
read_slots (load_index_unchecked _ base_slots index) = base_slots ++ operand_slots index
read_slots (store_index base_slots index src) =
    base_slots ++ (operand_slots index ++ operand_slots src)
read_slots (store_index_unchecked base_slots index src) =
    base_slots ++ (operand_slots index ++ operand_slots src)
read_slots (heap_load_int _ ptr index _) = operand_slots ptr ++ operand_slots index
read_slots (heap_store_int ptr index src _) =
    operand_slots ptr ++ (operand_slots index ++ operand_slots src)
read_slots (heap_copy dst_ptr src_ptr bytes) =
    operand_slots dst_ptr ++ (operand_slots src_ptr ++ operand_slots bytes)
read_slots (alloc _ size) = operand_slots size
read_slots (free ptr size) = operand_slots ptr ++ operand_slots size
read_slots (file_open _ path_ptr _ _) = operand_slots path_ptr
read_slots (file_write _ fd ptr len) = operand_slots fd ++ (operand_slots ptr ++ operand_slots len)
read_slots (file_read _ fd ptr len) = operand_slots fd ++ (operand_slots ptr ++ operand_slots len)
read_slots (file_close fd) = operand_slots fd
read_slots (thread_join _ handle) = operand_slots handle
read_slots (channel_create _ capacity _) = operand_slots capacity
read_slots (channel_send handle value) = operand_slots handle ++ operand_slots value
read_slots (channel_recv _ handle) = operand_slots handle
read_slots (channel_close handle _) = operand_slots handle
read_slots (channel_destroy handle) = operand_slots handle
read_slots (print_const _) = []
read_slots return = []
read_slots (print_int value _ _) = operand_slots value
read_slots (exit code) = operand_slots code

unfoldable pub write_slots : RuntimeInstr → List ℕ
write_slots (load_seed dst _ _) = dst ∷ []
write_slots (mov dst _) = dst ∷ []
write_slots (bin_op dst _ _ _) = dst ∷ []
write_slots (bin_op_in_place dst _ _) = dst ∷ []
write_slots (float_bin_op dst _ _ _ _) = dst ∷ []
write_slots (cmp dst _ _ _) = dst ∷ []
write_slots (normalize_int dst _ _) = dst ∷ []
write_slots (load_index dst _ _) = dst ∷ []
write_slots (load_index_unchecked dst _ _) = dst ∷ []
write_slots (heap_load_int dst _ _ _) = dst ∷ []
write_slots (alloc dst _) = dst ∷ []
write_slots (file_open dst _ _ _) = dst ∷ []
write_slots (file_write dst _ _ _) = dst ∷ []
write_slots (file_read dst _ _ _) = dst ∷ []
write_slots (thread_spawn handle_dst _ _) = handle_dst ∷ []
write_slots (thread_join dst _) = dst ∷ []
write_slots (channel_create dst _ _) = dst ∷ []
write_slots (channel_recv dst _) = dst ∷ []
write_slots (compare_swap left right _) = left ∷ right ∷ []
write_slots (radix_sort_fixed_int slots _ _ _) = slots
write_slots (store_index base_slots _ _) = base_slots
write_slots (store_index_unchecked base_slots _ _) = base_slots
write_slots _ = []
