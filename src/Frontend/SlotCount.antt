-- ===== src/Frontend/SlotCount.antt =====
-- src/frontend/optimizer.rs: how many slots a program has.
use aziky.Prelude.{
  ℕ, ◌+◌, max, Bool, true, false, Option, none, some, List, [], ◌∷◌, ◌++◌, if◌then◌else◌,
}
use aziky.Ir.{
  RuntimeOperand, slot, imm, RuntimeInstr, load_seed, mov, bin_op, bin_op_in_place, float_bin_op,
  cmp, normalize_int, jump, jump_if_zero, jump_if_cmp_false, compare_swap, radix_sort_fixed_int,
  call, load_index, load_index_unchecked, store_index, store_index_unchecked, heap_load_int,
  heap_store_int, heap_copy, alloc, free, file_open, file_write, file_read, file_close,
  thread_spawn, thread_join, channel_create, channel_send, channel_recv, channel_close,
  channel_destroy, print_const, print_int, return, exit,
}

-- `bump_operand`: a slot that is counted.
abbrev pub bumped : RuntimeOperand → List ℕ
bumped (slot s) = s ∷ []
bumped (imm _) = []

abbrev pub bumped_optional : Option RuntimeOperand → List ℕ
bumped_optional none = []
bumped_optional (some operand) = bumped operand

abbrev pub bumped_return : Option ℕ → List ℕ
bumped_return none = []
bumped_return (some s) = s ∷ []

-- The slots that an instruction counts, in the order of the source.
unfoldable pub bumped_slots : RuntimeInstr → List ℕ
bumped_slots (load_seed dst _ input) = dst ∷ bumped_optional input
bumped_slots (mov dst src) = dst ∷ bumped src
bumped_slots (bin_op dst _ lhs rhs) = dst ∷ bumped lhs ++ bumped rhs
bumped_slots (bin_op_in_place dst _ rhs) = dst ∷ bumped rhs
bumped_slots (float_bin_op dst _ _ lhs rhs) = dst ∷ bumped lhs ++ bumped rhs
bumped_slots (cmp dst _ lhs rhs) = dst ∷ bumped lhs ++ bumped rhs
bumped_slots (normalize_int dst _ _) = dst ∷ []
bumped_slots (jump _) = []
bumped_slots (jump_if_zero cond_slot _) = cond_slot ∷ []
bumped_slots (jump_if_cmp_false _ lhs rhs _) = bumped lhs ++ bumped rhs
bumped_slots (compare_swap left right _) = left ∷ right ∷ []
bumped_slots (radix_sort_fixed_int slots _ _ _) = slots
bumped_slots (call _) = []
bumped_slots (load_index dst base_slots index) = dst ∷ base_slots ++ bumped index
bumped_slots (load_index_unchecked dst base_slots index) = dst ∷ base_slots ++ bumped index
bumped_slots (store_index base_slots index src) = base_slots ++ bumped index ++ bumped src
bumped_slots (store_index_unchecked base_slots index src) = base_slots ++ bumped index ++ bumped src
bumped_slots (heap_load_int dst ptr index _) = dst ∷ bumped ptr ++ bumped index
bumped_slots (heap_store_int ptr index src _) = bumped ptr ++ bumped index ++ bumped src
bumped_slots (heap_copy dst_ptr src_ptr bytes) = bumped dst_ptr ++ bumped src_ptr ++ bumped bytes
bumped_slots (alloc dst size) = dst ∷ bumped size
bumped_slots (free ptr size) = bumped ptr ++ bumped size
bumped_slots (file_open dst path_ptr _ _) = dst ∷ bumped path_ptr
bumped_slots (file_write dst fd ptr len) = dst ∷ bumped fd ++ bumped ptr ++ bumped len
bumped_slots (file_read dst fd ptr len) = dst ∷ bumped fd ++ bumped ptr ++ bumped len
bumped_slots (file_close fd) = bumped fd
bumped_slots (thread_spawn handle_dst _ return_slot) = handle_dst ∷ bumped_return return_slot
bumped_slots (thread_join dst handle) = dst ∷ bumped handle
bumped_slots (channel_create dst capacity _) = dst ∷ bumped capacity
bumped_slots (channel_send handle value) = bumped handle ++ bumped value
bumped_slots (channel_recv dst handle) = dst ∷ bumped handle
bumped_slots (channel_close handle _) = bumped handle
bumped_slots (channel_destroy handle) = bumped handle
bumped_slots (print_const _) = []
bumped_slots (print_int value _ _) = bumped value
bumped_slots return = []
bumped_slots (exit code) = bumped code

-- `bump_slot` over the slots, with the greatest one and whether there was any.
abbrev pub bump_slots : ℕ → Bool → List ℕ → ℕ × Bool
bump_slots max_slot saw_any [] = (max_slot, saw_any)
bump_slots max_slot saw_any (s ∷ slots) = bump_slots (max max_slot s) true slots

abbrev pub bump_instrs : ℕ → Bool → List RuntimeInstr → ℕ × Bool
bump_instrs max_slot saw_any [] = (max_slot, saw_any)
bump_instrs max_slot saw_any (instr ∷ rest) =
    let (max_slot', saw_any') = bump_slots max_slot saw_any (bumped_slots instr) in
    bump_instrs max_slot' saw_any' rest

unfoldable pub runtime_program_slot_count : List RuntimeInstr → ℕ
runtime_program_slot_count instrs =
    let (max_slot, saw_any) = bump_instrs 0 false instrs in if saw_any then max_slot + 1 else 0
