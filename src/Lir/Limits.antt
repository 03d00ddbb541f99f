-- ===== src/Lir/Limits.antt =====
-- src/backend/lir.rs and src/frontend/semantics/ir.rs: what slots and targets of an instruction are
-- in range, variant by variant, with no use of the functions that collect them.
use aziky.Prelude.{ℕ, ◌<◌, ◌≤◌, none, some, List, [], ◌∷◌, ◌++◌, All, All-append, All-split, ◌↔◌}
use aziky.Ir.{
  RuntimeOperand, slot, imm, RuntimeInstr, load_seed, mov, bin_op, bin_op_in_place, float_bin_op,
  cmp, normalize_int, jump, jump_if_zero, jump_if_cmp_false, compare_swap, radix_sort_fixed_int,
  call, load_index, load_index_unchecked, store_index, store_index_unchecked, heap_load_int,
  heap_store_int, heap_copy, alloc, free, file_open, file_write, file_read, file_close,
  thread_spawn, thread_join, channel_create, channel_send, channel_recv, channel_close,
  channel_destroy, print_int, exit,
}
use aziky.Lir.Slots.{operand_slots, read_slots, write_slots}

abbrev pub SlotsIn : ℕ → List ℕ → Type 0
SlotsIn n used = All (λ s. s < n) used

abbrev pub OperandIn : ℕ → RuntimeOperand → Type 0
OperandIn n (slot s) = s < n
OperandIn n (imm _) = Unit

-- What an instruction reads is in range. The input of load_seed is not checked.
abbrev pub ReadsIn : ℕ → RuntimeInstr → Type 0
ReadsIn n (mov _ src) = OperandIn n src
ReadsIn n (bin_op _ _ lhs rhs) = OperandIn n lhs × OperandIn n rhs
ReadsIn n (bin_op_in_place dst _ rhs) = (dst < n) × OperandIn n rhs
ReadsIn n (float_bin_op _ _ _ lhs rhs) = OperandIn n lhs × OperandIn n rhs
ReadsIn n (cmp _ _ lhs rhs) = OperandIn n lhs × OperandIn n rhs
ReadsIn n (normalize_int dst _ _) = dst < n
ReadsIn n (jump_if_zero cond_slot _) = cond_slot < n
ReadsIn n (jump_if_cmp_false _ lhs rhs _) = OperandIn n lhs × OperandIn n rhs
ReadsIn n (compare_swap left right _) = (left < n) × (right < n)
ReadsIn n (radix_sort_fixed_int slots _ _ _) = SlotsIn n slots
ReadsIn n (load_index _ base_slots index) = SlotsIn n base_slots × OperandIn n index
ReadsIn n (load_index_unchecked _ base_slots index) = SlotsIn n base_slots × OperandIn n index
ReadsIn n (store_index base_slots index src) =
    SlotsIn n base_slots × OperandIn n index × OperandIn n src
ReadsIn n (store_index_unchecked base_slots index src) =
    SlotsIn n base_slots × OperandIn n index × OperandIn n src
ReadsIn n (heap_load_int _ ptr index _) = OperandIn n ptr × OperandIn n index
ReadsIn n (heap_store_int ptr index src _) = OperandIn n ptr × OperandIn n index × OperandIn n src
ReadsIn n (heap_copy dst_ptr src_ptr bytes) =
    OperandIn n dst_ptr × OperandIn n src_ptr × OperandIn n bytes
ReadsIn n (alloc _ size) = OperandIn n size
ReadsIn n (free ptr size) = OperandIn n ptr × OperandIn n size
ReadsIn n (file_open _ path_ptr _ _) = OperandIn n path_ptr
ReadsIn n (file_write _ fd ptr len) = OperandIn n fd × OperandIn n ptr × OperandIn n len
ReadsIn n (file_read _ fd ptr len) = OperandIn n fd × OperandIn n ptr × OperandIn n len
ReadsIn n (file_close fd) = OperandIn n fd
ReadsIn n (thread_spawn _ _ (some return_slot)) = return_slot < n
ReadsIn n (thread_join _ handle) = OperandIn n handle
ReadsIn n (channel_create _ capacity _) = OperandIn n capacity
ReadsIn n (channel_send handle value) = OperandIn n handle × OperandIn n value
ReadsIn n (channel_recv _ handle) = OperandIn n handle
ReadsIn n (channel_close handle _) = OperandIn n handle
ReadsIn n (channel_destroy handle) = OperandIn n handle
ReadsIn n (print_int value _ _) = OperandIn n value
ReadsIn n (exit code) = OperandIn n code
ReadsIn n _ = Unit

-- What an instruction writes is in range.
abbrev pub WritesIn : ℕ → RuntimeInstr → Type 0
WritesIn n (load_seed dst _ _) = dst < n
WritesIn n (mov dst _) = dst < n
WritesIn n (bin_op dst _ _ _) = dst < n
WritesIn n (bin_op_in_place dst _ _) = dst < n
WritesIn n (float_bin_op dst _ _ _ _) = dst < n
WritesIn n (cmp dst _ _ _) = dst < n
WritesIn n (normalize_int dst _ _) = dst < n
WritesIn n (compare_swap left right _) = (left < n) × (right < n)
WritesIn n (radix_sort_fixed_int slots _ _ _) = SlotsIn n slots
WritesIn n (load_index dst _ _) = dst < n
WritesIn n (load_index_unchecked dst _ _) = dst < n
WritesIn n (store_index base_slots _ _) = SlotsIn n base_slots
WritesIn n (store_index_unchecked base_slots _ _) = SlotsIn n base_slots
WritesIn n (heap_load_int dst _ _ _) = dst < n
WritesIn n (alloc dst _) = dst < n
WritesIn n (file_open dst _ _ _) = dst < n
WritesIn n (file_write dst _ _ _) = dst < n
WritesIn n (file_read dst _ _ _) = dst < n
WritesIn n (thread_spawn handle_dst _ _) = handle_dst < n
WritesIn n (thread_join dst _) = dst < n
WritesIn n (channel_create dst _ _) = dst < n
WritesIn n (channel_recv dst _) = dst < n
WritesIn n _ = Unit

-- The target of a jump or a call is in range, or the end; that of thread_spawn is not checked.
abbrev pub TargetIn : ℕ → RuntimeInstr → Type 0
TargetIn count (jump target) = target ≤ count
TargetIn count (jump_if_zero _ target) = target ≤ count
TargetIn count (jump_if_cmp_false _ _ _ target) = target ≤ count
TargetIn count (call target) = target ≤ count
TargetIn count _ = Unit

module _ (n : ℕ) where
  one : (o : RuntimeOperand) → SlotsIn n (operand_slots o) ↔ OperandIn n o
  one (slot s) = (λ (h, _). h, λ h. (h, tt))
  one (imm _) = (λ h. h, λ h. h)

  behind :
      (xs ys : List ℕ) (P : Type 0) → (SlotsIn n ys ↔ P) → SlotsIn n (xs ++ ys) ↔ (SlotsIn n xs × P)
  behind xs ys P (f, g) = (
    λ h. let (l, r) = All-split (λ s. s < n) xs ys h in (l, f r),
    λ (l, p). All-append (λ s. s < n) xs ys l (g p),
  )

  more :
      (o : RuntimeOperand) (ys : List ℕ) (P : Type 0)
      → (SlotsIn n ys ↔ P)
      → SlotsIn n (operand_slots o ++ ys) ↔ (OperandIn n o × P)
  more o ys P e =
      let (f, g) = behind (operand_slots o) ys P e in
      let (p, q) = one o in (λ h. let (l, r) = f h in (p l, r), λ (l, r). g (q l, r))

  two :
      (a b : RuntimeOperand)
      → SlotsIn n (operand_slots a ++ operand_slots b) ↔ (OperandIn n a × OperandIn n b)
  two a b = more a (operand_slots b) _ (one b)

  three :
      (a b c : RuntimeOperand)
      → SlotsIn n (operand_slots a ++ (operand_slots b ++ operand_slots c))
        ↔ (OperandIn n a × OperandIn n b × OperandIn n c)
  three a b c =
      let (f, g) = more a (operand_slots b ++ operand_slots c) _ (two b c) in
      (λ h. let (x, (y, z)) = f h in (x, y, z), λ (x, y, z). g (x, (y, z)))

  behind_two :
      (xs : List ℕ) (a b : RuntimeOperand)
      → SlotsIn n (xs ++ (operand_slots a ++ operand_slots b))
        ↔ (SlotsIn n xs × OperandIn n a × OperandIn n b)
  behind_two xs a b =
      let (f, g) = behind xs (operand_slots a ++ operand_slots b) _ (two a b) in
      (λ h. let (x, (y, z)) = f h in (x, y, z), λ (x, y, z). g (x, (y, z)))

  single : (s : ℕ) → SlotsIn n (s ∷ []) ↔ (s < n)
  single s = (λ (h, _). h, λ h. (h, tt))

  pair : (s t : ℕ) → SlotsIn n (s ∷ t ∷ []) ↔ ((s < n) × (t < n))
  pair s t = (λ (h, (k, _)). (h, k), λ (h, k). (h, (k, tt)))

  pub read_slots-ReadsIn : (instr : RuntimeInstr) → SlotsIn n (read_slots instr) ↔ ReadsIn n instr
  unfolding read_slots
  read_slots-ReadsIn (mov _ src) = one src
  read_slots-ReadsIn (bin_op _ _ lhs rhs) = two lhs rhs
  read_slots-ReadsIn (bin_op_in_place dst _ rhs) =
      let (f, g) = behind (dst ∷ []) (operand_slots rhs) _ (one rhs) in
      (λ h. let ((d, _), r) = f h in (d, r), λ (d, r). g ((d, tt), r))
  read_slots-ReadsIn (float_bin_op _ _ _ lhs rhs) = two lhs rhs
  read_slots-ReadsIn (cmp _ _ lhs rhs) = two lhs rhs
  read_slots-ReadsIn (normalize_int dst _ _) = single dst
  read_slots-ReadsIn (jump_if_zero cond_slot _) = single cond_slot
  read_slots-ReadsIn (jump_if_cmp_false _ lhs rhs _) = two lhs rhs
  read_slots-ReadsIn (compare_swap left right _) = pair left right
  read_slots-ReadsIn (load_index _ base_slots index) =
      behind base_slots (operand_slots index) _ (one index)
  read_slots-ReadsIn (load_index_unchecked _ base_slots index) =
      behind base_slots (operand_slots index) _ (one index)
  read_slots-ReadsIn (store_index base_slots index src) = behind_two base_slots index src
  read_slots-ReadsIn (store_index_unchecked base_slots index src) = behind_two base_slots index src
  read_slots-ReadsIn (heap_load_int _ ptr index _) = two ptr index
  read_slots-ReadsIn (heap_store_int ptr index src _) = three ptr index src
  read_slots-ReadsIn (heap_copy dst_ptr src_ptr bytes) = three dst_ptr src_ptr bytes
  read_slots-ReadsIn (alloc _ size) = one size
  read_slots-ReadsIn (free ptr size) = two ptr size
  read_slots-ReadsIn (file_open _ path_ptr _ _) = one path_ptr
  read_slots-ReadsIn (file_write _ fd ptr len) = three fd ptr len
  read_slots-ReadsIn (file_read _ fd ptr len) = three fd ptr len
  read_slots-ReadsIn (file_close fd) = one fd
  read_slots-ReadsIn (thread_spawn _ _ (some return_slot)) = single return_slot
  read_slots-ReadsIn (thread_spawn _ _ none) = (λ h. h, λ h. h)
  read_slots-ReadsIn (thread_join _ handle) = one handle
  read_slots-ReadsIn (channel_create _ capacity _) = one capacity
  read_slots-ReadsIn (channel_send handle value) = two handle value
  read_slots-ReadsIn (channel_recv _ handle) = one handle
  read_slots-ReadsIn (channel_close handle _) = one handle
  read_slots-ReadsIn (channel_destroy handle) = one handle
  read_slots-ReadsIn (print_int value _ _) = one value
  read_slots-ReadsIn (exit code) = one code
  read_slots-ReadsIn _ = (λ h. h, λ h. h)

  pub write_slots-WritesIn :
      (instr : RuntimeInstr) → SlotsIn n (write_slots instr) ↔ WritesIn n instr
  unfolding write_slots
  write_slots-WritesIn (load_seed dst _ _) = single dst
  write_slots-WritesIn (mov dst _) = single dst
  write_slots-WritesIn (bin_op dst _ _ _) = single dst
  write_slots-WritesIn (bin_op_in_place dst _ _) = single dst
  write_slots-WritesIn (float_bin_op dst _ _ _ _) = single dst
  write_slots-WritesIn (cmp dst _ _ _) = single dst
  write_slots-WritesIn (normalize_int dst _ _) = single dst
  write_slots-WritesIn (compare_swap left right _) = pair left right
  write_slots-WritesIn (load_index dst _ _) = single dst
  write_slots-WritesIn (load_index_unchecked dst _ _) = single dst
  write_slots-WritesIn (heap_load_int dst _ _ _) = single dst
  write_slots-WritesIn (alloc dst _) = single dst
  write_slots-WritesIn (file_open dst _ _ _) = single dst
  write_slots-WritesIn (file_write dst _ _ _) = single dst
  write_slots-WritesIn (file_read dst _ _ _) = single dst
  write_slots-WritesIn (thread_spawn handle_dst _ _) = single handle_dst
  write_slots-WritesIn (thread_join dst _) = single dst
  write_slots-WritesIn (channel_create dst _ _) = single dst
  write_slots-WritesIn (channel_recv dst _) = single dst
  write_slots-WritesIn _ = (λ h. h, λ h. h)
