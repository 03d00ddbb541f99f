-- ===== src/Frontend/Fold.antt =====
-- src/frontend/optimizer.rs: constant folding of instructions, and the pass over a program.
-- An outer `none` is a panic of the compiler, such as a write past the table of constants.
use aziky.Prelude.{
  ℕ, ◌%◌, ◌^◌, Bool, false, Option, none, some, List, [], ◌∷◌, map, ltb, leb, ◌==◌, if◌then◌else◌,
  get_elem?, set, length, ◌>>=◌,
}
use aziky.Ir.{
  RuntimeOperand, slot, imm, RuntimeBinOp, RuntimeFloatBinOp, RuntimeCmpOp, RuntimeInstr, load_seed,
  mov, bin_op, bin_op_in_place, float_bin_op, cmp, normalize_int, jump, jump_if_zero,
  jump_if_cmp_false, compare_swap, radix_sort_fixed_int, call, load_index, load_index_unchecked,
  store_index, store_index_unchecked, heap_load_int, heap_store_int, heap_copy, alloc, free,
  file_open, file_write, file_read, file_close, thread_spawn, thread_join, channel_create,
  channel_send, channel_recv, channel_close, channel_destroy, print_const, print_int, return, exit,
}
use aziky.Frontend.Eval.{
  eval_runtime_binop, eval_runtime_cmp, normalize_const_int, fold_operand_const,
  operand_const_value, fold_binop_in_place_is_nop, fold_binop_identity,
}

abbrev pub Consts : Type 0
Consts = List (Option ℕ)

-- `const_slots[dst] = known`
abbrev pub store : Consts → ℕ → Option ℕ → Option Consts
store const_slots dst known =
    if ltb dst (length const_slots) then some (set const_slots dst known) else none

abbrev pub store_none : Consts → List ℕ → Option Consts
store_none const_slots [] = some const_slots
store_none const_slots (s ∷ rest) = do
  const_slots' ← store const_slots s none
  store_none const_slots' rest

unfoldable pub clear_const_slots : Consts → Consts
clear_const_slots const_slots = map (λ _. none) const_slots

-- What is left of an instruction, and the constants after it.
abbrev pub Folded : Type 0
Folded = Option RuntimeInstr × Consts

abbrev pub keep : RuntimeInstr → Consts → Option Folded
keep instr const_slots = some (some instr, const_slots)

-- The instruction in a slot of whose value nothing is known.
abbrev pub keep_unknown : ℕ → RuntimeInstr → Consts → Option Folded
keep_unknown dst instr const_slots = do
  const_slots' ← store const_slots dst none
  keep instr const_slots'

abbrev pub keep_value : ℕ → ℕ → Consts → Option Folded
keep_value dst value const_slots = do
  const_slots' ← store const_slots dst (some value)
  keep (mov dst (imm value)) const_slots'

abbrev pub eval_known : RuntimeBinOp → Option ℕ → Option ℕ → Option (Option ℕ)
eval_known op (some l) (some r) = eval_runtime_binop op l r
eval_known op _ _ = some none

abbrev pub fold_by_identity :
    Consts
    → ℕ
    → RuntimeBinOp
    → RuntimeOperand
    → RuntimeOperand
    → Option RuntimeOperand
    → Option Folded
fold_by_identity const_slots dst op lhs rhs (some identity) = do
  const_slots' ← store const_slots dst (operand_const_value identity const_slots)
  keep (mov dst identity) const_slots'
fold_by_identity const_slots dst op lhs rhs none =
    keep_unknown dst (bin_op dst op lhs rhs) const_slots

abbrev pub fold_evaluated :
    Consts → ℕ → RuntimeBinOp → RuntimeOperand → RuntimeOperand → Option ℕ → Option Folded
fold_evaluated const_slots dst op lhs rhs (some value) = keep_value dst value const_slots
fold_evaluated const_slots dst op lhs rhs none =
    fold_by_identity const_slots dst op lhs rhs (fold_binop_identity op lhs rhs)

unfoldable pub fold_bin_op :
    ℕ → RuntimeBinOp → RuntimeOperand → RuntimeOperand → Consts → Option Folded
fold_bin_op dst op lhs rhs const_slots = do
  evaluated ←
      eval_known op (operand_const_value lhs const_slots) (operand_const_value rhs const_slots)
  fold_evaluated const_slots dst op lhs rhs evaluated

abbrev pub fold_in_place_evaluated :
    Consts → ℕ → RuntimeBinOp → RuntimeOperand → Option ℕ → Option Folded
fold_in_place_evaluated const_slots dst op rhs (some value) = keep_value dst value const_slots
fold_in_place_evaluated const_slots dst op rhs none =
    keep_unknown dst (bin_op_in_place dst op rhs) const_slots

unfoldable pub fold_bin_op_in_place : ℕ → RuntimeBinOp → RuntimeOperand → Consts → Option Folded
fold_bin_op_in_place dst op rhs const_slots =
    let folded = (do
      known ← get_elem? const_slots dst
      evaluated ← eval_known op known (operand_const_value rhs const_slots)
      fold_in_place_evaluated const_slots dst op rhs evaluated) in
    if fold_binop_in_place_is_nop op rhs then some (none, const_slots) else folded

abbrev pub is_slot : RuntimeOperand → ℕ → Bool
is_slot (slot s) t = s == t
is_slot (imm _) t = false

unfoldable pub fold_mov : ℕ → RuntimeOperand → Consts → Option Folded
fold_mov dst src const_slots =
    let kept = (do
      const_slots' ← store const_slots dst (operand_const_value src const_slots)
      keep (mov dst src) const_slots') in
    if is_slot src dst then some (none, const_slots) else kept

abbrev pub fold_compared :
    ℕ → RuntimeInstr → RuntimeCmpOp → Option ℕ → Option ℕ → Consts → Option Folded
fold_compared dst instr op (some l) (some r) const_slots =
    keep_value dst (eval_runtime_cmp op l r) const_slots
fold_compared dst instr op _ _ const_slots = keep_unknown dst instr const_slots

unfoldable pub fold_cmp :
    ℕ → RuntimeCmpOp → RuntimeOperand → RuntimeOperand → Consts → Option Folded
fold_cmp dst op lhs rhs const_slots =
    fold_compared dst (cmp dst op lhs rhs) op (operand_const_value lhs const_slots)
      (operand_const_value rhs const_slots) const_slots

-- The slot of a constant index, where it is within the table.
abbrev indexed_slot : List ℕ → Option ℕ → Option ℕ
indexed_slot base_slots none = none
indexed_slot base_slots (some i) = get_elem? base_slots i

abbrev fold_loaded : ℕ → RuntimeInstr → Option ℕ → Consts → Option Folded
fold_loaded dst instr (some s) const_slots = do
  known ← get_elem? const_slots s
  const_slots' ← store const_slots dst known
  keep (mov dst (slot s)) const_slots'
fold_loaded dst instr none const_slots = keep_unknown dst instr const_slots

abbrev fold_stored : List ℕ → RuntimeInstr → RuntimeOperand → Option ℕ → Consts → Option Folded
fold_stored base_slots instr src (some s) const_slots = do
  const_slots' ← store const_slots s (operand_const_value src const_slots)
  keep (mov s src) const_slots'
fold_stored base_slots instr src none const_slots = do
  const_slots' ← store_none const_slots base_slots
  keep instr const_slots'

abbrev fold_normalized : ℕ → Bool → ℕ → Option ℕ → Consts → Option Folded
fold_normalized dst signed bits (some value) const_slots = do
  normalized ← normalize_const_int value signed bits
  keep_value dst normalized const_slots
fold_normalized dst signed bits none const_slots = keep (normalize_int dst signed bits) const_slots

unfoldable pub fold_normalize : ℕ → Bool → ℕ → Consts → Option Folded
fold_normalize dst signed bits const_slots =
    let folded = (do
      known ← get_elem? const_slots dst
      fold_normalized dst signed bits known const_slots) in
    if leb 64 bits then some (none, const_slots) else folded

-- `float_op bits` is the operation of `f32` or `f64` on bit patterns.
module _ (float_op : ℕ → RuntimeFloatBinOp → ℕ → ℕ → ℕ) where
  unfoldable pub eval_runtime_float_binop : ℕ → RuntimeFloatBinOp → ℕ → ℕ → Option ℕ
  eval_runtime_float_binop bits op lhs rhs =
      if bits == 32
      then some (float_op 32 op (lhs % 2 ^ 32) (rhs % 2 ^ 32))
      else if bits == 64
      then some (float_op 64 op lhs rhs)
      else none

  abbrev eval_known_float : ℕ → RuntimeFloatBinOp → Option ℕ → Option ℕ → Option ℕ
  eval_known_float bits op (some l) (some r) = eval_runtime_float_binop bits op l r
  eval_known_float bits op _ _ = none

  abbrev fold_float_evaluated : ℕ → RuntimeInstr → Option ℕ → Consts → Option Folded
  fold_float_evaluated dst instr (some value) const_slots = keep_value dst value const_slots
  fold_float_evaluated dst instr none const_slots = keep_unknown dst instr const_slots

  unfoldable pub fold_runtime_instr : RuntimeInstr → Consts → Option Folded
  fold_runtime_instr (load_seed dst kind argument) cs =
      keep_unknown dst (load_seed dst kind argument) cs
  fold_runtime_instr (mov dst src) cs = fold_mov dst (fold_operand_const src cs) cs
  fold_runtime_instr (bin_op dst op lhs rhs) cs =
      fold_bin_op dst op (fold_operand_const lhs cs) (fold_operand_const rhs cs) cs
  fold_runtime_instr (bin_op_in_place dst op rhs) cs =
      fold_bin_op_in_place dst op (fold_operand_const rhs cs) cs
  fold_runtime_instr (float_bin_op dst bits op lhs rhs) cs =
      let l = fold_operand_const lhs cs in
      let r = fold_operand_const rhs cs in
      fold_float_evaluated dst (float_bin_op dst bits op l r)
        (eval_known_float bits op (operand_const_value l cs) (operand_const_value r cs)) cs
  fold_runtime_instr (load_index dst base_slots index) cs =
      let i = fold_operand_const index cs in
      fold_loaded dst (load_index dst base_slots i)
        (indexed_slot base_slots (operand_const_value i cs)) cs
  fold_runtime_instr (load_index_unchecked dst base_slots index) cs =
      let i = fold_operand_const index cs in
      fold_loaded dst (load_index_unchecked dst base_slots i)
        (indexed_slot base_slots (operand_const_value i cs)) cs
  fold_runtime_instr (store_index base_slots index src) cs =
      let i = fold_operand_const index cs in
      let v = fold_operand_const src cs in
      fold_stored base_slots (store_index base_slots i v) v
        (indexed_slot base_slots (operand_const_value i cs)) cs
  fold_runtime_instr (store_index_unchecked base_slots index src) cs =
      let i = fold_operand_const index cs in
      let v = fold_operand_const src cs in
      fold_stored base_slots (store_index_unchecked base_slots i v) v
        (indexed_slot base_slots (operand_const_value i cs)) cs
  fold_runtime_instr (heap_load_int dst ptr index bytes) cs =
      keep_unknown dst
        (heap_load_int dst (fold_operand_const ptr cs) (fold_operand_const index cs) bytes) cs
  fold_runtime_instr (heap_store_int ptr index src bytes) cs =
      keep
        (heap_store_int (fold_operand_const ptr cs) (fold_operand_const index cs)
          (fold_operand_const src cs) bytes)
        cs
  fold_runtime_instr (heap_copy dst_ptr src_ptr bytes) cs =
      keep
        (heap_copy (fold_operand_const dst_ptr cs) (fold_operand_const src_ptr cs)
          (fold_operand_const bytes cs))
        cs
  fold_runtime_instr (alloc dst size) cs =
      keep_unknown dst (alloc dst (fold_operand_const size cs)) (clear_const_slots cs)
  fold_runtime_instr (free ptr size) cs =
      keep (free (fold_operand_const ptr cs) (fold_operand_const size cs)) (clear_const_slots cs)
  fold_runtime_instr (file_open dst path_ptr flags mode) cs =
      keep_unknown dst (file_open dst (fold_operand_const path_ptr cs) flags mode)
        (clear_const_slots cs)
  fold_runtime_instr (file_write dst fd ptr len) cs =
      keep_unknown dst
        (file_write dst (fold_operand_const fd cs) (fold_operand_const ptr cs)
          (fold_operand_const len cs))
        (clear_const_slots cs)
  fold_runtime_instr (file_read dst fd ptr len) cs =
      keep_unknown dst
        (file_read dst (fold_operand_const fd cs) (fold_operand_const ptr cs)
          (fold_operand_const len cs))
        (clear_const_slots cs)
  fold_runtime_instr (file_close fd) cs =
      keep (file_close (fold_operand_const fd cs)) (clear_const_slots cs)
  fold_runtime_instr (print_const text) cs = keep (print_const text) cs
  fold_runtime_instr (print_int value signed bits) cs =
      keep (print_int (fold_operand_const value cs) signed bits) cs
  fold_runtime_instr (cmp dst op lhs rhs) cs =
      fold_cmp dst op (fold_operand_const lhs cs) (fold_operand_const rhs cs) cs
  fold_runtime_instr (normalize_int dst signed bits) cs = fold_normalize dst signed bits cs
  fold_runtime_instr (compare_swap left right signed) cs = do
    cs' ← store_none cs (left ∷ right ∷ [])
    keep (compare_swap left right signed) cs'
  fold_runtime_instr (radix_sort_fixed_int slots bits signed stable) cs = do
    cs' ← store_none cs slots
    keep (radix_sort_fixed_int slots bits signed stable) cs'
  fold_runtime_instr (jump target) cs = keep (jump target) (clear_const_slots cs)
  fold_runtime_instr (jump_if_zero cond_slot target) cs =
      keep (jump_if_zero cond_slot target) (clear_const_slots cs)
  fold_runtime_instr (jump_if_cmp_false op lhs rhs target) cs =
      keep (jump_if_cmp_false op lhs rhs target) (clear_const_slots cs)
  fold_runtime_instr (call target) cs = keep (call target) (clear_const_slots cs)
  fold_runtime_instr (thread_spawn handle_dst target return_slot) cs =
      keep (thread_spawn handle_dst target return_slot) (clear_const_slots cs)
  fold_runtime_instr (thread_join dst handle) cs = do
    cs' ← store cs dst none
    keep (thread_join dst (fold_operand_const handle cs')) cs'
  fold_runtime_instr (channel_create dst capacity unbounded) cs = do
    cs' ← store cs dst none
    keep (channel_create dst (fold_operand_const capacity cs') unbounded) cs'
  fold_runtime_instr (channel_send handle value) cs =
      keep (channel_send (fold_operand_const handle cs) (fold_operand_const value cs)) cs
  fold_runtime_instr (channel_recv dst handle) cs = do
    cs' ← store cs dst none
    keep (channel_recv dst (fold_operand_const handle cs')) cs'
  fold_runtime_instr (channel_close handle sender) cs =
      keep (channel_close (fold_operand_const handle cs) sender) cs
  fold_runtime_instr (channel_destroy handle) cs =
      keep (channel_destroy (fold_operand_const handle cs)) cs
  fold_runtime_instr return cs = keep return (clear_const_slots cs)
  fold_runtime_instr (exit code) cs =
      keep (exit (fold_operand_const code cs)) (clear_const_slots cs)
