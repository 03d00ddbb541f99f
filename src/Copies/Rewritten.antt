-- ===== src/Copies/Rewritten.antt =====
-- src/backend/optimizer.rs: rewriting the operands keeps the value of each operand, and what an
-- instruction computes.
use aziky.Prelude.{ℕ, ◌≡◌, refl, ap, sym, ◌∙◌, Option, none, some, inl, inr, Bool-cases}
use aziky.Ir.{
  RuntimeOperand, slot, imm, RuntimeInstr, load_seed, mov, bin_op, bin_op_in_place, float_bin_op,
  cmp, jump_if_cmp_false, load_index, load_index_unchecked, store_index, store_index_unchecked,
  heap_load_int, heap_store_int, heap_copy, alloc, free, file_open, file_write, file_read,
  file_close, thread_join, channel_create, channel_send, channel_recv, channel_close,
  channel_destroy, print_int, exit,
}
use aziky.Superopt.Evaluate.{operand_value, evaluate_pure_instruction}
use aziky.Copies.Rewrite.{
  Aliases, runtime_operands_equal, replaced, rewrite_operand, rewrite_instruction_operands,
}

-- An operand as the immediate that it holds in a memory of words.
abbrev pub value_of : (ℕ → ℕ) → RuntimeOperand → RuntimeOperand
value_of memory (slot s) = imm (memory s)
value_of memory (imm value) = imm value

-- An instruction with the value of each operand in its place.
abbrev pub with_values : (ℕ → ℕ) → RuntimeInstr → RuntimeInstr
with_values memory (load_seed dst kind (some input)) =
    load_seed dst kind (some (value_of memory input))
with_values memory (mov dst src) = mov dst (value_of memory src)
with_values memory (bin_op dst op lhs rhs) =
    bin_op dst op (value_of memory lhs) (value_of memory rhs)
with_values memory (bin_op_in_place dst op rhs) = bin_op_in_place dst op (value_of memory rhs)
with_values memory (float_bin_op dst bits op lhs rhs) =
    float_bin_op dst bits op (value_of memory lhs) (value_of memory rhs)
with_values memory (cmp dst op lhs rhs) = cmp dst op (value_of memory lhs) (value_of memory rhs)
with_values memory (jump_if_cmp_false op lhs rhs target) =
    jump_if_cmp_false op (value_of memory lhs) (value_of memory rhs) target
with_values memory (load_index dst base_slots index) =
    load_index dst base_slots (value_of memory index)
with_values memory (load_index_unchecked dst base_slots index) =
    load_index_unchecked dst base_slots (value_of memory index)
with_values memory (store_index base_slots index src) =
    store_index base_slots (value_of memory index) (value_of memory src)
with_values memory (store_index_unchecked base_slots index src) =
    store_index_unchecked base_slots (value_of memory index) (value_of memory src)
with_values memory (heap_load_int dst ptr index width) =
    heap_load_int dst (value_of memory ptr) (value_of memory index) width
with_values memory (heap_store_int ptr index src width) =
    heap_store_int (value_of memory ptr) (value_of memory index) (value_of memory src) width
with_values memory (heap_copy dst_ptr src_ptr bytes) =
    heap_copy (value_of memory dst_ptr) (value_of memory src_ptr) (value_of memory bytes)
with_values memory (alloc dst size) = alloc dst (value_of memory size)
with_values memory (free ptr size) = free (value_of memory ptr) (value_of memory size)
with_values memory (file_open dst path_ptr flags mode) =
    file_open dst (value_of memory path_ptr) flags mode
with_values memory (file_write dst fd ptr len) =
    file_write dst (value_of memory fd) (value_of memory ptr) (value_of memory len)
with_values memory (file_read dst fd ptr len) =
    file_read dst (value_of memory fd) (value_of memory ptr) (value_of memory len)
with_values memory (file_close fd) = file_close (value_of memory fd)
with_values memory (thread_join dst handle) = thread_join dst (value_of memory handle)
with_values memory (channel_create dst capacity shared) =
    channel_create dst (value_of memory capacity) shared
with_values memory (channel_send handle value) =
    channel_send (value_of memory handle) (value_of memory value)
with_values memory (channel_recv dst handle) = channel_recv dst (value_of memory handle)
with_values memory (channel_close handle sender) = channel_close (value_of memory handle) sender
with_values memory (channel_destroy handle) = channel_destroy (value_of memory handle)
with_values memory (print_int value signed bits) = print_int (value_of memory value) signed bits
with_values memory (exit code) = exit (value_of memory code)
with_values memory instr = instr

-- Each slot holds what stands for it.
abbrev pub AreCopies : Aliases → (ℕ → ℕ) → Type 0
AreCopies aliases memory =
    (s : ℕ) (r : RuntimeOperand) → aliases s ≡ some r → value_of memory r ≡ imm (memory s)

module _ (aliases : Aliases) (memory : ℕ → ℕ) (copies : AreCopies aliases memory) where
  replaced-value_of :
      (s : ℕ) (replacement : Option RuntimeOperand)
      → aliases s ≡ replacement
      → value_of memory (replaced (slot s) replacement).0 ≡ imm (memory s)
  replaced-value_of s none e = refl
  replaced-value_of s (some r) e = elim (Bool-cases (runtime_operands_equal (slot s) r)) [
    | inl same ↦ rw same refl
    | inr other ↦ rw other (copies s r e)
  ]

  rewrite_operand-value_of :
      (o : RuntimeOperand) → value_of memory (rewrite_operand aliases o).0 ≡ value_of memory o
  unfolding rewrite_operand
  rewrite_operand-value_of (imm value) = refl
  rewrite_operand-value_of (slot s) = replaced-value_of s (aliases s) refl

-- An instruction with rewritten operands still has the values that it had, each in its place.
rewrite_instruction_operands-with_values :
    (aliases : Aliases) (memory : ℕ → ℕ) (instr : RuntimeInstr)
    → AreCopies aliases memory
    → with_values memory (rewrite_instruction_operands aliases instr).0 ≡ with_values memory instr
unfolding rewrite_instruction_operands
rewrite_instruction_operands-with_values aliases memory (load_seed dst kind none) copies = refl
rewrite_instruction_operands-with_values aliases memory (load_seed dst kind (some input)) copies =
    rw (rewrite_operand-value_of aliases memory copies input) refl
rewrite_instruction_operands-with_values aliases memory (mov dst src) copies =
    rw (rewrite_operand-value_of aliases memory copies src) refl
rewrite_instruction_operands-with_values aliases memory (bin_op dst op lhs rhs) copies =
    rw
      (
        rewrite_operand-value_of aliases memory copies lhs,
        rewrite_operand-value_of aliases memory copies rhs,
      )
      refl
rewrite_instruction_operands-with_values aliases memory (bin_op_in_place dst op rhs) copies =
    rw (rewrite_operand-value_of aliases memory copies rhs) refl
rewrite_instruction_operands-with_values aliases memory (float_bin_op dst bits op lhs rhs) copies =
    rw
      (
        rewrite_operand-value_of aliases memory copies lhs,
        rewrite_operand-value_of aliases memory copies rhs,
      )
      refl
rewrite_instruction_operands-with_values aliases memory (cmp dst op lhs rhs) copies =
    rw
      (
        rewrite_operand-value_of aliases memory copies lhs,
        rewrite_operand-value_of aliases memory copies rhs,
      )
      refl
rewrite_instruction_operands-with_values aliases memory (jump_if_cmp_false op lhs rhs target)
      copies =
    rw
      (
        rewrite_operand-value_of aliases memory copies lhs,
        rewrite_operand-value_of aliases memory copies rhs,
      )
      refl
rewrite_instruction_operands-with_values aliases memory (load_index dst base_slots index) copies =
    rw (rewrite_operand-value_of aliases memory copies index) refl
rewrite_instruction_operands-with_values aliases memory (load_index_unchecked dst base_slots index)
      copies =
    rw (rewrite_operand-value_of aliases memory copies index) refl
rewrite_instruction_operands-with_values aliases memory (store_index base_slots index src) copies =
    rw
      (
        rewrite_operand-value_of aliases memory copies index,
        rewrite_operand-value_of aliases memory copies src,
      )
      refl
rewrite_instruction_operands-with_values aliases memory (store_index_unchecked base_slots index src)
      copies =
    rw
      (
        rewrite_operand-value_of aliases memory copies index,
        rewrite_operand-value_of aliases memory copies src,
      )
      refl
rewrite_instruction_operands-with_values aliases memory (heap_load_int dst ptr index width) copies =
    rw
      (
        rewrite_operand-value_of aliases memory copies ptr,
        rewrite_operand-value_of aliases memory copies index,
      )
      refl
rewrite_instruction_operands-with_values aliases memory (heap_store_int ptr index src width)
      copies =
    rw
      (
        rewrite_operand-value_of aliases memory copies ptr,
        rewrite_operand-value_of aliases memory copies index,
        rewrite_operand-value_of aliases memory copies src,
      )
      refl
rewrite_instruction_operands-with_values aliases memory (heap_copy dst_ptr src_ptr bytes) copies =
    rw
      (
        rewrite_operand-value_of aliases memory copies dst_ptr,
        rewrite_operand-value_of aliases memory copies src_ptr,
        rewrite_operand-value_of aliases memory copies bytes,
      )
      refl
rewrite_instruction_operands-with_values aliases memory (alloc dst size) copies =
    rw (rewrite_operand-value_of aliases memory copies size) refl
rewrite_instruction_operands-with_values aliases memory (free ptr size) copies =
    rw
      (
        rewrite_operand-value_of aliases memory copies ptr,
        rewrite_operand-value_of aliases memory copies size,
      )
      refl
rewrite_instruction_operands-with_values aliases memory (file_open dst path_ptr flags mode) copies =
    rw (rewrite_operand-value_of aliases memory copies path_ptr) refl
rewrite_instruction_operands-with_values aliases memory (file_write dst fd ptr len) copies =
    rw
      (
        rewrite_operand-value_of aliases memory copies fd,
        rewrite_operand-value_of aliases memory copies ptr,
        rewrite_operand-value_of aliases memory copies len,
      )
      refl
rewrite_instruction_operands-with_values aliases memory (file_read dst fd ptr len) copies =
    rw
      (
        rewrite_operand-value_of aliases memory copies fd,
        rewrite_operand-value_of aliases memory copies ptr,
        rewrite_operand-value_of aliases memory copies len,
      )
      refl
rewrite_instruction_operands-with_values aliases memory (file_close fd) copies =
    rw (rewrite_operand-value_of aliases memory copies fd) refl
rewrite_instruction_operands-with_values aliases memory (thread_join dst handle) copies =
    rw (rewrite_operand-value_of aliases memory copies handle) refl
rewrite_instruction_operands-with_values aliases memory (channel_create dst capacity shared)
      copies =
    rw (rewrite_operand-value_of aliases memory copies capacity) refl
rewrite_instruction_operands-with_values aliases memory (channel_send handle value) copies =
    rw
      (
        rewrite_operand-value_of aliases memory copies handle,
        rewrite_operand-value_of aliases memory copies value,
      )
      refl
rewrite_instruction_operands-with_values aliases memory (channel_recv dst handle) copies =
    rw (rewrite_operand-value_of aliases memory copies handle) refl
rewrite_instruction_operands-with_values aliases memory (channel_close handle sender) copies =
    rw (rewrite_operand-value_of aliases memory copies handle) refl
rewrite_instruction_operands-with_values aliases memory (channel_destroy handle) copies =
    rw (rewrite_operand-value_of aliases memory copies handle) refl
rewrite_instruction_operands-with_values aliases memory (print_int value signed bits) copies =
    rw (rewrite_operand-value_of aliases memory copies value) refl
rewrite_instruction_operands-with_values aliases memory (exit code) copies =
    rw (rewrite_operand-value_of aliases memory copies code) refl
rewrite_instruction_operands-with_values aliases memory _ copies = refl

value_of-operand_value :
    (memory : ℕ → ℕ) (o : RuntimeOperand)
    → operand_value (λ s. some (memory s)) o
      ≡ operand_value (λ s. some (memory s)) (value_of memory o)
value_of-operand_value memory (slot s) = refl
value_of-operand_value memory (imm value) = refl

-- The operands of the instructions that are evaluated are values, once they are written in.
evaluate-with_values :
    (memory : ℕ → ℕ) (instr : RuntimeInstr)
    → evaluate_pure_instruction instr (λ s. some (memory s))
      ≡ evaluate_pure_instruction (with_values memory instr) (λ s. some (memory s))
unfolding evaluate_pure_instruction
evaluate-with_values memory (mov dst src) = rw (value_of-operand_value memory src) refl
evaluate-with_values memory (bin_op dst op lhs rhs) =
    rw (value_of-operand_value memory lhs, value_of-operand_value memory rhs) refl
evaluate-with_values memory (bin_op_in_place dst op rhs) =
    rw (value_of-operand_value memory rhs) refl
evaluate-with_values memory (cmp dst op lhs rhs) =
    rw (value_of-operand_value memory lhs, value_of-operand_value memory rhs) refl
evaluate-with_values memory (load_seed dst kind none) = refl
evaluate-with_values memory (load_seed dst kind (some input)) = refl
evaluate-with_values memory _ = refl

-- If each alias stands for the value that its slot holds, an instruction with rewritten operands is
-- of the same variant, with the same values of its operands in the same places and all else
-- unchanged; and it evaluates to the same slot and value, or fails alike.
pub rewrite_instruction_operands_lem :
    (aliases : Aliases) (memory : ℕ → ℕ) (instr : RuntimeInstr)
    → AreCopies aliases memory
    → (with_values memory (rewrite_instruction_operands aliases instr).0 ≡ with_values memory instr)
      × (evaluate_pure_instruction
            (rewrite_instruction_operands aliases instr).0
            (λ s. some (memory s))
          ≡ evaluate_pure_instruction instr (λ s. some (memory s)))
rewrite_instruction_operands_lem aliases memory instr copies =
    let rewritten = (rewrite_instruction_operands aliases instr).0 in
    let same = rewrite_instruction_operands-with_values aliases memory instr copies in
    (
      same,
      evaluate-with_values memory rewritten
          ∙ ap (λ i. evaluate_pure_instruction i (λ s. some (memory s))) same
          ∙ sym (evaluate-with_values memory instr),
    )
