-- ===== src/Frontend/Transfer.antt =====
-- src/frontend/optimizer.rs: how an instruction moves what is known of the slots.
-- An outer `none` is a panic of the compiler, in the evaluation of constants.
use mathlib.Core.Option
use aziky.Prelude.{
  ℕ, ◌-◌, ◌^◌, min, max, bit_and, Bool, Option, some, List, [], ◌∷◌, leb, if◌then◌else◌, set,
  replicate, ◌>>=◌,
}
use aziky.Ir.{
  RuntimeCmpOp, RuntimeInstr, load_seed, mov, bin_op, bin_op_in_place, float_bin_op, cmp,
  normalize_int, compare_swap, radix_sort_fixed_int, call, load_index, load_index_unchecked,
  heap_load_int, store_index, store_index_unchecked, alloc, file_open, file_write, file_read,
  thread_spawn, thread_join, channel_create, channel_recv,
}
use aziky.Frontend.Eval.{eval_runtime_cmp}
use aziky.Frontend.SlotFacts.{
  SlotFacts, unknown_facts, facts_at, facts_for_operand, zip_with, binop_facts, merged_exact,
  or_else,
}

-- A write past the table changes nothing.
abbrev pub set_slot : List SlotFacts → ℕ → SlotFacts → List SlotFacts
set_slot out s facts = set out s facts

abbrev pub forget_slots : List SlotFacts → List ℕ → List SlotFacts
forget_slots out [] = out
forget_slots out (s ∷ slots) = forget_slots (set_slot out s unknown_facts) slots

abbrev pub compared_facts : RuntimeCmpOp → SlotFacts → SlotFacts → SlotFacts
compared_facts op lhs rhs = record {
  upper = some 1;
  exact = zip_with (λ l r. some (eval_runtime_cmp op l r)) lhs.exact rhs.exact;
}

abbrev pub normalized_facts : Bool → ℕ → SlotFacts → SlotFacts
normalized_facts signed bits prior =
    let greatest = 2 ^ bits - 1 in
    let facts : SlotFacts = record {
      upper = or_else (Option.map (λ u. min u greatest) prior.upper) (some greatest);
      exact = Option.map (λ v. bit_and v greatest) prior.exact;
    } in
    if signed then unknown_facts else (if leb 64 bits then prior else facts)

abbrev pub swapped_facts : SlotFacts → SlotFacts → SlotFacts
swapped_facts left right = record {
  upper = zip_with (λ a b. some (max a b)) left.upper right.upper;
  exact = merged_exact left.exact right.exact;
}

unfoldable pub runtime_transfer_slot_facts :
    RuntimeInstr → List SlotFacts → ℕ → Option (List SlotFacts)
runtime_transfer_slot_facts (load_seed dst _ _) facts slot_count =
    some (set_slot facts dst unknown_facts)
runtime_transfer_slot_facts (mov dst src) facts slot_count =
    some (set_slot facts dst (facts_for_operand facts src))
runtime_transfer_slot_facts (bin_op dst op lhs rhs) facts slot_count = do
  result ← binop_facts op (facts_for_operand facts lhs) (facts_for_operand facts rhs)
  some (set_slot facts dst result)
runtime_transfer_slot_facts (bin_op_in_place dst op rhs) facts slot_count = do
  result ← binop_facts op (facts_at facts dst) (facts_for_operand facts rhs)
  some (set_slot facts dst result)
runtime_transfer_slot_facts (float_bin_op dst _ _ _ _) facts slot_count =
    some (set_slot facts dst unknown_facts)
runtime_transfer_slot_facts (cmp dst op lhs rhs) facts slot_count = some (
    set_slot facts dst
      (compared_facts op (facts_for_operand facts lhs) (facts_for_operand facts rhs)))
runtime_transfer_slot_facts (normalize_int dst signed bits) facts slot_count =
    some (set_slot facts dst (normalized_facts signed bits (facts_at facts dst)))
runtime_transfer_slot_facts (compare_swap left right _) facts slot_count =
    let merged = swapped_facts (facts_at facts left) (facts_at facts right) in
    some (set_slot (set_slot facts left merged) right merged)
runtime_transfer_slot_facts (radix_sort_fixed_int slots _ _ _) facts slot_count =
    some (forget_slots facts slots)
runtime_transfer_slot_facts (call _) facts slot_count = some (replicate slot_count unknown_facts)
runtime_transfer_slot_facts (load_index dst _ _) facts slot_count =
    some (set_slot facts dst unknown_facts)
runtime_transfer_slot_facts (load_index_unchecked dst _ _) facts slot_count =
    some (set_slot facts dst unknown_facts)
runtime_transfer_slot_facts (heap_load_int dst _ _ _) facts slot_count =
    some (set_slot facts dst unknown_facts)
runtime_transfer_slot_facts (store_index base_slots _ _) facts slot_count =
    some (forget_slots facts base_slots)
runtime_transfer_slot_facts (store_index_unchecked base_slots _ _) facts slot_count =
    some (forget_slots facts base_slots)
runtime_transfer_slot_facts (alloc dst _) facts slot_count = some (set_slot facts dst unknown_facts)
runtime_transfer_slot_facts (file_open dst _ _ _) facts slot_count =
    some (set_slot facts dst unknown_facts)
runtime_transfer_slot_facts (file_write dst _ _ _) facts slot_count =
    some (set_slot facts dst unknown_facts)
runtime_transfer_slot_facts (file_read dst _ _ _) facts slot_count =
    some (set_slot facts dst unknown_facts)
runtime_transfer_slot_facts (thread_join dst _) facts slot_count =
    some (set_slot facts dst unknown_facts)
runtime_transfer_slot_facts (thread_spawn handle_dst _ _) facts slot_count =
    some (set_slot facts handle_dst unknown_facts)
runtime_transfer_slot_facts (channel_create dst _ _) facts slot_count =
    some (set_slot facts dst unknown_facts)
runtime_transfer_slot_facts (channel_recv dst _) facts slot_count =
    some (set_slot facts dst unknown_facts)
runtime_transfer_slot_facts _ facts slot_count = some facts
