-- ===== src/Frontend/SlotBounds.antt =====
-- src/frontend/optimizer.rs: the number of slots of a program is enough for its writes.
use aziky.Prelude.{
  ℕ, ◌+◌, ◌≤◌, ◌<◌, max, arith, Bool, true, false, List, [], ◌∷◌, ◌++◌, All, All-split, All-map,
  if◌then◌else◌,
}
use aziky.Ir.{
  RuntimeInstr, load_seed, mov, bin_op, bin_op_in_place, float_bin_op, cmp, normalize_int,
  compare_swap, radix_sort_fixed_int, load_index, load_index_unchecked, store_index,
  store_index_unchecked, heap_load_int, alloc, file_open, file_write, file_read, thread_spawn,
  thread_join, channel_create, channel_recv,
}
use aziky.Lir.Slots.{write_slots}
use aziky.Frontend.SlotCount.{
  bumped, bumped_slots, bump_slots, bump_instrs, runtime_program_slot_count,
}
use aziky.Frontend.PassSound.{WritesBelow}

abbrev counted : ℕ → Bool → ℕ
counted max_slot saw_any = if saw_any then max_slot + 1 else 0

bump_slots_lem :
    (max_slot : ℕ) (saw_any : Bool) (slots : List ℕ)
    → (counted max_slot saw_any
        ≤ counted (bump_slots max_slot saw_any slots).0 (bump_slots max_slot saw_any slots).1)
      × All
          (λ s.
            s < counted (bump_slots max_slot saw_any slots).0 (bump_slots max_slot saw_any slots).1)
          slots
bump_slots_lem m b [] = (omega arith, tt)
bump_slots_lem m b (s ∷ slots) =
    let (le, rest) = bump_slots_lem (max m s) true slots in
    (omega (arith, counted_le m b), (omega arith, rest))
  where
    counted_le : (m : ℕ) (b : Bool) → counted m b ≤ m + 1
    counted_le m true = omega arith
    counted_le m false = omega arith

bump_instrs_lem :
    (instrs : List RuntimeInstr) (max_slot : ℕ) (saw_any : Bool)
    → (counted max_slot saw_any
        ≤ counted (bump_instrs max_slot saw_any instrs).0 (bump_instrs max_slot saw_any instrs).1)
      × All
          (λ instr.
            All
              (λ s.
                s
                < counted
                    (bump_instrs max_slot saw_any instrs).0
                    (bump_instrs max_slot saw_any instrs).1)
              (bumped_slots instr))
          instrs
bump_instrs_lem [] m b = (omega arith, tt)
bump_instrs_lem (instr ∷ rest) m b =
    let (le, first) = bump_slots_lem m b (bumped_slots instr) in
    let (le', later) =
      bump_instrs_lem rest (bump_slots m b (bumped_slots instr)).0
        (bump_slots m b (bumped_slots instr)).1 in
    (omega arith, (All-map (λ s small. omega arith) (bumped_slots instr) first, later))

base_counted :
    (n : ℕ) (slots index src : List ℕ)
    → All (λ s. s < n) (slots ++ index ++ src)
    → All (λ s. s < n) slots
base_counted n slots index src h =
    (All-split (λ s. s < n) slots index (All-split (λ s. s < n) (slots ++ index) src h).0).0

-- A slot that an instruction writes is one that it counts.
write_slots-bumped :
    (n : ℕ) (instr : RuntimeInstr)
    → All (λ s. s < n) (bumped_slots instr)
    → All (λ s. s < n) (write_slots instr)
unfolding bumped_slots write_slots
write_slots-bumped n (load_seed _ _ _) (h, _) = (h, tt)
write_slots-bumped n (mov _ _) (h, _) = (h, tt)
write_slots-bumped n (bin_op _ _ _ _) (h, _) = (h, tt)
write_slots-bumped n (bin_op_in_place _ _ _) (h, _) = (h, tt)
write_slots-bumped n (float_bin_op _ _ _ _ _) (h, _) = (h, tt)
write_slots-bumped n (cmp _ _ _ _) (h, _) = (h, tt)
write_slots-bumped n (normalize_int _ _ _) (h, _) = (h, tt)
write_slots-bumped n (load_index _ _ _) (h, _) = (h, tt)
write_slots-bumped n (load_index_unchecked _ _ _) (h, _) = (h, tt)
write_slots-bumped n (heap_load_int _ _ _ _) (h, _) = (h, tt)
write_slots-bumped n (alloc _ _) (h, _) = (h, tt)
write_slots-bumped n (file_open _ _ _ _) (h, _) = (h, tt)
write_slots-bumped n (file_write _ _ _ _) (h, _) = (h, tt)
write_slots-bumped n (file_read _ _ _ _) (h, _) = (h, tt)
write_slots-bumped n (thread_join _ _) (h, _) = (h, tt)
write_slots-bumped n (thread_spawn _ _ _) (h, _) = (h, tt)
write_slots-bumped n (channel_create _ _ _) (h, _) = (h, tt)
write_slots-bumped n (channel_recv _ _) (h, _) = (h, tt)
write_slots-bumped n (compare_swap _ _ _) h = h
write_slots-bumped n (radix_sort_fixed_int _ _ _ _) h = h
write_slots-bumped n (store_index slots index src) h =
    base_counted n slots (bumped index) (bumped src) h
write_slots-bumped n (store_index_unchecked slots index src) h =
    base_counted n slots (bumped index) (bumped src) h
write_slots-bumped n _ h = tt

-- Every slot that a program writes is below the number of slots that is counted for it.
pub runtime_program_slot_count-WritesBelow :
    (instrs : List RuntimeInstr) → WritesBelow (runtime_program_slot_count instrs) instrs
unfolding runtime_program_slot_count
runtime_program_slot_count-WritesBelow instrs =
    All-map (λ instr h. write_slots-bumped _ instr h) instrs (bump_instrs_lem instrs 0 false).1
