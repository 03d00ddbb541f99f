-- ===== src/Schedule/Pass.antt =====
-- src/backend/optimizer.rs: schedule_pure_regions, over the blocks that src/backend/lir.rs finds.
use aziky.Prelude.{
  ℕ, suc, ◌+◌, ◌-◌, ◌^◌, Bool, true, false, ◌&&◌, ◌||◌, ◌>>=◌, Option, none, some, List, [], ◌∷◌,
  ◌++◌, ltb, ◌==◌, if◌then◌else◌, length,
}
use aziky.Ir.{
  RuntimeInstr, RuntimeProgram, bin_op, mul, add, op_and, slot, imm, jump, jump_if_zero,
  jump_if_cmp_false, call, return, exit,
}
use aziky.Frontend.Effects.{contains}
use aziky.Schedule.Region.{is_schedulable, insert_ready, schedule_region}
use aziky.Schedule.Orders.{reordered}
use aziky.Lir.Slots.{read_slots, write_slots}

abbrev pub block_target : RuntimeInstr → Option ℕ
block_target (jump target) = some target
block_target (jump_if_zero _ target) = some target
block_target (jump_if_cmp_false _ _ _ target) = some target
block_target (call target) = some target
block_target _ = none

abbrev pub ends_block : RuntimeInstr → Bool
ends_block (jump _) = true
ends_block (jump_if_zero _ _) = true
ends_block (jump_if_cmp_false _ _ _ _) = true
ends_block (call _) = true
ends_block return = true
ends_block (exit _) = true
ends_block _ = false

abbrev pub insert_target : Option ℕ → ℕ → List ℕ → List ℕ
insert_target none n starts = starts
insert_target (some target) n starts = if ltb target n then insert_ready target starts else starts

-- The instructions at which blocks start, a `BTreeSet` in the source.
unfoldable pub starts_from : ℕ → List RuntimeInstr → ℕ → List ℕ → List ℕ
starts_from idx [] n starts = starts
starts_from idx (instr ∷ rest) n starts =
    let targeted = insert_target (block_target instr) n starts in
    starts_from (suc idx) rest n
      (if ends_block instr && ltb (suc idx) n then insert_ready (suc idx) targeted else targeted)

unfoldable pub block_starts : List RuntimeInstr → List ℕ
block_starts instrs = starts_from 0 instrs (length instrs) (0 ∷ [])

-- An instruction in front of the blocks behind it: of the first of them, or a block of its own.
abbrev pub join_block : Bool → RuntimeInstr → List (List RuntimeInstr) → List (List RuntimeInstr)
join_block starts_next instr [] = (instr ∷ []) ∷ []
join_block true instr (block ∷ blocks) = (instr ∷ []) ∷ block ∷ blocks
join_block false instr (block ∷ blocks) = (instr ∷ block) ∷ blocks

-- The instructions from each start up to the next.
unfoldable pub blocks_from : List ℕ → ℕ → List RuntimeInstr → List (List RuntimeInstr)
blocks_from starts idx [] = []
blocks_from starts idx (instr ∷ rest) =
    join_block (contains (suc idx) starts) instr (blocks_from starts (suc idx) rest)

-- The three instructions that the emitter makes one multiplication and addition of.
unfoldable pub is_affine_triple : RuntimeInstr → RuntimeInstr → RuntimeInstr → Bool
is_affine_triple (bin_op mul_dst mul _ (imm _)) (bin_op add_dst add (slot add_lhs) (imm _))
      (bin_op _ op_and (slot mask_lhs) (imm mask)) =
    mul_dst == add_lhs && add_dst == mask_lhs && mask == 2 ^ 32 - 1
is_affine_triple _ _ _ = false

unfoldable pub has_affine_triple : List RuntimeInstr → Bool
has_affine_triple [] = false
has_affine_triple (a ∷ []) = false
has_affine_triple (a ∷ b ∷ []) = false
has_affine_triple (a ∷ b ∷ c ∷ rest) = is_affine_triple a b c || has_affine_triple (b ∷ c ∷ rest)

-- Whether every position holds its own node.
unfoldable pub is_identity_from : ℕ → List ℕ → Bool
is_identity_from position [] = true
is_identity_from position (node ∷ order) = position == node && is_identity_from (suc position) order

-- What is written over a region for the order found, and the number of regions that change.
abbrev pub write_back : List RuntimeInstr → Option (List ℕ) → Option (List RuntimeInstr × ℕ)
write_back region none = some (region, 0)
write_back region (some order) =
    if is_identity_from 0 order
    then some (region, 0)
    else (do code ← reordered region order; some (code, 1))

unfoldable pub schedule_run : Bool → List RuntimeInstr → Option (List RuntimeInstr × ℕ)
schedule_run atom region =
    if ltb (length region) 3 || has_affine_triple region
    then some (region, 0)
    else (do order ← schedule_region region atom; write_back region order)

-- The scan of a block for its runs of pure instructions; `region` is the run so far. The indices of
-- a block are consecutive, so that a run is replaced where it stands.
unfoldable pub schedule_block :
    Bool → List RuntimeInstr → List RuntimeInstr → Option (List RuntimeInstr × ℕ)
schedule_block atom region [] = schedule_run atom region
schedule_block atom region (instr ∷ rest) = elim (is_schedulable instr) [
  | true ↦ schedule_block atom (region ++ instr ∷ []) rest
  | false ↦ do
    (code, changed) ← schedule_run atom region
    (later, changed_later) ← schedule_block atom [] rest
    some (code ++ instr ∷ later, changed + changed_later)
]

-- The blocks in order, each scanned on its own.
unfoldable pub schedule_blocks :
    Bool → List (List RuntimeInstr) → Option (List (List RuntimeInstr) × ℕ)
schedule_blocks atom [] = some ([], 0)
schedule_blocks atom (block ∷ blocks) = do
  (code, changed) ← schedule_block atom [] block
  (later, changed_later) ← schedule_blocks atom blocks
  some (code ∷ later, changed + changed_later)

abbrev pub concat_blocks : List (List RuntimeInstr) → List RuntimeInstr
concat_blocks [] = []
concat_blocks (block ∷ blocks) = block ++ concat_blocks blocks

abbrev pub all_below : ℕ → List ℕ → Bool
all_below n [] = true
all_below n (s ∷ rest) = ltb s n && all_below n rest

-- Whether `RuntimeSSAProgram::lower` returns: `build_value_ssa` indexes tables of `program.slots` by
-- each slot that an instruction reads or writes. What its other tables hold is for other passes.
unfoldable pub lowers : ℕ → List RuntimeInstr → Bool
lowers slots [] = true
lowers slots (instr ∷ rest) =
    (all_below slots (read_slots instr) && all_below slots (write_slots instr)) && lowers slots rest

-- The program with its blocks scheduled, and what is added to `scheduled_regions`.
unfoldable pub schedule_pure_regions : Bool → RuntimeProgram → Option (RuntimeProgram × ℕ)
schedule_pure_regions atom program =
    if lowers program.slots program.instrs
    then (do
      (blocks, scheduled) ←
          schedule_blocks atom (blocks_from (block_starts program.instrs) 0 program.instrs)
      some (record program { instrs = concat_blocks blocks }, scheduled))
    else none
