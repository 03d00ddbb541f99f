-- ===== src/Superopt/Run.antt =====
-- src/backend/optimizer.rs: `run_verified_superoptimizer`, the pass over a program.
-- `min_by_key` breaks ties of the cost by the text that the derived `Debug` gives a candidate; the
-- order of those texts is the parameter `debug_lt`.
use aziky.Prelude.{
  ℕ, ◌+◌, Bool, true, false, ◌&&◌, ◌||◌, Option, none, some, List, [], ◌∷◌, leb, ltb, ◌==◌,
  if◌then◌else◌, get_elem?,
}
use aziky.Ir.{shl, op_or, RuntimeInstr, bin_op, RuntimeProgram}
use aziky.Superopt.Rewrite.{enumerate_candidates}
use aziky.Superopt.Verify.{verify_candidate}
use aziky.Superopt.Cost.{saturating_add, target_instruction_cost, register_pressure_cost}

pub record OptimizationReport : Type 0 where
  pub affine_lookahead_groups : ℕ
  pub affine_selects : ℕ
  pub dead_prefix_reductions : ℕ
  pub fixed_sort_selections : ℕ
  pub partial_unrolled_loops : ℕ
  pub propagated_copies : ℕ
  pub eliminated_copies : ℕ
  pub verified_rewrites : ℕ
  pub scheduled_regions : ℕ
  pub reordered_blocks : ℕ
  pub inverted_branches : ℕ
  pub repaired_fallthroughs : ℕ

abbrev is_shift_left : Option RuntimeInstr → Bool
is_shift_left (some (bin_op _ shl _ _)) = true
is_shift_left _ = false

abbrev is_bit_or : Option RuntimeInstr → Bool
is_bit_or (some (bin_op _ op_or _ _)) = true
is_bit_or _ = false

-- A left shift in front of a bitwise or is left for the emitter to fuse.
unfoldable pub fusion_sensitive : List RuntimeInstr → ℕ → Bool
fusion_sensitive instrs index =
    is_shift_left (get_elem? instrs index) && is_bit_or (get_elem? instrs (index + 1))

module _ (debug_lt : RuntimeInstr → RuntimeInstr → Bool) (atom : Bool) where
  unfoldable pub total_cost : RuntimeInstr → ℕ
  total_cost instr =
      saturating_add (target_instruction_cost instr atom) (register_pressure_cost instr)

  unfoldable pub comes_before : RuntimeInstr → RuntimeInstr → Bool
  comes_before a b =
      ltb (total_cost a) (total_cost b) || (total_cost a == total_cost b && debug_lt a b)

  -- `min_by_key`: a later candidate replaces the one at hand only if its key is smaller.
  abbrev pub smaller : RuntimeInstr → Option RuntimeInstr → Option RuntimeInstr
  smaller candidate none = some candidate
  smaller candidate (some best) = if comes_before candidate best then some candidate else some best

  abbrev pub is_admissible : RuntimeInstr → RuntimeInstr → Bool
  is_admissible instr candidate =
      verify_candidate instr candidate && leb (total_cost candidate) (total_cost instr)

  unfoldable pub best_of :
      RuntimeInstr → List RuntimeInstr → Option RuntimeInstr → Option RuntimeInstr
  best_of instr [] best = best
  best_of instr (candidate ∷ rest) best =
      best_of instr rest (if is_admissible instr candidate then smaller candidate best else best)

  -- The instruction that stands in place of one, and the number of rewrites.
  abbrev pub chosen : RuntimeInstr → Option RuntimeInstr → RuntimeInstr × ℕ
  chosen instr none = (instr, 0)
  chosen instr (some candidate) = (candidate, 1)

  unfoldable pub superoptimize_instruction : RuntimeInstr → RuntimeInstr × ℕ
  superoptimize_instruction instr = chosen instr (best_of instr (enumerate_candidates instr) none)

  -- The loop over the program; `original` is the program before the pass.
  unfoldable pub superoptimize_from :
      List RuntimeInstr → ℕ → List RuntimeInstr → List RuntimeInstr × ℕ
  superoptimize_from original index [] = ([], 0)
  superoptimize_from original index (instr ∷ rest) =
      let (rest', count) = superoptimize_from original (index + 1) rest in
      let (instr', rewrites) =
        if fusion_sensitive original index then (instr, 0) else superoptimize_instruction instr in
      (instr' ∷ rest', rewrites + count)

  unfoldable pub run_verified_superoptimizer :
      RuntimeProgram → OptimizationReport → RuntimeProgram × OptimizationReport
  run_verified_superoptimizer program report =
      let (instrs, rewrites) = superoptimize_from program.instrs 0 program.instrs in
      (
        record program { instrs = instrs },
        record report { verified_rewrites = report.verified_rewrites + rewrites },
      )
