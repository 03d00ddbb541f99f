-- ===== src/Frontend/FoldPass.antt =====
-- src/frontend/optimizer.rs: the folding pass over a program, with its targets moved along.
use aziky.Prelude.{
  ℕ, ◌+◌, min, Bool, false, ◌||◌, Option, none, some, List, [], ◌∷◌, ◌==◌, if◌then◌else◌, get_elem?,
  length, replicate, ◌>>=◌,
}
use aziky.Ir.{RuntimeFloatBinOp, RuntimeInstr, jump, jump_if_zero, jump_if_cmp_false, call}
use aziky.Frontend.Fold.{Consts, clear_const_slots, fold_runtime_instr}

abbrev pub targets : RuntimeInstr → ℕ → Bool
targets (jump target) idx = target == idx
targets (jump_if_zero _ target) idx = target == idx
targets (jump_if_cmp_false _ _ _ target) idx = target == idx
targets (call target) idx = target == idx
targets _ idx = false

-- `control_flow_targets[idx]`
unfoldable pub is_target : List RuntimeInstr → ℕ → Bool
is_target [] idx = false
is_target (instr ∷ rest) idx = targets instr idx || is_target rest idx

-- `target.min(instrs.len())` looked up; an index past the table would be a panic.
abbrev pub moved : List ℕ → ℕ → ℕ → Option ℕ
moved remap count target = get_elem? remap (min target count)

unfoldable pub remap_target : List ℕ → ℕ → RuntimeInstr → Option RuntimeInstr
remap_target remap count (jump target) = do target' ← moved remap count target; some (jump target')
remap_target remap count (jump_if_zero cond_slot target) = do
  target' ← moved remap count target
  some (jump_if_zero cond_slot target')
remap_target remap count (jump_if_cmp_false op lhs rhs target) = do
  target' ← moved remap count target
  some (jump_if_cmp_false op lhs rhs target')
remap_target remap count (call target) = do target' ← moved remap count target; some (call target')
remap_target remap count instr = some instr

unfoldable pub remap_targets : List ℕ → ℕ → List RuntimeInstr → Option (List RuntimeInstr)
remap_targets remap count [] = some []
remap_targets remap count (instr ∷ rest) = do
  instr' ← remap_target remap count instr
  rest' ← remap_targets remap count rest
  some (instr' ∷ rest')

abbrev pub push_kept : Option RuntimeInstr → List RuntimeInstr → List RuntimeInstr
push_kept (some instr) rest = instr ∷ rest
push_kept none rest = rest

abbrev pub kept_count : Option RuntimeInstr → ℕ
kept_count (some instr) = 1
kept_count none = 0

module _ (float_op : ℕ → RuntimeFloatBinOp → ℕ → ℕ → ℕ) where
  -- The loop from an index on: the instructions kept, and where each one of the program went.
  unfoldable pub fold_from :
      List RuntimeInstr → ℕ → ℕ → Consts → List RuntimeInstr → Option (List RuntimeInstr × List ℕ)
  fold_from original idx kept const_slots [] = some ([], kept ∷ [])
  fold_from original idx kept const_slots (instr ∷ rest) = do
    let known = if is_target original idx then clear_const_slots const_slots else const_slots
    (next, const_slots') ← fold_runtime_instr float_op instr known
    (out, remap) ← fold_from original (idx + 1) (kept + kept_count next) const_slots' rest
    some (push_kept next out, kept ∷ remap)

  unfoldable pub peephole_optimize_runtime_instrs :
      ℕ → List RuntimeInstr → Option (List RuntimeInstr)
  peephole_optimize_runtime_instrs slots instrs = do
    (out, remap) ← fold_from instrs 0 0 (replicate slots none) instrs
    remap_targets remap (length instrs) out
