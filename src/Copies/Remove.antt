-- ===== src/Copies/Remove.antt =====
-- src/backend/optimizer.rs: remove_runtime_instructions.
use aziky.Prelude.{
  ℕ, suc, Bool, true, false, Option, some, ◌>>=◌, List, [], ◌∷◌, min, get_elem?, length,
  if◌then◌else◌,
}
use aziky.Ir.{RuntimeInstr, RuntimeProgram, jump, jump_if_zero, jump_if_cmp_false, call}
use aziky.Frontend.Effects.{contains}

-- Where each index of the program goes, and behind them the number of instructions kept.
unfoldable pub old_to_new_from : List ℕ → ℕ → ℕ → List RuntimeInstr → List ℕ
old_to_new_from removed index next [] = next ∷ []
old_to_new_from removed index next (instr ∷ rest) =
    next
    ∷ old_to_new_from removed (suc index) (if contains index removed then next else suc next) rest

-- `old_to_new[target.min(old_len)]`; an index out of range panics.
abbrev pub new_target : List ℕ → ℕ → ℕ → Option ℕ
new_target old_to_new old_len target = get_elem? old_to_new (min target old_len)

-- The target of ThreadSpawn stays as it is.
unfoldable pub retarget : List ℕ → ℕ → RuntimeInstr → Option RuntimeInstr
retarget old_to_new old_len (jump target) = do
  target' ← new_target old_to_new old_len target
  some (jump target')
retarget old_to_new old_len (jump_if_zero cond_slot target) = do
  target' ← new_target old_to_new old_len target
  some (jump_if_zero cond_slot target')
retarget old_to_new old_len (jump_if_cmp_false op lhs rhs target) = do
  target' ← new_target old_to_new old_len target
  some (jump_if_cmp_false op lhs rhs target')
retarget old_to_new old_len (call target) = do
  target' ← new_target old_to_new old_len target
  some (call target')
retarget old_to_new old_len instr = some instr

unfoldable pub compact_from :
    List ℕ → List ℕ → ℕ → ℕ → List RuntimeInstr → Option (List RuntimeInstr)
compact_from removed old_to_new old_len index [] = some []
compact_from removed old_to_new old_len index (instr ∷ rest) =
    let later = compact_from removed old_to_new old_len (suc index) rest in
    if contains index removed
    then later
    else (do moved ← retarget old_to_new old_len instr; compact ← later; some (moved ∷ compact))

abbrev pub is_nothing : List ℕ → Bool
is_nothing [] = true
is_nothing (index ∷ removed) = false

unfoldable pub remove_runtime_instructions : RuntimeProgram → List ℕ → Option RuntimeProgram
remove_runtime_instructions program removed = if is_nothing removed then some program else (do
  compact ←
      compact_from removed (old_to_new_from removed 0 0 program.instrs) (length program.instrs) 0
        program.instrs
  some (record program { instrs = compact }))
