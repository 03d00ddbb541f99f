-- ===== src/Schedule/Pressure.antt =====
-- src/backend/optimizer.rs: peak_register_pressure, the most values alive at once in an order.
use aziky.Prelude.{
  ℕ, suc, Bool, false, ◌>>=◌, Option, none, some, List, [], ◌∷◌, max, ltb, ◌==◌, if◌then◌else◌,
  get_elem?, length,
}
use aziky.Ir.{RuntimeInstr}
use aziky.Lir.Slots.{read_slots, write_slots}
use aziky.Frontend.Effects.{contains}

-- A `HashMap` from a slot to the last position that reads it.
abbrev pub LastUse : Type 0
LastUse = ℕ → Option ℕ

abbrev pub nothing_used : LastUse
nothing_used slot = none

unfoldable pub insert_uses : List ℕ → ℕ → LastUse → LastUse
insert_uses [] position last_use = last_use
insert_uses (slot ∷ slots) position last_use =
    insert_uses slots position (λ s. if slot == s then some position else last_use s)

-- An index outside of the region panics.
unfoldable pub last_uses : List RuntimeInstr → List ℕ → ℕ → LastUse → Option LastUse
last_uses region [] position last_use = some last_use
last_uses region (node ∷ order) position last_use = do
  instr ← get_elem? region node
  last_uses region order (suc position) (insert_uses (read_slots instr) position last_use)

unfoldable pub is_used_after : LastUse → ℕ → ℕ → Bool
is_used_after last_use position slot = elim (last_use slot) [
  | none ↦ false
  | some last ↦ ltb position last
]

-- `HashSet::insert`
abbrev pub insert_live : ℕ → List ℕ → List ℕ
insert_live slot live = if contains slot live then live else slot ∷ live

unfoldable pub start_live : LastUse → ℕ → List ℕ → List ℕ → List ℕ
start_live last_use position [] live = live
start_live last_use position (slot ∷ slots) live =
    start_live last_use position slots
      (if is_used_after last_use position slot then insert_live slot live else live)

unfoldable pub retain_live : LastUse → ℕ → List ℕ → List ℕ
retain_live last_use position [] = []
retain_live last_use position (slot ∷ live) =
    let rest = retain_live last_use position live in
    if is_used_after last_use position slot then slot ∷ rest else rest

unfoldable pub peak_from : List RuntimeInstr → LastUse → List ℕ → ℕ → List ℕ → ℕ → Option ℕ
peak_from region last_use [] position live peak = some peak
peak_from region last_use (node ∷ order) position live peak = do
  instr ← get_elem? region node
  let live' = start_live last_use position (write_slots instr) live
  peak_from region last_use order (suc position) (retain_live last_use position live')
      (max peak (length live'))

unfoldable pub peak_register_pressure : List RuntimeInstr → List ℕ → Option ℕ
peak_register_pressure region order = do
  last_use ← last_uses region order 0 nothing_used
  peak_from region last_use order 0 [] 0
