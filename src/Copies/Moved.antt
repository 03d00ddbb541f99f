-- ===== src/Copies/Moved.antt =====
-- src/backend/optimizer.rs: where remove_runtime_instructions moves the instructions.
use aziky.Prelude.{
  ℕ, suc, zero, ◌+◌, ◌≡◌, refl, sym, ap, ◌∙◌, arith, true, false, some, List, [], ◌∷◌, min,
  get_elem?, get_elem?-lt, get_elem?-in_range, ◌≤◌, if◌then◌else◌, length, inl, inr, Bool-cases,
  Returns, Returns-bind, Returns-mono, Returns-result, some_is,
}
use aziky.Ir.{RuntimeInstr, RuntimeProgram, jump, jump_if_zero, jump_if_cmp_false, call}
use aziky.Frontend.Effects.{contains}
use aziky.Copies.Remove.{old_to_new_from, retarget, compact_from, remove_runtime_instructions}

length-old_to_new_from :
    (removed : List ℕ) (index next : ℕ) (instrs : List RuntimeInstr)
    → length (old_to_new_from removed index next instrs) ≡ suc (length instrs)
unfolding old_to_new_from
length-old_to_new_from removed index next [] = refl
length-old_to_new_from removed index next (instr ∷ rest) =
    ap suc (length-old_to_new_from removed (suc index) _ rest)

retarget-returns :
    (table : List ℕ) (n : ℕ) (instr : RuntimeInstr)
    → length table ≡ suc n
    → (moved : RuntimeInstr) × (retarget table n instr ≡ some moved)
unfolding retarget
retarget-returns table n (jump target) size =
    let (t, e) = get_elem?-lt table (min target n) (omega arith) in (jump t, rw e refl)
retarget-returns table n (jump_if_zero c target) size =
    let (t, e) = get_elem?-lt table (min target n) (omega arith) in (jump_if_zero c t, rw e refl)
retarget-returns table n (jump_if_cmp_false op lhs rhs target) size =
    let (t, e) = get_elem?-lt table (min target n) (omega arith) in
    (jump_if_cmp_false op lhs rhs t, rw e refl)
retarget-returns table n (call target) size =
    let (t, e) = get_elem?-lt table (min target n) (omega arith) in (call t, rw e refl)
retarget-returns table n instr size = (instr, refl)

-- Where the instructions kept are found, in code that was compacted from an index on.
Places : List ℕ → List ℕ → ℕ → ℕ → ℕ → List RuntimeInstr → List RuntimeInstr → Type 0
Places removed table n index next instrs compact =
    (i : ℕ) (instr : RuntimeInstr)
    → get_elem? instrs i ≡ some instr
    → contains (index + i) removed ≡ false
    → (k : ℕ) × (get_elem? (old_to_new_from removed index next instrs) i ≡ some (next + k))
      × (get_elem? compact k ≡ retarget table n instr)

module _ (removed table : List ℕ) (n : ℕ) (size : length table ≡ suc n) where
  place_removed :
      (index next : ℕ) (first : RuntimeInstr) (instrs compact : List RuntimeInstr)
      → contains index removed ≡ true
      → Places removed table n (suc index) next instrs compact
      → Places removed table n index next (first ∷ instrs) compact
  unfolding Places old_to_new_from
  place_removed index next first instrs compact gone places zero instr h k =
      let same : index + zero ≡ index = omega arith in
      absurd (cc (sym gone ∙ ap (λ j. contains j removed) (sym same) ∙ k))
  place_removed index next first instrs compact gone places (suc i) instr h k =
      let same : index + suc i ≡ suc index + i = omega arith in
      rw gone (places i instr h (ap (λ j. contains j removed) (sym same) ∙ k))

  place_kept :
      (index next : ℕ) (first moved : RuntimeInstr) (instrs compact : List RuntimeInstr)
      → contains index removed ≡ false
      → retarget table n first ≡ some moved
      → Places removed table n (suc index) (suc next) instrs compact
      → Places removed table n index next (first ∷ instrs) (moved ∷ compact)
  unfolding Places old_to_new_from
  place_kept index next first moved instrs compact stays e places zero instr h k =
      (0, ap some (omega arith), sym e ∙ ap (retarget table n) (some_is h))
  place_kept index next first moved instrs compact stays e places (suc i) instr h k =
      let same : index + suc i ≡ suc index + i = omega arith in
      let (j, p, q) = places i instr h (ap (λ j. contains j removed) (sym same) ∙ k) in
      (suc j, rw stays (p ∙ ap some (omega arith)), q)

  none_kept : (index next : ℕ) → Places removed table n index next [] []
  unfolding Places
  none_kept index next i instr h k = absurd (cc)

  compact_from-Places :
      (index next : ℕ) (instrs : List RuntimeInstr)
      → Returns
          (compact_from removed table n index instrs)
          (Places removed table n index next instrs)
  unfolding compact_from
  compact_from-Places index next [] = none_kept index next
  compact_from-Places index next (first ∷ instrs) = elim (Bool-cases (contains index removed)) [
    | inl gone ↦ rw gone (
        Returns-mono (compact_from removed table n (suc index) instrs) _ _
          (compact_from-Places (suc index) next instrs)
          (λ compact. place_removed index next first instrs compact gone))
    | inr stays ↦
        let (moved, e) = retarget-returns table n first size in
        rw (stays, e)
          (Returns-bind (compact_from removed table n (suc index) instrs) _ _ _
            (compact_from-Places (suc index) (suc next) instrs)
            (λ compact. place_kept index next first moved instrs compact stays e))
  ]

-- How many of the indices below i are kept.
abbrev pub kept_before : List ℕ → ℕ → ℕ
kept_before removed zero = 0
kept_before removed (suc i) =
    if contains i removed then kept_before removed i else suc (kept_before removed i)

-- The targets of jumps and calls go through f; a spawned thread's entry and all else stay.
abbrev pub HasMoved : (ℕ → ℕ) → RuntimeInstr → RuntimeInstr → Type 0
HasMoved f (jump target) moved = moved ≡ jump (f target)
HasMoved f (jump_if_zero cond_slot target) moved = moved ≡ jump_if_zero cond_slot (f target)
HasMoved f (jump_if_cmp_false op lhs rhs target) moved =
    moved ≡ jump_if_cmp_false op lhs rhs (f target)
HasMoved f (call target) moved = moved ≡ call (f target)
HasMoved f instr moved = moved ≡ instr

-- The table of indices counts what is kept in front of each.
old_to_new_from-kept_before :
    (removed : List ℕ) (index : ℕ) (instrs : List RuntimeInstr) (i : ℕ)
    → i ≤ length instrs
    → get_elem? (old_to_new_from removed index (kept_before removed index) instrs) i
      ≡ some (kept_before removed (index + i))
unfolding old_to_new_from
old_to_new_from-kept_before removed index [] zero p =
    ap (λ j. some (kept_before removed j)) (omega arith)
old_to_new_from-kept_before removed index [] (suc i) p = absurd (omega arith)
old_to_new_from-kept_before removed index (instr ∷ rest) zero p =
    ap (λ j. some (kept_before removed j)) (omega arith)
old_to_new_from-kept_before removed index (instr ∷ rest) (suc i) p =
    old_to_new_from-kept_before removed (suc index) rest i (omega arith)
    ∙ ap (λ j. some (kept_before removed j)) (omega arith)

module _ (removed : List ℕ) (instrs : List RuntimeInstr) where
  abbrev table : List ℕ
  table = old_to_new_from removed 0 0 instrs

  abbrev moved_target : ℕ → ℕ
  moved_target target = kept_before removed (min target (length instrs))

  new_target-kept_before :
      (target : ℕ) → get_elem? table (min target (length instrs)) ≡ some (moved_target target)
  new_target-kept_before target =
      let t = min target (length instrs) in
      let same : 0 + t ≡ t = omega arith in
      old_to_new_from-kept_before removed 0 instrs t (omega arith)
      ∙ ap (λ j. some (kept_before removed j)) same

  retarget-HasMoved :
      (instr moved : RuntimeInstr)
      → retarget table (length instrs) instr ≡ some moved
      → HasMoved moved_target instr moved
  unfolding retarget
  retarget-HasMoved (jump target) moved e = sym (some_is (rw (new_target-kept_before target) at e))
  retarget-HasMoved (jump_if_zero c target) moved e =
      sym (some_is (rw (new_target-kept_before target) at e))
  retarget-HasMoved (jump_if_cmp_false op lhs rhs target) moved e =
      sym (some_is (rw (new_target-kept_before target) at e))
  retarget-HasMoved (call target) moved e = sym (some_is (rw (new_target-kept_before target) at e))
  retarget-HasMoved _ moved e = sym (some_is e)

-- Removing instructions does not panic. Each one that is kept then stands behind those kept in front
-- of it; the target of a jump, a conditional jump or a call is the number of instructions kept in
-- front of the old target, or of the end for one beyond it; all else of an instruction is as it was,
-- the entry of a spawned thread too.
pub remove_runtime_instructions_lem :
    (program : RuntimeProgram) (index : ℕ) (rest : List ℕ)
    → (compact : RuntimeProgram) × (remove_runtime_instructions program (index ∷ rest)
        ≡ some compact)
      × ((i : ℕ) (instr : RuntimeInstr)
          → get_elem? program.instrs i ≡ some instr
          → contains i (index ∷ rest) ≡ false
          → (moved : RuntimeInstr) × (get_elem? compact.instrs (kept_before (index ∷ rest) i)
              ≡ some moved)
            × HasMoved
                (λ target. kept_before (index ∷ rest) (min target (length program.instrs)))
                instr
                moved)
unfolding remove_runtime_instructions Places
remove_runtime_instructions_lem program index rest =
    let removed = index ∷ rest in
    let instrs = program.instrs in
    let sized = length-old_to_new_from removed 0 0 instrs in
    let (compact, made, places) =
      Returns-result (compact_from removed (table removed instrs) (length instrs) 0 instrs) _
        (compact_from-Places removed (table removed instrs) (length instrs) sized 0 0 instrs) in
    (
      record program { instrs = compact },
      rw made refl,
      λ i instr h k.
          let same : 0 + i ≡ i = omega arith in
          let (j, p, q) = places i instr h (ap (λ m. contains m removed) same ∙ k) in
          let (moved, r) = retarget-returns (table removed instrs) (length instrs) instr sized in
          let counted =
            old_to_new_from-kept_before removed 0 instrs i
              (omega (arith, get_elem?-in_range instrs i h)) in
          let whole : j ≡ 0 + j = omega arith in
          let there : j ≡ kept_before removed i =
            whole ∙ sym (some_is (sym counted ∙ p)) ∙ ap (kept_before removed) same in
          (
            moved,
            ap (get_elem? compact) (sym there) ∙ q ∙ r,
            retarget-HasMoved removed instrs instr moved r,
          ),
    )
