-- ===== src/Schedule/Segments.antt =====
-- src/backend/optimizer.rs: schedule_pure_regions keeps what the code between two entries does.
use mathlib.Core.Path.{fun_ext, subst}
use aziky.Prelude.{
  ℕ, zero, suc, ◌+◌, ◌-◌, ◌≤◌, ◌<◌, ◌≡◌, refl, sym, ap, ◌∙◌, arith, Bool, true, false, ◌>>=◌, ◌⊎◌,
  inl, inr, some, List, [], ◌∷◌, ◌++◌, All, length, length-append, take, skip, lt→ltb,
  Returns-result,
}
use aziky.Ir.{RuntimeInstr, RuntimeProgram}
use aziky.Lir.Slots.{read_slots, write_slots}
use aziky.Lir.Limits.{SlotsIn, ReadsIn, WritesIn, read_slots-ReadsIn, write_slots-WritesIn}
use aziky.Frontend.Effects.{contains}
use aziky.Schedule.Entries.{IsEntry, block_starts-IsEntry}
use aziky.Schedule.Pass.{
  all_below, lowers, schedule_blocks, schedule_pure_regions, blocks_from, block_starts, join_block,
  concat_blocks,
}
use aziky.Schedule.Kept.{
  run_block, run_block-append, IsSame, AreSame, schedule_blocks-AreSame, concat_blocks-blocks_from,
}

-- The instructions from one index up to another.
abbrev pub between : ℕ → ℕ → List RuntimeInstr → List RuntimeInstr
between e e' instrs = take (e' - e) (skip e instrs)

-- An index at which one of the blocks begins or the last one ends.
abbrev IsCut : List (List RuntimeInstr) → ℕ → Type 0
IsCut [] e = e ≡ 0
IsCut (block ∷ blocks) e = (e ≡ 0) ⊎ ((length block ≤ e) × IsCut blocks (e - length block))

IsSame-refl : (xs : List RuntimeInstr) → IsSame xs xs
IsSame-refl xs = (refl, λ meaning environment. refl)

IsSame-append :
    (xs xs' ys ys' : List RuntimeInstr)
    → IsSame xs xs'
    → IsSame ys ys'
    → IsSame (xs ++ ys) (xs' ++ ys')
IsSame-append xs xs' ys ys' (size, does) (size', does') = (
  omega (arith, length-append xs ys, length-append xs' ys'),
  λ meaning environment.
      run_block-append meaning xs' ys' environment
      ∙ ap (λ o. o >>= run_block meaning ys') (does meaning environment)
      ∙ ap (λ k. run_block meaning xs environment >>= k) (fun_ext (does' meaning))
      ∙ sym (run_block-append meaning xs ys environment),
)

take-behind :
    (xs ys : List RuntimeInstr) (n : ℕ)
    → length xs ≤ n
    → take n (xs ++ ys) ≡ xs ++ take (n - length xs) ys
take-behind [] ys n h = ap (λ k. take k ys) (omega arith)
take-behind (x ∷ xs) ys zero h = absurd (omega arith)
take-behind (x ∷ xs) ys (suc n) h =
    ap (◌∷◌ x) (take-behind xs ys n (omega arith) ∙ ap (λ k. xs ++ take k ys) (omega arith))

skip-behind :
    (xs ys : List RuntimeInstr) (n : ℕ)
    → length xs ≤ n
    → skip n (xs ++ ys) ≡ skip (n - length xs) ys
skip-behind [] ys n h = ap (λ k. skip k ys) (omega arith)
skip-behind (x ∷ xs) ys zero h = absurd (omega arith)
skip-behind (x ∷ xs) ys (suc n) h =
    skip-behind xs ys n (omega arith) ∙ ap (λ k. skip k ys) (omega arith)

take_none : (xs ys : List RuntimeInstr) (n : ℕ) → n ≡ 0 → IsSame (take n xs) (take n ys)
take_none xs ys n e = rw e (IsSame-refl [])

-- The code in front of a cut.
front-IsSame :
    (blocks codes : List (List RuntimeInstr)) (e : ℕ)
    → AreSame blocks codes
    → IsCut blocks e
    → IsSame (take e (concat_blocks blocks)) (take e (concat_blocks codes))
front-IsSame [] [] e same cut = take_none [] [] e cut
front-IsSame [] (code ∷ codes) e same cut = absurd same
front-IsSame (block ∷ blocks) [] e same cut = absurd same
front-IsSame (block ∷ blocks) (code ∷ codes) e same (inl first) = take_none _ _ e first
front-IsSame (block ∷ blocks) (code ∷ codes) e ((size, does), same) (inr (le, cut)) =
    rw
      (
        take-behind block (concat_blocks blocks) e le,
        take-behind code (concat_blocks codes) e (omega arith),
        size,
      )
      (IsSame-append block code _ _ (size, does) (front-IsSame blocks codes _ same cut))

-- The code between two cuts.
between-IsSame :
    (blocks codes : List (List RuntimeInstr)) (e e' : ℕ)
    → AreSame blocks codes
    → IsCut blocks e
    → IsCut blocks e'
    → IsSame (between e e' (concat_blocks blocks)) (between e e' (concat_blocks codes))
between-IsSame [] [] e e' same cut cut' = IsSame-refl (between e e' [])
between-IsSame [] (code ∷ codes) e e' same cut cut' = absurd same
between-IsSame (block ∷ blocks) [] e e' same cut cut' = absurd same
between-IsSame (block ∷ blocks) (code ∷ codes) e e' same (inl first) cut' =
    let whole : e' - 0 ≡ e' = omega arith in
    rw (first, whole) (front-IsSame (block ∷ blocks) (code ∷ codes) e' same cut')
between-IsSame (block ∷ blocks) (code ∷ codes) e e' same (inr (le, cut)) (inl first) =
    take_none _ _ (e' - e) (omega arith)
between-IsSame (block ∷ blocks) (code ∷ codes) e e' ((size, does), same) (inr (le, cut))
      (inr (le', cut')) =
    let moved : e' - e ≡ (e' - length block) - (e - length block) = omega arith in
    rw
      (
        skip-behind block (concat_blocks blocks) e le,
        skip-behind code (concat_blocks codes) e (omega arith),
        size,
        moved,
      )
      (between-IsSame blocks codes _ _ same cut cut')

start-IsCut : (blocks : List (List RuntimeInstr)) → IsCut blocks 0
start-IsCut [] = refl
start-IsCut (block ∷ blocks) = inl refl

-- An instruction in front of the blocks moves what is behind it.
join_block-IsCut :
    (b : Bool) (instr : RuntimeInstr) (blocks : List (List RuntimeInstr)) (e : ℕ)
    → 0 < e
    → IsCut blocks e
    → IsCut (join_block b instr blocks) (suc e)
join_block-IsCut b instr [] e p cut = absurd (omega arith)
join_block-IsCut true instr (block ∷ blocks) e p cut =
    let back : e ≡ suc e - 1 = omega arith in
    inr (omega arith, subst (IsCut (block ∷ blocks)) back cut)
join_block-IsCut false instr (block ∷ blocks) e p (inl first) = absurd (omega arith)
join_block-IsCut false instr (block ∷ blocks) e p (inr (le, cut)) =
    let back : e - length block ≡ suc e - suc (length block) = omega arith in
    inr (omega arith, subst (IsCut blocks) back cut)

first-IsCut :
    (instr : RuntimeInstr) (blocks : List (List RuntimeInstr))
    → IsCut (join_block true instr blocks) 1
first-IsCut instr [] = inr (omega arith, refl)
first-IsCut instr (block ∷ blocks) = inr (omega arith, inl refl)

last-IsCut : (b : Bool) (instr : RuntimeInstr) → IsCut (join_block b instr []) 1
last-IsCut b instr = inr (omega arith, refl)

blocks_from-IsCut :
    (starts : List ℕ) (index : ℕ) (instrs : List RuntimeInstr) (e : ℕ)
    → e ≤ length instrs
    → (e ≡ length instrs) ⊎ (contains (index + e) starts ≡ true)
    → IsCut (blocks_from starts index instrs) e
unfolding blocks_from
blocks_from-IsCut starts index [] e p h = omega arith
blocks_from-IsCut starts index (instr ∷ rest) zero p h = start-IsCut _
blocks_from-IsCut starts index (instr ∷ []) (suc zero) p h =
    last-IsCut (contains (suc index) starts) instr
blocks_from-IsCut starts index (instr ∷ next ∷ rest) (suc zero) p (inl last) = absurd (omega arith)
blocks_from-IsCut starts index (instr ∷ next ∷ rest) (suc zero) p (inr found) =
    let same : index + suc zero ≡ suc index = omega arith in
    rw (ap (λ j. contains j starts) (sym same) ∙ found) (first-IsCut instr _)
blocks_from-IsCut starts index (instr ∷ rest) (suc (suc e)) p h =
    join_block-IsCut _ instr _ (suc e) (omega arith) (
      blocks_from-IsCut starts (suc index) rest (suc e) (omega arith) (elim h [
        | inl last ↦ inl (omega arith)
        | inr found ↦
            let same : index + suc (suc e) ≡ suc index + suc e = omega arith in
            inr (ap (λ j. contains j starts) (sym same) ∙ found)
      ]))

IsEntry-IsCut :
    (instrs : List RuntimeInstr) (e : ℕ)
    → IsEntry instrs e
    → IsCut (blocks_from (block_starts instrs) 0 instrs) e
IsEntry-IsCut instrs e entry = elim (block_starts-IsEntry instrs e entry) [
  | inl first ↦
      subst (IsCut (blocks_from (block_starts instrs) 0 instrs)) (sym first) (start-IsCut _)
  | inr later ↦
      let same : e ≡ 0 + e = omega arith in
      blocks_from-IsCut (block_starts instrs) 0 instrs e (in_program entry) (elim later [
        | inl last ↦ inl last
        | inr found ↦ inr (ap (λ j. contains j (block_starts instrs)) (sym same) ∙ found)
      ])
]
  where
    in_program : IsEntry instrs e → e ≤ length instrs
    in_program (inl first) = omega arith
    in_program (inr (inl last)) = omega arith
    in_program (inr (inr (i, instr, found, h, small))) = omega arith

all_below-SlotsIn : (n : ℕ) (used : List ℕ) → SlotsIn n used → all_below n used ≡ true
all_below-SlotsIn n [] h = refl
all_below-SlotsIn n (s ∷ rest) (p, h) = rw (lt→ltb s n p, all_below-SlotsIn n rest h) refl

lowers-SlotsIn :
    (slots : ℕ) (instrs : List RuntimeInstr)
    → All (λ instr. ReadsIn slots instr × WritesIn slots instr) instrs
    → lowers slots instrs ≡ true
unfolding lowers
lowers-SlotsIn slots [] h = refl
lowers-SlotsIn slots (instr ∷ rest) ((r, w), h) =
    rw
      (
        all_below-SlotsIn slots (read_slots instr) ((read_slots-ReadsIn slots instr).1 r),
        all_below-SlotsIn slots (write_slots instr) ((write_slots-WritesIn slots instr).1 w),
        lowers-SlotsIn slots rest h,
      )
      refl

-- On a program whose instructions read and write slots below the slot count, the pass neither panics
-- nor runs out of fuel. Between any two of the following places, which are the start and the end of
-- the program, the targets of jumps, conditional jumps and calls and what follows these, a return or an
-- exit, the code has the same length as before and does the same from its first instruction to its
-- last: whatever the instructions that the pass does not move do to a frame, the final frame is the
-- same, and a failure where the code fails. The entries of spawned threads are not among the places.
pub schedule_pure_regions-IsSame :
    (atom : Bool) (program : RuntimeProgram)
    → All (λ instr. ReadsIn program.slots instr × WritesIn program.slots instr) program.instrs
    → (result : RuntimeProgram) × (scheduled : ℕ) × (schedule_pure_regions atom program
        ≡ some (result, scheduled))
      × ((e e' : ℕ)
          → IsEntry program.instrs e
          → IsEntry program.instrs e'
          → IsSame (between e e' program.instrs) (between e e' result.instrs))
unfolding schedule_pure_regions
schedule_pure_regions-IsSame atom program fits =
    let starts = block_starts program.instrs in
    let blocks = blocks_from starts 0 program.instrs in
    let ((codes, scheduled), done, same) =
      Returns-result (schedule_blocks atom blocks) _ (schedule_blocks-AreSame atom blocks) in
    (
      record program { instrs = concat_blocks codes },
      scheduled,
      rw (lowers-SlotsIn program.slots program.instrs fits, done) refl,
      λ e e' entry entry'.
          subst (λ instrs. IsSame (between e e' instrs) (between e e' (concat_blocks codes)))
            (concat_blocks-blocks_from starts 0 program.instrs)
            (between-IsSame blocks codes e e' same (IsEntry-IsCut program.instrs e entry)
              (IsEntry-IsCut program.instrs e' entry')),
    )
