-- ===== src/Schedule/Kept.antt =====
-- src/backend/optimizer.rs: schedule_pure_regions keeps what the blocks of a program do.
use mathlib.Core.Path.{fun_ext}
use mathlib.Core.List.{append-nil, append_assoc}
use aziky.Prelude.{
  ℕ, suc, ◌≡◌, refl, sym, ap, ◌∙◌, arith, Bool, true, false, ◌||◌, ◌>>=◌, Option, none, some, List,
  [], ◌∷◌, ◌++◌, All, All-append, length, length-append, ltb, if◌then◌else◌, inl, inr, Bool-cases,
  Option-cases, Returns, Returns-bind, Returns-mono, bind-some, some_is, get_elem?,
}
use aziky.Ir.{RuntimeInstr}
use aziky.Superopt.Evaluate.{Environment}
use aziky.Superopt.Verify.{insert}
use aziky.Schedule.Region.{is_schedulable, schedule_region}
use aziky.Schedule.Outcome.{outcome, step, run}
use aziky.Schedule.Orders.{reordered}
use aziky.Schedule.Start.{IsPure, All-get_elem?}
use aziky.Schedule.Total.{schedule_region-returns, schedule_region_lem, length-schedule_region}
use aziky.Schedule.Pass.{
  write_back, schedule_run, schedule_block, schedule_blocks, blocks_from, join_block, concat_blocks,
  is_identity_from, has_affine_triple,
}

-- What an instruction that is not scheduled does to a frame; nothing is assumed of it.
abbrev pub Meaning : Type 0
Meaning = RuntimeInstr → Environment → Option Environment

-- The code of a block, run from its first instruction.
unfoldable pub run_block : Meaning → List RuntimeInstr → Environment → Option Environment
run_block meaning [] environment = some environment
run_block meaning (instr ∷ rest) environment =
    if is_schedulable instr
    then step instr (run_block meaning rest) environment
    else (do after ← meaning instr environment; run_block meaning rest after)

-- Code of the same length that does the same.
abbrev pub IsSame : List RuntimeInstr → List RuntimeInstr → Type 0
IsSame block code =
    (length code ≡ length block)
    × ((meaning : Meaning) (environment : Environment)
        → run_block meaning code environment ≡ run_block meaning block environment)

pub run_block-append :
    (meaning : Meaning) (xs ys : List RuntimeInstr) (environment : Environment)
    → run_block meaning (xs ++ ys) environment
      ≡ (run_block meaning xs environment >>= run_block meaning ys)
unfolding run_block step
run_block-append meaning [] ys environment = refl
run_block-append meaning (x ∷ xs) ys environment = elim (Bool-cases (is_schedulable x)) [
  | inl p ↦ elim (Option-cases (outcome x environment)) [
    | inl e ↦ rw (p, e) refl
    | inr ((d, v), e) ↦ rw (p, e) (run_block-append meaning xs ys (insert d v environment))
  ]
  | inr p ↦ elim (Option-cases (meaning x environment)) [
    | inl e ↦ rw (p, e) refl
    | inr (after, e) ↦ rw (p, e) (run_block-append meaning xs ys after)
  ]
]

run_block-run :
    (meaning : Meaning) (xs : List RuntimeInstr) (environment : Environment)
    → All IsPure xs
    → run_block meaning xs environment ≡ run xs environment
unfolding run_block run step
run_block-run meaning [] environment h = refl
run_block-run meaning (x ∷ xs) environment (p, h) = elim (Option-cases (outcome x environment)) [
  | inl e ↦ rw (p, e) refl
  | inr ((d, v), e) ↦ rw (p, e) (run_block-run meaning xs (insert d v environment) h)
]

reordered-IsPure :
    (region : List RuntimeInstr) (order : List ℕ) (code : List RuntimeInstr)
    → All IsPure region
    → reordered region order ≡ some code
    → All IsPure code × (length code ≡ length order)
unfolding reordered
reordered-IsPure region [] code h e = rw (sym (some_is e)) (tt, refl)
reordered-IsPure region (node ∷ order) code h e =
    let (instr, p, e') = bind-some (get_elem? region node) _ _ e in
    let (rest, q, e'') = bind-some (reordered region order) _ _ e' in
    let (pure, size) = reordered-IsPure region order rest h q in
    rw (sym (some_is e'')) ((All-get_elem? IsPure region h node instr p, pure), ap suc size)

-- A region and what is written over it.
schedule_run-IsSame :
    (atom : Bool) (region : List RuntimeInstr)
    → All IsPure region
    → Returns (schedule_run atom region) (λ (code, changed). IsSame region code)
unfolding schedule_run
schedule_run-IsSame atom region pure =
    elim (Bool-cases (ltb (length region) 3 || has_affine_triple region)) [
      | inl kept ↦ rw kept (refl, λ meaning environment. refl)
      | inr tried ↦
          let (result, found, _) = schedule_region-returns region atom pure in
          rw (tried, found) (written result found)
    ]
  where
    written :
        (result : Option (List ℕ))
        → schedule_region region atom ≡ some result
        → Returns (write_back region result) (λ (code, changed). IsSame region code)
    written none found = (refl, λ meaning environment. refl)
    written (some order) found = elim (Bool-cases (is_identity_from 0 order)) [
      | inl same ↦ rw same (refl, λ meaning environment. refl)
      | inr moved ↦
          let (_, (code, made, does)) = schedule_region_lem region atom order pure found in
          let (pure', size) = reordered-IsPure region order code pure made in
          rw (moved, made)
            (
              size ∙ length-schedule_region region atom order pure found,
              λ meaning environment.
                  run_block-run meaning code environment pure'
                  ∙ does environment
                  ∙ sym (run_block-run meaning region environment pure),
            )
    ]

run_block-congr :
    (meaning : Meaning) (x : RuntimeInstr) (xs ys : List RuntimeInstr)
    → ((environment : Environment)
        → run_block meaning xs environment ≡ run_block meaning ys environment)
    → (environment : Environment)
    → run_block meaning (x ∷ xs) environment ≡ run_block meaning (x ∷ ys) environment
unfolding run_block
run_block-congr meaning x xs ys same environment =
    ap
      (λ (k : Environment → Option Environment).
        if is_schedulable x then step x k environment else (meaning x environment >>= k))
      (fun_ext same)

-- The code in front of an instruction that is not pure, and the code behind it.
split_code :
    (region code rest later : List RuntimeInstr) (instr : RuntimeInstr)
    → IsSame region code
    → IsSame rest later
    → IsSame (region ++ instr ∷ rest) (code ++ instr ∷ later)
split_code region code rest later instr (size, does) (size', does') = (
  omega (arith, length-append code (instr ∷ later), length-append region (instr ∷ rest)),
  λ meaning environment.
      run_block-append meaning code (instr ∷ later) environment
      ∙ ap (λ o. o >>= run_block meaning (instr ∷ later)) (does meaning environment)
      ∙ ap (λ k. run_block meaning region environment >>= k) (fun_ext (behind meaning))
      ∙ sym (run_block-append meaning region (instr ∷ rest) environment),
)
  where
    behind :
        (meaning : Meaning) (environment : Environment)
        → run_block meaning (instr ∷ later) environment
          ≡ run_block meaning (instr ∷ rest) environment
    behind meaning environment =
        run_block-congr meaning instr later rest (does' meaning) environment

schedule_block-IsSame :
    (atom : Bool) (region block : List RuntimeInstr)
    → All IsPure region
    → Returns (schedule_block atom region block) (λ (code, changed). IsSame (region ++ block) code)
unfolding schedule_block
schedule_block-IsSame atom region [] pure =
    rw (append-nil region) (schedule_run-IsSame atom region pure)
schedule_block-IsSame atom region (instr ∷ rest) pure = elim (Bool-cases (is_schedulable instr)) [
  | inl p ↦
      rw (p, Returns)
        (Returns-mono (schedule_block atom (region ++ instr ∷ []) rest) _ _
          (schedule_block-IsSame atom (region ++ instr ∷ []) rest
            (All-append IsPure region (instr ∷ []) pure (p, tt)))
          (λ (code, changed) same. rw (sym (append_assoc region (instr ∷ []) rest)) same))
  | inr p ↦
      rw (p, Returns)
        (Returns-bind (schedule_run atom region) _ _ _ (schedule_run-IsSame atom region pure)
          (λ (code, changed) same.
            Returns-bind (schedule_block atom [] rest) _ _ _ (schedule_block-IsSame atom [] rest tt)
              (λ (later, changed_later) same'. split_code region code rest later instr same same')))
]

-- Blocks one by one of the same length and doing the same.
abbrev pub AreSame : List (List RuntimeInstr) → List (List RuntimeInstr) → Type 0
AreSame [] [] = Unit
AreSame (block ∷ blocks) (code ∷ codes) = IsSame block code × AreSame blocks codes
AreSame _ _ = ⊥

pub schedule_blocks-AreSame :
    (atom : Bool) (blocks : List (List RuntimeInstr))
    → Returns (schedule_blocks atom blocks) (λ (codes, changed). AreSame blocks codes)
unfolding schedule_blocks
schedule_blocks-AreSame atom [] = tt
schedule_blocks-AreSame atom (block ∷ blocks) =
    Returns-bind (schedule_block atom [] block) _ _ _ (schedule_block-IsSame atom [] block tt)
      (λ (code, changed) same.
        Returns-bind (schedule_blocks atom blocks) _ _ _ (schedule_blocks-AreSame atom blocks)
          (λ (codes, changed_later) same'. (same, same')))

concat_blocks-join_block :
    (b : Bool) (instr : RuntimeInstr) (blocks : List (List RuntimeInstr))
    → concat_blocks (join_block b instr blocks) ≡ instr ∷ concat_blocks blocks
concat_blocks-join_block b instr [] = refl
concat_blocks-join_block true instr (block ∷ blocks) = refl
concat_blocks-join_block false instr (block ∷ blocks) = refl

pub concat_blocks-blocks_from :
    (starts : List ℕ) (idx : ℕ) (instrs : List RuntimeInstr)
    → concat_blocks (blocks_from starts idx instrs) ≡ instrs
unfolding blocks_from
concat_blocks-blocks_from starts idx [] = refl
concat_blocks-blocks_from starts idx (instr ∷ rest) =
    concat_blocks-join_block _ instr (blocks_from starts (suc idx) rest)
    ∙ ap (◌∷◌ instr) (concat_blocks-blocks_from starts (suc idx) rest)
