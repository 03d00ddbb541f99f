-- ===== src/Frontend/PassSound.antt =====
-- src/frontend/optimizer.rs: the folding pass keeps what straight-line code computes.
use mathlib.Core.Path.{subst}
use aziky.Prelude.{
  ℕ, zero, suc, ◌+◌, ◌<◌, ◌≡◌, refl, sym, ap, Bool, true, false, Option, none, some, List, [], ◌∷◌,
  All, length, replicate, Returns, Returns-bind, bind-some, ◌>>=◌, ◌∙◌, if◌then◌else◌,
}
use aziky.Ir.{RuntimeFloatBinOp, RuntimeInstr, mov, bin_op, bin_op_in_place, cmp}
use aziky.Lir.Slots.{write_slots}
use aziky.Superopt.Evaluate.{Environment, evaluate_pure_instruction}
use aziky.Superopt.Soundness.{InstrFits}
use aziky.Superopt.Verify.{insert}
use aziky.Superopt.Execute.{Frame, insert-Frame, evaluate-IsWord, execute}
use aziky.Frontend.Fold.{Consts, clear_const_slots, fold_runtime_instr}
use aziky.Frontend.FoldPass.{
  is_target, remap_target, remap_targets, push_kept, kept_count, fold_from,
  peephole_optimize_runtime_instrs,
}
use aziky.Frontend.Known.{Right, replicate-Right, clear_const_slots-Right, length-clear_const_slots}
use aziky.Frontend.FoldSound.{run_folded, fold_runtime_instr_lem}

-- Every slot that the code writes is below a count.
abbrev pub WritesBelow : ℕ → List RuntimeInstr → Type 0
WritesBelow n instrs = All (λ instr. All (λ s. s < n) (write_slots instr)) instrs

execute-push_kept :
    (next : Option RuntimeInstr) (out : List RuntimeInstr) (environment : Environment)
    → execute (push_kept next out) environment ≡ (run_folded next environment >>= execute out)
unfolding execute
execute-push_kept none out environment = refl
execute-push_kept (some instr) out environment =
    stepped (evaluate_pure_instruction instr environment)
  where
    stepped :
        (o : Option (ℕ × ℕ))
        → (o >>= (λ (d, v). execute out (insert d v environment)))
          ≡ (o >>= (λ (d, v). some (insert d v environment)) >>= execute out)
    stepped none = refl
    stepped (some r) = refl

-- What executes has no target to move.
remap_target-pure :
    (remap : List ℕ) (count : ℕ) (instr : RuntimeInstr) (environment : Environment) (r : ℕ × ℕ)
    → evaluate_pure_instruction instr environment ≡ some r
    → remap_target remap count instr ≡ some instr
unfolding remap_target evaluate_pure_instruction
remap_target-pure remap count (mov _ _) environment r h = refl
remap_target-pure remap count (bin_op _ _ _ _) environment r h = refl
remap_target-pure remap count (bin_op_in_place _ _ _) environment r h = refl
remap_target-pure remap count (cmp _ _ _ _) environment r h = refl
remap_target-pure remap count _ environment r h = absurd (cc)

remap_targets-pure :
    (remap : List ℕ) (count : ℕ) (instrs : List RuntimeInstr) (environment final : Environment)
    → execute instrs environment ≡ some final
    → remap_targets remap count instrs ≡ some instrs
unfolding remap_targets execute
remap_targets-pure remap count [] environment final h = refl
remap_targets-pure remap count (instr ∷ rest) environment final h =
    let (r, e, later) = bind-some (evaluate_pure_instruction instr environment) _ _ h in
    rw
      (
        remap_target-pure remap count instr environment r e,
        remap_targets-pure remap count rest _ final later,
      )
      refl

module _ (float_op : ℕ → RuntimeFloatBinOp → ℕ → ℕ → ℕ) where
  fold_from-executes :
      (original : List RuntimeInstr) (idx kept : ℕ) (const_slots : Consts)
      (instrs : List RuntimeInstr) (environment final : Environment)
      → All InstrFits instrs
      → Frame environment
      → Right const_slots environment
      → WritesBelow (length const_slots) instrs
      → execute instrs environment ≡ some final
      → Returns
          (fold_from float_op original idx kept const_slots instrs)
          (λ (out, _). execute out environment ≡ some final)
  unfolding fold_from execute
  fold_from-executes original idx kept cs [] environment final fits frame right small h = h
  fold_from-executes original idx kept cs (instr ∷ rest) environment final (fit, fits) frame right
        (small, smalls) h =
      let (r, e, later) = bind-some (evaluate_pure_instruction instr environment) _ _ h in
      let (known_right, known_length) = known (is_target original idx) in
      Returns-bind (fold_runtime_instr float_op instr _) _ _ _
        (fold_runtime_instr_lem float_op instr _ environment r.0 r.1 fit frame known_right
          (subst (λ n. All (λ s. s < n) (write_slots instr)) (sym known_length) small) e)
        (λ (next, cs') (ran, right', length').
          Returns-bind (fold_from float_op original (idx + 1) (kept + kept_count next) cs' rest) _ _
            _
            (fold_from-executes original (idx + 1) (kept + kept_count next) cs' rest
              (insert r.0 r.1 environment) final fits
              (insert-Frame environment r.0 r.1
                (evaluate-IsWord instr environment r.0 r.1 fit frame e) frame)
              right' (subst (λ n. WritesBelow n rest) (sym (length' ∙ known_length)) smalls) later)
            (λ (out, remap) done. execute-push_kept next out environment ∙ rw ran done))
    where
      known :
          (targeted : Bool)
          → Right (if targeted then clear_const_slots cs else cs) environment
            × (length (if targeted then clear_const_slots cs else cs) ≡ length cs)
      known true = (clear_const_slots-Right cs environment, length-clear_const_slots cs)
      known false = (right, refl)

length-replicate : (n : ℕ) (known : Option ℕ) → length (replicate n known) ≡ n
length-replicate zero known = refl
length-replicate (suc n) known = ap suc (length-replicate n known)

-- On straight-line code over a frame of words that writes slots of the frame only and does not fail,
-- the pass returns, and what it returns computes the same final frame.
pub peephole_optimize_runtime_instrs_lem :
    (float_op : ℕ → RuntimeFloatBinOp → ℕ → ℕ → ℕ) (slots : ℕ) (instrs : List RuntimeInstr)
    (environment final : Environment)
    → All InstrFits instrs
    → Frame environment
    → WritesBelow slots instrs
    → execute instrs environment ≡ some final
    → Returns
        (peephole_optimize_runtime_instrs float_op slots instrs)
        (λ out. execute out environment ≡ some final)
unfolding peephole_optimize_runtime_instrs
peephole_optimize_runtime_instrs_lem float_op slots instrs environment final fits frame small h =
    Returns-bind (fold_from float_op instrs 0 0 (replicate slots none) instrs) _ _ _
      (fold_from-executes float_op instrs 0 0 (replicate slots none) instrs environment final fits
        frame (replicate-Right slots environment)
        (subst (λ n. WritesBelow n instrs) (sym (length-replicate slots none)) small) h)
      (λ (out, remap) done.
        rw (remap_targets-pure remap (length instrs) out environment final done) done)
