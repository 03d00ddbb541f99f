-- ===== src/Frontend/Fixpoint.antt =====
-- src/frontend/optimizer.rs: the analysis of bounds ends in facts that hold wherever a program goes.
use mathlib.Core.Path.{subst}
use aziky.Prelude.{
  some_is, ℕ, zero, suc, ◌≡◌, refl, sym, ap, ◌∙◌, true, Option, none, some, List, [], ◌∷◌, length,
  get_elem?, ==_iff, ◌==◌, ◌<◌, inl, inr, ◌⊎◌, Bool-cases, bind-some, All,
}
use aziky.Ir.{RuntimeInstr}
use aziky.Superopt.Evaluate.{Environment}
use aziky.Superopt.Soundness.{InstrFits}
use aziky.Superopt.Execute.{Frame}
use aziky.Frontend.SlotFacts.{facts_at}
use aziky.Frontend.Merge.{AllImply}
use aziky.Frontend.Masks.{Describes}
use aziky.Frontend.Transfer.{runtime_transfer_slot_facts}
use aziky.Frontend.TransferSound.{runtime_transfer_slot_facts_lem}
use aziky.Frontend.Effects.{contains, DescribesFrame, Effect, InstrShiftsFit}
use aziky.Frontend.Control.{Leads, successors-Leads}
use aziky.Frontend.Bounds.{
  Facts, InStates, successors, runtime_succ_targets, visit, visit_state, analyze,
}
use aziky.Frontend.Settled.{
  At, Sized, Grows, Grows-refl, Grows-trans, Sent, Propagated, propagate-Propagated,
}
use aziky.Frontend.Lengths.{length-transfer}

module _ (instrs : List RuntimeInstr) (n : ℕ) where
  -- What an instruction leaves is allowed at its successors.
  abbrev pub Settled : InStates → ℕ → Facts → Type 0
  Settled states i facts =
      (instr : RuntimeInstr)
      → get_elem? instrs i ≡ some instr
      → (out : Facts) × (runtime_transfer_slot_facts instr facts n ≡ some out)
        × Sent out (successors instr i (length instrs)) states

  abbrev pub Pending : InStates → List ℕ → Type 0
  Pending states queue =
      (i : ℕ) (facts : Facts)
      → At states i facts
      → (contains i queue ≡ true) ⊎ Settled states i facts

  Sent-Grows :
      (out : Facts) (succs : List ℕ) (a b : InStates)
      → Grows a b
      → Sent out succs a
      → Sent out succs b
  Sent-Grows out succs a b grows sent s h =
      let (f, at, implied) = sent s h in
      let (f', at', implied') = grows s f at in (f', at', λ t v d. implied' t v (implied t v d))

  record Visited (before after : InStates) (queue' : List ℕ) : Type 0 where
    pub pending : Pending after queue'
    pub sized : Sized n after
    pub grows : Grows before after
    pub same_length : length after ≡ length before

  -- A visit without facts only takes the index from the queue.
  unvisited :
      (idx : ℕ) (states : InStates) (queue : List ℕ)
      → Sized n states
      → Pending states (idx ∷ queue)
      → get_elem? states idx ≡ some none
      → Visited states states queue
  unfolding contains
  unvisited idx states queue all_sized pending found = record {
    pending = λ i facts h. elim (pending i facts h) [
      | inl queued ↦ elim (Bool-cases (idx == i)) [
        | inl same ↦ absurd (cc (found, h, ap (get_elem? states) ((==_iff idx i).0 same)))
        | inr other ↦ inl (rw other at queued)
      ]
      | inr settled ↦ inr settled
    ];
    sized = all_sized;
    grows = Grows-refl states;
    same_length = refl;
  }

  visited :
      (idx : ℕ) (states : InStates) (queue : List ℕ) (states' : InStates) (queue' : List ℕ)
      (facts out : Facts) (instr : RuntimeInstr)
      → Pending states (idx ∷ queue)
      → At states idx facts
      → get_elem? instrs idx ≡ some instr
      → runtime_transfer_slot_facts instr facts n ≡ some out
      → Propagated n out (successors instr idx (length instrs)) states queue states' queue'
      → Visited states states' queue'
  unfolding contains
  visited idx states queue states' queue' facts out instr pending at here made p = record {
    pending = λ i facts' h. elim (p.queued i facts' h) [
      | inl queued ↦ inl queued
      | inr before ↦ elim (pending i facts' before) [
        | inl queued ↦ elim (Bool-cases (idx == i)) [
          | inl same ↦ inr (λ instr' here'.
              let i_is : idx ≡ i = (==_iff idx i).0 same in
              let facts_same : facts' ≡ facts =
                some_is (some_is (sym before ∙ (ap (get_elem? states) (sym i_is) ∙ at))) in
              let instr_same : instr' ≡ instr =
                some_is (sym here' ∙ (ap (get_elem? instrs) (sym i_is) ∙ here)) in
              (out, rw (instr_same, facts_same) made, rw (instr_same, sym i_is) p.sent))
          | inr other ↦ inl (p.kept i (rw other at queued))
        ]
        | inr settled ↦ inr (λ instr' here'.
            let (out', made', sent') = settled instr' here' in
            (out', made', Sent-Grows out' _ states states' p.grows sent'))
      ]
    ];
    sized = p.sized;
    grows = p.grows;
    same_length = p.same_length;
  }

  visit-Visited :
      (idx : ℕ) (states : InStates) (queue : List ℕ) (states' : InStates) (queue' : List ℕ)
      → Sized n states
      → Pending states (idx ∷ queue)
      → visit instrs n idx states queue ≡ some (states', queue')
      → Visited states states' queue'
  unfolding visit runtime_succ_targets
  visit-Visited idx states queue states' queue' all_sized pending h =
      let (state, found, later) = bind-some (get_elem? states idx) _ _ h in go state found later
    where
      go :
          (state : Option Facts)
          → get_elem? states idx ≡ some state
          → visit_state instrs n idx states queue state ≡ some (states', queue')
          → Visited states states' queue'
      go none found later =
          subst (λ (p : InStates × List ℕ). Visited states p.0 p.1) (some_is later)
            (unvisited idx states queue all_sized pending found)
      go (some facts) found later =
          let (instr, here, h1) = bind-some (get_elem? instrs idx) _ _ later in
          let (out, made, h2) = bind-some (runtime_transfer_slot_facts instr facts n) _ _ h1 in
          let (succs, targets, sent) = bind-some (runtime_succ_targets instrs idx) _ _ h2 in
          let succs_same : successors instr idx (length instrs) ≡ succs =
            some_is (rw here at targets) in
          let size = length-transfer instr facts out n (all_sized idx facts found) made in
          visited idx states queue states' queue' facts out instr pending found here made (
            subst (λ t. Propagated n out t states queue states' queue') (sym succs_same)
              (propagate-Propagated n out succs states queue states' queue' size all_sized sent))

  -- The analysis ends with every instruction settled.
  pub analyze-Settled :
      (fuel : ℕ) (states : InStates) (queue : List ℕ) (states' : InStates)
      → Sized n states
      → Pending states queue
      → analyze fuel instrs n states queue ≡ some states'
      → Grows states states'
        × ((i : ℕ) (facts : Facts) → At states' i facts → Settled states' i facts)
        × (length states' ≡ length states)
  unfolding analyze contains
  analyze-Settled fuel states [] states' all_sized pending h =
      subst
        (λ t.
          Grows states t
          × ((i : ℕ) (facts : Facts) → At t i facts → Settled t i facts)
          × (length t ≡ length states))
        (some_is h)
        (
          Grows-refl states,
          (λ i facts at. elim (pending i facts at) [
            | inl queued ↦ absurd (cc)
            | inr settled ↦ settled
          ]),
          refl,
        )
  analyze-Settled zero states (idx ∷ queue) states' all_sized pending h = absurd (cc)
  analyze-Settled (suc fuel) states (idx ∷ queue) states' all_sized pending h =
      let ((mid, queue'), seen, later) = bind-some (visit instrs n idx states queue) _ _ h in
      let v = visit-Visited idx states queue mid queue' all_sized pending seen in
      let (grows, settled, same) =
        analyze-Settled fuel mid queue' states' v.sized v.pending later in
      (Grows-trans _ _ _ v.grows grows, settled, same ∙ v.same_length)

-- Where the thread that starts a program comes to, over words, with the effects of what it runs.
-- The threads that it spawns are not followed.
pub data Reach (instrs : List RuntimeInstr) : ℕ → Environment → Type 0 where
  start : (environment : Environment) → Frame environment → Reach instrs 0 environment
  move :
      (pc pc' : ℕ) (before after : Environment) (instr : RuntimeInstr)
      → Reach instrs pc before
      → get_elem? instrs pc ≡ some instr
      → Effect instr before after
      → Frame after
      → Leads instr pc pc'
      → pc' < length instrs
      → Reach instrs pc' after

-- The shifts of every instruction are ones whose bound the analysis gets right.
abbrev pub AllShiftsFit : List RuntimeInstr → InStates → Type 0
AllShiftsFit instrs states =
    (pc : ℕ) (instr : RuntimeInstr) (facts : Facts)
    → get_elem? instrs pc ≡ some instr
    → At states pc facts
    → InstrShiftsFit instr facts

module _ (instrs : List RuntimeInstr) (fits : All InstrFits instrs) where
  fits_at :
      (xs : List RuntimeInstr) (i : ℕ) (instr : RuntimeInstr)
      → All InstrFits xs
      → get_elem? xs i ≡ some instr
      → InstrFits instr
  fits_at [] i instr h e = absurd (cc)
  fits_at (x ∷ xs) zero instr (h, hs) e = subst InstrFits (some_is e) h
  fits_at (x ∷ xs) (suc i) instr (h, hs) e = fits_at xs i instr hs e

  pub Reach-described :
      (n : ℕ) (states : InStates) (initial : Facts) (pc : ℕ) (environment : Environment)
      → ((s v : ℕ) → Describes (facts_at initial s) v)
      → (facts : Facts) × At states 0 facts × AllImply initial facts
      → ((i : ℕ) (facts : Facts) → At states i facts → Settled instrs n states i facts)
      → AllShiftsFit instrs states
      → Reach instrs pc environment
      → Frame environment
        × ((facts : Facts) × At states pc facts × DescribesFrame facts environment)
  Reach-described n states initial pc environment free (facts, at, implied) settled shifts
        (start _ frame) =
      (frame, (facts, at, λ s v e. implied s v (free s v)))
  Reach-described n states initial pc environment free first settled shifts
        (move pc0 _ before _ instr reach here effect frame leads small) =
      let (frame0, (facts, at, describes)) =
        Reach-described n states initial pc0 before free first settled shifts reach in
      let (out, made, sent) = settled pc0 facts at instr here in
      let after =
        runtime_transfer_slot_facts_lem facts n before frame0 describes instr out environment
          (fits_at instrs pc0 instr fits here) (shifts pc0 instr facts here at) effect made in
      let (facts', at', implied') =
        sent pc (successors-Leads instr pc0 pc (length instrs) leads small) in
      (frame, (facts', at', λ s v e. implied' s v (after s v e)))
