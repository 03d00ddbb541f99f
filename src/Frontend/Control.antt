-- ===== src/Frontend/Control.antt =====
-- src/frontend/semantics/ir.rs: where the instructions lead a thread, by what the documentation of
-- their variants says.
use aziky.Prelude.{
  ℕ, ◌+◌, ◌<◌, ◌≡◌, refl, arith, true, List, ◌++◌, ◌⊎◌, inl, inr, Bool-cases, ltb, lt→ltb, ◌==◌,
}
use aziky.Ir.{RuntimeInstr, jump, jump_if_zero, jump_if_cmp_false, call, return, exit}
use aziky.Frontend.Effects.{contains}
use aziky.Frontend.Bounds.{in_program, successors}

-- A thread at `pc` may come to `pc'` next. A call comes to its target, and behind it when the target
-- has returned; a spawned thread is another one.
abbrev pub Leads : RuntimeInstr → ℕ → ℕ → Type 0
Leads (jump target) pc pc' = pc' ≡ target
Leads (jump_if_zero _ target) pc pc' = (pc' ≡ target) ⊎ (pc' ≡ pc + 1)
Leads (jump_if_cmp_false _ _ _ target) pc pc' = (pc' ≡ target) ⊎ (pc' ≡ pc + 1)
Leads (call target) pc pc' = (pc' ≡ target) ⊎ (pc' ≡ pc + 1)
Leads return pc pc' = ⊥
Leads (exit _) pc pc' = ⊥
Leads _ pc pc' = pc' ≡ pc + 1

one_in :
    (n t pc' : ℕ) (rest : List ℕ) → pc' ≡ t → pc' < n → contains pc' (in_program n t ++ rest) ≡ true
unfolding contains
one_in n t pc' rest e small =
    let inside : ltb t n ≡ true = lt→ltb t n (omega arith) in
    let same : (t == pc') ≡ true = ground arith in rw (inside, same) refl

behind_in :
    (n t pc' : ℕ) (rest : List ℕ)
    → contains pc' rest ≡ true
    → contains pc' (in_program n t ++ rest) ≡ true
unfolding contains
behind_in n t pc' rest h = elim (Bool-cases (ltb t n)) [
  | inl inside ↦
      rw inside (elim (Bool-cases (t == pc')) [ inl e ↦ rw e refl | inr e ↦ rw (e, h) refl ])
  | inr outside ↦ rw outside h
]

alone : (n t pc' : ℕ) → pc' ≡ t → pc' < n → contains pc' (in_program n t) ≡ true
unfolding contains
alone n t pc' e small =
    let inside : ltb t n ≡ true = lt→ltb t n (omega arith) in
    let same : (t == pc') ≡ true = ground arith in rw (inside, same) refl

either :
    (n t pc pc' : ℕ)
    → (pc' ≡ t) ⊎ (pc' ≡ pc + 1)
    → pc' < n
    → contains pc' (in_program n t ++ in_program n (pc + 1)) ≡ true
either n t pc pc' (inl e) small = one_in n t pc' (in_program n (pc + 1)) e small
either n t pc pc' (inr e) small =
    behind_in n t pc' (in_program n (pc + 1)) (alone n (pc + 1) pc' e small)

-- The successors that the analysis sends its facts to are all that a thread may come to.
pub successors-Leads :
    (instr : RuntimeInstr) (pc pc' n : ℕ)
    → Leads instr pc pc'
    → pc' < n
    → contains pc' (successors instr pc n) ≡ true
successors-Leads (jump target) pc pc' n h small = alone n target pc' h small
successors-Leads (jump_if_zero _ target) pc pc' n h small = either n target pc pc' h small
successors-Leads (jump_if_cmp_false _ _ _ target) pc pc' n h small = either n target pc pc' h small
successors-Leads (call target) pc pc' n h small = either n target pc pc' h small
successors-Leads return pc pc' n h small = absurd h
successors-Leads (exit _) pc pc' n h small = absurd h
successors-Leads _ pc pc' n h small = alone n (pc + 1) pc' h small
