-- ===== src/Schedule/Entries.antt =====
-- src/backend/lir.rs: the starts of the blocks have all places that jumps and calls lead to.
use mathlib.Core.Path.{subst}
use aziky.Prelude.{
  ℕ, zero, suc, ◌+◌, ◌<◌, ◌≡◌, refl, sym, arith, Bool, true, ◌&&◌, ◌⊎◌, inl, inr, Option, none,
  some, List, [], ◌∷◌, length, get_elem?, some_is, ltb, lt→ltb, ◌==◌, Bool-cases, if◌then◌else◌,
}
use aziky.Ir.{RuntimeInstr, jump, jump_if_zero, jump_if_cmp_false, call, return, exit}
use aziky.Frontend.Effects.{contains}
use aziky.Schedule.Region.{insert_ready}
use aziky.Schedule.Pass.{block_target, ends_block, insert_target, starts_from, block_starts}

-- Where control may come to from an instruction at an index: the target of a jump or a call, and
-- what follows an instruction that transfers control. The entry of a spawned thread is not among them.
abbrev pub Enters : RuntimeInstr → ℕ → ℕ → Type 0
Enters (jump target) index e = (e ≡ target) ⊎ (e ≡ suc index)
Enters (jump_if_zero _ target) index e = (e ≡ target) ⊎ (e ≡ suc index)
Enters (jump_if_cmp_false _ _ _ target) index e = (e ≡ target) ⊎ (e ≡ suc index)
Enters (call target) index e = (e ≡ target) ⊎ (e ≡ suc index)
Enters return index e = e ≡ suc index
Enters (exit _) index e = e ≡ suc index
Enters _ index e = ⊥

-- The start and the end of a program, and the instructions that control comes to otherwise than from
-- the one in front.
abbrev pub IsEntry : List RuntimeInstr → ℕ → Type 0
IsEntry instrs e =
    (e ≡ 0)
    ⊎ ((e ≡ length instrs)
        ⊎ ((index : ℕ) × (instr : RuntimeInstr) × (get_elem? instrs index ≡ some instr)
            × Enters instr index e
            × (e < length instrs)))

contains-here : (e x : ℕ) (xs : List ℕ) → x ≡ e → contains e (x ∷ xs) ≡ true
unfolding contains
contains-here e x xs same = let here : (x == e) ≡ true = ground arith in rw here refl

contains-later : (e x : ℕ) (xs : List ℕ) → contains e xs ≡ true → contains e (x ∷ xs) ≡ true
unfolding contains
contains-later e x xs h = elim (Bool-cases (x == e)) [
  | inl here ↦ rw here refl
  | inr other ↦ rw (other, h) refl
]

insert_ready-inserts : (e : ℕ) (xs : List ℕ) → contains e (insert_ready e xs) ≡ true
unfolding insert_ready
insert_ready-inserts e [] = contains-here e e [] refl
insert_ready-inserts e (x ∷ xs) = elim (Bool-cases (ltb e x)) [
  | inl below ↦ rw below (contains-here e e (x ∷ xs) refl)
  | inr above ↦ elim (Bool-cases (e == x)) [
    | inl same ↦ rw (above, same) (contains-here e x xs (ground arith))
    | inr other ↦ rw (above, other) (contains-later e x _ (insert_ready-inserts e xs))
  ]
]

contains-cons_insert :
    (e x y : ℕ) (xs : List ℕ)
    → contains e (y ∷ xs) ≡ true
    → (contains e xs ≡ true → contains e (insert_ready x xs) ≡ true)
    → contains e (y ∷ insert_ready x xs) ≡ true
unfolding contains
contains-cons_insert e x y xs h ih = elim (Bool-cases (y == e)) [
  | inl here ↦ rw here refl
  | inr other ↦ rw other (ih (rw other at h))
]

insert_ready-keeps :
    (e x : ℕ) (xs : List ℕ) → contains e xs ≡ true → contains e (insert_ready x xs) ≡ true
unfolding insert_ready
insert_ready-keeps e x [] h = contains-later e x [] h
insert_ready-keeps e x (y ∷ xs) h = elim (Bool-cases (ltb x y)) [
  | inl below ↦ rw below (contains-later e x (y ∷ xs) h)
  | inr above ↦ elim (Bool-cases (x == y)) [
    | inl same ↦ rw (above, same) h
    | inr other ↦ rw (above, other) (contains-cons_insert e x y xs h (insert_ready-keeps e x xs))
  ]
]

insert_target-keeps :
    (o : Option ℕ) (n e : ℕ) (starts : List ℕ)
    → contains e starts ≡ true
    → contains e (insert_target o n starts) ≡ true
insert_target-keeps none n e starts h = h
insert_target-keeps (some target) n e starts h = elim (Bool-cases (ltb target n)) [
  | inl inside ↦ rw inside (insert_ready-keeps e target starts h)
  | inr outside ↦ rw outside h
]

insert_target-inserts :
    (n e target : ℕ) (starts : List ℕ)
    → e ≡ target
    → e < n
    → contains e (insert_target (some target) n starts) ≡ true
insert_target-inserts n e target starts same small =
    let inside : ltb target n ≡ true = lt→ltb target n (omega arith) in
    rw (inside, sym same) (insert_ready-inserts e starts)

-- The starts with what one instruction adds to them.
abbrev visited : RuntimeInstr → ℕ → ℕ → List ℕ → List ℕ
visited instr index n starts =
    let targeted = insert_target (block_target instr) n starts in
    if ends_block instr && ltb (suc index) n then insert_ready (suc index) targeted else targeted

behind_keeps :
    (b : Bool) (index n e : ℕ) (starts : List ℕ)
    → contains e starts ≡ true
    → contains e (if b && ltb (suc index) n then insert_ready (suc index) starts else starts) ≡ true
behind_keeps b index n e starts h = elim (Bool-cases (b && ltb (suc index) n)) [
  | inl more ↦ rw more (insert_ready-keeps e (suc index) starts h)
  | inr fewer ↦ rw fewer h
]

visited-keeps :
    (instr : RuntimeInstr) (index n e : ℕ) (starts : List ℕ)
    → contains e starts ≡ true
    → contains e (visited instr index n starts) ≡ true
visited-keeps instr index n e starts h =
    behind_keeps (ends_block instr) index n e _
      (insert_target-keeps (block_target instr) n e starts h)

behind_inserts :
    (index n e : ℕ) (starts : List ℕ)
    → e ≡ suc index
    → e < n
    → contains e (if true && ltb (suc index) n then insert_ready (suc index) starts else starts)
      ≡ true
behind_inserts index n e starts same small =
    let inside : ltb (suc index) n ≡ true = lt→ltb (suc index) n (omega arith) in
    rw (inside, sym same) (insert_ready-inserts e starts)

target_or_behind :
    (target index n e : ℕ) (starts : List ℕ)
    → (e ≡ target) ⊎ (e ≡ suc index)
    → e < n
    → contains e (
        if true && ltb (suc index) n
        then insert_ready (suc index) (insert_target (some target) n starts)
        else insert_target (some target) n starts)
      ≡ true
target_or_behind target index n e starts (inl same) small =
    behind_keeps true index n e _ (insert_target-inserts n e target starts same small)
target_or_behind target index n e starts (inr same) small = behind_inserts index n e _ same small

visited-Enters :
    (instr : RuntimeInstr) (index n e : ℕ) (starts : List ℕ)
    → Enters instr index e
    → e < n
    → contains e (visited instr index n starts) ≡ true
visited-Enters (jump target) index n e starts h small =
    target_or_behind target index n e starts h small
visited-Enters (jump_if_zero _ target) index n e starts h small =
    target_or_behind target index n e starts h small
visited-Enters (jump_if_cmp_false _ _ _ target) index n e starts h small =
    target_or_behind target index n e starts h small
visited-Enters (call target) index n e starts h small =
    target_or_behind target index n e starts h small
visited-Enters return index n e starts h small = behind_inserts index n e starts h small
visited-Enters (exit _) index n e starts h small = behind_inserts index n e starts h small
visited-Enters _ index n e starts h small = absurd h

starts_from-keeps :
    (index : ℕ) (instrs : List RuntimeInstr) (n e : ℕ) (starts : List ℕ)
    → contains e starts ≡ true
    → contains e (starts_from index instrs n starts) ≡ true
unfolding starts_from
starts_from-keeps index [] n e starts h = h
starts_from-keeps index (instr ∷ rest) n e starts h =
    starts_from-keeps (suc index) rest n e _ (visited-keeps instr index n e starts h)

starts_from-Enters :
    (index : ℕ) (instrs : List RuntimeInstr) (n e i : ℕ) (starts : List ℕ) (instr : RuntimeInstr)
    → get_elem? instrs i ≡ some instr
    → Enters instr (index + i) e
    → e < n
    → contains e (starts_from index instrs n starts) ≡ true
unfolding starts_from
starts_from-Enters index [] n e i starts instr found h small = cc
starts_from-Enters index (first ∷ rest) n e zero starts instr found h small =
    let same : index + zero ≡ index = omega arith in
    let here = subst (λ j. Enters instr j e) same h in
    starts_from-keeps (suc index) rest n e _ (
      visited-Enters first index n e starts
        (subst (λ i. Enters i index e) (sym (some_is found)) here) small)
starts_from-Enters index (first ∷ rest) n e (suc i) starts instr found h small =
    let same : index + suc i ≡ suc index + i = omega arith in
    starts_from-Enters (suc index) rest n e i _ instr found (subst (λ j. Enters instr j e) same h)
      small

-- Every entry behind the start and in front of the end is one of the starts.
pub block_starts-IsEntry :
    (instrs : List RuntimeInstr) (e : ℕ)
    → IsEntry instrs e
    → (e ≡ 0) ⊎ ((e ≡ length instrs) ⊎ (contains e (block_starts instrs) ≡ true))
unfolding block_starts
block_starts-IsEntry instrs e (inl first) = inl first
block_starts-IsEntry instrs e (inr (inl last)) = inr (inl last)
block_starts-IsEntry instrs e (inr (inr (i, instr, found, h, small))) =
    let same : i ≡ 0 + i = omega arith in
    inr (
      inr (
        starts_from-Enters 0 instrs (length instrs) e i (0 ∷ []) instr found
          (subst (λ j. Enters instr j e) same h) small))
