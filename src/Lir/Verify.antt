-- ===== src/Lir/Verify.antt =====
-- src/backend/lir.rs: the check that a program's slots and targets are in range.
use aziky.Prelude.{
  ℕ, ◌+◌, ◌<◌, ◌≤◌, ◌≡◌, refl, arith, Option, none, some, List, [], ◌∷◌, ◌++◌, length, All,
  All-append, All-split, leb, ltb, if◌then◌else◌, Bool-cases, inl, inr, ◌↔◌,
}
use aziky.Ir.{RuntimeInstr, RuntimeProgram, jump, jump_if_zero, jump_if_cmp_false, call}
use aziky.Lir.Slots.{read_slots, write_slots}
use aziky.Lir.Limits.{ReadsIn, WritesIn, TargetIn, read_slots-ReadsIn, write_slots-WritesIn}

-- The two messages, by what they report: the instruction and the slot or the target.
pub data VerifyError : Type 0 where
  bad_slot bad_target : ℕ → ℕ → VerifyError

abbrev pub jump_target : RuntimeInstr → Option ℕ
jump_target (jump target) = some target
jump_target (jump_if_zero _ target) = some target
jump_target (jump_if_cmp_false _ _ _ target) = some target
jump_target (call target) = some target
jump_target _ = none

abbrev verify_slots : ℕ → ℕ → List ℕ → Option VerifyError
verify_slots slots index [] = none
verify_slots slots index (slot ∷ rest) =
    let later = verify_slots slots index rest in
    if leb slots slot then some (bad_slot index slot) else later

abbrev verify_target : ℕ → ℕ → Option ℕ → Option VerifyError
verify_target count index none = none
verify_target count index (some target) =
    if ltb count target then some (bad_target index target) else none

-- The first error, where there is one.
abbrev or_then : Option VerifyError → Option VerifyError → Option VerifyError
or_then (some e) next = some e
or_then none next = next

unfoldable pub verify_instrs : ℕ → ℕ → ℕ → List RuntimeInstr → Option VerifyError
verify_instrs slots count index [] = none
verify_instrs slots count index (instr ∷ rest) =
    or_then (verify_slots slots index (read_slots instr ++ write_slots instr)) (
      or_then (verify_target count index (jump_target instr))
        (verify_instrs slots count (index + 1) rest))

-- `none` is `Ok(())`.
unfoldable pub verify_runtime_program : RuntimeProgram → Option VerifyError
verify_runtime_program program =
    verify_instrs program.slots (length program.instrs) 0 program.instrs

-- Every slot of an instruction is below the slot count, and the target of a jump or a call is an
-- instruction or the end.
abbrev pub InRange : ℕ → ℕ → RuntimeInstr → Type 0
InRange slots count instr = ReadsIn slots instr × WritesIn slots instr × TargetIn count instr

verify_slots_lem :
    (slots index : ℕ) (used : List ℕ)
    → (verify_slots slots index used ≡ none) ↔ All (λ s. s < slots) used
verify_slots_lem slots index [] = (λ h. tt, λ h. refl)
verify_slots_lem slots index (s ∷ rest) =
    let ih = verify_slots_lem slots index rest in
    elim (Bool-cases (leb slots s)) [
      | inl bad ↦ (λ h. cc (rw bad at h), λ (p, _). absurd (ground arith))
      | inr fine ↦ (λ h. (ground arith, ih.0 (rw fine at h)), λ (_, ps). rw fine (ih.1 ps))
    ]

verify_target_limit :
    (count index target : ℕ) → (verify_target count index (some target) ≡ none) ↔ (target ≤ count)
verify_target_limit count index t = elim (Bool-cases (ltb count t)) [
  | inl bad ↦ (λ h. cc (rw bad at h), λ h. absurd (ground arith))
  | inr fine ↦ (λ h. ground arith, λ h. rw fine refl)
]

verify_target_lem :
    (count index : ℕ) (instr : RuntimeInstr)
    → (verify_target count index (jump_target instr) ≡ none) ↔ TargetIn count instr
verify_target_lem count index (jump target) = verify_target_limit count index target
verify_target_lem count index (jump_if_zero _ target) = verify_target_limit count index target
verify_target_lem count index (jump_if_cmp_false _ _ _ target) =
    verify_target_limit count index target
verify_target_lem count index (call target) = verify_target_limit count index target
verify_target_lem count index _ = (λ h. tt, λ h. refl)

or_then-none : (a b : Option VerifyError) → (or_then a b ≡ none) ↔ ((a ≡ none) × (b ≡ none))
or_then-none none b = (λ h. (refl, h), λ (_, h). h)
or_then-none (some e) b = (λ h. cc, λ (h, _). cc)

verify_instrs_lem :
    (slots count index : ℕ) (instrs : List RuntimeInstr)
    → (verify_instrs slots count index instrs ≡ none) ↔ All (InRange slots count) instrs
unfolding verify_instrs
verify_instrs_lem slots count index [] = (λ h. tt, λ h. refl)
verify_instrs_lem slots count index (instr ∷ rest) =
    let reads = read_slots instr in
    let writes = write_slots instr in
    let used = verify_slots_lem slots index (reads ++ writes) in
    let target = verify_target_lem count index instr in
    let later = verify_instrs_lem slots count (index + 1) rest in
    let outer = or_then-none (verify_slots slots index (reads ++ writes)) _ in
    let inner = or_then-none (verify_target count index (jump_target instr)) _ in
    let read = read_slots-ReadsIn slots instr in
    let written = write_slots-WritesIn slots instr in
    (
      λ h.
          let (a, b) = outer.0 h in
          let (c, d) = inner.0 b in
          let (r, w) = All-split (λ s. s < slots) reads writes (used.0 a) in
          ((read.0 r, written.0 w, target.0 c), later.0 d),
      λ ((r, w, c), d). outer.1 (
        used.1 (All-append (λ s. s < slots) reads writes (read.1 r) (written.1 w)),
        inner.1 (target.1 c, later.1 d),
      ),
    )

-- The check accepts a program exactly if every slot that an instruction reads or writes is below the
-- slot count, the input of load_seed aside, and every target of a jump, a conditional jump or a call
-- is at most the number of instructions.
pub verify_runtime_program_lem :
    (program : RuntimeProgram)
    → (verify_runtime_program program ≡ none)
      ↔ All (InRange program.slots (length program.instrs)) program.instrs
unfolding verify_runtime_program
verify_runtime_program_lem program =
    verify_instrs_lem program.slots (length program.instrs) 0 program.instrs
