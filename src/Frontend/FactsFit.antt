-- ===== src/Frontend/FactsFit.antt =====
-- src/frontend/optimizer.rs: the facts of the analysis are words, and an instruction leaves facts
-- unless it is a signed remainder.
use mathlib.Core.Option
use native.Mathlib.Nat.{pow-le-pow_right, one-le-pow, mod-lt}
use aziky.Prelude.{
  ℕ, zero, suc, ◌-◌, ◌^◌, ◌≤◌, inl, inr, Bool-cases, min, bit_and, ◌≡◌, ◌≢◌, refl, sym, arith, Bool,
  true, false, Option, none, some, List, [], ◌∷◌, All, set, replicate, Option-cases, ◌∙◌, Returns,
  Returns-bind, leb, if◌then◌else◌,
}
use aziky.Prelude.Bits.{and_mask}
use aziky.Ir.{
  IsWord, RuntimeOperand, slot, imm, RuntimeBinOp, mod_signed, RuntimeCmpOp, RuntimeInstr,
  load_seed, mov, bin_op, bin_op_in_place, float_bin_op, cmp, normalize_int, compare_swap,
  radix_sort_fixed_int, call, load_index, load_index_unchecked, store_index, store_index_unchecked,
  heap_load_int, alloc, file_open, file_write, file_read, thread_spawn, thread_join, channel_create,
  channel_recv,
}
use aziky.Superopt.Soundness.{OperandFits, InstrFits}
use aziky.Superopt.Execute.{evaluate_binop-IsWord}
use aziky.Frontend.Eval.{eval_runtime_binop, eval_runtime_cmp, compare_words}
use aziky.Frontend.EvalSound.{eval_runtime_binop-returns, eval_runtime_binop-panics}
use aziky.Frontend.Fold.{eval_known}
use aziky.Frontend.SlotFacts.{
  SlotFacts, unknown_facts, facts_at, facts_for_operand, or_else, binop_facts, merged_exact,
}
use aziky.Frontend.Transfer.{
  forget_slots, compared_facts, normalized_facts, swapped_facts, runtime_transfer_slot_facts,
}
use aziky.Frontend.FactWords.{
  KnownFits, FactsFit, none-KnownFits, some-KnownFits, zip_fits, bound_fits,
}

-- What the compiler evaluates of words is a word; it returns unless it is a signed remainder.
known_fits :
    (op : RuntimeBinOp) (known_l known_r : Option ℕ)
    → op ≢ mod_signed
    → KnownFits known_l
    → KnownFits known_r
    → Returns (eval_known op known_l known_r) KnownFits
known_fits op (some a) (some b) other k k' = elim (Option-cases (eval_runtime_binop op a b)) [
  | inl panics ↦ absurd (other ((eval_runtime_binop-panics op a b).0 panics).0)
  | inr (result, returns) ↦ rw returns (λ u e.
      evaluate_binop-IsWord op a b u (k a refl) (k' b refl)
        (sym (eval_runtime_binop-returns op a b result returns) ∙ e))
]
known_fits op (some a) none other k k' = none-KnownFits
known_fits op none _ other k k' = none-KnownFits

or_else-fits : (o o' : Option ℕ) → KnownFits o → KnownFits o' → KnownFits (or_else o o')
or_else-fits none o' k k' = k'
or_else-fits (some v) o' k k' = k

binop_facts-fits :
    (op : RuntimeBinOp) (lhs rhs : SlotFacts)
    → op ≢ mod_signed
    → FactsFit lhs
    → FactsFit rhs
    → Returns (binop_facts op lhs rhs) FactsFit
unfolding binop_facts
binop_facts-fits op lhs rhs other f g =
    Returns-bind (eval_known op lhs.exact rhs.exact) _ _ _
      (known_fits op lhs.exact rhs.exact other f.1 g.1)
      (λ exact k. (or_else-fits exact _ k (bound_fits op lhs rhs f g), k))

unknown_facts-FactsFit : FactsFit unknown_facts
unknown_facts-FactsFit = (none-KnownFits, none-KnownFits)

facts_at_fits : (facts : List SlotFacts) (s : ℕ) → All FactsFit facts → FactsFit (facts_at facts s)
facts_at_fits [] s h = unknown_facts-FactsFit
facts_at_fits (f ∷ facts) zero (h, hs) = h
facts_at_fits (f ∷ facts) (suc s) (h, hs) = facts_at_fits facts s hs

operand_fits :
    (facts : List SlotFacts) (o : RuntimeOperand)
    → All FactsFit facts
    → OperandFits o
    → FactsFit (facts_for_operand facts o)
unfolding facts_for_operand
operand_fits facts (imm v) h w = (some-KnownFits v w, some-KnownFits v w)
operand_fits facts (slot s) h w = facts_at_fits facts s h

set_fits :
    (facts : List SlotFacts) (d : ℕ) (f : SlotFacts)
    → All FactsFit facts
    → FactsFit f
    → All FactsFit (set facts d f)
set_fits [] d f h k = tt
set_fits (x ∷ xs) zero f (h, hs) k = (k, hs)
set_fits (x ∷ xs) (suc d) f (h, hs) k = (h, set_fits xs d f hs k)

forget_fits :
    (facts : List SlotFacts) (slots : List ℕ)
    → All FactsFit facts
    → All FactsFit (forget_slots facts slots)
forget_fits facts [] h = h
forget_fits facts (s ∷ slots) h =
    forget_fits (set facts s unknown_facts) slots (set_fits facts s _ h unknown_facts-FactsFit)

pub replicate_fits : (n : ℕ) → All FactsFit (replicate n unknown_facts)
replicate_fits zero = tt
replicate_fits (suc n) = (unknown_facts-FactsFit, replicate_fits n)

compared_fits : (op : RuntimeCmpOp) (lhs rhs : SlotFacts) → FactsFit (compared_facts op lhs rhs)
unfolding eval_runtime_cmp
compared_fits op lhs rhs = (
  some-KnownFits 1 (omega arith),
  zip_fits _ lhs.exact rhs.exact (λ a b h k. some-KnownFits _ (bit (compare_words op a b))),
)
  where
    bit : (c : Bool) → IsWord (if c then 1 else 0)
    bit true = omega arith
    bit false = omega arith

normalized_fits :
    (signed : Bool) (bits : ℕ) (prior : SlotFacts)
    → FactsFit prior
    → FactsFit (normalized_facts signed bits prior)
normalized_fits true bits prior h = unknown_facts-FactsFit
normalized_fits false bits prior h = elim (Bool-cases (leb 64 bits)) [
  | inl wide ↦ rw wide h
  | inr narrow ↦ rw narrow (upper_fits prior.upper narrow, exact_fits prior.exact narrow)
]
  where
    small : leb 64 bits ≡ false → 2 ^ bits ≤ 2 ^ 63
    small narrow =
        let below : bits ≤ 63 = ground arith in pow-le-pow_right {n = 2} (omega arith) below

    upper_fits :
        (upper : Option ℕ)
        → leb 64 bits ≡ false
        → KnownFits (or_else (Option.map (λ u. min u (2 ^ bits - 1)) upper) (some (2 ^ bits - 1)))
    upper_fits none narrow u e = ground (arith, small narrow)
    upper_fits (some x) narrow u e = ground (arith, small narrow)

    exact_fits :
        (exact : Option ℕ)
        → leb 64 bits ≡ false
        → KnownFits (Option.map (λ v. bit_and v (2 ^ bits - 1)) exact)
    exact_fits none narrow = none-KnownFits
    exact_fits (some v) narrow = some-KnownFits _ (
        omega (
          arith,
          and_mask bits v,
          mod-lt v {m = 2 ^ bits} (one-le-pow bits 2 (omega arith)),
          small narrow,
        ))

swapped_fits :
    (left right : SlotFacts) → FactsFit left → FactsFit right → FactsFit (swapped_facts left right)
swapped_fits left right f g = (
  zip_fits _ left.upper right.upper (λ a b h k. some-KnownFits _ (omega (arith, f.0 a h, g.0 b k))),
  merged left.exact right.exact f.1,
)
  where
    merged : (o o' : Option ℕ) → KnownFits o → KnownFits (merged_exact o o')
    merged (some a) (some b) k u e = ground (arith, k a refl)
    merged (some a) none k u e = absurd (cc)
    merged none _ k u e = absurd (cc)

-- No signed remainder, which may panic on constants.
abbrev pub NoSignedRemainder : RuntimeInstr → Type 0
NoSignedRemainder (bin_op _ op _ _) = op ≢ mod_signed
NoSignedRemainder (bin_op_in_place _ op _) = op ≢ mod_signed
NoSignedRemainder _ = Unit

pub transfer_fits :
    (instr : RuntimeInstr) (facts : List SlotFacts) (n : ℕ)
    → InstrFits instr
    → NoSignedRemainder instr
    → All FactsFit facts
    → Returns (runtime_transfer_slot_facts instr facts n) (All FactsFit)
unfolding runtime_transfer_slot_facts
transfer_fits (mov dst src) facts n w other h = set_fits facts dst _ h (operand_fits facts src h w)
transfer_fits (bin_op dst op lhs rhs) facts n (wl, wr) other h =
    Returns-bind (binop_facts op _ _) _ _ _
      (binop_facts-fits op _ _ other (operand_fits facts lhs h wl) (operand_fits facts rhs h wr))
      (λ f k. set_fits facts dst f h k)
transfer_fits (bin_op_in_place dst op rhs) facts n w other h =
    Returns-bind (binop_facts op _ _) _ _ _
      (binop_facts-fits op _ _ other (facts_at_fits facts dst h) (operand_fits facts rhs h w))
      (λ f k. set_fits facts dst f h k)
transfer_fits (cmp dst op lhs rhs) facts n w other h =
    set_fits facts dst _ h
      (compared_fits op (facts_for_operand facts lhs) (facts_for_operand facts rhs))
transfer_fits (normalize_int dst signed bits) facts n w other h =
    set_fits facts dst _ h (normalized_fits signed bits _ (facts_at_fits facts dst h))
transfer_fits (compare_swap left right _) facts n w other h =
    let fit = swapped_fits _ _ (facts_at_fits facts left h) (facts_at_fits facts right h) in
    set_fits _ right _ (set_fits facts left _ h fit) fit
transfer_fits (call _) facts n w other h = replicate_fits n
transfer_fits (load_seed dst kind input) facts n w other h =
    set_fits facts dst _ h unknown_facts-FactsFit
transfer_fits (float_bin_op dst bits op lhs rhs) facts n w other h =
    set_fits facts dst _ h unknown_facts-FactsFit
transfer_fits (load_index dst slots index) facts n w other h =
    set_fits facts dst _ h unknown_facts-FactsFit
transfer_fits (load_index_unchecked dst slots index) facts n w other h =
    set_fits facts dst _ h unknown_facts-FactsFit
transfer_fits (heap_load_int dst ptr index bytes) facts n w other h =
    set_fits facts dst _ h unknown_facts-FactsFit
transfer_fits (alloc dst size) facts n w other h = set_fits facts dst _ h unknown_facts-FactsFit
transfer_fits (file_open dst path flags mode) facts n w other h =
    set_fits facts dst _ h unknown_facts-FactsFit
transfer_fits (file_write dst fd ptr len) facts n w other h =
    set_fits facts dst _ h unknown_facts-FactsFit
transfer_fits (file_read dst fd ptr len) facts n w other h =
    set_fits facts dst _ h unknown_facts-FactsFit
transfer_fits (thread_join dst handle) facts n w other h =
    set_fits facts dst _ h unknown_facts-FactsFit
transfer_fits (thread_spawn dst target ret) facts n w other h =
    set_fits facts dst _ h unknown_facts-FactsFit
transfer_fits (channel_create dst capacity b) facts n w other h =
    set_fits facts dst _ h unknown_facts-FactsFit
transfer_fits (channel_recv dst handle) facts n w other h =
    set_fits facts dst _ h unknown_facts-FactsFit
transfer_fits (radix_sort_fixed_int slots b signed stable) facts n w other h =
    forget_fits facts slots h
transfer_fits (store_index slots index src) facts n w other h = forget_fits facts slots h
transfer_fits (store_index_unchecked slots index src) facts n w other h = forget_fits facts slots h
transfer_fits _ facts n w other h = h
