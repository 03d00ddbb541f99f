-- ===== src/Frontend/TransferSound.antt =====
-- src/frontend/optimizer.rs: the facts after an instruction are right about the frame after it.
use mathlib.Core.Option
use mathlib.Core.Path.{subst}
use native.Mathlib.Nat.{mod-le, mod-lt, one-le-pow}
use aziky.Prelude.{
  some_is, ℕ, ◌-◌, ◌^◌, ◌≤◌, min, max, ◌≡◌, refl, sym, arith, bit_and, Bool, true, false, Option,
  none, some, List, [], ◌∷◌, leb, bind-some, ◌>>=◌, inl, inr, Bool-cases,
}
use aziky.Prelude.Bits.{and_mask}
use aziky.Ir.{
  IsWord, RuntimeOperand, slot, imm, RuntimeBinOp, RuntimeCmpOp, RuntimeInstr, load_seed, mov,
  bin_op, bin_op_in_place, float_bin_op, cmp, normalize_int, compare_swap, radix_sort_fixed_int,
  call, load_index, load_index_unchecked, store_index, store_index_unchecked, heap_load_int, alloc,
  file_open, file_write, file_read, thread_spawn, thread_join, channel_create, channel_recv,
}
use aziky.Lir.Slots.{write_slots}
use aziky.Superopt.Evaluate.{
  as_word, Environment, operand_value, evaluate_binop, evaluate_cmp, evaluate_pure_instruction,
}
use aziky.Superopt.Soundness.{InstrFits}
use aziky.Superopt.Verify.{insert}
use aziky.Superopt.Execute.{Frame, operand-value}
use aziky.Frontend.Eval.{eval_runtime_cmp, normalize_const_int}
use aziky.Frontend.EvalSound.{eval_runtime_binop-returns, eval_runtime_cmp_lem}
use aziky.Frontend.Fold.{eval_known}
use aziky.Frontend.Known.{Known}
use aziky.Frontend.SlotFacts.{
  SlotFacts, facts_for_operand, zip_with, binop_facts, merged_exact, or_else,
}
use aziky.Frontend.FactsSound.{upper_bound_for_binop_facts_lem}
use aziky.Frontend.Masks.{Bounded, Describes, ShiftsFit}
use aziky.Frontend.Transfer.{
  set_slot, forget_slots, compared_facts, normalized_facts, swapped_facts,
  runtime_transfer_slot_facts,
}
use aziky.Frontend.Effects.{
  DescribesFrame, contains, Effect, InstrShiftsFit, unknown_facts-Describes, insert-Describes,
  forgotten-Describes, replicate-Describes,
}

operand-Describes :
    (facts : List SlotFacts) (environment : Environment) (o : RuntimeOperand) (a : ℕ)
    → DescribesFrame facts environment
    → operand_value environment o ≡ some a
    → Describes (facts_for_operand facts o) a
unfolding facts_for_operand
operand-Describes facts environment (imm v) a h e = ((λ u g. ground arith), (λ w g. cc))
operand-Describes facts environment (slot s) a h e = h s a e

eval_known-exact :
    (op : RuntimeBinOp) (known_l known_r exact : Option ℕ) (a b r : ℕ)
    → Known known_l a
    → Known known_r b
    → evaluate_binop op a b ≡ some r
    → eval_known op known_l known_r ≡ some exact
    → Known exact r
eval_known-exact op (some l) (some m) exact a b r k k' e g w x =
    cc (eval_runtime_binop-returns op l m exact g, k l refl, k' m refl)
eval_known-exact op (some l) none exact a b r k k' e g w x = cc
eval_known-exact op none _ exact a b r k k' e g w x = cc

or_else-Bounded :
    (exact bound : Option ℕ) (r : ℕ)
    → Known exact r
    → Bounded bound r
    → Bounded (or_else exact bound) r
or_else-Bounded none bound r k h = h
or_else-Bounded (some e) bound r k h = λ u g. ground (arith, k e refl)

binop_facts-Describes :
    (op : RuntimeBinOp) (lhs rhs facts : SlotFacts) (a b r : ℕ)
    → IsWord a
    → IsWord b
    → Describes lhs a
    → Describes rhs b
    → ShiftsFit op lhs rhs
    → evaluate_binop op a b ≡ some r
    → binop_facts op lhs rhs ≡ some facts
    → Describes facts r
unfolding binop_facts
binop_facts-Describes op lhs rhs facts a b r p q h h' fit e g =
    let (exact, known, made) = bind-some (eval_known op lhs.exact rhs.exact) _ _ g in
    let k = eval_known-exact op lhs.exact rhs.exact exact a b r h.1 h'.1 e known in
    let bounded = upper_bound_for_binop_facts_lem op lhs rhs a b r p q h h' fit e in
    subst (λ f. Describes f r) (some_is made) (or_else-Bounded exact _ r k bounded, k)

compared_facts-Describes :
    (op : RuntimeCmpOp) (lhs rhs : SlotFacts) (a b : ℕ)
    → Describes lhs a
    → Describes rhs b
    → Describes (compared_facts op lhs rhs) (as_word (evaluate_cmp op a b))
compared_facts-Describes op lhs rhs a b h h' =
    (λ u g. bounded (evaluate_cmp op a b) u g, exact lhs.exact rhs.exact h.1 h'.1)
  where
    bounded : (c : Bool) (u : ℕ) → some 1 ≡ some u → as_word c ≤ u
    bounded true u g = ground arith
    bounded false u g = ground arith

    exact :
        (known_l known_r : Option ℕ)
        → Known known_l a
        → Known known_r b
        → Known
            (zip_with (λ l r. some (eval_runtime_cmp op l r)) known_l known_r)
            (as_word (evaluate_cmp op a b))
    exact (some l) (some r) k k' w g = cc (eval_runtime_cmp_lem op l r, k l refl, k' r refl)
    exact (some l) none k k' w g = cc
    exact none _ k k' w g = cc

normalized_facts-Describes :
    (signed : Bool) (bits : ℕ) (prior : SlotFacts) (v w : ℕ)
    → Describes prior v
    → normalize_const_int v signed bits ≡ some w
    → Describes (normalized_facts signed bits prior) w
unfolding normalize_const_int
normalized_facts-Describes true bits prior v w h e = unknown_facts-Describes w
normalized_facts-Describes false bits prior v w h e = elim (Bool-cases (leb 64 bits)) [
  | inl wide ↦ rw wide (subst (Describes prior) (some_is (rw wide at e)) h)
  | inr narrow ↦
      let value = some_is (rw narrow at e) in
      rw narrow (bounded prior.upper h.0 value, exact prior.exact h.1 value)
]
  where
    bounded :
        (upper : Option ℕ)
        → Bounded upper v
        → bit_and v (2 ^ bits - 1) ≡ w
        → Bounded (or_else (Option.map (λ u. min u (2 ^ bits - 1)) upper) (some (2 ^ bits - 1))) w
    bounded none k value u g =
        ground (arith, and_mask bits v, mod-lt v {m = 2 ^ bits}, one-le-pow bits 2)
    bounded (some x) k value u g = ground (
      arith,
      and_mask bits v,
      mod-lt v {m = 2 ^ bits},
      one-le-pow bits 2,
      mod-le v (2 ^ bits),
      k x refl,
    )

    exact :
        (known : Option ℕ)
        → Known known v
        → bit_and v (2 ^ bits - 1) ≡ w
        → Known (Option.map (λ x. bit_and x (2 ^ bits - 1)) known) w
    exact none k value x g = cc
    exact (some y) k value x g = cc (k y refl)

swapped_facts-Describes :
    (left right : SlotFacts) (a b : ℕ)
    → Describes left a
    → Describes right b
    → Describes (swapped_facts left right) a × Describes (swapped_facts left right) b
swapped_facts-Describes left right a b h h' =
    let (p, q) = bounded left.upper right.upper h.0 h'.0 in
    let (k, l) = exact left.exact right.exact h.1 h'.1 in ((p, k), (q, l))
  where
    bounded :
        (u u' : Option ℕ)
        → Bounded u a
        → Bounded u' b
        → Bounded (zip_with (λ x y. some (max x y)) u u') a
          × Bounded (zip_with (λ x y. some (max x y)) u u') b
    bounded (some x) (some y) k k' =
        (λ w g. ground (arith, k x refl), λ w g. ground (arith, k' y refl))
    bounded (some x) none k k' = (λ w g. absurd (cc), λ w g. absurd (cc))
    bounded none _ k k' = (λ w g. absurd (cc), λ w g. absurd (cc))

    exact :
        (e e' : Option ℕ)
        → Known e a
        → Known e' b
        → Known (merged_exact e e') a × Known (merged_exact e e') b
    exact (some x) (some y) k k' =
        (λ w g. ground (arith, k x refl), λ w g. ground (arith, k' y refl))
    exact (some x) none k k' = (λ w g. cc, λ w g. cc)
    exact none _ k k' = (λ w g. cc, λ w g. cc)

module _ (facts : List SlotFacts) (slot_count : ℕ) (before : Environment) (frame : Frame before)
    (describes : DescribesFrame facts before) where
  -- The facts after the write of a value that they describe.
  written-Describes :
      (out : List SlotFacts) (dst v : ℕ) (r : ℕ × ℕ) (f : SlotFacts) (after : Environment)
      → some (dst, v) ≡ some r
      → after ≡ insert r.0 r.1 before
      → some (set_slot facts dst f) ≡ some out
      → Describes f v
      → DescribesFrame out after
  written-Describes out dst v r f after e moved made h =
      subst (λ o. DescribesFrame o after) (some_is made)
        (subst (DescribesFrame (set_slot facts dst f)) (sym moved) (
          subst (λ (p : ℕ × ℕ). DescribesFrame (set_slot facts dst f) (insert p.0 p.1 before))
            (some_is e) (insert-Describes facts before dst v f describes h)))

  operation-Describes :
      (op : RuntimeBinOp) (lhs rhs : SlotFacts) (a b : ℕ) (out : List SlotFacts) (dst : ℕ)
      (r : ℕ × ℕ) (after : Environment)
      → IsWord a
      → IsWord b
      → Describes lhs a
      → Describes rhs b
      → ShiftsFit op lhs rhs
      → (evaluate_binop op a b >>= (λ v. some (dst, v))) ≡ some r
      → after ≡ insert r.0 r.1 before
      → (binop_facts op lhs rhs >>= (λ f. some (set_slot facts dst f))) ≡ some out
      → DescribesFrame out after
  operation-Describes op lhs rhs a b out dst r after p q h h' fit e moved made =
      let (v, value, written) = bind-some (evaluate_binop op a b) _ _ e in
      let (f, known, stored) = bind-some (binop_facts op lhs rhs) _ _ made in
      written-Describes out dst v r f after written moved stored
        (binop_facts-Describes op lhs rhs f a b v p q h h' fit value known)

  others-Describes :
      (out : List SlotFacts) (slots : List ℕ) (after : Environment)
      → some (forget_slots facts slots) ≡ some out
      → ((s : ℕ) → contains s slots ≡ false → after s ≡ before s)
      → DescribesFrame out after
  others-Describes out slots after made k =
      subst (λ o. DescribesFrame o after) (some_is made)
        (forgotten-Describes facts slots before after describes k)

  -- Where the facts are right about a frame of words, the instruction is of words and its shifts fit,
  -- the facts after the instruction are right about the frame after it.
  pub runtime_transfer_slot_facts_lem :
      (instr : RuntimeInstr) (out : List SlotFacts) (after : Environment)
      → InstrFits instr
      → InstrShiftsFit instr facts
      → Effect instr before after
      → runtime_transfer_slot_facts instr facts slot_count ≡ some out
      → DescribesFrame out after
  unfolding runtime_transfer_slot_facts evaluate_pure_instruction write_slots
  runtime_transfer_slot_facts_lem (mov dst src) out after fits shifts (r, e, moved) made =
      let (a, p, wa) = operand-value before frame src fits in
      written-Describes out dst a r _ after (rw p at e) moved made
        (operand-Describes facts before src a describes p)
  runtime_transfer_slot_facts_lem (bin_op dst op lhs rhs) out after (fl, fr) shifts (r, e, moved)
        made =
      let (a, p, wa) = operand-value before frame lhs fl in
      let (b, q, wb) = operand-value before frame rhs fr in
      operation-Describes op _ _ a b out dst r after wa wb
        (operand-Describes facts before lhs a describes p)
        (operand-Describes facts before rhs b describes q) shifts (rw (p, q) at e) moved made
  runtime_transfer_slot_facts_lem (bin_op_in_place dst op rhs) out after fits shifts (r, e, moved)
        made =
      let (a, p, wa) = frame dst in
      let (b, q, wb) = operand-value before frame rhs fits in
      operation-Describes op _ _ a b out dst r after wa wb (describes dst a p)
        (operand-Describes facts before rhs b describes q) shifts (rw (p, q) at e) moved made
  runtime_transfer_slot_facts_lem (cmp dst op lhs rhs) out after (fl, fr) shifts (r, e, moved)
        made =
      let (a, p, wa) = operand-value before frame lhs fl in
      let (b, q, wb) = operand-value before frame rhs fr in
      written-Describes out dst _ r _ after (rw (p, q) at e) moved made (
        compared_facts-Describes op _ _ a b (operand-Describes facts before lhs a describes p)
          (operand-Describes facts before rhs b describes q))
  runtime_transfer_slot_facts_lem (normalize_int dst signed bits) out after fits shifts
        (v, w, held, value, moved) made =
      written-Describes out dst w (dst, w) _ after refl moved made
        (normalized_facts-Describes signed bits _ v w (describes dst v held) value)
  runtime_transfer_slot_facts_lem (compare_swap left right _) out after fits shifts
        (a, b, p, q, moved) made =
      let (h, k) = swapped_facts-Describes _ _ a b (describes left a p) (describes right b q) in
      let first = insert-Describes facts before left a _ describes h in
      let first' = insert-Describes facts before left b _ describes k in
      subst (λ o. DescribesFrame o after) (some_is made)
        (elim moved [
          | inl same ↦ subst (DescribesFrame _) (sym same) (insert-Describes _ _ right b _ first k)
          | inr swapped ↦
              subst (DescribesFrame _) (sym swapped) (insert-Describes _ _ right a _ first' h)
        ])
  runtime_transfer_slot_facts_lem (call _) out after fits shifts effect made =
      subst (λ o. DescribesFrame o after) (some_is made)
        (λ s v e. replicate-Describes slot_count s v)
  runtime_transfer_slot_facts_lem (load_seed dst kind input) out after fits shifts effect made =
      others-Describes out (dst ∷ []) after made effect
  runtime_transfer_slot_facts_lem (float_bin_op dst bits op lhs rhs) out after fits shifts effect
        made =
      others-Describes out (dst ∷ []) after made effect
  runtime_transfer_slot_facts_lem (load_index dst slots index) out after fits shifts effect made =
      others-Describes out (dst ∷ []) after made effect
  runtime_transfer_slot_facts_lem (load_index_unchecked dst slots index) out after fits shifts
        effect made =
      others-Describes out (dst ∷ []) after made effect
  runtime_transfer_slot_facts_lem (heap_load_int dst ptr index bytes) out after fits shifts effect
        made =
      others-Describes out (dst ∷ []) after made effect
  runtime_transfer_slot_facts_lem (alloc dst size) out after fits shifts effect made =
      others-Describes out (dst ∷ []) after made effect
  runtime_transfer_slot_facts_lem (file_open dst path flags mode) out after fits shifts effect
        made =
      others-Describes out (dst ∷ []) after made effect
  runtime_transfer_slot_facts_lem (file_write dst fd ptr len) out after fits shifts effect made =
      others-Describes out (dst ∷ []) after made effect
  runtime_transfer_slot_facts_lem (file_read dst fd ptr len) out after fits shifts effect made =
      others-Describes out (dst ∷ []) after made effect
  runtime_transfer_slot_facts_lem (thread_join dst handle) out after fits shifts effect made =
      others-Describes out (dst ∷ []) after made effect
  runtime_transfer_slot_facts_lem (thread_spawn dst target ret) out after fits shifts effect made =
      others-Describes out (dst ∷ []) after made effect
  runtime_transfer_slot_facts_lem (channel_create dst capacity b) out after fits shifts effect
        made =
      others-Describes out (dst ∷ []) after made effect
  runtime_transfer_slot_facts_lem (channel_recv dst handle) out after fits shifts effect made =
      others-Describes out (dst ∷ []) after made effect
  runtime_transfer_slot_facts_lem (radix_sort_fixed_int slots b signed stable) out after fits shifts
        effect made =
      others-Describes out slots after made effect
  runtime_transfer_slot_facts_lem (store_index slots index src) out after fits shifts effect made =
      others-Describes out slots after made effect
  runtime_transfer_slot_facts_lem (store_index_unchecked slots index src) out after fits shifts
        effect made =
      others-Describes out slots after made effect
  runtime_transfer_slot_facts_lem _ out after fits shifts effect made =
      others-Describes out [] after made effect
