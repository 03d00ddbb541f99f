-- ===== src/Lir/Demanded.antt =====
-- src/backend/lir.rs: the bits that no operation demands do not matter to its result.
use aziky.Prelude.{
  ℕ, ◌+◌, ◌-◌, ◌<◌, ◌≡◌, refl, sym, ap, arith, min, bit_and, bit_or, bit_xor, Bool, true, false,
  some, All, All-split, ltb, ltb→lt, Bool-cases, inl, inr, ◌∙◌, ◌⊎◌,
}
use aziky.Prelude.Digits.{
  digit, digit-le, digit-and, digit-or, digit-xor, digit_above, digit_ones, le_of_digits,
}
use aziky.Ir.{
  IsWord, RuntimeOperand, slot, imm, RuntimeBinOp, add, sub, mul, div_unsigned, div_signed,
  mod_unsigned, mod_signed, op_and, op_or, op_xor, shl, shr_unsigned, shr_signed,
}
use aziky.Word.{shift_left, shift_right}
use aziky.Superopt.Evaluate.{Environment, operand_value, evaluate_binop}
use aziky.Lir.Described.{digit-shift_left_low, digit-shift_left, digit-shift_right, split_at}
use aziky.Lir.Facts.{count_mask, some_injective}
use aziky.Lir.Demand.{
  all_bits, demand_operand, and_mask_for, shifted_mask, demanded_masks, demand_binop_inputs,
}

-- Two values have the same bits under a mask.
abbrev pub Agree : ℕ → ℕ → ℕ → Type 0
Agree mask v w = (i : ℕ) → i < 64 → digit mask i ≡ 1 → digit v i ≡ digit w i

-- What an operand's values in two frames have in common.
abbrev Alike : RuntimeOperand → ℕ → ℕ → ℕ → Type 0
Alike (slot _) mask v w = Agree mask v w
Alike (imm c) mask v w = (v ≡ c) × (w ≡ c)

-- Words that agree on all bits are equal.
words_equal : (v w : ℕ) → IsWord v → IsWord w → Agree all_bits v w → v ≡ w
words_equal v w p q h =
    let below = le_of_digits 64 v w p (λ i b. omega (arith, h i b (digit_ones 64 i b))) in
    let above = le_of_digits 64 w v q (λ i b. omega (arith, h i b (digit_ones 64 i b))) in
    omega arith

Alike-all : (o : RuntimeOperand) (v w : ℕ) → IsWord v → IsWord w → Alike o all_bits v w → v ≡ w
Alike-all (slot s) v w p q h = words_equal v w p q h
Alike-all (imm c) v w p q (e, f) = e ∙ sym f

Alike-Agree : (o : RuntimeOperand) (mask v w : ℕ) → Alike o mask v w → Agree mask v w
Alike-Agree (slot s) mask v w h = h
Alike-Agree (imm c) mask v w (e, f) = λ i b one. ap (λ t. digit t i) (e ∙ sym f)

module _ (output x y x' y' : ℕ) where
  and_matches :
      (lhs rhs : RuntimeOperand)
      → Alike lhs (and_mask_for rhs output) x x'
      → Alike rhs (and_mask_for lhs output) y y'
      → Agree output (bit_and x y) (bit_and x' y')
  and_matches lhs rhs h k i b one =
      rw (digit-and x y i, digit-and x' y' i) (by_operands lhs rhs h k)
    where
      by_operands :
          (lhs rhs : RuntimeOperand)
          → Alike lhs (and_mask_for rhs output) x x'
          → Alike rhs (and_mask_for lhs output) y y'
          → min (digit x i) (digit y i) ≡ min (digit x' i) (digit y' i)
      by_operands (slot s) (slot t) h k = rw (h i b one, k i b one) refl
      by_operands (imm c) (imm d) (e, f) (e', f') = cc
      by_operands (slot s) (imm d) h (e, f) =
          let meets : digit (bit_and output d) i ≡ 1 → digit x i ≡ digit x' i = h i b in
          rw (e, f) (grind (arith, digit-and output d i, digit-le d i))
      by_operands (imm c) (slot t) (e, f) k =
          let meets : digit (bit_and output c) i ≡ 1 → digit y i ≡ digit y' i = k i b in
          rw (e, f) (grind (arith, digit-and output c i, digit-le c i))

  or_matches : Agree output x x' → Agree output y y' → Agree output (bit_or x y) (bit_or x' y')
  or_matches h k i b one = rw (digit-or x y i, digit-or x' y' i) (rw (h i b one, k i b one) refl)

  xor_matches : Agree output x x' → Agree output y y' → Agree output (bit_xor x y) (bit_xor x' y')
  xor_matches h k i b one = rw (digit-xor x y i, digit-xor x' y' i) (rw (h i b one, k i b one) refl)

module _ (output x x' s : ℕ) (p : IsWord x) (p' : IsWord x') (q : s < 64) where
  shl_matches : Agree (shift_right output s) x x' → Agree output (shift_left x s) (shift_left x' s)
  shl_matches h i b one = elim (split_at i s) [
    | inl low ↦ digit-shift_left_low x s i b low ∙ sym (digit-shift_left_low x' s i b low)
    | inr high ↦
        let back : s + (i - s) ≡ i = omega arith in
        let here : digit (shift_right output s) (i - s) ≡ 1 =
          digit-shift_right output s (i - s) ∙ (ap (digit output) back ∙ one) in
        digit-shift_left x s i b high
        ∙ (h (i - s) (omega arith) here ∙ sym (digit-shift_left x' s i b high))
  ]

  shr_matches : Agree (shift_left output s) x x' → Agree output (shift_right x s) (shift_right x' s)
  shr_matches h i b one = elim (split_at (s + i) 64) [
    | inl low ↦
        let back : s + i - s ≡ i = omega arith in
        let here : digit (shift_left output s) (s + i) ≡ 1 =
          digit-shift_left output s (s + i) low (omega arith) ∙ (ap (digit output) back ∙ one) in
        digit-shift_right x s i ∙ (h (s + i) low here ∙ sym (digit-shift_right x' s i))
    | inr high ↦
        digit-shift_right x s i
        ∙ (digit_above 64 x (s + i) p high
            ∙ (sym (digit_above 64 x' (s + i) p' high) ∙ sym (digit-shift_right x' s i)))
  ]

-- A shift by an operand whose values in the two frames agree under the demanded mask.
module _ (shift undo : ℕ → ℕ → ℕ) where
  shift_matches :
      (output x x' y y' : ℕ) (rhs : RuntimeOperand)
      → ((s : ℕ) → s < 64 → Agree (undo output s) x x' → Agree output (shift x s) (shift x' s))
      → IsWord x
      → IsWord x'
      → IsWord y
      → IsWord y'
      → Agree (shifted_mask undo rhs output) x x'
      → Alike rhs all_bits y y'
      → Agree output (shift x (bit_and y 63)) (shift x' (bit_and y' 63))
  shift_matches output x x' y y' (slot s) shifts p p' q q' h k =
      rw (words_equal x x' p p' h, words_equal y y' q q' k) (λ i b one. refl)
  shift_matches output x x' y y' (imm c) shifts p p' q q' h (e, f) =
      rw (e, f) (by_size (Bool-cases (ltb c 64)))
    where
      by_size :
          (ltb c 64 ≡ true) ⊎ (ltb c 64 ≡ false)
          → Agree output (shift x (bit_and c 63)) (shift x' (bit_and c 63))
      by_size (inl small) =
          let below = ltb→lt c 64 small in rw (count_mask c below) (shifts c below (rw small at h))
      by_size (inr large) = rw (words_equal x x' p p' (rw large at h)) (λ i b one. refl)

-- Equal operands give equal results.
settled :
    (op : RuntimeBinOp) (output x y x' y' v v' : ℕ)
    → x ≡ x'
    → y ≡ y'
    → evaluate_binop op x y ≡ some v
    → evaluate_binop op x' y' ≡ some v'
    → Agree output v v'
settled op output x y x' y' v v' s t e f =
    let chain : some v ≡ some v' = cc in
    let same : v ≡ v' = some_injective chain in rw same (λ i b one. refl)

-- The operations whose result bits are settled by the demanded bits of the operands.
abbrev pub is_local : RuntimeBinOp → Bool
is_local add = false
is_local sub = false
is_local mul = false
is_local shr_signed = false
is_local _ = true

-- The two frames agree on what a demand asks for.
abbrev pub Meets : Environment → Environment → ℕ × ℕ → Type 0
Meets first second (s, mask) = (v w : ℕ) → first s ≡ some v → second s ≡ some w → Agree mask v w

module _ (first second : Environment) where
  operand_matches :
      (o : RuntimeOperand) (mask v w : ℕ)
      → operand_value first o ≡ some v
      → operand_value second o ≡ some w
      → All (Meets first second) (demand_operand o mask)
      → Alike o mask v w
  operand_matches (slot s) mask v w e f (h, _) = h v w e f
  operand_matches (imm c) mask v w e f h = (ground (arith, e), ground (arith, f))

  masks_settle :
      (op : RuntimeBinOp) (lhs rhs : RuntimeOperand) (output x y x' y' r r' : ℕ)
      → is_local op ≡ true
      → IsWord x
      → IsWord y
      → IsWord x'
      → IsWord y'
      → Alike lhs (demanded_masks op lhs rhs output).0 x x'
      → Alike rhs (demanded_masks op lhs rhs output).1 y y'
      → evaluate_binop op x y ≡ some r
      → evaluate_binop op x' y' ≡ some r'
      → Agree output r r'
  unfolding demanded_masks evaluate_binop
  masks_settle op_and l r output x y x' y' v v' local p q p' q' h k e f =
      rw (← some_injective e, ← some_injective f) (and_matches output x y x' y' l r h k)
  masks_settle op_or l r output x y x' y' v v' local p q p' q' h k e f =
      rw (← some_injective e, ← some_injective f)
        (or_matches output x y x' y' (Alike-Agree l output x x' h) (Alike-Agree r output y y' k))
  masks_settle op_xor l r output x y x' y' v v' local p q p' q' h k e f =
      rw (← some_injective e, ← some_injective f)
        (xor_matches output x y x' y' (Alike-Agree l output x x' h) (Alike-Agree r output y y' k))
  masks_settle shl l r output x y x' y' v v' local p q p' q' h k e f =
      rw (← some_injective e, ← some_injective f)
        (shift_matches shift_left shift_right output x x' y y' r
          (λ s b. shl_matches output x x' s p p' b) p p' q q' (Alike-Agree l _ x x' h) k)
  masks_settle shr_unsigned l r output x y x' y' v v' local p q p' q' h k e f =
      rw (← some_injective e, ← some_injective f)
        (shift_matches shift_right shift_left output x x' y y' r
          (λ s b. shr_matches output x x' s p p' b) p p' q q' (Alike-Agree l _ x x' h) k)
  masks_settle div_unsigned l r output x y x' y' v v' local p q p' q' h k e f =
      settled div_unsigned output x y x' y' v v' (Alike-all l x x' p p' h) (Alike-all r y y' q q' k)
        e f
  masks_settle div_signed l r output x y x' y' v v' local p q p' q' h k e f =
      settled div_signed output x y x' y' v v' (Alike-all l x x' p p' h) (Alike-all r y y' q q' k) e
        f
  masks_settle mod_unsigned l r output x y x' y' v v' local p q p' q' h k e f =
      settled mod_unsigned output x y x' y' v v' (Alike-all l x x' p p' h) (Alike-all r y y' q q' k)
        e f
  masks_settle mod_signed l r output x y x' y' v v' local p q p' q' h k e f =
      settled mod_signed output x y x' y' v v' (Alike-all l x x' p p' h) (Alike-all r y y' q q' k) e
        f
  masks_settle add l r output x y x' y' v v' local p q p' q' h k e f = cc
  masks_settle sub l r output x y x' y' v v' local p q p' q' h k e f = cc
  masks_settle mul l r output x y x' y' v v' local p q p' q' h k e f = cc
  masks_settle shr_signed l r output x y x' y' v v' local p q p' q' h k e f = cc

  -- Take two frames that agree, slot by slot, on the bits that demand_binop_inputs asks for, and an
  -- operation other than add, sub, mul and shr_signed on operands that hold words in both. If it
  -- has results in both, then these agree on the bits of output.
  pub demand_binop_inputs_sound :
      (op : RuntimeBinOp) (lhs rhs : RuntimeOperand) (output x y x' y' r r' : ℕ)
      → is_local op ≡ true
      → operand_value first lhs ≡ some x
      → operand_value first rhs ≡ some y
      → operand_value second lhs ≡ some x'
      → operand_value second rhs ≡ some y'
      → IsWord x
      → IsWord y
      → IsWord x'
      → IsWord y'
      → All (Meets first second) (demand_binop_inputs op lhs rhs output)
      → evaluate_binop op x y ≡ some r
      → evaluate_binop op x' y' ≡ some r'
      → Agree output r r'
  unfolding demand_binop_inputs
  demand_binop_inputs_sound op l r output x y x' y' v v' local a b c d p q p' q' met e f =
      let (left, right) = All-split (Meets first second) (demand_operand l _) _ met in
      masks_settle op l r output x y x' y' v v' local p q p' q' (operand_matches l _ x x' a c left)
        (operand_matches r _ y y' b d right) e f
