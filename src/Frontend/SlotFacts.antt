-- ===== src/Frontend/SlotFacts.antt =====
-- src/frontend/optimizer.rs: what the bounds analysis knows of a slot, and how operations move it.
-- An outer `none` is a panic of the compiler, in the evaluation of constants.
use mathlib.Core.Option
use aziky.Prelude.{
  ℕ, ◌-◌, ◌*◌, ◌^◌, min, max, bit_and, bit_or, bit_xor, Bool, true, false, Option, none, some, List,
  ltb, leb, ◌==◌, if◌then◌else◌, get_elem?, ◌>>=◌, not, ◌||◌, [], ◌∷◌,
}
use aziky.Ir.{
  RuntimeOperand, slot, imm, RuntimeBinOp, add, sub, mul, div_unsigned, div_signed, mod_unsigned,
  mod_signed, op_and, op_or, op_xor, shl, shr_unsigned, shr_signed,
}
use aziky.Word.{shift_left, shift_right, bit_length}
use aziky.Frontend.Eval.{max_word}
use aziky.Frontend.Fold.{eval_known}

pub record SlotFacts : Type 0 where
  pub upper : Option ℕ
  pub exact : Option ℕ

abbrev pub unknown_facts : SlotFacts
unknown_facts = record { upper = none; exact = none }

-- `SlotFacts::imm`
abbrev pub facts_of : ℕ → SlotFacts
facts_of value = record { upper = some value; exact = some value }

-- `facts.get(slot).copied().unwrap_or_default()`
abbrev pub facts_at : List SlotFacts → ℕ → SlotFacts
facts_at facts s = elim (get_elem? facts s) [ none ↦ unknown_facts | some known ↦ known ]

unfoldable pub facts_for_operand : List SlotFacts → RuntimeOperand → SlotFacts
facts_for_operand facts (imm value) = facts_of value
facts_for_operand facts (slot s) = facts_at facts s

unfoldable pub bitmask_upper : ℕ → ℕ
bitmask_upper value =
    let bits = bit_length 64 value in
    if value == max_word
    then max_word
    else if value == 0
    then 0
    else if leb 64 bits
    then max_word
    else 2 ^ bits - 1

-- `u64::checked_mul` and `u64::checked_shl`, of which the second checks the count only.
abbrev pub checked_mul : ℕ → ℕ → Option ℕ
checked_mul a b = if ltb (a * b) (2 ^ 64) then some (a * b) else none

abbrev pub checked_shl : ℕ → ℕ → Option ℕ
checked_shl v shift = if ltb shift 64 then some (shift_left v shift) else none

-- `a.zip(b)` followed by a function of the pair.
abbrev pub zip_with : (ℕ → ℕ → Option ℕ) → Option ℕ → Option ℕ → Option ℕ
zip_with f (some a) (some b) = f a b
zip_with f _ _ = none

abbrev pub upper_of_div : Option ℕ → Option ℕ → Option ℕ
upper_of_div upper none = none
upper_of_div upper (some divisor) = if divisor == 0 then none else upper

abbrev pub upper_of_mod : Option ℕ → Option ℕ
upper_of_mod none = none
upper_of_mod (some m) = if m == 0 then none else some (m - 1)

abbrev pub masked_upper : Option ℕ → ℕ → ℕ
masked_upper none mask = mask
masked_upper (some u) mask = min u mask

abbrev pub upper_of_and : SlotFacts → SlotFacts → Option ℕ → Option ℕ → Option ℕ
upper_of_and lhs rhs (some a) (some b) = some (bit_and a b)
upper_of_and lhs rhs none (some mask) = some (masked_upper lhs.upper mask)
upper_of_and lhs rhs (some mask) none = some (masked_upper rhs.upper mask)
upper_of_and lhs rhs none none = none

abbrev pub upper_of_or : SlotFacts → SlotFacts → Option ℕ → Option ℕ → Option ℕ
upper_of_or lhs rhs (some a) (some b) = some (bit_or a b)
upper_of_or lhs rhs (some a) none = Option.map (λ b. bit_or a (bitmask_upper b)) rhs.upper
upper_of_or lhs rhs none (some b) = Option.map (λ a. bit_or (bitmask_upper a) b) lhs.upper
upper_of_or lhs rhs none none =
    zip_with (λ a b. some (bit_or (bitmask_upper a) (bitmask_upper b))) lhs.upper rhs.upper

abbrev pub upper_of_shl : Option ℕ → Option ℕ → Option ℕ
upper_of_shl upper none = none
upper_of_shl upper (some shift) =
    if leb 64 shift then some 0 else (upper >>= (λ v. checked_shl v shift))

abbrev pub unwrap_or_max : Option ℕ → ℕ
unwrap_or_max none = max_word
unwrap_or_max (some v) = v

abbrev pub upper_of_shr : Option ℕ → Option ℕ → Option ℕ
upper_of_shr upper none = none
upper_of_shr upper (some shift) =
    if leb 64 shift then some 0 else some (shift_right (unwrap_or_max upper) shift)

abbrev pub upper_of_sub : Option ℕ → Option ℕ → Option ℕ
upper_of_sub upper none = none
upper_of_sub upper (some subtrahend) = if subtrahend == 0 then upper else none

unfoldable pub upper_bound_for_binop_facts : RuntimeBinOp → SlotFacts → SlotFacts → Option ℕ
upper_bound_for_binop_facts add lhs rhs = none
upper_bound_for_binop_facts sub lhs rhs = upper_of_sub lhs.upper rhs.exact
upper_bound_for_binop_facts mul lhs rhs = zip_with checked_mul lhs.upper rhs.upper
upper_bound_for_binop_facts div_unsigned lhs rhs = upper_of_div lhs.upper rhs.exact
upper_bound_for_binop_facts div_signed lhs rhs = none
upper_bound_for_binop_facts mod_unsigned lhs rhs = upper_of_mod rhs.exact
upper_bound_for_binop_facts mod_signed lhs rhs = none
upper_bound_for_binop_facts op_and lhs rhs = upper_of_and lhs rhs lhs.exact rhs.exact
upper_bound_for_binop_facts op_or lhs rhs = upper_of_or lhs rhs lhs.exact rhs.exact
upper_bound_for_binop_facts op_xor lhs rhs =
    zip_with (λ a b. some (bit_xor a b)) lhs.exact rhs.exact
upper_bound_for_binop_facts shl lhs rhs = upper_of_shl lhs.upper rhs.exact
upper_bound_for_binop_facts shr_unsigned lhs rhs = upper_of_shr lhs.upper rhs.exact
upper_bound_for_binop_facts shr_signed lhs rhs = none

abbrev pub or_else : Option ℕ → Option ℕ → Option ℕ
or_else none other = other
or_else (some v) other = some v

unfoldable pub binop_facts : RuntimeBinOp → SlotFacts → SlotFacts → Option SlotFacts
binop_facts op lhs rhs = do
  exact ← eval_known op lhs.exact rhs.exact
  some (record { upper = or_else exact (upper_bound_for_binop_facts op lhs rhs); exact = exact })

abbrev pub merged_exact : Option ℕ → Option ℕ → Option ℕ
merged_exact (some a) (some b) = if a == b then some a else none
merged_exact _ _ = none

abbrev pub options_equal : Option ℕ → Option ℕ → Bool
options_equal none none = true
options_equal (some a) (some b) = a == b
options_equal _ _ = false

-- The merged facts, and whether they differ from those merged into.
unfoldable pub merge_slot_facts : SlotFacts → SlotFacts → SlotFacts × Bool
merge_slot_facts dst src =
    let new_upper = zip_with (λ a b. some (max a b)) dst.upper src.upper in
    let new_exact = merged_exact dst.exact src.exact in
    (
      record { upper = new_upper; exact = new_exact },
      not (options_equal dst.upper new_upper) || not (options_equal dst.exact new_exact),
    )

unfoldable pub merge_fact_vectors : List SlotFacts → List SlotFacts → List SlotFacts × Bool
merge_fact_vectors [] src = ([], false)
merge_fact_vectors (d ∷ dst) [] = (d ∷ dst, false)
merge_fact_vectors (d ∷ dst) (s ∷ src) =
    let (merged, changed) = merge_slot_facts d s in
    let (rest, rest_changed) = merge_fact_vectors dst src in
    (merged ∷ rest, changed || rest_changed)
