-- ===== src/Frontend/ShiftBounds.antt =====
-- src/frontend/optimizer.rs: the bound of a shift by a constant of 64 or more.
use native.Mathlib.Nat.{one-le-pow, le-div_iff_mul-le}
use aziky.Prelude.{some_is, ℕ, ◌%◌, ◌^◌, ◌≤◌, ◌≡◌, ◌≢◌, refl, arith, bit_and, true, some, leb}
use aziky.Prelude.Bits.{and_mask}
use aziky.Ir.{RuntimeInstr, bin_op, bin_op_in_place, shl, shr_unsigned}
use aziky.Word.{shift_right}
use aziky.Superopt.Evaluate.{evaluate_binop}
use aziky.Frontend.SlotFacts.{SlotFacts, upper_bound_for_binop_facts}
use aziky.Frontend.Masks.{Bounded}

-- For a shift to the right by a constant of 64 or more, whose lowest six digits leave something of
-- the word, the analysis gives a bound that does not hold of the result.
pub upper_bound_for_binop_facts-shr :
    (lhs rhs : SlotFacts) (a s r : ℕ)
    → rhs.exact ≡ some s
    → 64 ≤ s
    → 2 ^ (s % 64) ≤ a
    → evaluate_binop shr_unsigned a s ≡ some r
    → ¬ Bounded (upper_bound_for_binop_facts shr_unsigned lhs rhs) r
unfolding upper_bound_for_binop_facts evaluate_binop shift_right
upper_bound_for_binop_facts-shr lhs rhs a s r known large kept e h =
    let wide : leb 64 s ≡ true = ground arith in
    let none_left = h 0 (rw (known, wide) refl) in
    let count : bit_and s 63 ≡ s % 64 = and_mask 6 s in
    let some_left =
      (le-div_iff_mul-le {k = 2 ^ (s % 64)} {x = 1} {y = a} (one-le-pow (s % 64) 2 (omega arith))).1
        (omega arith) in
    let result = some_is (rw count at e) in omega arith

-- An instruction that does not shift.
abbrev pub NoShift : RuntimeInstr → Type 0
NoShift (bin_op _ op _ _) = (op ≢ shl) × (op ≢ shr_unsigned)
NoShift (bin_op_in_place _ op _) = (op ≢ shl) × (op ≢ shr_unsigned)
NoShift _ = Unit
