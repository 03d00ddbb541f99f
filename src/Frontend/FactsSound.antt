-- ===== src/Frontend/FactsSound.antt =====
-- src/frontend/optimizer.rs: the bounds and constants of operations are right about their results.
use native.Mathlib.Nat.{
  one-le-pow, le-div_iff_mul-le, div-mul-le_self, mul-le-mul_right, mul-le-mul, mod-le, mod-lt,
  div-le_self,
}
use mathlib.Core.Option
use aziky.Prelude.{
  some_is, ℕ, ◌*◌, ◌/◌, ◌%◌, ◌^◌, ◌≤◌, ◌<◌, ◌≡◌, refl, sym, arith, bit_and, bit_or, bit_xor, false,
  Option, none, some, leb,
}
use aziky.Prelude.Bits.{and_mask}
use aziky.Ir.{
  IsWord, RuntimeBinOp, add, sub, mul, div_unsigned, div_signed, mod_unsigned, mod_signed, op_and,
  op_or, op_xor, shl, shr_unsigned, shr_signed,
}
use aziky.Word.{wrapping_sub, wrapping_mul, shift_left, shift_right, checked_div, checked_rem}
use aziky.Superopt.Evaluate.{evaluate_binop}
use aziky.Frontend.Known.{Known}
use aziky.Frontend.SlotFacts.{
  SlotFacts, bitmask_upper, checked_mul, zip_with, upper_of_and, upper_of_or, upper_of_shl,
  upper_of_shr, upper_bound_for_binop_facts, masked_upper, unwrap_or_max, upper_of_div,
  upper_of_mod, upper_of_sub,
}
use aziky.Frontend.Masks.{Bounded, Describes, ShiftsFit, Within, below_mask, or_mono, and-le}

shr_below :
    (upper exact : Option ℕ) (a b : ℕ)
    → IsWord a
    → Bounded upper a
    → Known exact b
    → ((s : ℕ) → exact ≡ some s → s < 64)
    → Bounded (upper_of_shr upper exact) (shift_right a (bit_and b 63))
unfolding shift_right
shr_below upper none a b w h k fit u e = absurd (cc)
shr_below upper (some s) a b w h k fit u e =
    let small = fit s refl in
    let count : bit_and s 63 ≡ s = omega (arith, and_mask 6 s) in
    let same = k s refl in
    let quotient : a / 2 ^ s ≤ unwrap_or_max upper / 2 ^ s =
      (le-div_iff_mul-le {k = 2 ^ s} (one-le-pow s 2 (omega arith))).1
        (omega (arith, div-mul-le_self a (2 ^ s), unwrapped upper h)) in
    let kept : leb 64 s ≡ false = ground arith in
    let bound = some_is (rw kept at e) in rw (sym same, count) (omega arith)
  where
    unwrapped : (upper : Option ℕ) → Bounded upper a → a ≤ unwrap_or_max upper
    unwrapped none h = omega arith
    unwrapped (some v) h = h v refl

shl_below :
    (upper exact : Option ℕ) (a b : ℕ)
    → Bounded upper a
    → Known exact b
    → ((s : ℕ) → exact ≡ some s → (s < 64) × ((u : ℕ) → upper ≡ some u → u * 2 ^ s < 2 ^ 64))
    → Bounded (upper_of_shl upper exact) (shift_left a (bit_and b 63))
unfolding shift_left
shl_below upper none a b h k fit u e = absurd (cc)
shl_below none (some s) a b h k fit u e = absurd (ground (arith, fit s refl))
shl_below (some v) (some s) a b h k fit u e =
    let (small, kept) = fit s refl in
    let kept' = kept v refl in
    let count : bit_and s 63 ≡ s = omega (arith, and_mask 6 s) in
    let same = k s refl in
    rw (sym same, count) (ground (arith, mul-le-mul_right (2 ^ s) (h v refl)))

masked_below :
    (upper : Option ℕ) (mask v x : ℕ)
    → Bounded upper v
    → x ≤ v
    → x ≤ mask
    → x ≤ masked_upper upper mask
masked_below none mask v x h p q = q
masked_below (some u) mask v x h p q = omega (arith, h u refl)

and_below :
    (lhs rhs : SlotFacts) (exact_l exact_r : Option ℕ) (a b : ℕ)
    → IsWord a
    → IsWord b
    → Bounded lhs.upper a
    → Bounded rhs.upper b
    → Known exact_l a
    → Known exact_r b
    → Bounded (upper_of_and lhs rhs exact_l exact_r) (bit_and a b)
and_below lhs rhs (some x) (some y) a b p q h h' k k' u e =
    let result = some_is e in
    let first = k x refl in let second = k' y refl in rw (sym result, first, second) (omega arith)
and_below lhs rhs none (some m) a b p q h h' k k' u e =
    let (l, r) = and-le a b p q in
    let mask : m ≡ b = k' m refl in
    rw (sym (some_is e)) (masked_below lhs.upper m a _ h l (rw mask r))
and_below lhs rhs (some m) none a b p q h h' k k' u e =
    let (l, r) = and-le a b p q in
    let mask : m ≡ a = k m refl in
    rw (sym (some_is e)) (masked_below rhs.upper m b _ h' r (rw mask l))
and_below lhs rhs none none a b p q h h' k k' u e = absurd (cc)

same_digits : (a b : ℕ) → a ≡ b → Within b a
same_digits a b e i = rw e (omega arith)

or_below_left :
    (x : ℕ) (upper : Option ℕ) (a b : ℕ)
    → IsWord a
    → IsWord b
    → x ≡ a
    → Bounded upper b
    → Bounded (Option.map (λ v. bit_or x (bitmask_upper v)) upper) (bit_or a b)
or_below_left x none a b p q e h u g = absurd (cc)
or_below_left x (some v) a b p q e h u g =
    rw (sym (some_is g)) (or_mono a x b _ p q (same_digits x a e) (below_mask v b q (h v refl)))

or_below_right :
    (y : ℕ) (upper : Option ℕ) (a b : ℕ)
    → IsWord a
    → IsWord b
    → y ≡ b
    → Bounded upper a
    → Bounded (Option.map (λ v. bit_or (bitmask_upper v) y) upper) (bit_or a b)
or_below_right y none a b p q e h u g = absurd (cc)
or_below_right y (some v) a b p q e h u g =
    rw (sym (some_is g)) (or_mono a _ b y p q (below_mask v a p (h v refl)) (same_digits y b e))

or_below_both :
    (upper upper' : Option ℕ) (a b : ℕ)
    → IsWord a
    → IsWord b
    → Bounded upper a
    → Bounded upper' b
    → Bounded
        (zip_with (λ v w. some (bit_or (bitmask_upper v) (bitmask_upper w))) upper upper')
        (bit_or a b)
or_below_both (some v) (some w) a b p q h h' u g =
    rw (sym (some_is g))
      (or_mono a _ b _ p q (below_mask v a p (h v refl)) (below_mask w b q (h' w refl)))
or_below_both none _ a b p q h h' u g = absurd (cc)
or_below_both (some v) none a b p q h h' u g = absurd (cc)

or_below :
    (lhs rhs : SlotFacts) (exact_l exact_r : Option ℕ) (a b : ℕ)
    → IsWord a
    → IsWord b
    → Bounded lhs.upper a
    → Bounded rhs.upper b
    → Known exact_l a
    → Known exact_r b
    → Bounded (upper_of_or lhs rhs exact_l exact_r) (bit_or a b)
or_below lhs rhs (some x) (some y) a b p q h h' k k' = λ u e.
    let first = k x refl in
    let second = k' y refl in rw (sym (some_is e), first, second) (omega arith)
or_below lhs rhs (some x) none a b p q h h' k k' = or_below_left x rhs.upper a b p q (k x refl) h'
or_below lhs rhs none (some y) a b p q h h' k k' = or_below_right y lhs.upper a b p q (k' y refl) h
or_below lhs rhs none none a b p q h h' k k' = or_below_both lhs.upper rhs.upper a b p q h h'

mul_below :
    (upper upper' : Option ℕ) (a b : ℕ)
    → Bounded upper a
    → Bounded upper' b
    → Bounded (zip_with checked_mul upper upper') (a * b % 2 ^ 64)
mul_below (some v) (some w) a b h h' u g =
    ground (arith, mul-le-mul (h v refl) (h' w refl), mod-le (a * b) (2 ^ 64))
mul_below none _ a b h h' u g = absurd (cc)
mul_below (some v) none a b h h' u g = absurd (cc)

sub_below :
    (upper exact : Option ℕ) (a b : ℕ)
    → IsWord a
    → Bounded upper a
    → Known exact b
    → Bounded (upper_of_sub upper exact) (wrapping_sub a b)
unfolding wrapping_sub
sub_below upper (some c) a b w h k u e = ground (arith, k c refl, h u)
sub_below upper none a b w h k u e = absurd (cc)

div_below :
    (upper exact : Option ℕ) (a b : ℕ)
    → Bounded upper a
    → Known exact b
    → Bounded (upper_of_div upper exact) (a / b)
div_below upper (some c) a b h k u e = ground (arith, k c refl, h u, div-le_self a b)
div_below upper none a b h k u e = absurd (cc)

mod_below : (exact : Option ℕ) (a b : ℕ) → Known exact b → Bounded (upper_of_mod exact) (a % b)
mod_below (some c) a b k u e = ground (arith, k c refl, mod-lt a {m = b})
mod_below none a b k u e = absurd (cc)

xor_below :
    (exact exact' : Option ℕ) (a b : ℕ)
    → Known exact a
    → Known exact' b
    → Bounded (zip_with (λ x y. some (bit_xor x y)) exact exact') (bit_xor a b)
xor_below (some x) (some y) a b k k' u e =
    let first = k x refl in
    let second = k' y refl in rw (sym (some_is e), first, second) (omega arith)
xor_below none _ a b k k' u e = absurd (cc)
xor_below (some x) none a b k k' u e = absurd (cc)

divided : (a b v : ℕ) → checked_div a b ≡ some v → a / b ≡ v
unfolding checked_div
divided a b v e = ground arith

remaining : (a b v : ℕ) → checked_rem a b ≡ some v → a % b ≡ v
unfolding checked_rem
remaining a b v e = ground arith

-- The bound of an operation on words that their facts describe holds of its result, where the
-- bound's shifts fit.
pub upper_bound_for_binop_facts_lem :
    (op : RuntimeBinOp) (lhs rhs : SlotFacts) (a b r : ℕ)
    → IsWord a
    → IsWord b
    → Describes lhs a
    → Describes rhs b
    → ShiftsFit op lhs rhs
    → evaluate_binop op a b ≡ some r
    → Bounded (upper_bound_for_binop_facts op lhs rhs) r
unfolding upper_bound_for_binop_facts evaluate_binop wrapping_mul
upper_bound_for_binop_facts_lem add l r a b v p q (h, k) (h', k') fit e = λ u g. absurd (cc)
upper_bound_for_binop_facts_lem sub l r a b v p q (h, k) (h', k') fit e =
    rw (sym (some_is e)) (sub_below l.upper r.exact a b p h k')
upper_bound_for_binop_facts_lem mul l r a b v p q (h, k) (h', k') fit e =
    rw (sym (some_is e)) (mul_below l.upper r.upper a b h h')
upper_bound_for_binop_facts_lem div_unsigned l r a b v p q (h, k) (h', k') fit e =
    rw (sym (divided a b v e)) (div_below l.upper r.exact a b h k')
upper_bound_for_binop_facts_lem div_signed l r a b v p q (h, k) (h', k') fit e = λ u g. absurd (cc)
upper_bound_for_binop_facts_lem mod_unsigned l r a b v p q (h, k) (h', k') fit e =
    rw (sym (remaining a b v e)) (mod_below r.exact a b k')
upper_bound_for_binop_facts_lem mod_signed l r a b v p q (h, k) (h', k') fit e = λ u g. absurd (cc)
upper_bound_for_binop_facts_lem op_and l r a b v p q (h, k) (h', k') fit e =
    rw (sym (some_is e)) (and_below l r l.exact r.exact a b p q h h' k k')
upper_bound_for_binop_facts_lem op_or l r a b v p q (h, k) (h', k') fit e =
    rw (sym (some_is e)) (or_below l r l.exact r.exact a b p q h h' k k')
upper_bound_for_binop_facts_lem op_xor l r a b v p q (h, k) (h', k') fit e =
    rw (sym (some_is e)) (xor_below l.exact r.exact a b k k')
upper_bound_for_binop_facts_lem shl l r a b v p q (h, k) (h', k') fit e =
    rw (sym (some_is e)) (shl_below l.upper r.exact a b h k' fit)
upper_bound_for_binop_facts_lem shr_unsigned l r a b v p q (h, k) (h', k') fit e =
    rw (sym (some_is e)) (shr_below l.upper r.exact a b p h k' fit)
upper_bound_for_binop_facts_lem shr_signed l r a b v p q (h, k) (h', k') fit e = λ u g. absurd (cc)
