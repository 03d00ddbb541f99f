-- ===== src/Frontend/FactWords.antt =====
-- src/frontend/optimizer.rs: the bounds of operations are words.
use mathlib.Core.Option
use native.Mathlib.Nat.{pow-le-pow_right, div-le_self}
use aziky.Prelude.{
  ℕ, ◌^◌, ◌≤◌, inl, inr, Bool-cases, bit_or, ◌≡◌, refl, arith, Option, none, some, leb,
}
use aziky.Prelude.Bits.{bitwise-lt}
use aziky.Ir.{
  IsWord, RuntimeBinOp, add, sub, mul, div_unsigned, div_signed, mod_unsigned, mod_signed, op_and,
  op_or, op_xor, shl, shr_unsigned, shr_signed,
}
use aziky.Word.{shift_left, shift_right, bit_length}
use aziky.Frontend.Eval.{max_word}
use aziky.Frontend.SlotFacts.{
  SlotFacts, bitmask_upper, checked_mul, zip_with, upper_of_and, upper_of_or, upper_of_shl,
  upper_of_shr, upper_of_div, upper_of_mod, upper_of_sub, masked_upper, upper_bound_for_binop_facts,
}

-- What is known is a word.
abbrev pub KnownFits : Option ℕ → Type 0
KnownFits known = (u : ℕ) → known ≡ some u → IsWord u

abbrev pub FactsFit : SlotFacts → Type 0
FactsFit facts = KnownFits facts.upper × KnownFits facts.exact

pub none-KnownFits : KnownFits none
none-KnownFits u e = absurd (cc)

pub some-KnownFits : (v : ℕ) → IsWord v → KnownFits (some v)
some-KnownFits v w u e = ground arith

bitmask_upper-IsWord : (u : ℕ) → IsWord (bitmask_upper u)
unfolding bitmask_upper
bitmask_upper-IsWord u = elim (Bool-cases (leb 64 (bit_length 64 u))) [
  | inl full ↦ rw full (ground arith)
  | inr partial ↦
      let narrow : bit_length 64 u ≤ 63 = ground arith in
      let small : 2 ^ bit_length 64 u ≤ 2 ^ 63 = pow-le-pow_right {n = 2} (omega arith) narrow in
      rw partial (ground arith)
]

and_fits :
    (lhs rhs : SlotFacts) (e e' : Option ℕ)
    → KnownFits e
    → KnownFits e'
    → KnownFits (upper_of_and lhs rhs e e')
and_fits lhs rhs (some a) (some b) k k' =
    some-KnownFits _ (bitwise-lt 64 a b (k a refl) (k' b refl)).0
and_fits lhs rhs none (some m) k k' = some-KnownFits _ (masked lhs.upper)
  where
    masked : (upper : Option ℕ) → IsWord (masked_upper upper m)
    masked none = k' m refl
    masked (some u) = omega (arith, k' m refl)
and_fits lhs rhs (some m) none k k' = some-KnownFits _ (masked rhs.upper)
  where
    masked : (upper : Option ℕ) → IsWord (masked_upper upper m)
    masked none = k m refl
    masked (some u) = omega (arith, k m refl)
and_fits lhs rhs none none k k' = none-KnownFits

or_fits :
    (lhs rhs : SlotFacts) (e e' : Option ℕ)
    → KnownFits e
    → KnownFits e'
    → KnownFits (upper_of_or lhs rhs e e')
or_fits lhs rhs (some a) (some b) k k' =
    some-KnownFits _ (bitwise-lt 64 a b (k a refl) (k' b refl)).1
or_fits lhs rhs (some a) none k k' = mapped rhs.upper
  where
    mapped : (upper : Option ℕ) → KnownFits (Option.map (λ b. bit_or a (bitmask_upper b)) upper)
    mapped none = none-KnownFits
    mapped (some u) = some-KnownFits _ (bitwise-lt 64 a _ (k a refl) (bitmask_upper-IsWord u)).1
or_fits lhs rhs none (some b) k k' = mapped lhs.upper
  where
    mapped : (upper : Option ℕ) → KnownFits (Option.map (λ a. bit_or (bitmask_upper a) b) upper)
    mapped none = none-KnownFits
    mapped (some u) = some-KnownFits _ (bitwise-lt 64 _ b (bitmask_upper-IsWord u) (k' b refl)).1
or_fits lhs rhs none none k k' = both lhs.upper rhs.upper
  where
    both :
        (u u' : Option ℕ)
        → KnownFits (zip_with (λ a b. some (bit_or (bitmask_upper a) (bitmask_upper b))) u u')
    both (some a) (some b) =
        some-KnownFits _ (bitwise-lt 64 _ _ (bitmask_upper-IsWord a) (bitmask_upper-IsWord b)).1
    both none _ = none-KnownFits
    both (some a) none = none-KnownFits

pub zip_fits :
    (f : ℕ → ℕ → Option ℕ) (o o' : Option ℕ)
    → ((a b : ℕ) → o ≡ some a → o' ≡ some b → KnownFits (f a b))
    → KnownFits (zip_with f o o')
zip_fits f (some a) (some b) k = k a b refl refl
zip_fits f none _ k = none-KnownFits
zip_fits f (some a) none k = none-KnownFits

sub_fits : (upper e : Option ℕ) → KnownFits upper → KnownFits (upper_of_sub upper e)
sub_fits upper none k = none-KnownFits
sub_fits upper (some c) k = λ u g. ground (arith, k u)

div_fits : (upper e : Option ℕ) → KnownFits upper → KnownFits (upper_of_div upper e)
div_fits upper none k = none-KnownFits
div_fits upper (some c) k = λ u g. ground (arith, k u)

mod_fits : (e : Option ℕ) → KnownFits e → KnownFits (upper_of_mod e)
mod_fits none k = none-KnownFits
mod_fits (some c) k = λ u g. ground (arith, k c refl)

shl_fits : (upper e : Option ℕ) → KnownFits (upper_of_shl upper e)
unfolding shift_left
shl_fits upper none = none-KnownFits
shl_fits none (some s) = λ u g. ground arith
shl_fits (some v) (some s) = λ u g. ground arith

shr_fits : (upper e : Option ℕ) → KnownFits upper → KnownFits (upper_of_shr upper e)
unfolding shift_right
shr_fits upper none k = none-KnownFits
shr_fits none (some s) k = λ u g. ground (arith, div-le_self max_word (2 ^ s))
shr_fits (some v) (some s) k = λ u g. ground (arith, div-le_self v (2 ^ s), k v refl)

pub bound_fits :
    (op : RuntimeBinOp) (lhs rhs : SlotFacts)
    → FactsFit lhs
    → FactsFit rhs
    → KnownFits (upper_bound_for_binop_facts op lhs rhs)
unfolding upper_bound_for_binop_facts
bound_fits add lhs rhs f g = none-KnownFits
bound_fits sub lhs rhs f g = sub_fits lhs.upper rhs.exact f.0
bound_fits mul lhs rhs f g = zip_fits checked_mul lhs.upper rhs.upper (λ a b h k u e. ground arith)
bound_fits div_unsigned lhs rhs f g = div_fits lhs.upper rhs.exact f.0
bound_fits div_signed lhs rhs f g = none-KnownFits
bound_fits mod_unsigned lhs rhs f g = mod_fits rhs.exact g.1
bound_fits mod_signed lhs rhs f g = none-KnownFits
bound_fits op_and lhs rhs f g = and_fits lhs rhs lhs.exact rhs.exact f.1 g.1
bound_fits op_or lhs rhs f g = or_fits lhs rhs lhs.exact rhs.exact f.1 g.1
bound_fits op_xor lhs rhs f g =
    zip_fits _ lhs.exact rhs.exact
      (λ a b h k. some-KnownFits _ (bitwise-lt 64 a b (f.1 a h) (g.1 b k)).2)
bound_fits shl lhs rhs f g = shl_fits lhs.upper rhs.exact
bound_fits shr_unsigned lhs rhs f g = shr_fits lhs.upper rhs.exact f.0
bound_fits shr_signed lhs rhs f g = none-KnownFits
