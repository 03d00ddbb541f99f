-- ===== src/Frontend/Masks.antt =====
-- src/frontend/optimizer.rs: what is known of a value, and the masks that stand for bounds.
use native.Mathlib.Nat.{one-le-pow, pow-suc}
use aziky.Prelude.{
  ℕ, zero, suc, ◌-◌, ◌*◌, ◌/◌, ◌^◌, ◌≤◌, ◌<◌, ◌≡◌, refl, arith, bit_and, bit_or, Option, some, ltb,
  leb, ◌==◌, inl, inr, Bool-cases,
}
use aziky.Prelude.Bits.{bitwise-lt}
use aziky.Prelude.Digits.{
  digit, digit-le, digit-and, digit-or, digit_above, digit_ones, le_of_digits,
}
use aziky.Ir.{IsWord, RuntimeBinOp, shl, shr_unsigned}
use aziky.Word.{bit_length}
use aziky.Word.Laws.{bit_length-bounds}
use aziky.Frontend.Eval.{max_word}
use aziky.Frontend.Known.{Known}
use aziky.Frontend.SlotFacts.{SlotFacts, bitmask_upper}

-- A bound that is known of a value is one.
abbrev pub Bounded : Option ℕ → ℕ → Type 0
Bounded bound v = (u : ℕ) → bound ≡ some u → v ≤ u

-- What is known is true of the value.
abbrev pub Describes : SlotFacts → ℕ → Type 0
Describes facts v = Bounded facts.upper v × Known facts.exact v

-- The shifts whose bound the analysis gets right: a count below 64, and no bit of the bound lost.
abbrev pub ShiftsFit : RuntimeBinOp → SlotFacts → SlotFacts → Type 0
ShiftsFit shl lhs rhs =
    (s : ℕ) → rhs.exact ≡ some s → (s < 64) × ((u : ℕ) → lhs.upper ≡ some u → u * 2 ^ s < 2 ^ 64)
ShiftsFit shr_unsigned lhs rhs = (s : ℕ) → rhs.exact ≡ some s → s < 64
ShiftsFit _ lhs rhs = Unit

bit_length-full : (k n : ℕ) → 2 ^ k ≤ n → bit_length k n ≡ k
unfolding bit_length
bit_length-full zero n h = refl
bit_length-full (suc k) n h =
    ground
      (arith, bit_length-full k (n / 2) (omega (arith, pow-suc 2 k)), pow-suc 2 k, one-le-pow k 2)

-- The mask of ones that stands for a bound, and a word that the bound holds of.
bitmask_upper-ones :
    (u a : ℕ) → IsWord a → a ≤ u → (k : ℕ) × (bitmask_upper u ≡ 2 ^ k - 1) × (a < 2 ^ k) × (k ≤ 64)
unfolding bitmask_upper
bitmask_upper-ones u a w h = elim (Bool-cases (u == max_word)) [
  | inl top ↦ rw top (64, refl, w, omega arith)
  | inr lower ↦ elim (Bool-cases (u == 0)) [
    | inl zero_bound ↦ rw (lower, zero_bound) (0, refl, ground arith, omega arith)
    | inr positive ↦ elim (Bool-cases (leb 64 (bit_length 64 u))) [
      | inl full ↦ rw (lower, positive, full) (64, refl, w, omega arith)
      | inr partial ↦
          let word : u < 2 ^ 64 = ground (arith, bit_length-full 64 u) in
          let (below, small) = bit_length-bounds 64 u word in
          rw (lower, positive, partial) (bit_length 64 u, refl, omega arith, small)
    ]
  ]
]

-- Every digit of one number is set in the other.
abbrev pub Within : ℕ → ℕ → Type 0
Within a b = (i : ℕ) → digit a i ≤ digit b i

pub below_mask : (u a : ℕ) → IsWord a → a ≤ u → Within a (bitmask_upper u)
below_mask u a w h i =
    let (k, ones, below, small) = bitmask_upper-ones u a w h in
    rw ones (elim (Bool-cases (ltb i k)) [
      | inl inside ↦ let one = digit_ones k i (ground arith) in omega (arith, one, digit-le a i)
      | inr outside ↦
          let zero_digit = digit_above k a i below (ground arith) in omega (arith, zero_digit)
    ])

pub or_mono :
    (a a' b b' : ℕ) → IsWord a → IsWord b → Within a a' → Within b b' → bit_or a b ≤ bit_or a' b'
or_mono a a' b b' p q h k =
    le_of_digits 64 _ _ (bitwise-lt 64 a b p q).1
      (λ i small. omega (arith, digit-or a b i, digit-or a' b' i, h i, k i))

pub and-le : (a b : ℕ) → IsWord a → IsWord b → (bit_and a b ≤ a) × (bit_and a b ≤ b)
and-le a b p q = (
  le_of_digits 64 _ _ (bitwise-lt 64 a b p q).0 (λ i small. omega (arith, digit-and a b i)),
  le_of_digits 64 _ _ (bitwise-lt 64 a b p q).0 (λ i small. omega (arith, digit-and a b i)),
)
