-- ===== src/Lir/Described.antt =====
-- src/backend/lir.rs: what is known of the bits of a value is true of it.
use native.Mathlib.Nat.{pow-le-pow_right, one-le-pow}
use aziky.Prelude.{
  ℕ, zero, suc, bit_or, ◌+◌, ◌-◌, ◌*◌, ◌^◌, ◌≤◌, ◌<◌, ◌≡◌, refl, arith, true, false, some, ltb,
  ◌==◌, inl, inr, Bool-cases, ==_iff, ltb→lt, lt→ltb, ◌⊎◌,
}
use aziky.Prelude.Bits.{bitwise-lt}
use aziky.Prelude.Digits.{
  digit, digit-le, digit-or, digit-zero, digit_above, digit_complement, digit_ones, digit_mod,
  digit_shift_down, digit_shift_up, digit_shifted_in, le_of_digits,
}
use aziky.Ir.{IsWord, RuntimeOperand, slot, imm}
use aziky.Word.{wrapping_add, wrapping_sub, shift_left, shift_right, complement, bit_length}
use aziky.Word.Laws.{bit_length-bounds, shift_right-le}
use aziky.Superopt.Evaluate.{Environment, operand_value}
use aziky.Lir.KnownBits.{
  KnownBits, unknown, constant, bounded_by, checked_add, ones_up_to, is_imm, introduced_zero,
  known_bits_for_shl, known_bits_for_shr,
}

-- The masks are words; no bit of the value is one that is known to be zero, and each is one that
-- is known to be one.
abbrev pub Describes : KnownBits → ℕ → Type 0
Describes fact x =
    IsWord fact.zero_bits
    × IsWord fact.one_bits
    × ((i : ℕ)
        → i < 64
        → (digit fact.zero_bits i + digit x i ≤ 1) × (digit fact.one_bits i ≤ digit x i))

pub unknown-Describes : (x : ℕ) → Describes unknown x
unknown-Describes x = (
  omega arith,
  omega arith,
  λ i p. (omega (arith, digit-zero i, digit-le x i), omega (arith, digit-zero i)),
)

digit-complement : (n i : ℕ) → IsWord n → i < 64 → digit (complement n) i ≡ 1 - digit n i
unfolding complement
digit-complement n i h p = digit_complement 64 n i h p

complement-lt : (n : ℕ) → IsWord (complement n)
unfolding complement
complement-lt n = omega arith

pub constant-Describes : (x : ℕ) → IsWord x → Describes (constant x) x
unfolding constant
constant-Describes x h = (
  complement-lt x,
  h,
  λ i p. (omega (arith, digit-complement x i h p, digit-le x i), omega arith),
)

-- A value is at most the complement of its known zeros.
pub le_max :
    (fact : KnownBits) (x : ℕ) → IsWord x → Describes fact x → x ≤ complement fact.zero_bits
le_max fact x h (w, _, d) =
    le_of_digits 64 x _ h (λ i p. omega (arith, digit-complement fact.zero_bits i w p, (d i p).0))

pub digit-shift_left_low : (n s i : ℕ) → i < 64 → i < s → digit (shift_left n s) i ≡ 0
unfolding shift_left
digit-shift_left_low n s i p q =
    omega (arith, digit_mod 64 (n * 2 ^ s) i p, digit_shifted_in s n i q)

pub digit-shift_left : (n s i : ℕ) → i < 64 → s ≤ i → digit (shift_left n s) i ≡ digit n (i - s)
unfolding shift_left
digit-shift_left n s i p q =
    omega (arith, digit_mod 64 (n * 2 ^ s) i p, digit_shift_up s n (i - s) i (omega arith))

pub digit-shift_right : (n s i : ℕ) → digit (shift_right n s) i ≡ digit n (s + i)
unfolding shift_right
digit-shift_right n s i = digit_shift_down s n i (s + i) refl

shift_left-lt : (n s : ℕ) → IsWord (shift_left n s)
unfolding shift_left
shift_left-lt n s = omega arith

pub split_at : (i k : ℕ) → (i < k) ⊎ (k ≤ i)
split_at i k = omega arith

-- `(1 << s).wrapping_sub(1)`
low_ones : (s : ℕ) → s < 64 → wrapping_sub (shift_left 1 s) 1 ≡ 2 ^ s - 1
unfolding wrapping_sub shift_left
low_ones s p =
    let upper : 2 ^ s ≤ 2 ^ 63 = pow-le-pow_right (omega arith) {j = 63} (omega arith) in
    omega (arith, one-le-pow s 2 (omega arith))

positive_of_length : (max i : ℕ) → i < bit_length 64 max → (max == 0) ≡ false
unfolding bit_length
positive_of_length zero i p = absurd (omega arith)
positive_of_length (suc max) i p = ground arith

digit-ones_up_to : (max i : ℕ) → IsWord max → i < bit_length 64 max → digit (ones_up_to max) i ≡ 1
digit-ones_up_to max i h p = rw (positive_of_length max i p) (
    let down = digit-shift_right (2 ^ 64 - 1) (64 - bit_length 64 max) i in
    let (below, bound) = bit_length-bounds 64 max h in
    omega (arith, down, digit_ones 64 (64 - bit_length 64 max + i) (omega (arith, bound))))

ones_up_to-lt : (max : ℕ) → IsWord (ones_up_to max)
ones_up_to-lt max = ground (arith, shift_right-le (2 ^ 64 - 1) (64 - bit_length 64 max))

-- A bound leaves the bits above its highest one unset.
bounded : (max x : ℕ) → IsWord max → x ≤ max → Describes (bounded_by (some max)) x
bounded max x h p =
    (complement-lt _, omega arith, λ i q. (disjoint i q, omega (arith, digit-zero i)))
  where
    disjoint : (i : ℕ) → i < 64 → digit (complement (ones_up_to max)) i + digit x i ≤ 1
    disjoint i q = elim (split_at i (bit_length 64 max)) [
      | inl low ↦ omega (
        arith,
        digit-complement _ i (ones_up_to-lt max) q,
        digit-ones_up_to max i h low,
        digit-le x i,
      )
      | inr high ↦
          let cleared =
            digit_above (bit_length 64 max) x i (omega (arith, (bit_length-bounds 64 max h).0))
              high in
          omega (arith, cleared, digit-le (complement (ones_up_to max)) i)
    ]

module _ (environment : Environment) where
  pub is_imm→value :
      (o : RuntimeOperand) (n x : ℕ)
      → is_imm o n ≡ true
      → operand_value environment o ≡ some x
      → x ≡ n
  is_imm→value (slot s) n x h e = cc
  is_imm→value (imm v) n x h e = ground (arith, (==_iff v n).0 h)

pub add_sound :
    (lhs rhs : KnownBits) (x y : ℕ)
    → IsWord x
    → IsWord y
    → Describes lhs x
    → Describes rhs y
    → Describes
        (bounded_by (checked_add (complement lhs.zero_bits) (complement rhs.zero_bits)))
        (wrapping_add x y)
unfolding wrapping_add
add_sound lhs rhs x y p q d e =
    let total = complement lhs.zero_bits + complement rhs.zero_bits in
    let left = le_max lhs x p d in
    let right = le_max rhs y q e in
    elim (Bool-cases (ltb total (2 ^ 64))) [
      | inl fits ↦ rw fits (
          let word : total < 2 ^ 64 = ltb→lt total (2 ^ 64) fits in
          bounded total _ word (omega arith))
      | inr overflows ↦ rw overflows (unknown-Describes _)
    ]

wrapping_sub-lt : (a b : ℕ) → IsWord (wrapping_sub a b)
unfolding wrapping_sub
wrapping_sub-lt a b = omega arith

pub shl_sound :
    (lhs : KnownBits) (x s : ℕ)
    → Describes lhs x
    → s < 64
    → Describes (known_bits_for_shl (imm s) lhs) (shift_left x s)
shl_sound lhs x s (wz, wo, d) p = rw (lt→ltb s 64 p) (
  (bitwise-lt 64 _ _ (shift_left-lt lhs.zero_bits s) (wrapping_sub-lt (shift_left 1 s) 1)).1,
  shift_left-lt lhs.one_bits s,
  at_digit,
)
  where
    at_digit :
        (i : ℕ)
        → i < 64
        → (digit (bit_or (shift_left lhs.zero_bits s) (wrapping_sub (shift_left 1 s) 1)) i
              + digit (shift_left x s) i
            ≤ 1)
          × (digit (shift_left lhs.one_bits s) i ≤ digit (shift_left x s) i)
    at_digit i q =
        rw (low_ones s p, digit-or (shift_left lhs.zero_bits s) (2 ^ s - 1) i)
          (elim (split_at i s) [
            | inl low ↦ (
              omega (
                arith,
                digit-shift_left_low x s i q low,
                digit-le (shift_left lhs.zero_bits s) i,
                digit-le (2 ^ s - 1) i,
              ),
              omega (arith, digit-shift_left_low lhs.one_bits s i q low),
            )
            | inr high ↦
                let there = d (i - s) (omega arith) in
                let moved = digit-shift_left x s i q high in
                (
                  omega (
                    arith,
                    moved,
                    there.0,
                    digit-shift_left lhs.zero_bits s i q high,
                    digit_above s (2 ^ s - 1) i (omega (arith, one-le-pow s 2 (omega arith))) high,
                  ),
                  omega (arith, moved, there.1, digit-shift_left lhs.one_bits s i q high),
                )
          ])

shift_right-lt : (n s : ℕ) → IsWord n → IsWord (shift_right n s)
shift_right-lt n s h = omega (arith, shift_right-le n s)

introduced_zero-lt : (s : ℕ) → IsWord (introduced_zero s)
introduced_zero-lt s = ground (arith, shift_left-lt (complement 0) (64 - s))

-- A shift to the right brings in zeros at the top only.
digit-introduced_zero : (s i : ℕ) → i < 64 → s + i < 64 → digit (introduced_zero s) i ≡ 0
digit-introduced_zero s i q p = elim (Bool-cases (s == 0)) [
  | inl none_in ↦ rw none_in (digit-zero i)
  | inr some_in ↦ rw some_in (digit-shift_left_low (complement 0) (64 - s) i q (omega arith))
]

pub shr_sound :
    (lhs : KnownBits) (x s : ℕ)
    → IsWord x
    → Describes lhs x
    → s < 64
    → Describes (known_bits_for_shr (imm s) lhs) (shift_right x s)
shr_sound lhs x s h (wz, wo, d) p = rw (lt→ltb s 64 p) (
  (bitwise-lt 64 _ _ (shift_right-lt lhs.zero_bits s wz) (introduced_zero-lt s)).1,
  shift_right-lt lhs.one_bits s wo,
  at_digit,
)
  where
    at_digit :
        (i : ℕ)
        → i < 64
        → (digit (bit_or (shift_right lhs.zero_bits s) (introduced_zero s)) i
              + digit (shift_right x s) i
            ≤ 1)
          × (digit (shift_right lhs.one_bits s) i ≤ digit (shift_right x s) i)
    at_digit i q = rw (digit-or (shift_right lhs.zero_bits s) (introduced_zero s) i) (
        let moved = digit-shift_right x s i in
        let ones = digit-shift_right lhs.one_bits s i in
        elim (split_at (s + i) 64) [
          | inl low ↦
              let there = d (s + i) low in
              (
                omega (
                  arith,
                  moved,
                  there.0,
                  digit-shift_right lhs.zero_bits s i,
                  digit-introduced_zero s i q low,
                ),
                omega (arith, moved, ones, there.1),
              )
          | inr high ↦ (
            omega (
              arith,
              moved,
              digit_above 64 x (s + i) h high,
              digit-le (shift_right lhs.zero_bits s) i,
              digit-le (introduced_zero s) i,
            ),
            omega (arith, moved, ones, digit_above 64 lhs.one_bits (s + i) wo high),
          )
        ])
