-- ===== src/Word/Laws.antt =====
-- What the word operations guarantee: results are words again, and a power of two is the power
-- that its trailing zeros name.
use native.Mathlib.Nat.{pow-suc, div-le_self, mod-le}
use aziky.Prelude.{ℕ, zero, suc, ◌/◌, ◌%◌, ◌^◌, ◌≤◌, ◌<◌, ◌≡◌, arith, true, some, ==_iff}
use aziky.Word.{
  shift_right, checked_div, checked_rem, negate, magnitude, checked_div_signed, checked_rem_signed,
  shift_right_signed, count_ones, trailing_zeros, is_power_of_two, bit_length,
}

count_ones-eq-zero : (k n : ℕ) → n < 2 ^ k → count_ones k n ≡ 0 → n ≡ 0
unfolding count_ones
count_ones-eq-zero zero n p h = omega arith
count_ones-eq-zero (suc k) n p h =
    omega
      (arith, pow-suc 2 k, count_ones-eq-zero k (n / 2) (omega (arith, pow-suc 2 k)) (omega arith))

-- A number with a single one among its digits is a power of two, and its trailing zeros say which.
pub power_of_trailing_zeros :
    (k n : ℕ)
    → n < 2 ^ k
    → count_ones k n ≡ 1
    → (n ≡ 2 ^ trailing_zeros k n) × (trailing_zeros k n < k)
unfolding count_ones trailing_zeros
power_of_trailing_zeros zero n p h = absurd (omega arith)
power_of_trailing_zeros (suc k) n p h =
    let half : n / 2 < 2 ^ k = omega (arith, pow-suc 2 k) in
    ground (
      arith,
      count_ones-eq-zero k (n / 2) half,
      power_of_trailing_zeros k (n / 2) half,
      pow-suc 2 (trailing_zeros k (n / 2)),
    )

pub is_power_of_two_lem :
    (n : ℕ)
    → n < 2 ^ 64
    → is_power_of_two n ≡ true
    → (n ≡ 2 ^ trailing_zeros 64 n) × (trailing_zeros 64 n < 64)
unfolding is_power_of_two
is_power_of_two_lem n p h = power_of_trailing_zeros 64 n p ((==_iff _ 1).0 h)

-- A word shifted right, divided, reduced or complemented is a word again.
pub shift_right-le : (a s : ℕ) → shift_right a s ≤ a
unfolding shift_right
shift_right-le a s = div-le_self a (2 ^ s)

pub shift_right_signed-lt : (a s : ℕ) → a < 2 ^ 64 → shift_right_signed a s < 2 ^ 64
unfolding shift_right_signed
shift_right_signed-lt a s h = ground (arith, div-le_self a (2 ^ s))

pub checked_div-lt : (a b r : ℕ) → a < 2 ^ 64 → checked_div a b ≡ some r → r < 2 ^ 64
unfolding checked_div
checked_div-lt a b r h e = ground (arith, div-le_self a b)

pub checked_rem-lt : (a b r : ℕ) → b < 2 ^ 64 → checked_rem a b ≡ some r → r < 2 ^ 64
unfolding checked_rem
checked_rem-lt a b r h e = ground arith

pub negate-lt : (a : ℕ) → negate a < 2 ^ 64
unfolding negate
negate-lt a = omega arith

pub magnitude-le : (a : ℕ) → a < 2 ^ 64 → magnitude a ≤ 2 ^ 63
unfolding magnitude
magnitude-le a h = ground arith

pub checked_div_signed-lt : (a b r : ℕ) → a < 2 ^ 64 → checked_div_signed a b ≡ some r → r < 2 ^ 64
unfolding checked_div_signed
checked_div_signed-lt a b r h e =
    let q = magnitude a / magnitude b in
    ground (arith, magnitude-le a h, div-le_self (magnitude a) (magnitude b), negate-lt q)

pub checked_rem_signed-lt : (a b r : ℕ) → a < 2 ^ 64 → checked_rem_signed a b ≡ some r → r < 2 ^ 64
unfolding checked_rem_signed
checked_rem_signed-lt a b r h e =
    let m = magnitude a % magnitude b in
    ground (arith, magnitude-le a h, mod-le (magnitude a) (magnitude b), negate-lt m)

-- A number has as many digits as `bit_length` says, and no more than it is read with.
pub bit_length-bounds : (k n : ℕ) → n < 2 ^ k → (n < 2 ^ bit_length k n) × (bit_length k n ≤ k)
unfolding bit_length
bit_length-bounds zero n p = (p, omega arith)
bit_length-bounds (suc k) n p =
    let ih = bit_length-bounds k (n / 2) (omega (arith, pow-suc 2 k)) in
    ground (arith, ih, pow-suc 2 (bit_length k (n / 2)))

pub bit_length-positive : (k n : ℕ) → 1 ≤ n → 1 ≤ bit_length (suc k) n
unfolding bit_length
bit_length-positive k n p = ground arith
