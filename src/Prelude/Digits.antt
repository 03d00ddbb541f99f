-- ===== src/Prelude/Digits.antt =====
-- The binary digits of a number, and what the operations on words do to each of them.
use Prim.Native.Nat.{
  ℕ, zero, suc, ◌+◌, ◌-◌, ◌*◌, ◌/◌, ◌%◌, ◌^◌, ◌≤◌, ◌<◌, min, max, bit_and, bit_or, bit_xor,
}
use mathlib.Core.Path.{◌≡◌, refl, ap}
use native.Mathlib.Nat.{pow-suc, one-le-pow, div-div-eq-div-mul}
use native.Mathlib.Omega.{arith}
use aziky.Prelude.Bits.{and_step, or_step, xor_step, and_mask}

-- The digit of weight `2 ^ i`.
abbrev pub digit : ℕ → ℕ → ℕ
digit n zero = n % 2
digit n (suc i) = digit (n / 2) i

pub digit-le : (n i : ℕ) → digit n i ≤ 1
digit-le n zero = omega arith
digit-le n (suc i) = digit-le (n / 2) i

pub digit-and : (a b i : ℕ) → digit (bit_and a b) i ≡ min (digit a i) (digit b i)
digit-and a b zero = omega (arith, and_step a b)
digit-and a b (suc i) =
    let half : bit_and a b / 2 ≡ bit_and (a / 2) (b / 2) = omega (arith, and_step a b) in
    rw half (digit-and (a / 2) (b / 2) i)

pub digit-or : (a b i : ℕ) → digit (bit_or a b) i ≡ max (digit a i) (digit b i)
digit-or a b zero = omega (arith, or_step a b)
digit-or a b (suc i) =
    let half : bit_or a b / 2 ≡ bit_or (a / 2) (b / 2) = omega (arith, or_step a b) in
    rw half (digit-or (a / 2) (b / 2) i)

pub digit-xor : (a b i : ℕ) → digit (bit_xor a b) i ≡ (digit a i + digit b i) % 2
digit-xor a b zero = omega (arith, xor_step a b)
digit-xor a b (suc i) =
    let half : bit_xor a b / 2 ≡ bit_xor (a / 2) (b / 2) = omega (arith, xor_step a b) in
    rw half (digit-xor (a / 2) (b / 2) i)

pub digit-zero : (i : ℕ) → digit 0 i ≡ 0
digit-zero zero = refl
digit-zero (suc i) = digit-zero i

-- A number below `2 ^ k` has no digit at `k` or above.
pub digit_above : (k n i : ℕ) → n < 2 ^ k → k ≤ i → digit n i ≡ 0
digit_above zero zero i h p = digit-zero i
digit_above zero (suc n) i h p = absurd (omega arith)
digit_above (suc k) n zero h p = absurd (omega arith)
digit_above (suc k) n (suc i) h p =
    digit_above k (n / 2) i (omega (arith, pow-suc 2 k)) (omega arith)

-- The digits of `2 ^ k - 1 - n`, the complement in `k` digits.
pub digit_complement : (k n i : ℕ) → n < 2 ^ k → i < k → digit (2 ^ k - 1 - n) i ≡ 1 - digit n i
digit_complement zero n i h p = absurd (omega arith)
digit_complement (suc k) n zero h p = omega (arith, pow-suc 2 k)
digit_complement (suc k) n (suc i) h p =
    let half : (2 ^ suc k - 1 - n) / 2 ≡ 2 ^ k - 1 - n / 2 = omega (arith, pow-suc 2 k) in
    rw half (digit_complement k (n / 2) i (omega (arith, pow-suc 2 k)) (omega arith))

-- A mask of `k` ones.
pub digit_ones : (k i : ℕ) → i < k → digit (2 ^ k - 1) i ≡ 1
digit_ones k i p =
    let same : 2 ^ k - 1 - 0 ≡ 2 ^ k - 1 = omega arith in
    rw (← same)
      (omega (arith, digit_complement k 0 i (one-le-pow k 2 (omega arith)) p, digit-zero i))

-- The remainder by `2 ^ k` keeps the digits below `k`.
pub digit_mod : (k n i : ℕ) → i < k → digit (n % 2 ^ k) i ≡ digit n i
digit_mod k n i p =
    rw (← and_mask k n) (omega (arith, digit-and n (2 ^ k - 1) i, digit_ones k i p, digit-le n i))

two_pow : (s : ℕ) → 2 ^ suc s ≡ 2 * 2 ^ s
two_pow s = omega (arith, pow-suc 2 s)

-- Division by `2 ^ s` moves the digits down, multiplication moves them up.
pub digit_shift_down : (s n i j : ℕ) → j ≡ s + i → digit (n / 2 ^ s) i ≡ digit n j
digit_shift_down zero n i j p =
    let whole : n / 2 ^ 0 ≡ n = omega arith in
    let same : j ≡ i = omega arith in rw (whole, same) refl
digit_shift_down (suc s) n i zero p = absurd (omega arith)
digit_shift_down (suc s) n i (suc j) p =
    let halved : n / 2 ^ suc s ≡ n / 2 / 2 ^ s =
      omega
        (arith, pow-suc 2 s, div-div-eq-div-mul n 2 (2 ^ s), ap (λ (t : ℕ). n / t) (two_pow s)) in
    rw halved (digit_shift_down s (n / 2) i j (omega arith))

pub digit_shift_up : (s n i j : ℕ) → j ≡ s + i → digit (n * 2 ^ s) j ≡ digit n i
digit_shift_up zero n i j p =
    let whole : n * 2 ^ 0 ≡ n = omega arith in
    let same : j ≡ i = omega arith in rw (whole, same) refl
digit_shift_up (suc s) n i zero p = absurd (omega arith)
digit_shift_up (suc s) n i (suc j) p =
    let e : n * 2 ^ suc s ≡ 2 * (n * 2 ^ s) = omega (arith, ap (λ (t : ℕ). n * t) (pow-suc 2 s)) in
    let half : n * 2 ^ suc s / 2 ≡ n * 2 ^ s = omega arith in
    rw half (digit_shift_up s n i j (omega arith))

pub digit_shifted_in : (s n i : ℕ) → i < s → digit (n * 2 ^ s) i ≡ 0
digit_shifted_in zero n i p = absurd (omega arith)
digit_shifted_in (suc s) n zero p = omega (arith, ap (λ (t : ℕ). n * t) (pow-suc 2 s))
digit_shifted_in (suc s) n (suc i) p =
    let e : n * 2 ^ suc s ≡ 2 * (n * 2 ^ s) = omega (arith, ap (λ (t : ℕ). n * t) (pow-suc 2 s)) in
    let half : n * 2 ^ suc s / 2 ≡ n * 2 ^ s = omega arith in
    rw half (digit_shifted_in s n i (omega arith))

-- A number whose digits are at most those of another is at most the other.
pub le_of_digits : (k m n : ℕ) → m < 2 ^ k → ((i : ℕ) → i < k → digit m i ≤ digit n i) → m ≤ n
le_of_digits zero m n h p = omega arith
le_of_digits (suc k) m n h p =
    let rest =
      le_of_digits k (m / 2) (n / 2) (omega (arith, pow-suc 2 k))
        (λ i q. p (suc i) (omega arith)) in
    let lowest : m % 2 ≤ n % 2 = p 0 (omega arith) in omega arith
