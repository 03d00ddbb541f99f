-- ===== src/Prelude/Bits.antt =====
-- Laws of the bitwise operations at every width. Each follows from one equation for the lowest
-- digit, by induction on a bound of the operands or on the width of the word.
use Prim.Native.Nat.{
  ℕ, zero, suc, ◌+◌, ◌-◌, ◌*◌, ◌/◌, ◌%◌, ◌^◌, ◌≤◌, ◌<◌, min, max, bit_and, bit_or, bit_xor,
}
use Prim.Native.Nat.{digits, bitwise, differ, bit_and-bitwise, bit_or-bitwise, bit_xor-bitwise}
use mathlib.Core.Path.{◌≡◌, refl, ap}
use mathlib.Core.Logic.{◌⊎◌, inl, inr}
use native.Mathlib.Nat.{pow-suc, one-le-pow}
use native.Mathlib.Omega.{arith}

module _ (z : ℕ → ℕ) (f : ℕ → ℕ → ℕ) where
  -- The count of digits to go does not matter once it covers the first operand.
  enough_digits : (n m a b : ℕ) → a ≤ n → a ≤ m → digits z f n a b ≡ digits z f m a b
  enough_digits zero m (suc a) b p q = absurd (omega arith)
  enough_digits (suc n) zero (suc a) b p q = absurd (omega arith)
  enough_digits (suc n) (suc m) (suc a) b p q =
      rw (enough_digits n m (suc a / 2) (b / 2) (omega arith) (omega arith))
  enough_digits zero zero zero b p q = refl
  enough_digits zero (suc m) zero b p q = refl
  enough_digits (suc n) zero zero b p q = refl
  enough_digits (suc n) (suc m) zero b p q = refl

  lowest_digit :
      (a b : ℕ)
      → bitwise z f (suc a) b ≡ bitwise z f (suc a / 2) (b / 2) * 2 + f (suc a % 2) (b % 2)
  lowest_digit a b =
      rw (enough_digits a (suc a / 2) (suc a / 2) (b / 2) (omega arith) (omega arith))

-- The lowest digit of a result, and the rest.
pub and_step : (a b : ℕ) → bit_and a b ≡ bit_and (a / 2) (b / 2) * 2 + min (a % 2) (b % 2)
and_step zero b = simp bit_and-bitwise (omega arith)
and_step (suc a) b = simp bit_and-bitwise (lowest_digit (λ _. 0) min a b)

pub or_step : (a b : ℕ) → bit_or a b ≡ bit_or (a / 2) (b / 2) * 2 + max (a % 2) (b % 2)
or_step zero b = simp bit_or-bitwise (omega arith)
or_step (suc a) b = simp bit_or-bitwise (lowest_digit (λ y. y) max a b)

differ-lt : (a b : ℕ) → differ (a % 2) (b % 2) ≡ (a + b) % 2
differ-lt a b = elim (even_or_odd a) [
  | inl p ↦ rw p (omega arith)
  | inr p ↦ elim (even_or_odd b) [
    | inl q ↦ rw (p, q) (omega arith)
    | inr q ↦ rw (p, q) (omega arith)
  ]
]
  where
    even_or_odd : (n : ℕ) → (n % 2 ≡ 0) ⊎ (n % 2 ≡ 1)
    even_or_odd n = omega arith

-- The lowest digit of an exclusive or is that of the sum.
pub xor_step : (a b : ℕ) → bit_xor a b ≡ bit_xor (a / 2) (b / 2) * 2 + (a + b) % 2
xor_step zero b = simp bit_xor-bitwise (omega arith)
xor_step (suc a) b =
    simp bit_xor-bitwise (omega (arith, lowest_digit (λ y. y) differ a b, differ-lt (suc a) b))

module _ where
  and_comm_fuel : (n a b : ℕ) → a ≤ n → b ≤ n → bit_and a b ≡ bit_and b a
  and_comm_fuel zero zero zero p q = refl
  and_comm_fuel zero (suc a) b p q = absurd (omega arith)
  and_comm_fuel zero zero (suc b) p q = absurd (omega arith)
  and_comm_fuel (suc n) a b p q = omega (
    arith,
    and_step a b,
    and_step b a,
    and_comm_fuel n (a / 2) (b / 2) (omega arith) (omega arith),
  )

  or_comm_fuel : (n a b : ℕ) → a ≤ n → b ≤ n → bit_or a b ≡ bit_or b a
  or_comm_fuel zero zero zero p q = refl
  or_comm_fuel zero (suc a) b p q = absurd (omega arith)
  or_comm_fuel zero zero (suc b) p q = absurd (omega arith)
  or_comm_fuel (suc n) a b p q =
      omega (
        arith,
        or_step a b,
        or_step b a,
        or_comm_fuel n (a / 2) (b / 2) (omega arith) (omega arith),
      )

  xor_comm_fuel : (n a b : ℕ) → a ≤ n → b ≤ n → bit_xor a b ≡ bit_xor b a
  xor_comm_fuel zero zero zero p q = refl
  xor_comm_fuel zero (suc a) b p q = absurd (omega arith)
  xor_comm_fuel zero zero (suc b) p q = absurd (omega arith)
  xor_comm_fuel (suc n) a b p q = omega (
    arith,
    xor_step a b,
    xor_step b a,
    xor_comm_fuel n (a / 2) (b / 2) (omega arith) (omega arith),
  )

pub and_comm : (a b : ℕ) → bit_and a b ≡ bit_and b a
and_comm a b = and_comm_fuel (a + b) a b (omega arith) (omega arith)

pub or_comm : (a b : ℕ) → bit_or a b ≡ bit_or b a
or_comm a b = or_comm_fuel (a + b) a b (omega arith) (omega arith)

pub xor_comm : (a b : ℕ) → bit_xor a b ≡ bit_xor b a
xor_comm a b = xor_comm_fuel (a + b) a b (omega arith) (omega arith)

self_laws_fuel : (n a : ℕ) → a ≤ n → (bit_and a a ≡ a) × (bit_or a a ≡ a) × (bit_xor a a ≡ 0)
self_laws_fuel zero zero p = (refl, refl, refl)
self_laws_fuel zero (suc a) p = absurd (omega arith)
self_laws_fuel (suc n) a p =
    let ih = self_laws_fuel n (a / 2) (omega arith) in
    (omega (arith, and_step a a), omega (arith, or_step a a), omega (arith, xor_step a a))

pub and_self : (a : ℕ) → bit_and a a ≡ a
and_self a = (self_laws_fuel a a (omega arith)).0

pub or_self : (a : ℕ) → bit_or a a ≡ a
or_self a = (self_laws_fuel a a (omega arith)).1

pub xor_self : (a : ℕ) → bit_xor a a ≡ 0
xor_self a = (self_laws_fuel a a (omega arith)).2

zero_laws : (b : ℕ) → (bit_and 0 b ≡ 0) × (bit_or 0 b ≡ b) × (bit_xor 0 b ≡ b)
zero_laws b = (bit_and-bitwise 0 b, bit_or-bitwise 0 b, bit_xor-bitwise 0 b)

pub zero_and : (b : ℕ) → bit_and 0 b ≡ 0
zero_and b = (zero_laws b).0

pub zero_or : (b : ℕ) → bit_or 0 b ≡ b
zero_or b = (zero_laws b).1

pub zero_xor : (b : ℕ) → bit_xor 0 b ≡ b
zero_xor b = (zero_laws b).2

pub and_zero : (a : ℕ) → bit_and a 0 ≡ 0
and_zero a = omega (arith, and_comm a 0, zero_and a)

pub or_zero : (a : ℕ) → bit_or a 0 ≡ a
or_zero a = omega (arith, or_comm a 0, zero_or a)

pub xor_zero : (a : ℕ) → bit_xor a 0 ≡ a
xor_zero a = omega (arith, xor_comm a 0, zero_xor a)

-- The digits of `q * 2 ^ k + r` under a mask of `k` ones are those of `r`.
mask_digits : (k q r : ℕ) → r < 2 ^ k → bit_and (q * 2 ^ k + r) (2 ^ k - 1) ≡ r
mask_digits zero q zero h = rw and_zero
mask_digits zero q (suc r) h = absurd (omega arith)
mask_digits (suc k) q r h =
    let w = pow-suc 2 k in
    let half : q * 2 ^ suc k ≡ 2 * (q * 2 ^ k) = omega (arith, ap (λ (t : ℕ). q * t) w) in
    let m = mask_digits k q (r / 2) (omega arith) in
    ground (arith, and_step (q * 2 ^ suc k + r) (2 ^ suc k - 1), one-le-pow k 2)

-- A mask of `k` ones keeps the remainder by `2 ^ k`.
pub and_mask : (k a : ℕ) → bit_and a (2 ^ k - 1) ≡ a % 2 ^ k
and_mask k a = ground (arith, one-le-pow k 2, mask_digits k (a / 2 ^ k) (a % 2 ^ k))

-- No operation leaves the word.
pub bitwise-lt :
    (k a b : ℕ)
    → a < 2 ^ k
    → b < 2 ^ k
    → (bit_and a b < 2 ^ k) × (bit_or a b < 2 ^ k) × (bit_xor a b < 2 ^ k)
bitwise-lt zero zero zero p q = (omega arith, omega arith, omega arith)
bitwise-lt zero (suc a) b p q = absurd (omega arith)
bitwise-lt zero zero (suc b) p q = absurd (omega arith)
bitwise-lt (suc k) a b p q =
    let e = pow-suc 2 k in
    let ih = bitwise-lt k (a / 2) (b / 2) (omega arith) (omega arith) in
    (omega (arith, and_step a b), omega (arith, or_step a b), omega (arith, xor_step a b))
