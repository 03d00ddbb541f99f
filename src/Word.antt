-- ===== src/Word.antt =====
-- The operations on `u64` and `i64` that the sources take from Rust's standard library.
-- A word is its bit pattern, a number below 2 ^ 64; an `i64` is read in two's complement.
pub mod Laws
use aziky.Prelude.{
  ℕ, zero, suc, ◌+◌, ◌-◌, ◌*◌, ◌/◌, ◌%◌, ◌^◌, bit_and, Bool, true, false, not, Option, none, some,
  ◌&&◌, ◌||◌, xor, ltb, leb, ◌==◌, if◌then◌else◌,
}

unfoldable pub wrapping_add : ℕ → ℕ → ℕ
wrapping_add a b = (a + b) % 2 ^ 64

unfoldable pub wrapping_sub : ℕ → ℕ → ℕ
wrapping_sub a b = (a + 2 ^ 64 - b) % 2 ^ 64

unfoldable pub wrapping_mul : ℕ → ℕ → ℕ
wrapping_mul a b = a * b % 2 ^ 64

-- `a << s` and `a >> s` for a count below 64.
unfoldable pub shift_left : ℕ → ℕ → ℕ
shift_left a s = a * 2 ^ s % 2 ^ 64

unfoldable pub shift_right : ℕ → ℕ → ℕ
shift_right a s = a / 2 ^ s

-- `!a`
unfoldable pub complement : ℕ → ℕ
complement a = 2 ^ 64 - 1 - a

unfoldable pub checked_div : ℕ → ℕ → Option ℕ
checked_div a b = if b == 0 then none else some (a / b)

unfoldable pub checked_rem : ℕ → ℕ → Option ℕ
checked_rem a b = if b == 0 then none else some (a % b)

abbrev pub is_negative : ℕ → Bool
is_negative a = leb (2 ^ 63) a

unfoldable pub negate : ℕ → ℕ
negate a = (2 ^ 64 - a) % 2 ^ 64

unfoldable pub magnitude : ℕ → ℕ
magnitude a = if is_negative a then 2 ^ 64 - a else a

-- `i64::checked_div` and `i64::checked_rem` fail on a zero divisor and on `i64::MIN / -1`.
abbrev pub division_fails : ℕ → ℕ → Bool
division_fails a b = b == 0 || (a == 2 ^ 63 && b == 2 ^ 64 - 1)

-- The quotient is truncated towards zero.
unfoldable pub checked_div_signed : ℕ → ℕ → Option ℕ
checked_div_signed a b =
    let q = magnitude a / magnitude b in
    if division_fails a b
    then none
    else some (if xor (is_negative a) (is_negative b) then negate q else q)

-- The remainder has the sign of the dividend.
unfoldable pub checked_rem_signed : ℕ → ℕ → Option ℕ
checked_rem_signed a b =
    let r = magnitude a % magnitude b in
    if division_fails a b then none else some (if is_negative a then negate r else r)

-- `(a as i64) >> s`: the vacated bits are copies of the sign.
unfoldable pub shift_right_signed : ℕ → ℕ → ℕ
unfolding complement shift_right
shift_right_signed a s =
    if is_negative a then complement (shift_right (complement a) s) else shift_right a s

-- The order of `i64` is that of the patterns with the sign bit flipped.
abbrev pub biased : ℕ → ℕ
biased a = (a + 2 ^ 63) % 2 ^ 64

unfoldable pub lt_signed_word : ℕ → ℕ → Bool
lt_signed_word a b = ltb (biased a) (biased b)

unfoldable pub le_signed_word : ℕ → ℕ → Bool
le_signed_word a b = leb (biased a) (biased b)

-- `u64::count_ones` and `u64::trailing_zeros`, digit by digit over a given number of digits.
unfoldable pub count_ones : ℕ → ℕ → ℕ
count_ones zero n = 0
count_ones (suc k) n = n % 2 + count_ones k (n / 2)

unfoldable pub trailing_zeros : ℕ → ℕ → ℕ
trailing_zeros zero n = 0
trailing_zeros (suc k) n = if n % 2 == 1 then 0 else suc (trailing_zeros k (n / 2))

-- The number of digits up to the highest one: `64 - n.leading_zeros()`.
unfoldable pub bit_length : ℕ → ℕ → ℕ
bit_length zero n = 0
bit_length (suc k) n = if n == 0 then 0 else suc (bit_length k (n / 2))

unfoldable pub is_power_of_two : ℕ → Bool
is_power_of_two n = count_ones 64 n == 1
