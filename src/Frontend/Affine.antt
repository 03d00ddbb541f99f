-- ===== src/Frontend/Affine.antt =====
-- src/frontend/optimizer.rs: the effect of many rounds of an affine loop, by repeated squaring.
use aziky.Prelude.{ℕ, zero, suc, ◌-◌, ◌/◌, ◌%◌, ◌^◌, bit_and, Bool, ◌||◌, ◌==◌, if◌then◌else◌}
use aziky.Word.{wrapping_add, wrapping_mul}

-- One round of `while exp > 0` halves `exp`, so the digits of a word are fuel enough.
unfoldable pub affine_pow_loop : ℕ → ℕ → ℕ → ℕ → ℕ → ℕ → ℕ × ℕ
affine_pow_loop zero mul add acc_mul acc_add exp = (acc_mul, acc_add)
affine_pow_loop (suc fuel) mul add acc_mul acc_add exp =
    let acc_add' = wrapping_add (wrapping_mul acc_add mul) add in
    let acc_mul' = wrapping_mul acc_mul mul in
    let odd = exp % 2 == 1 in
    let next_mul = wrapping_mul mul mul in
    let next_add = wrapping_add (wrapping_mul add mul) add in
    let rest =
      affine_pow_loop fuel next_mul next_add (if odd then acc_mul' else acc_mul)
        (if odd then acc_add' else acc_add) (exp / 2) in
    if exp == 0 then (acc_mul, acc_add) else rest

unfoldable pub affine_pow : ℕ → ℕ → ℕ → ℕ × ℕ
affine_pow mul add exp = affine_pow_loop 64 mul add 1 0 exp

pub record AffineIndexTransform : Type 0 where
  pub state_mul : ℕ
  pub index_mul : ℕ
  pub add : ℕ
  pub index_delta : ℕ

abbrev pub identity : AffineIndexTransform
identity = record { state_mul = 1; index_mul = 0; add = 0; index_delta = 0 }

abbrev pub step : ℕ → ℕ → ℕ → AffineIndexTransform
step state_mul index_mul add = record {
  state_mul = state_mul;
  index_mul = index_mul;
  add = add;
  index_delta = 1;
}

unfoldable pub compose_affine_index :
    AffineIndexTransform → AffineIndexTransform → AffineIndexTransform
compose_affine_index first second = record {
  state_mul = wrapping_mul second.state_mul first.state_mul;
  index_mul = wrapping_add (wrapping_mul second.state_mul first.index_mul) second.index_mul;
  add =
      wrapping_add
        (wrapping_add (wrapping_mul second.state_mul first.add)
          (wrapping_mul second.index_mul first.index_delta))
        second.add;
  index_delta = wrapping_add first.index_delta second.index_delta;
}

unfoldable pub affine_index_loop :
    ℕ → AffineIndexTransform → AffineIndexTransform → ℕ → AffineIndexTransform
affine_index_loop zero base acc exp = acc
affine_index_loop (suc fuel) base acc exp =
    let rest =
      affine_index_loop fuel (compose_affine_index base base)
        (if exp % 2 == 1 then compose_affine_index acc base else acc) (exp / 2) in
    if exp == 0 then acc else rest

unfoldable pub affine_index_pow : ℕ → ℕ → ℕ → ℕ → ℕ × ℕ × ℕ
affine_index_pow step_a step_b step_c iterations =
    let acc = affine_index_loop 64 (step step_a step_b step_c) identity iterations in
    (acc.state_mul, acc.index_mul, acc.add)

-- `mask & mask.wrapping_add(1) == 0`, or all ones.
unfoldable pub is_low_bits_mask : ℕ → Bool
is_low_bits_mask mask = mask == 2 ^ 64 - 1 || bit_and mask (wrapping_add mask 1) == 0

-- The three factors of a transform under a mask.
abbrev pub masked : ℕ → AffineIndexTransform → AffineIndexTransform
masked mask t = record t {
  state_mul = bit_and t.state_mul mask;
  index_mul = bit_and t.index_mul mask;
  add = bit_and t.add mask;
}

unfoldable pub affine_index_masked_loop :
    ℕ → ℕ → AffineIndexTransform → AffineIndexTransform → ℕ → AffineIndexTransform
affine_index_masked_loop zero mask base acc exp = acc
affine_index_masked_loop (suc fuel) mask base acc exp =
    let rest =
      affine_index_masked_loop fuel mask (masked mask (compose_affine_index base base))
        (if exp % 2 == 1 then masked mask (compose_affine_index acc base) else acc) (exp / 2) in
    if exp == 0 then acc else rest

unfoldable pub affine_index_pow_masked : ℕ → ℕ → ℕ → ℕ → ℕ → ℕ × ℕ × ℕ
affine_index_pow_masked state_mul index_mul add exp mask =
    let acc = affine_index_masked_loop 64 mask (step state_mul index_mul add) identity exp in
    (acc.state_mul, acc.index_mul, acc.add)
