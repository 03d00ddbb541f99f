-- ===== src/Frontend/AffineMasked.antt =====
-- src/frontend/optimizer.rs: repeated squaring under a mask computes what the masked loop would.
use native.Mathlib.Nat.{mod-mod, mod-mod_of_dvd, dvd-mul_right, add-mod, pow-suc, one-le-pow}
use aziky.Prelude.{
  ℕ, zero, suc, ◌+◌, ◌-◌, ◌*◌, ◌/◌, ◌%◌, ◌^◌, ◌≤◌, ◌<◌, ◌≡◌, refl, sym, ap, ◌∙◌, arith, bit_and,
  true, ◌==◌, Bool-cases, inl, inr, ==_iff, ◌⊎◌,
}
use aziky.Prelude.Bits.{and_mask, and_step, and_self}
use aziky.Ir.{IsWord}
use aziky.Word.{wrapping_add, wrapping_mul}
use aziky.Frontend.Affine.{
  AffineIndexTransform, identity, step, compose_affine_index, is_low_bits_mask, masked,
  affine_index_masked_loop, affine_index_pow_masked,
}
use aziky.Frontend.AffineLaws.{iterate, square_round, mul_mod_left, mul_mod_right}

-- A remainder by a power of two is kept by a remainder by a larger power first.
mod_pow : (j k n a : ℕ) → n ≡ k + j → a % 2 ^ n % 2 ^ k ≡ a % 2 ^ k
mod_pow zero k n a e = let same : n ≡ k = omega arith in rw same (mod-mod a (2 ^ k))
mod_pow (suc j) k zero a e = absurd (omega arith)
mod_pow (suc j) k (suc n) a e =
    let ih = mod_pow j k n a (omega arith) in
    let ih' = mod_pow j k n (a % 2 ^ suc n) (omega arith) in
    let halves : a % 2 ^ suc n % 2 ^ n ≡ a % 2 ^ n =
      rw (pow-suc 2 n) (mod-mod_of_dvd (2 ^ n) a (dvd-mul_right (2 ^ n) 2)) in
    sym ih' ∙ (ap (λ t. t % 2 ^ k) halves ∙ ih)

-- Equal in the lowest `k` digits.
record Cong (k a b : ℕ) : Type 0 where
  pub digits_eq : a % 2 ^ k ≡ b % 2 ^ k

same : {k a : ℕ} → Cong k a a
same = record { digits_eq = refl }

Cong-add : {k a a' b b' : ℕ} → Cong k a a' → Cong k b b' → Cong k (a + b) (a' + b')
Cong-add {k} {a} {a'} {b} {b'} h h' = record {
  digits_eq =
      add-mod a b (2 ^ k) ∙ (rw (h.digits_eq, h'.digits_eq) refl ∙ sym (add-mod a' b' (2 ^ k)));
}

Cong-mul : {k a a' b b' : ℕ} → Cong k a a' → Cong k b b' → Cong k (a * b) (a' * b')
Cong-mul {k} {a} {a'} {b} {b'} h h' = record {
  digits_eq =
      sym (mul_mod_left (2 ^ k) a b)
      ∙ (ap (λ t. t * b % 2 ^ k) h.digits_eq
          ∙ (mul_mod_left (2 ^ k) a' b
              ∙ (sym (mul_mod_right (2 ^ k) a' b)
                  ∙ (ap (λ t. a' * t % 2 ^ k) h'.digits_eq ∙ mul_mod_right (2 ^ k) a' b'))));
}

Cong-of_word : (k a : ℕ) → k ≤ 64 → Cong k (a % 2 ^ 64) a
Cong-of_word k a p = record { digits_eq = mod_pow (64 - k) k 64 a (omega arith) }

Cong-trans : {k a b c : ℕ} → Cong k a b → Cong k b c → Cong k a c
Cong-trans {k} {a} {b} {c} h h' = record { digits_eq = h.digits_eq ∙ h'.digits_eq }

Cong-sym : {k a b : ℕ} → Cong k a b → Cong k b a
Cong-sym h = record { digits_eq = sym h.digits_eq }

Cong-eq : {k a b : ℕ} → a ≡ b → Cong k a b
Cong-eq {k} e = record { digits_eq = ap (λ t. t % 2 ^ k) e }

module _ {k : ℕ} (p : k ≤ 64) where
  sum_Cong : {a a' b b' : ℕ} → Cong k a a' → Cong k b b' → Cong k (wrapping_add a b) (a' + b')
  unfolding wrapping_add
  sum_Cong {a} {a'} {b} {b'} h h' = Cong-trans (Cong-of_word k (a + b) p) (Cong-add h h')

  product_Cong : {a a' b b' : ℕ} → Cong k a a' → Cong k b b' → Cong k (wrapping_mul a b) (a' * b')
  unfolding wrapping_mul
  product_Cong {a} {a'} {b} {b'} h h' = Cong-trans (Cong-of_word k (a * b) p) (Cong-mul h h')

  mask : {a a' : ℕ} → Cong k a a' → Cong k (bit_and a (2 ^ k - 1)) a'
  mask {a} {a'} h = record {
    digits_eq = ap (λ t. t % 2 ^ k) (and_mask k a) ∙ (mod-mod a (2 ^ k) ∙ h.digits_eq);
  }

  -- Where the low digits agree, so do the masked values.
  masked_eq : {a b : ℕ} → Cong k a b → bit_and a (2 ^ k - 1) ≡ bit_and b (2 ^ k - 1)
  masked_eq {a} {b} h = and_mask k a ∙ (h.digits_eq ∙ sym (and_mask k b))

  -- What a transform makes of a state and an index, the state under the mask.
  abbrev run : AffineIndexTransform → ℕ × ℕ → ℕ × ℕ
  run t (state, index) = (
    bit_and
        (wrapping_add
          (wrapping_add (wrapping_mul t.state_mul state) (wrapping_mul t.index_mul index)) t.add)
        (2 ^ k - 1),
    wrapping_add index t.index_delta,
  )

  index_moved : (i a b : ℕ) → wrapping_add i (wrapping_add a b) ≡ wrapping_add (wrapping_add i a) b
  unfolding wrapping_add
  index_moved i a b = omega arith

  run-masked-compose :
      (a b : AffineIndexTransform) (x : ℕ × ℕ)
      → run (masked (2 ^ k - 1) (compose_affine_index a b)) x ≡ run b (run a x)
  unfolding compose_affine_index
  run-masked-compose a b (state, index) =
      let ring : b.state_mul * a.state_mul * state
            + (b.state_mul * a.index_mul + b.index_mul) * index
            + (b.state_mul * a.add + b.index_mul * a.index_delta + b.add)
          ≡ b.state_mul * (a.state_mul * state + a.index_mul * index + a.add)
            + b.index_mul * (index + a.index_delta)
            + b.add =
        grind arith in
      let left =
        sum_Cong
          (sum_Cong (product_Cong (mask (product_Cong same same)) same)
            (product_Cong (mask (sum_Cong (product_Cong same same) same)) same))
          (mask (sum_Cong (sum_Cong (product_Cong same same) (product_Cong same same)) same)) in
      let right =
        sum_Cong
          (sum_Cong
            (product_Cong same
              (mask (sum_Cong (sum_Cong (product_Cong same same) (product_Cong same same)) same)))
            (product_Cong same (sum_Cong same same)))
          same in
      let moved = masked_eq (Cong-trans left (Cong-trans (Cong-eq ring) (Cong-sym right))) in
      λ i. (moved i, index_moved index a.index_delta b.index_delta i)

  affine_index_masked_loop_lem :
      (fuel : ℕ) (base acc : AffineIndexTransform) (exp : ℕ) (x : ℕ × ℕ)
      → exp < 2 ^ fuel
      → run (affine_index_masked_loop fuel (2 ^ k - 1) base acc exp) x
        ≡ iterate exp (run base) (run acc x)
  unfolding affine_index_masked_loop
  affine_index_masked_loop_lem zero base acc exp x h =
      let none_left : 0 ≡ exp = omega arith in ap (λ n. iterate n (run base) (run acc x)) none_left
  affine_index_masked_loop_lem (suc fuel) base acc exp x h = elim (Bool-cases (exp == 0)) [
    | inl done ↦ rw done (ap (λ n. iterate n (run base) (run acc x)) (sym ((==_iff exp 0).0 done)))
    | inr more ↦ rw more (
        affine_index_masked_loop_lem fuel (masked (2 ^ k - 1) (compose_affine_index base base)) _
          (exp / 2) x (omega (arith, pow-suc 2 fuel))
        ∙ square_round (run base) _ exp _ _ (run-masked-compose base base)
            (λ odd. rw odd (run-masked-compose acc base x)) (λ even. rw even refl))
  ]

  -- The first round takes the mask of the state in place of the state.
  run_start :
      (t : AffineIndexTransform) (state index : ℕ)
      → IsWord index
      → run t (run identity (state, index)) ≡ run t (state, index)
  unfolding wrapping_add wrapping_mul
  run_start t state index h =
      let plain : (index + 0) % 2 ^ 64 ≡ index = omega arith in
      let start : Cong k (((1 * state % 2 ^ 64 + 0 * index % 2 ^ 64) % 2 ^ 64 + 0) % 2 ^ 64) state =
        Cong-trans (sum_Cong (sum_Cong (product_Cong same same) (product_Cong same same)) same)
          (Cong-eq (omega arith)) in
      let moved = masked_eq (
        sum_Cong
          (sum_Cong (product_Cong {a = t.state_mul} same (mask start))
            (product_Cong {a = t.index_mul} {b = index} same same))
          (same {a = t.add})) in
      let plainly = masked_eq (
        sum_Cong
          (sum_Cong (product_Cong {a = t.state_mul} {b = state} same same)
            (product_Cong {a = t.index_mul} {b = index} same same))
          (same {a = t.add})) in
      let first = moved ∙ sym plainly in rw plain (λ i. (first i, wrapping_add index t.index_delta))

parity : (n : ℕ) → (n % 2 ≡ 0) ⊎ (n % 2 ≡ 1)
parity n = omega arith

-- A mask that the test accepts is a row of ones.
row_of_ones :
    (k mask : ℕ)
    → mask < 2 ^ k
    → bit_and mask (mask + 1) ≡ 0
    → (n : ℕ) × (n ≤ k) × (mask ≡ 2 ^ n - 1)
row_of_ones zero mask h e = (0, omega arith, omega arith)
row_of_ones (suc k) mask h e = elim (parity mask) [
  | inl even ↦
      let up : (mask + 1) / 2 ≡ mask / 2 = omega arith in
      (
        0,
        omega arith,
        omega (arith, and_step mask (mask + 1), and_self (mask / 2), ap (bit_and (mask / 2)) up),
      )
  | inr odd ↦
      let up : (mask + 1) / 2 ≡ mask / 2 + 1 = omega arith in
      let (n, small, ones) =
        row_of_ones k (mask / 2) (omega (arith, pow-suc 2 k))
          (omega (arith, and_step mask (mask + 1), ap (bit_and (mask / 2)) up)) in
      (suc n, omega arith, omega (arith, pow-suc 2 n, one-le-pow n 2 (omega arith)))
]

is_low_bits_mask-ones :
    (mask : ℕ)
    → IsWord mask
    → is_low_bits_mask mask ≡ true
    → (n : ℕ) × (n ≤ 64) × (mask ≡ 2 ^ n - 1)
unfolding is_low_bits_mask wrapping_add
is_low_bits_mask-ones mask h e = elim (Bool-cases (mask == 2 ^ 64 - 1)) [
  | inl all ↦ (64, omega arith, (==_iff mask (2 ^ 64 - 1)).0 all)
  | inr some_clear ↦
      let clear = (==_iff _ 0).0 (rw some_clear at e) in
      let next : (mask + 1) % 2 ^ 64 ≡ mask + 1 = ground arith in
      row_of_ones 64 mask h (rw next at clear)
]

-- A round of the loop over a state and an index, the state under a mask.
abbrev pub masked_round : ℕ → ℕ → ℕ → ℕ → ℕ × ℕ → ℕ × ℕ
masked_round mask state_mul index_mul add (state, index) = (
  bit_and
      (wrapping_add (wrapping_add (wrapping_mul state_mul state) (wrapping_mul index_mul index))
        add)
      mask,
  wrapping_add index 1,
)

-- For a mask of low bits, a positive count of rounds and words, the triple that
-- affine_index_pow_masked gives takes the state at once to where that many rounds under the mask
-- take it.
pub affine_index_pow_masked_lem :
    (state_mul index_mul add exp mask state index : ℕ)
    → IsWord mask
    → is_low_bits_mask mask ≡ true
    → IsWord exp
    → 0 < exp
    → IsWord index
    → bit_and
        (wrapping_add
          (wrapping_add
            (wrapping_mul (affine_index_pow_masked state_mul index_mul add exp mask).0 state)
            (wrapping_mul (affine_index_pow_masked state_mul index_mul add exp mask).1 index))
          (affine_index_pow_masked state_mul index_mul add exp mask).2)
        mask
      ≡ (iterate exp (masked_round mask state_mul index_mul add) (state, index)).0
unfolding affine_index_pow_masked
affine_index_pow_masked_lem a b c zero mask state index h low l pos i = absurd (omega arith)
affine_index_pow_masked_lem a b c (suc exp) mask state index h low l pos i =
    let (n, bound, ones) = is_low_bits_mask-ones mask h low in
    rw ones (
      let rounds =
        affine_index_masked_loop_lem bound 64 (step a b c) identity (suc exp) (state, index) l in
      ap (λ p. p.0)
        (rounds
          ∙ ap (iterate exp (run bound (step a b c))) (run_start bound (step a b c) state index i)))
