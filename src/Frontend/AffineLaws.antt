-- ===== src/Frontend/AffineLaws.antt =====
-- src/frontend/optimizer.rs: repeated squaring computes what the loop would.
use native.Mathlib.Nat.{
  add-mul-mod_self_left, mod-add-div, mod-add-mod, add-mod-mod, mod-mod, pow-suc,
}
use aziky.Prelude.{
  ℕ, zero, suc, ◌+◌, ◌*◌, ◌/◌, ◌%◌, ◌^◌, ◌<◌, ◌≡◌, refl, sym, ap, ◌∙◌, arith, true, false, ◌==◌,
  Bool-cases, inl, inr, ==_iff,
}
use aziky.Ir.{IsWord}
use aziky.Word.{wrapping_add, wrapping_mul}
use aziky.Frontend.Affine.{
  affine_pow_loop, affine_pow, AffineIndexTransform, identity, step, compose_affine_index,
  affine_index_loop, affine_index_pow,
}

-- `n` rounds of a function.
abbrev pub iterate {ℓ} : {A : Type ℓ} → ℕ → (A → A) → A → A
iterate zero f x = x
iterate (suc n) f x = iterate n f (f x)

iterate-add {ℓ} :
    {A : Type ℓ} (m n : ℕ) (f : A → A) (x : A) → iterate (m + n) f x ≡ iterate n f (iterate m f x)
iterate-add zero n f x = let e : 0 + n ≡ n = omega arith in ap (λ k. iterate k f x) e
iterate-add (suc m) n f x =
    let e : suc m + n ≡ suc (m + n) = omega arith in
    ap (λ k. iterate k f x) e ∙ iterate-add m n f (f x)

-- Twice as many rounds are as many rounds of the function after itself.
iterate_square {ℓ} :
    {A : Type ℓ} (n : ℕ) (f g : A → A)
    → ((x : A) → g x ≡ f (f x))
    → (x : A) → iterate n g x ≡ iterate (2 * n) f x
iterate_square zero f g h x = let e : 0 ≡ 2 * 0 = omega arith in ap (λ k. iterate k f x) e
iterate_square (suc n) f g h x =
    let e : suc (suc (2 * n)) ≡ 2 * suc n = omega arith in
    ap (iterate n g) (h x) ∙ (iterate_square n f g h (f (f x)) ∙ ap (λ k. iterate k f x) e)

-- A round of squaring: `g` is two rounds of `f`, and an odd count has been counted down.
pub square_round {ℓ} :
    {A : Type ℓ} (f g : A → A) (exp : ℕ) (start start' : A)
    → ((x : A) → g x ≡ f (f x))
    → ((exp % 2 == 1) ≡ true → start' ≡ f start)
    → ((exp % 2 == 1) ≡ false → start' ≡ start)
    → iterate (exp / 2) g start' ≡ iterate exp f start
square_round f g exp start start' h odd even = elim (Bool-cases (exp % 2 == 1)) [
  | inl is_odd ↦
      let count : suc (2 * (exp / 2)) ≡ exp = ground arith in
      iterate_square (exp / 2) f g h start'
      ∙ (ap (iterate (2 * (exp / 2)) f) (odd is_odd) ∙ ap (λ k. iterate k f start) count)
  | inr is_even ↦
      let count : 2 * (exp / 2) ≡ exp = ground arith in
      iterate_square (exp / 2) f g h start'
      ∙ (ap (iterate (2 * (exp / 2)) f) (even is_even) ∙ ap (λ k. iterate k f start) count)
]

module _ (m : ℕ) where
  pub mul_mod_left : (a b : ℕ) → a % m * b % m ≡ a * b % m
  mul_mod_left a b =
      let e : a * b ≡ a % m * b + m * (a / m * b) = grind (arith, mod-add-div a m) in
      sym (ap (λ t. t % m) e ∙ add-mul-mod_self_left (a % m * b) m (a / m * b))

  pub mul_mod_right : (a b : ℕ) → a * (b % m) % m ≡ a * b % m
  mul_mod_right a b =
      ap (λ t. t % m) (omega arith) ∙ (mul_mod_left b a ∙ ap (λ t. t % m) (omega arith))

-- `x * mul + add` on words.
abbrev pub affine : ℕ → ℕ → ℕ → ℕ
affine mul add x = wrapping_add (wrapping_mul x mul) add

abbrev pub modulus : ℕ
modulus = 2 ^ 64

ruleset word_laws = (mod-add-mod, add-mod-mod, mod-mod, mul_mod_left, mul_mod_right)

affine-compose :
    (m1 a1 m2 a2 x : ℕ)
    → affine (wrapping_mul m1 m2) (wrapping_add (wrapping_mul a1 m2) a2) x
      ≡ affine m2 a2 (affine m1 a1 x)
unfolding wrapping_add wrapping_mul
affine-compose m1 a1 m2 a2 x =
    let ring : x * (m1 * m2) + (a1 * m2 + a2) ≡ (x * m1 + a1) * m2 + a2 = grind arith in
    simp word_laws (ap (λ t. t % 2 ^ 64) ring)

abbrev run : AffineIndexTransform → ℕ × ℕ → ℕ × ℕ
run t (state, index) = (
  wrapping_add (wrapping_add (wrapping_mul t.state_mul state) (wrapping_mul t.index_mul index))
      t.add,
  wrapping_add index t.index_delta,
)

run-compose :
    (first second : AffineIndexTransform) (x : ℕ × ℕ)
    → run (compose_affine_index first second) x ≡ run second (run first x)
unfolding compose_affine_index wrapping_add wrapping_mul
run-compose first second (state, index) =
    let a = first in
    let b = second in
    let ring : b.state_mul * a.state_mul * state
          + (b.state_mul * a.index_mul + b.index_mul) * index
          + (b.state_mul * a.add + b.index_mul * a.index_delta + b.add)
        ≡ b.state_mul * (a.state_mul * state + a.index_mul * index + a.add)
          + b.index_mul * (index + a.index_delta)
          + b.add =
      grind arith in
    let moved : index + (a.index_delta + b.index_delta) ≡ index + a.index_delta + b.index_delta =
      omega arith in
    simp word_laws (λ i. (ring i % 2 ^ 64, moved i % 2 ^ 64))

-- The loop's accumulator, after the rounds that are left.
affine_pow_loop_lem :
    (fuel mul add acc_mul acc_add exp x : ℕ)
    → exp < 2 ^ fuel
    → affine
        (affine_pow_loop fuel mul add acc_mul acc_add exp).0
        (affine_pow_loop fuel mul add acc_mul acc_add exp).1
        x
      ≡ iterate exp (affine mul add) (affine acc_mul acc_add x)
unfolding affine_pow_loop
affine_pow_loop_lem zero mul add acc_mul acc_add exp x h =
    let none_left : 0 ≡ exp = omega arith in
    ap (λ k. iterate k (affine mul add) (affine acc_mul acc_add x)) none_left
affine_pow_loop_lem (suc fuel) mul add acc_mul acc_add exp x h = elim (Bool-cases (exp == 0)) [
  | inl done ↦ rw done (
      ap (λ k. iterate k (affine mul add) (affine acc_mul acc_add x)) (sym ((==_iff exp 0).0 done)))
  | inr more ↦ rw more (
      affine_pow_loop_lem fuel (wrapping_mul mul mul) (wrapping_add (wrapping_mul add mul) add) _ _
        (exp / 2) x (omega (arith, pow-suc 2 fuel))
      ∙ square_round (affine mul add) _ exp _ _ (affine-compose mul add mul add)
          (λ odd. rw odd (affine-compose acc_mul acc_add mul add x)) (λ even. rw even refl))
]

affine_index_loop_lem :
    (fuel : ℕ) (base acc : AffineIndexTransform) (exp : ℕ) (x : ℕ × ℕ)
    → exp < 2 ^ fuel
    → run (affine_index_loop fuel base acc exp) x ≡ iterate exp (run base) (run acc x)
unfolding affine_index_loop
affine_index_loop_lem zero base acc exp x h =
    let none_left : 0 ≡ exp = omega arith in ap (λ k. iterate k (run base) (run acc x)) none_left
affine_index_loop_lem (suc fuel) base acc exp x h = elim (Bool-cases (exp == 0)) [
  | inl done ↦ rw done (ap (λ k. iterate k (run base) (run acc x)) (sym ((==_iff exp 0).0 done)))
  | inr more ↦ rw more (
      affine_index_loop_lem fuel (compose_affine_index base base) _ (exp / 2) x
        (omega (arith, pow-suc 2 fuel))
      ∙ square_round (run base) _ exp _ _ (run-compose base base)
          (λ odd. rw odd (run-compose acc base x)) (λ even. rw even refl))
]

-- For a word x and a count below 2 ^ 64, the pair that affine_pow gives takes x at once to where
-- that many rounds of x * mul + add take it.
pub affine_pow_lem :
    (mul add exp x : ℕ)
    → IsWord x
    → IsWord exp
    → affine (affine_pow mul add exp).0 (affine_pow mul add exp).1 x
      ≡ iterate exp (affine mul add) x
unfolding affine_pow wrapping_add wrapping_mul
affine_pow_lem mul add exp x h k =
    let start : (x * 1 % 2 ^ 64 + 0) % 2 ^ 64 ≡ x = omega arith in
    affine_pow_loop_lem 64 mul add 1 0 exp x k ∙ ap (iterate exp (affine mul add)) start

-- One round of a loop over a state and an index, on words.
abbrev pub affine_index : ℕ → ℕ → ℕ → ℕ × ℕ → ℕ × ℕ
affine_index step_a step_b step_c (state, index) = (
  wrapping_add (wrapping_add (wrapping_mul step_a state) (wrapping_mul step_b index)) step_c,
  wrapping_add index 1,
)

-- For words and a count below 2 ^ 64, the triple that affine_index_pow gives takes the state at once
-- to where that many rounds over the state and the index take it.
pub affine_index_pow_lem :
    (step_a step_b step_c iterations state index : ℕ)
    → IsWord state
    → IsWord index
    → IsWord iterations
    → wrapping_add
        (wrapping_add
          (wrapping_mul (affine_index_pow step_a step_b step_c iterations).0 state)
          (wrapping_mul (affine_index_pow step_a step_b step_c iterations).1 index))
        (affine_index_pow step_a step_b step_c iterations).2
      ≡ (iterate iterations (affine_index step_a step_b step_c) (state, index)).0
unfolding affine_index_pow wrapping_add wrapping_mul
affine_index_pow_lem a b c n state index h k l =
    let first : ((1 * state % 2 ^ 64 + 0 * index % 2 ^ 64) % 2 ^ 64 + 0) % 2 ^ 64 ≡ state =
      omega arith in
    let second : (index + 0) % 2 ^ 64 ≡ index = omega arith in
    let start : run identity (state, index) ≡ (state, index) = λ i. (first i, second i) in
    ap (λ p. p.0)
      (affine_index_loop_lem 64 (step a b c) identity n (state, index) l
        ∙ ap (iterate n (affine_index a b c)) start)
