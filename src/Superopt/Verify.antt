-- ===== src/Superopt/Verify.antt =====
-- src/backend/optimizer.rs: `verify_candidate`, which tries a rewrite on a corpus of values.
use aziky.Prelude.{
  ℕ, ◌-◌, ◌^◌, Bool, true, false, ◌&&◌, Option, none, some, List, [], ◌∷◌, ◌++◌, map, ltb, ◌==◌,
  if◌then◌else◌, length, not,
}
use aziky.Prelude.Sorting.{sort_unstable, dedup}
use aziky.Ir.{RuntimeInstr}
use aziky.Lir.Slots.{read_slots}
use aziky.Superopt.Evaluate.{Environment, evaluate_pure_instruction}
use aziky.Superopt.Rewrite.{has_exact_rewrite_proof}

-- 0, 1, 2, 3, 7, 31 and the values at the ends of the 32-bit and 64-bit ranges.
abbrev pub corpus : List ℕ
corpus =
    0
    ∷ 1
    ∷ 2
    ∷ 3
    ∷ 7
    ∷ 31
    ∷ (2 ^ 32 - 1)
    ∷ 2 ^ 32
    ∷ (2 ^ 63 - 1)
    ∷ 2 ^ 63
    ∷ (2 ^ 64 - 2)
    ∷ (2 ^ 64 - 1)
    ∷ []

abbrev pub empty_environment : Environment
empty_environment s = none

abbrev pub insert : ℕ → ℕ → Environment → Environment
insert s value environment t = if s == t then some value else environment t

-- Every environment once for each value of the corpus in the slot.
abbrev pub with_values : ℕ → Environment → List ℕ → List Environment
with_values s environment values = map (λ value. insert s value environment) values

unfoldable pub expand : ℕ → List Environment → List Environment
expand s [] = []
expand s (environment ∷ rest) = with_values s environment corpus ++ expand s rest

unfoldable pub environments_of : List ℕ → List Environment → List Environment
environments_of [] environments = environments
environments_of (s ∷ slots) environments = environments_of slots (expand s environments)

-- The derived equality of `Option<(usize, u64)>`.
abbrev pub results_equal : Option (ℕ × ℕ) → Option (ℕ × ℕ) → Bool
results_equal none none = true
results_equal (some (s, v)) (some (t, w)) = s == t && v == w
results_equal _ _ = false

unfoldable pub agree_on : RuntimeInstr → RuntimeInstr → List Environment → Bool
agree_on original candidate [] = true
agree_on original candidate (environment ∷ rest) =
    results_equal (evaluate_pure_instruction original environment)
      (evaluate_pure_instruction candidate environment)
    && agree_on original candidate rest

-- The slots whose values the corpus ranges over.
unfoldable pub candidate_slots : RuntimeInstr → RuntimeInstr → List ℕ
candidate_slots original candidate =
    dedup (sort_unstable (read_slots original ++ read_slots candidate))

unfoldable pub verify_candidate : RuntimeInstr → RuntimeInstr → Bool
verify_candidate original candidate =
    let slots = candidate_slots original candidate in
    if not (has_exact_rewrite_proof original candidate)
    then false
    else if ltb 2 (length slots)
    then false
    else agree_on original candidate (environments_of slots (empty_environment ∷ []))
