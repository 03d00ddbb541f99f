-- ===== src/Frontend/BoundsEnds.antt =====
-- src/frontend/optimizer.rs: the analysis of bounds ends.
use aziky.Prelude.{
  ℕ, suc, ◌+◌, ◌-◌, ◌^◌, ◌≤◌, ◌<◌, max, refl, arith, Bool, true, false, not, ◌||◌, Option, none,
  some, List, [], ◌∷◌, sum_of, ==_refl, All, inl, inr, Bool-cases, ◌==◌,
}
use aziky.Frontend.SlotFacts.{
  SlotFacts, zip_with, merged_exact, options_equal, merge_slot_facts, merge_fact_vectors,
}
use aziky.Frontend.FactWords.{FactsFit, KnownFits}

-- How often facts can still be weakened.
abbrev pub upper_height : Option ℕ → ℕ
upper_height none = 0
upper_height (some u) = suc (2 ^ 64 - u)

abbrev pub exact_height : Option ℕ → ℕ
exact_height none = 0
exact_height (some e) = 1

abbrev pub facts_height : SlotFacts → ℕ
facts_height facts = upper_height facts.upper + exact_height facts.exact

pub facts_height-le : (f : SlotFacts) → facts_height f ≤ 2 ^ 64 + 2
facts_height-le f = omega (arith, upper_le f.upper, exact_le f.exact)
  where
    upper_le : (u : Option ℕ) → upper_height u ≤ 2 ^ 64 + 1
    upper_le none = omega arith
    upper_le (some u) = omega arith

    exact_le : (e : Option ℕ) → exact_height e ≤ 1
    exact_le none = omega arith
    exact_le (some e) = omega arith

-- `Less h h' changed`: no higher, and lower where there was a change.
abbrev pub Lower : ℕ → ℕ → Bool → Type 0
Lower h h' true = h < h'
Lower h h' false = h ≤ h'

upper_descends :
    (u u' : Option ℕ)
    → KnownFits u'
    → Lower
        (upper_height (zip_with (λ a b. some (max a b)) u u'))
        (upper_height u)
        (not (options_equal u (zip_with (λ a b. some (max a b)) u u')))
upper_descends none u' k = omega arith
upper_descends (some a) none k = omega arith
upper_descends (some a) (some b) k = elim (Bool-cases (a == max a b)) [
  | inl same ↦ rw same (omega arith)
  | inr other ↦ rw other (ground (arith, k b refl))
]

exact_descends :
    (e e' : Option ℕ)
    → Lower
        (exact_height (merged_exact e e'))
        (exact_height e)
        (not (options_equal e (merged_exact e e')))
exact_descends none e' = omega arith
exact_descends (some a) none = omega arith
exact_descends (some a) (some b) = elim (Bool-cases (a == b)) [
  | inl same ↦ rw same (rw (==_refl a) (omega arith))
  | inr other ↦ rw other (omega arith)
]

descends_sum :
    (a a' b b' : ℕ) (c d : Bool) → Lower a a' c → Lower b b' d → Lower (a + b) (a' + b') (c || d)
descends_sum a a' b b' true true h k = omega arith
descends_sum a a' b b' true false h k = omega arith
descends_sum a a' b b' false true h k = omega arith
descends_sum a a' b b' false false h k = omega arith

merge_slot_facts_descends :
    (d s : SlotFacts)
    → FactsFit s
    → Lower (facts_height (merge_slot_facts d s).0) (facts_height d) (merge_slot_facts d s).1
unfolding merge_slot_facts
merge_slot_facts_descends d s f =
    descends_sum _ _ _ _ _ _ (upper_descends d.upper s.upper f.0) (exact_descends d.exact s.exact)

pub merge_fact_vectors_descend :
    (dst src : List SlotFacts)
    → All FactsFit src
    → Lower
        (sum_of facts_height (merge_fact_vectors dst src).0)
        (sum_of facts_height dst)
        (merge_fact_vectors dst src).1
unfolding merge_fact_vectors
merge_fact_vectors_descend [] src f = omega arith
merge_fact_vectors_descend (d ∷ dst) [] f = omega arith
merge_fact_vectors_descend (d ∷ dst) (s ∷ src) (f, fs) =
    descends_sum _ _ _ _ _ _ (merge_slot_facts_descends d s f)
      (merge_fact_vectors_descend dst src fs)
