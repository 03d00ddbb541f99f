-- ===== src/Frontend/MergeFits.antt =====
-- src/frontend/optimizer.rs: merged facts are words, and how high they stand.
use aziky.Prelude.{
  ℕ, ◌+◌, ◌*◌, ◌^◌, ◌≤◌, max, refl, arith, Option, none, some, [], ◌∷◌, length, sum_of, All,
}
use aziky.Frontend.SlotFacts.{
  SlotFacts, zip_with, merged_exact, merge_slot_facts, merge_fact_vectors,
}
use aziky.Frontend.FactWords.{FactsFit, KnownFits}
use aziky.Frontend.BoundsEnds.{facts_height, facts_height-le}
use aziky.Frontend.Bounds.{Facts}

merge_slot_facts-fits :
    (d s : SlotFacts) → FactsFit d → FactsFit s → FactsFit (merge_slot_facts d s).0
unfolding merge_slot_facts
merge_slot_facts-fits d s f g = (upper d.upper s.upper f.0 g.0, exact d.exact s.exact f.1)
  where
    upper :
        (u u' : Option ℕ)
        → KnownFits u
        → KnownFits u'
        → KnownFits (zip_with (λ a b. some (max a b)) u u')
    upper (some a) (some b) k k' w e = ground (arith, k a refl, k' b refl)
    upper (some a) none k k' w e = absurd (cc)
    upper none _ k k' w e = absurd (cc)

    exact : (e e' : Option ℕ) → KnownFits e → KnownFits (merged_exact e e')
    exact (some a) (some b) k w e = ground (arith, k a refl)
    exact (some a) none k w e = absurd (cc)
    exact none _ k w e = absurd (cc)

pub merge_fact_vectors-fits :
    (dst src : Facts)
    → All FactsFit dst
    → All FactsFit src
    → All FactsFit (merge_fact_vectors dst src).0
unfolding merge_fact_vectors
merge_fact_vectors-fits [] src f g = tt
merge_fact_vectors-fits (d ∷ dst) [] f g = f
merge_fact_vectors-fits (d ∷ dst) (s ∷ src) (f, fs) (g, gs) =
    (merge_slot_facts-fits d s f g, merge_fact_vectors-fits dst src fs gs)

pub sum_height-le : (facts : Facts) → sum_of facts_height facts ≤ length facts * (2 ^ 64 + 2)
sum_height-le [] = omega arith
sum_height-le (f ∷ facts) = omega (arith, facts_height-le f, sum_height-le facts)
