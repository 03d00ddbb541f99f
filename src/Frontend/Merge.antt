-- ===== src/Frontend/Merge.antt =====
-- src/frontend/optimizer.rs: merged facts allow what either of the merged facts does.
use aziky.Prelude.{
  ℕ, zero, suc, max, ◌≡◌, refl, sym, ap, arith, Bool, true, false, not, ◌||◌, Option, none, some,
  List, [], ◌∷◌, length, ==_iff, inl, inr, ◌⊎◌,
}
use aziky.Frontend.Known.{Known}
use aziky.Frontend.SlotFacts.{
  SlotFacts, unknown_facts, facts_at, zip_with, merged_exact, options_equal, merge_slot_facts,
  merge_fact_vectors,
}
use aziky.Frontend.Masks.{Bounded, Describes}

-- What the first facts allow, the second do.
abbrev pub Implies : SlotFacts → SlotFacts → Type 0
Implies f g = (v : ℕ) → Describes f v → Describes g v

abbrev pub AllImply : List SlotFacts → List SlotFacts → Type 0
AllImply facts facts' = (s : ℕ) → Implies (facts_at facts s) (facts_at facts' s)

max_below :
    (u u' : Option ℕ) (v : ℕ)
    → Bounded u v ⊎ Bounded u' v
    → Bounded (zip_with (λ a b. some (max a b)) u u') v
max_below (some a) (some b) v (inl h) w e = ground (arith, h a refl)
max_below (some a) (some b) v (inr h) w e = ground (arith, h b refl)
max_below none _ v h w e = absurd (cc)
max_below (some a) none v h w e = absurd (cc)

merged_exact-Known :
    (e e' : Option ℕ) (v : ℕ) → Known e v ⊎ Known e' v → Known (merged_exact e e') v
merged_exact-Known (some a) (some b) v (inl h) w g = ground (arith, h a refl)
merged_exact-Known (some a) (some b) v (inr h) w g = ground (arith, h b refl)
merged_exact-Known none _ v h w g = cc
merged_exact-Known (some a) none v h w g = cc

merge_slot_facts-left : (d s : SlotFacts) → Implies d (merge_slot_facts d s).0
unfolding merge_slot_facts
merge_slot_facts-left d s v (h, k) =
    (max_below d.upper s.upper v (inl h), merged_exact-Known d.exact s.exact v (inl k))

merge_slot_facts-right : (d s : SlotFacts) → Implies s (merge_slot_facts d s).0
unfolding merge_slot_facts
merge_slot_facts-right d s v (h, k) =
    (max_below d.upper s.upper v (inr h), merged_exact-Known d.exact s.exact v (inr k))

unknown_facts-Implies : (f : SlotFacts) → Implies f unknown_facts
unknown_facts-Implies f v h = (λ u e. absurd (cc), λ w e. absurd (cc))

pub merge_fact_vectors-left :
    (dst src : List SlotFacts) → AllImply dst (merge_fact_vectors dst src).0
unfolding merge_fact_vectors
merge_fact_vectors-left [] src s v h = h
merge_fact_vectors-left (d ∷ dst) [] s v h = h
merge_fact_vectors-left (d ∷ dst) (f ∷ src) zero v h = merge_slot_facts-left d f v h
merge_fact_vectors-left (d ∷ dst) (f ∷ src) (suc s) v h = merge_fact_vectors-left dst src s v h

pub merge_fact_vectors-right :
    (dst src : List SlotFacts)
    → length dst ≡ length src
    → AllImply src (merge_fact_vectors dst src).0
unfolding merge_fact_vectors
merge_fact_vectors-right [] src e s = unknown_facts-Implies (facts_at src s)
merge_fact_vectors-right (d ∷ dst) [] e s = absurd (omega arith)
merge_fact_vectors-right (d ∷ dst) (f ∷ src) e zero = merge_slot_facts-right d f
merge_fact_vectors-right (d ∷ dst) (f ∷ src) e (suc s) =
    merge_fact_vectors-right dst src (omega arith) s

pub length-merge_fact_vectors :
    (dst src : List SlotFacts) → length (merge_fact_vectors dst src).0 ≡ length dst
unfolding merge_fact_vectors
length-merge_fact_vectors [] src = refl
length-merge_fact_vectors (d ∷ dst) [] = refl
length-merge_fact_vectors (d ∷ dst) (f ∷ src) = ap suc (length-merge_fact_vectors dst src)

options_equal→eq : (o o' : Option ℕ) → options_equal o o' ≡ true → o ≡ o'
options_equal→eq none none h = refl
options_equal→eq (some a) (some b) h = ap some ((==_iff a b).0 h)
options_equal→eq none (some b) h = cc
options_equal→eq (some a) none h = cc

neither : (a b : Bool) → not a || not b ≡ false → (a ≡ true) × (b ≡ true)
neither true true h = (refl, refl)
neither true false h = cc
neither false b h = cc

or-false : (a b : Bool) → a || b ≡ false → (a ≡ false) × (b ≡ false)
or-false false false h = (refl, refl)
or-false false true h = cc
or-false true b h = cc

-- A merge that reports no change changed nothing.
merge_slot_facts-unchanged :
    (d s : SlotFacts) → (merge_slot_facts d s).1 ≡ false → (merge_slot_facts d s).0 ≡ d
unfolding merge_slot_facts
merge_slot_facts-unchanged d s h =
    let (u, e) = neither _ _ h in
    let upper_same = options_equal→eq _ _ u in
    let exact_same = options_equal→eq _ _ e in
    λ i. record { upper = sym upper_same i; exact = sym exact_same i }

pub merge_fact_vectors-unchanged :
    (dst src : List SlotFacts)
    → (merge_fact_vectors dst src).1 ≡ false
    → (merge_fact_vectors dst src).0 ≡ dst
unfolding merge_fact_vectors
merge_fact_vectors-unchanged [] src h = refl
merge_fact_vectors-unchanged (d ∷ dst) [] h = refl
merge_fact_vectors-unchanged (d ∷ dst) (f ∷ src) h =
    let (a, b) = or-false _ _ h in
    let first = merge_slot_facts-unchanged d f a in
    let rest = merge_fact_vectors-unchanged dst src b in λ i. first i ∷ rest i
