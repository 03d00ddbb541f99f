-- ===== src/Frontend/Settled.antt =====
-- src/frontend/optimizer.rs: the analysis of bounds ends in states that every instruction keeps.
use mathlib.Core.Path.{subst}
use aziky.Prelude.{
  some_is, ℕ, ◌≡◌, refl, sym, ap, ◌∙◌, Bool, true, false, ◌||◌, Option, none, some, List, [], ◌∷◌,
  ◌++◌, length, get_elem?, get_elem?-set, set, length-set, ==_iff, ==_refl, ◌==◌, inl, inr, ◌⊎◌,
  Bool-cases, bind-some, if◌then◌else◌, get_elem?-in_range,
}
use aziky.Frontend.SlotFacts.{merge_fact_vectors}
use aziky.Frontend.Effects.{contains}
use aziky.Frontend.Merge.{
  AllImply, merge_fact_vectors-left, merge_fact_vectors-right, length-merge_fact_vectors,
  merge_fact_vectors-unchanged,
}
use aziky.Frontend.Bounds.{Facts, InStates, join, propagate}

-- The analysis has come to an instruction, with these facts.
abbrev pub At : InStates → ℕ → Facts → Type 0
At in_states i facts = get_elem? in_states i ≡ some (some facts)

-- Every state has a fact for each slot.
abbrev pub Sized : ℕ → InStates → Type 0
Sized n in_states = (i : ℕ) (facts : Facts) → At in_states i facts → length facts ≡ n

-- What was known is still allowed.
abbrev pub Grows : InStates → InStates → Type 0
Grows before after =
    (i : ℕ) (facts : Facts)
    → At before i facts
    → (facts' : Facts) × At after i facts' × AllImply facts facts'

pub Grows-refl : (states : InStates) → Grows states states
Grows-refl states i facts h = (facts, h, λ s v k. k)

pub Grows-trans : (a b c : InStates) → Grows a b → Grows b c → Grows a c
Grows-trans a b c h k i facts e =
    let (facts', at, implied) = h i facts e in
    let (facts'', at', implied') = k i facts' at in
    (facts'', at', λ s v d. implied' s v (implied s v d))

contains-append : (s : ℕ) (xs ys : List ℕ) → contains s xs ≡ true → contains s (xs ++ ys) ≡ true
unfolding contains
contains-append s [] ys h = absurd (cc)
contains-append s (x ∷ xs) ys h = elim (Bool-cases (x == s)) [
  | inl same ↦ rw same refl
  | inr other ↦ rw other (contains-append s xs ys (rw other at h))
]

contains_last : (s : ℕ) (xs : List ℕ) → contains s (xs ++ s ∷ []) ≡ true
unfolding contains
contains_last s [] = rw (==_refl s) refl
contains_last s (x ∷ xs) = elim (Bool-cases (x == s)) [
  | inl same ↦ rw same refl
  | inr other ↦ rw other (contains_last s xs)
]

-- The queue keeps what it holds.
abbrev pub Kept : List ℕ → List ℕ → Type 0
Kept queue queue' = (i : ℕ) → contains i queue ≡ true → contains i queue' ≡ true

-- Every state afterwards was there before, or is queued.
abbrev pub Queued : InStates → InStates → List ℕ → Type 0
Queued before after queue =
    (i : ℕ) (facts : Facts) → At after i facts → (contains i queue ≡ true) ⊎ At before i facts

-- The facts sent have come to the successors.
abbrev pub Sent : Facts → List ℕ → InStates → Type 0
Sent out succs states =
    (s : ℕ) → contains s succs ≡ true → (facts : Facts) × At states s facts × AllImply out facts

pub record Propagated (n : ℕ) (out : Facts) (succs : List ℕ) (before : InStates) (queue : List ℕ)
    (after : InStates) (queue' : List ℕ) : Type 0 where
  pub kept : Kept queue queue'
  pub queued : Queued before after queue'
  pub grows : Grows before after
  pub sent : Sent out succs after
  pub sized : Sized n after
  pub same_length : length after ≡ length before

-- One successor, whose state becomes the joined facts.
module _ (n : ℕ) (out joined : Facts) (s : ℕ) (states : InStates) (existing : Option Facts)
    (found : get_elem? states s ≡ some existing) where
  stored_where :
      (i : ℕ)
      → get_elem? (set states s (some joined)) i
        ≡ (if s == i then some (some joined) else get_elem? states i)
  stored_where i = get_elem?-set states s i (some joined) (get_elem?-in_range states s found)

  here : (i : ℕ) → (s == i) ≡ true → At (set states s (some joined)) i joined
  here i same = stored_where i ∙ rw same refl

  elsewhere :
      (i : ℕ) → (s == i) ≡ false → get_elem? (set states s (some joined)) i ≡ get_elem? states i
  elsewhere i other = stored_where i ∙ rw other refl

  joined_where :
      (i : ℕ) (facts : Facts)
      → At (set states s (some joined)) i facts
      → (((s == i) ≡ true) × (joined ≡ facts)) ⊎ At states i facts
  joined_where i facts h = elim (Bool-cases (s == i)) [
    | inl same ↦ inl (same, some_is (some_is (sym (here i same) ∙ h)))
    | inr other ↦ inr (sym (elsewhere i other) ∙ h)
  ]

  send_one :
      (queue : List ℕ) (changed : Bool)
      → Sized n states
      → length joined ≡ n
      → AllImply out joined
      → ((facts : Facts) → existing ≡ some facts → AllImply facts joined)
      → (changed ≡ false → existing ≡ some joined)
      → Propagated n out
          (s ∷ [])
          states
          queue
          (set states s (some joined))
          (if changed then queue ++ s ∷ [] else queue)
  unfolding contains
  send_one queue changed all_sized size implied weaker unchanged = record {
    kept = kept_in changed;
    queued = queued_in changed unchanged;
    grows = λ i facts h. elim (Bool-cases (s == i)) [
      | inl same ↦
          let i_is : s ≡ i = (==_iff s i).0 same in
          (
            joined,
            here i same,
            weaker facts (some_is (sym found ∙ (ap (get_elem? states) i_is ∙ h))),
          )
      | inr other ↦ (facts, elsewhere i other ∙ h, λ t v k. k)
    ];
    sent = λ i h. (joined, here i (only (s == i) h), implied);
    sized = λ i facts h. elim (joined_where i facts h) [
      | inl (same, e) ↦ ap length (sym e) ∙ size
      | inr before ↦ all_sized i facts before
    ];
    same_length = length-set states s (some joined);
  }
    where
      only : (b : Bool) → b || false ≡ true → b ≡ true
      only true h = refl
      only false h = h

      kept_in : (c : Bool) → Kept queue (if c then queue ++ s ∷ [] else queue)
      kept_in true i h = contains-append i queue (s ∷ []) h
      kept_in false i h = h

      queued_in :
          (c : Bool)
          → (c ≡ false → existing ≡ some joined)
          → Queued states (set states s (some joined)) (if c then queue ++ s ∷ [] else queue)
      queued_in true u i facts h = elim (joined_where i facts h) [
        | inl (same, e) ↦ inl (
            subst (λ t. contains t (queue ++ s ∷ []) ≡ true) ((==_iff s i).0 same)
              (contains_last s queue))
        | inr before ↦ inr before
      ]
      queued_in false u i facts h = elim (joined_where i facts h) [
        | inl (same, e) ↦ inr (
            sym (ap (get_elem? states) ((==_iff s i).0 same))
            ∙ (found ∙ ap some (u refl ∙ ap some e)))
        | inr before ↦ inr before
      ]

send_joined :
    (n : ℕ) (out : Facts) (s : ℕ) (states : InStates) (queue : List ℕ) (existing : Option Facts)
    → length out ≡ n
    → Sized n states
    → get_elem? states s ≡ some existing
    → Propagated n out
        (s ∷ [])
        states
        queue
        (set states s (some (join existing out).0))
        (if (join existing out).1 then queue ++ s ∷ [] else queue)
send_joined n out s states queue none size all_sized found =
    send_one n out out s states none found queue true all_sized size (λ t v k. k)
      (λ facts e. absurd (cc)) (λ e. absurd (cc))
send_joined n out s states queue (some existing) size all_sized found =
    send_one n out _ s states (some existing) found queue _ all_sized
      (length-merge_fact_vectors existing out ∙ before)
      (merge_fact_vectors-right existing out (before ∙ sym size))
      (λ facts e.
        subst (λ f. AllImply f (merge_fact_vectors existing out).0) (some_is e)
          (merge_fact_vectors-left existing out))
      (λ e. ap some (sym (merge_fact_vectors-unchanged existing out e)))
  where
    before : length existing ≡ n
    before = all_sized s existing found

pub propagate-Propagated :
    (n : ℕ) (out : Facts) (succs : List ℕ) (states : InStates) (queue : List ℕ) (states' : InStates)
    (queue' : List ℕ)
    → length out ≡ n
    → Sized n states
    → propagate out succs states queue ≡ some (states', queue')
    → Propagated n out succs states queue states' queue'
unfolding propagate contains
propagate-Propagated n out [] states queue states' queue' size all_sized h =
    let states_same : states ≡ states' = cc in
    let queue_same : queue ≡ queue' = cc in
    subst (λ (p : InStates × List ℕ). Propagated n out [] states queue p.0 p.1) (some_is h)
      (record {
        kept = λ i k. k;
        queued = λ i facts k. inr k;
        grows = Grows-refl states;
        sent = λ i k. absurd (cc);
        sized = all_sized;
        same_length = refl;
      })
propagate-Propagated n out (s ∷ succs) states queue states' queue' size all_sized h =
    let (existing, found, later) = bind-some (get_elem? states s) _ _ h in
    let first = send_joined n out s states queue existing size all_sized found in
    let rest = propagate-Propagated n out succs _ _ states' queue' size first.sized later in
    record {
      kept = λ i k. rest.kept i (first.kept i k);
      queued = λ i facts k. elim (rest.queued i facts k) [
        | inl q ↦ inl q
        | inr mid ↦ elim (first.queued i facts mid) [
          | inl q ↦ inl (rest.kept i q)
          | inr before ↦ inr before
        ]
      ];
      grows = Grows-trans _ _ _ first.grows rest.grows;
      sent = λ i k. elim (Bool-cases (s == i)) [
        | inl same ↦
            let (f, at, implied) = first.sent i (rw same refl) in
            let (f', at', implied') = rest.grows i f at in
            (f', at', λ t v d. implied' t v (implied t v d))
        | inr other ↦ rest.sent i (rw other at k)
      ];
      sized = rest.sized;
      same_length = rest.same_length ∙ first.same_length;
    }
