-- ===== src/Schedule/Orders.antt =====
-- src/backend/optimizer.rs: the orders that the dependences of a region allow.
use mathlib.Core.List.{Perm, perm_middle}
use mathlib.Core.List.Perm
use aziky.Prelude.{
  some_is, ℕ, suc, zero, ◌+◌, ◌<◌, ◌≡◌, refl, sym, ap, ◌∙◌, arith, true, false, Option, some, List,
  [], ◌∷◌, ◌++◌, ◌>>=◌, All, All-append, All-split, get_elem?, length, inl, inr, Option-cases,
  bind-some, get_elem?-lt, All-map, ◌≤◌,
}
use aziky.Ir.{RuntimeInstr}
use aziky.Superopt.Evaluate.{Environment}
use aziky.Superopt.Verify.{insert}
use aziky.Schedule.Region.{is_schedulable, dependent, range_from}
use aziky.Schedule.Outcome.{outcome, step, run, step_swap}

-- The instructions of the nodes, in the order given: what the pass writes back to the program.
unfoldable pub reordered : List RuntimeInstr → List ℕ → Option (List RuntimeInstr)
reordered region [] = some []
reordered region (node ∷ order) = do
  instr ← get_elem? region node
  rest ← reordered region order
  some (instr ∷ rest)

module _ (region : List RuntimeInstr) where
  -- Two nodes whose instructions are pure and do not depend on each other.
  pub record Independent (left right : ℕ) : Type 0 where
    pub first : RuntimeInstr
    pub second : RuntimeInstr
    pub first_at : get_elem? region left ≡ some first
    pub second_at : get_elem? region right ≡ some second
    pub first_pure : is_schedulable first ≡ true
    pub second_pure : is_schedulable second ≡ true
    pub apart : dependent first second ≡ false

  -- The orders that come about when a node is taken only where none that is left in front of it
  -- depends on it or is what it depends on.
  pub data Schedules : List ℕ → List ℕ → Type 0 where
    done : Schedules [] []
    pick :
        (front rest : List ℕ) (node : ℕ) {order : List ℕ}
        → All (λ earlier. Independent earlier node) front
        → Schedules (front ++ rest) order
        → Schedules (front ++ node ∷ rest) (node ∷ order)

  run_nodes : List ℕ → Environment → Option Environment
  run_nodes [] environment = some environment
  run_nodes (node ∷ order) environment = do
    instr ← get_elem? region node
    step instr (run_nodes order) environment

  step-congr :
      (instr : RuntimeInstr) (k l : Environment → Option Environment)
      → ((environment : Environment) → k environment ≡ l environment)
      → (environment : Environment) → step instr k environment ≡ step instr l environment
  unfolding step
  step-congr instr k l same environment = elim (Option-cases (outcome instr environment)) [
    | inl p ↦ rw p refl
    | inr ((d, v), p) ↦ rw p (same (insert d v environment))
  ]

  run_nodes-congr :
      (node : ℕ) (xs ys : List ℕ)
      → ((environment : Environment) → run_nodes xs environment ≡ run_nodes ys environment)
      → (environment : Environment)
      → run_nodes (node ∷ xs) environment ≡ run_nodes (node ∷ ys) environment
  unfolding run_nodes
  run_nodes-congr node xs ys same environment = elim (Option-cases (get_elem? region node)) [
    | inl p ↦ rw p refl
    | inr (instr, p) ↦ rw p (step-congr instr (run_nodes xs) (run_nodes ys) same environment)
  ]

  run_nodes_swap :
      (a b : ℕ) (rest : List ℕ)
      → Independent a b
      → (environment : Environment)
      → run_nodes (a ∷ b ∷ rest) environment ≡ run_nodes (b ∷ a ∷ rest) environment
  unfolding run_nodes step
  run_nodes_swap a b rest i environment =
      rw (i.first_at, i.second_at)
        (step_swap i.first i.second environment i.first_pure i.second_pure i.apart (run_nodes rest))

  -- A node may come first where it is independent of all that are in front of it.
  run_nodes_front :
      (node : ℕ) (front rest : List ℕ)
      → All (λ earlier. Independent earlier node) front
      → (environment : Environment)
      → run_nodes (node ∷ front ++ rest) environment ≡ run_nodes (front ++ node ∷ rest) environment
  run_nodes_front node [] rest h environment = refl
  run_nodes_front node (x ∷ front) rest (i, h) environment =
      sym (run_nodes_swap x node (front ++ rest) i environment)
      ∙ run_nodes-congr x _ _ (run_nodes_front node front rest h) environment

  run_nodes-Schedules :
      {nodes order : List ℕ}
      → Schedules nodes order
      → (environment : Environment) → run_nodes order environment ≡ run_nodes nodes environment
  run_nodes-Schedules done environment = refl
  run_nodes-Schedules (pick front rest node {order} free later) environment =
      run_nodes-congr node order (front ++ rest) (run_nodes-Schedules later) environment
      ∙ run_nodes_front node front rest free environment

  run_nodes-reordered :
      (order : List ℕ) (code : List RuntimeInstr)
      → reordered region order ≡ some code
      → (environment : Environment) → run_nodes order environment ≡ run code environment
  unfolding run_nodes reordered run
  run_nodes-reordered [] code h environment = rw (sym (some_is h)) refl
  run_nodes-reordered (node ∷ order) code h environment =
      let (instr, p, h') = bind-some (get_elem? region node) _ _ h in
      let (rest, q, h'') = bind-some (reordered region order) _ _ h' in
      rw (p, sym (some_is h''))
        (step-congr instr (run_nodes order) (run rest) (run_nodes-reordered order rest q)
          environment)

  -- An order that the dependences allow is one of the same nodes.
  pub Schedules-Perm : {nodes order : List ℕ} → Schedules nodes order → Perm order nodes
  Schedules-Perm done = Perm.refl []
  Schedules-Perm (pick front rest node free later) =
      Perm.trans (Perm.cons node (Schedules-Perm later)) (Perm.symm (perm_middle front rest))

  pub Schedules-All :
      (P : ℕ → Type 0) {nodes order : List ℕ} → Schedules nodes order → All P nodes → All P order
  Schedules-All P done h = tt
  Schedules-All P (pick front rest node free later) h =
      let (before, (here, after)) = All-split P front (node ∷ rest) h in
      (here, Schedules-All P later (All-append P front rest before after))

  reordered-returns :
      (order : List ℕ)
      → All (λ node. node < length region) order
      → (code : List RuntimeInstr) × (reordered region order ≡ some code)
  unfolding reordered
  reordered-returns [] h = ([], refl)
  reordered-returns (node ∷ order) (small, h) =
      let (instr, p) = get_elem?-lt region node small in
      let (rest, q) = reordered-returns order h in (instr ∷ rest, rw (p, q) refl)

  reordered-range_from :
      (start : ℕ) (xs : List RuntimeInstr)
      → ((i : ℕ) → get_elem? region (start + i) ≡ get_elem? xs i)
      → reordered region (range_from start (length xs)) ≡ some xs
  unfolding reordered range_from
  reordered-range_from start [] same = refl
  reordered-range_from start (x ∷ xs) same =
      let first : get_elem? region start ≡ some x = ap (get_elem? region) (omega arith) ∙ same 0 in
      rw
        (
          first,
          reordered-range_from (suc start) xs
              (λ i. ap (get_elem? region) (omega arith) ∙ same (suc i)),
        )
        refl

-- The nodes of a region, in the order of the code.
pub range_from-range :
    (start n : ℕ) → All (λ node. (start ≤ node) × (node < start + n)) (range_from start n)
unfolding range_from
range_from-range start zero = tt
range_from-range start (suc n) = (
  (omega arith, omega arith),
  All-map (λ node (l, u). (omega arith, omega arith)) _ (range_from-range (suc start) n),
)

-- Code in an order that the dependences allow does what the region does: the same final frame, and
-- a failure where the region fails.
pub reordered_lem :
    (region : List RuntimeInstr) (order : List ℕ)
    → Schedules region (range_from 0 (length region)) order
    → (code : List RuntimeInstr) × (reordered region order ≡ some code)
      × ((environment : Environment) → run code environment ≡ run region environment)
reordered_lem region order schedules =
    let range = range_from-range 0 (length region) in
    let small : All (λ node. node < length region) (range_from 0 (length region)) =
      All-map (λ node (l, u). omega arith) _ range in
    let (code, made) = reordered-returns region order (Schedules-All region _ schedules small) in
    let whole = reordered-range_from region 0 region (λ i. ap (get_elem? region) (omega arith)) in
    (
      code,
      made,
      λ environment.
          sym (run_nodes-reordered region order code made environment)
          ∙ run_nodes-Schedules region schedules environment
          ∙ run_nodes-reordered region _ region whole environment,
    )
