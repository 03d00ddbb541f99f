-- ===== src/Allocator/History.antt =====
-- src/backend/allocator.rs: every sequence of allocations and deallocations, of any threads, hands
-- a block out at most once at a time. An operation is one step: the source's locks and atomic cells
-- make each of its parts indivisible, and the interleaving of operations is the order of the steps.
use native.Mathlib.Nat.{mod-lt}
use mathlib.Core.Path.{subst}
use aziky.Prelude.{
  ℕ, ◌+◌, ◌%◌, ◌≤◌, ◌<◌, ◌≡◌, ◌≢◌, refl, arith, true, Option, none, some, List, [], ◌∷◌, ◌++◌, max,
  length, length-set, sum_of, sum_of-append, All, All-map, All-append, All-split, Returns, ◌⊎◌, inl,
  inr, ap,
}
use aziky.Allocator.Layout.{AllocatorConfig, size_class_index, layout_fits}
use aziky.Allocator.Sharded.{
  Allocation, ShardedAllocator, allocate_in_class, allocate_large, allocate_as, allocate_on,
  deallocate_on, new,
}
use aziky.Allocator.Blocks.{is}
use aziky.Allocator.Whole.{
  IsWellFormed, cached, BelongsTo, IsAllocatable, Allocates, allocate_on_conserves, Deallocates,
  deallocate_on_conserves, size_class_index-lt,
}
use aziky.Allocator.Sizes.{new-IsNew}

-- The parts of the allocator that no operation changes.
abbrev SameFrame : ShardedAllocator → ShardedAllocator → Type 0
SameFrame a a' = (length a'.shards ≡ length a.shards) × (a'.size_classes ≡ a.size_classes)

allocate_in_class-frame :
    (a : ShardedAllocator) (owner c fresh : ℕ) (block : Allocation) (a' : ShardedAllocator)
    → allocate_in_class a owner c fresh ≡ some (block, a')
    → SameFrame a a' × (block.owner_shard ≡ owner) × (block.class_index ≡ some c)
unfolding allocate_in_class
allocate_in_class-frame a owner c fresh block a' h = grind (arith, length-set)

allocate_large-frame :
    (a : ShardedAllocator) (owner size fresh : ℕ) (block : Allocation) (a' : ShardedAllocator)
    → allocate_large a owner size fresh ≡ some (block, a')
    → SameFrame a a'
      × (block.owner_shard ≡ owner)
      × (block.class_index ≡ none)
      × (layout_fits block.size block.align ≡ true)
unfolding allocate_large
allocate_large-frame a owner size fresh block a' h = grind (arith, length-set)

deallocate_on-frame :
    (a : ShardedAllocator) (shard_hint : ℕ) (block : Allocation) (released : Option ℕ)
    (a' : ShardedAllocator)
    → deallocate_on a shard_hint block ≡ some (released, a')
    → SameFrame a a'
unfolding deallocate_on
deallocate_on-frame a shard_hint block released a' h = grind (arith, length-set)

allocate_on-frame :
    (a : ShardedAllocator) (shard_hint size fresh : ℕ) (block : Allocation) (a' : ShardedAllocator)
    → 0 < length a.shards
    → allocate_on a shard_hint size fresh ≡ some (block, a')
    → SameFrame a a' × BelongsTo a block
unfolding allocate_on
allocate_on-frame a shard_hint size fresh block a' some_shard h =
    by_class (size_class_index a.size_classes (max size 1)) refl h
  where
    owner : ℕ
    owner = shard_hint % length a.shards

    in_range : owner < length a.shards
    in_range = mod-lt shard_hint some_shard

    by_class :
        (o : Option ℕ)
        → size_class_index a.size_classes (max size 1) ≡ o
        → allocate_as a owner (max size 1) fresh o ≡ some (block, a')
        → SameFrame a a' × BelongsTo a block
    by_class none e h =
        let (frame, own, large, valid) =
          allocate_large-frame a owner (max size 1) fresh block a' h in
        (frame, (omega (arith, own), λ c g. cc, λ g. valid))
    by_class (some c) e h =
        let (frame, own, class) = allocate_in_class-frame a owner c fresh block a' h in
        let lc = size_class_index-lt a.size_classes (max size 1) c e in
        (frame, (omega (arith, own), λ d g. ground arith, λ g. cc))

-- The allocator with the blocks that its users hold.
pub record System : Type 0 where
  pub allocator : ShardedAllocator
  pub given : List Allocation

-- How often a block is in its users' hands.
abbrev pub in_use : ℕ → List Allocation → ℕ
in_use p given = sum_of (λ b. is p b.ptr) given

-- The system allocator returns memory that is not null and that it has not given out before without
-- getting it back. A user gives back a block that it holds.
pub data Step : System → System → Type 0 where
  allocates :
      (s : System) (shard_hint size fresh : ℕ) (block : Allocation) (a' : ShardedAllocator)
      → IsAllocatable size
      → fresh ≢ 0
      → cached fresh s.allocator + in_use fresh s.given ≡ 0
      → allocate_on s.allocator shard_hint size fresh ≡ some (block, a')
      → Step s (record { allocator = a'; given = block ∷ s.given })
  deallocates :
      (s : System) (shard_hint : ℕ) (before after : List Allocation) (block : Allocation)
      (released : Option ℕ) (a' : ShardedAllocator)
      → s.given ≡ before ++ (block ∷ after)
      → deallocate_on s.allocator shard_hint block ≡ some (released, a')
      → Step s (record { allocator = a'; given = before ++ after })

pub data Reach (s : System) : System → Type 0 where
  here : Reach s s
  next : {t u : System} → Reach s t → Step t u → Reach s u

-- No block stands twice in the lists and the users' hands together, and each block in use belongs to
-- the allocator.
pub record IsSound (s : System) : Type 0 where
  pub well_formed : IsWellFormed s.allocator
  pub owned : All (BelongsTo s.allocator) s.given
  pub single : (p : ℕ) → p ≢ 0 → cached p s.allocator + in_use p s.given ≤ 1

BelongsTo-frame :
    (a a' : ShardedAllocator) → SameFrame a a' → (b : Allocation) → BelongsTo a b → BelongsTo a' b
BelongsTo-frame a a' (shards, classes) b (own, class, valid) =
    (omega arith, (λ c e. rw classes (class c e)), valid)

allocated_single :
    (p fresh ptr c c' u : ℕ)
    → (c' + is p ptr ≡ c) ⊎ (ptr ≡ fresh) × (c' ≡ c)
    → c + u ≤ 1
    → (fresh ≡ p → c + u ≡ 0)
    → c' + (is p ptr + u) ≤ 1
allocated_single p fresh ptr c c' u (inl reused) single unused = omega arith
allocated_single p fresh ptr c c' u (inr grown) single unused = ground arith

Step-IsSound : {s t : System} → Step s t → IsSound s → IsSound t
Step-IsSound (allocates s hint size fresh block a' fits nonzero unused e) sound =
    let (frame, belongs) =
      allocate_on-frame s.allocator hint size fresh block a' sound.well_formed.some_shard e in
    let keep = BelongsTo-frame s.allocator a' frame in
    let after = λ (p : ℕ) (h : p ≢ 0).
      subst (λ m. Returns m (Allocates p fresh s.allocator)) e
        (allocate_on_conserves p h s.allocator hint size fresh sound.well_formed fits) in
    record {
      well_formed = (after fresh nonzero).0;
      owned = (keep block belongs, All-map keep s.given sound.owned);
      single = λ p h.
          allocated_single p fresh block.ptr (cached p s.allocator) (cached p a') (in_use p s.given)
            (after p h).1 (sound.single p h)
            λ q. subst (λ t. cached t s.allocator + in_use t s.given ≡ 0) q unused;
    }
Step-IsSound (deallocates s hint before rest block released a' split e) sound =
    let frame = deallocate_on-frame s.allocator hint block released a' e in
    let keep = BelongsTo-frame s.allocator a' frame in
    let owns = BelongsTo s.allocator in
    let (left, right) = All-split owns before (block ∷ rest) (subst (All owns) split sound.owned) in
    let after = λ (p : ℕ) (h : p ≢ 0).
      subst (λ m. Returns m (Deallocates p s.allocator block)) e
        (deallocate_on_conserves p h s.allocator hint block sound.well_formed right.0) in
    record {
      well_formed = (after 1 (omega arith)).0;
      owned = All-map keep (before ++ rest) (All-append owns before rest left right.1);
      single = λ p h. omega (
        arith,
        (after p h).1,
        sound.single p h,
        ap (in_use p) split,
        sum_of-append (λ (b : Allocation). is p b.ptr) before (block ∷ rest),
        sum_of-append (λ (b : Allocation). is p b.ptr) before rest,
      );
    }

Reach-IsSound : {s t : System} → IsSound s → Reach s t → IsSound t
Reach-IsSound h here = h
Reach-IsSound h (next r step) = Step-IsSound step (Reach-IsSound h r)

new-IsSound :
    (config : AllocatorConfig) (a : ShardedAllocator)
    → new config ≡ some a
    → IsSound (record { allocator = a; given = [] })
new-IsSound config a h =
    let (wf, _, empty) = new-IsNew config a h in
    record { well_formed = wf; owned = tt; single = λ p nonzero. omega (arith, empty p nonzero) }

-- From a new allocator on, after any sequence of allocations of sizes that a layout can have and of
-- returns of blocks in use, where the system allocator gives addresses that are not null and not out
-- already, no address but null stands twice in the free lists and the users' hands together.
pub Reach-single :
    (config : AllocatorConfig) (a : ShardedAllocator) (t : System)
    → new config ≡ some a
    → Reach (record { allocator = a; given = [] }) t
    → (p : ℕ) → p ≢ 0
    → cached p t.allocator + in_use p t.given ≤ 1
Reach-single config a t h r = (Reach-IsSound (new-IsSound config a h) r).single
