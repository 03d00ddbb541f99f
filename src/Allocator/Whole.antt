-- ===== src/Allocator/Whole.antt =====
-- src/backend/allocator.rs: the operations of the whole allocator neither panic nor lose or double a
-- block.
use native.Mathlib.Nat.{mod-lt}
use mathlib.Core.Path.{subst}
use aziky.Prelude.{
  ℕ, zero, suc, ◌+◌, ◌-◌, ◌%◌, ◌^◌, ◌≤◌, ◌<◌, ◌≡◌, ◌≢◌, refl, arith, Bool, true, false, Option,
  none, some, List, [], ◌∷◌, max, if◌then◌else◌, length, get_elem?, set, sum_of, sum_of-set,
  get_elem?-lt, length-set, Returns, Returns-bind, ◌⊎◌, inl, inr, All, ◌==◌,
}
use aziky.Allocator.Layout.{class_align, layout_fits, size_class_index}
use aziky.Allocator.Shard.{Shard, allocate_class, push_local, free_remote, count_fresh}
use aziky.Allocator.Sharded.{
  Allocation, ShardedAllocator, allocate_in_class, allocate_large, allocate_as, allocate_on,
  deallocate_as, deallocate_on,
}
use aziky.Allocator.Blocks.{is, held, IsShaped, push_local_lem, Gains}
use aziky.Allocator.Serving.{Serves, allocate_class_lem, free_remote_lem}

-- Every shard has an entry for every class, and there is a shard.
pub record IsWellFormed (a : ShardedAllocator) : Type 0 where
  pub layouts : length a.class_layouts ≡ length a.size_classes
  pub shaped : All (IsShaped (length a.size_classes)) a.shards
  pub some_shard : 0 < length a.shards

-- How often a block stands in the lists of all shards.
abbrev pub cached : ℕ → ShardedAllocator → ℕ
cached p a = sum_of (held p) a.shards

All-get {ℓ} :
    {A : Type ℓ} (P : A → Type 0) (xs : List A) (i : ℕ) {x : A}
    → All P xs
    → get_elem? xs i ≡ some x
    → P x
All-get P [] i h e = absurd (cc)
All-get P (x ∷ xs) zero (h, hs) e = subst P (cc) h
All-get P (x ∷ xs) (suc i) (h, hs) e = All-get P xs i hs e

All-set {ℓ} :
    {A : Type ℓ} (P : A → Type 0) (xs : List A) (i : ℕ) (v : A)
    → All P xs
    → P v
    → All P (set xs i v)
All-set P [] i v h p = tt
All-set P (x ∷ xs) zero v (h, hs) p = (p, hs)
All-set P (x ∷ xs) (suc i) v (h, hs) p = (h, All-set P xs i v hs p)

-- Putting a shard in shape in the place of another keeps the allocator well formed.
set_shard :
    (a : ShardedAllocator) (owner : ℕ) (s : Shard)
    → IsWellFormed a
    → IsShaped (length a.size_classes) s
    → IsWellFormed (record a { shards = set a.shards owner s })
set_shard a owner s wf shape = record {
  layouts = wf.layouts;
  shaped = All-set (IsShaped (length a.size_classes)) a.shards owner s wf.shaped shape;
  some_shard = omega (arith, wf.some_shard, length-set a.shards owner s);
}

pub size_class_index-lt :
    (classes : List ℕ) (size c : ℕ) → size_class_index classes size ≡ some c → c < length classes
unfolding size_class_index
size_class_index-lt classes size c h = ground arith

-- A size whose layout is valid: rounded up to any alignment it stays below `isize::MAX`.
abbrev pub IsAllocatable : ℕ → Type 0
IsAllocatable size = size ≤ 2 ^ 63 - 64

class_align-le : (size : ℕ) → class_align size ≤ 64
unfolding class_align
class_align-le size = omega arith

-- The block names a shard and, if it has one, a class of the allocator; a large
-- block has a valid layout.
abbrev pub BelongsTo : ShardedAllocator → Allocation → Type 0
BelongsTo a block =
    (block.owner_shard < length a.shards)
    × ((c : ℕ) → block.class_index ≡ some c → c < length a.size_classes)
    × (block.class_index ≡ none → layout_fits block.size block.align ≡ true)

-- Both ways of giving a block back are as good.
one_of_two :
    (b : Bool) (m n : Option Shard) (P : Shard → Type 0)
    → Returns m P
    → Returns n P
    → Returns (if b then m else n) P
one_of_two true m n P h k = h
one_of_two false m n P h k = k

abbrev pub released_count : ℕ → Option ℕ → ℕ
released_count p none = 0
released_count p (some q) = is p q

-- A reused block left the lists; a fresh one leaves the lists as they were.
abbrev pub Allocates : ℕ → ℕ → ShardedAllocator → Allocation × ShardedAllocator → Type 0
Allocates p fresh a r =
    IsWellFormed r.1
    × ((cached p r.1 + is p r.0.ptr ≡ cached p a) ⊎ (r.0.ptr ≡ fresh) × (cached p r.1 ≡ cached p a))

-- A block of a class goes back to the lists, one of a large size to the system.
abbrev pub Deallocates : ℕ → ShardedAllocator → Allocation → Option ℕ × ShardedAllocator → Type 0
Deallocates p a block r =
    IsWellFormed r.1 × (cached p r.1 + released_count p r.0 ≡ cached p a + is p block.ptr)

module _ (p : ℕ) (nonzero : p ≢ 0) where
  allocate_in_class_lem :
      (a : ShardedAllocator) (owner c fresh : ℕ)
      → IsWellFormed a
      → owner < length a.shards
      → c < length a.size_classes
      → Returns (allocate_in_class a owner c fresh) (Allocates p fresh a)
  unfolding allocate_in_class
  allocate_in_class_lem a owner c fresh wf lo lc =
      let (shard, s) = get_elem?-lt a.shards owner lo in
      let (class_size, z) = get_elem?-lt a.size_classes c lc in
      let (layout, l) = get_elem?-lt a.class_layouts c (omega (arith, wf.layouts)) in
      let shape = All-get (IsShaped (length a.size_classes)) a.shards owner wf.shaped s in
      rw (s, z, l)
        (Returns-bind (allocate_class shard c fresh) _
          (Serves (length a.size_classes) c lc p nonzero fresh shard) (Allocates p fresh a)
          (allocate_class_lem (length a.size_classes) c lc p nonzero fresh shard shape)
          λ r serves.
            let moved = sum_of-set (held p) a.shards owner r.1 s in
            (
              set_shard a owner r.1 wf serves.0,
              elim serves.1 [
                | inl reused ↦ inl (omega (arith, moved, reused.1))
                | inr grown ↦ inr (grown.1, omega (arith, moved, grown.2))
              ],
            ))

  allocate_large_lem :
      (a : ShardedAllocator) (owner size fresh : ℕ)
      → IsWellFormed a
      → owner < length a.shards
      → layout_fits size (class_align size) ≡ true
      → Returns (allocate_large a owner size fresh) (Allocates p fresh a)
  unfolding allocate_large
  allocate_large_lem a owner size fresh wf lo fits =
      let (shard, s) = get_elem?-lt a.shards owner lo in
      let shape = All-get (IsShaped (length a.size_classes)) a.shards owner wf.shaped s in
      let moved = sum_of-set (held p) a.shards owner (count_fresh shard) s in
      rw (s, fits)
        (
          set_shard a owner (count_fresh shard) wf (omega (arith, shape)),
          inr (refl, omega (arith, moved)),
        )

  -- On a well-formed allocator, for a size that a layout can have, an allocation does not panic,
  -- leaves the allocator well formed, and gives either a block that it takes out of the lists or the
  -- fresh one, with the lists unchanged. Lists are compared by how often an address other than null
  -- stands in them.
  pub allocate_on_conserves :
      (a : ShardedAllocator) (shard_hint size fresh : ℕ)
      → IsWellFormed a
      → IsAllocatable size
      → Returns (allocate_on a shard_hint size fresh) (Allocates p fresh a)
  unfolding allocate_on
  allocate_on_conserves a shard_hint size fresh wf fits =
      by_class (size_class_index a.size_classes (max size 1)) refl
    where
      in_range : shard_hint % length a.shards < length a.shards
      in_range = mod-lt shard_hint wf.some_shard

      by_class :
          (o : Option ℕ)
          → size_class_index a.size_classes (max size 1) ≡ o
          → Returns
              (allocate_as a (shard_hint % length a.shards) (max size 1) fresh o)
              (Allocates p fresh a)
      by_class (some c) e =
          allocate_in_class_lem a _ c fresh wf in_range (size_class_index-lt _ _ c e)
      by_class none e =
          allocate_large_lem a _ (max size 1) fresh wf in_range
            (grind (arith, class_align-le (max size 1)))

  -- On a well-formed allocator, giving back a block that belongs to it does not panic, leaves the
  -- allocator well formed, and puts the block into the lists or hands it to the system. Lists are
  -- compared by how often an address other than null stands in them.
  pub deallocate_on_conserves :
      (a : ShardedAllocator) (shard_hint : ℕ) (block : Allocation)
      → IsWellFormed a
      → BelongsTo a block
      → Returns (deallocate_on a shard_hint block) (Deallocates p a block)
  unfolding deallocate_on
  deallocate_on_conserves a shard_hint block wf belongs = by_class block.class_index refl
    where
      returned :
          (c : ℕ) (shard : Shard)
          → get_elem? a.shards block.owner_shard ≡ some shard
          → (lc : c < length a.size_classes) (shape : IsShaped (length a.size_classes) shard)
          → (s' : Shard)
          → Gains (length a.size_classes) c shard shape lc p nonzero (is p block.ptr) s'
          → Deallocates p a block (none, record a { shards = set a.shards block.owner_shard s' })
      returned c shard s lc shape s' gains =
          let moved = sum_of-set (held p) a.shards block.owner_shard s' s in
          (set_shard a block.owner_shard s' wf gains.0, omega (arith, moved, gains.1))

      by_class :
          (o : Option ℕ)
          → block.class_index ≡ o
          → Returns (deallocate_as a (shard_hint % length a.shards) block o) (Deallocates p a block)
      by_class none e = rw (belongs.2 e) (wf, refl)
      by_class (some c) e =
          let k = length a.size_classes in
          let (shard, s) = get_elem?-lt a.shards block.owner_shard belongs.0 in
          let lc = belongs.1 c e in
          let shape = All-get (IsShaped k) a.shards block.owner_shard wf.shaped s in
          let kept = Gains k c shard shape lc p nonzero (is p block.ptr) in
          let here = shard_hint % length a.shards == block.owner_shard in
          let local = push_local shard c block.ptr in
          let remote = free_remote a.remote_batch_size shard c block.ptr in
          rw s (
            Returns-bind (if here then local else remote) _ kept (Deallocates p a block)
              (one_of_two here local remote kept
                (push_local_lem k c shard shape lc p nonzero block.ptr)
                (free_remote_lem k c lc p nonzero a.remote_batch_size block.ptr shard shape))
              (returned c shard s lc shape))
