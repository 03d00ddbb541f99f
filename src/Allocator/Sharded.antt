-- ===== src/Allocator/Sharded.antt =====
-- src/backend/allocator.rs: `ShardedAllocator`. An operation takes the address that the system
-- allocator returns as its argument `fresh`, and a thread's shard by `hash`, the hash of its id.
use aziky.Prelude.{
  ◌>>=◌, ℕ, ◌%◌, Bool, true, false, Option, none, some, List, [], ◌∷◌, ◌++◌, ◌==◌, max, map,
  if◌then◌else◌, length, get_elem?, set, replicate,
}
use mathlib.Core.List.{reverse}
use aziky.Word.{wrapping_add}
use aziky.Allocator.Layout.{
  AllocatorConfig, normalize_classes, class_align, layout_fits, size_class_index,
}
use aziky.Allocator.Shard.{
  Shard, ShardStats, new_shard, allocate_class, push_local, free_remote, count_fresh, no_counts,
}

pub record Allocation : Type 0 where
  pub ptr : ℕ
  pub class_index : Option ℕ
  pub owner_shard : ℕ
  pub size : ℕ
  pub align : ℕ

-- A layout is its alignment; its size is that of the class.
pub record ShardedAllocator : Type 0 where
  pub size_classes : List ℕ
  pub class_layouts : List ℕ
  pub shards : List Shard
  pub remote_batch_size : ℕ

abbrev pub all_layouts_fit : List ℕ → Bool
all_layouts_fit [] = true
all_layouts_fit (size ∷ sizes) =
    if layout_fits size (class_align size) then all_layouts_fit sizes else false

abbrev pub initial : AllocatorConfig → List ℕ → ShardedAllocator
initial config classes = record {
  size_classes = classes;
  class_layouts = map class_align classes;
  shards = replicate (max config.shard_count 1) (new_shard (length classes));
  remote_batch_size = max config.remote_batch_size 1;
}

-- `none` is the panic "valid size class layout".
unfoldable pub new : AllocatorConfig → Option ShardedAllocator
new config =
    let classes = normalize_classes config.size_classes in
    if all_layouts_fit classes then some (initial config classes) else none

unfoldable pub allocate_in_class :
    ShardedAllocator → ℕ → ℕ → ℕ → Option (Allocation × ShardedAllocator)
allocate_in_class a owner c fresh = do
  shard ← get_elem? a.shards owner
  class_size ← get_elem? a.size_classes c
  class_layout ← get_elem? a.class_layouts c
  (ptr, shard') ← allocate_class shard c fresh
  some (
    record {
      ptr = ptr;
      class_index = some c;
      owner_shard = owner;
      size = class_size;
      align = class_layout;
    },
    record a { shards = set a.shards owner shard' },
  )

-- A size beyond the classes goes to the system allocator.
unfoldable pub allocate_large :
    ShardedAllocator → ℕ → ℕ → ℕ → Option (Allocation × ShardedAllocator)
allocate_large a owner size fresh = do
  shard ← get_elem? a.shards owner
  let align = class_align size
  let block : Allocation = record {
    ptr = fresh;
    class_index = none;
    owner_shard = owner;
    size = size;
    align = align;
  }
  let a' = record a { shards = set a.shards owner (count_fresh shard) }
  if layout_fits size align then some (block, a') else none

abbrev pub allocate_as :
    ShardedAllocator → ℕ → ℕ → ℕ → Option ℕ → Option (Allocation × ShardedAllocator)
allocate_as a owner size fresh (some c) = allocate_in_class a owner c fresh
allocate_as a owner size fresh none = allocate_large a owner size fresh

unfoldable pub allocate_on : ShardedAllocator → ℕ → ℕ → ℕ → Option (Allocation × ShardedAllocator)
allocate_on a shard_hint size fresh =
    let size' = max size 1 in
    allocate_as a (shard_hint % length a.shards) size' fresh (size_class_index a.size_classes size')

abbrev pub current_shard : ShardedAllocator → ℕ → ℕ
current_shard a hash = hash % length a.shards

unfoldable pub allocate : ShardedAllocator → ℕ → ℕ → ℕ → Option (Allocation × ShardedAllocator)
allocate a hash size fresh = allocate_on a (current_shard a hash) size fresh

-- The allocator behind a deallocation, and the block that goes back to the system, if one does.
abbrev pub deallocate_as :
    ShardedAllocator → ℕ → Allocation → Option ℕ → Option (Option ℕ × ShardedAllocator)
deallocate_as a deallocating block (some c) = do
  shard ← get_elem? a.shards block.owner_shard
  let local = push_local shard c block.ptr
  let remote = free_remote a.remote_batch_size shard c block.ptr
  shard' ← if deallocating == block.owner_shard then local else remote
  some (none, record a { shards = set a.shards block.owner_shard shard' })
deallocate_as a deallocating block none =
    if layout_fits block.size block.align then some (some block.ptr, a) else none

unfoldable pub deallocate_on :
    ShardedAllocator → ℕ → Allocation → Option (Option ℕ × ShardedAllocator)
deallocate_on a shard_hint block =
    deallocate_as a (shard_hint % length a.shards) block block.class_index

unfoldable pub deallocate : ShardedAllocator → ℕ → Allocation → Option (Option ℕ × ShardedAllocator)
deallocate a hash block = deallocate_on a (current_shard a hash) block

unfoldable pub shard_stats : ShardedAllocator → ℕ → Option ShardStats
shard_stats a shard = do s ← get_elem? a.shards (shard % length a.shards); some s.counters

abbrev pub add_stats : ShardStats → ShardStats → ShardStats
add_stats s t = record {
  fresh_allocs = wrapping_add s.fresh_allocs t.fresh_allocs;
  local_reuses = wrapping_add s.local_reuses t.local_reuses;
  remote_reuses = wrapping_add s.remote_reuses t.remote_reuses;
  remote_frees = wrapping_add s.remote_frees t.remote_frees;
  remote_flushes = wrapping_add s.remote_flushes t.remote_flushes;
  remote_flushed_blocks = wrapping_add s.remote_flushed_blocks t.remote_flushed_blocks;
}

unfoldable pub sum_stats : ShardStats → List Shard → ShardStats
sum_stats out [] = out
sum_stats out (shard ∷ shards) = sum_stats (add_stats out shard.counters) shards

unfoldable pub stats : ShardedAllocator → ShardStats
stats a = sum_stats no_counts a.shards

-- `drop` gives every cached block back to the system, class by class: the hot one, then the local
-- and the remote list, each oldest first. `none` is an index out of range.
abbrev pub drop_hot : ℕ → List ℕ
drop_hot hot = if hot == 0 then [] else hot ∷ []

unfoldable pub drop_lists : List ℕ → List ℕ → List (List ℕ) → List (List ℕ) → Option (List ℕ)
drop_lists [] hots locals remotes = some []
drop_lists (layout ∷ layouts) (hot ∷ hots) (local ∷ locals) (remote ∷ remotes) = do
  rest ← drop_lists layouts hots locals remotes
  some (drop_hot hot ++ (reverse local ++ (reverse remote ++ rest)))
drop_lists (layout ∷ layouts) hots locals remotes = none

unfoldable pub drop_shards : List ℕ → List Shard → Option (List ℕ)
drop_shards layouts [] = some []
drop_shards layouts (shard ∷ shards) = do
  blocks ← drop_lists layouts shard.hot_local shard.local_free shard.remote_free
  rest ← drop_shards layouts shards
  some (blocks ++ rest)

unfoldable pub drop : ShardedAllocator → Option (List ℕ)
drop a = drop_shards a.class_layouts a.shards
