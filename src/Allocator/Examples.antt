-- ===== src/Allocator/Examples.antt =====
-- The allocator on a concrete configuration: two shards, one class of 64 bytes, batches of two.
use aziky.Prelude.{ℕ, ◌+◌, ◌≤◌, ◌≡◌, refl, arith, some, [], ◌∷◌, Returns, List}
use aziky.Prelude.Sorting.{sort_unstable, insert_sorted, dedup}
use aziky.Allocator.Layout.{
  AllocatorConfig, normalize_classes, retain_positive, class_align, next_power_of_two_from,
  size_class_index, partition_point,
}
use aziky.Allocator.Shard.{
  Shard, ShardStats, no_counts, new_shard, allocate_class, allocate_flushed, pop_local,
  flush_remote_batch_into_local,
}
use aziky.Allocator.Sharded.{
  Allocation, ShardedAllocator, new, allocate_on, allocate_in_class, deallocate_on,
}
use aziky.Word.{wrapping_add}
use aziky.Allocator.Blocks.{IsShaped}
use aziky.Allocator.Whole.{
  IsWellFormed, cached, Allocates, Deallocates, allocate_on_conserves, deallocate_on_conserves,
}
use aziky.Allocator.Sizes.{IsNew, new-IsNew, IsTight, allocate_on-IsTight}
use aziky.Allocator.History.{allocates, here, next, in_use, Reach-single}

abbrev config : AllocatorConfig
config = record { shard_count = 2; remote_batch_size = 2; size_classes = 64 ∷ [] }

abbrev shard_with : List ℕ → List (List ℕ) → ShardStats → Shard
shard_with hots locals counters = record {
  hot_local = hots;
  local_free = locals;
  remote_free = [] ∷ [];
  counters = counters;
}

abbrev allocator_with : Shard → ShardedAllocator
allocator_with first = record {
  size_classes = 64 ∷ [];
  class_layouts = 64 ∷ [];
  shards = first ∷ shard_with (0 ∷ []) ([] ∷ []) no_counts ∷ [];
  remote_batch_size = 2;
}

abbrev fresh_allocator : ShardedAllocator
fresh_allocator = allocator_with (shard_with (0 ∷ []) ([] ∷ []) no_counts)

-- The first shard after one allocation.
abbrev used_allocator : ShardedAllocator
used_allocator =
    allocator_with (shard_with (0 ∷ []) ([] ∷ []) (record no_counts { fresh_allocs = 1 }))

abbrev block_of : ℕ → Allocation
block_of ptr = record { ptr = ptr; class_index = some 0; owner_shard = 0; size = 64; align = 64 }

new-config : new config ≡ some fresh_allocator
unfolding new normalize_classes retain_positive sort_unstable insert_sorted dedup class_align
    next_power_of_two_from new_shard
new-config = refl

allocate_fresh : allocate_on fresh_allocator 0 48 4096 ≡ some (block_of 4096, used_allocator)
unfolding allocate_on size_class_index partition_point allocate_in_class allocate_class pop_local
    allocate_flushed flush_remote_batch_into_local wrapping_add
allocate_fresh = refl

shape : IsShaped 1 (shard_with (0 ∷ []) ([] ∷ []) no_counts)
shape = omega arith

well_formed : IsWellFormed fresh_allocator
well_formed = omega arith

allocate_on_conserves_example :
    Returns (allocate_on fresh_allocator 5 48 4096) (Allocates 4096 4096 fresh_allocator)
allocate_on_conserves_example =
    allocate_on_conserves 4096 (omega arith) fresh_allocator 5 48 4096 well_formed (omega arith)

deallocate_on_conserves_example :
    Returns
      (deallocate_on fresh_allocator 1 (block_of 4096))
      (Deallocates 4096 fresh_allocator (block_of 4096))
deallocate_on_conserves_example =
    deallocate_on_conserves 4096 (omega arith) fresh_allocator 1 (block_of 4096) well_formed
      (omega arith, (λ c e. ground arith), λ e. refl)

new-IsNew_example : IsNew fresh_allocator
new-IsNew_example = new-IsNew config fresh_allocator new-config

allocate_on-IsTight_example : IsTight (64 ∷ []) 48 64
allocate_on-IsTight_example =
    allocate_on-IsTight fresh_allocator 0 48 4096 (block_of 4096) used_allocator (tt, tt)
      allocate_fresh

Reach-single_example : cached 4096 used_allocator + in_use 4096 (block_of 4096 ∷ []) ≤ 1
Reach-single_example =
    Reach-single config fresh_allocator
      (record { allocator = used_allocator; given = block_of 4096 ∷ [] }) new-config
      (next here (
        allocates (record { allocator = fresh_allocator; given = [] }) 0 48 4096 (block_of 4096)
          used_allocator (omega arith) (omega arith) refl allocate_fresh))
      4096 (omega arith)
