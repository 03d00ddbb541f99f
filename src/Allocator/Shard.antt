-- ===== src/Allocator/Shard.antt =====
-- src/backend/allocator.rs: the free lists of one shard.
-- A `Vec` used as a stack is a list, last pushed first. A block is its address, 0 the empty cell of
-- the hot cache. `none` is a panic of an index out of range.
use aziky.Prelude.{
  ℕ, Option, none, some, List, [], ◌∷◌, ◌++◌, ltb, ◌==◌, if◌then◌else◌, length, get_elem?, set,
  replicate, ◌>>=◌,
}
use aziky.Word.{wrapping_add}

-- The counters are `AtomicU64`, whose `fetch_add` wraps.
pub record ShardStats : Type 0 where
  pub fresh_allocs : ℕ
  pub local_reuses : ℕ
  pub remote_reuses : ℕ
  pub remote_frees : ℕ
  pub remote_flushes : ℕ
  pub remote_flushed_blocks : ℕ

pub record Shard : Type 0 where
  pub hot_local : List ℕ
  pub local_free : List (List ℕ)
  pub remote_free : List (List ℕ)
  pub counters : ShardStats

abbrev pub no_counts : ShardStats
no_counts = record {
  fresh_allocs = 0;
  local_reuses = 0;
  remote_reuses = 0;
  remote_frees = 0;
  remote_flushes = 0;
  remote_flushed_blocks = 0;
}

unfoldable pub new_shard : ℕ → Shard
new_shard class_count = record {
  hot_local = replicate class_count 0;
  local_free = replicate class_count [];
  remote_free = replicate class_count [];
  counters = no_counts;
}

abbrev pub pop_free : Shard → ℕ → List ℕ → Option ℕ × Shard
pop_free shard c [] = (none, shard)
pop_free shard c (ptr ∷ rest) =
    (some ptr, record shard { local_free = set shard.local_free c rest })

-- The block in the hot cell, or else the last one of the local list.
unfoldable pub pop_local : Shard → ℕ → Option (Option ℕ × Shard)
pop_local shard c = do
  hot ← get_elem? shard.hot_local c
  free ← get_elem? shard.local_free c
  let shard' = record shard { hot_local = set shard.hot_local c 0 }
  some (if hot == 0 then pop_free shard' c free else (some hot, shard'))

unfoldable pub push_local : Shard → ℕ → ℕ → Option Shard
push_local shard c ptr = do
  hot ← get_elem? shard.hot_local c
  free ← get_elem? shard.local_free c
  some (
      if hot == 0
      then record shard { hot_local = set shard.hot_local c ptr }
      else record shard { local_free = set shard.local_free c (ptr ∷ free) })

abbrev pub count_flush : ShardStats → ℕ → ShardStats
count_flush s moved = record s {
  remote_flushes = wrapping_add s.remote_flushes 1;
  remote_flushed_blocks = wrapping_add s.remote_flushed_blocks moved;
}

abbrev pub append_drained : Shard → ℕ → List ℕ → List ℕ → Shard
append_drained shard c [] free = shard
append_drained shard c (ptr ∷ rest) free = record shard {
  local_free = set shard.local_free c ((ptr ∷ rest) ++ free);
  counters = count_flush shard.counters (length (ptr ∷ rest));
}

unfoldable pub flush_drained_batch : Shard → ℕ → List ℕ → Option Shard
flush_drained_batch shard c drained = do
  free ← get_elem? shard.local_free c
  some (append_drained shard c drained free)

-- The loop's early return: an empty remote list leaves the shard as it is.
abbrev pub flush_remote : Shard → ℕ → List ℕ → Option (ℕ × Shard)
flush_remote shard c [] = some (0, shard)
flush_remote shard c (ptr ∷ rest) = do
  shard' ←
      flush_drained_batch (record shard { remote_free = set shard.remote_free c [] }) c (ptr ∷ rest)
  some (length (ptr ∷ rest), shard')

-- The number of blocks moved from the remote list to the local one.
unfoldable pub flush_remote_batch_into_local : Shard → ℕ → Option (ℕ × Shard)
flush_remote_batch_into_local shard c = do
  remote ← get_elem? shard.remote_free c
  flush_remote shard c remote

abbrev pub count_fresh : Shard → Shard
count_fresh shard =
    let s = shard.counters in
    record shard { counters = record s { fresh_allocs = wrapping_add s.fresh_allocs 1 } }

abbrev pub count_local_reuse : Shard → Shard
count_local_reuse shard =
    let s = shard.counters in
    record shard { counters = record s { local_reuses = wrapping_add s.local_reuses 1 } }

abbrev pub count_remote_reuse : Shard → Shard
count_remote_reuse shard =
    let s = shard.counters in
    record shard { counters = record s { remote_reuses = wrapping_add s.remote_reuses 1 } }

abbrev pub count_remote_free : Shard → Shard
count_remote_free shard =
    let s = shard.counters in
    record shard { counters = record s { remote_frees = wrapping_add s.remote_frees 1 } }

-- The block that the second look into the local lists finds, or else the fresh one.
abbrev pub after_flush : ℕ → Option ℕ × Shard → ℕ × Shard
after_flush fresh (some ptr, shard) = (ptr, count_remote_reuse shard)
after_flush fresh (none, shard) = (fresh, count_fresh shard)

unfoldable pub allocate_flushed : Shard → ℕ → ℕ → Option (ℕ × Shard)
allocate_flushed shard c fresh = do
  (moved, flushed) ← flush_remote_batch_into_local shard c
  let again = pop_local flushed c
  if ltb 0 moved
      then again >>= (λ found. some (after_flush fresh found))
      else some (fresh, count_fresh flushed)

abbrev pub or_flushed : ℕ → ℕ → Option ℕ × Shard → Option (ℕ × Shard)
or_flushed c fresh (some ptr, shard) = some (ptr, count_local_reuse shard)
or_flushed c fresh (none, shard) = allocate_flushed shard c fresh

-- The part of `allocate_on` for a size class: `fresh` is the block that the system allocator would
-- give.
unfoldable pub allocate_class : Shard → ℕ → ℕ → Option (ℕ × Shard)
allocate_class shard c fresh = do found ← pop_local shard c; or_flushed c fresh found

abbrev pub kept_remote : Shard → ℕ → List ℕ → Shard
kept_remote shard c remote = record shard { remote_free = set shard.remote_free c remote }

-- The part of `deallocate_on` for a block of another shard.
unfoldable pub free_remote : ℕ → Shard → ℕ → ℕ → Option Shard
free_remote batch_size shard c ptr = do
  let counted = count_remote_free shard
  remote ← get_elem? counted.remote_free c
  let flushed = flush_drained_batch (kept_remote counted c []) c (ptr ∷ remote)
  if ltb (length (ptr ∷ remote)) batch_size
      then some (kept_remote counted c (ptr ∷ remote))
      else flushed
