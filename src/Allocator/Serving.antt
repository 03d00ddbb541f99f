-- ===== src/Allocator/Serving.antt =====
-- src/backend/allocator.rs: a block that a shard serves comes from its lists or is the fresh one,
-- and a block that comes back is kept.
use aziky.Prelude.{
  ℕ, ◌+◌, ◌<◌, ◌≡◌, ◌≢◌, refl, arith, Bool, true, false, Option, none, some, List, [], ◌∷◌, ltb,
  if◌then◌else◌, length, get_elem?, set, sum_of-set, length-set, ◌>>=◌, Returns, Returns-bind,
  Returns-mono, ◌⊎◌, inl, inr, ap,
}
use aziky.Word.{wrapping_add}
use aziky.Allocator.Shard.{
  Shard, pop_local, flush_drained_batch, flush_remote, flush_remote_batch_into_local, count_fresh,
  after_flush, allocate_flushed, or_flushed, allocate_class, free_remote, count_remote_free,
  kept_remote,
}
use aziky.Allocator.Blocks.{
  is, count, held, IsShaped, fresh_count, cells, Yields, pop_local_lem, Gains,
  flush_drained_batch_lem,
}

module _ (k c : ℕ) (in_range : c < k) (p : ℕ) (nonzero : p ≢ 0) where
  -- The shard is in shape and holds the blocks of another one.
  abbrev pub Keeps : Shard → Shard → Type 0
  Keeps shard s = IsShaped k s × (held p s ≡ held p shard) × (fresh_count s ≡ fresh_count shard)

  -- A reused block left the lists; a fresh one is counted, and the lists are as they were.
  abbrev pub Serves : ℕ → Shard → ℕ × Shard → Type 0
  Serves fresh shard r =
      IsShaped k r.1
      × ((fresh_count r.1 ≡ fresh_count shard) × (held p r.1 + is p r.0 ≡ held p shard)
          ⊎ (fresh_count r.1 ≡ wrapping_add (fresh_count shard) 1)
            × (r.0 ≡ fresh)
            × (held p r.1 ≡ held p shard))

  flush_remote_lem :
      (shard : Shard)
      → IsShaped k shard
      → (remote : List ℕ) → get_elem? shard.remote_free c ≡ some remote
      → Returns (flush_remote shard c remote) (λ r. Keeps shard r.1)
  flush_remote_lem shard shaped [] r = omega arith
  flush_remote_lem shard shaped (q ∷ rest) r =
      let emptied : Shard = record shard { remote_free = set shard.remote_free c [] } in
      let shape : IsShaped k emptied = omega (arith, length-set shard.remote_free c []) in
      let lost = sum_of-set (count p) shard.remote_free c [] r in
      Returns-bind (flush_drained_batch emptied c (q ∷ rest)) _
        (Gains k c emptied shape in_range p nonzero (count p (q ∷ rest))) (λ r. Keeps shard r.1)
        (flush_drained_batch_lem k c emptied shape in_range p nonzero (q ∷ rest))
        λ s (sh, held_s, fresh_s). (sh, omega arith, fresh_s)

  pub flush_remote_batch_into_local_lem :
      (shard : Shard)
      → IsShaped k shard
      → Returns (flush_remote_batch_into_local shard c) (λ r. Keeps shard r.1)
  unfolding flush_remote_batch_into_local
  flush_remote_batch_into_local_lem shard shaped =
      let (_, _, remote, _, _, r) = cells k c shard shaped in_range in
      rw r (flush_remote_lem shard shaped remote r)

  count_fresh_lem :
      (fresh : ℕ) (shard s : Shard) → Keeps shard s → Serves fresh shard (fresh, count_fresh s)
  count_fresh_lem fresh shard s (shape, same, counted) =
      (omega arith, inr (ap (λ t. wrapping_add t 1) counted, refl, same))

  after_flush_lem :
      (fresh : ℕ) (shard flushed : Shard) (shape : IsShaped k flushed)
      → Keeps shard flushed
      → (found : Option ℕ × Shard) → Yields k c flushed shape in_range p found
      → Serves fresh shard (after_flush fresh found)
  after_flush_lem fresh shard flushed shape keeps (some q, s) yields =
      (omega arith, inl (omega arith))
  after_flush_lem fresh shard flushed shape keeps (none, s) yields =
      count_fresh_lem fresh shard s (yields.0, omega arith, omega arith)

  served :
      (fresh : ℕ) (shard flushed : Shard)
      → Keeps shard flushed
      → (again : Bool)
      → Returns
          (if again
            then pop_local flushed c >>= (λ found. some (after_flush fresh found))
            else some (fresh, count_fresh flushed))
          (Serves fresh shard)
  served fresh shard flushed keeps true =
      Returns-bind (pop_local flushed c) _ (Yields k c flushed keeps.0 in_range p)
        (Serves fresh shard) (pop_local_lem k c flushed keeps.0 in_range p nonzero)
        (after_flush_lem fresh shard flushed keeps.0 keeps)
  served fresh shard flushed keeps false = count_fresh_lem fresh shard flushed keeps

  allocate_flushed_lem :
      (fresh : ℕ) (shard s : Shard)
      → Keeps shard s
      → Returns (allocate_flushed s c fresh) (Serves fresh shard)
  unfolding allocate_flushed
  allocate_flushed_lem fresh shard s keeps =
      Returns-bind (flush_remote_batch_into_local s c) _ (λ r. Keeps s r.1) (Serves fresh shard)
        (flush_remote_batch_into_local_lem s keeps.0)
        λ r flushed.
          served fresh shard r.1 (flushed.0, omega (arith, flushed.1), omega (arith, flushed.2))
            (ltb 0 r.0)

  or_flushed_lem :
      (fresh : ℕ) (shard : Shard) (shape : IsShaped k shard) (found : Option ℕ × Shard)
      → Yields k c shard shape in_range p found
      → Returns (or_flushed c fresh found) (Serves fresh shard)
  or_flushed_lem fresh shard shape (some q, s) yields = (omega arith, inl (omega arith))
  or_flushed_lem fresh shard shape (none, s) yields =
      allocate_flushed_lem fresh shard s (yields.0, omega arith, omega arith)

  -- A shard in shape serves a block of the class.
  pub allocate_class_lem :
      (fresh : ℕ) (shard : Shard)
      → IsShaped k shard
      → Returns (allocate_class shard c fresh) (Serves fresh shard)
  unfolding allocate_class
  allocate_class_lem fresh shard shape =
      Returns-bind (pop_local shard c) _ (Yields k c shard shape in_range p) (Serves fresh shard)
        (pop_local_lem k c shard shape in_range p nonzero) (or_flushed_lem fresh shard shape)

  freed :
      (ptr : ℕ) (shard : Shard) (shape : IsShaped k shard) (remote : List ℕ) (waits : Bool)
      → get_elem? shard.remote_free c ≡ some remote
      → Returns
          (if waits
            then some (kept_remote (count_remote_free shard) c (ptr ∷ remote))
            else flush_drained_batch (kept_remote (count_remote_free shard) c []) c (ptr ∷ remote))
          (Gains k c shard shape in_range p nonzero (is p ptr))
  freed ptr shard shape remote true r = omega (
    arith,
    sum_of-set (count p) shard.remote_free c (ptr ∷ remote) r,
    length-set shard.remote_free c (ptr ∷ remote),
  )
  freed ptr shard shape remote false r =
      let emptied = kept_remote (count_remote_free shard) c [] in
      let shape' : IsShaped k emptied = omega (arith, length-set shard.remote_free c []) in
      let lost = sum_of-set (count p) shard.remote_free c [] r in
      Returns-mono (flush_drained_batch emptied c (ptr ∷ remote))
        (Gains k c emptied shape' in_range p nonzero (count p (ptr ∷ remote)))
        (Gains k c shard shape in_range p nonzero (is p ptr))
        (flush_drained_batch_lem k c emptied shape' in_range p nonzero (ptr ∷ remote))
        λ s (sh, held_s, fresh_s). (sh, omega arith, fresh_s)

  -- A block that another shard gives back is kept, whether the batch is full or not.
  pub free_remote_lem :
      (batch_size ptr : ℕ) (shard : Shard) (shape : IsShaped k shard)
      → Returns
          (free_remote batch_size shard c ptr)
          (Gains k c shard shape in_range p nonzero (is p ptr))
  unfolding free_remote
  free_remote_lem batch_size ptr shard shape =
      let (_, _, remote, _, _, r) = cells k c shard shape in_range in
      rw r (freed ptr shard shape remote (ltb (length (ptr ∷ remote)) batch_size) r)
