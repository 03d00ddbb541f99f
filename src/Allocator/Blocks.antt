-- ===== src/Allocator/Blocks.antt =====
-- src/backend/allocator.rs: the blocks that a shard caches, and what each operation of a shard does
-- to them. All stay within bounds, so none panics.
use aziky.Prelude.{
  ℕ, ◌+◌, ◌<◌, ◌≡◌, ◌≢◌, refl, arith, Bool, true, false, Option, none, some, List, [], ◌∷◌, ◌++◌,
  ◌==◌, if◌then◌else◌, length, get_elem?, set, sum_of, sum_of-append, sum_of-set, get_elem?-lt,
  length-set, Returns,
}
use aziky.Allocator.Shard.{
  Shard, pop_free, pop_local, push_local, append_drained, flush_drained_batch,
}

-- One for the block itself, zero for any other.
abbrev pub is : ℕ → ℕ → ℕ
is p x = if x == p then 1 else 0

abbrev pub count : ℕ → List ℕ → ℕ
count p xs = sum_of (is p) xs

-- How often a block stands in the lists of a shard.
abbrev pub held : ℕ → Shard → ℕ
held p shard =
    count p shard.hot_local + sum_of (count p) shard.local_free + sum_of (count p) shard.remote_free

-- Each list of the shard has an entry for every size class.
pub record IsShaped (k : ℕ) (shard : Shard) : Type 0 where
  pub hot_length : length shard.hot_local ≡ k
  pub local_length : length shard.local_free ≡ k
  pub remote_length : length shard.remote_free ≡ k

abbrev pub fresh_count : Shard → ℕ
fresh_count shard = shard.counters.fresh_allocs

abbrev pub found_count : ℕ → Option ℕ → ℕ
found_count p none = 0
found_count p (some q) = is p q

is-zero : (p : ℕ) → p ≢ 0 → is p 0 ≡ 0
is-zero p h = ground arith

empty_cell : (p hot : ℕ) → p ≢ 0 → (hot == 0) ≡ true → is p hot ≡ 0
empty_cell p hot h e = ground arith

module _ (k c : ℕ) (shard : Shard) (shaped : IsShaped k shard) (in_range : c < k) where
  pub cells :
      (hot : ℕ) × (local : List ℕ) × (remote : List ℕ) × (get_elem? shard.hot_local c ≡ some hot)
      × (get_elem? shard.local_free c ≡ some local)
      × (get_elem? shard.remote_free c ≡ some remote)
  cells =
      let (hot, h) = get_elem?-lt shard.hot_local c (omega arith) in
      let (local, l) = get_elem?-lt shard.local_free c (omega arith) in
      let (remote, r) = get_elem?-lt shard.remote_free c (omega arith) in
      (hot, local, remote, h, l, r)

  -- The shard is left in shape, and has lost the block that is found, and no other.
  abbrev pub Yields : ℕ → Option ℕ × Shard → Type 0
  Yields p r =
      IsShaped k r.1
      × (held p r.1 + found_count p r.0 ≡ held p shard)
      × (fresh_count r.1 ≡ fresh_count shard)

  module _ (p : ℕ) (nonzero : p ≢ 0) where
    popped :
        (hot : ℕ) (local : List ℕ) (b : Bool)
        → (hot == 0) ≡ b
        → get_elem? shard.hot_local c ≡ some hot
        → get_elem? shard.local_free c ≡ some local
        → Yields p (
            if b
            then pop_free (record shard { hot_local = set shard.hot_local c 0 }) c local
            else (some hot, record shard { hot_local = set shard.hot_local c 0 }))
    popped hot [] true e h l = omega (
      arith,
      sum_of-set (is p) shard.hot_local c 0 h,
      length-set shard.hot_local c 0,
      is-zero p nonzero,
      empty_cell p hot nonzero e,
    )
    popped hot (q ∷ rest) true e h l = omega (
      arith,
      sum_of-set (is p) shard.hot_local c 0 h,
      sum_of-set (count p) shard.local_free c rest l,
      length-set shard.hot_local c 0,
      length-set shard.local_free c rest,
      is-zero p nonzero,
      empty_cell p hot nonzero e,
    )
    popped hot local false e h l = omega (
      arith,
      sum_of-set (is p) shard.hot_local c 0 h,
      length-set shard.hot_local c 0,
      is-zero p nonzero,
    )

    pub pop_local_lem : Returns (pop_local shard c) (Yields p)
    unfolding pop_local
    pop_local_lem =
        let (hot, local, _, h, l, _) = cells in rw (h, l) (popped hot local (hot == 0) refl h l)

    -- The shard is left in shape, and has gained the blocks.
    abbrev pub Gains : ℕ → Shard → Type 0
    Gains n s = IsShaped k s × (held p s ≡ held p shard + n) × (fresh_count s ≡ fresh_count shard)

    pushed :
        (ptr hot : ℕ) (local : List ℕ) (b : Bool)
        → (hot == 0) ≡ b
        → get_elem? shard.hot_local c ≡ some hot
        → get_elem? shard.local_free c ≡ some local
        → Gains (is p ptr) (
            if b
            then record shard { hot_local = set shard.hot_local c ptr }
            else record shard { local_free = set shard.local_free c (ptr ∷ local) })
    pushed ptr hot local true e h l = omega (
      arith,
      sum_of-set (is p) shard.hot_local c ptr h,
      length-set shard.hot_local c ptr,
      empty_cell p hot nonzero e,
    )
    pushed ptr hot local false e h l = omega (
      arith,
      sum_of-set (count p) shard.local_free c (ptr ∷ local) l,
      length-set shard.local_free c (ptr ∷ local),
    )

    pub push_local_lem : (ptr : ℕ) → Returns (push_local shard c ptr) (Gains (is p ptr))
    unfolding push_local
    push_local_lem ptr =
        let (hot, local, _, h, l, _) = cells in rw (h, l) (pushed ptr hot local (hot == 0) refl h l)

    appended :
        (drained local : List ℕ)
        → get_elem? shard.local_free c ≡ some local
        → Gains (count p drained) (append_drained shard c drained local)
    appended [] local l = omega arith
    appended (q ∷ rest) local l = omega (
      arith,
      sum_of-set (count p) shard.local_free c ((q ∷ rest) ++ local) l,
      length-set shard.local_free c ((q ∷ rest) ++ local),
      sum_of-append (is p) rest local,
    )

    pub flush_drained_batch_lem :
        (drained : List ℕ) → Returns (flush_drained_batch shard c drained) (Gains (count p drained))
    unfolding flush_drained_batch
    flush_drained_batch_lem drained =
        let (_, local, _, _, l, _) = cells in rw l (appended drained local l)
