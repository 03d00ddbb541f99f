-- ===== src/Allocator/Sizes.antt =====
-- src/backend/allocator.rs: the size classes of a new allocator, and the class of a size.
use mathlib.Core.Path.{subst}
use aziky.Prelude.{
  ℕ, zero, suc, ◌≤◌, ◌<◌, ◌≡◌, ◌%◌, refl, arith, Option, none, some, List, [], ◌∷◌, ltb, max, map,
  replicate, length, get_elem?, get_elem?-in_range, ltb→lt, All, inl, inr, Bool-cases, ap, sum_of,
  ◌≢◌, ◌⊎◌,
}
use aziky.Prelude.Sorting.{
  sort_unstable, dedup, IsIncreasing, dedup-IsIncreasing, sort_unstable-IsSorted, All-dedup,
  All-sort_unstable,
}
use aziky.Allocator.Layout.{
  AllocatorConfig, retain_positive, or_default, normalize_classes, partition_point,
  size_class_index, class_align,
}
use aziky.Allocator.Shard.{new_shard}
use aziky.Allocator.Sharded.{
  ShardedAllocator, Allocation, allocate_in_class, allocate_large, allocate_as, allocate_on, new,
  initial, all_layouts_fit,
}
use aziky.Allocator.Blocks.{IsShaped, held, is, count}
use aziky.Allocator.Whole.{IsWellFormed, cached}

retain_positive-All : (sizes : List ℕ) → All (λ s. 0 < s) (retain_positive sizes)
unfolding retain_positive
retain_positive-All [] = tt
retain_positive-All (size ∷ sizes) = elim (Bool-cases (ltb 0 size)) [
  | inl positive ↦ rw positive (ground arith, retain_positive-All sizes)
  | inr other ↦ rw other (retain_positive-All sizes)
]

-- Size classes that are positive, strictly increasing and at least one.
abbrev pub AreClasses : List ℕ → Type 0
AreClasses classes = All (λ s. 0 < s) classes × IsIncreasing classes × (0 < length classes)

or_default-AreClasses :
    (sizes : List ℕ) → All (λ s. 0 < s) sizes → IsIncreasing sizes → AreClasses (or_default sizes)
or_default-AreClasses [] h i = omega arith
or_default-AreClasses (s ∷ sizes) h i = (h, i, omega arith)

-- Whatever sizes a configuration lists, the classes are positive, strictly increasing and at least
-- one.
pub normalize_classes-AreClasses : (sizes : List ℕ) → AreClasses (normalize_classes sizes)
unfolding normalize_classes
normalize_classes-AreClasses sizes =
    let kept = retain_positive sizes in
    or_default-AreClasses (dedup (sort_unstable kept))
      (All-dedup _ _ (All-sort_unstable _ _ (retain_positive-All sizes)))
      (dedup-IsIncreasing _ (sort_unstable-IsSorted kept))

partition_point-fits :
    (classes : List ℕ) (size s : ℕ)
    → get_elem? classes (partition_point classes size) ≡ some s
    → size ≤ s
unfolding partition_point
partition_point-fits [] size s h = absurd (cc)
partition_point-fits (t ∷ classes) size s h = elim (Bool-cases (ltb t size)) [
  | inl small ↦ partition_point-fits classes size s (rw small at h)
  | inr big ↦ let e = rw big at h in ground arith
]

partition_point-least :
    (classes : List ℕ) (size i s : ℕ)
    → i < partition_point classes size
    → get_elem? classes i ≡ some s
    → s < size
unfolding partition_point
partition_point-least [] size i s p h = cc
partition_point-least (t ∷ classes) size zero s p h = ground arith
partition_point-least (t ∷ classes) size (suc i) s p h = elim (Bool-cases (ltb t size)) [
  | inl small ↦ partition_point-least classes size i s (let q = rw small at p in omega arith) h
  | inr big ↦ let q = rw big at p in absurd (omega arith)
]

-- The class of a size is the first one that the size fits in: every class before it is too small,
-- and where there is none all classes are.
pub size_class_index_first :
    (classes : List ℕ) (size : ℕ)
    → ((c s : ℕ) → size_class_index classes size ≡ some c → get_elem? classes c ≡ some s → size ≤ s)
      × ((c i s : ℕ)
          → size_class_index classes size ≡ some c
          → i < c
          → get_elem? classes i ≡ some s
          → s < size)
      × ((i s : ℕ)
          → size_class_index classes size ≡ none
          → i < length classes
          → get_elem? classes i ≡ some s
          → s < size)
unfolding size_class_index
size_class_index_first classes size = (
  (λ c s e h. partition_point-fits classes size s (rw (index c e) h)),
  (λ c i s e p h. partition_point-least classes size i s (rw (index c e) p) h),
  (λ i s e p h. partition_point-least classes size i s (ground arith) h),
)
  where
    index : (c : ℕ) → size_class_index classes size ≡ some c → partition_point classes size ≡ c
    index c e = ground arith

allocate_in_class-size :
    (a : ShardedAllocator) (owner c fresh : ℕ) (block : Allocation) (a' : ShardedAllocator)
    → allocate_in_class a owner c fresh ≡ some (block, a')
    → get_elem? a.size_classes c ≡ some block.size
unfolding allocate_in_class
allocate_in_class-size a owner c fresh block a' h = ground arith

allocate_large-size :
    (a : ShardedAllocator) (owner size fresh : ℕ) (block : Allocation) (a' : ShardedAllocator)
    → allocate_large a owner size fresh ≡ some (block, a')
    → block.size ≡ size
unfolding allocate_large
allocate_large-size a owner size fresh block a' h = ground arith

increasing-get :
    (xs : List ℕ) (c i x y : ℕ)
    → IsIncreasing xs
    → c ≤ i
    → get_elem? xs c ≡ some x
    → get_elem? xs i ≡ some y
    → x ≤ y
increasing-get [] c i x y h p a b = absurd (cc)
increasing-get (z ∷ xs) zero zero x y h p a b = ground arith
increasing-get (z ∷ []) zero (suc i) x y h p a b = absurd (cc)
increasing-get (z ∷ w ∷ xs) zero (suc i) x y (u, h) p a b =
    let w-le-y = increasing-get (w ∷ xs) zero i w y h (omega arith) refl b in ground arith
increasing-get (z ∷ xs) (suc c) zero x y h p a b = absurd (omega arith)
increasing-get (z ∷ xs) (suc c) (suc i) x y (u, h) p a b =
    increasing-get xs c i x y h (omega arith) a b

-- The block has the size of a class that is large enough, and no class that is large enough is
-- smaller; or every class is too small, and the block has the size asked for, at least 1.
abbrev pub IsTight : List ℕ → ℕ → ℕ → Type 0
IsTight classes size given =
    ((c : ℕ) × (get_elem? classes c ≡ some given)
      × (max size 1 ≤ given)
      × ((i s : ℕ) → get_elem? classes i ≡ some s → max size 1 ≤ s → given ≤ s))
    ⊎ (((i s : ℕ) → get_elem? classes i ≡ some s → s < max size 1) × (given ≡ max size 1))

-- On classes in increasing order an allocation gives a block of the size of the smallest class that
-- is large enough, or where no class is, of exactly the size asked for, at least 1.
pub allocate_on-IsTight :
    (a : ShardedAllocator) (shard_hint size fresh : ℕ) (block : Allocation) (a' : ShardedAllocator)
    → IsIncreasing a.size_classes
    → allocate_on a shard_hint size fresh ≡ some (block, a')
    → IsTight a.size_classes size block.size
unfolding allocate_on
allocate_on-IsTight a shard_hint size fresh block a' inc h =
    by_class (size_class_index a.size_classes (max size 1)) refl h
  where
    by_class :
        (o : Option ℕ)
        → size_class_index a.size_classes (max size 1) ≡ o
        → allocate_as a (shard_hint % length a.shards) (max size 1) fresh o ≡ some (block, a')
        → IsTight a.size_classes size block.size
    by_class none e h = inr (
      (λ i s g.
          (size_class_index_first a.size_classes (max size 1)).2 i s e
            (get_elem?-in_range a.size_classes i g) g),
      allocate_large-size a _ (max size 1) fresh block a' h,
    )
    by_class (some c) e h =
        let given = allocate_in_class-size a _ c fresh block a' h in
        let first = size_class_index_first a.size_classes (max size 1) in
        inl (
          c,
          given,
          first.0 c block.size e given,
          λ i s g fits. elim (Bool-cases (ltb i c)) [
            | inl before ↦ absurd (omega (arith, first.1 c i s e (ltb→lt i c before) g))
            | inr behind ↦ increasing-get a.size_classes c i block.size s inc (ground arith) given g
          ],
        )

replicate-All {ℓ} : {A : Type ℓ} (P : A → Type 0) (n : ℕ) (a : A) → P a → All P (replicate n a)
replicate-All P zero a h = tt
replicate-All P (suc n) a h = (h, replicate-All P n a h)

length-map {ℓ κ} :
    {A : Type ℓ} {B : Type κ} (f : A → B) (xs : List A) → length (map f xs) ≡ length xs
length-map f [] = refl
length-map f (x ∷ xs) = ap suc (length-map f xs)

length-replicate {ℓ} : {A : Type ℓ} (n : ℕ) (a : A) → length (replicate n a) ≡ n
length-replicate zero a = refl
length-replicate (suc n) a = ap suc (length-replicate n a)

sum_of-replicate {ℓ} :
    {A : Type ℓ} (f : A → ℕ) (n : ℕ) (a : A) → f a ≡ 0 → sum_of f (replicate n a) ≡ 0
sum_of-replicate f zero a h = refl
sum_of-replicate f (suc n) a h = omega (arith, sum_of-replicate f n a h)

new_shard-IsShaped : (k : ℕ) → IsShaped k (new_shard k)
unfolding new_shard
new_shard-IsShaped k = record {
  hot_length = length-replicate k 0;
  local_length = length-replicate k [];
  remote_length = length-replicate k [];
}

new_shard-held : (k p : ℕ) → p ≢ 0 → held p (new_shard k) ≡ 0
unfolding new_shard
new_shard-held k p h =
    omega (arith, sum_of-replicate (is p) k 0 (ground arith), sum_of-replicate (count p) k [] refl)

-- What holds of an allocator before its first allocation.
abbrev pub IsNew : ShardedAllocator → Type 0
IsNew a = IsWellFormed a × AreClasses a.size_classes × ((p : ℕ) → p ≢ 0 → cached p a ≡ 0)

initial-IsNew :
    (config : AllocatorConfig) (classes : List ℕ)
    → AreClasses classes
    → IsNew (initial config classes)
initial-IsNew config classes proper =
    let k = length classes in
    let n = max config.shard_count 1 in
    (
      record {
        layouts = length-map class_align classes;
        shaped = replicate-All (IsShaped k) n (new_shard k) (new_shard-IsShaped k);
        some_shard = omega (arith, length-replicate n (new_shard k));
      },
      proper,
      λ p nonzero. sum_of-replicate (held p) n (new_shard k) (new_shard-held k p nonzero),
    )

-- A new allocator is well formed, has proper size classes and caches no block.
pub new-IsNew : (config : AllocatorConfig) (a : ShardedAllocator) → new config ≡ some a → IsNew a
unfolding new
new-IsNew config a h =
    let classes = normalize_classes config.size_classes in
    elim (Bool-cases (all_layouts_fit classes)) [
      | inl fit ↦
          subst IsNew (made (rw fit at h))
            (initial-IsNew config classes (normalize_classes-AreClasses config.size_classes))
      | inr unfit ↦ absurd (cc (rw unfit at h))
    ]
  where
    made :
        some (initial config (normalize_classes config.size_classes)) ≡ some a
        → initial config (normalize_classes config.size_classes) ≡ a
    made e = cc
