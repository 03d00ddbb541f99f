-- ===== src/Allocator/Layout.antt =====
-- src/backend/allocator.rs: size classes, alignments and the configuration.
use aziky.Prelude.{
  ℕ, zero, suc, ◌-◌, ◌*◌, ◌^◌, Bool, Option, none, some, List, [], ◌∷◌, min, max, ltb, leb,
  if◌then◌else◌, length,
}
use aziky.Prelude.Sorting.{sort_unstable, dedup}

-- `checked_next_power_of_two`: the first power of two from `power` on that is not below the size,
-- among `k` of them.
unfoldable pub next_power_of_two_from : ℕ → ℕ → ℕ → Option ℕ
next_power_of_two_from zero power size = none
next_power_of_two_from (suc k) power size =
    let next = next_power_of_two_from k (2 * power) size in
    if leb size power then some power else next

abbrev pub unwrap_or : ℕ → Option ℕ → ℕ
unwrap_or d none = d
unwrap_or d (some n) = n

abbrev pub clamp : ℕ → ℕ → ℕ → ℕ
clamp lo hi n = max lo (min hi n)

unfoldable pub class_align : ℕ → ℕ
class_align size = clamp 8 64 (unwrap_or 64 (next_power_of_two_from 64 1 size))

-- `Layout::from_size_align` refuses a size that, rounded up, exceeds `isize::MAX`.
abbrev pub layout_fits : ℕ → ℕ → Bool
layout_fits size align = leb size (2 ^ 63 - align)

abbrev pub default_size_classes : List ℕ
default_size_classes =
    16 ∷ 32 ∷ 64 ∷ 128 ∷ 256 ∷ 512 ∷ 1024 ∷ 2048 ∷ 4096 ∷ 8192 ∷ 16384 ∷ 32768 ∷ 65536 ∷ []

pub record AllocatorConfig : Type 0 where
  pub shard_count : ℕ
  pub remote_batch_size : ℕ
  pub size_classes : List ℕ

abbrev pub default_config : AllocatorConfig
default_config = record {
  shard_count = 8;
  remote_batch_size = 32;
  size_classes = default_size_classes;
}

-- `size_classes.retain(|size| *size > 0)`
unfoldable pub retain_positive : List ℕ → List ℕ
retain_positive [] = []
retain_positive (size ∷ sizes) =
    let rest = retain_positive sizes in if ltb 0 size then size ∷ rest else rest

abbrev pub or_default : List ℕ → List ℕ
or_default [] = default_size_classes
or_default (size ∷ sizes) = size ∷ sizes

unfoldable pub normalize_classes : List ℕ → List ℕ
normalize_classes sizes = or_default (dedup (sort_unstable (retain_positive sizes)))

-- `partition_point(|class_size| *class_size < size)` on sorted classes.
unfoldable pub partition_point : List ℕ → ℕ → ℕ
partition_point [] size = 0
partition_point (class_size ∷ classes) size =
    if ltb class_size size then suc (partition_point classes size) else 0

unfoldable pub size_class_index : List ℕ → ℕ → Option ℕ
size_class_index classes size =
    let idx = partition_point classes size in if ltb idx (length classes) then some idx else none
