-- ===== src/Lir/Ranges.antt =====
-- src/backend/lir.rs: the range and the width that known bits give.
use aziky.Prelude.{ℕ, ◌^◌, ◌-◌, ◌≤◌, ◌<◌, arith, ◌==◌, if◌then◌else◌, ==_iff, Bool-cases, inl, inr}
use aziky.Prelude.Digits.{le_of_digits}
use aziky.Ir.{IsWord}
use aziky.Word.{complement, bit_length}
use aziky.Word.Laws.{bit_length-bounds, bit_length-positive}
use aziky.Lir.KnownBits.{KnownBits, unsigned_min, unsigned_max, width}
use aziky.Lir.Described.{Describes, le_max}

-- A word that a fact describes lies between the fact's unsigned_min and its unsigned_max, and
-- below two to its width, which is between 1 and 64.
pub width_sound :
    (fact : KnownBits) (x : ℕ)
    → IsWord x
    → Describes fact x
    → (unsigned_min fact ≤ x)
      × (x ≤ unsigned_max fact)
      × (x < 2 ^ width fact)
      × (1 ≤ width fact)
      × (width fact ≤ 64)
unfolding unsigned_min unsigned_max width complement
width_sound fact x h d =
    let upper = le_max fact x h d in
    let lower = le_of_digits 64 fact.one_bits x d.1 (λ i p. (d.2 i p).1) in
    let word : IsWord (2 ^ 64 - 1 - fact.zero_bits) = omega arith in
    let (below, positive, bound) = within _ word upper in (lower, upper, below, positive, bound)
  where
    within :
        (m : ℕ)
        → IsWord m
        → x ≤ m
        → (x < 2 ^ (if m == 0 then 1 else bit_length 64 m))
          × (1 ≤ (if m == 0 then 1 else bit_length 64 m))
          × ((if m == 0 then 1 else bit_length 64 m) ≤ 64)
    within m w p = elim (Bool-cases (m == 0)) [
      | inl none_up ↦ rw none_up (omega (arith, (==_iff m 0).0 none_up), omega arith, omega arith)
      | inr some_up ↦ rw some_up (
          let (below, bound) = bit_length-bounds 64 m w in
          (omega arith, bit_length-positive 63 m (ground arith), bound))
    ]
