-- ===== src/Lir/Intervals.antt =====
-- src/backend/lir.rs: live intervals, and when two of them interfere.
use aziky.Prelude.{
  ℕ, zero, suc, ◌+◌, ◌≤◌, ◌<◌, max, ◌≡◌, refl, arith, Bool, true, false, Option, List, [], ◌∷◌,
  length, All, ltb, if◌then◌else◌, Bool-cases, ◌⊎◌, inl, inr, ◌↔◌, ltb→lt,
}

pub record LiveSegment : Type 0 where
  pub start : ℕ
  pub end : ℕ

pub record LiveInterval : Type 0 where
  pub slot : ℕ
  pub start : ℕ
  pub end : ℕ
  pub segments : List LiveSegment
  pub spill_weight : ℕ
  pub force_stack : Bool
  pub rematerializable : Option ℕ
  pub copy_hint : Option ℕ

-- The loop over both lists; the segments from `left` and from `right` on are the two arguments. Each
-- round drops a segment, so the sum of the lengths is fuel enough.
unfoldable pub segments_interfere : ℕ → List LiveSegment → List LiveSegment → Bool
segments_interfere zero left right = false
segments_interfere (suc fuel) [] right = false
segments_interfere (suc fuel) (a ∷ left) [] = false
segments_interfere (suc fuel) (a ∷ left) (b ∷ right) =
    let next_left = segments_interfere fuel left (b ∷ right) in
    let next_right = segments_interfere fuel (a ∷ left) right in
    if ltb a.end b.start then next_left else if ltb b.end a.start then next_right else true

unfoldable pub interferes : LiveInterval → LiveInterval → Bool
interferes this other =
    segments_interfere (length this.segments + length other.segments) this.segments other.segments

-- Segments are not empty and follow one another with a gap.
abbrev pub IsOrdered : List LiveSegment → Type 0
IsOrdered [] = Unit
IsOrdered (a ∷ rest) = (a.start ≤ a.end) × All (λ b. a.end < b.start) rest × IsOrdered rest

-- A position is live in one of the segments.
abbrev pub LiveAt : ℕ → List LiveSegment → Type 0
LiveAt p [] = ⊥
LiveAt p (a ∷ rest) = ((a.start ≤ p) × (p ≤ a.end)) ⊎ LiveAt p rest

later : (k p : ℕ) (rest : List LiveSegment) → All (λ b. k < b.start) rest → LiveAt p rest → k < p
later k p [] h k' = absurd k'
later k p (b ∷ rest) (h, hs) (inl here) = omega arith
later k p (b ∷ rest) (h, hs) (inr there) = later k p rest hs there

from_first :
    (p : ℕ) (b : LiveSegment) (rest : List LiveSegment)
    → IsOrdered (b ∷ rest)
    → LiveAt p (b ∷ rest)
    → b.start ≤ p
from_first p b rest (h, gap, _) (inl here) = omega arith
from_first p b rest (h, gap, _) (inr there) = omega (arith, later b.end p rest gap there)

found :
    (fuel : ℕ) (left right : List LiveSegment)
    → IsOrdered left
    → IsOrdered right
    → segments_interfere fuel left right ≡ true
    → (p : ℕ) × LiveAt p left × LiveAt p right
unfolding segments_interfere
found zero left right l r h = cc
found (suc fuel) [] right l r h = cc
found (suc fuel) (a ∷ left) [] l r h = cc
found (suc fuel) (a ∷ left) (b ∷ right) (la, gap, l) (lb, gap', r) h =
    elim (Bool-cases (ltb a.end b.start)) [
      | inl before ↦
          let (p, in_left, in_right) =
            found fuel left (b ∷ right) l (lb, gap', r) (rw before at h) in
          (p, inr in_left, in_right)
      | inr first ↦ elim (Bool-cases (ltb b.end a.start)) [
        | inl after ↦
            let (p, in_left, in_right) =
              found fuel (a ∷ left) right (la, gap, l) r (rw (first, after) at h) in
            (p, in_left, inr in_right)
        | inr second ↦
            (max a.start b.start, inl (omega arith, ground arith), inl (omega arith, ground arith))
      ]
    ]

beyond :
    (p : ℕ) (a : LiveSegment) (rest : List LiveSegment)
    → LiveAt p (a ∷ rest)
    → a.end < p
    → LiveAt p rest
beyond p a rest (inl here) h = absurd (omega arith)
beyond p a rest (inr there) h = there

not_missed :
    (fuel p : ℕ) (left right : List LiveSegment)
    → length left + length right ≤ fuel
    → IsOrdered left
    → IsOrdered right
    → LiveAt p left
    → LiveAt p right
    → segments_interfere fuel left right ≡ true
unfolding segments_interfere
not_missed zero p [] right e l r h k = absurd h
not_missed zero p (a ∷ left) [] e l r h k = absurd k
not_missed (suc fuel) p [] right e l r h k = absurd h
not_missed (suc fuel) p (a ∷ left) [] e l r h k = absurd k
not_missed zero p (a ∷ left) (b ∷ right) e l r h k = absurd (omega arith)
not_missed (suc fuel) p (a ∷ left) (b ∷ right) e (la, gap, l) (lb, gap', r) h k =
    elim (Bool-cases (ltb a.end b.start)) [
      | inl before ↦ rw before (
          let start = from_first p b right (lb, gap', r) k in
          not_missed fuel p left (b ∷ right) (omega arith) l (lb, gap', r)
            (beyond p a left h (omega (arith, ltb→lt a.end b.start before))) k)
      | inr first ↦ rw first (elim (Bool-cases (ltb b.end a.start)) [
        | inl after ↦ rw after (
            let start = from_first p a left (la, gap, l) h in
            not_missed fuel p (a ∷ left) right (omega arith) (la, gap, l) r h
              (beyond p b right k (omega (arith, ltb→lt b.end a.start after))))
        | inr second ↦ rw second refl
      ])
    ]

-- Two intervals whose segments are ordered interfere exactly if a position is live in both.
pub interferes_lem :
    (this other : LiveInterval)
    → IsOrdered this.segments
    → IsOrdered other.segments
    → (interferes this other ≡ true) ↔ ((p : ℕ) × LiveAt p this.segments × LiveAt p other.segments)
unfolding interferes
interferes_lem this other l r = (
  found _ this.segments other.segments l r,
  λ (p, h, k). not_missed _ p this.segments other.segments (omega arith) l r h k,
)
