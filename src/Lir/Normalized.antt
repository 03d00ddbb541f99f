-- ===== src/Lir/Normalized.antt =====
-- src/backend/lir.rs: the known bits of a normalised integer are true of it.
use mathlib.Core.Path.{subst}
use aziky.Prelude.{
  ℕ, ◌-◌, ◌^◌, ◌≤◌, ◌<◌, ◌≡◌, ap, arith, Bool, true, false, bit_and, some, min, leb, ◌==◌, inl, inr,
  Bool-cases, some_is,
}
use native.Mathlib.Nat.{pow-le-pow_right, one-le-pow}
use aziky.Frontend.Eval.{normalize_const_int}
use aziky.Word.{shift_left}
use aziky.Lir.KnownBits.{KnownBits, constant, low_mask, known_bits_for_normalize}
use aziky.Lir.Described.{Describes, unknown-Describes, constant-Describes}
use aziky.Lir.Facts.{and_sound}

mask_fits : (bits : ℕ) → bits < 64 → (2 ^ bits ≤ 2 ^ 63) × (1 ≤ 2 ^ bits)
mask_fits bits p =
    (pow-le-pow_right (omega arith) {j = 63} (omega arith), one-le-pow bits 2 (omega arith))

low_mask-ones : (bits : ℕ) → bits < 64 → low_mask bits ≡ 2 ^ bits - 1
unfolding shift_left
low_mask-ones bits p = elim (Bool-cases (bits == 0)) [
  | inl none_in ↦
      let empty : bits ≡ 0 = ground arith in
      let bottom : 2 ^ bits ≡ 1 = ap (λ b. 2 ^ b) empty in rw none_in (omega arith)
  | inr some_in ↦ rw some_in (let (u, l) = mask_fits bits p in omega arith)
]

-- The bits below the width, of the value that was there.
low_sound :
    (bits : ℕ) (fact : KnownBits) (x : ℕ)
    → bits < 64
    → Describes fact x
    → Describes (known_bits_for_normalize false bits fact) (bit_and x (2 ^ bits - 1))
unfolding constant
low_sound bits fact x p d =
    let narrow : min bits 64 ≡ bits = omega arith in
    let short : (bits == 64) ≡ false = ground arith in
    let (u, l) = mask_fits bits p in
    let mask = constant-Describes (2 ^ bits - 1) (omega arith) in
    rw (narrow, short, low_mask-ones bits p)
      (and_sound fact (constant (2 ^ bits - 1)) x (2 ^ bits - 1) d mask)

signed_sound :
    (bits : ℕ) (fact : KnownBits) (v : ℕ)
    → bits < 64
    → Describes (known_bits_for_normalize true bits fact) v
signed_sound bits fact v p =
    let narrow : min bits 64 ≡ bits = omega arith in
    let short : (bits == 64) ≡ false = ground arith in rw (narrow, short) (unknown-Describes v)

wide_sound :
    (signed : Bool) (bits : ℕ) (fact : KnownBits) (x : ℕ)
    → 64 ≤ bits
    → Describes fact x
    → Describes (known_bits_for_normalize signed bits fact) x
wide_sound signed bits fact x p d = let whole : min bits 64 ≡ 64 = omega arith in rw whole d

-- What is known of a normalised integer is true of what the normalisation evaluates to.
pub normalize_sound :
    (signed : Bool) (bits : ℕ) (fact : KnownBits) (x v : ℕ)
    → Describes fact x
    → normalize_const_int x signed bits ≡ some v
    → Describes (known_bits_for_normalize signed bits fact) v
unfolding normalize_const_int
normalize_sound true bits fact x v d e = elim (Bool-cases (leb 64 bits)) [
  | inl wide ↦
      subst (Describes (known_bits_for_normalize true bits fact)) (some_is (rw wide at e))
        (wide_sound true bits fact x (ground arith) d)
  | inr narrow ↦ signed_sound bits fact v (ground arith)
]
normalize_sound false bits fact x v d e = elim (Bool-cases (leb 64 bits)) [
  | inl wide ↦
      subst (Describes (known_bits_for_normalize false bits fact)) (some_is (rw wide at e))
        (wide_sound false bits fact x (ground arith) d)
  | inr narrow ↦
      subst (Describes (known_bits_for_normalize false bits fact)) (some_is (rw narrow at e))
        (low_sound bits fact x (ground arith) d)
]
