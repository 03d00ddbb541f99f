-- ===== src/Frontend/Known.antt =====
-- src/frontend/optimizer.rs: tables of constants that are right about a frame.
use mathlib.Core.Path.{fun_ext}
use aziky.Prelude.{
  ℕ, zero, suc, ◌<◌, ◌≡◌, ◌≢◌, refl, sym, ap, arith, false, Option, none, some, [], ◌∷◌, map,
  replicate, set, length, length-set, Returns, ◌==◌, ==_iff, inl, inr, Bool-cases, lt→ltb,
  if◌then◌else◌, ◌∙◌,
}
use aziky.Ir.{RuntimeOperand, slot, imm}
use aziky.Superopt.Evaluate.{Environment, operand_value}
use aziky.Superopt.Verify.{insert}
use aziky.Frontend.Eval.{const_at, fold_operand_const, operand_const_value}
use aziky.Frontend.Fold.{Consts, store, clear_const_slots}

-- Every constant of the table is what the slot holds.
abbrev pub Right : Consts → Environment → Type 0
Right const_slots environment = (s v : ℕ) → const_at const_slots s ≡ some v → environment s ≡ some v

-- What is known of a value is that value.
abbrev pub Known : Option ℕ → ℕ → Type 0
Known known v = (w : ℕ) → known ≡ some w → w ≡ v

pub operand_const_value-Right :
    (const_slots : Consts) (environment : Environment) (o : RuntimeOperand) (a : ℕ)
    → Right const_slots environment
    → operand_value environment o ≡ some a
    → Known (operand_const_value o const_slots) a
unfolding operand_const_value
operand_const_value-Right cs environment (imm v) a right h w e = cc
operand_const_value-Right cs environment (slot s) a right h w e = cc (right s w e)

pub fold_operand_const-value :
    (const_slots : Consts) (environment : Environment) (o : RuntimeOperand)
    → Right const_slots environment
    → operand_value environment (fold_operand_const o const_slots) ≡ operand_value environment o
unfolding fold_operand_const
fold_operand_const-value cs environment (imm v) right = refl
fold_operand_const-value cs environment (slot s) right = read (const_at cs s) refl
  where
    read :
        (o : Option ℕ)
        → const_at cs s ≡ o
        → operand_value environment (elim o [ some value ↦ imm value | none ↦ slot s ])
          ≡ environment s
    read none e = refl
    read (some v) e = sym (right s v e)

const_at-set :
    (const_slots : Consts) (d t : ℕ) (known : Option ℕ)
    → d < length const_slots
    → const_at (set const_slots d known) t ≡ (if d == t then known else const_at const_slots t)
const_at-set [] d t known h = absurd (omega arith)
const_at-set (c ∷ cs) zero zero known h = refl
const_at-set (c ∷ cs) zero (suc t) known h =
    let e : (0 == suc t) ≡ false = ground arith in rw e refl
const_at-set (c ∷ cs) (suc d) zero known h =
    let e : (suc d == 0) ≡ false = ground arith in rw e refl
const_at-set (c ∷ cs) (suc d) (suc t) known h =
    let e : (suc d == suc t) ≡ (d == t) = ground arith in
    rw e (const_at-set cs d t known (omega arith))

-- A write of what is known of the value written leaves the table right.
pub store-Right :
    (const_slots : Consts) (environment : Environment) (d v : ℕ) (known : Option ℕ)
    → d < length const_slots
    → Right const_slots environment
    → Known known v
    → Returns
        (store const_slots d known)
        (λ cs'. Right cs' (insert d v environment) × (length cs' ≡ length const_slots))
store-Right cs environment d v known h right k =
    rw (lt→ltb d (length cs) h) (written, length-set cs d known)
  where
    written : Right (set cs d known) (insert d v environment)
    written s w e = elim (Bool-cases (d == s)) [
      | inl same ↦ rw same (ap some (sym (k w (rw (const_at-set cs d s known h, same) at e))))
      | inr other ↦ rw other (right s w (rw (const_at-set cs d s known h, other) at e))
    ]

-- A table of unknowns is right about every frame.
pub replicate-Right : (n : ℕ) (environment : Environment) → Right (replicate n none) environment
replicate-Right zero environment s v e = absurd (cc)
replicate-Right (suc n) environment zero v e = absurd (cc)
replicate-Right (suc n) environment (suc s) v e = absurd (unknown n s v e)
  where
    unknown : (n s v : ℕ) → const_at (replicate n none) s ≢ some v
    unknown zero s v e = cc
    unknown (suc n) zero v e = cc
    unknown (suc n) (suc s) v e = unknown n s v e

pub clear_const_slots-Right :
    (const_slots : Consts) (environment : Environment)
    → Right (clear_const_slots const_slots) environment
unfolding clear_const_slots
clear_const_slots-Right cs environment s v e = absurd (unknown cs s v e)
  where
    unknown : (cs : Consts) (s v : ℕ) → const_at (map (λ _. none) cs) s ≢ some v
    unknown [] s v e = cc
    unknown (c ∷ cs) zero v e = cc
    unknown (c ∷ cs) (suc s) v e = unknown cs s v e

pub length-clear_const_slots :
    (const_slots : Consts) → length (clear_const_slots const_slots) ≡ length const_slots
unfolding clear_const_slots
length-clear_const_slots [] = refl
length-clear_const_slots (c ∷ cs) = ap suc (length-clear_const_slots cs)

-- A write of the value that a slot holds already changes nothing.
pub insert_held :
    (environment : Environment) (d v : ℕ)
    → environment d ≡ some v
    → environment ≡ insert d v environment
insert_held environment d v h = fun_ext (λ s. elim (Bool-cases (d == s)) [
  | inl same ↦ rw same (ap environment (sym ((==_iff d s).0 same)) ∙ h)
  | inr other ↦ rw other refl
])
