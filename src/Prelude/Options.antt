-- ===== src/Prelude/Options.antt =====
-- `Option` as the result of code that may fail: Rust's `?`, and total correctness.
use mathlib.Core.Option.{Option, none, some}
use mathlib.Core.Path.{◌≡◌, refl}

infixl 1 ◌>>=◌
abbrev pub ◌>>=◌ {ℓ κ} : {A : Type ℓ} {B : Type κ} → Option A → (A → Option B) → Option B
none >>= f = none
some a >>= f = f a

-- A result, of which the predicate holds.
abbrev pub Returns {ℓ} : {A : Type ℓ} → Option A → (A → Type 0) → Type 0
Returns none P = ⊥
Returns (some a) P = P a

pub Returns-bind {ℓ κ} :
    {A : Type ℓ} {B : Type κ} (m : Option A) (f : A → Option B) (P : A → Type 0) (Q : B → Type 0)
    → Returns m P
    → ((a : A) → P a → Returns (f a) Q)
    → Returns (m >>= f) Q
Returns-bind none f P Q h k = absurd h
Returns-bind (some a) f P Q h k = k a h

-- What is returned, written out.
pub Returns-result {ℓ} :
    {A : Type ℓ} (m : Option A) (P : A → Type 0) → Returns m P → (a : A) × (m ≡ some a) × P a
Returns-result none P h = absurd h
Returns-result (some a) P h = (a, refl, h)

pub Returns-mono {ℓ} :
    {A : Type ℓ} (m : Option A) (P Q : A → Type 0)
    → Returns m P
    → ((a : A) → P a → Q a)
    → Returns m Q
Returns-mono none P Q h k = h
Returns-mono (some a) P Q h k = k a h

-- A chain that returns has a first result.
pub bind-some {ℓ κ} :
    {A : Type ℓ} {B : Type κ} (m : Option A) (f : A → Option B) (b : B)
    → (m >>= f) ≡ some b
    → (a : A) × (m ≡ some a) × (f a ≡ some b)
bind-some none f b h = cc
bind-some (some a) f b h = (a, refl, h)

pub some_is {ℓ} : {A : Type ℓ} {x y : A} → some x ≡ some y → x ≡ y
some_is e = cc
