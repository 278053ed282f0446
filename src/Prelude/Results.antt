-- ===== src/Prelude/Results.antt =====
-- Chains of steps that may not return: `none` is a halted kernel (a failed assertion, a NULL
-- pointer followed, or a lock taken twice), or one that reads memory outside of an array.
use mathlib.Core.Bool.{Bool, true, false}
use spoon_microkernel.Prelude.Tests.{if◌then◌else◌}
use mathlib.Core.Option.{Option, none, some}
use mathlib.Core.Path.{◌≡◌, refl}

infixl 5 ◌>>=◌ ◌>>◌
abbrev pub ◌>>=◌ {ℓ κ} : {A : Type ℓ} {B : Type κ} → Option A → (A → Option B) → Option B
none >>= f = none
some a >>= f = f a

abbrev pub ◌>>◌ {ℓ} : {B : Type ℓ} → Option (Unit {0}) → Option B → Option B
m >> next = m >>= λ _. next

-- `assert( condition )`
abbrev pub assert : Bool → Option (Unit {0})
assert true = some tt
assert false = none

-- The steps return, and what they return has the property.
abbrev pub Returns {ℓ} : {A : Type ℓ} → Option A → (A → Type 0) → Type 0
Returns none P = ⊥
Returns (some a) P = P a

pub Returns-map :
    {A : Type 0} (o : Option A) (P Q : A → Type 0)
    → ((a : A) → P a → Q a)
    → Returns o P
    → Returns o Q
Returns-map none P Q f h = h
Returns-map (some a) P Q f h = f a h

pub Returns-bind :
    {A B : Type 0} (o : Option A) (f : A → Option B) (P : A → Type 0) (Q : B → Type 0)
    → ((a : A) → P a → Returns (f a) Q)
    → Returns o P
    → Returns (o >>= f) Q
Returns-bind none f P Q g h = h
Returns-bind (some a) f P Q g h = g a h

-- If the steps return, what they return has the property.
pub data After {A : Type 0} (P : A → Type 0) : Option A → Type 0 where
  halts : After P none
  goes : {a : A} → P a → After P (some a)

pub After-bind :
    {A B : Type 0} {Q : A → Type 0} {P : B → Type 0} {m : Option A} {f : A → Option B}
    → After Q m
    → ((a : A) → Q a → After P (f a))
    → After P (m >>= f)
After-bind halts g = halts
After-bind (goes {a = a} h) g = g a h

pub After-guard :
    {B : Type 0} {P : B → Type 0} (b : Bool) {m : Option B}
    → After P m
    → After P (assert b >>= λ _. m)
After-guard true h = h
After-guard false h = halts

pub After-map :
    {A : Type 0} {P Q : A → Type 0} {o : Option A} → ((a : A) → P a → Q a) → After P o → After Q o
After-map f halts = halts
After-map f (goes {a = a} h) = goes (f a h)

pub After-any : {A : Type 0} (o : Option A) → After (λ _. Unit {0}) o
After-any none = halts
After-any (some a) = goes tt

pub After-if :
    {A : Type 0} {P : A → Type 0} (b : Bool) {m n : Option A}
    → After P m
    → After P n
    → After P (if b then m else n)
After-if true h g = h
After-if false h g = g

-- Steps that return, with a property of what they may return.
pub Returns-After :
    {A : Type 0} (o : Option A) (P Q : A → Type 0)
    → Returns o P
    → After Q o
    → Returns o (λ a. P a × Q a)
Returns-After none P Q h a = h
Returns-After (some a) P Q h (goes q) = (h, q)

-- What steps that return give.
pub Returns-some :
    {A : Type 0} (o : Option A) (P : A → Type 0) → Returns o P → (a : A) × (o ≡ some a) × P a
Returns-some none P h = absurd h
Returns-some (some a) P h = (a, refl, h)
