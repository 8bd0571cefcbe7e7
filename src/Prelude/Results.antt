-- ===== src/Prelude/Results.antt =====
-- Fallible steps as options, and what they yield.
use mathlib.Core.Path.{◌≡◌, sym, subst}
use mathlib.Core.Option.{Option, none, some}

infixl 5 ◌>>=◌
abbrev pub ◌>>=◌ {ℓ κ} : {A : Type ℓ} {B : Type κ} → Option A → (A → Option B) → Option B
none >>= f = none
some a >>= f = f a

-- The result is there, and has the property.
abbrev pub Yields {ℓ} : {A : Type ℓ} → (A → Type 0) → Option A → Type 0
Yields Q none = ⊥
Yields Q (some a) = Q a

pub Yields-map {ℓ} :
    {A : Type ℓ} (Q R : A → Type 0) (o : Option A) → Yields Q o → ((a : A) → Q a → R a) → Yields R o
Yields-map Q R none h f = h
Yields-map Q R (some a) h f = f a h

pub Yields->>= {ℓ κ} :
    {A : Type ℓ} {B : Type κ} (Q : A → Type 0) (R : B → Type 0) (o : Option A) (k : A → Option B)
    → Yields Q o
    → ((a : A) → Q a → Yields R (k a))
    → Yields R (o >>= k)
Yields->>= Q R none k h f = h
Yields->>= Q R (some a) k h f = f a h

pub Yields-some {ℓ} :
    {A : Type ℓ} (Q : A → Type 0) (o : Option A) {a : A} → o ≡ some a → Q a → Yields Q o
Yields-some Q o e h = subst (Yields Q) (sym e) h

-- Where there is a result, it has the property.
abbrev pub Allows : {A : Type 0} → (A → Type 0) → Option A → Type 0
Allows Q none = Unit
Allows Q (some a) = Q a

pub Allows-some :
    {A : Type 0} (Q : A → Type 0) (o : Option A) {a : A} → o ≡ some a → Allows Q o → Q a
Allows-some Q o e h = subst (Allows Q) e h

pub Allows->>= :
    {A B : Type 0} (P : A → Type 0) (Q : B → Type 0) (o : Option A) (k : A → Option B)
    → Allows P o
    → ((a : A) → P a → Allows Q (k a))
    → Allows Q (o >>= k)
Allows->>= P Q none k h f = tt
Allows->>= P Q (some a) k h f = f a h

pub Allows-map :
    {A : Type 0} (P Q : A → Type 0) (o : Option A) → Allows P o → ((a : A) → P a → Q a) → Allows Q o
Allows-map P Q none h f = tt
Allows-map P Q (some a) h f = f a h
