-- ===== src/Prelude/Members.antt =====
-- Membership in lists of numbers, distinctness, removal, and chains of links through a list.
use Prim.Native.Nat.{ℕ, suc}
use mathlib.Core.Path.{◌≡◌, refl, ◌∙◌, subst, ap}
use mathlib.Core.Logic.{inl, inr}
use mathlib.Core.Bool.{Bool, true, false, ◌||◌}
use mathlib.Core.List.{List, [], ◌∷◌, ◌++◌}
use mathlib.Core.Option.{Option, none, some}
use native.Mathlib.Omega.{arith}
use mpd_dsd.Prelude.Tests.{◌==◌, if◌then◌else◌, Bool-cases, if_cases}
use mpd_dsd.Prelude.Lists.{length}
use mpd_dsd.Prelude.Arrays.{put}

abbrev pub has : ℕ → List ℕ → Bool
has a [] = false
has a (x ∷ xs) = (a == x) || has a xs

abbrev pub IsDistinct : List ℕ → Type 0
IsDistinct [] = Unit
IsDistinct (x ∷ xs) = (has x xs ≡ false) × IsDistinct xs

abbrev pub All {ℓ κ} : {A : Type ℓ} → (A → Type κ) → List A → Type κ
All P [] = Unit
All P (x ∷ xs) = P x × All P xs

-- The list without the first occurrence of a number.
abbrev pub remove : ℕ → List ℕ → List ℕ
remove a [] = []
remove a (x ∷ xs) = if a == x then xs else x ∷ remove a xs

abbrev pub first {ℓ} : {A : Type ℓ} → List A → Option A
first [] = none
first (x ∷ xs) = some x

pub All-has {κ} : (P : ℕ → Type κ) (a : ℕ) (xs : List ℕ) → All P xs → has a xs ≡ true → P a
All-has P a [] h m = absurd (cc)
All-has P a (x ∷ xs) h m = elim (Bool-cases (a == x)) [
  | inl e ↦ let e' : x ≡ a = ground arith in subst P e' h.0
  | inr e ↦ All-has P a xs h.1 (ground arith)
]

-- A property of the members passes to another that it implies for members.
pub All-map {κ μ} :
    (P : ℕ → Type κ) (Q : ℕ → Type μ) (xs : List ℕ)
    → All P xs
    → ((a : ℕ) → has a xs ≡ true → P a → Q a)
    → All Q xs
All-map P Q [] h f = tt
All-map P Q (x ∷ xs) h f = (f x (ground arith) h.0, All-map P Q xs h.1 (λ a m. f a (ground arith)))

pub All-remove {κ} : (P : ℕ → Type κ) (a : ℕ) (xs : List ℕ) → All P xs → All P (remove a xs)
All-remove P a [] h = tt
All-remove P a (x ∷ xs) h = if_cases (All P) (a == x) (λ e. h.1) (λ e. (h.0, All-remove P a xs h.1))

pub has-remove : (a b : ℕ) (xs : List ℕ) → has b (remove a xs) ≡ true → has b xs ≡ true
has-remove a b [] m = m
has-remove a b (x ∷ xs) m = ground (arith, has-remove a b xs)

pub remove-IsDistinct : (a : ℕ) (xs : List ℕ) → IsDistinct xs → IsDistinct (remove a xs)
remove-IsDistinct a [] h = tt
remove-IsDistinct a (x ∷ xs) h =
    if_cases IsDistinct (a == x) (λ e. h.1)
      (λ e. (
        elim (Bool-cases (has x (remove a xs))) [
          | inl m ↦ absurd (ground (arith, has-remove a x xs m, h.0))
          | inr m ↦ m
        ],
        remove-IsDistinct a xs h.1,
      ))

pub has-remove_self : (a : ℕ) (xs : List ℕ) → IsDistinct xs → has a (remove a xs) ≡ false
has-remove_self a [] h = refl
has-remove_self a (x ∷ xs) h = ground (arith, has-remove_self a xs h.1)

pub length-remove : (a : ℕ) (xs : List ℕ) → has a xs ≡ true → suc (length (remove a xs)) ≡ length xs
length-remove a [] m = absurd (cc)
length-remove a (x ∷ xs) m = ground (arith, length-remove a xs)

pub has-append : (a : ℕ) (xs ys : List ℕ) → has a (xs ++ ys) ≡ (has a xs || has a ys)
has-append a [] ys = refl
has-append a (x ∷ xs) ys = ground (arith, has-append a xs ys)

-- Each member links to the next one, and the last to nothing.
abbrev pub Chain : (ℕ → Option (Option ℕ)) → List ℕ → Type 0
Chain link [] = Unit
Chain link (i ∷ xs) = (link i ≡ some (first xs)) × Chain link xs

-- A chain survives any change that spares its members.
pub Chain-same :
    (link link' : ℕ → Option (Option ℕ)) (xs : List ℕ)
    → Chain link xs
    → ((a : ℕ) → has a xs ≡ true → link' a ≡ link a)
    → Chain link' xs
Chain-same link link' [] h f = tt
Chain-same link link' (i ∷ xs) h f =
    (f i (ground arith) ∙ h.0, Chain-same link link' xs h.1 (λ a m. f a (ground arith)))

pub has_ne : (i j : ℕ) (xs : List ℕ) → has i xs ≡ false → has j xs ≡ true → (i == j) ≡ false
has_ne i j xs out m = elim (Bool-cases (i == j)) [
  | inl e ↦ let e' : i ≡ j = ground arith in absurd (ground (arith, ap (λ k. has k xs) e'))
  | inr e ↦ e
]

-- A write beside the members of a list is not seen at them.
pub put_other {ℓ} :
    {A : Type ℓ} (c : ℕ → A) (i j : ℕ) (v : A) (xs : List ℕ)
    → has i xs ≡ false
    → has j xs ≡ true
    → put c i v j ≡ c j
put_other c i j v xs out m =
    let e : (j == i) ≡ false = ground (arith, has_ne i j xs out m) in rw e refl
