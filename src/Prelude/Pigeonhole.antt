-- ===== src/Prelude/Pigeonhole.antt =====
-- Injections between initial segments of the numbers.
use Prim.Native.Nat.{ℕ, zero, suc, ◌<◌, ◌≤◌}
use mathlib.Core.Path.{◌≡◌}
use mathlib.Core.Logic.{◌≢◌, ◌⊎◌, inl, inr}
use native.Mathlib.Omega.{arith}
use native.Mathlib.Decide.{ℕ_discrete}
use mpd_dsd.Prelude.Tests.{◌==◌, if◌then◌else◌}

-- f maps [0, m) into [0, n).
abbrev pub Below : (ℕ → ℕ) → ℕ → ℕ → Type 0
Below f m n = (i : ℕ) → i < m → f i < n

-- f is injective on [0, m).
abbrev pub Injective : (ℕ → ℕ) → ℕ → Type 0
Injective f m = (i j : ℕ) → i < m → j < m → f i ≡ f j → i ≡ j

-- The search for a preimage.
pub find_preimage :
    (f : ℕ → ℕ) (p m : ℕ) → ((i : ℕ) × (i < m) × (f i ≡ p)) ⊎ ((i : ℕ) → i < m → f i ≢ p)
find_preimage f p zero = inr (λ i h e. elim h [ ])
find_preimage f p (suc m) = elim (find_preimage f p m) [
  | inl (i, h, e) ↦ inl (i, omega arith, e)
  | inr none_below ↦ elim (ℕ_discrete (f m) p) [
    | yes e ↦ inl (m, omega arith, e)
    | no ne ↦ inr (λ i h e. elim (ℕ_discrete i m) [
      | yes q ↦ ne (ground arith)
      | no q ↦ none_below i (omega arith) e
    ])
  ]
]

-- `f`, with the value `n` replaced by `f m`: it keeps an injection of [0, m + 1) out of `n`.
abbrev replug : (ℕ → ℕ) → ℕ → ℕ → ℕ → ℕ
replug f m n i = if f i == n then f m else f i

replug-Below :
    (f : ℕ → ℕ) (m n : ℕ) → Below f (suc m) (suc n) → Injective f (suc m) → Below (replug f m n) m n
replug-Below f m n b inj i h =
    ground (arith, b i (omega arith), b m (omega arith), inj i m (omega arith) (omega arith))

replug-Injective : (f : ℕ → ℕ) (m n : ℕ) → Injective f (suc m) → Injective (replug f m n) m
replug-Injective f m n inj i j hi hj = ground (
  arith,
  inj i j (omega arith) (omega arith),
  inj i m (omega arith) (omega arith),
  inj j m (omega arith) (omega arith),
)

-- No injection goes into a smaller segment.
pub pigeonhole : (n m : ℕ) (f : ℕ → ℕ) → Below f m n → Injective f m → m ≤ n
pigeonhole n zero f b inj = omega arith
pigeonhole zero (suc m) f b inj = absurd (elim (b m (omega arith)) [ ])
pigeonhole (suc n) (suc m) f b inj =
    omega
      (arith, pigeonhole n m (replug f m n) (replug-Below f m n b inj) (replug-Injective f m n inj))

-- The value `p` is sent to the last place, `n`, which then stands in for it.
abbrev avoid : (ℕ → ℕ) → ℕ → ℕ → ℕ → ℕ
avoid f p n i = if f i == n then p else f i

-- An injection of a segment into itself meets every value.
pub preimage :
    (n : ℕ) (f : ℕ → ℕ)
    → Below f n n
    → Injective f n
    → (p : ℕ) → p < n
    → (i : ℕ) × (i < n) × (f i ≡ p)
preimage n f b inj p h = elim (find_preimage f p n) [
  | inl found ↦ found
  | inr missed ↦ absurd (too_many n f b inj p h missed)
]
  where
    too_many :
        (n : ℕ) (f : ℕ → ℕ)
        → Below f n n
        → Injective f n
        → (p : ℕ) → p < n
        → ((i : ℕ) → i < n → f i ≢ p)
        → ⊥
    too_many zero f b inj p h missed = elim h [ ]
    too_many (suc k) f b inj p h missed = omega (
      arith,
      pigeonhole k (suc k) (avoid f p k) (λ i hi. ground (arith, b i hi, missed i hi))
          (λ i j hi hj. ground (arith, inj i j hi hj, missed i hi, missed j hj)),
    )
