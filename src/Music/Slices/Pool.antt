-- ===== src/Music/Slices/Pool.antt =====
-- The slice buffer as a pool: which slices are free, which hold a value.
use mpd_dsd.Prelude.{
  ℕ, ◌+◌, ◌<◌, ◌≤◌, ◌≡◌, arith, Option, none, some, true, false, List, [], ◌∷◌, ◌==◌, Bool-cases,
  length, inl, inr,
}
use mpd_dsd.Prelude.Arrays.{Array}
use mpd_dsd.Prelude.Members.{has, IsDistinct, All, first, All-has, Chain}
use mpd_dsd.Music.Slices.{Slice, SliceBuffer, value, next_free, new_slices}

module _ {A : Type 0} where
  abbrev pub free_link : SliceBuffer A → ℕ → Option (Option ℕ)
  free_link b i = next_free (b.slices i)

  -- The slice holds a value.
  abbrev pub IsLive : SliceBuffer A → ℕ → Type 0
  IsLive b i = (a : A) × (b.slices i ≡ value a)

  -- `spare` are the free slices in the order of their chain, `live` those that hold a value.
  pub record IsPool (b : SliceBuffer A) (spare live : List ℕ) : Type 0 where
    pub initialized_max : b.n_initialized ≤ b.n_max
    pub counted : b.n_allocated ≡ length live
    pub all_counted : length spare + length live ≡ b.n_initialized
    pub starts : b.available ≡ first spare
    pub chained : Chain (free_link b) spare
    pub spare_below : All (λ i. i < b.n_initialized) spare
    pub live_below : All (λ i. i < b.n_initialized) live
    pub spare_distinct : IsDistinct spare
    pub live_distinct : IsDistinct live
    pub live_hold : All (IsLive b) live

  pub new_slices-IsPool :
      (count : ℕ) (pages : Array (Slice A)) → IsPool (new_slices count pages) [] []
  new_slices-IsPool count pages = ground arith

  -- A free slice holds no value.
  pub free_slice_unheld :
      (b : SliceBuffer A) (i : ℕ) {q : Option ℕ} → free_link b i ≡ some q → ¬ IsLive b i
  free_slice_unheld b i l (a, e) = cc

  linked_of_has :
      (b : SliceBuffer A) (xs : List ℕ) (i : ℕ)
      → Chain (free_link b) xs
      → has i xs ≡ true
      → (q : Option ℕ) × (free_link b i ≡ some q)
  linked_of_has b [] i h m = absurd (cc)
  linked_of_has b (x ∷ xs) i h m = elim (Bool-cases (i == x)) [
    | inl e ↦ let e' : i ≡ x = ground arith in (first xs, rw e' h.0)
    | inr e ↦ linked_of_has b xs i h.1 (ground arith)
  ]

  pub live_not_spare :
      (b : SliceBuffer A) (xs : List ℕ) (i : ℕ)
      → Chain (free_link b) xs
      → IsLive b i
      → has i xs ≡ false
  live_not_spare b xs i c h = elim (Bool-cases (has i xs)) [
    | inl m ↦ absurd (free_slice_unheld b i (linked_of_has b xs i c m).1 h)
    | inr m ↦ m
  ]

  pub spare_not_live :
      (b : SliceBuffer A) (xs : List ℕ) (i : ℕ) {q : Option ℕ}
      → All (IsLive b) xs
      → free_link b i ≡ some q
      → has i xs ≡ false
  spare_not_live b xs i h l = elim (Bool-cases (has i xs)) [
    | inl m ↦ absurd (free_slice_unheld b i l (All-has (IsLive b) i xs h m))
    | inr m ↦ m
  ]

  -- The slice `i` of `t` is new, holds `a`, and the slices that were live are as before.
  pub record IsTaken (a : A) (b : SliceBuffer A) (live : List ℕ) (t : SliceBuffer A) (i : ℕ)
      : Type 0 where
    pub fresh : has i live ≡ false
    pub in_pool : i < b.n_max
    pub same_max : t.n_max ≡ b.n_max
    pub holds : t.slices i ≡ value a
    pub spares : (j : ℕ) → has j live ≡ true → t.slices j ≡ b.slices j
    pub pool : (spare : List ℕ) × IsPool t spare (i ∷ live)

  -- A pool without a free slice, which stays as it is, or one with a new live slice.
  abbrev pub IsAllocated : A → SliceBuffer A → List ℕ → SliceBuffer A × Option ℕ → Type 0
  IsAllocated a b live (t, none) = (t ≡ b) × (length live ≡ b.n_max)
  IsAllocated a b live (t, some i) = IsTaken a b live t i
