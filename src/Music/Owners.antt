-- ===== src/Music/Owners.antt =====
-- Which slices the chunks of a pipe own, and how the buffer takes them back.
use mpd_dsd.Prelude.{
  ℕ, ◌≡◌, inl, inr, ◌∙◌, arith, Option, none, some, true, false, List, [], ◌∷◌, ◌==◌, ◌>>=◌,
  Option-cases, Yields, Yields-map, Yields->>=,
}
use mpd_dsd.Prelude.Members.{has, IsDistinct, All, remove, has-remove}
use mpd_dsd.Music.Slices.{SliceBuffer, free}
use mpd_dsd.Music.Slices.Pool.{IsPool}
use mpd_dsd.Music.Slices.Steps.{IsFreed, free-IsFreed}
use mpd_dsd.Music.Chunk.{Chunk}
use mpd_dsd.Music.Buffer.{get_chunk, return_chunk}

abbrev pub chunk_other : Option Chunk → Option (Option ℕ)
chunk_other none = none
chunk_other (some c) = some c.other

-- The chunk that is mixed into this one.
abbrev pub other_link : SliceBuffer Chunk → ℕ → Option (Option ℕ)
other_link b i = chunk_other (get_chunk i b)

abbrev pub with_other : Option ℕ → List ℕ → List ℕ
with_other none xs = xs
with_other (some j) xs = j ∷ xs

-- The chunks of a list, each behind the one that is mixed into it, which `o` tells.
abbrev pub owned : (ℕ → Option ℕ) → List ℕ → List ℕ
owned o [] = []
owned o (i ∷ xs) = with_other (o i) (i ∷ owned o xs)

abbrev pub remove_all : List ℕ → List ℕ → List ℕ
remove_all [] live = live
remove_all (a ∷ gone) live = remove_all gone (remove a live)

-- A chunk that is mixed in has no other itself.
abbrev pub HasNoOther : SliceBuffer Chunk → Option ℕ → Type 0
HasNoOther b none = Unit
HasNoOther b (some j) = other_link b j ≡ some none

abbrev pub Owns : SliceBuffer Chunk → (ℕ → Option ℕ) → List ℕ → Type 0
Owns b o [] = Unit
Owns b o (i ∷ xs) = (other_link b i ≡ some (o i)) × HasNoOther b (o i) × Owns b o xs

pub has-remove_other :
    (a i : ℕ) (live : List ℕ) → has a live ≡ true → (a == i) ≡ false → has a (remove i live) ≡ true
has-remove_other a i [] m ne = m
has-remove_other a i (x ∷ live) m ne = ground (arith, has-remove_other a i live)

-- The slices that stay live are as before.
pub record IsTakenBack (b : SliceBuffer Chunk) (live : List ℕ) (t : SliceBuffer Chunk)
    : Type 0 where
  pub spares : (j : ℕ) → has j live ≡ true → t.slices j ≡ b.slices j
  pub pool : (spare : List ℕ) × IsPool t spare live

free-IsTakenBack :
    (b : SliceBuffer Chunk) (i : ℕ) (spare live : List ℕ)
    → IsPool b spare live
    → has i live ≡ true
    → Yields (IsTakenBack b (remove i live)) (free i b)
free-IsTakenBack b i spare live h m =
    Yields-map (IsFreed b live i) (IsTakenBack b (remove i live)) (free i b)
      (free-IsFreed b i spare live h m) (λ t f. record { spares = f.spares; pool = f.pool })

pub get_other :
    (b : SliceBuffer Chunk) (i : ℕ) {q : Option ℕ}
    → other_link b i ≡ some q
    → (c : Chunk) × (get_chunk i b ≡ some c) × (c.other ≡ q)
get_other b i e = elim (Option-cases (get_chunk i b)) [
  | inl n ↦ absurd (cc)
  | inr r ↦ (r.0, r.1, cc)
]

free_two-IsTakenBack :
    (b : SliceBuffer Chunk) (i j : ℕ) (spare live : List ℕ)
    → IsPool b spare live
    → (i == j) ≡ false
    → has j live ≡ true
    → has i live ≡ true
    → Yields (IsTakenBack b (remove i (remove j live))) (free j b >>= free i)
free_two-IsTakenBack b i j spare live h ne lj li =
    Yields->>= (IsTakenBack b (remove j live)) (IsTakenBack b (remove i (remove j live))) (free j b)
      (free i) (free-IsTakenBack b j spare live h lj)
      (λ t k.
        Yields-map (IsTakenBack t (remove i (remove j live))) _ (free i t)
          (free-IsTakenBack t i k.pool.0 (remove j live) k.pool.1 (has-remove_other i j live li ne))
          (λ u w. record {
            spares = λ a m. w.spares a m ∙ k.spares a (has-remove i a (remove j live) m);
            pool = w.pool;
          }))

-- Return
pub return_chunk-IsTakenBack :
    (b : SliceBuffer Chunk) (i : ℕ) (q : Option ℕ) (spare live : List ℕ)
    → IsPool b spare live
    → other_link b i ≡ some q
    → HasNoOther b q
    → IsDistinct (with_other q (i ∷ []))
    → All (λ a. has a live ≡ true) (with_other q (i ∷ []))
    → Yields (IsTakenBack b (remove_all (with_other q (i ∷ [])) live)) (return_chunk i b)
unfolding return_chunk
return_chunk-IsTakenBack b i none spare live h e n d l =
    let (c, ec, eo) = get_other b i e in rw (ec, eo) (free-IsTakenBack b i spare live h l.0)
return_chunk-IsTakenBack b i (some j) spare live h e n d l =
    let (c, ec, eo) = get_other b i e in
    let (f, ef, fo) = get_other b j n in
    let two = free_two-IsTakenBack b i j spare live h (ground (arith, d.0)) l.0 l.1.0 in
    simp (ec, eo, ef, fo) two
