-- ===== src/Music/Pipe/Contains.antt =====
-- The search for a chunk in a pipe.
use mpd_dsd.Prelude.{
  ℕ, zero, suc, ◌≤◌, ◌≡◌, refl, arith, Option, some, Bool, true, List, [], ◌∷◌, ◌==◌, ◌||◌,
  if◌then◌else◌, ◌>>=◌, length, Option-cases, inl, inr, false,
}
use mpd_dsd.Prelude.Members.{has, first, Chain}
use mpd_dsd.Music.Slices.{SliceBuffer}
use mpd_dsd.Music.Chunk.{Chunk}
use mpd_dsd.Music.Buffer.{get_chunk}
use mpd_dsd.Music.Pipe.{MusicPipe, contains_from}
use mpd_dsd.Music.Pipe.Valid.{next_link, IsPipe}

chunk_of_link :
    (b : SliceBuffer Chunk) (j : ℕ) {q : Option ℕ}
    → next_link b j ≡ some q
    → (c : Chunk) × (get_chunk j b ≡ some c) × (c.next ≡ q)
chunk_of_link b j e = elim (Option-cases (get_chunk j b)) [
  | inl n ↦ absurd (cc)
  | inr r ↦ (r.0, r.1, cc)
]

if_or : (t u : Bool) → (if t then some true else some u) ≡ some (t || u)
if_or true u = refl
if_or false u = refl

contains_linked :
    (fuel i : ℕ) (b : SliceBuffer Chunk) (xs : List ℕ)
    → length xs ≤ fuel
    → Chain (next_link b) xs
    → contains_from fuel i (first xs) b ≡ some (has i xs)
unfolding contains_from
contains_linked zero i b [] l c = refl
contains_linked (suc fuel) i b [] l c = refl
contains_linked zero i b (x ∷ xs) l c = absurd (omega arith)
contains_linked (suc fuel) i b (x ∷ xs) l c =
    let (d, ed, en) = chunk_of_link b x c.0 in
    let swapped : (x == i) ≡ (i == x) = ground arith in
    let rest : (get_chunk x b >>= λ c. contains_from fuel i c.next b) ≡ some (has i xs) =
      simp ed (rw en (contains_linked fuel i b xs (omega arith) c.1)) in
    simp (rest, swapped) (if_or (i == x) (has i xs))

-- Contains
pub contains_from_lem :
    (fuel i : ℕ) (b : SliceBuffer Chunk) (p : MusicPipe) (xs : List ℕ)
    → IsPipe b p xs
    → p.size ≤ fuel
    → contains_from fuel i p.head b ≡ some (has i xs)
contains_from_lem fuel i b p xs h l =
    simp h.starts (contains_linked fuel i b xs (omega (arith, h.counted)) h.chained)
