-- ===== src/Music/Clear.antt =====
-- Clear of MusicPipe.cxx, on the pipe and on the buffer that its chunks go back to.
use mpd_dsd.Prelude.{
  ℕ, zero, suc, ◌<◌, ◌≡◌, refl, sym, ap, ◌∙◌, subst, arith, Option, none, some, true, List, [], ◌∷◌,
  length, Yields, Yields->>=,
}
use mpd_dsd.Prelude.Members.{has, IsDistinct, All, All-has, All-map, has_ne, remove}
use mpd_dsd.Music.Slices.{SliceBuffer, value_of}
use mpd_dsd.Music.Slices.Pool.{IsLive, IsPool}
use mpd_dsd.Music.Chunk.{Chunk}
use mpd_dsd.Music.Buffer.{return_chunk}
use mpd_dsd.Music.Pipe.{MusicPipe, shift, return_shifted, clear}
use mpd_dsd.Music.Pipe.Valid.{IsPipe}
use mpd_dsd.Music.Pipe.Shift.{IsShifted, shift-IsShifted}
use mpd_dsd.Music.Owners.{
  chunk_other, with_other, owned, remove_all, Owns, has-remove_other, IsTakenBack,
  return_chunk-IsTakenBack,
}
use mpd_dsd.Music.Frames.{relinked-IsPool, relinked-other_link, Owns-same, has-owned, same-IsPipe}

-- The pipe is empty, and these slices are live.
pub record IsCleared (live : List ℕ) (r : SliceBuffer Chunk × MusicPipe) : Type 0 where
  pub empty : IsPipe r.0 r.1 []
  pub pool : (spare : List ℕ) × IsPool r.0 spare live

IsDistinct-head :
    (q : Option ℕ) (i : ℕ) (ys : List ℕ)
    → IsDistinct (with_other q (i ∷ ys))
    → IsDistinct (with_other q (i ∷ []))
IsDistinct-head none i ys d = (refl, tt)
IsDistinct-head (some j) i ys d = (ground (arith, d.0), (refl, tt))

IsDistinct-rest :
    (q : Option ℕ) (i : ℕ) (ys : List ℕ) → IsDistinct (with_other q (i ∷ ys)) → IsDistinct ys
IsDistinct-rest none i ys d = d.1
IsDistinct-rest (some j) i ys d = d.1.1

All-head :
    (P : ℕ → Type 0) (q : Option ℕ) (i : ℕ) (ys : List ℕ)
    → All P (with_other q (i ∷ ys))
    → All P (with_other q (i ∷ []))
All-head P none i ys h = (h.0, tt)
All-head P (some j) i ys h = (h.0, (h.1.0, tt))

remove_all-head :
    (q : Option ℕ) (i : ℕ) (ys live : List ℕ)
    → remove_all (with_other q (i ∷ ys)) live
      ≡ remove_all ys (remove_all (with_other q (i ∷ [])) live)
remove_all-head none i ys live = refl
remove_all-head (some j) i ys live = refl

-- The chunks behind the first one stay live when it goes.
All-rest :
    (q : Option ℕ) (i : ℕ) (ys live : List ℕ)
    → IsDistinct (with_other q (i ∷ ys))
    → All (λ a. has a live ≡ true) (with_other q (i ∷ ys))
    → All (λ a. has a (remove_all (with_other q (i ∷ [])) live) ≡ true) ys
All-rest none i ys live d h =
    All-map _ _ ys h.1 (λ a m l. has-remove_other a i live l (ground (arith, has_ne i a ys d.0 m)))
All-rest (some j) i ys live d h = All-map _ _ ys h.1.1 (λ a m l.
    has-remove_other a i (remove j live)
      (has-remove_other a j live l (ground (arith, has_ne j a (i ∷ ys) d.0 (ground arith))))
      (ground (arith, has_ne i a ys d.1.0 m)))

held_at :
    (b : SliceBuffer Chunk) (i : ℕ) (spare live : List ℕ)
    → IsPool b spare live
    → has i live ≡ true
    → IsLive b i
held_at b i spare live h m = All-has (IsLive b) i live h.live_hold m

has-first :
    (q : Option ℕ) (i : ℕ) (ys live : List ℕ)
    → All (λ a. has a live ≡ true) (with_other q (i ∷ ys))
    → has i live ≡ true
has-first none i ys live h = h.0
has-first (some j) i ys live h = h.1.0

-- Clear ends, within one round more than the pipe has chunks, with an empty pipe and exactly the
-- chunks of the pipe, and those that are mixed into them, given back to the buffer, where the buffer
-- is a pool and the pipe valid, no two chunks of the pipe own one slice, all the slices that they
-- own are live, and a chunk that is mixed into another has none mixed into itself.
pub clear-IsCleared :
    (fuel : ℕ) (b : SliceBuffer Chunk) (p : MusicPipe) (o : ℕ → Option ℕ) (xs spare live : List ℕ)
    → length xs < fuel
    → IsPool b spare live
    → IsPipe b p xs
    → Owns b o xs
    → IsDistinct (owned o xs)
    → All (λ a. has a live ≡ true) (owned o xs)
    → Yields (IsCleared (remove_all (owned o xs) live)) (clear fuel b p)
unfolding clear
clear-IsCleared zero b p o xs spare live lt hb hp w d l = absurd (omega arith)
clear-IsCleared (suc fuel) b p o [] spare live lt hb hp w d l =
    Yields->>= (IsShifted b p []) (IsCleared live) (shift b p)
      (λ r. return_shifted r.2 r.0 r.1 (clear fuel)) (shift-IsShifted b p [] hp)
      (λ r e.
        subst (λ s. Yields (IsCleared live) (return_shifted s.2 s.0 s.1 (clear fuel))) (sym e)
          (record { empty = hp; pool = (spare, hb) }))
clear-IsCleared (suc fuel) b p o (i ∷ ys) spare live lt hb hp w d l =
    Yields->>= (IsShifted b p (i ∷ ys)) (IsCleared gone) (shift b p)
      (λ r. return_shifted r.2 r.0 r.1 (clear fuel)) (shift-IsShifted b p (i ∷ ys) hp)
      (λ (t, q, shifted) (e, hq, k).
        let hb' =
          relinked-IsPool b t i spare live k
            (held_at b i spare live hb (has-first (o i) i (owned o ys) live l)) hb in
        let w' = Owns-same b t o (i ∷ ys) w (λ a r m. relinked-other_link b t (i ∷ []) a k) in
        rw (e, remove_all-head (o i) i (owned o ys) live)
          (Yields->>= (IsTakenBack t (rest live)) (IsCleared (remove_all (owned o ys) (rest live)))
            (return_chunk i t) (λ u. clear fuel u q)
            (return_chunk-IsTakenBack t i (o i) spare live hb' w'.0 w'.1
              (IsDistinct-head (o i) i (owned o ys) d)
              (All-head (λ a. has a live ≡ true) (o i) i (owned o ys) l))
            (λ u v.
              let stay = All-rest (o i) i (owned o ys) live d l in
              let same : (a : ℕ) → has a (owned o ys) ≡ true → u.slices a ≡ t.slices a =
                λ a m. v.spares a (All-has (λ c. has c (rest live) ≡ true) a (owned o ys) stay m) in
              clear-IsCleared fuel u q o ys v.pool.0 (rest live) (omega arith) v.pool.1
                (same-IsPipe t u q ys hq (λ a m. same a (has-owned o a ys m)))
                (Owns-same t u o ys w'.2
                  (λ a r m f. ap (λ s. chunk_other (value_of s)) (same a m) ∙ f))
                (IsDistinct-rest (o i) i (owned o ys) d) stay)))
  where
    gone : List ℕ
    gone = remove_all (owned o (i ∷ ys)) live

    rest : List ℕ → List ℕ
    rest = remove_all (with_other (o i) (i ∷ []))
