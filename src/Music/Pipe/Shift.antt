-- ===== src/Music/Pipe/Shift.antt =====
-- Shift of MusicPipe.cxx, on the list of the chunks.
use mpd_dsd.Prelude.{
  ℕ, suc, ◌+◌, ◌-◌, ◌%◌, ◌^◌, ◌≡◌, refl, ap, arith, Option, none, some, true, false, List, [], ◌∷◌,
  ltb, ◌==◌, length, Yields,
}
use mpd_dsd.Prelude.Members.{IsDistinct, All, Chain, Chain-same, All-map, has_ne}
use mpd_dsd.Pcm.Format.{AudioFormat, is_defined, cleared}
use mpd_dsd.Music.Slices.{SliceBuffer, value, value_of}
use mpd_dsd.Music.Chunk.{Chunk}
use mpd_dsd.Music.Buffer.{set_chunk}
use mpd_dsd.Music.Pipe.{Tail, to_head, is_at, MusicPipe, poison, shift}
use mpd_dsd.Music.Pipe.Valid.{chunk_next, next_link, IsQueued, tail_of, IsPipe}
use mpd_dsd.Music.Pipe.Push.{
  IsRelinked, set_next-IsRelinked, relinked-IsQueued, has-tail_of, last_of,
}

-- Nothing where the pipe is empty, else the first chunk, and the pipe of the others.
abbrev pub IsShifted :
    SliceBuffer Chunk → MusicPipe → List ℕ → SliceBuffer Chunk × MusicPipe × Option ℕ → Type 0
IsShifted b p [] r = r ≡ (b, p, none)
IsShifted b p (i ∷ ys) r = (r.2 ≡ some i) × IsPipe r.0 r.1 ys × IsRelinked b r.0 (i ∷ [])

abbrev shifted_pipe : Option ℕ → Tail → ℕ → AudioFormat → MusicPipe
shifted_pipe head tail size format = record {
  head = head;
  tail_r = tail;
  size = size;
  audio_format = format;
}

-- What the chunks behind the first one keep.
behind_first :
    (b t : SliceBuffer Chunk) (p : MusicPipe) (i : ℕ) (ys : List ℕ)
    → IsPipe b p (i ∷ ys)
    → IsRelinked b t (i ∷ [])
    → Chain (next_link t) ys × All (IsQueued p.audio_format t) ys
behind_first b t p i ys h k = (
  Chain-same (next_link b) (next_link t) ys h.chained.1 (λ a m.
      ap (λ s. chunk_next (value_of s))
        (k.outside a (ground (arith, has_ne i a ys h.distinct.0 m)))),
  All-map (IsQueued p.audio_format b) _ ys h.queued.1
      (λ a m z. relinked-IsQueued p.audio_format b t (i ∷ []) a k z),
)

shifted_last-IsPipe :
    (t : SliceBuffer Chunk) (size : ℕ)
    → size ≡ 0
    → IsPipe t (shifted_pipe none to_head size cleared) []
unfolding is_defined
shifted_last-IsPipe t size e = record {
  starts = refl;
  chained = tt;
  ends = refl;
  counted = e;
  few = omega arith;
  distinct = tt;
  queued = tt;
  defined_valid = λ e. absurd (cc);
  empty_undefined = λ e. refl;
}

shifted-IsPipe :
    (b t : SliceBuffer Chunk) (p : MusicPipe) (i y : ℕ) (ys : List ℕ) (size : ℕ)
    → IsPipe b p (i ∷ y ∷ ys)
    → IsRelinked b t (i ∷ [])
    → size ≡ suc (length ys)
    → IsPipe t (shifted_pipe (some y) (tail_of (y ∷ ys)) size p.audio_format) (y ∷ ys)
shifted-IsPipe b t p i y ys size h k e = record {
  starts = refl;
  chained = (behind_first b t p i (y ∷ ys) h k).0;
  ends = refl;
  counted = e;
  few = omega (arith, h.few);
  distinct = h.distinct.1;
  queued = (behind_first b t p i (y ∷ ys) h k).1;
  defined_valid = h.defined_valid;
  empty_undefined = λ z. absurd (omega arith);
}

next_of_first :
    (b : SliceBuffer Chunk) (i : ℕ) (c : Chunk) (q : Option ℕ)
    → b.slices i ≡ value c
    → next_link b i ≡ some q
    → c.next ≡ q
next_of_first b i c q e l = cc

not_at_tail : (i y : ℕ) (ys : List ℕ) → IsDistinct (i ∷ y ∷ ys) → is_at i (tail_of (y ∷ ys)) ≡ false
not_at_tail i y ys d =
    let (z, e) = last_of y ys in rw e (has_ne i z (y ∷ ys) d.0 (has-tail_of y z ys e))

-- Shift of a valid pipe returns, gives the first chunk of the list that the links stand for and
-- leaves the valid pipe of the others, or changes nothing if the list is empty; of the buffer only
-- the link of that chunk has changed.
pub shift-IsShifted :
    (b : SliceBuffer Chunk) (p : MusicPipe) (xs : List ℕ)
    → IsPipe b p xs
    → Yields (IsShifted b p xs) (shift b p)
unfolding shift
shift-IsShifted b p [] h = simp h.starts refl
shift-IsShifted b p (i ∷ []) h =
    let (c, e, n, f) = h.queued.0 in
    let en = next_of_first b i c none e h.chained.0 in
    let es : (p.size + 2 ^ 32 - 1) % 2 ^ 32 ≡ 0 = omega (arith, h.counted) in
    let k = set_next-IsRelinked b i c (some poison) (i ∷ []) e (ground arith) in
    let ez : ((p.size + 2 ^ 32 - 1) % 2 ^ 32 == 0) ≡ true = ground (arith, es) in
    let ei : (i == i) ≡ true = ground arith in
    simp (h.starts, e, n, en, h.ends, ez, ei)
      (refl, shifted_last-IsPipe (set_chunk i (record c { next = some poison }) b) _ es, k)
shift-IsShifted b p (i ∷ y ∷ ys) h =
    let (c, e, n, f) = h.queued.0 in
    let en = next_of_first b i c (some y) e h.chained.0 in
    let es : (p.size + 2 ^ 32 - 1) % 2 ^ 32 ≡ suc (length ys) = omega (arith, h.counted, h.few) in
    let k = set_next-IsRelinked b i c (some poison) (i ∷ []) e (ground arith) in
    let ez : ((p.size + 2 ^ 32 - 1) % 2 ^ 32 == 0) ≡ false = ground (arith, es) in
    let el : ltb 0 ((p.size + 2 ^ 32 - 1) % 2 ^ 32) ≡ true = ground (arith, es) in
    simp (h.starts, e, n, en, h.ends, not_at_tail i y ys h.distinct, ez, el)
      (
        refl,
        shifted-IsPipe b (set_chunk i (record c { next = some poison }) b) p i y ys _ h k es,
        k,
      )
