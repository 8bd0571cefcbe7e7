-- ===== src/Music/Pipe/Valid.antt =====
-- A pipe as the list of its chunks, from the head to the tail.
use mpd_dsd.Prelude.{
  ℕ, ◌<◌, ◌^◌, ◌≡◌, ◌⊎◌, inl, inr, refl, arith, Option, none, some, true, false, not, ◌&&◌, ◌||◌,
  List, [], ◌∷◌, ltb, ◌==◌, Bool-cases, length,
}
use mpd_dsd.Prelude.Members.{IsDistinct, All, first, Chain}
use mpd_dsd.Pcm.Format.{AudioFormat, is_defined, is_valid}
use mpd_dsd.Music.Slices.{SliceBuffer, value}
use mpd_dsd.Music.Chunk.{Chunk, is_empty_chunk, check_format, same_format}
use mpd_dsd.Music.Buffer.{get_chunk}
use mpd_dsd.Music.Pipe.{Tail, to_head, to_next, MusicPipe, new_pipe, may_push}

abbrev pub chunk_next : Option Chunk → Option (Option ℕ)
chunk_next none = none
chunk_next (some c) = some c.next

-- Where the link of a chunk leads.
abbrev pub next_link : SliceBuffer Chunk → ℕ → Option (Option ℕ)
next_link b i = chunk_next (get_chunk i b)

-- A chunk with data has a valid format, which is this one.
abbrev pub IsFormat : AudioFormat → Chunk → Type 0
IsFormat f c = (c.length ≡ 0) ⊎ ((c.audio_format ≡ f) × (is_valid f ≡ true))

abbrev pub IsQueued : AudioFormat → SliceBuffer Chunk → ℕ → Type 0
IsQueued f b i = (c : Chunk) × (b.slices i ≡ value c) × (is_empty_chunk c ≡ false) × IsFormat f c

abbrev pub tail_of : List ℕ → Tail
tail_of [] = to_head
tail_of (x ∷ []) = to_next x
tail_of (x ∷ y ∷ ys) = tail_of (y ∷ ys)

pub record IsPipe (b : SliceBuffer Chunk) (p : MusicPipe) (xs : List ℕ) : Type 0 where
  pub starts : p.head ≡ first xs
  pub chained : Chain (next_link b) xs
  pub ends : p.tail_r ≡ tail_of xs
  pub counted : p.size ≡ length xs
  pub few : length xs < 2 ^ 32
  pub distinct : IsDistinct xs
  pub queued : All (IsQueued p.audio_format b) xs
  pub defined_valid : is_defined p.audio_format ≡ true → is_valid p.audio_format ≡ true
  pub empty_undefined : p.size ≡ 0 → is_defined p.audio_format ≡ false

pub new_pipe-IsPipe : (b : SliceBuffer Chunk) → IsPipe b new_pipe []
unfolding is_defined
new_pipe-IsPipe b = record {
  starts = refl;
  chained = tt;
  ends = refl;
  counted = refl;
  few = omega arith;
  distinct = tt;
  queued = tt;
  defined_valid = λ e. absurd (cc);
  empty_undefined = λ e. refl;
}

pub valid_defined : (f : AudioFormat) → is_valid f ≡ true → is_defined f ≡ true
unfolding is_valid is_defined
valid_defined f h = ground arith

pub same_format_self : (f : AudioFormat) → same_format f f ≡ true
unfolding same_format
same_format_self f = ground arith

-- What Push demands of a chunk.
pub record IsReady (p : MusicPipe) (c : Chunk) : Type 0 where
  pub not_empty : is_empty_chunk c ≡ false
  pub valid_format : (c.length ≡ 0) ⊎ (is_valid c.audio_format ≡ true)
  pub fits : is_defined p.audio_format ≡ true → (c.length ≡ 0) ⊎ (c.audio_format ≡ p.audio_format)

format_fits :
    (f : AudioFormat) (c : Chunk)
    → (c.length ≡ 0) ⊎ (c.audio_format ≡ f)
    → (c.length == 0 || same_format c.audio_format f) ≡ true
format_fits f c (inl e) = ground (arith, e)
format_fits f c (inr e) =
    let s : same_format c.audio_format f ≡ true = rw e (same_format_self f) in ground (arith, s)

check_format-true :
    (f : AudioFormat) (c : Chunk)
    → is_valid f ≡ true
    → (c.length ≡ 0) ⊎ (c.audio_format ≡ f)
    → check_format f c ≡ some true
unfolding check_format
check_format-true f c v e = rw (v, format_fits f c e) refl

-- The three assertions on the chunk and on the format of the pipe.
assertions :
    (p : MusicPipe) (c : Chunk)
    → IsReady p c
    → (p.size ≡ 0 → is_defined p.audio_format ≡ false)
    → (not (is_empty_chunk c)
        && (c.length == 0 || is_valid c.audio_format)
        && (ltb 0 p.size || not (is_defined p.audio_format)))
      ≡ true
assertions p c r u = ground (arith, r.not_empty, r.valid_format, u)

pub may_push-true :
    (b : SliceBuffer Chunk) (p : MusicPipe) (xs : List ℕ) (c : Chunk)
    → IsPipe b p xs
    → IsReady p c
    → may_push c p ≡ some true
unfolding may_push
may_push-true b p xs c h r =
    rw (assertions p c r h.empty_undefined) (elim (Bool-cases (is_defined p.audio_format)) [
      | inl e ↦ rw e (check_format-true p.audio_format c (h.defined_valid e) (r.fits e))
      | inr e ↦ rw e refl
    ])
