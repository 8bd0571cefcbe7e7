-- ===== src/Music/Pipe.antt =====
-- MusicPipe.hxx and MusicPipe.cxx: a queue of chunks, linked through the buffer that owns them.
pub mod Valid
pub mod Push
pub mod Shift
pub mod Contains
use mpd_dsd.Prelude.{
  ℕ, zero, suc, ◌+◌, ◌-◌, ◌%◌, ◌^◌, ◌≡◌, Option, none, some, Bool, true, false, not, ◌&&◌, ◌||◌,
  ltb, ◌==◌, if◌then◌else◌, ◌>>=◌,
}
use mpd_dsd.Pcm.Format.{AudioFormat, cleared, is_defined, is_valid}
use mpd_dsd.Music.Slices.{SliceBuffer}
use mpd_dsd.Music.Chunk.{Chunk, is_empty_chunk, check_format}
use mpd_dsd.Music.Buffer.{get_chunk, set_chunk, return_chunk}

-- What `tail_r` points to: `head`, or the link of a chunk.
pub data Tail : Type 0 where
  to_head : Tail
  to_next : ℕ → Tail

-- With the format that the source keeps where assertions are compiled in.
pub record MusicPipe : Type 0 where
  pub head : Option ℕ
  pub tail_r : Tail
  pub size : ℕ
  pub audio_format : AudioFormat

-- The constructor
abbrev pub new_pipe : MusicPipe
new_pipe = record { head = none; tail_r = to_head; size = 0; audio_format = cleared }

abbrev pub poison : ℕ
poison = 0x01010101

abbrev pub is_at : ℕ → Tail → Bool
is_at i to_head = false
is_at i (to_next j) = i == j

-- The new tail, no result where an assertion fails.
abbrev pub shifted_tail : ℕ → Option ℕ → MusicPipe → Option Tail
shifted_tail i none p = if p.size == 0 && is_at i p.tail_r then some to_head else none
shifted_tail i (some j) p = if ltb 0 p.size && not (is_at i p.tail_r) then some p.tail_r else none

abbrev pub shift_chunk :
    ℕ → Chunk → SliceBuffer Chunk → MusicPipe → Option (SliceBuffer Chunk × MusicPipe × Option ℕ)
shift_chunk i c b p =
    let q = record p { head = c.next; size = (p.size + 2 ^ 32 - 1) % 2 ^ 32 } in
    do
      tail ← shifted_tail i c.next q
      let format = if q.size == 0 then cleared else q.audio_format
      some (
        set_chunk i (record c { next = some poison }) b,
        record q { tail_r = tail; audio_format = format },
        some i,
      )

abbrev pub shift_from :
    Option ℕ → SliceBuffer Chunk → MusicPipe → Option (SliceBuffer Chunk × MusicPipe × Option ℕ)
shift_from none b p = some (b, p, none)
shift_from (some i) b p =
    get_chunk i b >>= λ c. if is_empty_chunk c then none else shift_chunk i c b p

-- Shift: the first chunk, where there is one.
unfoldable pub shift :
    SliceBuffer Chunk → MusicPipe → Option (SliceBuffer Chunk × MusicPipe × Option ℕ)
shift b p = shift_from p.head b p

-- *tail_r = i
abbrev pub store_tail :
    Tail → ℕ → SliceBuffer Chunk → MusicPipe → Option (SliceBuffer Chunk × MusicPipe)
store_tail to_head i b p = some (b, record p { head = some i })
store_tail (to_next j) i b p = do
  d ← get_chunk j b
  some (set_chunk j (record d { next = some i }) b, p)

-- The assertions of Push on the formats.
unfoldable pub may_push : Chunk → MusicPipe → Option Bool
may_push c p =
    if not (is_empty_chunk c)
      && (c.length == 0 || is_valid c.audio_format)
      && (ltb 0 p.size || not (is_defined p.audio_format))
    then if is_defined p.audio_format then check_format p.audio_format c else some true
    else none

abbrev pub pushed_format : Chunk → MusicPipe → AudioFormat
pushed_format c p =
    if not (is_defined p.audio_format) && ltb 0 c.length then c.audio_format else p.audio_format

unfoldable pub push : ℕ → SliceBuffer Chunk → MusicPipe → Option (SliceBuffer Chunk × MusicPipe)
push i b p = do
  c ← get_chunk i b
  allowed ← may_push c p
  (t, q) ←
      if allowed then store_tail p.tail_r i (set_chunk i (record c { next = none }) b) p else none
  some (
    t,
    record q { tail_r = to_next i; size = (p.size + 1) % 2 ^ 32; audio_format = pushed_format c p },
  )

-- Contains, by the links from `head`; no result where they do not end within the fuel.
unfoldable pub contains_from : ℕ → ℕ → Option ℕ → SliceBuffer Chunk → Option Bool
contains_from fuel i none b = some false
contains_from zero i (some j) b = none
contains_from (suc fuel) i (some j) b =
    let rest = (get_chunk j b >>= λ c. contains_from fuel i c.next b) in
    if j == i then some true else rest

-- The body of the loop of Clear, which goes on with `again`.
abbrev pub return_shifted :
    Option ℕ
    → SliceBuffer Chunk
    → MusicPipe
    → (SliceBuffer Chunk → MusicPipe → Option (SliceBuffer Chunk × MusicPipe))
    → Option (SliceBuffer Chunk × MusicPipe)
return_shifted none b p again = some (b, p)
return_shifted (some i) b p again = return_chunk i b >>= λ t. again t p

-- Clear; no result where the fuel ends before the pipe.
unfoldable pub clear : ℕ → SliceBuffer Chunk → MusicPipe → Option (SliceBuffer Chunk × MusicPipe)
clear zero b p = none
clear (suc fuel) b p = shift b p >>= λ r. return_shifted r.2 r.0 r.1 (clear fuel)
