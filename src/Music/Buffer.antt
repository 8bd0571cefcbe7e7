-- ===== src/Music/Buffer.antt =====
-- MusicBuffer.cxx: the slice buffer of chunks.
use mpd_dsd.Prelude.{ℕ, Option, none, some, if◌then◌else◌, ◌>>=◌}
use mpd_dsd.Prelude.Arrays.{put}
use mpd_dsd.Music.Slices.{SliceBuffer, value, value_of, allocate, free}
use mpd_dsd.Music.Chunk.{Chunk, new_chunk, is_none}

-- *i
abbrev pub get_chunk : ℕ → SliceBuffer Chunk → Option Chunk
get_chunk i b = value_of (b.slices i)

-- *i = c
abbrev pub set_chunk : ℕ → Chunk → SliceBuffer Chunk → SliceBuffer Chunk
set_chunk i c b = record b { slices = put b.slices i (value c) }

-- The chunk is built on what the slice holds.
unfoldable pub allocate_chunk : Chunk → SliceBuffer Chunk → Option (SliceBuffer Chunk × Option ℕ)
allocate_chunk memory b = allocate (new_chunk memory) b

-- The chunk that is mixed into this one goes first.
abbrev pub free_with : Option ℕ → ℕ → SliceBuffer Chunk → Option (SliceBuffer Chunk)
free_with none i b = free i b
free_with (some j) i b = do
  d ← get_chunk j b
  t ← if is_none d.other then free j b else none
  free i t

unfoldable pub return_chunk : ℕ → SliceBuffer Chunk → Option (SliceBuffer Chunk)
return_chunk i b = do c ← get_chunk i b; free_with c.other i b
