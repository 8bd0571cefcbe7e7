-- ===== src/Music/Chunk.antt =====
-- MusicChunk.hxx and MusicChunk.cxx: a chunk of samples and the room that is left in it.
pub mod Room
use mpd_dsd.Prelude.{
  ℕ, zero, suc, ◌+◌, ◌-◌, ◌*◌, ◌/◌, ◌%◌, ◌^◌, ◌≡◌, refl, ap, sym, ◌∙◌, Option, none, some, Bool,
  true, false, ◌&&◌, ◌||◌, leb, ltb, ◌==◌, if◌then◌else◌, arith, ◌>>=◌,
}
use mpd_dsd.Pcm.Format
use mpd_dsd.Pcm.Format.{AudioFormat, SampleFormat, is_valid, get_frame_size}

abbrev pub chunk_size : ℕ
chunk_size = 4096

-- A pointer is the number of a slice; floating point numbers are only stored, as their bit patterns.
-- The tag is a pointer to an object that the chunk owns.
pub record Chunk : Type 0 where
  pub next : Option ℕ
  pub other : Option ℕ
  pub mix_ratio : ℕ
  pub length : ℕ
  pub bit_rate : ℕ
  pub times : ℕ
  pub tag : Option ℕ
  pub replay_gain_serial : ℕ
  pub audio_format : AudioFormat

-- The constructor leaves the other fields as they are in the slice.
unfoldable pub new_chunk : Chunk → Chunk
new_chunk c = record c { other = none; length = 0; tag = none; replay_gain_serial = 0 }

abbrev pub is_none : Option ℕ → Bool
is_none none = true
is_none (some x) = false

unfoldable pub is_empty_chunk : Chunk → Bool
is_empty_chunk c = c.length == 0 && is_none c.tag

-- The numbers of the enumeration.
unfoldable pub format_number : SampleFormat → ℕ
format_number SampleFormat.undefined = 0
format_number SampleFormat.s8 = 1
format_number SampleFormat.s16 = 2
format_number SampleFormat.s24_p32 = 3
format_number SampleFormat.s32 = 4
format_number SampleFormat.float = 5
format_number SampleFormat.dsd = 6
format_number SampleFormat.dsd_u8 = 7
format_number SampleFormat.dsd_u32_be = 8
format_number SampleFormat.dsd_u32_le = 9

-- AudioFormat::operator==
unfoldable pub same_format : AudioFormat → AudioFormat → Bool
unfolding format_number
same_format a b =
    a.sample_rate == b.sample_rate
    && format_number a.format == format_number b.format
    && a.channels == b.channels

-- No result where an assertion fails.
unfoldable pub check_format : AudioFormat → Chunk → Option Bool
unfolding same_format is_valid
check_format other c =
    if is_valid other then some (c.length == 0 || same_format c.audio_format other) else none

-- An empty chunk takes the bit rate and the time of its first samples.
abbrev pub begin_chunk : ℕ → ℕ → Chunk → Chunk
begin_chunk data_time bit_rate c =
    if c.length == 0 then record c { bit_rate = bit_rate; times = data_time } else c

-- The room as an offset into the data and a size, nothing where not one frame fits.
abbrev pub grant : AudioFormat → ℕ → Chunk → Chunk × Option (ℕ × ℕ)
grant af num_frames c =
    if num_frames == 0
    then (c, none)
    else (record c { audio_format = af }, some (c.length, num_frames * get_frame_size af))

unfoldable pub write : AudioFormat → ℕ → ℕ → Chunk → Option (Chunk × Option (ℕ × ℕ))
unfolding check_format get_frame_size is_valid
write af data_time bit_rate c = do
  fits ← check_format af c
  let num_frames = ((chunk_size + 2 ^ 64 - c.length) % 2 ^ 64) / get_frame_size af
  if fits && (c.length == 0 || is_valid c.audio_format)
      then some (grant af num_frames (begin_chunk data_time bit_rate c))
      else none

-- With the flag that says whether the chunk is full.
abbrev pub grown : AudioFormat → Chunk → Option (Chunk × Bool)
grown af c = some (c, ltb chunk_size (c.length + get_frame_size af))

unfoldable pub expand : AudioFormat → ℕ → Chunk → Option (Chunk × Bool)
unfolding get_frame_size same_format
expand af n c =
    if leb (c.length + n) chunk_size && same_format c.audio_format af
    then grown af (record c { length = (c.length + n) % 65536 })
    else none
