-- ===== src/Music/Tests.antt =====
-- A small buffer and a pipe of one chunk: the theorems of the music pipe at work.
use mpd_dsd.Prelude.{
  ℕ, ◌≡◌, inr, refl, arith, Option, none, some, [], ◌∷◌, ◌==◌, if◌then◌else◌, Yields,
}
use mpd_dsd.Pcm.Format.{AudioFormat, SampleFormat, is_defined, is_valid}
use mpd_dsd.Music.Slices.{Slice, SliceBuffer, free_slice, value, allocate, free}
use mpd_dsd.Music.Slices.Pool.{IsPool, IsAllocated}
use mpd_dsd.Music.Slices.Steps.{IsFreed, allocate-IsAllocated, free-IsFreed}
use mpd_dsd.Music.Chunk.{Chunk, is_empty_chunk}
use mpd_dsd.Music.Pipe.{to_next, MusicPipe, new_pipe, push, shift, clear}
use mpd_dsd.Music.Pipe.Valid.{IsPipe, IsReady, new_pipe-IsPipe}
use mpd_dsd.Music.Pipe.Push.{IsPushed, push-IsPushed}
use mpd_dsd.Music.Pipe.Shift.{IsShifted, shift-IsShifted}
use mpd_dsd.Music.Clear.{IsCleared, clear-IsCleared}

abbrev cd_format : AudioFormat
cd_format = record { sample_rate = 44100; format = SampleFormat.s16; channels = 2 }

-- A chunk of 4000 bytes, with the chunk that is mixed into it.
abbrev full_chunk : Option ℕ → Chunk
full_chunk other = record {
  next = none;
  other = other;
  mix_ratio = 0;
  length = 4000;
  bit_rate = 1411;
  times = 0;
  tag = none;
  replay_gain_serial = 0;
  audio_format = cd_format;
}

-- Slice 0 is mixed with slice 1; slice 2 was never used.
abbrev pages : ℕ → Slice Chunk
pages i =
    if i == 0
    then value (full_chunk (some 1))
    else if i == 1
    then value (full_chunk none)
    else free_slice none

abbrev buffer : SliceBuffer Chunk
buffer = record { n_max = 3; n_initialized = 2; n_allocated = 2; slices = pages; available = none }

buffer-IsPool : IsPool buffer [] (0 ∷ 1 ∷ [])
buffer-IsPool = record {
  initialized_max = omega arith;
  counted = refl;
  all_counted = refl;
  starts = refl;
  chained = tt;
  spare_below = tt;
  live_below = (omega arith, (omega arith, tt));
  spare_distinct = tt;
  live_distinct = (refl, (refl, tt));
  live_hold = ((full_chunk (some 1), refl), ((full_chunk none, refl), tt));
}

abbrev one_chunk : MusicPipe
one_chunk = record { head = some 0; tail_r = to_next 0; size = 1; audio_format = cd_format }

one_chunk-IsPipe : IsPipe buffer one_chunk (0 ∷ [])
unfolding is_empty_chunk is_valid is_defined
one_chunk-IsPipe = record {
  starts = refl;
  chained = (refl, tt);
  ends = refl;
  counted = refl;
  few = omega arith;
  distinct = (refl, tt);
  queued = ((full_chunk (some 1), refl, refl, inr (refl, refl)), tt);
  defined_valid = λ e. refl;
  empty_undefined = λ e. absurd (omega arith);
}

full_chunk-IsReady : IsReady new_pipe (full_chunk (some 1))
unfolding is_empty_chunk is_valid is_defined
full_chunk-IsReady = record { not_empty = refl; valid_format = inr refl; fits = λ e. absurd (cc) }

-- The second allocation in a buffer of two.
allocated_twice : Yields (λ r. r.1 ≡ some 2) (allocate (full_chunk none) buffer)
unfolding allocate
allocated_twice = refl

allocate-IsAllocated_example :
    Yields (IsAllocated (full_chunk none) buffer (0 ∷ 1 ∷ [])) (allocate (full_chunk none) buffer)
allocate-IsAllocated_example =
    allocate-IsAllocated (full_chunk none) buffer [] (0 ∷ 1 ∷ []) buffer-IsPool

free-IsFreed_example : Yields (IsFreed buffer (0 ∷ 1 ∷ []) 1) (free 1 buffer)
free-IsFreed_example = free-IsFreed buffer 1 [] (0 ∷ 1 ∷ []) buffer-IsPool refl

push-IsPushed_example : Yields (IsPushed buffer 0 []) (push 0 buffer new_pipe)
push-IsPushed_example =
    push-IsPushed buffer new_pipe [] 0 (full_chunk (some 1)) (new_pipe-IsPipe buffer) refl
      full_chunk-IsReady refl (omega arith)

shift-IsShifted_example : Yields (IsShifted buffer one_chunk (0 ∷ [])) (shift buffer one_chunk)
shift-IsShifted_example = shift-IsShifted buffer one_chunk (0 ∷ []) one_chunk-IsPipe

abbrev mixed : ℕ → Option ℕ
mixed i = if i == 0 then some 1 else none

-- Both chunks go back.
clear-IsCleared_example : Yields (IsCleared []) (clear 2 buffer one_chunk)
clear-IsCleared_example =
    clear-IsCleared 2 buffer one_chunk mixed (0 ∷ []) [] (0 ∷ 1 ∷ []) (omega arith) buffer-IsPool
      one_chunk-IsPipe (refl, refl, tt) (refl, (refl, tt)) (refl, (refl, tt))
