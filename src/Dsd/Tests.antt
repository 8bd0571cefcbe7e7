-- ===== src/Dsd/Tests.antt =====
-- A DSF file of 16 bytes of samples: the theorems of its decoder at work.
use mpd_dsd.Prelude.{
  ℕ, zero, suc, ◌+◌, ◌-◌, ◌^◌, ◌≡◌, refl, arith, some, true, List, [], ◌∷◌, ◌++◌, Yields, Allows,
}
use mpd_dsd.Prelude.Arrays.{Array}
use mpd_dsd.Dsd.Stream.{decoder_read_full, dsdlib_valid_freq}
use mpd_dsd.Dsd.Disk.{disk, disk-IsInput}
use mpd_dsd.Dsd.Stream.Whole.{HasRead, decoder_read_full-HasRead, EndsAt}
use mpd_dsd.Dsd.Dsf.{is_dsf_header, is_dsf_fmt, is_dsf_data, playable, dsf_read_metadata}
use mpd_dsd.Dsd.Dsf.Floats.{spacing, to_nearest, float_of, to_block}
use mpd_dsd.Dsd.Dsf.Playable.{HasMetaData, dsf_read_metadata-HasMetaData}
use mpd_dsd.Dsd.Dsf.Ordered.{pcm_source}
use mpd_dsd.Dsd.Dsf.Decode.{
  DecoderCommand, DsfBlocks, DsfSong, send_block, even_block, seek_offset, sought_size,
  dsf_decode_loop,
}
use mpd_dsd.Dsd.Dsf.Blocks.{byte_or, byte_read, send_block_lem, short_block_right}
use mpd_dsd.Dsd.Dsf.Positions.{IsSong, dsf_decode_loop-EndsAt}
use mpd_dsd.Dsd.Dsf.Ends.{HasNoSeek}
use mpd_dsd.Dsd.Dsf.Streams.{dsf_stream_decode, IsDecoded, dsf_stream_decode-IsDecoded}

abbrev zeros : ℕ → List ℕ
zeros zero = []
zeros (suc n) = 0 ∷ zeros n

abbrev dsd_chunk : List ℕ
dsd_chunk = 68 ∷ 83 ∷ 68 ∷ 32 ∷ 28 ∷ zeros 23

-- DSD64 in two channels, least significant bit first, 64 samples.
abbrev fmt_chunk : List ℕ
fmt_chunk =
    102 ∷ 109 ∷ 116 ∷ 32 ∷ 52 ∷ zeros 7
    ++ 1 ∷ zeros 7
    ++ 2 ∷ zeros 3
    ++ 2 ∷ zeros 3
    ++ 0 ∷ 17 ∷ 43 ∷ 0 ∷ 1 ∷ zeros 3
    ++ 64 ∷ zeros 7
    ++ 0 ∷ 16 ∷ zeros 6

abbrev data_chunk : List ℕ
data_chunk = 100 ∷ 97 ∷ 116 ∷ 97 ∷ 28 ∷ zeros 7

abbrev samples : List ℕ
samples = 1 ∷ 2 ∷ 3 ∷ 4 ∷ 5 ∷ 6 ∷ 7 ∷ 8 ∷ []

abbrev file : Array ℕ
file i = byte_or 0 (dsd_chunk ++ fmt_chunk ++ data_chunk ++ samples ++ samples) i

abbrev song : DsfSong
song = record {
  channels = 2;
  bitreverse = true;
  start_offset = 92;
  end_offset = 108;
  block_size = 4096;
}

abbrev blocks : DsfBlocks
blocks = record { chunk_size = 16; buffer = λ i. i + 7; scratch = λ i. 0; sent = [] }

song-IsSong : IsSong song
song-IsSong = record { stereo = refl; blocks = refl; forward = omega arith; short = omega arith }

abbrev answers : ℕ → List (DecoderCommand × ℕ)
answers zero = []
answers (suc n) = (DecoderCommand.no_command, 0) ∷ answers n

answers_lem : (n : ℕ) → HasNoSeek (answers n)
answers_lem zero = tt
answers_lem (suc n) = (cc, answers_lem n)

read_metadata_test :
    dsf_read_metadata (disk file 108) 0
    ≡ some (
      92,
      some (record {
        sample_rate = 2822400;
        channels = 2;
        block_size = 4096;
        bitreverse = true;
        chunk_size = 16;
        id3_offset = 0;
        data_offset = 92;
      }),
    )
unfolding dsf_read_metadata decoder_read_full is_dsf_header is_dsf_fmt dsdlib_valid_freq is_dsf_data
    playable
read_metadata_test = refl

decoder_read_full-HasRead_example :
    Yields
      (HasRead (disk file 108) file (disk-IsInput file 108) 28 0)
      (decoder_read_full (disk file 108) 28 28 0)
decoder_read_full-HasRead_example =
    decoder_read_full-HasRead (disk file 108) file (disk-IsInput file 108) 28 28 0 (omega arith)

dsf_read_metadata-HasMetaData_example :
    Yields
      (HasMetaData (disk file 108) file (disk-IsInput file 108) 92)
      (dsf_read_metadata (disk file 108) 0)
dsf_read_metadata-HasMetaData_example =
    dsf_read_metadata-HasMetaData (disk file 108) file (disk-IsInput file 108) 0

send_block_lem_example :
    (send_block true samples blocks).buffer 4 ≡ byte_read true samples blocks.buffer (pcm_source 4)
send_block_lem_example = send_block_lem true samples blocks 4 (omega arith)

short_block_right_example : (send_block true samples blocks).buffer 5 ≡ 4105
short_block_right_example = short_block_right true samples blocks 2 (omega arith) (omega arith)

dsf_decode_loop-EndsAt_example : Allows (EndsAt (disk file 108) file (disk-IsInput file 108) 108) (
    dsf_decode_loop
      (disk file 108)
      song
      ((DecoderCommand.seek, 100) ∷ (DecoderCommand.no_command, 0) ∷ [])
      blocks
      92)
dsf_decode_loop-EndsAt_example =
    dsf_decode_loop-EndsAt (disk file 108) file (disk-IsInput file 108) song song-IsSong
      ((DecoderCommand.seek, 100) ∷ (DecoderCommand.no_command, 0) ∷ []) blocks 92
      (omega arith, λ n s. refl) (omega arith, (omega arith, tt)) refl

dsf_stream_decode-IsDecoded_example :
    Yields
      (IsDecoded (disk file 108) file (disk-IsInput file 108) 108 0)
      (dsf_stream_decode (disk file 108) (answers 108) (λ i. 0) (λ i. 0) 0)
dsf_stream_decode-IsDecoded_example =
    dsf_stream_decode-IsDecoded (disk file 108) file (disk-IsInput file 108) 108 (answers 108)
      (λ i. 0) (λ i. 0) 0 (λ t. omega arith) (omega arith) (omega arith) (answers_lem 108)

abbrev long_song : DsfSong
long_song = record {
  channels = 2;
  bitreverse = true;
  start_offset = 92;
  end_offset = 134225916 + 92;
  block_size = 4096;
}

-- The data ends within the last bytes of a block: a seek to the end goes behind it, and what is left
-- is more than there ever was.
seek_overshoots_test : seek_offset long_song 200000000 ≡ 134225920 + 92
unfolding seek_offset even_block to_block float_of to_nearest spacing
seek_overshoots_test = refl

sought_size_test : sought_size (134225920 + 92) 92 134225916 ≡ 2 ^ 64 - 4
unfolding sought_size
sought_size_test = refl
