-- ===== src/Dsd/Dsf/Decode.antt =====
-- dsf_decode_chunk of decoder/DsfDecoderPlugin.cxx.
use mpd_dsd.Prelude.{
  ℕ, ◌+◌, ◌-◌, ◌*◌, ◌/◌, ◌%◌, ◌^◌, Option, none, some, Bool, false, List, [], ◌∷◌, ◌++◌, leb, ltb,
  ◌==◌, if◌then◌else◌, length,
}
use mpd_dsd.Prelude.Arrays.{Array, put}
use mpd_dsd.Dsd.Stream.{bytes_at, InputStream, decoder_read_full, dsdlib_skip}
use mpd_dsd.Dsd.Dsf.Floats.{to_block}
use mpd_dsd.Dsd.Dsf.Order.{dsf_to_pcm_order, bit_reverse_buffer}

pub data DecoderCommand : Type 0 where
  no_command : DecoderCommand
  start : DecoderCommand
  stop : DecoderCommand
  seek : DecoderCommand

-- The local state of the loop, with what decoder_data was given.
pub record DsfBlocks : Type 0 where
  pub chunk_size : ℕ
  pub buffer : Array ℕ
  pub scratch : Array ℕ
  pub sent : List ℕ

-- As many whole frames of what is left as the buffer has room for.
unfoldable pub now_size : ℕ → ℕ → ℕ
now_size channels chunk_size =
    let buffer_size = 8192 / channels * channels in
    if ltb chunk_size buffer_size then chunk_size % 2 ^ 32 / channels * channels else buffer_size

-- What a read leaves in the buffer.
abbrev pub fill : List ℕ → ℕ → Array ℕ → Array ℕ
fill [] i buffer = buffer
fill (b ∷ bs) i buffer = fill bs (i + 1) (put buffer i b)

abbrev pub reversed : Bool → ℕ → Array ℕ → Array ℕ
reversed bitreverse n buffer = if bitreverse then bit_reverse_buffer n 0 buffer else buffer

-- The bytes that were read are put in order and sent.
unfoldable pub send_block : Bool → List ℕ → DsfBlocks → DsfBlocks
send_block bitreverse bytes b =
    let n = length bytes in
    let ordered = dsf_to_pcm_order (reversed bitreverse n (fill bytes 0 b.buffer)) b.scratch n in
    record {
      chunk_size = b.chunk_size - n;
      buffer = ordered.0;
      scratch = ordered.1;
      sent = b.sent ++ bytes_at ordered.0 0 n;
    }

-- The parameters of dsf_decode_chunk.
pub record DsfSong : Type 0 where
  pub channels : ℕ
  pub bitreverse : Bool
  pub start_offset : ℕ
  pub end_offset : ℕ
  pub block_size : ℕ

-- An even number of blocks
abbrev pub even_block : ℕ → ℕ
even_block t = if t % 2 == 1 then t - 1 else t

-- Where a seek goes to; `target` is the offset that is sought, which is a floating point number before.
unfoldable pub seek_offset : DsfSong → ℕ → ℕ
seek_offset song target =
    let from_start = if ltb target song.start_offset then song.start_offset else target in
    let to_end =
      if ltb song.end_offset (from_start % 2 ^ 32) then song.end_offset else from_start in
    if ltb song.start_offset to_end
    then even_block (to_block (to_end - song.start_offset) song.block_size)
        * song.block_size
        % 2 ^ 32
      + song.start_offset
    else to_end

-- The two corrections of chunk_size.
unfoldable pub sought_size : ℕ → ℕ → ℕ → ℕ
sought_size offset curpos chunk_size =
    if ltb offset curpos
    then chunk_size + (curpos - offset)
    else if ltb curpos offset
    then (chunk_size + 2 ^ 64 - (offset - curpos)) % 2 ^ 64
    else chunk_size

module _ {S : Type 0} (is : InputStream S) (song : DsfSong) where
  -- A seek, which is only logged where it fails.
  abbrev pub seek_song_to : ℕ → DsfBlocks → S → DsfBlocks × S
  seek_song_to target b s =
      let offset = seek_offset song target in
      (
        record b { chunk_size = sought_size offset (is.get_offset s) b.chunk_size },
        (is.seek offset s).0,
      )

  -- The answer of decoder_data
  abbrev pub on_command :
      (DsfBlocks → S → Option (S × Bool)) → DecoderCommand → ℕ → DsfBlocks → S → Option (S × Bool)
  on_command again DecoderCommand.no_command target b s = again b s
  on_command again DecoderCommand.start target b s = some (s, false)
  on_command again DecoderCommand.stop target b s = some (s, false)
  on_command again DecoderCommand.seek target b s =
      again (seek_song_to target b s).0 (seek_song_to target b s).1

  abbrev pub on_block :
      (DsfBlocks → S → Option (S × Bool))
      → DecoderCommand × ℕ
      → DsfBlocks
      → Option (S × Option (List ℕ))
      → Option (S × Bool)
  on_block again a b none = none
  on_block again a b (some (s, none)) = some (s, false)
  on_block again a b (some (s, some bytes)) =
      on_command again a.0 a.1 (send_block song.bitreverse bytes b) s

  -- What is left when no whole frame is.
  abbrev pub skip_left : DsfBlocks → S → Option (S × Bool)
  skip_left b s = dsdlib_skip is b.chunk_size b.chunk_size s

  -- The loop, with the answers of decoder_data in order.
  unfoldable pub dsf_decode_loop : List (DecoderCommand × ℕ) → DsfBlocks → S → Option (S × Bool)
  dsf_decode_loop [] b s = if leb song.channels b.chunk_size then none else skip_left b s
  dsf_decode_loop (a ∷ answers) b s =
      let n = now_size song.channels b.chunk_size in
      if leb song.channels b.chunk_size
      then on_block (dsf_decode_loop answers) a b (decoder_read_full is n n s)
      else skip_left b s
