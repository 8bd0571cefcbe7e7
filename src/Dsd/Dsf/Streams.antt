-- ===== src/Dsd/Dsf/Streams.antt =====
-- dsf_stream_decode of decoder/DsfDecoderPlugin.cxx: the chunks are read, and the data is decoded.
use mpd_dsd.Prelude.{
  ℕ, ◌+◌, ◌/◌, ◌^◌, ◌<◌, ◌≤◌, ◌≡◌, sym, arith, subst, Option, none, some, Bool, true, false, List,
  [], length, Yields, Yields-map,
}
use mpd_dsd.Prelude.Arrays.{Array}
use mpd_dsd.Pcm.Format.{AudioFormat, SampleFormat, audio_format_init_checked}
use mpd_dsd.Dsd.Stream.{InputStream}
use mpd_dsd.Dsd.Stream.Whole.{IsInput, EndsAt}
use mpd_dsd.Dsd.Dsf.{DsfMetaData, dsf_read_metadata}
use mpd_dsd.Dsd.Dsf.Playable.{IsPlayable, HasMetaData, dsf_read_metadata-HasMetaData}
use mpd_dsd.Dsd.Dsf.Decode.{DecoderCommand, DsfSong, dsf_decode_loop}
use mpd_dsd.Dsd.Dsf.Positions.{IsSong}
use mpd_dsd.Dsd.Dsf.Ends.{HasNoSeek, dsf_decode_loop_ends}

abbrev pub song_of : DsfMetaData → DsfSong
song_of m = record {
  channels = m.channels;
  bitreverse = m.bitreverse;
  start_offset = m.data_offset;
  end_offset = m.chunk_size + m.data_offset;
  block_size = m.block_size;
}

module _ {S : Type 0} (is : InputStream S) (answers : List (DecoderCommand × ℕ))
    (buffer scratch : Array ℕ) where
  -- dsf_decode_chunk, whose buffers hold anything at first.
  abbrev pub dsf_decode_chunk : DsfMetaData → S → Option (S × Bool)
  dsf_decode_chunk m s =
      dsf_decode_loop is (song_of m) answers
        (record { chunk_size = m.chunk_size; buffer = buffer; scratch = scratch; sent = [] }) s

  -- A format that is refused is an error.
  abbrev pub on_format : DsfMetaData → S → Option AudioFormat → Option (S × Bool)
  on_format m s none = some (s, false)
  on_format m s (some f) = dsf_decode_chunk m s

  abbrev pub on_metadata : Option (S × Option DsfMetaData) → Option (S × Bool)
  on_metadata none = none
  on_metadata (some (s, none)) = some (s, false)
  on_metadata (some (s, some m)) =
      on_format m s (audio_format_init_checked (m.sample_rate / 8) SampleFormat.dsd m.channels)

  unfoldable pub dsf_stream_decode : S → Option (S × Bool)
  dsf_stream_decode s = on_metadata (dsf_read_metadata is s)

playable-IsSong :
    (size offset : ℕ) (m : DsfMetaData)
    → IsPlayable size offset m
    → size + offset ≤ 2 ^ 32
    → IsSong (song_of m)
playable-IsSong size offset m p l =
    let w = p.within in
    let e = p.behind in
    record {
      stereo = p.stereo;
      blocks = p.blocks;
      forward = omega arith;
      short = omega (arith, w, e, l);
    }

module _ {S : Type 0} (is : InputStream S) (file : Array ℕ) (h : IsInput file is) (bound : ℕ) where
  -- The stream was decoded, and is behind the chunks, within the size of the file.
  abbrev pub IsDecoded : S → S × Bool → Type 0
  IsDecoded s r =
      r.1 ≡ true
      → (is.get_offset s + 92 ≤ is.get_offset r.0)
        × (is.get_offset r.0 < is.get_offset s + 92 + bound)

  on_metadata-IsDecoded :
      (answers : List (DecoderCommand × ℕ)) (buffer scratch : Array ℕ) (s : S)
      (o : Option (S × Option DsfMetaData))
      → ((t : S) → is.get_size t ≤ bound)
      → is.get_offset s + 92 + bound ≤ 2 ^ 32
      → bound ≤ length answers
      → HasNoSeek answers
      → Yields (HasMetaData is file h (is.get_offset s + 92)) o
      → Yields (IsDecoded s) (on_metadata is answers buffer scratch o)
  on_metadata-IsDecoded answers buffer scratch s none z l a k p = p
  on_metadata-IsDecoded answers buffer scratch s (some (t, none)) z l a k p = λ w. absurd (cc)
  on_metadata-IsDecoded answers buffer scratch s (some (t, some m)) z l a k (p, e) =
      let size = z t in
      let within = p.within in
      let behind = p.behind in
      let song =
        playable-IsSong (is.get_size t) (is.get_offset s + 92) m p (omega (arith, size, l)) in
      subst (λ o. Yields (IsDecoded s) (on_format is answers buffer scratch m t o)) (sym p.format)
        (Yields-map (EndsAt is file h (m.chunk_size + m.data_offset)) (IsDecoded s)
          (dsf_decode_chunk is answers buffer scratch m t)
          (dsf_decode_loop_ends is file h (song_of m) song answers
            (record { chunk_size = m.chunk_size; buffer = buffer; scratch = scratch; sent = [] }) t
            k (omega (arith, within, size, a)) (omega (arith, e, behind)))
          (λ r q w.
            let end = q w in
            (omega (arith, end, behind), omega (arith, end, behind, within, size))))

  -- Without seeks dsf_stream_decode ends within as many rounds as the file has bytes, however the
  -- reads of the stream are cut, on any file, also one that is not DSF or is cut off; where it
  -- succeeds the stream is behind the chunks, and less than the size of the file behind them. The
  -- end of the file is within 32 bits.
  pub dsf_stream_decode-IsDecoded :
      (answers : List (DecoderCommand × ℕ)) (buffer scratch : Array ℕ) (s : S)
      → ((t : S) → is.get_size t ≤ bound)
      → is.get_offset s + 92 + bound ≤ 2 ^ 32
      → bound ≤ length answers
      → HasNoSeek answers
      → Yields (IsDecoded s) (dsf_stream_decode is answers buffer scratch s)
  unfolding dsf_stream_decode
  dsf_stream_decode-IsDecoded answers buffer scratch s z l a k =
      on_metadata-IsDecoded answers buffer scratch s (dsf_read_metadata is s) z l a k
        (dsf_read_metadata-HasMetaData is file h s)
