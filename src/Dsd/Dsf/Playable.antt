-- ===== src/Dsd/Dsf/Playable.antt =====
-- The metadata that dsf_read_metadata (decoder/DsfDecoderPlugin.cxx) accepts.
use mpd_dsd.Prelude.{
  ℕ, ◌+◌, ◌-◌, ◌*◌, ◌/◌, ◌%◌, ◌^◌, ◌<◌, ◌≤◌, ◌≡◌, ◌⊎◌, inl, inr, refl, sym, arith, Option, none,
  some, true, ◌&&◌, List, leb, ltb, ◌==◌, if_cases, subst, Yields,
}
use mpd_dsd.Prelude.Arrays.{Array}
use mpd_dsd.Pcm.Format.{
  SampleFormat, audio_valid_sample_rate, audio_valid_sample_format, audio_valid_channel_count,
  audio_format_init_checked,
}
use mpd_dsd.Dsd.Stream.{InputStream, decoder_read_full, dsdlib_valid_freq}
use mpd_dsd.Dsd.Stream.Whole.{IsInput, HasRead, decoder_read_full-HasRead}
use mpd_dsd.Dsd.Dsf.{
  DsfHeader, DsfFmtChunk, DsfDataChunk, DsfMetaData, dsf_header, dsf_fmt_chunk, dsf_data_chunk,
  is_dsf_header, is_dsf_fmt, is_dsf_data, whole_frames, playable, metadata_of, on_read, data_read,
  fmt_read, header_read, dsf_read_metadata,
}

-- What a file of the size has behind its header: its samples, within the file, in whole frames of a format that
-- the outputs are asked for.
pub record IsPlayable (size offset : ℕ) (m : DsfMetaData) : Type 0 where
  pub format :
      audio_format_init_checked (m.sample_rate / 8) SampleFormat.dsd m.channels
      ≡ some (record {
        sample_rate = m.sample_rate / 8;
        format = SampleFormat.dsd;
        channels = m.channels;
      })
  pub stereo : m.channels ≡ 2
  pub blocks : m.block_size ≡ 4096
  pub within : m.chunk_size < size
  pub aligned : m.chunk_size % 4 ≡ 0
  pub tagged : (m.id3_offset ≡ 0) ⊎ (m.id3_offset < size)
  pub behind : m.data_offset ≡ offset

whole_frames_le :
    (f : DsfFmtChunk) (n : ℕ)
    → f.channelnum ≡ 2
    → (whole_frames f n ≤ n) × (whole_frames f n % 4 ≡ 0)
whole_frames_le f n c =
    if_cases (λ k. (k ≤ n) × (k % 4 ≡ 0)) (n % 4 == 0) (λ e. (omega arith, ground (arith, e)))
      (λ e.
        subst (λ d. (n / (d * 4) * (d * 4) ≤ n) × (n / (d * 4) * (d * 4) % 4 ≡ 0)) (sym c)
          (omega arith, omega arith))

playable_le :
    (f : DsfFmtChunk) (n : ℕ) → f.channelnum ≡ 2 → (playable f n ≤ n) × (playable f n % 4 ≡ 0)
unfolding playable
playable_le f n c =
    if_cases (λ k. (whole_frames f k ≤ n) × (whole_frames f k % 4 ≡ 0)) (ltb _ n)
      (λ e. let w = whole_frames_le f (f.scnt * 2 % 2 ^ 64 / 8) c in (ground (arith, e, w.0), w.1))
      (λ e. whole_frames_le f n c)

rate_accepted :
    (r : ℕ)
    → dsdlib_valid_freq r ≡ true
    → audio_format_init_checked (r / 8) SampleFormat.dsd 2
      ≡ some (record { sample_rate = r / 8; format = SampleFormat.dsd; channels = 2 })
unfolding dsdlib_valid_freq audio_format_init_checked audio_valid_sample_rate
    audio_valid_sample_format audio_valid_channel_count
rate_accepted r h =
    let a : (audio_valid_sample_rate (r / 8)
          && audio_valid_sample_format SampleFormat.dsd
          && audio_valid_channel_count 2)
        ≡ true =
      ground (arith, h) in
    simp a refl

module _ {S : Type 0} (is : InputStream S) (file : Array ℕ) (h : IsInput file is) where
  -- The chunks are refused, or what they say can be played.
  abbrev pub HasMetaData : ℕ → S × Option DsfMetaData → Type 0
  HasMetaData offset (t, none) = Unit
  HasMetaData offset (t, some m) = IsPlayable (is.get_size t) offset m × (is.get_offset t ≡ offset)

  on_read-HasMetaData :
      (n offset : ℕ) (s : S) (k : List ℕ → S → Option (S × Option DsfMetaData))
      (o : Option (S × Option (List ℕ)))
      → Yields (HasRead is file h n s) o
      → ((bytes : List ℕ) (t : S)
          → is.get_offset t ≡ is.get_offset s + n
          → Yields (HasMetaData offset) (k bytes t))
      → Yields (HasMetaData offset) (on_read is k o)
  on_read-HasMetaData n offset s k none r f = r
  on_read-HasMetaData n offset s k (some (t, none)) r f = tt
  on_read-HasMetaData n offset s k (some (t, some bytes)) r f = f bytes t r.1

  metadata_of-IsPlayable :
      (hd : DsfHeader) (f : DsfFmtChunk) (d : DsfDataChunk) (size offset : ℕ)
      → is_dsf_fmt f ≡ true
      → is_dsf_data size d ≡ true
      → IsPlayable size offset (metadata_of hd f d size offset)
  unfolding is_dsf_fmt is_dsf_data
  metadata_of-IsPlayable hd f d size offset a b =
      let two : f.channelnum ≡ 2 = ground (arith, a) in
      let p = playable_le f (d.size - 12) two in
      record {
        format =
            subst
              (λ c.
                audio_format_init_checked (f.sample_freq / 8) SampleFormat.dsd c
                ≡ some (record {
                  sample_rate = f.sample_freq / 8;
                  format = SampleFormat.dsd;
                  channels = c;
                }))
              (sym two) (rate_accepted f.sample_freq (ground (arith, a)));
        stereo = two;
        blocks = ground (arith, a);
        within = ground (arith, b, p.0);
        aligned = p.1;
        tagged =
            if_cases (λ i. (i ≡ 0) ⊎ (i < size)) (leb size hd.pmeta) (λ e. inl refl)
              (λ e. inr (ground (arith, e)));
        behind = refl;
      }

  data_read-HasMetaData :
      (offset : ℕ) (hd : DsfHeader) (f : DsfFmtChunk) (bytes : List ℕ) (s : S)
      → is_dsf_fmt f ≡ true
      → is.get_offset s ≡ offset
      → Yields (HasMetaData offset) (data_read is hd f bytes s)
  data_read-HasMetaData offset hd f bytes s a e =
      let d = dsf_data_chunk bytes in
      let m = metadata_of hd f d (is.get_size s) (is.get_offset s) in
      if_cases (Yields (HasMetaData offset)) (is_dsf_data (is.get_size s) d)
        (λ b. (
          subst (λ o. IsPlayable (is.get_size s) o m) e
              (metadata_of-IsPlayable hd f d (is.get_size s) (is.get_offset s) a b),
          e,
        ))
        (λ _. tt)

  fmt_read-HasMetaData :
      (offset : ℕ) (hd : DsfHeader) (bytes : List ℕ) (s : S)
      → is.get_offset s + 12 ≡ offset
      → Yields (HasMetaData offset) (fmt_read is hd bytes s)
  fmt_read-HasMetaData offset hd bytes s e =
      let f = dsf_fmt_chunk bytes in
      if_cases (Yields (HasMetaData offset)) (is_dsf_fmt f)
        (λ a.
          on_read-HasMetaData 12 offset s (data_read is hd f) (decoder_read_full is 12 12 s)
            (decoder_read_full-HasRead is file h 12 12 s (omega arith))
            (λ b t k. data_read-HasMetaData offset hd f b t a (omega (arith, k, e))))
        (λ _. tt)

  header_read-HasMetaData :
      (offset : ℕ) (bytes : List ℕ) (s : S)
      → is.get_offset s + 64 ≡ offset
      → Yields (HasMetaData offset) (header_read is bytes s)
  header_read-HasMetaData offset bytes s e =
      if_cases (Yields (HasMetaData offset)) (is_dsf_header (dsf_header bytes))
        (λ a.
          on_read-HasMetaData 52 offset s (fmt_read is (dsf_header bytes))
            (decoder_read_full is 52 52 s)
            (decoder_read_full-HasRead is file h 52 52 s (omega arith))
            (λ b t k. fmt_read-HasMetaData offset (dsf_header bytes) b t (omega (arith, k, e))))
        (λ _. tt)

  -- Of any file dsf_read_metadata either refuses the chunks or gives metadata that can be played: a
  -- stereo format that audio_format_init_checked accepts, blocks of 4096 bytes, data of whole frames
  -- and shorter than the file, an ID3 tag within the file or none, and an offset of the data 92
  -- bytes behind the start, where the stream is.
  pub dsf_read_metadata-HasMetaData :
      (s : S) → Yields (HasMetaData (is.get_offset s + 92)) (dsf_read_metadata is s)
  unfolding dsf_read_metadata
  dsf_read_metadata-HasMetaData s =
      on_read-HasMetaData 28 (is.get_offset s + 92) s (header_read is)
        (decoder_read_full is 28 28 s) (decoder_read_full-HasRead is file h 28 28 s (omega arith))
        (λ b t k. header_read-HasMetaData (is.get_offset s + 92) b t (omega (arith, k)))
