-- ===== src/Dsd/Dsdiff.antt =====
-- decoder/DsdiffDecoderPlugin.cxx: the chunks in front of the samples of a DSDIFF file. Offsets are signed
-- 64 bit numbers, to which the unsigned size of a chunk is added.
pub mod Endless
pub mod Props
mod Tests
use mpd_dsd.Prelude.{
  ℕ, zero, suc, ◌+◌, ◌*◌, ◌%◌, ◌^◌, ◌≡◌, Option, none, some, Bool, true, false, List, [], ◌∷◌, leb,
  ltb, ◌==◌, if◌then◌else◌, ◌&&◌,
}
use mpd_dsd.Dsd.Stream.{InputStream, decoder_read_full, dsdlib_skip_to}
use mpd_dsd.Dsd.Dsf.{equals_id, field, dsd_id}

-- FromBE16, FromBE32, DffDsdUint64::Read: a big endian number, behind the digits that came before.
abbrev pub be_from : ℕ → List ℕ → ℕ
be_from n [] = n
be_from n (b ∷ bs) = be_from (256 * n + b) bs

abbrev pub read_be : List ℕ → ℕ
read_be bs = be_from 0 bs

pub record DsdiffChunkHeader : Type 0 where
  pub id : List ℕ
  pub size : ℕ

abbrev pub dsdiff_chunk_header : List ℕ → DsdiffChunkHeader
dsdiff_chunk_header b = record { id = field 0 4 b; size = read_be (field 4 8 b) }

-- Neither the rate nor the channels are set before a chunk has told them.
pub record DsdiffMetaData : Type 0 where
  pub sample_rate : Option ℕ
  pub channels : Option ℕ
  pub chunk_size : ℕ
  pub data_offset : ℕ

-- "FRM8", "PROP", "SND ", "FS  ", "CHNL" and "CMPR"
abbrev pub frm8_id : List ℕ
frm8_id = 70 ∷ 82 ∷ 77 ∷ 56 ∷ []

abbrev pub prop_id : List ℕ
prop_id = 80 ∷ 82 ∷ 79 ∷ 80 ∷ []

abbrev pub snd_id : List ℕ
snd_id = 83 ∷ 78 ∷ 68 ∷ 32 ∷ []

abbrev pub fs_id : List ℕ
fs_id = 70 ∷ 83 ∷ 32 ∷ 32 ∷ []

abbrev pub chnl_id : List ℕ
chnl_id = 67 ∷ 72 ∷ 78 ∷ 76 ∷ []

abbrev pub cmpr_id : List ℕ
cmpr_id = 67 ∷ 77 ∷ 80 ∷ 82 ∷ []

-- The end of a chunk; none where the sum is negative, where a seek fails.
unfoldable pub chunk_end_offset : ℕ → ℕ → Option ℕ
chunk_end_offset offset size =
    let sum = (offset + size) % 2 ^ 64 in if ltb sum (2 ^ 63) then some sum else none

-- What has been read so far, or a failure.
abbrev pub Found : Type 0 → Type 0
Found S = Option (S × Option DsdiffMetaData)

module _ {S : Type 0} (is : InputStream S) where
  abbrev pub on_bytes : (List ℕ → S → Found S) → Option (S × Option (List ℕ)) → Found S
  on_bytes k none = none
  on_bytes k (some (s, none)) = some (s, none)
  on_bytes k (some (s, some bytes)) = k bytes s

  abbrev pub on_skip : (S → Found S) → Option (S × Bool) → Found S
  on_skip k none = none
  on_skip k (some (s, false)) = some (s, none)
  on_skip k (some (s, true)) = k s

  -- dsdlib_skip_to the end of a chunk
  abbrev pub skip_chunk : (S → Found S) → Option ℕ → S → Found S
  skip_chunk k none s = some (s, none)
  skip_chunk k (some offset) s = on_skip k (dsdlib_skip_to is offset offset s)

  abbrev pub read_fs :
      (DsdiffMetaData → S → Found S) → DsdiffMetaData → DsdiffChunkHeader → S → Found S
  read_fs again m h s =
      if h.size == 4
      then on_bytes (λ bytes s. again (record m { sample_rate = some (read_be bytes) }) s)
          (decoder_read_full is 4 4 s)
      else some (s, none)

  abbrev pub read_chnl :
      (DsdiffMetaData → S → Found S) → DsdiffMetaData → DsdiffChunkHeader → Option ℕ → S → Found S
  read_chnl again m h end s =
      if ltb h.size 2
      then some (s, none)
      else on_bytes
          (λ bytes s.
            skip_chunk (λ s. again (record m { channels = some (read_be bytes) }) s) end s)
          (decoder_read_full is 2 2 s)

  abbrev pub read_cmpr :
      (DsdiffMetaData → S → Found S) → DsdiffMetaData → DsdiffChunkHeader → Option ℕ → S → Found S
  read_cmpr again m h end s =
      if ltb h.size 4
      then some (s, none)
      else on_bytes
          (λ bytes s.
            skip_chunk (λ s. if equals_id bytes dsd_id then again m s else some (s, none)) end s)
          (decoder_read_full is 4 4 s)

  abbrev pub ends_behind : Option ℕ → ℕ → Bool
  ends_behind none end_offset = false
  ends_behind (some offset) end_offset = ltb end_offset offset

  -- A chunk of the properties
  abbrev pub prop_chunk :
      (DsdiffMetaData → S → Found S) → ℕ → DsdiffMetaData → DsdiffChunkHeader → S → Found S
  prop_chunk again end_offset m h s =
      let end = chunk_end_offset (is.get_offset s) h.size in
      if ends_behind end end_offset
      then some (s, none)
      else if equals_id h.id fs_id
      then read_fs again m h s
      else if equals_id h.id chnl_id
      then read_chnl again m h end s
      else if equals_id h.id cmpr_id
      then read_cmpr again m h end s
      else skip_chunk (again m) end s

  -- dsdiff_read_prop_snd
  unfoldable pub dsdiff_read_prop_snd : ℕ → ℕ → DsdiffMetaData → S → Found S
  dsdiff_read_prop_snd zero end_offset m s = none
  dsdiff_read_prop_snd (suc fuel) end_offset m s =
      if leb (is.get_offset s + 12) end_offset
      then on_bytes
          (λ bytes s.
            prop_chunk (dsdiff_read_prop_snd fuel end_offset) end_offset m
              (dsdiff_chunk_header bytes) s)
          (decoder_read_full is 12 12 s)
      else some (s, if is.get_offset s == end_offset then some m else none)

  -- dsdiff_read_prop: nothing lies before a negative end.
  abbrev pub read_snd : ℕ → Option ℕ → DsdiffMetaData → S → Found S
  read_snd fuel none m s = some (s, none)
  read_snd fuel (some end_offset) m s = dsdiff_read_prop_snd fuel end_offset m s

  unfoldable pub dsdiff_read_prop : ℕ → DsdiffMetaData → DsdiffChunkHeader → S → Found S
  dsdiff_read_prop fuel m h s =
      let end = chunk_end_offset (is.get_offset s) h.size in
      if ltb h.size 4
      then some (s, none)
      else on_bytes
          (λ bytes t.
            if equals_id bytes snd_id
            then read_snd fuel end m t
            else skip_chunk (λ u. some (u, some m)) end t)
          (decoder_read_full is 4 4 s)

  abbrev pub on_prop : (DsdiffMetaData → S → Found S) → Found S → Found S
  on_prop k none = none
  on_prop k (some (s, none)) = some (s, none)
  on_prop k (some (s, some m)) = k m s

  abbrev pub metadata_chunk :
      ℕ → (DsdiffMetaData → S → Found S) → DsdiffMetaData → DsdiffChunkHeader → S → Found S
  metadata_chunk fuel again m h s =
      if equals_id h.id prop_id
      then on_prop again (dsdiff_read_prop fuel m h s)
      else if equals_id h.id dsd_id
      then some (s, some (record m { chunk_size = h.size; data_offset = is.get_offset s }))
      else skip_chunk (again m) (chunk_end_offset (is.get_offset s) h.size) s

  -- The loop of dsdiff_read_metadata
  unfoldable pub read_metadata_loop : ℕ → DsdiffMetaData → S → Found S
  read_metadata_loop zero m s = none
  read_metadata_loop (suc fuel) m s =
      on_bytes
        (λ bytes s. metadata_chunk fuel (read_metadata_loop fuel) m (dsdiff_chunk_header bytes) s)
        (decoder_read_full is 12 12 s)

  unfoldable pub dsdiff_read_metadata : ℕ → S → Found S
  dsdiff_read_metadata fuel s =
      on_bytes
        (λ bytes s.
          if equals_id (field 0 4 bytes) frm8_id && equals_id (field 12 4 bytes) dsd_id
          then read_metadata_loop fuel
              (record { sample_rate = none; channels = none; chunk_size = 0; data_offset = 0 }) s
          else some (s, none))
        (decoder_read_full is 16 16 s)
