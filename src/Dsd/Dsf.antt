-- ===== src/Dsd/Dsf.antt =====
-- decoder/DsfDecoderPlugin.cxx: the chunks of a DSF file, on a little endian host.
pub mod Order
pub mod Ordered
pub mod Playable
pub mod Floats
pub mod Rounded
pub mod Decode
pub mod Positions
pub mod Blocks
pub mod Ends
pub mod Streams
use mpd_dsd.Prelude.{
  ℕ, zero, suc, ◌+◌, ◌-◌, ◌*◌, ◌/◌, ◌%◌, ◌^◌, ◌≡◌, Option, none, some, Bool, true, false, not, ◌&&◌,
  ◌||◌, List, [], ◌∷◌, leb, ltb, ◌==◌, if◌then◌else◌, take, drop,
}
use mpd_dsd.Dsd.Stream.{InputStream, decoder_read_full, dsdlib_valid_freq}

-- DsdId::Equals
abbrev pub equals_id : List ℕ → List ℕ → Bool
equals_id [] [] = true
equals_id (a ∷ as') (b ∷ bs) = a == b && equals_id as' bs
equals_id _ _ = false

-- FromLE32, DsdUint64::Read: a little endian number.
abbrev pub read_le : List ℕ → ℕ
read_le [] = 0
read_le (b ∷ bs) = b + 256 * read_le bs

abbrev pub field : ℕ → ℕ → List ℕ → List ℕ
field offset size bytes = take size (drop offset bytes)

-- The structures, as they lie in the file.
pub record DsfHeader : Type 0 where
  pub id : List ℕ
  pub size : ℕ
  pub fsize : ℕ
  pub pmeta : ℕ

abbrev pub dsf_header : List ℕ → DsfHeader
dsf_header b = record {
  id = field 0 4 b;
  size = read_le (field 4 8 b);
  fsize = read_le (field 12 8 b);
  pmeta = read_le (field 20 8 b);
}

pub record DsfFmtChunk : Type 0 where
  pub id : List ℕ
  pub size : ℕ
  pub version : ℕ
  pub formatid : ℕ
  pub channeltype : ℕ
  pub channelnum : ℕ
  pub sample_freq : ℕ
  pub bitssample : ℕ
  pub scnt : ℕ
  pub block_size : ℕ
  pub reserved : ℕ

abbrev pub dsf_fmt_chunk : List ℕ → DsfFmtChunk
dsf_fmt_chunk b = record {
  id = field 0 4 b;
  size = read_le (field 4 8 b);
  version = read_le (field 12 4 b);
  formatid = read_le (field 16 4 b);
  channeltype = read_le (field 20 4 b);
  channelnum = read_le (field 24 4 b);
  sample_freq = read_le (field 28 4 b);
  bitssample = read_le (field 32 4 b);
  scnt = read_le (field 36 8 b);
  block_size = read_le (field 44 4 b);
  reserved = read_le (field 48 4 b);
}

pub record DsfDataChunk : Type 0 where
  pub id : List ℕ
  pub size : ℕ

abbrev pub dsf_data_chunk : List ℕ → DsfDataChunk
dsf_data_chunk b = record { id = field 0 4 b; size = read_le (field 4 8 b) }

pub record DsfMetaData : Type 0 where
  pub sample_rate : ℕ
  pub channels : ℕ
  pub block_size : ℕ
  pub bitreverse : Bool
  pub chunk_size : ℕ
  pub id3_offset : ℕ
  pub data_offset : ℕ

-- "DSD ", "fmt " and "data"
abbrev pub dsd_id : List ℕ
dsd_id = 68 ∷ 83 ∷ 68 ∷ 32 ∷ []

abbrev pub fmt_id : List ℕ
fmt_id = 102 ∷ 109 ∷ 116 ∷ 32 ∷ []

abbrev pub data_id : List ℕ
data_id = 100 ∷ 97 ∷ 116 ∷ 97 ∷ []

-- The checks of dsf_read_metadata
unfoldable pub is_dsf_header : DsfHeader → Bool
is_dsf_header h = equals_id h.id dsd_id && h.size == 28

unfoldable pub is_dsf_fmt : DsfFmtChunk → Bool
is_dsf_fmt f =
    equals_id f.id fmt_id
    && f.size == 52
    && f.version == 1
    && f.formatid == 0
    && f.channeltype == 2
    && f.channelnum == 2
    && dsdlib_valid_freq f.sample_freq
    && f.block_size == 4096

unfoldable pub is_dsf_data : ℕ → DsfDataChunk → Bool
is_dsf_data size d = equals_id d.id data_id && leb 12 d.size && ltb (d.size - 12) size

-- No more than the samples of the header, in whole frames of four bytes a channel.
abbrev pub whole_frames : DsfFmtChunk → ℕ → ℕ
whole_frames f data_size =
    if data_size % 4 == 0 then data_size else data_size / (f.channelnum * 4) * (f.channelnum * 4)

unfoldable pub playable : DsfFmtChunk → ℕ → ℕ
playable f data_size =
    let playable_size = f.scnt * 2 % 2 ^ 64 / 8 in
    whole_frames f (if ltb playable_size data_size then playable_size else data_size)

abbrev pub metadata_of : DsfHeader → DsfFmtChunk → DsfDataChunk → ℕ → ℕ → DsfMetaData
metadata_of h f d size offset = record {
  sample_rate = f.sample_freq;
  channels = f.channelnum;
  block_size = f.block_size;
  bitreverse = f.bitssample == 1;
  chunk_size = playable f (d.size - 12);
  id3_offset = if leb size h.pmeta then 0 else h.pmeta;
  data_offset = offset;
}

module _ {S : Type 0} (is : InputStream S) where
  -- What follows when bytes have been read; an early return of false where not.
  abbrev pub on_read :
      (List ℕ → S → Option (S × Option DsfMetaData))
      → Option (S × Option (List ℕ))
      → Option (S × Option DsfMetaData)
  on_read k none = none
  on_read k (some (s, none)) = some (s, none)
  on_read k (some (s, some bytes)) = k bytes s

  abbrev pub data_read : DsfHeader → DsfFmtChunk → List ℕ → S → Option (S × Option DsfMetaData)
  data_read h f bytes s =
      let d = dsf_data_chunk bytes in
      if is_dsf_data (is.get_size s) d
      then some (s, some (metadata_of h f d (is.get_size s) (is.get_offset s)))
      else some (s, none)

  abbrev pub fmt_read : DsfHeader → List ℕ → S → Option (S × Option DsfMetaData)
  fmt_read h bytes s =
      if is_dsf_fmt (dsf_fmt_chunk bytes)
      then on_read (data_read h (dsf_fmt_chunk bytes)) (decoder_read_full is 12 12 s)
      else some (s, none)

  abbrev pub header_read : List ℕ → S → Option (S × Option DsfMetaData)
  header_read bytes s =
      if is_dsf_header (dsf_header bytes)
      then on_read (fmt_read (dsf_header bytes)) (decoder_read_full is 52 52 s)
      else some (s, none)

  unfoldable pub dsf_read_metadata : S → Option (S × Option DsfMetaData)
  dsf_read_metadata s = on_read header_read (decoder_read_full is 28 28 s)
