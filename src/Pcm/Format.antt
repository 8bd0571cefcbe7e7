-- ===== src/Pcm/Format.antt =====
-- AudioFormat.hxx, AudioFormat.cxx and CheckAudioFormat.cxx: audio formats, their validity and sizes.
use mpd_dsd.Prelude.{
  ℕ, ◌*◌, ◌^◌, ◌<◌, ◌≤◌, ◌≡◌, refl, arith, Bool, true, false, ◌&&◌, ◌||◌, not, Option, none, some,
  ltb, leb, if◌then◌else◌, ◌==◌,
}

pub data SampleFormat : Type 0 where
  undefined s8 s16 s24_p32 s32 float dsd dsd_u8 dsd_u32_be dsd_u32_le : SampleFormat

abbrev pub max_channels : ℕ
max_channels = 8

pub record AudioFormat : Type 0 where
  pub sample_rate : ℕ
  pub format : SampleFormat
  pub channels : ℕ

-- AudioFormat::Clear and Undefined
abbrev pub cleared : AudioFormat
cleared = record { sample_rate = 0; format = SampleFormat.undefined; channels = 0 }

unfoldable pub is_undefined : SampleFormat → Bool
is_undefined SampleFormat.undefined = true
is_undefined _ = false

unfoldable pub is_defined : AudioFormat → Bool
is_defined f = not (f.sample_rate == 0)

unfoldable pub is_fully_defined : AudioFormat → Bool
unfolding is_undefined
is_fully_defined f =
    not (f.sample_rate == 0) && not (is_undefined f.format) && not (f.channels == 0)

unfoldable pub is_mask_defined : AudioFormat → Bool
unfolding is_undefined
is_mask_defined f = not (f.sample_rate == 0) || not (is_undefined f.format) || not (f.channels == 0)

unfoldable pub audio_valid_sample_rate : ℕ → Bool
audio_valid_sample_rate rate = ltb 0 rate && ltb rate (2 ^ 30)

unfoldable pub audio_valid_sample_format : SampleFormat → Bool
audio_valid_sample_format SampleFormat.undefined = false
audio_valid_sample_format _ = true

unfoldable pub audio_valid_channel_count : ℕ → Bool
audio_valid_channel_count channels = leb 1 channels && leb channels max_channels

unfoldable pub is_valid : AudioFormat → Bool
unfolding audio_valid_sample_rate audio_valid_sample_format audio_valid_channel_count
is_valid f =
    audio_valid_sample_rate f.sample_rate
    && audio_valid_sample_format f.format
    && audio_valid_channel_count f.channels

unfoldable pub is_mask_valid : AudioFormat → Bool
unfolding audio_valid_sample_rate audio_valid_sample_format audio_valid_channel_count is_undefined
is_mask_valid f =
    (f.sample_rate == 0 || audio_valid_sample_rate f.sample_rate)
    && (is_undefined f.format || audio_valid_sample_format f.format)
    && (f.channels == 0 || audio_valid_channel_count f.channels)

unfoldable pub apply_mask : AudioFormat → AudioFormat → AudioFormat
unfolding is_undefined
apply_mask f mask = record {
  sample_rate = if mask.sample_rate == 0 then f.sample_rate else mask.sample_rate;
  format = if is_undefined mask.format then f.format else mask.format;
  channels = if mask.channels == 0 then f.channels else mask.channels;
}

unfoldable pub sample_format_size : SampleFormat → ℕ
sample_format_size SampleFormat.s8 = 1
sample_format_size SampleFormat.s16 = 2
sample_format_size SampleFormat.s24_p32 = 4
sample_format_size SampleFormat.s32 = 4
sample_format_size SampleFormat.float = 4
sample_format_size SampleFormat.dsd_u32_be = 4
sample_format_size SampleFormat.dsd_u32_le = 4
sample_format_size SampleFormat.dsd = 1
sample_format_size SampleFormat.dsd_u8 = 1
sample_format_size SampleFormat.undefined = 0

unfoldable pub get_frame_size : AudioFormat → ℕ
unfolding sample_format_size
get_frame_size f = sample_format_size f.format * f.channels

-- The three checks, and audio_format_init_checked: `none` stands for an error.
unfoldable pub audio_format_init_checked : ℕ → SampleFormat → ℕ → Option AudioFormat
unfolding audio_valid_sample_rate audio_valid_sample_format audio_valid_channel_count
audio_format_init_checked rate format channels =
    if audio_valid_sample_rate rate
      && audio_valid_sample_format format
      && audio_valid_channel_count channels
    then some (record { sample_rate = rate; format = format; channels = channels })
    else none

-- The assertion of ApplyMask: a valid format stays valid under a valid mask.
pub apply_mask-is_valid :
    (f mask : AudioFormat)
    → is_valid f ≡ true
    → is_mask_valid mask ≡ true
    → is_valid (apply_mask f mask) ≡ true
unfolding is_valid is_mask_valid apply_mask
apply_mask-is_valid f mask h k = ground arith

-- audio_format_init_checked accepts exactly the valid formats.
pub init_checked_lem :
    (f : AudioFormat)
    → audio_format_init_checked f.sample_rate f.format f.channels
      ≡ (if is_valid f then some f else none)
unfolding is_valid audio_format_init_checked
init_checked_lem f = refl

-- A frame of a valid format takes between 1 and 32 bytes.
pub get_frame_size_bounds :
    (f : AudioFormat) → is_valid f ≡ true → (0 < get_frame_size f) × (get_frame_size f ≤ 32)
unfolding is_valid get_frame_size
get_frame_size_bounds f h = ground arith
