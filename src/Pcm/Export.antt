-- ===== src/Pcm/Export.antt =====
-- PcmExport.cxx: the conversions composed as the settings of the device ask for.
use mpd_dsd.Prelude.{
  ℕ, zero, suc, ◌+◌, ◌-◌, ◌*◌, ◌/◌, ◌%◌, ◌^◌, ◌<◌, ◌≡◌, refl, sym, ◌∙◌, ap, arith, Bool, true,
  false, ◌&&◌, ◌||◌, List, [], ◌∷◌, ◌++◌, length, length-append, length-take, take, ltb,
  if◌then◌else◌, ◌==◌, if_cases, ◌⊎◌, inl, inr,
}
use native.Mathlib.Nat.{mul-div_cancel}
use mpd_dsd.Prelude.Arrays.{Array}
use mpd_dsd.Pcm.Format.{SampleFormat, AudioFormat, sample_format_size, get_frame_size}
use mpd_dsd.Pcm.DsdUsb.{pcm_dsd_to_usb}
use mpd_dsd.Pcm.DsdNative.{pcm_dsd_native}
use mpd_dsd.Pcm.Pack.{
  length-pcm_pack_24, length-words_of_bytes, length-bytes_of_words, pcm_pack_24, bytes_of_words,
  words_of_bytes,
}
use mpd_dsd.Pcm.Swaps.{reverse_bytes, length-reverse_bytes}

-- The settings of PcmExport; its three buffers hold nothing between two calls.
pub record PcmExport : Type 0 where
  pub channels : ℕ
  pub dsd_usb : Bool
  pub dsd_native : Bool
  pub dsd_native_type : ℕ
  pub shift8 : Bool
  pub pack24 : Bool
  pub reverse_endian : ℕ

unfoldable pub is_dsd : SampleFormat → Bool
is_dsd SampleFormat.dsd = true
is_dsd _ = false

unfoldable pub is_s24_p32 : SampleFormat → Bool
is_s24_p32 SampleFormat.s24_p32 = true
is_s24_p32 _ = false

-- `dsd_native && (dsd_native_type == 2 || dsd_native_type == 3)`
unfoldable pub converts_native : Bool → ℕ → Bool
converts_native dsd_native type = dsd_native && (type == 2 || type == 3)

-- The format after the conversions from DSD.
unfoldable pub exported_format : SampleFormat → Bool → Bool → SampleFormat
exported_format sample_format dsd_usb native =
    if native then SampleFormat.s32 else if dsd_usb then SampleFormat.s24_p32 else sample_format

unfoldable pub open_export : SampleFormat → ℕ → Bool → Bool → Bool → Bool → Bool → ℕ → PcmExport
unfolding is_dsd is_s24_p32 converts_native exported_format sample_format_size
open_export sample_format channels dsd_usb0 shift8 pack reverse_endian dsd_native dsd_native_type =
    let dsd_usb = dsd_usb0 && is_dsd sample_format in
    let format =
      exported_format sample_format dsd_usb (converts_native dsd_native dsd_native_type) in
    let pack24 = pack && is_s24_p32 format in
    let sample_size = if pack24 then 3 else sample_format_size format in
    record {
      channels = channels;
      dsd_usb = dsd_usb;
      dsd_native = dsd_native;
      dsd_native_type = dsd_native_type;
      shift8 = shift8 && is_s24_p32 format;
      pack24 = pack24;
      reverse_endian = if reverse_endian && ltb 1 sample_size then sample_size else 0;
    }

unfoldable pub export_frame_size : PcmExport → AudioFormat → ℕ
unfolding converts_native get_frame_size
export_frame_size e f =
    if e.pack24
    then f.channels * 3
    else if e.dsd_usb
    then e.channels * 4
    else if converts_native e.dsd_native e.dsd_native_type
    then e.channels * 4
    else get_frame_size f

-- Native conversion keeps the size, DSD over USB and packing do not.
unfoldable pub calc_source_size : PcmExport → ℕ → ℕ
calc_source_size e size =
    let size1 = if e.pack24 then size / 3 * 4 else size in if e.dsd_usb then size1 / 2 else size1

-- A memory block as an array; behind its end nothing is read.
unfoldable pub array_of : List ℕ → Array ℕ
array_of [] i = 0
array_of (x ∷ xs) zero = x
array_of (x ∷ xs) (suc i) = array_of xs i

-- What the buffer held from `i` on.
unfoldable pub held : ℕ → ℕ → Array ℕ → List ℕ
held zero i old = []
held (suc n) i old = old i ∷ held n (i + 1) old

-- A buffer of `size` bytes after `bytes` have been written to its start; what goes past its end is
-- not part of it.
unfoldable pub filled : ℕ → List ℕ → Array ℕ → List ℕ
unfolding held
filled size bytes old = take size (bytes ++ held (size - length bytes) (length bytes) old)

-- The conversion from DSD.
unfoldable pub export_dsd : PcmExport → Array ℕ → List ℕ → List ℕ
unfolding converts_native filled array_of pcm_dsd_to_usb pcm_dsd_native bytes_of_words
export_dsd e old src =
    let usb = pcm_dsd_to_usb e.channels (array_of src) (length src) in
    let block = if e.dsd_usb then filled usb.dest_size (bytes_of_words usb.words) old else src in
    let native = pcm_dsd_native e.channels (array_of block) (length block) e.dsd_native_type in
    if converts_native e.dsd_native e.dsd_native_type
    then filled native.dest_size (bytes_of_words native.words) old
    else block

-- *dest++ = *src++ << 8, on uint32_t
unfoldable pub shift_words : List ℕ → List ℕ
shift_words [] = []
shift_words (x ∷ xs) = x * 2 ^ 8 % 2 ^ 32 ∷ shift_words xs

unfoldable pub export_samples : PcmExport → List ℕ → List ℕ
unfolding pcm_pack_24 words_of_bytes bytes_of_words shift_words
export_samples e block =
    if e.pack24
    then pcm_pack_24 (words_of_bytes block)
    else if e.shift8
    then bytes_of_words (shift_words (words_of_bytes block))
    else block

-- Export, on a little endian host. `old` is what the buffer for DSD held.
unfoldable pub export : PcmExport → Array ℕ → List ℕ → List ℕ
unfolding export_dsd export_samples reverse_bytes
export e old src =
    let block = export_samples e (export_dsd e old src) in
    if ltb 0 e.reverse_endian then reverse_bytes e.reverse_endian block else block

-- The frame size is that of the format after the conversion from DSD.
abbrev pub HasFrameSize : PcmExport → AudioFormat → Type 0
HasFrameSize e f =
    export_frame_size e f
    ≡ (if e.pack24
        then 3
        else sample_format_size
            (exported_format f.format e.dsd_usb (converts_native e.dsd_native e.dsd_native_type)))
      * f.channels

-- After Open for a format GetFrameSize of that format is the number of channels times the size of a
-- sample of the format after the conversion from DSD, or 3 where samples are packed.
pub open_export-HasFrameSize :
    (f : AudioFormat) (dsd_usb shift8 pack reverse_endian dsd_native : Bool) (type : ℕ)
    → HasFrameSize
        (open_export f.format f.channels dsd_usb shift8 pack reverse_endian dsd_native type)
        f
unfolding open_export export_frame_size exported_format converts_native sample_format_size
    get_frame_size is_dsd is_s24_p32
open_export-HasFrameSize f dsd_usb shift8 pack reverse_endian dsd_native type = ground arith

length-held : (n i : ℕ) (old : Array ℕ) → length (held n i old) ≡ n
unfolding held
length-held zero i old = refl
length-held (suc n) i old = ap suc (length-held n (i + 1) old)

length-filled : (size : ℕ) (bytes : List ℕ) (old : Array ℕ) → length (filled size bytes old) ≡ size
unfolding filled
length-filled size bytes old = omega (
  arith,
  length-take size (bytes ++ held (size - length bytes) (length bytes) old),
  length-append bytes (held (size - length bytes) (length bytes) old),
  length-held (size - length bytes) (length bytes) old,
)

length-shift_words : (xs : List ℕ) → length (shift_words xs) ≡ length xs
unfolding shift_words
length-shift_words [] = refl
length-shift_words (x ∷ xs) = ap suc (length-shift_words xs)

-- Samples of 4 bytes become samples of 3, or stay as long as they are.
length-export_samples :
    (e : PcmExport) (block : List ℕ)
    → length block % 4 ≡ 0
    → length (export_samples e block) ≡ (if e.pack24 then length block / 4 * 3 else length block)
unfolding export_samples
length-export_samples e block h =
    let words = words_of_bytes block in
    let size = λ (b : Bool). if b then length block / 4 * 3 else length block in
    if_cases (λ (bytes : List ℕ). length bytes ≡ size e.pack24) e.pack24
      (λ p. length-pcm_pack_24 words ∙ omega (arith, length-words_of_bytes block) ∙ sym (ap size p))
      (λ p.
        if_cases (λ (bytes : List ℕ). length bytes ≡ length block) e.shift8
          (λ _.
            length-bytes_of_words (shift_words words)
            ∙ omega (arith, length-shift_words words, length-words_of_bytes block))
          (λ _. refl)
        ∙ sym (ap size p))

-- DSD over USB doubles the size of whole frames.
length-export_dsd :
    (e : PcmExport) (old : Array ℕ) (src : List ℕ) (frames : ℕ)
    → e.dsd_usb ≡ true
    → converts_native e.dsd_native e.dsd_native_type ≡ false
    → 0 < e.channels
    → length src ≡ 2 * frames * e.channels
    → length (export_dsd e old src) ≡ 2 * length src
unfolding export_dsd pcm_dsd_to_usb
length-export_dsd e old src frames usb native pos whole =
    let n : length src / e.channels ≡ 2 * frames =
      ap (λ k. k / e.channels) whole ∙ mul-div_cancel (2 * frames) pos in
    let half : length src / e.channels / 2 ≡ frames = omega (arith, n) in
    let usb_export = pcm_dsd_to_usb e.channels (array_of src) (length src) in
    if_cases (λ (bytes : List ℕ). length bytes ≡ 2 * length src)
      (converts_native e.dsd_native e.dsd_native_type) (λ on. absurd (ground arith))
      (λ _.
        if_cases (λ (bytes : List ℕ). length bytes ≡ 2 * length src) e.dsd_usb
          (λ _.
            length-filled usb_export.dest_size (bytes_of_words usb_export.words) old
            ∙ ap (λ k. k * e.channels * 4) half
            ∙ omega (arith, whole))
          (λ off. absurd (ground arith)))

length-reversed :
    (frame_size : ℕ) (block : List ℕ)
    → (0 < frame_size → length block % frame_size ≡ 0)
    → length (if ltb 0 frame_size then reverse_bytes frame_size block else block) ≡ length block
length-reversed frame_size block whole =
    if_cases (λ (bytes : List ℕ). length bytes ≡ length block) (ltb 0 frame_size)
      (λ pos. length-reverse_bytes frame_size block (ground arith) (whole (ground arith)))
      (λ _. refl)

-- The size of the samples is a multiple of that of one sample.
whole_samples :
    (reverse_endian : ℕ) (pack24 : Bool) (n m : ℕ)
    → (reverse_endian ≡ 0) ⊎ (reverse_endian ≡ (if pack24 then 3 else 4))
    → 0 < reverse_endian
    → m ≡ (if pack24 then n / 4 * 3 else n)
    → n % 4 ≡ 0
    → m % reverse_endian ≡ 0
whole_samples reverse_endian pack24 n m (inl e) pos fits whole = absurd (omega arith)
whole_samples reverse_endian true n m (inr e) pos fits whole =
    ap (λ k. m % k) e ∙ omega (arith, fits)
whole_samples reverse_endian false n m (inr e) pos fits whole =
    ap (λ k. m % k) e ∙ omega (arith, fits)

transport_size :
    (pack24 dsd_usb : Bool) (n m size : ℕ)
    → dsd_usb ≡ true
    → m ≡ (if pack24 then n / 4 * 3 else n)
    → n ≡ 2 * size
    → n % 4 ≡ 0
    → (if dsd_usb then (if pack24 then m / 3 * 4 else m) / 2 else (if pack24 then m / 3 * 4 else m))
      ≡ size
transport_size pack24 dsd_usb n m size usb fits e whole = ground arith

-- With DSD over USB and no native DSD, CalcSourceSize of the size that Export makes of a source of
-- whole frames is the size of the source, where the samples are packed, shifted or neither, and
-- whether or not the bytes of each sample are reversed.
pub calc_source_size-export :
    (e : PcmExport) (old : Array ℕ) (src : List ℕ) (frames : ℕ)
    → e.dsd_usb ≡ true
    → converts_native e.dsd_native e.dsd_native_type ≡ false
    → 0 < e.channels
    → (e.reverse_endian ≡ 0) ⊎ (e.reverse_endian ≡ (if e.pack24 then 3 else 4))
    → length src ≡ 2 * frames * e.channels
    → calc_source_size e (length (export e old src)) ≡ length src
unfolding export calc_source_size
calc_source_size-export e old src frames usb native pos reverse whole =
    let block = export_dsd e old src in
    let samples = export_samples e block in
    let n : length block ≡ 4 * (frames * e.channels) =
      length-export_dsd e old src frames usb native pos whole ∙ omega (arith, whole) in
    let fits = length-export_samples e block (omega arith) in
    let same : length (export e old src) ≡ length samples =
      length-reversed e.reverse_endian samples (λ swaps.
        whole_samples e.reverse_endian e.pack24 (length block) (length samples) reverse swaps fits
          (omega arith)) in
    ap (calc_source_size e) same
    ∙ transport_size e.pack24 e.dsd_usb (length block) (length samples) (length src) usb fits
        (omega (arith, whole)) (omega (arith, whole))
