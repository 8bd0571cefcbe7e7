-- ===== src/Pcm/Tests.antt =====
-- Runs of src/pcm and AudioFormat at concrete inputs.
use mpd_dsd.Prelude.{
  false, ℕ, ◌+◌, ◌*◌, ◌≡◌, refl, arith, true, [], ◌∷◌, length, get_elem?, some, inr,
}
use mpd_dsd.Prelude.Arrays.{Array}
use mpd_dsd.Pcm.Format.{AudioFormat, SampleFormat}
use mpd_dsd.Pcm.DsdUsb.{pcm_dsd_to_usb, usb_word, pcm_dsd_to_usb_words}
use mpd_dsd.Pcm.DsdNative.{pcm_dsd_native, word_of, native_stereo_words}
use mpd_dsd.Pcm.Export.{
  PcmExport, open_export, converts_native, calc_source_size, export, HasFrameSize,
  open_export-HasFrameSize, calc_source_size-export,
}
use mpd_dsd.Pcm.BitReverse.{bit_reverse, reversed_bits, bit_reverse_bits}
use mpd_dsd.Pcm.Swaps.{reverse_bytes, reverse_bytes_lem}
use mpd_dsd.Pcm.Reverse.{reverse_bytes_generic}

abbrev counting : Array ℕ
counting i = i

abbrev dsd64 : AudioFormat
dsd64 = record { sample_rate = 352800; format = SampleFormat.dsd; channels = 2 }

abbrev to_pcm : AudioFormat
to_pcm = record { sample_rate = 44100; format = SampleFormat.s16; channels = 0 }

pcm_dsd_to_usb_words_example :
    get_elem? (pcm_dsd_to_usb 2 counting 16).words (1 * 2 + 1)
    ≡ some (usb_word 1 (counting (2 * 1 * 2 + 1)) (counting ((2 * 1 + 1) * 2 + 1)))
pcm_dsd_to_usb_words_example = pcm_dsd_to_usb_words 2 counting 16 1 1 (omega arith) (omega arith)

native_stereo_words_example :
    (get_elem? (pcm_dsd_native 2 counting 16 3).words (2 * 1 + 1)
      ≡ some (
          word_of
            (counting (8 * 1 + 1))
            (counting (8 * 1 + 2 + 1))
            (counting (8 * 1 + 4 + 1))
            (counting (8 * 1 + 6 + 1))))
    × (get_elem? (pcm_dsd_native 2 counting 16 2).words (2 * 1 + 1)
        ≡ some (
            word_of
              (counting (8 * 1 + 6 + 1))
              (counting (8 * 1 + 4 + 1))
              (counting (8 * 1 + 2 + 1))
              (counting (8 * 1 + 1))))
native_stereo_words_example = native_stereo_words counting 16 1 1 (omega arith) (omega arith)

reverse_bytes_lem_example :
    reverse_bytes 4 (1 ∷ 2 ∷ 3 ∷ 4 ∷ []) ≡ reverse_bytes_generic 4 (1 ∷ 2 ∷ 3 ∷ 4 ∷ [])
reverse_bytes_lem_example =
    reverse_bytes_lem 4 (1 ∷ 2 ∷ 3 ∷ 4 ∷ []) (omega arith) refl
      (omega arith, (omega arith, (omega arith, (omega arith, tt))))

open_export-HasFrameSize_example :
    HasFrameSize (open_export dsd64.format dsd64.channels true false true true false 0) dsd64
open_export-HasFrameSize_example = open_export-HasFrameSize dsd64 true false true true false 0

-- DSD over USB, packed, with the bytes reversed.
abbrev packed : PcmExport
packed = record {
  channels = 2;
  dsd_usb = true;
  dsd_native = false;
  dsd_native_type = 0;
  shift8 = false;
  pack24 = true;
  reverse_endian = 3;
}

calc_source_size-export_example :
    calc_source_size packed (length (export packed counting (1 ∷ 2 ∷ 3 ∷ 4 ∷ 5 ∷ 6 ∷ 7 ∷ 8 ∷ [])))
    ≡ 8
unfolding converts_native
calc_source_size-export_example =
    calc_source_size-export packed counting (1 ∷ 2 ∷ 3 ∷ 4 ∷ 5 ∷ 6 ∷ 7 ∷ 8 ∷ []) 2 refl refl
      (omega arith) (inr refl) refl

bit_reverse_bits_example :
    (bit_reverse 0xe0 ≡ reversed_bits 0xe0) × (bit_reverse (bit_reverse 0xe0) ≡ 0xe0)
bit_reverse_bits_example = bit_reverse_bits 0xe0 (omega arith)
