-- ===== src/Pcm/DsdNative.antt =====
-- PcmDsdNative.cxx: native DSD, four DSD bytes of a channel in a word. The loop is written for two
-- channels.
use mpd_dsd.Prelude.{
  ℕ, zero, suc, ◌+◌, ◌*◌, ◌/◌, ◌%◌, ◌^◌, ◌<◌, ◌≤◌, ◌≡◌, refl, ◌∙◌, ap, ap₂, arith, List, [], ◌∷◌,
  ◌++◌, some, length, get_elem?, get_elem?-append_left, get_elem?-append_right, if◌then◌else◌, ◌==◌,
}
use native.Mathlib.Nat.{div-mul-le_self}
use mpd_dsd.Prelude.Arrays.{Array}

-- (a << 24) | (b << 16) | (c << 8) | d for bytes, which have no bit in common.
unfoldable pub two_dsd_native : ℕ → ℕ → ℕ → ℕ → ℕ
two_dsd_native a b c d = a * 2 ^ 24 + b * 2 ^ 16 + c * 2 ^ 8 + d

-- The body of the loop: the left and the right word. Type 2 is DSD_U32_BE, type 3 DSD_U32_LE.
unfoldable pub native_frame : ℕ → Array ℕ → ℕ → List ℕ
unfolding two_dsd_native
native_frame dsd_native_type bytes src =
    if dsd_native_type == 2
    then two_dsd_native (bytes (src + 6)) (bytes (src + 4)) (bytes (src + 2)) (bytes src)
      ∷ two_dsd_native (bytes (src + 7)) (bytes (src + 5)) (bytes (src + 3)) (bytes (src + 1))
      ∷ []
    else two_dsd_native (bytes src) (bytes (src + 2)) (bytes (src + 4)) (bytes (src + 6))
      ∷ two_dsd_native (bytes (src + 1)) (bytes (src + 3)) (bytes (src + 5)) (bytes (src + 7))
      ∷ []

unfoldable pub native_frames : ℕ → ℕ → Array ℕ → ℕ → List ℕ
unfolding native_frame
native_frames zero dsd_native_type bytes src = []
native_frames (suc rounds) dsd_native_type bytes src =
    native_frame dsd_native_type bytes src ++ native_frames rounds dsd_native_type bytes (src + 8)

-- The words that are written to the destination, and its size in bytes.
pub record NativeExport : Type 0 where
  pub words : List ℕ
  pub dest_size : ℕ

unfoldable pub pcm_dsd_native : ℕ → Array ℕ → ℕ → ℕ → NativeExport
pcm_dsd_native channels src src_size dsd_native_type =
    let num_src_frames = src_size / channels in
    let num_frames = num_src_frames / 2 in
    record { words = native_frames (num_frames / 2) dsd_native_type src 0; dest_size = src_size }

length-native_frames :
    (rounds type : ℕ) (bytes : Array ℕ) (src : ℕ)
    → length (native_frames rounds type bytes src) ≡ 2 * rounds
unfolding native_frames
length-native_frames zero type bytes src = refl
length-native_frames (suc rounds) type bytes src =
    ground (arith, length-native_frames rounds type bytes (src + 8))

-- With two channels and a source of whole groups of eight bytes the words fill the destination.
pub native_stereo_fills :
    (src : Array ℕ) (src_size type : ℕ)
    → src_size % 8 ≡ 0
    → 4 * length (pcm_dsd_native 2 src src_size type).words
      ≡ (pcm_dsd_native 2 src src_size type).dest_size
unfolding pcm_dsd_native
native_stereo_fills src n type h = omega (arith, length-native_frames (n / 2 / 2 / 2) type src 0)

-- With one channel the loop writes twice as many bytes as the destination holds.
pub native_mono_overruns :
    (src : Array ℕ) (src_size type : ℕ)
    → 4 ≤ src_size
    → (pcm_dsd_native 1 src src_size type).dest_size
      < 4 * length (pcm_dsd_native 1 src src_size type).words
unfolding pcm_dsd_native
native_mono_overruns src n type h = omega (arith, length-native_frames (n / 1 / 2 / 2) type src 0)

product_mono : (k m n : ℕ) → m ≤ n → k * m ≤ k * n
product_mono k m n h = grind arith

wide_frames : (n c : ℕ) → 2 < c → 3 * (n / c) ≤ n
wide_frames n c h = omega (arith, div-mul-le_self n c, product_mono (n / c) 3 c h)

-- With more than two channels the words do not fill the destination.
pub native_many_channels_short :
    (channels : ℕ) (src : Array ℕ) (src_size type : ℕ)
    → 2 < channels
    → 0 < src_size
    → 4 * length (pcm_dsd_native channels src src_size type).words
      < (pcm_dsd_native channels src src_size type).dest_size
unfolding pcm_dsd_native
native_many_channels_short c src n type h pos =
    omega (arith, length-native_frames (n / c / 2 / 2) type src 0, wide_frames n c h)

length-native_frame :
    (type : ℕ) (bytes : Array ℕ) (src : ℕ) → length (native_frame type bytes src) ≡ 2
unfolding native_frame
length-native_frame type bytes src = ground arith

get_elem?-native_frames :
    (rounds type : ℕ) (bytes : Array ℕ) (src j k : ℕ)
    → j < rounds
    → k < 2
    → get_elem? (native_frames rounds type bytes src) (2 * j + k)
      ≡ get_elem? (native_frame type bytes (src + 8 * j)) k
unfolding native_frames
get_elem?-native_frames zero type bytes src j k h hk = elim h [ ]
get_elem?-native_frames (suc rounds) type bytes src zero k h hk =
    let n = length-native_frame type bytes src in
    get_elem?-append_left (native_frame type bytes src) _ (2 * 0 + k) (omega arith)
    ∙ ap₂ (λ s i. get_elem? (native_frame type bytes s) i) (omega arith) (omega arith)
get_elem?-native_frames (suc rounds) type bytes src (suc j) k h hk =
    let n = length-native_frame type bytes src in
    get_elem?-append_right (native_frame type bytes src) _ (2 * suc j + k) (2 * j + k) (omega arith)
    ∙ get_elem?-native_frames rounds type bytes (src + 8) j k (omega arith) hk
    ∙ ap (λ s. get_elem? (native_frame type bytes s) k) (omega arith)

-- The word with these bytes, the first in the highest place.
abbrev pub word_of : ℕ → ℕ → ℕ → ℕ → ℕ
word_of a b c d = ((a * 256 + b) * 256 + c) * 256 + d

two_dsd_native_lem : (a b c d : ℕ) → two_dsd_native a b c d ≡ word_of a b c d
unfolding two_dsd_native
two_dsd_native_lem a b c d = omega arith

stereo_words :
    (src : Array ℕ) (src_size j k : ℕ)
    → j < src_size / 8
    → k < 2
    → (get_elem? (pcm_dsd_native 2 src src_size 3).words (2 * j + k)
        ≡ some (
            two_dsd_native
              (src (8 * j + k))
              (src (8 * j + 2 + k))
              (src (8 * j + 4 + k))
              (src (8 * j + 6 + k))))
      × (get_elem? (pcm_dsd_native 2 src src_size 2).words (2 * j + k)
          ≡ some (
              two_dsd_native
                (src (8 * j + 6 + k))
                (src (8 * j + 4 + k))
                (src (8 * j + 2 + k))
                (src (8 * j + k))))
unfolding pcm_dsd_native native_frame
stereo_words src n j zero h hk = (
  get_elem?-native_frames (n / 2 / 2 / 2) 3 src 0 j 0 (omega arith) (omega arith)
      ∙ ground (arith, ap src),
  get_elem?-native_frames (n / 2 / 2 / 2) 2 src 0 j 0 (omega arith) (omega arith)
      ∙ ground (arith, ap src),
)
stereo_words src n j (suc zero) h hk = (
  get_elem?-native_frames (n / 2 / 2 / 2) 3 src 0 j 1 (omega arith) (omega arith)
      ∙ ground (arith, ap src),
  get_elem?-native_frames (n / 2 / 2 / 2) 2 src 0 j 1 (omega arith) (omega arith)
      ∙ ground (arith, ap src),
)
stereo_words src n j (suc (suc k)) h hk = absurd (omega arith)

-- Word 2 j + k of a stereo native export holds the bytes 4 j to 4 j + 3 of channel k, the first in
-- the highest place for DSD_U32_LE and in the lowest for DSD_U32_BE.
pub native_stereo_words :
    (src : Array ℕ) (src_size j k : ℕ)
    → j < src_size / 8
    → k < 2
    → (get_elem? (pcm_dsd_native 2 src src_size 3).words (2 * j + k)
        ≡ some (
            word_of
              (src (8 * j + k))
              (src (8 * j + 2 + k))
              (src (8 * j + 4 + k))
              (src (8 * j + 6 + k))))
      × (get_elem? (pcm_dsd_native 2 src src_size 2).words (2 * j + k)
          ≡ some (
              word_of
                (src (8 * j + 6 + k))
                (src (8 * j + 4 + k))
                (src (8 * j + 2 + k))
                (src (8 * j + k))))
native_stereo_words src n j k h hk =
    let w = stereo_words src n j k h hk in
    (
      w.0
          ∙ ap some (
              two_dsd_native_lem (src (8 * j + k)) (src (8 * j + 2 + k)) (src (8 * j + 4 + k))
                (src (8 * j + 6 + k))),
      w.1
          ∙ ap some (
              two_dsd_native_lem (src (8 * j + 6 + k)) (src (8 * j + 4 + k)) (src (8 * j + 2 + k))
                (src (8 * j + k))),
    )
