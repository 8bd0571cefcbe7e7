-- ===== src/Pcm/DsdUsb.antt =====
-- PcmDsdUsb.cxx: DSD over USB. Two DSD bytes of a channel go into a fake 24 bit sample below a marker
-- that alternates between 0x05 and 0xfa.
use mpd_dsd.Prelude.{
  ℕ, zero, suc, ◌+◌, ◌*◌, ◌/◌, ◌%◌, ◌<◌, ◌≤◌, ◌≡◌, refl, sym, ◌∙◌, ap, arith, if◌then◌else◌, ◌==◌,
  List, [], ◌∷◌, ◌++◌, some, length, length-append, get_elem?, get_elem?-append_left,
  get_elem?-append_right, ap₂,
}
use native.Mathlib.Nat.{div-mul-le_self}
use mpd_dsd.Prelude.Arrays.{Array}

-- 0xff050000 | (a << 8) | b, and 0xfffa0000 | (a << 8) | b, for bytes a and b: the operands have no
-- bit in common.
unfoldable pub two_dsd_to_usb_marker1 : ℕ → ℕ → ℕ
two_dsd_to_usb_marker1 a b = 0xff050000 + a * 256 + b

unfoldable pub two_dsd_to_usb_marker2 : ℕ → ℕ → ℕ
two_dsd_to_usb_marker2 a b = 0xfffa0000 + a * 256 + b

-- for (c = channels; c > 0; --c) { *dest++ = marker(src[0], src[channels]); ++src; }
unfoldable pub usb_frame : (ℕ → ℕ → ℕ) → ℕ → ℕ → Array ℕ → ℕ → List ℕ
usb_frame marker zero channels bytes src = []
usb_frame marker (suc c) channels bytes src =
    marker (bytes src) (bytes (src + channels)) ∷ usb_frame marker c channels bytes (src + 1)

-- The outer loop: two frames a round, and after each the pointer skips the second bytes.
unfoldable pub usb_frames : ℕ → ℕ → Array ℕ → ℕ → List ℕ
unfolding two_dsd_to_usb_marker1 two_dsd_to_usb_marker2
usb_frames zero channels bytes src = []
usb_frames (suc rounds) channels bytes src =
    usb_frame two_dsd_to_usb_marker1 channels channels bytes src
    ++ (usb_frame two_dsd_to_usb_marker2 channels channels bytes (src + channels + channels)
        ++ usb_frames rounds channels bytes (src + channels + channels + channels + channels))

-- The words that are written to the destination, and its size in bytes as the caller learns it.
pub record UsbExport : Type 0 where
  pub words : List ℕ
  pub dest_size : ℕ

unfoldable pub pcm_dsd_to_usb : ℕ → Array ℕ → ℕ → UsbExport
pcm_dsd_to_usb channels src src_size =
    let num_src_frames = src_size / channels in
    let num_frames = num_src_frames / 2 in
    let num_samples = num_frames * channels in
    record { words = usb_frames (num_frames / 2) channels src 0; dest_size = num_samples * 4 }

length-usb_frame :
    (marker : ℕ → ℕ → ℕ) (c channels : ℕ) (bytes : Array ℕ) (src : ℕ)
    → length (usb_frame marker c channels bytes src) ≡ c
unfolding usb_frame
length-usb_frame marker zero channels bytes src = refl
length-usb_frame marker (suc c) channels bytes src =
    ap suc (length-usb_frame marker c channels bytes (src + 1))

length-usb_frames :
    (rounds channels : ℕ) (bytes : Array ℕ) (src : ℕ)
    → length (usb_frames rounds channels bytes src) ≡ 2 * (rounds * channels)
unfolding usb_frames
length-usb_frames zero channels bytes src = omega arith
length-usb_frames (suc rounds) channels bytes src = omega (
  arith,
  length-append (usb_frame two_dsd_to_usb_marker1 channels channels bytes src) (
      usb_frame two_dsd_to_usb_marker2 channels channels bytes (src + channels + channels)
      ++ usb_frames rounds channels bytes (src + channels + channels + channels + channels)),
  length-append
      (usb_frame two_dsd_to_usb_marker2 channels channels bytes (src + channels + channels))
      (usb_frames rounds channels bytes (src + channels + channels + channels + channels)),
  length-usb_frame two_dsd_to_usb_marker1 channels channels bytes src,
  length-usb_frame two_dsd_to_usb_marker2 channels channels bytes (src + channels + channels),
  length-usb_frames rounds channels bytes (src + channels + channels + channels + channels),
)

whole_and_odd : (n c : ℕ) → n * c * 4 ≡ 4 * (2 * (n / 2 * c)) + n % 2 * (4 * c)
whole_and_odd n c =
    let e : n ≡ 2 * (n / 2) + n % 2 = omega arith in omega (arith, ap (λ (t : ℕ). t * c) e)

-- The size that pcm_dsd_to_usb reports is that of the words that it writes, but where the number of
-- frames is odd: then the last frame of the destination, 4 bytes for each channel, is not written.
pub dest_size_written :
    (channels : ℕ) (src : Array ℕ) (src_size : ℕ)
    → (pcm_dsd_to_usb channels src src_size).dest_size
      ≡ 4 * length (pcm_dsd_to_usb channels src src_size).words
        + src_size / channels / 2 % 2 * (4 * channels)
unfolding pcm_dsd_to_usb
dest_size_written channels src src_size = omega (
  arith,
  whole_and_odd (src_size / channels / 2) channels,
  length-usb_frames (src_size / channels / 2 / 2) channels src 0,
)

get_elem?-usb_frame :
    (marker : ℕ → ℕ → ℕ) (c channels : ℕ) (bytes : Array ℕ) (src k : ℕ)
    → k < c
    → get_elem? (usb_frame marker c channels bytes src) k
      ≡ some (marker (bytes (src + k)) (bytes (src + k + channels)))
unfolding usb_frame
get_elem?-usb_frame marker zero channels bytes src k h = elim h [ ]
get_elem?-usb_frame marker (suc c) channels bytes src zero h =
    ap₂ (λ i j. some (marker (bytes i) (bytes j))) (omega arith) (omega arith)
get_elem?-usb_frame marker (suc c) channels bytes src (suc k) h =
    get_elem?-usb_frame marker c channels bytes (src + 1) k (omega arith)
    ∙ ap₂ (λ i j. some (marker (bytes i) (bytes j))) (omega arith) (omega arith)

-- The marker of frame `f`.
abbrev pub usb_marker : ℕ → ℕ → ℕ → ℕ
usb_marker zero = two_dsd_to_usb_marker1
usb_marker (suc zero) = two_dsd_to_usb_marker2
usb_marker (suc (suc f)) = usb_marker f

get_elem?-usb_frames :
    (rounds channels : ℕ) (bytes : Array ℕ) (src f k : ℕ)
    → f < 2 * rounds
    → k < channels
    → get_elem? (usb_frames rounds channels bytes src) (f * channels + k)
      ≡ some (
          usb_marker f
            (bytes (src + 2 * (f * channels) + k))
            (bytes (src + 2 * (f * channels) + k + channels)))
unfolding usb_frames
get_elem?-usb_frames zero channels bytes src f k h hk = absurd (omega arith)
get_elem?-usb_frames (suc rounds) channels bytes src zero k h hk =
    get_elem?-append_left (usb_frame two_dsd_to_usb_marker1 channels channels bytes src) _
      (0 * channels + k)
      (omega (arith, length-usb_frame two_dsd_to_usb_marker1 channels channels bytes src))
    ∙ ap (get_elem? (usb_frame two_dsd_to_usb_marker1 channels channels bytes src)) (omega arith)
    ∙ get_elem?-usb_frame two_dsd_to_usb_marker1 channels channels bytes src k hk
    ∙ ap₂ (λ i j. some (two_dsd_to_usb_marker1 (bytes i) (bytes j))) (omega arith) (omega arith)
get_elem?-usb_frames (suc rounds) channels bytes src (suc zero) k h hk =
    get_elem?-append_right (usb_frame two_dsd_to_usb_marker1 channels channels bytes src) _
      (1 * channels + k) k
      (omega (arith, length-usb_frame two_dsd_to_usb_marker1 channels channels bytes src))
    ∙ get_elem?-append_left
        (usb_frame two_dsd_to_usb_marker2 channels channels bytes (src + channels + channels)) _ k
        (omega (
          arith,
          length-usb_frame two_dsd_to_usb_marker2 channels channels bytes
              (src + channels + channels),
        ))
    ∙ get_elem?-usb_frame two_dsd_to_usb_marker2 channels channels bytes (src + channels + channels)
        k hk
    ∙ ap₂ (λ i j. some (two_dsd_to_usb_marker2 (bytes i) (bytes j))) (omega arith) (omega arith)
get_elem?-usb_frames (suc rounds) channels bytes src (suc (suc f)) k h hk =
    get_elem?-append_right (usb_frame two_dsd_to_usb_marker1 channels channels bytes src) _
      (suc (suc f) * channels + k) (channels + (f * channels + k))
      (omega (arith, length-usb_frame two_dsd_to_usb_marker1 channels channels bytes src))
    ∙ get_elem?-append_right
        (usb_frame two_dsd_to_usb_marker2 channels channels bytes (src + channels + channels)) _
        (channels + (f * channels + k)) (f * channels + k)
        (omega (
          arith,
          length-usb_frame two_dsd_to_usb_marker2 channels channels bytes
              (src + channels + channels),
        ))
    ∙ get_elem?-usb_frames rounds channels bytes (src + channels + channels + channels + channels) f
        k (omega arith) hk
    ∙ ap₂ (λ i j. some (usb_marker f (bytes i) (bytes j))) (omega arith) (omega arith)

-- A fake 24 bit sample in a word: the marker 05 or fa, below it the first byte, then the second.
abbrev pub usb_word : ℕ → ℕ → ℕ → ℕ
usb_word f first second = ((if f % 2 == 0 then 0xff05 else 0xfffa) * 256 + first) * 256 + second

usb_marker_lem : (f a b : ℕ) → usb_marker f a b ≡ usb_word f a b
unfolding two_dsd_to_usb_marker1 two_dsd_to_usb_marker2
usb_marker_lem zero a b = omega arith
usb_marker_lem (suc zero) a b = omega arith
usb_marker_lem (suc (suc f)) a b =
    let e : suc (suc f) % 2 ≡ f % 2 = omega arith in
    usb_marker_lem f a b
    ∙ ap (λ p. ((if p == 0 then 0xff05 else 0xfffa) * 256 + a) * 256 + b) (sym e)

-- Word k of frame f of a DSD over USB export has the marker of the frame in its upper 16 bits, ff05
-- for even frames and fffa for odd ones, below it byte 2 f of channel k of the source and lowest
-- byte 2 f + 1, for the frames that the loop writes.
pub pcm_dsd_to_usb_words :
    (channels : ℕ) (src : Array ℕ) (src_size f k : ℕ)
    → f < 2 * (src_size / channels / 4)
    → k < channels
    → get_elem? (pcm_dsd_to_usb channels src src_size).words (f * channels + k)
      ≡ some (usb_word f (src (2 * f * channels + k)) (src ((2 * f + 1) * channels + k)))
unfolding pcm_dsd_to_usb
pcm_dsd_to_usb_words channels src src_size f k h hk =
    get_elem?-usb_frames (src_size / channels / 2 / 2) channels src 0 f k (omega arith) hk
    ∙ ap₂ (λ i j. some (usb_marker f (src i) (src j))) (omega arith) (omega arith)
    ∙ ap some (usb_marker_lem f (src (2 * f * channels + k)) (src ((2 * f + 1) * channels + k)))

-- Two sources that agree on [src, src + n).
abbrev Agree : Array ℕ → Array ℕ → ℕ → ℕ → Type 0
Agree a b src n = (i : ℕ) → src ≤ i → i < src + n → a i ≡ b i

usb_frame-Agree :
    (marker : ℕ → ℕ → ℕ) (c channels : ℕ) (a b : Array ℕ) (src : ℕ)
    → Agree a b src (channels + c)
    → usb_frame marker c channels a src ≡ usb_frame marker c channels b src
unfolding usb_frame
usb_frame-Agree marker zero channels a b src h = refl
usb_frame-Agree marker (suc c) channels a b src h =
    ap₂ ◌∷◌
      (ap₂ marker (h src (omega arith) (omega arith))
        (h (src + channels) (omega arith) (omega arith)))
      (usb_frame-Agree marker c channels a b (src + 1) (λ i h1 h2. h i (omega arith) (omega arith)))

usb_frames-Agree :
    (rounds channels : ℕ) (a b : Array ℕ) (src : ℕ)
    → Agree a b src (4 * (rounds * channels))
    → usb_frames rounds channels a src ≡ usb_frames rounds channels b src
unfolding usb_frames
usb_frames-Agree zero channels a b src h = refl
usb_frames-Agree (suc rounds) channels a b src h =
    ap₂ ◌++◌
      (usb_frame-Agree two_dsd_to_usb_marker1 channels channels a b src
        (λ i h1 h2. h i (omega arith) (omega arith)))
      (ap₂ ◌++◌
        (usb_frame-Agree two_dsd_to_usb_marker2 channels channels a b (src + channels + channels)
          (λ i h1 h2. h i (omega arith) (omega arith)))
        (usb_frames-Agree rounds channels a b (src + channels + channels + channels + channels)
          (λ i h1 h2. h i (omega arith) (omega arith))))

scaled : (k d c : ℕ) → k ≤ d → k * c ≤ d * c
scaled k d c h = grind arith

rounds_in_source : (n c : ℕ) → 4 * (n / c / 2 / 2 * c) ≤ n
rounds_in_source n c =
    omega (arith, scaled (4 * (n / c / 2 / 2)) (n / c) c (omega arith), div-mul-le_self n c)

-- Every byte that the export reads lies below the size of the source: from two sources that agree
-- there come the same words.
pub pcm_dsd_to_usb_in_bounds :
    (channels : ℕ) (a b : Array ℕ) (src_size : ℕ)
    → ((i : ℕ) → i < src_size → a i ≡ b i)
    → pcm_dsd_to_usb channels a src_size ≡ pcm_dsd_to_usb channels b src_size
unfolding pcm_dsd_to_usb
pcm_dsd_to_usb_in_bounds channels a b src_size same =
    ap (λ w. record { words = w; dest_size = src_size / channels / 2 * channels * 4 })
      (usb_frames-Agree (src_size / channels / 2 / 2) channels a b 0
        (λ i h1 h2. same i (omega (arith, rounds_in_source src_size channels))))
