-- ===== src/Pcm/Pack.antt =====
-- PcmPack.cxx on a little endian host: 24 bit samples between 32 bit words and three bytes.
use mpd_dsd.Prelude.{
  ℕ, ◌+◌, ◌-◌, ◌*◌, ◌/◌, ◌%◌, ◌^◌, ◌<◌, ◌≤◌, ◌≡◌, refl, ap₂, arith, List, [], ◌∷◌, length, ltb,
  if◌then◌else◌, ◌⊎◌,
}

-- An int32_t is its bit pattern, a number below 2 ^ 32. Its bytes in memory:
abbrev pub word_bytes : ℕ → List ℕ
word_bytes x = x % 256 ∷ x / 256 % 256 ∷ x / 2 ^ 16 % 256 ∷ x / 2 ^ 24 % 256 ∷ []

-- The words of a memory block, and the block of a list of words.
unfoldable pub bytes_of_words : List ℕ → List ℕ
bytes_of_words [] = []
bytes_of_words (x ∷ xs) =
    x % 256 ∷ x / 256 % 256 ∷ x / 2 ^ 16 % 256 ∷ x / 2 ^ 24 % 256 ∷ bytes_of_words xs

unfoldable pub words_of_bytes : List ℕ → List ℕ
words_of_bytes (a ∷ b ∷ c ∷ d ∷ rest) =
    (a + b * 256 + c * 2 ^ 16 + d * 2 ^ 24) ∷ words_of_bytes rest
words_of_bytes rest = []

-- Three bytes of the sample are copied.
unfoldable pub pack_sample : ℕ → List ℕ → List ℕ
pack_sample src dest = src % 256 ∷ src / 256 % 256 ∷ src / 2 ^ 16 % 256 ∷ dest

unfoldable pub pcm_pack_24 : List ℕ → List ℕ
unfolding pack_sample
pcm_pack_24 [] = []
pcm_pack_24 (x ∷ src) = pack_sample x (pcm_pack_24 src)

-- The fourth byte extends the sign bit of the third, `*src & 0x80 ? 0xff : 0x00`.
unfoldable pub unpack_sample : ℕ → ℕ → ℕ → ℕ
unpack_sample a b c = a + b * 256 + c * 2 ^ 16 + (if ltb c 0x80 then 0x00 else 0xff) * 2 ^ 24

unfoldable pub pcm_unpack_24 : List ℕ → List ℕ
unfolding unpack_sample
pcm_unpack_24 (a ∷ b ∷ c ∷ rest) = unpack_sample a b c ∷ pcm_unpack_24 rest
pcm_unpack_24 rest = []

-- Samples that 24 bits hold, in two's complement.
abbrev pub All24 : List ℕ → Type 0
All24 [] = Unit
All24 (x ∷ xs) = ((x < 2 ^ 23) ⊎ ((2 ^ 32 - 2 ^ 23 ≤ x) × (x < 2 ^ 32))) × All24 xs

abbrev pub AllBytes : List ℕ → Type 0
AllBytes [] = Unit
AllBytes (x ∷ xs) = (x < 256) × AllBytes xs

-- Unpacking what was packed gives the samples back, if 24 bits hold them.
pub unpack-pack : (xs : List ℕ) → All24 xs → pcm_unpack_24 (pcm_pack_24 xs) ≡ xs
unfolding pcm_unpack_24 pcm_pack_24
unpack-pack [] h = refl
unpack-pack (x ∷ xs) (h, hs) = ap₂ ◌∷◌ (ground arith) (unpack-pack xs hs)

-- Packing what was unpacked gives the bytes back, if there are whole samples.
pub pack-unpack :
    (n : ℕ) (bytes : List ℕ)
    → length bytes ≡ 3 * n
    → AllBytes bytes
    → pcm_pack_24 (pcm_unpack_24 bytes) ≡ bytes
unfolding pcm_unpack_24 pcm_pack_24
pack-unpack n [] e h = refl
pack-unpack n (a ∷ []) e h = absurd (omega arith)
pack-unpack n (a ∷ b ∷ []) e h = absurd (omega arith)
pack-unpack n (a ∷ b ∷ c ∷ rest) e (ha, (hb, (hc, hr))) =
    ap₂ ◌∷◌ (ground arith)
      (ap₂ ◌∷◌ (ground arith) (ap₂ ◌∷◌ (ground arith) (pack-unpack (n - 1) rest (omega arith) hr)))

pub length-pcm_pack_24 : (xs : List ℕ) → length (pcm_pack_24 xs) ≡ 3 * length xs
unfolding pcm_pack_24
length-pcm_pack_24 [] = refl
length-pcm_pack_24 (x ∷ xs) = omega (arith, length-pcm_pack_24 xs)

pub length-bytes_of_words : (xs : List ℕ) → length (bytes_of_words xs) ≡ 4 * length xs
unfolding bytes_of_words
length-bytes_of_words [] = refl
length-bytes_of_words (x ∷ xs) = omega (arith, length-bytes_of_words xs)

pub length-words_of_bytes : (bytes : List ℕ) → length (words_of_bytes bytes) ≡ length bytes / 4
unfolding words_of_bytes
length-words_of_bytes [] = refl
length-words_of_bytes (a ∷ []) = omega arith
length-words_of_bytes (a ∷ b ∷ []) = omega arith
length-words_of_bytes (a ∷ b ∷ c ∷ []) = omega arith
length-words_of_bytes (a ∷ b ∷ c ∷ d ∷ rest) = omega (arith, length-words_of_bytes rest)
