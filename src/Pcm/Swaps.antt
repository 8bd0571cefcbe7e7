-- ===== src/Pcm/Swaps.antt =====
-- system/ByteOrder.hxx and util/ByteReverse.cxx on a little endian host: samples of 2, 4 and 8 bytes are
-- words, whose bytes are swapped.
use mpd_dsd.Prelude.{
  ℕ, zero, suc, ◌+◌, ◌*◌, ◌/◌, ◌%◌, ◌^◌, ◌<◌, ◌≡◌, refl, ◌∙◌, ap, ap₂, arith, List, [], ◌∷◌, length,
  if◌then◌else◌, ◌==◌, if_cases,
}
use mpd_dsd.Pcm.Pack.{AllBytes}
use mpd_dsd.Pcm.Reverse.{
  reverse_frames, reverse_bytes_generic, length-reverse_bytes_generic, whole_frames,
}

-- (value >> 8) | (value << 8), on uint16_t
unfoldable pub byte_swap16 : ℕ → ℕ
byte_swap16 value = value / 2 ^ 8 + value % 2 ^ 8 * 2 ^ 8

unfoldable pub byte_swap32 : ℕ → ℕ
byte_swap32 value =
    value / 2 ^ 24
    + value / 2 ^ 16 % 2 ^ 8 * 2 ^ 8
    + value / 2 ^ 8 % 2 ^ 8 * 2 ^ 16
    + value % 2 ^ 8 * 2 ^ 24

unfoldable pub byte_swap64 : ℕ → ℕ
unfolding byte_swap32
byte_swap64 value = byte_swap32 (value / 2 ^ 32) + byte_swap32 (value % 2 ^ 32) * 2 ^ 32

-- The bytes of a word in memory, and the word of its bytes.
abbrev pub word16 : ℕ → ℕ → ℕ
word16 a b = a + b * 2 ^ 8

abbrev pub word32 : ℕ → ℕ → ℕ → ℕ → ℕ
word32 a b c d = a + b * 2 ^ 8 + c * 2 ^ 16 + d * 2 ^ 24

unfoldable pub store16 : ℕ → List ℕ → List ℕ
store16 x dest = x % 2 ^ 8 ∷ x / 2 ^ 8 ∷ dest

unfoldable pub store32 : ℕ → List ℕ → List ℕ
store32 x dest = x % 2 ^ 8 ∷ x / 2 ^ 8 % 2 ^ 8 ∷ x / 2 ^ 16 % 2 ^ 8 ∷ x / 2 ^ 24 ∷ dest

unfoldable pub reverse_bytes_16 : List ℕ → List ℕ
unfolding store16 byte_swap16
reverse_bytes_16 (a ∷ b ∷ src) = store16 (byte_swap16 (word16 a b)) (reverse_bytes_16 src)
reverse_bytes_16 src = []

unfoldable pub reverse_bytes_32 : List ℕ → List ℕ
unfolding store32 byte_swap32
reverse_bytes_32 (a ∷ b ∷ c ∷ d ∷ src) =
    store32 (byte_swap32 (word32 a b c d)) (reverse_bytes_32 src)
reverse_bytes_32 src = []

unfoldable pub reverse_bytes_64 : List ℕ → List ℕ
unfolding store32 byte_swap64
reverse_bytes_64 (a ∷ b ∷ c ∷ d ∷ e ∷ f ∷ g ∷ h ∷ src) =
    let x = byte_swap64 (word32 a b c d + word32 e f g h * 2 ^ 32) in
    store32 (x % 2 ^ 32) (store32 (x / 2 ^ 32) (reverse_bytes_64 src))
reverse_bytes_64 src = []

unfoldable pub reverse_bytes : ℕ → List ℕ → List ℕ
unfolding reverse_bytes_16 reverse_bytes_32 reverse_bytes_64 reverse_bytes_generic
reverse_bytes frame_size src =
    if frame_size == 2
    then reverse_bytes_16 src
    else if frame_size == 4
    then reverse_bytes_32 src
    else if frame_size == 8
    then reverse_bytes_64 src
    else reverse_bytes_generic frame_size src

reverse_bytes_16_lem :
    (n : ℕ) (src : List ℕ)
    → length src ≡ n * 2
    → AllBytes src
    → reverse_bytes_16 src ≡ reverse_frames n 2 src
unfolding reverse_bytes_16 store16 byte_swap16 reverse_frames
reverse_bytes_16_lem zero [] e h = refl
reverse_bytes_16_lem zero (a ∷ src) e h = absurd (omega arith)
reverse_bytes_16_lem (suc n) [] e h = absurd (omega arith)
reverse_bytes_16_lem (suc n) (a ∷ []) e h = absurd (omega arith)
reverse_bytes_16_lem (suc n) (a ∷ b ∷ src) e (ha, (hb, hs)) =
    ap₂ ◌∷◌ (omega arith) (ap₂ ◌∷◌ (omega arith) (reverse_bytes_16_lem n src (omega arith) hs))

reverse_bytes_32_lem :
    (n : ℕ) (src : List ℕ)
    → length src ≡ n * 4
    → AllBytes src
    → reverse_bytes_32 src ≡ reverse_frames n 4 src
unfolding reverse_bytes_32 store32 byte_swap32 reverse_frames
reverse_bytes_32_lem zero [] e h = refl
reverse_bytes_32_lem zero (a ∷ src) e h = absurd (omega arith)
reverse_bytes_32_lem (suc n) [] e h = absurd (omega arith)
reverse_bytes_32_lem (suc n) (a ∷ []) e h = absurd (omega arith)
reverse_bytes_32_lem (suc n) (a ∷ b ∷ []) e h = absurd (omega arith)
reverse_bytes_32_lem (suc n) (a ∷ b ∷ c ∷ []) e h = absurd (omega arith)
reverse_bytes_32_lem (suc n) (a ∷ b ∷ c ∷ d ∷ src) e (ha, (hb, (hc, (hd, hs)))) =
    ap₂ ◌∷◌ (omega arith) (
      ap₂ ◌∷◌ (omega arith) (
        ap₂ ◌∷◌ (omega arith)
          (ap₂ ◌∷◌ (omega arith) (reverse_bytes_32_lem n src (omega arith) hs))))

byte_swap32_lem :
    (a b c d : ℕ)
    → a < 256
    → b < 256
    → c < 256
    → d < 256
    → byte_swap32 (word32 a b c d) ≡ word32 d c b a
unfolding byte_swap32
byte_swap32_lem a b c d ha hb hc hd = omega arith

word32_lt : (a b c d : ℕ) → a < 256 → b < 256 → c < 256 → d < 256 → word32 a b c d < 2 ^ 32
word32_lt a b c d ha hb hc hd = omega arith

store32-word32 :
    (a b c d : ℕ) (dest : List ℕ)
    → a < 256
    → b < 256
    → c < 256
    → d < 256
    → store32 (word32 a b c d) dest ≡ a ∷ b ∷ c ∷ d ∷ dest
unfolding store32
store32-word32 a b c d dest ha hb hc hd =
    ap₂ ◌∷◌ (omega arith)
      (ap₂ ◌∷◌ (omega arith) (ap₂ ◌∷◌ (omega arith) (ap₂ ◌∷◌ (omega arith) refl)))

-- The two words of 32 bits change places, and each is swapped.
byte_swap64_words :
    (low high low' high' : ℕ)
    → low < 2 ^ 32
    → high < 2 ^ 32
    → high' < 2 ^ 32
    → byte_swap32 low ≡ low'
    → byte_swap32 high ≡ high'
    → (byte_swap64 (low + high * 2 ^ 32) % 2 ^ 32 ≡ high')
      × (byte_swap64 (low + high * 2 ^ 32) / 2 ^ 32 ≡ low')
unfolding byte_swap64
byte_swap64_words low high low' high' hl hh hh' el eh =
    let lo : (low + high * 2 ^ 32) % 2 ^ 32 ≡ low = omega arith in
    let hi : (low + high * 2 ^ 32) / 2 ^ 32 ≡ high = omega arith in
    let swapped : byte_swap64 (low + high * 2 ^ 32) ≡ high' + low' * 2 ^ 32 =
      ap₂ (λ x y. x + y * 2 ^ 32) (ap byte_swap32 hi ∙ eh) (ap byte_swap32 lo ∙ el) in
    (ap (λ x. x % 2 ^ 32) swapped ∙ omega arith, ap (λ x. x / 2 ^ 32) swapped ∙ omega arith)

reverse_bytes_64_lem :
    (n : ℕ) (src : List ℕ)
    → length src ≡ n * 8
    → AllBytes src
    → reverse_bytes_64 src ≡ reverse_frames n 8 src
unfolding reverse_bytes_64 reverse_frames
reverse_bytes_64_lem zero [] e h = refl
reverse_bytes_64_lem zero (a ∷ src) e h = absurd (omega arith)
reverse_bytes_64_lem (suc n) [] e h = absurd (omega arith)
reverse_bytes_64_lem (suc n) (a ∷ []) e h = absurd (omega arith)
reverse_bytes_64_lem (suc n) (a ∷ b ∷ []) e h = absurd (omega arith)
reverse_bytes_64_lem (suc n) (a ∷ b ∷ c ∷ []) e h = absurd (omega arith)
reverse_bytes_64_lem (suc n) (a ∷ b ∷ c ∷ d ∷ []) e h = absurd (omega arith)
reverse_bytes_64_lem (suc n) (a ∷ b ∷ c ∷ d ∷ i ∷ []) e h = absurd (omega arith)
reverse_bytes_64_lem (suc n) (a ∷ b ∷ c ∷ d ∷ i ∷ j ∷ []) e h = absurd (omega arith)
reverse_bytes_64_lem (suc n) (a ∷ b ∷ c ∷ d ∷ i ∷ j ∷ k ∷ []) e h = absurd (omega arith)
reverse_bytes_64_lem (suc n) (a ∷ b ∷ c ∷ d ∷ i ∷ j ∷ k ∷ l ∷ src) e
      (ha, (hb, (hc, (hd, (hi, (hj, (hk, (hl, hs)))))))) =
    let (first, second) =
      byte_swap64_words (word32 a b c d) (word32 i j k l) (word32 d c b a) (word32 l k j i)
        (word32_lt a b c d ha hb hc hd) (word32_lt i j k l hi hj hk hl)
        (word32_lt l k j i hl hk hj hi) (byte_swap32_lem a b c d ha hb hc hd)
        (byte_swap32_lem i j k l hi hj hk hl) in
    ap₂ store32 first (ap₂ store32 second (reverse_bytes_64_lem n src (omega arith) hs))
    ∙ store32-word32 l k j i _ hl hk hj hi
    ∙ ap (λ dest. l ∷ k ∷ j ∷ i ∷ dest) (store32-word32 d c b a _ hd hc hb ha)

-- On whole samples of bytes, whatever their size, reverse_bytes gives what the generic loop gives,
-- which puts the bytes of each sample in reverse order; for samples of 2, 4 and 8 bytes it swaps the
-- bytes of words.
pub reverse_bytes_lem :
    (frame_size : ℕ) (src : List ℕ)
    → 0 < frame_size
    → length src % frame_size ≡ 0
    → AllBytes src
    → reverse_bytes frame_size src ≡ reverse_bytes_generic frame_size src
unfolding reverse_bytes reverse_bytes_generic
reverse_bytes_lem n src pos whole h =
    let r = λ (bytes : List ℕ). bytes ≡ reverse_frames (length src / n) n src in
    let e = whole_frames (length src) n pos whole in
    if_cases r (n == 2)
      (λ two.
        reverse_bytes_16_lem (length src / 2) src (ground (arith, e)) h
        ∙ ap (λ k. reverse_frames (length src / k) k src) (ground arith))
      (λ _.
        if_cases r (n == 4)
          (λ four.
            reverse_bytes_32_lem (length src / 4) src (ground (arith, e)) h
            ∙ ap (λ k. reverse_frames (length src / k) k src) (ground arith))
          (λ _.
            if_cases r (n == 8)
              (λ eight.
                reverse_bytes_64_lem (length src / 8) src (ground (arith, e)) h
                ∙ ap (λ k. reverse_frames (length src / k) k src) (ground arith))
              (λ _. refl)))

length-reverse_bytes_16 :
    (n : ℕ) (src : List ℕ) → length src ≡ n * 2 → length (reverse_bytes_16 src) ≡ n * 2
unfolding reverse_bytes_16 store16
length-reverse_bytes_16 zero [] e = refl
length-reverse_bytes_16 zero (a ∷ src) e = absurd (omega arith)
length-reverse_bytes_16 (suc n) [] e = absurd (omega arith)
length-reverse_bytes_16 (suc n) (a ∷ []) e = absurd (omega arith)
length-reverse_bytes_16 (suc n) (a ∷ b ∷ src) e =
    omega (arith, length-reverse_bytes_16 n src (omega arith))

length-reverse_bytes_32 :
    (n : ℕ) (src : List ℕ) → length src ≡ n * 4 → length (reverse_bytes_32 src) ≡ n * 4
unfolding reverse_bytes_32 store32
length-reverse_bytes_32 zero [] e = refl
length-reverse_bytes_32 zero (a ∷ src) e = absurd (omega arith)
length-reverse_bytes_32 (suc n) [] e = absurd (omega arith)
length-reverse_bytes_32 (suc n) (a ∷ []) e = absurd (omega arith)
length-reverse_bytes_32 (suc n) (a ∷ b ∷ []) e = absurd (omega arith)
length-reverse_bytes_32 (suc n) (a ∷ b ∷ c ∷ []) e = absurd (omega arith)
length-reverse_bytes_32 (suc n) (a ∷ b ∷ c ∷ d ∷ src) e =
    omega (arith, length-reverse_bytes_32 n src (omega arith))

length-reverse_bytes_64 :
    (n : ℕ) (src : List ℕ) → length src ≡ n * 8 → length (reverse_bytes_64 src) ≡ n * 8
unfolding reverse_bytes_64 store32
length-reverse_bytes_64 zero [] e = refl
length-reverse_bytes_64 zero (a ∷ src) e = absurd (omega arith)
length-reverse_bytes_64 (suc n) [] e = absurd (omega arith)
length-reverse_bytes_64 (suc n) (a ∷ []) e = absurd (omega arith)
length-reverse_bytes_64 (suc n) (a ∷ b ∷ []) e = absurd (omega arith)
length-reverse_bytes_64 (suc n) (a ∷ b ∷ c ∷ []) e = absurd (omega arith)
length-reverse_bytes_64 (suc n) (a ∷ b ∷ c ∷ d ∷ []) e = absurd (omega arith)
length-reverse_bytes_64 (suc n) (a ∷ b ∷ c ∷ d ∷ i ∷ []) e = absurd (omega arith)
length-reverse_bytes_64 (suc n) (a ∷ b ∷ c ∷ d ∷ i ∷ j ∷ []) e = absurd (omega arith)
length-reverse_bytes_64 (suc n) (a ∷ b ∷ c ∷ d ∷ i ∷ j ∷ k ∷ []) e = absurd (omega arith)
length-reverse_bytes_64 (suc n) (a ∷ b ∷ c ∷ d ∷ i ∷ j ∷ k ∷ l ∷ src) e =
    omega (arith, length-reverse_bytes_64 n src (omega arith))

pub length-reverse_bytes :
    (frame_size : ℕ) (src : List ℕ)
    → 0 < frame_size
    → length src % frame_size ≡ 0
    → length (reverse_bytes frame_size src) ≡ length src
unfolding reverse_bytes
length-reverse_bytes n src pos whole =
    let r = λ (bytes : List ℕ). length bytes ≡ length src in
    let e = whole_frames (length src) n pos whole in
    if_cases r (n == 2)
      (λ two. length-reverse_bytes_16 (length src / 2) src (ground (arith, e)) ∙ ground (arith, e))
      (λ _.
        if_cases r (n == 4)
          (λ four.
            length-reverse_bytes_32 (length src / 4) src (ground (arith, e)) ∙ ground (arith, e))
          (λ _.
            if_cases r (n == 8)
              (λ eight.
                length-reverse_bytes_64 (length src / 8) src (ground (arith, e))
                ∙ ground (arith, e))
              (λ _. length-reverse_bytes_generic n src pos whole)))
