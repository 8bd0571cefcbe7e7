-- ===== src/Pcm/Reverse.antt =====
-- util/ByteReverse.cxx: the generic loop, which puts the bytes of each sample in reverse order.
use mpd_dsd.Prelude.{
  ℕ, zero, suc, ◌*◌, ◌/◌, ◌%◌, ◌<◌, ◌≡◌, refl, sym, ◌∙◌, ap, ap₂, arith, List, [], ◌∷◌, ◌++◌,
  length, take, drop, length-take, length-drop, length-append, take-append-drop,
}
use mathlib.Core.List.{reverse, reverse-reverse, reverse-cons}

-- reverse_bytes_linear: `src += n; while (n-- > 0) *dest++ = *--src`
abbrev pub reverse_bytes_linear : List ℕ → List ℕ
reverse_bytes_linear = reverse

-- The loop of reverse_bytes_generic, a frame a round.
unfoldable pub reverse_frames : ℕ → ℕ → List ℕ → List ℕ
reverse_frames zero frame_size src = []
reverse_frames (suc frames) frame_size src =
    reverse_bytes_linear (take frame_size src)
    ++ reverse_frames frames frame_size (drop frame_size src)

unfoldable pub reverse_bytes_generic : ℕ → List ℕ → List ℕ
unfolding reverse_frames
reverse_bytes_generic frame_size src = reverse_frames (length src / frame_size) frame_size src

length-reverse : (xs : List ℕ) → length (reverse xs) ≡ length xs
length-reverse [] = refl
length-reverse (x ∷ xs) =
    ap length (reverse-cons x xs)
    ∙ omega (arith, length-append (reverse xs) (x ∷ []), length-reverse xs)

length-reverse_frames :
    (frames n : ℕ) (src : List ℕ)
    → length src ≡ frames * n
    → length (reverse_frames frames n src) ≡ frames * n
unfolding reverse_frames
length-reverse_frames zero n src e = omega arith
length-reverse_frames (suc frames) n src e = omega (
  arith,
  length-append (reverse (take n src)) (reverse_frames frames n (drop n src)),
  length-reverse (take n src),
  length-take n src,
  length-reverse_frames frames n (drop n src) (omega (arith, length-drop n src)),
)

take-append : (n : ℕ) (xs ys : List ℕ) → length xs ≡ n → take n (xs ++ ys) ≡ xs
take-append zero [] ys e = refl
take-append zero (x ∷ xs) ys e = absurd (omega arith)
take-append (suc n) [] ys e = absurd (omega arith)
take-append (suc n) (x ∷ xs) ys e = ap (◌∷◌ x) (take-append n xs ys (omega arith))

drop-append : (n : ℕ) (xs ys : List ℕ) → length xs ≡ n → drop n (xs ++ ys) ≡ ys
drop-append zero [] ys e = refl
drop-append zero (x ∷ xs) ys e = absurd (omega arith)
drop-append (suc n) [] ys e = absurd (omega arith)
drop-append (suc n) (x ∷ xs) ys e = drop-append n xs ys (omega arith)

reverse_frames_twice :
    (frames n : ℕ) (src : List ℕ)
    → length src ≡ frames * n
    → reverse_frames frames n (reverse_frames frames n src) ≡ src
unfolding reverse_frames
reverse_frames_twice zero n [] e = refl
reverse_frames_twice zero n (x ∷ src) e = absurd (omega arith)
reverse_frames_twice (suc frames) n src e =
    let rest = reverse_frames frames n (drop n src) in
    let front : length (reverse (take n src)) ≡ n =
      omega (arith, length-reverse (take n src), length-take n src) in
    ap₂ ◌++◌
      (ap reverse (take-append n (reverse (take n src)) rest front) ∙ reverse-reverse (take n src))
      (ap (reverse_frames frames n) (drop-append n (reverse (take n src)) rest front)
        ∙ reverse_frames_twice frames n (drop n src) (omega (arith, length-drop n src)))
    ∙ take-append-drop n src

pub whole_frames : (k n : ℕ) → 0 < n → k % n ≡ 0 → k ≡ k / n * n
whole_frames k n pos h = grind arith

pub length-reverse_bytes_generic :
    (frame_size : ℕ) (src : List ℕ)
    → 0 < frame_size
    → length src % frame_size ≡ 0
    → length (reverse_bytes_generic frame_size src) ≡ length src
unfolding reverse_bytes_generic
length-reverse_bytes_generic n src pos whole =
    let e = whole_frames (length src) n pos whole in
    length-reverse_frames (length src / n) n src e ∙ sym e

-- Reversing the bytes of each sample twice gives the samples back, whatever their size.
pub reverse_bytes_generic_twice :
    (frame_size : ℕ) (src : List ℕ)
    → 0 < frame_size
    → length src % frame_size ≡ 0
    → reverse_bytes_generic frame_size (reverse_bytes_generic frame_size src) ≡ src
unfolding reverse_bytes_generic
reverse_bytes_generic_twice n src pos whole =
    let e = whole_frames (length src) n pos whole in
    ap (λ k. reverse_frames (k / n) n (reverse_bytes_generic n src))
      (length-reverse_bytes_generic n src pos whole)
    ∙ reverse_frames_twice (length src / n) n src e
