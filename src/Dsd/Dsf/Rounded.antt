-- ===== src/Dsd/Dsf/Rounded.antt =====
-- The float of an offset of 32 bits (decoder/DsfDecoderPlugin.cxx), and the number of its block.
use native.Mathlib.Nat.{div-add-mod'}
use mpd_dsd.Prelude.{
  ℕ, zero, suc, ◌+◌, ◌-◌, ◌*◌, ◌/◌, ◌%◌, ◌^◌, ◌<◌, ◌≤◌, ◌≡◌, arith, ◌&&◌, ◌||◌, ltb, ◌==◌, if_cases,
  Bool, false,
}
use mpd_dsd.Dsd.Dsf.Floats.{spacing, to_nearest, float_of, to_block}

abbrev power : ℕ → ℕ
power zero = 1
power (suc k) = 2 * power k

power_pos : (k : ℕ) → 1 ≤ power k
power_pos zero = omega arith
power_pos (suc k) = let p = power_pos k in omega arith

spacing_le : (f k n : ℕ) → n < 2 ^ 24 * power k → spacing f n ≤ power k
unfolding spacing
spacing_le zero k n l = power_pos k
spacing_le (suc f) zero n l =
    if_cases (λ s. s ≤ 1) (ltb n (2 ^ 24)) (λ e. omega arith) (λ e. absurd (ground (arith, e, l)))
spacing_le (suc f) (suc k) n l =
    if_cases (λ s. s ≤ 2 * power k) (ltb n (2 ^ 24)) (λ e. let p = power_pos k in omega arith)
      (λ e. let s = spacing_le f k (n / 2) (omega arith) in omega arith)

spacing_pos : (f n : ℕ) → 0 < spacing f n
unfolding spacing
spacing_pos zero n = omega arith
spacing_pos (suc f) n =
    if_cases (λ s. 0 < s) (ltb n (2 ^ 24)) (λ e. omega arith)
      (λ e. let p = spacing_pos f (n / 2) in omega arith)

far_remainder : (r s : ℕ) (even : Bool) → ltb (2 * r) s || (2 * r == s && even) ≡ false → s ≤ 2 * r
far_remainder r s even t = ground (arith, t)

to_nearest_le : (s n : ℕ) → 0 < s → s ≤ 256 → to_nearest s n ≤ n + 128
unfolding to_nearest
to_nearest_le s n pos l =
    let e = div-add-mod' n s in
    let next : (n / s + 1) * s ≡ n / s * s + s = grind arith in
    if_cases (λ m. m ≤ n + 128) (ltb (2 * (n % s)) s || (2 * (n % s) == s && n / s % 2 == 0))
      (λ t. omega (arith, e))
      (λ t. let far = far_remainder (n % s) s (n / s % 2 == 0) t in omega (arith, e, next, far, l))

-- A float is not far above the number.
float_of_le : (n : ℕ) → n < 2 ^ 32 → float_of n ≤ n + 128
unfolding float_of
float_of_le n l =
    to_nearest_le (spacing 40 n) n (spacing_pos 40 n) (spacing_le 40 8 n (omega arith))

-- Within data that does not end shortly before a block
pub to_block_within :
    (size n : ℕ)
    → n ≤ size
    → size < 2 ^ 32
    → size % 4096 < 4096 - 128
    → to_block n 4096 * 4096 ≤ size
unfolding to_block
to_block_within size n l s a = let f = float_of_le n (omega arith) in omega (arith, f, l, a)
