-- ===== src/Dsd/Dsf/Floats.antt =====
-- The conversions of an offset to float and back in dsf_decode_chunk (decoder/DsfDecoderPlugin.cxx).
use mpd_dsd.Prelude.{ℕ, zero, suc, ◌+◌, ◌*◌, ◌/◌, ◌%◌, ◌^◌, ◌&&◌, ◌||◌, ltb, ◌==◌, if◌then◌else◌}

-- How far apart two neighbours of a number are among the floats: they have 24 bits. A float holds any
-- number of 64 bits with a spacing of 2 ^ 40 at most.
unfoldable pub spacing : ℕ → ℕ → ℕ
spacing zero n = 1
spacing (suc doublings) n =
    let wider = spacing doublings (n / 2) in if ltb n (2 ^ 24) then 1 else 2 * wider

-- The nearest multiple, and the even one of two.
unfoldable pub to_nearest : ℕ → ℕ → ℕ
to_nearest s n =
    if ltb (2 * (n % s)) s || (2 * (n % s) == s && n / s % 2 == 0)
    then n / s * s
    else (n / s + 1) * s

-- (float) n
unfoldable pub float_of : ℕ → ℕ
float_of n = to_nearest (spacing 40 n) n

-- (unsigned) ((float) n / (float) size), for a size that is a power of two, by which a float is divided
-- without rounding.
unfoldable pub to_block : ℕ → ℕ → ℕ
to_block n size = float_of n / size
