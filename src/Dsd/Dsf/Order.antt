-- ===== src/Dsd/Dsf/Order.antt =====
-- dsf_to_pcm_order and bit_reverse_buffer of decoder/DsfDecoderPlugin.cxx.
use mpd_dsd.Prelude.{ℕ, zero, suc, ◌+◌, ◌/◌}
use mpd_dsd.Prelude.Arrays.{Array, put}
use mpd_dsd.Pcm.BitReverse.{bit_reverse}

-- for (; i < nrbytes; i += 2) { scratch[i] = src[j]; j++; }
unfoldable pub spread : ℕ → ℕ → ℕ → Array ℕ → Array ℕ → Array ℕ
spread zero i j src scratch = scratch
spread (suc rounds) i j src scratch = spread rounds (i + 2) (j + 1) src (put scratch i (src j))

-- for (; i < nrbytes; i++) { *dest = scratch[i]; dest++; }
unfoldable pub copy_back : ℕ → ℕ → Array ℕ → Array ℕ → Array ℕ
copy_back zero i scratch dest = dest
copy_back (suc rounds) i scratch dest = copy_back rounds (i + 1) scratch (put dest i (scratch i))

-- dest and scratch; the rounds are those of i below nrbytes, from 0 and from 1.
unfoldable pub dsf_to_pcm_order : Array ℕ → Array ℕ → ℕ → Array ℕ × Array ℕ
dsf_to_pcm_order dest scratch nrbytes =
    let left = spread ((nrbytes + 1) / 2) 0 0 dest scratch in
    let both = spread (nrbytes / 2) 1 0 (λ j. dest (4096 + j)) left in
    (copy_back nrbytes 0 both dest, both)

-- for (; p < end; ++p) *p = bit_reverse(*p);
unfoldable pub bit_reverse_buffer : ℕ → ℕ → Array ℕ → Array ℕ
bit_reverse_buffer zero p buffer = buffer
bit_reverse_buffer (suc rounds) p buffer =
    bit_reverse_buffer rounds (p + 1) (put buffer p (bit_reverse (buffer p)))
