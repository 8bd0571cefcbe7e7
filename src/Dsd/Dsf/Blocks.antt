-- ===== src/Dsd/Dsf/Blocks.antt =====
-- What is sent of the bytes that are read.
use mpd_dsd.Prelude.{
  ℕ, zero, suc, ◌+◌, ◌*◌, ◌<◌, ◌≤◌, ◌≡◌, refl, sym, ap, ◌∙◌, arith, Bool, true, false, ◌&&◌, List,
  [], ◌∷◌, ltb, if◌then◌else◌, length, if_cases,
}
use mpd_dsd.Prelude.Arrays.{Array, put}
use mpd_dsd.Pcm.BitReverse.{bit_reverse}
use mpd_dsd.Dsd.Dsf.Ordered.{
  pcm_source, put_same, put_other, bit_reverse_buffer_lem, dsf_to_pcm_order_lem,
}
use mpd_dsd.Dsd.Dsf.Decode.{DsfBlocks, fill, reversed, send_block}

-- The byte at an index of a list, and another one behind its end.
abbrev pub byte_or : ℕ → List ℕ → ℕ → ℕ
byte_or other [] i = other
byte_or other (b ∷ bs) zero = b
byte_or other (b ∷ bs) (suc i) = byte_or other bs i

fill_before : (bs : List ℕ) (i : ℕ) (a : Array ℕ) (k : ℕ) → k < i → fill bs i a k ≡ a k
fill_before [] i a k l = refl
fill_before (b ∷ bs) i a k l =
    fill_before bs (i + 1) (put a i b) k (omega arith) ∙ put_other a i b k (omega arith)

fill_at :
    (bs : List ℕ) (i : ℕ) (a : Array ℕ) (m : ℕ) → fill bs i a (i + m) ≡ byte_or (a (i + m)) bs m
fill_at [] i a m = refl
fill_at (b ∷ bs) i a zero =
    let z : i + 0 ≡ i = omega arith in
    ap (fill bs (i + 1) (put a i b)) z
    ∙ fill_before bs (i + 1) (put a i b) i (omega arith)
    ∙ put_same a i b
fill_at (b ∷ bs) i a (suc m) =
    let z : i + suc m ≡ i + 1 + m = omega arith in
    let y : i + 1 + m ≡ i + suc m = omega arith in
    ap (fill bs (i + 1) (put a i b)) z
    ∙ fill_at bs (i + 1) (put a i b) m
    ∙ ap (λ v. byte_or v bs m) (put_other a i b (i + 1 + m) (omega arith) ∙ ap a y)

-- The byte that comes from a place in the buffer: one that was read, or what the buffer held.
abbrev pub byte_read : Bool → List ℕ → Array ℕ → ℕ → ℕ
byte_read bitreverse bytes old j =
    if bitreverse && ltb j (length bytes)
    then bit_reverse (byte_or (old j) bytes j)
    else byte_or (old j) bytes j

filled : (bytes : List ℕ) (old : Array ℕ) (j : ℕ) → fill bytes 0 old j ≡ byte_or (old j) bytes j
filled bytes old j =
    let z : j ≡ 0 + j = omega arith in
    ap (fill bytes 0 old) z ∙ fill_at bytes 0 old j ∙ ap (λ k. byte_or (old k) bytes j) (sym z)

reversed_at :
    (bitreverse : Bool) (bytes : List ℕ) (old : Array ℕ) (j : ℕ)
    → reversed bitreverse (length bytes) (fill bytes 0 old) j ≡ byte_read bitreverse bytes old j
reversed_at false bytes old j = filled bytes old j
reversed_at true bytes old j =
    bit_reverse_buffer_lem (length bytes) (fill bytes 0 old) j
    ∙ ap (λ v. if ltb j (length bytes) then bit_reverse v else v) (filled bytes old j)

-- Byte i of what is sent of a block is byte i / 2 of the left channel for an even i and byte 4096 +
-- i / 2 for an odd one, reversed in its bits where the file asks for it and the byte was read, or
-- what the buffer held there where the block is shorter.
pub send_block_lem :
    (bitreverse : Bool) (bytes : List ℕ) (b : DsfBlocks) (i : ℕ)
    → i < length bytes
    → (send_block bitreverse bytes b).buffer i ≡ byte_read bitreverse bytes b.buffer (pcm_source i)
unfolding send_block
send_block_lem bitreverse bytes b i l =
    let inside : ltb i (length bytes) ≡ true = ground (arith, l) in
    let r = reversed bitreverse (length bytes) (fill bytes 0 b.buffer) in
    dsf_to_pcm_order_lem r b.scratch (length bytes) i
    ∙ ap (λ t. if t then r (pcm_source i) else r i) inside
    ∙ reversed_at bitreverse bytes b.buffer (pcm_source i)

byte_or-behind : (other : ℕ) (bs : List ℕ) (i : ℕ) → length bs ≤ i → byte_or other bs i ≡ other
byte_or-behind other [] i l = refl
byte_or-behind other (b ∷ bs) zero l = absurd (omega arith)
byte_or-behind other (b ∷ bs) (suc i) l = byte_or-behind other bs i (omega arith)

-- Of a last block of no more than 4096 bytes, every byte that is sent for the right channel is what
-- the buffer held before it was read.
pub short_block_right :
    (bitreverse : Bool) (bytes : List ℕ) (b : DsfBlocks) (k : ℕ)
    → length bytes ≤ 4096
    → 2 * k + 1 < length bytes
    → (send_block bitreverse bytes b).buffer (2 * k + 1) ≡ b.buffer (4096 + k)
short_block_right bitreverse bytes b k s l =
    let right : pcm_source (2 * k + 1) ≡ 4096 + k = ground arith in
    let behind : ltb (4096 + k) (length bytes) ≡ false = ground (arith, s) in
    send_block_lem bitreverse bytes b (2 * k + 1) l
    ∙ ap (byte_read bitreverse bytes b.buffer) right
    ∙ never bitreverse (ltb (4096 + k) (length bytes)) behind
    ∙ byte_or-behind (b.buffer (4096 + k)) bytes (4096 + k) (omega arith)
  where
    old : ℕ
    old = byte_or (b.buffer (4096 + k)) bytes (4096 + k)

    never : (r t : Bool) → t ≡ false → (if r && t then bit_reverse old else old) ≡ old
    never r t e = if_cases (λ v. v ≡ old) (r && t) (λ h. absurd (ground (arith, h, e))) (λ h. refl)
