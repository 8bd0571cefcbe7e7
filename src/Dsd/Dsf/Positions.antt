-- ===== src/Dsd/Dsf/Positions.antt =====
-- Offsets in the loop of dsf_decode_chunk (decoder/DsfDecoderPlugin.cxx), and its seeks.
use native.Mathlib.Nat.{div-mul-le_self}
use mpd_dsd.Prelude.{
  ℕ, zero, suc, ◌+◌, ◌-◌, ◌*◌, ◌/◌, ◌%◌, ◌^◌, ◌<◌, ◌≤◌, ◌≡◌, refl, sym, ap, ◌∙◌, arith, subst,
  Option, none, some, Bool, true, List, [], ◌∷◌, leb, ltb, ◌==◌, if◌then◌else◌, length, if_cases,
  Yields, Yields-map, Allows,
}
use mpd_dsd.Prelude.Arrays.{Array}
use mpd_dsd.Dsd.Stream.{bytes_at, InputStream, decoder_read_full}
use mpd_dsd.Dsd.Stream.Whole.{
  IsInput, HasRead, decoder_read_full-HasRead, EndsAt, dsdlib_skip-EndsAt,
}
use mpd_dsd.Dsd.Dsf.Floats.{to_block}
use mpd_dsd.Dsd.Dsf.Rounded.{to_block_within}
use mpd_dsd.Dsd.Dsf.Decode.{
  DecoderCommand, DsfBlocks, DsfSong, now_size, send_block, even_block, seek_offset, sought_size,
  seek_song_to, on_command, on_block, skip_left, dsf_decode_loop,
}

now_size_le : (channels chunk_size : ℕ) → now_size channels chunk_size ≤ chunk_size
unfolding now_size
now_size_le channels chunk_size =
    if_cases (λ n. n ≤ chunk_size) (ltb chunk_size (8192 / channels * channels))
      (λ e. let d = div-mul-le_self (chunk_size % 2 ^ 32) channels in omega (arith, d))
      (λ e. ground (arith, e))

pub now_size_positive : (chunk_size : ℕ) → 2 ≤ chunk_size → 0 < now_size 2 chunk_size
unfolding now_size
now_size_positive chunk_size l =
    if_cases (λ n. 0 < n) (ltb chunk_size (8192 / 2 * 2)) (λ e. ground (arith, e, l))
      (λ e. omega arith)

-- A song as dsf_read_metadata describes it, within offsets of 32 bits.
pub record IsSong (song : DsfSong) : Type 0 where
  pub stereo : song.channels ≡ 2
  pub blocks : song.block_size ≡ 4096
  pub forward : song.start_offset ≤ song.end_offset
  pub short : song.end_offset < 2 ^ 32

-- The data does not end within the last 128 bytes of a block.
abbrev pub IsApart : DsfSong → Type 0
IsApart song = (song.end_offset - song.start_offset) % 4096 < 4096 - 128

-- Within the data, a pair of blocks begins there.
pub record IsSought (song : DsfSong) (offset : ℕ) : Type 0 where
  pub from_start : song.start_offset ≤ offset
  pub to_end : offset ≤ song.end_offset
  pub begins : (offset - song.start_offset) % (2 * 4096) ≡ 0

pair_below :
    (t n : ℕ) → t * 4096 ≤ n → (even_block t * 4096 ≤ n) × (even_block t * 4096 % (2 * 4096) ≡ 0)
pair_below t n l =
    if_cases (λ e. (e * 4096 ≤ n) × (e * 4096 % (2 * 4096) ≡ 0)) (t % 2 == 1)
      (λ e. (omega (arith, l), ground (arith, e))) (λ e. (l, ground (arith, e)))

-- Where a seek goes to
pub seek_offset-IsSought :
    (song : DsfSong) (target : ℕ)
    → IsSong song
    → IsApart song
    → target < 2 ^ 32
    → IsSought song (seek_offset song target)
unfolding seek_offset
seek_offset-IsSought song target h a l =
    if_cases (IsSought song) (ltb song.start_offset to_end)
      (λ e.
        subst
          (λ k.
            IsSought song (
              even_block (to_block (to_end - song.start_offset) k) * k % 2 ^ 32
              + song.start_offset))
          (sym h.blocks) found)
      (λ e.
        let c = clamped in
        record { from_start = c.0; to_end = c.1; begins = ground (arith, e, c.0) })
  where
    from_start : ℕ
    from_start = if ltb target song.start_offset then song.start_offset else target

    to_end : ℕ
    to_end = if ltb song.end_offset (from_start % 2 ^ 32) then song.end_offset else from_start

    clamped : (song.start_offset ≤ to_end) × (to_end ≤ song.end_offset)
    clamped =
        let f = h.forward in let s = h.short in (ground (arith, f, s, l), ground (arith, f, s, l))

    found : IsSought song (
        even_block (to_block (to_end - song.start_offset) 4096) * 4096 % 2 ^ 32 + song.start_offset)
    found =
        let p =
          pair_below (to_block (to_end - song.start_offset) 4096)
            (song.end_offset - song.start_offset)
            (let c = clamped in
              let s = h.short in
              to_block_within (song.end_offset - song.start_offset) (to_end - song.start_offset)
                (omega (arith, c.0, c.1)) (omega (arith, s)) a) in
        let c = clamped in
        let s = h.short in
        record {
          from_start = omega arith;
          to_end = omega (arith, p.0, c.0, c.1, s);
          begins = omega (arith, p.0, p.1, c.1, s);
        }

sought_size_lem :
    (offset curpos chunk_size end : ℕ)
    → chunk_size + curpos ≡ end
    → offset ≤ end
    → end < 2 ^ 32
    → sought_size offset curpos chunk_size + offset ≡ end
unfolding sought_size
sought_size_lem offset curpos chunk_size end e l s =
    if_cases (λ k. k + offset ≡ end) (ltb offset curpos) (λ b. ground (arith, b, e))
      (λ b.
        if_cases (λ k. k + offset ≡ end) (ltb curpos offset) (λ c. ground (arith, b, c, e, l, s))
          (λ c. ground (arith, b, c, e)))

pub length-bytes_at : (file : Array ℕ) (i n : ℕ) → length (bytes_at file i n) ≡ n
length-bytes_at file i zero = refl
length-bytes_at file i (suc n) = ap suc (length-bytes_at file (suc i) n)

-- No seek goes beyond 32 bits.
abbrev pub HasTargets : List (DecoderCommand × ℕ) → Type 0
HasTargets [] = Unit
HasTargets (a ∷ answers) = (a.1 < 2 ^ 32) × HasTargets answers

allowed : {A : Type 0} (Q : A → Type 0) (o : Option A) → Yields Q o → Allows Q o
allowed Q none h = absurd h
allowed Q (some a) h = h

module _ {S : Type 0} (is : InputStream S) (file : Array ℕ) (h : IsInput file is) (song : DsfSong)
    (g : IsSong song) where
  -- What is left to read ends where the data ends.
  abbrev pub IsAtRest : DsfBlocks → S → Type 0
  IsAtRest b s = b.chunk_size + is.get_offset s ≡ song.end_offset

  -- Seeks succeed, and the data does not end shortly before a block.
  abbrev pub CanSeek : Type 0
  CanSeek = IsApart song × ((n : ℕ) (s : S) → (is.seek n s).1 ≡ true)

  pub skip_left-EndsAt :
      (b : DsfBlocks) (s : S)
      → IsAtRest b s
      → Yields (EndsAt is file h song.end_offset) (skip_left is song b s)
  skip_left-EndsAt b s r =
      Yields-map (EndsAt is file h (is.get_offset s + b.chunk_size))
        (EndsAt is file h song.end_offset) (skip_left is song b s)
        (dsdlib_skip-EndsAt is file h b.chunk_size b.chunk_size s (omega arith))
        (λ q k w. let e = k w in omega (arith, e, r))

  pub send_block-IsAtRest :
      (b : DsfBlocks) (s t : S) (bytes : List ℕ)
      → IsAtRest b s
      → HasRead is file h (now_size song.channels b.chunk_size) s (t, some bytes)
      → IsAtRest (send_block song.bitreverse bytes b) t
  unfolding send_block
  send_block-IsAtRest b s t bytes r (e, m) =
      let n = now_size song.channels b.chunk_size in
      let l : length bytes ≡ n = ap length e ∙ length-bytes_at file (is.get_offset s) n in
      let w = now_size_le song.channels b.chunk_size in omega (arith, l, w, r, m)

  seek-IsAtRest :
      (target : ℕ) (b : DsfBlocks) (s : S)
      → CanSeek
      → target < 2 ^ 32
      → IsAtRest b s
      → IsAtRest (seek_song_to is song target b s).0 (seek_song_to is song target b s).1
  seek-IsAtRest target b s w l r =
      let o = seek_offset song target in
      let k = seek_offset-IsSought song target g w.0 l in
      let e = h.seek_moves o s (w.1 o s) in
      let z = sought_size_lem o (is.get_offset s) b.chunk_size song.end_offset r k.to_end g.short in
      omega (arith, e, z)

  on_command-EndsAt :
      (again : DsfBlocks → S → Option (S × Bool)) (c : DecoderCommand) (target : ℕ) (b : DsfBlocks)
      (s : S)
      → CanSeek
      → target < 2 ^ 32
      → IsAtRest b s
      → ((b : DsfBlocks) (s : S)
          → IsAtRest b s
          → Allows (EndsAt is file h song.end_offset) (again b s))
      → Allows (EndsAt is file h song.end_offset) (on_command is song again c target b s)
  on_command-EndsAt again DecoderCommand.no_command target b s w l r ih = ih b s r
  on_command-EndsAt again DecoderCommand.start target b s w l r ih = λ k. absurd (cc)
  on_command-EndsAt again DecoderCommand.stop target b s w l r ih = λ k. absurd (cc)
  on_command-EndsAt again DecoderCommand.seek target b s w l r ih =
      ih (seek_song_to is song target b s).0 (seek_song_to is song target b s).1
        (seek-IsAtRest target b s w l r)

  on_block-EndsAt :
      (again : DsfBlocks → S → Option (S × Bool)) (a : DecoderCommand × ℕ) (b : DsfBlocks) (s : S)
      (o : Option (S × Option (List ℕ)))
      → CanSeek
      → a.1 < 2 ^ 32
      → IsAtRest b s
      → Yields (HasRead is file h (now_size song.channels b.chunk_size) s) o
      → ((b : DsfBlocks) (s : S)
          → IsAtRest b s
          → Allows (EndsAt is file h song.end_offset) (again b s))
      → Allows (EndsAt is file h song.end_offset) (on_block is song again a b o)
  on_block-EndsAt again a b s none w l r k ih = tt
  on_block-EndsAt again a b s (some (t, none)) w l r k ih = λ z. absurd (cc)
  on_block-EndsAt again a b s (some (t, some bytes)) w l r k ih =
      on_command-EndsAt again a.0 a.1 (send_block song.bitreverse bytes b) t w l
        (send_block-IsAtRest b s t bytes r k) ih

  -- From a state in which what is left to read ends where the data ends, the loop of
  -- dsf_decode_chunk, if it succeeds, leaves the stream exactly where the data ends, whatever
  -- commands and seeks come, as long as no seek fails, the targets and the data are within 32 bits
  -- and the data does not end within the last 128 bytes of a block, where the floating point number
  -- of an offset may be rounded up to the next block.
  pub dsf_decode_loop-EndsAt :
      (answers : List (DecoderCommand × ℕ)) (b : DsfBlocks) (s : S)
      → CanSeek
      → HasTargets answers
      → IsAtRest b s
      → Allows (EndsAt is file h song.end_offset) (dsf_decode_loop is song answers b s)
  unfolding dsf_decode_loop
  dsf_decode_loop-EndsAt [] b s w ts r =
      if_cases (Allows (EndsAt is file h song.end_offset)) (leb song.channels b.chunk_size)
        (λ e. tt)
        (λ e.
          allowed (EndsAt is file h song.end_offset) (skip_left is song b s)
            (skip_left-EndsAt b s r))
  dsf_decode_loop-EndsAt (a ∷ answers) b s w ts r =
      let n = now_size song.channels b.chunk_size in
      if_cases (Allows (EndsAt is file h song.end_offset)) (leb song.channels b.chunk_size)
        (λ e.
          on_block-EndsAt (dsf_decode_loop is song answers) a b s (decoder_read_full is n n s) w
            ts.0 r (decoder_read_full-HasRead is file h n n s (omega arith))
            (λ b s r. dsf_decode_loop-EndsAt answers b s w ts.1 r))
        (λ e.
          allowed (EndsAt is file h song.end_offset) (skip_left is song b s)
            (skip_left-EndsAt b s r))
