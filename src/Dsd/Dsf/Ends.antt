-- ===== src/Dsd/Dsf/Ends.antt =====
-- The rounds of dsf_decode_chunk (decoder/DsfDecoderPlugin.cxx) when the listener does not seek.
use mpd_dsd.Prelude.{
  ℕ, suc, ◌+◌, ◌<◌, ◌≤◌, ◌≡◌, ◌≢◌, refl, sym, ap, ◌∙◌, arith, subst, Option, none, some, Bool, true,
  List, [], ◌∷◌, leb, length, if_cases, Yields,
}
use mpd_dsd.Prelude.Arrays.{Array}
use mpd_dsd.Dsd.Stream.{InputStream, decoder_read_full}
use mpd_dsd.Dsd.Stream.Whole.{IsInput, HasRead, decoder_read_full-HasRead, EndsAt}
use mpd_dsd.Dsd.Dsf.Decode.{
  DecoderCommand, DsfBlocks, DsfSong, now_size, send_block, on_command, on_block, dsf_decode_loop,
}
use mpd_dsd.Dsd.Dsf.Positions.{
  IsSong, IsAtRest, now_size_positive, length-bytes_at, skip_left-EndsAt, send_block-IsAtRest,
}

-- No seek is answered.
abbrev pub HasNoSeek : List (DecoderCommand × ℕ) → Type 0
HasNoSeek [] = Unit
HasNoSeek (a ∷ answers) = (a.0 ≢ DecoderCommand.seek) × HasNoSeek answers

module _ {S : Type 0} (is : InputStream S) (file : Array ℕ) (h : IsInput file is) (song : DsfSong)
    (g : IsSong song) where
  abbrev Ends : Option (S × Bool) → Type 0
  Ends o = Yields (EndsAt is file h song.end_offset) o

  -- So many rounds are left at most.
  abbrev IsLeft : ℕ → DsfBlocks → S → Type 0
  IsLeft n b s = (b.chunk_size ≤ n) × IsAtRest is file h song g b s

  send_block-IsLeft :
      (n : ℕ) (b : DsfBlocks) (s t : S) (bytes : List ℕ)
      → leb song.channels b.chunk_size ≡ true
      → IsLeft (suc n) b s
      → HasRead is file h (now_size song.channels b.chunk_size) s (t, some bytes)
      → IsLeft n (send_block song.bitreverse bytes b) t
  unfolding send_block
  send_block-IsLeft n b s t bytes e r k =
      let m = now_size song.channels b.chunk_size in
      let l : length bytes ≡ m = ap length k.0 ∙ length-bytes_at file (is.get_offset s) m in
      let two = g.stereo in
      let p : 0 < m =
        subst (λ c. 0 < now_size c b.chunk_size) (sym g.stereo)
          (now_size_positive b.chunk_size (ground (arith, e, two))) in
      (omega (arith, l, p, r.0), send_block-IsAtRest is file h song g b s t bytes r.1 k)

  on_command-Ends :
      (n : ℕ) (again : DsfBlocks → S → Option (S × Bool)) (c : DecoderCommand) (target : ℕ)
      (b : DsfBlocks) (s : S)
      → c ≢ DecoderCommand.seek
      → IsLeft n b s
      → ((b : DsfBlocks) (s : S) → IsLeft n b s → Ends (again b s))
      → Ends (on_command is song again c target b s)
  on_command-Ends n again DecoderCommand.no_command target b s w r ih = ih b s r
  on_command-Ends n again DecoderCommand.start target b s w r ih = λ k. absurd (cc)
  on_command-Ends n again DecoderCommand.stop target b s w r ih = λ k. absurd (cc)
  on_command-Ends n again DecoderCommand.seek target b s w r ih = absurd (w refl)

  on_block-Ends :
      (n : ℕ) (again : DsfBlocks → S → Option (S × Bool)) (a : DecoderCommand × ℕ) (b : DsfBlocks)
      (s : S) (o : Option (S × Option (List ℕ)))
      → a.0 ≢ DecoderCommand.seek
      → leb song.channels b.chunk_size ≡ true
      → IsLeft (suc n) b s
      → Yields (HasRead is file h (now_size song.channels b.chunk_size) s) o
      → ((b : DsfBlocks) (s : S) → IsLeft n b s → Ends (again b s))
      → Ends (on_block is song again a b o)
  on_block-Ends n again a b s none w e r k ih = k
  on_block-Ends n again a b s (some (t, none)) w e r k ih = λ z. absurd (cc)
  on_block-Ends n again a b s (some (t, some bytes)) w e r k ih =
      on_command-Ends n again a.0 a.1 (send_block song.bitreverse bytes b) t w
        (send_block-IsLeft n b s t bytes e r k) ih

  -- The loop without seeks
  pub dsf_decode_loop_ends :
      (answers : List (DecoderCommand × ℕ)) (b : DsfBlocks) (s : S)
      → HasNoSeek answers
      → b.chunk_size ≤ length answers
      → b.chunk_size + is.get_offset s ≡ song.end_offset
      → Yields (EndsAt is file h song.end_offset) (dsf_decode_loop is song answers b s)
  unfolding dsf_decode_loop
  dsf_decode_loop_ends [] b s w l r =
      if_cases Ends (leb song.channels b.chunk_size)
        (λ e. let two = g.stereo in absurd (ground (arith, e, two, l)))
        (λ e. skip_left-EndsAt is file h song g b s r)
  dsf_decode_loop_ends (a ∷ answers) b s w l r =
      let n = now_size song.channels b.chunk_size in
      if_cases Ends (leb song.channels b.chunk_size)
        (λ e.
          on_block-Ends (length answers) (dsf_decode_loop is song answers) a b s
            (decoder_read_full is n n s) w.0 e (omega arith, r)
            (decoder_read_full-HasRead is file h n n s (omega arith))
            (λ b s r. dsf_decode_loop_ends answers b s w.1 r.0 r.1))
        (λ e. skip_left-EndsAt is file h song g b s r)
