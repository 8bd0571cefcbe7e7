-- ===== src/Dsd/Dsdiff/Props.antt =====
-- The chunks of the properties of a DSDIFF file, where no size is negative.
use mpd_dsd.Prelude.{
  ap, ◌&&◌, ℕ, zero, suc, ◌+◌, ◌%◌, ◌^◌, ◌<◌, ◌≡◌, refl, sym, arith, subst, Option, none, some,
  Bool, true, false, List, leb, ltb, ◌==◌, if_cases, Yields, if◌then◌else◌,
}
use mpd_dsd.Prelude.Arrays.{Array}
use mpd_dsd.Dsd.Stream.{bytes_at, InputStream, decoder_read_full, dsdlib_skip_to}
use mpd_dsd.Dsd.Stream.Whole.{
  IsInput, HasRead, decoder_read_full-HasRead, EndsAt, dsdlib_skip_to-EndsAt,
}
use mpd_dsd.Dsd.Dsf.{equals_id, dsd_id}
use mpd_dsd.Dsd.Dsdiff.{
  read_be, DsdiffChunkHeader, dsdiff_chunk_header, DsdiffMetaData, fs_id, chnl_id, cmpr_id,
  chunk_end_offset, Found, on_bytes, on_skip, skip_chunk, ends_behind, prop_chunk,
  dsdiff_read_prop_snd,
}

-- The size in the header of a chunk at an offset of the file.
abbrev pub size_at : Array ℕ → ℕ → ℕ
size_at file i = (dsdiff_chunk_header (bytes_at file i 12)).size

-- The chunks from an offset on, each of which begins where the one before ends, have sizes that a
-- signed number holds, up to the end of the properties.
abbrev pub has_sizes : ℕ → Array ℕ → ℕ → ℕ → Bool
has_sizes zero file i end = true
has_sizes (suc chunks) file i end =
    if leb (i + 12) end
    then ltb (size_at file i) (2 ^ 63) && has_sizes chunks file (i + 12 + size_at file i) end
    else true

-- This end, if there is one.
abbrev EndsAs : ℕ → Option ℕ → Type 0
EndsAs end none = Unit
EndsAs end (some e) = e ≡ end

chunk_end_forward :
    (offset size : ℕ)
    → offset < 2 ^ 63
    → size < 2 ^ 63
    → EndsAs (offset + size) (chunk_end_offset offset size)
unfolding chunk_end_offset
chunk_end_forward offset size l k =
    if_cases (EndsAs (offset + size)) (ltb ((offset + size) % 2 ^ 64) (2 ^ 63))
      (λ e. omega (arith, l, k)) (λ e. tt)

module _ {S : Type 0} (is : InputStream S) (file : Array ℕ) (h : IsInput file is) (end : ℕ) where
  -- The properties are refused, or end where they should.
  abbrev pub HasProps : S × Option DsdiffMetaData → Type 0
  HasProps (t, none) = Unit
  HasProps (t, some m) = is.get_offset t ≡ end

  abbrev Ends : Found S → Type 0
  Ends o = Yields HasProps o

  on_bytes-Ends :
      (n : ℕ) (s : S) (k : List ℕ → S → Found S) (o : Option (S × Option (List ℕ)))
      → Yields (HasRead is file h n s) o
      → ((bytes : List ℕ) (t : S) → HasRead is file h n s (t, some bytes) → Ends (k bytes t))
      → Ends (on_bytes is k o)
  on_bytes-Ends n s k none r f = r
  on_bytes-Ends n s k (some (t, none)) r f = tt
  on_bytes-Ends n s k (some (t, some bytes)) r f = f bytes t r

  on_skip-Ends :
      (from offset : ℕ) (k : S → Found S) (o : Option (S × Bool))
      → offset ≡ from
      → Yields (EndsAt is file h offset) o
      → ((t : S) → is.get_offset t ≡ from → Ends (k t))
      → Ends (on_skip is k o)
  on_skip-Ends from offset k none l e f = e
  on_skip-Ends from offset k (some (t, false)) l e f = tt
  on_skip-Ends from offset k (some (t, true)) l e f = let w = e refl in f t (omega (arith, w, l))

  skip_chunk-Ends :
      (from : ℕ) (k : S → Found S) (o : Option ℕ) (s : S)
      → EndsAs from o
      → ((t : S) → is.get_offset t ≡ from → Ends (k t))
      → Ends (skip_chunk is k o s)
  skip_chunk-Ends from k none s l f = tt
  skip_chunk-Ends from k (some offset) s l f =
      on_skip-Ends from offset k (dsdlib_skip_to is offset offset s) l
        (dsdlib_skip_to-EndsAt is file h offset offset s (omega arith)) f

  -- What the rest of the chunks is read with, at an offset.
  abbrev EndsBehind : ℕ → (DsdiffMetaData → S → Found S) → Type 0
  EndsBehind from again = (m : DsdiffMetaData) (t : S) → is.get_offset t ≡ from → Ends (again m t)

  prop_chunk-Ends :
      (again : DsdiffMetaData → S → Found S) (m : DsdiffMetaData) (c : DsdiffChunkHeader) (s : S)
      → c.size < 2 ^ 63
      → is.get_offset s < 2 ^ 63
      → EndsBehind (is.get_offset s + c.size) again
      → Ends (prop_chunk is again end m c s)
  prop_chunk-Ends again m c s k l ih =
      let o = is.get_offset s in
      let e = chunk_end_offset o c.size in
      let f = chunk_end_forward o c.size l k in
      if_cases Ends (ends_behind is e end) (λ _. tt)
        (λ _.
          if_cases Ends (equals_id c.id fs_id)
            (λ _.
              if_cases Ends (c.size == 4)
                (λ four.
                  on_bytes-Ends 4 s _ (decoder_read_full is 4 4 s)
                    (decoder_read_full-HasRead is file h 4 4 s (omega arith))
                    (λ bytes t r.
                      let moved = r.1 in
                      ih (record m { sample_rate = some (read_be bytes) }) t
                        (ground (arith, moved, four))))
                (λ _. tt))
            (λ _.
              if_cases Ends (equals_id c.id chnl_id)
                (λ _.
                  if_cases Ends (ltb c.size 2) (λ _. tt)
                    (λ _.
                      on_bytes-Ends 2 s _ (decoder_read_full is 2 2 s)
                        (decoder_read_full-HasRead is file h 2 2 s (omega arith))
                        (λ bytes t r.
                          skip_chunk-Ends (o + c.size) _ e t f
                            (ih (record m { channels = some (read_be bytes) })))))
                (λ _.
                  if_cases Ends (equals_id c.id cmpr_id)
                    (λ _.
                      if_cases Ends (ltb c.size 4) (λ _. tt)
                        (λ _.
                          on_bytes-Ends 4 s _ (decoder_read_full is 4 4 s)
                            (decoder_read_full-HasRead is file h 4 4 s (omega arith))
                            (λ bytes t r. skip_chunk-Ends (o + c.size) _ e t f (λ u g.
                              if_cases Ends (equals_id bytes dsd_id) (λ _. ih m u g) (λ _. tt)))))
                    (λ _. skip_chunk-Ends (o + c.size) (again m) e s f (ih m)))))

  -- If no chunk of the properties, each beginning where the one before ends, has a size of 2 ^ 63 or
  -- more, dsdiff_read_prop_snd ends within one round more than there are bytes up to the end of the
  -- properties, which is below 2 ^ 63, however the reads are cut, and refuses the properties or
  -- leaves the stream where they end.
  pub dsdiff_read_prop_snd-HasProps :
      (fuel : ℕ) (m : DsdiffMetaData) (s : S)
      → end < 2 ^ 63
      → end < is.get_offset s + fuel
      → 0 < fuel
      → has_sizes fuel file (is.get_offset s) end ≡ true
      → Yields HasProps (dsdiff_read_prop_snd is fuel end m s)
  unfolding dsdiff_read_prop_snd
  dsdiff_read_prop_snd-HasProps zero m s l f p z = absurd (omega arith)
  dsdiff_read_prop_snd-HasProps (suc fuel) m s l f p z =
      if_cases Ends (leb (is.get_offset s + 12) end)
        (λ e.
          on_bytes-Ends 12 s _ (decoder_read_full is 12 12 s)
            (decoder_read_full-HasRead is file h 12 12 s (omega arith))
            (λ bytes t r.
              let i = is.get_offset s in
              let here =
                subst
                  (λ b.
                    (if b
                      then ltb (size_at file i) (2 ^ 63)
                        && has_sizes fuel file (i + 12 + size_at file i) end
                      else true)
                    ≡ true)
                  e z in
              let same : (dsdiff_chunk_header bytes).size ≡ size_at file i =
                ap (λ b. (dsdiff_chunk_header b).size) r.0 in
              let moved = r.1 in
              prop_chunk-Ends (dsdiff_read_prop_snd is fuel end) m (dsdiff_chunk_header bytes) t
                (ground (arith, here, same)) (ground (arith, e, l, moved))
                (λ m u g.
                  let at : is.get_offset u ≡ i + 12 + size_at file i =
                    omega (arith, g, moved, same) in
                  dsdiff_read_prop_snd-HasProps fuel m u l (omega (arith, f, at))
                    (ground (arith, e, f))
                    (subst (λ k. has_sizes fuel file k end ≡ true) (sym at)
                      (rest (ltb (size_at file i) (2 ^ 63))
                        (has_sizes fuel file (i + 12 + size_at file i) end) here)))))
        (λ e.
          if_cases (λ o. HasProps (s, o)) (is.get_offset s == end) (λ z. ground (arith, z))
            (λ z. tt))
    where
      rest : (a b : Bool) → (a && b) ≡ true → b ≡ true
      rest a b e = ground (arith, e)
