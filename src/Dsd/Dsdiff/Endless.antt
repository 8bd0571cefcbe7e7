-- ===== src/Dsd/Dsdiff/Endless.antt =====
-- A size that takes the end of a chunk back to its beginning.
use mpd_dsd.Prelude.{
  ℕ, zero, suc, ◌+◌, ◌-◌, ◌%◌, ◌^◌, ◌<◌, ◌≡◌, refl, sym, ap, ap₂, ◌∙◌, arith, subst, Option, none,
  some, Bool, true, false, List, ltb, if◌then◌else◌, Yields,
}
use mpd_dsd.Prelude.Arrays.{Array}
use mpd_dsd.Dsd.Stream.{bytes_at, InputStream, decoder_read_full, dsdlib_skip_to}
use mpd_dsd.Dsd.Stream.Whole.{IsInput, HasRead, decoder_read_full-HasRead}
use mpd_dsd.Dsd.Dsf.{equals_id, dsd_id}
use mpd_dsd.Dsd.Dsdiff.{
  dsdiff_chunk_header, DsdiffMetaData, prop_id, chunk_end_offset, Found, on_bytes, on_skip,
  metadata_chunk, read_metadata_loop,
}

-- At this offset of a file stands the header of an unknown chunk, whose size is -12.
pub record IsTrap (file : Array ℕ) (i : ℕ) : Type 0 where
  pub not_prop : equals_id (dsdiff_chunk_header (bytes_at file i 12)).id prop_id ≡ false
  pub not_dsd : equals_id (dsdiff_chunk_header (bytes_at file i 12)).id dsd_id ≡ false
  pub negative : (dsdiff_chunk_header (bytes_at file i 12)).size ≡ 2 ^ 64 - 12
  pub within : i + 12 < 2 ^ 63

back_to : (i : ℕ) → i + 12 < 2 ^ 63 → chunk_end_offset (i + 12) (2 ^ 64 - 12) ≡ some i
unfolding chunk_end_offset
back_to i l =
    let e : (i + 12 + (2 ^ 64 - 12)) % 2 ^ 64 ≡ i = omega arith in
    ap (λ k. if ltb k (2 ^ 63) then some k else none) e
    ∙ (let b : ltb i (2 ^ 63) ≡ true = ground (arith, l) in ap (λ t. if t then some i else none) b)

-- The read did not fail.
abbrev pub Gives : {S : Type 0} → S × Option (List ℕ) → Type 0
Gives (s, none) = ⊥
Gives (s, some bytes) = Unit

module _ {S : Type 0} (is : InputStream S) (file : Array ℕ) (h : IsInput file is) (i : ℕ)
    (trap : IsTrap file i) (seekable : (s : S) → is.is_seekable s ≡ true)
    (seeks : (s : S) → (is.seek i s).1 ≡ true) where
  sought :
      (again : S → Found S) (r : S × Bool)
      → r.1 ≡ true
      → is.get_offset r.0 ≡ i
      → ((s : S) → is.get_offset s ≡ i → again s ≡ none)
      → on_skip is again (some r) ≡ none
  sought again (s, false) w e ih = absurd (cc)
  sought again (s, true) w e ih = ih s e

  chunk_trapped :
      (fuel : ℕ) (again : DsdiffMetaData → S → Found S) (m : DsdiffMetaData) (t : S)
      → is.get_offset t ≡ i + 12
      → ((s : S) → is.get_offset s ≡ i → again m s ≡ none)
      → metadata_chunk is fuel again m (dsdiff_chunk_header (bytes_at file i 12)) t ≡ none
  unfolding dsdlib_skip_to
  chunk_trapped fuel again m t e ih =
      let end : chunk_end_offset (is.get_offset t) (dsdiff_chunk_header (bytes_at file i 12)).size
          ≡ some i =
        ap₂ chunk_end_offset e trap.negative ∙ back_to i trap.within in
      simp (trap.not_prop, trap.not_dsd, end, seekable t)
        (sought (again m) (is.seek i t) (seeks t) (h.seek_moves i t (seeks t)) ih)

  bytes_trapped :
      (fuel : ℕ) (again : DsdiffMetaData → S → Found S) (m : DsdiffMetaData) (s : S)
      (o : Option (S × Option (List ℕ)))
      → is.get_offset s ≡ i
      → Yields (HasRead is file h 12 s) o
      → Yields Gives o
      → ((s : S) → is.get_offset s ≡ i → again m s ≡ none)
      → on_bytes is (λ bytes s. metadata_chunk is fuel again m (dsdiff_chunk_header bytes) s) o
        ≡ none
  bytes_trapped fuel again m s none e r g ih = refl
  bytes_trapped fuel again m s (some (t, none)) e r g ih = absurd g
  bytes_trapped fuel again m s (some (t, some bytes)) e (b, k) g ih =
      let same : bytes ≡ bytes_at file i 12 = b ∙ ap (λ j. bytes_at file j 12) e in
      subst (λ q. metadata_chunk is fuel again m (dsdiff_chunk_header q) t ≡ none) (sym same)
        (chunk_trapped fuel again m t (omega (arith, k, e)) ih)

  -- If the header of a chunk that is neither PROP nor DSD has the size 2 ^ 64 - 12, the loop of
  -- dsdiff_read_metadata does not end in any number of rounds once it is there, on a stream that can
  -- be sought in and whose reads and seeks succeed there: it skips back to the header that it has
  -- read.
  pub read_metadata_loop_runs :
      (fuel : ℕ) (m : DsdiffMetaData) (s : S)
      → ((s : S) → is.get_offset s ≡ i → Yields Gives (decoder_read_full is 12 12 s))
      → is.get_offset s ≡ i
      → read_metadata_loop is fuel m s ≡ none
  unfolding read_metadata_loop
  read_metadata_loop_runs zero m s g e = refl
  read_metadata_loop_runs (suc fuel) m s g e =
      bytes_trapped fuel (read_metadata_loop is fuel) m s (decoder_read_full is 12 12 s) e
        (decoder_read_full-HasRead is file h 12 12 s (omega arith)) (g s e)
        (λ s e. read_metadata_loop_runs fuel m s g e)
