-- ===== src/Dsd/Stream.antt =====
-- decoder_read_full of DecoderAPI.cxx, and decoder/DsdLib.cxx: reading and skipping.
pub mod Whole
use mpd_dsd.Prelude.{
  ℕ, zero, suc, ◌+◌, ◌-◌, ◌≤◌, ◌≡◌, Option, none, some, Bool, true, false, List, [], ◌∷◌, ◌++◌, leb,
  ltb, ◌==◌, ◌||◌, if◌then◌else◌, length, min,
}
use mpd_dsd.Prelude.Arrays.{Array}

-- A number of bytes of an array, from an offset on.
abbrev pub bytes_at : Array ℕ → ℕ → ℕ → List ℕ
bytes_at file i zero = []
bytes_at file i (suc n) = file i ∷ bytes_at file (suc i) n

-- What the decoders ask of the stream: `seek_by` is Seek from the current position, and `read` is
-- decoder_read, which gives no byte at the end, on an error or on a command.
pub record InputStream (S : Type 0) : Type 0 where
  pub get_offset : S → ℕ
  pub get_size : S → ℕ
  pub is_seekable : S → Bool
  pub seek : ℕ → S → S × Bool
  pub seek_by : ℕ → S → S × Bool
  pub read : ℕ → S → S × List ℕ

module _ {S : Type 0} (is : InputStream S) where
  -- The bytes of a round, before those of the rest.
  abbrev pub put_read : List ℕ → Option (S × Option (List ℕ)) → Option (S × Option (List ℕ))
  put_read xs none = none
  put_read xs (some (s, none)) = some (s, none)
  put_read xs (some (s, some ys)) = some (s, some (xs ++ ys))

  abbrev pub read_rest :
      (ℕ → S → Option (S × Option (List ℕ))) → ℕ → S × List ℕ → Option (S × Option (List ℕ))
  read_rest again n (s, []) = some (s, none)
  read_rest again n (s, c ∷ cs) = put_read (c ∷ cs) (again (n - length (c ∷ cs)) s)

  -- The loop of decoder_read_full; the outer option is that of the fuel.
  unfoldable pub decoder_read_full : ℕ → ℕ → S → Option (S × Option (List ℕ))
  decoder_read_full fuel zero s = some (s, some [])
  decoder_read_full zero (suc n) s = none
  decoder_read_full (suc fuel) (suc n) s =
      read_rest (decoder_read_full fuel) (suc n) (is.read (suc n) s)

  abbrev pub buffer_size : ℕ
  buffer_size = 8192

  abbrev pub skip_rest : (S → Option (S × Bool)) → S × List ℕ → Option (S × Bool)
  skip_rest again (s, []) = some (s, false)
  skip_rest again (s, c ∷ cs) = again s

  -- The loop of dsdlib_skip_to
  unfoldable pub skip_to_loop : ℕ → ℕ → S → Option (S × Bool)
  skip_to_loop zero offset s = if ltb (is.get_offset s) offset then none else some (s, true)
  skip_to_loop (suc fuel) offset s =
      if ltb (is.get_offset s) offset
      then skip_rest (skip_to_loop fuel offset)
          (is.read (min buffer_size (offset - is.get_offset s)) s)
      else some (s, true)

  unfoldable pub dsdlib_skip_to : ℕ → ℕ → S → Option (S × Bool)
  dsdlib_skip_to fuel offset s =
      if is.is_seekable s
      then some (is.seek offset s)
      else if ltb offset (is.get_offset s)
      then some (s, false)
      else skip_to_loop fuel offset s

  abbrev pub skip_less : (ℕ → S → Option (S × Bool)) → ℕ → S × List ℕ → Option (S × Bool)
  skip_less again delta (s, []) = some (s, false)
  skip_less again delta (s, c ∷ cs) = again (delta - length (c ∷ cs)) s

  -- The loop of dsdlib_skip
  unfoldable pub skip_loop : ℕ → ℕ → S → Option (S × Bool)
  skip_loop fuel zero s = some (s, true)
  skip_loop zero (suc delta) s = none
  skip_loop (suc fuel) (suc delta) s =
      skip_less (skip_loop fuel) (suc delta) (is.read (min buffer_size (suc delta)) s)

  unfoldable pub dsdlib_skip : ℕ → ℕ → S → Option (S × Bool)
  dsdlib_skip fuel delta s =
      if delta == 0
      then some (s, true)
      else if is.is_seekable s
      then some (is.seek_by delta s)
      else skip_loop fuel delta s

unfoldable pub dsdlib_valid_freq : ℕ → Bool
dsdlib_valid_freq f =
    f == 2822400
    || f == 3072000
    || f == 5644800
    || f == 6144000
    || f == 11289600
    || f == 12288000
    || f == 22579200
    || f == 24576000
