-- ===== src/Dsd/Stream/Whole.antt =====
-- decoder_read_full and decoder/DsdLib.cxx on a stream that gives the bytes of a file in pieces.
use mpd_dsd.Prelude.{
  ℕ, zero, suc, ◌+◌, ◌-◌, ◌≤◌, ◌≡◌, refl, sym, ap, ap₂, ◌∙◌, arith, Option, none, some, Bool, true,
  List, [], ◌∷◌, ◌++◌, ltb, ◌==◌, length, min, if_cases, Yields, Yields-map,
}
use mpd_dsd.Prelude.Arrays.{Array}
use mpd_dsd.Dsd.Stream.{
  bytes_at, InputStream, put_read, read_rest, decoder_read_full, buffer_size, skip_rest,
  skip_to_loop, dsdlib_skip_to, skip_less, skip_loop, dsdlib_skip,
}

-- A stream of the bytes of a file: a read gives the next bytes, as many as asked for at most, and an operation that
-- succeeds moves the offset as it says.
pub record IsInput {S : Type 0} (file : Array ℕ) (is : InputStream S) : Type 0 where
  pub read_within : (n : ℕ) (s : S) → length (is.read n s).1 ≤ n
  pub read_bytes :
      (n : ℕ) (s : S) → (is.read n s).1 ≡ bytes_at file (is.get_offset s) (length (is.read n s).1)
  pub read_moves :
      (n : ℕ) (s : S) → is.get_offset (is.read n s).0 ≡ is.get_offset s + length (is.read n s).1
  pub seek_moves : (n : ℕ) (s : S) → (is.seek n s).1 ≡ true → is.get_offset (is.seek n s).0 ≡ n
  pub seek_by_moves :
      (n : ℕ) (s : S)
      → (is.seek_by n s).1 ≡ true
      → is.get_offset (is.seek_by n s).0 ≡ is.get_offset s + n

bytes_at-append :
    (file : Array ℕ) (i m n : ℕ)
    → bytes_at file i (m + n) ≡ bytes_at file i m ++ bytes_at file (i + m) n
bytes_at-append file i zero n =
    let e : 0 + n ≡ n = omega arith in
    let k : i ≡ i + 0 = omega arith in ap (bytes_at file i) e ∙ ap (λ j. bytes_at file j n) k
bytes_at-append file i (suc m) n =
    let e : suc m + n ≡ suc (m + n) = omega arith in
    let k : suc i + m ≡ i + suc m = omega arith in
    ap (bytes_at file i) e
    ∙ ap (λ q. file i ∷ q)
        (bytes_at-append file (suc i) m n
          ∙ ap (λ j. bytes_at file (suc i) m ++ bytes_at file j n) k)

module _ {S : Type 0} (is : InputStream S) (file : Array ℕ) (h : IsInput file is) where
  -- The read has failed, or has given the bytes.
  abbrev pub HasRead : ℕ → S → S × Option (List ℕ) → Type 0
  HasRead n s (t, none) = Unit
  HasRead n s (t, some xs) =
      (xs ≡ bytes_at file (is.get_offset s) n) × (is.get_offset t ≡ is.get_offset s + n)

  put_read-HasRead :
      (m n : ℕ) (s t : S) (xs : List ℕ) (o : Option (S × Option (List ℕ)))
      → m ≤ n
      → xs ≡ bytes_at file (is.get_offset s) m
      → is.get_offset t ≡ is.get_offset s + m
      → Yields (HasRead (n - m) t) o
      → Yields (HasRead n s) (put_read is xs o)
  put_read-HasRead m n s t xs none l e f k = k
  put_read-HasRead m n s t xs (some (u, none)) l e f k = tt
  put_read-HasRead m n s t xs (some (u, some ys)) l e f k =
      let w : m + (n - m) ≡ n = omega arith in
      (
        ap₂ (λ a b. a ++ b) e (k.0 ∙ ap (λ j. bytes_at file j (n - m)) f)
            ∙ sym (bytes_at-append file (is.get_offset s) m (n - m))
            ∙ ap (bytes_at file (is.get_offset s)) w,
        omega (arith, k.1, f),
      )

  read_rest-HasRead :
      (n : ℕ) (s : S) (again : ℕ → S → Option (S × Option (List ℕ))) (r : S × List ℕ)
      → length r.1 ≤ suc n
      → r.1 ≡ bytes_at file (is.get_offset s) (length r.1)
      → is.get_offset r.0 ≡ is.get_offset s + length r.1
      → ((m : ℕ) (t : S) → m ≤ n → Yields (HasRead m t) (again m t))
      → Yields (HasRead (suc n) s) (read_rest is again (suc n) r)
  read_rest-HasRead n s again (t, []) l e f ih = tt
  read_rest-HasRead n s again (t, c ∷ cs) l e f ih =
      put_read-HasRead (length (c ∷ cs)) (suc n) s t (c ∷ cs) (again (suc n - length (c ∷ cs)) t) l
        e f (ih (suc n - length (c ∷ cs)) t (omega arith))

  -- decoder_read_full ends within as many reads as it is asked for bytes, and fails or gives the
  -- next bytes of the file, as many as asked for, and leaves the stream behind them, however the
  -- reads of the stream are cut.
  pub decoder_read_full-HasRead :
      (fuel n : ℕ) (s : S) → n ≤ fuel → Yields (HasRead n s) (decoder_read_full is fuel n s)
  unfolding decoder_read_full
  decoder_read_full-HasRead fuel zero s l = (refl, omega arith)
  decoder_read_full-HasRead zero (suc n) s l = absurd (omega arith)
  decoder_read_full-HasRead (suc fuel) (suc n) s l =
      read_rest-HasRead n s (decoder_read_full is fuel) (is.read (suc n) s)
        (h.read_within (suc n) s) (h.read_bytes (suc n) s) (h.read_moves (suc n) s)
        (λ m t k. decoder_read_full-HasRead fuel m t (omega arith))

  -- A skip that succeeds ends at the offset.
  abbrev pub EndsAt : ℕ → S × Bool → Type 0
  EndsAt offset r = r.1 ≡ true → is.get_offset r.0 ≡ offset

  skip_rest-EndsAt :
      (offset from fuel : ℕ) (again : S → Option (S × Bool)) (r : S × List ℕ)
      → from + length r.1 ≤ offset
      → is.get_offset r.0 ≡ from + length r.1
      → offset ≤ from + suc fuel
      → ((t : S)
          → is.get_offset t ≤ offset
          → offset ≤ is.get_offset t + fuel
          → Yields (EndsAt offset) (again t))
      → Yields (EndsAt offset) (skip_rest is again r)
  skip_rest-EndsAt offset from fuel again (t, []) l e f ih = λ w. absurd (cc)
  skip_rest-EndsAt offset from fuel again (t, c ∷ cs) l e f ih = ih t (omega arith) (omega arith)

  skip_to_loop-EndsAt :
      (fuel offset : ℕ) (s : S)
      → is.get_offset s ≤ offset
      → offset ≤ is.get_offset s + fuel
      → Yields (EndsAt offset) (skip_to_loop is fuel offset s)
  unfolding skip_to_loop
  skip_to_loop-EndsAt zero offset s l f =
      if_cases (Yields (EndsAt offset)) (ltb (is.get_offset s) offset)
        (λ e. absurd (ground (arith, e, l, f))) (λ e w. ground (arith, e, l))
  skip_to_loop-EndsAt (suc fuel) offset s l f =
      if_cases (Yields (EndsAt offset)) (ltb (is.get_offset s) offset)
        (λ e.
          let n = min (buffer_size is) (offset - is.get_offset s) in
          let k = h.read_within n s in
          skip_rest-EndsAt offset (is.get_offset s) fuel (skip_to_loop is fuel offset) (is.read n s)
            (omega (arith, k)) (h.read_moves n s) f
            (λ t a b. skip_to_loop-EndsAt fuel offset t a b))
        (λ e w. ground (arith, e, l))

  -- dsdlib_skip_to
  pub dsdlib_skip_to-EndsAt :
      (fuel offset : ℕ) (s : S)
      → offset ≤ is.get_offset s + fuel
      → Yields (EndsAt offset) (dsdlib_skip_to is fuel offset s)
  unfolding dsdlib_skip_to
  dsdlib_skip_to-EndsAt fuel offset s f =
      if_cases (Yields (EndsAt offset)) (is.is_seekable s) (λ e. h.seek_moves offset s)
        (λ e.
          if_cases (Yields (EndsAt offset)) (ltb offset (is.get_offset s)) (λ d w. absurd (cc))
            (λ d. skip_to_loop-EndsAt fuel offset s (ground (arith, d)) f))

  skip_less-EndsAt :
      (n from fuel : ℕ) (again : ℕ → S → Option (S × Bool)) (r : S × List ℕ)
      → length r.1 ≤ n
      → is.get_offset r.0 ≡ from + length r.1
      → n ≤ suc fuel
      → ((m : ℕ) (t : S) → m ≤ fuel → Yields (EndsAt (is.get_offset t + m)) (again m t))
      → Yields (EndsAt (from + n)) (skip_less is again n r)
  skip_less-EndsAt n from fuel again (t, []) l e f ih = λ w. absurd (cc)
  skip_less-EndsAt n from fuel again (t, c ∷ cs) l e f ih =
      Yields-map (EndsAt (is.get_offset t + (n - length (c ∷ cs)))) (EndsAt (from + n))
        (again (n - length (c ∷ cs)) t) (ih (n - length (c ∷ cs)) t (omega arith))
        (λ r k w. let q = k w in omega (arith, q, e, l))

  skip_loop-EndsAt :
      (fuel delta : ℕ) (s : S)
      → delta ≤ fuel
      → Yields (EndsAt (is.get_offset s + delta)) (skip_loop is fuel delta s)
  unfolding skip_loop
  skip_loop-EndsAt fuel zero s f = λ w. omega arith
  skip_loop-EndsAt zero (suc delta) s f = absurd (omega arith)
  skip_loop-EndsAt (suc fuel) (suc delta) s f =
      let n = min (buffer_size is) (suc delta) in
      let k = h.read_within n s in
      skip_less-EndsAt (suc delta) (is.get_offset s) fuel (skip_loop is fuel) (is.read n s)
        (omega (arith, k)) (h.read_moves n s) f (λ m t l. skip_loop-EndsAt fuel m t l)

  -- dsdlib_skip
  pub dsdlib_skip-EndsAt :
      (fuel delta : ℕ) (s : S)
      → delta ≤ fuel
      → Yields (EndsAt (is.get_offset s + delta)) (dsdlib_skip is fuel delta s)
  unfolding dsdlib_skip
  dsdlib_skip-EndsAt fuel delta s f =
      if_cases (Yields (EndsAt (is.get_offset s + delta))) (delta == 0) (λ e w. ground (arith, e))
        (λ e.
          if_cases (Yields (EndsAt (is.get_offset s + delta))) (is.is_seekable s)
            (λ d. h.seek_by_moves delta s) (λ d. skip_loop-EndsAt fuel delta s f))
