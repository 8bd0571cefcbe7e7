-- ===== src/Music/Pipe/Push.antt =====
-- Push of MusicPipe.cxx, on the list of the chunks.
use mpd_dsd.Prelude.{
  ℕ, suc, ◌+◌, ◌<◌, ◌%◌, ◌^◌, ◌≡◌, inl, inr, refl, sym, ap, ◌∙◌, arith, Option, none, some, true,
  false, List, [], ◌∷◌, ◌++◌, ltb, ◌==◌, Bool-cases, length, length-append, Yields,
}
use mpd_dsd.Prelude.Members.{
  has, IsDistinct, All, first, Chain, All-map, put_other, has_ne, All-has, has-append,
}
use mpd_dsd.Pcm.Format.{AudioFormat, is_defined, is_valid}
use mpd_dsd.Music.Slices.{SliceBuffer, value, value_of}
use mpd_dsd.Music.Chunk.{Chunk, is_empty_chunk}
use mpd_dsd.Music.Buffer.{set_chunk}
use mpd_dsd.Music.Pipe.{to_next, MusicPipe, pushed_format, push}
use mpd_dsd.Music.Pipe.Valid.{
  chunk_next, next_link, IsFormat, IsQueued, tail_of, IsPipe, valid_defined, IsReady, may_push-true,
}

pub has-tail_of : (x y : ℕ) (xs : List ℕ) → tail_of (x ∷ xs) ≡ to_next y → has y (x ∷ xs) ≡ true
has-tail_of x y [] e = ground arith
has-tail_of x y (z ∷ zs) e = ground (arith, has-tail_of z y zs e)

tail_of-snoc : (xs : List ℕ) (i : ℕ) → tail_of (xs ++ i ∷ []) ≡ to_next i
tail_of-snoc [] i = refl
tail_of-snoc (x ∷ []) i = refl
tail_of-snoc (x ∷ y ∷ ys) i = tail_of-snoc (y ∷ ys) i

has-snoc : (xs : List ℕ) (i : ℕ) → has i (xs ++ i ∷ []) ≡ true
has-snoc [] i = ground arith
has-snoc (x ∷ xs) i = ground (arith, has-snoc xs i)

snoc-IsDistinct :
    (xs : List ℕ) (i : ℕ) → IsDistinct xs → has i xs ≡ false → IsDistinct (xs ++ i ∷ [])
snoc-IsDistinct [] i h m = (refl, tt)
snoc-IsDistinct (x ∷ xs) i h m =
    (ground (arith, has-append x xs (i ∷ []), h.0), snoc-IsDistinct xs i h.1 (ground arith))

All-snoc : (P : ℕ → Type 0) (xs : List ℕ) (i : ℕ) → All P xs → P i → All P (xs ++ i ∷ [])
All-snoc P [] i h p = (p, tt)
All-snoc P (x ∷ xs) i h p = (h.0, All-snoc P xs i h.1 p)

-- The last link of a chain is set to a new end.
Chain-snoc :
    (link link' : ℕ → Option (Option ℕ)) (x : ℕ) (xs : List ℕ) (y i : ℕ)
    → Chain link (x ∷ xs)
    → IsDistinct (x ∷ xs)
    → tail_of (x ∷ xs) ≡ to_next y
    → ((a : ℕ) → has a (x ∷ xs) ≡ true → (a == y) ≡ false → link' a ≡ link a)
    → link' y ≡ some (some i)
    → link' i ≡ some none
    → Chain link' ((x ∷ xs) ++ i ∷ [])
Chain-snoc link link' x [] y i c d t same l n = let e : x ≡ y = ground arith in (rw e l, (n, tt))
Chain-snoc link link' x (z ∷ zs) y i c d t same l n =
    let m = has-tail_of z y zs t in
    (
      same x (ground arith) (has_ne x y (z ∷ zs) d.0 m) ∙ c.0,
      Chain-snoc link link' z zs y i c.1 d.1 t (λ a m. same a (ground arith)) l n,
    )

-- Nothing but links has changed, and these only in the slices of the list.
pub record IsRelinked (b t : SliceBuffer Chunk) (xs : List ℕ) : Type 0 where
  pub same_max : t.n_max ≡ b.n_max
  pub same_initialized : t.n_initialized ≡ b.n_initialized
  pub same_allocated : t.n_allocated ≡ b.n_allocated
  pub same_available : t.available ≡ b.available
  pub outside : (j : ℕ) → has j xs ≡ false → t.slices j ≡ b.slices j
  pub inside :
      (j : ℕ) (c : Chunk)
      → b.slices j ≡ value c
      → (q : Option ℕ) × (t.slices j ≡ value (record c { next = q }))

value_injective : (c d : Chunk) → value c ≡ value d → c ≡ d
value_injective c d e = cc

pub set_next-IsRelinked :
    (b : SliceBuffer Chunk) (i : ℕ) (c : Chunk) (q : Option ℕ) (xs : List ℕ)
    → b.slices i ≡ value c
    → has i xs ≡ true
    → IsRelinked b (set_chunk i (record c { next = q }) b) xs
set_next-IsRelinked b i c q xs e m = record {
  same_max = refl;
  same_initialized = refl;
  same_allocated = refl;
  same_available = refl;
  outside = λ j out. ground (arith, has_ne j i xs out m);
  inside = λ j d ed. elim (Bool-cases (j == i)) [
    | inl f ↦ (
      q,
      let f' : j ≡ i = ground arith in
          rw (f, value_injective c d (sym e ∙ ap b.slices (sym f') ∙ ed)) refl,
    )
    | inr f ↦ (d.next, rw f ed)
  ];
}

IsRelinked-trans :
    (b t u : SliceBuffer Chunk) (xs : List ℕ)
    → IsRelinked b t xs
    → IsRelinked t u xs
    → IsRelinked b u xs
IsRelinked-trans b t u xs h k = record {
  same_max = k.same_max ∙ h.same_max;
  same_initialized = k.same_initialized ∙ h.same_initialized;
  same_allocated = k.same_allocated ∙ h.same_allocated;
  same_available = k.same_available ∙ h.same_available;
  outside = λ j out. k.outside j out ∙ h.outside j out;
  inside = λ j c e. k.inside j (record c { next = (h.inside j c e).0 }) (h.inside j c e).1;
}

-- What the chunks are, links aside, stays.
pub relinked-IsQueued :
    (f : AudioFormat) (b t : SliceBuffer Chunk) (xs : List ℕ) (i : ℕ)
    → IsRelinked b t xs
    → IsQueued f b i
    → IsQueued f t i
unfolding is_empty_chunk
relinked-IsQueued f b t xs i h (c, e, n, g) =
    (record c { next = (h.inside i c e).0 }, (h.inside i c e).1, n, g)

-- The pipe of a push: the list is longer by the chunk at its end.
abbrev pub IsPushed : SliceBuffer Chunk → ℕ → List ℕ → SliceBuffer Chunk × MusicPipe → Type 0
IsPushed b i xs r = IsPipe r.0 r.1 (xs ++ i ∷ []) × IsRelinked b r.0 (xs ++ i ∷ [])

-- The first chunk with data decides on the format.
pushed-IsFormat :
    (b : SliceBuffer Chunk) (p : MusicPipe) (c d : Chunk)
    → IsReady p c
    → IsFormat p.audio_format d
    → IsFormat (pushed_format c p) d
pushed-IsFormat b p c d r (inl e) = inl e
pushed-IsFormat b p c d r (inr e) = rw (valid_defined p.audio_format e.1) (inr e)

new-IsFormat :
    (p : MusicPipe) (c : Chunk)
    → IsReady p c
    → (is_defined p.audio_format ≡ true → is_valid p.audio_format ≡ true)
    → IsFormat (pushed_format c p) c
new-IsFormat p c r v = elim r.valid_format [
  | inl e ↦ inl e
  | inr g ↦ elim (Bool-cases (is_defined p.audio_format)) [
    | inl e ↦ elim (r.fits e) [ inl z ↦ inl z | inr s ↦ rw e (inr (s, v e)) ]
    | inr e ↦ elim (Bool-cases (ltb 0 c.length)) [
      | inl l ↦ rw (e, l) (inr (refl, g))
      | inr l ↦ inl (ground arith)
    ]
  ]
]

pushed_defined_valid :
    (p : MusicPipe) (c : Chunk)
    → IsReady p c
    → (is_defined p.audio_format ≡ true → is_valid p.audio_format ≡ true)
    → is_defined (pushed_format c p) ≡ true
    → is_valid (pushed_format c p) ≡ true
pushed_defined_valid p c r v = elim (Bool-cases (is_defined p.audio_format)) [
  | inl e ↦ rw e (λ d. v e)
  | inr e ↦ elim (Bool-cases (ltb 0 c.length)) [
    | inl l ↦ rw (e, l) (λ d. elim r.valid_format [ inl z ↦ absurd (ground arith) | inr g ↦ g ])
    | inr l ↦ rw (e, l) (λ d. absurd (cc))
  ]
]

abbrev pushed_pipe : ℕ → Chunk → MusicPipe → Option ℕ → MusicPipe
pushed_pipe i c p head = record {
  head = head;
  tail_r = to_next i;
  size = (p.size + 1) % 2 ^ 32;
  audio_format = pushed_format c p;
}

snoc-IsPipe :
    (b t : SliceBuffer Chunk) (p : MusicPipe) (xs : List ℕ) (i : ℕ) (c : Chunk) (head : Option ℕ)
    → IsPipe b p xs
    → b.slices i ≡ value c
    → IsReady p c
    → has i xs ≡ false
    → suc (length xs) < 2 ^ 32
    → IsRelinked b t (xs ++ i ∷ [])
    → Chain (next_link t) (xs ++ i ∷ [])
    → head ≡ first (xs ++ i ∷ [])
    → IsPipe t (pushed_pipe i c p head) (xs ++ i ∷ [])
snoc-IsPipe b t p xs i c head h e r out few k chain starts = record {
  starts = starts;
  chained = chain;
  ends = sym (tail_of-snoc xs i);
  counted = omega (arith, h.counted, length-append xs (i ∷ []));
  few = omega (arith, length-append xs (i ∷ []));
  distinct = snoc-IsDistinct xs i h.distinct out;
  queued =
      All-snoc (IsQueued (pushed_format c p) t) xs i
        (All-map (IsQueued p.audio_format b) _ xs h.queued (λ j m z.
          relinked-IsQueued (pushed_format c p) b t (xs ++ i ∷ []) j k
            (z.0, z.1, z.2, pushed-IsFormat b p c z.0 r z.3)))
        (relinked-IsQueued (pushed_format c p) b t (xs ++ i ∷ []) i k
          (c, e, r.not_empty, new-IsFormat p c r h.defined_valid));
  defined_valid = pushed_defined_valid p c r h.defined_valid;
  empty_undefined = λ z. absurd (omega (arith, z, h.counted));
}

pub last_of : (x : ℕ) (xs : List ℕ) → (y : ℕ) × (tail_of (x ∷ xs) ≡ to_next y)
last_of x [] = (x, refl)
last_of x (z ∷ zs) = last_of z zs

-- Push of a chunk that is not in a valid pipe, is not empty and fits its format appends the chunk to
-- the list that the links stand for; the new pipe is valid, and nothing but links of its chunks has
-- changed in the buffer.
pub push-IsPushed :
    (b : SliceBuffer Chunk) (p : MusicPipe) (xs : List ℕ) (i : ℕ) (c : Chunk)
    → IsPipe b p xs
    → b.slices i ≡ value c
    → IsReady p c
    → has i xs ≡ false
    → suc (length xs) < 2 ^ 32
    → Yields (IsPushed b i xs) (push i b p)
unfolding push
push-IsPushed b p [] i c h e r out few =
    let t = set_chunk i (record c { next = none }) b in
    let k : IsRelinked b t (i ∷ []) = set_next-IsRelinked b i c none (i ∷ []) e (ground arith) in
    simp (e, h.ends, may_push-true b p [] c h r)
      (snoc-IsPipe b t p [] i c (some i) h e r out few k (ground arith, tt) refl, k)
push-IsPushed b p (x ∷ xs) i c h e r out few =
    let (y, et) = last_of x xs in
    let my : has y (x ∷ xs) ≡ true = has-tail_of x y xs et in
    let (d, ed, nd, fd) = All-has (IsQueued p.audio_format b) y (x ∷ xs) h.queued my in
    let t = set_chunk i (record c { next = none }) b in
    let ys = (x ∷ xs) ++ i ∷ [] in
    let etd : t.slices y ≡ value d =
      put_other b.slices i y (value (record c { next = none })) (x ∷ xs) out my ∙ ed in
    let u = set_chunk y (record d { next = some i }) t in
    let k : IsRelinked b u ys =
      IsRelinked-trans b t u ys (set_next-IsRelinked b i c none ys e (has-snoc (x ∷ xs) i)) (
        set_next-IsRelinked t y d (some i) ys etd
          (ground (arith, has-append y (x ∷ xs) (i ∷ []), my))) in
    simp (e, h.ends, et, may_push-true b p (x ∷ xs) c h r, etd)
      (
        snoc-IsPipe b u p (x ∷ xs) i c p.head h e r out few k
            (Chain-snoc (next_link b) (next_link u) x xs y i h.chained h.distinct et
              (λ a m ne.
                ap (λ s. chunk_next (value_of s))
                  (rw ne
                    (put_other b.slices i a (value (record c { next = none })) (x ∷ xs) out m)))
              (ground arith) (ground (arith, has_ne i y (x ∷ xs) out my)))
            h.starts,
        k,
      )
