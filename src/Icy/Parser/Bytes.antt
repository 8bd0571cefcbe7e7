-- ===== src/Icy/Parser/Bytes.antt =====
-- The parser of a stream, one byte at a time, and the runs of bytes of one kind.
use mpd_dsd.Prelude.{
  ℕ, suc, ◌+◌, ◌-◌, ◌*◌, ◌<◌, ◌≤◌, ◌≡◌, ◌≢◌, refl, sym, ap, ap₂, ◌∙◌, arith, Option, none, some,
  true, false, not, List, [], ◌∷◌, ◌++◌, ◌==◌, if◌then◌else◌, ◌>>=◌, length,
}
use mathlib.Core.List.{append_assoc, append-nil}
use mpd_dsd.Icy.Parser.{IcyMetaDataParser, icy_is_defined, end_block, put_before}

-- A byte of metadata, with the first of which a block begins.
abbrev pub meta_byte : ℕ → ℕ → IcyMetaDataParser → Option IcyMetaDataParser
meta_byte beyond c s =
    if s.meta_size == 0
    then if c * 16 == 0
      then some (record s { meta_size = 0; data_rest = s.data_size })
      else some (record s { meta_size = c * 16; meta_position = 0; meta_data = [] })
    else (let t = record s {
      meta_data = s.meta_data ++ c ∷ [];
      meta_position = s.meta_position + 1;
    } in
        if t.meta_position == t.meta_size then end_block beyond t else some t)

-- Nothing of it is data.
abbrev pub no_data : Option IcyMetaDataParser → Option (IcyMetaDataParser × List ℕ)
no_data none = none
no_data (some s) = some (s, [])

-- What follows on a byte, and the byte where it is data.
unfoldable pub byte_step : ℕ → ℕ → IcyMetaDataParser → Option (IcyMetaDataParser × List ℕ)
byte_step beyond c s =
    if not (icy_is_defined s)
    then some (s, c ∷ [])
    else if not (s.data_rest == 0)
    then some (record s { data_rest = s.data_rest - 1 }, c ∷ [])
    else no_data (meta_byte beyond c s)

unfoldable pub feed : ℕ → List ℕ → IcyMetaDataParser → Option (IcyMetaDataParser × List ℕ)
feed beyond [] s = some (s, [])
feed beyond (c ∷ p) s = byte_step beyond c s >>= λ r. put_before r.1 (feed beyond p r.0)

-- More bytes behind what has come.
abbrev pub feed_more : ℕ → List ℕ → IcyMetaDataParser × List ℕ → Option (IcyMetaDataParser × List ℕ)
feed_more beyond q r = put_before r.1 (feed beyond q r.0)

pub >>=_congr {ℓ κ} :
    {A : Type ℓ} {B : Type κ} (o : Option A) (f g : A → Option B)
    → ((a : A) → o ≡ some a → f a ≡ g a)
    → (o >>= f) ≡ (o >>= g)
>>=_congr none f g h = refl
>>=_congr (some a) f g h = h a refl

pub >>=_assoc {ℓ κ μ} :
    {A : Type ℓ} {B : Type κ} {C : Type μ} (o : Option A) (f : A → Option B) (g : B → Option C)
    → ((o >>= f) >>= g) ≡ (o >>= λ a. f a >>= g)
>>=_assoc none f g = refl
>>=_assoc (some a) f g = refl

pub put_before-nil : (o : Option (IcyMetaDataParser × List ℕ)) → put_before [] o ≡ o
put_before-nil none = refl
put_before-nil (some (s, ys)) = refl

put_before-append :
    (xs ys : List ℕ) (o : Option (IcyMetaDataParser × List ℕ))
    → put_before (xs ++ ys) o ≡ put_before xs (put_before ys o)
put_before-append xs ys none = refl
put_before-append xs ys (some (s, zs)) = ap (λ w. some (s, w)) (append_assoc xs ys zs)

put_before-more :
    (beyond : ℕ) (xs q : List ℕ) (o : Option (IcyMetaDataParser × List ℕ))
    → put_before xs (o >>= feed_more beyond q) ≡ (put_before xs o >>= feed_more beyond q)
put_before-more beyond xs q none = refl
put_before-more beyond xs q (some (s, ys)) = sym (put_before-append xs ys (feed beyond q s))

-- Bytes that come in two pieces.
pub feed-append :
    (beyond : ℕ) (p q : List ℕ) (s : IcyMetaDataParser)
    → feed beyond (p ++ q) s ≡ (feed beyond p s >>= feed_more beyond q)
unfolding feed
feed-append beyond [] q s = sym (put_before-nil (feed beyond q s))
feed-append beyond (c ∷ p) q s =
    >>=_congr (byte_step beyond c s) _ _ (λ r e.
      ap (put_before r.1) (feed-append beyond p q r.0)
      ∙ put_before-more beyond r.1 q (feed beyond p r.0))
    ∙ sym (
        >>=_assoc (byte_step beyond c s) (λ r. put_before r.1 (feed beyond p r.0))
          (feed_more beyond q))

-- A stream without metadata
pub feed_undefined :
    (beyond : ℕ) (p : List ℕ) (s : IcyMetaDataParser)
    → icy_is_defined s ≡ false
    → feed beyond p s ≡ some (s, p)
unfolding feed byte_step
feed_undefined beyond [] s u = refl
feed_undefined beyond (c ∷ p) s u = simp (u, feed_undefined beyond p s u) refl

abbrev with_rest : IcyMetaDataParser → List ℕ → ℕ → Option (IcyMetaDataParser × List ℕ)
with_rest s p k = some (record s { data_rest = k }, p)

abbrev pub with_meta : IcyMetaDataParser → List ℕ → ℕ → IcyMetaDataParser
with_meta s xs k = record s { meta_data = xs; meta_position = k }

-- A run of data
pub feed_data :
    (beyond : ℕ) (p : List ℕ) (s : IcyMetaDataParser)
    → icy_is_defined s ≡ true
    → length p ≤ s.data_rest
    → feed beyond p s ≡ some (record s { data_rest = s.data_rest - length p }, p)
unfolding feed byte_step
feed_data beyond [] s d l =
    let e : s.data_rest ≡ s.data_rest - 0 = omega arith in ap (with_rest s []) e
feed_data beyond (c ∷ p) s d l =
    let rest : (s.data_rest == 0) ≡ false = ground (arith, l) in
    simp (d, rest, feed_data beyond p (record s { data_rest = s.data_rest - 1 }) d (omega arith))
      (let e : s.data_rest - 1 - length p ≡ s.data_rest - suc (length p) = omega arith in
        ap (with_rest s (c ∷ p)) e)

-- A run of metadata within a block
pub feed_meta :
    (beyond : ℕ) (p : List ℕ) (s : IcyMetaDataParser)
    → icy_is_defined s ≡ true
    → s.data_rest ≡ 0
    → s.meta_size ≢ 0
    → s.meta_position + length p < s.meta_size
    → feed beyond p s
      ≡ some (
        record s { meta_data = s.meta_data ++ p; meta_position = s.meta_position + length p },
        [],
      )
unfolding feed byte_step
feed_meta beyond [] s d r m l =
    let e : s.meta_position ≡ s.meta_position + 0 = omega arith in
    ap (λ t. some (t, [])) (ap₂ (with_meta s) (sym (append-nil s.meta_data)) e)
feed_meta beyond (c ∷ p) s d r m l =
    let rest : (s.data_rest == 0) ≡ true = ground (arith, r) in
    let inside : (s.meta_size == 0) ≡ false = ground (arith, m) in
    let goes_on : (s.meta_position + 1 == s.meta_size) ≡ false = ground (arith, l) in
    let ih =
      feed_meta beyond p (with_meta s (s.meta_data ++ c ∷ []) (s.meta_position + 1)) d r m
        (omega arith) in
    simp (d, rest, inside, goes_on, ih)
      (let e : s.meta_position + 1 + length p ≡ s.meta_position + suc (length p) = omega arith in
        ap (λ t. some (t, [])) (ap₂ (with_meta s) (append_assoc s.meta_data (c ∷ []) p) e))

meta_step :
    (beyond c : ℕ) (p : List ℕ) (s : IcyMetaDataParser)
    → icy_is_defined s ≡ true
    → s.data_rest ≡ 0
    → s.meta_size ≢ 0
    → s.meta_position + 1 < s.meta_size
    → feed beyond (c ∷ p) s
      ≡ feed beyond p (with_meta s (s.meta_data ++ c ∷ []) (s.meta_position + 1))
meta_step beyond c p s d r m l =
    feed-append beyond (c ∷ []) p s
    ∙ ap (λ o. o >>= feed_more beyond p) (feed_meta beyond (c ∷ []) s d r m l)
    ∙ put_before-nil (feed beyond p (with_meta s (s.meta_data ++ c ∷ []) (s.meta_position + 1)))

no_data-feed :
    (beyond : ℕ) (o : Option IcyMetaDataParser)
    → (no_data o >>= λ r. put_before r.1 (feed beyond [] r.0)) ≡ no_data o
unfolding feed
no_data-feed beyond none = refl
no_data-feed beyond (some t) = refl

-- The last bytes of a block
pub feed_end :
    (beyond c : ℕ) (p : List ℕ) (s : IcyMetaDataParser)
    → icy_is_defined s ≡ true
    → s.data_rest ≡ 0
    → s.meta_size ≢ 0
    → s.meta_position + length (c ∷ p) ≡ s.meta_size
    → feed beyond (c ∷ p) s
      ≡ no_data
          (end_block beyond (with_meta s (s.meta_data ++ c ∷ p) (s.meta_position + length (c ∷ p))))
unfolding feed byte_step
feed_end beyond c [] s d r m l =
    let rest : (s.data_rest == 0) ≡ true = ground (arith, r) in
    let inside : (s.meta_size == 0) ≡ false = ground (arith, m) in
    let ends : (s.meta_position + 1 == s.meta_size) ≡ true = ground (arith, l) in
    simp (d, rest, inside, ends)
      (no_data-feed beyond
        (end_block beyond (with_meta s (s.meta_data ++ c ∷ []) (s.meta_position + 1))))
feed_end beyond c (e ∷ p) s d r m l =
    let step = meta_step beyond c (e ∷ p) s d r m (omega arith) in
    let ih =
      feed_end beyond e p (with_meta s (s.meta_data ++ c ∷ []) (s.meta_position + 1)) d r m
        (omega arith) in
    let sizes : s.meta_position + 1 + length (e ∷ p) ≡ s.meta_position + length (c ∷ e ∷ p) =
      omega arith in
    step
    ∙ ih
    ∙ ap (λ t. no_data (end_block beyond t))
        (ap₂ (with_meta s) (append_assoc s.meta_data (c ∷ []) (e ∷ p)) sizes)

-- No metadata comes: the data goes on.
pub feed_empty_block :
    (beyond c : ℕ) (p : List ℕ) (s : IcyMetaDataParser)
    → icy_is_defined s ≡ true
    → s.data_rest ≡ 0
    → (s.meta_size == 0) ≡ true
    → (c * 16 == 0) ≡ true
    → feed beyond (c ∷ p) s ≡ feed beyond p (record s { meta_size = 0; data_rest = s.data_size })
unfolding feed byte_step
feed_empty_block beyond c p s d r z e =
    let rest : (s.data_rest == 0) ≡ true = ground (arith, r) in
    simp (d, rest, z, e)
      (put_before-nil (feed beyond p (record s { meta_size = 0; data_rest = s.data_size })))

-- A block begins.
pub feed_block :
    (beyond c : ℕ) (p : List ℕ) (s : IcyMetaDataParser)
    → icy_is_defined s ≡ true
    → s.data_rest ≡ 0
    → (s.meta_size == 0) ≡ true
    → (c * 16 == 0) ≡ false
    → feed beyond (c ∷ p) s
      ≡ feed beyond p (record s { meta_size = c * 16; meta_position = 0; meta_data = [] })
unfolding feed byte_step
feed_block beyond c p s d r z e =
    let rest : (s.data_rest == 0) ≡ true = ground (arith, r) in
    simp (d, rest, z, e)
      (put_before-nil
        (feed beyond p (record s { meta_size = c * 16; meta_position = 0; meta_data = [] })))
