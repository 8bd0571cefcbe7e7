-- ===== src/Icy/Parser/Reads.antt =====
-- Meta of IcyMetaDataParser.cxx on a piece of the stream, beside the parser of single bytes.
use native.Mathlib.Nat.{min-eq_left}
use mpd_dsd.Prelude.{
  Allows, Allows->>=, Allows-map, ℕ, suc, ◌+◌, ◌-◌, ◌*◌, ◌<◌, ◌≤◌, ◌≡◌, ◌≢◌, refl, sym, ap, ◌∙◌,
  arith, Option, none, some, true, false, List, [], ◌∷◌, ◌++◌, ◌==◌, if◌then◌else◌, ◌>>=◌, length,
  take, drop, min, take-append-drop, length-take, if_cases, dec_lt, Bool-cases, inl, inr,
}
use mpd_dsd.Icy.Text.{Titles, icy_parse_tag}
use mpd_dsd.Icy.Parser.{
  IcyMetaDataParser, icy_is_defined, end_block, meta_block, meta_begin, meta_bytes,
}
use mpd_dsd.Icy.Parser.Bytes.{
  no_data, feed, feed_more, put_before-nil, feed-append, with_meta, feed_meta, feed_end,
  feed_empty_block, feed_block,
}

-- Between two bytes: within a block its bytes are counted, and one is missing at least.
pub record IsParser (s : IcyMetaDataParser) : Type 0 where
  pub inside : s.meta_size ≢ 0 → s.meta_position < s.meta_size

pub take-all : (p : List ℕ) → take (length p) p ≡ p
take-all [] = refl
take-all (c ∷ p) = ap (λ q. c ∷ q) (take-all p)

pub drop-all : (p : List ℕ) → drop (length p) p ≡ []
drop-all [] = refl
drop-all (c ∷ p) = drop-all p

-- What is read as metadata, and what the parser does with the rest.
abbrev pub meta_then : ℕ → List ℕ → IcyMetaDataParser × ℕ → Option (IcyMetaDataParser × List ℕ)
meta_then beyond p r = feed beyond (drop r.1 p) r.0

-- The bytes of the block, all or up to its end.
abbrev block_read : ℕ → ℕ → List ℕ → IcyMetaDataParser → Option (IcyMetaDataParser × ℕ)
block_read beyond n p s =
    let t = with_meta s (s.meta_data ++ take n p) (s.meta_position + n) in
    (if t.meta_position == t.meta_size then end_block beyond t else some t) >>= λ u. some (u, n)

block_whole :
    (beyond : ℕ) (p : List ℕ) (s : IcyMetaDataParser)
    → icy_is_defined s ≡ true
    → s.data_rest ≡ 0
    → s.meta_size ≢ 0
    → s.meta_position + length p < s.meta_size
    → feed beyond p s ≡ (block_read beyond (length p) p s >>= meta_then beyond p)
unfolding feed
block_whole beyond p s d r m l =
    let goes_on : (s.meta_position + length p == s.meta_size) ≡ false = ground (arith, l) in
    simp (goes_on, take-all p, drop-all p) (feed_meta beyond p s d r m l)

after_block :
    (beyond k c : ℕ) (p : List ℕ) (o : Option IcyMetaDataParser)
    → (no_data o >>= feed_more beyond (drop k p))
      ≡ ((o >>= λ u. some (u, suc k)) >>= meta_then beyond (c ∷ p))
after_block beyond k c p none = refl
after_block beyond k c p (some u) = put_before-nil (feed beyond (drop k p) u)

block_cut :
    (beyond k : ℕ) (p : List ℕ) (s : IcyMetaDataParser)
    → icy_is_defined s ≡ true
    → s.data_rest ≡ 0
    → s.meta_size ≢ 0
    → s.meta_position + suc k ≡ s.meta_size
    → suc k ≤ length p
    → feed beyond p s ≡ (block_read beyond (suc k) p s >>= meta_then beyond p)
block_cut beyond k (c ∷ p) s d r m e l =
    let sizes : s.meta_position + length (c ∷ take k p) ≡ s.meta_size =
      omega (arith, length-take k p) in
    let same : s.meta_position + length (c ∷ take k p) ≡ s.meta_position + suc k =
      omega (arith, length-take k p) in
    let ends : (s.meta_position + suc k == s.meta_size) ≡ true = ground (arith, e) in
    ap (λ q. feed beyond (c ∷ q) s) (sym (take-append-drop k p))
    ∙ feed-append beyond (c ∷ take k p) (drop k p) s
    ∙ ap (λ o. o >>= feed_more beyond (drop k p))
        (feed_end beyond c (take k p) s d r m sizes
          ∙ ap (λ j. no_data (end_block beyond (with_meta s (s.meta_data ++ c ∷ take k p) j))) same)
    ∙ simp ends (
        after_block beyond k c p
          (end_block beyond (with_meta s (s.meta_data ++ c ∷ take k p) (s.meta_position + suc k))))
block_cut beyond k [] s d r m e l = absurd (omega arith)

-- The part of a block that has come.
meta_block_lem :
    (beyond : ℕ) (p : List ℕ) (s : IcyMetaDataParser)
    → icy_is_defined s ≡ true
    → s.data_rest ≡ 0
    → s.meta_size ≢ 0
    → s.meta_position < s.meta_size
    → feed beyond p s ≡ (meta_block beyond p s >>= meta_then beyond p)
meta_block_lem beyond p s d r m l = elim (dec_lt (length p) (s.meta_size - s.meta_position)) [
  | yes h ↦
      block_whole beyond p s d r m (omega arith)
      ∙ ap (λ n. block_read beyond n p s >>= meta_then beyond p) (sym (min-eq_left (omega arith)))
  | no h ↦
      let k = s.meta_size - s.meta_position - 1 in
      let n : suc k ≡ min (length p) (s.meta_size - s.meta_position) = omega arith in
      block_cut beyond k p s d r m (omega arith) (omega arith)
      ∙ ap (λ n. block_read beyond n p s >>= meta_then beyond p) n
]

drop_next : (n c : ℕ) (p : List ℕ) → drop (n + 1) (c ∷ p) ≡ drop n p
drop_next n c p = let e : n + 1 ≡ suc n = omega arith in ap (λ k. drop k (c ∷ p)) e

one_more :
    (beyond c : ℕ) (p : List ℕ) (o : Option (IcyMetaDataParser × ℕ))
    → (o >>= meta_then beyond p) ≡ ((o >>= λ r. some (r.0, r.1 + 1)) >>= meta_then beyond (c ∷ p))
one_more beyond c p none = refl
one_more beyond c p (some (u, n)) = ap (λ q. feed beyond q u) (sym (drop_next n c p))

meta_begin_lem :
    (beyond c : ℕ) (p : List ℕ) (s : IcyMetaDataParser)
    → icy_is_defined s ≡ true
    → s.data_rest ≡ 0
    → (s.meta_size == 0) ≡ true
    → feed beyond (c ∷ p) s ≡ (meta_begin beyond c p s >>= meta_then beyond (c ∷ p))
meta_begin_lem beyond c p s d r z = elim (Bool-cases (c * 16 == 0)) [
  | inl e ↦ feed_empty_block beyond c p s d r z e ∙ simp e refl
  | inr e ↦
      let t : IcyMetaDataParser = record s {
        meta_size = c * 16;
        meta_position = 0;
        meta_data = [];
      } in
      let whole =
        feed_block beyond c p s d r z e
        ∙ meta_block_lem beyond p t d r (ground (arith, e)) (ground (arith, e))
        ∙ one_more beyond c p (meta_block beyond p t) in
      simp e whole
]

-- Meta takes the bytes that are metadata.
pub meta_bytes_lem :
    (beyond c : ℕ) (p : List ℕ) (s : IcyMetaDataParser)
    → icy_is_defined s ≡ true
    → s.data_rest ≡ 0
    → IsParser s
    → feed beyond (c ∷ p) s ≡ (meta_bytes beyond (c ∷ p) s >>= meta_then beyond (c ∷ p))
unfolding meta_bytes
meta_bytes_lem beyond c p s d r h = elim (Bool-cases (s.meta_size == 0)) [
  | inl z ↦ simp z (meta_begin_lem beyond c p s d r z)
  | inr z ↦
      simp z
        (meta_block_lem beyond (c ∷ p) s d r (ground (arith, z)) (h.inside (ground (arith, z))))
]

-- What Meta leaves: that many bytes are taken, and the parser is between two bytes.
abbrev HasTaken : ℕ → IcyMetaDataParser × ℕ → Type 0
HasTaken n r = (r.1 ≡ n) × IsParser r.0

pub end_block-IsParser : (beyond : ℕ) (s : IcyMetaDataParser) → Allows IsParser (end_block beyond s)
end_block-IsParser beyond s =
    Allows->>= (λ _. Unit) IsParser (icy_parse_tag beyond s.meta_data) _
      (anything (icy_parse_tag beyond s.meta_data))
      (λ t u. record { inside = λ n. absurd (n refl) })
  where
    anything : (o : Option Titles) → Allows (λ _. Unit) o
    anything none = tt
    anything (some t) = tt

block_takes :
    (beyond n : ℕ) (p : List ℕ) (s : IcyMetaDataParser)
    → n ≤ s.meta_size - s.meta_position
    → s.meta_position < s.meta_size
    → Allows (HasTaken n) (block_read beyond n p s)
block_takes beyond n p s l h =
    Allows->>= IsParser (HasTaken n)
      (if t.meta_position == t.meta_size then end_block beyond t else some t) _
      (if_cases (Allows IsParser) (t.meta_position == t.meta_size)
        (λ e. end_block-IsParser beyond t) (λ e. record { inside = λ m. ground (arith, e, l, h) }))
      (λ u k. (refl, k))
  where
    t : IcyMetaDataParser
    t = with_meta s (s.meta_data ++ take n p) (s.meta_position + n)

abbrev pub Progresses : IcyMetaDataParser × ℕ → Type 0
Progresses r = (0 < r.1) × IsParser r.0

pub meta_bytes_progress :
    (beyond c : ℕ) (p : List ℕ) (s : IcyMetaDataParser)
    → IsParser s
    → Allows Progresses (meta_bytes beyond (c ∷ p) s)
unfolding meta_bytes
meta_bytes_progress beyond c p s h =
    if_cases (Allows Progresses) (s.meta_size == 0)
      (λ z.
        if_cases (Allows Progresses) (c * 16 == 0)
          (λ e. (omega arith, record { inside = λ n. absurd (n refl) }))
          (λ e.
            Allows->>= (HasTaken (min (length p) (c * 16 - 0))) Progresses
              (meta_block beyond p (begun s)) _
              (block_takes beyond (min (length p) (c * 16 - 0)) p (begun s) (omega arith)
                (ground (arith, e)))
              (λ r k. (omega arith, k.1))))
      (λ z.
        Allows-map (HasTaken (min (suc (length p)) (s.meta_size - s.meta_position))) Progresses
          (meta_block beyond (c ∷ p) s)
          (block_takes beyond (min (suc (length p)) (s.meta_size - s.meta_position)) (c ∷ p) s
            (omega arith) (h.inside (ground (arith, z))))
          (λ r k. (let l = h.inside (ground (arith, z)) in omega (arith, l, k.0), k.1)))
  where
    begun : IcyMetaDataParser → IcyMetaDataParser
    begun s = record s { meta_size = c * 16; meta_position = 0; meta_data = [] }
