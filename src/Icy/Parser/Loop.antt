-- ===== src/Icy/Parser/Loop.antt =====
-- The loop of read_from_buffer (input/CurlInputPlugin.cxx), beside the parser of single bytes.
use mathlib.Core.List.{append-nil}
use mpd_dsd.Prelude.{
  Allows-some, ℕ, zero, suc, ◌-◌, ◌<◌, ◌≤◌, ◌≡◌, ◌≢◌, refl, sym, ap, ◌∙◌, arith, Option, some, true,
  false, ◌&&◌, List, [], ◌∷◌, leb, ltb, ◌==◌, ◌>>=◌, length, take, drop, take-append-drop,
  length-drop, length-take, leb→le, if_cases, Bool-cases, inl, inr,
}
use mpd_dsd.Icy.Text.{is_nil}
use mpd_dsd.Icy.Parser.{
  IcyMetaDataParser, icy_is_defined, data_bytes, meta_bytes, put_before, after_data, read_round,
  read_loop,
}
use mpd_dsd.Icy.Parser.Bytes.{feed, feed_more, >>=_congr, feed-append, feed_undefined, feed_data}
use mpd_dsd.Icy.Parser.Reads.{IsParser, meta_then, meta_bytes_lem, Progresses, meta_bytes_progress}

-- What the shorter pieces are read like.
abbrev ReadsUpTo :
    ℕ → ℕ → (List ℕ → IcyMetaDataParser → Option (IcyMetaDataParser × List ℕ)) → Type 0
ReadsUpTo beyond n again =
    (q : List ℕ) (u : IcyMetaDataParser)
    → q ≢ []
    → length q ≤ n
    → IsParser u
    → again q u ≡ feed beyond q u

is_nil-true : (q : List ℕ) → is_nil q ≡ true → q ≡ []
is_nil-true [] e = refl
is_nil-true (c ∷ q) e = absurd (cc)

not_nil : (q : List ℕ) → is_nil q ≡ false → q ≢ []
not_nil [] e n = absurd (cc)
not_nil (c ∷ q) e n = cc

-- Metadata, and what follows in the same piece.
after_data_lem :
    (beyond n c : ℕ) (p : List ℕ) (s : IcyMetaDataParser)
    (again : List ℕ → IcyMetaDataParser → Option (IcyMetaDataParser × List ℕ))
    → ReadsUpTo beyond n again
    → length p ≤ n
    → icy_is_defined s ≡ true
    → s.data_rest ≡ 0
    → IsParser s
    → after_data beyond again (c ∷ p) s ≡ feed beyond (c ∷ p) s
unfolding feed
after_data_lem beyond n c p s again ih l d r h =
    >>=_congr (meta_bytes beyond (c ∷ p) s) _ _ (λ t e.
      let k =
        Allows-some Progresses (meta_bytes beyond (c ∷ p) s) e
          (meta_bytes_progress beyond c p s h) in
      if_cases (λ o. o ≡ meta_then beyond (c ∷ p) t) (is_nil (drop t.1 (c ∷ p)))
        (λ z. sym (ap (λ q. feed beyond q t.0) (is_nil-true (drop t.1 (c ∷ p)) z)))
        (λ z.
          ih (drop t.1 (c ∷ p)) t.0 (not_nil (drop t.1 (c ∷ p)) z)
            (omega (arith, length-drop t.1 (c ∷ p), k.0)) k.1))
    ∙ sym (meta_bytes_lem beyond c p s d r h)

after_data_any :
    (beyond n : ℕ) (q : List ℕ) (s : IcyMetaDataParser)
    (again : List ℕ → IcyMetaDataParser → Option (IcyMetaDataParser × List ℕ))
    → ReadsUpTo beyond n again
    → q ≢ []
    → length q ≤ suc n
    → icy_is_defined s ≡ true
    → s.data_rest ≡ 0
    → IsParser s
    → after_data beyond again q s ≡ feed beyond q s
after_data_any beyond n [] s again ih ne l d r h = absurd (ne refl)
after_data_any beyond n (c ∷ p) s again ih ne l d r h =
    after_data_lem beyond n c p s again ih (omega arith) d r h

-- What is fed first, and the rest.
feed_parts :
    (beyond m : ℕ) (p : List ℕ) (s t : IcyMetaDataParser)
    → feed beyond (take m p) s ≡ some (t, take m p)
    → feed beyond p s ≡ put_before (take m p) (feed beyond (drop m p) t)
feed_parts beyond m p s t f =
    ap (λ q. feed beyond q s) (sym (take-append-drop m p))
    ∙ feed-append beyond (take m p) (drop m p) s
    ∙ ap (λ o. o >>= feed_more beyond (drop m p)) f

rest_not_nil :
    (m : ℕ) (p : List ℕ) → p ≢ [] → (ltb 0 m && is_nil (drop m p)) ≡ false → drop m p ≢ []
rest_not_nil zero p ne e = ne
rest_not_nil (suc m) p ne e = not_nil (drop (suc m) p) (ground (arith, e))

drop_none : (m : ℕ) → drop {A = ℕ} m [] ≡ []
drop_none zero = refl
drop_none (suc m) = refl

-- Nothing is left behind all the bytes.
shorter : (m : ℕ) (p : List ℕ) → drop m p ≢ [] → m < length p
shorter m [] ne = absurd (ne (drop_none m))
shorter zero (c ∷ p) ne = omega arith
shorter (suc m) (c ∷ p) ne = let l = shorter m p ne in omega arith

-- A round that begins with data.
read_round_lem :
    (beyond n m : ℕ) (p : List ℕ) (s t : IcyMetaDataParser)
    (again : List ℕ → IcyMetaDataParser → Option (IcyMetaDataParser × List ℕ))
    → ReadsUpTo beyond n again
    → length p ≤ suc n
    → p ≢ []
    → feed beyond (take m p) s ≡ some (t, take m p)
    → (m < length p → (icy_is_defined t ≡ true) × (t.data_rest ≡ 0) × IsParser t)
    → read_round beyond again p (t, m) ≡ feed beyond p s
unfolding feed
read_round_lem beyond n m p s t again ih l ne f z =
    if_cases (λ o. o ≡ feed beyond p s) (ltb 0 m && is_nil (drop m p))
      (λ e. sym (
        feed_parts beyond m p s t f
        ∙ ap (λ q. put_before (take m p) (feed beyond q t))
            (is_nil-true (drop m p) (ground (arith, e)))
        ∙ ap (λ q. some (t, q)) (append-nil (take m p))))
      (λ e.
        let ne' = rest_not_nil m p ne e in
        let (d, r, h) = z (shorter m p ne') in
        ap (put_before (take m p))
          (after_data_any beyond n (drop m p) t again ih ne' (omega (arith, length-drop m p)) d r h)
        ∙ sym (feed_parts beyond m p s t f))

abbrev with_rest : IcyMetaDataParser → List ℕ → ℕ → Option (IcyMetaDataParser × List ℕ)
with_rest s p k = some (record s { data_rest = k }, p)

-- What Data finds, and what the parser of single bytes makes of that many.
record Splits (beyond : ℕ) (p : List ℕ) (s : IcyMetaDataParser) : Type 0 where
  state : IcyMetaDataParser
  count : ℕ
  found : data_bytes (length p) s ≡ (state, count)
  fed : feed beyond (take count p) s ≡ some (state, take count p)
  ready : count < length p → (icy_is_defined state ≡ true) × (state.data_rest ≡ 0) × IsParser state

data_bytes-Splits :
    (beyond : ℕ) (p : List ℕ) (s : IcyMetaDataParser) → IsParser s → Splits beyond p s
unfolding data_bytes feed
data_bytes-Splits beyond p s h = elim (Bool-cases (icy_is_defined s)) [
  | inr u ↦ record {
    state = s;
    count = length p;
    found = simp u refl;
    fed = feed_undefined beyond (take (length p) p) s u;
    ready = λ l. absurd (omega arith);
  }
  | inl d ↦ elim (Bool-cases (s.data_rest == 0)) [
    | inl z ↦ record {
      state = s;
      count = 0;
      found = simp (d, z) refl;
      fed = refl;
      ready = λ l. (d, ground (arith, z), h);
    }
    | inr z ↦ elim (Bool-cases (leb s.data_rest (length p))) [
      | inl b ↦ record {
        state = record s { data_rest = 0 };
        count = s.data_rest;
        found = simp (d, z, b) refl;
        fed =
            let n : length (take s.data_rest p) ≡ s.data_rest =
              let le = leb→le s.data_rest (length p) b in
              omega (arith, length-take s.data_rest p, le) in
            let e : s.data_rest - length (take s.data_rest p) ≡ 0 = omega arith in
            feed_data beyond (take s.data_rest p) s d (omega arith)
            ∙ ap (with_rest s (take s.data_rest p)) e;
        ready = λ l. (d, refl, record { inside = h.inside });
      }
      | inr b ↦ record {
        state = record s { data_rest = s.data_rest - length p };
        count = length p;
        found = simp (d, z, b) refl;
        fed =
            let n : length (take (length p) p) ≡ length p =
              omega (arith, length-take (length p) p) in
            let e : s.data_rest - length (take (length p) p) ≡ s.data_rest - length p =
              omega arith in
            feed_data beyond (take (length p) p) s d (ground (arith, b, n))
            ∙ ap (with_rest s (take (length p) p)) e;
        ready = λ l. absurd (omega arith);
      }
    ]
  ]
]

-- The loop of read_from_buffer on a piece of the stream that is not empty ends within as many rounds
-- as the piece has bytes, unless the parsing of a block fails, and leaves the parser and the data
-- that a parser of single bytes leaves, wherever the blocks of metadata begin and end in the piece.
pub read_loop_lem :
    (fuel beyond : ℕ) (p : List ℕ) (s : IcyMetaDataParser)
    → p ≢ []
    → length p ≤ fuel
    → IsParser s
    → read_loop fuel beyond p s ≡ feed beyond p s
unfolding read_loop
read_loop_lem zero beyond [] s ne l h = absurd (ne refl)
read_loop_lem zero beyond (c ∷ p) s ne l h = absurd (omega arith)
read_loop_lem (suc fuel) beyond p s ne l h =
    let k = data_bytes-Splits beyond p s h in
    ap (read_round beyond (read_loop fuel beyond) p) k.found
    ∙ read_round_lem beyond fuel k.count p s k.state (read_loop fuel beyond)
        (λ q u. read_loop_lem fuel beyond q u) l ne k.fed k.ready
