-- ===== src/Icy/Parser/Cuts.antt =====
-- How the buffers of read_from_buffer cut the stream.
use mpd_dsd.Prelude.{
  Allows, Allows-some, Allows->>=, ℕ, ◌+◌, ◌*◌, ◌≤◌, ◌≡◌, ◌≢◌, refl, sym, ap, ◌∙◌, arith, Option,
  none, some, not, List, [], ◌∷◌, ◌++◌, ◌==◌, ◌>>=◌, length, length-append, if_cases,
}
use mpd_dsd.Icy.Parser.{IcyMetaDataParser, icy_is_defined, put_before, read_loop}
use mpd_dsd.Icy.Parser.Bytes.{
  meta_byte, no_data, byte_step, feed, feed_more, >>=_congr, feed-append,
}
use mpd_dsd.Icy.Parser.Reads.{IsParser, end_block-IsParser}
use mpd_dsd.Icy.Parser.Loop.{read_loop_lem}

-- Between two bytes, whatever data has come.
abbrev LeavesParser : IcyMetaDataParser × List ℕ → Type 0
LeavesParser r = IsParser r.0

meta_byte-IsParser :
    (beyond c : ℕ) (s : IcyMetaDataParser) → IsParser s → Allows IsParser (meta_byte beyond c s)
meta_byte-IsParser beyond c s h =
    if_cases (Allows IsParser) (s.meta_size == 0)
      (λ z.
        if_cases (Allows IsParser) (c * 16 == 0) (λ e. record { inside = λ n. absurd (n refl) })
          (λ e. record { inside = λ n. ground (arith, e) }))
      (λ z.
        if_cases (Allows IsParser) (s.meta_position + 1 == s.meta_size)
          (λ e.
            end_block-IsParser beyond
              (record s { meta_data = s.meta_data ++ c ∷ []; meta_position = s.meta_position + 1 }))
          (λ e. record { inside = λ n. let l = h.inside n in ground (arith, e, l) }))

no_data-IsParser :
    (o : Option IcyMetaDataParser) → Allows IsParser o → Allows LeavesParser (no_data o)
no_data-IsParser none h = tt
no_data-IsParser (some s) h = h

put_before-IsParser :
    (xs : List ℕ) (o : Option (IcyMetaDataParser × List ℕ))
    → Allows LeavesParser o
    → Allows LeavesParser (put_before xs o)
put_before-IsParser xs none h = tt
put_before-IsParser xs (some r) h = h

byte_step-IsParser :
    (beyond c : ℕ) (s : IcyMetaDataParser) → IsParser s → Allows LeavesParser (byte_step beyond c s)
unfolding byte_step
byte_step-IsParser beyond c s h =
    if_cases (Allows LeavesParser) (not (icy_is_defined s)) (λ u. h)
      (λ u.
        if_cases (Allows LeavesParser) (not (s.data_rest == 0)) (λ e. record { inside = h.inside })
          (λ e. no_data-IsParser (meta_byte beyond c s) (meta_byte-IsParser beyond c s h)))

feed-IsParser :
    (beyond : ℕ) (p : List ℕ) (s : IcyMetaDataParser)
    → IsParser s
    → Allows LeavesParser (feed beyond p s)
unfolding feed
feed-IsParser beyond [] s h = h
feed-IsParser beyond (c ∷ p) s h =
    Allows->>= LeavesParser LeavesParser (byte_step beyond c s) _ (byte_step-IsParser beyond c s h)
      (λ r k. put_before-IsParser r.1 (feed beyond p r.0) (feed-IsParser beyond p r.0 k))

-- The rest of the stream, in the next buffer.
abbrev pub read_more :
    ℕ → ℕ → List ℕ → IcyMetaDataParser × List ℕ → Option (IcyMetaDataParser × List ℕ)
read_more fuel beyond q r = put_before r.1 (read_loop fuel beyond q r.0)

append_not_nil : (p q : List ℕ) → p ≢ [] → p ++ q ≢ []
append_not_nil [] q n = absurd (n refl)
append_not_nil (c ∷ p) q n = cc

-- Where the buffers cut the stream makes no difference: two pieces that are read one behind the
-- other leave the same parser, with the same tag, and the same data as both in one piece.
pub read_loop-append :
    (fuel beyond : ℕ) (p q : List ℕ) (s : IcyMetaDataParser)
    → p ≢ []
    → q ≢ []
    → length p + length q ≤ fuel
    → IsParser s
    → (read_loop fuel beyond p s >>= read_more fuel beyond q) ≡ read_loop fuel beyond (p ++ q) s
read_loop-append fuel beyond p q s np nq l h =
    ap (λ o. o >>= read_more fuel beyond q) (read_loop_lem fuel beyond p s np (omega arith) h)
    ∙ >>=_congr (feed beyond p s) _ (feed_more beyond q) (λ r e. ap (put_before r.1) (
        read_loop_lem fuel beyond q r.0 nq (omega arith)
          (Allows-some LeavesParser (feed beyond p s) e (feed-IsParser beyond p s h))))
    ∙ sym (feed-append beyond p q s)
    ∙ sym (
        read_loop_lem fuel beyond (p ++ q) s (append_not_nil p q np)
          (omega (arith, length-append p q)) h)
