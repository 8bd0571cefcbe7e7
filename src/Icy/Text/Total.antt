-- ===== src/Icy/Text/Total.antt =====
-- The rounds of icy_parse_tag (IcyMetaDataParser.cxx).
use mpd_dsd.Prelude.{
  ℕ, zero, suc, ◌<◌, ◌≤◌, ◌≢◌, arith, Option, none, some, List, [], ◌∷◌, ◌==◌, ◌>>=◌, length, take,
  drop, length-drop, if_cases, Yields, Yields->>=, Yields-map,
}
use mpd_dsd.Icy.Text.{
  quote, semicolon, equals, find, find_end_quote, Titles, quoted_value, named_value, next_item,
  behind_semicolon, parse_value, parse_behind, parse_item, icy_parse_items, icy_parse_tag,
}

-- The text goes on with fewer bytes, if it does.
abbrev GoesOnBelow : ℕ → Option (List ℕ) → Type 0
GoesOnBelow n none = Unit
GoesOnBelow n (some p) = length p < n

GoesOnBelow-mono : {m n : ℕ} (o : Option (List ℕ)) → m ≤ n → GoesOnBelow m o → GoesOnBelow n o
GoesOnBelow-mono none l h = tt
GoesOnBelow-mono (some p) l h = omega arith

semicolon_below :
    (c : ℕ) (p : List ℕ) (o : Option ℕ)
    → GoesOnBelow (suc (length p)) (o >>= λ i. some (drop (suc i) (c ∷ p)))
semicolon_below c p none = tt
semicolon_below c p (some i) = omega (arith, length-drop i p)

behind_below : (p : List ℕ) → GoesOnBelow (length p) (behind_semicolon p)
unfolding find
behind_below [] = tt
behind_below (c ∷ p) = semicolon_below c p (find semicolon (c ∷ p))

value_below :
    (tag : Titles) (name p : List ℕ) (o : Option ℕ)
    → GoesOnBelow (suc (length p)) (quoted_value tag name p o).1
value_below tag name p none = tt
value_below tag name p (some i) =
    GoesOnBelow-mono (behind_semicolon (drop (suc i) p)) (omega (arith, length-drop (suc i) p))
      (behind_below (drop (suc i) p))

-- A round that the text outlives takes a byte at least.
abbrev Shortens : ℕ → Titles × Option (List ℕ) → Type 0
Shortens n r = GoesOnBelow n r.1

parse_behind_below :
    (beyond : ℕ) (tag : Titles) (name p : List ℕ)
    → beyond ≢ quote
    → Yields (Shortens (suc (length p))) (parse_behind beyond tag name p)
parse_behind_below beyond tag name [] h =
    if_cases (Yields (Shortens 1)) (beyond == quote) (λ e. absurd (h (ground (arith, e)))) (λ e. tt)
parse_behind_below beyond tag name (c ∷ p) h =
    if_cases (Yields (Shortens (suc (suc (length p))))) (c == quote)
      (λ e.
        GoesOnBelow-mono (parse_value tag name p).1 (omega arith)
          (value_below tag name p (find_end_quote p)))
      (λ e. GoesOnBelow-mono (behind_semicolon (c ∷ p)) (omega arith) (behind_below (c ∷ p)))

parse_item_below :
    (beyond : ℕ) (tag : Titles) (c : ℕ) (p : List ℕ) (o : Option ℕ)
    → beyond ≢ quote
    → Yields (Shortens (suc (length p))) (named_value beyond tag (c ∷ p) o)
parse_item_below beyond tag c p none h = tt
parse_item_below beyond tag c p (some i) h =
    Yields-map (Shortens (suc (length (drop i p)))) (Shortens (suc (length p))) _
      (parse_behind_below beyond tag (take i (c ∷ p)) (drop i p) h)
      (λ r k. GoesOnBelow-mono r.1 (omega (arith, length-drop i p)) k)

next_ends :
    (n : ℕ) (again : Titles → List ℕ → Option Titles)
    → ((t : Titles) (q : List ℕ) → length q ≤ n → Yields (λ _. Unit) (again t q))
    → (r : Titles × Option (List ℕ)) → Shortens (suc n) r
    → Yields (λ _. Unit) (next_item again r)
next_ends n again ih (t, none) k = tt
next_ends n again ih (t, some q) k = ih t q (omega arith)

items_end :
    (fuel beyond : ℕ) (tag : Titles) (p : List ℕ)
    → beyond ≢ quote
    → length p ≤ fuel
    → Yields (λ _. Unit) (icy_parse_items fuel beyond tag p)
unfolding icy_parse_items
items_end fuel beyond tag [] h l = tt
items_end zero beyond tag (c ∷ p) h l = absurd (omega arith)
items_end (suc fuel) beyond tag (c ∷ p) h l =
    Yields->>= (Shortens (suc (length p))) (λ _. Unit) (parse_item beyond tag (c ∷ p)) _
      (parse_item_below beyond tag c p (find equals (c ∷ p)) h)
      (next_ends (length p) (icy_parse_items fuel beyond)
        (λ t q k. items_end fuel beyond t q h (omega arith)))

-- icy_parse_tag ends within as many rounds as the text has bytes, and does not leave the text,
-- unless the byte behind the text is a single quote.
pub icy_parse_tag_ends :
    (beyond : ℕ) (p : List ℕ) → beyond ≢ quote → Yields (λ _. Unit) (icy_parse_tag beyond p)
unfolding icy_parse_tag
icy_parse_tag_ends beyond p h = items_end (length p) beyond [] p h (omega arith)
