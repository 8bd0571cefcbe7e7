-- ===== src/Icy/Text/Ends.antt =====
-- find_end_quote of IcyMetaDataParser.cxx: where a value in single quotes ends.
use mpd_dsd.Prelude.{
  ℕ, suc, ◌+◌, ◌≡◌, refl, ap, ◌∙◌, arith, Option, none, some, Bool, true, false, not, ◌&&◌, List,
  [], ◌∷◌, ◌++◌, ◌==◌, if◌then◌else◌, ◌>>=◌, length, drop, Bool-cases, inl, inr,
}
use mpd_dsd.Icy.Text.{quote, semicolon, find, ends_value, search_end, find_end_quote}

-- The text begins with a semicolon.
abbrev pub starts_end : List ℕ → Bool
starts_end [] = false
starts_end (c ∷ cs) = c == semicolon

-- No single quote of the text is followed by a semicolon.
abbrev pub has_no_end : List ℕ → Bool
has_no_end [] = true
has_no_end (c ∷ cs) = not (c == quote && starts_end cs) && has_no_end cs

-- The single quote and the semicolon behind a value, and what follows.
abbrev pub closed : List ℕ → List ℕ → List ℕ
closed xs r = xs ++ quote ∷ semicolon ∷ r

search_end-shift :
    (fallback i : ℕ) (p : List ℕ)
    → search_end (suc fallback) (suc i) p ≡ suc (search_end fallback i p)
unfolding search_end
search_end-shift fallback i [] = refl
search_end-shift fallback i (c ∷ cs) = elim (Bool-cases (c == quote && ends_value cs)) [
  | inl e ↦ simp e refl
  | inr e ↦ simp e (search_end-shift fallback (suc i) cs)
]

ends_value-closed : (xs r : List ℕ) → ends_value (closed xs r) ≡ starts_end xs
ends_value-closed [] r = refl
ends_value-closed (c ∷ xs) r = refl

search_end-closed :
    (fallback i : ℕ) (xs r : List ℕ)
    → has_no_end xs ≡ true
    → search_end fallback i (closed xs r) ≡ i + length xs
unfolding search_end
search_end-closed fallback i [] r h = omega arith
search_end-closed fallback i (c ∷ xs) r h =
    let goes_on : (c == quote && starts_end xs) ≡ false = ground (arith, h) in
    let ih = search_end-closed fallback (suc i) xs r (ground (arith, h)) in
    simp (ends_value-closed xs r, goes_on, ih) (omega arith)

abbrev end_from : List ℕ → ℕ → Option ℕ
end_from p fallback =
    let behind = drop (suc fallback) p in
    some (if ends_value behind then fallback else search_end fallback (suc fallback) behind)

end_from-shift :
    (c : ℕ) (p : List ℕ) (fallback : ℕ)
    → end_from (c ∷ p) (suc fallback) ≡ (end_from p fallback >>= λ i. some (suc i))
end_from-shift c p fallback = elim (Bool-cases (ends_value (drop (suc fallback) p))) [
  | inl e ↦ simp e refl
  | inr e ↦ simp e (ap some (search_end-shift fallback (suc fallback) (drop (suc fallback) p)))
]

end_shift :
    (c : ℕ) (p : List ℕ) (o : Option ℕ)
    → ((o >>= λ i. some (suc i)) >>= end_from (c ∷ p)) ≡ ((o >>= end_from p) >>= λ i. some (suc i))
end_shift c p none = refl
end_shift c p (some i) = end_from-shift c p i

-- The end of a value is found behind all its single quotes.
pub find_end_quote-closed :
    (xs r : List ℕ) → has_no_end xs ≡ true → find_end_quote (closed xs r) ≡ some (length xs)
unfolding find_end_quote find
find_end_quote-closed [] r h = refl
find_end_quote-closed (c ∷ xs) r h = elim (Bool-cases (c == quote)) [
  | inl e ↦
      let goes_on : starts_end xs ≡ false = ground (arith, h, e) in
      let plus_one : 1 + length xs ≡ suc (length xs) = omega arith in
      simp (e, ends_value-closed xs r, goes_on)
        (ap some (search_end-closed 0 1 xs r (ground (arith, h)) ∙ plus_one))
  | inr e ↦
      let ih = find_end_quote-closed xs r (ground (arith, h)) in
      simp e (
        end_shift c (closed xs r) (find quote (closed xs r)) ∙ ap (λ o. o >>= λ i. some (suc i)) ih)
]
