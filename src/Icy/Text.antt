-- ===== src/Icy/Text.antt =====
-- The text of a block of metadata, up to its tag items: IcyMetaDataParser.cxx. A pointer is the list of
-- the bytes from it to the end.
pub mod Ends
pub mod Total
pub mod RoundTrip
use mpd_dsd.Prelude.{
  ℕ, zero, suc, ◌+◌, ◌-◌, ◌≡◌, Option, none, some, Bool, true, false, not, ◌&&◌, ◌||◌, List, [],
  ◌∷◌, ◌++◌, leb, ltb, ◌==◌, if◌then◌else◌, ◌>>=◌, length, take, drop,
}

abbrev pub quote : ℕ
quote = 39

abbrev pub semicolon : ℕ
semicolon = 59

abbrev pub equals : ℕ
equals = 61

-- The bytes up to the first 0.
abbrev pub c_string : List ℕ → List ℕ
c_string [] = []
c_string (c ∷ cs) = if c == 0 then [] else c ∷ c_string cs

-- strcmp(a, b) == 0
abbrev pub same_text : List ℕ → List ℕ → Bool
same_text [] [] = true
same_text (a ∷ as') (b ∷ bs) = a == b && same_text as' bs
same_text _ _ = false

-- std::find: the offset of a byte.
unfoldable pub find : ℕ → List ℕ → Option ℕ
find c [] = none
find c (x ∷ xs) = if x == c then some 0 else (find c xs >>= λ i. some (suc i))

-- "StreamTitle"
abbrev pub stream_title : List ℕ
stream_title = 83 ∷ 116 ∷ 114 ∷ 101 ∷ 97 ∷ 109 ∷ 84 ∷ 105 ∷ 116 ∷ 108 ∷ 101 ∷ []

-- At the end of the text, or before a semicolon.
abbrev pub ends_value : List ℕ → Bool
ends_value [] = true
ends_value (c ∷ cs) = c == semicolon

-- The loop of find_end_quote, at the offset i.
unfoldable pub search_end : ℕ → ℕ → List ℕ → ℕ
search_end fallback i [] = fallback
search_end fallback i (c ∷ cs) =
    let rest = search_end fallback (suc i) cs in if c == quote && ends_value cs then i else rest

unfoldable pub find_end_quote : List ℕ → Option ℕ
find_end_quote p = find quote p >>= λ fallback.
    let behind = drop (suc fallback) p in
    some (if ends_value behind then fallback else search_end fallback (suc fallback) behind)

-- Single quotes around the text are stripped.
abbrev pub last_is_quote : List ℕ → Bool
last_is_quote [] = false
last_is_quote (c ∷ []) = c == quote
last_is_quote (c ∷ d ∷ cs) = last_is_quote (d ∷ cs)

abbrev pub is_quoted : List ℕ → Bool
is_quoted [] = false
is_quoted (c ∷ cs) = c == quote && last_is_quote cs

abbrev pub strip : List ℕ → List ℕ
strip value = if is_quoted value then take (length value - 2) (drop 1 value) else value

abbrev pub is_nil : List ℕ → Bool
is_nil [] = true
is_nil (c ∷ cs) = false

-- The titles of a tag, in order.
abbrev pub Titles : Type 0
Titles = List (List ℕ)

unfoldable pub icy_add_item : Titles → List ℕ → Titles
icy_add_item tag value = if is_nil (strip value) then tag else tag ++ strip value ∷ []

unfoldable pub icy_parse_tag_item : Titles → List ℕ → List ℕ → Titles
icy_parse_tag_item tag name value =
    if same_text (c_string name) stream_title then icy_add_item tag (c_string value) else tag

-- Where the text goes on after a semicolon.
abbrev pub behind_semicolon : List ℕ → Option (List ℕ)
behind_semicolon p = find semicolon p >>= λ i. some (drop (suc i) p)

-- The value ends with a single quote at an offset, or does not.
abbrev pub quoted_value : Titles → List ℕ → List ℕ → Option ℕ → Titles × Option (List ℕ)
quoted_value tag name p none = (tag, none)
quoted_value tag name p (some i) =
    (icy_parse_tag_item tag name (take i p), behind_semicolon (drop (suc i) p))

-- The parsing of a value in single quotes: the tag, and where the text goes on, if it does.
abbrev pub parse_value : Titles → List ℕ → List ℕ → Titles × Option (List ℕ)
parse_value tag name p = quoted_value tag name p (find_end_quote p)

-- What stands behind the equals sign; `beyond` is the byte at the end of the text, which is read where
-- nothing stands behind the sign. No result where the code would leave the text.
abbrev pub parse_behind : ℕ → Titles → List ℕ → List ℕ → Option (Titles × Option (List ℕ))
parse_behind beyond tag name [] = if beyond == quote then none else some (tag, none)
parse_behind beyond tag name (c ∷ cs) =
    if c == quote then some (parse_value tag name cs) else some (tag, behind_semicolon (c ∷ cs))

-- An equals sign at an offset, or none.
abbrev pub named_value : ℕ → Titles → List ℕ → Option ℕ → Option (Titles × Option (List ℕ))
named_value beyond tag p none = some (tag, none)
named_value beyond tag p (some i) = parse_behind beyond tag (take i p) (drop (suc i) p)

-- A round of the loop of icy_parse_tag.
abbrev pub parse_item : ℕ → Titles → List ℕ → Option (Titles × Option (List ℕ))
parse_item beyond tag p = named_value beyond tag p (find equals p)

abbrev pub next_item : (Titles → List ℕ → Option Titles) → Titles × Option (List ℕ) → Option Titles
next_item again (tag, none) = some tag
next_item again (tag, some p) = again tag p

-- Rounds that do not end within the fuel give no result, too.
unfoldable pub icy_parse_items : ℕ → ℕ → Titles → List ℕ → Option Titles
icy_parse_items fuel beyond tag [] = some tag
icy_parse_items zero beyond tag (c ∷ cs) = none
icy_parse_items (suc fuel) beyond tag (c ∷ cs) =
    parse_item beyond tag (c ∷ cs) >>= next_item (icy_parse_items fuel beyond)

-- icy_parse_tag
unfoldable pub icy_parse_tag : ℕ → List ℕ → Option Titles
icy_parse_tag beyond p = icy_parse_items (length p) beyond [] p
