-- ===== src/Icy/Text/RoundTrip.antt =====
-- A block with one title, as a server writes it, and icy_parse_tag (IcyMetaDataParser.cxx).
use mpd_dsd.Prelude.{ℕ, zero, suc, Bool, true, not, ◌&&◌, List, [], ◌∷◌, ◌++◌, ◌==◌}
use mpd_dsd.Icy.Text.{quote, equals, stream_title}
use mpd_dsd.Icy.Text.Ends.{closed}

-- A text that ends with its bytes.
abbrev pub has_no_zero : List ℕ → Bool
has_no_zero [] = true
has_no_zero (c ∷ cs) = not (c == 0) && has_no_zero cs

-- The bytes that fill a block.
abbrev pub zeros : ℕ → List ℕ
zeros zero = []
zeros (suc n) = 0 ∷ zeros n

-- StreamTitle='...';
abbrev pub title_block : List ℕ → ℕ → List ℕ
title_block title n = stream_title ++ equals ∷ quote ∷ closed title (zeros n)
