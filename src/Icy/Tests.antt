-- ===== src/Icy/Tests.antt =====
-- A stream with a title behind every two bytes of data: the theorems of its metadata at work.
use mpd_dsd.Prelude.{ℕ, ◌≡◌, refl, arith, none, some, [], ◌∷◌, ◌++◌, List, ◌>>=◌, Yields}
use mpd_dsd.Icy.Text.{
  equals, find, find_end_quote, icy_add_item, icy_parse_tag_item, icy_parse_items, icy_parse_tag,
}
use mpd_dsd.Icy.Text.Total.{icy_parse_tag_ends}
use mpd_dsd.Icy.Text.RoundTrip.{title_block}
use mpd_dsd.Icy.Parser.{IcyMetaDataParser, data_bytes, meta_bytes, read_loop}
use mpd_dsd.Icy.Parser.Bytes.{feed}
use mpd_dsd.Icy.Parser.Reads.{IsParser}
use mpd_dsd.Icy.Parser.Loop.{read_loop_lem}
use mpd_dsd.Icy.Parser.Cuts.{read_more, read_loop-append}

-- It's; with a single quote inside
abbrev title : List ℕ
title = 73 ∷ 116 ∷ 39 ∷ 115 ∷ []

abbrev parser : IcyMetaDataParser
parser = record {
  data_size = 2;
  data_rest = 2;
  meta_size = 0;
  meta_position = 0;
  meta_data = [];
  tag = none;
}

parser-IsParser : IsParser parser
parser-IsParser = record { inside = λ n. absurd (n refl) }

-- Two bytes of data, a block of one title, two bytes of data, an empty block.
abbrev first_piece : List ℕ
first_piece = 7 ∷ 8 ∷ 1 ∷ title_block (65 ∷ []) 0

abbrev second_piece : List ℕ
second_piece = 9 ∷ 10 ∷ 0 ∷ 11 ∷ []

read_test :
    read_loop 30 0 (first_piece ++ second_piece) parser
    ≡ some (
      record parser {
        data_rest = 1;
        meta_position = 16;
        meta_data = title_block (65 ∷ []) 0;
        tag = some ((65 ∷ []) ∷ []);
      },
      7 ∷ 8 ∷ 9 ∷ 10 ∷ 11 ∷ [],
    )
unfolding read_loop data_bytes meta_bytes icy_parse_tag icy_parse_items find find_end_quote
    icy_parse_tag_item icy_add_item
read_test = refl

read_loop_lem_example : read_loop 30 0 first_piece parser ≡ feed 0 first_piece parser
read_loop_lem_example = read_loop_lem 30 0 first_piece parser (cc) (omega arith) parser-IsParser

read_loop-append_example :
    (read_loop 30 0 first_piece parser >>= read_more 30 0 second_piece)
    ≡ read_loop 30 0 (first_piece ++ second_piece) parser
read_loop-append_example =
    read_loop-append 30 0 first_piece second_piece parser (cc) (cc) (omega arith) parser-IsParser

icy_parse_tag_ends_example : Yields (λ _. Unit) (icy_parse_tag 0 (65 ∷ equals ∷ []))
icy_parse_tag_ends_example = icy_parse_tag_ends 0 (65 ∷ equals ∷ []) (omega arith)
