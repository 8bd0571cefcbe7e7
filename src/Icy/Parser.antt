-- ===== src/Icy/Parser.antt =====
-- IcyMetaDataParser.hxx and IcyMetaDataParser.cxx: which bytes of a stream are data, and
-- read_from_buffer of input/CurlInputPlugin.cxx, which feeds the parser.
pub mod Bytes
pub mod Reads
pub mod Loop
pub mod Cuts
use mpd_dsd.Prelude.{
  ℕ, zero, suc, ◌+◌, ◌-◌, ◌*◌, ◌≡◌, Option, none, some, Bool, true, false, not, ◌&&◌, ◌||◌, List,
  [], ◌∷◌, ◌++◌, leb, ltb, ◌==◌, if◌then◌else◌, ◌>>=◌, length, take, drop, min,
}
use mpd_dsd.Icy.Text.{Titles, icy_parse_tag, is_nil}

-- `meta_data` holds the bytes that have come; the tag is that of the last block, if it was not read.
pub record IcyMetaDataParser : Type 0 where
  pub data_size : ℕ
  pub data_rest : ℕ
  pub meta_size : ℕ
  pub meta_position : ℕ
  pub meta_data : List ℕ
  pub tag : Option Titles

-- Start
abbrev pub start : ℕ → IcyMetaDataParser → IcyMetaDataParser
start n s = record s { data_size = n; data_rest = n; meta_size = 0; tag = none }

-- IsDefined
abbrev pub icy_is_defined : IcyMetaDataParser → Bool
icy_is_defined s = ltb 0 s.data_size

-- Reset deletes the tag, but keeps the pointer to it.
abbrev pub reset : IcyMetaDataParser → IcyMetaDataParser
reset s = if icy_is_defined s then record s { data_rest = s.data_size; meta_size = 0 } else s

-- ReadTag
abbrev pub read_tag : IcyMetaDataParser → IcyMetaDataParser × Option Titles
read_tag s = (record s { tag = none }, s.tag)

-- Data: how many of the next bytes are data.
unfoldable pub data_bytes : ℕ → IcyMetaDataParser → IcyMetaDataParser × ℕ
data_bytes n s =
    if not (icy_is_defined s)
    then (s, n)
    else if s.data_rest == 0
    then (s, 0)
    else if leb s.data_rest n
    then (record s { data_rest = 0 }, s.data_rest)
    else (record s { data_rest = s.data_rest - n }, n)

-- The block is complete: it is parsed, with the byte behind it as the memory has it.
abbrev pub end_block : ℕ → IcyMetaDataParser → Option IcyMetaDataParser
end_block beyond s = icy_parse_tag beyond s.meta_data >>= λ titles.
    some (record s { tag = some titles; meta_size = 0; data_rest = s.data_size })

-- The bytes of the block that have come; no result where it ends and cannot be parsed.
abbrev pub meta_block : ℕ → List ℕ → IcyMetaDataParser → Option (IcyMetaDataParser × ℕ)
meta_block beyond p s =
    let n = min (length p) (s.meta_size - s.meta_position) in
    let t = record s { meta_data = s.meta_data ++ take n p; meta_position = s.meta_position + n } in
    (if t.meta_position == t.meta_size then end_block beyond t else some t) >>= λ u. some (u, n)

-- The first byte of a block tells its size.
abbrev pub meta_begin : ℕ → ℕ → List ℕ → IcyMetaDataParser → Option (IcyMetaDataParser × ℕ)
meta_begin beyond c p s =
    if c * 16 == 0
    then some (record s { meta_size = 0; data_rest = s.data_size }, 1)
    else (meta_block beyond p (record s { meta_size = c * 16; meta_position = 0; meta_data = [] })
        >>= λ r. some (r.0, r.1 + 1))

-- Meta: how many of the next bytes are metadata; there is one at least.
unfoldable pub meta_bytes : ℕ → List ℕ → IcyMetaDataParser → Option (IcyMetaDataParser × ℕ)
meta_bytes beyond [] s = none
meta_bytes beyond (c ∷ p) s =
    if s.meta_size == 0 then meta_begin beyond c p s else meta_block beyond (c ∷ p) s

-- The loop of read_from_buffer on the bytes that are left: the parser, and the data among them.
abbrev pub after_data :
    ℕ
    → (List ℕ → IcyMetaDataParser → Option (IcyMetaDataParser × List ℕ))
    → List ℕ
    → IcyMetaDataParser
    → Option (IcyMetaDataParser × List ℕ)
after_data beyond again p s = meta_bytes beyond p s >>= λ r.
    if is_nil (drop r.1 p) then some (r.0, []) else again (drop r.1 p) r.0

-- Data that has come before what is read next.
abbrev pub put_before :
    List ℕ → Option (IcyMetaDataParser × List ℕ) → Option (IcyMetaDataParser × List ℕ)
put_before xs none = none
put_before xs (some (s, ys)) = some (s, xs ++ ys)

abbrev pub read_round :
    ℕ
    → (List ℕ → IcyMetaDataParser → Option (IcyMetaDataParser × List ℕ))
    → List ℕ
    → IcyMetaDataParser × ℕ
    → Option (IcyMetaDataParser × List ℕ)
read_round beyond again p (s, n) =
    if ltb 0 n && is_nil (drop n p)
    then some (s, take n p)
    else put_before (take n p) (after_data beyond again (drop n p) s)

unfoldable pub read_loop : ℕ → ℕ → List ℕ → IcyMetaDataParser → Option (IcyMetaDataParser × List ℕ)
read_loop zero beyond p s = none
read_loop (suc fuel) beyond p s =
    read_round beyond (read_loop fuel beyond) p (data_bytes (length p) s)
