-- ===== src/Song.antt =====
-- Song.hxx and Song.cxx: songs, their detached copies, and when two of them are the same.
use mpd_dsd.Prelude.{
  ℕ, ◌≡◌, refl, Bool, true, false, ◌&&◌, ◌||◌, not, List, [], ◌∷◌, ◌++◌, Option, none, some, arith,
  if◌then◌else◌, ◌==◌,
}

-- Strings are lists of bytes.
abbrev pub Bytes : Type 0
Bytes = List ℕ

-- `strcmp(a, b) == 0`, and `==` of std::string.
unfoldable pub bytes_eq : Bytes → Bytes → Bool
bytes_eq [] [] = true
bytes_eq [] (y ∷ ys) = false
bytes_eq (x ∷ xs) [] = false
bytes_eq (x ∷ xs) (y ∷ ys) = (x == y) && bytes_eq xs ys

-- struct TagItem and struct Tag, as far as a song copies them.
pub record TagItem : Type 0 where
  pub type : ℕ
  pub value : Bytes

pub record Tag : Type 0 where
  pub time : Option ℕ
  pub has_playlist : Bool
  pub items : List TagItem

-- What a song asks of its parent directory: whether it is `detached_root`, and its path. The root
-- directory is the one with the empty path.
pub record Directory : Type 0 where
  pub detached : Bool
  pub path : Bytes

abbrev pub detached_root : Directory
detached_root = record { detached = true; path = [] }

-- `parent` is `none` for a null pointer.
pub record Song : Type 0 where
  pub tag : Option Tag
  pub parent : Option Directory
  pub mtime : ℕ
  pub start_ms : ℕ
  pub end_ms : ℕ
  pub uri : Bytes

unfoldable pub song_alloc : Bytes → Option Directory → Song
song_alloc uri parent = record {
  tag = none;
  parent = parent;
  mtime = 0;
  start_ms = 0;
  end_ms = 0;
  uri = uri;
}

unfoldable pub is_root : Directory → Bool
is_root d = bytes_eq d.path []

unfoldable pub get_uri : Song → Bytes
unfolding is_root bytes_eq
get_uri s = elim s.parent [
  | none ↦ s.uri
  | some d ↦ if is_root d then s.uri else d.path ++ (b'/' ∷ s.uri)
]

unfoldable pub dup_detached : Song → Song
unfolding song_alloc get_uri
dup_detached s =
    record (elim s.parent [
      | none ↦ song_alloc s.uri none
      | some _ ↦ song_alloc (get_uri s) (some detached_root)
    ]) { tag = s.tag; mtime = s.mtime; start_ms = s.start_ms; end_ms = s.end_ms }

unfoldable pub directory_equals : Directory → Directory → Bool
unfolding bytes_eq
directory_equals a b = bytes_eq a.path b.path

-- A directory is given by its fields, so equal pointers have equal paths.
unfoldable pub directory_is_same : Option Directory → Option Directory → Bool
unfolding directory_equals
directory_is_same none none = true
directory_is_same none (some b) = false
directory_is_same (some a) none = false
directory_is_same (some a) (some b) = directory_equals a b

-- The first test of SongEquals.
unfoldable pub compares_uri : Option Directory → Option Directory → Bool
unfolding directory_equals
compares_uri (some a) (some b) = not (directory_equals a b) && (a.detached || b.detached)
compares_uri none b = false
compares_uri a none = false

unfoldable pub song_equals : Song → Song → Bool
unfolding compares_uri get_uri directory_is_same bytes_eq
song_equals a b =
    if compares_uri a.parent b.parent
    then bytes_eq (get_uri a) (get_uri b)
    else directory_is_same a.parent b.parent && bytes_eq a.uri b.uri

bytes_eq_refl : (x : Bytes) → bytes_eq x x ≡ true
unfolding bytes_eq
bytes_eq_refl [] = refl
bytes_eq_refl (b ∷ x) = ground (arith, bytes_eq_refl x)

get_uri_nested :
    (s : Song) (d : Directory)
    → s.parent ≡ some d
    → is_root d ≡ false
    → get_uri s ≡ d.path ++ (b'/' ∷ s.uri)
unfolding get_uri
get_uri_nested s d e r = ground arith

-- The copy of a song has the song's whole URI.
pub get_uri-dup_detached : (s : Song) → get_uri (dup_detached s) ≡ get_uri s
unfolding dup_detached
get_uri-dup_detached s = ground arith

equals_dup :
    (s : Song) (p : Option Directory) (path : Bytes)
    → s.parent ≡ p
    → ((d : Directory) → p ≡ some d → d.path ≡ path)
    → song_equals (dup_detached s) s ≡ true
unfolding song_equals dup_detached
equals_dup s none path e _ = ground (arith, bytes_eq_refl s.uri)
equals_dup s (some d) [] e at = ground (arith, at d refl, bytes_eq_refl s.uri)
equals_dup s (some d) (b ∷ path) e at =
    ground (arith, at d refl, bytes_eq_refl (d.path ++ (b'/' ∷ s.uri)))

-- The detached copy of a song is the same song to SongEquals, whether the song is remote, in the root
-- directory or below it.
pub song_equals-dup_detached : (s : Song) → song_equals (dup_detached s) s ≡ true
song_equals-dup_detached s =
    equals_dup s s.parent (elim s.parent [ none ↦ [] | some d ↦ d.path ]) refl (λ d e. ground arith)
