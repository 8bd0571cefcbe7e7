-- ===== src/Playlist/Valid/Commits.antt =====
-- PlaylistEdit.cxx: the end of the operations: the next song is queued, and the change announced.
use mpd_dsd.Prelude.{
  ℕ, ◌+◌, ◌-◌, ◌≡◌, ◌^◌, ◌%◌, refl, sym, ◌∙◌, arith, ap, subst, true, Option, none, some, leb,
  Yields, Yields->>=, if_cases, Option-cases, inl, inr,
}
use mpd_dsd.Queue.State.{Queue, increment_version, reset_versions}
use mpd_dsd.Queue.Valid.{IsValid}
use mpd_dsd.Queue.Valid.Deletes.{items_changed-IsValid}
use mpd_dsd.Playlist.State.{
  PlayerControl, PlaylistResult, Playlist, SongPointer, get_queued_song, get_current_position,
  song_at, update_queued_song,
}
use mpd_dsd.Playlist.Edit.{commit, on_modified}
use mpd_dsd.Playlist.Valid.{IsWithin, IsConsistent}
use mpd_dsd.Playlist.Valid.Updates.{IsReady, IsUpdated, update_queued_song_correct}

unfoldable pub song_in : Queue → Option ℕ → SongPointer
song_in q none = none
song_in q (some position) = some (q.items position).id

-- The queue of OnModified: other versions.
abbrev pub IsRevised : Queue → Queue → Type 0
IsRevised q r =
    IsValid r
    × (r.length ≡ q.length)
    × (r.order ≡ q.order)
    × ((p : ℕ) → (r.items p).id ≡ (q.items p).id)

increment_version-IsRevised : (q : Queue) → IsValid q → IsRevised q (increment_version q)
unfolding increment_version reset_versions
increment_version-IsRevised q v =
    if_cases (IsRevised q) (leb (2 ^ 31 - 1) ((q.version + 1) % 2 ^ 32))
      (λ _. (items_changed-IsValid q 1 (reset_versions q.length q.items) ids v, refl, refl, ids))
      (λ _. (items_changed-IsValid q _ q.items (λ p. refl) v, refl, refl, λ p. refl))
  where
    ids : (p : ℕ) → (reset_versions q.length q.items p).id ≡ (q.items p).id
    ids p = ground arith

song_in_same :
    (q r : Queue) (position : Option ℕ)
    → ((p : ℕ) → (r.items p).id ≡ (q.items p).id)
    → song_in r position ≡ song_in q position
unfolding song_in
song_in_same q r none same = refl
song_in_same q r (some p) same = ap some (same p)

module _ {P : Type 0} where
  unfoldable pub current_song : Playlist P → SongPointer
  unfolding song_in get_current_position
  current_song l = song_in l.queue (get_current_position l)

  pub current_song_same :
      (l m : Playlist P)
      → ((p : ℕ) → (m.queue.items p).id ≡ (l.queue.items p).id)
      → get_current_position m ≡ get_current_position l
      → current_song m ≡ current_song l
  unfolding current_song
  current_song_same l m same e =
      song_in_same l.queue m.queue (get_current_position m) same ∙ ap (song_in l.queue) e

  pub current_song_at :
      (l : Playlist P) (c : ℕ)
      → l.current ≡ some c
      → current_song l ≡ some (l.queue.items (l.queue.order c)).id
  unfolding current_song get_current_position song_in
  current_song_at l c e = rw e

  pub current_song-none : (l : Playlist P) → l.current ≡ none → current_song l ≡ none
  unfolding current_song get_current_position song_in
  current_song-none l e = rw e

  -- The playlist is consistent, as long as before, and its current song is the same.
  pub record IsEdited (l m : Playlist P) : Type 0 where
    pub consistent : IsConsistent m
    pub length : m.queue.length ≡ l.queue.length
    pub song : current_song m ≡ current_song l

  -- An operation returns with such a playlist.
  abbrev pub Edits : Playlist P → Option (PlaylistResult × Playlist P) → Type 0
  Edits l o = Yields {A = PlaylistResult × Playlist P} (λ r. IsEdited l r.1) o

  pub IsEdited-refl : (l : Playlist P) → IsConsistent l → IsEdited l l
  IsEdited-refl l c = record { consistent = c; length = refl; song = refl }

  pub on_modified-IsEdited : (l : Playlist P) → IsConsistent l → IsEdited l (on_modified l)
  unfolding on_modified current_song get_current_position
  on_modified-IsEdited l c =
      if_cases (IsEdited l) l.bulk_edit
        (λ _. record {
          consistent = record {
            valid = c.valid;
            current = c.current;
            has_current = c.has_current;
            queued = c.queued;
          };
          length = refl;
          song = refl;
        })
        (λ _.
          let (v, n, o, ids) = increment_version-IsRevised l.queue c.valid in
          record {
            consistent = record {
              valid = v;
              current = subst (λ k. IsWithin k l.current) (sym n) c.current;
              has_current = c.has_current;
              queued = λ p. subst (λ k. IsWithin k l.queued) (sym n) (c.queued p);
            };
            length = n;
            song =
                current_song_same l (record l { queue = increment_version l.queue }) ids
                  (ap (λ order. elim l.current [ none ↦ none | some k ↦ some (order k) ]) o);
          })

module _ {P : Type 0} (pc : PlayerControl P) where
  pub get_queued_song-none :
      (l : Playlist P) → l.playing ≡ true → get_queued_song l ≡ none → l.queued ≡ none
  unfolding get_queued_song song_at
  get_queued_song-none l p e = elim (Option-cases l.queued) [
    | inl none_queued ↦ none_queued
    | inr (k, queued) ↦ absurd (ground (arith, queued))
  ]

  pub IsUpdated-IsEdited :
      {l m : Playlist P} {prev : SongPointer} → IsUpdated pc l prev m → IsEdited l (on_modified m)
  IsUpdated-IsEdited {l = l} {m = m} u =
      let e = on_modified-IsEdited m u.consistent in
      record {
        consistent = e.consistent;
        length = e.length ∙ u.length;
        song = e.song ∙ current_song_same l m (λ p. ap (λ items. (items p).id) u.items) u.position;
      }

  -- What follows on a change of the queue: the next song is queued, and the change is announced.
  pub commit_correct :
      (l : Playlist P) (prev : SongPointer) → IsReady pc l prev → Edits l (commit pc l prev)
  unfolding commit
  commit_correct l prev r =
      Yields->>= (IsUpdated pc l prev) (λ r. IsEdited l r.1) (update_queued_song pc l prev) _
        (update_queued_song_correct pc l prev r) (λ m u. IsUpdated-IsEdited u)
