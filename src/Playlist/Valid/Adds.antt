-- ===== src/Playlist/Valid/Adds.antt =====
-- PlaylistEdit.cxx: adding a song, emptying the queue, and the end of bulk mode keep the playlist consistent.
use mpd_dsd.Prelude.{
  false, not, option_cases, ℕ, ◌+◌, ◌<◌, ◌≤◌, ◌≡◌, refl, ◌∙◌, Option, none, some, Yields,
  Yields->>=, if_cases,
}
use mpd_dsd.Song.{Song}
use mpd_dsd.Queue.State.{Queue}
use mpd_dsd.Queue.Move.{clear}
use mpd_dsd.Queue.Valid.{IsValid}
use mpd_dsd.Queue.Valid.Deletes.{clear-IsValid}
use mpd_dsd.Playlist.State.{
  get_current_position, PlayerControl, PlaylistResult, Playlist, update_queued_song,
}
use mpd_dsd.Playlist.Control.{stop}
use mpd_dsd.Playlist.Edit.{commit_bulk, on_modified, first_of_rest, clear_list}
use mpd_dsd.Playlist.Valid.{IsSome, IsConsistent}
use mpd_dsd.Playlist.Valid.Updates.{IsUpdated, update_queued_song_correct}
use mpd_dsd.Playlist.Valid.Commits.{
  IsEdited, current_song, current_song_same, IsUpdated-IsEdited, on_modified-IsEdited,
}
use mpd_dsd.Playlist.Valid.Control.{IsStopped, stop-IsStopped, stopped-IsConsistent}

cleared_length : (q : Queue) → (clear q).length ≡ 0
unfolding clear
cleared_length q = refl

module _ {P : Type 0} (pc : PlayerControl P) where
  -- The new song has got its place in the order.
  record IsPlaced (l m : Playlist P) : Type 0 where
    valid : IsValid m.queue
    length : m.queue.length ≡ l.queue.length
    items : m.queue.items ≡ l.queue.items
    order : (c : ℕ) → c < first_of_rest l.queued l.current → m.queue.order c ≡ l.queue.order c
    current : m.current ≡ l.current
    playing : m.playing ≡ l.playing
    queued : m.queued ≡ l.queued

  -- The current song, if its order number is in front of those that the new song may get.
  abbrev pub IsAhead : Playlist P → Type 0
  IsAhead l = (k : ℕ) → l.current ≡ some k → k < first_of_rest l.queued l.current

  -- What AppendSong returns: a consistent playlist, longer by one with the new id, or the old one where
  -- the queue is full; and when the current song is the same.
  pub record IsAppended (l : Playlist P) (r : PlaylistResult × Option ℕ × Playlist P) : Type 0 where
    pub consistent : IsConsistent r.2
    pub full : l.queue.max_length ≤ l.queue.length → r ≡ (PlaylistResult.too_large, none, l)
    pub room :
        l.queue.length < l.queue.max_length → (IsSome r.1) × (r.2.queue.length ≡ l.queue.length + 1)
    pub song : IsAhead l → current_song r.2 ≡ current_song l

  -- Clear returns, and empties the queue.
  pub clear_list-IsConsistent :
      (l : Playlist P)
      → IsConsistent l
      → Yields (λ m. IsConsistent m × (m.queue.length ≡ 0)) (clear_list pc l)
  unfolding clear_list
  clear_list-IsConsistent l c =
      Yields->>= (IsStopped pc l) (λ m. IsConsistent m × (m.queue.length ≡ 0)) (stop pc l) _
        (stop-IsStopped pc l c)
        (λ m s.
          let m1 : Playlist P = record m { queue = clear m.queue; current = none } in
          let d : IsConsistent m1 =
            stopped-IsConsistent pc m1 (clear-IsValid m.queue s.consistent.valid) tt s.playing in
          let e = on_modified-IsEdited m1 d in (e.consistent, e.length ∙ cleared_length m.queue))

  -- CommitBulk returns; the playlist is consistent and its current song stays the current song.
  pub commit_bulk-IsEdited :
      (l : Playlist P) → IsConsistent l → Yields (IsEdited l) (commit_bulk pc l)
  unfolding commit_bulk current_song get_current_position
  commit_bulk-IsEdited l c =
      let l1 : Playlist P = record l { bulk_edit = false } in
      let c1 : IsConsistent l1 = record {
        valid = c.valid;
        current = c.current;
        has_current = c.has_current;
        queued = c.queued;
      } in
      let same : current_song l1 ≡ current_song l =
        current_song_same l l1 (λ p. refl) position_same in
      let edited : (m : Playlist P) → IsEdited l1 m → IsEdited l m =
        λ m e. record { consistent = e.consistent; length = e.length; song = e.song ∙ same } in
      if_cases (Yields (IsEdited l)) (not l.bulk_modified)
        (λ _. record { consistent = c1; length = refl; song = same })
        (λ _.
          option_cases (Yields (IsEdited l)) l.queued
            (λ e.
              Yields->>= (IsUpdated pc l1 none) (IsEdited l) (update_queued_song pc l1 none) _
                (update_queued_song_correct pc l1 none (record {
                  valid = c.valid;
                  current = c.current;
                  has_current = c.has_current;
                  no_queued = λ _ _. e;
                }))
                (λ m u. edited (on_modified m) (IsUpdated-IsEdited pc u)))
            (λ _ _. edited (on_modified l1) (on_modified-IsEdited l1 c1)))
    where
      position_same : get_current_position (record l { bulk_edit = false }) ≡ get_current_position l
      position_same = refl
