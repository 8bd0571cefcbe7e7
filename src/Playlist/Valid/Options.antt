-- ===== src/Playlist/Valid/Options.antt =====
-- Playlist.cxx: switching the modes of playback keeps the playlist consistent, and its current song.
use mpd_dsd.Prelude.{◌≡◌, refl, ◌∙◌, ap, Bool, not, ◌&&◌, Yields, Yields-map, if_cases}
use mpd_dsd.Queue.State.{Queue}
use mpd_dsd.Queue.Valid.{IsValid}
use mpd_dsd.Playlist.State.{
  PlayerControl, Playlist, SongPointer, get_queued_song, get_current_position, update_queued_song,
}
use mpd_dsd.Playlist.Options.{set_repeat, set_single, same_bool}
use mpd_dsd.Playlist.Valid.{IsConsistent}
use mpd_dsd.Playlist.Valid.Updates.{IsReady, IsUpdated, update_queued_song_correct}
use mpd_dsd.Playlist.Valid.Commits.{
  IsEdited, IsEdited-refl, current_song, current_song_same, get_queued_song-none,
}

-- A queue with the modes changed, but for random mode.
modes-IsValid :
    (q : Queue) (repeat single : Bool)
    → IsValid q
    → IsValid (record q { repeat = repeat; single = single })
modes-IsValid q repeat single v = record {
  within = v.within;
  size = v.size;
  next_pos = v.next_pos;
  next_lt = v.next_lt;
  filed = v.filed;
  ordered = v.ordered;
  straight = v.straight;
}

module _ {P : Type 0} (pc : PlayerControl P) where
  -- UpdateQueuedSong at the end of a change that keeps the current song.
  pub updated-IsEdited :
      (l m : Playlist P) (prev : SongPointer)
      → IsReady pc m prev
      → m.queue.length ≡ l.queue.length
      → current_song m ≡ current_song l
      → Yields (IsEdited l) (update_queued_song pc m prev)
  updated-IsEdited l m prev r n s =
      Yields-map (IsUpdated pc m prev) (IsEdited l) (update_queued_song pc m prev)
        (update_queued_song_correct pc m prev r)
        (λ k u. record {
          consistent = u.consistent;
          length = u.length ∙ n;
          song = current_song_same m k (λ p. ap (λ items. (items p).id) u.items) u.position ∙ s;
        })

  modes-IsReady :
      (l : Playlist P) (repeat single : Bool) (player : P)
      → IsConsistent l
      → (λ (m : Playlist P). IsReady pc m (get_queued_song m))
          (record l {
            queue = record l.queue { repeat = repeat; single = single };
            player = player;
          })
  modes-IsReady l repeat single player c = record {
    valid = modes-IsValid l.queue repeat single c.valid;
    current = c.current;
    has_current = c.has_current;
    no_queued = λ p e. get_queued_song-none pc _ p e;
  }

  -- SetRepeat returns, and keeps the playlist consistent and its current song.
  pub set_repeat-IsEdited :
      (l : Playlist P) (status : Bool)
      → IsConsistent l
      → Yields (IsEdited l) (set_repeat pc l status)
  unfolding set_repeat current_song get_current_position
  set_repeat-IsEdited l status c =
      if_cases (Yields (IsEdited l)) (same_bool status l.queue.repeat) (λ _. IsEdited-refl l c)
        (λ _.
          let m : Playlist P = record l {
            queue = record l.queue { repeat = status };
            player = pc.set_border_pause l.player (l.queue.single && not status);
          } in
          updated-IsEdited l m (get_queued_song m)
            (modes-IsReady l status l.queue.single m.player c) refl
            (current_song_same l m (λ p. refl) refl))

  -- SetSingle returns, and keeps the playlist consistent and its current song.
  pub set_single-IsEdited :
      (l : Playlist P) (status : Bool)
      → IsConsistent l
      → Yields (IsEdited l) (set_single pc l status)
  unfolding set_single current_song get_current_position
  set_single-IsEdited l status c =
      if_cases (Yields (IsEdited l)) (same_bool status l.queue.single) (λ _. IsEdited-refl l c)
        (λ _.
          let m : Playlist P = record l {
            queue = record l.queue { single = status };
            player = pc.set_border_pause l.player (status && not l.queue.repeat);
          } in
          updated-IsEdited l m (get_queued_song m)
            (modes-IsReady l l.queue.repeat status m.player c) refl
            (current_song_same l m (λ p. refl) refl))
