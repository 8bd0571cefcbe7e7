-- ===== src/Playlist/Valid/Events.antt =====
-- PlayNext, and what follows on an event of the player: the playlist stays consistent.
use mpd_dsd.Prelude.{
  ℕ, ◌+◌, ◌<◌, ◌≡◌, refl, arith, subst, Bool, true, false, not, ◌&&◌, ◌||◌, Option, none, some, leb,
  if◌then◌else◌, ◌==◌, Yields, Yields-map, Yields->>=, if_cases, option_cases, bool_cases,
}
use mpd_dsd.Queue.State.{get_next_order}
use mpd_dsd.Queue.Order.{shuffle_order}
use mpd_dsd.Queue.Valid.Shuffles.{shuffle_order-Reordered}
use mpd_dsd.Playlist.State.{PlayerControl, Playlist, play_order, is_some, update_queued_song}
use mpd_dsd.Playlist.Control.{stop}
use mpd_dsd.Playlist.Deletes.{
  delete_order, consume_order, play_next, playlist_song_started, playlist_resume_playback,
  sync_with_player, is_stop, is_error, is_output_error,
}
use mpd_dsd.Playlist.Valid.{IsWithin, IsSome, IsConsistent}
use mpd_dsd.Playlist.Valid.Reshuffles.{get_next_order-IsWithin}
use mpd_dsd.Playlist.Valid.Updates.{IsUpdated, update_queued_song_correct}
use mpd_dsd.Playlist.Valid.Control.{
  IsStopped, stop-IsStopped, stopped-IsConsistent, play_order-IsConsistent,
}
use mpd_dsd.Playlist.Valid.Deletes.{delete_list_position-IsConsistent}

module _ {P : Type 0} (pc : PlayerControl P) where
  consume_order-IsConsistent :
      (l : Playlist P) (order : ℕ) → IsConsistent l → Yields IsConsistent (consume_order pc l order)
  unfolding consume_order delete_order
  consume_order-IsConsistent l order c =
      bool_cases (Yields IsConsistent) l.queue.consume
        (λ _.
          Yields->>= (λ s. IsConsistent s.1) IsConsistent (delete_order pc l order) _
            (delete_list_position-IsConsistent pc l (l.queue.order order) c) (λ s d. d))
        (λ _. c)

  -- Its fields stop_on_error and error_count do not matter.
  counted-IsConsistent :
      (l : Playlist P) (stop_on_error : Bool) (error_count : ℕ)
      → IsConsistent l
      → IsConsistent (record l { stop_on_error = stop_on_error; error_count = error_count })
  counted-IsConsistent l stop_on_error error_count c = record {
    valid = c.valid;
    current = c.current;
    has_current = c.has_current;
    queued = c.queued;
  }

  next_played-IsConsistent :
      (l : Playlist P) (order : ℕ)
      → order < l.queue.length
      → IsConsistent l
      → IsConsistent (
          play_order pc
            (if (order == 0) && l.queue.random
              then record l { stop_on_error = false; queue = shuffle_order l.queue }
              else record l { stop_on_error = false })
            order)
  next_played-IsConsistent l order h c =
      if_cases (λ (m : Playlist P). IsConsistent (play_order pc m order))
        ((order == 0) && l.queue.random)
        (λ e.
          let f = shuffle_order-Reordered l.queue (ground arith) in
          play_order-IsConsistent pc
            (record l { stop_on_error = false; queue = shuffle_order l.queue }) order
            (f.valid c.valid) (omega (arith, f.length)))
        (λ _. play_order-IsConsistent pc (record l { stop_on_error = false }) order c.valid h)

  -- PlayNext returns, and keeps the playlist consistent, also where it stops at the end, or removes the
  -- song that was played in consume mode.
  pub play_next-IsConsistent :
      (l : Playlist P) → IsConsistent l → Yields IsConsistent (play_next pc l)
  unfolding play_next
  play_next-IsConsistent l c =
      let l1 : Playlist P = record l { stop_on_error = false } in
      let c1 : IsConsistent l1 = counted-IsConsistent l false l.error_count c in
      if_cases (Yields IsConsistent) (not l.playing) (λ _. c)
        (λ e.
          option_cases (Yields IsConsistent) l.current
            (λ missing. absurd (subst IsSome missing (c.has_current (ground arith))))
            (λ k at.
              let hk : k < l.queue.length = subst (IsWithin l.queue.length) at c.current in
              option_cases (Yields IsConsistent) (get_next_order l.queue k)
                (λ _.
                  Yields->>= (IsStopped pc l1) IsConsistent (stop pc l1) _ (stop-IsStopped pc l1 c1)
                    (λ m s.
                      consume_order-IsConsistent (record m { current = none }) k
                        (stopped-IsConsistent pc (record m { current = none }) s.consistent.valid tt
                          s.playing)))
                (λ next at2. consume_order-IsConsistent _ k (
                  next_played-IsConsistent l next
                    (subst (IsWithin l.queue.length) at2 (get_next_order-IsWithin l.queue k hk))
                    c))))

  playlist_song_started-IsConsistent :
      (l : Playlist P)
      → IsConsistent l
      → l.playing ≡ true
      → IsSome l.queued
      → Yields IsConsistent (playlist_song_started pc l)
  unfolding playlist_song_started
  playlist_song_started-IsConsistent l c p s =
      option_cases (Yields IsConsistent) l.current
        (λ missing. absurd (subst IsSome missing (c.has_current p)))
        (λ k _.
          consume_order-IsConsistent (record l { current = l.queued; queued = none }) k
            (record {
              valid = c.valid;
              current = c.queued p;
              has_current = λ _. s;
              queued = λ _. tt;
            }))

  playlist_resume_playback-IsConsistent :
      (l : Playlist P) → IsConsistent l → Yields IsConsistent (playlist_resume_playback pc l)
  unfolding playlist_resume_playback
  playlist_resume_playback-IsConsistent l c =
      let error = pc.get_error_type l.player in
      let error_count = if is_error error then l.error_count + 1 else 0 in
      let l1 : Playlist P = record l { error_count = error_count } in
      let c1 : IsConsistent l1 = counted-IsConsistent l l.stop_on_error error_count c in
      bool_cases (Yields IsConsistent)
        ((l.stop_on_error && is_error error)
          || is_output_error error
          || leb l.queue.length error_count)
        (λ _.
          Yields-map (IsStopped pc l1) IsConsistent (stop pc l1) (stop-IsStopped pc l1 c1)
            (λ m s. s.consistent))
        (λ _. play_next-IsConsistent l1 c1)

  is_some-IsSome : (o : Option ℕ) → is_some o ≡ true → IsSome o
  unfolding is_some
  is_some-IsSome none e = absurd (ground arith)
  is_some-IsSome (some k) e = tt

  none_queued : (o : Option ℕ) → is_some o ≡ false → o ≡ none
  unfolding is_some
  none_queued none e = refl
  none_queued (some k) e = absurd (ground arith)

  -- SyncWithPlayer of a consistent playlist returns a consistent one, whatever the player reports:
  -- that it has stopped, with an error or without, that the queued song has started, or neither.
  pub sync_with_player-IsConsistent :
      (l : Playlist P) → IsConsistent l → Yields IsConsistent (sync_with_player pc l)
  unfolding sync_with_player
  sync_with_player-IsConsistent l c =
      if_cases (Yields IsConsistent) (not l.playing) (λ _. c)
        (λ playing.
          if_cases (Yields IsConsistent) (is_stop (pc.get_state l.player))
            (λ _. playlist_resume_playback-IsConsistent l c)
            (λ _.
              Yields->>= IsConsistent IsConsistent
                (elim (not (pc.has_next_song l.player) && is_some l.queued) [
                  | true ↦ playlist_song_started pc l
                  | false ↦ some l
                ])
                _
                (bool_cases (Yields IsConsistent)
                  (not (pc.has_next_song l.player) && is_some l.queued)
                  (λ e.
                    playlist_song_started-IsConsistent l c (ground arith)
                      (is_some-IsSome l.queued (ground arith)))
                  (λ _. c))
                (λ m d.
                  bool_cases (Yields IsConsistent)
                    (not (pc.has_next_song m.player) && not (is_some m.queued))
                    (λ e.
                      Yields-map (IsUpdated pc m none) IsConsistent (update_queued_song pc m none)
                        (update_queued_song_correct pc m none (record {
                          valid = d.valid;
                          current = d.current;
                          has_current = d.has_current;
                          no_queued = λ _ _. none_queued m.queued (ground arith);
                        }))
                        (λ n u. u.consistent))
                    (λ _. d))))
