-- ===== src/Playlist/Deletes.antt =====
-- PlaylistEdit.cxx: the operations that remove songs, and those that remove the song that was played in
-- consume mode (PlaylistControl.cxx, Playlist.cxx).
use mpd_dsd.Prelude.{
  ℕ, zero, suc, ◌+◌, ◌-◌, Bool, true, false, not, ◌&&◌, ◌||◌, Option, none, some, ltb, leb,
  if◌then◌else◌, ◌==◌, ◌>>=◌,
}
use mpd_dsd.IdTable.{id_to_position}
use mpd_dsd.Song.{Song, song_equals}
use mpd_dsd.Queue.State.{get, get_next_order, position_to_order}
use mpd_dsd.Queue.Move.{delete_position}
use mpd_dsd.Queue.Order.{shuffle_order}
use mpd_dsd.Playlist.State.{
  PlayerState, PlayerError, PlayerControl, PlaylistResult, Playlist, SongPointer, get_queued_song,
  is_current, is_first, is_some, update_queued_song, play_order,
}
use mpd_dsd.Playlist.Control.{stop}
use mpd_dsd.Playlist.Edit.{commit}

unfoldable pub decrement_above : ℕ → Option ℕ → Option ℕ
decrement_above order none = none
decrement_above order (some current) =
    if ltb order current then some (current - 1) else some current

unfoldable pub is_pause : PlayerState → Bool
is_pause PlayerState.pause = true
is_pause _ = false

unfoldable pub is_stop : PlayerState → Bool
is_stop PlayerState.stop = true
is_stop _ = false

unfoldable pub is_error : PlayerError → Bool
is_error PlayerError.no_error = false
is_error _ = true

unfoldable pub is_output_error : PlayerError → Bool
is_output_error PlayerError.output = true
is_output_error _ = false

module _ {P : Type 0} (pc : PlayerControl P) where
  -- The part of DeleteInternal for the song that is being played.
  unfoldable pub leave_current : Playlist P → ℕ → Playlist P
  unfolding get_next_order is_current is_pause play_order
  leave_current l song_order =
      let next = get_next_order l.queue song_order in
      let paused = is_pause (pc.get_state l.player) in
      elim (if is_current next song_order then none else next) [
        | none ↦ record l { current = none; player = pc.stop l.player; playing = false }
        | some order ↦
            if not paused
            then play_order pc l order
            else record l { current = some order; player = pc.stop l.player; playing = false }
      ]

  -- The playlist, and `*queued_p`.
  unfoldable pub delete_internal : Playlist P → ℕ → SongPointer → Option (Playlist P × SongPointer)
  unfolding position_to_order delete_position is_current leave_current decrement_above
  delete_internal l song queued = do
    song_order ← position_to_order l.queue song
    let here = is_current l.current song_order
    let l1 =
        if l.playing && here
        then leave_current l song_order
        else if here
        then record l { current = none }
        else l
    queue ← delete_position l1.queue song
    some (
      record l1 { queue = queue; current = decrement_above song_order l1.current },
      if l.playing && here then none else queued,
    )

  unfoldable pub delete_list_position : Playlist P → ℕ → Option (PlaylistResult × Playlist P)
  unfolding get_queued_song delete_internal commit
  delete_list_position l song =
      if leb l.queue.length song then some (PlaylistResult.bad_range, l) else do
        (l1, queued_song) ← delete_internal l song (get_queued_song l)
        commit pc l1 queued_song

  unfoldable pub delete_order : Playlist P → ℕ → Option (PlaylistResult × Playlist P)
  unfolding delete_list_position
  delete_order l order = delete_list_position l (l.queue.order order)

  unfoldable pub delete_id : Playlist P → ℕ → Option (PlaylistResult × Playlist P)
  unfolding delete_list_position
  delete_id l id = elim (id_to_position l.queue.id_table id) [
    | none ↦ some (PlaylistResult.no_such_song, l)
    | some song ↦ delete_list_position l song
  ]

  -- do { DeleteInternal(--end) } while (end != start), for the songs that are left
  unfoldable pub delete_songs : ℕ → ℕ → Playlist P → SongPointer → Option (Playlist P × SongPointer)
  unfolding delete_internal
  delete_songs zero start l queued = some (l, queued)
  delete_songs (suc left) start l queued = do
    (l1, queued1) ← delete_internal l (start + left) queued
    delete_songs left start l1 queued1

  unfoldable pub delete_range : Playlist P → ℕ → ℕ → Option (PlaylistResult × Playlist P)
  unfolding get_queued_song delete_songs commit
  delete_range l start end0 =
      let end = if ltb l.queue.length end0 then l.queue.length else end0 in
      if leb l.queue.length start
      then some (PlaylistResult.bad_range, l)
      else if leb end start
      then some (PlaylistResult.success, l)
      else do
        (l1, queued_song) ← delete_songs (end - start) start l (get_queued_song l)
        commit pc l1 queued_song

  -- for (i = left - 1; i >= 0; --i)
  unfoldable pub delete_equal : ℕ → Song → Playlist P → Option (Playlist P)
  unfolding song_equals get delete_list_position
  delete_equal zero song l = some l
  delete_equal (suc left) song l = elim (song_equals song (get l.queue left)) [
    | true ↦ do (result, l1) ← delete_list_position l left; delete_equal left song l1
    | false ↦ delete_equal left song l
  ]

  unfoldable pub delete_song : Playlist P → Song → Option (Playlist P)
  unfolding delete_equal
  delete_song l song = delete_equal l.queue.length song l

  unfoldable pub consume_order : Playlist P → ℕ → Option (Playlist P)
  unfolding delete_order
  consume_order l order = elim l.queue.consume [
    | false ↦ some l
    | true ↦ do (result, l1) ← delete_order l order; some l1
  ]

  unfoldable pub play_next : Playlist P → Option (Playlist P)
  unfolding stop get_next_order is_first shuffle_order play_order consume_order
  play_next l = if not l.playing then some l else elim l.current [
    | none ↦ none
    | some old_current ↦
        let l1 = record l { stop_on_error = false } in
        elim (get_next_order l.queue old_current) [
          | none ↦ do l2 ← stop pc l1; consume_order (record l2 { current = none }) old_current
          | some next_order ↦
              consume_order
                (play_order pc
                  (if (next_order == 0) && l.queue.random
                    then record l1 { queue = shuffle_order l.queue }
                    else l1)
                  next_order)
                old_current
        ]
  ]

  unfoldable pub playlist_song_started : Playlist P → Option (Playlist P)
  unfolding consume_order
  playlist_song_started l = elim l.current [
    | none ↦ none
    | some current ↦ consume_order (record l { current = l.queued; queued = none }) current
  ]

  unfoldable pub playlist_resume_playback : Playlist P → Option (Playlist P)
  unfolding stop play_next is_error is_output_error
  playlist_resume_playback l =
      let error = pc.get_error_type l.player in
      let error_count = if is_error error then l.error_count + 1 else 0 in
      let l1 = record l { error_count = error_count } in
      elim ((l.stop_on_error && is_error error)
        || is_output_error error
        || leb l.queue.length error_count) [ true ↦ stop pc l1 | false ↦ play_next l1 ]

  unfoldable pub sync_with_player : Playlist P → Option (Playlist P)
  unfolding is_stop is_some playlist_resume_playback playlist_song_started update_queued_song
  sync_with_player l =
      if not l.playing
      then some l
      else if is_stop (pc.get_state l.player)
      then playlist_resume_playback l
      else do
        l1 ← (elim (not (pc.has_next_song l.player) && is_some l.queued) [
          | true ↦ playlist_song_started l
          | false ↦ some l
        ])
        elim (not (pc.has_next_song l1.player) && not (is_some l1.queued)) [
          | true ↦ update_queued_song pc l1 none
          | false ↦ some l1
        ]
