-- ===== src/Playlist/Control.antt =====
-- PlaylistControl.cxx: playback, and Playlist.cxx, what follows on an event of the player.
use mpd_dsd.Prelude.{
  ℕ, ◌-◌, true, false, not, ◌&&◌, Option, none, some, ltb, if◌then◌else◌, ◌==◌, ◌>>=◌,
}
use mpd_dsd.IdTable.{id_to_position}
use mpd_dsd.Song.{dup_detached}
use mpd_dsd.Queue.State.{get_order, position_to_order, is_valid_position, swap_orders}
use mpd_dsd.Playlist.State.{
  PlayerControl, PlaylistResult, Playlist, get_queued_song, is_current, reshuffle,
  update_queued_song, play_order,
}

-- The position that a command names: -1, "any song", is `none`.
module _ {P : Type 0} (pc : PlayerControl P) where
  unfoldable pub stop : Playlist P → Option (Playlist P)
  unfolding reshuffle
  stop l =
      if not l.playing
      then some l
      else let l1 = record l { player = pc.stop l.player; queued = none; playing = false } in
        elim l.queue.random [ true ↦ reshuffle l1 | false ↦ some l1 ]

  -- The part of PlayPosition that starts the song `i`. In random mode the song changes places with the
  -- current one.
  unfoldable pub start_song : Playlist P → ℕ → Playlist P
  unfolding play_order swap_orders
  start_song l i = play_order pc (record l { stop_on_error = false; error_count = 0 }) i

  unfoldable pub start_random : Playlist P → ℕ → Option (Playlist P)
  unfolding start_song swap_orders
  start_random l i = elim (if l.playing then l.current else some 0) [
    | none ↦ none
    | some current ↦ some (
        start_song (record l { queue = swap_orders l.queue i current; current = some current })
          current)
  ]

  unfoldable pub first_order : Option ℕ → ℕ
  first_order none = 0
  first_order (some current) = current

  unfoldable pub play_position : Playlist P → Option ℕ → Option (PlaylistResult × Playlist P)
  unfolding first_order start_song start_random is_valid_position
  play_position l none =
      let l1 = record l { player = pc.clear_error l.player } in
      if l.queue.length == 0
      then some (PlaylistResult.success, l1)
      else if l.playing
      then some (PlaylistResult.success, record l1 { player = pc.set_pause l1.player false })
      else elim l.queue.random [
        | true ↦ do l2 ← start_random l1 (first_order l1.current); some (PlaylistResult.success, l2)
        | false ↦ some (PlaylistResult.success, start_song l1 (first_order l1.current))
      ]
  play_position l (some position) =
      let l1 = record l { player = pc.clear_error l.player } in
      if not (is_valid_position l.queue position)
      then some (PlaylistResult.bad_range, l1)
      else elim l.queue.random [
        | true ↦ do
          i ← position_to_order l1.queue position
          l2 ← start_random l1 i
          some (PlaylistResult.success, l2)
        | false ↦ some (PlaylistResult.success, start_song l1 position)
      ]

  unfoldable pub play_id : Playlist P → Option ℕ → Option (PlaylistResult × Playlist P)
  unfolding play_position
  play_id l none = play_position l none
  play_id l (some id) = elim (id_to_position l.queue.id_table id) [
    | none ↦ some (PlaylistResult.no_such_song, l)
    | some position ↦ play_position l (some position)
  ]

  unfoldable pub play_previous : Playlist P → Option (Playlist P)
  unfolding play_order
  play_previous l = if not l.playing then some l else elim l.current [
    | none ↦ none
    | some order ↦ some (
        play_order pc l
          (if ltb 0 order then order - 1 else if l.queue.repeat then l.queue.length - 1 else order))
  ]

  unfoldable pub seek_song_order : Playlist P → ℕ → ℕ → Option (PlaylistResult × Playlist P)
  unfolding get_queued_song update_queued_song get_order dup_detached is_current
  seek_song_order l i seek_time =
      let within = l.playing && is_current l.current i in
      let queued_song = if within then get_queued_song l else none in
      let l1 = record l {
        stop_on_error = true;
        error_count = 0;
        playing = true;
        current = some i;
      } in
      let (accepted, player) =
        pc.seek (pc.clear_error l.player) (dup_detached (get_order l.queue i)) seek_time in
      elim accepted [
        | false ↦ do
          l2 ← update_queued_song pc (record l1 { player = player }) queued_song
          some (PlaylistResult.not_playing, l2)
        | true ↦ do
          l2 ← update_queued_song pc (record l1 { player = player; queued = none }) none
          some (PlaylistResult.success, l2)
      ]

  unfoldable pub seek_song_position : Playlist P → ℕ → ℕ → Option (PlaylistResult × Playlist P)
  unfolding seek_song_order is_valid_position position_to_order
  seek_song_position l position seek_time =
      if not (is_valid_position l.queue position)
      then some (PlaylistResult.bad_range, l)
      else elim l.queue.random [
        | true ↦ do i ← position_to_order l.queue position; seek_song_order l i seek_time
        | false ↦ seek_song_order l position seek_time
      ]

  unfoldable pub seek_song_id : Playlist P → ℕ → ℕ → Option (PlaylistResult × Playlist P)
  unfolding seek_song_position
  seek_song_id l id seek_time = elim (id_to_position l.queue.id_table id) [
    | none ↦ some (PlaylistResult.no_such_song, l)
    | some position ↦ seek_song_position l position seek_time
  ]
