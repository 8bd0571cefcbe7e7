-- ===== src/Playlist/Options.antt =====
-- Playlist.cxx: the modes of playback, and changed tags.
use mpd_dsd.Prelude.{Bool, true, false, not, ◌&&◌, Option, none, some, if◌then◌else◌, ◌>>=◌}
use mpd_dsd.Prelude.Arrays.{put}
use mpd_dsd.Song.{Song, song_equals}
use mpd_dsd.Queue.State.{
  get_order, position_to_order, swap_orders, restore_order, modify_at_order, increment_version,
}
use mpd_dsd.Queue.Order.{shuffle_order}
use mpd_dsd.Playlist.State.{
  PlayerControl, Playlist, get_queued_song, get_current_position, update_queued_song,
}

-- `a == b` for bools
unfoldable pub same_bool : Bool → Bool → Bool
same_bool true b = b
same_bool false b = not b

module _ {P : Type 0} where
  unfoldable pub set_consume : Playlist P → Bool → Playlist P
  unfolding same_bool
  set_consume l status =
      if same_bool status l.queue.consume
      then l
      else record l { queue = record l.queue { consume = status } }

  unfoldable pub playlist_order : Playlist P → Playlist P
  unfolding get_current_position restore_order
  playlist_order l = record l { current = get_current_position l; queue = restore_order l.queue }

  -- The part of SetRandom that switches random mode on.
  unfoldable pub begin_random : Playlist P → Option (Playlist P)
  unfolding shuffle_order position_to_order swap_orders get_current_position
  begin_random l =
      let queue = shuffle_order l.queue in
      elim (if l.playing then get_current_position l else none) [
        | none ↦ some (record l { queue = queue; current = none })
        | some position ↦ do
          current_order ← position_to_order queue position
          some (record l { queue = swap_orders queue 0 current_order; current = some 0 })
      ]

  unfoldable pub tag_modified : Playlist P → Song → Option (Playlist P)
  unfolding song_equals get_order modify_at_order increment_version
  tag_modified l song = if not l.playing then some l else elim song.tag [
    | none ↦ some l
    | some tag ↦ elim l.current [
      | none ↦ none
      | some c ↦
          let position = l.queue.order c in
          let item = l.queue.items position in
          let queue =
            if song_equals song (get_order l.queue c)
            then record l.queue {
              items =
                  put l.queue.items position
                    (record item { song = record item.song { tag = some tag } });
            }
            else l.queue in
          some (record l { queue = increment_version (modify_at_order queue c) })
    ]
  ]

module _ {P : Type 0} (pc : PlayerControl P) where
  unfoldable pub set_repeat : Playlist P → Bool → Option (Playlist P)
  unfolding same_bool get_queued_song update_queued_song
  set_repeat l status =
      if same_bool status l.queue.repeat
      then some l
      else let l1 = record l {
        queue = record l.queue { repeat = status };
        player = pc.set_border_pause l.player (l.queue.single && not status);
      } in
        update_queued_song pc l1 (get_queued_song l1)

  unfoldable pub set_single : Playlist P → Bool → Option (Playlist P)
  unfolding same_bool get_queued_song update_queued_song
  set_single l status =
      if same_bool status l.queue.single
      then some l
      else let l1 = record l {
        queue = record l.queue { single = status };
        player = pc.set_border_pause l.player (status && not l.queue.repeat);
      } in
        update_queued_song pc l1 (get_queued_song l1)

  unfoldable pub set_random : Playlist P → Bool → Option (Playlist P)
  unfolding same_bool get_queued_song begin_random playlist_order update_queued_song
  set_random l status =
      if same_bool status l.queue.random
      then some l
      else let l1 = record l { queue = record l.queue { random = status } } in
        elim status [
          | true ↦ do l2 ← begin_random l1; update_queued_song pc l2 (get_queued_song l)
          | false ↦ update_queued_song pc (playlist_order l1) (get_queued_song l)
        ]
