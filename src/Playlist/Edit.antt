-- ===== src/Playlist/Edit.antt =====
-- PlaylistEdit.cxx: the operations that add, remove and move songs.
use mpd_dsd.Prelude.{
  ℕ, ◌+◌, true, false, not, ◌&&◌, ◌||◌, Option, none, some, ltb, if◌then◌else◌, ◌>>=◌,
}
use mpd_dsd.IdTable.{id_to_position}
use mpd_dsd.Song.{Song}
use mpd_dsd.Queue.State.{
  position_to_order, is_valid_position, is_full, append, swap_orders, increment_version,
}
use mpd_dsd.Queue.Move.{swap_positions, clear}
use mpd_dsd.Queue.Order.{shuffle_order_last}
use mpd_dsd.Playlist.State.{
  PlayerControl, PlaylistResult, Playlist, SongPointer, get_queued_song, is_current,
  update_queued_song,
}
use mpd_dsd.Playlist.Control.{stop}

-- The same number, but for -1.
unfoldable pub after_order : Option ℕ → ℕ
after_order none = 0
after_order (some order) = order + 1

-- The first order number behind the queued song, or behind the current one.
unfoldable pub first_of_rest : Option ℕ → Option ℕ → ℕ
unfolding after_order
first_of_rest none current = after_order current
first_of_rest (some queued) current = queued + 1

module _ {P : Type 0} where
  unfoldable pub on_modified : Playlist P → Playlist P
  unfolding increment_version
  on_modified l =
      if l.bulk_edit
      then record l { bulk_modified = true }
      else record l { queue = increment_version l.queue }

  unfoldable pub begin_bulk : Playlist P → Playlist P
  begin_bulk l = record l { bulk_edit = true; bulk_modified = false }

module _ {P : Type 0} (pc : PlayerControl P) where
  -- The end of most operations: UpdateQueuedSong(pc, queued_song); OnModified(); return SUCCESS.
  unfoldable pub commit : Playlist P → SongPointer → Option (PlaylistResult × Playlist P)
  unfolding update_queued_song on_modified
  commit l queued_song = do
    l1 ← update_queued_song pc l queued_song
    some (PlaylistResult.success, on_modified l1)

  unfoldable pub clear_list : Playlist P → Option (Playlist P)
  unfolding stop clear on_modified
  clear_list l = do
    l1 ← stop pc l
    some (on_modified (record l1 { queue = clear l1.queue; current = none }))

  unfoldable pub commit_bulk : Playlist P → Option (Playlist P)
  unfolding update_queued_song on_modified
  commit_bulk l =
      let l1 = record l { bulk_edit = false } in
      if not l.bulk_modified then some l1 else elim l.queued [
        | some _ ↦ some (on_modified l1)
        | none ↦ do l2 ← update_queued_song pc l1 none; some (on_modified l2)
      ]

  -- The place of a new song in random mode: among the songs that are still to be played.
  unfoldable pub shuffle_new : Playlist P → Playlist P
  unfolding first_of_rest shuffle_order_last
  shuffle_new l =
      let start = first_of_rest l.queued l.current in
      if l.queue.random && ltb start l.queue.length
      then record l { queue = shuffle_order_last l.queue start l.queue.length }
      else l

  -- The result, with the new id if there is one.
  unfoldable pub append_song : Playlist P → Song → Option (PlaylistResult × Option ℕ × Playlist P)
  unfolding is_full append get_queued_song shuffle_new update_queued_song on_modified
  append_song l song = if is_full l.queue then some (PlaylistResult.too_large, none, l) else do
    (id, queue) ← append l.queue song 0
    l2 ← update_queued_song pc (shuffle_new (record l { queue = queue })) (get_queued_song l)
    some (PlaylistResult.success, some id, on_modified l2)

  unfoldable pub swap_list_positions : Playlist P → ℕ → ℕ → Option (PlaylistResult × Playlist P)
  unfolding is_valid_position swap_positions swap_orders position_to_order get_queued_song
      is_current commit
  swap_list_positions l song1 song2 =
      if not (is_valid_position l.queue song1) || not (is_valid_position l.queue song2)
      then some (PlaylistResult.bad_range, l)
      else let queue = swap_positions l.queue song1 song2 in
        elim l.queue.random [
          | true ↦ do
            order1 ← position_to_order queue song1
            order2 ← position_to_order queue song2
            commit (record l { queue = swap_orders queue order1 order2 }) (get_queued_song l)
          | false ↦
              commit
                (record l {
                  queue = queue;
                  current =
                      if is_current l.current song1
                      then some song2
                      else if is_current l.current song2
                      then some song1
                      else l.current;
                })
                (get_queued_song l)
        ]

  unfoldable pub swap_ids : Playlist P → ℕ → ℕ → Option (PlaylistResult × Playlist P)
  unfolding swap_list_positions
  swap_ids l id1 id2 = elim (id_to_position l.queue.id_table id1) [
    | none ↦ some (PlaylistResult.no_such_song, l)
    | some song1 ↦ elim (id_to_position l.queue.id_table id2) [
      | none ↦ some (PlaylistResult.no_such_song, l)
      | some song2 ↦ swap_list_positions l song1 song2
    ]
  ]
