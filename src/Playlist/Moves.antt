-- ===== src/Playlist/Moves.antt =====
-- PlaylistEdit.cxx: the operations that move songs, shuffle them, or change their priorities.
use mpd_dsd.Prelude.{
  ℕ, ◌+◌, ◌-◌, ◌%◌, Bool, true, false, not, ◌&&◌, ◌||◌, Option, none, some, ltb, leb, if◌then◌else◌,
  ◌==◌, ◌>>=◌,
}
use mpd_dsd.IdTable.{id_to_position}
use mpd_dsd.Queue.State.{Queue, position_to_order, is_valid_position}
use mpd_dsd.Queue.Move.{move_range, swap_positions}
use mpd_dsd.Queue.Order.{shuffle_range, set_priority_range}
use mpd_dsd.Playlist.State.{
  PlayerControl, PlaylistResult, Playlist, SongPointer, get_queued_song, get_current_position,
}
use mpd_dsd.Playlist.Edit.{commit}

-- The destination of a move: `to >= 0`, or `to < 0`, with `abs(to)`.
pub data Target : Type 0 where
  absolute relative : ℕ → Target

-- `to = (currentSong + abs(to)) % GetLength(); if (start < to) to--`
unfoldable pub relative_target : ℕ → ℕ → ℕ → ℕ → ℕ
relative_target length start current_position n =
    let to = (current_position + n) % length in if ltb start to then to - 1 else to

-- How MoveRange corrects the current order number without random mode. `current += to - start` wraps
-- where `to < start`, and comes to this sum.
unfoldable pub moved_current : ℕ → ℕ → ℕ → ℕ → ℕ
moved_current start end to current =
    if leb start current && ltb current end
    then current + to - start
    else if leb end current && leb current to
    then current - (end - start)
    else if leb to current && ltb current start
    then current + (end - start)
    else current

-- The first test of MoveRange: `end - 1` wraps where `end` is 0.
unfoldable pub is_no_block : Queue → ℕ → ℕ → Bool
unfolding is_valid_position
is_no_block q start end =
    not (is_valid_position q start) || not (ltb 0 end && is_valid_position q (end - 1))

-- The second test of MoveRange. `to + end - start - 1` wraps where `to + end` is not above `start`, and is
-- above every length then.
unfoldable pub is_bad_target : ℕ → ℕ → ℕ → Target → Bool
is_bad_target length start end (Target.absolute to) =
    leb (to + end) start || leb length (to + end - start - 1)
is_bad_target length start end (Target.relative n) = ltb length n

unfoldable pub is_start : ℕ → Target → Bool
is_start start (Target.absolute to) = start == to
is_start start (Target.relative n) = false

module _ {P : Type 0} (pc : PlayerControl P) where
  -- The end of MoveRange, once the destination is known.
  unfoldable pub move_block : Playlist P → ℕ → ℕ → ℕ → Option (PlaylistResult × Playlist P)
  unfolding move_range moved_current get_queued_song commit
  move_block l start end to =
      commit pc
        (record l {
          queue = move_range l.queue start end to;
          current =
              if l.queue.random
              then l.current
              else elim l.current [ none ↦ none | some c ↦ some (moved_current start end to c) ];
        })
        (get_queued_song l)

  unfoldable pub move_list_range :
      Playlist P → ℕ → ℕ → Target → Option (PlaylistResult × Playlist P)
  unfolding is_no_block is_bad_target is_start move_block relative_target get_current_position
  move_list_range l start end target =
      if is_no_block l.queue start end
      then some (PlaylistResult.bad_range, l)
      else if is_bad_target l.queue.length start end target
      then some (PlaylistResult.bad_range, l)
      else if is_start start target
      then some (PlaylistResult.success, l)
      else elim target [
        | Target.absolute to ↦ move_block l start end to
        | Target.relative n ↦ elim (get_current_position l) [
          | none ↦ some (PlaylistResult.bad_range, l)
          | some position ↦
              if leb start position && ltb position end
              then some (PlaylistResult.success, l)
              else move_block l start end (relative_target l.queue.length start position n)
        ]
      ]

  unfoldable pub move_id : Playlist P → ℕ → Target → Option (PlaylistResult × Playlist P)
  unfolding move_list_range
  move_id l id target = elim (id_to_position l.queue.id_table id) [
    | none ↦ some (PlaylistResult.no_such_song, l)
    | some song ↦ move_list_range l song (song + 1) target
  ]

  unfoldable pub finish_shuffle :
      Playlist P → ℕ → ℕ → SongPointer → Option (PlaylistResult × Playlist P)
  unfolding shuffle_range commit
  finish_shuffle l start end queued_song =
      commit pc (record l { queue = shuffle_range l.queue start end }) queued_song

  -- The current song, if it is in the range, is put first and stays out of the shuffle. With fewer than
  -- two entries nothing is done.
  unfoldable pub shuffle_list : Playlist P → ℕ → ℕ → Option (PlaylistResult × Playlist P)
  unfolding get_queued_song swap_positions position_to_order finish_shuffle
  shuffle_list l start end0 =
      let end = if ltb l.queue.length end0 then l.queue.length else end0 in
      let queued_song = get_queued_song l in
      if leb end (start + 1)
      then some (PlaylistResult.success, l)
      else elim (if l.playing then l.current else none) [
        | none ↦ finish_shuffle (record l { current = none }) start end queued_song
        | some c ↦
            let position = l.queue.order c in
            let queue = swap_positions l.queue start position in
            if not (leb start position && ltb position end)
            then finish_shuffle l start end queued_song
            else elim l.queue.random [
              | true ↦ do
                current ← position_to_order queue start
                finish_shuffle (record l { queue = queue; current = some current }) (start + 1) end
                    queued_song
              | false ↦
                  finish_shuffle (record l { queue = queue; current = some start }) (start + 1) end
                    queued_song
            ]
      ]

  unfoldable pub restore_current : Playlist P → Option ℕ → Option (Playlist P)
  unfolding position_to_order
  restore_current l none = some l
  restore_current l (some position) = do
    current ← position_to_order l.queue position
    some (record l { current = some current })

  unfoldable pub set_list_priority_range :
      Playlist P → ℕ → ℕ → ℕ → Option (PlaylistResult × Playlist P)
  unfolding set_priority_range get_current_position restore_current get_queued_song commit
  set_list_priority_range l start end0 priority =
      let end = if ltb l.queue.length end0 then l.queue.length else end0 in
      if leb l.queue.length start
      then some (PlaylistResult.bad_range, l)
      else if leb end start
      then some (PlaylistResult.success, l)
      else do
        (modified, queue) ← set_priority_range l.queue start end priority l.current
        l1 ← restore_current (record l { queue = queue }) (get_current_position l)
        commit pc l1 (get_queued_song l)

  unfoldable pub set_priority_id : Playlist P → ℕ → ℕ → Option (PlaylistResult × Playlist P)
  unfolding set_list_priority_range
  set_priority_id l id priority = elim (id_to_position l.queue.id_table id) [
    | none ↦ some (PlaylistResult.no_such_song, l)
    | some position ↦ set_list_priority_range l position (position + 1) priority
  ]
