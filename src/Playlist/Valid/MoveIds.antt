-- ===== src/Playlist/Valid/MoveIds.antt =====
-- PlaylistEdit.cxx, MoveId: moving a single song.
use mpd_dsd.Prelude.{
  ℕ, ◌+◌, ◌-◌, ◌<◌, ◌≤◌, arith, ◌&&◌, ◌||◌, ltb, leb, ◌==◌, if_cases, option_cases,
}
use mpd_dsd.IdTable.{id_to_position}
use mpd_dsd.Queue.Valid.Operations.{id_to_position_iff}
use mpd_dsd.Playlist.State.{PlayerControl, Playlist, get_current_position}
use mpd_dsd.Playlist.Moves.{
  Target, move_block, move_list_range, move_id, relative_target, is_no_block, is_bad_target,
  is_start,
}
use mpd_dsd.Playlist.Valid.{IsConsistent}
use mpd_dsd.Playlist.Valid.Commits.{Edits, IsEdited-refl}
use mpd_dsd.Playlist.Valid.Moves.{move_block_correct, relative_target_fits}

module _ {P : Type 0} (pc : PlayerControl P) where
  move_song :
      (l : Playlist P) (song to : ℕ)
      → song < l.queue.length
      → to + 1 ≤ l.queue.length
      → IsConsistent l
      → Edits l (move_block pc l song (song + 1) to)
  move_song l song to h1 h2 c =
      move_block_correct pc l song (song + 1) to (omega arith) (omega arith) (omega arith) c
        (λ k r e m. omega arith)

  move_single :
      (l : Playlist P) (song : ℕ) (target : Target)
      → song < l.queue.length
      → IsConsistent l
      → Edits l (move_list_range pc l song (song + 1) target)
  unfolding move_list_range is_bad_target is_start
  move_single l song (Target.absolute to) h c =
      if_cases (Edits l) (is_no_block l.queue song (song + 1)) (λ _. IsEdited-refl l c)
        (λ _.
          if_cases (Edits l)
            (leb (to + (song + 1)) song || leb l.queue.length (to + (song + 1) - song - 1))
            (λ _. IsEdited-refl l c)
            (λ fits.
              if_cases (Edits l) (song == to) (λ _. IsEdited-refl l c)
                (λ _. move_song l song to h (ground arith) c)))
  move_single l song (Target.relative n) h c =
      if_cases (Edits l) (is_no_block l.queue song (song + 1)) (λ _. IsEdited-refl l c)
        (λ _.
          if_cases (Edits l) (ltb l.queue.length n) (λ _. IsEdited-refl l c)
            (λ _.
              option_cases (Edits l) (get_current_position l) (λ _. IsEdited-refl l c)
                (λ position _.
                  if_cases (Edits l) (leb song position && ltb position (song + 1))
                    (λ _. IsEdited-refl l c)
                    (λ _.
                      move_song l song (relative_target l.queue.length song position n) h
                        (relative_target_fits l.queue.length song position n h) c))))

  -- MoveId on a consistent playlist returns for every id and every destination, absolute or relative
  -- to the current song; the playlist stays consistent, as long as it was, and its current song
  -- stays the current song.
  pub move_id_correct :
      (l : Playlist P) (id : ℕ) (target : Target)
      → IsConsistent l
      → Edits l (move_id pc l id target)
  unfolding move_id
  move_id_correct l id target c =
      option_cases (Edits l) (id_to_position l.queue.id_table id) (λ _. IsEdited-refl l c)
        (λ song e. move_single l song target ((id_to_position_iff l.queue id song c.valid).0 e).0 c)
