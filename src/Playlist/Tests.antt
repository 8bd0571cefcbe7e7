-- ===== src/Playlist/Tests.antt =====
-- A concrete playlist and player: the theorems of the playlist at work.
use mpd_dsd.Prelude.{refl, ◌≡◌, ◌↔◌, arith, Bool, true, false, some, Yields}
use mpd_dsd.Queue.State.{restore_order}
use mpd_dsd.Queue.Move.{moved_range}
use mpd_dsd.Queue.Valid.Deletes.{restore_order-IsValid}
use mpd_dsd.Queue.Tests.{three, three-IsValid}
use mpd_dsd.Playlist.State.{
  get_current_position, PlayerControl, PlayerState, PlayerError, Playlist, update_queued_song,
}
use mpd_dsd.Playlist.Moves.{Target, moved_current, move_id, set_list_priority_range}
use mpd_dsd.Playlist.Deletes.{delete_range, sync_with_player}
use mpd_dsd.Playlist.Options.{set_random}
use mpd_dsd.Playlist.Valid.{IsConsistent}
use mpd_dsd.Playlist.Valid.Updates.{IsUpdated, update_queued_song_correct}
use mpd_dsd.Playlist.Valid.Commits.{Edits}
use mpd_dsd.Playlist.Valid.Moves.{IsMissed, moved_current_iff}
use mpd_dsd.Playlist.Valid.Overruns.{IsOverrun, relative_target_overruns}
use mpd_dsd.Playlist.Valid.MoveIds.{move_id_correct}
use mpd_dsd.Playlist.Valid.Control.{Keeps}
use mpd_dsd.Playlist.Valid.Deletes.{delete_range-IsConsistent}
use mpd_dsd.Playlist.Valid.Events.{sync_with_player-IsConsistent}
use mpd_dsd.Playlist.Valid.Randoms.{IsSwitched, set_random-IsSwitched}
use mpd_dsd.Playlist.Valid.Ranks.{set_list_priority_range-IsEdited}

-- A player whose state is whether a song is queued in it.
abbrev player : PlayerControl Bool
player = record {
  play = λ p s. false;
  enqueue_song = λ p s. true;
  cancel = λ p. false;
  stop = λ p. false;
  clear_error = λ p. p;
  set_pause = λ p flag. p;
  set_border_pause = λ p flag. p;
  seek = λ p s time. (true, false);
  get_state = λ p. PlayerState.play;
  get_error_type = λ p. PlayerError.no_error;
  has_next_song = λ p. p;
}

-- The second of three songs is played in random mode, and the third is queued.
abbrev listening : Playlist Bool
listening = record {
  queue = three;
  playing = true;
  stop_on_error = false;
  bulk_edit = false;
  bulk_modified = false;
  error_count = 0;
  current = some 1;
  queued = some 2;
  player = true;
}

listening-IsConsistent : IsConsistent listening
listening-IsConsistent = record {
  valid = three-IsValid;
  current = omega arith;
  has_current = λ _. tt;
  queued = λ _. omega arith;
}

-- The same songs without random mode.
abbrev straight : Playlist Bool
straight = record listening { queue = restore_order (record three { random = false }) }

straight-IsConsistent : IsConsistent straight
unfolding restore_order
straight-IsConsistent = record {
  valid = restore_order-IsValid (record three { random = false }) three-IsValid;
  current = omega arith;
  has_current = λ _. tt;
  queued = λ _. omega arith;
}

update_queued_song_correct_example :
    Yields (IsUpdated player listening (some 2)) (update_queued_song player listening (some 2))
update_queued_song_correct_example = update_queued_song_correct player listening (some 2) (record {
  valid = three-IsValid;
  current = omega arith;
  has_current = λ _. tt;
  no_queued = λ _ e. ground arith;
})

moved_current_iff_example : (moved_current 0 3 2 4 ≡ moved_range 0 3 2 4) ↔ (¬ IsMissed 0 3 2 4)
moved_current_iff_example = moved_current_iff 0 3 2 4 (omega arith)

-- Of five songs without random mode the fourth is played.
abbrev five : Playlist Bool
five = record listening {
  queue = record three { length = 5; max_length = 5; order = λ i. i; random = false };
  current = some 3;
}

relative_target_overruns_example : IsOverrun player five 0 3 1 3
unfolding get_current_position
relative_target_overruns_example =
    relative_target_overruns player five 0 3 3 1 (omega arith) (omega arith) (omega arith) refl
      (omega arith) (omega arith)

move_id_correct_example : Edits straight (move_id player straight 2 (Target.absolute 0))
move_id_correct_example =
    move_id_correct player straight 2 (Target.absolute 0) straight-IsConsistent

delete_range-IsConsistent_example : Keeps player (delete_range player listening 0 2)
delete_range-IsConsistent_example =
    delete_range-IsConsistent player listening 0 2 listening-IsConsistent

sync_with_player-IsConsistent_example : Yields IsConsistent (sync_with_player player listening)
sync_with_player-IsConsistent_example =
    sync_with_player-IsConsistent player listening listening-IsConsistent

set_random-IsSwitched_example :
    Yields (IsSwitched player listening) (set_random player listening false)
set_random-IsSwitched_example = set_random-IsSwitched player listening false listening-IsConsistent

set_list_priority_range-IsEdited_example :
    Edits listening (set_list_priority_range player listening 0 2 5)
set_list_priority_range-IsEdited_example =
    set_list_priority_range-IsEdited player listening 0 2 5 listening-IsConsistent
