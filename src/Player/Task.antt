-- ===== src/Player/Task.antt =====
-- player_task, the beginning of Run, the turns of the player thread: PlayerThread.cxx, and the client
-- that issues commands: PlayerControl.cxx and PlayerControl.hxx.
use mpd_dsd.Prelude.{ℕ, Option, none, some, Bool, true, false, not, ◌>>=◌}
use mpd_dsd.Pcm.Format.{AudioFormat}
use mpd_dsd.Playlist.State.{PlayerState}
use mpd_dsd.Player.State.{
  PlayerCommand, PlayerControl, DecoderControl, new_player, Session, is_some, is_no_command,
  command_finished, asserted,
}
use mpd_dsd.Player.Decoding.{Startup, start_decoder, wait_for_decoder, stop_decoder}
use mpd_dsd.Player.Commands.{Machine, Phase, set_state, finished, process_command, seek_turn}
use mpd_dsd.Player.Loop.{RoundAnswers, round}

-- The beginning of Run, behind WaitForDecoder.
abbrev pub run_begun : Session × Bool → Machine
run_begun (s, true) =
    let t = finished (set_state PlayerState.play s) in
    record { pc = t.pc; dc = t.dc; phase = Phase.at_command t.player }
run_begun (s, false) =
    let t = finished (stop_decoder s) in record { pc = t.pc; dc = t.dc; phase = Phase.idle }

-- do_play, up to the loop of Run
unfoldable pub do_play : AudioFormat → Bool → PlayerControl → DecoderControl → Option Machine
do_play memory fails pc dc =
    let s : Session = record { pc = pc; dc = dc; player = new_player memory } in
    start_decoder 0 s >>= λ t. wait_for_decoder fails t >>= λ r. some (run_begun r)

abbrev pub idle_with : PlayerControl → DecoderControl → Machine
idle_with pc dc = record { pc = pc; dc = dc; phase = Phase.idle }

abbrev pub drop_next : PlayerControl → PlayerControl
drop_next pc = record pc { next_song = none }

-- The loop of player_task; `returned` says whether all chunks are back in the buffer.
unfoldable pub task_turn :
    PlayerCommand → AudioFormat → Bool → Bool → PlayerControl → DecoderControl → Option Machine
task_turn PlayerCommand.seek memory fails returned pc dc =
    asserted (is_some pc.next_song) (do_play memory fails pc dc)
task_turn PlayerCommand.queue memory fails returned pc dc =
    asserted (is_some pc.next_song) (do_play memory fails pc dc)
task_turn PlayerCommand.stop memory fails returned pc dc =
    some (idle_with (command_finished (drop_next pc)) dc)
task_turn PlayerCommand.pause memory fails returned pc dc =
    some (idle_with (command_finished (drop_next pc)) dc)
task_turn PlayerCommand.close_audio memory fails returned pc dc =
    asserted returned (some (idle_with (command_finished pc) dc))
task_turn PlayerCommand.update_audio memory fails returned pc dc =
    some (idle_with (command_finished pc) dc)
task_turn PlayerCommand.exit memory fails returned pc dc =
    some (record { pc = command_finished pc; dc = dc; phase = Phase.exited })
task_turn PlayerCommand.cancel memory fails returned pc dc =
    some (idle_with (command_finished (drop_next pc)) dc)
task_turn PlayerCommand.refresh memory fails returned pc dc =
    some (idle_with (command_finished pc) dc)
task_turn PlayerCommand.no_command memory fails returned pc dc = some (idle_with pc dc)

-- What a turn meets.
pub record Answers : Type 0 where
  pub memory : AudioFormat
  pub fails : Bool
  pub returned : Bool
  pub same_song : Bool
  pub opens : Bool
  pub seeks : Bool
  pub startup : Startup
  pub in_round : RoundAnswers

abbrev pub phase_turn : Phase → Answers → PlayerControl → DecoderControl → Option Machine
phase_turn Phase.idle a pc dc = task_turn pc.command a.memory a.fails a.returned pc dc
phase_turn (Phase.at_command p) a pc dc =
    process_command pc.command a.opens a.same_song a.fails (record { pc = pc; dc = dc; player = p })
phase_turn (Phase.seeking p) a pc dc =
    seek_turn a.startup a.seeks (record { pc = pc; dc = dc; player = p })
phase_turn (Phase.in_body p) a pc dc = round a.in_round (record { pc = pc; dc = dc; player = p })
phase_turn Phase.exited a pc dc = some (record { pc = pc; dc = dc; phase = Phase.exited })

-- A turn of the player thread, no result where an assertion fails.
unfoldable pub turn : Answers → Machine → Option Machine
turn a m = phase_turn m.phase a m.pc m.dc

-- SynchronousCommand, up to the wait.
abbrev pub issue : PlayerCommand → PlayerControl → Option PlayerControl
issue command pc = asserted (is_no_command pc.command) (some (record pc { command = command }))

-- EnqueueSongLocked
abbrev pub enqueue : ℕ → PlayerControl → Option PlayerControl
enqueue song pc =
    asserted (not (is_some pc.next_song))
      (issue PlayerCommand.queue (record pc { next_song = some song }))

-- Seek
abbrev pub seek_song : ℕ → PlayerControl → Option PlayerControl
seek_song song pc = issue PlayerCommand.seek (record pc { next_song = some song })
