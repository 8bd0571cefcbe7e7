-- ===== src/Player/Valid/Turns.antt =====
-- The turns of PlayerThread.cxx, and the invariant of the player.
use mpd_dsd.Prelude.{◌≡◌, refl, arith, Bool, true, false, not, Yields, Yields-map}
use mpd_dsd.Pcm.Format.{AudioFormat}
use mpd_dsd.Player.State.{PlayerCommand, PlayerControl, DecoderControl, is_some, is_no_command}
use mpd_dsd.Player.Commands.{Machine, Phase}
use mpd_dsd.Player.Loop.{round}
use mpd_dsd.Player.Task.{do_play, task_turn, Answers, phase_turn, turn}
use mpd_dsd.Player.Valid.{
  brings_song, IsIdle, IsCoherentAt, IsCoherent, session, GivesFormat, IsSoundRound,
}
use mpd_dsd.Player.Valid.Commands.{process_command-IsCoherent}
use mpd_dsd.Player.Valid.Rounds.{seek_turn-IsCoherent, Follows, round-Follows}

-- In this turn the decoder gives a format when it has started, the pipe gives chunks as its emptiness
-- says, and all chunks are back in the buffer when nothing is played.
pub record IsSound (a : Answers) : Type 0 where
  pub startup_gives : GivesFormat a.startup
  pub round_sound : IsSoundRound a.in_round
  pub chunks_returned : a.returned ≡ true

-- Answered: no command is left, and no song to play next.
pub record IsBegun (m : Machine) : Type 0 where
  pub coherent : IsCoherent m
  pub answered : is_no_command m.pc.command ≡ true
  pub next_gone : is_some m.pc.next_song ≡ false

do_play-IsBegun :
    (memory : AudioFormat) (fails : Bool) (pc : PlayerControl) (dc : DecoderControl)
    → IsIdle pc dc
    → brings_song pc.command ≡ true
    → Yields IsBegun (do_play memory fails pc dc)
unfolding do_play
do_play-IsBegun memory true pc dc h b = ground (arith, h, b)
do_play-IsBegun memory false pc dc h b = ground (arith, h, b)

-- player_task answers every command at once.
pub task_turn-IsBegun :
    (c : PlayerCommand) (memory : AudioFormat) (fails returned : Bool) (pc : PlayerControl)
    (dc : DecoderControl)
    → returned ≡ true
    → pc.command ≡ c
    → IsIdle pc dc
    → Yields IsBegun (task_turn c memory fails returned pc dc)
unfolding task_turn
task_turn-IsBegun PlayerCommand.seek memory fails returned pc dc k e h =
    let there : is_some pc.next_song ≡ true = ground (arith, h.next_brought, e) in
    rw there (do_play-IsBegun memory fails pc dc h (rw e refl))
task_turn-IsBegun PlayerCommand.queue memory fails returned pc dc k e h =
    let there : is_some pc.next_song ≡ true = ground (arith, h.next_brought, e) in
    rw there (do_play-IsBegun memory fails pc dc h (rw e refl))
task_turn-IsBegun PlayerCommand.stop memory fails returned pc dc k e h = ground (arith, h, e)
task_turn-IsBegun PlayerCommand.pause memory fails returned pc dc k e h = ground (arith, h, e)
task_turn-IsBegun PlayerCommand.close_audio memory fails returned pc dc k e h =
    ground (arith, h, e, k)
task_turn-IsBegun PlayerCommand.update_audio memory fails returned pc dc k e h =
    ground (arith, h, e)
task_turn-IsBegun PlayerCommand.exit memory fails returned pc dc k e h = ground (arith, h, e)
task_turn-IsBegun PlayerCommand.cancel memory fails returned pc dc k e h = ground (arith, h, e)
task_turn-IsBegun PlayerCommand.refresh memory fails returned pc dc k e h = ground (arith, h, e)
task_turn-IsBegun PlayerCommand.no_command memory fails returned pc dc k e h = ground (arith, h, e)

phase_turn-IsCoherent :
    (ph : Phase) (a : Answers) (pc : PlayerControl) (dc : DecoderControl)
    → IsSound a
    → IsCoherentAt ph pc dc
    → Yields IsCoherent (phase_turn ph a pc dc)
phase_turn-IsCoherent Phase.idle a pc dc s h =
    Yields-map IsBegun IsCoherent (task_turn pc.command a.memory a.fails a.returned pc dc)
      (task_turn-IsBegun pc.command a.memory a.fails a.returned pc dc s.chunks_returned refl h)
      (λ m k. k.coherent)
phase_turn-IsCoherent (Phase.at_command p) a pc dc s h =
    process_command-IsCoherent pc.command a.opens a.same_song a.fails (session pc dc p) refl h
phase_turn-IsCoherent (Phase.seeking p) a pc dc s h =
    seek_turn-IsCoherent a.startup a.seeks (session pc dc p) s.startup_gives h
phase_turn-IsCoherent (Phase.in_body p) a pc dc s h =
    Yields-map (Follows pc.command (not (is_some pc.next_song))) IsCoherent
      (round a.in_round (session pc dc p))
      (round-Follows a.in_round (session pc dc p) s.round_sound
        (record { undisturbed = h; same_command = refl; stays_gone = λ e. ground (arith, e) }))
      (λ m k. k.coherent)
phase_turn-IsCoherent Phase.exited a pc dc s h = tt

-- A turn
pub turn-IsCoherent :
    (a : Answers) (m : Machine) → IsSound a → IsCoherent m → Yields IsCoherent (turn a m)
unfolding turn
turn-IsCoherent a m s h = phase_turn-IsCoherent m.phase a m.pc m.dc s h
