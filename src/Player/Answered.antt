-- ===== src/Player/Answered.antt =====
-- The client waits for its command: the turns that the player thread takes to finish it.
pub mod Turns
pub mod Seeks
use mpd_dsd.Prelude.{
  ℕ, ◌≡◌, ◌⊎◌, refl, sym, ap, ◌∙◌, arith, Option, none, some, Bool, true, false, ◌&&◌, ◌||◌, not,
  List, [], ◌∷◌, if◌then◌else◌, ◌>>=◌, Bool-cases, inl, inr, Yields, Yields->>=, Yields-map,
  Yields-some, if_cases,
}
use mpd_dsd.Pcm.Format.{AudioFormat, is_defined}
use mpd_dsd.Playlist.State.{PlayerState}
use mpd_dsd.Player.State.{
  PlayerCommand, PlayerControl, DecoderControl, Player, Session, is_some, is_seek, ends_run,
  is_no_command, asserted, command_finished, is_decoder_at_next_song,
}
use mpd_dsd.Player.Decoding.{is_stopped}
use mpd_dsd.Player.Commands.{
  Machine, Phase, stopped, leave, continue_at, after_command, finished, process_queue,
  process_pause, process_cancel, process_command,
}
use mpd_dsd.Player.Loop.{round}
use mpd_dsd.Player.Task.{task_turn, Answers, phase_turn, turn}
use mpd_dsd.Player.Valid.{
  is_queue, brings_song, IsPlaying, IsUndisturbed, IsAtCommand, IsSeeking, IsIdle, IsCoherentAt,
  IsCoherent, session,
}
use mpd_dsd.Player.Valid.Commands.{
  leave_lem, IsServed, queue-IsServed, pause-IsServed, cancel-IsServed, finished-IsPlaying,
}
use mpd_dsd.Player.Valid.Rounds.{Follows, round-Follows}
use mpd_dsd.Player.Valid.Turns.{IsSound, turn-IsCoherent, IsBegun, task_turn-IsBegun}

-- The commands behind which PlayerControl asserts that no song is left to play next.
abbrev pub clears_next : PlayerCommand → Bool
clears_next PlayerCommand.stop = true
clears_next PlayerCommand.cancel = true
clears_next PlayerCommand.seek = true
clears_next PlayerCommand.close_audio = true
clears_next _ = false

-- The wait of the client is over, with what it asserts then.
pub record IsAnswered (c : PlayerCommand) (m : Machine) : Type 0 where
  pub finished : is_no_command m.pc.command ≡ true
  pub cleared : clears_next c ≡ true → is_some m.pc.next_song ≡ false

-- Finished, or to be finished by player_task.
abbrev pub IsDue : PlayerCommand → Machine → Type 0
IsDue c m = IsAnswered c m ⊎ (m.phase ≡ Phase.idle)

pub idle-IsAnswered :
    (c : PlayerCommand) (a : Answers) (pc : PlayerControl) (dc : DecoderControl)
    → a.returned ≡ true
    → IsIdle pc dc
    → Yields (IsAnswered c) (task_turn pc.command a.memory a.fails a.returned pc dc)
idle-IsAnswered c a pc dc r h =
    Yields-map IsBegun (IsAnswered c) (task_turn pc.command a.memory a.fails a.returned pc dc)
      (task_turn-IsBegun pc.command a.memory a.fails a.returned pc dc r refl h)
      (λ m k. record { finished = k.answered; cleared = λ e. k.next_gone })

-- What a session answers when it goes on.
after_command-IsDue :
    (c : PlayerCommand) (s : Session)
    → IsPlaying s
    → (ends_run s.pc.command ≡ false → is_no_command s.pc.command ≡ true)
    → (clears_next c ≡ true → ends_run s.pc.command ≡ false → is_some s.pc.next_song ≡ false)
    → Yields (IsDue c) (after_command s)
unfolding after_command
after_command-IsDue c s h f g =
    if_cases (Yields (IsDue c)) (ends_run s.pc.command)
      (λ e. Yields-some (IsDue c) (leave s) (leave_lem s h) (inr refl))
      (λ e. inl (record { finished = f e; cleared = λ k. g k e }))

served-IsDue :
    (c : PlayerCommand) (o : Option Session)
    → clears_next c ≡ false
    → Yields (λ s. IsPlaying s × (is_no_command s.pc.command ≡ true)) o
    → Yields (IsDue c) (o >>= after_command)
served-IsDue c o k h =
    Yields->>= (λ s. IsPlaying s × (is_no_command s.pc.command ≡ true)) (IsDue c) o after_command h
      (λ s p. after_command-IsDue c s p.0 (λ e. p.1) (λ t. absurd (cc)))

queue-finished :
    (s : Session)
    → IsPlaying s
    → is_queue s.pc.command ≡ true
    → Yields (λ t. IsPlaying t × (is_no_command t.pc.command ≡ true)) (process_queue s)
queue-finished s h q = ground (arith, h)

pause-finished :
    (opens : Bool) (s : Session)
    → IsPlaying s
    → brings_song s.pc.command ≡ false
    → Yields (λ t. IsPlaying t × (is_no_command t.pc.command ≡ true)) (process_pause opens s)
pause-finished opens s h b = ground (arith, h)

cancelled :
    (s : Session)
    → IsPlaying s
    → brings_song s.pc.command ≡ false
    → is_some (process_cancel s).pc.next_song ≡ false
cancelled s h b = ground (arith, h)

cancel_ends :
    (s : Session)
    → ends_run (process_cancel s).pc.command ≡ false
    → is_no_command (process_cancel s).pc.command ≡ true
cancel_ends s e = ground (arith, e)

pub command-IsDue :
    (c : PlayerCommand) (opens same_song fails : Bool) (s : Session)
    → s.pc.command ≡ c
    → is_seek c ≡ false
    → IsAtCommand s
    → Yields (IsDue c) (process_command c opens same_song fails s)
unfolding process_command
command-IsDue PlayerCommand.no_command opens same_song fails s e n h =
    after_command-IsDue PlayerCommand.no_command s h.playing (λ f. rw e refl) (λ k. absurd (cc))
command-IsDue PlayerCommand.stop opens same_song fails s e n h =
    after_command-IsDue PlayerCommand.stop s h.playing (λ f. absurd (ground (arith, e, f)))
      (λ k f. absurd (ground (arith, e, f)))
command-IsDue PlayerCommand.exit opens same_song fails s e n h =
    after_command-IsDue PlayerCommand.exit s h.playing (λ f. absurd (ground (arith, e, f)))
      (λ k f. absurd (ground (arith, e, f)))
command-IsDue PlayerCommand.close_audio opens same_song fails s e n h =
    after_command-IsDue PlayerCommand.close_audio s h.playing (λ f. absurd (ground (arith, e, f)))
      (λ k f. absurd (ground (arith, e, f)))
command-IsDue PlayerCommand.update_audio opens same_song fails s e n h =
    after_command-IsDue PlayerCommand.update_audio (finished s)
      (finished-IsPlaying s h.playing (rw e refl)) (λ f. refl) (λ k. absurd (cc))
command-IsDue PlayerCommand.refresh opens same_song fails s e n h =
    after_command-IsDue PlayerCommand.refresh (finished s)
      (finished-IsPlaying s h.playing (rw e refl)) (λ f. refl) (λ k. absurd (cc))
command-IsDue PlayerCommand.queue opens same_song fails s e n h =
    served-IsDue PlayerCommand.queue (process_queue s) refl (queue-finished s h.playing (rw e refl))
command-IsDue PlayerCommand.pause opens same_song fails s e n h =
    served-IsDue PlayerCommand.pause (process_pause opens s) refl
      (pause-finished opens s h.playing (rw e refl))
command-IsDue PlayerCommand.seek opens same_song fails s e n h = absurd (cc)
command-IsDue PlayerCommand.cancel opens same_song fails s e n h =
    let b : brings_song s.pc.command ≡ false = rw e refl in
    after_command-IsDue PlayerCommand.cancel (process_cancel s) (cancel-IsServed s h.playing b).0
      (cancel_ends s) (λ k f. cancelled s h.playing b)
