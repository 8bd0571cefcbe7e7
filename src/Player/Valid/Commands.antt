-- ===== src/Player/Valid/Commands.antt =====
-- ProcessCommand (PlayerThread.cxx), and the invariant of the player.
use mpd_dsd.Prelude.{
  ◌≡◌, refl, arith, Option, some, Bool, true, false, ◌>>=◌, Yields, Yields->>=, Yields-some,
  if_cases,
}
use mpd_dsd.Player.State.{PlayerCommand, Session, is_some, is_seek, ends_run}
use mpd_dsd.Player.Decoding.{seek_begin}
use mpd_dsd.Player.Commands.{
  stopped, leave, after_command, finished, process_queue, process_pause, process_cancel,
  process_seek, process_command,
}
use mpd_dsd.Player.Valid.{is_queue, brings_song, IsPlaying, IsAtCommand, IsSeeking, IsCoherent}

pub leave_lem : (s : Session) → IsPlaying s → leave s ≡ some (stopped s)
unfolding leave
leave_lem s h = ground (arith, h)

pub stopped-IsCoherent :
    (s : Session)
    → IsPlaying s
    → (brings_song s.pc.command ≡ true → s.player.queued ≡ false)
    → (brings_song s.pc.command ≡ true → is_some s.pc.next_song ≡ true)
    → IsCoherent (stopped s)
stopped-IsCoherent s h alone there = ground (arith, h)

pub after_command-IsCoherent :
    (s : Session)
    → IsPlaying s
    → brings_song s.pc.command ≡ false
    → Yields IsCoherent (after_command s)
unfolding after_command
after_command-IsCoherent s h b =
    if_cases (Yields IsCoherent) (ends_run s.pc.command)
      (λ e.
        Yields-some IsCoherent (leave s) (leave_lem s h)
          (stopped-IsCoherent s h (λ t. absurd (cc)) (λ t. absurd (cc))))
      (λ e. record {
        playing = h;
        seek_there = λ t. ground (arith, t, b);
        seek_alone = λ t. ground (arith, t, b);
      })

pub finished-IsPlaying :
    (s : Session) → IsPlaying s → brings_song s.pc.command ≡ false → IsPlaying (finished s)
finished-IsPlaying s h b = ground (arith, h)

-- A session without a command whose next song is queued goes on.
pub goes_on :
    (s : Session) → IsPlaying (finished s) → Yields IsCoherent (after_command (finished s))
goes_on s h = after_command-IsCoherent (finished s) h refl

-- Playing, and no command is left that brings a song.
abbrev pub IsServed : Session → Type 0
IsServed s = IsPlaying s × (brings_song s.pc.command ≡ false)

then_after : (o : Option Session) → Yields IsServed o → Yields IsCoherent (o >>= after_command)
then_after o h =
    Yields->>= IsServed IsCoherent o after_command h (λ s p. after_command-IsCoherent s p.0 p.1)

pub queue-IsServed :
    (s : Session) → IsPlaying s → is_queue s.pc.command ≡ true → Yields IsServed (process_queue s)
queue-IsServed s h q = ground (arith, h)

pub pause-IsServed :
    (opens : Bool) (s : Session)
    → IsPlaying s
    → brings_song s.pc.command ≡ false
    → Yields IsServed (process_pause opens s)
pause-IsServed opens s h b = ground (arith, h)

pub cancel-IsServed :
    (s : Session) → IsPlaying s → brings_song s.pc.command ≡ false → IsServed (process_cancel s)
cancel-IsServed s h b = ground (arith, h)

-- A seek in the decoder's song, or after a new start of the decoder.
seek_begin-IsServed :
    (same_song fails : Bool) (s : Session)
    → IsAtCommand s
    → is_seek s.pc.command ≡ true
    → Yields (λ r. IsSeeking r.0) (seek_begin same_song fails s)
seek_begin-IsServed same_song fails s h q = ground (arith, h.playing, h.seek_there)

pub sought-IsPlaying : (s : Session) → IsSeeking s → IsPlaying (finished s)
sought-IsPlaying s h = ground (arith, h.playing, h.next_gone)

seek-IsCoherent :
    (same_song fails : Bool) (s : Session)
    → IsAtCommand s
    → is_seek s.pc.command ≡ true
    → Yields IsCoherent (process_seek same_song fails s)
seek-IsCoherent same_song fails s h q =
    Yields->>= (λ r. IsSeeking r.0) IsCoherent (seek_begin same_song fails s) _
      (seek_begin-IsServed same_song fails s h q)
      (λ (t, ok) k.
        if_cases (Yields IsCoherent) ok (λ e. k) (λ e. goes_on t (sought-IsPlaying t k)))

-- ProcessCommand
pub process_command-IsCoherent :
    (c : PlayerCommand) (opens same_song fails : Bool) (s : Session)
    → s.pc.command ≡ c
    → IsAtCommand s
    → Yields IsCoherent (process_command c opens same_song fails s)
unfolding process_command
process_command-IsCoherent PlayerCommand.no_command opens same_song fails s e h =
    after_command-IsCoherent s h.playing (rw e refl)
process_command-IsCoherent PlayerCommand.stop opens same_song fails s e h =
    after_command-IsCoherent s h.playing (rw e refl)
process_command-IsCoherent PlayerCommand.exit opens same_song fails s e h =
    after_command-IsCoherent s h.playing (rw e refl)
process_command-IsCoherent PlayerCommand.close_audio opens same_song fails s e h =
    after_command-IsCoherent s h.playing (rw e refl)
process_command-IsCoherent PlayerCommand.update_audio opens same_song fails s e h =
    goes_on s (finished-IsPlaying s h.playing (rw e refl))
process_command-IsCoherent PlayerCommand.refresh opens same_song fails s e h =
    goes_on s (finished-IsPlaying s h.playing (rw e refl))
process_command-IsCoherent PlayerCommand.queue opens same_song fails s e h =
    then_after (process_queue s) (queue-IsServed s h.playing (rw e refl))
process_command-IsCoherent PlayerCommand.pause opens same_song fails s e h =
    then_after (process_pause opens s) (pause-IsServed opens s h.playing (rw e refl))
process_command-IsCoherent PlayerCommand.seek opens same_song fails s e h =
    seek-IsCoherent same_song fails s h (rw e refl)
process_command-IsCoherent PlayerCommand.cancel opens same_song fails s e h =
    let k = cancel-IsServed s h.playing (rw e refl) in
    after_command-IsCoherent (process_cancel s) k.0 k.1
