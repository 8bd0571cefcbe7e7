-- ===== src/Player/Answered/Seeks.antt =====
-- The turns of PlayerThread.cxx while a seek waits for the decoder.
use mpd_dsd.Prelude.{
  ◌≡◌, ◌⊎◌, refl, sym, subst, arith, Bool, true, false, ◌&&◌, ◌||◌, not, [], ◌∷◌, inl, inr, Yields,
  Yields->>=, Yields-map, if_cases,
}
use mpd_dsd.Player.State.{PlayerCommand, PlayerControl, DecoderControl, Player, Session, is_some}
use mpd_dsd.Player.Decoding.{Startup, check_decoder_startup, seek_finish}
use mpd_dsd.Player.Commands.{Machine, Phase, finished, after_command, seek_checked, seek_turn}
use mpd_dsd.Player.Task.{Answers, phase_turn, turn}
use mpd_dsd.Player.Valid.{IsSeeking, IsCoherentAt, IsCoherent, session}
use mpd_dsd.Player.Valid.Rounds.{startup-IsSeeking}
use mpd_dsd.Player.Valid.Turns.{IsSound, turn-IsCoherent}
use mpd_dsd.Player.Answered.{IsAnswered}
use mpd_dsd.Player.Answered.Turns.{turns, both, stays-IsAnswered}

-- The decoder is not starting any more, and the outputs have played what came before.
abbrev pub EndsWait : Startup → Type 0
EndsWait a = (a.failed || (not a.is_starting && a.drained)) ≡ true

-- Answered, or about to be.
abbrev IsSought : Machine → Type 0
IsSought m =
    IsAnswered PlayerCommand.seek m
    ⊎ ((p : Player) × (m.phase ≡ Phase.seeking p) × (p.decoder_starting ≡ false))

finished-IsAnswered :
    (s : Session)
    → is_some s.pc.next_song ≡ false
    → Yields (IsAnswered PlayerCommand.seek) (after_command (finished s))
unfolding after_command
finished-IsAnswered s g = record { finished = refl; cleared = λ e. g }

seek_finish-IsAnswered :
    (seeks : Bool) (s : Session)
    → is_some s.pc.next_song ≡ false
    → Yields (IsAnswered PlayerCommand.seek) (after_command (seek_finish seeks s))
unfolding after_command
seek_finish-IsAnswered true s g = record { finished = refl; cleared = λ e. g }
seek_finish-IsAnswered false s g = record { finished = refl; cleared = λ e. g }

-- What the check leaves: a failure, or a decoder that has started.
startup_ends :
    (a : Startup) (s : Session)
    → EndsWait a
    → s.player.decoder_starting ≡ true
    → Yields (λ r. IsSeeking r.0) (check_decoder_startup a s)
    → Yields
        (λ r. IsSeeking r.0 × ((r.1 ≡ false) ⊎ (r.0.player.decoder_starting ≡ false)))
        (check_decoder_startup a s)
startup_ends a s e d h = ground (arith, e, d, h)

checked-IsSought :
    (s : Session) (ok : Bool)
    → IsSeeking s
    → (ok ≡ false) ⊎ (s.player.decoder_starting ≡ false)
    → Yields IsSought (seek_checked (s, ok))
checked-IsSought s true h (inl e) = absurd (cc)
checked-IsSought s true h (inr e) = inr (s.player, refl, e)
checked-IsSought s false h e =
    Yields-map (IsAnswered PlayerCommand.seek) IsSought (after_command (finished s))
      (finished-IsAnswered s h.next_gone) (λ m k. inl k)

first-IsSought :
    (a : Answers) (s : Session)
    → IsSound a
    → EndsWait a.startup
    → IsSeeking s
    → Yields IsSought (seek_turn a.startup a.seeks s)
unfolding seek_turn
first-IsSought a s sound e h =
    if_cases (Yields IsSought) s.player.decoder_starting
      (λ d.
        Yields->>= (λ r. IsSeeking r.0 × ((r.1 ≡ false) ⊎ (r.0.player.decoder_starting ≡ false)))
          IsSought (check_decoder_startup a.startup s) seek_checked
          (startup_ends a.startup s e d (startup-IsSeeking a.startup s sound.startup_gives h d))
          (λ (t, ok) k. checked-IsSought t ok k.0 k.1))
      (λ d.
        Yields-map (IsAnswered PlayerCommand.seek) IsSought (after_command (seek_finish a.seeks s))
          (seek_finish-IsAnswered a.seeks s h.next_gone) (λ m k. inl k))

started-IsAnswered :
    (b : Answers) (s : Session)
    → s.player.decoder_starting ≡ false
    → IsSeeking s
    → Yields (IsAnswered PlayerCommand.seek) (seek_turn b.startup b.seeks s)
unfolding seek_turn
started-IsAnswered b s d h =
    if_cases (Yields (IsAnswered PlayerCommand.seek)) s.player.decoder_starting
      (λ e. absurd (ground (arith, d, e))) (λ e. seek_finish-IsAnswered b.seeks s h.next_gone)

then-IsAnswered :
    (b : Answers) (m : Machine)
    → IsSound b
    → IsCoherent m
    → IsSought m
    → Yields (IsAnswered PlayerCommand.seek) (turn b m)
unfolding turn
then-IsAnswered b m sound h (inl k) = stays-IsAnswered PlayerCommand.seek b m sound h k
then-IsAnswered b m sound h (inr (p, e, d)) =
    subst
      (λ ph.
        IsCoherentAt ph m.pc m.dc
        → Yields (IsAnswered PlayerCommand.seek) (phase_turn ph b m.pc m.dc))
      (sym e) (λ k. started-IsAnswered b (session m.pc m.dc p) d k) h

-- A seek that waits for the decoder is finished, with no next song left, within two turns once the
-- decoder has failed, or has started and the outputs have played what came before, as long as
-- decoders give a format when they have started, a pipe that is not empty gives a chunk of the
-- format that is played and with no other chunk mixed into it, and all chunks are back in the buffer
-- whenever nothing is played.
pub seek_turns-IsAnswered :
    (a b : Answers) (pc : PlayerControl) (dc : DecoderControl) (p : Player)
    → IsSeeking (session pc dc p)
    → IsSound a
    → IsSound b
    → EndsWait a.startup
    → Yields
        (IsAnswered PlayerCommand.seek)
        (turns (a ∷ b ∷ []) (record { pc = pc; dc = dc; phase = Phase.seeking p }))
unfolding turns turn
seek_turns-IsAnswered a b pc dc p h sa sb e =
    Yields->>= (λ m. IsCoherent m × IsSought m) (IsAnswered PlayerCommand.seek)
      (seek_turn a.startup a.seeks (session pc dc p)) (turns (b ∷ []))
      (both IsCoherent IsSought (seek_turn a.startup a.seeks (session pc dc p))
        (turn-IsCoherent a (record { pc = pc; dc = dc; phase = Phase.seeking p }) sa h)
        (first-IsSought a (session pc dc p) sa e h))
      (λ m k.
        Yields->>= (IsAnswered PlayerCommand.seek) (IsAnswered PlayerCommand.seek) (turn b m)
          (turns []) (then-IsAnswered b m sb k.0 k.1) (λ n l. l))
