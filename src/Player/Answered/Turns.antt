-- ===== src/Player/Answered/Turns.antt =====
-- The turns of PlayerThread.cxx from a command of the client on.
use mpd_dsd.Prelude.{
  ◌≡◌, ◌⊎◌, refl, sym, ap, ◌∙◌, subst, arith, Option, none, some, Bool, true, false, not, List, [],
  ◌∷◌, ◌>>=◌, inl, inr, Yields, Yields->>=, Yields-map,
}
use mpd_dsd.Player.State.{
  PlayerCommand, PlayerControl, DecoderControl, Player, is_some, is_seek, is_no_command,
}
use mpd_dsd.Player.Commands.{Machine, Phase, process_command, after_command}
use mpd_dsd.Player.Loop.{round}
use mpd_dsd.Player.Task.{task_turn, Answers, phase_turn, turn}
use mpd_dsd.Player.Valid.{IsUndisturbed, IsCoherentAt, IsCoherent, session}
use mpd_dsd.Player.Valid.Rounds.{Follows, round-Follows, is_past_body}
use mpd_dsd.Player.Valid.Turns.{IsSound, turn-IsCoherent}
use mpd_dsd.Player.Answered.{clears_next, IsAnswered, IsDue, idle-IsAnswered, command-IsDue}

-- What the rest of the loop leaves of the command.
body_follows :
    (a : Answers) (p : Player) (pc : PlayerControl) (dc : DecoderControl)
    → IsSound a
    → IsUndisturbed (session pc dc p)
    → Yields (Follows pc.command (not (is_some pc.next_song))) (round a.in_round (session pc dc p))
body_follows a p pc dc s h =
    round-Follows a.in_round (session pc dc p) s.round_sound
      (record { undisturbed = h; same_command = refl; stays_gone = λ e. ground (arith, e) })

still-IsAnswered :
    (c : PlayerCommand) (a : Answers) (p : Player) (pc : PlayerControl) (dc : DecoderControl)
    → is_no_command pc.command ≡ true
    → (clears_next c ≡ true → is_some pc.next_song ≡ false)
    → Yields
        (IsAnswered c)
        (process_command pc.command a.opens a.same_song a.fails (session pc dc p))
unfolding process_command after_command
still-IsAnswered c a p pc dc n k =
    let e : pc.command ≡ PlayerCommand.no_command = ground (arith, n) in
    rw e (record { finished = refl; cleared = k })

phase-IsAnswered :
    (ph : Phase) (c : PlayerCommand) (a : Answers) (pc : PlayerControl) (dc : DecoderControl)
    → IsSound a
    → IsCoherentAt ph pc dc
    → is_no_command pc.command ≡ true
    → (clears_next c ≡ true → is_some pc.next_song ≡ false)
    → Yields (IsAnswered c) (phase_turn ph a pc dc)
phase-IsAnswered Phase.idle c a pc dc s h n k = idle-IsAnswered c a pc dc s.chunks_returned h
phase-IsAnswered (Phase.at_command p) c a pc dc s h n k = still-IsAnswered c a p pc dc n k
phase-IsAnswered (Phase.seeking p) c a pc dc s h n k = absurd (ground (arith, h.command_seek, n))
phase-IsAnswered (Phase.in_body p) c a pc dc s h n k =
    Yields-map (Follows pc.command (not (is_some pc.next_song))) (IsAnswered c)
      (round a.in_round (session pc dc p)) (body_follows a p pc dc s h)
      (λ m f. record {
        finished = ap is_no_command f.same_command ∙ n;
        cleared = λ e. f.stays_gone (ap not (k e));
      })
phase-IsAnswered Phase.exited c a pc dc s h n k = record { finished = n; cleared = k }

-- An answer lasts.
pub stays-IsAnswered :
    (c : PlayerCommand) (a : Answers) (m : Machine)
    → IsSound a
    → IsCoherent m
    → IsAnswered c m
    → Yields (IsAnswered c) (turn a m)
unfolding turn
stays-IsAnswered c a m s h k = phase-IsAnswered m.phase c a m.pc m.dc s h k.finished k.cleared

-- Due, or at the command.
abbrev IsAhead : PlayerCommand → Machine → Type 0
IsAhead c m = IsDue c m ⊎ ((is_past_body m.phase ≡ true) × (m.pc.command ≡ c))

due_turn :
    (c : PlayerCommand) (a : Answers) (m : Machine)
    → IsSound a
    → IsCoherent m
    → IsDue c m
    → Yields (IsAnswered c) (turn a m)
unfolding turn
due_turn c a m s h (inl k) = stays-IsAnswered c a m s h k
due_turn c a m s h (inr e) = idle_phase m.phase e h
  where
    idle_phase :
        (ph : Phase)
        → ph ≡ Phase.idle
        → IsCoherentAt ph m.pc m.dc
        → Yields (IsAnswered c) (phase_turn ph a m.pc m.dc)
    idle_phase Phase.idle e h = idle-IsAnswered c a m.pc m.dc s.chunks_returned h
    idle_phase (Phase.at_command p) e h = absurd (cc)
    idle_phase (Phase.seeking p) e h = absurd (cc)
    idle_phase (Phase.in_body p) e h = absurd (cc)
    idle_phase Phase.exited e h = absurd (cc)

ahead_phase :
    (ph : Phase) (a : Answers) (pc : PlayerControl) (dc : DecoderControl)
    → a.returned ≡ true
    → is_past_body ph ≡ true
    → is_seek pc.command ≡ false
    → IsCoherentAt ph pc dc
    → Yields (IsDue pc.command) (phase_turn ph a pc dc)
ahead_phase Phase.idle a pc dc r past n h =
    Yields-map (IsAnswered pc.command) (IsDue pc.command)
      (task_turn pc.command a.memory a.fails a.returned pc dc)
      (idle-IsAnswered pc.command a pc dc r h) (λ m k. inl k)
ahead_phase (Phase.at_command p) a pc dc r past n h =
    command-IsDue pc.command a.opens a.same_song a.fails (session pc dc p) refl n h
ahead_phase (Phase.seeking p) a pc dc r past n h = absurd (cc)
ahead_phase (Phase.in_body p) a pc dc r past n h = absurd (cc)
ahead_phase Phase.exited a pc dc r past n h = absurd (cc)

ahead_turn :
    (c : PlayerCommand) (a : Answers) (m : Machine)
    → IsSound a
    → IsCoherent m
    → is_seek c ≡ false
    → IsAhead c m
    → Yields (IsDue c) (turn a m)
unfolding turn
ahead_turn c a m s h n (inl d) =
    Yields-map (IsAnswered c) (IsDue c) (turn a m) (due_turn c a m s h d) (λ t k. inl k)
ahead_turn c a m s h n (inr (past, e)) =
    subst (λ d. Yields (IsDue d) (turn a m)) e
      (ahead_phase m.phase a m.pc m.dc s.chunks_returned past
        (subst (λ d. is_seek d ≡ false) (sym e) n) h)

abbrev pub is_exited : Phase → Bool
is_exited Phase.exited = true
is_exited _ = false

-- Whatever the thread is at, the command comes up next.
first_phase :
    (ph : Phase) (a : Answers) (pc : PlayerControl) (dc : DecoderControl)
    → IsSound a
    → is_exited ph ≡ false
    → is_seek pc.command ≡ false
    → IsCoherentAt ph pc dc
    → Yields (IsAhead pc.command) (phase_turn ph a pc dc)
first_phase Phase.idle a pc dc s x n h =
    Yields-map (IsDue pc.command) (IsAhead pc.command)
      (task_turn pc.command a.memory a.fails a.returned pc dc)
      (ahead_phase Phase.idle a pc dc s.chunks_returned refl n h) (λ m k. inl k)
first_phase (Phase.at_command p) a pc dc s x n h =
    Yields-map (IsDue pc.command) (IsAhead pc.command)
      (process_command pc.command a.opens a.same_song a.fails (session pc dc p))
      (ahead_phase (Phase.at_command p) a pc dc s.chunks_returned refl n h) (λ m k. inl k)
first_phase (Phase.seeking p) a pc dc s x n h = absurd (ground (arith, h.command_seek, n))
first_phase (Phase.in_body p) a pc dc s x n h =
    Yields-map (Follows pc.command (not (is_some pc.next_song))) (IsAhead pc.command)
      (round a.in_round (session pc dc p)) (body_follows a p pc dc s h)
      (λ m f. inr (f.past_body, f.same_command))
first_phase Phase.exited a pc dc s x n h = absurd (cc)

first_turn :
    (a : Answers) (m : Machine)
    → IsSound a
    → is_exited m.phase ≡ false
    → is_seek m.pc.command ≡ false
    → IsCoherent m
    → Yields (IsAhead m.pc.command) (turn a m)
unfolding turn
first_turn a m s x n h = first_phase m.phase a m.pc m.dc s x n h

-- Turns with no step of the client between them.
unfoldable pub turns : List Answers → Machine → Option Machine
turns [] m = some m
turns (a ∷ rest) m = turn a m >>= turns rest

-- Both hold of what the turn yields.
pub both :
    {A : Type 0} (P Q : A → Type 0) (o : Option A)
    → Yields P o
    → Yields Q o
    → Yields (λ x. P x × Q x) o
both P Q none p q = p
both P Q (some x) p q = (p, q)

-- Three turns of the player thread finish any command but a seek on a coherent machine whose thread
-- has not exited, whatever the decoder and the outputs answer, as long as decoders give a format
-- when they have started, a pipe that is not empty gives a chunk of the format that is played and
-- with no other chunk mixed into it, and all chunks are back in the buffer whenever nothing is
-- played; and no next song is left where PlayerControl asserts that after Stop, Cancel or a command
-- to stop.
pub command-IsAnswered :
    (m : Machine) (a b c : Answers)
    → IsCoherent m
    → is_exited m.phase ≡ false
    → is_seek m.pc.command ≡ false
    → IsSound a
    → IsSound b
    → IsSound c
    → Yields (IsAnswered m.pc.command) (turns (a ∷ b ∷ c ∷ []) m)
unfolding turns
command-IsAnswered m a b c h x n sa sb sc =
    Yields->>= (λ t. IsCoherent t × IsAhead d t) (IsAnswered d) (turn a m) (turns (b ∷ c ∷ []))
      (both IsCoherent (IsAhead d) (turn a m) (turn-IsCoherent a m sa h) (first_turn a m sa x n h))
      (λ t k.
        Yields->>= (λ u. IsCoherent u × IsDue d u) (IsAnswered d) (turn b t) (turns (c ∷ []))
          (both IsCoherent (IsDue d) (turn b t) (turn-IsCoherent b t sb k.0)
            (ahead_turn d b t sb k.0 n k.1))
          (λ u l.
            Yields->>= (IsAnswered d) (IsAnswered d) (turn c u) (turns [])
              (due_turn d c u sc l.0 l.1) (λ v w. w)))
  where
    d : PlayerCommand
    d = m.pc.command
