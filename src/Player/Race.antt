-- ===== src/Player/Race.antt =====
-- A seek while the player is at the border of two songs.
use mpd_dsd.Prelude.{
  ℕ, ◌≡◌, refl, sym, subst, arith, none, some, true, false, not, ltb, Yields, Yields->>=,
  Yields-map, Bool, Yields-some, if_cases,
}
use mpd_dsd.Player.State.{PlayerCommand, Player, Session, is_some, is_seek, is_decoder_at_next_song}
use mpd_dsd.Player.Commands.{
  Machine, Phase, process_seek, process_command, after_command, leave, continue_at,
}
use mpd_dsd.Player.Loop.{
  RoundAnswers, song_border, go_on, prefetch, calculate_fade, at_end, play_round, round,
}
use mpd_dsd.Player.Task.{Answers, turn}

-- At the border: the decoder is at the next song, and all chunks of the current one are played.
pub record IsAtBorder (a : RoundAnswers) (s : Session) : Type 0 where
  pub at_next : is_decoder_at_next_song s ≡ true
  pub queued : s.player.queued ≡ true
  pub filled : s.player.buffering ≡ false
  pub started : s.player.decoder_starting ≡ false
  pub playing : s.player.paused ≡ false
  pub pipe_empty : a.pipe_empty ≡ true
  pub outputs_empty : a.next_check ≡ 0
  pub decoder_works : a.decoder_fails ≡ false

-- A seek is to be processed, and its song has been taken for another one.
abbrev IsTaken : ℕ → Machine → Type 0
IsTaken song m =
    (p : Player) × (m.phase ≡ Phase.at_command p)
    × (p.song ≡ some song)
    × (is_seek m.pc.command ≡ true)
    × (is_some m.pc.next_song ≡ false)

-- The song to seek in is the current song of the player, and the next turn fails for want of a next
-- song: with one it would not.
pub record IsSeekLost (song : ℕ) (b : Answers) (m : Machine) : Type 0 where
  pub player : Player
  pub at_command : m.phase ≡ Phase.at_command player
  pub taken : player.song ≡ some song
  pub commanded : is_seek m.pc.command ≡ true
  pub next_gone : is_some m.pc.next_song ≡ false
  pub fails : turn b m ≡ none
  pub otherwise :
      Yields (λ _. Unit) (turn b (record m { pc = record m.pc { next_song = some song } }))

-- The session in which the client has called Seek.
abbrev pub sought : ℕ → Session → Session
sought song s = record s {
  pc = record s.pc { next_song = some song; command = PlayerCommand.seek };
}

border_takes :
    (song : ℕ) (s : Session)
    → is_decoder_at_next_song s ≡ true
    → s.player.queued ≡ true
    → is_seek s.pc.command ≡ true
    → s.pc.next_song ≡ some song
    → Yields
        (λ r.
          (r.1 ≡ true)
          × (r.0.player.song ≡ some song)
          × (is_seek r.0.pc.command ≡ true)
          × (is_some r.0.pc.next_song ≡ false))
        (song_border false s)
border_takes song s n q c t = ground arith

lost_at_end :
    (song : ℕ) (a : RoundAnswers) (s : Session)
    → IsAtBorder a s
    → is_seek s.pc.command ≡ true
    → s.pc.next_song ≡ some song
    → Yields (IsTaken song) (at_end a s)
lost_at_end song a s h c t =
    rw (h.at_next, h.decoder_works)
      (Yields->>=
        (λ r.
          (r.1 ≡ true)
          × (r.0.player.song ≡ some song)
          × (is_seek r.0.pc.command ≡ true)
          × (is_some r.0.pc.next_song ≡ false))
        (IsTaken song) (song_border false s) go_on (border_takes song s h.at_next h.queued c t)
        (λ (u, ok) (e, j, k, g). rw e (u.player, refl, j, k, g)))

no_prefetch :
    (a : RoundAnswers) (s : Session) → is_decoder_at_next_song s ≡ true → prefetch a s ≡ some s
no_prefetch a s n = ground arith

faded-IsAtBorder :
    (a : RoundAnswers) (s : Session)
    → IsAtBorder a s
    → IsAtBorder a (calculate_fade a s) × ((calculate_fade a s).pc ≡ s.pc)
faded-IsAtBorder a s h = ground (arith, h)

lost_playing :
    (song : ℕ) (a : RoundAnswers) (s : Session)
    → IsAtBorder a s
    → is_seek s.pc.command ≡ true
    → s.pc.next_song ≡ some song
    → Yields (IsTaken song) (play_round a s)
lost_playing song a s h c t =
    if_cases (Yields (IsTaken song)) s.player.paused (λ p. absurd (ground (arith, p, h.playing)))
      (λ p.
        if_cases (Yields (IsTaken song)) (not a.pipe_empty)
          (λ e. absurd (ground (arith, e, h.pipe_empty)))
          (λ e.
            if_cases (Yields (IsTaken song)) (ltb 0 a.next_check)
              (λ l. absurd (ground (arith, l, h.outputs_empty))) (λ l. lost_at_end song a s h c t)))

lost_in_round :
    (song : ℕ) (a : RoundAnswers) (s : Session)
    → IsAtBorder a s
    → is_seek s.pc.command ≡ true
    → s.pc.next_song ≡ some song
    → Yields (IsTaken song) (round a s)
unfolding round
lost_in_round song a s h c t =
    if_cases (Yields (IsTaken song)) s.player.buffering (λ b. absurd (ground (arith, b, h.filled)))
      (λ b.
        if_cases (Yields (IsTaken song)) s.player.decoder_starting
          (λ d. absurd (ground (arith, d, h.started)))
          (λ d.
            Yields->>= (λ t. t ≡ s) (IsTaken song) (prefetch a s)
              (λ t. play_round a (calculate_fade a t))
              (Yields-some (λ t. t ≡ s) (prefetch a s) (no_prefetch a s h.at_next) refl)
              (λ u e.
                subst (λ v. Yields (IsTaken song) (play_round a (calculate_fade a v))) (sym e)
                  faded)))
  where
    faded : Yields (IsTaken song) (play_round a (calculate_fade a s))
    faded =
        let (f, e) = faded-IsAtBorder a s h in
        lost_playing song a (calculate_fade a s) f (ground (arith, c, e)) (ground (arith, t, e))

-- The turn that processes the seek.
lost_turn : (song : ℕ) (b : Answers) (m : Machine) → IsTaken song m → turn b m ≡ none
unfolding turn process_command
lost_turn song b m (p, e, j, c, g) =
    let f : m.pc.command ≡ PlayerCommand.seek = ground (arith, c) in rw (e, f, g) refl

-- A seek that has its song.
kept_seek :
    (same_song fails : Bool) (s : Session)
    → s.pc.command ≡ PlayerCommand.seek
    → is_some s.pc.next_song ≡ true
    → Yields (λ _. Unit) (process_seek same_song fails s)
unfolding after_command leave
kept_seek same_song true s c n = ground (arith, c, n)
kept_seek same_song false s c n = ground (arith, c, n)

kept_turn :
    (song : ℕ) (b : Answers) (m : Machine)
    → IsTaken song m
    → Yields (λ _. Unit) (turn b (record m { pc = record m.pc { next_song = some song } }))
unfolding turn process_command
kept_turn song b m (p, e, j, c, g) =
    let f : m.pc.command ≡ PlayerCommand.seek = ground (arith, c) in
    let s : Session = record {
      pc = record m.pc { command = PlayerCommand.seek; next_song = some song };
      dc = m.dc;
      player = p;
    } in
    rw (e, f) (kept_seek b.same_song b.fails s refl refl)

-- The client seeks while the player is at the border of two songs, between a command and the rest of
-- its loop, with a song queued, all chunks played and a decoder that works. Then the rest of the
-- loop makes the song to seek in the current song of the player, which takes it for the one that the
-- decoder is at, and leaves the command to seek without a next song; the turn that processes it
-- fails an assertion, which it would not do with a next song.
pub seek_races :
    (a b : Answers) (s : Session) (song : ℕ)
    → IsAtBorder a.in_round s
    → Yields (IsSeekLost song b) (turn a (continue_at Phase.in_body (sought song s)))
unfolding turn
seek_races a b s song h =
    Yields-map (IsTaken song) (IsSeekLost song b) (round a.in_round (sought song s))
      (lost_in_round song a.in_round (sought song s) (ground (arith, h)) refl refl)
      (λ m k. record {
        player = k.0;
        at_command = k.1;
        taken = k.2;
        commanded = k.3;
        next_gone = k.4;
        fails = lost_turn song b m k;
        otherwise = kept_turn song b m k;
      })
