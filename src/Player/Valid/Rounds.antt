-- ===== src/Player/Valid/Rounds.antt =====
-- The rounds of the loop of Run (PlayerThread.cxx), and the invariant of the player.
use mpd_dsd.Prelude.{
  ◌≡◌, refl, ap, ◌∙◌, arith, Bool, true, false, ◌&&◌, not, ltb, leb, Yields, Yields->>=, Yields-map,
  Yields-some, if_cases, ◌||◌, Option, some, ◌>>=◌,
}
use mpd_dsd.Pcm.Format.{is_defined}
use mpd_dsd.Player.State.{
  PlayerCommand, Session, is_some, is_decoder_at_next_song, is_decoder_at_current_song, asserted,
}
use mpd_dsd.Player.Decoding.{
  is_stopped, Startup, wait_for_decoder, check_decoder_startup, seek_finish,
}
use mpd_dsd.Player.Commands.{
  Machine, Phase, leave, continue_at, after_command, seek_turn, seek_checked,
}
use mpd_dsd.Player.Loop.{
  ChunkAnswers, RoundAnswers, is_enabled, tagged, rated, chunk_played, send_chunk, fade_chunk,
  play_next_chunk, silence_then, go_on, replace_pipe, border_paused, song_border, start_next,
  prefetch, calculate_fade, at_end, play_round, filled_round, buffering_done, round,
}
use mpd_dsd.Player.Valid.{
  IsPlaying, IsUndisturbed, IsSeeking, IsCoherent, GivesFormat, IsSoundRound,
}
use mpd_dsd.Player.Valid.Commands.{
  leave_lem, stopped-IsCoherent, after_command-IsCoherent, goes_on, sought-IsPlaying,
}

-- A step that leaves commands and songs alone.
pub record IsKept (s t : Session) : Type 0 where
  pub same_command : t.pc.command ≡ s.pc.command
  pub same_next : t.pc.next_song ≡ s.pc.next_song
  pub same_queued : t.player.queued ≡ s.player.queued
  pub same_dc : t.dc ≡ s.dc
  pub same_pipe : t.player.pipe ≡ s.player.pipe
  pub running : is_stopped t.pc.state ≡ false
  pub open_defined : t.player.output_open ≡ true → is_defined t.player.play_audio_format ≡ true

kept-IsPlaying : (s t : Session) → IsPlaying s → IsKept s t → IsPlaying t
kept-IsPlaying s t h k = ground (arith, h, k)

kept-IsUndisturbed : (s t : Session) → IsUndisturbed s → IsKept s t → IsUndisturbed t
kept-IsUndisturbed s t h k = record {
  playing = kept-IsPlaying s t h.playing k;
  seek_there = ground (arith, h.seek_there, k);
  seek_alone = ground (arith, h.seek_alone, k);
}

kept-IsSeeking : (s t : Session) → IsSeeking s → IsKept s t → IsSeeking t
kept-IsSeeking s t h k = record {
  playing = kept-IsPlaying s t h.playing k;
  command_seek = ground (arith, h.command_seek, k);
  next_gone = ground (arith, h.next_gone, k);
}

startup-IsKept :
    (a : Startup) (s : Session)
    → GivesFormat a
    → is_stopped s.pc.state ≡ false
    → (s.player.output_open ≡ true → is_defined s.player.play_audio_format ≡ true)
    → s.player.decoder_starting ≡ true
    → Yields (λ r. IsKept s r.0) (check_decoder_startup a s)
startup-IsKept a s g r o d = ground (arith, g)

pub startup-IsSeeking :
    (a : Startup) (s : Session)
    → GivesFormat a
    → IsSeeking s
    → s.player.decoder_starting ≡ true
    → Yields (λ r. IsSeeking r.0) (check_decoder_startup a s)
startup-IsSeeking a s g h e =
    Yields-map (λ r. IsKept s r.0) (λ r. IsSeeking r.0) (check_decoder_startup a s)
      (startup-IsKept a s g h.playing.running h.playing.open_defined e)
      (λ r k. kept-IsSeeking s r.0 h k)

-- A round of the loop in SeekDecoder
pub seek_turn-IsCoherent :
    (a : Startup) (seeks : Bool) (s : Session)
    → GivesFormat a
    → IsSeeking s
    → Yields IsCoherent (seek_turn a seeks s)
unfolding seek_turn
seek_turn-IsCoherent a seeks s g h =
    if_cases (Yields IsCoherent) s.player.decoder_starting
      (λ e.
        Yields->>= (λ r. IsKept s r.0) IsCoherent (check_decoder_startup a s) seek_checked
          (startup-IsKept a s g h.playing.running h.playing.open_defined e)
          (λ (t, ok) k. checked t ok (kept-IsSeeking s t h k)))
      (λ e. goes_on_after seeks)
  where
    checked : (t : Session) (ok : Bool) → IsSeeking t → Yields IsCoherent (seek_checked (t, ok))
    checked t true k = k
    checked t false k = goes_on t (sought-IsPlaying t k)

    goes_on_after : (seeks : Bool) → Yields IsCoherent (after_command (seek_finish seeks s))
    goes_on_after true =
        after_command-IsCoherent (seek_finish true s) (ground (arith, h.playing, h.next_gone)) refl
    goes_on_after false =
        after_command-IsCoherent (seek_finish false s) (ground (arith, h.playing, h.next_gone)) refl

-- An assertion that holds
asserted-Yields :
    {A : Type 0} (Q : A → Type 0) (b : Bool) (o : Option A)
    → b ≡ true
    → Yields Q o
    → Yields Q (asserted b o)
asserted-Yields Q true o e h = h
asserted-Yields Q false o e h = absurd (cc)

chunk-IsKept :
    (a : ChunkAnswers) (s t : Session)
    → a.shifted ≡ true
    → a.fits ≡ true
    → IsPlaying s
    → IsKept s t
    → Yields (IsKept s) (send_chunk a t)
chunk-IsKept a s t there fits h k =
    asserted-Yields (IsKept s) a.shifted _ there (played a.fits fits)
  where
    rated-IsKept : IsKept s (rated a (tagged a t))
    rated-IsKept = ground (arith, k)

    sent : (ok : Bool) → IsKept s (chunk_played a (rated a (tagged a t), ok))
    sent true = let r = rated-IsKept in ground (arith, r)
    sent false = let r = rated-IsKept in ground (arith, r)

    played :
        (fit : Bool)
        → fit ≡ true
        → Yields (IsKept s) (
            asserted fit (some (rated a (tagged a t), not a.holds_data || a.played)) >>= λ r.
            some (chunk_played a r))
    played true e = sent (not a.holds_data || a.played)
    played false e = absurd (cc)

fade-IsKept :
    (a : ChunkAnswers) (s : Session)
    → a.shifted ≡ true
    → a.fits ≡ true
    → a.alone ≡ true
    → IsPlaying s
    → Yields (IsKept s) (fade_chunk a s)
fade-IsKept a s there fits alone h =
    if_cases (Yields (IsKept s)) a.other_ready
      (λ e.
        asserted-Yields (IsKept s) (a.shifted && a.alone) _ (ground (arith, there, alone))
          (chunk-IsKept a s _ there fits h (ground (arith, h))))
      (λ e.
        if_cases (Yields (IsKept s)) a.decoder_idle
          (λ i. chunk-IsKept a s _ there fits h (ground (arith, h))) (λ i. ground (arith, h)))

next_chunk-IsKept :
    (a : ChunkAnswers) (s : Session)
    → a.shifted ≡ true
    → a.fits ≡ true
    → a.alone ≡ true
    → IsPlaying s
    → Yields (IsKept s) (play_next_chunk a s)
next_chunk-IsKept a s there fits alone h =
    if_cases (Yields (IsKept s)) (not a.wanted) (λ e. ground (arith, h))
      (λ e.
        if_cases (Yields (IsKept s))
          (is_enabled s.player.xfade_state
            && is_decoder_at_next_song s
            && leb a.pipe_size s.player.cross_fade_chunks)
          (λ f. fade-IsKept a s there fits alone h)
          (λ f. chunk-IsKept a s s there fits h (ground (arith, h))))

calculate_fade-IsKept :
    (a : RoundAnswers) (s : Session) → IsPlaying s → IsKept s (calculate_fade a s)
calculate_fade-IsKept a s h = ground (arith, h)

-- Undisturbed, with this command, and with no next song where there is to be none.
pub record IsBehind (c : PlayerCommand) (gone : Bool) (s : Session) : Type 0 where
  pub undisturbed : IsUndisturbed s
  pub same_command : s.pc.command ≡ c
  pub stays_gone : gone ≡ true → is_some s.pc.next_song ≡ false

abbrev pub is_past_body : Phase → Bool
is_past_body Phase.idle = true
is_past_body (Phase.at_command p) = true
is_past_body (Phase.seeking p) = false
is_past_body (Phase.in_body p) = false
is_past_body Phase.exited = false

-- What the rest of the loop leads to.
pub record Follows (c : PlayerCommand) (gone : Bool) (m : Machine) : Type 0 where
  pub coherent : IsCoherent m
  pub same_command : m.pc.command ≡ c
  pub stays_gone : gone ≡ true → is_some m.pc.next_song ≡ false
  pub past_body : is_past_body m.phase ≡ true

-- The pipe of the next song is the player's now.
replaced_pipe :
    (s : Session)
    → is_decoder_at_next_song s ≡ true
    → is_decoder_at_next_song (replace_pipe s) ≡ false
replaced_pipe s n = ground arith

module _ {c : PlayerCommand} {gone : Bool} where
  kept-IsBehind : (s t : Session) → IsBehind c gone s → IsKept s t → IsBehind c gone t
  kept-IsBehind s t h k = record {
    undisturbed = kept-IsUndisturbed s t h.undisturbed k;
    same_command = k.same_command ∙ h.same_command;
    stays_gone = λ e. ap is_some k.same_next ∙ h.stays_gone e;
  }

  at_command : (s : Session) → IsBehind c gone s → Follows c gone (continue_at Phase.at_command s)
  at_command s h = record {
    coherent = record { playing = h.undisturbed.playing; seek_there = h.undisturbed.seek_there };
    same_command = h.same_command;
    stays_gone = h.stays_gone;
    past_body = refl;
  }

  -- Run may end in the middle of its loop.
  breaks_off : (s : Session) → IsBehind c gone s → Yields (Follows c gone) (leave s)
  breaks_off s h =
      Yields-some (Follows c gone) (leave s) (leave_lem s h.undisturbed.playing) (record {
        coherent =
            stopped-IsCoherent s h.undisturbed.playing
              (λ b. ground (arith, h.undisturbed.playing.queue_new, h.undisturbed.seek_alone, b))
              (λ b. ground (arith, h.undisturbed.playing.queue_there, h.undisturbed.seek_there, b));
        same_command = h.same_command;
        stays_gone = λ e. ground (arith, h.stays_gone e);
        past_body = refl;
      })

  goes_or_leaves :
      (s : Session) (ok : Bool) → IsBehind c gone s → Yields (Follows c gone) (go_on (s, ok))
  goes_or_leaves s true h = at_command s h
  goes_or_leaves s false h = breaks_off s h

  silence-Follows :
      (sent : Bool) (s : Session)
      → IsBehind c gone s
      → s.player.output_open ≡ true
      → Yields (Follows c gone) (silence_then sent s)
  silence-Follows sent s h o =
      simp (o, h.undisturbed.playing.open_defined o)
        (if_cases (Yields (Follows c gone)) sent (λ e. at_command s h) (λ e. breaks_off s h))

  start_next-IsBehind :
      (s : Session)
      → IsBehind c gone s
      → s.player.queued ≡ true
      → Yields (IsBehind c gone) (start_next s)
  start_next-IsBehind s h q =
      ground (arith, h.undisturbed.playing, h.undisturbed.seek_alone, h.undisturbed.seek_there)

  prefetch-IsBehind :
      (a : RoundAnswers) (s : Session) → IsBehind c gone s → Yields (IsBehind c gone) (prefetch a s)
  prefetch-IsBehind a s h =
      if_cases (Yields (IsBehind c gone))
        (a.idle_then && s.player.queued && is_decoder_at_current_song s)
        (λ e. start_next-IsBehind s h (ground (arith, e))) (λ e. h)

  waited-IsBehind :
      (fails : Bool) (s : Session)
      → IsBehind c gone s
      → s.player.queued ≡ true
      → is_decoder_at_next_song s ≡ false
      → Yields (λ r. IsBehind c gone (border_paused r).0) (wait_for_decoder fails s)
  waited-IsBehind fails s h q n =
      ground (arith, h.undisturbed.playing, h.undisturbed.seek_alone, h.undisturbed.seek_there)

  replace-IsBehind :
      (s : Session)
      → IsBehind c gone s
      → is_decoder_at_next_song s ≡ true
      → IsBehind c gone (replace_pipe s)
  replace-IsBehind s h n = ground (
    arith,
    h.undisturbed.playing,
    h.undisturbed.seek_alone,
    h.undisturbed.seek_there,
    replaced_pipe s n,
  )

  song_border-IsBehind :
      (fails : Bool) (s : Session)
      → IsBehind c gone s
      → is_decoder_at_next_song s ≡ true
      → Yields (λ r. IsBehind c gone r.0) (song_border fails s)
  song_border-IsBehind fails s h n =
      Yields->>= (λ r. IsBehind c gone (border_paused r).0) (λ r. IsBehind c gone r.0)
        (wait_for_decoder fails (replace_pipe s)) _
        (waited-IsBehind fails (replace_pipe s) (replace-IsBehind s h n)
          (h.undisturbed.playing.ahead_queued n) (replaced_pipe s n))
        (λ r k. k)

  at_end-Follows :
      (a : RoundAnswers) (s : Session) → IsBehind c gone s → Yields (Follows c gone) (at_end a s)
  at_end-Follows a s h =
      if_cases (Yields (Follows c gone)) (is_decoder_at_next_song s)
        (λ n.
          Yields->>= (λ r. IsBehind c gone r.0) (Follows c gone) (song_border a.decoder_fails s)
            go_on (song_border-IsBehind a.decoder_fails s h n) (λ (t, ok) k. goes_or_leaves t ok k))
        (λ n.
          if_cases (Yields (Follows c gone)) a.idle_at_last
            (λ i.
              if_cases (Yields (Follows c gone)) a.still_empty (λ e. breaks_off s h)
                (λ e. at_command s h))
            (λ i.
              if_cases (Yields (Follows c gone)) s.player.output_open
                (λ o. silence-Follows a.last_silence s h o) (λ o. at_command s h)))

  play_round-Follows :
      (a : RoundAnswers) (s : Session)
      → IsSoundRound a
      → IsBehind c gone s
      → Yields (Follows c gone) (play_round a s)
  play_round-Follows a s g h =
      if_cases (Yields (Follows c gone)) s.player.paused (λ p. at_command s h)
        (λ p.
          if_cases (Yields (Follows c gone)) (not a.pipe_empty)
            (λ e.
              Yields->>= (IsKept s) (Follows c gone) (play_next_chunk a.chunk s) _
                (next_chunk-IsKept a.chunk s (g.chunk_shifted e) g.chunk_fits g.chunk_alone
                  h.undisturbed.playing)
                (λ t k. at_command t (kept-IsBehind s t h k)))
            (λ e.
              if_cases (Yields (Follows c gone)) (ltb 0 a.next_check) (λ c. at_command s h)
                (λ c. at_end-Follows a s h)))

  filled_round-Follows :
      (a : RoundAnswers) (s : Session)
      → IsSoundRound a
      → IsBehind c gone s
      → Yields (Follows c gone) (filled_round a s)
  filled_round-Follows a s g h =
      if_cases (Yields (Follows c gone)) s.player.decoder_starting
        (λ d.
          Yields->>= (λ r. IsKept s r.0) (Follows c gone) (check_decoder_startup a.startup s) go_on
            (startup-IsKept a.startup s g.gives h.undisturbed.playing.running
              h.undisturbed.playing.open_defined d)
            (λ (t, ok) k. goes_or_leaves t ok (kept-IsBehind s t h k)))
        (λ d.
          Yields->>= (IsBehind c gone) (Follows c gone) (prefetch a s) _ (prefetch-IsBehind a s h)
            (λ t k. play_round-Follows a (calculate_fade a t) g (
              kept-IsBehind t (calculate_fade a t) k
                (calculate_fade-IsKept a t k.undisturbed.playing))))

  -- The rest of the loop of Run
  pub round-Follows :
      (a : RoundAnswers) (s : Session)
      → IsSoundRound a
      → IsBehind c gone s
      → Yields (Follows c gone) (round a s)
  unfolding round
  round-Follows a s g h =
      if_cases (Yields (Follows c gone)) s.player.buffering
        (λ b.
          if_cases (Yields (Follows c gone)) (a.below_buffered && not a.idle_at_first)
            (λ l.
              if_cases (Yields (Follows c gone))
                (not s.player.paused && s.player.output_open && ltb a.first_check 4)
                (λ o. silence-Follows a.first_silence s h (ground (arith, o)))
                (λ o. at_command s h))
            (λ l.
              filled_round-Follows a (buffering_done s) g
                (kept-IsBehind s (buffering_done s) h (ground (arith, h.undisturbed.playing)))))
        (λ b. filled_round-Follows a s g h)
