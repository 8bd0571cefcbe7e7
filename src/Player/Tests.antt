-- ===== src/Player/Tests.antt =====
-- A player with two songs: the theorems of the player thread at work.
use mpd_dsd.Prelude.{◌≡◌, refl, none, some, Bool, true, false, [], ◌∷◌, Yields}
use mpd_dsd.Pcm.Format.{AudioFormat, SampleFormat, cleared, is_defined}
use mpd_dsd.Playlist.State.{PlayerState, PlayerError}
use mpd_dsd.Player.State.{PlayerCommand, PlayerControl, Player, new_player, Session}
use mpd_dsd.Player.Decoding.{Startup}
use mpd_dsd.Player.Commands.{Machine, Phase, continue_at, process_command, after_command, leave}
use mpd_dsd.Player.Loop.{ChunkAnswers, RoundAnswers, round}
use mpd_dsd.Player.Task.{Answers, turn, task_turn, do_play}
use mpd_dsd.Player.Valid.{IsSeeking, IsCoherent, session}
use mpd_dsd.Player.Valid.Turns.{IsSound}
use mpd_dsd.Player.Answered.{IsAnswered}
use mpd_dsd.Player.Answered.Turns.{turns, command-IsAnswered}
use mpd_dsd.Player.Answered.Seeks.{seek_turns-IsAnswered}
use mpd_dsd.Player.Race.{IsAtBorder, IsSeekLost, sought, seek_races}

abbrev dsd_format : AudioFormat
dsd_format = record { sample_rate = 352800; format = SampleFormat.dsd; channels = 2 }

abbrev startup : Startup
startup = record {
  failed = false;
  is_starting = false;
  drained = true;
  in_audio_format = dsd_format;
  out_audio_format = dsd_format;
  opens = true;
}

abbrev chunk : ChunkAnswers
chunk = record {
  wanted = true;
  pipe_size = 4;
  other_ready = false;
  decoder_idle = false;
  decoder_behind = false;
  bit_rate = 5644;
  holds_data = true;
  stream_tag = false;
  played = true;
  shifted = true;
  fits = true;
  alone = true;
}

-- The decoder has filled its pipe and goes on; `empty` says that all of it is played.
abbrev in_round : Bool → RoundAnswers
in_round empty = record {
  below_buffered = false;
  idle_at_first = false;
  first_check = 0;
  first_silence = true;
  startup = startup;
  idle_then = true;
  is_starting = false;
  fade_chunks = 0;
  pipe_empty = empty;
  chunk = chunk;
  next_check = 0;
  decoder_fails = false;
  idle_at_last = false;
  still_empty = false;
  last_silence = true;
}

abbrev answers : Bool → Answers
answers empty = record {
  memory = cleared;
  fails = false;
  returned = true;
  same_song = true;
  opens = true;
  seeks = true;
  startup = startup;
  in_round = in_round empty;
}

answers-IsSound : (empty : Bool) → IsSound (answers empty)
unfolding is_defined
answers-IsSound empty = record {
  startup_gives = refl;
  round_sound = record {
    gives = refl;
    chunk_shifted = λ e. refl;
    chunk_fits = refl;
    chunk_alone = refl;
  };
  chunks_returned = refl;
}

abbrev control : PlayerControl
control = record {
  command = PlayerCommand.no_command;
  state = PlayerState.stop;
  error_type = PlayerError.no_error;
  tagged_song = none;
  bit_rate = 0;
  audio_format = cleared;
  next_song = none;
  border_pause = false;
}

abbrev resting : Machine
resting = record { pc = control; dc = record { song = none; pipe = none }; phase = Phase.idle }

-- Song 7 is enqueued.
abbrev enqueued : Machine
enqueued = record resting {
  pc = record control { command = PlayerCommand.queue; next_song = some 7 };
}

enqueued-IsCoherent : IsCoherent enqueued
enqueued-IsCoherent = record { resting = refl; next_brought = refl; no_pipe = refl }

-- The player starts, learns the format of the decoder, opens the outputs, and plays a chunk.
plays :
    Yields
      (λ m. (m.pc.state ≡ PlayerState.play) × (m.pc.bit_rate ≡ 5644))
      (turns
        (answers false ∷ answers false ∷ answers false ∷ answers false ∷ answers false ∷ [])
        enqueued)
unfolding turns turn task_turn do_play process_command after_command leave round is_defined
plays = (refl, refl)

command-IsAnswered_example :
    Yields
      (IsAnswered PlayerCommand.queue)
      (turns (answers true ∷ answers true ∷ answers true ∷ []) enqueued)
command-IsAnswered_example =
    command-IsAnswered enqueued (answers true) (answers true) (answers true) enqueued-IsCoherent
      refl refl (answers-IsSound true) (answers-IsSound true) (answers-IsSound true)

-- Song 8 is queued, the decoder is at it with pipe 1, and the player has played pipe 0.
abbrev border : Session
border = record {
  pc = record control { state = PlayerState.play; next_song = some 8 };
  dc = record { song = some 8; pipe = some 1 };
  player = record (new_player dsd_format) {
    next_pipe = 2;
    buffering = false;
    output_open = true;
    song = some 7;
  };
}

border-IsAtBorder : IsAtBorder (in_round true) border
border-IsAtBorder = record {
  at_next = refl;
  queued = refl;
  filled = refl;
  started = refl;
  playing = refl;
  pipe_empty = refl;
  outputs_empty = refl;
  decoder_works = refl;
}

seek_races_example :
    Yields
      (IsSeekLost 7 (answers true))
      (turn (answers true) (continue_at Phase.in_body (sought 7 border)))
seek_races_example = seek_races (answers true) (answers true) border 7 border-IsAtBorder

-- The player waits for the decoder before it seeks.
abbrev waiting : Player
waiting = record (new_player dsd_format) { queued = false; decoder_starting = true; song = some 7 }

abbrev sought_control : PlayerControl
sought_control = record control { command = PlayerCommand.seek; state = PlayerState.play }

waiting-IsSeeking :
    IsSeeking (session sought_control (record { song = some 7; pipe = some 0 }) waiting)
waiting-IsSeeking = record {
  playing = record {
    running = refl;
    queued_there = λ e. absurd (cc);
    next_owned = λ e. absurd (cc);
    queue_there = λ e. absurd (cc);
    queue_new = λ e. refl;
    ahead_queued = λ e. absurd (cc);
    open_defined = λ e. absurd (cc);
  };
  command_seek = refl;
  next_gone = refl;
}

seek_turns-IsAnswered_example : Yields (IsAnswered PlayerCommand.seek) (
    turns (answers true ∷ answers true ∷ []) (record {
      pc = sought_control;
      dc = record { song = some 7; pipe = some 0 };
      phase = Phase.seeking waiting;
    }))
seek_turns-IsAnswered_example =
    seek_turns-IsAnswered (answers true) (answers true) sought_control
      (record { song = some 7; pipe = some 0 }) waiting waiting-IsSeeking (answers-IsSound true)
      (answers-IsSound true) refl
