-- ===== src/Player/Decoding.antt =====
-- How the player starts and stops the decoder, waits for it, and opens the outputs: PlayerThread.cxx.
use mpd_dsd.Prelude.{
  ℕ, Option, none, some, Bool, true, false, ◌&&◌, ◌||◌, not, if◌then◌else◌, ◌>>=◌,
}
use mpd_dsd.Pcm.Format.{AudioFormat, cleared, is_defined}
use mpd_dsd.Playlist.State.{PlayerState, PlayerError}
use mpd_dsd.Player.State.{
  CrossFadeState, Session, is_some, is_seek, command_finished, set_error, asserted,
}

-- The assertions of StartDecoder and WaitForDecoder.
abbrev pub may_start : Session → Bool
may_start s = (s.player.queued || is_seek s.pc.command) && is_some s.pc.next_song

-- StartDecoder
abbrev pub start_decoder : ℕ → Session → Option Session
start_decoder pipe s =
    asserted (may_start s)
      (some (record s { dc = record { song = s.pc.next_song; pipe = some pipe } }))

-- StopDecoder
abbrev pub stop_decoder : Session → Session
stop_decoder s = record s { dc = record s.dc { pipe = none } }

-- WaitForDecoder, after the decoder has failed or not.
abbrev pub waited_for_decoder : Bool → Session → Session × Bool
waited_for_decoder true s = (
  record s {
    pc = record s.pc { error_type = PlayerError.decoder; next_song = none };
    player = record s.player { queued = false };
  },
  false,
)
waited_for_decoder false s = (
  record s {
    pc = record s.pc { tagged_song = none; bit_rate = 0; audio_format = cleared; next_song = none };
    player = record s.player { queued = false; song = s.pc.next_song; decoder_starting = true };
  },
  true,
)

abbrev pub wait_for_decoder : Bool → Session → Option (Session × Bool)
wait_for_decoder failed s = asserted (may_start s) (some (waited_for_decoder failed s))

-- OpenOutput, as the outputs could be opened or not.
abbrev pub opened_output : Bool → Session → Session
opened_output true s = record s {
  pc = record s.pc { state = PlayerState.play };
  player = record s.player { output_open = true; paused = false };
}
opened_output false s = record s {
  pc = record s.pc { error_type = PlayerError.output; state = PlayerState.pause };
  player = record s.player { output_open = false; paused = true };
}

abbrev pub is_stopped : PlayerState → Bool
is_stopped PlayerState.stop = true
is_stopped _ = false

abbrev pub open_output : Bool → Session → Option Session
open_output opens s =
    asserted (is_defined s.player.play_audio_format && not (is_stopped s.pc.state))
      (some (opened_output opens s))

-- What CheckDecoderStartup learns from the decoder and from the outputs.
pub record Startup : Type 0 where
  pub failed : Bool
  pub is_starting : Bool
  pub drained : Bool
  pub in_audio_format : AudioFormat
  pub out_audio_format : AudioFormat
  pub opens : Bool

-- The decoder is ready, and the outputs have played what came before.
abbrev pub decoder_started : Startup → Session → Option (Session × Bool)
decoder_started a s =
    let t = record s {
      pc = record s.pc { audio_format = a.in_audio_format };
      player = record s.player { play_audio_format = a.out_audio_format; decoder_starting = false };
    } in
    (if s.player.paused then some t else open_output a.opens t) >>= λ u. some (u, true)

abbrev pub check_decoder_startup : Startup → Session → Option (Session × Bool)
check_decoder_startup a s = asserted s.player.decoder_starting (
    if a.failed
    then some (record s { pc = set_error PlayerError.decoder s.pc }, false)
    else if a.is_starting || (s.player.output_open && not a.drained)
    then some (s, true)
    else decoder_started a s)

-- SeekDecoder up to its loop on CheckDecoderStartup.
abbrev pub restart_decoder : Bool → Session → Option (Session × Bool)
restart_decoder fails s =
    start_decoder s.player.pipe (stop_decoder s) >>= λ t. wait_for_decoder fails t

-- The decoder may be at the next song, from the same file: its pipe is taken over.
abbrev pub taken_pipe : Option ℕ → ℕ → ℕ
taken_pipe none p = p
taken_pipe (some q) p = q

abbrev pub keep_decoder : Session → Session × Bool
keep_decoder s = (
  record s {
    pc = record s.pc { next_song = none };
    player = record s.player { pipe = taken_pipe s.dc.pipe s.player.pipe; queued = false };
  },
  true,
)

-- Whether the decoder decodes this song; one that runs has a pipe.
abbrev pub is_current_song : Bool → Session → Bool
is_current_song same_song s = same_song && is_some s.dc.pipe

abbrev pub seek_begin : Bool → Bool → Session → Option (Session × Bool)
seek_begin same_song fails s =
    asserted (is_some s.pc.next_song)
      (if is_current_song same_song s then some (keep_decoder s) else restart_decoder fails s)

-- The end of SeekDecoder, as the decoder can seek or not.
abbrev pub seek_finish : Bool → Session → Session
seek_finish true s = record s {
  pc = command_finished s.pc;
  player = record s.player { xfade_state = CrossFadeState.unknown; buffering = true };
}
seek_finish false s = record s { pc = command_finished s.pc }
