-- ===== src/Player/Commands.antt =====
-- ProcessCommand, and how Run ends: PlayerThread.cxx. A turn of the player thread is the code between
-- two points where another thread may run.
use mpd_dsd.Prelude.{Option, none, some, Bool, true, false, ◌&&◌, ◌||◌, not, if◌then◌else◌, ◌>>=◌}
use mpd_dsd.Pcm.Format.{is_defined}
use mpd_dsd.Playlist.State.{PlayerState}
use mpd_dsd.Player.State.{
  PlayerCommand, PlayerControl, DecoderControl, Player, Session, is_some, is_decoder_at_next_song,
  ends_run, command_finished, asserted,
}
use mpd_dsd.Player.Decoding.{
  Startup, stop_decoder, open_output, check_decoder_startup, seek_begin, seek_finish,
}

-- Where the thread stands: in player_task, at ProcessCommand, in the loop of SeekDecoder, in the rest
-- of the loop of Run, where the lock is not held, or at its end.
pub data Phase : Type 0 where
  idle : Phase
  at_command : Player → Phase
  seeking : Player → Phase
  in_body : Player → Phase
  exited : Phase

pub record Machine : Type 0 where
  pub pc : PlayerControl
  pub dc : DecoderControl
  pub phase : Phase

-- The song and the pipes go with the player.
abbrev pub stopped : Session → Machine
stopped s = record {
  pc = record s.pc {
    tagged_song = none;
    next_song = if s.player.queued then none else s.pc.next_song;
    state = PlayerState.stop;
  };
  dc = record s.dc { pipe = none };
  phase = Phase.idle;
}

-- What Run does behind its loop.
unfoldable pub leave : Session → Option Machine
leave s = asserted (not s.player.queued || is_some s.pc.next_song) (some (stopped s))

abbrev pub continue_at : (Player → Phase) → Session → Machine
continue_at phase s = record { pc = s.pc; dc = s.dc; phase = phase s.player }

unfoldable pub after_command : Session → Option Machine
after_command s = if ends_run s.pc.command then leave s else some (continue_at Phase.in_body s)

abbrev pub finished : Session → Session
finished s = record s { pc = command_finished s.pc }

-- PlayerCommand::QUEUE
abbrev pub process_queue : Session → Option Session
process_queue s =
    asserted (is_some s.pc.next_song && not s.player.queued && not (is_decoder_at_next_song s))
      (some (finished (record s { player = record s.player { queued = true } })))

abbrev pub set_paused : Bool → Session → Session
set_paused flag s = record s { player = record s.player { paused = flag } }

abbrev pub set_state : PlayerState → Session → Session
set_state state s = record s { pc = record s.pc { state = state } }

-- PlayerCommand::PAUSE
abbrev pub process_pause : Bool → Session → Option Session
process_pause opens s =
    if not s.player.paused
    then some (finished (set_state PlayerState.pause (set_paused true s)))
    else if not (is_defined s.player.play_audio_format)
    then some (finished (set_state PlayerState.play (set_paused false s)))
    else (open_output opens (set_paused false s) >>= λ t. some (finished t))

-- PlayerCommand::CANCEL
abbrev pub cancel_next : Session → Session
cancel_next s =
    let t = if is_decoder_at_next_song s then stop_decoder s else s in
    finished (record t {
      pc = record t.pc { next_song = none };
      player = record t.player { queued = false };
    })

abbrev pub process_cancel : Session → Session
process_cancel s =
    if is_some s.pc.next_song
    then cancel_next s
    else record s { pc = record s.pc { command = PlayerCommand.stop } }

-- PlayerCommand::SEEK, up to the loop in SeekDecoder
abbrev pub process_seek : Bool → Bool → Session → Option Machine
process_seek same_song fails s = seek_begin same_song fails s >>= λ r.
    if r.1 then some (continue_at Phase.seeking r.0) else after_command (finished r.0)

-- Whether the outputs open, the song to seek in is the decoder's, and the decoder fails.
unfoldable pub process_command : PlayerCommand → Bool → Bool → Bool → Session → Option Machine
process_command PlayerCommand.no_command opens same_song fails s = after_command s
process_command PlayerCommand.stop opens same_song fails s = after_command s
process_command PlayerCommand.exit opens same_song fails s = after_command s
process_command PlayerCommand.close_audio opens same_song fails s = after_command s
process_command PlayerCommand.update_audio opens same_song fails s = after_command (finished s)
process_command PlayerCommand.queue opens same_song fails s = process_queue s >>= after_command
process_command PlayerCommand.pause opens same_song fails s =
    process_pause opens s >>= after_command
process_command PlayerCommand.seek opens same_song fails s = process_seek same_song fails s
process_command PlayerCommand.cancel opens same_song fails s = after_command (process_cancel s)
process_command PlayerCommand.refresh opens same_song fails s = after_command (finished s)

-- A round of the loop in SeekDecoder, and what follows on it.
abbrev pub seek_checked : Session × Bool → Option Machine
seek_checked (s, true) = some (continue_at Phase.seeking s)
seek_checked (s, false) = after_command (finished s)

unfoldable pub seek_turn : Startup → Bool → Session → Option Machine
seek_turn startup seeks s =
    if s.player.decoder_starting
    then (check_decoder_startup startup s >>= seek_checked)
    else after_command (seek_finish seeks s)
