-- ===== src/Player/State.antt =====
-- PlayerControl.hxx, the part of DecoderControl.hxx that belongs to the player, and the class Player of
-- PlayerThread.cxx. Songs and pipes are numbers; times are left out.
use mpd_dsd.Prelude.{ℕ, Option, none, some, Bool, true, false, ◌&&◌, not, ◌==◌}
use mpd_dsd.Pcm.Format.{AudioFormat}
use mpd_dsd.Playlist.State.{PlayerState, PlayerError}

pub data PlayerCommand : Type 0 where
  no_command exit stop pause seek close_audio update_audio queue cancel refresh : PlayerCommand

pub record PlayerControl : Type 0 where
  pub command : PlayerCommand
  pub state : PlayerState
  pub error_type : PlayerError
  pub tagged_song : Option ℕ
  pub bit_rate : ℕ
  pub audio_format : AudioFormat
  pub next_song : Option ℕ
  pub border_pause : Bool

-- What the player sets: the song to decode and the pipe to fill. Its state is the decoder thread's.
pub record DecoderControl : Type 0 where
  pub song : Option ℕ
  pub pipe : Option ℕ

pub data CrossFadeState : Type 0 where
  disabled unknown enabled : CrossFadeState

-- `next_pipe` numbers the pipes that are created.
pub record Player : Type 0 where
  pub pipe : ℕ
  pub next_pipe : ℕ
  pub buffering : Bool
  pub decoder_starting : Bool
  pub decoder_woken : Bool
  pub paused : Bool
  pub queued : Bool
  pub output_open : Bool
  pub song : Option ℕ
  pub xfade_state : CrossFadeState
  pub cross_fading : Bool
  pub cross_fade_chunks : ℕ
  pub play_audio_format : AudioFormat

-- The constructor does not set the format: it is what the memory holds.
abbrev pub new_player : AudioFormat → Player
new_player memory = record {
  pipe = 0;
  next_pipe = 1;
  buffering = true;
  decoder_starting = false;
  decoder_woken = false;
  paused = false;
  queued = true;
  output_open = false;
  song = none;
  xfade_state = CrossFadeState.unknown;
  cross_fading = false;
  cross_fade_chunks = 0;
  play_audio_format = memory;
}

-- The player while it plays, with what it shares.
pub record Session : Type 0 where
  pub pc : PlayerControl
  pub dc : DecoderControl
  pub player : Player

abbrev pub is_some : Option ℕ → Bool
is_some none = false
is_some (some x) = true

abbrev pub is_pipe : ℕ → Option ℕ → Bool
is_pipe p none = false
is_pipe p (some q) = q == p

-- IsDecoderAtCurrentSong
abbrev pub is_decoder_at_current_song : Session → Bool
is_decoder_at_current_song s = is_pipe s.player.pipe s.dc.pipe

-- IsDecoderAtNextSong
abbrev pub is_decoder_at_next_song : Session → Bool
is_decoder_at_next_song s = is_some s.dc.pipe && not (is_decoder_at_current_song s)

abbrev pub is_seek : PlayerCommand → Bool
is_seek PlayerCommand.seek = true
is_seek _ = false

abbrev pub is_no_command : PlayerCommand → Bool
is_no_command PlayerCommand.no_command = true
is_no_command _ = false

-- The commands that end the loop of Run.
abbrev pub ends_run : PlayerCommand → Bool
ends_run PlayerCommand.stop = true
ends_run PlayerCommand.exit = true
ends_run PlayerCommand.close_audio = true
ends_run _ = false

-- CommandFinished
abbrev pub command_finished : PlayerControl → PlayerControl
command_finished pc = record pc { command = PlayerCommand.no_command }

-- SetError
abbrev pub set_error : PlayerError → PlayerControl → PlayerControl
set_error e pc = record pc { error_type = e }

-- No result where an assertion fails.
abbrev pub asserted {ℓ} : {A : Type ℓ} → Bool → Option A → Option A
asserted true r = r
asserted false r = none
