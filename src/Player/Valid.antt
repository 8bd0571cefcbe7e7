-- ===== src/Player/Valid.antt =====
-- What holds of the player between two turns.
pub mod Commands
pub mod Rounds
pub mod Turns
use mpd_dsd.Prelude.{ℕ, ◌≡◌, refl, arith, Option, none, some, Bool, true, false, ◌&&◌, ◌||◌, not}
use mpd_dsd.Pcm.Format.{is_defined}
use mpd_dsd.Playlist.State.{PlayerState}
use mpd_dsd.Player.State.{
  PlayerCommand, PlayerControl, DecoderControl, Player, Session, is_some, is_seek,
  is_decoder_at_next_song,
}
use mpd_dsd.Player.Decoding.{is_stopped, Startup}
use mpd_dsd.Player.Commands.{Machine, Phase}
use mpd_dsd.Player.Loop.{ChunkAnswers, RoundAnswers}
use mpd_dsd.Player.Task.{Answers}

abbrev pub is_queue : PlayerCommand → Bool
is_queue PlayerCommand.queue = true
is_queue _ = false

-- The commands that bring a song with them.
abbrev pub brings_song : PlayerCommand → Bool
brings_song c = is_queue c || is_seek c

-- `next_song` is there when a song is queued, and only then or when a command brings it; the decoder
-- works ahead only on a queued song; the outputs have a format.
pub record IsPlaying (s : Session) : Type 0 where
  pub running : is_stopped s.pc.state ≡ false
  pub queued_there : s.player.queued ≡ true → is_some s.pc.next_song ≡ true
  pub next_owned :
      is_some s.pc.next_song ≡ true → (s.player.queued || brings_song s.pc.command) ≡ true
  pub queue_there : is_queue s.pc.command ≡ true → is_some s.pc.next_song ≡ true
  pub queue_new : is_queue s.pc.command ≡ true → s.player.queued ≡ false
  pub ahead_queued : is_decoder_at_next_song s ≡ true → s.player.queued ≡ true
  pub open_defined : s.player.output_open ≡ true → is_defined s.player.play_audio_format ≡ true

-- Between commands and the rest of the loop a song to seek in is there, and no other one is queued.
pub record IsUndisturbed (s : Session) : Type 0 where
  pub playing : IsPlaying s
  pub seek_there : is_seek s.pc.command ≡ true → is_some s.pc.next_song ≡ true
  pub seek_alone : is_seek s.pc.command ≡ true → s.player.queued ≡ false

pub record IsAtCommand (s : Session) : Type 0 where
  pub playing : IsPlaying s
  pub seek_there : is_seek s.pc.command ≡ true → is_some s.pc.next_song ≡ true

pub record IsSeeking (s : Session) : Type 0 where
  pub playing : IsPlaying s
  pub command_seek : is_seek s.pc.command ≡ true
  pub next_gone : is_some s.pc.next_song ≡ false

pub record IsIdle (pc : PlayerControl) (dc : DecoderControl) : Type 0 where
  pub resting : is_stopped pc.state ≡ true
  pub next_brought : is_some pc.next_song ≡ brings_song pc.command
  pub no_pipe : is_some dc.pipe ≡ false

abbrev pub session : PlayerControl → DecoderControl → Player → Session
session pc dc player = record { pc = pc; dc = dc; player = player }

abbrev pub IsCoherentAt : Phase → PlayerControl → DecoderControl → Type 0
IsCoherentAt Phase.idle pc dc = IsIdle pc dc
IsCoherentAt (Phase.at_command p) pc dc = IsAtCommand (session pc dc p)
IsCoherentAt (Phase.seeking p) pc dc = IsSeeking (session pc dc p)
IsCoherentAt (Phase.in_body p) pc dc = IsUndisturbed (session pc dc p)
IsCoherentAt Phase.exited pc dc = Unit

abbrev pub IsCoherent : Machine → Type 0
IsCoherent m = IsCoherentAt m.phase m.pc m.dc

-- The decoder gives a format when it has started.
abbrev pub GivesFormat : Startup → Type 0
GivesFormat a = is_defined a.out_audio_format ≡ true

-- In this round: a pipe that is not empty gives a chunk, with the format that is played and no other
-- chunk mixed into it.
pub record IsSoundRound (a : RoundAnswers) : Type 0 where
  pub gives : GivesFormat a.startup
  pub chunk_shifted : not a.pipe_empty ≡ true → a.chunk.shifted ≡ true
  pub chunk_fits : a.chunk.fits ≡ true
  pub chunk_alone : a.chunk.alone ≡ true
