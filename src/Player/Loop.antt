-- ===== src/Player/Loop.antt =====
-- The rest of the loop of Run, with PlayNextChunk, SendSilence and SongBorder: PlayerThread.cxx.
use mpd_dsd.Prelude.{
  ℕ, ◌+◌, Option, some, Bool, true, false, ◌&&◌, ◌||◌, not, ltb, leb, if◌then◌else◌, ◌>>=◌,
}
use mpd_dsd.Pcm.Format.{is_defined}
use mpd_dsd.Playlist.State.{PlayerState, PlayerError}
use mpd_dsd.Player.State.{
  CrossFadeState, Player, Session, is_decoder_at_current_song, is_decoder_at_next_song, asserted,
}
use mpd_dsd.Player.Decoding.{
  Startup, start_decoder, wait_for_decoder, check_decoder_startup, taken_pipe,
}
use mpd_dsd.Player.Commands.{Machine, Phase, leave, continue_at}

-- What PlayNextChunk meets: whether the outputs want a chunk, the size of the pipe, whether the decoder
-- has a chunk of the next song, is idle, is running with a short pipe; the bit rate of the chunk,
-- whether it holds data, brings the tag of a stream, and is played; whether the pipe gives a chunk at
-- all, that fits the format, with no other one mixed into it.
pub record ChunkAnswers : Type 0 where
  pub wanted : Bool
  pub pipe_size : ℕ
  pub other_ready : Bool
  pub decoder_idle : Bool
  pub decoder_behind : Bool
  pub bit_rate : ℕ
  pub holds_data : Bool
  pub stream_tag : Bool
  pub played : Bool
  pub shifted : Bool
  pub fits : Bool
  pub alone : Bool

-- The reads of the world in one round, in the order of the code.
pub record RoundAnswers : Type 0 where
  pub below_buffered : Bool
  pub idle_at_first : Bool
  pub first_check : ℕ
  pub first_silence : Bool
  pub startup : Startup
  pub idle_then : Bool
  pub is_starting : Bool
  pub fade_chunks : ℕ
  pub pipe_empty : Bool
  pub chunk : ChunkAnswers
  pub next_check : ℕ
  pub decoder_fails : Bool
  pub idle_at_last : Bool
  pub still_empty : Bool
  pub last_silence : Bool

abbrev pub is_enabled : CrossFadeState → Bool
is_enabled CrossFadeState.enabled = true
is_enabled _ = false

abbrev pub is_unknown : CrossFadeState → Bool
is_unknown CrossFadeState.unknown = true
is_unknown _ = false

abbrev pub tagged : ChunkAnswers → Session → Session
tagged a s =
    if a.stream_tag then record s { pc = record s.pc { tagged_song = s.player.song } } else s

abbrev pub rated : ChunkAnswers → Session → Session
rated a s = if a.holds_data then record s { pc = record s.pc { bit_rate = a.bit_rate } } else s

-- play_chunk, and whether the outputs have taken the chunk.
abbrev pub play_chunk : ChunkAnswers → Session → Option (Session × Bool)
play_chunk a s = asserted a.fits (some (rated a (tagged a s), not a.holds_data || a.played))

abbrev pub chunk_played : ChunkAnswers → Session × Bool → Session
chunk_played a (s, true) = record s {
  player = record s.player { decoder_woken = a.decoder_behind };
}
chunk_played a (s, false) = record s {
  pc = record s.pc { error_type = PlayerError.output; state = PlayerState.pause };
  player = record s.player { paused = true };
}

-- The end of PlayNextChunk, from the assertion that there is a chunk.
abbrev pub send_chunk : ChunkAnswers → Session → Option Session
send_chunk a s = asserted a.shifted (play_chunk a s >>= λ r. some (chunk_played a r))

-- The beginning of the cross fade.
abbrev pub begin_fade : ℕ → Player → Player
begin_fade position p =
    if p.cross_fading then p else record p { cross_fade_chunks = position; cross_fading = true }

abbrev pub fade_chunk : ChunkAnswers → Session → Option Session
fade_chunk a s =
    let t = record s { player = begin_fade a.pipe_size s.player } in
    if a.other_ready
    then asserted (a.shifted && a.alone) (send_chunk a t)
    else if a.decoder_idle
    then send_chunk a
        (record t { player = record t.player { xfade_state = CrossFadeState.disabled } })
    else some t

-- PlayNextChunk
abbrev pub play_next_chunk : ChunkAnswers → Session → Option Session
play_next_chunk a s =
    if not a.wanted
    then some s
    else if is_enabled s.player.xfade_state
        && is_decoder_at_next_song s
        && leb a.pipe_size s.player.cross_fade_chunks
    then fade_chunk a s
    else send_chunk a s

-- SendSilence, whose assertions are on the outputs.
abbrev pub send_silence : Bool → Session → Option Bool
send_silence sent s =
    asserted (s.player.output_open && is_defined s.player.play_audio_format) (some sent)

abbrev pub silence_then : Bool → Session → Option Machine
silence_then sent s =
    send_silence sent s >>= λ ok. if ok then some (continue_at Phase.at_command s) else leave s

abbrev pub go_on : Session × Bool → Option Machine
go_on (s, true) = some (continue_at Phase.at_command s)
go_on (s, false) = leave s

-- SongBorder, before and behind WaitForDecoder
abbrev pub replace_pipe : Session → Session
replace_pipe s = record s {
  player = record s.player {
    xfade_state = CrossFadeState.unknown;
    pipe = taken_pipe s.dc.pipe s.player.pipe;
  };
}

abbrev pub border_paused : Session × Bool → Session × Bool
border_paused (s, false) = (s, false)
border_paused (s, true) =
    if s.pc.border_pause
    then (
      record s {
        pc = record s.pc { state = PlayerState.pause };
        player = record s.player { paused = true };
      },
      true,
    )
    else (s, true)

abbrev pub song_border : Bool → Session → Option (Session × Bool)
song_border fails s = wait_for_decoder fails (replace_pipe s) >>= λ r. some (border_paused r)

-- The decoder goes on to the next song, with a new pipe.
abbrev pub start_next : Session → Option Session
start_next s =
    start_decoder s.player.next_pipe
      (record s { player = record s.player { next_pipe = s.player.next_pipe + 1 } })

abbrev pub prefetch : RoundAnswers → Session → Option Session
prefetch a s =
    if a.idle_then && s.player.queued && is_decoder_at_current_song s then start_next s else some s

abbrev pub set_fade : ℕ → Player → Player
set_fade chunks p =
    if ltb 0 chunks
    then record p {
      cross_fade_chunks = chunks;
      xfade_state = CrossFadeState.enabled;
      cross_fading = false;
    }
    else record p { cross_fade_chunks = chunks; xfade_state = CrossFadeState.disabled }

abbrev pub calculate_fade : RoundAnswers → Session → Session
calculate_fade a s =
    if not s.pc.border_pause
      && is_decoder_at_next_song s
      && is_unknown s.player.xfade_state
      && not a.is_starting
    then record s { player = set_fade a.fade_chunks s.player }
    else s

-- The pipe is empty and the outputs have played everything.
abbrev pub at_end : RoundAnswers → Session → Option Machine
at_end a s =
    if is_decoder_at_next_song s
    then (song_border a.decoder_fails s >>= go_on)
    else if a.idle_at_last
    then if a.still_empty then leave s else some (continue_at Phase.at_command s)
    else if s.player.output_open
    then silence_then a.last_silence s
    else some (continue_at Phase.at_command s)

abbrev pub play_round : RoundAnswers → Session → Option Machine
play_round a s =
    if s.player.paused
    then some (continue_at Phase.at_command s)
    else if not a.pipe_empty
    then (play_next_chunk a.chunk s >>= λ t. some (continue_at Phase.at_command t))
    else if ltb 0 a.next_check
    then some (continue_at Phase.at_command s)
    else at_end a s

abbrev pub filled_round : RoundAnswers → Session → Option Machine
filled_round a s =
    if s.player.decoder_starting
    then (check_decoder_startup a.startup s >>= go_on)
    else (prefetch a s >>= λ t. play_round a (calculate_fade a t))

abbrev pub buffering_done : Session → Session
buffering_done s = record s { player = record s.player { buffering = false } }

-- The loop of Run behind ProcessCommand.
unfoldable pub round : RoundAnswers → Session → Option Machine
round a s =
    if s.player.buffering
    then if a.below_buffered && not a.idle_at_first
      then if not s.player.paused && s.player.output_open && ltb a.first_check 4
        then silence_then a.first_silence s
        else some (continue_at Phase.at_command s)
      else filled_round a (buffering_done s)
    else filled_round a s
