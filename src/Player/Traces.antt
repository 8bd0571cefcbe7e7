-- ===== src/Player/Traces.antt =====
-- The player thread and the client together: every sequence of their steps.
use mpd_dsd.Prelude.{ℕ, ◌≡◌, Option, some, Bool, false}
use mpd_dsd.Playlist.State.{PlayerError}
use mpd_dsd.Player.State.{PlayerCommand, PlayerControl}
use mpd_dsd.Player.Commands.{Machine, Phase}
use mpd_dsd.Player.Task.{Answers, turn, issue, enqueue, seek_song}
use mpd_dsd.Player.Valid.{brings_song}
use mpd_dsd.Player.Valid.Turns.{IsSound}

abbrev with_control : PlayerControl → Machine → Machine
with_control pc m = record m { pc = pc }

-- Between commands and the rest of the loop of Run: no other song is queued.
abbrev pub MaySeek : Phase → Type 0
MaySeek Phase.idle = Unit
MaySeek (Phase.at_command p) = Unit
MaySeek (Phase.seeking p) = Unit
MaySeek (Phase.in_body p) = p.queued ≡ false
MaySeek Phase.exited = Unit

-- A turn of the player thread, or what the client does with PlayerControl while it holds the lock.
pub data Step (m n : Machine) : Type 0 where
  thread : (a : Answers) → IsSound a → turn a m ≡ some n → Step m n
  commands :
      (c : PlayerCommand) (pc : PlayerControl)
      → brings_song c ≡ false
      → issue c m.pc ≡ some pc
      → n ≡ with_control pc m
      → Step m n
  enqueues :
      (song : ℕ) (pc : PlayerControl)
      → enqueue song m.pc ≡ some pc
      → n ≡ with_control pc m
      → Step m n
  seeks :
      (song : ℕ) (pc : PlayerControl)
      → MaySeek m.phase
      → seek_song song m.pc ≡ some pc
      → n ≡ with_control pc m
      → Step m n
  sets :
      (border_pause : Bool) (error_type : PlayerError) (tagged_song : Option ℕ)
      → n
        ≡ with_control
            (record m.pc {
              border_pause = border_pause;
              error_type = error_type;
              tagged_song = tagged_song;
            })
            m
      → Step m n

pub data Reach (m : Machine) : Machine → Type 0 where
  here : Reach m m
  after : {n o : Machine} → Reach m n → Step n o → Reach m o
