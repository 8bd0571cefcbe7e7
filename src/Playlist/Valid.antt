-- ===== src/Playlist/Valid.antt =====
-- What every operation of the playlist keeps, whatever the player answers.
pub mod Reshuffles
pub mod Requests
pub mod Updates
pub mod Commits
pub mod Moves
pub mod MoveIds
pub mod Control
pub mod Deletes
pub mod Events
pub mod Options
pub mod Randoms
pub mod Adds
pub mod Ranks
pub mod Swaps
pub mod Shuffles
pub mod Overruns
use mpd_dsd.Prelude.{ℕ, ◌+◌, ◌<◌, ◌≤◌, ◌≡◌, Bool, true, false, Option, none, some}
use mpd_dsd.Queue.State.{Queue}
use mpd_dsd.Queue.Valid.{IsValid}
use mpd_dsd.Playlist.State.{Playlist}

-- An order number, if there is one, is below the length.
abbrev pub IsWithin : ℕ → Option ℕ → Type 0
IsWithin length none = Unit
IsWithin length (some order) = order < length

abbrev pub IsSome : Option ℕ → Type 0
IsSome none = ⊥
IsSome (some _) = Unit

-- The queue is valid, the current order number is in it, and during playback there is a current song,
-- and the queued song, if any, is in the queue. Without playback `queued` may be out of date.
pub record IsConsistent {P : Type 0} (l : Playlist P) : Type 0 where
  pub valid : IsValid l.queue
  pub current : IsWithin l.queue.length l.current
  pub has_current : l.playing ≡ true → IsSome l.current
  pub queued : l.playing ≡ true → IsWithin l.queue.length l.queued
