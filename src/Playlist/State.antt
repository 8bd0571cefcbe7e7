-- ===== src/Playlist/State.antt =====
-- Playlist.hxx and Playlist.cxx: the state of the playlist, and the choice of the next song for the player.
-- PlayerControl is an interface: the playlist's theorems hold for every player. Idle events and log
-- messages are left out.
use mpd_dsd.Prelude.{
  ℕ, ◌+◌, Bool, true, false, not, ◌&&◌, Option, none, some, if◌then◌else◌, ◌==◌, ◌>>=◌,
}
use mpd_dsd.Song.{Song, dup_detached}
use mpd_dsd.Queue.State.{
  Queue, get_next_order, get_order, get_order_item, position_to_order, is_valid_order,
}
use mpd_dsd.Queue.Order.{shuffle_order}

pub data PlayerState : Type 0 where
  stop pause play : PlayerState

pub data PlayerError : Type 0 where
  no_error decoder output : PlayerError

pub data PlaylistResult : Type 0 where
  success errno denied no_such_song no_such_list list_exists bad_name bad_range not_playing
        too_large disabled :
      PlaylistResult

-- What the playlist asks of PlayerControl. `P` is the state of the player and of its thread.
pub record PlayerControl (P : Type 0) : Type 0 where
  pub play : P → Song → P
  pub enqueue_song : P → Song → P
  pub cancel : P → P
  pub stop : P → P
  pub clear_error : P → P
  pub set_pause : P → Bool → P
  pub set_border_pause : P → Bool → P
  -- whether the player accepts the seek
  pub seek : P → Song → ℕ → Bool × P
  pub get_state : P → PlayerState
  pub get_error_type : P → PlayerError
  -- next_song != nullptr
  pub has_next_song : P → Bool

-- struct playlist, with the player that its operations are given. -1 is `none`.
pub record Playlist (P : Type 0) : Type 0 where
  pub queue : Queue
  pub playing : Bool
  pub stop_on_error : Bool
  pub bulk_edit : Bool
  pub bulk_modified : Bool
  pub error_count : ℕ
  pub current : Option ℕ
  pub queued : Option ℕ
  pub player : P

-- A pointer to a song of the queue is the id of its item: each item has a copy of its own.
abbrev pub SongPointer : Type 0
SongPointer = Option ℕ

unfoldable pub song_at : Queue → Option ℕ → SongPointer
unfolding get_order_item
song_at q none = none
song_at q (some order) = some (get_order_item q order).id

-- `a == b` for pointers
unfoldable pub same_song : SongPointer → SongPointer → Bool
same_song none none = true
same_song none (some b) = false
same_song (some a) none = false
same_song (some a) (some b) = a == b

unfoldable pub is_some : Option ℕ → Bool
is_some none = false
is_some (some _) = true

-- `current == (int)order`
unfoldable pub is_current : Option ℕ → ℕ → Bool
is_current none order = false
is_current (some current) order = current == order

unfoldable pub next_of : Queue → Option ℕ → Option ℕ
next_of q none = some 0
next_of q (some current) = get_next_order q current

unfoldable pub is_first : Option ℕ → Bool
is_first none = false
is_first (some order) = order == 0

module _ {P : Type 0} where
  -- playlist(max_length): what the constructor leaves open is given.
  abbrev pub new_playlist : Queue → Bool → Bool → ℕ → P → Playlist P
  new_playlist queue stop_on_error bulk_modified error_count player = record {
    queue = queue;
    playing = false;
    stop_on_error = stop_on_error;
    bulk_edit = false;
    bulk_modified = bulk_modified;
    error_count = error_count;
    current = none;
    queued = none;
    player = player;
  }

  unfoldable pub get_queued_song : Playlist P → SongPointer
  unfolding song_at
  get_queued_song l = if l.playing then song_at l.queue l.queued else none

  unfoldable pub get_current_position : Playlist P → Option ℕ
  get_current_position l = elim l.current [ none ↦ none | some c ↦ some (l.queue.order c) ]

  unfoldable pub get_next_position : Playlist P → Option ℕ
  unfolding is_valid_order
  get_next_position l = elim l.current [
    | none ↦ none
    | some c ↦
        if l.queue.single && l.queue.repeat
        then some (l.queue.order c)
        else if is_valid_order l.queue (c + 1)
        then some (l.queue.order (c + 1))
        else if l.queue.repeat
        then some (l.queue.order 0)
        else none
  ]

  -- current_position = OrderToPosition(current); ShuffleOrder(); current =
  -- PositionToOrder(current_position). `none` where there is no current song.
  unfoldable pub reshuffle : Playlist P → Option (Playlist P)
  unfolding shuffle_order position_to_order
  reshuffle l = elim l.current [
    | none ↦ none
    | some c ↦
        let queue = shuffle_order l.queue in
        elim (position_to_order queue (l.queue.order c)) [
          | none ↦ none
          | some current ↦ some (record l { queue = queue; current = some current })
        ]
  ]

module _ {P : Type 0} (pc : PlayerControl P) where
  unfoldable pub playlist_queue_song_order : Playlist P → ℕ → Playlist P
  unfolding get_order dup_detached
  playlist_queue_song_order l order = record l {
    queued = some order;
    player = pc.enqueue_song l.player (dup_detached (get_order l.queue order));
  }

  -- clear the currently queued song
  unfoldable pub cancel_queued : Bool → Playlist P → Playlist P
  cancel_queued true l = record l { player = pc.cancel l.player; queued = none }
  cancel_queued false l = l

  -- `same`: the next song is the one that was queued before.
  unfoldable pub request_next : Bool → Option ℕ → Playlist P → Playlist P
  unfolding playlist_queue_song_order
  request_next same none l = l
  request_next true (some order) l = record l { queued = some order }
  request_next false (some order) l = playlist_queue_song_order l order

  -- The end of UpdateQueuedSong, once the next order number is known.
  unfoldable pub queue_next : Playlist P → SongPointer → Option ℕ → Playlist P
  unfolding song_at same_song is_some cancel_queued request_next
  queue_next l prev next_order =
      let same = same_song (song_at l.queue next_order) prev in
      request_next same next_order (cancel_queued (is_some prev && not same) l)

  unfoldable pub update_queued_song : Playlist P → SongPointer → Option (Playlist P)
  unfolding next_of is_first is_some reshuffle queue_next
  update_queued_song l prev =
      if not l.playing
      then some l
      else if not (is_some prev) && l.bulk_edit
      then some l
      else let next_order = next_of l.queue l.current in
        elim (is_first next_order && l.queue.random && not l.queue.single) [
          | false ↦ some (queue_next l prev next_order)
          | true ↦ do l1 ← reshuffle l; some (queue_next l1 prev next_order)
        ]

  unfoldable pub play_order : Playlist P → ℕ → Playlist P
  unfolding get_order dup_detached
  play_order l order = record l {
    playing = true;
    queued = none;
    player = pc.play l.player (dup_detached (get_order l.queue order));
    current = some order;
  }
