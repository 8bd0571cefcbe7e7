-- ===== src/Queue/Tests.antt =====
-- Concrete queues: the theorems of the queue at work, and runs of its operations.
use mpd_dsd.Prelude.{
  ℕ, ◌+◌, ◌<◌, ◌≡◌, ◌≢◌, refl, arith, true, false, if◌then◌else◌, ◌==◌, none, some, [], ◌∷◌, List,
}
use mpd_dsd.IdTable.{id_to_position}
use mpd_dsd.Song.{Song, dup_detached}
use mpd_dsd.Queue.State.{Item, Rand, Queue, new_queue, append, get_order_item}
use mpd_dsd.Queue.Move.{
  move_items_down, move_items_up, copy_back, move_range, erased_position, delete_position,
  move_item_to,
}
use mpd_dsd.Queue.Order.{shuffle_order}
use mpd_dsd.Queue.Valid.{IsValid}
use mpd_dsd.Queue.Valid.Orders.{skipping}
use mpd_dsd.Queue.Valid.Operations.{new_queue-IsValid, append_correct}
use mpd_dsd.Queue.Contents.{SameSong}
use mpd_dsd.Queue.Songs.{IsMoved, move_range_plays, delete_position_songs}
use mpd_dsd.Queue.Sorted.{IsSorted, shuffle_order-IsSorted}

abbrev pub song : ℕ → Song
song n = record { tag = none; parent = none; mtime = 0; start_ms = 0; end_ms = 0; uri = n ∷ [] }

abbrev engine : Rand
engine = record { draws = λ n. 7 + n; drawn = 0 }

abbrev blank : Item
blank = record { song = song 0; id = 0; version = 0; priority = 0 }

abbrev empty : Queue
empty = new_queue 3 (λ _. blank) (λ _. 0) engine

-- Three songs in a queue with room for four, in random mode: they are played as b'c', b'a', b'b'.
abbrev pub three : Queue
three = record {
  max_length = 4;
  length = 3;
  version = 5;
  items = λ p.
      if p == 0
      then record { song = song b'a'; id = 1; version = 2; priority = 0 }
      else if p == 1
      then record { song = song b'b'; id = 2; version = 3; priority = 0 }
      else record { song = song b'c'; id = 3; version = 4; priority = 7 };
  order = λ i. if i == 0 then 2 else if i == 1 then 0 else 1;
  id_table = record {
    size = 16;
    next = 4;
    slots =
        λ d. if d == 1 then some 0 else if d == 2 then some 1 else if d == 3 then some 2 else none;
  };
  repeat = false;
  single = false;
  consume = false;
  random = true;
  rand = engine;
}

pub three-IsValid : IsValid three
three-IsValid = record {
  within = omega arith;
  size = refl;
  next_pos = omega arith;
  next_lt = omega arith;
  filed = record {
    filed = λ p h. ground arith;
    range = λ p h. ground arith;
    owner = λ d p e. ground arith;
  };
  ordered = record { below = λ i h. ground arith; injective = λ i j hi hj e. ground arith };
  straight = λ s. absurd (ground arith);
}

empty-IsValid : IsValid empty
empty-IsValid = new_queue-IsValid 3 (λ _. blank) (λ _. 0) engine (omega arith) (omega arith)

played : Queue → List ℕ
unfolding get_order_item
played q = (get_order_item q 0).id ∷ (get_order_item q 1).id ∷ (get_order_item q 2).id ∷ []

move_range_run : played (move_range three 0 2 1) ≡ 3 ∷ 1 ∷ 2 ∷ []
unfolding played move_range move_items_down move_items_up move_item_to copy_back
move_range_run = refl

append_correct_example :
    (id : ℕ) × (r : Queue) × (append three (song b'd') 0 ≡ some (id, r))
    × IsValid r
    × (r.length ≡ 4)
    × (id_to_position three.id_table id ≡ none)
    × (id_to_position r.id_table id ≡ some 3)
    × ((r.items 3).song ≡ dup_detached (song b'd'))
    × ((p : ℕ) → p < 3 → r.items p ≡ three.items p)
append_correct_example = append_correct three (song b'd') 0 three-IsValid (omega arith)

move_range_plays_example : IsMoved three (move_range three 0 2 1) 0 2 1
move_range_plays_example = move_range_plays three 0 2 1 (omega arith) refl

delete_position_songs_example :
    (k : ℕ) × (r : Queue) × (delete_position three 0 ≡ some r)
    × (three.order k ≡ 0)
    × ((p : ℕ) → p < 3 → p ≢ 0 → SameSong (r.items (erased_position 0 p)) (three.items p))
    × ((i : ℕ) → i < r.length → SameSong (get_order_item r i) (get_order_item three (skipping k i)))
delete_position_songs_example = delete_position_songs three 0 (omega arith) three-IsValid

shuffle_order-IsSorted_example : IsSorted (shuffle_order three) 0 3
shuffle_order-IsSorted_example = shuffle_order-IsSorted three

-- A song below a directory of the database.
abbrev nested : Song
nested = record (song b'x') { parent = some (record { detached = false; path = b'd' ∷ [] }) }
