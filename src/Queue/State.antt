-- ===== src/Queue/State.antt =====
-- Queue.hxx: the state of the queue, and the operations that read it or change one entry.
-- Lengths, positions, order numbers and ids stay below 2 ^ 31, so that `unsigned` and `int` hold them;
-- `int` results that use -1 for "none" are options.
use mpd_dsd.Prelude.{
  ℕ, zero, suc, ◌+◌, ◌-◌, ◌*◌, ◌%◌, ◌^◌, Bool, false, ◌&&◌, ◌||◌, not, Option, none, some, ltb, leb,
  if◌then◌else◌, ◌==◌,
}
use mpd_dsd.Prelude.Arrays.{Array, put, swap}
use mpd_dsd.IdTable.{IdTable, new_table, insert}
use mpd_dsd.Song.{Song, dup_detached}

-- Queue::Item
pub record Item : Type 0 where
  pub song : Song
  pub id : ℕ
  pub version : ℕ
  pub priority : ℕ

-- The random engine: the numbers that it is going to draw, and how many it has drawn.
pub record Rand : Type 0 where
  pub draws : ℕ → ℕ
  pub drawn : ℕ

-- std::uniform_int_distribution<unsigned>(a, b)(rand)
unfoldable pub uniform : Rand → ℕ → ℕ → ℕ × Rand
uniform r a b = (a + r.draws r.drawn % (b - a + 1), record r { drawn = r.drawn + 1 })

pub record Queue : Type 0 where
  pub max_length : ℕ
  pub length : ℕ
  pub version : ℕ
  pub items : Array Item
  pub order : Array ℕ
  pub id_table : IdTable
  pub repeat : Bool
  pub single : Bool
  pub consume : Bool
  pub random : Bool
  pub rand : Rand

abbrev pub hash_mult : ℕ
hash_mult = 4

-- Queue::Queue. The arrays start with what the memory held.
unfoldable pub new_queue : ℕ → Array Item → Array ℕ → Rand → Queue
unfolding new_table
new_queue max_length items order rand = record {
  max_length = max_length;
  length = 0;
  version = 1;
  items = items;
  order = order;
  id_table = new_table ((max_length * hash_mult) % 2 ^ 32);
  repeat = false;
  single = false;
  consume = false;
  random = false;
  rand = rand;
}

unfoldable pub is_full : Queue → Bool
is_full q = leb q.max_length q.length

unfoldable pub is_valid_position : Queue → ℕ → Bool
is_valid_position q position = ltb position q.length

unfoldable pub is_valid_order : Queue → ℕ → Bool
is_valid_order q order = ltb order q.length

-- The loop of PositionToOrder over the entries that are left: `none` where the assertion
-- `i < length` fails.
unfoldable pub search_order : Array ℕ → ℕ → ℕ → ℕ → Option ℕ
search_order order position zero i = none
search_order order position (suc left) i =
    let rest = search_order order position left (i + 1) in
    if order i == position then some i else rest

unfoldable pub position_to_order : Queue → ℕ → Option ℕ
position_to_order q position = search_order q.order position q.length 0

unfoldable pub get_order_item : Queue → ℕ → Item
get_order_item q i = q.items (q.order i)

unfoldable pub get_order_priority : Queue → ℕ → ℕ
unfolding get_order_item
get_order_priority q i = (get_order_item q i).priority

unfoldable pub get : Queue → ℕ → Song
get q position = (q.items position).song

unfoldable pub get_order : Queue → ℕ → Song
unfolding get
get_order q order = get q (q.order order)

-- uint32_t versions
unfoldable pub is_newer_at_position : Queue → ℕ → ℕ → Bool
is_newer_at_position q position version =
    ltb q.version version
    || leb version (q.items position).version
    || (q.items position).version == 0

-- -1, the end of playback, is `none`.
unfoldable pub get_next_order : Queue → ℕ → Option ℕ
get_next_order q order =
    if q.single && q.repeat && not q.consume
    then some order
    else if ltb (order + 1) q.length
    then some (order + 1)
    else if q.repeat && (ltb 0 order || not q.consume)
    then some 0
    else none

abbrev pub max_version : ℕ
max_version = 2 ^ 31 - 1

-- Each round of the loop writes its own entry.
unfoldable pub reset_versions : ℕ → Array Item → Array Item
reset_versions length items i = if ltb i length then record (items i) { version = 0 } else items i

unfoldable pub increment_version : Queue → Queue
unfolding reset_versions
increment_version q =
    let version = (q.version + 1) % 2 ^ 32 in
    if leb max_version version
    then record q { version = 1; items = reset_versions q.length q.items }
    else record q { version = version }

unfoldable pub modify_at_position : Queue → ℕ → Queue
modify_at_position q position = record q {
  items = put q.items position (record (q.items position) { version = q.version });
}

unfoldable pub modify_at_order : Queue → ℕ → Queue
unfolding modify_at_position
modify_at_order q order = modify_at_position q (q.order order)

-- The new id beside the queue. `none`: the loop of GenerateId would not end.
unfoldable pub append : Queue → Song → ℕ → Option (ℕ × Queue)
unfolding dup_detached
append q song priority = elim (insert q.id_table q.length) [
  | none ↦ none
  | some (id, table) ↦ some (
    id,
    record q {
      length = q.length + 1;
      items =
          put q.items q.length (record {
            song = dup_detached song;
            id = id;
            version = q.version;
            priority = priority;
          });
      order = put q.order q.length q.length;
      id_table = table;
    },
  )
]

unfoldable pub swap_orders : Queue → ℕ → ℕ → Queue
swap_orders q order1 order2 = record q { order = swap q.order order1 order2 }

-- Each round of the loop writes its own entry.
unfoldable pub restore_order : Queue → Queue
restore_order q = record q { order = λ i. if ltb i q.length then i else q.order i }
