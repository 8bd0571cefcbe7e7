-- ===== src/Queue/Order.antt =====
-- Queue.cxx: the order of playback in random mode, its shuffles and the priorities.
use mpd_dsd.Prelude.{
  ℕ, zero, suc, ◌+◌, ◌-◌, Bool, true, false, not, ◌&&◌, ◌||◌, Option, none, some, ltb, leb,
  if◌then◌else◌, ◌==◌,
}
use mpd_dsd.Prelude.Arrays.{Array, put}
use mpd_dsd.Queue.State.{Queue, uniform, swap_orders, get_order_priority, position_to_order}
use mpd_dsd.Queue.Move.{shift_left, swap_positions}

-- for (i = from; rounds; --i) order[i] = order[i - 1]
unfoldable pub shift_right : ℕ → ℕ → Array ℕ → Array ℕ
shift_right zero i order = order
shift_right (suc rounds) i order = shift_right rounds (i - 1) (put order i (order (i - 1)))

unfoldable pub move_order : Queue → ℕ → ℕ → Queue
move_order q from to = record q {
  order =
      put
        (if ltb from to
          then shift_left (to - from) from q.order
          else shift_right (from - to) from q.order)
        to (q.order from);
}

-- std::stable_sort by falling priority, as an insertion sort: the entry at `i` goes down past the
-- entries of lower priority, `rounds` places at most.
unfoldable pub sink : ℕ → ℕ → Queue → Queue
sink zero i q = q
sink (suc rounds) i q = elim (ltb (get_order_priority q (i - 1)) (get_order_priority q i)) [
  | true ↦ sink rounds (i - 1) (swap_orders q (i - 1) i)
  | false ↦ q
]

-- The sorted part is [start, start + done).
unfoldable pub sort_order : ℕ → ℕ → ℕ → Queue → Queue
sort_order zero start done q = q
sort_order (suc rounds) start done q =
    sort_order rounds start (done + 1) (sink done (start + done) q)

unfoldable pub sort_order_by_priority : Queue → ℕ → ℕ → Queue
sort_order_by_priority q start end = sort_order (end - start) start 0 q

-- std::shuffle: the entry at start + i changes places with one at or before it.
unfoldable pub shuffle_steps : ℕ → ℕ → ℕ → Queue → Queue
shuffle_steps zero start i q = q
shuffle_steps (suc rounds) start i q =
    let (j, rand) = uniform q.rand start (start + i) in
    shuffle_steps rounds start (i + 1) (swap_orders (record q { rand = rand }) (start + i) j)

unfoldable pub shuffle_order_range : Queue → ℕ → ℕ → Queue
shuffle_order_range q start end = shuffle_steps (end - start - 1) start 1 q

-- The loop over the priority groups, from the entry `i` on.
unfoldable pub shuffle_groups : ℕ → ℕ → ℕ → ℕ → Queue → Queue
shuffle_groups zero i group_start group_priority q = shuffle_order_range q group_start i
shuffle_groups (suc rounds) i group_start group_priority q =
    let priority = get_order_priority q i in
    elim (priority == group_priority) [
      | true ↦ shuffle_groups rounds (i + 1) group_start group_priority q
      | false ↦ shuffle_groups rounds (i + 1) i priority (shuffle_order_range q group_start i)
    ]

unfoldable pub shuffle_order_range_with_priority : Queue → ℕ → ℕ → Queue
shuffle_order_range_with_priority q start end =
    if start == end
    then q
    else let sorted = sort_order_by_priority q start end in
      shuffle_groups (end - start - 1) (start + 1) start (get_order_priority sorted start) sorted

unfoldable pub shuffle_order : Queue → Queue
shuffle_order q = shuffle_order_range_with_priority q 0 q.length

unfoldable pub shuffle_order_first : Queue → ℕ → ℕ → Queue
shuffle_order_first q start end =
    let (j, rand) = uniform q.rand start (end - 1) in swap_orders (record q { rand = rand }) start j

unfoldable pub shuffle_order_last : Queue → ℕ → ℕ → Queue
shuffle_order_last q start end =
    let (j, rand) = uniform q.rand start (end - 1) in
    swap_orders (record q { rand = rand }) (end - 1) j

-- The loop of ShuffleRange from `i` on.
unfoldable pub shuffle_positions : ℕ → ℕ → ℕ → ℕ → Queue → Queue
shuffle_positions zero i start end q = q
shuffle_positions (suc rounds) i start end q =
    let (ri, rand) = uniform q.rand start (end - 1) in
    shuffle_positions rounds (i + 1) start end (swap_positions (record q { rand = rand }) i ri)

unfoldable pub shuffle_range : Queue → ℕ → ℕ → Queue
shuffle_range q start end = shuffle_positions (end - start) start start end q

-- The loop of FindPriorityOrder from `i` on; at the end it returns the length.
unfoldable pub find_priority : ℕ → ℕ → Queue → ℕ → ℕ → ℕ
find_priority zero i q priority exclude = q.length
find_priority (suc rounds) i q priority exclude =
    let rest = find_priority rounds (i + 1) q priority exclude in
    if leb (get_order_priority q i) priority && not (i == exclude) then i else rest

unfoldable pub find_priority_order : Queue → ℕ → ℕ → ℕ → ℕ
find_priority_order q start priority exclude =
    find_priority (q.length - start) start q priority exclude

-- The loop of CountSamePriority, after `n` entries of this priority.
unfoldable pub count_priority : ℕ → ℕ → ℕ → Queue → ℕ → ℕ
count_priority zero n start q priority = n
count_priority (suc rounds) n start q priority =
    let rest = count_priority rounds (n + 1) start q priority in
    if get_order_priority q (start + n) == priority then rest else n

unfoldable pub count_same_priority : Queue → ℕ → ℕ → ℕ
count_same_priority q start priority = count_priority (q.length - start) 0 start q priority

-- Whether SetPriority leaves the order alone: the song is the current one, or it has been played
-- already and its priority has not become bigger than the current one's.
unfoldable pub keeps_order : Queue → ℕ → ℕ → ℕ → Option ℕ → Bool
keeps_order q order old_priority priority none = false
keeps_order q order old_priority priority (some after) =
    order == after
    || (ltb order after
        && (ltb (get_order_priority q after) old_priority
            || leb priority (get_order_priority q after)))

-- `after_order + 1`, where -1 is `none`
unfoldable pub first_after : Option ℕ → ℕ
first_after none = 0
first_after (some after) = after + 1

-- The part of SetPriority that moves the item in the order, and shuffles it into its group.
unfoldable pub requeue : Queue → ℕ → ℕ → Option ℕ → Queue
unfolding first_after
requeue q order priority after_order =
    let before_order = find_priority_order q (first_after after_order) priority order in
    let new_order = if ltb order before_order then before_order - 1 else before_order in
    let q1 = move_order q order new_order in
    shuffle_order_first q1 new_order (new_order + count_same_priority q1 new_order priority)

unfoldable pub set_item_priority : Queue → ℕ → ℕ → Queue
set_item_priority q position priority = record q {
  items =
      put q.items position (record (q.items position) { version = q.version; priority = priority });
}

-- `none` where the position has no order number, which `Valid` rules out.
unfoldable pub set_priority : Queue → ℕ → ℕ → Option ℕ → Option (Bool × Queue)
unfolding set_item_priority
set_priority q position priority after_order =
    let old_priority = (q.items position).priority in
    let q1 = set_item_priority q position priority in
    if old_priority == priority
    then some (false, q)
    else if not q.random
    then some (true, q1)
    else elim (position_to_order q1 position) [
      | none ↦ none
      | some order ↦
          if keeps_order q1 order old_priority priority after_order
          then some (true, q1)
          else some (true, requeue q1 order priority after_order)
    ]

-- PositionToOrder for a position that may be -1.
unfoldable pub order_of : Queue → Option ℕ → Option ℕ
order_of q none = none
order_of q (some position) = position_to_order q position

-- The loop of SetPriorityRange: the position of the current song stays, its order number is looked up
-- again for each song.
unfoldable pub set_priorities : ℕ → ℕ → ℕ → Option ℕ → Bool → Queue → Option (Bool × Queue)
unfolding order_of
set_priorities zero i priority after_position modified q = some (modified, q)
set_priorities (suc rounds) i priority after_position modified q =
    elim (set_priority q i priority (order_of q after_position)) [
      | none ↦ none
      | some (changed, q') ↦
          set_priorities rounds (i + 1) priority after_position (modified || changed) q'
    ]

unfoldable pub set_priority_range : Queue → ℕ → ℕ → ℕ → Option ℕ → Option (Bool × Queue)
set_priority_range q start end priority none =
    set_priorities (end - start) start priority none false q
set_priority_range q start end priority (some after_order) =
    set_priorities (end - start) start priority (some (q.order after_order)) false q
