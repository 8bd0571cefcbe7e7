-- ===== src/Queue/Move.antt =====
-- Queue.cxx: the operations that move, remove and swap the items of the queue.
-- An index of a loop that runs down to a bound is kept one higher than in the source, so that it
-- does not pass below 0.
use mpd_dsd.Prelude.{
  ℕ, zero, suc, ◌+◌, ◌-◌, ◌&&◌, Option, none, some, ltb, leb, if◌then◌else◌, ◌==◌,
}
use mpd_dsd.Prelude.Arrays.{Array, put, swap}
use mpd_dsd.IdTable.{IdTable, move, erase}
use mpd_dsd.Queue.State.{Item, Queue, position_to_order}

unfoldable pub move_item_to : Queue → ℕ → ℕ → Queue
unfolding move
move_item_to q from to = record q {
  items = put q.items to (record (q.items from) { version = q.version });
  id_table = move q.id_table (q.items from).id to;
}

unfoldable pub swap_positions : Queue → ℕ → ℕ → Queue
unfolding move
swap_positions q position1 position2 =
    let id1 = (q.items position1).id in
    let id2 = (q.items position2).id in
    let items = swap q.items position1 position2 in
    let items1 = put items position1 (record (items position1) { version = q.version }) in
    let items2 = put items1 position2 (record (items1 position2) { version = q.version }) in
    record q { items = items2; id_table = move (move q.id_table id1 position2) id2 position1 }

-- for (i = hole; rounds; i++) MoveItemTo(i + width, i)
unfoldable pub move_items_down : ℕ → ℕ → ℕ → Queue → Queue
move_items_down zero hole width q = q
move_items_down (suc rounds) hole width q =
    move_items_down rounds (hole + 1) width (move_item_to q (hole + width) hole)

-- for (i = hole - 1; rounds; i--) MoveItemTo(i, i + width)
unfoldable pub move_items_up : ℕ → ℕ → ℕ → Queue → Queue
move_items_up zero hole width q = q
move_items_up (suc rounds) hole width q =
    move_items_up rounds (hole - 1) width (move_item_to q (hole - 1) (hole - 1 + width))

-- for (i = start; rounds; i++) put tmp[i - start] at to + i - start
unfoldable pub copy_back : ℕ → ℕ → ℕ → Array Item → Queue → Queue
unfolding move
copy_back zero k to tmp q = q
copy_back (suc rounds) k to tmp q = copy_back rounds (k + 1) to tmp (record q {
  items = put q.items (to + k) (record (tmp k) { version = q.version });
  id_table = move q.id_table (tmp k).id (to + k);
})

-- for (i = 0; i < length; i++) order[i] = f(order[i]); each round writes its own entry.
unfoldable pub map_order : (ℕ → ℕ) → Queue → Queue
map_order f q = record q { order = λ i. if ltb i q.length then f (q.order i) else q.order i }

-- Where MovePostion moves a position.
unfoldable pub moved_position : ℕ → ℕ → ℕ → ℕ
moved_position from to p =
    if ltb from p && leb p to
    then p - 1
    else if ltb p from && leb to p
    then p + 1
    else if from == p
    then to
    else p

unfoldable pub move_position : Queue → ℕ → ℕ → Queue
unfolding moved_position map_order
move_position q from to =
    let tmp = q.items from in
    let q1 = move_items_down (to - from) from 1 q in
    let q2 = move_items_up (from - to) from 1 q1 in
    let q3 = copy_back 1 0 to (λ _. tmp) q2 in
    if q.random then map_order (moved_position from to) q3 else q3

-- Where MoveRange moves a position. `order[i] += to - start` wraps where `to < start`, and comes to
-- this sum.
unfoldable pub moved_range : ℕ → ℕ → ℕ → ℕ → ℕ
moved_range start end to p =
    if leb end p && ltb p (to + end - start)
    then p - (end - start)
    else if ltb p start && leb to p
    then p + (end - start)
    else if leb start p && ltb p end
    then p + to - start
    else p

unfoldable pub move_range : Queue → ℕ → ℕ → ℕ → Queue
unfolding moved_range map_order
move_range q start end to =
    let tmp = λ (k : ℕ). q.items (start + k) in
    let q1 = move_items_down (to - start) start (end - start) q in
    let q2 = move_items_up (start - to) start (end - start) q1 in
    let q3 = copy_back (end - start) 0 to tmp q2 in
    if q.random then map_order (moved_range start end to) q3 else q3

-- for (i = _order; rounds; i++) order[i] = order[i + 1]
unfoldable pub shift_left : ℕ → ℕ → Array ℕ → Array ℕ
shift_left zero i order = order
shift_left (suc rounds) i order = shift_left rounds (i + 1) (put order i (order (i + 1)))

unfoldable pub erased_position : ℕ → ℕ → ℕ
erased_position position p = if ltb position p then p - 1 else p

-- `none` where the position has no order number, which `Valid` rules out.
unfoldable pub delete_position : Queue → ℕ → Option Queue
unfolding erase erased_position map_order
delete_position q position = elim (position_to_order q position) [
  | none ↦ none
  | some order ↦
      let id = (q.items position).id in
      let length = q.length - 1 in
      let q1 = record q { length = length; id_table = erase q.id_table id } in
      let q2 = move_items_down (length - position) position 1 q1 in
      let q3 = record q2 { order = shift_left (length - order) order q2.order } in
      some (map_order (erased_position position) q3)
]

-- for (i = 0; i < rounds; i++) id_table.Erase(items[i].id)
unfoldable pub erase_ids : ℕ → ℕ → Array Item → IdTable → IdTable
unfolding erase
erase_ids zero i items table = table
erase_ids (suc rounds) i items table = erase_ids rounds (i + 1) items (erase table (items i).id)

unfoldable pub clear : Queue → Queue
clear q = record q { length = 0; id_table = erase_ids q.length 0 q.items q.id_table }
