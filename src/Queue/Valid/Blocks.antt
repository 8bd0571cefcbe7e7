-- ===== src/Queue/Valid/Blocks.antt =====
-- Queue.cxx, MovePostion and MoveRange, and the invariant of the queue.
use mpd_dsd.Prelude.{ℕ, ◌+◌, ◌-◌, ◌<◌, ◌≤◌, ◌≡◌, refl, arith, ap, ◌∙◌, dec_lt, true, if_cases}
use mpd_dsd.Prelude.Arrays.{Array}
use mpd_dsd.Queue.State.{Item, Queue}
use mpd_dsd.Queue.Move.{
  move_items_down, move_items_up, copy_back, move_position, move_range, map_order, moved_position,
  moved_range,
}
use mpd_dsd.Queue.Valid.{IsValid}
use mpd_dsd.Queue.Valid.Holes.{Filed, Filed-copy_out, Filed-close}
use mpd_dsd.Queue.Valid.Loops.{
  SameFrame, HoledQueue, move_items_down-SameFrame, move_items_up-SameFrame, copy_back-SameFrame,
  move_items_down-Holed, move_items_up-Holed, copy_back-Holed, SameFrame-trans,
}
use mpd_dsd.Queue.Valid.Orders.{
  mapped-IsOrder, moved_position-Below, moved_position-Injective, moved_range-Below,
  moved_range-Injective,
}

-- The loops over MoveItemTo keep a queue valid if they leave the ids in order.
pub SameFrame-IsValid :
    {q r : Queue} → SameFrame q r → IsValid q → Filed r.length r.items r.id_table → IsValid r
SameFrame-IsValid {q} {r} f v filed = record {
  within = omega (arith, f.length, f.max_length, v.within);
  size = omega (arith, f.size, f.max_length, v.size);
  next_pos = omega (arith, f.next, v.next_pos);
  next_lt = omega (arith, f.next, f.size, v.next_lt);
  filed = filed;
  ordered = rw (f.length, f.order) v.ordered;
  straight = λ s i h.
      ground (arith, f.length, f.order, f.random, v.straight (ground arith) i (ground arith));
}

-- Mapping the order numbers by an injection of the positions keeps a queue valid.
pub map_order-IsValid :
    (f : ℕ → ℕ) (n : ℕ) (q : Queue)
    → q.length ≡ n
    → ((i : ℕ) → i < n → f i < n)
    → ((i j : ℕ) → i < n → j < n → f i ≡ f j → i ≡ j)
    → q.random ≡ true
    → IsValid q
    → IsValid (map_order f q)
unfolding map_order
map_order-IsValid f n q e b inj shuffled v = record {
  within = v.within;
  size = v.size;
  next_pos = v.next_pos;
  next_lt = v.next_lt;
  filed = v.filed;
  ordered = mapped-IsOrder q.length f q.order (rw e b) (rw e inj) v.ordered;
  straight = λ s. absurd (ground arith);
}

-- The three loops of MovePostion and MoveRange.
abbrev pub block_moved : Queue → ℕ → ℕ → ℕ → Array Item → Queue
block_moved q start w to tmp =
    copy_back w 0 to tmp
      (move_items_up (start - to) start w (move_items_down (to - start) start w q))

pub block_moved-SameFrame :
    (q : Queue) (start w to : ℕ) (tmp : Array Item) → SameFrame q (block_moved q start w to tmp)
block_moved-SameFrame q start w to tmp =
    let q1 : Queue = move_items_down (to - start) start w q in
    let q2 : Queue = move_items_up (start - to) start w q1 in
    SameFrame-trans (move_items_down-SameFrame (to - start) start w q) (
      SameFrame-trans (move_items_up-SameFrame (start - to) start w q1)
        (copy_back-SameFrame w 0 to tmp q2))

block_moved-Holed :
    (q : Queue) (n start w to : ℕ) (tmp : Array Item)
    → 0 < w
    → start + w ≤ n
    → to + w ≤ n
    → HoledQueue n start w tmp 0 w q
    → HoledQueue n to w tmp 0 w
        (move_items_up (start - to) start w (move_items_down (to - start) start w q))
block_moved-Holed q n start w to tmp pos h1 h2 f = elim (dec_lt to start) [
  | yes p ↦
      move_items_up-Holed pos (start - to) start to _ (omega arith) h1
        (move_items_down-Holed pos (to - start) start start q (omega arith) h1 f)
  | no p ↦
      let z : start - to ≡ 0 = omega arith in
      rw z (
        unfold move_items_up in
        move_items_down-Holed pos (to - start) start to q (omega arith) h2 f)
]

block_moved-IsValid :
    (q : Queue) (start w to : ℕ) (tmp : Array Item)
    → 0 < w
    → start + w ≤ q.length
    → to + w ≤ q.length
    → ((j : ℕ) → j < w → (tmp j).id ≡ (q.items (start + j)).id)
    → IsValid q
    → IsValid (block_moved q start w to tmp)
block_moved-IsValid q start w to tmp pos h1 h2 same v =
    let frame = block_moved-SameFrame q start w to tmp in
    let holed =
      block_moved-Holed q q.length start w to tmp pos h1 h2
        (Filed-copy_out q.length start w tmp q.items q.id_table h1 same v.filed) in
    let closed = copy_back-Holed q.length tmp w 0 to to _ (omega arith) h2 holed in
    SameFrame-IsValid frame v (rw (frame.length) (Filed-close closed.2))

-- MovePostion keeps the queue valid.
pub move_position-IsValid :
    (q : Queue) (from to : ℕ)
    → from < q.length
    → to < q.length
    → IsValid q
    → IsValid (move_position q from to)
unfolding move_position
move_position-IsValid q from to hf ht v =
    let frame = block_moved-SameFrame q from 1 to (λ _. q.items from) in
    let moved =
      block_moved-IsValid q from 1 to (λ _. q.items from) (omega arith) (omega arith) (omega arith)
        (λ j h. ap (λ k. (q.items k).id) (omega arith)) v in
    if_cases IsValid q.random
      (λ shuffled.
        map_order-IsValid (moved_position from to) q.length _ frame.length
          (moved_position-Below q.length from to hf ht) (moved_position-Injective q.length from to)
          (frame.random ∙ shuffled) moved)
      (λ _. moved)

-- MoveRange keeps the queue valid.
pub move_range-IsValid :
    (q : Queue) (start end to : ℕ)
    → start < end
    → end ≤ q.length
    → to + (end - start) ≤ q.length
    → IsValid q
    → IsValid (move_range q start end to)
unfolding move_range
move_range-IsValid q start end to h1 h2 h3 v =
    let tmp = λ (k : ℕ). q.items (start + k) in
    let frame = block_moved-SameFrame q start (end - start) to tmp in
    let moved =
      block_moved-IsValid q start (end - start) to tmp (omega arith) (omega arith) h3 (λ j h. refl)
        v in
    if_cases IsValid q.random
      (λ shuffled.
        map_order-IsValid (moved_range start end to) q.length _ frame.length
          (moved_range-Below q.length start end to (omega arith) h2 h3)
          (moved_range-Injective q.length start end to (omega arith)) (frame.random ∙ shuffled)
          moved)
      (λ _. moved)
