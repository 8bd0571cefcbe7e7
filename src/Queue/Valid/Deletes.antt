-- ===== src/Queue/Valid/Deletes.antt =====
-- Queue.cxx: removing, clearing, swapping and marking items keeps the queue valid.
use mpd_dsd.Prelude.{
  ℕ, suc, ◌+◌, ◌-◌, ◌%◌, ◌^◌, ◌<◌, ◌≡◌, refl, arith, ap, sym, ◌∙◌, some, true, false, inl, inr,
  Option-cases, if_cases, leb,
}
use mpd_dsd.Prelude.Arrays.{Array}
use mpd_dsd.Prelude.Pigeonhole.{preimage}
use mpd_dsd.IdTable.{erase}
use mpd_dsd.Queue.State.{
  Item, Queue, max_version, increment_version, modify_at_position, restore_order, swap_orders,
  position_to_order, search_order,
}
use mpd_dsd.Queue.Move.{
  move_items_down, swap_positions, delete_position, clear, map_order, erased_position, shift_left,
}
use mpd_dsd.Queue.Valid.{IsValid}
use mpd_dsd.Queue.Valid.Holes.{Filed, Filed-erase, Filed-cut}
use mpd_dsd.Queue.Valid.Loops.{
  SameFrame, move_items_down-SameFrame, move_items_down-Holed, SameFrame-trans,
}
use mpd_dsd.Queue.Valid.Orders.{
  swap-IsOrder, erased-IsOrder, search_order_sound, search_order_total, shift_left_lem,
}
use mpd_dsd.Queue.Valid.Tables.{Filed-same_ids, Filed-swap, Filed-clear, erase_ids-same_size}

-- DeletePosition after the items have moved: the order array loses its entry `k`.
closed-IsValid :
    (q r : Queue) (position k n : ℕ)
    → q.length ≡ suc n
    → k < suc n
    → q.order k ≡ position
    → IsValid q
    → SameFrame (record q { length = n }) r
    → Filed n r.items r.id_table
    → IsValid
        (map_order (erased_position position) (record r { order = shift_left (n - k) k r.order }))
unfolding map_order erased_position
closed-IsValid q r position k n e hk ek v frame filed = record {
  within = omega (arith, frame.length, frame.max_length, v.within);
  size = omega (arith, frame.size, frame.max_length, v.size);
  next_pos = omega (arith, frame.next, v.next_pos);
  next_lt = omega (arith, frame.next, frame.size, v.next_lt);
  filed = rw frame.length filed;
  ordered =
      rw (frame.length, frame.order)
        (unfold erased_position in erased-IsOrder n position k q.order hk ek (rw (← e) v.ordered));
  straight = λ s i h.
      let same : q.random ≡ false = sym frame.random ∙ s in
      ground (
        arith,
        frame.length,
        shift_left_lem (n - k) k r.order i,
        ap (λ (o : Array ℕ). o i) frame.order,
        ap (λ (o : Array ℕ). o (i + 1)) frame.order,
        v.straight same i (omega (arith, frame.length)),
        v.straight same (i + 1) (omega (arith, frame.length)),
        v.straight same k (omega arith),
      );
}

-- The queue of `n + 1` songs while DeletePosition runs: its items have moved, its order has not.
abbrev pub pulled : Queue → ℕ → ℕ → Queue
pulled q position n =
    move_items_down (n - position) position 1
      (record q { length = n; id_table = erase q.id_table (q.items position).id })

pub pulled-SameFrame :
    (q : Queue) (position n : ℕ) → SameFrame (record q { length = n }) (pulled q position n)
unfolding erase
pulled-SameFrame q position n =
    SameFrame-trans (ground arith) (move_items_down-SameFrame (n - position) position 1 _)

pulled-Filed :
    (q : Queue) (position n : ℕ)
    → position < suc n
    → Filed (suc n) q.items q.id_table
    → Filed n (pulled q position n).items (pulled q position n).id_table
unfolding erase
pulled-Filed q position n h f = Filed-cut {k = 0} {tmp = q.items} (
    move_items_down-Holed (omega arith) (n - position) position n _ (omega arith) (omega arith)
      (Filed-erase (suc n) position q.items q.items q.id_table h f))

-- The queue that DeletePosition leaves, where `k` is the order number.
abbrev pub deleted : Queue → ℕ → ℕ → ℕ → Queue
deleted q position k n =
    map_order (erased_position position)
      (record (pulled q position n) { order = shift_left (n - k) k (pulled q position n).order })

-- DeletePosition finds the order number of the song.
pub delete_position_result :
    (q : Queue) (position : ℕ)
    → position < q.length
    → IsValid q
    → (k : ℕ) × (k < q.length)
      × (q.order k ≡ position)
      × (delete_position q position ≡ some (deleted q position k (q.length - 1)))
unfolding delete_position position_to_order
delete_position_result q position h v =
    elim (Option-cases (search_order q.order position q.length 0)) [
      | inl missing ↦
          let (k, hk, ek) =
            preimage q.length q.order v.ordered.below v.ordered.injective position h in
          absurd (
            search_order_total q.order position q.length 0 k (omega arith) (omega arith) ek missing)
      | inr (k, found) ↦
          let at = search_order_sound q.order position q.length 0 k found in
          (k, omega arith, at.2, rw (found, delete_position))
    ]

-- DeletePosition returns, with a valid queue that is shorter by one.
pub delete_position-IsValid :
    (q : Queue) (position : ℕ)
    → position < q.length
    → IsValid q
    → (r : Queue) × (delete_position q position ≡ some r) × IsValid r × (r.length + 1 ≡ q.length)
unfolding map_order
delete_position-IsValid q position h v =
    let (k, hk, ek, e) = delete_position_result q position h v in
    let frame = pulled-SameFrame q position (q.length - 1) in
    let len : q.length ≡ suc (q.length - 1) = omega arith in
    (
      deleted q position k (q.length - 1),
      e,
      closed-IsValid q (pulled q position (q.length - 1)) position k (q.length - 1) len
          (omega arith) ek v frame
          (pulled-Filed q position (q.length - 1) (omega arith) (rw (← len) v.filed)),
      omega (arith, frame.length),
    )

-- Clear keeps the queue valid.
pub clear-IsValid : (q : Queue) → IsValid q → IsValid (clear q)
unfolding clear
clear-IsValid q v =
    let same = erase_ids-same_size q.length 0 q.items q.id_table in
    record {
      within = omega arith;
      size = omega (arith, same.0, v.size);
      next_pos = omega (arith, same.1, v.next_pos);
      next_lt = omega (arith, same.0, same.1, v.next_lt);
      filed = Filed-clear v.filed;
      ordered = record { below = λ i h. elim h [ ]; injective = λ i j h. elim h [ ] };
      straight = λ _ i h. elim h [ ];
    }

-- SwapPositions keeps the queue valid.
pub swap_positions-IsValid :
    (q : Queue) (i j : ℕ) → i < q.length → j < q.length → IsValid q → IsValid (swap_positions q i j)
unfolding swap_positions
swap_positions-IsValid q i j hi hj v = record {
  within = v.within;
  size = v.size;
  next_pos = v.next_pos;
  next_lt = v.next_lt;
  filed = Filed-swap i j hi hj (λ p. ground arith) v.filed;
  ordered = v.ordered;
  straight = v.straight;
}

-- SwapOrders keeps the queue valid in random mode.
pub swap_orders-IsValid :
    (q : Queue) (i j : ℕ)
    → i < q.length
    → j < q.length
    → q.random ≡ true
    → IsValid q
    → IsValid (swap_orders q i j)
unfolding swap_orders
swap_orders-IsValid q i j hi hj shuffled v = record {
  within = v.within;
  size = v.size;
  next_pos = v.next_pos;
  next_lt = v.next_lt;
  filed = v.filed;
  ordered = swap-IsOrder q.length i j q.order hi hj v.ordered;
  straight = λ s. absurd (ground arith);
}

pub items_changed-IsValid :
    (q : Queue) (version : ℕ) (items : Array Item)
    → ((p : ℕ) → (items p).id ≡ (q.items p).id)
    → IsValid q
    → IsValid (record q { version = version; items = items })
items_changed-IsValid q version items same v = record {
  within = v.within;
  size = v.size;
  next_pos = v.next_pos;
  next_lt = v.next_lt;
  filed = Filed-same_ids same v.filed;
  ordered = v.ordered;
  straight = v.straight;
}

-- IncrementVersion keeps the queue valid, and takes a version below 2 ^ 31 - 1 to one between 1 and
-- 2 ^ 31 - 2.
pub increment_version-IsValid :
    (q : Queue)
    → q.version < 2 ^ 31 - 1
    → IsValid q
    → IsValid (increment_version q)
      × (0 < (increment_version q).version)
      × ((increment_version q).version < 2 ^ 31 - 1)
unfolding increment_version
increment_version-IsValid q h v = (
  if_cases IsValid (leb max_version ((q.version + 1) % 2 ^ 32))
      (λ _. items_changed-IsValid q 1 _ (λ p. ground arith) v)
      (λ _. items_changed-IsValid q _ q.items (λ p. refl) v),
  ground arith,
  ground arith,
)

-- ModifyAtPosition keeps the queue valid.
pub modify_at_position-IsValid :
    (q : Queue) (position : ℕ) → IsValid q → IsValid (modify_at_position q position)
unfolding modify_at_position
modify_at_position-IsValid q position v = items_changed-IsValid q q.version _ (λ p. ground arith) v

-- RestoreOrder makes the queue valid again after random mode is switched off.
pub restore_order-IsValid :
    (q : Queue) → IsValid (record q { random = true }) → IsValid (restore_order q)
unfolding restore_order
restore_order-IsValid q v = record {
  within = v.within;
  size = v.size;
  next_pos = v.next_pos;
  next_lt = v.next_lt;
  filed = v.filed;
  ordered = record { below = λ i h. ground arith; injective = λ i j hi hj e. ground arith };
  straight = λ _ i h. ground arith;
}
