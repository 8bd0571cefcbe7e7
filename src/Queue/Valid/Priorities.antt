-- ===== src/Queue/Valid/Priorities.antt =====
-- Queue.cxx, SetPriority and SetPriorityRange, and the invariant of the queue.
use mpd_dsd.Prelude.{
  ℕ, zero, suc, ◌+◌, ◌-◌, ◌<◌, ◌≤◌, ◌≡◌, refl, ◌∙◌, arith, ap, true, false, Bool, not, ◌||◌,
  if◌then◌else◌, ◌==◌, if_cases, inl, inr, Option, none, some, Option-cases,
}
use mpd_dsd.Prelude.Arrays.{Array}
use mpd_dsd.Prelude.Pigeonhole.{preimage}
use mpd_dsd.Queue.State.{Item, Queue, get_order_priority, position_to_order, search_order}
use mpd_dsd.Queue.Order.{
  requeue, set_item_priority, set_priority, set_priorities, set_priority_range, first_after,
  keeps_order, order_of,
}
use mpd_dsd.Queue.Valid.{IsValid}
use mpd_dsd.Queue.Valid.Orders.{search_order_sound, search_order_total}
use mpd_dsd.Queue.Valid.Deletes.{items_changed-IsValid}
use mpd_dsd.Queue.Valid.Requeues.{requeue-Reordered}

-- PositionToOrder is total on a valid queue, and inverts OrderToPosition.
pub position_to_order_total :
    (q : Queue) (position : ℕ)
    → position < q.length
    → IsValid q
    → (k : ℕ) × (position_to_order q position ≡ some k) × (k < q.length) × (q.order k ≡ position)
unfolding position_to_order
position_to_order_total q position h v =
    elim (Option-cases (search_order q.order position q.length 0)) [
      | inl missing ↦
          let (k, hk, ek) =
            preimage q.length q.order v.ordered.below v.ordered.injective position h in
          absurd (
            search_order_total q.order position q.length 0 k (omega arith) (omega arith) ek missing)
      | inr (k, found) ↦
          let at = search_order_sound q.order position q.length 0 k found in
          (k, found, omega arith, at.2)
    ]

-- The order number of the song that has been played last, if any, is below the length.
abbrev pub ValidAfter : Queue → Option ℕ → Type 0
ValidAfter q after = first_after after ≤ q.length

-- A result that is there, whose queue is valid and holds the songs of `q` under their ids.
abbrev pub Returns : Queue → Option (Bool × Queue) → Type 0
Returns q o =
    (changed : Bool) × (r : Queue) × (o ≡ some (changed, r))
    × IsValid r
    × (r.length ≡ q.length)
    × ((p : ℕ) → (r.items p).id ≡ (q.items p).id)

set_item_priority-IsValid :
    (q : Queue) (position priority : ℕ)
    → IsValid q
    → IsValid (set_item_priority q position priority)
unfolding set_item_priority
set_item_priority-IsValid q position priority v =
    items_changed-IsValid q q.version _ (λ p. ground arith) v

set_item_priority_ids :
    (q : Queue) (position priority p : ℕ)
    → ((set_item_priority q position priority).items p).id ≡ (q.items p).id
unfolding set_item_priority
set_item_priority_ids q position priority p = ground arith

-- SetPriority in random mode, from the order number of the item on.
reorder-Returns :
    (q q1 : Queue) (order old_priority priority : ℕ) (after : Option ℕ)
    → q1.length ≡ q.length
    → ((p : ℕ) → (q1.items p).id ≡ (q.items p).id)
    → order < q1.length
    → ValidAfter q1 after
    → q1.random ≡ true
    → get_order_priority q1 order ≡ priority
    → IsValid q1
    → Returns q (
        if keeps_order q1 order old_priority priority after
        then some (true, q1)
        else some (true, requeue q1 order priority after))
reorder-Returns q q1 order old priority after len ids h le s e v =
    if_cases (Returns q) (keeps_order q1 order old priority after)
      (λ _. (true, q1, refl, v, len, ids))
      (λ _.
        let f = requeue-Reordered q1 order priority after h le s e in
        (
          true,
          requeue q1 order priority after,
          refl,
          f.valid v,
          f.length ∙ len,
          λ p. ap (λ (a : Array Item). (a p).id) f.items ∙ ids p,
        ))

-- SetPriority returns, and keeps the queue valid, with the same songs under the same ids.
pub set_priority-IsValid :
    (q : Queue) (position priority : ℕ) (after : Option ℕ)
    → position < q.length
    → ValidAfter q after
    → IsValid q
    → Returns q (set_priority q position priority after)
unfolding set_priority get_order_priority
set_priority-IsValid q position priority after h le v =
    let q1 : Queue = set_item_priority q position priority in
    let v1 : IsValid q1 = set_item_priority-IsValid q position priority v in
    let ids : (p : ℕ) → (q1.items p).id ≡ (q.items p).id =
      set_item_priority_ids q position priority in
    if_cases (Returns q) ((q.items position).priority == priority)
      (λ _. (false, q, refl, v, refl, λ p. refl))
      (λ _.
        if_cases (Returns q) (not q.random) (λ _. (true, q1, refl, v1, refl, ids))
          (λ s.
            let (k, found, hk, ek) = position_to_order_total q1 position h v1 in
            rw found (
              reorder-Returns q q1 k (q.items position).priority priority after refl ids hk le
                (ground arith) (ground arith) v1)))

-- The current song of SetPriorityRange: its position, which is -1 if there is none.
abbrev ValidPosition : Queue → Option ℕ → Type 0
ValidPosition q none = Unit
ValidPosition q (some position) = position < q.length

ValidPosition-length :
    (q r : Queue) (position : Option ℕ)
    → r.length ≡ q.length
    → ValidPosition q position
    → ValidPosition r position
ValidPosition-length q r none e h = tt
ValidPosition-length q r (some position) e h = omega arith

order_of-ValidAfter :
    (q : Queue) (position : Option ℕ)
    → ValidPosition q position
    → IsValid q
    → ValidAfter q (order_of q position)
unfolding order_of first_after
order_of-ValidAfter q none h v = omega arith
order_of-ValidAfter q (some position) h v =
    let (k, found, hk, ek) = position_to_order_total q position h v in rw found (omega arith)

set_priorities-IsValid :
    (rounds i priority : ℕ) (position : Option ℕ) (modified : Bool) (q : Queue)
    → i + rounds ≤ q.length
    → ValidPosition q position
    → IsValid q
    → Returns q (set_priorities rounds i priority position modified q)
unfolding set_priorities
set_priorities-IsValid zero i priority position modified q h at v =
    (modified, q, refl, v, refl, λ p. refl)
set_priorities-IsValid (suc rounds) i priority position modified q h at v =
    let (changed, r, e, vr, len, ids) =
      set_priority-IsValid q i priority (order_of q position) (omega arith)
        (order_of-ValidAfter q position at v) v in
    let (changed', r', e', vr', len', ids') =
      set_priorities-IsValid rounds (i + 1) priority position (modified || changed) r
        (omega (arith, len)) (ValidPosition-length q r position len at) vr in
    (changed', r', rw (e, set_priorities) e', vr', len' ∙ len, λ p. ids' p ∙ ids p)

-- SetPriorityRange returns, and keeps the queue valid, with the same songs under the same ids.
pub set_priority_range-IsValid :
    (q : Queue) (start end priority : ℕ) (after : Option ℕ)
    → start ≤ end
    → end ≤ q.length
    → ValidAfter q after
    → IsValid q
    → Returns q (set_priority_range q start end priority after)
unfolding set_priority_range first_after
set_priority_range-IsValid q start end priority none h1 h2 le v =
    set_priorities-IsValid (end - start) start priority none false q (omega arith) tt v
set_priority_range-IsValid q start end priority (some after) h1 h2 le v =
    set_priorities-IsValid (end - start) start priority (some (q.order after)) false q (omega arith)
      (v.ordered.below after (omega arith)) v
