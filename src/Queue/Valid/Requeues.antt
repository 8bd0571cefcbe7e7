-- ===== src/Queue/Valid/Requeues.antt =====
-- Queue.cxx, SetPriority: the place in the order that an item is moved to.
use mpd_dsd.Prelude.{
  ℕ, zero, suc, ◌+◌, ◌-◌, ◌<◌, ◌≤◌, ◌≡◌, ◌≢◌, ◌∙◌, arith, ap, true, not, ◌&&◌, ltb, leb,
  if◌then◌else◌, ◌==◌, if_cases, Option, dec_lt,
}
use mpd_dsd.Prelude.Arrays.{Array}
use mpd_dsd.Queue.State.{Item, Queue, get_order_priority}
use mpd_dsd.Queue.Order.{
  find_priority, find_priority_order, count_priority, count_same_priority, move_order, requeue,
  first_after,
}
use mpd_dsd.Queue.Valid.Shuffles.{
  Reordered, Reordered-trans, move_order-Reordered, shuffle_order_first-Reordered,
}

-- What FindPriorityOrder returns: the end, or the first entry of that priority or a lower one.
pub record Finds (q : Queue) (start priority exclude i : ℕ) : Type 0 where
  pub after : start ≤ i
  pub within : i ≤ q.length
  pub higher : (j : ℕ) → start ≤ j → j < i → j ≢ exclude → priority < get_order_priority q j
  pub lower : i < q.length → (get_order_priority q i ≤ priority) × (i ≢ exclude)

find_priority-Finds :
    (rounds i start : ℕ) (q : Queue) (priority exclude : ℕ)
    → i + rounds ≡ q.length
    → start ≤ i
    → ((j : ℕ) → start ≤ j → j < i → j ≢ exclude → priority < get_order_priority q j)
    → Finds q start priority exclude (find_priority rounds i q priority exclude)
unfolding find_priority
find_priority-Finds zero i start q priority exclude e le above = record {
  after = omega arith;
  within = omega arith;
  higher = λ j h1 h2 ne. above j h1 (omega arith) ne;
  lower = λ h. absurd (omega arith);
}
find_priority-Finds (suc rounds) i start q priority exclude e le above =
    if_cases (Finds q start priority exclude)
      (leb (get_order_priority q i) priority && not (i == exclude))
      (λ hit. record {
        after = le;
        within = omega arith;
        higher = above;
        lower = λ h. ground arith;
      })
      (λ miss.
        find_priority-Finds rounds (i + 1) start q priority exclude (omega arith) (omega arith)
          (λ j h1 h2 ne. elim (dec_lt j i) [
            | yes lt ↦ above j h1 lt ne
            | no ge ↦ let same : j ≡ i = omega arith in rw same (ground arith)
          ]))

pub find_priority_order-Finds :
    (q : Queue) (start priority exclude : ℕ)
    → start ≤ q.length
    → Finds q start priority exclude (find_priority_order q start priority exclude)
unfolding find_priority_order
find_priority_order-Finds q start priority exclude h =
    find_priority-Finds (q.length - start) start start q priority exclude (omega arith)
      (omega arith) (λ j h1 h2. absurd (omega arith))

-- CountSamePriority counts the entries of this priority from `start` on.
pub record Counts (q : Queue) (start priority n : ℕ) : Type 0 where
  pub within : start + n ≤ q.length
  pub same : (j : ℕ) → j < n → get_order_priority q (start + j) ≡ priority
  pub stops : start + n < q.length → get_order_priority q (start + n) ≢ priority

count_priority-Counts :
    (rounds n start : ℕ) (q : Queue) (priority : ℕ)
    → start + n + rounds ≡ q.length
    → ((j : ℕ) → j < n → get_order_priority q (start + j) ≡ priority)
    → Counts q start priority (count_priority rounds n start q priority)
unfolding count_priority
count_priority-Counts zero n start q priority e same = record {
  within = omega arith;
  same = same;
  stops = λ h. absurd (omega arith);
}
count_priority-Counts (suc rounds) n start q priority e same =
    if_cases (Counts q start priority) (get_order_priority q (start + n) == priority)
      (λ hit. count_priority-Counts rounds (n + 1) start q priority (omega arith) (λ j h.
        elim (dec_lt j n) [
          | yes lt ↦ same j lt
          | no ge ↦ let at : j ≡ n = omega arith in rw at (ground arith)
        ]))
      (λ miss. record { within = omega arith; same = same; stops = λ h. ground arith })

pub count_same_priority-Counts :
    (q : Queue) (start priority : ℕ)
    → start ≤ q.length
    → Counts q start priority (count_same_priority q start priority)
unfolding count_same_priority
count_same_priority-Counts q start priority h =
    count_priority-Counts (q.length - start) 0 start q priority (omega arith) (λ j h'. elim h' [ ])

-- MoveOrder puts the entry at `from` to `to`.
move_order-moved : (q : Queue) (from to : ℕ) → (move_order q from to).order to ≡ q.order from
unfolding move_order
move_order-moved q from to = ground arith

-- The place where SetPriority moves an entry.
abbrev pub new_order : Queue → ℕ → ℕ → Option ℕ → ℕ
new_order q order priority after =
    if ltb order (find_priority_order q (first_after after) priority order)
    then find_priority_order q (first_after after) priority order - 1
    else find_priority_order q (first_after after) priority order

new_order-lt :
    (q : Queue) (order priority : ℕ) (after : Option ℕ)
    → order < q.length
    → first_after after ≤ q.length
    → new_order q order priority after < q.length
new_order-lt q order priority after h le =
    ground (arith, (find_priority_order-Finds q (first_after after) priority order le).within)

-- The assertion of SetPriority: there is at least the entry that was moved.
count_pos :
    (q : Queue) (order priority : ℕ) (after : Option ℕ)
    → order < q.length
    → first_after after ≤ q.length
    → q.random ≡ true
    → get_order_priority q order ≡ priority
    → let r = move_order q order (new_order q order priority after) in
      0 < count_same_priority r (new_order q order priority after) priority
unfolding get_order_priority
count_pos q order priority after h le s e =
    let to = new_order q order priority after in
    let lt = new_order-lt q order priority after h le in
    let r : Queue = move_order q order to in
    let f = move_order-Reordered q order to h lt s in
    let c = count_same_priority-Counts r to priority (omega (arith, f.length)) in
    ground (
      arith,
      c.stops,
      f.length,
      ap (λ (a : Array Item). a (r.order to)) f.items,
      move_order-moved q order to,
    )

-- The part of SetPriority that changes the order permutes the order numbers.
pub requeue-Reordered :
    (q : Queue) (order priority : ℕ) (after : Option ℕ)
    → order < q.length
    → first_after after ≤ q.length
    → q.random ≡ true
    → get_order_priority q order ≡ priority
    → Reordered q (requeue q order priority after)
unfolding requeue
requeue-Reordered q order priority after h le s e =
    let to = new_order q order priority after in
    let lt = new_order-lt q order priority after h le in
    let r : Queue = move_order q order to in
    let f = move_order-Reordered q order to h lt s in
    let c = count_same_priority-Counts r to priority (omega (arith, f.length)) in
    let pos = count_pos q order priority after h le s e in
    Reordered-trans f (
      shuffle_order_first-Reordered r to (to + count_same_priority r to priority) (omega arith)
        c.within (f.random ∙ s))
