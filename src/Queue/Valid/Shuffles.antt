-- ===== src/Queue/Valid/Shuffles.antt =====
-- Queue.cxx: what changes the order of playback keeps the queue valid and its items as they are.
use mpd_dsd.Prelude.{
  ℕ, zero, suc, ◌+◌, ◌-◌, ◌<◌, ◌≤◌, ◌≡◌, refl, ◌∙◌, arith, true, false, ltb, ◌==◌, if_cases,
}
use mpd_dsd.Queue.State.{Rand, Queue, uniform, swap_orders, get_order_priority}
use mpd_dsd.Queue.Order.{
  sink, sort_order, sort_order_by_priority, shuffle_steps, shuffle_order_range, shuffle_groups,
  shuffle_order_range_with_priority, shuffle_order, shuffle_order_first, shuffle_order_last,
  move_order,
}
use mpd_dsd.Queue.Valid.{IsValid}
use mpd_dsd.Queue.Valid.Orders.{rotated-IsOrder}
use mpd_dsd.Queue.Valid.Deletes.{swap_orders-IsValid}

-- `r` is `q` with its order numbers permuted, and numbers drawn.
pub record Reordered (q r : Queue) : Type 0 where
  pub max_length : r.max_length ≡ q.max_length
  pub length : r.length ≡ q.length
  pub version : r.version ≡ q.version
  pub items : r.items ≡ q.items
  pub id_table : r.id_table ≡ q.id_table
  pub random : r.random ≡ q.random
  pub valid : IsValid q → IsValid r

pub Reordered-refl : (q : Queue) → Reordered q q
Reordered-refl q = record {
  max_length = refl;
  length = refl;
  version = refl;
  items = refl;
  id_table = refl;
  random = refl;
  valid = λ v. v;
}

pub Reordered-trans : {q r s : Queue} → Reordered q r → Reordered r s → Reordered q s
Reordered-trans f g = record {
  max_length = g.max_length ∙ f.max_length;
  length = g.length ∙ f.length;
  version = g.version ∙ f.version;
  items = g.items ∙ f.items;
  id_table = g.id_table ∙ f.id_table;
  random = g.random ∙ f.random;
  valid = λ v. g.valid (f.valid v);
}

pub drawn-IsValid : (q : Queue) (rand : Rand) → IsValid q → IsValid (record q { rand = rand })
drawn-IsValid q rand v = record {
  within = v.within;
  size = v.size;
  next_pos = v.next_pos;
  next_lt = v.next_lt;
  filed = v.filed;
  ordered = v.ordered;
  straight = v.straight;
}

pub swap_orders-Reordered :
    (q : Queue) (i j : ℕ)
    → i < q.length
    → j < q.length
    → q.random ≡ true
    → Reordered q (swap_orders q i j)
unfolding swap_orders
swap_orders-Reordered q i j hi hj s = record {
  max_length = refl;
  length = refl;
  version = refl;
  items = refl;
  id_table = refl;
  random = refl;
  valid = swap_orders-IsValid q i j hi hj s;
}

pub drawn_swap-Reordered :
    (q : Queue) (rand : Rand) (i j : ℕ)
    → i < q.length
    → j < q.length
    → q.random ≡ true
    → Reordered q (swap_orders (record q { rand = rand }) i j)
unfolding swap_orders
drawn_swap-Reordered q rand i j hi hj s = record {
  max_length = refl;
  length = refl;
  version = refl;
  items = refl;
  id_table = refl;
  random = refl;
  valid = λ v. swap_orders-IsValid (record q { rand = rand }) i j hi hj s (drawn-IsValid q rand v);
}

pub uniform_bounds :
    (r : Rand) (a b : ℕ) → a ≤ b → (a ≤ (uniform r a b).0) × ((uniform r a b).0 ≤ b)
unfolding uniform
uniform_bounds r a b h = omega arith

pub sink-Reordered :
    (rounds i : ℕ) (q : Queue)
    → i < q.length
    → rounds ≤ i
    → q.random ≡ true
    → Reordered q (sink rounds i q)
unfolding sink
sink-Reordered zero i q h le s = Reordered-refl q
sink-Reordered (suc rounds) i q h le s =
    elim (ltb (get_order_priority q (i - 1)) (get_order_priority q i))
      as (λ b.
        Reordered q (elim b [ true ↦ sink rounds (i - 1) (swap_orders q (i - 1) i) | false ↦ q ])) [
          | true ↦
              let f = swap_orders-Reordered q (i - 1) i (omega arith) h s in
              Reordered-trans f (
                sink-Reordered rounds (i - 1) (swap_orders q (i - 1) i) (omega (arith, f.length))
                  (omega arith) (f.random ∙ s))
          | false ↦ Reordered-refl q
        ]

pub sort_order-Reordered :
    (rounds start done : ℕ) (q : Queue)
    → rounds ≤ q.length - (start + done)
    → q.random ≡ true
    → Reordered q (sort_order rounds start done q)
unfolding sort_order
sort_order-Reordered zero start done q h s = Reordered-refl q
sort_order-Reordered (suc rounds) start done q h s =
    let f = sink-Reordered done (start + done) q (omega arith) (omega arith) s in
    Reordered-trans f
      (sort_order-Reordered rounds start (done + 1) _ (omega (arith, f.length)) (f.random ∙ s))

pub shuffle_steps-Reordered :
    (rounds start i : ℕ) (q : Queue)
    → rounds ≤ q.length - (start + i)
    → q.random ≡ true
    → Reordered q (shuffle_steps rounds start i q)
unfolding shuffle_steps
shuffle_steps-Reordered zero start i q h s = Reordered-refl q
shuffle_steps-Reordered (suc rounds) start i q h s =
    let b = uniform_bounds q.rand start (start + i) (omega arith) in
    let f =
      drawn_swap-Reordered q (uniform q.rand start (start + i)).1 (start + i)
        (uniform q.rand start (start + i)).0 (omega arith) (omega arith) s in
    Reordered-trans f
      (shuffle_steps-Reordered rounds start (i + 1) _ (omega (arith, f.length)) (f.random ∙ s))

-- ShuffleOrderRange permutes the order numbers.
pub shuffle_order_range-Reordered :
    (q : Queue) (start end : ℕ)
    → end ≤ q.length
    → q.random ≡ true
    → Reordered q (shuffle_order_range q start end)
unfolding shuffle_order_range
shuffle_order_range-Reordered q start end h s =
    shuffle_steps-Reordered (end - start - 1) start 1 q (omega arith) s

pub shuffle_groups-Reordered :
    (rounds i group_start group_priority : ℕ) (q : Queue)
    → i + rounds ≤ q.length
    → q.random ≡ true
    → Reordered q (shuffle_groups rounds i group_start group_priority q)
unfolding shuffle_groups
shuffle_groups-Reordered zero i gs gp q h s = shuffle_order_range-Reordered q gs i (omega arith) s
shuffle_groups-Reordered (suc rounds) i gs gp q h s =
    elim (get_order_priority q i == gp)
      as (λ b. Reordered q (elim b [
        | true ↦ shuffle_groups rounds (i + 1) gs gp q
        | false ↦
            shuffle_groups rounds (i + 1) i (get_order_priority q i) (shuffle_order_range q gs i)
      ])) [
        | true ↦ shuffle_groups-Reordered rounds (i + 1) gs gp q (omega arith) s
        | false ↦
            let f = shuffle_order_range-Reordered q gs i (omega arith) s in
            Reordered-trans f (
              shuffle_groups-Reordered rounds (i + 1) i (get_order_priority q i) _
                (omega (arith, f.length)) (f.random ∙ s))
      ]

-- ShuffleOrderRangeWithPriority permutes the order numbers.
pub shuffle_order_range_with_priority-Reordered :
    (q : Queue) (start end : ℕ)
    → start ≤ end
    → end ≤ q.length
    → q.random ≡ true
    → Reordered q (shuffle_order_range_with_priority q start end)
unfolding shuffle_order_range_with_priority sort_order_by_priority
shuffle_order_range_with_priority-Reordered q start end le h s =
    if_cases (Reordered q) (start == end) (λ _. Reordered-refl q)
      (λ e.
        let f = sort_order-Reordered (end - start) start 0 q (omega arith) s in
        Reordered-trans f (
          shuffle_groups-Reordered (end - start - 1) (start + 1) start _ _
            (ground (arith, f.length)) (f.random ∙ s)))

-- ShuffleOrder permutes the order numbers.
pub shuffle_order-Reordered : (q : Queue) → q.random ≡ true → Reordered q (shuffle_order q)
unfolding shuffle_order
shuffle_order-Reordered q s =
    shuffle_order_range_with_priority-Reordered q 0 q.length (omega arith) (omega arith) s

-- ShuffleOrderFirst permutes the order numbers.
pub shuffle_order_first-Reordered :
    (q : Queue) (start end : ℕ)
    → start < end
    → end ≤ q.length
    → q.random ≡ true
    → Reordered q (shuffle_order_first q start end)
unfolding shuffle_order_first
shuffle_order_first-Reordered q start end lt h s =
    let b = uniform_bounds q.rand start (end - 1) (omega arith) in
    drawn_swap-Reordered q (uniform q.rand start (end - 1)).1 start
      (uniform q.rand start (end - 1)).0 (omega arith) (omega arith) s

-- ShuffleOrderLast permutes the order numbers.
pub shuffle_order_last-Reordered :
    (q : Queue) (start end : ℕ)
    → start < end
    → end ≤ q.length
    → q.random ≡ true
    → Reordered q (shuffle_order_last q start end)
unfolding shuffle_order_last
shuffle_order_last-Reordered q start end lt h s =
    let b = uniform_bounds q.rand start (end - 1) (omega arith) in
    drawn_swap-Reordered q (uniform q.rand start (end - 1)).1 (end - 1)
      (uniform q.rand start (end - 1)).0 (omega arith) (omega arith) s

-- MoveOrder permutes the order numbers.
pub move_order-Reordered :
    (q : Queue) (from to : ℕ)
    → from < q.length
    → to < q.length
    → q.random ≡ true
    → Reordered q (move_order q from to)
unfolding move_order
move_order-Reordered q from to hf ht s = record {
  max_length = refl;
  length = refl;
  version = refl;
  items = refl;
  id_table = refl;
  random = refl;
  valid = λ v. record {
    within = v.within;
    size = v.size;
    next_pos = v.next_pos;
    next_lt = v.next_lt;
    filed = v.filed;
    ordered = rotated-IsOrder q.length from to q.order hf ht v.ordered;
    straight = λ t. absurd (ground arith);
  };
}
