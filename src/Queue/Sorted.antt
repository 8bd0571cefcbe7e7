-- ===== src/Queue/Sorted.antt =====
-- Queue.cxx: in random mode the order of playback goes by falling priority.
use mpd_dsd.Prelude.{
  ℕ, zero, suc, ◌+◌, ◌-◌, ◌<◌, ◌≤◌, ◌≡◌, ◌≢◌, refl, ◌∙◌, arith, ap, ltb, if◌then◌else◌, ◌==◌,
  if_cases, Bool-cases, inl, inr, ℕ_discrete,
}
use mpd_dsd.Queue.State.{Rand, Queue, get_order_priority, swap_orders, uniform}
use mpd_dsd.Queue.Order.{
  sink, sort_order, sort_order_by_priority, shuffle_steps, shuffle_order_range, shuffle_groups,
  shuffle_order_range_with_priority, shuffle_order,
}
use mpd_dsd.Queue.Valid.Shuffles.{uniform_bounds}

-- The priorities fall from `start` to `end`.
abbrev pub IsSorted : Queue → ℕ → ℕ → Type 0
IsSorted q start end =
    (j : ℕ) → start ≤ j → suc j < end → get_order_priority q (suc j) ≤ get_order_priority q j

-- The same, but for the entry at `i`, which may be of higher priority than those before it.
record IsSortedBut (q : Queue) (start end i : ℕ) : Type 0 where
  others :
      (j : ℕ)
      → start ≤ j
      → suc j < end
      → suc j ≢ i
      → get_order_priority q (suc j) ≤ get_order_priority q j
  around :
      (k : ℕ)
      → start ≤ k
      → suc k ≡ i
      → suc i < end
      → get_order_priority q (suc i) ≤ get_order_priority q k

swap_orders_priority :
    (q : Queue) (i j k : ℕ)
    → get_order_priority (swap_orders q i j) k ≡ (
        if k == j
        then get_order_priority q i
        else if k == i
        then get_order_priority q j
        else get_order_priority q k)
unfolding swap_orders get_order_priority
swap_orders_priority q i j k = ground arith

-- A swap with the entry before, which is of lower priority, moves the exception down.
swapped-IsSortedBut :
    (q : Queue) (start end i : ℕ)
    → start < i
    → get_order_priority q (i - 1) < get_order_priority q i
    → IsSortedBut q start end i
    → IsSortedBut (swap_orders q (i - 1) i) start end (i - 1)
swapped-IsSortedBut q start end i h lt s = record {
  others = λ j h1 h2 ne.
      let p = swap_orders_priority q (i - 1) i in
      elim (ℕ_discrete (suc j) i) [
        | yes e ↦ ground (arith, p j, p (suc j))
        | no e ↦ elim (ℕ_discrete j i) [
          | yes e2 ↦ ground (
            arith,
            p j,
            p (suc j),
            s.around (i - 1) (omega arith) (omega arith) (omega arith),
            ap (get_order_priority q),
          )
          | no e2 ↦ ground (arith, p j, p (suc j), s.others j h1 h2 e)
        ]
      ];
  around = λ k h1 e h2.
      let p = swap_orders_priority q (i - 1) i in
      let o = s.others k h1 (omega arith) (omega arith) in
      ground (arith, p k, p (suc (i - 1)), ap (get_order_priority q) e);
}

-- The insertion step of the sort puts the entry in its place.
sink-IsSorted :
    (rounds i start end : ℕ) (q : Queue)
    → i ≡ start + rounds
    → IsSortedBut q start end i
    → IsSorted (sink rounds i q) start end
unfolding sink
sink-IsSorted zero i start end q e s = λ j h1 h2. s.others j h1 h2 (omega arith)
sink-IsSorted (suc rounds) i start end q e s =
    elim (Bool-cases (ltb (get_order_priority q (i - 1)) (get_order_priority q i))) [
      | inl t ↦
          rw (t, sink)
            (sink-IsSorted rounds (i - 1) start end (swap_orders q (i - 1) i) (omega arith)
              (swapped-IsSortedBut q start end i (omega arith) (ground arith) s))
      | inr f ↦
          rw (f, sink)
            (λ j h1 h2. elim (ℕ_discrete (suc j) i) [
              | yes same ↦
                  let before : i - 1 ≡ j = omega arith in
                  ground (arith, ap (get_order_priority q) same, ap (get_order_priority q) before)
              | no other ↦ s.others j h1 h2 other
            ])
    ]

sort_order-IsSorted :
    (rounds start done end : ℕ) (q : Queue)
    → start + done + rounds ≡ end
    → IsSorted q start (start + done)
    → IsSorted (sort_order rounds start done q) start end
unfolding sort_order
sort_order-IsSorted zero start done end q e s = λ j h1 h2. s j h1 (omega arith)
sort_order-IsSorted (suc rounds) start done end q e s =
    sort_order-IsSorted rounds start (done + 1) end (sink done (start + done) q) (omega arith) (
      sink-IsSorted done (start + done) start (start + (done + 1)) q refl (record {
        others = λ j h1 h2 ne. s j h1 (omega arith);
        around = λ k h1 e' h2. absurd (omega arith);
      }))

-- Two queues whose order numbers have the same priorities.
abbrev SamePriorities : Queue → Queue → Type 0
SamePriorities q r = (k : ℕ) → get_order_priority r k ≡ get_order_priority q k

-- All entries from `start` to `end` are of this priority.
abbrev IsGroup : Queue → ℕ → ℕ → ℕ → Type 0
IsGroup q start end priority = (k : ℕ) → start ≤ k → k < end → get_order_priority q k ≡ priority

drawn_swap_priority :
    (q : Queue) (rand : Rand) (i j k : ℕ)
    → get_order_priority (swap_orders (record q { rand = rand }) i j) k
      ≡ get_order_priority (swap_orders q i j) k
unfolding swap_orders get_order_priority
drawn_swap_priority q rand i j k = refl

-- Shuffling a group of one priority changes the priorities nowhere.
shuffle_steps-SamePriorities :
    (rounds start i priority : ℕ) (q : Queue)
    → IsGroup q start (start + i + rounds) priority
    → SamePriorities q (shuffle_steps rounds start i q)
unfolding shuffle_steps
shuffle_steps-SamePriorities zero start i priority q g = λ k. refl
shuffle_steps-SamePriorities (suc rounds) start i priority q g =
    let j : ℕ = (uniform q.rand start (start + i)).0 in
    let rand : Rand = (uniform q.rand start (start + i)).1 in
    let b = uniform_bounds q.rand start (start + i) (omega arith) in
    let r : Queue = swap_orders (record q { rand = rand }) (start + i) j in
    let same : SamePriorities q r = λ k.
      drawn_swap_priority q rand (start + i) j k
      ∙ ground (
        arith,
        swap_orders_priority q (start + i) j k,
        g (start + i) (omega arith) (omega arith),
        g j (omega arith) (omega arith),
        ap (get_order_priority q),
      ) in
    λ k.
      shuffle_steps-SamePriorities rounds start (i + 1) priority r
        (λ l h1 h2. same l ∙ g l h1 (omega arith)) k
      ∙ same k

shuffle_order_range-SamePriorities :
    (q : Queue) (start end priority : ℕ)
    → start < end
    → IsGroup q start end priority
    → SamePriorities q (shuffle_order_range q start end)
unfolding shuffle_order_range
shuffle_order_range-SamePriorities q start end priority lt g =
    shuffle_steps-SamePriorities (end - start - 1) start 1 priority q
      (λ k h1 h2. g k h1 (omega arith))

-- The loop over the groups shuffles each within itself.
shuffle_groups-SamePriorities :
    (rounds i group_start priority : ℕ) (q : Queue)
    → group_start < i
    → IsGroup q group_start i priority
    → SamePriorities q (shuffle_groups rounds i group_start priority q)
unfolding shuffle_groups
shuffle_groups-SamePriorities zero i gs gp q lt g =
    shuffle_order_range-SamePriorities q gs i gp lt g
shuffle_groups-SamePriorities (suc rounds) i gs gp q lt g =
    elim (Bool-cases (get_order_priority q i == gp)) [
      | inl t ↦
          rw (t, shuffle_groups)
            (shuffle_groups-SamePriorities rounds (i + 1) gs gp q (omega arith) (λ k h1 h2.
              elim (ℕ_discrete k i) [ yes e ↦ rw e (ground arith) | no e ↦ g k h1 (omega arith) ]))
      | inr f ↦
          let same = shuffle_order_range-SamePriorities q gs i gp lt g in
          let rest =
            shuffle_groups-SamePriorities rounds (i + 1) i (get_order_priority q i)
              (shuffle_order_range q gs i) (omega arith)
              (λ k h1 h2. let e : k ≡ i = omega arith in rw e (same i)) in
          rw (f, shuffle_groups) (λ k. rest k ∙ same k)
    ]

-- After ShuffleOrderRangeWithPriority the range is played by falling priority.
pub shuffle_order_range_with_priority-IsSorted :
    (q : Queue) (start end : ℕ)
    → start ≤ end
    → IsSorted (shuffle_order_range_with_priority q start end) start end
unfolding shuffle_order_range_with_priority sort_order_by_priority
shuffle_order_range_with_priority-IsSorted q start end le =
    if_cases (λ r. IsSorted r start end) (start == end) (λ e j h1 h2. absurd (ground arith))
      (λ e j h1 h2.
        let sorted : Queue = sort_order (end - start) start 0 q in
        let s =
          sort_order-IsSorted (end - start) start 0 end q (omega arith)
            (λ k h3 h4. absurd (omega arith)) in
        let same =
          shuffle_groups-SamePriorities (end - start - 1) (start + 1) start
            (get_order_priority sorted start) sorted (omega arith)
            (λ k h3 h4. ap (get_order_priority sorted) (omega arith)) in
        omega (arith, s j h1 h2, same (suc j), same j))

-- After ShuffleOrder the priorities of the songs fall, or stay, along the order of playback,
-- whatever numbers are drawn.
pub shuffle_order-IsSorted : (q : Queue) → IsSorted (shuffle_order q) 0 q.length
unfolding shuffle_order
shuffle_order-IsSorted q = shuffle_order_range_with_priority-IsSorted q 0 q.length (omega arith)
