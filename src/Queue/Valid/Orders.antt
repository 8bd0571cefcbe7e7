-- ===== src/Queue/Valid/Orders.antt =====
-- Queue.cxx: the order array stays a permutation of the positions.
use mpd_dsd.Prelude.{
  ℕ, zero, suc, ◌+◌, ◌-◌, ◌<◌, ◌≤◌, ◌≡◌, ◌≢◌, arith, ap, sym, ◌∙◌, ◌&&◌, none, some, ltb, leb,
  if◌then◌else◌, ◌==◌, ℕ_discrete,
}
use mpd_dsd.Prelude.Arrays.{Array, put, swap}
use mpd_dsd.Prelude.Pigeonhole.{Below, Injective}
use mpd_dsd.Queue.State.{search_order}
use mpd_dsd.Queue.Move.{moved_position, moved_range, shift_left, erased_position}
use mpd_dsd.Queue.Order.{shift_right}

-- The order numbers below the length are a permutation of the positions.
pub record IsOrder (length : ℕ) (order : Array ℕ) : Type 0 where
  pub below : Below order length length
  pub injective : Injective order length

-- The entries below the length are mapped, each in its own round.
abbrev pub mapped : ℕ → (ℕ → ℕ) → Array ℕ → Array ℕ
mapped n f order i = if ltb i n then f (order i) else order i

pub swap-IsOrder :
    (n i j : ℕ) (order : Array ℕ) → i < n → j < n → IsOrder n order → IsOrder n (swap order i j)
swap-IsOrder n i j order hi hj o = record {
  below = λ k hk. ground (arith, o.below k hk, o.below i hi, o.below j hj);
  injective = λ k l hk hl e. ground (
    arith,
    o.injective k l hk hl,
    o.injective k i hk hi,
    o.injective k j hk hj,
    o.injective l i hl hi,
    o.injective l j hl hj,
    o.injective i j hi hj,
  );
}

pub mapped-IsOrder :
    (n : ℕ) (f : ℕ → ℕ) (order : Array ℕ)
    → Below f n n
    → Injective f n
    → IsOrder n order
    → IsOrder n (mapped n f order)
mapped-IsOrder n f order b inj o = record {
  below = λ i h. ground (arith, b (order i) (o.below i h));
  injective = λ i j hi hj e.
      o.injective i j hi hj (inj (order i) (order j) (o.below i hi) (o.below j hj) (ground arith));
}

pub moved_position-Below : (n from to : ℕ) → from < n → to < n → Below (moved_position from to) n n
unfolding moved_position
moved_position-Below n from to hf ht p h = ground arith

pub moved_position-Injective : (n from to : ℕ) → Injective (moved_position from to) n
unfolding moved_position
moved_position-Injective n from to p q hp hq e = ground arith

pub moved_range-Below :
    (n start end to : ℕ)
    → start ≤ end
    → end ≤ n
    → to + (end - start) ≤ n
    → Below (moved_range start end to) n n
unfolding moved_range
moved_range-Below n start end to h1 h2 h3 p h = ground arith

pub moved_range-Injective :
    (n start end to : ℕ) → start ≤ end → Injective (moved_range start end to) n
unfolding moved_range
moved_range-Injective n start end to h1 p q hp hq e = ground arith

pub shift_left_lem :
    (rounds i : ℕ) (a : Array ℕ) (j : ℕ)
    → shift_left rounds i a j ≡ (if leb i j && ltb j (i + rounds) then a (j + 1) else a j)
unfolding shift_left
shift_left_lem zero i a j = ground arith
shift_left_lem (suc rounds) i a j =
    ground (arith, shift_left_lem rounds (i + 1) (put a i (a (i + 1))) j, ap a)

pub shift_right_lem :
    (rounds i : ℕ) (a : Array ℕ) (j : ℕ)
    → rounds ≤ i
    → shift_right rounds i a j ≡ (if ltb i (j + rounds) && leb j i then a (j - 1) else a j)
unfolding shift_right
shift_right_lem zero i a j h = ground arith
shift_right_lem (suc rounds) i a j h =
    ground (arith, shift_right_lem rounds (i - 1) (put a i (a (i - 1))) j)

-- The entry that MoveOrder leaves at `i`.
abbrev rotated : ℕ → ℕ → ℕ → ℕ
rotated from to i =
    if i == to
    then from
    else if leb from i && ltb i to
    then i + 1
    else if ltb to i && leb i from
    then i - 1
    else i

-- MoveOrder turns a range of the order array round by one.
move_order-rotated :
    (from to : ℕ) (order : Array ℕ) (i : ℕ)
    → put
        (if ltb from to
          then shift_left (to - from) from order
          else shift_right (from - to) from order)
        to
        (order from)
        i
      ≡ order (rotated from to i)
move_order-rotated from to order i =
    ground
      (arith, shift_left_lem (to - from) from order i, shift_right_lem (from - to) from order i)

rotated-lt : (n from to i : ℕ) → from < n → to < n → i < n → rotated from to i < n
rotated-lt n from to i hf ht h = ground arith

rotated_injective : (from to i j : ℕ) → rotated from to i ≡ rotated from to j → i ≡ j
rotated_injective from to i j e = ground arith

pub rotated-IsOrder :
    (n from to : ℕ) (order : Array ℕ)
    → from < n
    → to < n
    → IsOrder n order
    → IsOrder n (
        put
          (if ltb from to
            then shift_left (to - from) from order
            else shift_right (from - to) from order)
          to
          (order from))
rotated-IsOrder n from to order hf ht o = record {
  below =
      λ i h. rw (move_order-rotated from to order i) (o.below _ (rotated-lt n from to i hf ht h));
  injective = λ i j hi hj e. rotated_injective from to i j (
      o.injective _ _ (rotated-lt n from to i hf ht hi) (rotated-lt n from to j hf ht hj)
        (sym (move_order-rotated from to order i) ∙ e ∙ move_order-rotated from to order j));
}

-- The entry that is left at `i` after the one at `k` is removed.
abbrev pub skipping : ℕ → ℕ → ℕ
skipping k i = if leb k i then i + 1 else i

pub shift_left-skipping :
    (n k : ℕ) (order : Array ℕ) (i : ℕ)
    → i < n
    → shift_left (n - k) k order i ≡ order (skipping k i)
shift_left-skipping n k order i h = ground (arith, shift_left_lem (n - k) k order i)

-- The order array after DeletePosition.
pub erased-IsOrder :
    (n position k : ℕ) (order : Array ℕ)
    → k < suc n
    → order k ≡ position
    → IsOrder (suc n) order
    → IsOrder n (mapped n (erased_position position) (shift_left (n - k) k order))
unfolding erased_position
erased-IsOrder n position k order hk e o = record {
  below = λ i h. ground (
    arith,
    shift_left-skipping n k order i h,
    o.below (skipping k i) (ground arith),
    o.below k hk,
    o.injective (skipping k i) k (ground arith) hk,
  );
  injective = λ i j hi hj q. ground (
    arith,
    shift_left-skipping n k order i hi,
    shift_left-skipping n k order j hj,
    o.injective (skipping k i) (skipping k j) (ground arith) (ground arith),
    o.injective (skipping k i) k (ground arith) hk,
    o.injective (skipping k j) k (ground arith) hk,
  );
}

-- PositionToOrder finds the order number of a position.
pub search_order_sound :
    (order : Array ℕ) (position left i r : ℕ)
    → search_order order position left i ≡ some r
    → (i ≤ r) × (r < i + left) × (order r ≡ position)
unfolding search_order
search_order_sound order position zero i r e = absurd (ground arith)
search_order_sound order position (suc left) i r e =
    ground (arith, search_order_sound order position left (i + 1) r)

pub search_order_total :
    (order : Array ℕ) (position left i r : ℕ)
    → i ≤ r
    → r < i + left
    → order r ≡ position
    → search_order order position left i ≢ none
unfolding search_order
search_order_total order position zero i r h1 h2 e = absurd (omega arith)
search_order_total order position (suc left) i r h1 h2 e = elim (ℕ_discrete i r) [
  | yes p ↦ ground arith
  | no p ↦
      ground (arith, search_order_total order position left (i + 1) r (omega arith) (omega arith) e)
]
