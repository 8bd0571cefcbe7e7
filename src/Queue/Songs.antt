-- ===== src/Queue/Songs.antt =====
-- Queue.cxx, MovePostion, MoveRange and DeletePosition: which song is where, and in which order the
-- songs are played.
use mpd_dsd.Prelude.{
  ℕ, ◌+◌, ◌-◌, ◌<◌, ◌≤◌, ltb, if◌then◌else◌, ◌≡◌, ◌≢◌, refl, sym, ◌∙◌, arith, ap, subst, true,
  if_cases, some,
}
use mpd_dsd.Prelude.Arrays.{Array}
use mpd_dsd.IdTable.{erase}
use mpd_dsd.Queue.State.{Queue, get_order_item}
use mpd_dsd.Queue.Move.{
  map_order, moved_range, moved_position, move_range, move_position, erased_position,
  delete_position,
}
use mpd_dsd.Queue.Valid.{IsValid}
use mpd_dsd.Queue.Valid.Blocks.{block_moved, block_moved-SameFrame}
use mpd_dsd.Queue.Valid.Deletes.{deleted, delete_position_result, pulled, pulled-SameFrame}
use mpd_dsd.Queue.Valid.Orders.{skipping, shift_left-skipping}
use mpd_dsd.Queue.Contents.{SameSong, block_moved_items, move_items_down_items}

-- MoveRange takes the song at position `p` to `moved_range start end to p`.
pub move_range_songs :
    (q : Queue) (start end to p : ℕ)
    → start < end
    → SameSong ((move_range q start end to).items (moved_range start end to p)) (q.items p)
unfolding move_range map_order
move_range_songs q start end to p h =
    let tmp = λ (k : ℕ). q.items (start + k) in
    let at : start + (end - start) ≡ end = omega arith in
    let moved = block_moved_items q start (end - start) to tmp (omega arith) (λ j _. refl) p in
    if_cases (λ (r : Queue). SameSong (r.items (moved_range start end to p)) (q.items p)) q.random
      (λ _.
        subst
          (λ e.
            SameSong ((block_moved q start (end - start) to tmp).items (moved_range start e to p))
              (q.items p))
          at moved)
      (λ _.
        subst
          (λ e.
            SameSong ((block_moved q start (end - start) to tmp).items (moved_range start e to p))
              (q.items p))
          at moved)

move_range_order :
    (q : Queue) (start end to i : ℕ)
    → q.random ≡ true
    → i < q.length
    → (move_range q start end to).order i ≡ moved_range start end to (q.order i)
unfolding move_range map_order
move_range_order q start end to i s h =
    let frame = block_moved-SameFrame q start (end - start) to (λ k. q.items (start + k)) in
    ground (arith, frame.length, frame.order, ap (λ (o : Array ℕ). o i) frame.order)

pub order_kept :
    (q : Queue) (start end to i : ℕ)
    → start < end
    → q.random ≡ true
    → i < q.length
    → SameSong (get_order_item (move_range q start end to) i) (get_order_item q i)
unfolding get_order_item
order_kept q start end to i h s hi =
    rw (move_range_order q start end to i s hi, get_order_item)
      (move_range_songs q start end to (q.order i) h)

-- Where the song `e` of those outside a block of `w` songs is when the block is put at `to`.
abbrev pub place_beside : ℕ → ℕ → ℕ → ℕ
place_beside w to e = if ltb e to then e else e + w

-- The block is taken out and put in at `to`; the others keep their order around it, and all songs are
-- played in the order they were.
pub record IsMoved (q r : Queue) (start end to : ℕ) : Type 0 where
  pub block : (j : ℕ) → j < end - start → SameSong (r.items (to + j)) (q.items (start + j))
  pub before :
      (e : ℕ) → e < start → SameSong (r.items (place_beside (end - start) to e)) (q.items e)
  pub behind :
      (e : ℕ)
      → start ≤ e
      → SameSong (r.items (place_beside (end - start) to e)) (q.items (e + (end - start)))
  pub plays : (i : ℕ) → i < q.length → SameSong (get_order_item r i) (get_order_item q i)

song_from :
    (q : Queue) (start end to p place : ℕ)
    → start < end
    → moved_range start end to p ≡ place
    → SameSong ((move_range q start end to).items place) (q.items p)
song_from q start end to p place h e =
    subst (λ k. SameSong ((move_range q start end to).items k) (q.items p)) e
      (move_range_songs q start end to p h)

-- In random mode MoveRange of a nonempty block takes its songs, in their order, to the destination,
-- keeps the order of the others in front of it and behind it, and leaves it as it was which song is
-- played at an order number.
pub move_range_plays :
    (q : Queue) (start end to : ℕ)
    → start < end
    → q.random ≡ true
    → IsMoved q (move_range q start end to) start end to
unfolding moved_range
move_range_plays q start end to h s = record {
  block = λ j l. song_from q start end to (start + j) (to + j) h (ground (arith, h, l));
  before =
      λ e l. song_from q start end to e (place_beside (end - start) to e) h (ground (arith, h, l));
  behind = λ e l.
      song_from q start end to (e + (end - start)) (place_beside (end - start) to e) h
        (ground (arith, h, l));
  plays = λ i l. order_kept q start end to i h s l;
}

-- MovePostion takes the song at position `p` to `moved_position from to p`.
pub move_position_songs :
    (q : Queue) (from to p : ℕ)
    → SameSong ((move_position q from to).items (moved_position from to p)) (q.items p)
unfolding move_position map_order
move_position_songs q from to p =
    let tmp = λ (k : ℕ). q.items from in
    let at : moved_range from (from + 1) to p ≡ moved_position from to p =
      unfold moved_range moved_position in ground arith in
    let moved : SameSong ((block_moved q from 1 to tmp).items (moved_position from to p))
        (q.items p) =
      subst (λ j. SameSong ((block_moved q from 1 to tmp).items j) (q.items p)) at
        (block_moved_items q from 1 to tmp (omega arith) (λ j h. ap q.items (omega arith)) p) in
    if_cases (λ (r : Queue). SameSong (r.items (moved_position from to p)) (q.items p)) q.random
      (λ _. moved) (λ _. moved)

pulled_songs :
    (q : Queue) (position p : ℕ)
    → p < q.length
    → p ≢ position
    → SameSong ((pulled q position (q.length - 1)).items (erased_position position p)) (q.items p)
unfolding erased_position
pulled_songs q position p h ne = ground (
  arith,
  move_items_down_items (q.length - 1 - position) position 1
      (record q { length = q.length - 1; id_table = erase q.id_table (q.items position).id })
      (erased_position position p),
  ap q.items,
)

deleted_order :
    (q : Queue) (position k i : ℕ)
    → i < q.length - 1
    → (deleted q position k (q.length - 1)).order i
      ≡ erased_position position (q.order (skipping k i))
unfolding map_order
deleted_order q position k i h =
    let frame = pulled-SameFrame q position (q.length - 1) in
    ground (
      arith,
      frame.length,
      shift_left-skipping (q.length - 1) k (pulled q position (q.length - 1)).order i h,
      ap (λ (o : Array ℕ). o (skipping k i)) frame.order,
      ap (erased_position position),
    )

deleted_plays :
    (q : Queue) (position k i : ℕ)
    → k < q.length
    → q.order k ≡ position
    → IsValid q
    → i < q.length - 1
    → SameSong
        (get_order_item (deleted q position k (q.length - 1)) i)
        (get_order_item q (skipping k i))
unfolding get_order_item map_order
deleted_plays q position k i hk ek v h =
    let j : ℕ = skipping k i in
    let hj : j < q.length = ground arith in
    let ne : q.order j ≢ position = λ same.
      let e : j ≡ k = v.ordered.injective j k hj hk (same ∙ sym ek) in absurd (ground arith) in
    subst (λ o. SameSong ((pulled q position (q.length - 1)).items o) (q.items (q.order j)))
      (sym (deleted_order q position k i h))
      (pulled_songs q position (q.order j) (v.ordered.below j hj) ne)

-- DeletePosition of a position of a valid queue returns; every other song is at its position less
-- one if it was behind, and the songs that are left are played in the order in which they were.
pub delete_position_songs :
    (q : Queue) (position : ℕ)
    → position < q.length
    → IsValid q
    → (k : ℕ) × (r : Queue) × (delete_position q position ≡ some r)
      × (q.order k ≡ position)
      × ((p : ℕ)
          → p < q.length
          → p ≢ position
          → SameSong (r.items (erased_position position p)) (q.items p))
      × ((i : ℕ) → i < r.length → SameSong (get_order_item r i) (get_order_item q (skipping k i)))
unfolding map_order
delete_position_songs q position h v =
    let (k, hk, ek, e) = delete_position_result q position h v in
    let frame = pulled-SameFrame q position (q.length - 1) in
    (
      k,
      deleted q position k (q.length - 1),
      e,
      ek,
      pulled_songs q position,
      λ i hi. deleted_plays q position k i hk ek v (omega (arith, frame.length)),
    )
