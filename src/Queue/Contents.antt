-- ===== src/Queue/Contents.antt =====
-- Queue.cxx: where the songs are after the operations that move them, and in which order they are
-- played.
use mpd_dsd.Prelude.{
  ℕ, zero, suc, ◌+◌, ◌-◌, ◌<◌, ◌≤◌, ◌≡◌, arith, ap, ◌&&◌, ltb, leb, if◌then◌else◌, if_cases, ◌⊎◌,
}
use mpd_dsd.Prelude.Arrays.{Array, put}
use mpd_dsd.IdTable.{move}
use mpd_dsd.Queue.State.{Item, Queue}
use mpd_dsd.Queue.Move.{move_item_to, move_items_down, move_items_up, copy_back, moved_range}
use mpd_dsd.Queue.Valid.Blocks.{block_moved}

-- The same song under the same id, with the same priority; the version may differ.
pub record SameSong (a b : Item) : Type 0 where
  pub song : a.song ≡ b.song
  pub id : a.id ≡ b.id
  pub priority : a.priority ≡ b.priority

abbrev stamped : ℕ → Item → Item
stamped v item = record item { version = v }

pub move_items_down_items :
    (rounds h w : ℕ) (q : Queue) (j : ℕ)
    → 0 < w
    → (move_items_down rounds h w q).items j
      ≡ (if leb h j && ltb j (h + rounds) then stamped q.version (q.items (j + w)) else q.items j)
unfolding move_items_down move_item_to
move_items_down_items zero h w q j pos = ground arith
move_items_down_items (suc rounds) h w q j pos =
    ground
      (arith, move_items_down_items rounds (h + 1) w (move_item_to q (h + w) h) j pos, ap q.items)

move_items_up_items :
    (rounds h w : ℕ) (q : Queue) (j : ℕ)
    → 0 < w
    → rounds ≤ h
    → (move_items_up rounds h w q).items j ≡ (
        if leb (h + w) (j + rounds) && ltb j (h + w)
        then stamped q.version (q.items (j - w))
        else q.items j)
unfolding move_items_up move_item_to
move_items_up_items zero h w q j pos le = ground arith
move_items_up_items (suc rounds) h w q j pos le = ground (
  arith,
  move_items_up_items rounds (h - 1) w (move_item_to q (h - 1) (h - 1 + w)) j pos,
  ap q.items,
)

copy_back_items :
    (rounds k to : ℕ) (tmp : Array Item) (q : Queue) (j : ℕ)
    → (copy_back rounds k to tmp q).items j ≡ (
        if leb (to + k) j && ltb j (to + k + rounds)
        then stamped q.version (tmp (j - to))
        else q.items j)
unfolding copy_back move
copy_back_items zero k to tmp q j = ground arith
copy_back_items (suc rounds) k to tmp q j = ground (
  arith,
  copy_back_items rounds (k + 1) to tmp
      (record q {
        items = put q.items (to + k) (stamped q.version (tmp k));
        id_table = move q.id_table (tmp k).id (to + k);
      })
      j,
  ap tmp,
)

module _ (q : Queue) (start w to : ℕ) (tmp : Array Item) (pos : 0 < w) where
  abbrev q1 : Queue
  q1 = move_items_down (to - start) start w q

  abbrev q2 : Queue
  q2 = move_items_up (start - to) start w q1

  -- A song after the block, when the block moves up.
  song_passed_up :
      (p : ℕ)
      → start + w ≤ p
      → p < to + w
      → SameSong ((block_moved q start w to tmp).items (p - w)) (q.items p)
  song_passed_up p h1 h2 = ground (
    arith,
    copy_back_items w 0 to tmp q2 (p - w),
    move_items_up_items (start - to) start w q1 (p - w) pos,
    move_items_down_items (to - start) start w q (p - w) pos,
    ap q.items,
  )

  -- A song before the block, when the block moves down.
  song_passed_down :
      (p : ℕ)
      → p < start
      → to ≤ p
      → SameSong ((block_moved q start w to tmp).items (p + w)) (q.items p)
  song_passed_down p h1 h2 = ground (
    arith,
    copy_back_items w 0 to tmp q2 (p + w),
    move_items_up_items (start - to) start w q1 (p + w) pos,
    move_items_down_items (to - start) start w q (p + w - w) pos,
    ap q.items,
  )

  -- A song of the block.
  song_in_block :
      ((j : ℕ) → j < w → tmp j ≡ q.items (start + j))
      → (p : ℕ) → start ≤ p
      → p < start + w
      → SameSong ((block_moved q start w to tmp).items (p + to - start)) (q.items p)
  song_in_block same p h1 h2 =
      ground (
        arith,
        copy_back_items w 0 to tmp q2 (p + to - start),
        same (p - start),
        ap q.items,
        ap tmp,
      )

  -- A song that the block does not pass.
  song_untouched :
      (p : ℕ)
      → ((p < start) × (p < to)) ⊎ ((start + w ≤ p) × (to + w ≤ p))
      → SameSong ((block_moved q start w to tmp).items p) (q.items p)
  song_untouched p h = ground (
    arith,
    copy_back_items w 0 to tmp q2 p,
    move_items_up_items (start - to) start w q1 p pos,
    move_items_down_items (to - start) start w q p pos,
    ap q.items,
  )

  -- The items that the three loops of MovePostion and MoveRange leave.
  pub block_moved_items :
      ((j : ℕ) → j < w → tmp j ≡ q.items (start + j))
      → (p : ℕ)
      → SameSong
          ((block_moved q start w to tmp).items (moved_range start (start + w) to p))
          (q.items p)
  unfolding moved_range
  block_moved_items same p =
      let P : ℕ → Type 0 = λ j. SameSong ((block_moved q start w to tmp).items j) (q.items p) in
      let width : start + w - start ≡ w = omega arith in
      rw (width) (
        if_cases P (leb (start + w) p && ltb p (to + (start + w) - start))
          (λ c. song_passed_up p (ground arith) (ground arith))
          (λ n1.
            if_cases P (ltb p start && leb to p)
              (λ c. song_passed_down p (ground arith) (ground arith))
              (λ n2.
                if_cases P (leb start p && ltb p (start + w))
                  (λ c. song_in_block same p (ground arith) (ground arith))
                  (λ n3. song_untouched p (ground arith)))))
