-- ===== src/Queue/Valid/Loops.antt =====
-- Queue.cxx: the loops over MoveItemTo carry the hole along, and change the items and the id table only.
use mpd_dsd.Prelude.{ℕ, zero, suc, ◌+◌, ◌-◌, ◌<◌, ◌≤◌, ◌≡◌, arith, subst}
use mpd_dsd.Prelude.Arrays.{Array}
use mpd_dsd.IdTable.{move}
use mpd_dsd.Queue.State.{Item, Queue}
use mpd_dsd.Queue.Move.{move_item_to, move_items_down, move_items_up, copy_back}
use mpd_dsd.Queue.Valid.Holes.{Holed, Holed-move_down, Holed-move_up, Holed-copy_back}

-- Everything but the items and the slots of the id table is as before.
pub record SameFrame (q r : Queue) : Type 0 where
  pub max_length : r.max_length ≡ q.max_length
  pub length : r.length ≡ q.length
  pub version : r.version ≡ q.version
  pub order : r.order ≡ q.order
  pub random : r.random ≡ q.random
  pub size : r.id_table.size ≡ q.id_table.size
  pub next : r.id_table.next ≡ q.id_table.next

SameFrame-refl : (q : Queue) → SameFrame q q
SameFrame-refl q = ground arith

pub SameFrame-trans : {q r s : Queue} → SameFrame q r → SameFrame r s → SameFrame q s
SameFrame-trans f g = ground arith

pub move_items_down-SameFrame :
    (rounds h w : ℕ) (q : Queue) → SameFrame q (move_items_down rounds h w q)
unfolding move_items_down move_item_to
move_items_down-SameFrame zero h w q = SameFrame-refl q
move_items_down-SameFrame (suc rounds) h w q =
    SameFrame-trans (ground arith)
      (move_items_down-SameFrame rounds (h + 1) w (move_item_to q (h + w) h))

pub move_items_up-SameFrame :
    (rounds h w : ℕ) (q : Queue) → SameFrame q (move_items_up rounds h w q)
unfolding move_items_up move_item_to
move_items_up-SameFrame zero h w q = SameFrame-refl q
move_items_up-SameFrame (suc rounds) h w q =
    SameFrame-trans (ground arith)
      (move_items_up-SameFrame rounds (h - 1) w (move_item_to q (h - 1) (h - 1 + w)))

pub copy_back-SameFrame :
    (rounds k to : ℕ) (tmp : Array Item) (q : Queue) → SameFrame q (copy_back rounds k to tmp q)
unfolding copy_back
copy_back-SameFrame zero k to tmp q = SameFrame-refl q
copy_back-SameFrame (suc rounds) k to tmp q =
    SameFrame-trans (ground arith) (copy_back-SameFrame rounds (k + 1) to tmp _)

abbrev pub HoledQueue : ℕ → ℕ → ℕ → Array Item → ℕ → ℕ → Queue → Type 0
HoledQueue n h w tmp k m q = Holed n h w tmp k m q.items q.id_table

module _ {n w k m : ℕ} {tmp : Array Item} (pos : 0 < w) where
  pub move_items_down-Holed :
      (rounds h h' : ℕ) (q : Queue)
      → h + rounds ≡ h'
      → h' + w ≤ n
      → HoledQueue n h w tmp k m q
      → HoledQueue n h' w tmp k m (move_items_down rounds h w q)
  unfolding move_items_down move_item_to
  move_items_down-Holed zero h h' q e le f =
      let e' : h ≡ h' = omega arith in subst (λ x. HoledQueue n x w tmp k m q) e' f
  move_items_down-Holed (suc rounds) h h' q e le f =
      move_items_down-Holed rounds (h + 1) h' (move_item_to q (h + w) h) (omega arith) le
        (Holed-move_down q.version f (omega arith) pos)

  pub move_items_up-Holed :
      (rounds h h' : ℕ) (q : Queue)
      → h' + rounds ≡ h
      → h + w ≤ n
      → HoledQueue n h w tmp k m q
      → HoledQueue n h' w tmp k m (move_items_up rounds h w q)
  unfolding move_items_up move_item_to
  move_items_up-Holed zero h h' q e le f =
      let e' : h ≡ h' = omega arith in subst (λ x. HoledQueue n x w tmp k m q) e' f
  move_items_up-Holed (suc rounds) h h' q e le f =
      move_items_up-Holed rounds (h - 1) h' (move_item_to q (h - 1) (h - 1 + w)) (omega arith)
        (omega arith) (Holed-move_up q.version f (omega arith) le pos)

pub copy_back-Holed :
    (n : ℕ) (tmp : Array Item) (rounds k to h : ℕ) (q : Queue)
    → to + k ≡ h
    → h + rounds ≤ n
    → HoledQueue n h rounds tmp k rounds q
    → (h' k' : ℕ) × HoledQueue n h' 0 tmp k' 0 (copy_back rounds k to tmp q)
unfolding copy_back move
copy_back-Holed n tmp zero k to h q e le f = (h, k, f)
copy_back-Holed n tmp (suc rounds) k to h q e le f =
    copy_back-Holed n tmp rounds (k + 1) to (h + 1) _ (omega arith) (omega arith)
      (rw e (Holed-copy_back q.version f (omega arith)))
