-- ===== src/Queue/Valid.antt =====
-- What every operation of Queue.cxx keeps: the ids, the positions and the order numbers fit together.
pub mod Holes
pub mod Loops
pub mod Orders
pub mod Tables
pub mod Operations
pub mod Blocks
pub mod Deletes
pub mod Shuffles
pub mod Requeues
pub mod Priorities
pub mod Mixes
use mpd_dsd.Prelude.{ℕ, ◌+◌, ◌*◌, ◌<◌, ◌≤◌, ◌≡◌, Bool, false}
use mpd_dsd.Queue.State.{Queue}
use Holes.{Filed}
use Orders.{IsOrder}

pub record IsValid (q : Queue) : Type 0 where
  pub within : q.length ≤ q.max_length
  pub size : q.id_table.size ≡ 4 * q.max_length
  pub next_pos : 0 < q.id_table.next
  pub next_lt : q.id_table.next < q.id_table.size
  pub filed : Filed q.length q.items q.id_table
  pub ordered : IsOrder q.length q.order
  -- Without random mode the order numbers are the positions.
  pub straight : q.random ≡ false → (i : ℕ) → i < q.length → q.order i ≡ i
