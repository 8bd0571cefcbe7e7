-- ===== src/IdTable.antt =====
-- IdTable.hxx: the map from song ids to positions.
pub mod Generate
use mpd_dsd.Prelude.{ℕ, zero, suc, ◌+◌, ◌<◌, Option, none, some, ltb, if◌then◌else◌, ◌==◌}
use mpd_dsd.Prelude.Arrays.{Array, put}

-- `int *data`: a negative entry, which marks a free id, is `none`.
pub record IdTable : Type 0 where
  pub size : ℕ
  pub next : ℕ
  pub slots : Array (Option ℕ)

unfoldable pub new_table : ℕ → IdTable
new_table size = record { size = size; next = 1; slots = λ _. none }

unfoldable pub id_to_position : IdTable → ℕ → Option ℕ
id_to_position t id = if ltb id t.size then t.slots id else none

-- `++next; if (next == size) next = 1;`
unfoldable pub bump_next : ℕ → ℕ → ℕ
bump_next size next = if next + 1 == size then 1 else next + 1

-- The loop of GenerateId on fuel, from the id that `next` holds: the free id and the new `next`.
unfoldable pub find_free : ℕ → ℕ → Array (Option ℕ) → ℕ → Option (ℕ × ℕ)
find_free zero size slots next = none
find_free (suc fuel) size slots next = elim (slots next) [
  | none ↦ some (next, bump_next size next)
  | some _ ↦ find_free fuel size slots (bump_next size next)
]

-- One round for each id is enough: `Generate.generate_id_total`.
unfoldable pub generate_id : IdTable → Option (ℕ × IdTable)
generate_id t = elim (find_free t.size t.size t.slots t.next) [
  | none ↦ none
  | some (id, next) ↦ some (id, record t { next = next })
]

unfoldable pub insert : IdTable → ℕ → Option (ℕ × IdTable)
insert t position = elim (generate_id t) [
  | none ↦ none
  | some (id, t') ↦ some (id, record t' { slots = put t'.slots id (some position) })
]

unfoldable pub move : IdTable → ℕ → ℕ → IdTable
move t id position = record t { slots = put t.slots id (some position) }

unfoldable pub erase : IdTable → ℕ → IdTable
erase t id = record t { slots = put t.slots id none }
