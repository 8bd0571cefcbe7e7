-- ===== src/IdTable/Generate.antt =====
-- IdTable.hxx, GenerateId: the loop ends at a free id as long as there is one.
use mpd_dsd.Prelude.{
  ℕ, zero, suc, ◌+◌, ◌<◌, ◌≤◌, ◌≡◌, inl, inr, ◌≢◌, Option, none, some, arith, Option-cases, dec_lt,
  ℕ_discrete,
}
use mpd_dsd.Prelude.Arrays.{Array}
use mpd_dsd.IdTable.{IdTable, bump_next, find_free, generate_id}

-- What the loop returns: a free id in the number space, and a `next` in it.
abbrev pub Found : ℕ → Array (Option ℕ) → ℕ × ℕ → Type 0
Found size slots r = (slots r.0 ≡ none) × (0 < r.0) × (r.0 < size) × (0 < r.1) × (r.1 < size)

bump_next-lt :
    (size next : ℕ)
    → 1 < size
    → next < size
    → (0 < bump_next size next) × (bump_next size next < size)
unfolding bump_next
bump_next-lt size next h k = ground arith

find_free-Found :
    (fuel size : ℕ) (slots : Array (Option ℕ)) (next : ℕ)
    → 1 < size
    → 0 < next
    → next < size
    → (r : ℕ × ℕ) → find_free fuel size slots next ≡ some r
    → Found size slots r
unfolding find_free
find_free-Found zero size slots next h1 h2 h3 r e = cc
find_free-Found (suc fuel) size slots next h1 h2 h3 r e =
    let b = bump_next-lt size next h1 h3 in
    ground (arith, b, find_free-Found fuel size slots (bump_next size next) h1 b.0 b.1 r)

-- A free id ahead of `next` is reached without going round.
reaches_ahead :
    (fuel size : ℕ) (slots : Array (Option ℕ)) (next free : ℕ)
    → next ≤ free
    → free < size
    → slots free ≡ none
    → free < next + fuel
    → find_free fuel size slots next ≢ none
unfolding find_free bump_next
reaches_ahead zero size slots next free h1 h2 e h3 = absurd (omega arith)
reaches_ahead (suc fuel) size slots next free h1 h2 e h3 = elim (ℕ_discrete next free) [
  | yes p ↦ ground arith
  | no p ↦
      ground (arith, reaches_ahead fuel size slots (next + 1) free (omega arith) h2 e (omega arith))
]

-- One behind it is reached after the wrap.
reaches_behind :
    (fuel size : ℕ) (slots : Array (Option ℕ)) (next free : ℕ)
    → 0 < free
    → free < next
    → next < size
    → slots free ≡ none
    → size + free ≤ next + fuel
    → find_free fuel size slots next ≢ none
unfolding find_free bump_next
reaches_behind zero size slots next free h0 h1 h2 e h3 = absurd (omega arith)
reaches_behind (suc fuel) size slots next free h0 h1 h2 e h3 = elim (ℕ_discrete (next + 1) size) [
  | yes p ↦
      ground
        (arith, reaches_ahead fuel size slots 1 free (omega arith) (omega arith) e (omega arith))
  | no p ↦ ground (
    arith,
    reaches_behind fuel size slots (next + 1) free h0 (omega arith) (omega arith) e (omega arith),
  )
]

-- GenerateId ends, within one round for each id, wherever an id is free.
pub generate_id_total :
    (t : IdTable) (free : ℕ)
    → 0 < t.next
    → t.next < t.size
    → 0 < free
    → free < t.size
    → t.slots free ≡ none
    → generate_id t ≢ none
unfolding generate_id
generate_id_total t free h1 h2 h3 h4 e = elim (dec_lt free t.next) [
  | yes p ↦ ground (arith, reaches_behind t.size t.size t.slots t.next free h3 p h2 e (omega arith))
  | no p ↦
      ground
        (arith, reaches_ahead t.size t.size t.slots t.next free (omega arith) h4 e (omega arith))
]

-- What GenerateId returns was free, and it leaves the table alone but for `next`.
pub generate_id-Found :
    (t : IdTable)
    → 0 < t.next
    → t.next < t.size
    → 1 < t.size
    → (id : ℕ) (t' : IdTable) → generate_id t ≡ some (id, t')
    → Found t.size t.slots (id, t'.next) × (t'.size ≡ t.size) × (t'.slots ≡ t.slots)
unfolding generate_id
generate_id-Found t h1 h2 h3 id t' e =
    elim (Option-cases (find_free t.size t.size t.slots t.next)) [
      | inl q ↦ ground arith
      | inr (r, q) ↦ ground (arith, find_free-Found t.size t.size t.slots t.next h3 h1 h2 r q)
    ]
