-- ===== src/Queue/Valid/Holes.antt =====
-- Queue.cxx: the id table while items are moved. A range of positions is vacant, a hole, and items
-- that were copied out wait in `tmp`.
use mpd_dsd.Prelude.{
  ℕ, suc, ◌+◌, ◌-◌, ◌<◌, ◌≤◌, ◌≡◌, ◌≢◌, ◌⊎◌, inl, inr, none, some, arith, ℕ_discrete, dec_lt, sym,
  ◌∙◌,
}
use mpd_dsd.Prelude.Arrays.{Array, put}
use mpd_dsd.IdTable.{IdTable}
use mpd_dsd.Queue.State.{Item}

-- The id of every item leads to its position, and nothing else is in the table.
pub record Filed (n : ℕ) (items : Array Item) (t : IdTable) : Type 0 where
  pub filed : (p : ℕ) → p < n → t.slots (items p).id ≡ some p
  pub range : (p : ℕ) → p < n → (0 < (items p).id) × ((items p).id < t.size)
  pub owner : (d p : ℕ) → t.slots d ≡ some p → (p < n) × ((items p).id ≡ d)

-- The positions below n outside the hole [h, h + w).
abbrev pub Outside : ℕ → ℕ → ℕ → ℕ → Type 0
Outside n h w p = (p < n) × ((p < h) ⊎ (h + w ≤ p))

-- The places [k, k + m) of `tmp`.
abbrev pub Waiting : ℕ → ℕ → ℕ → Type 0
Waiting k m j = (k ≤ j) × (j < k + m)

pub record Holed (n h w : ℕ) (tmp : Array Item) (k m : ℕ) (items : Array Item) (t : IdTable)
    : Type 0 where
  pub filed : (p : ℕ) → Outside n h w p → t.slots (items p).id ≡ some p
  pub range : (p : ℕ) → Outside n h w p → (0 < (items p).id) × ((items p).id < t.size)
  pub tmp_range : (j : ℕ) → Waiting k m j → (0 < (tmp j).id) × ((tmp j).id < t.size)
  pub apart : (j p : ℕ) → Waiting k m j → Outside n h w p → (items p).id ≢ (tmp j).id
  pub tmp_injective : (i j : ℕ) → Waiting k m i → Waiting k m j → (tmp i).id ≡ (tmp j).id → i ≡ j
  pub owner :
      (d p : ℕ)
      → t.slots d ≡ some p
      → (Outside n h w p × ((items p).id ≡ d)) ⊎ ((j : ℕ) × Waiting k m j × ((tmp j).id ≡ d))

-- Two items with one id are at one place.
pub id_injective :
    {n : ℕ} {items : Array Item} {t : IdTable}
    → Filed n items t
    → (p q : ℕ) → p < n
    → q < n
    → (items p).id ≡ (items q).id
    → p ≡ q
id_injective f p q hp hq e = ground (arith, f.filed p hp, f.filed q hq)

-- Copying a block out to `tmp` leaves a hole.
pub Filed-copy_out :
    (n h w : ℕ) (tmp items : Array Item) (t : IdTable)
    → h + w ≤ n
    → ((j : ℕ) → j < w → (tmp j).id ≡ (items (h + j)).id)
    → Filed n items t
    → Holed n h w tmp 0 w items t
Filed-copy_out n h w tmp items t fits same f = record {
  filed = λ p o. f.filed p o.0;
  range = λ p o. f.range p o.0;
  tmp_range = λ j o. rw (same j (omega arith)) (f.range (h + j) (omega arith));
  apart = λ j p o o' e.
      let q : p ≡ h + j = id_injective f p (h + j) o'.0 (omega arith) (e ∙ same j (omega arith)) in
      omega arith;
  tmp_injective = λ i j o o' e.
      let e' : (items (h + i)).id ≡ (items (h + j)).id =
        sym (same i (omega arith)) ∙ e ∙ same j (omega arith) in
      let q : h + i ≡ h + j = id_injective f (h + i) (h + j) (omega arith) (omega arith) e' in
      omega arith;
  owner = λ d p e.
      let o = f.owner d p e in
      elim (dec_lt p h) [
        | yes l ↦ inl ((o.0, inl l), o.1)
        | no l ↦ elim (dec_lt p (h + w)) [
          | yes r ↦
              let at : h + (p - h) ≡ p = omega arith in
              inr (p - h, (omega arith, omega arith), same (p - h) (omega arith) ∙ rw at o.1)
          | no r ↦ inl ((o.0, inr (omega arith)), o.1)
        ]
      ];
}

-- Erasing the id of an item leaves a hole, with nothing waiting.
pub Filed-erase :
    (n h : ℕ) (tmp items : Array Item) (t : IdTable)
    → h < n
    → Filed n items t
    → Holed n h 1 tmp 0 0 items (record t { slots = put t.slots (items h).id none })
Filed-erase n h tmp items t hn f = record {
  filed = λ p o. ground (arith, f.filed p o.0, f.filed h hn);
  range = λ p o. f.range p o.0;
  tmp_range = λ j o. absurd (omega arith);
  apart = λ j p o o' e. absurd (omega arith);
  tmp_injective = λ i j o o' e. absurd (omega arith);
  owner = λ d p e.
      let e' : t.slots d ≡ some p = ground arith in
      let o = f.owner d p e' in
      elim (dec_lt p h) [
        | yes l ↦ inl ((o.0, inl l), o.1)
        | no l ↦ elim (ℕ_discrete p h) [
          | yes q ↦ absurd (ground arith)
          | no q ↦ inl ((o.0, inr (omega arith)), o.1)
        ]
      ];
}

module _ {n h w k m : ℕ} {tmp items : Array Item} {t : IdTable}
    (f : Holed n h w tmp k m items t) where
  -- Outside the hole two items with one id are at one place.
  ids_apart : (p q : ℕ) → Outside n h w p → Outside n h w q → (items p).id ≡ (items q).id → p ≡ q
  ids_apart p q op oq e = ground (arith, f.filed p op, f.filed q oq)

-- MoveItemTo(from, to) on the two arrays, where the version is `v`.
abbrev pub item_moved : ℕ → Array Item → ℕ → ℕ → Array Item
item_moved v items from to = put items to (record (items from) { version = v })

abbrev pub id_moved : Array Item → IdTable → ℕ → ℕ → IdTable
id_moved items t from to = record t { slots = put t.slots (items from).id (some to) }

module _ {n h w k m : ℕ} {tmp items : Array Item} {t : IdTable} (v h' from to : ℕ)
    (from_out : Outside n h w from) (to_out : Outside n h' w to)
    (back : (p : ℕ) → Outside n h' w p → (p ≡ to) ⊎ (Outside n h w p × (p ≢ from) × (p ≢ to)))
    (forth : (p : ℕ) → Outside n h w p → p ≢ from → Outside n h' w p × (p ≢ to))
    (f : Holed n h w tmp k m items t) where
  -- The item at `from` moves into the hole, which moves from `h` to `h'`.
  Holed-move : Holed n h' w tmp k m (item_moved v items from to) (id_moved items t from to)
  Holed-move = record {
    filed = λ p o. elim (back p o) [
      | inl e ↦ ground arith
      | inr c ↦ ground (arith, f.filed p c.0, f.filed from from_out)
    ];
    range = λ p o. elim (back p o) [
      | inl e ↦ ground (arith, f.range from from_out)
      | inr c ↦ ground (arith, f.range p c.0)
    ];
    tmp_range = f.tmp_range;
    apart = λ j p o o' e. elim (back p o') [
      | inl q ↦ f.apart j from o from_out (ground arith)
      | inr c ↦ f.apart j p o c.0 (ground arith)
    ];
    tmp_injective = f.tmp_injective;
    owner = λ d p e. elim (ℕ_discrete d (items from).id) [
      | yes q ↦ inl (ground (arith, to_out), ground arith)
      | no q ↦
          let e' : t.slots d ≡ some p = ground arith in
          elim (f.owner d p e') [
            | inr waits ↦ inr waits
            | inl c ↦
                let ne : p ≢ from = λ r. q (ground arith) in
                let c' = forth p c.0 ne in inl (c'.0, ground arith)
          ]
    ];
  }

module _ {n h w k m : ℕ} {tmp items : Array Item} {t : IdTable} (v : ℕ)
    (f : Holed n h w tmp k m items t) where
  -- The item after the hole moves to its start: the hole moves up by one.
  pub Holed-move_down :
      h + w < n
      → 0 < w
      → Holed n (h + 1) w tmp k m (item_moved v items (h + w) h) (id_moved items t (h + w) h)
  Holed-move_down hn hw =
      Holed-move v (h + 1) (h + w) h (omega arith) (omega arith)
        (λ p o. elim (ℕ_discrete p h) [ yes e ↦ inl e | no e ↦ inr (omega arith) ])
        (λ p o ne. omega arith) f

  -- The item before the hole moves to its end: the hole moves down by one.
  pub Holed-move_up :
      0 < h
      → h + w ≤ n
      → 0 < w
      → Holed n
          (h - 1)
          w
          tmp
          k
          m
          (item_moved v items (h - 1) (h - 1 + w))
          (id_moved items t (h - 1) (h - 1 + w))
  Holed-move_up h0 hn hw =
      Holed-move v (h - 1) (h - 1) (h - 1 + w) (omega arith) (omega arith)
        (λ p o. elim (ℕ_discrete p (h - 1 + w)) [ yes e ↦ inl e | no e ↦ inr (omega arith) ])
        (λ p o ne. omega arith) f

module _ {n h w k m : ℕ} {tmp items : Array Item} {t : IdTable} (v : ℕ)
    (f : Holed n h (suc w) tmp k (suc m) items t) where
  -- The first item that waits goes to the start of the hole.
  pub Holed-copy_back :
      h < n
      → Holed n
          (h + 1)
          w
          tmp
          (k + 1)
          m
          (put items h (record (tmp k) { version = v }))
          (record t { slots = put t.slots (tmp k).id (some h) })
  Holed-copy_back hn = record {
    filed = λ p o. elim (ℕ_discrete p h) [
      | yes e ↦ ground arith
      | no e ↦ ground (arith, f.filed p (omega arith), f.apart k p (omega arith) (omega arith))
    ];
    range = λ p o. elim (ℕ_discrete p h) [
      | yes e ↦ ground (arith, f.tmp_range k (omega arith))
      | no e ↦ ground (arith, f.range p (omega arith))
    ];
    tmp_range = λ j o. f.tmp_range j (omega arith);
    apart = λ j p o o' e. elim (ℕ_discrete p h) [
      | yes q ↦
          let same : k ≡ j = f.tmp_injective k j (omega arith) (omega arith) (ground arith) in
          omega arith
      | no q ↦ f.apart j p (omega arith) (omega arith) (ground arith)
    ];
    tmp_injective = λ i j o o' e. f.tmp_injective i j (omega arith) (omega arith) e;
    owner = λ d p e. elim (ℕ_discrete d (tmp k).id) [
      | yes q ↦ inl (ground arith, ground arith)
      | no q ↦
          let e' : t.slots d ≡ some p = ground arith in
          elim (f.owner d p e') [
            | inl c ↦ inl (omega arith, ground arith)
            | inr (j, o, e2) ↦ let ne : j ≢ k = λ r. q (ground arith) in inr (j, omega arith, e2)
          ]
    ];
  }

-- Once the hole is filled the ids are in order again.
pub Filed-close :
    {n h k : ℕ} {tmp items : Array Item} {t : IdTable}
    → Holed n h 0 tmp k 0 items t
    → Filed n items t
Filed-close f = record {
  filed = λ p o. f.filed p (omega arith);
  range = λ p o. f.range p (omega arith);
  owner =
      λ d p e. elim (f.owner d p e) [ inl c ↦ (c.0.0, c.1) | inr (j, o, _) ↦ absurd (omega arith) ];
}

-- A hole at the end is cut off.
pub Filed-cut :
    {n k : ℕ} {tmp items : Array Item} {t : IdTable}
    → Holed (suc n) n 1 tmp k 0 items t
    → Filed n items t
Filed-cut f = record {
  filed = λ p o. f.filed p (omega arith);
  range = λ p o. f.range p (omega arith);
  owner = λ d p e. elim (f.owner d p e) [
    | inl c ↦ (omega arith, c.1)
    | inr (j, o, _) ↦ absurd (omega arith)
  ];
}
