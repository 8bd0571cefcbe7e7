-- ===== src/Queue/Valid/Tables.antt =====
-- Queue.cxx: the id table under the operations that add, swap, change and clear items.
use mpd_dsd.Prelude.{
  ℕ, zero, suc, ◌+◌, ◌-◌, ◌<◌, ◌≤◌, ◌≡◌, ◌≢◌, refl, arith, Option, none, some, ◌⊎◌, inl, inr,
  ℕ_discrete, Option-cases,
}
use mpd_dsd.Prelude.Arrays.{Array, put, swap}
use mpd_dsd.Prelude.Pigeonhole.{pigeonhole}
use mpd_dsd.IdTable.{IdTable, erase}
use mpd_dsd.Queue.State.{Item}
use mpd_dsd.Queue.Move.{erase_ids}
use mpd_dsd.Queue.Valid.Holes.{Filed}

-- A new item goes to the end, under a free id.
pub Filed-append :
    {n : ℕ} {items : Array Item} {t t' : IdTable} (item : Item)
    → Filed n items t
    → t.slots item.id ≡ none
    → 0 < item.id
    → item.id < t.size
    → t'.size ≡ t.size
    → t'.slots ≡ put t.slots item.id (some n)
    → Filed (n + 1) (put items n item) t'
Filed-append {n} {items} {t} {t'} item f free pos lt es e = record {
  filed = λ p h. elim (ℕ_discrete p n) [
    | yes q ↦ rw e (ground arith)
    | no q ↦ rw e (ground (arith, f.filed p (omega arith)))
  ];
  range = λ p h. elim (ℕ_discrete p n) [
    | yes q ↦ ground arith
    | no q ↦ ground (arith, f.range p (omega arith))
  ];
  owner = λ d p h. elim (ℕ_discrete d item.id) [
    | yes q ↦ let h' = rw e at h in ground arith
    | no q ↦
        let h' = rw e at h in
        let h'' : t.slots d ≡ some p = ground arith in ground (arith, f.owner d p h'')
  ];
}

-- A change that leaves the ids alone leaves the table right.
pub Filed-same_ids :
    {n : ℕ} {items items' : Array Item} {t : IdTable}
    → ((p : ℕ) → (items' p).id ≡ (items p).id)
    → Filed n items t
    → Filed n items' t
Filed-same_ids same f = record {
  filed = λ p h. rw (same p) (f.filed p h);
  range = λ p h. rw (same p) (f.range p h);
  owner = λ d p e. ground (arith, f.owner d p e, same p);
}

-- SwapPositions on the two arrays; the items may change in what is not the id.
pub Filed-swap :
    {n : ℕ} {items items' : Array Item} {t : IdTable} (i j : ℕ)
    → i < n
    → j < n
    → ((p : ℕ) → (items' p).id ≡ (swap items i j p).id)
    → Filed n items t
    → Filed n items'
        (record t { slots = put (put t.slots (items i).id (some j)) (items j).id (some i) })
Filed-swap {items = items} {items' = items'} {t = t} i j hi hj same f = record {
  filed = λ p h. rw (same p) (ground (arith, f.filed p h, f.filed i hi, f.filed j hj));
  range = λ p h. rw (same p) (ground (arith, f.range p h, f.range i hi, f.range j hj));
  owner = λ d p e. ground (arith, f.owner d p, f.filed i hi, f.filed j hj, same p);
}

-- Erasing the ids of all items empties the table.
erase_ids-none :
    (rounds i n : ℕ) (items : Array Item) (t : IdTable)
    → i + rounds ≡ n
    → ((d p : ℕ) → t.slots d ≡ some p → (i ≤ p) × (p < n) × ((items p).id ≡ d))
    → (d : ℕ) → (erase_ids rounds i items t).slots d ≡ none
unfolding erase_ids
erase_ids-none zero i n items t e own d = elim (Option-cases (t.slots d)) [
  | inl free ↦ free
  | inr (p, used) ↦ absurd (omega (arith, own d p used))
]
erase_ids-none (suc rounds) i n items t e own d =
    erase_ids-none rounds (i + 1) n items _ (omega arith)
      (λ d' p used.
        let used' : t.slots d' ≡ some p = ground arith in
        let o = own d' p used' in let ne : p ≢ i = λ q. ground arith in (omega arith, o.1, o.2))
      d

pub erase_ids-same_size :
    (rounds i : ℕ) (items : Array Item) (t : IdTable)
    → ((erase_ids rounds i items t).size ≡ t.size) × ((erase_ids rounds i items t).next ≡ t.next)
unfolding erase_ids
erase_ids-same_size zero i items t = (refl, refl)
erase_ids-same_size (suc rounds) i items t =
    ground (arith, erase_ids-same_size rounds (i + 1) items (erase t (items i).id))

pub Filed-clear :
    {n : ℕ} {items : Array Item} {t : IdTable}
    → Filed n items t
    → Filed 0 items (erase_ids n 0 items t)
Filed-clear {n} {items} {t} f =
    let empty =
      erase_ids-none n 0 n items t (omega arith)
        (λ d p e. let o = f.owner d p e in (omega arith, o.0, o.1)) in
    record {
      filed = λ p h. elim h [ ];
      range = λ p h. elim h [ ];
      owner = λ d p e. absurd (ground (arith, empty d));
    }

-- The ids below `m` that are not 0: one is free, or all are used.
search_free :
    (slots : Array (Option ℕ)) (m : ℕ)
    → ((d : ℕ) × (0 < d) × (d < m) × (slots d ≡ none)) ⊎ ((d : ℕ) → 0 < d → d < m → slots d ≢ none)
search_free slots zero = inr (λ d h0 h. elim h [ ])
search_free slots (suc m) = elim (search_free slots m) [
  | inl (d, h0, h, e) ↦ inl (d, h0, omega arith, e)
  | inr used ↦ elim (ℕ_discrete m 0) [
    | yes z ↦ inr (λ d h0 h. absurd (omega arith))
    | no nz ↦ elim (Option-cases (slots m)) [
      | inl e ↦ inl (m, omega arith, omega arith, e)
      | inr (p, e) ↦ inr (λ d h0 h. elim (ℕ_discrete d m) [
        | yes q ↦ λ r. ground arith
        | no q ↦ used d h0 (omega arith)
      ])
    ]
  ]
]

abbrev position_at : Array (Option ℕ) → ℕ → ℕ
position_at slots i = elim (slots (suc i)) [ none ↦ 0 | some p ↦ p ]

-- Fewer items than ids leave an id free.
pub some_id_free :
    {n : ℕ} {items : Array Item} {t : IdTable}
    → Filed n items t
    → n + 1 < t.size
    → (d : ℕ) × (0 < d) × (d < t.size) × (t.slots d ≡ none)
some_id_free {n} {items} {t} f lt = elim (search_free t.slots t.size) [
  | inl free ↦ free
  | inr used ↦
      let at : (i : ℕ) → i < t.size - 1 → t.slots (suc i) ≡ some (position_at t.slots i) =
        λ i h. ground (arith, used (suc i) (omega arith) (omega arith)) in
      absurd (
        omega (
          arith,
          pigeonhole n (t.size - 1) (position_at t.slots) (λ i h. (f.owner (suc i) _ (at i h)).0)
              (λ i j hi hj e.
                ground (arith, f.owner (suc i) _ (at i hi), f.owner (suc j) _ (at j hj))),
        ))
]
