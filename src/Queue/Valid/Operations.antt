-- ===== src/Queue/Valid/Operations.antt =====
-- Queue.hxx and Queue.cxx: every operation on the items keeps the queue valid.
use mpd_dsd.Prelude.{
  ◌∙◌, ℕ, ◌+◌, ◌^◌, ◌<◌, ◌≡◌, ◌≢◌, refl, arith, ap, sym, ◌↔◌, subst, none, some, inl, inr,
  ℕ_discrete, Option-cases,
}
use mpd_dsd.Prelude.Arrays.{Array, put}
use mpd_dsd.IdTable.{IdTable, insert}
use mpd_dsd.IdTable.Generate.{generate_id-Found, generate_id_total}
use mpd_dsd.IdTable.{generate_id, id_to_position}
use mpd_dsd.Song.{Song, dup_detached}
use mpd_dsd.Queue.State.{Item, Rand, Queue, new_queue, append}
use mpd_dsd.Queue.Valid.{IsValid}
use mpd_dsd.Queue.Valid.Orders.{IsOrder}
use mpd_dsd.Queue.Valid.Tables.{Filed-append, some_id_free}

-- A new queue is valid, if its length makes the id table of a size that `unsigned` holds.
pub new_queue-IsValid :
    (max_length : ℕ) (items : Array Item) (order : Array ℕ) (rand : Rand)
    → 0 < max_length
    → max_length < 2 ^ 30
    → IsValid (new_queue max_length items order rand)
unfolding new_queue
new_queue-IsValid n items order rand pos lt = record {
  within = omega arith;
  size = omega arith;
  next_pos = omega arith;
  next_lt = omega arith;
  filed = record {
    filed = λ p h. elim h [ ];
    range = λ p h. elim h [ ];
    owner = λ d p e. absurd (ground arith);
  };
  ordered = record { below = λ i h. elim h [ ]; injective = λ i j h. elim h [ ] };
  straight = λ _ i h. elim h [ ];
}

-- The loop of GenerateId ends whenever the queue is not full.
pub append_total :
    (q : Queue) (song : Song) (priority : ℕ)
    → IsValid q
    → q.length < q.max_length
    → append q song priority ≢ none
unfolding append insert
append_total q song priority v room =
    let (free, h0, h, e) = some_id_free v.filed (omega (arith, v.size)) in
    ground (arith, generate_id_total q.id_table free v.next_pos v.next_lt h0 h e)

-- The queue that Append leaves, for the table that GenerateId left and its id.
abbrev appended : Queue → Song → ℕ → ℕ → IdTable → Queue
appended q song priority id t = record q {
  length = q.length + 1;
  items =
      put q.items q.length
        (record { song = dup_detached song; id = id; version = q.version; priority = priority });
  order = put q.order q.length q.length;
  id_table = record t { slots = put t.slots id (some q.length) };
}

append_result :
    (q : Queue) (song : Song) (priority id : ℕ) (r : Queue)
    → append q song priority ≡ some (id, r)
    → (t : IdTable) × (generate_id q.id_table ≡ some (id, t)) × (r ≡ appended q song priority id t)
unfolding append insert
append_result q song priority id r e = elim (Option-cases (generate_id q.id_table)) [
  | inl stuck ↦ absurd (ground arith)
  | inr ((new_id, t), g) ↦ (t, ground arith, ground arith)
]

-- Append leaves the order numbers that were there.
pub append_order :
    (q : Queue) (song : Song) (priority id : ℕ) (r : Queue) (i : ℕ)
    → append q song priority ≡ some (id, r)
    → i < q.length
    → r.order i ≡ q.order i
append_order q song priority id r i e h =
    let (t, g, same) = append_result q song priority id r e in
    ap (λ s. s.order i) same ∙ ground (arith, ap q.order)

extended-IsOrder : (n : ℕ) (order : Array ℕ) → IsOrder n order → IsOrder (n + 1) (put order n n)
extended-IsOrder n order o = record {
  below = λ i h. elim (ℕ_discrete i n) [
    | yes q ↦ ground arith
    | no q ↦ ground (arith, o.below i (omega arith))
  ];
  injective = λ i j hi hj e. elim (ℕ_discrete i n) [
    | yes q ↦ elim (ℕ_discrete j n) [
      | yes r ↦ omega arith
      | no r ↦ ground (arith, o.below j (omega arith))
    ]
    | no q ↦ elim (ℕ_discrete j n) [
      | yes r ↦ ground (arith, o.below i (omega arith))
      | no r ↦ o.injective i j (omega arith) (omega arith) (ground arith)
    ]
  ];
}

appended-IsValid :
    (q : Queue) (song : Song) (priority id : ℕ) (t : IdTable)
    → IsValid q
    → q.length < q.max_length
    → generate_id q.id_table ≡ some (id, t)
    → IsValid (appended q song priority id t)
appended-IsValid q song priority id t v room g =
    let found = generate_id-Found q.id_table v.next_pos v.next_lt (omega (arith, v.size)) id t g in
    record {
      within = omega arith;
      size = omega (arith, found.1, v.size);
      next_pos = ground arith;
      next_lt = ground arith;
      filed =
          Filed-append _ v.filed found.0.0 found.0.1 found.0.2 found.1
            (ap (λ s. put s id (some q.length)) found.2);
      ordered = extended-IsOrder q.length q.order v.ordered;
      straight = λ s i h. elim (ℕ_discrete i q.length) [
        | yes e ↦ ground arith
        | no e ↦ ground (arith, v.straight s i (omega arith))
      ];
    }

-- Append keeps the queue valid.
pub append-IsValid :
    (q : Queue) (song : Song) (priority id : ℕ) (r : Queue)
    → IsValid q
    → q.length < q.max_length
    → append q song priority ≡ some (id, r)
    → IsValid r
append-IsValid q song priority id r v room e =
    let (t, g, same) = append_result q song priority id r e in
    subst IsValid (sym same) (appended-IsValid q song priority id t v room g)

-- The ids of a valid queue: the id of the song at a position leads back to that position, and an id
-- that leads to a position is the id of the song there.
pub id_to_position_iff :
    (q : Queue) (id p : ℕ)
    → IsValid q
    → (id_to_position q.id_table id ≡ some p) ↔ ((p < q.length) × ((q.items p).id ≡ id))
unfolding id_to_position
id_to_position_iff q id p v = (
  λ e. v.filed.owner id p (ground arith),
  λ h. ground (arith, v.filed.filed p h.0, v.filed.range p h.0),
)

-- Append to a valid queue that is not full returns, so the loop of GenerateId ends; the queue is
-- valid and longer by one, the id was free and leads to the last position, where the detached copy
-- of the song is, and the items before are as they were.
pub append_correct :
    (q : Queue) (song : Song) (priority : ℕ)
    → IsValid q
    → q.length < q.max_length
    → (id : ℕ) × (r : Queue) × (append q song priority ≡ some (id, r))
      × IsValid r
      × (r.length ≡ q.length + 1)
      × (id_to_position q.id_table id ≡ none)
      × (id_to_position r.id_table id ≡ some q.length)
      × ((r.items q.length).song ≡ dup_detached song)
      × ((p : ℕ) → p < q.length → r.items p ≡ q.items p)
unfolding append insert id_to_position
append_correct q song priority v room = elim (Option-cases (generate_id q.id_table)) [
  | inl stuck ↦ absurd (append_total q song priority v room (rw (append, insert, stuck)))
  | inr ((id, t), g) ↦
      let found =
        generate_id-Found q.id_table v.next_pos v.next_lt (omega (arith, v.size)) id t g in
      (
        id,
        appended q song priority id t,
        rw (append, insert, g),
        appended-IsValid q song priority id t v room g,
        refl,
        ground (arith, found),
        ground (arith, found),
        ground arith,
        λ p h. ground arith,
      )
]
