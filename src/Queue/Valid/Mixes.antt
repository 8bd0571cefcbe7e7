-- ===== src/Queue/Valid/Mixes.antt =====
-- Queue.cxx, SwapPositions and ShuffleRange: which songs stay where they are.
use mpd_dsd.Prelude.{
  ap, sym, false, ◌≢◌, ℕ_discrete, ℕ, zero, suc, ◌+◌, ◌-◌, ◌<◌, ◌≤◌, ◌≡◌, refl, ◌∙◌, arith,
  if◌then◌else◌, ◌==◌, ◌⊎◌,
}
use mpd_dsd.Queue.State.{swap_orders, Queue, uniform}
use mpd_dsd.Queue.Move.{swap_positions}
use mpd_dsd.Queue.Order.{shuffle_positions, shuffle_range}
use mpd_dsd.Queue.Valid.{IsValid}
use mpd_dsd.Queue.Valid.Deletes.{swap_positions-IsValid}
use mpd_dsd.Queue.Valid.Shuffles.{uniform_bounds, drawn-IsValid}

pub swapped_id :
    (q : Queue) (i j p : ℕ)
    → ((swap_positions q i j).items p).id
      ≡ (if p == j then (q.items i).id else if p == i then (q.items j).id else (q.items p).id)
unfolding swap_positions
swapped_id q i j p = ground arith

swapped_order :
    (q : Queue) (i j a b c : ℕ)
    → (swap_orders (swap_positions q i j) a b).order c
      ≡ (if c == b then q.order a else if c == a then q.order b else q.order c)
unfolding swap_orders swap_positions
swapped_order q i j a b c = ground (arith, ap q.order)

-- In random mode the order numbers of the two songs change places as well.
pub swapped_order_song :
    (q : Queue) (i j a b c : ℕ)
    → IsValid q
    → a < q.length
    → b < q.length
    → c < q.length
    → q.order a ≡ i
    → q.order b ≡ j
    → ((swap_positions q i j).items ((swap_orders (swap_positions q i j) a b).order c)).id
      ≡ (q.items (q.order c)).id
swapped_order_song q i j a b c v ha hb hc ea eb =
    let id_at = λ (p : ℕ). ((swap_positions q i j).items p).id in
    let o = swapped_order q i j a b c in
    elim (ℕ_discrete c b) [
      | yes e ↦
          let at : (swap_orders (swap_positions q i j) a b).order c ≡ i = ground (arith, o) in
          ap id_at at
          ∙ swapped_id q i j i
          ∙ ground (arith, ap (λ p. (q.items p).id) (ap q.order e ∙ eb))
      | no ne ↦ elim (ℕ_discrete c a) [
        | yes e ↦
            let at : (swap_orders (swap_positions q i j) a b).order c ≡ j = ground (arith, o) in
            ap id_at at
            ∙ swapped_id q i j j
            ∙ ground (arith, ap (λ p. (q.items p).id) (ap q.order e ∙ ea))
        | no ne2 ↦
            let at : (swap_orders (swap_positions q i j) a b).order c ≡ q.order c =
              ground (arith, o) in
            let other1 : q.order c ≢ i = λ e. ne2 (v.ordered.injective c a hc ha (e ∙ sym ea)) in
            let other2 : q.order c ≢ j = λ e. ne (v.ordered.injective c b hc hb (e ∙ sym eb)) in
            ap id_at at ∙ swapped_id q i j (q.order c) ∙ ground arith
      ]
    ]

-- The new number of the song at `k`.
abbrev pub swapped_number : ℕ → ℕ → ℕ → ℕ
swapped_number i j k = if k == i then j else if k == j then i else k

pub straight_swap_song :
    (q : Queue) (i j k : ℕ)
    → IsValid q
    → q.random ≡ false
    → i < q.length
    → j < q.length
    → k < q.length
    → ((swap_positions q i j).items (q.order (swapped_number i j k))).id ≡ (q.items (q.order k)).id
straight_swap_song q i j k v r hi hj hk =
    let id_at = λ (p : ℕ). ((swap_positions q i j).items p).id in
    let id = λ (p : ℕ). (q.items p).id in
    let straight = λ (p : ℕ) (h : p < q.length). v.straight r p h in
    elim (ℕ_discrete k i) [
      | yes e ↦
          let at : q.order (swapped_number i j k) ≡ j = ap q.order (ground arith) ∙ straight j hj in
          ap id_at at ∙ swapped_id q i j j ∙ ground arith ∙ ap id (sym (straight k hk ∙ e))
      | no ne ↦ elim (ℕ_discrete k j) [
        | yes e ↦
            let at : q.order (swapped_number i j k) ≡ i =
              ap q.order (ground arith) ∙ straight i hi in
            ap id_at at ∙ swapped_id q i j i ∙ ground arith ∙ ap id (sym (straight k hk ∙ e))
        | no ne2 ↦
            let at : q.order (swapped_number i j k) ≡ k =
              ap q.order (ground arith) ∙ straight k hk in
            ap id_at at ∙ swapped_id q i j k ∙ ground arith ∙ ap id (sym (straight k hk))
      ]
    ]

-- The songs outside [start, end) stay where they are.
pub record IsMixed (start end : ℕ) (q r : Queue) : Type 0 where
  pub valid : IsValid r
  pub length : r.length ≡ q.length
  pub order : r.order ≡ q.order
  pub random : r.random ≡ q.random
  pub other : (p : ℕ) → (p < start) ⊎ (end ≤ p) → (r.items p).id ≡ (q.items p).id

swapped-IsMixed :
    (start end i j : ℕ) (q : Queue)
    → end ≤ q.length
    → start ≤ i
    → i < end
    → start ≤ j
    → j < end
    → IsValid q
    → IsMixed start end q (swap_positions q i j)
unfolding swap_positions
swapped-IsMixed start end i j q h hi hi2 hj hj2 v = record {
  valid = swap_positions-IsValid q i j (omega arith) (omega arith) v;
  length = refl;
  order = refl;
  random = refl;
  other = λ p out. swapped_id q i j p ∙ ground arith;
}

IsMixed-trans :
    {start end : ℕ} {q r s : Queue}
    → IsMixed start end q r
    → IsMixed start end r s
    → IsMixed start end q s
IsMixed-trans f g = record {
  valid = g.valid;
  length = g.length ∙ f.length;
  order = g.order ∙ f.order;
  random = g.random ∙ f.random;
  other = λ p out. g.other p out ∙ f.other p out;
}

shuffle_positions-IsMixed :
    (rounds i start end : ℕ) (q : Queue)
    → end ≤ q.length
    → start ≤ i
    → i + rounds ≤ end
    → IsValid q
    → IsMixed start end q (shuffle_positions rounds i start end q)
unfolding shuffle_positions
shuffle_positions-IsMixed zero i start end q h hs hi v = record {
  valid = v;
  length = refl;
  order = refl;
  random = refl;
  other = λ p out. refl;
}
shuffle_positions-IsMixed (suc rounds) i start end q h hs hi v =
    let rand = (uniform q.rand start (end - 1)).1 in
    let j = (uniform q.rand start (end - 1)).0 in
    let b = uniform_bounds q.rand start (end - 1) (omega arith) in
    let q1 : Queue = record q { rand = rand } in
    let f : IsMixed start end q (swap_positions q1 i j) =
      let g =
        swapped-IsMixed start end i j q1 h hs (omega arith) (omega arith) (omega arith)
          (drawn-IsValid q rand v) in
      record {
        valid = g.valid;
        length = g.length;
        order = g.order;
        random = g.random;
        other = g.other;
      } in
    IsMixed-trans f (
      shuffle_positions-IsMixed rounds (i + 1) start end _ (omega (arith, f.length)) (omega arith)
        (omega arith) f.valid)

-- ShuffleRange keeps the queue valid, the order numbers, and the songs that are not in its range.
pub shuffle_range-IsMixed :
    (q : Queue) (start end : ℕ)
    → start ≤ end
    → end ≤ q.length
    → IsValid q
    → IsMixed start end q (shuffle_range q start end)
unfolding shuffle_range
shuffle_range-IsMixed q start end h1 h2 v =
    shuffle_positions-IsMixed (end - start) start start end q h2 (omega arith) (omega arith) v
