-- ===== src/Playlist/Valid/Reshuffles.antt =====
-- Playlist.cxx: the order is shuffled, and the current song found again.
use mpd_dsd.Prelude.{
  ℕ, ◌<◌, ◌≡◌, refl, sym, arith, subst, true, some, Yields, Yields-some, Option-cases, inl, inr,
}
use mpd_dsd.Queue.State.{Queue, get_next_order}
use mpd_dsd.Queue.Order.{shuffle_order}
use mpd_dsd.Queue.Valid.{IsValid}
use mpd_dsd.Queue.Valid.Priorities.{position_to_order_total}
use mpd_dsd.Queue.Valid.Shuffles.{shuffle_order-Reordered}
use mpd_dsd.Playlist.State.{Playlist, reshuffle, get_current_position}
use mpd_dsd.Playlist.Valid.{IsWithin, IsSome}

pub get_next_order-IsWithin :
    (q : Queue) (order : ℕ) → order < q.length → IsWithin q.length (get_next_order q order)
unfolding get_next_order
get_next_order-IsWithin q order h = ground arith

module _ {P : Type 0} where
  -- A shuffle of the order of playback that keeps the current song.
  pub record IsReshuffled (l m : Playlist P) : Type 0 where
    pub length : m.queue.length ≡ l.queue.length
    pub items : m.queue.items ≡ l.queue.items
    pub valid : IsValid m.queue
    pub position : get_current_position m ≡ get_current_position l
    pub current : IsWithin m.queue.length m.current
    pub has_current : IsSome m.current
    pub playing : m.playing ≡ l.playing
    pub queued : m.queued ≡ l.queued
    pub player : m.player ≡ l.player

  reshuffle_at :
      (l : Playlist P) (c : ℕ)
      → IsValid l.queue
      → l.current ≡ some c
      → c < l.queue.length
      → l.queue.random ≡ true
      → Yields (IsReshuffled l) (reshuffle l)
  unfolding reshuffle get_current_position
  reshuffle_at l c v e h r =
      let f = shuffle_order-Reordered l.queue r in
      let (k, ek, hk, eo) =
        position_to_order_total (shuffle_order l.queue) (l.queue.order c)
          (subst (λ n. l.queue.order c < n) (sym f.length) (v.ordered.below c h)) (f.valid v) in
      let done : reshuffle l ≡ some (record l { queue = shuffle_order l.queue; current = some k }) =
        rw (reshuffle, e, ek) in
      Yields-some (IsReshuffled l) (reshuffle l) done (record {
        length = f.length;
        items = f.items;
        valid = f.valid v;
        position = rw (e, eo);
        current = hk;
        has_current = tt;
        playing = refl;
        queued = refl;
        player = refl;
      })

  -- What the shuffle needs of the current order number, from the option.
  pub reshuffle-IsReshuffled :
      (l : Playlist P)
      → IsValid l.queue
      → IsWithin l.queue.length l.current
      → IsSome l.current
      → l.queue.random ≡ true
      → Yields (IsReshuffled l) (reshuffle l)
  reshuffle-IsReshuffled l v w s r = elim (Option-cases l.current) [
    | inl e ↦ absurd (subst IsSome e s)
    | inr (c, e) ↦ reshuffle_at l c v e (subst (IsWithin l.queue.length) e w) r
  ]
