-- ===== src/Playlist/Valid/Randoms.antt =====
-- Playlist.cxx, SetRandom: the song that is being played stays the current song.
use mpd_dsd.Prelude.{
  ℕ, ◌<◌, ◌≡◌, ◌≢◌, refl, sym, ◌∙◌, arith, ap, subst, Bool, true, false, Option, none, some,
  if◌then◌else◌, ◌>>=◌, Yields, Yields-map, Yields->>=, Yields-some, if_cases, option_cases,
  Option-cases, inl, inr,
}
use mpd_dsd.Queue.State.{Queue, position_to_order, swap_orders, restore_order}
use mpd_dsd.Queue.Order.{shuffle_order}
use mpd_dsd.Queue.Valid.{IsValid}
use mpd_dsd.Queue.Valid.Deletes.{restore_order-IsValid, swap_orders-IsValid}
use mpd_dsd.Queue.Valid.Priorities.{position_to_order_total}
use mpd_dsd.Queue.Valid.Shuffles.{shuffle_order-Reordered}
use mpd_dsd.Playlist.State.{
  PlayerControl, Playlist, get_queued_song, get_current_position, update_queued_song,
}
use mpd_dsd.Playlist.Options.{set_random, begin_random, playlist_order, same_bool}
use mpd_dsd.Playlist.Valid.{IsWithin, IsSome, IsConsistent}
use mpd_dsd.Playlist.Valid.Commits.{
  IsEdited, current_song, current_song_at, current_song-none, current_song_same,
  get_queued_song-none,
}
use mpd_dsd.Playlist.Valid.Options.{updated-IsEdited}

random-IsValid : (q : Queue) → IsValid q → IsValid (record q { random = true })
random-IsValid q v = record {
  within = v.within;
  size = v.size;
  next_pos = v.next_pos;
  next_lt = v.next_lt;
  filed = v.filed;
  ordered = v.ordered;
  straight = λ e. absurd (ground arith);
}

swapped_first : (q : Queue) (j : ℕ) → (swap_orders q 0 j).order 0 ≡ q.order j
unfolding swap_orders
swapped_first q j = ground (arith, ap q.order)

-- The position of the current song during playback.
abbrev played_position : Bool → Option ℕ → (ℕ → ℕ) → Option ℕ
played_position playing current order =
    if playing then elim current [ none ↦ none | some c ↦ some (order c) ] else none

played_position-some :
    (playing : Bool) (current : Option ℕ) (order : ℕ → ℕ) (position : ℕ)
    → played_position playing current order ≡ some position
    → (c : ℕ) × (current ≡ some c) × (order c ≡ position)
played_position-some true (some c) order position e = (c, refl, ground arith)
played_position-some true none order position e = absurd (ground arith)
played_position-some false current order position e = absurd (ground arith)

played_position-none :
    (current : Option ℕ) (order : ℕ → ℕ)
    → IsSome current
    → played_position true current order ≢ none
played_position-none none order s e = s
played_position-none (some c) order s e = ground arith

module _ {P : Type 0} (pc : PlayerControl P) where
  -- The order of playback has changed, but not the songs, nor the current one during playback.
  record IsReordered (l m : Playlist P) : Type 0 where
    valid : IsValid m.queue
    length : m.queue.length ≡ l.queue.length
    playing : m.playing ≡ l.playing
    queued : m.queued ≡ l.queued
    current : IsWithin m.queue.length m.current
    has_current : m.playing ≡ true → IsSome m.current
    song : l.playing ≡ true → current_song m ≡ current_song l

  -- The current song, put first in the shuffled order.
  first_song :
      (l : Playlist P) (c : ℕ)
      → IsValid l.queue
      → l.queue.random ≡ true
      → c < l.queue.length
      → l.current ≡ some c
      → Yields (IsReordered l) (
          position_to_order (shuffle_order l.queue) (l.queue.order c) >>= (λ k.
            some (record l { queue = swap_orders (shuffle_order l.queue) 0 k; current = some 0 })))
  unfolding swap_orders
  first_song l c v r h at =
      let q = shuffle_order l.queue in
      let f = shuffle_order-Reordered l.queue r in
      let (k, e, hk, ek) =
        position_to_order_total q (l.queue.order c)
          (subst (λ n. l.queue.order c < n) (sym f.length) (v.ordered.below c h)) (f.valid v) in
      Yields->>= (λ j. j ≡ k) (IsReordered l) (position_to_order q (l.queue.order c)) _
        (Yields-some (λ j. j ≡ k) _ e refl)
        (λ j same. record {
          valid = swap_orders-IsValid q 0 j (omega arith) (omega arith) (f.random ∙ r) (f.valid v);
          length = f.length;
          playing = refl;
          queued = refl;
          current = omega (arith, f.length);
          has_current = λ _. tt;
          song = λ _.
              current_song_at (record l { queue = swap_orders q 0 j; current = some 0 }) 0 refl
              ∙ ap some (
                  ap (λ p. (q.items p).id) (swapped_first q j ∙ ap q.order same ∙ ek)
                  ∙ ap (λ items. (items (l.queue.order c)).id) f.items)
              ∙ sym (current_song_at l c at);
        })

  begin_random-IsReordered :
      (l : Playlist P)
      → IsConsistent l
      → l.queue.random ≡ true
      → Yields (IsReordered l) (begin_random l)
  unfolding begin_random get_current_position
  begin_random-IsReordered l c r =
      let f = shuffle_order-Reordered l.queue r in
      let o = played_position l.playing l.current l.queue.order in
      option_cases (Yields (IsReordered l)) o
        (λ missing.
          let stopped : l.playing ≢ true = λ p.
            played_position-none l.current l.queue.order (c.has_current p)
              (subst (λ b. played_position b l.current l.queue.order ≡ none) p missing) in
          record {
            valid = f.valid c.valid;
            length = f.length;
            playing = refl;
            queued = refl;
            current = tt;
            has_current = λ p. absurd (stopped p);
            song = λ p. absurd (stopped p);
          })
        (λ position e.
          let (k, at, is) = played_position-some l.playing l.current l.queue.order position e in
          subst
            (λ p. Yields (IsReordered l) (
              position_to_order (shuffle_order l.queue) p >>= (λ j.
                some (record l {
                  queue = swap_orders (shuffle_order l.queue) 0 j;
                  current = some 0;
                }))))
            is (first_song l k c.valid r (subst (IsWithin l.queue.length) at c.current) at))

  -- The playlist is consistent and as long as before, and its current song is the same, if one is played.
  pub record IsSwitched (l m : Playlist P) : Type 0 where
    pub consistent : IsConsistent m
    pub length : m.queue.length ≡ l.queue.length
    pub song : l.playing ≡ true → current_song m ≡ current_song l

  reordered-IsSwitched :
      (l m : Playlist P)
      → IsConsistent l
      → IsReordered l m
      → Yields (IsSwitched l) (update_queued_song pc m (get_queued_song l))
  reordered-IsSwitched l m c o =
      Yields-map (IsEdited m) (IsSwitched l) (update_queued_song pc m (get_queued_song l))
        (updated-IsEdited pc m m (get_queued_song l)
          (record {
            valid = o.valid;
            current = o.current;
            has_current = o.has_current;
            no_queued = λ p e. o.queued ∙ get_queued_song-none pc l (sym o.playing ∙ p) e;
          })
          refl refl)
        (λ k e. record {
          consistent = e.consistent;
          length = e.length ∙ o.length;
          song = λ p. e.song ∙ o.song p;
        })

  straightened_song :
      (l : Playlist P)
      → IsConsistent l
      → current_song (playlist_order (record l { queue = record l.queue { random = false } }))
        ≡ current_song l
  unfolding playlist_order get_current_position restore_order
  straightened_song l c =
      let m = playlist_order (record l { queue = record l.queue { random = false } }) in
      let position = λ (o : Option ℕ). elim o as (λ _. Option ℕ) [
        | none ↦ none
        | some k ↦ some (l.queue.order k)
      ] in
      elim (Option-cases l.current) [
        | inl e ↦ current_song-none m (ap position e) ∙ sym (current_song-none l e)
        | inr (k, e) ↦
            let below = c.valid.ordered.below k (subst (IsWithin l.queue.length) e c.current) in
            current_song_at m (l.queue.order k) (ap position e)
            ∙ ap (λ p. some (l.queue.items p).id) (ground arith)
            ∙ sym (current_song_at l k e)
      ]

  -- Random mode is switched off: the order numbers are the positions again.
  straightened :
      (l : Playlist P)
      → IsConsistent l
      → IsReordered l (playlist_order (record l { queue = record l.queue { random = false } }))
  unfolding playlist_order get_current_position restore_order
  straightened l c = record {
    valid =
        restore_order-IsValid (record l.queue { random = false }) (random-IsValid l.queue c.valid);
    length = refl;
    playing = refl;
    queued = refl;
    current =
        option_cases (IsWithin l.queue.length) l.current (λ _. tt)
          (λ k at. c.valid.ordered.below k (subst (IsWithin l.queue.length) at c.current));
    has_current = λ p.
        option_cases IsSome l.current (λ missing. absurd (subst IsSome missing (c.has_current p)))
          (λ k at. tt);
    song = λ _. straightened_song l c;
  }

  -- SetRandom on a consistent playlist returns; the playlist stays consistent and as long as it was,
  -- and during playback its current song stays the current song, though the order is shuffled or
  -- restored.
  pub set_random-IsSwitched :
      (l : Playlist P) (status : Bool)
      → IsConsistent l
      → Yields (IsSwitched l) (set_random pc l status)
  unfolding set_random current_song get_current_position
  set_random-IsSwitched l true c =
      let l1 : Playlist P = record l { queue = record l.queue { random = true } } in
      let c1 : IsConsistent l1 = record {
        valid = random-IsValid l.queue c.valid;
        current = c.current;
        has_current = c.has_current;
        queued = c.queued;
      } in
      if_cases (Yields (IsSwitched l)) (same_bool true l.queue.random)
        (λ _. record { consistent = c; length = refl; song = λ _. refl })
        (λ _.
          Yields->>= (IsReordered l1) (IsSwitched l) (begin_random l1) _
            (begin_random-IsReordered l1 c1 refl)
            (λ m o. reordered-IsSwitched l m c (record {
              valid = o.valid;
              length = o.length;
              playing = o.playing;
              queued = o.queued;
              current = o.current;
              has_current = o.has_current;
              song = λ p. o.song p ∙ current_song_same l l1 (λ _. refl) refl;
            })))
  set_random-IsSwitched l false c =
      if_cases (Yields (IsSwitched l)) (same_bool false l.queue.random)
        (λ _. record { consistent = c; length = refl; song = λ _. refl })
        (λ _. reordered-IsSwitched l _ c (straightened l c))
