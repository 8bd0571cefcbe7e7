-- ===== src/Playlist/Valid/Swaps.antt =====
-- PlaylistEdit.cxx, SwapPositions and SwapIds, and the current song.
use mpd_dsd.Prelude.{
  ℕ, ◌<◌, ◌≡◌, refl, sym, ◌∙◌, arith, ap, subst, true, false, not, ◌||◌, Option, none, some, ltb,
  if◌then◌else◌, ◌>>=◌, Yields-map, Yields->>=, Yields-some, if_cases, option_cases, bool_cases,
  Option-cases, inl, inr,
}
use mpd_dsd.IdTable.{id_to_position}
use mpd_dsd.Queue.State.{Queue, position_to_order, is_valid_position, swap_orders}
use mpd_dsd.Queue.Move.{swap_positions}
use mpd_dsd.Queue.Valid.Deletes.{swap_positions-IsValid, swap_orders-IsValid}
use mpd_dsd.Queue.Valid.Mixes.{swapped_number, swapped_order_song, straight_swap_song}
use mpd_dsd.Queue.Valid.Priorities.{position_to_order_total}
use mpd_dsd.Playlist.State.{PlayerControl, Playlist, get_queued_song, is_current}
use mpd_dsd.Playlist.Edit.{commit, swap_list_positions, swap_ids}
use mpd_dsd.Playlist.Valid.{IsWithin, IsSome, IsConsistent}
use mpd_dsd.Playlist.Valid.Updates.{IsReady}
use mpd_dsd.Playlist.Valid.Commits.{
  IsEdited, Edits, IsEdited-refl, current_song, current_song_at, current_song-none, commit_correct,
  get_queued_song-none,
}

-- Without random mode the current order number follows its song.
abbrev swapped_current : Option ℕ → ℕ → ℕ → Option ℕ
swapped_current current song1 song2 =
    if is_current current song1
    then some song2
    else if is_current current song2
    then some song1
    else current

swapped_current-IsWithin :
    (n : ℕ) (current : Option ℕ) (i j : ℕ)
    → i < n
    → j < n
    → IsWithin n current
    → IsWithin n (swapped_current current i j)
swapped_current-IsWithin n current i j hi hj w =
    if_cases (IsWithin n) (is_current current i) (λ _. hj)
      (λ _. if_cases (IsWithin n) (is_current current j) (λ _. hi) (λ _. w))

swapped_current-IsSome :
    (current : Option ℕ) (i j : ℕ) → IsSome current → IsSome (swapped_current current i j)
swapped_current-IsSome current i j s =
    if_cases IsSome (is_current current i) (λ _. tt)
      (λ _. if_cases IsSome (is_current current j) (λ _. tt) (λ _. s))

swapped_current-some : (i j k : ℕ) → swapped_current (some k) i j ≡ some (swapped_number i j k)
unfolding is_current
swapped_current-some i j k = ground arith

module _ {P : Type 0} (pc : PlayerControl P) where
  -- The playlist of SwapPositions before the next song is queued.
  swapped-Edits :
      (l m : Playlist P)
      → IsReady pc m (get_queued_song l)
      → m.queue.length ≡ l.queue.length
      → current_song m ≡ current_song l
      → Edits l (commit pc m (get_queued_song l))
  swapped-Edits l m r n song =
      Yields-map (λ s. IsEdited m s.1) (λ s. IsEdited l s.1) (commit pc m (get_queued_song l))
        (commit_correct pc m (get_queued_song l) r)
        (λ s e. record { consistent = e.consistent; length = e.length ∙ n; song = e.song ∙ song })

  random_swap_song :
      (l : Playlist P) (i j a b : ℕ)
      → IsConsistent l
      → a < l.queue.length
      → b < l.queue.length
      → l.queue.order a ≡ i
      → l.queue.order b ≡ j
      → current_song (record l { queue = swap_orders (swap_positions l.queue i j) a b })
        ≡ current_song l
  unfolding swap_orders swap_positions
  random_swap_song l i j a b c ha hb ea eb =
      let m : Playlist P = record l { queue = swap_orders (swap_positions l.queue i j) a b } in
      elim (Option-cases l.current) [
        | inl e ↦ current_song-none m e ∙ sym (current_song-none l e)
        | inr (k, e) ↦
            let hk : k < l.queue.length = subst (IsWithin l.queue.length) e c.current in
            current_song_at m k e
            ∙ ap some (swapped_order_song l.queue i j a b k c.valid ha hb hk ea eb)
            ∙ sym (current_song_at l k e)
      ]

  random_swap-Edits :
      (l : Playlist P) (i j : ℕ)
      → i < l.queue.length
      → j < l.queue.length
      → l.queue.random ≡ true
      → IsConsistent l
      → (λ (q : Queue). Edits l (
            position_to_order q i >>= (λ order1. position_to_order q j >>= (λ order2.
              commit pc (record l { queue = swap_orders q order1 order2 }) (get_queued_song l)))))
          (swap_positions l.queue i j)
  unfolding swap_positions swap_orders
  random_swap-Edits l i j hi hj r c =
      let q = swap_positions l.queue i j in
      let v = swap_positions-IsValid l.queue i j hi hj c.valid in
      let (a, ea, ha, at) = position_to_order_total q i hi v in
      let (b, eb, hb, bt) = position_to_order_total q j hj v in
      Yields->>= (λ x. x ≡ a) (λ s. IsEdited l s.1) (position_to_order q i) _
        (Yields-some (λ x. x ≡ a) _ ea refl)
        (λ x is.
          Yields->>= (λ y. y ≡ b) (λ s. IsEdited l s.1) (position_to_order q j) _
            (Yields-some (λ y. y ≡ b) _ eb refl)
            (λ y is2.
              let hx : x < l.queue.length = omega arith in
              let hy : y < l.queue.length = omega arith in
              swapped-Edits l (record l { queue = swap_orders q x y })
                (record {
                  valid = swap_orders-IsValid q x y hx hy r v;
                  current = c.current;
                  has_current = c.has_current;
                  no_queued = λ p e. get_queued_song-none pc l p e;
                })
                refl
                (random_swap_song l i j x y c hx hy (ap l.queue.order is ∙ at)
                  (ap l.queue.order is2 ∙ bt))))

  straight_swap-Edits :
      (l : Playlist P) (i j : ℕ)
      → i < l.queue.length
      → j < l.queue.length
      → l.queue.random ≡ false
      → IsConsistent l
      → Edits l (
          commit pc
            (record l {
              queue = swap_positions l.queue i j;
              current = swapped_current l.current i j;
            })
            (get_queued_song l))
  unfolding swap_positions is_current
  straight_swap-Edits l i j hi hj r c =
      let m : Playlist P = record l {
        queue = swap_positions l.queue i j;
        current = swapped_current l.current i j;
      } in
      let song : current_song m ≡ current_song l = elim (Option-cases l.current) [
        | inl e ↦
            current_song-none m (ap (λ o. swapped_current o i j) e ∙ no_current)
            ∙ sym (current_song-none l e)
        | inr (k, e) ↦
            let hk : k < l.queue.length = subst (IsWithin l.queue.length) e c.current in
            current_song_at m (swapped_number i j k)
              (ap (λ o. swapped_current o i j) e ∙ swapped_current-some i j k)
            ∙ ap some (straight_swap_song l.queue i j k c.valid r hi hj hk)
            ∙ sym (current_song_at l k e)
      ] in
      swapped-Edits l m
        (record {
          valid = swap_positions-IsValid l.queue i j hi hj c.valid;
          current = swapped_current-IsWithin l.queue.length l.current i j hi hj c.current;
          has_current = λ p. swapped_current-IsSome l.current i j (c.has_current p);
          no_queued = λ p e. get_queued_song-none pc l p e;
        })
        refl song
    where
      no_current : swapped_current none i j ≡ none
      no_current = refl

  -- SwapPositions returns for all positions, valid or not; the playlist stays consistent, as long as it
  -- was, and its current song stays the current song.
  pub swap_list_positions-Edits :
      (l : Playlist P) (i j : ℕ) → IsConsistent l → Edits l (swap_list_positions pc l i j)
  unfolding swap_list_positions is_valid_position
  swap_list_positions-Edits l i j c =
      if_cases (Edits l) (not (ltb i l.queue.length) || not (ltb j l.queue.length))
        (λ _. IsEdited-refl l c)
        (λ valid.
          bool_cases (Edits l) l.queue.random
            (λ r. random_swap-Edits l i j (ground arith) (ground arith) r c)
            (λ r. straight_swap-Edits l i j (ground arith) (ground arith) r c))

  -- SwapIds returns for all ids, likewise.
  pub swap_ids-Edits :
      (l : Playlist P) (id1 id2 : ℕ) → IsConsistent l → Edits l (swap_ids pc l id1 id2)
  unfolding swap_ids
  swap_ids-Edits l id1 id2 c =
      option_cases (Edits l) (id_to_position l.queue.id_table id1) (λ _. IsEdited-refl l c)
        (λ song1 _.
          option_cases (Edits l) (id_to_position l.queue.id_table id2) (λ _. IsEdited-refl l c)
            (λ song2 _. swap_list_positions-Edits l song1 song2 c))
