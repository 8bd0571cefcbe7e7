-- ===== src/Playlist/Valid/Moves.antt =====
-- PlaylistEdit.cxx, MoveRange: the current song stays the current song, but where the correction of the
-- current order number misses it.
use mpd_dsd.Prelude.{
  ℕ, ◌+◌, ◌-◌, ◌<◌, ◌≤◌, ◌≡◌, sym, ◌∙◌, arith, ap, subst, Bool, true, false, ◌↔◌, Option, none,
  some, if◌then◌else◌, Yields-map, if_cases, Bool-cases, Option-cases, inl, inr,
}
use mpd_dsd.Queue.State.{Queue, get_order_item}
use mpd_dsd.Queue.Move.{move_range, moved_range, map_order}
use mpd_dsd.Queue.Valid.{IsValid}
use mpd_dsd.Queue.Valid.Blocks.{block_moved-SameFrame, move_range-IsValid}
use mpd_dsd.Queue.Songs.{move_range_songs, order_kept}
use mpd_dsd.Playlist.State.{PlayerControl, Playlist, get_queued_song}
use mpd_dsd.Playlist.Moves.{move_block, moved_current, relative_target}
use mpd_dsd.Playlist.Valid.{IsWithin, IsSome, IsConsistent}
use mpd_dsd.Playlist.Valid.Updates.{IsReady}
use mpd_dsd.Playlist.Valid.Commits.{
  IsEdited, Edits, current_song, current_song_at, current_song-none, commit_correct,
  get_queued_song-none,
}

-- Between the destination and the end of the moved block, behind the songs that were passed over.
abbrev pub IsMissed : ℕ → ℕ → ℕ → ℕ → Type 0
IsMissed start end to c = (end ≤ c) × (to < c) × (c < to + (end - start))

-- Without random mode MoveRange of a nonempty block corrects the current order number to the new
-- position of its song if, and only if, the number is not at or behind the end of the block, behind
-- the destination and in front of the end of the moved block.
pub moved_current_iff :
    (start end to c : ℕ)
    → start < end
    → (moved_current start end to c ≡ moved_range start end to c) ↔ (¬ IsMissed start end to c)
unfolding moved_current moved_range
moved_current_iff start end to c h = (λ e m. ground arith, λ n. ground arith)

-- A destination relative to the current song leaves room for a single song.
pub relative_target_fits :
    (length start position n : ℕ)
    → start < length
    → relative_target length start position n + 1 ≤ length
unfolding relative_target
relative_target_fits length start position n h = ground arith

moved_current-Below :
    (length start end to c : ℕ)
    → start < end
    → end ≤ length
    → to + (end - start) ≤ length
    → c < length
    → moved_current start end to c < length
unfolding moved_current
moved_current-Below length start end to c h1 h2 h3 h4 = ground arith

move_range_length : (q : Queue) (start end to : ℕ) → (move_range q start end to).length ≡ q.length
unfolding move_range map_order
move_range_length q start end to =
    let frame = block_moved-SameFrame q start (end - start) to (λ k. q.items (start + k)) in
    if_cases (λ (r : Queue). r.length ≡ q.length) q.random (λ _. frame.length) (λ _. frame.length)

move_range_random : (q : Queue) (start end to : ℕ) → (move_range q start end to).random ≡ q.random
unfolding move_range map_order
move_range_random q start end to =
    let frame = block_moved-SameFrame q start (end - start) to (λ k. q.items (start + k)) in
    if_cases (λ (r : Queue). r.random ≡ q.random) q.random (λ _. frame.random) (λ _. frame.random)

move_range_straight :
    (q : Queue) (start end to i : ℕ)
    → q.random ≡ false
    → i < q.length
    → (move_range q start end to).order i ≡ q.order i
unfolding move_range map_order
move_range_straight q start end to i s h =
    let frame = block_moved-SameFrame q start (end - start) to (λ k. q.items (start + k)) in
    if_cases (λ (r : Queue). r.order i ≡ q.order i) q.random (λ t. absurd (ground arith))
      (λ _. ap (λ order. order i) frame.order)

-- The current order number after MoveRange.
abbrev kept_current : Bool → ℕ → ℕ → ℕ → Option ℕ → Option ℕ
kept_current random start end to current =
    if random
    then current
    else elim current [ none ↦ none | some c ↦ some (moved_current start end to c) ]

kept_current-IsWithin :
    (random : Bool) (length start end to : ℕ) (current : Option ℕ)
    → start < end
    → end ≤ length
    → to + (end - start) ≤ length
    → IsWithin length current
    → IsWithin length (kept_current random start end to current)
kept_current-IsWithin true length start end to current h1 h2 h3 w = w
kept_current-IsWithin false length start end to none h1 h2 h3 w = tt
kept_current-IsWithin false length start end to (some c) h1 h2 h3 w =
    moved_current-Below length start end to c h1 h2 h3 w

kept_current-IsSome :
    (random : Bool) (start end to : ℕ) (current : Option ℕ)
    → IsSome current
    → IsSome (kept_current random start end to current)
kept_current-IsSome true start end to current s = s
kept_current-IsSome false start end to (some c) s = tt
kept_current-IsSome false start end to none s = s

module _ {P : Type 0} (pc : PlayerControl P) where
  -- The playlist of MoveRange before the next song is queued.
  abbrev block_list : Playlist P → ℕ → ℕ → ℕ → Playlist P
  block_list l start end to = record l {
    queue = move_range l.queue start end to;
    current =
        if l.queue.random
        then l.current
        else elim l.current [ none ↦ none | some c ↦ some (moved_current start end to c) ];
  }

  block_list-IsReady :
      (l : Playlist P) (start end to : ℕ)
      → start < end
      → end ≤ l.queue.length
      → to + (end - start) ≤ l.queue.length
      → IsConsistent l
      → IsReady pc (block_list l start end to) (get_queued_song l)
  block_list-IsReady l start end to h1 h2 h3 c = record {
    valid = move_range-IsValid l.queue start end to h1 h2 h3 c.valid;
    current =
        subst (λ n. IsWithin n (kept_current l.queue.random start end to l.current))
          (sym (move_range_length l.queue start end to))
          (kept_current-IsWithin l.queue.random l.queue.length start end to l.current h1 h2 h3
            c.current);
    has_current = λ p. kept_current-IsSome l.queue.random start end to l.current (c.has_current p);
    no_queued = λ p e. get_queued_song-none pc l p e;
  }

  -- Without random mode the song at `k` is at the corrected number.
  straight_song :
      (q : Queue) (start end to k : ℕ)
      → start < end
      → end ≤ q.length
      → to + (end - start) ≤ q.length
      → IsValid q
      → q.random ≡ false
      → k < q.length
      → ¬ IsMissed start end to k
      → ((move_range q start end to).items
          ((move_range q start end to).order (moved_current start end to k))).id
        ≡ (q.items (q.order k)).id
  straight_song q start end to k h1 h2 h3 v r hk unmissed =
      let below = moved_current-Below q.length start end to k h1 h2 h3 hk in
      let at : (move_range q start end to).order (moved_current start end to k)
          ≡ moved_range start end to k =
        move_range_straight q start end to _ r below
        ∙ v.straight r _ below
        ∙ (moved_current_iff start end to k h1).1 unmissed in
      ap (λ p. ((move_range q start end to).items p).id) at
      ∙ (move_range_songs q start end to k h1).id
      ∙ ap (λ p. (q.items p).id) (sym (v.straight r k hk))

  -- The current song of that playlist.
  block_list_song :
      (l : Playlist P) (start end to : ℕ)
      → start < end
      → end ≤ l.queue.length
      → to + (end - start) ≤ l.queue.length
      → IsConsistent l
      → ((c : ℕ) → l.queue.random ≡ false → l.current ≡ some c → ¬ IsMissed start end to c)
      → current_song (block_list l start end to) ≡ current_song l
  unfolding get_order_item
  block_list_song l start end to h1 h2 h3 c unmissed =
      let m = block_list l start end to in
      elim (Option-cases l.current) [
        | inl e ↦
            let e2 : m.current ≡ none =
              if_cases (λ o. o ≡ none) l.queue.random (λ _. e) (λ _. rw e) in
            current_song-none m e2 ∙ sym (current_song-none l e)
        | inr (k, e) ↦
            let hk : k < l.queue.length = subst (IsWithin l.queue.length) e c.current in
            elim (Bool-cases l.queue.random) [
              | inl r ↦
                  let e2 : m.current ≡ some k = rw (r, e) in
                  current_song_at m k e2
                  ∙ ap some (order_kept l.queue start end to k h1 r hk).id
                  ∙ sym (current_song_at l k e)
              | inr r ↦
                  let e2 : m.current ≡ some (moved_current start end to k) = rw (r, e) in
                  current_song_at m _ e2
                  ∙ ap some
                      (straight_song l.queue start end to k h1 h2 h3 c.valid r hk (unmissed k r e))
                  ∙ sym (current_song_at l k e)
            ]
      ]

  -- MoveRange of a block within the queue, to a destination with room for it, returns. The playlist
  -- stays consistent, as long as it was, and its current song stays the current song, but where
  -- the correction of the current order number misses it.
  pub move_block_correct :
      (l : Playlist P) (start end to : ℕ)
      → start < end
      → end ≤ l.queue.length
      → to + (end - start) ≤ l.queue.length
      → IsConsistent l
      → ((c : ℕ) → l.queue.random ≡ false → l.current ≡ some c → ¬ IsMissed start end to c)
      → Edits l (move_block pc l start end to)
  unfolding move_block
  move_block_correct l start end to h1 h2 h3 c unmissed =
      Yields-map (λ r. IsEdited (block_list l start end to) r.1) (λ r. IsEdited l r.1) _
        (commit_correct pc (block_list l start end to) (get_queued_song l)
          (block_list-IsReady l start end to h1 h2 h3 c))
        (λ r e. record {
          consistent = e.consistent;
          length = e.length ∙ move_range_length l.queue start end to;
          song = e.song ∙ block_list_song l start end to h1 h2 h3 c unmissed;
        })
