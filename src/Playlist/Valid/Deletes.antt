-- ===== src/Playlist/Valid/Deletes.antt =====
-- PlaylistEdit.cxx: removing songs keeps the playlist consistent, also the song that is being played.
use mpd_dsd.Prelude.{
  ℕ, zero, suc, ◌+◌, ◌-◌, ◌<◌, ◌≤◌, ◌≡◌, refl, sym, ◌∙◌, arith, ap, subst, Bool, true, false, not,
  ◌&&◌, Option, none, some, ltb, leb, if◌then◌else◌, Yields, Yields-map, Yields->>=, Yields-some,
  if_cases, option_cases,
}
use mpd_dsd.IdTable.{id_to_position}
use mpd_dsd.Queue.State.{Queue, get_next_order, position_to_order}
use mpd_dsd.Queue.Move.{delete_position}
use mpd_dsd.Queue.Valid.{IsValid}
use mpd_dsd.Queue.Valid.Deletes.{delete_position-IsValid}
use mpd_dsd.Queue.Valid.Priorities.{position_to_order_total}
use mpd_dsd.Playlist.State.{
  PlayerControl, Playlist, SongPointer, play_order, get_queued_song, is_current,
}
use mpd_dsd.Playlist.Edit.{commit}
use mpd_dsd.Playlist.Deletes.{
  is_pause, leave_current, decrement_above, delete_internal, delete_list_position, delete_id,
  delete_songs, delete_range,
}
use mpd_dsd.Playlist.Valid.{IsWithin, IsSome, IsConsistent}
use mpd_dsd.Playlist.Valid.Reshuffles.{get_next_order-IsWithin}
use mpd_dsd.Playlist.Valid.Updates.{IsReady}
use mpd_dsd.Playlist.Valid.Commits.{IsEdited, commit_correct, get_queued_song-none}
use mpd_dsd.Playlist.Valid.Control.{Keeps}

decrement_above-IsWithin :
    (n k : ℕ) (current : Option ℕ)
    → k < suc n
    → IsWithin (suc n) current
    → is_current current k ≡ false
    → IsWithin n (decrement_above k current)
unfolding decrement_above is_current
decrement_above-IsWithin n k none hk w e = tt
decrement_above-IsWithin n k (some c) hk w e = ground arith

decrement_above-IsSome :
    (k : ℕ) (current : Option ℕ) → IsSome current → IsSome (decrement_above k current)
unfolding decrement_above
decrement_above-IsSome k none s = s
decrement_above-IsSome k (some c) s = ground arith

module _ {P : Type 0} (pc : PlayerControl P) where
  -- The playlist before the song at order number `k` is removed: it is not the current one any more.
  record IsLeft (l : Playlist P) (k : ℕ) (queued : SongPointer) (m : Playlist P) : Type 0 where
    queue : m.queue ≡ l.queue
    current : IsWithin l.queue.length m.current
    other : is_current m.current k ≡ false
    has_current : m.playing ≡ true → IsSome m.current
    no_queued : m.playing ≡ true → queued ≡ none → m.queued ≡ none

  next_other :
      (q : Queue) (k : ℕ)
      → k < q.length
      → (λ (o : Option ℕ). IsWithin q.length o × (is_current o k ≡ false))
          (if is_current (get_next_order q k) k then none else get_next_order q k)
  unfolding is_current
  next_other q k h =
      if_cases (λ (o : Option ℕ). IsWithin q.length o × (is_current o k ≡ false))
        (is_current (get_next_order q k) k) (λ _. (tt, refl))
        (λ e. (get_next_order-IsWithin q k h, e))

  leave_current-IsLeft :
      (l : Playlist P) (k : ℕ) → k < l.queue.length → IsLeft l k none (leave_current pc l k)
  unfolding leave_current play_order is_current
  leave_current-IsLeft l k h =
      let (w, other) = next_other l.queue k h in
      let next =
        if is_current (get_next_order l.queue k) k then none else get_next_order l.queue k in
      option_cases (IsLeft l k none) next
        (λ e. record {
          queue = refl;
          current = tt;
          other = refl;
          has_current = λ p. absurd (ground arith);
          no_queued = λ p. absurd (ground arith);
        })
        (λ order e.
          let at : order < l.queue.length = subst (IsWithin l.queue.length) e w in
          let differs : is_current (some order) k ≡ false =
            subst (λ o. is_current o k ≡ false) e other in
          if_cases (IsLeft l k none) (not (is_pause (pc.get_state l.player)))
            (λ _. record {
              queue = refl;
              current = at;
              other = differs;
              has_current = λ _. tt;
              no_queued = λ _ _. refl;
            })
            (λ _. record {
              queue = refl;
              current = at;
              other = differs;
              has_current = λ p. absurd (ground arith);
              no_queued = λ p. absurd (ground arith);
            }))

  released-IsLeft :
      (l : Playlist P) (k : ℕ) (queued : SongPointer) (playing here : Bool)
      → k < l.queue.length
      → IsReady pc l queued
      → l.playing ≡ playing
      → is_current l.current k ≡ here
      → IsLeft l k (if playing && here then none else queued) (
          if playing && here
          then leave_current pc l k
          else if here
          then record l { current = none }
          else l)
  unfolding is_current
  released-IsLeft l k queued true true h r ep eh = leave_current-IsLeft l k h
  released-IsLeft l k queued false true h r ep eh = record {
    queue = refl;
    current = tt;
    other = refl;
    has_current = λ p. absurd (ground arith);
    no_queued = λ p. absurd (ground arith);
  }
  released-IsLeft l k queued true false h r ep eh = record {
    queue = refl;
    current = r.current;
    other = eh;
    has_current = r.has_current;
    no_queued = r.no_queued;
  }
  released-IsLeft l k queued false false h r ep eh = record {
    queue = refl;
    current = r.current;
    other = eh;
    has_current = r.has_current;
    no_queued = r.no_queued;
  }

  -- The playlist is ready for UpdateQueuedSong, and shorter by one.
  abbrev IsShorter : Playlist P → Playlist P × SongPointer → Type 0
  IsShorter l r = IsReady pc r.0 r.1 × (r.0.queue.length + 1 ≡ l.queue.length)

  removed-IsShorter :
      (l m : Playlist P) (k : ℕ) (queued : SongPointer) (q : Queue)
      → k < l.queue.length
      → IsLeft l k queued m
      → IsValid q
      → q.length + 1 ≡ l.queue.length
      → IsShorter l (record m { queue = q; current = decrement_above k m.current }, queued)
  removed-IsShorter l m k queued q hk left v n = (
    record {
      valid = v;
      current =
          decrement_above-IsWithin q.length k m.current (omega arith)
            (subst (λ j. IsWithin j m.current) (omega arith) left.current) left.other;
      has_current = λ p. decrement_above-IsSome k m.current (left.has_current p);
      no_queued = left.no_queued;
    },
    n,
  )

  delete_internal-IsShorter :
      (l : Playlist P) (song : ℕ) (queued : SongPointer)
      → song < l.queue.length
      → IsReady pc l queued
      → Yields (IsShorter l) (delete_internal pc l song queued)
  unfolding delete_internal
  delete_internal-IsShorter l song queued h r =
      let (k, e, hk, at) = position_to_order_total l.queue song h r.valid in
      Yields->>= (λ j. j ≡ k) (IsShorter l) (position_to_order l.queue song) _
        (Yields-some (λ j. j ≡ k) _ e refl)
        (λ j same.
          let hj : j < l.queue.length = omega arith in
          let here = is_current l.current j in
          let left = released-IsLeft l j queued l.playing here hj r refl refl in
          let l1 : Playlist P =
            if l.playing && here
            then leave_current pc l j
            else if here
            then record l { current = none }
            else l in
          let (q, eq, v, n) =
            delete_position-IsValid l1.queue song (rw left.queue h) (rw left.queue r.valid) in
          Yields->>= (λ s. s ≡ q) (IsShorter l) (delete_position l1.queue song) _
            (Yields-some (λ s. s ≡ q) _ eq refl)
            (λ s is.
              removed-IsShorter l l1 j _ s hj left (subst IsValid (sym is) v)
                (ap (λ t. t.length + 1) is ∙ n ∙ ap (λ t. t.length) left.queue)))

  pub committed :
      (l : Playlist P) (prev : SongPointer) → IsReady pc l prev → Keeps pc (commit pc l prev)
  committed l prev r =
      Yields-map (λ s. IsEdited l s.1) (λ s. IsConsistent s.1) (commit pc l prev)
        (commit_correct pc l prev r) (λ s e. e.consistent)

  pub consistent-IsReady : (l : Playlist P) → IsConsistent l → IsReady pc l (get_queued_song l)
  consistent-IsReady l c = record {
    valid = c.valid;
    current = c.current;
    has_current = c.has_current;
    no_queued = λ p e. get_queued_song-none pc l p e;
  }

  -- DeletePosition returns for every position, valid or not, and keeps the playlist consistent, though
  -- the song is the current or the queued one.
  pub delete_list_position-IsConsistent :
      (l : Playlist P) (song : ℕ) → IsConsistent l → Keeps pc (delete_list_position pc l song)
  unfolding delete_list_position
  delete_list_position-IsConsistent l song c =
      if_cases (Keeps pc) (leb l.queue.length song) (λ _. c)
        (λ valid.
          Yields->>= (IsShorter l) (λ s. IsConsistent s.1)
            (delete_internal pc l song (get_queued_song l)) _
            (delete_internal-IsShorter l song (get_queued_song l) (ground arith)
              (consistent-IsReady l c))
            (λ s t. committed s.0 s.1 t.0))

  pub delete_id-IsConsistent :
      (l : Playlist P) (id : ℕ) → IsConsistent l → Keeps pc (delete_id pc l id)
  unfolding delete_id
  delete_id-IsConsistent l id c =
      option_cases (Keeps pc) (id_to_position l.queue.id_table id) (λ _. c)
        (λ song _. delete_list_position-IsConsistent l song c)

  delete_songs-IsReady :
      (left start : ℕ) (l : Playlist P) (queued : SongPointer)
      → start + left ≤ l.queue.length
      → IsReady pc l queued
      → Yields {A = Playlist P × SongPointer}
          (λ r. IsReady pc r.0 r.1)
          (delete_songs pc left start l queued)
  unfolding delete_songs
  delete_songs-IsReady zero start l queued h r = r
  delete_songs-IsReady (suc left) start l queued h r =
      Yields->>= (IsShorter l) (λ s. IsReady pc s.0 s.1)
        (delete_internal pc l (start + left) queued) _
        (delete_internal-IsShorter l (start + left) queued (omega arith) r)
        (λ s t. delete_songs-IsReady left start s.0 s.1 (omega (arith, t.1)) t.0)

  -- DeleteRange on a consistent playlist returns for every range, and the playlist stays consistent,
  -- also where the current or the queued song is removed.
  pub delete_range-IsConsistent :
      (l : Playlist P) (start end : ℕ) → IsConsistent l → Keeps pc (delete_range pc l start end)
  unfolding delete_range
  delete_range-IsConsistent l start end0 c =
      let end = if ltb l.queue.length end0 then l.queue.length else end0 in
      if_cases (Keeps pc) (leb l.queue.length start) (λ _. c)
        (λ _.
          if_cases (Keeps pc) (leb end start) (λ _. c)
            (λ some_songs.
              Yields->>= (λ s. IsReady pc s.0 s.1) (λ s. IsConsistent s.1)
                (delete_songs pc (end - start) start l (get_queued_song l)) _
                (delete_songs-IsReady (end - start) start l (get_queued_song l) (ground arith)
                  (consistent-IsReady l c))
                (λ s t. committed s.0 s.1 t)))
