-- ===== src/Playlist/Valid/Updates.antt =====
-- Playlist.cxx: the choice of the next song, UpdateQueuedSong.
use mpd_dsd.Prelude.{
  ℕ, ◌≡◌, ◌⊎◌, inl, inr, refl, sym, ◌∙◌, arith, ap, subst, Bool, true, false, not, ◌&&◌, Option,
  none, some, ◌>>=◌, Yields, Yields->>=, if_cases,
}
use mpd_dsd.Queue.State.{Queue}
use mpd_dsd.Queue.Valid.{IsValid}
use mpd_dsd.Playlist.State.{
  PlayerControl, Playlist, SongPointer, next_of, queue_next, reshuffle, update_queued_song,
  get_current_position, is_some,
}
use mpd_dsd.Playlist.Valid.{IsWithin, IsSome, IsConsistent}
use mpd_dsd.Playlist.Valid.Reshuffles.{
  get_next_order-IsWithin, IsReshuffled, reshuffle-IsReshuffled,
}
use mpd_dsd.Playlist.Valid.Requests.{
  IsRequested, queue_next-IsRequested, queue_next_lem, requeued-IsConsistent,
}

module _ {P : Type 0} (pc : PlayerControl P) where
  -- The state that UpdateQueuedSong expects: consistent, but `queued` may be out of date unless no song
  -- was queued.
  pub record IsReady (l : Playlist P) (prev : SongPointer) : Type 0 where
    pub valid : IsValid l.queue
    pub current : IsWithin l.queue.length l.current
    pub has_current : l.playing ≡ true → IsSome l.current
    pub no_queued : l.playing ≡ true → prev ≡ none → l.queued ≡ none

  -- What UpdateQueuedSong does: it keeps the songs and the current one, queues the next, and asks the
  -- player for it; it does nothing where nothing is played or it is postponed.
  pub record IsUpdated (l : Playlist P) (prev : SongPointer) (m : Playlist P) : Type 0 where
    pub consistent : IsConsistent m
    pub length : m.queue.length ≡ l.queue.length
    pub items : m.queue.items ≡ l.queue.items
    pub position : get_current_position m ≡ get_current_position l
    pub playing : m.playing ≡ l.playing
    pub queued :
        l.playing ≡ true
        → (prev ≡ none → l.bulk_edit ≡ false)
        → m.queued ≡ next_of l.queue l.current
    pub requested :
        l.playing ≡ true → (prev ≡ none → l.bulk_edit ≡ false) → IsRequested pc l.player prev m
    pub untouched : (l.playing ≡ false) ⊎ ((prev ≡ none) × (l.bulk_edit ≡ true)) → m ≡ l

  -- It is neither stopped nor postponed.
  abbrev IsAsked : Playlist P → SongPointer → Type 0
  IsAsked l prev = ¬ ((l.playing ≡ false) ⊎ ((prev ≡ none) × (l.bulk_edit ≡ true)))

  next_of-IsWithin :
      (q : Queue) (current : Option ℕ)
      → IsSome current
      → IsWithin q.length current
      → IsWithin q.length (next_of q current)
  unfolding next_of
  next_of-IsWithin q none s w = elim s [ ]
  next_of-IsWithin q (some order) s w = get_next_order-IsWithin q order w

  -- Without a shuffle.
  requeued-IsUpdated :
      (l : Playlist P) (prev : SongPointer)
      → IsReady l prev
      → l.playing ≡ true
      → IsAsked l prev
      → IsUpdated l prev (queue_next pc l prev (next_of l.queue l.current))
  unfolding get_current_position
  requeued-IsUpdated l prev r playing asked =
      let f = queue_next_lem pc l prev (next_of l.queue l.current) (r.no_queued playing) in
      let s = r.has_current playing in
      record {
        consistent =
            requeued-IsConsistent pc l _ _ r.valid r.current s
              (next_of-IsWithin l.queue l.current s r.current) f;
        length = ap (λ q. q.length) f.queue;
        items = ap (λ q. q.items) f.queue;
        position = rw (f.queue, f.current);
        playing = f.playing;
        queued = λ _ _. f.queued;
        requested = λ _ _.
            queue_next-IsRequested pc l prev (next_of l.queue l.current) (r.no_queued playing);
        untouched = λ w. absurd (asked w);
      }

  -- With a shuffle.
  reshuffled-IsUpdated :
      (l m : Playlist P) (prev : SongPointer)
      → IsReady l prev
      → l.playing ≡ true
      → IsAsked l prev
      → IsReshuffled l m
      → IsUpdated l prev (queue_next pc m prev (next_of l.queue l.current))
  unfolding get_current_position
  reshuffled-IsUpdated l m prev r playing asked t =
      let f =
        queue_next_lem pc m prev (next_of l.queue l.current)
          (λ e. t.queued ∙ r.no_queued playing e) in
      let next = next_of-IsWithin l.queue l.current (r.has_current playing) r.current in
      record {
        consistent =
            requeued-IsConsistent pc m _ _ t.valid t.current t.has_current
              (subst (λ n. IsWithin n (next_of l.queue l.current)) (sym t.length) next) f;
        length = ap (λ q. q.length) f.queue ∙ t.length;
        items = ap (λ q. q.items) f.queue ∙ t.items;
        position = rw (f.queue, f.current) t.position;
        playing = f.playing ∙ t.playing;
        queued = λ _ _. f.queued;
        requested = λ _ _.
            subst (λ p. IsRequested pc p prev (queue_next pc m prev (next_of l.queue l.current)))
              t.player
              (queue_next-IsRequested pc m prev (next_of l.queue l.current)
                (λ e. t.queued ∙ r.no_queued playing e));
        untouched = λ w. absurd (asked w);
      }

  next_queued :
      (l : Playlist P) (prev : SongPointer) (shuffles : Bool)
      → IsReady l prev
      → l.playing ≡ true
      → IsAsked l prev
      → (shuffles ≡ true → l.queue.random ≡ true)
      → Yields (IsUpdated l prev) (elim shuffles [
        | false ↦ some (queue_next pc l prev (next_of l.queue l.current))
        | true ↦ do l1 ← reshuffle l; some (queue_next pc l1 prev (next_of l.queue l.current))
      ])
  next_queued l prev false r playing asked random = requeued-IsUpdated l prev r playing asked
  next_queued l prev true r playing asked random =
      Yields->>= (IsReshuffled l) (IsUpdated l prev) (reshuffle l) _
        (reshuffle-IsReshuffled l r.valid r.current (r.has_current playing) (random refl))
        (λ m t. reshuffled-IsUpdated l m prev r playing asked t)

  none_of : (o : Option ℕ) → is_some o ≡ false → o ≡ none
  unfolding is_some
  none_of none e = refl
  none_of (some a) e = absurd (ground arith)

  -- In bulk mode, with no song queued, nothing is done.
  postponed-IsUpdated :
      (l : Playlist P) (prev : SongPointer)
      → IsReady l prev
      → l.playing ≡ true
      → prev ≡ none
      → l.bulk_edit ≡ true
      → IsUpdated l prev l
  postponed-IsUpdated l prev r playing e bulk = record {
    consistent = record {
      valid = r.valid;
      current = r.current;
      has_current = r.has_current;
      queued = λ p. subst (IsWithin l.queue.length) (sym (r.no_queued p e)) tt;
    };
    length = refl;
    items = refl;
    position = refl;
    playing = refl;
    queued = λ _ f. let single = f e in absurd (ground arith);
    requested = λ _ f. let single = f e in absurd (ground arith);
    untouched = λ _. refl;
  }

  -- UpdateQueuedSong of a playlist that is ready for it (a valid queue, a current order number
  -- within it, and no song queued where none was) returns, for every player. It makes the playlist
  -- consistent and keeps the songs and the current one, though it may shuffle the order. Where
  -- nothing is played or, in bulk mode, no song was queued, nothing changes, also of the player.
  -- Else it queues the song that follows, and asks the player for nothing if that song was queued
  -- before; if not, to cancel the song that was queued, if there was one, and then to play a copy of
  -- the one that is queued now, if there is one.
  pub update_queued_song_correct :
      (l : Playlist P) (prev : SongPointer)
      → IsReady l prev
      → Yields (IsUpdated l prev) (update_queued_song pc l prev)
  unfolding update_queued_song
  update_queued_song_correct l prev r =
      if_cases (Yields (IsUpdated l prev)) (not l.playing)
        (λ stopped. record {
          consistent = record {
            valid = r.valid;
            current = r.current;
            has_current = r.has_current;
            queued = λ p. absurd (ground arith);
          };
          length = refl;
          items = refl;
          position = refl;
          playing = refl;
          queued = λ p _. absurd (ground arith);
          requested = λ p _. absurd (ground arith);
          untouched = λ _. refl;
        })
        (λ playing.
          if_cases (Yields (IsUpdated l prev)) (not (is_some prev) && l.bulk_edit)
            (λ bulk.
              postponed-IsUpdated l prev r (ground arith) (none_of prev (ground arith))
                (ground arith))
            (λ asks.
              next_queued l prev _ r (ground arith) (not_asked prev (ground arith) asks)
                (λ e. ground arith)))
    where
      not_asked :
          (prev : SongPointer)
          → l.playing ≡ true
          → (not (is_some prev) && l.bulk_edit) ≡ false
          → IsAsked l prev
      not_asked prev p b (inl e) = ground (arith, p, e)
      not_asked prev p b (inr (n, e)) = ground (arith, b, ap is_some n, e)
