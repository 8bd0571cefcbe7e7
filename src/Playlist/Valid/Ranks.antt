-- ===== src/Playlist/Valid/Ranks.antt =====
-- PlaylistEdit.cxx, SetPriorityRange and SetPriorityId: the current song stays the current song.
use mpd_dsd.Prelude.{
  ◌+◌, ℕ, ◌≡◌, refl, sym, ◌∙◌, arith, ap, subst, Option, none, some, ltb, leb, if◌then◌else◌, ◌>>=◌,
  Yields, Yields-map, Yields->>=, Yields-some, if_cases, option_cases, Option-cases, inl, inr,
}
use mpd_dsd.IdTable.{id_to_position}
use mpd_dsd.Queue.State.{Queue, position_to_order}
use mpd_dsd.Queue.Order.{set_priority_range, first_after}
use mpd_dsd.Queue.Valid.{IsValid}
use mpd_dsd.Queue.Valid.Priorities.{ValidAfter, position_to_order_total, set_priority_range-IsValid}
use mpd_dsd.Playlist.State.{PlayerControl, Playlist, get_queued_song, get_current_position}
use mpd_dsd.Playlist.Edit.{commit}
use mpd_dsd.Playlist.Moves.{set_list_priority_range, set_priority_id, restore_current}
use mpd_dsd.Playlist.Valid.{IsWithin, IsSome, IsConsistent}
use mpd_dsd.Playlist.Valid.Commits.{
  IsEdited, Edits, IsEdited-refl, current_song_same, commit_correct, get_queued_song-none,
}

within-ValidAfter : (q : Queue) (o : Option ℕ) → IsWithin q.length o → ValidAfter q o
unfolding first_after
within-ValidAfter q none w = omega arith
within-ValidAfter q (some k) w = omega arith

module _ {P : Type 0} (pc : PlayerControl P) where
  -- The current order number is that of the given position again.
  record IsRestored (l : Playlist P) (at : Option ℕ) (m : Playlist P) : Type 0 where
    queue : m.queue ≡ l.queue
    playing : m.playing ≡ l.playing
    queued : m.queued ≡ l.queued
    current : IsWithin m.queue.length m.current
    has_current : IsSome at → IsSome m.current
    position : get_current_position m ≡ at

  restore_current-IsRestored :
      (l : Playlist P) (at : Option ℕ)
      → IsValid l.queue
      → IsWithin l.queue.length at
      → (at ≡ none → l.current ≡ none)
      → Yields (IsRestored l at) (restore_current pc l at)
  unfolding restore_current get_current_position
  restore_current-IsRestored l none v w e = record {
    queue = refl;
    playing = refl;
    queued = refl;
    current = subst (IsWithin l.queue.length) (sym (e refl)) tt;
    has_current = λ s. absurd s;
    position = rw (e refl);
  }
  restore_current-IsRestored l (some p) v w e =
      let (k, ek, hk, at) = position_to_order_total l.queue p w v in
      Yields->>= (λ j. j ≡ k) (IsRestored l (some p)) (position_to_order l.queue p) _
        (Yields-some (λ j. j ≡ k) _ ek refl)
        (λ j same. record {
          queue = refl;
          playing = refl;
          queued = refl;
          current = omega arith;
          has_current = λ _. tt;
          position = ap some (ap l.queue.order same ∙ at);
        })

  current_position-IsWithin :
      (l : Playlist P) → IsConsistent l → IsWithin l.queue.length (get_current_position l)
  unfolding get_current_position
  current_position-IsWithin l c =
      option_cases (IsWithin l.queue.length) l.current (λ _. tt)
        (λ k at. c.valid.ordered.below k (subst (IsWithin l.queue.length) at c.current))

  current_position-IsSome : (l : Playlist P) → IsSome l.current → IsSome (get_current_position l)
  unfolding get_current_position
  current_position-IsSome l s =
      option_cases IsSome l.current (λ missing. subst IsSome missing s) (λ _ _. tt)

  current_position_none : (l : Playlist P) → get_current_position l ≡ none → l.current ≡ none
  current_position_none l e = elim (Option-cases l.current) [
    | inl missing ↦ missing
    | inr (k, at) ↦ absurd (subst IsSome e (current_position-IsSome l (subst IsSome (sym at) tt)))
  ]

  -- The end of SetPriorityRange, for a queue with the same songs in another order.
  ranked-Edits :
      (l : Playlist P) (q : Queue)
      → IsConsistent l
      → IsValid q
      → q.length ≡ l.queue.length
      → ((p : ℕ) → (q.items p).id ≡ (l.queue.items p).id)
      → Edits l (
          restore_current pc (record l { queue = q }) (get_current_position l)
          >>= (λ m. commit pc m (get_queued_song l)))
  ranked-Edits l q c v n ids =
      let l1 : Playlist P = record l { queue = q } in
      let at = get_current_position l in
      Yields->>= (IsRestored l1 at) (λ s. IsEdited l s.1) (restore_current pc l1 at) _
        (restore_current-IsRestored l1 at v
          (subst (λ j. IsWithin j at) (sym n) (current_position-IsWithin l c))
          (current_position_none l))
        (λ m t.
          Yields-map (λ s. IsEdited m s.1) (λ s. IsEdited l s.1) (commit pc m (get_queued_song l))
            (commit_correct pc m (get_queued_song l) (record {
              valid = subst IsValid (sym t.queue) v;
              current = t.current;
              has_current = λ p.
                  t.has_current (current_position-IsSome l (c.has_current (sym t.playing ∙ p)));
              no_queued = λ p e. t.queued ∙ get_queued_song-none pc l (sym t.playing ∙ p) e;
            }))
            (λ s e. record {
              consistent = e.consistent;
              length = e.length ∙ ap (λ r. r.length) t.queue ∙ n;
              song =
                  e.song
                  ∙ current_song_same l m (λ p. ap (λ (r : Queue). (r.items p).id) t.queue ∙ ids p)
                      t.position;
            }))

  -- SetPriorityRange on a consistent playlist returns for every range; the playlist stays
  -- consistent, as long as it was, and its current song stays the current song.
  pub set_list_priority_range-IsEdited :
      (l : Playlist P) (start end priority : ℕ)
      → IsConsistent l
      → Edits l (set_list_priority_range pc l start end priority)
  unfolding set_list_priority_range
  set_list_priority_range-IsEdited l start end0 priority c =
      let end = if ltb l.queue.length end0 then l.queue.length else end0 in
      if_cases (Edits l) (leb l.queue.length start) (λ _. IsEdited-refl l c)
        (λ _.
          if_cases (Edits l) (leb end start) (λ _. IsEdited-refl l c)
            (λ some_songs.
              let (changed, q, eq, v, n, ids) =
                set_priority_range-IsValid l.queue start end priority l.current (ground arith)
                  (ground arith) (within-ValidAfter l.queue l.current c.current) c.valid in
              Yields->>= (λ s. s ≡ (changed, q)) (λ s. IsEdited l s.1)
                (set_priority_range l.queue start end priority l.current) _
                (Yields-some (λ s. s ≡ (changed, q)) _ eq refl)
                (λ s is.
                  ranked-Edits l s.1 c (subst (λ t. IsValid t.1) (sym is) v)
                    (ap (λ t. t.1.length) is ∙ n) (λ p. ap (λ t. (t.1.items p).id) is ∙ ids p))))

  -- SetPriorityId returns for every id, likewise.
  pub set_priority_id-IsEdited :
      (l : Playlist P) (id priority : ℕ)
      → IsConsistent l
      → Edits l (set_priority_id pc l id priority)
  unfolding set_priority_id
  set_priority_id-IsEdited l id priority c =
      option_cases (Edits l) (id_to_position l.queue.id_table id) (λ _. IsEdited-refl l c)
        (λ position _. set_list_priority_range-IsEdited l position (position + 1) priority c)
