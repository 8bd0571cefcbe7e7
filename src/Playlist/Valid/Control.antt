-- ===== src/Playlist/Valid/Control.antt =====
-- PlaylistControl.cxx, starting and stopping playback, and the invariant of the playlist.
use mpd_dsd.Prelude.{
  ℕ, ◌<◌, ◌≡◌, refl, sym, arith, ap, subst, true, false, not, Option, none, some, ltb,
  if◌then◌else◌, ◌==◌, ◌>>=◌, Yields, Yields-map, Yields->>=, if_cases, option_cases, bool_cases,
}
use mpd_dsd.IdTable.{id_to_position}
use mpd_dsd.Queue.State.{is_valid_position}
use mpd_dsd.Queue.Valid.{IsValid}
use mpd_dsd.Queue.Valid.Deletes.{swap_orders-IsValid}
use mpd_dsd.Queue.Valid.Priorities.{position_to_order_total}
use mpd_dsd.Playlist.State.{PlayerControl, PlaylistResult, Playlist, play_order, reshuffle}
use mpd_dsd.Playlist.Control.{
  stop, play_position, play_id, play_previous, start_song, start_random, first_order,
}
use mpd_dsd.Playlist.Valid.{IsWithin, IsSome, IsConsistent}
use mpd_dsd.Playlist.Valid.Reshuffles.{IsReshuffled, reshuffle-IsReshuffled}
use mpd_dsd.Playlist.Valid.Commits.{current_song, current_song_same}

module _ {P : Type 0} (pc : PlayerControl P) where
  -- Nothing is played, and the current song is as before.
  pub record IsStopped (l m : Playlist P) : Type 0 where
    pub consistent : IsConsistent m
    pub playing : m.playing ≡ false
    pub length : m.queue.length ≡ l.queue.length
    pub song : current_song m ≡ current_song l

  pub stopped-IsConsistent :
      (m : Playlist P)
      → IsValid m.queue
      → IsWithin m.queue.length m.current
      → m.playing ≡ false
      → IsConsistent m
  stopped-IsConsistent m v w e = record {
    valid = v;
    current = w;
    has_current = λ p. absurd (ground arith);
    queued = λ p. absurd (ground arith);
  }

  -- Stop returns: nothing is played then, the playlist stays consistent, and its current song stays the
  -- current song, though the order is shuffled in random mode.
  pub stop-IsStopped : (l : Playlist P) → IsConsistent l → Yields (IsStopped l) (stop pc l)
  unfolding stop current_song
  stop-IsStopped l c =
      let l1 : Playlist P = record l {
        player = pc.stop l.player;
        queued = none;
        playing = false;
      } in
      if_cases (Yields (IsStopped l)) (not l.playing)
        (λ e. record { consistent = c; playing = ground arith; length = refl; song = refl })
        (λ e.
          bool_cases (Yields (IsStopped l)) l.queue.random
            (λ r.
              Yields-map (IsReshuffled l1) (IsStopped l) (reshuffle l1)
                (reshuffle-IsReshuffled l1 c.valid c.current (c.has_current (ground arith)) r)
                (λ m t. record {
                  consistent = stopped-IsConsistent m t.valid t.current t.playing;
                  playing = t.playing;
                  length = t.length;
                  song =
                      current_song_same l1 m (λ p. ap (λ items. (items p).id) t.items) t.position;
                }))
            (λ r. record {
              consistent = stopped-IsConsistent l1 c.valid c.current refl;
              playing = refl;
              length = refl;
              song = refl;
            }))

  pub play_order-IsConsistent :
      (l : Playlist P) (order : ℕ)
      → IsValid l.queue
      → order < l.queue.length
      → IsConsistent (play_order pc l order)
  unfolding play_order
  play_order-IsConsistent l order v h = record {
    valid = v;
    current = h;
    has_current = λ _. tt;
    queued = λ _. tt;
  }

  -- PlayPrevious returns, and keeps the playlist consistent.
  pub play_previous-IsConsistent :
      (l : Playlist P) → IsConsistent l → Yields IsConsistent (play_previous pc l)
  unfolding play_previous
  play_previous-IsConsistent l c =
      if_cases (Yields IsConsistent) (not l.playing) (λ _. c)
        (λ e.
          option_cases (Yields IsConsistent) l.current
            (λ missing. absurd (subst IsSome missing (c.has_current (ground arith))))
            (λ k at.
              let hk : k < l.queue.length = subst (IsWithin l.queue.length) at c.current in
              play_order-IsConsistent l _ c.valid (ground arith)))

  start_random-IsConsistent :
      (l : Playlist P) (i : ℕ)
      → IsConsistent l
      → i < l.queue.length
      → l.queue.random ≡ true
      → Yields IsConsistent (start_random pc l i)
  unfolding start_random start_song play_order
  start_random-IsConsistent l i c h r =
      let n = l.queue.length in
      let within =
        if_cases (IsWithin n) l.playing {y = some 0} (λ _. c.current) (λ _. omega arith) in
      let there = if_cases IsSome l.playing {y = some 0} (λ e. c.has_current e) (λ _. tt) in
      option_cases (Yields IsConsistent) (if l.playing then l.current else some 0)
        (λ missing. absurd (subst IsSome missing there))
        (λ k at.
          let hk : k < n = subst (IsWithin n) at within in
          record {
            valid = swap_orders-IsValid l.queue i k h hk r c.valid;
            current = hk;
            has_current = λ _. tt;
            queued = λ _. tt;
          })

  first_order-Below :
      (length : ℕ) (current : Option ℕ)
      → 0 < length
      → IsWithin length current
      → first_order pc current < length
  unfolding first_order
  first_order-Below length none pos w = pos
  first_order-Below length (some order) pos w = w

  other_player-IsConsistent :
      (l : Playlist P) (player : P) → IsConsistent l → IsConsistent (record l { player = player })
  other_player-IsConsistent l player c = record {
    valid = c.valid;
    current = c.current;
    has_current = c.has_current;
    queued = c.queued;
  }

  started_song :
      (l : Playlist P) (i : ℕ)
      → IsValid l.queue
      → i < l.queue.length
      → IsConsistent (start_song pc l i)
  unfolding start_song play_order
  started_song l i v h = record { valid = v; current = h; has_current = λ _. tt; queued = λ _. tt }

  abbrev pub Keeps : Option (PlaylistResult × Playlist P) → Type 0
  Keeps o = Yields {A = PlaylistResult × Playlist P} (λ r. IsConsistent r.1) o

  -- PlayPosition returns for every position, valid or not, and for -1, "any song"; the playlist stays
  -- consistent.
  pub play_position-IsConsistent :
      (l : Playlist P) (position : Option ℕ) → IsConsistent l → Keeps (play_position pc l position)
  unfolding play_position is_valid_position
  play_position-IsConsistent l none c =
      let c1 = other_player-IsConsistent l (pc.clear_error l.player) c in
      let l1 : Playlist P = record l { player = pc.clear_error l.player } in
      if_cases Keeps (l.queue.length == 0) (λ _. c1)
        (λ full.
          if_cases Keeps l.playing (λ _. other_player-IsConsistent l _ c)
            (λ _.
              let h : first_order pc l.current < l.queue.length =
                first_order-Below l.queue.length l.current (ground arith) c.current in
              bool_cases Keeps l.queue.random
                (λ r.
                  Yields->>= IsConsistent (λ s. IsConsistent s.1) (start_random pc l1 _) _
                    (start_random-IsConsistent l1 (first_order pc l.current) c1 h r) (λ m d. d))
                (λ r. started_song l1 _ c.valid h)))
  play_position-IsConsistent l (some position) c =
      let c1 = other_player-IsConsistent l (pc.clear_error l.player) c in
      let l1 : Playlist P = record l { player = pc.clear_error l.player } in
      if_cases Keeps (not (ltb position l.queue.length)) (λ _. c1)
        (λ valid.
          let h : position < l.queue.length = ground arith in
          bool_cases Keeps l.queue.random
            (λ r.
              let (k, e, hk, at) = position_to_order_total l.queue position h c.valid in
              subst
                (λ o.
                  Keeps
                    (o >>= (λ i. start_random pc l1 i >>= (λ m. some (PlaylistResult.success, m)))))
                (sym e)
                (Yields->>= IsConsistent (λ s. IsConsistent s.1) (start_random pc l1 k) _
                  (start_random-IsConsistent l1 k c1 hk r) (λ m d. d)))
            (λ r. started_song l1 position c.valid h))

  -- PlayId returns for every id, and keeps the playlist consistent.
  pub play_id-IsConsistent :
      (l : Playlist P) (id : Option ℕ) → IsConsistent l → Keeps (play_id pc l id)
  unfolding play_id
  play_id-IsConsistent l none c = play_position-IsConsistent l none c
  play_id-IsConsistent l (some id) c =
      option_cases Keeps (id_to_position l.queue.id_table id) (λ _. c)
        (λ position _. play_position-IsConsistent l (some position) c)
