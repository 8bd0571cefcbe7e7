-- ===== src/Playlist/Valid/Shuffles.antt =====
-- PlaylistEdit.cxx, Shuffle, and the invariant of the playlist.
use mpd_dsd.Prelude.{
  ℕ, ◌+◌, ◌<◌, ◌≤◌, ◌≡◌, ◌≢◌, refl, sym, ◌∙◌, arith, ap, subst, Bool, true, false, not, ◌&&◌,
  Option, none, some, ltb, leb, if◌then◌else◌, Yields, Yields-map, Yields->>=, Yields-some,
  if_cases, option_cases, bool_cases, Option-cases, inl, inr, ◌⊎◌,
}
use mpd_dsd.Queue.State.{Queue, position_to_order}
use mpd_dsd.Queue.Move.{swap_positions}
use mpd_dsd.Queue.Order.{shuffle_range}
use mpd_dsd.Queue.Valid.{IsValid}
use mpd_dsd.Queue.Valid.Deletes.{swap_positions-IsValid}
use mpd_dsd.Queue.Valid.Mixes.{swapped_id, shuffle_range-IsMixed}
use mpd_dsd.Queue.Valid.Priorities.{position_to_order_total}
use mpd_dsd.Playlist.State.{PlayerControl, PlaylistResult, Playlist, get_queued_song}
use mpd_dsd.Playlist.Edit.{commit}
use mpd_dsd.Playlist.Moves.{shuffle_list, finish_shuffle}
use mpd_dsd.Playlist.Valid.{IsWithin, IsSome, IsConsistent}
use mpd_dsd.Playlist.Valid.Updates.{IsReady}
use mpd_dsd.Playlist.Valid.Commits.{
  IsEdited, current_song, current_song_at, current_song-none, commit_correct, get_queued_song-none,
}
use mpd_dsd.Playlist.Valid.Randoms.{IsSwitched}

module _ {P : Type 0} (pc : PlayerControl P) where
  abbrev pub Switches : Playlist P → Option (PlaylistResult × Playlist P) → Type 0
  Switches l o = Yields {A = PlaylistResult × Playlist P} (λ r. IsSwitched pc l r.1) o

  -- The shuffle of a range that the current song is not in.
  mixed_song :
      (l : Playlist P) (start end : ℕ)
      → start ≤ end
      → end ≤ l.queue.length
      → IsValid l.queue
      → ((c : ℕ) → l.current ≡ some c → (l.queue.order c < start) ⊎ (end ≤ l.queue.order c))
      → current_song (record l { queue = shuffle_range l.queue start end }) ≡ current_song l
  mixed_song l start end h1 h2 v out =
      let m : Playlist P = record l { queue = shuffle_range l.queue start end } in
      let f = shuffle_range-IsMixed l.queue start end h1 h2 v in
      elim (Option-cases l.current) [
        | inl e ↦ current_song-none m e ∙ sym (current_song-none l e)
        | inr (k, e) ↦
            current_song_at m k e
            ∙ ap (λ (order : ℕ → ℕ). some (m.queue.items (order k)).id) f.order
            ∙ ap some (f.other (l.queue.order k) (out k e))
            ∙ sym (current_song_at l k e)
      ]

  finish_shuffle-Switches :
      (l m : Playlist P) (start end : ℕ)
      → start ≤ end
      → end ≤ m.queue.length
      → IsReady pc m (get_queued_song l)
      → m.queue.length ≡ l.queue.length
      → (l.playing ≡ true → current_song m ≡ current_song l)
      → (l.playing ≡ true
          → (c : ℕ) → m.current ≡ some c
          → (m.queue.order c < start) ⊎ (end ≤ m.queue.order c))
      → Switches l (finish_shuffle pc m start end (get_queued_song l))
  unfolding finish_shuffle
  finish_shuffle-Switches l m start end h1 h2 r n song out =
      let f = shuffle_range-IsMixed m.queue start end h1 h2 r.valid in
      let m1 : Playlist P = record m { queue = shuffle_range m.queue start end } in
      Yields-map (λ s. IsEdited m1 s.1) (λ s. IsSwitched pc l s.1)
        (commit pc m1 (get_queued_song l))
        (commit_correct pc m1 (get_queued_song l) (record {
          valid = f.valid;
          current = subst (λ k. IsWithin k m.current) (sym f.length) r.current;
          has_current = r.has_current;
          no_queued = r.no_queued;
        }))
        (λ s e. record {
          consistent = e.consistent;
          length = e.length ∙ f.length ∙ n;
          song = λ p. e.song ∙ mixed_song m start end h1 h2 r.valid (out p) ∙ song p;
        })

  played_current :
      (playing : Bool) (current : Option ℕ) (c : ℕ)
      → (if playing then current else none) ≡ some c
      → (playing ≡ true) × (current ≡ some c)
  played_current true current c e = (refl, e)
  played_current false current c e = absurd (ground arith)

  some_same : (o : Option ℕ) (a b : ℕ) → o ≡ some a → o ≡ some b → a ≡ b
  some_same o a b e f = ground arith

  -- The current song has been put first, at `start`, and the rest is shuffled.
  first_shuffled-Switches :
      (l : Playlist P) (start end c k : ℕ)
      → IsConsistent l
      → start + 1 < end
      → end ≤ l.queue.length
      → l.current ≡ some c
      → l.queue.order c < l.queue.length
      → k < l.queue.length
      → l.queue.order k ≡ start
      → (λ (m : Playlist P). Switches l (finish_shuffle pc m (start + 1) end (get_queued_song l)))
          (record l { queue = swap_positions l.queue start (l.queue.order c); current = some k })
  unfolding swap_positions
  first_shuffled-Switches l start end c k d h1 h2 e hp hk ek =
      let position = l.queue.order c in
      let q = swap_positions l.queue start position in
      let m : Playlist P = record l { queue = q; current = some k } in
      finish_shuffle-Switches l m (start + 1) end (omega arith) h2
        (record {
          valid = swap_positions-IsValid l.queue start position (omega arith) hp d.valid;
          current = hk;
          has_current = λ _. tt;
          no_queued = λ p e2. get_queued_song-none pc l p e2;
        })
        refl
        (λ p.
          current_song_at m k refl
          ∙ ap some (
              ap (λ i. (q.items i).id) ek
              ∙ swapped_id l.queue start position start
              ∙ ground (arith, ap (λ i. (l.queue.items i).id)))
          ∙ sym (current_song_at l c e))
        (λ p c2 e2.
          let same : k ≡ c2 = some_same (some k) k c2 refl e2 in
          inl (omega (arith, ap l.queue.order same)))

  beyond : (start end p : ℕ) → not (leb start p && ltb p end) ≡ true → (p < start) ⊎ (end ≤ p)
  beyond start end p e = ground arith

  -- A swap of positions does not change the order numbers.
  found_start :
      (q : Queue) (i j position : ℕ)
      → i < q.length
      → j < q.length
      → position < q.length
      → IsValid q
      → Yields
          (λ k. (k < q.length) × (q.order k ≡ position))
          (position_to_order (swap_positions q i j) position)
  unfolding swap_positions
  found_start q i j position hi hj hp v =
      let (k, e, hk, at) =
        position_to_order_total (swap_positions q i j) position hp
          (swap_positions-IsValid q i j hi hj v) in
      Yields-some (λ (n : ℕ). (n < q.length) × (q.order n ≡ position)) _ e (hk, at)

  -- Shuffle returns for every range; the playlist stays consistent and as long as it was, and the song
  -- that is being played stays the current song.
  pub shuffle_list-Switches :
      (l : Playlist P) (start end : ℕ) → IsConsistent l → Switches l (shuffle_list pc l start end)
  unfolding shuffle_list
  shuffle_list-Switches l start end0 d =
      let end = if ltb l.queue.length end0 then l.queue.length else end0 in
      let h2 : end ≤ l.queue.length = ground arith in
      if_cases (Switches l) (leb end (start + 1))
        (λ _. record { consistent = d; length = refl; song = λ _. refl })
        (λ two.
          let h1 : start + 1 < end = ground arith in
          option_cases (Switches l) (if l.playing then l.current else none)
            (λ e.
              let stopped : l.playing ≢ true = λ p.
                subst IsSome (subst (λ b. (if b then l.current else none) ≡ none) p e)
                  (d.has_current p) in
              finish_shuffle-Switches l (record l { current = none }) start end (omega arith) h2
                (record {
                  valid = d.valid;
                  current = tt;
                  has_current = λ p. absurd (stopped p);
                  no_queued = λ p. absurd (stopped p);
                })
                refl (λ p. absurd (stopped p)) (λ p. absurd (stopped p)))
            (λ c e.
              let (playing, at) = played_current l.playing l.current c e in
              let hc : c < l.queue.length = subst (IsWithin l.queue.length) at d.current in
              let position = l.queue.order c in
              let hp : position < l.queue.length = d.valid.ordered.below c hc in
              if_cases (Switches l) (not (leb start position && ltb position end))
                (λ out.
                  finish_shuffle-Switches l l start end (omega arith) h2
                    (record {
                      valid = d.valid;
                      current = d.current;
                      has_current = d.has_current;
                      no_queued = λ p e2. get_queued_song-none pc l p e2;
                    })
                    refl (λ _. refl)
                    (λ p c2 e2.
                      let same = some_same l.current c c2 at e2 in
                      subst (λ i. (l.queue.order i < start) ⊎ (end ≤ l.queue.order i)) same
                        (beyond start end position out)))
                (λ _.
                  bool_cases (Switches l) l.queue.random
                    (λ r.
                      Yields->>= (λ k. (k < l.queue.length) × (l.queue.order k ≡ start))
                        (λ s. IsSwitched pc l s.1)
                        (position_to_order (swap_positions l.queue start position) start) _
                        (found_start l.queue start position start (omega arith) hp (omega arith)
                          d.valid)
                        (λ k at_start.
                          first_shuffled-Switches l start end c k d h1 h2 at hp at_start.0
                            at_start.1))
                    (λ r.
                      first_shuffled-Switches l start end c start d h1 h2 at hp (omega arith)
                        (d.valid.straight r start (omega arith))))))
