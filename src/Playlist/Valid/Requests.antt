-- ===== src/Playlist/Valid/Requests.antt =====
-- Playlist.cxx, UpdateQueuedSong: the requests to the player once the next song is known.
use mpd_dsd.Prelude.{
  ℕ, ◌≡◌, refl, sym, ◌∙◌, subst, Bool, true, false, Option, none, some, not, ◌&&◌, ◌≢◌, ap, arith,
  if◌then◌else◌,
}
use mpd_dsd.Song.{dup_detached}
use mpd_dsd.Queue.State.{get_order}
use mpd_dsd.Queue.Valid.{IsValid}
use mpd_dsd.Playlist.State.{
  PlayerControl, Playlist, SongPointer, queue_next, cancel_queued, request_next,
  playlist_queue_song_order, same_song, song_at, is_some,
}
use mpd_dsd.Playlist.Valid.{IsWithin, IsSome, IsConsistent}

module _ {P : Type 0} (pc : PlayerControl P) where
  -- What UpdateQueuedSong leaves as it was at its end, and the song that it queues.
  pub record IsRequeued (l : Playlist P) (next : Option ℕ) (m : Playlist P) : Type 0 where
    pub queue : m.queue ≡ l.queue
    pub current : m.current ≡ l.current
    pub playing : m.playing ≡ l.playing
    pub bulk_edit : m.bulk_edit ≡ l.bulk_edit
    pub queued : m.queued ≡ next

  -- What the player in the state `before` is asked, by the song that was queued and the one that is: nothing
  -- where they are the same; otherwise to cancel the one, if there was one, and to play the other next,
  -- if there is one.
  pub record IsRequested (before : P) (prev : SongPointer) (m : Playlist P) : Type 0 where
    pub kept : song_at m.queue m.queued ≡ prev → m.player ≡ before
    pub first :
        prev ≡ none
        → (order : ℕ) → m.queued ≡ some order
        → m.player ≡ pc.enqueue_song before (dup_detached (get_order m.queue order))
    pub replaced :
        prev ≢ none
        → (order : ℕ) → m.queued ≡ some order
        → song_at m.queue m.queued ≢ prev
        → m.player ≡ pc.enqueue_song (pc.cancel before) (dup_detached (get_order m.queue order))
    pub ended : prev ≢ none → m.queued ≡ none → m.player ≡ pc.cancel before

  some_injective : {a b : ℕ} → some a ≡ some b → a ≡ b
  some_injective e = cc

  same_song_true : (a b : SongPointer) → same_song a b ≡ true → a ≡ b
  unfolding same_song
  same_song_true none none e = refl
  same_song_true none (some b) e = absurd (cc)
  same_song_true (some a) none e = absurd (cc)
  same_song_true (some a) (some b) e = ap some (ground (arith, e))

  same_song_refl : (a : SongPointer) → same_song a a ≡ true
  unfolding same_song
  same_song_refl none = refl
  same_song_refl (some a) = ground arith

  -- The requests when the songs are compared.
  compared_requests :
      (same : Bool) (l : Playlist P) (prev : SongPointer) (order : ℕ)
      → same_song (song_at l.queue (some order)) prev ≡ same
      → IsRequested l.player prev
          (request_next pc same (some order) (cancel_queued pc (is_some prev && not same) l))
  unfolding cancel_queued request_next playlist_queue_song_order is_some
  compared_requests true l none order e = absurd (unfold song_at same_song in cc)
  compared_requests true l (some p) order e = record {
    kept = λ k. refl;
    first = λ n. absurd (cc);
    replaced = λ n o k d. absurd (d (same_song_true (song_at l.queue (some order)) (some p) e));
    ended = λ n k. absurd (cc);
  }
  compared_requests false l none order e = record {
    kept = λ k. absurd (unfold song_at in cc);
    first = λ n o k.
        ap (λ j. pc.enqueue_song l.player (dup_detached (get_order l.queue j))) (some_injective k);
    replaced = λ n. absurd (n refl);
    ended = λ n. absurd (n refl);
  }
  compared_requests false l (some p) order e = record {
    kept = λ k.
        let r : same_song (song_at l.queue (some order)) (some p) ≡ true =
          subst (λ x. same_song x (some p) ≡ true) (sym k) (same_song_refl (some p)) in
        absurd (ground (arith, e, r));
    first = λ n. absurd (cc);
    replaced = λ n o k d.
        ap (λ j. pc.enqueue_song (pc.cancel l.player) (dup_detached (get_order l.queue j)))
          (some_injective k);
    ended = λ n k. absurd (cc);
  }

  pub queue_next-IsRequested :
      (l : Playlist P) (prev : SongPointer) (next : Option ℕ)
      → (prev ≡ none → l.queued ≡ none)
      → IsRequested l.player prev (queue_next pc l prev next)
  unfolding queue_next cancel_queued request_next is_some
  queue_next-IsRequested l prev (some order) q =
      compared_requests (same_song (song_at l.queue (some order)) prev) l prev order refl
  queue_next-IsRequested l none none q = record {
    kept = λ k. refl;
    first = λ n o k. let e : l.queued ≡ none = q refl in absurd (cc);
    replaced = λ n. absurd (n refl);
    ended = λ n. absurd (n refl);
  }
  queue_next-IsRequested l (some p) none q = record {
    kept = λ k. absurd (unfold song_at in cc);
    first = λ n. absurd (cc);
    replaced = λ n o k. absurd (cc);
    ended = λ n k. refl;
  }

  pub cancel_queued_lem :
      (cancels : Bool) (l : Playlist P)
      → IsRequeued l (if cancels then none else l.queued) (cancel_queued pc cancels l)
  unfolding cancel_queued
  cancel_queued_lem true l = record {
    queue = refl;
    current = refl;
    playing = refl;
    bulk_edit = refl;
    queued = refl;
  }
  cancel_queued_lem false l = record {
    queue = refl;
    current = refl;
    playing = refl;
    bulk_edit = refl;
    queued = refl;
  }

  pub request_next_lem :
      (same : Bool) (order : ℕ) (l : Playlist P)
      → IsRequeued l (some order) (request_next pc same (some order) l)
  unfolding request_next playlist_queue_song_order
  request_next_lem true order l = record {
    queue = refl;
    current = refl;
    playing = refl;
    bulk_edit = refl;
    queued = refl;
  }
  request_next_lem false order l = record {
    queue = refl;
    current = refl;
    playing = refl;
    bulk_edit = refl;
    queued = refl;
  }

  IsRequeued-trans :
      {l m n : Playlist P} {a b : Option ℕ} → IsRequeued l a m → IsRequeued m b n → IsRequeued l b n
  IsRequeued-trans f g = record {
    queue = g.queue ∙ f.queue;
    current = g.current ∙ f.current;
    playing = g.playing ∙ f.playing;
    bulk_edit = g.bulk_edit ∙ f.bulk_edit;
    queued = g.queued;
  }

  pub queue_next_lem :
      (l : Playlist P) (prev : SongPointer) (next : Option ℕ)
      → (prev ≡ none → l.queued ≡ none)
      → IsRequeued l next (queue_next pc l prev next)
  unfolding queue_next request_next cancel_queued song_at same_song is_some
  queue_next_lem l prev (some order) q =
      IsRequeued-trans (cancel_queued_lem _ l) (request_next_lem _ order _)
  queue_next_lem l none none q = record {
    queue = refl;
    current = refl;
    playing = refl;
    bulk_edit = refl;
    queued = q refl;
  }
  queue_next_lem l (some p) none q = cancel_queued_lem true l

  pub requeued-IsConsistent :
      (l m : Playlist P) (next : Option ℕ)
      → IsValid l.queue
      → IsWithin l.queue.length l.current
      → IsSome l.current
      → IsWithin l.queue.length next
      → IsRequeued l next m
      → IsConsistent m
  requeued-IsConsistent l m next v w s n f = record {
    valid = subst IsValid (sym f.queue) v;
    current = rw (f.queue, f.current) w;
    has_current = λ _. rw f.current s;
    queued = λ _. rw (f.queue, f.queued) n;
  }
