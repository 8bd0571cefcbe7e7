-- ===== src/Playlist/Valid/Overruns.antt =====
-- PlaylistEdit.cxx, MoveRange with a destination relative to the current song, and the end of the queue.
use native.Mathlib.Nat.{mod-eq_of_lt}
use mpd_dsd.Prelude.{
  ℕ, ◌+◌, ◌-◌, ◌<◌, ◌≤◌, ◌≡◌, refl, ◌∙◌, arith, ap, subst, false, not, ◌&&◌, ◌||◌, some, ltb, leb,
}
use mpd_dsd.Queue.State.{is_valid_position}
use mpd_dsd.Queue.Move.{move_range, moved_range}
use mpd_dsd.Queue.Contents.{SameSong}
use mpd_dsd.Queue.Songs.{move_range_songs}
use mpd_dsd.Playlist.State.{PlayerControl, Playlist, get_current_position}
use mpd_dsd.Playlist.Moves.{
  Target, is_no_block, is_bad_target, is_start, relative_target, move_block, move_list_range,
}

-- The destination is accepted, and the queue is told to put the last song of the block at or behind its
-- end.
pub record IsOverrun {P : Type 0} (pc : PlayerControl P) (l : Playlist P) (start end n to : ℕ)
    : Type 0 where
  pub accepted : move_list_range pc l start end (Target.relative n) ≡ move_block pc l start end to
  pub behind : l.queue.length ≤ to + (end - start) - 1
  pub written :
      SameSong
        ((move_range l.queue start end to).items (to + (end - start) - 1))
        (l.queue.items (end - 1))

target_of :
    (length start position n : ℕ)
    → start < position
    → position + n < length
    → relative_target length start position n ≡ position + n - 1
unfolding relative_target
target_of length start position n h l = ground (arith, mod-eq_of_lt l)

last_moved :
    (start end to : ℕ) → start < end → moved_range start end to (end - 1) ≡ to + (end - start) - 1
unfolding moved_range
last_moved start end to h = ground arith

accepts :
    {P : Type 0} (pc : PlayerControl P) (l : Playlist P) (start end position n : ℕ)
    → is_no_block l.queue start end ≡ false
    → ltb l.queue.length n ≡ false
    → (leb start position && ltb position end) ≡ false
    → get_current_position l ≡ some position
    → move_list_range pc l start end (Target.relative n)
      ≡ move_block pc l start end (relative_target l.queue.length start position n)
unfolding move_list_range is_bad_target is_start
accepts pc l start end position n block room outside c = rw (block, room, c, outside) refl

-- A block before the current song and a destination relative to that song, other than 0, at a
-- position within the queue, but such that the position and the width of the block come to more than
-- the length and one: MoveRange accepts it and moves the block, as it would to the position less
-- one, and the queue is told to put the last song of the block at or behind its end.
pub relative_target_overruns :
    {P : Type 0} (pc : PlayerControl P) (l : Playlist P) (start end position n : ℕ)
    → start < end
    → end ≤ position
    → 0 < n
    → get_current_position l ≡ some position
    → position + n < l.queue.length
    → l.queue.length + 1 < position + n + (end - start)
    → IsOverrun pc l start end n (position + n - 1)
unfolding is_no_block is_valid_position
relative_target_overruns pc l start end position n h e pos c l1 l2 =
    let block : (not (ltb start l.queue.length) || not (ltb 0 end && ltb (end - 1) l.queue.length))
        ≡ false =
      ground (arith, h, e, l1) in
    let room : ltb l.queue.length n ≡ false = ground (arith, l1) in
    let outside : (leb start position && ltb position end) ≡ false = ground (arith, e) in
    record {
      accepted =
          accepts pc l start end position n block room outside c
          ∙ ap (move_block pc l start end)
              (target_of l.queue.length start position n (omega arith) l1);
      behind = omega arith;
      written =
          subst
            (λ k.
              SameSong ((move_range l.queue start end (position + n - 1)).items k)
                (l.queue.items (end - 1)))
            (last_moved start end (position + n - 1) h)
            (move_range_songs l.queue start end (position + n - 1) (end - 1) h);
    }
