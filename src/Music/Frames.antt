-- ===== src/Music/Frames.antt =====
-- What changes of links and frees leave as it is, in the buffer and in a pipe.
use mpd_dsd.Prelude.{
  ℕ, ◌≡◌, inl, inr, sym, ap, ◌∙◌, arith, Option, none, some, true, List, [], ◌∷◌, ◌==◌, Bool-cases,
}
use mpd_dsd.Prelude.Members.{has, All-map, Chain-same, has_ne}
use mpd_dsd.Music.Slices.{SliceBuffer, Slice, free_slice, value, value_of, next_free}
use mpd_dsd.Music.Slices.Pool.{free_link, IsLive, IsPool, live_not_spare}
use mpd_dsd.Music.Chunk.{Chunk}
use mpd_dsd.Music.Pipe.{MusicPipe}
use mpd_dsd.Music.Pipe.Valid.{chunk_next, next_link, IsQueued, IsPipe}
use mpd_dsd.Music.Pipe.Push.{IsRelinked}
use mpd_dsd.Music.Owners.{chunk_other, other_link, with_other, owned, HasNoOther, Owns, get_other}

pub relinked-IsPool :
    (b t : SliceBuffer Chunk) (i : ℕ) (spare live : List ℕ)
    → IsRelinked b t (i ∷ [])
    → IsLive b i
    → IsPool b spare live
    → IsPool t spare live
relinked-IsPool b t i spare live k l h = record {
  initialized_max = omega (arith, k.same_initialized, k.same_max, h.initialized_max);
  counted = k.same_allocated ∙ h.counted;
  all_counted = h.all_counted ∙ sym k.same_initialized;
  starts = k.same_available ∙ h.starts;
  chained = Chain-same (free_link b) (free_link t) spare h.chained (λ a m.
      ap next_free
        (k.outside a (ground (arith, has_ne i a spare (live_not_spare b spare i h.chained l) m))));
  spare_below = All-map _ _ spare h.spare_below (λ a m lt. omega (arith, k.same_initialized));
  live_below = All-map _ _ live h.live_below (λ a m lt. omega (arith, k.same_initialized));
  spare_distinct = h.spare_distinct;
  live_distinct = h.live_distinct;
  live_hold = All-map (IsLive b) (IsLive t) live h.live_hold (λ a m z. (_, (k.inside a z.0 z.1).1));
}

slice_is_held : (s : Slice Chunk) (c : Chunk) → value_of s ≡ some c → s ≡ value c
slice_is_held (value a) c e = cc
slice_is_held (free_slice q) c e = absurd (cc)

pub relinked-other_link :
    (b t : SliceBuffer Chunk) (xs : List ℕ) (a : ℕ) {q : Option ℕ}
    → IsRelinked b t xs
    → other_link b a ≡ some q
    → other_link t a ≡ some q
relinked-other_link b t xs a k e =
    let (c, ec, eo) = get_other b a e in
    let f = (k.inside a c (slice_is_held (b.slices a) c ec)).1 in
    ap (λ s. chunk_other (value_of s)) f ∙ ap some eo

pub HasNoOther-same :
    (b t : SliceBuffer Chunk) (q : Option ℕ) (i : ℕ) (ys : List ℕ)
    → HasNoOther b q
    → ((a : ℕ) (r : Option ℕ)
        → has a (with_other q (i ∷ ys)) ≡ true
        → other_link b a ≡ some r
        → other_link t a ≡ some r)
    → HasNoOther t q
HasNoOther-same b t none i ys h f = tt
HasNoOther-same b t (some j) i ys h f = f j none (ground arith) h

pub has-with_other_self :
    (q : Option ℕ) (i : ℕ) (ys : List ℕ) → has i (with_other q (i ∷ ys)) ≡ true
has-with_other_self none i ys = ground arith
has-with_other_self (some j) i ys = ground arith

pub has-with_other :
    (q : Option ℕ) (i a : ℕ) (ys : List ℕ) → has a ys ≡ true → has a (with_other q (i ∷ ys)) ≡ true
has-with_other none i a ys m = ground arith
has-with_other (some j) i a ys m = ground arith

pub Owns-same :
    (b t : SliceBuffer Chunk) (o : ℕ → Option ℕ) (xs : List ℕ)
    → Owns b o xs
    → ((a : ℕ) (r : Option ℕ)
        → has a (owned o xs) ≡ true
        → other_link b a ≡ some r
        → other_link t a ≡ some r)
    → Owns t o xs
Owns-same b t o [] h f = tt
Owns-same b t o (i ∷ xs) h f = (
  f i (o i) (has-with_other_self (o i) i (owned o xs)) h.0,
  HasNoOther-same b t (o i) i (owned o xs) h.1 f,
  Owns-same b t o xs h.2 (λ a r m. f a r (has-with_other (o i) i a (owned o xs) m)),
)

pub has-owned :
    (o : ℕ → Option ℕ) (a : ℕ) (xs : List ℕ) → has a xs ≡ true → has a (owned o xs) ≡ true
has-owned o a [] m = m
has-owned o a (i ∷ xs) m = elim (Bool-cases (a == i)) [
  | inl e ↦ let e' : i ≡ a = ground arith in rw e' (has-with_other_self (o a) a (owned o xs))
  | inr e ↦ has-with_other (o i) i a (owned o xs) (has-owned o a xs (ground arith))
]

-- The links that a pipe goes by are within its chunks.
pub same-IsPipe :
    (t u : SliceBuffer Chunk) (q : MusicPipe) (ys : List ℕ)
    → IsPipe t q ys
    → ((a : ℕ) → has a ys ≡ true → u.slices a ≡ t.slices a)
    → IsPipe u q ys
same-IsPipe t u q ys h f = record {
  starts = h.starts;
  chained =
      Chain-same (next_link t) (next_link u) ys h.chained
        (λ a m. ap (λ s. chunk_next (value_of s)) (f a m));
  ends = h.ends;
  counted = h.counted;
  few = h.few;
  distinct = h.distinct;
  queued =
      All-map (IsQueued q.audio_format t) _ ys h.queued (λ a m z. (z.0, f a m ∙ z.1, z.2, z.3));
  defined_valid = h.defined_valid;
  empty_undefined = h.empty_undefined;
}
