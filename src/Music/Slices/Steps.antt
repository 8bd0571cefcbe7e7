-- ===== src/Music/Slices/Steps.antt =====
-- What Allocate and Free of the slice buffer do to the pool.
use mpd_dsd.Prelude.{
  ℕ, ◌-◌, ◌<◌, ◌≤◌, ◌≡◌, refl, ap, ◌∙◌, subst, arith, Option, none, some, true, false, ◌&&◌, List,
  [], ◌∷◌, leb, ltb, ◌==◌, Bool-cases, if_cases, Yields, Yields-map, Yields->>=, Yields-some, inl,
  inr,
}
use mpd_dsd.Prelude.Arrays.{put}
use mpd_dsd.Prelude.Members.{
  has, All, remove, All-has, All-map, All-remove, remove-IsDistinct, has-remove_self, length-remove,
  Chain, Chain-same, put_other,
}
use mpd_dsd.Music.Slices.{
  Slice, SliceBuffer, free_slice, value, next_free, value_of, initialize_slice, take_slice, grow,
  allocate, discard, free,
}
use mpd_dsd.Music.Slices.Pool.{
  free_link, IsLive, IsPool, live_not_spare, spare_not_live, IsTaken, IsAllocated,
}

-- The assertions of Free.
may_free :
    (n max used i : ℕ)
    → n ≤ max
    → 0 < used
    → used ≤ n
    → i < n
    → (leb n max && ltb 0 used && leb used n && ltb i max) ≡ true
may_free n max used i h p q r = ground arith

module _ {A : Type 0} where
  -- The slice becomes live with its new value, and the others stay live.
  live_put :
      (b : SliceBuffer A) (a : A) (i : ℕ) (live : List ℕ)
      → All (IsLive b) live
      → All (λ j. (c : A) × (put b.slices i (value a) j ≡ value c)) live
  live_put b a i live h = All-map (IsLive b) _ live h (λ j m p. elim (Bool-cases (j == i)) [
    | inl e ↦ (a, ground arith)
    | inr e ↦ (p.0, ground (arith, p.1))
  ])

  -- Writing a slice outside the chain keeps the chain.
  put_beside :
      (b : SliceBuffer A) (s : Slice A) (i : ℕ) (xs : List ℕ)
      → Chain (free_link b) xs
      → has i xs ≡ false
      → Chain (λ j. next_free (put b.slices i s j)) xs
  put_beside b s i xs c out =
      Chain-same (free_link b) _ xs c (λ j m. ap next_free (put_other b.slices i j s xs out m))

  pub take_slice_correct :
      (a : A) (b : SliceBuffer A) (i : ℕ) (spare live : List ℕ)
      → IsPool b (i ∷ spare) live
      → Yields (λ r. (r.1 ≡ some i) × IsTaken a b live r.0 i) (take_slice a i b)
  unfolding take_slice
  take_slice_correct a b i spare live h = rw h.chained.0 (
    refl,
    record {
      fresh = spare_not_live b live i h.live_hold h.chained.0;
      in_pool = omega (arith, h.spare_below.0, h.initialized_max);
      same_max = refl;
      holds = ground arith;
      spares = λ j m.
          put_other b.slices i j (value a) live (spare_not_live b live i h.live_hold h.chained.0) m;
      pool = (
        spare,
        record {
          initialized_max = h.initialized_max;
          counted = ground (arith, h);
          all_counted = ground (arith, h);
          starts = refl;
          chained = put_beside b (value a) i spare h.chained.1 h.spare_distinct.0;
          spare_below = h.spare_below.1;
          live_below = (h.spare_below.0, h.live_below);
          spare_distinct = h.spare_distinct.1;
          live_distinct = (spare_not_live b live i h.live_hold h.chained.0, h.live_distinct);
          live_hold = ((a, ground arith), live_put b a i live h.live_hold);
        },
      );
    },
  )

  initialize_slice-IsPool :
      (b : SliceBuffer A) (live : List ℕ)
      → IsPool b [] live
      → b.n_initialized < b.n_max
      → IsPool (initialize_slice b) (b.n_initialized ∷ []) live
  unfolding initialize_slice
  initialize_slice-IsPool b live h lt = record {
    initialized_max = omega arith;
    counted = h.counted;
    all_counted = ground (arith, h);
    starts = refl;
    chained = (ground arith, tt);
    spare_below = (omega arith, tt);
    live_below = All-map (λ i. i < b.n_initialized) _ live h.live_below (λ i m lt. omega arith);
    spare_distinct = (refl, tt);
    live_distinct = h.live_distinct;
    live_hold = All-map (IsLive b) _ live h.live_hold (λ i m p.
        (p.0, ground (arith, p.1, All-has (λ i. i < b.n_initialized) i live h.live_below m)));
  }

  -- The other slices are those of the pool before the new slice was initialized.
  from_initialized :
      (a : A) (b t : SliceBuffer A) (live : List ℕ)
      → IsPool b [] live
      → IsTaken a (initialize_slice b) live t b.n_initialized
      → IsTaken a b live t b.n_initialized
  unfolding initialize_slice
  from_initialized a b t live p h = record {
    fresh = h.fresh;
    in_pool = h.in_pool;
    same_max = h.same_max;
    holds = h.holds;
    spares =
        λ j m. h.spares j m ∙ put_other b.slices b.n_initialized j (free_slice none) live h.fresh m;
    pool = h.pool;
  }

  from_taken :
      (a : A) (b : SliceBuffer A) (live : List ℕ) (i : ℕ) (r : SliceBuffer A × Option ℕ)
      → (r.1 ≡ some i) × IsTaken a b live r.0 i
      → IsAllocated a b live r
  from_taken a b live i (t, none) h = absurd (cc)
  from_taken a b live i (t, some j) h =
      let e : i ≡ j = ground arith in subst (IsTaken a b live t) e h.1

  grow-IsAllocated :
      (a : A) (b : SliceBuffer A) (live : List ℕ)
      → IsPool b [] live
      → Yields (IsAllocated a b live) (grow a b)
  unfolding grow
  grow-IsAllocated a b live h =
      if_cases (Yields (IsAllocated a b live)) (b.n_initialized == b.n_max)
        (λ e.
          if_cases (Yields (IsAllocated a b live)) (b.n_allocated == b.n_max)
            (λ full. (refl, ground (arith, h))) (λ e'. absurd (ground (arith, h))))
        (λ e.
          Yields-map _ (IsAllocated a b live) _
            (take_slice_correct a (initialize_slice b) b.n_initialized [] live
              (initialize_slice-IsPool b live h (ground (arith, h))))
            (λ r p.
              from_taken a b live b.n_initialized r (p.0, from_initialized a b r.0 live h p.1)))

  take_first-IsAllocated :
      (a : A) (b : SliceBuffer A) (spare live : List ℕ)
      → IsPool b spare live
      → Yields
          (IsAllocated a b live)
          (elim b.available [ none ↦ grow a b | some i ↦ take_slice a i b ])
  take_first-IsAllocated a b [] live h = simp h.starts (grow-IsAllocated a b live h)
  take_first-IsAllocated a b (i ∷ spare) live h = simp h.starts (
      Yields-map _ (IsAllocated a b live) _ (take_slice_correct a b i spare live h)
        (from_taken a b live i))

  -- Allocate on a pool returns: either every one of the n_max slices is live, and nothing changes,
  -- or a slice is given out that was not live and holds the new value, the live slices keep their
  -- values, and the buffer is a pool with one more live slice.
  pub allocate-IsAllocated :
      (a : A) (b : SliceBuffer A) (spare live : List ℕ)
      → IsPool b spare live
      → Yields (IsAllocated a b live) (allocate a b)
  unfolding allocate
  allocate-IsAllocated a b spare live h =
      if_cases (Yields (IsAllocated a b live))
        (leb b.n_initialized b.n_max && leb b.n_allocated b.n_initialized)
        (λ e. take_first-IsAllocated a b spare live h) (λ e. absurd (ground (arith, h)))

  discard-IsPool :
      (b : SliceBuffer A) (spare live : List ℕ)
      → IsPool b spare live
      → (rest : List ℕ) × IsPool (discard b) rest live
  discard-IsPool b spare [] h = rw h.counted (
    [],
    record {
      initialized_max = omega arith;
      counted = refl;
      all_counted = refl;
      starts = refl;
      chained = tt;
      spare_below = tt;
      live_below = tt;
      spare_distinct = tt;
      live_distinct = tt;
      live_hold = tt;
    },
  )
  discard-IsPool b spare (i ∷ live) h =
      if_cases (λ t. (rest : List ℕ) × IsPool t rest (i ∷ live)) (b.n_allocated == 0)
        (λ e. absurd (ground (arith, h))) (λ e. (spare, h))

  -- The slice is free, the other live ones are as before.
  pub record IsFreed (b : SliceBuffer A) (live : List ℕ) (i : ℕ) (t : SliceBuffer A) : Type 0 where
    pub same_max : t.n_max ≡ b.n_max
    pub spares : (j : ℕ) → has j (remove i live) ≡ true → t.slices j ≡ b.slices j
    pub pool : (spare : List ℕ) × IsPool t spare (remove i live)

  abbrev freed : ℕ → SliceBuffer A → SliceBuffer A
  freed i b = record b {
    n_allocated = b.n_allocated - 1;
    slices = put b.slices i (free_slice b.available);
    available = some i;
  }

  freed-IsPool :
      (b : SliceBuffer A) (i : ℕ) (spare live : List ℕ)
      → IsPool b spare live
      → has i live ≡ true
      → IsPool (freed i b) (i ∷ spare) (remove i live)
  freed-IsPool b i spare live h m =
      let out : has i spare ≡ false =
        live_not_spare b spare i h.chained (All-has (IsLive b) i live h.live_hold m) in
      record {
        initialized_max = h.initialized_max;
        counted = omega (arith, h.counted, length-remove i live m);
        all_counted = omega (arith, h.all_counted, length-remove i live m);
        starts = refl;
        chained =
            (ground (arith, h.starts), put_beside b (free_slice b.available) i spare h.chained out);
        spare_below = (All-has (λ k. k < b.n_initialized) i live h.live_below m, h.spare_below);
        live_below = All-remove (λ k. k < b.n_initialized) i live h.live_below;
        spare_distinct = (out, h.spare_distinct);
        live_distinct = remove-IsDistinct i live h.live_distinct;
        live_hold =
            All-map (IsLive b) _ (remove i live) (All-remove (IsLive b) i live h.live_hold)
              (λ j mj p. (
                p.0,
                put_other b.slices i j (free_slice b.available) (remove i live)
                      (has-remove_self i live h.live_distinct) mj
                    ∙ p.1,
              ));
      }

  freed-IsFreed :
      (b : SliceBuffer A) (i : ℕ) (spare live : List ℕ)
      → IsPool b spare live
      → has i live ≡ true
      → IsFreed b live i (discard (freed i b))
  freed-IsFreed b i spare live h m = record {
    same_max =
        if_cases (λ (t : SliceBuffer A). t.n_max ≡ b.n_max) (b.n_allocated - 1 == 0) (λ e. refl)
          (λ e. refl);
    spares = λ j mj.
        if_cases (λ (t : SliceBuffer A). t.slices j ≡ b.slices j) (b.n_allocated - 1 == 0)
          (λ e. kept j mj) (λ e. kept j mj);
    pool = discard-IsPool (freed i b) (i ∷ spare) (remove i live) (freed-IsPool b i spare live h m);
  }
    where
      kept : (j : ℕ) → has j (remove i live) ≡ true → (freed i b).slices j ≡ b.slices j
      kept j mj =
          put_other b.slices i j (free_slice b.available) (remove i live)
            (has-remove_self i live h.live_distinct) mj

  -- Free of a live slice of a pool returns, and leaves a pool without that live slice in which the
  -- other live slices keep their values, also where the last one goes and the memory is discarded.
  pub free-IsFreed :
      (b : SliceBuffer A) (i : ℕ) (spare live : List ℕ)
      → IsPool b spare live
      → has i live ≡ true
      → Yields (IsFreed b live i) (free i b)
  unfolding free
  free-IsFreed b i spare live h m =
      let p = All-has (IsLive b) i live h.live_hold m in
      let l = All-has (λ k. k < b.n_initialized) i live h.live_below m in
      let n = length-remove i live m in
      simp
        (may_free b.n_initialized b.n_max b.n_allocated i h.initialized_max
          (omega (arith, h.counted, n)) (omega (arith, h.counted, h.all_counted)) l)
        (Yields->>= (λ _. Unit) (IsFreed b live i) (value_of (b.slices i)) _
          (Yields-some (λ _. Unit) (value_of (b.slices i)) (ap value_of p.1) tt)
          (λ v u. freed-IsFreed b i spare live h m))
