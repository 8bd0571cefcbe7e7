-- ===== src/Music/Slices.antt =====
-- util/SliceBuffer.hxx: a pool of equal slices with a chain of free ones.
pub mod Pool
pub mod Steps
use mpd_dsd.Prelude.{
  ℕ, ◌+◌, ◌-◌, ◌≡◌, Option, none, some, Bool, true, false, ◌&&◌, leb, ltb, ◌==◌, if◌then◌else◌,
  ◌>>=◌,
}
use mpd_dsd.Prelude.Arrays.{Array, put}

-- The union: a link to the next free slice, or a value.
pub data Slice {ℓ} (A : Type ℓ) : Type ℓ where
  free_slice : Option ℕ → Slice A
  value : A → Slice A

-- A pointer into the allocation is the number of its slice.
pub record SliceBuffer {ℓ} (A : Type ℓ) : Type ℓ where
  pub n_max : ℕ
  pub n_initialized : ℕ
  pub n_allocated : ℕ
  pub slices : Array (Slice A)
  pub available : Option ℕ

module _ {ℓ} {A : Type ℓ} where
  -- Reading the member of the union that is not there gives no result.
  abbrev pub next_free : Slice A → Option (Option ℕ)
  next_free (free_slice q) = some q
  next_free (value a) = none

  abbrev pub value_of : Slice A → Option A
  value_of (free_slice q) = none
  value_of (value a) = some a

  -- The constructor; the huge pages hold whatever they hold.
  abbrev pub new_slices : ℕ → Array (Slice A) → SliceBuffer A
  new_slices count pages = record {
    n_max = count;
    n_initialized = 0;
    n_allocated = 0;
    slices = pages;
    available = none;
  }

  unfoldable pub is_full : SliceBuffer A → Bool
  is_full b = b.n_allocated == b.n_max

  unfoldable pub is_empty : SliceBuffer A → Bool
  is_empty b = b.n_allocated == 0

  unfoldable pub initialize_slice : SliceBuffer A → SliceBuffer A
  initialize_slice b = record b {
    n_initialized = b.n_initialized + 1;
    slices = put b.slices b.n_initialized (free_slice none);
    available = some b.n_initialized;
  }

  unfoldable pub take_slice : A → ℕ → SliceBuffer A → Option (SliceBuffer A × Option ℕ)
  take_slice a i b = do
    next ← next_free (b.slices i)
    let t = record b {
      n_allocated = b.n_allocated + 1;
      slices = put b.slices i (value a);
      available = next;
    }
    some (t, some i)

  -- No free slice is left: the next one is initialized, if there is one.
  unfoldable pub grow : A → SliceBuffer A → Option (SliceBuffer A × Option ℕ)
  unfolding initialize_slice take_slice
  grow a b =
      if b.n_initialized == b.n_max
      then if b.n_allocated == b.n_max then some (b, none) else none
      else take_slice a b.n_initialized (initialize_slice b)

  -- No result where an assertion fails.
  unfoldable pub allocate : A → SliceBuffer A → Option (SliceBuffer A × Option ℕ)
  unfolding grow take_slice
  allocate a b =
      if leb b.n_initialized b.n_max && leb b.n_allocated b.n_initialized
      then elim b.available [ none ↦ grow a b | some i ↦ take_slice a i b ]
      else none

  -- The pages that are given back to the kernel are written before they are read again.
  abbrev pub discard : SliceBuffer A → SliceBuffer A
  discard b = if b.n_allocated == 0 then record b { n_initialized = 0; available = none } else b

  abbrev pub put_back : ℕ → SliceBuffer A → Option (SliceBuffer A)
  put_back i b = do
    _ ← value_of (b.slices i)
    let t = record b {
      n_allocated = b.n_allocated - 1;
      slices = put b.slices i (free_slice b.available);
      available = some i;
    }
    some (discard t)

  unfoldable pub free : ℕ → SliceBuffer A → Option (SliceBuffer A)
  free i b =
      if leb b.n_initialized b.n_max
        && ltb 0 b.n_allocated
        && leb b.n_allocated b.n_initialized
        && ltb i b.n_max
      then put_back i b
      else none
