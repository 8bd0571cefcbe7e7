-- ===== src/Music/Chunk/Room.antt =====
-- The room that Write grants, and when Expand calls a chunk full.
use mpd_dsd.Prelude.{
  ℕ, zero, suc, ◌+◌, ◌-◌, ◌*◌, ◌/◌, ◌%◌, ◌^◌, ◌<◌, ◌≤◌, ◌≡◌, ◌≢◌, refl, Option, none, some, Bool,
  true, false, ◌||◌, leb, ltb, ◌==◌, arith, if_cases, Yields, Yields-map,
}
use native.Mathlib.Nat.{div-mul-le_self, lt-div-mul-add, mul-mod_left}
use mpd_dsd.Pcm.Format.{AudioFormat, is_valid, get_frame_size, get_frame_size_bounds}
use mpd_dsd.Music.Chunk.{
  Chunk, chunk_size, same_format, check_format, begin_chunk, grant, write, expand,
}

-- The chunk is within its bounds, and of this format unless it is empty.
pub record IsOf (af : AudioFormat) (c : Chunk) : Type 0 where
  pub bounded : c.length ≤ chunk_size
  pub of_format : ((c.length == 0) || same_format c.audio_format af) ≡ true
  pub valid_format : ((c.length == 0) || is_valid c.audio_format) ≡ true

-- A window behind the data that ends less than a frame before the end of the chunk.
abbrev pub IsRoom : AudioFormat → Chunk → Chunk × Option (ℕ × ℕ) → Type 0
IsRoom af c (d, none) = (chunk_size < c.length + get_frame_size af) × (d.length ≡ c.length)
IsRoom af c (d, some (offset, size)) =
    (offset ≡ c.length)
    × (get_frame_size af ≤ size)
    × (size % get_frame_size af ≡ 0)
    × (offset + size ≤ chunk_size)
    × (chunk_size < offset + size + get_frame_size af)
    × (d.length ≡ c.length)
    × (d.audio_format ≡ af)

begin_chunk-length : (t r : ℕ) (c : Chunk) → (begin_chunk t r c).length ≡ c.length
begin_chunk-length t r c =
    if_cases (λ (d : Chunk). d.length ≡ c.length) (c.length == 0) (λ e. refl) (λ e. refl)

le_multiple : (q f : ℕ) → q ≢ 0 → f ≤ q * f
le_multiple zero f ne = absurd (ne refl)
le_multiple (suc q) f ne = omega arith

-- The largest number of frames of a size that fit into the rest.
frames_fit :
    (rest f : ℕ)
    → 0 < f
    → (rest / f * f ≤ rest)
      × (rest < rest / f * f + f)
      × ((rest / f * f) % f ≡ 0)
      × (rest / f ≢ 0 → f ≤ rest / f * f)
frames_fit rest f h = (
  div-mul-le_self rest f,
  lt-div-mul-add h,
  mul-mod_left (rest / f) f,
  λ ne. le_multiple (rest / f) f ne,
)

grant-IsRoom :
    (af : AudioFormat) (c d : Chunk) (rest : ℕ)
    → rest ≡ chunk_size - c.length
    → c.length ≤ chunk_size
    → 0 < get_frame_size af
    → d.length ≡ c.length
    → IsRoom af c (grant af (rest / get_frame_size af) d)
grant-IsRoom af c d rest e b f l =
    let fit = frames_fit rest (get_frame_size af) f in
    if_cases (IsRoom af c) (rest / get_frame_size af == 0) (λ z. (ground (arith, fit), l))
      (λ z. (l, fit.3 (ground arith), fit.2, ground (arith, fit), ground (arith, fit), l, refl))

pub write-IsRoom :
    (af : AudioFormat) (t r : ℕ) (c : Chunk)
    → is_valid af ≡ true
    → IsOf af c
    → Yields (IsRoom af c) (write af t r c)
unfolding write check_format
write-IsRoom af t r c v h =
    rw (v, h.of_format, h.valid_format)
      (grant-IsRoom af c (begin_chunk t r c) ((chunk_size + 2 ^ 64 - c.length) % 2 ^ 64)
        (omega (arith, h.bounded)) h.bounded (get_frame_size_bounds af v).0
        (begin_chunk-length t r c))

abbrev is_nothing : Option (ℕ × ℕ) → Bool
is_nothing none = true
is_nothing (some x) = false

-- Write refuses exactly the chunks that Expand has called full.
pub record IsFilled (af : AudioFormat) (n t r : ℕ) (c : Chunk) (e : Chunk × Bool) : Type 0 where
  pub longer : e.0.length ≡ c.length + n
  pub stays : IsOf af e.0
  pub refuses : Yields (λ w. is_nothing w.1 ≡ e.1) (write af t r e.0)

refuses_iff :
    (af : AudioFormat) (c : Chunk) (w : Chunk × Option (ℕ × ℕ))
    → IsRoom af c w
    → is_nothing w.1 ≡ ltb chunk_size (c.length + get_frame_size af)
refuses_iff af c (d, none) h = ground (arith, h)
refuses_iff af c (d, some (offset, size)) h = ground (arith, h)

pub expand-IsFilled :
    (af : AudioFormat) (n t r : ℕ) (c : Chunk)
    → is_valid af ≡ true
    → same_format c.audio_format af ≡ true
    → is_valid c.audio_format ≡ true
    → c.length + n ≤ chunk_size
    → Yields (IsFilled af n t r c) (expand af n c)
unfolding expand
expand-IsFilled af n t r c v f g h =
    let le-leb : leb (c.length + n) chunk_size ≡ true = ground arith in
    let d : Chunk = record c { length = (c.length + n) % 65536 } in
    let stays : IsOf af d = record {
      bounded = omega arith;
      of_format = ground (arith, f);
      valid_format = ground (arith, g);
    } in
    rw (le-leb, f)
      record {
        longer = omega arith;
        stays = stays;
        refuses =
            Yields-map (IsRoom af d) _ (write af t r d) (write-IsRoom af t r d v stays)
              (refuses_iff af d);
      }
