-- ===== src/Dsd/Dsf/Ordered.antt =====
-- Where dsf_to_pcm_order (decoder/DsfDecoderPlugin.cxx) takes its bytes from.
use mpd_dsd.Prelude.{
  ℕ, zero, suc, ◌+◌, ◌-◌, ◌*◌, ◌/◌, ◌%◌, ◌<◌, ◌≤◌, ◌≡◌, ◌≢◌, ◌⊎◌, inl, inr, refl, sym, ap, ◌∙◌,
  arith, ltb, ◌==◌, if◌then◌else◌, ℕ_discrete, dec_lt, if_cases,
}
use mpd_dsd.Prelude.Arrays.{Array, put}
use mpd_dsd.Pcm.BitReverse.{bit_reverse}
use mpd_dsd.Dsd.Dsf.Order.{spread, copy_back, dsf_to_pcm_order, bit_reverse_buffer}

pub put_same : (a : Array ℕ) (i v : ℕ) → put a i v i ≡ v
put_same a i v = ground arith

pub put_other : (a : Array ℕ) (i v k : ℕ) → k ≢ i → put a i v k ≡ a k
put_other a i v k n = ground (arith, n)

spread_before :
    (rounds i j : ℕ) (src scratch : Array ℕ) (k : ℕ)
    → k < i
    → spread rounds i j src scratch k ≡ scratch k
unfolding spread
spread_before zero i j src scratch k l = refl
spread_before (suc rounds) i j src scratch k l =
    spread_before rounds (i + 2) (j + 1) src (put scratch i (src j)) k (omega arith)
    ∙ put_other scratch i (src j) k (omega arith)

-- Every second byte
spread_at :
    (rounds i j : ℕ) (src scratch : Array ℕ) (k : ℕ)
    → i ≤ k
    → k < i + 2 * rounds
    → (k - i) % 2 ≡ 0
    → spread rounds i j src scratch k ≡ src (j + (k - i) / 2)
unfolding spread
spread_at zero i j src scratch k l m e = absurd (omega arith)
spread_at (suc rounds) i j src scratch k l m e = elim (ℕ_discrete k i) [
  | yes s ↦
      let z : j ≡ j + (k - i) / 2 = omega (arith, s) in
      spread_before rounds (i + 2) (j + 1) src (put scratch i (src j)) k (omega (arith, s))
      ∙ ap (put scratch i (src j)) s
      ∙ put_same scratch i (src j)
      ∙ ap src z
  | no n ↦
      let z : j + 1 + (k - (i + 2)) / 2 ≡ j + (k - i) / 2 = omega (arith, n, e, l) in
      spread_at rounds (i + 2) (j + 1) src (put scratch i (src j)) k (omega (arith, n, e, l))
        (omega (arith, m)) (omega (arith, n, e, l))
      ∙ ap src z
]

spread_between :
    (rounds i j : ℕ) (src scratch : Array ℕ) (k : ℕ)
    → (k - i) % 2 ≡ 1
    → spread rounds i j src scratch k ≡ scratch k
unfolding spread
spread_between zero i j src scratch k e = refl
spread_between (suc rounds) i j src scratch k e = elim (dec_lt k (i + 2)) [
  | yes l ↦
      spread_before rounds (i + 2) (j + 1) src (put scratch i (src j)) k l
      ∙ put_other scratch i (src j) k (omega (arith, e))
  | no l ↦
      spread_between rounds (i + 2) (j + 1) src (put scratch i (src j)) k (omega (arith, e, l))
      ∙ put_other scratch i (src j) k (omega (arith, e))
]

copy_back_outside :
    (rounds i : ℕ) (scratch dest : Array ℕ) (k : ℕ)
    → (k < i) ⊎ (i + rounds ≤ k)
    → copy_back rounds i scratch dest k ≡ dest k
unfolding copy_back
copy_back_outside zero i scratch dest k h = refl
copy_back_outside (suc rounds) i scratch dest k h =
    copy_back_outside rounds (i + 1) scratch (put dest i (scratch i)) k (later h)
    ∙ put_other dest i (scratch i) k (other h)
  where
    later : (k < i) ⊎ (i + suc rounds ≤ k) → (k < i + 1) ⊎ (i + 1 + rounds ≤ k)
    later (inl l) = inl (omega arith)
    later (inr l) = inr (omega arith)

    other : (k < i) ⊎ (i + suc rounds ≤ k) → k ≢ i
    other (inl l) = omega arith
    other (inr l) = omega arith

copy_back_at :
    (rounds i : ℕ) (scratch dest : Array ℕ) (k : ℕ)
    → i ≤ k
    → k < i + rounds
    → copy_back rounds i scratch dest k ≡ scratch k
unfolding copy_back
copy_back_at zero i scratch dest k l m = absurd (omega arith)
copy_back_at (suc rounds) i scratch dest k l m = elim (ℕ_discrete k i) [
  | yes s ↦
      copy_back_outside rounds (i + 1) scratch (put dest i (scratch i)) k (inl (omega (arith, s)))
      ∙ ap (put dest i (scratch i)) s
      ∙ put_same dest i (scratch i)
      ∙ ap scratch (sym s)
  | no n ↦
      copy_back_at rounds (i + 1) scratch (put dest i (scratch i)) k (omega (arith, n))
        (omega arith)
]

bit_reverse_outside :
    (rounds p : ℕ) (buffer : Array ℕ) (k : ℕ)
    → (k < p) ⊎ (p + rounds ≤ k)
    → bit_reverse_buffer rounds p buffer k ≡ buffer k
unfolding bit_reverse_buffer
bit_reverse_outside zero p buffer k h = refl
bit_reverse_outside (suc rounds) p buffer k h =
    bit_reverse_outside rounds (p + 1) (put buffer p (bit_reverse (buffer p))) k (later h)
    ∙ put_other buffer p (bit_reverse (buffer p)) k (other h)
  where
    later : (k < p) ⊎ (p + suc rounds ≤ k) → (k < p + 1) ⊎ (p + 1 + rounds ≤ k)
    later (inl l) = inl (omega arith)
    later (inr l) = inr (omega arith)

    other : (k < p) ⊎ (p + suc rounds ≤ k) → k ≢ p
    other (inl l) = omega arith
    other (inr l) = omega arith

bit_reverse_at :
    (rounds p : ℕ) (buffer : Array ℕ) (k : ℕ)
    → p ≤ k
    → k < p + rounds
    → bit_reverse_buffer rounds p buffer k ≡ bit_reverse (buffer k)
unfolding bit_reverse_buffer
bit_reverse_at zero p buffer k l m = absurd (omega arith)
bit_reverse_at (suc rounds) p buffer k l m = elim (ℕ_discrete k p) [
  | yes s ↦
      bit_reverse_outside rounds (p + 1) (put buffer p (bit_reverse (buffer p))) k
        (inl (omega (arith, s)))
      ∙ ap (put buffer p (bit_reverse (buffer p))) s
      ∙ put_same buffer p (bit_reverse (buffer p))
      ∙ ap (λ j. bit_reverse (buffer j)) (sym s)
  | no n ↦
      bit_reverse_at rounds (p + 1) (put buffer p (bit_reverse (buffer p))) k (omega (arith, n))
        (omega arith)
      ∙ ap bit_reverse (put_other buffer p (bit_reverse (buffer p)) k n)
]

-- Reversed are the bytes that were read.
pub bit_reverse_buffer_lem :
    (n : ℕ) (buffer : Array ℕ) (k : ℕ)
    → bit_reverse_buffer n 0 buffer k ≡ (if ltb k n then bit_reverse (buffer k) else buffer k)
bit_reverse_buffer_lem n buffer k =
    if_cases (λ v. bit_reverse_buffer n 0 buffer k ≡ v) (ltb k n)
      (λ e. bit_reverse_at n 0 buffer k (omega arith) (ground (arith, e)))
      (λ e. bit_reverse_outside n 0 buffer k (inr (ground (arith, e))))

-- The byte of the two blocks that goes to a place: of the left channel first, then of the right one.
abbrev pub pcm_source : ℕ → ℕ
pcm_source i = if i % 2 == 0 then i / 2 else 4096 + i / 2

ordered_at :
    (dest scratch : Array ℕ) (n i : ℕ)
    → i < n
    → (dsf_to_pcm_order dest scratch n).0 i ≡ dest (pcm_source i)
unfolding dsf_to_pcm_order
ordered_at dest scratch n i l =
    copy_back_at n 0 both dest i (omega arith) (omega arith)
    ∙ if_cases (λ j. both i ≡ dest j) (i % 2 == 0)
        (λ e.
          left_between (ground (arith, e))
          ∙ spread_at ((n + 1) / 2) 0 0 dest scratch i (omega arith) (ground (arith, e, l))
              (ground (arith, e))
          ∙ ap dest (let z : 0 + (i - 0) / 2 ≡ i / 2 = omega arith in z))
        (λ e.
          spread_at (n / 2) 1 0 (λ j. dest (4096 + j)) left i (ground (arith, e))
            (ground (arith, e, l)) (ground (arith, e))
          ∙ ap dest (let z : 4096 + (0 + (i - 1) / 2) ≡ 4096 + i / 2 = ground (arith, e) in z))
  where
    left : Array ℕ
    left = spread ((n + 1) / 2) 0 0 dest scratch

    both : Array ℕ
    both = spread (n / 2) 1 0 (λ j. dest (4096 + j)) left

    left_between : i % 2 ≡ 0 → both i ≡ left i
    left_between e = elim (dec_lt i 1) [
      | yes s ↦ spread_before (n / 2) 1 0 (λ j. dest (4096 + j)) left i s
      | no s ↦ spread_between (n / 2) 1 0 (λ j. dest (4096 + j)) left i (omega (arith, e, s))
    ]

-- dsf_to_pcm_order
pub dsf_to_pcm_order_lem :
    (dest scratch : Array ℕ) (n i : ℕ)
    → (dsf_to_pcm_order dest scratch n).0 i ≡ (if ltb i n then dest (pcm_source i) else dest i)
unfolding dsf_to_pcm_order
dsf_to_pcm_order_lem dest scratch n i =
    if_cases (λ v. (dsf_to_pcm_order dest scratch n).0 i ≡ v) (ltb i n)
      (λ e. ordered_at dest scratch n i (ground (arith, e)))
      (λ e. copy_back_outside n 0 _ dest i (inr (ground (arith, e))))
