-- ===== src/Pcm/BitReverse.antt =====
-- util/bit_reverse.c and util/bit_reverse.h: the bits of a byte in reverse order, from a table.
use mpd_dsd.Prelude.{
  ℕ, zero, suc, ◌+◌, ◌*◌, ◌/◌, ◌%◌, ◌<◌, ◌≡◌, refl, arith, Bool, true, ◌&&◌, List, [], ◌∷◌, ◌++◌,
  ◌==◌, ==_iff, ℕ_discrete, ap, sym, ◌∙◌,
}

-- The macros R2, R4 and R6.
unfoldable pub r2 : ℕ → List ℕ
r2 n = n ∷ (n + 2 * 64) ∷ (n + 1 * 64) ∷ (n + 3 * 64) ∷ []

unfoldable pub r4 : ℕ → List ℕ
unfolding r2
r4 n = r2 n ++ (r2 (n + 2 * 16) ++ (r2 (n + 1 * 16) ++ r2 (n + 3 * 16)))

unfoldable pub r6 : ℕ → List ℕ
unfolding r4
r6 n = r4 n ++ (r4 (n + 2 * 4) ++ (r4 (n + 1 * 4) ++ r4 (n + 3 * 4)))

unfoldable pub bit_reverse_table : List ℕ
unfolding r6
bit_reverse_table = r6 0 ++ (r6 2 ++ (r6 1 ++ r6 3))

-- table[i], for an index in the table
unfoldable pub entry : List ℕ → ℕ → ℕ
entry [] i = 0
entry (x ∷ xs) zero = x
entry (x ∷ xs) (suc i) = entry xs i

unfoldable pub bit_reverse : ℕ → ℕ
unfolding bit_reverse_table entry
bit_reverse x = entry bit_reverse_table x

-- The byte with bit 0 of `x` in bit 7, and so on.
abbrev pub reversed_bits : ℕ → ℕ
reversed_bits x =
    x % 2 * 128
    + x / 2 % 2 * 64
    + x / 4 % 2 * 32
    + x / 8 % 2 * 16
    + x / 16 % 2 * 8
    + x / 32 % 2 * 4
    + x / 64 % 2 * 2
    + x / 128 % 2

agree_below : ℕ → (ℕ → ℕ) → (ℕ → ℕ) → Bool
agree_below zero f g = true
agree_below (suc n) f g = (f n == g n) && agree_below n f g

agree_below_lem : (n : ℕ) (f g : ℕ → ℕ) → agree_below n f g ≡ true → (x : ℕ) → x < n → f x ≡ g x
unfolding agree_below
agree_below_lem zero f g e x h = elim h [ ]
agree_below_lem (suc n) f g e x h = elim (ℕ_discrete x n) [
  | yes q ↦ ap f q ∙ (==_iff (f n) (g n)).0 (ground arith) ∙ ap g (sym q)
  | no ne ↦ agree_below_lem n f g (ground arith) x (omega arith)
]

table_agrees : agree_below 256 bit_reverse reversed_bits ≡ true
unfolding agree_below bit_reverse
table_agrees = refl

twice_agrees : agree_below 256 (λ x. bit_reverse (bit_reverse x)) (λ x. x) ≡ true
unfolding agree_below bit_reverse
twice_agrees = refl

-- The entry of the bit reversal table for a byte is the byte with its bits in reverse order, and
-- reversed twice a byte is as it was.
pub bit_reverse_bits :
    (x : ℕ) → x < 256 → (bit_reverse x ≡ reversed_bits x) × (bit_reverse (bit_reverse x) ≡ x)
bit_reverse_bits x h = (
  agree_below_lem 256 bit_reverse reversed_bits table_agrees x h,
  agree_below_lem 256 (λ y. bit_reverse (bit_reverse y)) (λ y. y) twice_agrees x h,
)
