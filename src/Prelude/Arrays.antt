-- ===== src/Prelude/Arrays.antt =====
-- C arrays as functions of the index. The length stands beside the array, in the state that owns it;
-- invariants say that the accesses lie within it.
use Prim.Native.Nat.{ℕ}
use mpd_dsd.Prelude.Tests.{◌==◌, if◌then◌else◌}

abbrev pub Array {ℓ} : Type ℓ → Type ℓ
Array A = ℕ → A

-- a[i] = v
abbrev pub put {ℓ} : {A : Type ℓ} → Array A → ℕ → A → Array A
put a i v j = if j == i then v else a j

-- std::swap(a[i], a[j])
abbrev pub swap {ℓ} : {A : Type ℓ} → Array A → ℕ → ℕ → Array A
swap a i j = put (put a i (a j)) j (a i)
