-- ===== src/Prelude/Arrays.antt =====
-- C arrays and memory as functions from the index. A bound is stated where the code relies on it.
use Prim.Native.Nat.{ℕ, zero, suc}
use mathlib.Core.Path.{◌≡◌, refl, sym, ap, subst}
use native.Mathlib.Decide.{ℕ_discrete}
use mathlib.Core.Logic.{◌≢◌}
use mathlib.Core.List.{List, [], ◌∷◌}
use native.Mathlib.Omega.{arith}
use operating_systeams_proje.Prelude.Tests.{◌==◌, if◌then◌else◌}
use operating_systeams_proje.Prelude.Lists.{length}

-- `a[i] = v`.
abbrev pub update {ℓ} : {A : Type ℓ} → (ℕ → A) → ℕ → A → ℕ → A
update a i v j = if j == i then v else a j

pub update_self {ℓ} : {A : Type ℓ} (a : ℕ → A) (i : ℕ) (v : A) → update a i v i ≡ v
update_self a i v = ground arith

pub update_ne {ℓ} : {A : Type ℓ} (a : ℕ → A) (i j : ℕ) (v : A) → j ≢ i → update a i v j ≡ a j
update_ne a i j v h = ground arith

-- What holds of the new value at `i`, and of the old ones elsewhere, holds after the store.
pub at_update {ℓ κ} :
    {A : Type ℓ} (P : ℕ → A → Type κ) (a : ℕ → A) (i : ℕ) (v : A) (j : ℕ)
    → P i v
    → (j ≢ i → P j (a j))
    → P j (update a i v j)
at_update P a i v j here there = elim (ℕ_discrete j i) [
  | yes e ↦ subst (λ k. P k (update a i v k)) (sym e) (subst (P i) (sym (update_self a i v)) here)
  | no ne ↦ subst (P j) (sym (update_ne a i j v ne)) (there ne)
]

-- `a[off], …, a[off + n - 1]`.
abbrev pub slice {ℓ} : {A : Type ℓ} → (ℕ → A) → ℕ → ℕ → List A
slice a off zero = []
slice a off (suc n) = a off ∷ slice a (suc off) n

pub length-slice {ℓ} : {A : Type ℓ} (a : ℕ → A) (off n : ℕ) → length (slice a off n) ≡ n
length-slice a off zero = refl
length-slice a off (suc n) = ap suc (length-slice a (suc off) n)
