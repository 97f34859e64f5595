-- ===== src/Prelude/Search.antt =====
-- The scans `for(p = tab; p < tab + N; p++) if(test) …` that stop at the first hit.
use Prim.Native.Nat.{ℕ, zero, suc, ◌+◌, ◌<◌, ◌≤◌}
use mathlib.Core.Path.{◌≡◌, subst}
use mathlib.Core.Bool.{Bool, true, false}
use mathlib.Core.Logic.{inl, inr}
use mathlib.Core.Option.{Option, none, some}
use native.Mathlib.Omega.{arith}
use native.Mathlib.Decide.{ℕ_discrete}
use operating_systeams_proje.Prelude.Tests.{if◌then◌else◌, Bool-cases}

-- The first index from `i` on, of `k`, that passes the test.
unfoldable pub find_index : (ℕ → Bool) → ℕ → ℕ → Option ℕ
find_index test i zero = none
find_index test i (suc k) = let rest = find_index test (suc i) k in if test i then some i else rest

-- The hit is the first one; without a hit, nothing passes.
abbrev pub IsFirst : (ℕ → Bool) → ℕ → ℕ → Option ℕ → Type 0
IsFirst test i k none = (t : ℕ) → i ≤ t → t < i + k → test t ≡ false
IsFirst test i k (some t) =
    (i ≤ t) × (t < i + k) × (test t ≡ true) × ((u : ℕ) → i ≤ u → u < t → test u ≡ false)

later-IsFirst :
    (test : ℕ → Bool) (i k : ℕ) (o : Option ℕ)
    → test i ≡ false
    → IsFirst test (suc i) k o
    → IsFirst test i (suc k) o
later-IsFirst test i k none e f = λ t lo hi. elim (ℕ_discrete t i) [
  | yes q ↦ subst (λ u. test u ≡ false) {x = i} (omega arith) e
  | no q ↦ f t (omega arith) (omega arith)
]
later-IsFirst test i k (some t) e f = (
  omega arith,
  omega arith,
  f.2,
  λ u lo hi. elim (ℕ_discrete u i) [
    | yes q ↦ subst (λ v. test v ≡ false) {x = i} (omega arith) e
    | no q ↦ f.3 u (omega arith) hi
  ],
)

pub find_index-IsFirst : (test : ℕ → Bool) (i k : ℕ) → IsFirst test i k (find_index test i k)
unfolding find_index
find_index-IsFirst test i zero = λ t lo hi. absurd (omega arith)
find_index-IsFirst test i (suc k) = elim (Bool-cases (test i)) [
  | inl e ↦
      subst (IsFirst test i (suc k)) (taken (test i) e)
        (omega arith, omega arith, e, λ u lo hi. absurd (omega arith))
  | inr e ↦
      subst (IsFirst test i (suc k)) (passed (test i) e)
        (later-IsFirst test i k (find_index test (suc i) k) e (find_index-IsFirst test (suc i) k))
]
  where
    taken : (b : Bool) → b ≡ true → some i ≡ (if b then some i else find_index test (suc i) k)
    taken b e = ground arith

    passed :
        (b : Bool)
        → b ≡ false
        → find_index test (suc i) k ≡ (if b then some i else find_index test (suc i) k)
    passed b e = ground arith
