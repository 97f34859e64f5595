-- ===== src/Prelude/Loops.antt =====
-- Counted loops, and the rule for their invariants.
use Prim.Native.Nat.{ℕ, zero, suc, ◌+◌, ◌<◌}
use mathlib.Core.Path.{◌≡◌, subst}
use native.Mathlib.Omega.{arith}
use native.Mathlib.Decide.{dec_lt}

-- `for(; k > 0; i++, k--) body(i)`.
unfoldable pub for_range {ℓ} : {S : Type ℓ} → (ℕ → S → S) → ℕ → ℕ → S → S
for_range body i zero s = s
for_range body i (suc k) s = for_range body (suc i) k (body i s)

-- What each round carries from its index to the next holds at the end.
pub for_range_inv {ℓ κ} :
    {S : Type ℓ} (P : ℕ → S → Type κ) (body : ℕ → S → S) (n : ℕ)
    → ((i : ℕ) (s : S) → i < n → P i s → P (suc i) (body i s))
    → (i k : ℕ) (s : S) → i + k ≡ n
    → P i s
    → P n (for_range body i k s)
unfolding for_range
for_range_inv P body n keep i zero s e p = subst (λ m. P m s) (omega arith) p
for_range_inv P body n keep i (suc k) s e p =
    for_range_inv P body n keep (suc i) k (body i s) (omega arith) (keep i s (omega arith) p)

-- What holds below `i` and at `i` holds below `suc i`.
pub below_suc {ℓ} :
    (Q : ℕ → Type ℓ) (i : ℕ) → Q i → ((t : ℕ) → t < i → Q t) → (t : ℕ) → t < suc i → Q t
below_suc Q i here below t h = elim (dec_lt t i) [
  | yes lt ↦ below t lt
  | no ge ↦ subst Q {x = i} (omega arith) here
]
