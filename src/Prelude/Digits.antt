-- ===== src/Prelude/Digits.antt =====
-- One binary digit of a number, set by adding its weight and cleared by taking it off.
use Prim.Native.Nat.{ℕ, zero, suc, ◌+◌, ◌-◌, ◌/◌, ◌%◌, ◌^◌, ◌≤◌}
use mathlib.Core.Path.{◌≡◌, refl, sym, ◌∙◌, ap}
use mathlib.Core.Logic.{◌≢◌}
use native.Mathlib.Omega.{arith}
use native.Mathlib.Nat.{pow-suc, div-div-eq-div-mul}

abbrev pub digit : ℕ → ℕ → ℕ
digit x k = x / 2 ^ k % 2

digit-suc : (x k : ℕ) → digit x (suc k) ≡ digit (x / 2) k
digit-suc x k =
    ap (λ d. x / d % 2) (omega (arith, pow-suc 2 k))
    ∙ ap (λ q. q % 2) (sym (div-div-eq-div-mul x 2 (2 ^ k)))

half_added : (x k : ℕ) → (x + 2 ^ suc k) / 2 ≡ x / 2 + 2 ^ k
half_added x k = omega (arith, pow-suc 2 k)

half_taken : (x k : ℕ) → (x - 2 ^ suc k) / 2 ≡ x / 2 - 2 ^ k
half_taken x k = omega (arith, pow-suc 2 k)

pub digit-added : (k x : ℕ) → digit x k ≡ 0 → digit (x + 2 ^ k) k ≡ 1
digit-added zero x h = omega arith
digit-added (suc k) x h =
    digit-suc (x + 2 ^ suc k) k
    ∙ ap (λ y. digit y k) (half_added x k)
    ∙ digit-added k (x / 2) (sym (digit-suc x k) ∙ h)

pub digit-added_other : (k j x : ℕ) → digit x k ≡ 0 → k ≢ j → digit (x + 2 ^ k) j ≡ digit x j
digit-added_other zero zero x h ne = absurd (ne refl)
digit-added_other zero (suc j) x h ne =
    let same : (x + 2 ^ 0) / 2 ≡ x / 2 = omega arith in
    digit-suc (x + 2 ^ 0) j ∙ ap (λ y. digit y j) same ∙ sym (digit-suc x j)
digit-added_other (suc k) zero x h ne = omega (arith, pow-suc 2 k)
digit-added_other (suc k) (suc j) x h ne =
    digit-suc (x + 2 ^ suc k) j
    ∙ ap (λ y. digit y j) (half_added x k)
    ∙ digit-added_other k j (x / 2) (sym (digit-suc x k) ∙ h) (λ e. ne (ap suc e))
    ∙ sym (digit-suc x j)

pub digit-taken : (k x : ℕ) → digit x k ≡ 1 → digit (x - 2 ^ k) k ≡ 0
digit-taken zero x h = omega arith
digit-taken (suc k) x h =
    digit-suc (x - 2 ^ suc k) k
    ∙ ap (λ y. digit y k) (half_taken x k)
    ∙ digit-taken k (x / 2) (sym (digit-suc x k) ∙ h)

weight_le : (k x : ℕ) → digit x k ≡ 1 → 2 ^ k ≤ x
weight_le zero x h = omega arith
weight_le (suc k) x h = omega (arith, pow-suc 2 k, weight_le k (x / 2) (sym (digit-suc x k) ∙ h))

pub digit-taken_other : (k j x : ℕ) → digit x k ≡ 1 → k ≢ j → digit (x - 2 ^ k) j ≡ digit x j
digit-taken_other zero zero x h ne = absurd (ne refl)
digit-taken_other zero (suc j) x h ne =
    let same : (x - 2 ^ 0) / 2 ≡ x / 2 = omega arith in
    digit-suc (x - 2 ^ 0) j ∙ ap (λ y. digit y j) same ∙ sym (digit-suc x j)
digit-taken_other (suc k) zero x h ne = omega (arith, pow-suc 2 k, weight_le (suc k) x h)
digit-taken_other (suc k) (suc j) x h ne =
    digit-suc (x - 2 ^ suc k) j
    ∙ ap (λ y. digit y j) (half_taken x k)
    ∙ digit-taken_other k j (x / 2) (sym (digit-suc x k) ∙ h) (λ e. ne (ap suc e))
    ∙ sym (digit-suc x j)
