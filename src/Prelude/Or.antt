-- ===== src/Prelude/Or.antt =====
-- Inclusive or on numbers of any width, as far as it sets flags below an aligned address.
use Prim.Native.Nat.{ℕ, zero, suc, ◌+◌, ◌*◌, ◌/◌, ◌%◌, ◌^◌, ◌≤◌, ◌<◌, max, bit_or, bit_or-bitwise}
use mathlib.Core.Path.{◌≡◌, refl, sym, ◌∙◌}
use native.Mathlib.Omega.{arith}
use native.Mathlib.Nat.{le_refl, pow-suc, mul_assoc}
use operating_systeams_proje.Prelude.Bits.{digits_count}

zero-or : (b : ℕ) → bit_or 0 b ≡ b
zero-or b = bit_or-bitwise 0 b

bit_or-suc : (a b : ℕ) → bit_or (suc a) b ≡ bit_or (suc a / 2) (b / 2) * 2 + max (suc a % 2) (b % 2)
bit_or-suc a b =
    simp bit_or-bitwise
      (rw (digits_count (λ y. y) max a (suc a / 2) (suc a / 2) (b / 2) (omega arith) (le_refl _)))

bit_or_step : (a b : ℕ) → bit_or a b ≡ bit_or (a / 2) (b / 2) * 2 + max (a % 2) (b % 2)
bit_or_step zero b = rw (zero-or b, zero-or (b / 2)) (omega arith)
bit_or_step (suc a) b = bit_or-suc a b

or-zero_below : (n a : ℕ) → a ≤ n → bit_or a 0 ≡ a
or-zero_below zero zero p = refl
or-zero_below zero (suc a) p = absurd (omega arith)
or-zero_below (suc n) a p = omega (arith, bit_or_step a 0, or-zero_below n (a / 2) (omega arith))

pub or-zero : (a : ℕ) → bit_or a 0 ≡ a
or-zero a = or-zero_below a a (le_refl _)

-- The lowest digit is set, the others stay.
pub or-one : (a : ℕ) → bit_or a 1 ≡ a / 2 * 2 + 1
or-one a = omega (arith, bit_or_step a 1, or-zero (a / 2))

-- A number below `2 ^ k` fills the `k` empty digits of a multiple of `2 ^ k`.
pub bit_or_fill : (k m l : ℕ) → l < 2 ^ k → bit_or (m * 2 ^ k) l ≡ m * 2 ^ k + l
bit_or_fill zero m zero h = or-zero (m * 1) ∙ omega arith
bit_or_fill zero m (suc l) h = absurd (omega arith)
bit_or_fill (suc k) m l h =
    let e : 2 ^ suc k ≡ 2 ^ k * 2 = pow-suc 2 k in
    let d : m * 2 ^ suc k ≡ m * 2 ^ k * 2 = rw e (sym (mul_assoc m (2 ^ k) 2)) in
    let half : m * 2 ^ suc k / 2 ≡ m * 2 ^ k = omega arith in
    let ih : bit_or (m * 2 ^ suc k / 2) (l / 2) ≡ m * 2 ^ k + l / 2 =
      rw half (bit_or_fill k m (l / 2) (omega arith)) in
    omega (arith, bit_or_step (m * 2 ^ suc k) l)

pub or-two : (a : ℕ) → bit_or a 2 ≡ (a / 2 / 2 * 2 + 1) * 2 + a % 2
or-two a = omega (arith, bit_or_step a 2, or-one (a / 2))

pub or-four : (a : ℕ) → bit_or a 4 ≡ ((a / 2 / 2 / 2 * 2 + 1) * 2 + a / 2 % 2) * 2 + a % 2
or-four a = omega (arith, bit_or_step a 4, or-two (a / 2))
