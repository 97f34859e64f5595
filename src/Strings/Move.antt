-- ===== src/Strings/Move.antt =====
-- `memmove` copies the block as it was, also where the two blocks overlap, and touches nothing else.
use operating_systeams_proje.Prelude.{
  ℕ, zero, suc, ◌+◌, ◌-◌, ◌≤◌, ◌<◌, ◌≡◌, ◌⊎◌, inl, inr, ◌∙◌, ap, true, false, ◌&&◌, ltb, leb, ◌==◌,
  if◌then◌else◌, update, arith, Bool-cases,
}
use operating_systeams_proje.Strings.{Memory, copy_down, copy_up, memmove}

-- The copy that was meant.
abbrev pub moved : ℕ → ℕ → ℕ → Memory → Memory
moved d s n m x = if leb d x && ltb x (d + n) then m (s + (x - d)) else m x

copy_down-moved : (d s n : ℕ) (m : Memory) (x : ℕ) → s < d → copy_down d s n m x ≡ moved d s n m x
unfolding copy_down
copy_down-moved d s zero m x h = ground arith
copy_down-moved d s (suc n) m x h =
    copy_down-moved d s n (update m (d + n) (m (s + n))) x h ∙ step (Bool-cases (x == d + n))
  where
    step :
        ((x == d + n) ≡ true) ⊎ ((x == d + n) ≡ false)
        → moved d s n (update m (d + n) (m (s + n))) x ≡ moved d s (suc n) m x
    step (inl e) = let at : s + (x - d) ≡ s + n = ground arith in ground (arith, ap m at)
    step (inr e) = ground arith

copy_up-moved :
    (d s n : ℕ) (m : Memory) (x : ℕ) → (d ≤ s) ⊎ (s + n ≤ d) → copy_up d s n m x ≡ moved d s n m x
unfolding copy_up
copy_up-moved d s zero m x h = ground arith
copy_up-moved d s (suc n) m x h =
    copy_up-moved (d + 1) (s + 1) n (update m d (m s)) x (omega arith)
    ∙ step (Bool-cases (x == d)) (Bool-cases (leb (d + 1) x))
  where
    step :
        ((x == d) ≡ true) ⊎ ((x == d) ≡ false)
        → (leb (d + 1) x ≡ true) ⊎ (leb (d + 1) x ≡ false)
        → moved (d + 1) (s + 1) n (update m d (m s)) x ≡ moved d s (suc n) m x
    step (inl e) g = let at : s + (x - d) ≡ s = ground arith in ground (arith, ap m at)
    step (inr e) (inl g) =
        let at : s + 1 + (x - (d + 1)) ≡ s + (x - d) = ground arith in ground (arith, ap m at)
    step (inr e) (inr g) = ground arith

-- After `memmove(d, s, n)` the destination holds what the source held before the call, whether or
-- not the two overlap, and every other byte is as it was.
pub memmove-moved : (d s n : ℕ) (m : Memory) (x : ℕ) → memmove d s n m x ≡ moved d s n m x
unfolding memmove
memmove-moved d s n m x = elim (Bool-cases (ltb s d && ltb d (s + n))) [
  | inl e ↦ rw e (copy_down-moved d s n m x (ground arith))
  | inr e ↦ rw e (copy_up-moved d s n m x (ground arith))
]
