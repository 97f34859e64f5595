-- ===== src/Fs/Bitmap/Scan.antt =====
-- The scan of `balloc` finds the first block that is not marked.
use operating_systeams_proje.Prelude.{
  ℕ, zero, suc, ◌+◌, ◌-◌, ◌*◌, ◌/◌, ◌%◌, ◌<◌, ◌≤◌, ◌≡◌, ◌⊎◌, inl, inr, refl, ◌∙◌, subst, Bool,
  false, not, Option, none, some, min, arith,
}
use native.Mathlib.Decide.{dec_lt}
use operating_systeams_proje.Prelude.Search.{find_index, IsFirst, find_index-IsFirst}
use operating_systeams_proje.Fs.{Fs, bpb, bblock}
use operating_systeams_proje.Fs.Blocks.{is_used, find_free}
use operating_systeams_proje.Fs.Bitmap.Bits.{used}

unfoldable pub is_clear : Fs → ℕ → Bool
is_clear s c = not (used s.journal.buffers.cached s.sb c)

-- The bit of a block that the same block of the map holds.
clear_at :
    (s : Fs) (b u : ℕ)
    → b % bpb ≡ 0
    → u < bpb
    → is_clear s (b + u) ≡ not (is_used (s.journal.buffers.cached (bblock b s.sb)) u)
unfolding is_clear used
clear_at s b u e l =
    let in_block : (b + u) / bpb ≡ b / bpb = omega arith in
    let at : (b + u) % bpb ≡ u = omega arith in rw (in_block, at) refl

-- A scan of `m` indices without a hit, then one that goes on.
join-IsFirst :
    (test : ℕ → Bool) (b m n k c : ℕ) (o : Option ℕ)
    → ((u : ℕ) → u < m → test (b + u) ≡ false)
    → IsFirst test c n o
    → b ≤ c
    → ((t : ℕ) → b ≤ t → t < b + k → (t < b + m) ⊎ ((c ≤ t) × (t < c + n)))
    → (c + n ≤ b + k) ⊎ (n ≡ 0)
    → IsFirst test b k o
join-IsFirst test b m n k c none f g h parts e = λ t lo hi. elim (parts t lo hi) [
  | inl near ↦ subst (λ v. test v ≡ false) {x = b + (t - b)} (omega arith) (f (t - b) (omega arith))
  | inr (l, r) ↦ g t l r
]
join-IsFirst test b m n k c (some t) f (lo, hi, hit, before) h parts e = (
  omega arith,
  omega arith,
  hit,
  λ u l r. elim (parts u l (omega arith)) [
    | inl near ↦
        subst (λ v. test v ≡ false) {x = b + (u - b)} (omega arith) (f (u - b) (omega arith))
    | inr (l', _) ↦ before u l' r
  ],
)

pub find_free-IsFirst :
    (s : Fs) (b k : ℕ)
    → b % bpb ≡ 0
    → IsFirst (is_clear s) b (min (k * bpb) (s.sb.size - b)) (find_free s b k)
unfolding find_free
find_free-IsFirst s b zero e = λ t lo hi. absurd (omega arith)
find_free-IsFirst s b (suc k) e =
    go (find_index test 0 (min bpb (s.sb.size - b)))
      (find_index-IsFirst test 0 (min bpb (s.sb.size - b)))
      (find_free-IsFirst s (b + bpb) k (omega arith))
  where
    test : ℕ → Bool
    test bi = not (is_used (s.journal.buffers.cached (bblock b s.sb)) bi)

    go :
        (o : Option ℕ)
        → IsFirst test 0 (min bpb (s.sb.size - b)) o
        → IsFirst
            (is_clear s)
            (b + bpb)
            (min (k * bpb) (s.sb.size - (b + bpb)))
            (find_free s (b + bpb) k)
        → IsFirst
            (is_clear s)
            b
            (min (suc k * bpb) (s.sb.size - b))
            (elim o [ none ↦ find_free s (b + bpb) k | some bi ↦ some (b + bi) ])
    go none f g =
        join-IsFirst (is_clear s) b (min bpb (s.sb.size - b))
          (min (k * bpb) (s.sb.size - (b + bpb))) (min (suc k * bpb) (s.sb.size - b)) (b + bpb)
          (find_free s (b + bpb) k)
          (λ u l. clear_at s b u e (omega arith) ∙ f u (omega arith) (omega arith)) g (omega arith)
          (λ t lo hi. elim (dec_lt t (b + bpb)) [
            | yes l ↦ inl (omega arith)
            | no l ↦ inr (omega arith, omega arith)
          ])
          (elim (dec_lt (b + bpb) s.sb.size) [
            | yes l ↦ inl (omega arith)
            | no l ↦ inr (omega arith)
          ])
    go (some bi) (lo, hi, hit, before) g = (
      omega arith,
      omega arith,
      clear_at s b bi e (omega arith) ∙ hit,
      λ u l r.
          subst (λ v. is_clear s v ≡ false) {x = b + (u - b)} (omega arith)
            (clear_at s b (u - b) e (omega arith) ∙ before (u - b) (omega arith) (omega arith)),
    )
