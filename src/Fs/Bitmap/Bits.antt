-- ===== src/Fs/Bitmap/Bits.antt =====
-- The bits of the free map: the stores of `balloc` and `bfree` into its bytes.
use operating_systeams_proje.Prelude.{
  ℕ, ◌+◌, ◌-◌, ◌/◌, ◌%◌, ◌^◌, ◌<◌, ◌≡◌, ◌≢◌, ◌⊎◌, inl, inr, refl, sym, ◌∙◌, ap, ap₂, subst, Bool,
  true, false, not, ◌&&◌, ◌||◌, ◌==◌, update, update_self, update_ne, arith, ==_ne, ==_iff, mod-lt,
}
use native.Mathlib.Decide.{ℕ_discrete}
use operating_systeams_proje.Prelude.Digits.{
  digit, digit-added, digit-added_other, digit-taken, digit-taken_other,
}
use operating_systeams_proje.Disk.{Block}
use operating_systeams_proje.Fs.{Superblock, bpb, bblock}
use operating_systeams_proje.Fs.Blocks.{is_used, mark_used, mark_free}

-- Block `c` is marked in the map.
unfoldable pub used : (ℕ → Block) → Superblock → ℕ → Bool
unfolding is_used
used d sb c = is_used (d (bblock c sb)) (c % bpb)

hit_set : (c k d d' : ℕ) → c ≡ k → d' ≡ 1 → (d' == 1) ≡ (c == k) || (d == 1)
hit_set c k d d' e f = ground arith

miss_set : (c k d d' : ℕ) → c ≢ k → d' ≡ d → (d' == 1) ≡ (c == k) || (d == 1)
miss_set c k d d' e f = ground arith

hit_clear : (c k d d' : ℕ) → c ≡ k → d' ≡ 0 → (d' == 1) ≡ not (c == k) && (d == 1)
hit_clear c k d d' e f = ground arith

miss_clear : (c k d d' : ℕ) → c ≢ k → d' ≡ d → (d' == 1) ≡ not (c == k) && (d == 1)
miss_clear c k d d' e f = ground arith

unset : (b : Block) (k : ℕ) → is_used b k ≡ false → digit (b (k / 8)) (k % 8) ≡ 0
unfolding is_used
unset b k h = zero_of (digit (b (k / 8)) (k % 8)) (mod-lt (b (k / 8) / 2 ^ (k % 8)) (omega arith)) h
  where
    zero_of : (d : ℕ) → d < 2 → (d == 1) ≡ false → d ≡ 0
    zero_of d l e = ground arith

-- The digit of `c` after a store into the byte of `k`, where `c` is `k`, or shares its byte, or does not.
stored_digit :
    (b : Block) (k c x d' : ℕ)
    → (c ≡ k → digit x (k % 8) ≡ d')
    → (k % 8 ≢ c % 8 → digit x (c % 8) ≡ digit (b (k / 8)) (c % 8))
    → ((c ≡ k) × (digit (update b (k / 8) x (c / 8)) (c % 8) ≡ d'))
      ⊎ ((c ≢ k) × (digit (update b (k / 8) x (c / 8)) (c % 8) ≡ digit (b (c / 8)) (c % 8)))
stored_digit b k c x d' self other = elim (ℕ_discrete c k) [
  | yes e ↦ inl (
    e,
    subst (λ j. digit (update b (k / 8) x (j / 8)) (j % 8) ≡ d') (sym e)
        (ap (λ y. digit y (k % 8)) (update_self b (k / 8) x) ∙ self e),
  )
  | no ne ↦ inr (
    ne,
    elim (ℕ_discrete (c / 8) (k / 8)) [
      | yes e ↦
          subst (λ m. digit (update b (k / 8) x m) (c % 8) ≡ digit (b m) (c % 8)) (sym e)
            (ap (λ y. digit y (c % 8)) (update_self b (k / 8) x) ∙ other (λ f. ne (omega arith)))
      | no far ↦ ap (λ y. digit y (c % 8)) (update_ne b (k / 8) (c / 8) x far)
    ],
  )
]

pub is_used-mark_used :
    (b : Block) (k c : ℕ)
    → is_used b k ≡ false
    → is_used (mark_used b k) c ≡ (c == k) || is_used b c
unfolding is_used mark_used
is_used-mark_used b k c h =
    let z : digit (b (k / 8)) (k % 8) ≡ 0 = unset b k h in
    elim (stored_digit b k c (b (k / 8) + 2 ^ (k % 8)) 1 (λ e. digit-added (k % 8) (b (k / 8)) z)
      (λ ne. digit-added_other (k % 8) (c % 8) (b (k / 8)) z ne)) [
        | inl (e, f) ↦ hit_set c k (digit (b (c / 8)) (c % 8)) _ e f
        | inr (ne, f) ↦ miss_set c k (digit (b (c / 8)) (c % 8)) _ ne f
      ]

pub is_used-mark_free :
    (b : Block) (k c : ℕ)
    → is_used b k ≡ true
    → is_used (mark_free b k) c ≡ not (c == k) && is_used b c
unfolding is_used mark_free
is_used-mark_free b k c h =
    let z : digit (b (k / 8)) (k % 8) ≡ 1 = (==_iff (digit (b (k / 8)) (k % 8)) 1).0 h in
    elim (stored_digit b k c (b (k / 8) - 2 ^ (k % 8)) 0 (λ e. digit-taken (k % 8) (b (k / 8)) z)
      (λ ne. digit-taken_other (k % 8) (c % 8) (b (k / 8)) z ne)) [
        | inl (e, f) ↦ hit_clear c k (digit (b (c / 8)) (c % 8)) _ e f
        | inr (ne, f) ↦ miss_clear c k (digit (b (c / 8)) (c % 8)) _ ne f
      ]

-- One bit of the map has been given the value `v`: the other bits are as they were.
pub marked :
    (d : ℕ → Block) (sb : Superblock) (b c : ℕ) (bits : Block) (d' : ℕ → Block)
    (f : Bool → Bool → Bool)
    → ((k : ℕ) → is_used bits k ≡ f (k == b % bpb) (is_used (d (bblock b sb)) k))
    → ((y : Bool) → f false y ≡ y)
    → (bblock c sb ≡ bblock b sb → d' (bblock c sb) ≡ bits)
    → (bblock c sb ≢ bblock b sb → d' (bblock c sb) ≡ d (bblock c sb))
    → used d' sb c ≡ f (c == b) (used d sb c)
unfolding used
marked d sb b c bits d' f h off same apart = elim (ℕ_discrete (c / bpb) (b / bpb)) [
  | yes e ↦
      ap (λ (x : Block). is_used x (c % bpb)) (same (ap (λ q. q + sb.bmapstart) e))
      ∙ h (c % bpb)
      ∙ ap₂ (λ t q. f t (is_used (d (q + sb.bmapstart)) (c % bpb))) (same_test e) (sym e)
  | no ne ↦
      ap (λ (x : Block). is_used x (c % bpb)) (apart (λ e. ne (omega arith)))
      ∙ sym (
          ap (λ t. f t (used d sb c)) (==_ne c b (λ e. ne (ap (λ q. q / bpb) e)))
          ∙ off (used d sb c))
]
  where
    same_test : c / bpb ≡ b / bpb → (c % bpb == b % bpb) ≡ (c == b)
    same_test e = ground arith

pub not-false : (x : Bool) → not x ≡ false → x ≡ true
not-false true e = refl
not-false false e = sym e

pub not-true : (x : Bool) → not x ≡ true → x ≡ false
not-true true e = sym e
not-true false e = refl

pub clash : (x : Bool) → x ≡ true → x ≡ false → ⊥
clash x e f = cc

pub used_bit :
    (d : ℕ → Block) (sb : Superblock) (b : ℕ) → is_used (d (bblock b sb)) (b % bpb) ≡ used d sb b
unfolding used
used_bit d sb b = refl
