-- ===== src/Strings/Text.antt =====
-- The string functions against the text that a string stands for.
use operating_systeams_proje.Prelude.{
  ℕ, zero, suc, ◌+◌, ◌≤◌, ◌<◌, ◌≡◌, ◌≢◌, ◌⊎◌, inl, ◌↔◌, refl, sym, ◌∙◌, ap, ap₂, true, false, ◌==◌,
  if◌then◌else◌, update, arith, List, [], ◌∷◌, update_self, update_ne,
}
use native.Mathlib.Decide.{ℕ_discrete}
use operating_systeams_proje.Strings.{Memory, strncmp, strncpy, pad, safestrcpy, copy_safely}

-- The text at `a`: the bytes before the first NUL, `n` at most.
unfoldable pub text : Memory → ℕ → ℕ → List ℕ
text m a zero = []
text m a (suc n) = let rest = text m (a + 1) n in if m a == 0 then [] else m a ∷ rest

abbrev pub IsBytes : Memory → Type 0
IsBytes m = (x : ℕ) → m x < 256

-- On a memory of bytes `strncmp` answers 0 exactly when the two texts are the same.
pub strncmp-text :
    (m : Memory) (p q n : ℕ) → IsBytes m → (strncmp m p q n ≡ 0) ↔ (text m p n ≡ text m q n)
unfolding strncmp text
strncmp-text m p q zero v = ((λ _. refl), (λ _. refl))
strncmp-text m p q (suc n) v =
    let ih : (strncmp m (p + 1) (q + 1) n ≡ 0) ↔ (text m (p + 1) n ≡ text m (q + 1) n) =
      strncmp-text m (p + 1) (q + 1) n v in
    ((λ h. ground (arith, ih.0, v p, v q)), (λ h. ground (arith, ih.1, v p, v q)))

pad_other : (s n : ℕ) (m : Memory) (x : ℕ) → (x < s) ⊎ (s + n ≤ x) → pad s n m x ≡ m x
unfolding pad
pad_other s zero m x h = refl
pad_other s (suc n) m x h = ground (arith, pad_other (s + 1) n (update m s 0) x)

strncpy_other : (s t n : ℕ) (m : Memory) (x : ℕ) → (x < s) ⊎ (s + n ≤ x) → strncpy s t n m x ≡ m x
unfolding strncpy
strncpy_other s t zero m x h = refl
strncpy_other s t (suc n) m x h = ground (
  arith,
  pad_other (s + 1) n (update m s (m t)) x,
  strncpy_other (s + 1) (t + 1) n (update m s (m t)) x,
)

text-update :
    (m : Memory) (a n s v : ℕ) → (s < a) ⊎ (a + n ≤ s) → text (update m s v) a n ≡ text m a n
unfolding text
text-update m a zero s v h = refl
text-update m a (suc n) s v h =
    let ne : update m s v a ≡ m a = ground arith in ground (arith, text-update m (a + 1) n s v)

text_ext :
    (w m : Memory) (a n : ℕ) → ((i : ℕ) → i < n → w (a + i) ≡ m (a + i)) → text w a n ≡ text m a n
unfolding text
text_ext w m a zero h = refl
text_ext w m a (suc n) h =
    let first : w a ≡ m a =
      ap w {x = a} {y = a + 0} (omega arith)
      ∙ h 0 (omega arith)
      ∙ ap m {x = a + 0} {y = a} (omega arith) in
    ground (arith, first, text_ext w m (a + 1) n (λ i lt. shifted i lt))
  where
    shifted : (i : ℕ) → i < n → w (a + 1 + i) ≡ m (a + 1 + i)
    shifted i lt =
        ap w {x = a + 1 + i} {y = a + suc i} (omega arith)
        ∙ h (suc i) (omega arith)
        ∙ ap m {x = a + suc i} {y = a + 1 + i} (omega arith)

-- Two blocks of `n` bytes that do not meet.
abbrev pub IsApart : ℕ → ℕ → ℕ → Type 0
IsApart s t n = (s + n ≤ t) ⊎ (t + n ≤ s)

text_nul : (m : Memory) (a n : ℕ) → m a ≡ 0 → text m a (suc n) ≡ []
unfolding text
text_nul m a n e = let z : (m a == 0) ≡ true = ground arith in rw z

text_step : (m : Memory) (a n : ℕ) → m a ≢ 0 → text m a (suc n) ≡ m a ∷ text m (a + 1) n
unfolding text
text_step m a n e = let z : (m a == 0) ≡ false = ground arith in rw z

strncpy_nul :
    (s t n : ℕ) (m : Memory) → m t ≡ 0 → strncpy s t (suc n) m ≡ pad (s + 1) n (update m s (m t))
unfolding strncpy
strncpy_nul s t n m e = let z : (m t == 0) ≡ true = ground arith in rw z

strncpy_step :
    (s t n : ℕ) (m : Memory)
    → m t ≢ 0
    → strncpy s t (suc n) m ≡ strncpy (s + 1) (t + 1) n (update m s (m t))
unfolding strncpy
strncpy_step s t n m e = let z : (m t == 0) ≡ false = ground arith in rw z

-- A text is known from its first byte and the rest.
text_cons :
    (m w : Memory) (s t n : ℕ)
    → m t ≢ 0
    → w s ≡ m t
    → text w (s + 1) n ≡ text m (t + 1) n
    → text w s (suc n) ≡ text m t (suc n)
text_cons m w s t n ne e h =
    text_step w s n (λ z. ne (sym e ∙ z)) ∙ ap₂ ◌∷◌ e h ∙ sym (text_step m t n ne)

text-copied : (s t n : ℕ) (m : Memory) → IsApart s t n → text (strncpy s t n m) s n ≡ text m t n
unfolding text strncpy
text-copied s t zero m h = refl
text-copied s t (suc n) m h = elim (ℕ_discrete (m t) 0) [
  | yes e ↦
      ap (λ (w : Memory). text w s (suc n)) (strncpy_nul s t n m e)
      ∙ text_nul (pad (s + 1) n (update m s (m t))) s n
          (pad_other (s + 1) n (update m s (m t)) s (inl (omega arith)) ∙ update_self m s (m t) ∙ e)
      ∙ sym (text_nul m t n e)
  | no ne ↦
      ap (λ (w : Memory). text w s (suc n)) (strncpy_step s t n m ne)
      ∙ text_cons m (strncpy (s + 1) (t + 1) n (update m s (m t))) s t n ne
          (strncpy_other (s + 1) (t + 1) n (update m s (m t)) s (inl (omega arith))
            ∙ update_self m s (m t))
          (text-copied (s + 1) (t + 1) n (update m s (m t)) (omega arith)
            ∙ text-update m (t + 1) n s (m t) (omega arith))
]

-- If the two blocks do not meet, `strncpy` copies the text, cut to `n` bytes, and writes nowhere
-- else.
pub text-strncpy :
    (s t n : ℕ) (m : Memory)
    → IsApart s t n
    → (text (strncpy s t n m) s n ≡ text m t n)
      × ((x : ℕ) → (x < s) ⊎ (s + n ≤ x) → strncpy s t n m x ≡ m x)
text-strncpy s t n m h = (text-copied s t n m h, strncpy_other s t n m)

copy_safely_other :
    (s t k : ℕ) (m : Memory) (x : ℕ) → (x < s) ⊎ (s + k < x) → copy_safely s t k m x ≡ m x
unfolding copy_safely
copy_safely_other s t zero m x h = ground arith
copy_safely_other s t (suc k) m x h =
    ground (arith, copy_safely_other (s + 1) (t + 1) k (update m s (m t)) x)

safely_end : (s t : ℕ) (m : Memory) → copy_safely s t zero m s ≡ 0
unfolding copy_safely
safely_end s t m = update_self m s 0

text_none : (m : Memory) (a : ℕ) → text m a zero ≡ []
unfolding text
text_none m a = refl

safely_nul :
    (s t k : ℕ) (m : Memory)
    → m t ≡ 0
    → copy_safely s t (suc k) m ≡ update (update m s (m t)) (s + 1) 0
unfolding copy_safely
safely_nul s t k m e = let z : (m t == 0) ≡ true = ground arith in rw z

safely_step :
    (s t k : ℕ) (m : Memory)
    → m t ≢ 0
    → copy_safely s t (suc k) m ≡ copy_safely (s + 1) (t + 1) k (update m s (m t))
unfolding copy_safely
safely_step s t k m e = let z : (m t == 0) ≡ false = ground arith in rw z

text-copied_safely :
    (s t k : ℕ) (m : Memory)
    → IsApart s t (suc k)
    → text (copy_safely s t k m) s (suc k) ≡ text m t k
text-copied_safely s t zero m h = last
  where
    last : text (copy_safely s t zero m) s 1 ≡ text m t 0
    last = text_nul (copy_safely s t zero m) s 0 (safely_end s t m) ∙ sym (text_none m t)
text-copied_safely s t (suc k) m h = elim (ℕ_discrete (m t) 0) [
  | yes e ↦
      ap (λ (w : Memory). text w s (suc (suc k))) (safely_nul s t k m e)
      ∙ text_nul (update (update m s (m t)) (s + 1) 0) s (suc k)
          (update_ne (update m s (m t)) (s + 1) s 0 (λ q. omega arith) ∙ update_self m s (m t) ∙ e)
      ∙ sym (text_nul m t k e)
  | no ne ↦
      ap (λ (w : Memory). text w s (suc (suc k))) (safely_step s t k m ne)
      ∙ text_step (copy_safely (s + 1) (t + 1) k (update m s (m t))) s (suc k)
          (λ z. ne (sym (first ne) ∙ z))
      ∙ ap₂ ◌∷◌ (first ne) (
          text-copied_safely (s + 1) (t + 1) k (update m s (m t)) (omega arith)
          ∙ text-update m (t + 1) k s (m t) (omega arith))
      ∙ sym (text_step m t k ne)
]
  where
    first : m t ≢ 0 → copy_safely (s + 1) (t + 1) k (update m s (m t)) s ≡ m t
    first _ =
        copy_safely_other (s + 1) (t + 1) k (update m s (m t)) s (inl (omega arith))
        ∙ update_self m s (m t)

-- If the two blocks do not meet, `safestrcpy` copies the text, cut to `n - 1` bytes, so that a NUL
-- ends it inside the `n` bytes, and writes nowhere else.
pub text-safestrcpy :
    (s t k : ℕ) (m : Memory)
    → IsApart s t (suc k)
    → (text (safestrcpy s t (suc k) m) s (suc k) ≡ text m t k)
      × ((x : ℕ) → (x < s) ⊎ (s + suc k ≤ x) → safestrcpy s t (suc k) m x ≡ m x)
unfolding safestrcpy
text-safestrcpy s t k m h =
    (text-copied_safely s t k m h, λ x o. copy_safely_other s t k m x (omega arith))

-- On memories of bytes, a name that `strncpy` has written into a block apart compares equal to the
-- name that it was made from, as `dirlink` and `dirlookup` need.
pub strncmp-strncpy :
    (s t n : ℕ) (m : Memory)
    → IsBytes m
    → IsBytes (strncpy s t n m)
    → IsApart s t n
    → strncmp (strncpy s t n m) t s n ≡ 0
strncmp-strncpy s t n m v w h =
    (strncmp-text (strncpy s t n m) t s n w).1 (same ∙ sym (text-copied s t n m h))
  where
    same : text (strncpy s t n m) t n ≡ text m t n
    same = text_ext (strncpy s t n m) m t n (λ i lt. strncpy_other s t n m (t + i) (omega arith))
