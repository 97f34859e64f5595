-- ===== src/Sh/Tokens.antt =====
-- Where `peek` and `gettoken` leave the pointer: inside the line, and past the token that they found.
use operating_systeams_proje.Prelude.{
  ℕ, zero, suc, ◌+◌, ◌-◌, ◌≤◌, ◌<◌, ◌≡◌, ◌≢◌, ◌⊎◌, inl, inr, refl, sym, ◌∙◌, ap, subst, Bool, true,
  false, not, ◌&&◌, List, [], ◌∷◌, ◌==◌, if◌then◌else◌, arith, Bool-cases, if_true, if_false,
}
use native.Mathlib.Decide.{ℕ_discrete}
use operating_systeams_proje.Sh.{strchr, skip, is_white, is_word, Token, read_token, gettoken, peek}

skip-bounds :
    (test : ℕ → Bool) (a : ℕ → ℕ) (k s : ℕ) → (s ≤ skip test a k s) × (skip test a k s ≤ s + k)
unfolding skip
skip-bounds test a zero s = (omega arith, omega arith)
skip-bounds test a (suc k) s = let ih = skip-bounds test a k (suc s) in (ground arith, ground arith)

-- It stops where the test fails, or at the end.
skip-stops :
    (test : ℕ → Bool) (a : ℕ → ℕ) (k s : ℕ)
    → (test (a (skip test a k s)) ≡ false) ⊎ (skip test a k s ≡ s + k)
unfolding skip
skip-stops test a zero s = inr (omega arith)
skip-stops test a (suc k) s = elim (Bool-cases (test (a s))) [
  | inr e ↦
      inl (
        subst (λ x. test (a x) ≡ false) (sym (if_false (test (a s)) (skip test a k (suc s)) s e)) e)
  | inl e ↦
      subst (λ x. (test (a x) ≡ false) ⊎ (x ≡ s + suc k))
        (sym (if_true (test (a s)) (skip test a k (suc s)) s e))
        (elim (skip-stops test a k (suc s)) [ inl p ↦ inl p | inr p ↦ inr (omega arith) ])
]

skip-advances :
    (test : ℕ → Bool) (a : ℕ → ℕ) (k s : ℕ) → test (a s) ≡ true → k ≢ 0 → s < skip test a k s
unfolding skip
skip-advances test a zero s e ne = absurd (ne refl)
skip-advances test a (suc k) s e ne =
    subst (λ x. s < x) (sym (if_true (test (a s)) (skip test a k (suc s)) s e))
      (omega (arith, (skip-bounds test a k (suc s)).0))

-- A character that is neither white, nor one of those that the switch names, nor the NUL.
word_start :
    (c : ℕ)
    → strchr (b'|' ∷ b'(' ∷ b')' ∷ b';' ∷ b'&' ∷ b'<' ∷ []) c ≡ false
    → (c == b'>') ≡ false
    → is_white c ≡ false
    → is_word c ≡ true
unfolding strchr
word_start c h g w = ground arith

-- A token from `s` on: it ends inside the line, it is empty only at a NUL, and it is then a 0.
pub IsToken : (ℕ → ℕ) → ℕ → ℕ → ℕ × ℕ → Type 0
IsToken a es s (r, t) = (s ≤ t) × (t ≤ es) × (a s ≢ 0 → s < t) × (a s ≡ 0 → r ≡ 0)

one_char : (a : ℕ → ℕ) (es s r : ℕ) → s < es → a s ≢ 0 → IsToken a es s (r, s + 1)
unfolding IsToken
one_char a es s r l ne = (omega arith, omega arith, λ x. omega arith, λ x. absurd (ne x))

module _ (a : ℕ → ℕ) (es : ℕ) (z : a es ≡ 0) where
  inside : (s : ℕ) → s ≤ es → a s ≢ 0 → s < es
  inside s l ne = elim (ℕ_discrete s es) [ yes e ↦ absurd (ne (ap a e ∙ z)) | no d ↦ omega arith ]

  word-IsToken :
      (s : ℕ)
      → s < es
      → a s ≢ 0
      → is_word (a s) ≡ true
      → IsToken a es s (b'a', skip is_word a (es - s) s)
  unfolding IsToken
  word-IsToken s l ne w =
      let b = skip-bounds is_word a (es - s) s in
      let p = skip-advances is_word a (es - s) s w (λ e. absurd (omega arith)) in
      (b.0, omega (arith, b.1), λ x. p, λ x. absurd (ne x))

  read_token-IsToken :
      (s : ℕ) → s ≤ es → (is_white (a s) ≡ false) ⊎ (s ≡ es) → IsToken a es s (read_token a es s)
  unfolding read_token IsToken
  read_token-IsToken s l stop = elim (Bool-cases (a s == 0)) [
    | inl e ↦
        subst (IsToken a es s) (sym (if_true _ _ _ e))
          (omega arith, l, λ ne. absurd (ne (ground arith)), λ x. refl)
    | inr e ↦
        let ne : a s ≢ 0 = λ q. ground arith in
        let lt = inside s l ne in
        subst (IsToken a es s) (sym (if_false _ _ _ e))
          (elim (Bool-cases (strchr (b'|' ∷ b'(' ∷ b')' ∷ b';' ∷ b'&' ∷ b'<' ∷ []) (a s))) [
            | inl f ↦ subst (IsToken a es s) (sym (if_true _ _ _ f)) (one_char a es s (a s) lt ne)
            | inr f ↦
                subst (IsToken a es s) (sym (if_false _ _ _ f)) (elim (Bool-cases (a s == b'>')) [
                  | inl g ↦ subst (IsToken a es s) (sym (if_true _ _ _ g)) (greater s lt ne)
                  | inr g ↦
                      subst (IsToken a es s) (sym (if_false _ _ _ g))
                        (word-IsToken s lt ne (word_start (a s) f g (not_white lt stop)))
                ])
          ])
  ]
    where
      not_white : s < es → (is_white (a s) ≡ false) ⊎ (s ≡ es) → is_white (a s) ≡ false
      not_white lt (inl w) = w
      not_white lt (inr e) = absurd (omega arith)

      greater :
          (t : ℕ)
          → t < es
          → a t ≢ 0
          → IsToken a es t (if a (t + 1) == b'>' then (b'+', t + 2) else (b'>', t + 1))
      greater t lt ne = elim (Bool-cases (a (t + 1) == b'>')) [
        | inl h ↦
            let far = inside (t + 1) (omega arith) (λ q. absurd (ground arith)) in
            subst (IsToken a es t) (sym (if_true _ _ _ h))
              (omega arith, omega arith, λ x. omega arith, λ x. absurd (ne x))
        | inr h ↦ subst (IsToken a es t) (sym (if_false _ _ _ h)) (one_char a es t b'>' lt ne)
      ]

  -- The pointer after `peek`; a token that it found is no NUL.
  pub peek_lem :
      (s : ℕ) (toks : List ℕ)
      → s ≤ es
      → let p = peek a es s toks in (s ≤ p.0) × (p.0 ≤ es) × (p.1 ≡ true → a p.0 ≢ 0)
  unfolding peek
  peek_lem s toks l =
      let b = skip-bounds is_white a (es - s) s in
      (b.0, omega (arith, b.1), found (a (skip is_white a (es - s) s)))
    where
      found : (c : ℕ) → (not (c == 0) && strchr toks c) ≡ true → c ≢ 0
      found c e q = absurd (ground arith)

  -- The token lies in the line, is not empty unless it is the 0 of the end, and the pointer moves past
  -- a character that is no NUL.
  pub record Reads (s : ℕ) (t : Token) : Type 0 where
    pub start : s ≤ t.q
    pub nonempty : t.ret ≢ 0 → t.q < t.eq
    pub order : t.eq ≤ t.next
    pub limit : t.next ≤ es
    pub begun : s ≤ t.next
    pub moves : a s ≢ 0 → s < t.next

  pub gettoken-Reads : (s : ℕ) → s ≤ es → Reads s (gettoken a es s)
  unfolding gettoken IsToken
  gettoken-Reads s l =
      let k = skip-bounds is_white a (es - s) s in
      let q = skip is_white a (es - s) s in
      let r =
        read_token-IsToken q (omega (arith, k.1)) (stopped (skip-stops is_white a (es - s) s)) in
      let e = (read_token a es q).1 in
      let n = skip-bounds is_white a (es - e) e in
      record {
        start = k.0;
        nonempty = λ ne. r.2 (λ x. ne (r.3 x));
        order = n.0;
        limit = omega (arith, n.1, r.1);
        begun = omega (arith, k.0, r.0, n.0);
        moves = λ ne. elim (ℕ_discrete s q) [
          | yes f ↦ omega (arith, f, r.2 (λ x. ne (ap a f ∙ x)), n.0)
          | no f ↦ omega (arith, f, k.0, r.0, n.0)
        ];
      }
    where
      stopped : {b : Bool} {x : ℕ} → (b ≡ false) ⊎ (x ≡ s + (es - s)) → (b ≡ false) ⊎ (x ≡ es)
      stopped (inl p) = inl p
      stopped (inr p) = inr (omega arith)
