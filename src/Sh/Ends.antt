-- ===== src/Sh/Ends.antt =====
-- `nulterminate` writes inside the line, and only the ends of words.
use operating_systeams_proje.Prelude.{
  ℕ, ◌≤◌, ◌<◌, ◌≡◌, ◌⊎◌, inl, inr, refl, ◌∙◌, ap, subst, List, [], ◌∷◌, update, update_self,
  update_ne, arith,
}
use native.Mathlib.Decide.{ℕ_discrete}
use operating_systeams_proje.Sh.{
  Cmd, execcmd, redircmd, pipecmd, listcmd, backcmd, done, parsecmd, end_args, nulterminate,
}
use operating_systeams_proje.Sh.Safe.{IsSpan, AreSpans, IsWithin, Meets}
use operating_systeams_proje.Sh.Parse.{parsecmd-Meets}

-- Some bytes are cleared, all of them after `lo` and up to `es`.
pub record Clears (lo es : ℕ) (a m : ℕ → ℕ) : Type 0 where
  pub outside : (i : ℕ) → (i ≤ lo) ⊎ (es < i) → m i ≡ a i
  pub kept : (i : ℕ) → (m i ≡ a i) ⊎ (m i ≡ 0)

Clears-none : (lo es : ℕ) (a : ℕ → ℕ) → Clears lo es a a
Clears-none lo es a = record { outside = λ i h. refl; kept = λ i. inl refl }

Clears-both : (lo es : ℕ) (a m v : ℕ → ℕ) → Clears lo es a m → Clears lo es m v → Clears lo es a v
Clears-both lo es a m v x y = record {
  outside = λ i h. y.outside i h ∙ x.outside i h;
  kept = λ i. elim (y.kept i) [
    | inr z ↦ inr z
    | inl e ↦ elim (x.kept i) [ inl f ↦ inl (e ∙ f) | inr z ↦ inr (e ∙ z) ]
  ];
}

-- A byte that is 0 stays 0.
still_zero : (lo es : ℕ) (a m : ℕ → ℕ) (i : ℕ) → Clears lo es a m → a i ≡ 0 → m i ≡ 0
still_zero lo es a m i c z = elim (c.kept i) [ inl e ↦ e ∙ z | inr e ↦ e ]

Clears-update : (lo es q eq : ℕ) (a : ℕ → ℕ) → IsSpan lo es q eq → Clears lo es a (update a eq 0)
Clears-update lo es q eq a s = record {
  outside = λ i h. update_ne a eq i 0 (λ e. absurd (omega arith));
  kept = λ i. elim (ℕ_discrete i eq) [
    | yes e ↦ inr (ap (update a eq 0) e ∙ update_self a eq 0)
    | no ne ↦ inl (update_ne a eq i 0 ne)
  ];
}

-- Every word of the command is followed by a NUL.
abbrev pub ArgsEnd : (ℕ → ℕ) → List (ℕ × ℕ) → Type 0
ArgsEnd m [] = Unit
ArgsEnd m (x ∷ xs) = (m x.1 ≡ 0) × ArgsEnd m xs

abbrev pub WordsEnd : (ℕ → ℕ) → Cmd → Type 0
WordsEnd m (execcmd xs) = ArgsEnd m xs
WordsEnd m (redircmd c file efile mode fd) = WordsEnd m c × (m efile ≡ 0)
WordsEnd m (pipecmd l r) = WordsEnd m l × WordsEnd m r
WordsEnd m (listcmd l r) = WordsEnd m l × WordsEnd m r
WordsEnd m (backcmd c) = WordsEnd m c

module _ (lo es : ℕ) where
  ArgsEnd-Clears :
      (a m : ℕ → ℕ) (xs : List (ℕ × ℕ)) → Clears lo es a m → ArgsEnd a xs → ArgsEnd m xs
  ArgsEnd-Clears a m [] c e = tt
  ArgsEnd-Clears a m (x ∷ xs) c e = (still_zero lo es a m x.1 c e.0, ArgsEnd-Clears a m xs c e.1)

  WordsEnd-Clears : (a m : ℕ → ℕ) (c : Cmd) → Clears lo es a m → WordsEnd a c → WordsEnd m c
  WordsEnd-Clears a m (execcmd xs) k e = ArgsEnd-Clears a m xs k e
  WordsEnd-Clears a m (redircmd c file efile mode fd) k e =
      (WordsEnd-Clears a m c k e.0, still_zero lo es a m efile k e.1)
  WordsEnd-Clears a m (pipecmd l r) k e = (WordsEnd-Clears a m l k e.0, WordsEnd-Clears a m r k e.1)
  WordsEnd-Clears a m (listcmd l r) k e = (WordsEnd-Clears a m l k e.0, WordsEnd-Clears a m r k e.1)
  WordsEnd-Clears a m (backcmd c) k e = WordsEnd-Clears a m c k e

  end_args-Clears :
      (xs : List (ℕ × ℕ)) (a : ℕ → ℕ)
      → AreSpans lo es xs
      → Clears lo es a (end_args xs a) × ArgsEnd (end_args xs a) xs
  unfolding end_args
  end_args-Clears [] a h = (Clears-none lo es a, tt)
  end_args-Clears (x ∷ xs) a h =
      let ih = end_args-Clears xs (update a x.1 0) h.1 in
      (
        Clears-both lo es a _ _ (Clears-update lo es x.0 x.1 a h.0) ih.0,
        (still_zero lo es _ _ x.1 ih.0 (update_self a x.1 0), ih.1),
      )

  -- The second of two commands, after the first.
  both :
      (l r : Cmd) (a : ℕ → ℕ)
      → Clears lo es a (nulterminate l a) × WordsEnd (nulterminate l a) l
      → Clears lo es (nulterminate l a) (nulterminate r (nulterminate l a))
        × WordsEnd (nulterminate r (nulterminate l a)) r
      → Clears lo es a (nulterminate r (nulterminate l a))
        × (WordsEnd (nulterminate r (nulterminate l a)) l
            × WordsEnd (nulterminate r (nulterminate l a)) r)
  both l r a x y = (Clears-both lo es a _ _ x.0 y.0, (WordsEnd-Clears _ _ l y.0 x.1, y.1))

  nulterminate-Clears :
      (c : Cmd) (a : ℕ → ℕ)
      → IsWithin lo es c
      → Clears lo es a (nulterminate c a) × WordsEnd (nulterminate c a) c
  unfolding nulterminate
  nulterminate-Clears (execcmd xs) a h = end_args-Clears xs a h.0
  nulterminate-Clears (redircmd c file efile mode fd) a h =
      let ih = nulterminate-Clears c a h.0 in
      let u = Clears-update lo es file efile (nulterminate c a) h.1 in
      (
        Clears-both lo es a _ _ ih.0 u,
        (WordsEnd-Clears _ _ c u ih.1, update_self (nulterminate c a) efile 0),
      )
  nulterminate-Clears (pipecmd l r) a h =
      both l r a (nulterminate-Clears l a h.0) (nulterminate-Clears r (nulterminate l a) h.1)
  nulterminate-Clears (listcmd l r) a h =
      both l r a (nulterminate-Clears l a h.0) (nulterminate-Clears r (nulterminate l a) h.1)
  nulterminate-Clears (backcmd c) a h = nulterminate-Clears c a h

-- The command that `parsecmd` makes of a line from `s` to its NUL at `es`, after `nulterminate`: no byte
-- outside the line and not its first one has changed, each of the others is as it was or 0, and every
-- argument and every file name of the command is followed by a NUL.
pub nulterminate-Ends :
    (a : ℕ → ℕ) (s es t : ℕ) (c : Cmd)
    → s ≤ es
    → a es ≡ 0
    → parsecmd a es s ≡ done c t
    → Clears s es a (nulterminate c a) × WordsEnd (nulterminate c a) c
nulterminate-Ends a s es t c l z e =
    nulterminate-Clears s es c a
      (subst (Meets (IsWithin s es) es s) e (parsecmd-Meets a s es l z)).0
