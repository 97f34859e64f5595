-- ===== src/Sh/Returns.antt =====
-- The loops of the parser return, by induction on the fuel.
use operating_systeams_proje.Prelude.{
  ℕ, zero, suc, ◌+◌, ◌-◌, ◌*◌, ◌≤◌, ◌<◌, ◌≡◌, ◌≢◌, refl, Bool, true, false, not, ◌&&◌, List, [],
  ◌∷◌, ◌==◌, leb, arith,
}
use operating_systeams_proje.Sh.{
  Cmd, redircmd, backcmd, maxargs, peek, gettoken, Out, done, panics, ◌>>=◌, add_arg, parse_backs,
  parseredirs, parse_args,
}
use operating_systeams_proje.Sh.Tokens.{peek_lem, gettoken-Reads}
use operating_systeams_proje.Sh.Safe.{
  IsSpan, IsWithin, IsExec, Meets, Meets-then, Meets-from, add_arg-IsWithin, redirect-keeps,
}

-- A branch of the code for each value of a test.
pub branch :
    (P : Cmd → Type 0) (es s : ℕ) (b : Bool) (x y : Out)
    → (b ≡ true → Meets P es s x)
    → (b ≡ false → Meets P es s y)
    → Meets P es s (elim b [ true ↦ x | false ↦ y ])
branch P es s true x y k l = k refl
branch P es s false x y k l = l refl

module _ (a : ℕ → ℕ) (lo es : ℕ) (z : a es ≡ 0) where
  -- After a token that `peek` found, the pointer has moved.
  pub past :
      (s : ℕ) (toks : List ℕ)
      → s ≤ es
      → (peek a es s toks).1 ≡ true
      → (s < (gettoken a es (peek a es s toks).0).next)
        × ((gettoken a es (peek a es s toks).0).next ≤ es)
  past s toks l e =
      let p = peek_lem a es z s toks l in
      let g = gettoken-Reads a es z (peek a es s toks).0 p.1 in
      (omega (arith, p.0, g.moves (p.2 e)), g.limit)

  -- A word of the line.
  word-IsSpan :
      (s : ℕ)
      → lo ≤ s
      → s ≤ es
      → ((gettoken a es s).ret == b'a') ≡ true
      → IsSpan lo es (gettoken a es s).q (gettoken a es s).eq
  word-IsSpan s l k e =
      let g = gettoken-Reads a es z s k in
      let ne : (gettoken a es s).ret ≢ 0 = λ q. absurd (ground arith) in
      (omega (arith, g.start), g.nonempty ne, omega (arith, g.order, g.limit))

  pub redirs-Meets :
      (P : Cmd → Type 0) (n : ℕ) (c : Cmd) (s : ℕ)
      → ((d : Cmd) (q eq mode fd : ℕ) → P d → IsSpan lo es q eq → P (redircmd d q eq mode fd))
      → lo ≤ s
      → s ≤ es
      → 4 * (es - s) < n
      → P c
      → Meets P es s (parseredirs a es n c s)
  unfolding parseredirs
  redirs-Meets P zero c s k l h m p = absurd (omega arith)
  redirs-Meets P (suc n) c s k l h m p =
      let w = peek_lem a es z s (b'<' ∷ b'>' ∷ []) h in
      let op = gettoken a es (peek a es s (b'<' ∷ b'>' ∷ [])).0 in
      let file = gettoken a es op.next in
      branch P es s _ _ _
        (λ e.
          let b = past s (b'<' ∷ b'>' ∷ []) h e in
          let g = gettoken-Reads a es z op.next b.1 in
          branch P es s _ _ _
            (λ f.
              let v = word-IsSpan op.next (omega (arith, b.0)) b.1 f in
              Meets-from P es s file.next _ (omega (arith, b.0, g.begun)) (
                redirs-Meets P n _ file.next k (omega (arith, b.0, g.begun)) g.limit
                  (omega (arith, b.0, g.begun))
                  (redirect-keeps P op.ret file.q file.eq c p (λ mode fd. k c _ _ mode fd p v))))
            (λ f. tt))
        (λ e. (p, w.0, w.1))

  pub backs-Meets :
      (n : ℕ) (c : Cmd) (s : ℕ)
      → s ≤ es
      → 4 * (es - s) < n
      → IsWithin lo es c
      → Meets (IsWithin lo es) es s (parse_backs a es n c s)
  unfolding parse_backs
  backs-Meets zero c s h m p = absurd (omega arith)
  backs-Meets (suc n) c s h m p =
      let w = peek_lem a es z s (b'&' ∷ []) h in
      branch (IsWithin lo es) es s _ _ _
        (λ e.
          let b = past s (b'&' ∷ []) h e in
          Meets-from (IsWithin lo es) es s _ _ (omega (arith, b.0))
            (backs-Meets n (backcmd c) _ b.1 (omega (arith, b.0)) p))
        (λ e. (p, w.0, w.1))

  pub args-Meets :
      (n argc : ℕ) (c : Cmd) (s : ℕ)
      → lo ≤ s
      → s ≤ es
      → 4 * (es - s) < n
      → IsWithin lo es c × IsExec argc c
      → Meets (IsWithin lo es) es s (parse_args a es n argc c s)
  unfolding parse_args
  args-Meets zero argc c s l h m p = absurd (omega arith)
  args-Meets (suc n) argc c s l h m p =
      let w = peek_lem a es z s (b'|' ∷ b')' ∷ b'&' ∷ b';' ∷ []) h in
      let s0 = (peek a es s (b'|' ∷ b')' ∷ b'&' ∷ b';' ∷ [])).0 in
      let t = gettoken a es s0 in
      let g = gettoken-Reads a es z s0 w.1 in
      let more =
        parseredirs a es n (add_arg (t.q, t.eq) c) t.next
        >>= (λ d u. parse_args a es n (argc + 1) d u) in
      let room = t.ret == b'a' && not (leb maxargs (argc + 1)) in
      let word : Out = elim room [ true ↦ more | false ↦ panics ] in
      branch (IsWithin lo es) es s (peek a es s (b'|' ∷ b')' ∷ b'&' ∷ b';' ∷ [])).1 (done c s0)
        (elim (t.ret == 0) [ true ↦ done c t.next | false ↦ word ]) (λ e. (p.0, w.0, w.1))
        (λ e.
          branch (IsWithin lo es) es s (t.ret == 0) (done c t.next) word
            (λ f. (p.0, omega (arith, w.0, g.begun), g.limit))
            (λ f.
              branch (IsWithin lo es) es s room more panics
                (λ v.
                  let v0 = and_left (t.ret == b'a') _ v in
                  let few = and_room (t.ret == b'a') argc v in
                  let x = word-IsSpan s0 (omega (arith, w.0)) w.1 v0 in
                  let far : s < t.next = omega (arith, w.0, g.start, x.1, g.order) in
                  Meets-from (IsWithin lo es) es s t.next _ (omega (arith, far)) (
                    Meets-then (λ d. IsWithin lo es d × IsExec (argc + 1) d) (IsWithin lo es) es
                      t.next _ _
                      (redirs-Meets (λ d. IsWithin lo es d × IsExec (argc + 1) d) n _ t.next
                        (λ d q eq mode fd y i. ((y.0, i), y.1)) (omega (arith, far)) g.limit
                        (omega (arith, far)) (add_arg-IsWithin lo es t.q t.eq argc c few x p))
                      (λ d u y lu hu. Meets-from (IsWithin lo es) es t.next u _ lu (
                        args-Meets n (argc + 1) d u (omega (arith, far)) hu (omega (arith, far))
                          y))))
                (λ v. tt)))
    where
      and_left : (b c : Bool) → (b && c) ≡ true → b ≡ true
      and_left b c e = ground arith

      and_room :
          (b : Bool) (argc : ℕ) → (b && not (leb maxargs (argc + 1))) ≡ true → argc + 1 < maxargs
      and_room b argc e = ground arith
