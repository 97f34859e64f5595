-- ===== src/Sh/Parse.antt =====
-- `parsecmd` returns on every line, by induction on the fuel.
use operating_systeams_proje.Prelude.{
  ℕ, zero, suc, ◌+◌, ◌-◌, ◌*◌, ◌≤◌, ◌≡◌, refl, [], ◌∷◌, ◌==◌, arith,
}
use operating_systeams_proje.Sh.{
  execcmd, pipecmd, listcmd, peek, done, panics, parseline, parsepipe, parseblock, parseexec,
  parsecmd,
}
use operating_systeams_proje.Sh.Tokens.{peek_lem}
use operating_systeams_proje.Sh.Safe.{IsWithin, IsExec, Meets, Meets-then, Meets-from, Meets-map}
use operating_systeams_proje.Sh.Returns.{branch, past, redirs-Meets, backs-Meets, args-Meets}

module _ (a : ℕ → ℕ) (lo es : ℕ) (z : a es ≡ 0) where
  mutual
    unfolding parseline

    line-Meets :
        (n s : ℕ)
        → lo ≤ s
        → s ≤ es
        → 4 * (es - s) + 4 ≤ n
        → Meets (IsWithin lo es) es s (parseline a es n s)
    line-Meets zero s l h m = absurd (omega arith)
    line-Meets (suc n) s l h m =
        Meets-then (IsWithin lo es) (IsWithin lo es) es s _ _
          (Meets-then (IsWithin lo es) (IsWithin lo es) es s _ _ (pipe-Meets n s l h (omega arith))
            (λ c t p lt ht.
              Meets-from (IsWithin lo es) es s t _ lt
                (backs-Meets a lo es z n c t ht (omega arith) p)))
          (λ c t p lt ht.
            let w = peek_lem a es z t (b';' ∷ []) ht in
            branch (IsWithin lo es) es s _ _ _
              (λ e.
                let b = past a lo es z t (b';' ∷ []) ht e in
                Meets-from (IsWithin lo es) es s _ _ (omega (arith, b.0)) (
                  Meets-map (IsWithin lo es) (IsWithin lo es) es _ _ (listcmd c) (λ d q. (p, q))
                    (line-Meets n _ (omega (arith, b.0)) b.1 (omega (arith, b.0)))))
              (λ e. (p, omega (arith, w.0), w.1)))

    pipe-Meets :
        (n s : ℕ)
        → lo ≤ s
        → s ≤ es
        → 4 * (es - s) + 3 ≤ n
        → Meets (IsWithin lo es) es s (parsepipe a es n s)
    pipe-Meets zero s l h m = absurd (omega arith)
    pipe-Meets (suc n) s l h m =
        Meets-then (IsWithin lo es) (IsWithin lo es) es s _ _ (exec-Meets n s l h (omega arith))
          (λ c t p lt ht.
            let w = peek_lem a es z t (b'|' ∷ []) ht in
            branch (IsWithin lo es) es s _ _ _
              (λ e.
                let b = past a lo es z t (b'|' ∷ []) ht e in
                Meets-from (IsWithin lo es) es s _ _ (omega (arith, b.0)) (
                  Meets-map (IsWithin lo es) (IsWithin lo es) es _ _ (pipecmd c) (λ d q. (p, q))
                    (pipe-Meets n _ (omega (arith, b.0)) b.1 (omega (arith, b.0)))))
              (λ e. (p, omega (arith, w.0), w.1)))

    exec-Meets :
        (n s : ℕ)
        → lo ≤ s
        → s ≤ es
        → 4 * (es - s) + 2 ≤ n
        → Meets (IsWithin lo es) es s (parseexec a es n s)
    exec-Meets zero s l h m = absurd (omega arith)
    exec-Meets (suc n) s l h m =
        let w = peek_lem a es z s (b'(' ∷ []) h in
        let s0 = (peek a es s (b'(' ∷ [])).0 in
        Meets-from (IsWithin lo es) es s s0 _ w.0 (
          branch (IsWithin lo es) es s0 _ _ _
            (λ e. block-Meets n s0 (omega (arith, w.0)) w.1 (omega (arith, w.0)))
            (λ e.
              Meets-then (λ d. IsWithin lo es d × IsExec 0 d) (IsWithin lo es) es s0 _ _
                (redirs-Meets a lo es z (λ d. IsWithin lo es d × IsExec 0 d) n (execcmd []) s0
                  (λ d q eq mode fd y i. ((y.0, i), y.1)) (omega (arith, w.0)) w.1
                  (omega (arith, w.0)) ((tt, omega arith), refl))
                (λ c t p lt ht.
                  Meets-from (IsWithin lo es) es s0 t _ lt
                    (args-Meets a lo es z n 0 c t (omega (arith, w.0)) ht (omega (arith, w.0)) p))))

    block-Meets :
        (n s : ℕ)
        → lo ≤ s
        → s ≤ es
        → 4 * (es - s) + 1 ≤ n
        → Meets (IsWithin lo es) es s (parseblock a es n s)
    block-Meets zero s l h m = absurd (omega arith)
    block-Meets (suc n) s l h m =
        branch (IsWithin lo es) es s _ _ _
          (λ e.
            let b = past a lo es z s (b'(' ∷ []) h e in
            Meets-from (IsWithin lo es) es s _ _ (omega (arith, b.0)) (
              Meets-then (IsWithin lo es) (IsWithin lo es) es _ _ _
                (line-Meets n _ (omega (arith, b.0)) b.1 (omega (arith, b.0)))
                (λ c t p lt ht.
                  branch (IsWithin lo es) es _ _ _ _
                    (λ e'.
                      let b' = past a lo es z t (b')' ∷ []) ht e' in
                      Meets-from (IsWithin lo es) es _ _ _ (omega (arith, b'.0, lt)) (
                        redirs-Meets a lo es z (IsWithin lo es) n c _ (λ d q eq mode fd y i. (y, i))
                          (omega (arith, b.0, b'.0, lt)) b'.1 (omega (arith, b.0, b'.0, lt)) p))
                    (λ e'. tt))))
          (λ e. tt)

-- On every line that ends in a NUL at `es`, `parsecmd` returns a command or panics, the fuel being four
-- calls for a character and four more. Every pointer of the command is into the line, every word of it
-- is not empty and ends at `es` at the latest, and no command has `maxargs` arguments, so that `argv`
-- has room for its null pointer. The pointer stands at the end of the line.
pub parsecmd-Meets :
    (a : ℕ → ℕ) (s es : ℕ) → s ≤ es → a es ≡ 0 → Meets (IsWithin s es) es s (parsecmd a es s)
unfolding parsecmd
parsecmd-Meets a s es l z =
    Meets-then (IsWithin s es) (IsWithin s es) es s _ _
      (line-Meets a s es z (4 + 4 * (es - s)) s (omega arith) l (omega arith))
      (λ c t p lt ht.
        let w = peek_lem a es z t [] ht in
        let t0 = (peek a es t []).0 in
        branch (IsWithin s es) es s (t0 == es) (done c t0) panics
          (λ e. (p, omega (arith, w.0), w.1)) (λ e. tt))
