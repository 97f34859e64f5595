-- ===== src/Sh/Safe.antt =====
-- The parser returns, and what it returns points into the line.
use operating_systeams_proje.Prelude.{
  ℕ, suc, ◌+◌, ◌≤◌, ◌<◌, ◌≡◌, refl, ap, List, [], ◌∷◌, ◌++◌, ◌==◌, if_both, length, arith,
}
use operating_systeams_proje.Sh.{
  Cmd, execcmd, redircmd, pipecmd, listcmd, backcmd, maxargs, Out, done, panics, stuck, ◌>>=◌,
  redirect, add_arg,
}

-- A token that is not empty, between `lo` and `es`.
abbrev pub IsSpan : ℕ → ℕ → ℕ → ℕ → Type 0
IsSpan lo es q eq = (lo ≤ q) × (q < eq) × (eq ≤ es)

abbrev pub AreSpans : ℕ → ℕ → List (ℕ × ℕ) → Type 0
AreSpans lo es [] = Unit
AreSpans lo es (x ∷ xs) = IsSpan lo es x.0 x.1 × AreSpans lo es xs

-- Every pointer is into the line, and `argv` has room for the arguments and the null pointer.
abbrev pub IsWithin : ℕ → ℕ → Cmd → Type 0
IsWithin lo es (execcmd xs) = AreSpans lo es xs × (length xs < maxargs)
IsWithin lo es (redircmd c file efile mode fd) = IsWithin lo es c × IsSpan lo es file efile
IsWithin lo es (pipecmd l r) = IsWithin lo es l × IsWithin lo es r
IsWithin lo es (listcmd l r) = IsWithin lo es l × IsWithin lo es r
IsWithin lo es (backcmd c) = IsWithin lo es c

-- `argc` arguments, below redirections.
abbrev pub IsExec : ℕ → Cmd → Type 0
IsExec argc (execcmd xs) = length xs ≡ argc
IsExec argc (redircmd c file efile mode fd) = IsExec argc c
IsExec argc (pipecmd l r) = ⊥
IsExec argc (listcmd l r) = ⊥
IsExec argc (backcmd c) = ⊥

-- The run returns: with a command that has the property and a pointer from `s` to `es`, or by a panic.
abbrev pub Meets : (Cmd → Type 0) → ℕ → ℕ → Out → Type 0
Meets P es s (done c t) = P c × (s ≤ t) × (t ≤ es)
Meets P es s panics = Unit
Meets P es s stuck = ⊥

pub Meets-then :
    (P Q : Cmd → Type 0) (es s : ℕ) (r : Out) (f : Cmd → ℕ → Out)
    → Meets P es s r
    → ((c : Cmd) (t : ℕ) → P c → s ≤ t → t ≤ es → Meets Q es s (f c t))
    → Meets Q es s (r >>= f)
unfolding ◌>>=◌
Meets-then P Q es s (done c t) f m k = k c t m.0 m.1 m.2
Meets-then P Q es s panics f m k = tt
Meets-then P Q es s stuck f m k = absurd m

-- A later start is a stronger statement.
pub Meets-from : (P : Cmd → Type 0) (es s t : ℕ) (r : Out) → s ≤ t → Meets P es t r → Meets P es s r
Meets-from P es s t (done c u) l m = (m.0, omega (arith, m.1), m.2)
Meets-from P es s t panics l m = tt
Meets-from P es s t stuck l m = m

pub Meets-map :
    (P Q : Cmd → Type 0) (es s : ℕ) (r : Out) (f : Cmd → Cmd)
    → ((c : Cmd) → P c → Q (f c))
    → Meets P es s r
    → Meets Q es s (r >>= (λ c t. done (f c) t))
Meets-map P Q es s r f g m =
    Meets-then P Q es s r (λ c t. done (f c) t) m (λ c t p l k. (g c p, l, k))

AreSpans-append :
    (lo es q eq : ℕ) (xs : List (ℕ × ℕ))
    → AreSpans lo es xs
    → IsSpan lo es q eq
    → AreSpans lo es (xs ++ ((q, eq) ∷ []))
AreSpans-append lo es q eq [] h s = (s, tt)
AreSpans-append lo es q eq (x ∷ xs) h s = (h.0, AreSpans-append lo es q eq xs h.1 s)

length-snoc : (xs : List (ℕ × ℕ)) (x : ℕ × ℕ) → length (xs ++ (x ∷ [])) ≡ suc (length xs)
length-snoc [] x = refl
length-snoc (y ∷ xs) x = ap suc (length-snoc xs x)

-- One more argument, when there is room.
pub add_arg-IsWithin :
    (lo es q eq argc : ℕ) (c : Cmd)
    → argc + 1 < maxargs
    → IsSpan lo es q eq
    → IsWithin lo es c × IsExec argc c
    → IsWithin lo es (add_arg (q, eq) c) × IsExec (argc + 1) (add_arg (q, eq) c)
unfolding add_arg
add_arg-IsWithin lo es q eq argc (execcmd xs) l s (w, e) =
    let n = length-snoc xs (q, eq) in
    ((AreSpans-append lo es q eq xs w.0 s, omega (arith, n, e)), omega (arith, n, e))
add_arg-IsWithin lo es q eq argc (redircmd c file efile mode fd) l s (w, e) =
    let ih = add_arg-IsWithin lo es q eq argc c l s (w.0, e) in ((ih.0, w.1), ih.1)
add_arg-IsWithin lo es q eq argc (pipecmd x y) l s (w, e) = absurd e
add_arg-IsWithin lo es q eq argc (listcmd x y) l s (w, e) = absurd e
add_arg-IsWithin lo es q eq argc (backcmd c) l s (w, e) = absurd e

-- What redirections keep, `redirect` keeps.
pub redirect-keeps :
    (P : Cmd → Type 0) (tok q eq : ℕ) (c : Cmd)
    → P c
    → ((mode fd : ℕ) → P (redircmd c q eq mode fd))
    → P (redirect tok c q eq)
unfolding redirect
redirect-keeps P tok q eq c p k =
    if_both P (tok == b'<') _ _ (k _ 0)
      (if_both P (tok == b'>') _ _ (k _ 1) (if_both P (tok == b'+') _ _ (k _ 1) p))
