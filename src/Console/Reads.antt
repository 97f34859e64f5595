-- ===== src/Console/Reads.antt =====
-- `consoleread` hands out what is committed, in order.
use operating_systeams_proje.Prelude.{
  ℕ, zero, suc, ◌+◌, ◌-◌, ◌%◌, ◌^◌, ◌≤◌, ◌<◌, ◌≡◌, ◌≢◌, ◌⊎◌, inl, inr, refl, sym, ◌∙◌, ap, ap₂,
  subst, Bool, true, false, List, [], ◌∷◌, ◌++◌, ◌==◌, ltb, if◌then◌else◌, slice, length, arith,
  Bool-cases, if_true, if_false,
}
use operating_systeams_proje.Prelude.Words.{word}
use operating_systeams_proje.Console.{
  Input, input_buf, Reading, got, interrupted, waits, stored, consoleread,
}
use operating_systeams_proje.Console.Ring.{cell, IsRing}

-- The committed bytes, the oldest first.
abbrev pub committed : Input → ℕ → List ℕ
committed s n = slice (cell s) 0 n

-- The ring after the bytes `ys` of `xs`: what is left is what stands behind them.
abbrev pub Leaves : List ℕ → List ℕ → Input → Type 0
Leaves xs ys t = (n : ℕ) × (m : ℕ) × IsRing t n m × (xs ≡ ys ++ committed t n)

-- A Control-D is left in the ring behind the bytes `ys`.
abbrev pub LeavesEnd : List ℕ → List ℕ → Input → Type 0
LeavesEnd xs ys t =
    (n : ℕ) × (m : ℕ) × (zs : List ℕ) × IsRing t n m
    × (committed t n ≡ 4 ∷ zs)
    × (xs ≡ ys ++ (4 ∷ zs))

-- All of `xs` is read.
abbrev pub Empties : List ℕ → List ℕ → Input → Type 0
Empties xs ys t = (m : ℕ) × IsRing t 0 m × (xs ≡ ys)

-- No Control-D, and an end of line only at the end.
abbrev pub IsLine : List ℕ → Type 0
IsLine [] = Unit
IsLine (y ∷ []) = y ≢ 4
IsLine (y ∷ z ∷ ys) = (y ≢ 4) × (y ≢ b'\n') × IsLine (z ∷ ys)

-- The last byte is an end of line.
abbrev pub EndsLine : List ℕ → Type 0
EndsLine [] = ⊥
EndsLine (y ∷ []) = y ≡ b'\n'
EndsLine (y ∷ z ∷ ys) = EndsLine (z ∷ ys)

-- What `consoleread`, with `k` of `target` bytes left to read, hands out of the committed bytes `xs`: the
-- first `k`; or fewer, up to an end of line; or fewer, up to a Control-D, which is left if the read has
-- a byte to hand out; or nothing for a Control-D that is read, if it has none; or, asleep, all of them.
abbrev pub IsRead : Bool → List ℕ → ℕ → ℕ → Reading → Type 0
IsRead killed xs target k (got t ys) =
    IsLine ys
    × (((length ys ≡ k) × Leaves xs ys t)
        ⊎ (EndsLine ys × (length ys ≤ k) × Leaves xs ys t)
        ⊎ ((length ys < k) × (k < target + length ys) × LeavesEnd xs ys t)
        ⊎ ((0 < k) × (target ≤ k) × (ys ≡ []) × Leaves xs (4 ∷ []) t))
IsRead killed xs target k (interrupted t ys) =
    (killed ≡ true) × IsLine ys × (length ys < k) × Empties xs ys t
IsRead killed xs target k (waits t ys j) =
    (killed ≡ false) × IsLine ys × (length ys + j ≡ k) × (0 < j) × Empties xs ys t

IsLine-cons : (c : ℕ) (ys : List ℕ) → c ≢ 4 → c ≢ b'\n' → IsLine ys → IsLine (c ∷ ys)
IsLine-cons c [] f n l = f
IsLine-cons c (y ∷ ys) f n l = (f, n, l)

EndsLine-cons : (c : ℕ) (ys : List ℕ) → EndsLine ys → EndsLine (c ∷ ys)
EndsLine-cons c [] z = absurd z
EndsLine-cons c (y ∷ ys) z = z

slice-suc :
    (f g : ℕ → ℕ) (off n : ℕ) → ((i : ℕ) → f (suc i) ≡ g i) → slice f (suc off) n ≡ slice g off n
slice-suc f g off zero h = refl
slice-suc f g off (suc n) h = ap₂ ◌∷◌ (h off) (slice-suc f g (suc off) n h)

-- The oldest byte is read.
abbrev after : Input → Input
after s = record s { r = word (s.r + 1) }

after-IsRing : (s : Input) (n m : ℕ) → IsRing s (suc n) m → IsRing (after s) n (m - 1)
after-IsRing s n m h = record {
  reads = omega arith;
  writes = omega (arith, h.writes);
  edits = omega (arith, h.edits, h.order);
  order = omega (arith, h.order);
  room = omega (arith, h.room);
}

committed-after :
    (s : Input) (n : ℕ)
    → s.r < 2 ^ 32
    → committed s (suc n) ≡ s.buf (s.r % input_buf) ∷ committed (after s) n
committed-after s n l = ap₂ ◌∷◌ (ap s.buf {x = (s.r + 0) % input_buf} (omega arith)) (
    slice-suc (cell s) (cell (after s)) 0 n
      (λ i. ap s.buf {x = (s.r + suc i) % input_buf} (omega arith)))

-- One more byte in front.
stored-IsRead :
    (killed : Bool) (c target k : ℕ) (xs : List ℕ) (o : Reading)
    → c ≢ 4
    → c ≢ b'\n'
    → k < target
    → IsRead killed xs target k o
    → IsRead killed (c ∷ xs) target (suc k) (stored c o)
unfolding stored
stored-IsRead killed c target k xs (got t ys) f g lt (l, inl (n, (a, m, h, e))) =
    (IsLine-cons c ys f g l, inl (omega arith, (a, m, h, ap (λ zs. c ∷ zs) e)))
stored-IsRead killed c target k xs (got t ys) f g lt (l, inr (inl (z, n, (a, m, h, e)))) = (
  IsLine-cons c ys f g l,
  inr (inl (EndsLine-cons c ys z, omega arith, (a, m, h, ap (λ zs. c ∷ zs) e))),
)
stored-IsRead killed c target k xs (got t ys) f g lt
      (l, inr (inr (inl (n, p, (a, m, zs, h, d, e))))) =
    (
      IsLine-cons c ys f g l,
      inr (inr (inl (omega arith, omega arith, (a, m, zs, h, d, ap (λ us. c ∷ us) e)))),
    )
stored-IsRead killed c target k xs (got t ys) f g lt (l, inr (inr (inr (p, le, y, e)))) =
    absurd (omega arith)
stored-IsRead killed c target k xs (interrupted t ys) f g lt (d, l, n, (m, h, e)) =
    (d, IsLine-cons c ys f g l, omega arith, (m, h, ap (λ zs. c ∷ zs) e))
stored-IsRead killed c target k xs (waits t ys j) f g lt (d, l, n, p, (m, h, e)) =
    (d, IsLine-cons c ys f g l, omega arith, p, (m, h, ap (λ zs. c ∷ zs) e))

-- The byte at the read index, when one is committed; `rest` is what the loop goes on with.
byte-IsRead :
    (killed : Bool) (c target k : ℕ) (s : Input) (n m : ℕ) (rest : Reading)
    → IsRing s (suc n) m
    → c ≡ s.buf (s.r % input_buf)
    → suc k ≤ target
    → IsRead killed (committed (after s) n) target k rest
    → IsRead killed (committed s (suc n)) target (suc k) (
        if c == 4
        then (if ltb (suc k) target then got s [] else got (after s) [])
        else if c == b'\n'
        then got (after s) (c ∷ [])
        else stored c rest)
byte-IsRead killed c target k s n m rest h q le i =
    let xs : committed s (suc n) ≡ c ∷ committed (after s) n =
      committed-after s n h.reads ∙ ap (λ x. x ∷ committed (after s) n) (sym q) in
    let Goal = IsRead killed (committed s (suc n)) target (suc k) in
    let at : (c == 4) ≡ true → c ∷ committed (after s) n ≡ 4 ∷ committed (after s) n =
      λ e. ap (λ x. x ∷ committed (after s) n) (ground arith) in
    elim (Bool-cases (c == 4)) [
      | inl e ↦ subst Goal (sym (if_true _ _ _ e)) (elim (Bool-cases (ltb (suc k) target)) [
        | inl f ↦ subst Goal {x = got s []} (sym (if_true _ _ _ f)) (
          tt,
          inr (
              inr (
                inl (
                  omega arith,
                  ground arith,
                  (suc n, m, committed (after s) n, h, xs ∙ at e, xs ∙ at e),
                ))),
        )
        | inr f ↦ subst Goal {x = got (after s) []} (sym (if_false _ _ _ f)) (
          tt,
          inr (
              inr (
                inr
                  (omega arith, ground arith, refl, (n, m - 1, after-IsRing s n m h, xs ∙ at e)))),
        )
      ])
      | inr e ↦ subst Goal (sym (if_false _ _ _ e)) (elim (Bool-cases (c == b'\n')) [
        | inl f ↦ subst Goal {x = got (after s) (c ∷ [])} (sym (if_true _ _ _ f)) (
          λ z. absurd (ground arith),
          inr (inl (ground arith, omega arith, (n, m - 1, after-IsRing s n m h, xs))),
        )
        | inr f ↦ subst Goal (sym (if_false _ _ _ f)) (
            subst (λ ys. IsRead killed ys target (suc k) (stored c rest)) (sym xs)
              (stored-IsRead killed c target k (committed (after s) n) rest
                (λ z. absurd (ground arith)) (λ z. absurd (ground arith)) le i))
      ])
    ]

-- `consoleread` of `k` of `target` bytes, over a ring with `n` committed bytes: it hands out the first of
-- them, in order, and leaves the others. It returns with `k` bytes; or with a line, its end included;
-- or at a Control-D, which it reads if the whole read has handed out nothing and leaves in the ring
-- otherwise. There is no Control-D in what it hands out, and no end of line but at the end. It sleeps,
-- or is interrupted if its process is killed, only when it has read all committed bytes and fewer than
-- `k`. The indices may wrap.
pub consoleread-IsRead :
    (killed : Bool) (target k : ℕ) (s : Input) (n m : ℕ)
    → IsRing s n m
    → k ≤ target
    → IsRead killed (committed s n) target k (consoleread killed target k s)
unfolding consoleread
consoleread-IsRead killed target zero s n m h le = (tt, inl (refl, (n, m, h, refl)))
consoleread-IsRead killed target (suc k) s zero m h le =
    subst (IsRead killed [] target (suc k)) (sym (if_true _ _ _ empty)) (elim (Bool-cases killed) [
      | inl d ↦
          subst Goal {x = interrupted s []} (sym (if_true killed _ _ d))
            (d, tt, omega arith, (m, h, refl))
      | inr d ↦
          subst Goal {x = waits s [] (suc k)} (sym (if_false killed _ _ d))
            (d, tt, omega arith, omega arith, (m, h, refl))
    ])
  where
    Goal : Reading → Type 0
    Goal = IsRead killed [] target (suc k)

    empty : (s.r == s.w) ≡ true
    empty = let e : s.w ≡ s.r = omega (arith, h.writes, h.reads) in ground arith
consoleread-IsRead killed target (suc k) s (suc n) m h le =
    subst (IsRead killed (committed s (suc n)) target (suc k)) (sym (if_false _ _ _ filled)) (
      byte-IsRead killed _ target k s n m _ h refl le (
        consoleread-IsRead killed target k (after s) n (m - 1) (after-IsRing s n m h)
          (omega arith)))
  where
    filled : (s.r == s.w) ≡ false
    filled =
        let e : s.w ≢ s.r = λ q. absurd (omega (arith, h.writes, h.reads, h.order, h.room)) in
        ground arith
