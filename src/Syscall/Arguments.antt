-- ===== src/Syscall/Arguments.antt =====
-- A pointer that the checks let through is inside the process's memory, with all that it points at.
use operating_systeams_proje.Prelude.{
  ℕ, ◌+◌, ◌-◌, ◌^◌, ◌<◌, ◌≤◌, ◌≡◌, ◌≢◌, ◌↔◌, inl, inr, sym, ◌∙◌, ap, ap₂, subst, Bool, true, false,
  ◌||◌, Option, none, some, ◌==◌, ltb, leb, arith, Bool-cases, ==_iff, if_true, if_false,
}
use native.Mathlib.Decide.{ℕ_discrete, dec_lt}
use operating_systeams_proje.Prelude.Words.{word, slt}
use operating_systeams_proje.Prelude.Search.{IsFirst, find_index-IsFirst}
use operating_systeams_proje.Kalloc.{kernbase}
use operating_systeams_proje.Syscall.{
  User, fetchstr, string_at, string_of, argint, checked_ptr, argptr, argstr,
}

-- The bytes from `p` on end with a NUL at `p + len`, below the process's size.
pub record Ends (u : User) (p len : ℕ) : Type 0 where
  pub below : p + len < u.sz
  pub nul : u.memory (p + len) ≡ 0
  pub first : (k : ℕ) → k < len → u.memory (p + k) ≢ 0

bounds :
    (sz i size : ℕ)
    → sz ≤ kernbase
    → size < 2 ^ 32
    → ((slt size 0 || leb sz i || ltb sz (word (i + size))) ≡ false)
      ↔ ((size < 2 ^ 31) × (i + size ≤ sz) × (i < sz))
bounds sz i size h l = (λ e. ground (arith, e), λ (a, b, c). ground (arith, a, b, c))

some_eq : (i p : ℕ) → some i ≡ some p → i ≡ p
some_eq i p e = cc

clash : (b : Bool) → b ≡ true → b ≡ false → ⊥
clash b e f = cc

checked_ptr_lem :
    (u : User) (size : ℕ) (o : Option ℕ) (p : ℕ)
    → u.sz ≤ kernbase
    → size < 2 ^ 32
    → (checked_ptr u size o ≡ some p)
      ↔ ((o ≡ some p) × (size < 2 ^ 31) × (p + size ≤ u.sz) × (p < u.sz))
checked_ptr_lem u size none p h l = (λ e. absurd (cc), λ (e, _, _, _). absurd (cc))
checked_ptr_lem u size (some i) p h l =
    elim (Bool-cases (slt size 0 || leb u.sz i || ltb u.sz (word (i + size)))) [
      | inl bad ↦ (
        λ e. absurd (taken (sym (if_true _ none (some i) bad) ∙ e)),
        λ (e, a, b, c).
            let q : i ≡ p = some_eq i p e in
            absurd
              (clash _ bad ((bounds u.sz i size h l).1 (a, omega (arith, q), omega (arith, q)))),
      )
      | inr good ↦ (
        λ e.
            let q : some i ≡ some p = sym (if_false _ none (some i) good) ∙ e in
            let r : i ≡ p = some_eq i p q in
            let (a, b, c) = (bounds u.sz i size h l).0 good in
            (q, a, omega (arith, r, b), omega (arith, r, c)),
        λ (e, _, _, _). if_false _ none (some i) good ∙ e,
      )
    ]
  where
    taken : none ≡ some p → ⊥
    taken e = cc

string_at_lem :
    (u : User) (addr p len : ℕ) (o : Option ℕ)
    → addr < u.sz
    → IsFirst (λ s. u.memory s == 0) addr (u.sz - addr) o
    → (string_at addr o ≡ some (p, len)) ↔ ((addr ≡ p) × Ends u p len)
string_at_lem u addr p len none lt f = (
  λ e. absurd (cc),
  λ (e, h). absurd (
      clash (u.memory (p + len) == 0) ((==_iff (u.memory (p + len)) 0).1 h.nul)
        (f (p + len) (omega (arith, e)) (omega (arith, e, h.below)))),
)
string_at_lem u addr p len (some s) lt (lo, hi, hit, before) = (
  λ e.
      let same : addr ≡ p = cc in
      let count : s - addr ≡ len = cc in
      let there : s ≡ p + len = omega (arith, lo, same, count) in
      (
        same,
        record {
          below = omega (arith, hi, lt, there);
          nul = subst (λ x. u.memory x ≡ 0) there ((==_iff (u.memory s) 0).0 hit);
          first = λ k less z.
              clash (u.memory (p + k) == 0) ((==_iff (u.memory (p + k)) 0).1 z)
                (before (p + k) (omega (arith, same)) (omega (arith, there)));
        },
      ),
  λ (e, h).
      let there : s ≡ p + len = elim (ℕ_discrete s (p + len)) [
        | yes q ↦ q
        | no ne ↦ absurd (elim (dec_lt s (p + len)) [
          | yes less ↦ h.first (s - p) (omega (arith, e, lo)) (
              subst (λ x. u.memory x ≡ 0) {x = s} (omega (arith, e, lo))
                ((==_iff (u.memory s) 0).0 hit))
          | no ge ↦
              clash (u.memory (p + len) == 0) ((==_iff (u.memory (p + len)) 0).1 h.nul)
                (before (p + len) (omega (arith, e)) (omega (arith, ne)))
        ])
      ] in
      let count : s - addr ≡ len = omega (arith, there, e) in ap₂ (λ x y. some (x, y)) e count,
)

fetchstr_lem :
    (u : User) (addr p len : ℕ) → (fetchstr u addr ≡ some (p, len)) ↔ ((addr ≡ p) × Ends u p len)
unfolding fetchstr
fetchstr_lem u addr p len = elim (dec_lt addr u.sz) [
  | yes lt ↦
      subst
        (λ (o : Option (ℕ × ℕ)).
          (◌≡◌ {A = Option (ℕ × ℕ)} o (some (p, len))) ↔ ((addr ≡ p) × Ends u p len))
        (sym (if_false (leb u.sz addr) _ _ (ground arith)))
        (string_at_lem u addr p len _ lt
          (find_index-IsFirst (λ s. u.memory s == 0) addr (u.sz - addr)))
  | no ge ↦ (
    λ e. absurd (beyond (sym (if_true (leb u.sz addr) _ _ (ground arith)) ∙ e)),
    λ (e, h). absurd (omega (arith, e, h.below)),
  )
]
  where
    beyond : (◌≡◌ {A = Option (ℕ × ℕ)} none (some (p, len))) → ⊥
    beyond e = cc

-- For a process no larger than `KERNBASE`, `argptr` lets a pointer through exactly when it is the argument
-- on the stack, the size is not negative as an `int`, and the block begins and ends inside the process's
-- memory; `argstr` lets one through exactly when it is the argument and a string of the length that is
-- returned, with its NUL, lies there.
pub args-InSpace :
    (u : User) (n size p len : ℕ)
    → u.sz ≤ kernbase
    → size < 2 ^ 32
    → ((argptr u n size ≡ some p)
        ↔ ((argint u n ≡ some p) × (size < 2 ^ 31) × (p + size ≤ u.sz) × (p < u.sz)))
      × ((argstr u n ≡ some (p, len)) ↔ ((argint u n ≡ some p) × Ends u p len))
unfolding argptr argstr
args-InSpace u n size p len h l = (checked_ptr_lem u size (argint u n) p h l, go (argint u n))
  where
    go : (o : Option ℕ) → (string_of u o ≡ some (p, len)) ↔ ((o ≡ some p) × Ends u p len)
    go none = (λ e. absurd (cc), λ (e, _). absurd (cc))
    go (some addr) = (
      λ e. let (q, r) = (fetchstr_lem u addr p len).0 e in (ap some q, r),
      λ (q, r). (fetchstr_lem u addr p len).1 (some_eq addr p q, r),
    )
