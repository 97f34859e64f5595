-- ===== src/Console/Erase.antt =====
-- The loop of Control-U ends at the committed bytes or at an end of line.
use operating_systeams_proje.Prelude.{
  ℕ, zero, suc, ◌+◌, ◌-◌, ◌%◌, ◌≡◌, ◌⊎◌, inl, inr, refl, sym, ◌∙◌, ap, subst, Bool, true, false,
  not, ◌&&◌, ◌==◌, arith, Bool-cases, if_true, if_false,
}
use operating_systeams_proje.Prelude.Words.{word}
use operating_systeams_proje.Console.{Input, input_buf, back, kill_line}
use operating_systeams_proje.Console.Ring.{IsRing, back-IsRing}

-- The rounds of Control-U, one for each character that is not committed, are enough.
pub kill_line_lem :
    (k : ℕ) (s : Input) (n m : ℕ)
    → IsRing s n m
    → m ≡ n + k
    → let t = kill_line k s in (t.e ≡ t.w) ⊎ (t.buf (back t.e % input_buf) ≡ b'\n')
unfolding kill_line
kill_line_lem zero s n m h q =
    inl (h.edits ∙ ap (λ x. word (s.r + x)) {x = m} {y = n} (omega arith) ∙ sym h.writes)
kill_line_lem (suc k) s n m h q = elim (Bool-cases (s.e == s.w)) [
  | inl e ↦ subst Stops {x = s} (sym (if_false _ _ _ (off_left e))) (inl (ground arith))
  | inr e ↦ elim (Bool-cases (s.buf (back s.e % input_buf) == b'\n')) [
    | inl f ↦ subst Stops {x = s} (sym (if_false _ _ _ (off_right _ _ f))) (inr (ground arith))
    | inr f ↦
        let b = back-IsRing s n m h (λ d. absurd (ground arith)) in
        subst Stops (sym (if_true _ _ _ (on _ _ e f)))
          (kill_line_lem k (record s { e = back s.e }) n (m - 1) b.1 (omega (arith, b.0)))
  ]
]
  where
    Stops : Input → Type 0
    Stops t = (t.e ≡ t.w) ⊎ (t.buf (back t.e % input_buf) ≡ b'\n')

    off_left :
        (s.e == s.w) ≡ true
        → (not (s.e == s.w) && not (s.buf (back s.e % input_buf) == b'\n')) ≡ false
    off_left e = rw e refl

    off_right : (a b : Bool) → b ≡ true → (not a && not b) ≡ false
    off_right a b e = ground arith

    on : (a b : Bool) → a ≡ false → b ≡ false → (not a && not b) ≡ true
    on a b e f = ground arith
