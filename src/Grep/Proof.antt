-- ===== src/Grep/Proof.antt =====
-- `matchhere`, `matchstar` and `match` against the language of the expression.
use operating_systeams_proje.Prelude.{
  ℕ, ◌≡◌, ◌≢◌, ◌⊎◌, ◌↔◌, inl, inr, refl, sym, ◌∙◌, ap, subst, Bool, true, false, ◌||◌, List, [],
  ◌∷◌, ◌++◌, append_assoc, ◌==◌, arith, Bool-cases, All, ==_ne, ==_iff, if_true, if_false,
}
use native.Mathlib.Decide.{ℕ_discrete}
use operating_systeams_proje.Grep.{hits, matchstar, match_one, at_end, matchhere, match_from, match}
use operating_systeams_proje.Grep.Language.{
  Hits, is_starred, In, nothing, ended, single, starred, Starts, Finds, first, anywhere,
}

hit : (r t : ℕ) → hits r t ≡ true → Hits r t
hit r t e = ground arith

of_hit : (r t : ℕ) → Hits r t → hits r t ≡ true
of_hit r t h = ground arith

star_hit : (c t : ℕ) → (t == c || c == b'.') ≡ true → Hits c t
star_hit c t e = ground arith

of_star_hit : (c t : ℕ) → Hits c t → (t == c || c == b'.') ≡ true
of_star_hit c t h = ground arith

record Run (here : List ℕ → Bool) (c : ℕ) (text : List ℕ) : Type 0 where
  run : List ℕ
  tail : List ℕ
  parts : text ≡ run ++ tail
  all : All (Hits c) run
  found : here tail ≡ true

matchstar-Run :
    (here : List ℕ → Bool) (c : ℕ) (text : List ℕ) → matchstar here c text ≡ true → Run here c text
unfolding matchstar
matchstar-Run here c [] e = record { run = []; tail = []; parts = refl; all = tt; found = e }
matchstar-Run here c (t ∷ text) e = elim (Bool-cases (here (t ∷ text))) [
  | inl h ↦ record { run = []; tail = t ∷ text; parts = refl; all = tt; found = h }
  | inr h ↦ elim (Bool-cases (t == c || c == b'.')) [
    | inl g ↦
        let r : Run here c text = matchstar-Run here c text (rw (h, g) at e) in
        record {
          run = t ∷ r.run;
          tail = r.tail;
          parts = ap (λ l. t ∷ l) r.parts;
          all = (star_hit c t g, r.all);
          found = r.found;
        }
    | inr g ↦ absurd (clash (rw (h, g) at e))
  ]
]
  where
    clash : false ≡ true → ⊥
    clash e = cc

run-matchstar :
    (here : List ℕ → Bool) (c : ℕ) (run tail : List ℕ)
    → All (Hits c) run
    → here tail ≡ true
    → matchstar here c (run ++ tail) ≡ true
unfolding matchstar
run-matchstar here c [] [] a e = e
run-matchstar here c [] (t ∷ tail) a e = if_true (here (t ∷ tail)) _ _ e
run-matchstar here c (t ∷ run) tail (h, a) e = elim (Bool-cases (here (t ∷ run ++ tail))) [
  | inl g ↦ if_true (here (t ∷ run ++ tail)) _ _ g
  | inr g ↦
      if_false (here (t ∷ run ++ tail)) _ _ g
      ∙ if_true (t == c || c == b'.') _ _ (of_star_hit c t h)
      ∙ run-matchstar here c run tail a e
]

apart : false ≡ true → ⊥
apart e = cc

match_one-Starts :
    (r : ℕ) (re text : List ℕ)
    → is_starred re ≡ false
    → (r ≢ b'$') ⊎ (re ≢ [])
    → ((u : List ℕ) → matchhere re u ≡ true → Starts re u)
    → match_one r (matchhere re) text ≡ true
    → Starts (r ∷ re) text
unfolding match_one
match_one-Starts r re [] p q h e = absurd (cc)
match_one-Starts r re (t ∷ text) p q h e = elim (Bool-cases (hits r t)) [
  | inl g ↦
      let s : Starts re text = h text (sym (if_true (hits r t) _ _ g) ∙ e) in
      record {
        part = t ∷ s.part;
        rest = s.rest;
        split = ap (λ l. t ∷ l) s.split;
        fits = single r t p q (hit r t g) s.fits;
      }
  | inr g ↦ absurd (apart (sym (if_false (hits r t) _ _ g) ∙ e))
]

at_end-Starts : (text : List ℕ) → at_end text ≡ true → Starts (b'$' ∷ []) text
at_end-Starts [] e = record { part = []; rest = []; split = refl; fits = ended }
at_end-Starts (t ∷ text) e = absurd (cc)

matchhere-Starts : (re text : List ℕ) → matchhere re text ≡ true → Starts re text
unfolding matchhere
matchhere-Starts [] text e = record { part = []; rest = text; split = refl; fits = nothing }
matchhere-Starts (r ∷ []) text e = elim (ℕ_discrete r b'$') [
  | yes d ↦
      subst (λ x. Starts (x ∷ []) text) (sym d)
        (at_end-Starts text (sym (if_true (r == b'$') _ _ ((==_iff r b'$').1 d)) ∙ e))
  | no ne ↦
      match_one-Starts r [] text refl (inl ne) (matchhere-Starts [])
        (sym (if_false (r == b'$') _ _ (==_ne r b'$' ne)) ∙ e)
]
matchhere-Starts (r ∷ s ∷ re) text e = elim (ℕ_discrete s b'*') [
  | yes d ↦
      let m : Run (matchhere re) r text =
        matchstar-Run (matchhere re) r text
          (sym (if_true (s == b'*') _ _ ((==_iff s b'*').1 d)) ∙ e) in
      let h : Starts re m.tail = matchhere-Starts re m.tail m.found in
      subst (λ x. Starts (r ∷ x ∷ re) text) (sym d)
        (record {
          part = m.run ++ h.part;
          rest = h.rest;
          split = m.parts ∙ ap (λ l. m.run ++ l) h.split ∙ sym (append_assoc m.run h.part h.rest);
          fits = starred r m.run m.all h.fits;
        })
  | no ne ↦
      match_one-Starts r (s ∷ re) text (==_ne s b'*' ne) (inr (λ q. cc)) (matchhere-Starts (s ∷ re))
        (sym (if_false (s == b'*') _ _ (==_ne s b'*' ne)) ∙ e)
]

single-matchhere :
    (r t : ℕ) (re text : List ℕ)
    → is_starred re ≡ false
    → (r ≢ b'$') ⊎ (re ≢ [])
    → Hits r t
    → matchhere re text ≡ true
    → matchhere (r ∷ re) (t ∷ text) ≡ true
unfolding matchhere match_one
single-matchhere r t [] text p q h e =
    if_false (r == b'$') _ _ (==_ne r b'$' (elim q [ inl ne ↦ ne | inr ne ↦ absurd (ne refl) ]))
    ∙ if_true (hits r t) _ _ (of_hit r t h)
single-matchhere r t (s ∷ re) text p q h e =
    if_false (s == b'*') _ _ p ∙ if_true (hits r t) _ _ (of_hit r t h) ∙ e

In-matchhere : {re part rest : List ℕ} → In re part rest → matchhere re (part ++ rest) ≡ true
unfolding matchhere
In-matchhere nothing = refl
In-matchhere ended = refl
In-matchhere {rest = rest} (single {re} {text} r t p q h i) =
    single-matchhere r t re (text ++ rest) p q h (In-matchhere i)
In-matchhere {rest = rest} (starred {re} {text} r run a i) =
    ap (λ l. matchstar (matchhere re) r l) (append_assoc run text rest)
    ∙ run-matchstar (matchhere re) r run (text ++ rest) a (In-matchhere i)

Starts-matchhere : (re text : List ℕ) → Starts re text → matchhere re text ≡ true
Starts-matchhere re text s = ap (matchhere re) s.split ∙ In-matchhere s.fits

record Later (re text : List ℕ) : Type 0 where
  before : List ℕ
  after : List ℕ
  halves : text ≡ before ++ after
  starts : Starts re after

match_from-Later : (re text : List ℕ) → match_from re text ≡ true → Later re text
unfolding match_from
match_from-Later re [] e = record {
  before = [];
  after = [];
  halves = refl;
  starts = matchhere-Starts re [] e;
}
match_from-Later re (t ∷ text) e = elim (Bool-cases (matchhere re (t ∷ text))) [
  | inl h ↦ record {
    before = [];
    after = t ∷ text;
    halves = refl;
    starts = matchhere-Starts re (t ∷ text) h;
  }
  | inr h ↦
      let l : Later re text =
        match_from-Later re text (sym (if_false (matchhere re (t ∷ text)) _ _ h) ∙ e) in
      record {
        before = t ∷ l.before;
        after = l.after;
        halves = ap (λ x. t ∷ x) l.halves;
        starts = l.starts;
      }
]

Later-match_from :
    (re before after : List ℕ) → matchhere re after ≡ true → match_from re (before ++ after) ≡ true
unfolding match_from
Later-match_from re [] [] e = e
Later-match_from re [] (t ∷ after) e = if_true (matchhere re (t ∷ after)) _ _ e
Later-match_from re (t ∷ before) after e = elim (Bool-cases (matchhere re (t ∷ before ++ after))) [
  | inl h ↦ if_true (matchhere re (t ∷ before ++ after)) _ _ h
  | inr h ↦ if_false (matchhere re (t ∷ before ++ after)) _ _ h ∙ Later-match_from re before after e
]

Later-Finds :
    (re text : List ℕ) → ((re' : List ℕ) → re ≢ b'^' ∷ re') → Later re text → Finds re text
Later-Finds re text n l = subst (Finds re) (sym l.halves) (anywhere l.before n l.starts)

match_sound : (re text : List ℕ) → match re text ≡ true → Finds re text
unfolding match
match_sound [] text e = Later-Finds [] text (λ re' q. cc) (match_from-Later [] text e)
match_sound (r ∷ re) text e = elim (ℕ_discrete r b'^') [
  | yes d ↦
      subst (λ x. Finds (x ∷ re) text) (sym d)
        (first (matchhere-Starts re text (sym (if_true (r == b'^') _ _ ((==_iff r b'^').1 d)) ∙ e)))
  | no ne ↦
      Later-Finds (r ∷ re) text (λ re' q. ne (cc))
        (match_from-Later (r ∷ re) text (sym (if_false (r == b'^') _ _ (==_ne r b'^' ne)) ∙ e))
]

match_complete : (re text : List ℕ) → Finds re text → match re text ≡ true
unfolding match
match_complete re text (first {re = re'} s) = Starts-matchhere re' text s
match_complete [] text (anywhere {after = after} before n s) =
    Later-match_from [] before after (Starts-matchhere [] after s)
match_complete (r ∷ re) text (anywhere {after = after} before n s) =
    if_false (r == b'^') _ _ (==_ne r b'^' (λ d. n re (ap (λ x. x ∷ re) d)))
    ∙ Later-match_from (r ∷ re) before after (Starts-matchhere (r ∷ re) after s)

-- `match` answers yes exactly when the expression fits a part of the text: from the start if the
-- expression begins with `^`, up to the end if it ends with `$`, with `.` for any byte and a starred byte
-- for any run of that byte.
pub match-Finds : (re text : List ℕ) → (match re text ≡ true) ↔ Finds re text
match-Finds re text = (match_sound re text, match_complete re text)
