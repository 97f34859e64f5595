-- ===== src/Fs/Paths/Elements.antt =====
-- `skipelem`, called until it finds nothing, splits a path at its slashes.
use operating_systeams_proje.Prelude.{
  ℕ, zero, suc, ◌+◌, ◌-◌, ◌≤◌, ◌<◌, ◌≡◌, inl, inr, refl, sym, ◌∙◌, ap, ap₂, subst, false, Option,
  none, some, List, [], ◌∷◌, ◌++◌, map, append_assoc, append-nil, if◌then◌else◌, arith, Bool-cases,
  length,
}
use operating_systeams_proje.Fs.Paths.{
  is_slash, skip_slashes, span_elem, elem_of, skipelem, elements_within, elements,
}

-- A word that is not empty is put in front.
abbrev flush : List ℕ → List (List ℕ) → List (List ℕ)
flush [] ws = ws
flush (c ∷ w) ws = (c ∷ w) ∷ ws

-- The words of a path in one pass: the maximal runs of bytes other than slashes. `w` is the word so far.
unfoldable pub words_from : List ℕ → List ℕ → List (List ℕ)
words_from w [] = flush w []
words_from w (c ∷ p) =
    let ended = flush w (words_from [] p) in
    let longer = words_from (w ++ (c ∷ [])) p in if is_slash c then ended else longer

unfoldable pub words : List ℕ → List (List ℕ)
unfolding words_from
words p = words_from [] p

words-skip : (p : List ℕ) → words_from [] (skip_slashes p) ≡ words_from [] p
unfolding skip_slashes words_from
words-skip [] = refl
words-skip (c ∷ p) = elim (Bool-cases (is_slash c)) [
  | inl e ↦ rw e (words-skip p)
  | inr e ↦ rw e (rw e refl)
]

-- The word goes on to the end of the span.
words-span :
    (w p : List ℕ)
    → words_from w p ≡ flush (w ++ (span_elem p).0) (words_from [] (skip_slashes (span_elem p).1))
unfolding words_from span_elem skip_slashes
words-span w [] = ap (λ v. flush v []) (sym (append-nil w))
words-span w (c ∷ p) = elim (Bool-cases (is_slash c)) [
  | inl e ↦ rw e (rw e (ap₂ flush (sym (append-nil w)) (sym (words-skip p))))
  | inr e ↦ rw e (
      words-span (w ++ (c ∷ [])) p
      ∙ ap (λ v. flush v (words_from [] (skip_slashes (span_elem p).1)))
          (append_assoc w (c ∷ []) (span_elem p).0))
]

length-skip : (p : List ℕ) → length (skip_slashes p) ≤ length p
unfolding skip_slashes
length-skip [] = omega arith
length-skip (c ∷ p) = ground (arith, length-skip p)

length-span : (p : List ℕ) → length (span_elem p).0 + length (span_elem p).1 ≡ length p
unfolding span_elem
length-span [] = omega arith
length-span (c ∷ p) = ground (arith, length-span p)

-- The first byte behind the slashes is none.
skip_head : (p : List ℕ) (c : ℕ) (q : List ℕ) → skip_slashes p ≡ c ∷ q → is_slash c ≡ false
unfolding skip_slashes
skip_head [] c q e = absurd (cc)
skip_head (d ∷ p) c q e = elim (Bool-cases (is_slash d)) [
  | inl s ↦ skip_head p c q (rw s at e)
  | inr s ↦
      let e' : d ∷ p ≡ c ∷ q = rw s at e in
      let h : d ≡ c = cc in subst (λ x. is_slash x ≡ false) h s
]

-- What is found first, and what is left of the path.
first_span :
    (c : ℕ) (q : List ℕ)
    → is_slash c ≡ false
    → (words_from [] (c ∷ q)
        ≡ (span_elem (c ∷ q)).0 ∷ words_from [] (skip_slashes (span_elem (c ∷ q)).1))
      × (length (skip_slashes (span_elem (c ∷ q)).1) ≤ length q)
unfolding span_elem
first_span c q e = (
  words-span [] (c ∷ q) ∙ rw e refl,
  rw e (omega (arith, length-skip (span_elem q).1, length-span q)),
)

elements_within-words :
    (fuel : ℕ) (path : List ℕ)
    → length path ≤ fuel
    → map (λ (r : List ℕ × List ℕ). r.0) (elements_within fuel path) ≡ words_from [] path
unfolding elements_within skipelem words_from
elements_within-words zero [] h = refl
elements_within-words zero (c ∷ p) h = absurd (omega arith)
elements_within-words (suc fuel) path h =
    go (elements_within-words fuel) (skip_slashes path) refl (length-skip path) ∙ words-skip path
  where
    go :
        ((p : List ℕ)
          → length p ≤ fuel
          → map (λ (r : List ℕ × List ℕ). r.0) (elements_within fuel p) ≡ words_from [] p)
        → (q : List ℕ) → skip_slashes path ≡ q
        → length q ≤ length path
        → map
            (λ (r : List ℕ × List ℕ). r.0)
            (elim (elem_of q) [
              | none ↦ []
              | some (e, rest) ↦ (e, rest) ∷ elements_within fuel rest
            ])
          ≡ words_from [] q
    go ih [] e l = refl
    go ih (c ∷ q) e l =
        let (f, le) = first_span c q (skip_head path c q e) in
        ap (λ ws. (span_elem (c ∷ q)).0 ∷ ws)
          (ih (skip_slashes (span_elem (c ∷ q)).1) (omega (arith, l, le)))
        ∙ sym f

-- The elements that the loop of `namex` meets are the words of the path: the maximal runs of bytes other
-- than slashes, in order. As many calls of `skipelem` as the path has bytes are enough.
pub elements-words :
    (path : List ℕ) → map (λ (r : List ℕ × List ℕ). r.0) (elements path) ≡ words path
unfolding elements words
elements-words path = elements_within-words (length path) path (omega arith)

-- What is left behind an element is shorter than the path.
rest_shorter : (path e rest : List ℕ) → skipelem path ≡ some (e, rest) → length rest < length path
unfolding skipelem
rest_shorter path e rest = go (skip_slashes path) refl (length-skip path)
  where
    go :
        (q : List ℕ)
        → skip_slashes path ≡ q
        → length q ≤ length path
        → elem_of q ≡ some (e, rest)
        → length rest < length path
    go [] same le eq = absurd (cc)
    go (c ∷ q) same le eq =
        let tail : skip_slashes (span_elem (c ∷ q)).1 ≡ rest = cc in
        omega (arith, ap length tail, (first_span c q (skip_head path c q same)).1)

-- One more round does not change what has ended.
elements_within_more :
    (k : ℕ) (path : List ℕ)
    → length path ≤ k
    → elements_within k path ≡ elements_within (suc k) path
unfolding elements_within
elements_within_more zero [] h = refl
elements_within_more zero (c ∷ p) h = absurd (omega arith)
elements_within_more (suc k) path h = go (elements_within_more k) (skipelem path) refl
  where
    go :
        ((p : List ℕ) → length p ≤ k → elements_within k p ≡ elements_within (suc k) p)
        → (o : Option (List ℕ × List ℕ)) → skipelem path ≡ o
        → elim o [ none ↦ [] | some (e, rest) ↦ (e, rest) ∷ elements_within k rest ]
          ≡ elim o [ none ↦ [] | some (e, rest) ↦ (e, rest) ∷ elements_within (suc k) rest ]
    go ih none eq = refl
    go ih (some (e, rest)) eq =
        ap (λ es. (e, rest) ∷ es) (ih rest (omega (arith, rest_shorter path e rest eq)))

elements_within_enough :
    (d k : ℕ) (path : List ℕ)
    → length path ≤ k
    → elements_within k path ≡ elements_within (k + d) path
elements_within_enough zero k path h = ap (λ n. elements_within n path) (omega arith)
elements_within_enough (suc d) k path h =
    elements_within_more k path h
    ∙ elements_within_enough d (suc k) path (omega arith)
    ∙ ap (λ n. elements_within n path) (omega arith)

-- The loop of `namex` ends, and goes through these elements: none if `skipelem` finds nothing, else the
-- one that it finds and those of the path behind it, which is shorter.
pub elements_lem :
    (path : List ℕ)
    → elements path
      ≡ elim (skipelem path) [ none ↦ [] | some (e, rest) ↦ (e, rest) ∷ elements rest ]
unfolding elements elements_within
elements_lem path = elements_within_more (length path) path (omega arith) ∙ go (skipelem path) refl
  where
    go :
        (o : Option (List ℕ × List ℕ))
        → skipelem path ≡ o
        → elim o [ none ↦ [] | some (e, rest) ↦ (e, rest) ∷ elements_within (length path) rest ]
          ≡ elim o [ none ↦ [] | some (e, rest) ↦ (e, rest) ∷ elements_within (length rest) rest ]
    go none eq = refl
    go (some (e, rest)) eq =
        let lt : length rest < length path = rest_shorter path e rest eq in
        ap (λ es. (e, rest) ∷ es)
          (ap (λ n. elements_within n rest) (omega (arith, lt))
            ∙ sym (
                elements_within_enough (length path - length rest) (length rest) rest
                  (omega arith)))
