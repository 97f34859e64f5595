-- ===== src/Grep.antt =====
-- The matcher of grep.c. A regular expression and a text are the lists of their bytes before the NUL.
pub mod Language
pub mod Proof
mod Tests
use operating_systeams_proje.Prelude.{
  ℕ, Bool, true, false, ◌||◌, List, [], ◌∷◌, ◌==◌, if◌then◌else◌,
}

-- `re[0] == '.' || re[0] == *text`.
abbrev pub hits : ℕ → ℕ → Bool
hits r t = r == b'.' || r == t

-- `matchstar(c, re, text)`, with `matchhere(re, -)` as an argument.
unfoldable pub matchstar : (List ℕ → Bool) → ℕ → List ℕ → Bool
matchstar here c [] = here []
matchstar here c (t ∷ text) =
    let rest = matchstar here c text in
    if here (t ∷ text) then true else if t == c || c == b'.' then rest else false

-- The last two tests of `matchhere`, with `matchhere(re + 1, -)` as an argument.
unfoldable pub match_one : ℕ → (List ℕ → Bool) → List ℕ → Bool
match_one r here [] = false
match_one r here (t ∷ text) = if hits r t then here text else false

abbrev pub at_end : List ℕ → Bool
at_end [] = true
at_end (t ∷ text) = false

unfoldable pub matchhere : List ℕ → List ℕ → Bool
unfolding matchstar match_one
matchhere [] text = true
matchhere (r ∷ []) text = if r == b'$' then at_end text else match_one r (matchhere []) text
matchhere (r ∷ s ∷ re) text =
    if s == b'*' then matchstar (matchhere re) r text else match_one r (matchhere (s ∷ re)) text

-- The loop of `match`.
unfoldable pub match_from : List ℕ → List ℕ → Bool
unfolding matchhere
match_from re [] = matchhere re []
match_from re (t ∷ text) =
    let rest = match_from re text in if matchhere re (t ∷ text) then true else rest

unfoldable pub match : List ℕ → List ℕ → Bool
unfolding match_from
match [] text = match_from [] text
match (r ∷ re) text = if r == b'^' then matchhere re text else match_from (r ∷ re) text
