-- ===== src/Grep/Tests.antt =====
-- `ab*$` in `xabb`.
use operating_systeams_proje.Prelude.{◌≡◌, ◌↔◌, refl, true, false, [], ◌∷◌}
use operating_systeams_proje.Grep.{match}
use operating_systeams_proje.Grep.Language.{Finds}
use operating_systeams_proje.Grep.Proof.{match-Finds}

match-Finds_example :
    (match (b'a' ∷ b'b' ∷ b'*' ∷ b'$' ∷ []) (b'x' ∷ b'a' ∷ b'b' ∷ b'b' ∷ []) ≡ true)
    ↔ Finds (b'a' ∷ b'b' ∷ b'*' ∷ b'$' ∷ []) (b'x' ∷ b'a' ∷ b'b' ∷ b'b' ∷ [])
match-Finds_example = match-Finds (b'a' ∷ b'b' ∷ b'*' ∷ b'$' ∷ []) (b'x' ∷ b'a' ∷ b'b' ∷ b'b' ∷ [])

match_yes : match (b'a' ∷ b'b' ∷ b'*' ∷ b'$' ∷ []) (b'x' ∷ b'a' ∷ b'b' ∷ b'b' ∷ []) ≡ true
unfolding match
match_yes = refl

match_no : match (b'^' ∷ b'b' ∷ []) (b'a' ∷ b'b' ∷ []) ≡ false
unfolding match
match_no = refl
