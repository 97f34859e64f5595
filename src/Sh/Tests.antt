-- ===== src/Sh/Tests.antt =====
-- `ls<f|wc;x &` at address 100, and a line without a file name.
use operating_systeams_proje.Prelude.{ℕ, zero, suc, ◌-◌, ◌≡◌, refl, List, [], ◌∷◌, arith}
use operating_systeams_proje.Sh.{
  Cmd, execcmd, redircmd, pipecmd, listcmd, backcmd, done, panics, parseline, parsecmd, skip,
  strchr, read_token, gettoken, peek, redirect, add_arg, ◌>>=◌, nulterminate,
}
use operating_systeams_proje.Sh.Safe.{Meets, IsWithin}
use operating_systeams_proje.Sh.Parse.{parsecmd-Meets}
use operating_systeams_proje.Sh.Ends.{Clears, WordsEnd, nulterminate-Ends}

abbrev nth : List ℕ → ℕ → ℕ
nth [] i = 0
nth (x ∷ xs) zero = x
nth (x ∷ xs) (suc i) = nth xs i

abbrev text : List ℕ
text = b'l' ∷ b's' ∷ b'<' ∷ b'f' ∷ b'|' ∷ b'w' ∷ b'c' ∷ b';' ∷ b'x' ∷ b' ' ∷ b'&' ∷ []

abbrev line : ℕ → ℕ
line i = nth text (i - 100)

abbrev tree : Cmd
tree =
    listcmd (pipecmd (redircmd (execcmd ((100, 102) ∷ [])) 103 104 0 0) (execcmd ((105, 107) ∷ [])))
      (backcmd (execcmd ((108, 109) ∷ [])))

parsed : parsecmd line 111 100 ≡ done tree 111
unfolding parsecmd parseline skip strchr read_token gettoken peek redirect add_arg ◌>>=◌
parsed = refl

no_file : parsecmd line 103 100 ≡ panics
unfolding parsecmd parseline skip strchr read_token gettoken peek redirect add_arg ◌>>=◌
no_file = refl

parsecmd-Meets_example : Meets (IsWithin 100 111) 111 100 (parsecmd line 111 100)
parsecmd-Meets_example = parsecmd-Meets line 100 111 (omega arith) refl

nulterminate-Ends_example :
    Clears 100 111 line (nulterminate tree line) × WordsEnd (nulterminate tree line) tree
nulterminate-Ends_example = nulterminate-Ends line 100 111 111 tree (omega arith) refl parsed
