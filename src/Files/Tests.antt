-- ===== src/Files/Tests.antt =====
-- A table in which one pipe is held twice.
use operating_systeams_proje.Prelude.{
  ℕ, refl, true, false, [], ◌∷◌, arith, update, if◌then◌else◌, ◌==◌,
}
use operating_systeams_proje.Prelude.Search.{find_index}
use operating_systeams_proje.Prelude.Count.{count}
use operating_systeams_proje.Files.{File, fd_none, fd_pipe, filealloc, fileclose}
use operating_systeams_proje.Files.Refs.{
  System, Reach, here, next, opens, IsCounted, Closes, Reach-IsCounted, fileclose-Closes,
}

abbrev files : ℕ → File
files i =
    if i == 0
    then record { type = fd_pipe; ref = 2; writable = true }
    else record { type = fd_none; ref = 0; writable = false }

abbrev twice : System
twice = record { file = files; held = 0 ∷ 0 ∷ [] }

twice-IsCounted : IsCounted twice
unfolding count
twice-IsCounted i = ground arith

abbrev opened : System
opened = record { file = update files 1 (record (files 1) { ref = 1 }); held = 1 ∷ 0 ∷ 0 ∷ [] }

opened-Reach : Reach twice opened
unfolding filealloc find_index
opened-Reach = next here (opens {f = files} 1 refl)

Reach-IsCounted_example : IsCounted opened
Reach-IsCounted_example = Reach-IsCounted twice-IsCounted opened-Reach

fileclose-Closes_example : Closes 0 (0 ∷ []) files (fileclose 0 files)
fileclose-Closes_example = fileclose-Closes files [] (0 ∷ []) 0 twice-IsCounted
