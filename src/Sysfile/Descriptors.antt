-- ===== src/Sysfile/Descriptors.antt =====
-- The file descriptors of a process: `argfd`, `fdalloc`, `sys_dup` and `sys_close` over the table of
-- file.c. A descriptor's argument is what `argint` gives.
use operating_systeams_proje.Prelude.{
  ℕ, Bool, true, false, not, ◌||◌, Option, none, some, if◌then◌else◌, update,
}
use operating_systeams_proje.Prelude.Words.{slt}
use operating_systeams_proje.Prelude.Search.{find_index}
use operating_systeams_proje.Files.{File, filedup, Closed, fileclose}

abbrev pub nofile : ℕ
nofile = 16

-- `ofile` of the process, and the table.
pub record Descriptors : Type 0 where
  pub ofile : ℕ → Option ℕ
  pub files : ℕ → File

abbrev pub with_file : ℕ → Option ℕ → Option (ℕ × ℕ)
with_file fd none = none
with_file fd (some f) = some (fd, f)

-- The descriptor and its file.
abbrev pub argfd : Descriptors → Option ℕ → Option (ℕ × ℕ)
argfd d none = none
argfd d (some fd) = if slt fd 0 || not (slt fd nofile) then none else with_file fd (d.ofile fd)

abbrev pub is_closed : Descriptors → ℕ → Bool
is_closed d fd = elim (d.ofile fd) [ none ↦ true | some f ↦ false ]

-- The lowest descriptor that is free.
unfoldable pub fdalloc : Descriptors → Option ℕ
unfolding find_index
fdalloc d = find_index (is_closed d) 0 nofile

-- How `sys_dup` ends: -1, the panic of `filedup`, or a descriptor.
pub data Dup : Type 0 where
  refused : Dup
  panics : Dup
  dup : ℕ → Descriptors → Dup

abbrev pub dup_file : Descriptors → ℕ → ℕ → Option (ℕ → File) → Dup
dup_file d fd f none = panics
dup_file d fd f (some files) = dup fd (record { ofile = update d.ofile fd (some f); files = files })

abbrev pub dup_at : Descriptors → ℕ → Option ℕ → Dup
dup_at d f none = refused
dup_at d f (some fd) = dup_file d fd f (filedup f d.files)

abbrev pub dup_of : Descriptors → Option (ℕ × ℕ) → Dup
dup_of d none = refused
dup_of d (some (old, f)) = dup_at d f (fdalloc d)

unfoldable pub sys_dup : Option ℕ → Descriptors → Dup
unfolding fdalloc filedup
sys_dup arg d = dup_of d (argfd d arg)

abbrev pub close_of : Descriptors → Option (ℕ × ℕ) → Option ((ℕ → Option ℕ) × Closed)
close_of d none = none
close_of d (some (fd, f)) = some (update d.ofile fd none, fileclose f d.files)

-- The descriptors, and how `fileclose` leaves its lock; `none` is -1.
unfoldable pub sys_close : Option ℕ → Descriptors → Option ((ℕ → Option ℕ) × Closed)
unfolding fileclose
sys_close arg d = close_of d (argfd d arg)
