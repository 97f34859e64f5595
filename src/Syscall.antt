-- ===== src/Syscall.antt =====
-- The arguments of a system call, of syscall.c: words on the user stack, and pointers into the
-- process's memory. An `int` or an address is a number below 2 ^ 32, -1 is `none`.
pub mod Arguments
mod Tests
use operating_systeams_proje.Prelude.{
  ℕ, ◌+◌, ◌-◌, ◌*◌, ◌||◌, Option, none, some, ◌==◌, ltb, leb, if◌then◌else◌,
}
use operating_systeams_proje.Prelude.Words.{word, slt, get32}
use operating_systeams_proje.Prelude.Search.{find_index}

-- What of `struct proc` these functions read: the size of the memory, its bytes, and `tf->esp`.
pub record User : Type 0 where
  pub sz : ℕ
  pub memory : ℕ → ℕ
  pub esp : ℕ

unfoldable pub fetchint : User → ℕ → Option ℕ
fetchint u addr =
    if leb u.sz addr || ltb u.sz (word (addr + 4)) then none else some (get32 u.memory addr)

-- The string's address, and its length.
abbrev pub string_at : ℕ → Option ℕ → Option (ℕ × ℕ)
string_at addr none = none
string_at addr (some s) = some (addr, s - addr)

unfoldable pub fetchstr : User → ℕ → Option (ℕ × ℕ)
unfolding find_index
fetchstr u addr =
    if leb u.sz addr
    then none
    else string_at addr (find_index (λ s. u.memory s == 0) addr (u.sz - addr))

unfoldable pub argint : User → ℕ → Option ℕ
unfolding fetchint
argint u n = fetchint u (word (u.esp + 4 + 4 * n))

abbrev pub checked_ptr : User → ℕ → Option ℕ → Option ℕ
checked_ptr u size none = none
checked_ptr u size (some i) =
    if slt size 0 || leb u.sz i || ltb u.sz (word (i + size)) then none else some i

unfoldable pub argptr : User → ℕ → ℕ → Option ℕ
unfolding argint
argptr u n size = checked_ptr u size (argint u n)

abbrev pub string_of : User → Option ℕ → Option (ℕ × ℕ)
string_of u none = none
string_of u (some addr) = fetchstr u addr

unfoldable pub argstr : User → ℕ → Option (ℕ × ℕ)
unfolding argint fetchstr
argstr u n = string_of u (argint u n)
