-- ===== src/Sysfile.antt =====
-- The system calls of sysfile.c that work on inodes, as functions on the state of fs.c. A path is what
-- `argstr` gives, `none` where it fails; `junk` is what the name buffer on the stack holds before;
-- `cwd` is the current directory. A call that waits for the log in `begin_op` ends as `blocked`.
pub mod Link
pub mod Unlink
pub mod Create
pub mod Open
pub mod Descriptors
pub mod Locks
mod Tests
use operating_systeams_proje.Prelude.{
  ℕ, ◌+◌, ◌-◌, ◌%◌, ◌^◌, Option, none, some, ◌==◌, if◌then◌else◌,
}
use operating_systeams_proje.Journal.{Journal}
use operating_systeams_proje.Log.{begin_op, end_op}
use operating_systeams_proje.Fs.{Fs, M, Ran, ran, blocked, log_result, modify}

abbrev pub begun : Fs → Option Journal → Ran (Unit {0})
begun s none = blocked
begun s (some j) = ran tt (record s { journal = j })

unfoldable pub begin_tx : M (Unit {0})
unfolding begin_op
begin_tx s = begun s (begin_op s.journal)

unfoldable pub end_tx : M (Unit {0})
unfolding end_op
end_tx s = log_result s (end_op s.journal)

-- `ip->nlink++` and `ip->nlink--` on a `short`.
unfoldable pub add_nlink : ℕ → M (Unit {0})
unfolding modify
add_nlink i = modify i (λ ip. record ip { nlink = (ip.nlink + 1) % 2 ^ 16 })

unfoldable pub drop_nlink : ℕ → M (Unit {0})
unfolding modify
drop_nlink i = modify i (λ ip. record ip { nlink = (ip.nlink + (2 ^ 16 - 1)) % 2 ^ 16 })

-- The names `.` and `..`.
abbrev pub dot : ℕ → ℕ
dot x = if x == 0 then b'.' else 0

abbrev pub dotdot : ℕ → ℕ
dotdot x = if x == 0 then b'.' else if x == 1 then b'.' else 0
