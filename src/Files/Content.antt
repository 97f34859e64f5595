-- ===== src/Files/Content.antt =====
-- `filestat`, `fileread`, `filewrite` and the end of `fileclose` on an inode, as functions on the state of
-- fs.c. What is done for a pipe, and the functions of the device switch, are arguments. A length that
-- is returned is `some`, -1 is `none`; the result has the file's new offset.
use operating_systeams_proje.Prelude.{
  ℕ, zero, suc, ◌+◌, ◌-◌, ◌*◌, ◌/◌, Bool, true, false, Option, none, some, List, ◌==◌,
  if◌then◌else◌, min, take, drop, length,
}
use operating_systeams_proje.Prelude.Words.{word}
use operating_systeams_proje.Journal.{maxopblocks}
use operating_systeams_proje.Fs.{M, ◌>>=◌, ◌>>◌, give, panic, done, inode_at}
use operating_systeams_proje.Fs.Inodes.{ilock, iunlock, iput, Stat, stati}
use operating_systeams_proje.Fs.Content.{readi, writei}
use operating_systeams_proje.Files.{FileType, fd_none, fd_pipe, fd_inode}
use operating_systeams_proje.Sysfile.{begin_tx, end_tx}

-- The fields of `struct file` for its content.
pub record Handle : Type 0 where
  pub type : FileType
  pub readable : Bool
  pub writable : Bool
  pub ip : ℕ
  pub off : ℕ

abbrev pub stat_inode : ℕ → M (Option Stat)
stat_inode i = do ilock i; ip ← inode_at i; iunlock i; give (some (stati ip))

abbrev pub stat_as : FileType → ℕ → M (Option Stat)
stat_as fd_inode i = stat_inode i
stat_as fd_pipe i = give none
stat_as fd_none i = give none

unfoldable pub filestat : Handle → M (Option Stat)
unfolding ilock iunlock
filestat f = stat_as f.type f.ip

-- `f->off += r` for what has been read.
abbrev pub advance : ℕ → Option (List ℕ) → Option (List ℕ) × ℕ
advance off none = (none, off)
advance off (some bytes) = (some bytes, word (off + length bytes))

abbrev pub read_inode : M (Option (List ℕ)) → ℕ → ℕ → ℕ → M (Option (List ℕ) × ℕ)
read_inode device i off n = do ilock i; r ← readi device i off n; iunlock i; give (advance off r)

abbrev pub read_as :
    FileType → M (Option (List ℕ) × ℕ) → M (Option (List ℕ) × ℕ) → M (Option (List ℕ) × ℕ)
read_as fd_pipe pipe inode = pipe
read_as fd_inode pipe inode = inode
read_as fd_none pipe inode = panic

unfoldable pub fileread :
    M (Option (List ℕ) × ℕ) → M (Option (List ℕ)) → Handle → ℕ → M (Option (List ℕ) × ℕ)
unfolding ilock readi iunlock
fileread pipe device f n =
    if f.readable then read_as f.type pipe (read_inode device f.ip f.off n) else give (none, f.off)

-- `max`: what one transaction writes at most.
abbrev pub max_write : ℕ
max_write = (maxopblocks - 1 - 1 - 2) / 2 * 512

-- What a round makes of the result of `writei`.
abbrev pub written_of : ℕ → ℕ → Option ℕ → (ℕ → M (Bool × ℕ)) → M (Bool × ℕ)
written_of n off none rest = give (false, off)
written_of n off (some r) rest = if r == n then rest (word (off + r)) else panic

-- The loop of `filewrite` on what is left to write: whether all has been written, and the offset. A
-- round writes a byte at least, so that as many rounds as there are bytes are enough.
unfoldable pub write_rounds : ℕ → (List ℕ → M (Option ℕ)) → ℕ → ℕ → List ℕ → M (Bool × ℕ)
unfolding begin_tx end_tx ilock iunlock writei
write_rounds zero device i off src = give (true, off)
write_rounds (suc k) device i off src =
    let n = min (length src) max_write in
    let rest : ℕ → M (Bool × ℕ) = λ off'. write_rounds k device i off' (drop n src) in
    if length src == 0 then give (true, off) else (do
      begin_tx
      ilock i
      r ← writei (device (take n src)) i off (take n src)
      iunlock i
      end_tx
      written_of n off r rest)

abbrev pub write_inode : (List ℕ → M (Option ℕ)) → ℕ → ℕ → List ℕ → M (Option ℕ × ℕ)
write_inode device i off src = do
  r ← write_rounds (length src) device i off src
  give (if r.0 then some (length src) else none, r.1)

abbrev pub write_as : FileType → M (Option ℕ × ℕ) → M (Option ℕ × ℕ) → M (Option ℕ × ℕ)
write_as fd_pipe pipe inode = pipe
write_as fd_inode pipe inode = inode
write_as fd_none pipe inode = panic

unfoldable pub filewrite :
    M (Option ℕ × ℕ) → (List ℕ → M (Option ℕ)) → Handle → List ℕ → M (Option ℕ × ℕ)
unfolding write_rounds
filewrite pipe device f src =
    if f.writable
    then write_as f.type pipe (write_inode device f.ip f.off src)
    else give (none, f.off)

-- What `fileclose` does when the last reference is gone.
abbrev pub close_inode : ℕ → M (Unit {0})
close_inode i = do begin_tx; iput i; end_tx

unfoldable pub close_last : M (Unit {0}) → FileType → ℕ → M (Unit {0})
unfolding begin_tx end_tx iput
close_last pipe fd_pipe i = pipe
close_last pipe fd_inode i = close_inode i
close_last pipe fd_none i = done
