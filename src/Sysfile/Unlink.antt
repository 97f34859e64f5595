-- ===== src/Sysfile/Unlink.antt =====
-- `isdirempty` and `sys_unlink`.
use operating_systeams_proje.Prelude.{
  ℕ, zero, suc, ◌+◌, ◌-◌, ◌*◌, ◌^◌, Bool, true, false, ◌||◌, Option, none, some, List, ◌==◌, ltb,
  leb, if◌then◌else◌, replicate,
}
use operating_systeams_proje.Fs.{t_dir, M, ◌>>=◌, ◌>>◌, give, panic, panic_if, done, inode_at}
use operating_systeams_proje.Fs.Inodes.{iupdate, ilock, iunlockput}
use operating_systeams_proje.Fs.Content.{writei}
use operating_systeams_proje.Fs.Dirs.{
  dirent_size, dirent_inum, read_dirent, entries, namecmp, dirlookup, full_write,
}
use operating_systeams_proje.Fs.Paths.{namex, nameiparent}
use operating_systeams_proje.Sysfile.{begin_tx, end_tx, drop_nlink, dot, dotdot}

-- The loop of `isdirempty` from `off` on, over `k` entries.
unfoldable pub scan_used : ℕ → ℕ → ℕ → M Bool
unfolding read_dirent
scan_used dp off zero = give true
scan_used dp off (suc k) =
    let rest = scan_used dp (off + dirent_size) k in
    do de ← read_dirent dp off; if dirent_inum de == 0 then rest else give false

unfoldable pub isdirempty : ℕ → M Bool
unfolding scan_used
isdirempty dp = do
  ip ← inode_at dp
  scan_used dp (2 * dirent_size) (entries (ip.size - 2 * dirent_size))

-- The label `bad`.
unfoldable pub unlink_bad : ℕ → M Bool
unfolding iunlockput end_tx
unlink_bad dp = do iunlockput dp; end_tx; give false

-- From the `memset` on.
unfoldable pub clear_entry : ℕ → ℕ → ℕ → M Bool
unfolding writei drop_nlink iupdate iunlockput end_tx
clear_entry dp ip off = do
  r ← writei panic dp off (replicate dirent_size 0)
  full ← full_write r
  t ← inode_at ip
  if t.type == t_dir then drop_nlink dp >> iupdate dp else done
  iunlockput dp
  drop_nlink ip
  iupdate ip
  iunlockput ip
  end_tx
  give true

-- What follows `dirlookup`; `nlink` is a `short`.
unfoldable pub unlink_entry : ℕ → Option (ℕ × ℕ) → M Bool
unfolding unlink_bad isdirempty clear_entry ilock iunlockput
unlink_entry dp none = unlink_bad dp
unlink_entry dp (some (ip, off)) = do
  ilock ip
  t ← inode_at ip
  panic_if (ltb t.nlink 1 || leb (2 ^ 15) t.nlink)
  removable ← (if t.type == t_dir then isdirempty ip else give true)
  if removable then clear_entry dp ip off else iunlockput ip >> unlink_bad dp

unfoldable pub unlink_at : Option (ℕ × (ℕ → ℕ)) → M Bool
unfolding unlink_entry ilock namecmp dirlookup end_tx
unlink_at none = end_tx >> give false
unlink_at (some (dp, name)) = do
  ilock dp
  if namecmp name dot == 0 || namecmp name dotdot == 0
      then unlink_bad dp
      else (do next ← dirlookup dp name; unlink_entry dp next)

unfoldable pub sys_unlink : Option (List ℕ) → (ℕ → ℕ) → ℕ → M Bool
unfolding unlink_at begin_tx namex
sys_unlink none junk cwd = give false
sys_unlink (some path) junk cwd = do begin_tx; parent ← nameiparent path junk cwd; unlink_at parent
