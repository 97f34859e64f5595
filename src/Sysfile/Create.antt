-- ===== src/Sysfile/Create.antt =====
-- `create`, and the calls that make directories and devices with it.
use operating_systeams_proje.Prelude.{
  ℕ, ◌%◌, ◌^◌, Bool, true, false, not, ◌&&◌, Option, none, some, List, ◌==◌, if◌then◌else◌,
}
use operating_systeams_proje.Fs.{
  t_dir, t_file, t_dev, M, ◌>>=◌, ◌>>◌, give, panic_if, done, inode_at, modify,
}
use operating_systeams_proje.Fs.Inodes.{iupdate, ialloc, ilock, iunlockput}
use operating_systeams_proje.Fs.Dirs.{dirlookup, dirlink}
use operating_systeams_proje.Fs.Paths.{namex, nameiparent}
use operating_systeams_proje.Sysfile.{begin_tx, end_tx, add_nlink, dot, dotdot}

-- The entries `.` and `..` of a new directory.
unfoldable pub make_dots : ℕ → ℕ → M (Unit {0})
unfolding add_nlink iupdate dirlink
make_dots dp ip = do
  add_nlink dp
  iupdate dp
  t ← inode_at ip
  self ← dirlink ip dot t.inum
  d ← inode_at dp
  up ← (if self then dirlink ip dotdot d.inum else give false)
  panic_if (not up)

-- The name is there already.
unfoldable pub reopen : ℕ → ℕ → ℕ → M (Option ℕ)
unfolding ilock iunlockput
reopen type dp ip = do
  iunlockput dp
  ilock ip
  t ← inode_at ip
  if type == t_file && t.type == t_file then give (some ip) else iunlockput ip >> give none

unfoldable pub create_new : ℕ → ℕ → ℕ → ℕ → (ℕ → ℕ) → M (Option ℕ)
unfolding ialloc ilock modify iupdate make_dots dirlink iunlockput
create_new type major minor dp name = do
  ip ← ialloc type
  ilock ip
  modify ip (λ t. record t { major = major; minor = minor; nlink = 1 })
  iupdate ip
  if type == t_dir then make_dots dp ip else done
  t ← inode_at ip
  linked ← dirlink dp name t.inum
  panic_if (not linked)
  iunlockput dp
  give (some ip)

abbrev pub create_entry : ℕ → ℕ → ℕ → ℕ → (ℕ → ℕ) → Option (ℕ × ℕ) → M (Option ℕ)
create_entry type major minor dp name none = create_new type major minor dp name
create_entry type major minor dp name (some (ip, off)) = reopen type dp ip

unfoldable pub create_in : ℕ → ℕ → ℕ → Option (ℕ × (ℕ → ℕ)) → M (Option ℕ)
unfolding create_new reopen ilock dirlookup
create_in type major minor none = give none
create_in type major minor (some (dp, name)) = do
  ilock dp
  next ← dirlookup dp name
  create_entry type major minor dp name next

-- The new inode, locked.
unfoldable pub create : List ℕ → ℕ → ℕ → ℕ → (ℕ → ℕ) → ℕ → M (Option ℕ)
unfolding create_in namex
create path type major minor junk cwd = do
  parent ← nameiparent path junk cwd
  create_in type major minor parent

-- The end of `sys_mkdir` and `sys_mknod`.
unfoldable pub put_created : Option ℕ → M Bool
unfolding iunlockput end_tx
put_created none = end_tx >> give false
put_created (some ip) = do iunlockput ip; end_tx; give true

abbrev pub create_arg : Option (List ℕ) → ℕ → (ℕ → ℕ) → ℕ → M (Option ℕ)
create_arg none type junk cwd = give none
create_arg (some path) type junk cwd = create path type 0 0 junk cwd

unfoldable pub sys_mkdir : Option (List ℕ) → (ℕ → ℕ) → ℕ → M Bool
unfolding create put_created begin_tx
sys_mkdir path junk cwd = do begin_tx; r ← create_arg path t_dir junk cwd; put_created r

-- The numbers are cut to a `short`.
abbrev pub create_device : Option (List ℕ) → Option ℕ → Option ℕ → (ℕ → ℕ) → ℕ → M (Option ℕ)
create_device (some path) (some major) (some minor) junk cwd =
    create path t_dev (major % 2 ^ 16) (minor % 2 ^ 16) junk cwd
create_device path major minor junk cwd = give none

unfoldable pub sys_mknod : Option (List ℕ) → Option ℕ → Option ℕ → (ℕ → ℕ) → ℕ → M Bool
unfolding create put_created begin_tx
sys_mknod path major minor junk cwd = do
  begin_tx
  r ← create_device path major minor junk cwd
  put_created r
