-- ===== src/Sysfile/Link.antt =====
-- `sys_link`. There is one device, so its test of the devices passes.
use operating_systeams_proje.Prelude.{
  ℕ, Bool, true, false, Option, none, some, List, ◌==◌, if◌then◌else◌,
}
use operating_systeams_proje.Fs.{t_dir, M, ◌>>=◌, ◌>>◌, give, inode_at}
use operating_systeams_proje.Fs.Inodes.{iupdate, ilock, iunlock, iput, iunlockput}
use operating_systeams_proje.Fs.Dirs.{dirlink}
use operating_systeams_proje.Fs.Paths.{namex, namei, nameiparent}
use operating_systeams_proje.Sysfile.{begin_tx, end_tx, add_nlink, drop_nlink}

-- The label `bad`.
unfoldable pub link_bad : ℕ → M Bool
unfolding ilock drop_nlink iupdate iunlockput end_tx
link_bad ip = do ilock ip; drop_nlink ip; iupdate ip; iunlockput ip; end_tx; give false

abbrev pub link_done : ℕ → M Bool
link_done ip = do iput ip; end_tx; give true

-- What follows `nameiparent`.
unfoldable pub link_at : ℕ → Option (ℕ × (ℕ → ℕ)) → M Bool
unfolding link_bad dirlink iput end_tx
link_at ip none = link_bad ip
link_at ip (some (dp, name)) = do
  ilock dp
  t ← inode_at ip
  linked ← dirlink dp name t.inum
  iunlockput dp
  if linked then link_done ip else link_bad ip

-- What follows `namei`.
unfoldable pub link_found : List ℕ → (ℕ → ℕ) → ℕ → Option (ℕ × (ℕ → ℕ)) → M Bool
unfolding link_at namex ilock iunlock iunlockput add_nlink iupdate end_tx
link_found new junk cwd none = end_tx >> give false
link_found new junk cwd (some (ip, _)) = do
  ilock ip
  t ← inode_at ip
  if t.type == t_dir then (do iunlockput ip; end_tx; give false) else (do
    add_nlink ip
    iupdate ip
    iunlock ip
    parent ← nameiparent new junk cwd
    link_at ip parent)

unfoldable pub sys_link : Option (List ℕ) → Option (List ℕ) → (ℕ → ℕ) → ℕ → M Bool
unfolding link_found begin_tx namex
sys_link none new junk cwd = give false
sys_link (some old) none junk cwd = give false
sys_link (some old) (some new) junk cwd = do
  begin_tx
  found ← namei old junk cwd
  link_found new junk cwd found
