-- ===== src/Sysfile/Open.antt =====
-- `sys_open` and `sys_chdir`. `fd` is what `filealloc` and `fdalloc` give `sys_open`: they work on the
-- tables of files, which the inodes do not see; `none` where one of them has no free entry.
use operating_systeams_proje.Prelude.{
  ℕ, Bool, not, ◌&&◌, ◌||◌, Option, none, some, List, ◌==◌, if◌then◌else◌, bit_and,
}
use operating_systeams_proje.Fs.{t_dir, t_file, M, ◌>>=◌, ◌>>◌, give, inode_at}
use operating_systeams_proje.Fs.Inodes.{ilock, iunlock, iput, iunlockput}
use operating_systeams_proje.Fs.Paths.{namex, namei}
use operating_systeams_proje.Sysfile.{begin_tx, end_tx}
use operating_systeams_proje.Sysfile.Create.{create}

abbrev pub o_rdonly : ℕ
o_rdonly = 0x000

abbrev pub o_wronly : ℕ
o_wronly = 0x001

abbrev pub o_rdwr : ℕ
o_rdwr = 0x002

abbrev pub o_create : ℕ
o_create = 0x200

-- `omode & flag`.
abbrev pub is_set : ℕ → ℕ → Bool
is_set omode flag = not (bit_and omode flag == 0)

-- The fields that `sys_open` stores into its file.
pub record OpenFile : Type 0 where
  pub fd : ℕ
  pub ip : ℕ
  pub off : ℕ
  pub readable : Bool
  pub writable : Bool

abbrev pub open_file : ℕ → ℕ → ℕ → OpenFile
open_file omode fd ip = record {
  fd = fd;
  ip = ip;
  off = 0;
  readable = not (is_set omode o_wronly);
  writable = is_set omode o_wronly || is_set omode o_rdwr;
}

-- The inode to open, locked.
unfoldable pub open_found : ℕ → Option (ℕ × (ℕ → ℕ)) → M (Option ℕ)
unfolding ilock iunlockput
open_found omode none = give none
open_found omode (some (ip, _)) = do
  ilock ip
  t ← inode_at ip
  if t.type == t_dir && not (omode == o_rdonly) then iunlockput ip >> give none else give (some ip)

unfoldable pub open_inode : ℕ → List ℕ → (ℕ → ℕ) → ℕ → M (Option ℕ)
unfolding open_found create namex
open_inode omode path junk cwd =
    if is_set omode o_create
    then create path t_file 0 0 junk cwd
    else (do found ← namei path junk cwd; open_found omode found)

unfoldable pub open_as : ℕ → Option ℕ → Option ℕ → M (Option OpenFile)
unfolding iunlock iunlockput end_tx
open_as omode fd none = end_tx >> give none
open_as omode none (some ip) = do iunlockput ip; end_tx; give none
open_as omode (some fd) (some ip) = do iunlock ip; end_tx; give (some (open_file omode fd ip))

unfoldable pub sys_open : Option ℕ → Option (List ℕ) → Option ℕ → (ℕ → ℕ) → ℕ → M (Option OpenFile)
unfolding open_inode open_as begin_tx
sys_open fd (some path) (some omode) junk cwd = do
  begin_tx
  ip ← open_inode omode path junk cwd
  open_as omode fd ip
sys_open fd path omode junk cwd = give none

-- The new current directory, if there is one.
unfoldable pub enter : ℕ → Option (ℕ × (ℕ → ℕ)) → M (Option ℕ)
unfolding ilock iunlock iput iunlockput end_tx
enter cwd none = end_tx >> give none
enter cwd (some (ip, _)) = do
  ilock ip
  t ← inode_at ip
  if t.type == t_dir
      then (do iunlock ip; iput cwd; end_tx; give (some ip))
      else (do iunlockput ip; end_tx; give none)

abbrev pub namei_arg : Option (List ℕ) → (ℕ → ℕ) → ℕ → M (Option (ℕ × (ℕ → ℕ)))
namei_arg none junk cwd = give none
namei_arg (some path) junk cwd = namei path junk cwd

unfoldable pub sys_chdir : Option (List ℕ) → (ℕ → ℕ) → ℕ → M (Option ℕ)
unfolding enter begin_tx namex
sys_chdir path junk cwd = do begin_tx; found ← namei_arg path junk cwd; enter cwd found
