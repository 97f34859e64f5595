-- ===== src/Fs/Dirs.antt =====
-- Directories of fs.c. An entry is two bytes of inode number and `DIRSIZ` bytes of name; a name is
-- a buffer of `DIRSIZ` bytes.
pub mod Locks
use operating_systeams_proje.Prelude.{
  ℕ, zero, suc, ◌+◌, ◌-◌, ◌*◌, ◌/◌, ◌%◌, Bool, true, false, not, Option, none, some, List, ◌∷◌,
  ◌==◌, ltb, if◌then◌else◌, slice, length, get_elem?,
}
use operating_systeams_proje.Strings.{strncmp, strncpy}
use operating_systeams_proje.Fs.{t_dir, M, ◌>>=◌, ◌>>◌, give, panic, panic_if, inode_at}
use operating_systeams_proje.Fs.Inodes.{iget, iput}
use operating_systeams_proje.Fs.Content.{readi, writei}

abbrev pub dirsiz : ℕ
dirsiz = 14

abbrev pub dirent_size : ℕ
dirent_size = 16

-- The two buffers one behind the other in memory.
abbrev pub two_names : (ℕ → ℕ) → (ℕ → ℕ) → ℕ → ℕ
two_names s t x = if ltb x dirsiz then s x else t (x - dirsiz)

unfoldable pub namecmp : (ℕ → ℕ) → (ℕ → ℕ) → ℕ
unfolding strncmp
namecmp s t = strncmp (two_names s t) 0 dirsiz dirsiz

-- The byte at `i` of what has been read.
abbrev pub byte_at : List ℕ → ℕ → ℕ
byte_at bytes i = elim (get_elem? bytes i) [ none ↦ 0 | some v ↦ v ]

-- `readi` of an entry, which panics unless all of it is read.
abbrev pub full_entry : Option (List ℕ) → M (List ℕ)
full_entry none = panic
full_entry (some bytes) = if length bytes == dirent_size then give bytes else panic

unfoldable pub read_dirent : ℕ → ℕ → M (List ℕ)
unfolding readi
read_dirent dp off = do r ← readi panic dp off dirent_size; full_entry r

abbrev pub dirent_inum : List ℕ → ℕ
dirent_inum de = byte_at de 0 + byte_at de 1 * 256

abbrev pub dirent_name : List ℕ → ℕ → ℕ
dirent_name de i = byte_at de (2 + i)

-- The loop of `dirlookup` from `off` on, over `k` entries: the inode number and the offset.
unfoldable pub scan_dir : ℕ → (ℕ → ℕ) → ℕ → ℕ → M (Option (ℕ × ℕ))
unfolding read_dirent namecmp
scan_dir dp name off zero = give none
scan_dir dp name off (suc k) =
    let rest = scan_dir dp name (off + dirent_size) k in
    do
      de ← read_dirent dp off
      if dirent_inum de == 0
          then rest
          else if namecmp name (dirent_name de) == 0
          then give (some (dirent_inum de, off))
          else rest

-- The entries of a directory of `size` bytes.
abbrev pub entries : ℕ → ℕ
entries size = (size + (dirent_size - 1)) / dirent_size

abbrev pub get_found : Option (ℕ × ℕ) → M (Option (ℕ × ℕ))
get_found none = give none
get_found (some (inum, off)) = do i ← iget inum; give (some (i, off))

-- The inode, and `*poff`.
unfoldable pub dirlookup : ℕ → (ℕ → ℕ) → M (Option (ℕ × ℕ))
unfolding scan_dir iget
dirlookup dp name = do
  ip ← inode_at dp
  panic_if (not (ip.type == t_dir))
  found ← scan_dir dp name 0 (entries ip.size)
  get_found found

-- The loop of `dirlink`: the offset of the first empty entry, or of the end.
unfoldable pub scan_empty : ℕ → ℕ → ℕ → M ℕ
unfolding read_dirent
scan_empty dp off zero = give off
scan_empty dp off (suc k) =
    let rest = scan_empty dp (off + dirent_size) k in
    do de ← read_dirent dp off; if dirent_inum de == 0 then give off else rest

-- `strncpy(de.name, name, DIRSIZ); de.inum = inum;`.
unfoldable pub make_dirent : (ℕ → ℕ) → ℕ → List ℕ
unfolding strncpy
make_dirent name inum =
    inum % 256
    ∷ inum / 256 % 256
    ∷ slice (strncpy 0 dirsiz dirsiz (two_names (λ x. 0) name)) 0 dirsiz

abbrev pub full_write : Option ℕ → M Bool
full_write none = panic
full_write (some n) = if n == dirent_size then give true else panic

unfoldable pub add_dirent : ℕ → (ℕ → ℕ) → ℕ → M Bool
unfolding scan_empty make_dirent writei
add_dirent dp name inum = do
  ip ← inode_at dp
  off ← scan_empty dp 0 (entries ip.size)
  r ← writei panic dp off (make_dirent name inum)
  full_write r

abbrev pub link_unless : ℕ → (ℕ → ℕ) → ℕ → Option (ℕ × ℕ) → M Bool
link_unless dp name inum (some (i, off)) = iput i >> give false
link_unless dp name inum none = add_dirent dp name inum

-- Whether `dirlink` returns 0.
unfoldable pub dirlink : ℕ → (ℕ → ℕ) → ℕ → M Bool
unfolding dirlookup add_dirent iput
dirlink dp name inum = do found ← dirlookup dp name; link_unless dp name inum found
