-- ===== src/Fs/Paths.antt =====
-- Paths of fs.c. A path is the list of its bytes before the NUL.
pub mod Elements
pub mod Locks
use operating_systeams_proje.Prelude.{
  ℕ, zero, suc, ◌+◌, ◌-◌, Bool, true, false, not, ◌&&◌, Option, none, some, List, [], ◌∷◌, ◌==◌,
  ltb, if◌then◌else◌, take, length, get_elem?,
}
use operating_systeams_proje.Fs.{◌>>=◌, t_dir, rootino, M, ◌>>◌, give, inode_at}
use operating_systeams_proje.Fs.Inodes.{iget, idup, iput, ilock, iunlock, iunlockput}
use operating_systeams_proje.Fs.Dirs.{dirsiz, dirlookup}

abbrev pub is_slash : ℕ → Bool
is_slash c = c == b'/'

-- `while(*path == '/') path++;`.
unfoldable pub skip_slashes : List ℕ → List ℕ
skip_slashes [] = []
skip_slashes (c ∷ p) = let rest = skip_slashes p in if is_slash c then rest else c ∷ p

-- `while(*path != '/' && *path != 0) path++;`: what is passed over, and what is left.
unfoldable pub span_elem : List ℕ → List ℕ × List ℕ
span_elem [] = ([], [])
span_elem (c ∷ p) =
    let rest = span_elem p in if is_slash c then ([], c ∷ p) else (c ∷ rest.0, rest.1)

-- The name buffer after the element has been copied to it.
unfoldable pub put_name : List ℕ → (ℕ → ℕ) → ℕ → ℕ
put_name e name x = elim (get_elem? (take dirsiz e) x) [
  | some c ↦ c
  | none ↦ if ltb (length e) dirsiz && x == length e then 0 else name x
]

-- `skipelem`: the element, and the path behind it.
abbrev pub elem_of : List ℕ → Option (List ℕ × List ℕ)
elem_of [] = none
elem_of (c ∷ p) = let r = span_elem (c ∷ p) in some (r.0, skip_slashes r.1)

unfoldable pub skipelem : List ℕ → Option (List ℕ × List ℕ)
unfolding skip_slashes span_elem
skipelem path = elem_of (skip_slashes path)

-- The results of `skipelem` that the loop of `namex` goes through, at most `fuel` of them.
unfoldable pub elements_within : ℕ → List ℕ → List (List ℕ × List ℕ)
unfolding skipelem
elements_within zero path = []
elements_within (suc fuel) path = elim (skipelem path) [
  | none ↦ []
  | some (e, rest) ↦ (e, rest) ∷ elements_within fuel rest
]

unfoldable pub elements : List ℕ → List (List ℕ × List ℕ)
unfolding elements_within
elements path = elements_within (length path) path

abbrev pub is_end : List ℕ → Bool
is_end [] = true
is_end (c ∷ p) = false

-- The end of the loop.
abbrev pub walked : Bool → ℕ → (ℕ → ℕ) → M (Option (ℕ × (ℕ → ℕ)))
walked parent i name = if parent then iput i >> give none else give (some (i, name))

abbrev pub go_on : ℕ → Option (ℕ × ℕ) → (ℕ → M (Option (ℕ × (ℕ → ℕ)))) → M (Option (ℕ × (ℕ → ℕ)))
go_on i none rest = iunlockput i >> give none
go_on i (some (next, off)) rest = iunlockput i >> rest next

-- The loop of `namex`: the inode, and the name buffer.
unfoldable pub walk : Bool → (ℕ → ℕ) → List (List ℕ × List ℕ) → ℕ → M (Option (ℕ × (ℕ → ℕ)))
unfolding put_name ilock iunlock iunlockput iput dirlookup
walk parent name [] i = walked parent i name
walk parent name ((e, path) ∷ es) i =
    let name' = put_name e name in
    let rest = walk parent name' es in
    do
      ilock i
      ip ← inode_at i
      if not (ip.type == t_dir)
          then iunlockput i >> give none
          else if parent && is_end path
          then iunlock i >> give (some (i, name'))
          else (do next ← dirlookup i name'; go_on i next rest)

-- Where the path starts.
abbrev pub start_of : List ℕ → ℕ → M ℕ
start_of [] cwd = idup cwd
start_of (c ∷ p) cwd = if is_slash c then iget rootino else idup cwd

unfoldable pub namex : Bool → List ℕ → (ℕ → ℕ) → ℕ → M (Option (ℕ × (ℕ → ℕ)))
unfolding elements walk iget idup
namex parent path name cwd = do i ← start_of path cwd; walk parent name (elements path) i

-- `namei` and `nameiparent`; `junk` is what the name buffer holds before.
abbrev pub namei : List ℕ → (ℕ → ℕ) → ℕ → M (Option (ℕ × (ℕ → ℕ)))
namei path junk cwd = namex false path junk cwd

abbrev pub nameiparent : List ℕ → (ℕ → ℕ) → ℕ → M (Option (ℕ × (ℕ → ℕ)))
nameiparent path name cwd = namex true path name cwd
