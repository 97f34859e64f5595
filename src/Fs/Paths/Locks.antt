-- ===== src/Fs/Paths/Locks.antt =====
-- A path lookup holds one lock at a time, and gives back all that it takes.
use operating_systeams_proje.Prelude.{ℕ, refl, Bool, false, Option, none, some, List, [], ◌∷◌}
use operating_systeams_proje.Fs.{Fs, M, ◌>>◌, give}
use operating_systeams_proje.Fs.Paths.{is_slash, elements, put_name, go_on, walk, start_of, namex}
use operating_systeams_proje.Fs.Locks.{
  HasLocks, Ends, Moves, Keeps, Moves-bind, Keeps-if, Keeps-give, Keeps-inode_at,
}
use operating_systeams_proje.Fs.Locks.Held.{
  Moves-then, Moves-if, with, ilock-Moves, iunlock-Moves, iput-Moves, iunlockput-Moves,
}
use operating_systeams_proje.Fs.Locks.Calls.{Keeps-iget, Keeps-idup, Keeps-dirlookup}

-- Nobody has a lock; and only inode `i` is locked.
abbrev pub free : ℕ → Bool
free j = false

abbrev pub only : ℕ → ℕ → Bool
only i = with free i

gave :
    {A : Type 0} (l l' : ℕ → Bool) (m : M (Unit {0})) (a : A)
    → Moves l m l'
    → Moves l (m >> give a) l'
gave l l' m a h = Moves-bind l l' l' _ _ h (λ _. (Keeps-give a).at l')

walk-Moves :
    (parent : Bool) (name : ℕ → ℕ) (es : List (List ℕ × List ℕ)) (i : ℕ)
    → Moves free (walk parent name es i) free
unfolding walk
walk-Moves parent name [] i =
    Moves-if free free parent _ _ (gave free free _ none (iput-Moves free i refl))
      ((Keeps-give (some (i, name))).at free)
walk-Moves parent name ((e, path) ∷ es) i =
    Moves-bind free (only i) free _ _ (ilock-Moves free i refl) (λ _.
      Moves-then (only i) free _ _ (Keeps-inode_at i) (λ ip.
        Moves-if (only i) free _ _ _ (gave (only i) free _ none (iunlockput-Moves free i refl)) (
          Moves-if (only i) free _ _ _
            (gave (only i) free _ (some (i, put_name e name)) (iunlock-Moves free i refl))
            (Moves-then (only i) free _ _ (Keeps-dirlookup i (put_name e name)) (
              go_on-Moves (walk parent (put_name e name) es)
                (walk-Moves parent (put_name e name) es))))))
  where
    go_on-Moves :
        (rest : ℕ → M (Option (ℕ × (ℕ → ℕ))))
        → ((next : ℕ) → Moves free (rest next) free)
        → (o : Option (ℕ × ℕ)) → Moves (only i) (go_on i o rest) free
    go_on-Moves rest h none = gave (only i) free _ none (iunlockput-Moves free i refl)
    go_on-Moves rest h (some (next, off)) =
        Moves-bind (only i) free free _ _ (iunlockput-Moves free i refl) (λ _. h next)

namex-Moves :
    (parent : Bool) (path : List ℕ) (name : ℕ → ℕ) (cwd : ℕ)
    → Moves free (namex parent path name cwd) free
unfolding namex
namex-Moves parent path name cwd =
    Moves-then free free _ _ (start-Keeps path) (λ i. walk-Moves parent name (elements path) i)
  where
    start-Keeps : (p : List ℕ) → Keeps (start_of p cwd)
    start-Keeps [] = Keeps-idup cwd
    start-Keeps (c ∷ p) = Keeps-if (is_slash c) _ _ (Keeps-iget _) (Keeps-idup cwd)

-- From a state in which no inode is locked, `namex` never waits for a lock, and when it returns, with an
-- inode or without one, no inode is locked.
pub namex-Ends :
    (parent : Bool) (path : List ℕ) (name : ℕ → ℕ) (cwd : ℕ) (s : Fs)
    → HasLocks free s
    → Ends free (namex parent path name cwd s)
namex-Ends parent path name cwd s h = (namex-Moves parent path name cwd).at s h
