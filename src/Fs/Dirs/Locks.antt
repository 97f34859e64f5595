-- ===== src/Fs/Dirs/Locks.antt =====
-- `dirlink` under the lock of its directory: it gives the entry that it has found back with `iput`,
-- which takes that inode's lock.
use operating_systeams_proje.Prelude.{
  ℕ, zero, suc, ◌+◌, ◌/◌, ◌%◌, ◌≡◌, ◌≢◌, refl, sym, ◌∙◌, ap, subst, Bool, true, false, Option, none,
  some, List, ◌==◌, if◌then◌else◌, drop, length, ==_ne, if_true, if_false, ==_iff,
}
use native.Mathlib.Decide.{ℕ_discrete}
use operating_systeams_proje.Journal.{bsize}
use operating_systeams_proje.Fs.{
  Fs, t_dir, M, Ran, ran, panicked, blocked, ◌>>=◌, ◌>>◌, and_then, give, write_through,
}
use operating_systeams_proje.Fs.Inodes.{lock, iput}
use operating_systeams_proje.Fs.Content.{chunk, send_block, write_chunks, grow, writei}
use operating_systeams_proje.Fs.Dirs.{
  dirent_size, scan_empty, full_write, add_dirent, dirlookup, link_unless, dirlink,
}
use operating_systeams_proje.Fs.Locks.{
  HasLocks, Ends, Moves, Keeps, Moves-bind, Keeps-bind, Keeps-if, Keeps-same, Keeps-give,
  Keeps-modify, Keeps-inode_at, Keeps-read_block, Keeps-store_block, keeps,
}
use operating_systeams_proje.Fs.Locks.Held.{iput-Moves}
use operating_systeams_proje.Fs.Locks.Calls.{
  Keeps-iupdate, Keeps-bmap, Keeps-read_dirent, Keeps-dirlookup,
}

Keeps-write_through : (b : ℕ) → Keeps (write_through b)
unfolding write_through
Keeps-write_through b = Keeps-same (write_through b) (λ l s h. h)

Keeps-send_block : (d : Bool) (addr at m : ℕ) → Keeps (send_block d addr at m)
Keeps-send_block true addr at m = search keeps
Keeps-send_block false addr at m = Keeps-write_through addr

Keeps-write_chunks : (rounds i off : ℕ) (src : List ℕ) → Keeps (write_chunks rounds i off src)
unfolding write_chunks
Keeps-write_chunks zero i off src = search keeps
Keeps-write_chunks (suc rounds) i off src =
    let ih : Keeps
        (write_chunks rounds i (off + chunk off (length src)) (drop (chunk off (length src)) src)) =
      Keeps-write_chunks rounds i (off + chunk off (length src))
        (drop (chunk off (length src)) src) in
    Keeps-if _ _ _ (Keeps-give tt) (
      Keeps-bind _ _ (Keeps-bmap i (off / bsize)) (λ addr.
        Keeps-bind _ _ (Keeps-read_block addr) (λ b. Keeps-bind _ _ (Keeps-store_block addr _) (λ _.
          Keeps-bind _ _ (Keeps-inode_at i) (λ ip.
            Keeps-bind _ _ (Keeps-send_block (ip.type == t_dir) addr (off % bsize) _) (λ _. ih))))))

Keeps-grow : (i n off : ℕ) → Keeps (grow i n off)
unfolding grow
Keeps-grow i n off = Keeps-bind _ _ (search keeps) (λ ip.
    Keeps-if _ _ _ (Keeps-bind _ _ (Keeps-modify i _ (λ q. refl)) (λ _. Keeps-iupdate i))
      (Keeps-give tt))

Keeps-writei :
    (device : M (Option ℕ)) (i off : ℕ) (src : List ℕ)
    → Keeps device
    → Keeps (writei device i off src)
unfolding writei
Keeps-writei device i off src d = Keeps-bind _ _ (Keeps-inode_at i) (λ ip. Keeps-if _ _ _ d (
    Keeps-if _ _ _ (Keeps-give none) (
      Keeps-bind _ _ (Keeps-write_chunks (length src) i off src) (λ _.
        Keeps-bind _ _ (Keeps-grow i (length src) (off + length src))
          (λ _. Keeps-give (some (length src)))))))

Keeps-scan_empty : (dp off k : ℕ) → Keeps (scan_empty dp off k)
unfolding scan_empty
Keeps-scan_empty dp off zero = search keeps
Keeps-scan_empty dp off (suc k) =
    let ih : Keeps (scan_empty dp (off + dirent_size) k) =
      Keeps-scan_empty dp (off + dirent_size) k in
    Keeps-bind _ _ (Keeps-read_dirent dp off) (λ de. Keeps-if _ _ _ (Keeps-give off) ih)

Keeps-full_write : (o : Option ℕ) → Keeps (full_write o)
Keeps-full_write none = search keeps
Keeps-full_write (some n) = search keeps

Keeps-add_dirent : (dp : ℕ) (name : ℕ → ℕ) (inum : ℕ) → Keeps (add_dirent dp name inum)
unfolding add_dirent
Keeps-add_dirent dp name inum =
    search (keeps, Keeps-scan_empty, Keeps-writei, Keeps-full_write) depth 20

-- Only the directory is locked.
abbrev pub alone : ℕ → ℕ → Bool
alone dp j = j == dp

-- What `dirlink` does after a lookup: it waits for good if the entry is the directory itself.
abbrev pub Links : ℕ → Ran (Option (ℕ × ℕ)) → Ran Bool → Type 0
Links dp (ran none s) r = Ends (alone dp) r
Links dp (ran (some (i, off)) s) r = if i == dp then r ≡ blocked else Ends (alone dp) r
Links dp panicked r = r ≡ panicked
Links dp blocked r = ⊥

put_other : (dp i : ℕ) (a : Bool) → i ≢ dp → Moves (alone dp) (iput i >> give a) (alone dp)
put_other dp i a ne =
    Moves-bind (alone dp) (alone dp) (alone dp) _ _ (iput-Moves (alone dp) i (==_ne i dp ne))
      (λ _. (Keeps-give a).at (alone dp))

iput_self : (i : ℕ) (s : Fs) → (s.icache i).locked ≡ true → iput i s ≡ blocked
unfolding iput lock ◌>>=◌
iput_self i s e = rw e refl

bind_blocked :
    {A B : Type 0} (m : M A) (f : A → M B) (s : Fs) → m s ≡ blocked → (m >>= f) s ≡ blocked
unfolding ◌>>=◌
bind_blocked m f s e = ap (λ r. and_then r f) e

link-Links :
    (dp : ℕ) (name : ℕ → ℕ) (inum : ℕ) (r : Ran (Option (ℕ × ℕ)))
    → Ends (alone dp) r
    → Links dp r (and_then r (link_unless dp name inum))
link-Links dp name inum (ran none s) h = ((Keeps-add_dirent dp name inum).at (alone dp)).at s h
link-Links dp name inum (ran (some (i, off)) s) h = elim (ℕ_discrete i dp) [
  | yes e ↦
      let same : (i == dp) ≡ true = (==_iff i dp).1 e in
      subst (λ (T : Type 0). T) (sym (if_true (i == dp) _ _ same))
        (bind_blocked (iput i) _ s (iput_self i s (h i ∙ same)))
  | no ne ↦
      subst (λ (T : Type 0). T) (sym (if_false (i == dp) _ _ (==_ne i dp ne)))
        ((put_other dp i false ne).at s h)
]
link-Links dp name inum panicked h = refl
link-Links dp name inum blocked h = h

-- With the lock of the directory held and no other, as the calls do, `dirlink` looks the name up. If there
-- is no such entry, or it is another inode's, `dirlink` does not wait for a lock, and has left the locks
-- as they were when it returns. If the entry is the directory itself, as that of `.` is, `dirlink`
-- waits for the lock that is held: it never returns.
pub dirlink-Links :
    (dp : ℕ) (name : ℕ → ℕ) (inum : ℕ) (s : Fs)
    → HasLocks (alone dp) s
    → Links dp (dirlookup dp name s) (dirlink dp name inum s)
unfolding dirlink ◌>>=◌
dirlink-Links dp name inum s h =
    link-Links dp name inum (dirlookup dp name s) (((Keeps-dirlookup dp name).at (alone dp)).at s h)
