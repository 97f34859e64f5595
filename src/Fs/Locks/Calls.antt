-- ===== src/Fs/Locks/Calls.antt =====
-- The functions of fs.c below path lookup do not wait for an inode's lock, and keep those that are held.
use operating_systeams_proje.Prelude.{
  ℕ, zero, suc, ◌+◌, ◌-◌, ◌/◌, ◌%◌, ◌++◌, slice, refl, Bool, false, Option, none, some, List, [],
  ltb, if◌then◌else◌,
}
use operating_systeams_proje.Journal.{bsize}
use operating_systeams_proje.Fs.{Inode, Fs, M, panic, ndirect}
use operating_systeams_proje.Fs.Blocks.{bzero, take_block, take_found, balloc, bfree}
use operating_systeams_proje.Fs.Inodes.{
  iupdate, iget_found, iget, idup, load_inode, get_inode, free_addr, free_direct, free_directs,
  free_indirect, free_indirects, free_listed, free_indirect_block, itrunc, free_inode,
}
use operating_systeams_proje.Fs.Content.{
  alloc_addr, direct_addr, listed_addr, bmap, chunk, read_chunks, readi,
}
use operating_systeams_proje.Fs.Dirs.{
  dirent_size, full_entry, read_dirent, scan_dir, get_found, dirlookup,
}
use operating_systeams_proje.Fs.Locks.{
  HasLocks, Ends, Keeps, Keeps-bind, Keeps-if, Keeps-same, Keeps-give, Keeps-panic, Keeps-get,
  Keeps-read_block, Keeps-inode_at, modified, Keeps-modify, keeps,
}

Keeps-bzero : (b : ℕ) → Keeps (bzero b)
unfolding bzero
Keeps-bzero b = search keeps

Keeps-take_block : (b : ℕ) → Keeps (take_block b)
unfolding take_block
Keeps-take_block b = search (keeps, Keeps-bzero) depth 16

Keeps-take_found : (o : Option ℕ) → Keeps (take_found o)
Keeps-take_found none = search keeps
Keeps-take_found (some b) = Keeps-take_block b

pub Keeps-balloc : Keeps balloc
unfolding balloc
Keeps-balloc = search (keeps, Keeps-take_found)

pub Keeps-bfree : (b : ℕ) → Keeps (bfree b)
unfolding bfree
Keeps-bfree b = search keeps

pub Keeps-iupdate : (i : ℕ) → Keeps (iupdate i)
unfolding iupdate
Keeps-iupdate i = search keeps

Keeps-free_addr : (i k : ℕ) → Keeps (free_addr i k)
unfolding free_addr
Keeps-free_addr i k =
    Keeps-bind _ _ (Keeps-inode_at i)
      (λ ip. Keeps-bind _ _ (Keeps-bfree _) (λ _. Keeps-modify i _ (λ q. refl)))

Keeps-free_directs : (i k n : ℕ) → Keeps (free_directs i k n)
unfolding free_directs free_direct
Keeps-free_directs i k zero = search keeps
Keeps-free_directs i k (suc n) = Keeps-bind _ _ (Keeps-inode_at i) (λ ip.
    Keeps-bind _ _ (Keeps-if _ _ _ (Keeps-give tt) (Keeps-free_addr i k))
      (λ _. Keeps-free_directs i (suc k) n))

Keeps-free_indirect : (at j : ℕ) → Keeps (free_indirect at j)
unfolding free_indirect
Keeps-free_indirect at j = search (keeps, Keeps-bfree)

Keeps-free_indirects : (at j n : ℕ) → Keeps (free_indirects at j n)
unfolding free_indirects
Keeps-free_indirects at j zero = search keeps
Keeps-free_indirects at j (suc n) =
    Keeps-bind _ _ (Keeps-free_indirect at j) (λ _. Keeps-free_indirects at (suc j) n)

Keeps-free_listed : (i : ℕ) → Keeps (free_listed i)
unfolding free_listed
Keeps-free_listed i = search (keeps, Keeps-free_indirects, Keeps-free_addr) depth 12

Keeps-free_indirect_block : (i : ℕ) → Keeps (free_indirect_block i)
unfolding free_indirect_block
Keeps-free_indirect_block i = search (keeps, Keeps-free_listed) depth 12

Keeps-itrunc : (i : ℕ) → Keeps (itrunc i)
unfolding itrunc
Keeps-itrunc i = Keeps-bind _ _ (Keeps-free_directs i 0 ndirect) (λ _.
    Keeps-bind _ _ (Keeps-free_indirect_block i)
      (λ _. Keeps-bind _ _ (Keeps-modify i _ (λ q. refl)) (λ _. Keeps-iupdate i)))

pub Keeps-free_inode : (i : ℕ) → Keeps (free_inode i)
unfolding free_inode
Keeps-free_inode i = Keeps-bind _ _ (Keeps-itrunc i) (λ _.
    Keeps-bind _ _ (Keeps-modify i _ (λ q. refl))
      (λ _. Keeps-bind _ _ (Keeps-iupdate i) (λ _. Keeps-modify i _ (λ q. refl))))

pub Keeps-idup : (i : ℕ) → Keeps (idup i)
unfolding idup
Keeps-idup i = Keeps-bind _ _ (Keeps-modify i _ (λ q. refl)) (λ _. Keeps-give i)

pub Keeps-load_inode : (i : ℕ) → Keeps (load_inode i)
unfolding load_inode get_inode
Keeps-load_inode i = Keeps-bind _ _ Keeps-get (λ s. Keeps-bind _ _ (Keeps-inode_at i) (λ ip.
    Keeps-bind _ _ (Keeps-read_block _)
      (λ b. Keeps-bind _ _ (Keeps-modify i _ (λ q. refl)) (λ _. search keeps))))

found-locks :
    (inum : ℕ) (o e : Option ℕ) (l : ℕ → Bool) (s : Fs)
    → HasLocks l s
    → Ends l (iget_found inum o e s)
found-locks inum (some i) e l s h =
    modified i (λ (ip : Inode). record ip { ref = ip.ref + 1 }) l l s h (h i) (λ j ne. refl)
found-locks inum none none l s h = tt
found-locks inum none (some i) l s h =
    modified i (λ (ip : Inode). record ip { inum = inum; ref = 1; valid = false }) l l s h (h i)
      (λ j ne. refl)

pub Keeps-iget : (inum : ℕ) → Keeps (iget inum)
unfolding iget
Keeps-iget inum = Keeps-same (iget inum) (λ l s h. found-locks inum _ _ l s h)

Keeps-alloc_addr : (i k : ℕ) → Keeps (alloc_addr i k)
Keeps-alloc_addr i k =
    Keeps-bind _ _ Keeps-balloc
      (λ a. Keeps-bind _ _ (Keeps-modify i _ (λ q. refl)) (λ _. Keeps-give a))

Keeps-direct_addr : (i k : ℕ) → Keeps (direct_addr i k)
unfolding direct_addr
Keeps-direct_addr i k = search (keeps, Keeps-alloc_addr) depth 12

Keeps-listed_addr : (at bn : ℕ) → Keeps (listed_addr at bn)
unfolding listed_addr
Keeps-listed_addr at bn = search (keeps, Keeps-balloc) depth 16

pub Keeps-bmap : (i bn : ℕ) → Keeps (bmap i bn)
unfolding bmap
Keeps-bmap i bn = search (keeps, Keeps-direct_addr, Keeps-listed_addr) depth 12

Keeps-read_chunks : (rounds i off n : ℕ) → Keeps (read_chunks rounds i off n)
unfolding read_chunks
Keeps-read_chunks zero i off n = search keeps
Keeps-read_chunks (suc rounds) i off n = Keeps-if _ _ _ (Keeps-give []) (
    Keeps-bind _ _ (Keeps-bmap i (off / bsize)) (λ addr.
      Keeps-bind _ _ (Keeps-read_block addr) (λ b.
        Keeps-bind _ _ (Keeps-read_chunks rounds i (off + chunk off n) (n - chunk off n))
          (λ more. Keeps-give (slice b (off % bsize) (chunk off n) ++ more)))))

pub Keeps-readi :
    (device : M (Option (List ℕ))) (i off n : ℕ) → Keeps device → Keeps (readi device i off n)
unfolding readi
Keeps-readi device i off n d = Keeps-bind _ _ (Keeps-inode_at i) (λ ip.
    let m = if ltb ip.size (off + n) then ip.size - off else n in
    Keeps-if _ _ _ d (
      Keeps-if _ _ _ (Keeps-give none)
        (Keeps-bind _ _ (Keeps-read_chunks m i off m) (λ bytes. Keeps-give (some bytes)))))

Keeps-full_entry : (o : Option (List ℕ)) → Keeps (full_entry o)
Keeps-full_entry none = search keeps
Keeps-full_entry (some bytes) = search keeps

pub Keeps-read_dirent : (dp off : ℕ) → Keeps (read_dirent dp off)
unfolding read_dirent
Keeps-read_dirent dp off =
    Keeps-bind _ _ (Keeps-readi panic dp off _ Keeps-panic) (λ r. Keeps-full_entry r)

Keeps-scan_dir : (dp : ℕ) (name : ℕ → ℕ) (off k : ℕ) → Keeps (scan_dir dp name off k)
unfolding scan_dir
Keeps-scan_dir dp name off zero = search keeps
Keeps-scan_dir dp name off (suc k) =
    let ih : Keeps (scan_dir dp name (off + dirent_size) k) =
      Keeps-scan_dir dp name (off + dirent_size) k in
    Keeps-bind _ _ (Keeps-read_dirent dp off)
      (λ de. Keeps-if _ _ _ ih (Keeps-if _ _ _ (Keeps-give _) ih))

Keeps-get_found : (o : Option (ℕ × ℕ)) → Keeps (get_found o)
Keeps-get_found none = search keeps
Keeps-get_found (some (inum, off)) = search (keeps, Keeps-iget)

pub Keeps-dirlookup : (dp : ℕ) (name : ℕ → ℕ) → Keeps (dirlookup dp name)
unfolding dirlookup
Keeps-dirlookup dp name = search (keeps, Keeps-scan_dir, Keeps-get_found) depth 16
