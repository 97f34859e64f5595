-- ===== src/Fs/Inodes.antt =====
-- The inodes of fs.c: on the disk, and in the cache.
pub mod Cache
use operating_systeams_proje.Prelude.{
  ℕ, zero, suc, ◌+◌, ◌-◌, ◌*◌, ◌%◌, Bool, true, false, not, ◌&&◌, ◌||◌, Option, none, some, ◌==◌,
  ltb, if◌then◌else◌, update,
}
use operating_systeams_proje.Prelude.Words.{get16, get32, put16, put32}
use operating_systeams_proje.Prelude.Loops.{for_range}
use operating_systeams_proje.Prelude.Search.{find_index}
use operating_systeams_proje.Disk.{Block, bread}
use operating_systeams_proje.Fs.{
  ◌>>=◌, Inode, Fs, ninode, ndirect, nindirect, dinode_size, ipb, iblock, M, ran, panicked, blocked,
  ◌>>◌, give, panic, panic_if, done, get, read_block, store_block, log_block, inode_at, modify,
}
use operating_systeams_proje.Fs.Blocks.{bfree}

-- Where the on-disk inode stands in its block, and its fields.
abbrev pub dinode_at : ℕ → ℕ
dinode_at inum = inum % ipb * dinode_size

unfoldable pub put_addr : (ℕ → ℕ) → ℕ → ℕ → Block → Block
put_addr addrs at i b = put32 b (at + 12 + 4 * i) (addrs i)

-- The fields of the inode, stored into its place `at` of the block.
unfoldable pub put_inode : Inode → ℕ → Block → Block
unfolding put_addr for_range
put_inode ip at b = for_range (put_addr ip.addrs at) 0 (ndirect + 1) (
    put32
      (put16 (put16 (put16 (put16 b at ip.type) (at + 2) ip.major) (at + 4) ip.minor) (at + 6)
        ip.nlink)
      (at + 8) ip.size)

unfoldable pub get_inode : Inode → Block → ℕ → Inode
get_inode ip b at = record ip {
  type = get16 b at;
  major = get16 b (at + 2);
  minor = get16 b (at + 4);
  nlink = get16 b (at + 6);
  size = get32 b (at + 8);
  addrs = λ i. get32 b (at + 12 + 4 * i);
}

-- `memset(dip, 0, sizeof(*dip)); dip->type = type;`.
unfoldable pub new_dinode : ℕ → ℕ → Block → Block
new_dinode type at b =
    put16 (λ x. if not (ltb x at) && ltb x (at + dinode_size) then 0 else b x) at type

unfoldable pub iupdate : ℕ → M (Unit {0})
unfolding put_inode
iupdate i = do
  s ← get
  ip ← inode_at i
  b ← read_block (iblock ip.inum s.sb)
  store_block (iblock ip.inum s.sb) (put_inode ip (dinode_at ip.inum) b)
  log_block (iblock ip.inum s.sb) (dinode_at ip.inum) dinode_size

-- The scan of `iget`: the entry that holds the inode, else the first that is free.
abbrev pub holds : (ℕ → Inode) → ℕ → ℕ → Bool
holds c inum i = ltb 0 (c i).ref && (c i).inum == inum

abbrev pub is_unreferenced : (ℕ → Inode) → ℕ → Bool
is_unreferenced c i = (c i).ref == 0

abbrev pub iget_found : ℕ → Option ℕ → Option ℕ → M ℕ
iget_found inum (some i) o s =
    ran i
      (record s { icache = update s.icache i (record (s.icache i) { ref = (s.icache i).ref + 1 }) })
iget_found inum none none s = panicked
iget_found inum none (some i) s = ran i (record s {
  icache = update s.icache i (record (s.icache i) { inum = inum; ref = 1; valid = false });
})

unfoldable pub iget : ℕ → M ℕ
iget inum s =
    iget_found inum (find_index (holds s.icache inum) 0 ninode)
      (find_index (is_unreferenced s.icache) 0 ninode) s

unfoldable pub idup : ℕ → M ℕ
idup i = do modify i (λ ip. record ip { ref = ip.ref + 1 }); give i

-- The scan of `ialloc`: the first inode that is free on the disk.
unfoldable pub is_free_dinode : Fs → ℕ → Bool
is_free_dinode s inum = get16 (bread s.journal.buffers (iblock inum s.sb)) (dinode_at inum) == 0

unfoldable pub claim_dinode : ℕ → ℕ → M ℕ
unfolding new_dinode iget
claim_dinode type inum = do
  s ← get
  b ← read_block (iblock inum s.sb)
  store_block (iblock inum s.sb) (new_dinode type (dinode_at inum) b)
  log_block (iblock inum s.sb) (dinode_at inum) dinode_size
  iget inum

abbrev pub claim_found : ℕ → Option ℕ → M ℕ
claim_found type none = panic
claim_found type (some inum) = claim_dinode type inum

unfoldable pub ialloc : ℕ → M ℕ
unfolding is_free_dinode claim_dinode
ialloc type = do s ← get; claim_found type (find_index (is_free_dinode s) 1 (s.sb.ninodes - 1))

-- `acquiresleep` and `releasesleep` of the inode's lock.
unfoldable pub lock : ℕ → M (Unit {0})
unfolding modify
lock i s = if (s.icache i).locked then blocked else modify i (λ ip. record ip { locked = true }) s

unfoldable pub unlock : ℕ → M (Unit {0})
unlock i = modify i (λ ip. record ip { locked = false })

-- The part of `ilock` that reads the inode from the disk.
unfoldable pub load_inode : ℕ → M (Unit {0})
unfolding get_inode
load_inode i = do
  s ← get
  ip ← inode_at i
  b ← read_block (iblock ip.inum s.sb)
  modify i (λ ip'. record (get_inode ip' b (dinode_at ip.inum)) { valid = true })
  read ← inode_at i
  panic_if (read.type == 0)

unfoldable pub ilock : ℕ → M (Unit {0})
unfolding lock load_inode
ilock i = do
  ip ← inode_at i
  panic_if (ltb ip.ref 1)
  lock i
  if ip.valid then done else load_inode i

unfoldable pub iunlock : ℕ → M (Unit {0})
unfolding unlock
iunlock i = do ip ← inode_at i; panic_if (not ip.locked || ltb ip.ref 1); unlock i

-- `bfree(ip->addrs[k]); ip->addrs[k] = 0;`.
unfoldable pub free_addr : ℕ → ℕ → M (Unit {0})
free_addr i k = do
  ip ← inode_at i
  bfree (ip.addrs k)
  modify i (λ ip'. record ip' { addrs = update ip'.addrs k 0 })

-- One round of the first loop of `itrunc`.
unfoldable pub free_direct : ℕ → ℕ → M (Unit {0}) → M (Unit {0})
unfolding free_addr
free_direct i k rest = do ip ← inode_at i; if ip.addrs k == 0 then done else free_addr i k; rest

-- The rounds from `k` on, of `n`.
unfoldable pub free_directs : ℕ → ℕ → ℕ → M (Unit {0})
unfolding free_direct
free_directs i k zero = done
free_directs i k (suc n) = free_direct i k (free_directs i (suc k) n)

-- One round of the loop over the indirect block at `at`.
unfoldable pub free_indirect : ℕ → ℕ → M (Unit {0})
free_indirect at j = do
  a ← read_block at
  if get32 a (4 * j) == 0 then done else bfree (get32 a (4 * j))

unfoldable pub free_indirects : ℕ → ℕ → ℕ → M (Unit {0})
unfolding free_indirect
free_indirects at j zero = done
free_indirects at j (suc n) = free_indirect at j >> free_indirects at (suc j) n

unfoldable pub free_listed : ℕ → M (Unit {0})
unfolding free_indirects free_addr
free_listed i = do
  ip ← inode_at i
  free_indirects (ip.addrs ndirect) 0 nindirect
  free_addr i ndirect

unfoldable pub free_indirect_block : ℕ → M (Unit {0})
unfolding free_listed
free_indirect_block i = do ip ← inode_at i; if ip.addrs ndirect == 0 then done else free_listed i

unfoldable pub itrunc : ℕ → M (Unit {0})
unfolding free_directs free_indirect_block iupdate
itrunc i = do
  free_directs i 0 ndirect
  free_indirect_block i
  modify i (λ ip. record ip { size = 0 })
  iupdate i

-- The part of `iput` that frees an inode with no link and no other reference.
unfoldable pub free_inode : ℕ → M (Unit {0})
unfolding itrunc iupdate
free_inode i = do
  itrunc i
  modify i (λ ip. record ip { type = 0 })
  iupdate i
  modify i (λ ip. record ip { valid = false })

unfoldable pub iput : ℕ → M (Unit {0})
unfolding lock unlock free_inode
iput i = do
  lock i
  ip ← inode_at i
  if ip.valid && ip.nlink == 0 && ip.ref == 1 then free_inode i else done
  unlock i
  modify i (λ ip'. record ip' { ref = ip'.ref - 1 })

unfoldable pub iunlockput : ℕ → M (Unit {0})
unfolding iunlock iput
iunlockput i = do iunlock i; iput i

-- `stati`, into `struct stat`.
pub record Stat : Type 0 where
  pub type : ℕ
  pub ino : ℕ
  pub nlink : ℕ
  pub size : ℕ

abbrev pub stati : Inode → Stat
stati ip = record { type = ip.type; ino = ip.inum; nlink = ip.nlink; size = ip.size }
