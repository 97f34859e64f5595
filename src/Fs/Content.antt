-- ===== src/Fs/Content.antt =====
-- The content of an inode: `bmap`, `readi` and `writei` of fs.c. What the device switch does for an
-- inode of type `T_DEV` is an argument, -1 where it has no function. A length that `readi` or
-- `writei` returns is `some`, -1 is `none`; the bytes that are read are the result.
pub mod Read
use operating_systeams_proje.Prelude.{
  ℕ, zero, suc, ◌+◌, ◌-◌, ◌*◌, ◌/◌, ◌%◌, Bool, true, false, ◌&&◌, ◌||◌, Option, none, some, List,
  [], ◌++◌, ◌==◌, ltb, if◌then◌else◌, update, min, slice, take, drop, get_elem?, length,
}
use operating_systeams_proje.Prelude.Words.{word, get32, put32}
use operating_systeams_proje.Disk.{Block}
use operating_systeams_proje.Journal.{bsize}
use operating_systeams_proje.Fs.{
  ◌>>=◌, t_dir, t_dev, ndirect, nindirect, maxfile, M, ◌>>◌, give, panic, done, read_block,
  store_block, write_through, log_block, inode_at, modify,
}
use operating_systeams_proje.Fs.Blocks.{balloc}
use operating_systeams_proje.Fs.Inodes.{iupdate}

-- `ip->addrs[k]`, allocated if it is 0.
abbrev pub alloc_addr : ℕ → ℕ → M ℕ
alloc_addr i k = do
  addr ← balloc
  modify i (λ ip. record ip { addrs = update ip.addrs k addr })
  give addr

unfoldable pub direct_addr : ℕ → ℕ → M ℕ
unfolding balloc
direct_addr i k = do ip ← inode_at i; if ip.addrs k == 0 then alloc_addr i k else give (ip.addrs k)

-- `a[bn]` in the indirect block, allocated if it is 0.
abbrev pub alloc_listed : ℕ → ℕ → M ℕ
alloc_listed at bn = do
  addr ← balloc
  a ← read_block at
  store_block at (put32 a (4 * bn) addr)
  log_block at (bn * 4) 4
  give addr

unfoldable pub listed_addr : ℕ → ℕ → M ℕ
unfolding balloc
listed_addr at bn = do
  a ← read_block at
  if get32 a (4 * bn) == 0 then alloc_listed at bn else give (get32 a (4 * bn))

abbrev pub indirect_addr : ℕ → ℕ → M ℕ
indirect_addr i bn = do at ← direct_addr i ndirect; listed_addr at bn

unfoldable pub bmap : ℕ → ℕ → M ℕ
unfolding direct_addr listed_addr
bmap i bn =
    if ltb bn ndirect
    then direct_addr i bn
    else if ltb (bn - ndirect) nindirect
    then indirect_addr i (bn - ndirect)
    else panic

-- `min(n - tot, BSIZE - off % BSIZE)`, with `n` what is left.
abbrev pub chunk : ℕ → ℕ → ℕ
chunk off n = min n (bsize - off % bsize)

-- The loop of `readi` with `n` bytes left. Each round takes a byte at least, so that `n` rounds are
-- enough.
unfoldable pub read_chunks : ℕ → ℕ → ℕ → ℕ → M (List ℕ)
unfolding bmap
read_chunks zero i off n = give []
read_chunks (suc rounds) i off n =
    let rest = read_chunks rounds i (off + chunk off n) (n - chunk off n) in
    if n == 0 then give [] else (do
      addr ← bmap i (off / bsize)
      b ← read_block addr
      more ← rest
      give (slice b (off % bsize) (chunk off n) ++ more))

unfoldable pub readi : M (Option (List ℕ)) → ℕ → ℕ → ℕ → M (Option (List ℕ))
unfolding read_chunks
readi device i off n = do
  ip ← inode_at i
  if ip.type == t_dev
      then device
      else if ltb ip.size off || ltb (word (off + n)) off
      then give none
      else (do
        let m = if ltb ip.size (off + n) then ip.size - off else n
        bytes ← read_chunks m i off m
        give (some bytes))

-- `memmove(bp->data + at, src, m)`.
abbrev pub paste : Block → ℕ → List ℕ → Block
paste b at src x =
    if ltb x at then b x else elim (get_elem? src (x - at)) [ none ↦ b x | some v ↦ v ]

-- A directory's block is logged, a file's written to the disk at once.
abbrev pub send_block : Bool → ℕ → ℕ → ℕ → M (Unit {0})
send_block true addr at m = log_block addr at m
send_block false addr at m = write_through addr

-- The loop of `writei`; the source is what is left to write.
unfoldable pub write_chunks : ℕ → ℕ → ℕ → List ℕ → M (Unit {0})
unfolding bmap
write_chunks zero i off src = done
write_chunks (suc rounds) i off src =
    let m = chunk off (length src) in
    let rest = write_chunks rounds i (off + m) (drop m src) in
    if length src == 0 then done else (do
      addr ← bmap i (off / bsize)
      b ← read_block addr
      store_block addr (paste b (off % bsize) (take m src))
      ip ← inode_at i
      send_block (ip.type == t_dir) addr (off % bsize) m
      rest)

-- The file is grown if the writing ended behind its end.
unfoldable pub grow : ℕ → ℕ → ℕ → M (Unit {0})
unfolding iupdate
grow i n off = do
  ip ← inode_at i
  if ltb 0 n && ltb ip.size off
      then modify i (λ ip'. record ip' { size = off }) >> iupdate i
      else done

unfoldable pub writei : M (Option ℕ) → ℕ → ℕ → List ℕ → M (Option ℕ)
unfolding write_chunks grow
writei device i off src = do
  ip ← inode_at i
  if ip.type == t_dev
      then device
      else if ltb ip.size off
          || ltb (word (off + length src)) off
          || ltb (maxfile * bsize) (off + length src)
      then give none
      else (do
        write_chunks (length src) i off src
        grow i (length src) (off + length src)
        give (some (length src)))
