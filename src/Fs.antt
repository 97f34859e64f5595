-- ===== src/Fs.antt =====
-- The state of fs.c: the superblock, the inode cache, and the journal below it; and how a function of
-- fs.c ends. An inode in the cache is named by its index. The functions are those of one process:
-- a lock of an inode is held by it or by nobody, and a call that has to wait for a lock ends there.
-- There is one device. A process's current directory is an index into the cache.
pub mod Blocks
pub mod Bitmap
pub mod Locks
pub mod Inodes
pub mod Content
pub mod Dirs
pub mod Paths
mod Tests
use operating_systeams_proje.Prelude.{ℕ, ◌+◌, ◌*◌, ◌/◌, ◌≡◌, ap, Bool, if◌then◌else◌, update}
use operating_systeams_proje.Disk.{Block, bread, put_data, bwrite}
use operating_systeams_proje.Journal.{Journal, Outcome, returns, panics, bsize}
use operating_systeams_proje.Log.{log_write}

-- `struct superblock`.
pub record Superblock : Type 0 where
  pub size : ℕ
  pub nblocks : ℕ
  pub ninodes : ℕ
  pub nlog : ℕ
  pub logstart : ℕ
  pub inodestart : ℕ
  pub bmapstart : ℕ

-- `struct inode`; `locked` is that of its sleep lock.
pub record Inode : Type 0 where
  pub inum : ℕ
  pub ref : ℕ
  pub locked : Bool
  pub valid : Bool
  pub type : ℕ
  pub major : ℕ
  pub minor : ℕ
  pub nlink : ℕ
  pub size : ℕ
  pub addrs : ℕ → ℕ

pub record Fs : Type 0 where
  pub sb : Superblock
  pub icache : ℕ → Inode
  pub journal : Journal

abbrev pub t_dir : ℕ
t_dir = 1

abbrev pub t_file : ℕ
t_file = 2

abbrev pub t_dev : ℕ
t_dev = 3

abbrev pub ninode : ℕ
ninode = 50

abbrev pub rootino : ℕ
rootino = 1

abbrev pub ndirect : ℕ
ndirect = 12

abbrev pub nindirect : ℕ
nindirect = bsize / 4

abbrev pub maxfile : ℕ
maxfile = ndirect + nindirect

-- The bytes of a `struct dinode`, and the inodes of a block.
abbrev pub dinode_size : ℕ
dinode_size = 64

abbrev pub ipb : ℕ
ipb = bsize / dinode_size

abbrev pub bpb : ℕ
bpb = bsize * 8

abbrev pub iblock : ℕ → Superblock → ℕ
iblock i sb = i / ipb + sb.inodestart

abbrev pub bblock : ℕ → Superblock → ℕ
bblock b sb = b / bpb + sb.bmapstart

-- A function returns, panics, or sleeps on a lock that nobody else holds.
pub data Ran {ℓ} (A : Type ℓ) : Type ℓ where
  ran : A → Fs → Ran A
  panicked : Ran A
  blocked : Ran A

abbrev pub M {ℓ} : Type ℓ → Type ℓ
M A = Fs → Ran A

unfoldable pub give {ℓ} : {A : Type ℓ} → A → M A
give a s = ran a s

unfoldable pub panic {ℓ} : {A : Type ℓ} → M A
panic s = panicked

unfoldable pub get : M Fs
get s = ran s s

-- `bp = bread(dev, b)` and the bytes in it.
unfoldable pub read_block : ℕ → M Block
read_block b s = ran (bread s.journal.buffers b) s

-- Stores into the buffer.
unfoldable pub store_block : ℕ → Block → M (Unit {0})
store_block b block s =
    ran tt
      (record s { journal = record (s.journal) { buffers = put_data s.journal.buffers b block } })

unfoldable pub write_through : ℕ → M (Unit {0})
write_through b s =
    ran tt (record s { journal = record (s.journal) { buffers = bwrite s.journal.buffers b } })

abbrev pub log_result : Fs → Outcome → Ran (Unit {0})
log_result s (returns j) = ran tt (record s { journal = j })
log_result s (panics j) = panicked

unfoldable pub log_block : ℕ → ℕ → ℕ → M (Unit {0})
log_block b off len s = log_result s (log_write b off len s.journal)

unfoldable pub inode_at : ℕ → M Inode
inode_at i s = ran (s.icache i) s

-- Stores into the inode's fields.
unfoldable pub modify : ℕ → (Inode → Inode) → M (Unit {0})
modify i f s = ran tt (record s { icache = update s.icache i (f (s.icache i)) })

abbrev pub and_then {ℓ κ} : {A : Type ℓ} {B : Type κ} → Ran A → (A → M B) → Ran B
and_then (ran a s) f = f a s
and_then panicked f = panicked
and_then blocked f = blocked

infixl 5 ◌>>=◌ ◌>>◌
-- To open this opens the actions above, too.
unfoldable pub ◌>>=◌ {ℓ κ} : {A : Type ℓ} {B : Type κ} → M A → (A → M B) → M B
unfolding give panic get read_block store_block write_through inode_at modify
◌>>=◌ m f s = and_then (m s) f

abbrev pub ◌>>◌ {κ} : {B : Type κ} → M (Unit {0}) → M B → M B
m >> k = m >>= λ _. k

abbrev pub done : M (Unit {0})
done = give tt

-- `if(test) panic(…)`.
abbrev pub panic_if : Bool → M (Unit {0})
panic_if test = if test then panic else done

-- Where the first part's result is known, the rest goes on from it.
pub bind_ran {ℓ κ} :
    {A : Type ℓ} {B : Type κ} (m : M A) (f : A → M B) (s : Fs) (a : A) (s' : Fs)
    → m s ≡ ran a s'
    → (m >>= f) s ≡ f a s'
unfolding ◌>>=◌
bind_ran m f s a s' e = ap (λ r. and_then r f) e

pub bind_panicked {ℓ κ} :
    {A : Type ℓ} {B : Type κ} (m : M A) (f : A → M B) (s : Fs)
    → m s ≡ panicked
    → (m >>= f) s ≡ panicked
unfolding ◌>>=◌
bind_panicked m f s e = ap (λ r. and_then r f) e
