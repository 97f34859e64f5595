-- ===== src/Bcache.antt =====
-- The buffer cache of bio.c. A `struct buf *` is an index, and the list through `prev` and `next` is the
-- list of the indices, the most recently used first. `iderw` of ide.c panics as its guards and that of
-- `idestart` say, else waits for the drive: the block is read, or written if the buffer is dirty.
pub mod View
pub mod Steps
pub mod Taking
pub mod Reads
mod Tests
use operating_systeams_proje.Prelude.{
  ℕ, ◌+◌, ◌-◌, Bool, true, false, not, ◌&&◌, leb, Option, none, some, List, [], ◌∷◌, ◌==◌,
  if◌then◌else◌, update,
}
use operating_systeams_proje.Disk.{Block}

-- `FSSIZE` of param.h.
abbrev pub fssize : ℕ
fssize = 1000

-- `struct buf`; `valid` and `dirty` are its flags, `locked` is that of its sleep
-- lock, and `bytes` is its `data`.
pub record Buf : Type 0 where
  pub dev : ℕ
  pub blockno : ℕ
  pub refcnt : ℕ
  pub valid : Bool
  pub dirty : Bool
  pub locked : Bool
  pub bytes : Block

-- `bcache`, with what stands on the drives and the `havedisk1` of ide.c.
pub record Bcache : Type 0 where
  pub buf : ℕ → Buf
  pub order : List ℕ
  pub disk : ℕ → ℕ → Block
  pub havedisk1 : Bool

-- A call returns a buffer, panics in `bget` or in the driver, or waits for a buffer's lock.
pub data Bget : Type 0 where
  got : ℕ → Bcache → Bget
  no_buffers : Bget
  ide_panics : Bget
  waits : ℕ → Bcache → Bget

-- The scan of the list from its head.
unfoldable pub scan : (ℕ → Bool) → List ℕ → Option ℕ
scan test [] = none
scan test (i ∷ is) = let rest = scan test is in if test i then some i else rest

-- The scan from its end.
unfoldable pub scan_back : (ℕ → Bool) → List ℕ → Option ℕ
scan_back test [] = none
scan_back test (i ∷ is) = elim (scan_back test is) [
  | some j ↦ some j
  | none ↦ if test i then some i else none
]

abbrev pub is_block : Bcache → ℕ → ℕ → ℕ → Bool
is_block s dev b i = (s.buf i).dev == dev && (s.buf i).blockno == b

abbrev pub is_recyclable : Bcache → ℕ → Bool
is_recyclable s i = (s.buf i).refcnt == 0 && not (s.buf i).dirty

-- `acquiresleep`.
abbrev pub lock_buf : ℕ → Bcache → Bget
lock_buf i s =
    if (s.buf i).locked
    then waits i s
    else got i (record s { buf = update s.buf i (record (s.buf i) { locked = true }) })

abbrev pub bget_found : ℕ → ℕ → Option ℕ → Option ℕ → Bcache → Bget
bget_found dev b (some i) o s =
    lock_buf i
      (record s { buf = update s.buf i (record (s.buf i) { refcnt = (s.buf i).refcnt + 1 }) })
bget_found dev b none none s = no_buffers
bget_found dev b none (some i) s = lock_buf i (record s {
  buf =
      update s.buf i
        (record (s.buf i) { dev = dev; blockno = b; valid = false; dirty = false; refcnt = 1 });
})

unfoldable pub bget : ℕ → ℕ → Bcache → Bget
unfolding scan scan_back
bget dev b s =
    bget_found dev b (scan (is_block s dev b) s.order) (scan_back (is_recyclable s) s.order) s

-- What a drive that reports no error has done with a buffer when `iderw` wakes up.
abbrev pub served : ℕ → Bcache → Bcache
served i s =
    let b = s.buf i in
    if b.dirty
    then record s {
      buf = update s.buf i (record b { valid = true; dirty = false });
      disk = λ d n. if d == b.dev && n == b.blockno then b.bytes else s.disk d n;
    }
    else record s {
      buf = update s.buf i (record b { valid = true; bytes = s.disk b.dev b.blockno });
    }

-- `none` is a panic: the buffer is not locked, there is nothing to do, disk 1 is not present, or, in
-- `idestart`, the block is not on the drive.
abbrev pub iderw : ℕ → Bcache → Option Bcache
iderw i s =
    let b = s.buf i in
    if not b.locked
    then none
    else if b.valid && not b.dirty
    then none
    else if not (b.dev == 0) && not s.havedisk1
    then none
    else if leb fssize b.blockno
    then none
    else some (served i s)

abbrev pub after_iderw : ℕ → Option Bcache → Bget
after_iderw i none = ide_panics
after_iderw i (some s) = got i s

abbrev pub read_in : Bget → Bget
read_in (got i s) = if (s.buf i).valid then got i s else after_iderw i (iderw i s)
read_in no_buffers = no_buffers
read_in ide_panics = ide_panics
read_in (waits i s) = waits i s

unfoldable pub bread : ℕ → ℕ → Bcache → Bget
unfolding bget
bread dev b s = read_in (bget dev b s)

-- `none` is the panic.
unfoldable pub bwrite : ℕ → Bcache → Option Bcache
bwrite i s =
    if (s.buf i).locked
    then iderw i (record s { buf = update s.buf i (record (s.buf i) { dirty = true }) })
    else none

abbrev pub remove : ℕ → List ℕ → List ℕ
remove i [] = []
remove i (j ∷ is) = if j == i then is else j ∷ remove i is

unfoldable pub brelse : ℕ → Bcache → Option Bcache
brelse i s =
    if (s.buf i).locked
    then some (record s {
      buf = update s.buf i (record (s.buf i) { locked = false; refcnt = (s.buf i).refcnt - 1 });
      order = if (s.buf i).refcnt - 1 == 0 then i ∷ remove i s.order else s.order;
    })
    else none
