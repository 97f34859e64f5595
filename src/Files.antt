-- ===== src/Files.antt =====
-- The file table of file.c: `filealloc`, `filedup` and `fileclose`, as they run under `ftable.lock`. A
-- `struct file *` is an index into the table. A reference count does not overflow.
pub mod Refs
pub mod Content
mod Tests
use operating_systeams_proje.Prelude.{
  ℕ, ◌+◌, ◌-◌, Bool, true, false, Option, none, some, ◌==◌, ltb, if◌then◌else◌, update,
}
use operating_systeams_proje.Prelude.Search.{find_index}

abbrev pub nfile : ℕ
nfile = 100

pub data FileType : Type 0 where
  fd_none fd_pipe fd_inode : FileType

-- The part of `struct file` that the table's functions use.
pub record File : Type 0 where
  pub type : FileType
  pub ref : ℕ
  pub writable : Bool

abbrev pub alloc_file : (ℕ → File) → Option ℕ → (ℕ → File) × Option ℕ
alloc_file f none = (f, none)
alloc_file f (some i) = (update f i (record (f i) { ref = 1 }), some i)

unfoldable pub filealloc : (ℕ → File) → (ℕ → File) × Option ℕ
filealloc f = alloc_file f (find_index (λ i. (f i).ref == 0) 0 nfile)

-- `none` is the panic.
unfoldable pub filedup : ℕ → (ℕ → File) → Option (ℕ → File)
filedup i f =
    if ltb (f i).ref 1 then none else some (update f i (record (f i) { ref = (f i).ref + 1 }))

-- How `fileclose` leaves the lock: by the panic, with references left, or with the file that is now
-- to be closed for good.
pub data Closed : Type 0 where
  panics : Closed
  kept : (ℕ → File) → Closed
  last : (ℕ → File) → File → Closed

unfoldable pub fileclose : ℕ → (ℕ → File) → Closed
fileclose i f =
    if ltb (f i).ref 1
    then panics
    else if ltb 0 ((f i).ref - 1)
    then kept (update f i (record (f i) { ref = (f i).ref - 1 }))
    else last (update f i (record (f i) { ref = 0; type = fd_none })) (f i)
