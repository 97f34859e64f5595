-- ===== src/Lib.antt =====
-- xv6 with an enhanced journal: the parts of the kernel whose behaviour does not depend on devices,
-- modelled as functions on states.
--
-- log.c is the journal: system calls of the file system run between `begin_op` and `end_op`, note
-- the blocks that they change with `log_write`, and the last one commits all of them together. A
-- block is logged by the byte range that has changed, under a CRC32, and `initlog` replays a committed
-- log at boot. The journal stands on the buffers of bio.c and the drive of ide.c. pipe.c, string.c,
-- proc.c, file.c and kalloc.c are separate parts; vm.c takes its pages from kalloc.c. fs.c stands on the
-- journal: it reads and stores through the same buffers and notes its changes with `log_write`.
--
-- Prelude: numbers, tests, arrays, bits, words, counted loops and table scans; it models no code.
-- Crc: `crc32_init` and `crc32` of log.c. Crc/Table compares them with the bit-serial definition,
-- Crc/Detect and Crc/Checksum say what the checksum sees.
-- Disk: `bread`, `bwrite` and `ideflush` as log.c uses them. A buffer is the block's bytes and its
-- dirty flag; the commands to the drive are kept newest first, so that a power failure cuts the
-- list anywhere. `bread` always finds a buffer here, and nobody else holds it; what bio.c does when
-- there is none is in Bcache. The interrupt handler is not modelled.
-- Bcache: the buffers of bio.c themselves, with their list and reference counts, and `iderw` of ide.c
-- with its panics and that of `idestart` on the block number, over drives that report no error.
-- Bcache/View is what log.c sees of the buffers, Bcache/Steps, Taking and Reads hold the proofs.
-- Journal, Log: the state of log.c, and each of its functions under its own name. A loop's body is
-- a function of its own (`read_entry`, `write_entry`, `install_entry`, `log_entry`), and `commit` is
-- cut where it tests `crash_at_phase`. The log is the `nlog` = `LOGSIZE` blocks that mkfs.c gives it,
-- its header's included: a home block is any other. Log/Header, Absorb, Space, Images, Install, Recover and
-- Commit hold the proofs.
-- Pipe: `pipewrite`, `piperead`, `pipeclose` and the fields that `pipealloc` sets; Pipe/Fifo holds
-- the proofs.
-- Strings: string.c; `memset`, two assembly loops, is in Vm. Memory is a function from the
-- address to the byte.
-- Proc: the process table of proc.c, each function as it runs under `ptable.lock`, cut at the
-- context switch; `fork` stores the parent before it takes the lock and the state under it, here in
-- one step. Proc/Steps makes the calls steps of the table; Proc/Wakeup, Family, Calls, Exits,
-- Reachable, Numbered, Awaited, Heard and Waits hold the proofs.
-- Files: the reference counts of file.c; Files/Refs compares them with the open descriptors.
-- Files/Content is the rest of file.c, on the state of Fs.
-- Kalloc: `kalloc` and `kfree`; Kalloc/Pages follows the pages that are free and held.
-- Fs: fs.c, in Fs/Blocks (the free map), Inodes, Content (`bmap`, `readi`, `writei`), Dirs and
-- Paths; Fs itself has the state and the actions that the functions are made of. Fs/Bitmap,
-- Inodes/Cache, Content/Read, Locks, Dirs/Locks, Paths/Elements and Paths/Locks hold the proofs.
-- There is one device; the sleep lock of an inode is a flag, and a call that would wait for it ends
-- as `blocked`; the functions of the device switch are an argument of `readi` and `writei`.
-- Sysfile: the calls of sysfile.c on inodes, from their arguments to `end_op`, in Sysfile/Link, Unlink,
-- Create and Open; Sysfile/Descriptors is `argfd`, `fdalloc`, `sys_dup` and `sys_close`.
-- Sysfile/Locks holds the proofs.
-- Syscall: the argument checks of syscall.c; Syscall/Arguments holds the proofs.
-- Grep: the matcher of grep.c; Grep/Language is the language of an expression, Grep/Proof the proofs.
-- Locks: the spin lock of spinlock.c, with a step for each part of `acquire` and `release` between which
-- another CPU can come; Locks/Exclusion holds the proofs, Locks/Nesting those on `pushcli`.
-- Console: the ring of console.c; Console/Ring and Erase are about
-- `consoleintr`, Console/Reads about `consoleread`.
-- Ulib: `atoi` of ulib.c and `printint` of printf.c; Ulib/Decimal holds the proofs.
-- Vm: the page tables of vm.c, in memory as words, and the growth and the shrinking of a process;
-- Vm/Users has the operations on whole address spaces and on user memory. Vm/Tables is what the
-- processor sees; Vm/Walk, Room, Taken and Grow are about `walkpgdir`, Mapping and Ranges about
-- `mappages`, Growth and Allocuvm about `allocuvm`.
-- Sh: the parser of sh.c on a line in memory; Sh/Tokens, Safe, Returns and Parse are about what it
-- returns, Sh/Ends about `nulterminate`.
--
-- A `uint` or `int` field is a number, with its wrap-around written as a remainder; the counters
-- of the statistics, `batch_size` and `nextpid` do not overflow. Loops over an index run as often
-- as the C loop does, so no fuel is needed, but for `strlen`, whose argument bounds the string,
-- and the loops over a path and over the parts of a range, which are given its length. The parser
-- of sh.c is given four calls for a character and four more, and the
-- loops over pages as many rounds as there are pages up to the end. A `panic` is a result. But for
-- Locks, spin locks are left out; the messages on the console and the wakeups of log.c and pipe.c
-- are not modelled: a call that has to sleep returns what is left to do, or ends as `blocked`. The
-- rest of the kernel (the rest of sysfile.c and of vm.c, exec.c, trap.c, the drivers) and the
-- other user programs are not modelled.
pub mod Prelude
pub mod Crc
pub mod Disk
pub mod Journal
pub mod Log
pub mod Pipe
pub mod Strings
pub mod Proc
pub mod Files
pub mod Kalloc
pub mod Locks
pub mod Console
pub mod Ulib
pub mod Fs
pub mod Grep
pub mod Syscall
pub mod Vm
pub mod Sh
pub mod Sysfile
pub mod Bcache
