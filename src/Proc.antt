-- ===== src/Proc.antt =====
-- The process table of proc.c. A process is named by its index in the table. Each function is what
-- runs with `ptable.lock` held; `allocproc` and `fork` also run without it, and then touch only the
-- slot that they have made an embryo. The context switch, the page tables and the trap frame are
-- left out, `kalloc`'s answer is an argument, and `nextpid` does not run out of the `int`s.
pub mod Steps
pub mod Wakeup
pub mod Family
pub mod Calls
pub mod Exits
pub mod Reachable
pub mod Awaited
pub mod Heard
pub mod Waits
pub mod Numbered
mod Tests
use operating_systeams_proje.Prelude.{
  ℕ, zero, suc, ◌+◌, Bool, true, false, not, ◌&&◌, ◌||◌, Option, none, some, ◌==◌, if◌then◌else◌,
  update,
}
use operating_systeams_proje.Prelude.Loops.{for_range}
use operating_systeams_proje.Prelude.Search.{find_index}

abbrev pub nproc : ℕ
nproc = 64

-- `enum procstate`.
pub data ProcState : Type 0 where
  unused embryo sleeping runnable running zombie : ProcState

abbrev pub is_unused : ProcState → Bool
is_unused unused = true
is_unused _ = false

abbrev pub is_sleeping : ProcState → Bool
is_sleeping sleeping = true
is_sleeping _ = false

abbrev pub is_runnable : ProcState → Bool
is_runnable runnable = true
is_runnable _ = false

abbrev pub is_zombie : ProcState → Bool
is_zombie zombie = true
is_zombie _ = false

-- The part of `struct proc` that the table's functions use. The parent is an index, `none` for a null
-- pointer; channel 0 and stack 0 are null pointers.
pub record Proc : Type 0 where
  pub sz : ℕ
  pub kstack : ℕ
  pub state : ProcState
  pub pid : ℕ
  pub parent : Option ℕ
  pub chan : ℕ
  pub killed : Bool

pub record Ptable : Type 0 where
  pub proc : ℕ → Proc
  pub nextpid : ℕ

abbrev pub set_proc : Ptable → ℕ → Proc → Ptable
set_proc t i p = record t { proc = update t.proc i p }

abbrev pub is_child : ℕ → Option ℕ → Bool
is_child i none = false
is_child i (some j) = i == j

-- `allocproc` once the scan is over: the table, and the process if there is one. The stack is what
-- `kalloc` returns, 0 if it has no page; then the slot is given back, with its new `pid`.
abbrev pub alloc_slot : ℕ → Ptable → Option ℕ → Ptable × Option ℕ
alloc_slot stack t none = (t, none)
alloc_slot stack t (some i) =
    let p = record (t.proc i) { state = embryo; pid = t.nextpid } in
    let t' = record t { nextpid = t.nextpid + 1 } in
    if stack == 0
    then (set_proc t' i (record p { kstack = 0; state = unused }), none)
    else (set_proc t' i (record p { kstack = stack }), some i)

unfoldable pub allocproc : ℕ → Ptable → Ptable × Option ℕ
allocproc stack t = alloc_slot stack t (find_index (λ i. is_unused (t.proc i).state) 0 nproc)

-- The table's part of `fork` after `allocproc`: `copied` tells whether `copyuvm` found memory. The
-- result is the child's pid, or -1. `fork` stores the parent before it takes the table's lock and the
-- state under it; here they are one step. Only `wait` and `exit` look at parents, each for the children
-- of the process that calls it, and a process that is in `fork` calls neither.
unfoldable pub fork_child : Bool → ℕ → ℕ → Ptable → Ptable × Option ℕ
fork_child copied cur np t =
    let p = t.proc np in
    if not copied then (set_proc t np (record p { kstack = 0; state = unused }), none) else (
      set_proc t np (record p { sz = (t.proc cur).sz; parent = some cur; state = runnable }),
      some p.pid,
    )

-- One round of `wakeup1`.
unfoldable pub wakeup_entry : ℕ → ℕ → (ℕ → Proc) → ℕ → Proc
wakeup_entry chan i proc =
    if is_sleeping (proc i).state && (proc i).chan == chan
    then update proc i (record (proc i) { state = runnable })
    else proc

unfoldable pub wakeup1 : ℕ → Ptable → Ptable
unfolding wakeup_entry for_range
wakeup1 chan t = record t { proc = for_range (wakeup_entry chan) 0 nproc t.proc }

-- `kill`: the table, and whether the call returns 0.
abbrev pub kill_slot : Ptable → Option ℕ → Ptable × Bool
kill_slot t none = (t, false)
kill_slot t (some i) =
    let p = t.proc i in
    let state = if is_sleeping p.state then runnable else p.state in
    (set_proc t i (record p { killed = true; state = state }), true)

unfoldable pub kill : ℕ → Ptable → Ptable × Bool
kill pid t = kill_slot t (find_index (λ i. (t.proc i).pid == pid) 0 nproc)

-- One round of the loop in `exit` that passes the children on to `initproc`; `chan_of` gives the
-- channel that a process's address is.
unfoldable pub reparent_entry : (ℕ → ℕ) → ℕ → ℕ → ℕ → Ptable → Ptable
unfolding wakeup1
reparent_entry chan_of initproc cur i t =
    if is_child cur (t.proc i).parent
    then (let t' = set_proc t i (record (t.proc i) { parent = some initproc }) in
        if is_zombie (t.proc i).state then wakeup1 (chan_of initproc) t' else t')
    else t

-- `wakeup1(curproc->parent)`.
unfoldable pub wake_parent : (ℕ → ℕ) → Option ℕ → Ptable → Ptable
wake_parent chan_of none t = wakeup1 0 t
wake_parent chan_of (some p) t = wakeup1 (chan_of p) t

-- The part of `exit` under the lock, up to `sched`.
unfoldable pub exit_locked : (ℕ → ℕ) → ℕ → ℕ → Ptable → Ptable
unfolding wakeup1 wake_parent reparent_entry for_range
exit_locked chan_of initproc cur t =
    let woken = wake_parent chan_of (t.proc cur).parent t in
    let passed = for_range (reparent_entry chan_of initproc cur) 0 nproc woken in
    set_proc passed cur (record (passed.proc cur) { state = zombie })

-- How one scan of `wait` ends: with the pid of a child that is now gone, with -1, or asleep.
pub data Waited : Type 0 where
  reaped : Ptable → ℕ → Waited
  childless : Waited
  sleeps : Waited

-- What is left of a child that has been waited for.
abbrev pub freed : Proc → Proc
freed p = record p { kstack = 0; pid = 0; parent = none; killed = false; state = unused }

-- `wait` once the scan is over: the first zombie child, and the first child.
abbrev pub wait_found : ℕ → Ptable → Option ℕ → Option ℕ → Waited
wait_found cur t (some i) o = reaped (set_proc t i (freed (t.proc i))) (t.proc i).pid
wait_found cur t none none = childless
wait_found cur t none (some i) = if (t.proc cur).killed then childless else sleeps

abbrev pub is_child_of : Ptable → ℕ → ℕ → Bool
is_child_of t cur i = is_child cur (t.proc i).parent

abbrev pub is_zombie_child_of : Ptable → ℕ → ℕ → Bool
is_zombie_child_of t cur i = is_child_of t cur i && is_zombie (t.proc i).state

unfoldable pub wait : ℕ → Ptable → Waited
wait cur t =
    wait_found cur t (find_index (is_zombie_child_of t cur) 0 nproc)
      (find_index (is_child_of t cur) 0 nproc)

-- `yield` and `sleep` up to `sched`, and `sleep` after it.
unfoldable pub yield_locked : ℕ → Ptable → Ptable
yield_locked cur t = set_proc t cur (record (t.proc cur) { state = runnable })

unfoldable pub sleep_locked : ℕ → ℕ → Ptable → Ptable
sleep_locked chan cur t = set_proc t cur (record (t.proc cur) { chan = chan; state = sleeping })

unfoldable pub awake : ℕ → Ptable → Ptable
awake cur t = set_proc t cur (record (t.proc cur) { chan = 0 })

-- The scheduler's choice from index `i` on, of `k`, and the state that it runs in.
abbrev pub run_found : Ptable → Option ℕ → Option (ℕ × Ptable)
run_found t none = none
run_found t (some j) = some (j, set_proc t j (record (t.proc j) { state = running }))

unfoldable pub schedule_from : ℕ → ℕ → Ptable → Option (ℕ × Ptable)
schedule_from i k t = run_found t (find_index (λ j. is_runnable (t.proc j).state) i k)
