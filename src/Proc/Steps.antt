-- ===== src/Proc/Steps.antt =====
-- The calls of proc.c as steps of the process table, each with what its caller sees to. `chan_of` is
-- the channel that a process's address is, on which it sleeps in `wait`.
use operating_systeams_proje.Prelude.{
  ℕ, ◌+◌, ◌≤◌, ◌<◌, ◌≡◌, ◌≢◌, refl, sym, ap, subst, Bool, true, false, Option, none, some, arith,
}
use operating_systeams_proje.Proc.{
  ProcState, unused, embryo, sleeping, runnable, running, zombie, Ptable, nproc, is_unused,
  is_sleeping, is_runnable, is_zombie, is_child, allocproc, fork_child, wakeup1, kill, exit_locked,
  reaped, sleeps, wait, yield_locked, sleep_locked, awake, schedule_from,
}

-- The process has not exited, and is not being made.
abbrev pub is_alive : ProcState → Bool
is_alive sleeping = true
is_alive runnable = true
is_alive running = true
is_alive _ = false

abbrev pub is_started : ProcState → Bool
is_started unused = false
is_started embryo = false
is_started _ = true

pub data Step (chan_of : ℕ → ℕ) (initproc : ℕ) : Ptable → Ptable → Type 0 where
  allocates : {t : Ptable} (stack : ℕ) → Step chan_of initproc t (allocproc stack t).0
  forks :
      {t : Ptable} (copied : Bool) (cur np : ℕ)
      → cur < nproc
      → np < nproc
      → (t.proc cur).state ≡ running
      → (t.proc np).state ≡ embryo
      → Step chan_of initproc t (fork_child copied cur np t).0
  wakes : {t : Ptable} (chan : ℕ) → Step chan_of initproc t (wakeup1 chan t)
  kills : {t : Ptable} (pid : ℕ) → Step chan_of initproc t (kill pid t).0
  exits :
      {t : Ptable} (cur : ℕ)
      → cur < nproc
      → cur ≢ initproc
      → (t.proc cur).state ≡ running
      → Step chan_of initproc t (exit_locked chan_of initproc cur t)
  waits : {t r : Ptable} (cur pid : ℕ) → wait cur t ≡ reaped r pid → Step chan_of initproc t r
  sleeps_in_wait :
      {t : Ptable} (cur : ℕ)
      → cur < nproc
      → (t.proc cur).state ≡ running
      → wait cur t ≡ sleeps
      → Step chan_of initproc t (sleep_locked (chan_of cur) cur t)
  sleeps_on :
      {t : Ptable} (chan cur : ℕ)
      → cur < nproc
      → (t.proc cur).state ≡ running
      → chan ≢ chan_of cur
      → Step chan_of initproc t (sleep_locked chan cur t)
  resumes :
      {t : Ptable} (cur : ℕ)
      → cur < nproc
      → (t.proc cur).state ≡ running
      → Step chan_of initproc t (awake cur t)
  yields :
      {t : Ptable} (cur : ℕ)
      → cur < nproc
      → (t.proc cur).state ≡ running
      → Step chan_of initproc t (yield_locked cur t)
  runs :
      {t r : Ptable} (i k j : ℕ)
      → i + k ≤ nproc
      → schedule_from i k t ≡ some (j, r)
      → Step chan_of initproc t r

pub data Reach (chan_of : ℕ → ℕ) (initproc : ℕ) (s : Ptable) : Ptable → Type 0 where
  here : Reach chan_of initproc s s
  next :
      {t u : Ptable}
      → Reach chan_of initproc s t
      → Step chan_of initproc t u
      → Reach chan_of initproc s u

pub is_sleeping-eq : (s : ProcState) → is_sleeping s ≡ true → s ≡ sleeping
is_sleeping-eq sleeping e = refl
is_sleeping-eq unused e = ground arith
is_sleeping-eq embryo e = ground arith
is_sleeping-eq runnable e = ground arith
is_sleeping-eq running e = ground arith
is_sleeping-eq zombie e = ground arith

pub is_runnable-eq : (s : ProcState) → is_runnable s ≡ true → s ≡ runnable
is_runnable-eq runnable e = refl
is_runnable-eq unused e = ground arith
is_runnable-eq embryo e = ground arith
is_runnable-eq sleeping e = ground arith
is_runnable-eq running e = ground arith
is_runnable-eq zombie e = ground arith

pub is_zombie-eq : (s : ProcState) → is_zombie s ≡ true → s ≡ zombie
is_zombie-eq zombie e = refl
is_zombie-eq unused e = ground arith
is_zombie-eq embryo e = ground arith
is_zombie-eq sleeping e = ground arith
is_zombie-eq runnable e = ground arith
is_zombie-eq running e = ground arith

pub is_unused-eq : (s : ProcState) → is_unused s ≡ true → s ≡ unused
is_unused-eq unused e = refl
is_unused-eq embryo e = ground arith
is_unused-eq sleeping e = ground arith
is_unused-eq runnable e = ground arith
is_unused-eq running e = ground arith
is_unused-eq zombie e = ground arith

pub is_child-eq : (i : ℕ) (o : Option ℕ) → is_child i o ≡ true → o ≡ some i
is_child-eq i none e = ground arith
is_child-eq i (some j) e = let q : j ≡ i = ground arith in ap some q

pub is_child_self : (i : ℕ) (o : Option ℕ) → o ≡ some i → is_child i o ≡ true
is_child_self i o e = subst (λ x. is_child i x ≡ true) (sym e) (ground arith)
