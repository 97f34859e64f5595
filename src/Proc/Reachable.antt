-- ===== src/Proc/Reachable.antt =====
-- The family tree after any sequence of steps.
use operating_systeams_proje.Prelude.{ℕ, refl, ap}
use operating_systeams_proje.Prelude.Search.{find_index-IsFirst}
use operating_systeams_proje.Proc.{
  Ptable, nproc, is_unused, is_runnable, is_zombie_child_of, allocproc, kill, wait, schedule_from,
  yield_locked, sleep_locked, awake,
}
use operating_systeams_proje.Proc.Steps.{
  is_alive, Step, allocates, forks, wakes, kills, exits, waits, sleeps_in_wait, sleeps_on, resumes,
  yields, runs, Reach, here, next,
}
use operating_systeams_proje.Proc.Family.{IsFamily}
use operating_systeams_proje.Proc.Calls.{
  wakeup1-IsFamily, slot-IsFamily, fork_child-IsFamily, kill_slot-IsFamily, run_found-IsFamily,
  wait_found-IsFamily, run_as-IsFamily,
}
use operating_systeams_proje.Proc.Exits.{exit_locked-IsFamily}

module _ (chan_of : ℕ → ℕ) (initproc : ℕ) where
  pub Step-IsFamily :
      {s t : Ptable}
      → Step chan_of initproc s t
      → IsFamily initproc s.proc
      → IsFamily initproc t.proc
  unfolding allocproc kill wait schedule_from yield_locked sleep_locked awake
  Step-IsFamily (allocates {t = t} stack) v =
      slot-IsFamily chan_of initproc stack t _
        (find_index-IsFirst (λ i. is_unused (t.proc i).state) 0 nproc) v
  Step-IsFamily (forks {t = t} copied cur np lt _ run emb) v =
      fork_child-IsFamily chan_of initproc copied cur np t lt run emb v
  Step-IsFamily (wakes {t = t} chan) v = wakeup1-IsFamily chan_of initproc chan t v
  Step-IsFamily (kills {t = t} pid) v = kill_slot-IsFamily chan_of initproc t _ v
  Step-IsFamily (exits {t = t} cur lt ne run) v =
      (exit_locked-IsFamily chan_of initproc cur lt ne t run v).0
  Step-IsFamily (waits {t = t} {r = r} cur pid e) v =
      wait_found-IsFamily chan_of initproc cur pid t r _ _
        (find_index-IsFirst (is_zombie_child_of t cur) 0 nproc) e v
  Step-IsFamily (sleeps_in_wait {t = t} cur lt run e) v =
      run_as-IsFamily chan_of initproc t cur _ run refl refl v
  Step-IsFamily (sleeps_on {t = t} chan cur lt run ne) v =
      run_as-IsFamily chan_of initproc t cur _ run refl refl v
  Step-IsFamily (resumes {t = t} cur lt run) v =
      run_as-IsFamily chan_of initproc t cur _ run refl (ap is_alive run) v
  Step-IsFamily (yields {t = t} cur lt run) v =
      run_as-IsFamily chan_of initproc t cur _ run refl refl v
  Step-IsFamily (runs {t = t} {r = r} i k j h e) v =
      run_found-IsFamily chan_of initproc t i k _ j r
        (find_index-IsFirst (λ x. is_runnable (t.proc x).state) i k) e v

  -- The family tree holds after any sequence of calls from a table in which it holds: every started
  -- process but `initproc` has a parent, and the parent is another process and alive. So a process
  -- that has exited always has somebody who can wait for it.
  pub Reach-IsFamily :
      {s t : Ptable}
      → IsFamily initproc s.proc
      → Reach chan_of initproc s t
      → IsFamily initproc t.proc
  Reach-IsFamily v here = v
  Reach-IsFamily v (next r c) = Step-IsFamily c (Reach-IsFamily v r)
