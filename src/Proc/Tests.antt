-- ===== src/Proc/Tests.antt =====
-- A process exits while `initproc` sleeps in `wait`, and leaves it a child that has exited.
use operating_systeams_proje.Prelude.{
  ℕ, zero, suc, ◌+◌, ◌<◌, ◌≡◌, ◌≢◌, refl, sym, true, false, Option, none, some, arith,
}
use operating_systeams_proje.Proc.{
  ProcState, unused, sleeping, runnable, running, zombie, Proc, Ptable, nproc, is_unused,
  exit_locked, wait, kill,
}
use operating_systeams_proje.Proc.Steps.{is_alive, is_started, exits, Reach, here, next}
use operating_systeams_proje.Proc.Family.{IsFamily}
use operating_systeams_proje.Proc.Exits.{none-some, some_eq}
use operating_systeams_proje.Proc.Reachable.{Reach-IsFamily}
use operating_systeams_proje.Proc.Numbered.{IsNumbered, Reach-IsNumbered}
use operating_systeams_proje.Proc.Awaited.{IsAwaited}
use operating_systeams_proje.Proc.Heard.{Reach-IsAwaited}
use operating_systeams_proje.Proc.Waits.{Waits, wait-Waits, Kills, kill-Kills}
use operating_systeams_proje.Proc.Calls.{true-false}

abbrev chan_at : ℕ → ℕ
chan_at i = 100 + i

abbrev process : ProcState → ℕ → Option ℕ → ℕ → Proc
process state pid parent chan = record {
  sz = 4096;
  kstack = 8192;
  state = state;
  pid = pid;
  parent = parent;
  chan = chan;
  killed = false;
}

abbrev slots : ℕ → Proc
slots zero = process sleeping 1 none 100
slots (suc zero) = process running 2 (some 0) 0
slots (suc (suc zero)) = process zombie 3 (some 1) 0
slots (suc (suc (suc i))) = process unused 0 none 0

abbrev table : Ptable
table = record { proc = slots; nextpid = 4 }

slots-living :
    (i p : ℕ)
    → i < nproc
    → (slots i).parent ≡ some p
    → (p < nproc) × (is_alive (slots p).state ≡ true) × (p ≢ i)
slots-living zero p l e = absurd (none-some e)
slots-living (suc zero) zero l e = (omega arith, refl, λ h. omega arith)
slots-living (suc zero) (suc p) l e = absurd (omega (arith, some_eq e))
slots-living (suc (suc zero)) zero l e = absurd (omega (arith, some_eq e))
slots-living (suc (suc zero)) (suc zero) l e = (omega arith, refl, λ h. omega arith)
slots-living (suc (suc zero)) (suc (suc p)) l e = absurd (omega (arith, some_eq e))
slots-living (suc (suc (suc i))) p l e = absurd (none-some e)

slots-parent :
    (i : ℕ)
    → i < nproc
    → i ≢ 0
    → is_started (slots i).state ≡ true
    → (p : ℕ) × ((slots i).parent ≡ some p)
slots-parent zero l ne s = absurd (ne refl)
slots-parent (suc zero) l ne s = (0, refl)
slots-parent (suc (suc zero)) l ne s = (1, refl)
slots-parent (suc (suc (suc i))) l ne s = absurd (true-false (sym s))

slots-fresh : (i : ℕ) → i < nproc → is_started (slots i).state ≡ false → (slots i).parent ≡ none
slots-fresh zero l s = refl
slots-fresh (suc zero) l s = absurd (true-false s)
slots-fresh (suc (suc zero)) l s = absurd (true-false s)
slots-fresh (suc (suc (suc i))) l s = refl

slots-IsFamily : IsFamily 0 slots
slots-IsFamily = record {
  init_in = omega arith;
  init_alive = refl;
  root = refl;
  living = slots-living;
  has_parent = slots-parent;
  fresh = slots-fresh;
}

slots-IsAwaited : IsAwaited chan_at slots
slots-IsAwaited zero p lc lp e z = absurd (true-false (sym z))
slots-IsAwaited (suc zero) p lc lp e z = absurd (true-false (sym z))
slots-IsAwaited (suc (suc zero)) zero lc lp e z = absurd (omega (arith, some_eq e))
slots-IsAwaited (suc (suc zero)) (suc zero) lc lp e z = λ s. absurd (true-false (sym s))
slots-IsAwaited (suc (suc zero)) (suc (suc p)) lc lp e z = absurd (omega (arith, some_eq e))
slots-IsAwaited (suc (suc (suc i))) p lc lp e z = absurd (true-false (sym z))

-- The number of a slot in use is one more than its index.
slots-pid : (i : ℕ) → is_unused (slots i).state ≡ false → ((slots i).pid ≡ i + 1) × (i < 3)
slots-pid zero u = (refl, omega arith)
slots-pid (suc zero) u = (refl, omega arith)
slots-pid (suc (suc zero)) u = (refl, omega arith)
slots-pid (suc (suc (suc i))) u = absurd (true-false u)

table-IsNumbered : IsNumbered table
table-IsNumbered = record {
  below = λ i l u. omega (arith, (slots-pid i u).0, (slots-pid i u).1);
  distinct = λ i j li lj ui uj e. omega (arith, (slots-pid i ui).0, (slots-pid j uj).0);
}

abbrev exited : Ptable
exited = exit_locked chan_at 0 1 table

exited-Reach : Reach chan_at 0 table exited
exited-Reach = next here (exits 1 (omega arith) (λ e. omega arith) refl)

Reach-IsFamily_example : IsFamily 0 exited.proc
Reach-IsFamily_example = Reach-IsFamily chan_at 0 slots-IsFamily exited-Reach

Reach-IsNumbered_example : IsNumbered exited
Reach-IsNumbered_example = Reach-IsNumbered chan_at 0 table-IsNumbered exited-Reach

Reach-IsAwaited_example : IsAwaited chan_at exited.proc
Reach-IsAwaited_example = Reach-IsAwaited chan_at 0 slots-IsFamily slots-IsAwaited exited-Reach

-- `initproc` has been woken, and the zombie is its child.
exited_state : ((exited.proc 0).state ≡ runnable) × ((exited.proc 2).parent ≡ some 0)
unfolding exit_locked
exited_state = (refl, refl)

wait-Waits_example : Waits 1 table (wait 1 table)
wait-Waits_example = wait-Waits 1 table

kill-Kills_example : Kills 1 table (kill 1 table)
kill-Kills_example = kill-Kills 1 table
