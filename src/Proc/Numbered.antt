-- ===== src/Proc/Numbered.antt =====
-- The pids of the process table.
use operating_systeams_proje.Prelude.{
  ℕ, ◌+◌, ◌<◌, ◌≡◌, refl, sym, ◌∙◌, ap, subst, Bool, true, false, ◌==◌, Option, none, some, update,
  at_update, arith, if_both,
}
use operating_systeams_proje.Prelude.Loops.{for_range, for_range_inv}
use operating_systeams_proje.Proc.{
  ProcState, embryo, runnable, running, Proc, Ptable, nproc, is_unused, is_zombie, is_child,
  wakeup1, set_proc, freed, alloc_slot, allocproc, fork_child, kill_slot, kill, reparent_entry,
  wake_parent, exit_locked, reaped, wait_found, wait, yield_locked, sleep_locked, awake, run_found,
  schedule_from, is_runnable,
}
use operating_systeams_proje.Prelude.Search.{IsFirst, find_index-IsFirst}
use operating_systeams_proje.Proc.Wakeup.{wakeup1_keeps}
use operating_systeams_proje.Proc.Steps.{
  is_runnable-eq, Step, allocates, forks, wakes, kills, exits, waits, sleeps_in_wait, sleeps_on,
  resumes, yields, runs, Reach, here, next,
}
use operating_systeams_proje.Proc.Calls.{
  true-false, some-table, reaped-table, not_reaped, killed_keeps,
}

-- The processes in use have pids below `nextpid`, no two the same.
pub record IsNumbered (t : Ptable) : Type 0 where
  pub below : (i : ℕ) → i < nproc → is_unused (t.proc i).state ≡ false → (t.proc i).pid < t.nextpid
  pub distinct :
      (i j : ℕ)
      → i < nproc
      → j < nproc
      → is_unused (t.proc i).state ≡ false
      → is_unused (t.proc j).state ≡ false
      → (t.proc i).pid ≡ (t.proc j).pid
      → i ≡ j

-- From `s` to `t` no process has come into use, and those in use keep their pids.
record Fewer (s t : Ptable) : Type 0 where
  next_same : t.nextpid ≡ s.nextpid
  fewer :
      (i : ℕ)
      → i < nproc
      → is_unused (t.proc i).state ≡ false
      → (is_unused (s.proc i).state ≡ false) × ((t.proc i).pid ≡ (s.proc i).pid)

Fewer-refl : (t : Ptable) → Fewer t t
Fewer-refl t = record { next_same = refl; fewer = λ i l u. (u, refl) }

Fewer-trans : (s t u : Ptable) → Fewer s t → Fewer t u → Fewer s u
Fewer-trans s t u f g = record {
  next_same = g.next_same ∙ f.next_same;
  fewer = λ i l e. let (e', p) = g.fewer i l e in let (e'', q) = f.fewer i l e' in (e'', p ∙ q);
}

Fewer-IsNumbered : (s t : Ptable) → Fewer s t → IsNumbered s → IsNumbered t
Fewer-IsNumbered s t f v = record {
  below = λ i l u. let (u', p) = f.fewer i l u in omega (arith, v.below i l u', p, f.next_same);
  distinct = λ i j li lj ui uj e.
      let (ui', p) = f.fewer i li ui in
      let (uj', q) = f.fewer j lj uj in v.distinct i j li lj ui' uj' (sym p ∙ e ∙ q);
}

set-Fewer :
    (t : Ptable) (i : ℕ) (p : Proc)
    → (is_unused p.state ≡ false → (is_unused (t.proc i).state ≡ false) × (p.pid ≡ (t.proc i).pid))
    → Fewer t (set_proc t i p)
set-Fewer t i p h = record {
  next_same = refl;
  fewer = λ j l.
      at_update
        (λ k r.
          is_unused r.state ≡ false
          → (is_unused (t.proc k).state ≡ false) × (r.pid ≡ (t.proc k).pid))
        t.proc i p j h (λ ne u. (u, refl));
}

-- The new state is in use only if the old one was, and the pid stays.
moves-Fewer :
    (t : Ptable) (i : ℕ) (p : Proc) (s : ProcState)
    → (t.proc i).state ≡ s
    → is_unused s ≡ false
    → p.pid ≡ (t.proc i).pid
    → Fewer t (set_proc t i p)
moves-Fewer t i p s e u q = set-Fewer t i p (λ h. (ap is_unused e ∙ u, q))

wakeup1-Fewer : (chan : ℕ) (t : Ptable) → Fewer t (wakeup1 chan t)
unfolding wakeup1
wakeup1-Fewer chan t = record {
  next_same = refl;
  fewer = λ i l u. (
    sym (wakeup1_keeps chan t (λ p. is_unused p.state) (λ p e. sym (ap is_unused e)) i l) ∙ u,
    wakeup1_keeps chan t (λ p. p.pid) (λ p e. refl) i l,
  );
}

slot-IsNumbered :
    (stack : ℕ) (t : Ptable) (o : Option ℕ) → IsNumbered t → IsNumbered (alloc_slot stack t o).0
slot-IsNumbered stack t none v = v
slot-IsNumbered stack t (some i) v =
    if_both (λ (r : Ptable × Option ℕ). IsNumbered r.0) (stack == 0) _ _ (taken _ refl)
      (taken _ refl)
  where
    taken :
        (p : Proc)
        → p.pid ≡ t.nextpid
        → IsNumbered (set_proc (record t { nextpid = t.nextpid + 1 }) i p)
    taken p e = record {
      below = λ j l.
          at_update (λ k r. k < nproc → is_unused r.state ≡ false → r.pid < t.nextpid + 1) t.proc i
            p j (λ m u. omega (arith, e)) (λ ne m u. omega (arith, v.below j m u)) l;
      distinct = λ j k lj lk.
          at_update
            (λ x r.
              is_unused r.state ≡ false
              → is_unused (update t.proc i p k).state ≡ false
              → r.pid ≡ (update t.proc i p k).pid
              → x ≡ k)
            t.proc i p j
            (λ u.
              at_update (λ y q. is_unused q.state ≡ false → p.pid ≡ q.pid → i ≡ y) t.proc i p k
                (λ w h. refl) (λ ne w h. absurd (omega (arith, e, h, v.below k lk w))))
            (λ ne u.
              at_update (λ y q. is_unused q.state ≡ false → (t.proc j).pid ≡ q.pid → j ≡ y) t.proc i
                p k (λ w h. absurd (omega (arith, e, h, v.below j lj u)))
                (λ ne' w h. v.distinct j k lj lk u w h));
    }

kill_slot-Fewer : (t : Ptable) (o : Option ℕ) → Fewer t (kill_slot t o).0
kill_slot-Fewer t none = Fewer-refl t
kill_slot-Fewer t (some i) =
    set-Fewer t i _
      (λ u. (sym (killed_keeps is_unused (t.proc i).state (λ e. sym (ap is_unused e))) ∙ u, refl))

fork_child-Fewer :
    (copied : Bool) (cur np : ℕ) (t : Ptable)
    → (t.proc np).state ≡ embryo
    → Fewer t (fork_child copied cur np t).0
unfolding fork_child
fork_child-Fewer false cur np t e = moves-Fewer t np _ embryo e refl refl
fork_child-Fewer true cur np t e = moves-Fewer t np _ embryo e refl refl

run_found-Fewer :
    (t : Ptable) (i k : ℕ) (o : Option ℕ) (j : ℕ) (r : Ptable)
    → IsFirst (λ x. is_runnable (t.proc x).state) i k o
    → run_found t o ≡ some (j, r)
    → Fewer t r
run_found-Fewer t i k none j r f e = absurd (cc)
run_found-Fewer t i k (some x) j r f e =
    subst (Fewer t) (some-table e)
      (moves-Fewer t x _ runnable (is_runnable-eq (t.proc x).state f.2) refl refl)

wait_found-Fewer :
    (cur pid : ℕ) (t r : Ptable) (z o : Option ℕ) → wait_found cur t z o ≡ reaped r pid → Fewer t r
wait_found-Fewer cur pid t r (some i) o e =
    subst (Fewer t) (reaped-table e) (set-Fewer t i (freed (t.proc i)) (λ u. absurd (true-false u)))
wait_found-Fewer cur pid t r none none e = absurd (cc)
wait_found-Fewer cur pid t r none (some i) e = absurd (not_reaped (t.proc cur).killed e)

module _ (chan_of : ℕ → ℕ) (initproc : ℕ) where
  entry-Fewer : (cur i : ℕ) (t : Ptable) → Fewer t (reparent_entry chan_of initproc cur i t)
  unfolding reparent_entry
  entry-Fewer cur i t =
      let t' = set_proc t i (record (t.proc i) { parent = some initproc }) in
      let f : Fewer t t' = set-Fewer t i _ (λ u. (u, refl)) in
      if_both (Fewer t) (is_child cur (t.proc i).parent) _ _
        (if_both (Fewer t) (is_zombie (t.proc i).state) _ _
          (Fewer-trans t t' _ f (wakeup1-Fewer (chan_of initproc) t')) f)
        (Fewer-refl t)

  woken-Fewer : (o : Option ℕ) (t : Ptable) → Fewer t (wake_parent chan_of o t)
  unfolding wake_parent
  woken-Fewer none t = wakeup1-Fewer 0 t
  woken-Fewer (some q) t = wakeup1-Fewer (chan_of q) t

  module _ (cur : ℕ) (lt : cur < nproc) where
    abbrev IsUsed : Ptable → Type 0
    IsUsed t = is_unused (t.proc cur).state ≡ false

    wakeup1-IsUsed : (chan : ℕ) (t : Ptable) → IsUsed t → IsUsed (wakeup1 chan t)
    wakeup1-IsUsed chan t u =
        wakeup1_keeps chan t (λ p. is_unused p.state) (λ p e. sym (ap is_unused e)) cur lt ∙ u

    entry-IsUsed :
        (i : ℕ) (t : Ptable) → IsUsed t → IsUsed (reparent_entry chan_of initproc cur i t)
    unfolding reparent_entry
    entry-IsUsed i t u =
        let p : Proc = record (t.proc i) { parent = some initproc } in
        let u' : IsUsed (set_proc t i p) =
          at_update (λ k r. is_unused (t.proc k).state ≡ false → is_unused r.state ≡ false) t.proc i
            p cur (λ h. h) (λ ne h. h) u in
        if_both IsUsed (is_child cur (t.proc i).parent) _ _
          (if_both IsUsed (is_zombie (t.proc i).state) _ _
            (wakeup1-IsUsed (chan_of initproc) (set_proc t i p) u') u')
          u

    woken-IsUsed : (o : Option ℕ) (t : Ptable) → IsUsed t → IsUsed (wake_parent chan_of o t)
    unfolding wake_parent
    woken-IsUsed none t u = wakeup1-IsUsed 0 t u
    woken-IsUsed (some q) t u = wakeup1-IsUsed (chan_of q) t u

    exit_locked-Fewer :
        (t : Ptable) → (t.proc cur).state ≡ running → Fewer t (exit_locked chan_of initproc cur t)
    unfolding exit_locked
    exit_locked-Fewer t run =
        Fewer-trans t left _ both.0 (set-Fewer left cur _ (λ u. (both.1, refl)))
      where
        start : Ptable
        start = wake_parent chan_of (t.proc cur).parent t

        left : Ptable
        left = for_range (reparent_entry chan_of initproc cur) 0 nproc start

        both : Fewer t left × IsUsed left
        both =
            for_range_inv (λ k s. Fewer t s × IsUsed s) (reparent_entry chan_of initproc cur) nproc
              (λ i s l (f, u). (Fewer-trans t s _ f (entry-Fewer cur i s), entry-IsUsed i s u)) 0
              nproc start refl
              (
                woken-Fewer (t.proc cur).parent t,
                woken-IsUsed (t.proc cur).parent t (ap is_unused run),
              )

  Step-IsNumbered : {s t : Ptable} → Step chan_of initproc s t → IsNumbered s → IsNumbered t
  unfolding allocproc kill wait schedule_from yield_locked sleep_locked awake
  Step-IsNumbered (allocates {t = t} stack) = slot-IsNumbered stack t _
  Step-IsNumbered (forks {t = t} copied cur np lt _ run emb) =
      Fewer-IsNumbered t _ (fork_child-Fewer copied cur np t emb)
  Step-IsNumbered (wakes {t = t} chan) = Fewer-IsNumbered t _ (wakeup1-Fewer chan t)
  Step-IsNumbered (kills {t = t} pid) = Fewer-IsNumbered t _ (kill_slot-Fewer t _)
  Step-IsNumbered (exits {t = t} cur lt ne run) =
      Fewer-IsNumbered t _ (exit_locked-Fewer cur lt t run)
  Step-IsNumbered (waits {t = t} {r = r} cur pid e) =
      Fewer-IsNumbered t _ (wait_found-Fewer cur pid t r _ _ e)
  Step-IsNumbered (sleeps_in_wait {t = t} cur lt run e) =
      Fewer-IsNumbered t _ (moves-Fewer t cur _ running run refl refl)
  Step-IsNumbered (sleeps_on {t = t} chan cur lt run ne) =
      Fewer-IsNumbered t _ (moves-Fewer t cur _ running run refl refl)
  Step-IsNumbered (resumes {t = t} cur lt run) =
      Fewer-IsNumbered t _ (moves-Fewer t cur _ running run refl refl)
  Step-IsNumbered (yields {t = t} cur lt run) =
      Fewer-IsNumbered t _ (moves-Fewer t cur _ running run refl refl)
  Step-IsNumbered (runs {t = t} {r = r} i k j h e) =
      Fewer-IsNumbered t _
        (run_found-Fewer t i k _ j r (find_index-IsFirst (λ x. is_runnable (t.proc x).state) i k) e)

  -- After any sequence of calls from a table in which it holds, the processes in use have pids below
  -- `nextpid`, and no two of them have the same.
  pub Reach-IsNumbered : {s t : Ptable} → IsNumbered s → Reach chan_of initproc s t → IsNumbered t
  Reach-IsNumbered v here = v
  Reach-IsNumbered v (next r c) = Step-IsNumbered c (Reach-IsNumbered v r)
