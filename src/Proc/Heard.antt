-- ===== src/Proc/Heard.antt =====
-- `exit` wakes whoever waits for a process that has exited, and so every sequence of calls leaves the
-- parents of zombies awake.
use operating_systeams_proje.Prelude.{
  ℕ, suc, ◌<◌, ◌≡◌, ◌≢◌, ◌⊎◌, inl, inr, refl, sym, ◌∙◌, ap, true, false, ◌==◌, Option, none, some,
  at_update, arith, Bool-cases, if_both,
}
use operating_systeams_proje.Prelude.Loops.{for_range, for_range_inv}
use operating_systeams_proje.Prelude.Search.{find_index-IsFirst}
use operating_systeams_proje.Proc.{
  running, Ptable, nproc, is_sleeping, is_zombie, is_child, wakeup1, set_proc, allocproc, kill,
  reparent_entry, wake_parent, exit_locked, wait, is_zombie_child_of, yield_locked, awake,
  schedule_from,
}
use operating_systeams_proje.Proc.Wakeup.{wakeup1_keeps}
use operating_systeams_proje.Proc.Steps.{
  is_child-eq, is_alive, Step, allocates, forks, wakes, kills, exits, waits, sleeps_in_wait,
  sleeps_on, resumes, yields, runs, Reach, here, next,
}
use operating_systeams_proje.Proc.Calls.{true-false}
use operating_systeams_proje.Proc.Awaited.{
  IsAttentive, IsAwaited, wakeup1-IsAttentive, wakeup1-IsAwaited, update-IsAwaited, quiet-IsAwaited,
  slot-IsAwaited, fork_child-IsAwaited, kill_slot-IsAwaited, run_found-IsAwaited,
  wait_found-IsAwaited, no_zombie, sleep-IsAwaited,
}
use operating_systeams_proje.Proc.Family.{IsFamily}
use operating_systeams_proje.Proc.Exits.{Passed, entry-Passed, wakeup1-Passed, some_eq, none-some}
use operating_systeams_proje.Proc.Reachable.{Reach-IsFamily}

module _ (chan_of : ℕ → ℕ) (initproc : ℕ) where
  module _ (cur : ℕ) (lt : cur < nproc) (ne : cur ≢ initproc) where
    -- The parent of the process that exits is awake, too.
    record Hearing (k : ℕ) (t : Ptable) : Type 0 where
      passed : Passed chan_of initproc cur lt ne k t
      awaited : IsAwaited chan_of t.proc
      parked : (q : ℕ) → q < nproc → (t.proc cur).parent ≡ some q → IsAttentive chan_of t.proc q

    abbrev child_adopted : ℕ → Ptable → Ptable
    child_adopted i t = set_proc t i (record (t.proc i) { parent = some initproc })

    adopted-IsAttentive :
        (i : ℕ) (t : Ptable) (q : ℕ)
        → IsAttentive chan_of t.proc q
        → IsAttentive chan_of (child_adopted i t).proc q
    adopted-IsAttentive i t q =
        at_update
          (λ k r. IsAttentive chan_of t.proc k → is_sleeping r.state ≡ true → r.chan ≢ chan_of k)
          t.proc i _ q (λ h. h) (λ ne h. h)

    -- Only the new parent of a zombie may be asleep.
    adopted-heard :
        (i : ℕ) (t : Ptable)
        → IsAwaited chan_of t.proc
        → (c p : ℕ) → c < nproc
        → p < nproc
        → ((child_adopted i t).proc c).parent ≡ some p
        → is_zombie ((child_adopted i t).proc c).state ≡ true
        → (p ≢ initproc) ⊎ (is_zombie (t.proc i).state ≡ false)
        → IsAttentive chan_of (child_adopted i t).proc p
    adopted-heard i t v c p lc lp par z why = adopted-IsAttentive i t p (
        at_update
          (λ k r.
            k < nproc → r.parent ≡ some p → is_zombie r.state ≡ true → IsAttentive chan_of t.proc p)
          t.proc i _ c
          (λ l e z'. elim why [
            | inl other ↦ absurd (other (sym (some_eq e)))
            | inr dead ↦ absurd (true-false (sym z' ∙ dead))
          ])
          (λ h l e z'. v c p l lp e z') lc par z)

    entry-IsAwaited :
        (i : ℕ) (t : Ptable)
        → IsAwaited chan_of t.proc
        → IsAwaited chan_of (reparent_entry chan_of initproc cur i t).proc
    unfolding reparent_entry
    entry-IsAwaited i t v = elim (Bool-cases (is_child cur (t.proc i).parent)) [
      | inr e ↦ rw e v
      | inl e ↦ elim (Bool-cases (is_zombie (t.proc i).state)) [
        | inl z ↦
            rw (e, z)
              (wakeup1-IsAwaited chan_of (chan_of initproc) (child_adopted i t)
                (λ c p lc lp par z' other.
                  adopted-heard i t v c p lc lp par z' (inl (λ h. other (ap chan_of (sym h))))))
        | inr z ↦ rw (e, z) (λ c p lc lp par z'. adopted-heard i t v c p lc lp par z' (inr z))
      ]
    ]

    abbrev IsParked : Ptable → Type 0
    IsParked t = (q : ℕ) → q < nproc → (t.proc cur).parent ≡ some q → IsAttentive chan_of t.proc q

    wakeup1-IsParked : (chan : ℕ) (t : Ptable) → IsParked t → IsParked (wakeup1 chan t)
    wakeup1-IsParked chan t h q lq e =
        wakeup1-IsAttentive chan_of chan t q lq
          (λ _. h q lq (sym (wakeup1_keeps chan t (λ p. p.parent) (λ p e'. refl) cur lt) ∙ e))

    adopted-IsParked : (i : ℕ) (t : Ptable) → cur ≢ i → IsParked t → IsParked (child_adopted i t)
    adopted-IsParked i t other h q lq e = adopted-IsAttentive i t q (
        h q lq (
          at_update (λ k r. cur ≡ k → r.parent ≡ some q → (t.proc cur).parent ≡ some q) t.proc i _
            cur (λ h'. absurd (other h')) (λ _ _ h'. h') refl e))

    entry-IsParked :
        (i : ℕ) (t : Ptable)
        → (is_child cur (t.proc i).parent ≡ true → cur ≢ i)
        → IsParked t
        → IsParked (reparent_entry chan_of initproc cur i t)
    unfolding reparent_entry
    entry-IsParked i t other h = elim (Bool-cases (is_child cur (t.proc i).parent)) [
      | inr e ↦ rw e h
      | inl e ↦ rw e (
          if_both IsParked (is_zombie (t.proc i).state) _ _
            (wakeup1-IsParked (chan_of initproc) (child_adopted i t)
              (adopted-IsParked i t (other e) h))
            (adopted-IsParked i t (other e) h))
    ]

    entry-Hearing :
        (i : ℕ) (t : Ptable)
        → i < nproc
        → Hearing i t
        → Hearing (suc i) (reparent_entry chan_of initproc cur i t)
    entry-Hearing i t l h = record {
      passed = entry-Passed chan_of initproc cur lt ne i t l h.passed;
      awaited = entry-IsAwaited i t h.awaited;
      parked =
          entry-IsParked i t
            (λ e. (h.passed.family.living i cur l (is_child-eq cur (t.proc i).parent e)).2)
            h.parked;
    }

    wakeup1-Hearing :
        (chan : ℕ) (t : Ptable)
        → ((q : ℕ) → (t.proc cur).parent ≡ some q → chan ≡ chan_of q)
        → (t.proc cur).state ≡ running
        → IsFamily initproc t.proc
        → IsAwaited chan_of t.proc
        → Hearing 0 (wakeup1 chan t)
    wakeup1-Hearing chan t own run f v = record {
      passed =
          wakeup1-Passed chan_of initproc cur lt ne 0 chan t (omega arith)
            (record { family = f; alive = ap is_alive run; passed = λ i l. absurd (omega arith) });
      awaited = wakeup1-IsAwaited chan_of chan t (λ c p lc lp par z _. v c p lc lp par z);
      parked = λ q lq e. wakeup1-IsAttentive chan_of chan t q lq (λ other.
          absurd
            (other (own q (sym (wakeup1_keeps chan t (λ p. p.parent) (λ p e'. refl) cur lt) ∙ e))));
    }

    woken-Hearing :
        (o : Option ℕ) (t : Ptable)
        → (t.proc cur).parent ≡ o
        → (t.proc cur).state ≡ running
        → IsFamily initproc t.proc
        → IsAwaited chan_of t.proc
        → Hearing 0 (wake_parent chan_of o t)
    unfolding wake_parent
    woken-Hearing none t e run f v =
        wakeup1-Hearing 0 t (λ q h. absurd (none-some (sym e ∙ h))) run f v
    woken-Hearing (some p) t e run f v =
        wakeup1-Hearing (chan_of p) t (λ q h. ap chan_of (some_eq (sym e ∙ h))) run f v

    exit_locked-IsAwaited :
        (t : Ptable)
        → (t.proc cur).state ≡ running
        → IsFamily initproc t.proc
        → IsAwaited chan_of t.proc
        → IsAwaited chan_of (exit_locked chan_of initproc cur t).proc
    unfolding exit_locked
    exit_locked-IsAwaited t run f v =
        update-IsAwaited chan_of left.proc cur _ left-Hearing.awaited
          (λ q lq e z. left-Hearing.parked q lq e) (λ s. absurd (true-false (sym s)))
      where
        left : Ptable
        left =
            for_range (reparent_entry chan_of initproc cur) 0 nproc
              (wake_parent chan_of (t.proc cur).parent t)

        left-Hearing : Hearing nproc left
        left-Hearing =
            for_range_inv Hearing (reparent_entry chan_of initproc cur) nproc entry-Hearing 0 nproc
              _ refl (woken-Hearing (t.proc cur).parent t refl run f v)

  Step-IsAwaited :
      {s t : Ptable}
      → Step chan_of initproc s t
      → IsFamily initproc s.proc
      → IsAwaited chan_of s.proc
      → IsAwaited chan_of t.proc
  unfolding allocproc kill wait schedule_from yield_locked awake
  Step-IsAwaited (allocates {t = t} stack) f v = slot-IsAwaited chan_of stack t _ v
  Step-IsAwaited (forks {t = t} copied cur np lt _ run emb) f v =
      fork_child-IsAwaited chan_of copied cur np t v
  Step-IsAwaited (wakes {t = t} chan) f v =
      wakeup1-IsAwaited chan_of chan t (λ c p lc lp par z _. v c p lc lp par z)
  Step-IsAwaited (kills {t = t} pid) f v =
      kill_slot-IsAwaited chan_of t (λ i. (t.proc i).pid == pid) _
        (find_index-IsFirst (λ i. (t.proc i).pid == pid) 0 nproc) v
  Step-IsAwaited (exits {t = t} cur lt ne run) f v = exit_locked-IsAwaited cur lt ne t run f v
  Step-IsAwaited (waits {t = t} {r = r} cur pid e) f v =
      wait_found-IsAwaited chan_of cur pid t r _ _ e v
  Step-IsAwaited (sleeps_in_wait {t = t} cur lt run e) f v =
      sleep-IsAwaited chan_of (chan_of cur) cur t
        (λ _. no_zombie chan_of cur t _ _ (find_index-IsFirst (is_zombie_child_of t cur) 0 nproc) e)
        v
  Step-IsAwaited (sleeps_on {t = t} chan cur lt run ne) f v =
      sleep-IsAwaited chan_of chan cur t (λ h. absurd (ne h)) v
  Step-IsAwaited (resumes {t = t} cur lt run) f v =
      quiet-IsAwaited chan_of t.proc cur _ v (ap is_zombie run) (ap is_sleeping run)
  Step-IsAwaited (yields {t = t} cur lt run) f v = quiet-IsAwaited chan_of t.proc cur _ v refl refl
  Step-IsAwaited (runs {t = t} {r = r} i k j h e) f v = run_found-IsAwaited chan_of t _ j r e v

  -- From a table with the family tree, in which no parent sleeps in `wait` over a child that has
  -- exited, no sequence of calls leads to one that does: `exit` wakes the parent, or `initproc`, for
  -- every child that turns into a zombie or comes to it as one.
  pub Reach-IsAwaited :
      {s t : Ptable}
      → IsFamily initproc s.proc
      → IsAwaited chan_of s.proc
      → Reach chan_of initproc s t
      → IsAwaited chan_of t.proc
  Reach-IsAwaited f v here = v
  Reach-IsAwaited f v (next r c) =
      Step-IsAwaited c (Reach-IsFamily chan_of initproc f r) (Reach-IsAwaited f v r)
