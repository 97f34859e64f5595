-- ===== src/Proc/Calls.antt =====
-- Every step of the process table keeps the family tree.
use operating_systeams_proje.Prelude.{
  ℕ, ◌<◌, ◌≡◌, ◌≢◌, inl, inr, refl, sym, ◌∙◌, ap, subst, Bool, true, false, ◌==◌, Option, none,
  some, if◌then◌else◌, update, arith, Bool-cases, if_both,
}
use operating_systeams_proje.Prelude.Search.{IsFirst}
use operating_systeams_proje.Proc.{
  ProcState, unused, embryo, sleeping, runnable, running, zombie, Proc, Ptable, nproc, is_unused,
  is_sleeping, is_runnable, wakeup1, set_proc, alloc_slot, fork_child, kill_slot, reaped, childless,
  sleeps, wait_found, freed, is_zombie_child_of, run_found,
}
use operating_systeams_proje.Proc.Wakeup.{wakeup1_keeps}
use operating_systeams_proje.Proc.Steps.{
  is_alive, is_started, is_sleeping-eq, is_runnable-eq, is_zombie-eq, is_unused-eq,
}
use operating_systeams_proje.Proc.Family.{IsFamily, update-IsFamily, same-IsFamily, ext-IsFamily}

pub alive_awake : (p : Proc) → p.state ≡ sleeping → is_alive runnable ≡ is_alive p.state
alive_awake p e = sym (ap is_alive e)

pub true-false : true ≡ false → ⊥
true-false e = ground arith

pub alive_started : (s : ProcState) → is_alive s ≡ true → is_started s ≡ true
alive_started sleeping e = refl
alive_started runnable e = refl
alive_started running e = refl
alive_started unused e = absurd (true-false (sym e))
alive_started embryo e = absurd (true-false (sym e))
alive_started zombie e = refl

-- What waking a sleeper keeps is kept by the state that `kill` leaves.
pub killed_keeps {ℓ} :
    {A : Type ℓ} (f : ProcState → A) (s : ProcState)
    → (s ≡ sleeping → f runnable ≡ f s)
    → f (if is_sleeping s then runnable else s) ≡ f s
killed_keeps f s h = elim (Bool-cases (is_sleeping s)) [
  | inl e ↦ rw e (h (is_sleeping-eq s e))
  | inr e ↦ rw e refl
]

pub some-table :
    {i j : ℕ} {r s : Ptable} → ◌≡◌ {A = Option (ℕ × Ptable)} (some (i, r)) (some (j, s)) → r ≡ s
some-table e = cc

pub reaped-table : {i j : ℕ} {r s : Ptable} → reaped r i ≡ reaped s j → r ≡ s
reaped-table e = cc

pub not_reaped :
    (b : Bool) {i : ℕ} {r : Ptable} → (if b then childless else sleeps) ≡ reaped r i → ⊥
not_reaped true e = cc
not_reaped false e = cc

module _ (chan_of : ℕ → ℕ) (initproc : ℕ) where
  -- Nobody is a child of a process that is not alive.
  pub dead_alone :
      (a : ℕ → Proc) (i : ℕ)
      → IsFamily initproc a
      → is_alive (a i).state ≡ false
      → (i ≢ initproc) × ((c : ℕ) → c < nproc → (a c).parent ≢ some i)
  dead_alone a i v dead = (
    (λ q. true-false (sym v.init_alive ∙ ap (λ k. is_alive (a k).state) (sym q) ∙ dead)),
    λ c lt h. true-false (sym (v.living c i lt h).1 ∙ dead),
  )

  pub wakeup1-IsFamily :
      (chan : ℕ) (t : Ptable) → IsFamily initproc t.proc → IsFamily initproc (wakeup1 chan t).proc
  wakeup1-IsFamily chan t =
      ext-IsFamily initproc t.proc (wakeup1 chan t).proc
        (wakeup1_keeps chan t (λ p. p.parent) (λ p e. refl))
        (wakeup1_keeps chan t (λ p. is_alive p.state) alive_awake)
        (wakeup1_keeps chan t (λ p. is_started p.state) (λ p e. sym (ap is_started e)))

  -- A slot whose process is neither started before nor after.
  idle-IsFamily :
      (a : ℕ → Proc) (i : ℕ) (p : Proc) (s s' : ProcState)
      → IsFamily initproc a
      → (a i).state ≡ s
      → p.state ≡ s'
      → p.parent ≡ (a i).parent
      → is_alive s ≡ is_alive s'
      → is_started s ≡ is_started s'
      → IsFamily initproc (update a i p)
  idle-IsFamily a i p s s' v e e' q al st =
      same-IsFamily initproc a i p v q (ap is_alive e' ∙ sym al ∙ sym (ap is_alive e))
        (ap is_started e' ∙ sym st ∙ sym (ap is_started e))

  pub slot-IsFamily :
      (stack : ℕ) (t : Ptable) (o : Option ℕ)
      → IsFirst (λ i. is_unused (t.proc i).state) 0 nproc o
      → IsFamily initproc t.proc
      → IsFamily initproc (alloc_slot stack t o).0.proc
  slot-IsFamily stack t none f v = v
  slot-IsFamily stack t (some i) f v =
      let e : (t.proc i).state ≡ unused = is_unused-eq (t.proc i).state f.2 in
      if_both (λ (r : Ptable × Option ℕ). IsFamily initproc r.0.proc) (stack == 0) _ _
        (idle-IsFamily t.proc i _ unused unused v e refl refl refl refl)
        (idle-IsFamily t.proc i _ unused embryo v e refl refl refl refl)

  pub fork_child-IsFamily :
      (copied : Bool) (cur np : ℕ) (t : Ptable)
      → cur < nproc
      → (t.proc cur).state ≡ running
      → (t.proc np).state ≡ embryo
      → IsFamily initproc t.proc
      → IsFamily initproc (fork_child copied cur np t).0.proc
  unfolding fork_child
  fork_child-IsFamily false cur np t lt run emb v =
      idle-IsFamily t.proc np _ embryo unused v emb refl refl refl refl
  fork_child-IsFamily true cur np t lt run emb v = update-IsFamily initproc t.proc np _ v (record {
    keeps = inl refl;
    living = λ q e.
        subst (λ k. (k < nproc) × (is_alive (t.proc k).state ≡ true) × (k ≢ np)) (get_some e)
          (lt, ap is_alive run, apart);
    root = λ e.
        absurd
          (true-false (sym v.init_alive ∙ ap (λ k. is_alive (t.proc k).state) e ∙ ap is_alive emb));
    has_parent = λ ne s. (cur, refl);
    fresh = λ s. absurd (true-false s);
  })
    where
      get_some : {q : ℕ} → some cur ≡ some q → cur ≡ q
      get_some e = cc

      apart : cur ≢ np
      apart e =
          true-false
            (sym (ap is_alive run) ∙ ap (λ k. is_alive (t.proc k).state) e ∙ ap is_alive emb)

  pub kill_slot-IsFamily :
      (t : Ptable) (o : Option ℕ)
      → IsFamily initproc t.proc
      → IsFamily initproc (kill_slot t o).0.proc
  kill_slot-IsFamily t none v = v
  kill_slot-IsFamily t (some i) v =
      same-IsFamily initproc t.proc i _ v refl
        (killed_keeps is_alive (t.proc i).state (λ e. sym (ap is_alive e)))
        (killed_keeps is_started (t.proc i).state (λ e. sym (ap is_started e)))

  pub run_found-IsFamily :
      (t : Ptable) (i k : ℕ) (o : Option ℕ) (j : ℕ) (r : Ptable)
      → IsFirst (λ x. is_runnable (t.proc x).state) i k o
      → run_found t o ≡ some (j, r)
      → IsFamily initproc t.proc
      → IsFamily initproc r.proc
  run_found-IsFamily t i k none j r f e v = absurd (cc)
  run_found-IsFamily t i k (some x) j r f e v =
      let run : (t.proc x).state ≡ runnable = is_runnable-eq (t.proc x).state f.2 in
      subst (λ (q : Ptable). IsFamily initproc q.proc) (some-table e)
        (idle-IsFamily t.proc x _ runnable running v run refl refl refl refl)

  pub wait_found-IsFamily :
      (cur pid : ℕ) (t r : Ptable) (z o : Option ℕ)
      → IsFirst (is_zombie_child_of t cur) 0 nproc z
      → wait_found cur t z o ≡ reaped r pid
      → IsFamily initproc t.proc
      → IsFamily initproc r.proc
  wait_found-IsFamily cur pid t r (some i) o f e v =
      subst (λ (q : Ptable). IsFamily initproc q.proc) (reaped-table e)
        (update-IsFamily initproc t.proc i (freed (t.proc i)) v (record {
          keeps = inr (dead_alone t.proc i v dead);
          living = λ q h. absurd (cc);
          root = λ h. refl;
          has_parent = λ ne h. absurd (true-false (sym h));
          fresh = λ h. refl;
        }))
    where
      dead : is_alive (t.proc i).state ≡ false
      dead = ap is_alive (is_zombie-eq (t.proc i).state (ground (arith, f.2)))
  wait_found-IsFamily cur pid t r none none f e v = absurd (cc)
  wait_found-IsFamily cur pid t r none (some i) f e v = absurd (not_reaped (t.proc cur).killed e)

  pub run_as-IsFamily :
      (t : Ptable) (cur : ℕ) (p : Proc)
      → (t.proc cur).state ≡ running
      → p.parent ≡ (t.proc cur).parent
      → is_alive p.state ≡ true
      → IsFamily initproc t.proc
      → IsFamily initproc (set_proc t cur p).proc
  run_as-IsFamily t cur p run q al v =
      same-IsFamily initproc t.proc cur p v q (al ∙ sym (ap is_alive run))
        (alive_started p.state al ∙ sym (ap is_started run))
