-- ===== src/Proc/Awaited.antt =====
-- No wakeup is lost between `exit` and `wait`: a parent never sleeps in `wait` over a child that has
-- exited.
use operating_systeams_proje.Prelude.{
  ℕ, ◌<◌, ◌≡◌, ◌≢◌, inl, inr, refl, sym, ◌∙◌, ap, subst, Bool, true, false, ◌==◌, Option, none,
  some, update, at_update, arith, Bool-cases, if_both,
}
use operating_systeams_proje.Prelude.Search.{IsFirst}
use operating_systeams_proje.Proc.{
  ProcState, Proc, Ptable, nproc, is_sleeping, is_zombie, is_child, wakeup1, freed, alloc_slot,
  fork_child, kill_slot, reaped, sleeps, wait_found, is_zombie_child_of, sleep_locked, run_found,
}
use operating_systeams_proje.Proc.Wakeup.{wakeup1_keeps, wakeup1_asleep}
use operating_systeams_proje.Proc.Steps.{is_child_self, is_zombie-eq}
use operating_systeams_proje.Proc.Calls.{true-false, some-table, reaped-table, not_reaped}

zombie_awake : (s : ProcState) → is_zombie s ≡ true → is_sleeping s ≡ false
zombie_awake s e = ap is_sleeping (is_zombie-eq s e)

module _ (chan_of : ℕ → ℕ) where
  -- Process `p` is not asleep in `wait`.
  abbrev pub IsAttentive : (ℕ → Proc) → ℕ → Type 0
  IsAttentive a p = is_sleeping (a p).state ≡ true → (a p).chan ≢ chan_of p

  -- The parent of a zombie is not asleep in `wait`.
  abbrev pub IsAwaited : (ℕ → Proc) → Type 0
  IsAwaited a =
      (c p : ℕ)
      → c < nproc
      → p < nproc
      → (a c).parent ≡ some p
      → is_zombie (a c).state ≡ true
      → IsAttentive a p

  pub wakeup1-IsAttentive :
      (chan : ℕ) (t : Ptable) (p : ℕ)
      → p < nproc
      → (chan ≢ chan_of p → IsAttentive t.proc p)
      → IsAttentive (wakeup1 chan t).proc p
  wakeup1-IsAttentive chan t p l h s q =
      let (s', same, other) = wakeup1_asleep chan t p l s in
      h (λ e. other (sym same ∙ q ∙ sym e)) s' (sym same ∙ q)

  -- It suffices that the zombies' parents other than those that the channel wakes are attentive.
  pub wakeup1-IsAwaited :
      (chan : ℕ) (t : Ptable)
      → ((c p : ℕ)
          → c < nproc
          → p < nproc
          → (t.proc c).parent ≡ some p
          → is_zombie (t.proc c).state ≡ true
          → chan ≢ chan_of p
          → IsAttentive t.proc p)
      → IsAwaited (wakeup1 chan t).proc
  wakeup1-IsAwaited chan t v c p lc lp e z = wakeup1-IsAttentive chan t p lp (
      v c p lc lp (sym (wakeup1_keeps chan t (λ q. q.parent) (λ q h. refl) c lc) ∙ e) (
        sym (wakeup1_keeps chan t (λ q. is_zombie q.state) (λ q h. sym (ap is_zombie h)) c lc) ∙ z))

  -- Slot `i` may become `p`.
  pub update-IsAwaited :
      (a : ℕ → Proc) (i : ℕ) (p : Proc)
      → IsAwaited a
      → ((q : ℕ) → q < nproc → p.parent ≡ some q → is_zombie p.state ≡ true → IsAttentive a q)
      → (is_sleeping p.state ≡ true
          → p.chan ≡ chan_of i
          → (c : ℕ) → c < nproc
          → (a c).parent ≡ some i
          → is_zombie (a c).state ≡ true
          → ⊥)
      → IsAwaited (update a i p)
  update-IsAwaited a i p v child parent c q lc lq =
      at_update
        (λ k r.
          k < nproc → r.parent ≡ some q → is_zombie r.state ≡ true → IsAttentive (update a i p) q)
        a i p c
        (λ l e z.
          at_update
            (λ k r. (i ≢ k → IsAttentive a k) → is_sleeping r.state ≡ true → r.chan ≢ chan_of k) a i
            p q (λ _ s h. true-false (sym s ∙ zombie_awake p.state z))
            (λ ne h. h (λ e'. ne (sym e'))) (λ _. child q lq e z))
        (λ ne l e z.
          at_update
            (λ k r.
              (a c).parent ≡ some k
              → IsAttentive a k
              → is_sleeping r.state ≡ true
              → r.chan ≢ chan_of k)
            a i p q (λ e' _ s h. parent s h c l e' z) (λ ne' e' h. h) e (v c q l lq e z))
        lc

  -- A process that is neither a zombie nor asleep.
  pub quiet-IsAwaited :
      (a : ℕ → Proc) (i : ℕ) (p : Proc)
      → IsAwaited a
      → is_zombie p.state ≡ false
      → is_sleeping p.state ≡ false
      → IsAwaited (update a i p)
  quiet-IsAwaited a i p v z s =
      update-IsAwaited a i p v (λ q l e h. absurd (true-false (sym h ∙ z)))
        (λ h. absurd (true-false (sym h ∙ s)))

  pub slot-IsAwaited :
      (stack : ℕ) (t : Ptable) (o : Option ℕ)
      → IsAwaited t.proc
      → IsAwaited (alloc_slot stack t o).0.proc
  slot-IsAwaited stack t none v = v
  slot-IsAwaited stack t (some i) v =
      if_both (λ (r : Ptable × Option ℕ). IsAwaited r.0.proc) (stack == 0) _ _
        (quiet-IsAwaited t.proc i _ v refl refl) (quiet-IsAwaited t.proc i _ v refl refl)

  pub fork_child-IsAwaited :
      (copied : Bool) (cur np : ℕ) (t : Ptable)
      → IsAwaited t.proc
      → IsAwaited (fork_child copied cur np t).0.proc
  unfolding fork_child
  fork_child-IsAwaited false cur np t v = quiet-IsAwaited t.proc np _ v refl refl
  fork_child-IsAwaited true cur np t v = quiet-IsAwaited t.proc np _ v refl refl

  pub kill_slot-IsAwaited :
      (t : Ptable) (test : ℕ → Bool) (o : Option ℕ)
      → IsFirst test 0 nproc o
      → IsAwaited t.proc
      → IsAwaited (kill_slot t o).0.proc
  kill_slot-IsAwaited t test none h v = v
  kill_slot-IsAwaited t test (some i) h v = elim (Bool-cases (is_sleeping (t.proc i).state)) [
    | inl e ↦ rw e (quiet-IsAwaited t.proc i _ v refl refl)
    | inr e ↦ rw e (
        update-IsAwaited t.proc i _ v (λ q lq par z. v i q (omega (arith, h.1)) lq par z)
          (λ s. absurd (true-false (sym s ∙ e))))
  ]

  pub run_found-IsAwaited :
      (t : Ptable) (o : Option ℕ) (j : ℕ) (r : Ptable)
      → run_found t o ≡ some (j, r)
      → IsAwaited t.proc
      → IsAwaited r.proc
  run_found-IsAwaited t none j r e v = absurd (cc)
  run_found-IsAwaited t (some x) j r e v =
      subst (λ (q : Ptable). IsAwaited q.proc) (some-table e)
        (quiet-IsAwaited t.proc x _ v refl refl)

  pub wait_found-IsAwaited :
      (cur pid : ℕ) (t r : Ptable) (z o : Option ℕ)
      → wait_found cur t z o ≡ reaped r pid
      → IsAwaited t.proc
      → IsAwaited r.proc
  wait_found-IsAwaited cur pid t r (some i) o e v =
      subst (λ (q : Ptable). IsAwaited q.proc) (reaped-table e)
        (quiet-IsAwaited t.proc i (freed (t.proc i)) v refl refl)
  wait_found-IsAwaited cur pid t r none none e v = absurd (cc)
  wait_found-IsAwaited cur pid t r none (some i) e v = absurd (not_reaped (t.proc cur).killed e)

  -- `wait` sleeps only if no child has exited.
  pub no_zombie :
      (cur : ℕ) (t : Ptable) (z o : Option ℕ)
      → IsFirst (is_zombie_child_of t cur) 0 nproc z
      → wait_found cur t z o ≡ sleeps
      → (c : ℕ) → c < nproc
      → (t.proc c).parent ≡ some cur
      → is_zombie (t.proc c).state ≡ true
      → ⊥
  no_zombie cur t (some i) o f e c l par z = absurd (cc)
  no_zombie cur t none o f e c l par z =
      let a : is_child cur (t.proc c).parent ≡ true = is_child_self cur (t.proc c).parent par in
      ground (arith, f c (omega arith) (omega arith))

  pub sleep-IsAwaited :
      (chan cur : ℕ) (t : Ptable)
      → (chan ≡ chan_of cur
          → (c : ℕ) → c < nproc
          → (t.proc c).parent ≡ some cur
          → is_zombie (t.proc c).state ≡ true
          → ⊥)
      → IsAwaited t.proc
      → IsAwaited (sleep_locked chan cur t).proc
  unfolding sleep_locked
  sleep-IsAwaited chan cur t h v =
      update-IsAwaited t.proc cur _ v (λ q l e z. absurd (true-false (sym z))) (λ s. h)
