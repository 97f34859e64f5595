-- ===== src/Proc/Exits.antt =====
-- `exit` of proc.c keeps the family tree: its loop leaves no child of the process that exits.
use operating_systeams_proje.Prelude.{
  ℕ, suc, ◌≤◌, ◌<◌, ◌≡◌, ◌≢◌, inl, inr, refl, sym, ◌∙◌, ap, subst, true, false, Option, none, some,
  at_update, arith, Bool-cases, if_both,
}
use operating_systeams_proje.Prelude.Loops.{for_range, for_range_inv, below_suc}
use operating_systeams_proje.Proc.{
  running, Ptable, nproc, is_zombie, is_child, wakeup1, set_proc, reparent_entry, wake_parent,
  exit_locked,
}
use operating_systeams_proje.Proc.Wakeup.{wakeup1_keeps}
use operating_systeams_proje.Proc.Steps.{is_alive, is_child-eq, is_child_self}
use operating_systeams_proje.Proc.Family.{IsFamily, update-IsFamily}
use operating_systeams_proje.Proc.Calls.{
  wakeup1-IsFamily, alive_awake, alive_started, true-false, dead_alone,
}

pub none-some : {i : ℕ} → none ≡ some i → ⊥
none-some e = cc

pub some_eq : {i j : ℕ} → some i ≡ some j → i ≡ j
some_eq e = cc

module _ (chan_of : ℕ → ℕ) (initproc cur : ℕ) (lt : cur < nproc) (ne : cur ≢ initproc) where
  -- The children below `k` are passed on.
  pub record Passed (k : ℕ) (t : Ptable) : Type 0 where
    pub family : IsFamily initproc t.proc
    pub alive : is_alive (t.proc cur).state ≡ true
    pub passed : (i : ℕ) → i < k → is_child cur (t.proc i).parent ≡ false

  pub wakeup1-Passed :
      (k chan : ℕ) (t : Ptable) → k ≤ nproc → Passed k t → Passed k (wakeup1 chan t)
  wakeup1-Passed k chan t h p = record {
    family = wakeup1-IsFamily chan_of initproc chan t p.family;
    alive = wakeup1_keeps chan t (λ q. is_alive q.state) alive_awake cur lt ∙ p.alive;
    passed = λ i l.
        wakeup1_keeps chan t (λ q. is_child cur q.parent) (λ q e. refl) i (omega arith)
        ∙ p.passed i l;
  }

  abbrev pub adopted : ℕ → Ptable → Ptable
  adopted i t = set_proc t i (record (t.proc i) { parent = some initproc })

  pub adopted-Passed :
      (i : ℕ) (t : Ptable)
      → i < nproc
      → is_child cur (t.proc i).parent ≡ true
      → Passed i t
      → Passed (suc i) (adopted i t)
  adopted-Passed i t l e p = record {
    family = update-IsFamily initproc t.proc i _ p.family (record {
      keeps = elim (Bool-cases (is_alive (t.proc i).state)) [
        | inl a ↦ inl a
        | inr d ↦ inr (dead_alone chan_of initproc t.proc i p.family d)
      ];
      living = λ q h.
          subst (λ k. (k < nproc) × (is_alive (t.proc k).state ≡ true) × (k ≢ i)) (some_eq h)
            (p.family.init_in, p.family.init_alive, other);
      root = λ h. absurd (other h);
      has_parent = λ h s. (initproc, refl);
      fresh = λ s.
          absurd (none-some (sym (p.family.fresh i l s) ∙ is_child-eq cur (t.proc i).parent e));
    });
    alive =
        at_update (λ k r. k ≡ cur → is_alive r.state ≡ true) t.proc i _ cur
          (λ h. subst (λ k. is_alive (t.proc k).state ≡ true) (sym h) p.alive) (λ h q. p.alive)
          refl;
    passed = λ j h.
        at_update (λ k r. k < suc i → is_child cur r.parent ≡ false) t.proc i _ j
          (λ q. ground arith) (λ h q. p.passed j (omega arith)) h;
  }
    where
      other : initproc ≢ i
      other h =
          none-some (
            sym p.family.root ∙ ap (λ k. (t.proc k).parent) h ∙ is_child-eq cur (t.proc i).parent e)

  skipped-Passed :
      (i : ℕ) (t : Ptable) → is_child cur (t.proc i).parent ≡ false → Passed i t → Passed (suc i) t
  skipped-Passed i t e p = record {
    family = p.family;
    alive = p.alive;
    passed = below_suc (λ k. is_child cur (t.proc k).parent ≡ false) i e p.passed;
  }

  pub entry-Passed :
      (i : ℕ) (t : Ptable)
      → i < nproc
      → Passed i t
      → Passed (suc i) (reparent_entry chan_of initproc cur i t)
  unfolding reparent_entry
  entry-Passed i t l p = elim (Bool-cases (is_child cur (t.proc i).parent)) [
    | inl e ↦
        let q : Passed (suc i) (adopted i t) = adopted-Passed i t l e p in
        rw e (
          if_both (Passed (suc i)) (is_zombie (t.proc i).state) _ _
            (wakeup1-Passed (suc i) (chan_of initproc) (adopted i t) (omega arith) q) q)
    | inr e ↦ rw e (skipped-Passed i t e p)
  ]

  pub woken-Passed : (o : Option ℕ) (t : Ptable) → Passed 0 t → Passed 0 (wake_parent chan_of o t)
  unfolding wake_parent
  woken-Passed none t p = wakeup1-Passed 0 0 t (omega arith) p
  woken-Passed (some q) t p = wakeup1-Passed 0 (chan_of q) t (omega arith) p

  pub loop-Passed :
      (t : Ptable)
      → Passed 0 t
      → Passed nproc (for_range (reparent_entry chan_of initproc cur) 0 nproc t)
  loop-Passed t p =
      for_range_inv Passed (reparent_entry chan_of initproc cur) nproc entry-Passed 0 nproc t refl p

  -- A running process other than `initproc` exits: the tree is kept, with its children passed on, and
  -- none is left to it.
  pub exit_locked-IsFamily :
      (t : Ptable)
      → (t.proc cur).state ≡ running
      → IsFamily initproc t.proc
      → IsFamily initproc (exit_locked chan_of initproc cur t).proc
        × ((i : ℕ) → i < nproc → ((exit_locked chan_of initproc cur t).proc i).parent ≢ some cur)
  unfolding exit_locked
  exit_locked-IsFamily t run v = (
    update-IsFamily initproc left.proc cur _ p.family (record {
      keeps = inr (ne, alone);
      living = λ q h. p.family.living cur q lt h;
      root = λ h. absurd (ne (sym h));
      has_parent =
          λ h s. p.family.has_parent cur lt h (alive_started (left.proc cur).state p.alive);
      fresh = λ s. absurd (true-false s);
    }),
    λ i.
        at_update (λ k r. k < nproc → r.parent ≢ some cur) left.proc cur _ i (λ l. alone cur l)
          (λ h l. alone i l),
  )
    where
      left : Ptable
      left =
          for_range (reparent_entry chan_of initproc cur) 0 nproc
            (wake_parent chan_of (t.proc cur).parent t)

      p : Passed nproc left
      p = loop-Passed _ (
          woken-Passed (t.proc cur).parent t
            (record { family = v; alive = ap is_alive run; passed = λ i l. absurd (omega arith) }))

      alone : (c : ℕ) → c < nproc → (left.proc c).parent ≢ some cur
      alone c l h = true-false (sym (is_child_self cur (left.proc c).parent h) ∙ p.passed c l)
