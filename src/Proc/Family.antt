-- ===== src/Proc/Family.antt =====
-- The family tree of the process table: parents are alive, so that every process that exits has
-- somebody to wait for it.
use operating_systeams_proje.Prelude.{
  ℕ, ◌<◌, ◌≡◌, ◌≢◌, ◌⊎◌, inl, inr, refl, sym, ◌∙◌, ap, true, false, none, some, update, at_update,
}
use operating_systeams_proje.Proc.{Proc, nproc}
use operating_systeams_proje.Proc.Steps.{is_alive, is_started}

module _ (initproc : ℕ) where
  -- Every process but `initproc` has a parent, which is another process and alive; slots that are
  -- free or being filled have none.
  pub record IsFamily (a : ℕ → Proc) : Type 0 where
    pub init_in : initproc < nproc
    pub init_alive : is_alive (a initproc).state ≡ true
    pub root : (a initproc).parent ≡ none
    pub living :
        (i p : ℕ)
        → i < nproc
        → (a i).parent ≡ some p
        → (p < nproc) × (is_alive (a p).state ≡ true) × (p ≢ i)
    pub has_parent :
        (i : ℕ)
        → i < nproc
        → i ≢ initproc
        → is_started (a i).state ≡ true
        → (p : ℕ) × ((a i).parent ≡ some p)
    pub fresh : (i : ℕ) → i < nproc → is_started (a i).state ≡ false → (a i).parent ≡ none

  -- Slot `i` may become `p`.
  pub record Change (a : ℕ → Proc) (i : ℕ) (p : Proc) : Type 0 where
    pub keeps :
        (is_alive p.state ≡ true) ⊎ ((i ≢ initproc) × ((c : ℕ) → c < nproc → (a c).parent ≢ some i))
    pub living : (q : ℕ) → p.parent ≡ some q → (q < nproc) × (is_alive (a q).state ≡ true) × (q ≢ i)
    pub root : initproc ≡ i → p.parent ≡ none
    pub has_parent : i ≢ initproc → is_started p.state ≡ true → (q : ℕ) × (p.parent ≡ some q)
    pub fresh : is_started p.state ≡ false → p.parent ≡ none

  -- A process that has a child in the table, or is `initproc`, stays alive in such a change.
  alive_after :
      (a : ℕ → Proc) (i : ℕ) (p : Proc) (q : ℕ)
      → Change a i p
      → is_alive (a q).state ≡ true
      → (q ≡ initproc) ⊎ ((c : ℕ) × (c < nproc) × ((a c).parent ≡ some q))
      → is_alive (update a i p q).state ≡ true
  alive_after a i p q c v why =
      at_update (λ k r. k ≡ q → is_alive r.state ≡ true) a i p q
        (λ e. elim c.keeps [
          | inl alive ↦ alive
          | inr (ne, alone) ↦ elim why [
            | inl init ↦ absurd (ne (e ∙ init))
            | inr (k, lt, h) ↦ absurd (alone k lt (h ∙ ap some (sym e)))
          ]
        ])
        (λ ne e. v) refl

  -- A process that is made a parent anew is alive after the change, too.
  new_parent_alive :
      (a : ℕ → Proc) (i : ℕ) (p : Proc) (q : ℕ)
      → q ≢ i
      → is_alive (a q).state ≡ true
      → is_alive (update a i p q).state ≡ true
  new_parent_alive a i p q ne v =
      at_update (λ k r. k ≢ i → is_alive r.state ≡ true) a i p q (λ e. absurd (e refl)) (λ e h. v)
        ne

  pub update-IsFamily :
      (a : ℕ → Proc) (i : ℕ) (p : Proc) → IsFamily a → Change a i p → IsFamily (update a i p)
  update-IsFamily a i p v c = record {
    init_in = v.init_in;
    init_alive = alive_after a i p initproc c v.init_alive (inl refl);
    root =
        at_update (λ k r. initproc ≡ k → r.parent ≡ none) a i p initproc c.root (λ ne e. v.root)
          refl;
    living = λ j.
        at_update
          (λ k r.
            (q : ℕ)
            → k < nproc
            → r.parent ≡ some q
            → (q < nproc) × (is_alive (update a i p q).state ≡ true) × (q ≢ k))
          a i p j
          (λ q lt e. let (l, al, ne) = c.living q e in (l, new_parent_alive a i p q ne al, ne))
          (λ ne q lt e.
            let (l, al, other) = v.living j q lt e in
            (l, alive_after a i p q c al (inr (j, lt, e)), other));
    has_parent = λ j.
        at_update
          (λ k r.
            k < nproc → k ≢ initproc → is_started r.state ≡ true → (q : ℕ) × (r.parent ≡ some q))
          a i p j (λ lt. c.has_parent) (λ ne. v.has_parent j);
    fresh = λ j.
        at_update (λ k r. k < nproc → is_started r.state ≡ false → r.parent ≡ none) a i p j
          (λ lt. c.fresh) (λ ne. v.fresh j);
  }

  -- Only the parents, and who is alive or started, matter.
  pub ext-IsFamily :
      (a b : ℕ → Proc)
      → ((i : ℕ) → i < nproc → (b i).parent ≡ (a i).parent)
      → ((i : ℕ) → i < nproc → is_alive (b i).state ≡ is_alive (a i).state)
      → ((i : ℕ) → i < nproc → is_started (b i).state ≡ is_started (a i).state)
      → IsFamily a
      → IsFamily b
  ext-IsFamily a b parent alive started v = record {
    init_in = v.init_in;
    init_alive = alive initproc v.init_in ∙ v.init_alive;
    root = parent initproc v.init_in ∙ v.root;
    living = λ i p lt e.
        let (l, al, ne) = v.living i p lt (sym (parent i lt) ∙ e) in (l, alive p l ∙ al, ne);
    has_parent = λ i lt ne s.
        let (p, e) = v.has_parent i lt ne (sym (started i lt) ∙ s) in (p, parent i lt ∙ e);
    fresh = λ i lt s. parent i lt ∙ v.fresh i lt (sym (started i lt) ∙ s);
  }

  -- A change that keeps the parent, and whether the process is alive and started.
  pub same-IsFamily :
      (a : ℕ → Proc) (i : ℕ) (p : Proc)
      → IsFamily a
      → p.parent ≡ (a i).parent
      → is_alive p.state ≡ is_alive (a i).state
      → is_started p.state ≡ is_started (a i).state
      → IsFamily (update a i p)
  same-IsFamily a i p v parent alive started =
      ext-IsFamily a (update a i p)
        (λ j lt. at_update (λ k r. r.parent ≡ (a k).parent) a i p j parent (λ ne. refl))
        (λ j lt.
          at_update (λ k r. is_alive r.state ≡ is_alive (a k).state) a i p j alive (λ ne. refl))
        (λ j lt.
          at_update (λ k r. is_started r.state ≡ is_started (a k).state) a i p j started
            (λ ne. refl))
        v
