-- ===== src/Vm/Grow.antt =====
-- What `walkpgdir` returns when it may allocate: no room, or the place of the entry.
use operating_systeams_proje.Prelude.{
  ℕ, ◌<◌, ◌≡◌, ◌≢◌, ◌⊎◌, inl, inr, refl, sym, ◌∙◌, ap, subst, true, false, List, ◌∷◌, ◌==◌, arith,
  if_true, if_false, Bool-cases, ==_ne,
}
use operating_systeams_proje.Prelude.Count.{count}
use operating_systeams_proje.Kalloc.{kalloc}
use operating_systeams_proje.Kalloc.Pages.{IsChain}
use operating_systeams_proje.Vm.{Ram, pdx, ptx, is_present, walkpgdir}
use operating_systeams_proje.Vm.Tables.{slot, dirent, table, entry, IsFrame, IsPresent, IsSpace}
use operating_systeams_proje.Vm.Walk.{pdx-lt}
use operating_systeams_proje.Vm.Taken.{
  List-cases, linked, head_counted, fewer, is_frame, not_dir, not_table, no_more,
}
use operating_systeams_proje.Vm.Room.{added, added-entry, each_table, added-IsPresent, added-table}

module _ (s : Ram) (pgdir k : ℕ) (h : IsSpace s pgdir) (lk : k < 1024)
    (absent : is_present (dirent s.mem pgdir k) ≡ false) (x : ℕ) (xs : List ℕ)
    (e : h.free ≡ x ∷ xs) where
  grown : Ram
  grown = record {
    mem =
        added s pgdir k h lk absent x (is_frame s pgdir h x xs e) (not_dir s pgdir h x xs e)
          (not_table s pgdir h x xs e);
    kmem = record s.kmem { freelist = s.kmem.next s.kmem.freelist };
  }

  each :
      (P : ℕ → ℕ → Type 0)
      → P k x
      → ((i : ℕ) → i < 1024 → IsPresent s.mem pgdir i → P i (table s.mem pgdir i))
      → (i : ℕ) → i < 1024
      → IsPresent grown.mem pgdir i
      → P i (table grown.mem pgdir i)
  unfolding grown
  each =
      each_table s pgdir k h lk absent x (is_frame s pgdir h x xs e) (not_dir s pgdir h x xs e)
        (not_table s pgdir h x xs e)

  grown_apart :
      (i j : ℕ)
      → i < 1024
      → j < 1024
      → IsPresent grown.mem pgdir i
      → IsPresent grown.mem pgdir j
      → table grown.mem pgdir i ≡ table grown.mem pgdir j
      → i ≡ j
  grown_apart i j li lj p q =
      each (λ i' t. t ≡ table grown.mem pgdir j → i' ≡ j)
        (each (λ j' u. x ≡ u → k ≡ j') (λ e'. refl)
          (λ j' lj' q' e'. absurd (not_table s pgdir h x xs e j' lj' q' e')) j lj q)
        (λ i' li' p'.
          each (λ j' u. table s.mem pgdir i' ≡ u → i' ≡ j')
            (λ e'. absurd (not_table s pgdir h x xs e i' li' p' (sym e')))
            (λ j' lj' q' e'. h.apart i' j' li' lj' p' q' e') j lj q)
        i li p

  grown-IsSpace : IsSpace grown pgdir
  unfolding grown
  grown-IsSpace = record {
    free = xs;
    chain =
        subst (λ f. IsChain s.kmem.next (s.kmem.next f) xs) (sym (linked s pgdir h x xs e).0)
          (linked s pgdir h x xs e).2;
    once = λ y. omega (arith, (fewer s pgdir h x xs e) y, h.once y);
    frames = λ y z. h.frames y λ w. z ((no_more s pgdir h x xs e) y w);
    dir = (h.dir.0, (no_more s pgdir h x xs e) pgdir h.dir.1);
    tables =
        each (λ i t. IsFrame t × (count t xs ≡ 0) × (t ≢ pgdir))
          (
            (is_frame s pgdir h x xs e),
            omega (arith, (head_counted s pgdir h x xs e), h.once x),
            (not_dir s pgdir h x xs e),
          )
          (λ i li p. let t = h.tables i li p in (t.0, (no_more s pgdir h x xs e) _ t.1, t.2));
    apart = grown_apart;
  }

  grown-IsPresent : IsPresent grown.mem pgdir k
  unfolding grown
  grown-IsPresent =
      added-IsPresent s pgdir k h lk absent x (is_frame s pgdir h x xs e) (not_dir s pgdir h x xs e)
        (not_table s pgdir h x xs e)

  grown_table : table grown.mem pgdir k ≡ x
  unfolding grown
  grown_table =
      added-table s pgdir k h lk absent x (is_frame s pgdir h x xs e) (not_dir s pgdir h x xs e)
        (not_table s pgdir h x xs e)

  grown_entry : (u : ℕ) → entry grown.mem pgdir u ≡ entry s.mem pgdir u
  unfolding grown
  grown_entry u =
      added-entry s pgdir k h lk absent x (is_frame s pgdir h x xs e) (not_dir s pgdir h x xs e)
        (not_table s pgdir h x xs e) u

-- There is room for the entry of `va` at `r`, and every entry is the one of `s`.
pub record HasRoom (s : Ram) (pgdir va r : ℕ) (t : Ram) : Type 0 where
  pub space : IsSpace t pgdir
  pub present : IsPresent t.mem pgdir (pdx va)
  pub place : r ≡ slot (table t.mem pgdir (pdx va)) (ptx va)
  pub nonzero : r ≢ 0
  pub same : (u : ℕ) → entry t.mem pgdir u ≡ entry s.mem pgdir u

-- The null pointer is returned only when there is no free page, and then nothing has changed.
abbrev pub Walks : Ram → ℕ → ℕ → ℕ × Ram → Type 0
Walks s pgdir va (r, t) = ((r ≡ 0) × (t ≡ s) × (s.kmem.freelist ≡ 0)) ⊎ HasRoom s pgdir va r t

nonzero_slot : (f j : ℕ) → IsFrame f → slot f j ≢ 0
nonzero_slot f j h e = absurd (omega arith)

walk_found :
    (s : Ram) (pgdir va : ℕ)
    → IsPresent s.mem pgdir (pdx va)
    → walkpgdir pgdir va true s ≡ (slot (table s.mem pgdir (pdx va)) (ptx va), s)
unfolding walkpgdir
walk_found s pgdir va p = if_true _ _ _ p

walk_full :
    (s : Ram) (pgdir va : ℕ)
    → is_present (dirent s.mem pgdir (pdx va)) ≡ false
    → s.kmem.freelist ≡ 0
    → walkpgdir pgdir va true s ≡ (0, s)
unfolding walkpgdir kalloc
walk_full s pgdir va p f =
    let b : (s.kmem.freelist == 0) ≡ true = ground arith in if_false _ _ _ p ∙ rw b refl

walk_grown :
    (s : Ram) (pgdir va : ℕ) (h : IsSpace s pgdir)
    → (p : is_present (dirent s.mem pgdir (pdx va)) ≡ false)
    → (xs : List ℕ) (e : h.free ≡ s.kmem.freelist ∷ xs) → s.kmem.freelist ≢ 0
    → walkpgdir pgdir va true s
      ≡ (slot s.kmem.freelist (ptx va), grown s pgdir (pdx va) h (pdx-lt va) p s.kmem.freelist xs e)
unfolding walkpgdir kalloc grown added
walk_grown s pgdir va h p xs e nz =
    let b : (s.kmem.freelist == 0) ≡ false = ==_ne _ _ nz in if_false _ _ _ p ∙ rw (b, b) refl

pub walkpgdir-Walks :
    (s : Ram) (pgdir va : ℕ) → IsSpace s pgdir → Walks s pgdir va (walkpgdir pgdir va true s)
walkpgdir-Walks s pgdir va h = elim (Bool-cases (is_present (dirent s.mem pgdir (pdx va)))) [
  | inl p ↦ subst (Walks s pgdir va) (sym (walk_found s pgdir va p)) (
      inr (record {
        space = h;
        present = p;
        place = refl;
        nonzero = nonzero_slot _ (ptx va) (h.tables (pdx va) (pdx-lt va) p).0;
        same = λ u. refl;
      }))
  | inr p ↦ elim (List-cases h.free) [
    | inl e ↦
        let f : s.kmem.freelist ≡ 0 = subst (IsChain s.kmem.next s.kmem.freelist) e h.chain in
        subst (Walks s pgdir va) (sym (walk_full s pgdir va p f)) (inl (refl, refl, f))
    | inr (x, xs, e) ↦
        let c = subst (IsChain s.kmem.next s.kmem.freelist) e h.chain in
        with_page p xs (e ∙ ap (λ z. z ∷ xs) (sym c.0)) (λ z. c.1 (sym c.0 ∙ z))
  ]
]
  where
    with_page :
        (p : is_present (dirent s.mem pgdir (pdx va)) ≡ false)
        → (xs : List ℕ) → h.free ≡ s.kmem.freelist ∷ xs
        → s.kmem.freelist ≢ 0
        → Walks s pgdir va (walkpgdir pgdir va true s)
    with_page p xs e nz =
        let k = pdx va in
        let x = s.kmem.freelist in
        subst (Walks s pgdir va) (sym (walk_grown s pgdir va h p xs e nz)) (
          inr (record {
            space = grown-IsSpace s pgdir k h (pdx-lt va) p x xs e;
            present = grown-IsPresent s pgdir k h (pdx-lt va) p x xs e;
            place = ap (λ t. slot t (ptx va)) (sym (grown_table s pgdir k h (pdx-lt va) p x xs e));
            nonzero = nonzero_slot x (ptx va) (is_frame s pgdir h x xs e);
            same = grown_entry s pgdir k h (pdx-lt va) p x xs e;
          }))
