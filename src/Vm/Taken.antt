-- ===== src/Vm/Taken.antt =====
-- The first free page is taken off the list, and may be cleared.
use operating_systeams_proje.Prelude.{
  ℕ, suc, ◌≤◌, ◌<◌, ◌≡◌, ◌≢◌, ◌⊎◌, inl, inr, refl, sym, ◌∙◌, ap, subst, true, false, List, [], ◌∷◌,
  arith, Bool-cases,
}
use operating_systeams_proje.Prelude.Count.{count}
use operating_systeams_proje.Prelude.Words.{get32}
use operating_systeams_proje.Kalloc.{pgsize}
use operating_systeams_proje.Kalloc.Pages.{IsChain}
use operating_systeams_proje.Vm.{Ram, pdx, ptx, p2v, pte_addr, is_present, memset}
use operating_systeams_proje.Vm.Tables.{
  slot, dirent, table, entry, IsFrame, IsPresent, IsSpace, IsSpace-same, read_uncleared,
}
use operating_systeams_proje.Vm.Walk.{pdx-lt, ptx-lt, entry_present, entry_absent}

pub List-cases : (xs : List ℕ) → (xs ≡ []) ⊎ ((x : ℕ) × (ys : List ℕ) × (xs ≡ x ∷ ys))
List-cases [] = inl refl
List-cases (x ∷ xs) = inr (x, xs, refl)

count_head : (x : ℕ) (xs : List ℕ) → count x (x ∷ xs) ≡ suc (count x xs)
unfolding count
count_head x xs = ground arith

count_tail : (y x : ℕ) (xs : List ℕ) → count y xs ≤ count y (x ∷ xs)
unfolding count
count_tail y x xs = ground arith

module _ (s : Ram) (pgdir : ℕ) (h : IsSpace s pgdir) (x : ℕ) (xs : List ℕ)
    (e : h.free ≡ x ∷ xs) where
  pub linked : IsChain s.kmem.next s.kmem.freelist (x ∷ xs)
  linked = subst (IsChain s.kmem.next s.kmem.freelist) e h.chain

  counted : (y : ℕ) → count y h.free ≡ count y (x ∷ xs)
  counted y = ap (count y) e

  pub head_counted : count x h.free ≡ suc (count x xs)
  head_counted = counted x ∙ count_head x xs

  pub fewer : (y : ℕ) → count y xs ≤ count y h.free
  fewer y = subst (λ n. count y xs ≤ n) (sym (counted y)) (count_tail y x xs)

  pub is_frame : IsFrame x
  is_frame = h.frames x λ z. absurd (omega (arith, head_counted))

  not_in_use : (y : ℕ) → count y h.free ≡ 0 → x ≢ y
  not_in_use y z q =
      let w : count x h.free ≡ 0 = subst (λ y'. count y' h.free ≡ 0) (sym q) z in
      absurd (omega (arith, head_counted, w))

  pub not_dir : x ≢ pgdir
  not_dir = not_in_use pgdir h.dir.1

  pub not_table : (i : ℕ) → i < 1024 → IsPresent s.mem pgdir i → x ≢ table s.mem pgdir i
  not_table i li p = not_in_use _ (h.tables i li p).1

  pub no_more : (y : ℕ) → count y h.free ≡ 0 → count y xs ≡ 0
  no_more y z = omega (arith, fewer y)

  popped : Ram
  popped = record s { kmem = record s.kmem { freelist = s.kmem.next s.kmem.freelist } }

  popped-IsSpace : IsSpace popped pgdir
  unfolding popped
  popped-IsSpace = record {
    free = xs;
    chain = subst (λ f. IsChain s.kmem.next (s.kmem.next f) xs) (sym linked.0) linked.2;
    once = λ y. omega (arith, fewer y, h.once y);
    frames = λ y z. h.frames y λ w. z (no_more y w);
    dir = (h.dir.0, no_more pgdir h.dir.1);
    tables = λ i li p. let t = h.tables i li p in (t.0, no_more _ t.1, t.2);
    apart = h.apart;
  }

  cleared_dirent :
      (i : ℕ) → i < 1024 → dirent (memset x 0 pgsize s.mem) pgdir i ≡ dirent s.mem pgdir i
  cleared_dirent i li = read_uncleared s.mem x pgdir i is_frame h.dir.0 li not_dir

  -- The page is taken and cleared: what is left is a space with the same entries.
  pub cleared-IsSpace :
      IsSpace
        (record {
          mem = memset x 0 pgsize s.mem;
          kmem = record s.kmem { freelist = s.kmem.next s.kmem.freelist };
        })
        pgdir
  unfolding popped
  cleared-IsSpace =
      IsSpace-same popped (memset x 0 pgsize s.mem) pgdir cleared_dirent popped-IsSpace

  pub cleared_entry : (u : ℕ) → entry (memset x 0 pgsize s.mem) pgdir u ≡ entry s.mem pgdir u
  cleared_entry u = elim (Bool-cases (is_present (dirent s.mem pgdir (pdx u)))) [
    | inr q ↦
        entry_absent _ pgdir u
          (subst (λ d. is_present d ≡ false) (sym (cleared_dirent (pdx u) (pdx-lt u))) q)
        ∙ sym (entry_absent s.mem pgdir u q)
    | inl q ↦
        entry_present _ pgdir u
          (subst (λ d. is_present d ≡ true) (sym (cleared_dirent (pdx u) (pdx-lt u))) q)
        ∙ ap (λ d. get32 (memset x 0 pgsize s.mem) (slot (p2v (pte_addr d)) (ptx u)))
            (cleared_dirent (pdx u) (pdx-lt u))
        ∙ read_uncleared s.mem x _ (ptx u) is_frame (h.tables (pdx u) (pdx-lt u) q).0 (ptx-lt u)
            (not_table (pdx u) (pdx-lt u) q)
        ∙ sym (entry_present s.mem pgdir u q)
  ]
