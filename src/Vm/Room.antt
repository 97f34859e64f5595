-- ===== src/Vm/Room.antt =====
-- The table that `walkpgdir` adds: it is empty, and no other page changes but the directory.
use operating_systeams_proje.Prelude.{
  ℕ, ◌+◌, ◌%◌, ◌^◌, ◌<◌, ◌≡◌, ◌≢◌, inl, inr, sym, ◌∙◌, ap, subst, true, false, arith, Bool-cases,
  bit_or,
}
use native.Mathlib.Decide.{ℕ_discrete}
use operating_systeams_proje.Prelude.Or.{or-one, or-two, or-four}
use operating_systeams_proje.Prelude.Words.{get32, put32, get32-put32}
use operating_systeams_proje.Strings.{Memory}
use operating_systeams_proje.Kalloc.{phystop, pgsize}
use operating_systeams_proje.Vm.{
  Ram, pdx, ptx, v2p, p2v, pte_addr, is_present, memset, pte_p, pte_w, pte_u,
}
use operating_systeams_proje.Vm.Tables.{
  slot, dirent, table, entry, IsFrame, IsPresent, IsSpace, read_other, read_cleared, read_uncleared,
}
use operating_systeams_proje.Vm.Walk.{pdx-lt, ptx-lt, entry_present, entry_absent}

-- The entry of the directory that names the page `p`.
abbrev pub table_entry : ℕ → ℕ
table_entry p = bit_or (bit_or (bit_or (v2p p) pte_p) pte_w) pte_u

table_entry_value : (p : ℕ) → IsFrame p → table_entry p ≡ v2p p + 7
table_entry_value p f =
    omega (arith, or-four (bit_or (bit_or (v2p p) 1) 2), or-two (bit_or (v2p p) 1), or-one (v2p p))

pub v2p-lt : (p : ℕ) → IsFrame p → (v2p p < phystop) × (v2p p % 4096 ≡ 0) × (p2v (v2p p) ≡ p)
v2p-lt p f = (omega arith, omega arith, omega arith)

table_entry_lem :
    (p : ℕ)
    → IsFrame p
    → (table_entry p < 2 ^ 32)
      × (is_present (table_entry p) ≡ true)
      × (p2v (pte_addr (table_entry p)) ≡ p)
table_entry_lem p f =
    let v = table_entry_value p f in
    let l = v2p-lt p f in
    (
      omega (arith, v, l.0),
      subst (λ e. is_present e ≡ true) (sym v) (odd (v2p p) l.1),
      ap (λ e. p2v (pte_addr e)) v ∙ ap p2v (cut (v2p p) l.1) ∙ l.2,
    )
  where
    odd : (x : ℕ) → x % 4096 ≡ 0 → is_present (x + 7) ≡ true
    odd x e = ground arith

    cut : (x : ℕ) → x % 4096 ≡ 0 → pte_addr (x + 7) ≡ x
    cut x e = omega arith

module _ (s : Ram) (pgdir k : ℕ) (h : IsSpace s pgdir) (lk : k < 1024)
    (absent : is_present (dirent s.mem pgdir k) ≡ false) (p : ℕ) (fp : IsFrame p) (np : p ≢ pgdir)
    (fresh : (i : ℕ) → i < 1024 → IsPresent s.mem pgdir i → p ≢ table s.mem pgdir i) where
  unfoldable pub added : Memory
  added = put32 (memset p 0 pgsize s.mem) (slot pgdir k) (table_entry p)

  added_here : dirent added pgdir k ≡ table_entry p
  unfolding added
  added_here =
      get32-put32 (memset p 0 pgsize s.mem) (slot pgdir k) (table_entry p) (table_entry_lem p fp).0

  added_there : (i : ℕ) → i < 1024 → i ≢ k → dirent added pgdir i ≡ dirent s.mem pgdir i
  unfolding added
  added_there i li ne =
      read_other (memset p 0 pgsize s.mem) (table_entry p) pgdir k pgdir i h.dir.0 h.dir.0 lk li
        (inr λ e. ne (sym e))
      ∙ read_uncleared s.mem p pgdir i fp h.dir.0 li np

  pub added-IsPresent : IsPresent added pgdir k
  added-IsPresent = subst (λ e. is_present e ≡ true) (sym added_here) (table_entry_lem p fp).1

  pub added-table : table added pgdir k ≡ p
  added-table = ap (λ e. p2v (pte_addr e)) added_here ∙ (table_entry_lem p fp).2

  -- What holds of the new table, and of the old ones, holds of the tables that are present now.
  pub each_table :
      (P : ℕ → ℕ → Type 0)
      → P k p
      → ((i : ℕ) → i < 1024 → IsPresent s.mem pgdir i → P i (table s.mem pgdir i))
      → (i : ℕ) → i < 1024
      → IsPresent added pgdir i
      → P i (table added pgdir i)
  each_table P here there i li q = elim (ℕ_discrete i k) [
    | yes e ↦ subst (λ j. P j (table added pgdir j)) (sym e) (subst (P k) (sym added-table) here)
    | no ne ↦
        subst (λ e. P i (p2v (pte_addr e))) (sym (added_there i li ne))
          (there i li (subst (λ e. is_present e ≡ true) (added_there i li ne) q))
  ]

  -- Every word of the new table is 0, and those of the others are as before.
  pub added-entry : (u : ℕ) → entry added pgdir u ≡ entry s.mem pgdir u
  unfolding added
  added-entry u = elim (ℕ_discrete (pdx u) k) [
    | yes e ↦
        entry_present added pgdir u (subst (IsPresent added pgdir) (sym e) added-IsPresent)
        ∙ ap (λ i. get32 added (slot (table added pgdir i) (ptx u))) e
        ∙ ap (λ t. get32 added (slot t (ptx u))) added-table
        ∙ read_other (memset p 0 pgsize s.mem) (table_entry p) pgdir k p (ptx u) h.dir.0 fp lk
            (ptx-lt u) (inl λ f. np (sym f))
        ∙ read_cleared s.mem p (ptx u) (ptx-lt u)
        ∙ sym (
            entry_absent s.mem pgdir u
              (subst (λ i. is_present (dirent s.mem pgdir i) ≡ false) (sym e) absent))
    | no ne ↦ elim (Bool-cases (is_present (dirent s.mem pgdir (pdx u)))) [
      | inr q ↦
          entry_absent added pgdir u
            (subst (λ e. is_present e ≡ false) (sym (added_there (pdx u) (pdx-lt u) ne)) q)
          ∙ sym (entry_absent s.mem pgdir u q)
      | inl q ↦
          entry_present added pgdir u
            (subst (λ e. is_present e ≡ true) (sym (added_there (pdx u) (pdx-lt u) ne)) q)
          ∙ ap (λ e. get32 added (slot (p2v (pte_addr e)) (ptx u)))
              (added_there (pdx u) (pdx-lt u) ne)
          ∙ word_kept (pdx u) (pdx-lt u) q
          ∙ sym (entry_present s.mem pgdir u q)
    ]
  ]
    where
      word_kept :
          (i : ℕ)
          → i < 1024
          → IsPresent s.mem pgdir i
          → get32 added (slot (table s.mem pgdir i) (ptx u))
            ≡ get32 s.mem (slot (table s.mem pgdir i) (ptx u))
      word_kept i li q =
          let t = h.tables i li q in
          read_other (memset p 0 pgsize s.mem) (table_entry p) pgdir k _ (ptx u) h.dir.0 t.0 lk
            (ptx-lt u) (inl λ e. t.2 (sym e))
          ∙ read_uncleared s.mem p _ (ptx u) fp t.0 (ptx-lt u) (fresh i li q)
