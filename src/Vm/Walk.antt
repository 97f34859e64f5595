-- ===== src/Vm/Walk.antt =====
-- `walkpgdir` makes room for an entry without changing any, and a store through its result sets one.
use operating_systeams_proje.Prelude.{
  ℕ, ◌/◌, ◌^◌, ◌<◌, ◌≡◌, ◌≢◌, ◌⊎◌, inl, inr, sym, ◌∙◌, ap, subst, true, false, ◌==◌, if◌then◌else◌,
  arith, if_true, if_false, Bool-cases, mod-lt, ==_refl, ==_ne,
}
use native.Mathlib.Decide.{ℕ_discrete}
use operating_systeams_proje.Prelude.Words.{get32, put32, get32-put32}
use operating_systeams_proje.Strings.{Memory}
use operating_systeams_proje.Vm.{Ram, pdx, ptx, p2v, pte_addr, is_present}
use operating_systeams_proje.Vm.Tables.{
  slot, dirent, table, entry, IsPresent, IsSpace, IsSpace-same, read_other,
}

pub entry_present :
    (m : Memory) (pgdir va : ℕ)
    → IsPresent m pgdir (pdx va)
    → entry m pgdir va ≡ get32 m (slot (table m pgdir (pdx va)) (ptx va))
unfolding entry
entry_present m pgdir va p = if_true _ _ _ p

pub entry_absent :
    (m : Memory) (pgdir va : ℕ)
    → is_present (dirent m pgdir (pdx va)) ≡ false
    → entry m pgdir va ≡ 0
unfolding entry
entry_absent m pgdir va p = if_false _ _ _ p

pub pdx-lt : (va : ℕ) → pdx va < 1024
pdx-lt va = mod-lt (va / 2 ^ 22) (omega arith)

pub ptx-lt : (va : ℕ) → ptx va < 1024
ptx-lt va = mod-lt (va / 2 ^ 12) (omega arith)

-- The two indices determine the page.
page_indices :
    (a b : ℕ) → a < 2 ^ 32 → b < 2 ^ 32 → pdx a ≡ pdx b → ptx a ≡ ptx b → a / 4096 ≡ b / 4096
page_indices a b la lb p q = omega arith

module _ (s : Ram) (pgdir va v : ℕ) (h : IsSpace s pgdir) (p : IsPresent s.mem pgdir (pdx va)) where
  stored : Memory
  stored = put32 s.mem (slot (table s.mem pgdir (pdx va)) (ptx va)) v

  stored-dirent : (i : ℕ) → i < 1024 → dirent stored pgdir i ≡ dirent s.mem pgdir i
  unfolding stored
  stored-dirent i li =
      let t = h.tables (pdx va) (pdx-lt va) p in
      read_other s.mem v _ (ptx va) pgdir i t.0 h.dir.0 (ptx-lt va) li (inl t.2)

  pub store-IsSpace :
      IsSpace (record s { mem = put32 s.mem (slot (table s.mem pgdir (pdx va)) (ptx va)) v }) pgdir
  unfolding stored
  store-IsSpace = IsSpace-same s stored pgdir stored-dirent h

  stored-table : (i : ℕ) → i < 1024 → table stored pgdir i ≡ table s.mem pgdir i
  stored-table i li = ap (λ e. p2v (pte_addr e)) (stored-dirent i li)

  stored-entry :
      (u : ℕ)
      → IsPresent s.mem pgdir (pdx u)
      → entry stored pgdir u ≡ get32 stored (slot (table s.mem pgdir (pdx u)) (ptx u))
  stored-entry u q =
      entry_present stored pgdir u
        (subst (λ e. is_present e ≡ true) (sym (stored-dirent (pdx u) (pdx-lt u))) q)
      ∙ ap (λ t. get32 stored (slot t (ptx u))) (stored-table (pdx u) (pdx-lt u))

  stored_here : (u : ℕ) → v < 2 ^ 32 → pdx u ≡ pdx va → ptx u ≡ ptx va → entry stored pgdir u ≡ v
  unfolding stored
  stored_here u lv e f =
      stored-entry u (subst (IsPresent s.mem pgdir) (sym e) p)
      ∙ ap (λ i. get32 stored (slot (table s.mem pgdir i) (ptx u))) e
      ∙ ap (λ j. get32 stored (slot (table s.mem pgdir (pdx va)) j)) f
      ∙ get32-put32 s.mem _ v lv

  stored_there :
      (u : ℕ) → (pdx u ≢ pdx va) ⊎ (ptx u ≢ ptx va) → entry stored pgdir u ≡ entry s.mem pgdir u
  unfolding stored
  stored_there u ne = elim (Bool-cases (is_present (dirent s.mem pgdir (pdx u)))) [
    | inr q ↦
        entry_absent stored pgdir u
          (subst (λ e. is_present e ≡ false) (sym (stored-dirent (pdx u) (pdx-lt u))) q)
        ∙ sym (entry_absent s.mem pgdir u q)
    | inl q ↦
        stored-entry u q
        ∙ read_other s.mem v _ (ptx va) _ (ptx u) (h.tables (pdx va) (pdx-lt va) p).0
            (h.tables (pdx u) (pdx-lt u) q).0 (ptx-lt va) (ptx-lt u) (distinct q ne)
        ∙ sym (entry_present s.mem pgdir u q)
  ]
    where
      distinct :
          IsPresent s.mem pgdir (pdx u)
          → (pdx u ≢ pdx va) ⊎ (ptx u ≢ ptx va)
          → (table s.mem pgdir (pdx va) ≢ table s.mem pgdir (pdx u)) ⊎ (ptx va ≢ ptx u)
      distinct q (inl d) = inl λ e. d (sym (h.apart (pdx va) (pdx u) (pdx-lt va) (pdx-lt u) p q e))
      distinct q (inr d) = inr λ e. d (sym e)

  -- The store sets the entry of its own page, and no other.
  pub store-entry :
      (u : ℕ)
      → v < 2 ^ 32
      → va < 2 ^ 32
      → u < 2 ^ 32
      → entry (put32 s.mem (slot (table s.mem pgdir (pdx va)) (ptx va)) v) pgdir u
        ≡ (if u / 4096 == va / 4096 then v else entry s.mem pgdir u)
  unfolding stored
  store-entry u lv lva lu = elim (ℕ_discrete (u / 4096) (va / 4096)) [
    | yes e ↦
        stored_here u lv (omega arith) (omega arith)
        ∙ sym (if_true _ _ _ (subst (λ x. (u / 4096 == x) ≡ true) e (==_refl (u / 4096))))
    | no ne ↦ stored_there u (differ_somewhere ne) ∙ sym (if_false _ _ _ (==_ne _ _ ne))
  ]
    where
      differ_somewhere : u / 4096 ≢ va / 4096 → (pdx u ≢ pdx va) ⊎ (ptx u ≢ ptx va)
      differ_somewhere ne = elim (ℕ_discrete (pdx u) (pdx va)) [
        | yes e ↦ inr λ f. ne (page_indices u va lu lva e f)
        | no d ↦ inl d
      ]
