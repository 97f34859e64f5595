-- ===== src/Vm/Mapping.antt =====
-- A round of `mappages` sets the entry of its page and no other.
use operating_systeams_proje.Prelude.{
  ℕ, ◌+◌, ◌*◌, ◌/◌, ◌%◌, ◌^◌, ◌<◌, ◌≡◌, inl, inr, sym, ◌∙◌, ap, subst, Bool, true, false, Option,
  none, some, ◌==◌, if◌then◌else◌, arith, if_true, if_false, Bool-cases, ==_ne, bit_or,
}
use operating_systeams_proje.Prelude.Or.{bit_or_fill, or-one}
use operating_systeams_proje.Prelude.Words.{get32, put32}
use operating_systeams_proje.Vm.{Ram, is_present, map_page, pte_p}
use operating_systeams_proje.Vm.Tables.{entry, IsSpace}
use operating_systeams_proje.Vm.Walk.{entry_present, store-IsSpace, store-entry}
use operating_systeams_proje.Vm.Grow.{HasRoom, walkpgdir-Walks}

-- `pa | perm | PTE_P`.
abbrev pub pte_of : ℕ → ℕ → ℕ
pte_of pa perm = bit_or (bit_or pa perm) pte_p

pub pte_of_value :
    (pa perm : ℕ) → pa % 4096 ≡ 0 → perm < 4096 → pte_of pa perm ≡ pa + perm / 2 * 2 + 1
pte_of_value pa perm al lp =
    let q : pa / 4096 * 2 ^ 12 ≡ pa = omega arith in
    let b : bit_or pa perm ≡ pa + perm =
      subst (λ x. bit_or x perm ≡ x + perm) q (bit_or_fill 12 (pa / 4096) perm (omega arith)) in
    or-one (bit_or pa perm) ∙ ap (λ x. x / 2 * 2 + 1) b ∙ omega arith

pte_of-lt : (pa perm : ℕ) → pa % 4096 ≡ 0 → pa < 2 ^ 32 → perm < 4096 → pte_of pa perm < 2 ^ 32
pte_of-lt pa perm al l lp = omega (arith, pte_of_value pa perm al lp)

-- One page: it was mapped before, or there is no page for its table, or it is mapped now.
abbrev pub MapsPage : Ram → ℕ → ℕ → ℕ → ℕ → Option (Bool × Ram) → Type 0
MapsPage s pgdir perm a pa none = is_present (entry s.mem pgdir a) ≡ true
MapsPage s pgdir perm a pa (some (false, t)) = (t ≡ s) × (s.kmem.freelist ≡ 0)
MapsPage s pgdir perm a pa (some (true, t)) =
    IsSpace t pgdir
    × (is_present (entry s.mem pgdir a) ≡ false)
    × ((u : ℕ)
        → u < 2 ^ 32
        → entry t.mem pgdir u
          ≡ (if u / 4096 == a / 4096 then pte_of pa perm else entry s.mem pgdir u))

-- The rest of the round once there is room at `r`.
set_page : ℕ → ℕ → ℕ → Ram → Option (Bool × Ram)
set_page pa perm r t =
    if is_present (get32 t.mem r)
    then none
    else some (true, record t { mem = put32 t.mem r (pte_of pa perm) })

set_page-MapsPage :
    (s : Ram) (pgdir perm a pa r : ℕ) (t : Ram)
    → pa % 4096 ≡ 0
    → pa < 2 ^ 32
    → perm < 4096
    → a < 2 ^ 32
    → HasRoom s pgdir a r t
    → MapsPage s pgdir perm a pa (set_page pa perm r t)
unfolding set_page
set_page-MapsPage s pgdir perm a pa r t al l lp la w =
    let old : get32 t.mem r ≡ entry s.mem pgdir a =
      ap (get32 t.mem) w.place ∙ sym (entry_present t.mem pgdir a w.present) ∙ w.same a in
    elim (Bool-cases (is_present (get32 t.mem r))) [
      | inl p ↦
          subst (MapsPage s pgdir perm a pa) (sym (if_true _ _ _ p))
            (subst (λ e. is_present e ≡ true) old p)
      | inr p ↦ subst (MapsPage s pgdir perm a pa) (sym (if_false _ _ _ p)) (
        subst (λ q. IsSpace (record t { mem = put32 t.mem q (pte_of pa perm) }) pgdir) (sym w.place)
            (store-IsSpace t pgdir a (pte_of pa perm) w.space w.present),
        subst (λ e. is_present e ≡ false) old p,
        λ u lu.
            subst
              (λ q.
                entry (put32 t.mem q (pte_of pa perm)) pgdir u
                ≡ (if u / 4096 == a / 4096 then pte_of pa perm else entry t.mem pgdir u))
              (sym w.place)
              (store-entry t pgdir a (pte_of pa perm) w.space w.present u
                (pte_of-lt pa perm al l lp) la lu)
            ∙ ap (λ e. if u / 4096 == a / 4096 then pte_of pa perm else e) (w.same u),
      )
    ]

pub map_page-MapsPage :
    (s : Ram) (pgdir perm a pa : ℕ)
    → pa % 4096 ≡ 0
    → pa < 2 ^ 32
    → perm < 4096
    → a < 2 ^ 32
    → IsSpace s pgdir
    → MapsPage s pgdir perm a pa (map_page pgdir perm a pa s)
unfolding map_page set_page
map_page-MapsPage s pgdir perm a pa al l lp la h = elim (walkpgdir-Walks s pgdir a h) [
  | inl (z, e, f) ↦ subst (MapsPage s pgdir perm a pa) (sym (if_true _ _ _ (null z))) (e, f)
  | inr w ↦
      subst (MapsPage s pgdir perm a pa) (sym (if_false _ _ _ (==_ne _ _ w.nonzero)))
        (set_page-MapsPage s pgdir perm a pa _ _ al l lp la w)
]
  where
    null : {x : ℕ} → x ≡ 0 → (x == 0) ≡ true
    null z = ground arith
