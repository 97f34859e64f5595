-- ===== src/Vm/Allocuvm.antt =====
-- The loop of `allocuvm`, and the size that it returns.
use operating_systeams_proje.Prelude.{
  ℕ, zero, suc, max, ◌+◌, ◌-◌, ◌*◌, ◌/◌, ◌%◌, ◌≤◌, ◌<◌, ◌≡◌, ◌≢◌, ◌⊎◌, inl, inr, refl, sym, ◌∙◌, ap,
  subst, true, false, Option, some, List, ◌∷◌, ◌==◌, ltb, leb, if_true, if_false, ==_ne, ltb→lt,
  arith, bit_or, Bool-cases,
}
use native.Mathlib.Decide.{ℕ_discrete}
use operating_systeams_proje.Prelude.Words.{word}
use operating_systeams_proje.Kalloc.{Kmem, kalloc, pgsize, kernbase, phystop}
use operating_systeams_proje.Kalloc.Pages.{IsChain}
use operating_systeams_proje.Vm.{
  Ram, v2p, pgroundup, pte_w, pte_u, mappages, alloc_page, alloc_rounds, allocuvm,
}
use operating_systeams_proje.Vm.Tables.{IsSpace}
use operating_systeams_proje.Vm.Room.{v2p-lt}
use operating_systeams_proje.Vm.Taken.{List-cases, is_frame, cleared-IsSpace, cleared_entry}
use operating_systeams_proje.Vm.Ranges.{MapsAll, mappages-MapsAll}
use operating_systeams_proje.Vm.Growth.{GrowsTo, Grows, Grows-none, undo-GrowsTo, after_map}

-- One page is mapped where the process's memory ends.
map_user :
    (r : Ram) (pgdir a pa : ℕ)
    → a % 4096 ≡ 0
    → a < kernbase
    → pa % 4096 ≡ 0
    → pa < phystop
    → IsSpace r pgdir
    → MapsAll r pgdir pa
        (bit_or pte_w pte_u)
        (a / 4096)
        1
        (mappages pgdir a pgsize pa (bit_or pte_w pte_u) r)
map_user r pgdir a pa al la alp lpa h =
    subst
      (λ n.
        MapsAll r pgdir pa (bit_or pte_w pte_u) (a / 4096) n
          (mappages pgdir a pgsize pa (bit_or pte_w pte_u) r))
      {x = (a + 4096 - 1) / 4096 + 1 - a / 4096} (omega arith)
      (mappages-MapsAll pgdir a pgsize pa (bit_or pte_w pte_u) r h (omega arith) (omega arith) alp
        (omega arith) (omega arith))

-- `kalloc` on a list that is empty, and on one that is not.
kalloc_cases :
    (k : Kmem)
    → ((kalloc k ≡ (0, k)) × (k.freelist ≡ 0))
      ⊎ ((kalloc k ≡ (k.freelist, record k { freelist = k.next k.freelist })) × (k.freelist ≢ 0))
unfolding kalloc
kalloc_cases k = elim (ℕ_discrete k.freelist 0) [
  | yes e ↦ let b : (k.freelist == 0) ≡ true = ground arith in inl (if_true _ _ _ b, e)
  | no ne ↦ inr (if_false _ _ _ (==_ne _ _ ne), ne)
]

head_cases :
    (s : Ram) (pgdir : ℕ) (h : IsSpace s pgdir)
    → s.kmem.freelist ≢ 0
    → (xs : List ℕ) × (h.free ≡ s.kmem.freelist ∷ xs)
head_cases s pgdir h ne = elim (List-cases h.free) [
  | inl e ↦ absurd (ne (subst (IsChain s.kmem.next s.kmem.freelist) e h.chain))
  | inr (x, xs, e) ↦
      let c = subst (IsChain s.kmem.next s.kmem.freelist) e h.chain in
      (xs, e ∙ ap (λ z. z ∷ xs) (sym c.0))
]

-- A round, when `rest` gives the process the other pages.
alloc_page-GrowsTo :
    (end pgdir oldsz newsz n a : ℕ) (rest : Ram → Option (ℕ × Ram)) (s : Ram)
    → a % 4096 ≡ 0
    → a < kernbase
    → IsSpace s pgdir
    → ((t : Ram) → IsSpace t pgdir → GrowsTo t pgdir (a / 4096 + 1) n newsz (rest t))
    → GrowsTo s pgdir
        (a / 4096)
        (suc n)
        newsz
        (alloc_page end pgdir oldsz newsz a rest (kalloc s.kmem) s)
unfolding alloc_page
alloc_page-GrowsTo end pgdir oldsz newsz n a rest s al la h k = elim (kalloc_cases s.kmem) [
  | inl (e, f) ↦ rw e (undo-GrowsTo end pgdir newsz oldsz (a / 4096) (suc n) s s)
  | inr (e, ne) ↦
      let f = s.kmem.freelist in
      let c = head_cases s pgdir h ne in
      let p = v2p-lt f (is_frame s pgdir h f c.0 c.1) in
      let b : (f == 0) ≡ false = ==_ne _ _ ne in
      subst
        (λ r.
          GrowsTo s pgdir (a / 4096) (suc n) newsz (alloc_page end pgdir oldsz newsz a rest r s))
        (sym e)
        (rw (alloc_page, b)
          (after_map s _ end f pgdir (v2p f) oldsz newsz (a / 4096) n rest p.1
            (cleared_entry s pgdir h f c.0 c.1) k _
            (map_user _ pgdir a (v2p f) al la p.1 p.0 (cleared-IsSpace s pgdir h f c.0 c.1))))
]

alloc_rounds-GrowsTo :
    (end pgdir oldsz newsz k a : ℕ) (s : Ram)
    → a % 4096 ≡ 0
    → a + k * 4096 < kernbase + 4096
    → IsSpace s pgdir
    → GrowsTo s pgdir (a / 4096) k newsz (alloc_rounds end pgdir oldsz newsz k a s)
unfolding alloc_rounds
alloc_rounds-GrowsTo end pgdir oldsz newsz zero a s al la h =
    λ ne. (refl, Grows-none s pgdir (a / 4096) h)
alloc_rounds-GrowsTo end pgdir oldsz newsz (suc k) a s al la h =
    let ea : word (a + pgsize) ≡ a + 4096 = omega arith in
    let ef : (a + 4096) / 4096 ≡ a / 4096 + 1 = omega arith in
    alloc_page-GrowsTo end pgdir oldsz newsz k a _ s al (omega arith) h (λ t ht.
      rw (ea, sym ef)
        (alloc_rounds-GrowsTo end pgdir oldsz newsz k (a + 4096) t (omega arith) (omega arith) ht))

-- `allocuvm` of a process whose directory, tables and free pages are all different: where it returns
-- a size other than 0, that is `newsz`, or `oldsz` where that is larger; the pages from the first one
-- at or above `oldsz` up to `newsz` are then present, writeable and open to the user, every other
-- entry is as it was, and directory, tables and free pages are still all different.
pub allocuvm-Grows :
    (end pgdir oldsz newsz : ℕ) (s t : Ram) (m : ℕ)
    → IsSpace s pgdir
    → oldsz < kernbase
    → allocuvm end pgdir oldsz newsz s ≡ some (m, t)
    → m ≢ 0
    → (m ≡ max newsz oldsz)
      × (newsz < kernbase)
      × Grows s pgdir ((oldsz + 4095) / 4096) ((newsz + 4095) / 4096 - (oldsz + 4095) / 4096) t
unfolding allocuvm
allocuvm-Grows end pgdir oldsz newsz s t m h lo e ne = elim (Bool-cases (leb kernbase newsz)) [
  | inl big ↦ absurd (ne (first_of (sym (if_true _ _ _ big) ∙ e)))
  | inr fits ↦
      let e1 = sym (if_false _ _ _ fits) ∙ e in
      let lt : newsz < kernbase = ground arith in
      elim (Bool-cases (ltb newsz oldsz)) [
        | inl less ↦ kept lt (ltb→lt _ _ less) (sym (if_true _ _ _ less) ∙ e1)
        | inr more ↦ grown lt (ground arith) (sym (if_false _ _ _ more) ∙ e1)
      ]
]
  where
    first_of : {n : ℕ} {v : Ram} → ◌≡◌ {A = Option (ℕ × Ram)} (some (n, v)) (some (m, t)) → m ≡ n
    first_of q = cc

    second_of : {n : ℕ} {v : Ram} → ◌≡◌ {A = Option (ℕ × Ram)} (some (n, v)) (some (m, t)) → v ≡ t
    second_of q = cc

    Result : Type 0
    Result =
        (m ≡ max newsz oldsz)
        × (newsz < kernbase)
        × Grows s pgdir ((oldsz + 4095) / 4096) ((newsz + 4095) / 4096 - (oldsz + 4095) / 4096) t

    kept :
        newsz < kernbase
        → newsz < oldsz
        → ◌≡◌ {A = Option (ℕ × Ram)} (some (oldsz, s)) (some (m, t))
        → Result
    kept lt less q =
        let z : 0 ≡ (newsz + 4095) / 4096 - (oldsz + 4095) / 4096 = omega arith in
        (
          omega (arith, first_of q),
          lt,
          subst
              (Grows s pgdir ((oldsz + 4095) / 4096)
                ((newsz + 4095) / 4096 - (oldsz + 4095) / 4096))
              (second_of q)
              (subst (λ n. Grows s pgdir ((oldsz + 4095) / 4096) n s) z
                (Grows-none s pgdir ((oldsz + 4095) / 4096) h)),
        )

    rounds : ℕ
    rounds = (newsz + (pgsize - 1) - pgroundup oldsz) / pgsize

    grown :
        newsz < kernbase
        → oldsz ≤ newsz
        → alloc_rounds end pgdir oldsz newsz rounds (pgroundup oldsz) s ≡ some (m, t)
        → Result
    grown lt more q =
        let g =
          subst (GrowsTo s pgdir (pgroundup oldsz / 4096) rounds newsz) q
            (alloc_rounds-GrowsTo end pgdir oldsz newsz rounds (pgroundup oldsz) s (omega arith)
              (omega arith) h)
            ne in
        (
          omega (arith, g.0),
          lt,
          subst (λ f. Grows s pgdir f ((newsz + 4095) / 4096 - (oldsz + 4095) / 4096) t)
              {x = pgroundup oldsz / 4096} (omega arith)
              (subst (λ n. Grows s pgdir (pgroundup oldsz / 4096) n t) {x = rounds} (omega arith)
                g.1),
        )
