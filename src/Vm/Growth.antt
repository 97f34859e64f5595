-- ===== src/Vm/Growth.antt =====
-- `allocuvm` maps the new pages of a process and leaves the others alone.
use operating_systeams_proje.Prelude.{
  ℕ, suc, ◌+◌, ◌-◌, ◌*◌, ◌/◌, ◌%◌, ◌^◌, ◌<◌, ◌≡◌, ◌≢◌, inl, inr, refl, sym, ◌∙◌, subst, Bool, true,
  false, ◌&&◌, Option, none, some, ltb, leb, if_true, if_false, arith, bit_or, Bool-cases,
}
use operating_systeams_proje.Kalloc.{Kmem, kfree}
use operating_systeams_proje.Vm.{Ram, pte_w, pte_u, undo, deallocuvm}
use operating_systeams_proje.Vm.Tables.{entry, IsSpace}
use operating_systeams_proje.Vm.Mapping.{pte_of, pte_of_value}
use operating_systeams_proje.Vm.Ranges.{Maps, MapsAll}

-- Page `u` lies in the `n` pages from `f` on.
abbrev pub among : ℕ → ℕ → ℕ → Bool
among f n u = leb f (u / 4096) && ltb (u / 4096) (f + n)

-- The flags present, writeable and user are set.
abbrev pub IsUserPage : ℕ → Type 0
IsUserPage e = e % 8 ≡ 7

-- `n` pages from page `f` on are the process's, and every other entry is the one of `s`.
pub record Grows (s : Ram) (pgdir f n : ℕ) (t : Ram) : Type 0 where
  pub space : IsSpace t pgdir
  pub given : (u : ℕ) → u < 2 ^ 32 → among f n u ≡ true → IsUserPage (entry t.mem pgdir u)
  pub others :
      (u : ℕ) → u < 2 ^ 32 → among f n u ≡ false → entry t.mem pgdir u ≡ entry s.mem pgdir u

pub Grows-none : (s : Ram) (pgdir f : ℕ) → IsSpace s pgdir → Grows s pgdir f 0 s
Grows-none s pgdir f h = record {
  space = h;
  given = λ u lu p. absurd (ground arith);
  others = λ u lu p. refl;
}

user_flags : (pa : ℕ) → pa % 4096 ≡ 0 → IsUserPage (pte_of pa (bit_or pte_w pte_u))
user_flags pa al = omega (arith, pte_of_value pa 6 al (omega arith))

-- One page mapped, and the `n` after it.
Grows-suc :
    (s r t v : Ram) (pgdir pa f n : ℕ)
    → pa % 4096 ≡ 0
    → ((u : ℕ) → entry r.mem pgdir u ≡ entry s.mem pgdir u)
    → Maps r pgdir pa (bit_or pte_w pte_u) f 1 t
    → Grows t pgdir (f + 1) n v
    → Grows s pgdir f (suc n) v
Grows-suc s r t v pgdir pa f n al same m g = record {
  space = g.space;
  given = λ u lu p. elim (Bool-cases (among (f + 1) n u)) [
    | inl q ↦ g.given u lu q
    | inr q ↦
        let here : u / 4096 ≡ f = ground arith in
        subst IsUserPage (sym (g.others u lu q ∙ m.entries u lu ∙ if_true _ _ _ (first u here)))
          (user_flags (pa + (u / 4096 - f) * 4096) (omega arith))
  ];
  others =
      λ u lu p. g.others u lu (later u p) ∙ m.entries u lu ∙ if_false _ _ _ (single u p) ∙ same u;
}
  where
    first : (u : ℕ) → u / 4096 ≡ f → among f 1 u ≡ true
    first u e = ground arith

    later : (u : ℕ) → among f (suc n) u ≡ false → among (f + 1) n u ≡ false
    later u p = ground arith

    single : (u : ℕ) → among f (suc n) u ≡ false → among f 1 u ≡ false
    single u p = ground arith

-- What is known when a size other than 0 is returned.
abbrev pub GrowsTo : Ram → ℕ → ℕ → ℕ → ℕ → Option (ℕ × Ram) → Type 0
GrowsTo s pgdir f n newsz none = Unit
GrowsTo s pgdir f n newsz (some (m, t)) = m ≢ 0 → (m ≡ newsz) × Grows s pgdir f n t

pub undo-GrowsTo :
    (end pgdir newsz oldsz f n : ℕ) (s t : Ram)
    → GrowsTo s pgdir f n newsz (undo end pgdir newsz oldsz t)
undo-GrowsTo end pgdir newsz oldsz f n s t = go (deallocuvm end pgdir newsz oldsz t)
  where
    go :
        (o : Option (ℕ × Ram))
        → GrowsTo s pgdir f n newsz (elim o [ none ↦ none | some (m, u) ↦ some (0, u) ])
    go none = tt
    go (some (m, u)) = λ ne. absurd (ne refl)

-- The undoing after a page that could not be mapped.
freed-GrowsTo :
    (end mem pgdir newsz f n : ℕ) (s : Ram) (o : Option (ℕ × Ram))
    → GrowsTo s pgdir f n newsz o
    → ((m : ℕ) (u : Ram) → o ≡ some (m, u) → m ≡ 0)
    → GrowsTo s pgdir f n newsz (elim o [
      | none ↦ none
      | some (m, u) ↦ elim (kfree end mem u.kmem) [
        | none ↦ none
        | some r ↦ some (m, record u { kmem = r })
      ]
    ])
freed-GrowsTo end mem pgdir newsz f n s none g z = tt
freed-GrowsTo end mem pgdir newsz f n s (some (m, u)) g z = go (kfree end mem u.kmem)
  where
    go :
        (o : Option Kmem)
        → GrowsTo s pgdir f n newsz
            (elim o [ none ↦ none | some r ↦ some (m, record u { kmem = r }) ])
    go none = tt
    go (some r) = λ ne. absurd (ne (z m u refl))

undo_zero :
    (end pgdir newsz oldsz : ℕ) (t : Ram) (m : ℕ) (u : Ram)
    → undo end pgdir newsz oldsz t ≡ some (m, u)
    → m ≡ 0
undo_zero end pgdir newsz oldsz t m u = go (deallocuvm end pgdir newsz oldsz t)
  where
    go :
        (o : Option (ℕ × Ram))
        → ◌≡◌ {A = Option (ℕ × Ram)}
            (elim o [ none ↦ none | some (k, v) ↦ some (0, v) ])
            (some (m, u))
        → m ≡ 0
    go none e = absurd (cc)
    go (some (k, v)) e = cc

suc_result :
    (s r t : Ram) (pgdir pa f n newsz : ℕ)
    → pa % 4096 ≡ 0
    → ((u : ℕ) → entry r.mem pgdir u ≡ entry s.mem pgdir u)
    → Maps r pgdir pa (bit_or pte_w pte_u) f 1 t
    → (o : Option (ℕ × Ram)) → GrowsTo t pgdir (f + 1) n newsz o
    → GrowsTo s pgdir f (suc n) newsz o
suc_result s r t pgdir pa f n newsz al same m none g = tt
suc_result s r t pgdir pa f n newsz al same m (some (k, v)) g =
    λ ne. let q = g ne in (q.0, Grows-suc s r t v pgdir pa f n al same m q.1)

-- What follows the call of `mappages`.
pub after_map :
    (s r : Ram) (end mem pgdir pa oldsz newsz f n : ℕ) (rest : Ram → Option (ℕ × Ram))
    → pa % 4096 ≡ 0
    → ((u : ℕ) → entry r.mem pgdir u ≡ entry s.mem pgdir u)
    → ((t : Ram) → IsSpace t pgdir → GrowsTo t pgdir (f + 1) n newsz (rest t))
    → (o : Option (Bool × Ram)) → MapsAll r pgdir pa (bit_or pte_w pte_u) f 1 o
    → GrowsTo s pgdir f (suc n) newsz (elim o [
      | none ↦ none
      | some (true, t) ↦ rest t
      | some (false, t) ↦ elim (undo end pgdir newsz oldsz t) [
        | none ↦ none
        | some (m, u) ↦ elim (kfree end mem u.kmem) [
          | none ↦ none
          | some k ↦ some (m, record u { kmem = k })
        ]
      ]
    ])
after_map s r end mem pgdir pa oldsz newsz f n rest al same k none m = tt
after_map s r end mem pgdir pa oldsz newsz f n rest al same k (some (true, t)) m =
    suc_result s r t pgdir pa f n newsz al same m (rest t) (k t m.space)
after_map s r end mem pgdir pa oldsz newsz f n rest al same k (some (false, t)) m =
    freed-GrowsTo end mem pgdir newsz f (suc n) s (undo end pgdir newsz oldsz t)
      (undo-GrowsTo end pgdir newsz oldsz f (suc n) s t) (undo_zero end pgdir newsz oldsz t)
