-- ===== src/Vm/Ranges.antt =====
-- `mappages` sets the entries of its pages, in order, and no other.
use operating_systeams_proje.Prelude.{
  ℕ, zero, suc, ◌+◌, ◌-◌, ◌*◌, ◌/◌, ◌%◌, ◌^◌, ◌≤◌, ◌<◌, ◌≡◌, ◌≢◌, sym, ◌∙◌, ap, subst, Bool, true,
  false, ◌&&◌, Option, none, some, ◌==◌, ltb, leb, if◌then◌else◌, if_false, ==_ne, arith,
}
use native.Mathlib.Decide.{ℕ_discrete}
use operating_systeams_proje.Prelude.Words.{word}
use operating_systeams_proje.Kalloc.{pgsize}
use operating_systeams_proje.Vm.{Ram, is_present, map_rounds, mappages, pgrounddown}
use operating_systeams_proje.Vm.Tables.{entry, entry_page, IsSpace}
use operating_systeams_proje.Vm.Mapping.{pte_of, MapsPage, map_page-MapsPage}

-- The entries `old`, with `n` pages from page `f` on mapped to the memory at `pa`.
abbrev pub mapped : (ℕ → ℕ) → ℕ → ℕ → ℕ → ℕ → ℕ → ℕ
mapped old pa perm f n u =
    if leb f (u / 4096) && ltb (u / 4096) (f + n)
    then pte_of (pa + (u / 4096 - f) * 4096) perm
    else old u

-- In `t` the entries are those of `s` with the first `n` pages mapped, and none of those was before.
pub record Maps (s : Ram) (pgdir pa perm f n : ℕ) (t : Ram) : Type 0 where
  pub space : IsSpace t pgdir
  pub new :
      (u : ℕ)
      → u < 2 ^ 32
      → f ≤ u / 4096
      → u / 4096 < f + n
      → is_present (entry s.mem pgdir u) ≡ false
  pub entries :
      (u : ℕ) → u < 2 ^ 32 → entry t.mem pgdir u ≡ mapped (entry s.mem pgdir) pa perm f n u

-- All `n` pages are mapped; or a page for a table was missing after the first few; or one of them was
-- mapped already.
abbrev pub MapsAll : Ram → ℕ → ℕ → ℕ → ℕ → ℕ → Option (Bool × Ram) → Type 0
MapsAll s pgdir pa perm f n none =
    (u : ℕ) × (u < 2 ^ 32)
    × (f ≤ u / 4096)
    × (u / 4096 < f + n)
    × (is_present (entry s.mem pgdir u) ≡ true)
MapsAll s pgdir pa perm f n (some (true, t)) = Maps s pgdir pa perm f n t
MapsAll s pgdir pa perm f n (some (false, t)) =
    (j : ℕ) × (j < n) × (t.kmem.freelist ≡ 0) × Maps s pgdir pa perm f j t

mapped_none : (old : ℕ → ℕ) (pa perm f u : ℕ) → old u ≡ mapped old pa perm f 0 u
mapped_none old pa perm f u = ground arith

pick_suc :
    (pte : ℕ → ℕ) (pa q f n x y : ℕ)
    → x ≡ (if q == f then pte pa else y)
    → (if leb (f + 1) q && ltb q (f + 1 + n) then pte (pa + 4096 + (q - (f + 1)) * 4096) else x)
      ≡ (if leb f q && ltb q (f + suc n) then pte (pa + (q - f) * 4096) else y)
pick_suc pte pa q f n x y e = elim (ℕ_discrete q f) [
  | yes h ↦ let z : pte pa ≡ pte (pa + (q - f) * 4096) = ap pte (omega arith) in ground arith
  | no h ↦
      let w : f + 1 ≤ q → pte (pa + 4096 + (q - (f + 1)) * 4096) ≡ pte (pa + (q - f) * 4096) =
        λ l. ap pte (omega arith) in
      ground arith
]

-- The first page, then the others.
mapped-suc :
    (old next : ℕ → ℕ) (pa perm f n u : ℕ)
    → next u ≡ (if u / 4096 == f then pte_of pa perm else old u)
    → mapped next (pa + 4096) perm (f + 1) n u ≡ mapped old pa perm f (suc n) u
mapped-suc old next pa perm f n u e =
    pick_suc (λ x. pte_of x perm) pa (u / 4096) f n (next u) (old u) e

Maps-none : (s : Ram) (pgdir pa perm f : ℕ) → IsSpace s pgdir → Maps s pgdir pa perm f 0 s
Maps-none s pgdir pa perm f h = record {
  space = h;
  new = λ u lu lo hi. absurd (omega arith);
  entries = λ u lu. mapped_none (entry s.mem pgdir) pa perm f u;
}

-- One page and the `n` that follow it.
Maps-suc :
    (s t v : Ram) (pgdir pa perm a n : ℕ)
    → MapsPage s pgdir perm a pa (some (true, t))
    → Maps t pgdir (pa + 4096) perm (a / 4096 + 1) n v
    → Maps s pgdir pa perm (a / 4096) (suc n) v
Maps-suc s t v pgdir pa perm a n (h, fresh, one) m = record {
  space = m.space;
  new = λ u lu lo hi. elim (ℕ_discrete (u / 4096) (a / 4096)) [
    | yes e ↦ subst (λ x. is_present x ≡ false) (sym (entry_page s.mem pgdir u a e)) fresh
    | no ne ↦
        subst (λ x. is_present x ≡ false) (one u lu ∙ if_false _ _ _ (==_ne _ _ ne))
          (m.new u lu (omega arith) (omega arith))
  ];
  entries = λ u lu.
      m.entries u lu
      ∙ mapped-suc (entry s.mem pgdir) (entry t.mem pgdir) pa perm (a / 4096) n u (one u lu);
}

-- What the rounds after the first one do, seen from before it.
later_rounds :
    (s t : Ram) (pgdir pa perm a n : ℕ)
    → MapsPage s pgdir perm a pa (some (true, t))
    → (r : Option (Bool × Ram)) → MapsAll t pgdir (pa + 4096) perm (a / 4096 + 1) n r
    → MapsAll s pgdir pa perm (a / 4096) (suc n) r
later_rounds s t pgdir pa perm a n one none (u, lu, lo, hi, p) = (
  u,
  lu,
  omega arith,
  omega arith,
  subst (λ x. is_present x ≡ true) (one.2 u lu ∙ if_false _ _ _ (==_ne _ _ (not_first lo))) p,
)
  where
    not_first : {q f : ℕ} → f + 1 ≤ q → q ≢ f
    not_first l e = absurd (omega arith)
later_rounds s t pgdir pa perm a n one (some (true, v)) m = Maps-suc s t v pgdir pa perm a n one m
later_rounds s t pgdir pa perm a n one (some (false, v)) (j, lj, full, m) =
    (suc j, omega arith, full, Maps-suc s t v pgdir pa perm a j one m)

-- A round of its own.
one_round :
    (s : Ram) (pgdir pa perm a : ℕ)
    → a < 2 ^ 32
    → IsSpace s pgdir
    → (r : Option (Bool × Ram)) → MapsPage s pgdir perm a pa r
    → MapsAll s pgdir pa perm (a / 4096) 1 r
one_round s pgdir pa perm a la h none p = (a, la, omega arith, omega arith, p)
one_round s pgdir pa perm a la h (some (false, t)) (e, f) = (
  0,
  omega arith,
  subst (λ q. q.kmem.freelist ≡ 0) (sym e) f,
  subst (Maps s pgdir pa perm (a / 4096) 0) (sym e) (Maps-none s pgdir pa perm (a / 4096) h),
)
one_round s pgdir pa perm a la h (some (true, t)) m =
    Maps-suc s t t pgdir pa perm a 0 m (Maps-none t pgdir (pa + 4096) perm (a / 4096 + 1) m.0)

-- A round, and what follows it.
then_rounds :
    (s : Ram) (pgdir pa perm a n : ℕ) (rest : Ram → Option (Bool × Ram))
    → a < 2 ^ 32
    → IsSpace s pgdir
    → ((t : Ram) → IsSpace t pgdir → MapsAll t pgdir (pa + 4096) perm (a / 4096 + 1) n (rest t))
    → (r : Option (Bool × Ram)) → MapsPage s pgdir perm a pa r
    → MapsAll s pgdir pa perm
        (a / 4096)
        (suc n)
        (elim r [ none ↦ none | some (false, t) ↦ some (false, t) | some (true, t) ↦ rest t ])
then_rounds s pgdir pa perm a n rest la h k none p = (a, la, omega arith, omega arith, p)
then_rounds s pgdir pa perm a n rest la h k (some (false, t)) (e, f) = (
  0,
  omega arith,
  subst (λ q. q.kmem.freelist ≡ 0) (sym e) f,
  subst (Maps s pgdir pa perm (a / 4096) 0) (sym e) (Maps-none s pgdir pa perm (a / 4096) h),
)
then_rounds s pgdir pa perm a n rest la h k (some (true, t)) m =
    later_rounds s t pgdir pa perm a n m (rest t) (k t m.0)

map_rounds-MapsAll :
    (pgdir perm k a pa : ℕ) (s : Ram)
    → a % 4096 ≡ 0
    → pa % 4096 ≡ 0
    → perm < 4096
    → a + k * 4096 < 2 ^ 32
    → pa + k * 4096 < 2 ^ 32
    → IsSpace s pgdir
    → MapsAll s pgdir pa perm (a / 4096) (suc k) (map_rounds pgdir perm k a pa s)
unfolding map_rounds
map_rounds-MapsAll pgdir perm zero a pa s al alp lp la lpa h =
    one_round s pgdir pa perm a (omega arith) h _
      (map_page-MapsPage s pgdir perm a pa alp (omega arith) lp (omega arith) h)
map_rounds-MapsAll pgdir perm (suc k) a pa s al alp lp la lpa h =
    let ea : word (a + pgsize) ≡ a + 4096 = omega arith in
    let ep : word (pa + pgsize) ≡ pa + 4096 = omega arith in
    let ef : (a + 4096) / 4096 ≡ a / 4096 + 1 = omega arith in
    then_rounds s pgdir pa perm a (suc k) _ (omega arith) h
      (λ t ht.
        rw (ea, ep, sym ef)
          (map_rounds-MapsAll pgdir perm k (a + 4096) (pa + 4096) t (omega arith) (omega arith) lp
            (omega arith) (omega arith) ht))
      _ (map_page-MapsPage s pgdir perm a pa alp (omega arith) lp (omega arith) h)

-- `mappages` in a space whose directory, tables and free pages are all different, for a range that is
-- not empty and does not wrap, with page-aligned `pa` and flags: 0 is returned with exactly the pages
-- that the range touches mapped to consecutive pages of memory from `pa`, none of which was mapped
-- before, and every other entry as it was; -1 only when no page is free, with the first few of them
-- mapped; and the panic means that a page of the range was mapped already.
pub mappages-MapsAll :
    (pgdir va size pa perm : ℕ) (s : Ram)
    → IsSpace s pgdir
    → 0 < size
    → va + size ≤ 2 ^ 32
    → pa % 4096 ≡ 0
    → pa + (va % 4096 + size) ≤ 2 ^ 32
    → perm < 4096
    → MapsAll s pgdir pa perm
        (va / 4096)
        ((va + size - 1) / 4096 + 1 - va / 4096)
        (mappages pgdir va size pa perm s)
unfolding mappages
mappages-MapsAll pgdir va size pa perm s h ls lv al lpa lp =
    let last : word (va + size + 2 ^ 32 - 1) ≡ va + size - 1 = omega arith in
    let k = (va + size - 1) / 4096 - va / 4096 in
    let rounds : word (pgrounddown (va + size - 1) + 2 ^ 32 - pgrounddown va) / pgsize ≡ k =
      omega arith in
    let pages : (va + size - 1) / 4096 + 1 - va / 4096 ≡ suc k = omega arith in
    let first : pgrounddown va / 4096 ≡ va / 4096 = omega arith in
    rw (last, rounds, pages)
      (subst
        (λ f. MapsAll s pgdir pa perm f (suc k) (map_rounds pgdir perm k (pgrounddown va) pa s))
        first
        (map_rounds-MapsAll pgdir perm k (pgrounddown va) pa s (omega arith) al lp (omega arith)
          (omega arith) h))
