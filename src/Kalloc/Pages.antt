-- ===== src/Kalloc/Pages.antt =====
-- No page is handed out twice: the free pages and those that are held are all different.
use operating_systeams_proje.Prelude.{
  ℕ, ◌+◌, ◌≡◌, ◌≢◌, refl, sym, subst, ◌≤◌, Bool, true, false, List, [], ◌∷◌, ◌++◌, Option, none,
  some, ◌==◌, if◌then◌else◌, update, update_self, update_ne, arith,
}
use operating_systeams_proje.Prelude.Count.{count, count-append}
use operating_systeams_proje.Kalloc.{Kmem, kfree, kalloc}

-- The list that starts at `p` runs through exactly these pages.
abbrev pub IsChain : (ℕ → ℕ) → ℕ → List ℕ → Type 0
IsChain next p [] = p ≡ 0
IsChain next p (x ∷ xs) = (p ≡ x) × (x ≢ 0) × IsChain next (next x) xs

-- A store into a page that is not on the list leaves the list alone.
IsChain-update :
    (next : ℕ → ℕ) (v w p : ℕ) (xs : List ℕ)
    → count v xs ≡ 0
    → IsChain next p xs
    → IsChain (update next v w) p xs
unfolding count
IsChain-update next v w p [] a c = c
IsChain-update next v w p (x ∷ xs) a (e, nz, c) =
    let ne : x ≢ v = λ h. ground arith in
    let rest : count v xs ≡ 0 = ground arith in
    (
      e,
      nz,
      subst (λ q. IsChain (update next v w) q xs) (sym (update_ne next v x w ne))
          (IsChain-update next v w (next x) xs rest c),
    )

-- The allocator, and the pages that it has handed out.
pub record System : Type 0 where
  pub kmem : Kmem
  pub held : List ℕ

-- `kalloc` that finds a page, `kfree` of a page that is held, and a store into a page that is held.
pub data Call (end : ℕ) : System → System → Type 0 where
  allocs :
      {k : Kmem} {held : List ℕ}
      → (kalloc k).0 ≢ 0
      → Call end
          (record { kmem = k; held = held })
          (record { kmem = (kalloc k).1; held = (kalloc k).0 ∷ held })
  frees :
      {k r : Kmem} (before after : List ℕ) (v : ℕ)
      → kfree end v k ≡ some r
      → Call end
          (record { kmem = k; held = before ++ (v ∷ after) })
          (record { kmem = r; held = before ++ after })
  stores :
      {k : Kmem} (before after : List ℕ) (v w : ℕ)
      → Call end
          (record { kmem = k; held = before ++ (v ∷ after) })
          (record { kmem = record k { next = update k.next v w }; held = before ++ (v ∷ after) })

pub data Reach (end : ℕ) (s : System) : System → Type 0 where
  here : Reach end s s
  next : {t u : System} → Reach end s t → Call end t u → Reach end s u

-- The free list runs through pages; none of them is held, and no page is free or held twice.
pub record IsDisjoint (s : System) : Type 0 where
  pub free : List ℕ
  pub chain : IsChain s.kmem.next s.kmem.freelist free
  pub once : (x : ℕ) → count x free + count x s.held ≤ 1
  pub no_null : count 0 s.held ≡ 0

take-IsDisjoint :
    (k : Kmem) (held free : List ℕ)
    → IsChain k.next k.freelist free
    → ((x : ℕ) → count x free + count x held ≤ 1)
    → count 0 held ≡ 0
    → (kalloc k).0 ≢ 0
    → IsDisjoint (record { kmem = (kalloc k).1; held = (kalloc k).0 ∷ held })
unfolding kalloc count
take-IsDisjoint k held [] c once nn ne = absurd (ne (ground (arith, c)))
take-IsDisjoint k held (x ∷ xs) (e, nz, c) once nn ne =
    let b : (k.freelist == 0) ≡ false = ground arith in
    rw b (record {
      free = xs;
      chain = subst (λ q. IsChain k.next (k.next q) xs) (sym e) c;
      once = λ y. ground (arith, once y, e);
      no_null = ground arith;
    })

else_some :
    (b : Bool) {u r : Kmem} → ◌≡◌ {A = Option Kmem} (if b then none else some u) (some r) → u ≡ r
else_some true e = absurd (cc)
else_some false e = cc

freed-IsDisjoint :
    (v : ℕ) (k : Kmem) (before after : List ℕ)
    → IsDisjoint (record { kmem = k; held = before ++ (v ∷ after) })
    → IsDisjoint (record {
      kmem = record { next = update k.next v k.freelist; freelist = v };
      held = before ++ after;
    })
unfolding count
freed-IsDisjoint v k before after d =
    let nz : v ≢ 0 = λ h. ground (arith, d.no_null, count-append 0 before (v ∷ after)) in
    let apart : count v d.free ≡ 0 = ground (arith, d.once v, count-append v before (v ∷ after)) in
    record {
      free = v ∷ d.free;
      chain = (
        refl,
        nz,
        subst (λ q. IsChain (update k.next v k.freelist) q d.free)
            (sym (update_self k.next v k.freelist))
            (IsChain-update k.next v k.freelist k.freelist d.free apart d.chain),
      );
      once = λ x.
          ground (arith, d.once x, count-append x before (v ∷ after), count-append x before after);
      no_null =
          ground (arith, d.no_null, count-append 0 before (v ∷ after), count-append 0 before after);
    }

free-IsDisjoint :
    (end v : ℕ) (k r : Kmem) (before after : List ℕ)
    → kfree end v k ≡ some r
    → IsDisjoint (record { kmem = k; held = before ++ (v ∷ after) })
    → IsDisjoint (record { kmem = r; held = before ++ after })
unfolding kfree
free-IsDisjoint end v k r before after e d =
    subst (λ q. IsDisjoint (record { kmem = q; held = before ++ after })) (else_some _ e)
      (freed-IsDisjoint v k before after d)

store-IsDisjoint :
    (v w : ℕ) (k : Kmem) (before after : List ℕ)
    → IsDisjoint (record { kmem = k; held = before ++ (v ∷ after) })
    → IsDisjoint
        (record { kmem = record k { next = update k.next v w }; held = before ++ (v ∷ after) })
unfolding count
store-IsDisjoint v w k before after d = record {
  free = d.free;
  chain =
      IsChain-update k.next v w k.freelist d.free
        (ground (arith, d.once v, count-append v before (v ∷ after))) d.chain;
  once = d.once;
  no_null = d.no_null;
}

Call-IsDisjoint : {end : ℕ} {s t : System} → Call end s t → IsDisjoint s → IsDisjoint t
Call-IsDisjoint (allocs {k = k} {held = held} ne) d =
    take-IsDisjoint k held d.free d.chain d.once d.no_null ne
Call-IsDisjoint {end = end} (frees {k = k} {r = r} before after v e) d =
    free-IsDisjoint end v k r before after e d
Call-IsDisjoint (stores {k = k} before after v w) d = store-IsDisjoint v w k before after d

-- After any sequence of calls of `kalloc`, of `kfree` on pages that are held, and of stores into pages
-- that are held, from a state in which it holds: the free list runs through pages, none of which is
-- held, and no page is free twice or held twice. So `kalloc` never hands out a page that is in use.
pub Reach-IsDisjoint : {end : ℕ} {s t : System} → IsDisjoint s → Reach end s t → IsDisjoint t
Reach-IsDisjoint d here = d
Reach-IsDisjoint d (next r c) = Call-IsDisjoint c (Reach-IsDisjoint d r)
