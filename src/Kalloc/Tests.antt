-- ===== src/Kalloc/Tests.antt =====
-- Two free pages; one is taken.
use operating_systeams_proje.Prelude.{refl, [], ◌∷◌, if◌then◌else◌, ◌==◌, arith}
use operating_systeams_proje.Prelude.Count.{count}
use operating_systeams_proje.Kalloc.{Kmem, kalloc}
use operating_systeams_proje.Kalloc.Pages.{Reach, here, next, allocs, IsDisjoint, Reach-IsDisjoint}

abbrev two_pages : Kmem
two_pages = record { next = λ p. if p == 0x80400000 then 0x80401000 else 0; freelist = 0x80400000 }

two_pages-IsDisjoint : IsDisjoint (record { kmem = two_pages; held = [] })
unfolding count
two_pages-IsDisjoint = record {
  free = 0x80400000 ∷ 0x80401000 ∷ [];
  chain = (refl, (λ e. omega arith), (refl, (λ e. omega arith), refl));
  once = λ x. ground arith;
  no_null = refl;
}

taken-Reach :
    Reach 0x80200000
      (record { kmem = two_pages; held = [] })
      (record { kmem = (kalloc two_pages).1; held = (kalloc two_pages).0 ∷ [] })
unfolding kalloc
taken-Reach = next here (allocs {k = two_pages} (λ e. omega arith))

Reach-IsDisjoint_example :
    IsDisjoint (record { kmem = (kalloc two_pages).1; held = (kalloc two_pages).0 ∷ [] })
Reach-IsDisjoint_example = Reach-IsDisjoint two_pages-IsDisjoint taken-Reach
