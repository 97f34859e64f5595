-- ===== src/Vm/Tests.antt =====
-- Runs of vm.c on a directory without tables, with a list of three free pages.
use operating_systeams_proje.Prelude.{
  ℕ, ◌<◌, max, ◌≡◌, ◌≢◌, refl, none, some, [], ◌∷◌, ◌==◌, if◌then◌else◌, arith,
}
use operating_systeams_proje.Prelude.Count.{count}
use operating_systeams_proje.Prelude.Words.{get32, put32}
use operating_systeams_proje.Kalloc.{kfree, kalloc, kernbase}
use operating_systeams_proje.Vm.{
  Ram, walkpgdir, map_page, map_rounds, mappages, unmap_rounds, deallocuvm, alloc_page,
  alloc_rounds, allocuvm,
}
use operating_systeams_proje.Vm.Tables.{IsFrame, IsPresent, IsSpace}
use operating_systeams_proje.Vm.Ranges.{MapsAll, mappages-MapsAll}
use operating_systeams_proje.Vm.Growth.{Grows}
use operating_systeams_proje.Vm.Allocuvm.{allocuvm-Grows}

abbrev page1 : ℕ
page1 = 0x80100000

abbrev page2 : ℕ
page2 = 0x80101000

abbrev page3 : ℕ
page3 = 0x80102000

abbrev directory : ℕ
directory = 0x80200000

abbrev bare : Ram
bare = record {
  mem = λ a. 0;
  kmem = record {
    next = λ p. if p == page1 then page2 else if p == page2 then page3 else 0;
    freelist = page1;
  };
}

bare_frames : (x : ℕ) → count x (page1 ∷ page2 ∷ page3 ∷ []) ≢ 0 → IsFrame x
unfolding count
bare_frames x h = ground arith

bare_absent : (i : ℕ) → IsPresent bare.mem directory i → ⊥
unfolding get32
bare_absent i p = absurd (cc)

bare-IsSpace : IsSpace bare directory
unfolding count
bare-IsSpace = record {
  free = page1 ∷ page2 ∷ page3 ∷ [];
  chain = (
    refl,
    λ e. absurd (omega arith),
    (refl, λ e. absurd (omega arith), (refl, λ e. absurd (omega arith), refl)),
  );
  once = λ x. ground arith;
  frames = bare_frames;
  dir = ((refl, omega arith, omega arith), refl);
  tables = λ i li p. absurd (bare_absent i p);
  apart = λ i j li lj p q e. absurd (bare_absent i p);
}

-- The process gets two pages; the third free page becomes their table.
abbrev grown : Ram
grown = elim (allocuvm page1 directory 0 5000 bare) [ none ↦ bare | some (n, t) ↦ t ]

grown_run : allocuvm page1 directory 0 5000 bare ≡ some (5000, grown)
unfolding allocuvm alloc_rounds alloc_page mappages map_rounds map_page walkpgdir kalloc get32 put32
grown_run = refl

allocuvm-Grows_example : (5000 ≡ max 5000 0) × (5000 < kernbase) × Grows bare directory 0 2 grown
allocuvm-Grows_example =
    allocuvm-Grows page1 directory 0 5000 bare grown 5000 bare-IsSpace (omega arith) grown_run
      (λ e. absurd (omega arith))

mappages-MapsAll_example :
    MapsAll bare directory 0x200000 6 1023 3 (mappages directory 0x3FF100 8192 0x200000 6 bare)
mappages-MapsAll_example =
    mappages-MapsAll directory 0x3FF100 8192 0x200000 6 bare bare-IsSpace (omega arith)
      (omega arith) refl (omega arith) (omega arith)

abbrev after_full : Ram
after_full = elim (allocuvm page1 directory 0 (20000) bare) [ none ↦ bare | some (n, t) ↦ t ]

-- Not enough pages are free, and the two that were mapped are given back.
full : allocuvm page1 directory 0 (20000) bare ≡ some (0, after_full)
unfolding allocuvm alloc_rounds alloc_page mappages map_rounds map_page walkpgdir kalloc kfree
    deallocuvm unmap_rounds get32 put32
full = refl
