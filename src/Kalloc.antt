-- ===== src/Kalloc.antt =====
-- The page allocator of kalloc.c. A page is named by its address; `next` is the word that a free page
-- holds. `end` is the first address after the kernel, and the junk that `kfree` fills a page with is
-- left out. The lock is left out.
pub mod Pages
mod Tests
use operating_systeams_proje.Prelude.{
  ℕ, ◌+◌, ◌-◌, ◌%◌, ◌^◌, not, ◌||◌, Option, none, some, ◌==◌, ltb, leb, if◌then◌else◌, update,
}
use operating_systeams_proje.Prelude.Words.{word}

abbrev pub pgsize : ℕ
pgsize = 4096

-- `KERNBASE` and `PHYSTOP` of memlayout.h.
abbrev pub kernbase : ℕ
kernbase = 0x80000000

abbrev pub phystop : ℕ
phystop = 0xE000000

-- A null `freelist` is 0.
pub record Kmem : Type 0 where
  pub next : ℕ → ℕ
  pub freelist : ℕ

-- `none` is the panic.
unfoldable pub kfree : ℕ → ℕ → Kmem → Option Kmem
kfree end v k =
    if not (v % pgsize == 0) || (ltb v end || leb phystop (word (v + 2 ^ 32 - kernbase)))
    then none
    else some (record { next = update k.next v k.freelist; freelist = v })

-- The page, 0 if there is none.
unfoldable pub kalloc : Kmem → ℕ × Kmem
kalloc k =
    if k.freelist == 0 then (0, k) else (k.freelist, record k { freelist = k.next k.freelist })
