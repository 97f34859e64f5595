-- ===== src/Vm.antt =====
-- vm.c: the two-level page tables. Memory is a function from the kernel's virtual address to the byte,
-- in which tables are held as little-endian words; the free pages are those of `Kalloc`. `none` is a
-- panic. `memset` is two assembly loops, so what it stores is written down at once.
pub mod Tables
pub mod Walk
pub mod Room
pub mod Taken
pub mod Grow
pub mod Mapping
pub mod Ranges
pub mod Users
pub mod Growth
pub mod Allocuvm
mod Tests
use operating_systeams_proje.Prelude.{
  ℕ, zero, suc, ◌+◌, ◌-◌, ◌*◌, ◌/◌, ◌%◌, ◌^◌, Bool, true, false, not, ◌&&◌, Option, none, some,
  ◌==◌, ltb, leb, if◌then◌else◌, bit_or,
}
use operating_systeams_proje.Prelude.Words.{word, get32, put32}
use operating_systeams_proje.Strings.{Memory}
use operating_systeams_proje.Kalloc.{Kmem, kfree, kalloc, pgsize, kernbase}

pub record Ram : Type 0 where
  pub mem : Memory
  pub kmem : Kmem

-- `PDX` and `PTX` of mmu.h.
abbrev pub pdx : ℕ → ℕ
pdx va = va / 2 ^ 22 % 1024

abbrev pub ptx : ℕ → ℕ
ptx va = va / 2 ^ 12 % 1024

-- `V2P` and `P2V` of memlayout.h.
abbrev pub v2p : ℕ → ℕ
v2p a = word (a + 2 ^ 32 - kernbase)

abbrev pub p2v : ℕ → ℕ
p2v a = word (a + kernbase)

abbrev pub pgrounddown : ℕ → ℕ
pgrounddown a = a / pgsize * pgsize

abbrev pub pgroundup : ℕ → ℕ
pgroundup a = word (a + (pgsize - 1)) / pgsize * pgsize

-- `PTE_ADDR` and `PTE_FLAGS`, and the tests of `PTE_P` and `PTE_U`.
abbrev pub pte_addr : ℕ → ℕ
pte_addr pte = pte / 4096 * 4096

abbrev pub pte_flags : ℕ → ℕ
pte_flags pte = pte % 4096

abbrev pub is_present : ℕ → Bool
is_present pte = pte % 2 == 1

abbrev pub is_user : ℕ → Bool
is_user pte = pte / 4 % 2 == 1

abbrev pub pte_p : ℕ
pte_p = 1

abbrev pub pte_w : ℕ
pte_w = 2

abbrev pub pte_u : ℕ
pte_u = 4

-- What `memset(dst, c, n)` leaves in memory.
abbrev pub memset : ℕ → ℕ → ℕ → Memory → Memory
memset dst c n m i = if leb dst i && ltb i (dst + n) then c % 256 else m i

-- The address of the entry, 0 for the null pointer.
unfoldable pub walkpgdir : ℕ → ℕ → Bool → Ram → ℕ × Ram
walkpgdir pgdir va alloc s =
    let pde = pgdir + 4 * pdx va in
    let r = kalloc s.kmem in
    let pgtab = r.0 in
    if is_present (get32 s.mem pde)
    then (p2v (pte_addr (get32 s.mem pde)) + 4 * ptx va, s)
    else if not alloc
    then (0, s)
    else if pgtab == 0
    then (0, record s { kmem = r.1 })
    else (
      pgtab + 4 * ptx va,
      record {
        mem =
            put32 (memset pgtab 0 pgsize s.mem) pde
              (bit_or (bit_or (bit_or (v2p pgtab) pte_p) pte_w) pte_u);
        kmem = r.1;
      },
    )

-- One round of the loop of `mappages`; `false` is the return of -1.
unfoldable pub map_page : ℕ → ℕ → ℕ → ℕ → Ram → Option (Bool × Ram)
map_page pgdir perm a pa s =
    let w = walkpgdir pgdir a true s in
    if w.0 == 0
    then some (false, w.1)
    else if is_present (get32 w.1.mem w.0)
    then none
    else some (true, record w.1 { mem = put32 w.1.mem w.0 (bit_or (bit_or pa perm) pte_p) })

-- The rounds from `a` on, when `k` more follow the first one.
unfoldable pub map_rounds : ℕ → ℕ → ℕ → ℕ → ℕ → Ram → Option (Bool × Ram)
map_rounds pgdir perm zero a pa s = map_page pgdir perm a pa s
map_rounds pgdir perm (suc k) a pa s = elim (map_page pgdir perm a pa s) [
  | none ↦ none
  | some (false, t) ↦ some (false, t)
  | some (true, t) ↦ map_rounds pgdir perm k (word (a + pgsize)) (word (pa + pgsize)) t
]

-- `last - a` is a number of whole pages, so `a == last` is met after that many rounds.
unfoldable pub mappages : ℕ → ℕ → ℕ → ℕ → ℕ → Ram → Option (Bool × Ram)
mappages pgdir va size pa perm s =
    let a = pgrounddown va in
    let last = pgrounddown (word (va + size + 2 ^ 32 - 1)) in
    map_rounds pgdir perm (word (last + 2 ^ 32 - a) / pgsize) a pa s

-- The loop of `deallocuvm` from `a` on. A round that meets no table goes on at the next entry of the
-- directory; each goes up by a page at least, so the pages up to `oldsz` bound their number.
unfoldable pub unmap_rounds : ℕ → ℕ → ℕ → ℕ → ℕ → Ram → Option Ram
unmap_rounds end pgdir oldsz zero a s = some s
unmap_rounds end pgdir oldsz (suc k) a s =
    let pte = (walkpgdir pgdir a false s).0 in
    let v = get32 s.mem pte in
    if not (ltb a oldsz) then some s else elim (pte == 0) [
      | true ↦ unmap_rounds end pgdir oldsz k (word ((pdx a + 1) * 2 ^ 22)) s
      | false ↦ elim (is_present v) [
        | false ↦ unmap_rounds end pgdir oldsz k (word (a + pgsize)) s
        | true ↦ elim (pte_addr v == 0) [
          | true ↦ none
          | false ↦ elim (kfree end (p2v (pte_addr v)) s.kmem) [
            | none ↦ none
            | some r ↦
                unmap_rounds end pgdir oldsz k (word (a + pgsize))
                  (record { mem = put32 s.mem pte 0; kmem = r })
          ]
        ]
      ]
    ]

-- The size that it returns, and the memory.
unfoldable pub deallocuvm : ℕ → ℕ → ℕ → ℕ → Ram → Option (ℕ × Ram)
deallocuvm end pgdir oldsz newsz s =
    let a = pgroundup newsz in
    if leb oldsz newsz
    then some (oldsz, s)
    else elim (unmap_rounds end pgdir oldsz ((oldsz + (pgsize - 1) - a) / pgsize) a s) [
      | none ↦ none
      | some t ↦ some (newsz, t)
    ]

-- `deallocuvm(pgdir, newsz, oldsz)` and the return of 0.
abbrev pub undo : ℕ → ℕ → ℕ → ℕ → Ram → Option (ℕ × Ram)
undo end pgdir newsz oldsz s = elim (deallocuvm end pgdir newsz oldsz s) [
  | none ↦ none
  | some (n, t) ↦ some (0, t)
]

-- The body of the loop of `allocuvm`, after its call of `kalloc`; `rest` is what follows it.
unfoldable pub alloc_page :
    ℕ → ℕ → ℕ → ℕ → ℕ → (Ram → Option (ℕ × Ram)) → ℕ × Kmem → Ram → Option (ℕ × Ram)
alloc_page end pgdir oldsz newsz a rest (mem, k) s = elim (mem == 0) [
  | true ↦ undo end pgdir newsz oldsz (record s { kmem = k })
  | false ↦
      elim (mappages pgdir a pgsize (v2p mem) (bit_or pte_w pte_u)
        (record { mem = memset mem 0 pgsize s.mem; kmem = k })) [
          | none ↦ none
          | some (true, t) ↦ rest t
          | some (false, t) ↦ elim (undo end pgdir newsz oldsz t) [
            | none ↦ none
            | some (n, u) ↦ elim (kfree end mem u.kmem) [
              | none ↦ none
              | some m ↦ some (n, record u { kmem = m })
            ]
          ]
        ]
]

-- The loop, which ends after `k` rounds when none fails.
unfoldable pub alloc_rounds : ℕ → ℕ → ℕ → ℕ → ℕ → ℕ → Ram → Option (ℕ × Ram)
alloc_rounds end pgdir oldsz newsz zero a s = some (newsz, s)
alloc_rounds end pgdir oldsz newsz (suc k) a s =
    alloc_page end pgdir oldsz newsz a
      (λ t. alloc_rounds end pgdir oldsz newsz k (word (a + pgsize)) t) (kalloc s.kmem) s

unfoldable pub allocuvm : ℕ → ℕ → ℕ → ℕ → Ram → Option (ℕ × Ram)
allocuvm end pgdir oldsz newsz s =
    let a = pgroundup oldsz in
    if leb kernbase newsz
    then some (0, s)
    else if ltb newsz oldsz
    then some (oldsz, s)
    else alloc_rounds end pgdir oldsz newsz ((newsz + (pgsize - 1) - a) / pgsize) a s
