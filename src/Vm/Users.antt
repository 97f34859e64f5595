-- ===== src/Vm/Users.antt =====
-- vm.c: the operations on whole address spaces, and those on user memory. `end` is the first address
-- after the kernel. The junk that `kfree` fills a page with is left out, and so are the messages.
use operating_systeams_proje.Prelude.{
  ℕ, zero, suc, ◌+◌, ◌-◌, ◌*◌, ◌/◌, ◌^◌, Bool, true, false, not, ◌||◌, Option, none, some, List, [],
  ◌∷◌, ◌==◌, ltb, leb, if◌then◌else◌, bit_or,
}
use operating_systeams_proje.Prelude.Words.{word, get32, put32}
use operating_systeams_proje.Strings.{memmove}
use operating_systeams_proje.Kalloc.{kfree, kalloc, pgsize, kernbase, phystop}
use operating_systeams_proje.Vm.{
  Ram, v2p, p2v, pgrounddown, pte_addr, pte_flags, is_present, is_user, pte_u, pte_w, memset,
  walkpgdir, mappages, deallocuvm,
}

-- A row of the table `kmap`, and the table; `kdata` is the address `data`, where the kernel's
-- data begins.
pub record Kmap : Type 0 where
  pub virt : ℕ
  pub phys_start : ℕ
  pub phys_end : ℕ
  pub perm : ℕ

abbrev pub extmem : ℕ
extmem = 0x100000

abbrev pub devspace : ℕ
devspace = 0xFE000000

abbrev pub kernlink : ℕ
kernlink = kernbase + extmem

abbrev pub kmap : ℕ → List Kmap
kmap kdata =
    record { virt = kernbase; phys_start = 0; phys_end = extmem; perm = pte_w }
    ∷ record { virt = kernlink; phys_start = v2p kernlink; phys_end = v2p kdata; perm = 0 }
    ∷ record { virt = kdata; phys_start = v2p kdata; phys_end = phystop; perm = pte_w }
    ∷ record { virt = devspace; phys_start = devspace; phys_end = 0; perm = pte_w }
    ∷ []

-- The loop of `freevm` over the directory, from entry `i` on.
unfoldable pub free_tables : ℕ → ℕ → ℕ → ℕ → Ram → Option Ram
free_tables end pgdir zero i s = some s
free_tables end pgdir (suc k) i s =
    let pde = get32 s.mem (pgdir + 4 * i) in
    elim (is_present pde) [
      | false ↦ free_tables end pgdir k (suc i) s
      | true ↦ elim (kfree end (p2v (pte_addr pde)) s.kmem) [
        | none ↦ none
        | some r ↦ free_tables end pgdir k (suc i) (record s { kmem = r })
      ]
    ]

unfoldable pub freevm : ℕ → ℕ → Ram → Option Ram
freevm end pgdir s = if pgdir == 0 then none else elim (deallocuvm end pgdir kernbase 0 s) [
  | none ↦ none
  | some (n, t) ↦ elim (free_tables end pgdir 1024 0 t) [
    | none ↦ none
    | some u ↦ elim (kfree end pgdir u.kmem) [ none ↦ none | some r ↦ some (record u { kmem = r }) ]
  ]
]

-- `freevm(pgdir)` and the return of 0.
abbrev pub give_up : ℕ → ℕ → Ram → Option (ℕ × Ram)
give_up end pgdir s = elim (freevm end pgdir s) [ none ↦ none | some t ↦ some (0, t) ]

-- The loop of `setupkvm`, with its return.
unfoldable pub map_kernel : ℕ → ℕ → List Kmap → Ram → Option (ℕ × Ram)
map_kernel end pgdir [] s = some (pgdir, s)
map_kernel end pgdir (k ∷ ks) s =
    elim (mappages pgdir k.virt (word (k.phys_end + 2 ^ 32 - k.phys_start)) k.phys_start k.perm s) [
      | none ↦ none
      | some (true, t) ↦ map_kernel end pgdir ks t
      | some (false, t) ↦ give_up end pgdir t
    ]

unfoldable pub setupkvm : ℕ → ℕ → Ram → Option (ℕ × Ram)
setupkvm end kdata s =
    let r = kalloc s.kmem in
    let pgdir = r.0 in
    if pgdir == 0
    then some (0, record s { kmem = r.1 })
    else if ltb devspace (p2v phystop)
    then none
    else map_kernel end pgdir (kmap kdata)
        (record { mem = memset pgdir 0 pgsize s.mem; kmem = r.1 })

-- `none` also where no page is free, which the code does not test.
unfoldable pub inituvm : ℕ → ℕ → ℕ → Ram → Option Ram
inituvm pgdir init sz s =
    let r = kalloc s.kmem in
    let mem = r.0 in
    if leb pgsize sz || mem == 0
    then none
    else elim (mappages pgdir 0 pgsize (v2p mem) (bit_or pte_w pte_u)
        (record { mem = memset mem 0 pgsize s.mem; kmem = r.1 })) [
          | none ↦ none
          | some (done, t) ↦ some (record t { mem = memmove mem init sz t.mem })
        ]

unfoldable pub clearpteu : ℕ → ℕ → Ram → Option Ram
clearpteu pgdir uva s =
    let pte = (walkpgdir pgdir uva false s).0 in
    let v = get32 s.mem pte in
    if pte == 0
    then none
    else some (record s { mem = put32 s.mem pte (if is_user v then v - pte_u else v) })

-- The loop of `copyuvm`, when `k` rounds are left.
unfoldable pub copy_pages : ℕ → ℕ → ℕ → ℕ → ℕ → Ram → Option (ℕ × Ram)
copy_pages end pgdir d zero i s = some (d, s)
copy_pages end pgdir d (suc k) i s =
    let pte = (walkpgdir pgdir i false s).0 in
    let v = get32 s.mem pte in
    let r = kalloc s.kmem in
    let mem = r.0 in
    elim (pte == 0 || not (is_present v)) [
      | true ↦ none
      | false ↦ elim (mem == 0) [
        | true ↦ give_up end d (record s { kmem = r.1 })
        | false ↦
            elim (mappages d i pgsize (v2p mem) (pte_flags v)
              (record { mem = memmove mem (p2v (pte_addr v)) pgsize s.mem; kmem = r.1 })) [
                | none ↦ none
                | some (true, t) ↦ copy_pages end pgdir d k (word (i + pgsize)) t
                | some (false, t) ↦ elim (kfree end mem t.kmem) [
                  | none ↦ none
                  | some m ↦ give_up end d (record t { kmem = m })
                ]
              ]
      ]
    ]

unfoldable pub copyuvm : ℕ → ℕ → ℕ → ℕ → Ram → Option (ℕ × Ram)
copyuvm end kdata pgdir sz s = elim (setupkvm end kdata s) [
  | none ↦ none
  | some (d, t) ↦ elim (d == 0) [
    | true ↦ some (0, t)
    | false ↦ copy_pages end pgdir d ((sz + (pgsize - 1)) / pgsize) 0 t
  ]
]

-- `none` is the load through the null pointer of `walkpgdir`.
unfoldable pub uva2ka : ℕ → ℕ → Ram → Option ℕ
uva2ka pgdir uva s =
    let pte = (walkpgdir pgdir uva false s).0 in
    let v = get32 s.mem pte in
    if pte == 0
    then none
    else if not (is_present v)
    then some 0
    else if not (is_user v)
    then some 0
    else some (p2v (pte_addr v))

-- The loop of `copyout`; `false` is the return of -1. A round copies a byte at least, so `len` rounds
-- are enough.
unfoldable pub copy_rounds : ℕ → ℕ → ℕ → ℕ → ℕ → Ram → Option (Bool × Ram)
copy_rounds pgdir zero va buf len s = some (true, s)
copy_rounds pgdir (suc k) va buf len s =
    let va0 = pgrounddown va in
    let room = pgsize - (va - va0) in
    let n = if ltb len room then len else room in
    elim (len == 0) [
      | true ↦ some (true, s)
      | false ↦ elim (uva2ka pgdir va0 s) [
        | none ↦ none
        | some pa0 ↦ elim (pa0 == 0) [
          | true ↦ some (false, s)
          | false ↦
              copy_rounds pgdir k (word (va0 + pgsize)) (buf + n) (len - n)
                (record s { mem = memmove (pa0 + (va - va0)) buf n s.mem })
        ]
      ]
    ]

unfoldable pub copyout : ℕ → ℕ → ℕ → ℕ → Ram → Option (Bool × Ram)
copyout pgdir va p len s = copy_rounds pgdir len va p len s
