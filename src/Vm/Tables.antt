-- ===== src/Vm/Tables.antt =====
-- The tables of vm.c seen as the processor sees them, and what a store into an entry changes.
use operating_systeams_proje.Prelude.{
  ℕ, ◌+◌, ◌*◌, ◌/◌, ◌%◌, ◌^◌, ◌≤◌, ◌<◌, ◌≡◌, ◌≢◌, ◌⊎◌, sym, ◌∙◌, ap, ap₂, subst, true, List,
  if◌then◌else◌, arith,
}
use operating_systeams_proje.Prelude.Count.{count}
use operating_systeams_proje.Prelude.Words.{get32, put32, get32-put32_other}
use operating_systeams_proje.Strings.{Memory}
use operating_systeams_proje.Kalloc.{kernbase, phystop, pgsize}
use operating_systeams_proje.Kalloc.Pages.{IsChain}
use operating_systeams_proje.Vm.{Ram, pdx, ptx, p2v, pte_addr, is_present, memset}

-- Word `i` of the page `f`.
abbrev pub slot : ℕ → ℕ → ℕ
slot f i = f + 4 * i

abbrev pub dirent : Memory → ℕ → ℕ → ℕ
dirent m pgdir i = get32 m (slot pgdir i)

-- The page that an entry of the directory names.
abbrev pub table : Memory → ℕ → ℕ → ℕ
table m pgdir i = p2v (pte_addr (dirent m pgdir i))

-- The entry that the processor finds for `va`, 0 where it finds no table.
unfoldable pub entry : Memory → ℕ → ℕ → ℕ
entry m pgdir va =
    if is_present (dirent m pgdir (pdx va))
    then get32 m (slot (table m pgdir (pdx va)) (ptx va))
    else 0

-- A page that `kfree` takes.
abbrev pub IsFrame : ℕ → Type 0
IsFrame x = (x % 4096 ≡ 0) × (kernbase ≤ x) × (x < kernbase + phystop)

abbrev pub IsPresent : Memory → ℕ → ℕ → Type 0
IsPresent m pgdir i = is_present (dirent m pgdir i) ≡ true

-- The free pages are different pages; the directory and its tables are none of them and are different.
pub record IsSpace (s : Ram) (pgdir : ℕ) : Type 0 where
  pub free : List ℕ
  pub chain : IsChain s.kmem.next s.kmem.freelist free
  pub once : (x : ℕ) → count x free ≤ 1
  pub frames : (x : ℕ) → count x free ≢ 0 → IsFrame x
  pub dir : IsFrame pgdir × (count pgdir free ≡ 0)
  pub tables :
      (i : ℕ)
      → i < 1024
      → IsPresent s.mem pgdir i
      → IsFrame (table s.mem pgdir i)
        × (count (table s.mem pgdir i) free ≡ 0)
        × (table s.mem pgdir i ≢ pgdir)
  pub apart :
      (i j : ℕ)
      → i < 1024
      → j < 1024
      → IsPresent s.mem pgdir i
      → IsPresent s.mem pgdir j
      → table s.mem pgdir i ≡ table s.mem pgdir j
      → i ≡ j

-- A store into one word of a page leaves every other word alone.
pub read_other :
    (m : Memory) (v f i g j : ℕ)
    → IsFrame f
    → IsFrame g
    → i < 1024
    → j < 1024
    → (f ≢ g) ⊎ (i ≢ j)
    → get32 (put32 m (slot f i) v) (slot g j) ≡ get32 m (slot g j)
read_other m v f i g j ff fg li lj ne = get32-put32_other m (slot f i) v (slot g j) (omega arith)

-- `memset` to zero clears the words of its page and no other.
pub read_cleared : (m : Memory) (f j : ℕ) → j < 1024 → get32 (memset f 0 pgsize m) (slot f j) ≡ 0
unfolding get32
read_cleared m f j lj = ground arith

pub read_uncleared :
    (m : Memory) (f g j : ℕ)
    → IsFrame f
    → IsFrame g
    → j < 1024
    → f ≢ g
    → get32 (memset f 0 pgsize m) (slot g j) ≡ get32 m (slot g j)
unfolding get32
read_uncleared m f g j ff fg lj ne =
    let side : (g + 4 ≤ f + 4 * 0) ⊎ (f + 4096 ≤ g) = omega arith in ground arith

-- With the same directory, and the same pages free, the space is as good as before.
pub IsSpace-same :
    (s : Ram) (m : Memory) (pgdir : ℕ)
    → ((i : ℕ) → i < 1024 → dirent m pgdir i ≡ dirent s.mem pgdir i)
    → IsSpace s pgdir
    → IsSpace (record s { mem = m }) pgdir
IsSpace-same s m pgdir same h = record {
  free = h.free;
  chain = h.chain;
  once = h.once;
  frames = h.frames;
  dir = h.dir;
  tables = λ i li p.
      subst
        (λ e.
          IsFrame (p2v (pte_addr e))
          × (count (p2v (pte_addr e)) h.free ≡ 0)
          × (p2v (pte_addr e) ≢ pgdir))
        (sym (same i li)) (h.tables i li (old i li p));
  apart = λ i j li lj p q e.
      h.apart i j li lj (old i li p) (old j lj q) (frame i li ∙ e ∙ sym (frame j lj));
}
  where
    old : (i : ℕ) → i < 1024 → IsPresent m pgdir i → IsPresent s.mem pgdir i
    old i li p = subst (λ e. is_present e ≡ true) (same i li) p

    frame : (i : ℕ) → i < 1024 → table s.mem pgdir i ≡ table m pgdir i
    frame i li = ap (λ e. p2v (pte_addr e)) (sym (same i li))

-- The entry depends on the page only.
pub entry_page :
    (m : Memory) (pgdir u a : ℕ) → u / 4096 ≡ a / 4096 → entry m pgdir u ≡ entry m pgdir a
unfolding entry
entry_page m pgdir u a e =
    ap₂ (λ i j. if is_present (dirent m pgdir i) then get32 m (slot (table m pgdir i) j) else 0)
      (indices (u / 2 ^ 22) (a / 2 ^ 22) (omega arith)) (omega arith)
  where
    indices : (x y : ℕ) → x ≡ y → x % 1024 ≡ y % 1024
    indices x y f = omega arith
