-- ===== src/Strings.antt =====
-- string.c. Memory is a function from the address to the byte; a pointer is an address. A length is a
-- `uint` or a non-negative `int`, and no block of memory wraps round the end of the addresses.
-- `memset`, two assembly loops, is in Vm.
pub mod Move
pub mod Text
use operating_systeams_proje.Prelude.{
  ℕ, zero, suc, ◌+◌, ◌-◌, ◌^◌, Bool, true, false, not, ◌&&◌, Option, none, some, ◌==◌, ltb,
  if◌then◌else◌, update,
}
use operating_systeams_proje.Prelude.Words.{word}

abbrev pub Memory : Type 0
Memory = ℕ → ℕ

-- `while(n-- > 0) *--d = *--s;` after both pointers have moved up by `n`.
unfoldable pub copy_down : ℕ → ℕ → ℕ → Memory → Memory
copy_down d s zero m = m
copy_down d s (suc n) m = copy_down d s n (update m (d + n) (m (s + n)))

-- `while(n-- > 0) *d++ = *s++;`.
unfoldable pub copy_up : ℕ → ℕ → ℕ → Memory → Memory
copy_up d s zero m = m
copy_up d s (suc n) m = copy_up (d + 1) (s + 1) n (update m d (m s))

unfoldable pub memmove : ℕ → ℕ → ℕ → Memory → Memory
unfolding copy_down copy_up
memmove d s n m = if ltb s d && ltb d (s + n) then copy_down d s n m else copy_up d s n m

-- The difference of two `uchar`s, as an `int`.
abbrev pub uchar_diff : ℕ → ℕ → ℕ
uchar_diff a b = word (a + 2 ^ 32 - b)

unfoldable pub memcmp : Memory → ℕ → ℕ → ℕ → ℕ
memcmp m s1 s2 zero = 0
memcmp m s1 s2 (suc n) =
    let rest = memcmp m (s1 + 1) (s2 + 1) n in
    if not (m s1 == m s2) then uchar_diff (m s1) (m s2) else rest

unfoldable pub strncmp : Memory → ℕ → ℕ → ℕ → ℕ
strncmp m p q zero = 0
strncmp m p q (suc n) =
    let rest = strncmp m (p + 1) (q + 1) n in
    if not (m p == 0) && (m p == m q) then rest else uchar_diff (m p) (m q)

-- `while(n-- > 0) *s++ = 0;`.
unfoldable pub pad : ℕ → ℕ → Memory → Memory
pad s zero m = m
pad s (suc n) m = pad (s + 1) n (update m s 0)

unfoldable pub strncpy : ℕ → ℕ → ℕ → Memory → Memory
unfolding pad
strncpy s t zero m = m
strncpy s t (suc n) m =
    let rest = strncpy (s + 1) (t + 1) n (update m s (m t)) in
    if m t == 0 then pad (s + 1) n (update m s (m t)) else rest

-- The loop of `safestrcpy`, `k` being `n - 1`, with the final `*s = 0`.
unfoldable pub copy_safely : ℕ → ℕ → ℕ → Memory → Memory
copy_safely s t zero m = update m s 0
copy_safely s t (suc k) m =
    let rest = copy_safely (s + 1) (t + 1) k (update m s (m t)) in
    if m t == 0 then update (update m s (m t)) (s + 1) 0 else rest

unfoldable pub safestrcpy : ℕ → ℕ → ℕ → Memory → Memory
unfolding copy_safely
safestrcpy s t zero m = m
safestrcpy s t (suc k) m = copy_safely s t k m

-- `strlen`, for a string that ends within `fuel` bytes.
unfoldable pub strlen : ℕ → Memory → ℕ → Option ℕ
strlen zero m s = none
strlen (suc fuel) m s =
    let rest = strlen fuel m (s + 1) in
    if m s == 0 then some 0 else (elim rest [ none ↦ none | some k ↦ some (k + 1) ])
