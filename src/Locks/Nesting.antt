-- ===== src/Locks/Nesting.antt =====
-- `pushcli` and `popcli` are matched.
use operating_systeams_proje.Prelude.{
  ℕ, ◌+◌, ◌-◌, ◌<◌, ◌≡◌, refl, sym, subst, ◌∙◌, Bool, false, ◌&&◌, Option, none, some, ◌==◌,
  if◌then◌else◌, arith,
}
use operating_systeams_proje.Locks.{Cpu, pushcli, popcli}

-- Code in which each `pushcli` has its `popcli`: nothing, or a section with its body and what follows.
pub data Nest : Type 0 where
  nothing : Nest
  section : Nest → Nest → Nest

abbrev pub and_then : Option Cpu → (Cpu → Option Cpu) → Option Cpu
and_then none f = none
and_then (some c) f = f c

unfoldable pub run : Nest → Cpu → Option Cpu
run nothing c = some c
run (section body rest) c =
    and_then (run body (pushcli c)) (λ d. and_then (popcli d) (λ e. run rest e))

-- As before: the flag, the depth, and, inside a section, what the outermost one will restore.
abbrev pub IsRestored : Cpu → Option Cpu → Type 0
IsRestored c none = ⊥
IsRestored c (some d) = (d.intr ≡ c.intr) × (d.ncli ≡ c.ncli) × (0 < c.ncli → d.intena ≡ c.intena)

-- The end of a section, in the state in which its body leaves the CPU.
popped : (c d : Cpu) → Cpu
popped c d = record d { intr = c.ncli == 0 && d.intena; ncli = c.ncli }

popcli-popped : (c d : Cpu) → d.intr ≡ false → d.ncli ≡ c.ncli + 1 → popcli d ≡ some (popped c d)
unfolding popcli popped
popcli-popped c d i n =
    let k : d.ncli - 1 ≡ c.ncli = omega arith in
    let z : (d.ncli == 0) ≡ false = ground arith in rw (i, z, k) refl

popped-IsRestored :
    (c d : Cpu)
    → (0 < c.ncli → c.intr ≡ false)
    → IsRestored (pushcli c) (some d)
    → IsRestored c (some (popped c d))
unfolding popped pushcli
popped-IsRestored c d h (i, n, e) =
    let f : d.intena ≡ (if c.ncli == 0 then c.intr else c.intena) = e (omega arith) in
    (flag c.ncli d.intena c.intr c.intena f h, refl, λ l. f ∙ inner c.ncli c.intr c.intena l)
  where
    flag :
        (n : ℕ) (x y z : Bool)
        → x ≡ (if n == 0 then y else z)
        → (0 < n → y ≡ false)
        → (n == 0 && x) ≡ y
    flag n x y z f h = ground arith

    inner : (n : ℕ) (y z : Bool) → 0 < n → (if n == 0 then y else z) ≡ z
    inner n y z l = ground arith

IsRestored-trans :
    (c d : Cpu) (o : Option Cpu) → IsRestored c (some d) → IsRestored d o → IsRestored c o
IsRestored-trans c d none m k = k
IsRestored-trans c d (some e) m k =
    (k.0 ∙ m.0, k.1 ∙ m.1, λ l. k.2 (subst (λ n. 0 < n) (sym m.1) l) ∙ m.2 l)

pushed : (c : Cpu) → (pushcli c).intr ≡ false
unfolding pushcli
pushed c = refl

deeper : (c : Cpu) → (pushcli c).ncli ≡ c.ncli + 1
unfolding pushcli
deeper c = refl

-- On a CPU that is outside every section, or has its interrupts off, code in which each pushcli has its
-- popcli never panics, and leaves the interrupt flag and the depth as they were: the interrupts come
-- on again with the outermost popcli, and only if they were on before.
pub run-IsRestored : (b : Nest) (c : Cpu) → (0 < c.ncli → c.intr ≡ false) → IsRestored c (run b c)
unfolding run
run-IsRestored nothing c h = (refl, refl, λ l. refl)
run-IsRestored (section body rest) c h =
    go (run body (pushcli c)) (run-IsRestored body (pushcli c) (λ l. pushed c))
      (λ d m. run-IsRestored rest d (λ l. m.0 ∙ h (subst (λ n. 0 < n) m.1 l)))
  where
    go :
        (o : Option Cpu)
        → IsRestored (pushcli c) o
        → ((d : Cpu) → IsRestored c (some d) → IsRestored d (run rest d))
        → IsRestored c (and_then o (λ d. and_then (popcli d) (λ e. run rest e)))
    go none m k = m
    go (some d) m k =
        let r = popped-IsRestored c d h m in
        subst (λ o. IsRestored c (and_then o (λ e. run rest e)))
          (sym (popcli-popped c d (m.0 ∙ pushed c) (m.1 ∙ deeper c)))
          (IsRestored-trans c (popped c d) (run rest (popped c d)) r (k (popped c d) r))
