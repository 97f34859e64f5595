-- ===== src/Locks.antt =====
-- spinlock.c. A CPU is its index; `intr` is its interrupt flag. `acquire` and `release` are cut where
-- another CPU can come between: after the check, at each `xchg`, before the store of `cpu`, and before
-- the store that frees the lock. The call stack in `pcs` is left out. `none` is a panic.
pub mod Nesting
pub mod Exclusion
mod Tests
use operating_systeams_proje.Prelude.{
  ℕ, ◌+◌, ◌-◌, ◌≡◌, Bool, true, false, ◌&&◌, Option, none, some, ◌==◌, if◌then◌else◌, update,
}

-- The fields of `struct cpu` that `pushcli` and `popcli` use, and the flag `FL_IF`.
pub record Cpu : Type 0 where
  pub intr : Bool
  pub ncli : ℕ
  pub intena : Bool

unfoldable pub pushcli : Cpu → Cpu
pushcli c = record {
  intr = false;
  ncli = c.ncli + 1;
  intena = if c.ncli == 0 then c.intr else c.intena;
}

unfoldable pub popcli : Cpu → Option Cpu
popcli c =
    if c.intr
    then none
    else if c.ncli == 0
    then none
    else some (record c { intr = c.ncli - 1 == 0 && c.intena; ncli = c.ncli - 1 })

-- `struct spinlock`; a null `cpu` is `none`.
pub record Spinlock : Type 0 where
  pub locked : Bool
  pub cpu : Option ℕ

abbrev pub initlock : Spinlock
initlock = record { locked = false; cpu = none }

abbrev pub is_cpu : Option ℕ → ℕ → Bool
is_cpu none i = false
is_cpu (some j) i = j == i

-- What `holding` returns on CPU `i`.
unfoldable pub holding : Spinlock → ℕ → Bool
holding lk i = lk.locked && is_cpu lk.cpu i

-- Where a CPU is: outside, in the loop of `acquire`, before its store of `cpu`, between `acquire` and
-- `release`, or in `release` before the store that frees the lock.
pub data Pc : Type 0 where
  outside : Pc
  spinning : Pc
  taken : Pc
  critical : Pc
  leaving : Pc

-- The lock and every CPU.
pub record System : Type 0 where
  pub lk : Spinlock
  pub pc : ℕ → Pc
  pub cpus : ℕ → Cpu

-- Another place for CPU `i`.
abbrev pub goes : System → ℕ → Pc → Spinlock → System
goes s i p lk = record s { lk = lk; pc = update s.pc i p }

-- One step of CPU `i`, `enter` and `check` being where `acquire` and `release` test `holding`.
pub data Step : System → System → Type 0 where
  enter :
      {s : System} (i : ℕ)
      → s.pc i ≡ outside
      → holding s.lk i ≡ false
      → Step s
          (record s { pc = update s.pc i spinning; cpus = update s.cpus i (pushcli (s.cpus i)) })
  spin : {s : System} (i : ℕ) → s.pc i ≡ spinning → s.lk.locked ≡ true → Step s s
  xchg :
      {s : System} (i : ℕ)
      → s.pc i ≡ spinning
      → s.lk.locked ≡ false
      → Step s (goes s i taken (record s.lk { locked = true }))
  record_cpu :
      {s : System} (i : ℕ)
      → s.pc i ≡ taken
      → Step s (goes s i critical (record s.lk { cpu = some i }))
  check :
      {s : System} (i : ℕ)
      → s.pc i ≡ critical
      → holding s.lk i ≡ true
      → Step s (goes s i leaving (record s.lk { cpu = none }))
  free :
      {s : System} (i : ℕ) (c : Cpu)
      → s.pc i ≡ leaving
      → popcli (s.cpus i) ≡ some c
      → Step s (record {
        lk = record s.lk { locked = false };
        pc = update s.pc i outside;
        cpus = update s.cpus i c;
      })

pub data Reach (s : System) : System → Type 0 where
  here : Reach s s
  next : {t u : System} → Reach s t → Step t u → Reach s u
