-- ===== src/Locks/Tests.antt =====
-- Two CPUs, of which the first takes the lock while the second one spins.
use operating_systeams_proje.Prelude.{◌≡◌, ◌≢◌, ◌↔◌, refl, true, false, none, some, update, arith}
use operating_systeams_proje.Locks.{
  Cpu, pushcli, popcli, initlock, holding, outside, spinning, taken, critical, leaving, System,
  goes, enter, spin, xchg, record_cpu, Reach, here, next,
}
use operating_systeams_proje.Locks.Nesting.{nothing, section, run, IsRestored, run-IsRestored}
use operating_systeams_proje.Locks.Exclusion.{IsExclusive, Reach-IsExclusive, holding-IsExclusive}

abbrev idle : Cpu
idle = record { intr = true; ncli = 0; intena = false }

abbrev start : System
start = record { lk = initlock; pc = λ i. outside; cpus = λ i. idle }

start-IsExclusive : IsExclusive start
start-IsExclusive = record {
  one = λ i j a b. absurd (cc);
  held = λ i a. absurd (cc);
  owner = λ i a. absurd (cc);
  named = λ i a. absurd (cc);
  quiet = λ i a. absurd (a refl);
}

abbrev begun : System
begun = record start { pc = update start.pc 0 spinning; cpus = update start.cpus 0 (pushcli idle) }

abbrev both : System
both = record begun { pc = update begun.pc 1 spinning; cpus = update begun.cpus 1 (pushcli idle) }

abbrev first : System
first = goes both 0 taken (record both.lk { locked = true })

abbrev inside : System
inside = goes first 0 critical (record first.lk { cpu = some 0 })

inside_run : Reach start inside
unfolding holding
inside_run =
    next
      (next (next (next (next here (enter 0 refl refl)) (enter 1 refl refl)) (xchg 0 refl refl))
        (spin 1 refl refl))
      (record_cpu 0 refl)

Reach-IsExclusive_example : IsExclusive inside
Reach-IsExclusive_example = Reach-IsExclusive start-IsExclusive inside_run

inside-IsExclusive : IsExclusive inside
inside-IsExclusive = Reach-IsExclusive start-IsExclusive inside_run

holding-IsExclusive_example :
    ((holding inside.lk 0 ≡ true) ↔ (inside.pc 0 ≡ critical))
    × (inside.pc 0 ≡ leaving → popcli (inside.cpus 0) ≢ none)
holding-IsExclusive_example = holding-IsExclusive inside 0 inside-IsExclusive

run-IsRestored_example : IsRestored idle (run (section (section nothing nothing) nothing) idle)
run-IsRestored_example =
    run-IsRestored (section (section nothing nothing) nothing) idle (λ l. absurd (omega arith))
