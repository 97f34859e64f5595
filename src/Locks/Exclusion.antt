-- ===== src/Locks/Exclusion.antt =====
-- At most one CPU is between `acquire` and `release`, and `holding` tells which.
use operating_systeams_proje.Prelude.{
  ℕ, ◌<◌, ◌≡◌, ◌≢◌, ◌↔◌, refl, sym, ap, subst, ◌∙◌, Bool, true, false, ◌&&◌, Option, none, some,
  arith,
}
use operating_systeams_proje.Locks.{
  Cpu, pushcli, popcli, is_cpu, holding, Pc, outside, spinning, taken, critical, leaving, System,
  Step, enter, spin, xchg, record_cpu, check, free, Reach, here, next,
}

-- The CPU has set `locked` and has not cleared it yet.
abbrev pub is_inside : Pc → Bool
is_inside outside = false
is_inside spinning = false
is_inside taken = true
is_inside critical = true
is_inside leaving = true

-- One CPU at most is inside, and the lock is then taken; `cpu` names the CPU that is past `acquire`; and
-- a CPU that is not outside has its interrupts off, by a `pushcli` that is not undone.
pub record IsExclusive (s : System) : Type 0 where
  pub one : (i j : ℕ) → is_inside (s.pc i) ≡ true → is_inside (s.pc j) ≡ true → i ≡ j
  pub held : (i : ℕ) → is_inside (s.pc i) ≡ true → s.lk.locked ≡ true
  pub owner : (i : ℕ) → s.pc i ≡ critical → s.lk.cpu ≡ some i
  pub named : (i : ℕ) → s.lk.cpu ≡ some i → s.pc i ≡ critical
  pub quiet : (i : ℕ) → s.pc i ≢ outside → ((s.cpus i).intr ≡ false) × (0 < (s.cpus i).ncli)

Step-IsExclusive : {s t : System} → Step s t → IsExclusive s → IsExclusive t
unfolding pushcli
Step-IsExclusive (enter {s} i p n) h = record {
  one = λ j k a b. h.one j k (ground arith) (ground arith);
  held = λ j a. h.held j (ground arith);
  owner = λ j a. h.owner j (ground arith);
  named = λ j a. ground (arith, h.named j a);
  quiet = λ j a. ground (arith, h.quiet j);
}
Step-IsExclusive (spin i p l) h = h
Step-IsExclusive (xchg {s} i p l) h = record {
  one = λ j k a b. ground (arith, h.held j, h.held k);
  held = λ j a. refl;
  owner = λ j a. h.owner j (ground arith);
  named = λ j a. ground (arith, h.named j a);
  quiet = λ j a. ground (arith, h.quiet j);
}
Step-IsExclusive (record_cpu {s} i p) h = record {
  one = λ j k a b. h.one j k (ground arith) (ground arith);
  held = λ j a. h.held j (ground arith);
  owner = λ j a. ground (arith, h.one i j);
  named = λ j a. ground arith;
  quiet = λ j a. ground (arith, h.quiet j);
}
Step-IsExclusive (check {s} i p l) h = record {
  one = λ j k a b. h.one j k (ground arith) (ground arith);
  held = λ j a. h.held j (ground arith);
  owner = λ j a. ground (arith, h.one i j);
  named = λ j a. ground arith;
  quiet = λ j a. ground (arith, h.quiet j);
}
Step-IsExclusive (free {s} i c p l) h = record {
  one = λ j k a b. h.one j k (ground arith) (ground arith);
  held = λ j a. ground (arith, h.one i j);
  owner = λ j a. ground (arith, h.one i j);
  named = λ j a. ground (arith, h.named j a);
  quiet = λ j a. ground (arith, h.quiet j);
}

-- From a state in which it holds, for instance with every CPU outside, after any interleaving of the
-- steps of `acquire` and `release` on any CPUs: at most one CPU has taken the lock and not freed it,
-- `cpu` names the one that is between `acquire` and `release`, and every CPU that has begun `acquire` and
-- not ended `release` has its interrupts off.
pub Reach-IsExclusive : {s t : System} → IsExclusive s → Reach s t → IsExclusive t
Reach-IsExclusive h here = h
Reach-IsExclusive h (next r st) = Step-IsExclusive st (Reach-IsExclusive h r)

-- In such a state `holding`, which looks at the lock without taking it, answers yes exactly on the CPU
-- that is between `acquire` and `release`, and the popcli at the end of a `release` does not panic.
pub holding-IsExclusive :
    (s : System) (i : ℕ)
    → IsExclusive s
    → ((holding s.lk i ≡ true) ↔ (s.pc i ≡ critical))
      × (s.pc i ≡ leaving → popcli (s.cpus i) ≢ none)
unfolding holding popcli
holding-IsExclusive s i h = (
  (λ e. h.named i (named_cpu s.lk.cpu (and_right s.lk.locked _ e)), λ p. held p),
  λ p. let q = h.quiet i (λ e. absurd (apart (sym p ∙ e))) in pops (s.cpus i) q.0 q.1,
)
  where
    apart : leaving ≡ outside → ⊥
    apart e = absurd (cc)

    pops : (c : Cpu) → c.intr ≡ false → 0 < c.ncli → popcli c ≢ none
    pops c e l = λ n. absurd (ground arith)

    and_right : (b c : Bool) → (b && c) ≡ true → c ≡ true
    and_right b c e = ground arith

    named_cpu : (o : Option ℕ) → is_cpu o i ≡ true → o ≡ some i
    named_cpu none e = absurd (cc)
    named_cpu (some j) e = ap some (ground arith)

    same : (o : Option ℕ) → o ≡ some i → is_cpu o i ≡ true
    same none e = absurd (cc)
    same (some j) e = ground arith

    held : s.pc i ≡ critical → (s.lk.locked && is_cpu s.lk.cpu i) ≡ true
    held p =
        let l : s.lk.locked ≡ true = h.held i (subst (λ x. is_inside x ≡ true) (sym p) refl) in
        let c = same s.lk.cpu (h.owner i p) in ground arith
