-- ===== src/Proc/Waits.antt =====
-- `wait` and `kill` of proc.c: every way in which they end.
use operating_systeams_proje.Prelude.{
  ℕ, ◌<◌, ◌≡◌, ◌≢◌, inl, inr, refl, sym, ap, subst, Bool, true, false, ◌==◌, Option, none, some,
  if◌then◌else◌, update_self, update_ne, arith, Bool-cases, if_true, if_false,
}
use operating_systeams_proje.Prelude.Search.{IsFirst, find_index-IsFirst}
use operating_systeams_proje.Proc.{
  runnable, Proc, Ptable, nproc, is_unused, is_sleeping, is_zombie, is_child, freed, kill_slot,
  kill, Waited, reaped, childless, sleeps, wait_found, wait, is_child_of, is_zombie_child_of,
}
use operating_systeams_proje.Proc.Steps.{is_child_self, is_child-eq}

-- What each outcome of `wait` says.
abbrev pub Waits : ℕ → Ptable → Waited → Type 0
Waits cur t (reaped r pid) =
    (i : ℕ) × (i < nproc)
    × ((t.proc i).parent ≡ some cur)
    × (is_zombie (t.proc i).state ≡ true)
    × (pid ≡ (t.proc i).pid)
    × (is_unused (r.proc i).state ≡ true)
    × ((r.proc i).parent ≡ none)
    × ((j : ℕ) → j ≢ i → r.proc j ≡ t.proc j)
Waits cur t childless =
    (c : ℕ)
    → c < nproc
    → (t.proc c).parent ≡ some cur
    → (is_zombie (t.proc c).state ≡ false) × ((t.proc cur).killed ≡ true)
Waits cur t sleeps =
    ((t.proc cur).killed ≡ false)
    × ((c : ℕ) × (c < nproc) × ((t.proc c).parent ≡ some cur))
    × ((c : ℕ) → c < nproc → (t.proc c).parent ≡ some cur → is_zombie (t.proc c).state ≡ false)

no_zombie_child :
    (cur : ℕ) (t : Ptable)
    → IsFirst (is_zombie_child_of t cur) 0 nproc none
    → (c : ℕ) → c < nproc
    → (t.proc c).parent ≡ some cur
    → is_zombie (t.proc c).state ≡ false
no_zombie_child cur t f c l e =
    let a : is_child cur (t.proc c).parent ≡ true = is_child_self cur (t.proc c).parent e in
    ground (arith, f c (omega arith) (omega arith))

wait_found-Waits :
    (cur : ℕ) (t : Ptable) (z o : Option ℕ)
    → IsFirst (is_zombie_child_of t cur) 0 nproc z
    → IsFirst (is_child_of t cur) 0 nproc o
    → Waits cur t (wait_found cur t z o)
wait_found-Waits cur t (some i) o f g =
    let a : is_child cur (t.proc i).parent ≡ true = ground (arith, f.2) in
    (
      i,
      omega (arith, f.1),
      is_child-eq cur (t.proc i).parent a,
      ground (arith, f.2),
      refl,
      ap (λ (p : Proc). is_unused p.state) (update_self t.proc i (freed (t.proc i))),
      ap (λ (p : Proc). p.parent) (update_self t.proc i (freed (t.proc i))),
      λ j ne. update_ne t.proc i j (freed (t.proc i)) ne,
    )
wait_found-Waits cur t none none f g = λ c l e.
    let a : is_child cur (t.proc c).parent ≡ true = is_child_self cur (t.proc c).parent e in
    absurd (ground (arith, g c (omega arith) (omega arith)))
wait_found-Waits cur t none (some i) f g = elim (Bool-cases (t.proc cur).killed) [
  | inl k ↦ rw k (λ c l e. (no_zombie_child cur t f c l e, k))
  | inr k ↦
      rw k
        (k, (i, omega (arith, g.1), is_child-eq cur (t.proc i).parent g.2), no_zombie_child cur t f)
]

-- `wait` with a pid has freed the slot of a child that had exited and had that pid, and no other.
-- `wait` with -1 has no child, or is killed and none of its children has exited. `wait` sleeps only
-- if it is not killed and has a child, and none of its children has exited.
pub wait-Waits : (cur : ℕ) (t : Ptable) → Waits cur t (wait cur t)
unfolding wait
wait-Waits cur t =
    wait_found-Waits cur t _ _ (find_index-IsFirst (is_zombie_child_of t cur) 0 nproc)
      (find_index-IsFirst (is_child_of t cur) 0 nproc)

-- A slot once it is marked: it is runnable if it was asleep, else its state is as before, and so is
-- all the rest of it.
pub record IsKilled (p q : Proc) : Type 0 where
  pub marked : q.killed ≡ true
  pub woken : is_sleeping p.state ≡ true → q.state ≡ runnable
  pub awake : is_sleeping p.state ≡ false → q.state ≡ p.state
  pub same_pid : q.pid ≡ p.pid
  pub same_parent : q.parent ≡ p.parent
  pub same_chan : q.chan ≡ p.chan
  pub same_sz : q.sz ≡ p.sz
  pub same_kstack : q.kstack ≡ p.kstack

abbrev marked_slot : Proc → Proc
marked_slot p = record p {
  killed = true;
  state = if is_sleeping p.state then runnable else p.state;
}

marked_slot-IsKilled : (p : Proc) → IsKilled p (marked_slot p)
marked_slot-IsKilled p = record {
  marked = refl;
  woken = λ e. if_true (is_sleeping p.state) runnable p.state e;
  awake = λ e. if_false (is_sleeping p.state) runnable p.state e;
  same_pid = refl;
  same_parent = refl;
  same_chan = refl;
  same_sz = refl;
  same_kstack = refl;
}

-- What each answer of `kill` says.
abbrev pub Kills : ℕ → Ptable → Ptable × Bool → Type 0
Kills pid t (r, true) =
    (i : ℕ) × (i < nproc)
    × ((t.proc i).pid ≡ pid)
    × ((j : ℕ) → j < i → (t.proc j).pid ≢ pid)
    × IsKilled (t.proc i) (r.proc i)
    × ((j : ℕ) → j ≢ i → r.proc j ≡ t.proc j)
    × (r.nextpid ≡ t.nextpid)
Kills pid t (r, false) = (r ≡ t) × ((i : ℕ) → i < nproc → (t.proc i).pid ≢ pid)

kill_slot-Kills :
    (pid : ℕ) (t : Ptable) (o : Option ℕ)
    → IsFirst (λ i. (t.proc i).pid == pid) 0 nproc o
    → Kills pid t (kill_slot t o)
kill_slot-Kills pid t none f = (refl, λ i l e. ground (arith, f i (omega arith) (omega arith)))
kill_slot-Kills pid t (some i) f =
    let e : (t.proc i).pid ≡ pid = ground (arith, f.2) in
    (
      i,
      omega (arith, f.1),
      e,
      λ j l e'. ground (arith, f.3 j (omega arith) l),
      subst (IsKilled (t.proc i)) (sym (update_self t.proc i _)) (marked_slot-IsKilled (t.proc i)),
      λ j ne. update_ne t.proc i j _ ne,
      refl,
    )

-- `kill` answers 0 when it has marked the first slot with that pid as killed: the slot becomes runnable
-- if it was asleep and keeps its state else, the rest of it and every other slot are as before. It
-- answers -1 when no slot has that pid, and has changed nothing. The slot may be an unused one.
pub kill-Kills : (pid : ℕ) (t : Ptable) → Kills pid t (kill pid t)
unfolding kill
kill-Kills pid t = kill_slot-Kills pid t _ (find_index-IsFirst (λ i. (t.proc i).pid == pid) 0 nproc)
