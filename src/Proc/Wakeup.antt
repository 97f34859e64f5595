-- ===== src/Proc/Wakeup.antt =====
-- `wakeup1` of proc.c: what the loop does to each process.
use operating_systeams_proje.Prelude.{
  ℕ, suc, ◌≤◌, ◌<◌, ◌≡◌, ◌≢◌, inl, inr, refl, sym, ◌∙◌, ap, subst, true, ◌&&◌, ◌==◌, if◌then◌else◌,
  arith, Bool-cases, update_self, update_ne,
}
use native.Mathlib.Decide.{ℕ_discrete}
use operating_systeams_proje.Prelude.Loops.{for_range_inv}
use operating_systeams_proje.Proc.Steps.{is_sleeping-eq}
use operating_systeams_proje.Proc.{
  Proc, Ptable, sleeping, runnable, nproc, is_sleeping, wakeup_entry, wakeup1,
}

-- A process that sleeps on the channel becomes runnable.
abbrev pub woken : ℕ → Proc → Proc
woken chan p = if is_sleeping p.state && p.chan == chan then record p { state = runnable } else p

-- What waking a sleeper keeps is kept.
pub woken_keeps {ℓ} :
    {A : Type ℓ} (f : Proc → A) (chan : ℕ) (p : Proc)
    → (p.state ≡ sleeping → f (record p { state = runnable }) ≡ f p)
    → f (woken chan p) ≡ f p
woken_keeps f chan p h = elim (Bool-cases (is_sleeping p.state && p.chan == chan)) [
  | inl e ↦ rw e (h (is_sleeping-eq p.state (ground arith)))
  | inr e ↦ rw e refl
]

still_asleep :
    (chan : ℕ) (p : Proc)
    → is_sleeping (woken chan p).state ≡ true
    → (is_sleeping p.state ≡ true) × ((woken chan p).chan ≡ p.chan) × (p.chan ≢ chan)
still_asleep chan p = elim (Bool-cases (is_sleeping p.state && p.chan == chan)) [
  | inl e ↦ rw e (λ h. ground arith)
  | inr e ↦ rw e (λ h. (h, refl, λ q. ground arith))
]

entry_self : (chan i : ℕ) (s : ℕ → Proc) → wakeup_entry chan i s i ≡ woken chan (s i)
unfolding wakeup_entry
entry_self chan i s = elim (Bool-cases (is_sleeping (s i).state && (s i).chan == chan)) [
  | inl e ↦ rw e (update_self s i (record (s i) { state = runnable }))
  | inr e ↦ rw e refl
]

entry_ne : (chan i j : ℕ) (s : ℕ → Proc) → j ≢ i → wakeup_entry chan i s j ≡ s j
unfolding wakeup_entry
entry_ne chan i j s h = elim (Bool-cases (is_sleeping (s i).state && (s i).chan == chan)) [
  | inl e ↦ rw e (update_ne s i j (record (s i) { state = runnable }) h)
  | inr e ↦ rw e refl
]

module _ (chan : ℕ) (t : Ptable) where
  -- The first `k` processes are done, the others as they were.
  record UpTo (k : ℕ) (s : ℕ → Proc) : Type 0 where
    done : (i : ℕ) → i < k → s i ≡ woken chan (t.proc i)
    rest : (i : ℕ) → k ≤ i → s i ≡ t.proc i

  entry-UpTo : (k : ℕ) (s : ℕ → Proc) → k < nproc → UpTo k s → UpTo (suc k) (wakeup_entry chan k s)
  entry-UpTo k s lt u = record {
    done = λ i h. elim (ℕ_discrete i k) [
      | yes e ↦
          subst (λ x. wakeup_entry chan k s x ≡ woken chan (t.proc x)) (sym e)
            (entry_self chan k s ∙ ap (woken chan) (u.rest k (omega arith)))
      | no ne ↦ entry_ne chan k i s ne ∙ u.done i (omega arith)
    ];
    rest = λ i h. entry_ne chan k i s (λ e. omega arith) ∙ u.rest i (omega arith);
  }

  loop-UpTo : UpTo nproc (wakeup1 chan t).proc
  unfolding wakeup1
  loop-UpTo =
      for_range_inv UpTo (wakeup_entry chan) nproc entry-UpTo 0 nproc t.proc refl
        (record { done = λ i h. absurd (omega arith); rest = λ i h. refl })

  -- `wakeup1` makes exactly the processes of the table that sleep on the channel runnable, and
  -- changes nothing else.
  pub wakeup1-woken :
      ((i : ℕ) → i < nproc → (wakeup1 chan t).proc i ≡ woken chan (t.proc i))
      × ((i : ℕ) → nproc ≤ i → (wakeup1 chan t).proc i ≡ t.proc i)
      × ((wakeup1 chan t).nextpid ≡ t.nextpid)
  unfolding wakeup1
  wakeup1-woken = (loop-UpTo.done, loop-UpTo.rest, refl)

  pub wakeup1_keeps {ℓ} :
      {A : Type ℓ} (f : Proc → A)
      → ((p : Proc) → p.state ≡ sleeping → f (record p { state = runnable }) ≡ f p)
      → (i : ℕ) → i < nproc
      → f ((wakeup1 chan t).proc i) ≡ f (t.proc i)
  wakeup1_keeps f h i lt = ap f (loop-UpTo.done i lt) ∙ woken_keeps f chan (t.proc i) (h (t.proc i))

  -- Who still sleeps has been asleep, on another channel.
  pub wakeup1_asleep :
      (i : ℕ)
      → i < nproc
      → is_sleeping ((wakeup1 chan t).proc i).state ≡ true
      → (is_sleeping (t.proc i).state ≡ true)
        × (((wakeup1 chan t).proc i).chan ≡ (t.proc i).chan)
        × ((t.proc i).chan ≢ chan)
  wakeup1_asleep i lt h =
      let (a, b, c) =
        still_asleep chan (t.proc i)
          (sym (ap (λ p. is_sleeping p.state) (loop-UpTo.done i lt)) ∙ h) in
      (a, ap (λ p. p.chan) (loop-UpTo.done i lt) ∙ b, c)
