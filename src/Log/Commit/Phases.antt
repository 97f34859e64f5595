-- ===== src/Log/Commit/Phases.antt =====
-- What each value of `crash_at_phase` makes of a commit.
use operating_systeams_proje.Prelude.{
  ℕ, ◌<◌, ◌≡◌, ◌≢◌, inl, refl, sym, ◌∙◌, ap, true, ◌==◌, arith, ==_ne,
}
use operating_systeams_proje.Prelude.Words.{slt}
use operating_systeams_proje.Disk.{Block, image}
use operating_systeams_proje.Journal.{nlog, Journal, returns, panics}
use operating_systeams_proje.Log.{
  write_log, barrier, write_head, clear, install_trans, commit, commit_logged, commit_headed,
  finish_commit, count_batch,
}
use operating_systeams_proje.Log.Images.{AllImages-now, Shows, IsIdle}
use operating_systeams_proje.Log.Recover.{Recovered}
use operating_systeams_proje.Log.Commit.Atomic.{IsReady, head_at, headed-IsCommitted}
use operating_systeams_proje.Log.Commit.Crash.{
  IsBootable, Safe, logged, logging, with_header, header_phase, finished-Safe,
}
use operating_systeams_proje.Log.Commit.Durable.{
  Boots, IsIdle-Boots, super_idle, super_new, Survives-Boots,
}

headed-returns :
    (c : Journal)
    → c.crash_at_phase ≢ 2
    → c.crash_at_phase ≢ 3
    → commit_headed c ≡ returns (finish_commit c)
unfolding commit_headed
headed-returns c two three = rw (==_ne c.crash_at_phase 2 two, ==_ne c.crash_at_phase 3 three)

headed-panics : (c : Journal) → c.crash_at_phase ≡ 2 → commit_headed c ≡ panics c
unfolding commit_headed
headed-panics c two = let t : (c.crash_at_phase == 2) ≡ true = ground arith in rw t

logged-panics : (c : Journal) → c.crash_at_phase ≡ 1 → commit_logged c ≡ panics c
unfolding commit_logged
logged-panics c one = let t : (c.crash_at_phase == 1) ≡ true = ground arith in rw t

module _ (j : Journal) (old d : ℕ → Block) (ready : IsReady j old d)
    (bootable : IsBootable j old) where
  commit-logged : 0 < j.lh.n → commit j ≡ commit_logged (barrier (write_log j))
  unfolding commit
  commit-logged pos =
      let fits : j.lh.n < nlog = ready.placed.fits in
      let t : slt 0 j.lh.n ≡ true = ground arith in rw t

  barrier_phase : (barrier (write_log j)).crash_at_phase ≡ j.crash_at_phase
  unfolding barrier
  barrier_phase = (logging j old d ready).phase_eq

  commit-headed :
      0 < j.lh.n → j.crash_at_phase ≢ 1 → commit j ≡ commit_headed (with_header j old d ready)
  unfolding commit_logged
  commit-headed pos ne =
      commit-logged pos
      ∙ rw (==_ne (barrier (write_log j)).crash_at_phase 1 (λ e. ne (sym barrier_phase ∙ e)))
          (ap commit_headed (head_at j old d ready (logged j old d ready) (logging j old d ready)))

  -- From a state as in `IsReady` and `IsBootable`, a commit with entries, and no crash asked for,
  -- returns. Then the buffers still show the new
  -- state, so does the machine that boots over the drive, the log in memory is empty, and the next
  -- batch counts from 0.
  pub commit_durable :
      0 < j.lh.n
      → j.crash_at_phase ≡ 0
      → (r : Journal) × (commit j ≡ returns r)
        × Shows j.start j.buffers.cached r.buffers.cached
        × Boots j.start j.buffers.cached (image d r.buffers.commands)
        × (r.lh.n ≡ 0)
        × (r.batch_size ≡ 0)
  unfolding finish_commit count_batch write_head
  commit_durable pos e = (
    finish_commit c,
    commit-headed pos (λ q. omega arith)
        ∙ headed-returns c (λ q. omega (arith, phase)) (λ q. omega (arith, phase)),
    finished.cached,
    IsIdle-Boots j old d ready bootable j.buffers.cached _
        (super_new j old d ready bootable _ finished.disk) finished.disk,
    refl,
    refl,
  )
    where
      c : Journal
      c = with_header j old d ready

      phase : c.crash_at_phase ≡ j.crash_at_phase
      phase = header_phase j old d ready

      finished :
          Recovered j.start j.buffers.cached
            (Safe j old d ready)
            d
            (write_head (clear (install_trans c)))
      finished = finished-Safe j old d ready

  -- From such a state with entries, crash phase 1 panics, and the next boot shows the state before
  -- the transaction.
  pub crash_before_record :
      0 < j.lh.n
      → j.crash_at_phase ≡ 1
      → (r : Journal) × (commit j ≡ panics r) × Boots j.start old (image d r.buffers.commands)
  unfolding barrier image
  crash_before_record pos e = (
    barrier (write_log j),
    commit-logged pos ∙ logged-panics (barrier (write_log j)) (barrier_phase ∙ e),
    IsIdle-Boots j old d ready bootable old _ (super_idle j old d ready bootable _ idle) idle,
  )
    where
      idle : IsIdle j.start old (image d (write_log j).buffers.commands)
      idle =
          AllImages-now (IsIdle j.start old) d (write_log j).buffers.commands
            (logging j old d ready).images

  -- From such a state with entries, crash phase 2 panics, and the next boot shows the state after
  -- the transaction.
  pub crash_after_record :
      0 < j.lh.n
      → j.crash_at_phase ≡ 2
      → (r : Journal) × (commit j ≡ panics r)
        × Boots j.start j.buffers.cached (image d r.buffers.commands)
  crash_after_record pos e = (
    c,
    commit-headed pos (λ q. omega arith) ∙ headed-panics c (header_phase j old d ready ∙ e),
    Survives-Boots j old d ready bootable _
        (inl (headed-IsCommitted j old d ready (logged j old d ready) (logging j old d ready))),
  )
    where
      c : Journal
      c = with_header j old d ready
