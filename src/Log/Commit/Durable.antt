-- ===== src/Log/Commit/Durable.antt =====
-- The promises of the journal: a commit happens whole or not at all, once it returns it lasts, and
-- the recovery may itself be cut by a power failure.
use operating_systeams_proje.Prelude.{ℕ, ◌≡◌, ◌≢◌, ◌⊎◌, inl, inr, sym, ◌∙◌, drop}
use operating_systeams_proje.Prelude.Words.{get32}
use operating_systeams_proje.Disk.{Block, image}
use operating_systeams_proje.Journal.{LogHeader, Journal}
use operating_systeams_proje.Log.{commit}
use operating_systeams_proje.Log.Images.{AllImages-drop, Shows, IsCommitted, IsPlaced, IsIdle}
use operating_systeams_proje.Log.Recover.{Survives, Recovered}
use operating_systeams_proje.Log.Commit.Atomic.{IsReady, with_sums, sums-IsPlaced}
use operating_systeams_proje.Log.Commit.Crash.{
  after, boot, IsBootable, Safe, logged, logging, commit-Safe, get32_ext, boot-IsIdle,
  boot-IsCommitted,
}

-- After a reboot over the drive `f` everything outside the log is as in `home`.
abbrev pub Boots : ℕ → (ℕ → Block) → (ℕ → Block) → Type 0
Boots start home f = Shows start home (boot f).buffers.cached

module _ (j : Journal) (old d : ℕ → Block) (ready : IsReady j old d)
    (bootable : IsBootable j old) where
  pub super_idle : (f : ℕ → Block) → IsIdle j.start old f → get32 (f 1) 16 ≡ j.start
  super_idle f v =
      get32_ext (f 1) (old 1) 16 (λ x. v.shows 1 x (inl bootable.first)) ∙ bootable.super

  super_kept : (x : ℕ) → j.buffers.cached 1 x ≡ old 1 x
  super_kept x = elim (ready.covered 1 x (inl bootable.first)) [
    | inl e ↦ sym e
    | inr (t, c) ↦ absurd (bootable.kept t c.1 c.2)
  ]

  pub super_new : (f : ℕ → Block) → IsIdle j.start j.buffers.cached f → get32 (f 1) 16 ≡ j.start
  super_new f v =
      get32_ext (f 1) (old 1) 16 (λ x. v.shows 1 x (inl bootable.first) ∙ super_kept x)
      ∙ bootable.super

  abbrev pub sums : LogHeader
  sums = with_sums j old d ready (logged j old d ready)

  super_committed :
      (f : ℕ → Block) → IsCommitted j.start sums j.buffers.cached f → get32 (f 1) 16 ≡ j.start
  super_committed f c = get32_ext (f 1) (old 1) 16 same ∙ bootable.super
    where
      same : (x : ℕ) → f 1 x ≡ old 1 x
      same x = elim (c.up_to 1 x (inl bootable.first)) [
        | inl e ↦ e ∙ super_kept x
        | inr (t, w) ↦ absurd (bootable.kept t w.1 w.2)
      ]

  placed : IsPlaced j.start sums
  placed = sums-IsPlaced j old d ready (logged j old d ready) (logging j old d ready)

  pub IsIdle-Boots :
      (home f : ℕ → Block) → get32 (f 1) 16 ≡ j.start → IsIdle j.start home f → Boots j.start home f
  IsIdle-Boots home f e v = (boot-IsIdle j.start f e home v).cached

  pub Survives-Boots :
      (f : ℕ → Block) → Survives j.start sums j.buffers.cached f → Boots j.start j.buffers.cached f
  Survives-Boots f (inl c) =
      (boot-IsCommitted j.start f (super_committed f c) sums j.buffers.cached placed c).cached
  Survives-Boots f (inr v) = IsIdle-Boots j.buffers.cached f (super_new f v) v

  Safe-Boots :
      (f : ℕ → Block)
      → Safe j old d ready f
      → Boots j.start old f ⊎ Boots j.start j.buffers.cached f
  Safe-Boots f (inl v) = inl (IsIdle-Boots old f (super_idle f v) v)
  Safe-Boots f (inr v) = inr (Survives-Boots f v)

  -- Let every byte that the transaction has changed lie in an entry's range, let the log be idle
  -- on the drive, and let the drive keep the order of the writes. If the power fails `k` commands
  -- before the end of `commit`, the machine that boots shows, outside the log, either the state
  -- before the transaction or all of the state after it. The fault of phase 3 is excluded.
  pub commit_atomic :
      (k : ℕ)
      → j.crash_at_phase ≢ 3
      → let f = image d (drop k (after (commit j)).buffers.commands) in
        Boots j.start old f ⊎ Boots j.start j.buffers.cached f
  commit_atomic k ne = Safe-Boots _ (
      AllImages-drop (Safe j old d ready) d (after (commit j)).buffers.commands
        (commit-Safe j old d ready ne) k)

  restart-IsIdle :
      (home f : ℕ → Block)
      → ((g : ℕ → Block) → IsIdle j.start home g → get32 (g 1) 16 ≡ j.start)
      → IsIdle j.start home f
      → (l : ℕ) → Boots j.start home (image f (drop l (boot f).buffers.commands))
  restart-IsIdle home f super v l =
      let r : Recovered j.start home (IsIdle j.start home) f (boot f) =
        boot-IsIdle j.start f (super f v) home v in
      let i : IsIdle j.start home (image f (drop l (boot f).buffers.commands)) =
        AllImages-drop (IsIdle j.start home) f (boot f).buffers.commands r.always l in
      IsIdle-Boots home _ (super _ i) i

  restart-Survives :
      (f : ℕ → Block)
      → Survives j.start sums j.buffers.cached f
      → (l : ℕ) → Boots j.start j.buffers.cached (image f (drop l (boot f).buffers.commands))
  restart-Survives f (inl c) l =
      let r : Recovered j.start j.buffers.cached (Survives j.start sums j.buffers.cached) f
          (boot f) =
        boot-IsCommitted j.start f (super_committed f c) sums j.buffers.cached placed c in
      Survives-Boots _ (
        AllImages-drop (Survives j.start sums j.buffers.cached) f (boot f).buffers.commands r.always
          l)
  restart-Survives f (inr v) l = restart-IsIdle j.buffers.cached f super_new v l

  -- Under the same conditions, the recovery after such a failure may be cut in turn, `l` commands
  -- before its end: a further boot shows the same state that the first one would have reached.
  pub recovery_restarts :
      (k l : ℕ)
      → j.crash_at_phase ≢ 3
      → let f = image d (drop k (after (commit j)).buffers.commands) in
        let g = image f (drop l (boot f).buffers.commands) in
        (Boots j.start old f × Boots j.start old g)
        ⊎ (Boots j.start j.buffers.cached f × Boots j.start j.buffers.cached g)
  recovery_restarts k l ne = go _ (
      AllImages-drop (Safe j old d ready) d (after (commit j)).buffers.commands
        (commit-Safe j old d ready ne) k)
    where
      go :
          (f : ℕ → Block)
          → Safe j old d ready f
          → (Boots j.start old f × Boots j.start old (image f (drop l (boot f).buffers.commands)))
            ⊎ (Boots j.start j.buffers.cached f
                × Boots j.start j.buffers.cached (image f (drop l (boot f).buffers.commands)))
      go f (inl v) =
          inl (IsIdle-Boots old f (super_idle f v) v, restart-IsIdle old f super_idle v l)
      go f (inr v) = inr (Survives-Boots f v, restart-Survives f v l)
