-- ===== src/Log/Commit/Crash.antt =====
-- A power failure anywhere in a commit, and in the recovery that follows it.
use operating_systeams_proje.Prelude.{
  ℕ, ◌<◌, ◌≡◌, ◌≢◌, inl, inr, refl, sym, ◌∙◌, ap, subst, fun_ext, Bool, true, false, ◌==◌,
  if◌then◌else◌, ==_iff,
}
use operating_systeams_proje.Prelude.Words.{get32, slt}
use operating_systeams_proje.Crc.{zeroed, crc32_init}
use operating_systeams_proje.Crc.Table.{init-IsFilled}
use operating_systeams_proje.Disk.{Block, image}
use operating_systeams_proje.Journal.{
  LogHeader, Journal, Outcome, returns, panics, power_on, no_stats,
}
use operating_systeams_proje.Log.{
  write_log, barrier, put_head, write_head, clear, install_trans, commit, commit_logged,
  commit_headed, finish_commit, corrupt_first, count_batch, initlog,
}
use operating_systeams_proje.Log.Images.{
  AllImages, AllImages-now, AllImages-map, IsCommitted, IsPlaced, IsIdle,
}
use operating_systeams_proje.Log.Recover.{
  Survives, Recovered, committed-Recovered, IsIdle-Recovered,
}
use operating_systeams_proje.Log.Commit.Logging.{Logging, write_log-Logging}
use operating_systeams_proje.Log.Commit.Atomic.{
  IsReady, Atomic, headed, head_at, headed-Installing, finished-Recovered,
}

abbrev pub after : Outcome → Journal
after (returns j) = j
after (panics j) = j

-- The machine boots over the drive `f`.
abbrev pub boot : (ℕ → Block) → Journal
boot f = initlog (power_on f)

-- The superblock, block 1, names the log's place, and no entry names block 1.
pub record IsBootable (j : Journal) (old : ℕ → Block) : Type 0 where
  pub super : get32 (old 1) 16 ≡ j.start
  pub first : 1 < j.start
  pub kept : (t : ℕ) → t < j.lh.n → j.lh.block t ≢ 1

if_cases {ℓ κ} :
    {A : Type ℓ} (Q : A → Type κ) (b : Bool) (x y : A)
    → (b ≡ true → Q x)
    → (b ≡ false → Q y)
    → Q (if b then x else y)
if_cases Q true x y p q = p refl
if_cases Q false x y p q = q refl

module _ (j : Journal) (old d : ℕ → Block) (ready : IsReady j old d) where
  abbrev pub logged : Journal
  logged = write_log j

  pub logging : Logging j ready.placed old d j.lh.n logged
  logging =
      write_log-Logging j ready.placed old d ready.sound
        (subst (AllImages (IsIdle j.start old) d) (sym ready.quiet) ready.idle)

  abbrev pub Safe : (ℕ → Block) → Type 0
  Safe = Atomic j old d ready logged logging

  abbrev pub SafeOutcome : Outcome → Type 0
  SafeOutcome o = AllImages Safe d (after o).buffers.commands

  logged-Safe : AllImages Safe d (barrier logged).buffers.commands
  unfolding barrier image
  logged-Safe =
      let all : AllImages Safe d logged.buffers.commands =
        AllImages-map (IsIdle j.start old) Safe (λ f i. inl i) d logged.buffers.commands
          logging.images in
      (AllImages-now Safe d logged.buffers.commands all, all)

  abbrev pub with_header : Journal
  with_header = headed j old d ready logged logging

  pub header_phase : with_header.crash_at_phase ≡ j.crash_at_phase
  unfolding put_head barrier
  header_phase = logging.phase_eq

  pub finished-Safe :
      Recovered j.start j.buffers.cached Safe d (write_head (clear (install_trans with_header)))
  finished-Safe = finished-Recovered j old d ready logged logging

  headed-Safe : j.crash_at_phase ≢ 3 → SafeOutcome (commit_headed with_header)
  unfolding commit_headed finish_commit count_batch
  headed-Safe ne =
      if_cases SafeOutcome (with_header.crash_at_phase == 2) (panics with_header)
        (if with_header.crash_at_phase == 3
          then panics (corrupt_first with_header)
          else returns (finish_commit with_header))
        (λ _. (headed-Installing j old d ready logged logging).images)
        (λ _.
          if_cases SafeOutcome (with_header.crash_at_phase == 3)
            (panics (corrupt_first with_header)) (returns (finish_commit with_header))
            (λ e. absurd (ne (sym header_phase ∙ (==_iff with_header.crash_at_phase 3).0 e)))
            (λ _. finished-Safe.always))

  pub commit-Safe : j.crash_at_phase ≢ 3 → SafeOutcome (commit j)
  unfolding commit commit_logged
  commit-Safe ne =
      if_cases SafeOutcome (slt 0 j.lh.n) (commit_logged (barrier logged)) (returns j)
        (λ _.
          if_cases SafeOutcome ((barrier logged).crash_at_phase == 1) (panics (barrier logged))
            (commit_headed (write_head (barrier logged))) (λ _. logged-Safe)
            (λ _.
              subst (λ c. SafeOutcome (commit_headed c))
                (sym (head_at j old d ready logged logging)) (headed-Safe ne)))
        (λ _. subst (AllImages Safe d) (sym ready.quiet) (inl ready.idle))

pub get32_ext : (a b : Block) (o : ℕ) → ((x : ℕ) → a x ≡ b x) → get32 a o ≡ get32 b o
get32_ext a b o h = ap (λ c. get32 c o) (fun_ext h)

-- Booting over an idle disk, and over a committed log.
module _ (start : ℕ) (f : ℕ → Block) (super : get32 (f 1) 16 ≡ start) where
  pub boot-IsIdle :
      (home : ℕ → Block) → IsIdle start home f → Recovered start home (IsIdle start home) f (boot f)
  unfolding initlog
  boot-IsIdle home v =
      IsIdle-Recovered start
        (record (power_on f) {
          start = get32 (f 1) 16;
          size = get32 (f 1) 12;
          crc = crc32_init zeroed;
          stats = no_stats;
        })
        super (λ _. init-IsFilled zeroed) home f v

  pub boot-IsCommitted :
      (h : LogHeader) (new : ℕ → Block)
      → IsPlaced start h
      → IsCommitted start h new f
      → Recovered start new (Survives start h new) f (boot f)
  unfolding initlog
  boot-IsCommitted h new placed c =
      committed-Recovered start
        (record (power_on f) {
          start = get32 (f 1) 16;
          size = get32 (f 1) 12;
          crc = crc32_init zeroed;
          stats = no_stats;
        })
        super (λ _. init-IsFilled zeroed) h new placed (Survives start h new) (λ g. inl) (λ g. inr)
        f c
