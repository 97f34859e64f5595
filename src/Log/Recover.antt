-- ===== src/Log/Recover.antt =====
-- `recover_from_log` at boot: a committed log is replayed, an empty one leaves the disk alone, and
-- a power failure during the recovery changes nothing of that.
use operating_systeams_proje.Prelude.{
  ℕ, ◌≡◌, ◌⊎◌, inl, inr, sym, ◌∙◌, ap, subst, Bool, true, false, if◌then◌else◌, update, arith,
}
use operating_systeams_proje.Prelude.Words.{get32, put32, get32-put32}
use operating_systeams_proje.Prelude.Loops.{for_range}
use operating_systeams_proje.Crc.Table.{IsSound}
use operating_systeams_proje.Disk.{Block, image, bread, booted}
use operating_systeams_proje.Journal.{LogHeader, Journal, JournalStats}
use operating_systeams_proje.Log.{clear, write_head, read_head, recover_from_log, encode_head}
use operating_systeams_proje.Log.Header.{Encodes, read-SameEntries}
use operating_systeams_proje.Log.Images.{
  AllImages, AllImages-map, Shows, IsCommitted, IsPlaced, IsIdle,
}
use operating_systeams_proje.Log.Install.{Installing, install-Installing, UpTo-Shows}

-- What a crash may leave of a committed transaction: its log, or its effect.
abbrev pub Survives : ℕ → LogHeader → (ℕ → Block) → (ℕ → Block) → Type 0
Survives start h new f = IsCommitted start h new f ⊎ IsIdle start new f

-- What the buffer sends to the header's place is what stands there.
header_written :
    (start s : ℕ) (f g : ℕ → Block) (v : Block) → s ≡ start → update g s (update f s v s) start ≡ v
header_written start s f g v e = ground arith

module _ (start : ℕ) (home : ℕ → Block) (j : Journal) (at : j.start ≡ start) where
  -- `write_head` with no entry touches the header's block alone.
  pub cleared-Shows :
      Shows start home j.buffers.cached → Shows start home (write_head (clear j)).buffers.cached
  unfolding write_head
  cleared-Shows s b x hb = ground (arith, s b x hb)

  pub cleared-IsIdle :
      (d : ℕ → Block)
      → Shows start home (image d j.buffers.commands)
      → IsIdle start home (image d (write_head (clear j)).buffers.commands)
  unfolding write_head image encode_head for_range
  cleared-IsIdle d s = record {
    empty =
        ap (λ b. get32 b 0)
          (header_written start j.start j.buffers.cached (image d j.buffers.commands)
            (put32 (bread j.buffers j.start) 0 0) at)
        ∙ get32-put32 (bread j.buffers j.start) 0 0 (omega arith);
    shows = λ b x hb. ground (arith, s b x hb);
  }

abbrev no_entries : LogHeader
no_entries = record { n = 0; block = λ _. 0; cksum = λ _. 0; offset = λ _. 0; len = λ _. 0 }

no_entries-IsPlaced : (start : ℕ) → IsPlaced start no_entries
no_entries-IsPlaced start = record { fits = omega arith; home = λ t ht. absurd (omega arith) }

idle-IsCommitted :
    (start : ℕ) (home d : ℕ → Block) → IsIdle start home d → IsCommitted start no_entries home d
idle-IsCommitted start home d v = record {
  header = record { count = v.empty; entries = λ t ht. absurd (omega arith) };
  logged = λ t ht. absurd (omega arith);
  up_to = λ b x hb. inl (v.shows b x hb);
}

Survives-IsIdle :
    (start : ℕ) (home f : ℕ → Block) → Survives start no_entries home f → IsIdle start home f
Survives-IsIdle start home f (inl c) = record {
  empty = c.header.count;
  shows = UpTo-Shows start no_entries home (no_entries-IsPlaced start) f c.up_to;
}
Survives-IsIdle start home f (inr v) = v

-- The journal after a reboot, over the drive `d`.
abbrev pub reboot : Journal → (ℕ → Block) → Journal
reboot j d = record j { buffers = booted d }

-- The recovery is complete: the buffers and the drive show `home`, the log is empty, and at every
-- point of the recovery the drive satisfies `P`.
pub record Recovered (start : ℕ) (home : ℕ → Block) (P : (ℕ → Block) → Type 0) (d : ℕ → Block)
    (j : Journal) : Type 0 where
  pub cached : Shows start home j.buffers.cached
  pub disk : IsIdle start home (image d j.buffers.commands)
  pub always : AllImages P d j.buffers.commands

module _ (start : ℕ) (j : Journal) (at : j.start ≡ start) (sound : IsSound j.crc) where
  module _ (h : LogHeader) (new : ℕ → Block) (placed : IsPlaced start h) (P : (ℕ → Block) → Type 0)
      (holds : (f : ℕ → Block) → IsCommitted start h new f → P f)
      (idles : (f : ℕ → Block) → IsIdle start new f → P f) where
    head-Installing :
        (d : ℕ → Block)
        → IsCommitted start h new d
        → Installing start h new placed d P holds 0 (read_head (reboot j d))
    unfolding read_head image
    head-Installing d c = record {
      start_eq = at;
      same =
          read-SameEntries h (d j.start) (omega (arith, placed.fits))
            (subst (λ s. Encodes h (d s)) (sym at) c.header) j.lh;
      sound = sound;
      logged = c.logged;
      up_to = c.up_to;
      disk_up_to = c.up_to;
      committed = c;
      images = holds d c;
    }

    counted-Installing :
        (b : Bool) (d : ℕ → Block) (g : Journal) (stats : JournalStats)
        → Installing start h new placed d P holds 0 g
        → Installing start h new placed d P holds 0 (if b then record g { stats = stats } else g)
    counted-Installing true d g stats v = record {
      start_eq = v.start_eq;
      same = v.same;
      sound = v.sound;
      logged = v.logged;
      up_to = v.up_to;
      disk_up_to = v.disk_up_to;
      committed = v.committed;
      images = v.images;
    }
    counted-Installing false d g stats v = v

    -- After the loop the header is cleared.
    pub installed-Recovered :
        (d : ℕ → Block) (g : Journal)
        → Installing start h new placed d P holds h.n g
        → Recovered start new P d (write_head (clear g))
    unfolding write_head
    installed-Recovered d g v =
        let idle : IsIdle start new (image d (write_head (clear g)).buffers.commands) =
          cleared-IsIdle start new g v.start_eq d
            (UpTo-Shows start h new placed (image d g.buffers.commands) v.disk_up_to) in
        record {
          cached =
              cleared-Shows start new g v.start_eq
                (UpTo-Shows start h new placed g.buffers.cached v.up_to);
          disk = idle;
          always = (idles _ idle, v.images);
        }

    pub committed-Recovered :
        (d : ℕ → Block)
        → IsCommitted start h new d
        → Recovered start new P d (recover_from_log (reboot j d))
    unfolding recover_from_log
    committed-Recovered d c = installed-Recovered d _ (
        install-Installing start h new placed d P holds _
          (counted-Installing _ d (read_head (reboot j d)) _ (head-Installing d c)))

  -- An empty log is a committed log of no entries.
  pub IsIdle-Recovered :
      (home d : ℕ → Block)
      → IsIdle start home d
      → Recovered start home (IsIdle start home) d (recover_from_log (reboot j d))
  IsIdle-Recovered home d v =
      let r : Recovered start home (Survives start no_entries home) d
          (recover_from_log (reboot j d)) =
        committed-Recovered no_entries home (no_entries-IsPlaced start)
          (Survives start no_entries home) (λ f. inl) (λ f. inr) d
          (idle-IsCommitted start home d v) in
      record {
        cached = r.cached;
        disk = r.disk;
        always =
            AllImages-map (Survives start no_entries home) (IsIdle start home)
              (Survives-IsIdle start home) d (recover_from_log (reboot j d)).buffers.commands
              r.always;
      }
