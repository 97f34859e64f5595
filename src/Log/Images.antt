-- ===== src/Log/Images.antt =====
-- What the drive may hold when the power fails, and what a disk in the middle of a commit looks
-- like to the recovery.
use operating_systeams_proje.Prelude.{
  ℕ, zero, suc, ◌+◌, ◌≤◌, ◌<◌, ◌≡◌, ◌⊎◌, List, [], ◌∷◌, drop, slice,
}
use operating_systeams_proje.Prelude.Words.{get32}
use operating_systeams_proje.Crc.Checksum.{checksum}
use operating_systeams_proje.Disk.{Block, Command, image}
use operating_systeams_proje.Journal.{nlog, LogHeader}
use operating_systeams_proje.Log.Header.{Encodes}

-- `P` holds of the drive before the commands and after each of them.
abbrev pub AllImages : ((ℕ → Block) → Type 0) → (ℕ → Block) → List Command → Type 0
AllImages P d [] = P d
AllImages P d (c ∷ cs) = P (image d (c ∷ cs)) × AllImages P d cs

-- So it holds wherever the power fails: the last `k` commands are lost.
pub AllImages-drop :
    (P : (ℕ → Block) → Type 0) (d : ℕ → Block) (cs : List Command)
    → AllImages P d cs
    → (k : ℕ) → P (image d (drop k cs))
unfolding image
AllImages-drop P d [] a zero = a
AllImages-drop P d [] a (suc k) = a
AllImages-drop P d (c ∷ cs) a zero = a.0
AllImages-drop P d (c ∷ cs) a (suc k) = AllImages-drop P d cs a.1 k

pub AllImages-now :
    (P : (ℕ → Block) → Type 0) (d : ℕ → Block) (cs : List Command)
    → AllImages P d cs
    → P (image d cs)
unfolding image
AllImages-now P d [] a = a
AllImages-now P d (c ∷ cs) a = a.0

pub AllImages-map :
    (P Q : (ℕ → Block) → Type 0)
    → ((f : ℕ → Block) → P f → Q f)
    → (d : ℕ → Block) (cs : List Command) → AllImages P d cs
    → AllImages Q d cs
AllImages-map P Q m d [] a = m d a
AllImages-map P Q m d (c ∷ cs) a = (m (image d (c ∷ cs)) a.0, AllImages-map P Q m d cs a.1)

-- A block outside the `nlog` blocks of the log: neither its header nor one of its slots.
abbrev pub IsHome : ℕ → ℕ → Type 0
IsHome start b = (b < start) ⊎ (start + nlog ≤ b)

-- Entry `t`, at or above `i`, names the block and its range holds the byte.
abbrev pub Covers : LogHeader → ℕ → ℕ → ℕ → ℕ → Type 0
Covers h i b x t =
    (i ≤ t) × (t < h.n) × (h.block t ≡ b) × (h.offset t ≤ x) × (x < h.offset t + h.len t)

-- Outside the log `f` shows `new`, but for bytes in the ranges of the entries from `i` on.
abbrev pub UpTo : ℕ → LogHeader → (ℕ → Block) → ℕ → (ℕ → Block) → Type 0
UpTo start h new i f = (b x : ℕ) → IsHome start b → (f b x ≡ new b x) ⊎ ((t : ℕ) × Covers h i b x t)

abbrev pub Shows : ℕ → (ℕ → Block) → (ℕ → Block) → Type 0
Shows start new f = (b x : ℕ) → IsHome start b → f b x ≡ new b x

-- The slot of entry `t` carries the slice of its block, under its checksum.
pub record IsLogged (h : LogHeader) (new : ℕ → Block) (slot : Block) (t : ℕ) : Type 0 where
  pub sum : checksum (slice slot (h.offset t) (h.len t)) ≡ h.cksum t
  pub bytes : (x : ℕ) → h.offset t ≤ x → x < h.offset t + h.len t → slot x ≡ new (h.block t) x

-- The commit record is not on the disk: the recovery has nothing to do.
pub record IsIdle (start : ℕ) (home f : ℕ → Block) : Type 0 where
  pub empty : get32 (f start) 0 ≡ 0
  pub shows : Shows start home f

-- The commit record is on the disk, with all that it needs; some entries may be installed.
pub record IsCommitted (start : ℕ) (h : LogHeader) (new f : ℕ → Block) : Type 0 where
  pub header : Encodes h (f start)
  pub logged : (t : ℕ) → t < h.n → IsLogged h new (f (start + t + 1)) t
  pub up_to : UpTo start h new 0 f

-- Every entry has its slot in the log, the header names blocks outside the log, and each range is inside its block.
pub record IsPlaced (start : ℕ) (h : LogHeader) : Type 0 where
  pub fits : h.n < nlog
  pub home : (t : ℕ) → t < h.n → IsHome start (h.block t)
