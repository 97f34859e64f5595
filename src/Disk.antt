-- ===== src/Disk.antt =====
-- The drive of ide.c and the buffers of bio.c as log.c sees them. A block is a function from the
-- offset to the byte. `bread` returns the buffer that the cache holds for a block; `bwrite` sends it
-- to the drive. The commands to the drive are kept, newest first, so that a power failure can cut
-- them anywhere.
use operating_systeams_proje.Prelude.{
  ℕ, ◌+◌, Bool, false, ◌&&◌, List, [], ◌∷◌, ltb, leb, if◌then◌else◌, update,
}

abbrev pub Block : Type 0
Block = ℕ → ℕ

-- `bwrite` of a block, and `ideflush`.
pub data Command : Type 0 where
  write : ℕ → Block → Command
  flush : Command

-- What a drive that works in order holds after the commands.
unfoldable pub image : (ℕ → Block) → List Command → ℕ → Block
image d [] = d
image d (write b data' ∷ cs) = update (image d cs) b data'
image d (flush ∷ cs) = image d cs

pub record Buffers : Type 0 where
  pub cached : ℕ → Block
  pub dirty : ℕ → Bool
  pub commands : List Command

abbrev pub bread : Buffers → ℕ → Block
bread s b = s.cached b

-- A store into the buffer's bytes.
abbrev pub put_data : Buffers → ℕ → Block → Buffers
put_data s b data' = record s { cached = update s.cached b data' }

abbrev pub bwrite : Buffers → ℕ → Buffers
bwrite s b = record s {
  dirty = update s.dirty b false;
  commands = write b (s.cached b) ∷ s.commands;
}

abbrev pub ideflush : Buffers → Buffers
ideflush s = record s { commands = flush ∷ s.commands }

-- `memmove(dst + off, src + off, len)` between two blocks.
abbrev pub copy_slice : Block → Block → ℕ → ℕ → Block
copy_slice dst src off len x = if leb off x && ltb x (off + len) then src x else dst x

-- A machine that has just booted has read nothing yet: each buffer shows the drive's block.
abbrev pub booted : (ℕ → Block) → Buffers
booted d = record { cached = d; dirty = λ _. false; commands = [] }
