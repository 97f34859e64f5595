-- ===== src/Journal.antt =====
-- The state of log.c: `struct logheader`, `struct log` with the statics beside it, `struct
-- journal_stats` of journalstat.h, and where the header's arrays stand in its block.
use operating_systeams_proje.Prelude.{ℕ, ◌+◌, ◌*◌, Bool, false}
use operating_systeams_proje.Crc.{CrcState, zeroed}
use operating_systeams_proje.Disk.{Block, Buffers, booted}

-- `MAXOPBLOCKS`, `LOGSIZE`, `BSIZE` of param.h and fs.h.
abbrev pub maxopblocks : ℕ
maxopblocks = 10

abbrev pub logsize : ℕ
logsize = maxopblocks * 3

-- The blocks of the log as mkfs lays it out: the header and the slots.
abbrev pub nlog : ℕ
nlog = logsize

abbrev pub bsize : ℕ
bsize = 512

-- `struct logheader`, its arrays as functions from the index.
pub record LogHeader : Type 0 where
  pub n : ℕ
  pub block : ℕ → ℕ
  pub cksum : ℕ → ℕ
  pub offset : ℕ → ℕ
  pub len : ℕ → ℕ

pub record JournalStats : Type 0 where
  pub total_commits : ℕ
  pub total_recoveries : ℕ
  pub checksum_errors : ℕ
  pub blocks_written : ℕ
  pub blocks_installed : ℕ
  pub bytes_logged : ℕ
  pub group_commit_batches : ℕ
  pub flush_barriers : ℕ
  pub max_batch_size : ℕ
  pub total_ops_batched : ℕ

pub record Journal : Type 0 where
  pub start : ℕ
  pub size : ℕ
  pub outstanding : ℕ
  pub committing : Bool
  pub batch_size : ℕ
  pub lh : LogHeader
  pub stats : JournalStats
  pub crc : CrcState
  pub crash_at_phase : ℕ
  pub buffers : Buffers

-- `panic` stops the machine in the state that it leaves.
pub data Outcome : Type 0 where
  returns : Journal → Outcome
  panics : Journal → Outcome

-- The offsets of the arrays in the header's block.
abbrev pub block_at : ℕ → ℕ
block_at i = 4 + 4 * i

abbrev pub cksum_at : ℕ → ℕ
cksum_at i = 4 + 4 * logsize + 4 * i

abbrev pub offset_at : ℕ → ℕ
offset_at i = 4 + 8 * logsize + 4 * i

abbrev pub len_at : ℕ → ℕ
len_at i = 4 + 12 * logsize + 4 * i

abbrev pub no_stats : JournalStats
no_stats = record {
  total_commits = 0;
  total_recoveries = 0;
  checksum_errors = 0;
  blocks_written = 0;
  blocks_installed = 0;
  bytes_logged = 0;
  group_commit_batches = 0;
  flush_barriers = 0;
  max_batch_size = 0;
  total_ops_batched = 0;
}

-- The journal's static storage at boot, over the drive's contents.
abbrev pub power_on : (ℕ → Block) → Journal
power_on d = record {
  start = 0;
  size = 0;
  outstanding = 0;
  committing = false;
  batch_size = 0;
  lh = record { n = 0; block = λ _. 0; cksum = λ _. 0; offset = λ _. 0; len = λ _. 0 };
  stats = no_stats;
  crc = zeroed;
  crash_at_phase = 0;
  buffers = booted d;
}
