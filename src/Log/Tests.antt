-- ===== src/Log/Tests.antt =====
-- A small journal: the log at block 2, one entry for block 40, bytes 64 to 67 changed to 7.
use operating_systeams_proje.Prelude.{
  ℕ, ◌+◌, ◌<◌, ◌≤◌, ◌≡◌, ◌≢◌, ◌⊎◌, inl, inr, refl, [], ◌∷◌, drop, true, ◌==◌, ltb, leb, ◌&&◌,
  if◌then◌else◌, update, arith, Bool-cases,
}
use operating_systeams_proje.Prelude.Words.{get32}
use operating_systeams_proje.Crc.{zeroed, crc32}
use operating_systeams_proje.Crc.Table.{crc_reference, IsSound, crc32-eq-reference}
use operating_systeams_proje.Crc.Checksum.{zeroed-IsSound}
use operating_systeams_proje.Crc.Detect.{crc32-detects_byte}
use operating_systeams_proje.Disk.{Block, image}
use operating_systeams_proje.Journal.{nlog, logsize, LogHeader, Journal, returns, panics, power_on}
use operating_systeams_proje.Log.{commit, log_write, note_write, encode_head}
use operating_systeams_proje.Log.Header.{Encodes, encode_head-Encodes}
use operating_systeams_proje.Log.Images.{Covers, Shows}
use operating_systeams_proje.Log.Absorb.{log_write-Covers}
use operating_systeams_proje.Log.Space.{
  System, Call, Reach, IsReserved, Reach-IsReserved, log_write_room, sum,
}
use operating_systeams_proje.Log.Commit.Atomic.{IsReady}
use operating_systeams_proje.Log.Commit.Crash.{after, boot, IsBootable}
use operating_systeams_proje.Log.Commit.Durable.{Boots, commit_atomic, recovery_restarts}
use operating_systeams_proje.Log.Commit.Phases.{commit_durable}

-- The drive: zero but for `logstart` in the superblock.
abbrev empty_disk : ℕ → Block
empty_disk b x = if b == 1 && x == 16 then 2 else 0

abbrev changed : ℕ → Block
changed b x = if b == 40 && (leb 64 x && ltb x 68) then 7 else empty_disk b x

abbrev one_entry : LogHeader
one_entry = record { n = 1; block = λ _. 40; cksum = λ _. 0; offset = λ _. 64; len = λ _. 4 }

abbrev journal_at : ℕ → Journal
journal_at phase = record (power_on empty_disk) {
  start = 2;
  size = nlog;
  outstanding = 1;
  batch_size = 1;
  lh = one_entry;
  crash_at_phase = phase;
  buffers = record { cached = changed; dirty = λ b. b == 40; commands = [] };
}

changed_covered : (b x : ℕ) → (empty_disk b x ≡ changed b x) ⊎ ((t : ℕ) × Covers one_entry 0 b x t)
changed_covered b x = elim (Bool-cases (b == 40 && (leb 64 x && ltb x 68))) [
  | inl e ↦ inr (0, (omega arith, omega arith, ground arith, ground arith, ground arith))
  | inr e ↦ inl (rw e)
]

journal_at-IsReady : (phase : ℕ) → IsReady (journal_at phase) empty_disk empty_disk
unfolding get32
journal_at-IsReady phase = record {
  placed = record { fits = omega arith; home = λ t ht. inr (omega arith) };
  block_word = λ t ht. omega arith;
  offset_word = λ t ht. omega arith;
  len_word = λ t ht. omega arith;
  sound = zeroed-IsSound;
  idle = record { empty = refl; shows = λ b x hb. refl };
  quiet = refl;
  covered = λ b x hb. changed_covered b x;
}

journal_at-IsBootable : (phase : ℕ) → IsBootable (journal_at phase) empty_disk
unfolding get32
journal_at-IsBootable phase = record {
  super = refl;
  first = omega arith;
  kept = λ t ht e. omega arith;
}

commit_atomic_example :
    let f = image empty_disk (drop 2 (after (commit (journal_at 0))).buffers.commands) in
    Boots 2 empty_disk f ⊎ Boots 2 changed f
commit_atomic_example =
    commit_atomic (journal_at 0) empty_disk empty_disk (journal_at-IsReady 0)
      (journal_at-IsBootable 0) 2 (λ e. omega arith)

recovery_restarts_example :
    let f = image empty_disk (drop 2 (after (commit (journal_at 0))).buffers.commands) in
    let g = image f (drop 1 (boot f).buffers.commands) in
    (Boots 2 empty_disk f × Boots 2 empty_disk g) ⊎ (Boots 2 changed f × Boots 2 changed g)
recovery_restarts_example =
    recovery_restarts (journal_at 0) empty_disk empty_disk (journal_at-IsReady 0)
      (journal_at-IsBootable 0) 2 1 (λ e. omega arith)

commit_durable_example :
    (r : Journal) × (commit (journal_at 0) ≡ returns r)
    × Shows 2 changed r.buffers.cached
    × Boots 2 changed (image empty_disk r.buffers.commands)
    × (r.lh.n ≡ 0)
    × (r.batch_size ≡ 0)
commit_durable_example =
    commit_durable (journal_at 0) empty_disk empty_disk (journal_at-IsReady 0)
      (journal_at-IsBootable 0) (omega arith) refl

-- The published check value of this checksum: that of "123456789".
crc_check_value : (crc32 zeroed (49 ∷ 50 ∷ 51 ∷ 52 ∷ 53 ∷ 54 ∷ 55 ∷ 56 ∷ 57 ∷ [])).0 ≡ 0xCBF43926
unfolding crc32
crc_check_value = refl

crc32-eq-reference_example :
    ((crc32 zeroed (1 ∷ 2 ∷ [])).0 ≡ crc_reference (1 ∷ 2 ∷ []))
    × IsSound (crc32 zeroed (1 ∷ 2 ∷ [])).1
crc32-eq-reference_example = crc32-eq-reference zeroed (1 ∷ 2 ∷ []) zeroed-IsSound (omega arith)

crc32-detects_byte_example : (crc32 zeroed (7 ∷ 1 ∷ 9 ∷ [])).0 ≢ (crc32 zeroed (7 ∷ 2 ∷ 9 ∷ [])).0
crc32-detects_byte_example =
    crc32-detects_byte zeroed zeroed (7 ∷ []) (9 ∷ []) 1 2 zeroed-IsSound zeroed-IsSound
      (omega arith) (omega arith) (omega arith) (omega arith) (λ e. omega arith)

encode_head-Encodes_example : Encodes one_entry (encode_head one_entry (λ _. 0))
encode_head-Encodes_example =
    encode_head-Encodes one_entry
      (record {
        fits = omega arith;
        block_word = λ t ht. omega arith;
        cksum_word = λ t ht. omega arith;
        offset_word = λ t ht. omega arith;
        len_word = λ t ht. omega arith;
      })
      (λ _. 0)

-- Block 40 noted again, bytes 60 to 65: absorbed.
abbrev absorbed : Journal
absorbed = record (journal_at 0) {
  lh = note_write one_entry 40 60 6;
  buffers = record ((journal_at 0).buffers) { dirty = update (λ b. b == 40) 40 true };
}

log_write-Covers_example :
    ((b' x : ℕ) → (empty_disk b' x ≡ changed b' x) ⊎ ((t : ℕ) × Covers absorbed.lh 0 b' x t))
    × (absorbed.buffers.dirty 40 ≡ true)
unfolding log_write
log_write-Covers_example =
    log_write-Covers 40 60 6 empty_disk changed (journal_at 0) absorbed changed_covered
      (λ b' x. inl refl) refl

abbrev one_op : System
one_op = record { journal = journal_at 0; budgets = 9 ∷ [] }

one_op-IsReserved : IsReserved one_op
unfolding sum
one_op-IsReserved = record {
  room = omega arith;
  counted = refl;
  bounded = omega arith;
  few = omega arith;
}

Reach-IsReserved_example : IsReserved (record { journal = absorbed; budgets = 8 ∷ [] })
unfolding log_write
Reach-IsReserved_example =
    Reach-IsReserved one_op-IsReserved
      (Reach.next Reach.here (Call.writes [] [] 8 absorbed 40 60 6 refl))

log_write_room_example :
    ((r : Journal) × (log_write 41 0 4 absorbed ≡ returns r)
      × (r.lh.n + 7 ≤ logsize)
      × (r.lh.n < nlog))
    ⊎ ((log_write 41 0 4 absorbed ≡ panics absorbed)
        × (absorbed.lh.n + 1 ≡ nlog)
        × (sum (8 ∷ []) ≡ 1))
unfolding log_write sum
log_write_room_example =
    log_write_room one_op (record { journal = absorbed; budgets = 8 ∷ [] }) [] [] 7 41 0 4
      one_op-IsReserved (Reach.next Reach.here (Call.writes [] [] 8 absorbed 40 60 6 refl)) refl
      refl
