-- ===== src/Log.antt =====
-- The operations of log.c. The spin lock and the messages are left out:
-- each function here is what runs between `acquire` and `release`, or without the lock in `commit`.
pub mod Header
pub mod Absorb
pub mod Space
pub mod Images
pub mod Install
pub mod Commit
pub mod Recover
mod Tests
use operating_systeams_proje.Prelude.{
  ℕ, zero, suc, ◌+◌, ◌-◌, ◌*◌, ◌^◌, ◌≡◌, Bool, true, false, not, ◌||◌, List, [], ◌∷◌, ◌==◌, Option,
  none, some, ltb, leb, if◌then◌else◌, update, slice, min, max, bit_xor,
}
use operating_systeams_proje.Prelude.Words.{word, slt, rounds, get32, put32}
use operating_systeams_proje.Prelude.Loops.{for_range}
use operating_systeams_proje.Journal.{
  logsize, maxopblocks, LogHeader, Journal, Outcome, returns, panics, block_at, cksum_at, offset_at,
  len_at, no_stats, JournalStats,
}
use operating_systeams_proje.Crc.{CrcState, zeroed, crc32, crc32_init}
use operating_systeams_proje.Disk.{
  Block, Command, Buffers, bread, bwrite, put_data, copy_slice, booted,
}
use operating_systeams_proje.Disk

unfoldable pub read_entry : Block → ℕ → LogHeader → LogHeader
read_entry b i h = record {
  n = h.n;
  block = update h.block i (get32 b (block_at i));
  cksum = update h.cksum i (get32 b (cksum_at i));
  offset = update h.offset i (get32 b (offset_at i));
  len = update h.len i (get32 b (len_at i));
}

unfoldable pub read_head : Journal → Journal
unfolding read_entry for_range
read_head j =
    let b = bread j.buffers j.start in
    let n = get32 b 0 in
    record j { lh = for_range (read_entry b) 0 (rounds n) (record j.lh { n = n }) }

unfoldable pub write_entry : LogHeader → ℕ → Block → Block
write_entry h i b =
    put32
      (put32 (put32 (put32 b (block_at i) (h.block i)) (cksum_at i) (h.cksum i)) (offset_at i)
        (h.offset i))
      (len_at i) (h.len i)

unfoldable pub encode_head : LogHeader → Block → Block
unfolding write_entry for_range
encode_head h b = for_range (write_entry h) 0 (rounds h.n) (put32 b 0 h.n)

unfoldable pub put_head : ℕ → Journal → Journal
put_head start j = record j {
  buffers = bwrite (put_data j.buffers start (encode_head j.lh (bread j.buffers start))) start;
}

unfoldable pub write_head : Journal → Journal
unfolding put_head
write_head j = put_head j.start j

-- One round of the loop in `install_trans`: the log block is checked against the checksum, and its
-- slice copied to the home block.
unfoldable pub install_slice : ℕ → ℕ → ℕ → ℕ → ℕ → Journal → Journal
install_slice slot home off n expected j =
    let lbuf = bread j.buffers slot in
    let (computed, crc) = crc32 j.crc (slice lbuf off n) in
    if not (computed == expected)
    then record j {
      crc = crc;
      stats = record (j.stats) { checksum_errors = j.stats.checksum_errors + 1 };
    }
    else record j {
      crc = crc;
      buffers =
          bwrite (put_data j.buffers home (copy_slice (bread j.buffers home) lbuf off n)) home;
      stats = record (j.stats) { blocks_installed = j.stats.blocks_installed + 1 };
    }

unfoldable pub install_entry : ℕ → Journal → Journal
install_entry tail j =
    install_slice (j.start + tail + 1) (j.lh.block tail) (j.lh.offset tail) (j.lh.len tail)
      (j.lh.cksum tail) j

unfoldable pub install_trans : Journal → Journal
unfolding install_slice install_entry for_range
install_trans j = for_range install_entry 0 (rounds j.lh.n) j

abbrev pub clear : Journal → Journal
clear j = record j { lh = record (j.lh) { n = 0 } }

unfoldable pub recover_from_log : Journal → Journal
unfolding read_head install_trans write_head
recover_from_log j =
    let h = read_head j in
    let h' =
      if slt 0 h.lh.n
      then record h { stats = record (h.stats) { total_recoveries = h.stats.total_recoveries + 1 } }
      else h in
    write_head (clear (install_trans h'))

-- One round of the loop in `write_log`: the slice of the cached block is copied to the log block.
unfoldable pub log_slice : ℕ → ℕ → ℕ → ℕ → ℕ → Journal → Journal
log_slice tail slot home off n j =
    let to = copy_slice (bread j.buffers slot) (bread j.buffers home) off n in
    let (sum, crc) = crc32 j.crc (slice to off n) in
    record j {
      crc = crc;
      lh = record (j.lh) { cksum = update j.lh.cksum tail sum };
      buffers = bwrite (put_data j.buffers slot to) slot;
      stats = record (j.stats) {
        blocks_written = j.stats.blocks_written + 1;
        bytes_logged = j.stats.bytes_logged + n;
      };
    }

unfoldable pub log_entry : ℕ → Journal → Journal
log_entry tail j =
    log_slice tail (j.start + tail + 1) (j.lh.block tail) (j.lh.offset tail) (j.lh.len tail) j

unfoldable pub write_log : Journal → Journal
unfolding log_slice log_entry for_range
write_log j = for_range log_entry 0 (rounds j.lh.n) j

unfoldable pub barrier : Journal → Journal
barrier j = record j {
  buffers = Disk.ideflush j.buffers;
  stats = record (j.stats) { flush_barriers = j.stats.flush_barriers + 1 };
}

-- The fault that `crash_at_phase == 3` injects: `badbuf->data[0] ^= 0xFF`.
unfoldable pub corrupt_first : Journal → Journal
corrupt_first j =
    let slot = j.start + 1 in
    let b = bread j.buffers slot in
    record j { buffers = bwrite (put_data j.buffers slot (update b 0 (bit_xor (b 0) 0xFF))) slot }

unfoldable pub count_batch : Journal → Journal
count_batch j = record j {
  stats = record (j.stats) {
    total_commits = j.stats.total_commits + 1;
    group_commit_batches = j.stats.group_commit_batches + (if ltb 1 j.batch_size then 1 else 0);
    total_ops_batched = j.stats.total_ops_batched + j.batch_size;
    max_batch_size =
        if ltb j.stats.max_batch_size j.batch_size then j.batch_size else j.stats.max_batch_size;
  };
  batch_size = 0;
}

-- Phases 3 and 4, and the statistics.
unfoldable pub finish_commit : Journal → Journal
unfolding install_trans write_head count_batch
finish_commit j = count_batch (write_head (clear (install_trans j)))

-- `commit` from its second test of `crash_at_phase` on.
unfoldable pub commit_headed : Journal → Outcome
unfolding corrupt_first finish_commit
commit_headed j =
    if j.crash_at_phase == 2
    then panics j
    else if j.crash_at_phase == 3
    then panics (corrupt_first j)
    else returns (finish_commit j)

-- `commit` from its first test of `crash_at_phase` on.
unfoldable pub commit_logged : Journal → Outcome
unfolding write_head commit_headed
commit_logged j = if j.crash_at_phase == 1 then panics j else commit_headed (write_head j)

unfoldable pub commit : Journal → Outcome
unfolding write_log barrier commit_logged
commit j = if slt 0 j.lh.n then commit_logged (barrier (write_log j)) else returns j

-- The sleep of `begin_op` is `none`: the caller waits for a wakeup and tests again.
unfoldable pub begin_op : Journal → Option Journal
begin_op j =
    if j.committing
    then none
    else if slt logsize (word (j.lh.n + word (j.outstanding + 1) * maxopblocks))
    then none
    else some (record j { outstanding = word (j.outstanding + 1); batch_size = j.batch_size + 1 })

-- The part of `end_op` under the lock: the state, and `do_commit`. `none` is the panic.
unfoldable pub end_op_locked : Journal → Option (Journal × Bool)
end_op_locked j =
    let o = word (j.outstanding + 2 ^ 32 - 1) in
    let left = record j { outstanding = o } in
    if j.committing
    then none
    else if o == 0
    then some (record left { committing = true }, true)
    else some (left, false)

-- `committing = 0` after the commit; a panic in it does not come back.
abbrev pub committed : Outcome → Outcome
committed (returns j) = returns (record j { committing = false })
committed (panics j) = panics j

unfoldable pub end_op : Journal → Outcome
unfolding end_op_locked commit
end_op j = elim (end_op_locked j) [
  | none ↦ panics (record j { outstanding = word (j.outstanding + 2 ^ 32 - 1) })
  | some (l, do_commit) ↦ if do_commit then committed (commit l) else returns l
]

-- The loop of `log_write`: the first entry from `i` on, of `k`, that names the block.
unfoldable pub find_entry : (ℕ → ℕ) → ℕ → ℕ → ℕ → Option ℕ
find_entry block b i zero = none
find_entry block b i (suc k) =
    let rest = find_entry block b (suc i) k in if block i == b then some i else rest

-- The smallest range that holds both.
unfoldable pub merge_entry : LogHeader → ℕ → ℕ → ℕ → LogHeader
merge_entry h i offset' len' =
    let old_end = h.offset i + h.len i in
    let new_end = offset' + len' in
    let min_off = if ltb (h.offset i) offset' then h.offset i else offset' in
    let max_end = if ltb new_end old_end then old_end else new_end in
    record h { offset = update h.offset i min_off; len = update h.len i (max_end - min_off) }

unfoldable pub append_entry : LogHeader → ℕ → ℕ → ℕ → LogHeader
append_entry h b offset' len' = record h {
  n = h.n + 1;
  block = update h.block h.n b;
  offset = update h.offset h.n offset';
  len = update h.len h.n len';
}

-- The entry that the loop finds is widened, or a new one is added.
unfoldable pub note_write : LogHeader → ℕ → ℕ → ℕ → LogHeader
unfolding find_entry merge_entry append_entry
note_write h b offset' len' = elim (find_entry h.block b 0 h.n) [
  | none ↦ append_entry h b offset' len'
  | some i ↦ merge_entry h i offset' len'
]

unfoldable pub log_write : ℕ → ℕ → ℕ → Journal → Outcome
log_write b offset' len' j =
    if leb logsize j.lh.n || leb j.size (j.lh.n + 1)
    then panics j
    else if slt j.outstanding 1
    then panics j
    else returns (record j {
      lh = note_write j.lh b offset' len';
      buffers = record (j.buffers) { dirty = update j.buffers.dirty b true };
    })

-- `get_journal_stats`.
abbrev pub get_journal_stats : Journal → JournalStats
get_journal_stats j = j.stats

-- `initlog`; the superblock is block 1, and `readsb` takes `nlog` and `logstart` from it.
unfoldable pub initlog : Journal → Journal
unfolding recover_from_log
initlog j =
    let sb = bread j.buffers 1 in
    recover_from_log (record j {
      start = get32 sb 16;
      size = get32 sb 12;
      crc = crc32_init j.crc;
      stats = no_stats;
    })
