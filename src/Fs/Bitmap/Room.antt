-- ===== src/Fs/Bitmap/Room.antt =====
-- A `log_write` with room in the log returns, and leaves the bytes of the buffers alone.
use operating_systeams_proje.Prelude.{
  ℕ, suc, ◌+◌, ◌^◌, ◌<◌, ◌≤◌, ◌≡◌, refl, ◌∙◌, ap, true, ◌||◌, Option, none, some, leb, update,
  arith, if_false,
}
use operating_systeams_proje.Prelude.Words.{slt}
use operating_systeams_proje.Disk.{Block, put_data}
use operating_systeams_proje.Journal.{LogHeader, Journal, returns, logsize}
use operating_systeams_proje.Log.{log_write, note_write, find_entry, append_entry, merge_entry}
use operating_systeams_proje.Fs.{Fs, ran, log_block, log_result}

-- The log takes `k` more writes.
pub record HasRoom (k : ℕ) (j : Journal) : Type 0 where
  pub below_logsize : j.lh.n + k ≤ logsize
  pub below_size : j.lh.n + k < j.size
  pub running : 1 ≤ j.outstanding
  pub few : j.outstanding < 2 ^ 31

note_write_n : (h : LogHeader) (b off len : ℕ) → (note_write h b off len).n ≤ h.n + 1
unfolding note_write append_entry merge_entry
note_write_n h b off len = go (find_entry h.block b 0 h.n) (note_write h b off len) refl
  where
    go :
        (o : Option ℕ) (h' : LogHeader)
        → h' ≡ elim o [ none ↦ append_entry h b off len | some i ↦ merge_entry h i off len ]
        → h'.n ≤ h.n + 1
    go none h' e = omega (arith, ap (λ (l : LogHeader). l.n) e)
    go (some i) h' e = omega (arith, ap (λ (l : LogHeader). l.n) e)

abbrev pub stored : ℕ → Block → Fs → Fs
stored b block s = record s {
  journal = record (s.journal) { buffers = put_data s.journal.buffers b block };
}

pub same_room :
    {k : ℕ} (s : Fs) (b : ℕ) (block : Block)
    → HasRoom k s.journal
    → HasRoom k (stored b block s).journal
same_room s b block r = record {
  below_logsize = r.below_logsize;
  below_size = r.below_size;
  running = r.running;
  few = r.few;
}

-- What a `log_write` with room leaves.
pub record Logged (k : ℕ) (b off len : ℕ) (s : Fs) : Type 0 where
  pub after : Journal
  pub returned : log_block b off len s ≡ ran tt (record s { journal = after })
  pub cached_is : after.buffers.cached ≡ s.journal.buffers.cached
  pub room : HasRoom k after

pub logged : (k b off len : ℕ) (s : Fs) → HasRoom (suc k) s.journal → Logged k b off len s
unfolding log_block log_write
logged k b off len s r = record {
  after = record (s.journal) {
    lh = note_write s.journal.lh b off len;
    buffers = record (s.journal.buffers) { dirty = update s.journal.buffers.dirty b true };
  };
  returned = ap (log_result s) (
      if_false (leb logsize s.journal.lh.n || leb s.journal.size (s.journal.lh.n + 1)) _ _
        (ground (arith, r.below_logsize, r.below_size))
      ∙ if_false (slt s.journal.outstanding 1) _ (returns _) (ground (arith, r.running, r.few)));
  cached_is = refl;
  room = record {
    below_logsize = omega (arith, note_write_n s.journal.lh b off len, r.below_logsize);
    below_size = omega (arith, note_write_n s.journal.lh b off len, r.below_size);
    running = r.running;
    few = r.few;
  };
}
