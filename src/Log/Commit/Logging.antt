-- ===== src/Log/Commit/Logging.antt =====
-- `write_log`: every slice is in its slot under its checksum, and nothing outside the log has moved.
use operating_systeams_proje.Prelude.{
  ℕ, suc, ◌+◌, ◌≤◌, ◌<◌, ◌≡◌, ◌≢◌, refl, sym, ◌∙◌, ap, subst, update, slice, arith, update_ne,
  update_self,
}
use operating_systeams_proje.Prelude.Words.{get32}
use operating_systeams_proje.Prelude.Loops.{for_range, for_range_inv, below_suc}
use operating_systeams_proje.Crc.{crc32}
use operating_systeams_proje.Crc.Table.{IsSound}
use operating_systeams_proje.Crc.Checksum.{checksum, crc32-checksum, crc32-IsSound}
use operating_systeams_proje.Disk.{Block, image, copy_slice}
use operating_systeams_proje.Journal.{nlog, Journal}
use operating_systeams_proje.Log.{write_log, log_entry, log_slice}
use operating_systeams_proje.Log.Header.{rounds_small}
use operating_systeams_proje.Log.Images.{AllImages, AllImages-now, IsHome, IsPlaced, IsIdle}

module _ (j : Journal) (placed : IsPlaced j.start j.lh) (old d : ℕ → Block) where
  -- Before round `i` of the loop.
  pub record Logging (i : ℕ) (s : Journal) : Type 0 where
    pub start_eq : s.start ≡ j.start
    pub phase_eq : s.crash_at_phase ≡ j.crash_at_phase
    pub n_eq : s.lh.n ≡ j.lh.n
    pub block_eq : s.lh.block ≡ j.lh.block
    pub offset_eq : s.lh.offset ≡ j.lh.offset
    pub len_eq : s.lh.len ≡ j.lh.len
    pub sound : IsSound s.crc
    pub sum :
        (t : ℕ)
        → t < i
        → checksum (slice (s.buffers.cached (j.start + t + 1)) (j.lh.offset t) (j.lh.len t))
          ≡ s.lh.cksum t
    pub bytes :
        (t : ℕ)
        → t < i
        → (x : ℕ) → j.lh.offset t ≤ x
        → x < j.lh.offset t + j.lh.len t
        → s.buffers.cached (j.start + t + 1) x ≡ j.buffers.cached (j.lh.block t) x
    pub on_disk :
        (t : ℕ)
        → t < i
        → image d s.buffers.commands (j.start + t + 1) ≡ s.buffers.cached (j.start + t + 1)
    pub home : (b : ℕ) → IsHome j.start b → s.buffers.cached b ≡ j.buffers.cached b
    pub images : AllImages (IsIdle j.start old) d s.buffers.commands

  entry_slice :
      (i : ℕ) (s : Journal)
      → Logging i s
      → log_entry i s ≡ log_slice i (j.start + i + 1) (j.lh.block i) (j.lh.offset i) (j.lh.len i) s
  unfolding log_entry
  entry_slice i s v = cc (v.start_eq, v.block_eq, v.offset_eq, v.len_eq)

  -- A write to a slot leaves an idle disk idle.
  slot-IsIdle :
      (i : ℕ) (v : Block) (f : ℕ → Block)
      → i < j.lh.n
      → IsIdle j.start old f
      → IsIdle j.start old (update f (j.start + i + 1) v)
  slot-IsIdle i v f lt p = record {
    empty =
        ap (λ b. get32 b 0) (update_ne f (j.start + i + 1) j.start v (λ e. omega arith)) ∙ p.empty;
    shows = λ b x hb.
        ap (λ (g : Block). g x)
          (update_ne f (j.start + i + 1) b v
            (λ e. let q : j.lh.n < nlog = placed.fits in omega arith))
        ∙ p.shows b x hb;
  }

  entry-Logging : (i : ℕ) (s : Journal) → i < j.lh.n → Logging i s → Logging (suc i) (log_entry i s)
  unfolding log_slice image
  entry-Logging i s lt v = subst (Logging (suc i)) (sym (entry_slice i s v)) (record {
    start_eq = v.start_eq;
    phase_eq = v.phase_eq;
    n_eq = v.n_eq;
    block_eq = v.block_eq;
    offset_eq = v.offset_eq;
    len_eq = v.len_eq;
    sound = crc32-IsSound s.crc (slice to off len) v.sound;
    sum =
        below_suc
          (λ t.
            checksum (slice (update cached slot to (j.start + t + 1)) (j.lh.offset t) (j.lh.len t))
            ≡ update s.lh.cksum i (crc32 s.crc (slice to off len)).0 t)
          i
          (ap (λ b. checksum (slice b off len)) (update_self cached slot to)
            ∙ sym (crc32-checksum s.crc (slice to off len) v.sound)
            ∙ sym (update_self s.lh.cksum i _))
          (λ t ht.
            ap (λ b. checksum (slice b (j.lh.offset t) (j.lh.len t)))
              (update_ne cached slot (j.start + t + 1) to (λ e. omega arith))
            ∙ v.sum t ht
            ∙ sym (update_ne s.lh.cksum i t _ (λ e. omega arith)));
    bytes =
        below_suc
          (λ t.
            (x : ℕ)
            → j.lh.offset t ≤ x
            → x < j.lh.offset t + j.lh.len t
            → update cached slot to (j.start + t + 1) x ≡ j.buffers.cached (j.lh.block t) x)
          i
          (λ x lo hi.
            ap (λ (b : Block). b x) (update_self cached slot to)
            ∙ copied x lo hi
            ∙ ap (λ (b : Block). b x) (v.home (j.lh.block i) (placed.home i lt)))
          (λ t ht x lo hi.
            ap (λ (b : Block). b x) (update_ne cached slot (j.start + t + 1) to (λ e. omega arith))
            ∙ v.bytes t ht x lo hi);
    on_disk =
        below_suc
          (λ t.
            update (image d s.buffers.commands) slot (update cached slot to slot) (j.start + t + 1)
            ≡ update cached slot to (j.start + t + 1))
          i (update_self (image d s.buffers.commands) slot (update cached slot to slot))
          (λ t ht.
            update_ne (image d s.buffers.commands) slot (j.start + t + 1) _ (λ e. omega arith)
            ∙ v.on_disk t ht
            ∙ sym (update_ne cached slot (j.start + t + 1) to (λ e. omega arith)));
    home = λ b hb. update_ne cached slot b to (λ e. slot_ne b hb (sym e)) ∙ v.home b hb;
    images = (
      slot-IsIdle i _ (image d s.buffers.commands) lt
          (AllImages-now (IsIdle j.start old) d s.buffers.commands v.images),
      v.images,
    );
  })
    where
      cached : ℕ → Block
      cached = s.buffers.cached

      slot : ℕ
      slot = j.start + i + 1

      off : ℕ
      off = j.lh.offset i

      len : ℕ
      len = j.lh.len i

      to : Block
      to = copy_slice (cached slot) (cached (j.lh.block i)) off len

      slot_ne : (b : ℕ) → IsHome j.start b → slot ≢ b
      slot_ne b hb e = let q : j.lh.n < nlog = placed.fits in omega arith

      copied : (x : ℕ) → off ≤ x → x < off + len → to x ≡ cached (j.lh.block i) x
      copied x lo hi = ground arith

  -- `write_log` from an idle disk.
  pub write_log-Logging :
      IsSound j.crc
      → AllImages (IsIdle j.start old) d j.buffers.commands
      → Logging j.lh.n (write_log j)
  unfolding write_log
  write_log-Logging sound images =
      subst (λ k. Logging j.lh.n (for_range log_entry 0 k j))
        (sym (rounds_small j.lh.n (omega (arith, placed.fits))))
        (for_range_inv Logging log_entry j.lh.n entry-Logging 0 j.lh.n j (omega arith) (record {
          start_eq = refl;
          phase_eq = refl;
          n_eq = refl;
          block_eq = refl;
          offset_eq = refl;
          len_eq = refl;
          sound = sound;
          sum = λ t ht. absurd (omega arith);
          bytes = λ t ht. absurd (omega arith);
          on_disk = λ t ht. absurd (omega arith);
          home = λ b hb. refl;
          images = images;
        }))
