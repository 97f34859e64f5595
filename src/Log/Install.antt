-- ===== src/Log/Install.antt =====
-- `install_trans` on a committed log: every slice reaches its home block, and wherever the power
-- fails in between the disk still holds the committed log.
use operating_systeams_proje.Prelude.{
  ℕ, suc, ◌+◌, ◌≤◌, ◌<◌, ◌≡◌, ◌≢◌, ◌⊎◌, inl, inr, refl, sym, ◌∙◌, ap, subst, false, not, ◌==◌,
  update, slice, arith, Bool-cases, update_ne,
}
use operating_systeams_proje.Prelude.Words.{rounds}
use operating_systeams_proje.Prelude.Loops.{for_range, for_range_inv}
use operating_systeams_proje.Crc.{crc32}
use operating_systeams_proje.Crc.Table.{IsSound}
use operating_systeams_proje.Crc.Checksum.{checksum, crc32-checksum, crc32-IsSound}
use operating_systeams_proje.Disk.{Block, image, bwrite, put_data, copy_slice}
use operating_systeams_proje.Journal.{nlog, LogHeader, Journal}
use operating_systeams_proje.Log.{install_slice, install_entry, install_trans}
use operating_systeams_proje.Log.Header.{Encodes, SameEntries, rounds_small}
use operating_systeams_proje.Log.Images.{
  AllImages, IsHome, Covers, UpTo, Shows, IsLogged, IsCommitted, IsPlaced,
}

-- The state after a slice whose checksum is right.
abbrev installed : ℕ → ℕ → ℕ → ℕ → Journal → Journal
installed slot home off n j = record j {
  crc = (crc32 j.crc (slice (j.buffers.cached slot) off n)).1;
  buffers =
      bwrite
        (put_data j.buffers home (copy_slice (j.buffers.cached home) (j.buffers.cached slot) off n))
        home;
  stats = record (j.stats) { blocks_installed = j.stats.blocks_installed + 1 };
}

slice-installed :
    (slot home off n expected : ℕ) (j : Journal)
    → IsSound j.crc
    → checksum (slice (j.buffers.cached slot) off n) ≡ expected
    → install_slice slot home off n expected j ≡ installed slot home off n j
unfolding install_slice
slice-installed slot home off n expected j v e =
    let c : not ((crc32 j.crc (slice (j.buffers.cached slot) off n)).0 == expected) ≡ false =
      ground (arith, crc32-checksum j.crc (slice (j.buffers.cached slot) off n) v) in
    rw c

module _ (start : ℕ) (h : LogHeader) (new : ℕ → Block) (placed : IsPlaced start h) where
  -- Copying entry `i`'s slice over its home block leaves the entries above it to do.
  copied-UpTo :
      (i : ℕ) (f : ℕ → Block)
      → i < h.n
      → IsLogged h new (f (start + i + 1)) i
      → UpTo start h new i f
      → UpTo start h new (suc i) (
          update f
            (h.block i)
            (copy_slice (f (h.block i)) (f (start + i + 1)) (h.offset i) (h.len i)))
  copied-UpTo i f lt l u b x hb = elim (u b x hb) [
    | inl e ↦ inl (ground (arith, l.bytes x))
    | inr (t, c) ↦ elim (Bool-cases (t == i)) [
      | inl same ↦ inl (
          ground (
            arith,
            l.bytes x,
            c,
            ap h.block {x = t} {y = i} (ground arith),
            ap h.offset {x = t} {y = i} (ground arith),
            ap h.len {x = t} {y = i} (ground arith),
          ))
      | inr other ↦ inr (t, (ground (arith, c), c.1, c.2, c.3, c.4))
    ]
  ]

  slot_ne : (b t : ℕ) → IsHome start b → t < h.n → start + t + 1 ≢ b
  slot_ne b t hb ht = let p : h.n < nlog = placed.fits in λ e. omega arith

  start_ne : (b : ℕ) → IsHome start b → start ≢ b
  start_ne b hb = λ e. omega arith

  -- A write outside the log leaves the slots and the header.
  home-IsCommitted :
      (b : ℕ) (v : Block) (f : ℕ → Block)
      → IsHome start b
      → UpTo start h new 0 (update f b v)
      → IsCommitted start h new f
      → IsCommitted start h new (update f b v)
  home-IsCommitted b v f hb u c = record {
    header = subst (Encodes h) (sym (update_ne f b start v (start_ne b hb))) c.header;
    logged = λ t ht.
        subst (λ s. IsLogged h new s t) (sym (update_ne f b (start + t + 1) v (slot_ne b t hb ht)))
          (c.logged t ht);
    up_to = u;
  }

  UpTo-weaken : (i : ℕ) (f : ℕ → Block) → UpTo start h new i f → UpTo start h new 0 f
  UpTo-weaken i f u b x hb = elim (u b x hb) [
    | inl e ↦ inl e
    | inr (t, c) ↦ inr (t, (omega arith, c.1, c.2, c.3, c.4))
  ]

  -- The drive gets the block that the buffer holds.
  written-UpTo :
      (i : ℕ) (f g : ℕ → Block) (v : Block)
      → v ≡ f (h.block i)
      → UpTo start h new (suc i) f
      → UpTo start h new i g
      → UpTo start h new (suc i) (update g (h.block i) v)
  written-UpTo i f g v e uf ug b x hb = elim (Bool-cases (b == h.block i)) [
    | inl hit ↦
        let same : b ≡ h.block i = ground arith in
        let here : update g (h.block i) v b ≡ f b = rw hit (e ∙ ap f (sym same)) in
        subst (λ (w : Block). (w x ≡ new b x) ⊎ ((t : ℕ) × Covers h (suc i) b x t)) (sym here)
          (uf b x hb)
    | inr miss ↦
        let other : update g (h.block i) v b ≡ g b = rw miss in
        subst (λ (w : Block). (w x ≡ new b x) ⊎ ((t : ℕ) × Covers h (suc i) b x t)) (sym other)
          (elim (ug b x hb) [
            | inl q ↦ inl q
            | inr (t, c) ↦ inr (t, (above t c miss, c.1, c.2, c.3, c.4))
          ])
  ]
    where
      above : (t : ℕ) → Covers h i b x t → (b == h.block i) ≡ false → suc i ≤ t
      above t c miss = elim (Bool-cases (t == i)) [
        | inl q ↦ ground (arith, ap h.block {x = t} {y = i} (ground arith), c.2)
        | inr q ↦ ground (arith, c.0)
      ]

  module _ (d : ℕ → Block) (P : (ℕ → Block) → Type 0)
      (holds : (f : ℕ → Block) → IsCommitted start h new f → P f) where
    -- Before round `i` of the loop.
    pub record Installing (i : ℕ) (j : Journal) : Type 0 where
      pub start_eq : j.start ≡ start
      pub same : SameEntries h j.lh
      pub sound : IsSound j.crc
      pub logged : (t : ℕ) → t < h.n → IsLogged h new (j.buffers.cached (start + t + 1)) t
      pub up_to : UpTo start h new i j.buffers.cached
      pub disk_up_to : UpTo start h new i (image d j.buffers.commands)
      pub committed : IsCommitted start h new (image d j.buffers.commands)
      pub images : AllImages P d j.buffers.commands

    entry_slice :
        (i : ℕ) (j : Journal)
        → i < h.n
        → Installing i j
        → install_entry i j ≡ installed (start + i + 1) (h.block i) (h.offset i) (h.len i) j
    unfolding install_entry
    entry_slice i j lt v =
        cc (
          v.start_eq,
          v.same.block_eq i lt,
          v.same.offset_eq i lt,
          v.same.len_eq i lt,
          v.same.cksum_eq i lt,
        )
        ∙ slice-installed (start + i + 1) (h.block i) (h.offset i) (h.len i) (h.cksum i) j v.sound
            (v.logged i lt).sum

    entry-Installing :
        (i : ℕ) (j : Journal) → i < h.n → Installing i j → Installing (suc i) (install_entry i j)
    unfolding image
    entry-Installing i j lt v = subst (Installing (suc i)) (sym (entry_slice i j lt v)) (record {
      start_eq = v.start_eq;
      same = v.same;
      sound = crc32-IsSound j.crc (slice (cached (start + i + 1)) (h.offset i) (h.len i)) v.sound;
      logged = λ t ht.
          subst (λ s. IsLogged h new s t)
            (sym (update_ne cached home (start + t + 1) copy (slot_ne home t hb ht)))
            (v.logged t ht);
      up_to = up;
      disk_up_to = disk_up;
      committed = c;
      images = (holds _ c, v.images);
    })
      where
        cached : ℕ → Block
        cached = j.buffers.cached

        home : ℕ
        home = h.block i

        copy : Block
        copy = copy_slice (cached home) (cached (start + i + 1)) (h.offset i) (h.len i)

        hb : IsHome start home
        hb = placed.home i lt

        up : UpTo start h new (suc i) (update cached home copy)
        up = copied-UpTo i cached lt (v.logged i lt) v.up_to

        disk_up :
            UpTo start h new
              (suc i)
              (update (image d j.buffers.commands) home (update cached home copy home))
        disk_up =
            written-UpTo i (update cached home copy) (image d j.buffers.commands) _ refl up
              v.disk_up_to

        c :
            IsCommitted start h new
              (update (image d j.buffers.commands) home (update cached home copy home))
        c =
            home-IsCommitted home _ (image d j.buffers.commands) hb (UpTo-weaken (suc i) _ disk_up)
              v.committed

    -- The loop ends with every entry installed.
    pub install-Installing : (j : Journal) → Installing 0 j → Installing h.n (install_trans j)
    unfolding install_trans
    install-Installing j v =
        subst (λ k. Installing h.n (for_range install_entry 0 k j))
          (sym (ap rounds v.same.count ∙ rounds_small h.n (omega (arith, placed.fits))))
          (for_range_inv Installing install_entry h.n entry-Installing 0 h.n j (omega arith) v)

  -- With no entry left to do, everything outside the log is new.
  pub UpTo-Shows : (f : ℕ → Block) → UpTo start h new h.n f → Shows start new f
  UpTo-Shows f u b x hb = elim (u b x hb) [ inl e ↦ e | inr (t, c) ↦ absurd (omega arith) ]
