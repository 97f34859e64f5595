-- ===== src/Log/Absorb.antt =====
-- `log_write`: absorption. One entry stands for a block, and its range holds every range that was
-- noted for it.
use operating_systeams_proje.Prelude.{
  ℕ, zero, suc, ◌+◌, ◌≤◌, ◌<◌, ◌≡◌, ◌≢◌, ◌⊎◌, inl, inr, sym, ◌∙◌, ap, subst, true, false, ◌==◌,
  arith, Bool-cases, Option, none, some,
}
use operating_systeams_proje.Disk.{Block}
use operating_systeams_proje.Journal.{logsize, bsize, LogHeader, Journal, returns}
use operating_systeams_proje.Log.{find_entry, merge_entry, append_entry, note_write, log_write}
use operating_systeams_proje.Log.Images.{Covers}

abbrev Found : (ℕ → ℕ) → ℕ → ℕ → ℕ → Option ℕ → Type 0
Found block b i k none = (t : ℕ) → i ≤ t → t < i + k → block t ≢ b
Found block b i k (some t) = (i ≤ t) × (t < i + k) × (block t ≡ b)

find_entry-Found : (block : ℕ → ℕ) (b i k : ℕ) → Found block b i k (find_entry block b i k)
unfolding find_entry
find_entry-Found block b i zero = λ t lo hi. absurd (omega arith)
find_entry-Found block b i (suc k) = elim (Bool-cases (block i == b)) [
  | inl e ↦ rw e (omega arith, omega arith, ground arith)
  | inr e ↦ rw e (later (find_entry block b (suc i) k) (find_entry-Found block b (suc i) k) e)
]
  where
    later :
        (o : Option ℕ)
        → Found block b (suc i) k o
        → (block i == b) ≡ false
        → Found block b i (suc k) o
    later none f e = λ t lo hi. elim (Bool-cases (t == i)) [
      | inl q ↦ λ h. ground (arith, ap block {x = t} {y = i} (ground arith))
      | inr q ↦ f t (ground arith) (ground arith)
    ]
    later (some t) f e = (omega arith, omega arith, f.2)

-- The log's entries: room for each, no block twice, and each range inside its block.
pub record IsWellFormed (h : LogHeader) : Type 0 where
  pub fits : h.n ≤ logsize
  pub distinct : (s t : ℕ) → s < h.n → t < h.n → h.block s ≡ h.block t → s ≡ t
  pub in_block : (t : ℕ) → t < h.n → h.offset t + h.len t ≤ bsize

module _ (h : LogHeader) (b off len : ℕ) where
  -- Widening entry `i` keeps what it covers and takes in the new range.
  merged-Covers :
      (i b' x t : ℕ) → i < h.n → Covers h 0 b' x t → Covers (merge_entry h i off len) 0 b' x t
  unfolding merge_entry
  merged-Covers i b' x t lt c = elim (Bool-cases (t == i)) [
    | inl e ↦
        let same : t ≡ i = ground arith in
        let o : h.offset t ≡ h.offset i = ap h.offset same in
        let l : h.len t ≡ h.len i = ap h.len same in
        (c.0, c.1, c.2, ground (arith, c.3, c.4), ground (arith, c.3, c.4))
    | inr e ↦ (c.0, c.1, c.2, ground (arith, c.3), ground (arith, c.4))
  ]

  merged_range :
      (i x : ℕ)
      → i < h.n
      → h.block i ≡ b
      → off ≤ x
      → x < off + len
      → Covers (merge_entry h i off len) 0 b x i
  unfolding merge_entry
  merged_range i x lt e lo hi = (omega arith, lt, e, ground arith, ground arith)

  appended-Covers : (b' x t : ℕ) → Covers h 0 b' x t → Covers (append_entry h b off len) 0 b' x t
  unfolding append_entry
  appended-Covers b' x t c = (
    c.0,
    omega (arith, c.1),
    ground (arith, c.1, c.2),
    ground (arith, c.1, c.3),
    ground (arith, c.1, c.4),
  )

  appended_range : (x : ℕ) → off ≤ x → x < off + len → Covers (append_entry h b off len) 0 b x h.n
  unfolding append_entry
  appended_range x lo hi = (omega arith, omega arith, ground arith, ground arith, ground arith)

  note_write-Covers :
      (b' x : ℕ)
      → ((t : ℕ) × Covers h 0 b' x t)
      → (t : ℕ) × Covers (note_write h b off len) 0 b' x t
  unfolding note_write
  note_write-Covers b' x (t, c) =
      by_found (find_entry h.block b 0 h.n) (find_entry-Found h.block b 0 h.n)
    where
      by_found :
          (o : Option ℕ)
          → Found h.block b 0 h.n o
          → (u : ℕ) × Covers
              (elim o [ none ↦ append_entry h b off len | some i ↦ merge_entry h i off len ])
              0
              b'
              x
              u
      by_found none f = (t, appended-Covers b' x t c)
      by_found (some i) f = (t, merged-Covers i b' x t (omega (arith, f.1)) c)

  note_write_range :
      (x : ℕ) → off ≤ x → x < off + len → (t : ℕ) × Covers (note_write h b off len) 0 b x t
  unfolding note_write
  note_write_range x lo hi =
      by_found (find_entry h.block b 0 h.n) (find_entry-Found h.block b 0 h.n)
    where
      by_found :
          (o : Option ℕ)
          → Found h.block b 0 h.n o
          → (u : ℕ) × Covers
              (elim o [ none ↦ append_entry h b off len | some i ↦ merge_entry h i off len ])
              0
              b
              x
              u
      by_found none f = (h.n, appended_range x lo hi)
      by_found (some i) f = (i, merged_range i x (omega (arith, f.1)) f.2 lo hi)

  appended-IsWellFormed :
      h.n < logsize
      → off + len ≤ bsize
      → ((t : ℕ) → t < h.n → h.block t ≢ b)
      → IsWellFormed h
      → IsWellFormed (append_entry h b off len)
  unfolding append_entry
  appended-IsWellFormed room fit absent w = record {
    fits = omega arith;
    distinct = λ s t hs ht e. ground (arith, w.distinct s t, absent s, absent t);
    in_block = λ t ht. ground (arith, w.in_block t);
  }

  merged-IsWellFormed :
      (i : ℕ)
      → i < h.n
      → off + len ≤ bsize
      → IsWellFormed h
      → IsWellFormed (merge_entry h i off len)
  unfolding merge_entry
  merged-IsWellFormed i lt fit w = record {
    fits = w.fits;
    distinct = w.distinct;
    in_block = λ t ht. ground (arith, w.in_block t, w.in_block i);
  }

  note_write-IsWellFormed :
      h.n < logsize → off + len ≤ bsize → IsWellFormed h → IsWellFormed (note_write h b off len)
  unfolding note_write
  note_write-IsWellFormed room fit w =
      by_found (find_entry h.block b 0 h.n) (find_entry-Found h.block b 0 h.n)
    where
      by_found :
          (o : Option ℕ)
          → Found h.block b 0 h.n o
          → IsWellFormed
              (elim o [ none ↦ append_entry h b off len | some i ↦ merge_entry h i off len ])
      by_found none f = appended-IsWellFormed room fit (λ t ht. f t (omega arith) (omega arith)) w
      by_found (some i) f = merged-IsWellFormed i (omega (arith, f.1)) fit w

-- What a call that returns has done.
log_write-returns :
    (b off len : ℕ) (j r : Journal)
    → log_write b off len j ≡ returns r
    → (j.lh.n < logsize)
      × (j.lh.n + 1 < j.size)
      × (r.lh ≡ note_write j.lh b off len)
      × (r.buffers.cached ≡ j.buffers.cached)
      × (r.buffers.dirty b ≡ true)
unfolding log_write
log_write-returns b off len j r e = ground arith

-- A `log_write` of a range inside its block that returns keeps the log well formed: room for every
-- entry, no block twice, each range inside its block.
pub log_write-IsWellFormed :
    (b off len : ℕ) (j r : Journal)
    → IsWellFormed j.lh
    → off + len ≤ bsize
    → log_write b off len j ≡ returns r
    → IsWellFormed r.lh
log_write-IsWellFormed b off len j r w fit e =
    let (room, _, eq, _, _) = log_write-returns b off len j r e in
    subst IsWellFormed (sym eq) (note_write-IsWellFormed j.lh b off len room fit w)

-- The log covers what the buffers have changed since `old`. A caller that has changed block `b`
-- between `off` and `off + len`, and nothing else, finds that true again after `log_write`, and its
-- block pinned in the cache.
pub log_write-Covers :
    (b off len : ℕ) (old before : ℕ → Block) (j r : Journal)
    → ((b' x : ℕ) → (old b' x ≡ before b' x) ⊎ ((t : ℕ) × Covers j.lh 0 b' x t))
    → ((b' x : ℕ)
        → (before b' x ≡ j.buffers.cached b' x) ⊎ ((b' ≡ b) × (off ≤ x) × (x < off + len)))
    → log_write b off len j ≡ returns r
    → ((b' x : ℕ) → (old b' x ≡ r.buffers.cached b' x) ⊎ ((t : ℕ) × Covers r.lh 0 b' x t))
      × (r.buffers.dirty b ≡ true)
log_write-Covers b off len old before j r cov touch e =
    let (_, _, eq, same, pinned) = log_write-returns b off len j r e in
    (
      λ b' x.
          subst (λ l. (old b' x ≡ r.buffers.cached b' x) ⊎ ((t : ℕ) × Covers l 0 b' x t)) (sym eq)
            (subst
              (λ (c : ℕ → Block).
                (old b' x ≡ c b' x) ⊎ ((t : ℕ) × Covers (note_write j.lh b off len) 0 b' x t))
              (sym same)
              (elim (touch b' x) [
                | inl kept ↦ elim (cov b' x) [
                  | inl q ↦ inl (q ∙ kept)
                  | inr c ↦ inr (note_write-Covers j.lh b off len b' x c)
                ]
                | inr (at, lo, hi) ↦ inr (
                    subst (λ k. (t : ℕ) × Covers (note_write j.lh b off len) 0 k x t) (sym at)
                      (note_write_range j.lh b off len x lo hi))
              ])),
      pinned,
    )
