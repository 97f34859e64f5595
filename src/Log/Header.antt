-- ===== src/Log/Header.antt =====
-- The header's block: what `write_head` encodes, `read_head` decodes.
use operating_systeams_proje.Prelude.{
  ℕ, suc, ◌+◌, ◌^◌, ◌≤◌, ◌<◌, ◌≡◌, ◌≢◌, refl, sym, subst, ◌∙◌, ◌==◌, ◌⊎◌, inl, inr, arith,
  Bool-cases,
}
use operating_systeams_proje.Prelude.Words.{rounds, get32, put32, get32-put32, get32-put32_other}
use operating_systeams_proje.Prelude.Loops.{for_range, for_range_inv}
use operating_systeams_proje.Disk.{Block}
use operating_systeams_proje.Journal.{logsize, LogHeader, block_at, cksum_at, offset_at, len_at}
use operating_systeams_proje.Log.{read_entry, write_entry, encode_head}

pub rounds_small : (n : ℕ) → n ≤ logsize → rounds n ≡ n
rounds_small n h = ground arith

-- Every field of the first `n` entries is a word.
pub record IsEncodable (h : LogHeader) : Type 0 where
  pub fits : h.n ≤ logsize
  pub block_word : (t : ℕ) → t < h.n → h.block t < 2 ^ 32
  pub cksum_word : (t : ℕ) → t < h.n → h.cksum t < 2 ^ 32
  pub offset_word : (t : ℕ) → t < h.n → h.offset t < 2 ^ 32
  pub len_word : (t : ℕ) → t < h.n → h.len t < 2 ^ 32

-- Entry `t` of the header stands in the block.
pub record Holds (h : LogHeader) (b : Block) (t : ℕ) : Type 0 where
  pub block_eq : get32 b (block_at t) ≡ h.block t
  pub cksum_eq : get32 b (cksum_at t) ≡ h.cksum t
  pub offset_eq : get32 b (offset_at t) ≡ h.offset t
  pub len_eq : get32 b (len_at t) ≡ h.len t

-- The block decodes to the header.
pub record Encodes (h : LogHeader) (b : Block) : Type 0 where
  pub count : get32 b 0 ≡ h.n
  pub entries : (t : ℕ) → t < h.n → Holds h b t

module _ (h : LogHeader) (v : IsEncodable h) where
  -- A word outside the four fields of entry `i` is kept.
  entry_other :
      (i o : ℕ) (b : Block)
      → ((o + 4 ≤ block_at i) ⊎ (block_at i + 4 ≤ o))
      → ((o + 4 ≤ cksum_at i) ⊎ (cksum_at i + 4 ≤ o))
      → ((o + 4 ≤ offset_at i) ⊎ (offset_at i + 4 ≤ o))
      → ((o + 4 ≤ len_at i) ⊎ (len_at i + 4 ≤ o))
      → get32 (write_entry h i b) o ≡ get32 b o
  unfolding write_entry
  entry_other i o b p q r s =
      get32-put32_other _ (len_at i) (h.len i) o s
      ∙ get32-put32_other _ (offset_at i) (h.offset i) o r
      ∙ get32-put32_other _ (cksum_at i) (h.cksum i) o q
      ∙ get32-put32_other _ (block_at i) (h.block i) o p

  entry_self : (i : ℕ) (b : Block) → i < h.n → Holds h (write_entry h i b) i
  unfolding write_entry
  entry_self i b lt =
      let f : h.n ≤ logsize = v.fits in
      record {
        block_eq =
            get32-put32_other _ (len_at i) (h.len i) (block_at i) (inl (omega arith))
            ∙ get32-put32_other _ (offset_at i) (h.offset i) (block_at i) (inl (omega arith))
            ∙ get32-put32_other _ (cksum_at i) (h.cksum i) (block_at i) (inl (omega arith))
            ∙ get32-put32 _ (block_at i) (h.block i) (v.block_word i lt);
        cksum_eq =
            get32-put32_other _ (len_at i) (h.len i) (cksum_at i) (inl (omega arith))
            ∙ get32-put32_other _ (offset_at i) (h.offset i) (cksum_at i) (inl (omega arith))
            ∙ get32-put32 _ (cksum_at i) (h.cksum i) (v.cksum_word i lt);
        offset_eq =
            get32-put32_other _ (len_at i) (h.len i) (offset_at i) (inl (omega arith))
            ∙ get32-put32 _ (offset_at i) (h.offset i) (v.offset_word i lt);
        len_eq = get32-put32 _ (len_at i) (h.len i) (v.len_word i lt);
      }

  entry_kept :
      (i t : ℕ) (b : Block)
      → i < h.n
      → t < h.n
      → t ≢ i
      → Holds h b t
      → Holds h (write_entry h i b) t
  entry_kept i t b hi ht ne w =
      let f : h.n ≤ logsize = v.fits in
      record {
        block_eq =
            entry_other i (block_at t) b (omega arith) (omega arith) (omega arith) (omega arith)
            ∙ w.block_eq;
        cksum_eq =
            entry_other i (cksum_at t) b (omega arith) (omega arith) (omega arith) (omega arith)
            ∙ w.cksum_eq;
        offset_eq =
            entry_other i (offset_at t) b (omega arith) (omega arith) (omega arith) (omega arith)
            ∙ w.offset_eq;
        len_eq =
            entry_other i (len_at t) b (omega arith) (omega arith) (omega arith) (omega arith)
            ∙ w.len_eq;
      }

  -- The first `i` entries are written.
  record Written (i : ℕ) (b : Block) : Type 0 where
    count : get32 b 0 ≡ h.n
    entries : (t : ℕ) → t < i → Holds h b t

  entry-Written : (i : ℕ) (b : Block) → i < h.n → Written i b → Written (suc i) (write_entry h i b)
  entry-Written i b lt w = record {
    count =
        entry_other i 0 b (inl (omega arith)) (inl (omega arith)) (inl (omega arith))
          (inl (omega arith))
        ∙ w.count;
    entries = λ t ht. elim (Bool-cases (t == i)) [
      | inl e ↦ subst (Holds h (write_entry h i b)) {x = i} (ground arith) (entry_self i b lt)
      | inr e ↦ entry_kept i t b lt (ground arith) (ground arith) (w.entries t (ground arith))
    ];
  }

  rounds_fits : rounds h.n ≡ h.n
  rounds_fits = rounds_small h.n v.fits

  -- If the fields are words, what `write_head` puts into the block decodes to the header.
  pub encode_head-Encodes : (b : Block) → Encodes h (encode_head h b)
  unfolding encode_head
  encode_head-Encodes b =
      subst (λ k. Encodes h (for_range (write_entry h) 0 k (put32 b 0 h.n))) (sym rounds_fits)
        (let f : h.n ≤ logsize = v.fits in
          let w : Written h.n (for_range (write_entry h) 0 h.n (put32 b 0 h.n)) =
            for_range_inv Written (write_entry h) h.n entry-Written 0 h.n (put32 b 0 h.n)
              (omega arith)
              (record {
                count = get32-put32 b 0 h.n (omega arith);
                entries = λ t ht. absurd (omega arith);
              }) in
          record { count = w.count; entries = w.entries })

-- The two headers have the same entries. The arrays may differ above.
pub record SameEntries (h g : LogHeader) : Type 0 where
  pub count : g.n ≡ h.n
  pub block_eq : (t : ℕ) → t < h.n → g.block t ≡ h.block t
  pub cksum_eq : (t : ℕ) → t < h.n → g.cksum t ≡ h.cksum t
  pub offset_eq : (t : ℕ) → t < h.n → g.offset t ≡ h.offset t
  pub len_eq : (t : ℕ) → t < h.n → g.len t ≡ h.len t

module _ (h : LogHeader) (b : Block) (v : h.n ≤ logsize) (w : Encodes h b) where
  record IsRead (i : ℕ) (g : LogHeader) : Type 0 where
    count : g.n ≡ h.n
    block_eq : (t : ℕ) → t < i → g.block t ≡ h.block t
    cksum_eq : (t : ℕ) → t < i → g.cksum t ≡ h.cksum t
    offset_eq : (t : ℕ) → t < i → g.offset t ≡ h.offset t
    len_eq : (t : ℕ) → t < i → g.len t ≡ h.len t

  entry-IsRead : (i : ℕ) (g : LogHeader) → i < h.n → IsRead i g → IsRead (suc i) (read_entry b i g)
  unfolding read_entry
  entry-IsRead i g lt r =
      let e : Holds h b i = w.entries i lt in
      record {
        count = r.count;
        block_eq = λ t ht. ground (arith, r.block_eq t, e.block_eq);
        cksum_eq = λ t ht. ground (arith, r.cksum_eq t, e.cksum_eq);
        offset_eq = λ t ht. ground (arith, r.offset_eq t, e.offset_eq);
        len_eq = λ t ht. ground (arith, r.len_eq t, e.len_eq);
      }

  -- The loop of `read_head` finds the entries that the block encodes.
  pub read-SameEntries :
      (g : LogHeader)
      → SameEntries h (for_range (read_entry b) 0 (rounds (get32 b 0)) (record g { n = get32 b 0 }))
  read-SameEntries g =
      subst (λ k. SameEntries h (for_range (read_entry b) 0 (rounds k) (record g { n = k })))
        (sym w.count)
        (subst (λ k. SameEntries h (for_range (read_entry b) 0 k (record g { n = h.n })))
          (sym (rounds_small h.n v))
          (let r : IsRead h.n (for_range (read_entry b) 0 h.n (record g { n = h.n })) =
              for_range_inv IsRead (read_entry b) h.n entry-IsRead 0 h.n (record g { n = h.n })
                (omega arith)
                (record {
                  count = refl;
                  block_eq = λ t ht. absurd (omega arith);
                  cksum_eq = λ t ht. absurd (omega arith);
                  offset_eq = λ t ht. absurd (omega arith);
                  len_eq = λ t ht. absurd (omega arith);
                }) in
            record {
              count = r.count;
              block_eq = r.block_eq;
              cksum_eq = r.cksum_eq;
              offset_eq = r.offset_eq;
              len_eq = r.len_eq;
            }))
