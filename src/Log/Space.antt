-- ===== src/Log/Space.antt =====
-- `begin_op`, `log_write` and `end_op` together: the reservation of log space. A schedule is any
-- sequence of the calls; each running operation has the blocks that it may still add.
use operating_systeams_proje.Prelude.{
  ℕ, suc, ◌+◌, ◌-◌, ◌*◌, ◌^◌, ◌≤◌, ◌<◌, ◌≡◌, ◌⊎◌, inl, inr, sym, ◌∙◌, ap, subst, true, false, List,
  [], ◌∷◌, ◌++◌, length, length-append, update, arith, some, All, ltb, Bool-cases,
}
use operating_systeams_proje.Prelude.Words.{word}
use operating_systeams_proje.Journal.{
  logsize, nlog, maxopblocks, LogHeader, Journal, returns, panics,
}
use operating_systeams_proje.Log.{
  note_write, find_entry, merge_entry, append_entry, log_write, begin_op, end_op_locked,
}

unfoldable pub sum : List ℕ → ℕ
sum [] = 0
sum (x ∷ xs) = x + sum xs

sum-append : (xs ys : List ℕ) → sum (xs ++ ys) ≡ sum xs + sum ys
unfolding sum
sum-append [] ys = omega arith
sum-append (x ∷ xs) ys = omega (arith, sum-append xs ys)

-- No operation has more than `MAXOPBLOCKS` blocks.
abbrev pub Within : List ℕ → Type 0
Within = All (λ k. k ≤ maxopblocks)

sum-Within : (xs : List ℕ) → Within xs → sum xs ≤ length xs * maxopblocks
unfolding sum
sum-Within [] w = omega arith
sum-Within (x ∷ xs) w = omega (arith, sum-Within xs w.1)

Within-left : (xs ys : List ℕ) → Within (xs ++ ys) → Within xs
Within-left [] ys w = tt
Within-left (x ∷ xs) ys w = (w.0, Within-left xs ys w.1)

Within-right : (xs ys : List ℕ) → Within (xs ++ ys) → Within ys
Within-right [] ys w = w
Within-right (x ∷ xs) ys w = Within-right xs ys w.1

Within-append : (xs ys : List ℕ) → Within xs → Within ys → Within (xs ++ ys)
Within-append [] ys v w = w
Within-append (x ∷ xs) ys v w = (v.0, Within-append xs ys v.1 w)

-- The journal, and for each running operation how many blocks it may still add to the log.
pub record System : Type 0 where
  pub journal : Journal
  pub budgets : List ℕ

-- One call that returns. A `log_write` uses one block of its operation's budget, unless the
-- log has the block already; `end_op` is that of an operation that is not the last one.
pub data Call : System → System → Type 0 where
  begins :
      {s : System} (j : Journal)
      → begin_op s.journal ≡ some j
      → Call s (record { journal = j; budgets = maxopblocks ∷ s.budgets })
  writes :
      (before after : List ℕ) (k : ℕ) {j : Journal} (r : Journal) (b off len : ℕ)
      → log_write b off len j ≡ returns r
      → Call
          (record { journal = j; budgets = before ++ (suc k ∷ after) })
          (record { journal = r; budgets = before ++ (k ∷ after) })
  rewrites :
      {s : System} (r : Journal) (b off len i : ℕ)
      → find_entry s.journal.lh.block b 0 s.journal.lh.n ≡ some i
      → log_write b off len s.journal ≡ returns r
      → Call s (record { journal = r; budgets = s.budgets })
  ends :
      (before after : List ℕ) (k : ℕ) {j : Journal} (r : Journal)
      → end_op_locked j ≡ some (r, false)
      → Call
          (record { journal = j; budgets = before ++ (k ∷ after) })
          (record { journal = r; budgets = before ++ after })

pub data Reach (s : System) : System → Type 0 where
  here : Reach s s
  next : {t u : System} → Reach s t → Call t u → Reach s u

-- What the entries and the budgets take fits into the log, and `outstanding` counts the operations.
pub record IsReserved (s : System) : Type 0 where
  pub room : s.journal.lh.n + sum s.budgets ≤ logsize
  pub counted : s.journal.outstanding ≡ length s.budgets
  pub bounded : Within s.budgets
  pub few : length s.budgets ≤ logsize

n-note_write : (h : LogHeader) (b off len : ℕ) → (note_write h b off len).n ≤ h.n + 1
unfolding note_write merge_entry append_entry
n-note_write h b off len = ground arith

begins-IsReserved :
    (s : System) (j : Journal)
    → IsReserved s
    → begin_op s.journal ≡ some j
    → IsReserved (record { journal = j; budgets = maxopblocks ∷ s.budgets })
unfolding begin_op sum
begins-IsReserved s j v e = ground (arith, sum-Within s.budgets v.bounded)

write_facts :
    (b off len : ℕ) (j r : Journal)
    → log_write b off len j ≡ returns r
    → (r.lh ≡ note_write j.lh b off len) × (r.outstanding ≡ j.outstanding)
unfolding log_write
write_facts b off len j r e = ground arith

n-merge :
    (h : LogHeader) (b off len i : ℕ)
    → find_entry h.block b 0 h.n ≡ some i
    → (note_write h b off len).n ≡ h.n
unfolding note_write merge_entry append_entry
n-merge h b off len i e = ground arith

end_facts :
    (j r : Journal)
    → end_op_locked j ≡ some (r, false)
    → (r.lh ≡ j.lh) × (r.outstanding ≡ word (j.outstanding + 2 ^ 32 - 1))
unfolding end_op_locked
end_facts j r e = ground arith

-- Every call keeps the reservation.
pub Call-IsReserved : {s t : System} → Call s t → IsReserved s → IsReserved t
unfolding sum
Call-IsReserved (begins {s} j e) v = begins-IsReserved s j v e
Call-IsReserved (rewrites {s} r b off len i known e) v =
    let f : (r.lh ≡ note_write s.journal.lh b off len) × (r.outstanding ≡ s.journal.outstanding) =
      write_facts b off len s.journal r e in
    let n : r.lh.n ≡ s.journal.lh.n =
      ap (λ (h : LogHeader). h.n) f.0 ∙ n-merge s.journal.lh b off len i known in
    record {
      room = omega (arith, v.room);
      counted = f.1 ∙ v.counted;
      bounded = v.bounded;
      few = v.few;
    }
Call-IsReserved (writes before after k {j} r b off len e) v =
    let f : (r.lh ≡ note_write j.lh b off len) × (r.outstanding ≡ j.outstanding) =
      write_facts b off len j r e in
    let n : r.lh.n ≤ j.lh.n + 1 =
      subst (λ (h : LogHeader). h.n ≤ j.lh.n + 1) (sym f.0) (n-note_write j.lh b off len) in
    let a : sum (before ++ (suc k ∷ after)) ≡ sum before + (suc k + sum after) =
      sum-append before (suc k ∷ after) in
    let a' : sum (before ++ (k ∷ after)) ≡ sum before + (k + sum after) =
      sum-append before (k ∷ after) in
    let l : length (before ++ (suc k ∷ after)) ≡ length before + suc (length after) =
      length-append before (suc k ∷ after) in
    let l' : length (before ++ (k ∷ after)) ≡ length before + suc (length after) =
      length-append before (k ∷ after) in
    record {
      room = omega (arith, v.room);
      counted = f.1 ∙ v.counted ∙ l ∙ sym l';
      bounded =
          let w : Within (suc k ∷ after) = Within-right before (suc k ∷ after) v.bounded in
          Within-append before (k ∷ after) (Within-left before (suc k ∷ after) v.bounded)
            (omega (arith, w.0), w.1);
      few = omega (arith, v.few);
    }
Call-IsReserved (ends before after k {j} r e) v =
    let f : (r.lh ≡ j.lh) × (r.outstanding ≡ word (j.outstanding + 2 ^ 32 - 1)) = end_facts j r e in
    let n : r.lh.n ≡ j.lh.n = ap (λ (h : LogHeader). h.n) f.0 in
    let a : sum (before ++ (k ∷ after)) ≡ sum before + (k + sum after) =
      sum-append before (k ∷ after) in
    let a' : sum (before ++ after) ≡ sum before + sum after = sum-append before after in
    let l : length (before ++ (k ∷ after)) ≡ length before + suc (length after) =
      length-append before (k ∷ after) in
    let l' : length (before ++ after) ≡ length before + length after = length-append before after in
    record {
      room = omega (arith, v.room);
      counted = omega (arith, f.1, v.counted, v.few);
      bounded =
          Within-append before after (Within-left before (k ∷ after) v.bounded)
            (Within-right before (k ∷ after) v.bounded).1;
      few = omega (arith, v.few);
    }

-- The reservation holds after any schedule of calls from a state in which it holds: the entries and
-- what the running operations may still add fit into `LOGSIZE`, and `outstanding` counts them.
pub Reach-IsReserved : {s t : System} → IsReserved s → Reach s t → IsReserved t
Reach-IsReserved v here = v
Reach-IsReserved v (next r c) = Call-IsReserved c (Reach-IsReserved v r)

-- The log as mkfs makes it has `LOGSIZE` blocks, the header's included. After any schedule of calls
-- from a state in which the reservation holds, a `log_write` of an operation with budget left returns,
-- with room for what is still reserved and every entry in its slot; or it panics, and then the entries
-- fill every slot and this one block was all that was still reserved.
pub log_write_room :
    (s0 s : System) (before after : List ℕ) (k b off len : ℕ)
    → IsReserved s0
    → Reach s0 s
    → s.budgets ≡ before ++ (suc k ∷ after)
    → s.journal.size ≡ nlog
    → ((r : Journal) × (log_write b off len s.journal ≡ returns r)
        × (r.lh.n + sum (before ++ (k ∷ after)) ≤ logsize)
        × (r.lh.n < nlog))
      ⊎ ((log_write b off len s.journal ≡ panics s.journal)
          × (s.journal.lh.n + 1 ≡ nlog)
          × (sum s.budgets ≡ 1))
unfolding log_write sum
log_write_room s0 s before after k b off len v0 path e size =
    let v : IsReserved s = Reach-IsReserved v0 path in
    let a : sum s.budgets ≡ sum before + (suc k + sum after) =
      ap sum e ∙ sum-append before (suc k ∷ after) in
    let a' : sum (before ++ (k ∷ after)) ≡ sum before + (k + sum after) =
      sum-append before (k ∷ after) in
    let l : length s.budgets ≡ length before + suc (length after) =
      ap length e ∙ length-append before (suc k ∷ after) in
    let some_op : 1 ≤ s.journal.outstanding = omega (arith, v.counted) in
    let few : s.journal.outstanding ≤ logsize = omega (arith, v.counted, v.few) in
    let grows : (note_write s.journal.lh b off len).n ≤ s.journal.lh.n + 1 =
      n-note_write s.journal.lh b off len in
    elim (Bool-cases (ltb s.journal.lh.n 29)) [
      | inl room ↦
          let small : s.journal.lh.n < 29 = ground arith in
          inl (
            record (s.journal) {
              lh = note_write s.journal.lh b off len;
              buffers = record (s.journal.buffers) {
                dirty = update s.journal.buffers.dirty b true;
              };
            },
            ground arith,
            omega (arith, v.room),
            omega arith,
          )
      | inr full ↦
          let big : s.journal.lh.n ≡ 29 = ground (arith, v.room) in
          inr (ground arith, omega (arith, v.room), omega (arith, v.room))
    ]
