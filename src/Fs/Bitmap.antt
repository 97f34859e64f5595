-- ===== src/Fs/Bitmap.antt =====
-- The free map: what `balloc` and `bfree` do to the set of used blocks.
pub mod Bits
pub mod Room
pub mod Scan
use operating_systeams_proje.Prelude.{
  ℕ, ◌+◌, ◌-◌, ◌*◌, ◌/◌, ◌%◌, ◌<◌, ◌≡◌, ◌≢◌, inl, inr, refl, sym, ◌∙◌, ap, subst, Bool, true, false,
  not, ◌&&◌, ◌||◌, Option, none, some, ◌==◌, update, update_self, update_ne, min, arith, Bool-cases,
}
use operating_systeams_proje.Prelude.Search.{IsFirst}
use operating_systeams_proje.Disk.{Block, bread}
use operating_systeams_proje.Journal.{returns, panics, bsize}
use operating_systeams_proje.Fs.{
  Fs, bpb, bblock, Ran, ran, panicked, blocked, give, panic, panic_if, get, read_block, store_block,
  bind_ran, bind_panicked,
}
use operating_systeams_proje.Fs.Blocks.{
  bzero, is_used, mark_used, mark_free, find_free, take_block, take_found, balloc, bfree,
}
use operating_systeams_proje.Fs.Bitmap.Bits.{
  used, is_used-mark_used, is_used-mark_free, marked, clash, used_bit, not-false, not-true,
}
use operating_systeams_proje.Fs.Bitmap.Room.{HasRoom, stored, same_room, Logged, logged}
use operating_systeams_proje.Fs.Bitmap.Scan.{is_clear, find_free-IsFirst}

-- What `take_block` leaves: the bit of `b` set, the block zeroed.
record Taken (b : ℕ) (s s' : Fs) : Type 0 where
  icache_is : s'.icache ≡ s.icache
  sb_is : s'.sb ≡ s.sb
  cached_is :
      s'.journal.buffers.cached
      ≡ update
          (update s.journal.buffers.cached
            (bblock b s.sb)
            (mark_used (s.journal.buffers.cached (bblock b s.sb)) (b % bpb)))
          b
          (λ x. 0)

take_block-Taken :
    (b : ℕ) (s : Fs) → HasRoom 2 s.journal → (s' : Fs) × (take_block b s ≡ ran b s') × Taken b s s'
unfolding take_block bzero get read_block store_block give
take_block-Taken b s r =
    let at : ℕ = bblock b s.sb in
    let bits : Block = mark_used (bread s.journal.buffers at) (b % bpb) in
    let s1 : Fs = stored at bits s in
    let l1 : Logged 1 at (b % bpb / 8) 1 s1 =
      logged 1 at (b % bpb / 8) 1 s1 (same_room s at bits r) in
    let s2 : Fs = record s1 { journal = l1.after } in
    let s3 : Fs = stored b (λ x. 0) s2 in
    let l2 : Logged 0 b 0 bsize s3 = logged 0 b 0 bsize s3 (same_room s2 b (λ x. 0) l1.room) in
    (
      record s3 { journal = l2.after },
      bind_ran _ _ s _ s refl
          ∙ bind_ran _ _ s _ s refl
          ∙ bind_ran _ _ s _ s1 refl
          ∙ bind_ran _ _ s1 _ s2 l1.returned
          ∙ bind_ran _ _ s2 _ _ (bind_ran _ _ s2 _ s3 refl ∙ l2.returned),
      record {
        icache_is = refl;
        sb_is = refl;
        cached_is = l2.cached_is ∙ ap (λ c. update c b (λ x. 0)) l1.cached_is;
      },
    )

-- Block `b` has been allocated between the two states.
pub record Allocated (b : ℕ) (s s' : Fs) : Type 0 where
  pub below : b < s.sb.size
  pub was_clear : used s.journal.buffers.cached s.sb b ≡ false
  pub lowest : (c : ℕ) → c < b → used s.journal.buffers.cached s.sb c ≡ true
  pub bits :
      (c : ℕ)
      → c < s.sb.size
      → used s'.journal.buffers.cached s'.sb c ≡ (c == b) || used s.journal.buffers.cached s.sb c
  pub zeroed : s'.journal.buffers.cached b ≡ (λ x. 0)
  pub others :
      (n : ℕ) → n ≢ b → n ≢ bblock b s.sb → s'.journal.buffers.cached n ≡ s.journal.buffers.cached n
  pub inodes : s'.icache ≡ s.icache

abbrev pub Allocates : Fs → Ran ℕ → Type 0
Allocates s (ran b s') = Allocated b s s'
Allocates s panicked = (c : ℕ) → c < s.sb.size → used s.journal.buffers.cached s.sb c ≡ true
Allocates s blocked = ⊥

-- The mark of block `b` has been taken away, and nothing else.
pub record Freed (b : ℕ) (s s' : Fs) : Type 0 where
  pub was_used : used s.journal.buffers.cached s.sb b ≡ true
  pub bits :
      (c : ℕ)
      → used s'.journal.buffers.cached s'.sb c
        ≡ not (c == b) && used s.journal.buffers.cached s.sb c
  pub others :
      (n : ℕ) → n ≢ bblock b s.sb → s'.journal.buffers.cached n ≡ s.journal.buffers.cached n
  pub inodes : s'.icache ≡ s.icache

abbrev pub Frees : ℕ → Fs → Ran (Unit {0}) → Type 0
Frees b s (ran _ s') = Freed b s s'
Frees b s panicked = used s.journal.buffers.cached s.sb b ≡ false
Frees b s blocked = ⊥

allocated :
    (b : ℕ) (s s' : Fs)
    → ((c : ℕ) → c < s.sb.size → used s.journal.buffers.cached s.sb (bblock c s.sb) ≡ true)
    → b < s.sb.size
    → used s.journal.buffers.cached s.sb b ≡ false
    → ((c : ℕ) → c < b → used s.journal.buffers.cached s.sb c ≡ true)
    → Taken b s s'
    → Allocated b s s'
allocated b s s' map lt clear low t =
    let d : ℕ → Block = s.journal.buffers.cached in
    let at : ℕ = bblock b s.sb in
    let bits : Block = mark_used (d at) (b % bpb) in
    let apart : (c : ℕ) → c < s.sb.size → bblock c s.sb ≢ b =
      λ c l e. clash (used d s.sb b) (ap (used d s.sb) (sym e) ∙ map c l) clear in
    let far_from : (n : ℕ) → n ≢ b → s'.journal.buffers.cached n ≡ update d at bits n =
      λ n ne. ap (λ g. g n) t.cached_is ∙ update_ne (update d at bits) b n (λ x. 0) ne in
    record {
      below = lt;
      was_clear = clear;
      lowest = low;
      bits = λ c l.
          ap (λ sb. used s'.journal.buffers.cached sb c) t.sb_is
          ∙ marked d s.sb b c bits s'.journal.buffers.cached (λ x y. x || y)
              (λ k. is_used-mark_used (d at) (b % bpb) k (used_bit d s.sb b ∙ clear)) (λ y. refl)
              (λ e.
                far_from (bblock c s.sb) (apart c l)
                ∙ ap (update d at bits) e
                ∙ update_self d at bits)
              (λ ne. far_from (bblock c s.sb) (apart c l) ∙ update_ne d at (bblock c s.sb) bits ne);
      zeroed = ap (λ g. g b) t.cached_is ∙ update_self (update d at bits) b (λ x. 0);
      others = λ n far off. far_from n far ∙ update_ne d at n bits off;
      inodes = t.icache_is;
    }

-- If the blocks that hold the map are marked as used, and the log has room for two writes, `balloc`
-- returns the lowest block below the size that is not marked. It has marked this block and no
-- other, zeroed it, and left the other blocks outside the map and the inodes alone. It panics only if
-- all blocks are marked, and it does not wait.
pub balloc-Allocates :
    (s : Fs)
    → ((c : ℕ) → c < s.sb.size → used s.journal.buffers.cached s.sb (bblock c s.sb) ≡ true)
    → HasRoom 2 s.journal
    → Allocates s (balloc s)
unfolding balloc is_clear get panic
balloc-Allocates s map r = subst (Allocates s) (sym (bind_ran get _ s s s refl)) (
    go (find_free s 0 ((s.sb.size + (bpb - 1)) / bpb)) (
      subst (λ k. IsFirst (is_clear s) 0 k (find_free s 0 ((s.sb.size + (bpb - 1)) / bpb)))
        all_blocks (find_free-IsFirst s 0 ((s.sb.size + (bpb - 1)) / bpb) refl)))
  where
    all_blocks : min ((s.sb.size + (bpb - 1)) / bpb * bpb) (s.sb.size - 0) ≡ s.sb.size
    all_blocks = omega arith

    marked_of : (c : ℕ) → is_clear s c ≡ false → used s.journal.buffers.cached s.sb c ≡ true
    marked_of c = not-false (used s.journal.buffers.cached s.sb c)

    unmarked_of : (c : ℕ) → is_clear s c ≡ true → used s.journal.buffers.cached s.sb c ≡ false
    unmarked_of c = not-true (used s.journal.buffers.cached s.sb c)

    go : (o : Option ℕ) → IsFirst (is_clear s) 0 s.sb.size o → Allocates s (take_found o s)
    go none f = λ c l. marked_of c (f c (omega arith) (omega arith))
    go (some b) (lo, hi, hit, before) =
        let (s', e, t) = take_block-Taken b s r in
        subst (Allocates s) (sym e) (
          allocated b s s' map (omega arith) (unmarked_of b hit)
            (λ c l. marked_of c (before c (omega arith) l)) t)

mark_free-Freed :
    (b : ℕ) (s s' : Fs)
    → is_used (s.journal.buffers.cached (bblock b s.sb)) (b % bpb) ≡ true
    → s'.journal.buffers.cached
      ≡ update s.journal.buffers.cached
          (bblock b s.sb)
          (mark_free (s.journal.buffers.cached (bblock b s.sb)) (b % bpb))
    → s'.sb ≡ s.sb
    → s'.icache ≡ s.icache
    → Freed b s s'
mark_free-Freed b s s' set cached sb_is icache_is =
    let d : ℕ → Block = s.journal.buffers.cached in
    let at : ℕ = bblock b s.sb in
    let bits : Block = mark_free (d at) (b % bpb) in
    record {
      was_used = sym (used_bit d s.sb b) ∙ set;
      bits = λ c.
          ap (λ sb. used s'.journal.buffers.cached sb c) sb_is
          ∙ marked d s.sb b c bits s'.journal.buffers.cached (λ x y. not x && y)
              (λ k. is_used-mark_free (d at) (b % bpb) k set) (λ y. refl)
              (λ e.
                ap (λ g. g (bblock c s.sb)) cached
                ∙ ap (update d at bits) e
                ∙ update_self d at bits)
              (λ ne. ap (λ g. g (bblock c s.sb)) cached ∙ update_ne d at (bblock c s.sb) bits ne);
      others = λ n off. ap (λ g. g n) cached ∙ update_ne d at n bits off;
      inodes = icache_is;
    }

-- `bfree` of a block that is not marked panics. Of a marked one, with room in the log for a write, it
-- returns and has taken this mark away and no other, and left the blocks outside the map and the inodes
-- alone.
pub bfree-Frees : (b : ℕ) (s : Fs) → HasRoom 1 s.journal → Frees b s (bfree b s)
unfolding bfree get read_block store_block give panic
bfree-Frees b s r =
    let at : ℕ = bblock b s.sb in
    let d : ℕ → Block = s.journal.buffers.cached in
    subst (Frees b s) (sym (bind_ran get _ s s s refl ∙ bind_ran (read_block at) _ s (d at) s refl))
      (elim (Bool-cases (is_used (d at) (b % bpb))) [
        | inl e ↦
            let s1 : Fs = stored at (mark_free (d at) (b % bpb)) s in
            let l : Logged 0 at (b % bpb / 8) 1 s1 =
              logged 0 at (b % bpb / 8) 1 s1 (same_room s at (mark_free (d at) (b % bpb)) r) in
            subst (Frees b s)
              (sym (
                bind_ran _ _ s tt s (ap (λ (x : Bool). panic_if (not x) s) e)
                ∙ bind_ran _ _ s tt s1 refl
                ∙ l.returned))
              (mark_free-Freed b s (record s1 { journal = l.after }) e l.cached_is refl refl)
        | inr e ↦
            subst (Frees b s) (sym (bind_panicked _ _ s (ap (λ (x : Bool). panic_if (not x) s) e)))
              (sym (used_bit d s.sb b) ∙ e)
      ])
