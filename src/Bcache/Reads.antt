-- ===== src/Bcache/Reads.antt =====
-- `bread` against the view of the buffers.
use operating_systeams_proje.Prelude.{
  ℕ, ◌≤◌, ◌<◌, ◌≡◌, ◌≢◌, ◌⊎◌, inl, inr, refl, sym, ◌∙◌, ap, ap₂, subst, fun_ext, true, false, not,
  ◌&&◌, leb, Option, none, some, ◌==◌, if◌then◌else◌, update, at_update, update_self, arith,
  Bool-cases, if_true, if_false,
}
use operating_systeams_proje.Bcache.{
  fssize, Buf, Bcache, Bget, got, no_buffers, ide_panics, waits, served, iderw, after_iderw, scan,
  is_block, bget, read_in, bread,
}
use operating_systeams_proje.Bcache.View.{
  content, view, IsCoherent, Scanned, scan-Scanned, view_lem, is_its, view_of,
}
use operating_systeams_proje.Bcache.Steps.{Same, Same-trans, with_buf, field}
use operating_systeams_proje.Bcache.Taking.{Held, Cached, Uncached, AllTaken, Gets, bget-Gets}

-- The buffer `i`, read from the drive.
abbrev read_buf : Bcache → ℕ → Bcache
read_buf s i =
    with_buf s i (record (s.buf i) { valid = true; bytes = s.disk (s.buf i).dev (s.buf i).blockno })

read_buf-Same :
    (s : Bcache) (i : ℕ) → IsCoherent s → (s.buf i).valid ≡ false → Same s (read_buf s i)
read_buf-Same s i h v = record {
  views = λ d n nz.
      view_lem (read_buf s i) d n
      ∙ ap (λ t. content (read_buf s i) d n (scan t s.order))
          (fun_ext (λ j. ap₂ (λ x y. x == d && y == n) (dev j) (blockno j)))
      ∙ same_content d n (scan (is_block s d n) s.order) (scan-Scanned (is_block s d n) s.order)
      ∙ sym (view_lem s d n);
  coherent = record {
    unique = λ j k mj mk nz f g.
        h.unique j k mj mk (λ z. nz (dev j ∙ z)) (sym (dev j) ∙ f ∙ dev k)
          (sym (blockno j) ∙ g ∙ blockno k);
    read_first = λ j.
        at_update (λ k (x : Buf). x.valid ≡ false → x.dirty ≡ false) s.buf i b j
          (λ _. h.read_first i v) (λ ne. h.read_first j);
    clean = λ j.
        at_update
          (λ k (x : Buf).
            x.refcnt ≡ 0 → x.dirty ≡ false → x.valid ≡ true → x.bytes ≡ s.disk x.dev x.blockno)
          s.buf i b j (λ _ _ _. refl) (λ ne. h.clean j);
  };
}
  where
    b : Buf
    b = record (s.buf i) { valid = true; bytes = s.disk (s.buf i).dev (s.buf i).blockno }

    dev : (j : ℕ) → (update s.buf i b j).dev ≡ (s.buf j).dev
    dev j = field (λ (x : Buf). x.dev) s i b j refl

    blockno : (j : ℕ) → (update s.buf i b j).blockno ≡ (s.buf j).blockno
    blockno j = field (λ (x : Buf). x.blockno) s i b j refl

    same_content :
        (d n : ℕ) (o : Option ℕ)
        → Scanned (is_block s d n) s.order o
        → content (read_buf s i) d n o ≡ content s d n o
    same_content d n none f = refl
    same_content d n (some j) (m, t) =
        at_update
          (λ k (x : Buf).
            is_block s d n k ≡ true
            → (if x.valid then x.bytes else s.disk d n) ≡ content s d n (some k))
          s.buf i b j
          (λ t'.
            let (di, ni) = is_its s d n i t' in
            ap₂ s.disk di ni ∙ sym (if_false (s.buf i).valid (s.buf i).bytes (s.disk d n) v))
          (λ ne t'. refl) t

-- With its bytes; a block that was not read before is one that the drive has.
pub record Shown (d n : ℕ) (s : Bcache) (i : ℕ) (s' : Bcache) : Type 0 where
  pub held : Held d n s i s'
  pub valid : (s'.buf i).valid ≡ true
  pub bytes : (s'.buf i).bytes ≡ view s d n
  pub source : Cached d n s ⊎ ((s.havedisk1 ≡ true) × (n < fssize))

abbrev pub Reads : ℕ → ℕ → Bcache → Bget → Type 0
Reads d n s (got i s') = Shown d n s i s'
Reads d n s no_buffers = AllTaken d n s
Reads d n s ide_panics = Uncached d n s × ((s.havedisk1 ≡ false) ⊎ (fssize ≤ n))
Reads d n s (waits i s') = Held d n s i s'

shown :
    (d n : ℕ) (s : Bcache) (i : ℕ) (s' : Bcache)
    → d ≢ 0
    → Held d n s i s'
    → (s'.buf i).valid ≡ true
    → Cached d n s ⊎ ((s.havedisk1 ≡ true) × (n < fssize))
    → Shown d n s i s'
shown d n s i s' nz h v from = record {
  source = from;
  held = h;
  valid = v;
  bytes =
      sym (if_true (s'.buf i).valid (s'.buf i).bytes (s'.disk d n) v)
      ∙ sym (view_of s' d n i h.same.coherent nz h.listed h.its)
      ∙ h.same.views d n nz;
}

-- What `iderw` makes of a buffer that is locked and not read.
abbrev Serves : Bcache → ℕ → ℕ → ℕ → Option Bcache → Type 0
Serves s d n i none = (s.havedisk1 ≡ false) ⊎ (fssize ≤ n)
Serves s d n i (some s') = (s.havedisk1 ≡ true) × (n < fssize) × (s' ≡ read_buf s i)

iderw-Serves :
    (d n : ℕ) (s : Bcache) (i : ℕ)
    → d ≢ 0
    → (s.buf i).locked ≡ true
    → (s.buf i).valid ≡ false
    → (s.buf i).dirty ≡ false
    → (s.buf i).dev ≡ d
    → (s.buf i).blockno ≡ n
    → Serves s d n i (iderw i s)
iderw-Serves d n s i nz l v c ed en =
    let t : not (s.buf i).locked ≡ false = ap not l in
    let u : ((s.buf i).valid && not (s.buf i).dirty) ≡ false =
      ap (λ x. x && not (s.buf i).dirty) v in
    let Goal = Serves s d n i in
    let other : not ((s.buf i).dev == 0) ≡ true = ground (arith, ed) in
    subst Goal (sym (if_false _ _ _ t ∙ if_false _ _ _ u)) (elim (Bool-cases s.havedisk1) [
      | inr off ↦
          subst Goal {x = none} (sym (if_true _ _ _ (ap₂ ◌&&◌ other (ap not off)))) (inl off)
      | inl on ↦
          let w : (not ((s.buf i).dev == 0) && not s.havedisk1) ≡ false =
            ap₂ ◌&&◌ other (ap not on) in
          subst Goal (sym (if_false _ _ _ w)) (elim (Bool-cases (leb fssize (s.buf i).blockno)) [
            | inl out ↦ subst Goal {x = none} (sym (if_true _ _ _ out)) (inr (ground (arith, en)))
            | inr fits ↦
                subst Goal {x = some (served i s)} (sym (if_false _ _ _ fits))
                  (on, ground (arith, en), if_false (s.buf i).dirty _ (read_buf s i) c)
          ])
    ])

read_in-Reads : (d n : ℕ) (s : Bcache) (o : Bget) → d ≢ 0 → Gets d n s o → Reads d n s (read_in o)
read_in-Reads d n s (got i s') nz h = elim (Bool-cases (s'.buf i).valid) [
  | inl v ↦
      subst (Reads d n s) (sym (if_true (s'.buf i).valid _ _ v))
        (shown d n s i s' nz h.held v (inl (h.cached v)))
  | inr v ↦
      let (ed, en) = is_its s' d n i h.held.its in
      subst (Reads d n s) (sym (if_false (s'.buf i).valid _ _ v)) (
        unread v (iderw i s')
          (iderw-Serves d n s' i nz h.held.locked v (h.held.same.coherent.read_first i v) ed en))
]
  where
    self :
        (read_buf s' i).buf i
        ≡ record (s'.buf i) { valid = true; bytes = s'.disk (s'.buf i).dev (s'.buf i).blockno }
    self = update_self s'.buf i _

    unread :
        (s'.buf i).valid ≡ false
        → (o : Option Bcache) → Serves s' d n i o
        → Reads d n s (after_iderw i o)
    unread v none (inl off) = (h.uncached v, inl (sym h.drive ∙ off))
    unread v none (inr out) = (h.uncached v, inr out)
    unread v (some s2) (on, fits, e) =
        subst (λ x. Reads d n s (got i x)) (sym e)
          (shown d n s i (read_buf s' i) nz
            (record {
              listed = h.held.listed;
              its = ap (λ (x : Buf). x.dev == d && x.blockno == n) self ∙ h.held.its;
              locked = ap (λ (x : Buf). x.locked) self ∙ h.held.locked;
              same =
                  Same-trans s s' (read_buf s' i) h.held.same
                    (read_buf-Same s' i h.held.same.coherent v);
            })
            (ap (λ (x : Buf). x.valid) self) (inr (sym h.drive ∙ on, fits)))
read_in-Reads d n s no_buffers nz h = h
read_in-Reads d n s ide_panics nz h = absurd h
read_in-Reads d n s (waits i s') nz h = h

-- In a coherent cache, and if the drive reports no error, `bread` of a block of a device other than 0
-- returns the block's buffer, locked and read, with the bytes that the view shows for it, or waits for
-- the lock of that buffer; the view of every block is as before, and the cache is still coherent. It
-- returns a block that no buffer held read only if disk 1 is present and the block is below `FSSIZE`.
-- It panics only if no buffer is the block's and none is free to take, or, in the driver, if no buffer
-- holds the block read and disk 1 is not present or the block is not below `FSSIZE`.
pub bread-Reads : (d n : ℕ) (s : Bcache) → d ≢ 0 → IsCoherent s → Reads d n s (bread d n s)
unfolding bread
bread-Reads d n s nz h = read_in-Reads d n s (bget d n s) nz (bget-Gets d n s nz h)
