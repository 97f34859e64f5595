-- ===== src/Bcache/Taking.antt =====
-- `bget`: what the buffer is that it has taken, and when there is none.
use operating_systeams_proje.Prelude.{
  ℕ, ◌+◌, ◌≡◌, ◌≢◌, inl, inr, refl, sym, ◌∙◌, ap, subst, true, false, ◌&&◌, Option, none, some,
  ◌==◌, update, update_self, arith, Bool-cases, if_true, if_false,
}
use operating_systeams_proje.Bcache.{
  Buf, Bcache, Bget, got, no_buffers, ide_panics, waits, is_block, is_recyclable, lock_buf,
  bget_found, bget,
}
use operating_systeams_proje.Bcache.View.{
  In, IsCoherent, Scanned, scan-Scanned, scan_back-Scanned, is_its, its_is, clash,
}
use operating_systeams_proje.Bcache.Steps.{Same, Same-trans, with_buf, touched-Same, recycled-Same}

-- Buffer `i` is that of the block, locked, and the step that has got it has changed no block's bytes.
pub record Held (d n : ℕ) (s : Bcache) (i : ℕ) (s' : Bcache) : Type 0 where
  pub listed : In i s'.order
  pub its : is_block s' d n i ≡ true
  pub locked : (s'.buf i).locked ≡ true
  pub same : Same s s'

-- A buffer of the block has been read, or none has.
abbrev pub Cached : ℕ → ℕ → Bcache → Type 0
Cached d n s = (i : ℕ) × In i s.order × (is_block s d n i ≡ true) × ((s.buf i).valid ≡ true)

abbrev pub Uncached : ℕ → ℕ → Bcache → Type 0
Uncached d n s = (i : ℕ) → In i s.order → is_block s d n i ≡ true → (s.buf i).valid ≡ false

-- The buffer that `bget` has taken is read as the block was.
pub record Taken (d n : ℕ) (s : Bcache) (i : ℕ) (s' : Bcache) : Type 0 where
  pub held : Held d n s i s'
  pub drive : s'.havedisk1 ≡ s.havedisk1
  pub cached : (s'.buf i).valid ≡ true → Cached d n s
  pub uncached : (s'.buf i).valid ≡ false → Uncached d n s

abbrev pub AllTaken : ℕ → ℕ → Bcache → Type 0
AllTaken d n s = (i : ℕ) → In i s.order → (is_block s d n i ≡ false) × (is_recyclable s i ≡ false)

abbrev pub Gets : ℕ → ℕ → Bcache → Bget → Type 0
Gets d n s (got i s') = Taken d n s i s'
Gets d n s no_buffers = AllTaken d n s
Gets d n s ide_panics = ⊥
Gets d n s (waits i s') = Held d n s i s'

lock_buf-Gets :
    (d n : ℕ) (s : Bcache) (i : ℕ) (s1 : Bcache)
    → In i s1.order
    → is_block s1 d n i ≡ true
    → Same s s1
    → s1.havedisk1 ≡ s.havedisk1
    → ((s1.buf i).valid ≡ true → Cached d n s)
    → ((s1.buf i).valid ≡ false → Uncached d n s)
    → Gets d n s (lock_buf i s1)
lock_buf-Gets d n s i s1 m t same drive cached uncached = elim (Bool-cases (s1.buf i).locked) [
  | inl l ↦
      subst (Gets d n s) (sym (if_true (s1.buf i).locked _ _ l))
        (record { listed = m; its = t; locked = l; same = same })
  | inr l ↦ subst (Gets d n s) (sym (if_false (s1.buf i).locked _ _ l)) (record {
    held = record {
      listed = m;
      its = ap (λ (x : Buf). x.dev == d && x.blockno == n) self ∙ t;
      locked = ap (λ (x : Buf). x.locked) self;
      same =
          Same-trans s s1 (with_buf s1 i b) same
            (touched-Same s1 i b same.coherent refl refl refl refl refl (λ z. z));
    };
    drive = drive;
    cached = λ v. cached (sym (ap (λ (x : Buf). x.valid) self) ∙ v);
    uncached = λ v. uncached (sym (ap (λ (x : Buf). x.valid) self) ∙ v);
  })
]
  where
    b : Buf
    b = record (s1.buf i) { locked = true }

    self : update s1.buf i b i ≡ b
    self = update_self s1.buf i b

found-Gets :
    (d n : ℕ) (s : Bcache) (o e : Option ℕ)
    → d ≢ 0
    → IsCoherent s
    → Scanned (is_block s d n) s.order o
    → Scanned (is_recyclable s) s.order e
    → Gets d n s (bget_found d n o e s)
found-Gets d n s (some i) e nz h (m, t) g =
    lock_buf-Gets d n s i (with_buf s i b) m
      (ap (λ (x : Buf). x.dev == d && x.blockno == n) (update_self s.buf i b) ∙ t)
      (touched-Same s i b h refl refl refl refl refl (λ z. absurd (omega (arith, z)))) refl
      (λ v. (i, m, t, sym same_valid ∙ v))
      (λ v j mj tj.
        let (dj, nj) = is_its s d n j tj in
        let (di, ni) = is_its s d n i t in
        let e : j ≡ i = h.unique j i mj m (λ z. nz (sym dj ∙ z)) (dj ∙ sym di) (nj ∙ sym ni) in
        ap (λ k. (s.buf k).valid) e ∙ sym same_valid ∙ v)
  where
    b : Buf
    b = record (s.buf i) { refcnt = (s.buf i).refcnt + 1 }

    same_valid : (update s.buf i b i).valid ≡ (s.buf i).valid
    same_valid = ap (λ (x : Buf). x.valid) (update_self s.buf i b)
found-Gets d n s none none nz h f g = λ i m. (f i m, g i m)
found-Gets d n s none (some i) nz h f (m, t) =
    let (r, c) = unused t in
    lock_buf-Gets d n s i (with_buf s i b) m
      (its_is (with_buf s i b) d n i (ap (λ (x : Buf). x.dev) (update_self s.buf i b))
        (ap (λ (x : Buf). x.blockno) (update_self s.buf i b)))
      (recycled-Same s d n i b h m f r c refl refl refl refl) refl
      (λ v. absurd (clash _ v (ap (λ (x : Buf). x.valid) (update_self s.buf i b))))
      (λ v j mj tj. absurd (clash _ tj (f j mj)))
  where
    b : Buf
    b = record (s.buf i) { dev = d; blockno = n; valid = false; dirty = false; refcnt = 1 }

    unused : is_recyclable s i ≡ true → ((s.buf i).refcnt ≡ 0) × ((s.buf i).dirty ≡ false)
    unused e = ground (arith, e)

-- `bget` of a block of a device other than 0 takes the block's buffer, and locks it or waits for its
-- lock, changes no block's bytes, and panics only if no buffer is the block's and none is free.
pub bget-Gets : (d n : ℕ) (s : Bcache) → d ≢ 0 → IsCoherent s → Gets d n s (bget d n s)
unfolding bget
bget-Gets d n s nz h =
    found-Gets d n s _ _ nz h (scan-Scanned (is_block s d n) s.order)
      (scan_back-Scanned (is_recyclable s) s.order)
