-- ===== src/Bcache/Steps.antt =====
-- The steps of `bread` that change no block's bytes.
use operating_systeams_proje.Prelude.{
  ℕ, ◌≡◌, ◌≢◌, inl, inr, refl, sym, ◌∙◌, ap, ap₂, subst, fun_ext, true, false, ◌&&◌, Option, none,
  some, ◌==◌, if◌then◌else◌, update, at_update, update_self, update_ne, Bool-cases, if_true,
  if_false,
}
use native.Mathlib.Decide.{ℕ_discrete}
use operating_systeams_proje.Bcache.{Buf, Bcache, scan, is_block}
use operating_systeams_proje.Bcache.View.{
  In, content, view, IsCoherent, Scanned, scan-Scanned, view_lem, is_its, its_is, clash, view_of,
  view_out,
}

-- A step that changes no block's bytes.
pub record Same (s s' : Bcache) : Type 0 where
  pub views : (d n : ℕ) → d ≢ 0 → view s' d n ≡ view s d n
  pub coherent : IsCoherent s'

pub Same-trans : (s s' s'' : Bcache) → Same s s' → Same s' s'' → Same s s''
Same-trans s s' s'' p q = record {
  views = λ d n nz. q.views d n nz ∙ p.views d n nz;
  coherent = q.coherent;
}

abbrev pub with_buf : Bcache → ℕ → Buf → Bcache
with_buf s i b = record s { buf = update s.buf i b }

-- A field that the new value of a buffer shares with the old one.
pub field :
    {A : Type 0} (f : Buf → A) (s : Bcache) (i : ℕ) (b : Buf) (j : ℕ)
    → f b ≡ f (s.buf i)
    → f (update s.buf i b j) ≡ f (s.buf j)
field f s i b j e = at_update (λ k x. f x ≡ f (s.buf k)) s.buf i b j e (λ ne. refl)

-- New values of `refcnt` and `locked`.
pub touched-Same :
    (s : Bcache) (i : ℕ) (b : Buf)
    → IsCoherent s
    → b.dev ≡ (s.buf i).dev
    → b.blockno ≡ (s.buf i).blockno
    → b.valid ≡ (s.buf i).valid
    → b.dirty ≡ (s.buf i).dirty
    → b.bytes ≡ (s.buf i).bytes
    → (b.refcnt ≡ 0 → (s.buf i).refcnt ≡ 0)
    → Same s (with_buf s i b)
unfolding view
touched-Same s i b h e1 e2 e3 e4 e5 e6 = record {
  views = λ d n nz.
      ap (λ t. content (with_buf s i b) d n (scan t s.order))
        (fun_ext (λ j. ap₂ (λ x y. x == d && y == n) (dev j) (blockno j)))
      ∙ same_content d n (scan (is_block s d n) s.order);
  coherent = record {
    unique = λ j k mj mk nz f g.
        h.unique j k mj mk (λ z. nz (dev j ∙ z)) (sym (dev j) ∙ f ∙ dev k)
          (sym (blockno j) ∙ g ∙ blockno k);
    read_first = λ j v. dirty j ∙ h.read_first j (sym (valid j) ∙ v);
    clean = λ j r d v.
        bytes j
        ∙ h.clean j (refcnt j r) (sym (dirty j) ∙ d) (sym (valid j) ∙ v)
        ∙ ap₂ s.disk (sym (dev j)) (sym (blockno j));
  };
}
  where
    dev : (j : ℕ) → (update s.buf i b j).dev ≡ (s.buf j).dev
    dev j = field (λ (x : Buf). x.dev) s i b j e1

    blockno : (j : ℕ) → (update s.buf i b j).blockno ≡ (s.buf j).blockno
    blockno j = field (λ (x : Buf). x.blockno) s i b j e2

    valid : (j : ℕ) → (update s.buf i b j).valid ≡ (s.buf j).valid
    valid j = field (λ (x : Buf). x.valid) s i b j e3

    dirty : (j : ℕ) → (update s.buf i b j).dirty ≡ (s.buf j).dirty
    dirty j = field (λ (x : Buf). x.dirty) s i b j e4

    bytes : (j : ℕ) → (update s.buf i b j).bytes ≡ (s.buf j).bytes
    bytes j = field (λ (x : Buf). x.bytes) s i b j e5

    refcnt : (j : ℕ) → (update s.buf i b j).refcnt ≡ 0 → (s.buf j).refcnt ≡ 0
    refcnt j =
        at_update (λ k (x : Buf). x.refcnt ≡ 0 → (s.buf k).refcnt ≡ 0) s.buf i b j e6 (λ ne z. z)

    same_content : (d n : ℕ) (o : Option ℕ) → content (with_buf s i b) d n o ≡ content s d n o
    same_content d n none = refl
    same_content d n (some j) = ap₂ (λ v c. if v then c else s.disk d n) (valid j) (bytes j)

-- Buffer `i`, which nobody uses, is given to a block that has none.
pub recycled-Same :
    (s : Bcache) (d n i : ℕ) (b : Buf)
    → IsCoherent s
    → In i s.order
    → ((j : ℕ) → In j s.order → is_block s d n j ≡ false)
    → (s.buf i).refcnt ≡ 0
    → (s.buf i).dirty ≡ false
    → b.dev ≡ d
    → b.blockno ≡ n
    → b.valid ≡ false
    → b.dirty ≡ false
    → Same s (with_buf s i b)
recycled-Same s d n i b h m none_has r dirty e1 e2 e3 e4 = record {
  views = λ d' n' nz.
      same_view d' n' nz (scan (is_block s' d' n') s.order)
        (scan-Scanned (is_block s' d' n') s.order) (view_lem s' d' n');
  coherent = record {
    unique = λ j k mj mk nz f g. elim (ℕ_discrete j i) [
      | yes ji ↦ elim (ℕ_discrete k i) [
        | yes ki ↦ ji ∙ sym ki
        | no nk ↦ absurd (taken j k ji nk mk f g)
      ]
      | no nj ↦ elim (ℕ_discrete k i) [
        | yes ki ↦ absurd (taken k j ki nj mj (sym f) (sym g))
        | no nk ↦
            h.unique j k mj mk (λ z. nz (ap (λ (x : Buf). x.dev) (other j nj) ∙ z))
              (sym (ap (λ (x : Buf). x.dev) (other j nj))
                ∙ f
                ∙ ap (λ (x : Buf). x.dev) (other k nk))
              (sym (ap (λ (x : Buf). x.blockno) (other j nj))
                ∙ g
                ∙ ap (λ (x : Buf). x.blockno) (other k nk))
      ]
    ];
    read_first = λ j.
        at_update (λ k (x : Buf). x.valid ≡ false → x.dirty ≡ false) s.buf i b j (λ _. e4)
          (λ ne. h.read_first j);
    clean = λ j.
        at_update
          (λ k (x : Buf).
            x.refcnt ≡ 0 → x.dirty ≡ false → x.valid ≡ true → x.bytes ≡ s.disk x.dev x.blockno)
          s.buf i b j (λ _ _ v. absurd (clash b.valid v e3)) (λ ne. h.clean j);
  };
}
  where
    s' : Bcache
    s' = with_buf s i b

    -- The other buffers are as before.
    other : (j : ℕ) → j ≢ i → update s.buf i b j ≡ s.buf j
    other j ne = update_ne s.buf i j b ne

    self : update s.buf i b i ≡ b
    self = update_self s.buf i b

    same_test : (d' n' j : ℕ) → j ≢ i → is_block s' d' n' j ≡ is_block s d' n' j
    same_test d' n' j ne = ap (λ (x : Buf). x.dev == d' && x.blockno == n') (other j ne)

    taken :
        (j k : ℕ)
        → j ≡ i
        → k ≢ i
        → In k s.order
        → (update s.buf i b j).dev ≡ (update s.buf i b k).dev
        → (update s.buf i b j).blockno ≡ (update s.buf i b k).blockno
        → ⊥
    taken j k ji nk mk f g =
        let at_j : update s.buf i b j ≡ b = ap (update s.buf i b) ji ∙ self in
        clash (is_block s d n k)
          (its_is s d n k
            (sym (ap (λ (x : Buf). x.dev) (other k nk)) ∙ sym f ∙ ap (λ (x : Buf). x.dev) at_j ∙ e1)
            (sym (ap (λ (x : Buf). x.blockno) (other k nk))
              ∙ sym g
              ∙ ap (λ (x : Buf). x.blockno) at_j
              ∙ e2))
          (none_has k mk)

    -- Before, the block that `i` held was as on the drive.
    was_clean : (d' n' : ℕ) → is_block s d' n' i ≡ true → content s d' n' (some i) ≡ s.disk d' n'
    was_clean d' n' t =
        let (di, ni) = is_its s d' n' i t in
        elim (Bool-cases (s.buf i).valid) [
          | inl v ↦
              if_true (s.buf i).valid (s.buf i).bytes (s.disk d' n') v
              ∙ h.clean i r dirty v
              ∙ ap₂ s.disk di ni
          | inr v ↦ if_false (s.buf i).valid (s.buf i).bytes (s.disk d' n') v
        ]

    before :
        (d' n' : ℕ)
        → ((j : ℕ) → In j s.order → is_block s' d' n' j ≡ false)
        → (o : Option ℕ) → Scanned (is_block s d' n') s.order o
        → content s d' n' o ≡ s.disk d' n'
    before d' n' f none g = refl
    before d' n' f (some j) (mj, t) = elim (ℕ_discrete j i) [
      | yes ji ↦
          ap (λ k. content s d' n' (some k)) ji
          ∙ was_clean d' n' (subst (λ k. is_block s d' n' k ≡ true) ji t)
      | no ne ↦ absurd (clash (is_block s d' n' j) t (sym (same_test d' n' j ne) ∙ f j mj))
    ]

    same_view :
        (d' n' : ℕ)
        → d' ≢ 0
        → (o : Option ℕ) → Scanned (is_block s' d' n') s.order o
        → view s' d' n' ≡ content s' d' n' o
        → view s' d' n' ≡ view s d' n'
    same_view d' n' nz none f e =
        e
        ∙ sym (
            view_lem s d' n'
            ∙ before d' n' f (scan (is_block s d' n') s.order)
                (scan-Scanned (is_block s d' n') s.order))
    same_view d' n' nz (some j) (mj, t) e = elim (ℕ_discrete j i) [
      | yes ji ↦
          let (dj, nj) = is_its s' d' n' j t in
          let at_j : update s.buf i b j ≡ b = ap (update s.buf i b) ji ∙ self in
          let same_d : d ≡ d' = sym e1 ∙ sym (ap (λ (x : Buf). x.dev) at_j) ∙ dj in
          let same_n : n ≡ n' = sym e2 ∙ sym (ap (λ (x : Buf). x.blockno) at_j) ∙ nj in
          e
          ∙ if_false (update s.buf i b j).valid (update s.buf i b j).bytes (s.disk d' n')
              (ap (λ (x : Buf). x.valid) at_j ∙ e3)
          ∙ sym (
              view_out s d' n'
                (λ k mk. ap₂ (λ x y. is_block s x y k) (sym same_d) (sym same_n) ∙ none_has k mk))
      | no ne ↦
          e
          ∙ ap (λ (x : Buf). if x.valid then x.bytes else s.disk d' n') (other j ne)
          ∙ sym (view_of s d' n' j h nz mj (sym (same_test d' n' j ne) ∙ t))
    ]
