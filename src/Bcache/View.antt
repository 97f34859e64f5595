-- ===== src/Bcache/View.antt =====
-- The buffers as log.c sees them: a function from the block to its bytes.
use operating_systeams_proje.Prelude.{
  ℕ, ◌≡◌, ◌≢◌, ◌⊎◌, inl, inr, refl, sym, ◌∙◌, ap, subst, Bool, true, false, Option, none, some,
  List, [], ◌∷◌, if◌then◌else◌, arith, Bool-cases, if_true, if_false,
}
use operating_systeams_proje.Disk.{Block}
use operating_systeams_proje.Bcache.{Bcache, scan, scan_back, is_block}

abbrev pub In : ℕ → List ℕ → Type 0
In i [] = ⊥
In i (j ∷ is) = (i ≡ j) ⊎ In i is

abbrev pub content : Bcache → ℕ → ℕ → Option ℕ → Block
content s d n none = s.disk d n
content s d n (some i) = if (s.buf i).valid then (s.buf i).bytes else s.disk d n

-- The bytes of a block: those of its buffer, or those on the drive.
unfoldable pub view : Bcache → ℕ → ℕ → Block
unfolding scan
view s d n = content s d n (scan (is_block s d n) s.order)

-- No block has two buffers; a buffer with changes has been read, and one that can be given to another block
-- has none.
pub record IsCoherent (s : Bcache) : Type 0 where
  pub unique :
      (i j : ℕ)
      → In i s.order
      → In j s.order
      → (s.buf i).dev ≢ 0
      → (s.buf i).dev ≡ (s.buf j).dev
      → (s.buf i).blockno ≡ (s.buf j).blockno
      → i ≡ j
  pub read_first : (i : ℕ) → (s.buf i).valid ≡ false → (s.buf i).dirty ≡ false
  pub clean :
      (i : ℕ)
      → (s.buf i).refcnt ≡ 0
      → (s.buf i).dirty ≡ false
      → (s.buf i).valid ≡ true
      → (s.buf i).bytes ≡ s.disk (s.buf i).dev (s.buf i).blockno

-- What a scan says.
abbrev pub Scanned : (ℕ → Bool) → List ℕ → Option ℕ → Type 0
Scanned test l none = (i : ℕ) → In i l → test i ≡ false
Scanned test l (some i) = In i l × (test i ≡ true)

pub scan-Scanned : (test : ℕ → Bool) (l : List ℕ) → Scanned test l (scan test l)
unfolding scan
scan-Scanned test [] = λ i h. absurd h
scan-Scanned test (j ∷ l) = elim (Bool-cases (test j)) [
  | inl e ↦ subst (Scanned test (j ∷ l)) (sym (if_true (test j) _ _ e)) (inl refl, e)
  | inr e ↦
      subst (Scanned test (j ∷ l)) (sym (if_false (test j) _ _ e))
        (later (scan test l) (scan-Scanned test l) e)
]
  where
    later : (o : Option ℕ) → Scanned test l o → test j ≡ false → Scanned test (j ∷ l) o
    later none h e =
        λ i m. elim m [ inl same ↦ subst (λ x. test x ≡ false) (sym same) e | inr m' ↦ h i m' ]
    later (some i) (m, t) e = (inr m, t)

pub scan_back-Scanned : (test : ℕ → Bool) (l : List ℕ) → Scanned test l (scan_back test l)
unfolding scan_back
scan_back-Scanned test [] = λ i h. absurd h
scan_back-Scanned test (j ∷ l) = go (scan_back test l) (scan_back-Scanned test l)
  where
    go :
        (o : Option ℕ)
        → Scanned test l o
        → Scanned test (j ∷ l) (elim o [ some k ↦ some k | none ↦ if test j then some j else none ])
    go (some k) (m, t) = (inr m, t)
    go none h = elim (Bool-cases (test j)) [
      | inl e ↦ subst (Scanned test (j ∷ l)) (sym (if_true (test j) _ _ e)) (inl refl, e)
      | inr e ↦
          subst (Scanned test (j ∷ l)) (sym (if_false (test j) _ _ e)) (λ i m. elim m [
            | inl same ↦ subst (λ x. test x ≡ false) (sym same) e
            | inr m' ↦ h i m'
          ])
    ]

pub view_lem : (s : Bcache) (d n : ℕ) → view s d n ≡ content s d n (scan (is_block s d n) s.order)
unfolding view
view_lem s d n = refl

pub is_its :
    (s : Bcache) (d n i : ℕ)
    → is_block s d n i ≡ true
    → ((s.buf i).dev ≡ d) × ((s.buf i).blockno ≡ n)
is_its s d n i e = ground arith

pub its_is :
    (s : Bcache) (d n i : ℕ) → (s.buf i).dev ≡ d → (s.buf i).blockno ≡ n → is_block s d n i ≡ true
its_is s d n i e f = ground arith

pub clash : (b : Bool) → b ≡ true → b ≡ false → ⊥
clash b e f = cc

-- The buffer of a block shows it.
pub view_of :
    (s : Bcache) (d n i : ℕ)
    → IsCoherent s
    → d ≢ 0
    → In i s.order
    → is_block s d n i ≡ true
    → view s d n ≡ content s d n (some i)
unfolding view
view_of s d n i h nz m t =
    go (scan (is_block s d n) s.order) (scan-Scanned (is_block s d n) s.order)
  where
    go :
        (o : Option ℕ)
        → Scanned (is_block s d n) s.order o
        → content s d n o ≡ content s d n (some i)
    go none f = absurd (clash _ t (f i m))
    go (some j) (m', t') =
        let (dj, nj) = is_its s d n j t' in
        let (di, ni) = is_its s d n i t in
        ap (λ k. content s d n (some k))
          (h.unique j i m' m (λ z. nz (sym dj ∙ z)) (dj ∙ sym di) (nj ∙ sym ni))

pub view_out :
    (s : Bcache) (d n : ℕ)
    → ((i : ℕ) → In i s.order → is_block s d n i ≡ false)
    → view s d n ≡ s.disk d n
unfolding view
view_out s d n f = go (scan (is_block s d n) s.order) (scan-Scanned (is_block s d n) s.order)
  where
    go : (o : Option ℕ) → Scanned (is_block s d n) s.order o → content s d n o ≡ s.disk d n
    go none g = refl
    go (some j) (m, t) = absurd (clash _ t (f j m))
