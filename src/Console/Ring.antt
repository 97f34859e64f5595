-- ===== src/Console/Ring.antt =====
-- What is typed never changes what is committed.
use operating_systeams_proje.Prelude.{
  ℕ, zero, suc, ◌+◌, ◌-◌, ◌%◌, ◌^◌, ◌≤◌, ◌<◌, ◌≡◌, ◌≢◌, inl, inr, refl, sym, ◌∙◌, ap, subst, Bool,
  true, not, ◌&&◌, ◌||◌, List, [], ◌∷◌, ◌==◌, ltb, if◌then◌else◌, if_both, update, update_ne, arith,
  Bool-cases, ltb→lt, if_true, if_false,
}
use operating_systeams_proje.Prelude.Words.{word}
use operating_systeams_proje.Console.{
  Input, input_buf, back, kill_line, put_char, type_char, consoleintr,
}

-- The byte at a distance from the read index.
abbrev pub cell : Input → ℕ → ℕ
cell s i = s.buf ((s.r + i) % input_buf)

-- `n` bytes are committed and `m` are typed, at most as many as the ring holds.
pub record IsRing (s : Input) (n m : ℕ) : Type 0 where
  pub reads : s.r < 2 ^ 32
  pub writes : s.w ≡ word (s.r + n)
  pub edits : s.e ≡ word (s.r + m)
  pub order : n ≤ m
  pub room : m ≤ input_buf

-- The ring `t` has the `n` committed bytes of `s`, and perhaps more.
pub record Keeps (s : Input) (n : ℕ) (t : Input) : Type 0 where
  pub committed : ℕ
  pub typed : ℕ
  pub ring : IsRing t committed typed
  pub more : n ≤ committed
  pub reader : t.r ≡ s.r
  pub same : (i : ℕ) → i < n → cell t i ≡ cell s i

Keeps-none : (s : Input) (n m : ℕ) → IsRing s n m → Keeps s n s
Keeps-none s n m h = record {
  committed = n;
  typed = m;
  ring = h;
  more = omega arith;
  reader = refl;
  same = λ i l. refl;
}

-- `e` goes back by one, but not below `w`.
pub back-IsRing :
    (s : Input) (n m : ℕ)
    → IsRing s n m
    → s.e ≢ s.w
    → (n < m) × IsRing (record s { e = back s.e }) n (m - 1)
back-IsRing s n m h ne =
    let l : n < m =
      below (s.r) n m h.order (λ q. ne (h.edits ∙ ap (λ k. word (s.r + k)) q ∙ sym h.writes)) in
    (
      l,
      record {
        reads = h.reads;
        writes = h.writes;
        edits = omega (arith, h.edits, h.reads, h.room);
        order = omega arith;
        room = omega (arith, h.room);
      },
    )
  where
    below : (r n m : ℕ) → n ≤ m → m ≢ n → n < m
    below r n m o d = omega arith

kill_line-Keeps : (k : ℕ) (s : Input) (n m : ℕ) → IsRing s n m → Keeps s n (kill_line k s)
unfolding kill_line
kill_line-Keeps zero s n m h = Keeps-none s n m h
kill_line-Keeps (suc k) s n m h = elim (Bool-cases (s.e == s.w)) [
  | inl q ↦ subst (Keeps s n) (sym (stop q)) (Keeps-none s n m h)
  | inr q ↦
      let b = back-IsRing s n m h (λ e. absurd (ground arith)) in
      let ih = kill_line-Keeps k (record s { e = back s.e }) n (m - 1) b.1 in
      if_both (Keeps s n) _ _ _
        (record {
          committed = ih.committed;
          typed = ih.typed;
          ring = ih.ring;
          more = ih.more;
          reader = ih.reader;
          same = ih.same;
        })
        (Keeps-none s n m h)
]
  where
    stop :
        (s.e == s.w) ≡ true
        → (if not (s.e == s.w) && not (s.buf (back s.e % input_buf) == b'\n')
            then kill_line k (record s { e = back s.e })
            else s)
          ≡ s
    stop q = rw q refl

-- A character at the end, and whether it is committed with what was typed before it.
module _ (c : ℕ) (s : Input) (n m : ℕ) (h : IsRing s n m) (l : m < input_buf) where
  longer : Input
  longer = record s { buf = update s.buf (s.e % input_buf) c; e = word (s.e + 1) }

  kept :
      (i : ℕ)
      → i < n
      → update s.buf (s.e % input_buf) c ((s.r + i) % input_buf) ≡ s.buf ((s.r + i) % input_buf)
  kept i lt =
      update_ne s.buf (s.e % input_buf) ((s.r + i) % input_buf) c
        (λ q. absurd (omega (arith, h.edits, h.order, h.reads)))

  longer-Keeps : Keeps s n longer
  unfolding longer
  longer-Keeps = record {
    committed = n;
    typed = m + 1;
    ring = record {
      reads = h.reads;
      writes = h.writes;
      edits = omega (arith, h.edits, h.reads);
      order = omega (arith, h.order);
      room = omega arith;
    };
    more = omega arith;
    reader = refl;
    same = kept;
  }

  committed-Keeps : Keeps s n (record longer { w = longer.e })
  unfolding longer
  committed-Keeps = record {
    committed = m + 1;
    typed = m + 1;
    ring = record {
      reads = h.reads;
      writes = omega (arith, h.edits, h.reads);
      edits = omega (arith, h.edits, h.reads);
      order = omega arith;
      room = omega arith;
    };
    more = omega (arith, h.order);
    reader = refl;
    same = kept;
  }

  put_char-Keeps : Keeps s n (put_char c s)
  unfolding put_char longer
  put_char-Keeps =
      if_both (Keeps s n) (c == b'\n' || c == 4 || longer.e == word (s.r + input_buf))
        (record longer { w = longer.e }) longer committed-Keeps longer-Keeps

backspace-Keeps :
    (s : Input) (n m : ℕ)
    → IsRing s n m
    → Keeps s n (if s.e == s.w then s else record s { e = back s.e })
backspace-Keeps s n m h = elim (Bool-cases (s.e == s.w)) [
  | inl q ↦ subst (Keeps s n) (sym (if_true _ _ _ q)) (Keeps-none s n m h)
  | inr q ↦ subst (Keeps s n) (sym (if_false _ _ _ q)) (record {
    committed = n;
    typed = m - 1;
    ring = (back-IsRing s n m h (λ e. absurd (ground arith))).1;
    more = omega arith;
    reader = refl;
    same = λ i l. refl;
  })
]

kept_char-Keeps :
    (c d : ℕ) (s : Input) (n m : ℕ)
    → IsRing s n m
    → Keeps s n
        (if not (c == 0) && ltb (word (s.e + 2 ^ 32 - s.r)) input_buf then put_char d s else s)
kept_char-Keeps c d s n m h =
    elim (Bool-cases (not (c == 0) && ltb (word (s.e + 2 ^ 32 - s.r)) input_buf)) [
      | inl q ↦
          subst (Keeps s n) (sym (if_true _ _ _ q))
            (put_char-Keeps d s n m h (room_left (and_right _ _ q)))
      | inr q ↦ subst (Keeps s n) (sym (if_false _ _ _ q)) (Keeps-none s n m h)
    ]
  where
    and_right : (a b : Bool) → (a && b) ≡ true → b ≡ true
    and_right a b e = ground arith

    room_left : ltb (word (s.e + 2 ^ 32 - s.r)) input_buf ≡ true → m < input_buf
    room_left e =
        let lt : word (s.e + 2 ^ 32 - s.r) < input_buf = ltb→lt _ _ e in
        omega (arith, lt, h.edits, h.reads, h.room)

type_char-Keeps : (c : ℕ) (s : Input) (n m : ℕ) → IsRing s n m → Keeps s n (type_char c s)
unfolding type_char
type_char-Keeps c s n m h = if_both (Keeps s n) (c == 16) s _ (Keeps-none s n m h) (
    if_both (Keeps s n) (c == 21) (kill_line (word (s.e + 2 ^ 32 - s.w)) s) _
      (kill_line-Keeps _ s n m h)
      (if_both (Keeps s n) (c == 8 || c == 127)
        (if s.e == s.w then s else record s { e = back s.e }) _ (backspace-Keeps s n m h)
        (kept_char-Keeps c (if c == b'\r' then b'\n' else c) s n m h)))

-- From a ring with `n` committed bytes, of at most 128 that are typed, `consoleintr` of any characters
-- leaves such a ring: the read index and the committed bytes are as they were, and erasing a character
-- or a line never reaches them; more bytes may have been committed. The indices may wrap.
pub consoleintr-Keeps :
    (cs : List ℕ) (s : Input) (n m : ℕ) → IsRing s n m → Keeps s n (consoleintr cs s)
unfolding consoleintr
consoleintr-Keeps [] s n m h = Keeps-none s n m h
consoleintr-Keeps (c ∷ cs) s n m h =
    let k = type_char-Keeps c s n m h in
    let ih = consoleintr-Keeps cs (type_char c s) k.committed k.typed k.ring in
    record {
      committed = ih.committed;
      typed = ih.typed;
      ring = ih.ring;
      more = omega (arith, k.more, ih.more);
      reader = ih.reader ∙ k.reader;
      same = λ i l. ih.same i (omega (arith, k.more)) ∙ k.same i l;
    }
