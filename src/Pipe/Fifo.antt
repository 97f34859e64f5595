-- ===== src/Pipe/Fifo.antt =====
-- A pipe is a queue of at most PIPESIZE bytes: the bytes come out in the order in which they went in,
-- none is lost and none is doubled, also where the indices wrap.
use operating_systeams_proje.Prelude.{
  ℕ, zero, suc, ◌+◌, ◌-◌, ◌%◌, ◌^◌, ◌≤◌, ◌<◌, ◌≡◌, ◌≢◌, ◌⊎◌, inl, inr, refl, sym, ◌∙◌, ap, ap₂,
  Bool, true, false, not, ◌&&◌, ◌||◌, List, [], ◌∷◌, ◌++◌, append-nil, append_assoc, length, min,
  if◌then◌else◌, update, arith, Bool-cases,
}
use operating_systeams_proje.Prelude.Words.{word}
use operating_systeams_proje.Pipe.{
  Pipe, pipesize, is_full, is_empty, put_byte, take_byte, Written, wrote, refused, sleeps,
  pipewrite, Read, got, interrupted, waits, copy_out, piperead, pipe_init,
}

-- The `k` bytes from index `r` on.
unfoldable pub window : (ℕ → ℕ) → ℕ → ℕ → List ℕ
window buf r zero = []
window buf r (suc k) = buf (r % pipesize) ∷ window buf (r + 1) k

-- The number of bytes in the pipe, as the difference of two `uint`s.
abbrev pub count : Pipe → ℕ
count p = word (p.nwrite + 2 ^ 32 - p.nread)

unfoldable pub contents : Pipe → List ℕ
unfolding window
contents p = window p.buf p.nread (count p)

pub record IsPipe (p : Pipe) : Type 0 where
  pub nread_word : p.nread < 2 ^ 32
  pub nwrite_word : p.nwrite < 2 ^ 32
  pub fits : count p ≤ pipesize

window_mod :
    (buf : ℕ → ℕ) (r s k : ℕ) → r % pipesize ≡ s % pipesize → window buf r k ≡ window buf s k
unfolding window
window_mod buf r s zero e = refl
window_mod buf r s (suc k) e = ap₂ ◌∷◌ (ap buf e) (window_mod buf (r + 1) (s + 1) k (omega arith))

-- A store just past the window, which is not full, lengthens it by that byte.
window-update :
    (buf : ℕ → ℕ) (r k x i : ℕ)
    → k < pipesize
    → i ≡ (r + k) % pipesize
    → window (update buf i x) r (suc k) ≡ window buf r k ++ (x ∷ [])
unfolding window
window-update buf r zero x i h e =
    let hit : update buf i x (r % pipesize) ≡ x = ground arith in ap (λ y. y ∷ []) hit
window-update buf r (suc k) x i h e =
    let miss : update buf i x (r % pipesize) ≡ buf (r % pipesize) = ground arith in
    ap₂ ◌∷◌ miss (window-update buf (r + 1) k x i (omega arith) (omega arith))

put_byte-IsPipe : (p : Pipe) (x : ℕ) → IsPipe p → is_full p ≡ false → IsPipe (put_byte p x)
unfolding put_byte
put_byte-IsPipe p x v e = ground arith

count-put_byte :
    (p : Pipe) (x : ℕ) → IsPipe p → is_full p ≡ false → count (put_byte p x) ≡ suc (count p)
unfolding put_byte
count-put_byte p x v e = ground arith

contents-put_byte :
    (p : Pipe) (x : ℕ)
    → IsPipe p
    → is_full p ≡ false
    → contents (put_byte p x) ≡ contents p ++ (x ∷ [])
unfolding contents put_byte
contents-put_byte p x v e =
    ap (window (update p.buf (p.nwrite % pipesize) x) p.nread) (count-put_byte p x v e)
    ∙ window-update p.buf p.nread (count p) x (p.nwrite % pipesize) (ground arith)
        (omega (arith, v.nread_word, v.nwrite_word))

-- What `pipewrite` has done when it stops.
abbrev pub Writes : Bool → Pipe → List ℕ → Written → Type 0
Writes killed p xs (wrote q) = IsPipe q × (contents q ≡ contents p ++ xs)
Writes killed p xs (refused q) =
    IsPipe q
    × (length (contents q) ≡ pipesize)
    × ((q.readopen ≡ false) ⊎ (killed ≡ true))
    × ((done : List ℕ) × (rest : List ℕ) × (xs ≡ done ++ rest) × (contents q ≡ contents p ++ done))
Writes killed p xs (sleeps q rest) =
    IsPipe q
    × (length (contents q) ≡ pipesize)
    × (rest ≢ [])
    × ((done : List ℕ) × (xs ≡ done ++ rest) × (contents q ≡ contents p ++ done))

length-window : (buf : ℕ → ℕ) (r k : ℕ) → length (window buf r k) ≡ k
unfolding window
length-window buf r zero = refl
length-window buf r (suc k) = ap suc (length-window buf (r + 1) k)

length-contents : (p : Pipe) → length (contents p) ≡ count p
unfolding contents
length-contents p = length-window p.buf p.nread (count p)

full-count : (p : Pipe) → IsPipe p → is_full p ≡ true → count p ≡ pipesize
full-count p v e = ground arith

-- Putting a byte first and then what follows is putting all of them.
Writes-cons :
    (killed : Bool) (p : Pipe) (x : ℕ) (xs : List ℕ) (w : Written)
    → contents (put_byte p x) ≡ contents p ++ (x ∷ [])
    → Writes killed (put_byte p x) xs w
    → Writes killed p (x ∷ xs) w
Writes-cons killed p x xs (wrote q) e (v, c) =
    (v, c ∙ ap (λ l. l ++ xs) e ∙ append_assoc (contents p) (x ∷ []) xs)
Writes-cons killed p x xs (refused q) e (v, full, why, (done, rest, split, c)) = (
  v,
  full,
  why,
  (
    x ∷ done,
    rest,
    ap (λ l. x ∷ l) split,
    c ∙ ap (λ l. l ++ done) e ∙ append_assoc (contents p) (x ∷ []) done,
  ),
)
Writes-cons killed p x xs (sleeps q rest) e (v, full, some_left, (done, split, c)) = (
  v,
  full,
  some_left,
  (
    x ∷ done,
    ap (λ l. x ∷ l) split,
    c ∙ ap (λ l. l ++ done) e ∙ append_assoc (contents p) (x ∷ []) done,
  ),
)

stopped-Writes :
    (killed : Bool) (p : Pipe) (x : ℕ) (xs : List ℕ)
    → IsPipe p
    → length (contents p) ≡ pipesize
    → Writes killed p (x ∷ xs) (if not p.readopen || killed then refused p else sleeps p (x ∷ xs))
stopped-Writes killed p x xs v full = elim (Bool-cases (not p.readopen || killed)) [
  | inl e ↦ rw e (v, full, ground arith, ([], x ∷ xs, refl, sym (append-nil (contents p))))
  | inr e ↦ rw e (v, full, (λ q. cc), ([], refl, sym (append-nil (contents p))))
]

-- On a pipe whose count is at most PIPESIZE `pipewrite` appends the bytes in order. If it returns -1, no reader is left or the process is
-- killed; if it sleeps, there are bytes left to write; in both cases the pipe is full, and what has
-- been appended is the bytes before the rest.
pub pipewrite-Writes :
    (killed : Bool) (p : Pipe) (xs : List ℕ) → IsPipe p → Writes killed p xs (pipewrite killed p xs)
unfolding pipewrite
pipewrite-Writes killed p [] v = (v, sym (append-nil (contents p)))
pipewrite-Writes killed p (x ∷ xs) v = elim (Bool-cases (is_full p)) [
  | inl e ↦ rw e (stopped-Writes killed p x xs v (length-contents p ∙ full-count p v e))
  | inr e ↦ rw e (
      Writes-cons killed p x xs (pipewrite killed (put_byte p x) xs) (contents-put_byte p x v e)
        (pipewrite-Writes killed (put_byte p x) xs (put_byte-IsPipe p x v e)))
]

-- What `piperead` of at most `n` bytes has done when it stops.
abbrev pub Reads : Bool → Pipe → ℕ → Read → Type 0
Reads killed p n (got q bytes) =
    IsPipe q
    × (contents p ≡ bytes ++ contents q)
    × (length bytes ≡ min n (length (contents p)))
    × ((contents p ≢ []) ⊎ (p.writeopen ≡ false))
Reads killed p n (interrupted q) =
    (q ≡ p) × (contents p ≡ []) × (p.writeopen ≡ true) × (killed ≡ true)
Reads killed p n (waits q) = (q ≡ p) × (contents p ≡ []) × (p.writeopen ≡ true) × (killed ≡ false)

take_byte-IsPipe : (p : Pipe) → IsPipe p → is_empty p ≡ false → IsPipe (take_byte p)
take_byte-IsPipe p v e = ground arith

count-take_byte : (p : Pipe) → IsPipe p → is_empty p ≡ false → count p ≡ suc (count (take_byte p))
count-take_byte p v e = ground arith

contents-take_byte :
    (p : Pipe)
    → IsPipe p
    → is_empty p ≡ false
    → contents p ≡ p.buf (p.nread % pipesize) ∷ contents (take_byte p)
unfolding contents window
contents-take_byte p v e =
    ap (window p.buf p.nread) (count-take_byte p v e)
    ∙ ap (λ l. p.buf (p.nread % pipesize) ∷ l)
        (window_mod p.buf (p.nread + 1) (word (p.nread + 1)) (count (take_byte p)) (omega arith))

empty-contents : (p : Pipe) → IsPipe p → is_empty p ≡ true → contents p ≡ []
unfolding contents window
empty-contents p v e = let z : count p ≡ 0 = ground arith in ap (window p.buf p.nread) z

copy_out-Reads :
    (p : Pipe) (n : ℕ)
    → IsPipe p
    → let (q, bytes) = copy_out p n in
      IsPipe q × (contents p ≡ bytes ++ contents q) × (length bytes ≡ min n (length (contents p)))
unfolding copy_out
copy_out-Reads p zero v = (v, refl, omega arith)
copy_out-Reads p (suc n) v = elim (Bool-cases (is_empty p)) [
  | inl e ↦ rw e (v, refl, omega (arith, ap length (empty-contents p v e)))
  | inr e ↦
      let r : IsPipe (copy_out (take_byte p) n).0
          × (contents (take_byte p)
              ≡ (copy_out (take_byte p) n).1 ++ contents (copy_out (take_byte p) n).0)
          × (length (copy_out (take_byte p) n).1 ≡ min n (length (contents (take_byte p)))) =
        copy_out-Reads (take_byte p) n (take_byte-IsPipe p v e) in
      let c : contents p ≡ p.buf (p.nread % pipesize) ∷ contents (take_byte p) =
        contents-take_byte p v e in
      rw e (r.0, c ∙ ap (λ l. p.buf (p.nread % pipesize) ∷ l) r.1, omega (arith, ap length c, r.2))
]

nonempty-contents : (p : Pipe) → IsPipe p → is_empty p ≡ false → contents p ≢ []
nonempty-contents p v e q =
    absurd (omega (arith, ap length q, length-contents p, count-take_byte p v e))

-- On such a pipe `piperead` takes the oldest bytes, as many as it can up to `n`, in order. It waits, or gives up,
-- only on an empty pipe that has a writer.
pub piperead-Reads :
    (killed : Bool) (p : Pipe) (n : ℕ) → IsPipe p → Reads killed p n (piperead killed p n)
unfolding piperead
piperead-Reads killed p n v = elim (Bool-cases (is_empty p && p.writeopen)) [
  | inl e ↦
      let z : contents p ≡ [] = empty-contents p v (ground arith) in
      rw e (blocked killed z (ground arith))
  | inr e ↦
      let (w, c, l) = copy_out-Reads p n v in
      rw e (w, c, l, by_end (is_empty p) refl (ground arith))
]
  where
    blocked :
        (k : Bool)
        → contents p ≡ []
        → p.writeopen ≡ true
        → Reads k p n (if k then interrupted p else waits p)
    blocked true z open_end = (refl, z, open_end, refl)
    blocked false z open_end = (refl, z, open_end, refl)

    by_end :
        (b : Bool)
        → is_empty p ≡ b
        → (b ≡ true → p.writeopen ≡ false)
        → (contents p ≢ []) ⊎ (p.writeopen ≡ false)
    by_end true h closed = inr (closed refl)
    by_end false h closed = inl (nonempty-contents p v h)

pub init-IsPipe : (page : ℕ → ℕ) → IsPipe (pipe_init page) × (contents (pipe_init page) ≡ [])
unfolding pipe_init contents window
init-IsPipe page = (omega arith, refl)
