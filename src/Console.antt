-- ===== src/Console.antt =====
-- console.c: the ring of the characters typed, `consoleintr` and `consoleread`. A character is a byte.
-- The echo, the wakeup, the lock and the process listing are left out; a reader that has to wait is cut
-- at its `sleep`. The indices are `uint` and wrap.
pub mod Ring
pub mod Erase
pub mod Reads
mod Tests
use operating_systeams_proje.Prelude.{
  ℕ, zero, suc, ◌+◌, ◌-◌, ◌%◌, ◌^◌, Bool, not, ◌&&◌, ◌||◌, List, [], ◌∷◌, ◌==◌, ltb, if◌then◌else◌,
  update,
}
use operating_systeams_proje.Prelude.Words.{word}

abbrev pub input_buf : ℕ
input_buf = 128

-- `input`.
pub record Input : Type 0 where
  pub buf : ℕ → ℕ
  pub r : ℕ
  pub w : ℕ
  pub e : ℕ

-- `input.e - 1`.
abbrev pub back : ℕ → ℕ
back x = word (x + 2 ^ 32 - 1)

-- The loop of Control-U, when `k` characters are not committed.
unfoldable pub kill_line : ℕ → Input → Input
kill_line zero s = s
kill_line (suc k) s =
    let rest = kill_line k (record s { e = back s.e }) in
    if not (s.e == s.w) && not (s.buf (back s.e % input_buf) == b'\n') then rest else s

-- The stores for a character that is kept; the line is committed at its end, or when the ring is full.
unfoldable pub put_char : ℕ → Input → Input
put_char c s =
    let t = record s { buf = update s.buf (s.e % input_buf) c; e = word (s.e + 1) } in
    if c == b'\n' || c == 4 || t.e == word (s.r + input_buf) then record t { w = t.e } else t

-- A round of `consoleintr`: Control-P, Control-U, Control-H or DEL, and the rest.
unfoldable pub type_char : ℕ → Input → Input
unfolding kill_line put_char
type_char c s =
    if c == 16
    then s
    else if c == 21
    then kill_line (word (s.e + 2 ^ 32 - s.w)) s
    else if c == 8 || c == 127
    then (if s.e == s.w then s else record s { e = back s.e })
    else if not (c == 0) && ltb (word (s.e + 2 ^ 32 - s.r)) input_buf
    then put_char (if c == b'\r' then b'\n' else c) s
    else s

-- `consoleintr`, with what `getc` returns before its -1.
unfoldable pub consoleintr : List ℕ → Input → Input
unfolding type_char
consoleintr [] s = s
consoleintr (c ∷ cs) s = consoleintr cs (type_char c s)

-- How a call stops: with the bytes, with -1, or asleep with the number that is left; the bytes stored so
-- far are kept.
pub data Reading : Type 0 where
  got : Input → List ℕ → Reading
  interrupted : Input → List ℕ → Reading
  waits : Input → List ℕ → ℕ → Reading

-- `*dst++ = c` before the rest.
unfoldable pub stored : ℕ → Reading → Reading
stored c (got s ys) = got s (c ∷ ys)
stored c (interrupted s ys) = interrupted s (c ∷ ys)
stored c (waits s ys n) = waits s (c ∷ ys) n

-- `killed` is `myproc()->killed`; `target` is the count that was asked for, and the next argument what is
-- left of it.
unfoldable pub consoleread : Bool → ℕ → ℕ → Input → Reading
unfolding stored
consoleread killed target zero s = got s []
consoleread killed target (suc n) s =
    let c = s.buf (s.r % input_buf) in
    let t = record s { r = word (s.r + 1) } in
    let rest = consoleread killed target n t in
    if s.r == s.w
    then (if killed then interrupted s [] else waits s [] (suc n))
    else if c == 4
    then (if ltb (suc n) target then got s [] else got t [])
    else if c == b'\n'
    then got t (c ∷ [])
    else stored c rest
