-- ===== src/Prelude/Words.antt =====
-- 32-bit words: a word is a number below 2 ^ 32, and an `int` is read from its bit pattern.
-- A block of memory is a function from the offset to the byte, and holds words in little endian.
use Prim.Native.Nat.{ℕ, ◌+◌, ◌*◌, ◌/◌, ◌%◌, ◌^◌, ◌≤◌, ◌<◌}
use mathlib.Core.Path.{◌≡◌}
use mathlib.Core.Bool.{Bool}
use mathlib.Core.Logic.{◌⊎◌}
use native.Mathlib.Omega.{arith}
use operating_systeams_proje.Prelude.Tests.{◌==◌, ltb, if◌then◌else◌}

abbrev pub word : ℕ → ℕ
word x = x % 2 ^ 32

-- `a < b` as `int`.
abbrev pub slt : ℕ → ℕ → Bool
slt a b = ltb (word (a + 2 ^ 31)) (word (b + 2 ^ 31))

-- The rounds of `for(i = 0; i < n; i++)` with `int n`.
abbrev pub rounds : ℕ → ℕ
rounds n = if slt 0 n then n else 0

-- `a[off .. off + 4)` read as a word, and `v` written there.
unfoldable pub get32 : (ℕ → ℕ) → ℕ → ℕ
get32 a off = a off + a (off + 1) * 256 + a (off + 2) * 65536 + a (off + 3) * 16777216

unfoldable pub put32 : (ℕ → ℕ) → ℕ → ℕ → ℕ → ℕ
put32 a off v i =
    if i == off
    then v % 256
    else if i == off + 1
    then v / 256 % 256
    else if i == off + 2
    then v / 65536 % 256
    else if i == off + 3
    then v / 16777216 % 256
    else a i

pub put32_other : (a : ℕ → ℕ) (off v i : ℕ) → (i < off) ⊎ (off + 4 ≤ i) → put32 a off v i ≡ a i
unfolding put32
put32_other a off v i h = ground arith

pub get32-put32 : (a : ℕ → ℕ) (off v : ℕ) → v < 2 ^ 32 → get32 (put32 a off v) off ≡ v
unfolding get32 put32
get32-put32 a off v h = ground arith

pub get32-put32_other :
    (a : ℕ → ℕ) (off v o : ℕ) → (o + 4 ≤ off) ⊎ (off + 4 ≤ o) → get32 (put32 a off v) o ≡ get32 a o
unfolding get32
get32-put32_other a off v o h = ground (
  arith,
  put32_other a off v o,
  put32_other a off v (o + 1),
  put32_other a off v (o + 2),
  put32_other a off v (o + 3),
)

-- The same for the 16 digits of a `short`.
unfoldable pub get16 : (ℕ → ℕ) → ℕ → ℕ
get16 a off = a off + a (off + 1) * 256

unfoldable pub put16 : (ℕ → ℕ) → ℕ → ℕ → ℕ → ℕ
put16 a off v i = if i == off then v % 256 else if i == off + 1 then v / 256 % 256 else a i

pub get16-put16 : (a : ℕ → ℕ) (off v : ℕ) → v < 2 ^ 16 → get16 (put16 a off v) off ≡ v
unfolding get16 put16
get16-put16 a off v h = ground arith

pub put16_other : (a : ℕ → ℕ) (off v i : ℕ) → (i < off) ⊎ (off + 2 ≤ i) → put16 a off v i ≡ a i
unfolding put16
put16_other a off v i h = ground arith
