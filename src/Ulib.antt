-- ===== src/Ulib.antt =====
-- `atoi` of ulib.c and `printint` of printf.c. A text is the list of its characters before the NUL; an
-- `int` is its bit pattern.
pub mod Decimal
mod Tests
use operating_systeams_proje.Prelude.{
  ℕ, zero, suc, ◌+◌, ◌-◌, ◌*◌, ◌/◌, ◌%◌, ◌^◌, Bool, ◌&&◌, List, [], ◌∷◌, ◌==◌, ltb, leb,
  if◌then◌else◌,
}
use operating_systeams_proje.Prelude.Words.{word}

-- The loop of `atoi`.
unfoldable pub atoi_from : ℕ → List ℕ → ℕ
atoi_from n [] = n
atoi_from n (c ∷ cs) =
    let rest = atoi_from (word (n * 10 + c - b'0')) cs in
    if leb b'0' c && leb c b'9' then rest else n

abbrev pub atoi : List ℕ → ℕ
atoi s = atoi_from 0 s

-- `digits[d]`.
abbrev pub digit_char : ℕ → ℕ
digit_char d = if ltb d 10 then b'0' + d else b'A' + (d - 10)

-- The loop that fills `buf`, which is written out from its end: `acc` is what stands in it. A word has at
-- most 32 digits in any base from 2 on.
unfoldable pub put_digits : ℕ → ℕ → ℕ → List ℕ → List ℕ
put_digits zero base x acc = acc
put_digits (suc k) base x acc =
    let more = digit_char (x % base) ∷ acc in
    let rest = put_digits k base (x / base) more in if x / base == 0 then more else rest

-- What `printint` writes.
unfoldable pub printint : ℕ → ℕ → Bool → List ℕ
unfolding put_digits
printint xx base sgn =
    let neg = sgn && leb (2 ^ 31) xx in
    let x = if neg then word (2 ^ 32 - xx) else xx in
    if neg then b'-' ∷ put_digits 32 base x [] else put_digits 32 base x []
