-- ===== src/Ulib/Decimal.antt =====
-- What `atoi` reads of what `printint` prints.
use operating_systeams_proje.Prelude.{
  ℕ, zero, suc, ◌+◌, ◌-◌, ◌*◌, ◌/◌, ◌%◌, ◌^◌, ◌≤◌, ◌<◌, ◌≡◌, refl, sym, ◌∙◌, ap, subst, Bool, true,
  false, ◌&&◌, List, [], ◌∷◌, ◌==◌, leb, if◌then◌else◌, length, arith, Bool-cases, inl, inr,
  if_true, if_false, if_both,
}
use native.Mathlib.Nat.{pow-suc}
use operating_systeams_proje.Prelude.Words.{word}
use operating_systeams_proje.Ulib.{atoi_from, atoi, digit_char, put_digits, printint}

digit_char_lem : (d : ℕ) → d < 10 → digit_char d ≡ b'0' + d
digit_char_lem d l = ground arith

-- One digit is read.
digit-atoi_from :
    (x : ℕ) (acc : List ℕ)
    → x < 2 ^ 32
    → atoi_from (x / 10) (digit_char (x % 10) ∷ acc) ≡ atoi_from x acc
unfolding atoi_from
digit-atoi_from x acc l =
    let d : digit_char (x % 10) ≡ b'0' + x % 10 = digit_char_lem (x % 10) (omega arith) in
    let n : word (x / 10 * 10 + (b'0' + x % 10) - b'0') ≡ x = omega arith in
    let t : (leb b'0' (b'0' + x % 10) && leb (b'0' + x % 10) b'9') ≡ true =
      range (x % 10) (omega arith) in
    rw (d, n, t) refl
  where
    range : (d : ℕ) → d < 10 → (leb b'0' (b'0' + d) && leb (b'0' + d) b'9') ≡ true
    range d lt = ground arith

put_digits-atoi_from :
    (k x : ℕ) (acc : List ℕ)
    → x < 2 ^ 32
    → x < 10 ^ k
    → atoi_from 0 (put_digits k 10 x acc) ≡ atoi_from x acc
unfolding put_digits
put_digits-atoi_from zero x acc l h = ap (λ n. atoi_from n acc) {x = 0} (omega arith)
put_digits-atoi_from (suc k) x acc l h = elim (Bool-cases (x / 10 == 0)) [
  | inl e ↦
      let z : 0 ≡ x / 10 = ground arith in
      ap (atoi_from 0) (if_true _ _ _ e)
      ∙ ap (λ n. atoi_from n (digit_char (x % 10) ∷ acc)) z
      ∙ digit-atoi_from x acc l
  | inr e ↦
      ap (atoi_from 0) (if_false _ _ _ e)
      ∙ put_digits-atoi_from k (x / 10) (digit_char (x % 10) ∷ acc) (omega arith)
          (omega (arith, pow-suc 10 k))
      ∙ digit-atoi_from x acc l
]

length-put_digits :
    (k j x : ℕ) (acc : List ℕ)
    → x < 10 ^ suc j
    → length (put_digits k 10 x acc) ≤ suc j + length acc
unfolding put_digits
length-put_digits zero j x acc h = omega arith
length-put_digits (suc k) zero x acc h =
    let b : (x / 10 == 0) ≡ true = ground arith in
    subst (λ (ys : List ℕ). length ys ≤ 1 + length acc) (sym (if_true _ _ _ b)) (omega arith)
length-put_digits (suc k) (suc j) x acc h =
    if_both (λ (ys : List ℕ). length ys ≤ suc (suc j) + length acc) (x / 10 == 0)
      (digit_char (x % 10) ∷ acc) (put_digits k 10 (x / 10) (digit_char (x % 10) ∷ acc))
      (omega arith)
      (omega (
        arith,
        length-put_digits k j (x / 10) (digit_char (x % 10) ∷ acc)
            (omega (arith, pow-suc 10 (suc j))),
      ))

-- Without a sign, the digits are all that is printed.
printint_plain : (xx : ℕ) (sgn : Bool) → xx < 2 ^ 31 → printint xx 10 sgn ≡ put_digits 32 10 xx []
unfolding printint
printint_plain xx sgn l = plain (sgn && leb (2 ^ 31) xx) (positive sgn)
  where
    plain :
        (b : Bool)
        → b ≡ false
        → (if b
            then b'-' ∷ put_digits 32 10 (if b then word (2 ^ 32 - xx) else xx) []
            else put_digits 32 10 (if b then word (2 ^ 32 - xx) else xx) [])
          ≡ put_digits 32 10 xx []
    plain true e = absurd (cc)
    plain false e = refl

    positive : (b : Bool) → (b && leb (2 ^ 31) xx) ≡ false
    positive b = ground arith

-- For an `int` that is not negative, signed or not, `atoi` of what `printint` prints in base 10 is the
-- number, and at most 10 characters are printed.
pub atoi-printint :
    (xx : ℕ) (sgn : Bool)
    → xx < 2 ^ 31
    → (atoi (printint xx 10 sgn) ≡ xx) × (length (printint xx 10 sgn) ≤ 10)
unfolding atoi_from
atoi-printint xx sgn l =
    subst (λ ys. (atoi ys ≡ xx) × (length ys ≤ 10)) (sym (printint_plain xx sgn l))
      (
        put_digits-atoi_from 32 xx [] (omega arith) (omega arith),
        length-put_digits 32 9 xx [] (omega arith),
      )
