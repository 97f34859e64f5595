-- ===== src/Ulib/Tests.antt =====
-- Numbers printed and read.
use operating_systeams_proje.Prelude.{◌-◌, ◌^◌, ◌≡◌, ◌≤◌, refl, true, [], ◌∷◌, length, arith}
use operating_systeams_proje.Ulib.{atoi, printint, put_digits}
use operating_systeams_proje.Ulib.Decimal.{atoi-printint}

negative : printint (2 ^ 32 - 40) 10 true ≡ b'-' ∷ b'4' ∷ b'0' ∷ []
unfolding printint put_digits
negative = refl

atoi-printint_example :
    (atoi (printint 2147483647 10 true) ≡ 2147483647) × (length (printint 2147483647 10 true) ≤ 10)
atoi-printint_example = atoi-printint 2147483647 true (omega arith)
