-- ===== src/Crc/Detect.antt =====
-- What the checksum of log.c detects: one damaged byte, wherever it stands.
use operating_systeams_proje.Prelude.{
  ℕ, zero, suc, ◌/◌, ◌^◌, ◌<◌, ◌≤◌, bit_xor, ◌≡◌, ◌≢◌, refl, sym, ap, ◌∙◌, List, [], ◌∷◌, ◌++◌, All,
  arith,
}
use operating_systeams_proje.Prelude.Bits.{
  bit_xor-div, bit_xor-lt, bit_xor_cancel, bit_xor_cancel_left,
}
use operating_systeams_proje.Crc.{polynomial, crc_round, crc_rounds, crc32, CrcState, all_ones}
use operating_systeams_proje.Crc.Table.{crc_serial, crc_reference, crc32-eq-reference, IsSound}

abbrev pub IsWord : ℕ → Type 0
IsWord x = x < 2 ^ 32

abbrev pub IsByte : ℕ → Type 0
IsByte x = x < 256

-- The polynomial's highest digit shows whether a round has mixed it in.
mixed_high : (x : ℕ) → x < 2 ^ 31 → 2 ^ 31 ≤ bit_xor polynomial x
mixed_high x h =
    let e : bit_xor polynomial x / 2 ^ 31 ≡ bit_xor 1 (x / 2 ^ 31) = bit_xor-div 31 polynomial x in
    let z : bit_xor 1 (x / 2 ^ 31) ≡ 1 = ap (bit_xor 1) {y = 0} (omega arith) in omega arith

round-IsWord : (x : ℕ) → IsWord x → IsWord (crc_round x)
unfolding crc_round
round-IsWord x h = ground (arith, bit_xor-lt 32 polynomial (x / 2))

round_injective : (a b : ℕ) → IsWord a → IsWord b → crc_round a ≡ crc_round b → a ≡ b
unfolding crc_round
round_injective a b p q h =
    ground (
      arith,
      mixed_high (a / 2),
      mixed_high (b / 2),
      bit_xor_cancel_left (a / 2) (b / 2) polynomial,
    )

pub rounds-IsWord : (j x : ℕ) → IsWord x → IsWord (crc_rounds j x)
unfolding crc_rounds
rounds-IsWord zero x h = h
rounds-IsWord (suc j) x h = rounds-IsWord j (crc_round x) (round-IsWord x h)

rounds_injective : (j a b : ℕ) → IsWord a → IsWord b → crc_rounds j a ≡ crc_rounds j b → a ≡ b
unfolding crc_rounds
rounds_injective zero a b p q h = h
rounds_injective (suc j) a b p q h =
    round_injective a b p q
      (rounds_injective j (crc_round a) (crc_round b) (round-IsWord a p) (round-IsWord b q) h)

-- A byte is added to a word.
added-IsWord : (crc d : ℕ) → IsWord crc → IsByte d → IsWord (bit_xor crc d)
added-IsWord crc d p q = bit_xor-lt 32 crc d p (omega arith)

byte-IsWord : (crc d : ℕ) → IsWord crc → IsByte d → IsWord (crc_rounds 8 (bit_xor crc d))
byte-IsWord crc d p q = rounds-IsWord 8 (bit_xor crc d) (added-IsWord crc d p q)

serial-IsWord : (crc : ℕ) (ds : List ℕ) → IsWord crc → All IsByte ds → IsWord (crc_serial crc ds)
unfolding crc_serial
serial-IsWord crc [] p b = p
serial-IsWord crc (d ∷ ds) p b =
    serial-IsWord (crc_rounds 8 (bit_xor crc d)) ds (byte-IsWord crc d p b.0) b.1

serial_injective :
    (a b : ℕ) (ds : List ℕ)
    → IsWord a
    → IsWord b
    → All IsByte ds
    → crc_serial a ds ≡ crc_serial b ds
    → a ≡ b
unfolding crc_serial
serial_injective a b [] p q v h = h
serial_injective a b (d ∷ ds) p q v h = bit_xor_cancel a b d (
    rounds_injective 8 (bit_xor a d) (bit_xor b d) (added-IsWord a d p v.0) (added-IsWord b d q v.0)
      (serial_injective (crc_rounds 8 (bit_xor a d)) (crc_rounds 8 (bit_xor b d)) ds
        (byte-IsWord a d p v.0) (byte-IsWord b d q v.0) v.1 h))

serial-append :
    (crc : ℕ) (xs ys : List ℕ) → crc_serial crc (xs ++ ys) ≡ crc_serial (crc_serial crc xs) ys
unfolding crc_serial
serial-append crc [] ys = refl
serial-append crc (x ∷ xs) ys = serial-append (crc_rounds 8 (bit_xor crc x)) xs ys

All-append : (xs ys : List ℕ) → All IsByte xs → All IsByte ys → All IsByte (xs ++ ys)
All-append [] ys v w = w
All-append (x ∷ xs) ys v w = (v.0, All-append xs ys v.1 w)

reference_detects :
    (before after : List ℕ) (x y : ℕ)
    → All IsByte before
    → All IsByte after
    → IsByte x
    → IsByte y
    → crc_reference (before ++ (x ∷ after)) ≡ crc_reference (before ++ (y ∷ after))
    → x ≡ y
unfolding crc_reference crc_serial
reference_detects before after x y v w p q h = bit_xor_cancel_left x y crc (
    rounds_injective 8 (bit_xor crc x) (bit_xor crc y) (added-IsWord crc x c p)
      (added-IsWord crc y c q)
      (serial_injective (crc_rounds 8 (bit_xor crc x)) (crc_rounds 8 (bit_xor crc y)) after
        (byte-IsWord crc x c p) (byte-IsWord crc y c q) w
        (sym (serial-append all_ones before (x ∷ after))
          ∙ bit_xor_cancel _ _ all_ones h
          ∙ serial-append all_ones before (y ∷ after))))
  where
    crc : ℕ
    crc = crc_serial all_ones before

    c : IsWord crc
    c = serial-IsWord all_ones before (omega arith) v

-- Two strings of bytes that differ in exactly one byte have different checksums, from any sound
-- states of the statics: one damaged byte is always detected.
pub crc32-detects_byte :
    (s t : CrcState) (before after : List ℕ) (x y : ℕ)
    → IsSound s
    → IsSound t
    → All IsByte before
    → All IsByte after
    → IsByte x
    → IsByte y
    → x ≢ y
    → (crc32 s (before ++ (x ∷ after))).0 ≢ (crc32 t (before ++ (y ∷ after))).0
crc32-detects_byte s t before after x y u u' v w p q ne h = ne (
    reference_detects before after x y v w p q (
      sym (crc32-eq-reference s _ u (All-append before (x ∷ after) v (p, w))).0
      ∙ h
      ∙ (crc32-eq-reference t _ u' (All-append before (y ∷ after) v (q, w))).0))
