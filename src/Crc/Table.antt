-- ===== src/Crc/Table.antt =====
-- The table-driven checksum of log.c computes the bit-serial one.
use operating_systeams_proje.Prelude.{
  ℕ, zero, suc, ◌*◌, ◌/◌, ◌%◌, ◌^◌, ◌<◌, bit_xor, ◌≡◌, refl, sym, ap, ap₂, ◌∙◌, Bool, true, false,
  List, [], ◌∷◌, ◌==◌, if◌then◌else◌, All, arith,
}
use operating_systeams_proje.Prelude.Bits.{
  bit_xor-half, bit_xor-div, bit_xor-parity, bit_xor_comm, bit_xor_exchange, bit_xor_self, zero-xor,
  xor-zero, bit_xor_fill,
}
use native.Mathlib.Nat.{pow-suc, mul_assoc}
use operating_systeams_proje.Crc.{
  polynomial, crc_round, crc_rounds, fill, crc32_init, crc_bytes, crc32, CrcState, all_ones,
  ensure_ready,
}

-- The reference: each byte is added into the register, which is then shifted eight times.
unfoldable pub crc_serial : ℕ → List ℕ → ℕ
crc_serial crc [] = crc
crc_serial crc (d ∷ ds) = crc_serial (crc_rounds 8 (bit_xor crc d)) ds

unfoldable pub crc_reference : List ℕ → ℕ
crc_reference bytes = bit_xor (crc_serial all_ones bytes) all_ones

-- `0` or the polynomial, by the lowest digit.
tap : ℕ → ℕ
tap x = if x % 2 == 1 then polynomial else 0

round_tap : (x : ℕ) → crc_round x ≡ bit_xor (tap x) (x / 2)
unfolding crc_round tap
round_tap x = ground (arith, zero-xor (x / 2))

tap-xor : (a b : ℕ) → tap (bit_xor a b) ≡ bit_xor (tap a) (tap b)
unfolding tap
tap-xor a b = ground (
  arith,
  bit_xor-parity a b,
  bit_xor_self polynomial,
  xor-zero polynomial,
  zero-xor polynomial,
  zero-xor 0,
)

-- A round is linear.
pub round-xor : (a b : ℕ) → crc_round (bit_xor a b) ≡ bit_xor (crc_round a) (crc_round b)
round-xor a b =
    round_tap (bit_xor a b)
    ∙ ap₂ bit_xor (tap-xor a b) (bit_xor-half a b)
    ∙ bit_xor_exchange (tap a) (tap b) (a / 2) (b / 2)
    ∙ sym (ap₂ bit_xor (round_tap a) (round_tap b))

pub rounds-xor :
    (j a b : ℕ) → crc_rounds j (bit_xor a b) ≡ bit_xor (crc_rounds j a) (crc_rounds j b)
unfolding crc_rounds
rounds-xor zero a b = refl
rounds-xor (suc j) a b =
    ap (crc_rounds j) (round-xor a b) ∙ rounds-xor j (crc_round a) (crc_round b)

round_even : (m : ℕ) → crc_round (m * 2) ≡ m
unfolding crc_round
round_even m = ground arith

rounds_shift : (j m : ℕ) → crc_rounds j (m * 2 ^ j) ≡ m
unfolding crc_rounds
rounds_shift zero m = omega arith
rounds_shift (suc j) m =
    let e : m * 2 ^ suc j ≡ m * 2 ^ j * 2 = rw (pow-suc 2 j) (sym (mul_assoc m (2 ^ j) 2)) in
    ap (λ x. crc_rounds j (crc_round x)) e
    ∙ ap (crc_rounds j) (round_even (m * 2 ^ j))
    ∙ rounds_shift j m

-- Eight rounds shift the upper digits down and mix in the table's word for the lowest byte.
pub rounds_split : (x : ℕ) → crc_rounds 8 x ≡ bit_xor (crc_rounds 8 (x % 256)) (x / 256)
rounds_split x =
    ap (crc_rounds 8) split
    ∙ rounds-xor 8 (x / 256 * 2 ^ 8) (x % 256)
    ∙ ap (λ y. bit_xor y (crc_rounds 8 (x % 256))) (rounds_shift 8 (x / 256))
    ∙ bit_xor_comm (x / 256) (crc_rounds 8 (x % 256))
  where
    split : x ≡ bit_xor (x / 256 * 2 ^ 8) (x % 256)
    split = omega (arith, bit_xor_fill 8 (x / 256) (x % 256) (omega arith))

fill_at : (n : ℕ) (t : ℕ → ℕ) (i : ℕ) → i < n → fill n t i ≡ crc_rounds 8 i
unfolding fill
fill_at zero t i h = absurd (omega arith)
fill_at (suc n) t i h = ground (arith, fill_at n t i)

-- The table holds the words that `crc32_init` computes.
unfoldable pub IsFilled : (ℕ → ℕ) → Type 0
IsFilled table = (i : ℕ) → i < 256 → table i ≡ crc_rounds 8 i

pub init-IsFilled : (s : CrcState) → IsFilled (crc32_init s).crc32_table
unfolding crc32_init IsFilled
init-IsFilled s i h = fill_at 256 s.crc32_table i h

xor_byte-div : (crc d : ℕ) → d < 256 → bit_xor crc d / 256 ≡ crc / 256
xor_byte-div crc d h =
    bit_xor-div 8 crc d
    ∙ ap (bit_xor (crc / 256)) {x = d / 256} {y = 0} (omega arith)
    ∙ xor-zero (crc / 256)

pub bytes-serial :
    (table : ℕ → ℕ)
    → IsFilled table
    → (crc : ℕ) (ds : List ℕ) → All (λ d. d < 256) ds
    → crc_bytes table crc ds ≡ crc_serial crc ds
unfolding crc_bytes crc_serial IsFilled
bytes-serial table filled crc [] b = refl
bytes-serial table filled crc (d ∷ ds) b =
    ap (λ c. crc_bytes table c ds) word
    ∙ bytes-serial table filled (crc_rounds 8 (bit_xor crc d)) ds b.1
  where
    word : bit_xor (table (bit_xor crc d % 256)) (crc / 256) ≡ crc_rounds 8 (bit_xor crc d)
    word =
        ap₂ bit_xor (filled (bit_xor crc d % 256) (omega arith)) (sym (xor_byte-div crc d b.0))
        ∙ sym (rounds_split (bit_xor crc d))

-- The state of the statics between calls: once the flag is set, the table is filled.
abbrev pub IsSound : CrcState → Type 0
IsSound s = s.crc32_ready ≡ true → IsFilled s.crc32_table

ready-IsFilled :
    (ready : Bool) (s : CrcState)
    → (ready ≡ true → IsFilled s.crc32_table)
    → IsFilled (if ready then s else crc32_init s).crc32_table
ready-IsFilled true s v = v refl
ready-IsFilled false s v = init-IsFilled s

pub ensure_ready-IsFilled : (s : CrcState) → IsSound s → IsFilled (ensure_ready s).crc32_table
ensure_ready-IsFilled s v = ready-IsFilled s.crc32_ready s v

-- From any sound state of the statics `crc32` returns the bit-serial checksum of its bytes, and
-- leaves the statics sound.
pub crc32-eq-reference :
    (s : CrcState) (bytes : List ℕ)
    → IsSound s
    → All (λ d. d < 256) bytes
    → ((crc32 s bytes).0 ≡ crc_reference bytes) × IsSound (crc32 s bytes).1
unfolding crc32 crc_reference
crc32-eq-reference s bytes v b = (
  ap (λ c. bit_xor c all_ones)
      (bytes-serial (ensure_ready s).crc32_table (ensure_ready-IsFilled s v) all_ones bytes b),
  λ _. ensure_ready-IsFilled s v,
)
