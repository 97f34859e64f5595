-- ===== src/Crc.antt =====
-- The checksum of log.c: `crc32_init` fills a table of 256 words, `crc32` runs over the bytes of a
-- log block's slice. A `uint` is a number below 2 ^ 32, `x & 1` and `x & 0xFF` are remainders,
-- `x >> k` a quotient.
pub mod Table
pub mod Detect
pub mod Checksum
use operating_systeams_proje.Prelude.{
  ℕ, zero, suc, ◌+◌, ◌/◌, ◌%◌, bit_xor, ◌≡◌, Bool, true, false, List, [], ◌∷◌, ◌==◌, if◌then◌else◌,
  update,
}

-- The IEEE 802.3 polynomial, reflected.
abbrev pub polynomial : ℕ
polynomial = 0xEDB88320

-- One round of the inner loop: `(c & 1) ? (0xEDB88320 ^ (c >> 1)) : (c >> 1)`.
unfoldable pub crc_round : ℕ → ℕ
crc_round c = if c % 2 == 1 then bit_xor polynomial (c / 2) else c / 2

-- The loop over `j`.
unfoldable pub crc_rounds : ℕ → ℕ → ℕ
crc_rounds zero c = c
crc_rounds (suc j) c = crc_rounds j (crc_round c)

-- The static table and its flag.
pub record CrcState : Type 0 where
  pub crc32_table : ℕ → ℕ
  pub crc32_ready : Bool

-- Static storage is zero at boot.
abbrev pub zeroed : CrcState
zeroed = record { crc32_table = λ _. 0; crc32_ready = false }

-- The loop over `i` after its first `n` rounds.
unfoldable pub fill : ℕ → (ℕ → ℕ) → ℕ → ℕ
fill zero table = table
fill (suc n) table = update (fill n table) n (crc_rounds 8 n)

unfoldable pub crc32_init : CrcState → CrcState
unfolding fill crc_rounds crc_round
crc32_init s = record { crc32_table = fill 256 s.crc32_table; crc32_ready = true }

-- The loop over the bytes.
unfoldable pub crc_bytes : (ℕ → ℕ) → ℕ → List ℕ → ℕ
crc_bytes table crc [] = crc
crc_bytes table crc (d ∷ ds) =
    crc_bytes table (bit_xor (table (bit_xor crc d % 256)) (crc / 256)) ds

abbrev pub all_ones : ℕ
all_ones = 0xFFFFFFFF

abbrev pub ensure_ready : CrcState → CrcState
ensure_ready s = if s.crc32_ready then s else crc32_init s

unfoldable pub crc32 : CrcState → List ℕ → ℕ × CrcState
unfolding crc_bytes crc32_init
crc32 s bytes =
    let t = ensure_ready s in (bit_xor (crc_bytes t.crc32_table all_ones bytes) all_ones, t)
