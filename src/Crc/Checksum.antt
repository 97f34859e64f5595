-- ===== src/Crc/Checksum.antt =====
-- The checksum as a function of the bytes alone, whatever state the statics are in.
use operating_systeams_proje.Prelude.{
  ℕ, ◌/◌, ◌%◌, ◌^◌, ◌<◌, bit_xor, ◌≡◌, refl, sym, ap, ◌∙◌, List, [], ◌∷◌, arith,
}
use operating_systeams_proje.Prelude.Bits.{bit_xor-lt}
use operating_systeams_proje.Crc.{
  crc_rounds, crc_bytes, crc32, CrcState, zeroed, all_ones, ensure_ready,
}
use operating_systeams_proje.Crc.Table.{IsSound, IsFilled, ensure_ready-IsFilled}
use operating_systeams_proje.Crc.Detect.{IsWord, rounds-IsWord}

unfoldable pub checksum : List ℕ → ℕ
checksum ds = (crc32 zeroed ds).0

pub zeroed-IsSound : IsSound zeroed
zeroed-IsSound e = cc

same_tables :
    (t u : ℕ → ℕ)
    → IsFilled t
    → IsFilled u
    → (crc : ℕ) (ds : List ℕ) → crc_bytes t crc ds ≡ crc_bytes u crc ds
unfolding crc_bytes IsFilled
same_tables t u f g crc [] = refl
same_tables t u f g crc (d ∷ ds) =
    ap (λ w. crc_bytes t (bit_xor w (crc / 256)) ds) e
    ∙ same_tables t u f g (bit_xor (u (bit_xor crc d % 256)) (crc / 256)) ds
  where
    e : t (bit_xor crc d % 256) ≡ u (bit_xor crc d % 256)
    e = f _ (omega arith) ∙ sym (g (bit_xor crc d % 256) (omega arith))

-- Every call computes the checksum of its bytes, and leaves the statics sound.
pub crc32-checksum : (s : CrcState) (ds : List ℕ) → IsSound s → (crc32 s ds).0 ≡ checksum ds
unfolding crc32 checksum
crc32-checksum s ds v =
    ap (λ c. bit_xor c all_ones)
      (same_tables _ _ (ensure_ready-IsFilled s v) (ensure_ready-IsFilled zeroed zeroed-IsSound)
        all_ones ds)

pub crc32-IsSound : (s : CrcState) (ds : List ℕ) → IsSound s → IsSound (crc32 s ds).1
unfolding crc32
crc32-IsSound s ds v = λ _. ensure_ready-IsFilled s v

bytes-IsWord :
    (t : ℕ → ℕ) → IsFilled t → (crc : ℕ) (ds : List ℕ) → IsWord crc → IsWord (crc_bytes t crc ds)
unfolding crc_bytes IsFilled
bytes-IsWord t f crc [] h = h
bytes-IsWord t f crc (d ∷ ds) h =
    bytes-IsWord t f (bit_xor (t (bit_xor crc d % 256)) (crc / 256)) ds
      (bit_xor-lt 32 (t (bit_xor crc d % 256)) (crc / 256) w (omega arith))
  where
    w : IsWord (t (bit_xor crc d % 256))
    w =
        let b : crc_rounds 8 (bit_xor crc d % 256) < 2 ^ 32 =
          rounds-IsWord 8 (bit_xor crc d % 256) (omega arith) in
        omega (arith, f (bit_xor crc d % 256) (omega arith))

pub checksum-IsWord : (ds : List ℕ) → IsWord (checksum ds)
unfolding checksum crc32
checksum-IsWord ds =
    bit_xor-lt 32 (crc_bytes (ensure_ready zeroed).crc32_table all_ones ds) all_ones
      (bytes-IsWord (ensure_ready zeroed).crc32_table (ensure_ready-IsFilled zeroed zeroed-IsSound)
        all_ones ds (omega arith))
      (omega arith)
