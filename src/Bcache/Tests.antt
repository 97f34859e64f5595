-- ===== src/Bcache/Tests.antt =====
-- A cache of two buffers that nobody has used.
use operating_systeams_proje.Prelude.{◌+◌, refl, true, false, [], ◌∷◌, arith}
use operating_systeams_proje.Bcache.{Bcache, bread}
use operating_systeams_proje.Bcache.View.{IsCoherent}
use operating_systeams_proje.Bcache.Reads.{Reads, bread-Reads}

abbrev fresh : Bcache
fresh = record {
  buf = λ i. record {
    dev = 0;
    blockno = 0;
    refcnt = 0;
    valid = false;
    dirty = false;
    locked = false;
    bytes = λ x. 0;
  };
  order = 0 ∷ 1 ∷ [];
  disk = λ d n x. d + n + x;
  havedisk1 = true;
}

fresh-IsCoherent : IsCoherent fresh
fresh-IsCoherent = record {
  unique = λ i j mi mj nz e f. absurd (nz refl);
  read_first = λ i e. refl;
  clean = λ i r c v. absurd (cc);
}

bread-Reads_example : Reads 1 7 fresh (bread 1 7 fresh)
bread-Reads_example = bread-Reads 1 7 fresh (λ e. absurd (omega arith)) fresh-IsCoherent
