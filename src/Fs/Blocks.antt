-- ===== src/Fs/Blocks.antt =====
-- The block allocator of fs.c. A bit of the free map is a binary digit of its byte: `&` with the mask
-- `1 << k` tests it, `|=` adds the mask where the bit is clear, `&= ~` takes it off where it is set.
use operating_systeams_proje.Prelude.{
  ℕ, zero, suc, ◌+◌, ◌-◌, ◌/◌, ◌%◌, ◌^◌, Bool, not, Option, none, some, ◌==◌, update, min,
}
use operating_systeams_proje.Prelude.Words.{get32}
use operating_systeams_proje.Prelude.Search.{find_index}
use operating_systeams_proje.Disk.{Block, bread}
use operating_systeams_proje.Journal.{bsize}
use operating_systeams_proje.Fs.{
  ran, Superblock, Fs, bpb, bblock, M, ◌>>=◌, ◌>>◌, give, panic, panic_if, get, read_block,
  store_block, log_block,
}

unfoldable pub readsb : M Superblock
readsb = do
  b ← read_block 1
  give (record {
    size = get32 b 0;
    nblocks = get32 b 4;
    ninodes = get32 b 8;
    nlog = get32 b 12;
    logstart = get32 b 16;
    inodestart = get32 b 20;
    bmapstart = get32 b 24;
  })

abbrev pub set_sb : Superblock → M (Unit {0})
set_sb sb s = ran tt (record s { sb = sb })

-- `iinit`, without the initialisation of the locks.
unfoldable pub iinit : M (Unit {0})
unfolding readsb
iinit = do sb ← readsb; set_sb sb

unfoldable pub bzero : ℕ → M (Unit {0})
bzero bno = do store_block bno (λ x. 0); log_block bno 0 bsize

-- `bp->data[bi/8] & (1 << (bi % 8))` is not 0.
unfoldable pub is_used : Block → ℕ → Bool
is_used b bi = b (bi / 8) / 2 ^ (bi % 8) % 2 == 1

unfoldable pub mark_used : Block → ℕ → Block
mark_used b bi = update b (bi / 8) (b (bi / 8) + 2 ^ (bi % 8))

unfoldable pub mark_free : Block → ℕ → Block
mark_free b bi = update b (bi / 8) (b (bi / 8) - 2 ^ (bi % 8))

-- The scan of `balloc` from block `b` on, over `k` blocks of the free map.
unfoldable pub find_free : Fs → ℕ → ℕ → Option ℕ
unfolding is_used find_index
find_free s b zero = none
find_free s b (suc k) =
    let rest = find_free s (b + bpb) k in
    elim (find_index (λ bi. not (is_used (bread s.journal.buffers (bblock b s.sb)) bi)) 0
      (min bpb (s.sb.size - b))) [ some bi ↦ some (b + bi) | none ↦ rest ]

-- What `balloc` does once it has found block `b`.
unfoldable pub take_block : ℕ → M ℕ
unfolding mark_used bzero
take_block b = do
  s ← get
  bits ← read_block (bblock b s.sb)
  store_block (bblock b s.sb) (mark_used bits (b % bpb))
  log_block (bblock b s.sb) (b % bpb / 8) 1
  bzero b
  give b

abbrev pub take_found : Option ℕ → M ℕ
take_found none = panic
take_found (some b) = take_block b

unfoldable pub balloc : M ℕ
unfolding find_free take_block
balloc = do s ← get; take_found (find_free s 0 ((s.sb.size + (bpb - 1)) / bpb))

unfoldable pub bfree : ℕ → M (Unit {0})
unfolding is_used mark_free
bfree b = do
  s ← get
  bits ← read_block (bblock b s.sb)
  panic_if (not (is_used bits (b % bpb)))
  store_block (bblock b s.sb) (mark_free bits (b % bpb))
  log_block (bblock b s.sb) (b % bpb / 8) 1
