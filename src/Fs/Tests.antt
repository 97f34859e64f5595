-- ===== src/Fs/Tests.antt =====
-- A small file system: a file of five bytes in block 10, and a map of four blocks of which block 2 is
-- not used.
use operating_systeams_proje.Prelude.{
  ℕ, zero, suc, ◌<◌, ◌≤◌, ◌≡◌, refl, true, false, ◌&&◌, some, List, [], ◌∷◌, map, ◌==◌,
  if◌then◌else◌, arith,
}
use operating_systeams_proje.Disk.{Block}
use operating_systeams_proje.Journal.{power_on}
use operating_systeams_proje.Fs.{Inode, Fs, t_file, t_dir, blocked, ◌>>=◌, ran, panic, bblock}
use operating_systeams_proje.Fs.Blocks.{balloc, bfree, is_used}
use operating_systeams_proje.Fs.Bitmap.Bits.{used}
use operating_systeams_proje.Fs.Bitmap.Room.{HasRoom}
use operating_systeams_proje.Fs.Bitmap.{Allocates, balloc-Allocates, Frees, bfree-Frees}
use operating_systeams_proje.Fs.Inodes.{iget}
use operating_systeams_proje.Fs.Inodes.Cache.{IsUnique, Gets, iget-Gets}
use operating_systeams_proje.Fs.Content.{readi}
use operating_systeams_proje.Fs.Content.Read.{addr_of, file_byte, IsMapped, readi-file}
use operating_systeams_proje.Fs.Dirs.{namecmp, dirlookup, dirlink}
use operating_systeams_proje.Fs.Dirs.Locks.{alone, dirlink-Links}
use operating_systeams_proje.Strings.{strncmp}
use operating_systeams_proje.Fs.Locks.{HasLocks, Ends}
use operating_systeams_proje.Fs.Paths.{elements, namex}
use operating_systeams_proje.Fs.Paths.Elements.{words, elements-words}
use operating_systeams_proje.Fs.Paths.Locks.{free, namex-Ends}

abbrev blocks : ℕ → Block
blocks b x = if b == 10 then x else if b == 3 && x == 0 then 11 else 0

abbrev five_bytes : Inode
five_bytes = record {
  inum = 1;
  ref = 1;
  locked = false;
  valid = true;
  type = t_file;
  major = 0;
  minor = 0;
  nlink = 1;
  size = 5;
  addrs = λ k. if k == 0 then 10 else 0;
}

abbrev small : Fs
small = record {
  sb = record {
    size = 4;
    nblocks = 1;
    ninodes = 8;
    nlog = 30;
    logstart = 2;
    inodestart = 2;
    bmapstart = 3;
  };
  icache = λ i. if i == 0 then five_bytes else record five_bytes { ref = 0; inum = 0 };
  journal = record (power_on blocks) { size = 40; outstanding = 1 };
}

small-IsUnique : IsUnique small.icache
small-IsUnique i j li lj pi pj e = ground arith

small-HasRoom : (k : ℕ) → k ≤ 2 → HasRoom k small.journal
small-HasRoom k h = record {
  below_logsize = omega arith;
  below_size = omega arith;
  running = omega arith;
  few = omega arith;
}

small-HasLocks : HasLocks free small
small-HasLocks i = ground arith

small-IsMapped : IsMapped small.journal.buffers.cached (small.icache 0)
unfolding addr_of
small-IsMapped zero h = (omega arith, λ e. absurd (omega arith), λ le. absurd (omega arith))
small-IsMapped (suc bn) h = absurd (omega arith)

map_used : (c : ℕ) → c < 4 → used small.journal.buffers.cached small.sb (bblock c small.sb) ≡ true
unfolding used is_used
map_used zero h = refl
map_used (suc zero) h = refl
map_used (suc (suc zero)) h = refl
map_used (suc (suc (suc zero))) h = refl
map_used (suc (suc (suc (suc c)))) h = absurd (omega arith)

iget-Gets_example : Gets 1 small (iget 1 small)
iget-Gets_example = iget-Gets 1 small small-IsUnique

readi-file_example : readi panic 0 2 9 small ≡ ran (some (2 ∷ 3 ∷ 4 ∷ [])) small
unfolding file_byte addr_of
readi-file_example =
    readi-file panic 0 2 9 small (omega arith) (omega arith) (λ e. absurd (omega arith))
      small-IsMapped

balloc-Allocates_example : Allocates small (balloc small)
balloc-Allocates_example = balloc-Allocates small map_used (small-HasRoom 2 (omega arith))

bfree-Frees_example : Frees 1 small (bfree 1 small)
bfree-Frees_example = bfree-Frees 1 small (small-HasRoom 1 (omega arith))

namex-Ends_example : Ends free (namex false (b'/' ∷ b'a' ∷ []) (λ _. 0) 0 small)
namex-Ends_example = namex-Ends false (b'/' ∷ b'a' ∷ []) (λ _. 0) 0 small small-HasLocks

elements-words_example :
    map (λ (r : List ℕ × List ℕ). r.0) (elements (b'/' ∷ b'a' ∷ b'b' ∷ b'/' ∷ b'/' ∷ b'c' ∷ []))
    ≡ words (b'/' ∷ b'a' ∷ b'b' ∷ b'/' ∷ b'/' ∷ b'c' ∷ [])
elements-words_example = elements-words (b'/' ∷ b'a' ∷ b'b' ∷ b'/' ∷ b'/' ∷ b'c' ∷ [])

-- A directory of one entry, `.`, whose lock is held.
abbrev dot : ℕ → ℕ
dot x = if x == 0 then b'.' else 0

abbrev dot_blocks : ℕ → Block
dot_blocks b x = if b == 10 && x == 0 then 1 else if b == 10 && x == 2 then b'.' else blocks 3 x

abbrev dot_dir : Fs
dot_dir = record small {
  icache = λ i.
      if i == 0
      then record five_bytes { type = t_dir; size = 16; locked = true }
      else record five_bytes { ref = 0; inum = 0 };
  journal = record (power_on dot_blocks) { size = 40; outstanding = 1 };
}

dot_dir-HasLocks : HasLocks (alone 0) dot_dir
dot_dir-HasLocks i = ground arith

dirlink-Links_example : dirlink 0 dot 5 dot_dir ≡ blocked
unfolding dirlookup ◌>>=◌ namecmp strncmp
dirlink-Links_example = dirlink-Links 0 dot 5 dot_dir dot_dir-HasLocks
