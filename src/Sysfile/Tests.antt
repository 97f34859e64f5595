-- ===== src/Sysfile/Tests.antt =====
-- A root directory without entries: `/` is opened and becomes the current directory.
use operating_systeams_proje.Prelude.{◌≡◌, refl, true, false, some, [], ◌∷◌}
use operating_systeams_proje.Prelude.{◌==◌, if◌then◌else◌, arith}
use operating_systeams_proje.Journal.{Journal, power_on}
use operating_systeams_proje.Log.{begin_op}
use operating_systeams_proje.Fs.{Inode, Fs, t_dir}
use operating_systeams_proje.Fs.Locks.{HasLocks, Ends}
use operating_systeams_proje.Fs.Paths.Locks.{free}
use operating_systeams_proje.Sysfile.Open.{o_rdonly, sys_open, sys_chdir}
use operating_systeams_proje.Sysfile.Locks.{sys_calls-End}

abbrev root : Inode
root = record {
  inum = 1;
  ref = 1;
  locked = false;
  valid = true;
  type = t_dir;
  major = 0;
  minor = 0;
  nlink = 1;
  size = 0;
  addrs = λ k. 0;
}

abbrev bare : Fs
bare = record {
  sb = record {
    size = 4;
    nblocks = 1;
    ninodes = 8;
    nlog = 30;
    logstart = 2;
    inodestart = 2;
    bmapstart = 3;
  };
  icache = λ i. if i == 0 then root else record root { ref = 0; inum = 0 };
  journal = record (power_on (λ b x. 0)) { size = 40 };
}

bare-HasLocks : HasLocks free bare
bare-HasLocks i = ground arith

abbrev begun_journal : Journal
begun_journal = record bare.journal { outstanding = 1; batch_size = 1 }

begins : begin_op bare.journal ≡ some begun_journal
unfolding begin_op
begins = refl

sys_calls-End_example :
    Ends free (sys_chdir (some (b'/' ∷ [])) (λ x. 0) 0 bare)
    × Ends free (sys_open (some 3) (some (b'/' ∷ [])) (some o_rdonly) (λ x. 0) 0 bare)
sys_calls-End_example =
    sys_calls-End (some 3) (some (b'/' ∷ [])) o_rdonly (λ x. 0) 0 bare begun_journal refl begins
      bare-HasLocks
