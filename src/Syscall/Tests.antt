-- ===== src/Syscall/Tests.antt =====
-- A process of 4096 bytes with its stack at 4000; the first argument is 256, where `a` stands.
use operating_systeams_proje.Prelude.{
  ◌+◌, ◌^◌, ◌<◌, ◌≤◌, ◌≡◌, ◌↔◌, some, ◌==◌, if◌then◌else◌, arith,
}
use operating_systeams_proje.Syscall.{User, argint, argptr, argstr}
use operating_systeams_proje.Syscall.Arguments.{Ends, args-InSpace}

abbrev process : User
process = record {
  sz = 4096;
  memory = λ a. if a == 4005 then 1 else if a == 256 then b'a' else 0;
  esp = 4000;
}

args-InSpace_example :
    ((argptr process 0 16 ≡ some 256)
      ↔ ((argint process 0 ≡ some 256) × (16 < 2 ^ 31) × (256 + 16 ≤ 4096) × (256 < 4096)))
    × ((argstr process 0 ≡ some (256, 1)) ↔ ((argint process 0 ≡ some 256) × Ends process 256 1))
args-InSpace_example = args-InSpace process 0 16 256 1 (omega arith) (omega arith)
