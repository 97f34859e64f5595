-- ===== src/Pipe/Tests.antt =====
-- A pipe whose indices are about to wrap, with two bytes in it.
use operating_systeams_proje.Prelude.{
  ◌-◌, ◌^◌, ◌≡◌, refl, true, false, [], ◌∷◌, arith, if◌then◌else◌, ◌==◌,
}
use operating_systeams_proje.Pipe.{Pipe, pipewrite, piperead}
use operating_systeams_proje.Pipe.Fifo.{
  IsPipe, Writes, Reads, contents, pipewrite-Writes, piperead-Reads,
}

abbrev wrapping : Pipe
wrapping = record {
  buf = λ i. if i == 511 then 5 else 6;
  nread = 2 ^ 32 - 1;
  nwrite = 1;
  readopen = true;
  writeopen = true;
}

contents-wrapping : contents wrapping ≡ 5 ∷ 6 ∷ []
unfolding contents
contents-wrapping = refl

wrapping-IsPipe : IsPipe wrapping
wrapping-IsPipe = omega arith

pipewrite-Writes_example :
    Writes false wrapping (7 ∷ 8 ∷ []) (pipewrite false wrapping (7 ∷ 8 ∷ []))
pipewrite-Writes_example = pipewrite-Writes false wrapping (7 ∷ 8 ∷ []) wrapping-IsPipe

piperead-Reads_example : Reads false wrapping 3 (piperead false wrapping 3)
piperead-Reads_example = piperead-Reads false wrapping 3 wrapping-IsPipe
