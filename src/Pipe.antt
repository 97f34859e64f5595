-- ===== src/Pipe.antt =====
-- pipe.c. A call that has to wait is cut at its `sleep`: the result holds what is left to do, and the
-- caller goes on with that after a wakeup. The spin lock and the wakeups are left out; `killed` is
-- `myproc()->killed` when the call looks at it. `nread` and `nwrite` are `uint` and wrap.
pub mod Fifo
mod Tests
use operating_systeams_proje.Prelude.{
  ℕ, zero, suc, ◌+◌, ◌%◌, Bool, true, false, not, ◌&&◌, ◌||◌, List, [], ◌∷◌, ◌==◌, if◌then◌else◌,
  update,
}
use operating_systeams_proje.Prelude.Words.{word}

abbrev pub pipesize : ℕ
pipesize = 512

-- `struct pipe`.
pub record Pipe : Type 0 where
  pub buf : ℕ → ℕ
  pub nread : ℕ
  pub nwrite : ℕ
  pub readopen : Bool
  pub writeopen : Bool

-- The fields that `pipealloc` sets; the page's bytes are whatever `kalloc` returned.
unfoldable pub pipe_init : (ℕ → ℕ) → Pipe
pipe_init page = record { buf = page; nread = 0; nwrite = 0; readopen = true; writeopen = true }

-- `pipeclose`, with whether the page is given back to `kfree`.
unfoldable pub pipeclose : Pipe → Bool → Pipe × Bool
pipeclose p writable =
    let q = if writable then record p { writeopen = false } else record p { readopen = false } in
    (q, not q.readopen && not q.writeopen)

abbrev pub is_full : Pipe → Bool
is_full p = p.nwrite == word (p.nread + pipesize)

abbrev pub is_empty : Pipe → Bool
is_empty p = p.nread == p.nwrite

-- The store of the loop's body.
unfoldable pub put_byte : Pipe → ℕ → Pipe
put_byte p x = record p { buf = update p.buf (p.nwrite % pipesize) x; nwrite = word (p.nwrite + 1) }

-- How a call of `pipewrite` stops: with `n`, with -1, or asleep with the bytes that are left.
pub data Written : Type 0 where
  wrote : Pipe → Written
  refused : Pipe → Written
  sleeps : Pipe → List ℕ → Written

unfoldable pub pipewrite : Bool → Pipe → List ℕ → Written
unfolding put_byte
pipewrite killed p [] = wrote p
pipewrite killed p (x ∷ xs) =
    let rest = pipewrite killed (put_byte p x) xs in
    if is_full p then (if not p.readopen || killed then refused p else sleeps p (x ∷ xs)) else rest

-- How a call of `piperead` stops: with the bytes, with -1, or asleep.
pub data Read : Type 0 where
  got : Pipe → List ℕ → Read
  interrupted : Pipe → Read
  waits : Pipe → Read

abbrev pub take_byte : Pipe → Pipe
take_byte p = record p { nread = word (p.nread + 1) }

-- The copying loop of `piperead`.
unfoldable pub copy_out : Pipe → ℕ → Pipe × List ℕ
copy_out p zero = (p, [])
copy_out p (suc n) =
    let rest = copy_out (take_byte p) n in
    if is_empty p then (p, []) else (rest.0, p.buf (p.nread % pipesize) ∷ rest.1)

unfoldable pub piperead : Bool → Pipe → ℕ → Read
unfolding copy_out
piperead killed p n =
    if is_empty p && p.writeopen
    then (if killed then interrupted p else waits p)
    else (let r = copy_out p n in got r.0 r.1)
