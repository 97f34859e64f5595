-- ===== src/Fs/Content/Read.antt =====
-- What `readi` returns: the bytes of the file.
use operating_systeams_proje.Prelude.{
  ℕ, zero, suc, ◌+◌, ◌-◌, ◌*◌, ◌/◌, ◌%◌, ◌^◌, ◌<◌, ◌≤◌, ◌≡◌, ◌≢◌, inl, inr, refl, sym, ◌∙◌, ap, ap₂,
  Bool, true, false, ◌||◌, Option, none, some, List, ◌∷◌, ◌++◌, ◌==◌, ltb, leb, if◌then◌else◌, min,
  slice, arith, Bool-cases, ==_ne, if_true, if_false,
}
use operating_systeams_proje.Prelude.Words.{word, get32}
use operating_systeams_proje.Disk.{Block}
use operating_systeams_proje.Journal.{bsize}
use operating_systeams_proje.Fs.{
  Inode, Fs, t_dev, ndirect, nindirect, maxfile, M, ran, ◌>>=◌, give, bind_ran, read_block,
  inode_at,
}
use operating_systeams_proje.Fs.Content.{direct_addr, listed_addr, bmap, chunk, read_chunks, readi}

-- The number of block `bn` of the file, looked up in the inode or in its indirect block.
unfoldable pub addr_of : (ℕ → Block) → Inode → ℕ → ℕ
addr_of d ip bn =
    if ltb bn ndirect then ip.addrs bn else get32 (d (ip.addrs ndirect)) (4 * (bn - ndirect))

-- The file as bytes.
unfoldable pub file_byte : (ℕ → Block) → Inode → ℕ → ℕ
unfolding addr_of
file_byte d ip x = d (addr_of d ip (x / bsize)) (x % bsize)

-- The blocks below the file's size are allocated.
abbrev pub IsMapped : (ℕ → Block) → Inode → Type 0
IsMapped d ip =
    (bn : ℕ)
    → bn * bsize < ip.size
    → (bn < maxfile) × (addr_of d ip bn ≢ 0) × (ndirect ≤ bn → ip.addrs ndirect ≢ 0)

direct_addr_pure :
    (i k : ℕ) (s : Fs) → (s.icache i).addrs k ≢ 0 → direct_addr i k s ≡ ran ((s.icache i).addrs k) s
unfolding direct_addr ◌>>=◌
direct_addr_pure i k s h = rw (==_ne ((s.icache i).addrs k) 0 h) refl

listed_addr_pure :
    (at bn : ℕ) (s : Fs)
    → get32 (s.journal.buffers.cached at) (4 * bn) ≢ 0
    → listed_addr at bn s ≡ ran (get32 (s.journal.buffers.cached at) (4 * bn)) s
unfolding listed_addr ◌>>=◌
listed_addr_pure at bn s h = rw (==_ne (get32 (s.journal.buffers.cached at) (4 * bn)) 0 h) refl

bmap_pure :
    (i bn : ℕ) (s : Fs)
    → IsMapped s.journal.buffers.cached (s.icache i)
    → bn * bsize < (s.icache i).size
    → bmap i bn s ≡ ran (addr_of s.journal.buffers.cached (s.icache i) bn) s
unfolding bmap addr_of
bmap_pure i bn s m h = elim (Bool-cases (ltb bn ndirect)) [
  | inl e ↦
      ap (λ f. f s) (if_true {A = M ℕ} (ltb bn ndirect) _ _ e)
      ∙ direct_addr_pure i bn s (rw e at (m bn h).1)
      ∙ ap (λ a. ran a s) (sym (if_true (ltb bn ndirect) _ _ e))
  | inr e ↦
      ap (λ f. f s) (if_false {A = M ℕ} (ltb bn ndirect) _ _ e ∙ if_true {A = M ℕ} _ _ _ (within e))
      ∙ bind_ran (direct_addr i ndirect) _ s _ s
          (direct_addr_pure i ndirect s ((m bn h).2 (ground (arith, e))))
      ∙ listed_addr_pure _ (bn - ndirect) s (rw e at (m bn h).1)
      ∙ ap (λ a. ran a s) (sym (if_false (ltb bn ndirect) _ _ e))
]
  where
    within : ltb bn ndirect ≡ false → ltb (bn - ndirect) nindirect ≡ true
    within e = ground (arith, (m bn h).0)

slice_split :
    (a : ℕ → ℕ) (off p m n t : ℕ)
    → p ≡ off + m
    → m + n ≡ t
    → slice a off m ++ slice a p n ≡ slice a off t
slice_split a off p zero n t e f =
    let from : p ≡ off = omega arith in let len : n ≡ t = omega arith in ap₂ (slice a) from len
slice_split a off p (suc m) n t e f =
    let len : suc (m + n) ≡ t = omega arith in
    ap (λ l. a off ∷ l) (slice_split a (suc off) p m n (m + n) (omega arith) refl)
    ∙ ap (slice a off) len

slice_ext :
    (a b : ℕ → ℕ) (p q n : ℕ)
    → ((k : ℕ) → k < n → a (p + k) ≡ b (q + k))
    → slice a p n ≡ slice b q n
slice_ext a b p q zero h = refl
slice_ext a b p q (suc n) h =
    ap₂ (λ x l. x ∷ l) (ap a (omega arith) ∙ h 0 (omega arith) ∙ ap b (omega arith))
      (slice_ext a b (suc p) (suc q) n
        (λ k lt. ap a (omega arith) ∙ h (suc k) (omega arith) ∙ ap b (omega arith)))

-- A part of one block is a part of the file.
chunk-file :
    (d : ℕ → Block) (ip : Inode) (off n : ℕ)
    → slice (d (addr_of d ip (off / bsize))) (off % bsize) (chunk off n)
      ≡ slice (file_byte d ip) off (chunk off n)
unfolding file_byte
chunk-file d ip off n =
    slice_ext _ (file_byte d ip) _ off _
      (λ k lt. ap₂ (λ bn x. d (addr_of d ip bn) x) (div_same k lt) (mod_same k lt))
  where
    div_same : (k : ℕ) → k < chunk off n → off / bsize ≡ (off + k) / bsize
    div_same k lt = omega arith

    mod_same : (k : ℕ) → k < chunk off n → off % bsize + k ≡ (off + k) % bsize
    mod_same k lt = omega arith

read_chunks-file :
    (rounds i off n : ℕ) (s : Fs)
    → IsMapped s.journal.buffers.cached (s.icache i)
    → n ≤ rounds
    → off + n ≤ (s.icache i).size
    → read_chunks rounds i off n s
      ≡ ran (slice (file_byte s.journal.buffers.cached (s.icache i)) off n) s
unfolding read_chunks give read_block
read_chunks-file zero i off n s m h l =
    let z : 0 ≡ n = omega arith in
    ap (λ k. ran (slice (file_byte s.journal.buffers.cached (s.icache i)) off k) s) z
read_chunks-file (suc r) i off n s m h l = elim (Bool-cases (n == 0)) [
  | inl e ↦
      let z : 0 ≡ n = ground (arith, e) in
      ap (λ f. f s) (if_true {A = M (List ℕ)} (n == 0) _ _ e)
      ∙ ap (λ k. ran (slice (file_byte s.journal.buffers.cached (s.icache i)) off k) s) z
  | inr e ↦
      let pos : 0 < n = ground (arith, e) in
      ap (λ f. f s) (if_false {A = M (List ℕ)} (n == 0) _ _ e)
      ∙ bind_ran _ _ s _ s (bmap_pure i (off / bsize) s m (omega arith))
      ∙ bind_ran _ _ s _ s refl
      ∙ bind_ran _ _ s _ s (
          read_chunks-file r i (off + chunk off n) (n - chunk off n) s m (omega arith)
            (omega arith))
      ∙ ap (λ bs. ran bs s)
          (ap
              (λ x.
                x
                ++ slice (file_byte s.journal.buffers.cached (s.icache i)) (off + chunk off n)
                    (n - chunk off n))
              (chunk-file s.journal.buffers.cached (s.icache i) off n)
            ∙ slice_split (file_byte s.journal.buffers.cached (s.icache i)) off _ (chunk off n) _ n
                refl (omega arith))
]

-- If the blocks of a file are allocated up to its size, and it is not a device, `readi` at an offset
-- beyond the size, or of a range whose end overflows a word, answers -1; else it returns the file's
-- bytes from the offset on, up to `n` of them and not beyond the size. It changes nothing.
pub readi-file :
    (device : M (Option (List ℕ))) (i off n : ℕ) (s : Fs)
    → off < 2 ^ 32
    → n < 2 ^ 32
    → (s.icache i).type ≢ t_dev
    → IsMapped s.journal.buffers.cached (s.icache i)
    → readi device i off n s
      ≡ ran
          (if ltb (s.icache i).size off || leb (2 ^ 32) (off + n)
            then none
            else some (
                slice
                  (file_byte s.journal.buffers.cached (s.icache i))
                  off
                  (min n ((s.icache i).size - off))))
          s
unfolding readi give inode_at
readi-file device i off n s lo ln t m =
    bind_ran _ _ s _ s refl
    ∙ ap (λ f. f s) (if_false {A = M (Option (List ℕ))} _ _ _ (==_ne (s.icache i).type t_dev t))
    ∙ rw (overflows off n lo ln) (go (ltb (s.icache i).size off || leb (2 ^ 32) (off + n)) refl)
  where
    overflows :
        (off n : ℕ) → off < 2 ^ 32 → n < 2 ^ 32 → ltb (word (off + n)) off ≡ leb (2 ^ 32) (off + n)
    overflows off n lo ln = ground arith

    counted :
        (size : ℕ)
        → ltb size off || leb (2 ^ 32) (off + n) ≡ false
        → ((if ltb size (off + n) then size - off else n) ≡ min n (size - off)) × (off ≤ size)
    counted size e = ground (arith, e)

    go :
        (b : Bool)
        → ltb (s.icache i).size off || leb (2 ^ 32) (off + n) ≡ b
        → (if b then give none else (do
          let m = if ltb (s.icache i).size (off + n) then (s.icache i).size - off else n
          bytes ← read_chunks m i off m
          give (some bytes)))
            s
          ≡ ran
              (if b
                then none
                else some (
                    slice
                      (file_byte s.journal.buffers.cached (s.icache i))
                      off
                      (min n ((s.icache i).size - off))))
              s
    go true e = refl
    go false e =
        let (count, le) = counted (s.icache i).size e in
        rw count (
          bind_ran _ _ s _ s (
            read_chunks-file _ i off (min n ((s.icache i).size - off)) s m (omega arith)
              (omega (arith, le))))
