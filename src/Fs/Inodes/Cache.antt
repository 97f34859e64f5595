-- ===== src/Fs/Inodes/Cache.antt =====
-- The inode cache: `iget` finds the one entry of an inode, or makes it.
use operating_systeams_proje.Prelude.{
  ℕ, suc, ◌+◌, ◌<◌, ◌≡◌, ◌≢◌, ◌⊎◌, inl, inr, refl, sym, ◌∙◌, ap, true, false, Option, none, some,
  update, at_update, update_self, update_ne, arith,
}
use operating_systeams_proje.Prelude.Search.{IsFirst, find_index-IsFirst}
use operating_systeams_proje.Fs.{Inode, Fs, ninode, Ran, ran, panicked, blocked}
use operating_systeams_proje.Fs.Inodes.{holds, is_unreferenced, iget_found, iget}

-- No inode has two entries.
abbrev pub IsUnique : (ℕ → Inode) → Type 0
IsUnique c =
    (i j : ℕ)
    → i < ninode
    → j < ninode
    → 0 < (c i).ref
    → 0 < (c j).ref
    → (c i).inum ≡ (c j).inum
    → i ≡ j

-- Entry `i` is now that of the inode, with one reference more; it was that before or was free, and what
-- is made anew has to be read from the disk. The other entries are as they were.
pub record Got (inum : ℕ) (c : ℕ → Inode) (i : ℕ) (c' : ℕ → Inode) : Type 0 where
  pub bound : i < ninode
  pub inum_is : (c' i).inum ≡ inum
  pub ref_is : (c' i).ref ≡ suc (c i).ref
  pub was_its : ((c i).ref ≡ 0) ⊎ ((c i).inum ≡ inum)
  pub to_read : (c i).ref ≡ 0 → (c' i).valid ≡ false
  pub others : (j : ℕ) → j ≢ i → c' j ≡ c j

abbrev pub Gets : ℕ → Fs → Ran ℕ → Type 0
Gets inum s (ran i s') = Got inum s.icache i s'.icache × IsUnique s'.icache
Gets inum s panicked = (i : ℕ) → i < ninode → (0 < (s.icache i).ref) × ((s.icache i).inum ≢ inum)
Gets inum s blocked = ⊥

held : (c : ℕ → Inode) (inum i : ℕ) → holds c inum i ≡ true → (0 < (c i).ref) × ((c i).inum ≡ inum)
held c inum i e = ground arith

not_held : (c : ℕ → Inode) (inum i : ℕ) → holds c inum i ≡ false → 0 < (c i).ref → (c i).inum ≢ inum
not_held c inum i e = ground arith

emptied : (c : ℕ → Inode) (i : ℕ) → is_unreferenced c i ≡ true → (c i).ref ≡ 0
emptied c i e = ground arith

not_emptied : (c : ℕ → Inode) (i : ℕ) → is_unreferenced c i ≡ false → 0 < (c i).ref
not_emptied c i e = ground arith

-- A new value of entry `i` keeps the entries unique if no other holds its inode.
IsUnique-update :
    (c : ℕ → Inode) (i : ℕ) (ip : Inode)
    → IsUnique c
    → ((j : ℕ) → j ≢ i → j < ninode → 0 < (c j).ref → (c j).inum ≢ ip.inum)
    → IsUnique (update c i ip)
IsUnique-update c i ip u alone j k lj lk =
    at_update
      (λ j x. 0 < x.ref → 0 < (update c i ip k).ref → x.inum ≡ (update c i ip k).inum → j ≡ k) c i
      ip j
      (λ pj.
        at_update (λ k x. 0 < x.ref → ip.inum ≡ x.inum → i ≡ k) c i ip k (λ pk e. refl)
          (λ ne pk e. absurd (alone k ne lk pk (sym e))))
      (λ ne pj.
        at_update (λ k x. 0 < x.ref → (c j).inum ≡ x.inum → j ≡ k) c i ip k
          (λ pk e. absurd (alone j ne lj pj e)) (λ ne' pk e. u j k lj lk pj pk e))

got :
    (inum : ℕ) (c : ℕ → Inode) (i : ℕ) (ip : Inode)
    → IsUnique c
    → i < ninode
    → ip.inum ≡ inum
    → ip.ref ≡ suc (c i).ref
    → ((c i).ref ≡ 0) ⊎ ((c i).inum ≡ inum)
    → ((c i).ref ≡ 0 → ip.valid ≡ false)
    → ((j : ℕ) → j ≢ i → j < ninode → 0 < (c j).ref → (c j).inum ≢ inum)
    → Got inum c i (update c i ip) × IsUnique (update c i ip)
got inum c i ip u lt e r w v alone =
    let self : update c i ip i ≡ ip = update_self c i ip in
    (
      record {
        bound = lt;
        inum_is = ap (λ (x : Inode). x.inum) self ∙ e;
        ref_is = ap (λ (x : Inode). x.ref) self ∙ r;
        was_its = w;
        to_read = λ z. ap (λ (x : Inode). x.valid) self ∙ v z;
        others = λ j ne. update_ne c i j ip ne;
      },
      IsUnique-update c i ip u (λ j ne lj pj q. alone j ne lj pj (q ∙ e)),
    )

found-Gets :
    (inum : ℕ) (s : Fs) (o e : Option ℕ)
    → IsUnique s.icache
    → IsFirst (holds s.icache inum) 0 ninode o
    → IsFirst (is_unreferenced s.icache) 0 ninode e
    → Gets inum s (iget_found inum o e s)
found-Gets inum s (some i) e u (lo, hi, hit, _) _ =
    let (p, q) = held s.icache inum i hit in
    got inum s.icache i (record (s.icache i) { ref = (s.icache i).ref + 1 }) u hi q (omega arith)
      (inr q) (λ z. absurd (omega arith)) (λ j ne lj pj ej. ne (u j i lj hi pj p (ej ∙ sym q)))
found-Gets inum s none none u f g = λ i lt.
    let p : 0 < (s.icache i).ref = not_emptied s.icache i (g i (omega arith) lt) in
    (p, not_held s.icache inum i (f i (omega arith) lt) p)
found-Gets inum s none (some i) u f (lo, hi, hit, _) =
    let z : (s.icache i).ref ≡ 0 = emptied s.icache i hit in
    got inum s.icache i (record (s.icache i) { inum = inum; ref = 1; valid = false }) u hi refl
      (omega arith) (inl z) (λ _. refl)
      (λ j ne lj pj. not_held s.icache inum j (f j (omega arith) lj) pj)

-- In a cache in which no inode in use has two entries, `iget` returns an entry of the inode with one
-- reference more, which was the inode's or was free and is then to be read from the disk; the other
-- entries are as before, and still no inode has two. It panics only if every entry is in use, none
-- by the inode, and it does not wait.
pub iget-Gets : (inum : ℕ) (s : Fs) → IsUnique s.icache → Gets inum s (iget inum s)
unfolding iget
iget-Gets inum s u =
    found-Gets inum s _ _ u (find_index-IsFirst (holds s.icache inum) 0 ninode)
      (find_index-IsFirst (is_unreferenced s.icache) 0 ninode)
