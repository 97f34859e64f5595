-- ===== src/Fs/Locks/Held.antt =====
-- The calls that take and give back the lock of an inode that is not held.
use operating_systeams_proje.Prelude.{
  ◌≡◌, sym, update_self, update_ne, ℕ, ◌-◌, refl, Bool, true, false, if◌then◌else◌, update, if_both,
}
use operating_systeams_proje.Fs.{Inode, Fs, M, ◌>>=◌, done, modify}
use operating_systeams_proje.Fs.Inodes.{lock, unlock, load_inode, ilock, iunlock, iput, iunlockput}
use operating_systeams_proje.Fs.Locks.{
  HasLocks, Moves, Keeps, Moves-bind, modified, Keeps-if, Keeps-give, Keeps-panic, Keeps-inode_at,
  Keeps-modify,
}
use operating_systeams_proje.Fs.Locks.Calls.{Keeps-load_inode, Keeps-free_inode}

-- A step that keeps the locks, then the rest.
pub Moves-then :
    {A B : Type 0} (l l' : ℕ → Bool) (m : M A) (f : A → M B)
    → Keeps m
    → ((a : A) → Moves l (f a) l')
    → Moves l (m >>= f) l'
Moves-then l l' m f h k = Moves-bind l l l' m f (h.at l) k

pub Moves-if :
    {A : Type 0} (l l' : ℕ → Bool) (b : Bool) (x y : M A)
    → Moves l x l'
    → Moves l y l'
    → Moves l (if b then x else y) l'
Moves-if l l' b x y h k = if_both (λ m. Moves l m l') b x y h k

-- The locks `l`, and that of inode `i`.
abbrev pub with : (ℕ → Bool) → ℕ → ℕ → Bool
with l i = update l i true

lock-Moves : (l : ℕ → Bool) (i : ℕ) → l i ≡ false → Moves l (lock i) (with l i)
unfolding lock
lock-Moves l i f = record { at = λ s h. rw (h i, f) (locked s h) }
  where
    locked :
        (s : Fs)
        → HasLocks l s
        → HasLocks
            (with l i)
            (record s { icache = update s.icache i (record (s.icache i) { locked = true }) })
    locked s h =
        modified i (λ (ip : Inode). record ip { locked = true }) l (with l i) s h
          (sym (update_self l i true)) (λ j ne. sym (update_ne l i j true ne))

unlock-Moves : (l : ℕ → Bool) (i : ℕ) → l i ≡ false → Moves (with l i) (unlock i) l
unfolding unlock modify
unlock-Moves l i f = record {
  at = λ s h.
      modified i (λ (ip : Inode). record ip { locked = false }) (with l i) l s h (sym f)
        (λ j ne. update_ne l i j true ne);
}

pub ilock-Moves : (l : ℕ → Bool) (i : ℕ) → l i ≡ false → Moves l (ilock i) (with l i)
unfolding ilock
ilock-Moves l i f = Moves-then l (with l i) _ _ (Keeps-inode_at i) (λ ip.
    Moves-then l (with l i) _ _ (Keeps-if _ _ _ Keeps-panic (Keeps-give tt)) (λ _.
      Moves-bind l (with l i) (with l i) _ _ (lock-Moves l i f) (λ _.
        (Keeps-if ip.valid done (load_inode i) (Keeps-give tt) (Keeps-load_inode i)).at
          (with l i))))

pub iunlock-Moves : (l : ℕ → Bool) (i : ℕ) → l i ≡ false → Moves (with l i) (iunlock i) l
unfolding iunlock
iunlock-Moves l i f = Moves-then (with l i) l _ _ (Keeps-inode_at i) (λ ip.
    Moves-then (with l i) l _ _ (Keeps-if _ _ _ Keeps-panic (Keeps-give tt))
      (λ _. unlock-Moves l i f))

pub iput-Moves : (l : ℕ → Bool) (i : ℕ) → l i ≡ false → Moves l (iput i) l
unfolding iput
iput-Moves l i f = Moves-bind l (with l i) l _ _ (lock-Moves l i f) (λ _.
    Moves-then (with l i) l _ _ (Keeps-inode_at i) (λ ip.
      Moves-then (with l i) l _ _ (Keeps-if _ _ _ (Keeps-free_inode i) (Keeps-give tt)) (λ _.
        Moves-bind (with l i) l l _ _ (unlock-Moves l i f)
          (λ _. (Keeps-modify i (λ ip'. record ip' { ref = ip'.ref - 1 }) (λ q. refl)).at l))))

pub iunlockput-Moves : (l : ℕ → Bool) (i : ℕ) → l i ≡ false → Moves (with l i) (iunlockput i) l
unfolding iunlockput
iunlockput-Moves l i f = Moves-bind (with l i) l l _ _ (iunlock-Moves l i f) (λ _. iput-Moves l i f)
