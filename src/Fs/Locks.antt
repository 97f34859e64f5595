-- ===== src/Fs/Locks.antt =====
-- The locks of inodes under the functions of fs.c: which of them a call that returns has taken or given
-- back, and that it does not wait for one.
pub mod Calls
pub mod Held
use operating_systeams_proje.Prelude.{
  ℕ, ◌-◌, ◌≡◌, ◌≢◌, refl, ◌∙◌, Bool, if◌then◌else◌, update, at_update, if_both,
}
use operating_systeams_proje.Disk.{Block}
use operating_systeams_proje.Journal.{Outcome, returns, panics}
use operating_systeams_proje.Log.{log_write}
use operating_systeams_proje.Fs.{
  Inode, Fs, M, Ran, ran, panicked, blocked, ◌>>=◌, and_then, give, panic, get, read_block,
  store_block, log_block, log_result, inode_at, modify,
}

abbrev pub HasLocks : (ℕ → Bool) → Fs → Type 0
HasLocks l s = (i : ℕ) → (s.icache i).locked ≡ l i

-- The call does not wait for a lock, and if it returns the locks are `l`.
abbrev pub Ends : {A : Type 0} → (ℕ → Bool) → Ran A → Type 0
Ends l (ran a s) = HasLocks l s
Ends l panicked = Unit {0}
Ends l blocked = ⊥

-- From the locks `l` the call leads to the locks `l'`.
pub record Moves {A : Type 0} (l : ℕ → Bool) (m : M A) (l' : ℕ → Bool) : Type 0 where
  pub at : (s : Fs) → HasLocks l s → Ends l' (m s)

pub record Keeps {A : Type 0} (m : M A) : Type 0 where
  pub at : (l : ℕ → Bool) → Moves l m l

pub Moves-bind :
    {A B : Type 0} (l l' l'' : ℕ → Bool) (m : M A) (f : A → M B)
    → Moves l m l'
    → ((a : A) → Moves l' (f a) l'')
    → Moves l (m >>= f) l''
unfolding ◌>>=◌
Moves-bind {A = A} l l' l'' m f h k = record { at = λ s p. go (m s) (h.at s p) }
  where
    go : (r : Ran A) → Ends l' r → Ends l'' (and_then r f)
    go (ran a s') q = (k a).at s' q
    go panicked q = tt
    go blocked q = q

pub Keeps-bind :
    {A B : Type 0} (m : M A) (f : A → M B) → Keeps m → ((a : A) → Keeps (f a)) → Keeps (m >>= f)
Keeps-bind m f h k = record { at = λ l. Moves-bind l l l m f (h.at l) (λ a. (k a).at l) }

pub Keeps-if : {A : Type 0} (b : Bool) (x y : M A) → Keeps x → Keeps y → Keeps (if b then x else y)
Keeps-if b x y h k = if_both Keeps b x y h k

-- A call that leaves the inodes alone.
pub Keeps-same :
    {A : Type 0} (m : M A) → ((l : ℕ → Bool) (s : Fs) → HasLocks l s → Ends l (m s)) → Keeps m
Keeps-same m h = record { at = λ l. record { at = h l } }

pub Keeps-give : {A : Type 0} (a : A) → Keeps (give a)
unfolding give
Keeps-give a = Keeps-same (give a) (λ l s h. h)

pub Keeps-panic : {A : Type 0} → Keeps (panic {A = A})
unfolding panic
Keeps-panic = Keeps-same panic (λ l s h. tt)

pub Keeps-get : Keeps get
unfolding get
Keeps-get = Keeps-same get (λ l s h. h)

pub Keeps-read_block : (b : ℕ) → Keeps (read_block b)
unfolding read_block
Keeps-read_block b = Keeps-same (read_block b) (λ l s h. h)

pub Keeps-store_block : (b : ℕ) (block : Block) → Keeps (store_block b block)
unfolding store_block
Keeps-store_block b block = Keeps-same (store_block b block) (λ l s h. h)

pub Keeps-inode_at : (i : ℕ) → Keeps (inode_at i)
unfolding inode_at
Keeps-inode_at i = Keeps-same (inode_at i) (λ l s h. h)

pub Keeps-log_block : (b off len : ℕ) → Keeps (log_block b off len)
unfolding log_block
Keeps-log_block b off len =
    Keeps-same (log_block b off len) (λ l s h. go l s h (log_write b off len s.journal))
  where
    go : (l : ℕ → Bool) (s : Fs) → HasLocks l s → (o : Outcome) → Ends l (log_result s o)
    go l s h (returns j) = h
    go l s h (panics j) = tt

pub modified :
    (i : ℕ) (f : Inode → Inode) (l l' : ℕ → Bool) (s : Fs)
    → HasLocks l s
    → (f (s.icache i)).locked ≡ l' i
    → ((j : ℕ) → j ≢ i → l j ≡ l' j)
    → HasLocks l' (record s { icache = update s.icache i (f (s.icache i)) })
modified i f l l' s h e o j =
    at_update (λ k (r : Inode). r.locked ≡ l' k) s.icache i (f (s.icache i)) j e
      (λ ne. h j ∙ o j ne)

pub Keeps-modify :
    (i : ℕ) (f : Inode → Inode) → ((ip : Inode) → (f ip).locked ≡ ip.locked) → Keeps (modify i f)
unfolding modify
Keeps-modify i f same =
    Keeps-same (modify i f) (λ l s h. modified i f l l s h (same (s.icache i) ∙ h i) (λ j ne. refl))

pub ruleset keeps = (
  Keeps-bind, Keeps-if, Keeps-give, Keeps-panic, Keeps-get, Keeps-read_block, Keeps-store_block,
  Keeps-inode_at, Keeps-log_block,
)
