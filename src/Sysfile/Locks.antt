-- ===== src/Sysfile/Locks.antt =====
-- The calls that open a path give back every lock that they take.
use operating_systeams_proje.Prelude.{
  ℕ, ◌≡◌, sym, refl, Bool, Option, none, some, List, if◌then◌else◌, if_both, if_false, false, subst,
}
use operating_systeams_proje.Journal.{Journal, Outcome, returns, panics}
use operating_systeams_proje.Log.{begin_op, end_op}
use operating_systeams_proje.Fs.{
  Fs, M, Ran, ran, panicked, blocked, ◌>>=◌, ◌>>◌, and_then, give, log_result,
}
use operating_systeams_proje.Fs.Paths.{namei}
use operating_systeams_proje.Fs.Locks.{
  HasLocks, Ends, Moves, Keeps, Moves-bind, Keeps-same, Keeps-give, Keeps-inode_at,
}
use operating_systeams_proje.Fs.Locks.Held.{
  Moves-then, Moves-if, ilock-Moves, iunlock-Moves, iput-Moves, iunlockput-Moves,
}
use operating_systeams_proje.Fs.Paths.Locks.{free, only, namex-Ends}
use operating_systeams_proje.Sysfile.{begin_tx, begun, end_tx}
use operating_systeams_proje.Sysfile.Open.{
  open_found, open_inode, open_as, sys_open, enter, namei_arg, sys_chdir, is_set, o_create,
}

-- The call does not wait for a lock, and if it returns the locks are those that its result says.
abbrev pub EndsAs : {A : Type 0} → (A → ℕ → Bool) → Ran A → Type 0
EndsAs l (ran a s) = HasLocks (l a) s
EndsAs l panicked = Unit {0}
EndsAs l blocked = ⊥

record MovesAs {A : Type 0} (l : ℕ → Bool) (m : M A) (l' : A → ℕ → Bool) : Type 0 where
  at : (s : Fs) → HasLocks l s → EndsAs l' (m s)

MovesAs-after :
    {A B : Type 0} (l l' : ℕ → Bool) (l'' : B → ℕ → Bool) (m : M A) (f : A → M B)
    → Moves l m l'
    → ((a : A) → MovesAs l' (f a) l'')
    → MovesAs l (m >>= f) l''
unfolding ◌>>=◌
MovesAs-after {A = A} l l' l'' m f h k = record { at = λ s p. go (m s) (h.at s p) }
  where
    go : (r : Ran A) → Ends l' r → EndsAs l'' (and_then r f)
    go (ran a s') q = (k a).at s' q
    go panicked q = tt
    go blocked q = q

Moves-as :
    {A B : Type 0} (l : ℕ → Bool) (l' : A → ℕ → Bool) (l'' : ℕ → Bool) (m : M A) (f : A → M B)
    → MovesAs l m l'
    → ((a : A) → Moves (l' a) (f a) l'')
    → Moves l (m >>= f) l''
unfolding ◌>>=◌
Moves-as {A = A} l l' l'' m f h k = record { at = λ s p. go (m s) (h.at s p) }
  where
    go : (r : Ran A) → EndsAs l' r → Ends l'' (and_then r f)
    go (ran a s') q = (k a).at s' q
    go panicked q = tt
    go blocked q = q

MovesAs-give : {A : Type 0} (l' : A → ℕ → Bool) (a : A) → MovesAs (l' a) (give a) l'
unfolding give
MovesAs-give l' a = record { at = λ s h. h }

MovesAs-if :
    {A : Type 0} (l : ℕ → Bool) (l' : A → ℕ → Bool) (b : Bool) (x y : M A)
    → MovesAs l x l'
    → MovesAs l y l'
    → MovesAs l (if b then x else y) l'
MovesAs-if l l' b x y h k = if_both (λ m. MovesAs l m l') b x y h k

Keeps-end_tx : Keeps end_tx
unfolding end_tx
Keeps-end_tx = Keeps-same end_tx (λ l s h. go l s h (end_op s.journal))
  where
    go : (l : ℕ → Bool) (s : Fs) → HasLocks l s → (o : Outcome) → Ends l (log_result s o)
    go l s h (returns j) = h
    go l s h (panics j) = tt

namei-Moves : (path : List ℕ) (junk : ℕ → ℕ) (cwd : ℕ) → Moves free (namei path junk cwd) free
namei-Moves path junk cwd = record { at = λ s h. namex-Ends _ path junk cwd s h }

-- The lock that the caller of `open_found` then has.
locks_of : Option ℕ → ℕ → Bool
locks_of none = free
locks_of (some ip) = only ip

finish : {A : Type 0} (a : A) → Moves free (end_tx >> give a) free
finish a = Moves-then free free _ _ Keeps-end_tx (λ _. (Keeps-give a).at free)

open_found-Moves :
    (omode : ℕ) (found : Option (ℕ × (ℕ → ℕ))) → MovesAs free (open_found omode found) locks_of
unfolding open_found locks_of
open_found-Moves omode none = MovesAs-give locks_of none
open_found-Moves omode (some (ip, name)) =
    MovesAs-after free (only ip) locks_of _ _ (ilock-Moves free ip refl) (λ _.
      MovesAs-after (only ip) (only ip) locks_of _ _ ((Keeps-inode_at ip).at (only ip)) (λ t.
        MovesAs-if (only ip) locks_of _ _ _
          (MovesAs-after (only ip) free locks_of _ _ (iunlockput-Moves free ip refl)
            (λ _. MovesAs-give locks_of none))
          (MovesAs-give locks_of (some ip))))

open_as-Moves : (omode : ℕ) (fd ip : Option ℕ) → Moves (locks_of ip) (open_as omode fd ip) free
unfolding open_as locks_of
open_as-Moves omode fd none = finish none
open_as-Moves omode none (some ip) =
    Moves-bind (only ip) free free _ _ (iunlockput-Moves free ip refl) (λ _. finish none)
open_as-Moves omode (some fd) (some ip) =
    Moves-bind (only ip) free free _ _ (iunlock-Moves free ip refl) (λ _. finish _)

enter-Moves : (cwd : ℕ) (found : Option (ℕ × (ℕ → ℕ))) → Moves free (enter cwd found) free
unfolding enter
enter-Moves cwd none = finish none
enter-Moves cwd (some (ip, name)) =
    Moves-bind free (only ip) free _ _ (ilock-Moves free ip refl) (λ _.
      Moves-then (only ip) free _ _ (Keeps-inode_at ip) (λ t.
        Moves-if (only ip) free _ _ _
          (Moves-bind (only ip) free free _ _ (iunlock-Moves free ip refl)
            (λ _. Moves-bind free free free _ _ (iput-Moves free cwd refl) (λ _. finish (some ip))))
          (Moves-bind (only ip) free free _ _ (iunlockput-Moves free ip refl) (λ _. finish none))))

-- The start of a transaction that the log lets in.
begin-Ends :
    {B : Type 0} (s : Fs) (j : Journal) (m : M B)
    → begin_op s.journal ≡ some j
    → HasLocks free s
    → Moves free m free
    → Ends free ((begin_tx >> m) s)
unfolding begin_tx ◌>>=◌
begin-Ends s j m e h k =
    subst (λ o. Ends free (and_then (begun s o) (λ _. m))) (sym e)
      (k.at (record s { journal = j }) h)

found-Moves :
    (path : Option (List ℕ)) (junk : ℕ → ℕ) (cwd : ℕ) → Moves free (namei_arg path junk cwd) free
found-Moves none junk cwd = (Keeps-give none).at free
found-Moves (some path) junk cwd = namei-Moves path junk cwd

open_inode-Moves :
    (omode : ℕ) (path : List ℕ) (junk : ℕ → ℕ) (cwd : ℕ)
    → is_set omode o_create ≡ false
    → MovesAs free (open_inode omode path junk cwd) locks_of
unfolding open_inode
open_inode-Moves omode path junk cwd e =
    subst (λ m. MovesAs free m locks_of) (sym (if_false _ _ _ e))
      (MovesAs-after free free locks_of _ _ (namei-Moves path junk cwd)
        (λ found. open_found-Moves omode found))

sys_open-Ends :
    (fd : Option ℕ) (path : Option (List ℕ)) (omode : ℕ) (junk : ℕ → ℕ) (cwd : ℕ) (s : Fs)
    (j : Journal)
    → is_set omode o_create ≡ false
    → begin_op s.journal ≡ some j
    → HasLocks free s
    → Ends free (sys_open fd path (some omode) junk cwd s)
unfolding sys_open
sys_open-Ends fd none omode junk cwd s j c e h = ((Keeps-give none).at free).at s h
sys_open-Ends fd (some path) omode junk cwd s j c e h = begin-Ends s j _ e h (
    Moves-as free locks_of free _ _ (open_inode-Moves omode path junk cwd c)
      (λ ip. open_as-Moves omode fd ip))

-- From a state in which no inode is locked and the log lets a transaction in, `sys_chdir`, and `sys_open`
-- without `O_CREATE`, never wait for a lock, and when they return, on every branch, no inode is locked.
pub sys_calls-End :
    (fd : Option ℕ) (path : Option (List ℕ)) (omode : ℕ) (junk : ℕ → ℕ) (cwd : ℕ) (s : Fs)
    (j : Journal)
    → is_set omode o_create ≡ false
    → begin_op s.journal ≡ some j
    → HasLocks free s
    → Ends free (sys_chdir path junk cwd s) × Ends free (sys_open fd path (some omode) junk cwd s)
unfolding sys_chdir
sys_calls-End fd path omode junk cwd s j c e h = (
  begin-Ends s j _ e h
      (Moves-bind free free free _ _ (found-Moves path junk cwd) (λ found. enter-Moves cwd found)),
  sys_open-Ends fd path omode junk cwd s j c e h,
)
