-- ===== src/Files/Refs.antt =====
-- The reference counts of file.c count the descriptors: a schedule is any sequence of the calls that
-- open, duplicate and close descriptors, of whatever process.
use operating_systeams_proje.Prelude.{
  ℕ, ◌+◌, ◌-◌, ◌≤◌, ◌≡◌, ◌⊎◌, inl, inr, refl, sym, ◌∙◌, ap, subst, Bool, true, false, List, ◌∷◌,
  ◌++◌, Option, none, some, ◌==◌, ltb, if◌then◌else◌, update, at_update, update_self, arith,
  Bool-cases,
}
use operating_systeams_proje.Prelude.Search.{IsFirst, find_index-IsFirst}
use operating_systeams_proje.Prelude.Count.{count, count-append}
use operating_systeams_proje.Files.{
  nfile, File, fd_none, alloc_file, filealloc, filedup, Closed, panics, kept, last, fileclose,
}

-- The table, and the file of each open descriptor.
pub record System : Type 0 where
  pub file : ℕ → File
  pub held : List ℕ

pub data Call : System → System → Type 0 where
  opens :
      {f g : ℕ → File} {held : List ℕ} (i : ℕ)
      → filealloc f ≡ (g, some i)
      → Call (record { file = f; held = held }) (record { file = g; held = i ∷ held })
  dups :
      {f g : ℕ → File} (before after : List ℕ) (i : ℕ)
      → filedup i f ≡ some g
      → Call
          (record { file = f; held = before ++ (i ∷ after) })
          (record { file = g; held = i ∷ (before ++ (i ∷ after)) })
  closes :
      {f g : ℕ → File} (before after : List ℕ) (i : ℕ)
      → (fileclose i f ≡ kept g) ⊎ ((ff : File) × (fileclose i f ≡ last g ff))
      → Call
          (record { file = f; held = before ++ (i ∷ after) })
          (record { file = g; held = before ++ after })

pub data Reach (s : System) : System → Type 0 where
  here : Reach s s
  next : {t u : System} → Reach s t → Call t u → Reach s u

-- Each reference count is the number of descriptors.
abbrev pub IsCounted : System → Type 0
IsCounted s = (i : ℕ) → (s.file i).ref ≡ count i s.held

update-ref :
    (f : ℕ → File) (i : ℕ) (v : File) (j : ℕ)
    → (update f i v j).ref ≡ (if i == j then v.ref else (f j).ref)
update-ref f i v j =
    at_update (λ k r. r.ref ≡ (if i == k then v.ref else (f k).ref)) f i v j (ground arith)
      (λ ne. ground arith)

else_some :
    (b : Bool) {u g : ℕ → File}
    → ◌≡◌ {A = Option (ℕ → File)} (if b then none else some u) (some g)
    → (b ≡ false) × (u ≡ g)
else_some true e = absurd (cc)
else_some false e = (refl, cc)

else_kept :
    (b c : Bool) (u w : ℕ → File) (ff : File) {g : ℕ → File}
    → (if b then panics else if c then kept u else last w ff) ≡ kept g
    → (b ≡ false) × (u ≡ g)
else_kept true c u w ff e = absurd (cc)
else_kept false true u w ff e = (refl, cc)
else_kept false false u w ff e = absurd (cc)

else_last :
    (b c : Bool) (u w : ℕ → File) (ff : File) {g : ℕ → File} {ff' : File}
    → (if b then panics else if c then kept u else last w ff) ≡ last g ff'
    → (b ≡ false) × (c ≡ false) × (w ≡ g)
else_last true c u w ff e = absurd (cc)
else_last false true u w ff e = absurd (cc)
else_last false false u w ff e = (refl, refl, cc)

alloc_file-ref :
    (f g : ℕ → File) (o : Option ℕ) (i j : ℕ)
    → IsFirst (λ k. (f k).ref == 0) 0 nfile o
    → ◌≡◌ {A = (ℕ → File) × Option ℕ} (alloc_file f o) (g, some i)
    → ((f i).ref ≡ 0) × ((g j).ref ≡ (if i == j then 1 else (f j).ref))
alloc_file-ref f g none i j first e = absurd (cc)
alloc_file-ref f g (some k) i j first e =
    let q : k ≡ i = cc in
    let p : update f k (record (f k) { ref = 1 }) ≡ g = cc in
    let free : (f k).ref ≡ 0 = ground (arith, first.2) in
    (
      subst (λ x. (f x).ref ≡ 0) q free,
      sym (ap (λ (h : ℕ → File). (h j).ref) p)
          ∙ update-ref f k (record (f k) { ref = 1 }) j
          ∙ ap (λ x. if x == j then 1 else (f j).ref) q,
    )

filedup-ref :
    (f g : ℕ → File) (i j : ℕ)
    → filedup i f ≡ some g
    → (1 ≤ (f i).ref) × ((g j).ref ≡ (if i == j then (f i).ref + 1 else (f j).ref))
unfolding filedup
filedup-ref f g i j e =
    let (b, p) = else_some (ltb (f i).ref 1) e in
    (ground arith, sym (ap (λ (h : ℕ → File). (h j).ref) p) ∙ update-ref f i _ j)

fileclose-ref :
    (f g : ℕ → File) (i j : ℕ)
    → (fileclose i f ≡ kept g) ⊎ ((ff : File) × (fileclose i f ≡ last g ff))
    → (1 ≤ (f i).ref) × ((g j).ref ≡ (if i == j then (f i).ref - 1 else (f j).ref))
unfolding fileclose
fileclose-ref f g i j (inl e) =
    let (b, p) = else_kept (ltb (f i).ref 1) (ltb 0 ((f i).ref - 1)) _ _ _ e in
    (ground arith, sym (ap (λ (h : ℕ → File). (h j).ref) p) ∙ update-ref f i _ j)
fileclose-ref f g i j (inr (ff, e)) =
    let (b, c, p) = else_last (ltb (f i).ref 1) (ltb 0 ((f i).ref - 1)) _ _ _ e in
    let gone : (f i).ref - 1 ≡ 0 = ground arith in
    (
      ground arith,
      sym (ap (λ (h : ℕ → File). (h j).ref) p)
          ∙ update-ref f i _ j
          ∙ ap (λ x. if i == j then x else (f j).ref) (sym gone),
    )

Call-IsCounted : {s t : System} → Call s t → IsCounted s → IsCounted t
unfolding filealloc count
Call-IsCounted (opens {f = f} {g = g} {held = held} i e) v j =
    let (free, r) = alloc_file-ref f g _ i j (find_index-IsFirst (λ k. (f k).ref == 0) 0 nfile) e in
    ground (arith, r, free, v i, v j, ap (λ k. count k held) {x = i} {y = j})
Call-IsCounted (dups {f = f} {g = g} before after i e) v j =
    let (some_held, r) = filedup-ref f g i j e in ground (arith, r, v i, v j)
Call-IsCounted (closes {f = f} {g = g} before after i e) v j =
    let (some_held, r) = fileclose-ref f g i j e in
    ground (arith, r, v i, v j, count-append j before (i ∷ after), count-append j before after)

-- After any schedule of calls that open, duplicate and close descriptors, from a state in which it
-- holds, each reference count is the number of descriptors that hold the file.
pub Reach-IsCounted : {s t : System} → IsCounted s → Reach s t → IsCounted t
Reach-IsCounted v here = v
Reach-IsCounted v (next r c) = Call-IsCounted c (Reach-IsCounted v r)

-- What `fileclose` makes of one of the descriptors.
abbrev pub Closes : ℕ → List ℕ → (ℕ → File) → Closed → Type 0
Closes i rest f panics = ⊥
Closes i rest f (kept g) = (1 ≤ count i rest) × ((g i).ref ≡ count i rest)
Closes i rest f (last g ff) = (count i rest ≡ 0) × ((g i).ref ≡ 0) × (ff ≡ f i)

-- While the counts are right, `filealloc` hands out only a file that no descriptor holds.
pub filealloc_fresh :
    (f g : ℕ → File) (held : List ℕ) (i : ℕ)
    → IsCounted (record { file = f; held = held })
    → filealloc f ≡ (g, some i)
    → count i held ≡ 0
unfolding filealloc
filealloc_fresh f g held i v e =
    sym (v i) ∙ (alloc_file-ref f g _ i i (find_index-IsFirst (λ k. (f k).ref == 0) 0 nfile) e).0

-- While the counts are right, `fileclose` of a descriptor does not panic: with other descriptors of the
-- file it only lowers the count, and it closes the file for good exactly when there is no other.
pub fileclose-Closes :
    (f : ℕ → File) (before after : List ℕ) (i : ℕ)
    → IsCounted (record { file = f; held = before ++ (i ∷ after) })
    → Closes i (before ++ after) f (fileclose i f)
unfolding fileclose count
fileclose-Closes f before after i v =
    let n : (f i).ref ≡ count i (before ++ after) + 1 =
      ground (arith, v i, count-append i before (i ∷ after), count-append i before after) in
    let one : ltb (f i).ref 1 ≡ false = ground arith in
    elim (Bool-cases (ltb 0 ((f i).ref - 1))) [
      | inl b ↦
          rw (one, b)
            (
              ground arith,
              ap (λ (r : File). r.ref) (update_self f i (record (f i) { ref = (f i).ref - 1 }))
                  ∙ omega (arith, n),
            )
      | inr b ↦
          rw (one, b)
            (
              ground arith,
              ap (λ (r : File). r.ref) (update_self f i (record (f i) { ref = 0; type = fd_none })),
              refl,
            )
    ]
