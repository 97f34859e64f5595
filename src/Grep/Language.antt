-- ===== src/Grep/Language.antt =====
-- What the matcher of grep.c finds: a part of the text in the language of the expression.
use operating_systeams_proje.Prelude.{ℕ, ◌≡◌, ◌≢◌, ◌⊎◌, Bool, false, List, [], ◌∷◌, ◌++◌, ◌==◌, All}

-- A byte of the expression stands for a byte of the text.
abbrev pub Hits : ℕ → ℕ → Type 0
Hits r t = (r ≡ b'.') ⊎ (r ≡ t)

abbrev pub is_starred : List ℕ → Bool
is_starred [] = false
is_starred (s ∷ re) = s == b'*'

-- The texts of an expression before `rest`: a byte for each, any run of bytes for a starred one, and no
-- rest behind a `$` that ends it.
pub data In : List ℕ → List ℕ → List ℕ → Type 0 where
  nothing : {rest : List ℕ} → In [] [] rest
  ended : In (b'$' ∷ []) [] []
  single :
      {re text rest : List ℕ} (r t : ℕ)
      → is_starred re ≡ false
      → (r ≢ b'$') ⊎ (re ≢ [])
      → Hits r t
      → In re text rest
      → In (r ∷ re) (t ∷ text) rest
  starred :
      {re text rest : List ℕ} (r : ℕ) (run : List ℕ)
      → All (Hits r) run
      → In re text rest
      → In (r ∷ b'*' ∷ re) (run ++ text) rest

pub record Starts (re text : List ℕ) : Type 0 where
  pub part : List ℕ
  pub rest : List ℕ
  pub split : text ≡ part ++ rest
  pub fits : In re part rest

-- The expression fits some part of the text, the first if it begins with `^`.
pub data Finds : List ℕ → List ℕ → Type 0 where
  first : {re text : List ℕ} → Starts re text → Finds (b'^' ∷ re) text
  anywhere :
      {re after : List ℕ} (before : List ℕ)
      → ((re' : List ℕ) → re ≢ b'^' ∷ re')
      → Starts re after
      → Finds re (before ++ after)
