-- ===== src/Sh.antt =====
-- sh.c: the parser of the shell. `a` is the memory that holds the line, a pointer into it is its
-- address, and `es` is the address of its final NUL. A command that `malloc` returned is the tree that
-- it is the root of. Calls and loops are on fuel: `stuck` is a run that used it up.
pub mod Tokens
pub mod Safe
pub mod Returns
pub mod Parse
pub mod Ends
mod Tests
use operating_systeams_proje.Prelude.{
  ℕ, zero, suc, ◌+◌, ◌-◌, ◌*◌, Bool, true, false, not, ◌&&◌, List, [], ◌∷◌, ◌++◌, ◌==◌, leb,
  if◌then◌else◌, length, update, bit_or,
}
use operating_systeams_proje.Sysfile.Open.{o_rdonly, o_wronly, o_create}

-- `struct cmd` and the structures that it stands for. An argument is its entries of `argv` and `eargv`.
pub data Cmd : Type 0 where
  execcmd : List (ℕ × ℕ) → Cmd
  redircmd : Cmd → ℕ → ℕ → ℕ → ℕ → Cmd
  pipecmd : Cmd → Cmd → Cmd
  listcmd : Cmd → Cmd → Cmd
  backcmd : Cmd → Cmd

abbrev pub maxargs : ℕ
maxargs = 10

-- `strchr(s, c) != 0`, for the characters of `s` before its NUL.
unfoldable pub strchr : List ℕ → ℕ → Bool
strchr [] c = false
strchr (x ∷ xs) c = let rest = strchr xs c in if x == c then true else rest

-- " \t\r\n\v" and "<|>&;()".
abbrev pub whitespace : List ℕ
whitespace = b' ' ∷ 9 ∷ 13 ∷ 10 ∷ 11 ∷ []

abbrev pub symbols : List ℕ
symbols = b'<' ∷ b'|' ∷ b'>' ∷ b'&' ∷ b';' ∷ b'(' ∷ b')' ∷ []

-- `while(s < es && test(*s)) s++;` with `k` characters before `es`.
unfoldable pub skip : (ℕ → Bool) → (ℕ → ℕ) → ℕ → ℕ → ℕ
skip test a zero s = s
skip test a (suc k) s = let rest = skip test a k (suc s) in if test (a s) then rest else s

abbrev pub is_white : ℕ → Bool
is_white c = strchr whitespace c

abbrev pub is_word : ℕ → Bool
is_word c = not (strchr whitespace c) && not (strchr symbols c)

-- What `gettoken` returns, and what it leaves in `*q`, `*eq` and `*ps`.
pub record Token : Type 0 where
  pub ret : ℕ
  pub q : ℕ
  pub eq : ℕ
  pub next : ℕ

-- The switch, at the first character that is not white: the token and its end.
unfoldable pub read_token : (ℕ → ℕ) → ℕ → ℕ → ℕ × ℕ
unfolding skip
read_token a es s =
    if a s == 0
    then (0, s)
    else if strchr (b'|' ∷ b'(' ∷ b')' ∷ b';' ∷ b'&' ∷ b'<' ∷ []) (a s)
    then (a s, s + 1)
    else if a s == b'>'
    then (if a (s + 1) == b'>' then (b'+', s + 2) else (b'>', s + 1))
    else (b'a', skip is_word a (es - s) s)

unfoldable pub gettoken : (ℕ → ℕ) → ℕ → ℕ → Token
unfolding skip read_token
gettoken a es ps =
    let s = skip is_white a (es - ps) ps in
    let r = read_token a es s in
    record { ret = r.0; q = s; eq = r.1; next = skip is_white a (es - r.1) r.1 }

-- What `peek` leaves in `*ps`, and what it returns.
unfoldable pub peek : (ℕ → ℕ) → ℕ → ℕ → List ℕ → ℕ × Bool
unfolding skip
peek a es ps toks = let s = skip is_white a (es - ps) ps in (s, not (a s == 0) && strchr toks (a s))

-- A command with what is left in `*ps`, a panic, or no fuel.
pub data Out : Type 0 where
  done : Cmd → ℕ → Out
  panics : Out
  stuck : Out

infixl 5 ◌>>=◌
unfoldable pub ◌>>=◌ : Out → (Cmd → ℕ → Out) → Out
done c s >>= f = f c s
panics >>= f = panics
stuck >>= f = stuck

-- The switch of `parseredirs`.
unfoldable pub redirect : ℕ → Cmd → ℕ → ℕ → Cmd
redirect tok cmd q eq =
    if tok == b'<'
    then redircmd cmd q eq o_rdonly 0
    else if tok == b'>'
    then redircmd cmd q eq (bit_or o_wronly o_create) 1
    else if tok == b'+'
    then redircmd cmd q eq (bit_or o_wronly o_create) 1
    else cmd

-- The stores through `cmd` of `parseexec`, which stands below the redirections of `ret`.
unfoldable pub add_arg : ℕ × ℕ → Cmd → Cmd
add_arg x (execcmd xs) = execcmd (xs ++ (x ∷ []))
add_arg x (redircmd c file efile mode fd) = redircmd (add_arg x c) file efile mode fd
add_arg x (pipecmd l r) = pipecmd l r
add_arg x (listcmd l r) = listcmd l r
add_arg x (backcmd c) = backcmd c

-- `parse_args` is the loop of `parseexec` and `parse_backs` the one of `parseline`.
unfoldable mutual
  unfolding gettoken peek redirect add_arg ◌>>=◌

  pub parseline : (ℕ → ℕ) → ℕ → ℕ → ℕ → Out
  parseline a es zero ps = stuck
  parseline a es (suc n) ps = parsepipe a es n ps >>= (λ c s. parse_backs a es n c s) >>= (λ c s.
      let p = peek a es s (b';' ∷ []) in
      elim (p.1) [
        | true ↦ parseline a es n (gettoken a es p.0).next >>= (λ r t. done (listcmd c r) t)
        | false ↦ done c p.0
      ])

  pub parse_backs : (ℕ → ℕ) → ℕ → ℕ → Cmd → ℕ → Out
  parse_backs a es zero c s = stuck
  parse_backs a es (suc n) c s =
      let p = peek a es s (b'&' ∷ []) in
      elim (p.1) [
        | true ↦ parse_backs a es n (backcmd c) (gettoken a es p.0).next
        | false ↦ done c p.0
      ]

  pub parsepipe : (ℕ → ℕ) → ℕ → ℕ → ℕ → Out
  parsepipe a es zero ps = stuck
  parsepipe a es (suc n) ps = parseexec a es n ps >>= (λ c s.
      let p = peek a es s (b'|' ∷ []) in
      elim (p.1) [
        | true ↦ parsepipe a es n (gettoken a es p.0).next >>= (λ r t. done (pipecmd c r) t)
        | false ↦ done c p.0
      ])

  pub parseredirs : (ℕ → ℕ) → ℕ → ℕ → Cmd → ℕ → Out
  parseredirs a es zero c s = stuck
  parseredirs a es (suc n) c s =
      let p = peek a es s (b'<' ∷ b'>' ∷ []) in
      let op = gettoken a es p.0 in
      let file = gettoken a es op.next in
      elim (p.1) [
        | true ↦ elim (file.ret == b'a') [
          | true ↦ parseredirs a es n (redirect op.ret c file.q file.eq) file.next
          | false ↦ panics
        ]
        | false ↦ done c p.0
      ]

  pub parseblock : (ℕ → ℕ) → ℕ → ℕ → ℕ → Out
  parseblock a es zero ps = stuck
  parseblock a es (suc n) ps =
      let p = peek a es ps (b'(' ∷ []) in
      elim (p.1) [
        | true ↦ parseline a es n (gettoken a es p.0).next >>= (λ c s.
            let p' = peek a es s (b')' ∷ []) in
            elim (p'.1) [ true ↦ parseredirs a es n c (gettoken a es p'.0).next | false ↦ panics ])
        | false ↦ panics
      ]

  pub parseexec : (ℕ → ℕ) → ℕ → ℕ → ℕ → Out
  parseexec a es zero ps = stuck
  parseexec a es (suc n) ps =
      let p = peek a es ps (b'(' ∷ []) in
      elim (p.1) [
        | true ↦ parseblock a es n p.0
        | false ↦ parseredirs a es n (execcmd []) p.0 >>= (λ c s. parse_args a es n 0 c s)
      ]

  pub parse_args : (ℕ → ℕ) → ℕ → ℕ → ℕ → Cmd → ℕ → Out
  parse_args a es zero argc ret s = stuck
  parse_args a es (suc n) argc ret s =
      let p = peek a es s (b'|' ∷ b')' ∷ b'&' ∷ b';' ∷ []) in
      let t = gettoken a es p.0 in
      elim (p.1) [
        | true ↦ done ret p.0
        | false ↦ elim (t.ret == 0) [
          | true ↦ done ret t.next
          | false ↦ elim (t.ret == b'a' && not (leb maxargs (argc + 1))) [
            | true ↦
                parseredirs a es n (add_arg (t.q, t.eq) ret) t.next
                >>= (λ c s'. parse_args a es n (argc + 1) c s')
            | false ↦ panics
          ]
        ]
      ]

-- `parsecmd` up to its call of `nulterminate`, with the fuel that the line's length asks for.
unfoldable pub parsecmd : (ℕ → ℕ) → ℕ → ℕ → Out
parsecmd a es s =
    parseline a es (4 + 4 * (es - s)) s
    >>= (λ c t. let p = peek a es t [] in elim (p.0 == es) [ true ↦ done c p.0 | false ↦ panics ])

-- The stores of `nulterminate` for one command.
unfoldable pub end_args : List (ℕ × ℕ) → (ℕ → ℕ) → ℕ → ℕ
end_args [] a = a
end_args (x ∷ xs) a = end_args xs (update a x.1 0)

unfoldable pub nulterminate : Cmd → (ℕ → ℕ) → ℕ → ℕ
unfolding end_args
nulterminate (execcmd xs) a = end_args xs a
nulterminate (redircmd c file efile mode fd) a = update (nulterminate c a) efile 0
nulterminate (pipecmd l r) a = nulterminate r (nulterminate l a)
nulterminate (listcmd l r) a = nulterminate r (nulterminate l a)
nulterminate (backcmd c) a = nulterminate c a
