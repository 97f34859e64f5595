-- ===== src/Console/Tests.antt =====
-- `hx`, an erased character, `i` and Return, typed where the indices wrap.
use operating_systeams_proje.Prelude.{ℕ, ◌-◌, ◌^◌, ◌≡◌, refl, false, List, [], ◌∷◌, update, arith}
use operating_systeams_proje.Console.{
  Input, consoleintr, type_char, put_char, kill_line, got, consoleread, stored,
}
use operating_systeams_proje.Console.Ring.{IsRing, Keeps, consoleintr-Keeps}
use operating_systeams_proje.Console.Reads.{IsRead, consoleread-IsRead}

abbrev at_wrap : Input
at_wrap = record { buf = λ i. 0; r = 2 ^ 32 - 2; w = 2 ^ 32 - 2; e = 2 ^ 32 - 2 }

at_wrap-IsRing : IsRing at_wrap 0 0
at_wrap-IsRing = record {
  reads = omega arith;
  writes = refl;
  edits = refl;
  order = omega arith;
  room = omega arith;
}

abbrev keys : List ℕ
keys = b'h' ∷ b'x' ∷ 8 ∷ b'i' ∷ b'\r' ∷ []

abbrev full_line : Input
full_line = record {
  buf = update (update (update (update (λ i. 0) 126 b'h') 127 b'x') 127 b'i') 0 b'\n';
  r = 2 ^ 32 - 2;
  w = 1;
  e = 1;
}

typed : consoleintr keys at_wrap ≡ full_line
unfolding consoleintr type_char put_char kill_line
typed = refl

consoleintr-Keeps_example : Keeps at_wrap 0 (consoleintr keys at_wrap)
consoleintr-Keeps_example = consoleintr-Keeps keys at_wrap 0 0 at_wrap-IsRing

full_line-IsRing : IsRing full_line 3 3
full_line-IsRing = record {
  reads = omega arith;
  writes = refl;
  edits = refl;
  order = omega arith;
  room = omega arith;
}

consoleread-IsRead_example :
    IsRead false (b'h' ∷ b'i' ∷ b'\n' ∷ []) 10 10 (consoleread false 10 10 full_line)
consoleread-IsRead_example =
    consoleread-IsRead false 10 10 full_line 3 3 full_line-IsRing (omega arith)

line_read :
    consoleread false 10 10 full_line ≡ got (record full_line { r = 1 }) (b'h' ∷ b'i' ∷ b'\n' ∷ [])
unfolding consoleread stored
line_read = refl
