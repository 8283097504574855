-- ===== src/Kbd/Tests.antt =====
-- The keyboard theorems at concrete keys.
use eggos.Base.{
  List, Result, some, ℕ, ◌≡◌, refl, Bool, false, [], ◌∷◌, replicate, length-replicate, ok, panic,
  arith,
}
use eggos.Cga.Ansi.Parse.{fresh, sequence}
use eggos.Cga.Crt.{Crt, crt_backend}
use eggos.Cga.Driver.Laws.{driver}
use eggos.Console.{new_line, rawmode}
use eggos.Console.Ring.{IsValid}
use eggos.Kbd.{Handled, read_codes, intr}
use eggos.Kbd.Safe.{interrupted, intr-read_codes}
use eggos.Kbd.Keys.{keyboard}
use eggos.Kbd.Arrows.{up, press_arrow, type_arrow, arrow_bytes, arrow_key_panics}

abbrev none_held : ℕ → Bool
none_held c = false

-- 0x1e is the key of the letter a, 0x2a the left shift key.
-- The callback stores its bytes and panics at a third one.
abbrev two_bytes : List ℕ → ℕ → Result (List ℕ)
two_bytes (b ∷ c ∷ bs) ch = panic
two_bytes bs ch = ok (ch ∷ bs)

intr-read_codes_example :
    (h : Handled) × (read_codes (keyboard 0 none_held) (0x1e ∷ 0x1e ∷ 0x9e ∷ []) ≡ ok h)
    × (intr (some two_bytes) (keyboard 0 none_held) [] (0x1e ∷ 0x1e ∷ 0x9e ∷ [])
        ≡ interrupted two_bytes [] h)
intr-read_codes_example =
    intr-read_codes two_bytes (keyboard 0 none_held) [] (0x1e ∷ 0x1e ∷ 0x9e ∷ []) (omega arith)

arrow_bytes_example :
    (h : Handled) × (press_arrow (keyboard 8 none_held) up ≡ ok h) × (h.bytes ≡ sequence [] b'A')
arrow_bytes_example = arrow_bytes none_held 8 up (omega arith)

abbrev blank : Crt
blank = record { cells = replicate 2000 0; high = 0; low = 0 }

new_line-IsValid : IsValid new_line
new_line-IsValid = record {
  length_buf = length-replicate {A = ℕ} 128 0;
  read_le = omega arith;
  write_le = omega arith;
  room = omega arith;
  no_wrap = omega arith;
}

arrow_key_panics_example :
    type_arrow crt_backend
      (keyboard 0 none_held)
      up
      (new_line, record { serial = []; screen = driver crt_backend fresh blank })
    ≡ panic
unfolding rawmode
arrow_key_panics_example =
    arrow_key_panics crt_backend none_held 0 up new_line [] blank (omega arith) new_line-IsValid
      refl (omega arith) (omega arith)
