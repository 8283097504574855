-- ===== src/Console/Tests.antt =====
-- The console theorems at a fresh console with a blank CGA screen.
use eggos.Base.{ℕ, ◌≡◌, refl, List, [], ◌∷◌, replicate, length-replicate, ok, panic, arith}
use eggos.Cga.Ansi.Parse.{fresh, sequence}
use eggos.Cga.Crt.{Crt, crt_backend}
use eggos.Cga.Crt.Sound.{IsOnScreen, crt_sound}
use eggos.Cga.Driver.Laws.{driver}
use eggos.Console.{Line, Output, new_line, rawmode, handle_input, feed_input, returned}
use eggos.Console
use eggos.Console.Ring.{IsValid}
use eggos.Console.Refine.{Refines, handle_input-Refines}
use eggos.Console.Reader.{Reads, read_refines}
use eggos.Console.Lines.{IsIdle, typed_line, escape_input_panics}

abbrev blank : Crt
blank = record { cells = replicate 2000 0; high = 0; low = 0 }

blank-IsOnScreen : IsOnScreen blank
blank-IsOnScreen = record {
  size = length-replicate {A = ℕ} 2000 0;
  byte = omega arith;
  inside = omega arith;
}

abbrev out : List ℕ → Crt → Output crt_backend
out sent d = record { serial = sent; screen = driver crt_backend fresh d }

new_line-IsValid : IsValid new_line
new_line-IsValid = record {
  length_buf = length-replicate {A = ℕ} 128 0;
  read_le = omega arith;
  write_le = omega arith;
  room = omega arith;
  no_wrap = omega arith;
}

handle_input-Refines_example :
    Refines crt_backend new_line
      (out [] blank)
      b'h'
      (rawmode new_line)
      (handle_input crt_backend (new_line, out [] blank) b'h')
handle_input-Refines_example =
    handle_input-Refines crt_backend new_line (out [] blank) b'h' new_line-IsValid (omega arith)

read_refines_example : Reads (rawmode new_line) 4 [] new_line (Console.read 4 new_line)
read_refines_example = read_refines 4 new_line new_line-IsValid

new_line-IsIdle : IsIdle new_line
unfolding rawmode
new_line-IsIdle = record { valid = new_line-IsValid; canonical = refl; drained = refl }

typed_line_example :
    (c' : Line) × (t : Crt) × (c'' : Line) × (feed_input crt_backend
        (new_line, out [] blank)
        (b'h' ∷ b'i' ∷ 0x0a ∷ [])
      ≡ ok (c', out (b'h' ∷ b'i' ∷ 0x0a ∷ []) t))
    × (Console.read 10 c' ≡ returned (b'h' ∷ b'i' ∷ 0x0a ∷ []) c'')
unfolding crt_sound
typed_line_example =
    typed_line crt_backend crt_sound (b'h' ∷ b'i' ∷ []) 10 new_line [] blank new_line-IsIdle
      blank-IsOnScreen refl refl (omega arith) (omega arith) (omega arith)

escape_input_panics_example :
    feed_input crt_backend (new_line, out [] blank) (sequence [] b'A') ≡ panic
unfolding rawmode
escape_input_panics_example =
    escape_input_panics crt_backend b'A' new_line [] blank new_line-IsValid refl (omega arith)
      (omega arith) refl refl (omega arith) (omega arith)
