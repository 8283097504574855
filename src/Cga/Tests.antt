-- ===== src/Cga/Tests.antt =====
-- The console theorems at a blank CGA screen and at a blank frame buffer.
use eggos.Base.{
  ltb, true, ℕ, ◌≡◌, refl, List, [], ◌∷◌, replicate, length-replicate, ok, panic, arith,
}
use eggos.Cga.Ansi.Parse.{fresh, sequence}
use eggos.Cga.Crt
use eggos.Cga.Crt.{Crt, crt_backend, get_pos, cell}
use eggos.Cga.Crt.Sound.{IsOnScreen, write_byte-IsOnScreen}
use eggos.Cga.Driver.{write_string}
use eggos.Cga.Driver.Laws.{driver}
use eggos.Cga.Driver.Commands.{csi_unsupported}
use eggos.Cga.Framebuffer
use eggos.Cga.Framebuffer.{Framebuffer, framebuffer_backend}
use eggos.Cga.Framebuffer.Sound

-- An empty screen with the cursor at column 3 of the first row.
abbrev blank : Crt
blank = record { cells = replicate 2000 0; high = 0; low = 3 }

blank-IsOnScreen : IsOnScreen blank
blank-IsOnScreen = record {
  size = length-replicate {A = ℕ} 2000 0;
  byte = omega arith;
  inside = omega arith;
}

-- The same with the cursor in the last row: 7 * 256 + 160 is 1952.
abbrev bottom : Crt
bottom = record { cells = replicate 2000 0; high = 7; low = 160 }

bottom-IsOnScreen : IsOnScreen bottom
bottom-IsOnScreen = record {
  size = length-replicate {A = ℕ} 2000 0;
  byte = omega arith;
  inside = omega arith;
}

abbrev empty_buffer : Framebuffer
empty_buffer = record {
  pos = 5;
  cursor = 5;
  buffer = replicate 2000 0;
  draws = λ pos c. ltb pos 2000;
  redraws = true;
}

write_byte-IsOnScreen_example : (t : Crt) × (Crt.write_byte bottom 0x0a ≡ ok t) × IsOnScreen t
write_byte-IsOnScreen_example = write_byte-IsOnScreen bottom 0x0a bottom-IsOnScreen

write_byte-IsShown_example :
    (t : Framebuffer) × (Framebuffer.write_byte empty_buffer 0x08 ≡ ok t) × Sound.IsShown t
write_byte-IsShown_example = Sound.write_byte-IsShown empty_buffer 0x08 (record {
  size = length-replicate {A = ℕ} 2000 0;
  inside = omega arith;
  shown = omega arith;
  view = record { glyph = λ pos c h. ground (arith, h); refresh = refl };
})

-- "hi", a tab and a control byte.
abbrev text : List ℕ
text = b'h' ∷ b'i' ∷ 9 ∷ 1 ∷ []

csi_unsupported_example :
    write_string crt_backend (driver crt_backend fresh blank) (sequence [] b'A') ≡ panic
csi_unsupported_example =
    csi_unsupported crt_backend [] b'A' blank refl refl (omega arith) (omega arith)
