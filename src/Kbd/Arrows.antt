-- ===== src/Kbd/Arrows.antt =====
-- The arrow keys: two scan codes, an escape sequence, and what it does to a console.
use eggos.Base.{
  ℕ, ◌+◌, ◌≤◌, ◌<◌, ◌≡◌, refl, Bool, true, false, List, [], ◌∷◌, ◌&&◌, ◌==◌, Result, ok, panic,
  ◌>>=◌, arith,
}
use eggos.Base.Words.{word}
use eggos.Base.Below.{all_below, of_all_below}
use eggos.Cga.Ansi.Parse.{fresh, sequence}
use eggos.Cga.Backend.{Backend}
use eggos.Cga.Driver.Laws.{driver}
use eggos.Console.{con_buflen, Line, Console, rawmode, feed_input}
use eggos.Console.Ring.{IsValid}
use eggos.Console.Lines.{escape_input_panics}
use eggos.Kbd.{
  Kbd, Handled, read_codes, read_code, press, release, release_key, char_of, charcode, typed,
  set_pressed, swap_case, csi_escape,
}
use eggos.Kbd.Keys.{keyboard}
use eggos.Kbd.Tables.{shiftcode, togglecode, normalmap, shiftmap, ctlmap}

-- Up, down, left and right: the second scan code, and the final byte of the sequence.
pub data Arrow : Type 0 where
  up down left right : Arrow

abbrev pub code_of : Arrow → ℕ
code_of up = 0x48
code_of down = 0x50
code_of left = 0x4b
code_of right = 0x4d

abbrev pub final_of : Arrow → ℕ
final_of up = b'A'
final_of down = b'B'
final_of left = b'D'
final_of right = b'C'

-- The bytes of the two interrupts of an arrow key: each code of the pair raises one.
unfoldable pub press_arrow : Kbd → Arrow → Result Handled
press_arrow k a = read_codes k (0xe0 ∷ []) >>= λ h. read_codes h.kbd (code_of a ∷ [])

abbrev same_bytes : List ℕ → List ℕ → Bool
same_bytes [] [] = true
same_bytes [] (y ∷ ys) = false
same_bytes (x ∷ xs) [] = false
same_bytes (x ∷ xs) (y ∷ ys) = (x == y) && same_bytes xs ys

same_bytes-eq : (xs ys : List ℕ) → same_bytes xs ys ≡ true → xs ≡ ys
same_bytes-eq [] [] h = refl
same_bytes-eq [] (y ∷ ys) h = cc
same_bytes-eq (x ∷ xs) [] h = cc
same_bytes-eq (x ∷ xs) (y ∷ ys) h = ground (arith, same_bytes-eq xs ys)

abbrev gives : List ℕ → Result Handled → Bool
gives bytes (ok h) = same_bytes h.bytes bytes
gives bytes panic = false

of_gives :
    (bytes : List ℕ) (r : Result Handled)
    → gives bytes r ≡ true
    → (h : Handled) × (r ≡ ok h) × (h.bytes ≡ bytes)
of_gives bytes (ok h) e = (h, refl, same_bytes-eq h.bytes bytes e)
of_gives bytes panic e = absurd (ground arith)

arrow_check :
    (p : ℕ → Bool) (a : Arrow)
    → all_below 64 (λ s. gives (sequence [] (final_of a)) (press_arrow (keyboard s p) a)) ≡ true
unfolding all_below press_arrow read_codes read_code press release release_key char_of charcode
    typed set_pressed swap_case csi_escape shiftcode togglecode normalmap shiftmap ctlmap
arrow_check p up = refl
arrow_check p down = refl
arrow_check p left = refl
arrow_check p right = refl

-- An arrow key hands on its escape sequence ESC [ A, B, D or C, whichever modifiers and locks are
-- set and whatever keys are held.
pub arrow_bytes :
    (p : ℕ → Bool) (s : ℕ) (a : Arrow)
    → s < 64
    → (h : Handled) × (press_arrow (keyboard s p) a ≡ ok h) × (h.bytes ≡ sequence [] (final_of a))
arrow_bytes p s a h =
    of_gives (sequence [] (final_of a)) (press_arrow (keyboard s p) a)
      (of_all_below 64 _ s (arrow_check p a) h)

-- A key press, and its bytes at the console behind kbd.OnInput(con.read_codes).
pub type_arrow : (b : Backend) → Kbd → Arrow → Console b → Result (Console b)
type_arrow b k a s = press_arrow k a >>= λ h. feed_input b s h.bytes

-- Pressing an arrow key panics the kernel while the console is in canonical mode, has three bytes
-- of room and is not inside an escape sequence, whatever the screen shows and the keyboard's flags
-- are.
pub arrow_key_panics :
    (b : Backend) (p : ℕ → Bool) (s : ℕ) (a : Arrow) (c : Line) (sent : List ℕ) (d : b.Display)
    → s < 64
    → IsValid c
    → rawmode c ≡ false
    → c.e + 3 ≤ c.r + con_buflen
    → c.e + 3 < word
    → type_arrow b (keyboard s p) a (c, record { serial = sent; screen = driver b fresh d }) ≡ panic
unfolding type_arrow
arrow_key_panics b p s a c sent d h v mode room small =
    let (r, e, bytes) = arrow_bytes p s a h in rw (e, bytes) (by_arrow a)
  where
    by_arrow :
        (a : Arrow)
        → feed_input b
            (c, record { serial = sent; screen = driver b fresh d })
            (sequence [] (final_of a))
          ≡ panic
    by_arrow up =
        escape_input_panics b b'A' c sent d v mode room small refl refl (omega arith) (omega arith)
    by_arrow down =
        escape_input_panics b b'B' c sent d v mode room small refl refl (omega arith) (omega arith)
    by_arrow left =
        escape_input_panics b b'D' c sent d v mode room small refl refl (omega arith) (omega arith)
    by_arrow right =
        escape_input_panics b b'C' c sent d v mode room small refl refl (omega arith) (omega arith)
