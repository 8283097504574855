-- ===== src/Console.antt =====
-- console/con.go: the line discipline between the keyboard, the serial port and the screen. The
-- ring indices r, w and e are Go uints; a byte written goes out on the serial line and to cga.
pub mod Spec
pub mod Ring
pub mod Refine
pub mod Reader
pub mod Typing
pub mod Lines
pub mod Tests
use eggos.Base.{
  ℕ, zero, suc, ◌+◌, ◌-◌, ◌%◌, ◌^◌, Bool, true, false, Option, none, some, List, [], ◌∷◌, ◌++◌,
  ◌||◌, not, bit_and, ltb, leb, ◌==◌, if◌then◌else◌, get_or, set, replicate, Result, ok, panic,
  ◌>>=◌,
}
use eggos.Base.Words.{word, add32, sub32}
use eggos.Cga.Backend.{Backend}
use eggos.Cga.Driver.{Driver}
use eggos.Cga.Driver as Cga

abbrev pub con_buflen : ℕ
con_buflen = 128

-- syscall.ICANON and the requests of Ioctl, as Linux on 386 numbers them.
abbrev pub icanon : ℕ
icanon = 2

abbrev pub tcgets : ℕ
tcgets = 0x5401

abbrev pub tcsets : ℕ
tcsets = 0x5402

abbrev pub tiocgwinsz : ℕ
tiocgwinsz = 0x5413

-- syscall.Termios; only Lflag is read.
pub record Termios : Type 0 where
  pub lflag : ℕ
  pub others : List ℕ

-- The ring and the settings of `console`.
pub record Line : Type 0 where
  pub buf : List ℕ
  pub r : ℕ
  pub w : ℕ
  pub e : ℕ
  pub tios : Termios

-- newConsole: Lflag is ICANON | ECHO.
abbrev pub new_line : Line
new_line = record {
  buf = replicate con_buflen 0;
  r = 0;
  w = 0;
  e = 0;
  tios = record { lflag = 10; others = [] };
}

unfoldable pub rawmode : Line → Bool
rawmode c = bit_and c.tios.lflag icanon == 0

-- c.e-c.r >= CON_BUFLEN
abbrev pub is_full : Line → Bool
is_full c = leb con_buflen (sub32 c.e c.r)

-- idx := c.e % CON_BUFLEN; c.e++; c.buf[idx] = ch
abbrev pub append_byte : Line → ℕ → Line
append_byte c ch = record c { buf = set c.buf (c.e % con_buflen) ch; e = add32 c.e 1 }

-- c.w = c.e; the waiting reader is woken.
abbrev pub commit : Line → Line
commit c = record c { w = c.e }

unfoldable pub handle_raw : Line → ℕ → Line
handle_raw c ch = if is_full c then c else commit (append_byte c ch)

-- A carriage return counts as a new line.
abbrev pub cooked : ℕ → ℕ
cooked ch = if ch == 0x0d then 0x0a else ch

-- The two backspace codes: DEL and ctrl('H').
abbrev pub is_erase : ℕ → Bool
is_erase ch = ch == 0x7f || ch == 0x08

-- ch == '\n' || c.e == c.r+CON_BUFLEN, after the byte is stored.
abbrev pub commit_line : Line → ℕ → Line
commit_line c ch = if ch == 0x0a || c.e == add32 c.r con_buflen then commit c else c

-- The screen and the serial line behind putc.
pub record Output (b : Backend) : Type 0 where
  pub serial : List ℕ
  pub screen : Driver b

-- The loop of `read` over the room left in p: either it returns what it copied, or it waits with
-- room left because nothing is committed (r == w).
pub data Reading : Type 0 where
  returned : List ℕ → Line → Reading
  waiting : List ℕ → ℕ → Line → Reading

unfoldable pub read_loop : ℕ → List ℕ → Line → Reading
read_loop zero got c = returned got c
read_loop (suc room) got c =
    let ch : ℕ = get_or c.buf (c.r % con_buflen) 0 in
    let c' : Line = record c { r = add32 c.r 1 } in
    let rest : Reading = read_loop room (got ++ (ch ∷ [])) c' in
    let step : Reading =
      if ch == 0x0a || rawmode c' then returned (got ++ (ch ∷ [])) c' else rest in
    if c.r == c.w then waiting got (suc room) c else step

unfoldable pub read : ℕ → Line → Reading
unfolding read_loop
read size c = read_loop size [] c

-- What Ioctl leaves behind its argument, and its errors.
pub data IoctlReply : Type 0 where
  window_size : ℕ → ℕ → IoctlReply
  settings : Termios → IoctlReply
  done einval : IoctlReply

unfoldable pub ioctl : Line → ℕ → Termios → IoctlReply × Line
ioctl c op arg =
    if op == tiocgwinsz
    then (window_size 25 80, c)
    else if op == tcgets
    then (settings c.tios, c)
    else if op == tcsets
    then (done, record c { tios = arg })
    else (einval, c)

module _ (b : Backend) where
  unfoldable pub putc : Output b → ℕ → Result (Output b)
  putc o ch = do
    s ← Cga.write_byte b o.screen ch
    ok (record { serial = o.serial ++ (ch ∷ []); screen = s })

  abbrev pub Console : Type 0
  Console = Line × Output b

  unfoldable pub erase_last : Line → Output b → Result Console
  erase_last c o = do o' ← putc o 0x7f; ok (record c { e = sub32 c.e 1 }, o')

  -- The echo stands between the store and the commit, and may panic.
  unfoldable pub store_byte : Line → Output b → ℕ → Result Console
  store_byte c o ch = do o' ← putc o ch; ok (commit_line (append_byte c ch) ch, o')

  -- handleInput behind its test for the raw mode.
  unfoldable pub handle_canonical : Console → ℕ → Result Console
  handle_canonical (c, o) ch =
      if is_erase ch
      then (if ltb c.w c.e then erase_last c o else ok (c, o))
      else if is_full c
      then ok (c, o)
      else store_byte c o (cooked ch)

  unfoldable pub handle_input : Console → ℕ → Result Console
  handle_input (c, o) ch = if rawmode c then ok (handle_raw c ch, o) else handle_canonical (c, o) ch

  unfoldable pub write : Output b → List ℕ → Result (Output b)
  write o [] = ok o
  write o (ch ∷ p) = putc o ch >>= λ o'. write o' p

  -- con.intr for each byte of an input.
  unfoldable pub feed_input : Console → List ℕ → Result Console
  feed_input s [] = ok s
  feed_input s (ch ∷ bs) = handle_input s ch >>= λ s'. feed_input s' bs
