-- ===== src/Cga/Framebuffer.antt =====
-- cga/fbcga/fbcga.go: the console on the VBE frame buffer. The state is that of fbbackend. The
-- drawing of glyphs (a package for fonts) and CommitRect change none of it, but panic where they
-- leave the view: whether they do is a parameter. Positions are Go ints, as their patterns.
pub mod Sound
use eggos.Base.{
  ℕ, ◌+◌, ◌-◌, ◌*◌, ◌/◌, ◌%◌, ◌^◌, Bool, not, List, ◌++◌, ◌&&◌, ◌||◌, ltb, leb, ◌==◌, if◌then◌else◌,
  set, get_or, take, drop, replicate, Result, ok, panic, ◌>>=◌,
}
use eggos.Base.Words.{word, add32, sub32, is_negative, int_div, int_rem}
use eggos.Cga.Backend.{Backend, cell_count}

-- Beside the fields of fbbackend: does drawing a character at a position return, and does refresh?
pub record Framebuffer : Type 0 where
  pub pos : ℕ
  pub cursor : ℕ
  pub buffer : List ℕ
  pub draws : ℕ → ℕ → Bool
  pub redraws : Bool

-- drawChar, which passes over the byte 0: does it return?
abbrev pub draw_char : Framebuffer → ℕ → ℕ → Bool
draw_char f pos c = c == 0 || f.draws pos c

unfoldable pub set_char : Framebuffer → ℕ → ℕ → Result Framebuffer
set_char f pos c =
    if draw_char f pos c && ltb pos cell_count
    then ok (record f { buffer = set f.buffer pos c })
    else panic

-- updateCursor draws the cell under the old cursor, and the cursor.
unfoldable pub set_pos : Framebuffer → ℕ → Result Framebuffer
set_pos f n =
    if ltb f.cursor cell_count
      && (draw_char f f.cursor (get_or f.buffer f.cursor 0) && draw_char f n b'_')
    then ok (record f { pos = n; cursor = n })
    else panic

-- copy(f.buffer[:], f.buffer[80:]), and zeroes from `pos` on.
abbrev pub scrolled : List ℕ → ℕ → List ℕ
scrolled buffer pos =
    take pos (drop 80 buffer ++ drop (cell_count - 80) buffer) ++ replicate (cell_count - pos) 0

unfoldable pub scrollup : Framebuffer → ℕ → Result (Framebuffer × ℕ)
scrollup f pos =
    let pos' = sub32 pos 80 in
    if leb pos' cell_count && f.redraws
    then ok (record f { buffer = scrolled f.buffer pos' }, pos')
    else panic

-- if pos > 0 of a Go int.
abbrev pub is_positive : ℕ → Bool
is_positive pos = not (is_negative pos) && ltb 0 pos

-- The case of a backspace where pos > 0: blank the cell, step back, blank that cell.
unfoldable pub erase_back : Framebuffer → ℕ → Result (Framebuffer × ℕ)
erase_back f pos = do
  g ← set_char f pos 0x20
  h ← set_char g (sub32 pos 1) 0x20
  ok (h, sub32 pos 1)

-- The default case.
unfoldable pub put_char : Framebuffer → ℕ → ℕ → Result (Framebuffer × ℕ)
put_char f pos c = do g ← set_char f pos c; ok (g, add32 pos 1)

-- The switch of WriteByte.
unfoldable pub put : Framebuffer → ℕ → ℕ → Result (Framebuffer × ℕ)
put f pos c =
    if c == 0x0a || c == 0x0d
    then ok (f, add32 pos (sub32 80 (int_rem pos 80)))
    else if c == 0x08 || c == 0x7f
    then (if is_positive pos then erase_back f pos else ok (f, pos))
    else put_char f pos c

unfoldable pub settle : Framebuffer × ℕ → Result Framebuffer
settle (f, pos) = set_char f pos 0x20 >>= λ g. set_pos g pos

-- "Scroll up": pos/twidth >= theight of a Go int.
unfoldable pub scroll : Framebuffer × ℕ → Result (Framebuffer × ℕ)
scroll (f, pos) = if not (is_negative pos) && leb 25 (pos / 80) then scrollup f pos else ok (f, pos)

unfoldable pub write_byte : Framebuffer → ℕ → Result Framebuffer
write_byte f c = put f f.pos c >>= λ r. scroll r >>= settle

abbrev pub framebuffer_backend : Backend
framebuffer_backend = record {
  Display = Framebuffer;
  get_pos = λ f. f.pos;
  set_pos = set_pos;
  write_pos = set_char;
  write_byte = write_byte;
}
