-- ===== src/Cga/Crt.antt =====
-- cga/backend.go: cgabackend, the 80x25 text mode of the CGA. The CRT controller keeps the cursor
-- in two byte registers (index 14 and 15 behind port 0x3d4), which read back what was written.
pub mod Sound
pub mod Effect
use eggos.Base.{
  ℕ, ◌+◌, ◌-◌, ◌*◌, ◌/◌, ◌%◌, ◌^◌, List, ◌++◌, ◌||◌, bit_or, ltb, leb, ◌==◌, if◌then◌else◌, length,
  set, take, drop, replicate, Result, ok, panic, ◌>>=◌,
}
use eggos.Cga.Backend.{Backend, cell_count}

pub record Crt : Type 0 where
  -- the video memory, a character and its attribute in each cell
  pub cells : List ℕ
  -- registers 14 and 15
  pub high : ℕ
  pub low : ℕ

-- The attribute of a cell that holds a character.
abbrev pub cell : ℕ → ℕ
cell ch = bit_or (ch % 256) 0x0700

unfoldable pub get_pos : Crt → ℕ
get_pos c = bit_or (c.high * 2 ^ 8) c.low

unfoldable pub set_pos : Crt → ℕ → Crt
set_pos c pos = record c { high = pos / 2 ^ 8 % 256; low = pos % 256 }

-- crt[pos] = v
unfoldable pub store : Crt → ℕ → ℕ → Result Crt
store c pos v = if ltb pos cell_count then ok (record c { cells = set c.cells pos v }) else panic

unfoldable pub write_pos : Crt → ℕ → ℕ → Result Crt
write_pos c pos ch = store c pos (cell ch)

-- copy(crt[:], crt[80:]), and zeroes from `pos` on.
abbrev pub scrolled : List ℕ → ℕ → List ℕ
scrolled cells pos =
    take pos (drop 80 cells ++ drop (cell_count - 80) cells) ++ replicate (cell_count - pos) 0

-- "Scroll up": the slice crt[pos:] panics if it starts behind the end.
unfoldable pub scroll : Crt → ℕ → Result (Crt × ℕ)
scroll c pos =
    if leb 25 (pos / 80)
    then (if leb (pos - 80) cell_count
        then ok (record c { cells = scrolled c.cells (pos - 80) }, pos - 80)
        else panic)
    else ok (c, pos)

-- The switch of WriteByte.
unfoldable pub put : Crt → ℕ → ℕ → Result (Crt × ℕ)
put c pos ch =
    if ch == 0x0a
    then ok (c, pos + (80 - pos % 80))
    else if ch == 0x08 || ch == 0x7f
    then ok (c, if ltb 0 pos then pos - 1 else pos)
    else store c pos (cell ch) >>= λ c'. ok (c', pos + 1)

-- What follows the switch: scroll, place the cursor, blank the cell under it.
unfoldable pub settle : Crt × ℕ → Result Crt
settle (c, pos) = scroll c pos >>= λ (c', pos'). store (set_pos c' pos') pos' (cell 0x20)

unfoldable pub write_byte : Crt → ℕ → Result Crt
write_byte c ch = put c (get_pos c) ch >>= settle

abbrev pub crt_backend : Backend
crt_backend = record {
  Display = Crt;
  get_pos = get_pos;
  set_pos = λ c pos. ok (set_pos c pos);
  write_pos = write_pos;
  write_byte = write_byte;
}
