-- ===== src/Cga/Crt/Effect.antt =====
-- What a byte does to the cells of the CGA screen.
use eggos.Base.{
  ℕ, ◌+◌, ◌-◌, ◌%◌, ◌<◌, ◌≤◌, ◌≡◌, ◌≢◌, sym, ◌∙◌, ◌||◌, false, List, ◌++◌, ◌==◌, lt→ltb, length,
  get_or, set, take, drop, replicate, length-set, length-append, length-take, length-drop,
  get_or-set_self, get_or-set_ne, get_or-append_left, get_or-take, get_or-drop, ok, arith,
}
use eggos.Cga.Backend.{cell_count}
use eggos.Cga.Crt.{Crt, cell, get_pos, store, scrolled, put, write_byte}
use eggos.Cga.Crt.Sound.{
  IsOnScreen, placed, placed-IsOnScreen, settle-placed, settle-scrolled, get_pos-IsOnScreen,
  length-scrolled,
}

-- A byte that is no control byte of the display is stored with the attribute 7 at the cursor, the
-- cursor goes one cell on, to a blank, and every other cell stays, if the cursor is not on the last
-- cell of the screen.
pub write_byte-char :
    (c : Crt) (ch : ℕ)
    → IsOnScreen c
    → get_pos c + 1 < cell_count
    → (ch == 0x0a) ≡ false
    → (ch == 0x08 || ch == 0x7f) ≡ false
    → (t : Crt) × (write_byte c ch ≡ ok t)
      × (get_pos t ≡ get_pos c + 1)
      × (get_or t.cells (get_pos c) 0 ≡ cell ch)
      × (get_or t.cells (get_pos c + 1) 0 ≡ cell 0x20)
      × ((i : ℕ) → i ≢ get_pos c → i ≢ get_pos c + 1 → get_or t.cells i 0 ≡ get_or c.cells i 0)
unfolding write_byte put store
write_byte-char c ch v room line back =
    let pos = get_pos c in
    let cells = set c.cells pos (cell ch) in
    let size : length cells ≡ cell_count =
      omega (arith, v.size, length-set c.cells pos (cell ch)) in
    (
      placed cells (pos + 1),
      rw (line, back, lt→ltb (get_pos c) cell_count (omega arith))
          (settle-placed (record c { cells = cells }) (pos + 1) room),
      (placed-IsOnScreen cells (pos + 1) size room).1,
      get_or-set_ne cells (pos + 1) pos (cell 0x20) 0 (omega arith)
          ∙ get_or-set_self c.cells pos (cell ch) 0 (omega (arith, v.size)),
      get_or-set_self cells (pos + 1) (cell 0x20) 0 (omega arith),
      λ i h k.
          get_or-set_ne cells (pos + 1) i (cell 0x20) 0 (λ e. k (sym e))
          ∙ get_or-set_ne c.cells pos i (cell ch) 0 (λ e. h (sym e)),
    )

-- The rows of a scrolled screen are those below them.
scrolled-row :
    (cells : List ℕ) (pos i : ℕ)
    → length cells ≡ cell_count
    → pos ≤ cell_count
    → i < pos
    → i < cell_count - 80
    → get_or (scrolled cells pos) i 0 ≡ get_or cells (80 + i) 0
scrolled-row cells pos i size h k l =
    let moved = drop 80 cells ++ drop (cell_count - 80) cells in
    let full : length moved ≡ cell_count = omega (
      arith,
      length-append (drop 80 cells) (drop (cell_count - 80) cells),
      length-drop 80 cells,
      length-drop (cell_count - 80) cells,
    ) in
    get_or-append_left (take pos moved) (replicate (cell_count - pos) 0) i 0
      (omega (arith, length-take pos moved))
    ∙ (get_or-take pos moved i 0 k
        ∙ (get_or-append_left (drop 80 cells) (drop (cell_count - 80) cells) i 0
              (omega (arith, length-drop 80 cells))
            ∙ get_or-drop 80 cells i 0))

-- A new line on the last row scrolls: the cursor is at the start of the last row, and each of the
-- rows above it holds what the row below it held.
pub write_byte_newline :
    (c : Crt)
    → IsOnScreen c
    → cell_count - 80 ≤ get_pos c
    → (t : Crt) × (write_byte c 0x0a ≡ ok t)
      × (get_pos t ≡ cell_count - 80)
      × ((i : ℕ) → i < cell_count - 80 → get_or t.cells i 0 ≡ get_or c.cells (80 + i) 0)
unfolding write_byte put
write_byte_newline c v low =
    let at : get_pos c < cell_count = omega (arith, v.inside, get_pos-IsOnScreen c v) in
    let next : get_pos c + (80 - get_pos c % 80) ≡ cell_count = omega arith in
    let pos : ℕ = cell_count - 80 in
    let cells = scrolled c.cells pos in
    (
      placed cells pos,
      rw next (settle-scrolled c cell_count (omega arith) (omega arith)),
      (placed-IsOnScreen cells pos (length-scrolled c.cells pos v.size (omega arith))
          (omega arith)).1,
      λ i h.
          get_or-set_ne cells pos i (cell 0x20) 0 (omega arith)
          ∙ scrolled-row c.cells pos i v.size (omega arith) h h,
    )
