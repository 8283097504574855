-- ===== src/Cga/Crt/Sound.antt =====
-- Every byte keeps the cursor of the CGA screen on the screen, and a new line at the last row
-- scrolls.
use eggos.Base.{
  ℕ, ◌+◌, ◌-◌, ◌*◌, ◌/◌, ◌%◌, ◌^◌, ◌<◌, ◌≤◌, ◌≡◌, refl, ◌||◌, true, false, inl, inr, List, ◌++◌,
  ltb, leb, ◌==◌, if◌then◌else◌, Bool-cases, lt→ltb, le→leb, dec_lt, length, set, take, drop,
  replicate, length-set, length-append, length-take, length-drop, length-replicate, ok, arith,
}
use eggos.Base.Bits.{bit_or-add}
use eggos.Cga.Backend.{cell_count, IsSound}
use eggos.Cga.Crt.{
  Crt, cell, get_pos, set_pos, store, write_pos, scrolled, scroll, put, settle, write_byte,
  crt_backend,
}

-- The video memory has its 2000 cells and the cursor is on one of them.
pub record IsOnScreen (c : Crt) : Type 0 where
  pub size : length c.cells ≡ cell_count
  pub byte : c.low < 256
  pub inside : c.high * 256 + c.low < cell_count

pub get_pos-IsOnScreen : (c : Crt) → IsOnScreen c → get_pos c ≡ c.high * 256 + c.low
unfolding get_pos
get_pos-IsOnScreen c v = bit_or-add 8 c.high c.low (omega arith)

pub set_pos-IsOnScreen :
    (c : Crt) (n : ℕ)
    → length c.cells ≡ cell_count
    → n < cell_count
    → IsOnScreen (set_pos c n) × (get_pos (set_pos c n) ≡ n)
unfolding set_pos get_pos
set_pos-IsOnScreen c n h k = (
  record { size = h; byte = omega arith; inside = omega arith },
  omega (arith, bit_or-add 8 (n / 2 ^ 8 % 256) (n % 256) (omega arith)),
)

pub length-scrolled :
    (cells : List ℕ) (pos : ℕ)
    → length cells ≡ cell_count
    → pos ≤ cell_count
    → length (scrolled cells pos) ≡ cell_count
length-scrolled cells pos h k = omega (
  arith,
  length-append (take pos (drop 80 cells ++ drop (cell_count - 80) cells))
      (replicate {A = ℕ} (cell_count - pos) 0),
  length-take pos (drop 80 cells ++ drop (cell_count - 80) cells),
  length-append (drop 80 cells) (drop (cell_count - 80) cells),
  length-drop 80 cells,
  length-drop (cell_count - 80) cells,
  length-replicate {A = ℕ} (cell_count - pos) 0,
)

-- What `settle` leaves at position `pos` over the cells `cells`.
abbrev pub placed : List ℕ → ℕ → Crt
placed cells pos = record {
  cells = set cells pos (cell 0x20);
  high = pos / 2 ^ 8 % 256;
  low = pos % 256;
}

pub placed-IsOnScreen :
    (cells : List ℕ) (pos : ℕ)
    → length cells ≡ cell_count
    → pos < cell_count
    → IsOnScreen (placed cells pos) × (get_pos (placed cells pos) ≡ pos)
placed-IsOnScreen cells pos h k =
    let v : IsOnScreen (placed cells pos) = record {
      size = omega (arith, length-set cells pos (cell 0x20));
      byte = omega arith;
      inside = omega arith;
    } in
    (v, omega (arith, get_pos-IsOnScreen (placed cells pos) v))

pub settle-placed :
    (c : Crt) (pos : ℕ) → pos < cell_count → settle (c, pos) ≡ ok (placed c.cells pos)
unfolding settle scroll store set_pos
settle-placed c pos k =
    let near : leb 25 (pos / 80) ≡ false = ground arith in rw (near, lt→ltb pos cell_count k)

pub settle-scrolled :
    (c : Crt) (pos : ℕ)
    → cell_count ≤ pos
    → pos < cell_count + 80
    → settle (c, pos) ≡ ok (placed (scrolled c.cells (pos - 80)) (pos - 80))
unfolding settle scroll store set_pos
settle-scrolled c pos h k =
    let past : leb 25 (pos / 80) ≡ true = ground arith in
    rw
      (past, le→leb (pos - 80) cell_count (omega arith), lt→ltb (pos - 80) cell_count (omega arith))

settle-IsOnScreen :
    (c : Crt) (pos : ℕ)
    → length c.cells ≡ cell_count
    → pos < cell_count + 80
    → (t : Crt) × (settle (c, pos) ≡ ok t) × IsOnScreen t
settle-IsOnScreen c pos h k = elim (dec_lt pos cell_count) [
  | yes near ↦
      (placed c.cells pos, settle-placed c pos near, (placed-IsOnScreen c.cells pos h near).0)
  | no far ↦
      let cells = scrolled c.cells (pos - 80) in
      (
        placed cells (pos - 80),
        settle-scrolled c pos (omega arith) k,
        (placed-IsOnScreen cells (pos - 80) (length-scrolled c.cells (pos - 80) h (omega arith))
            (omega arith)).0,
      )
]

-- The switch stays within a row of the screen and keeps the number of cells.
put-near :
    (c : Crt) (pos ch : ℕ)
    → length c.cells ≡ cell_count
    → pos < cell_count
    → (t : Crt) × (p : ℕ) × (put c pos ch ≡ ok (t, p))
      × (length t.cells ≡ cell_count)
      × (p < cell_count + 80)
unfolding put store
put-near c pos ch h k = elim (Bool-cases (ch == 0x0a)) [
  | inl line ↦ (c, pos + (80 - pos % 80), rw line, h, omega arith)
  | inr other ↦ elim (Bool-cases (ch == 0x08 || ch == 0x7f)) [
    | inl back ↦ (c, (if ltb 0 pos then pos - 1 else pos), rw (other, back), h, ground arith)
    | inr plain ↦ (
      record c { cells = set c.cells pos (cell ch) },
      pos + 1,
      rw (other, plain, lt→ltb pos cell_count k),
      omega (arith, length-set c.cells pos (cell ch)),
      omega arith,
    )
  ]
]

-- Every byte is written without a panic to a display whose cursor is on the screen, and leaves
-- the cursor on the screen.
pub write_byte-IsOnScreen :
    (c : Crt) (ch : ℕ) → IsOnScreen c → (t : Crt) × (write_byte c ch ≡ ok t) × IsOnScreen t
unfolding write_byte
write_byte-IsOnScreen c ch v =
    let at : get_pos c < cell_count = omega (arith, v.inside, get_pos-IsOnScreen c v) in
    let (c', p, e, size, near) = put-near c (get_pos c) ch v.size at in
    let (t, e', v') = settle-IsOnScreen c' p size near in (t, rw e e', v')

pub write_pos-IsOnScreen :
    (c : Crt) (i ch : ℕ)
    → IsOnScreen c
    → i < cell_count
    → (t : Crt) × (write_pos c i ch ≡ ok t) × IsOnScreen t × (get_pos t ≡ get_pos c)
unfolding write_pos store get_pos
write_pos-IsOnScreen c i ch v h = (
  record c { cells = set c.cells i (cell ch) },
  rw (lt→ltb i cell_count h),
  record {
    size = omega (arith, v.size, length-set c.cells i (cell ch));
    byte = v.byte;
    inside = v.inside;
  },
  refl,
)

pub crt_pos_in : (c : Crt) → IsOnScreen c → get_pos c < cell_count
crt_pos_in c v = omega (arith, v.inside, get_pos-IsOnScreen c v)

-- What the driver relies on holds for the CGA text mode.
unfoldable pub crt_sound : IsSound crt_backend
crt_sound = record {
  IsGood = IsOnScreen;
  pos_in = crt_pos_in;
  set_pos_ok = λ c n v h. let r = set_pos-IsOnScreen c n v.size h in (set_pos c n, refl, r.0, r.1);
  write_pos_ok = write_pos-IsOnScreen;
  write_byte_ok = write_byte-IsOnScreen;
}
