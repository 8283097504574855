-- ===== src/Cga/Framebuffer/Sound.antt =====
-- Every byte keeps the cursor of the frame buffer console on the screen.
use eggos.Base.{
  ℕ, ◌+◌, ◌-◌, ◌/◌, ◌%◌, ◌<◌, ◌≡◌, refl, ap, not, ◌&&◌, ◌||◌, true, false, inl, inr, leb, ◌==◌,
  Bool-cases, lt→ltb, le→leb, dec_lt, length, set, get_or, Bool, length-set, Result, ok, arith,
}
use eggos.Base.Words.{add32, sub32, is_negative, int_rem}
use eggos.Cga.Backend.{cell_count, IsSound}
use eggos.Cga.Crt.Sound.{length-scrolled}
use eggos.Cga.Framebuffer.{
  Framebuffer, draw_char, set_char, set_pos, scrolled, scrollup, is_positive, erase_back, put_char,
  put, settle, scroll, write_byte, framebuffer_backend,
}

-- No glyph of a cell leaves the view, and refresh does not.
pub record HasView (draws : ℕ → ℕ → Bool) (redraws : Bool) : Type 0 where
  pub glyph : (pos c : ℕ) → pos < cell_count → draws pos c ≡ true
  pub refresh : redraws ≡ true

-- The cursor is on the screen, and the view has room for the glyphs of all cells.
pub record IsShown (f : Framebuffer) : Type 0 where
  pub size : length f.buffer ≡ cell_count
  pub inside : f.pos < cell_count
  pub shown : f.cursor < cell_count
  pub view : HasView f.draws f.redraws

-- The text keeps its size and the cursor that is drawn.
record Keeps (f : Framebuffer) (p : ℕ) (r : Result (Framebuffer × ℕ)) : Type 0 where
  left : Framebuffer
  pos : ℕ
  result : r ≡ ok (left, pos)
  size : length left.buffer ≡ cell_count
  cursor : left.cursor ≡ f.cursor
  view : HasView left.draws left.redraws
  near : pos < p

draw_char-ok :
    (f : Framebuffer) (pos c : ℕ)
    → HasView f.draws f.redraws
    → pos < cell_count
    → draw_char f pos c ≡ true
draw_char-ok f pos c v h = ground (arith, v.glyph pos c h)

set_char-ok :
    (f : Framebuffer) (pos c : ℕ)
    → HasView f.draws f.redraws
    → pos < cell_count
    → set_char f pos c ≡ ok (record f { buffer = set f.buffer pos c })
unfolding set_char
set_char-ok f pos c v h = rw (draw_char-ok f pos c v h, lt→ltb pos cell_count h)

line-Keeps :
    (f : Framebuffer)
    → IsShown f
    → Keeps f (cell_count + 80) (ok (f, add32 f.pos (sub32 80 (int_rem f.pos 80))))
line-Keeps f v = record {
  left = f;
  pos = f.pos + (80 - f.pos % 80);
  result = ap (λ p. ok (f, p)) next;
  size = v.size;
  cursor = refl;
  view = v.view;
  near = omega (arith, v.inside);
}
  where
    next : add32 f.pos (sub32 80 (int_rem f.pos 80)) ≡ f.pos + (80 - f.pos % 80)
    next = ground (arith, v.inside)

erase_back-Keeps :
    (f : Framebuffer)
    → IsShown f
    → is_positive f.pos ≡ true
    → Keeps f (cell_count + 80) (erase_back f f.pos)
unfolding erase_back
erase_back-Keeps f v h =
    let first = set f.buffer f.pos 0x20 in
    record {
      left = record f { buffer = set first (sub32 f.pos 1) 0x20 };
      pos = sub32 f.pos 1;
      result = rw (
        set_char-ok f f.pos 0x20 v.view v.inside,
        set_char-ok (record f { buffer = first }) (sub32 f.pos 1) 0x20 v.view
            (ground (arith, v.inside)),
      );
      size =
          omega
            (arith, v.size, length-set f.buffer f.pos 0x20, length-set first (sub32 f.pos 1) 0x20);
      cursor = refl;
      view = v.view;
      near = ground (arith, v.inside);
    }

put_char-Keeps :
    (f : Framebuffer) (c : ℕ) → IsShown f → Keeps f (cell_count + 80) (put_char f f.pos c)
unfolding put_char
put_char-Keeps f c v = record {
  left = record f { buffer = set f.buffer f.pos c };
  pos = add32 f.pos 1;
  result = rw (set_char-ok f f.pos c v.view v.inside);
  size = omega (arith, v.size, length-set f.buffer f.pos c);
  cursor = refl;
  view = v.view;
  near = omega (arith, v.inside);
}

put-Keeps : (f : Framebuffer) (c : ℕ) → IsShown f → Keeps f (cell_count + 80) (put f f.pos c)
unfolding put
put-Keeps f c v = elim (Bool-cases (c == 0x0a || c == 0x0d)) [
  | inl line ↦ rw line (line-Keeps f v)
  | inr other ↦ elim (Bool-cases (c == 0x08 || c == 0x7f)) [
    | inl back ↦ elim (Bool-cases (is_positive f.pos)) [
      | inl right ↦ rw (other, back, right) (erase_back-Keeps f v right)
      | inr start ↦
          rw (other, back, start)
            (record {
              left = f;
              pos = f.pos;
              result = refl;
              size = v.size;
              cursor = refl;
              view = v.view;
              near = omega (arith, v.inside);
            })
    ]
    | inr plain ↦ rw (other, plain) (put_char-Keeps f c v)
  ]
]

scroll-Keeps :
    (f : Framebuffer) (pos : ℕ)
    → length f.buffer ≡ cell_count
    → HasView f.draws f.redraws
    → pos < cell_count + 80
    → Keeps f cell_count (scroll (f, pos))
unfolding scroll scrollup
scroll-Keeps f pos size view h = elim (dec_lt pos cell_count) [
  | yes near ↦
      let still : (not (is_negative pos) && leb 25 (pos / 80)) ≡ false = ground arith in
      rw still (record {
        left = f;
        pos = pos;
        result = refl;
        size = size;
        cursor = refl;
        view = view;
        near = near;
      })
  | no far ↦
      let past : (not (is_negative pos) && leb 25 (pos / 80)) ≡ true = ground arith in
      let room : (leb (sub32 pos 80) cell_count && f.redraws) ≡ true =
        ground (arith, le→leb (sub32 pos 80) cell_count (omega arith), view.refresh) in
      rw (past, room)
        (record {
          left = record f { buffer = scrolled f.buffer (sub32 pos 80) };
          pos = sub32 pos 80;
          result = refl;
          size = length-scrolled f.buffer (sub32 pos 80) size (omega arith);
          cursor = refl;
          view = view;
          near = omega arith;
        })
]

pub set_pos-IsShown :
    (f : Framebuffer) (n : ℕ)
    → length f.buffer ≡ cell_count
    → f.cursor < cell_count
    → HasView f.draws f.redraws
    → n < cell_count
    → (t : Framebuffer) × (set_pos f n ≡ ok t) × IsShown t × (t.pos ≡ n)
unfolding set_pos
set_pos-IsShown f n size h view k = (
  record f { pos = n; cursor = n },
  rw (
    lt→ltb f.cursor cell_count h,
    draw_char-ok f f.cursor (get_or f.buffer f.cursor 0) view h,
    draw_char-ok f n b'_' view k,
  ),
  record { size = size; inside = k; shown = k; view = view },
  refl,
)

settle-IsShown :
    (f : Framebuffer) (pos : ℕ)
    → length f.buffer ≡ cell_count
    → f.cursor < cell_count
    → HasView f.draws f.redraws
    → pos < cell_count
    → (t : Framebuffer) × (settle (f, pos) ≡ ok t) × IsShown t
unfolding settle
settle-IsShown f pos size h view k =
    let (t, e, v, _) =
      set_pos-IsShown (record f { buffer = set f.buffer pos 0x20 }) pos
        (omega (arith, length-set f.buffer pos 0x20)) h view k in
    (t, rw (set_char-ok f pos 0x20 view k) e, v)

-- When the view has room for the glyphs of all cells, every byte is written without a panic to a
-- frame buffer console whose cursor is on the screen, and leaves the cursor on the screen.
pub write_byte-IsShown :
    (f : Framebuffer) (c : ℕ) → IsShown f → (t : Framebuffer) × (write_byte f c ≡ ok t) × IsShown t
unfolding write_byte
write_byte-IsShown f c v =
    let a = put-Keeps f c v in
    let s = scroll-Keeps a.left a.pos a.size a.view a.near in
    let (t, e, w) =
      settle-IsShown s.left s.pos s.size (omega (arith, v.shown, a.cursor, s.cursor)) s.view
        s.near in
    (t, rw (a.result, s.result) e, w)

pub write_pos-IsShown :
    (f : Framebuffer) (i ch : ℕ)
    → IsShown f
    → i < cell_count
    → (t : Framebuffer) × (set_char f i ch ≡ ok t) × IsShown t × (t.pos ≡ f.pos)
write_pos-IsShown f i ch v h = (
  record f { buffer = set f.buffer i ch },
  set_char-ok f i ch v.view h,
  record {
    size = omega (arith, v.size, length-set f.buffer i ch);
    inside = v.inside;
    shown = v.shown;
    view = v.view;
  },
  refl,
)

-- What the driver relies on holds for the frame buffer console.
unfoldable pub framebuffer_sound : IsSound framebuffer_backend
framebuffer_sound = record {
  IsGood = IsShown;
  pos_in = λ f v. v.inside;
  set_pos_ok = λ f n v h. set_pos-IsShown f n v.size v.shown v.view h;
  write_pos_ok = write_pos-IsShown;
  write_byte_ok = write_byte-IsShown;
}
