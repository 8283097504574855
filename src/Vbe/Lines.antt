-- ===== src/Vbe/Lines.antt =====
-- bufcopy on a rectangle inside the image changes the pixels of the rectangle and no others.
use native.Mathlib.Nat.{mul-le-mul_right}
use eggos.Base.{
  ℕ, zero, suc, ◌+◌, ◌-◌, ◌*◌, ◌%◌, ◌^◌, ◌<◌, ◌≤◌, ◌≡◌, refl, sym, ◌∙◌, Bool, false, ltb, ◌==◌,
  ◌&&◌, if◌then◌else◌, Result, ok, panic, ◌>>=◌, arith, Bool-cases, inl, inr, subst, ltb→lt, le→leb,
}
use eggos.Base.Words.{word, add32, sub32}
use eggos.Vbe.{Slice, LineOp, Rect, canon, less, mul32, reslice, copy_lines, copy_canon, bufcopy}
use eggos.Vbe.Pixels.{in_range, pixel_slice, Taken, Draws, DrawsLines}

-- The line above ends where the line begins, or before.
pub line_le : (w a b : ℕ) → a < b → a * w + w ≤ b * w
line_le w a b h = let e : suc a * w ≤ b * w = mul-le-mul_right w h in omega (arith, e)

-- A slice of a whole image of w by h pixels.
abbrev pub HoldsImage : ℕ → ℕ → Slice → Type 0
HoldsImage w h s = (s.start ≡ 0) × (4 * (h * w) ≤ s.cap)

reslice-inside :
    (s : Slice) (lo hi a b c : ℕ)
    → lo ≤ hi
    → hi ≤ s.cap
    → s.start + lo ≡ a
    → hi - lo ≡ b
    → s.cap - lo ≡ c
    → reslice s lo hi ≡ ok (record { start = a; len = b; cap = c })
unfolding reslice
reslice-inside s lo hi a b c h k ea eb ec = rw (le→leb lo hi h, le→leb hi s.cap k, ea, eb, ec) refl

-- Line j, as a slice of the image.
line_of : ℕ → ℕ → Slice → Slice
line_of w j s = record { start = 4 * (j * w); len = 4 * w; cap = s.cap - 4 * (j * w) }

reslice-line :
    (w h j : ℕ) (s : Slice)
    → HoldsImage w h s
    → 4 * (h * w) < word
    → j < h
    → h < word
    → reslice s (mul32 j (w * 4)) (mul32 (add32 j 1) (w * 4)) ≡ ok (line_of w j s)
unfolding line_of
reslice-line w h j s (start, cap) bound inside hw =
    let below = line_le w j h inside in
    let lo : mul32 j (w * 4) ≡ 4 * (j * w) = omega (arith, bound, below) in
    let next : add32 j 1 ≡ j + 1 = omega (arith, inside, hw) in
    let hi : mul32 (j + 1) (w * 4) ≡ 4 * (j * w) + 4 * w = omega (arith, bound, below) in
    rw (lo, next, hi)
      (reslice-inside s (4 * (j * w)) (4 * (j * w) + 4 * w) (4 * (j * w)) (4 * w)
        (s.cap - 4 * (j * w)) (omega arith) (omega (arith, below, cap)) (omega (arith, start))
        (omega arith) refl)

reslice-columns :
    (w h j x0 x1 : ℕ) (s : Slice)
    → HoldsImage w h s
    → j < h
    → x0 ≤ x1
    → x1 ≤ w
    → reslice (line_of w j s) (4 * x0) (4 * x1)
      ≡ ok (pixel_slice (j * w + x0) (x1 - x0) (s.cap - 4 * (j * w) - 4 * x0))
unfolding line_of
reslice-columns w h j x0 x1 s (start, cap) inside low high =
    let below = line_le w j h inside in
    reslice-inside (line_of w j s) (4 * x0) (4 * x1) (4 * (j * w + x0)) (4 * (x1 - x0))
      (s.cap - 4 * (j * w) - 4 * x0) (omega (arith, low)) (omega (arith, below, cap, high))
      (omega arith) (omega (arith, low)) refl

-- One round of copy_lines on a line inside the image.
copy_lines-line :
    (op : LineOp) (dst src : Slice) (w h x0 x1 n : ℕ) (d : ℕ → ℕ) (j : ℕ)
    → HoldsImage w h dst
    → HoldsImage w h src
    → 4 * (h * w) < word
    → j < h
    → h < word
    → x0 ≤ x1
    → x1 ≤ w
    → copy_lines op dst src (w * 4) (4 * x0) (4 * x1) (suc n) d j ≡ (
        op d
          (pixel_slice (j * w + x0) (x1 - x0) (dst.cap - 4 * (j * w) - 4 * x0))
          (pixel_slice (j * w + x0) (x1 - x0) (src.cap - 4 * (j * w) - 4 * x0))
        >>= λ d'. copy_lines op dst src (w * 4) (4 * x0) (4 * x1) n d' (add32 j 1))
unfolding copy_lines
copy_lines-line op dst src w h x0 x1 n d j hd hs bound inside hw low high =
    rw
      (
        reslice-line w h j src hs bound inside hw,
        reslice-line w h j dst hd bound inside hw,
        reslice-columns w h j x0 x1 dst hd inside low high,
        reslice-columns w h j x0 x1 src hs inside low high,
      )
      refl

abbrev pub holds : Rect → ℕ → ℕ → Bool
holds rect y x = in_range rect.min_y rect.max_y y && in_range rect.min_x rect.max_x x

-- Byte k of the pixel in line y and column x is taken from s when the pixel is in the rectangle, and
-- otherwise as in d.
abbrev pub Painted : (ℕ → ℕ) → (ℕ → ℕ) → (ℕ → ℕ) → ℕ → Rect → ℕ → ℕ → ℕ → Result (ℕ → ℕ) → Type 0
Painted pick s d w rect y x k = Taken (holds rect y x) pick s d (y * w + x) k

abbrev pub lines : Rect → ℕ → ℕ → Rect
lines rect lo hi = record rect { min_y = lo; max_y = hi }

in_line :
    (w j x0 x1 y x : ℕ)
    → x < w
    → x0 ≤ x1
    → x1 ≤ w
    → in_range (j * w + x0) (j * w + x0 + (x1 - x0)) (y * w + x) ≡ (y == j) && in_range x0 x1 x
in_line w j x0 x1 y x h low high = elim (Bool-cases (ltb y j)) [
  | inl above ↦ let e = line_le w y j (ltb→lt y j above) in ground (arith, h, low, high, e, above)
  | inr rest ↦ elim (Bool-cases (ltb j y)) [
    | inl below ↦ let e = line_le w j y (ltb→lt j y below) in ground (arith, h, low, high, e, below)
    | inr other ↦ let e : y ≡ j = ground (arith, rest, other) in rw e (ground (arith, h, low, high))
  ]
]

Painted-step :
    (pick s d d' : ℕ → ℕ) (w : ℕ) (rect : Rect) (j n y x k : ℕ) (r : Result (ℕ → ℕ))
    → d' (4 * (y * w + x) + k) ≡ (
        if (y == j) && in_range rect.min_x rect.max_x x
        then s (4 * (y * w + x) + pick k)
        else d (4 * (y * w + x) + k))
    → Painted pick s d' w (lines rect (j + 1) (j + 1 + n)) y x k r
    → Painted pick s d w (lines rect j (j + suc n)) y x k r
unfolding Taken
Painted-step pick s d d' w rect j n y x k panic h t = t
Painted-step pick s d d' w rect j n y x k (ok r) h t = ground (arith, h, t)

Painted-line :
    (pick s d : ℕ → ℕ) (w : ℕ) (rect : Rect) (j n y x k : ℕ) (m : Result (ℕ → ℕ))
    (rest : (ℕ → ℕ) → Result (ℕ → ℕ))
    → x < w
    → rect.min_x ≤ rect.max_x
    → rect.max_x ≤ w
    → Draws pick s d
        (j * w + rect.min_x)
        (j * w + rect.min_x + (rect.max_x - rect.min_x))
        (y * w + x)
        k
        m
    → ((d' : ℕ → ℕ) → Painted pick s d' w (lines rect (j + 1) (j + 1 + n)) y x k (rest d'))
    → Painted pick s d w (lines rect j (j + suc n)) y x k (m >>= rest)
unfolding Taken
Painted-line pick s d w rect j n y x k panic rest hx low high drawn t = absurd drawn
Painted-line pick s d w rect j n y x k (ok d') rest hx low high drawn t =
    let line = in_line w j rect.min_x rect.max_x y x hx low high in
    Painted-step pick s d d' w rect j n y x k (rest d')
      (subst
        (λ b.
          d' (4 * (y * w + x) + k)
          ≡ (if b then s (4 * (y * w + x) + pick k) else d (4 * (y * w + x) + k)))
        line drawn)
      (t d')

-- A rectangle inside an image of w by h pixels, whose bytes a word can count.
abbrev pub IsInside : ℕ → ℕ → Rect → Type 0
IsInside w h r =
    (r.min_x ≤ r.max_x)
    × (r.max_x ≤ w)
    × (r.min_y ≤ r.max_y)
    × (r.max_y ≤ h)
    × (w < 2 ^ 29)
    × (h < 2 ^ 31)
    × (4 * (h * w) < word)

Painted-copy_lines :
    (pick s : ℕ → ℕ) (op : LineOp) (dst src : Slice) (w h : ℕ) (rect : Rect) (y x k : ℕ)
    → IsInside w h rect
    → HoldsImage w h dst
    → HoldsImage w h src
    → x < w
    → DrawsLines pick s (y * w + x) k op
    → (n : ℕ) (d : ℕ → ℕ) (j : ℕ) → j + n ≤ h
    → Painted pick s d w
        (lines rect j (j + n))
        y
        x
        k
        (copy_lines op dst src (w * 4) (4 * rect.min_x) (4 * rect.max_x) n d j)
unfolding Taken copy_lines DrawsLines
Painted-copy_lines pick s op dst src w h rect y x k inside hd hs hx drawn zero d j room =
    ground arith
Painted-copy_lines pick s op dst src w h rect y x k (x01, x1w, y01, y1h, hw, hh, bound) hd hs hx
      drawn (suc n) d j room =
    let next : add32 j 1 ≡ j + 1 = omega (arith, room, hh) in
    let drawn_line =
      drawn d (j * w + rect.min_x) (rect.max_x - rect.min_x)
        (dst.cap - 4 * (j * w) - 4 * rect.min_x) (src.cap - 4 * (j * w) - 4 * rect.min_x) in
    subst (Painted pick s d w (lines rect j (j + suc n)) y x k)
      (sym (
        copy_lines-line op dst src w h rect.min_x rect.max_x n d j hd hs bound (omega (arith, room))
          (omega (arith, hh)) x01 x1w))
      (rw next (
        Painted-line pick s d w rect j n y x k _
          (λ d'. copy_lines op dst src (w * 4) (4 * rect.min_x) (4 * rect.max_x) n d' (j + 1)) hx
          x01 x1w drawn_line
          (λ d'.
            Painted-copy_lines pick s op dst src w h rect y x k (x01, x1w, y01, y1h, hw, hh, bound)
              hd hs hx drawn n d' (j + 1) (omega (arith, room)))))

less-small : (a b : ℕ) → a < 2 ^ 31 → b < 2 ^ 31 → less a b ≡ ltb a b
less-small a b h k =
    let ea : (a + 2 ^ 31) % word ≡ a + 2 ^ 31 = omega (arith, h) in
    let eb : (b + 2 ^ 31) % word ≡ b + 2 ^ 31 = omega (arith, k) in rw (ea, eb) (ground arith)

-- The number of lines from a to b, as bufcopy counts them.
line_count : (a b : ℕ) → a ≤ b → b < 2 ^ 31 → (if less a b then sub32 b a else 0) ≡ b - a
line_count a b h k = rw (less-small a b (omega (arith, h, k)) k) (ground (arith, h, k))

canon-inside : (w h : ℕ) (rect : Rect) → IsInside w h rect → canon rect ≡ rect
canon-inside w h rect (x01, x1w, y01, y1h, hw, hh, bound) =
    let x : less rect.max_x rect.min_x ≡ false =
      less-small rect.max_x rect.min_x (omega (arith, x1w, hw)) (omega (arith, x01, x1w, hw))
      ∙ ground (arith, x01) in
    let y : less rect.max_y rect.min_y ≡ false =
      less-small rect.max_y rect.min_y (omega (arith, y1h, hh)) (omega (arith, y01, y1h, hh))
      ∙ ground (arith, y01) in
    rw (x, y) refl

-- bufcopy of a rectangle inside the image, with slices that hold the image.
pub Painted-bufcopy :
    (pick s : ℕ → ℕ) (op : LineOp) (dst src : Slice) (w h : ℕ) (rect : Rect) (y x k : ℕ) (d : ℕ → ℕ)
    → IsInside w h rect
    → HoldsImage w h dst
    → HoldsImage w h src
    → x < w
    → DrawsLines pick s (y * w + x) k op
    → Painted pick s d w rect y x k (bufcopy op d dst src (w * 4) rect)
unfolding bufcopy copy_canon
Painted-bufcopy pick s op dst src w h rect y x k d inside hd hs hx drawn =
    let (x01, x1w, y01, y1h, hw, hh, bound) = inside in
    let low : mul32 rect.min_x 4 ≡ 4 * rect.min_x = omega (arith, x01, x1w, hw) in
    let high : mul32 rect.max_x 4 ≡ 4 * rect.max_x = omega (arith, x1w, hw) in
    let count = line_count rect.min_y rect.max_y y01 (omega (arith, y1h, hh)) in
    let last : rect.min_y + (rect.max_y - rect.min_y) ≡ rect.max_y = omega (arith, y01) in
    let all =
      Painted-copy_lines pick s op dst src w h rect y x k inside hd hs hx drawn
        (rect.max_y - rect.min_y) d rect.min_y (omega (arith, y01, y1h)) in
    subst (λ r. Painted pick s d w rect y x k (copy_canon op d dst src (w * 4) r))
      (sym (canon-inside w h rect inside))
      (rw (low, high, count)
        (subst
          (λ m. Painted pick s d w (lines rect rect.min_y m) y x k (
            copy_lines op dst src (w * 4) (4 * rect.min_x) (4 * rect.max_x)
              (rect.max_y - rect.min_y) d rect.min_y))
          last all))
