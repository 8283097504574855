-- ===== src/Vbe.antt =====
-- vbe/fb.go and vbe/view.go: the frame buffer and the views that are drawn on it. An array of bytes is
-- a function of the index, and a slice a window on it. Coordinates are Go ints of 32 bits. A view
-- is told from another by its number, which stands for its address.
pub mod Start
pub mod Pixels
pub mod Lines
pub mod Screen
pub mod Whole
pub mod Tests
use eggos.Base.{
  ℕ, zero, suc, ◌+◌, ◌-◌, ◌*◌, ◌/◌, ◌%◌, ◌^◌, Bool, true, false, not, ltb, leb, ◌==◌, ◌&&◌,
  if◌then◌else◌, Result, ok, panic, ◌>>=◌,
}
use eggos.Base.Words.{word, add32, sub32, is_negative}

-- A slice of an array of bytes.
pub record Slice : Type 0 where
  pub start : ℕ
  pub len : ℕ
  pub cap : ℕ

abbrev pub mul32 : ℕ → ℕ → ℕ
mul32 a b = a * b % word

-- The order of ints.
abbrev pub less : ℕ → ℕ → Bool
less a b = ltb ((a + 2 ^ 31) % word) ((b + 2 ^ 31) % word)

-- s[lo:hi], which may reach up to the capacity.
unfoldable pub reslice : Slice → ℕ → ℕ → Result Slice
reslice s lo hi =
    if leb lo hi && leb hi s.cap
    then ok (record { start = s.start + lo; len = hi - lo; cap = s.cap - lo })
    else panic

-- image.Rectangle, and its Canon.
pub record Rect : Type 0 where
  pub min_x : ℕ
  pub min_y : ℕ
  pub max_x : ℕ
  pub max_y : ℕ

abbrev lower : ℕ → ℕ → ℕ
lower a b = if less b a then b else a

abbrev upper : ℕ → ℕ → ℕ
upper a b = if less b a then a else b

abbrev pub canon : Rect → Rect
canon r = record {
  min_x = lower r.min_x r.max_x;
  min_y = lower r.min_y r.max_y;
  max_x = upper r.min_x r.max_x;
  max_y = upper r.min_y r.max_y;
}

-- An operation on two lines: the array of the first, after it.
abbrev pub LineOp : Type 0
LineOp = (ℕ → ℕ) → Slice → Slice → Result (ℕ → ℕ)

abbrev pub write_at : (ℕ → ℕ) → ℕ → ℕ → ℕ → ℕ
write_at d at v a = if a == at then v else d a

-- The lines of bufcopy from line j on.
unfoldable pub copy_lines : LineOp → Slice → Slice → ℕ → ℕ → ℕ → ℕ → (ℕ → ℕ) → ℕ → Result (ℕ → ℕ)
copy_lines op dst src stride minx maxx zero d j = ok d
copy_lines op dst src stride minx maxx (suc n) d j =
    reslice src (mul32 j stride) (mul32 (add32 j 1) stride) >>= λ srcline.
    reslice dst (mul32 j stride) (mul32 (add32 j 1) stride) >>= λ dstline.
    reslice dstline minx maxx >>= λ to. reslice srcline minx maxx >>= λ from.
    op d to from >>= λ d'. copy_lines op dst src stride minx maxx n d' (add32 j 1)

-- bufcopy on the array of dst; `op` knows that of src.
unfoldable pub copy_canon : LineOp → (ℕ → ℕ) → Slice → Slice → ℕ → Rect → Result (ℕ → ℕ)
unfolding copy_lines
copy_canon op d dst src stride r =
    copy_lines op dst src stride (mul32 r.min_x 4) (mul32 r.max_x 4)
      (if less r.min_y r.max_y then sub32 r.max_y r.min_y else 0) d r.min_y

unfoldable pub bufcopy : LineOp → (ℕ → ℕ) → Slice → Slice → ℕ → Rect → Result (ℕ → ℕ)
unfolding copy_canon
bufcopy op d dst src stride rect = copy_canon op d dst src stride (canon rect)

-- One pixel from RGBA to BGRA.
abbrev pub put_pixel : (ℕ → ℕ) → ℕ → (ℕ → ℕ) → ℕ → ℕ → ℕ
put_pixel d to s from =
    write_at
      (write_at (write_at (write_at d to (s (from + 2))) (to + 1) (s (from + 1))) (to + 2) (s from))
      (to + 3) (s (from + 3))

-- The loop over the pixels of two slices from index i on; a pixel that does not fit panics.
unfoldable pub put_pixels : (ℕ → ℕ) → Slice → Slice → ℕ → (ℕ → ℕ) → ℕ → Result (ℕ → ℕ)
put_pixels s to from zero d i = ok d
put_pixels s to from (suc n) d i =
    let rest = put_pixels s to from n (put_pixel d (to.start + i) s (from.start + i)) (i + 4) in
    if ltb (i + 3) to.len && ltb (i + 3) from.len then rest else panic

-- The two operations of CommitRect, the second one Go's copy.
unfoldable pub convert : (ℕ → ℕ) → LineOp
unfolding put_pixels
convert s d to from = put_pixels s to from ((to.len + 3) / 4) d 0

unfoldable pub copy : (ℕ → ℕ) → LineOp
copy s d to from = ok (λ a.
    if leb to.start a && (ltb a (to.start + to.len) && ltb a (to.start + from.len))
    then s (from.start + (a - to.start))
    else d a)

pub record View : Type 0 where
  pub number : ℕ
  pub pix : ℕ → ℕ
  pub size : ℕ
  pub stride : ℕ

-- The variables of vbe: `enabled` is fbbuf != nil, and the contents of buffer and fbbuf are `back`
-- and `front`.
pub record Video : Type 0 where
  pub enabled : Bool
  pub buffer : Slice
  pub back : ℕ → ℕ
  pub fbbuf : Slice
  pub front : ℕ → ℕ
  pub current : ℕ

-- The pixels of a view.
abbrev pub pixels : View → Slice
pixels v = record { start = 0; len = v.size; cap = v.size }

abbrev pub shows : Video → View → Bool
shows s v = s.enabled && (v.number == s.current)

-- Clear
abbrev pub clear : View → View
clear v = record v { pix = λ a. if ltb a v.size then 0 else v.pix a }

-- CommitRect
unfoldable pub commit_rect : Video → View → Rect → Result Video
unfolding bufcopy convert copy
commit_rect s v rect =
    if shows s v
    then (bufcopy (convert v.pix) s.back s.buffer (pixels v) v.stride rect >>= λ back.
        bufcopy (copy back) s.front s.fbbuf s.buffer v.stride rect >>= λ front.
        ok (record s { back = back; front = front }))
    else ok s

-- Commit
unfoldable pub commit : Video → View → Result Video
unfolding convert copy put_pixels
commit s v =
    if shows s v
    then (put_pixels v.pix s.buffer (pixels v) ((v.size + 3) / 4) s.back 0 >>= λ back.
        copy back s.front s.fbbuf s.buffer >>= λ front.
        ok (record s { back = back; front = front }))
    else ok s

-- SetCurrView
unfoldable pub set_curr_view : Video → View → Result Video
unfolding commit
set_curr_view s v = commit (record s { current = v.number }) v
