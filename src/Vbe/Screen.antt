-- ===== src/Vbe/Screen.antt =====
-- What the screen shows after a commit.
use eggos.Base.{
  ℕ, ◌+◌, ◌*◌, ◌/◌, ◌<◌, ◌≤◌, ◌≡◌, refl, sym, ◌∙◌, Bool, true, false, if◌then◌else◌, Result, ok,
  panic, ◌>>=◌, arith, subst,
}
use eggos.Vbe.{
  Slice, Rect, View, Video, shows, pixels, put_pixels, convert, copy, bufcopy, commit_rect, commit,
}
use eggos.Vbe.Start.{max_buffer}
use eggos.Vbe.Pixels.{
  swap, in_range, pixel_slice, Taken, DrawsLines, Draws-put_pixels, convert-DrawsLines,
  copy-DrawsLines,
}
use eggos.Vbe.Lines.{holds, HoldsImage, IsInside, Painted-bufcopy}

-- Buffers and a view of w by h pixels, as Init makes them.
pub record IsShown (w h : ℕ) (s : Video) (v : View) : Type 0 where
  pub shown : shows s v ≡ true
  pub buffer : s.buffer ≡ record { start = 0; len = 4 * (h * w); cap = 4 * (h * w) }
  pub fbbuf : s.fbbuf ≡ record { start = 0; len = 4 * (h * w); cap = max_buffer }
  pub small : 4 * (h * w) ≤ max_buffer
  pub size : v.size ≡ 4 * (h * w)
  pub stride : v.stride ≡ w * 4

-- Byte k of a pixel on the screen: from the view where `inside`, and else as it was.
unfoldable pub Screen : Bool → ℕ → ℕ → Video → View → Result Video → Type 0
Screen inside q k s v panic = ⊥
Screen inside q k s v (ok s') =
    s'.front (4 * q + k) ≡ (if inside then v.pix (4 * q + swap k) else s.front (4 * q + k))

Screen-front :
    (inside : Bool) (q k : ℕ) (s : Video) (v : View) (b : ℕ → ℕ) (front : Result (ℕ → ℕ))
    → Taken inside swap v.pix s.back q k (ok b)
    → Taken inside (λ i. i) b s.front q k front
    → Screen inside q k s v (front >>= λ f. ok (record s { back = b; front = f }))
unfolding Taken Screen
Screen-front inside q k s v b panic h t = t
Screen-front true q k s v b (ok f) h t = t ∙ h
Screen-front false q k s v b (ok f) h t = t

-- The two halves of a commit, one behind the other.
Screen-halves :
    (inside : Bool) (q k : ℕ) (s : Video) (v : View) (back : Result (ℕ → ℕ))
    (front : (ℕ → ℕ) → Result (ℕ → ℕ))
    → Taken inside swap v.pix s.back q k back
    → ((b : ℕ → ℕ) → Taken inside (λ i. i) b s.front q k (front b))
    → Screen inside q k s v (back >>= λ b. front b >>= λ f. ok (record s { back = b; front = f }))
unfolding Taken Screen
Screen-halves inside q k s v panic front h t = h
Screen-halves inside q k s v (ok b) front h t = Screen-front inside q k s v b (front b) h (t b)

Holds-image :
    (w h : ℕ) (a : Slice) (len cap : ℕ)
    → a ≡ record { start = 0; len = len; cap = cap }
    → 4 * (h * w) ≤ cap
    → HoldsImage w h a
Holds-image w h a len cap e room = subst (HoldsImage w h) (sym e) (refl, room)

-- When a view of w by h pixels is the one on the screen, CommitRect of a rectangle inside it does not
-- panic, and shows the view's pixels, from RGBA to BGRA, in the rectangle, and what was there
-- before outside it.
pub Screen-commit_rect :
    (w h : ℕ) (s : Video) (v : View) (rect : Rect) (y x k : ℕ)
    → IsShown w h s v
    → IsInside w h rect
    → x < w
    → k < 4
    → Screen (holds rect y x) (y * w + x) k s v (commit_rect s v rect)
unfolding commit_rect Screen
Screen-commit_rect w h s v rect y x k on inside hx hk =
    let q = y * w + x in
    let buffer = Holds-image w h s.buffer (4 * (h * w)) (4 * (h * w)) on.buffer (omega arith) in
    let fbbuf = Holds-image w h s.fbbuf (4 * (h * w)) max_buffer on.fbbuf on.small in
    let pix : HoldsImage w h (pixels v) = (refl, omega (arith, on.size)) in
    let drawn =
      Screen-halves (holds rect y x) q k s v
        (bufcopy (convert v.pix) s.back s.buffer (pixels v) (w * 4) rect)
        (λ back. bufcopy (copy back) s.front s.fbbuf s.buffer (w * 4) rect)
        (Painted-bufcopy swap v.pix (convert v.pix) s.buffer (pixels v) w h rect y x k s.back inside
          buffer pix hx (convert-DrawsLines v.pix q k hk))
        (λ b.
          Painted-bufcopy (λ i. i) b (copy b) s.fbbuf s.buffer w h rect y x k s.front inside fbbuf
            buffer hx (copy-DrawsLines b q k hk)) in
    rw (on.shown, on.stride) drawn

Screen-put_pixels :
    (w h : ℕ) (s : Video) (v : View) (q k : ℕ)
    → IsShown w h s v
    → q < h * w
    → k < 4
    → Taken true swap v.pix s.back q k
        (put_pixels v.pix s.buffer (pixels v) ((v.size + 3) / 4) s.back 0)
Screen-put_pixels w h s v q k on hq hk =
    let n = h * w in
    let count : (4 * n + 3) / 4 ≡ n = omega arith in
    let all : in_range (0 + 0) (0 + 0 + n) q ≡ true = ground (arith, hq) in
    let whole = pixel_slice 0 n (4 * n) in
    let drawn =
      subst (λ b. Taken b swap v.pix s.back q k (put_pixels v.pix whole whole n s.back 0)) all
        (Draws-put_pixels v.pix 0 n (4 * n) (4 * n) q k hk n s.back 0 (omega arith)) in
    let counted =
      subst (λ m. Taken true swap v.pix s.back q k (put_pixels v.pix whole whole m s.back 0))
        (sym count) drawn in
    let sized =
      subst
        (λ z.
          Taken true swap v.pix s.back q k (
            put_pixels v.pix whole (record { start = 0; len = z; cap = z }) ((z + 3) / 4) s.back 0))
        (sym on.size) counted in
    subst
      (λ b.
        Taken true swap v.pix s.back q k
          (put_pixels v.pix b (pixels v) ((v.size + 3) / 4) s.back 0))
      (sym on.buffer) sized

Screen-copy :
    (w h : ℕ) (s : Video) (v : View) (q k : ℕ) (b : ℕ → ℕ)
    → IsShown w h s v
    → q < h * w
    → k < 4
    → Taken true (λ i. i) b s.front q k (copy b s.front s.fbbuf s.buffer)
unfolding DrawsLines
Screen-copy w h s v q k b on hq hk =
    let n = h * w in
    let all : in_range 0 (0 + n) q ≡ true = ground (arith, hq) in
    let drawn =
      subst
        (λ i.
          Taken i (λ j. j) b s.front q k
            (copy b s.front (pixel_slice 0 n max_buffer) (pixel_slice 0 n (4 * n))))
        all (copy-DrawsLines b q k hk s.front 0 n max_buffer (4 * n)) in
    subst (λ f. Taken true (λ j. j) b s.front q k (copy b s.front f s.buffer)) (sym on.fbbuf)
      (subst
        (λ f. Taken true (λ j. j) b s.front q k (copy b s.front (pixel_slice 0 n max_buffer) f))
        (sym on.buffer) drawn)

-- When a view of w by h pixels is the one on the screen, Commit does not panic, and shows each of the
-- view's pixels, from RGBA to BGRA.
pub Screen-commit :
    (w h : ℕ) (s : Video) (v : View) (q k : ℕ)
    → IsShown w h s v
    → q < h * w
    → k < 4
    → Screen true q k s v (commit s v)
unfolding commit Screen
Screen-commit w h s v q k on hq hk = rw on.shown (
    Screen-halves true q k s v (put_pixels v.pix s.buffer (pixels v) ((v.size + 3) / 4) s.back 0)
      (λ b. copy b s.front s.fbbuf s.buffer) (Screen-put_pixels w h s v q k on hq hk)
      (λ b. Screen-copy w h s v q k b on hq hk))
