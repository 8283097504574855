-- ===== src/Vbe/Whole.antt =====
-- Commit against CommitRect of the whole view, and what Init sets up for both.
use native.Mathlib.Nat.{mul_comm}
use eggos.Base.{
  ℕ, ◌+◌, ◌-◌, ◌*◌, ◌%◌, ◌^◌, ◌<◌, ◌≤◌, ◌≡◌, ◌≢◌, refl, sym, ap, ◌∙◌, true, false, ltb, leb, ◌==◌,
  bit_and, Result, ok, panic, arith, subst,
}
use eggos.Base.Words.{word}
use eggos.Mm.{Mm, fixmap, pte_pw}
use eggos.Vbe.{Rect, View, Video, commit_rect, commit}
use eggos.Vbe.Start.{
  BootInfo, started, buffer_size, max_buffer, flag_video_info, new_view, shown_view, init,
}
use eggos.Vbe.Lines.{holds, IsInside, line_le}
use eggos.Vbe.Screen.{IsShown, Screen, Screen-commit_rect, Screen-commit}

abbrev pub whole : ℕ → ℕ → Rect
whole w h = record { min_x = 0; min_y = 0; max_x = w; max_y = h }

-- Two runs that end with the same byte k of pixel q on the screen.
pub SameByte : ℕ → ℕ → Result Video → Result Video → Type 0
SameByte q k panic r = ⊥
SameByte q k (ok a) panic = ⊥
SameByte q k (ok a) (ok b) = a.front (4 * q + k) ≡ b.front (4 * q + k)

Screen-SameByte :
    (q k : ℕ) (s : Video) (v : View) (a b : Result Video)
    → Screen true q k s v a
    → Screen true q k s v b
    → SameByte q k a b
unfolding Screen SameByte
Screen-SameByte q k s v panic b h t = h
Screen-SameByte q k s v (ok a) panic h t = t
Screen-SameByte q k s v (ok a) (ok b) h t = h ∙ sym t

-- When a view of w by h pixels is the one on the screen, Commit and CommitRect of the whole view
-- both succeed and leave the same screen.
pub commit-commit_rect :
    (w h : ℕ) (s : Video) (v : View) (y x k : ℕ)
    → IsShown w h s v
    → w < 2 ^ 29
    → h < 2 ^ 31
    → y < h
    → x < w
    → k < 4
    → SameByte (y * w + x) k (commit s v) (commit_rect s v (whole w h))
commit-commit_rect w h s v y x k on hw hh hy hx hk =
    let inside : IsInside w h (whole w h) =
      (omega arith, omega arith, omega arith, omega arith, hw, hh, omega (arith, on.small)) in
    let all : holds (whole w h) y x ≡ true = ground (arith, hx, hy) in
    let rect =
      subst (λ b. Screen b (y * w + x) k s v (commit_rect s v (whole w h))) all
        (Screen-commit_rect w h s v (whole w h) y x k on inside hx hk) in
    Screen-SameByte (y * w + x) k s v (commit s v) (commit_rect s v (whole w h))
      (Screen-commit w h s v (y * w + x) k on (omega (arith, line_le w y h hy, hx)) hk) rect

-- The black view of w by h pixels.
abbrev pub black : ℕ → ℕ → View
black w h = record { number = 1; pix = λ a. 0; size = 4 * (h * w); stride = w * 4 }

new_view-black :
    (w h : ℕ) → w < 2 ^ 31 → h < 2 ^ 31 → 4 * (h * w) ≤ max_buffer → new_view 1 w h ≡ ok (black w h)
unfolding new_view
new_view-black w h hw hh small =
    let dx : leb (2 ^ 31) w ≡ false = ground (arith, hw) in
    let dy : leb (2 ^ 31) h ≡ false = ground (arith, hh) in
    let order = mul_comm w h in
    let fits : ltb (2 ^ 31 - 1) (4 * (h * w)) ≡ false = ground (arith, small) in
    rw (dx, dy, order, fits) refl

buffer_size-small :
    (b : BootInfo)
    → 4 * (b.framebuffer_height * b.framebuffer_width) ≤ max_buffer
    → buffer_size b ≡ 4 * (b.framebuffer_height * b.framebuffer_width)
buffer_size-small b small = omega (arith, small)

-- When the boot loader reports a frame buffer of w by h pixels with 32 bits each and at most 10 MiB, and
-- its addresses can be mapped, Init succeeds with a black view of that size, and that view is the
-- one on the screen.
pub init-IsShown :
    (s : Video) (m m' : Mm) (b : BootInfo) (held : ℕ → ℕ)
    → bit_and b.flags flag_video_info ≢ 0
    → b.framebuffer_type ≡ 1
    → b.framebuffer_bpp ≡ 32
    → b.framebuffer_width < 2 ^ 31
    → b.framebuffer_height < 2 ^ 31
    → 4 * (b.framebuffer_height * b.framebuffer_width) ≤ max_buffer
    → fixmap m (b.framebuffer_addr % word) (b.framebuffer_addr % word) (buffer_size b) pte_pw
      ≡ ok m'
    → let v = black b.framebuffer_width b.framebuffer_height in
      (init s m b held ≡ ok (started m' (shown_view s b held v) v))
      × IsShown b.framebuffer_width b.framebuffer_height (shown_view s b held v) v
unfolding init shown_view
init-IsShown s m m' b held flags kind bpp hw hh small mapped =
    let w = b.framebuffer_width in
    let h = b.framebuffer_height in
    let size = buffer_size-small b small in
    let given : (bit_and b.flags flag_video_info == 0) ≡ false = ground (arith, flags) in
    let rgb : (b.framebuffer_type == 1) ≡ true = ground (arith, kind) in
    let deep : (b.framebuffer_bpp == 32) ≡ true = ground (arith, bpp) in
    let fits : ltb max_buffer (buffer_size b) ≡ false = ground (arith, size, small) in
    (
      rw (given, rgb, deep, mapped, fits, new_view-black w h hw hh small) refl,
      record {
        shown = refl;
        buffer = ap (λ z. record { start = 0; len = z; cap = z }) size;
        fbbuf = ap (λ z. record { start = 0; len = z; cap = max_buffer }) size;
        small = small;
        size = refl;
        stride = refl;
      },
    )
