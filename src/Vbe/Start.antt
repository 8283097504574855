-- ===== src/Vbe/Start.antt =====
-- Init of vbe/fb.go and NewView of vbe/view.go. The boot information is an argument.
use eggos.Base.{
  ℕ, ◌-◌, ◌*◌, ◌%◌, ◌^◌, true, ltb, ◌==◌, bit_and, if◌then◌else◌, Result, ok, panic, ◌>>=◌,
}
use eggos.Base.Words.{word, is_negative}
use eggos.Mm.{Mm, fixmap, pte_pw}
use eggos.Vbe.{View, Video}

-- The part of multiboot's Info that Init reads.
pub record BootInfo : Type 0 where
  pub flags : ℕ
  pub framebuffer_addr : ℕ
  pub framebuffer_width : ℕ
  pub framebuffer_height : ℕ
  pub framebuffer_bpp : ℕ
  pub framebuffer_type : ℕ

-- FlagInfoVideoInfo
abbrev pub flag_video_info : ℕ
flag_video_info = 2048

-- The length of the array that the frame buffer is sliced from.
abbrev pub max_buffer : ℕ
max_buffer = 10 * 2 ^ 20

-- The distance of an int from 0.
abbrev distance : ℕ → ℕ
distance a = if is_negative a then word - a else a

-- NewView for an image of the given size: image.NewRGBA panics when its bytes do not fit an int.
unfoldable pub new_view : ℕ → ℕ → ℕ → Result View
new_view number width height =
    let dx = distance width in
    let dy = distance height in
    if ltb (2 ^ 31 - 1) (4 * (dx * dy))
    then panic
    else ok (record { number = number; pix = λ a. 0; size = 4 * (dx * dy); stride = dx * 4 })

-- uint32 arithmetic on the size.
abbrev pub buffer_size : BootInfo → ℕ
buffer_size b = b.framebuffer_width * b.framebuffer_height % word * 4 % word

-- The variables behind Init, with what the frame buffer held; the default view has number 1.
unfoldable pub shown_view : Video → BootInfo → (ℕ → ℕ) → View → Video
shown_view s b held v = record s {
  enabled = true;
  buffer = record { start = 0; len = buffer_size b; cap = buffer_size b };
  back = λ a. 0;
  fbbuf = record { start = 0; len = buffer_size b; cap = max_buffer };
  front = held;
  current = v.number;
}

-- Init of the variables and the memory: with the view when the screen is taken over.
pub data Started : Type 0 where
  no_video : Started
  started : Mm → Video → View → Started

unfoldable pub init : Video → Mm → BootInfo → (ℕ → ℕ) → Result Started
unfolding new_view shown_view
init s k b held =
    if bit_and b.flags flag_video_info == 0
    then ok no_video
    else if b.framebuffer_type == 1
    then (if b.framebuffer_bpp == 32
        then (fixmap k (b.framebuffer_addr % word) (b.framebuffer_addr % word) (buffer_size b)
              pte_pw
            >>= λ k'.
                if ltb max_buffer (buffer_size b)
                then panic
                else (new_view 1 b.framebuffer_width b.framebuffer_height >>= λ v.
                    ok (started k' (shown_view s b held v) v)))
        else ok no_video)
    else ok no_video
