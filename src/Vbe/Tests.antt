-- ===== src/Vbe/Tests.antt =====
-- A screen of two pixels by two, with a frame buffer at 2 ^ 30, which nothing else is mapped to.
use eggos.Base.{
  ℕ, ◌+◌, ◌*◌, ◌%◌, ◌^◌, ◌≡◌, ◌==◌, if◌then◌else◌, refl, arith, false, Result, ok, panic,
}
use eggos.Mm.{Mm, pte_pw, fixmap, fix_pages, walk}
use eggos.Vbe.{Rect, View, Video, commit_rect, commit}
use eggos.Vbe.Start.{BootInfo, shown_view, started, init}
use eggos.Vbe.Lines.{holds}
use eggos.Vbe.Screen.{IsShown, Screen, Screen-commit_rect}
use eggos.Vbe.Whole.{whole, black, SameByte, commit-commit_rect, init-IsShown}

abbrev machine : Mm
machine = record {
  mem = λ a. if a == 5120 then 8195 else if a == 8196 then 16387 else 0;
  memtop = 65536;
  freelist = 12288;
  voffset = 2 ^ 30;
  allocs = 0;
  pgdir = 4096;
}

abbrev boot_info : BootInfo
boot_info = record {
  flags = 2048;
  framebuffer_addr = 2 ^ 30;
  framebuffer_width = 2;
  framebuffer_height = 2;
  framebuffer_bpp = 32;
  framebuffer_type = 1;
}

abbrev or_machine : Result Mm → Mm
or_machine (ok m) = m
or_machine panic = machine

abbrev mapped : Mm
unfolding fixmap
mapped = or_machine (fixmap machine (2 ^ 30) (2 ^ 30) 16 pte_pw)

abbrev video_off : Video
video_off = record {
  enabled = false;
  buffer = record { start = 0; len = 0; cap = 0 };
  back = λ a. 0;
  fbbuf = record { start = 0; len = 0; cap = 0 };
  front = λ a. 0;
  current = 0;
}

abbrev noise : ℕ → ℕ
noise a = (a * 7 + 5) % 256

abbrev drawing : View
drawing = record (black 2 2) { pix = noise }

abbrev screen : Video
unfolding shown_view
screen = shown_view video_off boot_info (λ a. 99) (black 2 2)

drawing-IsShown : IsShown 2 2 screen drawing
unfolding shown_view
drawing-IsShown = record {
  shown = refl;
  buffer = refl;
  fbbuf = refl;
  small = omega arith;
  size = refl;
  stride = refl;
}

abbrev right_column : Rect
right_column = record { min_x = 1; min_y = 0; max_x = 2; max_y = 2 }

Screen-commit_rect_example :
    Screen (holds right_column 1 1) 3 2 screen drawing (commit_rect screen drawing right_column)
Screen-commit_rect_example =
    Screen-commit_rect 2 2 screen drawing right_column 1 1 2 drawing-IsShown
      (omega arith, omega arith, omega arith, omega arith, omega arith, omega arith, omega arith)
      (omega arith) (omega arith)

commit-commit_rect_example :
    SameByte 3 1 (commit screen drawing) (commit_rect screen drawing (whole 2 2))
commit-commit_rect_example =
    commit-commit_rect 2 2 screen drawing 1 1 1 drawing-IsShown (omega arith) (omega arith)
      (omega arith) (omega arith) (omega arith)

init-IsShown_example :
    (init video_off machine boot_info (λ a. 99)
      ≡ ok (started mapped (shown_view video_off boot_info (λ a. 99) (black 2 2)) (black 2 2)))
    × IsShown 2 2 (shown_view video_off boot_info (λ a. 99) (black 2 2)) (black 2 2)
unfolding fixmap fix_pages walk
init-IsShown_example =
    init-IsShown video_off machine mapped boot_info (λ a. 99) (omega arith) refl refl (omega arith)
      (omega arith) (omega arith) refl
