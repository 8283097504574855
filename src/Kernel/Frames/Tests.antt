-- ===== src/Kernel/Frames/Tests.antt =====
-- A thread with small register values and 4096 as its stack pointer.
use eggos.Base.{ℕ, ◌≡◌, arith}
use eggos.Base.Words.{sub32}
use eggos.Kernel.Frames.{
  Regs, frame_size, write_words, frame_words, trap_frame, all_traps, trapret, change_return_pc,
  clone_stack, swtch_to,
}
use eggos.Kernel.Frames.Resume.{
  HasRoom, trapret-all_traps, trapret-change_return_pc, swtch_to-clone_stack,
}

abbrev zeros : ℕ → ℕ
zeros a = 0

abbrev running : Regs
running = record {
  gs = 51;
  fs = 35;
  es = 16;
  ds = 16;
  di = 1;
  si = 2;
  bp = 3;
  bx = 4;
  dx = 5;
  cx = 6;
  ax = 7;
  ip = 1000;
  cs = 8;
  flags = 512;
  sp = 4096;
}

running-HasRoom : HasRoom running
running-HasRoom = (omega arith, omega arith, omega arith, omega arith, omega arith, omega arith)

trapret-all_traps_example : trapret (all_traps zeros running 14 2) (sub32 4096 frame_size) ≡ running
trapret-all_traps_example = trapret-all_traps zeros running 14 2 running-HasRoom

trapret-change_return_pc_example :
    (trapret
        (write_words zeros
          (sub32 4096 frame_size)
          (frame_words (change_return_pc (trap_frame running 14 2) 2000)))
        (sub32 4096 frame_size)
      ≡ record running { ip = 2000; sp = 4092 })
    × (write_words zeros
          (sub32 4096 frame_size)
          (frame_words (change_return_pc (trap_frame running 14 2) 2000))
          4092
        ≡ 1000)
trapret-change_return_pc_example = trapret-change_return_pc zeros running 14 2 2000 running-HasRoom

swtch_to-clone_stack_example :
    let child = clone_stack zeros (trap_frame running 64 0) 3000 2000 8192 in
    (swtch_to child.0 child.1 ≡ (3000, sub32 8192 frame_size))
    × (trapret child.0 (sub32 8192 frame_size) ≡ record running { ip = 2000; ax = 0; sp = 8192 })
swtch_to-clone_stack_example =
    swtch_to-clone_stack zeros running 64 0 3000 2000 8192 running-HasRoom (omega arith)
      (omega arith)
