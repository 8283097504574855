-- ===== src/Kernel/Faults/Tests.antt =====
-- A page fault of a thread whose handler makes it call 5000, and keeps the fault's address on its
-- own stack.
use eggos.Base.{◌==◌, refl, if◌then◌else◌, inr, arith}
use eggos.Kernel.Frames.{Regs}
use eggos.Kernel.Signals.{Signals}
use eggos.Kernel.Faults.{Places, Handler, take_exception, page_fault_handler}
use eggos.Kernel.Faults.Resume.{CanSignal, KeepsFrame, GoesOn, handled, take_exception-GoesOn}

abbrev faulting : Regs
faulting = record {
  gs = 51;
  fs = 35;
  es = 16;
  ds = 16;
  di = 1;
  si = 2;
  bp = 3;
  bx = 4;
  dx = 5;
  cx = 6;
  ax = 7;
  ip = 1000;
  cs = 8;
  flags = 512;
  sp = 4096;
}

abbrev signals : Signals
signals = record {
  actions = λ n. record { sa_handler = 3000; sa_flags = 0; sa_restorer = 0; sa_mask = 0 };
  stacks = λ t. record { ss_sp = 20000; ss_flags = 0; ss_size = 1000 };
  masks = λ t. (0, 0);
}

abbrev places : Places
places = record { sinfo = 100; sigctx = 200; dummy = 300; return_pc = 400 }

-- It stores far from the frame, which begins at 4032.
abbrev to_5000 : Handler
to_5000 mem sp info ctx = ((λ a. if a == 20500 then ctx.eip else mem a), record ctx { eip = 5000 })

to_5000-KeepsFrame : KeepsFrame to_5000 4032
to_5000-KeepsFrame mem sp info ctx i h = ground (arith, h)

signals-CanSignal : CanSignal signals 1 (page_fault_handler 77) 4032
signals-CanSignal = record {
  known = omega arith;
  set = omega arith;
  stack = omega arith;
  room = omega arith;
  below = omega arith;
  apart = inr (omega arith);
}

take_exception-GoesOn_example :
    GoesOn faulting
      (handled to_5000 signals 1 places (page_fault_handler 77) (λ a. 0) faulting 14 2).1.eip
      (take_exception to_5000 signals 1 places (λ a. 0) faulting (λ n. n == 39) 14 2 77)
take_exception-GoesOn_example =
    take_exception-GoesOn to_5000 signals 1 places (λ a. 0) faulting (λ n. n == 39) 14 2 77
      (page_fault_handler 77) refl
      (omega arith, omega arith, omega arith, omega arith, omega arith, omega arith)
      signals-CanSignal to_5000-KeepsFrame
