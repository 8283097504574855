-- ===== src/Kernel/Frames.antt =====
-- kernel/trap.go, kernel/trap.s and clone of kernel/thread.go: the frame that a trap leaves on the
-- stack of its thread, how it is changed, and what the processor takes back from it. Memory is by
-- words, and a frame of 16 words does not wrap round the end of the address space.
pub mod Words
pub mod Resume
pub mod Tests
use eggos.Base.{
  ℕ, zero, suc, ◌+◌, ◌-◌, ◌*◌, ◌/◌, ◌%◌, ◌^◌, List, [], ◌∷◌, get_or, ◌==◌, if◌then◌else◌, Bool,
  true, false,
}
use eggos.Base.Words.{word, sub32}

-- TrapFrame, from its lowest address on; a word holds two segment registers.
pub record TrapFrame : Type 0 where
  pub gs : ℕ
  pub fs : ℕ
  pub es : ℕ
  pub ds : ℕ
  pub di : ℕ
  pub si : ℕ
  pub bp : ℕ
  pub sp0 : ℕ
  pub bx : ℕ
  pub dx : ℕ
  pub cx : ℕ
  pub ax : ℕ
  pub sp : ℕ
  pub trapno : ℕ
  pub err : ℕ
  pub ip : ℕ
  pub cs : ℕ
  pub flags : ℕ

abbrev pub frame_size : ℕ
frame_size = 64

-- The offset of Trapno.
abbrev pub trapno_offset : ℕ
trapno_offset = 44

-- The size of a context, and the offset of its ip.
abbrev pub context_size : ℕ
context_size = 20

-- The registers of the processor.
pub record Regs : Type 0 where
  pub gs : ℕ
  pub fs : ℕ
  pub es : ℕ
  pub ds : ℕ
  pub di : ℕ
  pub si : ℕ
  pub bp : ℕ
  pub bx : ℕ
  pub dx : ℕ
  pub cx : ℕ
  pub ax : ℕ
  pub ip : ℕ
  pub cs : ℕ
  pub flags : ℕ
  pub sp : ℕ

unfoldable pub write_words : (ℕ → ℕ) → ℕ → List ℕ → ℕ → ℕ
write_words mem t [] a = mem a
write_words mem t (w ∷ ws) a = if a == t then w else write_words mem (t + 4) ws a

unfoldable pub read_words : (ℕ → ℕ) → ℕ → ℕ → List ℕ
read_words mem t zero = []
read_words mem t (suc n) = mem t ∷ read_words mem (t + 4) n

abbrev pub frame_words : TrapFrame → List ℕ
frame_words f =
    (f.gs + f.fs * 2 ^ 16)
    ∷ (f.es + f.ds * 2 ^ 16)
    ∷ f.di
    ∷ f.si
    ∷ f.bp
    ∷ f.sp0
    ∷ f.bx
    ∷ f.dx
    ∷ f.cx
    ∷ f.ax
    ∷ f.sp
    ∷ f.trapno
    ∷ f.err
    ∷ f.ip
    ∷ f.cs
    ∷ f.flags
    ∷ []

-- alltraps, behind what the processor and the vector push: the registers, and the address of
-- Trapno as the stack pointer.
abbrev pub trap_frame : Regs → ℕ → ℕ → TrapFrame
trap_frame r trapno err =
    let t = sub32 r.sp frame_size in
    record {
      gs = r.gs;
      fs = r.fs;
      es = r.es;
      ds = r.ds;
      di = r.di;
      si = r.si;
      bp = r.bp;
      sp0 = t + 40;
      bx = r.bx;
      dx = r.dx;
      cx = r.cx;
      ax = r.ax;
      sp = t + trapno_offset;
      trapno = trapno;
      err = err;
      ip = r.ip;
      cs = r.cs;
      flags = r.flags;
    }

unfoldable pub all_traps : (ℕ → ℕ) → Regs → ℕ → ℕ → ℕ → ℕ
all_traps mem r trapno err =
    write_words mem (sub32 r.sp frame_size) (frame_words (trap_frame r trapno err))

-- trapret, with the stack pointer at a frame: it pops the registers and the stack pointer, skips
-- the trap number and the error code there, and returns from the interrupt.
abbrev pub popped : (ℕ → ℕ) → List ℕ → Regs
popped mem ws =
    let sp = get_or ws 10 0 in
    record {
      gs = get_or ws 0 0 % 2 ^ 16;
      fs = get_or ws 0 0 / 2 ^ 16 % 2 ^ 16;
      es = get_or ws 1 0 % 2 ^ 16;
      ds = get_or ws 1 0 / 2 ^ 16 % 2 ^ 16;
      di = get_or ws 2 0;
      si = get_or ws 3 0;
      bp = get_or ws 4 0;
      bx = get_or ws 6 0;
      dx = get_or ws 7 0;
      cx = get_or ws 8 0;
      ax = get_or ws 9 0;
      ip = mem (sp + 8);
      cs = mem (sp + 12);
      flags = mem (sp + 16);
      sp = sp + 20;
    }

unfoldable pub trapret : (ℕ → ℕ) → ℕ → Regs
trapret mem t = popped mem (read_words mem t 16)

-- ChangeReturnPC
unfoldable pub change_return_pc : TrapFrame → ℕ → TrapFrame
change_return_pc f pc = record f {
  err = pc;
  ip = f.cs;
  cs = f.flags;
  flags = f.ip;
  sp = sub32 f.sp 4;
}

-- The stack of the child that clone makes of the caller's frame: a frame, and below it a context
-- that goes on at trapret. The result is the memory with the address of the context.
abbrev pub child_frame : TrapFrame → ℕ → ℕ → TrapFrame
child_frame f pc t = record f { sp = t + trapno_offset; ip = pc; ax = 0 }

unfoldable pub clone_stack : (ℕ → ℕ) → TrapFrame → ℕ → ℕ → ℕ → (ℕ → ℕ) × ℕ
clone_stack mem f trapret_pc pc sp =
    let t = sub32 sp frame_size in
    let ctx = sub32 t context_size in
    (
      write_words (write_words mem t (frame_words (child_frame f pc t))) (ctx + 16)
          (trapret_pc ∷ []),
      ctx,
    )

-- The stack of the first thread, from its top down: a context that goes on at thread0.
unfoldable pub thread0_stack : (ℕ → ℕ) → ℕ → ℕ → (ℕ → ℕ) × ℕ
thread0_stack mem thread0_pc top =
    let ctx = sub32 top context_size in (write_words mem (ctx + 16) (thread0_pc ∷ []), ctx)

-- The end of swtch: it pops four registers of the context and returns to its ip. The result is
-- where the processor goes on, and its stack pointer.
unfoldable pub swtch_to : (ℕ → ℕ) → ℕ → ℕ × ℕ
swtch_to mem ctx = (mem (ctx + 16), ctx + 20)
