-- ===== src/Kernel/Frames/Resume.antt =====
-- What a thread goes on with behind a trap, behind a change of its frame, and as a fresh clone.
use eggos.Base.{
  ℕ, ◌+◌, ◌*◌, ◌-◌, ◌/◌, ◌%◌, ◌<◌, ◌≤◌, ◌≡◌, refl, sym, ap, ap₂, ◌∙◌, [], ◌∷◌, get_or, arith,
}
use eggos.Base.Words.{word, sub32}
use eggos.Kernel.Frames.{
  TrapFrame, Regs, frame_size, trapno_offset, context_size, write_words, frame_words, trap_frame,
  all_traps, popped, trapret, change_return_pc, child_frame, thread0_stack, clone_stack, swtch_to,
}
use eggos.Kernel.Frames.Words.{
  write_words-above, write_words-get, read_words-ext, read_words-write_words,
}

-- Segment registers of 16 bits.
abbrev pub IsFrame : TrapFrame → Type 0
IsFrame f = (f.gs < 65536) × (f.fs < 65536) × (f.es < 65536) × (f.ds < 65536)

-- The registers that a frame stands for, with what the return from the trap pops.
abbrev pub regs_of : TrapFrame → ℕ → ℕ → ℕ → ℕ → Regs
regs_of f ip cs flags sp = record {
  gs = f.gs;
  fs = f.fs;
  es = f.es;
  ds = f.ds;
  di = f.di;
  si = f.si;
  bp = f.bp;
  bx = f.bx;
  dx = f.dx;
  cx = f.cx;
  ax = f.ax;
  ip = ip;
  cs = cs;
  flags = flags;
  sp = sp;
}

low_half : (a b : ℕ) → a < 65536 → (a + b * 65536) % 65536 ≡ a
low_half a b h = omega arith

high_half : (a b : ℕ) → a < 65536 → b < 65536 → (a + b * 65536) / 65536 % 65536 ≡ b
high_half a b h k = omega arith

popped-frame_words :
    (mem : ℕ → ℕ) (f : TrapFrame)
    → IsFrame f
    → popped mem (frame_words f)
      ≡ regs_of f (mem (f.sp + 8)) (mem (f.sp + 12)) (mem (f.sp + 16)) (f.sp + 20)
popped-frame_words mem f (hg, hf, he, hd) =
    rw
      (
        low_half f.gs f.fs hg,
        high_half f.gs f.fs hg hf,
        low_half f.es f.ds he,
        high_half f.es f.ds he hd,
      )
      refl

-- The memory with a frame in it, as trapret finds it.
abbrev with_frame : (ℕ → ℕ) → ℕ → TrapFrame → ℕ → ℕ
with_frame mem t f = write_words mem t (frame_words f)

-- What lies outside the frame does not matter to it.
trapret-with_frame :
    (m mem : ℕ → ℕ) (t : ℕ) (f : TrapFrame)
    → IsFrame f
    → ((a : ℕ) → t ≤ a → a < t + 64 → m a ≡ with_frame mem t f a)
    → trapret m t ≡ regs_of f (m (f.sp + 8)) (m (f.sp + 12)) (m (f.sp + 16)) (f.sp + 20)
unfolding trapret
trapret-with_frame m mem t f h same =
    let words =
      read_words-ext m (with_frame mem t f) t 16 same
      ∙ read_words-write_words mem t (frame_words f) in
    ap (popped m) words ∙ popped-frame_words m f h

-- Word i of the frame, at an address that is written in another way.
with_frame-get :
    (mem : ℕ → ℕ) (t : ℕ) (f : TrapFrame) (i a : ℕ)
    → i < 16
    → a ≡ t + i * 4
    → with_frame mem t f a ≡ get_or (frame_words f) i 0
with_frame-get mem t f i a h e =
    ap (with_frame mem t f) e ∙ write_words-get mem t i (frame_words f) h

-- With its stack pointer at its own Trapno, a frame is popped whole.
trapret-own :
    (m mem : ℕ → ℕ) (t : ℕ) (f : TrapFrame)
    → IsFrame f
    → ((a : ℕ) → t ≤ a → a < t + 64 → m a ≡ with_frame mem t f a)
    → f.sp ≡ t + trapno_offset
    → trapret m t ≡ regs_of f f.ip f.cs f.flags (t + frame_size)
trapret-own m mem t f h same e =
    let get : (i a : ℕ) → i < 16 → a ≡ t + i * 4 → m a ≡ get_or (frame_words f) i 0 =
      λ i a k l. same a (omega (arith, l)) (omega (arith, k, l)) ∙ with_frame-get mem t f i a k l in
    let ip = get 13 (f.sp + 8) (omega arith) (omega (arith, e)) in
    let cs = get 14 (f.sp + 12) (omega arith) (omega (arith, e)) in
    let flags = get 15 (f.sp + 16) (omega arith) (omega (arith, e)) in
    let sp : f.sp + 20 ≡ t + frame_size = omega (arith, e) in
    trapret-with_frame m mem t f h same ∙ rw (ip, cs, flags, sp) refl

-- With its stack pointer one word lower, what lies in front of its ip is popped.
trapret-lower :
    (mem : ℕ → ℕ) (t : ℕ) (f : TrapFrame)
    → IsFrame f
    → f.sp ≡ t + 40
    → trapret (with_frame mem t f) t ≡ regs_of f f.err f.ip f.cs (t + 60)
trapret-lower mem t f h e =
    let get : (i a : ℕ)
        → i < 16
        → a ≡ t + i * 4
        → with_frame mem t f a ≡ get_or (frame_words f) i 0 =
      with_frame-get mem t f in
    let ip = get 12 (f.sp + 8) (omega arith) (omega (arith, e)) in
    let cs = get 13 (f.sp + 12) (omega arith) (omega (arith, e)) in
    let flags = get 14 (f.sp + 16) (omega arith) (omega (arith, e)) in
    let sp : f.sp + 20 ≡ t + 60 = omega (arith, e) in
    trapret-with_frame (with_frame mem t f) mem t f h (λ a k l. refl) ∙ rw (ip, cs, flags, sp) refl

-- The segment registers of the processor have 16 bits, and there is room for a frame on its stack.
abbrev pub HasRoom : Regs → Type 0
HasRoom r =
    (r.gs < 65536)
    × (r.fs < 65536)
    × (r.es < 65536)
    × (r.ds < 65536)
    × (frame_size ≤ r.sp)
    × (r.sp < word)

-- The same, from any memory that holds what alltraps wrote in the frame.
pub trapret-kept :
    (m mem : ℕ → ℕ) (r : Regs) (trapno err : ℕ)
    → HasRoom r
    → ((a : ℕ)
        → sub32 r.sp frame_size ≤ a
        → a < sub32 r.sp frame_size + 64
        → m a ≡ all_traps mem r trapno err a)
    → trapret m (sub32 r.sp frame_size) ≡ r
unfolding all_traps
trapret-kept m mem r trapno err (hg, hf, he, hd, hl, hw) same =
    let e : sub32 r.sp frame_size + 64 ≡ r.sp = omega (arith, hl, hw) in
    let f = trap_frame r trapno err in
    trapret-own m mem (sub32 r.sp frame_size) f (hg, hf, he, hd) same refl
    ∙ ap (regs_of f r.ip r.cs r.flags) e

-- When the segment registers of a thread have 16 bits and 64 bytes of stack are left, trapret
-- behind alltraps gives the thread all its registers back, the stack pointer and the flags too.
pub trapret-all_traps :
    (mem : ℕ → ℕ) (r : Regs) (trapno err : ℕ)
    → HasRoom r
    → trapret (all_traps mem r trapno err) (sub32 r.sp frame_size) ≡ r
trapret-all_traps mem r trapno err h =
    trapret-kept (all_traps mem r trapno err) mem r trapno err h (λ a k l. refl)

-- The last word of the frame, one word below the stack pointer.
pub all_traps-flags :
    (mem : ℕ → ℕ) (r : Regs) (trapno err : ℕ)
    → HasRoom r
    → all_traps mem r trapno err (r.sp - 4) ≡ r.flags
unfolding all_traps
all_traps-flags mem r trapno err (hg, hf, he, hd, hl, hw) =
    with_frame-get mem (sub32 r.sp frame_size) (trap_frame r trapno err) 15 (r.sp - 4) (omega arith)
      (omega (arith, hl, hw))

-- When a trap handler changes the frame by ChangeReturnPC, with the same conditions, the thread
-- goes on as if it had called the new address itself: all registers but ip and sp are as before,
-- the stack pointer is one word lower, and the word there is the address of the trap.
pub trapret-change_return_pc :
    (mem : ℕ → ℕ) (r : Regs) (trapno err pc : ℕ)
    → HasRoom r
    → let t = sub32 r.sp frame_size in
      let mem' = write_words mem t (frame_words (change_return_pc (trap_frame r trapno err) pc)) in
      (trapret mem' t ≡ record r { ip = pc; sp = r.sp - 4 }) × (mem' (r.sp - 4) ≡ r.ip)
unfolding change_return_pc
trapret-change_return_pc mem r trapno err pc (hg, hf, he, hd, hl, hw) =
    let t = sub32 r.sp frame_size in
    let e : sub32 r.sp frame_size + 60 ≡ r.sp - 4 = omega (arith, hl, hw) in
    let f = change_return_pc (trap_frame r trapno err) pc in
    (
      trapret-lower mem t f (hg, hf, he, hd) (omega (arith, hl, hw))
          ∙ ap (regs_of f pc r.cs r.flags) e,
      with_frame-get mem t f 15 (r.sp - 4) (omega arith) (sym e),
    )

-- When a thread with 16-bit segment registers clones itself on a stack with room for the frame and
-- the context, the switch to the child goes on at trapret with the child's frame, and from there
-- the child starts at the given address on an empty stack, with 0 in ax and else the registers
-- of its parent.
pub swtch_to-clone_stack :
    (mem : ℕ → ℕ) (r : Regs) (trapno err trapret_pc pc sp : ℕ)
    → HasRoom r
    → frame_size + context_size ≤ sp
    → sp < word
    → let child = clone_stack mem (trap_frame r trapno err) trapret_pc pc sp in
      (swtch_to child.0 child.1 ≡ (trapret_pc, sub32 sp frame_size))
      × (trapret child.0 (sub32 sp frame_size) ≡ record r { ip = pc; ax = 0; sp = sp })
unfolding clone_stack swtch_to
swtch_to-clone_stack mem r trapno err trapret_pc pc sp (hg, hf, he, hd, hl, hw) room bound =
    let t = sub32 sp frame_size in
    let c = sub32 t context_size + 16 in
    let f = child_frame (trap_frame r trapno err) pc t in
    let low : c + 4 ≡ t = omega (arith, room, bound) in
    let low20 : sub32 t context_size + 20 ≡ t = omega (arith, room, bound) in
    let high : t + 64 ≡ sp = omega (arith, room, bound) in
    let under = write_words-above (with_frame mem t f) c in
    let m = write_words (with_frame mem t f) c (trapret_pc ∷ []) in
    let regs =
      trapret-own m mem t f (hg, hf, he, hd)
        (λ a k l. under a (trapret_pc ∷ []) (omega (arith, low, k))) refl in
    let zeroth : c ≡ c + 0 * 4 = omega arith in
    let ip =
      ap m zeroth ∙ write_words-get (with_frame mem t f) c 0 (trapret_pc ∷ []) (omega arith) in
    (ap₂ (λ x y. (x, y)) ip low20, regs ∙ ap (regs_of f pc r.cs r.flags) high)

-- The switch to the first thread, with room for a context on its stack, goes on at thread0 with the
-- whole stack left.
pub swtch_to-thread0_stack :
    (mem : ℕ → ℕ) (thread0_pc top : ℕ)
    → context_size ≤ top
    → top < word
    → let r = thread0_stack mem thread0_pc top in swtch_to r.0 r.1 ≡ (thread0_pc, top)
unfolding thread0_stack swtch_to
swtch_to-thread0_stack mem thread0_pc top room bound =
    let c = sub32 top context_size + 16 in
    let whole : sub32 top context_size + 20 ≡ top = omega (arith, room, bound) in
    let zeroth : c ≡ c + 0 * 4 = omega arith in
    let ip =
      ap (write_words mem c (thread0_pc ∷ [])) zeroth
      ∙ write_words-get mem c 0 (thread0_pc ∷ []) (omega arith) in
    ap₂ (λ x y. (x, y)) ip whole
