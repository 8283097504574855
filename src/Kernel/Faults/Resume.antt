-- ===== src/Kernel/Faults/Resume.antt =====
-- What a thread goes on with behind a fault, and what its handler finds on the signal stack.
use eggos.Base.{
  ℕ, ◌+◌, ◌-◌, ◌%◌, ◌<◌, ◌≤◌, ◌≡◌, ◌≢◌, refl, ◌∙◌, subst, Bool, false, Option, none, some, [], ◌∷◌,
  ◌⊎◌, inl, inr, ◌==◌, leb, if◌then◌else◌, Result, ok, panic, arith, Bool-cases,
}
use eggos.Base.Words.{word, sub32}
use eggos.Kernel.Frames.{Regs, frame_size, write_words, read_words, trap_frame, all_traps, trapret}
use eggos.Kernel.Frames.Words.{write_words-below, write_words-above, read_words-write_words}
use eggos.Kernel.Frames.Resume.{HasRoom, trapret-kept, all_traps-flags, trapret-change_return_pc}
use eggos.Kernel.Signals.{Signals, Delivery, signal}
use eggos.Kernel.Faults.{
  SigInfo, SigContext, Places, Handler, exception, call_sig_handler, after_handler, signal_thread,
  take_fault, take_exception,
}

-- The end of the signal stack of a thread.
abbrev pub stack_top : Signals → ℕ → ℕ
stack_top s my = (s.stacks my).ss_sp + (s.stacks my).ss_size

-- The call of the handler on that stack.
abbrev pub delivery : Signals → ℕ → Places → SigInfo → Delivery
delivery s my at info = record {
  handler = (s.actions info.si_signo).sa_handler;
  sp = (stack_top s my + word - 12) % word;
  pushed = info.si_signo ∷ at.sinfo ∷ at.sigctx ∷ [];
}

-- The thread has a handler for the signal and a signal stack with room for the arguments, which
-- does not reach into the frame at t.
pub record CanSignal (s : Signals) (my : ℕ) (info : SigInfo) (t : ℕ) : Type 0 where
  pub known : info.si_signo < 128
  pub set : (s.actions info.si_signo).sa_handler ≢ 0
  pub stack : (s.stacks my).ss_sp ≢ 0
  pub room : 28 ≤ stack_top s my
  pub below : stack_top s my < word
  pub apart : (stack_top s my ≤ t) ⊎ (t + 64 ≤ stack_top s my - 28)

-- The handler leaves the frame at t as it is.
abbrev pub KeepsFrame : Handler → ℕ → Type 0
KeepsFrame handler t =
    (mem : ℕ → ℕ) (sp : ℕ) (info : SigInfo) (ctx : SigContext) (i : ℕ)
    → i < 64
    → (handler mem sp info ctx).0 (t + i) ≡ mem (t + i)

-- The handler is entered with the address to return to and its three arguments on its stack, when 16
-- bytes are left there.
pub read_words-call_sig_handler :
    (mem : ℕ → ℕ) (s : Signals) (my : ℕ) (at : Places) (info : SigInfo)
    → let entry = call_sig_handler mem (delivery s my at info) at.return_pc in
      read_words entry.0 entry.1 4 ≡ at.return_pc ∷ info.si_signo ∷ at.sinfo ∷ at.sigctx ∷ []
unfolding call_sig_handler
read_words-call_sig_handler mem s my at info =
    let d = delivery s my at info in
    read_words-write_words (write_words mem d.sp d.pushed) (sub32 d.sp 16) (at.return_pc ∷ d.pushed)

signal-delivery :
    (s : Signals) (my t : ℕ) (at : Places) (info : SigInfo)
    → CanSignal s my info t
    → signal s my info.si_signo at.sinfo at.sigctx ≡ ok (some (delivery s my at info))
unfolding signal
signal-delivery s my t at info can =
    let known : leb 128 info.si_signo ≡ false = ground (arith, can.known) in
    let set : ((s.actions info.si_signo).sa_handler == 0) ≡ false = ground (arith, can.set) in
    let stack : ((s.stacks my).ss_sp == 0) ≡ false = ground (arith, can.stack) in
    rw (known, set, stack) refl

-- The arguments do not reach into the frame.
call_sig_handler-keeps :
    (mem : ℕ → ℕ) (s : Signals) (my t : ℕ) (at : Places) (info : SigInfo) (a : ℕ)
    → CanSignal s my info t
    → t ≤ a
    → a < t + 64
    → (call_sig_handler mem (delivery s my at info) at.return_pc).0 a ≡ mem a
unfolding call_sig_handler
call_sig_handler-keeps mem s my t at info a can low high =
    let d = delivery s my at info in
    let top : d.sp ≡ stack_top s my - 12 = omega (arith, can.room, can.below) in
    let entry : sub32 d.sp 16 ≡ stack_top s my - 28 = omega (arith, top, can.room, can.below) in
    let args = write_words mem d.sp d.pushed in
    elim can.apart [
      | inl under ↦
          write_words-above args (sub32 d.sp 16) a (at.return_pc ∷ d.pushed)
            (omega (arith, entry, can.room, under, low))
          ∙ write_words-above mem d.sp a d.pushed (omega (arith, top, can.room, under, low))
      | inr over ↦
          write_words-below args (sub32 d.sp 16) a (at.return_pc ∷ d.pushed)
            (omega (arith, entry, over, high))
          ∙ write_words-below mem d.sp a d.pushed (omega (arith, top, over, high))
    ]

-- The context that the handler gets, and what it leaves.
abbrev pub handled :
    Handler → Signals → ℕ → Places → SigInfo → (ℕ → ℕ) → Regs → ℕ → ℕ → (ℕ → ℕ) × SigContext
handled handler s my at info mem r trapno err =
    let entry =
      call_sig_handler (all_traps mem r trapno err) (delivery s my at info) at.return_pc in
    handler entry.0 entry.1 info (record { uc_stack = s.stacks my; eip = r.ip; esp = at.dummy })

-- The thread goes on with r where the address is that of the fault, and otherwise as if it had
-- called the address from there.
pub GoesOn : Regs → ℕ → Option (Result ((ℕ → ℕ) × Regs)) → Type 0
GoesOn r eip none = ⊥
GoesOn r eip (some panic) = ⊥
GoesOn r eip (some (ok (m, r'))) =
    (r' ≡ (if r.ip == eip then r else record r { ip = eip; sp = r.sp - 4 }))
    × (m (r.sp - 4) ≡ (if r.ip == eip then r.flags else r.ip))

-- Behind a handler, with the frame still in the memory.
after_handler-GoesOn :
    (m mem : ℕ → ℕ) (ctx : SigContext) (r : Regs) (trapno err : ℕ)
    → HasRoom r
    → ((a : ℕ)
        → sub32 r.sp frame_size ≤ a
        → a < sub32 r.sp frame_size + 64
        → m a ≡ all_traps mem r trapno err a)
    → let t = sub32 r.sp frame_size in
      let m' = after_handler (trap_frame r trapno err) t (m, ctx) in
      GoesOn r ctx.eip (some (ok (m', trapret m' t)))
unfolding GoesOn
after_handler-GoesOn m mem ctx r trapno err room same =
    let (hg, hf, he, hd, hl, hw) = room in
    let top : m (r.sp - 4) ≡ r.flags =
      same (r.sp - 4) (omega (arith, hl, hw)) (omega (arith, hl, hw))
      ∙ all_traps-flags mem r trapno err room in
    elim (Bool-cases (r.ip == ctx.eip)) [
      | inl e ↦ rw e (trapret-kept m mem r trapno err room same, top)
      | inr e ↦ rw e (trapret-change_return_pc m r trapno err ctx.eip room)
    ]

-- A page fault, or a trap that has no handler, of a thread with a signal handler and a signal stack, of which the handler leaves the frame
-- alone: when the handler leaves the address of the fault in the context, the thread goes on there
-- with all its registers; when it puts another one there, the thread goes on as if it had called
-- that address at the fault.
pub take_exception-GoesOn :
    (handler : Handler) (s : Signals) (my : ℕ) (at : Places) (mem : ℕ → ℕ) (r : Regs)
    (has_handler : ℕ → Bool) (trapno err cr2 : ℕ) (info : SigInfo)
    → exception has_handler trapno cr2 ≡ some info
    → HasRoom r
    → CanSignal s my info (sub32 r.sp frame_size)
    → KeepsFrame handler (sub32 r.sp frame_size)
    → GoesOn r
        (handled handler s my at info mem r trapno err).1.eip
        (take_exception handler s my at mem r has_handler trapno err cr2)
unfolding take_exception take_fault signal_thread
take_exception-GoesOn handler s my at mem r has_handler trapno err cr2 info given room can keeps =
    let t = sub32 r.sp frame_size in
    let m0 = all_traps mem r trapno err in
    let out = handled handler s my at info mem r trapno err in
    let entry = call_sig_handler m0 (delivery s my at info) at.return_pc in
    let same : (a : ℕ) → t ≤ a → a < t + 64 → out.0 a ≡ m0 a = λ a low high.
      let e : t + (a - t) ≡ a = omega (arith, low) in
      subst (λ x. out.0 x ≡ entry.0 x) e
        (keeps entry.0 entry.1 info _ (a - t) (omega (arith, low, high)))
      ∙ call_sig_handler-keeps m0 s my t at info a can low high in
    rw (given, signal-delivery s my t at info can)
      (after_handler-GoesOn out.0 mem out.1 r trapno err room same)
