-- ===== src/Kernel/Faults.antt =====
-- Faults: from the trap of a thread through Signal and callSigHandler (kernel/signal.go,
-- kernel/asm.s) to what the thread goes on with. The handler, which is the Go runtime's, is a
-- parameter; it gets the memory, its stack pointer and the context, and gives memory and context.
pub mod Resume
pub mod Tests
use eggos.Base.{
  ℕ, ◌+◌, ◌-◌, ◌*◌, ◌%◌, Bool, true, false, Option, none, some, List, [], ◌∷◌, ◌==◌, ◌||◌,
  if◌then◌else◌, Result, ok, panic, ◌>>=◌,
}
use eggos.Base.Words.{word, sub32}
use eggos.Kernel.Frames.{
  TrapFrame, Regs, frame_size, write_words, frame_words, trap_frame, all_traps, trapret,
  change_return_pc,
}
use eggos.Kernel.Signals.{SigStack, Signals, Delivery, signal}

-- siginfo
pub record SigInfo : Type 0 where
  pub si_signo : ℕ
  pub si_code : ℕ
  pub si_addr : ℕ

-- What pageFaultHandler and faultHandler call Signal with: SIGSEGV is 11, SIGABRT is 6.
abbrev pub page_fault_handler : ℕ → SigInfo
page_fault_handler cr2 = record { si_signo = 11; si_code = 2; si_addr = cr2 }

abbrev pub fault_handler : ℕ → SigInfo
fault_handler trapno = record { si_signo = 6; si_code = trapno; si_addr = 0 }

-- What dotrap calls Signal with, if it does: for 14, of which pageFaultHandler is the handler, and
-- for a number that has no handler. The ways of the others are those of Kernel/Irq.
abbrev pub exception : (ℕ → Bool) → ℕ → ℕ → Option SigInfo
exception has_handler trapno cr2 =
    if trapno == 14
    then some (page_fault_handler cr2)
    else if has_handler trapno
    then none
    else some (fault_handler trapno)

-- The part of ucontext that Signal fills in.
pub record SigContext : Type 0 where
  pub uc_stack : SigStack
  pub eip : ℕ
  pub esp : ℕ

-- The addresses of sinfo, sigctx and dummy, and the one to which the handler returns.
pub record Places : Type 0 where
  pub sinfo : ℕ
  pub sigctx : ℕ
  pub dummy : ℕ
  pub return_pc : ℕ

abbrev pub Handler : Type 0
Handler = (ℕ → ℕ) → ℕ → SigInfo → SigContext → (ℕ → ℕ) × SigContext

-- callSigHandler: it stores the arguments below those of Signal, and the call stores where to return.
unfoldable pub call_sig_handler : (ℕ → ℕ) → Delivery → ℕ → (ℕ → ℕ) × ℕ
call_sig_handler mem d return_pc =
    let entry = sub32 d.sp 16 in
    (write_words (write_words mem d.sp d.pushed) entry (return_pc ∷ d.pushed), entry)

-- The end of Signal: the frame is changed when the handler changed the address.
abbrev pub after_handler : TrapFrame → ℕ → (ℕ → ℕ) × SigContext → ℕ → ℕ
after_handler f t (mem, ctx) =
    if f.ip == ctx.eip then mem else write_words mem t (frame_words (change_return_pc f ctx.eip))

-- Signal with a handler, on the memory with the frame at t.
abbrev pub run_handler :
    Handler → Signals → ℕ → Places → SigInfo → (ℕ → ℕ) → TrapFrame → ℕ → Option Delivery → ℕ → ℕ
run_handler handler s my at info mem f t none = mem
run_handler handler s my at info mem f t (some d) =
    let entry = call_sig_handler mem d at.return_pc in
    after_handler f t
      (handler entry.0 entry.1 info (record { uc_stack = s.stacks my; eip = f.ip; esp = at.dummy }))

unfoldable pub signal_thread :
    Handler → Signals → ℕ → Places → SigInfo → (ℕ → ℕ) → TrapFrame → ℕ → Result (ℕ → ℕ)
unfolding signal call_sig_handler
signal_thread handler s my at info mem f t = signal s my info.si_signo at.sinfo at.sigctx >>= λ d.
    ok (run_handler handler s my at info mem f t d)

-- A fault of a thread with the given registers: the memory and the registers that it goes on with.
unfoldable pub take_fault :
    Handler → Signals → ℕ → Places → (ℕ → ℕ) → Regs → ℕ → ℕ → SigInfo → Result ((ℕ → ℕ) × Regs)
unfolding all_traps signal_thread trapret
take_fault handler s my at mem r trapno err info =
    let t = sub32 r.sp frame_size in
    signal_thread handler s my at info (all_traps mem r trapno err) (trap_frame r trapno err) t
    >>= λ m. ok (m, trapret m t)

abbrev pub on_fault : {A : Type 0} → Option SigInfo → (SigInfo → A) → Option A
on_fault none f = none
on_fault (some info) f = some (f info)

-- dotrap, for the traps that are faults, where has_handler tells of which numbers trapHandlers has
-- one; none for the other traps.
unfoldable pub take_exception :
    Handler
    → Signals
    → ℕ
    → Places
    → (ℕ → ℕ)
    → Regs
    → (ℕ → Bool)
    → ℕ
    → ℕ
    → ℕ
    → Option (Result ((ℕ → ℕ) × Regs))
unfolding take_fault
take_exception handler s my at mem r has_handler trapno err cr2 =
    on_fault (exception has_handler trapno cr2) (take_fault handler s my at mem r trapno err)
