-- ===== src/Kernel/Boot.antt =====
-- kernel/syscall.go: the calls that the kernel serves itself, on the state of all its parts. What
-- the arguments point to is part of the call, and what is stored for the caller part of the reply.
pub mod Known
pub mod Tests
use eggos.Base.{
  ℕ, zero, suc, ◌+◌, ◌-◌, ◌%◌, Bool, true, false, Option, none, some, List, [], ◌∷◌, length, ltb,
  ◌==◌, ◌||◌, if◌then◌else◌, Result, ok, panic, ◌>>=◌,
}
use eggos.Base.Words.{word}
use eggos.Kernel.Clock.{
  Timespec, Clock, Pause, returned, sleeps, nanosecond, clocktime, nanosleep, futex,
}
use eggos.Kernel.Epoll.{Epoll, UserEvent, CtlReply, done, failed, epoll_ctl, epoll_wait}
use eggos.Kernel.Forward.{Forward, fetch_pending_call}
use eggos.Kernel.Irq.{Traps, Waiting, taken, asleep, wait_irq}
use eggos.Kernel.Signals.{
  Action, SigStack, SigSet, Signals, Delivery, sigaltstack, rtsigprocmask, rt_sigaction, signal,
  update,
}
use eggos.Kernel.Thread.{Kernel, thread, clone, exit, yield}
use eggos.Mm.{Mm, sbrk, mmap_kernel}

-- userDesc
pub record UserDesc : Type 0 where
  pub entry_number : ℕ
  pub base_addr : ℕ
  pub limit : ℕ

-- The variables of the kernel's parts, with the addresses that threads sleep on, and the bytes
-- written to the serial port.
pub record Machine : Type 0 where
  pub kernel : Kernel
  pub mm : Mm
  pub epoll : Epoll
  pub counter : ℕ
  pub sleeplock : ℕ
  pub irqset : ℕ
  pub irq_lock : ℕ
  pub masked : List ℕ
  pub pending : ℕ
  pub pending_lock : ℕ
  pub signals : Signals
  pub sinfo_at : ℕ
  pub sigctx_at : ℕ
  pub tls : ℕ → UserDesc
  pub printed : List (List ℕ)

-- A call: its arguments and what they point to, the time at which it was made, and what the
-- counter of the timer reads.
pub record Args : Type 0 where
  pub a0 : ℕ
  pub a1 : ℕ
  pub a2 : ℕ
  pub a3 : ℕ
  pub bytes : List ℕ
  pub desc : UserDesc
  pub event : UserEvent
  pub word_at : ℕ
  pub time : Option Timespec
  pub sleep_time : Timespec
  pub action : Option Action
  pub mask : Option SigSet
  pub stack : Option SigStack
  pub start : ℕ
  pub reading : ℕ

pub data Stored : Type 0 where
  nothing : Stored
  entry : ℕ → Stored
  old_action : Option Action → Stored
  old_mask : SigSet → Stored
  old_stack : SigStack → Stored
  clock_time : Timespec → Stored
  events : List UserEvent → Stored

-- A call returns, sleeps and goes on from there when its thread runs again, stops the machine, or
-- is aborted by a signal to its thread.
pub data Outcome : Type 0 where
  returns : ℕ → Stored → Machine → Outcome
  waits : Machine → Outcome
  halts : Outcome
  aborts : Option Delivery → Machine → Outcome

-- The switch of doBootSyscall over the number.
pub data Service : Type 0 where
  do_exit set_thread_area do_read do_write do_open nothing_to_do sched_yield do_nanosleep do_brk :
      Service
  mmap2 do_clone gettid do_futex getaffinity sigaction sigprocmask altstack clock_gettime : Service
  exit_group fcntl readlinkat epoll_create do_epoll_ctl do_epoll_wait random do_wait_irq : Service
  wait_syscall unknown : Service

abbrev or_else : Bool → Service → Service → Service
or_else b s t = if b then s else t

unfoldable pub service : ℕ → Service
service n = or_else (n == 1) do_exit (
    or_else (n == 243) set_thread_area (
      or_else (n == 3) do_read (
        or_else (n == 4) do_write (
          or_else (n == 5) do_open (
            or_else (n == 6 || (n == 122 || (n == 91 || n == 219))) nothing_to_do (
              or_else (n == 158) sched_yield (
                or_else (n == 162) do_nanosleep (
                  or_else (n == 45) do_brk (
                    or_else (n == 192) mmap2 (
                      or_else (n == 120) do_clone (
                        or_else (n == 224) gettid (
                          or_else (n == 240) do_futex (
                            or_else (n == 242) getaffinity (
                              or_else (n == 174) sigaction (
                                or_else (n == 175) sigprocmask (
                                  or_else (n == 186) altstack (
                                    or_else (n == 265) clock_gettime (
                                      or_else (n == 252) exit_group (
                                        or_else (n == 55 || n == 221) fcntl (
                                          or_else (n == 305) readlinkat (
                                            or_else (n == 329) epoll_create (
                                              or_else (n == 255) do_epoll_ctl (
                                                or_else (n == 256) do_epoll_wait (
                                                  or_else (n == 355) random (
                                                    or_else (n == 500) do_wait_irq (
                                                      or_else (n == 501) wait_syscall
                                                        unknown))))))))))))))))))))))))))

abbrev clock_of : Machine → Clock
clock_of m = record { kernel = m.kernel; counter = m.counter; sleeplock = m.sleeplock }

abbrev traps_of : Machine → Traps
traps_of m = record {
  kernel = m.kernel;
  irqset = m.irqset;
  irq_lock = m.irq_lock;
  masked = m.masked;
}

abbrev forward_of : Machine → Forward
forward_of m = record { kernel = m.kernel; pending = m.pending; lock = m.pending_lock }

-- The results of the parts, put back.
abbrev paused : Machine → Pause → Outcome
paused m (returned k) = returns 0 nothing (record m { kernel = k })
paused m (sleeps k) = waits (record m { kernel = k })

abbrev allocated : Machine → ℕ × Mm → Outcome
allocated m (p, mm) = returns p nothing (record m { mm = mm })

abbrev controlled : Machine → CtlReply × Epoll → Outcome
controlled m (done, e) = returns 0 nothing (record m { epoll = e })
controlled m (failed, e) = returns (word - 1) nothing (record m { epoll = e })

abbrev collected : Machine → List UserEvent × Epoll → Outcome
collected m (es, e) = returns (length es) (events es) (record m { epoll = e })

-- A sleep of waitIRQ ends with the set as it then is.
abbrev irqs_taken : Machine → Waiting → Outcome
irqs_taken m (taken set t) = returns set nothing (record m { kernel = t.kernel; irqset = t.irqset })
irqs_taken m (asleep t) = waits (record m { kernel = t.kernel })

abbrev call_fetched : Machine → Option ℕ × Forward → Outcome
call_fetched m (none, f) = waits (record m { kernel = f.kernel })
call_fetched m (some call, f) =
    returns call nothing (record m { kernel = f.kernel; pending = f.pending })

-- mmap reserves with PROT_NONE, which is 0, and maps otherwise.
abbrev boot_mmap : Mm → ℕ → ℕ → ℕ → Result (ℕ × Mm)
boot_mmap mm addr n prot = if prot == 0 then sbrk mm n else mmap_kernel mm addr n

unfoldable pub serve_call : Machine → Args → Service → Result Outcome
serve_call m a do_exit = ok (returns 0 nothing (record m { kernel = exit m.kernel }))
serve_call m a set_thread_area = ok (
    returns 0 (entry 3)
      (record m { tls = update m.tls m.kernel.current (record a.desc { entry_number = 3 }) }))
serve_call m a do_read = ok (returns a.a2 nothing m)
serve_call m a do_write = ok (
    returns a.a2 nothing
      (if a.a0 == 1 || a.a0 == 2 then record m { printed = a.bytes ∷ m.printed } else m))
serve_call m a do_open = ok (returns (word - 1) nothing m)
serve_call m a nothing_to_do = ok (returns 0 nothing m)
serve_call m a sched_yield = ok (returns 0 nothing (record m { kernel = yield m.kernel }))
serve_call m a do_nanosleep =
    ok (paused m (nanosleep (clock_of m) a.sleep_time a.start (nanosecond m.counter a.reading)))
serve_call m a do_brk = sbrk m.mm 0 >>= λ r. ok (allocated m r)
serve_call m a mmap2 = boot_mmap m.mm a.a0 a.a1 a.a2 >>= λ r. ok (allocated m r)
serve_call m a do_clone =
    clone m.kernel >>= λ r. ok (returns r.0 nothing (record m { kernel = r.1 }))
serve_call m a gettid = ok (returns (thread m.kernel.threads m.kernel.current).id nothing m)
serve_call m a do_futex =
    futex (clock_of m) a.a0 a.word_at a.a1 a.a2 a.time a.start (nanosecond m.counter a.reading)
    >>= λ p. ok (paused m p)
serve_call m a getaffinity = ok (returns (word - 1) nothing m)
serve_call m a sigaction =
    let r = rt_sigaction m.signals a.a0 a.action in
    ok (returns r.0.0 (old_action r.0.1) (record m { signals = r.1 }))
serve_call m a sigprocmask =
    let r = rtsigprocmask m.signals m.kernel.current a.a0 a.mask in
    ok (returns 0 (old_mask r.0) (record m { signals = r.1 }))
serve_call m a altstack =
    let r = sigaltstack m.signals m.kernel.current a.stack in
    ok (returns 0 (old_stack r.0) (record m { signals = r.1 }))
serve_call m a clock_gettime = ok (returns 0 (clock_time (clocktime m.counter a.reading)) m)
serve_call m a exit_group = ok halts
serve_call m a fcntl = ok (returns (word - 1) nothing m)
serve_call m a readlinkat = ok (returns (word - 1) nothing m)
serve_call m a epoll_create = ok (returns 3 nothing m)
serve_call m a do_epoll_ctl = ok (controlled m (epoll_ctl m.epoll a.a1 a.a2 a.event))
serve_call m a do_epoll_wait = epoll_wait m.epoll a.a2 a.a3 >>= λ r. ok (collected m r)
serve_call m a random = ok (returns a.a1 nothing m)
serve_call m a do_wait_irq = ok (irqs_taken m (wait_irq (traps_of m)))
serve_call m a wait_syscall = ok (call_fetched m (fetch_pending_call (forward_of m)))
serve_call m a unknown =
    signal m.signals m.kernel.current 6 m.sinfo_at m.sigctx_at >>= λ d. ok (aborts d m)

-- doBootSyscall
unfoldable pub boot_syscall : Machine → Args → ℕ → Result Outcome
unfolding service serve_call
boot_syscall m a number = serve_call m a (service number)
