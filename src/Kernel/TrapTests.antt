-- ===== src/Kernel/TrapTests.antt =====
-- Traps, time and forwarded calls at concrete states of the thread table: thread 0 runs, 1 is the
-- idle thread, 2 the trap task, which sleeps on the lock 5.
use eggos.Base.{
  ◌==◌, ℕ, ◌≤◌, ◌≡◌, refl, true, false, [], ◌∷◌, Option, some, none, inl, replicate, arith, panic,
}
use eggos.Kernel.Thread.{Thread, State, sleeping, runnable, running, free_slot, Kernel, sleepon}
use eggos.Kernel.Wakeup.{waiting}
use eggos.Kernel.Irq.{Traps, dispatch, dispatch_from, handled, missing}
use eggos.Kernel.Irq.Dispatch.{noted_set}
use eggos.Kernel.Irq.Wake.{IsWaiting}
use eggos.Kernel.Clock.{Clock, Timespec, nanosecond, nanosleep, futex, sleeps}
use eggos.Kernel.Clock.Time.{nanosecond-le}
use eggos.Kernel.Forward.{
  Forward, forward_call, fetch_pending_call, syscall_intr, can_forward, is_kernel_call, forwarded,
  served,
}
use eggos.Kernel.Forward.Handover.{
  History, submit, fetch, here, next, InOrder, submit_history, fetch_history, Reach-InOrder,
}

abbrev plain : ℕ → State → Thread
plain i s = record { id = i; state = s; sleep_key = 0; in_sleepon = false }

abbrev three : Kernel
three = record {
  threads =
      plain 0 running
      ∷ plain 1 runnable
      ∷ record { id = 2; state = sleeping; sleep_key = 5; in_sleepon = true }
      ∷ replicate 17 free_slot;
  current = 0;
  idx = 1;
  idle = 1;
  traptask = some 2;
  syscalltask = none;
}

abbrev traps : Traps
traps = record { kernel = three; irqset = 0; irq_lock = 5; masked = [] }

-- The timer's and the keyboard's line, the second of them twice.
noted_set_test : noted_set (33 ∷ 43 ∷ 33 ∷ []) ≡ 2050
unfolding noted_set
noted_set_test = refl

dispatch_test : dispatch (λ number. number == 33) 2050 ≡ handled 33 ∷ missing 43 ∷ []
unfolding dispatch dispatch_from
dispatch_test = refl

traps-IsWaiting : IsWaiting traps 2
unfolding waiting
traps-IsWaiting = record {
  task = refl;
  inside = omega arith;
  asleep = refl;
  first = refl;
  other_runs = λ e. omega (arith, e);
}

nanosecond-le_example : nanosecond 7 10 ≤ nanosecond 8 11000
nanosecond-le_example = nanosecond-le 7 10 8 11000 (omega arith) (omega arith) (inl (omega arith))

abbrev clock : Clock
clock = record { kernel = three; counter = 0; sleeplock = 9 }

abbrev seconds : ℕ → Timespec
seconds n = record { tv_sec = n; tv_nsec = 0 }

short_sleep_test : nanosleep clock (seconds 2) 0 0 ≡ sleeps (sleepon three 9)
unfolding nanosleep
short_sleep_test = refl

unknown_futex_test : futex clock 1 0 5 0 none 0 0 ≡ panic
unfolding futex
unknown_futex_test = refl

abbrev slot : Forward
slot = record { kernel = three; pending = 0; lock = 8 }

abbrev start : History
start = record { forward = slot; given = []; fetched = [] }

abbrev filled : History
filled = submit_history start 100 (forward_call slot 100 101)

abbrev emptied : History
emptied = fetch_history filled (fetch_pending_call filled.forward)

Reach-InOrder_example : InOrder emptied
Reach-InOrder_example =
    Reach-InOrder {a = start} (next (next here (submit 100 101 (λ e. omega (arith, e)))) fetch) refl

emptied_test : emptied.fetched ≡ 100 ∷ []
unfolding forward_call fetch_pending_call
emptied_test = refl

-- A write to standard error is served by the kernel, one to a file is forwarded.
routes_test :
    (syscall_intr three true true 4 2 ≡ served) × (syscall_intr three true true 4 3 ≡ forwarded)
unfolding syscall_intr can_forward is_kernel_call
routes_test = (refl, refl)

abbrev no_handlers : ℕ → Option ℕ
no_handlers number = none
