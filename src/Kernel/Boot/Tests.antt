-- ===== src/Kernel/Boot/Tests.antt =====
-- Calls of thread 0 of a machine with two threads.
use eggos.Base.{ℕ, ◌≡◌, refl, false, none, some, [], ◌∷◌, replicate, ok, panic, ◌>>=◌}
use eggos.Kernel.Thread.{
  Thread, State, runnable, running, free_slot, Kernel, alloc_thread, alloc_from, clone,
}
use eggos.Kernel.Irq.{take_irqs, wait_irq}
use eggos.Kernel.Signals.{Signals, rtsigprocmask, signal}
use eggos.Kernel.Epoll.{epoll_wait}
use eggos.Kernel.Boot.{
  Machine, Args, Outcome, returns, waits, halts, aborts, service, serve_call, boot_syscall,
}
use eggos.Mm.{sbrk}

abbrev in_state : ℕ → State → Thread
in_state i s = record { id = i; state = s; sleep_key = 0; in_sleepon = false }

abbrev two : Kernel
two = record {
  threads = in_state 0 running ∷ in_state 1 runnable ∷ replicate 18 free_slot;
  current = 0;
  idx = 1;
  idle = 1;
  traptask = none;
  syscalltask = none;
}

-- Every signal is handled at 500, on a stack of 100 bytes at 1000.
abbrev signals : Signals
signals = record {
  actions = λ n. record { sa_handler = 500; sa_flags = 0; sa_restorer = 0; sa_mask = 0 };
  stacks = λ i. record { ss_sp = 1000; ss_flags = 0; ss_size = 100 };
  masks = λ i. (5, 0);
}

abbrev machine : Machine
machine = record {
  kernel = two;
  mm = record { mem = λ a. 0; memtop = 65536; freelist = 0; voffset = 4096; allocs = 0; pgdir = 0 };
  epoll = record { registered = []; note = 0 };
  counter = 1;
  sleeplock = 71;
  irqset = 6;
  irq_lock = 72;
  masked = [];
  pending = 0;
  pending_lock = 73;
  signals = signals;
  sinfo_at = 81;
  sigctx_at = 82;
  tls = λ i. record { entry_number = 0; base_addr = 0; limit = 0 };
  printed = [];
}

abbrev args : ℕ → ℕ → ℕ → Args
args x y z = record {
  a0 = x;
  a1 = y;
  a2 = z;
  a3 = 0;
  bytes = [];
  desc = record { entry_number = 0; base_addr = 0; limit = 0 };
  event = record { events = 0; user_data = 0 };
  word_at = 0;
  time = none;
  sleep_time = record { tv_sec = 0; tv_nsec = 0 };
  action = none;
  mask = some (4, 0);
  stack = none;
  start = 0;
  reading = 0;
}

abbrev value_of : Outcome → ℕ
value_of (returns v s m) = v
value_of (waits m) = 0
value_of halts = 0
value_of (aborts none m) = 0
value_of (aborts (some d) m) = d.sp

brk_test : (boot_syscall machine (args 0 0 0) 45 >>= λ o. ok (value_of o)) ≡ ok 4096
unfolding boot_syscall service serve_call sbrk
brk_test = refl

clone_call_test : (boot_syscall machine (args 0 0 0) 120 >>= λ o. ok (value_of o)) ≡ ok 2
unfolding boot_syscall service serve_call clone alloc_thread alloc_from
clone_call_test = refl

wait_irq_test : (boot_syscall machine (args 0 0 0) 500 >>= λ o. ok (value_of o)) ≡ ok 6
unfolding boot_syscall service serve_call wait_irq take_irqs
wait_irq_test = refl

-- A call without a case is aborted: the handler finds three words on its stack.
unknown_test : (boot_syscall machine (args 0 0 0) 999 >>= λ o. ok (value_of o)) ≡ ok 1088
unfolding boot_syscall service serve_call signal
unknown_test = refl

long_wait_test : boot_syscall machine (args 3 0 300) 256 ≡ panic
unfolding boot_syscall service serve_call epoll_wait
long_wait_test = refl

-- SIG_UNBLOCK
unblock_test : (rtsigprocmask signals 0 1 (some (4, 0))).1.masks 0 ≡ (1, 0)
unfolding rtsigprocmask
unblock_test = refl
