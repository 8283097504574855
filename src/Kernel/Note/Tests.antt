-- ===== src/Kernel/Note/Tests.antt =====
-- kernel/lock.go: a sleep on a note and its wakeup, run.
use eggos.Base.{ℕ, suc, zero, ◌≡◌, refl, true, false, none, [], ◌∷◌, ◌==◌, inl, ok, arith}
use eggos.Kernel.Thread.{
  State, runnable, running, Thread, Kernel, thread, sleepon, schedule, fall_asleep, pickup,
  pick_other, pick_loop, wakeup, wake_from,
}
use eggos.Kernel.Clock.{futex}
use eggos.Kernel.Note.{Note, note_sleep, note_wakeup}
use eggos.Kernel.Note.Lost.{NotLost, with_kernel, waited, was_set, done, more, NoteSteps-NotLost}

abbrev a_thread : ℕ → State → Thread
a_thread i s = record { id = i; state = s; sleep_key = 0; in_sleepon = false }

-- Thread 1 runs and thread 0 is the idle thread.
abbrev two_threads : Kernel
two_threads = record {
  threads = a_thread 0 runnable ∷ a_thread 1 running ∷ [];
  current = 1;
  idx = 0;
  idle = 0;
  traptask = none;
  syscalltask = none;
}

abbrev fresh : Note
fresh = record {
  clock = record { kernel = two_threads; counter = 1; sleeplock = 64 };
  address = 128;
  value = 0;
}

abbrev asleep : Note
asleep = with_kernel fresh (sleepon two_threads 128)

abbrev awake : Note
awake = record asleep {
  clock = record asleep.clock { kernel = wakeup asleep.clock.kernel 128 1 };
  value = 1;
}

falls_asleep : note_sleep fresh none 0 0 ≡ ok asleep
unfolding note_sleep futex
falls_asleep = refl

is_woken : note_wakeup asleep 0 ≡ ok awake
unfolding note_wakeup futex
is_woken = refl

wakes_one : (thread awake.clock.kernel.threads 1).state ≡ runnable
unfolding wakeup wake_from sleepon schedule fall_asleep pickup pick_other pick_loop
wakes_one = refl

fresh-NotLost : NotLost 1 fresh
fresh-NotLost = record {
  own = λ h. omega (arith, h);
  nonzero = λ h. omega (arith, h);
  only = no_key;
  awake = inl refl;
}
  where
    no_key : (i : ℕ) → ((thread two_threads.threads i).sleep_key == 128) ≡ true → i ≡ 1
    no_key zero h = absurd (ground (arith, h))
    no_key (suc zero) h = refl
    no_key (suc (suc i)) h = absurd (ground (arith, h))

NoteSteps-NotLost_example : NotLost 1 awake
NoteSteps-NotLost_example =
    NoteSteps-NotLost 1 fresh awake
      (more fresh asleep awake (waited fresh asleep 0 0 refl falls_asleep)
        (more asleep awake awake (was_set asleep awake 0 is_woken) (done awake)))
      fresh-NotLost
